-- ===== src/Startup/Interfaces.antt =====
-- The search for the address of eth0 in server/servidor.c.
use ssdd_final.Base.{
  ◌≡◌, ◌≢◌, refl, Option, none, some, List, [], ◌∷◌, ap, sym, ◌∙◌, ◌↔◌, Option-cases, Bool-cases,
  inl, inr,
}
use ssdd_final.CString.{Bytes, strcmp_eq, eq_of_strcmp_eq}
use ssdd_final.Rpc.{codes}
use ssdd_final.Startup.{IfaAddr, af_inet, other, Ifaddrs, eth0_host, find_ip}

-- an IPv4 interface of the name eth0, with a text for its address
pub record IsEth0 (host : Bytes) (ifa : Ifaddrs) : Type 0 where
  pub name : ifa.ifa_name ≡ codes "eth0"
  pub addr : ifa.ifa_addr ≡ some (af_inet (some host))

-- the first such interface of a list
pub data First (host : Bytes) : List Ifaddrs → Type 0 where
  here : {ifa : Ifaddrs} {after : List Ifaddrs} → IsEth0 host ifa → First host (ifa ∷ after)
  later :
      {ifa : Ifaddrs} {after : List Ifaddrs}
      → ((h : Bytes) → ¬ IsEth0 h ifa)
      → First host after
      → First host (ifa ∷ after)

none_not_some : (h : Bytes) → none ≢ some h
none_not_some h e = cc

eth0_host-IsEth0 :
    (name : Bytes) (addr : Option IfaAddr) (host : Bytes)
    → eth0_host name addr ≡ some host
    → IsEth0 host (record { ifa_name = name; ifa_addr = addr })
unfolding eth0_host
eth0_host-IsEth0 name none host e = cc
eth0_host-IsEth0 name (some other) host e = cc
eth0_host-IsEth0 name (some (af_inet none)) host e = cc
eth0_host-IsEth0 name (some (af_inet (some h))) host e =
    elim (Bool-cases (strcmp_eq name (codes "eth0"))) [
      | inl y ↦ record {
        name = eq_of_strcmp_eq name (codes "eth0") y;
        addr = ap (λ o. some (af_inet o)) (rw y at e);
      }
      | inr n ↦ absurd (none_not_some host (rw n at e))
    ]

eth0_host_of_IsEth0 :
    (ifa : Ifaddrs) (host : Bytes)
    → IsEth0 host ifa
    → eth0_host ifa.ifa_name ifa.ifa_addr ≡ some host
unfolding eth0_host strcmp_eq
eth0_host_of_IsEth0 ifa host e = rw (e.addr, e.name) refl

eth0_host-none :
    (ifa : Ifaddrs) → eth0_host ifa.ifa_name ifa.ifa_addr ≡ none → (h : Bytes) → ¬ IsEth0 h ifa
eth0_host-none ifa e h p = none_not_some h (sym e ∙ eth0_host_of_IsEth0 ifa h p)

find_ip_to_First : (ifs : List Ifaddrs) (host : Bytes) → find_ip ifs ≡ some host → First host ifs
unfolding find_ip
find_ip_to_First [] host e = absurd (none_not_some host e)
find_ip_to_First (ifa ∷ rest) host e = elim (Option-cases (eth0_host ifa.ifa_name ifa.ifa_addr)) [
  | inl n ↦ later (eth0_host-none ifa n) (find_ip_to_First rest host (rw n at e))
  | inr (h, y) ↦ here (eth0_host-IsEth0 ifa.ifa_name ifa.ifa_addr host (y ∙ rw y at e))
]

find_ip_of_First : (ifs : List Ifaddrs) (host : Bytes) → First host ifs → find_ip ifs ≡ some host
unfolding find_ip
find_ip_of_First [] host f = elim f [ ]
find_ip_of_First (ifa ∷ rest) host (here p) = rw (eth0_host_of_IsEth0 ifa host p) refl
find_ip_of_First (ifa ∷ rest) host (later n f) =
    elim (Option-cases (eth0_host ifa.ifa_name ifa.ifa_addr)) [
      | inl e ↦ rw e (find_ip_of_First rest host f)
      | inr (h, y) ↦ absurd (n h (eth0_host-IsEth0 ifa.ifa_name ifa.ifa_addr h y))
    ]

-- The loop over the interfaces sets `ip_rpc` to the host `host` exactly when the first IPv4 interface
-- of the name eth0 whose address has a text has the text `host`, whatever comes before and after it;
-- so without such an interface `ip_rpc` stays the null pointer.
pub find_ip-First : (ifs : List Ifaddrs) (host : Bytes) → (find_ip ifs ≡ some host) ↔ First host ifs
find_ip-First ifs host = (find_ip_to_First ifs host, find_ip_of_First ifs host)
