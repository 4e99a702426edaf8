-- ===== src/Startup.antt =====
-- server/servidor.c: `main` before its loop. It opens the listening socket and looks for the address
-- of the interface eth0, which is then the host of the log server.
pub mod Interfaces
use ssdd_final.Base.{
  ℕ, suc, ◌-◌, ◌%◌, ◌≡◌, ◌≢◌, refl, Bool, true, false, Option, none, some, List, [], ◌∷◌, ◌++◌,
  if◌then◌else◌, ap, sym, ◌∙◌, All, ◌⊎◌, ◌↔◌, Option-cases, Bool-cases, inl, inr, length, ◌==◌,
  arith,
}
use ssdd_final.CString.{Bytes, strcmp_eq, eq_of_strcmp_eq, strcmp_eq_refl}
use ssdd_final.Rpc.{codes}
use ssdd_final.Registry.Defs.{ℤ, pos, negsuc}

-- `ifa_addr`: its family, and the text that `getnameinfo` writes into `host`, none where it fails
pub data IfaAddr : Type 0 where
  af_inet : Option Bytes → IfaAddr
  other : IfaAddr

-- a node of the list that `getifaddrs` gives; `ifa_addr` may be null
pub record Ifaddrs : Type 0 where
  pub ifa_name : Bytes
  pub ifa_addr : Option IfaAddr

-- the `if (family == AF_INET)`: the host where the loop ends at this interface
unfoldable pub eth0_host : Bytes → Option IfaAddr → Option Bytes
unfolding strcmp_eq
eth0_host name none = none
eth0_host name (some other) = none
eth0_host name (some (af_inet none)) = none
eth0_host name (some (af_inet (some host))) =
    if strcmp_eq name (codes "eth0") then some host else none

unfoldable pub or_else : Option Bytes → Option Bytes → Option Bytes
or_else none o = o
or_else (some h) o = some h

-- `ip_rpc` behind the loop over the interfaces; none is the null pointer
unfoldable pub find_ip : List Ifaddrs → Option Bytes
unfolding eth0_host or_else
find_ip [] = none
find_ip (ifa ∷ rest) = or_else (eth0_host ifa.ifa_name ifa.ifa_addr) (find_ip rest)

-- what the system gives `main`: the results of its calls, and the list of the interfaces
pub record Os : Type 0 where
  pub atoi : Bytes → ℤ
  pub socket : ℤ
  pub bind : (sd : ℤ) (port : ℕ) → ℤ
  pub listen : (sd : ℤ) → ℤ
  pub getifaddrs : Option (List Ifaddrs)

-- `main` has returned a number; the process has called `exit`; or the loop begins, on this socket.
pub data Boot : Type 0 where
  returned : ℤ → Boot
  exited : Boot
  serving : (sd : ℤ) (port : ℕ) (ip_rpc : Option Bytes) → Boot

-- the argument of `htons`, a number of 16 bits
abbrev pub uint16 : ℤ → ℕ
uint16 (pos n) = n % 65536
uint16 (negsuc n) = 65535 - n % 65536

abbrev pub is_negative : ℤ → Bool
is_negative (pos n) = false
is_negative (negsuc n) = true

-- behind `listen`
unfoldable pub find_host : Os → ℤ → ℕ → Boot
unfolding find_ip
find_host os sd port = elim os.getifaddrs [
  | none ↦ exited
  | some ifaddr ↦ serving sd port (find_ip ifaddr)
]

unfoldable pub open_socket : Os → Bytes → Boot
unfolding find_host
open_socket os arg =
    if is_negative os.socket
    then returned (negsuc 0)
    else if is_negative (os.bind os.socket (uint16 (os.atoi arg)))
    then returned (negsuc 0)
    else if is_negative (os.listen os.socket)
    then returned (negsuc 0)
    else find_host os os.socket (uint16 (os.atoi arg))

-- `main` up to its loop; the arguments are the name of the program, an option and the port
unfoldable pub start : Os → List Bytes → Boot
unfolding open_socket
start os (name ∷ flag ∷ arg ∷ []) = open_socket os arg
start os [] = returned (negsuc 0)
start os (name ∷ []) = returned (negsuc 0)
start os (name ∷ flag ∷ []) = returned (negsuc 0)
start os (name ∷ flag ∷ arg ∷ more ∷ rest) = returned (negsuc 0)
