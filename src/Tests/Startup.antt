-- ===== src/Tests/Startup.antt =====
-- A start of the server on a machine with two interfaces.
use ssdd_final.Base.{◌≡◌, ◌↔◌, refl, none, some, List, [], ◌∷◌}
use ssdd_final.CString.{Bytes, strcmp_eq}
use ssdd_final.Rpc.{codes}
use ssdd_final.Registry.Defs.{pos}
use ssdd_final.Startup.{Ifaddrs, af_inet, find_ip, Os, serving, start}
use ssdd_final.Startup.Interfaces.{First, find_ip-First}

abbrev interfaces : List Ifaddrs
interfaces =
    record { ifa_name = codes "lo"; ifa_addr = some (af_inet (some (codes "127.0.0.1"))) }
    ∷ record { ifa_name = codes "eth0"; ifa_addr = none }
    ∷ record { ifa_name = codes "eth0"; ifa_addr = some (af_inet (some (codes "10.0.0.7"))) }
    ∷ []

abbrev os : Os
os = record {
  atoi = λ s. pos 70000;
  socket = pos 3;
  bind = λ sd port. pos 0;
  listen = λ sd. pos 0;
  getifaddrs = some interfaces;
}

abbrev argv : List Bytes
argv = codes "servidor" ∷ codes "-p" ∷ codes "70000" ∷ []

-- a port that does not fit 16 bits is not refused
starts_on_4464 : start os argv ≡ serving (pos 3) 4464 (some (codes "10.0.0.7"))
unfolding start strcmp_eq
starts_on_4464 = refl

find_ip-First_example :
    (find_ip interfaces ≡ some (codes "10.0.0.7")) ↔ First (codes "10.0.0.7") interfaces
find_ip-First_example = find_ip-First interfaces (codes "10.0.0.7")
