-- ===== src/Tests/Data.antt =====
-- A store with two users, and requests to it.
use ssdd_final.Base.{refl, true, false, some, List, [], ◌∷◌, ◌++◌, map, arith}
use ssdd_final.CString.{Bytes, strcmp_eq, zeros}
use ssdd_final.Rpc.{codes}
use ssdd_final.Lines.{ReadEvent, byte}
use ssdd_final.Registry.Defs.{Node, Store}
use ssdd_final.Registry.FileSearch.{find_file}
use ssdd_final.Registry.Search.{find_user}
use ssdd_final.Registry.Invariant.{IsTidyNode, IsValid}
use ssdd_final.Request.World.{World, Env}
use ssdd_final.Request.World.Safety.{IsSound}

abbrev pub ann : Node
ann = record {
  username = codes "ann";
  ip = codes "10.0.0.1";
  port = codes "90";
  list_files = record { filename = codes "f"; description = codes "d" } ∷ [];
}

abbrev pub bob : Node
bob = record { username = codes "bob"; ip = []; port = []; list_files = [] }

abbrev pub store : Store
store = record { messages = bob ∷ ann ∷ []; inited_list = true; locked = false }

ann-IsTidyNode : IsTidyNode ann
unfolding find_file
ann-IsTidyNode = record {
  username_fits = omega arith;
  ip_fits = omega arith;
  port_fits = omega arith;
  offline = λ e. cc;
  files_fit = (record { filename_fits = omega arith; description_fits = omega arith }, tt);
  files_distinct = (refl, tt);
}

bob-IsTidyNode : IsTidyNode bob
bob-IsTidyNode = record {
  username_fits = omega arith;
  ip_fits = omega arith;
  port_fits = omega arith;
  offline = λ e. refl;
  files_fit = tt;
  files_distinct = tt;
}

pub store-IsValid : IsValid store
unfolding find_user strcmp_eq
store-IsValid = record {
  free = refl;
  clean = λ e. cc;
  tidy = record { nodes = (bob-IsTidyNode, (ann-IsTidyNode, tt)); distinct = (refl, (refl, tt)) };
}

-- the bytes of a request, each field ended by a NUL
abbrev pub message : List Bytes → List ReadEvent
message [] = []
message (s ∷ ss) = map byte s ++ byte 0 ∷ message ss

abbrev pub env : Env
env = record {
  buffers = true;
  room = true;
  first = true;
  rooms = λ i. true;
  peer = some (codes "10.0.0.2");
  log_up = true;
}

abbrev pub world : List ReadEvent → World
world input = record {
  store = store;
  buffer = zeros;
  input = input;
  events = [];
  sent = [];
  calls = [];
  closed = false;
}

pub world-IsSound : (input : List ReadEvent) → IsSound true (world input)
world-IsSound input = record { valid = store-IsValid; ends = refl; returns = λ h. tt }
