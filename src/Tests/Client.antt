-- ===== src/Tests/Client.antt =====
-- Two request threads that call the log server.
use ssdd_final.Base.{ℕ, zero, suc, refl, Bool, true, false, Option, none, some, [], arith}
use ssdd_final.CString.{Bytes}
use ssdd_final.Rpc.{codes}
use ssdd_final.Threads.{ret, ◌>>=◌, System}
use ssdd_final.Request.World.{LogCall}
use ssdd_final.Request.Client.{Clients, rpc_llamada}
use ssdd_final.Request.Client.Race.{Calls, rpc_llamada-Calls, TakesHandle, rpc_llamada_race}

abbrev call : Bytes → LogCall
call name = record { username = name; operation = codes "CONNECT"; date = codes "t"; file = [] }

abbrev clients : Clients
clients = record {
  clnt = 0;
  ip_rpc = some (codes "10.0.0.7");
  live = λ p. false;
  fresh = 1;
  calls = [];
}

abbrev connects : Option Bytes → Bool
connects none = false
connects (some host) = true

rpc_llamada-Calls_example : Calls connects true (call (codes "ann")) clients
rpc_llamada-Calls_example =
    rpc_llamada-Calls connects true (call (codes "ann")) clients (omega arith) refl

abbrev name : ℕ → Bytes
name zero = codes "ann"
name (suc n) = codes "bob"

abbrev both : System Clients Bool
both = record {
  mem = clients;
  owner = none;
  threads = λ i. rpc_llamada connects true (call (name i)) >>= ret;
}

rpc_llamada_race_example : TakesHandle both 0 1 (call (name 0)) ret true (call (name 1))
rpc_llamada_race_example =
    rpc_llamada_race both 0 1 connects true true (call (name 0)) (call (name 1)) ret ret
      (omega arith) refl (omega arith) refl refl
