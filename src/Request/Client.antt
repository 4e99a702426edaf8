-- ===== src/Request/Client.antt =====
-- server/servidor.c: `create_client` and `rpc_llamada`, an access to the global `clnt` at a time. The
-- handles of the log server are what the RPC library gives out: a handle lives from `clnt_create` to
-- `clnt_destroy`, and to use one that does not live is an error.
pub mod Race
use ssdd_final.Base.{
  ℕ, suc, Bool, true, false, Option, none, some, List, [], ◌∷◌, ◌++◌, update, if◌then◌else◌, ◌==◌,
}
use ssdd_final.CString.{Bytes}
use ssdd_final.Threads.{Program, ret, act, access, ◌>>=◌, ◌>>◌}
use ssdd_final.Request.World.{LogCall}

-- The globals `clnt` and `ip_rpc`; the handles that live; the calls that have been made. 0 is NULL.
pub record Clients : Type 0 where
  pub clnt : ℕ
  pub ip_rpc : Option Bytes
  pub live : ℕ → Bool
  pub fresh : ℕ
  pub calls : List LogCall

abbrev pub Look : Type 0 → Type 0
Look A = Clients → Option (A × Clients)

abbrev pub Client : Type 0 → Type 1
Client A = Program Clients A

unfoldable pub get_ip_rpc : Look (Option Bytes)
get_ip_rpc m = some (m.ip_rpc, m)

unfoldable pub get_clnt : Look ℕ
get_clnt m = some (m.clnt, m)

unfoldable pub set_clnt : ℕ → Look (Unit {0})
set_clnt p m = some (tt, record m { clnt = p })

-- `clnt_create`: a new handle where the host can be reached
unfoldable pub clnt_create : Bool → Look ℕ
clnt_create true m =
    some (m.fresh, record m { live = update m.live m.fresh true; fresh = suc m.fresh })
clnt_create false m = some (0, m)

-- `print_1`, and whether it returns `RPC_SUCCESS`
unfoldable pub print_1 : Bool → ℕ → LogCall → Look Bool
print_1 success p call m =
    if m.live p then some (success, record m { calls = m.calls ++ call ∷ [] }) else none

unfoldable pub clnt_perror : ℕ → Look (Unit {0})
clnt_perror p m = if m.live p then some (tt, m) else none

unfoldable pub clnt_destroy : ℕ → Look (Unit {0})
clnt_destroy p m = if m.live p then some (tt, record m { live = update m.live p false }) else none

-- `create_client`, and whether it returns: where `clnt` is NULL the process ends. `connects` is
-- whether the log server can be reached at a host.
unfoldable pub create_client : (Option Bytes → Bool) → Client Bool
unfolding get_ip_rpc clnt_create set_clnt get_clnt
create_client connects = do
  host ← access get_ip_rpc
  client ← access (clnt_create (connects host))
  access (set_clnt client)
  c ← access get_clnt
  if c == 0 then ret false else ret true

-- `if (retval_1 != RPC_SUCCESS) clnt_perror (clnt, …);`
unfoldable pub report : Bool → Client (Unit {0})
unfolding get_clnt clnt_perror
report success = if success then ret tt else do c ← access get_clnt; access (clnt_perror c)

-- `rpc_llamada` behind `create_client`
unfoldable pub call_server : Bool → LogCall → Client (Unit {0})
unfolding get_clnt print_1 report clnt_destroy
call_server success call = do
  c ← access get_clnt
  retval_1 ← access (print_1 success c call)
  report retval_1
  c ← access get_clnt
  access (clnt_destroy c)

-- whether it returns
unfoldable pub rpc_llamada : (Option Bytes → Bool) → Bool → LogCall → Client Bool
unfolding create_client call_server
rpc_llamada connects success call = do
  made ← create_client connects
  if made then call_server success call >> ret true else ret false
