-- ===== src/Tests/Requests.antt =====
-- Requests from their bytes to the reply.
use ssdd_final.Base.{◌≡◌, refl, true, List, [], ◌∷◌, ◌++◌, arith}
use ssdd_final.CString.{Bytes, strcmp_eq, strncpy, is_set, c_str}
use ssdd_final.Rpc.{codes}
use ssdd_final.Lines.{ReadEvent, byte, read_line, send_message}
use ssdd_final.Lines.ReadLine.{here, next}
use ssdd_final.Registry.Invariant.{view}
use ssdd_final.Registry.History.{promise}
use ssdd_final.Registry.Lists.{list_users}
use ssdd_final.Request.World.{
  Outcome, finished, read_field, clear_buffer, backend, rpc_llamada, send_error, send_or_exit,
}
use ssdd_final.Request.Decimal.{decimal}
use ssdd_final.Request.Queries.{handle_list_users}
use ssdd_final.Request.World.Safety.{Safe}
use ssdd_final.Request.Treat.{dispatch, treat_request}
use ssdd_final.Request.Treat.Safety.{IsProvided, Never, treat_request-Safe}
use ssdd_final.Request.Fields.{over, field}
use ssdd_final.Request.Wire.{Command, call, log_call, Serves, treat_request-Command}
use ssdd_final.Tests.Data.{store, store-IsValid, message, env, world, world-IsSound}

env-IsProvided : IsProvided env
unfolding is_set
env-IsProvided = record {
  buffers = refl;
  first = refl;
  rooms = λ i. refl;
  peer = (refl, omega arith);
}

abbrev cut_short : List ReadEvent
cut_short = message (codes "LIST_USERS" ∷ codes "now" ∷ []) ++ byte b'a' ∷ []

treat_request-Safe_example : Safe true true Never (treat_request env (world cut_short))
treat_request-Safe_example =
    treat_request-Safe true env (world cut_short) env-IsProvided (world-IsSound cut_short)

abbrev command : Command
command = Command.register (codes "e")

abbrev input : List ReadEvent
input = message (codes "REGISTER" ∷ codes "t" ∷ codes "e" ∷ [])

treat_request-Command_example :
    Serves
      (world input)
      []
      (log_call (codes "t") command)
      (promise (call env command) (view store.messages))
      (treat_request env (world input))
unfolding is_set
treat_request-Command_example =
    treat_request-Command env (world input) (codes "t") command refl refl (refl, omega arith)
      store-IsValid ((ground arith, omega arith), ((ground arith, omega arith), tt))
      (field (next (next (next (next (next (next (next (next here))))))))
        (field (next here) (field (next here) over)))

-- what the client of a request gets
abbrev reply : Outcome (Unit {0}) → Bytes
reply (finished w) = w.sent
reply _ = []

listing :
    reply (treat_request env (world (message (codes "LIST_USERS" ∷ codes "t" ∷ codes "ann" ∷ []))))
    ≡ codes "0"
      ++ 0 ∷ codes "1"
      ++ 0 ∷ codes "ann"
      ++ 0 ∷ codes "10.0.0.1"
      ++ 0 ∷ codes "90"
      ++ 0 ∷ []
unfolding treat_request read_field read_line dispatch strcmp_eq c_str handle_list_users clear_buffer
    backend list_users is_set rpc_llamada send_error send_or_exit send_message decimal strncpy
listing = refl
