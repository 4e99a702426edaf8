-- ===== src/Request/Treat/Safety.antt =====
-- Whatever bytes a client sends: the request thread ends, and the store stays valid.
use ssdd_final.Base.{ℕ, ◌≡◌, Bool, true}
use ssdd_final.CString.{Bytes, strcmp_eq}
use ssdd_final.Rpc.{codes}
use ssdd_final.Registry.Users.Refine.{IsAddress}
use ssdd_final.Request.World.{World, Env}
use ssdd_final.Request.World.Safety.{
  IsSound, Safe, Keeps, Any, bind, Keeps-pure, Keeps-close_exit, Keeps-if, Keeps-read_field,
}
use ssdd_final.Request.Commands.Safety.{
  Keeps-handle_register, Keeps-handle_unregister, Keeps-handle_connect, Keeps-handle_publish,
  Keeps-handle_delete, Keeps-handle_disconnect,
}
use ssdd_final.Request.Queries.Safety.{Keeps-handle_list_users, Keeps-handle_list_content}
use ssdd_final.Request.Treat.{dispatch, treat_request}

-- Every `malloc` for the request and its response succeeds, and the peer's address is a text that
-- is not empty and fits its field. The `malloc` of a new node or file may fail.
pub record IsProvided (env : Env) : Type 0 where
  pub buffers : env.buffers ≡ true
  pub first : env.first ≡ true
  pub rooms : (i : ℕ) → env.rooms i ≡ true
  pub peer : IsAddress env.peer

Keeps-dispatch :
    (env : Env) (operation : Bytes) → IsProvided env → Keeps env.log_up Any (dispatch env operation)
unfolding dispatch
Keeps-dispatch env operation p =
    Keeps-if (strcmp_eq operation (codes "REGISTER")) _ _ (Keeps-handle_register env operation) (
      Keeps-if (strcmp_eq operation (codes "UNREGISTER")) _ _
        (Keeps-handle_unregister env operation)
        (Keeps-if (strcmp_eq operation (codes "CONNECT")) _ _
          (Keeps-handle_connect env operation p.peer)
          (Keeps-if (strcmp_eq operation (codes "PUBLISH")) _ _ (Keeps-handle_publish env operation)
            (Keeps-if (strcmp_eq operation (codes "DELETE")) _ _ (Keeps-handle_delete env operation)
              (Keeps-if (strcmp_eq operation (codes "DISCONNECT")) _ _
                (Keeps-handle_disconnect env operation)
                (Keeps-if (strcmp_eq operation (codes "LIST_USERS")) _ _
                  (Keeps-handle_list_users env operation p.first p.rooms)
                  (Keeps-if (strcmp_eq operation (codes "LIST_CONTENT")) _ _
                    (Keeps-handle_list_content env operation p.first p.rooms)
                    (Keeps-pure tt tt))))))))

-- nothing is left to do for the thread
abbrev pub Never : Unit {0} → Type 0
Never a = ⊥

treat_request-Keeps : (env : Env) → IsProvided env → Keeps env.log_up Never (treat_request env)
unfolding treat_request
treat_request-Keeps env p = simp p.buffers (
    bind Keeps-read_field
      λ operation _. bind (Keeps-dispatch env operation p) λ _ _. Keeps-close_exit)

-- Whatever a client sends, and whatever the reads and writes of its socket return, each read giving
-- a byte, the end of the stream or -1 in the end: from a sound world, and with the memory for the
-- request and its response, the thread ends with the socket closed; or the process exits because the
-- log server cannot be reached, and only then; or SIGPIPE ends it, which happens only where a `write`
-- raises that signal. The store is valid then, with the mutex free. The thread never waits for the mutex forever,
-- and never uses a node of a response that has not been filled.
pub treat_request-Safe :
    (quiet : Bool) (env : Env) (w : World)
    → IsProvided env
    → IsSound quiet w
    → Safe quiet env.log_up Never (treat_request env w)
treat_request-Safe quiet env w p s = (treat_request-Keeps env p).at quiet w s
