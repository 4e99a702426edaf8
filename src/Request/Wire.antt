-- ===== src/Request/Wire.antt =====
-- The messages of the protocol: what a client sends for a command, and what the thread does with it.
use ssdd_final.Base.{◌≡◌, refl, ap, ◌∙◌, true, List, [], ◌∷◌, ◌++◌, arith, All}
use ssdd_final.CString.{Bytes, strcmp_eq, zeros}
use ssdd_final.Rpc.{codes}
use ssdd_final.Lines.{ReadEvent, Written, complete, failed, killed, send_message}
use ssdd_final.Directory.{Directory}
use ssdd_final.Registry.Defs.{Node, Store, ℤ, Op, done}
use ssdd_final.Registry.Users.Refine.{IsAddress}
use ssdd_final.Registry.History.{Call, Fits, perform, promise, perform-Refines}
use ssdd_final.Registry.Invariant.{IsValid, IsTidy, ready, view}
use ssdd_final.Request.World.{
  LogCall, World, Env, Outcome, go, signalled, pure, and_then, ◌>>=◌, ◌>>◌, close_exit,
  clear_buffer, backend, wrote, send, send_error, rpc_llamada, error_char,
}
use ssdd_final.Request.Commands.{
  handle_register, handle_unregister, handle_connect, handle_publish, handle_delete,
  handle_disconnect,
}
use ssdd_final.Request.Fields.{IsField, Delivers, over, field, got, read_field-run, next_field}
use ssdd_final.Request.Emits.{closing}
use ssdd_final.Request.Treat.{dispatch, treat_request}

-- a command of the client with its arguments, in the order of the protocol
pub data Command : Type 0 where
  register : (name : Bytes) → Command
  unregister : (name : Bytes) → Command
  connect : (name port : Bytes) → Command
  publish : (name file description : Bytes) → Command
  delete : (name file : Bytes) → Command
  disconnect : (name : Bytes) → Command

-- the word that names the command
abbrev pub word : Command → Bytes
word (register name) = codes "REGISTER"
word (unregister name) = codes "UNREGISTER"
word (connect name port) = codes "CONNECT"
word (publish name file description) = codes "PUBLISH"
word (delete name file) = codes "DELETE"
word (disconnect name) = codes "DISCONNECT"

abbrev pub arguments : Command → List Bytes
arguments (register name) = name ∷ []
arguments (unregister name) = name ∷ []
arguments (connect name port) = name ∷ port ∷ []
arguments (publish name file description) = name ∷ file ∷ description ∷ []
arguments (delete name file) = name ∷ file ∷ []
arguments (disconnect name) = name ∷ []

-- the call of list.c that the command is for
abbrev pub call : Env → Command → Call
call env (register name) = Call.register env.room name
call env (unregister name) = Call.unregister name
call env (connect name port) = Call.connect env.peer port name
call env (publish name file description) = Call.publish env.room name file description
call env (delete name file) = Call.delete name file
call env (disconnect name) = Call.disconnect name

-- what the log server is told; only the commands on files name a file
abbrev pub log_call : Bytes → Command → LogCall
log_call date (register name) = record {
  username = name;
  operation = codes "REGISTER";
  date = date;
  file = [];
}
log_call date (unregister name) = record {
  username = name;
  operation = codes "UNREGISTER";
  date = date;
  file = [];
}
log_call date (connect name port) = record {
  username = name;
  operation = codes "CONNECT";
  date = date;
  file = [];
}
log_call date (publish name file description) = record {
  username = name;
  operation = codes "PUBLISH";
  date = date;
  file = file;
}
log_call date (delete name file) = record {
  username = name;
  operation = codes "DELETE";
  date = date;
  file = file;
}
log_call date (disconnect name) = record {
  username = name;
  operation = codes "DISCONNECT";
  date = date;
  file = [];
}

-- the world in which the thread has answered: the call has left store `t` and the code `error`
abbrev pub answered : World → List ReadEvent → Store → ℤ → LogCall → World
answered w rest t error logged =
    let (written, out, events) = send_message w.events (error_char error ∷ 0 ∷ []) in
    record w {
      store = t;
      buffer = zeros;
      input = rest;
      events = events;
      sent = w.sent ++ out;
      calls = w.calls ++ logged ∷ [];
    }

-- how `sendMessage` ends for a code
abbrev pub written_of : World → ℤ → Written
written_of w error = (send_message w.events (error_char error ∷ 0 ∷ [])).0

-- A failure is not noticed, and SIGPIPE ends the process.
abbrev reported : Written → World → Outcome (Unit {0})
reported complete w = go tt w
reported failed w = go tt w
reported killed w = signalled w

reported-wrote : (r : Written) (w : World) → and_then (wrote r w) (λ ok. pure tt) ≡ reported r w
unfolding send
reported-wrote complete w = refl
reported-wrote failed w = refl
reported-wrote killed w = refl

reported-closing :
    (r : Written) (w : World) → and_then (reported r w) (λ _. close_exit) ≡ closing r w
unfolding close_exit
reported-closing complete w = refl
reported-closing failed w = refl
reported-closing killed w = refl

-- the end of the six commands
report :
    (env : Env) (op : Op ℤ) (w : World) (t : Store) (error : ℤ) (name operation date file : Bytes)
    → env.log_up ≡ true
    → op w.store ≡ done error t
    → (do
      error' ← backend op
      clear_buffer
      rpc_llamada env name operation date file
      send_error error')
        w
      ≡ reported (written_of w error) (
          answered w w.input t error
            (record { username = name; operation = operation; date = date; file = file }))
unfolding backend clear_buffer rpc_llamada send_error send
report env op w t error name operation date file up e =
    rw (e, up) (reported-wrote (written_of w error) _)

module _ (env : Env) (w : World) (t : Store) (error : ℤ) (date : Bytes) {rest : List ReadEvent}
    (up : env.log_up ≡ true) where
  command_run :
      (c : Command)
      → IsField date
      → All IsField (arguments c)
      → Delivers rest (date ∷ arguments c) w.input
      → perform (call env c) w.store ≡ done error t
      → dispatch env (word c) w
        ≡ reported (written_of w error) (answered w rest t error (log_call date c))
  unfolding dispatch strcmp_eq perform handle_register handle_unregister handle_connect
      handle_publish handle_delete handle_disconnect
  command_run (register name) d f (field c₁ (field c₂ over)) e =
      next_field _ w date _ d c₁
      ∙ next_field _ _ name _ f.0 c₂
      ∙ report env _ _ t error name (codes "REGISTER") date [] up e
  command_run (unregister name) d f (field c₁ (field c₂ over)) e =
      next_field _ w date _ d c₁
      ∙ next_field _ _ name _ f.0 c₂
      ∙ report env _ _ t error name (codes "UNREGISTER") date [] up e
  command_run (connect name port) d f (field c₁ (field c₂ (field c₃ over))) e =
      next_field _ w date _ d c₁
      ∙ next_field _ _ name _ f.0 c₂
      ∙ next_field _ _ port _ f.1.0 c₃
      ∙ report env _ _ t error name (codes "CONNECT") date [] up e
  command_run (publish name file text) d f (field c₁ (field c₂ (field c₃ (field c₄ over)))) e =
      next_field _ w date _ d c₁
      ∙ next_field _ _ name _ f.0 c₂
      ∙ next_field _ _ file _ f.1.0 c₃
      ∙ next_field _ _ text _ f.1.1.0 c₄
      ∙ report env _ _ t error name (codes "PUBLISH") date file up e
  command_run (delete name file) d f (field c₁ (field c₂ (field c₃ over))) e =
      next_field _ w date _ d c₁
      ∙ next_field _ _ name _ f.0 c₂
      ∙ next_field _ _ file _ f.1.0 c₃
      ∙ report env _ _ t error name (codes "DELETE") date file up e
  command_run (disconnect name) d f (field c₁ (field c₂ over)) e =
      next_field _ w date _ d c₁
      ∙ next_field _ _ name _ f.0 c₂
      ∙ report env _ _ t error name (codes "DISCONNECT") date [] up e

-- the words of the protocol are fields
word-IsField : (c : Command) → IsField (word c)
word-IsField (register name) = ground arith
word-IsField (unregister name) = ground arith
word-IsField (connect name port) = ground arith
word-IsField (publish name file description) = ground arith
word-IsField (delete name file) = ground arith
word-IsField (disconnect name) = ground arith

Fits-call :
    (env : Env) (c : Command) → IsAddress env.peer → All IsField (arguments c) → Fits (call env c)
Fits-call env (register name) p f = f.0.1
Fits-call env (unregister name) p f = tt
Fits-call env (connect name port) p f = (p, f.1.0.1)
Fits-call env (publish name file description) p f = (f.1.0.1, f.1.1.0.1)
Fits-call env (delete name file) p f = tt
Fits-call env (disconnect name) p f = tt

-- The thread has done what the command asks: `spec` is the code and the directory that are promised.
pub record Serves (w : World) (rest : List ReadEvent) (logged : LogCall) (spec : ℤ × Directory)
    (r : Outcome (Unit {0})) : Type 0 where
  pub after : List Node
  pub runs : r ≡ closing (written_of w spec.0) (answered w rest (ready after) spec.0 logged)
  pub tidy : IsTidy after
  pub same : view after ≡ spec.1

treat_command :
    (env : Env) (w : World) (date : Bytes) (c : Command) {rest : List ReadEvent} (t : Store)
    (error : ℤ)
    → env.buffers ≡ true
    → env.log_up ≡ true
    → All IsField (date ∷ arguments c)
    → Delivers rest (word c ∷ date ∷ arguments c) w.input
    → perform (call env c) w.store ≡ done error t
    → treat_request env w ≡ closing (written_of w error) (answered w rest t error (log_call date c))
unfolding treat_request close_exit
treat_command env w date c t error buffers up f (field c₁ more) e = simp buffers (
    ap (λ r. and_then r (λ operation. dispatch env operation >> close_exit))
      (read_field-run w (word c) _ (word-IsField c) c₁)
    ∙ ap (λ r. and_then r (λ _. close_exit))
        (command_run env (got w _ (word c)) t error date up c f.0 f.1 more e)
    ∙ reported-closing (written_of w error) _)

-- A command that arrives whole, with fields that fit, with interruptions anywhere, and while there
-- is memory for the request and the log server can be reached: from a valid store, the thread ends
-- with the socket closed, unless the write of the code raises SIGPIPE, which ends the process
-- instead. It has answered the code that the directory gives for the command, as far
-- as the socket takes it, told the log server of the command once, left the directory that the
-- command leaves, and cleared `buffer`.
pub treat_request-Command :
    (env : Env) (w : World) (date : Bytes) (c : Command) {rest : List ReadEvent}
    → env.buffers ≡ true
    → env.log_up ≡ true
    → IsAddress env.peer
    → IsValid w.store
    → All IsField (date ∷ arguments c)
    → Delivers rest (word c ∷ date ∷ arguments c) w.input
    → Serves w rest
        (log_call date c)
        (promise (call env c) (view w.store.messages))
        (treat_request env w)
treat_request-Command env w date c buffers up peer valid f d =
    let r = perform-Refines valid (call env c) (Fits-call env c peer f.1) in
    record {
      after = r.after;
      runs = treat_command env w date c (ready r.after) _ buffers up f d r.runs;
      tidy = r.tidy;
      same = r.same;
    }
