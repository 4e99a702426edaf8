-- ===== src/Request/ListUsers.antt =====
-- The reply to LIST_USERS, byte by byte.
use ssdd_final.Base.{
  ℕ, ◌≡◌, ◌≤◌, ap, sym, ◌∙◌, true, false, arith, none, some, List, [], ◌∷◌, ◌++◌, length, All,
}
use ssdd_final.CString.{Bytes, is_set, strcmp_eq, zeros}
use ssdd_final.Rpc.{codes}
use ssdd_final.Directory.{Account, Directory}
use ssdd_final.Lines.{ReadEvent, WriteEvent}
use ssdd_final.Lines.SendMessage.{Works}
use ssdd_final.Registry.Defs.{pos, Run, done}
use ssdd_final.Registry.Lists.{UserEntry, UserChain, null, cell, raw, UsersReply, list_users}
use ssdd_final.Registry.Lists.Online.{
  Holds, find_entry, count_entry, online_entry, UsersAnswer, list_users-UsersAnswer,
}
use ssdd_final.Registry.Invariant.{IsValid, view}
use ssdd_final.Request.World.{
  LogCall, World, Env, finished, Handler, and_then, ◌>>=◌, ◌>>◌, close_exit, clear_buffer, backend,
  send_error, rpc_llamada,
}
use ssdd_final.Request.Decimal.{decimal}
use ssdd_final.Request.Queries.{
  after_send, send_users, users_error, answer_users, handle_list_users,
}
use ssdd_final.Request.Treat.{dispatch, treat_request}
use ssdd_final.Request.Fields.{
  IsField, Delivers, over, field, got, next, read_field-run, next_field,
}
use ssdd_final.Request.Emits.{
  ended, Replies, Emits-finished, error_finished, Emits, pure-Emits, send_or_exit-Emits,
  send_error-Emits, Emits-then,
}

-- the name, the address and the port of each entry
abbrev pub users_text : List UserEntry → Bytes
users_text [] = []
users_text (e ∷ es) = ended e.username ++ (ended e.ip ++ (ended e.port ++ users_text es))

pub Holds-after_send :
    (e : UserEntry) (chain : UserChain) (es : List UserEntry)
    → Holds chain es
    → Holds (after_send e chain) es
unfolding send_users
Holds-after_send e chain [] h = tt
Holds-after_send e (cell e' next) (x ∷ es) h = h
Holds-after_send e null (x ∷ es) h = absurd h
Holds-after_send e raw (x ∷ es) h = absurd h

send_users-Emits :
    (w : World) (chain : UserChain) (entries : List UserEntry)
    → Holds chain entries
    → All Works w.events
    → Emits (send_users (length entries) chain) w (users_text entries)
unfolding send_users
send_users-Emits w chain [] h works = pure-Emits w works
send_users-Emits w null (x ∷ es) h works = absurd h
send_users-Emits w raw (x ∷ es) h works = absurd h
send_users-Emits w (cell e chain) (x ∷ es) h works = rw (sym h.0) (
    Emits-then (send_or_exit-Emits w (ended e.username) works) (λ v₁ works₁.
      Emits-then (send_or_exit-Emits _ (ended e.ip) works₁) (λ v₂ works₂.
        Emits-then (send_or_exit-Emits _ (ended e.port) works₂) (λ v₃ works₃.
          send_users-Emits _ (after_send e chain) es (Holds-after_send e chain es h.1) works₃))))

-- What goes out in answer to `name`, where the directory is `d`.
pub data UsersText (d : Directory) (name : Bytes) : Bytes → Type 0 where
  unknown : d name ≡ none → UsersText d name (codes "1" ++ 0 ∷ [])
  offline :
      {a : Account} → d name ≡ some a → is_set a.ip ≡ false → UsersText d name (codes "2" ++ 0 ∷ [])
  listed :
      {a : Account} (entries : List UserEntry)
      → d name ≡ some a
      → is_set a.ip ≡ true
      → ((k : Bytes) → find_entry k entries ≡ online_entry k (d k))
      → ((k : Bytes) → count_entry k entries ≤ 1)
      → UsersText d name
          ((codes "0" ++ 0 ∷ []) ++ (ended (decimal (length entries)) ++ users_text entries))

-- what `handle_list_users` does once the name is read
abbrev pub users_end : Env → (name operation date : Bytes) → Handler (Unit {0})
users_end env name operation date = do
  reply ← backend (list_users env.rooms env.first name)
  clear_buffer
  rpc_llamada env name operation date []
  send_error (users_error reply)
  answer_users reply

-- the world in which the reply begins
abbrev pub logged_world : World → LogCall → World
logged_world w logged = record w { buffer = zeros; calls = w.calls ++ logged ∷ [] }

pub users_end-run :
    (env : Env) (w : World) (name operation date : Bytes) (reply : UsersReply)
    → env.log_up ≡ true
    → list_users env.rooms env.first name w.store ≡ done reply w.store
    → users_end env name operation date w
      ≡ (do send_error (users_error reply); answer_users reply)
          (logged_world w
            (record { username = name; operation = operation; date = date; file = [] }))
unfolding backend clear_buffer rpc_llamada
users_end-run env w name operation date reply up e = simp (up, e)

listed_Emits :
    (w : World) (chain : UserChain) (n : ℕ) (entries : List UserEntry)
    → Holds chain entries
    → n ≡ length entries
    → All Works w.events
    → Emits
        (do
          send_error (users_error (UsersReply.listed chain n))
          answer_users (UsersReply.listed chain n))
        w
        ((codes "0" ++ 0 ∷ []) ++ (ended (decimal (length entries)) ++ users_text entries))
unfolding answer_users users_error
listed_Emits w chain n entries holds count works = rw count (
    Emits-then (send_error-Emits w (pos 0) works) (λ v₁ works₁.
      Emits-then (send_or_exit-Emits _ (ended (decimal (length entries))) works₁)
        (λ v₂ works₂. send_users-Emits _ chain entries holds works₂)))

module _ (env : Env) (w : World) (name operation date : Bytes) (up : env.log_up ≡ true) where
  abbrev pub logged : LogCall
  logged = record { username = name; operation = operation; date = date; file = [] }

  replies :
      (reply : UsersReply) (out : Bytes) (events : List WriteEvent)
      → list_users env.rooms env.first name w.store ≡ done reply w.store
      → ((do send_error (users_error reply); answer_users reply) >> close_exit {A = Unit {0}})
          (logged_world w logged)
        ≡ finished (record (logged_world w logged) {
          events = events;
          sent = w.sent ++ out;
          closed = true;
        })
      → Replies w w.input logged out
          ((users_end env name operation date >> close_exit {A = Unit {0}}) w)
  replies reply out events e h = record {
    buffer = zeros;
    events = events;
    runs =
        ap (λ r. and_then r (λ x. close_exit {A = Unit {0}}))
          (users_end-run env w name operation date reply up e)
        ∙ h;
  }

  users_end-Replies :
      {r : Run UsersReply}
      → list_users env.rooms env.first name w.store ≡ r
      → UsersAnswer w.store (view w.store.messages) name r
      → All Works w.events
      → (out : Bytes) × UsersText (view w.store.messages) name out
        × Replies w w.input logged out
            ((users_end env name operation date >> close_exit {A = Unit {0}}) w)
  unfolding answer_users users_error
  users_end-Replies e (UsersAnswer.unknown h) works =
      let s = send_error-Emits (logged_world w logged) (pos 1) works in
      (_, unknown h, replies _ _ s.events e (error_finished _ (pos 1) s))
  users_end-Replies e (UsersAnswer.offline h off) works =
      let s = send_error-Emits (logged_world w logged) (pos 2) works in
      (_, offline h off, replies _ _ s.events e (error_finished _ (pos 2) s))
  users_end-Replies e (UsersAnswer.answered {chain = chain} entries h on holds count same once)
        works =
      let s = listed_Emits (logged_world w logged) chain _ entries holds count works in
      (_, listed entries h on same once, replies _ _ s.events e (Emits-finished s))

-- the request up to the call of `list_users`
pub treat_request-users_end :
    (env : Env) (w : World) (date name : Bytes) {rest : List ReadEvent}
    → env.buffers ≡ true
    → IsField date × IsField name
    → Delivers rest (codes "LIST_USERS" ∷ date ∷ name ∷ []) w.input
    → (buffer : Bytes) × (treat_request env w
        ≡ (users_end env name (codes "LIST_USERS") date >> close_exit {A = Unit {0}})
            (record w { input = rest; buffer = buffer }))
unfolding treat_request dispatch strcmp_eq handle_list_users
treat_request-users_end env w date name {rest} buffers f
      (field {later = l₁} c₁ (field {later = l₂} c₂ (field c₃ over))) =
    let w₁ = got w l₁ (codes "LIST_USERS") in
    let w₂ = next w₁ l₂ date in
    (
      (next w₂ rest name).buffer,
      simp buffers (
          ap (λ r. and_then r (λ operation. dispatch env operation >> close_exit))
            (read_field-run w (codes "LIST_USERS") _ (ground arith) c₁)
          ∙ ap (λ r. and_then r (λ x. close_exit {A = Unit {0}}))
              (next_field _ w₁ date _ f.0 c₂ ∙ next_field _ w₂ name _ f.1 c₃)),
    )

-- LIST_USERS with a date and a name that fit, arriving whole with interruptions anywhere, while
-- every `malloc` succeeds, the log server can be reached and no write fails: from a valid store, the
-- thread ends with the socket closed, the log server told once and the store as it was. It sends
-- "1" to a name that is not registered and "2" to a user that is offline. To a user that is online
-- it sends "0", the number of entries in decimal digits, and the name, address and port of each,
-- every text with its NUL; the entries are those of the users online in the directory, each once.
pub treat_request-UsersText :
    (env : Env) (w : World) (date name : Bytes) {rest : List ReadEvent}
    → env.buffers ≡ true
    → env.log_up ≡ true
    → env.first ≡ true
    → ((i : ℕ) → env.rooms i ≡ true)
    → IsValid w.store
    → All Works w.events
    → IsField date × IsField name
    → Delivers rest (codes "LIST_USERS" ∷ date ∷ name ∷ []) w.input
    → (out : Bytes) × UsersText (view w.store.messages) name out
      × Replies w rest
          (record { username = name; operation = codes "LIST_USERS"; date = date; file = [] })
          out
          (treat_request env w)
treat_request-UsersText env w date name {rest} buffers up first rooms valid works f d =
    let (buffer, begins) = treat_request-users_end env w date name buffers f d in
    let answer = list_users-UsersAnswer valid env.rooms name rooms in
    let (out, text, r) =
      users_end-Replies env (record w { input = rest; buffer = buffer }) name (codes "LIST_USERS")
        date up (ap (λ b. list_users env.rooms b name w.store) first) answer works in
    (out, text, record { buffer = r.buffer; events = r.events; runs = begins ∙ r.runs })
