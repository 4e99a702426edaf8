-- ===== src/Request/Cut/Users.antt =====
-- The reply to LIST_USERS, whichever `write` fails.
use ssdd_final.Base.{refl, ℕ, ◌≡◌, ◌∙◌, ap, sym, true, List, [], ◌∷◌, ◌++◌, length}
use ssdd_final.CString.{Bytes, zeros}
use ssdd_final.Rpc.{codes}
use ssdd_final.Lines.{ReadEvent}
use ssdd_final.Registry.Defs.{pos, Run}
use ssdd_final.Registry.Lists.{UserEntry, UserChain, null, cell, raw, UsersReply, list_users}
use ssdd_final.Registry.Lists.Online.{Holds, UsersAnswer, list_users-UsersAnswer}
use ssdd_final.Registry.Invariant.{IsValid, view}
use ssdd_final.Request.World.{World, Env, and_then, ◌>>◌, close_exit, send_error}
use ssdd_final.Request.Decimal.{decimal}
use ssdd_final.Request.Queries.{after_send, send_users, users_error, answer_users}
use ssdd_final.Request.Treat.{treat_request}
use ssdd_final.Request.Fields.{IsField, Delivers}
use ssdd_final.Request.Emits.{ended}
use ssdd_final.Request.ListUsers.{
  UsersText, unknown, offline, listed, users_text, Holds-after_send, users_end, logged_world,
  logged, users_end-run, treat_request-users_end,
}
use ssdd_final.Request.Parts.{Ends, pure-Ends, close_exit-Ends, send_or_exit-Ends}
use ssdd_final.Request.Cut.{Answers, send_error-Answers, Cut, Cut-from}

send_users-Ends :
    (w : World) (chain : UserChain) (entries : List UserEntry)
    → Holds chain entries
    → Ends (send_users (length entries) chain) w (users_text entries)
unfolding send_users
send_users-Ends w chain [] h = pure-Ends w
send_users-Ends w null (x ∷ es) h = absurd h
send_users-Ends w raw (x ∷ es) h = absurd h
send_users-Ends w (cell e chain) (x ∷ es) h = rw (sym h.0) (
    send_or_exit-Ends w (ended e.username) (λ v₁. send_or_exit-Ends _ (ended e.ip) (λ v₂.
      send_or_exit-Ends _ (ended e.port)
        (λ v₃. send_users-Ends _ (after_send e chain) es (Holds-after_send e chain es h.1)))))

listed-Ends :
    (w : World) (chain : UserChain) (n : ℕ) (entries : List UserEntry)
    → Holds chain entries
    → n ≡ length entries
    → Ends
        (answer_users (UsersReply.listed chain n))
        w
        (ended (decimal (length entries)) ++ users_text entries)
unfolding answer_users
listed-Ends w chain n entries holds count = rw count (
    send_or_exit-Ends w (ended (decimal (length entries)))
      (λ v. send_users-Ends _ chain entries holds))

module _ (env : Env) (w : World) (name operation date : Bytes) (up : env.log_up ≡ true) where
  Answers-Cut :
      {reply : UsersReply} {code body : Bytes}
      → list_users env.rooms env.first name w.store ≡ Run.done reply w.store
      → Answers
          (do send_error (users_error reply); answer_users reply)
          (logged_world w (logged env w name operation date up))
          code
          body
      → Cut w w.input
          (logged env w name operation date up)
          code
          body
          ((users_end env name operation date >> close_exit {A = Unit {0}}) w)
  Answers-Cut {reply} e a = record {
    buffer = zeros;
    events = a.events;
    code_part = a.code_part;
    body_part = a.body_part;
    last = a.last;
    code_begins = a.code_begins;
    body_begins = a.body_begins;
    survives = a.survives;
    runs =
        ap (λ r. and_then r (λ x. close_exit {A = Unit {0}}))
          (users_end-run env w name operation date reply up e)
        ∙ a.runs;
  }

  users_end-Cut :
      {r : Run UsersReply}
      → list_users env.rooms env.first name w.store ≡ r
      → UsersAnswer w.store (view w.store.messages) name r
      → (code : Bytes) × (body : Bytes) × (length code ≡ 2)
        × UsersText (view w.store.messages) name (code ++ body)
        × Cut w w.input
            (logged env w name operation date up)
            code
            body
            ((users_end env name operation date >> close_exit {A = Unit {0}}) w)
  unfolding answer_users users_error
  users_end-Cut e (UsersAnswer.unknown h) = (
    _,
    [],
    refl,
    unknown h,
    Answers-Cut e (send_error-Answers _ (pos 1) λ part v. close_exit-Ends _),
  )
  users_end-Cut e (UsersAnswer.offline h off) = (
    _,
    [],
    refl,
    offline h off,
    Answers-Cut e (send_error-Answers _ (pos 2) λ part v. close_exit-Ends _),
  )
  users_end-Cut e (UsersAnswer.answered {chain = chain} entries h on holds count same once) = (
    _,
    _,
    refl,
    listed entries h on same once,
    Answers-Cut e
        (send_error-Answers _ (pos 0) λ part v. listed-Ends _ chain _ entries holds count),
  )

-- LIST_USERS with a date and a name that fit, arriving whole with interruptions anywhere, while
-- every `malloc` succeeds and the log server can be reached, from a valid store, whether each
-- `write` takes what it can, fails with -1, or raises SIGPIPE: the log server is told once and the
-- store is as it was. The reply that is due is a code of two bytes and a body; what goes out is a
-- first part of the code, then a first part of the body. The thread ends with the socket closed;
-- only where a `write` raises SIGPIPE can it be that the process has ended instead.
pub treat_request-UsersCut :
    (env : Env) (w : World) (date name : Bytes) {rest : List ReadEvent}
    → env.buffers ≡ true
    → env.log_up ≡ true
    → env.first ≡ true
    → ((i : ℕ) → env.rooms i ≡ true)
    → IsValid w.store
    → IsField date × IsField name
    → Delivers rest (codes "LIST_USERS" ∷ date ∷ name ∷ []) w.input
    → (code : Bytes) × (body : Bytes) × (length code ≡ 2)
      × UsersText (view w.store.messages) name (code ++ body)
      × Cut w rest
          (record { username = name; operation = codes "LIST_USERS"; date = date; file = [] })
          code
          body
          (treat_request env w)
treat_request-UsersCut env w date name {rest} buffers up first rooms valid f d =
    let (buffer, begins) = treat_request-users_end env w date name buffers f d in
    let answer = list_users-UsersAnswer valid env.rooms name rooms in
    let (code, body, two, text, c) =
      users_end-Cut env (record w { input = rest; buffer = buffer }) name (codes "LIST_USERS") date
        up (ap (λ b. list_users env.rooms b name w.store) first) answer in
    (code, body, two, text, Cut-from begins c)
