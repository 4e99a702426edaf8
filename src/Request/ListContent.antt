-- ===== src/Request/ListContent.antt =====
-- The reply to LIST_CONTENT, byte by byte.
use ssdd_final.Base.{
  ◌↔◌, inl, inr, Bool-cases, ℕ, suc, ◌≡◌, ◌≤◌, refl, ap, ◌∙◌, true, false, arith, none, some, List,
  [], ◌∷◌, ◌++◌, length, All,
}
use ssdd_final.CString.{Bytes, is_set, strcmp_eq}
use ssdd_final.Rpc.{codes}
use ssdd_final.Directory.{Account, Directory}
use ssdd_final.Lines.{ReadEvent, WriteEvent}
use ssdd_final.Lines.SendMessage.{Works}
use ssdd_final.Registry.Defs.{pos, Run, done}
use ssdd_final.Registry.Lists.{FileEntry, FilesReply, list_content}
use ssdd_final.Registry.Lists.Content.{
  find_entry, count_entry, FilesAnswer, list_content-FilesAnswer,
}
use ssdd_final.Registry.Invariant.{IsValid, view}
use ssdd_final.Request.World.{
  LogCall, World, Env, finished, Handler, and_then, ◌>>=◌, ◌>>◌, close_exit, backend, send_error,
  rpc_llamada,
}
use ssdd_final.Request.Decimal.{decimal}
use ssdd_final.Request.Queries.{
  count_files, send_files, files_error, answer_files, handle_list_content,
}
use ssdd_final.Request.Treat.{dispatch, treat_request}
use ssdd_final.Request.Fields.{
  IsField, Delivers, over, field, got, next, read_field-run, next_field,
}
use ssdd_final.Request.Emits.{
  ended, Replies, Emits-finished, error_finished, Emits, pure-Emits, Emits-send, send_or_exit-Emits,
  send_error-Emits, Emits-then,
}

-- the name and the description of each entry
abbrev pub files_text : List FileEntry → Bytes
files_text [] = []
files_text (e ∷ es) = ended e.filename ++ (ended e.description ++ files_text es)

send_files-Emits :
    (w : World) (entries : List FileEntry)
    → All Works w.events
    → Emits (send_files entries) w (files_text entries)
unfolding send_files
send_files-Emits w [] works = pure-Emits w works
send_files-Emits w (e ∷ es) works = Emits-send w (ended e.filename) works (λ v₁ works₁.
    Emits-send _ (ended e.description) works₁ (λ v₂ works₂. send_files-Emits _ es works₂))

count_files-bound : (entries : List FileEntry) → count_files entries ≤ length entries
unfolding count_files
count_files-bound [] = omega arith
count_files-bound (e ∷ es) = ground (arith, count_files-bound es)

-- The number that goes out is that of the entries exactly where no file name is empty.
count_files-length :
    (entries : List FileEntry)
    → (count_files entries ≡ length entries) ↔ All (λ e. is_set e.filename ≡ true) entries
unfolding count_files
count_files-length [] = (λ h. tt, λ h. refl)
count_files-length (e ∷ es) = elim (Bool-cases (is_set e.filename)) [
  | inl on ↦
      let (to, from) = count_files-length es in
      rw on (λ h. (refl, to (omega (arith, h))), λ h. ap suc (from h.1))
  | inr off ↦ rw off (λ h. absurd (omega (arith, h, count_files-bound es)), λ h. cc)
]

-- What goes out in answer to `name`, who asks for the files of `target`, where the directory is `d`.
pub data FilesText (d : Directory) (name target : Bytes) : Bytes → Type 0 where
  unknown : d name ≡ none → FilesText d name target (codes "1" ++ 0 ∷ [])
  offline :
      {a : Account}
      → d name ≡ some a
      → is_set a.ip ≡ false
      → FilesText d name target (codes "2" ++ 0 ∷ [])
  no_target :
      {a : Account}
      → d name ≡ some a
      → is_set a.ip ≡ true
      → d target ≡ none
      → FilesText d name target (codes "3" ++ 0 ∷ [])
  listed :
      {a b : Account} (entries : List FileEntry)
      → d name ≡ some a
      → is_set a.ip ≡ true
      → d target ≡ some b
      → ((file : Bytes) → find_entry entries file ≡ b.files file)
      → ((file : Bytes) → count_entry entries file ≤ 1)
      → FilesText d name target
          ((codes "0" ++ 0 ∷ []) ++ (ended (decimal (count_files entries)) ++ files_text entries))

-- what `handle_list_content` does once the name is read
abbrev pub files_end : Env → (name target operation date : Bytes) → Handler (Unit {0})
files_end env name target operation date = do
  reply ← backend (list_content env.rooms env.first name target)
  rpc_llamada env name operation date []
  send_error (files_error reply)
  answer_files reply

-- the world in which the reply begins
abbrev pub logged_world : World → LogCall → World
logged_world w logged = record w { calls = w.calls ++ logged ∷ [] }

pub files_end-run :
    (env : Env) (w : World) (name target operation date : Bytes) (reply : FilesReply)
    → env.log_up ≡ true
    → list_content env.rooms env.first name target w.store ≡ done reply w.store
    → files_end env name target operation date w
      ≡ (do send_error (files_error reply); answer_files reply)
          (logged_world w
            (record { username = name; operation = operation; date = date; file = [] }))
unfolding backend rpc_llamada
files_end-run env w name target operation date reply up e = simp (up, e)

listed_Emits :
    (w : World) (entries : List FileEntry)
    → All Works w.events
    → Emits
        (do
          send_error (files_error (FilesReply.listed entries))
          answer_files (FilesReply.listed entries))
        w
        ((codes "0" ++ 0 ∷ []) ++ (ended (decimal (count_files entries)) ++ files_text entries))
unfolding answer_files files_error
listed_Emits w entries works = Emits-then (send_error-Emits w (pos 0) works) (λ v₁ works₁.
    Emits-then (send_or_exit-Emits _ (ended (decimal (count_files entries))) works₁)
      (λ v₂ works₂. send_files-Emits _ entries works₂))

module _ (env : Env) (w : World) (name target operation date : Bytes) (up : env.log_up ≡ true) where
  abbrev pub logged : LogCall
  logged = record { username = name; operation = operation; date = date; file = [] }

  replies :
      (reply : FilesReply) (out : Bytes) (events : List WriteEvent)
      → list_content env.rooms env.first name target w.store ≡ done reply w.store
      → ((do send_error (files_error reply); answer_files reply) >> close_exit {A = Unit {0}})
          (logged_world w logged)
        ≡ finished (record (logged_world w logged) {
          events = events;
          sent = w.sent ++ out;
          closed = true;
        })
      → Replies w w.input logged out
          ((files_end env name target operation date >> close_exit {A = Unit {0}}) w)
  replies reply out events e h = record {
    buffer = w.buffer;
    events = events;
    runs =
        ap (λ r. and_then r (λ x. close_exit {A = Unit {0}}))
          (files_end-run env w name target operation date reply up e)
        ∙ h;
  }

  files_end-Replies :
      {r : Run FilesReply}
      → list_content env.rooms env.first name target w.store ≡ r
      → FilesAnswer w.store (view w.store.messages) name target r
      → All Works w.events
      → (out : Bytes) × FilesText (view w.store.messages) name target out
        × Replies w w.input logged out
            ((files_end env name target operation date >> close_exit {A = Unit {0}}) w)
  unfolding answer_files files_error
  files_end-Replies e (FilesAnswer.unknown h) works =
      let s = send_error-Emits (logged_world w logged) (pos 1) works in
      (_, unknown h, replies _ _ s.events e (error_finished _ (pos 1) s))
  files_end-Replies e (FilesAnswer.offline h off) works =
      let s = send_error-Emits (logged_world w logged) (pos 2) works in
      (_, offline h off, replies _ _ s.events e (error_finished _ (pos 2) s))
  files_end-Replies e (FilesAnswer.no_target h on h') works =
      let s = send_error-Emits (logged_world w logged) (pos 3) works in
      (_, no_target h on h', replies _ _ s.events e (error_finished _ (pos 3) s))
  files_end-Replies e (FilesAnswer.answered {entries = entries} h on h' same once) works =
      let s = listed_Emits (logged_world w logged) entries works in
      (_, listed entries h on h' same once, replies _ _ s.events e (Emits-finished s))

-- the request up to the call of `list_content`
pub treat_request-files_end :
    (env : Env) (w : World) (date name target : Bytes) {rest : List ReadEvent}
    → env.buffers ≡ true
    → IsField date × IsField name × IsField target
    → Delivers rest (codes "LIST_CONTENT" ∷ date ∷ name ∷ target ∷ []) w.input
    → (buffer : Bytes) × (treat_request env w
        ≡ (files_end env name target (codes "LIST_CONTENT") date >> close_exit {A = Unit {0}})
            (record w { input = rest; buffer = buffer }))
unfolding treat_request dispatch strcmp_eq handle_list_content
treat_request-files_end env w date name target {rest} buffers f
      (field {later = l₁} c₁ (field {later = l₂} c₂ (field {later = l₃} c₃ (field c₄ over)))) =
    let w₁ = got w l₁ (codes "LIST_CONTENT") in
    let w₂ = next w₁ l₂ date in
    let w₃ = next w₂ l₃ name in
    (
      (next w₃ rest target).buffer,
      simp buffers (
          ap (λ r. and_then r (λ operation. dispatch env operation >> close_exit))
            (read_field-run w (codes "LIST_CONTENT") _ (ground arith) c₁)
          ∙ ap (λ r. and_then r (λ x. close_exit {A = Unit {0}}))
              (next_field _ w₁ date _ f.0 c₂
                ∙ next_field _ w₂ name _ f.1 c₃
                ∙ next_field _ w₃ target _ f.2 c₄)),
    )

-- LIST_CONTENT with a date and two names that fit, arriving whole with interruptions anywhere, while
-- every `malloc` succeeds, the log server can be reached and no write fails: from a valid store, the
-- thread ends with the socket closed, the log server told once and the store as it was. It sends
-- "1" to a name that is not registered, "2" to a user that is offline, and "3" where the target is
-- not registered. Otherwise it sends "0", the number of entries whose name is not empty, in decimal
-- digits, and the name and the description of every entry, each text with its NUL; the entries are
-- the files of the target in the directory, each once.
pub treat_request-FilesText :
    (env : Env) (w : World) (date name target : Bytes) {rest : List ReadEvent}
    → env.buffers ≡ true
    → env.log_up ≡ true
    → env.first ≡ true
    → ((i : ℕ) → env.rooms i ≡ true)
    → IsValid w.store
    → All Works w.events
    → IsField date × IsField name × IsField target
    → Delivers rest (codes "LIST_CONTENT" ∷ date ∷ name ∷ target ∷ []) w.input
    → (out : Bytes) × FilesText (view w.store.messages) name target out
      × Replies w rest
          (record { username = name; operation = codes "LIST_CONTENT"; date = date; file = [] })
          out
          (treat_request env w)
treat_request-FilesText env w date name target {rest} buffers up first rooms valid works f d =
    let (buffer, begins) = treat_request-files_end env w date name target buffers f d in
    let answer = list_content-FilesAnswer valid env.rooms name target rooms in
    let (out, text, r) =
      files_end-Replies env (record w { input = rest; buffer = buffer }) name target
        (codes "LIST_CONTENT") date up
        (ap (λ b. list_content env.rooms b name target w.store) first) answer works in
    (out, text, record { buffer = r.buffer; events = r.events; runs = begins ∙ r.runs })
