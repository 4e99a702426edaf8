-- ===== src/Request/Cut/Files.antt =====
-- The reply to LIST_CONTENT, whichever `write` fails.
use ssdd_final.Base.{refl, ℕ, ◌≡◌, ◌∙◌, ap, true, List, [], ◌∷◌, ◌++◌, length}
use ssdd_final.CString.{Bytes}
use ssdd_final.Rpc.{codes}
use ssdd_final.Lines.{ReadEvent}
use ssdd_final.Registry.Defs.{pos, Run}
use ssdd_final.Registry.Lists.{FileEntry, FilesReply, list_content}
use ssdd_final.Registry.Lists.Content.{FilesAnswer, list_content-FilesAnswer}
use ssdd_final.Registry.Invariant.{IsValid, view}
use ssdd_final.Request.World.{World, Env, and_then, ◌>>◌, close_exit, send_error}
use ssdd_final.Request.Decimal.{decimal}
use ssdd_final.Request.Queries.{count_files, send_files, files_error, answer_files}
use ssdd_final.Request.Treat.{treat_request}
use ssdd_final.Request.Fields.{IsField, Delivers}
use ssdd_final.Request.Emits.{ended}
use ssdd_final.Request.ListContent.{
  FilesText, unknown, offline, no_target, listed, files_text, files_end, logged_world, logged,
  files_end-run, treat_request-files_end,
}
use ssdd_final.Request.Parts.{Ends, pure-Ends, close_exit-Ends, send_or_exit-Ends, send-Ends}
use ssdd_final.Request.Cut.{Answers, send_error-Answers, Cut, Cut-from}

send_files-Ends :
    (w : World) (entries : List FileEntry) → Ends (send_files entries) w (files_text entries)
unfolding send_files
send_files-Ends w [] = pure-Ends w
send_files-Ends w (e ∷ es) =
    send-Ends w (ended e.filename)
      (λ v₁. send-Ends _ (ended e.description) (λ v₂. send_files-Ends _ es))

listed-Ends :
    (w : World) (entries : List FileEntry)
    → Ends
        (answer_files (FilesReply.listed entries))
        w
        (ended (decimal (count_files entries)) ++ files_text entries)
unfolding answer_files
listed-Ends w entries =
    send_or_exit-Ends w (ended (decimal (count_files entries))) (λ v. send_files-Ends _ entries)

module _ (env : Env) (w : World) (name target operation date : Bytes) (up : env.log_up ≡ true) where
  Answers-Cut :
      {reply : FilesReply} {code body : Bytes}
      → list_content env.rooms env.first name target w.store ≡ Run.done reply w.store
      → Answers
          (do send_error (files_error reply); answer_files reply)
          (logged_world w (logged env w name target operation date up))
          code
          body
      → Cut w w.input
          (logged env w name target operation date up)
          code
          body
          ((files_end env name target operation date >> close_exit {A = Unit {0}}) w)
  Answers-Cut {reply} e a = record {
    buffer = w.buffer;
    events = a.events;
    code_part = a.code_part;
    body_part = a.body_part;
    last = a.last;
    code_begins = a.code_begins;
    body_begins = a.body_begins;
    survives = a.survives;
    runs =
        ap (λ r. and_then r (λ x. close_exit {A = Unit {0}}))
          (files_end-run env w name target operation date reply up e)
        ∙ a.runs;
  }

  files_end-Cut :
      {r : Run FilesReply}
      → list_content env.rooms env.first name target w.store ≡ r
      → FilesAnswer w.store (view w.store.messages) name target r
      → (code : Bytes) × (body : Bytes) × (length code ≡ 2)
        × FilesText (view w.store.messages) name target (code ++ body)
        × Cut w w.input
            (logged env w name target operation date up)
            code
            body
            ((files_end env name target operation date >> close_exit {A = Unit {0}}) w)
  unfolding answer_files files_error
  files_end-Cut e (FilesAnswer.unknown h) = (
    _,
    [],
    refl,
    unknown h,
    Answers-Cut e (send_error-Answers _ (pos 1) λ part v. close_exit-Ends _),
  )
  files_end-Cut e (FilesAnswer.offline h off) = (
    _,
    [],
    refl,
    offline h off,
    Answers-Cut e (send_error-Answers _ (pos 2) λ part v. close_exit-Ends _),
  )
  files_end-Cut e (FilesAnswer.no_target h on h') = (
    _,
    [],
    refl,
    no_target h on h',
    Answers-Cut e (send_error-Answers _ (pos 3) λ part v. close_exit-Ends _),
  )
  files_end-Cut e (FilesAnswer.answered {entries = entries} h on h' same once) = (
    _,
    _,
    refl,
    listed entries h on h' same once,
    Answers-Cut e (send_error-Answers _ (pos 0) λ part v. listed-Ends _ entries),
  )

-- LIST_CONTENT with a date and two names that fit, arriving whole with interruptions anywhere, while
-- every `malloc` succeeds and the log server can be reached, from a valid store, whether each
-- `write` takes what it can, fails with -1, or raises SIGPIPE: the log server is told once and the
-- store is as it was. The reply that is due is a code of two bytes and a body; what goes out is a
-- first part of the code, then a first part of the body. The thread ends with the socket closed;
-- only where a `write` raises SIGPIPE can it be that the process has ended instead.
pub treat_request-FilesCut :
    (env : Env) (w : World) (date name target : Bytes) {rest : List ReadEvent}
    → env.buffers ≡ true
    → env.log_up ≡ true
    → env.first ≡ true
    → ((i : ℕ) → env.rooms i ≡ true)
    → IsValid w.store
    → IsField date × IsField name × IsField target
    → Delivers rest (codes "LIST_CONTENT" ∷ date ∷ name ∷ target ∷ []) w.input
    → (code : Bytes) × (body : Bytes) × (length code ≡ 2)
      × FilesText (view w.store.messages) name target (code ++ body)
      × Cut w rest
          (record { username = name; operation = codes "LIST_CONTENT"; date = date; file = [] })
          code
          body
          (treat_request env w)
treat_request-FilesCut env w date name target {rest} buffers up first rooms valid f d =
    let (buffer, begins) = treat_request-files_end env w date name target buffers f d in
    let answer = list_content-FilesAnswer valid env.rooms name target rooms in
    let (code, body, two, text, c) =
      files_end-Cut env (record w { input = rest; buffer = buffer }) name target
        (codes "LIST_CONTENT") date up
        (ap (λ b. list_content env.rooms b name target w.store) first) answer in
    (code, body, two, text, Cut-from begins c)
