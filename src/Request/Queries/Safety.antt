-- ===== src/Request/Queries/Safety.antt =====
-- The two queries keep the world sound, and read no node of a response that has not been filled.
use ssdd_final.Base.{Bool, ℕ, zero, suc, ◌≡◌, refl, true, List, [], ◌∷◌, ◌++◌, arith, length, not}
use ssdd_final.CString.{Bytes}
use ssdd_final.Directory.{Directory}
use ssdd_final.Registry.Defs.{Store, Run, done}
use ssdd_final.Registry.Invariant.{IsValid}
use ssdd_final.Registry.Lists.{
  UserEntry, UserChain, null, cell, raw, UsersReply, list_users, FileEntry, FilesReply,
  list_content,
}
use ssdd_final.Registry.Lists.Online.{
  Holds, UsersAnswer, unknown, offline, answered, list_users-UsersAnswer,
}
use ssdd_final.Registry.Lists.Content.{FilesAnswer, list_content-FilesAnswer}
use ssdd_final.Request.World.{Env}
use ssdd_final.Request.World.Safety.{
  Keeps, Any, bind, Keeps-pure, Keeps-close_exit, Keeps-if, Keeps-backend, Keeps-clear_buffer,
  Keeps-send, Keeps-send_or_exit, Keeps-send_error, Keeps-rpc_llamada,
}
use ssdd_final.Request.Commands.Safety.{Keeps-next_field}
use ssdd_final.Request.Queries.{
  after_send, send_users, users_error, answer_users, handle_list_users, send_files, files_error,
  answer_files, handle_list_content,
}

-- As many nodes as the count says have been filled.
abbrev pub Filled : UsersReply → Type 0
Filled (UsersReply.failed error) = Unit
Filled (UsersReply.listed chain n) =
    (entries : List UserEntry) × Holds chain entries × (n ≡ length entries)

after_send-Holds :
    (e : UserEntry) (next : UserChain) (entries : List UserEntry)
    → Holds next entries
    → Holds (after_send e next) entries
unfolding send_users
after_send-Holds e next [] h = tt
after_send-Holds e null (x ∷ xs) h = absurd h
after_send-Holds e raw (x ∷ xs) h = absurd h
after_send-Holds e (cell y next) (x ∷ xs) h = h

send_users-Keeps :
    {up : Bool} (n : ℕ) (chain : UserChain) (entries : List UserEntry)
    → Holds chain entries
    → n ≡ length entries
    → Keeps up Any (send_users n chain)
unfolding send_users
send_users-Keeps zero chain entries h e = Keeps-pure tt tt
send_users-Keeps (suc n) chain [] h e = absurd (omega arith)
send_users-Keeps (suc n) null (x ∷ xs) h e = absurd h
send_users-Keeps (suc n) raw (x ∷ xs) h e = absurd h
send_users-Keeps (suc n) (cell y next) (x ∷ xs) h e =
    bind (Keeps-send_or_exit (y.username ++ 0 ∷ [])) λ _ _.
      bind (Keeps-send_or_exit (y.ip ++ 0 ∷ [])) λ _ _.
        bind (Keeps-send_or_exit (y.port ++ 0 ∷ [])) λ _ _.
          send_users-Keeps n (after_send y next) xs (after_send-Holds y next xs h.1) (omega arith)

pub answer_users-Keeps :
    {up : Bool} (reply : UsersReply) → Filled reply → Keeps up Any (answer_users reply)
unfolding answer_users
answer_users-Keeps (UsersReply.failed error) f = Keeps-close_exit
answer_users-Keeps (UsersReply.listed chain n) (entries, holds, count) =
    bind (Keeps-send_or_exit _) λ _ _. send_users-Keeps n chain entries holds count

send_files-Keeps : {up : Bool} (es : List FileEntry) → Keeps up Any (send_files es)
unfolding send_files
send_files-Keeps [] = Keeps-pure tt tt
send_files-Keeps (e ∷ es) = bind (Keeps-send (e.filename ++ 0 ∷ [])) λ ok _.
    Keeps-if (not ok) _ _ (Keeps-pure tt tt) (
      bind (Keeps-send (e.description ++ 0 ∷ []))
        λ ok' _. Keeps-if (not ok') _ _ (Keeps-pure tt tt) (send_files-Keeps es))

pub answer_files-Keeps : {up : Bool} (reply : FilesReply) → Keeps up Any (answer_files reply)
unfolding answer_files
answer_files-Keeps (FilesReply.failed error) = Keeps-close_exit
answer_files-Keeps (FilesReply.listed entries) =
    bind (Keeps-send_or_exit _) λ _ _. send_files-Keeps entries

-- The answers of list.c, as runs that leave a valid store.
pub UsersAnswer-returns :
    {s : Store} {d : Directory} {name : Bytes} {r : Run UsersReply}
    → IsValid s
    → UsersAnswer s d name r
    → (a : UsersReply) × (t : Store) × (r ≡ done a t) × IsValid t × Filled a
UsersAnswer-returns {s} v (unknown e) = (_, s, refl, v, tt)
UsersAnswer-returns {s} v (offline e off) = (_, s, refl, v, tt)
UsersAnswer-returns {s} v (answered entries e on h n f c) = (_, s, refl, v, (entries, h, n))

pub FilesAnswer-returns :
    {s : Store} {d : Directory} {name target : Bytes} {r : Run FilesReply}
    → IsValid s
    → FilesAnswer s d name target r
    → (a : FilesReply) × (t : Store) × (r ≡ done a t) × IsValid t × Any a
FilesAnswer-returns {s} v (FilesAnswer.unknown e) = (_, s, refl, v, tt)
FilesAnswer-returns {s} v (FilesAnswer.offline e off) = (_, s, refl, v, tt)
FilesAnswer-returns {s} v (FilesAnswer.no_target e on t) = (_, s, refl, v, tt)
FilesAnswer-returns {s} v (FilesAnswer.answered e on t f c) = (_, s, refl, v, tt)

module _ (env : Env) (operation : Bytes) (first : env.first ≡ true)
    (rooms : (i : ℕ) → env.rooms i ≡ true) where
  pub Keeps-handle_list_users : Keeps env.log_up Any (handle_list_users env operation)
  unfolding handle_list_users
  Keeps-handle_list_users = Keeps-next_field λ date _. Keeps-next_field λ name _.
      bind
        (Keeps-backend {P = Filled} (list_users env.rooms env.first name)
          λ s v. rw first (UsersAnswer-returns v (list_users-UsersAnswer v env.rooms name rooms)))
        λ reply filled. bind Keeps-clear_buffer λ _ _.
          bind (Keeps-rpc_llamada env name operation date []) λ _ _.
            bind (Keeps-send_error (users_error reply)) λ _ _. answer_users-Keeps reply filled

  pub Keeps-handle_list_content : Keeps env.log_up Any (handle_list_content env operation)
  unfolding handle_list_content
  Keeps-handle_list_content = Keeps-next_field λ date _. Keeps-next_field λ name _.
      Keeps-next_field λ target _.
        bind
          (Keeps-backend {P = Any} (list_content env.rooms env.first name target) λ s v.
            rw first
              (FilesAnswer-returns v (list_content-FilesAnswer v env.rooms name target rooms)))
          λ reply _.
            bind (Keeps-rpc_llamada env name operation date [])
              λ _ _. bind (Keeps-send_error (files_error reply)) λ _ _. answer_files-Keeps reply
