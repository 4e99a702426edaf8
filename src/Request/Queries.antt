-- ===== src/Request/Queries.antt =====
-- server/servidor.c: the branches of `treat_request` that answer a list.
pub mod Safety
use ssdd_final.Base.{ℕ, zero, suc, ◌+◌, Bool, not, List, [], ◌∷◌, ◌++◌, if◌then◌else◌}
use ssdd_final.CString.{Bytes, is_set}
use ssdd_final.Registry.Defs.{ℤ, pos}
use ssdd_final.Registry.Lists.{
  UserEntry, UserChain, null, cell, raw, UsersReply, list_users, FileEntry, FilesReply,
  list_content,
}
use ssdd_final.Request.World.{
  Env, Handler, go, pure, ◌>>=◌, ◌>>◌, close_exit, crash, clear_buffer, read_field, backend, send,
  send_or_exit, send_error, rpc_llamada,
}
use ssdd_final.Request.Decimal.{decimal}

-- `if (send->next != NULL) send = send->next;`
pub after_send : UserEntry → UserChain → UserChain
after_send e null = cell e null
after_send e (cell e' next) = cell e' next
after_send e raw = raw

-- `while (i < n_user)`: the node at `send` is read in every round.
unfoldable pub send_users : ℕ → UserChain → Handler (Unit {0})
unfolding after_send crash
send_users zero chain = pure tt
send_users (suc n) null = crash
send_users (suc n) raw = crash
send_users (suc n) (cell e next) = do
  send_or_exit (e.username ++ 0 ∷ [])
  send_or_exit (e.ip ++ 0 ∷ [])
  send_or_exit (e.port ++ 0 ∷ [])
  send_users n (after_send e next)

unfoldable pub users_error : UsersReply → ℤ
users_error (UsersReply.failed error) = error
users_error (UsersReply.listed chain n) = pos 0

-- what follows the code in `LIST_USERS`; every error of `list_users` is a code other than 0
unfoldable pub answer_users : UsersReply → Handler (Unit {0})
unfolding send_users close_exit
answer_users (UsersReply.failed error) = close_exit
answer_users (UsersReply.listed chain n_user) = do
  send_or_exit (decimal n_user ++ 0 ∷ [])
  send_users n_user chain

unfoldable pub handle_list_users : Env → Bytes → Handler (Unit {0})
unfolding users_error answer_users
handle_list_users env operation = do
  clear_buffer
  date ← read_field
  clear_buffer
  username ← read_field
  reply ← backend (list_users env.rooms env.first username)
  clear_buffer
  rpc_llamada env username operation date []
  send_error (users_error reply)
  answer_users reply

-- `file_count`: the entries with `filename[0] != '\0'`
unfoldable pub count_files : List FileEntry → ℕ
count_files [] = 0
count_files (e ∷ es) = if is_set e.filename then suc (count_files es) else count_files es

-- `while (send_ptr != NULL)`: a failure of `sendMessage` ends the loop.
unfoldable pub send_files : List FileEntry → Handler (Unit {0})
send_files [] = pure tt
send_files (e ∷ es) = do
  ok ← send (e.filename ++ 0 ∷ [])
  if not ok
      then pure tt
      else do ok' ← send (e.description ++ 0 ∷ []); if not ok' then pure tt else send_files es

unfoldable pub files_error : FilesReply → ℤ
files_error (FilesReply.failed error) = error
files_error (FilesReply.listed entries) = pos 0

unfoldable pub answer_files : FilesReply → Handler (Unit {0})
unfolding count_files send_files close_exit
answer_files (FilesReply.failed error) = close_exit
answer_files (FilesReply.listed entries) = do
  send_or_exit (decimal (count_files entries) ++ 0 ∷ [])
  send_files entries

-- This branch alone leaves `buffer` as the last line read has made it.
unfoldable pub handle_list_content : Env → Bytes → Handler (Unit {0})
unfolding files_error answer_files
handle_list_content env operation = do
  clear_buffer
  date ← read_field
  clear_buffer
  username ← read_field
  clear_buffer
  username2 ← read_field
  reply ← backend (list_content env.rooms env.first username username2)
  rpc_llamada env username operation date []
  send_error (files_error reply)
  answer_files reply
