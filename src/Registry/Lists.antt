-- ===== src/Registry/Lists.antt =====
-- server/list.c: the two queries, and the linked responses that they fill in. The nodes of a
-- response come from `malloc`, whose result the code does not test.
pub mod Online
pub mod Content
use mathlib.Core.Option
use ssdd_final.Base.{
  ℕ, suc, ◌+◌, Bool, true, false, Option, none, some, List, [], ◌∷◌, if◌then◌else◌,
}
use ssdd_final.CString.{Bytes, strcmp_eq, strncpy, is_set}
use ssdd_final.Registry.Defs.{
  FileNode, Node, Store, ℤ, pos, Run, done, blocked, fault, Op, pure, ◌>>=◌, ◌>>◌, lock, unlock,
  get_messages, with_user,
}

-- the texts of a `t_response_user`
pub record UserEntry : Type 0 where
  pub username : Bytes
  pub ip : Bytes
  pub port : Bytes

-- A `t_response_user *`: NULL, a filled node with its `next`, or a node that nothing has written.
pub data UserChain : Type 0 where
  null : UserChain
  cell : UserEntry → UserChain → UserChain
  raw : UserChain

unfoldable pub entry_of : Node → UserEntry
entry_of u = record { username = strncpy u.username; ip = strncpy u.ip; port = strncpy u.port }

-- `user_current` with an address: `here` is whether `response_current` is a node, and `rest` what
-- the walk makes of the users behind, with the node from `malloc` if there is any user behind.
unfoldable pub fill_cell :
    Bool → UserEntry → List Node → Option (UserChain × ℕ) → Option (UserChain × ℕ)
fill_cell false e next rest = none
fill_cell true e [] rest = some (cell e null, 1)
fill_cell true e (v ∷ next) none = none
fill_cell true e (v ∷ next) (some (chain, user_count)) = some (cell e chain, user_count + 1)

-- What `response_current` points to after the walk, and `user_count`; `none` is a write through
-- NULL. `room i` is whether the `i`-th `malloc` of the call succeeds.
unfoldable pub fill_users : (ℕ → Bool) → ℕ → Bool → List Node → Option (UserChain × ℕ)
unfolding entry_of fill_cell
fill_users room i here [] = some (if here then raw else null, 0)
fill_users room i here (user_current ∷ next) =
    let behind = fill_users room (i + 1) (room i) next in
    let skipped = fill_users room i here next in
    if is_set user_current.ip then fill_cell here (entry_of user_current) next behind else skipped

-- the return code, `*respuesta` and `*n_user`; on an error neither output is written
pub data UsersReply : Type 0 where
  failed : ℤ → UsersReply
  listed : UserChain → ℕ → UsersReply

-- `none` is a write through NULL
unfoldable pub or_fault : {A : Type 0} → Option A → Op A
or_fault none = λ _. fault
or_fault (some a) = pure a

-- `list_users`: the walk that looks for the user who asks
unfoldable pub users_loop : (ℕ → Bool) → Bool → Bytes → List Node → List Node → Op UsersReply
unfolding fill_users unlock or_fault
users_loop room first username messages [] = unlock >> pure (failed (pos 1))
users_loop room first username messages (current ∷ next) =
    if strcmp_eq current.username username
    then if is_set current.ip
      then (do
        filled ← or_fault (fill_users room 0 first messages)
        unlock
        pure (listed filled.0 filled.1))
      else unlock >> pure (failed (pos 2))
    else users_loop room first username messages next

-- `first` is whether the caller's `malloc` gave `*respuesta` a node.
unfoldable pub list_users : (ℕ → Bool) → Bool → Bytes → Op UsersReply
unfolding users_loop lock get_messages
list_users room first username = do lock; us ← get_messages; users_loop room first username us us

-- a `t_response_list`; the empty list is NULL
pub record FileEntry : Type 0 where
  pub filename : Bytes
  pub description : Bytes

-- The files from `response_current` on; `none` is a write through NULL.
unfoldable pub fill_files : (ℕ → Bool) → ℕ → Bool → List FileNode → Option (List FileEntry)
fill_files room i here [] = some []
fill_files room i here (f ∷ fs) =
    let rest = fill_files room (i + 1) (room i) fs in
    if here
    then Option.map
        (λ es. record { filename = strncpy f.filename; description = strncpy f.description } ∷ es)
        rest
    else none

pub data FilesReply : Type 0 where
  failed : ℤ → FilesReply
  listed : List FileEntry → FilesReply

-- the second walk of `list_content`, to the user whose files are listed
unfoldable pub target_loop : (ℕ → Bool) → Bool → Bytes → List Node → Op FilesReply
unfolding fill_files unlock or_fault
target_loop room first username_2 [] = unlock >> pure (FilesReply.failed (pos 3))
target_loop room first username_2 (current ∷ next) =
    if strcmp_eq current.username username_2
    then (do
      entries ← or_fault (fill_files room 0 first current.list_files)
      unlock
      pure (FilesReply.listed entries))
    else target_loop room first username_2 next

-- the first walk, to the user who asks
unfoldable pub content_loop :
    (ℕ → Bool) → Bool → Bytes → Bytes → List Node → List Node → Op FilesReply
unfolding target_loop
content_loop room first username username_2 messages [] = unlock >> pure (FilesReply.failed (pos 1))
content_loop room first username username_2 messages (current ∷ next) =
    if strcmp_eq current.username username
    then if is_set current.ip
      then target_loop room first username_2 messages
      else unlock >> pure (FilesReply.failed (pos 2))
    else content_loop room first username username_2 messages next

unfoldable pub list_content : (ℕ → Bool) → Bool → Bytes → Bytes → Op FilesReply
unfolding content_loop lock get_messages
list_content room first username username_2 = do
  lock
  us ← get_messages
  content_loop room first username username_2 us us
