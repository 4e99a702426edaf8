-- ===== src/Heap/Lists.antt =====
-- server/list.c: the two queries, on the nodes at their addresses. The nodes of a response can be
-- reached by the caller alone, so the response is a value: the chain that `*respuesta` points to.
pub mod Reads
pub mod Users
pub mod Content
use ssdd_final.Base.{ℕ, zero, suc, ◌+◌, Bool, true, false, List, [], ◌∷◌, if◌then◌else◌, ◌==◌, none}
use ssdd_final.CString.{Bytes, strcmp_eq, strncpy, is_set}
use ssdd_final.Registry.Defs.{ℤ, pos}
use ssdd_final.Registry.Lists.{
  UserEntry, UserChain, null, cell, raw, UsersReply, FileEntry, FilesReply,
}
use ssdd_final.Threads.{Program, ret, act, access, locking, unlocking, ◌>>=◌, ◌>>◌}
use ssdd_final.Heap.{Ptr, NodeCell, FileCell, Code, get_messages, node, file, limit, out_of_fuel}

-- a write through a null pointer
unfoldable pub null_write : {A : Type 0} → Code A
null_write = access (λ m. none)

-- `pthread_mutex_unlock (&mutex); return …;`
unfoldable pub reply : {A : Type 0} → A → Code A
reply a = unlocking >> ret a

-- the three `strncpy` of one user
unfoldable pub read_user : Ptr → Code UserEntry
unfolding node
read_user user_current = do
  a ← access (node user_current)
  b ← access (node user_current)
  c ← access (node user_current)
  ret (record { username = strncpy a.username; ip = strncpy b.ip; port = strncpy c.port })

-- `if (user_current->next) … else response_current->next = NULL; user_count++;`, and the rounds
-- behind, `again`, with the number of the next `malloc` and whether `response_current` is a node
unfoldable pub link_user :
    (ℕ → Bool → Ptr → Code (UserChain × ℕ))
    → (ℕ → Bool)
    → ℕ
    → Bool
    → Ptr
    → UserEntry
    → Code (UserChain × ℕ)
unfolding node
link_user again room i here user_current entry = do
  c ← access (node user_current)
  d ← access (node user_current)
  if c.next == 0
      then (do rest ← again i here d.next; ret (cell entry null, rest.1 + 1))
      else do rest ← again (i + 1) (room i) d.next; ret (cell entry rest.0, rest.1 + 1)

-- `while (user_current)`: the chain that `response_current` begins, where `here` is whether it is a
-- node, and `user_count`. `room i` is whether the `i`-th `malloc` of the call succeeds.
unfoldable pub fill_users : ℕ → (ℕ → Bool) → ℕ → Bool → Ptr → Code (UserChain × ℕ)
unfolding node read_user link_user null_write out_of_fuel
fill_users zero room i here user_current = out_of_fuel
fill_users (suc n) room i here user_current =
    if user_current == 0 then ret (if here then raw else null, 0) else do
      c ← access (node user_current)
      if is_set c.ip
          then (if here
              then (do
                entry ← read_user user_current
                link_user (fill_users n room) room i here user_current entry)
              else null_write)
          else do d ← access (node user_current); fill_users n room i here d.next

-- the block of the `if` in `list_users`
unfoldable pub users_found : (ℕ → Bool) → Bool → Ptr → Code UsersReply
unfolding node get_messages limit fill_users reply
users_found room first current = do
  c ← access (node current)
  if is_set c.ip
      then (do
        user_current ← access get_messages
        k ← access limit
        filled ← fill_users k room 0 first user_current
        reply (UsersReply.listed filled.0 filled.1))
      else reply (UsersReply.failed (pos 2))

-- the walk to the user who asks
unfoldable pub users_loop : ℕ → (ℕ → Bool) → Bool → Bytes → Ptr → Code UsersReply
unfolding node users_found reply out_of_fuel
users_loop zero room first username current = out_of_fuel
users_loop (suc n) room first username current =
    if current == 0 then reply (UsersReply.failed (pos 1)) else do
      c ← access (node current)
      if strcmp_eq c.username username
          then users_found room first current
          else do c ← access (node current); users_loop n room first username c.next

unfoldable pub list_users : (ℕ → Bool) → Bool → Bytes → Code UsersReply
unfolding get_messages limit users_loop
list_users room first username = do
  locking
  current ← access get_messages
  n ← access limit
  users_loop n room first username current

-- the two `strncpy` of one file
unfoldable pub read_file : Ptr → Code FileEntry
unfolding file
read_file file_current = do
  a ← access (file file_current)
  b ← access (file file_current)
  ret (record { filename = strncpy a.filename; description = strncpy b.description })

-- `if (file_current->next) … else response_current->next = NULL;`, and the rounds behind
unfoldable pub link_file :
    (ℕ → Bool → Ptr → Code (List FileEntry))
    → (ℕ → Bool)
    → ℕ
    → Bool
    → Ptr
    → FileEntry
    → Code (List FileEntry)
unfolding file
link_file again room i here file_current entry = do
  c ← access (file file_current)
  d ← access (file file_current)
  if c.next == 0
      then (do rest ← again i here d.next; ret (entry ∷ []))
      else do rest ← again (i + 1) (room i) d.next; ret (entry ∷ rest)

-- `while (file_current)`: the entries from `response_current` on
unfoldable pub fill_files : ℕ → (ℕ → Bool) → ℕ → Bool → Ptr → Code (List FileEntry)
unfolding read_file link_file null_write out_of_fuel
fill_files zero room i here file_current = out_of_fuel
fill_files (suc n) room i here file_current =
    if file_current == 0
    then ret []
    else if here
    then (do
      entry ← read_file file_current
      link_file (fill_files n room) room i here file_current entry)
    else null_write

-- what `list_content` does with `target_user`
unfoldable pub target_found : (ℕ → Bool) → Bool → Ptr → Code FilesReply
unfolding node limit fill_files reply
target_found room first target_user = do
  c ← access (node target_user)
  if c.list_files == 0 then reply (FilesReply.listed []) else do
    d ← access (node target_user)
    k ← access limit
    entries ← fill_files k room 0 first d.list_files
    reply (FilesReply.listed entries)

-- the second walk, to the user whose files are listed
unfoldable pub target_loop : ℕ → (ℕ → Bool) → Bool → Bytes → Ptr → Code FilesReply
unfolding node target_found reply out_of_fuel
target_loop zero room first username_2 current = out_of_fuel
target_loop (suc n) room first username_2 current =
    if current == 0 then reply (FilesReply.failed (pos 3)) else do
      c ← access (node current)
      if strcmp_eq c.username username_2
          then target_found room first current
          else do c ← access (node current); target_loop n room first username_2 c.next

-- the block of the `if` in the first walk, and what follows that walk
unfoldable pub content_found : (ℕ → Bool) → Bool → Bytes → Ptr → Code FilesReply
unfolding node get_messages limit target_loop reply
content_found room first username_2 current = do
  c ← access (node current)
  if is_set c.ip
      then (do
        current ← access get_messages
        k ← access limit
        target_loop k room first username_2 current)
      else reply (FilesReply.failed (pos 2))

-- the first walk, to the user who asks
unfoldable pub content_loop : ℕ → (ℕ → Bool) → Bool → Bytes → Bytes → Ptr → Code FilesReply
unfolding node content_found reply out_of_fuel
content_loop zero room first username username_2 current = out_of_fuel
content_loop (suc n) room first username username_2 current =
    if current == 0 then reply (FilesReply.failed (pos 1)) else do
      c ← access (node current)
      if strcmp_eq c.username username
          then content_found room first username_2 current
          else do c ← access (node current); content_loop n room first username username_2 c.next

unfoldable pub list_content : (ℕ → Bool) → Bool → Bytes → Bytes → Code FilesReply
unfolding get_messages limit content_loop
list_content room first username username_2 = do
  locking
  current ← access get_messages
  n ← access limit
  content_loop n room first username username_2 current
