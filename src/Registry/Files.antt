-- ===== src/Registry/Files.antt =====
-- server/list.c: publication and removal of files.
pub mod Refine
use ssdd_final.Base.{Bool, true, false, List, [], ◌∷◌, if◌then◌else◌}
use ssdd_final.CString.{Bytes, strcmp_eq, strncpy, is_set}
use ssdd_final.Registry.Defs.{
  FileNode, Node, Store, ℤ, pos, Run, done, blocked, Op, pure, ◌>>=◌, ◌>>◌, lock, unlock,
  get_messages, set_messages, ensure_inited, rejoin, with_user,
}

pub new_file : Bytes → Bytes → FileNode
new_file file description = record { filename = strncpy file; description = strncpy description }

-- the walk over the files of `current`, then what follows it
pub publish_loop : Bool → Bytes → Bytes → List Node → Node → List Node → List FileNode → Op ℤ
unfolding new_file set_messages unlock rejoin
publish_loop room file description before current next [] =
    if room
    then (do
      set_messages (
          rejoin before
            (record current { list_files = new_file file description ∷ current.list_files } ∷ next))
      unlock
      pure (pos 0))
    else unlock >> pure (pos 4)
publish_loop room file description before current next (file_current ∷ rest) =
    if strcmp_eq file_current.filename file
    then unlock >> pure (pos 3)
    else publish_loop room file description before current next rest

pub publish_found : Bool → Bytes → Bytes → List Node → Node → List Node → Op ℤ
unfolding publish_loop
publish_found room file description before current next =
    if is_set current.ip
    then publish_loop room file description before current next current.list_files
    else unlock >> pure (pos 2)

unfoldable pub register_file_from_user : Bool → Bytes → Bytes → Bytes → Op ℤ
unfolding publish_found with_user lock ensure_inited get_messages
register_file_from_user room username file description = do
  lock
  ensure_inited
  us ← get_messages
  with_user username (publish_found room file description) [] us

pub rejoin_files : List FileNode → List FileNode → List FileNode
rejoin_files [] fs = fs
rejoin_files (f ∷ before) fs = rejoin_files before (f ∷ fs)

-- `passed` holds the files that the walk has passed, the last one first.
pub delete_loop : Bytes → List Node → Node → List Node → List FileNode → List FileNode → Op ℤ
unfolding rejoin_files set_messages unlock rejoin
delete_loop file before current next passed [] = unlock >> pure (pos 3)
delete_loop file before current next passed (file_current ∷ rest) =
    if strcmp_eq file_current.filename file
    then (do
      set_messages (rejoin before (record current { list_files = rejoin_files passed rest } ∷ next))
      unlock
      pure (pos 0))
    else delete_loop file before current next (file_current ∷ passed) rest

pub delete_found : Bytes → List Node → Node → List Node → Op ℤ
unfolding delete_loop
delete_found file before current next =
    if is_set current.ip
    then delete_loop file before current next [] current.list_files
    else unlock >> pure (pos 2)

unfoldable pub unregister_file_from_user : Bytes → Bytes → Op ℤ
unfolding delete_found with_user lock ensure_inited get_messages
unregister_file_from_user username file = do
  lock
  ensure_inited
  us ← get_messages
  with_user username (delete_found file) [] us
