-- ===== src/Heap/Files.antt =====
-- server/list.c: publication and removal of files, on the nodes at their addresses.
pub mod Delete
pub mod Publish
use ssdd_final.Base.{ℕ, zero, suc, Bool, if◌then◌else◌, ◌==◌}
use ssdd_final.CString.{Bytes, strcmp_eq, strncpy, is_set}
use ssdd_final.Registry.Defs.{ℤ, pos}
use ssdd_final.Threads.{Program, ret, act, access, ◌>>=◌, ◌>>◌}
use ssdd_final.Heap.{
  Ptr, FileCell, Code, node, write_node, file, write_file, malloc_file, free_file, out_of_fuel,
  finish, with_user,
}

-- The loop over the files of a user, with `file_previous` and `file_current`.
unfoldable pub walk_files : ℕ → Bytes → (Ptr → Ptr → Code ℤ) → Code ℤ → Ptr → Ptr → Code ℤ
unfolding file out_of_fuel
walk_files zero name found missing file_previous file_current = out_of_fuel
walk_files (suc n) name found missing file_previous file_current =
    if file_current == 0 then missing else do
      c ← access (file file_current)
      if strcmp_eq c.filename name then found file_previous file_current else do
        c ← access (file file_current)
        walk_files n name found missing file_current c.next

-- what follows the loop over the files in `register_file_from_user`
unfoldable pub add_file : Bool → FileCell → Bytes → Bytes → Ptr → Code ℤ
unfolding malloc_file write_file node write_node finish
add_file room junk filename description current = do
  new_file ← access (malloc_file room junk)
  if new_file == 0 then finish (pos 4) else do
    access (write_file new_file (λ c. record c { filename = strncpy filename }))
    access (write_file new_file (λ c. record c { description = strncpy description }))
    u ← access (node current)
    access (write_file new_file (λ c. record c { next = u.list_files }))
    access (write_node current (λ c. record c { list_files = new_file }))
    finish (pos 0)

unfoldable pub publish_found : Bool → FileCell → Bytes → Bytes → ℕ → Ptr → Code ℤ
unfolding node walk_files add_file finish
publish_found room junk filename description n current = do
  c ← access (node current)
  if is_set c.ip
      then (do
        c ← access (node current)
        walk_files n filename (λ file_previous file_current. finish (pos 3))
            (add_file room junk filename description current) 0 c.list_files)
      else finish (pos 2)

unfoldable pub register_file_from_user : Bool → FileCell → Bytes → Bytes → Bytes → Code ℤ
unfolding with_user publish_found finish
register_file_from_user room junk username filename description =
    with_user username (λ n previous. publish_found room junk filename description n)
      (λ n. finish (pos 1))

-- `file_previous->next = file_current->next`, or `current->list_files = file_current->next`, then
-- `free (file_current)`
unfoldable pub remove_file : Ptr → Ptr → Ptr → Code ℤ
unfolding file write_file write_node free_file finish
remove_file current file_previous file_current = do
  c ← access (file file_current)
  if file_previous == 0
      then access (write_node current (λ u. record u { list_files = c.next }))
      else access (write_file file_previous (λ f. record f { next = c.next }))
  access (free_file file_current)
  finish (pos 0)

unfoldable pub delete_found : Bytes → ℕ → Ptr → Code ℤ
unfolding node walk_files remove_file finish
delete_found filename n current = do
  c ← access (node current)
  if is_set c.ip
      then (do
        c ← access (node current)
        walk_files n filename (remove_file current) (finish (pos 3)) 0 c.list_files)
      else finish (pos 2)

unfoldable pub unregister_file_from_user : Bytes → Bytes → Code ℤ
unfolding with_user delete_found finish
unregister_file_from_user username filename =
    with_user username (λ n previous. delete_found filename n) (λ n. finish (pos 1))
