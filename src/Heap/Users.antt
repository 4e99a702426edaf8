-- ===== src/Heap/Users.antt =====
-- server/list.c: registration and connection of users, on the nodes at their addresses.
pub mod Connect
pub mod Register
pub mod Unregister
use ssdd_final.Base.{ℕ, zero, suc, Bool, Option, none, some, [], if◌then◌else◌, ◌==◌}
use ssdd_final.CString.{Bytes, strncpy, is_set}
use ssdd_final.Registry.Defs.{ℤ, pos, negsuc}
use ssdd_final.Threads.{Program, ret, act, access, unlocking, ◌>>=◌, ◌>>◌}
use ssdd_final.Heap.{
  Ptr, NodeCell, Code, get_messages, set_messages, node, write_node, malloc_node, free_node, file,
  free_file, out_of_fuel, finish, with_user,
}

-- what follows the loop of `register_user`
unfoldable pub add_user : Bool → NodeCell → Bytes → Code ℤ
unfolding malloc_node finish write_node get_messages set_messages
add_user room junk username = do
  new_node ← access (malloc_node room junk)
  if new_node == 0 then finish (negsuc 0) else do
    access (write_node new_node (λ c. record c { username = strncpy username }))
    access (write_node new_node (λ c. record c { ip = [] }))
    access (write_node new_node (λ c. record c { port = [] }))
    access (write_node new_node (λ c. record c { list_files = 0 }))
    messages ← access get_messages
    access (write_node new_node (λ c. record c { next = messages }))
    access (set_messages new_node)
    finish (pos 0)

unfoldable pub register_user : Bool → NodeCell → Bytes → Code ℤ
unfolding with_user finish add_user
register_user room junk username =
    with_user username (λ n previous current. finish (pos 1)) (λ n. add_user room junk username)

-- `while (file_current) { file_next = file_current->next; free (file_current); … }`
unfoldable pub free_files : ℕ → Ptr → Code (Unit {0})
unfolding file free_file out_of_fuel
free_files zero file_current = out_of_fuel
free_files (suc n) file_current =
    if file_current == 0
    then ret tt
    else do c ← access (file file_current); access (free_file file_current); free_files n c.next

-- `previous->next = current->next`, or `messages = current->next`
unfoldable pub unlink : Ptr → Ptr → Code (Unit {0})
unfolding node write_node set_messages
unlink previous current = do
  c ← access (node current)
  if previous == 0
      then access (set_messages c.next)
      else access (write_node previous (λ p. record p { next = c.next }))

unfoldable pub unregister_found : ℕ → Ptr → Ptr → Code ℤ
unfolding unlink free_files node free_node finish
unregister_found n previous current = do
  unlink previous current
  c ← access (node current)
  free_files n c.list_files
  access (free_node current)
  finish (pos 0)

unfoldable pub unregister_user : Bytes → Code ℤ
unfolding with_user unregister_found finish
unregister_user username = with_user username unregister_found (λ n. finish (pos 1))

-- `peer` is the text of the address that `getpeername` gives, `none` where it fails.
unfoldable pub connect_found : Option Bytes → Bytes → Ptr → Code ℤ
unfolding node write_node finish
connect_found peer port current = do
  c ← access (node current)
  if is_set c.ip then finish (pos 2) else elim peer [
    | some addr ↦ do
      access (write_node current (λ c. record c { ip = strncpy addr }))
      access (write_node current (λ c. record c { port = strncpy port }))
      finish (pos 0)
    | none ↦ finish (pos 3)
  ]

unfoldable pub connect_user : Option Bytes → Bytes → Bytes → Code ℤ
unfolding with_user connect_found finish
connect_user peer port username =
    with_user username (λ n previous. connect_found peer port) (λ n. finish (pos 1))

unfoldable pub disconnect_found : Ptr → Code ℤ
unfolding node write_node finish
disconnect_found current = do
  c ← access (node current)
  if is_set c.ip
      then (do
        access (write_node current (λ c. record c { ip = [] }))
        access (write_node current (λ c. record c { port = [] }))
        finish (pos 0))
      else finish (pos 2)

unfoldable pub disconnect_user : Bytes → Code ℤ
unfolding with_user disconnect_found finish
disconnect_user username = with_user username (λ n previous. disconnect_found) (λ n. finish (pos 1))
