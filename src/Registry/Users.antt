-- ===== src/Registry/Users.antt =====
-- server/list.c: registration and connection of users.
pub mod Refine
use ssdd_final.Base.{ℕ, Bool, true, false, Option, none, some, List, [], ◌∷◌, if◌then◌else◌}
use ssdd_final.CString.{Bytes, strcmp_eq, strncpy, is_set}
use ssdd_final.Registry.Defs.{
  FileNode, Node, Store, ℤ, pos, negsuc, Run, done, blocked, Op, pure, ◌>>=◌, ◌>>◌, lock, unlock,
  get_messages, set_messages, ensure_inited, rejoin, with_user,
}

-- The nodes of `malloc` and the copy of the name; `none` is a failed `malloc`.
pub new_node : Bytes → Node
new_node username = record { username = strncpy username; ip = []; port = []; list_files = [] }

-- the loop of `register_user`, then what follows it: `room` is whether `malloc` succeeds
pub register_loop : Bool → Bytes → List Node → Op ℤ
unfolding new_node get_messages set_messages unlock
register_loop room username [] =
    if room
    then (do us ← get_messages; set_messages (new_node username ∷ us); unlock; pure (pos 0))
    else unlock >> pure (negsuc 0)
register_loop room username (current ∷ next) =
    if strcmp_eq current.username username
    then unlock >> pure (pos 1)
    else register_loop room username next

unfoldable pub register_user : Bool → Bytes → Op ℤ
unfolding register_loop lock ensure_inited
register_user room username = do
  lock
  ensure_inited
  us ← get_messages
  register_loop room username us

-- `previous->next = current->next`, or `messages = current->next` at the first node
pub unlink : List Node → Node → List Node → Op ℤ
unfolding set_messages unlock rejoin
unlink before current next = do set_messages (rejoin before next); unlock; pure (pos 0)

unfoldable pub unregister_user : Bytes → Op ℤ
unfolding unlink with_user lock ensure_inited get_messages
unregister_user username = do
  lock
  ensure_inited
  us ← get_messages
  with_user username unlink [] us

-- `peer` is the text of the address that `getpeername` gives, `none` where it fails.
pub connect_found : Option Bytes → Bytes → List Node → Node → List Node → Op ℤ
unfolding set_messages unlock rejoin
connect_found peer port before current next =
    if is_set current.ip then unlock >> pure (pos 2) else elim peer [
      | some addr ↦ do
        set_messages
            (rejoin before (record current { ip = strncpy addr; port = strncpy port } ∷ next))
        unlock
        pure (pos 0)
      | none ↦ unlock >> pure (pos 3)
    ]

unfoldable pub connect_user : Option Bytes → Bytes → Bytes → Op ℤ
unfolding connect_found with_user lock ensure_inited get_messages
connect_user peer port username = do
  lock
  ensure_inited
  us ← get_messages
  with_user username (connect_found peer port) [] us

pub disconnect_found : List Node → Node → List Node → Op ℤ
unfolding set_messages unlock rejoin
disconnect_found before current next =
    if is_set current.ip
    then (do
      set_messages (rejoin before (record current { ip = []; port = [] } ∷ next))
      unlock
      pure (pos 0))
    else unlock >> pure (pos 2)

unfoldable pub disconnect_user : Bytes → Op ℤ
unfolding disconnect_found with_user lock ensure_inited get_messages
disconnect_user username = do
  lock
  ensure_inited
  us ← get_messages
  with_user username disconnect_found [] us
