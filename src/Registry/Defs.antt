-- ===== src/Registry/Defs.antt =====
-- server/list.h: the nodes; server/list.c: the globals, the mutex, and the walk to a user that six
-- operations share.
use ssdd_final.Base.{ℕ, Bool, true, false, List, [], ◌∷◌, if◌then◌else◌}
use ssdd_final.CString.{Bytes, strcmp_eq}

-- `filelist_t`
pub record FileNode : Type 0 where
  pub filename : Bytes
  pub description : Bytes

-- `node_t`
pub record Node : Type 0 where
  pub username : Bytes
  pub ip : Bytes
  pub port : Bytes
  pub list_files : List FileNode

-- The globals of list.c. `locked` is whether `mutex` is held.
pub record Store : Type 0 where
  pub messages : List Node
  pub inited_list : Bool
  pub locked : Bool

-- The state before the first call: the globals as the C loader initialises them.
abbrev pub initial : Store
initial = record { messages = []; inited_list = false; locked = false }

-- What a call returns: -1 is `negsuc 0`.
pub data ℤ : Type 0 where
  pos : ℕ → ℤ
  negsuc : ℕ → ℤ

-- A run of a thread that no other thread disturbs: it returns, waits forever on the mutex, or
-- writes through a null pointer.
pub data Run (A : Type 0) : Type 0 where
  done : A → Store → Run A
  blocked : Run A
  fault : Run A

abbrev pub Op : Type 0 → Type 0
Op A = Store → Run A

abbrev pub pure : {A : Type 0} → A → Op A
pure = done

module _ {A B : Type 0} where
  abbrev pub and_then : Run A → (A → Op B) → Run B
  and_then (done a s) k = k a s
  and_then blocked k = blocked
  and_then fault k = fault

  infixl 5 ◌>>=◌ ◌>>◌
  abbrev pub ◌>>=◌ : Op A → (A → Op B) → Op B
  m >>= k = λ s. and_then (m s) k

  abbrev pub ◌>>◌ : Op A → Op B → Op B
  m >> n = m >>= λ _. n

-- `pthread_mutex_lock`: the mutex is not recursive, so its own holder waits forever too.
unfoldable pub lock : Op (Unit {0})
lock s = if s.locked then blocked else done tt (record s { locked = true })

-- `pthread_mutex_unlock`
unfoldable pub unlock : Op (Unit {0})
unlock s = done tt (record s { locked = false })

unfoldable pub get_messages : Op (List Node)
get_messages s = done s.messages s

-- a write through a pointer into the list, or to `messages`
unfoldable pub set_messages : List Node → Op (Unit {0})
set_messages us s = done tt (record s { messages = us })

unfoldable pub get_inited : Op Bool
get_inited s = done s.inited_list s

unfoldable pub set_inited : Bool → Op (Unit {0})
set_inited b s = done tt (record s { inited_list = b })

unfoldable pub init_list : Op ℤ
unfolding lock unlock get_inited set_messages set_inited
init_list = do
  lock
  inited ← get_inited
  if inited
      then unlock >> pure (pos 0)
      else do set_messages []; set_inited true; unlock; pure (pos 0)

-- `if (!inited_list) { unlock; init_list (); lock; }`
unfoldable pub ensure_inited : Op (Unit {0})
unfolding init_list
ensure_inited = do inited ← get_inited; if inited then pure tt else do unlock; init_list; lock

-- `destroy_list` calls `init_list` with the mutex held.
unfoldable pub destroy_list : Op ℤ
unfolding init_list
destroy_list = do
  lock
  inited ← get_inited
  if inited then pure (pos 0) else init_list
  set_messages []
  set_inited false
  unlock
  pure (pos 0)

-- `before` holds the nodes that a walk has passed, the last one first.
unfoldable pub rejoin : List Node → List Node → List Node
rejoin [] us = us
rejoin (u ∷ before) us = rejoin before (u ∷ us)

-- `while (current) { if (strcmp (current->username, username) == 0) …; current = current->next; }
-- unlock; return 1;`: the block of the `if` is `found`, given the nodes before and after `current`.
unfoldable pub with_user :
    Bytes → (List Node → Node → List Node → Op ℤ) → List Node → List Node → Op ℤ
unfolding unlock
with_user username found before [] = do unlock; pure (pos 1)
with_user username found before (current ∷ next) =
    if strcmp_eq current.username username
    then found before current next
    else with_user username found (current ∷ before) next
