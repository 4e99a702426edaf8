-- ===== src/Heap.antt =====
-- server/list.h and server/list.c: the nodes at their addresses, and the accesses to them.
pub mod Users
pub mod Files
pub mod Lists
pub mod Chain
pub mod Layout
pub mod Rules
pub mod Walk
pub mod Found
pub mod Free
pub mod Destroy
pub mod Serves
pub mod Concurrent
use ssdd_final.Base.{
  ℕ, zero, suc, Bool, true, false, Option, none, some, update, if◌then◌else◌, ◌==◌,
}
use ssdd_final.CString.{Bytes, strcmp_eq}
use ssdd_final.Registry.Defs.{ℤ, pos}
use ssdd_final.Threads.{Program, ret, act, access, locking, unlocking, ◌>>=◌, ◌>>◌}

-- 0 is NULL
abbrev pub Ptr : Type 0
Ptr = ℕ

-- `node_t`
pub record NodeCell : Type 0 where
  pub username : Bytes
  pub ip : Bytes
  pub port : Bytes
  pub list_files : Ptr
  pub next : Ptr

-- `filelist_t`
pub record FileCell : Type 0 where
  pub filename : Bytes
  pub description : Bytes
  pub next : Ptr

-- The globals of list.c and its part of the heap. An address that holds no node was never given out
-- or has been freed; `fresh` is the next one that `malloc` gives.
pub record Mem : Type 0 where
  pub messages : Ptr
  pub inited_list : Bool
  pub nodes : Ptr → Option NodeCell
  pub files : Ptr → Option FileCell
  pub fresh : Ptr

abbrev pub Code : Type 0 → Type 1
Code A = Program Mem A

abbrev pub Access : Type 0 → Type 0
Access A = Mem → Option (A × Mem)

unfoldable pub get_inited : Access Bool
get_inited m = some (m.inited_list, m)

unfoldable pub set_inited : Access (Unit {0})
set_inited m = some (tt, record m { inited_list = true })

unfoldable pub get_messages : Access Ptr
get_messages m = some (m.messages, m)

unfoldable pub set_messages : Ptr → Access (Unit {0})
set_messages p m = some (tt, record m { messages = p })

-- a read of `*p`
unfoldable pub node : Ptr → Access NodeCell
node p m = elim (m.nodes p) [ none ↦ none | some c ↦ some (c, m) ]

-- a write to a field of `*p`
unfoldable pub write_node : Ptr → (NodeCell → NodeCell) → Access (Unit {0})
write_node p g m = elim (m.nodes p) [
  | none ↦ none
  | some c ↦ some (tt, record m { nodes = update m.nodes p (some (g c)) })
]

-- `malloc (sizeof (node_t))`: where there is room, an address with what the memory happens to hold
unfoldable pub malloc_node : Bool → NodeCell → Access Ptr
malloc_node true junk m =
    some (m.fresh, record m { nodes = update m.nodes m.fresh (some junk); fresh = suc m.fresh })
malloc_node false junk m = some (0, m)

-- `free (p)`, a fault at what is no node
unfoldable pub free_node : Ptr → Access (Unit {0})
free_node p m = elim (m.nodes p) [
  | none ↦ none
  | some c ↦ some (tt, record m { nodes = update m.nodes p none })
]

unfoldable pub file : Ptr → Access FileCell
file p m = elim (m.files p) [ none ↦ none | some c ↦ some (c, m) ]

unfoldable pub write_file : Ptr → (FileCell → FileCell) → Access (Unit {0})
write_file p g m = elim (m.files p) [
  | none ↦ none
  | some c ↦ some (tt, record m { files = update m.files p (some (g c)) })
]

unfoldable pub malloc_file : Bool → FileCell → Access Ptr
malloc_file true junk m =
    some (m.fresh, record m { files = update m.files m.fresh (some junk); fresh = suc m.fresh })
malloc_file false junk m = some (0, m)

unfoldable pub free_file : Ptr → Access (Unit {0})
free_file p m = elim (m.files p) [
  | none ↦ none
  | some c ↦ some (tt, record m { files = update m.files p none })
]

-- No access of the code: it bounds the loops by the number of addresses given out.
unfoldable pub limit : Access ℕ
limit m = some (m.fresh, m)

-- a loop that is not at its end when the bound is used up
unfoldable pub out_of_fuel : {A : Type 0} → Code A
out_of_fuel = access (λ m. none)

-- `pthread_mutex_unlock (&mutex); return c;`
unfoldable pub finish : ℤ → Code ℤ
finish c = unlocking >> ret c

unfoldable pub init_list : Code ℤ
unfolding get_inited set_messages set_inited finish
init_list = do
  locking
  inited ← access get_inited
  if inited then finish (pos 0) else do access (set_messages 0); access set_inited; finish (pos 0)

-- `lock; if (!inited_list) { unlock; init_list (); lock; }`
unfoldable pub enter : Code (Unit {0})
unfolding init_list get_inited
enter = do
  locking
  inited ← access get_inited
  if inited then ret tt else do unlocking; init_list; locking

-- The loop over the users: `found` is the block of the `if`, with `previous` and `current`, and
-- `missing` what follows the loop.
unfoldable pub walk : ℕ → Bytes → (Ptr → Ptr → Code ℤ) → Code ℤ → Ptr → Ptr → Code ℤ
unfolding node out_of_fuel
walk zero name found missing previous current = out_of_fuel
walk (suc n) name found missing previous current = if current == 0 then missing else do
  c ← access (node current)
  if strcmp_eq c.username name
      then found previous current
      else do c ← access (node current); walk n name found missing current c.next

-- the loop from the first user on, behind `enter`
unfoldable pub with_user : Bytes → (ℕ → Ptr → Ptr → Code ℤ) → (ℕ → Code ℤ) → Code ℤ
unfolding enter walk limit get_messages
with_user name found missing = do
  enter
  n ← access limit
  current ← access get_messages
  walk n name (found n) (missing n) 0 current
