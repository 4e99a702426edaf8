-- ===== src/Heap/Layout.antt =====
-- How a list of users with their files lies in the heap of server/list.c.
pub mod Frame
pub mod Change
pub mod Remove
use ssdd_final.Base.{
  ℕ, suc, ◌≡◌, ◌≢◌, ◌≤◌, ◌<◌, ◌⊎◌, inl, inr, refl, Bool, true, false, Option, none, some, List, [],
  ◌∷◌, map, length, arith, if◌then◌else◌, ◌==◌, All,
}
use ssdd_final.CString.{Bytes}
use ssdd_final.Registry.Defs.{FileNode, Node, rejoin}
use ssdd_final.Heap.{Ptr, NodeCell, FileCell, Mem}
use ssdd_final.Heap.Chain.{Kind, prejoin, first, chain_at, Below, chain_at-Below, Below-mono}

-- a file at its address
pub record PlacedFile : Type 0 where
  pub at : Ptr
  pub file : FileNode

-- a user at its address, with its files
pub record Placed : Type 0 where
  pub at : Ptr
  pub username : Bytes
  pub ip : Bytes
  pub port : Bytes
  pub files : List PlacedFile

-- what the list stands for, without its addresses
abbrev pub erase_files : List PlacedFile → List FileNode
erase_files [] = []
erase_files (f ∷ fs) = f.file ∷ erase_files fs

abbrev pub erase_node : Placed → Node
erase_node p = record {
  username = p.username;
  ip = p.ip;
  port = p.port;
  list_files = erase_files p.files;
}

abbrev pub erase : List Placed → List Node
erase [] = []
erase (p ∷ ps) = erase_node p ∷ erase ps

abbrev pub file_kind : Kind PlacedFile FileCell
file_kind = record {
  at = λ f. f.at;
  cell = λ f next. record {
    filename = f.file.filename;
    description = f.file.description;
    next = next;
  };
}

abbrev pub node_kind : Kind Placed NodeCell
node_kind = record {
  at = λ p. p.at;
  cell = λ p next. record {
    username = p.username;
    ip = p.ip;
    port = p.port;
    list_files = first file_kind p.files;
    next = next;
  };
}

-- what an address holds
abbrev pub node_at : List Placed → Ptr → Option NodeCell
node_at = chain_at node_kind

abbrev pub file_at : List PlacedFile → Ptr → Option FileCell
file_at = chain_at file_kind

abbrev pub or_else : {A : Type 0} → Option A → Option A → Option A
or_else none o = o
or_else (some a) o = some a

unfoldable pub files_at : List Placed → Ptr → Option FileCell
files_at [] a = none
files_at (p ∷ ps) a = or_else (file_at p.files a) (files_at ps a)

-- The files of two users are apart.
abbrev pub Apart : ℕ → List Placed → Type 0
Apart n [] = Unit
Apart n (p ∷ ps) =
    Below file_kind n p.files
    × ((a : Ptr) → (file_at p.files a ≡ none) ⊎ (files_at ps a ≡ none))
    × Apart n ps

-- The memory holds this list and nothing else.
pub record Layout (m : Mem) (ps : List Placed) : Type 0 where
  pub head : m.messages ≡ first node_kind ps
  pub nodes : (a : Ptr) → m.nodes a ≡ node_at ps a
  pub files : (a : Ptr) → m.files a ≡ files_at ps a
  pub room : 0 < m.fresh
  pub below : Below node_kind m.fresh ps
  pub apart : Apart m.fresh ps

pub erase-prejoin :
    (before ps : List Placed) → erase (prejoin before ps) ≡ rejoin (erase before) (erase ps)
unfolding rejoin
erase-prejoin [] ps = refl
erase-prejoin (p ∷ before) ps = erase-prejoin before (p ∷ ps)

pub files_at-Apart :
    (n : ℕ) (ps : List Placed) (a : Ptr) → Apart n ps → n ≤ a → files_at ps a ≡ none
unfolding files_at
files_at-Apart n [] a d h = refl
files_at-Apart n (p ∷ ps) a d h =
    rw (chain_at-Below file_kind n p.files a d.0 h) (files_at-Apart n ps a d.2 h)

pub Apart-mono : (n k : ℕ) (ps : List Placed) → n ≤ k → Apart n ps → Apart k ps
Apart-mono n k [] h d = tt
Apart-mono n k (p ∷ ps) h d = (Below-mono file_kind n k p.files h d.0, d.1, Apart-mono n k ps h d.2)
