-- ===== src/Registry/Invariant.antt =====
-- The invariant of the store, its directory, and the changes of the list that keep it.
use ssdd_final.Base.{
  ◌≡◌, refl, sym, true, false, none, some, List, [], ◌∷◌, arith, All, fun_ext, inl, inr, Bool-cases,
}
use mathlib.Core.Option
use ssdd_final.CString.{Bytes, strcmp_eq, strcmp_eq_iff, IsTerminated}
use ssdd_final.Directory.{Account, Directory, put}
use ssdd_final.Registry.Defs.{FileNode, Node, Store}
use ssdd_final.Registry.FileSearch.{find_file, DistinctFiles}
use ssdd_final.Registry.Search.{
  find_user, replace_user, remove_user, DistinctUsers, find_user-replace_user,
  find_user-remove_user,
}

pub record IsTidyFile (f : FileNode) : Type 0 where
  pub filename_fits : IsTerminated f.filename
  pub description_fits : IsTerminated f.description

-- Every array of the node holds its terminator, a node with no address has no port, and no file
-- stands twice.
pub record IsTidyNode (u : Node) : Type 0 where
  pub username_fits : IsTerminated u.username
  pub ip_fits : IsTerminated u.ip
  pub port_fits : IsTerminated u.port
  pub offline : u.ip ≡ [] → u.port ≡ []
  pub files_fit : All IsTidyFile u.list_files
  pub files_distinct : DistinctFiles u.list_files

pub record IsTidy (us : List Node) : Type 0 where
  pub nodes : All IsTidyNode us
  pub distinct : DistinctUsers us

-- Between two calls: the mutex is free, and before the initialisation there is no node.
pub record IsValid (s : Store) : Type 0 where
  pub free : s.locked ≡ false
  pub clean : s.inited_list ≡ false → s.messages ≡ []
  pub tidy : IsTidy s.messages

-- A query that takes the mutex and gives it back leaves the store as it was.
pub restore : (s : Store) → s.locked ≡ false → record s { locked = false } ≡ s
restore s h = λ i. record s { locked = sym h i }

-- the state after a call
abbrev pub ready : List Node → Store
ready us = record { messages = us; inited_list = true; locked = false }

pub ready-IsValid : {us : List Node} → IsTidy us → IsValid (ready us)
ready-IsValid t = record { free = refl; clean = λ e. cc; tidy = t }

-- The directory that a list of nodes stands for.
abbrev pub account : Node → Account
account u = record { ip = u.ip; port = u.port; files = find_file u.list_files }

abbrev pub view : List Node → Directory
view us k = Option.map account (find_user k us)

module _ (P : Node → Type 0) where
  pub All-find_user :
      (name : Bytes) (us : List Node) (u : Node) → All P us → find_user name us ≡ some u → P u
  unfolding find_user
  All-find_user name [] u a h = cc
  All-find_user name (v ∷ us) u a h = elim (Bool-cases (strcmp_eq v.username name)) [
    | inl hit ↦ let same : v ≡ u = ground (arith, hit, h) in rw (← same) a.0
    | inr miss ↦ All-find_user name us u a.1 (rw miss at h)
  ]

  All-replace_user :
      (name : Bytes) (x : Node) (us : List Node) → All P us → P x → All P (replace_user name x us)
  unfolding replace_user
  All-replace_user name x [] a p = tt
  All-replace_user name x (v ∷ us) a p = elim (Bool-cases (strcmp_eq v.username name)) [
    | inl hit ↦ rw hit (p, a.1)
    | inr miss ↦ rw miss (a.0, All-replace_user name x us a.1 p)
  ]

  All-remove_user : (name : Bytes) (us : List Node) → All P us → All P (remove_user name us)
  unfolding remove_user
  All-remove_user name [] a = tt
  All-remove_user name (v ∷ us) a = elim (Bool-cases (strcmp_eq v.username name)) [
    | inl hit ↦ rw hit a.1
    | inr miss ↦ rw miss (a.0, All-remove_user name us a.1)
  ]

replace_user-DistinctUsers :
    (name : Bytes) (x : Node) (us : List Node) (u : Node)
    → x.username ≡ name
    → find_user name us ≡ some u
    → DistinctUsers us
    → DistinctUsers (replace_user name x us)
unfolding find_user replace_user
replace_user-DistinctUsers name x [] u e h d = tt
replace_user-DistinctUsers name x (v ∷ us) u e h d = elim (Bool-cases (strcmp_eq v.username name)) [
  | inl hit ↦ rw hit (rw (e, ← (strcmp_eq_iff v.username name).0 hit) d.0, d.1)
  | inr miss ↦ rw miss (
    ground (
      arith,
      miss,
      strcmp_eq_iff v.username name,
      strcmp_eq_iff name v.username,
      find_user-replace_user v.username name x us u e (rw miss at h),
      d.0,
    ),
    replace_user-DistinctUsers name x us u e (rw miss at h) d.1,
  )
]

remove_user-DistinctUsers :
    (name : Bytes) (us : List Node) → DistinctUsers us → DistinctUsers (remove_user name us)
unfolding remove_user
remove_user-DistinctUsers name [] d = tt
remove_user-DistinctUsers name (v ∷ us) d = elim (Bool-cases (strcmp_eq v.username name)) [
  | inl hit ↦ rw hit d.1
  | inr miss ↦ rw miss (
    ground (arith, find_user-remove_user v.username name us d.1, d.0),
    remove_user-DistinctUsers name us d.1,
  )
]

pub replace_user-IsTidy :
    (name : Bytes) (x : Node) (us : List Node) (u : Node)
    → x.username ≡ name
    → find_user name us ≡ some u
    → IsTidy us
    → IsTidyNode x
    → IsTidy (replace_user name x us)
replace_user-IsTidy name x us u e h t p = record {
  nodes = All-replace_user IsTidyNode name x us t.nodes p;
  distinct = replace_user-DistinctUsers name x us u e h t.distinct;
}

pub remove_user-IsTidy : (name : Bytes) (us : List Node) → IsTidy us → IsTidy (remove_user name us)
remove_user-IsTidy name us t = record {
  nodes = All-remove_user IsTidyNode name us t.nodes;
  distinct = remove_user-DistinctUsers name us t.distinct;
}

pub view-replace_user :
    (name : Bytes) (x : Node) (us : List Node) (u : Node)
    → x.username ≡ name
    → find_user name us ≡ some u
    → view (replace_user name x us) ≡ put name (some (account x)) (view us)
view-replace_user name x us u e h =
    fun_ext λ k. rw (find_user-replace_user k name x us u e h) (ground arith)

pub view-remove_user :
    (name : Bytes) (us : List Node)
    → DistinctUsers us
    → view (remove_user name us) ≡ put name none (view us)
view-remove_user name us d = fun_ext λ k. rw (find_user-remove_user k name us d) (ground arith)
