-- ===== src/Registry/Search.antt =====
-- Lookup in the list of nodes by name, and what the walk of list.c does at the node it finds.
use ssdd_final.Base.{
  ◌≡◌, refl, inl, inr, Option, none, some, List, [], ◌∷◌, arith, Bool-cases, if◌then◌else◌,
}
use ssdd_final.CString.{Bytes, strcmp_eq, strcmp_eq_iff}
use ssdd_final.Registry.Defs.{Node, ℤ, pos, Op, unlock, pure, ◌>>◌, rejoin, with_user}

-- the first node with the name
unfoldable pub find_user : Bytes → List Node → Option Node
find_user name [] = none
find_user name (u ∷ us) = if strcmp_eq u.username name then some u else find_user name us

-- `x` in place of the first node with the name
unfoldable pub replace_user : Bytes → Node → List Node → List Node
replace_user name x [] = []
replace_user name x (u ∷ us) =
    if strcmp_eq u.username name then x ∷ us else u ∷ replace_user name x us

-- the list less the first node with the name
unfoldable pub remove_user : Bytes → List Node → List Node
remove_user name [] = []
remove_user name (u ∷ us) = if strcmp_eq u.username name then us else u ∷ remove_user name us

-- The walk stops at `u`, between the nodes `pre` that it has passed and those behind.
pub record Found (name : Bytes) (before us : List Node) (u : Node) : Type 0 where
  pub pre : List Node
  pub post : List Node
  pub runs : (f : List Node → Node → List Node → Op ℤ) → with_user name f before us ≡ f pre u post
  pub replaced : (x : Node) → rejoin pre (x ∷ post) ≡ rejoin before (replace_user name x us)
  pub removed : rejoin pre post ≡ rejoin before (remove_user name us)

pub find_user-Found :
    (name : Bytes) (before us : List Node) (u : Node)
    → find_user name us ≡ some u
    → Found name before us u
unfolding find_user replace_user remove_user with_user rejoin
find_user-Found name before [] u h = cc
find_user-Found name before (v ∷ us) u h = elim (Bool-cases (strcmp_eq v.username name)) [
  | inl hit ↦
      let same : v ≡ u = ground (arith, hit, h) in
      record {
        pre = before;
        post = us;
        runs = λ f. rw (hit, same);
        replaced = λ x. rw hit;
        removed = rw hit;
      }
  | inr miss ↦
      let found = find_user-Found name (v ∷ before) us u (rw miss at h) in
      record {
        pre = found.pre;
        post = found.post;
        runs = λ f. rw miss (found.runs f);
        replaced = λ x. rw miss (found.replaced x);
        removed = rw miss found.removed;
      }
]

pub with_user-none :
    (name : Bytes) (f : List Node → Node → List Node → Op ℤ) (before us : List Node)
    → find_user name us ≡ none
    → with_user name f before us ≡ (unlock >> pure (pos 1))
unfolding find_user with_user
with_user-none name f before [] h = refl
with_user-none name f before (v ∷ us) h = elim (Bool-cases (strcmp_eq v.username name)) [
  | inl hit ↦ absurd (ground (arith, hit, h))
  | inr miss ↦ rw miss (with_user-none name f (v ∷ before) us (rw miss at h))
]

pub username-find_user :
    (name : Bytes) (us : List Node) (u : Node) → find_user name us ≡ some u → u.username ≡ name
unfolding find_user
username-find_user name [] u h = cc
username-find_user name (v ∷ us) u h =
    ground (arith, strcmp_eq_iff v.username name, username-find_user name us u)

-- A write to the found node is seen at its name and nowhere else.
pub find_user-replace_user :
    (k name : Bytes) (x : Node) (us : List Node) (u : Node)
    → x.username ≡ name
    → find_user name us ≡ some u
    → find_user k (replace_user name x us) ≡ (if strcmp_eq name k then some x else find_user k us)
unfolding find_user replace_user
find_user-replace_user k name x [] u e h = cc
find_user-replace_user k name x (v ∷ us) u e h = ground (
  arith,
  strcmp_eq_iff v.username name,
  strcmp_eq_iff v.username k,
  strcmp_eq_iff name k,
  strcmp_eq_iff x.username k,
  find_user-replace_user k name x us u e,
)

-- every later node has another name
abbrev pub Absent : Bytes → List Node → Type 0
Absent name us = find_user name us ≡ none

-- no name stands twice
abbrev pub DistinctUsers : List Node → Type 0
DistinctUsers [] = Unit
DistinctUsers (u ∷ us) = Absent u.username us × DistinctUsers us

pub find_user-remove_user :
    (k name : Bytes) (us : List Node)
    → DistinctUsers us
    → find_user k (remove_user name us) ≡ (if strcmp_eq name k then none else find_user k us)
unfolding find_user remove_user
find_user-remove_user k name [] d = ground arith
find_user-remove_user k name (v ∷ us) d = ground (
  arith,
  strcmp_eq_iff v.username name,
  strcmp_eq_iff v.username k,
  strcmp_eq_iff name k,
  find_user-remove_user k name us d.1,
)
