-- ===== src/Heap/Layout/Frame.antt =====
-- A change at one user of the heap of server/list.c leaves the users in front of it as they are.
use ssdd_final.Base.{
  ℕ, ◌≡◌, ◌≤◌, ◌<◌, ◌⊎◌, inl, inr, Option, none, some, List, [], ◌∷◌, All, ltb-cases, Option-cases,
}
use ssdd_final.Heap.{Ptr, FileCell, Mem}
use ssdd_final.Heap.Chain.{
  prejoin, All-mono, first, Below, chain_at-Below, Below-mono, chain_at-node,
}
use ssdd_final.Heap.Layout.{
  PlacedFile, Placed, file_kind, node_kind, file_at, or_else, files_at, Apart, Layout,
}

-- a user of the list, at its address
pub Layout-node :
    (m : Mem) (before ps : List Placed) (p : Placed)
    → Layout m (prejoin before (p ∷ ps))
    → m.nodes p.at ≡ some (node_kind.cell p (first node_kind ps))
Layout-node m before ps p l =
    rw (l.nodes p.at) (chain_at-node node_kind m.fresh before ps p l.below)

-- the users in front, whose files are apart from those behind
pub Apart-above :
    (n : ℕ) (before ps : List Placed)
    → Apart n (prejoin before ps)
    → All
        (λ q.
          Below file_kind n q.files
          × ((a : Ptr) → (file_at q.files a ≡ none) ⊎ (files_at ps a ≡ none)))
        before
      × Apart n ps
unfolding files_at
Apart-above n [] ps d = (tt, d)
Apart-above n (q ∷ before) ps d =
    let (above, here) = Apart-above n before (q ∷ ps) d in
    (
      (
        (here.0, here.1),
        All-mono before
            (λ p h. (
              h.0,
              λ a. elim (h.1 a) [
                | inl e ↦ inl e
                | inr e ↦ inr (or_else-none (file_at q.files a) _ e)
              ],
            ))
            above,
      ),
      here.2,
    )
  where
    or_else-none : {A : Type 0} (o o' : Option A) → or_else o o' ≡ none → o' ≡ none
    or_else-none none o' e = e
    or_else-none (some x) o' e = cc

pub Apart-frame :
    (n n' : ℕ) (before ps ps' : List Placed)
    → n ≤ n'
    → (Apart n ps → Apart n' ps')
    → ((a : Ptr) → a < n → files_at ps a ≡ none → files_at ps' a ≡ none)
    → Apart n (prejoin before ps)
    → Apart n' (prejoin before ps')
unfolding files_at
Apart-frame n n' [] ps ps' le h t d = h d
Apart-frame n n' (p ∷ before) ps ps' le h t d =
    Apart-frame n n' before (p ∷ ps) (p ∷ ps') le
      (λ b. (
        Below-mono file_kind n n' p.files le b.0,
        λ a. elim (b.1 a) [
          | inl e ↦ inl e
          | inr e ↦ elim (ltb-cases a n) [
            | inl low ↦ inr (t a low e)
            | inr high ↦ inl (chain_at-Below file_kind n p.files a b.0 high)
          ]
        ],
        h b.2,
      ))
      (λ a low e. both (file_at p.files a) _ _ e (t a low)) d
  where
    both :
        {A : Type 0} (o x x' : Option A)
        → or_else o x ≡ none
        → (x ≡ none → x' ≡ none)
        → or_else o x' ≡ none
    both none x x' e f = f e
    both (some y) x x' e f = cc

pub files_at-frame :
    (t : Ptr → Option FileCell → Option FileCell) (before ps ps' : List Placed)
    → ((a : Ptr) → files_at ps' a ≡ t a (files_at ps a))
    → All
        (λ p. (a : Ptr) (c : FileCell) → file_at p.files a ≡ some c → t a (some c) ≡ some c)
        before
    → (a : Ptr) → files_at (prejoin before ps') a ≡ t a (files_at (prejoin before ps) a)
unfolding files_at
files_at-frame t [] ps ps' h k = h
files_at-frame t (p ∷ before) ps ps' h k =
    files_at-frame t before (p ∷ ps) (p ∷ ps')
      (λ a. elim (Option-cases (file_at p.files a)) [
        | inl e ↦ rw e (h a)
        | inr (c, e) ↦ rw (e, k.0 a c e)
      ])
      k.1

files_at-prejoin :
    (before ps : List Placed) (a : Ptr) (c : FileCell)
    → All (λ q. (file_at q.files a ≡ none) ⊎ (files_at ps a ≡ none)) before
    → files_at ps a ≡ some c
    → files_at (prejoin before ps) a ≡ some c
unfolding files_at
files_at-prejoin [] ps a c h e = e
files_at-prejoin (q ∷ before) ps a c h e = elim h.0 [
  | inr absent ↦ cc
  | inl absent ↦
      let step : files_at (q ∷ ps) a ≡ some c = rw absent e in
      files_at-prejoin before (q ∷ ps) a c
        (All-mono before (λ p k. elim k [ inl x ↦ inl x | inr x ↦ cc ]) h.1) step
]

-- a file of a user of the list, at its address
pub Layout-file :
    (m : Mem) (before ps : List Placed) (p : Placed) (passed rest : List PlacedFile)
    (f : PlacedFile)
    → Layout m (prejoin before (p ∷ ps))
    → p.files ≡ prejoin passed (f ∷ rest)
    → m.files f.at ≡ some (file_kind.cell f (first file_kind rest))
unfolding files_at
Layout-file m before ps p passed rest f l e =
    let (above, here) = Apart-above m.fresh before (p ∷ ps) l.apart in
    let own : file_at p.files f.at ≡ some (file_kind.cell f (first file_kind rest)) =
      rw e (chain_at-node file_kind m.fresh passed rest f (rw e at here.0)) in
    rw (l.files f.at)
      (files_at-prejoin before (p ∷ ps) f.at _ (All-mono before (λ q h. h.1 f.at) above) (rw own))

-- whatever lies at an address in the files of a user lies there in the heap
pub Layout-own :
    (m : Mem) (before ps : List Placed) (p : Placed) (a : Ptr) (x : FileCell)
    → Layout m (prejoin before (p ∷ ps))
    → file_at p.files a ≡ some x
    → m.files a ≡ some x
unfolding files_at
Layout-own m before ps p a x l e =
    let above = (Apart-above m.fresh before (p ∷ ps) l.apart).0 in
    rw (l.files a)
      (files_at-prejoin before (p ∷ ps) a x (All-mono before (λ q h. h.1 a) above) (rw e))
