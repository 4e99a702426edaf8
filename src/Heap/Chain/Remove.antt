-- ===== src/Heap/Chain/Remove.antt =====
-- A linked list less one node.
use ssdd_final.Base.{
  ℕ, ◌≡◌, refl, false, Option, none, some, List, [], ◌∷◌, arith, if◌then◌else◌, ◌==◌, All,
  Bool-cases, inl, inr,
}
use ssdd_final.Heap.Chain.{
  Kind, prejoin, All-mono, first, chain_at, Below, Below-Suffix, chain_at-Below, chain_at-frame,
}

module _ {X C : Type 0} (K : Kind X C) where
  pub first-prejoin :
      (before xs ys : List X)
      → first K xs ≡ first K ys
      → first K (prejoin before xs) ≡ first K (prejoin before ys)
  first-prejoin [] xs ys e = e
  first-prejoin (x ∷ before) xs ys e = first-prejoin before (x ∷ xs) (x ∷ ys) refl

  -- what stands in front of a node lies elsewhere
  pub above-differ :
      (n : ℕ) (before xs : List X) (x : X)
      → Below K n (prejoin before (x ∷ xs))
      → All (λ y. (K.at y == K.at x) ≡ false) before
  above-differ n before xs x d =
      let s = Below-Suffix K n before (x ∷ xs) d in
      All-mono before
        (λ y h.
          let low = s.below.1 in
          let off : (K.at y == K.at x) ≡ false = ground (arith, h, low) in off)
        s.above

  -- the heap behind the removal of the first node, and of a node behind `y`
  abbrev pub cut : X → ℕ → Option C → Option C
  cut x a v = if a == K.at x then none else v

  abbrev pub relink : X → X → List X → ℕ → Option C → Option C
  relink y x xs a v =
      if a == K.at x then none else if a == K.at y then some (K.cell y (first K xs)) else v

  pub chain_at-cut :
      (n : ℕ) (x : X) (xs : List X) (a : ℕ)
      → Below K n (x ∷ xs)
      → chain_at K xs a ≡ cut x a (chain_at K (x ∷ xs) a)
  unfolding chain_at
  chain_at-cut n x xs a d =
      let gone = chain_at-Below K (K.at x) xs (K.at x) d.2 (omega arith) in
      elim (Bool-cases (a == K.at x)) [
        | inl on ↦ let same : a ≡ K.at x = ground (arith, on) in rw (on, same, gone)
        | inr off ↦ rw off
      ]

  pub chain_at-relink :
      (n : ℕ) (before : List X) (y x : X) (xs : List X) (a : ℕ)
      → Below K n (prejoin before (y ∷ x ∷ xs))
      → chain_at K (prejoin before (y ∷ xs)) a
        ≡ relink y x xs a (chain_at K (prejoin before (y ∷ x ∷ xs)) a)
  unfolding chain_at
  chain_at-relink n before y x xs a d =
      let below = (Below-Suffix K n before (y ∷ x ∷ xs) d).below in
      let gone = chain_at-Below K (K.at x) xs (K.at x) below.2.2 (omega arith) in
      let apart_x = above-differ n (y ∷ before) xs x d in
      chain_at-frame K (relink y x xs) before (y ∷ x ∷ xs) (y ∷ xs) refl
        (λ a. elim (Bool-cases (a == K.at x)) [
          | inl on ↦
              let same : a ≡ K.at x = ground (arith, on) in
              let off : (K.at x == K.at y) ≡ false = ground (arith, apart_x.0) in
              rw (on, same, off, gone)
          | inr off ↦ rw off (ground arith)
        ])
        (unmoved before apart_x.1 (above-differ n before (x ∷ xs) y d)) a
    where
      unmoved :
          (zs : List X)
          → All (λ z. (K.at z == K.at x) ≡ false) zs
          → All (λ z. (K.at z == K.at y) ≡ false) zs
          → All (λ z. (v : Option C) → relink y x xs (K.at z) v ≡ v) zs
      unmoved [] h k = tt
      unmoved (z ∷ zs) h k = (λ v. rw (h.0, k.0), unmoved zs h.1 k.1)
