-- ===== src/Heap/Chain.antt =====
-- Singly linked lists in a heap, whatever their nodes hold: where each node lies, and a change at
pub mod Remove
-- one node.
use ssdd_final.Base.{
  ℕ, suc, ◌≡◌, ◌≤◌, ◌<◌, refl, Bool, true, false, Option, none, some, List, [], ◌∷◌, length, arith,
  if◌then◌else◌, ◌==◌, All, Bool-cases, inl, inr,
}

-- A kind of node: its address, and what the address holds, given the pointer to the next node.
pub record Kind (X C : Type 0) : Type 0 where
  pub at : X → ℕ
  pub cell : X → ℕ → C

module _ {A : Type 0} where
  -- `before` holds the nodes that a walk has passed, the last one first.
  abbrev pub prejoin : List A → List A → List A
  prejoin [] xs = xs
  prejoin (x ∷ before) xs = prejoin before (x ∷ xs)

  pub All-mono : {P Q : A → Type 0} (xs : List A) → ((x : A) → P x → Q x) → All P xs → All Q xs
  All-mono [] h a = tt
  All-mono (x ∷ xs) h a = (h x a.0, All-mono xs h a.1)

module _ {X C : Type 0} (K : Kind X C) where
  -- the pointer to a list
  abbrev pub first : List X → ℕ
  first [] = 0
  first (x ∷ xs) = K.at x

  -- what an address holds
  unfoldable pub chain_at : List X → ℕ → Option C
  chain_at [] a = none
  chain_at (x ∷ xs) a = if a == K.at x then some (K.cell x (first xs)) else chain_at xs a

  -- Newer nodes stand in front, at higher addresses, all below `n`.
  abbrev pub Below : ℕ → List X → Type 0
  Below n [] = Unit
  Below n (x ∷ xs) = (0 < K.at x) × (K.at x < n) × Below (K.at x) xs

  pub length-Below : (n : ℕ) (xs : List X) → 0 < n → Below n xs → length xs < n
  length-Below n [] h d = h
  length-Below n (x ∷ xs) h d = omega (arith, length-Below (K.at x) xs d.0 d.2, d.1)

  pub chain_at-Below : (n : ℕ) (xs : List X) (a : ℕ) → Below n xs → n ≤ a → chain_at xs a ≡ none
  unfolding chain_at
  chain_at-Below n [] a d h = refl
  chain_at-Below n (x ∷ xs) a d h =
      let off : (a == K.at x) ≡ false = ground (arith, d.1, h) in
      rw off (chain_at-Below (K.at x) xs a d.2 (omega (arith, d.1, h)))

  pub Below-mono : (n k : ℕ) (xs : List X) → n ≤ k → Below n xs → Below k xs
  Below-mono n k [] h d = tt
  Below-mono n k (x ∷ xs) h d = (d.0, omega (arith, d.1), d.2)

  -- a part of the list, and the bound between it and what stands in front
  pub record Suffix (n : ℕ) (before xs : List X) : Type 0 where
    pub bound : ℕ
    pub below : Below bound xs
    pub above : All (λ x. bound ≤ K.at x) before
    pub under : bound ≤ n

  pub Below-Suffix : (n : ℕ) (before xs : List X) → Below n (prejoin before xs) → Suffix n before xs
  Below-Suffix n [] xs d = record { bound = n; below = d; above = tt; under = omega arith }
  Below-Suffix n (x ∷ before) xs d =
      let s = Below-Suffix n before (x ∷ xs) d in
      record {
        bound = K.at x;
        below = s.below.2;
        above = (omega arith, All-mono before (λ y h. omega (arith, h, s.below.1)) s.above);
        under = omega (arith, s.under, s.below.1);
      }

  pub chain_at-prejoin :
      (k : ℕ) (before xs : List X) (a : ℕ)
      → All (λ x. k ≤ K.at x) before
      → a < k
      → chain_at (prejoin before xs) a ≡ chain_at xs a
  unfolding chain_at
  chain_at-prejoin k [] xs a h low = refl
  chain_at-prejoin k (x ∷ before) xs a h low =
      let off : (a == K.at x) ≡ false = ground (arith, h.0) in
      let rest = chain_at-prejoin k before (x ∷ xs) a h.1 low in rw off at rest

  -- a node of the list, at its address
  pub chain_at-node :
      (n : ℕ) (before xs : List X) (x : X)
      → Below n (prejoin before (x ∷ xs))
      → chain_at (prejoin before (x ∷ xs)) (K.at x) ≡ some (K.cell x (first xs))
  unfolding chain_at
  chain_at-node n before xs x d =
      let s = Below-Suffix n before (x ∷ xs) d in
      let on : (K.at x == K.at x) ≡ true = ground arith in
      rw (chain_at-prejoin s.bound before (x ∷ xs) (K.at x) s.above s.below.1, on)

  pub chain_at-frame :
      (t : ℕ → Option C → Option C) (before xs xs' : List X)
      → first xs' ≡ first xs
      → ((a : ℕ) → chain_at xs' a ≡ t a (chain_at xs a))
      → All (λ x. (v : Option C) → t (K.at x) v ≡ v) before
      → (a : ℕ) → chain_at (prejoin before xs') a ≡ t a (chain_at (prejoin before xs) a)
  unfolding chain_at
  chain_at-frame t [] xs xs' e h k = h
  chain_at-frame t (x ∷ before) xs xs' e h k =
      chain_at-frame t before (x ∷ xs) (x ∷ xs') refl
        (λ a. elim (Bool-cases (a == K.at x)) [
          | inl on ↦
              let same : a ≡ K.at x = ground (arith, on) in
              rw (on, same, k.0 (some (K.cell x (first xs))), e)
          | inr off ↦ rw off (h a)
        ])
        k.1

  pub Below-frame :
      (n : ℕ) (before xs xs' : List X)
      → ((k : ℕ) → Below k xs → Below k xs')
      → Below n (prejoin before xs)
      → Below n (prejoin before xs')
  Below-frame n [] xs xs' h d = h n d
  Below-frame n (x ∷ before) xs xs' h d =
      Below-frame n before (x ∷ xs) (x ∷ xs') (λ k b. (b.0, b.1, h (K.at x) b.2)) d
