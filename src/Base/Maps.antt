-- ===== src/Base/Maps.antt =====
-- Functions on the native numbers, changed at one place.
use Prim.Native.Nat.{ℕ, ◌<◌, ◌≤◌}
use mathlib.Core.Path.{◌≡◌, fun_ext, ap}
use mathlib.Core.Logic.{◌≢◌, ◌⊎◌, inl, inr}
use native.Mathlib.Omega.{arith}
use ssdd_final.Base.Tests.{ltb, ◌==◌, if◌then◌else◌, Bool-cases}

pub ℕ-cases : (i j : ℕ) → (i ≡ j) ⊎ (i ≢ j)
ℕ-cases i j = elim (Bool-cases (i == j)) [
  | inl h ↦ inl (ground (arith, h))
  | inr h ↦ inr (ground (arith, h))
]

pub ltb-cases : (i j : ℕ) → (i < j) ⊎ (j ≤ i)
ltb-cases i j = elim (Bool-cases (ltb i j)) [
  | inl h ↦ inl (ground (arith, h))
  | inr h ↦ inr (ground (arith, h))
]

module _ {ℓ} {A : Type ℓ} where
  abbrev pub update : (ℕ → A) → ℕ → A → ℕ → A
  update f i a j = if j == i then a else f j

  pub update-same : (f : ℕ → A) (i : ℕ) (a : A) → update f i a i ≡ a
  update-same f i a = ground arith

  pub update-other : (f : ℕ → A) (i : ℕ) (a : A) (j : ℕ) → j ≢ i → update f i a j ≡ f j
  update-other f i a j n = ground arith

  pub update-here : (f : ℕ → A) (i : ℕ) (a : A) (j : ℕ) → j ≡ i → update f i a j ≡ a
  update-here f i a j h = ground (arith, h)

  pub update-again : (f : ℕ → A) (i : ℕ) (a b : A) → update (update f i a) i b ≡ update f i b
  update-again f i a b =
      fun_ext λ j. elim (Bool-cases (j == i)) [ inl on ↦ rw on | inr off ↦ rw off ]

  pub update_self : (f : ℕ → A) (i j : ℕ) → update f i (f i) j ≡ f j
  update_self f i j = elim (Bool-cases (j == i)) [
    | inl on ↦ let e : i ≡ j = ground (arith, on) in rw on (ap f e)
    | inr off ↦ rw off
  ]
