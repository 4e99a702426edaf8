-- ===== src/Threads/Discipline.antt =====
-- A discipline for programs under one mutex, that a program is checked against alone.
pub mod Keeps
pub mod Lift
pub mod Serial
use ssdd_final.Base.{ℕ, ◌≡◌, Bool, true, false, Option, none, some}
use ssdd_final.Threads.{Program, ret, lock, unlock, act}

-- What the mutex protects. `Inv` says which abstract state the memory stands for while the mutex is
-- free, `started` is a flag that is never taken back, and `Performs` says what a call does.
pub record Resource (Mem A Call State : Type 0) : Type 1 where
  pub Inv : Mem → State → Type 0
  pub started : Mem → Bool
  pub Performs : Call → State → A → State → Type 0

-- Where a thread stands with its call: whether it knows that `started` is set, or what it returns.
pub data Progress (A Call : Type 0) : Type 0 where
  pending : Call → (seen : Bool) → Progress A Call
  returned : A → Progress A Call

-- Outside of the mutex, or inside, with the flag and the state at the lock, and the memory now.
pub data Mode (Mem A Call State : Type 0) : Type 0 where
  outside : Progress A Call → Mode Mem A Call State
  inside : Progress A Call → (was : Bool) → State → Mem → Mode Mem A Call State

module _ {Mem A Call State : Type 0} (R : Resource Mem A Call State) where
  abbrev pub Knows : Progress A Call → Bool → Type 0
  Knows (pending c true) b = b ≡ true
  Knows (pending c false) b = Unit
  Knows (returned a) b = Unit

  abbrev pub Ends : Progress A Call → A → Type 0
  Ends (pending c seen) a = ⊥
  Ends (returned b) a = a ≡ b

  -- What one critical section may do: nothing, or the whole call.
  pub data Moves : Progress A Call → State → Progress A Call → State → Type 0 where
    stays :
        {c : Call} {seen seen' : Bool} {u : State} → Moves (pending c seen) u (pending c seen') u
    commits :
        {c : Call} {seen : Bool} {u u' : State} {a : A}
        → R.Performs c u a u'
        → Moves (pending c seen) u (returned a) u'

  abbrev pub After : {X : Type 0} → Option (X × Mem) → (X → Mem → Type 0) → Type 0
  After none P = ⊥
  After (some (x, m)) P = P x m

  -- The memory is read and written only inside, and no access faults; the mutex is taken only
  -- outside, and given back with the state in order; what is returned is what the call gives.
  unfoldable pub Checks : Mode Mem A Call State → Program Mem A → Type 0
  Checks (outside q) (ret a) = Ends q a
  Checks (outside q) (lock p) =
      (m : Mem) (u : State)
      → R.Inv m u
      → Knows q (R.started m)
      → Checks (inside q (R.started m) u m) p
  Checks (outside q) (unlock p) = ⊥
  Checks (outside q) (act f k) = ⊥
  Checks (inside q was u m) (ret a) = ⊥
  Checks (inside q was u m) (lock p) = ⊥
  Checks (inside q was u m) (unlock p) =
      (q' : Progress A Call) × (u' : State) × R.Inv m u'
      × (was ≡ true → R.started m ≡ true)
      × Knows q' (R.started m)
      × Moves q u q' u'
      × Checks (outside q') p
  Checks (inside q was u m) (act f k) = After (f m) (λ x m'. Checks (inside q was u m') (k x))
