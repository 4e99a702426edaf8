-- ===== src/Tests/Schedule.antt =====
-- Runs of threads under a schedule.
use ssdd_final.Base.{ℕ, zero, suc, ◌≡◌, refl, Option, none, some, List, [], ◌∷◌}
use ssdd_final.Threads.{
  Program, ret, lock, unlock, act, System, Step, locks, unlocks, acts, Reach, later,
}

module _ {M R : Type 0} where
  -- the step of one thread, if it can make one
  abbrev lock_step :
      (s : System M R) (i : ℕ) (p : Program M R)
      → s.threads i ≡ lock p
      → (o : Option ℕ) → s.owner ≡ o
      → Option ((t : System M R) × Step s t)
  lock_step s i p e none free = some (_, locks i p e free)
  lock_step s i p e (some o) held = none

  abbrev act_step :
      (s : System M R) (i : ℕ) {X : Type 0} (f : M → Option (X × M)) (k : X → Program M R)
      → s.threads i ≡ act f k
      → (o : Option (X × M)) → f s.mem ≡ o
      → Option ((t : System M R) × Step s t)
  act_step s i f k e none fault = none
  act_step s i f k e (some (x, m)) h = some (_, acts i f k x m e h)

  abbrev step_of :
      (s : System M R) (i : ℕ) (p : Program M R)
      → s.threads i ≡ p
      → Option ((t : System M R) × Step s t)
  step_of s i (ret a) e = none
  step_of s i (lock p) e = lock_step s i p e s.owner refl
  step_of s i (unlock p) e = some (_, unlocks i p e)
  step_of s i (act f k) e = act_step s i f k e (f s.mem) refl

  -- the run of a schedule, in which a thread that waits is passed over
  abbrev pub run :
      {s₀ : System M R} (s : System M R) → Reach s₀ s → List ℕ → (t : System M R) × Reach s₀ t
  run s r [] = (s, r)
  run s r (i ∷ is) = elim (step_of s i (s.threads i) refl) [
    | none ↦ run s r is
    | some (t, m) ↦ run t (later r m) is
  ]

abbrev pub in_turn : ℕ → List ℕ
in_turn zero = []
in_turn (suc n) = 0 ∷ 1 ∷ in_turn n

-- one thread alone, for so many steps
abbrev pub alone : ℕ → ℕ → List ℕ
alone i zero = []
alone i (suc n) = i ∷ alone i n
