-- ===== src/Threads/Discipline/Keeps.antt =====
-- Threads that keep the discipline do so after every step.
use ssdd_final.Base.{
  ℕ, ◌≡◌, ◌≢◌, sym, ap, Bool, true, false, Option, none, some, update, update-same, update-other,
  ℕ-cases, inl, inr, Option-cases,
}
use ssdd_final.Threads.{Program, ret, lock, unlock, act, System, Step, unlocks, acts}
use ssdd_final.Threads.Discipline.{
  Resource, Progress, pending, returned, outside, inside, Knows, Ends, Moves, After, Checks,
}

-- A thread at an access holds the mutex, and the access does not fault.
pub record Guarded {Mem A X : Type 0} (s : System Mem A) (i : ℕ) (f : Mem → Option (X × Mem))
    : Type 0 where
  pub alone : s.owner ≡ some i
  pub works : f s.mem ≢ none

module _ {Mem A Call State : Type 0} (R : Resource Mem A Call State) where
  -- Who is inside, and that everyone keeps the discipline from where he stands.
  pub data Keeps (m : Mem) (threads : ℕ → Program Mem A) (progress : ℕ → Progress A Call)
      (u : State) : Option ℕ → Type 0 where
    idle :
        R.Inv m u
        → ((i : ℕ) → Knows R (progress i) (R.started m))
        → ((i : ℕ) → Checks R (outside (progress i)) (threads i))
        → Keeps m threads progress u none
    held :
        (o : ℕ) (was : Bool)
        → ((i : ℕ) → Knows R (progress i) was)
        → Checks R (inside (progress o) was u m) (threads o)
        → ((i : ℕ) → i ≢ o → Checks R (outside (progress i)) (threads i))
        → Keeps m threads progress u (some o)

  Knows-kept :
      (q : Progress A Call) {b b' : Bool} → Knows R q b → (b ≡ true → b' ≡ true) → Knows R q b'
  Knows-kept (pending c true) k h = h k
  Knows-kept (pending c false) k h = tt
  Knows-kept (returned a) k h = tt

  module _ (m : Mem) (threads : ℕ → Program Mem A) (progress : ℕ → Progress A Call) (u : State)
      (i : ℕ) where
    pub Keeps-locks :
        {o : Option ℕ} (p : Program Mem A)
        → threads i ≡ lock p
        → o ≡ none
        → Keeps m threads progress u o
        → Keeps m (update threads i p) progress u (some i)
    unfolding Checks
    Keeps-locks p e h (idle inv knows out) =
        held i (R.started m) knows
          (rw (update-same threads i p) (rw e at (out i) m u inv (knows i)))
          (λ j n. rw (update-other threads i p j n) (out j))
    Keeps-locks p e h (held o was knows here out) = cc

    Keeps-idle :
        (p : Program Mem A) (was : Bool) (q : Progress A Call) (u' : State)
        → ((j : ℕ) → Knows R (progress j) was)
        → ((j : ℕ) → j ≢ i → Checks R (outside (progress j)) (threads j))
        → R.Inv m u'
        → (was ≡ true → R.started m ≡ true)
        → Knows R q (R.started m)
        → Checks R (outside q) p
        → Keeps m (update threads i p) (update progress i q) u' none
    Keeps-idle p was q u' knows out inv kept seen rest =
        idle inv
          (λ j. elim (ℕ-cases j i) [
            | inl h ↦ rw (h, update-same progress i q) seen
            | inr n ↦ rw (update-other progress i q j n) (Knows-kept (progress j) (knows j) kept)
          ])
          (λ j. elim (ℕ-cases j i) [
            | inl h ↦ rw (h, update-same progress i q, update-same threads i p) rest
            | inr n ↦ rw (update-other progress i q j n, update-other threads i p j n) (out j n)
          ])

    pub Keeps-unlocks :
        {o : Option ℕ} (p : Program Mem A)
        → threads i ≡ unlock p
        → Keeps m threads progress u o
        → (q : Progress A Call) × (u' : State) × Moves R (progress i) u q u'
          × Keeps m (update threads i p) (update progress i q) u' none
    unfolding Checks
    Keeps-unlocks p e (idle inv knows out) = absurd (rw e at (out i))
    Keeps-unlocks p e (held o was knows here out) = elim (ℕ-cases i o) [
      | inl same ↦
          let now : Checks R (inside (progress i) was u m) (unlock p) = rw (← same, e) at here in
          (
            now.0,
            now.1,
            now.5,
            Keeps-idle p was now.0 now.1 knows (λ j n. out j (rw (← same) n)) now.2 now.3 now.4
                now.6,
          )
      | inr n ↦ absurd (rw e at (out i n))
    ]

    pub Keeps-acts :
        {o : Option ℕ} {X : Type 0} (f : Mem → Option (X × Mem)) (k : X → Program Mem A) (x : X)
        (m' : Mem)
        → threads i ≡ act f k
        → f m ≡ some (x, m')
        → Keeps m threads progress u o
        → Keeps m' (update threads i (k x)) progress u o
    unfolding Checks
    Keeps-acts f k x m' e h (idle inv knows out) = absurd (rw e at (out i))
    Keeps-acts f k x m' e h (held o was knows here out) = elim (ℕ-cases i o) [
      | inl same ↦
          let now : Checks R (inside (progress i) was u m) (act f k) = rw (← same, e) at here in
          held o was knows (rw (← same, update-same threads i (k x)) (rw h at now))
            (λ j n. rw (update-other threads i (k x) j (rw same n)) (out j n))
      | inr n ↦ absurd (rw e at (out i n))
    ]

  pub Keeps-ret :
      {m : Mem} {threads : ℕ → Program Mem A} {progress : ℕ → Progress A Call} {u : State}
      {o : Option ℕ} (i : ℕ) (a : A)
      → Keeps m threads progress u o
      → threads i ≡ ret a
      → Ends R (progress i) a
  unfolding Checks
  Keeps-ret i a (idle inv knows out) e = rw e at (out i)
  Keeps-ret i a (held o was knows here out) e = elim (ℕ-cases i o) [
    | inl same ↦ absurd (rw (← same, e) at here)
    | inr n ↦ rw e at (out i n)
  ]

  pub Keeps-idle_Inv :
      {m : Mem} {threads : ℕ → Program Mem A} {progress : ℕ → Progress A Call} {u : State}
      {o : Option ℕ}
      → Keeps m threads progress u o
      → o ≡ none
      → R.Inv m u
  Keeps-idle_Inv (idle inv knows out) e = inv
  Keeps-idle_Inv (held o was knows here out) e = cc

  After-works : {X : Type 0} (o : Option (X × Mem)) (P : X → Mem → Type 0) → After R o P → o ≢ none
  After-works none P h = absurd h
  After-works (some x) P h = λ e. cc

  pub Keeps-act :
      {m : Mem} {threads : ℕ → Program Mem A} {progress : ℕ → Progress A Call} {u : State}
      {o : Option ℕ} {X : Type 0} (i : ℕ) (f : Mem → Option (X × Mem)) (k : X → Program Mem A)
      → Keeps m threads progress u o
      → threads i ≡ act f k
      → (o ≡ some i) × (f m ≢ none)
  unfolding Checks
  Keeps-act i f k (idle inv knows out) e = absurd (rw e at (out i))
  Keeps-act {m} i f k (held o was knows here out) e = elim (ℕ-cases i o) [
    | inl same ↦ (ap some (sym same), After-works (f m) _ (rw (← same, e) at here))
    | inr n ↦ absurd (rw e at (out i n))
  ]

  -- a thread at an access can make it
  pub acts_on :
      {s : System Mem A} {X : Type 0} (i : ℕ) (f : Mem → Option (X × Mem)) (k : X → Program Mem A)
      → s.threads i ≡ act f k
      → f s.mem ≢ none
      → (t : System Mem A) × Step s t
  acts_on {s} i f k e n = elim (Option-cases (f s.mem)) [
    | inl h ↦ absurd (n h)
    | inr ((x, m), h) ↦ (_, acts i f k x m e h)
  ]

  -- whoever is inside can go on
  pub inside_moves :
      {s : System Mem A} (o : ℕ) (q : Progress A Call) (was : Bool) (u : State) (p : Program Mem A)
      → s.threads o ≡ p
      → Checks R (inside q was u s.mem) p
      → (t : System Mem A) × Step s t
  unfolding Checks
  inside_moves o q was u (ret a) e c = absurd c
  inside_moves o q was u (lock p) e c = absurd c
  inside_moves o q was u (unlock p) e c = (_, unlocks o p e)
  inside_moves {s} o q was u (act f k) e c = acts_on o f k e (After-works (f s.mem) _ c)
