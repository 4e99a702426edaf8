-- ===== src/Threads/Discipline/Serial.antt =====
-- Threads that keep the discipline, in any interleaving: their calls take effect one after another.
use ssdd_final.Base.{
  ℕ, ◌≡◌, ◌⊎◌, refl, ap, true, false, Option, none, List, [], ◌∷◌, ◌==◌, if◌then◌else◌, arith,
  update, update-same, update-other, update-here, ℕ-cases, inl, inr,
}
use ssdd_final.Threads.{
  Program, ret, lock, unlock, act, System, Step, locks, unlocks, acts, Reach, start, later,
}
use ssdd_final.Threads.Discipline.{
  Resource, Progress, pending, returned, outside, Ends, Moves, stays, commits, Checks,
}
use ssdd_final.Threads.Discipline.Keeps.{
  Guarded, Keeps, idle, held, Keeps-locks, Keeps-unlocks, Keeps-acts, Keeps-ret, Keeps-idle_Inv,
  Keeps-act, acts_on, inside_moves,
}

-- a call that has taken effect
pub record Event (A Call : Type 0) : Type 0 where
  pub thread : ℕ
  pub call : Call
  pub result : A

-- the calls of one thread, with their results, the last one first
unfoldable pub of_thread : {A Call : Type 0} → ℕ → List (Event A Call) → List (Call × A)
of_thread i [] = []
of_thread i (e ∷ es) =
    let rest = of_thread i es in if e.thread == i then (e.call, e.result) ∷ rest else rest

module _ {Mem A Call State : Type 0} (R : Resource Mem A Call State) where
  -- what the events tell of a thread
  abbrev Tells : Call → List (Call × A) → Progress A Call → Type 0
  Tells c done (pending c' seen) = (c' ≡ c) × (done ≡ [])
  Tells c done (returned a) = done ≡ (c, a) ∷ []

  module _ (calls : ℕ → Call) (u₀ : State) where
    -- The events, the last one first, one after another from `u₀` to a state.
    pub data Serial : List (Event A Call) → State → Type 0 where
      none_yet : Serial [] u₀
      next :
          {es : List (Event A Call)} {u u' : State} {a : A} (i : ℕ)
          → Serial es u
          → R.Performs (calls i) u a u'
          → Serial (record { thread = i; call = calls i; result = a } ∷ es) u'

    record Sound (s : System Mem A) : Type 0 where
      events : List (Event A Call)
      state : State
      progress : ℕ → Progress A Call
      serial : Serial events state
      tells : (i : ℕ) → Tells (calls i) (of_thread i events) (progress i)
      keeps : Keeps R s.mem s.threads progress state s.owner

    Tells-pending :
        (i j : ℕ) (es : List (Event A Call)) (progress : ℕ → Progress A Call) (q : Progress A Call)
        → Tells (calls i) (of_thread i es) q
        → Tells (calls j) (of_thread j es) (progress j)
        → Tells (calls j) (of_thread j es) (update progress i q j)
    Tells-pending i j es progress q here there = elim (ℕ-cases j i) [
      | inl h ↦ rw (h, update-same progress i q) here
      | inr n ↦ rw (update-other progress i q j n) there
    ]

    of_thread-commit :
        (i j : ℕ) (a : A) (es : List (Event A Call))
        → j ≡ i
        → of_thread i es ≡ []
        → of_thread j (record { thread = i; call = calls i; result = a } ∷ es) ≡ (calls i, a) ∷ []
    unfolding of_thread
    of_thread-commit i j a es h empty =
        let on : (i == j) ≡ true = ground (arith, h) in
        let gone : of_thread j es ≡ [] = rw h empty in rw (on, gone)

    Sound-Moves :
        {es : List (Event A Call)} {u u' : State} (progress : ℕ → Progress A Call) (i : ℕ)
        (q q' : Progress A Call)
        → q ≡ progress i
        → Moves R q u q' u'
        → Serial es u
        → ((j : ℕ) → Tells (calls j) (of_thread j es) (progress j))
        → (es' : List (Event A Call)) × Serial es' u'
          × ((j : ℕ) → Tells (calls j) (of_thread j es') (update progress i q' j))
    unfolding of_thread
    Sound-Moves {es} progress i q q' e (stays {c}) serial tells =
        (es, serial, λ j. Tells-pending i j es progress q' (rw (← e) at (tells i)) (tells j))
    Sound-Moves {es} progress i q q' e (commits {c} {a = a} does) serial tells =
        let (same, empty) : Tells (calls i) (of_thread i es) q = rw (← e) at (tells i) in
        (
          _,
          next {a = a} i serial (rw (← same) does),
          λ j. elim (ℕ-cases j i) [
            | inl h ↦
                rw (update-here progress i q' j h)
                  (rw (ap calls h) (of_thread-commit i j a es h empty))
            | inr n ↦
                rw (update-other progress i q' j n)
                  (let off : (i == j) ≡ false = ground (arith, n) in rw off (tells j))
          ],
        )

    Sound-Step : {s t : System Mem A} → Sound s → Step s t → Sound t
    Sound-Step {s} v (locks i p e o) = record {
      events = v.events;
      state = v.state;
      progress = v.progress;
      serial = v.serial;
      tells = v.tells;
      keeps = Keeps-locks R s.mem s.threads v.progress v.state i p e o v.keeps;
    }
    Sound-Step {s} v (unlocks i p e) =
        let (q, u', moves, keeps) =
          Keeps-unlocks R s.mem s.threads v.progress v.state i p e v.keeps in
        let (es, serial, tells) = Sound-Moves v.progress i _ q refl moves v.serial v.tells in
        record {
          events = es;
          state = u';
          progress = update v.progress i q;
          serial = serial;
          tells = tells;
          keeps = keeps;
        }
    Sound-Step {s} v (acts i f k x m e h) = record {
      events = v.events;
      state = v.state;
      progress = v.progress;
      serial = v.serial;
      tells = v.tells;
      keeps = Keeps-acts R s.mem s.threads v.progress v.state i f k x m e h v.keeps;
    }

    -- What the calls have done: they took effect in this order, a thread that has returned did so
    -- once with the result that it returned, and while the mutex is free the memory stands for the
    -- state behind the last of them.
    pub record Serialized (s : System Mem A) : Type 1 where
      pub events : List (Event A Call)
      pub state : State
      pub serial : Serial events state
      pub once :
          (i : ℕ) → (of_thread i events ≡ []) ⊎ ((a : A) × (of_thread i events ≡ (calls i, a) ∷ []))
      pub results : (i : ℕ) (a : A) → s.threads i ≡ ret a → of_thread i events ≡ (calls i, a) ∷ []
      pub stands : s.owner ≡ none → R.Inv s.mem state

    Tells-once :
        (c : Call) (done : List (Call × A)) (q : Progress A Call)
        → Tells c done q
        → (done ≡ []) ⊎ ((a : A) × (done ≡ (c, a) ∷ []))
    Tells-once c done (pending c' seen) h = inl h.1
    Tells-once c done (returned a) h = inr (a, h)

    Tells-result :
        (c : Call) (done : List (Call × A)) (q : Progress A Call) (a : A)
        → Tells c done q
        → Ends R q a
        → done ≡ (c, a) ∷ []
    Tells-result c done (pending c' seen) a h e = absurd e
    Tells-result c done (returned b) a h e = rw e h

    Sound-Serialized : {s : System Mem A} → Sound s → Serialized s
    Sound-Serialized v = record {
      events = v.events;
      state = v.state;
      serial = v.serial;
      once = λ i. Tells-once (calls i) _ (v.progress i) (v.tells i);
      results = λ i a e.
          Tells-result (calls i) _ (v.progress i) a (v.tells i) (Keeps-ret R i a v.keeps e);
      stands = Keeps-idle_Inv R v.keeps;
    }

    lock_moves :
        {s : System Mem A} (v : Sound s) (i : ℕ) (p : Program Mem A)
        → s.threads i ≡ lock p
        → (o : Option ℕ) → s.owner ≡ o
        → Keeps R s.mem s.threads v.progress v.state o
        → (t : System Mem A) × Step s t
    lock_moves v i p e none h k = (_, locks i p e h)
    lock_moves {s} v i p e _ h (held o was knows here out) =
        inside_moves R o (v.progress o) was v.state (s.threads o) refl here

    module _ {s₀ : System Mem A} (free : s₀.owner ≡ none) (inv : R.Inv s₀.mem u₀)
        (disciplined : (i : ℕ) → Checks R (outside (pending (calls i) false)) (s₀.threads i)) where
      Reach-Sound : {s : System Mem A} → Reach s₀ s → Sound s
      unfolding of_thread
      Reach-Sound start = record {
        events = [];
        state = u₀;
        progress = λ i. pending (calls i) false;
        serial = none_yet;
        tells = λ i. (refl, refl);
        keeps = rw free (idle inv (λ i. tt) disciplined);
      }
      Reach-Sound (later r m) = Sound-Step (Reach-Sound r) m

      pub Reach-Serialized : {s : System Mem A} → Reach s₀ s → Serialized s
      Reach-Serialized r = Sound-Serialized (Reach-Sound r)

      pub Reach-Guarded :
          {s : System Mem A} {X : Type 0} (i : ℕ) (f : Mem → Option (X × Mem))
          (k : X → Program Mem A)
          → Reach s₀ s
          → s.threads i ≡ act f k
          → Guarded s i f
      Reach-Guarded i f k r e =
          let (alone, works) = Keeps-act R i f k (Reach-Sound r).keeps e in
          record { alone = alone; works = works }

      thread_moves :
          {s : System Mem A} (r : Reach s₀ s) (i : ℕ) (p : Program Mem A)
          → s.threads i ≡ p
          → ((a : A) × (s.threads i ≡ ret a)) ⊎ ((t : System Mem A) × Step s t)
      thread_moves r i (ret a) e = inl (a, e)
      thread_moves {s} r i (lock p) e =
          let v = Reach-Sound r in inr (lock_moves v i p e s.owner refl v.keeps)
      thread_moves r i (unlock p) e = inr (_, unlocks i p e)
      thread_moves r i (act f k) e = inr (acts_on R i f k e (Reach-Guarded i f k r e).works)

      -- a thread has returned, or some thread can make a step
      pub Reach_moves :
          {s : System Mem A}
          → Reach s₀ s
          → (i : ℕ) → ((a : A) × (s.threads i ≡ ret a)) ⊎ ((t : System Mem A) × Step s t)
      Reach_moves {s} r i = thread_moves r i (s.threads i) refl
