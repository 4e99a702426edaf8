-- ===== src/Threads/Discipline/Lift.antt =====
-- A program that keeps the discipline does so also where its call and its result are read as others.
use ssdd_final.Base.{ap, Bool, true, false, Option, none, some}
use ssdd_final.Threads.{Program, ret, lock, unlock, act, ◌>>=◌}
use ssdd_final.Threads.Discipline.{
  Resource, Progress, pending, returned, Mode, outside, inside, Knows, Ends, Moves, stays, commits,
  After, Checks,
}

module _ {Mem A B Call Call' State : Type 0} (Inv : Mem → State → Type 0) (started : Mem → Bool)
    (P : Call → State → A → State → Type 0) (P' : Call' → State → B → State → Type 0)
    (f : Call → Call') (g : A → B)
    (lifts : (c : Call) (u : State) (a : A) (u' : State) → P c u a u' → P' (f c) u (g a) u') where
  abbrev from : Resource Mem A Call State
  from = record { Inv = Inv; started = started; Performs = P }

  abbrev to : Resource Mem B Call' State
  to = record { Inv = Inv; started = started; Performs = P' }

  abbrev progress : Progress A Call → Progress B Call'
  progress (pending c seen) = pending (f c) seen
  progress (returned a) = returned (g a)

  abbrev mode : Mode Mem A Call State → Mode Mem B Call' State
  mode (outside q) = outside (progress q)
  mode (inside q was u m) = inside (progress q) was u m

  Knows-from : (q : Progress A Call) (b : Bool) → Knows to (progress q) b → Knows from q b
  Knows-from (pending c true) b k = k
  Knows-from (pending c false) b k = k
  Knows-from (returned a) b k = k

  Knows-to : (q : Progress A Call) (b : Bool) → Knows from q b → Knows to (progress q) b
  Knows-to (pending c true) b k = k
  Knows-to (pending c false) b k = k
  Knows-to (returned a) b k = k

  Ends-to : (q : Progress A Call) (a : A) → Ends from q a → Ends to (progress q) (g a)
  Ends-to (pending c seen) a e = e
  Ends-to (returned b) a e = ap g e

  Moves-to :
      {q q' : Progress A Call} {u u' : State}
      → Moves from q u q' u'
      → Moves to (progress q) u (progress q') u'
  Moves-to stays = stays
  Moves-to (commits h) = commits (lifts _ _ _ _ h)

  After-to :
      {X : Type 0} (o : Option (X × Mem)) {Q Q' : X → Mem → Type 0}
      → After from o Q
      → ((x : X) (m : Mem) → Q x m → Q' x m)
      → After to o Q'
  After-to none h k = h
  After-to (some (x, m)) h k = k x m h

  pub Checks-lift :
      (p : Program Mem A) (w : Mode Mem A Call State)
      → Checks from w p
      → Checks to (mode w) (p >>= λ a. ret (g a))
  unfolding Checks
  Checks-lift (ret a) (outside q) h = Ends-to q a h
  Checks-lift (lock p) (outside q) h =
      λ m u v k. Checks-lift p (inside q (started m) u m) (h m u v (Knows-from q _ k))
  Checks-lift (unlock p) (outside q) h = h
  Checks-lift (act a k) (outside q) h = h
  Checks-lift (ret a) (inside q was u m) h = h
  Checks-lift (lock p) (inside q was u m) h = h
  Checks-lift (unlock p) (inside q was u m) (q', u', v, w, k, moves, rest) =
      (progress q', u', v, w, Knows-to q' _ k, Moves-to moves, Checks-lift p (outside q') rest)
  Checks-lift (act a k) (inside q was u m) h =
      After-to (a m) h (λ x m'. Checks-lift (k x) (inside q was u m'))
