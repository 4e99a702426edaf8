-- ===== src/Threads/Alone.antt =====
-- A thread that makes steps while no other does.
use ssdd_final.Base.{
  ℕ, ◌≡◌, ◌≢◌, refl, ◌∙◌, Bool, true, false, Option, none, some, update, update-same, update-other,
}
use ssdd_final.Threads.{Program, ret, lock, unlock, act, ◌>>=◌, System, Reach, later, acts}

module _ {Mem A : Type 0} where
  -- The accesses from one point of a program to another, with the memory before and after them.
  pub data Runs : Program Mem A → Mem → Program Mem A → Mem → Type 1 where
    stop : (p : Program Mem A) (m : Mem) → Runs p m p m
    go :
        {X : Type 0} {f : Mem → Option (X × Mem)} {k : X → Program Mem A} {m : Mem}
        {q : Program Mem A} {n : Mem} (x : X) (m' : Mem)
        → f m ≡ some (x, m')
        → Runs (k x) m' q n
        → Runs (act f k) m q n

  pub Runs-then : {p q r : Program Mem A} {m n o : Mem} → Runs p m q n → Runs q n r o → Runs p m r o
  Runs-then (stop p m) h = h
  Runs-then (go x m' e r) h = go x m' e (Runs-then r h)

  abbrev pub behind :
      {X : Type 0}
      → Option (X × Mem)
      → (X → Mem → Option (A × Bool × Mem))
      → Option (A × Bool × Mem)
  behind none k = none
  behind (some (x, m)) k = k x m

  -- The run of a program that no other thread disturbs: what it returns, whether the mutex is then
  -- held, and the memory; none where it waits for the mutex forever or makes an access that is an
  -- error. `held` is whether the mutex is held at the beginning, by this thread or another.
  unfoldable pub exec : Program Mem A → Bool → Mem → Option (A × Bool × Mem)
  exec (ret a) held m = some (a, held, m)
  exec (lock p) held m = elim held [ true ↦ none | false ↦ exec p true m ]
  exec (unlock p) held m = exec p false m
  exec (act f k) held m = behind (f m) (λ x m'. exec (k x) held m')

  pub exec-Runs :
      {p q : Program Mem A} {m n : Mem} (held : Bool) → Runs p m q n → exec p held m ≡ exec q held n
  unfolding exec
  exec-Runs held (stop p m) = refl
  exec-Runs held (go x m' e r) = rw e (exec-Runs held r)

  -- a state behind a run of thread `i`
  pub record Ran (s t : System Mem A) (i : ℕ) (q : Program Mem A) (n : Mem) : Type 1 where
    pub after : System Mem A
    pub reached : Reach s after
    pub mem : after.mem ≡ n
    pub here : after.threads i ≡ q
    pub others : (j : ℕ) → j ≢ i → after.threads j ≡ t.threads j

  pub Runs-Ran :
      {p q : Program Mem A} {m n : Mem} (s t : System Mem A) (i : ℕ)
      → Runs p m q n
      → Reach s t
      → t.mem ≡ m
      → t.threads i ≡ p
      → Ran s t i q n
  Runs-Ran s t i (stop p m) r em e = record {
    after = t;
    reached = r;
    mem = em;
    here = e;
    others = λ j n. refl;
  }
  Runs-Ran s t i (go {f = f} {k = k} x m' e' rest) r em e =
      let u : System Mem A = record t { mem = m'; threads = update t.threads i (k x) } in
      let z =
        Runs-Ran s u i rest (later r (acts i f k x m' e (rw em e'))) refl
          (update-same t.threads i (k x)) in
      record {
        after = z.after;
        reached = z.reached;
        mem = z.mem;
        here = z.here;
        others = λ j n. z.others j n ∙ update-other t.threads i (k x) j n;
      }

pub Runs-bind :
    {Mem A B : Type 0} {p q : Program Mem A} {m n : Mem} (k : A → Program Mem B)
    → Runs p m q n
    → Runs (p >>= k) m (q >>= k) n
Runs-bind k (stop p m) = stop _ m
Runs-bind k (go x m' e r) = go x m' e (Runs-bind k r)
