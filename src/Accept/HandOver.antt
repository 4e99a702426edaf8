-- ===== src/Accept/HandOver.antt =====
-- `main` does not accept the next connection before the new thread has its descriptor.
use ssdd_final.Base.{
  ℕ, suc, ◌≤◌, ◌≡◌, ◌≢◌, refl, Bool, true, false, arith, ◌==◌, Bool-cases, inl, inr,
}
use ssdd_final.Accept.{
  MainPc, accepting, creating, locking, testing, sleeping, woken, unlocking, ThreadPc, absent,
  started, entered, copied, cleared, signalled, serving, System, before_accept, write_thread,
  signal_main, accept, create, create_fails, acquire, sleep, wake, pass, release, enter, copy,
  clear, signal, leave, Step, spurious, Reach, start, later,
}

-- `main` waits for the thread that it has created.
abbrev pub IsWaiting : MainPc → Type 0
IsWaiting locking = Unit
IsWaiting testing = Unit
IsWaiting sleeping = Unit
IsWaiting woken = Unit
IsWaiting p = ⊥

-- the flag before `main` reaches its test
abbrev IsReset : MainPc → Bool → Type 0
IsReset accepting b = b ≡ true
IsReset creating b = b ≡ true
IsReset unlocking b = b ≡ true
IsReset p b = Unit

-- A thread that has not cleared the flag yet is the last one created, `sc` still holds its descriptor, and
-- `main` waits for it; one that has copied `sc` has its own descriptor.
abbrev IsRight : System → ℕ → ThreadPc → Type 0
IsRight s i absent = Unit
IsRight s i (started fd) =
    (s.sc ≡ fd) × (s.not_finished ≡ true) × (suc i ≡ s.count) × IsWaiting s.at
IsRight s i (entered fd) =
    (s.sc ≡ fd) × (s.not_finished ≡ true) × (suc i ≡ s.count) × IsWaiting s.at
IsRight s i (copied fd sc) =
    (sc ≡ fd) × (s.sc ≡ fd) × (s.not_finished ≡ true) × (suc i ≡ s.count) × IsWaiting s.at
IsRight s i (cleared fd sc) = sc ≡ fd
IsRight s i (signalled fd sc) = sc ≡ fd
IsRight s i (serving fd sc) = sc ≡ fd

pub record Inv (s : System) : Type 0 where
  reset : IsReset s.at s.not_finished
  pub right : (i : ℕ) → IsRight s i (s.threads i)
  later_absent : (i : ℕ) → s.count ≤ i → s.threads i ≡ absent

before_accept-Inv : (sc : ℕ) → Inv (before_accept sc)
before_accept-Inv sc = record { reset = refl; right = λ i. tt; later_absent = λ i h. refl }

signal_main-IsWaiting : (p : MainPc) → IsWaiting p → IsWaiting (signal_main p)
signal_main-IsWaiting locking w = tt
signal_main-IsWaiting testing w = tt
signal_main-IsWaiting sleeping w = tt
signal_main-IsWaiting woken w = tt
signal_main-IsWaiting accepting w = w
signal_main-IsWaiting creating w = w
signal_main-IsWaiting unlocking w = w

signal_main-IsReset : (p : MainPc) (b : Bool) → IsReset p b → IsReset (signal_main p) b
signal_main-IsReset locking b w = tt
signal_main-IsReset testing b w = tt
signal_main-IsReset sleeping b w = tt
signal_main-IsReset woken b w = tt
signal_main-IsReset accepting b w = w
signal_main-IsReset creating b w = w
signal_main-IsReset unlocking b w = w

-- what the signal leaves of the state of any other thread
signal-IsRight :
    (s : System) (k : ℕ) (p q : ThreadPc) (i : ℕ)
    → IsRight s i q
    → IsRight (record s { at = signal_main s.at; threads = write_thread s.threads k p }) i q
signal-IsRight s k p absent i h = tt
signal-IsRight s k p (started fd) i (a, b, c, w) = (a, b, c, signal_main-IsWaiting s.at w)
signal-IsRight s k p (entered fd) i (a, b, c, w) = (a, b, c, signal_main-IsWaiting s.at w)
signal-IsRight s k p (copied fd sc) i (d, a, b, c, w) = (d, a, b, c, signal_main-IsWaiting s.at w)
signal-IsRight s k p (cleared fd sc) i h = h
signal-IsRight s k p (signalled fd sc) i h = h
signal-IsRight s k p (serving fd sc) i h = h

Step-IsRight : {s t : System} → Inv s → Step s t → (i : ℕ) → IsRight t i (t.threads i)
Step-IsRight v (accept fd e) i = ground (arith, v.right i, v.reset)
Step-IsRight v (create e) i = ground (arith, v.right i, v.reset)
Step-IsRight v (create_fails e) i = ground (arith, v.right i)
Step-IsRight v (acquire e o) i = ground (arith, v.right i)
Step-IsRight v (sleep e h) i = ground (arith, v.right i)
Step-IsRight v (wake e o) i = ground (arith, v.right i)
Step-IsRight v (pass e h) i = ground (arith, v.right i)
Step-IsRight v (release e) i = ground (arith, v.right i)
Step-IsRight v (enter k fd e o) i = ground (arith, v.right i, v.right k)
Step-IsRight v (copy k fd e) i = ground (arith, v.right i, v.right k)
Step-IsRight v (clear k fd sc e) i = ground (arith, v.right i, v.right k)
Step-IsRight {s} v (signal k fd sc e) i = elim (Bool-cases (i == k)) [
  | inl same ↦ rw same (ground (arith, v.right k))
  | inr other ↦ rw other (signal-IsRight s k (signalled fd sc) (s.threads i) i (v.right i))
]
Step-IsRight v (leave k fd sc e) i = ground (arith, v.right i, v.right k)
Step-IsRight v (spurious e) i = ground (arith, v.right i)

Step-IsReset : {s t : System} → Inv s → Step s t → IsReset t.at t.not_finished
Step-IsReset v (accept fd e) = ground (arith, v.reset)
Step-IsReset v (create e) = tt
Step-IsReset v (create_fails e) = ground (arith, v.reset)
Step-IsReset v (acquire e o) = tt
Step-IsReset v (sleep e h) = tt
Step-IsReset v (wake e o) = tt
Step-IsReset v (pass e h) = refl
Step-IsReset v (release e) = ground (arith, v.reset)
Step-IsReset v (enter k fd e o) = v.reset
Step-IsReset v (copy k fd e) = v.reset
Step-IsReset {s} v (clear k fd sc e) = waiting_reset s.at (ground (arith, v.right k))
  where
    waiting_reset : (p : MainPc) → IsWaiting p → IsReset p false
    waiting_reset locking w = tt
    waiting_reset testing w = tt
    waiting_reset sleeping w = tt
    waiting_reset woken w = tt
    waiting_reset accepting w = absurd w
    waiting_reset creating w = absurd w
    waiting_reset unlocking w = absurd w
Step-IsReset {s} v (signal k fd sc e) = signal_main-IsReset s.at s.not_finished v.reset
Step-IsReset v (leave k fd sc e) = v.reset
Step-IsReset v (spurious e) = tt

-- a step of a thread that is there changes no absent one
write_thread-absent :
    (threads : ℕ → ThreadPc) (k : ℕ) (p : ThreadPc) (i : ℕ)
    → threads k ≢ absent
    → threads i ≡ absent
    → write_thread threads k p i ≡ absent
write_thread-absent threads k p i there e = ground arith

Step-later_absent : {s t : System} → Inv s → Step s t → (i : ℕ) → t.count ≤ i → t.threads i ≡ absent
Step-later_absent v (create e) i h = ground (arith, v.later_absent i)
Step-later_absent {s} v (enter k fd e o) i h =
    write_thread-absent s.threads k _ i (λ a. ground arith) (v.later_absent i h)
Step-later_absent {s} v (copy k fd e) i h =
    write_thread-absent s.threads k _ i (λ a. ground arith) (v.later_absent i h)
Step-later_absent {s} v (clear k fd sc e) i h =
    write_thread-absent s.threads k _ i (λ a. ground arith) (v.later_absent i h)
Step-later_absent {s} v (signal k fd sc e) i h =
    write_thread-absent s.threads k _ i (λ a. ground arith) (v.later_absent i h)
Step-later_absent {s} v (leave k fd sc e) i h =
    write_thread-absent s.threads k _ i (λ a. ground arith) (v.later_absent i h)
Step-later_absent v _ i h = v.later_absent i h

pub Reach-Inv : {sc : ℕ} {s : System} → Reach sc s → Inv s
Reach-Inv {sc} start = before_accept-Inv sc
Reach-Inv (later r m) =
    let v = Reach-Inv r in
    record {
      reset = Step-IsReset v m;
      right = Step-IsRight v m;
      later_absent = Step-later_absent v m;
    }

-- the next thread is not there yet
pub fresh_absent : {sc : ℕ} {s : System} → Reach sc s → s.threads s.count ≡ absent
fresh_absent {s = s} r = (Reach-Inv r).later_absent s.count (omega arith)

-- In every reachable state, in any interleaving of `main` with any number of threads, a thread that
-- serves a connection has copied the descriptor of the connection that it was created for.
pub serving_own :
    {sc₀ : ℕ} {s : System} → Reach sc₀ s → (i fd sc : ℕ) → s.threads i ≡ serving fd sc → sc ≡ fd
serving_own r i fd sc e = ground (arith, (Reach-Inv r).right i)
