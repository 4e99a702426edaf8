-- ===== src/Accept/Progress.antt =====
-- Why `main` does not stay in `pthread_cond_wait`: what the threads do then wakes it.
use ssdd_final.Base.{ℕ, ◌≡◌, refl, ap, true, false, arith, inl, inr, ◌==◌}
use ssdd_final.Accept.{
  free, sleeping, woken, ThreadPc, absent, started, entered, copied, cleared, signalled, serving,
  System, write_thread, signal_main, Step, accept, create, create_fails, acquire, sleep, spurious,
  wake, pass, release, enter, copy, clear, signal, leave, Reach, start, later,
}
use ssdd_final.Accept.Exclusion.{inside, Owned, Owner-cases, Reach-Owned}
use ssdd_final.Accept.WakeUp.{IsAwaited, sleeping-IsAwaited}

-- Between the reset of the flag and the signal of a thread, the flag is as the thread left it.
IsCleared : System → Type 0
IsCleared s = (i fd sc : ℕ) → s.threads i ≡ cleared fd sc → s.not_finished ≡ false

Step-IsCleared : {s t : System} → Owned s → IsCleared s → Step s t → IsCleared t
unfolding IsCleared
Step-IsCleared v h (accept f e) i fd sc a = h i fd sc a
Step-IsCleared v h (create e) i fd sc a = ground (arith, h i fd sc)
Step-IsCleared v h (create_fails e) i fd sc a = h i fd sc a
Step-IsCleared v h (acquire e o) i fd sc a = h i fd sc a
Step-IsCleared v h (sleep e n) i fd sc a = h i fd sc a
Step-IsCleared v h (spurious e) i fd sc a = h i fd sc a
Step-IsCleared v h (wake e o) i fd sc a = h i fd sc a
Step-IsCleared v h (pass e n) i fd sc a =
    absurd (ground (arith, v.main_owns (rw e refl), v.thread_owns i (rw a refl)))
Step-IsCleared v h (release e) i fd sc a = h i fd sc a
Step-IsCleared v h (enter k f e o) i fd sc a = ground (arith, h i fd sc)
Step-IsCleared v h (copy k f e) i fd sc a = ground (arith, h i fd sc)
Step-IsCleared v h (clear k f c e) i fd sc a = refl
Step-IsCleared v h (signal k f c e) i fd sc a = ground (arith, h i fd sc)
Step-IsCleared v h (leave k f c e) i fd sc a = ground (arith, h i fd sc)

Reach-IsCleared : {sc : ℕ} {s : System} → Reach sc s → IsCleared s
unfolding IsCleared
Reach-IsCleared start i fd sc a = absurd (ground arith)
Reach-IsCleared (later r m) i fd sc a =
    Step-IsCleared (Reach-Owned r) (Reach-IsCleared r) m i fd sc a

-- a step that a thread makes in its own code
abbrev pub IsOfThread : {s t : System} → Step s t → Type 0
IsOfThread (enter i fd e o) = Unit
IsOfThread (copy i fd e) = Unit
IsOfThread (clear i fd sc e) = Unit
IsOfThread (signal i fd sc e) = Unit
IsOfThread (leave i fd sc e) = Unit
IsOfThread m = ⊥

-- a run in which only threads make steps: `main` makes none, and nothing but a signal unblocks it
pub data ThreadRun : System → System → Type 0 where
  stop : {s : System} → ThreadRun s s
  go : {s t u : System} (m : Step s t) → IsOfThread m → ThreadRun t u → ThreadRun s u

-- The threads can go on so that `main` is unblocked and will find the flag cleared.
pub record Wakes (s : System) : Type 0 where
  pub after : System
  pub run : ThreadRun s after
  pub unblocked : after.at ≡ woken
  pub clear : after.not_finished ≡ false

first : {s t : System} (m : Step s t) → IsOfThread m → Wakes t → Wakes s
first m h w = record {
  after = w.after;
  run = go m h w.run;
  unblocked = w.unblocked;
  clear = w.clear;
}

write_thread-same : (threads : ℕ → ThreadPc) (i : ℕ) (p : ThreadPc) → write_thread threads i p i ≡ p
write_thread-same threads i p = ground arith

cleared-Wakes :
    (s : System) (i fd sc : ℕ)
    → s.threads i ≡ cleared fd sc
    → s.at ≡ sleeping
    → s.not_finished ≡ false
    → Wakes s
cleared-Wakes s i fd sc e a f = record {
  after = _;
  run = go (signal i fd sc e) tt stop;
  unblocked = ap signal_main a;
  clear = f;
}

copied-Wakes : (s : System) (i fd sc : ℕ) → s.threads i ≡ copied fd sc → s.at ≡ sleeping → Wakes s
copied-Wakes s i fd sc e a =
    first (Step.clear i fd sc e) tt
      (cleared-Wakes _ i fd sc (write_thread-same s.threads i _) a refl)

entered-Wakes : (s : System) (i fd : ℕ) → s.threads i ≡ entered fd → s.at ≡ sleeping → Wakes s
entered-Wakes s i fd e a =
    first (copy i fd e) tt (copied-Wakes _ i fd s.sc (write_thread-same s.threads i _) a)

-- the thread that `main` waits for, while the mutex is free
awaited-Wakes :
    (s : System) (i : ℕ) (p : ThreadPc)
    → IsCleared s
    → s.at ≡ sleeping
    → s.owner ≡ free
    → s.threads i ≡ p
    → IsAwaited s.sc p
    → Wakes s
unfolding IsCleared
awaited-Wakes s i (started fd) h a o e w =
    first (enter i fd e o) tt (entered-Wakes _ i fd (write_thread-same s.threads i _) a)
awaited-Wakes s i (entered fd) h a o e w = entered-Wakes s i fd e a
awaited-Wakes s i (copied fd sc) h a o e w = copied-Wakes s i fd sc e a
awaited-Wakes s i (cleared fd sc) h a o e w = cleared-Wakes s i fd sc e a (h i fd sc e)
awaited-Wakes s i absent h a o e w = absurd w
awaited-Wakes s i (signalled fd sc) h a o e w = absurd w
awaited-Wakes s i (serving fd sc) h a o e w = absurd w

-- the thread that has the mutex, while another is awaited
inside-Wakes :
    (s : System) (j : ℕ) (p : ThreadPc)
    → IsCleared s
    → s.at ≡ sleeping
    → s.threads j ≡ p
    → inside p ≡ true
    → (i : ℕ) × IsAwaited s.sc (s.threads i)
    → Wakes s
unfolding IsCleared
inside-Wakes s j (entered fd) h a e w x = entered-Wakes s j fd e a
inside-Wakes s j (copied fd sc) h a e w x = copied-Wakes s j fd sc e a
inside-Wakes s j (cleared fd sc) h a e w x = cleared-Wakes s j fd sc e a (h j fd sc e)
inside-Wakes s j (signalled fd sc) h a e w (i, x) =
    let other : (i == j) ≡ false = ground arith in
    let kept : write_thread s.threads j (serving fd sc) i ≡ s.threads i = rw other refl in
    first (leave j fd sc e) tt
      (awaited-Wakes _ i (s.threads i) (λ k fd' sc' c. ground (arith, h k fd' sc')) a refl kept x)
inside-Wakes s j absent h a e w x = cc
inside-Wakes s j (started fd) h a e w x = cc
inside-Wakes s j (serving fd sc) h a e w x = cc

-- The wait of the hand-over ends: in every reachable state in which `main` is blocked in
-- `pthread_cond_wait`, the threads can go on, with no step of `main` and with no wake-up but that of
-- `pthread_cond_signal`, so that `main` is unblocked and the flag that it then tests is cleared.
pub sleeping-Wakes : {sc₀ : ℕ} {s : System} → Reach sc₀ s → s.at ≡ sleeping → Wakes s
sleeping-Wakes {s = s} r e =
    let awaited = sleeping-IsAwaited r e in
    let (i, a) = awaited in
    let v = Reach-Owned r in
    let h = Reach-IsCleared r in
    elim (Owner-cases s.owner) [
      | inl o ↦ awaited-Wakes s i (s.threads i) h e o refl a
      | inr (inl o) ↦ absurd (ground (arith, v.owner_main o))
      | inr (inr (j, o)) ↦ inside-Wakes s j (s.threads j) h e refl (v.owner_thread j o) awaited
    ]
