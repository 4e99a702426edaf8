-- ===== src/Accept/WakeUp.antt =====
-- The wait and the signal of the hand-over: while `main` is blocked, a thread has still to signal.
use ssdd_final.Base.{ℕ, ◌≡◌, ◌≢◌, true, arith}
use ssdd_final.Accept.{
  MainPc, accepting, creating, locking, testing, sleeping, woken, unlocking, ThreadPc, absent,
  started, entered, copied, cleared, signalled, serving, System, signal_main, accept, create,
  create_fails, acquire, sleep, wake, pass, release, enter, copy, clear, signal, leave, Step,
  spurious, Reach, start, later,
}
use ssdd_final.Accept.HandOver.{IsWaiting, Inv, Reach-Inv}

-- A thread that has still to clear the flag, created for this descriptor.
abbrev IsPending : ℕ → ThreadPc → Type 0
IsPending sc (started fd) = fd ≡ sc
IsPending sc (entered fd) = fd ≡ sc
IsPending sc (copied fd sc') = fd ≡ sc
IsPending sc p = ⊥

-- Where `main` waits and the flag is set, the last thread has still to clear it.
abbrev HasPending : System → Type 0
HasPending s = IsWaiting s.at → s.not_finished ≡ true → (i : ℕ) × IsPending s.sc (s.threads i)

IsWaiting-signal_main : (p : MainPc) → IsWaiting (signal_main p) → IsWaiting p
IsWaiting-signal_main locking w = tt
IsWaiting-signal_main testing w = tt
IsWaiting-signal_main sleeping w = tt
IsWaiting-signal_main woken w = tt
IsWaiting-signal_main accepting w = w
IsWaiting-signal_main creating w = w
IsWaiting-signal_main unlocking w = w

Step-HasPending : {s t : System} → Inv s → HasPending s → Step s t → HasPending t
Step-HasPending v h (accept fd e) w f = absurd w
Step-HasPending {s} v h (create e) w f = (s.count, ground arith)
Step-HasPending v h (create_fails e) w f = absurd w
Step-HasPending v h (acquire e o) w f = h (rw e tt) f
Step-HasPending v h (sleep e n) w f = h (rw e tt) n
Step-HasPending v h (wake e o) w f = h (rw e tt) f
Step-HasPending v h (pass e n) w f = absurd w
Step-HasPending v h (release e) w f = absurd w
Step-HasPending v h (enter k fd e o) w f = (k, ground (arith, v.right k))
Step-HasPending v h (copy k fd e) w f = (k, ground (arith, v.right k))
Step-HasPending v h (clear k fd sc e) w f = cc
Step-HasPending {s} v h (signal k fd sc e) w f =
    let (i, a) = h (IsWaiting-signal_main s.at w) f in (i, ground (arith, a))
Step-HasPending v h (leave k fd sc e) w f = let (i, a) = h w f in (i, ground (arith, a))
Step-HasPending v h (spurious e) w f = h (rw e tt) f

Reach-HasPending : {sc : ℕ} {s : System} → Reach sc s → HasPending s
Reach-HasPending start w f = absurd w
Reach-HasPending (later r m) w f = Step-HasPending (Reach-Inv r) (Reach-HasPending r) m w f

-- A thread that has still to signal, created for this descriptor.
abbrev pub IsAwaited : ℕ → ThreadPc → Type 0
IsAwaited sc (started fd) = fd ≡ sc
IsAwaited sc (entered fd) = fd ≡ sc
IsAwaited sc (copied fd sc') = fd ≡ sc
IsAwaited sc (cleared fd sc') = fd ≡ sc
IsAwaited sc p = ⊥

pending-IsAwaited : (sc : ℕ) (p : ThreadPc) → IsPending sc p → IsAwaited sc p
pending-IsAwaited sc (started fd) h = h
pending-IsAwaited sc (entered fd) h = h
pending-IsAwaited sc (copied fd sc') h = h
pending-IsAwaited sc absent h = absurd h
pending-IsAwaited sc (cleared fd sc') h = absurd h
pending-IsAwaited sc (signalled fd sc') h = absurd h
pending-IsAwaited sc (serving fd sc') h = absurd h

signal_main-awake : (p : MainPc) → signal_main p ≢ sleeping
signal_main-awake accepting e = cc
signal_main-awake creating e = cc
signal_main-awake locking e = cc
signal_main-awake testing e = cc
signal_main-awake sleeping e = cc
signal_main-awake woken e = cc
signal_main-awake unlocking e = cc

abbrev HasSignal : System → Type 0
HasSignal s = s.at ≡ sleeping → (i : ℕ) × IsAwaited s.sc (s.threads i)

Step-HasSignal : {s t : System} → Inv s → HasPending s → HasSignal s → Step s t → HasSignal t
Step-HasSignal {s} v p h (sleep e n) w =
    let (i, a) = p (rw e tt) n in (i, pending-IsAwaited s.sc (s.threads i) a)
Step-HasSignal v p h (accept fd e) w = absurd (ground arith)
Step-HasSignal v p h (create e) w = absurd (ground arith)
Step-HasSignal v p h (create_fails e) w = absurd (ground arith)
Step-HasSignal v p h (acquire e o) w = absurd (ground arith)
Step-HasSignal v p h (wake e o) w = absurd (ground arith)
Step-HasSignal v p h (pass e n) w = absurd (ground arith)
Step-HasSignal v p h (release e) w = absurd (ground arith)
Step-HasSignal v p h (enter k fd e o) w = (k, ground (arith, v.right k))
Step-HasSignal v p h (copy k fd e) w = (k, ground (arith, v.right k))
Step-HasSignal v p h (clear k fd sc e) w = (k, ground (arith, v.right k))
Step-HasSignal {s} v p h (signal k fd sc e) w = absurd (signal_main-awake s.at w)
Step-HasSignal v p h (leave k fd sc e) w = let (i, a) = h w in (i, ground (arith, a))
Step-HasSignal v p h (spurious e) w = absurd (ground arith)

Reach-HasSignal : {sc : ℕ} {s : System} → Reach sc s → HasSignal s
Reach-HasSignal start w = absurd (ground arith)
Reach-HasSignal (later r m) w =
    Step-HasSignal (Reach-Inv r) (Reach-HasPending r) (Reach-HasSignal r) m w

-- No wake-up is lost: in every reachable state in which `main` is blocked in `pthread_cond_wait`,
-- whether the flag is set or not, there is a thread that was created for the descriptor in `sc` and
-- has still to call `pthread_cond_signal`.
pub sleeping-IsAwaited :
    {sc₀ : ℕ} {s : System} → Reach sc₀ s → s.at ≡ sleeping → (i : ℕ) × IsAwaited s.sc (s.threads i)
sleeping-IsAwaited r e = Reach-HasSignal r e
