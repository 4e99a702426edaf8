-- ===== src/Accept/Exclusion.antt =====
-- Who is between `pthread_mutex_lock` and `pthread_mutex_unlock` of `mutex_mensaje`.
use ssdd_final.Base.{ℕ, ◌≡◌, ◌⊎◌, refl, Bool, true, false, arith, inl, inr, Bool-cases}
use ssdd_final.Accept.{
  Owner, free, main, thread, MainPc, accepting, creating, locking, testing, sleeping, woken,
  unlocking, ThreadPc, absent, entered, copied, cleared, signalled, System, signal_main, Step,
  accept, create, create_fails, acquire, sleep, spurious, wake, pass, release, enter, copy, clear,
  signal, leave, Reach, start, later,
}
use ssdd_final.Accept.HandOver.{fresh_absent}

-- `main` has locked the mutex
abbrev pub main_inside : MainPc → Bool
main_inside testing = true
main_inside unlocking = true
main_inside p = false

-- the thread has locked the mutex
abbrev pub inside : ThreadPc → Bool
inside (entered fd) = true
inside (copied fd sc) = true
inside (cleared fd sc) = true
inside (signalled fd sc) = true
inside p = false

pub Owner-cases : (o : Owner) → (o ≡ free) ⊎ (o ≡ main) ⊎ ((i : ℕ) × (o ≡ thread i))
Owner-cases free = inl refl
Owner-cases main = inr (inl refl)
Owner-cases (thread i) = inr (inr (i, refl))

-- The owner is the one who is inside.
pub record Owned (s : System) : Type 0 where
  pub main_owns : main_inside s.at ≡ true → s.owner ≡ main
  pub owner_main : s.owner ≡ main → main_inside s.at ≡ true
  pub thread_owns : (i : ℕ) → inside (s.threads i) ≡ true → s.owner ≡ thread i
  pub owner_thread : (i : ℕ) → s.owner ≡ thread i → inside (s.threads i) ≡ true

main_signalled : (p : MainPc) → main_inside (signal_main p) ≡ true → main_inside p ≡ true
main_signalled sleeping h = cc
main_signalled accepting h = h
main_signalled creating h = h
main_signalled locking h = h
main_signalled testing h = h
main_signalled woken h = h
main_signalled unlocking h = h

signalled_main : (p : MainPc) → main_inside p ≡ true → main_inside (signal_main p) ≡ true
signalled_main sleeping h = cc
signalled_main accepting h = h
signalled_main creating h = h
signalled_main locking h = h
signalled_main testing h = h
signalled_main woken h = h
signalled_main unlocking h = h

Step-main_owns : {s t : System} → Owned s → Step s t → main_inside t.at ≡ true → t.owner ≡ main
Step-main_owns v (accept fd e) h = ground arith
Step-main_owns v (create e) h = ground arith
Step-main_owns v (create_fails e) h = ground arith
Step-main_owns v (acquire e o) h = refl
Step-main_owns v (sleep e n) h = ground arith
Step-main_owns v (wake e o) h = refl
Step-main_owns v (pass e n) h = ground (arith, v.main_owns)
Step-main_owns v (release e) h = ground arith
Step-main_owns v (enter k fd e o) h = ground (arith, v.main_owns)
Step-main_owns v (copy k fd e) h = ground (arith, v.main_owns)
Step-main_owns v (clear k fd sc e) h = ground (arith, v.main_owns)
Step-main_owns v (leave k fd sc e) h = ground (arith, v.main_owns, v.thread_owns k)
Step-main_owns {s} v (signal k fd sc e) h = v.main_owns (main_signalled s.at h)
Step-main_owns v (spurious e) h = ground arith

Step-owner_main : {s t : System} → Owned s → Step s t → t.owner ≡ main → main_inside t.at ≡ true
Step-owner_main v (accept fd e) h = ground (arith, v.owner_main)
Step-owner_main v (create e) h = ground (arith, v.owner_main)
Step-owner_main v (create_fails e) h = ground (arith, v.owner_main)
Step-owner_main v (acquire e o) h = refl
Step-owner_main v (sleep e n) h = ground arith
Step-owner_main v (wake e o) h = refl
Step-owner_main v (pass e n) h = refl
Step-owner_main v (release e) h = ground arith
Step-owner_main v (enter k fd e o) h = ground (arith, v.owner_main)
Step-owner_main v (copy k fd e) h = ground (arith, v.owner_main)
Step-owner_main v (clear k fd sc e) h = ground (arith, v.owner_main)
Step-owner_main v (leave k fd sc e) h = ground arith
Step-owner_main {s} v (signal k fd sc e) h = signalled_main s.at (v.owner_main h)
Step-owner_main v (spurious e) h = ground (arith, v.owner_main)

Step-thread_owns :
    {s t : System} → Owned s → Step s t → (i : ℕ) → inside (t.threads i) ≡ true → t.owner ≡ thread i
Step-thread_owns v (accept fd e) i h = ground (arith, v.thread_owns i)
Step-thread_owns v (create e) i h = ground (arith, v.thread_owns i)
Step-thread_owns v (create_fails e) i h = ground (arith, v.thread_owns i)
Step-thread_owns v (acquire e o) i h = ground (arith, v.thread_owns i)
Step-thread_owns v (sleep e n) i h = ground (arith, v.thread_owns i, v.main_owns)
Step-thread_owns v (wake e o) i h = ground (arith, v.thread_owns i)
Step-thread_owns v (pass e n) i h = ground (arith, v.thread_owns i)
Step-thread_owns v (release e) i h = ground (arith, v.thread_owns i, v.main_owns)
Step-thread_owns v (enter k fd e o) i h = ground (arith, v.thread_owns i)
Step-thread_owns v (copy k fd e) i h = ground (arith, v.thread_owns i, v.thread_owns k)
Step-thread_owns v (clear k fd sc e) i h = ground (arith, v.thread_owns i, v.thread_owns k)
Step-thread_owns v (leave k fd sc e) i h = ground (arith, v.thread_owns i, v.thread_owns k)
Step-thread_owns v (signal k fd sc e) i h = ground (arith, v.thread_owns i, v.thread_owns k)
Step-thread_owns v (spurious e) i h = v.thread_owns i h

Step-owner_thread :
    {s t : System}
    → Owned s
    → s.threads s.count ≡ absent
    → Step s t
    → (i : ℕ) → t.owner ≡ thread i
    → inside (t.threads i) ≡ true
Step-owner_thread v a (create e) i h = ground (arith, v.owner_thread i)
Step-owner_thread v a (accept fd e) i h = ground (arith, v.owner_thread i)
Step-owner_thread v a (create_fails e) i h = ground (arith, v.owner_thread i)
Step-owner_thread v a (acquire e o) i h = ground arith
Step-owner_thread v a (sleep e n) i h = ground arith
Step-owner_thread v a (wake e o) i h = ground arith
Step-owner_thread v a (pass e n) i h = ground (arith, v.owner_thread i)
Step-owner_thread v a (release e) i h = ground arith
Step-owner_thread v a (enter k fd e o) i h = ground arith
Step-owner_thread v a (copy k fd e) i h = ground (arith, v.owner_thread i)
Step-owner_thread v a (clear k fd sc e) i h = ground (arith, v.owner_thread i)
Step-owner_thread v a (leave k fd sc e) i h = ground arith
Step-owner_thread v a (signal k fd sc e) i h = ground (arith, v.owner_thread i)
Step-owner_thread v a (spurious e) i h = v.owner_thread i h

pub Reach-Owned : {sc : ℕ} {s : System} → Reach sc s → Owned s
Reach-Owned start = record {
  main_owns = λ h. ground arith;
  owner_main = λ h. ground arith;
  thread_owns = λ i h. ground arith;
  owner_thread = λ i h. ground arith;
}
Reach-Owned (later r m) =
    let v = Reach-Owned r in
    record {
      main_owns = Step-main_owns v m;
      owner_main = Step-owner_main v m;
      thread_owns = Step-thread_owns v m;
      owner_thread = Step-owner_thread v (fresh_absent r) m;
    }

-- In every reachable state, while a thread is between the lock and the unlock of the hand-over, no
-- other thread is, and neither is `main`.
pub inside_alone :
    {sc₀ : ℕ} {s : System}
    → Reach sc₀ s
    → (i : ℕ) → inside (s.threads i) ≡ true
    → (main_inside s.at ≡ false) × ((j : ℕ) → inside (s.threads j) ≡ true → j ≡ i)
inside_alone {s = s} r i h =
    let v = Reach-Owned r in
    let own = v.thread_owns i h in
    (
      elim (Bool-cases (main_inside s.at)) [
        | inl e ↦ absurd (ground (arith, own, v.main_owns e))
        | inr e ↦ e
      ],
      λ j h'. ground (arith, own, v.thread_owns j h'),
    )
