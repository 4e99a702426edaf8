-- ===== src/Accept.antt =====
-- server/servidor.c: the loop of `main` that accepts connections, and the beginning of each thread,
-- which copies the descriptor from `sc` of `main`. Every access to shared memory is a step, and the
-- steps of `main` and of all threads interleave in any order.
pub mod HandOver
pub mod WakeUp
pub mod Exclusion
pub mod Progress
use ssdd_final.Base.{ℕ, suc, ◌≡◌, Bool, true, false, ◌==◌, if◌then◌else◌}

-- who holds `mutex_mensaje`
pub data Owner : Type 0 where
  free : Owner
  main : Owner
  thread : ℕ → Owner

-- Where `main` stands: before `accept`, before `pthread_create`, before `pthread_mutex_lock`, at the
-- test of the `while`, blocked in `pthread_cond_wait`, there too but no longer blocked and to take
-- the mutex again, and behind `not_finished = true`.
pub data MainPc : Type 0 where
  accepting creating locking testing sleeping woken unlocking : MainPc

-- Where a thread stands in the first lines of `treat_request`: before the lock, before each of the
-- four lines behind it, and behind the unlock. `fd` is the connection that it was created for, which
-- no code reads, and `sc` its local variable once it is written.
pub data ThreadPc : Type 0 where
  absent : ThreadPc
  started : (fd : ℕ) → ThreadPc
  entered : (fd : ℕ) → ThreadPc
  copied : (fd sc : ℕ) → ThreadPc
  cleared : (fd sc : ℕ) → ThreadPc
  signalled : (fd sc : ℕ) → ThreadPc
  serving : (fd sc : ℕ) → ThreadPc

-- `sc` is the variable of `main`, `count` the number of threads created so far.
pub record System : Type 0 where
  pub sc : ℕ
  pub not_finished : Bool
  pub owner : Owner
  pub at : MainPc
  pub threads : ℕ → ThreadPc
  pub count : ℕ

-- before the first `accept`
abbrev pub before_accept : ℕ → System
before_accept sc = record {
  sc = sc;
  not_finished = true;
  owner = free;
  at = accepting;
  threads = λ i. absent;
  count = 0;
}

abbrev pub write_thread : (ℕ → ThreadPc) → ℕ → ThreadPc → ℕ → ThreadPc
write_thread threads i p j = if j == i then p else threads j

-- `pthread_cond_signal (&cond_mensaje)`: it unblocks `main` if `main` is blocked, and is lost if not.
abbrev pub signal_main : MainPc → MainPc
signal_main sleeping = woken
signal_main p = p

-- One step. `accept` gives any descriptor (where it fails, `main` returns and the process ends), and
-- `pthread_create` may fail. In order, for `main`: `accept`; `pthread_create`, with either result;
-- the lock; the wait, which gives the mutex back, and takes it again once `main` has been unblocked,
-- by a signal or, as POSIX allows, without one; the reset and the unlock. For a thread: the lock, the
-- copy, the reset of the flag, the signal and the unlock.
pub data Step (s : System) : System → Type 0 where
  accept : (fd : ℕ) → s.at ≡ accepting → Step s (record s { sc = fd; at = creating })
  create :
      s.at ≡ creating
      → Step s (record s {
        at = locking;
        threads = write_thread s.threads s.count (started s.sc);
        count = suc s.count;
      })
  create_fails : s.at ≡ creating → Step s (record s { at = accepting })
  acquire : s.at ≡ locking → s.owner ≡ free → Step s (record s { owner = main; at = testing })
  sleep : s.at ≡ testing → s.not_finished ≡ true → Step s (record s { owner = free; at = sleeping })
  spurious : s.at ≡ sleeping → Step s (record s { at = woken })
  wake : s.at ≡ woken → s.owner ≡ free → Step s (record s { owner = main; at = testing })
  pass :
      s.at ≡ testing
      → s.not_finished ≡ false
      → Step s (record s { not_finished = true; at = unlocking })
  release : s.at ≡ unlocking → Step s (record s { owner = free; at = accepting })
  enter :
      (i fd : ℕ)
      → s.threads i ≡ started fd
      → s.owner ≡ free
      → Step s (record s { owner = thread i; threads = write_thread s.threads i (entered fd) })
  copy :
      (i fd : ℕ)
      → s.threads i ≡ entered fd
      → Step s (record s { threads = write_thread s.threads i (copied fd s.sc) })
  clear :
      (i fd sc : ℕ)
      → s.threads i ≡ copied fd sc
      → Step s
          (record s { not_finished = false; threads = write_thread s.threads i (cleared fd sc) })
  signal :
      (i fd sc : ℕ)
      → s.threads i ≡ cleared fd sc
      → Step s
          (record s { at = signal_main s.at; threads = write_thread s.threads i (signalled fd sc) })
  leave :
      (i fd sc : ℕ)
      → s.threads i ≡ signalled fd sc
      → Step s (record s { owner = free; threads = write_thread s.threads i (serving fd sc) })

pub data Reach (sc : ℕ) : System → Type 0 where
  start : Reach sc (before_accept sc)
  later : {s t : System} → Reach sc s → Step s t → Reach sc t
