-- ===== src/Threads.antt =====
-- Threads that share memory under one mutex, a shared access at a time. server/list.c is such a
-- program: each of its operations takes `mutex`, reads and writes the list, and gives `mutex` back.
pub mod Alone
pub mod Discipline
use ssdd_final.Base.{ℕ, ◌≡◌, refl, ap, fun_ext, Option, none, some, update}

-- What a thread has still to do. An access gives a value and the memory after it; with `none` there
-- is no step: it is an access to no object, or one that has to wait.
pub data Program (Mem A : Type 0) : Type 1 where
  ret : A → Program Mem A
  lock : Program Mem A → Program Mem A
  unlock : Program Mem A → Program Mem A
  act : {R : Type 0} → (Mem → Option (R × Mem)) → (R → Program Mem A) → Program Mem A

module _ {Mem : Type 0} where
  abbrev pub access : {R : Type 0} → (Mem → Option (R × Mem)) → Program Mem R
  access f = act f ret

  abbrev pub locking : Program Mem (Unit {0})
  locking = lock (ret tt)

  abbrev pub unlocking : Program Mem (Unit {0})
  unlocking = unlock (ret tt)

  module _ {A B : Type 0} where
    infixl 5 ◌>>=◌ ◌>>◌
    abbrev pub ◌>>=◌ : Program Mem A → (A → Program Mem B) → Program Mem B
    ret a >>= k = k a
    lock p >>= k = lock (p >>= k)
    unlock p >>= k = unlock (p >>= k)
    act f p >>= k = act f (λ r. p r >>= k)

    abbrev pub ◌>>◌ : Program Mem A → Program Mem B → Program Mem B
    p >> q = p >>= λ _. q

  pub bind_assoc :
      {A B C : Type 0} (p : Program Mem A) (f : A → Program Mem B) (g : B → Program Mem C)
      → ((p >>= f) >>= g) ≡ (p >>= λ a. f a >>= g)
  bind_assoc (ret a) f g = refl
  bind_assoc (lock p) f g = ap lock (bind_assoc p f g)
  bind_assoc (unlock p) f g = ap unlock (bind_assoc p f g)
  bind_assoc (act h p) f g = ap (act h) (fun_ext λ r. bind_assoc (p r) f g)

-- `owner` is the thread that holds the mutex.
pub record System (Mem A : Type 0) : Type 1 where
  pub mem : Mem
  pub owner : Option ℕ
  pub threads : ℕ → Program Mem A

module _ {Mem A : Type 0} where
  -- One step of one thread. The mutex is not recursive; giving it back does not ask who holds it.
  pub data Step (s : System Mem A) : System Mem A → Type 1 where
    locks :
        (i : ℕ) (p : Program Mem A)
        → s.threads i ≡ lock p
        → s.owner ≡ none
        → Step s (record s { owner = some i; threads = update s.threads i p })
    unlocks :
        (i : ℕ) (p : Program Mem A)
        → s.threads i ≡ unlock p
        → Step s (record s { owner = none; threads = update s.threads i p })
    acts :
        {R : Type 0} (i : ℕ) (f : Mem → Option (R × Mem)) (k : R → Program Mem A) (r : R) (m : Mem)
        → s.threads i ≡ act f k
        → f s.mem ≡ some (r, m)
        → Step s (record s { mem = m; threads = update s.threads i (k r) })

  pub data Reach (s : System Mem A) : System Mem A → Type 1 where
    start : Reach s s
    later : {t u : System Mem A} → Reach s t → Step t u → Reach s u
