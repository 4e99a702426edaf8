-- ===== src/Request/Shared.antt =====
-- server/servidor.c: request threads that read their lines into the global `buffer`, with no lock.
-- Each `read` of a byte, each write of a byte into `buffer` and each byte that `sprintf` reads of it
-- is an access of its own.
pub mod Race
use ssdd_final.Base.{
  ℕ, zero, suc, ◌-◌, Bool, true, false, ◌||◌, Option, none, some, List, [], ◌∷◌, ◌++◌, update,
  length, ltb, ◌==◌, if◌then◌else◌,
}
use ssdd_final.CString.{Bytes, max_value_length}
use ssdd_final.Lines.{ReadEvent, byte, interrupted, broken}
use ssdd_final.Threads.{Program, ret, access, ◌>>=◌, ◌>>◌}

-- The connection of one thread: what its client will ever send, and whether it closes behind that.
pub record Socket : Type 0 where
  pub input : List ReadEvent
  pub closes : Bool
  pub closed : Bool

-- What the threads share: `buffer`, byte by byte, the connections, of which each thread uses its own,
-- and whatever else there is.
pub record Shared (Rest : Type 0) : Type 0 where
  pub buffer : ℕ → ℕ
  pub sockets : ℕ → Socket
  pub others : Rest

-- the thread goes on, or has called `pthread_exit`
pub data Ending (A : Type 0) : Type 0 where
  went : A → Ending A
  ended : Ending A

abbrev pub Look : (Rest A : Type 0) → Type 0
Look Rest A = Shared Rest → Option (A × Shared Rest)

module _ {Rest : Type 0} where
  abbrev pub put_socket : ℕ → Socket → Shared Rest → Shared Rest
  put_socket i c s = record s { sockets = update s.sockets i c }

  -- `read (fd, &ch, 1)`, with `none` for 0. There is no step while nothing comes and the client does
  -- not close.
  took_byte : ℕ → List ReadEvent → Look Rest (Option ReadEvent)
  took_byte i [] s = if (s.sockets i).closes then some (none, s) else none
  took_byte i (e ∷ rest) s = some (some e, put_socket i (record (s.sockets i) { input = rest }) s)

  unfoldable pub read_byte : ℕ → Look Rest (Option ReadEvent)
  unfolding took_byte
  read_byte i s = took_byte i (s.sockets i).input s

  -- `*buf = c`, with `buf` at position `at` of `buffer`
  unfoldable pub set_buffer : (at c : ℕ) → Look Rest (Unit {0})
  set_buffer at c s = some (tt, record s { buffer = update s.buffer at c })

  unfoldable pub get_buffer : (at : ℕ) → Look Rest ℕ
  get_buffer at s = some (s.buffer at, s)

  unfoldable pub close_socket : ℕ → Look Rest (Unit {0})
  close_socket i s = some (tt, put_socket i (record (s.sockets i) { closed = true }) s)

  -- one round for each event, and one for the end of the stream
  unfoldable pub rounds : ℕ → Look Rest ℕ
  rounds i s = some (suc (length (s.sockets i).input), s)

  no_object : {A : Type 0} → Program (Shared Rest) A
  no_object = access (λ s. none)

  -- `*buf = '\0'; return totRead;`
  terminate : ℕ → Program (Shared Rest) Bool
  unfolding set_buffer
  terminate at = do access (set_buffer at 0); ret true

  -- What a round of `readLine` does with the result of `read`, and whether the call then returns
  -- without -1; `at` is `totRead`, and `next` the rounds that follow.
  after_read : ℕ → (ℕ → Program (Shared Rest) Bool) → Option ReadEvent → Program (Shared Rest) Bool
  unfolding terminate set_buffer
  after_read at next none = if at == 0 then ret true else terminate at
  after_read at next (some interrupted) = next at
  after_read at next (some broken) = ret false
  after_read at next (some (byte ch)) =
      if ch == b'\n' || ch == 0
      then terminate at
      else (if ltb at (max_value_length - 1)
          then (do access (set_buffer at ch); next (suc at))
          else next at)

  unfoldable pub read_bytes : (n : ℕ) → (i at : ℕ) → Program (Shared Rest) Bool
  unfolding no_object read_byte after_read
  read_bytes zero i at = no_object
  read_bytes (suc n) i at = do event ← access (read_byte i); after_read at (read_bytes n i) event

  -- `readLine (sc, buffer, MAX_VALUE_LENGTH)`
  unfoldable pub read_buffer : ℕ → Program (Shared Rest) Bool
  unfolding rounds read_bytes
  read_buffer i = do n ← access (rounds i); read_bytes n i 0

  -- What `sprintf` copies: the bytes of `buffer` up to the first 0, from position `at` on, behind
  -- those in `copied`. Behind the array there is no object.
  unfoldable pub copy_buffer : (n : ℕ) → (at : ℕ) → (copied : Bytes) → Program (Shared Rest) Bytes
  unfolding no_object get_buffer
  copy_buffer zero at copied = no_object
  copy_buffer (suc n) at copied = do
    c ← access (get_buffer at)
    if c == 0 then ret copied else copy_buffer n (suc at) (copied ++ c ∷ [])

  abbrev pub continue :
      {A B : Type 0}
      → Ending A
      → (A → Program (Shared Rest) (Ending B))
      → Program (Shared Rest) (Ending B)
  continue (went a) k = k a
  continue ended k = ret ended

  -- a line into `buffer`, with the exit where that fails, and its copy
  unfoldable pub get_field : ℕ → Program (Shared Rest) (Ending Bytes)
  unfolding read_buffer copy_buffer close_socket
  get_field i = do
    ok ← read_buffer i
    if ok
        then (do s ← copy_buffer max_value_length 0 []; ret (went s))
        else (do access (close_socket i); ret ended)

  -- what a thread does with a field, where there is one
  infixl 5 ◌then_use◌
  abbrev pub ◌then_use◌ :
      {A B : Type 0}
      → Program (Shared Rest) (Ending A)
      → (A → Program (Shared Rest) (Ending B))
      → Program (Shared Rest) (Ending B)
  p then_use k = p >>= λ e. continue e k
