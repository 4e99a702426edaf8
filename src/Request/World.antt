-- ===== src/Request/World.antt =====
-- server/servidor.c: what a request thread reads and writes, and the calls that its branches share.
pub mod Safety
use ssdd_final.Base.{
  ℕ, suc, ◌+◌, ◌-◌, ◌%◌, Bool, true, false, Option, List, [], ◌∷◌, ◌++◌, if◌then◌else◌,
}
use ssdd_final.CString.{Bytes, c_str, zeros, max_value_length}
use ssdd_final.Lines.{
  ReadEvent, WriteEvent, Line, failed, eof, stored, after_line, read_line, Written, complete,
  killed, send_message,
}
use ssdd_final.Registry.Defs.{Store, ℤ, pos, negsuc, Run, done, blocked, fault, Op}

-- the arguments of a call of `print_1`
pub record LogCall : Type 0 where
  pub username : Bytes
  pub operation : Bytes
  pub date : Bytes
  pub file : Bytes

-- What a thread can reach: the store of list.c, the global `buffer`, its socket, and the log server.
-- `sent` is what has been written to the socket, `closed` whether `close (sc)` has been called.
pub record World : Type 0 where
  pub store : Store
  pub buffer : Bytes
  pub input : List ReadEvent
  pub events : List WriteEvent
  pub sent : Bytes
  pub calls : List LogCall
  pub closed : Bool

-- What the system gives a request: the seven `malloc` of its beginning, those of list.c, that of a
-- response, the text of the peer's address, and whether the log server can be reached.
pub record Env : Type 0 where
  pub buffers : Bool
  pub room : Bool
  pub first : Bool
  pub rooms : ℕ → Bool
  pub peer : Option Bytes
  pub log_up : Bool

-- The thread goes on, or has called `pthread_exit`; or the process has called `exit (1)`, or a signal
-- has ended it; or the thread waits for the mutex forever, or it has used a pointer to no object.
pub data Outcome (A : Type 0) : Type 0 where
  go : A → World → Outcome A
  finished : World → Outcome A
  died : World → Outcome A
  signalled : World → Outcome A
  waits : Outcome A
  crashed : Outcome A

abbrev pub Handler : Type 0 → Type 0
Handler A = World → Outcome A

abbrev pub pure : {A : Type 0} → A → Handler A
pure = go

module _ {A B : Type 0} where
  abbrev pub and_then : Outcome A → (A → Handler B) → Outcome B
  and_then (go a w) k = k a w
  and_then (finished w) k = finished w
  and_then (died w) k = died w
  and_then (signalled w) k = signalled w
  and_then waits k = waits
  and_then crashed k = crashed

  infixl 5 ◌>>=◌ ◌>>◌
  abbrev pub ◌>>=◌ : Handler A → (A → Handler B) → Handler B
  m >>= k = λ w. and_then (m w) k

  abbrev pub ◌>>◌ : Handler A → Handler B → Handler B
  m >> n = m >>= λ _. n

-- `close (sc); pthread_exit (0);`
unfoldable pub close_exit : {A : Type 0} → Handler A
close_exit w = finished (record w { closed = true })

unfoldable pub crash : {A : Type 0} → Handler A
crash w = crashed

-- `memset (buffer, 0, MAX_VALUE_LENGTH)`
unfoldable pub clear_buffer : Handler (Unit {0})
clear_buffer w = go tt (record w { buffer = zeros })

-- the line read, with the world after the call of `readLine`
unfoldable pub took_line : Line × List ReadEvent → Handler Bytes
unfolding close_exit
took_line (failed s, rest) w =
    close_exit (record w { input = rest; buffer = after_line (failed s) w.buffer })
took_line (eof, rest) w = go (c_str w.buffer) (record w { input = rest })
took_line (stored s, rest) w =
    let buffer = after_line (stored s) w.buffer in
    go (c_str buffer) (record w { input = rest; buffer = buffer })

-- `if (readLine (sc, buffer, MAX_VALUE_LENGTH) < 0) { …; close (sc); pthread_exit (0); }`, and the
-- string that `buffer` then holds, which `sprintf` copies.
unfoldable pub read_field : Handler Bytes
unfolding took_line
read_field w = took_line (read_line max_value_length w.input) w

took_result : {A : Type 0} → Run A → Handler A
took_result (done a s) w = go a (record w { store = s })
took_result blocked w = waits
took_result fault w = crashed

-- a call of list.c
unfoldable pub backend : {A : Type 0} → Op A → Handler A
unfolding took_result
backend op w = took_result (op w.store) w

pub wrote : Written → Handler Bool
wrote complete w = go true w
wrote Written.failed w = go false w
wrote killed w = signalled w

-- `sendMessage`, and whether it returns 0
unfoldable pub send : Bytes → Handler Bool
unfolding wrote
send message w =
    let (written, out, events) = send_message w.events message in
    wrote written (record w { sent = w.sent ++ out; events = events })

-- `if (sendMessage (…) < 0) { …; close (sc); pthread_exit (0); }`
unfoldable pub send_or_exit : Bytes → Handler (Unit {0})
unfolding send close_exit
send_or_exit message = do ok ← send message; if ok then pure tt else close_exit

-- `error_str[0] = '0' + error`, in a `char`
abbrev pub error_char : ℤ → ℕ
error_char (pos n) = (b'0' + n) % 256
error_char (negsuc n) = (b'0' + 256 - suc n) % 256

-- A failure of `sendMessage` is reported on the terminal and changes nothing else.
unfoldable pub send_error : ℤ → Handler (Unit {0})
unfolding send
send_error error = do ok ← send (error_char error ∷ 0 ∷ []); pure tt

-- `create_client` ends the process if the log server cannot be reached. What the call itself
-- returns is only reported on the terminal.
unfoldable pub rpc_llamada : Env → (username operation date file : Bytes) → Handler (Unit {0})
rpc_llamada env username operation date file w =
    if env.log_up
    then go tt (record w {
      calls =
          w.calls
          ++ (record { username = username; operation = operation; date = date; file = file } ∷ []);
    })
    else died w
