-- ===== src/Lines.antt =====
-- server/lines.c: messages and lines over a socket.
pub mod ReadLine
pub mod SendMessage
pub mod RecvMessage
use ssdd_final.Base.{
  ℕ, zero, suc, ◌+◌, ◌-◌, Bool, true, false, ◌||◌, Option, none, some, List, [], ◌∷◌, ◌++◌, min,
  ltb, ◌==◌, if◌then◌else◌, length, take, drop,
}
use ssdd_final.CString.{Bytes}
use ssdd_final.Registry.Defs.{ℤ, pos, negsuc}

-- What the next `read` of one byte gives. The end of the list is the end of the stream.
pub data ReadEvent : Type 0 where
  byte : ℕ → ReadEvent
  interrupted : ReadEvent
  broken : ReadEvent

-- `readLine` returns -1 after it has stored some bytes, or 0 with the buffer untouched, or stores a
-- line with its terminator and returns its length.
pub data Line : Type 0 where
  failed : Bytes → Line
  eof : Line
  stored : Bytes → Line

-- the returned number
abbrev pub ret : Line → ℤ
ret (failed s) = negsuc 0
ret eof = pos 0
ret (stored s) = pos (length s)

-- the array after the call
abbrev pub after_line : Line → Bytes → Bytes
after_line (failed s) buffer = s ++ drop (length s) buffer
after_line eof buffer = buffer
after_line (stored s) buffer = s ++ 0 ∷ drop (suc (length s)) buffer

-- at the end of the stream
at_eof : Bytes → Line
at_eof [] = eof
at_eof (c ∷ s) = stored (c ∷ s)

-- The loop: `line` holds the `totRead` bytes that are stored so far. Bytes past `n - 1` are dropped.
-- Also what is left of the stream.
read_loop : ℕ → Bytes → List ReadEvent → Line × List ReadEvent
unfolding at_eof
read_loop n line [] = (at_eof line, [])
read_loop n line (interrupted ∷ rest) = read_loop n line rest
read_loop n line (ReadEvent.broken ∷ rest) = (failed line, rest)
read_loop n line (byte ch ∷ rest) =
    let longer = read_loop n (if ltb (length line) (n - 1) then line ++ ch ∷ [] else line) rest in
    if ch == b'\n' || ch == 0 then (stored line, rest) else longer

-- `n` is the size of the buffer; the callers' buffer is never NULL.
unfoldable pub read_line : ℕ → List ReadEvent → Line × List ReadEvent
unfolding read_loop
read_line n input = if n == 0 then (failed [], input) else read_loop n [] input

-- What a `write` does: it takes at most that many bytes; it fails with -1; or the peer has reset the
-- connection, and SIGPIPE, which nothing in the program handles or blocks, ends the process.
pub data WriteEvent : Type 0 where
  takes : ℕ → WriteEvent
  broken : WriteEvent
  reset : WriteEvent

-- How `sendMessage` ends: it returns 0 or -1, or the process has ended within it.
pub data Written : Type 0 where
  complete : Written
  failed : Written
  killed : Written

-- The loop: `sent` has gone into the socket so far. After the last event the socket takes all that it
-- is given.
unfoldable pub send_loop :
    List WriteEvent → Bytes → (sent : Bytes) → Written × Bytes × List WriteEvent
send_loop [] buffer sent = (complete, sent ++ buffer, [])
send_loop (WriteEvent.broken ∷ events) buffer sent = (Written.failed, sent, events)
send_loop (reset ∷ events) buffer sent = (killed, sent, events)
send_loop (takes k ∷ events) buffer sent =
    let r = min k (length buffer) in
    let rest = send_loop events (drop r buffer) (sent ++ take r buffer) in
    if ltb 0 (length buffer - r) then rest else (complete, sent ++ take r buffer, events)

-- `sendMessage`, with what has gone into the socket, and the events left
unfoldable pub send_message : List WriteEvent → Bytes → Written × Bytes × List WriteEvent
unfolding send_loop
send_message events buffer = send_loop events buffer []

-- What a `read` of `l` bytes does: it gives at most that many of the bytes that have come.
pub data Received : Type 0 where
  full : Bytes → Received
  failed : Received
  out_of_fuel : Received

-- `recvMessage`, on fuel: each round reads from `arrivals`, the pieces in which the peer's bytes
-- come; after the last one `read` returns 0. `none` is a failed `read`.
unfoldable pub recv_loop : ℕ → List (Option Bytes) → (l : ℕ) → (got : Bytes) → Received
recv_loop zero arrivals l got = out_of_fuel
recv_loop (suc fuel) [] l got =
    let rest = recv_loop fuel [] l got in if ltb 0 l then rest else full got
recv_loop (suc fuel) (none ∷ arrivals) l got = Received.failed
recv_loop (suc fuel) (some piece ∷ arrivals) l got =
    let r = min l (length piece) in
    let left = if ltb r (length piece) then some (drop r piece) ∷ arrivals else arrivals in
    let rest = recv_loop fuel left (l - r) (got ++ take r piece) in
    if ltb 0 (l - r) then rest else full (got ++ take r piece)

unfoldable pub recv_message : ℕ → List (Option Bytes) → ℕ → Received
unfolding recv_loop
recv_message fuel arrivals len = recv_loop fuel arrivals len []
