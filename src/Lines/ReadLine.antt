-- ===== src/Lines/ReadLine.antt =====
-- `readLine` of server/lines.c: which line it stores, what it leaves in the stream, and its bounds.
use ssdd_final.Base.{
  ℕ, zero, suc, ◌-◌, ◌<◌, ◌≡◌, refl, true, false, ◌||◌, List, [], ◌∷◌, ◌++◌, arith, ltb, ◌==◌,
  if◌then◌else◌, length, take, length-append, All-append, inl, inr, Bool-cases, ◌⊎◌,
}
use mathlib.Core.List.{append-nil, append_assoc}
use ssdd_final.CString.{Bytes, IsLineByte, IsLine}
use ssdd_final.Lines.{
  ReadEvent, byte, interrupted, broken, Line, failed, eof, stored, at_eof, read_loop, read_line,
}

-- The stream `events` gives these bytes, perhaps with interruptions, and then goes on as `rest`.
pub data Carries (rest : List ReadEvent) : Bytes → List ReadEvent → Type 0 where
  here : Carries rest [] rest
  next :
      {c : ℕ} {s : Bytes} {events : List ReadEvent}
      → Carries rest s events
      → Carries rest (c ∷ s) (byte c ∷ events)
  again :
      {s : Bytes} {events : List ReadEvent}
      → Carries rest s events
      → Carries rest s (interrupted ∷ events)

-- the line after one more byte
abbrev grow : ℕ → Bytes → ℕ → Bytes
grow n line c = if ltb (length line) (n - 1) then line ++ c ∷ [] else line

-- the line so far, with as much of `s` as has room
abbrev fill : ℕ → Bytes → Bytes → Bytes
fill n line s = line ++ take (n - suc (length line)) s

fill-cons :
    (n : ℕ) (line : Bytes) (c : ℕ) (s : Bytes) → fill n (grow n line c) s ≡ fill n line (c ∷ s)
fill-cons n line c s = elim (Bool-cases (ltb (length line) (n - 1))) [
  | inl room ↦
      let e : n - suc (length line) ≡ suc (n - suc (suc (length line))) = ground arith in
      let e' : length (line ++ c ∷ []) ≡ suc (length line) =
        omega (arith, length-append line (c ∷ [])) in
      rw (room, e, e', append_assoc)
  | inr no_room ↦ let e : n - suc (length line) ≡ 0 = ground arith in rw (no_room, e)
]

fill-nil : (n : ℕ) (line : Bytes) → fill n line [] ≡ line
fill-nil n line = none_left (n - suc (length line))
  where
    none_left : (k : ℕ) → line ++ take k [] ≡ line
    none_left zero = append-nil line
    none_left (suc k) = append-nil line

-- a stretch of the stream with no end of line in it
read_loop-Carries :
    (n : ℕ) {rest : List ReadEvent} (line s : Bytes) (events : List ReadEvent)
    → IsLine s
    → Carries rest s events
    → read_loop n line events ≡ read_loop n (fill n line s) rest
unfolding read_line
read_loop-Carries n line [] events h here = rw fill-nil
read_loop-Carries n line s events h (again c) = read_loop-Carries n line s _ h c
read_loop-Carries n line (b ∷ s) events h (next c) =
    rw (h.0, ← fill-cons n line b s) (read_loop-Carries n (grow n line b) s _ h.1 c)

-- Where the stream brings the bytes of `s`, none of them a newline or a NUL, and then a newline or
-- a NUL, with interruptions anywhere, `readLine` with a buffer of `n` bytes stores the first
-- `n - 1` bytes of `s`, and reads up to that end of line and no further.
pub read_line-Carries :
    (n : ℕ) (s : Bytes) (end : ℕ) {rest : List ReadEvent} (events : List ReadEvent)
    → 0 < n
    → IsLine s
    → (end ≡ b'\n') ⊎ (end ≡ 0)
    → Carries (byte end ∷ rest) s events
    → read_line n events ≡ (stored (take (n - 1) s), rest)
unfolding read_line
read_line-Carries n s end events pos h stop c =
    let go : (n == 0) ≡ false = ground arith in
    let halt : (end == b'\n' || end == 0) ≡ true = ground arith in
    rw (go, read_loop-Carries n [] s events h c, halt)

-- what `readLine` makes of the bytes before the end of the stream
abbrev pub last_line : ℕ → Bytes → Line
last_line n [] = eof
last_line n (c ∷ s) = stored (take n (c ∷ s))

at_eof-take : (n : ℕ) (s : Bytes) → 0 < n → at_eof (take n s) ≡ last_line n s
unfolding read_line
at_eof-take zero s h = absurd (omega arith)
at_eof-take (suc n) [] h = refl
at_eof-take (suc n) (c ∷ s) h = refl

-- Where the stream ends after the bytes of `s`, none of them a newline or a NUL, `readLine` stores
-- the first `n - 1` of them; if there is none it returns 0 and leaves the buffer as it was.
read_line-eof :
    (n : ℕ) (s : Bytes) (events : List ReadEvent)
    → 1 < n
    → IsLine s
    → Carries [] s events
    → read_line n events ≡ (last_line (n - 1) s, [])
unfolding read_line
read_line-eof n s events pos h c =
    let go : (n == 0) ≡ false = ground arith in
    let some_room : 0 < n - 1 = omega arith in
    rw (go, read_loop-Carries n [] s events h c, at_eof-take (n - 1) s some_room)

-- what a call may store: fewer than `n` bytes, so that the terminator fits, and no end of line
abbrev pub Stores : ℕ → Line → Type 0
Stores n (failed s) = (length s < n) × IsLine s
Stores n eof = Unit
Stores n (stored s) = (length s < n) × IsLine s

at_eof-Stores : (n : ℕ) (s : Bytes) → length s < n → IsLine s → Stores n (at_eof s)
unfolding read_line
at_eof-Stores n [] h l = tt
at_eof-Stores n (c ∷ s) h l = (h, l)

grow-Stores :
    (n : ℕ) (line : Bytes) (ch : ℕ)
    → length line < n
    → IsLine line
    → IsLineByte ch
    → (length (grow n line ch) < n) × IsLine (grow n line ch)
grow-Stores n line ch h l b = elim (Bool-cases (ltb (length line) (n - 1))) [
  | inl room ↦
      rw room (
        ground (arith, length-append line (ch ∷ [])),
        All-append IsLineByte line (ch ∷ []) l (b, tt),
      )
  | inr no_room ↦ rw no_room (h, l)
]

read_loop-Stores :
    (n : ℕ) (line : Bytes) (events : List ReadEvent)
    → length line < n
    → IsLine line
    → Stores n (read_loop n line events).0
unfolding read_line
read_loop-Stores n line [] h l = at_eof-Stores n line h l
read_loop-Stores n line (interrupted ∷ events) h l = read_loop-Stores n line events h l
read_loop-Stores n line (broken ∷ events) h l = (h, l)
read_loop-Stores n line (byte ch ∷ events) h l = elim (Bool-cases (ch == b'\n' || ch == 0)) [
  | inl stop ↦ rw stop (h, l)
  | inr go ↦
      let (h', l') = grow-Stores n line ch h l go in
      rw go (read_loop-Stores n (grow n line ch) events h' l')
]

-- Whatever the stream does, `readLine` with a buffer of `n` bytes stores fewer than `n` bytes before
-- the terminator, and neither a newline nor a NUL among them.
pub read_line-Stores : (n : ℕ) (events : List ReadEvent) → 0 < n → Stores n (read_line n events).0
unfolding read_line
read_line-Stores n events h =
    let go : (n == 0) ≡ false = ground arith in rw go (read_loop-Stores n [] events h tt)
