-- ===== src/Request/Fields.antt =====
-- server/servidor.c: the fields of a message, and how `treat_request` reads them.
use ssdd_final.Base.{
  suc, ◌≡◌, ◌≤◌, refl, ap, inr, List, [], ◌∷◌, ◌++◌, arith, length, drop, take_all,
}
use ssdd_final.CString.{Bytes, c_str-terminated, zeros, IsTerminated, IsLine}
use ssdd_final.Lines.{ReadEvent, byte}
use ssdd_final.Lines.ReadLine.{Carries, read_line-Carries}
use ssdd_final.Request.World.{World, go, Handler, and_then, ◌>>=◌, ◌>>◌, clear_buffer, read_field}

-- A field of a message: it has no end of line in it and fits the buffer.
abbrev pub IsField : Bytes → Type 0
IsField s = IsLine s × IsTerminated s

-- The stream brings these fields, each ended by a NUL, with interruptions anywhere, then `rest`.
pub data Delivers (rest : List ReadEvent) : List Bytes → List ReadEvent → Type 0 where
  over : Delivers rest [] rest
  field :
      {s : Bytes} {ss : List Bytes} {later events : List ReadEvent}
      → Carries (byte 0 ∷ later) s events
      → Delivers rest ss later
      → Delivers rest (s ∷ ss) events

-- the world behind a field
abbrev pub got : World → List ReadEvent → Bytes → World
got w rest s = record w { input = rest; buffer = s ++ 0 ∷ drop (suc (length s)) w.buffer }

pub read_field-run :
    (w : World) (s : Bytes) (rest : List ReadEvent)
    → IsField s
    → Carries (byte 0 ∷ rest) s w.input
    → read_field w ≡ go s (got w rest s)
unfolding read_field
read_field-run w s rest f c =
    let fits : length s ≤ 255 = omega (arith, f.1) in
    rw (
      read_line-Carries 256 s 0 w.input (omega arith) f.0 (inr refl) c,
      take_all 255 s fits,
      c_str-terminated s _ f.0,
    )

-- the world behind `memset` and a field
abbrev pub next : World → List ReadEvent → Bytes → World
next w rest s = got (record w { buffer = zeros }) rest s

pub next_field :
    {A : Type 0} (k : Bytes → Handler A) (w : World) (s : Bytes) (rest : List ReadEvent)
    → IsField s
    → Carries (byte 0 ∷ rest) s w.input
    → (do clear_buffer; s' ← read_field; k s') w ≡ k s (next w rest s)
unfolding clear_buffer
next_field k w s rest f c =
    ap (λ r. and_then r k) (read_field-run (record w { buffer = zeros }) s rest f c)
