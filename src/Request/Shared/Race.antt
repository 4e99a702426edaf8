-- ===== src/Request/Shared/Race.antt =====
-- Two threads of server/servidor.c that read a field at the same time.
use ssdd_final.Base.{
  ℕ, zero, suc, ◌+◌, ◌≡◌, ◌≢◌, ◌≤◌, ◌<◌, ◌==◌, refl, sym, ap, ◌∙◌, Bool, true, false, some, List,
  [], ◌∷◌, ◌++◌, arith, length, ltb, update, update-same, update-other,
}
use mathlib.Core.List.{append-nil, append_assoc}
use ssdd_final.CString.{Bytes, IsLine}
use ssdd_final.Lines.{ReadEvent, byte}
use ssdd_final.Lines.ReadLine.{Carries, here, next, again}
use ssdd_final.Threads.{Program, ret, System, Reach, start, ◌>>=◌}
use ssdd_final.Threads.Alone.{Runs, stop, go, Runs-bind, Runs-Ran}
use ssdd_final.Request.Fields.{IsField}
use ssdd_final.Request.Shared.{
  Shared, Ending, went, put_socket, read_byte, set_buffer, get_buffer, rounds, read_bytes,
  read_buffer, copy_buffer, get_field, continue, ◌then_use◌,
}

-- `buffer` holds this string from a position on.
Holds : (ℕ → ℕ) → ℕ → Bytes → Type 0
Holds buffer at [] = buffer at ≡ 0
Holds buffer at (c ∷ s) = (buffer at ≡ c) × Holds buffer (suc at) s

module _ {Rest : Type 0} where
  -- what a thread leaves that has read a field on its own
  record Reads (p : Program (Shared Rest) Bool) (m : Shared Rest) (i at : ℕ) (s : Bytes)
      : Type 1 where
    after : Shared Rest
    runs : Runs p m (ret true) after
    holds : Holds after.buffer at s
    before : (q : ℕ) → q < at → after.buffer q ≡ m.buffer q
    apart : (j : ℕ) → j ≢ i → after.sockets j ≡ m.sockets j

  -- behind a byte that has been read, the socket holds the rest
  taken : ℕ → List ReadEvent → Shared Rest → Shared Rest
  taken i rest m = put_socket i (record (m.sockets i) { input = rest }) m

  taken-input :
      (i : ℕ) (rest : List ReadEvent) (m : Shared Rest) → ((taken i rest m).sockets i).input ≡ rest
  unfolding taken
  taken-input i rest m = ap (λ c. c.input) (update-same m.sockets i _)

  read_byte-run :
      (i : ℕ) (e : ReadEvent) (rest : List ReadEvent) (m : Shared Rest)
      → (m.sockets i).input ≡ e ∷ rest
      → read_byte i m ≡ some (some e, taken i rest m)
  unfolding read_byte taken
  read_byte-run i e rest m h = rw h refl

  read_bytes-Reads :
      (n i at : ℕ) (s : Bytes) (m : Shared Rest) (rest events : List ReadEvent)
      → IsLine s
      → at + length s ≤ 255
      → length events ≤ n
      → (m.sockets i).input ≡ events
      → Carries (byte 0 ∷ rest) s events
      → Reads (read_bytes n i at) m i at s
  unfolding read_bytes taken set_buffer Holds
  read_bytes-Reads zero i at s m rest events l f h e here = absurd (omega (arith, h))
  read_bytes-Reads zero i at s m rest events l f h e (next c) = absurd (omega (arith, h))
  read_bytes-Reads zero i at s m rest events l f h e (again c) = absurd (omega (arith, h))
  read_bytes-Reads (suc n) i at [] m rest events l f h e here =
      let m₁ = taken i rest m in
      let m₂ : Shared Rest = record m₁ { buffer = update m.buffer at 0 } in
      record {
        after = m₂;
        runs = go (some (byte 0)) m₁ (read_byte-run i (byte 0) rest m e) (go tt m₂ refl (stop _ _));
        holds = update-same m.buffer at 0;
        before = λ q b. update-other m.buffer at 0 q (λ x. omega (arith, b, x));
        apart = λ j d. update-other m.sockets i _ j d;
      }
  read_bytes-Reads (suc n) i at s m rest events l f h e (again {events = more} c) =
      let m₁ = taken i more m in
      let r =
        read_bytes-Reads n i at s m₁ rest more l f (omega (arith, h)) (taken-input i more m) c in
      record {
        after = r.after;
        runs = go _ m₁ (read_byte-run i _ more m e) r.runs;
        holds = r.holds;
        before = r.before;
        apart = λ j d. r.apart j d ∙ update-other m.sockets i _ j d;
      }
  read_bytes-Reads (suc n) i at (c ∷ s) m rest events l f h e (next {events = more} d) =
      let m₁ = taken i more m in
      let m₂ : Shared Rest = record m₁ { buffer = update m.buffer at c } in
      let room : ltb at 255 ≡ true = ground (arith, f) in
      let r =
        read_bytes-Reads n i (suc at) s m₂ rest more l.1 (omega (arith, f)) (omega (arith, h))
          (taken-input i more m) d in
      record {
        after = r.after;
        runs =
            go (some (byte c)) m₁ (read_byte-run i (byte c) more m e)
              (rw (l.0, room) (go tt m₂ refl r.runs));
        holds = (r.before at (omega arith) ∙ update-same m.buffer at c, r.holds);
        before = λ q b.
            r.before q (omega (arith, b)) ∙ update-other m.buffer at c q (λ x. omega (arith, b, x));
        apart = λ j x. r.apart j x ∙ update-other m.sockets i _ j x;
      }

  read_buffer-Reads :
      (i : ℕ) (s : Bytes) (m : Shared Rest) (rest : List ReadEvent)
      → IsField s
      → Carries (byte 0 ∷ rest) s (m.sockets i).input
      → Reads (read_buffer i) m i 0 s
  unfolding read_buffer rounds
  read_buffer-Reads i s m rest f c =
      let r =
        read_bytes-Reads (suc (length (m.sockets i).input)) i 0 s m rest (m.sockets i).input f.0
          (omega (arith, f.1)) (omega arith) refl c in
      record {
        after = r.after;
        runs = go _ m refl r.runs;
        holds = r.holds;
        before = r.before;
        apart = r.apart;
      }

  -- what a thread copies from `buffer`, whoever has read it
  Runs-copy_buffer :
      (n at : ℕ) (s copied : Bytes) (m : Shared Rest)
      → length s < n
      → IsLine s
      → Holds m.buffer at s
      → Runs (copy_buffer n at copied) m (ret (copied ++ s)) m
  unfolding copy_buffer get_buffer Holds
  Runs-copy_buffer zero at s copied m f l h = absurd (omega (arith, f))
  Runs-copy_buffer (suc n) at [] copied m f l h =
      go (m.buffer at) m refl (rw (h, append-nil copied) (stop _ _))
  Runs-copy_buffer (suc n) at (c ∷ s) copied m f l h =
      let more : (c == 0) ≡ false = ground (arith, l.0) in
      go (m.buffer at) m refl (
        rw (h.0, more, ← append_assoc copied (c ∷ []) s)
          (Runs-copy_buffer n (suc at) s (copied ++ c ∷ []) m (omega (arith, f)) l.1 h.1))

module _ {Rest A : Type 0} where
  -- what a thread has still to do behind `readLine`
  copies : (Bytes → Program (Shared Rest) (Ending A)) → Program (Shared Rest) (Ending A)
  copies k = (copy_buffer 256 0 [] >>= λ s. ret (went s)) then_use k

  Runs-line :
      (i : ℕ) (k : Bytes → Program (Shared Rest) (Ending A)) (m n : Shared Rest)
      → Runs (read_buffer i) m (ret true) n
      → Runs (get_field i then_use k) m (copies k) n
  unfolding get_field copies
  Runs-line i k m n r = Runs-bind (λ e. continue e k) (Runs-bind _ r)

  -- In a state where two different threads are about to read a field into `buffer` and copy it, and
  -- whatever the other threads are doing: when the next bytes for the first are the field `a` and
  -- those for the second the field `b`, each ended by a NUL, with no NUL and no newline inside and
  -- short enough for `buffer`, then a state can be reached in which the first goes on with `b`, the
  -- field of the other client.
  pub get_field_race :
      (s : System (Shared Rest) (Ending A)) (i j : ℕ)
      (k k' : Bytes → Program (Shared Rest) (Ending A)) (a b : Bytes) (rest rest' : List ReadEvent)
      → i ≢ j
      → s.threads i ≡ (get_field i then_use k)
      → s.threads j ≡ (get_field j then_use k')
      → IsField a
      → IsField b
      → Carries (byte 0 ∷ rest) a (s.mem.sockets i).input
      → Carries (byte 0 ∷ rest') b (s.mem.sockets j).input
      → (t : System (Shared Rest) (Ending A)) × Reach s t × (t.threads i ≡ k b)
  unfolding copies
  get_field_race s i j k k' a b rest rest' n e e' fa fb ca cb =
      let first = read_buffer-Reads i a s.mem rest fa ca in
      let input : (first.after.sockets j).input ≡ (s.mem.sockets j).input =
        ap (λ c. c.input) (first.apart j (λ x. n (sym x))) in
      let second = read_buffer-Reads j b first.after rest' fb (rw input cb) in
      let one = Runs-Ran s s i (Runs-line i k s.mem first.after first.runs) start refl e in
      let two =
        Runs-Ran s one.after j (Runs-line j k' first.after second.after second.runs) one.reached
          one.mem (one.others j (λ x. n (sym x)) ∙ e') in
      let three =
        Runs-Ran s two.after i
          (Runs-bind (λ e. continue e k)
            (Runs-bind (λ s. ret (went s))
              (Runs-copy_buffer 256 0 b [] second.after fb.1 fb.0 second.holds)))
          two.reached two.mem (two.others i n ∙ one.here) in
      (three.after, three.reached, three.here)
