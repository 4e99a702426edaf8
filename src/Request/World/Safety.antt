-- ===== src/Request/World/Safety.antt =====
-- What a request thread keeps true of the store and of `buffer`, step by step, and how it may end.
use ssdd_final.Base.{
  ℕ, zero, suc, ◌≤◌, ◌≡◌, ◌≢◌, refl, All, ◌∙◌, Bool, true, false, List, [], ◌∷◌, ◌++◌, arith,
  length, drop, inl, inr, Bool-cases, if◌then◌else◌, drop_all,
}
use mathlib.Core.List.{append-nil}
use ssdd_final.CString.{Bytes, c_str, IsTerminated}
use ssdd_final.Lines.{
  ReadEvent, Line, failed, eof, stored, read_line, Written, complete, send_message,
}
use ssdd_final.Lines.SendMessage.{Returns, send_message-Returns}
use ssdd_final.Lines.ReadLine.{Stores, read_line-Stores}
use ssdd_final.Registry.Defs.{Store, ℤ, done, Op}
use ssdd_final.Registry.Invariant.{IsValid}
use ssdd_final.Request.World.{
  World, Env, Outcome, go, finished, died, signalled, Handler, and_then, pure, ◌>>=◌, close_exit,
  clear_buffer, took_line, read_field, backend, wrote, send, send_or_exit, send_error, rpc_llamada,
}

-- The store is valid, and the last byte of `buffer` is still 0. Where `quiet` is true, no `write` on
-- the connection raises SIGPIPE.
pub record IsSound (quiet : Bool) (w : World) : Type 0 where
  pub valid : IsValid w.store
  pub ends : drop 255 w.buffer ≡ 0 ∷ []
  pub returns : quiet ≡ true → All Returns w.events

-- `up` is whether the log server can be reached. The thread goes on in a sound world with a result that satisfies `P`; or it has ended in a sound
-- world with its socket closed; or the process has exited because the log server is missing, or has
-- been ended by SIGPIPE. It neither waits for the mutex forever nor uses a pointer to no object.
pub data Safe (quiet up : Bool) {A : Type 0} (P : A → Type 0) : Outcome A → Type 0 where
  went : {a : A} {w : World} → P a → IsSound quiet w → Safe quiet up P (go a w)
  ended : {w : World} → IsSound quiet w → w.closed ≡ true → Safe quiet up P (finished w)
  exited : {w : World} → up ≡ false → IsSound quiet w → Safe quiet up P (died w)
  killed : {w : World} → ¬ (quiet ≡ true) → IsSound quiet w → Safe quiet up P (signalled w)

pub record Keeps (up : Bool) {A : Type 0} (P : A → Type 0) (m : Handler A) : Type 0 where
  pub at : (quiet : Bool) (w : World) → IsSound quiet w → Safe quiet up P (m w)

abbrev pub Any : {A : Type 0} → A → Type 0
Any a = Unit

module _ {up : Bool} {A B : Type 0} {P : A → Type 0} {Q : B → Type 0} where
  Safe-and_then :
      {quiet : Bool} {r : Outcome A} {k : A → Handler B}
      → Safe quiet up P r
      → ((a : A) → P a → Keeps up Q (k a))
      → Safe quiet up Q (and_then r k)
  Safe-and_then (went {a} {w} p s) next = (next a p).at _ w s
  Safe-and_then (ended s c) next = ended s c
  Safe-and_then (exited d s) next = exited d s
  Safe-and_then (killed n s) next = killed n s

  pub bind :
      {m : Handler A} {k : A → Handler B}
      → Keeps up P m
      → ((a : A) → P a → Keeps up Q (k a))
      → Keeps up Q (m >>= k)
  bind m next = record { at = λ q w s. Safe-and_then (m.at q w s) next }

module _ {up : Bool} {A : Type 0} {P : A → Type 0} where
  pub Keeps-pure : (a : A) → P a → Keeps up P (pure a)
  Keeps-pure a p = record { at = λ q w s. went p s }

  pub Keeps-close_exit : Keeps up P close_exit
  unfolding close_exit
  Keeps-close_exit = record {
    at = λ q w s. ended (record { valid = s.valid; ends = s.ends; returns = s.returns }) refl;
  }

  pub Keeps-if :
      (b : Bool) (m n : Handler A) → Keeps up P m → Keeps up P n → Keeps up P (if b then m else n)
  Keeps-if true m n km kn = km
  Keeps-if false m n km kn = kn

  -- a call of list.c that returns a valid store
  pub Keeps-backend :
      (op : Op A)
      → ((s : Store) → IsValid s → (a : A) × (t : Store) × (op s ≡ done a t) × IsValid t × P a)
      → Keeps up P (backend op)
  unfolding backend
  Keeps-backend op returns = record {
    at = λ q w s.
        let (a, t, e, v, p) = returns w.store s.valid in
        rw e (went p (record { valid = v; ends = s.ends; returns = s.returns }));
  }

pub Keeps-clear_buffer : {up : Bool} → Keeps up Any clear_buffer
unfolding clear_buffer
Keeps-clear_buffer = record {
  at = λ q w s. went tt (record { valid = s.valid; ends = refl; returns = s.returns });
}

pub Keeps-send : {up : Bool} (message : Bytes) → Keeps up Any (send message)
unfolding send
Keeps-send message = record {
  at = λ q w s.
      let r = send_message w.events message in
      wrote_Safe q r.0 (record w { sent = w.sent ++ r.1; events = r.2 })
        (record {
          valid = s.valid;
          ends = s.ends;
          returns = λ h. (send_message-Returns w.events message (s.returns h)).1;
        })
        (λ h. (send_message-Returns w.events message (s.returns h)).0);
}
  where
    wrote_Safe :
        {up : Bool} (q : Bool) (r : Written) (w : World)
        → IsSound q w
        → (q ≡ true → r ≢ Written.killed)
        → Safe q up Any (wrote r w)
    wrote_Safe q complete w s n = went tt s
    wrote_Safe q Written.failed w s n = went tt s
    wrote_Safe q Written.killed w s n = killed (λ h. n h refl) s

pub Keeps-send_or_exit : {up : Bool} (message : Bytes) → Keeps up Any (send_or_exit message)
unfolding send_or_exit
Keeps-send_or_exit message =
    bind (Keeps-send message) λ ok _. Keeps-if ok _ _ (Keeps-pure tt tt) Keeps-close_exit

pub Keeps-send_error : {up : Bool} (error : ℤ) → Keeps up Any (send_error error)
unfolding send_error
Keeps-send_error error = bind (Keeps-send _) λ ok _. Keeps-pure tt tt

pub Keeps-rpc_llamada :
    (env : Env) (username operation date file : Bytes)
    → Keeps env.log_up Any (rpc_llamada env username operation date file)
unfolding rpc_llamada
Keeps-rpc_llamada env username operation date file = record {
  at = λ q w s. elim (Bool-cases env.log_up) [
    | inl up ↦ rw up (went tt (record { valid = s.valid; ends = s.ends; returns = s.returns }))
    | inr down ↦ rw down (exited refl s)
  ];
}

-- A write of the first bytes leaves the last one.
pub drop-overwrite :
    (n : ℕ) (s b : Bytes) → length s ≤ n → drop n (s ++ drop (length s) b) ≡ drop n b
drop-overwrite n [] b h = refl
drop-overwrite zero (c ∷ s) b h = absurd (omega arith)
drop-overwrite (suc n) (c ∷ s) [] h = rw append-nil (drop_all n s (omega arith))
drop-overwrite (suc n) (c ∷ s) (d ∷ b) h = drop-overwrite n s b (omega arith)

pub drop-terminate :
    (n : ℕ) (s b : Bytes)
    → length s ≤ n
    → drop n b ≡ 0 ∷ []
    → drop n (s ++ 0 ∷ drop (suc (length s)) b) ≡ 0 ∷ []
drop-terminate zero [] [] h e = cc
drop-terminate zero [] (d ∷ b) h e = ground arith
drop-terminate (suc n) [] [] h e = cc
drop-terminate (suc n) [] (d ∷ b) h e = e
drop-terminate zero (c ∷ s) b h e = absurd (omega arith)
drop-terminate (suc n) (c ∷ s) [] h e = cc
drop-terminate (suc n) (c ∷ s) (d ∷ b) h e = drop-terminate n s b (omega arith) e

length-c_str : (n : ℕ) (b : Bytes) → drop n b ≡ 0 ∷ [] → length (c_str b) ≤ n
unfolding c_str
length-c_str n [] e = omega arith
length-c_str zero (d ∷ b) e = ground arith
length-c_str (suc n) (d ∷ b) e = ground (arith, length-c_str n b)

pub c_str-IsTerminated : (b : Bytes) → drop 255 b ≡ 0 ∷ [] → IsTerminated (c_str b)
c_str-IsTerminated b e = omega (arith, length-c_str 255 b e)

took_line-Safe :
    {up : Bool} (q : Bool) (l : Line) (rest : List ReadEvent) (w : World)
    → IsSound q w
    → Stores 256 l
    → Safe q up IsTerminated (took_line (l, rest) w)
unfolding read_field
took_line-Safe q (failed t) rest w s h =
    ended
      (record {
        valid = s.valid;
        ends = drop-overwrite 255 t w.buffer (omega arith) ∙ s.ends;
        returns = s.returns;
      })
      refl
took_line-Safe q eof rest w s h =
    went (c_str-IsTerminated w.buffer s.ends)
      (record { valid = s.valid; ends = s.ends; returns = s.returns })
took_line-Safe q (stored t) rest w s h =
    let e = drop-terminate 255 t w.buffer (omega arith) s.ends in
    went (c_str-IsTerminated _ e) (record { valid = s.valid; ends = e; returns = s.returns })

-- Each field that is read fits an array of 256 bytes with its terminator.
pub Keeps-read_field : {up : Bool} → Keeps up IsTerminated read_field
unfolding read_field
Keeps-read_field = record {
  at = λ q w s.
      let r = read_line 256 w.input in
      took_line-Safe q r.0 r.1 w s (read_line-Stores 256 w.input (omega arith));
}
