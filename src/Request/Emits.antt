-- ===== src/Request/Emits.antt =====
-- Parts of a request that only write to the socket, while no `write` fails.
use ssdd_final.Base.{◌≡◌, ap, ◌∙◌, true, not, List, [], ◌∷◌, ◌++◌, All, if◌then◌else◌}
use mathlib.Core.List.{append-nil, append_assoc}
use ssdd_final.CString.{Bytes}
use ssdd_final.Lines.{ReadEvent, WriteEvent, Written, complete, failed, killed, send_message}
use ssdd_final.Lines.SendMessage.{Works, send_message_whole, send_message-All-Works}
use ssdd_final.Registry.Defs.{ℤ}
use ssdd_final.Request.World.{
  LogCall, World, Outcome, finished, signalled, go, Handler, pure, and_then, ◌>>=◌, ◌>>◌, send,
  send_or_exit, send_error, error_char, close_exit,
}

-- a text as it goes out, with its NUL
abbrev pub ended : Bytes → Bytes
ended s = s ++ 0 ∷ []

-- the world behind some output
abbrev pub emitted : World → Bytes → List WriteEvent → World
emitted w out events = record w { sent = w.sent ++ out; events = events }

-- how a request ends, by what the last `sendMessage` has done
abbrev pub closing : Written → World → Outcome (Unit {0})
closing complete w = finished (record w { closed = true })
closing failed w = finished (record w { closed = true })
closing killed w = signalled w

-- The handler goes on, and has written `out` and done nothing else.
pub record Emits (h : Handler (Unit {0})) (w : World) (out : Bytes) : Type 0 where
  pub events : List WriteEvent
  pub works : All Works events
  pub runs : h w ≡ go tt (emitted w out events)

pub pure-Emits : (w : World) → All Works w.events → Emits (pure tt) w []
pure-Emits w h = record { events = w.events; works = h; runs = rw (append-nil w.sent) }

-- a call of `sendMessage`
pub send_run :
    (w : World) (m : Bytes)
    → All Works w.events
    → send m w ≡ go true (emitted w m (send_message w.events m).2)
unfolding send
send_run w m h = let (ok, all) = send_message_whole w.events m h in rw (ok, all)

pub send_or_exit-Emits : (w : World) (m : Bytes) → All Works w.events → Emits (send_or_exit m) w m
unfolding send_or_exit
send_or_exit-Emits w m h = record {
  events = (send_message w.events m).2;
  works = send_message-All-Works w.events m h;
  runs = ap (λ r. and_then r (λ ok. if ok then pure tt else close_exit)) (send_run w m h);
}

pub send_error-Emits :
    (w : World) (error : ℤ)
    → All Works w.events
    → Emits (send_error error) w (error_char error ∷ 0 ∷ [])
unfolding send_error
send_error-Emits w error h = record {
  events = (send_message w.events (error_char error ∷ 0 ∷ [])).2;
  works = send_message-All-Works w.events _ h;
  runs = ap (λ r. and_then r (λ ok. pure tt)) (send_run w (error_char error ∷ 0 ∷ []) h);
}

-- one part after the other
pub Emits-then :
    {h k : Handler (Unit {0})} {w : World} {a b : Bytes}
    → Emits h w a
    → ((events : List WriteEvent) → All Works events → Emits k (emitted w a events) b)
    → Emits (h >> k) w (a ++ b)
Emits-then {h} {k} {w} {a} {b} e f =
    let g = f e.events e.works in
    record {
      events = g.events;
      works = g.works;
      runs = rw (e.runs, g.runs, append_assoc w.sent a b);
    }

-- The thread has closed the socket behind the output, told the log server once, and left the store.
pub record Replies (w : World) (rest : List ReadEvent) (logged : LogCall) (out : Bytes)
    (r : Outcome (Unit {0})) : Type 0 where
  pub buffer : Bytes
  pub events : List WriteEvent
  pub runs :
      r
      ≡ finished (record w {
        buffer = buffer;
        input = rest;
        events = events;
        sent = w.sent ++ out;
        calls = w.calls ++ logged ∷ [];
        closed = true;
      })

-- an output, then the end of the request
pub Emits-finished :
    {h : Handler (Unit {0})} {w : World} {out : Bytes}
    → (e : Emits h w out)
    → (h >> close_exit {A = Unit {0}}) w
      ≡ finished (record w { events = e.events; sent = w.sent ++ out; closed = true })
unfolding close_exit
Emits-finished e = ap (λ r. and_then r (λ x. close_exit)) e.runs

-- `send_error`, then `close` and `pthread_exit`, which ends all that would follow
pub error_finished :
    (w : World) (error : ℤ) {out : Bytes}
    → (e : Emits (send_error error) w out)
    → ((do send_error error; close_exit {A = Unit {0}}) >> close_exit {A = Unit {0}}) w
      ≡ finished (record w { events = e.events; sent = w.sent ++ out; closed = true })
unfolding close_exit
error_finished w error e =
    ap
      (λ r. and_then (and_then r (λ x. close_exit {A = Unit {0}})) (λ x. close_exit {A = Unit {0}}))
      e.runs

-- `send`, where a failure would end the rest
pub Emits-send :
    {k : Handler (Unit {0})} (w : World) (m : Bytes) {b : Bytes}
    → All Works w.events
    → ((events : List WriteEvent) → All Works events → Emits k (emitted w m events) b)
    → Emits (do ok ← send m; if not ok then pure tt else k) w (m ++ b)
Emits-send {k} w m {b} works f =
    let g = f (send_message w.events m).2 (send_message-All-Works w.events m works) in
    record {
      events = g.events;
      works = g.works;
      runs =
          ap (λ r. and_then r (λ ok. if not ok then pure tt else k)) (send_run w m works)
          ∙ rw (g.runs, append_assoc w.sent m b);
    }
