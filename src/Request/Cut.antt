-- ===== src/Request/Cut.antt =====
-- The reply to a query, whichever `write` fails: a code, then a body.
pub mod Users
pub mod Files
use ssdd_final.Base.{◌≡◌, ◌≢◌, ◌∙◌, ap, Bool, true, List, [], ◌∷◌, ◌++◌, All}
use mathlib.Core.List.{append-nil, append_assoc}
use ssdd_final.CString.{Bytes}
use ssdd_final.Lines.{ReadEvent, WriteEvent, Written, killed}
use ssdd_final.Lines.SendMessage.{Returns}
use ssdd_final.Registry.Defs.{ℤ}
use ssdd_final.Request.World.{
  LogCall, World, Outcome, Handler, pure, and_then, ◌>>=◌, ◌>>◌, send_error, error_char, close_exit,
}
use ssdd_final.Request.Emits.{closing, emitted}
use ssdd_final.Request.Parts.{
  IsPart, all-IsPart, nothing-IsPart, whole, cut, lost, send_cases, Ends,
}

-- `send_error` and what follows it, which does not depend on whether the code has gone out
pub record Answers (h : Handler (Unit {0})) (w : World) (code body : Bytes) : Type 0 where
  pub events : List WriteEvent
  pub code_part : Bytes
  pub body_part : Bytes
  pub last : Written
  pub code_begins : IsPart code_part code
  pub body_begins : IsPart body_part body
  pub survives : All Returns w.events → last ≢ killed
  pub runs :
      (h >> close_exit {A = Unit {0}}) w
      ≡ closing last (record w { events = events; sent = w.sent ++ (code_part ++ body_part) })

pub send_error-Answers :
    {k : Handler (Unit {0})} (w : World) (error : ℤ) {body : Bytes}
    → ((part : Bytes) (events : List WriteEvent) → Ends k (emitted w part events) body)
    → Answers (do send_error error; k) w (error_char error ∷ 0 ∷ []) body
unfolding send_error close_exit
send_error-Answers {k} w error {body} f =
    let code = error_char error ∷ 0 ∷ [] in
    let behind : Outcome Bool → Outcome (Unit {0}) =
      λ r. and_then (and_then (and_then r (λ ok. pure tt)) (λ x. k)) (λ x. close_exit) in
    elim (send_cases w code) [
      | whole events goes e ↦
          let g = f code events in
          record {
            events = g.events;
            code_part = code;
            body_part = g.part;
            last = g.last;
            code_begins = all-IsPart code;
            body_begins = g.begins;
            survives = λ r. g.survives (goes r);
            runs = ap behind e ∙ rw (g.runs, append_assoc w.sent code g.part);
          }
      | cut {part} events p goes e ↦
          let g = f part events in
          record {
            events = g.events;
            code_part = part;
            body_part = g.part;
            last = g.last;
            code_begins = p;
            body_begins = g.begins;
            survives = λ r. g.survives (goes r);
            runs = ap behind e ∙ rw (g.runs, append_assoc w.sent part g.part);
          }
      | lost {part} events p raises e ↦ record {
        events = events;
        code_part = part;
        body_part = [];
        last = killed;
        code_begins = p;
        body_begins = nothing-IsPart body;
        survives = λ r x. raises r;
        runs = ap behind e ∙ rw (append-nil part);
      }
    ]

-- The thread has sent a first part of the code and a first part of the body, told the log server
-- once, and left the store. It has ended with the socket closed; or the process has ended, which it
-- does only where a `write` raises SIGPIPE.
pub record Cut (w : World) (rest : List ReadEvent) (logged : LogCall) (code body : Bytes)
    (r : Outcome (Unit {0})) : Type 0 where
  pub buffer : Bytes
  pub events : List WriteEvent
  pub code_part : Bytes
  pub body_part : Bytes
  pub last : Written
  pub code_begins : IsPart code_part code
  pub body_begins : IsPart body_part body
  pub survives : All Returns w.events → last ≢ killed
  pub runs :
      r
      ≡ closing last (record w {
        buffer = buffer;
        input = rest;
        events = events;
        sent = w.sent ++ (code_part ++ body_part);
        calls = w.calls ++ logged ∷ [];
      })

-- the same, where the request begins in another world
pub Cut-from :
    {w : World} {rest : List ReadEvent} {buffer : Bytes} {logged : LogCall} {code body : Bytes}
    {r r' : Outcome (Unit {0})}
    → r ≡ r'
    → Cut (record w { input = rest; buffer = buffer }) rest logged code body r'
    → Cut w rest logged code body r
Cut-from e c = record {
  buffer = c.buffer;
  events = c.events;
  code_part = c.code_part;
  body_part = c.body_part;
  last = c.last;
  code_begins = c.code_begins;
  body_begins = c.body_begins;
  survives = c.survives;
  runs = e ∙ c.runs;
}
