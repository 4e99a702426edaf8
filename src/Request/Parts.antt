-- ===== src/Request/Parts.antt =====
-- Messages of a request, whether each `write` takes them, fails or raises SIGPIPE: what has gone out.
use ssdd_final.Base.{
  ◌≡◌, ◌≢◌, refl, ◌∙◌, ap, sym, Bool, true, false, not, List, [], ◌++◌, if◌then◌else◌, All,
}
use mathlib.Core.List.{append-nil, append_assoc}
use ssdd_final.CString.{Bytes}
use ssdd_final.Lines.{WriteEvent, Written, complete, failed, killed, send_message}
use ssdd_final.Lines.SendMessage.{Returns, send_message_split, send_message-Returns}
use ssdd_final.Request.World.{
  World, Outcome, finished, died, signalled, waits, crashed, go, Handler, pure, and_then, ◌>>=◌,
  ◌>>◌, send, send_or_exit, close_exit,
}
use ssdd_final.Request.Emits.{closing, emitted}

-- `part` is a first part of `all`, and this is the rest
pub record IsPart (part all : Bytes) : Type 0 where
  pub unsent : Bytes
  pub split : part ++ unsent ≡ all

pub all-IsPart : (s : Bytes) → IsPart s s
all-IsPart s = record { unsent = []; split = append-nil s }

pub nothing-IsPart : (s : Bytes) → IsPart [] s
nothing-IsPart s = record { unsent = s; split = refl }

IsPart-behind : (m : Bytes) {part all : Bytes} → IsPart part all → IsPart (m ++ part) (m ++ all)
IsPart-behind m {part} h = record {
  unsent = h.unsent;
  split = append_assoc m part h.unsent ∙ ap (λ s. m ++ s) h.split;
}

IsPart-before : {part all : Bytes} (b : Bytes) → IsPart part all → IsPart part (all ++ b)
IsPart-before {part} b h = record {
  unsent = h.unsent ++ b;
  split = sym (append_assoc part h.unsent b) ∙ ap (λ s. s ++ b) h.split;
}

-- No `write` raises SIGPIPE behind some that did not.
abbrev pub GoesOn : World → List WriteEvent → Type 0
GoesOn w events = All Returns w.events → All Returns events

and_then_assoc :
    {A B C : Type 0} (r : Outcome A) (f : A → Handler B) (g : B → Handler C)
    → and_then (and_then r f) g ≡ and_then r (λ a v. and_then (f a v) g)
and_then_assoc (go a v) f g = refl
and_then_assoc (finished v) f g = refl
and_then_assoc (died v) f g = refl
and_then_assoc (signalled v) f g = refl
and_then_assoc waits f g = refl
and_then_assoc crashed f g = refl

-- how a call of `sendMessage` ends
pub data Sent (w : World) (m : Bytes) : Type 0 where
  whole :
      (events : List WriteEvent)
      → GoesOn w events
      → send m w ≡ go true (emitted w m events)
      → Sent w m
  cut :
      {part : Bytes} (events : List WriteEvent)
      → IsPart part m
      → GoesOn w events
      → send m w ≡ go false (emitted w part events)
      → Sent w m
  lost :
      {part : Bytes} (events : List WriteEvent)
      → IsPart part m
      → ¬ All Returns w.events
      → send m w ≡ signalled (emitted w part events)
      → Sent w m

pub send_cases : (w : World) (m : Bytes) → Sent w m
unfolding send
send_cases w m =
    let (unsent, split, all) = send_message_split w.events m in
    by_result (send_message w.events m) refl unsent split all
  where
    by_result :
        (r : Written × Bytes × List WriteEvent)
        → send_message w.events m ≡ r
        → (unsent : Bytes) → r.1 ++ unsent ≡ m
        → (r.0 ≡ complete → unsent ≡ [])
        → Sent w m
    by_result (complete, out, events) e unsent split all =
        let out_m : out ≡ m = sym (append-nil _) ∙ ap (λ u. out ++ u) (sym (all refl)) ∙ split in
        whole events (λ h. rw (← (ap (λ r. r.2) e)) (send_message-Returns w.events m h).1)
          (rw (e, out_m))
    by_result (failed, out, events) e unsent split all =
        cut events (record { unsent = unsent; split = split })
          (λ h. rw (← (ap (λ r. r.2) e)) (send_message-Returns w.events m h).1) (rw e)
    by_result (killed, out, events) e unsent split all =
        lost events (record { unsent = unsent; split = split })
          (λ h. (send_message-Returns w.events m h).0 (ap (λ r. r.0) e)) (rw e)

-- The handler and the `close` and `pthread_exit` behind it: a first part of `out` goes out, and
-- nothing else is done. The process ends instead only where a `write` raises SIGPIPE.
pub record Ends (h : Handler (Unit {0})) (w : World) (out : Bytes) : Type 0 where
  pub events : List WriteEvent
  pub part : Bytes
  pub last : Written
  pub begins : IsPart part out
  pub survives : All Returns w.events → last ≢ killed
  pub runs :
      (h >> close_exit {A = Unit {0}}) w
      ≡ closing last (record w { events = events; sent = w.sent ++ part })

pub pure-Ends : (w : World) → Ends (pure tt) w []
unfolding close_exit
pure-Ends w = record {
  events = w.events;
  part = [];
  last = complete;
  begins = all-IsPart [];
  survives = λ h e. cc;
  runs = rw (append-nil w.sent);
}

pub close_exit-Ends : (w : World) → Ends close_exit w []
unfolding close_exit
close_exit-Ends w = record {
  events = w.events;
  part = [];
  last = complete;
  begins = all-IsPart [];
  survives = λ h e. cc;
  runs = rw (append-nil w.sent);
}

-- A message, and a handler that goes on with `k` where it is sent whole, and has done nothing else
-- where it is not.
message-Ends :
    {h k : Handler (Unit {0})} (w : World) (m : Bytes) {b : Bytes}
    (next : Bool → Handler (Unit {0}))
    → (h >> close_exit {A = Unit {0}}) w ≡ and_then (send m w) next
    → ((v : World) → next true v ≡ (k >> close_exit {A = Unit {0}}) v)
    → ((v : World) → next false v ≡ closing failed v)
    → ((events : List WriteEvent) → Ends k (emitted w m events) b)
    → Ends h w (m ++ b)
message-Ends {h} {k} w m {b} next e on off f = elim (send_cases w m) [
  | whole events goes s ↦
      let g = f events in
      record {
        events = g.events;
        part = m ++ g.part;
        last = g.last;
        begins = IsPart-behind m g.begins;
        survives = λ r. g.survives (goes r);
        runs = e ∙ ap (λ r. and_then r next) s ∙ on _ ∙ rw (g.runs, append_assoc w.sent m g.part);
      }
  | cut {part} events p goes s ↦ record {
    events = events;
    part = part;
    last = failed;
    begins = IsPart-before b p;
    survives = λ r x. cc;
    runs = e ∙ ap (λ r. and_then r next) s ∙ off _;
  }
  | lost {part} events p raises s ↦ record {
    events = events;
    part = part;
    last = killed;
    begins = IsPart-before b p;
    survives = λ r x. raises r;
    runs = e ∙ ap (λ r. and_then r next) s;
  }
]

-- a message whose failure ends the thread
pub send_or_exit-Ends :
    {k : Handler (Unit {0})} (w : World) (m : Bytes) {b : Bytes}
    → ((events : List WriteEvent) → Ends k (emitted w m events) b)
    → Ends (send_or_exit m >> k) w (m ++ b)
unfolding send_or_exit close_exit
send_or_exit-Ends {k} w m f =
    message-Ends w m
      (λ ok v.
        and_then (and_then ((if ok then pure tt else close_exit) v) (λ x. k)) (λ x. close_exit))
      (ap (λ r. and_then r (λ x. close_exit)) (and_then_assoc (send m w) _ _)
        ∙ and_then_assoc (send m w) _ _)
      (λ v. refl) (λ v. refl) f

-- a message whose failure ends the handler
pub send-Ends :
    {k : Handler (Unit {0})} (w : World) (m : Bytes) {b : Bytes}
    → ((events : List WriteEvent) → Ends k (emitted w m events) b)
    → Ends (do ok ← send m; if not ok then pure tt else k) w (m ++ b)
unfolding close_exit
send-Ends {k} w m f =
    message-Ends w m (λ ok v. and_then ((if not ok then pure tt else k) v) (λ x. close_exit))
      (and_then_assoc (send m w) _ _) (λ v. refl) (λ v. refl) f
