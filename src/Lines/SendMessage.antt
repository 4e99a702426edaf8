-- ===== src/Lines/SendMessage.antt =====
-- `sendMessage` of server/lines.c: what has gone into the socket when it returns.
use ssdd_final.Base.{
  ◌-◌, ◌≡◌, ◌≢◌, refl, ◌∙◌, sym, ap, List, [], ◌∷◌, ◌++◌, arith, ltb, length, take, drop, inl, inr,
  Bool-cases, min, All,
}
use mathlib.Core.List.{append-nil, append_assoc}
use ssdd_final.CString.{Bytes}
use ssdd_final.Base.{take-append-drop, drop_all}
use ssdd_final.Lines.{
  WriteEvent, takes, broken, reset, Written, complete, killed, send_loop, send_message,
}

-- no `write` fails
abbrev pub Works : WriteEvent → Type 0
Works (takes k) = Unit
Works broken = ⊥
Works reset = ⊥

-- no `write` raises SIGPIPE
abbrev pub Returns : WriteEvent → Type 0
Returns reset = ⊥
Returns event = Unit

-- What has gone out is `sent` and a first part of `buffer`: all of it, if the loop succeeds.
record Sends (sent buffer : Bytes) (r : Written × Bytes × List WriteEvent) : Type 0 where
  unsent : Bytes
  split : r.1 ++ unsent ≡ sent ++ buffer
  whole : r.0 ≡ complete → unsent ≡ []

send_loop-Sends :
    (events : List WriteEvent) (buffer sent : Bytes)
    → Sends sent buffer (send_loop events buffer sent)
unfolding send_message
send_loop-Sends [] buffer sent = record { unsent = []; split = append-nil _; whole = λ e. refl }
send_loop-Sends (broken ∷ events) buffer sent = record {
  unsent = buffer;
  split = refl;
  whole = λ e. cc;
}
send_loop-Sends (reset ∷ events) buffer sent = record {
  unsent = buffer;
  split = refl;
  whole = λ e. cc;
}
send_loop-Sends (takes k ∷ events) buffer sent =
    let r = min k (length buffer) in
    let joined : (sent ++ take r buffer) ++ drop r buffer ≡ sent ++ buffer =
      rw (append_assoc, take-append-drop r buffer) in
    elim (Bool-cases (ltb 0 (length buffer - r))) [
      | inl more ↦
          let next = send_loop-Sends events (drop r buffer) (sent ++ take r buffer) in
          rw more (record { unsent = next.unsent; split = next.split ∙ joined; whole = next.whole })
      | inr done ↦ rw done (record {
        unsent = drop r buffer;
        split = joined;
        whole = λ e. drop_all r buffer (ground arith);
      })
    ]

-- What `sendMessage` has written is a first part of the message, in order, however the writes end:
-- the whole message where it returns 0.
pub send_message_split :
    (events : List WriteEvent) (buffer : Bytes)
    → (unsent : Bytes) × ((send_message events buffer).1 ++ unsent ≡ buffer)
      × ((send_message events buffer).0 ≡ complete → unsent ≡ [])
unfolding send_message
send_message_split events buffer =
    let s = send_loop-Sends events buffer [] in (s.unsent, s.split, s.whole)

send_loop-Works :
    (events : List WriteEvent) (buffer sent : Bytes)
    → All Works events
    → (send_loop events buffer sent).0 ≡ complete
unfolding send_message
send_loop-Works [] buffer sent h = refl
send_loop-Works (broken ∷ events) buffer sent h = absurd h.0
send_loop-Works (reset ∷ events) buffer sent h = absurd h.0
send_loop-Works (takes k ∷ events) buffer sent h =
    let r = min k (length buffer) in
    elim (Bool-cases (ltb 0 (length buffer - r))) [
      | inl more ↦ rw more (send_loop-Works events (drop r buffer) (sent ++ take r buffer) h.1)
      | inr done ↦ rw done
    ]

-- Where no `write` fails, however few bytes each of them takes, `sendMessage` returns 0 with the
-- whole message written.
pub send_message_whole :
    (events : List WriteEvent) (buffer : Bytes)
    → All Works events
    → ((send_message events buffer).0 ≡ complete) × ((send_message events buffer).1 ≡ buffer)
unfolding send_message
send_message_whole events buffer h =
    let ok = send_loop-Works events buffer [] h in
    let s = send_loop-Sends events buffer [] in
    (
      ok,
      sym (append-nil _)
          ∙ ap (λ u. (send_loop events buffer []).1 ++ u) (sym (s.whole ok))
          ∙ s.split,
    )

send_loop-All-Works :
    (events : List WriteEvent) (buffer sent : Bytes)
    → All Works events
    → All Works (send_loop events buffer sent).2
unfolding send_message
send_loop-All-Works [] buffer sent h = tt
send_loop-All-Works (broken ∷ events) buffer sent h = absurd h.0
send_loop-All-Works (reset ∷ events) buffer sent h = absurd h.0
send_loop-All-Works (takes k ∷ events) buffer sent h =
    let r = min k (length buffer) in
    elim (Bool-cases (ltb 0 (length buffer - r))) [
      | inl more ↦ rw more (send_loop-All-Works events (drop r buffer) (sent ++ take r buffer) h.1)
      | inr done ↦ rw done h.1
    ]

-- what is left of a socket on which no `write` fails
pub send_message-All-Works :
    (events : List WriteEvent) (buffer : Bytes)
    → All Works events
    → All Works (send_message events buffer).2
unfolding send_message
send_message-All-Works events buffer h = send_loop-All-Works events buffer [] h

send_loop-Returns :
    (events : List WriteEvent) (buffer sent : Bytes)
    → All Returns events
    → (send_loop events buffer sent).0 ≢ killed × All Returns (send_loop events buffer sent).2
unfolding send_message
send_loop-Returns [] buffer sent h = (λ e. cc, tt)
send_loop-Returns (broken ∷ events) buffer sent h = (λ e. cc, h.1)
send_loop-Returns (reset ∷ events) buffer sent h = absurd h.0
send_loop-Returns (takes k ∷ events) buffer sent h =
    let r = min k (length buffer) in
    elim (Bool-cases (ltb 0 (length buffer - r))) [
      | inl more ↦ rw more (send_loop-Returns events (drop r buffer) (sent ++ take r buffer) h.1)
      | inr done ↦ rw done ((λ e. cc), h.1)
    ]

-- Where no `write` raises SIGPIPE, `sendMessage` returns, and none does behind it.
pub send_message-Returns :
    (events : List WriteEvent) (buffer : Bytes)
    → All Returns events
    → (send_message events buffer).0 ≢ killed × All Returns (send_message events buffer).2
unfolding send_message
send_message-Returns events buffer h = send_loop-Returns events buffer [] h
