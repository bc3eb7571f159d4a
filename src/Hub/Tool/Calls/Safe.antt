-- ===== src/Hub/Tool/Calls/Safe.antt =====
-- What the calls of internal/hub/supervisor.go do to their channels.
use oh_my_code_agent.Prelude.{
  ℕ, String, true, false, none, some, ◌<◌, ◌≡◌, ◌≢◌, refl, sym, ◌∙◌, arith,
}
use oh_my_code_agent.Hub.Pool.Callers.{replace}
use oh_my_code_agent.Hub.Tool.Calls.{
  empty, filled, closed, Calls, no_calls, goes_on, panics, Act, begin_call, read_response,
  read_unknown, deliver, deliver_panics, close_pending, close_panics, Reached, at_start, after_act,
}

-- What holds of every id between steps.
pub record IsSafe (c : Calls) (i : ℕ) : Type 0 where
  pub pending_empty : c.pending i ≡ true → c.channel i ≡ empty
  pub pending_not_sent : c.pending i ≡ true → c.in_flight i ≡ none
  pub sent_empty : (r : String) → c.in_flight i ≡ some r → c.channel i ≡ empty
  pub later_unused : c.req_seq < i → (c.pending i ≡ false) × (c.in_flight i ≡ none)

no_calls-IsSafe : (i : ℕ) → IsSafe no_calls i
no_calls-IsSafe i = record {
  pending_empty = λ h. refl;
  pending_not_sent = λ h. refl;
  sent_empty = λ r h. refl;
  later_unused = λ h. (refl, refl);
}

-- Every step keeps it.
Act-IsSafe : {c d : Calls} → Act c (goes_on d) → (i : ℕ) → IsSafe c i → IsSafe d i
Act-IsSafe (begin_call room) i safe = record {
  pending_empty = λ t. ground (arith, room);
  pending_not_sent = λ t. ground (arith, room);
  sent_empty = λ x t. ground (arith, room, safe.sent_empty x);
  later_unused = λ t. ground (arith, room);
}
Act-IsSafe (read_response j r h) i safe = record {
  pending_empty = λ t. ground (arith, h);
  pending_not_sent = λ t. ground (arith, h);
  sent_empty = λ x t. ground (arith, h, safe.sent_empty x);
  later_unused = λ t. ground (arith, h);
}
Act-IsSafe (deliver j r h e) i safe = record {
  pending_empty = λ t. ground (arith, h);
  pending_not_sent = λ t. ground (arith, h);
  sent_empty = λ x t. ground (arith, h, safe.sent_empty x);
  later_unused = λ t. ground (arith, h);
}
Act-IsSafe (close_pending j h e) i safe = record {
  pending_empty = λ t. ground (arith, h);
  pending_not_sent = λ t. ground (arith, h);
  sent_empty = λ x t. ground (arith, h, safe.sent_empty x);
  later_unused = λ t. ground (arith, h);
}
Act-IsSafe (read_unknown j h) i safe = safe
Act-IsSafe m i safe = record {
  pending_empty = λ t. ground (arith);
  pending_not_sent = λ t. ground (arith);
  sent_empty = λ x t. ground (arith, safe.sent_empty x);
  later_unused = λ t. ground (arith);
}

Reached-IsSafe : {c : Calls} → Reached c → (i : ℕ) → IsSafe c i
Reached-IsSafe at_start i = no_calls-IsSafe i
Reached-IsSafe (after_act r a) i = Act-IsSafe a i (Reached-IsSafe r i)

closed_not_empty : closed ≢ empty
closed_not_empty e = cc

no_panic : {c : Calls} → ((i : ℕ) → IsSafe c i) → ¬ Act c panics
no_panic inv (deliver_panics i r h e) = closed_not_empty (sym e ∙ (inv i).sent_empty r h)
no_panic inv (close_panics i h e) = closed_not_empty (sym e ∙ (inv i).pending_empty h)

-- the step of `readLoop` that sends a response to the call with its id
abbrev pub delivered : Calls → ℕ → String → Calls
delivered c i r = record c {
  in_flight = replace c.in_flight i none;
  channel = replace c.channel i (filled r);
}

-- However calls, responses and closings interleave, in fewer than 2 ^ 64 calls, no send meets a closed
-- channel and no channel is closed twice; and a response that was read for an id can be sent to the call
-- of that id at once, so that it never holds up the reading of the others.
pub channels_never_panic :
    {c : Calls}
    → Reached c
    → (¬ Act c panics)
      × ((i : ℕ) (r : String) → c.in_flight i ≡ some r → Act c (goes_on (delivered c i r)))
channels_never_panic reached = (
  no_panic (Reached-IsSafe reached),
  λ i r h. deliver i r h ((Reached-IsSafe reached i).sent_empty r h),
)
