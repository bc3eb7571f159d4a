-- ===== src/Hub/Tool/Tests.antt =====
-- The scenarios of the theorems on the tools of internal/hub.
use oh_my_code_agent.Prelude.{ℕ, String, true, false, some, ◌≡◌, refl, arith}
use oh_my_code_agent.Hub.Pool.Callers.{replace}
use native.Mathlib.Decide.{ℕ_discrete}
use oh_my_code_agent.Hub.Tool.Calls.{
  Calls, no_calls, Act, goes_on, panics, empty, begin_call, read_response, Reached, at_start,
  after_act,
}
use oh_my_code_agent.Hub.Tool.Calls.Safe.{delivered, channels_never_panic}

abbrev one_call : Calls
one_call = record no_calls {
  req_seq = 1;
  pending = replace no_calls.pending 1 true;
  channel = replace no_calls.channel 1 empty;
}

abbrev answered : Calls
answered = record one_call {
  pending = replace one_call.pending 1 false;
  in_flight = replace one_call.in_flight 1 (some "ok");
}

answered_reached : Reached answered
unfolding ℕ_discrete
answered_reached =
    after_act (after_act at_start (begin_call (omega arith))) (read_response 1 "ok" refl)

channels_never_panic_example :
    (¬ Act answered panics)
    × ((i : ℕ) (r : String)
        → answered.in_flight i ≡ some r
        → Act answered (goes_on (delivered answered i r)))
channels_never_panic_example = channels_never_panic answered_reached
