-- ===== src/Runtime/Activate/Transaction.antt =====
-- Activate of internal/runtime/activate.go. The result of freshSourceDigest and the lock are arguments; the
-- manifests are a function from directories to what ReadGenerationManifest gives.
use oh_my_code_agent.Prelude.{
  String, Bool, true, false, not, Option, none, some, List, if◌then◌else◌, str_eq, first,
}
use oh_my_code_agent.Domain.Host.{HostFault, validate_host_id}
use oh_my_code_agent.Runtime.Activate.{
  Pointer, absent, corrupt, link, Generation, HostState, LedgerEntry, Writes, Detected,
  set_current_generation, clear_pending_generation, append_ledger_entry, activated, cas_rejected,
}

-- `ActivationStep`
pub data ActivationStep : Type 0 where
  validate_pending cas_check switch_current append_ledger : ActivationStep

-- The fields of `ActivateRequest`, with the result of `freshSourceDigest` on `Fresh` and the detections of its
-- hosts. `now` is none for the zero time; `on_step` is true where the hook returns an error.
pub record ActivateRequest : Type 0 where
  pub worktree_state_dir : String
  pub host : String
  pub fresh_digest : Option String
  pub fresh_hosts : List Detected
  pub now : Option String
  pub on_step : ActivationStep → Bool

pub data ActivateError : Type 0 where
  no_state_dir no_now lock_taken no_pending corrupt_current no_fresh_digest no_host_entry :
      ActivateError
  not_switched not_appended : ActivateError
  bad_host : HostFault → ActivateError
  aborted : ActivationStep → ActivateError
  bad_manifest : String → ActivateError
  cas_mismatch : String → String → ActivateError

-- `ActivationResult`; the host and the time are those of the request
pub record ActivationResult : Type 0 where
  pub previous_generation_id : String
  pub activated_generation_id : String

pub data Outcome : Type 0 where
  failed : ActivateError → Outcome
  succeeded : ActivationResult → Outcome

-- `previousGenID`: none where the pointer is corrupt
abbrev pub previous_id : (String → Option Generation) → Pointer → Option String
previous_id manifest absent = some ""
previous_id manifest corrupt = none
previous_id manifest (link dir) = elim (manifest dir) [ none ↦ some "" | some gen ↦ some gen.id ]

-- `detectionForHost`
abbrev pub detection_for_host : List Detected → String → Option Detected
detection_for_host hosts host = first (λ d. str_eq d.host host) hosts

abbrev pub activated_entry : ActivateRequest → String → Generation → String → LedgerEntry
activated_entry req now gen previous = record {
  host = req.host;
  generation_id = gen.id;
  kind = activated previous gen.id;
  recorded_at = now;
}

abbrev pub rejected_entry : ActivateRequest → String → Generation → String → LedgerEntry
rejected_entry req now gen fresh = record {
  host = req.host;
  generation_id = gen.id;
  kind = cas_rejected gen.source_digest fresh;
  recorded_at = now;
}

-- the last step, after the switch
unfoldable pub append_activated :
    Writes → ActivateRequest → String → Generation → String → HostState → HostState × Outcome
append_activated w req now gen previous st =
    if req.on_step append_ledger then (st, failed (aborted append_ledger)) else (
      append_ledger_entry w (activated_entry req now gen previous) st,
      if not w.entry_appended
          then failed not_appended
          else succeeded
              (record { previous_generation_id = previous; activated_generation_id = gen.id }),
    )

-- what follows the switch, if it gave no error
unfoldable pub finish_switch :
    Writes → ActivateRequest → String → Generation → String → HostState × Bool → HostState × Outcome
unfolding append_activated
finish_switch w req now gen previous (switched, false) = (switched, failed not_switched)
finish_switch w req now gen previous (switched, true) =
    append_activated w req now gen previous (clear_pending_generation w switched)

-- the step that switches `current`
unfoldable pub switch_to_pending :
    Writes
    → ActivateRequest
    → String
    → String
    → Generation
    → String
    → HostState
    → HostState × Outcome
unfolding finish_switch set_current_generation
switch_to_pending w req now dir gen previous st =
    if req.on_step switch_current
    then (st, failed (aborted switch_current))
    else elim (detection_for_host req.fresh_hosts req.host) [
      | none ↦ (st, failed no_host_entry)
      | some d ↦ finish_switch w req now gen previous (set_current_generation w dir gen d now st)
    ]

-- the comparison of the source digests
unfoldable pub compare_digests :
    Writes
    → ActivateRequest
    → String
    → String
    → Generation
    → String
    → HostState
    → String
    → HostState × Outcome
unfolding switch_to_pending
compare_digests w req now dir gen previous st fresh =
    if not (str_eq fresh gen.source_digest)
    then (
      append_ledger_entry w (rejected_entry req now gen fresh) st,
      failed (cas_mismatch gen.source_digest fresh),
    )
    else switch_to_pending w req now dir gen previous st

unfoldable pub check_digest :
    Writes
    → ActivateRequest
    → String
    → String
    → Generation
    → String
    → HostState
    → HostState × Outcome
unfolding compare_digests
check_digest w req now dir gen previous st =
    if req.on_step cas_check then (st, failed (aborted cas_check)) else elim req.fresh_digest [
      | none ↦ (st, failed no_fresh_digest)
      | some fresh ↦ compare_digests w req now dir gen previous st fresh
    ]

-- the reads before it, on what each of them gives
abbrev pub with_previous :
    Writes
    → ActivateRequest
    → String
    → String
    → Generation
    → HostState
    → Option String
    → HostState × Outcome
with_previous w req now dir gen st none = (st, failed corrupt_current)
with_previous w req now dir gen st (some previous) = check_digest w req now dir gen previous st

abbrev pub with_manifest :
    Writes
    → (String → Option Generation)
    → ActivateRequest
    → String
    → String
    → HostState
    → Option Generation
    → HostState × Outcome
with_manifest w manifest req now dir st none = (st, failed (bad_manifest dir))
with_manifest w manifest req now dir st (some gen) =
    with_previous w req now dir gen st (previous_id manifest st.current)

abbrev pub with_pending :
    Writes
    → (String → Option Generation)
    → ActivateRequest
    → String
    → HostState
    → Pointer
    → HostState × Outcome
with_pending w manifest req now st absent = (st, failed no_pending)
with_pending w manifest req now st corrupt = (st, failed no_pending)
with_pending w manifest req now st (link dir) =
    with_manifest w manifest req now dir st (manifest dir)

-- what `Activate` does under the lock
unfoldable pub activate_locked :
    Writes
    → (String → Option Generation)
    → ActivateRequest
    → String
    → HostState
    → HostState × Outcome
unfolding check_digest
activate_locked w manifest req now st =
    if req.on_step validate_pending
    then (st, failed (aborted validate_pending))
    else with_pending w manifest req now st st.pending

abbrev pub with_now :
    Bool
    → Writes
    → (String → Option Generation)
    → ActivateRequest
    → HostState
    → Option String
    → HostState × Outcome
with_now lock w manifest req st none = (st, failed no_now)
with_now lock w manifest req st (some now) =
    if not lock then (st, failed lock_taken) else activate_locked w manifest req now st

abbrev pub with_host :
    Bool
    → Writes
    → (String → Option Generation)
    → ActivateRequest
    → HostState
    → Option HostFault
    → HostState × Outcome
with_host lock w manifest req st (some e) = (st, failed (bad_host e))
with_host lock w manifest req st none = with_now lock w manifest req st req.now

-- `Activate`; `lock` is what `acquireActivationLock` answers
unfoldable pub activate :
    Bool → Writes → (String → Option Generation) → ActivateRequest → HostState → HostState × Outcome
unfolding activate_locked
activate lock w manifest req st =
    if str_eq req.worktree_state_dir ""
    then (st, failed no_state_dir)
    else with_host lock w manifest req st (validate_host_id req.host)
