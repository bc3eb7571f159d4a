-- ===== src/Runtime/Activate/Tests.antt =====
-- An activation and the rollback after it.
use oh_my_code_agent.Prelude.{
  String, true, false, Option, none, some, List, [], ◌∷◌, ◌≡◌, refl, if◌then◌else◌, str_eq, first,
  lookup, contains,
}
use oh_my_code_agent.Prelude.Keys.{string_eq}
use oh_my_code_agent.Domain.Host.{validate_host_id}
use oh_my_code_agent.Runtime.Activate.{
  absent, link, Generation, HostTarget, HostState, Writes, Detected, set_current_generation,
  activated, rolled_back,
}
use oh_my_code_agent.Runtime.Activate.Transaction.{
  ActivateRequest, activate, succeeded, activate_locked, check_digest, compare_digests,
  switch_to_pending, finish_switch, append_activated,
}
use oh_my_code_agent.Runtime.Activate.Rollback.{
  RollbackRequest, rollback, restored, validate_compiled_host,
}
use oh_my_code_agent.Runtime.Activate.Restored.{rollback-activate}

abbrev codex_target : List (String × HostTarget)
codex_target = ("codex", record { host_version = "0.144.5"; surface = "cli" }) ∷ []

abbrev first_generation : Generation
first_generation = record {
  id = "g1";
  parent = none;
  source_digest = "sha256:1";
  hosts = codex_target;
}

abbrev next_generation : Generation
next_generation = record {
  id = "g2";
  parent = some "g1";
  source_digest = "sha256:2";
  hosts = codex_target;
}

abbrev stored : String → Option Generation
stored dir =
    if str_eq dir "g1"
    then some first_generation
    else if str_eq dir "g2"
    then some next_generation
    else none

-- the directory of a generation is its id
abbrev same_name : String → String
same_name id = id

abbrev all_written : Writes
all_written = record {
  link_written = true;
  record_written = true;
  link_removed = true;
  record_removed = true;
  entry_appended = true;
}

abbrev detected : Detected
detected = record {
  host = "codex";
  version = "0.144.5";
  surface = "cli";
  binary_path = "/usr/bin/codex";
  error = "";
}

abbrev codex_activation : ActivateRequest
codex_activation = record {
  worktree_state_dir = "/state";
  host = "codex";
  fresh_digest = some "sha256:2";
  fresh_hosts = detected ∷ [];
  now = some "noon";
  on_step = λ step. false;
}

abbrev codex_rollback : RollbackRequest
codex_rollback = record {
  worktree_state_dir = "/state";
  generations_root = "/generations";
  root_absolute = true;
  host = "codex";
  detection = detected;
  now = some "evening";
}

abbrev ready : HostState
ready = record {
  current = link "g1";
  current_record = none;
  pending = link "g2";
  pending_record = none;
  ledger = [];
}

abbrev switched : HostState
switched = record {
  current = link "g2";
  current_record = some record {
    generation_id = "g2";
    host_binary_path = "/usr/bin/codex";
    host_version = "0.144.5";
    recorded_at = "noon";
  };
  pending = absent;
  pending_record = none;
  ledger =
      (record {
        host = "codex";
        generation_id = "g2";
        kind = activated "g1" "g2";
        recorded_at = "noon";
      })
      ∷ [];
}

switched_by : activate true all_written stored codex_activation ready ≡ (
  switched,
  succeeded (record { previous_generation_id = "g1"; activated_generation_id = "g2" }),
)
unfolding activate activate_locked check_digest compare_digests switch_to_pending finish_switch
    append_activated set_current_generation str_eq validate_host_id contains first
switched_by = refl

abbrev went_back : HostState
went_back = record switched {
  current = link "g1";
  current_record = some record {
    generation_id = "g1";
    host_binary_path = "/usr/bin/codex";
    host_version = "0.144.5";
    recorded_at = "evening";
  };
  ledger =
      (record {
        host = "codex";
        generation_id = "g2";
        kind = activated "g1" "g2";
        recorded_at = "noon";
      })
      ∷ (record {
        host = "codex";
        generation_id = "g1";
        kind = rolled_back "g1" "g2";
        recorded_at = "evening";
      })
      ∷ [];
}

went_back_by : rollback true all_written stored same_name codex_rollback switched ≡ (
  went_back,
  restored (record { restored_generation_id = "g1"; superseded_generation_id = "g2" }),
)
unfolding rollback validate_compiled_host set_current_generation str_eq validate_host_id contains
    lookup
went_back_by = refl

next_stored : stored "g2" ≡ some next_generation
unfolding str_eq
next_stored = refl

rollback-activate_example : went_back.current ≡ ready.current
rollback-activate_example =
    rollback-activate true all_written all_written stored same_name codex_activation codex_rollback
      ready switched went_back "g2" "g1" next_generation _ _ refl next_stored refl refl switched_by
      went_back_by
