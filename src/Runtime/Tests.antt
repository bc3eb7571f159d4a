-- ===== src/Runtime/Tests.antt =====
-- The scenarios of the theorems on the gate of an activation.
use oh_my_code_agent.Prelude.{
  Option, false, String, Bool, true, none, some, List, [], ◌∷◌, ◌≡◌, ◌↔◌, In, str_eq,
}
use oh_my_code_agent.Runtime.Confirmation.{
  ConfirmationKey, enable_mcp_server, expand_access, require_confirmation,
}
use oh_my_code_agent.Runtime.DiffChanges.{GenerationSourceEntry, is_active, diff_proposed_changes}
use oh_my_code_agent.Runtime.Activate.{absent, link, Generation, HostState, Writes}
use oh_my_code_agent.Runtime.Activate.Transaction.{ActivateRequest, activate}
use oh_my_code_agent.Runtime.Activate.Atomic.{IsAtomic}
use oh_my_code_agent.Runtime.Activate.Switched.{activate-IsAtomic}
use oh_my_code_agent.Runtime.Gate.{IsAllowed, activation_gate_iff}

abbrev source_entry : String → String → GenerationSourceEntry
source_entry concept source = record {
  concept = concept;
  source = source;
  host = "codex";
  included = true;
  reason = "enabled";
}

abbrev current_sources : List GenerationSourceEntry
current_sources = source_entry "skill" "review" ∷ []

abbrev pending_sources : List GenerationSourceEntry
pending_sources = source_entry "skill" "review" ∷ source_entry "mcpServer" "search" ∷ []

-- the operator confirmed the server `search`
abbrev search_confirmed : ConfirmationKey → Bool
search_confirmed k = str_eq k.asset_id "search"

activation_gate_iff_example :
    (require_confirmation
        (diff_proposed_changes current_sources pending_sources "codex")
        search_confirmed
      ≡ none)
    ↔ ((s : GenerationSourceEntry)
        → In s pending_sources
        → is_active "codex" s ≡ true
        → (s.concept ≡ "mcpServer"
            → IsAllowed search_confirmed current_sources "codex" s enable_mcp_server)
          × (s.concept ≡ "permission"
              → IsAllowed search_confirmed current_sources "codex" s expand_access))
activation_gate_iff_example =
    activation_gate_iff search_confirmed current_sources pending_sources "codex"

abbrev second_generation : Generation
second_generation = record {
  id = "generation:2";
  parent = some "generation:1";
  source_digest = "sha256:2";
  hosts = [];
}

abbrev manifests : String → Option Generation
manifests dir = some second_generation

-- the record of the current generation is not written
abbrev record_fails : Writes
record_fails = record {
  link_written = true;
  record_written = false;
  link_removed = true;
  record_removed = true;
  entry_appended = true;
}

abbrev codex_request : ActivateRequest
codex_request = record {
  worktree_state_dir = "/state";
  host = "codex";
  fresh_digest = some "sha256:2";
  fresh_hosts =
      (record {
        host = "codex";
        version = "0.144.5";
        surface = "cli";
        binary_path = "/usr/bin/codex";
        error = "";
      })
      ∷ [];
  now = some "2026-01-01T00:00:00Z";
  on_step = λ step. false;
}

abbrev waiting_state : HostState
waiting_state = record {
  current = absent;
  current_record = none;
  pending = link "/generations/2";
  pending_record = none;
  ledger = [];
}

activate-IsAtomic_example :
    IsAtomic manifests codex_request waiting_state
      (activate true record_fails manifests codex_request waiting_state)
activate-IsAtomic_example =
    activate-IsAtomic true record_fails manifests codex_request waiting_state
