-- ===== src/Domain/Host.antt =====
-- internal/domain/host.go: the closed set of host ids.
use oh_my_code_agent.Prelude.{String, Option, none, some, List, [], ◌∷◌, if◌then◌else◌}
use oh_my_code_agent.Prelude.Keys.{contains, string_eq}

abbrev pub known_host_ids : List String
known_host_ids =
    "claude-code" ∷ "codex" ∷ "cursor" ∷ "github-copilot" ∷ "antigravity-cli" ∷ "pi" ∷ "openclaw"
    ∷ "hermes-agent" ∷ []

pub data HostFault : Type 0 where
  unknown_host duplicate_host : String → HostFault

-- `ValidateHostID`; `none` is the nil error
unfoldable pub validate_host_id : String → Option HostFault
validate_host_id id = if contains known_host_ids id then none else some (unknown_host id)

-- the loop of `ValidateHostIDs` from the ids seen so far
unfoldable pub validate_host_ids_from : List String → List String → Option HostFault
validate_host_ids_from seen [] = none
validate_host_ids_from seen (id ∷ ids) =
    let rest = validate_host_ids_from (id ∷ seen) ids in
    elim (validate_host_id id) [
      | some e ↦ some e
      | none ↦ if contains seen id then some (duplicate_host id) else rest
    ]

unfoldable pub validate_host_ids : List String → Option HostFault
unfolding validate_host_ids_from
validate_host_ids ids = validate_host_ids_from [] ids
