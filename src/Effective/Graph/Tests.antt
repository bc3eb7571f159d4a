-- ===== src/Effective/Graph/Tests.antt =====
-- The scenarios of the theorems on the identities and the graph of internal/effective.
use oh_my_code_agent.Prelude.{String, Option, none, some, List, [], ◌∷◌, ◌↔◌, In}
use oh_my_code_agent.Domain.Levels.{EvidenceLevel, SourceDisposition}
use oh_my_code_agent.Effective.Types.{Candidate, Options, Value, leaf, no_fields, field}
use oh_my_code_agent.Effective.Identity.{identity_key_eq, detect_ambiguous_identities}
use oh_my_code_agent.Effective.Identity.Ambiguous.{
  IsConnection, IsSameConnection, Reported, detect_ambiguous_identities_iff,
}
use oh_my_code_agent.Effective.Graph.{HostKnowledge}

abbrev server : String → String → Candidate
server logical_id ref = record {
  concept = "mcp_server";
  logical_id = logical_id;
  ref = ref;
  scope = record { kind = "user"; root = "" };
  disposition = SourceDisposition.active;
  evidence_level = EvidenceLevel.parsed;
  fields = some (field "command" (leaf "npx") no_fields);
  content_digest = "d1";
  tools = [];
}

-- one server under two names, and one of them twice
abbrev servers : List Candidate
servers = server "files" "b" ∷ server "fs" "a" ∷ server "files" "c" ∷ []

detect_ambiguous_identities_iff_example :
    Reported (detect_ambiguous_identities servers) (server "files" "b") (server "fs" "a") ↔ (
      (In (server "files" "b") servers × IsConnection (server "files" "b"))
      × (In (server "fs" "a") servers × IsConnection (server "fs" "a"))
      × IsSameConnection (server "files" "b") (server "fs" "a"))
detect_ambiguous_identities_iff_example =
    detect_ambiguous_identities_iff servers (server "files" "b") (server "fs" "a")

abbrev no_digest : Value → Option String
no_digest v = none

abbrev no_options : Options
no_options = record { scope_rank = []; scope_priority = []; denied_refs = [] }

abbrev nothing_known : HostKnowledge
nothing_known = record { programs = []; capabilities = [] }
