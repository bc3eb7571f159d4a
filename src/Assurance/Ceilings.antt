-- ===== src/Assurance/Ceilings.antt =====
-- internal/assurance/ceiling.go: the committed table of evidence ceilings, less the texts that justify a
-- row.
use oh_my_code_agent.Prelude.{
  String, Option, none, some, List, [], ◌∷◌, if◌then◌else◌, ◌&&◌, str_eq,
}
use oh_my_code_agent.Domain.Levels.{EvidenceLevel, CapabilityLevel}

-- `CeilingEntry`
pub record CeilingEntry : Type 0 where
  pub host : String
  pub concept : String
  pub ceiling : EvidenceLevel
  pub introspection_surface : String
  pub resolve_capability : CapabilityLevel

-- `HostConceptClaim`
abbrev pub host_concept_claim : String
host_concept_claim = "host"

-- a row of one of the three ontology concepts, none of which has a documented surface
abbrev concept_row : String → String → EvidenceLevel → CapabilityLevel → CeilingEntry
concept_row host concept ceiling capability = record {
  host = host;
  concept = concept;
  ceiling = ceiling;
  introspection_surface = "none documented";
  resolve_capability = capability;
}

-- a row of a host binary
abbrev host_row : String → String → CeilingEntry
host_row host surface = record {
  host = host;
  concept = host_concept_claim;
  ceiling = EvidenceLevel.host_reported;
  introspection_surface = surface;
  resolve_capability = CapabilityLevel.other "";
}

-- `Ceilings`
abbrev pub ceilings : List CeilingEntry
ceilings =
    concept_row "codex" "instruction" EvidenceLevel.resolved CapabilityLevel.exact
    ∷ concept_row "codex" "skill" EvidenceLevel.parsed CapabilityLevel.unknown
    ∷ concept_row "codex" "mcp_server" EvidenceLevel.parsed CapabilityLevel.unknown
    ∷ concept_row "claude-code" "instruction" EvidenceLevel.parsed CapabilityLevel.unknown
    ∷ concept_row "claude-code" "skill" EvidenceLevel.parsed CapabilityLevel.unknown
    ∷ concept_row "claude-code" "mcp_server" EvidenceLevel.parsed CapabilityLevel.unknown
    ∷ concept_row "pi" "instruction" EvidenceLevel.resolved CapabilityLevel.exact
    ∷ concept_row "pi" "skill" EvidenceLevel.parsed CapabilityLevel.unknown
    ∷ concept_row "pi" "mcp_server" EvidenceLevel.parsed CapabilityLevel.unsupported
    ∷ host_row "codex" "codex --version"
    ∷ host_row "claude-code" "claude --version"
    ∷ host_row "pi" "pi --version"
    ∷ []

-- `CeilingFor`
unfoldable pub ceiling_for : List CeilingEntry → String → String → Option EvidenceLevel
ceiling_for [] host concept = none
ceiling_for (c ∷ cs) host concept =
    if str_eq c.host host && str_eq c.concept concept
    then some c.ceiling
    else ceiling_for cs host concept
