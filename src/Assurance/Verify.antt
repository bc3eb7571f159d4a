-- ===== src/Assurance/Verify.antt =====
-- internal/assurance/verify.go: the evidence of an effective graph, raised where a qualified resolver ran
-- and cut to the ceilings.
pub mod Bounded
pub mod Committed
pub mod Changes
use oh_my_code_agent.Prelude.{
  String, Bool, true, false, Option, none, some, List, map, if◌then◌else◌, ◌&&◌, not, str_eq, ltb,
  leb,
}
use oh_my_code_agent.Domain.Levels.{EvidenceLevel, CapabilityLevel, evidence_rank}
use oh_my_code_agent.Effective.Types.{MergeOperator, EffectiveEntry, Conflict}
use oh_my_code_agent.Effective.Graph.{HostKnowledge, EffectiveGraph, resolve_capability}
use oh_my_code_agent.Assurance.Ceilings.{CeilingEntry, ceiling_for, ceilings}

-- `resolveQualified`
unfoldable pub resolve_qualified : CapabilityLevel → Bool
resolve_qualified CapabilityLevel.exact = true
resolve_qualified CapabilityLevel.compatible = true
resolve_qualified _ = false

-- `Operator != ""`
abbrev pub operator_named : MergeOperator → Bool
operator_named (MergeOperator.other s) = not (str_eq s "")
operator_named _ = true

-- `qualifiedResolutionRan`
unfoldable pub qualified_resolution_ran : EffectiveEntry → CapabilityLevel → Bool
unfolding resolve_qualified
qualified_resolution_ran e resolve =
    resolve_qualified resolve
    && not (str_eq e.provenance.program "")
    && operator_named e.provenance.operator

-- the ceiling in force: E1 where none is declared
unfoldable pub ceiling_or_parsed : List CeilingEntry → String → String → EvidenceLevel
unfolding ceiling_for
ceiling_or_parsed table host concept = elim (ceiling_for table host concept) [
  | none ↦ EvidenceLevel.parsed
  | some ceiling ↦ ceiling
]

-- `clampToCeiling`
unfoldable pub clamp_to_ceiling :
    String → String → EvidenceLevel → List CeilingEntry → EvidenceLevel
unfolding ceiling_or_parsed evidence_rank
clamp_to_ceiling host concept level table =
    let ceiling = ceiling_or_parsed table host concept in
    if ltb (evidence_rank ceiling) (evidence_rank level) then ceiling else level

-- the level before the clamp
unfoldable pub upgraded_level : EffectiveEntry → CapabilityLevel → EvidenceLevel
unfolding qualified_resolution_ran evidence_rank
upgraded_level e resolve =
    if qualified_resolution_ran e resolve
      && ltb (evidence_rank e.evidence_level) (evidence_rank EvidenceLevel.resolved)
    then EvidenceLevel.resolved
    else e.evidence_level

-- `verifyEntry`
unfoldable pub verify_entry :
    String → EffectiveEntry → CapabilityLevel → List CeilingEntry → EffectiveEntry
unfolding upgraded_level clamp_to_ceiling evidence_rank
verify_entry host e resolve table =
    let level = clamp_to_ceiling host e.concept (upgraded_level e resolve) table in
    record e {
      evidence_level = level;
      confirmed =
          e.confirmed && leb (evidence_rank EvidenceLevel.host_reported) (evidence_rank level);
    }

-- `verifyConflict`
unfoldable pub verify_conflict : String → Conflict → List CeilingEntry → Conflict
unfolding clamp_to_ceiling
verify_conflict host c table = record c {
  evidence_level = clamp_to_ceiling host c.concept c.evidence_level table;
}

-- `VerifyGraphWithCeilings`
unfoldable pub verify_graph_with_ceilings :
    String → EffectiveGraph → HostKnowledge → List CeilingEntry → EffectiveGraph
unfolding verify_entry verify_conflict resolve_capability
verify_graph_with_ceilings host graph hk table = record graph {
  entries = map (λ e. verify_entry host e (resolve_capability hk e.concept) table) graph.entries;
  conflicts = map (λ c. verify_conflict host c table) graph.conflicts;
}

-- `VerifyGraph`
unfoldable pub verify_graph : String → EffectiveGraph → HostKnowledge → EffectiveGraph
unfolding verify_graph_with_ceilings
verify_graph host graph hk = verify_graph_with_ceilings host graph hk ceilings
