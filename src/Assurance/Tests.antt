-- ===== src/Assurance/Tests.antt =====
-- The scenarios of the theorems on internal/assurance.
use oh_my_code_agent.Prelude.{true, false, [], ◌∷◌, ◌≡◌, ◌≤◌, ◌<◌, refl, inl, In, str_eq}
use oh_my_code_agent.Domain.Levels.{EvidenceLevel, CapabilityLevel, GuaranteeLevel, evidence_rank}
use oh_my_code_agent.Effective.Types.{MergeOperator, EffectiveEntry, EntryReason}
use oh_my_code_agent.Effective.Graph.{HostKnowledge, EffectiveGraph, resolve_capability}
use oh_my_code_agent.Assurance.Ceilings.{ceilings}
use oh_my_code_agent.Assurance.Verify.{
  qualified_resolution_ran, ceiling_or_parsed, verify_entry, verify_graph,
  verify_graph_with_ceilings,
}
use oh_my_code_agent.Assurance.Verify.Bounded.{build_evidence-bounded}
use oh_my_code_agent.Assurance.Verify.Changes.{verify_graph-changes}
use oh_my_code_agent.Assurance.Verify.Committed.{verify_graph-committed}
use oh_my_code_agent.Assurance.Evidence.{build_evidence, entry_evidence}

-- an entry that claims more than the ceiling of its concept
abbrev bold_entry : EffectiveEntry
bold_entry = record {
  concept = "skill";
  logical_id = "deploy";
  is_composed = false;
  provenance = record {
    program = "skill.replace-by-scope";
    operator = MergeOperator.replace;
    selected_source = "a";
    active_sources = "a" ∷ [];
    ignored_sources = [];
    constraints = [];
  };
  evidence_level = EvidenceLevel.host_reported;
  guarantee = GuaranteeLevel.hard;
  confirmed = true;
  reason = EntryReason.only_source "deploy";
}

abbrev bold_graph : EffectiveGraph
bold_graph = record {
  host = "codex";
  host_version = "0.154.0";
  entries = bold_entry ∷ [];
  conflicts = [];
  ambiguous_identities = [];
}

abbrev exact_skill : HostKnowledge
exact_skill = record { programs = []; capabilities = ("skill", CapabilityLevel.exact) ∷ [] }

abbrev verified_entry : EffectiveEntry
verified_entry = verify_entry "codex" bold_entry (resolve_capability exact_skill "skill") ceilings

build_evidence-bounded_example :
    evidence_rank (entry_evidence "codex" verified_entry).level
    ≤ evidence_rank
        (ceiling_or_parsed ceilings "codex" (entry_evidence "codex" verified_entry).concept)
unfolding build_evidence verify_graph_with_ceilings
build_evidence-bounded_example =
    build_evidence-bounded "codex" bold_graph exact_skill ceilings
      (entry_evidence "codex" verified_entry) (inl refl)

verify_graph-changes_example :
    let verified = verify_graph_with_ceilings "codex" bold_graph exact_skill ceilings in
    (verify_graph_with_ceilings "codex" verified exact_skill ceilings ≡ verified)
    × (In bold_entry bold_graph.entries → In verified_entry verified.entries)
    × (record verified_entry { evidence_level = EvidenceLevel.host_reported; confirmed = true }
        ≡ bold_entry)
    × (evidence_rank EvidenceLevel.host_reported < evidence_rank verified_entry.evidence_level
        → (evidence_rank verified_entry.evidence_level ≤ evidence_rank EvidenceLevel.resolved)
          × (qualified_resolution_ran bold_entry (resolve_capability exact_skill "skill") ≡ true))
    × (verified_entry.confirmed ≡ true
        → (true ≡ true)
          × (evidence_rank EvidenceLevel.host_reported
              ≤ evidence_rank verified_entry.evidence_level))
verify_graph-changes_example =
    verify_graph-changes "codex" bold_graph exact_skill ceilings bold_entry

verify_graph-committed_example :
    (evidence_rank verified_entry.evidence_level ≤ evidence_rank EvidenceLevel.resolved)
    × (verified_entry.confirmed ≡ false)
unfolding verify_graph verify_graph_with_ceilings str_eq verify_entry
verify_graph-committed_example =
    verify_graph-committed "codex" bold_graph exact_skill verified_entry (inl refl) refl
