-- ===== src/Assurance/Verify/Bounded.antt =====
-- What VerifyGraph of internal/assurance/verify.go promises of the evidence it reports.
use oh_my_code_agent.Prelude.{
  String, List, map, ◌≤◌, inl, inr, sym, ap, subst, ◌∙◌, arith, In, In-append, map-In, ltb,
  Bool-cases,
}
use oh_my_code_agent.Domain.Levels.{EvidenceLevel, evidence_rank}
use oh_my_code_agent.Effective.Types.{EffectiveEntry, Conflict}
use oh_my_code_agent.Effective.Graph.{HostKnowledge, EffectiveGraph, resolve_capability}
use oh_my_code_agent.Assurance.Ceilings.{CeilingEntry}
use oh_my_code_agent.Assurance.Verify.{
  ceiling_or_parsed, clamp_to_ceiling, upgraded_level, verify_entry, verify_conflict,
  verify_graph_with_ceilings,
}
use oh_my_code_agent.Assurance.Evidence.{
  Evidence, build_evidence, entry_evidence, conflict_evidence,
}

pub clamp-bounded :
    (host concept : String) (level : EvidenceLevel) (table : List CeilingEntry)
    → (evidence_rank (clamp_to_ceiling host concept level table)
        ≤ evidence_rank (ceiling_or_parsed table host concept))
      × (evidence_rank (clamp_to_ceiling host concept level table) ≤ evidence_rank level)
unfolding clamp_to_ceiling
clamp-bounded host concept level table =
    elim (Bool-cases
      (ltb (evidence_rank (ceiling_or_parsed table host concept)) (evidence_rank level))) [
        | inl t ↦ rw t (ground arith)
        | inr f ↦ rw f (ground arith)
      ]

-- Each evidence record made from a verified graph has a level that is at most the ceiling that the table
-- declares for the host and the record's concept, or at most E1 where it declares none.
pub build_evidence-bounded :
    (host : String) (graph : EffectiveGraph) (hk : HostKnowledge) (table : List CeilingEntry)
    (r : Evidence)
    → In r (build_evidence host (verify_graph_with_ceilings host graph hk table))
    → evidence_rank r.level ≤ evidence_rank (ceiling_or_parsed table host r.concept)
unfolding build_evidence verify_graph_with_ceilings
build_evidence-bounded host graph hk table r m =
    elim (In-append r (map (entry_evidence host) (map verified graph.entries)) _ m) [
      | inl l ↦
          let (d, n, p) = map-In (entry_evidence host) r (map verified graph.entries) l in
          let (e, o, q) = map-In verified d graph.entries n in
          subst
            (λ x. evidence_rank x.level ≤ evidence_rank (ceiling_or_parsed table host x.concept))
            (sym (p ∙ ap (entry_evidence host) q)) (entry_bound e)
      | inr l ↦
          let (d, n, p) = map-In (conflict_evidence host) r (map cut graph.conflicts) l in
          let (c, o, q) = map-In cut d graph.conflicts n in
          subst
            (λ x. evidence_rank x.level ≤ evidence_rank (ceiling_or_parsed table host x.concept))
            (sym (p ∙ ap (conflict_evidence host) q)) (conflict_bound c)
    ]
  where
    verified : EffectiveEntry → EffectiveEntry
    verified e = verify_entry host e (resolve_capability hk e.concept) table

    cut : Conflict → Conflict
    cut c = verify_conflict host c table

    entry_bound :
        (e : EffectiveEntry)
        → evidence_rank (entry_evidence host (verified e)).level
          ≤ evidence_rank (ceiling_or_parsed table host (entry_evidence host (verified e)).concept)
    entry_bound e =
        (clamp-bounded host e.concept (upgraded_level e (resolve_capability hk e.concept)) table).0

    conflict_bound :
        (c : Conflict)
        → evidence_rank (conflict_evidence host (cut c)).level
          ≤ evidence_rank (ceiling_or_parsed table host (conflict_evidence host (cut c)).concept)
    conflict_bound c = (clamp-bounded host c.concept c.evidence_level table).0
