-- ===== src/Assurance/Verify/Committed.antt =====
-- What VerifyGraph of internal/assurance/verify.go promises with the committed table of ceilings.
use oh_my_code_agent.Prelude.{
  ℕ, String, Bool, false, ◌≡◌, ◌≤◌, refl, sym, ap, subst, ◌∙◌, arith, In, map-In, ◌&&◌, str_eq, leb,
}
use oh_my_code_agent.Domain.Levels.{EvidenceLevel, CapabilityLevel, evidence_rank}
use oh_my_code_agent.Effective.Types.{EffectiveEntry}
use oh_my_code_agent.Effective.Graph.{HostKnowledge, EffectiveGraph, resolve_capability}
use oh_my_code_agent.Assurance.Ceilings.{ceiling_for, ceilings}
use oh_my_code_agent.Assurance.Verify.{
  ceiling_or_parsed, clamp_to_ceiling, upgraded_level, verify_entry, verify_graph_with_ceilings,
  verify_graph,
}
use oh_my_code_agent.Assurance.Verify.Bounded.{clamp-bounded}

ceilings-concept :
    (host concept : String)
    → str_eq "host" concept ≡ false
    → evidence_rank (ceiling_or_parsed ceilings host concept) ≤ 3
unfolding ceiling_or_parsed ceiling_for evidence_rank
ceilings-concept host concept h = ground (arith, h)

confirmed_low :
    (b : Bool) (level : ℕ)
    → level ≤ 3
    → (b && leb (evidence_rank EvidenceLevel.host_reported) level) ≡ false
unfolding evidence_rank
confirmed_low b level h = ground arith

verify_entry-committed :
    (host : String) (e : EffectiveEntry) (resolve : CapabilityLevel)
    → str_eq "host" e.concept ≡ false
    → (evidence_rank (verify_entry host e resolve ceilings).evidence_level
        ≤ evidence_rank EvidenceLevel.resolved)
      × ((verify_entry host e resolve ceilings).confirmed ≡ false)
unfolding verify_entry
verify_entry-committed host e resolve h =
    let level = clamp_to_ceiling host e.concept (upgraded_level e resolve) ceilings in
    let low : evidence_rank level ≤ 3 = omega (
      arith,
      ceilings-concept host e.concept h,
      (clamp-bounded host e.concept (upgraded_level e resolve) ceilings).0,
    ) in
    (unfold evidence_rank in low, confirmed_low e.confirmed (evidence_rank level) low)

concept_kept :
    (host : String) (e : EffectiveEntry) (resolve : CapabilityLevel)
    → (verify_entry host e resolve ceilings).concept ≡ e.concept
unfolding verify_entry
concept_kept host e resolve = refl

-- With the committed table, no entry of a verified graph for a concept other than the host binary has a
-- level above E2, on any host, and none is confirmed.
pub verify_graph-committed :
    (host : String) (graph : EffectiveGraph) (hk : HostKnowledge) (e : EffectiveEntry)
    → In e (verify_graph host graph hk).entries
    → str_eq "host" e.concept ≡ false
    → (evidence_rank e.evidence_level ≤ evidence_rank EvidenceLevel.resolved)
      × (e.confirmed ≡ false)
unfolding verify_graph verify_graph_with_ceilings
verify_graph-committed host graph hk e m h =
    let (d, n, p) =
      map-In (λ x. verify_entry host x (resolve_capability hk x.concept) ceilings) e graph.entries
        m in
    subst
      (λ x.
        (evidence_rank x.evidence_level ≤ evidence_rank EvidenceLevel.resolved)
        × (x.confirmed ≡ false))
      (sym p)
      (verify_entry-committed host d (resolve_capability hk d.concept) (
        subst (λ x. str_eq "host" x ≡ false)
          (ap (λ x. x.concept) p ∙ concept_kept host d (resolve_capability hk d.concept)) h))
