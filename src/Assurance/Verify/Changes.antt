-- ===== src/Assurance/Verify/Changes.antt =====
-- What VerifyGraph of internal/assurance/verify.go changes.
use oh_my_code_agent.Prelude.{
  String, true, List, [], ◌∷◌, map, ◌≡◌, ◌≤◌, ◌<◌, In-map, refl, ap₂, arith, In,
}
use oh_my_code_agent.Domain.Levels.{EvidenceLevel, CapabilityLevel, evidence_rank}
use oh_my_code_agent.Effective.Types.{EffectiveEntry, Conflict}
use oh_my_code_agent.Effective.Graph.{HostKnowledge, EffectiveGraph, resolve_capability}
use oh_my_code_agent.Assurance.Ceilings.{CeilingEntry}
use oh_my_code_agent.Assurance.Verify.{
  qualified_resolution_ran, clamp_to_ceiling, upgraded_level, verify_entry, verify_conflict,
  verify_graph_with_ceilings,
}

-- A second clamp of the upgraded level changes nothing.
verify_entry-verify_entry :
    (host : String) (e : EffectiveEntry) (resolve : CapabilityLevel) (table : List CeilingEntry)
    → verify_entry host (verify_entry host e resolve table) resolve table
      ≡ verify_entry host e resolve table
unfolding verify_entry upgraded_level clamp_to_ceiling qualified_resolution_ran evidence_rank
verify_entry-verify_entry host e resolve table = ground arith

verify_conflict-verify_conflict :
    (host : String) (table : List CeilingEntry) (c : Conflict)
    → verify_conflict host (verify_conflict host c table) table ≡ verify_conflict host c table
unfolding verify_conflict clamp_to_ceiling
verify_conflict-verify_conflict host table c = ground arith

map-same :
    {A : Type 0} (f : A → A)
    → ((a : A) → f (f a) ≡ f a)
    → (xs : List A) → map f (map f xs) ≡ map f xs
map-same f h [] = refl
map-same f h (x ∷ xs) = ap₂ ◌∷◌ (h x) (map-same f h xs)

module _ (host : String) (e : EffectiveEntry) (resolve : CapabilityLevel)
    (table : List CeilingEntry) where
  verify_entry-kept :
      record (verify_entry host e resolve table) {
        evidence_level = e.evidence_level;
        confirmed = e.confirmed;
      }
      ≡ e
  unfolding verify_entry
  verify_entry-kept = refl

  verify_entry-raised :
      evidence_rank e.evidence_level
        < evidence_rank (verify_entry host e resolve table).evidence_level
      → (evidence_rank (verify_entry host e resolve table).evidence_level
          ≤ evidence_rank EvidenceLevel.resolved)
        × (qualified_resolution_ran e resolve ≡ true)
  unfolding verify_entry upgraded_level clamp_to_ceiling evidence_rank
  verify_entry-raised h = ground arith

  verify_entry-confirmed :
      (verify_entry host e resolve table).confirmed ≡ true
      → (e.confirmed ≡ true)
        × (evidence_rank EvidenceLevel.host_reported
            ≤ evidence_rank (verify_entry host e resolve table).evidence_level)
  unfolding verify_entry
  verify_entry-confirmed h = ground arith

-- Verification of a graph that is verified changes nothing; and an entry keeps all but its level and its
-- confirmation, is raised at most to E2 and only where a program with a named operator ran for a qualified
-- concept, and is confirmed after it only if it was before and its level is still at least E3.
pub verify_graph-changes :
    (host : String) (graph : EffectiveGraph) (hk : HostKnowledge) (table : List CeilingEntry)
    (e : EffectiveEntry)
    → let verified = verify_graph_with_ceilings host graph hk table in
      let resolve = resolve_capability hk e.concept in
      let v = verify_entry host e resolve table in
      (verify_graph_with_ceilings host verified hk table ≡ verified)
      × (In e graph.entries → In v verified.entries)
      × (record v { evidence_level = e.evidence_level; confirmed = e.confirmed } ≡ e)
      × (evidence_rank e.evidence_level < evidence_rank v.evidence_level
          → (evidence_rank v.evidence_level ≤ evidence_rank EvidenceLevel.resolved)
            × (qualified_resolution_ran e resolve ≡ true))
      × (v.confirmed ≡ true
          → (e.confirmed ≡ true)
            × (evidence_rank EvidenceLevel.host_reported ≤ evidence_rank v.evidence_level))
unfolding verify_graph_with_ceilings
verify_graph-changes host graph hk table e = (
  ap₂ (λ es cs. record graph { entries = es; conflicts = cs })
      (map-same (λ x. verify_entry host x (resolve_capability hk x.concept) table)
        (λ x. verify_entry-verify_entry host x (resolve_capability hk x.concept) table)
        graph.entries)
      (map-same (λ c. verify_conflict host c table) (verify_conflict-verify_conflict host table)
        graph.conflicts),
  λ m. In-map (λ x. verify_entry host x (resolve_capability hk x.concept) table) e graph.entries m,
  verify_entry-kept host e (resolve_capability hk e.concept) table,
  verify_entry-raised host e (resolve_capability hk e.concept) table,
  verify_entry-confirmed host e (resolve_capability hk e.concept) table,
)
