-- ===== src/Effective/Graph.antt =====
-- ComputeEffectiveGraph of internal/effective/resolve.go, from the candidates that ExtractCandidates
-- gives for a host that is valid. `canonical_digest` is domain.CanonicalDigest.
pub mod Complete
pub mod Tests
use oh_my_code_agent.Prelude.{
  ℕ, String, Bool, true, false, Option, none, some, List, [], ◌∷◌, ◌++◌, map, is_some,
  if◌then◌else◌, ◌&&◌, str_eq, keep, some_of, first,
}
use oh_my_code_agent.Prelude.Keys.{Eq, distinct, lookup, string_eq}
use oh_my_code_agent.Prelude.Sort.{sort}
use oh_my_code_agent.Prelude.TextOrder.{str_leb}
use oh_my_code_agent.Domain.Levels.{CapabilityLevel}
use oh_my_code_agent.Effective.Types.{
  MergeOperator, Candidate, LogicalGroup, EffectiveEntry, Conflict, Outcome, PrecedenceProgram,
  Options, Value,
}
use oh_my_code_agent.Effective.Sources.{lookup_program}
use oh_my_code_agent.Effective.Compose.{compose_concept}
use oh_my_code_agent.Effective.Group.{or_zero, resolve_group}
use oh_my_code_agent.Effective.Identity.{
  AmbiguousIdentity, match_identities, detect_ambiguous_identities,
}

-- the parts of `domain.HostKnowledge` that the graph reads: the programs, and the resolve capability of
-- the concepts
pub record HostKnowledge : Type 0 where
  pub programs : List PrecedenceProgram
  pub capabilities : List (String × CapabilityLevel)

-- `hk.Capabilities[concept].Resolve`, with Go's zero value
unfoldable pub resolve_capability : HostKnowledge → String → CapabilityLevel
unfolding lookup
resolve_capability hk concept = elim (lookup hk.capabilities concept) [
  | none ↦ CapabilityLevel.other ""
  | some level ↦ level
]

-- `EffectiveGraph`, less the duplicate capabilities
pub record EffectiveGraph : Type 0 where
  pub host : String
  pub host_version : String
  pub entries : List EffectiveEntry
  pub conflicts : List Conflict
  pub ambiguous_identities : List AmbiguousIdentity

-- `Find`
unfoldable pub find_entry : EffectiveGraph → String → String → Option EffectiveEntry
unfolding first
find_entry g concept logical_id =
    first (λ e. str_eq e.concept concept && str_eq e.logical_id logical_id) g.entries

-- `HasConflict`
unfoldable pub has_conflict_at : EffectiveGraph → String → String → Bool
unfolding some_of
has_conflict_at g concept logical_id =
    some_of (λ c. str_eq c.concept concept && str_eq c.logical_id logical_id) g.conflicts

abbrev is_concat : MergeOperator → Bool
is_concat MergeOperator.concat_ordered = true
is_concat _ = false

-- the test for a concept that is composed as a whole
unfoldable pub is_composed_concept : HostKnowledge → String → Bool
unfolding lookup_program
is_composed_concept hk concept =
    let found = lookup_program hk.programs concept in
    is_some found && is_concat (or_zero found).operator

-- `byConcept[concept]`
unfoldable pub groups_of : String → List LogicalGroup → List LogicalGroup
groups_of concept groups = keep (λ g. str_eq g.concept concept) groups

-- `conceptOrder`, sorted
unfoldable pub concept_order : List LogicalGroup → List String
concept_order groups = sort str_leb (distinct (map (λ g. g.concept) groups))

-- the orders of the entries and of the conflicts
unfoldable pub entry_leb : EffectiveEntry → EffectiveEntry → Bool
entry_leb a b =
    if str_eq a.concept b.concept
    then str_leb a.logical_id b.logical_id
    else str_leb a.concept b.concept

unfoldable pub conflict_leb : Conflict → Conflict → Bool
conflict_leb a b =
    if str_eq a.concept b.concept
    then str_leb a.logical_id b.logical_id
    else str_leb a.concept b.concept

unfoldable pub entries_of : List Outcome → List EffectiveEntry
entries_of [] = []
entries_of (Outcome.entry e ∷ os) = e ∷ entries_of os
entries_of (Outcome.conflict c ∷ os) = entries_of os

unfoldable pub conflicts_of : List Outcome → List Conflict
conflicts_of [] = []
conflicts_of (Outcome.entry e ∷ os) = conflicts_of os
conflicts_of (Outcome.conflict c ∷ os) = c ∷ conflicts_of os

module _ (canonical_digest : Value → Option String) where
  -- one round of the loop over the concepts: what is appended to the entries and the conflicts
  unfoldable pub concept_outcomes :
      HostKnowledge → Options → List LogicalGroup → String → List Outcome
  unfolding is_composed_concept groups_of lookup_program resolve_capability
  concept_outcomes hk opts groups concept =
      let level = resolve_capability hk concept in
      if is_composed_concept hk concept
      then Outcome.entry (
          compose_concept concept (groups_of concept groups)
            (or_zero (lookup_program hk.programs concept)) level opts.scope_rank)
        ∷ []
      else map (λ g. resolve_group canonical_digest g hk.programs level opts)
          (groups_of concept groups)

  unfoldable pub all_outcomes :
      HostKnowledge → Options → List LogicalGroup → List String → List Outcome
  unfolding concept_outcomes
  all_outcomes hk opts groups [] = []
  all_outcomes hk opts groups (concept ∷ concepts) =
      concept_outcomes hk opts groups concept ++ all_outcomes hk opts groups concepts

  -- `ComputeEffectiveGraph`
  unfoldable pub compute_effective_graph :
      String → String → List Candidate → HostKnowledge → Options → EffectiveGraph
  unfolding all_outcomes concept_order match_identities detect_ambiguous_identities entries_of
      conflicts_of entry_leb conflict_leb
  compute_effective_graph host host_version candidates hk opts =
      let groups = match_identities candidates in
      let outcomes = all_outcomes hk opts groups (concept_order groups) in
      record {
        host = host;
        host_version = host_version;
        entries = sort entry_leb (entries_of outcomes);
        conflicts = sort conflict_leb (conflicts_of outcomes);
        ambiguous_identities = detect_ambiguous_identities candidates;
      }
