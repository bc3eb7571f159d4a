-- ===== src/Effective/Group.antt =====
-- `ResolveGroup`, `applyOperator`, `resolveDeepMerge` and `resolveNamespace` of
-- internal/effective/merge.go. `canonical_digest` is domain.CanonicalDigest.
pub mod Denials
pub mod Programs
pub mod Gates
pub mod Guardrail
use oh_my_code_agent.Prelude.{
  ℕ, String, Bool, true, false, Option, none, some, List, [], ◌∷◌, map, arith, first, length, ltb,
  not, is_some, if◌then◌else◌,
}
use oh_my_code_agent.Domain.Levels.{EvidenceLevel, GuaranteeLevel, CapabilityLevel}
use oh_my_code_agent.Effective.Types.{
  MergeOperator, Candidate, LogicalGroup, Constraint, Provenance, EntryReason, ConflictReason,
  Outcome, PrecedenceProgram, Options, Value, object, operator_valid, no_program_found, no_operator,
}
use oh_my_code_agent.Effective.Sources.{
  distinct_by_content, candidate_refs, backed, is_denied, capability_qualified, lookup_program,
}
use oh_my_code_agent.Effective.DeepMerge.{deep_merge_all, AllMerged}
use oh_my_code_agent.Effective.Operators.{
  conflict_of, entry_of, survivors, removed_refs, resolve_by_scope_rank, resolve_union_by_id,
  resolve_first_match, resolve_deny_wins, resolve_managed_guardrail,
}
use oh_my_code_agent.Effective.Compose.{resolve_concat_within_group}

-- the first candidate that has no structured content
unfoldable pub opaque_source : List Candidate → Option Candidate
opaque_source cs = first (λ c. not (is_some c.fields)) cs

-- `resolveNamespace`
unfoldable pub resolve_namespace : LogicalGroup → PrecedenceProgram → Outcome
unfolding entry_of candidate_refs backed
resolve_namespace group program =
    entry_of group
      (record {
        program = program.id;
        operator = MergeOperator.namespace;
        selected_source = "";
        active_sources = candidate_refs group.candidates;
        ignored_sources = [];
        constraints = [];
      })
      GuaranteeLevel.observed (backed group.candidates)
      (EntryReason.all_namespaced (length (candidate_refs group.candidates)))

-- The branch of `ResolveGroup` for sources that agree on their content.
unfoldable pub agreed_group : LogicalGroup → List String → Candidate → Outcome
unfolding entry_of survivors removed_refs candidate_refs backed
agreed_group group denied winner =
    let removed = removed_refs denied group.candidates in
    elim removed [
      | [] ↦
          entry_of group
            (record {
              program = "";
              operator = no_operator;
              selected_source = winner.ref;
              active_sources = candidate_refs group.candidates;
              ignored_sources = [];
              constraints = [];
            })
            GuaranteeLevel.observed false
            (if ltb 1 (length group.candidates)
              then EntryReason.sources_agree (length group.candidates) group.logical_id
              else EntryReason.only_source group.logical_id)
      | r ∷ rs ↦ elim (survivors denied group.candidates) [
        | [] ↦
            entry_of group
              (record {
                program = "";
                operator = no_operator;
                selected_source = "";
                active_sources = [];
                ignored_sources = r ∷ rs;
                constraints = Constraint.every_denied ∷ [];
              })
              GuaranteeLevel.hard (backed group.candidates)
              (EntryReason.nothing_active group.logical_id)
        | s ∷ ss ↦
            entry_of group
              (record {
                program = "";
                operator = no_operator;
                selected_source = s.ref;
                active_sources = candidate_refs (s ∷ ss);
                ignored_sources = r ∷ rs;
                constraints = Constraint.denials_removed_rest ∷ [];
              })
              GuaranteeLevel.hard (backed group.candidates)
              (EntryReason.some_denied (length (r ∷ rs)) (length group.candidates) group.logical_id)
      ]
    ]

abbrev pub or_zero : Option PrecedenceProgram → PrecedenceProgram
or_zero none = no_program_found
or_zero (some p) = p

module _ (canonical_digest : Value → Option String) where
  -- `resolveDeepMerge`
  unfoldable pub resolve_deep_merge : LogicalGroup → PrecedenceProgram → List (String × ℕ) → Outcome
  unfolding conflict_of entry_of distinct_by_content candidate_refs backed deep_merge_all
      opaque_source
  resolve_deep_merge group program scope_rank =
      let cs = distinct_by_content group.candidates in
      elim (opaque_source cs) [
        | some c ↦
            conflict_of group program MergeOperator.deep_merge (ConflictReason.no_structure c.ref)
        | none ↦ elim (deep_merge_all canonical_digest cs scope_rank) [
          | AllMerged.unresolved path ↦
              conflict_of group program MergeOperator.deep_merge
                (ConflictReason.leaf_conflict path (length cs))
          | AllMerged.merged fields ↦ elim (canonical_digest (object fields)) [
            | none ↦ conflict_of group program MergeOperator.deep_merge ConflictReason.digest_failed
            | some digest ↦
                entry_of group
                  (record {
                    program = program.id;
                    operator = MergeOperator.deep_merge;
                    selected_source = "";
                    active_sources = candidate_refs group.candidates;
                    ignored_sources = [];
                    constraints = Constraint.merged_digest digest ∷ [];
                  })
                  GuaranteeLevel.observed (backed group.candidates)
                  (EntryReason.leaves_merged (length cs))
          ]
        ]
      ]

  -- `applyOperator`
  unfoldable pub apply_operator :
      LogicalGroup → PrecedenceProgram → MergeOperator → Options → Outcome
  unfolding conflict_of resolve_by_scope_rank resolve_union_by_id resolve_deep_merge
      resolve_concat_within_group resolve_first_match resolve_namespace resolve_deny_wins
      resolve_managed_guardrail
  apply_operator group program operator opts = elim operator [
    | MergeOperator.replace ↦
        resolve_by_scope_rank group program MergeOperator.replace opts.scope_rank
    | MergeOperator.union_by_id ↦ resolve_union_by_id group program opts.scope_rank
    | MergeOperator.deep_merge ↦ resolve_deep_merge group program opts.scope_rank
    | MergeOperator.concat_ordered ↦ resolve_concat_within_group group program opts.scope_rank
    | MergeOperator.first_match ↦ resolve_first_match group program opts.scope_priority
    | MergeOperator.namespace ↦ resolve_namespace group program
    | MergeOperator.deny_wins ↦ resolve_deny_wins group program opts.denied_refs
    | MergeOperator.managed_guardrail ↦ resolve_managed_guardrail group program
    | o ↦ conflict_of group program o (ConflictReason.no_winner_defined o)
  ]

  -- The part of `ResolveGroup` for sources that disagree.
  unfoldable pub adjudicate :
      LogicalGroup → List PrecedenceProgram → CapabilityLevel → Options → ℕ → Outcome
  unfolding lookup_program operator_valid capability_qualified conflict_of apply_operator
  adjudicate group programs resolve opts count =
      let found = lookup_program programs group.concept in
      let program = or_zero found in
      if is_some found
      then (if operator_valid program.operator
          then (if capability_qualified resolve
              then apply_operator group program program.operator opts
              else conflict_of group program program.operator (
                  ConflictReason.unqualified program.id program.operator group.concept resolve
                    count))
          else conflict_of group program program.operator
              (ConflictReason.no_program group.concept count program.operator))
      else conflict_of group program program.operator
          (ConflictReason.no_program group.concept count program.operator)

  -- `ResolveGroup`
  unfoldable pub resolve_group :
      LogicalGroup → List PrecedenceProgram → CapabilityLevel → Options → Outcome
  unfolding distinct_by_content agreed_group adjudicate
  resolve_group group programs resolve opts = elim group.candidates [
    | [] ↦ Outcome.conflict record {
      concept = group.concept;
      logical_id = group.logical_id;
      candidates = [];
      program = "";
      operator = no_operator;
      evidence_level = EvidenceLevel.other "";
      reason = ConflictReason.empty_group;
    }
    | _ ∷ _ ↦ elim (distinct_by_content group.candidates) [
      | winner ∷ [] ↦ agreed_group group opts.denied_refs winner
      | cs ↦ adjudicate group programs resolve opts (length cs)
    ]
  ]
