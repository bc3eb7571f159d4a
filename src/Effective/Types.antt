-- ===== src/Effective/Types.antt =====
-- internal/effective/types.go, Options of merge.go, and internal/ontology/mergeoperator.go. A reason
-- or a constraint is the format of the Go message with its arguments. A Go `int` stands here as its
-- offset from the least one, so that −1 is 2 ^ 63 − 1. A JSON value is an object or the text of
-- anything else.
use oh_my_code_agent.Prelude.{ℕ, String, Bool, true, false, Option, List}
use oh_my_code_agent.Domain.Levels.{
  EvidenceLevel, GuaranteeLevel, SourceDisposition, CapabilityLevel,
}

pub data MergeOperator : Type 0 where
  replace deep_merge concat_ordered union_by_id first_match namespace deny_wins managed_guardrail
        unspecified :
      MergeOperator
  other : String → MergeOperator

abbrev pub no_operator : MergeOperator
no_operator = other ""

-- `MergeOperator.Valid`
unfoldable pub operator_valid : MergeOperator → Bool
operator_valid (other _) = false
operator_valid _ = true

mutual
  pub data Value : Type 0 where
    leaf : String → Value
    object : Fields → Value

  pub data Fields : Type 0 where
    no_fields : Fields
    field : String → Value → Fields → Fields

pub record ObservationScope : Type 0 where
  pub kind : String
  pub root : String

pub record Candidate : Type 0 where
  pub concept : String
  pub logical_id : String
  pub ref : String
  pub scope : ObservationScope
  pub disposition : SourceDisposition
  pub evidence_level : EvidenceLevel
  pub fields : Option Fields
  pub content_digest : String
  pub tools : List String

pub record LogicalGroup : Type 0 where
  pub concept : String
  pub logical_id : String
  pub candidates : List Candidate

pub data Constraint : Type 0 where
  every_denied : Constraint
  denials_removed_rest : Constraint
  merged_digest : String → Constraint
  managed_constrains : Constraint

pub record Provenance : Type 0 where
  pub program : String
  pub operator : MergeOperator
  pub selected_source : String
  pub active_sources : List String
  pub ignored_sources : List String
  pub constraints : List Constraint

pub data EntryReason : Type 0 where
  nothing_active : String → EntryReason
  some_denied : ℕ → ℕ → String → EntryReason
  only_source : String → EntryReason
  sources_agree : ℕ → String → EntryReason
  outranks : MergeOperator → String → ℕ → ℕ → EntryReason
  leaves_merged : ℕ → EntryReason
  order_unconfirmed : EntryReason
  order_confirmed : List String → EntryReason
  first_in_priority : String → EntryReason
  all_namespaced : ℕ → EntryReason
  deny_wins_nothing : EntryReason
  deny_wins_survivor : ℕ → EntryReason
  managed_authoritative : EntryReason
  composed_confirmed : ℕ → String → List String → EntryReason
  composed_unqualified : ℕ → String → CapabilityLevel → EntryReason
  composed_unordered : ℕ → String → EntryReason

pub record EffectiveEntry : Type 0 where
  pub concept : String
  pub logical_id : String
  pub is_composed : Bool
  pub provenance : Provenance
  pub evidence_level : EvidenceLevel
  pub guarantee : GuaranteeLevel
  pub confirmed : Bool
  pub reason : EntryReason

pub data ConflictReason : Type 0 where
  empty_group : ConflictReason
  no_program : String → ℕ → MergeOperator → ConflictReason
  unqualified : String → MergeOperator → String → CapabilityLevel → ℕ → ConflictReason
  no_winner_defined : MergeOperator → ConflictReason
  no_scope_order : MergeOperator → ConflictReason
  unranked_scope : MergeOperator → String → ConflictReason
  tied : MergeOperator → ℕ → ConflictReason
  no_structure : String → ConflictReason
  leaf_conflict : String → ℕ → ConflictReason
  digest_failed : ConflictReason
  no_priority : ConflictReason
  scope_not_listed : String → ConflictReason
  first_match_tie : ℕ → ConflictReason
  survivors_disagree : ℕ → ConflictReason
  no_managed_source : ConflictReason
  managed_disagree : ℕ → ConflictReason

pub record Conflict : Type 0 where
  pub concept : String
  pub logical_id : String
  pub candidates : List Candidate
  pub program : String
  pub operator : MergeOperator
  pub evidence_level : EvidenceLevel
  pub reason : ConflictReason

-- the pair of results of which exactly one is not nil
pub data Outcome : Type 0 where
  entry : EffectiveEntry → Outcome
  conflict : Conflict → Outcome

-- `domain.PrecedenceProgram`
pub record PrecedenceProgram : Type 0 where
  pub id : String
  pub identity : String
  pub operator : MergeOperator
  pub fixture : String

abbrev pub no_program_found : PrecedenceProgram
no_program_found = record { id = ""; identity = ""; operator = no_operator; fixture = "" }

-- `Options`
pub record Options : Type 0 where
  pub scope_rank : List (String × ℕ)
  pub scope_priority : List String
  pub denied_refs : List String
