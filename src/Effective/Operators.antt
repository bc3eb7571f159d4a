-- ===== src/Effective/Operators.antt =====
-- The merge operators of internal/effective/merge.go that pick a winner, and `conflictf`.
pub mod Outcomes
pub mod Winner
pub mod Ranked
pub mod Selected
use oh_my_code_agent.Prelude.{
  ℕ, String, Bool, true, false, Option, none, some, List, [], ◌∷◌, ◌-◌, map, arith, keep, ltb, not,
  length, if◌then◌else◌, str_eq, ◌==◌, zero, suc,
}
use oh_my_code_agent.Prelude.Keys.{contains, string_eq, lookup}
use oh_my_code_agent.Prelude.Sort.{sort}
use oh_my_code_agent.Prelude.TextOrder.{str_leb}
use oh_my_code_agent.Domain.Levels.{GuaranteeLevel}
use oh_my_code_agent.Effective.Types.{
  MergeOperator, Candidate, LogicalGroup, Constraint, Provenance, EntryReason, EffectiveEntry,
  ConflictReason, Conflict, Outcome, PrecedenceProgram,
}
use oh_my_code_agent.Effective.Sources.{
  distinct_by_content, candidate_refs, highest_evidence, backed, is_denied,
}

-- `conflictf`
unfoldable pub conflict_of :
    LogicalGroup → PrecedenceProgram → MergeOperator → ConflictReason → Outcome
conflict_of group program operator reason = Outcome.conflict record {
  concept = group.concept;
  logical_id = group.logical_id;
  candidates = group.candidates;
  program = program.id;
  operator = operator;
  evidence_level = highest_evidence group.candidates;
  reason = reason;
}

-- the entry of a group, as each operator fills it in
unfoldable pub entry_of : LogicalGroup → Provenance → GuaranteeLevel → Bool → EntryReason → Outcome
entry_of group provenance guarantee confirmed reason = Outcome.entry record {
  concept = group.concept;
  logical_id = group.logical_id;
  is_composed = false;
  provenance = provenance;
  evidence_level = highest_evidence group.candidates;
  guarantee = guarantee;
  confirmed = confirmed;
  reason = reason;
}

-- `for _, c := range cs { if c.Ref != winner.Ref { ignored = append(ignored, c.Ref) } }`, sorted
unfoldable pub other_refs : Candidate → List Candidate → List String
unfolding sort
other_refs winner cs =
    sort str_leb (map (λ c. c.ref) (keep (λ c. not (str_eq c.ref winner.ref)) cs))

-- Where the loop over the candidates stands: the best rank so far and those that have it.
pub record Race : Type 0 where
  pub best : ℕ
  pub winners : List Candidate

pub data RankRun : Type 0 where
  ran : Race → RankRun
  unranked : String → RankRun

abbrev pub append_one : List Candidate → Candidate → List Candidate
append_one [] c = c ∷ []
append_one (x ∷ xs) c = x ∷ append_one xs c

-- The loop over the candidates of `resolveByScopeRank` and of `resolveFirstMatch`. `better` is the
-- test by which a rank beats the best one, `rank` what the scope of a candidate is looked up by.
module _ (better : ℕ → ℕ → Bool) (rank : String → Option ℕ) where
  unfoldable pub race_step : ℕ → Candidate → Race → Race
  race_step r c race =
      if better r race.best
      then record { best = r; winners = c ∷ [] }
      else (if r == race.best
          then record { best = race.best; winners = append_one race.winners c }
          else race)

  unfoldable pub rank_run : List Candidate → Race → RankRun
  unfolding race_step
  rank_run [] race = RankRun.ran race
  rank_run (c ∷ cs) race = elim (rank c.scope.kind) [
    | none ↦ RankRun.unranked c.scope.kind
    | some r ↦ rank_run cs (race_step r c race)
  ]

abbrev pub higher : ℕ → ℕ → Bool
higher r best = ltb best r

abbrev pub lower : ℕ → ℕ → Bool
lower r best = ltb r best

-- −1
abbrev pub minus_one : ℕ
minus_one = 9223372036854775807

abbrev pub at_start : ℕ → Race
at_start best = record { best = best; winners = [] }

unfoldable pub pick_ranked :
    LogicalGroup → PrecedenceProgram → MergeOperator → List Candidate → Race → Outcome
unfolding conflict_of entry_of other_refs backed highest_evidence
pick_ranked group program operator cs race = elim race.winners [
  | winner ∷ [] ↦
      entry_of group
        (record {
          program = program.id;
          operator = operator;
          selected_source = winner.ref;
          active_sources = winner.ref ∷ [];
          ignored_sources = other_refs winner cs;
          constraints = [];
        })
        GuaranteeLevel.observed (backed group.candidates)
        (EntryReason.outranks operator winner.scope.kind race.best (length cs - 1))
  | _ ↦ conflict_of group program operator (ConflictReason.tied operator (length race.winners))
]

-- `resolveByScopeRank`
unfoldable pub resolve_by_scope_rank :
    LogicalGroup → PrecedenceProgram → MergeOperator → List (String × ℕ) → Outcome
unfolding conflict_of rank_run lookup pick_ranked distinct_by_content
resolve_by_scope_rank group program operator [] =
    conflict_of group program operator (ConflictReason.no_scope_order operator)
resolve_by_scope_rank group program operator (r ∷ rs) =
    let cs = distinct_by_content group.candidates in
    elim (rank_run higher (lookup (r ∷ rs)) cs (at_start minus_one)) [
      | RankRun.ran race ↦ pick_ranked group program operator cs race
      | RankRun.unranked kind ↦
          conflict_of group program operator (ConflictReason.unranked_scope operator kind)
    ]

-- `resolveUnionByID`
unfoldable pub resolve_union_by_id : LogicalGroup → PrecedenceProgram → List (String × ℕ) → Outcome
unfolding resolve_by_scope_rank
resolve_union_by_id group program scope_rank =
    resolve_by_scope_rank group program MergeOperator.union_by_id scope_rank

-- `rankOf` of `resolveFirstMatch`, with none for its -1
unfoldable pub priority_of : List String → String → Option ℕ
priority_of [] scope = none
priority_of (s ∷ ss) scope =
    if str_eq s scope
    then some 0
    else elim (priority_of ss scope) [ none ↦ none | some i ↦ some (suc i) ]

unfoldable pub pick_first : LogicalGroup → PrecedenceProgram → Race → Outcome
unfolding conflict_of entry_of other_refs backed highest_evidence
pick_first group program race = elim race.winners [
  | winner ∷ [] ↦
      entry_of group
        (record {
          program = program.id;
          operator = MergeOperator.first_match;
          selected_source = winner.ref;
          active_sources = winner.ref ∷ [];
          ignored_sources = other_refs winner group.candidates;
          constraints = [];
        })
        GuaranteeLevel.observed (backed group.candidates)
        (EntryReason.first_in_priority winner.scope.kind)
  | _ ↦
      conflict_of group program MergeOperator.first_match
        (ConflictReason.first_match_tie (length race.winners))
]

-- `resolveFirstMatch`
unfoldable pub resolve_first_match : LogicalGroup → PrecedenceProgram → List String → Outcome
unfolding conflict_of rank_run priority_of pick_first distinct_by_content
resolve_first_match group program [] =
    conflict_of group program MergeOperator.first_match ConflictReason.no_priority
resolve_first_match group program (s ∷ ss) =
    elim (rank_run lower (priority_of (s ∷ ss)) (distinct_by_content group.candidates)
      (at_start (length (s ∷ ss)))) [
        | RankRun.ran race ↦ pick_first group program race
        | RankRun.unranked kind ↦
            conflict_of group program MergeOperator.first_match
              (ConflictReason.scope_not_listed kind)
      ]

-- The candidates that no denial removes, and the refs of the others.
unfoldable pub survivors : List String → List Candidate → List Candidate
unfolding is_denied
survivors denied cs = keep (λ c. not (is_denied denied c)) cs

unfoldable pub removed_refs : List String → List Candidate → List String
unfolding is_denied sort
removed_refs denied cs = sort str_leb (map (λ c. c.ref) (keep (is_denied denied) cs))

-- `resolveDenyWins`
unfoldable pub resolve_deny_wins : LogicalGroup → PrecedenceProgram → List String → Outcome
unfolding conflict_of entry_of survivors removed_refs distinct_by_content candidate_refs backed
resolve_deny_wins group program denied =
    let alive = survivors denied group.candidates in
    let removed = removed_refs denied group.candidates in
    let cs = distinct_by_content alive in
    elim cs [
      | [] ↦
          entry_of group
            (record {
              program = program.id;
              operator = MergeOperator.deny_wins;
              selected_source = "";
              active_sources = [];
              ignored_sources = removed;
              constraints = Constraint.every_denied ∷ [];
            })
            GuaranteeLevel.hard (backed group.candidates) EntryReason.deny_wins_nothing
      | winner ∷ [] ↦
          entry_of group
            (record {
              program = program.id;
              operator = MergeOperator.deny_wins;
              selected_source = winner.ref;
              active_sources = candidate_refs alive;
              ignored_sources = removed;
              constraints = Constraint.denials_removed_rest ∷ [];
            })
            GuaranteeLevel.hard (backed group.candidates)
            (EntryReason.deny_wins_survivor (length removed))
      | many ↦
          conflict_of group program MergeOperator.deny_wins
            (ConflictReason.survivors_disagree (length many))
    ]

unfoldable pub managed_sources : List Candidate → List Candidate
managed_sources cs = keep (λ c. str_eq c.scope.kind "managed") cs

-- `resolveManagedGuardrail`
unfoldable pub resolve_managed_guardrail : LogicalGroup → PrecedenceProgram → Outcome
unfolding conflict_of entry_of managed_sources distinct_by_content other_refs backed
resolve_managed_guardrail group program =
    let cs = distinct_by_content (managed_sources group.candidates) in
    elim cs [
      | [] ↦
          conflict_of group program MergeOperator.managed_guardrail ConflictReason.no_managed_source
      | winner ∷ [] ↦
          entry_of group
            (record {
              program = program.id;
              operator = MergeOperator.managed_guardrail;
              selected_source = winner.ref;
              active_sources = winner.ref ∷ [];
              ignored_sources = other_refs winner group.candidates;
              constraints = Constraint.managed_constrains ∷ [];
            })
            GuaranteeLevel.hard (backed group.candidates) EntryReason.managed_authoritative
      | many ↦
          conflict_of group program MergeOperator.managed_guardrail
            (ConflictReason.managed_disagree (length many))
    ]
