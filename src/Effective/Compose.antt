-- ===== src/Effective/Compose.antt =====
-- internal/effective/compose.go: sources that are concatenated, in one group or across a concept.
use oh_my_code_agent.Prelude.{
  ℕ, String, Bool, true, false, Option, none, some, List, [], ◌∷◌, ◌++◌, ◌&&◌, map, length,
  if◌then◌else◌, str_append, ltb, ◌==◌,
}
use oh_my_code_agent.Prelude.Keys.{lookup, string_eq}
use oh_my_code_agent.Prelude.Sort.{sort}
use oh_my_code_agent.Prelude.TextOrder.{str_leb}
use oh_my_code_agent.Domain.Levels.{GuaranteeLevel, CapabilityLevel}
use oh_my_code_agent.Effective.Types.{
  MergeOperator, Candidate, LogicalGroup, EntryReason, EffectiveEntry, Outcome, PrecedenceProgram,
}
use oh_my_code_agent.Effective.Sources.{
  candidate_refs, highest_evidence, backed, capability_qualified,
}
use oh_my_code_agent.Effective.DeepMerge.{scope_rank_covers_all}
use oh_my_code_agent.Effective.Operators.{entry_of}

abbrev rank_or : Option ℕ → ℕ
rank_or none = 9223372036854775808
rank_or (some r) = r

abbrev pub rank_in : List (String × ℕ) → Candidate → ℕ
unfolding lookup
rank_in scope_rank c = rank_or (lookup scope_rank c.scope.kind)

-- the order of `concatOrder`: by rank, then by ref
abbrev pub concat_leb : List (String × ℕ) → Candidate → Candidate → Bool
concat_leb scope_rank a b =
    if rank_in scope_rank a == rank_in scope_rank b
    then str_leb a.ref b.ref
    else ltb (rank_in scope_rank a) (rank_in scope_rank b)

abbrev nonempty : List (String × ℕ) → Bool
nonempty [] = false
nonempty (_ ∷ _) = true

-- `confirmed` of `concatOrder`
unfoldable pub order_known : List Candidate → List (String × ℕ) → Bool
unfolding scope_rank_covers_all
order_known cs scope_rank = nonempty scope_rank && scope_rank_covers_all scope_rank cs

-- `concatOrder`
unfoldable pub concat_order : List Candidate → List (String × ℕ) → List String
unfolding order_known candidate_refs sort
concat_order cs scope_rank =
    if order_known cs scope_rank
    then map (λ c. c.ref) (sort (concat_leb scope_rank) cs)
    else candidate_refs cs

-- `resolveConcatWithinGroup`, of merge.go
unfoldable pub resolve_concat_within_group :
    LogicalGroup → PrecedenceProgram → List (String × ℕ) → Outcome
unfolding entry_of order_known concat_order candidate_refs backed
resolve_concat_within_group group program scope_rank =
    let known = order_known group.candidates scope_rank in
    entry_of group
      (record {
        program = program.id;
        operator = MergeOperator.concat_ordered;
        selected_source = "";
        active_sources = candidate_refs group.candidates;
        ignored_sources = [];
        constraints = [];
      })
      GuaranteeLevel.advisory (known && backed group.candidates)
      (if known
        then EntryReason.order_confirmed (concat_order group.candidates scope_rank)
        else EntryReason.order_unconfirmed)

-- `%v` of a list of texts
abbrev spaced : List String → String
spaced [] = ""
spaced (x ∷ []) = x
spaced (x ∷ y ∷ xs) = str_append x (str_append " " (spaced (y ∷ xs)))

abbrev pub bracketed : List String → String
bracketed xs = str_append "[" (str_append (spaced xs) "]")

unfoldable pub all_candidates : List LogicalGroup → List Candidate
all_candidates [] = []
all_candidates (g ∷ gs) = g.candidates ++ all_candidates gs

-- `ComposeConcept`
unfoldable pub compose_concept :
    String
    → List LogicalGroup
    → PrecedenceProgram
    → CapabilityLevel
    → List (String × ℕ)
    → EffectiveEntry
unfolding all_candidates order_known concat_order candidate_refs backed highest_evidence
    capability_qualified
compose_concept concept groups program resolve scope_rank =
    let all = all_candidates groups in
    let ordered = concat_order all scope_rank in
    let qualified = capability_qualified resolve in
    let confirmed = order_known all scope_rank && qualified in
    record {
      concept = concept;
      logical_id = str_append concept ".composition";
      is_composed = true;
      provenance = record {
        program = program.id;
        operator = MergeOperator.concat_ordered;
        selected_source = if confirmed then bracketed ordered else "";
        active_sources = candidate_refs all;
        ignored_sources = [];
        constraints = [];
      };
      evidence_level = highest_evidence all;
      guarantee = GuaranteeLevel.advisory;
      confirmed = confirmed && backed all;
      reason =
          if confirmed
          then EntryReason.composed_confirmed (length groups) concept ordered
          else (if qualified
              then EntryReason.composed_unordered (length groups) concept
              else EntryReason.composed_unqualified (length groups) concept resolve);
    }
