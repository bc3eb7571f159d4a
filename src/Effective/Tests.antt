-- ===== src/Effective/Tests.antt =====
-- The scenarios of the theorems on the merge operators, and runs of them.
use Prim.Native.String as Text
use Prim.Native.String.compare
use oh_my_code_agent.Prelude.{
  ℕ, String, true, false, Option, none, some, List, [], ◌∷◌, ◌≡◌, ◌↔◌, arith, refl, sym, ap, ◌∙◌,
  inl, inr, In, str_eq, keep,
}
use oh_my_code_agent.Prelude.Keys.{lookup, string_eq, contains}
use oh_my_code_agent.Prelude.Sort.{sort, insert}
use oh_my_code_agent.Prelude.TextOrder.{str_leb}
use oh_my_code_agent.Domain.Levels.{
  EvidenceLevel, SourceDisposition, CapabilityLevel, GuaranteeLevel, evidence_rank,
}
use oh_my_code_agent.Effective.Types.{
  MergeOperator, Candidate, LogicalGroup, Provenance, EffectiveEntry, Outcome, PrecedenceProgram,
  Options, ConflictReason, Value, leaf, object, operator_valid, Constraint, EntryReason, Fields,
  no_fields, field,
}
use oh_my_code_agent.Effective.Sources.{
  distinct_by_content, one_per_digest, highest_evidence, lookup_program, capability_qualified,
  backed, highest_from,
}
use oh_my_code_agent.Effective.DeepMerge.{
  deep_merge_into, deep_merge_loop, values_equal, get, put, under,
}
use oh_my_code_agent.Effective.DeepMerge.Leaves.{leaf_in, deep_merge_into_keeps}
use oh_my_code_agent.Effective.DeepMerge.Sources.{HasLeaf, deep_merge_into_takes}
use oh_my_code_agent.Effective.Operators.{
  resolve_by_scope_rank, rank_run, race_step, pick_ranked, entry_of, other_refs, conflict_of,
}
use oh_my_code_agent.Effective.Group.{resolve_group, adjudicate, apply_operator}
use oh_my_code_agent.Effective.Group.Denials.{AccountsForDenials, resolve_group_agreed}
use oh_my_code_agent.Effective.Group.Gates.{PassesGates, AllAgree, resolve_group_gates}

abbrev source : String → String → String → SourceDisposition → Candidate
source ref kind digest disposition = record {
  concept = "skill";
  logical_id = "deploy";
  ref = ref;
  scope = record { kind = kind; root = "" };
  disposition = disposition;
  evidence_level = EvidenceLevel.host_reported;
  fields = none;
  content_digest = digest;
  tools = [];
}

abbrev user_skill : Candidate
user_skill = source "user/SKILL.md" "user" "d1" SourceDisposition.active

abbrev managed_skill : Candidate
managed_skill = source "etc/SKILL.md" "managed" "d2" SourceDisposition.active

abbrev denied_copy : Candidate
denied_copy = source "work/SKILL.md" "workspace" "d1" SourceDisposition.denied

abbrev two_contents : LogicalGroup
two_contents = record {
  concept = "skill";
  logical_id = "deploy";
  candidates = user_skill ∷ managed_skill ∷ [];
}

abbrev one_content : LogicalGroup
one_content = record {
  concept = "skill";
  logical_id = "deploy";
  candidates = user_skill ∷ denied_copy ∷ [];
}

abbrev ranks : List (String × ℕ)
ranks = ("user", 9223372036854775809) ∷ ("managed", 9223372036854775810) ∷ []

abbrev by_rank : PrecedenceProgram
by_rank = record {
  id = "skill.replace-by-scope";
  identity = "";
  operator = MergeOperator.replace;
  fixture = "";
}

abbrev options : Options
options = record { scope_rank = ranks; scope_priority = "managed" ∷ "user" ∷ []; denied_refs = [] }

-- a digest that tells a leaf from an object
abbrev tagged : Value → Option String
tagged (leaf s) = some (Text.◌∷◌ "l" s)
tagged (object fs) = some Text.[]

abbrev skill_entry : Provenance → GuaranteeLevel → EntryReason → EffectiveEntry
skill_entry provenance guarantee reason = record {
  concept = "skill";
  logical_id = "deploy";
  is_composed = false;
  provenance = provenance;
  evidence_level = EvidenceLevel.host_reported;
  guarantee = guarantee;
  confirmed = true;
  reason = reason;
}

abbrev managed_only : MergeOperator → List Constraint → Provenance
managed_only operator constraints = record {
  program = "skill.replace-by-scope";
  operator = operator;
  selected_source = "etc/SKILL.md";
  active_sources = "etc/SKILL.md" ∷ [];
  ignored_sources = "user/SKILL.md" ∷ [];
  constraints = constraints;
}

abbrev replaced : EffectiveEntry
replaced =
    skill_entry (managed_only MergeOperator.replace []) GuaranteeLevel.observed
      (EntryReason.outranks MergeOperator.replace "managed" 9223372036854775810 1)

abbrev matched_first : EffectiveEntry
matched_first =
    skill_entry (managed_only MergeOperator.first_match []) GuaranteeLevel.observed
      (EntryReason.first_in_priority "managed")

abbrev guarded : EffectiveEntry
guarded =
    skill_entry (managed_only MergeOperator.managed_guardrail (Constraint.managed_constrains ∷ []))
      GuaranteeLevel.hard EntryReason.managed_authoritative

abbrev undenied : EffectiveEntry
undenied =
    skill_entry
      (record {
        program = "skill.replace-by-scope";
        operator = MergeOperator.deny_wins;
        selected_source = "user/SKILL.md";
        active_sources = "user/SKILL.md" ∷ [];
        ignored_sources = "work/SKILL.md" ∷ [];
        constraints = Constraint.denials_removed_rest ∷ [];
      })
      GuaranteeLevel.hard (EntryReason.deny_wins_survivor 1)

-- One source ranked -2 and another ranked -3: the first has the higher rank, yet neither is selected.
abbrev below_start : List (String × ℕ)
below_start = ("user", 9223372036854775805) ∷ ("managed", 9223372036854775806) ∷ []

low_ranks_conflict :
    resolve_by_scope_rank two_contents by_rank MergeOperator.replace below_start
    ≡ conflict_of two_contents by_rank MergeOperator.replace
        (ConflictReason.tied MergeOperator.replace 0)
unfolding resolve_by_scope_rank rank_run race_step pick_ranked distinct_by_content one_per_digest
    contains lookup sort insert str_eq str_leb
low_ranks_conflict = refl

all_agree :
    (c d : Candidate)
    → In c one_content.candidates
    → In d one_content.candidates
    → c.content_digest ≡ d.content_digest
all_agree c d i j = digest c i ∙ sym (digest d j)
  where
    digest : (c : Candidate) → In c one_content.candidates → c.content_digest ≡ "d1"
    digest c (inl e) = ap (λ x. x.content_digest) e
    digest c (inr (inl e)) = ap (λ x. x.content_digest) e
    digest c (inr (inr z)) = absurd z

resolve_group_agreed_example :
    (e : EffectiveEntry) × (resolve_group tagged one_content [] CapabilityLevel.unknown options
      ≡ Outcome.entry e)
    × AccountsForDenials [] one_content.candidates e.provenance
resolve_group_agreed_example =
    resolve_group_agreed tagged one_content [] CapabilityLevel.unknown options user_skill (inl refl)
      all_agree

sources_differ : ¬ AllAgree two_contents
unfolding str_eq
sources_differ agree =
    let e : true ≡ false =
      ap (str_eq "d1") (agree user_skill managed_skill (inl refl) (inr (inl refl))) in
    ground (arith, e)

resolve_group_gates_example :
    (resolve_group tagged two_contents (by_rank ∷ []) CapabilityLevel.exact options
      ≡ Outcome.entry replaced)
    ↔ PassesGates tagged two_contents (by_rank ∷ []) CapabilityLevel.exact options replaced
resolve_group_gates_example =
    resolve_group_gates tagged two_contents (by_rank ∷ []) CapabilityLevel.exact options replaced
      sources_differ

-- The two sources pass the gates, and the source of the managed scope is selected.
disagreement_resolved :
    resolve_group tagged two_contents (by_rank ∷ []) CapabilityLevel.exact options
    ≡ Outcome.entry replaced
unfolding str_eq resolve_group adjudicate lookup_program operator_valid capability_qualified
    apply_operator resolve_by_scope_rank rank_run race_step pick_ranked entry_of other_refs backed
    highest_evidence highest_from evidence_rank distinct_by_content one_per_digest contains lookup
    sort insert str_leb keep
disagreement_resolved = refl

tagged_apart :
    (l : String) (fs : Fields)
    → (values_equal tagged (leaf l) (object fs) ≡ false)
      × (values_equal tagged (object fs) (leaf l) ≡ false)
unfolding values_equal str_eq
tagged_apart l fs = (rw compare.cons-nil refl, rw compare.nil-cons refl)

abbrev server : Fields
server = field "env" (object (field "HOME" (leaf "/root") no_fields)) no_fields

abbrev overlay : Fields
overlay =
    field "env" (object (field "PORT" (leaf "80") no_fields)) (field "url" (leaf "x") no_fields)

deep_merge_into_takes_example :
    HasLeaf tagged tagged_apart
      (deep_merge_into tagged server overlay "").fields
      ("env" ∷ "PORT" ∷ [])
      "80"
unfolding deep_merge_into deep_merge_loop get put under values_equal str_eq leaf_in
deep_merge_into_takes_example =
    deep_merge_into_takes tagged tagged_apart server overlay "" refl ("env" ∷ "PORT" ∷ []) "80" refl

deep_merge_into_keeps_example :
    leaf_in (some (object (deep_merge_into tagged server overlay "").fields)) ("env" ∷ "HOME" ∷ [])
    ≡ some "/root"
unfolding deep_merge_into deep_merge_loop get put under values_equal str_eq leaf_in
deep_merge_into_keeps_example =
    deep_merge_into_keeps tagged server overlay "" refl ("env" ∷ "HOME" ∷ []) "/root" refl

-- A leaf that differs inside a nested object ends the loop: the fields after it are not merged, also
-- where the scope order decides the leaf.
abbrev clash : Fields
clash =
    field "env" (object (field "HOME" (leaf "/home") no_fields)) (field "url" (leaf "x") no_fields)

nested_clash_drops_the_rest : get (deep_merge_into tagged server clash "").fields "url" ≡ none
unfolding deep_merge_into deep_merge_loop get put under values_equal str_eq
nested_clash_drops_the_rest = refl

-- The path of a second leaf that differs is made from the path of the first.
abbrev two_leaves : String → Fields
two_leaves v = field "a" (leaf v) (field "b" (leaf v) no_fields)

second_clash_path : (deep_merge_into tagged (two_leaves "1") (two_leaves "2") "").path ≡ "a.b"
unfolding deep_merge_into deep_merge_loop get put under values_equal str_eq
second_clash_path = refl
