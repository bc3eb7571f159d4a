-- ===== src/Drift/Group.antt =====
-- internal/drift/group.go. `canonical_digest` is domain.CanonicalDigest and `type_name` what `%T` prints;
-- the evidence counts are keyed by the text of a level.
pub mod Cards
use oh_my_code_agent.Prelude.{
  ℕ, String, Bool, true, false, Option, none, some, str_append, List, [], ◌∷◌, map, ◌≡◌, ◌↔◌, ◌&&◌,
  arith, not, str_eq, str_eq_iff, keep, length, if◌then◌else◌, suc,
}
use oh_my_code_agent.Prelude.Keys.{Eq, contains, distinct, string_eq}
use oh_my_code_agent.Prelude.Sort.{sort}
use oh_my_code_agent.Prelude.TextOrder.{str_ltb, str_leb}
use oh_my_code_agent.Domain.Levels.{EvidenceLevel, GuaranteeLevel, DriftCategory}
use oh_my_code_agent.Drift.Types.{Assertion, category_beq, category_beq_iff, category_text}
use oh_my_code_agent.Drift.Samples.{select_samples}

unfoldable pub evidence_text : EvidenceLevel → String
evidence_text EvidenceLevel.discovered = "E0"
evidence_text EvidenceLevel.parsed = "E1"
evidence_text EvidenceLevel.resolved = "E2"
evidence_text EvidenceLevel.host_reported = "E3"
evidence_text EvidenceLevel.behavior_probed = "E4"
evidence_text EvidenceLevel.externally_proven = "E5"
evidence_text (EvidenceLevel.other s) = s

unfoldable pub guarantee_text : GuaranteeLevel → String
guarantee_text GuaranteeLevel.hard = "HARD"
guarantee_text GuaranteeLevel.reconciled = "RECONCILED"
guarantee_text GuaranteeLevel.advisory = "ADVISORY"
guarantee_text GuaranteeLevel.observed = "OBSERVED"
guarantee_text (GuaranteeLevel.other s) = s

-- `groupKey`
pub record GroupKey : Type 0 where
  pub root_cause : String
  pub remediation : String
  pub category : DriftCategory
  pub adapter_version : String

abbrev pub group_key_beq : GroupKey → GroupKey → Bool
group_key_beq a b =
    str_eq a.root_cause b.root_cause
    && str_eq a.remediation b.remediation
    && category_beq a.category b.category
    && str_eq a.adapter_version b.adapter_version

pub group_key_beq_iff : (a b : GroupKey) → (group_key_beq a b ≡ true) ↔ (a ≡ b)
group_key_beq_iff a b = (
  λ h. ground (
    arith,
    (str_eq_iff a.root_cause b.root_cause).0,
    (str_eq_iff a.remediation b.remediation).0,
    (category_beq_iff a.category b.category).0,
    (str_eq_iff a.adapter_version b.adapter_version).0,
  ),
  λ h. ground (
    arith,
    (str_eq_iff a.root_cause b.root_cause).1,
    (str_eq_iff a.remediation b.remediation).1,
    (category_beq_iff a.category b.category).1,
    (str_eq_iff a.adapter_version b.adapter_version).1,
  ),
)

instance abbrev pub group_key_eq : Eq GroupKey
group_key_eq = record { beq = group_key_beq; beq_iff = group_key_beq_iff }

-- the less function on keys
unfoldable pub group_key_less : GroupKey → GroupKey → Bool
group_key_less a b =
    if not (str_eq a.root_cause b.root_cause)
    then str_ltb a.root_cause b.root_cause
    else (if not (str_eq a.remediation b.remediation)
        then str_ltb a.remediation b.remediation
        else (if not (category_beq a.category b.category)
            then str_ltb (category_text a.category) (category_text b.category)
            else str_ltb a.adapter_version b.adapter_version))

pub record Impact : Type 0 where
  pub projects : ℕ
  pub hosts : ℕ
  pub artifacts : ℕ

-- `representativeGuarantee`, from the guarantee found so far
unfoldable pub guarantee_from : {A : Type 0} → GuaranteeLevel → List (Assertion A) → GuaranteeLevel
guarantee_from g [] = g
guarantee_from g (a ∷ rows) =
    let rest = guarantee_from g rows in
    let first = guarantee_from a.guarantee rows in
    if str_eq (guarantee_text a.guarantee) ""
    then rest
    else (if str_eq (guarantee_text g) ""
        then first
        else (if str_eq (guarantee_text g) (guarantee_text a.guarantee)
            then rest
            else GuaranteeLevel.other ""))

unfoldable pub count_level : {A : Type 0} → String → List (Assertion A) → ℕ
count_level level rows = length (keep (λ a. str_eq (evidence_text a.evidence_level) level) rows)

-- the keys of a set or map that the empty text does not enter
abbrev named : List String → List String
named xs = distinct (keep (λ s. not (str_eq s "")) xs)

module _ {A : Type 0} where
  unfoldable pub key_of : Assertion A → GroupKey
  key_of a = record {
    root_cause = a.root_cause;
    remediation = a.remediation;
    category = a.category;
    adapter_version = a.adapter_version;
  }

  -- `matrixLess`
  unfoldable pub matrix_less : Assertion A → Assertion A → Bool
  matrix_less a b =
      if not (str_eq a.project b.project)
      then str_ltb a.project b.project
      else (if not (str_eq a.host b.host)
          then str_ltb a.host b.host
          else (if not (str_eq a.entity_id b.entity_id)
              then str_ltb a.entity_id b.entity_id
              else str_ltb a.field b.field))

  -- `computeImpact`
  unfoldable pub compute_impact : List (Assertion A) → Impact
  compute_impact matrix = record {
    projects = length (named (map (λ a. a.project) matrix));
    hosts = length (named (map (λ a. a.host) matrix));
    artifacts = length matrix;
  }

  -- `computeEvidenceCounts`
  unfoldable pub compute_evidence_counts : List (Assertion A) → List (String × ℕ)
  unfolding count_level
  compute_evidence_counts matrix =
      map (λ level. (level, count_level level matrix))
        (named (map (λ a. evidence_text a.evidence_level) matrix))

  -- `representativeGuarantee`
  unfoldable pub representative_guarantee : List (Assertion A) → GuaranteeLevel
  unfolding guarantee_from
  representative_guarantee matrix = guarantee_from (GuaranteeLevel.other "") matrix

pub record ActionCard (A : Type 0) : Type 0 where
  pub key : GroupKey
  pub impact : Impact
  pub evidence_counts : List (String × ℕ)
  pub guarantee : GuaranteeLevel
  pub samples : List (Assertion A)
  pub matrix : List (Assertion A)

module _ {A : Type 0} (canonical_digest : A → Option String) (type_name : A → String) where
  abbrev key_text : Option String → Option String → A → A → String
  key_text (some expected) (some observed) x y = str_append expected (str_append "->" observed)
  key_text _ _ x y =
      str_append (str_append "undigestable:" (type_name x))
        (str_append "->" (str_append "undigestable:" (type_name y)))

  -- `outcomeBucketKey`
  unfoldable pub outcome_bucket_key : Assertion A → String
  outcome_bucket_key a =
      str_append
        (key_text (canonical_digest a.expected) (canonical_digest a.observed) a.expected a.observed)
        (if category_beq a.category DriftCategory.exception
          then "|exception=true"
          else "|exception=false")

  abbrev pub matrix_leb : Assertion A → Assertion A → Bool
  matrix_leb a b = not (matrix_less b a)

  abbrev pub group_key_leb : GroupKey → GroupKey → Bool
  group_key_leb a b = not (group_key_less b a)

  -- `buckets[k]`
  unfoldable pub bucket : GroupKey → List (Assertion A) → List (Assertion A)
  unfolding key_of
  bucket k assertions = keep (λ a. group_key_beq (key_of a) k) assertions

  -- the card of a key
  unfoldable pub card_of : ℕ → List (Assertion A) → GroupKey → ActionCard A
  unfolding bucket sort outcome_bucket_key select_samples compute_impact compute_evidence_counts
      representative_guarantee
  card_of sample_limit assertions k =
      let matrix = sort matrix_leb (bucket k assertions) in
      record {
        key = k;
        impact = compute_impact matrix;
        evidence_counts = compute_evidence_counts matrix;
        guarantee = representative_guarantee matrix;
        samples = select_samples outcome_bucket_key matrix sample_limit;
        matrix = matrix;
      }

  unfoldable pub group_keys : List (Assertion A) → List GroupKey
  unfolding key_of sort
  group_keys assertions = sort group_key_leb (distinct (map key_of assertions))

  -- `GroupWithSampleLimit`
  unfoldable pub group_with_sample_limit : List (Assertion A) → ℕ → List (ActionCard A)
  unfolding card_of group_keys
  group_with_sample_limit assertions sample_limit =
      map (card_of sample_limit assertions) (group_keys assertions)

-- `Query`
unfoldable pub query : {A : Type 0} → ActionCard A → String → List (Assertion A)
query card entity_id = keep (λ a. str_eq a.entity_id entity_id) card.matrix
