-- ===== src/Drift/Classify.antt =====
-- internal/drift/classify.go.
pub mod Excepted
use oh_my_code_agent.Prelude.{
  ℕ, String, Bool, true, false, Option, none, some, List, [], ◌∷◌, ◌&&◌, ◌||◌, not, str_eq,
  str_append, ltb, first, keep, if◌then◌else◌, suc,
}
use oh_my_code_agent.Prelude.Keys.{Eq, contains, string_eq}
use oh_my_code_agent.Domain.Levels.{DriftCategory}
use oh_my_code_agent.Domain.Documents.{Exception, exception_valid}
use oh_my_code_agent.Drift.Types.{Signal, Assertion, category_beq, category_valid}

-- `isDiffCategory`
unfoldable pub is_diff_category : DriftCategory → Bool
is_diff_category DriftCategory.config_drift = true
is_diff_category DriftCategory.effective_drift = true
is_diff_category DriftCategory.source_drift = true
is_diff_category _ = false

-- `findException`, the four tests of the loop and the loop
unfoldable pub authorizes : String → List String → ℕ → Exception → Bool
authorizes asset scopes now ex =
    exception_valid ex
    && str_eq ex.asset_id asset
    && contains (keep (λ s. not (str_eq s "")) scopes) ex.scope
    && ltb now ex.expires_at

abbrev nothing_asked : String → List String → Bool
nothing_asked asset [] = true
nothing_asked asset (_ ∷ _) = str_eq asset ""

unfoldable pub find_authorized : List Exception → String → List String → ℕ → Option Exception
unfolding authorizes
find_authorized exceptions asset scopes now =
    if nothing_asked asset scopes then none else first (authorizes asset scopes now) exceptions

abbrev is_empty : List String → Bool
is_empty [] = true
is_empty (_ ∷ _) = false

pub data SignalFault : Type 0 where
  no_entity_id : SignalFault
  no_field : SignalFault
  no_root_cause : SignalFault
  given_exception : String → String → SignalFault
  invalid_category : String → String → DriftCategory → SignalFault

-- the results of `Classify`
pub data Classified (A : Type 0) : Type 0 where
  asserted : Assertion A → Classified A
  no_difference : Classified A
  invalid_signal : SignalFault → Classified A

abbrev pub category_with : DriftCategory → Option Exception → DriftCategory
category_with underlying none = underlying
category_with underlying (some ex) = DriftCategory.exception

abbrev pub ref_of : Option Exception → String
ref_of none = ""
ref_of (some ex) = ex.id

module _ {A : Type 0} where
  -- `contextCell`
  unfoldable pub context_cell : Signal A → String
  context_cell sig =
      if not (str_eq sig.project "") && not (str_eq sig.host "")
      then str_append sig.project (str_append " / " sig.host)
      else (if not (str_eq sig.project "") then sig.project else sig.host)

  -- `underlying`
  unfoldable pub underlying_of : Signal A → DriftCategory
  underlying_of sig =
      if category_beq sig.category (DriftCategory.other "")
      then DriftCategory.unknown
      else sig.category

  unfoldable pub asset_of : Signal A → String
  asset_of sig = if str_eq sig.asset_id "" then sig.entity_id else sig.asset_id

  unfoldable pub scopes_of : Signal A → List String
  scopes_of sig =
      if is_empty sig.exception_scopes then sig.root_cause ∷ [] else sig.exception_scopes

  -- the exception that applies, if any
  unfoldable pub exception_for : Signal A → List Exception → ℕ → Option Exception
  unfolding underlying_of asset_of scopes_of find_authorized
  exception_for sig exceptions now =
      if category_beq (underlying_of sig) DriftCategory.unknown
      then none
      else find_authorized exceptions (asset_of sig) (scopes_of sig) now

  unfoldable pub assertion_of : Signal A → Option Exception → Assertion A
  unfolding context_cell underlying_of
  assertion_of sig ex = record {
    entity_id = sig.entity_id;
    field = sig.field;
    category = category_with (underlying_of sig) ex;
    expected = sig.expected;
    observed = sig.observed;
    root_cause = sig.root_cause;
    remediation = sig.remediation;
    context_cell = context_cell sig;
    evidence_level = sig.evidence_level;
    guarantee = sig.guarantee;
    underlying_category = underlying_of sig;
    project = sig.project;
    host = sig.host;
    host_version = sig.host_version;
    adapter_version = sig.adapter_version;
    exception_ref = ref_of ex;
  }

-- the results of `ClassifyAll`
pub data AllClassified (A : Type 0) : Type 0 where
  all_asserted : List (Assertion A) → AllClassified A
  invalid_at : ℕ → SignalFault → AllClassified A

abbrev cons_asserted : {A : Type 0} → Assertion A → AllClassified A → AllClassified A
cons_asserted a (all_asserted rest) = all_asserted (a ∷ rest)
cons_asserted a (invalid_at i f) = invalid_at i f

module _ {A : Type 0} ⦃e : Eq A⦄ where
  -- `Classify`
  unfoldable pub classify : Signal A → List Exception → ℕ → Classified A
  unfolding underlying_of category_valid is_diff_category assertion_of exception_for
  classify sig exceptions now =
      if str_eq sig.entity_id ""
      then invalid_signal no_entity_id
      else (if str_eq sig.field ""
          then invalid_signal no_field
          else (if str_eq sig.root_cause ""
              then invalid_signal no_root_cause
              else (if category_beq (underlying_of sig) DriftCategory.exception
                  then invalid_signal (given_exception sig.entity_id sig.field)
                  else (if not (category_valid (underlying_of sig))
                      then invalid_signal (invalid_category sig.entity_id sig.field sig.category)
                      else (if is_diff_category (underlying_of sig)
                            && e.beq sig.expected sig.observed
                          then no_difference
                          else asserted (assertion_of sig (exception_for sig exceptions now)))))))

  -- the loop of `ClassifyAll` from an index
  unfoldable pub classify_from : ℕ → List (Signal A) → List Exception → ℕ → AllClassified A
  unfolding classify
  classify_from i [] exceptions now = all_asserted []
  classify_from i (sig ∷ sigs) exceptions now =
      let rest = classify_from (suc i) sigs exceptions now in
      elim (classify sig exceptions now) [
        | asserted a ↦ cons_asserted a rest
        | no_difference ↦ rest
        | invalid_signal f ↦ invalid_at i f
      ]

  -- `ClassifyAll`
  unfoldable pub classify_all : List (Signal A) → List Exception → ℕ → AllClassified A
  unfolding classify_from
  classify_all sigs exceptions now = classify_from 0 sigs exceptions now
