-- ===== src/Drift/Tests.antt =====
-- The scenarios of the theorems on drift, and a run of the samples.
use oh_my_code_agent.Prelude.{
  List, String, some, [], ◌∷◌, map, ◌≡◌, ◌≢◌, ◌≤◌, ◌⊎◌, refl, In, first, keep, str_eq, length,
}
use oh_my_code_agent.Prelude.Keys.{string_eq, contains, IsNodup}
use oh_my_code_agent.Domain.Levels.{DriftCategory, EvidenceLevel, GuaranteeLevel}
use oh_my_code_agent.Domain.Documents.{Exception, exception_valid}
use oh_my_code_agent.Drift.Types.{Signal, Assertion, category_valid}
use oh_my_code_agent.Drift.Classify.{
  classify, asset_of, scopes_of, underlying_of, exception_for, assertion_of, context_cell,
  find_authorized, authorizes, is_diff_category,
}
use oh_my_code_agent.Drift.Classify.Excepted.{IsAuthorized, classify_excepted}
use oh_my_code_agent.Drift.Samples.{
  select_samples, representatives, unused, effective_limit, fill, take,
}
use oh_my_code_agent.Drift.Samples.Covers.{IsLimit, select_samples_covers}
use oh_my_code_agent.Drift.Group.{group_key_eq, group_with_sample_limit, ActionCard, key_of}
use oh_my_code_agent.Drift.Group.Cards.{group_partition}

abbrev changed : Signal String
changed = record {
  entity_id = "skill:deploy";
  concept = "skill";
  field = "active";
  category = DriftCategory.config_drift;
  expected = "true";
  observed = "false";
  root_cause = "company:example";
  remediation = "enable";
  project = "infra2";
  host = "codex";
  host_version = "0.144.5";
  adapter_version = "1";
  evidence_level = EvidenceLevel.host_reported;
  guarantee = GuaranteeLevel.hard;
  asset_id = "";
  exception_scopes = [];
}

abbrev allowed : Exception
allowed = record {
  api_version = "omca.dev/v1alpha1";
  kind = "Exception";
  id = "e";
  asset_id = "skill:deploy";
  scope = "company:example";
  justification = "release";
  expires_at = 9;
}

abbrev excepted : Assertion String
excepted = record {
  entity_id = "skill:deploy";
  field = "active";
  category = DriftCategory.exception;
  expected = "true";
  observed = "false";
  root_cause = "company:example";
  remediation = "enable";
  context_cell = "infra2 / codex";
  evidence_level = EvidenceLevel.host_reported;
  guarantee = GuaranteeLevel.hard;
  underlying_category = DriftCategory.config_drift;
  project = "infra2";
  host = "codex";
  host_version = "0.144.5";
  adapter_version = "1";
  exception_ref = "e";
}

classify_excepted_example :
    ((excepted.category ≡ DriftCategory.exception)
      × (ex : Exception) × In ex (allowed ∷ [])
      × (excepted.exception_ref ≡ ex.id)
      × IsAuthorized (asset_of changed) (scopes_of changed) 5 ex)
    ⊎ ((excepted.category ≡ underlying_of changed)
        × (excepted.category ≢ DriftCategory.exception)
        × (excepted.exception_ref ≡ "")
        × ((underlying_of changed ≡ DriftCategory.unknown)
            ⊎ ((ex : Exception)
                → In ex (allowed ∷ [])
                → ¬ IsAuthorized (asset_of changed) (scopes_of changed) 5 ex)))
unfolding classify underlying_of exception_for assertion_of context_cell asset_of scopes_of
    find_authorized authorizes is_diff_category category_valid exception_valid first contains keep
    str_eq
classify_excepted_example = classify_excepted changed (allowed ∷ []) 5 excepted refl

abbrev itself : String → String
itself s = s

select_samples_covers_example :
    IsLimit itself
      ("a" ∷ "a" ∷ "b" ∷ [])
      2
      (length (select_samples itself ("a" ∷ "a" ∷ "b" ∷ []) 2))
    × ((s : String)
        → In s (select_samples itself ("a" ∷ "a" ∷ "b" ∷ []) 2)
        → In s ("a" ∷ "a" ∷ "b" ∷ []))
    × ((keys : List String)
        → length keys ≤ length (select_samples itself ("a" ∷ "a" ∷ "b" ∷ []) 2)
        → ((a : String) → In a ("a" ∷ "a" ∷ "b" ∷ []) → In (itself a) keys)
        → (a : String) → In a ("a" ∷ "a" ∷ "b" ∷ [])
        → (s : String) × In s (select_samples itself ("a" ∷ "a" ∷ "b" ∷ []) 2)
          × (itself s ≡ itself a))
select_samples_covers_example = select_samples_covers itself ("a" ∷ "a" ∷ "b" ∷ []) 2

-- With no limit the samples are not in the order of the matrix: the first rows of the buckets come first.
unlimited_order : select_samples itself ("a" ∷ "a" ∷ "b" ∷ []) 0 ≡ "a" ∷ "b" ∷ "a" ∷ []
unfolding select_samples representatives unused effective_limit fill take contains str_eq
unlimited_order = refl

group_partition_example :
    IsNodup (
      map
        (λ (c : ActionCard String). c.key)
        (group_with_sample_limit some itself (excepted ∷ []) 5))
    × ((a : Assertion String)
        → In a (excepted ∷ [])
        → (c : ActionCard String) × In c (group_with_sample_limit some itself (excepted ∷ []) 5)
          × In a c.matrix)
    × ((c : ActionCard String) (a : Assertion String)
        → In c (group_with_sample_limit some itself (excepted ∷ []) 5)
        → In a c.matrix
        → In a (excepted ∷ []) × (key_of a ≡ c.key))
group_partition_example = group_partition some itself (excepted ∷ []) 5
