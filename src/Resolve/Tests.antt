-- ===== src/Resolve/Tests.antt =====
-- The scenarios of the theorems on `Resolve`, and runs of it.
use oh_my_code_agent.Prelude.{
  ◌↔◌, ℕ, String, true, false, List, [], ◌∷◌, ◌≡◌, refl, inl, inr, ◌⊎◌, str_eq, keep, first,
  some_of, last, is_some,
}
use oh_my_code_agent.Prelude.Keys.{contains, distinct, lookup, string_eq, nat_eq}
use oh_my_code_agent.Prelude.Sort.{sort}
use oh_my_code_agent.Prelude.TextOrder.{str_leb}
use oh_my_code_agent.Domain.Levels.{Intent, required, default, available, denied}
use oh_my_code_agent.Domain.Documents.{
  AssetRef, Profile, ActivationSelection, Activation, Exception,
}
use oh_my_code_agent.Resolve.Types.{AssetKey, skill, kind_text, is_active, has_conflict, key_eq}
use oh_my_code_agent.Resolve.Candidates.{collect_profile_candidates, entries_at, applies_to}
use oh_my_code_agent.Resolve.Waiver.Waived.{Waived}
use oh_my_code_agent.Resolve.Layer.{in_selection, apply_layer}
use oh_my_code_agent.Resolve.Decide.{
  has_intent, ids_with, last_wins, baseline, activate, apply_activation, resolve_one,
}
use oh_my_code_agent.Resolve.Decide.Reduce.{reduce_group, group, profile_order, reduce_applicable}
use oh_my_code_agent.Resolve.Run.{
  mentioned, selected, key_leb, collect_universe, resolve_keys, resolve_profiles,
}
use oh_my_code_agent.Resolve.Run.{resolve}
use oh_my_code_agent.Resolve.Run.Expiry.{live, resolve_ignores_expired}
use oh_my_code_agent.Resolve.Waiver.{find_exception, waives}
use oh_my_code_agent.Resolve.Types.{find}
use oh_my_code_agent.Domain.Documents.{exception_valid}
use oh_my_code_agent.Resolve.Run.Mentions.{IsReferenced, IsSelected, resolve_partition}
use oh_my_code_agent.Resolve.Run.Policies.{States, denied_stays_inactive, required_stays_active}

abbrev ref : String → Intent → List String → AssetRef
ref id i hosts = record { id = id; intent = i; hosts = hosts }

abbrev profile : String → List AssetRef → Profile
profile id skills = record {
  api_version = "omca.dev/v1alpha1";
  kind = "Profile";
  id = id;
  assets = record { skills = skills; mcp_servers = []; instructions = [] };
  permissions = [];
}

abbrev personal : Profile
personal = profile "personal:alice" (ref "deploy" default [] ∷ ref "review" available [] ∷ [])

abbrev company : Profile
company =
    profile "company:example" (ref "deploy" denied ("codex" ∷ []) ∷ ref "audit" required [] ∷ [])

abbrev select : List String → ActivationSelection
select skills = record { skills = skills; mcp_servers = [] }

abbrev eager : Activation
eager = record {
  api_version = "omca.dev/v1alpha1";
  kind = "Activation";
  worktree = "w";
  enable = select ("deploy" ∷ "review" ∷ []);
  disable = select ("audit" ∷ []);
  hosts = [];
}

abbrev deploy : AssetKey
deploy = record { kind = skill; id = "deploy" }

abbrev audit : AssetKey
audit = record { kind = skill; id = "audit" }

not-Waived : (asset scope : String) (now : ℕ) → ¬ Waived [] asset scope now
not-Waived asset scope now w = w.listed

company_denies : States denied deploy "codex" (personal ∷ company ∷ []) company
company_denies = record {
  listed = inr (inl refl);
  ref = ref "deploy" denied ("codex" ∷ []);
  has_ref = inl refl;
  same_id = refl;
  intent = refl;
  applies = inr (inl refl);
}

company_requires : States required audit "codex" (personal ∷ company ∷ []) company
company_requires = record {
  listed = inr (inl refl);
  ref = ref "audit" required [];
  has_ref = inr (inl refl);
  same_id = refl;
  intent = refl;
  applies = inl refl;
}

denied_stays_inactive_example :
    is_active (resolve_profiles (personal ∷ company ∷ []) eager [] "codex" 5) deploy ≡ false
denied_stays_inactive_example =
    denied_stays_inactive (personal ∷ company ∷ []) eager [] "codex" 5 deploy company company_denies
      (λ q s. not-Waived "deploy" q.id 5)

required_stays_active_example :
    (is_active (resolve_profiles (personal ∷ company ∷ []) eager [] "codex" 5) audit ≡ true)
    ⊎ (has_conflict (resolve_profiles (personal ∷ company ∷ []) eager [] "codex" 5) audit ≡ true)
required_stays_active_example =
    required_stays_active (personal ∷ company ∷ []) eager [] "codex" 5 audit company
      company_requires (λ q s. not-Waived "audit" q.id 5)

-- The same asset is active on a host that the denial does not list.
deploy_elsewhere :
    is_active (resolve_profiles (personal ∷ company ∷ []) eager [] "claude-code" 5) deploy ≡ true
unfolding resolve_profiles is_active collect_profile_candidates entries_at collect_universe
    mentioned selected key_leb resolve_keys resolve_one applies_to reduce_applicable profile_order
    group reduce_group baseline has_intent ids_with last_wins activate apply_activation apply_layer
    in_selection sort distinct contains lookup keep some_of first last str_leb str_eq kind_text
deploy_elsewhere = refl

resolve_partition_example :
    let s = resolve_profiles (personal ∷ company ∷ []) eager [] "codex" 5 in
    (((is_some (find s deploy) ≡ true) ⊎ (has_conflict s deploy ≡ true))
      ↔ (IsReferenced (personal ∷ company ∷ []) deploy ⊎ IsSelected eager "codex" deploy))
    × ¬ ((is_some (find s deploy) ≡ true) × (has_conflict s deploy ≡ true))
resolve_partition_example = resolve_partition (personal ∷ company ∷ []) eager [] "codex" 5 deploy

abbrev exception : ℕ → Exception
exception expires_at = record {
  api_version = "omca.dev/v1alpha1";
  kind = "Exception";
  id = "e";
  asset_id = "deploy";
  scope = "company:example";
  justification = "release";
  expires_at = expires_at;
}

resolve_ignores_expired_example :
    resolve (personal ∷ company ∷ []) eager (live 5 (exception 5 ∷ exception 9 ∷ [])) "codex" 5
    ≡ resolve (personal ∷ company ∷ []) eager (exception 5 ∷ exception 9 ∷ []) "codex" 5
resolve_ignores_expired_example =
    resolve_ignores_expired (personal ∷ company ∷ []) eager (exception 5 ∷ exception 9 ∷ []) "codex"
      5

-- The exception of the company's denial lifts it while it lives.
deploy_excepted :
    is_active (resolve_profiles (personal ∷ company ∷ []) eager (exception 9 ∷ []) "codex" 5) deploy
    ≡ true
unfolding resolve_profiles is_active find collect_profile_candidates entries_at collect_universe
    mentioned selected key_leb resolve_keys resolve_one applies_to reduce_applicable profile_order
    group reduce_group baseline has_intent ids_with last_wins activate apply_activation apply_layer
    in_selection sort distinct contains lookup keep some_of first last str_leb str_eq kind_text
    find_exception waives exception_valid
deploy_excepted = refl

nobody-States : (i : Intent) (p : Profile) → ¬ States i deploy "codex" [] p
nobody-States i p s = s.listed
