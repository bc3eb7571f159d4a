-- ===== src/Profiles/Tests.antt =====
-- The scenarios of the theorems on bindings, identities and `Compose`. A segment of a pattern is here
-- `*` or a literal.
use oh_my_code_agent.Prelude.{
  String, Bool, true, Option, some, List, [], ◌∷◌, map, ◌≡◌, ◌≢◌, ◌↔◌, ◌⊎◌, refl, inl, inr, ◌||◌,
  str_eq, In, keep, some_of,
}
use oh_my_code_agent.Prelude.Keys.{contains, distinct, lookup, string_eq}
use oh_my_code_agent.Prelude.Sort.{sort, IsSorted}
use oh_my_code_agent.Prelude.TextOrder.{str_leb, str_ltb}
use mathlib.Core.List.{Perm}
use oh_my_code_agent.Domain.Documents.{Profile, Binding, Activation, ActivationSelection}
use oh_my_code_agent.Profiles.Glob.{
  glob_match, Matches, split_slash, path_segments, glob_match_iff, glob_match_segments,
}
use oh_my_code_agent.Profiles.Binding.{
  match_bindings_with_main, SelectsRepository, SelectsPath, match_bindings_iff, matched_profile_ids,
  binding_profiles, matches_repository, matches_paths, binding_matches,
}
use oh_my_code_agent.Profiles.Identity.{
  AmbiguousCategory, IdentityResolution, resolve_identities, final_profile_ids, category_leb,
  profile_category, category_list, resolve_order, choose, by_category, dedupe_sorted,
  ordered_categories, resolution_categories, final_from, take_category, take_selected,
  candidates_of, category_less, position,
}
use oh_my_code_agent.Profiles.Identity.Final.{Answers, final_one_per_category}
use oh_my_code_agent.Profiles.Compose.{
  loaded, Loads, Target, CompositionResult, compose, matched_ids, finish, compose_profiles,
  select_profiles_by_id, profile_by_id,
}

abbrev star : String → String → Option Bool
star p s = some (str_eq p "*" || str_eq p s)

abbrev alice_ids : List String
alice_ids = "company:example" ∷ "personal:alice" ∷ "personal:work" ∷ []

abbrev two_personal : IdentityResolution
two_personal = record {
  resolved = ("company", "company:example") ∷ [];
  ambiguous =
      (record { category = "personal"; candidates = "personal:alice" ∷ "personal:work" ∷ [] }) ∷ [];
}

abbrev picks_work : List (String × String)
picks_work = ("personal", "personal:work") ∷ []

abbrev everywhere : Binding
everywhere = record {
  api_version = "omca.dev/v1alpha1";
  kind = "Binding";
  id = "b";
  match = record { repository = "r"; repository_glob = ""; paths = "src/**" ∷ [] };
  profiles = "company:example" ∷ [];
}

abbrev company : Profile
company = record {
  api_version = "omca.dev/v1alpha1";
  kind = "Profile";
  id = "company:example";
  assets = record { skills = []; mcp_servers = []; instructions = [] };
  permissions = [];
}

abbrev nothing : ActivationSelection
nothing = record { skills = []; mcp_servers = [] }

abbrev quiet : Activation
quiet = record {
  api_version = "";
  kind = "Activation";
  worktree = "w";
  enable = nothing;
  disable = nothing;
  hosts = [];
}

abbrev loads : Loads
loads = record {
  profiles = loaded (company ∷ []);
  bindings = loaded (everywhere ∷ []);
  selection = loaded picks_work;
  activation = loaded quiet;
  exceptions = loaded [];
}

abbrev target : Target
target = record { repository = "r"; main_repository = ""; rel_path = "src/x"; now = 5 }

glob_match_iff_example :
    (glob_match star "src/**/*.go" "src/x/y/*.go" ≡ true)
    ↔ Matches star (split_slash "src/**/*.go") (path_segments "src/x/y/*.go")
glob_match_iff_example = glob_match_iff star "src/**/*.go" "src/x/y/*.go"

match_bindings_iff_example :
    In everywhere (match_bindings_with_main star (everywhere ∷ []) "r" "" "src/x") ↔ (
      In everywhere (everywhere ∷ [])
      × (SelectsRepository star everywhere.match "r"
          ⊎ ((◌≢◌ {A = String} "" "") × SelectsRepository star everywhere.match ""))
      × SelectsPath star everywhere.match.paths "src/x")
match_bindings_iff_example = match_bindings_iff star (everywhere ∷ []) "r" "" "src/x" everywhere

final_one_per_category_example :
    ((id : String) → In id ("personal:work" ∷ "company:example" ∷ []) → In id alice_ids)
    × Perm
        (map profile_category ("personal:work" ∷ "company:example" ∷ []))
        (distinct (map profile_category alice_ids))
    × IsSorted category_leb (map profile_category ("personal:work" ∷ "company:example" ∷ []))
unfolding final_profile_ids resolve_identities category_list resolve_order choose by_category
    dedupe_sorted ordered_categories resolution_categories final_from take_category take_selected
    candidates_of category_leb category_less position profile_category sort distinct contains lookup
    keep str_eq str_leb str_ltb
final_one_per_category_example =
    final_one_per_category alice_ids picks_work ("personal:work" ∷ "company:example" ∷ []) refl

picks-Answers : (a : AmbiguousCategory) → In a two_personal.ambiguous → Answers picks_work a
unfolding lookup str_eq
picks-Answers a (inl e) = rw e (record {
  id = "personal:work";
  found = refl;
  not_empty = λ q. cc;
  is_candidate = inr (inl refl);
})
picks-Answers a (inr z) = absurd z

abbrev only_company : CompositionResult
only_company = record { profiles = company ∷ []; activation = quiet; live = []; expired = [] }

compose_profiles_example :
    (all : List Profile) × (bindings : List Binding) × (loads.profiles ≡ loaded all)
    × (loads.bindings ≡ loaded bindings)
    × ((p : Profile)
        → In p only_company.profiles
        → In p all × In p.id (matched_ids star target bindings))
unfolding compose finish matched_ids matched_profile_ids match_bindings_with_main binding_matches
    matches_repository matches_paths binding_profiles glob_match glob_match_segments split_slash
    path_segments select_profiles_by_id profile_by_id final_profile_ids resolve_identities
    category_list resolve_order choose by_category dedupe_sorted ordered_categories
    resolution_categories final_from take_category take_selected candidates_of category_leb
    category_less position profile_category sort distinct contains lookup keep some_of str_eq
    str_leb str_ltb
compose_profiles_example = compose_profiles star target loads only_company refl
