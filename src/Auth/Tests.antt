-- ===== src/Auth/Tests.antt =====
-- The scenarios of the theorems on internal/auth, and runs of its tables.
use oh_my_code_agent.Prelude.{
  String, true, none, some, List, [], ◌∷◌, ◌≡◌, refl, In, str_eq, map, keep,
}
use oh_my_code_agent.Prelude.Keys.{contains, lookup, string_eq}
use oh_my_code_agent.Domain.Host.{validate_host_id}
use oh_my_code_agent.Profiles.Glob.{split_slash}
use oh_my_code_agent.Auth.State.{
  StateItem, MutableStateClass, codex_classification, item_matches, shares_across_generations,
  code_points, same_codes, has_prefix, cut_star,
}
use oh_my_code_agent.Auth.Paths.{clean_path, clean_from, clean_step, back}
use oh_my_code_agent.Auth.Allowlist.{
  AllowlistedShare, allowlist, is_abs, relative_fault, rejects_broad_rel_path, escaping_path,
  validate_share, validate_from, validate_allowlist, SymlinkPlan, planned, plan_of,
  plan_allowlisted_symlinks,
}
use oh_my_code_agent.Auth.Allowlist.Inside.{IsBelow}
use oh_my_code_agent.Auth.Allowlist.Planned.{plan_allowlisted_symlinks-IsBelow}
use oh_my_code_agent.Auth.Fallback.{
  keyring_qualification, PlatformKeyringQualification, direnv_secret_env_var, decide, exists,
}
use oh_my_code_agent.Auth.Fallback.Rungs.{SetAlike, decide-SetAlike, Verdict, decide-Verdict}

-- The committed allowlist is valid, so the program's `init` does not panic.
allowlist_valid : validate_allowlist allowlist ≡ none
unfolding validate_allowlist validate_from validate_share validate_host_id contains str_eq
    rejects_broad_rel_path is_abs relative_fault clean_path clean_from clean_step back split_slash
    shares_across_generations
allowlist_valid = refl

codex_valid : validate_host_id "codex" ≡ none
unfolding validate_host_id contains str_eq
codex_valid = refl

escape_rejected : rejects_broad_rel_path "cache/../.." ≡ some escaping_path
unfolding rejects_broad_rel_path is_abs relative_fault clean_path clean_from clean_step back
    split_slash str_eq
escape_rejected = refl

plan_allowlisted_symlinks-IsBelow_example :
    (ps : List SymlinkPlan) × (plan_allowlisted_symlinks allowlist "codex" "/home/me/.codex"
        "/gen/codex"
      ≡ planned ps)
    × ((e : AllowlistedShare)
        → In e allowlist
        → e.host ≡ "codex"
        → In (plan_of "/home/me/.codex" "/gen/codex" e) ps)
    × ((p : SymlinkPlan)
        → In p ps
        → (e : AllowlistedShare) × In e allowlist
          × (e.host ≡ "codex")
          × (p ≡ plan_of "/home/me/.codex" "/gen/codex" e))
    × ((p : SymlinkPlan)
        → In p ps
        → (shares_across_generations p.class ≡ true)
          × IsBelow "/home/me/.codex" p.target
          × IsBelow "/gen/codex" p.link)
unfolding str_eq
plan_allowlisted_symlinks-IsBelow_example =
    plan_allowlisted_symlinks-IsBelow allowlist "codex" "/home/me/.codex" "/gen/codex"
      allowlist_valid codex_valid refl refl

-- the classes of the rows that match a name
abbrev classes_of : List StateItem → String → List MutableStateClass
classes_of items name = map (λ i. i.class) (keep (λ i. item_matches i name) items)

write_ahead_log_local :
    classes_of codex_classification "state_5.sqlite-wal" ≡ MutableStateClass.generation_local ∷ []
unfolding keep item_matches code_points same_codes has_prefix cut_star
write_ahead_log_local = refl

abbrev key_set : String → String
key_set v = "sk-1"

abbrev other_key_set : String → String
other_key_set v = "sk-2"

keys_alike : SetAlike key_set other_key_set
unfolding str_eq
keys_alike v = refl

decide-SetAlike_example :
    decide "codex" key_set none (keyring_qualification "darwin")
    ≡ decide "codex" other_key_set none (keyring_qualification "darwin")
decide-SetAlike_example =
    decide-SetAlike "codex" key_set other_key_set none (keyring_qualification "darwin") keys_alike

abbrev qualified_platform : PlatformKeyringQualification
qualified_platform = record { platform = "darwin"; qualified = true }

codex_wired : lookup direnv_secret_env_var "codex" ≡ some "OPENAI_API_KEY"
unfolding lookup str_eq
codex_wired = refl

decide-Verdict_example :
    Verdict "codex" "OPENAI_API_KEY" key_set qualified_platform
      (some (λ service account. exists true))
      (decide "codex" key_set (some (λ service account. exists true)) qualified_platform)
decide-Verdict_example =
    decide-Verdict "codex" "OPENAI_API_KEY" key_set qualified_platform
      (some (λ service account. exists true)) codex_wired
