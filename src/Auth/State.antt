-- ===== src/Auth/State.antt =====
-- internal/domain/mutablestate.go, and StateItem of internal/auth/mutablestate.go with the tables of the
-- two hosts, less the names and the reasons of the rows.
use Prim.Native.Char.{code}
use Prim.Native.String as Text
use oh_my_code_agent.Prelude.{
  ℕ, String, Bool, true, false, Option, none, some, List, [], ◌∷◌, ◌+◌, ◌&&◌, ◌==◌, ltb, length,
  reverse, if◌then◌else◌, str_eq,
}
use oh_my_code_agent.Domain.Host.{HostFault, validate_host_id}

pub data MutableStateClass : Type 0 where
  generation_local worktree_shared workspace_shared identity_shared host_global_external
        prohibited_import :
      MutableStateClass
  other : String → MutableStateClass

-- `MutableStateClass.Valid`
unfoldable pub class_valid : MutableStateClass → Bool
class_valid (other _) = false
class_valid _ = true

-- `SharesAcrossGenerations`
unfoldable pub shares_across_generations : MutableStateClass → Bool
shares_across_generations worktree_shared = true
shares_across_generations workspace_shared = true
shares_across_generations identity_shared = true
shares_across_generations _ = false

-- `StateItem`
pub record StateItem : Type 0 where
  pub category : String
  pub native_path : String
  pub relative_to_home_dir : Bool
  pub class : MutableStateClass

abbrev row : String → String → MutableStateClass → StateItem
row category native_path class = record {
  category = category;
  native_path = native_path;
  relative_to_home_dir = false;
  class = class;
}

-- `codexClassification`
abbrev pub codex_classification : List StateItem
codex_classification =
    row "credentials" "auth.json" prohibited_import
    ∷ row "sessions" "sessions/" generation_local
    ∷ row "logs" "log/" generation_local
    ∷ row "sqlite" "*.sqlite" generation_local
    ∷ row "cache" "cache/" worktree_shared
    ∷ row "trust" "config.toml" host_global_external
    ∷ row "memory" "memories/" generation_local
    ∷ row "sqlite" "*.sqlite-wal" generation_local
    ∷ row "sqlite" "*.sqlite-shm" generation_local
    ∷ row "credentials" "shell_snapshots/" prohibited_import
    ∷ row "cache" "plugins/" workspace_shared
    ∷ row "cache" "models_cache.json" workspace_shared
    ∷ row "cache" "tmp/" generation_local
    ∷ row "cache" ".tmp/" generation_local
    ∷ row "sessions" "history.jsonl" generation_local
    ∷ row "installation-metadata" "version.json" host_global_external
    ∷ row "cache" "skills/" generation_local
    ∷ row "installation-metadata" "installation_id" host_global_external
    ∷ []

-- `claudeClassification`
abbrev pub claude_classification : List StateItem
claude_classification =
    record {
      category = "trust";
      native_path = ".claude.json";
      relative_to_home_dir = true;
      class = prohibited_import;
    }
    ∷ row "sessions" "projects/" generation_local
    ∷ row "logs" "daemon.log" generation_local
    ∷ row "cache" "plugins/" workspace_shared
    ∷ row "installation-metadata" "backups/" generation_local
    ∷ row "cache" "cache/" worktree_shared
    ∷ row "memory" "CLAUDE.md" prohibited_import
    ∷ row "installation-metadata" "remote-settings.json" host_global_external
    ∷ []

-- the result of `ClassificationTable`
pub data Table : Type 0 where
  invalid_host : HostFault → Table
  table : List StateItem → Table

-- `ClassificationTable`
unfoldable pub classification_table : String → Table
unfolding validate_host_id
classification_table host =
    if str_eq host "codex"
    then table codex_classification
    else (if str_eq host "claude-code"
        then table claude_classification
        else elim (validate_host_id host) [ some fault ↦ invalid_host fault | none ↦ table [] ])

-- the code points of a text
unfoldable pub code_points : String → List ℕ
code_points Text.[] = []
code_points (Text.◌∷◌ c s) = code c ∷ code_points s

unfoldable pub same_codes : List ℕ → List ℕ → Bool
same_codes [] [] = true
same_codes (a ∷ as') (b ∷ bs) = (a == b) && same_codes as' bs
same_codes _ _ = false

-- `strings.HasPrefix(name, prefix)`
unfoldable pub has_prefix : List ℕ → List ℕ → Bool
has_prefix name [] = true
has_prefix [] (p ∷ ps) = false
has_prefix (a ∷ name) (p ∷ ps) = (a == p) && has_prefix name ps

-- `strings.TrimSuffix(s, "/")`, on the reversed text
abbrev trim_slash : List ℕ → List ℕ
trim_slash [] = []
trim_slash (c ∷ cs) = if c == b'/' then cs else c ∷ cs

-- `strings.Cut(pattern, "*")`; `none` where the pattern has no star
unfoldable pub cut_star : List ℕ → Option (List ℕ × List ℕ)
cut_star [] = none
cut_star (c ∷ cs) =
    let rest = cut_star cs in
    if c == b'*' then some ([], cs) else elim rest [ none ↦ none | some p ↦ some (c ∷ p.0, p.1) ]

-- `StateItem.Matches`, by code points: the length test counts bytes, which for a name that has the prefix
-- and the suffix comes to the same
unfoldable pub item_matches : StateItem → String → Bool
unfolding code_points same_codes has_prefix cut_star
item_matches item name =
    let pattern = reverse (trim_slash (reverse (code_points item.native_path))) in
    elim (cut_star pattern) [
      | none ↦ same_codes pattern (code_points name)
      | some (prefix, suffix) ↦
          ltb (length prefix + length suffix) (length (code_points name))
          && (has_prefix (code_points name) prefix
              && has_prefix (reverse (code_points name)) (reverse suffix))
    ]
