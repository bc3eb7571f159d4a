-- ===== src/Auth/Allowlist.antt =====
-- internal/auth/allowlist.go: the native state that a generation may link to. A path is its segments; the
-- links are planned here, and the program makes them after that.
pub mod Inside
pub mod Planned
use Prim.Native.Char.{code}
use Prim.Native.String as Text
use oh_my_code_agent.Prelude.{
  ℕ, suc, String, Bool, true, false, not, Option, none, some, List, [], ◌∷◌, ◌++◌, ◌||◌, ◌==◌,
  if◌then◌else◌, str_eq,
}
use oh_my_code_agent.Domain.Host.{HostFault, validate_host_id}
use oh_my_code_agent.Profiles.Glob.{split_slash}
use oh_my_code_agent.Auth.State.{MutableStateClass, worktree_shared, shares_across_generations}
use oh_my_code_agent.Auth.Paths.{clean_path}

-- `AllowlistedShare`
pub record AllowlistedShare : Type 0 where
  pub host : String
  pub category : String
  pub rel_path : String
  pub class : MutableStateClass

-- `allowlist`
abbrev pub allowlist : List AllowlistedShare
allowlist =
    record { host = "codex"; category = "cache"; rel_path = "cache"; class = worktree_shared }
    ∷ record {
      host = "claude-code";
      category = "cache";
      rel_path = "cache";
      class = worktree_shared;
    }
    ∷ []

-- `filepath.IsAbs`
unfoldable pub is_abs : String → Bool
is_abs Text.[] = false
is_abs (Text.◌∷◌ c s) = code c == b'/'

pub data RelPathFault : Type 0 where
  empty_path : RelPathFault
  broad_path : List String → RelPathFault
  escaping_path : RelPathFault

-- the tests of a clean relative path
unfoldable pub relative_fault : List String → Option RelPathFault
relative_fault [] = some (broad_path [])
relative_fault (seg ∷ segs) = if str_eq seg ".." then some escaping_path else none

-- `rejectsBroadRelPath`
unfoldable pub rejects_broad_rel_path : String → Option RelPathFault
unfolding is_abs relative_fault
rejects_broad_rel_path rel_path =
    let clean = clean_path (is_abs rel_path) (split_slash rel_path) in
    if str_eq rel_path ""
    then some empty_path
    else (if is_abs rel_path then some (broad_path clean) else relative_fault clean)

pub data ShareFault : Type 0 where
  wrong_host : HostFault → ShareFault
  wrong_path : RelPathFault → ShareFault
  not_sharing : MutableStateClass → ShareFault

-- the checks of one entry
unfoldable pub validate_share : AllowlistedShare → Option ShareFault
unfolding rejects_broad_rel_path shares_across_generations
validate_share e = elim (validate_host_id e.host) [
  | some fault ↦ some (wrong_host fault)
  | none ↦ elim (rejects_broad_rel_path e.rel_path) [
    | some fault ↦ some (wrong_path fault)
    | none ↦ if not (shares_across_generations e.class) then some (not_sharing e.class) else none
  ]
]

-- the loop from an index on: the first fault, with the index of its entry
unfoldable pub validate_from : ℕ → List AllowlistedShare → Option (ℕ × ShareFault)
unfolding validate_share
validate_from i [] = none
validate_from i (e ∷ es) =
    let rest = validate_from (suc i) es in
    elim (validate_share e) [ some fault ↦ some (i, fault) | none ↦ rest ]

-- `ValidateAllowlist`
unfoldable pub validate_allowlist : List AllowlistedShare → Option (ℕ × ShareFault)
unfolding validate_from
validate_allowlist entries = validate_from 0 entries

-- `SymlinkPlan`; the two paths are clean
pub record SymlinkPlan : Type 0 where
  pub category : String
  pub target : List String
  pub link : List String
  pub class : MutableStateClass

pub data PlanFault : Type 0 where
  host_fault : HostFault → PlanFault
  home_missing : PlanFault
  broad_entry : RelPathFault → PlanFault

pub data Plans : Type 0 where
  failed : PlanFault → Plans
  planned : List SymlinkPlan → Plans

-- `filepath.Join` of two paths that are not empty
unfoldable pub join_path : String → String → List String
unfolding is_abs
join_path home rel_path = clean_path (is_abs home) (split_slash home ++ split_slash rel_path)

unfoldable pub plan_of : String → String → AllowlistedShare → SymlinkPlan
unfolding join_path
plan_of native_home generation_home e = record {
  category = e.category;
  target = join_path native_home e.rel_path;
  link = join_path generation_home e.rel_path;
  class = e.class;
}

abbrev add_plan : SymlinkPlan → Plans → Plans
add_plan p (failed fault) = failed fault
add_plan p (planned ps) = planned (p ∷ ps)

-- the loop over the allowlist
unfoldable pub plan_from : String → String → String → List AllowlistedShare → Plans
unfolding plan_of
plan_from host native_home generation_home [] = planned []
plan_from host native_home generation_home (e ∷ es) =
    let rest = plan_from host native_home generation_home es in
    if not (str_eq e.host host) then rest else elim (rejects_broad_rel_path e.rel_path) [
      | some fault ↦ failed (broad_entry fault)
      | none ↦ add_plan (plan_of native_home generation_home e) rest
    ]

-- `PlanAllowlistedSymlinks`, on the entries of an allowlist
unfoldable pub plan_allowlisted_symlinks : List AllowlistedShare → String → String → String → Plans
unfolding plan_from
plan_allowlisted_symlinks entries host native_home generation_home = elim (validate_host_id host) [
  | some fault ↦ failed (host_fault fault)
  | none ↦
      if str_eq native_home "" || str_eq generation_home ""
      then failed home_missing
      else plan_from host native_home generation_home entries
]
