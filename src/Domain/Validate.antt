-- ===== src/Domain/Validate.antt =====
-- The validators of internal/domain for the desired-state documents. `none` is the nil error; a fault
-- names the check that failed, with the values that the message prints.
pub mod Denied
use oh_my_code_agent.Prelude.{
  ℕ, String, Bool, true, false, Option, none, some, List, [], ◌∷◌, map, not, ◌&&◌, str_eq, ◌==◌,
  if◌then◌else◌,
}
use oh_my_code_agent.Domain.Levels.{Intent, intent_valid}
use oh_my_code_agent.Domain.Host.{HostFault, validate_host_id, validate_host_ids}
use oh_my_code_agent.Domain.Documents.{
  AssetRef, ProfileAssets, PermissionRef, Profile, Binding, BindingMatch, Activation, Exception,
}

pub data Fault : Type 0 where
  unsupported_version : String → String → Fault
  wrong_kind : String → String → Fault
  missing : String → Fault
  missing_asset_id : String → Fault
  bad_intent : String → String → Intent → Fault
  bad_hosts : String → String → HostFault → Fault
  bad_permission : String → Intent → Fault
  bad_activation_host : HostFault → Fault
  no_repository both_repositories no_profiles : Fault

abbrev supported_api_version : String
supported_api_version = "omca.dev/v1alpha1"

-- `ValidateAPIVersion`
unfoldable pub validate_api_version : String → String → Option Fault
validate_api_version kind v =
    if str_eq v supported_api_version then none else some (unsupported_version kind v)

-- `ValidateKind`
unfoldable pub validate_kind : String → String → Option Fault
validate_kind want got = if str_eq got want then none else some (wrong_kind want got)

-- `if x == "" { return error }`
abbrev pub require : String → Fault → Option Fault
require x e = if str_eq x "" then some e else none

-- `if err := m; err != nil { return err }` before the rest
infixl 5 ◌>>◌
abbrev pub ◌>>◌ : Option Fault → Option Fault → Option Fault
none >> k = k
some e >> k = some e

-- a loop that returns the first fault
unfoldable pub each {ℓ} : {A : Type ℓ} → (A → Option Fault) → List A → Option Fault
each f [] = none
each f (x ∷ xs) = f x >> each f xs

abbrev host_fault : (HostFault → Fault) → Option HostFault → Option Fault
host_fault f none = none
host_fault f (some e) = some (f e)

-- `validateAssetRef`
unfoldable pub validate_asset_ref : String → AssetRef → Option Fault
validate_asset_ref group ref =
    require ref.id (missing_asset_id group)
    >> (if intent_valid ref.intent then none else some (bad_intent group ref.id ref.intent))
    >> host_fault (bad_hosts group ref.id) (validate_host_ids ref.hosts)

validate_permission : String × PermissionRef → Option Fault
validate_permission (name, perm) =
    if intent_valid perm.intent then none else some (bad_permission name perm.intent)

unfoldable pub validate_profile : Profile → Option Fault
unfolding validate_permission
validate_profile p =
    validate_api_version "Profile" p.api_version
    >> validate_kind "Profile" p.kind
    >> require p.id (missing "metadata.id")
    >> each (validate_asset_ref "skills") p.assets.skills
    >> each (validate_asset_ref "mcpServers") p.assets.mcp_servers
    >> each (validate_asset_ref "instructions") p.assets.instructions
    >> each validate_permission p.permissions

match_fault : BindingMatch → Option Fault
match_fault m =
    if str_eq m.repository "" && str_eq m.repository_glob ""
    then some no_repository
    else if not (str_eq m.repository "") && not (str_eq m.repository_glob "")
    then some both_repositories
    else none

abbrev profiles_fault : List String → Option Fault
profiles_fault [] = some no_profiles
profiles_fault (_ ∷ _) = none

unfoldable pub validate_binding : Binding → Option Fault
unfolding match_fault
validate_binding b =
    validate_api_version "Binding" b.api_version
    >> validate_kind "Binding" b.kind
    >> require b.id (missing "metadata.id")
    >> match_fault b.match
    >> profiles_fault b.profiles

unfoldable pub validate_activation : Activation → Option Fault
validate_activation a =
    validate_api_version "Activation" a.api_version
    >> validate_kind "Activation" a.kind
    >> require a.worktree (missing "metadata.worktree")
    >> each (λ h. host_fault bad_activation_host (validate_host_id h)) (map (λ p. p.0) a.hosts)

unfoldable pub validate_exception : Exception → Option Fault
validate_exception e =
    validate_api_version "Exception" e.api_version
    >> validate_kind "Exception" e.kind
    >> require e.id (missing "metadata.id")
    >> require e.asset_id (missing "assetId")
    >> require e.scope (missing "scope")
    >> require e.justification (missing "justification")
    >> (if e.expires_at == 0 then some (missing "expiresAt") else none)
