-- ===== src/Domain/Documents.antt =====
-- The desired-state documents of internal/domain: profile.go, binding.go, activation.go and
-- exception.go. An instant is a number, and 0 is Go's zero time.
use oh_my_code_agent.Prelude.{ℕ, String, Bool, List, ◌&&◌, not, str_eq}
use oh_my_code_agent.Domain.Levels.{Intent}

pub record AssetRef : Type 0 where
  pub id : String
  pub intent : Intent
  pub hosts : List String

pub record ProfileAssets : Type 0 where
  pub skills : List AssetRef
  pub mcp_servers : List AssetRef
  pub instructions : List AssetRef

pub record PermissionRef : Type 0 where
  pub intent : Intent
  pub value : String

-- `ProfilePolicy` has the one field `permissions`, a map by name.
pub record Profile : Type 0 where
  pub api_version : String
  pub kind : String
  pub id : String
  pub assets : ProfileAssets
  pub permissions : List (String × PermissionRef)

pub record BindingMatch : Type 0 where
  pub repository : String
  pub repository_glob : String
  pub paths : List String

pub record Binding : Type 0 where
  pub api_version : String
  pub kind : String
  pub id : String
  pub match : BindingMatch
  pub profiles : List String

pub record ActivationSelection : Type 0 where
  pub skills : List String
  pub mcp_servers : List String

pub record HostActivation : Type 0 where
  pub enable : ActivationSelection
  pub disable : ActivationSelection

pub record Activation : Type 0 where
  pub api_version : String
  pub kind : String
  pub worktree : String
  pub enable : ActivationSelection
  pub disable : ActivationSelection
  pub hosts : List (String × HostActivation)

pub record Exception : Type 0 where
  pub api_version : String
  pub kind : String
  pub id : String
  pub asset_id : String
  pub scope : String
  pub justification : String
  pub expires_at : ℕ

-- `Exception.Valid`
unfoldable pub exception_valid : Exception → Bool
exception_valid e = not (str_eq e.asset_id "") && not (str_eq e.scope "")
