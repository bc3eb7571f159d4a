-- ===== src/Resolve/Types.antt =====
-- internal/resolve/types.go, and the key of an asset. A reason is the format of the Go message with
-- its arguments.
use oh_my_code_agent.Prelude.{
  String, Bool, true, false, Option, none, some, List, ◌≡◌, ap, ◌↔◌, ◌&&◌, arith, str_eq,
  str_eq_iff, first, some_of,
}
use oh_my_code_agent.Prelude.Keys.{Eq}
use oh_my_code_agent.Domain.Levels.{Intent}

pub data AssetKind : Type 0 where
  skill mcp_server instruction : AssetKind

unfoldable pub kind_text : AssetKind → String
kind_text skill = "skill"
kind_text mcp_server = "mcpServer"
kind_text instruction = "instruction"

abbrev pub kind_beq : AssetKind → AssetKind → Bool
kind_beq skill skill = true
kind_beq mcp_server mcp_server = true
kind_beq instruction instruction = true
kind_beq _ _ = false

-- `assetKey`
pub record AssetKey : Type 0 where
  pub kind : AssetKind
  pub id : String

abbrev pub key_beq : AssetKey → AssetKey → Bool
key_beq a b = kind_beq a.kind b.kind && str_eq a.id b.id

pub key_beq_iff : (a b : AssetKey) → (key_beq a b ≡ true) ↔ (a ≡ b)
key_beq_iff a b =
    (λ h. ground (arith, (str_eq_iff a.id b.id).0), λ h. ground (arith, (str_eq_iff a.id b.id).1))

instance abbrev pub key_eq : Eq AssetKey
key_eq = record { beq = key_beq; beq_iff = key_beq_iff }

pub data LayerName : Type 0 where
  host_neutral host_scoped : LayerName

pub data Reason : Type 0 where
  denied_excepted : String → String → Reason
  required_excepted : String → String → Reason
  by_policy : Intent → Reason
  no_entry : Reason
  enable_overrides : LayerName → String → String → Reason
  enabled_by : LayerName → Reason
  disable_overrides : LayerName → String → String → Reason
  disabled_by : LayerName → Reason

pub record ResolvedAsset : Type 0 where
  pub key : AssetKey
  pub active : Bool
  pub intent : Intent
  pub reason : Reason

pub record Conflict : Type 0 where
  pub key : AssetKey
  pub host : String
  pub candidate_intents : List Intent

pub record ResolvedState : Type 0 where
  pub host : String
  pub assets : List ResolvedAsset
  pub conflicts : List Conflict

-- `ResolvedState.Find`
unfoldable pub find : ResolvedState → AssetKey → Option ResolvedAsset
find rs key = first (λ a. key_beq a.key key) rs.assets

abbrev pub active_of : Option ResolvedAsset → Bool
active_of none = false
active_of (some a) = a.active

-- `ResolvedState.IsActive`
unfoldable pub is_active : ResolvedState → AssetKey → Bool
unfolding find
is_active rs key = active_of (find rs key)

pub is_active-find :
    (rs : ResolvedState) (key : AssetKey) {o : Option ResolvedAsset}
    → find rs key ≡ o
    → is_active rs key ≡ active_of o
unfolding is_active
is_active-find rs key h = ap active_of h

-- `ResolvedState.HasConflict`
unfoldable pub has_conflict : ResolvedState → AssetKey → Bool
has_conflict rs key = some_of (λ c. key_beq c.key key) rs.conflicts
