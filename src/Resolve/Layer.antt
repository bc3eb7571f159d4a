-- ===== src/Resolve/Layer.antt =====
-- `inSelection` and `applyLayer` of internal/resolve/resolve.go.
pub mod Holds
use oh_my_code_agent.Prelude.{
  ℕ, String, Bool, true, false, Option, none, some, List, not, if◌then◌else◌,
}
use oh_my_code_agent.Prelude.Keys.{contains, string_eq}
use oh_my_code_agent.Domain.Levels.{Intent, denied, required, intent_beq}
use oh_my_code_agent.Domain.Documents.{ActivationSelection, Exception}
use oh_my_code_agent.Resolve.Types.{
  skill, mcp_server, instruction, AssetKey, LayerName, Reason, enable_overrides, enabled_by,
  disable_overrides, disabled_by,
}
use oh_my_code_agent.Resolve.Waiver.{find_exception}

unfoldable pub in_selection : AssetKey → ActivationSelection → Bool
in_selection key sel = elim key.kind [
  | skill ↦ contains sel.skills key.id
  | mcp_server ↦ contains sel.mcp_servers key.id
  | instruction ↦ false
]

-- What the layers of an activation change: whether the asset is active, and why.
pub record Standing : Type 0 where
  pub active : Bool
  pub reason : Reason

-- The profile policies that a layer may not override without an exception.
pub record Policy : Type 0 where
  pub intent : Intent
  pub denied_ids : List String
  pub required_ids : List String

abbrev override : (String → String → Reason) → Bool → Option Exception → Standing → Standing
override why to none st = st
override why to (some ex) st = record { active = to; reason = why ex.scope ex.justification }

-- the branch of an asset that the layer enables
unfoldable pub enable_in : AssetKey → LayerName → Policy → List Exception → ℕ → Standing → Standing
enable_in key layer pol exceptions now st =
    if intent_beq pol.intent denied
    then override (enable_overrides layer) true
        (find_exception exceptions key.id pol.denied_ids now) st
    else if not st.active
    then record { active = true; reason = enabled_by layer }
    else st

-- the branch of an asset that the layer disables
unfoldable pub disable_in : AssetKey → LayerName → Policy → List Exception → ℕ → Standing → Standing
disable_in key layer pol exceptions now st =
    if intent_beq pol.intent required
    then override (disable_overrides layer) false
        (find_exception exceptions key.id pol.required_ids now) st
    else if st.active
    then record { active = false; reason = disabled_by layer }
    else st

unfoldable pub apply_layer :
    AssetKey
    → LayerName
    → ActivationSelection
    → ActivationSelection
    → Policy
    → List Exception
    → ℕ
    → Standing
    → Standing
unfolding enable_in disable_in
apply_layer key layer enable disable pol exceptions now st =
    let st' = if in_selection key enable then enable_in key layer pol exceptions now st else st in
    if in_selection key disable then disable_in key layer pol exceptions now st' else st'
