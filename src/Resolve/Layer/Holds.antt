-- ===== src/Resolve/Layer/Holds.antt =====
-- What a layer of an activation can and cannot change.
use oh_my_code_agent.Prelude.{ℕ, true, false, none, List, ◌≡◌, ◌≢◌, ◌&&◌, ◌||◌, not, arith}
use oh_my_code_agent.Domain.Levels.{denied, required, intent_beq_iff}
use oh_my_code_agent.Domain.Documents.{ActivationSelection, Exception}
use oh_my_code_agent.Resolve.Types.{AssetKey, LayerName}
use oh_my_code_agent.Resolve.Waiver.{find_exception}
use oh_my_code_agent.Resolve.Layer.{in_selection, Standing, Policy, apply_layer}

module _ (key : AssetKey) (layer : LayerName) (enable disable : ActivationSelection) (pol : Policy)
    (exceptions : List Exception) (now : ℕ) (st : Standing) where
  -- A denied asset stays inactive where no exception lifts the denial.
  pub apply_layer_denied :
      pol.intent ≡ denied
      → find_exception exceptions key.id pol.denied_ids now ≡ none
      → st.active ≡ false
      → (apply_layer key layer enable disable pol exceptions now st).active ≡ false
  unfolding apply_layer
  apply_layer_denied p f a = ground arith

  -- A required asset stays active where no exception lifts the requirement.
  pub apply_layer_required :
      pol.intent ≡ required
      → find_exception exceptions key.id pol.required_ids now ≡ none
      → st.active ≡ true
      → (apply_layer key layer enable disable pol exceptions now st).active ≡ true
  unfolding apply_layer
  apply_layer_required p f a = ground arith

  -- Without a policy the layer's disable wins over its enable, and its enable over what was there.
  pub apply_layer_soft :
      pol.intent ≢ denied
      → pol.intent ≢ required
      → (apply_layer key layer enable disable pol exceptions now st).active
        ≡ (not (in_selection key disable) && (in_selection key enable || st.active))
  unfolding apply_layer
  apply_layer_soft d r =
      ground (arith, (intent_beq_iff pol.intent denied).0, (intent_beq_iff pol.intent required).0)
