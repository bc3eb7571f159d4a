-- ===== src/Resolve/Decide.antt =====
-- `reduceGroup`, `sortedDistinctIntents` and `resolveOne` of internal/resolve/resolve.go.
pub mod Reduce
pub mod Grouped
pub mod Sticky
use Reduce.{Reduction, reduced, ambiguous, ReducedProfile, reduce_applicable}
use oh_my_code_agent.Prelude.{
  ℕ, String, Bool, true, false, Option, none, some, List, [], ◌∷◌, map, ◌&&◌, keep, some_of, last,
  if◌then◌else◌,
}
use oh_my_code_agent.Prelude.Keys.{lookup, string_eq}
use oh_my_code_agent.Domain.Levels.{Intent, required, default, denied, no_intent, intent_beq}
use oh_my_code_agent.Domain.Documents.{Activation, HostActivation, Exception}
use oh_my_code_agent.Resolve.Types.{
  AssetKey, Reason, denied_excepted, required_excepted, by_policy, no_entry, host_neutral,
  host_scoped, ResolvedAsset, Conflict,
}
use oh_my_code_agent.Resolve.Candidates.{ProfileEntry, applies_to}
use oh_my_code_agent.Resolve.Waiver.{find_exception}
use oh_my_code_agent.Resolve.Layer.{Standing, Policy, apply_layer}

-- `deniedIDs` and `requiredIDs`: the ids of the reduced profiles with the intent
unfoldable pub ids_with : Intent → List ReducedProfile → List String
ids_with i rs = map (λ r. r.profile_id) (keep (λ r. intent_beq r.intent i) rs)

-- `hasDenied` and `hasRequired`
unfoldable pub has_intent : Intent → List ReducedProfile → Bool
has_intent i = some_of (λ r. intent_beq r.intent i)

-- the `switch` that settles intent, activity and reason before the activation
pub data Baseline : Type 0 where
  settled : Intent → Bool → Reason → Baseline
  contradiction : Baseline

abbrev last_intent : List ReducedProfile → Intent
last_intent [] = no_intent
last_intent (r ∷ rs) = (last r rs).intent

unfoldable pub last_wins : List ReducedProfile → Baseline
last_wins [] = settled no_intent false no_entry
last_wins (r ∷ rs) = let i = last_intent (r ∷ rs) in settled i (intent_beq i default) (by_policy i)

abbrev contested : Option Exception → Option Exception → Baseline
contested (some ex) _ = settled required true (denied_excepted ex.scope ex.justification)
contested none (some ex) = settled denied false (required_excepted ex.scope ex.justification)
contested none none = contradiction

unfoldable pub baseline : AssetKey → List ReducedProfile → List Exception → ℕ → Baseline
baseline key rs exceptions now =
    if has_intent denied rs && has_intent required rs
    then contested (find_exception exceptions key.id (ids_with denied rs) now)
        (find_exception exceptions key.id (ids_with required rs) now)
    else if has_intent denied rs
    then settled denied false (by_policy denied)
    else if has_intent required rs
    then settled required true (by_policy required)
    else last_wins rs

abbrev pub present : List ReducedProfile → Bool
present [] = false
present (_ ∷ _) = true

unfoldable pub host_layer :
    AssetKey → Option HostActivation → Policy → List Exception → ℕ → Standing → Standing
host_layer key none pol exceptions now st = st
host_layer key (some ha) pol exceptions now st =
    apply_layer key host_scoped ha.enable ha.disable pol exceptions now st

-- both layers of the activation; the host-neutral one acts only where a profile has an entry
unfoldable pub apply_activation :
    AssetKey → Bool → Activation → String → Policy → List Exception → ℕ → Standing → Standing
unfolding host_layer
apply_activation key has_entry activation host pol exceptions now st =
    let st' =
      if has_entry
      then apply_layer key host_neutral activation.enable activation.disable pol exceptions now st
      else st in
    host_layer key (lookup activation.hosts host) pol exceptions now st'

pub data Decision : Type 0 where
  decided : ResolvedAsset → Decision
  undecided : Conflict → Decision

unfoldable pub conflict_of : AssetKey → String → List Intent → Decision
conflict_of key host intents =
    undecided (record { key = key; host = host; candidate_intents = intents })

unfoldable pub activate :
    AssetKey → List ReducedProfile → Activation → List Exception → String → ℕ → Baseline → Decision
unfolding conflict_of
activate key rs activation exceptions host now contradiction =
    conflict_of key host (denied ∷ required ∷ [])
activate key rs activation exceptions host now (settled intent active reason) =
    let pol : Policy = record {
      intent = intent;
      denied_ids = ids_with denied rs;
      required_ids = ids_with required rs;
    } in
    let st =
      apply_activation key (present rs) activation host pol exceptions now
        (record { active = active; reason = reason }) in
    decided (record { key = key; active = st.active; intent = intent; reason = st.reason })

unfoldable pub decide_reduced :
    AssetKey → Reduction → Activation → List Exception → String → ℕ → Decision
unfolding conflict_of
decide_reduced key (ambiguous intents) activation exceptions host now = conflict_of key host intents
decide_reduced key (reduced rs) activation exceptions host now =
    activate key rs activation exceptions host now (baseline key rs exceptions now)

unfoldable pub resolve_one :
    AssetKey → List ProfileEntry → Activation → List Exception → String → ℕ → Decision
unfolding decide_reduced
resolve_one key entries activation exceptions host now =
    decide_reduced key (reduce_applicable (keep (λ e. applies_to e host) entries)) activation
      exceptions host now
