-- ===== src/Resolve/Run/Expiry.antt =====
-- Expired exceptions and the result of `Resolve`.
use oh_my_code_agent.Prelude.{
  ℕ, String, Bool, true, false, Option, none, some, List, [], ◌∷◌, ◌≡◌, refl, ap, ap₂, ◌∙◌, arith,
  ltb, keep, first,
}
use oh_my_code_agent.Prelude.Keys.{lookup, string_eq}
use oh_my_code_agent.Domain.Documents.{
  Profile, Activation, ActivationSelection, HostActivation, Exception,
}
use oh_my_code_agent.Domain.Host.{validate_host_id}
use oh_my_code_agent.Resolve.Types.{AssetKey, LayerName, host_neutral}
use oh_my_code_agent.Resolve.Candidates.{CandidateMap, collect_profile_candidates}
use oh_my_code_agent.Resolve.Waiver.{waives, find_exception}
use oh_my_code_agent.Resolve.Layer.{Standing, Policy, apply_layer}
use oh_my_code_agent.Resolve.Decide.{
  baseline, host_layer, apply_activation, activate, decide_reduced, resolve_one, Baseline, settled,
  contradiction,
}
use oh_my_code_agent.Resolve.Decide.Reduce.{Reduction, reduced, ambiguous, ReducedProfile}
use oh_my_code_agent.Resolve.Run.{
  add_decision, resolve_keys, invalid_host, resolved, resolve_profiles, resolve,
}

-- the exceptions that have not expired
unfoldable pub live : ℕ → List Exception → List Exception
live now = keep (λ ex. ltb now ex.expires_at)

first-keep :
    (p q : Exception → Bool) (xs : List Exception)
    → ((x : Exception) → p x ≡ true → q x ≡ true)
    → first p (keep q xs) ≡ first p xs
unfolding first keep
first-keep p q [] h = refl
first-keep p q (x ∷ xs) h = ground (arith, h x, first-keep p q xs h)

waives_live :
    (asset : String) (scopes : List String) (now : ℕ) (ex : Exception)
    → waives asset scopes now ex ≡ true
    → ltb now ex.expires_at ≡ true
unfolding waives
waives_live asset scopes now ex h = ground arith

module _ (exceptions : List Exception) (now : ℕ) where
  find_exception-live :
      (asset : String) (scopes : List String)
      → find_exception (live now exceptions) asset scopes now
        ≡ find_exception exceptions asset scopes now
  unfolding find_exception live
  find_exception-live asset [] = refl
  find_exception-live asset (s ∷ scopes) =
      first-keep (waives asset (s ∷ scopes) now) _ exceptions (waives_live asset (s ∷ scopes) now)

  apply_layer-live :
      (key : AssetKey) (layer : LayerName) (enable disable : ActivationSelection) (pol : Policy)
      (st : Standing)
      → apply_layer key layer enable disable pol (live now exceptions) now st
        ≡ apply_layer key layer enable disable pol exceptions now st
  unfolding apply_layer
  apply_layer-live key layer enable disable pol st = simp find_exception-live

  host_layer-live :
      (key : AssetKey) (ha : Option HostActivation) (pol : Policy) (st : Standing)
      → host_layer key ha pol (live now exceptions) now st ≡ host_layer key ha pol exceptions now st
  unfolding host_layer
  host_layer-live key none pol st = refl
  host_layer-live key (some ha) pol st = simp apply_layer-live

  baseline-live :
      (key : AssetKey) (rs : List ReducedProfile)
      → baseline key rs (live now exceptions) now ≡ baseline key rs exceptions now
  unfolding baseline
  baseline-live key rs = simp find_exception-live

  module _ (activation : Activation) (host : String) where
    apply_activation-live :
        (key : AssetKey) (has_entry : Bool) (pol : Policy) (st : Standing)
        → apply_activation key has_entry activation host pol (live now exceptions) now st
          ≡ apply_activation key has_entry activation host pol exceptions now st
    unfolding apply_activation
    apply_activation-live key true pol st =
        host_layer-live key (lookup activation.hosts host) pol _
        ∙ ap (host_layer key (lookup activation.hosts host) pol exceptions now)
            (apply_layer-live key host_neutral activation.enable activation.disable pol st)
    apply_activation-live key false pol st =
        host_layer-live key (lookup activation.hosts host) pol st

    activate-live :
        (key : AssetKey) (rs : List ReducedProfile) (b : Baseline)
        → activate key rs activation (live now exceptions) host now b
          ≡ activate key rs activation exceptions host now b
    unfolding activate
    activate-live key rs contradiction = refl
    activate-live key rs (settled i a w) = simp apply_activation-live

    decide_reduced-live :
        (key : AssetKey) (red : Reduction)
        → decide_reduced key red activation (live now exceptions) host now
          ≡ decide_reduced key red activation exceptions host now
    unfolding decide_reduced
    decide_reduced-live key (ambiguous is) = refl
    decide_reduced-live key (reduced rs) = simp (baseline-live, activate-live)

    resolve_keys-live :
        (c : CandidateMap) (u : List AssetKey)
        → resolve_keys u c activation (live now exceptions) host now
          ≡ resolve_keys u c activation exceptions host now
    unfolding resolve_keys resolve_one
    resolve_keys-live c [] = refl
    resolve_keys-live c (key ∷ u) =
        ap₂ add_decision (decide_reduced-live key _) (resolve_keys-live c u)

-- An exception whose expiry is the reference instant or earlier changes nothing in the result.
pub resolve_ignores_expired :
    (profiles : List Profile) (activation : Activation) (exceptions : List Exception)
    (host : String) (now : ℕ)
    → resolve profiles activation (live now exceptions) host now
      ≡ resolve profiles activation exceptions host now
unfolding resolve resolve_profiles
resolve_ignores_expired profiles activation exceptions host now =
    ap (λ s. elim (validate_host_id host) [ some e ↦ invalid_host e | none ↦ resolved s ])
      (resolve_keys-live exceptions now activation host (collect_profile_candidates profiles) _)
