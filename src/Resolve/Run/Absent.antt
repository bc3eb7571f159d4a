-- ===== src/Resolve/Run/Absent.antt =====
-- Assets with no entry for the host.
use oh_my_code_agent.Prelude.{
  ℕ, String, false, none, List, [], ◌≡◌, refl, ◌∙◌, keep, In, In-keep, nothing_In, some_of,
}
use oh_my_code_agent.Prelude.Keys.{lookup, string_eq}
use oh_my_code_agent.Prelude.Keys.{distinct}
use oh_my_code_agent.Prelude.Sort.{sort}
use oh_my_code_agent.Domain.Levels.{Intent}
use oh_my_code_agent.Domain.Documents.{Profile, Activation, Exception}
use oh_my_code_agent.Resolve.Types.{AssetKey, is_active, is_active-find}
use oh_my_code_agent.Resolve.Candidates.{ProfileEntry, applies_to}
use oh_my_code_agent.Resolve.Decide.{
  baseline, has_intent, last_wins, host_layer, apply_activation, activate, decide_reduced,
  resolve_one,
}
use oh_my_code_agent.Resolve.Decide.Reduce.{reduced, reduce_applicable, profile_order}
use oh_my_code_agent.Resolve.Decide.Sticky.{Stands}
use oh_my_code_agent.Resolve.Run.{resolve_profiles}
use oh_my_code_agent.Resolve.Run.Policies.{States, entries, Entry→States, find-state, inactive_of}

reduce_nothing : reduce_applicable [] ≡ reduced []
unfolding reduce_applicable profile_order sort distinct
reduce_nothing = refl

reduced_absent :
    (key : AssetKey) (activation : Activation) (exceptions : List Exception) (host : String)
    (now : ℕ)
    → lookup activation.hosts host ≡ none
    → Stands false (decide_reduced key (reduced []) activation exceptions host now)
unfolding decide_reduced baseline has_intent some_of last_wins activate apply_activation host_layer
reduced_absent key activation exceptions host now l = rw (l, host_layer)

resolve_one_absent :
    (key : AssetKey) (es : List ProfileEntry) (activation : Activation)
    (exceptions : List Exception) (host : String) (now : ℕ)
    → keep (λ e. applies_to e host) es ≡ []
    → lookup activation.hosts host ≡ none
    → Stands false (resolve_one key es activation exceptions host now)
unfolding resolve_one
resolve_one_absent key es activation exceptions host now e l =
    rw (e, reduce_nothing) (reduced_absent key activation exceptions host now l)

-- An asset for which no profile has a reference that applies to the host is not active unless the
-- activation has a section for this very host: a host-neutral enable does not introduce it.
pub neutral_enable_introduces_nothing :
    (profiles : List Profile) (activation : Activation) (exceptions : List Exception)
    (host : String) (now : ℕ) (key : AssetKey)
    → ((i : Intent) (p : Profile) → ¬ States i key host profiles p)
    → lookup activation.hosts host ≡ none
    → is_active (resolve_profiles profiles activation exceptions host now) key ≡ false
neutral_enable_introduces_nothing profiles activation exceptions host now key n l =
    is_active-find _ key (find-state profiles activation exceptions host now key)
    ∙ inactive_of _ _
        (resolve_one_absent key _ activation exceptions host now (nothing_In _ none_applies) l)
  where
    none_applies :
        (e : ProfileEntry)
        → ¬ In e
            (keep (λ e. applies_to e host) (entries profiles activation exceptions host now key))
    none_applies e m =
        let (i, t) = In-keep (λ e. applies_to e host) e _ m in
        let (p, s, _) =
          Entry→States profiles activation exceptions host now key e.intent e i t refl in
        n e.intent p s
