-- ===== src/Resolve/Decide/Sticky.antt =====
-- DENIED and REQUIRED hold in `resolveOne` unless an exception lifts them.
use oh_my_code_agent.Prelude.{
  ℕ, String, Bool, true, false, Option, none, some, List, ◌≡◌, refl, subst, ◌∙◌, ◌⊎◌, inl, inr,
  keep, arith, In, map-In, In-keep, keep-In, some_of-In, Option-cases, Bool-cases,
}
use oh_my_code_agent.Prelude.Keys.{lookup, string_eq}
use oh_my_code_agent.Domain.Levels.{Intent, denied, required, intent_beq, intent_beq_iff, intent_eq}
use oh_my_code_agent.Domain.Documents.{Activation, HostActivation, Exception}
use oh_my_code_agent.Resolve.Types.{
  AssetKey, Reason, denied_excepted, required_excepted, by_policy, host_neutral, host_scoped,
}
use oh_my_code_agent.Resolve.Candidates.{ProfileEntry, applies_to}
use oh_my_code_agent.Resolve.Waiver.{find_exception}
use oh_my_code_agent.Resolve.Waiver.Waived.{Waived, find_exception-none}
use oh_my_code_agent.Resolve.Layer.{Standing, Policy}
use oh_my_code_agent.Resolve.Layer.Holds.{apply_layer_denied, apply_layer_required}
use oh_my_code_agent.Resolve.Decide.{
  ids_with, has_intent, settled, contradiction, baseline, present, host_layer, apply_activation,
  Decision, decided, undecided, activate, decide_reduced, resolve_one,
}
use oh_my_code_agent.Resolve.Decide.Reduce.{
  Reduction, reduced, ambiguous, ReducedProfile, reduce_applicable, group,
}
use oh_my_code_agent.Resolve.Decide.Grouped.{
  OneIdEach, reduce_group_denied, reduce_group_required, reduce_applicable-every,
  reduce_applicable-only, has-group,
}

-- The decision leaves the asset's activity at `b`, or is a conflict.
abbrev pub Stands : Bool → Decision → Type 0
Stands b (decided a) = a.active ≡ b
Stands b (undecided c) = Unit

module _ (key : AssetKey) (activation : Activation) (exceptions : List Exception) (host : String)
    (now : ℕ) where
  host_layer_denied :
      (ha : Option HostActivation) (pol : Policy) (st : Standing)
      → pol.intent ≡ denied
      → find_exception exceptions key.id pol.denied_ids now ≡ none
      → st.active ≡ false
      → (host_layer key ha pol exceptions now st).active ≡ false
  unfolding host_layer
  host_layer_denied none pol st p f a = a
  host_layer_denied (some ha) pol st p f a =
      apply_layer_denied key host_scoped ha.enable ha.disable pol exceptions now st p f a

  host_layer_required :
      (ha : Option HostActivation) (pol : Policy) (st : Standing)
      → pol.intent ≡ required
      → find_exception exceptions key.id pol.required_ids now ≡ none
      → st.active ≡ true
      → (host_layer key ha pol exceptions now st).active ≡ true
  unfolding host_layer
  host_layer_required none pol st p f a = a
  host_layer_required (some ha) pol st p f a =
      apply_layer_required key host_scoped ha.enable ha.disable pol exceptions now st p f a

  apply_activation_denied :
      (has_entry : Bool) (pol : Policy) (st : Standing)
      → pol.intent ≡ denied
      → find_exception exceptions key.id pol.denied_ids now ≡ none
      → st.active ≡ false
      → (apply_activation key has_entry activation host pol exceptions now st).active ≡ false
  unfolding apply_activation
  apply_activation_denied true pol st p f a =
      host_layer_denied (lookup activation.hosts host) pol _ p f (
        apply_layer_denied key host_neutral activation.enable activation.disable pol exceptions now
          st p f a)
  apply_activation_denied false pol st p f a =
      host_layer_denied (lookup activation.hosts host) pol st p f a

  apply_activation_required :
      (has_entry : Bool) (pol : Policy) (st : Standing)
      → pol.intent ≡ required
      → find_exception exceptions key.id pol.required_ids now ≡ none
      → st.active ≡ true
      → (apply_activation key has_entry activation host pol exceptions now st).active ≡ true
  unfolding apply_activation
  apply_activation_required true pol st p f a =
      host_layer_required (lookup activation.hosts host) pol _ p f (
        apply_layer_required key host_neutral activation.enable activation.disable pol exceptions
          now st p f a)
  apply_activation_required false pol st p f a =
      host_layer_required (lookup activation.hosts host) pol st p f a

  baseline_denied :
      (rs : List ReducedProfile)
      → has_intent denied rs ≡ true
      → find_exception exceptions key.id (ids_with denied rs) now ≡ none
      → (baseline key rs exceptions now ≡ contradiction)
        ⊎ ((why : Reason) × (baseline key rs exceptions now ≡ settled denied false why))
  unfolding baseline
  baseline_denied rs h f = elim (Bool-cases (has_intent required rs)) [
    | inl t ↦ elim (Option-cases (find_exception exceptions key.id (ids_with required rs) now)) [
      | inl n ↦ inl (ground arith)
      | inr (ex, e) ↦ inr (required_excepted ex.scope ex.justification, ground arith)
    ]
    | inr n ↦ inr (by_policy denied, ground arith)
  ]

  baseline_required :
      (rs : List ReducedProfile)
      → has_intent required rs ≡ true
      → find_exception exceptions key.id (ids_with required rs) now ≡ none
      → (baseline key rs exceptions now ≡ contradiction)
        ⊎ ((why : Reason) × (baseline key rs exceptions now ≡ settled required true why))
  unfolding baseline
  baseline_required rs h f = elim (Bool-cases (has_intent denied rs)) [
    | inl t ↦ elim (Option-cases (find_exception exceptions key.id (ids_with denied rs) now)) [
      | inl n ↦ inl (ground arith)
      | inr (ex, e) ↦ inr (denied_excepted ex.scope ex.justification, ground arith)
    ]
    | inr n ↦ inr (by_policy required, ground arith)
  ]

  reduced_denied :
      (rs : List ReducedProfile)
      → has_intent denied rs ≡ true
      → find_exception exceptions key.id (ids_with denied rs) now ≡ none
      → Stands false
          (activate key rs activation exceptions host now (baseline key rs exceptions now))
  unfolding activate
  reduced_denied rs h f = elim (baseline_denied rs h f) [
    | inl e ↦ rw e tt
    | inr (why, e) ↦ rw e (apply_activation_denied (present rs) _ _ refl f refl)
  ]

  reduced_required :
      (rs : List ReducedProfile)
      → has_intent required rs ≡ true
      → find_exception exceptions key.id (ids_with required rs) now ≡ none
      → Stands true
          (activate key rs activation exceptions host now (baseline key rs exceptions now))
  unfolding activate
  reduced_required rs h f = elim (baseline_required rs h f) [
    | inl e ↦ rw e tt
    | inr (why, e) ↦ rw e (apply_activation_required (present rs) _ _ refl f refl)
  ]

  -- No exception lifts the policy of the profiles of the reduced list that have the intent.
  no_waiver :
      (i : Intent) (es : List ProfileEntry) (rs : List ReducedProfile)
      → OneIdEach es
      → reduce_applicable es ≡ reduced rs
      → ((e : ProfileEntry) → In e es → e.intent ≡ i → ¬ Waived exceptions key.id e.profile_id now)
      → find_exception exceptions key.id (ids_with i rs) now ≡ none
  unfolding ids_with
  no_waiver i es rs one h n = find_exception-none exceptions key.id _ now λ s m w.
      let (r, k, p) = map-In (λ r. r.profile_id) s _ m in
      let (j, t) = In-keep (λ r. intent_beq r.intent i) r rs k in
      let (e, l, q, u) = reduce_applicable-only es rs r one h j in
      n e l (u ∙ (intent_beq_iff r.intent i).0 t)
        (subst (λ x. Waived exceptions key.id x now) (p ∙ q) w)

  -- An entry with a sticky intent shows in the reduced list.
  entry_denied :
      (es : List ProfileEntry) (rs : List ReducedProfile) (e : ProfileEntry)
      → OneIdEach es
      → reduce_applicable es ≡ reduced rs
      → In e es
      → e.intent ≡ denied
      → has_intent denied rs ≡ true
  unfolding has_intent
  entry_denied es rs e one h m p =
      let (r, k, _, w) = reduce_applicable-every es rs e one h m in
      some_of-In (λ x. intent_beq x.intent denied) r rs k
        (ground
          (arith, w, reduce_group_denied (group e.profile_idx es) (has-group denied es e m p)))

  entry_required :
      (es : List ProfileEntry) (rs : List ReducedProfile) (e : ProfileEntry)
      → OneIdEach es
      → reduce_applicable es ≡ reduced rs
      → In e es
      → e.intent ≡ required
      → has_intent required rs ≡ true
  unfolding has_intent
  entry_required es rs e one h m p =
      let (r, k, _, w) = reduce_applicable-every es rs e one h m in
      some_of-In (λ x. intent_beq x.intent required) r rs k
        (ground
          (arith, w, reduce_group_required (group e.profile_idx es) (has-group required es e m p)))

  applicable_denied :
      (es : List ProfileEntry) (e : ProfileEntry)
      → OneIdEach es
      → In e es
      → e.intent ≡ denied
      → ((f : ProfileEntry)
          → In f es
          → f.intent ≡ denied
          → ¬ Waived exceptions key.id f.profile_id now)
      → (red : Reduction) → reduce_applicable es ≡ red
      → Stands false (decide_reduced key red activation exceptions host now)
  unfolding decide_reduced
  applicable_denied es e one m p n (ambiguous is) h = tt
  applicable_denied es e one m p n (reduced rs) h =
      reduced_denied rs (entry_denied es rs e one h m p) (no_waiver denied es rs one h n)

  applicable_required :
      (es : List ProfileEntry) (e : ProfileEntry)
      → OneIdEach es
      → In e es
      → e.intent ≡ required
      → ((f : ProfileEntry)
          → In f es
          → f.intent ≡ required
          → ¬ Waived exceptions key.id f.profile_id now)
      → (red : Reduction) → reduce_applicable es ≡ red
      → Stands true (decide_reduced key red activation exceptions host now)
  unfolding decide_reduced
  applicable_required es e one m p n (ambiguous is) h = tt
  applicable_required es e one m p n (reduced rs) h =
      reduced_required rs (entry_required es rs e one h m p) (no_waiver required es rs one h n)

  -- All entries of an asset that apply to the host.
  abbrev Unwaived : Intent → List ProfileEntry → Type 0
  Unwaived i es =
      (f : ProfileEntry)
      → In f es
      → applies_to f host ≡ true
      → f.intent ≡ i
      → ¬ Waived exceptions key.id f.profile_id now

  OneIdEach-keep :
      (es : List ProfileEntry) → OneIdEach es → OneIdEach (keep (λ e. applies_to e host) es)
  OneIdEach-keep es one e f m n =
      one e f (In-keep (λ x. applies_to x host) e es m).0
        (In-keep (λ x. applies_to x host) f es n).0

  -- A DENIED entry that applies to the host, with no exception for a denying profile.
  pub resolve_one_denied :
      (es : List ProfileEntry) (e : ProfileEntry)
      → OneIdEach es
      → In e es
      → applies_to e host ≡ true
      → e.intent ≡ denied
      → Unwaived denied es
      → Stands false (resolve_one key es activation exceptions host now)
  unfolding resolve_one
  resolve_one_denied es e one m a p n =
      applicable_denied _ e (OneIdEach-keep es one) (keep-In (λ x. applies_to x host) e es m a) p
        (λ f k q. let (i, t) = In-keep (λ x. applies_to x host) f es k in n f i t q) _ refl

  -- A REQUIRED entry that applies to the host, with no exception for a requiring profile.
  pub resolve_one_required :
      (es : List ProfileEntry) (e : ProfileEntry)
      → OneIdEach es
      → In e es
      → applies_to e host ≡ true
      → e.intent ≡ required
      → Unwaived required es
      → Stands true (resolve_one key es activation exceptions host now)
  unfolding resolve_one
  resolve_one_required es e one m a p n =
      applicable_required _ e (OneIdEach-keep es one) (keep-In (λ x. applies_to x host) e es m a) p
        (λ f k q. let (i, t) = In-keep (λ x. applies_to x host) f es k in n f i t q) _ refl
