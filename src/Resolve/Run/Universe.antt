-- ===== src/Resolve/Run/Universe.antt =====
-- Which assets `Resolve` decides, and how often.
use oh_my_code_agent.Prelude.{
  ℕ, String, Bool, true, false, Option, none, some, List, [], ◌∷◌, map, ◌≡◌, refl, sym, ap, inl,
  inr, ◌↔◌, not, ◌&&◌, ◌||◌, arith, In, first, some_of, Bool-cases, if◌then◌else◌, In-append_left,
}
use oh_my_code_agent.Prelude.Keys.{contains, In-distinct_iff, distinct, IsNodup, distinct-IsNodup}
use oh_my_code_agent.Prelude.Sort.{In-sort_iff, sort-IsNodup}
use oh_my_code_agent.Domain.Documents.{Activation, Exception}
use oh_my_code_agent.Resolve.Types.{
  AssetKey, key_eq, key_beq, key_beq_iff, ResolvedAsset, ResolvedState, find, has_conflict,
}
use oh_my_code_agent.Resolve.Candidates.{ProfileEntry, CandidateMap, entries_at}
use oh_my_code_agent.Resolve.Decide.{
  Decision, decided, undecided, conflict_of, activate, decide_reduced, resolve_one, Baseline,
  settled, contradiction, baseline,
}
use oh_my_code_agent.Resolve.Decide.Reduce.{Reduction, reduced, ambiguous, ReducedProfile}
use oh_my_code_agent.Resolve.Run.{mentioned, collect_universe, add_decision, resolve_keys, key_leb}

abbrev pub decision_key : Decision → AssetKey
decision_key (decided a) = a.key
decision_key (undecided c) = c.key

abbrev pub asset_of : Decision → Option ResolvedAsset
asset_of (decided a) = some a
asset_of (undecided c) = none

abbrev pub is_undecided : Decision → Bool
is_undecided (decided a) = false
is_undecided (undecided c) = true

module _ (activation : Activation) (exceptions : List Exception) (host : String) (now : ℕ) where
  activate_key :
      (key : AssetKey) (rs : List ReducedProfile) (b : Baseline)
      → decision_key (activate key rs activation exceptions host now b) ≡ key
  unfolding activate conflict_of
  activate_key key rs contradiction = refl
  activate_key key rs (settled i a w) = refl

  decide_reduced_key :
      (key : AssetKey) (red : Reduction)
      → decision_key (decide_reduced key red activation exceptions host now) ≡ key
  unfolding decide_reduced conflict_of
  decide_reduced_key key (ambiguous is) = refl
  decide_reduced_key key (reduced rs) = activate_key key rs (baseline key rs exceptions now)

  resolve_one_key :
      (key : AssetKey) (es : List ProfileEntry)
      → decision_key (resolve_one key es activation exceptions host now) ≡ key
  unfolding resolve_one
  resolve_one_key key es = decide_reduced_key key _

  -- one decision in front of a state
  find-add_decision :
      (d : Decision) (key : AssetKey) (s : ResolvedState)
      → find (add_decision d s) key
        ≡ (if key_beq (decision_key d) key && not (is_undecided d) then asset_of d else find s key)
  unfolding add_decision find first
  find-add_decision (decided a) key s = ground arith
  find-add_decision (undecided c) key s = ground arith

  has_conflict-add_decision :
      (d : Decision) (key : AssetKey) (s : ResolvedState)
      → has_conflict (add_decision d s) key
        ≡ (key_beq (decision_key d) key && is_undecided d || has_conflict s key)
  unfolding add_decision has_conflict some_of
  has_conflict-add_decision (decided a) key s = ground arith
  has_conflict-add_decision (undecided c) key s = ground arith

  module _ (c : CandidateMap) where
    abbrev pub decide_at : AssetKey → Decision
    decide_at key = resolve_one key (entries_at c key) activation exceptions host now

    abbrev state_of : List AssetKey → ResolvedState
    state_of u = resolve_keys u c activation exceptions host now

    find_step :
        (k key : AssetKey) (u : List AssetKey)
        → find (state_of u) key ≡ (if contains u key then asset_of (decide_at key) else none)
        → find (add_decision (decide_at k) (state_of u)) key
          ≡ (if key_beq k key || contains u key then asset_of (decide_at key) else none)
    find_step k key u ih = elim (Bool-cases (key_beq k key)) [
      | inl t ↦
          let same = ap decide_at ((key_beq_iff k key).0 t) in
          ground (
            arith,
            t,
            ih,
            same,
            find-add_decision (decide_at k) key (state_of u),
            ap (λ x. key_beq x key) (resolve_one_key k (entries_at c k)),
          )
      | inr f ↦ ground (
        arith,
        f,
        ih,
        find-add_decision (decide_at k) key (state_of u),
        ap (λ x. key_beq x key) (resolve_one_key k (entries_at c k)),
      )
    ]

    conflict_step :
        (k key : AssetKey) (u : List AssetKey)
        → has_conflict (state_of u) key ≡ (contains u key && is_undecided (decide_at key))
        → has_conflict (add_decision (decide_at k) (state_of u)) key
          ≡ ((key_beq k key || contains u key) && is_undecided (decide_at key))
    conflict_step k key u ih = elim (Bool-cases (key_beq k key)) [
      | inl t ↦
          let same = ap decide_at ((key_beq_iff k key).0 t) in
          ground (
            arith,
            t,
            ih,
            same,
            has_conflict-add_decision (decide_at k) key (state_of u),
            ap (λ x. key_beq x key) (resolve_one_key k (entries_at c k)),
          )
      | inr f ↦ ground (
        arith,
        f,
        ih,
        has_conflict-add_decision (decide_at k) key (state_of u),
        ap (λ x. key_beq x key) (resolve_one_key k (entries_at c k)),
      )
    ]

    -- `Find` gives the decision of the asset's own key, and nothing for a conflict.
    pub find-resolve_keys :
        (u : List AssetKey) (key : AssetKey)
        → find (state_of u) key ≡ (if contains u key then asset_of (decide_at key) else none)
    unfolding resolve_keys contains
    find-resolve_keys [] key = unfold find first in refl
    find-resolve_keys (k ∷ u) key = find_step k key u (find-resolve_keys u key)

    pub has_conflict-resolve_keys :
        (u : List AssetKey) (key : AssetKey)
        → has_conflict (state_of u) key ≡ (contains u key && is_undecided (decide_at key))
    unfolding resolve_keys contains
    has_conflict-resolve_keys [] key = unfold has_conflict some_of in refl
    has_conflict-resolve_keys (k ∷ u) key = conflict_step k key u (has_conflict-resolve_keys u key)

pub In-universe_iff :
    (c : CandidateMap) (activation : Activation) (host : String) (key : AssetKey)
    → In key (collect_universe c activation host) ↔ In key (mentioned c activation host)
unfolding collect_universe
In-universe_iff c activation host key = (
  λ h. (In-distinct_iff key _).0 ((In-sort_iff key_leb key _).0 h),
  λ h. (In-sort_iff key_leb key _).1 ((In-distinct_iff key _).1 h),
)

pub universe-IsNodup :
    (c : CandidateMap) (activation : Activation) (host : String)
    → IsNodup (collect_universe c activation host)
unfolding collect_universe
universe-IsNodup c activation host =
    sort-IsNodup key_leb (distinct (mentioned c activation host)) (distinct-IsNodup _)

In-keys :
    (e : ProfileEntry) (key : AssetKey) (c : CandidateMap)
    → In e (entries_at c key)
    → In key (map (λ p. p.0) c)
unfolding entries_at
In-keys e key [] m = absurd m
In-keys e key ((k, es) ∷ c) m = elim (Bool-cases (key_beq k key)) [
  | inl t ↦ inl (sym ((key_beq_iff k key).0 t))
  | inr f ↦ inr (In-keys e key c (ground arith))
]

-- An asset with an entry is decided, whatever the host.
pub In-universe_of_entry :
    (c : CandidateMap) (activation : Activation) (host : String) (key : AssetKey) (e : ProfileEntry)
    → In e (entries_at c key)
    → In key (collect_universe c activation host)
unfolding mentioned
In-universe_of_entry c activation host key e m =
    (In-universe_iff c activation host key).1 (In-append_left key _ _ (In-keys e key c m))
