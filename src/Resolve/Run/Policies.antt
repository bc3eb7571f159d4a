-- ===== src/Resolve/Run/Policies.antt =====
-- What `Resolve` guarantees of the policies that the profiles state.
use oh_my_code_agent.Prelude.{
  ℕ, String, Bool, true, false, none, List, ◌≡◌, refl, ap, subst, ◌∙◌, ◌⊎◌, inl, inr, ◌↔◌, [], ◌∷◌,
  not, ◌&&◌, arith, In, Bool-cases, if◌then◌else◌, is_some,
}
use oh_my_code_agent.Prelude.Keys.{contains, contains→In, In→contains, not_In→contains, string_eq}
use oh_my_code_agent.Domain.Levels.{Intent, denied, required}
use oh_my_code_agent.Domain.Documents.{AssetRef, Profile, Activation, Exception}
use oh_my_code_agent.Resolve.Types.{
  AssetKey, key_eq, ResolvedState, find, is_active, active_of, is_active-find, has_conflict,
}
use oh_my_code_agent.Resolve.Candidates.{
  ProfileEntry, applies_to, entry_of, entries_at, collect_profile_candidates,
}
use oh_my_code_agent.Resolve.Candidates.Declared.{
  refs_of, declared, entries_at-collect, In-declared, declared-Origin, declared_one_id,
}
use oh_my_code_agent.Resolve.Waiver.Waived.{Waived}
use oh_my_code_agent.Resolve.Decide.{Decision, decided, undecided}
use oh_my_code_agent.Resolve.Decide.Grouped.{OneIdEach}
use oh_my_code_agent.Resolve.Decide.Sticky.{Stands, resolve_one_denied, resolve_one_required}
use oh_my_code_agent.Resolve.Run.{collect_universe, resolve_profiles}
use oh_my_code_agent.Resolve.Run.Universe.{
  decide_at, asset_of, is_undecided, find-resolve_keys, has_conflict-resolve_keys,
  In-universe_of_entry,
}

-- A reference with no host selector holds for every host, another one for the hosts it lists.
abbrev pub RefAppliesTo : AssetRef → String → Type 0
RefAppliesTo r host = (r.hosts ≡ []) ⊎ In host r.hosts

-- A profile of the list states an intent for an asset at a host.
pub record States (i : Intent) (key : AssetKey) (host : String) (profiles : List Profile)
    (p : Profile) : Type 0 where
  pub listed : In p profiles
  pub ref : AssetRef
  pub has_ref : In ref (refs_of key.kind p)
  pub same_id : ref.id ≡ key.id
  pub intent : ref.intent ≡ i
  pub applies : RefAppliesTo ref host

applies_to-entry_of :
    (n : ℕ) (pid : String) (r : AssetRef) (host : String)
    → RefAppliesTo r host
    → applies_to (entry_of n pid r) host ≡ true
unfolding applies_to entry_of
applies_to-entry_of n pid r host (inl e) = rw e refl
applies_to-entry_of n pid r host (inr m) = ground (arith, In→contains host r.hosts m)

entry_of-applies_to :
    (n : ℕ) (pid : String) (r : AssetRef) (host : String)
    → applies_to (entry_of n pid r) host ≡ true
    → RefAppliesTo r host
unfolding applies_to entry_of
entry_of-applies_to n pid r host h = go r.hosts refl
  where
    go : (hs : List String) → r.hosts ≡ hs → RefAppliesTo r host
    go [] e = inl e
    go (x ∷ hs) e = inr (contains→In host r.hosts (ground arith))

pub inactive_of :
    (b : Bool) (d : Decision) → Stands false d → active_of (if b then asset_of d else none) ≡ false
inactive_of true (decided a) h = h
inactive_of true (undecided c) h = refl
inactive_of false d h = refl

pub is_some-asset_of : (d : Decision) → is_some (asset_of d) ≡ not (is_undecided d)
is_some-asset_of (decided a) = refl
is_some-asset_of (undecided c) = refl

active_or_conflict :
    (d : Decision) → Stands true d → (active_of (asset_of d) ≡ true) ⊎ (is_undecided d ≡ true)
active_or_conflict (decided a) h = inl h
active_or_conflict (undecided c) h = inr refl

same_contains : (a b : List AssetKey) (k : AssetKey) → In k a ↔ In k b → contains a k ≡ contains b k
same_contains a b k h = elim (Bool-cases (contains b k)) [
  | inl t ↦ rw t (In→contains k a (h.1 (contains→In k b t)))
  | inr f ↦ rw f (not_In→contains k a λ m. ground (arith, In→contains k b (h.0 m)))
]

module _ (profiles : List Profile) (activation : Activation) (exceptions : List Exception)
    (host : String) (now : ℕ) (key : AssetKey) where
  abbrev pub entries : List ProfileEntry
  entries = entries_at (collect_profile_candidates profiles) key

  pub entries_eq : entries ≡ declared 0 profiles key
  entries_eq = entries_at-collect profiles key

  entries_one_id : OneIdEach entries
  entries_one_id = rw entries_eq (declared_one_id key profiles 0)

  -- the entry of a statement
  record Entry (i : Intent) : Type 0 where
    e : ProfileEntry
    listed : In e entries
    applies : applies_to e host ≡ true
    intent : e.intent ≡ i

  States→Entry : (i : Intent) (p : Profile) → States i key host profiles p → Entry i
  unfolding entry_of
  States→Entry i p s =
      let (n, m) = In-declared key p s.ref profiles 0 s.listed s.has_ref s.same_id in
      record {
        e = entry_of n p.id s.ref;
        listed = rw entries_eq m;
        applies = applies_to-entry_of n p.id s.ref host s.applies;
        intent = s.intent;
      }

  pub Entry→States :
      (i : Intent) (e : ProfileEntry)
      → In e entries
      → applies_to e host ≡ true
      → e.intent ≡ i
      → (p : Profile) × States i key host profiles p × (e.profile_id ≡ p.id)
  unfolding entry_of
  Entry→States i e m a q =
      let o = declared-Origin key e profiles 0 (subst (In e) entries_eq m) in
      (
        o.profile,
        record {
          listed = o.listed;
          ref = o.ref;
          has_ref = o.has_ref;
          same_id = o.same_id;
          intent = ground (arith, o.is_entry, q);
          applies =
              entry_of-applies_to _ o.profile.id o.ref host
                (subst (λ x. applies_to x host ≡ true) o.is_entry a);
        },
        ap (λ x. x.profile_id) o.is_entry,
      )

  abbrev pub state : ResolvedState
  state = resolve_profiles profiles activation exceptions host now

  abbrev pub decision : Decision
  decision = decide_at activation exceptions host now (collect_profile_candidates profiles) key

  abbrev pub universe : List AssetKey
  universe = collect_universe (collect_profile_candidates profiles) activation host

  pub find-state : find state key ≡ (if contains universe key then asset_of decision else none)
  unfolding resolve_profiles
  find-state = find-resolve_keys activation exceptions host now _ universe key

  pub conflict_state : has_conflict state key ≡ (contains universe key && is_undecided decision)
  unfolding resolve_profiles
  conflict_state = has_conflict-resolve_keys activation exceptions host now _ universe key

  unwaived :
      (i : Intent)
      → ((q : Profile) → States i key host profiles q → ¬ Waived exceptions key.id q.id now)
      → (f : ProfileEntry) → In f entries
      → applies_to f host ≡ true
      → f.intent ≡ i
      → ¬ Waived exceptions key.id f.profile_id now
  unwaived i n f m a q w =
      let (p, s, e) = Entry→States i f m a q in
      n p s (subst (λ z. Waived exceptions key.id z now) e w)

  -- DENIED: an asset that some profile denies at the host is not active, whatever the other profiles
  -- and the activation say, if no live exception names the asset and a profile that denies it.
  pub denied_stays_inactive :
      (p : Profile)
      → States denied key host profiles p
      → ((q : Profile) → States denied key host profiles q → ¬ Waived exceptions key.id q.id now)
      → is_active state key ≡ false
  denied_stays_inactive p s n =
      let x = States→Entry denied p s in
      is_active-find state key find-state
      ∙ inactive_of (contains universe key) decision (
          resolve_one_denied key activation exceptions host now entries x.e entries_one_id x.listed
            x.applies x.intent (unwaived denied n))

  -- REQUIRED: an asset that some profile requires at the host is active, or reported as a conflict,
  -- whatever the activation says, if no live exception names the asset and a profile that requires it.
  pub required_stays_active :
      (p : Profile)
      → States required key host profiles p
      → ((q : Profile) → States required key host profiles q → ¬ Waived exceptions key.id q.id now)
      → (is_active state key ≡ true) ⊎ (has_conflict state key ≡ true)
  required_stays_active p s n =
      let x = States→Entry required p s in
      let here =
        In→contains key universe (In-universe_of_entry _ activation host key x.e x.listed) in
      elim (active_or_conflict decision (
        resolve_one_required key activation exceptions host now entries x.e entries_one_id x.listed
          x.applies x.intent (unwaived required n))) [
            | inl h ↦
                inl
                  (is_active-find state key {o = asset_of decision} (find-state ∙ rw here refl) ∙ h)
            | inr h ↦ inr (conflict_state ∙ rw (here, h) refl)
          ]
