-- ===== src/Resolve/Run/Mentions.antt =====
-- Which assets are in the result of `Resolve` of internal/resolve/resolve.go.
use oh_my_code_agent.Prelude.{
  ℕ, suc, String, true, Option, none, some, List, [], ◌∷◌, ◌++◌, map, ◌≡◌, ◌↔◌, ◌⊎◌, refl, sym, ap,
  subst, inl, inr, arith, In, In-map, map-In, In-append, In-append_left, In-append_right, is_some,
}
use oh_my_code_agent.Prelude.Keys.{contains→In, In→contains, lookup, string_eq}
use oh_my_code_agent.Domain.Documents.{
  AssetRef, Profile, Activation, ActivationSelection, HostActivation, Exception,
}
use oh_my_code_agent.Resolve.Types.{
  AssetKind, skill, mcp_server, instruction, AssetKey, key_eq, find, has_conflict,
}
use oh_my_code_agent.Resolve.Candidates.{
  ProfileEntry, entry_of, CandidateMap, append_entry, add_refs, add_profile, collect_from,
  collect_profile_candidates,
}
use oh_my_code_agent.Resolve.Candidates.Declared.{refs_of, In-declared, entries_at-collect}
use oh_my_code_agent.Resolve.Run.{mentioned, selected, selection_keys, host_keys}
use oh_my_code_agent.Resolve.Run.Universe.{In-universe_iff, In-universe_of_entry}
use oh_my_code_agent.Resolve.Run.Policies.{
  state, decision, universe, find-state, conflict_state, is_some-asset_of,
}

-- A selection lists the asset, under its kind.
abbrev pub Lists : ActivationSelection → AssetKey → Type 0
Lists sel key =
    ((key.kind ≡ skill) × In key.id sel.skills)
    ⊎ ((key.kind ≡ mcp_server) × In key.id sel.mcp_servers)

-- A profile has a reference to the asset.
abbrev pub IsReferenced : List Profile → AssetKey → Type 0
IsReferenced profiles key =
    (p : Profile) × (r : AssetRef) × In p profiles × In r (refs_of key.kind p) × (r.id ≡ key.id)

-- The activation enables or disables the asset, for all hosts or for the host.
abbrev pub IsSelected : Activation → String → AssetKey → Type 0
IsSelected activation host key =
    (Lists activation.enable key ⊎ Lists activation.disable key)
    ⊎ ((h : HostActivation) × (lookup activation.hosts host ≡ some h)
        × (Lists h.enable key ⊎ Lists h.disable key))

selected-In :
    (kind : AssetKind) (key : AssetKey) (ids : List String)
    → In key (selected kind ids) ↔ ((key.kind ≡ kind) × In key.id ids)
unfolding selected
selected-In kind key ids = (
  λ h.
      let (id, i, e) = map-In _ key ids h in
      (ap (λ k. k.kind) e, subst (λ x. In x ids) (sym (ap (λ k. k.id) e)) i),
  λ (k, i).
      subst (λ x. In x (selected kind ids)) (ap (λ x. record { kind = x; id = key.id }) (sym k))
        (In-map (λ id. record { kind = kind; id = id }) key.id ids i),
)

append-In_iff : {A : Type 0} (a : A) (xs ys : List A) → In a (xs ++ ys) ↔ (In a xs ⊎ In a ys)
append-In_iff a xs ys = (
  In-append a xs ys,
  λ h. elim h [ inl i ↦ In-append_left a xs ys i | inr i ↦ In-append_right a xs ys i ],
)

selection_keys-In :
    (key : AssetKey) (enable disable : ActivationSelection)
    → In key (selection_keys enable disable) ↔ (Lists enable key ⊎ Lists disable key)
selection_keys-In key enable disable =
    let skills = selected-In skill key enable.skills in
    let servers = selected-In mcp_server key enable.mcp_servers in
    let no_skills = selected-In skill key disable.skills in
    let no_servers = selected-In mcp_server key disable.mcp_servers in
    let outer = append-In_iff key (selected skill enable.skills) _ in
    let middle = append-In_iff key (selected mcp_server enable.mcp_servers) _ in
    let inner =
      append-In_iff key (selected skill disable.skills) (selected mcp_server disable.mcp_servers) in
    (
      λ h. elim (outer.0 h) [
        | inl i ↦ inl (inl (skills.0 i))
        | inr h' ↦ elim (middle.0 h') [
          | inl i ↦ inl (inr (servers.0 i))
          | inr h'' ↦ elim (inner.0 h'') [
            | inl i ↦ inr (inl (no_skills.0 i))
            | inr i ↦ inr (inr (no_servers.0 i))
          ]
        ]
      ],
      λ h. elim h [
        | inl (inl l) ↦ outer.1 (inl (skills.1 l))
        | inl (inr l) ↦ outer.1 (inr (middle.1 (inl (servers.1 l))))
        | inr (inl l) ↦ outer.1 (inr (middle.1 (inr (inner.1 (inl (no_skills.1 l))))))
        | inr (inr l) ↦ outer.1 (inr (middle.1 (inr (inner.1 (inr (no_servers.1 l))))))
      ],
    )

or_first : HostActivation → Option HostActivation → HostActivation
or_first d none = d
or_first d (some h) = h

some_injective : (a b : HostActivation) → some a ≡ some b → a ≡ b
unfolding or_first
some_injective a b e = ap (or_first a) e

host_keys-In :
    (key : AssetKey) (o : Option HostActivation)
    → In key (host_keys o)
      ↔ ((h : HostActivation) × (o ≡ some h) × (Lists h.enable key ⊎ Lists h.disable key))
host_keys-In key none = (λ h. absurd h, λ (h, e, l). absurd (ground arith))
host_keys-In key (some ha) = (
  λ i. (ha, refl, (selection_keys-In key ha.enable ha.disable).0 i),
  λ (h, e, l).
      (selection_keys-In key ha.enable ha.disable).1
        (subst (λ x. Lists x.enable key ⊎ Lists x.disable key) (sym (some_injective ha h e)) l),
)

-- the keys of the candidates
abbrev keys_of : CandidateMap → List AssetKey
keys_of = map (λ p. p.0)

append_entry-keys :
    (k key : AssetKey) (e : ProfileEntry) (m : CandidateMap)
    → In key (keys_of (append_entry k e m))
    → In key (keys_of m) ⊎ (key ≡ k)
unfolding append_entry
append_entry-keys k key e [] (inl h) = inr h
append_entry-keys k key e [] (inr h) = absurd h
append_entry-keys k key e ((j, es) ∷ m) h = ground (arith, h, append_entry-keys k key e m)

-- some reference of the list has the id
abbrev Names : List AssetRef → String → Type 0
Names refs id = (r : AssetRef) × In r refs × (r.id ≡ id)

add_refs-keys :
    (kind : AssetKind) (key : AssetKey) (refs : List AssetRef) (n : ℕ) (id : String)
    (m : CandidateMap)
    → In key (keys_of (add_refs kind refs n id m))
    → In key (keys_of m) ⊎ ((key.kind ≡ kind) × Names refs key.id)
unfolding add_refs
add_refs-keys kind key [] n id m h = inl h
add_refs-keys kind key (r ∷ refs) n id m h = elim (add_refs-keys kind key refs n id _ h) [
  | inr (k, (q, i, e)) ↦ inr (k, (q, inr i, e))
  | inl i ↦ elim (append_entry-keys _ key _ m i) [
    | inl j ↦ inl j
    | inr e ↦ inr (ap (λ x. x.kind) e, (r, inl refl, sym (ap (λ x. x.id) e)))
  ]
]

at_kind :
    (k kind : AssetKind) (p : Profile) (id : String)
    → k ≡ kind
    → Names (refs_of kind p) id
    → Names (refs_of k p) id
at_kind k kind p id e = subst (λ x. Names (refs_of x p) id) (sym e)

add_profile-keys :
    (key : AssetKey) (n : ℕ) (p : Profile) (m : CandidateMap)
    → In key (keys_of (add_profile n p m))
    → In key (keys_of m) ⊎ Names (refs_of key.kind p) key.id
unfolding add_profile
add_profile-keys key n p m h =
    elim (add_refs-keys instruction key p.assets.instructions n p.id _ h) [
      | inr (k, l) ↦ inr (at_kind key.kind instruction p key.id k l)
      | inl i ↦ elim (add_refs-keys mcp_server key p.assets.mcp_servers n p.id _ i) [
        | inr (k, l) ↦ inr (at_kind key.kind mcp_server p key.id k l)
        | inl j ↦ elim (add_refs-keys skill key p.assets.skills n p.id m j) [
          | inr (k, l) ↦ inr (at_kind key.kind skill p key.id k l)
          | inl z ↦ inl z
        ]
      ]
    ]

collect_from-keys :
    (key : AssetKey) (n : ℕ) (ps : List Profile) (m : CandidateMap)
    → In key (keys_of (collect_from n ps m))
    → In key (keys_of m) ⊎ IsReferenced ps key
unfolding collect_from
collect_from-keys key n [] m h = inl h
collect_from-keys key n (p ∷ ps) m h = elim (collect_from-keys key (suc n) ps _ h) [
  | inr (q, r, i, j, e) ↦ inr (q, r, inr i, j, e)
  | inl i ↦ elim (add_profile-keys key n p m i) [
    | inl j ↦ inl j
    | inr (r, j, e) ↦ inr (p, r, inl refl, j, e)
  ]
]

module _ (profiles : List Profile) (activation : Activation) (exceptions : List Exception)
    (host : String) (now : ℕ) (key : AssetKey) where
  universe_iff :
      In key (universe profiles activation exceptions host now key)
      ↔ (IsReferenced profiles key ⊎ IsSelected activation host key)
  unfolding mentioned collect_profile_candidates
  universe_iff =
      let all = In-universe_iff (collect_profile_candidates profiles) activation host key in
      let outer = append-In_iff key (keys_of (collect_profile_candidates profiles)) _ in
      let inner =
        append-In_iff key (selection_keys activation.enable activation.disable)
          (host_keys (lookup activation.hosts host)) in
      (
        λ h. elim (outer.0 (all.0 h)) [
          | inl i ↦ elim (collect_from-keys key 0 profiles [] i) [
            | inl z ↦ absurd z
            | inr q ↦ inl q
          ]
          | inr i ↦ elim (inner.0 i) [
            | inl j ↦ inr (inl ((selection_keys-In key activation.enable activation.disable).0 j))
            | inr j ↦ inr (inr ((host_keys-In key (lookup activation.hosts host)).0 j))
          ]
        ],
        λ h. elim h [
          | inl (p, r, m, i, e) ↦
              let (n, d) = In-declared key p r profiles 0 m i e in
              In-universe_of_entry _ activation host key (entry_of n p.id r)
                (subst (In (entry_of n p.id r)) (sym (entries_at-collect profiles key)) d)
          | inr (inl l) ↦ all.1 (
              outer.1 (
                inr (
                  inner.1
                    (inl ((selection_keys-In key activation.enable activation.disable).1 l)))))
          | inr (inr l) ↦ all.1 (
              outer.1 (inr (inner.1 (inr ((host_keys-In key (lookup activation.hosts host)).1 l)))))
        ],
      )

  -- An asset is in the result, decided or in conflict and not both, exactly if a profile has a reference to
  -- it, for whatever hosts, or the activation enables or disables it, for all hosts or for this one.
  pub resolve_partition :
      let s = state profiles activation exceptions host now key in
      (((is_some (find s key) ≡ true) ⊎ (has_conflict s key ≡ true))
        ↔ (IsReferenced profiles key ⊎ IsSelected activation host key))
      × ¬ ((is_some (find s key) ≡ true) × (has_conflict s key ≡ true))
  resolve_partition =
      let d = decision profiles activation exceptions host now key in
      let found = find-state profiles activation exceptions host now key in
      let split = conflict_state profiles activation exceptions host now key in
      let one = is_some-asset_of d in
      let here = universe profiles activation exceptions host now key in
      (
        (
          λ h. universe_iff.0 (contains→In key here (ground (arith, found, split, one, h))),
          λ h. ground (arith, found, split, one, In→contains key here (universe_iff.1 h)),
        ),
        λ h. ground (arith, found, split, one, h),
      )
