-- ===== src/Domain/Validate/Denied/Accepts.antt =====
-- Which activations `ValidateActivationAgainstProfiles` accepts.
use oh_my_code_agent.Prelude.{
  String, true, Option, none, some, List, [], ◌∷◌, ◌++◌, ◌≡◌, ◌↔◌, ◌⊎◌, inl, inr, refl, sym, subst,
  arith, In, In-append, In-append_left, In-append_right, Bool-cases,
}
use oh_my_code_agent.Prelude.Keys.{lookup, string_eq}
use oh_my_code_agent.Domain.Documents.{
  AssetRef, Profile, Activation, ActivationSelection, HostActivation,
}
use oh_my_code_agent.Domain.Validate.Denied.{
  DeniedMap, record_all, record_profile, denied_from, denied_assets, blocked, DeniedFault,
  check_ids, check_selection, check_hosts, validate_activation_against_profiles, denied_skill,
  denied_mcp_server, ◌>>◌,
}
use oh_my_code_agent.Domain.Validate.Denied.Recorded.{IsBlocked, SomeDenies, record_all_iff}

abbrev pub all_refs : Profile → List AssetRef
all_refs p = p.assets.instructions ++ (p.assets.mcp_servers ++ p.assets.skills)

-- Some reference of some profile denies the id at the host.
abbrev pub IsDeniedAt : List Profile → String → String → Type 0
IsDeniedAt ps id host = (p : Profile) × In p ps × SomeDenies (all_refs p) id host

refs_append :
    (xs ys : List AssetRef) (id host : String)
    → SomeDenies (xs ++ ys) id host ↔ (SomeDenies xs id host ⊎ SomeDenies ys id host)
refs_append xs ys id host = (
  λ (r, i, d). elim (In-append r xs ys i) [ inl j ↦ inl (r, j, d) | inr j ↦ inr (r, j, d) ],
  λ h. elim h [
    | inl (r, i, d) ↦ (r, In-append_left r xs ys i, d)
    | inr (r, i, d) ↦ (r, In-append_right r xs ys i, d)
  ],
)

record_profile_iff :
    (p : Profile) (m : DeniedMap) (id host : String)
    → IsBlocked (record_profile p m) id host
      ↔ (SomeDenies (all_refs p) id host ⊎ IsBlocked m id host)
record_profile_iff p m id host =
    let a =
      record_all_iff p.assets.instructions
        (record_all p.assets.mcp_servers (record_all p.assets.skills m)) id host in
    let b = record_all_iff p.assets.mcp_servers (record_all p.assets.skills m) id host in
    let c = record_all_iff p.assets.skills m id host in
    let d = refs_append p.assets.instructions (p.assets.mcp_servers ++ p.assets.skills) id host in
    let e = refs_append p.assets.mcp_servers p.assets.skills id host in
    (
      λ t. elim (a.0 t) [
        | inl x ↦ inl (d.1 (inl x))
        | inr u ↦ elim (b.0 u) [
          | inl x ↦ inl (d.1 (inr (e.1 (inl x))))
          | inr v ↦ elim (c.0 v) [ inl x ↦ inl (d.1 (inr (e.1 (inr x)))) | inr w ↦ inr w ]
        ]
      ],
      λ h. elim h [
        | inr w ↦ a.1 (inr (b.1 (inr (c.1 (inr w)))))
        | inl x ↦ elim (d.0 x) [
          | inl y ↦ a.1 (inl y)
          | inr y ↦ elim (e.0 y) [
            | inl z ↦ a.1 (inr (b.1 (inl z)))
            | inr z ↦ a.1 (inr (b.1 (inr (c.1 (inl z)))))
          ]
        ]
      ],
    )

denied_from_iff :
    (ps : List Profile) (m : DeniedMap) (id host : String)
    → IsBlocked (denied_from ps m) id host ↔ (IsDeniedAt ps id host ⊎ IsBlocked m id host)
unfolding denied_from
denied_from_iff [] m id host = (λ t. inr t, λ h. elim h [ inl (p, z, d) ↦ absurd z | inr t ↦ t ])
denied_from_iff (p ∷ ps) m id host = (
  λ t. elim ((denied_from_iff ps (record_profile p m) id host).0 t) [
    | inl (q, i, d) ↦ inl (q, inr i, d)
    | inr u ↦ elim ((record_profile_iff p m id host).0 u) [
      | inl d ↦ inl (p, inl refl, d)
      | inr v ↦ inr v
    ]
  ],
  λ h. (denied_from_iff ps (record_profile p m) id host).1 (elim h [
    | inl (q, inl e, d) ↦ inr (
        (record_profile_iff p m id host).1 (inl (subst (λ x. SomeDenies (all_refs x) id host) e d)))
    | inl (q, inr i, d) ↦ inl (q, i, d)
    | inr v ↦ inr ((record_profile_iff p m id host).1 (inr v))
  ]),
)

denied_assets_iff :
    (ps : List Profile) (id host : String)
    → IsBlocked (denied_assets ps) id host ↔ IsDeniedAt ps id host
unfolding denied_assets lookup
denied_assets_iff ps id host = (
  λ t. elim ((denied_from_iff ps [] id host).0 t) [
    | inl d ↦ d
    | inr n ↦ absurd (ground (arith, n))
  ],
  λ d. (denied_from_iff ps [] id host).1 (inl d),
)

check_ids_iff :
    (m : DeniedMap) (host : String) (f : String → DeniedFault) (ids : List String)
    → (check_ids m host f ids ≡ none) ↔ ((id : String) → In id ids → ¬ IsBlocked m id host)
unfolding check_ids
check_ids_iff m host f [] = (λ h id z. absurd z, λ h. refl)
check_ids_iff m host f (x ∷ ids) = elim (Bool-cases (blocked (lookup m x) host)) [
  | inl t ↦ (λ h. absurd (ground (arith, t, h)), λ h. absurd (h x (inl refl) t))
  | inr n ↦ (
    λ h id i. elim i [
      | inl q ↦ λ b. ground (arith, n, subst (λ y. blocked (lookup m y) host ≡ true) q b)
      | inr j ↦ (check_ids_iff m host f ids).0 (ground (arith, n, h)) id j
    ],
    λ h. rw n ((check_ids_iff m host f ids).1 (λ id j. h id (inr j))),
  )
]

-- No skill and no MCP server of the selection has an id that a profile denies at the host.
abbrev pub AllowedAt : List Profile → String → ActivationSelection → Type 0
AllowedAt ps host sel =
    (id : String) → In id sel.skills ⊎ In id sel.mcp_servers → ¬ IsDeniedAt ps id host

chain_iff : (x y : Option DeniedFault) → ((x >> y) ≡ none) ↔ ((x ≡ none) × (y ≡ none))
chain_iff none y = (λ h. (refl, h), λ h. h.1)
chain_iff (some e) y = (λ h. absurd (ground (arith, h)), λ h. absurd (ground (arith, h.0)))

check_selection_iff :
    (ps : List Profile) (host : String) (sel : ActivationSelection)
    → (check_selection (denied_assets ps) host sel ≡ none) ↔ AllowedAt ps host sel
unfolding check_selection
check_selection_iff ps host sel =
    let m = denied_assets ps in
    let s = check_ids_iff m host denied_skill sel.skills in
    let t = check_ids_iff m host denied_mcp_server sel.mcp_servers in
    let both =
      chain_iff (check_ids m host denied_skill sel.skills)
        (check_ids m host denied_mcp_server sel.mcp_servers) in
    (
      λ h id i d. elim i [
        | inl j ↦ s.0 (both.0 h).0 id j ((denied_assets_iff ps id host).1 d)
        | inr j ↦ t.0 (both.0 h).1 id j ((denied_assets_iff ps id host).1 d)
      ],
      λ h. both.1 (
        s.1 (λ id j b. h id (inl j) ((denied_assets_iff ps id host).0 b)),
        t.1 (λ id j b. h id (inr j) ((denied_assets_iff ps id host).0 b)),
      ),
    )

check_hosts_iff :
    (ps : List Profile) (hosts : List (String × HostActivation))
    → (check_hosts (denied_assets ps) hosts ≡ none)
      ↔ ((h : String × HostActivation) → In h hosts → AllowedAt ps h.0 h.1.enable)
unfolding check_hosts
check_hosts_iff ps [] = (λ e h z. absurd z, λ h. refl)
check_hosts_iff ps ((host, ha) ∷ hosts) =
    let both =
      chain_iff (check_selection (denied_assets ps) host ha.enable)
        (check_hosts (denied_assets ps) hosts) in
    let here = check_selection_iff ps host ha.enable in
    let later = check_hosts_iff ps hosts in
    (
      λ e h i. elim i [
        | inl q ↦ subst (λ x. AllowedAt ps x.0 x.1.enable) (sym q) (here.0 (both.0 e).0)
        | inr j ↦ later.0 (both.0 e).1 h j
      ],
      λ g. both.1 (here.1 (g (host, ha) (inl refl)), later.1 (λ h j. g h (inr j))),
    )

-- The activation is accepted exactly if its host-neutral selection enables no skill or MCP server whose
-- id some reference of a profile, of any kind, denies without a list of hosts (or for the empty host),
-- and the selection of a host enables none whose id is denied at that host.
pub validate_activation_against_profiles_iff :
    (a : Activation) (ps : List Profile)
    → (validate_activation_against_profiles a ps ≡ none) ↔ (
        AllowedAt ps "" a.enable
        × ((h : String × HostActivation) → In h a.hosts → AllowedAt ps h.0 h.1.enable))
unfolding validate_activation_against_profiles
validate_activation_against_profiles_iff a ps =
    let both =
      chain_iff (check_selection (denied_assets ps) "" a.enable)
        (check_hosts (denied_assets ps) a.hosts) in
    (
      λ h. (
        (check_selection_iff ps "" a.enable).0 (both.0 h).0,
        (check_hosts_iff ps a.hosts).0 (both.0 h).1,
      ),
      λ h. both.1 ((check_selection_iff ps "" a.enable).1 h.0, (check_hosts_iff ps a.hosts).1 h.1),
    )
