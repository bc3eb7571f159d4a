-- ===== src/Domain/Validate/Denied/Recorded.antt =====
-- What the map of `deniedAssets` holds after a reference is recorded.
use oh_my_code_agent.Prelude.{
  String, true, Option, none, some, List, [], ◌∷◌, ◌++◌, ◌≡◌, ◌↔◌, ◌⊎◌, inl, inr, refl, sym, subst,
  arith, if◌then◌else◌, In, In-append, In-append_left, In-append_right, Bool-cases, str_eq,
  str_eq_iff,
}
use oh_my_code_agent.Prelude.Keys.{lookup, string_eq, contains→In, In→contains}
use oh_my_code_agent.Domain.Levels.{denied, intent_beq, intent_beq_iff}
use oh_my_code_agent.Domain.Documents.{AssetRef}
use oh_my_code_agent.Domain.Validate.Denied.{
  DeniedScope, scope_applies_to, DeniedMap, or_empty, widen, record_denied, record_all, blocked,
}

-- The reference denies the id at the host.
abbrev pub Denies : AssetRef → String → String → Type 0
Denies r id host = (r.intent ≡ denied) × (r.id ≡ id) × ((r.hosts ≡ []) ⊎ In host r.hosts)

abbrev pub IsBlocked : DeniedMap → String → String → Type 0
IsBlocked m id host = blocked (lookup m id) host ≡ true

widen_sound :
    (o : Option DeniedScope) (hs : List String) (host : String)
    → scope_applies_to (widen (or_empty o) hs) host ≡ true
    → ((hs ≡ []) ⊎ In host hs) ⊎ (blocked o host ≡ true)
unfolding scope_applies_to
widen_sound o [] host t = inl (inl refl)
widen_sound none (h ∷ hs) host t =
    elim (In-append host (h ∷ hs) [] (contains→In host ((h ∷ hs) ++ []) t)) [
      | inl m ↦ inl (inr m)
      | inr z ↦ absurd z
    ]
widen_sound (some s) (h ∷ hs) host t = elim (Bool-cases s.host_neutral) [
  | inl n ↦ inr (rw n refl)
  | inr n ↦
      elim (In-append host (h ∷ hs) s.hosts
        (contains→In host ((h ∷ hs) ++ s.hosts) (ground (arith, n, t)))) [
          | inl m ↦ inl (inr m)
          | inr m ↦ inr (rw n (In→contains host s.hosts m))
        ]
]

widen_complete :
    (o : Option DeniedScope) (hs : List String) (host : String)
    → ((hs ≡ []) ⊎ In host hs) ⊎ (blocked o host ≡ true)
    → scope_applies_to (widen (or_empty o) hs) host ≡ true
unfolding scope_applies_to
widen_complete o [] host h = refl
widen_complete none (h ∷ hs) host (inl (inl e)) = absurd (ground (arith, e))
widen_complete none (h ∷ hs) host (inl (inr m)) =
    In→contains host ((h ∷ hs) ++ []) (In-append_left host (h ∷ hs) [] m)
widen_complete none (h ∷ hs) host (inr t) = absurd (ground (arith, t))
widen_complete (some s) (h ∷ hs) host (inl (inl e)) = absurd (ground (arith, e))
widen_complete (some s) (h ∷ hs) host (inl (inr m)) =
    ground (arith, In→contains host ((h ∷ hs) ++ s.hosts) (In-append_left host (h ∷ hs) s.hosts m))
widen_complete (some s) (h ∷ hs) host (inr t) = elim (Bool-cases s.host_neutral) [
  | inl n ↦ rw n refl
  | inr n ↦ rw n (
      In→contains host ((h ∷ hs) ++ s.hosts)
        (In-append_right host (h ∷ hs) s.hosts (contains→In host s.hosts (ground (arith, n, t)))))
]

record_denied_sound :
    (r : AssetRef) (m : DeniedMap) (id host : String)
    → IsBlocked (record_denied r m) id host
    → Denies r id host ⊎ IsBlocked m id host
unfolding record_denied lookup
record_denied_sound r m id host t = elim (Bool-cases (intent_beq r.intent denied)) [
  | inr f ↦ inr (
      subst
        (λ b.
          blocked
            (lookup (if b then (r.id, widen (or_empty (lookup m r.id)) r.hosts) ∷ m else m) id) host
          ≡ true)
        f t)
  | inl d ↦
      let u =
        subst
          (λ b.
            blocked
              (lookup (if b then (r.id, widen (or_empty (lookup m r.id)) r.hosts) ∷ m else m) id)
              host
            ≡ true)
          d t in
      elim (Bool-cases (str_eq r.id id)) [
        | inr g ↦ inr (
            subst
              (λ b.
                blocked (if b then some (widen (or_empty (lookup m r.id)) r.hosts) else lookup m id)
                  host
                ≡ true)
              g u)
        | inl e ↦
            let same = (str_eq_iff r.id id).0 e in
            let v =
              subst
                (λ b.
                  blocked
                    (if b then some (widen (or_empty (lookup m r.id)) r.hosts) else lookup m id)
                    host
                  ≡ true)
                e u in
            elim (widen_sound (lookup m r.id) r.hosts host v) [
              | inl hit ↦ inl ((intent_beq_iff r.intent denied).0 d, same, hit)
              | inr old ↦ inr (subst (λ x. blocked (lookup m x) host ≡ true) same old)
            ]
      ]
]

record_denied_complete :
    (r : AssetRef) (m : DeniedMap) (id host : String)
    → Denies r id host ⊎ IsBlocked m id host
    → IsBlocked (record_denied r m) id host
unfolding record_denied lookup
record_denied_complete r m id host h = elim (Bool-cases (intent_beq r.intent denied)) [
  | inr f ↦ elim h [
    | inl (d, e, hit) ↦ absurd (ground (arith, f, (intent_beq_iff r.intent denied).1 d))
    | inr old ↦
        subst
          (λ b.
            blocked
              (lookup (if b then (r.id, widen (or_empty (lookup m r.id)) r.hosts) ∷ m else m) id)
              host
            ≡ true)
          (sym f) old
  ]
  | inl d ↦
      subst
        (λ b.
          blocked
            (lookup (if b then (r.id, widen (or_empty (lookup m r.id)) r.hosts) ∷ m else m) id) host
          ≡ true)
        (sym d)
        (elim (Bool-cases (str_eq r.id id)) [
          | inl e ↦
              let same = (str_eq_iff r.id id).0 e in
              subst
                (λ b.
                  blocked
                    (if b then some (widen (or_empty (lookup m r.id)) r.hosts) else lookup m id)
                    host
                  ≡ true)
                (sym e)
                (widen_complete (lookup m r.id) r.hosts host (elim h [
                  | inl (i, q, hit) ↦ inl hit
                  | inr old ↦ inr (subst (λ x. blocked (lookup m x) host ≡ true) (sym same) old)
                ]))
          | inr g ↦ elim h [
            | inl (i, q, hit) ↦ absurd (ground (arith, g, (str_eq_iff r.id id).1 q))
            | inr old ↦
                subst
                  (λ b.
                    blocked
                      (if b then some (widen (or_empty (lookup m r.id)) r.hosts) else lookup m id)
                      host
                    ≡ true)
                  (sym g) old
          ]
        ])
]

-- Some reference of the list denies the id at the host.
abbrev pub SomeDenies : List AssetRef → String → String → Type 0
SomeDenies rs id host = (r : AssetRef) × In r rs × Denies r id host

pub record_all_iff :
    (rs : List AssetRef) (m : DeniedMap) (id host : String)
    → IsBlocked (record_all rs m) id host ↔ (SomeDenies rs id host ⊎ IsBlocked m id host)
unfolding record_all
record_all_iff [] m id host = (λ t. inr t, λ h. elim h [ inl (r, z, d) ↦ absurd z | inr t ↦ t ])
record_all_iff (r ∷ rs) m id host = (
  λ t. elim ((record_all_iff rs (record_denied r m) id host).0 t) [
    | inl (x, i, d) ↦ inl (x, inr i, d)
    | inr u ↦ elim (record_denied_sound r m id host u) [
      | inl d ↦ inl (r, inl refl, d)
      | inr v ↦ inr v
    ]
  ],
  λ h. (record_all_iff rs (record_denied r m) id host).1 (elim h [
    | inl (x, inl q, d) ↦
        inr (record_denied_complete r m id host (inl (subst (λ y. Denies y id host) q d)))
    | inl (x, inr i, d) ↦ inl (x, i, d)
    | inr v ↦ inr (record_denied_complete r m id host (inr v))
  ]),
)
