-- ===== src/Runtime/DiffChanges/Found.antt =====
-- What DiffProposedChanges of internal/runtime/diffchanges.go finds.
use oh_my_code_agent.Prelude.{
  String, true, false, Option, none, some, List, [], ◌∷◌, ◌≡◌, ◌↔◌, ◌⊎◌, refl, sym, ap, ◌∙◌, arith,
  inl, inr, In, str_eq, str_eq_iff, Bool-cases, contains,
}
use oh_my_code_agent.Runtime.Confirmation.{
  ProposedChange, ChangeKind, enable_mcp_server, expand_access, classify_kind,
}
use oh_my_code_agent.Runtime.DiffChanges.{
  GenerationSourceEntry, SourceKey, source_key, source_key_eq, is_active, included_source_set,
  change_kind, change_of, change_from, append_some, proposed_change, proposed_changes,
}

-- Some entry of the list is active and has the key.
abbrev pub HasActive : String → SourceKey → List GenerationSourceEntry → Type 0
HasActive host k ss =
    (s : GenerationSourceEntry) × In s ss × (is_active host s ≡ true) × (source_key s ≡ k)

pub HasActive-later :
    (host : String) (k : SourceKey) (x : GenerationSourceEntry) (xs : List GenerationSourceEntry)
    → HasActive host k xs
    → HasActive host k (x ∷ xs)
HasActive-later host k x xs (s, i, t, same) = (s, inr i, t, same)

pub included_source_set-In_iff :
    (host : String) (k : SourceKey) (ss : List GenerationSourceEntry)
    → In k (included_source_set host ss) ↔ HasActive host k ss
unfolding included_source_set
included_source_set-In_iff host k [] = (λ h. absurd h, λ (s, i, t, same). absurd i)
included_source_set-In_iff host k (x ∷ xs) = (
  λ h. elim (Bool-cases (is_active host x)) [
    | inl t ↦ elim (rw t at h) [
      | inl e ↦ (x, inl refl, t, sym e)
      | inr i ↦ HasActive-later host k x xs ((included_source_set-In_iff host k xs).0 i)
    ]
    | inr f ↦ HasActive-later host k x xs ((included_source_set-In_iff host k xs).0 (rw f at h))
  ],
  λ (s, i, t, same). elim (Bool-cases (is_active host x)) [
    | inl u ↦ rw u (elim i [
      | inl e ↦ inl (sym same ∙ ap source_key e)
      | inr j ↦ inr ((included_source_set-In_iff host k xs).1 (s, j, t, same))
    ])
    | inr u ↦ rw u (elim i [
      | inl e ↦ absurd (ground (arith, sym t ∙ ap (is_active host) e ∙ u))
      | inr j ↦ (included_source_set-In_iff host k xs).1 (s, j, t, same)
    ])
  ],
)

pub append_some-In_iff :
    (c : ProposedChange) (o : Option ProposedChange) (cs : List ProposedChange)
    → In c (append_some o cs) ↔ ((o ≡ some c) ⊎ In c cs)
append_some-In_iff c none cs = (λ i. inr i, λ h. ground (arith, h))
append_some-In_iff c (some x) cs = (λ h. ground (arith, h), λ h. ground (arith, h))

pub proposed_changes-In_iff :
    (before : List SourceKey) (host : String) (c : ProposedChange) (ss : List GenerationSourceEntry)
    → In c (proposed_changes before host ss)
      ↔ ((s : GenerationSourceEntry) × In s ss × (proposed_change before host s ≡ some c))
unfolding proposed_changes
proposed_changes-In_iff before host c [] = (λ h. absurd h, λ (s, i, h). absurd i)
proposed_changes-In_iff before host c (x ∷ xs) = (
  λ h. elim ((append_some-In_iff c (proposed_change before host x) _).0 h) [
    | inl e ↦ (x, inl refl, e)
    | inr i ↦ let (s, j, e) = (proposed_changes-In_iff before host c xs).0 i in (s, inr j, e)
  ],
  λ (s, i, e). (append_some-In_iff c (proposed_change before host x) _).1 (elim i [
    | inl same ↦ inl (ap (proposed_change before host) (sym same) ∙ e)
    | inr j ↦ inr ((proposed_changes-In_iff before host c xs).1 (s, j, e))
  ]),
)

pub change_kind_mcp_server : change_kind "mcpServer" ≡ some enable_mcp_server
unfolding str_eq
change_kind_mcp_server = refl

pub change_kind_permission : change_kind "permission" ≡ some expand_access
unfolding str_eq
change_kind_permission = refl

-- The changes that require a confirmation are those of these two concepts.
pub change_kind-cases :
    (concept : String) (kind : ChangeKind)
    → change_kind concept ≡ some kind
    → (classify_kind kind).requires_confirmation ≡ true
    → ((concept ≡ "mcpServer") × (kind ≡ enable_mcp_server))
      ⊎ ((concept ≡ "permission") × (kind ≡ expand_access))
unfolding classify_kind
change_kind-cases concept enable_mcp_server h t =
    inl (ground (arith, h, (str_eq_iff concept "mcpServer").0), refl)
change_kind-cases concept expand_access h t =
    inr (ground (arith, h, (str_eq_iff concept "permission").0), refl)
change_kind-cases concept kind h t = absurd (ground (arith, h, t))

pub proposed_change-some :
    (before : List SourceKey) (host : String) (s : GenerationSourceEntry) (kind : ChangeKind)
    → is_active host s ≡ true
    → contains before (source_key s) ≡ false
    → change_kind s.concept ≡ some kind
    → proposed_change before host s ≡ some (change_of host s kind)
unfolding proposed_change
proposed_change-some before host s kind active new is_kind = rw (active, new, is_kind) refl

pub change_from-some :
    (host : String) (s : GenerationSourceEntry) (c : ProposedChange) (o : Option ChangeKind)
    → change_from host s o ≡ some c
    → (kind : ChangeKind) × (o ≡ some kind) × (c ≡ change_of host s kind)
change_from-some host s c none h = absurd (ground arith)
change_from-some host s c (some kind) h = (kind, refl, ground (arith, h))

pub proposed_change-view :
    (before : List SourceKey) (host : String) (s : GenerationSourceEntry) (c : ProposedChange)
    → proposed_change before host s ≡ some c
    → (is_active host s ≡ true)
      × (contains before (source_key s) ≡ false)
      × ((kind : ChangeKind) × (change_kind s.concept ≡ some kind) × (c ≡ change_of host s kind))
unfolding proposed_change
proposed_change-view before host s c h = elim (Bool-cases (is_active host s)) [
  | inr off ↦ absurd (ground (arith, rw off at h))
  | inl on ↦ elim (Bool-cases (contains before (source_key s))) [
    | inl old ↦ absurd (ground (arith, rw (on, old) at h))
    | inr new ↦ (on, new, change_from-some host s c (change_kind s.concept) (rw (on, new) at h))
  ]
]
