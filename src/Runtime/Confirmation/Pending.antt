-- ===== src/Runtime/Confirmation/Pending.antt =====
-- What RequireConfirmation of internal/runtime/confirmation.go asks for.
use oh_my_code_agent.Prelude.{
  Bool, true, false, none, some, List, [], ◌∷◌, ◌≡◌, ◌≢◌, ◌↔◌, refl, sym, ap, ap₂, arith, In, map,
  subst, nothing_In, ◌∙◌,
}
use oh_my_code_agent.Runtime.Confirmation.{
  ProposedChange, ConfirmationKey, ConfirmationRequirement, ConfirmationRequiredError,
  classify_change, key, pending_changes, required_error, require_confirmation,
}

-- A change that waits for the operator.
abbrev pub IsPending : (ConfirmationKey → Bool) → ProposedChange → Type 0
IsPending confirmed c =
    ((classify_change c).requires_confirmation ≡ true) × (confirmed (key c) ≡ false)

pub pending_changes-map :
    (confirmed : ConfirmationKey → Bool) (cs : List ProposedChange)
    → (pending_changes confirmed cs).0 ≡ map classify_change (pending_changes confirmed cs).1
unfolding pending_changes
pending_changes-map confirmed [] = refl
pending_changes-map confirmed (c ∷ cs) = ground (arith, pending_changes-map confirmed cs)

pub pending_changes-In_iff :
    (confirmed : ConfirmationKey → Bool) (c : ProposedChange) (cs : List ProposedChange)
    → In c (pending_changes confirmed cs).1 ↔ (In c cs × IsPending confirmed c)
unfolding pending_changes
pending_changes-In_iff confirmed c [] = (λ h. absurd h, λ h. absurd h.0)
pending_changes-In_iff confirmed c (x ∷ cs) = (
  λ h. ground (arith, h, (pending_changes-In_iff confirmed c cs).0),
  λ h. ground (arith, h, (pending_changes-In_iff confirmed c cs).1),
)

required_error-some :
    (e : ConfirmationRequiredError) (pending : List ConfirmationRequirement × List ProposedChange)
    → required_error pending ≡ some e
    → (e.requirements ≡ pending.0) × (e.changes ≡ pending.1) × (pending.0 ≢ [])
required_error-some e ([], cs) h = absurd (ground arith)
required_error-some e (r ∷ rs, cs) h =
    (sym (ap (λ x. x.requirements) same), sym (ap (λ x. x.changes) same), λ t. ground arith)
  where
    same : record { requirements = r ∷ rs; changes = cs } ≡ e
    same = ground (arith, h)

required_error-none :
    (pending : List ConfirmationRequirement × List ProposedChange)
    → required_error pending ≡ none
    → pending.0 ≡ []
required_error-none ([], cs) h = refl
required_error-none (r ∷ rs, cs) h = absurd (ground arith)

map-nil : {A B : Type 0} (f : A → B) (xs : List A) → map f xs ≡ [] → xs ≡ []
map-nil f [] h = refl
map-nil f (x ∷ xs) h = absurd (ground arith)

-- RequireConfirmation returns nil exactly if no change waits for the operator: each that requires a
-- confirmation is confirmed under its own kind, asset and host. An error that it returns lists some change,
-- the waiting ones and no other, each beside its own requirement.
pub require_confirmation-IsPending :
    (changes : List ProposedChange) (confirmed : ConfirmationKey → Bool)
    → ((require_confirmation changes confirmed ≡ none)
        ↔ ((c : ProposedChange) → In c changes → ¬ IsPending confirmed c))
      × ((e : ConfirmationRequiredError)
          → require_confirmation changes confirmed ≡ some e
          → (e.requirements ≡ map classify_change e.changes)
            × (e.changes ≢ [])
            × ((c : ProposedChange) → In c e.changes ↔ (In c changes × IsPending confirmed c)))
unfolding require_confirmation
require_confirmation-IsPending changes confirmed = (
  (
    λ h c i p.
        absurd (subst (In c) (nothing h) ((pending_changes-In_iff confirmed c changes).1 (i, p))),
    λ none_waits. rw (none_left none_waits) refl,
  ),
  λ e h.
      let (reqs, chs, some_left) = required_error-some e _ h in
      (
        reqs ∙ pending_changes-map confirmed changes ∙ ap (map classify_change) (sym chs),
        λ t.
            some_left
              (pending_changes-map confirmed changes ∙ ap (map classify_change) (sym chs ∙ t)),
        λ c. rw chs (pending_changes-In_iff confirmed c changes),
      ),
)
  where
    nothing :
        require_confirmation changes confirmed ≡ none → (pending_changes confirmed changes).1 ≡ []
    nothing h = map-nil classify_change _ (
        sym (pending_changes-map confirmed changes)
        ∙ required_error-none (pending_changes confirmed changes) h)

    none_left :
        ((c : ProposedChange) → In c changes → ¬ IsPending confirmed c)
        → pending_changes confirmed changes ≡ ([], [])
    none_left none_waits =
        ap₂ (λ a b. (a, b)) (pending_changes-map confirmed changes ∙ ap (map classify_change) empty)
          empty
      where
        empty : (pending_changes confirmed changes).1 ≡ []
        empty =
            nothing_In _ λ c i.
              let (j, p) = (pending_changes-In_iff confirmed c changes).0 i in none_waits c j p
