-- ===== src/Drift/Classify/Excepted.antt =====
-- When `Classify` reports an authorized difference.
use oh_my_code_agent.Prelude.{
  ℕ, String, true, false, none, some, List, [], ◌∷◌, ◌≡◌, ◌≢◌, ◌<◌, ◌⊎◌, inl, inr, sym, ap, ◌∙◌,
  arith, str_eq, str_eq_iff, not, keep, first-In, first-none, In, In-keep, keep-In, Bool-cases,
  Option-cases,
}
use oh_my_code_agent.Prelude.Keys.{Eq, string_eq, contains→In, In→contains}
use oh_my_code_agent.Domain.Levels.{DriftCategory}
use oh_my_code_agent.Domain.Documents.{Exception, exception_valid}
use oh_my_code_agent.Drift.Types.{Signal, Assertion, category_beq, category_beq_iff}
use oh_my_code_agent.Drift.Classify.{
  authorizes, find_authorized, underlying_of, asset_of, scopes_of, exception_for, assertion_of,
  classify, Classified, asserted, category_with, ref_of,
}

-- The exception is valid, names the asset and one of the scopes, and has not expired.
abbrev pub IsAuthorized : String → List String → ℕ → Exception → Type 0
IsAuthorized asset scopes now ex =
    (exception_valid ex ≡ true) × (ex.asset_id ≡ asset) × In ex.scope scopes × (now < ex.expires_at)

authorizes→IsAuthorized :
    (asset : String) (scopes : List String) (now : ℕ) (ex : Exception)
    → authorizes asset scopes now ex ≡ true
    → IsAuthorized asset scopes now ex
unfolding authorizes
authorizes→IsAuthorized asset scopes now ex h =
    let (m, _) =
      In-keep (λ s. not (str_eq s "")) ex.scope scopes
        (contains→In ex.scope (keep (λ s. not (str_eq s "")) scopes) (ground arith)) in
    (ground arith, (str_eq_iff ex.asset_id asset).0 (ground arith), m, ground arith)

IsAuthorized→authorizes :
    (asset : String) (scopes : List String) (now : ℕ) (ex : Exception)
    → IsAuthorized asset scopes now ex
    → authorizes asset scopes now ex ≡ true
unfolding authorizes exception_valid
IsAuthorized→authorizes asset scopes now ex (v, a, m, l) = ground (
  arith,
  (str_eq_iff ex.asset_id asset).1 a,
  In→contains ex.scope (keep (λ s. not (str_eq s "")) scopes)
      (keep-In (λ s. not (str_eq s "")) ex.scope scopes m (ground arith)),
)

find_authorized-some :
    (exceptions : List Exception) (asset : String) (scopes : List String) (now : ℕ) (ex : Exception)
    → find_authorized exceptions asset scopes now ≡ some ex
    → In ex exceptions × IsAuthorized asset scopes now ex
unfolding find_authorized
find_authorized-some exceptions asset [] now ex h = absurd (ground (arith, h))
find_authorized-some exceptions asset (s ∷ scopes) now ex h = elim (Bool-cases (str_eq asset "")) [
  | inl t ↦ absurd (ground (arith, rw (find_authorized, t) at h))
  | inr f ↦
      let (m, t) =
        first-In (authorizes asset (s ∷ scopes) now) ex exceptions (rw (find_authorized, f) at h) in
      (m, authorizes→IsAuthorized asset (s ∷ scopes) now ex t)
]

find_authorized-none :
    (exceptions : List Exception) (asset : String) (scopes : List String) (now : ℕ) (ex : Exception)
    → str_eq asset "" ≡ false
    → find_authorized exceptions asset scopes now ≡ none
    → In ex exceptions
    → ¬ IsAuthorized asset scopes now ex
unfolding find_authorized
find_authorized-none exceptions asset [] now ex f h m (v, i, z, l) = absurd z
find_authorized-none exceptions asset (s ∷ scopes) now ex f h m w = ground (
  arith,
  first-none (authorizes asset (s ∷ scopes) now) ex exceptions (rw (find_authorized, f) at h) m,
  IsAuthorized→authorizes asset (s ∷ scopes) now ex w,
)

asserted_or : {A : Type 0} → Assertion A → Classified A → Assertion A
asserted_or d (asserted a) = a
asserted_or d _ = d

asserted_injective : {A : Type 0} {a b : Assertion A} → asserted a ≡ asserted b → a ≡ b
unfolding asserted_or
asserted_injective {A} {a} h = ap (asserted_or a) h

module _ {A : Type 0} ⦃e : Eq A⦄ (sig : Signal A) (exceptions : List Exception) (now : ℕ)
    (a : Assertion A) where
  exception_for-some :
      (ex : Exception)
      → exception_for sig exceptions now ≡ some ex
      → In ex exceptions × IsAuthorized (asset_of sig) (scopes_of sig) now ex
  unfolding exception_for
  exception_for-some ex h =
      elim (Bool-cases (category_beq (underlying_of sig) DriftCategory.unknown)) [
        | inl t ↦ absurd (ground (arith, rw (exception_for, t) at h))
        | inr f ↦
            find_authorized-some exceptions (asset_of sig) (scopes_of sig) now ex
              (rw (exception_for, f) at h)
      ]

  classify_asserted :
      classify sig exceptions now ≡ asserted a
      → (asserted (assertion_of sig (exception_for sig exceptions now)) ≡ asserted a)
        × (category_beq (underlying_of sig) DriftCategory.exception ≡ false)
        × (str_eq sig.entity_id "" ≡ false)
  unfolding classify
  classify_asserted h = (ground arith, ground arith, ground arith)

  named : str_eq sig.entity_id "" ≡ false → str_eq (asset_of sig) "" ≡ false
  unfolding asset_of
  named k = ground (arith, k)

  none_applies :
      str_eq sig.entity_id "" ≡ false
      → exception_for sig exceptions now ≡ none
      → (underlying_of sig ≡ DriftCategory.unknown)
        ⊎ ((ex : Exception)
            → In ex exceptions
            → ¬ IsAuthorized (asset_of sig) (scopes_of sig) now ex)
  unfolding exception_for
  none_applies k h = elim (Bool-cases (category_beq (underlying_of sig) DriftCategory.unknown)) [
    | inl t ↦ inl ((category_beq_iff (underlying_of sig) DriftCategory.unknown).0 t)
    | inr f ↦ inr λ ex m.
        find_authorized-none exceptions (asset_of sig) (scopes_of sig) now ex (named k)
          (rw (exception_for, f) at h) m
  ]

  -- An assertion of the category EXCEPTION carries the id of a listed exception that is valid, names
  -- the signal's asset and one of its scopes, and has not expired. Any other assertion has the category
  -- that the signal was given, and then that is UNKNOWN or no listed exception applies.
  pub classify_excepted :
      classify sig exceptions now ≡ asserted a
      → ((a.category ≡ DriftCategory.exception)
          × (ex : Exception) × In ex exceptions
          × (a.exception_ref ≡ ex.id)
          × IsAuthorized (asset_of sig) (scopes_of sig) now ex)
        ⊎ ((a.category ≡ underlying_of sig)
            × (a.category ≢ DriftCategory.exception)
            × (a.exception_ref ≡ "")
            × ((underlying_of sig ≡ DriftCategory.unknown)
                ⊎ ((ex : Exception)
                    → In ex exceptions
                    → ¬ IsAuthorized (asset_of sig) (scopes_of sig) now ex)))
  unfolding assertion_of
  classify_excepted h =
      let (q, n, k) = classify_asserted h in
      let p = asserted_injective q in
      elim (Option-cases (exception_for sig exceptions now)) [
        | inl z ↦
            let c : a.category ≡ underlying_of sig =
              sym (ap (λ x. x.category) p) ∙ ap (category_with (underlying_of sig)) z in
            inr (
              c,
              λ x. ground (
                arith,
                n,
                (category_beq_iff (underlying_of sig) DriftCategory.exception).1 (sym c ∙ x),
              ),
              sym (ap (λ x. x.exception_ref) p) ∙ ap ref_of z,
              none_applies k z,
            )
        | inr (ex, z) ↦
            let (m, w) = exception_for-some ex z in
            inl (
              sym (ap (λ x. x.category) p) ∙ ap (category_with (underlying_of sig)) z,
              ex,
              m,
              sym (ap (λ x. x.exception_ref) p) ∙ ap ref_of z,
              w,
            )
      ]
