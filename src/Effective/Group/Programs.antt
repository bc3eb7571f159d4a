-- ===== src/Effective/Group/Programs.antt =====
-- The program that `LookupProgram` of internal/effective/precedence.go finds.
use oh_my_code_agent.Prelude.{
  String, true, some, List, [], ◌∷◌, ◌++◌, ap, subst, refl, keep, keep-In, str_append, ◌≡◌, ◌⊎◌,
  inl, inr, sym, ◌∙◌, arith, In, Bool-cases,
}
use text.Mathlib.Text.{starts_with}
use oh_my_code_agent.Effective.Types.{PrecedenceProgram}
use oh_my_code_agent.Effective.Sources.{lookup_program, only_program}
use oh_my_code_agent.Effective.Sources.Distinct.{only_program-some}

-- The id of a program starts with the concept and a dot.
abbrev pub Governs : PrecedenceProgram → String → Type 0
Governs p concept = starts_with p.id (str_append concept ".") ≡ true

-- `p` stands in the list and governs the concept, and nothing else in the list does.
abbrev pub IsOnlyProgram : PrecedenceProgram → List PrecedenceProgram → String → Type 0
IsOnlyProgram p programs concept =
    (before : List PrecedenceProgram) × (after : List PrecedenceProgram) × (programs
      ≡ before ++ (p ∷ after))
    × Governs p concept
    × ((q : PrecedenceProgram) → In q before ⊎ In q after → ¬ Governs q concept)

keep-IsOnlyProgram :
    (programs : List PrecedenceProgram) (concept : String) (p : PrecedenceProgram)
    → keep (λ q. starts_with q.id (str_append concept ".")) programs ≡ p ∷ []
    → IsOnlyProgram p programs concept
unfolding keep
keep-IsOnlyProgram [] concept p h = absurd (ground arith)
keep-IsOnlyProgram (x ∷ xs) concept p h =
    elim (Bool-cases (starts_with x.id (str_append concept "."))) [
      | inr f ↦
          let (before, after, e, g, none_else) = keep-IsOnlyProgram xs concept p (rw f at h) in
          (
            x ∷ before,
            after,
            ap (◌∷◌ x) e,
            g,
            λ q m. elim m [
              | inl (inl z) ↦ λ t.
                  ground (arith, f, sym (ap (λ r. starts_with r.id (str_append concept ".")) z) ∙ t)
              | inl (inr z) ↦ none_else q (inl z)
              | inr z ↦ none_else q (inr z)
            ],
          )
      | inl t ↦
          let k : x ∷ keep (λ q. starts_with q.id (str_append concept ".")) xs ≡ p ∷ [] =
            rw t at h in
          let same : x ≡ p = ground (arith, k) in
          let rest : keep (λ q. starts_with q.id (str_append concept ".")) xs ≡ [] =
            ground (arith, k) in
          (
            [],
            xs,
            ap (λ y. y ∷ xs) same,
            subst (λ y. Governs y concept) same t,
            λ q m. elim m [
              | inl z ↦ absurd z
              | inr z ↦ λ u. absurd (
                  subst (In q) rest
                    (keep-In (λ q. starts_with q.id (str_append concept ".")) q xs z u))
            ],
          )
    ]

pub lookup_program-IsOnlyProgram :
    (programs : List PrecedenceProgram) (concept : String) (p : PrecedenceProgram)
    → lookup_program programs concept ≡ some p
    → IsOnlyProgram p programs concept
unfolding lookup_program
lookup_program-IsOnlyProgram programs concept p h =
    keep-IsOnlyProgram programs concept p (only_program-some _ p h)

keep_none :
    (programs : List PrecedenceProgram) (concept : String)
    → ((q : PrecedenceProgram) → In q programs → ¬ Governs q concept)
    → keep (λ q. starts_with q.id (str_append concept ".")) programs ≡ []
unfolding keep
keep_none [] concept h = refl
keep_none (x ∷ xs) concept h = elim (Bool-cases (starts_with x.id (str_append concept "."))) [
  | inl t ↦ absurd (h x (inl refl) t)
  | inr f ↦ rw f (keep_none xs concept (λ q m. h q (inr m)))
]

keep_only :
    (before after : List PrecedenceProgram) (p : PrecedenceProgram) (concept : String)
    → Governs p concept
    → ((q : PrecedenceProgram) → In q before ⊎ In q after → ¬ Governs q concept)
    → keep (λ q. starts_with q.id (str_append concept ".")) (before ++ (p ∷ after)) ≡ p ∷ []
unfolding keep
keep_only [] after p concept g h = rw g (ap (◌∷◌ p) (keep_none after concept (λ q m. h q (inr m))))
keep_only (x ∷ before) after p concept g h =
    elim (Bool-cases (starts_with x.id (str_append concept "."))) [
      | inl t ↦ absurd (h x (inl (inl refl)) t)
      | inr f ↦ rw f (
          keep_only before after p concept g
            (λ q m. h q (elim m [ inl i ↦ inl (inr i) | inr i ↦ inr i ])))
    ]

pub IsOnlyProgram-lookup_program :
    (programs : List PrecedenceProgram) (concept : String) (p : PrecedenceProgram)
    → IsOnlyProgram p programs concept
    → lookup_program programs concept ≡ some p
unfolding lookup_program
IsOnlyProgram-lookup_program programs concept p (before, after, e, g, h) =
    ap (λ x. lookup_program x concept) e ∙ ap only_program (keep_only before after p concept g h)
