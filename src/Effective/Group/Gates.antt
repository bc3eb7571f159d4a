-- ===== src/Effective/Group/Gates.antt =====
-- When `ResolveGroup` picks among sources that disagree.
use oh_my_code_agent.Prelude.{
  ℕ, String, true, Option, some, List, [], ◌∷◌, ap, subst, refl, ◌≡◌, ◌⊎◌, ◌↔◌, inl, inr, sym, ◌∙◌,
  arith, In, Bool-cases, Option-cases, length,
}
use oh_my_code_agent.Domain.Levels.{CapabilityLevel}
use oh_my_code_agent.Effective.Types.{
  MergeOperator, Candidate, LogicalGroup, EffectiveEntry, Outcome, PrecedenceProgram, Options,
  Value, operator_valid, no_program_found,
}
use oh_my_code_agent.Effective.Sources.{distinct_by_content, lookup_program, capability_qualified}
use oh_my_code_agent.Effective.Sources.Distinct.{distinct_by_content_agree}
use oh_my_code_agent.Effective.Operators.Outcomes.{conflict_not_entry, single-cases, List-cases}
use oh_my_code_agent.Effective.Group.{adjudicate, apply_operator, resolve_group}
use oh_my_code_agent.Effective.Group.Programs.{
  IsOnlyProgram, lookup_program-IsOnlyProgram, IsOnlyProgram-lookup_program,
}

-- The operators that can give an entry.
abbrev pub operators : List MergeOperator
operators =
    MergeOperator.replace ∷ MergeOperator.union_by_id ∷ MergeOperator.deep_merge
    ∷ MergeOperator.concat_ordered ∷ MergeOperator.first_match ∷ MergeOperator.namespace
    ∷ MergeOperator.deny_wins ∷ MergeOperator.managed_guardrail ∷ []

qualified :
    (level : CapabilityLevel)
    → (level ≡ CapabilityLevel.exact) ⊎ (level ≡ CapabilityLevel.compatible)
    → capability_qualified level ≡ true
unfolding capability_qualified
qualified level (inl e) = ap capability_qualified e
qualified level (inr e) = ap capability_qualified e

qualified-cases :
    (level : CapabilityLevel)
    → capability_qualified level ≡ true
    → (level ≡ CapabilityLevel.exact) ⊎ (level ≡ CapabilityLevel.compatible)
unfolding capability_qualified
qualified-cases CapabilityLevel.exact h = inl refl
qualified-cases CapabilityLevel.compatible h = inr refl
qualified-cases level h = absurd (ground (arith, h))

-- All sources of the group have one content.
abbrev pub AllAgree : LogicalGroup → Type 0
AllAgree group =
    (c d : Candidate)
    → In c group.candidates
    → In d group.candidates
    → c.content_digest ≡ d.content_digest

module _ (canonical_digest : Value → Option String) (group : LogicalGroup)
    (programs : List PrecedenceProgram) (resolve : CapabilityLevel) (opts : Options)
    (e : EffectiveEntry) where
  -- What the tests of `adjudicate` let through.
  abbrev LetThrough : Type 0
  LetThrough =
      (p : PrecedenceProgram) × (lookup_program programs group.concept ≡ some p)
      × (operator_valid p.operator ≡ true)
      × (capability_qualified resolve ≡ true)
      × (apply_operator canonical_digest group p p.operator opts ≡ Outcome.entry e)

  adjudicate_gates :
      (count : ℕ)
      → adjudicate canonical_digest group programs resolve opts count ≡ Outcome.entry e
      → LetThrough
  unfolding adjudicate
  adjudicate_gates count h = elim (Option-cases (lookup_program programs group.concept)) [
    | inl n ↦ conflict_not_entry group no_program_found _ _ e (rw (adjudicate, n) at h)
    | inr (p, l) ↦ elim (Bool-cases (operator_valid p.operator)) [
      | inr f ↦ conflict_not_entry group p _ _ e (rw (adjudicate, l, f) at h)
      | inl v ↦ elim (Bool-cases (capability_qualified resolve)) [
        | inr f ↦ conflict_not_entry group p _ _ e (rw (adjudicate, l, v, f) at h)
        | inl c ↦ (p, l, v, c, (rw (adjudicate, l, v, c) at h))
      ]
    ]
  ]

  -- One declared program governs the concept, its operator is one of the eight that merge, the host's resolve
  -- capability is EXACT or COMPATIBLE, and the operator gave the entry.
  abbrev pub PassesGates : Type 0
  PassesGates =
      (p : PrecedenceProgram) × IsOnlyProgram p programs group.concept
      × In p.operator operators
      × ((resolve ≡ CapabilityLevel.exact) ⊎ (resolve ≡ CapabilityLevel.compatible))
      × (apply_operator canonical_digest group p p.operator opts ≡ Outcome.entry e)

  applied-In :
      (p : PrecedenceProgram) (o : MergeOperator)
      → apply_operator canonical_digest group p o opts ≡ Outcome.entry e
      → In o operators
  unfolding apply_operator
  applied-In p MergeOperator.unspecified h = conflict_not_entry group p _ _ e h
  applied-In p (MergeOperator.other s) h = conflict_not_entry group p _ _ e h
  applied-In p MergeOperator.replace h = inl refl
  applied-In p MergeOperator.union_by_id h = inr (inl refl)
  applied-In p MergeOperator.deep_merge h = inr (inr (inl refl))
  applied-In p MergeOperator.concat_ordered h = inr (inr (inr (inl refl)))
  applied-In p MergeOperator.first_match h = inr (inr (inr (inr (inl refl))))
  applied-In p MergeOperator.namespace h = inr (inr (inr (inr (inr (inl refl)))))
  applied-In p MergeOperator.deny_wins h = inr (inr (inr (inr (inr (inr (inl refl))))))
  applied-In p MergeOperator.managed_guardrail h =
      inr (inr (inr (inr (inr (inr (inr (inl refl)))))))

  In-operator_valid : (o : MergeOperator) → In o operators → operator_valid o ≡ true
  unfolding operator_valid
  In-operator_valid (MergeOperator.other s) m = absurd (ground (arith, m))
  In-operator_valid o m = refl

  -- Gates that are passed are open: the operator's entry is the result.
  passes :
      (count : ℕ)
      → PassesGates
      → adjudicate canonical_digest group programs resolve opts count ≡ Outcome.entry e
  unfolding adjudicate
  passes count (p, only, o, q, a) =
      rw
        (
          IsOnlyProgram-lookup_program programs group.concept p only,
          In-operator_valid p.operator o,
          qualified resolve q,
        )
        a

  let_through : LetThrough → PassesGates
  let_through (p, l, v, c, a) = (
    p,
    lookup_program-IsOnlyProgram programs group.concept p l,
    applied-In p p.operator a,
    qualified-cases resolve c,
    a,
  )

  given_passes :
      resolve_group canonical_digest group programs resolve opts ≡ Outcome.entry e
      → AllAgree group ⊎ PassesGates
  unfolding resolve_group
  given_passes h = elim (single-cases (distinct_by_content group.candidates)) [
    | inl (w, q) ↦
        inl
          λ c d i j. distinct_by_content_agree w c _ q i ∙ sym (distinct_by_content_agree w d _ q j)
    | inr (inl q) ↦ elim (List-cases group.candidates) [
      | inl z ↦ absurd (ground (arith, z, h))
      | inr (x, xs, z) ↦ inr (let_through (adjudicate_gates 0 (ground (arith, z, q, h))))
    ]
    | inr (inr (x, y, ys, q)) ↦ elim (List-cases group.candidates) [
      | inl z ↦ absurd (ground (arith, z, h))
      | inr (c, cs, z) ↦
          inr (let_through (adjudicate_gates (length (x ∷ y ∷ ys)) (ground (arith, z, q, h))))
    ]
  ]

  passes_given :
      ¬ AllAgree group
      → PassesGates
      → resolve_group canonical_digest group programs resolve opts ≡ Outcome.entry e
  unfolding resolve_group
  passes_given apart g = elim (List-cases group.candidates) [
    | inl z ↦ absurd (apart (λ c d i. absurd (subst (In c) z i)))
    | inr (c, cs, z) ↦ elim (single-cases (distinct_by_content group.candidates)) [
      | inl (w, q) ↦ absurd (
          apart (λ c d i j.
            distinct_by_content_agree w c _ q i ∙ sym (distinct_by_content_agree w d _ q j)))
      | inr (inl q) ↦ ground (arith, z, q, passes 0 g)
      | inr (inr (x, y, ys, q)) ↦ ground (arith, z, q, passes (length (x ∷ y ∷ ys)) g)
    ]
  ]

  -- For sources that do not all have one content, ResolveGroup gives an entry exactly if one declared program
  -- governs the concept and no other does, its operator is one of the eight that merge, the resolve
  -- capability is EXACT or COMPATIBLE, and the operator gives that entry.
  pub resolve_group_gates :
      ¬ AllAgree group
      → (resolve_group canonical_digest group programs resolve opts ≡ Outcome.entry e) ↔ PassesGates
  resolve_group_gates apart = (
    λ h. elim (given_passes h) [ inl agree ↦ absurd (apart agree) | inr g ↦ g ],
    passes_given apart,
  )
