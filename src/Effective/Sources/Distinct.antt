-- ===== src/Effective/Sources/Distinct.antt =====
-- What `distinctByContent`, `candidateRefs`, `highestEvidence` and `LookupProgram` return.
use oh_my_code_agent.Prelude.{
  ◌≢◌, ◌∙◌, String, true, false, some, List, [], ◌∷◌, map, ◌≡◌, ◌≤◌, ◌↔◌, ◌⊎◌, inl, inr, refl, sym,
  ap, subst, arith, ltb, str_eq, str_eq_iff, str_eq_refl, In, In-map, map-In, Bool-cases,
}
use oh_my_code_agent.Prelude.Keys.{contains, string_eq}
use oh_my_code_agent.Prelude.Sort.{sort, insert, insert-In, In-sort_iff}
use oh_my_code_agent.Prelude.TextOrder.{str_leb}
use oh_my_code_agent.Domain.Levels.{EvidenceLevel, evidence_rank}
use oh_my_code_agent.Effective.Types.{Candidate, PrecedenceProgram}
use oh_my_code_agent.Effective.Sources.{
  ref_leb, one_per_digest, distinct_by_content, candidate_refs, highest_from, highest_evidence,
  only_program,
}
use mathlib.Core.Option.{some-injective}

one_per_digest-In :
    (seen : List String) (c : Candidate) (cs : List Candidate)
    → In c (one_per_digest seen cs)
    → In c cs
unfolding one_per_digest
one_per_digest-In seen c [] m = absurd m
one_per_digest-In seen c (x ∷ cs) m =
    ground (arith, one_per_digest-In seen c cs, one_per_digest-In (x.content_digest ∷ seen) c cs)

one_per_digest_represents :
    (seen : List String) (c : Candidate) (cs : List Candidate)
    → In c cs
    → contains seen c.content_digest ≡ false
    → (d : Candidate) × In d (one_per_digest seen cs) × (d.content_digest ≡ c.content_digest)
unfolding one_per_digest contains
one_per_digest_represents seen c [] m f = absurd m
one_per_digest_represents seen c (x ∷ cs) m f = elim (Bool-cases (contains seen x.content_digest)) [
  | inl t ↦ rw t (one_per_digest_represents seen c cs (later (λ q. ground (arith, q))) f)
  | inr g ↦ rw g (elim (Bool-cases (str_eq x.content_digest c.content_digest)) [
    | inl s ↦ (x, inl refl, (str_eq_iff x.content_digest c.content_digest).0 s)
    | inr n ↦
        let (d, i, e) =
          one_per_digest_represents (x.content_digest ∷ seen) c cs
            (later (λ q. ground (arith, q, str_eq_refl x.content_digest))) (fresh n) in
        (d, inr i, e)
  ])
]
  where
    later : ¬ (c ≡ x) → In c cs
    later apart = elim m [ inl q ↦ absurd (apart q) | inr i ↦ i ]

    fresh :
        str_eq x.content_digest c.content_digest ≡ false
        → contains (x.content_digest ∷ seen) c.content_digest ≡ false
    fresh n = ground (arith, n)

one_per_digest_fresh :
    (seen : List String) (c : Candidate) (cs : List Candidate)
    → In c (one_per_digest seen cs)
    → contains seen c.content_digest ≡ false
unfolding one_per_digest contains
one_per_digest_fresh seen c [] m = absurd m
one_per_digest_fresh seen c (x ∷ cs) m = elim (Bool-cases (contains seen x.content_digest)) [
  | inl t ↦ one_per_digest_fresh seen c cs (rw (one_per_digest, t) at m)
  | inr f ↦ elim (rw (one_per_digest, f) at m) [
    | inl e ↦ rw e f
    | inr i ↦ ground (arith, one_per_digest_fresh (x.content_digest ∷ seen) c cs i)
  ]
]

-- No two candidates of the list have one digest.
abbrev pub AreApart : List Candidate → Type 0
AreApart [] = Unit
AreApart (x ∷ xs) = ((c : Candidate) → In c xs → c.content_digest ≢ x.content_digest) × AreApart xs

one_per_digest-AreApart :
    (seen : List String) (cs : List Candidate) → AreApart (one_per_digest seen cs)
unfolding one_per_digest contains
one_per_digest-AreApart seen [] = tt
one_per_digest-AreApart seen (x ∷ cs) = elim (Bool-cases (contains seen x.content_digest)) [
  | inl t ↦ rw t (one_per_digest-AreApart seen cs)
  | inr f ↦ rw f (
    λ c i e. ground (
      arith,
      one_per_digest_fresh (x.content_digest ∷ seen) c cs i,
      (str_eq_iff x.content_digest c.content_digest).1 (sym e),
    ),
    one_per_digest-AreApart (x.content_digest ∷ seen) cs,
  )
]

insert-AreApart :
    (a : Candidate) (xs : List Candidate)
    → ((c : Candidate) → In c xs → c.content_digest ≢ a.content_digest)
    → AreApart xs
    → AreApart (insert ref_leb a xs)
unfolding insert
insert-AreApart a [] h k = (h, k)
insert-AreApart a (x ∷ xs) h (first, k) = elim (Bool-cases (ref_leb a x)) [
  | inl t ↦ rw t (h, (first, k))
  | inr f ↦ rw f (
    λ c i. elim (insert-In ref_leb a c xs i) [
      | inl e ↦ λ q. h x (inl refl) (sym q ∙ ap (λ d. d.content_digest) e)
      | inr j ↦ first c j
    ],
    insert-AreApart a xs (λ c i. h c (inr i)) k,
  )
]

sort-AreApart : (xs : List Candidate) → AreApart xs → AreApart (sort ref_leb xs)
unfolding sort
sort-AreApart [] h = h
sort-AreApart (x ∷ xs) (first, h) =
    insert-AreApart x (sort ref_leb xs) (λ c i. first c ((In-sort_iff ref_leb c xs).0 i))
      (sort-AreApart xs h)

pub distinct_by_content-AreApart : (cs : List Candidate) → AreApart (distinct_by_content cs)
unfolding distinct_by_content
distinct_by_content-AreApart cs =
    sort-AreApart (one_per_digest [] cs) (one_per_digest-AreApart [] cs)

pub distinct_by_content-In :
    (c : Candidate) (cs : List Candidate) → In c (distinct_by_content cs) → In c cs
unfolding distinct_by_content
distinct_by_content-In c cs m = one_per_digest-In [] c cs ((In-sort_iff ref_leb c _).0 m)

pub distinct_by_content_represents :
    (c : Candidate) (cs : List Candidate)
    → In c cs
    → (d : Candidate) × In d (distinct_by_content cs) × (d.content_digest ≡ c.content_digest)
unfolding distinct_by_content contains
distinct_by_content_represents c cs m =
    let (d, i, e) = one_per_digest_represents [] c cs m refl in
    (d, (In-sort_iff ref_leb d _).1 i, e)

pub distinct_by_content_agree :
    (w c : Candidate) (cs : List Candidate)
    → distinct_by_content cs ≡ w ∷ []
    → In c cs
    → c.content_digest ≡ w.content_digest
distinct_by_content_agree w c cs h m =
    let (d, i, e) = distinct_by_content_represents c cs m in
    elim (subst (In d) h i) [ inl q ↦ ground (arith, q) | inr z ↦ absurd z ]

one_per_digest_skips :
    (seen : List String) (cs : List Candidate)
    → ((c : Candidate) → In c cs → contains seen c.content_digest ≡ true)
    → one_per_digest seen cs ≡ []
unfolding one_per_digest
one_per_digest_skips seen [] h = refl
one_per_digest_skips seen (x ∷ cs) h =
    rw (h x (inl refl)) (one_per_digest_skips seen cs (λ c m. h c (inr m)))

pub distinct_by_content_single :
    (x : Candidate) (cs : List Candidate)
    → ((c : Candidate) → In c cs → c.content_digest ≡ x.content_digest)
    → distinct_by_content (x ∷ cs) ≡ x ∷ []
unfolding distinct_by_content one_per_digest contains sort insert
distinct_by_content_single x cs h =
    rw
      (one_per_digest_skips (x.content_digest ∷ []) cs
        (λ c m. ground (arith, h c m, str_eq_refl c.content_digest)))
      refl

pub candidate_refs_iff :
    (r : String) (cs : List Candidate)
    → In r (candidate_refs cs) ↔ (c : Candidate) × In c cs × (r ≡ c.ref)
unfolding candidate_refs
candidate_refs_iff r cs = (
  λ m. map-In (λ c. c.ref) r cs ((In-sort_iff str_leb r _).0 m),
  λ (c, m, e). (In-sort_iff str_leb r (map (λ c. c.ref) cs)).1 (rw e (In-map (λ c. c.ref) c cs m)),
)

highest_from_bound :
    (best : EvidenceLevel) (cs : List Candidate)
    → (evidence_rank best ≤ evidence_rank (highest_from best cs))
      × ((c : Candidate)
          → In c cs
          → evidence_rank c.evidence_level ≤ evidence_rank (highest_from best cs))
unfolding highest_from
highest_from_bound best [] = (ground arith, λ c m. absurd m)
highest_from_bound best (x ∷ cs) =
    elim (Bool-cases (ltb (evidence_rank best) (evidence_rank x.evidence_level))) [
      | inl t ↦
          let (low, all) = highest_from_bound x.evidence_level cs in
          rw t (ground arith, λ c m. elim m [ inl q ↦ rw q low | inr i ↦ all c i ])
      | inr f ↦
          let (low, all) = highest_from_bound best cs in
          rw f (low, λ c m. elim m [ inl q ↦ rw q (ground arith) | inr i ↦ all c i ])
    ]

highest_from-In :
    (best : EvidenceLevel) (cs : List Candidate)
    → (highest_from best cs ≡ best)
      ⊎ ((c : Candidate) × In c cs × (highest_from best cs ≡ c.evidence_level))
unfolding highest_from
highest_from-In best [] = inl refl
highest_from-In best (x ∷ cs) =
    elim (Bool-cases (ltb (evidence_rank best) (evidence_rank x.evidence_level))) [
      | inl t ↦ rw t (elim (highest_from-In x.evidence_level cs) [
        | inl e ↦ inr (x, inl refl, e)
        | inr (c, m, e) ↦ inr (c, inr m, e)
      ])
      | inr f ↦
          rw f
            (elim (highest_from-In best cs) [ inl e ↦ inl e | inr (c, m, e) ↦ inr (c, inr m, e) ])
    ]

-- The level that `highestEvidence` returns is one of the sources' or E0, and no source has a
-- stronger one.
pub highest_evidence_max :
    (cs : List Candidate)
    → ((highest_evidence cs ≡ EvidenceLevel.discovered)
        ⊎ ((c : Candidate) × In c cs × (highest_evidence cs ≡ c.evidence_level)))
      × ((c : Candidate)
          → In c cs
          → evidence_rank c.evidence_level ≤ evidence_rank (highest_evidence cs))
unfolding highest_evidence
highest_evidence_max cs = (
  highest_from-In EvidenceLevel.discovered cs,
  (highest_from_bound EvidenceLevel.discovered cs).1,
)

pub only_program-some :
    (ps : List PrecedenceProgram) (p : PrecedenceProgram) → only_program ps ≡ some p → ps ≡ p ∷ []
only_program-some [] p h = absurd (ground arith)
only_program-some (q ∷ []) p h = ap (λ r. r ∷ []) (some-injective q p h)
only_program-some (q ∷ r ∷ ps) p h = absurd (ground arith)
