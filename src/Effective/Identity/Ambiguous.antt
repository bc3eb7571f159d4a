-- ===== src/Effective/Identity/Ambiguous.antt =====
-- Which pairs detectAmbiguousIdentities of internal/effective/identity.go reports.
use oh_my_code_agent.Prelude.{
  true, Option, none, some, is_some, refl, ◌≢◌, List, [], ◌∷◌, map, ◌≡◌, ◌↔◌, ◌⊎◌, inl, inr, sym,
  ap, subst, ◌∙◌, arith, In, In-map, map-In, keep, keep-In, In-keep, In-append, In-append_left,
  In-append_right, str_eq_iff,
}
use oh_my_code_agent.Prelude.Sort.{sort, In-sort_iff}
use oh_my_code_agent.Effective.Types.{Candidate, Fields}
use oh_my_code_agent.Effective.Identity.{
  AmbiguousIdentity, ref_leb, has_connection, same_connection, ambiguous_pairs,
  detect_ambiguous_identities,
}

ambiguous_pairs-In :
    (cs : List Candidate) (p : AmbiguousIdentity)
    → In p (ambiguous_pairs cs)
    → In p.a cs × In p.b cs × (same_connection p.a p.b ≡ true)
unfolding ambiguous_pairs
ambiguous_pairs-In [] p m = absurd m
ambiguous_pairs-In (c ∷ cs) p m =
    elim (In-append p (map (λ b. record { a = c; b = b }) (keep (same_connection c) cs))
      (ambiguous_pairs cs) m) [
        | inl here ↦
            let (b, l, e) =
              map-In (λ b. record { a = c; b = b }) p (keep (same_connection c) cs) here in
            let (n, t) = In-keep (same_connection c) b cs l in
            (
              inl (ap (λ x. x.a) e),
              inr (subst (λ x. In x.b cs) (sym e) n),
              subst (λ x. same_connection x.a x.b ≡ true) (sym e) t,
            )
        | inr later ↦ let (l, n, t) = ambiguous_pairs-In cs p later in (inr l, inr n, t)
      ]

same_connection-sym : (a b : Candidate) → same_connection a b ≡ true → same_connection b a ≡ true
unfolding same_connection
same_connection-sym a b h = ground (
  arith,
  str_eq_iff a.logical_id b.logical_id,
  str_eq_iff b.logical_id a.logical_id,
  str_eq_iff a.content_digest b.content_digest,
  str_eq_iff b.content_digest a.content_digest,
)

same_connection_irrefl : (a : Candidate) → ¬ (same_connection a a ≡ true)
unfolding same_connection
same_connection_irrefl a h = ground (arith, str_eq_iff a.logical_id a.logical_id)

abbrev pub Reported : List AmbiguousIdentity → Candidate → Candidate → Type 0
Reported ps a b = In (record { a = a; b = b }) ps ⊎ In (record { a = b; b = a }) ps

module _ (a b c : Candidate) (cs : List Candidate) where
  Reported-later : Reported (ambiguous_pairs cs) a b → Reported (ambiguous_pairs (c ∷ cs)) a b
  unfolding ambiguous_pairs
  Reported-later (inl m) = inl (
      In-append_right _ (map (λ y. record { a = c; b = y }) (keep (same_connection c) cs))
        (ambiguous_pairs cs) m)
  Reported-later (inr m) = inr (
      In-append_right _ (map (λ y. record { a = c; b = y }) (keep (same_connection c) cs))
        (ambiguous_pairs cs) m)

  ambiguous_pairs_first :
      In b cs → same_connection c b ≡ true → In (record { a = c; b = b }) (ambiguous_pairs (c ∷ cs))
  unfolding ambiguous_pairs
  ambiguous_pairs_first m t =
      In-append_left (record { a = c; b = b })
        (map (λ y. record { a = c; b = y }) (keep (same_connection c) cs)) (ambiguous_pairs cs)
        (In-map (λ y. record { a = c; b = y }) b (keep (same_connection c) cs)
          (keep-In (same_connection c) b cs m t))

ambiguous_pairs-Reported :
    (cs : List Candidate) (a b : Candidate)
    → In a cs
    → In b cs
    → same_connection a b ≡ true
    → Reported (ambiguous_pairs cs) a b
ambiguous_pairs-Reported [] a b m n t = absurd m
ambiguous_pairs-Reported (c ∷ cs) a b (inl e) (inl f) t =
    absurd (same_connection_irrefl a (subst (λ x. same_connection a x ≡ true) (f ∙ sym e) t))
ambiguous_pairs-Reported (c ∷ cs) a b (inl e) (inr n) t = inl (
    subst (λ x. In (record { a = x; b = b }) (ambiguous_pairs (c ∷ cs))) (sym e)
      (ambiguous_pairs_first a b c cs n (subst (λ x. same_connection x b ≡ true) e t)))
ambiguous_pairs-Reported (c ∷ cs) a b (inr m) (inl f) t = inr (
    subst (λ x. In (record { a = x; b = a }) (ambiguous_pairs (c ∷ cs))) (sym f)
      (ambiguous_pairs_first b a c cs m
        (same_connection-sym a c (subst (λ x. same_connection a x ≡ true) f t))))
ambiguous_pairs-Reported (c ∷ cs) a b (inr m) (inr n) t =
    Reported-later a b c cs (ambiguous_pairs-Reported cs a b m n t)

Reported-iff :
    (cs : List Candidate) (a b : Candidate)
    → Reported (detect_ambiguous_identities cs) a b ↔ (
        (In a cs × (has_connection a ≡ true))
        × (In b cs × (has_connection b ≡ true))
        × (same_connection a b ≡ true))
unfolding detect_ambiguous_identities
Reported-iff cs a b = (
  λ h. elim h [
    | inl m ↦
        let (l, n, t) = ambiguous_pairs-In sorted (record { a = a; b = b }) m in
        (listed a l, listed b n, t)
    | inr m ↦
        let (l, n, t) = ambiguous_pairs-In sorted (record { a = b; b = a }) m in
        (listed a n, listed b l, same_connection-sym b a t)
  ],
  λ ((m, s), (n, t), same). ambiguous_pairs-Reported sorted a b (placed a m s) (placed b n t) same,
)
  where
    sorted : List Candidate
    sorted = sort ref_leb (keep has_connection cs)

    listed : (c : Candidate) → In c sorted → In c cs × (has_connection c ≡ true)
    listed c m = In-keep has_connection c cs ((In-sort_iff ref_leb c (keep has_connection cs)).0 m)

    placed : (c : Candidate) → In c cs → has_connection c ≡ true → In c sorted
    placed c m t =
        (In-sort_iff ref_leb c (keep has_connection cs)).1 (keep-In has_connection c cs m t)

-- An MCP server with structured content and a digest.
abbrev pub IsConnection : Candidate → Type 0
IsConnection c =
    (c.concept ≡ "mcp_server") × ((fs : Fields) × (c.fields ≡ some fs)) × (c.content_digest ≢ "")

-- Two servers of one digest under two ids.
abbrev pub IsSameConnection : Candidate → Candidate → Type 0
IsSameConnection a b = (a.logical_id ≢ b.logical_id) × (a.content_digest ≡ b.content_digest)

is_some-fields : (o : Option Fields) → (is_some o ≡ true) ↔ ((fs : Fields) × (o ≡ some fs))
is_some-fields none = (λ h. absurd (ground arith), λ (fs, h). absurd (ground arith))
is_some-fields (some fs) = (λ h. (fs, refl), λ h. refl)

has_connection-IsConnection : (c : Candidate) → (has_connection c ≡ true) ↔ IsConnection c
unfolding has_connection
has_connection-IsConnection c = (
  λ h. (
    ground (arith, h, (str_eq_iff c.concept "mcp_server").0),
    (is_some-fields c.fields).0 (ground (arith, h)),
    λ e. ground (arith, h, (str_eq_iff c.content_digest "").1 e),
  ),
  λ (k, present, digest). ground (
    arith,
    (str_eq_iff c.concept "mcp_server").1 k,
    (is_some-fields c.fields).1 present,
    digest,
    (str_eq_iff c.content_digest "").0,
  ),
)

same_connection-IsSameConnection :
    (a b : Candidate) → (same_connection a b ≡ true) ↔ IsSameConnection a b
unfolding same_connection
same_connection-IsSameConnection a b = (
  λ h. (
    λ e. ground (arith, h, (str_eq_iff a.logical_id b.logical_id).1 e),
    ground (arith, h, (str_eq_iff a.content_digest b.content_digest).0),
  ),
  λ (other, same). ground (
    arith,
    other,
    (str_eq_iff a.logical_id b.logical_id).0,
    (str_eq_iff a.content_digest b.content_digest).1 same,
  ),
)

-- Two candidates are reported as ambiguous, in one order or the other, exactly if both are among the
-- candidates, are MCP servers with structured content and a digest, and have different logical ids and
-- one digest.
pub detect_ambiguous_identities_iff :
    (cs : List Candidate) (a b : Candidate)
    → Reported (detect_ambiguous_identities cs) a b
      ↔ ((In a cs × IsConnection a) × (In b cs × IsConnection b) × IsSameConnection a b)
detect_ambiguous_identities_iff cs a b = (
  λ h.
      let ((m, s), (n, t), same) = (Reported-iff cs a b).0 h in
      (
        (m, (has_connection-IsConnection a).0 s),
        (n, (has_connection-IsConnection b).0 t),
        (same_connection-IsSameConnection a b).0 same,
      ),
  λ ((m, s), (n, t), same). (Reported-iff cs a b).1 (
    (m, (has_connection-IsConnection a).1 s),
    (n, (has_connection-IsConnection b).1 t),
    (same_connection-IsSameConnection a b).1 same,
  ),
)
