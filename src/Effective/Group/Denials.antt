-- ===== src/Effective/Group/Denials.antt =====
-- How denials show in the entries of DENY_WINS and of sources that agree on their content.
use oh_my_code_agent.Prelude.{
  String, Bool, true, false, Option, List, [], ◌∷◌, map, ◌≡◌, ◌↔◌, inl, inr, refl, sym, ap, subst,
  ◌∙◌, nothing_In, Bool-cases, arith, not, keep, In, In-map, map-In, In-keep, keep-In,
}
use oh_my_code_agent.Prelude.Sort.{sort, In-sort_iff}
use oh_my_code_agent.Prelude.TextOrder.{str_leb}
use oh_my_code_agent.Domain.Levels.{CapabilityLevel}
use oh_my_code_agent.Effective.Types.{
  Candidate, LogicalGroup, Provenance, EffectiveEntry, Outcome, PrecedenceProgram, Options, Value,
}
use oh_my_code_agent.Effective.Sources.{distinct_by_content, candidate_refs, is_denied}
use oh_my_code_agent.Effective.Sources.Distinct.{
  candidate_refs_iff, distinct_by_content_agree, distinct_by_content_single,
  distinct_by_content_represents,
}
use oh_my_code_agent.Effective.Operators.{survivors, removed_refs, entry_of, resolve_deny_wins}
use oh_my_code_agent.Effective.Operators.Outcomes.{
  conflict_not_entry, entry_of_fields, is_entry, is_entry_witness, single-cases, List-cases,
}
use oh_my_code_agent.Effective.Group.{agreed_group, resolve_group}

-- The active sources are the refs of the candidates that are not denied, the ignored ones the refs
-- of those that are.
abbrev pub AccountsForDenials : List String → List Candidate → Provenance → Type 0
AccountsForDenials denied cs p =
    ((r : String)
      → In r p.active_sources
        ↔ (c : Candidate) × In c cs × (is_denied denied c ≡ false) × (r ≡ c.ref))
    × ((r : String)
        → In r p.ignored_sources
          ↔ (c : Candidate) × In c cs × (is_denied denied c ≡ true) × (r ≡ c.ref))

module _ (denied : List String) (cs : List Candidate) where
  survivors_iff :
      (c : Candidate) → In c (survivors denied cs) ↔ In c cs × (is_denied denied c ≡ false)
  unfolding survivors
  survivors_iff c = (
    λ m. let (i, t) = In-keep (λ c. not (is_denied denied c)) c cs m in (i, ground arith),
    λ (i, f). keep-In (λ c. not (is_denied denied c)) c cs i (ground arith),
  )

  removed_iff :
      (r : String)
      → In r (removed_refs denied cs)
        ↔ (c : Candidate) × In c cs × (is_denied denied c ≡ true) × (r ≡ c.ref)
  unfolding removed_refs
  removed_iff r = (
    λ m.
        let (c, i, e) = map-In (λ c. c.ref) r _ ((In-sort_iff str_leb r _).0 m) in
        let (j, t) = In-keep (is_denied denied) c cs i in (c, j, t, e),
    λ (c, i, t, e).
        (In-sort_iff str_leb r (map (λ c. c.ref) (keep (is_denied denied) cs))).1
          (rw e (In-map (λ c. c.ref) c _ (keep-In (is_denied denied) c cs i t))),
  )

  alive_iff :
      (r : String)
      → In r (candidate_refs (survivors denied cs))
        ↔ (c : Candidate) × In c cs × (is_denied denied c ≡ false) × (r ≡ c.ref)
  alive_iff r = (
    λ m.
        let (c, i, e) = (candidate_refs_iff r (survivors denied cs)).0 m in
        let (j, f) = (survivors_iff c).0 i in (c, j, f, e),
    λ (c, i, f, e).
        (candidate_refs_iff r (survivors denied cs)).1 (c, (survivors_iff c).1 (i, f), e),
  )

  -- With no active source there is no survivor.
  accounts :
      (p : Provenance)
      → p.active_sources ≡ candidate_refs (survivors denied cs)
      → p.ignored_sources ≡ removed_refs denied cs
      → AccountsForDenials denied cs p
  accounts p a i = (λ r. rw a (alive_iff r), λ r. rw i (removed_iff r))

nothing_distinct : (cs : List Candidate) → distinct_by_content cs ≡ [] → cs ≡ []
nothing_distinct cs h =
    nothing_In cs λ c m. let (d, i, e) = distinct_by_content_represents c cs m in subst (In d) h i

candidate_refs_none : candidate_refs [] ≡ []
unfolding candidate_refs sort
candidate_refs_none = refl

-- When DENY_WINS gives an entry, it accounts for the denials, and all the sources that are not
-- denied have one content.
pub resolve_deny_wins_denials :
    (group : LogicalGroup) (program : PrecedenceProgram) (denied : List String) (e : EffectiveEntry)
    → resolve_deny_wins group program denied ≡ Outcome.entry e
    → AccountsForDenials denied group.candidates e.provenance
      × ((c d : Candidate)
          → In c group.candidates
          → In d group.candidates
          → is_denied denied c ≡ false
          → is_denied denied d ≡ false
          → c.content_digest ≡ d.content_digest)
unfolding resolve_deny_wins
resolve_deny_wins_denials group program denied e h =
    elim (single-cases (distinct_by_content (survivors denied group.candidates))) [
      | inl (w, q) ↦
          let (p, _) = entry_of_fields group _ _ _ _ e (rw (resolve_deny_wins, q) at h) in
          (
            accounts denied group.candidates e.provenance (ap (λ x. x.active_sources) p)
                (ap (λ x. x.ignored_sources) p),
            λ c d i j f g. same w q c i f ∙ sym (same w q d j g),
          )
      | inr (inl q) ↦
          let (p, _) = entry_of_fields group _ _ _ _ e (rw (resolve_deny_wins, q) at h) in
          let none_left = nothing_distinct _ q in
          (
            accounts denied group.candidates e.provenance
                (ap (λ x. x.active_sources) p
                  ∙ sym (ap candidate_refs none_left ∙ candidate_refs_none))
                (ap (λ x. x.ignored_sources) p),
            λ c d i j f g.
                absurd
                  (subst (In c) none_left ((survivors_iff denied group.candidates c).1 (i, f))),
          )
      | inr (inr (w, x, ws, q)) ↦
          conflict_not_entry group program _ _ e (rw (resolve_deny_wins, q) at h)
    ]
  where
    same :
        (w : Candidate)
        → distinct_by_content (survivors denied group.candidates) ≡ w ∷ []
        → (c : Candidate) → In c group.candidates
        → is_denied denied c ≡ false
        → c.content_digest ≡ w.content_digest
    same w q c i f =
        distinct_by_content_agree w c _ q ((survivors_iff denied group.candidates c).1 (i, f))

keep_all :
    (p : Candidate → Bool) (cs : List Candidate)
    → ((c : Candidate) → In c cs → p c ≡ true)
    → keep p cs ≡ cs
unfolding keep
keep_all p [] h = refl
keep_all p (c ∷ cs) h = rw (h c (inl refl)) (ap (λ xs. c ∷ xs) (keep_all p cs (λ d m. h d (inr m))))

nothing_removed :
    (denied : List String) (cs : List Candidate)
    → removed_refs denied cs ≡ []
    → survivors denied cs ≡ cs
unfolding survivors
nothing_removed denied cs h = keep_all _ cs λ c m. elim (Bool-cases (is_denied denied c)) [
  | inl t ↦ absurd (subst (In c.ref) h ((removed_iff denied cs c.ref).1 (c, m, t, refl)))
  | inr f ↦ rw f refl
]

agreed_group_is_entry :
    (group : LogicalGroup) (denied : List String) (w : Candidate)
    → is_entry (agreed_group group denied w) ≡ true
unfolding agreed_group entry_of
agreed_group_is_entry group denied w = ground arith

agreed_group_denials :
    (group : LogicalGroup) (denied : List String) (w : Candidate) (e : EffectiveEntry)
    → agreed_group group denied w ≡ Outcome.entry e
    → AccountsForDenials denied group.candidates e.provenance
unfolding agreed_group
agreed_group_denials group denied w e h =
    let cs = group.candidates in
    elim (List-cases (removed_refs denied cs)) [
      | inl q ↦
          let (p, _) = entry_of_fields group _ _ _ _ e (rw (agreed_group, q) at h) in
          accounts denied cs e.provenance
            (ap (λ x. x.active_sources) p ∙ sym (ap candidate_refs (nothing_removed denied cs q)))
            (ap (λ x. x.ignored_sources) p ∙ sym q)
      | inr (r, rs, q) ↦ elim (List-cases (survivors denied cs)) [
        | inl z ↦
            let (p, _) = entry_of_fields group _ _ _ _ e (rw (agreed_group, q, z) at h) in
            accounts denied cs e.provenance
              (ap (λ x. x.active_sources) p ∙ sym (ap candidate_refs z ∙ candidate_refs_none))
              (ap (λ x. x.ignored_sources) p ∙ sym q)
        | inr (s, ss, z) ↦
            let (p, _) = entry_of_fields group _ _ _ _ e (rw (agreed_group, q, z) at h) in
            accounts denied cs e.provenance
              (ap (λ x. x.active_sources) p ∙ sym (ap candidate_refs z))
              (ap (λ x. x.ignored_sources) p ∙ sym q)
      ]
    ]

pub resolve_group_single :
    (digest : Value → Option String) (group : LogicalGroup) (programs : List PrecedenceProgram)
    (resolve : CapabilityLevel) (opts : Options) (x w : Candidate) (xs : List Candidate)
    → group.candidates ≡ x ∷ xs
    → distinct_by_content group.candidates ≡ w ∷ []
    → resolve_group digest group programs resolve opts ≡ agreed_group group opts.denied_refs w
unfolding resolve_group
resolve_group_single digest group programs resolve opts x w xs q one = ground (arith, q, one)

-- `ResolveGroup` always gives an entry to a group whose sources agree on their content, whatever the
-- precedence programs, and the entry accounts for the denials.
pub resolve_group_agreed :
    (canonical_digest : Value → Option String) (group : LogicalGroup)
    (programs : List PrecedenceProgram) (resolve : CapabilityLevel) (opts : Options)
    (first : Candidate)
    → In first group.candidates
    → ((c d : Candidate)
        → In c group.candidates
        → In d group.candidates
        → c.content_digest ≡ d.content_digest)
    → (e : EffectiveEntry) × (resolve_group canonical_digest group programs resolve opts
        ≡ Outcome.entry e)
      × AccountsForDenials opts.denied_refs group.candidates e.provenance
unfolding resolve_group
resolve_group_agreed digest group programs resolve opts first i agree =
    elim (List-cases group.candidates) [
      | inl q ↦ absurd (subst (In first) q i)
      | inr (x, xs, q) ↦
          let one =
            subst (λ cs. distinct_by_content cs ≡ x ∷ []) (sym q)
              (distinct_by_content_single x xs (same x xs q)) in
          let (e, h) = is_entry_witness _ (agreed_group_is_entry group opts.denied_refs x) in
          (
            e,
            resolve_group_single digest group programs resolve opts x x xs q one ∙ h,
            agreed_group_denials group opts.denied_refs x e h,
          )
    ]
  where
    same :
        (x : Candidate) (xs : List Candidate)
        → group.candidates ≡ x ∷ xs
        → (c : Candidate) → In c xs
        → c.content_digest ≡ x.content_digest
    same x xs q c m = agree c x (subst (In c) (sym q) (inr m)) (subst (In x) (sym q) (inl refl))
