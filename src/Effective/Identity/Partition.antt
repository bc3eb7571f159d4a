-- ===== src/Effective/Identity/Partition.antt =====
-- What the groups of MatchIdentities of internal/effective/identity.go hold.
use oh_my_code_agent.Prelude.{
  List, [], ◌∷◌, map, ◌≡◌, ◌↔◌, refl, sym, ap, subst, ◌∙◌, In, In-map, map-In, keep-In, In-keep,
}
use oh_my_code_agent.Prelude.Keys.{distinct, IsNodup, distinct-IsNodup, In-distinct_iff, beq_refl}
use oh_my_code_agent.Prelude.Sort.{sort-IsNodup, In-sort_iff}
use oh_my_code_agent.Effective.Types.{Candidate, LogicalGroup}
use oh_my_code_agent.Effective.Identity.{
  IdentityKey, identity_key_eq, identity_key_beq, identity_key_of, identity_key_leb, ref_leb,
  candidates_of, group_of, identity_order, match_identities,
}

-- the key of a group
abbrev pub group_key : LogicalGroup → IdentityKey
group_key g = record { concept = g.concept; logical_id = g.logical_id }

candidates_of-key :
    (cs : List Candidate) (k : IdentityKey) (c : Candidate)
    → In c (group_of cs k).candidates
    → In c cs × (identity_key_of c ≡ k)
unfolding group_of candidates_of
candidates_of-key cs k c m =
    let (l, t) =
      In-keep (λ x. identity_key_beq (identity_key_of x) k) c cs ((In-sort_iff ref_leb c _).0 m) in
    (l, (identity_key_eq.beq_iff (identity_key_of c) k).0 t)

key-candidates_of :
    (cs : List Candidate) (c : Candidate)
    → In c cs
    → In c (group_of cs (identity_key_of c)).candidates
unfolding group_of candidates_of
key-candidates_of cs c m = (In-sort_iff ref_leb c _).1 (
    keep-In (λ x. identity_key_beq (identity_key_of x) (identity_key_of c)) c cs m
      (beq_refl (identity_key_of c)))

In-identity_order :
    (cs : List Candidate) (k : IdentityKey)
    → In k (identity_order cs) ↔ In k (map identity_key_of cs)
unfolding identity_order
In-identity_order cs k = (
  λ m. (In-distinct_iff k (map identity_key_of cs)).0 ((In-sort_iff identity_key_leb k _).0 m),
  λ m. (In-sort_iff identity_key_leb k _).1 ((In-distinct_iff k (map identity_key_of cs)).1 m),
)

map-group_key :
    (cs : List Candidate) (ks : List IdentityKey) → map group_key (map (group_of cs) ks) ≡ ks
unfolding group_of
map-group_key cs [] = refl
map-group_key cs (k ∷ ks) = ap (λ l. k ∷ l) (map-group_key cs ks)

In-match_identities :
    (cs : List Candidate) (g : LogicalGroup)
    → In g (match_identities cs)
    → (k : IdentityKey) × In k (map identity_key_of cs) × (g ≡ group_of cs k)
unfolding match_identities
In-match_identities cs g m =
    let (k, l, e) = map-In (group_of cs) g (identity_order cs) m in
    (k, (In-identity_order cs k).0 l, e)

In-match_identities-key :
    (cs : List Candidate) (c : Candidate)
    → In c cs
    → In (group_of cs (identity_key_of c)) (match_identities cs)
unfolding match_identities
In-match_identities-key cs c m =
    In-map (group_of cs) (identity_key_of c) (identity_order cs)
      ((In-identity_order cs (identity_key_of c)).1 (In-map identity_key_of c cs m))

match_identities-IsNodup : (cs : List Candidate) → IsNodup (map group_key (match_identities cs))
unfolding match_identities identity_order
match_identities-IsNodup cs = subst IsNodup (sym (map-group_key cs (identity_order cs))) (
    sort-IsNodup identity_key_leb (distinct (map identity_key_of cs))
      (distinct-IsNodup (map identity_key_of cs)))

group_of-group_key : (cs : List Candidate) (k : IdentityKey) → group_key (group_of cs k) ≡ k
unfolding group_of
group_of-group_key cs k = refl

-- The groups have distinct keys; each candidate is in the group of its key; and a group is not empty and
-- holds only candidates with its key.
pub match_identities-partition :
    (cs : List Candidate)
    → IsNodup (map group_key (match_identities cs))
      × ((c : Candidate)
          → In c cs
          → (g : LogicalGroup) × In g (match_identities cs)
            × (group_key g ≡ identity_key_of c)
            × In c g.candidates)
      × ((g : LogicalGroup)
          → In g (match_identities cs)
          → ((c : Candidate) × In c g.candidates)
            × ((c : Candidate) → In c g.candidates → In c cs × (identity_key_of c ≡ group_key g)))
match_identities-partition cs = (
  match_identities-IsNodup cs,
  λ c m. (
    group_of cs (identity_key_of c),
    In-match_identities-key cs c m,
    group_of-group_key cs (identity_key_of c),
    key-candidates_of cs c m,
  ),
  λ g m.
      let (k, l, e) = In-match_identities cs g m in
      let (c, n, f) = map-In identity_key_of k cs l in
      subst
        (λ h.
          ((c : Candidate) × In c h.candidates)
          × ((c : Candidate) → In c h.candidates → In c cs × (identity_key_of c ≡ group_key h)))
        (sym e)
        (
          (c, subst (λ x. In c (group_of cs x).candidates) (sym f) (key-candidates_of cs c n)),
          λ d o. let (n, q) = candidates_of-key cs k d o in (n, q ∙ sym (group_of-group_key cs k)),
        ),
)
