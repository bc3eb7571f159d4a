-- ===== src/Drift/Group/Cards.antt =====
-- The cards of `GroupWithSampleLimit` partition the assertions.
use oh_my_code_agent.Prelude.{
  ℕ, String, Option, List, [], ◌∷◌, map, ◌≡◌, ◌↔◌, refl, sym, ap, subst, keep, In, In-map, map-In,
  In-keep, keep-In,
}
use oh_my_code_agent.Prelude.Keys.{distinct, In-distinct_iff, distinct-IsNodup, IsNodup}
use oh_my_code_agent.Prelude.Sort.{In-sort_iff, sort-IsNodup}
use oh_my_code_agent.Drift.Types.{Assertion}
use oh_my_code_agent.Drift.Group.{
  GroupKey, group_key_beq, group_key_beq_iff, group_key_eq, group_key_leb, key_of, matrix_leb,
  bucket, card_of, group_keys, group_with_sample_limit, ActionCard,
}

module _ {A : Type 0} (canonical_digest : A → Option String) (type_name : A → String)
    (assertions : List (Assertion A)) (sample_limit : ℕ) where
  matrix_iff :
      (k : GroupKey) (a : Assertion A)
      → In a (card_of canonical_digest type_name sample_limit assertions k).matrix
        ↔ In a assertions × (key_of a ≡ k)
  unfolding card_of bucket
  matrix_iff k a = (
    λ m.
        let (i, t) =
          In-keep (λ a. group_key_beq (key_of a) k) a assertions
            ((In-sort_iff (matrix_leb canonical_digest type_name) a
                (keep (λ a. group_key_beq (key_of a) k) assertions)).0
              m) in
        (i, (group_key_beq_iff (key_of a) k).0 t),
    λ (i, e).
        (In-sort_iff (matrix_leb canonical_digest type_name) a
            (keep (λ a. group_key_beq (key_of a) k) assertions)).1
          (keep-In (λ a. group_key_beq (key_of a) k) a assertions i
            ((group_key_beq_iff (key_of a) k).1 e)),
  )

  group_keys_iff :
      (k : GroupKey)
      → In k (group_keys canonical_digest type_name assertions)
        ↔ (a : Assertion A) × In a assertions × (k ≡ key_of a)
  unfolding group_keys
  group_keys_iff k = (
    λ m. map-In key_of k assertions (
        (In-distinct_iff k (map key_of assertions)).0 (
          (In-sort_iff (group_key_leb canonical_digest type_name) k
              (distinct (map key_of assertions))).0
            m)),
    λ (a, i, e).
        (In-sort_iff (group_key_leb canonical_digest type_name) k
            (distinct (map key_of assertions))).1
          ((In-distinct_iff k (map key_of assertions)).1
            (subst (λ x. In x (map key_of assertions)) (sym e) (In-map key_of a assertions i))),
  )

  -- No two cards have the same key; every assertion is in the matrix of the card with its key, and a
  -- card's matrix holds nothing else.
  pub group_partition :
      IsNodup (
        map
          (λ (c : ActionCard A). c.key)
          (group_with_sample_limit canonical_digest type_name assertions sample_limit))
      × ((a : Assertion A)
          → In a assertions
          → (c : ActionCard A) × In c
              (group_with_sample_limit canonical_digest type_name assertions sample_limit)
            × In a c.matrix)
      × ((c : ActionCard A) (a : Assertion A)
          → In c (group_with_sample_limit canonical_digest type_name assertions sample_limit)
          → In a c.matrix
          → In a assertions × (key_of a ≡ c.key))
  unfolding group_with_sample_limit
  group_partition = (
    subst IsNodup (sym (keys_of (group_keys canonical_digest type_name assertions))) (
        unfold group_keys in
        sort-IsNodup (group_key_leb canonical_digest type_name) (distinct (map key_of assertions))
          (distinct-IsNodup _)),
    λ a m.
        let k = (group_keys_iff (key_of a)).1 (a, m, refl) in
        (
          card_of canonical_digest type_name sample_limit assertions (key_of a),
          In-map (card_of canonical_digest type_name sample_limit assertions) (key_of a) _ k,
          (matrix_iff (key_of a) a).1 (m, refl),
        ),
    λ c a i m.
        let (k, j, e) =
          map-In (card_of canonical_digest type_name sample_limit assertions) c
            (group_keys canonical_digest type_name assertions) i in
        let (n, q) = (matrix_iff k a).0 (subst (λ x. In a x.matrix) e m) in
        (n, subst (λ x. key_of a ≡ x.key) (sym e) (unfold card_of in q)),
  )
    where
      keys_of :
          (ks : List GroupKey)
          → map
              (λ (c : ActionCard A). c.key)
              (map (card_of canonical_digest type_name sample_limit assertions) ks)
            ≡ ks
      keys_of [] = refl
      keys_of (k ∷ ks) = unfold card_of in ap (λ xs. k ∷ xs) (keys_of ks)
