-- ===== src/Effective/DeepMerge/Sources.antt =====
-- The leaves of the sources of a DEEP_MERGE without a conflict.
use oh_my_code_agent.Prelude.{
  String, Bool, true, false, Option, some, List, [], ◌∷◌, ◌≡◌, ◌⊎◌, inl, inr, refl, sym, ap, subst,
  arith, if◌then◌else◌, str_eq, str_eq_iff, Bool-cases, Option-cases,
}
use mathlib.Core.Option.{some-injective}
use oh_my_code_agent.Effective.Types.{Value, leaf, object, Fields, no_fields, field}
use oh_my_code_agent.Effective.DeepMerge.{
  get, put, under, values_equal, deep_merge_loop, deep_merge_into, Merged,
}
use oh_my_code_agent.Effective.DeepMerge.Leaves.{leaf_in, KeepsLeaves, loop_keeps, get-put_same}

module _ (canonical_digest : Value → Option String)
    (apart : (l : String) (fs : Fields)
      → (values_equal canonical_digest (leaf l) (object fs) ≡ false)
        × (values_equal canonical_digest (object fs) (leaf l) ≡ false)) where
  abbrev loop : Fields → String → Bool → Fields → Merged
  loop = deep_merge_loop canonical_digest

  -- The texts of two leaves that the code takes for equal values.
  abbrev pub SameLeaf : String → String → Type 0
  SameLeaf t s = (t ≡ s) ⊎ (values_equal canonical_digest (leaf t) (leaf s) ≡ true)

  abbrev pub HasLeaf : Fields → List String → String → Type 0
  HasLeaf fs ks s = (t : String) × (leaf_in (some (object fs)) ks ≡ some t) × SameLeaf t s

  abbrev pub TakesLeaves : Fields → Fields → Type 0
  TakesLeaves src fs =
      (ks : List String) (s : String) → leaf_in (some (object src)) ks ≡ some s → HasLeaf fs ks s

  keeps_taken :
      (a b : Fields) (ks : List String) (s : String)
      → KeepsLeaves a b
      → HasLeaf a ks s
      → HasLeaf b ks s
  keeps_taken a b ks s keeps (t, e, p) = (t, keeps ks t e, p)

  nothing : (ks : List String) (s : String) → ¬ (leaf_in (some (object no_fields)) ks ≡ some s)
  unfolding leaf_in get
  nothing [] s e = ground (arith, e)
  nothing (k ∷ ks) s e = ground (arith, e)

  -- the head field of the source is in the object, and the others are taken
  field_takes :
      (k : String) (v : Value) (rest fs : Fields)
      → ((ks : List String) (s : String) → leaf_in (some v) ks ≡ some s → HasLeaf fs (k ∷ ks) s)
      → TakesLeaves rest fs
      → TakesLeaves (field k v rest) fs
  unfolding leaf_in get
  field_takes k v rest fs here later [] s e = absurd (ground (arith, e))
  field_takes k v rest fs here later (j ∷ ks) s e = elim (Bool-cases (str_eq k j)) [
    | inl t ↦
        subst (λ x. HasLeaf fs (x ∷ ks) s) ((str_eq_iff k j).0 t)
          (here ks s (subst (λ b. leaf_in (if b then some v else get rest j) ks ≡ some s) t e))
    | inr f ↦
        later (j ∷ ks) s (subst (λ b. leaf_in (if b then some v else get rest j) ks ≡ some s) f e)
  ]

  put_takes :
      (dst : Fields) (k : String) (v : Value) (ks : List String) (s : String)
      → leaf_in (some v) ks ≡ some s
      → HasLeaf (put dst k v) (k ∷ ks) s
  unfolding leaf_in
  put_takes dst k v ks s e = (
    s,
    subst (λ x. leaf_in x ks ≡ some s) (sym (get-put_same dst k k v ((str_eq_iff k k).1 refl))) e,
    inl refl,
  )

  present_takes :
      (dst : Fields) (k l v : String) (ks : List String) (s : String)
      → get dst k ≡ some (leaf l)
      → values_equal canonical_digest (leaf l) (leaf v) ≡ true
      → leaf_in (some (leaf v)) ks ≡ some s
      → HasLeaf dst (k ∷ ks) s
  unfolding leaf_in
  present_takes dst k l v [] s q y e = (
    l,
    subst (λ x. leaf_in x [] ≡ some l) (sym q) refl,
    inr (
        subst (λ x. values_equal canonical_digest (leaf l) (leaf x) ≡ true) (some-injective v s e)
          y),
  )
  present_takes dst k l v (j ∷ ks) s q y e = absurd (ground (arith, e))

  object_takes :
      (dst vs gs : Fields) (k : String)
      → TakesLeaves vs gs
      → (ks : List String) (s : String) → leaf_in (some (object vs)) ks ≡ some s
      → HasLeaf (put dst k (object gs)) (k ∷ ks) s
  unfolding leaf_in
  object_takes dst vs gs k takes ks s e =
      let (t, i, p) = takes ks s e in
      (
        t,
        subst (λ x. leaf_in x ks ≡ some t)
            (sym (get-put_same dst k k (object gs) ((str_eq_iff k k).1 refl))) i,
        p,
      )

  -- What a step has put in place stays to the end.
  then_keeps :
      (dst : Fields) (path : String) (ok : Bool) (rest : Fields) (m : Merged) (k : String)
      (v : Value)
      → loop dst path ok rest ≡ m
      → m.ok ≡ true
      → ((ks : List String) (s : String) → leaf_in (some v) ks ≡ some s → HasLeaf dst (k ∷ ks) s)
      → TakesLeaves rest m.fields
      → TakesLeaves (field k v rest) m.fields
  then_keeps dst path ok rest m k v h t here later =
      field_takes k v rest m.fields
        (λ ks s e.
          keeps_taken dst m.fields (k ∷ ks) s (loop_keeps canonical_digest dst path ok rest m h t).1
            (here ks s e))
        later

  loop_takes :
      (dst : Fields) (path : String) (ok : Bool) (src : Fields) (m : Merged)
      → loop dst path ok src ≡ m
      → m.ok ≡ true
      → TakesLeaves src m.fields
  unfolding deep_merge_loop
  loop_takes dst path ok no_fields m h t = λ ks s e. absurd (nothing ks s e)
  loop_takes dst path ok (field k (leaf v) rest) m h t = elim (Option-cases (get dst k)) [
    | inl q ↦
        let g = rw (deep_merge_loop, q) at h in
        then_keeps (put dst k (leaf v)) path ok rest m k (leaf v) g t (put_takes dst k (leaf v))
          (loop_takes _ path ok rest m g t)
    | inr (object es, q) ↦ absurd (
        ground (
          arith,
          (loop_keeps canonical_digest (put dst k (leaf v)) (under path k) false rest m
              (rw (deep_merge_loop, q, (apart v es).1) at h) t).0,
        ))
    | inr (leaf l, q) ↦ elim (Bool-cases (values_equal canonical_digest (leaf l) (leaf v))) [
      | inr n ↦ absurd (
          ground (
            arith,
            (loop_keeps canonical_digest (put dst k (leaf v)) (under path k) false rest m
                (rw (deep_merge_loop, q, n) at h) t).0,
          ))
      | inl y ↦
          let g = rw (deep_merge_loop, q, y) at h in
          then_keeps dst path ok rest m k (leaf v) g t
            (λ ks s e. present_takes dst k l v ks s q y e) (loop_takes dst path ok rest m g t)
    ]
  ]
  loop_takes dst path ok (field k (object vs) rest) m h t = elim (Option-cases (get dst k)) [
    | inl q ↦
        let g = rw (deep_merge_loop, q) at h in
        then_keeps (put dst k (object vs)) path ok rest m k (object vs) g t
          (put_takes dst k (object vs)) (loop_takes _ path ok rest m g t)
    | inr (leaf l, q) ↦ absurd (
        ground (
          arith,
          (loop_keeps canonical_digest (put dst k (object vs)) (under path k) false rest m
              (rw (deep_merge_loop, q, (apart l vs).0) at h) t).0,
        ))
    | inr (object es, q) ↦
        let child = loop es (under path k) true vs in
        elim (Bool-cases child.ok) [
          | inl y ↦
              let inner = loop_takes es (under path k) true vs child refl y in
              let g = rw (deep_merge_loop, q, y) at h in
              then_keeps (put dst k (object child.fields)) path ok rest m k (object vs) g t
                (object_takes dst vs child.fields k inner) (loop_takes _ path ok rest m g t)
          | inr n ↦ absurd (ground (arith, n, t, ap (λ x. x.ok) (rw (deep_merge_loop, q, n) at h)))
        ]
  ]

  -- A merge without a conflict takes every leaf of the source, at any depth, over to the object, where
  -- a leaf stands that is the same or that `valuesEqual` takes for the same.
  pub deep_merge_into_takes :
      (dst src : Fields) (path : String)
      → (deep_merge_into canonical_digest dst src path).ok ≡ true
      → TakesLeaves src (deep_merge_into canonical_digest dst src path).fields
  unfolding deep_merge_into
  deep_merge_into_takes dst src path t =
      loop_takes dst path true src (loop dst path true src) refl t
