-- ===== src/Effective/DeepMerge/Leaves.antt =====
-- The leaves of an object that DEEP_MERGE has made without a conflict.
use oh_my_code_agent.Prelude.{
  String, Bool, true, false, Option, none, some, List, [], ◌∷◌, ◌≡◌, inl, inr, refl, sym, ap, subst,
  ◌∙◌, arith, if◌then◌else◌, str_eq, str_eq_iff, Bool-cases, Option-cases,
}
use oh_my_code_agent.Effective.Types.{Value, leaf, object, Fields, no_fields, field}
use oh_my_code_agent.Effective.DeepMerge.{
  get, put, under, values_equal, deep_merge_loop, deep_merge_into, Merged,
}

-- the text of the leaf that the keys lead to
unfoldable pub leaf_in : Option Value → List String → Option String
unfolding get
leaf_in none ks = none
leaf_in (some (leaf s)) [] = some s
leaf_in (some (leaf s)) (k ∷ ks) = none
leaf_in (some (object fs)) [] = none
leaf_in (some (object fs)) (k ∷ ks) = leaf_in (get fs k) ks

-- Every leaf of `a` is in `b`.
abbrev pub KeepsLeaves : Fields → Fields → Type 0
KeepsLeaves a b =
    (ks : List String) (s : String)
    → leaf_in (some (object a)) ks ≡ some s
    → leaf_in (some (object b)) ks ≡ some s

get-put :
    (fs : Fields) (k j : String) (v : Value)
    → get (put fs k v) j ≡ (if str_eq k j then some v else get fs j)
unfolding get put
get-put no_fields k j v = refl
get-put (field i w fs) k j v = elim (Bool-cases (str_eq i k)) [
  | inl t ↦ rw (t, (str_eq_iff i k).0 t) (ground arith)
  | inr f ↦ rw f (ground (arith, get-put fs k j v, str_eq_iff i j, str_eq_iff k j, str_eq_iff i k))
]

pub get-put_same :
    (fs : Fields) (k j : String) (v : Value) → str_eq k j ≡ true → get (put fs k v) j ≡ some v
get-put_same fs k j v t = get-put fs k j v ∙ ap (λ b. if b then some v else get fs j) t

get-put_other :
    (fs : Fields) (k j : String) (v : Value) → str_eq k j ≡ false → get (put fs k v) j ≡ get fs j
get-put_other fs k j v f = get-put fs k j v ∙ ap (λ b. if b then some v else get fs j) f

no_leaf_in_none : {P : Type 0} (ks : List String) (s : String) → leaf_in none ks ≡ some s → P
unfolding leaf_in
no_leaf_in_none ks s h = absurd (ground (arith, h))

absent_keeps :
    (fs : Fields) (k : String) (v : Value) → get fs k ≡ none → KeepsLeaves fs (put fs k v)
unfolding leaf_in
absent_keeps fs k v h [] s e = e
absent_keeps fs k v h (j ∷ ks) s e = elim (Bool-cases (str_eq k j)) [
  | inl t ↦
      no_leaf_in_none ks s
        (subst (λ x. leaf_in x ks ≡ some s) (ap (get fs) (sym ((str_eq_iff k j).0 t)) ∙ h) e)
  | inr f ↦ subst (λ x. leaf_in x ks ≡ some s) (sym (get-put_other fs k j v f)) e
]

object_keeps :
    (fs es gs : Fields) (k : String)
    → get fs k ≡ some (object es)
    → KeepsLeaves es gs
    → KeepsLeaves fs (put fs k (object gs))
unfolding leaf_in
object_keeps fs es gs k h c [] s e = e
object_keeps fs es gs k h c (j ∷ ks) s e = elim (Bool-cases (str_eq k j)) [
  | inl t ↦
      let old =
        subst (λ x. leaf_in x ks ≡ some s) (ap (get fs) (sym ((str_eq_iff k j).0 t)) ∙ h) e in
      subst (λ x. leaf_in x ks ≡ some s) (sym (get-put_same fs k j (object gs) t)) (c ks s old)
  | inr f ↦ subst (λ x. leaf_in x ks ≡ some s) (sym (get-put_other fs k j (object gs) f)) e
]

module _ (canonical_digest : Value → Option String) where
  abbrev loop : Fields → String → Bool → Fields → Merged
  loop = deep_merge_loop canonical_digest

  pub loop_keeps :
      (dst : Fields) (path : String) (ok : Bool) (src : Fields) (m : Merged)
      → loop dst path ok src ≡ m
      → m.ok ≡ true
      → (ok ≡ true) × KeepsLeaves dst m.fields
  unfolding deep_merge_loop
  loop_keeps dst path ok no_fields m h t = (
    ap (λ x. x.ok) h ∙ t,
    λ ks s e. subst (λ x. leaf_in (some (object x)) ks ≡ some s) (ap (λ x. x.fields) h) e,
  )
  loop_keeps dst path ok (field k (leaf v) rest) m h t = elim (Option-cases (get dst k)) [
    | inl q ↦
        let (o, keeps) =
          loop_keeps (put dst k (leaf v)) path ok rest m (rw (deep_merge_loop, q) at h) t in
        (o, λ ks s e. keeps ks s (absent_keeps dst k (leaf v) q ks s e))
    | inr (old, q) ↦ elim (Bool-cases (values_equal canonical_digest old (leaf v))) [
      | inl y ↦ loop_keeps dst path ok rest m (rw (deep_merge_loop, q, y) at h) t
      | inr n ↦ absurd (
          ground (
            arith,
            (loop_keeps (put dst k (leaf v)) (under path k) false rest m
                (rw (deep_merge_loop, q, n) at h) t).0,
          ))
    ]
  ]
  loop_keeps dst path ok (field k (object vs) rest) m h t = elim (Option-cases (get dst k)) [
    | inl q ↦
        let (o, keeps) =
          loop_keeps (put dst k (object vs)) path ok rest m (rw (deep_merge_loop, q) at h) t in
        (o, λ ks s e. keeps ks s (absent_keeps dst k (object vs) q ks s e))
    | inr (leaf l, q) ↦ elim (Bool-cases (values_equal canonical_digest (leaf l) (object vs))) [
      | inl y ↦ loop_keeps dst path ok rest m (rw (deep_merge_loop, q, y) at h) t
      | inr n ↦ absurd (
          ground (
            arith,
            (loop_keeps (put dst k (object vs)) (under path k) false rest m
                (rw (deep_merge_loop, q, n) at h) t).0,
          ))
    ]
    | inr (object es, q) ↦
        let child = loop es (under path k) true vs in
        elim (Bool-cases child.ok) [
          | inl y ↦
              let (_, inner) = loop_keeps es (under path k) true vs child refl y in
              let (o, keeps) =
                loop_keeps (put dst k (object child.fields)) path ok rest m
                  (rw (deep_merge_loop, q, y) at h) t in
              (o, λ ks s e. keeps ks s (object_keeps dst es child.fields k q inner ks s e))
          | inr n ↦ absurd (ground (arith, n, t, ap (λ x. x.ok) (rw (deep_merge_loop, q, n) at h)))
        ]
  ]

  -- A merge without a conflict changes no leaf: those that the object had, at any depth, it has still.
  pub deep_merge_into_keeps :
      (dst src : Fields) (path : String)
      → (deep_merge_into canonical_digest dst src path).ok ≡ true
      → KeepsLeaves dst (deep_merge_into canonical_digest dst src path).fields
  unfolding deep_merge_into
  deep_merge_into_keeps dst src path t =
      (loop_keeps dst path true src (loop dst path true src) refl t).1
