-- ===== src/Drift/Samples/Covers.antt =====
-- What a card's samples are.
use oh_my_code_agent.Prelude.{
  ℕ, String, Bool, false, not, keep, keep-In, ◌<◌, List, [], ◌∷◌, ◌++◌, ◌-◌, ◌≡◌, ◌≤◌, ◌+◌, ◌⊎◌,
  inl, inr, refl, sym, ap, subst, arith, length, suc, zero, leb, In, In-append, In-append_left,
  Bool-cases, str_eq, str_eq_iff, str_eq_refl,
}
use oh_my_code_agent.Prelude.Keys.{contains, string_eq}
use oh_my_code_agent.Drift.Samples.{
  take, fill, representatives, unused, effective_limit, select_samples,
}

length-append : {A : Type 0} (xs ys : List A) → length (xs ++ ys) ≡ length xs + length ys
length-append [] ys = ground arith
length-append (x ∷ xs) ys = ground (arith, length-append xs ys)

length-take : {A : Type 0} (n : ℕ) (xs : List A) → n ≤ length xs → length (take n xs) ≡ n
unfolding take
length-take zero xs h = refl
length-take (suc n) [] h = absurd (ground arith)
length-take (suc n) (x ∷ xs) h = ground (arith, length-take n xs (ground arith))

take-all : {A : Type 0} (xs : List A) → take (length xs) xs ≡ xs
unfolding take
take-all [] = refl
take-all (x ∷ xs) = ap (λ ys. x ∷ ys) (take-all xs)

In-take : {A : Type 0} (a : A) (n : ℕ) (xs : List A) → In a (take n xs) → In a xs
unfolding take
In-take a zero xs m = absurd m
In-take a (suc n) [] m = absurd m
In-take a (suc n) (x ∷ xs) (inl e) = inl e
In-take a (suc n) (x ∷ xs) (inr m) = inr (In-take a n xs m)

keep-length : {A : Type 0} (f : A → Bool) (xs : List A) → length (keep f xs) ≤ length xs
unfolding keep
keep-length f [] = omega arith
keep-length f (x ∷ xs) = ground (arith, keep-length f xs)

module _ {A : Type 0} (most : ℕ) (reps rest : List A) where
  length-fill : most ≤ length reps + length rest → length (fill most reps rest) ≡ most
  unfolding fill
  length-fill h = elim (Bool-cases (leb most (length reps))) [
    | inl t ↦ rw t (length-take most reps (ground arith))
    | inr f ↦ rw f (
        ground (
          arith,
          length-append reps (take (most - length reps) rest),
          length-take (most - length reps) rest (ground arith),
        ))
  ]

  fill-In : (a : A) → In a (fill most reps rest) → In a reps ⊎ In a rest
  unfolding fill
  fill-In a m = elim (Bool-cases (leb most (length reps))) [
    | inl t ↦ inl (In-take a most reps (rw (fill, t) at m))
    | inr f ↦ elim (In-append a reps (take (most - length reps) rest) (rw (fill, f) at m)) [
      | inl i ↦ inl i
      | inr i ↦ inr (In-take a (most - length reps) rest i)
    ]
  ]

  In-fill : (a : A) → length reps ≤ most → In a reps → In a (fill most reps rest)
  unfolding fill
  In-fill a h m = elim (Bool-cases (leb most (length reps))) [
    | inl t ↦
        let same : most ≡ length reps = ground arith in
        rw t (subst (λ n. In a (take n reps)) (sym same) (subst (In a) (sym (take-all reps)) m))
    | inr f ↦ rw f (In-append_left a reps (take (most - length reps) rest) m)
  ]

module _ {A : Type 0} (bucket_key : A → String) where
  count_rows :
      (seen : List String) (rows : List A)
      → length (representatives bucket_key seen rows) + length (unused bucket_key seen rows)
        ≡ length rows
  unfolding representatives unused
  count_rows seen [] = refl
  count_rows seen (a ∷ rows) =
      ground (arith, count_rows seen rows, count_rows (bucket_key a ∷ seen) rows)

  representatives-In :
      (seen : List String) (a : A) (rows : List A)
      → In a (representatives bucket_key seen rows)
      → In a rows
  unfolding representatives
  representatives-In seen a [] m = absurd m
  representatives-In seen a (x ∷ rows) m =
      ground
        (arith, representatives-In seen a rows, representatives-In (bucket_key x ∷ seen) a rows)

  unused-In :
      (seen : List String) (a : A) (rows : List A) → In a (unused bucket_key seen rows) → In a rows
  unfolding unused
  unused-In seen a [] m = absurd m
  unused-In seen a (x ∷ rows) m =
      ground (arith, unused-In seen a rows, unused-In (bucket_key x ∷ seen) a rows)

  represented :
      (seen : List String) (a : A) (rows : List A)
      → In a rows
      → contains seen (bucket_key a) ≡ false
      → (s : A) × In s (representatives bucket_key seen rows) × (bucket_key s ≡ bucket_key a)
  unfolding representatives contains
  represented seen a [] m f = absurd m
  represented seen a (x ∷ rows) m f = elim (Bool-cases (contains seen (bucket_key x))) [
    | inl t ↦ rw t (represented seen a rows (later (λ q. ground (arith, ap bucket_key q))) f)
    | inr g ↦ rw g (elim (Bool-cases (str_eq (bucket_key x) (bucket_key a))) [
      | inl s ↦ (x, inl refl, (str_eq_iff (bucket_key x) (bucket_key a)).0 s)
      | inr n ↦
          let (s, i, e) =
            represented (bucket_key x ∷ seen) a rows
              (later (λ q. ground (arith, ap bucket_key q, str_eq_refl (bucket_key x))))
              (ground (arith, n)) in
          (s, inr i, e)
    ])
  ]
    where
      later : ¬ (a ≡ x) → In a rows
      later other = elim m [ inl q ↦ absurd (other q) | inr i ↦ i ]

  -- the keys of a list other than one of them
  abbrev without : String → List String → List String
  without k ks = keep (λ j. not (str_eq k j)) ks

  without-length :
      (k : String) (ks : List String) → In k ks → suc (length (without k ks)) ≤ length ks
  unfolding keep
  without-length k [] m = absurd m
  without-length k (j ∷ ks) m = elim (Bool-cases (str_eq k j)) [
    | inl t ↦ rw t (ground (arith, keep-length (λ j. not (str_eq k j)) ks))
    | inr f ↦ elim m [
      | inl e ↦ absurd (ground (arith, f, (str_eq_iff k j).1 e))
      | inr i ↦ rw f (ground (arith, without-length k ks i))
    ]
  ]

  -- There are no more representatives than keys that the rows have, less those seen.
  representatives-length :
      (seen : List String) (rows : List A) (ks : List String)
      → ((a : A) → In a rows → contains seen (bucket_key a) ≡ false → In (bucket_key a) ks)
      → length (representatives bucket_key seen rows) ≤ length ks
  unfolding representatives contains
  representatives-length seen [] ks h = omega arith
  representatives-length seen (x ∷ rows) ks h = elim (Bool-cases (contains seen (bucket_key x))) [
    | inl t ↦ rw t (representatives-length seen rows ks (λ a i. h a (inr i)))
    | inr f ↦ rw f (
        ground (
          arith,
          without-length (bucket_key x) ks (h x (inl refl) f),
          representatives-length (bucket_key x ∷ seen) rows (without (bucket_key x) ks) (λ a i n.
              keep-In (λ j. not (str_eq (bucket_key x) j)) (bucket_key a) ks
                (h a (inr i) (ground (arith, n))) (ground (arith, n))),
        ))
  ]

  limit_bound :
      (matrix : List A) (limit : ℕ) → effective_limit bucket_key matrix limit ≤ length matrix
  unfolding effective_limit
  limit_bound matrix limit = ground arith

  -- `most` is the limit, or the number of rows where the limit is 0 or above it.
  abbrev pub IsLimit : List A → ℕ → ℕ → Type 0
  IsLimit matrix limit most =
      ((1 ≤ limit) × (limit ≤ length matrix) × (most ≡ limit))
      ⊎ (((limit ≡ 0) ⊎ (length matrix < limit)) × (most ≡ length matrix))

  effective_limit-IsLimit :
      (matrix : List A) (limit : ℕ) → IsLimit matrix limit (effective_limit bucket_key matrix limit)
  unfolding effective_limit
  effective_limit-IsLimit matrix limit = ground arith

  -- The samples are rows of the matrix, as many as the limit, or all rows where it is 0 or above their number.
  -- When some list of keys that is no longer than that has the keys of all rows, each row's bucket has a
  -- sample.
  pub select_samples_covers :
      (matrix : List A) (limit : ℕ)
      → IsLimit matrix limit (length (select_samples bucket_key matrix limit))
        × ((s : A) → In s (select_samples bucket_key matrix limit) → In s matrix)
        × ((keys : List String)
            → length keys ≤ length (select_samples bucket_key matrix limit)
            → ((a : A) → In a matrix → In (bucket_key a) keys)
            → (a : A) → In a matrix
            → (s : A) × In s (select_samples bucket_key matrix limit)
              × (bucket_key s ≡ bucket_key a))
  unfolding select_samples
  select_samples_covers matrix limit =
      let most = effective_limit bucket_key matrix limit in
      let reps = representatives bucket_key [] matrix in
      let rest = unused bucket_key [] matrix in
      let filled : length (fill most reps rest) ≡ most =
        length-fill most reps rest
          (ground (arith, count_rows [] matrix, limit_bound matrix limit)) in
      (
        subst (IsLimit matrix limit) (sym filled) (effective_limit-IsLimit matrix limit),
        λ s m. elim (fill-In most reps rest s m) [
          | inl i ↦ representatives-In [] s matrix i
          | inr i ↦ unused-In [] s matrix i
        ],
        λ keys few all a m.
            let (s, i, e) = represented [] a matrix m (nothing_seen (bucket_key a)) in
            let small = representatives-length [] matrix keys (λ b j n. all b j) in
            (s, In-fill most reps rest s (omega (arith, small, few, filled)) i, e),
      )
    where
      nothing_seen : (k : String) → contains [] k ≡ false
      nothing_seen k = unfold contains in refl
