-- ===== src/Profiles/Identity/Final.antt =====
-- What `FinalProfileIDs` returns on the identities of the matched profiles.
use mathlib.Core.List.{Perm, perm_middle}
use mathlib.Core.List.Perm
use oh_my_code_agent.Prelude.{
  String, true, false, Option, none, some, List, [], ◌∷◌, map, ◌≡◌, ◌≢◌, refl, sym, ap₂, subst, inl,
  inr, ◌⊎◌, arith, str_eq, str_eq_iff, Bool-cases, Option-cases, In, In-keep, In-append,
  not-true→false,
}
use oh_my_code_agent.Prelude.Keys.{
  contains, contains→In, In→contains, distinct, In-distinct_iff, lookup, lookup-none_iff, string_eq,
}
use oh_my_code_agent.Prelude.Sort.{sort-perm, In-sort_iff, IsSorted, sort-IsSorted}
use oh_my_code_agent.Prelude.TextOrder.{str_leb, str_ltb-leb, str_leb_total, str_leb_trans}
use oh_my_code_agent.Profiles.Identity.{
  profile_category, AmbiguousCategory, IdentityResolution, by_category, dedupe_sorted, Choice,
  single, several, choose, choice_of, add_choice, resolve_order, category_list, resolve_identities,
  category_less, category_leb, ordered_categories, candidates_of, Chosen, ids, fault, cons_id,
  take_selected, take_category, final_from, resolution_categories, final_profile_ids,
}

category_leb_total : (a b : String) → category_leb a b ≡ false → category_leb b a ≡ true
unfolding category_leb category_less
category_leb_total a b h =
    ground (arith, str_ltb-leb a b, str_ltb-leb b a, str_leb_total a b, str_leb_total b a)

category_leb_trans :
    (a b c : String) → category_leb a b ≡ true → category_leb b c ≡ true → category_leb a c ≡ true
unfolding category_leb category_less
category_leb_trans a b c h k =
    ground (arith, str_ltb-leb b a, str_ltb-leb c b, str_ltb-leb c a, str_leb_trans a b c)

-- The ids that a choice leaves.
abbrev Offers : List String → Choice → Type 0
Offers xs (single id) = In id xs
Offers xs (several cs) = (id : String) → In id cs → In id xs

dedupe_sorted-In : (id : String) (xs : List String) → In id (dedupe_sorted xs) → In id xs
unfolding dedupe_sorted
dedupe_sorted-In id xs h = (In-distinct_iff id xs).0 ((In-sort_iff str_leb id _).0 h)

choice_of-Offers :
    (xs ds : List String) → ((id : String) → In id ds → In id xs) → Offers xs (choice_of ds)
choice_of-Offers xs [] h = h
choice_of-Offers xs (d ∷ []) h = h d (inl refl)
choice_of-Offers xs (d ∷ e ∷ ds) h = h

choose-Offers : (xs : List String) → Offers xs (choose xs)
unfolding choose
choose-Offers [] = choice_of-Offers [] (dedupe_sorted []) (λ id. dedupe_sorted-In id [])
choose-Offers (x ∷ []) = inl refl
choose-Offers (x ∷ y ∷ xs) =
    choice_of-Offers (x ∷ y ∷ xs) (dedupe_sorted (x ∷ y ∷ xs))
      (λ id. dedupe_sorted-In id (x ∷ y ∷ xs))

-- Every id of the resolution is a matched id of its category.
record IsFrom (matched : List String) (res : IdentityResolution) : Type 0 where
  resolved : (cat id : String) → lookup res.resolved cat ≡ some id → In id (by_category cat matched)
  candidates :
      (cat id : String) → In id (candidates_of cat res.ambiguous) → In id (by_category cat matched)

module _ (matched : List String) where
  moved :
      (cat k id : String)
      → str_eq cat k ≡ true
      → In id (by_category cat matched)
      → In id (by_category k matched)
  moved cat k id t m = subst (λ x. In id (by_category x matched)) ((str_eq_iff cat k).0 t) m

  add_choice-IsFrom :
      (cat : String) (c : Choice) (res : IdentityResolution)
      → Offers (by_category cat matched) c
      → IsFrom matched res
      → IsFrom matched (add_choice cat c res)
  unfolding lookup candidates_of
  add_choice-IsFrom cat (single id) res o f = record {
    resolved = λ k j h. elim (Bool-cases (str_eq cat k)) [
      | inl t ↦ moved cat k j t (subst (λ x. In x (by_category cat matched)) (ground arith) o)
      | inr n ↦ f.resolved k j (ground arith)
    ];
    candidates = f.candidates;
  }
  add_choice-IsFrom cat (several cs) res o f = record {
    resolved = f.resolved;
    candidates = λ k j h. elim (Bool-cases (str_eq cat k)) [
      | inl t ↦ moved cat k j t (o j (rw t at h))
      | inr n ↦ f.candidates k j (rw n at h)
    ];
  }

  resolve_order-IsFrom : (order : List String) → IsFrom matched (resolve_order order matched)
  unfolding resolve_order lookup candidates_of
  resolve_order-IsFrom [] = record { resolved = λ k j h. cc; candidates = λ k j h. absurd h }
  resolve_order-IsFrom (cat ∷ order) =
      add_choice-IsFrom cat (choose (by_category cat matched)) (resolve_order order matched)
        (choose-Offers (by_category cat matched)) (resolve_order-IsFrom order)

  add_choice-perm :
      (cat : String) (c : Choice) (res : IdentityResolution)
      → Perm (resolution_categories (add_choice cat c res)) (cat ∷ resolution_categories res)
  unfolding resolution_categories
  add_choice-perm cat (single id) res = Perm.refl _
  add_choice-perm cat (several cs) res = perm_middle _ _

  resolve_order-perm :
      (order : List String) → Perm (resolution_categories (resolve_order order matched)) order
  unfolding resolve_order
  resolve_order-perm [] = unfold resolution_categories in Perm.refl []
  resolve_order-perm (cat ∷ order) =
      Perm.trans (add_choice-perm cat _ _) (Perm.cons cat (resolve_order-perm order))

  -- Each category of the matched ids is in the resolution once.
  categories-perm :
      Perm
        (ordered_categories (resolution_categories (resolve_identities matched)))
        (distinct (map profile_category matched))
  unfolding ordered_categories resolve_identities category_list
  categories-perm =
      Perm.trans (sort-perm category_leb _)
        (Perm.trans (resolve_order-perm _) (sort-perm str_leb _))

  In-category :
      (cat id : String)
      → In id (by_category cat matched)
      → In id matched × (profile_category id ≡ cat)
  unfolding by_category
  In-category cat id m =
      let (i, t) = In-keep (λ x. str_eq (profile_category x) cat) id matched m in
      (i, (str_eq_iff (profile_category id) cat).0 t)

  -- A category that succeeds adds one matched id of that category.
  record Adds (cat : String) (rest : Chosen) (out : List String) : Type 0 where
    id : String
    tail : List String
    from_rest : rest ≡ ids tail
    is_cons : out ≡ id ∷ tail
    is_matched : In id (by_category cat matched)

  cons_id-Adds :
      (cat id : String) (rest : Chosen) (out : List String)
      → In id (by_category cat matched)
      → cons_id id rest ≡ ids out
      → Adds cat rest out
  cons_id-Adds cat id (ids tail) out m h = record {
    id = id;
    tail = tail;
    from_rest = refl;
    is_cons = ground arith;
    is_matched = m;
  }
  cons_id-Adds cat id (fault e) out m h = cc

  take_selected-Adds :
      (cat : String) (cs : List String) (o : Option String) (rest : Chosen) (out : List String)
      → ((id : String) → In id cs → In id (by_category cat matched))
      → take_selected cat cs o rest ≡ ids out
      → Adds cat rest out
  unfolding take_selected
  take_selected-Adds cat cs none rest out f h = cc
  take_selected-Adds cat cs (some id) rest out f h = elim (Bool-cases (contains cs id)) [
    | inl t ↦ cons_id-Adds cat id rest out (f id (contains→In id cs t)) (ground arith)
    | inr n ↦ ground arith
  ]

  take_category-Adds :
      (res : IdentityResolution) (selection : List (String × String)) (cat : String) (rest : Chosen)
      (out : List String)
      → IsFrom matched res
      → take_category res selection cat rest ≡ ids out
      → Adds cat rest out
  unfolding take_category
  take_category-Adds res selection cat rest out f h =
      elim (Option-cases (lookup res.resolved cat)) [
        | inl n ↦
            take_selected-Adds cat (candidates_of cat res.ambiguous) (lookup selection cat) rest out
              (f.candidates cat) (rw (n, take_category) at h)
        | inr (id, e) ↦
            cons_id-Adds cat id rest out (f.resolved cat id e) (rw (e, take_category) at h)
      ]

  final_from-categories :
      (res : IdentityResolution) (selection : List (String × String)) (cats out : List String)
      → IsFrom matched res
      → final_from cats res selection ≡ ids out
      → (map profile_category out ≡ cats) × ((id : String) → In id out → In id matched)
  unfolding final_from
  final_from-categories res selection [] out f h =
      let e : out ≡ [] = ground arith in rw e (refl, λ id m. absurd m)
  final_from-categories res selection (cat ∷ cats) out f h =
      let a = take_category-Adds res selection cat _ out f h in
      let (p, q) = final_from-categories res selection cats a.tail f a.from_rest in
      let (i, t) = In-category cat a.id a.is_matched in
      rw a.is_cons (ap₂ ◌∷◌ t p, λ id m. elim m [ inl e ↦ rw e i | inr n ↦ q id n ])

  -- The selected profiles are matched ones, one for each category that a matched profile has and none
  -- for any other, in the order of the category ranks.
  pub final_one_per_category :
      (selection : List (String × String)) (out : List String)
      → final_profile_ids (resolve_identities matched) selection ≡ ids out
      → ((id : String) → In id out → In id matched)
        × Perm (map profile_category out) (distinct (map profile_category matched))
        × IsSorted category_leb (map profile_category out)
  unfolding final_profile_ids
  final_one_per_category selection out h =
      let (p, q) =
        final_from-categories (resolve_identities matched) selection _ out resolved_from h in
      (
        q,
        rw p categories-perm,
        rw p (
            unfold ordered_categories in
            sort-IsSorted category_leb category_leb_total category_leb_trans _),
      )
    where
      resolved_from : IsFrom matched (resolve_identities matched)
      resolved_from = unfold resolve_identities in resolve_order-IsFrom (category_list matched)

-- The selection answers an ambiguous category by one of its candidates.
pub record Answers (selection : List (String × String)) (a : AmbiguousCategory) : Type 0 where
  pub id : String
  pub found : lookup selection a.category ≡ some id
  pub not_empty : id ≢ ""
  pub is_candidate : In id a.candidates

In-candidates_of :
    (cat : String) (xs : List AmbiguousCategory)
    → In cat (map (λ (a : AmbiguousCategory). a.category) xs)
    → In (record { category = cat; candidates = candidates_of cat xs }) xs
unfolding candidates_of
In-candidates_of cat [] m = absurd m
In-candidates_of cat (a ∷ rest) m = elim (Bool-cases (str_eq a.category cat)) [
  | inl t ↦ inl (ground (arith, t, (str_eq_iff a.category cat).0 t))
  | inr n ↦ inr (
      subst (λ cs. In (record { category = cat; candidates = cs }) rest) (unchanged n)
        (In-candidates_of cat rest (later n m)))
]
  where
    unchanged :
        str_eq a.category cat ≡ false → candidates_of cat rest ≡ candidates_of cat (a ∷ rest)
    unchanged n = ground arith

    later :
        str_eq a.category cat ≡ false
        → (cat ≡ a.category) ⊎ In cat (map (λ (x : AmbiguousCategory). x.category) rest)
        → In cat (map (λ (x : AmbiguousCategory). x.category) rest)
    later n (inl e) = absurd (ground (arith, n, (str_eq_iff a.category cat).1 (sym e)))
    later n (inr k) = k

module _ (res : IdentityResolution) (selection : List (String × String))
    (answered : (a : AmbiguousCategory) → In a res.ambiguous → Answers selection a) where
  take_category-total :
      (cat : String) (out : List String)
      → In cat (resolution_categories res)
      → (id : String) × (take_category res selection cat (ids out) ≡ ids (id ∷ out))
  unfolding take_category take_selected resolution_categories
  take_category-total cat out m = elim (Option-cases (lookup res.resolved cat)) [
    | inr (id, e) ↦ (id, rw (e, take_category) refl)
    | inl n ↦ elim (In-append cat (map (λ p. p.0) res.resolved) _ m) [
      | inl k ↦ absurd (ground (arith, In→contains cat _ k, (lookup-none_iff res.resolved cat).0 n))
      | inr k ↦
          let a = answered _ (In-candidates_of cat res.ambiguous k) in
          (
            a.id,
            rw (n, take_category, a.found, take_selected)
                (ground (
                  arith,
                  In→contains a.id _ a.is_candidate,
                  not-true→false (str_eq a.id "") (λ t. a.not_empty ((str_eq_iff a.id "").0 t)),
                )),
          )
    ]
  ]

  final_from-total :
      (cats : List String)
      → ((cat : String) → In cat cats → In cat (resolution_categories res))
      → (out : List String) × (final_from cats res selection ≡ ids out)
  unfolding final_from
  final_from-total [] h = ([], refl)
  final_from-total (cat ∷ cats) h =
      let (out, e) = final_from-total cats (λ c m. h c (inr m)) in
      let (id, t) = take_category-total cat out (h cat (inl refl)) in (id ∷ out, rw e t)

  -- The choice succeeds whenever the selection answers each ambiguous category by a candidate; with
  -- no ambiguous category it succeeds on any selection.
  pub final_profile_ids_total : (out : List String) × (final_profile_ids res selection ≡ ids out)
  unfolding final_profile_ids ordered_categories
  final_profile_ids_total =
      final_from-total _ (λ c m. (In-sort_iff category_leb c (resolution_categories res)).0 m)
