-- ===== src/Prelude/Sort.antt =====
-- Go's `sort.Strings`, `sort.Ints` and `sort.Slice` as an insertion sort. It is stable, so it is
-- `sort.SliceStable` too.
use mathlib.Core.Path.{◌≡◌}
use mathlib.Core.Logic.{◌⊎◌, inl, inr, ◌↔◌}
use mathlib.Core.Bool.{Bool, true, false}
use mathlib.Core.List.{List, [], ◌∷◌, Perm}
use mathlib.Core.List.Perm
use native.Mathlib.Omega.{arith}
use oh_my_code_agent.Prelude.Tests.{if◌then◌else◌, Bool-cases}
use oh_my_code_agent.Prelude.Lists.{In}
use oh_my_code_agent.Prelude.Keys.{Eq, contains, In→contains, not_In→contains, IsNodup}

module _ {A : Type 0} (le : A → A → Bool) where
  unfoldable pub insert : A → List A → List A
  insert a [] = a ∷ []
  insert a (x ∷ xs) = if le a x then a ∷ x ∷ xs else x ∷ insert a xs

  unfoldable pub sort : List A → List A
  unfolding insert
  sort [] = []
  sort (x ∷ xs) = insert x (sort xs)

  insert-perm : (a : A) (xs : List A) → Perm (insert a xs) (a ∷ xs)
  unfolding insert
  insert-perm a [] = Perm.refl _
  insert-perm a (x ∷ xs) = elim (Bool-cases (le a x)) [
    | inl t ↦ rw t (Perm.refl _)
    | inr f ↦ rw f (Perm.trans (Perm.cons x (insert-perm a xs)) (Perm.swap a x xs))
  ]

  pub sort-perm : (xs : List A) → Perm (sort xs) xs
  unfolding sort
  sort-perm [] = Perm.refl _
  sort-perm (x ∷ xs) = Perm.trans (insert-perm x (sort xs)) (Perm.cons x (sort-perm xs))

  pub insert-In : (a b : A) (xs : List A) → In b (insert a xs) → (b ≡ a) ⊎ In b xs
  unfolding insert
  insert-In a b [] h = h
  insert-In a b (x ∷ xs) h = ground (arith, insert-In a b xs)

  In-insert : (a b : A) (xs : List A) → (b ≡ a) ⊎ In b xs → In b (insert a xs)
  unfolding insert
  In-insert a b [] h = h
  In-insert a b (x ∷ xs) h = ground (arith, In-insert a b xs)

  pub In-sort_iff : (b : A) (xs : List A) → In b (sort xs) ↔ In b xs
  unfolding sort
  In-sort_iff b [] = (λ h. h, λ h. h)
  In-sort_iff b (x ∷ xs) = (
    λ h. ground (arith, insert-In x b (sort xs) h, (In-sort_iff b xs).0),
    λ h. In-insert x b (sort xs) (ground (arith, (In-sort_iff b xs).1)),
  )

  -- Every element is below those that follow it.
  abbrev pub IsBelow : A → List A → Type 0
  IsBelow a [] = Unit
  IsBelow a (x ∷ xs) = (le a x ≡ true) × IsBelow a xs

  abbrev pub IsSorted : List A → Type 0
  IsSorted [] = Unit
  IsSorted (x ∷ xs) = IsBelow x xs × IsSorted xs

  module _ (total : (a b : A) → le a b ≡ false → le b a ≡ true)
      (trans : (a b c : A) → le a b ≡ true → le b c ≡ true → le a c ≡ true) where
    IsBelow-mono : (a b : A) (xs : List A) → le a b ≡ true → IsBelow b xs → IsBelow a xs
    IsBelow-mono a b [] h w = tt
    IsBelow-mono a b (x ∷ xs) h w = (trans a b x h w.0, IsBelow-mono a b xs h w.1)

    insert-IsBelow :
        (a b : A) (xs : List A) → le b a ≡ true → IsBelow b xs → IsBelow b (insert a xs)
    unfolding insert
    insert-IsBelow a b [] h w = (h, tt)
    insert-IsBelow a b (x ∷ xs) h w = ground (arith, insert-IsBelow a b xs)

    insert-IsSorted : (a : A) (xs : List A) → IsSorted xs → IsSorted (insert a xs)
    unfolding insert
    insert-IsSorted a [] s = (tt, tt)
    insert-IsSorted a (x ∷ xs) s = elim (Bool-cases (le a x)) [
      | inl t ↦ rw t ((t, IsBelow-mono a x xs t s.0), s)
      | inr f ↦ rw f (insert-IsBelow a x xs (total a x f) s.0, insert-IsSorted a xs s.1)
    ]

    pub sort-IsSorted : (xs : List A) → IsSorted (sort xs)
    unfolding sort
    sort-IsSorted [] = tt
    sort-IsSorted (x ∷ xs) = insert-IsSorted x (sort xs) (sort-IsSorted xs)

module _ {A : Type 0} ⦃e : Eq A⦄ (le : A → A → Bool) where
  insert-IsNodup :
      (a : A) (xs : List A) → contains xs a ≡ false → IsNodup xs → IsNodup (insert le a xs)
  unfolding insert contains
  insert-IsNodup a [] h n = (h, tt)
  insert-IsNodup a (x ∷ xs) h n = elim (Bool-cases (le a x)) [
    | inl t ↦ rw t (h, n)
    | inr f ↦ rw f (not_In→contains x _ apart, insert-IsNodup a xs (ground arith) n.1)
  ]
    where
      apart : ¬ In x (insert le a xs)
      apart m = elim (insert-In le a x xs m) [
        | inl p ↦ ground (arith, (e.beq_iff x a).1 p)
        | inr i ↦ ground (arith, In→contains x xs i)
      ]

  pub sort-IsNodup : (xs : List A) → IsNodup xs → IsNodup (sort le xs)
  unfolding sort
  sort-IsNodup [] n = tt
  sort-IsNodup (x ∷ xs) n =
      insert-IsNodup x (sort le xs)
        (not_In→contains x _ λ m. ground (arith, In→contains x xs ((In-sort_iff le x xs).0 m)))
        (sort-IsNodup xs n.1)
