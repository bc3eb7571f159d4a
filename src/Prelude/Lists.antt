-- ===== src/Prelude/Lists.antt =====
-- Lists: length, membership, Boolean filters and searches over the native numbers.
use Prim.Native.Nat.{ℕ, suc}
use mathlib.Core.Path.{◌≡◌, refl, ap}
use mathlib.Core.Logic.{◌⊎◌, inl, inr}
use mathlib.Core.Bool.{Bool, true, false, ◌&&◌, ◌||◌}
use mathlib.Core.Option.{Option, none, some}
use mathlib.Core.List.{List, [], ◌∷◌, ◌++◌, map}
use native.Mathlib.Omega.{arith}
use oh_my_code_agent.Prelude.Tests.{if◌then◌else◌, Bool-cases}

abbrev pub length {ℓ} : {A : Type ℓ} → List A → ℕ
length [] = 0
length (x ∷ xs) = suc (length xs)

-- `for _, x := range xs { if p(x) { out = append(out, x) } }`
unfoldable pub keep {ℓ} : {A : Type ℓ} → (A → Bool) → List A → List A
keep p [] = []
keep p (x ∷ xs) = let rest = keep p xs in if p x then x ∷ rest else rest

-- `for _, x := range xs { if p(x) { return x, true } }; return _, false`
unfoldable pub first {ℓ} : {A : Type ℓ} → (A → Bool) → List A → Option A
first p [] = none
first p (x ∷ xs) = let rest = first p xs in if p x then some x else rest

-- `for _, x := range xs { if p(x) { return true } }; return false`
unfoldable pub some_of {ℓ} : {A : Type ℓ} → (A → Bool) → List A → Bool
some_of p [] = false
some_of p (x ∷ xs) = p x || some_of p xs

unfoldable pub every {ℓ} : {A : Type ℓ} → (A → Bool) → List A → Bool
every p [] = true
every p (x ∷ xs) = p x && every p xs

unfoldable pub last {ℓ} : {A : Type ℓ} → A → List A → A
last d [] = d
last d (x ∷ xs) = last x xs

-- Membership with the place kept.
module _ {A : Type 0} where
  abbrev pub In : A → List A → Type 0
  In a [] = ⊥
  In a (x ∷ xs) = (a ≡ x) ⊎ In a xs

  pub In-append_left : (a : A) (xs ys : List A) → In a xs → In a (xs ++ ys)
  In-append_left a [] ys h = absurd h
  In-append_left a (x ∷ xs) ys (inl e) = inl e
  In-append_left a (x ∷ xs) ys (inr h) = inr (In-append_left a xs ys h)

  pub In-append_right : (a : A) (xs ys : List A) → In a ys → In a (xs ++ ys)
  In-append_right a [] ys h = h
  In-append_right a (x ∷ xs) ys h = inr (In-append_right a xs ys h)

  pub In-append : (a : A) (xs ys : List A) → In a (xs ++ ys) → In a xs ⊎ In a ys
  In-append a [] ys h = inr h
  In-append a (x ∷ xs) ys (inl e) = inl (inl e)
  In-append a (x ∷ xs) ys (inr h) = elim (In-append a xs ys h) [
    | inl l ↦ inl (inr l)
    | inr r ↦ inr r
  ]

  pub In-keep : (p : A → Bool) (a : A) (xs : List A) → In a (keep p xs) → In a xs × (p a ≡ true)
  unfolding keep
  In-keep p a [] h = absurd h
  In-keep p a (x ∷ xs) h = ground (arith, In-keep p a xs)

  pub keep-In : (p : A → Bool) (a : A) (xs : List A) → In a xs → p a ≡ true → In a (keep p xs)
  unfolding keep
  keep-In p a [] h t = absurd h
  keep-In p a (x ∷ xs) h t = ground (arith, keep-In p a xs)

  -- What a search returns stands in the list and passes the test.
  pub first-In : (p : A → Bool) (a : A) (xs : List A) → first p xs ≡ some a → In a xs × (p a ≡ true)
  unfolding first
  first-In p a [] h = cc
  first-In p a (x ∷ xs) h = ground (arith, first-In p a xs)

  -- A search that fails has tried every element.
  pub first-none : (p : A → Bool) (a : A) (xs : List A) → first p xs ≡ none → In a xs → p a ≡ false
  unfolding first
  first-none p a [] h m = absurd m
  first-none p a (x ∷ xs) h m = ground (arith, first-none p a xs)

  pub first-none_of :
      (p : A → Bool) (xs : List A) → ((a : A) → In a xs → p a ≡ false) → first p xs ≡ none
  unfolding first
  first-none_of p [] h = refl
  first-none_of p (x ∷ xs) h =
      let e = h x (inl refl) in ground (arith, e, first-none_of p xs (λ a m. h a (inr m)))

  pub some_of-In : (p : A → Bool) (a : A) (xs : List A) → In a xs → p a ≡ true → some_of p xs ≡ true
  unfolding some_of
  some_of-In p a [] m t = absurd m
  some_of-In p a (x ∷ xs) m t = ground (arith, some_of-In p a xs)

  pub some_of_witness :
      (p : A → Bool) (xs : List A) → some_of p xs ≡ true → (a : A) × In a xs × (p a ≡ true)
  unfolding some_of
  some_of_witness p [] h = cc
  some_of_witness p (x ∷ xs) h = elim (Bool-cases (p x)) [
    | inl t ↦ (x, inl refl, t)
    | inr f ↦ let (a, m, t) = some_of_witness p xs (ground arith) in (a, inr m, t)
  ]

  pub every-In : (p : A → Bool) (a : A) (xs : List A) → every p xs ≡ true → In a xs → p a ≡ true
  unfolding every
  every-In p a [] h m = absurd m
  every-In p a (x ∷ xs) h m = ground (arith, every-In p a xs)

pub In-map : {A B : Type 0} (f : A → B) (a : A) (xs : List A) → In a xs → In (f a) (map f xs)
In-map f a [] h = absurd h
In-map f a (x ∷ xs) (inl e) = inl (ap f e)
In-map f a (x ∷ xs) (inr h) = inr (In-map f a xs h)

pub map-In :
    {A B : Type 0} (f : A → B) (b : B) (xs : List A)
    → In b (map f xs)
    → (a : A) × In a xs × (b ≡ f a)
map-In f b [] h = absurd h
map-In f b (x ∷ xs) (inl e) = (x, inl refl, e)
map-In f b (x ∷ xs) (inr h) = let (a, m, e) = map-In f b xs h in (a, inr m, e)

pub nothing_In : {A : Type 0} (xs : List A) → ((a : A) → ¬ In a xs) → xs ≡ []
nothing_In [] h = refl
nothing_In (x ∷ xs) h = absurd (h x (inl refl))
