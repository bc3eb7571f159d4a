-- ===== src/Prelude/Keys.antt =====
-- Types with an equality test, the sets and maps of Go keyed by them, and removal of duplicates.
use Prim.Native.String.{String}
use Prim.Native.Nat.{ℕ}
use mathlib.Core.Path.{◌≡◌, refl, sym}
use mathlib.Core.Logic.{inl, inr, ◌↔◌}
use mathlib.Core.Bool.{Bool, true, false, ◌||◌}
use mathlib.Core.Option.{Option, none, some}
use mathlib.Core.List.{List, [], ◌∷◌, map}
use native.Mathlib.Omega.{arith}
use oh_my_code_agent.Prelude.Tests.{if◌then◌else◌, str_eq, str_eq_iff, Bool-cases, ◌==◌}
use oh_my_code_agent.Prelude.Lists.{In}

pub record Eq (A : Type 0) : Type 0 where
  pub beq : A → A → Bool
  pub beq_iff : (a b : A) → (beq a b ≡ true) ↔ (a ≡ b)

instance abbrev pub string_eq : Eq String
string_eq = record { beq = str_eq; beq_iff = str_eq_iff }

pub nat_beq_iff : (a b : ℕ) → ((a == b) ≡ true) ↔ (a ≡ b)
nat_beq_iff a b = (λ h. ground arith, λ h. ground arith)

instance abbrev pub nat_eq : Eq ℕ
nat_eq = record { beq = ◌==◌; beq_iff = nat_beq_iff }

module _ {A : Type 0} ⦃e : Eq A⦄ where
  pub beq_refl : (a : A) → e.beq a a ≡ true
  beq_refl a = (e.beq_iff a a).1 refl

  -- `seen[a]` for a `map[A]bool`, or a loop that searches a slice for `a`.
  unfoldable pub contains : List A → A → Bool
  contains [] a = false
  contains (x ∷ xs) a = e.beq x a || contains xs a

  pub contains→In : (a : A) (xs : List A) → contains xs a ≡ true → In a xs
  unfolding contains
  contains→In a [] h = cc
  contains→In a (x ∷ xs) h = elim (Bool-cases (e.beq x a)) [
    | inl t ↦ inl (sym ((e.beq_iff x a).0 t))
    | inr f ↦ inr (contains→In a xs (ground arith))
  ]

  pub In→contains : (a : A) (xs : List A) → In a xs → contains xs a ≡ true
  unfolding contains
  In→contains a [] h = absurd h
  In→contains a (x ∷ xs) (inl p) = ground (arith, (e.beq_iff x a).1 (sym p))
  In→contains a (x ∷ xs) (inr m) = ground (arith, In→contains a xs m)

  pub not_In→contains : (a : A) (xs : List A) → ¬ In a xs → contains xs a ≡ false
  not_In→contains a xs h = elim (Bool-cases (contains xs a)) [
    | inl t ↦ absurd (h (contains→In a xs t))
    | inr f ↦ f
  ]

  -- The loop `if seen[x] { continue }; seen[x] = true; out = append(out, x)`.
  unfoldable pub distinct_from : List A → List A → List A
  distinct_from seen [] = []
  distinct_from seen (x ∷ xs) =
      let skip = distinct_from seen xs in
      let take = x ∷ distinct_from (x ∷ seen) xs in if contains seen x then skip else take

  unfoldable pub distinct : List A → List A
  unfolding distinct_from
  distinct xs = distinct_from [] xs

  distinct_from-In :
      (seen : List A) (a : A) (xs : List A)
      → In a (distinct_from seen xs)
      → In a xs × (contains seen a ≡ false)
  unfolding distinct_from contains
  distinct_from-In seen a [] h = absurd h
  distinct_from-In seen a (x ∷ xs) h =
      ground (arith, distinct_from-In seen a xs, distinct_from-In (x ∷ seen) a xs)

  In-distinct_from :
      (seen : List A) (a : A) (xs : List A)
      → In a xs
      → contains seen a ≡ false
      → In a (distinct_from seen xs)
  unfolding distinct_from contains
  In-distinct_from seen a [] h n = absurd h
  In-distinct_from seen a (x ∷ xs) h n =
      ground (arith, e.beq_iff x a, In-distinct_from seen a xs, In-distinct_from (x ∷ seen) a xs)

  pub In-distinct_iff : (a : A) (xs : List A) → In a (distinct xs) ↔ In a xs
  unfolding distinct contains
  In-distinct_iff a xs = (λ h. (distinct_from-In [] a xs h).0, λ h. In-distinct_from [] a xs h refl)

  pub contains-distinct : (a : A) (xs : List A) → contains (distinct xs) a ≡ contains xs a
  contains-distinct a xs = elim (Bool-cases (contains xs a)) [
    | inl t ↦ rw t (In→contains a _ ((In-distinct_iff a xs).1 (contains→In a xs t)))
    | inr f ↦
        rw f
          (not_In→contains a _ λ m. ground (arith, In→contains a xs ((In-distinct_iff a xs).0 m)))
  ]

  -- No value stands twice.
  abbrev pub IsNodup : List A → Type 0
  IsNodup [] = Unit
  IsNodup (x ∷ xs) = (contains xs x ≡ false) × IsNodup xs

  distinct_from_fresh : (seen : List A) (x : A) (xs : List A) → ¬ In x (distinct_from (x ∷ seen) xs)
  unfolding contains
  distinct_from_fresh seen x xs m = ground (arith, distinct_from-In (x ∷ seen) x xs m, beq_refl x)

  distinct_from-IsNodup : (seen xs : List A) → IsNodup (distinct_from seen xs)
  unfolding distinct_from
  distinct_from-IsNodup seen [] = tt
  distinct_from-IsNodup seen (x ∷ xs) = elim (Bool-cases (contains seen x)) [
    | inl t ↦ rw t (distinct_from-IsNodup seen xs)
    | inr f ↦
        rw f
          (not_In→contains x _ (distinct_from_fresh seen x xs), distinct_from-IsNodup (x ∷ seen) xs)
  ]

  pub distinct-IsNodup : (xs : List A) → IsNodup (distinct xs)
  unfolding distinct
  distinct-IsNodup xs = distinct_from-IsNodup [] xs

-- A Go map as a list of pairs; the first pair with a key is the one that counts.
module _ {K V : Type 0} ⦃e : Eq K⦄ where
  unfoldable pub lookup : List (K × V) → K → Option V
  lookup [] k = none
  lookup ((j, v) ∷ m) k = if e.beq j k then some v else lookup m k

  abbrev pub keys : List (K × V) → List K
  keys = map (λ p. p.0)

  pub lookup-some-contains :
      (m : List (K × V)) (k : K) (v : V) → lookup m k ≡ some v → contains (keys m) k ≡ true
  unfolding lookup contains
  lookup-some-contains [] k v h = cc
  lookup-some-contains ((j, w) ∷ m) k v h = ground (arith, lookup-some-contains m k v)

  pub lookup-none_iff :
      (m : List (K × V)) (k : K) → (lookup m k ≡ none) ↔ (contains (keys m) k ≡ false)
  unfolding lookup contains
  lookup-none_iff [] k = (λ h. refl, λ h. refl)
  lookup-none_iff ((j, w) ∷ m) k =
      (λ h. ground (arith, (lookup-none_iff m k).0), λ h. ground (arith, (lookup-none_iff m k).1))
