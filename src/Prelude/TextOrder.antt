-- ===== src/Prelude/TextOrder.antt =====
-- Go's `<` on strings: lexicographic by bytes, which is `compare` of the native texts.
use Prim.Native.Nat.{ℕ, Ordering, compare as compare_ℕ}
use Prim.Native.Char.{code}
use Prim.Native.String.compare
use Prim.Native.String.{String, [], ◌∷◌, compare, then}
use mathlib.Core.Path.{◌≡◌, refl}
use mathlib.Core.Bool.{Bool, true, false, not}
use mathlib.Core.Logic.{◌≢◌}
use native.Mathlib.Omega.{arith}
use text.Mathlib.TextEquality.{path_by_compare}
use text.Mathlib.TextPositions.{compare_refl}

unfoldable pub str_ltb : String → String → Bool
str_ltb a b = elim (compare a b) [ Ordering.lt ↦ true | _ ↦ false ]

unfoldable pub str_leb : String → String → Bool
str_leb a b = elim (compare a b) [ Ordering.gt ↦ false | _ ↦ true ]

abbrev flip : Ordering → Ordering
flip Ordering.lt = Ordering.gt
flip Ordering.eq = Ordering.eq
flip Ordering.gt = Ordering.lt

flip-then : (o p : Ordering) → flip (then o p) ≡ then (flip o) (flip p)
flip-then Ordering.lt p = refl
flip-then Ordering.eq p = refl
flip-then Ordering.gt p = refl

compare_ℕ_flip : (m n : ℕ) → compare_ℕ n m ≡ flip (compare_ℕ m n)
compare_ℕ_flip m n = ground arith

compare-flip : (s t : String) → compare t s ≡ flip (compare s t)
compare-flip [] [] = refl
compare-flip [] (d ∷ t) = rw (compare.nil-cons, compare.cons-nil)
compare-flip (c ∷ s) [] = rw (compare.nil-cons, compare.cons-nil)
compare-flip (c ∷ s) (d ∷ t) =
    rw (compare.cons-cons d c t s, compare.cons-cons c d s t)
      (ground (
        arith,
        compare_ℕ_flip (code c) (code d),
        compare-flip s t,
        flip-then (compare_ℕ (code c) (code d)) (compare s t),
      ))

pub str_leb_total : (a b : String) → str_leb a b ≡ false → str_leb b a ≡ true
unfolding str_leb
str_leb_total a b h = ground (arith, compare-flip a b)

pub str_leb_antisym : (a b : String) → str_leb a b ≡ true → str_leb b a ≡ true → a ≡ b
unfolding str_leb
str_leb_antisym a b h k = path_by_compare a b (ground (arith, compare-flip a b))

step_trans :
    (m n k : ℕ) (o p q : Ordering)
    → (o ≢ Ordering.gt → p ≢ Ordering.gt → q ≢ Ordering.gt)
    → then (compare_ℕ m n) o ≢ Ordering.gt
    → then (compare_ℕ n k) p ≢ Ordering.gt
    → then (compare_ℕ m k) q ≢ Ordering.gt
step_trans m n k o p q ih g h = ground arith

compare_trans :
    (s t u : String)
    → compare s t ≢ Ordering.gt
    → compare t u ≢ Ordering.gt
    → compare s u ≢ Ordering.gt
compare_trans [] t [] g h = λ e. cc (compare_refl [])
compare_trans [] t (e ∷ u) g h = rw compare.nil-cons (λ p. cc)
compare_trans (c ∷ s) [] u g h = absurd (g (compare.cons-nil c s))
compare_trans (c ∷ s) (d ∷ t) [] g h = absurd (h (compare.cons-nil d t))
compare_trans (c ∷ s) (d ∷ t) (e ∷ u) g h = rw compare.cons-cons (
    step_trans (code c) (code d) (code e) (compare s t) (compare t u) (compare s u)
      (compare_trans s t u) (rw (compare.cons-cons c d s t) at g)
      (rw (compare.cons-cons d e t u) at h))

pub str_leb_trans : (a b c : String) → str_leb a b ≡ true → str_leb b c ≡ true → str_leb a c ≡ true
unfolding str_leb
str_leb_trans a b c h k =
    let g = compare_trans a b c (λ e. ground arith) (λ e. ground arith) in ground (arith, g)

-- `<` is the negation of the flipped `<=`.
pub str_ltb-leb : (a b : String) → str_ltb a b ≡ not (str_leb b a)
unfolding str_ltb str_leb
str_ltb-leb a b = ground (arith, compare-flip a b)
