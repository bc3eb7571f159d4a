-- ===== src/Hub/Watchdog/Loops.antt =====
-- When `CheckCallLoop` reports a loop.
use oh_my_code_agent.Prelude.{
  ℕ, String, some, List, [], ◌∷◌, ◌++◌, ◌≡◌, ◌≤◌, ◌↔◌, inl, inr, refl, sym, ap, subst, ◌∙◌, arith,
  reverse, length, str_eq, str_eq_iff, Bool-cases, zero, suc,
}
use mathlib.Core.List.{reverse-cons}
use oh_my_code_agent.Hub.Watchdog.{
  identical_call_loop, call_threshold, count_same, check_call_loop, count_last,
}

-- The first `n` of the list are `x`.
pub data StartsWith (x : String) : ℕ → List String → Type 0 where
  none_asked : {hs : List String} → StartsWith x 0 hs
  one_more :
      {n : ℕ} {h : String} {hs : List String}
      → h ≡ x
      → StartsWith x n hs
      → StartsWith x (suc n) (h ∷ hs)

count→StartsWith : (x : String) (n : ℕ) (hs : List String) → n ≤ count_same x hs → StartsWith x n hs
unfolding count_same
count→StartsWith x zero hs h = none_asked
count→StartsWith x (suc n) [] h = absurd (ground arith)
count→StartsWith x (suc n) (k ∷ hs) h = elim (Bool-cases (str_eq k x)) [
  | inl t ↦ one_more ((str_eq_iff k x).0 t) (count→StartsWith x n hs (ground (arith, t, h)))
  | inr f ↦ absurd (ground (arith, f, h))
]

StartsWith→count : (x : String) {n : ℕ} {hs : List String} → StartsWith x n hs → n ≤ count_same x hs
unfolding count_same
StartsWith→count x none_asked = ground arith
StartsWith→count x (one_more {h = k} q m) =
    ground (arith, (str_eq_iff k x).1 q, StartsWith→count x m)

StartsWith-length : (x : String) {n : ℕ} {hs : List String} → StartsWith x n hs → n ≤ length hs
StartsWith-length x none_asked = ground arith
StartsWith-length x (one_more q m) = ground (arith, StartsWith-length x m)

length-snoc : (xs : List String) (x : String) → length (xs ++ (x ∷ [])) ≡ suc (length xs)
length-snoc [] x = refl
length-snoc (y ∷ xs) x = ap suc (length-snoc xs x)

length-reverse : (xs : List String) → length (reverse xs) ≡ length xs
length-reverse [] = refl
length-reverse (x ∷ xs) =
    ap length (reverse-cons x xs) ∙ length-snoc (reverse xs) x ∙ ap suc (length-reverse xs)

threshold_positive : (threshold : ℕ) → 1 ≤ call_threshold threshold
unfolding call_threshold
threshold_positive threshold = ground arith

count_last→StartsWith :
    (n : ℕ) (hs : List String) → 1 ≤ n → n ≤ count_last hs → (x : String) × StartsWith x n hs
unfolding count_last
count_last→StartsWith n [] p h = absurd (ground arith)
count_last→StartsWith n (k ∷ hs) p h = (k, count→StartsWith k n (k ∷ hs) h)

StartsWith→count_last :
    (x : String) (n : ℕ) (hs : List String) → 1 ≤ n → StartsWith x n hs → n ≤ count_last hs
unfolding count_last
StartsWith→count_last x zero hs p m = absurd (ground arith)
StartsWith→count_last x (suc n) [] p m = elim m [ ]
StartsWith→count_last x (suc n) (k ∷ hs) p (one_more q m) =
    subst (λ y. suc n ≤ count_same y (k ∷ hs)) (sym q) (StartsWith→count x (one_more q m))

-- A loop is reported exactly if the newest calls of the history, as many as the threshold in force, are
-- one and the same.
pub check_call_loop_iff :
    (history : List String) (threshold : ℕ)
    → (check_call_loop history threshold ≡ some identical_call_loop)
      ↔ (x : String) × StartsWith x (call_threshold threshold) (reverse history)
unfolding check_call_loop
check_call_loop_iff history threshold = (
  λ h.
      count_last→StartsWith (call_threshold threshold) (reverse history)
        (threshold_positive threshold) (ground (arith, h)),
  λ (x, m).
      let enough =
        StartsWith→count_last x (call_threshold threshold) (reverse history)
          (threshold_positive threshold) m in
      ground (arith, enough, StartsWith-length x m, length-reverse history),
)
