-- ===== src/Knowledge/Semver/Trim.antt =====
-- What the trimming and the cut of parseSemver of internal/knowledge/semver.go leave of a version's text.
use oh_my_code_agent.Prelude.{
  ℕ, Bool, true, false, List, [], ◌∷◌, ◌++◌, ◌||◌, ◌==◌, ◌≡◌, refl, sym, ap, subst, ◌∙◌, arith,
  every, reverse, append-nil, append_assoc, Bool-cases, inl, inr,
}
use mathlib.Core.List.{reverse-cons, reverse-append, reverse-reverse}
use oh_my_code_agent.Hub.Repair.{is_space, trim_space, trim_left}
use oh_my_code_agent.Knowledge.Semver.Parse.{is_digit, cut_suffix}

-- nothing, or a text that starts with `-` or `+`
pub data IsSuffix : List ℕ → Type 0 where
  none_given : IsSuffix []
  given : {c : ℕ} {cs : List ℕ} → ((c == b'-') || (c == b'+')) ≡ true → IsSuffix (c ∷ cs)

abbrev pub is_core : ℕ → Bool
is_core c = is_digit c || (c == b'.')

pub cut_suffix-core :
    (xs suffix : List ℕ)
    → every is_core xs ≡ true
    → IsSuffix suffix
    → cut_suffix (xs ++ suffix) ≡ xs
unfolding cut_suffix every is_digit
cut_suffix-core [] [] h s = refl
cut_suffix-core [] (c ∷ cs) h (given t) = ground (arith, t)
cut_suffix-core (x ∷ xs) suffix h s =
    ground (arith, h, cut_suffix-core xs suffix (ground (arith, h)) s)

pub core-not_space : (c : ℕ) → is_core c ≡ true → is_space c ≡ false
unfolding is_space is_digit
core-not_space c h = ground (arith, h)

pub trim_left-stop :
    (xs ys : List ℕ) (c : ℕ)
    → is_space c ≡ false
    → trim_left (xs ++ (c ∷ ys)) ≡ trim_left xs ++ (c ∷ ys)
unfolding trim_left
trim_left-stop [] ys c h = rw h refl
trim_left-stop (x ∷ xs) ys c h = elim (Bool-cases (is_space x)) [
  | inl t ↦ rw t (trim_left-stop xs ys c h)
  | inr f ↦ rw f refl
]

-- what stays of a text after a character that is no space
abbrev pub trim_right : List ℕ → List ℕ
trim_right ys = reverse (trim_left (reverse ys))

pub trim_space-stop :
    (xs ys : List ℕ) (c : ℕ)
    → is_space c ≡ false
    → trim_left (xs ++ (c ∷ ys)) ≡ xs ++ (c ∷ ys)
    → trim_space (xs ++ (c ∷ ys)) ≡ xs ++ (c ∷ trim_right ys)
unfolding trim_space
trim_space-stop xs ys c h start =
    ap (λ s. reverse (trim_left (reverse s))) start
    ∙ ap (λ s. reverse (trim_left s)) turned
    ∙ ap reverse (trim_left-stop (reverse ys) (reverse xs) c h)
    ∙ reverse-append (trim_left (reverse ys)) (c ∷ reverse xs)
    ∙ ap (λ s. s ++ trim_right ys)
        (reverse-cons c (reverse xs) ∙ ap (λ s. s ++ (c ∷ [])) (reverse-reverse xs))
    ∙ append_assoc xs (c ∷ []) (trim_right ys)
  where
    turned : reverse (xs ++ (c ∷ ys)) ≡ reverse ys ++ (c ∷ reverse xs)
    turned =
        reverse-append xs (c ∷ ys)
        ∙ ap (λ s. s ++ reverse xs) (reverse-cons c ys)
        ∙ append_assoc (reverse ys) (c ∷ []) (reverse xs)

pub record Snoc (xs : List ℕ) : Type 0 where
  front : List ℕ
  last_one : ℕ
  joined : xs ≡ front ++ (last_one ∷ [])
  core : is_core last_one ≡ true

pub Snoc-view : (x : ℕ) (xs : List ℕ) → every is_core (x ∷ xs) ≡ true → Snoc (x ∷ xs)
unfolding every
Snoc-view x [] h = record { front = []; last_one = x; joined = refl; core = ground (arith, h) }
Snoc-view x (y ∷ xs) h =
    let s = Snoc-view y xs (ground (arith, h)) in
    record {
      front = x ∷ s.front;
      last_one = s.last_one;
      joined = ap (λ l. x ∷ l) s.joined;
      core = s.core;
    }

pub sign-not_space : (c : ℕ) → ((c == b'-') || (c == b'+')) ≡ true → is_space c ≡ false
unfolding is_space
sign-not_space c h = ground (arith, h)

pub starts :
    (x : ℕ) (xs suffix : List ℕ)
    → every is_core (x ∷ xs) ≡ true
    → trim_left ((x ∷ xs) ++ suffix) ≡ (x ∷ xs) ++ suffix
unfolding trim_left every
starts x xs suffix h = ground (arith, core-not_space x (ground (arith, h)))

pub whole :
    (xs : List ℕ) → Snoc xs → trim_left (xs ++ []) ≡ xs ++ [] → trim_space (xs ++ []) ≡ xs ++ []
unfolding trim_left
whole xs s start =
    let e = append-nil xs ∙ s.joined in
    ap trim_space e
    ∙ trim_space-stop s.front [] s.last_one (core-not_space s.last_one s.core)
        (subst (λ l. trim_left l ≡ l) e start)
    ∙ sym e

-- Spaces at the end are part of the suffix.
pub trim_space-core :
    (x : ℕ) (xs suffix : List ℕ)
    → every is_core (x ∷ xs) ≡ true
    → IsSuffix suffix
    → (rest : List ℕ) × IsSuffix rest × (trim_space ((x ∷ xs) ++ suffix) ≡ (x ∷ xs) ++ rest)
trim_space-core x xs [] h none_given =
    ([], none_given, whole (x ∷ xs) (Snoc-view x xs h) (starts x xs [] h))
trim_space-core x xs (c ∷ cs) h (given t) = (
  c ∷ trim_right cs,
  given t,
  trim_space-stop (x ∷ xs) cs c (sign-not_space c t) (starts x xs (c ∷ cs) h),
)
