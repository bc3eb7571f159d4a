-- ===== src/Knowledge/Semver/Decimal.antt =====
-- The decimal print of a number, against the digits that internal/knowledge/semver.go reads.
use Prim.Native.Nat.{◌/◌, ◌%◌}
use oh_my_code_agent.Prelude.{
  ℕ, zero, suc, Bool, true, false, some, List, [], ◌∷◌, ◌++◌, ◌+◌, ◌-◌, ◌*◌, ◌≤◌, ◌<◌, ltb, ◌≡◌,
  refl, ◌∙◌, arith, if◌then◌else◌, every, Bool-cases, inl, inr,
}
use oh_my_code_agent.Knowledge.Semver.{Semver}
use oh_my_code_agent.Knowledge.Semver.Parse.{
  max_int, is_digit, is_nil, all_digits, split_dots, digits_value, atoi,
}

-- The decimal digits of a number, in at most so many.
unfoldable pub decimal_in : ℕ → ℕ → List ℕ
decimal_in zero n = []
decimal_in (suc k) n =
    let front = decimal_in k (n / 10) in
    if ltb n 10 then (b'0' + n) ∷ [] else front ++ ((b'0' + n % 10) ∷ [])

-- the digits of a number
unfoldable pub decimal : ℕ → List ℕ
unfolding decimal_in
decimal n = decimal_in (suc n) n

-- a version as text
unfoldable pub print_semver : Semver → List ℕ
unfolding decimal
print_semver v = decimal v.major ++ (b'.' ∷ (decimal v.minor ++ (b'.' ∷ decimal v.patch)))

pub digits_value-snoc :
    (acc : ℕ) (xs : List ℕ) (c : ℕ)
    → digits_value acc (xs ++ (c ∷ [])) ≡ 10 * digits_value acc xs + (c - b'0')
unfolding digits_value
digits_value-snoc acc [] c = refl
digits_value-snoc acc (x ∷ xs) c = digits_value-snoc (10 * acc + (x - b'0')) xs c

-- With enough digits the number is read back.
pub digits_value-decimal_in : (k n : ℕ) → n < k → digits_value 0 (decimal_in k n) ≡ n
unfolding decimal_in digits_value
digits_value-decimal_in zero n h = absurd (omega arith)
digits_value-decimal_in (suc k) n h = elim (Bool-cases (ltb n 10)) [
  | inl t ↦ rw t (ground (arith, t))
  | inr f ↦ rw f (
      digits_value-snoc 0 (decimal_in k (n / 10)) (b'0' + n % 10)
      ∙ ground (arith, f, h, digits_value-decimal_in k (n / 10) (ground (arith, f, h))))
]

pub every-snoc :
    (p : ℕ → Bool) (xs : List ℕ) (c : ℕ)
    → every p xs ≡ true
    → p c ≡ true
    → every p (xs ++ (c ∷ [])) ≡ true
unfolding every
every-snoc p [] c h t = ground (arith, t)
every-snoc p (x ∷ xs) c h t = ground (arith, every-snoc p xs c)

pub decimal_in-digits : (k n : ℕ) → every is_digit (decimal_in k n) ≡ true
unfolding decimal_in every is_digit
decimal_in-digits zero n = refl
decimal_in-digits (suc k) n = elim (Bool-cases (ltb n 10)) [
  | inl t ↦ rw t (ground (arith, t))
  | inr f ↦ rw f (
      every-snoc is_digit (decimal_in k (n / 10)) (b'0' + n % 10) (decimal_in-digits k (n / 10))
        (ground arith))
]

pub decimal_in-not_nil : (k n : ℕ) → n < k → is_nil (decimal_in k n) ≡ false
unfolding decimal_in
decimal_in-not_nil zero n h = absurd (omega arith)
decimal_in-not_nil (suc k) n h = elim (Bool-cases (ltb n 10)) [
  | inl t ↦ rw t refl
  | inr f ↦ rw f (not_nil_snoc (decimal_in k (n / 10)) (b'0' + n % 10))
]
  where
    not_nil_snoc : (xs : List ℕ) (c : ℕ) → is_nil (xs ++ (c ∷ [])) ≡ false
    not_nil_snoc [] c = refl
    not_nil_snoc (x ∷ xs) c = refl

pub decimal-all_digits : (n : ℕ) → all_digits (decimal n) ≡ true
unfolding decimal all_digits
decimal-all_digits n =
    ground (arith, decimal_in-digits (suc n) n, decimal_in-not_nil (suc n) n (omega arith))

pub atoi-decimal : (n : ℕ) → n ≤ max_int → atoi (decimal n) ≡ some n
unfolding decimal atoi
atoi-decimal n h = rw (digits_value-decimal_in (suc n) n (omega arith)) (ground (arith, h))

pub split_dots-digits :
    (xs rest : List ℕ)
    → every is_digit xs ≡ true
    → split_dots (xs ++ (b'.' ∷ rest)) ≡ xs ∷ split_dots rest
unfolding split_dots every is_digit
split_dots-digits [] rest h = refl
split_dots-digits (x ∷ xs) rest h = ground (arith, h, split_dots-digits xs rest)

pub split_dots-last : (xs : List ℕ) → every is_digit xs ≡ true → split_dots xs ≡ xs ∷ []
unfolding split_dots every is_digit
split_dots-last [] h = refl
split_dots-last (x ∷ xs) h = ground (arith, h, split_dots-last xs)
