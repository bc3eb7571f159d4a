-- ===== src/Knowledge/Semver/RoundTrip.antt =====
-- A printed version is read back by parseSemver of internal/knowledge/semver.go.
use oh_my_code_agent.Prelude.{
  ℕ, suc, Bool, true, false, some, List, [], ◌∷◌, ◌++◌, ◌≤◌, ◌≡◌, refl, ap, ◌∙◌, arith, every,
}
use oh_my_code_agent.Hub.Repair.{trim_space}
use oh_my_code_agent.Knowledge.Semver.{Semver}
use oh_my_code_agent.Knowledge.Semver.Parse.{
  max_int, is_digit, is_nil, cut_suffix, split_dots, version_of_parts, parse_semver,
}
use oh_my_code_agent.Knowledge.Semver.Decimal.{
  decimal_in, decimal, print_semver, decimal_in-digits, decimal_in-not_nil, decimal-all_digits,
  atoi-decimal, split_dots-digits, split_dots-last,
}
use oh_my_code_agent.Knowledge.Semver.Trim.{IsSuffix, is_core, cut_suffix-core, trim_space-core}

every-append :
    (p : ℕ → Bool) (xs ys : List ℕ)
    → every p xs ≡ true
    → every p ys ≡ true
    → every p (xs ++ ys) ≡ true
unfolding every
every-append p [] ys h t = t
every-append p (x ∷ xs) ys h t = ground (arith, h, every-append p xs ys (ground (arith, h)) t)

digits-core : (xs : List ℕ) → every is_digit xs ≡ true → every is_core xs ≡ true
unfolding every
digits-core [] h = refl
digits-core (x ∷ xs) h = ground (arith, h, digits-core xs (ground (arith, h)))

decimal-core : (n : ℕ) → every is_core (decimal n) ≡ true
unfolding decimal
decimal-core n = digits-core (decimal_in (suc n) n) (decimal_in-digits (suc n) n)

dotted-core : (xs : List ℕ) → every is_core xs ≡ true → every is_core (b'.' ∷ xs) ≡ true
unfolding every is_digit
dotted-core xs h = ground (arith, h)

print_semver-core : (v : Semver) → every is_core (print_semver v) ≡ true
unfolding print_semver
print_semver-core v = every-append is_core (decimal v.major) _ (decimal-core v.major) (
    dotted-core _ (
      every-append is_core (decimal v.minor) _ (decimal-core v.minor)
        (dotted-core (decimal v.patch) (decimal-core v.patch))))

decimal-digits : (n : ℕ) → every is_digit (decimal n) ≡ true
unfolding decimal
decimal-digits n = decimal_in-digits (suc n) n

split_dots-print_semver :
    (v : Semver)
    → split_dots (print_semver v) ≡ decimal v.major ∷ decimal v.minor ∷ decimal v.patch ∷ []
unfolding print_semver
split_dots-print_semver v =
    split_dots-digits (decimal v.major) _ (decimal-digits v.major)
    ∙ ap (λ l. decimal v.major ∷ l)
        (split_dots-digits (decimal v.minor) _ (decimal-digits v.minor)
          ∙ ap (λ l. decimal v.minor ∷ l)
              (split_dots-last (decimal v.patch) (decimal-digits v.patch)))

version_of_parts-decimal :
    (v : Semver)
    → v.major ≤ max_int
    → v.minor ≤ max_int
    → v.patch ≤ max_int
    → version_of_parts (decimal v.major ∷ decimal v.minor ∷ decimal v.patch ∷ []) ≡ some v
unfolding version_of_parts
version_of_parts-decimal v h i j = rw (decimal-all_digits v.major) (
    rw (decimal-all_digits v.minor) (
      rw (decimal-all_digits v.patch) (
        rw (atoi-decimal v.major h)
          (rw (atoi-decimal v.minor i) (rw (atoi-decimal v.patch j) refl)))))

trim_space-text :
    (text suffix : List ℕ)
    → is_nil text ≡ false
    → every is_core text ≡ true
    → IsSuffix suffix
    → (rest : List ℕ) × IsSuffix rest × (trim_space (text ++ suffix) ≡ text ++ rest)
trim_space-text [] suffix some_text h s = absurd (ground arith)
trim_space-text (x ∷ xs) suffix some_text h s = trim_space-core x xs suffix h s

print_semver-not_nil : (v : Semver) → is_nil (print_semver v) ≡ false
unfolding print_semver decimal
print_semver-not_nil v =
    append-not_nil (decimal_in (suc v.major) v.major) _
      (decimal_in-not_nil (suc v.major) v.major (omega arith))
  where
    append-not_nil : (xs ys : List ℕ) → is_nil xs ≡ false → is_nil (xs ++ ys) ≡ false
    append-not_nil [] ys h = absurd (ground arith)
    append-not_nil (x ∷ xs) ys h = refl

-- A version whose parts are ints is read back from its decimal print, whatever prerelease or build text
-- follows it after a `-` or a `+`, spaces at the end included.
pub parse_semver-print_semver :
    (v : Semver) (suffix : List ℕ)
    → v.major ≤ max_int
    → v.minor ≤ max_int
    → v.patch ≤ max_int
    → IsSuffix suffix
    → parse_semver (print_semver v ++ suffix) ≡ some v
unfolding parse_semver
parse_semver-print_semver v suffix h i j s =
    let (rest, t, e) =
      trim_space-text (print_semver v) suffix (print_semver-not_nil v) (print_semver-core v) s in
    ap (λ l. version_of_parts (split_dots (cut_suffix l))) e
    ∙ ap (λ l. version_of_parts (split_dots l))
        (cut_suffix-core (print_semver v) rest (print_semver-core v) t)
    ∙ ap version_of_parts (split_dots-print_semver v)
    ∙ version_of_parts-decimal v h i j
