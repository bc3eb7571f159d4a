-- ===== src/Knowledge/Semver/Parse.antt =====
-- parseSemver, parseVersionRange and VersionSatisfiesRange of internal/knowledge/semver.go, on the code
-- points of a text. An int is at most 2 ^ 63 - 1.
use oh_my_code_agent.Prelude.{
  ℕ, Bool, true, false, Option, none, some, List, [], ◌∷◌, ◌+◌, ◌-◌, ◌*◌, ◌&&◌, ◌||◌, not, ◌==◌,
  leb, if◌then◌else◌, every,
}
use oh_my_code_agent.Hub.Repair.{is_space, trim_space}
use oh_my_code_agent.Knowledge.Semver.{
  Semver, Comparator, ge, le, gt, lt, eq, VersionRangeTerm, satisfies_terms,
}

abbrev pub max_int : ℕ
max_int = 9223372036854775807

-- `\d`
unfoldable pub is_digit : ℕ → Bool
is_digit c = leb b'0' c && leb c b'9'

abbrev pub is_nil : List ℕ → Bool
is_nil [] = true
is_nil (c ∷ cs) = false

-- `\d+`
unfoldable pub all_digits : List ℕ → Bool
unfolding every is_digit
all_digits cs = not (is_nil cs) && every is_digit cs

-- `core[:i]` for the first `-` or `+` at `i`
unfoldable pub cut_suffix : List ℕ → List ℕ
cut_suffix [] = []
cut_suffix (c ∷ cs) =
    let rest = cut_suffix cs in if (c == b'-') || (c == b'+') then [] else c ∷ rest

abbrev on_first : ℕ → List (List ℕ) → List (List ℕ)
on_first c [] = (c ∷ []) ∷ []
on_first c (p ∷ ps) = (c ∷ p) ∷ ps

-- the parts between the dots
unfoldable pub split_dots : List ℕ → List (List ℕ)
split_dots [] = [] ∷ []
split_dots (c ∷ cs) = let rest = split_dots cs in if c == b'.' then [] ∷ rest else on_first c rest

-- the number that digits denote, from the number of the digits before them
unfoldable pub digits_value : ℕ → List ℕ → ℕ
digits_value n [] = n
digits_value n (c ∷ cs) = digits_value (10 * n + (c - b'0')) cs

-- `strconv.Atoi` on digits; `none` is its range error
unfoldable pub atoi : List ℕ → Option ℕ
unfolding digits_value
atoi cs = if leb (digits_value 0 cs) max_int then some (digits_value 0 cs) else none

abbrev numbers : Option ℕ → Option ℕ → Option ℕ → Option Semver
numbers (some major) (some minor) (some patch) =
    some (record { major = major; minor = minor; patch = patch })
numbers _ _ _ = none

-- `semverPattern` on the parts, and the numbers of its groups
unfoldable pub version_of_parts : List (List ℕ) → Option Semver
unfolding all_digits atoi
version_of_parts (major ∷ minor ∷ patch ∷ []) =
    if all_digits major && (all_digits minor && all_digits patch)
    then numbers (atoi major) (atoi minor) (atoi patch)
    else none
version_of_parts _ = none

-- `parseSemver`; `none` is an error
unfoldable pub parse_semver : List ℕ → Option Semver
unfolding trim_space cut_suffix split_dots version_of_parts
parse_semver s = version_of_parts (split_dots (cut_suffix (trim_space s)))

abbrev on_field : ℕ → List (List ℕ) → List (List ℕ)
on_field c [] = (c ∷ []) ∷ []
on_field c (f ∷ fs) = (c ∷ f) ∷ fs

-- `strings.Fields`: the runs of characters that are not spaces; the Bool says that one has begun
unfoldable pub fields_from : Bool → List ℕ → List (List ℕ)
unfolding is_space
fields_from begun [] = if begun then [] ∷ [] else []
fields_from begun (c ∷ cs) =
    let next = fields_from true cs in
    let skipped = fields_from false cs in
    if is_space c then (if begun then [] ∷ skipped else skipped) else on_field c next

unfoldable pub fields : List ℕ → List (List ℕ)
unfolding fields_from
fields s = fields_from false s

-- the operator of `rangeTermPattern`, and what follows it
unfoldable pub split_operator : List ℕ → Comparator × List ℕ
split_operator [] = (eq, [])
split_operator (c ∷ []) =
    if c == b'>'
    then (gt, [])
    else (if c == b'<' then (lt, []) else (if c == b'=' then (eq, []) else (eq, c ∷ [])))
split_operator (c ∷ d ∷ cs) =
    if c == b'>'
    then (if d == b'=' then (ge, cs) else (gt, d ∷ cs))
    else (if c == b'<'
        then (if d == b'=' then (le, cs) else (lt, d ∷ cs))
        else (if c == b'=' then (eq, d ∷ cs) else (eq, c ∷ d ∷ cs)))

abbrev term_of : Comparator → Option Semver → Option VersionRangeTerm
term_of op none = none
term_of op (some v) = some (record { op = op; version = v })

-- one round of the loop of `parseVersionRange`
unfoldable pub parse_term : List ℕ → Option VersionRangeTerm
unfolding split_operator version_of_parts split_dots
parse_term field =
    let (op, rest) = split_operator field in term_of op (version_of_parts (split_dots rest))

abbrev add_term :
    Option VersionRangeTerm → Option (List VersionRangeTerm) → Option (List VersionRangeTerm)
add_term (some t) (some ts) = some (t ∷ ts)
add_term _ _ = none

unfoldable pub parse_terms : List (List ℕ) → Option (List VersionRangeTerm)
unfolding parse_term
parse_terms [] = some []
parse_terms (f ∷ fs) = add_term (parse_term f) (parse_terms fs)

-- `parseVersionRange`; `none` is an error
unfoldable pub parse_version_range : List ℕ → Option (List VersionRangeTerm)
unfolding fields parse_terms
parse_version_range range_expr = elim (fields range_expr) [
  | [] ↦ none
  | f ∷ fs ↦ parse_terms (f ∷ fs)
]

-- `VersionSatisfiesRange`; `none` is an error
unfoldable pub version_satisfies_range : List ℕ → List ℕ → Option Bool
unfolding parse_semver parse_version_range satisfies_terms
version_satisfies_range exact_version range_expr = elim (parse_semver exact_version) [
  | none ↦ none
  | some v ↦ elim (parse_version_range range_expr) [
    | none ↦ none
    | some terms ↦ some (satisfies_terms v terms)
  ]
]
