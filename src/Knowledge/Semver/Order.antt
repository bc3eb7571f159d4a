-- ===== src/Knowledge/Semver/Order.antt =====
-- Versions are in a total order, and a range is an interval of it.
use oh_my_code_agent.Prelude.{
  Bool, true, false, List, [], ◌∷◌, ◌≡◌, ◌≢◌, ◌↔◌, ◌<◌, ◌⊎◌, refl, arith,
}
use oh_my_code_agent.Knowledge.Semver.{
  Semver, Sign, negative, equal, positive, sign, compare, Comparator, ge, le, gt, lt, eq,
  VersionRangeTerm, holds, satisfies_terms,
}

-- The lexicographic order of the three parts.
abbrev pub IsBefore : Semver → Semver → Type 0
IsBefore a b =
    (a.major < b.major)
    ⊎ ((a.major ≡ b.major) × ((a.minor < b.minor) ⊎ ((a.minor ≡ b.minor) × (a.patch < b.patch))))

-- `compare` decides the lexicographic order of the parts: it is negative exactly if the first version
-- is before the second, positive exactly if it is after it, and zero exactly if they are equal.
pub compare_iff :
    (a b : Semver)
    → ((compare a b ≡ negative) ↔ IsBefore a b)
      × ((compare a b ≡ positive) ↔ IsBefore b a)
      × ((compare a b ≡ equal) ↔ (a ≡ b))
unfolding compare sign
compare_iff a b = (
  (λ h. ground (arith, h), λ h. ground (arith, h)),
  (λ h. ground (arith, h), λ h. ground (arith, h)),
  (λ h. ground (arith, h), λ h. ground (arith, h)),
)

-- The first version is the second one or before it.
abbrev pub IsAtMost : Semver → Semver → Type 0
IsAtMost a b = compare a b ≢ positive

abbrev sign_leb : Sign → Sign → Bool
sign_leb negative _ = true
sign_leb equal negative = false
sign_leb equal _ = true
sign_leb positive positive = true
sign_leb positive _ = false

compare_mono : (a b t : Semver) → IsAtMost a b → sign_leb (compare a t) (compare b t) ≡ true
unfolding compare sign
compare_mono a b t p = ground (arith, p)

holds_between :
    (op : Comparator) (r s t : Sign)
    → sign_leb r s ≡ true
    → sign_leb s t ≡ true
    → holds op r ≡ true
    → holds op t ≡ true
    → holds op s ≡ true
unfolding holds
holds_between ge r s t p q h k = ground (arith, p, q, h, k)
holds_between le r s t p q h k = ground (arith, p, q, h, k)
holds_between gt r s t p q h k = ground (arith, p, q, h, k)
holds_between lt r s t p q h k = ground (arith, p, q, h, k)
holds_between eq r s t p q h k = ground (arith, p, q, h, k)

term_between :
    (t : VersionRangeTerm) (a b c : Semver)
    → IsAtMost a b
    → IsAtMost b c
    → holds t.op (compare a t.version) ≡ true
    → holds t.op (compare c t.version) ≡ true
    → holds t.op (compare b t.version) ≡ true
term_between t a b c p q h k =
    holds_between t.op (compare a t.version) (compare b t.version) (compare c t.version)
      (compare_mono a b t.version p) (compare_mono b c t.version q) h k

-- A version between two versions that satisfy a range satisfies it.
pub satisfies_terms_between :
    (ts : List VersionRangeTerm) (a b c : Semver)
    → IsAtMost a b
    → IsAtMost b c
    → satisfies_terms a ts ≡ true
    → satisfies_terms c ts ≡ true
    → satisfies_terms b ts ≡ true
unfolding satisfies_terms
satisfies_terms_between [] a b c p q h k = refl
satisfies_terms_between (t ∷ ts) a b c p q h k =
    let head = term_between t a b c p q (ground (arith, h)) (ground (arith, k)) in
    ground
      (arith, head, satisfies_terms_between ts a b c p q (ground (arith, h)) (ground (arith, k)))
