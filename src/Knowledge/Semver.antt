-- ===== src/Knowledge/Semver.antt =====
-- The comparison of versions of internal/knowledge/semver.go, and the loop of VersionSatisfiesRange on
-- a parsed version and range. A version's parts are not negative, so no difference of them overflows.
pub mod Order
pub mod Parse
pub mod Decimal
pub mod Trim
pub mod RoundTrip
use oh_my_code_agent.Prelude.{ℕ, Bool, true, false, List, [], ◌∷◌, not, if◌then◌else◌, ltb, ◌==◌}

-- `semver`
pub record Semver : Type 0 where
  pub major : ℕ
  pub minor : ℕ
  pub patch : ℕ

-- the -1, 0 and 1 that `compare` returns
pub data Sign : Type 0 where
  negative equal positive : Sign

-- `sign` of a difference
unfoldable pub sign : ℕ → ℕ → Sign
sign m n = if ltb n m then positive else (if ltb m n then negative else equal)

-- `compare`
unfoldable pub compare : Semver → Semver → Sign
unfolding sign
compare v o =
    if not (v.major == o.major)
    then sign v.major o.major
    else (if not (v.minor == o.minor) then sign v.minor o.minor else sign v.patch o.patch)

-- The operator of a comparator term; a term without one has `eq`.
pub data Comparator : Type 0 where
  ge le gt lt eq : Comparator

-- `versionRangeTerm`
pub record VersionRangeTerm : Type 0 where
  pub op : Comparator
  pub version : Semver

-- the switch of the loop
unfoldable pub holds : Comparator → Sign → Bool
holds ge negative = false
holds ge _ = true
holds le positive = false
holds le _ = true
holds gt positive = true
holds gt _ = false
holds lt negative = true
holds lt _ = false
holds eq equal = true
holds eq _ = false

-- the loop of `VersionSatisfiesRange`
unfoldable pub satisfies_terms : Semver → List VersionRangeTerm → Bool
unfolding compare holds
satisfies_terms v [] = true
satisfies_terms v (t ∷ ts) =
    let rest = satisfies_terms v ts in
    if not (holds t.op (compare v t.version)) then false else rest
