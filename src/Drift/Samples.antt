-- ===== src/Drift/Samples.antt =====
-- `selectSamples` of internal/drift/group.go. A limit of 0 stands for any limit that is not positive.
pub mod Covers
use oh_my_code_agent.Prelude.{
  ℕ, String, Bool, List, [], ◌∷◌, ◌++◌, ◌-◌, length, if◌then◌else◌, ltb, leb, suc, zero, ◌||◌, ◌==◌,
}
use oh_my_code_agent.Prelude.Keys.{contains, string_eq}

-- `xs[:n]`
unfoldable pub take {ℓ} : {A : Type ℓ} → ℕ → List A → List A
take zero xs = []
take (suc n) [] = []
take (suc n) (x ∷ xs) = x ∷ take n xs

-- the end of `selectSamples`: the first rows of the buckets cut at the limit, or filled up to it
unfoldable pub fill {ℓ} : {A : Type ℓ} → ℕ → List A → List A → List A
unfolding take
fill most reps rest =
    if leb most (length reps) then take most reps else reps ++ take (most - length reps) rest

module _ {A : Type 0} (bucket_key : A → String) where
  -- the first loop: the first row of each bucket, and the rows it leaves unused
  unfoldable pub representatives : List String → List A → List A
  representatives seen [] = []
  representatives seen (a ∷ rows) =
      let skip = representatives seen rows in
      let kept = a ∷ representatives (bucket_key a ∷ seen) rows in
      if contains seen (bucket_key a) then skip else kept

  unfoldable pub unused : List String → List A → List A
  unused seen [] = []
  unused seen (a ∷ rows) =
      let skip = a ∷ unused seen rows in
      let kept = unused (bucket_key a ∷ seen) rows in
      if contains seen (bucket_key a) then skip else kept

  -- the limit that is in force
  unfoldable pub effective_limit : List A → ℕ → ℕ
  effective_limit matrix limit =
      if (limit == 0) || ltb (length matrix) limit then length matrix else limit

  unfoldable pub select_samples : List A → ℕ → List A
  unfolding representatives unused effective_limit fill
  select_samples matrix limit =
      fill (effective_limit matrix limit) (representatives [] matrix) (unused [] matrix)
