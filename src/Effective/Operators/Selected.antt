-- ===== src/Effective/Operators/Selected.antt =====
-- Which source REPLACE and UNION_BY_ID of internal/effective/merge.go select, and when.
use oh_my_code_agent.Prelude.{ℕ, String, some, List, [], ◌∷◌, ◌≡◌, ◌≤◌, ◌<◌, ◌⊎◌, In}
use oh_my_code_agent.Prelude.Keys.{lookup, string_eq}
use oh_my_code_agent.Effective.Types.{Candidate}
use oh_my_code_agent.Effective.Operators.{Race, RankRun, race_step, rank_run, higher, minus_one}

-- The rank is that of the candidate's scope, and it is below `r`.
abbrev pub IsRankedBelow : List (String × ℕ) → ℕ → Candidate → Type 0
IsRankedBelow scope_rank r c = (s : ℕ) × (lookup scope_rank c.scope.kind ≡ some s) × (s < r)

-- Among the sources, one for each content, `w` has the rank `r`, which is -1 or above, and every other one has
-- a rank below it.
abbrev pub IsTop : List (String × ℕ) → List Candidate → Candidate → ℕ → Type 0
IsTop scope_rank cs w r =
    In w cs
    × (lookup scope_rank w.scope.kind ≡ some r)
    × (minus_one ≤ r)
    × ((c : Candidate) → In c cs → (c ≡ w) ⊎ IsRankedBelow scope_rank r c)

module _ (scope_rank : List (String × ℕ)) where
  abbrev run_from : List Candidate → Race → RankRun
  run_from = rank_run higher (lookup scope_rank)

  abbrev step : ℕ → Candidate → Race → Race
  step = race_step higher (lookup scope_rank)

  -- the race that `w` has won at the rank `r`
  abbrev won : Candidate → ℕ → Race
  won w r = record { best = r; winners = w ∷ [] }

  -- A race in which no candidate of the rank `r` or a higher one was seen.
  abbrev IsOpen : ℕ → Race → Type 0
  IsOpen r race = (race.best < r) ⊎ ((race.winners ≡ []) × (race.best ≤ r))
