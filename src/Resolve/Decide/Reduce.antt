-- ===== src/Resolve/Decide/Reduce.antt =====
-- The reduction of each profile's entries to one intent: `reduceGroup`, `sortedDistinctIntents` and
-- the grouping by profile in `resolveOne`.
use oh_my_code_agent.Prelude.{
  ℕ, String, Option, none, some, List, [], ◌∷◌, map, ◌&&◌, keep, leb, ◌==◌, if◌then◌else◌,
}
use oh_my_code_agent.Prelude.Keys.{contains, distinct, nat_eq}
use oh_my_code_agent.Prelude.Sort.{sort}
use oh_my_code_agent.Prelude.TextOrder.{str_leb}
use oh_my_code_agent.Domain.Levels.{Intent, required, denied, intent_eq, intent_text}
use oh_my_code_agent.Resolve.Candidates.{ProfileEntry}

unfoldable pub sticky : List Intent → Option Intent
sticky ds =
    if contains ds denied && contains ds required
    then none
    else if contains ds denied
    then some denied
    else if contains ds required
    then some required
    else none

-- a map with one key gives that key
unfoldable pub reduce_distinct : List Intent → Option Intent
unfolding sticky
reduce_distinct [] = sticky []
reduce_distinct (i ∷ []) = some i
reduce_distinct (i ∷ j ∷ ds) = sticky (i ∷ j ∷ ds)

abbrev pub intents : List ProfileEntry → List Intent
intents = map (λ e. e.intent)

-- `reduceGroup`; `none` is ok = false
unfoldable pub reduce_group : List ProfileEntry → Option Intent
unfolding reduce_distinct
reduce_group entries = reduce_distinct (distinct (intents entries))

-- `sortedDistinctIntents`
unfoldable pub sorted_distinct_intents : List ProfileEntry → List Intent
sorted_distinct_intents entries =
    sort (λ a b. str_leb (intent_text a) (intent_text b)) (distinct (intents entries))

-- `reducedProfile`
pub record ReducedProfile : Type 0 where
  pub idx : ℕ
  pub profile_id : String
  pub intent : Intent

-- the list of reduced profiles, or the candidates of the first profile that is ambiguous
pub data Reduction : Type 0 where
  reduced : List ReducedProfile → Reduction
  ambiguous : List Intent → Reduction

-- `byIdx[idx]`
unfoldable pub group : ℕ → List ProfileEntry → List ProfileEntry
group idx = keep (λ e. e.profile_idx == idx)

-- `order`
unfoldable pub profile_order : List ProfileEntry → List ℕ
profile_order entries = sort leb (distinct (map (λ e. e.profile_idx) entries))

abbrev pub head_id : List ProfileEntry → String
head_id [] = ""
head_id (e ∷ es) = e.profile_id

abbrev pub cons_reduced : ReducedProfile → Reduction → Reduction
cons_reduced r (reduced rs) = reduced (r ∷ rs)
cons_reduced r (ambiguous is) = ambiguous is

-- one round of the loop over `order`, before the rounds that follow
unfoldable pub reduce_step : ℕ → List ProfileEntry → Option Intent → Reduction → Reduction
reduce_step idx grp none rest = ambiguous (sorted_distinct_intents grp)
reduce_step idx grp (some i) rest =
    cons_reduced (record { idx = idx; profile_id = head_id grp; intent = i }) rest

unfoldable pub reduce_order : List ℕ → List ProfileEntry → Reduction
unfolding reduce_step
reduce_order [] entries = reduced []
reduce_order (idx ∷ order) entries =
    reduce_step idx (group idx entries) (reduce_group (group idx entries))
      (reduce_order order entries)

unfoldable pub reduce_applicable : List ProfileEntry → Reduction
unfolding reduce_order
reduce_applicable entries = reduce_order (profile_order entries) entries
