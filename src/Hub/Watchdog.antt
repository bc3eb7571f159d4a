-- ===== src/Hub/Watchdog.antt =====
-- `CheckCallLoop` of internal/hub/watchdog.go. A threshold of 0 stands for any that is not positive.
pub mod Loops
pub mod Quorum
pub mod Ngram
use oh_my_code_agent.Prelude.{
  ℕ, String, Bool, true, false, Option, none, some, List, [], ◌∷◌, ◌++◌, ◌+◌, ◌-◌, ◌*◌, ◌&&◌, ◌||◌,
  reverse, length, if◌then◌else◌, ltb, leb, ◌==◌, str_eq, zero, suc,
}

pub data LoopFault : Type 0 where
  identical_call_loop : LoopFault

-- the threshold in force
unfoldable pub call_threshold : ℕ → ℕ
call_threshold threshold = if leb threshold 1 then 3 else threshold

-- the loop from the last call back: how many calls equal it before one that differs
unfoldable pub count_same : String → List String → ℕ
count_same last [] = 0
count_same last (h ∷ hs) = let rest = suc (count_same last hs) in if str_eq h last then rest else 0

-- `last` and the loop
unfoldable pub count_last : List String → ℕ
unfolding count_same
count_last [] = 0
count_last (last ∷ hs) = count_same last (last ∷ hs)

-- `CheckCallLoop`
unfoldable pub check_call_loop : List String → ℕ → Option LoopFault
unfolding call_threshold count_last
check_call_loop history threshold =
    if ltb (length history) (call_threshold threshold)
    then none
    else (if leb (call_threshold threshold) (count_last (reverse history))
        then some identical_call_loop
        else none)
