-- ===== src/Hub/Watchdog/Ngram.antt =====
-- DetectNgramLoop of internal/hub/watchdog.go, from the words that strings.Fields gives. The length and the
-- threshold are ints; 0 stands for one that is not positive.
pub mod Stretches
pub mod Window
pub mod Repeated
use Prim.Native.Nat.{◌%◌, ◌^◌}
use oh_my_code_agent.Prelude.{
  Option, none, some, ℕ, zero, suc, String, Bool, true, false, List, [], ◌∷◌, ◌+◌, ◌-◌, ◌*◌, ◌≤◌,
  ◌<◌, ◌≡◌, ◌↔◌, refl, sym, arith, if◌then◌else◌, ltb, leb, ◌==◌, str_eq, str_eq_iff, length,
  Bool-cases, inl, inr, str_append,
}

-- the length of the n-gram in force
unfoldable pub ngram_length : ℕ → ℕ
ngram_length n = if n == 0 then 8 else n

-- the threshold in force
unfoldable pub repeat_threshold : ℕ → ℕ
repeat_threshold threshold = if leb threshold 1 then 4 else threshold

unfoldable pub drop : ℕ → List String → List String
drop zero ws = ws
drop (suc n) [] = []
drop (suc n) (w ∷ ws) = drop n ws

-- the last 2000 words
unfoldable pub scan_window : List String → List String
unfolding drop
scan_window words = if ltb 2000 (length words) then drop (length words - 2000) words else words

-- `strings.Join(words[:n], " ")`
unfoldable pub join_first : ℕ → List String → String
join_first zero ws = ""
join_first (suc n) [] = ""
join_first (suc zero) (w ∷ ws) = w
join_first (suc (suc n)) (w ∷ []) = w
join_first (suc (suc n)) (w ∷ v ∷ ws) = str_append w (str_append " " (join_first (suc n) (v ∷ ws)))

-- `strings.Join(words[start:start+n], " ")`
unfoldable pub join_at : List String → ℕ → ℕ → String
unfolding drop join_first
join_at words start n = join_first n (drop start words)

-- the loop over `k`: `left` rounds are left, `next_start` is the start of the candidate
unfoldable pub count_consecutive : List String → ℕ → String → ℕ → ℕ → ℕ → ℕ
unfolding join_at
count_consecutive words n target zero next_start consecutive = consecutive
count_consecutive words n target (suc left) next_start consecutive =
    let more = count_consecutive words n target left (next_start + n) (suc consecutive) in
    if ltb (length words) (next_start + n)
    then consecutive
    else (if str_eq (join_at words next_start n) target then more else consecutive)

-- The loop over `i`, of which `left` rounds are left. A slice beyond the end panics, which is `none`.
unfoldable pub scan_from : List String → ℕ → ℕ → ℕ → ℕ → Option Bool
unfolding count_consecutive join_at
scan_from words n threshold zero i = some false
scan_from words n threshold (suc left) i =
    let rest = scan_from words n threshold left (suc i) in
    let consecutive = count_consecutive words n (join_at words i n) (threshold - 1) (i + n) 1 in
    if ltb (length words) (i + n)
    then none
    else (if leb threshold consecutive then some true else rest)

-- `n*repeatThreshold` as the residue of an int of 64 bits; from 2 ^ 63 on it is negative
unfoldable pub int_product : ℕ → ℕ → ℕ
int_product n threshold = (n * threshold) % 2 ^ 64

-- The rounds of the loop, and 0 where the first guard returns. The difference of a length and a negative
-- product may wrap to a negative number too.
unfoldable pub scan_rounds : ℕ → ℕ → ℕ
scan_rounds count product =
    if ltb product (2 ^ 63)
    then (if ltb count product then 0 else suc (count - product))
    else (if ltb (count + (2 ^ 64 - product)) (2 ^ 63) then suc (count + (2 ^ 64 - product)) else 0)

-- the scan of the window
unfoldable pub scan_words : List String → ℕ → ℕ → Option Bool
unfolding scan_from int_product scan_rounds
scan_words words n threshold =
    scan_from words n threshold (scan_rounds (length words) (int_product n threshold)) 0

-- `DetectNgramLoop`
unfoldable pub detect_ngram_loop : List String → ℕ → ℕ → Option Bool
unfolding scan_words scan_window ngram_length repeat_threshold
detect_ngram_loop words n threshold =
    scan_words (scan_window words) (ngram_length n) (repeat_threshold threshold)
