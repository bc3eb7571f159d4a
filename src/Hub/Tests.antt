-- ===== src/Hub/Tests.antt =====
-- The scenarios of the theorems on the watchdog, and runs of the repair.
use Prim.Native.Nat.{◌^◌}
use oh_my_code_agent.Prelude.{
  none, Bool, inl, inr, ◌++◌, ◌⊎◌, ℕ, String, some, List, [], ◌∷◌, ◌≡◌, ◌≤◌, ◌↔◌, true, refl,
  str_eq, reverse, arith,
}
use oh_my_code_agent.Hub.Repair.{
  codes, json_auto_repair, scan_all, trim_space, byte_length, is_structured, trim_left, is_space,
  scan_step, string_step, plain_step, push, pop, close_scan, closers, max_repair_input_len,
}
use oh_my_code_agent.Hub.Repair.Document.{
  Place, Finishes, as_string, in_bare, in_quotes, one_closing, nothing_left, open_brace,
  open_bracket, open_string, letter_first, escape_first,
}
use oh_my_code_agent.Hub.Repair.Completed.{json_auto_repair_completes}
use oh_my_code_agent.Hub.Watchdog.{identical_call_loop, call_threshold, check_call_loop}
use oh_my_code_agent.Hub.Watchdog.Quorum.{Ratio, swarm_quorum_decision}
use oh_my_code_agent.Hub.Watchdog.Ngram.{
  ngram_length, repeat_threshold, scan_window, detect_ngram_loop, int_product, scan_rounds,
  scan_words, scan_from, count_consecutive, join_at, join_first, drop,
}
use oh_my_code_agent.Hub.Watchdog.Ngram.Repeated.{Loop, detect_ngram_loop_iff}
use oh_my_code_agent.Hub.Watchdog.Loops.{StartsWith, check_call_loop_iff}

-- `{"a":["x\n1"]}`, cut after the backslash
abbrev cut_text : List ℕ
unfolding codes
cut_text = codes "{\"a\":[\"x\\"

abbrev cut_off : List ℕ
unfolding codes
cut_off = codes "n1\"]}"

small : byte_length cut_text ≤ max_repair_input_len
unfolding byte_length codes
small = ground arith

whole-Finishes : Finishes Place.bare [] (cut_text ++ cut_off)
unfolding codes
whole-Finishes =
    let object = b'}' ∷ [] in
    let array = b']' ∷ object in
    let ending =
      one_closing b']' object object (inr refl) (one_closing b'}' [] [] (inl refl) nothing_left) in
    let after_x =
      escape_first b'n' array (codes "1\"]}") (in_quotes (codes "1") array array refl ending) in
    let word =
      open_string array (codes "x\\n1\"]}")
        (letter_first b'x' array (codes "\\n1\"]}") (ground arith) (ground arith) after_x) in
    let member =
      in_bare (codes ":") object (codes "[\"x\\n1\"]}") refl
        (open_bracket object (codes "\"x\\n1\"]}") (ground arith) word) in
    open_brace [] (codes "\"a\":[\"x\\n1\"]}") (ground arith)
      (as_string (codes "a") object (codes ":[\"x\\n1\"]}") refl member)

json_auto_repair_completes_example :
    (body ending : List ℕ) × ((trim_space cut_text ≡ body)
      ⊎ (trim_space cut_text ≡ body ++ (b'\\' ∷ [])))
    × (json_auto_repair cut_text ≡ body ++ ending)
    × Finishes Place.bare [] (json_auto_repair cut_text)
    × (cut_off ≡ [] → json_auto_repair cut_text ≡ trim_space cut_text)
unfolding trim_space trim_left is_space codes
json_auto_repair_completes_example =
    json_auto_repair_completes cut_text cut_off b'{' (codes "\"a\":[\"x\\") refl (inl refl)
      whole-Finishes small

-- It is completed after the `x`, so the escape is lost and nothing else.
repaired_escape :
    json_auto_repair cut_text
    ≡ codes "{\"a\":[\"x\"],\"_meta\":{\"truncated\":true,\"reason\":\"SLA_150S_EXCEEDED\"}}"
unfolding json_auto_repair is_structured trim_space trim_left is_space byte_length codes scan_all
    scan_step string_step plain_step push pop close_scan closers
repaired_escape = refl

-- The metadata follows the cut text after a comma, also where no member stands before it.
repaired_brace :
    json_auto_repair (codes "{")
    ≡ codes "{,\"_meta\":{\"truncated\":true,\"reason\":\"SLA_150S_EXCEEDED\"}}"
unfolding json_auto_repair is_structured trim_space trim_left is_space byte_length codes scan_all
    scan_step string_step plain_step push pop close_scan closers
repaired_brace = refl

check_call_loop_iff_example :
    (check_call_loop ("a" ∷ "b" ∷ "b" ∷ "b" ∷ []) 3 ≡ some identical_call_loop)
    ↔ (x : String) × StartsWith x (call_threshold 3) (reverse ("a" ∷ "b" ∷ "b" ∷ "b" ∷ []))
check_call_loop_iff_example = check_call_loop_iff ("a" ∷ "b" ∷ "b" ∷ "b" ∷ []) 3

abbrev half : Ratio
half = record { over = 1; under = 2; under_positive = omega arith }

half_done : (swarm_quorum_decision 5 10 120 half 100 150).0 ≡ true
unfolding swarm_quorum_decision
half_done = refl

abbrev stutter : List String
stutter = "so" ∷ "on" ∷ "and" ∷ "on" ∷ "and" ∷ "on" ∷ "and" ∷ []

stutter_detected : detect_ngram_loop stutter 2 3 ≡ some true
unfolding detect_ngram_loop scan_words int_product scan_rounds scan_from count_consecutive join_at
    join_first drop scan_window ngram_length repeat_threshold str_eq
stutter_detected = refl

-- The product of the length and the threshold wraps to 0, and the first slice panics.
overflow_panics : detect_ngram_loop stutter (2 ^ 62) 4 ≡ none
unfolding detect_ngram_loop scan_words int_product scan_rounds scan_from count_consecutive
    scan_window ngram_length repeat_threshold
overflow_panics = refl

detect_ngram_loop_iff_example :
    ((detect_ngram_loop stutter 2 3 ≡ some true) ↔ ((i : ℕ) × Loop stutter 2 3 i))
    × ((b : Bool) × (detect_ngram_loop stutter 2 3 ≡ some b))
detect_ngram_loop_iff_example =
    detect_ngram_loop_iff stutter stutter 2 3 2 3 ([], refl, inr (refl, omega arith))
      (inl (omega arith, refl)) (inl (omega arith, refl)) (omega arith)
