-- ===== src/Hub/Watchdog/Ngram/Repeated.antt =====
-- What DetectNgramLoop of internal/hub/watchdog.go detects.
use Prim.Native.Nat.{◌^◌}
use oh_my_code_agent.Prelude.{
  Bool, false, some, ◌∙◌, ◌⊎◌, ℕ, zero, suc, String, true, List, ◌+◌, ◌-◌, ◌*◌, ◌≤◌, ◌<◌, ◌≡◌, ◌↔◌,
  refl, sym, subst, arith, ltb, leb, str_eq, str_eq_iff, length, Bool-cases, inl, inr,
}
use native.Mathlib.Decide.{dec_lt}
use oh_my_code_agent.Hub.Watchdog.Ngram.{
  ngram_length, repeat_threshold, join_at, int_product, scan_rounds, count_consecutive, scan_from,
  scan_words, detect_ngram_loop,
}
use oh_my_code_agent.Hub.Watchdog.Ngram.Stretches.{stretch, spaced, join_at-spaced}
use oh_my_code_agent.Hub.Watchdog.Ngram.Window.{IsTail, scan_window-IsTail}

-- From a start on, the next so many stretches of `n` words lie inside the text and read `target`.
pub data Repeats (words : List String) (n : ℕ) (target : String) : ℕ → ℕ → Type 0 where
  nothing_left : {start : ℕ} → Repeats words n target start 0
  again :
      {start left : ℕ}
      → start + n ≤ length words
      → spaced (stretch words start n) ≡ target
      → Repeats words n target (start + n) left
      → Repeats words n target start (suc left)

int_product_small :
    (n threshold : ℕ) → n * threshold < 2 ^ 63 → int_product n threshold ≡ n * threshold
unfolding int_product
int_product_small n threshold h = omega (arith, h)

rounds_short :
    (count n threshold : ℕ)
    → n * threshold < 2 ^ 63
    → count < n * threshold
    → scan_rounds count (int_product n threshold) ≡ 0
unfolding scan_rounds
rounds_short count n threshold h short =
    rw (int_product_small n threshold h) (ground (arith, h, short))

rounds_long :
    (count n threshold : ℕ)
    → n * threshold < 2 ^ 63
    → n * threshold ≤ count
    → scan_rounds count (int_product n threshold) ≡ suc (count - n * threshold)
unfolding scan_rounds
rounds_long count n threshold h long =
    rw (int_product_small n threshold h) (ground (arith, h, long))

product_bound : (n threshold : ℕ) → 1 ≤ threshold → n ≤ n * threshold
product_bound n zero h = absurd (omega arith)
product_bound n (suc t) h = omega arith

module _ (words : List String) (n : ℕ) where
  count→Repeats :
      (target : String) (left start c : ℕ)
      → c + left ≤ count_consecutive words n target left start c
      → Repeats words n target start left
  unfolding count_consecutive
  count→Repeats target zero start c h = nothing_left
  count→Repeats target (suc left) start c h = elim (Bool-cases (ltb (length words) (start + n))) [
    | inl over ↦ absurd (ground (arith, over, h))
    | inr within ↦ elim (Bool-cases (str_eq (join_at words start n) target)) [
      | inl t ↦
          again (ground (arith, within))
            (sym (join_at-spaced words start n) ∙ (str_eq_iff (join_at words start n) target).0 t)
            (count→Repeats target left (start + n) (suc c) (ground (arith, within, t, h)))
      | inr f ↦ absurd (ground (arith, within, f, h))
    ]
  ]

  Repeats→count :
      (target : String) {left start : ℕ} (c : ℕ)
      → Repeats words n target start left
      → c + left ≤ count_consecutive words n target left start c
  unfolding count_consecutive
  Repeats→count target c nothing_left = ground arith
  Repeats→count target c (again {start} room same more) = ground (
    arith,
    room,
    (str_eq_iff (join_at words start n) target).1 (join_at-spaced words start n ∙ same),
    Repeats→count target (suc c) more,
  )

  -- a stretch of `n` words at `i` that is repeated so often in a row that `threshold` of them are there
  abbrev pub Loop : ℕ → ℕ → Type 0
  Loop threshold i = Repeats words n (spaced (stretch words i n)) i threshold

  Repeats-room :
      (target : String) {left start : ℕ}
      → start ≤ length words
      → Repeats words n target start left
      → start + n * left ≤ length words
  Repeats-room target h nothing_left = omega arith
  Repeats-room target h (again {start} {left} room same more) =
      omega (arith, Repeats-room target room more)

  scan_from-Loop :
      (threshold left i : ℕ)
      → 1 ≤ threshold
      → (i + left + n * threshold ≤ suc (length words))
      → scan_from words n threshold left i ≡ some true
      → (j : ℕ) × Loop threshold j
  unfolding scan_from
  scan_from-Loop threshold zero i positive room h = absurd (ground (arith, h))
  scan_from-Loop zero (suc left) i positive room h = absurd (omega arith)
  scan_from-Loop (suc thr) (suc left) i positive room h =
      elim (Bool-cases
        (leb (suc thr) (count_consecutive words n (join_at words i n) thr (i + n) 1))) [
          | inl t ↦ (
            i,
            subst (λ x. Repeats words n x i (suc thr)) (join_at-spaced words i n)
                (again (omega arith) (sym (join_at-spaced words i n))
                  (count→Repeats (join_at words i n) thr (i + n) 1 (ground (arith, t)))),
          )
          | inr f ↦
              scan_from-Loop (suc thr) left (suc i) positive (omega arith) (ground (arith, f, h))
        ]

  Loop-scan_from :
      (threshold left i j : ℕ)
      → 1 ≤ threshold
      → i ≤ j
      → j < i + left
      → Loop threshold j
      → scan_from words n threshold left i ≡ some true
  unfolding scan_from
  Loop-scan_from threshold zero i j positive low high m = absurd (omega arith)
  Loop-scan_from zero (suc left) i j positive low high m = absurd (omega arith)
  Loop-scan_from (suc thr) (suc left) i j positive low high (again room same more) =
      elim (dec_lt i j) [
        | yes later ↦ ground (
          arith,
          room,
          Loop-scan_from (suc thr) left (suc i) j positive (omega arith) (omega arith)
              (again room same more),
        )
        | no now ↦
            let e : i ≡ j = omega arith in
            ground (
              arith,
              e,
              room,
              subst (λ x. 1 + thr ≤ count_consecutive words n (join_at words x n) thr (x + n) 1)
                  (sym e)
                  (Repeats→count (join_at words j n) 1 (
                    subst (λ x. Repeats words n x (j + n) thr) (sym (join_at-spaced words j n))
                      more)),
            )
      ]

  -- Where every round has room, there is an answer.
  scan_from-some :
      (threshold left i : ℕ)
      → i + left + n ≤ suc (length words)
      → (b : Bool) × (scan_from words n threshold left i ≡ some b)
  unfolding scan_from
  scan_from-some threshold zero i room = (false, refl)
  scan_from-some threshold (suc left) i room =
      let (b, h) = scan_from-some threshold left (suc i) (omega arith) in
      elim (Bool-cases
        (leb threshold (count_consecutive words n (join_at words i n) (threshold - 1) (i + n) 1))) [
          | inl t ↦ (true, ground (arith, t))
          | inr f ↦ (b, ground (arith, f, h))
        ]

  start_inside : (threshold j : ℕ) → 1 ≤ threshold → Loop threshold j → j ≤ length words
  start_inside zero j h m = absurd (omega arith)
  start_inside (suc thr) j h (again room same more) = omega arith

  scan_words_short :
      (threshold : ℕ)
      → n * threshold < 2 ^ 63
      → length words < n * threshold
      → scan_words words n threshold ≡ some false
  unfolding scan_words scan_from
  scan_words_short threshold small short =
      rw (rounds_short (length words) n threshold small short) refl

  scan_words_long :
      (threshold : ℕ)
      → n * threshold < 2 ^ 63
      → n * threshold ≤ length words
      → scan_words words n threshold
        ≡ scan_from words n threshold (suc (length words - n * threshold)) 0
  unfolding scan_words
  scan_words_long threshold small long = rw (rounds_long (length words) n threshold small long) refl

  scan_words_iff :
      (threshold : ℕ)
      → 1 ≤ threshold
      → n * threshold < 2 ^ 63
      → ((scan_words words n threshold ≡ some true) ↔ ((j : ℕ) × Loop threshold j))
        × ((b : Bool) × (scan_words words n threshold ≡ some b))
  scan_words_iff threshold positive small = elim (dec_lt (length words) (n * threshold)) [
    | yes short ↦
        let none_found = scan_words_short threshold small short in
        (
          (
            λ h. absurd (ground (arith, none_found, h)),
            λ (j, m). absurd (
                omega (
                  arith,
                  short,
                  Repeats-room (spaced (stretch words j n)) (start_inside threshold j positive m) m,
                )),
          ),
          (false, none_found),
        )
    | no long ↦
        let scanned = scan_words_long threshold small (omega (arith, long)) in
        let (b, h) =
          scan_from-some threshold (suc (length words - n * threshold)) 0
            (omega (arith, long, product_bound n threshold positive)) in
        (
          (
            λ t.
                scan_from-Loop threshold (suc (length words - n * threshold)) 0 positive
                  (omega (arith, long)) (sym scanned ∙ t),
            λ (j, m).
                scanned
                ∙ Loop-scan_from threshold (suc (length words - n * threshold)) 0 j positive
                    (omega arith)
                    (omega (
                      arith,
                      long,
                      Repeats-room (spaced (stretch words j n))
                          (start_inside threshold j positive m) m,
                    ))
                    m,
          ),
          (b, scanned ∙ h),
        )
  ]

-- The length in force is the given one, or 8 for one that is not positive.
abbrev pub IsLength : ℕ → ℕ → Type 0
IsLength given n = ((1 ≤ given) × (n ≡ given)) ⊎ ((given ≡ 0) × (n ≡ 8))

-- The threshold in force is the given one, or 4 for one below 2.
abbrev pub IsThreshold : ℕ → ℕ → Type 0
IsThreshold given threshold = ((2 ≤ given) × (threshold ≡ given)) ⊎ ((given ≤ 1) × (threshold ≡ 4))

-- Let `n` and `t` be the length and the threshold in force, with a product that an int can hold, and `window`
-- the last 2000 words. Then the scan ends with an answer, which is true exactly if somewhere in the window `t`
-- stretches of `n` words in a row are one text.
pub detect_ngram_loop_iff :
    (words window : List String) (given threshold n t : ℕ)
    → IsTail words window
    → IsLength given n
    → IsThreshold threshold t
    → n * t < 2 ^ 63
    → ((detect_ngram_loop words given threshold ≡ some true) ↔ ((i : ℕ) × Loop window n t i))
      × ((b : Bool) × (detect_ngram_loop words given threshold ≡ some b))
unfolding detect_ngram_loop ngram_length repeat_threshold
detect_ngram_loop_iff words window given threshold n t tail len thr small =
    let w = scan_window-IsTail words window tail in
    let l : ngram_length given ≡ n = ground (arith, len) in
    let r : repeat_threshold threshold ≡ t = ground (arith, thr) in
    rw (w, l, r) (scan_words_iff window n t (omega (arith, thr)) small)
