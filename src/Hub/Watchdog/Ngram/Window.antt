-- ===== src/Hub/Watchdog/Ngram/Window.antt =====
-- The end of the text that DetectNgramLoop of internal/hub/watchdog.go scans.
use oh_my_code_agent.Prelude.{
  [], ◌∷◌, ◌++◌, ap, ◌∙◌, ◌⊎◌, String, List, ◌+◌, ◌-◌, ◌≤◌, ◌≡◌, refl, arith, length, inl, inr,
}
use native.Mathlib.Decide.{dec_lt}
use oh_my_code_agent.Hub.Watchdog.Ngram.{scan_window, drop}

-- `window` is the end of the words: 2000 of them, or all where there are no more.
abbrev pub IsTail : List String → List String → Type 0
IsTail words window =
    (before : List String) × (words ≡ before ++ window)
    × ((length window ≡ 2000) ⊎ ((before ≡ []) × (length window ≤ 2000)))

length-tail :
    (before window : List String) → length (before ++ window) ≡ length before + length window
length-tail [] window = omega arith
length-tail (w ∷ before) window = ground (arith, length-tail before window)

length-nil : (ws : List String) → length ws ≡ 0 → ws ≡ []
length-nil [] h = refl
length-nil (w ∷ ws) h = absurd (omega (arith, h))

drop-append : (before window : List String) → drop (length before) (before ++ window) ≡ window
unfolding drop
drop-append [] window = refl
drop-append (w ∷ before) window = drop-append before window

pub scan_window-IsTail :
    (words window : List String) → IsTail words window → scan_window words ≡ window
unfolding scan_window
scan_window-IsTail words window (before, e, inl full) =
    let long : length words ≡ length before + 2000 =
      ap length e ∙ length-tail before window ∙ ap (λ k. length before + k) full in
    elim (dec_lt 2000 (length words)) [
      | yes more ↦
          let cut : length words - 2000 ≡ length before = omega (arith, long) in
          ground (arith, more, cut, ap (drop (length before)) e ∙ drop-append before window)
      | no less ↦
          let nothing : length before ≡ 0 = omega (arith, long, less) in
          ground (arith, less, e ∙ ap (λ b. b ++ window) (length-nil before nothing))
    ]
scan_window-IsTail words window (before, e, inr (nothing, short)) =
    let same : words ≡ window = e ∙ ap (λ b. b ++ window) nothing in
    ground (arith, short, same, ap length same)
