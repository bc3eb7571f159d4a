-- ===== src/Hub/Watchdog/Ngram/Stretches.antt =====
-- Stretches of words, as DetectNgramLoop of internal/hub/watchdog.go joins them.
use oh_my_code_agent.Prelude.{[], ◌∷◌, ap, str_append, ℕ, zero, suc, String, List, ◌≡◌, refl}
use oh_my_code_agent.Hub.Watchdog.Ngram.{join_first, drop, join_at}

-- the `n` words from a position on, fewer where the text ends
abbrev pub stretch : List String → ℕ → ℕ → List String
stretch [] i n = []
stretch (w ∷ ws) (suc i) n = stretch ws i n
stretch (w ∷ ws) zero zero = []
stretch (w ∷ ws) zero (suc n) = w ∷ stretch ws zero n

-- words with a space between any two
abbrev pub spaced : List String → String
spaced [] = ""
spaced (w ∷ []) = w
spaced (w ∷ v ∷ ws) = str_append w (str_append " " (spaced (v ∷ ws)))

pub join_first-spaced : (n : ℕ) (ws : List String) → join_first n ws ≡ spaced (stretch ws 0 n)
unfolding join_first
join_first-spaced zero [] = refl
join_first-spaced zero (w ∷ ws) = refl
join_first-spaced (suc n) [] = refl
join_first-spaced (suc zero) (w ∷ []) = refl
join_first-spaced (suc zero) (w ∷ v ∷ ws) = refl
join_first-spaced (suc (suc n)) (w ∷ []) = refl
join_first-spaced (suc (suc n)) (w ∷ v ∷ ws) =
    ap (λ t. str_append w (str_append " " t)) (join_first-spaced (suc n) (v ∷ ws))

pub join_at-spaced :
    (words : List String) (i n : ℕ) → join_at words i n ≡ spaced (stretch words i n)
unfolding join_at drop
join_at-spaced words zero n = join_first-spaced n words
join_at-spaced [] (suc i) n = join_first-spaced n []
join_at-spaced (w ∷ ws) (suc i) n = join_at-spaced ws i n
