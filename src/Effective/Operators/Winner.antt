-- ===== src/Effective/Operators/Winner.antt =====
-- What the loop over the ranks of the candidates leaves: the best rank and those that have it.
use oh_my_code_agent.Prelude.{
  ℕ, String, Bool, true, false, Option, some, List, [], ◌∷◌, ◌≡◌, ◌⊎◌, inl, inr, refl, sym, ap,
  subst, ◌∙◌, arith, ◌==◌, In, Bool-cases, Option-cases,
}
use oh_my_code_agent.Effective.Types.{Candidate}
use oh_my_code_agent.Effective.Operators.{Race, RankRun, at_start, append_one, race_step, rank_run}

append_one-In : (c d : Candidate) (cs : List Candidate) → In d (append_one cs c) → In d cs ⊎ (d ≡ c)
append_one-In c d [] (inl e) = inr e
append_one-In c d [] (inr m) = absurd m
append_one-In c d (x ∷ cs) (inl e) = inl (inl e)
append_one-In c d (x ∷ cs) (inr m) = ground (arith, append_one-In c d cs m)

In-append_one : (c d : Candidate) (cs : List Candidate) → In d cs ⊎ (d ≡ c) → In d (append_one cs c)
In-append_one c d [] (inl m) = absurd m
In-append_one c d [] (inr e) = inl e
In-append_one c d (x ∷ cs) (inl (inl e)) = inl e
In-append_one c d (x ∷ cs) (inl (inr m)) = inr (In-append_one c d cs (inl m))
In-append_one c d (x ∷ cs) (inr e) = inr (In-append_one c d cs (inr e))

ran_race : Race → RankRun → Race
ran_race d (RankRun.ran r) = r
ran_race d (RankRun.unranked k) = d

pub ran_injective : {a b : Race} → RankRun.ran a ≡ RankRun.ran b → a ≡ b
unfolding ran_race
ran_injective {a} h = ap (ran_race a) h

module _ (better : ℕ → ℕ → Bool) (rank : String → Option ℕ)
    (total : (r s : ℕ) → better r s ≡ false → (r ≡ s) ⊎ (better s r ≡ true))
    (trans : (r s t : ℕ) → better r s ≡ true → better s t ≡ true → better r t ≡ true) where
  -- The rank of `c` is no better than `best`, and `c` is among the winners when they are equal.
  abbrev pub IsBeaten : Candidate → Race → Type 0
  IsBeaten c race =
      (r : ℕ) × (rank c.scope.kind ≡ some r)
      × ((better race.best r ≡ true) ⊎ ((r ≡ race.best) × In c race.winners))

  abbrev pub HaveBest : Race → Type 0
  HaveBest race = (c : Candidate) → In c race.winners → rank c.scope.kind ≡ some race.best

  step_HaveBest :
      (r : ℕ) (c : Candidate) (race : Race)
      → rank c.scope.kind ≡ some r
      → HaveBest race
      → HaveBest (race_step better rank r c race)
  unfolding race_step
  step_HaveBest r c race e h d m = elim (Bool-cases (better r race.best)) [
    | inl t ↦ elim (rw t at m) [ inl q ↦ rw (t, q) e | inr z ↦ absurd z ]
    | inr f ↦ elim (Bool-cases (r == race.best)) [
      | inl u ↦ elim (append_one-In c d race.winners (rw (f, u) at m)) [
        | inl i ↦ rw (f, u) (h d i)
        | inr q ↦ rw (f, u, q) (e ∙ ap some (ground arith))
      ]
      | inr g ↦ rw (f, g) (h d (rw (f, g) at m))
    ]
  ]

  step_beats :
      (r : ℕ) (c : Candidate) (race : Race)
      → rank c.scope.kind ≡ some r
      → IsBeaten c (race_step better rank r c race)
  unfolding race_step
  step_beats r c race e = ground (arith, total r race.best, In-append_one c c race.winners)

  step_keeps :
      (r : ℕ) (c d : Candidate) (race : Race)
      → IsBeaten d race
      → IsBeaten d (race_step better rank r c race)
  unfolding race_step
  step_keeps r c d race (s, e, b) =
      (s, e, ground (arith, total r race.best, trans r race.best s, In-append_one c d race.winners))

  module _ (c : Candidate) (cs : List Candidate) (race done : Race) where
    pub run_step :
        rank_run better rank (c ∷ cs) race ≡ RankRun.ran done
        → (r : ℕ) × (rank c.scope.kind ≡ some r)
          × (rank_run better rank cs (race_step better rank r c race) ≡ RankRun.ran done)
    unfolding rank_run
    run_step h = elim (Option-cases (rank c.scope.kind)) [
      | inl n ↦ absurd (ground (arith, n))
      | inr (r, e) ↦ (r, e, rw (rank_run, e) at h)
    ]

  pub run_HaveBest :
      (cs : List Candidate) (race done : Race)
      → rank_run better rank cs race ≡ RankRun.ran done
      → HaveBest race
      → HaveBest done
  unfolding rank_run
  run_HaveBest [] race done h b = subst HaveBest (ran_injective h) b
  run_HaveBest (c ∷ cs) race done h b =
      let (r, e, k) = run_step c cs race done h in
      run_HaveBest cs _ done k (step_HaveBest r c race e b)

  run_keeps :
      (cs : List Candidate) (d : Candidate) (race done : Race)
      → rank_run better rank cs race ≡ RankRun.ran done
      → IsBeaten d race
      → IsBeaten d done
  unfolding rank_run
  run_keeps [] d race done h b = subst (IsBeaten d) (ran_injective h) b
  run_keeps (c ∷ cs) d race done h b =
      let (r, e, k) = run_step c cs race done h in run_keeps cs d _ done k (step_keeps r c d race b)

  pub run_beats :
      (cs : List Candidate) (d : Candidate) (race done : Race)
      → rank_run better rank cs race ≡ RankRun.ran done
      → In d cs
      → IsBeaten d done
  run_beats [] d race done h m = absurd m
  run_beats (c ∷ cs) d race done h m =
      let (r, e, k) = run_step c cs race done h in
      elim m [
        | inl q ↦ run_keeps cs d _ done k (rw q (step_beats r c race e))
        | inr i ↦ run_beats cs d _ done k i
      ]

  step_In :
      (r : ℕ) (c d : Candidate) (race : Race)
      → In d (race_step better rank r c race).winners
      → In d race.winners ⊎ (d ≡ c)
  unfolding race_step
  step_In r c d race m = ground (arith, append_one-In c d race.winners)

  pub run_In :
      (cs : List Candidate) (d : Candidate) (race done : Race)
      → rank_run better rank cs race ≡ RankRun.ran done
      → In d done.winners
      → In d race.winners ⊎ In d cs
  unfolding rank_run
  run_In [] d race done h m = inl (subst (λ x. In d x.winners) (sym (ran_injective h)) m)
  run_In (c ∷ cs) d race done h m =
      let (r, e, k) = run_step c cs race done h in
      elim (run_In cs d _ done k m) [
        | inl i ↦ elim (step_In r c d race i) [ inl j ↦ inl j | inr q ↦ inr (inl q) ]
        | inr i ↦ inr (inr i)
      ]

  -- A loop that starts without winners and ends with one winner has found a candidate with a rank
  -- that is better than those of all the others.
  pub sole_winner :
      (cs : List Candidate) (start : ℕ) (done : Race) (w : Candidate)
      → rank_run better rank cs (at_start start) ≡ RankRun.ran done
      → done.winners ≡ w ∷ []
      → In w cs
        × (rank w.scope.kind ≡ some done.best)
        × ((c : Candidate)
            → In c cs
            → (c ≡ w) ⊎ ((s : ℕ) × (rank c.scope.kind ≡ some s) × (better done.best s ≡ true)))
  sole_winner cs start done w h one = (inside, ranked, others)
    where
      wins : In w done.winners
      wins = subst (In w) (sym one) (inl refl)

      inside : In w cs
      inside = elim (run_In cs w (at_start start) done h wins) [ inl z ↦ absurd z | inr i ↦ i ]

      ranked : rank w.scope.kind ≡ some done.best
      ranked = run_HaveBest cs (at_start start) done h (λ c z. absurd z) w wins

      others :
          (c : Candidate)
          → In c cs
          → (c ≡ w) ⊎ ((s : ℕ) × (rank c.scope.kind ≡ some s) × (better done.best s ≡ true))
      others c m =
          let (s, e, b) = run_beats cs c (at_start start) done h m in
          elim b [
            | inl t ↦ inr (s, e, t)
            | inr (q, i) ↦ elim (subst (In c) one i) [ inl p ↦ inl p | inr z ↦ absurd z ]
          ]
