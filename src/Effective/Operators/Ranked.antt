-- ===== src/Effective/Operators/Ranked.antt =====
-- Which source FIRST_MATCH selects, and what the picked entry of the ranked operators holds.
use oh_my_code_agent.Prelude.{
  ℕ, String, true, false, some, List, [], ◌∷◌, ◌≡◌, ◌<◌, ◌⊎◌, inl, inr, ap, arith, length, In,
}
use oh_my_code_agent.Prelude.Keys.{string_eq}
use oh_my_code_agent.Effective.Types.{
  MergeOperator, Candidate, LogicalGroup, EffectiveEntry, Outcome, PrecedenceProgram,
}
use oh_my_code_agent.Effective.Sources.{distinct_by_content}
use oh_my_code_agent.Effective.Sources.Distinct.{distinct_by_content-In}
use oh_my_code_agent.Effective.Operators.{
  Race, rank_run, at_start, higher, lower, conflict_of, entry_of, pick_ranked, priority_of,
  pick_first, resolve_first_match,
}
use oh_my_code_agent.Effective.Operators.Outcomes.{
  conflict_not_entry, entry_of_fields, RankRun-cases, single-cases,
}
use oh_my_code_agent.Effective.Operators.Winner.{sole_winner}

pub higher_total : (r s : ℕ) → higher r s ≡ false → (r ≡ s) ⊎ (higher s r ≡ true)
higher_total r s h = ground arith

pub higher_trans : (r s t : ℕ) → higher r s ≡ true → higher s t ≡ true → higher r t ≡ true
higher_trans r s t h k = ground arith

lower_total : (r s : ℕ) → lower r s ≡ false → (r ≡ s) ⊎ (lower s r ≡ true)
lower_total r s h = ground arith

lower_trans : (r s t : ℕ) → lower r s ≡ true → lower s t ≡ true → lower r t ≡ true
lower_trans r s t h k = ground arith

-- The entry has one active source, the selected one.
abbrev pub SelectsOnly : Candidate → EffectiveEntry → Type 0
SelectsOnly w e =
    (e.provenance.selected_source ≡ w.ref) × (e.provenance.active_sources ≡ w.ref ∷ [])

pub pick_ranked_entry :
    (group : LogicalGroup) (program : PrecedenceProgram) (operator : MergeOperator)
    (cs : List Candidate) (race : Race) (e : EffectiveEntry)
    → pick_ranked group program operator cs race ≡ Outcome.entry e
    → (w : Candidate) × (race.winners ≡ w ∷ []) × SelectsOnly w e
unfolding pick_ranked entry_of conflict_of
pick_ranked_entry group program operator cs race e h = elim (single-cases race.winners) [
  | inl (w, q) ↦
      let (p, _) = entry_of_fields group _ _ _ _ e (rw (pick_ranked, q) at h) in
      (w, q, (ap (λ x. x.selected_source) p, ap (λ x. x.active_sources) p))
  | inr (inl q) ↦ conflict_not_entry group program _ _ e (rw (pick_ranked, q) at h)
  | inr (inr (w, x, ws, q)) ↦ conflict_not_entry group program _ _ e (rw (pick_ranked, q) at h)
]

pick_first_entry :
    (group : LogicalGroup) (program : PrecedenceProgram) (race : Race) (e : EffectiveEntry)
    → pick_first group program race ≡ Outcome.entry e
    → (w : Candidate) × (race.winners ≡ w ∷ []) × SelectsOnly w e
unfolding pick_first
pick_first_entry group program race e h = elim (single-cases race.winners) [
  | inl (w, q) ↦
      let (p, _) = entry_of_fields group _ _ _ _ e (rw (pick_first, q) at h) in
      (w, q, (ap (λ x. x.selected_source) p, ap (λ x. x.active_sources) p))
  | inr (inl q) ↦ conflict_not_entry group program _ _ e (rw (pick_first, q) at h)
  | inr (inr (w, x, ws, q)) ↦ conflict_not_entry group program _ _ e (rw (pick_first, q) at h)
]

-- When FIRST_MATCH selects a source, every other source that stands for a content has a scope that
-- comes later in the priority order, and the selected source is the only active one.
pub resolve_first_match_winner :
    (group : LogicalGroup) (program : PrecedenceProgram) (priority : List String)
    (e : EffectiveEntry)
    → resolve_first_match group program priority ≡ Outcome.entry e
    → (w : Candidate) × In w group.candidates
      × SelectsOnly w e
      × (r : ℕ) × (priority_of priority w.scope.kind ≡ some r)
      × ((c : Candidate)
          → In c (distinct_by_content group.candidates)
          → (c ≡ w) ⊎ ((s : ℕ) × (priority_of priority c.scope.kind ≡ some s) × (r < s)))
unfolding resolve_first_match
resolve_first_match_winner group program [] e h = conflict_not_entry group program _ _ e h
resolve_first_match_winner group program (x ∷ xs) e h =
    let cs = distinct_by_content group.candidates in
    elim (RankRun-cases (rank_run lower (priority_of (x ∷ xs)) cs (at_start (length (x ∷ xs))))) [
      | inr (kind, q) ↦ conflict_not_entry group program _ _ e (rw (resolve_first_match, q) at h)
      | inl (race, q) ↦
          let (w, one, only) =
            pick_first_entry group program race e (rw (resolve_first_match, q) at h) in
          let (m, k, others) =
            sole_winner lower (priority_of (x ∷ xs)) lower_total lower_trans cs (length (x ∷ xs))
              race w q one in
          (
            w,
            distinct_by_content-In w group.candidates m,
            only,
            race.best,
            k,
            λ c i. above race.best (others c i),
          )
    ]
  where
    above :
        (r : ℕ) {c w : Candidate}
        → (c ≡ w) ⊎ ((s : ℕ) × (priority_of (x ∷ xs) c.scope.kind ≡ some s) × (lower r s ≡ true))
        → (c ≡ w) ⊎ ((s : ℕ) × (priority_of (x ∷ xs) c.scope.kind ≡ some s) × (r < s))
    above r (inl q) = inl q
    above r (inr (s, k, b)) = inr (s, k, ground arith)
