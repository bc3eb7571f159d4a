-- ===== src/Effective/Operators/Outcomes.antt =====
-- Reading the result of a merge operator: an entry that `entry_of` fills in, or a conflict.
use oh_my_code_agent.Prelude.{
  Bool, true, false, List, [], ◌∷◌, ◌≡◌, ◌⊎◌, inl, inr, refl, sym, ap, arith, String,
}
use oh_my_code_agent.Domain.Levels.{GuaranteeLevel}
use oh_my_code_agent.Effective.Types.{
  MergeOperator, LogicalGroup, Provenance, EntryReason, ConflictReason, EffectiveEntry, Outcome,
  PrecedenceProgram,
}
use oh_my_code_agent.Effective.Operators.{RankRun, Race, conflict_of, entry_of}

entry_or : EffectiveEntry → Outcome → EffectiveEntry
entry_or d (Outcome.entry e) = e
entry_or d (Outcome.conflict c) = d

pub entry_injective : {a b : EffectiveEntry} → Outcome.entry a ≡ Outcome.entry b → a ≡ b
unfolding entry_or
entry_injective {a} h = ap (entry_or a) h

pub conflict_not_entry {ℓ} :
    {P : Type ℓ} (group : LogicalGroup) (program : PrecedenceProgram) (operator : MergeOperator)
    (reason : ConflictReason) (e : EffectiveEntry)
    → conflict_of group program operator reason ≡ Outcome.entry e
    → P
unfolding conflict_of
conflict_not_entry group program operator reason e h = absurd (ground (arith, h))

pub entry_of_fields :
    (group : LogicalGroup) (p : Provenance) (guarantee : GuaranteeLevel) (confirmed : Bool)
    (reason : EntryReason) (e : EffectiveEntry)
    → entry_of group p guarantee confirmed reason ≡ Outcome.entry e
    → (e.provenance ≡ p) × (e.guarantee ≡ guarantee)
unfolding entry_of
entry_of_fields group p guarantee confirmed reason e h =
    let q = sym (entry_injective h) in (ap (λ x. x.provenance) q, ap (λ x. x.guarantee) q)

pub RankRun-cases :
    (run : RankRun)
    → ((race : Race) × (run ≡ RankRun.ran race)) ⊎ ((kind : String) × (run ≡ RankRun.unranked kind))
RankRun-cases (RankRun.ran race) = inl (race, refl)
RankRun-cases (RankRun.unranked kind) = inr (kind, refl)

-- A list has one element, none, or at least two.
pub single-cases :
    {A : Type 0} (xs : List A)
    → ((x : A) × (xs ≡ x ∷ []))
      ⊎ ((xs ≡ []) ⊎ ((x : A) × (y : A) × (ys : List A) × (xs ≡ x ∷ y ∷ ys)))
single-cases [] = inr (inl refl)
single-cases (x ∷ []) = inl (x, refl)
single-cases (x ∷ y ∷ ys) = inr (inr (x, y, ys, refl))

pub List-cases : {A : Type 0} (xs : List A) → (xs ≡ []) ⊎ ((x : A) × (ys : List A) × (xs ≡ x ∷ ys))
List-cases [] = inl refl
List-cases (x ∷ xs) = inr (x, xs, refl)

abbrev pub is_entry : Outcome → Bool
is_entry (Outcome.entry e) = true
is_entry (Outcome.conflict c) = false

pub is_entry_witness :
    (o : Outcome) → is_entry o ≡ true → (e : EffectiveEntry) × (o ≡ Outcome.entry e)
is_entry_witness (Outcome.entry e) h = (e, refl)
is_entry_witness (Outcome.conflict c) h = absurd (ground arith)
