-- ===== src/Effective/Group/Guardrail.antt =====
-- What MANAGED_GUARDRAIL of internal/effective/merge.go selects.
use oh_my_code_agent.Prelude.{
  true, ◌≡◌, inl, inr, refl, sym, ap, subst, In, In-keep, str_eq, str_eq_iff, keep-In,
}
use oh_my_code_agent.Prelude.Keys.{string_eq}
use oh_my_code_agent.Effective.Types.{
  Candidate, LogicalGroup, EffectiveEntry, Outcome, PrecedenceProgram,
}
use oh_my_code_agent.Effective.Sources.{distinct_by_content}
use oh_my_code_agent.Effective.Sources.Distinct.{distinct_by_content-In, distinct_by_content_agree}
use oh_my_code_agent.Effective.Operators.{resolve_managed_guardrail, managed_sources}
use oh_my_code_agent.Effective.Operators.Outcomes.{
  conflict_not_entry, entry_of_fields, single-cases,
}
use oh_my_code_agent.Effective.Operators.Ranked.{SelectsOnly}

module _ (group : LogicalGroup) (program : PrecedenceProgram) (e : EffectiveEntry) where
  managed_In :
      (c : Candidate)
      → In c (managed_sources group.candidates)
      → In c group.candidates × (str_eq c.scope.kind "managed" ≡ true)
  unfolding managed_sources
  managed_In c m = In-keep (λ c. str_eq c.scope.kind "managed") c group.candidates m

  -- MANAGED_GUARDRAIL selects a source of the managed scope, and every managed source has its content.
  pub resolve_managed_guardrail_winner :
      resolve_managed_guardrail group program ≡ Outcome.entry e
      → (w : Candidate) × In w group.candidates
        × (w.scope.kind ≡ "managed")
        × SelectsOnly w e
        × ((c : Candidate)
            → In c group.candidates
            → c.scope.kind ≡ "managed"
            → c.content_digest ≡ w.content_digest)
  unfolding resolve_managed_guardrail managed_sources
  resolve_managed_guardrail_winner h =
      elim (single-cases (distinct_by_content (managed_sources group.candidates))) [
        | inl (w, q) ↦
            let (p, _) = entry_of_fields group _ _ _ _ e (rw (resolve_managed_guardrail, q) at h) in
            let (m, k) =
              managed_In w (distinct_by_content-In w _ (subst (In w) (sym q) (inl refl))) in
            (
              w,
              m,
              (str_eq_iff w.scope.kind "managed").0 k,
              (ap (λ x. x.selected_source) p, ap (λ x. x.active_sources) p),
              λ c i s. distinct_by_content_agree w c _ q (
                  keep-In (λ c. str_eq c.scope.kind "managed") c group.candidates i
                    ((str_eq_iff c.scope.kind "managed").1 s)),
            )
        | inr (inl q) ↦
            conflict_not_entry group program _ _ e (rw (resolve_managed_guardrail, q) at h)
        | inr (inr (x, y, ys, q)) ↦
            conflict_not_entry group program _ _ e (rw (resolve_managed_guardrail, q) at h)
      ]
