-- ===== src/Effective/Graph/Complete.antt =====
-- Which entries and conflicts ComputeEffectiveGraph of internal/effective/resolve.go reports.
use oh_my_code_agent.Prelude.{String, true, false, Option, List, ◌≡◌, ◌⊎◌, In}
use oh_my_code_agent.Prelude.Keys.{string_eq}
use oh_my_code_agent.Effective.Types.{LogicalGroup, EffectiveEntry, Outcome, Options, Value}
use oh_my_code_agent.Effective.Sources.{lookup_program}
use oh_my_code_agent.Effective.Compose.{compose_concept}
use oh_my_code_agent.Effective.Group.{or_zero, resolve_group}
use oh_my_code_agent.Effective.Graph.{
  HostKnowledge, resolve_capability, is_composed_concept, groups_of,
}

module _ (canonical_digest : Value → Option String) (hk : HostKnowledge) (opts : Options) where
  -- what is resolved for a group by itself
  abbrev pub group_outcome : LogicalGroup → Outcome
  group_outcome g =
      resolve_group canonical_digest g hk.programs (resolve_capability hk g.concept) opts

  -- what is composed for a concept
  abbrev pub composed_entry : List LogicalGroup → String → EffectiveEntry
  composed_entry groups concept =
      compose_concept concept (groups_of concept groups)
        (or_zero (lookup_program hk.programs concept)) (resolve_capability hk concept)
        opts.scope_rank

  -- An outcome that is due: of a group whose concept is not composed, or of a concept that is.
  abbrev pub Due : List LogicalGroup → Outcome → Type 0
  Due groups o =
      ((g : LogicalGroup) × In g groups
        × (is_composed_concept hk g.concept ≡ false)
        × (o ≡ group_outcome g))
      ⊎ ((g : LogicalGroup) × In g groups
          × (is_composed_concept hk g.concept ≡ true)
          × (o ≡ Outcome.entry (composed_entry groups g.concept)))

  abbrev resolved_at : String → LogicalGroup → Outcome
  resolved_at concept g =
      resolve_group canonical_digest g hk.programs (resolve_capability hk concept) opts
