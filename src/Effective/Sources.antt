-- ===== src/Effective/Sources.antt =====
-- The helpers of internal/effective/merge.go on the sources of a group, and `LookupProgram` of
-- precedence.go.
pub mod Distinct
use oh_my_code_agent.Prelude.{
  ℕ, String, Bool, true, false, Option, none, some, List, [], ◌∷◌, map, ◌||◌, arith, keep, ltb, leb,
  not, length, if◌then◌else◌, str_append,
}
use oh_my_code_agent.Prelude.Sort.{sort}
use oh_my_code_agent.Prelude.TextOrder.{str_leb}
use oh_my_code_agent.Prelude.Keys.{contains, string_eq}
use oh_my_code_agent.Domain.Levels.{
  EvidenceLevel, SourceDisposition, CapabilityLevel, evidence_rank,
}
use oh_my_code_agent.Effective.Types.{Candidate, PrecedenceProgram, no_program_found}
use text.Mathlib.Text.{starts_with}

abbrev pub ref_leb : Candidate → Candidate → Bool
ref_leb a b = str_leb a.ref b.ref

-- the first loop of `distinctByContent`: the first candidate of each digest
unfoldable pub one_per_digest : List String → List Candidate → List Candidate
one_per_digest seen [] = []
one_per_digest seen (c ∷ cs) =
    let skip = one_per_digest seen cs in
    let take = c ∷ one_per_digest (c.content_digest ∷ seen) cs in
    if contains seen c.content_digest then skip else take

-- `distinctByContent`
unfoldable pub distinct_by_content : List Candidate → List Candidate
unfolding one_per_digest sort
distinct_by_content cs = sort ref_leb (one_per_digest [] cs)

-- `candidateRefs`
unfoldable pub candidate_refs : List Candidate → List String
unfolding sort
candidate_refs cs = sort str_leb (map (λ c. c.ref) cs)

unfoldable pub highest_from : EvidenceLevel → List Candidate → EvidenceLevel
unfolding evidence_rank
highest_from best [] = best
highest_from best (c ∷ cs) =
    highest_from
      (if ltb (evidence_rank best) (evidence_rank c.evidence_level) then c.evidence_level else best)
      cs

-- `highestEvidence`
unfoldable pub highest_evidence : List Candidate → EvidenceLevel
unfolding highest_from
highest_evidence cs = highest_from EvidenceLevel.discovered cs

-- `highestEvidence(...).Rank() >= domain.EvidenceLevelHostReported.Rank()`
unfoldable pub backed : List Candidate → Bool
unfolding highest_evidence evidence_rank
backed cs = leb (evidence_rank EvidenceLevel.host_reported) (evidence_rank (highest_evidence cs))

abbrev pub disposition_denied : SourceDisposition → Bool
disposition_denied SourceDisposition.denied = true
disposition_denied _ = false

-- `isDenied`
unfoldable pub is_denied : List String → Candidate → Bool
is_denied denied_refs c = contains denied_refs c.ref || disposition_denied c.disposition

-- `capabilityQualified`
unfoldable pub capability_qualified : CapabilityLevel → Bool
capability_qualified CapabilityLevel.exact = true
capability_qualified CapabilityLevel.compatible = true
capability_qualified _ = false

abbrev pub only_program : List PrecedenceProgram → Option PrecedenceProgram
only_program (p ∷ []) = some p
only_program _ = none

-- `LookupProgram`: the one program whose id starts with the concept and a dot
unfoldable pub lookup_program : List PrecedenceProgram → String → Option PrecedenceProgram
lookup_program programs concept =
    only_program (keep (λ p. starts_with p.id (str_append concept ".")) programs)
