-- ===== src/Assurance/Evidence.antt =====
-- BuildEvidence and HostVersionEvidence of internal/assurance/evidence.go: the evidence records of a
-- graph. The reference to the knowledge pack and the time are left out: they are the same in all records.
use oh_my_code_agent.Prelude.{
  String, Bool, Option, none, some, List, ◌++◌, map, if◌then◌else◌, ◌||◌, not, str_eq, str_append,
}
use oh_my_code_agent.Domain.Levels.{EvidenceLevel, GuaranteeLevel}
use oh_my_code_agent.Effective.Types.{EffectiveEntry, Conflict, EntryReason, ConflictReason}
use oh_my_code_agent.Effective.Graph.{EffectiveGraph}
use oh_my_code_agent.Assurance.Ceilings.{host_concept_claim}

-- where a record's method comes from
pub data Method : Type 0 where
  of_entry : EntryReason → Method
  of_conflict : ConflictReason → Method
  version_probe : String → Method

-- `Evidence`; a conflict and a version have no guarantee
pub record Evidence : Type 0 where
  pub id : String
  pub concept : String
  pub logical_id : String
  pub level : EvidenceLevel
  pub guarantee : Option GuaranteeLevel
  pub method : Method

-- `evidenceID`
abbrev pub evidence_id : String → String → String → String
evidence_id host concept logical_id =
    str_append "evidence:"
      (str_append host (str_append ":" (str_append concept (str_append ":" logical_id))))

unfoldable pub entry_evidence : String → EffectiveEntry → Evidence
entry_evidence host e = record {
  id = evidence_id host e.concept e.logical_id;
  concept = e.concept;
  logical_id = e.logical_id;
  level = e.evidence_level;
  guarantee = some e.guarantee;
  method = of_entry e.reason;
}

unfoldable pub conflict_evidence : String → Conflict → Evidence
conflict_evidence host c = record {
  id = evidence_id host c.concept c.logical_id;
  concept = c.concept;
  logical_id = c.logical_id;
  level = c.evidence_level;
  guarantee = none;
  method = of_conflict c.reason;
}

-- `BuildEvidence`
unfoldable pub build_evidence : String → EffectiveGraph → List Evidence
unfolding entry_evidence conflict_evidence
build_evidence host graph =
    map (entry_evidence host) graph.entries ++ map (conflict_evidence host) graph.conflicts

-- the fields of `HostDetection` that are read
pub record HostDetection : Type 0 where
  pub host : String
  pub installed : Bool
  pub binary_path : String
  pub version : String
  pub error : String

-- `HostVersionEvidence`
unfoldable pub host_version_evidence : HostDetection → Option Evidence
host_version_evidence det =
    if not det.installed || (str_eq det.version "" || not (str_eq det.error ""))
    then none
    else some (record {
      id = evidence_id det.host host_concept_claim det.host;
      concept = host_concept_claim;
      logical_id = det.host;
      level = EvidenceLevel.host_reported;
      guarantee = none;
      method = version_probe det.binary_path;
    })
