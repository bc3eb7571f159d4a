-- ===== src/Drift/Types.antt =====
-- internal/drift/types.go, with DriftAssertion of internal/domain/report.go. `A` is the type of the
-- expected and observed values, Go's `any`, with the equality that reflect.DeepEqual decides.
use oh_my_code_agent.Prelude.{String, Bool, true, false, List, ◌≡◌, ◌↔◌, arith, str_eq, str_eq_iff}
use oh_my_code_agent.Domain.Levels.{EvidenceLevel, GuaranteeLevel, DriftCategory}
use oh_my_code_agent.Domain.Levels.DriftCategory.{
  config_drift, effective_drift, source_drift, capability_gap, knowledge_drift, context_drift,
  exception, unknown, other,
}

-- the text of the constant
unfoldable pub category_text : DriftCategory → String
category_text config_drift = "CONFIG_DRIFT"
category_text effective_drift = "EFFECTIVE_DRIFT"
category_text source_drift = "SOURCE_DRIFT"
category_text capability_gap = "CAPABILITY_GAP"
category_text knowledge_drift = "KNOWLEDGE_DRIFT"
category_text context_drift = "CONTEXT_DRIFT"
category_text exception = "EXCEPTION"
category_text unknown = "UNKNOWN"
category_text (other s) = s

abbrev pub category_beq : DriftCategory → DriftCategory → Bool
category_beq config_drift config_drift = true
category_beq effective_drift effective_drift = true
category_beq source_drift source_drift = true
category_beq capability_gap capability_gap = true
category_beq knowledge_drift knowledge_drift = true
category_beq context_drift context_drift = true
category_beq exception exception = true
category_beq unknown unknown = true
category_beq (other s) (other t) = str_eq s t
category_beq _ _ = false

pub category_beq_iff : (a b : DriftCategory) → (category_beq a b ≡ true) ↔ (a ≡ b)
category_beq_iff (other s) (other t) =
    (λ h. ground (arith, (str_eq_iff s t).0 h), λ h. (str_eq_iff s t).1 (ground arith))
category_beq_iff config_drift b = (λ h. ground arith, λ h. ground arith)
category_beq_iff effective_drift b = (λ h. ground arith, λ h. ground arith)
category_beq_iff source_drift b = (λ h. ground arith, λ h. ground arith)
category_beq_iff capability_gap b = (λ h. ground arith, λ h. ground arith)
category_beq_iff knowledge_drift b = (λ h. ground arith, λ h. ground arith)
category_beq_iff context_drift b = (λ h. ground arith, λ h. ground arith)
category_beq_iff exception b = (λ h. ground arith, λ h. ground arith)
category_beq_iff unknown b = (λ h. ground arith, λ h. ground arith)
category_beq_iff a b = (λ h. ground arith, λ h. ground arith)

-- `DriftCategory.Valid`
unfoldable pub category_valid : DriftCategory → Bool
category_valid (other _) = false
category_valid _ = true

pub record Signal (A : Type 0) : Type 0 where
  pub entity_id : String
  pub concept : String
  pub field : String
  pub category : DriftCategory
  pub expected : A
  pub observed : A
  pub root_cause : String
  pub remediation : String
  pub project : String
  pub host : String
  pub host_version : String
  pub adapter_version : String
  pub evidence_level : EvidenceLevel
  pub guarantee : GuaranteeLevel
  pub asset_id : String
  pub exception_scopes : List String

pub record Assertion (A : Type 0) : Type 0 where
  pub entity_id : String
  pub field : String
  pub category : DriftCategory
  pub expected : A
  pub observed : A
  pub root_cause : String
  pub remediation : String
  pub context_cell : String
  pub evidence_level : EvidenceLevel
  pub guarantee : GuaranteeLevel
  pub underlying_category : DriftCategory
  pub project : String
  pub host : String
  pub host_version : String
  pub adapter_version : String
  pub exception_ref : String
