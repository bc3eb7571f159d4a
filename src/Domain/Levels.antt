-- ===== src/Domain/Levels.antt =====
-- The closed vocabularies of internal/domain: intent.go, evidencelevel.go, guarantee.go,
-- disposition.go, capability.go and drift.go. Each is a Go string type. `other` holds a text that is
-- none of the constants, the empty text among them.
use oh_my_code_agent.Prelude.{ℕ, String, Bool, true, false, ◌≡◌, ◌↔◌, arith, str_eq, str_eq_iff}
use oh_my_code_agent.Prelude.Keys.{Eq}

pub data Intent : Type 0 where
  required default available denied : Intent
  other : String → Intent

-- the zero value of the Go type
abbrev pub no_intent : Intent
no_intent = other ""

-- the text of the constant, by which intents are sorted
unfoldable pub intent_text : Intent → String
intent_text required = "REQUIRED"
intent_text default = "DEFAULT"
intent_text available = "AVAILABLE"
intent_text denied = "DENIED"
intent_text (other s) = s

abbrev pub intent_beq : Intent → Intent → Bool
intent_beq required required = true
intent_beq default default = true
intent_beq available available = true
intent_beq denied denied = true
intent_beq (other s) (other t) = str_eq s t
intent_beq _ _ = false

pub intent_beq_iff : (a b : Intent) → (intent_beq a b ≡ true) ↔ (a ≡ b)
intent_beq_iff (other s) (other t) =
    (λ h. ground (arith, (str_eq_iff s t).0 h), λ h. (str_eq_iff s t).1 (ground arith))
intent_beq_iff required b = (λ h. ground arith, λ h. ground arith)
intent_beq_iff default b = (λ h. ground arith, λ h. ground arith)
intent_beq_iff available b = (λ h. ground arith, λ h. ground arith)
intent_beq_iff denied b = (λ h. ground arith, λ h. ground arith)
intent_beq_iff a b = (λ h. ground arith, λ h. ground arith)

instance abbrev pub intent_eq : Eq Intent
intent_eq = record { beq = intent_beq; beq_iff = intent_beq_iff }

-- `Intent.Valid`
unfoldable pub intent_valid : Intent → Bool
intent_valid (other _) = false
intent_valid _ = true

pub data EvidenceLevel : Type 0 where
  discovered parsed resolved host_reported behavior_probed externally_proven : EvidenceLevel
  other : String → EvidenceLevel

-- `EvidenceLevel.Rank` plus one, so that the -1 of an unknown level is 0
unfoldable pub evidence_rank : EvidenceLevel → ℕ
evidence_rank discovered = 1
evidence_rank parsed = 2
evidence_rank resolved = 3
evidence_rank host_reported = 4
evidence_rank behavior_probed = 5
evidence_rank externally_proven = 6
evidence_rank (EvidenceLevel.other _) = 0

-- `EvidenceLevel.Valid`
unfoldable pub evidence_valid : EvidenceLevel → Bool
evidence_valid (EvidenceLevel.other _) = false
evidence_valid _ = true

pub data GuaranteeLevel : Type 0 where
  hard reconciled advisory observed : GuaranteeLevel
  other : String → GuaranteeLevel

pub data SourceDisposition : Type 0 where
  discovered imported active available excluded denied shadowed orphaned opaque unknown :
      SourceDisposition
  other : String → SourceDisposition

pub data CapabilityLevel : Type 0 where
  exact compatible partial opaque unknown unsupported : CapabilityLevel
  other : String → CapabilityLevel

pub data DriftCategory : Type 0 where
  config_drift effective_drift source_drift capability_gap knowledge_drift context_drift exception
        unknown :
      DriftCategory
  other : String → DriftCategory
