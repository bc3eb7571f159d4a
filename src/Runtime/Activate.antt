-- ===== src/Runtime/Activate.antt =====
-- internal/runtime/activate.go and rollback.go, with the pointers of current.go and pending.go and the ledger
-- of ledger.go: the transaction that makes a host's pending generation the current one, and the one that goes
-- back to its parent. The files of one host are a state; which writes succeed is an argument.
pub mod Atomic
pub mod Rollback
pub mod Restored
pub mod Switched
pub mod Tests
pub mod Transaction
use oh_my_code_agent.Prelude.{
  String, Bool, true, false, not, Option, none, some, List, [], ◌∷◌, ◌++◌, ◌≡◌, ◌⊎◌, refl, inl, inr,
  Bool-cases, if◌then◌else◌, str_eq,
}
use oh_my_code_agent.Prelude.Keys.{lookup, string_eq}
use oh_my_code_agent.Domain.Host.{HostFault, validate_host_id}

-- what `os.Readlink` answers for a pointer
pub data Pointer : Type 0 where
  absent corrupt : Pointer
  link : String → Pointer

-- the entry of `Spec.Hosts`
pub record HostTarget : Type 0 where
  pub host_version : String
  pub surface : String

-- `Generation`, of which these fields are read
pub record Generation : Type 0 where
  pub id : String
  pub parent : Option String
  pub source_digest : String
  pub hosts : List (String × HostTarget)

-- `CurrentRecord`
pub record CurrentRecord : Type 0 where
  pub generation_id : String
  pub host_binary_path : String
  pub host_version : String
  pub recorded_at : String

-- `LedgerEntry`, whose detail is a format of the ids
pub data LedgerKind : Type 0 where
  activated rolled_back : String → String → LedgerKind
  cas_rejected : String → String → LedgerKind

pub record LedgerEntry : Type 0 where
  pub host : String
  pub generation_id : String
  pub kind : LedgerKind
  pub recorded_at : String

-- the pointers and the ledger of one host
pub record HostState : Type 0 where
  pub current : Pointer
  pub current_record : Option CurrentRecord
  pub pending : Pointer
  pub pending_record : Option CurrentRecord
  pub ledger : List LedgerEntry

-- which of the writes of a call succeed; `entry_appended` is whether `AppendLedgerEntry` gives no error
pub record Writes : Type 0 where
  pub link_written : Bool
  pub record_written : Bool
  pub link_removed : Bool
  pub record_removed : Bool
  pub entry_appended : Bool

-- `HostDetection` with the surface that `surfaceOf` takes
pub record Detected : Type 0 where
  pub host : String
  pub version : String
  pub surface : String
  pub binary_path : String
  pub error : String

-- `surfaceOf`
abbrev pub surface_of : Detected → String
surface_of d = if not (str_eq d.surface "") then d.surface else "cli"

abbrev pub current_record_of : Generation → Detected → String → CurrentRecord
current_record_of gen d now = record {
  generation_id = gen.id;
  host_binary_path = d.binary_path;
  host_version = d.version;
  recorded_at = now;
}

-- `SetCurrentGeneration`: false is an error; the link is switched before the record is written
unfoldable pub set_current_generation :
    Writes → String → Generation → Detected → String → HostState → HostState × Bool
set_current_generation w dir gen d now st =
    if not w.link_written
    then (st, false)
    else if not w.record_written
    then (record st { current = link dir }, false)
    else (
      record st { current = link dir; current_record = some (current_record_of gen d now) },
      true,
    )

-- It leaves the pointer, or switches it alone, or with its record.
pub set_current_generation-cases :
    (w : Writes) (dir : String) (gen : Generation) (d : Detected) (now : String) (st : HostState)
    → let r = set_current_generation w dir gen d now st in
      (r ≡ (st, false))
      ⊎ ((r ≡ (record st { current = link dir }, false))
          ⊎ (r ≡ (
            record st { current = link dir; current_record = some (current_record_of gen d now) },
            true,
          )))
unfolding set_current_generation
set_current_generation-cases w dir gen d now st = elim (Bool-cases w.link_written) [
  | inr f ↦ inl (rw f refl)
  | inl t ↦ elim (Bool-cases w.record_written) [
    | inr f ↦ inr (inl (rw (t, f) refl))
    | inl u ↦ inr (inr (rw (t, u) refl))
  ]
]

-- `clearPendingGeneration`
abbrev pub clear_pending_generation : Writes → HostState → HostState
clear_pending_generation w st = record st {
  pending = if w.link_removed then absent else st.pending;
  pending_record = if w.record_removed then none else st.pending_record;
}

-- `AppendLedgerEntry`
abbrev pub append_ledger_entry : Writes → LedgerEntry → HostState → HostState
append_ledger_entry w e st = record st {
  ledger = if w.entry_appended then st.ledger ++ (e ∷ []) else st.ledger;
}
