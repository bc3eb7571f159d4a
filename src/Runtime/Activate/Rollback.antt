-- ===== src/Runtime/Activate/Rollback.antt =====
-- Rollback of internal/runtime/rollback.go with validateCompiledHost of compatibility.go. The directory of a
-- generation, which is the generations' root joined with DirSafeID of the id, is a function.
use oh_my_code_agent.Prelude.{
  String, Bool, true, false, not, Option, none, some, ◌||◌, if◌then◌else◌, str_eq, lookup,
}
use oh_my_code_agent.Prelude.Keys.{string_eq}
use oh_my_code_agent.Domain.Host.{HostFault, validate_host_id}
use oh_my_code_agent.Runtime.Activate.{
  Pointer, absent, corrupt, link, HostTarget, Generation, HostState, LedgerEntry, Writes, Detected,
  surface_of, set_current_generation, append_ledger_entry, rolled_back,
}

-- the arguments of `Rollback`; `root_absolute` is `filepath.IsAbs` of the root
pub record RollbackRequest : Type 0 where
  pub worktree_state_dir : String
  pub generations_root : String
  pub root_absolute : Bool
  pub host : String
  pub detection : Detected
  pub now : Option String

pub data HostMismatch : Type 0 where
  no_target unknown_detection : HostMismatch
  other_version : HostTarget → HostMismatch

pub data RollbackError : Type 0 where
  no_state_dir no_root relative_root no_now lock_taken : RollbackError
  no_current corrupt_current no_parent not_switched not_appended : RollbackError
  bad_host : HostFault → RollbackError
  bad_manifest : String → RollbackError
  no_parent_manifest : String → RollbackError
  other_id : String → RollbackError
  mismatch : HostMismatch → RollbackError

-- `RollbackResult`; the host and the time are those of the request
pub record RollbackResult : Type 0 where
  pub restored_generation_id : String
  pub superseded_generation_id : String

pub data Outcome : Type 0 where
  failed : RollbackError → Outcome
  restored : RollbackResult → Outcome

abbrev pub check_target : Detected → String → Option HostTarget → Option HostMismatch
check_target d host none = some no_target
check_target d host (some t) =
    if str_eq t.host_version "" || str_eq t.surface ""
    then some no_target
    else if not (str_eq d.host host) || (str_eq d.version "" || not (str_eq d.error ""))
    then some unknown_detection
    else if not (str_eq t.host_version d.version) || not (str_eq t.surface (surface_of d))
    then some (other_version t)
    else none

-- `validateCompiledHost`
unfoldable pub validate_compiled_host : Generation → String → Detected → Option HostMismatch
validate_compiled_host gen host d = check_target d host (lookup gen.hosts host)

abbrev pub rollback_entry : RollbackRequest → String → Generation → Generation → LedgerEntry
rollback_entry req now gen parent = record {
  host = req.host;
  generation_id = parent.id;
  kind = rolled_back parent.id gen.id;
  recorded_at = now;
}

-- what follows the switch
abbrev pub log_rollback :
    Writes
    → RollbackRequest
    → String
    → Generation
    → Generation
    → HostState × Bool
    → HostState × Outcome
log_rollback w req now gen parent (st, false) = (st, failed not_switched)
log_rollback w req now gen parent (st, true) = (
  append_ledger_entry w (rollback_entry req now gen parent) st,
  if not w.entry_appended
      then failed not_appended
      else restored
          (record { restored_generation_id = parent.id; superseded_generation_id = gen.id }),
)

-- the check of the parent's host, and the switch
abbrev pub switch_to_parent :
    Writes
    → RollbackRequest
    → String
    → String
    → Generation
    → Generation
    → HostState
    → Option HostMismatch
    → HostState × Outcome
switch_to_parent w req now dir gen parent st (some e) = (st, failed (mismatch e))
switch_to_parent w req now dir gen parent st none =
    log_rollback w req now gen parent (set_current_generation w dir parent req.detection now st)

-- what is done with the parent's manifest
abbrev pub with_parent :
    Writes
    → RollbackRequest
    → String
    → String
    → Generation
    → String
    → HostState
    → Option Generation
    → HostState × Outcome
with_parent w req now dir gen id st none = (st, failed (no_parent_manifest id))
with_parent w req now dir gen id st (some parent) =
    if not (str_eq parent.id id)
    then (st, failed (other_id parent.id))
    else switch_to_parent w req now dir gen parent st
        (validate_compiled_host parent req.host req.detection)

-- what is done with the id of the parent
abbrev pub with_parent_id :
    Writes
    → (String → Option Generation)
    → (String → String)
    → RollbackRequest
    → String
    → Generation
    → HostState
    → Option String
    → HostState × Outcome
with_parent_id w manifest directory req now gen st none = (st, failed no_parent)
with_parent_id w manifest directory req now gen st (some id) =
    if str_eq id ""
    then (st, failed no_parent)
    else with_parent w req now (directory id) gen id st (manifest (directory id))

-- what is done with the manifest of the current generation
abbrev pub with_current_manifest :
    Writes
    → (String → Option Generation)
    → (String → String)
    → RollbackRequest
    → String
    → String
    → HostState
    → Option Generation
    → HostState × Outcome
with_current_manifest w manifest directory req now dir st none = (st, failed (bad_manifest dir))
with_current_manifest w manifest directory req now dir st (some gen) =
    with_parent_id w manifest directory req now gen st gen.parent

-- what `Rollback` does under the lock, on the current pointer
abbrev pub with_current :
    Writes
    → (String → Option Generation)
    → (String → String)
    → RollbackRequest
    → String
    → HostState
    → Pointer
    → HostState × Outcome
with_current w manifest directory req now st absent = (st, failed no_current)
with_current w manifest directory req now st corrupt = (st, failed corrupt_current)
with_current w manifest directory req now st (link dir) =
    with_current_manifest w manifest directory req now dir st (manifest dir)

abbrev pub with_rollback_time :
    Bool
    → Writes
    → (String → Option Generation)
    → (String → String)
    → RollbackRequest
    → HostState
    → Option String
    → HostState × Outcome
with_rollback_time lock w manifest directory req st none = (st, failed no_now)
with_rollback_time lock w manifest directory req st (some now) =
    if not lock
    then (st, failed lock_taken)
    else with_current w manifest directory req now st st.current

abbrev pub with_rollback_host :
    Bool
    → Writes
    → (String → Option Generation)
    → (String → String)
    → RollbackRequest
    → HostState
    → Option HostFault
    → HostState × Outcome
with_rollback_host lock w manifest directory req st (some e) = (st, failed (bad_host e))
with_rollback_host lock w manifest directory req st none =
    with_rollback_time lock w manifest directory req st req.now

-- `Rollback`
unfoldable pub rollback :
    Bool
    → Writes
    → (String → Option Generation)
    → (String → String)
    → RollbackRequest
    → HostState
    → HostState × Outcome
unfolding validate_compiled_host set_current_generation
rollback lock w manifest directory req st =
    if str_eq req.worktree_state_dir ""
    then (st, failed no_state_dir)
    else if str_eq req.generations_root ""
    then (st, failed no_root)
    else if not req.root_absolute
    then (st, failed relative_root)
    else with_rollback_host lock w manifest directory req st (validate_host_id req.host)
