-- ===== src/Runtime/Activate/Atomic.antt =====
-- What it means that the transaction of internal/runtime/activate.go is atomic.
use oh_my_code_agent.Prelude.{String, Option, some, [], ◌∷◌, ◌++◌, ◌≡◌, ◌⊎◌}
use oh_my_code_agent.Runtime.Activate.{
  link, Generation, HostState, CurrentRecord, LedgerEntry, activated, cas_rejected,
}
use oh_my_code_agent.Runtime.Activate.Transaction.{
  ActivateRequest, ActivateError, ActivationResult, Outcome, failed, succeeded,
}

-- The pending pointer leads to a generation that is read, and whose digest is the fresh one.
abbrev pub IsValidated :
    (String → Option Generation) → ActivateRequest → HostState → String → Generation → Type 0
IsValidated manifest req st dir gen =
    (st.pending ≡ link dir)
    × (manifest dir ≡ some gen)
    × (req.fresh_digest ≡ some gen.source_digest)

-- An error that leaves the pointers as they were; at most it logs a rejection.
abbrev pub IsKept : HostState → HostState × Outcome → Type 0
IsKept st (after, out) =
    ((e : ActivateError) × (out ≡ failed e))
    × (after.current ≡ st.current)
    × (after.current_record ≡ st.current_record)
    × (after.pending ≡ st.pending)
    × ((after.ledger ≡ st.ledger)
        ⊎ ((x : LedgerEntry) × (p : String) × (q : String) × (after.ledger ≡ st.ledger ++ (x ∷ []))
            × (x.kind ≡ cas_rejected p q)))

-- The pointer is at a validated generation. A success has logged the activation and written the record; an
-- error has logged nothing.
abbrev pub IsSwitched :
    (String → Option Generation) → ActivateRequest → HostState → HostState × Outcome → Type 0
IsSwitched manifest req st (after, out) =
    (dir : String) × (gen : Generation) × IsValidated manifest req st dir gen
    × (after.current ≡ link dir)
    × ((r : ActivationResult)
        → out ≡ succeeded r
        → (r.activated_generation_id ≡ gen.id)
          × ((x : LedgerEntry) × (after.ledger ≡ st.ledger ++ (x ∷ []))
              × (x.kind ≡ activated r.previous_generation_id gen.id))
          × ((c : CurrentRecord) × (after.current_record ≡ some c) × (c.generation_id ≡ gen.id)))
    × ((e : ActivateError) → out ≡ failed e → after.ledger ≡ st.ledger)

abbrev pub IsAtomic :
    (String → Option Generation) → ActivateRequest → HostState → HostState × Outcome → Type 0
IsAtomic manifest req st result = IsKept st result ⊎ IsSwitched manifest req st result
