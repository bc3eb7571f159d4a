-- ===== src/Runtime/Activate/Switched.antt =====
-- When the transaction of internal/runtime/activate.go switches the current generation.
use oh_my_code_agent.Prelude.{
  String, Bool, true, false, Option, none, some, [], ◌∷◌, ◌++◌, ◌≡◌, ◌⊎◌, refl, sym, ap, ◌∙◌, arith,
  inl, inr, str_eq, str_eq_iff, Bool-cases,
}
use oh_my_code_agent.Domain.Host.{HostFault, validate_host_id}
use oh_my_code_agent.Runtime.Activate.{
  Pointer, absent, corrupt, link, Generation, HostState, CurrentRecord, Writes, Detected,
  LedgerEntry, set_current_generation, set_current_generation-cases, current_record_of,
  append_ledger_entry, activated, cas_rejected,
}
use oh_my_code_agent.Runtime.Activate.Transaction.{
  ActivateRequest, ActivateError, failed, no_host_entry, validate_pending, cas_check,
  switch_current, append_ledger, previous_id, detection_for_host, activated_entry, rejected_entry,
  compare_digests, with_previous, with_manifest, with_pending, with_now, with_host, no_fresh_digest,
  append_activated, finish_switch, switch_to_pending, check_digest, activate_locked, activate,
}
use oh_my_code_agent.Runtime.Activate.Atomic.{IsValidated, IsAtomic}

unchanged :
    (manifest : String → Option Generation) (req : ActivateRequest) (st : HostState)
    (e : ActivateError)
    → IsAtomic manifest req st (st, failed e)
unchanged manifest req st e = inl ((e, refl), refl, refl, refl, inl refl)

append_activated-IsAtomic :
    (w : Writes) (manifest : String → Option Generation) (req : ActivateRequest) (now dir : String)
    (gen : Generation) (previous : String) (st switched : HostState)
    → IsValidated manifest req st dir gen
    → switched.current ≡ link dir
    → switched.ledger ≡ st.ledger
    → (c : CurrentRecord) × (switched.current_record ≡ some c) × (c.generation_id ≡ gen.id)
    → IsAtomic manifest req st (append_activated w req now gen previous switched)
unfolding append_activated
append_activated-IsAtomic w manifest req now dir gen previous st switched v at_dir same recorded =
    elim (Bool-cases (req.on_step append_ledger)) [
      | inl t ↦ rw t (inr (dir, gen, v, at_dir, λ r h. absurd (ground arith), λ e h. same))
      | inr f ↦ elim (Bool-cases w.entry_appended) [
        | inr lost ↦
            rw (f, lost) (inr (dir, gen, v, at_dir, λ r h. absurd (ground arith), λ e h. same))
        | inl t ↦
            rw (f, t)
              (inr (
                dir,
                gen,
                v,
                at_dir,
                λ r h.
                    let told : record {
                      previous_generation_id = previous;
                      activated_generation_id = gen.id;
                    }
                        ≡ r =
                      ground (arith, h) in
                    (
                      sym (ap (λ x. x.activated_generation_id) told),
                      (
                        activated_entry req now gen previous,
                        ap (λ l. l ++ (activated_entry req now gen previous ∷ [])) same,
                        ap (λ x. activated x.previous_generation_id gen.id) told,
                      ),
                      recorded,
                    ),
                λ e h. absurd (ground arith),
              ))
      ]
    ]

switch_detected-IsAtomic :
    (w : Writes) (manifest : String → Option Generation) (req : ActivateRequest) (now dir : String)
    (gen : Generation) (previous : String) (st : HostState) (d : Detected)
    → IsValidated manifest req st dir gen
    → IsAtomic manifest req st
        (finish_switch w req now gen previous (set_current_generation w dir gen d now st))
unfolding finish_switch
switch_detected-IsAtomic w manifest req now dir gen previous st d v =
    elim (set_current_generation-cases w dir gen d now st) [
      | inl e ↦ rw e (unchanged manifest req st _)
      | inr (inl e) ↦ rw e (inr (dir, gen, v, refl, λ r h. absurd (ground arith), λ x h. refl))
      | inr (inr e) ↦ rw e (
          append_activated-IsAtomic w manifest req now dir gen previous st _ v refl refl
            (current_record_of gen d now, refl, refl))
    ]

switch_to_pending-IsAtomic :
    (w : Writes) (manifest : String → Option Generation) (req : ActivateRequest) (now dir : String)
    (gen : Generation) (previous : String) (st : HostState)
    → IsValidated manifest req st dir gen
    → IsAtomic manifest req st (switch_to_pending w req now dir gen previous st)
unfolding switch_to_pending
switch_to_pending-IsAtomic w manifest req now dir gen previous st v =
    elim (Bool-cases (req.on_step switch_current)) [
      | inl t ↦ rw t (unchanged manifest req st _)
      | inr f ↦ rw f (with_detection (detection_for_host req.fresh_hosts req.host))
    ]
  where
    with_detection :
        (o : Option Detected)
        → IsAtomic manifest req st (elim o [
          | none ↦ (st, failed no_host_entry)
          | some d ↦
              finish_switch w req now gen previous (set_current_generation w dir gen d now st)
        ])
    with_detection none = unchanged manifest req st _
    with_detection (some d) = switch_detected-IsAtomic w manifest req now dir gen previous st d v

rejection_logged :
    (w : Writes) (gen : Generation) (req : ActivateRequest) (now fresh : String) (st : HostState)
    → let after = append_ledger_entry w (rejected_entry req now gen fresh) st in
      (after.ledger ≡ st.ledger)
      ⊎ ((x : LedgerEntry) × (p : String) × (q : String) × (after.ledger ≡ st.ledger ++ (x ∷ []))
          × (x.kind ≡ cas_rejected p q))
rejection_logged w gen req now fresh st = elim (Bool-cases w.entry_appended) [
  | inr f ↦ inl (rw f refl)
  | inl t ↦ inr (rejected_entry req now gen fresh, gen.source_digest, fresh, rw t refl, refl)
]

compare_digests-IsAtomic :
    (w : Writes) (manifest : String → Option Generation) (req : ActivateRequest) (now dir : String)
    (gen : Generation) (previous : String) (st : HostState) (fresh : String)
    → st.pending ≡ link dir
    → manifest dir ≡ some gen
    → req.fresh_digest ≡ some fresh
    → IsAtomic manifest req st (compare_digests w req now dir gen previous st fresh)
unfolding compare_digests
compare_digests-IsAtomic w manifest req now dir gen previous st fresh at_dir is_read is_fresh =
    elim (Bool-cases (str_eq fresh gen.source_digest)) [
      | inl t ↦ rw t (
          switch_to_pending-IsAtomic w manifest req now dir gen previous st
            (at_dir, is_read, is_fresh ∙ ap some ((str_eq_iff fresh gen.source_digest).0 t)))
      | inr f ↦ rw f (inl ((_, refl), refl, refl, refl, rejection_logged w gen req now fresh st))
    ]

check_digest-IsAtomic :
    (w : Writes) (manifest : String → Option Generation) (req : ActivateRequest) (now dir : String)
    (gen : Generation) (previous : String) (st : HostState)
    → st.pending ≡ link dir
    → manifest dir ≡ some gen
    → IsAtomic manifest req st (check_digest w req now dir gen previous st)
unfolding check_digest
check_digest-IsAtomic w manifest req now dir gen previous st at_dir is_read =
    elim (Bool-cases (req.on_step cas_check)) [
      | inl t ↦ rw t (unchanged manifest req st _)
      | inr f ↦ rw f (with_digest req.fresh_digest refl)
    ]
  where
    with_digest :
        (o : Option String)
        → req.fresh_digest ≡ o
        → IsAtomic manifest req st (elim o [
          | none ↦ (st, failed no_fresh_digest)
          | some fresh ↦ compare_digests w req now dir gen previous st fresh
        ])
    with_digest none e = unchanged manifest req st _
    with_digest (some fresh) e =
        compare_digests-IsAtomic w manifest req now dir gen previous st fresh at_dir is_read e

with_previous-IsAtomic :
    (w : Writes) (manifest : String → Option Generation) (req : ActivateRequest) (now dir : String)
    (gen : Generation) (st : HostState) (o : Option String)
    → st.pending ≡ link dir
    → manifest dir ≡ some gen
    → IsAtomic manifest req st (with_previous w req now dir gen st o)
with_previous-IsAtomic w manifest req now dir gen st none at_dir is_read =
    unchanged manifest req st _
with_previous-IsAtomic w manifest req now dir gen st (some previous) at_dir is_read =
    check_digest-IsAtomic w manifest req now dir gen previous st at_dir is_read

with_manifest-IsAtomic :
    (w : Writes) (manifest : String → Option Generation) (req : ActivateRequest) (now dir : String)
    (st : HostState) (o : Option Generation)
    → st.pending ≡ link dir
    → manifest dir ≡ o
    → IsAtomic manifest req st (with_manifest w manifest req now dir st o)
with_manifest-IsAtomic w manifest req now dir st none at_dir is_read = unchanged manifest req st _
with_manifest-IsAtomic w manifest req now dir st (some gen) at_dir is_read =
    with_previous-IsAtomic w manifest req now dir gen st (previous_id manifest st.current) at_dir
      is_read

with_pending-IsAtomic :
    (w : Writes) (manifest : String → Option Generation) (req : ActivateRequest) (now : String)
    (st : HostState) (p : Pointer)
    → st.pending ≡ p
    → IsAtomic manifest req st (with_pending w manifest req now st p)
with_pending-IsAtomic w manifest req now st absent h = unchanged manifest req st _
with_pending-IsAtomic w manifest req now st corrupt h = unchanged manifest req st _
with_pending-IsAtomic w manifest req now st (link dir) h =
    with_manifest-IsAtomic w manifest req now dir st (manifest dir) h refl

activate_locked-IsAtomic :
    (w : Writes) (manifest : String → Option Generation) (req : ActivateRequest) (now : String)
    (st : HostState)
    → IsAtomic manifest req st (activate_locked w manifest req now st)
unfolding activate_locked
activate_locked-IsAtomic w manifest req now st = elim (Bool-cases (req.on_step validate_pending)) [
  | inl t ↦ rw t (unchanged manifest req st _)
  | inr f ↦ rw f (with_pending-IsAtomic w manifest req now st st.pending refl)
]

with_now-IsAtomic :
    (lock : Bool) (w : Writes) (manifest : String → Option Generation) (req : ActivateRequest)
    (st : HostState) (now : Option String)
    → IsAtomic manifest req st (with_now lock w manifest req st now)
with_now-IsAtomic lock w manifest req st none = unchanged manifest req st _
with_now-IsAtomic false w manifest req st (some now) = unchanged manifest req st _
with_now-IsAtomic true w manifest req st (some now) = activate_locked-IsAtomic w manifest req now st

with_host-IsAtomic :
    (lock : Bool) (w : Writes) (manifest : String → Option Generation) (req : ActivateRequest)
    (st : HostState) (o : Option HostFault)
    → IsAtomic manifest req st (with_host lock w manifest req st o)
with_host-IsAtomic lock w manifest req st (some e) = unchanged manifest req st _
with_host-IsAtomic lock w manifest req st none = with_now-IsAtomic lock w manifest req st req.now

-- Whatever writes fail and at whatever step a hook aborts it, Activate either leaves the pointers and the
-- record of the current generation as they were, returns an error and logs at most a rejection; or it has
-- switched the current pointer to the pending generation, whose manifest is read and whose source digest is
-- the fresh one. In that case a success has logged the activation and written the record of that generation,
-- and an error has logged nothing.
pub activate-IsAtomic :
    (lock : Bool) (w : Writes) (manifest : String → Option Generation) (req : ActivateRequest)
    (st : HostState)
    → IsAtomic manifest req st (activate lock w manifest req st)
unfolding activate
activate-IsAtomic lock w manifest req st = elim (Bool-cases (str_eq req.worktree_state_dir "")) [
  | inl t ↦ rw t (unchanged manifest req st _)
  | inr f ↦ rw f (with_host-IsAtomic lock w manifest req st (validate_host_id req.host))
]
