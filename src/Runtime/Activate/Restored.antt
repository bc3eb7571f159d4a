-- ===== src/Runtime/Activate/Restored.antt =====
-- Where the rollback of internal/runtime/rollback.go leads, also after the transaction of activate.go.
use oh_my_code_agent.Prelude.{
  String, Bool, true, false, Option, none, some, [], ◌∷◌, ◌++◌, ◌≡◌, ◌⊎◌, refl, sym, ap, subst, ◌∙◌,
  arith, inl, inr, str_eq, str_eq_iff, Bool-cases,
}
use oh_my_code_agent.Domain.Host.{HostFault, validate_host_id}
use oh_my_code_agent.Runtime.Activate.{
  Pointer, absent, corrupt, link, Generation, HostState, Writes, set_current_generation-cases,
}
use oh_my_code_agent.Runtime.Activate.Transaction.{
  ActivateRequest, ActivationResult, succeeded, activate,
}
use oh_my_code_agent.Runtime.Activate.Atomic.{IsAtomic}
use oh_my_code_agent.Runtime.Activate.Switched.{activate-IsAtomic}
use oh_my_code_agent.Runtime.Activate.Rollback.{
  RollbackRequest, RollbackError, RollbackResult, Outcome, failed, restored, HostMismatch,
  validate_compiled_host, rollback_entry, log_rollback, switch_to_parent, with_parent,
  with_parent_id, with_current_manifest, with_current, with_rollback_time, with_rollback_host,
  rollback,
}

-- The current generation is read and names a parent, whose manifest is read, has that id and is compiled for
-- the host that is detected.
abbrev pub HasParent :
    (String → Option Generation)
    → (String → String)
    → RollbackRequest
    → HostState
    → String
    → Generation
    → Generation
    → Type 0
HasParent manifest directory req st dir gen parent =
    (st.current ≡ link dir)
    × (manifest dir ≡ some gen)
    × (gen.parent ≡ some parent.id)
    × (manifest (directory parent.id) ≡ some parent)
    × (validate_compiled_host parent req.host req.detection ≡ none)

-- An error that changes nothing, or a switch to that parent, which a success has logged.
abbrev pub IsRolledBack :
    (String → Option Generation)
    → (String → String)
    → RollbackRequest
    → HostState
    → HostState × Outcome
    → Type 0
IsRolledBack manifest directory req st (after, out) =
    (((e : RollbackError) × (out ≡ failed e)) × (after ≡ st))
    ⊎ ((dir : String) × (gen : Generation) × (parent : Generation) × HasParent manifest directory
          req st dir gen parent
        × (after.current ≡ link (directory parent.id))
        × (after.pending ≡ st.pending)
        × ((r : RollbackResult)
            → out ≡ restored r
            → (r.restored_generation_id ≡ parent.id)
              × (r.superseded_generation_id ≡ gen.id)
              × ((now : String) × (after.ledger
                    ≡ st.ledger ++ (rollback_entry req now gen parent ∷ []))))
        × ((e : RollbackError) → out ≡ failed e → after.ledger ≡ st.ledger))

module _ (w : Writes) (manifest : String → Option Generation) (directory : String → String)
    (req : RollbackRequest) (st : HostState) where
  unchanged : (e : RollbackError) → IsRolledBack manifest directory req st (st, failed e)
  unchanged e = inl ((e, refl), refl)

  log_rollback-IsRolledBack :
      (now dir : String) (gen parent : Generation) (switched : HostState) (ok : Bool)
      → HasParent manifest directory req st dir gen parent
      → switched.current ≡ link (directory parent.id)
      → switched.pending ≡ st.pending
      → switched.ledger ≡ st.ledger
      → IsRolledBack manifest directory req st (log_rollback w req now gen parent (switched, ok))
  log_rollback-IsRolledBack now dir gen parent switched false h at_dir pending ledger =
      inr (dir, gen, parent, h, at_dir, pending, λ r e. absurd (ground arith), λ x e. ledger)
  log_rollback-IsRolledBack now dir gen parent switched true h at_dir pending ledger =
      elim (Bool-cases w.entry_appended) [
        | inr lost ↦ rw lost (
            inr (dir, gen, parent, h, at_dir, pending, λ r e. absurd (ground arith), λ x e. ledger))
        | inl t ↦ rw t (
            inr (
              dir,
              gen,
              parent,
              h,
              at_dir,
              pending,
              λ r e.
                  let told : record {
                    restored_generation_id = parent.id;
                    superseded_generation_id = gen.id;
                  }
                      ≡ r =
                    ground (arith, e) in
                  (
                    sym (ap (λ x. x.restored_generation_id) told),
                    sym (ap (λ x. x.superseded_generation_id) told),
                    (now, ap (λ l. l ++ (rollback_entry req now gen parent ∷ [])) ledger),
                  ),
              λ x e. absurd (ground arith),
            ))
      ]

  switch_to_parent-IsRolledBack :
      (now dir : String) (gen parent : Generation) (o : Option HostMismatch)
      → st.current ≡ link dir
      → manifest dir ≡ some gen
      → gen.parent ≡ some parent.id
      → manifest (directory parent.id) ≡ some parent
      → validate_compiled_host parent req.host req.detection ≡ o
      → IsRolledBack manifest directory req st
          (switch_to_parent w req now (directory parent.id) gen parent st o)
  switch_to_parent-IsRolledBack now dir gen parent (some e) c m p pm v = unchanged _
  switch_to_parent-IsRolledBack now dir gen parent none c m p pm v =
      elim (set_current_generation-cases w (directory parent.id) parent req.detection now st) [
        | inl e ↦ rw e (unchanged _)
        | inr (inl e) ↦
            rw e
              (log_rollback-IsRolledBack now dir gen parent _ false (c, m, p, pm, v) refl refl refl)
        | inr (inr e) ↦
            rw e
              (log_rollback-IsRolledBack now dir gen parent _ true (c, m, p, pm, v) refl refl refl)
      ]

  with_parent-IsRolledBack :
      (now dir id : String) (gen : Generation) (o : Option Generation)
      → st.current ≡ link dir
      → manifest dir ≡ some gen
      → gen.parent ≡ some id
      → manifest (directory id) ≡ o
      → IsRolledBack manifest directory req st (with_parent w req now (directory id) gen id st o)
  with_parent-IsRolledBack now dir id gen none c m p pm = unchanged _
  with_parent-IsRolledBack now dir id gen (some parent) c m p pm =
      elim (Bool-cases (str_eq parent.id id)) [
        | inr f ↦ rw f (unchanged _)
        | inl t ↦
            let same : parent.id ≡ id = (str_eq_iff parent.id id).0 t in
            rw t (
              subst
                (λ x. IsRolledBack manifest directory req st (
                  switch_to_parent w req now (directory x) gen parent st
                    (validate_compiled_host parent req.host req.detection)))
                same
                (switch_to_parent-IsRolledBack now dir gen parent _ c m (p ∙ ap some (sym same))
                  (ap (λ x. manifest (directory x)) same ∙ pm) refl))
      ]

  with_parent_id-IsRolledBack :
      (now dir : String) (gen : Generation) (o : Option String)
      → st.current ≡ link dir
      → manifest dir ≡ some gen
      → gen.parent ≡ o
      → IsRolledBack manifest directory req st
          (with_parent_id w manifest directory req now gen st o)
  with_parent_id-IsRolledBack now dir gen none c m p = unchanged _
  with_parent_id-IsRolledBack now dir gen (some id) c m p = elim (Bool-cases (str_eq id "")) [
    | inl t ↦ rw t (unchanged _)
    | inr f ↦ rw f (with_parent-IsRolledBack now dir id gen (manifest (directory id)) c m p refl)
  ]

  with_current_manifest-IsRolledBack :
      (now dir : String) (o : Option Generation)
      → st.current ≡ link dir
      → manifest dir ≡ o
      → IsRolledBack manifest directory req st
          (with_current_manifest w manifest directory req now dir st o)
  with_current_manifest-IsRolledBack now dir none c m = unchanged _
  with_current_manifest-IsRolledBack now dir (some gen) c m =
      with_parent_id-IsRolledBack now dir gen gen.parent c m refl

  with_current-IsRolledBack :
      (now : String) (p : Pointer)
      → st.current ≡ p
      → IsRolledBack manifest directory req st (with_current w manifest directory req now st p)
  with_current-IsRolledBack now absent c = unchanged _
  with_current-IsRolledBack now corrupt c = unchanged _
  with_current-IsRolledBack now (link dir) c =
      with_current_manifest-IsRolledBack now dir (manifest dir) c refl

  with_rollback_time-IsRolledBack :
      (lock : Bool) (now : Option String)
      → IsRolledBack manifest directory req st
          (with_rollback_time lock w manifest directory req st now)
  with_rollback_time-IsRolledBack lock none = unchanged _
  with_rollback_time-IsRolledBack false (some now) = unchanged _
  with_rollback_time-IsRolledBack true (some now) = with_current-IsRolledBack now st.current refl

  with_rollback_host-IsRolledBack :
      (lock : Bool) (o : Option HostFault)
      → IsRolledBack manifest directory req st
          (with_rollback_host lock w manifest directory req st o)
  with_rollback_host-IsRolledBack lock (some e) = unchanged _
  with_rollback_host-IsRolledBack lock none = with_rollback_time-IsRolledBack lock req.now

  -- Whatever writes fail, Rollback either changes nothing and returns an error, or it has switched the current
  -- pointer to the parent that the current generation names, whose manifest is read and compiled for the
  -- detected host; then a success has logged it, and an error has logged nothing.
  pub rollback-IsRolledBack :
      (lock : Bool)
      → IsRolledBack manifest directory req st (rollback lock w manifest directory req st)
  unfolding rollback
  rollback-IsRolledBack lock = elim (Bool-cases (str_eq req.worktree_state_dir "")) [
    | inl t ↦ rw t (unchanged _)
    | inr f ↦ elim (Bool-cases (str_eq req.generations_root "")) [
      | inl t ↦ rw (f, t) (unchanged _)
      | inr g ↦ elim (Bool-cases req.root_absolute) [
        | inr r ↦ rw (f, g, r) (unchanged _)
        | inl a ↦ rw (f, g, a) (with_rollback_host-IsRolledBack lock (validate_host_id req.host))
      ]
    ]
  ]

  -- the pointer after a success
  restored_pointer :
      (lock : Bool) (after : HostState) (r : RollbackResult) (dir parent : String)
      (gen : Generation)
      → rollback lock w manifest directory req st ≡ (after, restored r)
      → st.current ≡ link dir
      → manifest dir ≡ some gen
      → gen.parent ≡ some parent
      → after.current ≡ link (directory parent)
  restored_pointer lock after r dir parent gen h at_dir m p =
      elim (subst (IsRolledBack manifest directory req st) h (rollback-IsRolledBack lock)) [
        | inl ((e, f), same) ↦ absurd (ground (arith, f))
        | inr (dir', gen', parent', (c, m', p', pm, v), cur, q1, q2, q3) ↦
            let same_dir : dir ≡ dir' = ground (arith, sym at_dir ∙ c) in
            let same_gen : gen ≡ gen' = ground (arith, sym m ∙ ap manifest same_dir ∙ m') in
            let same_id : parent'.id ≡ parent =
              ground (arith, sym p' ∙ ap (λ g. g.parent) (sym same_gen) ∙ p) in
            cur ∙ ap (λ x. link (directory x)) same_id
      ]

-- A success of Rollback after a success of Activate leads back to where the current pointer was before, if the
-- generation that was pending names as its parent the one whose directory that is.
pub rollback-activate :
    (lock : Bool) (w v : Writes) (manifest : String → Option Generation)
    (directory : String → String) (req : ActivateRequest) (back : RollbackRequest)
    (st mid after : HostState) (dir parent : String) (gen : Generation) (a : ActivationResult)
    (r : RollbackResult)
    → st.pending ≡ link dir
    → manifest dir ≡ some gen
    → gen.parent ≡ some parent
    → st.current ≡ link (directory parent)
    → activate lock w manifest req st ≡ (mid, succeeded a)
    → rollback lock v manifest directory back mid ≡ (after, restored r)
    → after.current ≡ st.current
rollback-activate lock w v manifest directory req back st mid after dir parent gen a r pending m p
      current h k =
    elim (subst (IsAtomic manifest req st) h (activate-IsAtomic lock w manifest req st)) [
      | inl ((e, f), q1, q2, q3, q4) ↦ absurd (ground (arith, f))
      | inr (dir', gen', (c, m', d), cur, q1, q2) ↦
          let same_dir : dir ≡ dir' = ground (arith, sym pending ∙ c) in
          restored_pointer v manifest directory back mid lock after r dir parent gen k
            (cur ∙ ap link (sym same_dir)) m p
          ∙ sym current
    ]
