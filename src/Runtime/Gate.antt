-- ===== src/Runtime/Gate.antt =====
-- The gate of `omca activate`: RequireConfirmation of internal/runtime/confirmation.go on the changes that
-- DiffProposedChanges of internal/runtime/diffchanges.go finds.
use oh_my_code_agent.Prelude.{
  String, Bool, true, false, none, some, List, ◌≡◌, ◌↔◌, ◌⊎◌, refl, subst, arith, inl, inr, In,
  Bool-cases, contains,
}
use oh_my_code_agent.Prelude.Keys.{contains→In, In→contains}
use oh_my_code_agent.Runtime.Confirmation.{
  ConfirmationKey, ChangeKind, enable_mcp_server, expand_access, classify_change, classify_kind,
  key, require_confirmation,
}
use oh_my_code_agent.Runtime.Confirmation.Pending.{IsPending, require_confirmation-IsPending}
use oh_my_code_agent.Runtime.DiffChanges.{
  GenerationSourceEntry, source_key, source_key_eq, is_active, included_source_set, change_kind,
  change_of, diff_proposed_changes,
}
use oh_my_code_agent.Runtime.DiffChanges.Found.{
  HasActive, included_source_set-In_iff, proposed_changes-In_iff, change_kind_mcp_server,
  change_kind_permission, change_kind-cases, proposed_change-some, proposed_change-view,
}

-- The entry was active before, or the operator confirmed the change of the kind to the entry's source.
abbrev pub IsAllowed :
    (ConfirmationKey → Bool)
    → List GenerationSourceEntry
    → String
    → GenerationSourceEntry
    → ChangeKind
    → Type 0
IsAllowed confirmed current host s kind =
    HasActive host (source_key s) current
    ⊎ (confirmed (record { kind = kind; asset_id = s.source; host = host }) ≡ true)

allowed :
    (confirmed : ConfirmationKey → Bool) (current pending : List GenerationSourceEntry)
    (host : String) (s : GenerationSourceEntry) (kind : ChangeKind)
    → require_confirmation (diff_proposed_changes current pending host) confirmed ≡ none
    → In s pending
    → is_active host s ≡ true
    → change_kind s.concept ≡ some kind
    → (classify_kind kind).requires_confirmation ≡ true
    → IsAllowed confirmed current host s kind
unfolding diff_proposed_changes classify_change
allowed confirmed current pending host s kind h i on is_kind risky =
    elim (Bool-cases (contains (included_source_set host current) (source_key s))) [
      | inl old ↦ inl ((included_source_set-In_iff host _ current).0 (contains→In _ _ old))
      | inr new ↦ elim (Bool-cases (confirmed (key (change_of host s kind)))) [
        | inl told ↦ inr told
        | inr untold ↦ absurd (
            (require_confirmation-IsPending _ confirmed).0.0 h (change_of host s kind)
              ((proposed_changes-In_iff _ host _ pending).1
                (s, i, proposed_change-some _ host s kind on new is_kind))
              (risky, untold))
      ]
    ]

not_waiting :
    (confirmed : ConfirmationKey → Bool) (current : List GenerationSourceEntry) (host : String)
    (s : GenerationSourceEntry) (kind : ChangeKind)
    → contains (included_source_set host current) (source_key s) ≡ false
    → IsAllowed confirmed current host s kind
    → ¬ IsPending confirmed (change_of host s kind)
not_waiting confirmed current host s kind new (inl old) waits =
    ground (arith, new, In→contains _ _ ((included_source_set-In_iff host _ current).1 old))
not_waiting confirmed current host s kind new (inr told) waits = ground (arith, told, waits.1)

-- Activation is blocked unless every MCP server and every permission that is active for the host in the pending
-- generation was active for it in the current one or is confirmed for that host under that very source; nothing
-- else blocks it.
pub activation_gate_iff :
    (confirmed : ConfirmationKey → Bool) (current pending : List GenerationSourceEntry)
    (host : String)
    → (require_confirmation (diff_proposed_changes current pending host) confirmed ≡ none) ↔ (
        (s : GenerationSourceEntry)
        → In s pending
        → is_active host s ≡ true
        → (s.concept ≡ "mcpServer" → IsAllowed confirmed current host s enable_mcp_server)
          × (s.concept ≡ "permission" → IsAllowed confirmed current host s expand_access))
unfolding diff_proposed_changes classify_change classify_kind
activation_gate_iff confirmed current pending host = (
  λ h s i t. (
    λ e. allowed confirmed current pending host s _ h i t (rw e change_kind_mcp_server) refl,
    λ e. allowed confirmed current pending host s _ h i t (rw e change_kind_permission) refl,
  ),
  λ h. (require_confirmation-IsPending _ confirmed).0.1 λ c j waits.
      let (s, i, e) = (proposed_changes-In_iff _ host c pending).0 j in
      let (on, new, (kind, is_kind, same)) = proposed_change-view _ host s c e in
      let waiting = subst (IsPending confirmed) same waits in
      not_waiting confirmed current host s kind new
        (elim (change_kind-cases s.concept kind is_kind waiting.0) [
          | inl (e, k) ↦ rw k ((h s i on).0 e)
          | inr (e, k) ↦ rw k ((h s i on).1 e)
        ])
        waiting,
)
