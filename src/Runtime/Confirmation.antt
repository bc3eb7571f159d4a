-- ===== src/Runtime/Confirmation.antt =====
-- internal/runtime/confirmation.go: which changes of an activation an operator confirms first. The
-- explanations, which are prose, are left out.
pub mod Pending
use oh_my_code_agent.Prelude.{
  String, Bool, true, false, not, Option, none, some, List, [], ◌∷◌, if◌then◌else◌, map,
}

-- `ConfirmationClass`
pub data ConfirmationClass : Type 0 where
  auto_stage with_detail always reviewable_diff prohibited : ConfirmationClass

-- `ChangeKind`
pub data ChangeKind : Type 0 where
  select_reviewed_instruction select_reviewed_skill model_or_display_preference : ChangeKind
  enable_mcp_server enable_hook_plugin_extension expand_access : ChangeKind
  modify_shared_profile import_native_credential : ChangeKind
  other : String → ChangeKind

-- `ProposedChange`
pub record ProposedChange : Type 0 where
  pub kind : ChangeKind
  pub asset_id : String
  pub host : String
  pub detail : List (String × String)

-- `ConfirmationRequirement`
pub record ConfirmationRequirement : Type 0 where
  pub confirmation_class : ConfirmationClass
  pub requires_confirmation : Bool
  pub required_detail_keys : List String
  pub reachable : Bool

abbrev requirement : ConfirmationClass → Bool → List String → Bool → ConfirmationRequirement
requirement c required keys reachable = record {
  confirmation_class = c;
  requires_confirmation = required;
  required_detail_keys = keys;
  reachable = reachable;
}

-- the switch of `ClassifyChange`
unfoldable pub classify_kind : ChangeKind → ConfirmationRequirement
classify_kind select_reviewed_instruction = requirement auto_stage false [] true
classify_kind select_reviewed_skill = requirement auto_stage false [] true
classify_kind model_or_display_preference = requirement auto_stage false [] false
classify_kind enable_mcp_server =
    requirement with_detail true ("command" ∷ "networkDestinations" ∷ "secretReferences" ∷ []) true
classify_kind enable_hook_plugin_extension = requirement always true [] false
classify_kind expand_access = requirement always true [] true
classify_kind modify_shared_profile = requirement reviewable_diff true [] false
classify_kind import_native_credential = requirement prohibited true [] false
classify_kind (other kind) = requirement always true [] false

-- `ClassifyChange`
unfoldable pub classify_change : ProposedChange → ConfirmationRequirement
unfolding classify_kind
classify_change c = classify_kind c.kind

-- `ConfirmationKey`
pub record ConfirmationKey : Type 0 where
  pub kind : ChangeKind
  pub asset_id : String
  pub host : String

-- `ProposedChange.Key`
abbrev pub key : ProposedChange → ConfirmationKey
key c = record { kind = c.kind; asset_id = c.asset_id; host = c.host }

-- `ConfirmationRequiredError`
pub record ConfirmationRequiredError : Type 0 where
  pub requirements : List ConfirmationRequirement
  pub changes : List ProposedChange

-- the loop of `RequireConfirmation`: `pendingReqs` and `pendingChanges`
unfoldable pub pending_changes :
    (ConfirmationKey → Bool)
    → List ProposedChange
    → List ConfirmationRequirement × List ProposedChange
unfolding classify_change
pending_changes confirmed [] = ([], [])
pending_changes confirmed (c ∷ cs) =
    let rest = pending_changes confirmed cs in
    if not (classify_change c).requires_confirmation
    then rest
    else if confirmed (key c)
    then rest
    else (classify_change c ∷ rest.0, c ∷ rest.1)

abbrev pub required_error :
    List ConfirmationRequirement × List ProposedChange → Option ConfirmationRequiredError
required_error ([], changes) = none
required_error (r ∷ rs, changes) = some record { requirements = r ∷ rs; changes = changes }

-- `RequireConfirmation`; `confirmed` is the map, false at a key that it does not have
unfoldable pub require_confirmation :
    List ProposedChange → (ConfirmationKey → Bool) → Option ConfirmationRequiredError
unfolding pending_changes
require_confirmation changes confirmed = required_error (pending_changes confirmed changes)
