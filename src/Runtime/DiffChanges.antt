-- ===== src/Runtime/DiffChanges.antt =====
-- internal/runtime/diffchanges.go: the changes that a pending generation makes to the current one, from
-- the `Spec.Sources` of both.
pub mod Found
use oh_my_code_agent.Prelude.{
  String, Bool, true, false, not, Option, none, some, List, [], ◌∷◌, ◌≡◌, ◌↔◌, ◌&&◌, ◌||◌,
  if◌then◌else◌, str_eq, str_eq_iff, arith, ap, ap₂, contains, ◌∙◌, sym, refl,
}
use oh_my_code_agent.Prelude.Keys.{Eq}
use oh_my_code_agent.Runtime.Confirmation.{
  ProposedChange, ChangeKind, enable_mcp_server, select_reviewed_skill, select_reviewed_instruction,
  expand_access,
}

-- `GenerationSourceEntry`, of which these fields are read
pub record GenerationSourceEntry : Type 0 where
  pub concept : String
  pub source : String
  pub host : String
  pub included : Bool
  pub reason : String

-- `sourceKey`
pub record SourceKey : Type 0 where
  pub concept : String
  pub source : String

abbrev pub source_key : GenerationSourceEntry → SourceKey
source_key s = record { concept = s.concept; source = s.source }

abbrev pub source_key_beq : SourceKey → SourceKey → Bool
source_key_beq a b = str_eq a.concept b.concept && str_eq a.source b.source

pub source_key_beq_iff : (a b : SourceKey) → (source_key_beq a b ≡ true) ↔ (a ≡ b)
source_key_beq_iff a b = (
  λ h. ground (arith, (str_eq_iff a.concept b.concept).0, (str_eq_iff a.source b.source).0),
  λ h. ground (
    arith,
    (str_eq_iff a.concept b.concept).1 (ap (λ k. k.concept) h),
    (str_eq_iff a.source b.source).1 (ap (λ k. k.source) h),
  ),
)

instance abbrev pub source_key_eq : Eq SourceKey
source_key_eq = record { beq = source_key_beq; beq_iff = source_key_beq_iff }

-- the guard of both loops: the entry is included, and of the host
abbrev pub is_active : String → GenerationSourceEntry → Bool
is_active host s = if not s.included || not (str_eq s.host host) then false else true

-- `includedSourceSet`: the keys of its map
unfoldable pub included_source_set : String → List GenerationSourceEntry → List SourceKey
included_source_set host [] = []
included_source_set host (s ∷ ss) =
    let rest = included_source_set host ss in if is_active host s then source_key s ∷ rest else rest

-- the switch over the concept
abbrev pub change_kind : String → Option ChangeKind
change_kind concept =
    if str_eq concept "mcpServer"
    then some enable_mcp_server
    else if str_eq concept "skill"
    then some select_reviewed_skill
    else if str_eq concept "instruction"
    then some select_reviewed_instruction
    else if str_eq concept "permission"
    then some expand_access
    else none

-- `detail`
abbrev pub detail_of : GenerationSourceEntry → List (String × String)
detail_of s = if str_eq s.reason "" then [] else ("reason", s.reason) ∷ []

abbrev pub change_of : String → GenerationSourceEntry → ChangeKind → ProposedChange
change_of host s kind = record {
  kind = kind;
  asset_id = s.source;
  host = host;
  detail = detail_of s;
}

abbrev pub change_from : String → GenerationSourceEntry → Option ChangeKind → Option ProposedChange
change_from host s none = none
change_from host s (some kind) = some (change_of host s kind)

-- one round of the loop of `DiffProposedChanges`
unfoldable pub proposed_change :
    List SourceKey → String → GenerationSourceEntry → Option ProposedChange
proposed_change before host s =
    if not (is_active host s)
    then none
    else if contains before (source_key s)
    then none
    else change_from host s (change_kind s.concept)

abbrev pub append_some : Option ProposedChange → List ProposedChange → List ProposedChange
append_some none cs = cs
append_some (some c) cs = c ∷ cs

unfoldable pub proposed_changes :
    List SourceKey → String → List GenerationSourceEntry → List ProposedChange
unfolding proposed_change
proposed_changes before host [] = []
proposed_changes before host (s ∷ ss) =
    append_some (proposed_change before host s) (proposed_changes before host ss)

-- `DiffProposedChanges`
unfoldable pub diff_proposed_changes :
    List GenerationSourceEntry → List GenerationSourceEntry → String → List ProposedChange
unfolding proposed_changes included_source_set
diff_proposed_changes current pending host =
    proposed_changes (included_source_set host current) host pending
