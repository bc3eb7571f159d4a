-- ===== src/Domain/Validate/Denied.antt =====
-- `ValidateActivationAgainstProfiles` of internal/domain/activation.go.
pub mod Recorded
pub mod Accepts
use oh_my_code_agent.Prelude.{
  String, Bool, true, false, Option, none, some, List, [], ◌∷◌, ◌++◌, if◌then◌else◌,
}
use oh_my_code_agent.Prelude.Keys.{contains, lookup, string_eq}
use oh_my_code_agent.Domain.Levels.{denied, intent_beq}
use oh_my_code_agent.Domain.Documents.{
  AssetRef, Profile, Activation, ActivationSelection, HostActivation,
}

-- `deniedScope`
pub record DeniedScope : Type 0 where
  pub host_neutral : Bool
  pub hosts : List String

unfoldable pub scope_applies_to : DeniedScope → String → Bool
scope_applies_to d host = if d.host_neutral then true else contains d.hosts host

abbrev pub DeniedMap : Type 0
DeniedMap = List (String × DeniedScope)

abbrev pub or_empty : Option DeniedScope → DeniedScope
or_empty none = record { host_neutral = false; hosts = [] }
or_empty (some s) = s

abbrev pub widen : DeniedScope → List String → DeniedScope
widen s [] = record s { host_neutral = true }
widen s (h ∷ hs) = record s { hosts = (h ∷ hs) ++ s.hosts }

-- the closure `record`: a write puts the new scope in front of the old one
unfoldable pub record_denied : AssetRef → DeniedMap → DeniedMap
record_denied ref m =
    if intent_beq ref.intent denied
    then (ref.id, widen (or_empty (lookup m ref.id)) ref.hosts) ∷ m
    else m

unfoldable pub record_all : List AssetRef → DeniedMap → DeniedMap
record_all [] m = m
record_all (r ∷ rs) m = record_all rs (record_denied r m)

abbrev pub record_profile : Profile → DeniedMap → DeniedMap
record_profile p m =
    record_all p.assets.instructions
      (record_all p.assets.mcp_servers (record_all p.assets.skills m))

unfoldable pub denied_from : List Profile → DeniedMap → DeniedMap
denied_from [] m = m
denied_from (p ∷ ps) m = denied_from ps (record_profile p m)

-- `deniedAssets`
unfoldable pub denied_assets : List Profile → DeniedMap
unfolding denied_from record_all record_denied
denied_assets ps = denied_from ps []

abbrev pub blocked : Option DeniedScope → String → Bool
blocked none host = false
blocked (some s) host = scope_applies_to s host

pub data DeniedFault : Type 0 where
  denied_skill denied_mcp_server : String → DeniedFault

unfoldable pub check_ids :
    DeniedMap → String → (String → DeniedFault) → List String → Option DeniedFault
check_ids m host f [] = none
check_ids m host f (id ∷ ids) =
    let rest = check_ids m host f ids in if blocked (lookup m id) host then some (f id) else rest

infixl 5 ◌>>◌
abbrev pub ◌>>◌ : Option DeniedFault → Option DeniedFault → Option DeniedFault
none >> k = k
some e >> k = some e

-- the closure `checkSelection`
unfoldable pub check_selection : DeniedMap → String → ActivationSelection → Option DeniedFault
check_selection m host sel =
    check_ids m host denied_skill sel.skills >> check_ids m host denied_mcp_server sel.mcp_servers

unfoldable pub check_hosts : DeniedMap → List (String × HostActivation) → Option DeniedFault
check_hosts m [] = none
check_hosts m ((host, ha) ∷ hs) = check_selection m host ha.enable >> check_hosts m hs

unfoldable pub validate_activation_against_profiles : Activation → List Profile → Option DeniedFault
unfolding check_hosts
validate_activation_against_profiles a ps =
    let m = denied_assets ps in check_selection m "" a.enable >> check_hosts m a.hosts
