-- ===== src/Resolve/Candidates.antt =====
-- The entries of the profiles by asset: `profileEntry` and `collectProfileCandidates` of
-- internal/resolve/resolve.go.
pub mod Declared
use oh_my_code_agent.Prelude.{
  ℕ, String, Bool, true, false, Option, none, some, List, [], ◌∷◌, ◌++◌, suc, if◌then◌else◌,
}
use oh_my_code_agent.Prelude.Keys.{contains, string_eq}
use oh_my_code_agent.Domain.Levels.{Intent}
use oh_my_code_agent.Domain.Documents.{AssetRef, Profile}
use oh_my_code_agent.Resolve.Types.{AssetKind, skill, mcp_server, instruction, AssetKey, key_beq}

pub record ProfileEntry : Type 0 where
  pub profile_idx : ℕ
  pub profile_id : String
  pub intent : Intent
  pub host_neutral : Bool
  pub hosts : List String

-- `profileEntry.appliesTo`
unfoldable pub applies_to : ProfileEntry → String → Bool
applies_to e host = if e.host_neutral then true else contains e.hosts host

abbrev pub is_empty : List String → Bool
is_empty [] = true
is_empty (_ ∷ _) = false

-- the entry that the closure `add` builds for one reference
unfoldable pub entry_of : ℕ → String → AssetRef → ProfileEntry
entry_of idx pid ref = record {
  profile_idx = idx;
  profile_id = pid;
  intent = ref.intent;
  host_neutral = is_empty ref.hosts;
  hosts = ref.hosts;
}

abbrev pub CandidateMap : Type 0
CandidateMap = List (AssetKey × List ProfileEntry)

-- `out[key]`, nil for a missing key
unfoldable pub entries_at : CandidateMap → AssetKey → List ProfileEntry
entries_at [] key = []
entries_at ((k, es) ∷ m) key = if key_beq k key then es else entries_at m key

-- `out[key] = append(out[key], entry)`
unfoldable pub append_entry : AssetKey → ProfileEntry → CandidateMap → CandidateMap
append_entry key e [] = (key, e ∷ []) ∷ []
append_entry key e ((k, es) ∷ m) =
    if key_beq k key then (k, es ++ e ∷ []) ∷ m else (k, es) ∷ append_entry key e m

-- the closure `add`
unfoldable pub add_refs : AssetKind → List AssetRef → ℕ → String → CandidateMap → CandidateMap
add_refs kind [] idx pid out = out
add_refs kind (ref ∷ refs) idx pid out =
    add_refs kind refs idx pid
      (append_entry (record { kind = kind; id = ref.id }) (entry_of idx pid ref) out)

unfoldable pub add_profile : ℕ → Profile → CandidateMap → CandidateMap
add_profile idx p out = add_refs instruction p.assets.instructions idx p.id (
    add_refs mcp_server p.assets.mcp_servers idx p.id (add_refs skill p.assets.skills idx p.id out))

unfoldable pub collect_from : ℕ → List Profile → CandidateMap → CandidateMap
collect_from idx [] out = out
collect_from idx (p ∷ ps) out = collect_from (suc idx) ps (add_profile idx p out)

unfoldable pub collect_profile_candidates : List Profile → CandidateMap
unfolding collect_from add_profile add_refs append_entry entry_of
collect_profile_candidates ps = collect_from 0 ps []
