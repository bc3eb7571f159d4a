-- ===== src/Resolve/Run.antt =====
-- `collectUniverse` and `Resolve` of internal/resolve/resolve.go.
pub mod Universe
pub mod Policies
pub mod Mentions
pub mod Expiry
pub mod Absent
use oh_my_code_agent.Prelude.{
  ℕ, String, Bool, Option, none, some, List, [], ◌∷◌, ◌++◌, map, if◌then◌else◌,
}
use oh_my_code_agent.Prelude.Keys.{lookup, distinct, string_eq}
use oh_my_code_agent.Prelude.Sort.{sort}
use oh_my_code_agent.Prelude.TextOrder.{str_leb}
use oh_my_code_agent.Domain.Host.{HostFault, validate_host_id}
use oh_my_code_agent.Domain.Documents.{
  Profile, Activation, ActivationSelection, HostActivation, Exception,
}
use oh_my_code_agent.Resolve.Types.{
  AssetKind, skill, mcp_server, AssetKey, key_eq, kind_beq, kind_text, ResolvedState,
}
use oh_my_code_agent.Resolve.Candidates.{CandidateMap, entries_at, collect_profile_candidates}
use oh_my_code_agent.Resolve.Decide.{Decision, decided, undecided, resolve_one}

-- the order of `sort.Slice`: by kind, then by id
unfoldable pub key_leb : AssetKey → AssetKey → Bool
key_leb a b =
    if kind_beq a.kind b.kind
    then str_leb a.id b.id
    else str_leb (kind_text a.kind) (kind_text b.kind)

-- the keys that `addSelection` marks
unfoldable pub selected : AssetKind → List String → List AssetKey
selected kind = map (λ id. record { kind = kind; id = id })

abbrev pub selection_keys : ActivationSelection → ActivationSelection → List AssetKey
selection_keys enable disable =
    selected skill enable.skills
    ++ (selected mcp_server enable.mcp_servers
        ++ (selected skill disable.skills ++ selected mcp_server disable.mcp_servers))

abbrev pub host_keys : Option HostActivation → List AssetKey
host_keys none = []
host_keys (some ha) = selection_keys ha.enable ha.disable

-- every key that is marked as seen
unfoldable pub mentioned : CandidateMap → Activation → String → List AssetKey
mentioned candidates activation host =
    map (λ p. p.0) candidates
    ++ (selection_keys activation.enable activation.disable
        ++ host_keys (lookup activation.hosts host))

unfoldable pub collect_universe : CandidateMap → Activation → String → List AssetKey
collect_universe candidates activation host =
    sort key_leb (distinct (mentioned candidates activation host))

unfoldable pub add_decision : Decision → ResolvedState → ResolvedState
add_decision (decided a) state = record state { assets = a ∷ state.assets }
add_decision (undecided c) state = record state { conflicts = c ∷ state.conflicts }

-- the loop over the universe, from its last key
unfoldable pub resolve_keys :
    List AssetKey → CandidateMap → Activation → List Exception → String → ℕ → ResolvedState
unfolding add_decision
resolve_keys [] candidates activation exceptions host now = record {
  host = host;
  assets = [];
  conflicts = [];
}
resolve_keys (key ∷ universe) candidates activation exceptions host now =
    add_decision (resolve_one key (entries_at candidates key) activation exceptions host now)
      (resolve_keys universe candidates activation exceptions host now)

pub data Outcome : Type 0 where
  resolved : ResolvedState → Outcome
  invalid_host : HostFault → Outcome

unfoldable pub resolve_profiles :
    List Profile → Activation → List Exception → String → ℕ → ResolvedState
resolve_profiles profiles activation exceptions host now =
    let candidates = collect_profile_candidates profiles in
    resolve_keys (collect_universe candidates activation host) candidates activation exceptions host
      now

unfoldable pub resolve : List Profile → Activation → List Exception → String → ℕ → Outcome
resolve profiles activation exceptions host now = elim (validate_host_id host) [
  | some e ↦ invalid_host e
  | none ↦ resolved (resolve_profiles profiles activation exceptions host now)
]
