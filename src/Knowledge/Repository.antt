-- ===== src/Knowledge/Repository.antt =====
-- internal/knowledge/repository.go: the packs of a repository, and the one pack that qualifies a host. The
-- walk over the files is its result: for each pack file its path and what parsePack gives.
pub mod Unique
use oh_my_code_agent.Prelude.{
  ℕ, String, Bool, true, false, not, Option, none, some, List, [], ◌∷◌, ◌&&◌, map, keep, length,
  if◌then◌else◌, str_eq, is_some,
}
use oh_my_code_agent.Prelude.Keys.{lookup, string_eq, contains}
use oh_my_code_agent.Prelude.Sort.{sort}
use oh_my_code_agent.Prelude.TextOrder.{str_leb}
use oh_my_code_agent.Domain.Levels.{CapabilityLevel}
use oh_my_code_agent.Hub.Repair.{codes}
use oh_my_code_agent.Knowledge.Semver.Parse.{version_satisfies_range}

-- `CapabilityOps`, of which the mode and the resolve level are kept
pub record CapabilityOps : Type 0 where
  pub resolve : CapabilityLevel
  pub reconcile_mode : String

-- `Pack` with the metadata of its `HostKnowledge`
pub record Pack : Type 0 where
  pub id : String
  pub host : String
  pub surface : String
  pub version_range : String
  pub status : String
  pub capabilities : List (String × CapabilityOps)
  pub digest : String

pub data LoadError : Type 0 where
  bad_pack : String → LoadError
  duplicate_id : String → String → LoadError

pub data Loaded : Type 0 where
  load_failed : LoadError → Loaded
  repository : List Pack → Loaded

abbrev add_pack : Pack → Loaded → Loaded
add_pack p (load_failed e) = load_failed e
add_pack p (repository ps) = repository (p ∷ ps)

-- the walk, from the ids seen so far; a file whose pack is not parsed ends it
unfoldable pub load_from : List String → List (String × Option Pack) → Loaded
load_from seen [] = repository []
load_from seen ((path, none) ∷ files) = load_failed (bad_pack path)
load_from seen ((path, some p) ∷ files) =
    let rest = load_from (p.id ∷ seen) files in
    if contains seen p.id then load_failed (duplicate_id p.id path) else add_pack p rest

unfoldable pub pack_leb : Pack → Pack → Bool
pack_leb a b = str_leb a.id b.id

abbrev sorted_packs : Loaded → Loaded
sorted_packs (load_failed e) = load_failed e
sorted_packs (repository ps) = repository (sort pack_leb ps)

-- `loadRepositoryFS`
unfoldable pub load_repository : List (String × Option Pack) → Loaded
unfolding load_from pack_leb
load_repository files = sorted_packs (load_from [] files)

-- `Resolution` with the ids that matched, of which the reason of a result that is not qualified is a format
pub record Resolution : Type 0 where
  pub host : String
  pub surface : String
  pub version : String
  pub qualified : Bool
  pub pack : Option Pack
  pub matched : List String

abbrev pub satisfied : Option Bool → Bool
satisfied (some true) = true
satisfied _ = false

-- the tests of the loop of `Resolve`
unfoldable pub pack_fits : String → String → String → Pack → Bool
unfolding version_satisfies_range codes
pack_fits host surface exact_version p =
    (str_eq p.host host && str_eq p.surface surface)
    && satisfied (version_satisfies_range (codes exact_version) (codes p.version_range))

abbrev single_pack : List Pack → Option Pack
single_pack (p ∷ []) = some p
single_pack _ = none

-- `Repository.Resolve`
unfoldable pub resolve_pack : List Pack → String → String → String → Resolution
unfolding pack_fits pack_leb
resolve_pack packs host surface exact_version =
    let candidates = keep (pack_fits host surface exact_version) packs in
    record {
      host = host;
      surface = surface;
      version = exact_version;
      qualified = is_some (single_pack candidates);
      pack = single_pack candidates;
      matched = map (λ p. p.id) (sort pack_leb candidates);
    }

-- `CapabilityFor` where nothing is declared: `ReconcileModeObserved`
abbrev pub observed_only : CapabilityOps
observed_only = record { resolve = CapabilityLevel.other ""; reconcile_mode = "OBSERVED" }

-- `CapabilityFor`
unfoldable pub capability_for : Resolution → String → CapabilityOps
capability_for r concept = elim r.pack [
  | none ↦ observed_only
  | some p ↦
      if not r.qualified
      then observed_only
      else elim (lookup p.capabilities concept) [ none ↦ observed_only | some ops ↦ ops ]
]

-- `Resolution.Status`
unfoldable pub resolution_status : Resolution → Option String
resolution_status r = elim r.pack [
  | none ↦ none
  | some p ↦ if not r.qualified then none else some p.status
]
