-- ===== src/Knowledge/Tests.antt =====
-- The scenarios of the theorems on versions.
use oh_my_code_agent.Prelude.{
  contains, ℕ, true, false, String, Option, none, some, ◌++◌, every, List, [], ◌∷◌, ◌≡◌, ◌↔◌, refl,
  arith,
}
use oh_my_code_agent.Knowledge.Semver.{
  Semver, compare, sign, ge, lt, VersionRangeTerm, holds, satisfies_terms,
}
use oh_my_code_agent.Hub.Repair.{codes, trim_space, trim_left, is_space}
use oh_my_code_agent.Knowledge.Repository.{
  Pack, repository, load_repository, load_from, pack_leb, pack_fits, resolve_pack, capability_for,
  observed_only, resolution_status,
}
use oh_my_code_agent.Knowledge.Repository.Unique.{IsOnly, resolve_pack-qualified_iff}
use oh_my_code_agent.Knowledge.Semver.Parse.{
  parse_semver, cut_suffix, split_dots, version_of_parts, all_digits, is_digit, atoi, digits_value,
  version_satisfies_range, parse_version_range, parse_terms, parse_term, split_operator, fields,
  fields_from,
}
use oh_my_code_agent.Prelude.Sort.{sort}
use oh_my_code_agent.Knowledge.Semver.Trim.{given}
use oh_my_code_agent.Knowledge.Semver.Decimal.{print_semver}
use oh_my_code_agent.Knowledge.Semver.RoundTrip.{parse_semver-print_semver}
use oh_my_code_agent.Knowledge.Semver.Order.{IsAtMost}

abbrev version : ℕ → ℕ → ℕ → Semver
version major minor patch = record { major = major; minor = minor; patch = patch }

-- `>=0.144.0 <0.145.0`
abbrev codex_range : List VersionRangeTerm
codex_range =
    (record { op = ge; version = version 0 144 0 })
    ∷ (record { op = lt; version = version 0 145 0 })
    ∷ []

low : IsAtMost (version 0 144 0) (version 0 144 5)
unfolding compare sign
low h = ground (arith, h)

high : IsAtMost (version 0 144 5) (version 0 144 9)
unfolding compare sign
high h = ground (arith, h)

parse_semver-print_semver_example :
    parse_semver (print_semver (version 0 144 5) ++ (b'-' ∷ b'r' ∷ b'c' ∷ []))
    ≡ some (version 0 144 5)
parse_semver-print_semver_example =
    parse_semver-print_semver (version 0 144 5) (b'-' ∷ b'r' ∷ b'c' ∷ []) (omega arith)
      (omega arith) (omega arith) (given refl)

in_codex_range : version_satisfies_range (codes " 0.144.5") (codes ">=0.144.0 <0.145.0") ≡ some true
unfolding version_satisfies_range parse_semver parse_version_range parse_terms parse_term
    split_operator fields fields_from is_space trim_space trim_left codes cut_suffix split_dots
    version_of_parts all_digits every is_digit atoi digits_value satisfies_terms compare sign holds
in_codex_range = refl

abbrev codex_pack : Pack
codex_pack = record {
  id = "codex-cli-0.144";
  host = "codex";
  surface = "cli";
  version_range = ">=0.144.0 <0.145.0";
  status = "verified";
  capabilities = ("skill", observed_only) ∷ [];
  digest = "sha256:1";
}

abbrev pack_files : List (String × Option Pack)
pack_files = ("codex/cli/pack.yaml", some codex_pack) ∷ []

codex_loads : load_repository pack_files ≡ repository (codex_pack ∷ [])
unfolding load_repository load_from pack_leb contains sort
codex_loads = refl

resolve_pack-qualified_iff_example :
    let r = resolve_pack (codex_pack ∷ []) "codex" "cli" "0.144.5" in
    ((r.qualified ≡ true)
      ↔ ((p : Pack) × IsOnly (pack_fits "codex" "cli" "0.144.5") p (codex_pack ∷ [])))
    × ((p : Pack)
        → r.pack ≡ some p
        → IsOnly (pack_fits "codex" "cli" "0.144.5") p (codex_pack ∷ []))
    × (r.qualified ≡ false
        → (concept : String)
        → (capability_for r concept ≡ observed_only) × (resolution_status r ≡ none))
resolve_pack-qualified_iff_example =
    resolve_pack-qualified_iff pack_files (codex_pack ∷ []) "codex" "cli" "0.144.5" codex_loads
