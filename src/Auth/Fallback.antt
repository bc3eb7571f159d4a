-- ===== src/Auth/Fallback.antt =====
-- Decide and ProposeMigration of internal/auth/fallback.go, with nativeLoginInvocation of invoke.go and
-- keyring.go. The environment and the keyring are functions; a keyring's lookup may fail.
pub mod Rungs
use oh_my_code_agent.Prelude.{
  String, Bool, true, false, not, Option, none, some, List, [], ◌∷◌, if◌then◌else◌, str_eq,
  str_append,
}
use oh_my_code_agent.Prelude.Keys.{lookup, string_eq}
use oh_my_code_agent.Domain.Host.{HostFault, validate_host_id}

-- `Rung`
pub data Rung : Type 0 where
  os_credential_store direnv_secret_reference identity_runtime_login explicit_reviewed_migration :
      Rung

-- `InvocationPlan`
pub record InvocationPlan : Type 0 where
  pub host : String
  pub command : String
  pub args : List String

-- `PlatformKeyringQualification`, less its reason
pub record PlatformKeyringQualification : Type 0 where
  pub platform : String
  pub qualified : Bool

-- `KeyringQualification`
abbrev pub keyring_qualification : String → PlatformKeyringQualification
keyring_qualification platform = record { platform = platform; qualified = false }

-- the reasons of the rungs, with the arguments of their formats
pub data DecisionReason : Type 0 where
  entry_exists : String → String → String → DecisionReason
  variable_is_set : String → DecisionReason
  falling_back : String → Bool → String → DecisionReason
  requested_by_reviewer : DecisionReason

-- `Decision`
pub record Decision : Type 0 where
  pub host : String
  pub rung : Rung
  pub reason : DecisionReason
  pub keyring_service : String
  pub keyring_account : String
  pub env_var : String
  pub invocation : Option InvocationPlan
  pub migration_note : String

pub data DecideFault : Type 0 where
  invalid_host : HostFault → DecideFault
  no_wiring : String → DecideFault
  lookup_failed : String → String → DecideFault
  no_login : String → DecideFault
  no_reason_given : DecideFault

pub data Decided : Type 0 where
  refused : DecideFault → Decided
  decided : Decision → Decided

-- `direnvSecretEnvVar`
abbrev pub direnv_secret_env_var : List (String × String)
direnv_secret_env_var = ("codex", "OPENAI_API_KEY") ∷ ("claude-code", "ANTHROPIC_API_KEY") ∷ []

-- `keyringServiceAccount`
unfoldable pub keyring_service_account : String → String × String
keyring_service_account host = (str_append "omca-" host, "default")

-- `nativeLoginInvocation`
unfoldable pub native_login_invocation : String → Option InvocationPlan
native_login_invocation host =
    if str_eq host "codex"
    then some (record { host = host; command = "codex"; args = "login" ∷ [] })
    else (if str_eq host "claude-code"
        then some (record { host = host; command = "claude"; args = "auth" ∷ "login" ∷ [] })
        else none)

-- what a lookup of a keyring gives
pub data Lookup : Type 0 where
  lookup_error : String → Lookup
  exists : Bool → Lookup

-- the decision for the store
abbrev pub store_decision : String → PlatformKeyringQualification → Decision
store_decision host qual = record {
  host = host;
  rung = os_credential_store;
  reason =
      entry_exists qual.platform (keyring_service_account host).0 (keyring_service_account host).1;
  keyring_service = (keyring_service_account host).0;
  keyring_account = (keyring_service_account host).1;
  env_var = "";
  invocation = none;
  migration_note = "";
}

-- rung 1, if it is qualified and has a keyring; `none` goes on to rung 2
unfoldable pub credential_store_rung :
    String → Option (String → String → Lookup) → PlatformKeyringQualification → Option Decided
unfolding keyring_service_account
credential_store_rung host none qual = none
credential_store_rung host (some keyring) qual =
    let (service, account) = keyring_service_account host in
    if qual.qualified
    then elim (keyring service account) [
      | lookup_error message ↦ some (refused (lookup_failed host message))
      | exists found ↦ if found then some (decided (store_decision host qual)) else none
    ]
    else none

-- rungs 2 and 3
unfoldable pub environment_rungs :
    String → String → (String → String) → PlatformKeyringQualification → Decided
unfolding native_login_invocation
environment_rungs host env_var env qual =
    if not (str_eq (env env_var) "")
    then decided (record {
      host = host;
      rung = direnv_secret_reference;
      reason = variable_is_set env_var;
      keyring_service = "";
      keyring_account = "";
      env_var = env_var;
      invocation = none;
      migration_note = "";
    })
    else elim (native_login_invocation host) [
      | none ↦ refused (no_login host)
      | some plan ↦ decided (record {
        host = host;
        rung = identity_runtime_login;
        reason = falling_back qual.platform qual.qualified env_var;
        keyring_service = "";
        keyring_account = "";
        env_var = "";
        invocation = some plan;
        migration_note = "";
      })
    ]

-- `Decide`
unfoldable pub decide :
    String
    → (String → String)
    → Option (String → String → Lookup)
    → PlatformKeyringQualification
    → Decided
unfolding credential_store_rung environment_rungs
decide host env keyring qual = elim (validate_host_id host) [
  | some fault ↦ refused (invalid_host fault)
  | none ↦ elim (lookup direnv_secret_env_var host) [
    | none ↦ refused (no_wiring host)
    | some env_var ↦ elim (credential_store_rung host keyring qual) [
      | some result ↦ result
      | none ↦ environment_rungs host env_var env qual
    ]
  ]
]

-- `ProposeMigration`
unfoldable pub propose_migration : String → String → Decided
propose_migration host reason = elim (validate_host_id host) [
  | some fault ↦ refused (invalid_host fault)
  | none ↦
      if str_eq reason ""
      then refused no_reason_given
      else decided (record {
        host = host;
        rung = explicit_reviewed_migration;
        reason = requested_by_reviewer;
        keyring_service = "";
        keyring_account = "";
        env_var = "";
        invocation = none;
        migration_note = reason;
      })
]
