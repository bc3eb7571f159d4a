-- ===== src/Auth/Fallback/Rungs.antt =====
-- Which rung Decide of internal/auth/fallback.go selects.
use oh_my_code_agent.Prelude.{
  String, true, false, Option, none, some, [], ◌∷◌, ◌≡◌, ◌⊎◌, inl, inr, refl, sym, ◌∙◌, arith,
  str_eq, str_eq_iff, Bool-cases, Option-cases, not-true→false,
}
use oh_my_code_agent.Prelude.Keys.{contains, lookup, string_eq}
use oh_my_code_agent.Domain.Host.{validate_host_id}
use oh_my_code_agent.Auth.Fallback.{
  os_credential_store, direnv_secret_reference, identity_runtime_login, InvocationPlan,
  PlatformKeyringQualification, Decision, Decided, refused, decided, lookup_failed,
  direnv_secret_env_var, native_login_invocation, Lookup, lookup_error, exists, store_decision,
  keyring_service_account, credential_store_rung, environment_rungs, decide,
}

-- The keyring has an entry for the host, and the platform is qualified to use it.
pub data InStore (host : String) (qual : PlatformKeyringQualification)
    : Option (String → String → Lookup) → Type 0 where
  in_store :
      {keyring : String → String → Lookup}
      → qual.qualified ≡ true
      → keyring (keyring_service_account host).0 (keyring_service_account host).1 ≡ exists true
      → InStore host qual (some keyring)

InStore-qualified :
    {host : String} {qual : PlatformKeyringQualification} {k : Option (String → String → Lookup)}
    → InStore host qual k
    → qual.qualified ≡ true
InStore-qualified (in_store q e) = q

InStore-entry :
    {host : String} {qual : PlatformKeyringQualification} {probe : String → String → Lookup}
    → InStore host qual (some probe)
    → probe (keyring_service_account host).0 (keyring_service_account host).1 ≡ exists true
InStore-entry (in_store q e) = e

exists-differ : ¬ (exists false ≡ exists true)
exists-differ e = cc

-- Two environments in which the same variables are set to some text.
abbrev pub SetAlike : (String → String) → (String → String) → Type 0
SetAlike env other_env = (v : String) → str_eq (env v) "" ≡ str_eq (other_env v) ""

environment_rungs-SetAlike :
    (host env_var : String) (env env' : String → String) (qual : PlatformKeyringQualification)
    → SetAlike env env'
    → environment_rungs host env_var env qual ≡ environment_rungs host env_var env' qual
unfolding environment_rungs
environment_rungs-SetAlike host env_var env env' qual alike = rw (alike env_var) refl

-- Decide reads of the environment only which variables are set: with two environments in which the same
-- ones are, for any host, keyring and qualification, it gives one result.
pub decide-SetAlike :
    (host : String) (env env' : String → String) (keyring : Option (String → String → Lookup))
    (qual : PlatformKeyringQualification)
    → SetAlike env env'
    → decide host env keyring qual ≡ decide host env' keyring qual
unfolding decide
decide-SetAlike host env env' keyring qual alike = elim (Option-cases (validate_host_id host)) [
  | inr (fault, e) ↦ rw (e, decide) refl
  | inl e ↦ elim (Option-cases (lookup direnv_secret_env_var host)) [
    | inl f ↦ rw (e, f, decide) refl
    | inr (env_var, f) ↦ elim (Option-cases (credential_store_rung host keyring qual)) [
      | inr (result, g) ↦ rw (e, f, g, decide) refl
      | inl g ↦ rw (e, f, g, decide) (environment_rungs-SetAlike host env_var env env' qual alike)
    ]
  ]
]

-- The rung that is due for a host whose variable is `env_var`, and the result that goes with it.
pub data Verdict (host env_var : String) (env : String → String)
    (qual : PlatformKeyringQualification) (keyring : Option (String → String → Lookup))
    : Decided → Type 0 where
  lookup_fails :
      {message : String} {probe : String → String → Lookup}
      → keyring ≡ some probe
      → qual.qualified ≡ true
      → probe (keyring_service_account host).0 (keyring_service_account host).1
        ≡ lookup_error message
      → Verdict host env_var env qual keyring (refused (lookup_failed host message))
  from_store :
      {d : Decision}
      → InStore host qual keyring
      → d.rung ≡ os_credential_store
      → (d.keyring_service, d.keyring_account) ≡ keyring_service_account host
      → Verdict host env_var env qual keyring (decided d)
  from_variable :
      {d : Decision}
      → ¬ InStore host qual keyring
      → str_eq (env env_var) "" ≡ false
      → d.rung ≡ direnv_secret_reference
      → d.env_var ≡ env_var
      → Verdict host env_var env qual keyring (decided d)
  from_login :
      {d : Decision} {plan : InvocationPlan}
      → ¬ InStore host qual keyring
      → str_eq (env env_var) "" ≡ true
      → d.rung ≡ identity_runtime_login
      → d.invocation ≡ some plan
      → plan.host ≡ host
      → Verdict host env_var env qual keyring (decided d)

-- the hosts that have a variable are valid and have a login
wired-host :
    (host env_var : String)
    → lookup direnv_secret_env_var host ≡ some env_var
    → (validate_host_id host ≡ none)
      × ((plan : InvocationPlan) × (native_login_invocation host ≡ some plan) × (plan.host ≡ host))
unfolding lookup native_login_invocation validate_host_id contains
wired-host host env_var h = elim (Bool-cases (str_eq "codex" host)) [
  | inl t ↦
      let s = (str_eq_iff host "codex").1 (sym ((str_eq_iff "codex" host).0 t)) in
      (
        ground (arith, t),
        (
          record { host = host; command = "codex"; args = "login" ∷ [] },
          rw (s, native_login_invocation) refl,
          refl,
        ),
      )
  | inr f ↦ elim (Bool-cases (str_eq "claude-code" host)) [
    | inl t ↦
        let s = (str_eq_iff host "claude-code").1 (sym ((str_eq_iff "claude-code" host).0 t)) in
        let r = not-true→false _ λ e.
          ground (arith, f, (str_eq_iff "codex" host).1 (sym ((str_eq_iff host "codex").0 e))) in
        (
          ground (arith, t),
          (
            record { host = host; command = "claude"; args = "auth" ∷ "login" ∷ [] },
            rw (r, s, native_login_invocation) refl,
            refl,
          ),
        )
    | inr g ↦ absurd (ground (arith, f, g, h))
  ]
]

Lookup-cases :
    (l : Lookup) → ((m : String) × (l ≡ lookup_error m)) ⊎ ((l ≡ exists true) ⊎ (l ≡ exists false))
Lookup-cases (lookup_error m) = inl (m, refl)
Lookup-cases (exists true) = inr (inl refl)
Lookup-cases (exists false) = inr (inr refl)

module _ (host env_var : String) (env : String → String) (qual : PlatformKeyringQualification) where
  -- what is left when the store has nothing
  environment-Verdict :
      (keyring : Option (String → String → Lookup))
      → lookup direnv_secret_env_var host ≡ some env_var
      → ¬ InStore host qual keyring
      → Verdict host env_var env qual keyring (environment_rungs host env_var env qual)
  unfolding environment_rungs
  environment-Verdict keyring wired nothing = elim (Bool-cases (str_eq (env env_var) "")) [
    | inl t ↦
        let (known, (plan, e, q)) = wired-host host env_var wired in
        rw (t, e, environment_rungs) (from_login nothing t refl refl q)
    | inr f ↦ rw (f, environment_rungs) (from_variable nothing f refl refl)
  ]

  store-Verdict :
      (keyring : Option (String → String → Lookup))
      → lookup direnv_secret_env_var host ≡ some env_var
      → ((result : Decided) × (credential_store_rung host keyring qual ≡ some result)
          × Verdict host env_var env qual keyring result)
        ⊎ ((credential_store_rung host keyring qual ≡ none) × ¬ InStore host qual keyring)
  unfolding credential_store_rung
  store-Verdict none wired = inr (refl, λ m. elim m [ ])
  store-Verdict (some probe) wired = elim (Bool-cases qual.qualified) [
    | inr f ↦ inr (rw f refl, λ m. ground (arith, f, InStore-qualified m))
    | inl t ↦
        elim (Lookup-cases
          (probe (keyring_service_account host).0 (keyring_service_account host).1)) [
            | inl (m, e) ↦ inl (_, rw (t, e, credential_store_rung) refl, lookup_fails refl t e)
            | inr (inl e) ↦ inl (
              decided (store_decision host qual),
              rw (t, e, credential_store_rung) refl,
              from_store {d = store_decision host qual} (in_store t e) refl refl,
            )
            | inr (inr e) ↦ inr (
              rw (t, e, credential_store_rung) refl,
              λ m. exists-differ (sym e ∙ InStore-entry m),
            )
          ]
  ]

-- For a host that has a variable, Decide goes down the rungs and stops at the first one that is
-- satisfied: the store, where the platform is qualified and the keyring has an entry; the variable, where
-- it is set; and else the login of the host. It fails only where a qualified keyring's lookup fails, and
-- it never selects the reviewed migration.
pub decide-Verdict :
    (host env_var : String) (env : String → String) (qual : PlatformKeyringQualification)
    (keyring : Option (String → String → Lookup))
    → lookup direnv_secret_env_var host ≡ some env_var
    → Verdict host env_var env qual keyring (decide host env keyring qual)
unfolding decide
decide-Verdict host env_var env qual keyring wired =
    let known = (wired-host host env_var wired).0 in
    elim (store-Verdict host env_var env qual keyring wired) [
      | inl (result, e, v) ↦ rw (known, wired, e, decide) v
      | inr (e, nothing) ↦
          rw (known, wired, e, decide)
            (environment-Verdict host env_var env qual keyring wired nothing)
    ]
