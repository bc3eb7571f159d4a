-- ===== src/Domain/Tests.antt =====
-- The scenario of the theorem on the check of an activation against profiles.
use oh_my_code_agent.Prelude.{String, none, List, [], ◌∷◌, ◌≡◌, ◌↔◌, In}
use oh_my_code_agent.Domain.Levels.{denied}
use oh_my_code_agent.Domain.Documents.{Profile, Activation, HostActivation, ActivationSelection}
use oh_my_code_agent.Domain.Validate.Denied.{validate_activation_against_profiles}
use oh_my_code_agent.Domain.Validate.Denied.Accepts.{
  AllowedAt, validate_activation_against_profiles_iff,
}

abbrev company : Profile
company = record {
  api_version = "omca.dev/v1alpha1";
  kind = "Profile";
  id = "company:example";
  assets = record {
    skills = (record { id = "deploy"; intent = denied; hosts = "codex" ∷ [] }) ∷ [];
    mcp_servers = [];
    instructions = [];
  };
  permissions = [];
}

abbrev select : List String → ActivationSelection
select skills = record { skills = skills; mcp_servers = [] }

abbrev elsewhere : Activation
elsewhere = record {
  api_version = "omca.dev/v1alpha1";
  kind = "Activation";
  worktree = "w";
  enable = select [];
  disable = select [];
  hosts = ("claude-code", record { enable = select ("deploy" ∷ []); disable = select [] }) ∷ [];
}

validate_activation_against_profiles_iff_example :
    (validate_activation_against_profiles elsewhere (company ∷ []) ≡ none) ↔ (
      AllowedAt (company ∷ []) "" elsewhere.enable
      × ((h : String × HostActivation)
          → In h elsewhere.hosts
          → AllowedAt (company ∷ []) h.0 h.1.enable))
validate_activation_against_profiles_iff_example =
    validate_activation_against_profiles_iff elsewhere (company ∷ [])
