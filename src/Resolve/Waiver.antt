-- ===== src/Resolve/Waiver.antt =====
-- `findException` of internal/resolve/resolve.go.
pub mod Waived
use oh_my_code_agent.Prelude.{
  ℕ, String, Bool, Option, none, List, [], ◌∷◌, ◌&&◌, str_eq, ltb, first,
}
use oh_my_code_agent.Prelude.Keys.{contains, string_eq}
use oh_my_code_agent.Domain.Documents.{Exception, exception_valid}

-- the four tests of the loop: valid, of this asset, of one of these scopes, not expired
unfoldable pub waives : String → List String → ℕ → Exception → Bool
waives asset scopes now ex =
    exception_valid ex
    && str_eq ex.asset_id asset
    && contains scopes ex.scope
    && ltb now ex.expires_at

unfoldable pub find_exception : List Exception → String → List String → ℕ → Option Exception
find_exception exceptions asset [] now = none
find_exception exceptions asset (s ∷ scopes) now = first (waives asset (s ∷ scopes) now) exceptions
