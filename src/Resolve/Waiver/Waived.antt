-- ===== src/Resolve/Waiver/Waived.antt =====
-- When an exception lifts a policy.
use oh_my_code_agent.Prelude.{
  ℕ, String, true, none, some, List, [], ◌∷◌, ◌≡◌, refl, ◌<◌, arith, str_eq_iff, first-In,
  first-none_of, In, not-true→false,
}
use oh_my_code_agent.Prelude.Keys.{contains→In, string_eq}
use oh_my_code_agent.Domain.Documents.{Exception, exception_valid}
use oh_my_code_agent.Resolve.Waiver.{waives, find_exception}

-- An exception of the list is valid, names the asset and the scope, and has not expired.
pub record Waived (exceptions : List Exception) (asset scope : String) (now : ℕ) : Type 0 where
  pub ex : Exception
  pub listed : In ex exceptions
  pub valid : exception_valid ex ≡ true
  pub names_asset : ex.asset_id ≡ asset
  pub names_scope : ex.scope ≡ scope
  pub live : now < ex.expires_at

waives→Waived :
    (asset : String) (scopes : List String) (now : ℕ) (ex : Exception) (exceptions : List Exception)
    → In ex exceptions
    → waives asset scopes now ex ≡ true
    → In ex.scope scopes × Waived exceptions asset ex.scope now
unfolding waives
waives→Waived asset scopes now ex exceptions m h = (
  contains→In ex.scope scopes (ground arith),
  record {
    ex = ex;
    listed = m;
    valid = ground arith;
    names_asset = (str_eq_iff ex.asset_id asset).0 (ground arith);
    names_scope = refl;
    live = ground arith;
  },
)

-- What `findException` finds lifts the policy of one of the scopes.
pub find_exception-Waived :
    (exceptions : List Exception) (asset : String) (scopes : List String) (now : ℕ) (ex : Exception)
    → find_exception exceptions asset scopes now ≡ some ex
    → In ex.scope scopes × Waived exceptions asset ex.scope now
unfolding find_exception
find_exception-Waived exceptions asset [] now ex h = cc
find_exception-Waived exceptions asset (s ∷ scopes) now ex h =
    let (m, t) = first-In (waives asset (s ∷ scopes) now) ex exceptions h in
    waives→Waived asset (s ∷ scopes) now ex exceptions m t

-- With no exception for any of the scopes, `findException` finds none.
pub find_exception-none :
    (exceptions : List Exception) (asset : String) (scopes : List String) (now : ℕ)
    → ((s : String) → In s scopes → ¬ Waived exceptions asset s now)
    → find_exception exceptions asset scopes now ≡ none
unfolding find_exception
find_exception-none exceptions asset [] now h = refl
find_exception-none exceptions asset (s ∷ scopes) now h =
    first-none_of (waives asset (s ∷ scopes) now) exceptions λ ex m.
      not-true→false (waives asset (s ∷ scopes) now ex)
        λ t. let (i, w) = waives→Waived asset (s ∷ scopes) now ex exceptions m t in h ex.scope i w
