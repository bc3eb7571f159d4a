-- ===== src/Effective/Identity.antt =====
-- MatchIdentities and detectAmbiguousIdentities of internal/effective/identity.go. The Go key of a
-- bucket is the concept, a NUL and the logical id; a concept holds no NUL, so the key stands for the
-- pair, and keys are in the order of pairs.
pub mod Partition
pub mod Ambiguous
use oh_my_code_agent.Prelude.{
  ℕ, String, Bool, true, false, List, [], ◌∷◌, ◌++◌, map, ◌≡◌, ◌↔◌, refl, ap, arith, not, is_some,
  if◌then◌else◌, ◌&&◌, str_eq, str_eq_iff, keep,
}
use oh_my_code_agent.Prelude.Keys.{Eq, distinct, string_eq}
use oh_my_code_agent.Prelude.Sort.{sort}
use oh_my_code_agent.Prelude.TextOrder.{str_leb}
use oh_my_code_agent.Effective.Types.{Candidate, LogicalGroup}

-- a key of `byKey`
pub record IdentityKey : Type 0 where
  pub concept : String
  pub logical_id : String

abbrev pub identity_key_beq : IdentityKey → IdentityKey → Bool
identity_key_beq a b = str_eq a.concept b.concept && str_eq a.logical_id b.logical_id

pub identity_key_beq_iff : (a b : IdentityKey) → (identity_key_beq a b ≡ true) ↔ (a ≡ b)
identity_key_beq_iff a b = (
  λ h. ground (arith, (str_eq_iff a.concept b.concept).0, (str_eq_iff a.logical_id b.logical_id).0),
  λ h. ground (
    arith,
    (str_eq_iff a.concept b.concept).1 (ap (λ k. k.concept) h),
    (str_eq_iff a.logical_id b.logical_id).1 (ap (λ k. k.logical_id) h),
  ),
)

instance abbrev pub identity_key_eq : Eq IdentityKey
identity_key_eq = record { beq = identity_key_beq; beq_iff = identity_key_beq_iff }

abbrev pub identity_key_of : Candidate → IdentityKey
identity_key_of c = record { concept = c.concept; logical_id = c.logical_id }

-- the order of the keys' texts
unfoldable pub identity_key_leb : IdentityKey → IdentityKey → Bool
identity_key_leb a b =
    if str_eq a.concept b.concept
    then str_leb a.logical_id b.logical_id
    else str_leb a.concept b.concept

-- the order by `Ref`
unfoldable pub ref_leb : Candidate → Candidate → Bool
ref_leb a b = str_leb a.ref b.ref

-- `byKey[key]`
unfoldable pub candidates_of : IdentityKey → List Candidate → List Candidate
candidates_of k cs = keep (λ c. identity_key_beq (identity_key_of c) k) cs

-- one group of the loop over `order`
unfoldable pub group_of : List Candidate → IdentityKey → LogicalGroup
unfolding candidates_of ref_leb
group_of cs k = record {
  concept = k.concept;
  logical_id = k.logical_id;
  candidates = sort ref_leb (candidates_of k cs);
}

-- `order`, sorted
unfoldable pub identity_order : List Candidate → List IdentityKey
unfolding identity_key_leb
identity_order cs = sort identity_key_leb (distinct (map identity_key_of cs))

-- the groups of `MatchIdentities`
unfoldable pub match_identities : List Candidate → List LogicalGroup
unfolding group_of identity_order
match_identities cs = map (group_of cs) (identity_order cs)

-- `AmbiguousIdentity`; its reason is a format of the two candidates
pub record AmbiguousIdentity : Type 0 where
  pub a : Candidate
  pub b : Candidate

-- the candidates that can be ambiguous
unfoldable pub has_connection : Candidate → Bool
has_connection c =
    str_eq c.concept "mcp_server" && is_some c.fields && not (str_eq c.content_digest "")

-- the two `continue` tests of the inner loop
unfoldable pub same_connection : Candidate → Candidate → Bool
same_connection a b =
    not (str_eq a.logical_id b.logical_id) && str_eq a.content_digest b.content_digest

-- the two loops
unfoldable pub ambiguous_pairs : List Candidate → List AmbiguousIdentity
unfolding same_connection
ambiguous_pairs [] = []
ambiguous_pairs (a ∷ cs) =
    map (λ b. record { a = a; b = b }) (keep (same_connection a) cs) ++ ambiguous_pairs cs

-- `detectAmbiguousIdentities`
unfoldable pub detect_ambiguous_identities : List Candidate → List AmbiguousIdentity
unfolding has_connection ref_leb ambiguous_pairs
detect_ambiguous_identities cs = ambiguous_pairs (sort ref_leb (keep has_connection cs))
