-- ===== src/Effective/DeepMerge.antt =====
-- The DEEP_MERGE loops of internal/effective/merge.go. The order of the fields of an object is the
-- order in which Go happens to visit its map. `canonical_digest` is domain.CanonicalDigest, which
-- encodes a value and hashes it. The merge changes nested maps in place; here the changed object is
-- put back under its key, so a source's own fields stay as they were.
pub mod Leaves
pub mod Sources
pub mod Abandoned
use oh_my_code_agent.Prelude.{
  ℕ, String, Bool, true, false, Option, none, some, List, [], ◌∷◌, not, arith, every, is_some, leb,
  if◌then◌else◌, str_append, str_eq,
}
use oh_my_code_agent.Prelude.Sort.{sort}
use oh_my_code_agent.Prelude.Keys.{lookup, string_eq}
use oh_my_code_agent.Effective.Types.{Value, leaf, object, Fields, no_fields, field, Candidate}

-- `dst[k]`
unfoldable pub get : Fields → String → Option Value
get no_fields k = none
get (field j v rest) k = if str_eq j k then some v else get rest k

-- `dst[k] = v`
unfoldable pub put : Fields → String → Value → Fields
put no_fields k v = field k v no_fields
put (field j w rest) k v = if str_eq j k then field j v rest else field j w (put rest k v)

abbrev pub rank_of : List (String × ℕ) → String → Option ℕ
unfolding lookup
rank_of scope_rank kind = lookup scope_rank kind

abbrev rank_or_zero : Option ℕ → ℕ
rank_or_zero none = 9223372036854775808
rank_or_zero (some r) = r

-- `scopeRankCoversAll`
unfoldable pub scope_rank_covers_all : List (String × ℕ) → List Candidate → Bool
scope_rank_covers_all scope_rank cs = every (λ c. is_some (rank_of scope_rank c.scope.kind)) cs

-- the object after the loop, and the two results of `deepMergeInto`
pub record Merged : Type 0 where
  pub fields : Fields
  pub path : String
  pub ok : Bool

unfoldable pub under : String → String → String
under path k = if str_eq path "" then k else str_append path (str_append "." k)

abbrev pub fields_of : Option Fields → Fields
fields_of none = no_fields
fields_of (some fs) = fs

-- the results of `deepMergeAll`: the merged object, or the path of the conflict
pub data AllMerged : Type 0 where
  merged : Fields → AllMerged
  unresolved : String → AllMerged

module _ (canonical_digest : Value → Option String) where
  abbrev digests_agree : Option String → Option String → Bool
  digests_agree (some a) (some b) = str_eq a b
  digests_agree _ _ = false

  -- `valuesEqual`
  unfoldable pub values_equal : Value → Value → Bool
  values_equal a b = digests_agree (canonical_digest a) (canonical_digest b)

  -- The loop of `deepMergeInto`. `path` is the variable that the loop overwrites when two leaves
  -- differ, and the paths of the keys that follow are made from the overwritten one.
  unfoldable pub deep_merge_loop : Fields → String → Bool → Fields → Merged
  unfolding get put under values_equal
  deep_merge_loop dst path ok no_fields = record {
    fields = dst;
    path = if ok then "" else path;
    ok = ok;
  }
  deep_merge_loop dst path ok (field k (object vs) rest) = elim (get dst k) [
    | none ↦ deep_merge_loop (put dst k (object vs)) path ok rest
    | some (object es) ↦
        let child = deep_merge_loop es (under path k) true vs in
        let dst' = put dst k (object child.fields) in
        elim child.ok [
          | true ↦ deep_merge_loop dst' path ok rest
          | false ↦ record { fields = dst'; path = child.path; ok = false }
        ]
    | some (leaf s) ↦ elim (values_equal (leaf s) (object vs)) [
      | true ↦ deep_merge_loop dst path ok rest
      | false ↦ deep_merge_loop (put dst k (object vs)) (under path k) false rest
    ]
  ]
  deep_merge_loop dst path ok (field k (leaf v) rest) = elim (get dst k) [
    | none ↦ deep_merge_loop (put dst k (leaf v)) path ok rest
    | some existing ↦ elim (values_equal existing (leaf v)) [
      | true ↦ deep_merge_loop dst path ok rest
      | false ↦ deep_merge_loop (put dst k (leaf v)) (under path k) false rest
    ]
  ]

  -- `deepMergeInto`
  unfoldable pub deep_merge_into : Fields → Fields → String → Merged
  unfolding deep_merge_loop
  deep_merge_into dst src path = deep_merge_loop dst path true src

  -- the loop of `deepMergeAll`
  unfoldable pub deep_merge_each : Bool → Fields → List Candidate → AllMerged
  unfolding deep_merge_into
  deep_merge_each complete result [] = merged result
  deep_merge_each complete result (c ∷ cs) =
      let step = deep_merge_into result (fields_of c.fields) "" in
      elim step.ok [
        | true ↦ deep_merge_each complete step.fields cs
        | false ↦ elim complete [
          | true ↦ deep_merge_each complete step.fields cs
          | false ↦ unresolved step.path
        ]
      ]

  abbrev pub scope_leb : List (String × ℕ) → Candidate → Candidate → Bool
  scope_leb scope_rank a b =
      leb (rank_or_zero (rank_of scope_rank a.scope.kind))
        (rank_or_zero (rank_of scope_rank b.scope.kind))

  -- `deepMergeAll`
  unfoldable pub deep_merge_all : List Candidate → List (String × ℕ) → AllMerged
  unfolding deep_merge_each scope_rank_covers_all sort
  deep_merge_all cs scope_rank =
      let complete = scope_rank_covers_all scope_rank cs in
      let ordered = if complete then sort (scope_leb scope_rank) cs else cs in
      deep_merge_each complete no_fields ordered
