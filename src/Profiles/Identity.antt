-- ===== src/Profiles/Identity.antt =====
-- internal/profiles/identity.go: the one profile of each identity category.
pub mod Final
use Prim.Native.Char.{Char, code}
use Prim.Native.String as Text
use oh_my_code_agent.Prelude.{
  ℕ, suc, String, Bool, true, false, Option, none, some, List, [], ◌∷◌, ◌++◌, map, not, ◌&&◌, arith,
  str_eq, ◌==◌, ltb, keep, if◌then◌else◌,
}
use oh_my_code_agent.Prelude.Keys.{contains, distinct, lookup, string_eq}
use oh_my_code_agent.Prelude.Sort.{sort}
use oh_my_code_agent.Prelude.TextOrder.{str_leb, str_ltb}

abbrev pub category_order : List String
category_order = "personal" ∷ "company" ∷ "team" ∷ "project" ∷ "task" ∷ []

-- `profileCategory`: the text before the first colon, or the whole id
unfoldable pub profile_category : String → String
profile_category Text.[] = Text.[]
profile_category (Text.◌∷◌ c s) =
    if code c == b':' then Text.[] else Text.◌∷◌ c (profile_category s)

pub record AmbiguousCategory : Type 0 where
  pub category : String
  pub candidates : List String

pub record IdentityResolution : Type 0 where
  pub resolved : List (String × String)
  pub ambiguous : List AmbiguousCategory

-- `IsAmbiguous`
unfoldable pub is_ambiguous : IdentityResolution → Bool
is_ambiguous r = elim r.ambiguous [ [] ↦ false | _ ↦ true ]

-- `byCategory[cat]`
unfoldable pub by_category : String → List String → List String
by_category cat = keep (λ id. str_eq (profile_category id) cat)

-- `dedupeSorted`
unfoldable pub dedupe_sorted : List String → List String
dedupe_sorted ids = sort str_leb (distinct ids)

-- What the loop of `ResolveIdentities` does with a category: an id, or the distinct candidates.
pub data Choice : Type 0 where
  single : String → Choice
  several : List String → Choice

abbrev choice_of : List String → Choice
choice_of (id ∷ []) = single id
choice_of ids = several ids

abbrev distinct_choice : List String → Choice
distinct_choice ids = choice_of (dedupe_sorted ids)

unfoldable pub choose : List String → Choice
choose [] = distinct_choice []
choose (id ∷ []) = single id
choose (id ∷ jd ∷ ids) = distinct_choice (id ∷ jd ∷ ids)

abbrev add_choice : String → Choice → IdentityResolution → IdentityResolution
add_choice cat (single id) r = record r { resolved = (cat, id) ∷ r.resolved }
add_choice cat (several ids) r = record r {
  ambiguous = (record { category = cat; candidates = ids }) ∷ r.ambiguous;
}

unfoldable pub resolve_order : List String → List String → IdentityResolution
resolve_order [] ids = record { resolved = []; ambiguous = [] }
resolve_order (cat ∷ order) ids =
    add_choice cat (choose (by_category cat ids)) (resolve_order order ids)

-- the categories in `order` after `sort.Strings`
unfoldable pub category_list : List String → List String
category_list ids = sort str_leb (distinct (map profile_category ids))

unfoldable pub resolve_identities : List String → IdentityResolution
resolve_identities ids = resolve_order (category_list ids) ids

-- `rank[c]`: the position in `categoryOrder`
unfoldable pub position : List String → String → Option ℕ
position [] c = none
position (x ∷ xs) c =
    if str_eq x c then some 0 else elim (position xs c) [ none ↦ none | some n ↦ some (suc n) ]

-- the less function of `orderedCategories`
abbrev pub less_by : Option ℕ → Option ℕ → Bool → Bool
less_by (some ri) (some rj) by_name = ltb ri rj
less_by (some ri) none by_name = true
less_by none (some rj) by_name = false
less_by none none by_name = by_name

unfoldable pub category_less : String → String → Bool
category_less a b = less_by (position category_order a) (position category_order b) (str_ltb a b)

unfoldable pub category_leb : String → String → Bool
category_leb a b = not (category_less b a)

-- `orderedCategories`
unfoldable pub ordered_categories : List String → List String
ordered_categories = sort category_leb

-- `ambByCategory[cat]`
unfoldable pub candidates_of : String → List AmbiguousCategory → List String
candidates_of cat [] = []
candidates_of cat (a ∷ rest) =
    if str_eq a.category cat then a.candidates else candidates_of cat rest

pub data SelectionFault : Type 0 where
  no_selection : String → List String → SelectionFault
  not_a_candidate : String → String → List String → SelectionFault

pub data Chosen : Type 0 where
  ids : List String → Chosen
  fault : SelectionFault → Chosen

abbrev pub cons_id : String → Chosen → Chosen
cons_id id (ids out) = ids (id ∷ out)
cons_id id (fault e) = fault e

-- the answer of the selection for an ambiguous category, before the categories that follow
unfoldable pub take_selected : String → List String → Option String → Chosen → Chosen
take_selected cat candidates none rest = fault (no_selection cat candidates)
take_selected cat candidates (some chosen) rest =
    if str_eq chosen ""
    then fault (no_selection cat candidates)
    else if contains candidates chosen
    then cons_id chosen rest
    else fault (not_a_candidate cat chosen candidates)

-- one category: its resolved id, or the selection's answer
unfoldable pub take_category :
    IdentityResolution → List (String × String) → String → Chosen → Chosen
take_category res selection cat rest = elim (lookup res.resolved cat) [
  | some id ↦ cons_id id rest
  | none ↦ take_selected cat (candidates_of cat res.ambiguous) (lookup selection cat) rest
]

unfoldable pub final_from : List String → IdentityResolution → List (String × String) → Chosen
final_from [] res selection = ids []
final_from (cat ∷ cats) res selection =
    take_category res selection cat (final_from cats res selection)

-- the keys of the two maps
unfoldable pub resolution_categories : IdentityResolution → List String
resolution_categories res =
    map (λ p. p.0) res.resolved ++ map (λ (a : AmbiguousCategory). a.category) res.ambiguous

unfoldable pub final_profile_ids : IdentityResolution → List (String × String) → Chosen
final_profile_ids res selection =
    final_from (ordered_categories (resolution_categories res)) res selection
