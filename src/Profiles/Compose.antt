-- ===== src/Profiles/Compose.antt =====
-- `Compose`, `selectProfilesByID` and the split of `LoadExceptions`, of internal/profiles/compose.go
-- and exception.go. What the loaders read from the file system is the argument `Loads`.
use oh_my_code_agent.Prelude.{
  ℕ, String, Bool, false, Option, none, some, List, [], ◌∷◌, ◌≡◌, refl, ◌⊎◌, inl, inr, sym, ap,
  subst, not, arith, str_eq, str_eq_iff, ltb, keep, if◌then◌else◌, In,
}
use oh_my_code_agent.Prelude.Keys.{string_eq}
use oh_my_code_agent.Domain.Documents.{Profile, Binding, Activation, Exception}
use oh_my_code_agent.Profiles.Binding.{match_bindings_with_main, matched_profile_ids}
use oh_my_code_agent.Profiles.Identity.{
  AmbiguousCategory, IdentityResolution, is_ambiguous, resolve_identities, final_profile_ids,
  Chosen, ids, fault, SelectionFault,
}
use oh_my_code_agent.Profiles.Identity.Final.{final_one_per_category, final_profile_ids_total}

-- the result of a loader, with its error as text
pub data Load (A : Type 0) : Type 0 where
  loaded : A → Load A
  failed : String → Load A

pub record Loads : Type 0 where
  pub profiles : Load (List Profile)
  pub bindings : Load (List Binding)
  pub selection : Load (List (String × String))
  pub activation : Load Activation
  pub exceptions : Load (List Exception)

pub record Target : Type 0 where
  pub repository : String
  pub main_repository : String
  pub rel_path : String
  pub now : ℕ

pub record CompositionResult : Type 0 where
  pub profiles : List Profile
  pub activation : Activation
  pub live : List Exception
  pub expired : List Exception

pub data Composition : Type 0 where
  composed : CompositionResult → Composition
  load_failed : String → Composition
  ambiguous_identity : List AmbiguousCategory → Composition
  bad_selection : SelectionFault → Composition

-- `byID[id]`: a later profile with the id replaces an earlier one
unfoldable pub profile_by_id : List Profile → String → Option Profile
profile_by_id [] id = none
profile_by_id (p ∷ ps) id = elim (profile_by_id ps id) [
  | some q ↦ some q
  | none ↦ if str_eq p.id id then some p else none
]

abbrev append_found : Option Profile → List Profile → List Profile
append_found none out = out
append_found (some p) out = p ∷ out

-- `selectProfilesByID`
unfoldable pub select_profiles_by_id : List Profile → List String → List Profile
unfolding profile_by_id
select_profiles_by_id all [] = []
select_profiles_by_id all (id ∷ rest) =
    append_found (profile_by_id all id) (select_profiles_by_id all rest)

-- the two lists of `LoadExceptions`
abbrev is_live : ℕ → Exception → Bool
is_live now e = ltb now e.expires_at

infixl 5 ◌>>=◌
abbrev ◌>>=◌ : {A : Type 0} → Load A → (A → Composition) → Composition
loaded a >>= f = f a
failed e >>= f = load_failed e

abbrev chosen_or_fault : IdentityResolution → Chosen → (List String → Composition) → Composition
chosen_or_fault res (ids out) f = f out
chosen_or_fault res (fault e) f =
    if is_ambiguous res then ambiguous_identity res.ambiguous else bad_selection e

-- the rest of `Compose` once the ids are chosen
unfoldable pub finish : Target → Loads → List Profile → List String → Composition
finish t l all final = do
  activation ← l.activation
  exceptions ← l.exceptions
  composed (record {
    profiles = select_profiles_by_id all final;
    activation = activation;
    live = keep (is_live t.now) exceptions;
    expired = keep (λ e. not (is_live t.now e)) exceptions;
  })

>>=-composed :
    {A : Type 0} (m : Load A) (f : A → Composition) (r : CompositionResult)
    → (m >>= f) ≡ composed r
    → (a : A) × (m ≡ loaded a) × (f a ≡ composed r)
>>=-composed (loaded a) f r h = (a, refl, h)
>>=-composed (failed e) f r h = cc

chosen-composed :
    (res : IdentityResolution) (c : Chosen) (f : List String → Composition) (r : CompositionResult)
    → chosen_or_fault res c f ≡ composed r
    → (out : List String) × (c ≡ ids out) × (f out ≡ composed r)
chosen-composed res (ids out) f r h = (out, refl, h)
chosen-composed res (fault e) f r h = ground arith

profile_by_id-In :
    (ps : List Profile) (id : String) (p : Profile)
    → profile_by_id ps id ≡ some p
    → In p ps × (p.id ≡ id)
unfolding profile_by_id
profile_by_id-In [] id p h = cc
profile_by_id-In (q ∷ ps) id p h = ground (arith, profile_by_id-In ps id p, str_eq_iff q.id id)

append_found-In :
    (o : Option Profile) (out : List Profile) (p : Profile)
    → In p (append_found o out)
    → (o ≡ some p) ⊎ In p out
append_found-In none out p m = inr m
append_found-In (some q) out p (inl e) = inl (ap some (sym e))
append_found-In (some q) out p (inr m) = inr m

select_profiles-In :
    (all : List Profile) (chosen : List String) (p : Profile)
    → In p (select_profiles_by_id all chosen)
    → In p all × In p.id chosen
unfolding select_profiles_by_id
select_profiles-In all [] p m = absurd m
select_profiles-In all (id ∷ rest) p m =
    elim (append_found-In (profile_by_id all id) (select_profiles_by_id all rest) p m) [
      | inl e ↦ let (i, q) = profile_by_id-In all id p e in (i, inl q)
      | inr k ↦ let (i, q) = select_profiles-In all rest p k in (i, inr q)
    ]

not_ambiguous :
    (res : IdentityResolution) (a : AmbiguousCategory)
    → is_ambiguous res ≡ false
    → ¬ In a res.ambiguous
unfolding is_ambiguous
not_ambiguous res a h m = go res.ambiguous refl m
  where
    go : (xs : List AmbiguousCategory) → res.ambiguous ≡ xs → ¬ In a xs
    go [] e n = n
    go (x ∷ xs) e n = ground arith

module _ (segment_match : String → String → Option Bool) where
  unfoldable pub matched_ids : Target → List Binding → List String
  matched_ids t bindings =
      matched_profile_ids
        (match_bindings_with_main segment_match bindings t.repository t.main_repository t.rel_path)

  unfoldable pub compose : Target → Loads → Composition
  unfolding finish
  compose t l = do
    all ← l.profiles
    bindings ← l.bindings
    selection ← l.selection
    chosen_or_fault (resolve_identities (matched_ids t bindings))
        (final_profile_ids (resolve_identities (matched_ids t bindings)) selection) (finish t l all)

  -- When `Compose` succeeds, the profiles and the bindings were loaded, and every profile of the result
  -- is a loaded one whose id a matched binding names.
  pub compose_profiles :
      (t : Target) (l : Loads) (r : CompositionResult)
      → compose t l ≡ composed r
      → (all : List Profile) × (bindings : List Binding) × (l.profiles ≡ loaded all)
        × (l.bindings ≡ loaded bindings)
        × ((p : Profile) → In p r.profiles → In p all × In p.id (matched_ids t bindings))
  unfolding compose
  compose_profiles t l r h =
      let (all, ep, h1) = >>=-composed l.profiles _ r h in
      let (bindings, eb, h2) = >>=-composed l.bindings _ r h1 in
      let (selection, es, h3) = >>=-composed l.selection _ r h2 in
      let (final, ef, h4) = chosen-composed _ _ _ r h3 in
      let (activation, ea, h5) = >>=-composed l.activation _ r h4 in
      let (exceptions, ex, h6) = >>=-composed l.exceptions _ r h5 in
      let (from, _, _) = final_one_per_category (matched_ids t bindings) selection final ef in
      (
        all,
        bindings,
        ep,
        eb,
        λ p m.
            let (i, j) = select_profiles-In all final p (subst (In p) (sym (profiles_of h6)) m) in
            (i, from p.id j),
      )
    where
      profiles_of : {a b : CompositionResult} → composed a ≡ composed b → a.profiles ≡ b.profiles
      profiles_of e = cc

  -- With no ambiguous category, a composition whose loads succeed never fails over the selection.
  pub compose_unambiguous :
      (t : Target) (l : Loads) (all : List Profile) (bindings : List Binding)
      (selection : List (String × String))
      → l.profiles ≡ loaded all
      → l.bindings ≡ loaded bindings
      → l.selection ≡ loaded selection
      → is_ambiguous (resolve_identities (matched_ids t bindings)) ≡ false
      → (final : List String) × (final_profile_ids
            (resolve_identities (matched_ids t bindings))
            selection
          ≡ ids final)
        × (compose t l ≡ finish t l all final)
  unfolding compose
  compose_unambiguous t l all bindings selection ep eb es h =
      let (final, e) =
        final_profile_ids_total (resolve_identities (matched_ids t bindings)) selection
          (λ a m. absurd (not_ambiguous _ a h m)) in
      (final, e, simp (ep, eb, es, e))
