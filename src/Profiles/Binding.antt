-- ===== src/Profiles/Binding.antt =====
-- The selection of profiles by bindings: `MatchBindingsWithMain`, `matchesRepository`, `matchesPaths`
-- and `MatchedProfileIDs` of internal/profiles/binding.go.
use oh_my_code_agent.Prelude.{
  String, Bool, true, false, Option, List, [], ◌∷◌, ◌++◌, ◌≡◌, refl, subst, ◌≢◌, ◌⊎◌, inl, inr, ◌↔◌,
  ◌&&◌, ◌||◌, not, arith, str_eq, str_eq_iff, if◌then◌else◌, Bool-cases, keep, some_of, In, In-keep,
  keep-In, some_of-In, some_of_witness, In-append, In-append_left, In-append_right, not-true→false,
}
use oh_my_code_agent.Prelude.Keys.{distinct, In-distinct_iff, IsNodup, distinct-IsNodup, string_eq}
use oh_my_code_agent.Domain.Documents.{Binding, BindingMatch}
use oh_my_code_agent.Profiles.Glob.{glob_match, glob_match_iff, Matches, split_slash, path_segments}

abbrev pub is_nil : List String → Bool
is_nil [] = true
is_nil (_ ∷ _) = false

-- `MatchedProfileIDs`: the inner loops run over all profiles of the bindings in turn
unfoldable pub binding_profiles : List Binding → List String
binding_profiles [] = []
binding_profiles (b ∷ bs) = b.profiles ++ binding_profiles bs

unfoldable pub matched_profile_ids : List Binding → List String
matched_profile_ids bindings = distinct (binding_profiles bindings)

module _ (segment_match : String → String → Option Bool) where
  unfoldable pub matches_repository : BindingMatch → String → Bool
  matches_repository m repository =
      if not (str_eq m.repository_glob "")
      then glob_match segment_match m.repository_glob repository
      else if not (str_eq m.repository "")
      then str_eq m.repository repository
      else false

  unfoldable pub matches_paths : List String → String → Bool
  matches_paths patterns rel_path =
      if is_nil patterns then true else some_of (λ p. glob_match segment_match p rel_path) patterns

  -- one round of the loop: `continue`, or the binding is appended
  unfoldable pub binding_matches : String → String → String → Binding → Bool
  binding_matches repository main_repository rel_path b =
      if not (matches_repository b.match repository)
        && (str_eq main_repository "" || not (matches_repository b.match main_repository))
      then false
      else matches_paths b.match.paths rel_path

  unfoldable pub match_bindings_with_main : List Binding → String → String → String → List Binding
  match_bindings_with_main bindings repository main_repository rel_path =
      keep (binding_matches repository main_repository rel_path) bindings

  -- A binding names a repository: by a glob if it has one, else by its literal name, else none.
  pub data SelectsRepository (m : BindingMatch) (repository : String) : Type 0 where
    by_glob :
        m.repository_glob ≢ ""
        → Matches segment_match (split_slash m.repository_glob) (path_segments repository)
        → SelectsRepository m repository
    by_name :
        m.repository_glob ≡ ""
        → m.repository ≢ ""
        → m.repository ≡ repository
        → SelectsRepository m repository

  pub data SelectsPath (patterns : List String) (rel_path : String) : Type 0 where
    unscoped : patterns ≡ [] → SelectsPath patterns rel_path
    scoped :
        (p : String)
        → In p patterns
        → Matches segment_match (split_slash p) (path_segments rel_path)
        → SelectsPath patterns rel_path

  matches_repository_sound :
      (m : BindingMatch) (r : String) → matches_repository m r ≡ true → SelectsRepository m r
  unfolding matches_repository
  matches_repository_sound m r h = elim (Bool-cases (str_eq m.repository_glob "")) [
    | inl t ↦
        by_name ((str_eq_iff m.repository_glob "").0 t)
          (λ e. ground (arith, t, h, (str_eq_iff m.repository "").1 e))
          ((str_eq_iff m.repository r).0 (ground arith))
    | inr f ↦
        by_glob (λ e. ground (arith, f, (str_eq_iff m.repository_glob "").1 e))
          ((glob_match_iff segment_match m.repository_glob r).0 (ground arith))
  ]

  matches_repository_complete :
      (m : BindingMatch) (r : String) → SelectsRepository m r → matches_repository m r ≡ true
  unfolding matches_repository
  matches_repository_complete m r (by_glob n g) = ground (
    arith,
    not-true→false (str_eq m.repository_glob "") (λ t. n ((str_eq_iff m.repository_glob "").0 t)),
    (glob_match_iff segment_match m.repository_glob r).1 g,
  )
  matches_repository_complete m r (by_name e n q) = ground (
    arith,
    (str_eq_iff m.repository_glob "").1 e,
    not-true→false (str_eq m.repository "") (λ t. n ((str_eq_iff m.repository "").0 t)),
    (str_eq_iff m.repository r).1 q,
  )

  matches_paths_sound :
      (ps : List String) (p : String) → matches_paths ps p ≡ true → SelectsPath ps p
  unfolding matches_paths
  matches_paths_sound [] p h = unscoped refl
  matches_paths_sound (x ∷ ps) p h =
      let (q, m, t) = some_of_witness (λ y. glob_match segment_match y p) (x ∷ ps) h in
      scoped q m ((glob_match_iff segment_match q p).0 t)

  matches_paths_complete :
      (ps : List String) (p : String) → SelectsPath ps p → matches_paths ps p ≡ true
  unfolding matches_paths
  matches_paths_complete ps p (unscoped e) = ground arith
  matches_paths_complete ps p (scoped q m g) = ground (
    arith,
    some_of-In (λ y. glob_match segment_match y p) q ps m ((glob_match_iff segment_match q p).1 g),
  )

  abbrev NamesEither : BindingMatch → String → String → Type 0
  NamesEither m repository main_repository =
      SelectsRepository m repository
      ⊎ ((main_repository ≢ "") × SelectsRepository m main_repository)

  names_either :
      (b : Binding) (repository main_repository rel_path : String)
      → binding_matches repository main_repository rel_path b ≡ true
      → NamesEither b.match repository main_repository
  unfolding binding_matches
  names_either b repository main_repository rel_path h =
      elim (Bool-cases (matches_repository b.match repository)) [
        | inl t ↦ inl (matches_repository_sound b.match repository t)
        | inr f ↦ inr (
          (λ e. ground (arith, f, h, (str_eq_iff main_repository "").1 e)),
          matches_repository_sound b.match main_repository (ground arith),
        )
      ]

  binding_matches_complete :
      (b : Binding) (repository main_repository rel_path : String)
      → NamesEither b.match repository main_repository
      → SelectsPath b.match.paths rel_path
      → binding_matches repository main_repository rel_path b ≡ true
  unfolding binding_matches
  binding_matches_complete b repository main_repository rel_path (inl r) p = ground (
    arith,
    matches_repository_complete b.match repository r,
    matches_paths_complete b.match.paths rel_path p,
  )
  binding_matches_complete b repository main_repository rel_path (inr (n, r)) p = ground (
    arith,
    not-true→false (str_eq main_repository "") (λ t. n ((str_eq_iff main_repository "").0 t)),
    matches_repository_complete b.match main_repository r,
    matches_paths_complete b.match.paths rel_path p,
  )

  paths_match :
      (b : Binding) (repository main_repository rel_path : String)
      → binding_matches repository main_repository rel_path b ≡ true
      → SelectsPath b.match.paths rel_path
  unfolding binding_matches
  paths_match b repository main_repository rel_path h =
      matches_paths_sound b.match.paths rel_path (ground arith)

  -- A binding of the list is selected exactly if it names the repository, or the main one of a linked
  -- worktree, and one of its path patterns matches or it has none.
  pub match_bindings_iff :
      (bindings : List Binding) (repository main_repository rel_path : String) (b : Binding)
      → In b (match_bindings_with_main bindings repository main_repository rel_path) ↔ (
          In b bindings
          × (SelectsRepository b.match repository
              ⊎ ((main_repository ≢ "") × SelectsRepository b.match main_repository))
          × SelectsPath b.match.paths rel_path)
  unfolding match_bindings_with_main
  match_bindings_iff bindings repository main_repository rel_path b = (
    λ h.
        let (m, t) = In-keep _ b bindings h in
        (
          m,
          names_either b repository main_repository rel_path t,
          paths_match b repository main_repository rel_path t,
        ),
    λ h.
        keep-In _ b bindings h.0
          (binding_matches_complete b repository main_repository rel_path h.1 h.2),
  )

In-binding_profiles :
    (id : String) (bs : List Binding)
    → In id (binding_profiles bs)
    → (b : Binding) × In b bs × In id b.profiles
unfolding binding_profiles
In-binding_profiles id [] h = absurd h
In-binding_profiles id (b ∷ bs) h = elim (In-append id b.profiles (binding_profiles bs) h) [
  | inl m ↦ (b, inl refl, m)
  | inr m ↦ let (c, k, n) = In-binding_profiles id bs m in (c, inr k, n)
]

binding_profiles-In :
    (id : String) (b : Binding) (bs : List Binding)
    → In b bs
    → In id b.profiles
    → In id (binding_profiles bs)
unfolding binding_profiles
binding_profiles-In id b [] m h = absurd m
binding_profiles-In id b (c ∷ bs) (inl e) h =
    In-append_left id c.profiles (binding_profiles bs) (subst (λ x. In id x.profiles) e h)
binding_profiles-In id b (c ∷ bs) (inr m) h =
    In-append_right id c.profiles (binding_profiles bs) (binding_profiles-In id b bs m h)

-- The selected ids are those of the matched bindings, each once.
pub matched_profile_ids_lem :
    (bindings : List Binding)
    → ((id : String)
        → In id (matched_profile_ids bindings) ↔ ((b : Binding) × In b bindings × In id b.profiles))
      × IsNodup (matched_profile_ids bindings)
unfolding matched_profile_ids
matched_profile_ids_lem bindings = (
  λ id. (
    λ h. In-binding_profiles id bindings ((In-distinct_iff id _).0 h),
    λ h. (In-distinct_iff id _).1 (binding_profiles-In id h.0 bindings h.1 h.2),
  ),
  distinct-IsNodup (binding_profiles bindings),
)
