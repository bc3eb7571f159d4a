-- ===== src/Knowledge/Repository/Unique.antt =====
-- When internal/knowledge/repository.go qualifies a host.
use oh_my_code_agent.Prelude.{
  String, Bool, true, false, Option, none, some, List, [], ◌∷◌, ◌≡◌, ◌≢◌, ◌↔◌, refl, sym, ap, subst,
  ◌∙◌, arith, inl, inr, In, keep, keep-In, In-keep, nothing_In, is_some, Bool-cases,
}
use oh_my_code_agent.Prelude.Keys.{contains, string_eq}
use oh_my_code_agent.Prelude.Sort.{insert, sort, In-sort_iff, insert-In}
use oh_my_code_agent.Knowledge.Repository.{
  Pack, Loaded, load_failed, repository, load_from, add_pack, sorted_packs, pack_leb,
  load_repository, pack_fits, resolve_pack, single_pack, capability_for, observed_only,
  resolution_status,
}

-- no two packs of a list have one id
HaveOwnIds : List Pack → Type 0
HaveOwnIds [] = Unit
HaveOwnIds (p ∷ ps) = ((q : Pack) → In q ps → q.id ≢ p.id) × HaveOwnIds ps

-- The packs of a walk have their own ids, none of them seen before the walk.
IsRead : List String → Loaded → Type 0
IsRead seen (load_failed e) = Unit
IsRead seen (repository ps) = HaveOwnIds ps × ((p : Pack) → In p ps → contains seen p.id ≡ false)

add_pack-IsRead :
    (seen : List String) (p : Pack) (l : Loaded)
    → contains seen p.id ≡ false
    → IsRead (p.id ∷ seen) l
    → IsRead seen (add_pack p l)
unfolding IsRead HaveOwnIds contains
add_pack-IsRead seen p (load_failed e) new h = tt
add_pack-IsRead seen p (repository ps) new (own, fresh) = (
  (λ q i e. ground (arith, fresh q i, string_eq.beq_iff p.id q.id), own),
  λ q i. elim i [ inl e ↦ rw e new | inr j ↦ ground (arith, fresh q j) ],
)

load_from-IsRead :
    (seen : List String) (files : List (String × Option Pack)) → IsRead seen (load_from seen files)
unfolding load_from IsRead HaveOwnIds
load_from-IsRead seen [] = (tt, λ p i. absurd i)
load_from-IsRead seen ((path, none) ∷ files) = tt
load_from-IsRead seen ((path, some p) ∷ files) = elim (Bool-cases (contains seen p.id)) [
  | inl t ↦ rw t tt
  | inr f ↦ rw f (
      add_pack-IsRead seen p (load_from (p.id ∷ seen) files) f
        (load_from-IsRead (p.id ∷ seen) files))
]

insert-HaveOwnIds :
    (p : Pack) (ps : List Pack)
    → ((q : Pack) → In q ps → q.id ≢ p.id)
    → HaveOwnIds ps
    → HaveOwnIds (insert pack_leb p ps)
unfolding insert HaveOwnIds
insert-HaveOwnIds p [] apart own = (apart, own)
insert-HaveOwnIds p (x ∷ xs) apart (first, own) = elim (Bool-cases (pack_leb p x)) [
  | inl t ↦ rw t (apart, (first, own))
  | inr f ↦ rw f (
    λ q i. elim (insert-In pack_leb p q xs i) [
      | inl e ↦ λ h. apart x (inl refl) (sym h ∙ ap (λ r. r.id) e)
      | inr j ↦ first q j
    ],
    insert-HaveOwnIds p xs (λ q i. apart q (inr i)) own,
  )
]

sort-HaveOwnIds : (ps : List Pack) → HaveOwnIds ps → HaveOwnIds (sort pack_leb ps)
unfolding sort HaveOwnIds
sort-HaveOwnIds [] own = own
sort-HaveOwnIds (p ∷ ps) (first, own) =
    insert-HaveOwnIds p (sort pack_leb ps) (λ q i. first q ((In-sort_iff pack_leb q ps).0 i))
      (sort-HaveOwnIds ps own)

loaded-HaveOwnIds :
    (l : Loaded) (ps : List Pack) → IsRead [] l → sorted_packs l ≡ repository ps → HaveOwnIds ps
unfolding IsRead
loaded-HaveOwnIds (load_failed e) ps h eq = absurd (ground arith)
loaded-HaveOwnIds (repository qs) ps h eq = subst HaveOwnIds (cc) (sort-HaveOwnIds qs h.0)

-- `p` is the only pack of the list that passes the test.
abbrev pub IsOnly : (Pack → Bool) → Pack → List Pack → Type 0
IsOnly f p ps = In p ps × (f p ≡ true) × ((q : Pack) → In q ps → f q ≡ true → q.id ≡ p.id)

keep-IsOnly :
    (f : Pack → Bool) (p : Pack) (ps : List Pack)
    → HaveOwnIds ps
    → IsOnly f p ps
    → keep f ps ≡ p ∷ []
unfolding keep HaveOwnIds
keep-IsOnly f p [] own h = absurd h.0
keep-IsOnly f p (x ∷ xs) (first, own) (inl e, t, same) =
    rw (sym e, t)
      (ap (◌∷◌ p) (
        nothing_In (keep f xs)
          λ q i. let (j, u) = In-keep f q xs i in first q j (same q (inr j) u ∙ ap (λ r. r.id) e)))
keep-IsOnly f p (x ∷ xs) (first, own) (inr i, t, same) = elim (Bool-cases (f x)) [
  | inl u ↦ absurd (first p i (sym (same x (inl refl) u)))
  | inr u ↦ rw u (keep-IsOnly f p xs own (i, t, λ q j. same q (inr j)))
]

single_pack-singleton : (p : Pack) (ps : List Pack) → single_pack ps ≡ some p → ps ≡ p ∷ []
single_pack-singleton p [] h = absurd (ground arith)
single_pack-singleton p (x ∷ []) h = ground (arith, h)
single_pack-singleton p (x ∷ y ∷ xs) h = absurd (ground arith)

singleton-IsOnly :
    (f : Pack → Bool) (p : Pack) (ps : List Pack) → keep f ps ≡ p ∷ [] → IsOnly f p ps
singleton-IsOnly f p ps alone = (
  (own.0),
  own.1,
  λ q i t. elim (subst (In q) alone (keep-In f q ps i t)) [
    | inl e ↦ ap (λ r. r.id) e
    | inr j ↦ absurd j
  ],
)
  where
    own : In p ps × (f p ≡ true)
    own = In-keep f p ps (subst (In p) (sym alone) (inl refl))

single_pack-is_some :
    (ps : List Pack) → is_some (single_pack ps) ≡ true → (p : Pack) × (ps ≡ p ∷ [])
single_pack-is_some [] h = absurd (ground arith)
single_pack-is_some (x ∷ []) h = (x, refl)
single_pack-is_some (x ∷ y ∷ xs) h = absurd (ground arith)

is_some-none : (o : Option Pack) → is_some o ≡ false → o ≡ none
is_some-none none h = refl
is_some-none (some p) h = absurd (ground arith)

-- On a repository that was loaded from files, Resolve is qualified exactly if one of the packs has the host,
-- the surface and a range with the version, and no pack with another id has; the pack that it gives is such
-- a one. A result that is not qualified is observed only in every concept and has no status.
pub resolve_pack-qualified_iff :
    (files : List (String × Option Pack)) (packs : List Pack) (host surface version : String)
    → load_repository files ≡ repository packs
    → let r = resolve_pack packs host surface version in
      ((r.qualified ≡ true) ↔ ((p : Pack) × IsOnly (pack_fits host surface version) p packs))
      × ((p : Pack) → r.pack ≡ some p → IsOnly (pack_fits host surface version) p packs)
      × (r.qualified ≡ false
          → (concept : String)
          → (capability_for r concept ≡ observed_only) × (resolution_status r ≡ none))
unfolding resolve_pack load_repository capability_for resolution_status
resolve_pack-qualified_iff files packs host surface version loaded = (
  (
    λ t. let (p, alone) = single_pack-is_some _ t in (p, singleton-IsOnly _ p packs alone),
    λ (p, only). rw (keep-IsOnly _ p packs own only) refl,
  ),
  λ p h. singleton-IsOnly _ p packs (single_pack-singleton p _ h),
  λ f c.
      rw (is_some-none (single_pack (keep (pack_fits host surface version) packs)) f) (refl, refl),
)
  where
    own : HaveOwnIds packs
    own = loaded-HaveOwnIds (load_from [] files) packs (load_from-IsRead [] files) loaded
