-- ===== src/Resolve/Candidates/Declared.antt =====
-- The candidates of an asset are the references to it, profile by profile.
use oh_my_code_agent.Prelude.{
  ℕ, suc, String, Bool, List, [], ◌∷◌, ◌++◌, map, ◌≡◌, sym, ap, subst, ◌∙◌, inl, inr, keep, str_eq,
  str_eq_iff, arith, append-nil, append_assoc, In, In-map, keep-In, In-append_left, In-append,
  In-keep, map-In, Option, none, some, zero, ◌+◌, refl, In-append_right, if◌then◌else◌,
}
use oh_my_code_agent.Domain.Documents.{AssetRef, Profile}
use oh_my_code_agent.Resolve.Types.{
  AssetKind, skill, mcp_server, instruction, AssetKey, kind_beq, key_beq, key_beq_iff,
}
use oh_my_code_agent.Resolve.Candidates.{
  ProfileEntry, entry_of, CandidateMap, entries_at, append_entry, add_refs, add_profile,
  collect_from, collect_profile_candidates,
}

-- The references of one kind in a profile.
abbrev pub refs_of : AssetKind → Profile → List AssetRef
refs_of skill p = p.assets.skills
refs_of mcp_server p = p.assets.mcp_servers
refs_of instruction p = p.assets.instructions

abbrev pub named : String → AssetRef → Bool
named id r = str_eq r.id id

-- The entries for a key, by position of the profile and then of the reference.
unfoldable pub declared : ℕ → List Profile → AssetKey → List ProfileEntry
declared idx [] key = []
declared idx (p ∷ ps) key =
    map (entry_of idx p.id) (keep (named key.id) (refs_of key.kind p)) ++ declared (suc idx) ps key

entries_at-append_entry :
    (k key : AssetKey) (e : ProfileEntry) (m : CandidateMap)
    → entries_at (append_entry k e m) key
      ≡ (if key_beq k key then entries_at m key ++ e ∷ [] else entries_at m key)
unfolding entries_at append_entry
entries_at-append_entry k key e [] = ground arith
entries_at-append_entry k key e ((j, es) ∷ m) = ground (
  arith,
  entries_at-append_entry k key e m,
  key_beq_iff j k,
  key_beq_iff j key,
  key_beq_iff k key,
)

abbrev matching : AssetKind → AssetKind → String → ℕ → String → List AssetRef → List ProfileEntry
matching kind k id idx pid refs =
    if kind_beq kind k then map (entry_of idx pid) (keep (named id) refs) else []

entries_at-add_refs :
    (kind : AssetKind) (key : AssetKey) (refs : List AssetRef) (idx : ℕ) (pid : String)
    (m : CandidateMap)
    → entries_at (add_refs kind refs idx pid m) key
      ≡ entries_at m key ++ matching kind key.kind key.id idx pid refs
unfolding add_refs keep
entries_at-add_refs kind key [] idx pid m = ground (arith, append-nil (entries_at m key))
entries_at-add_refs kind key (r ∷ refs) idx pid m = ground (
  arith,
  entries_at-add_refs kind key refs idx pid
      (append_entry (record { kind = kind; id = r.id }) (entry_of idx pid r) m),
  entries_at-append_entry (record { kind = kind; id = r.id }) key (entry_of idx pid r) m,
  append_assoc (entries_at m key) (entry_of idx pid r ∷ [])
      (map (entry_of idx pid) (keep (named key.id) refs)),
)

one_kind :
    (k : AssetKind) (id : String) (idx : ℕ) (p : Profile) (es : List ProfileEntry)
    → ((es ++ matching skill k id idx p.id p.assets.skills)
          ++ matching mcp_server k id idx p.id p.assets.mcp_servers)
        ++ matching instruction k id idx p.id p.assets.instructions
      ≡ es ++ map (entry_of idx p.id) (keep (named id) (refs_of k p))
one_kind skill id idx p es = simp append-nil
one_kind mcp_server id idx p es = simp append-nil
one_kind instruction id idx p es = simp append-nil

entries_at-add_profile :
    (key : AssetKey) (idx : ℕ) (p : Profile) (m : CandidateMap)
    → entries_at (add_profile idx p m) key
      ≡ entries_at m key ++ map (entry_of idx p.id) (keep (named key.id) (refs_of key.kind p))
unfolding add_profile
entries_at-add_profile key idx p m =
    rw
      (
        entries_at-add_refs instruction key p.assets.instructions idx p.id _,
        entries_at-add_refs mcp_server key p.assets.mcp_servers idx p.id _,
        entries_at-add_refs skill key p.assets.skills idx p.id m,
      )
      (one_kind key.kind key.id idx p (entries_at m key))

entries_at-collect_from :
    (key : AssetKey) (ps : List Profile) (idx : ℕ) (m : CandidateMap)
    → entries_at (collect_from idx ps m) key ≡ entries_at m key ++ declared idx ps key
unfolding collect_from declared
entries_at-collect_from key [] idx m = sym (append-nil _)
entries_at-collect_from key (p ∷ ps) idx m =
    entries_at-collect_from key ps (suc idx) (add_profile idx p m)
    ∙ (ap (λ es. es ++ declared (suc idx) ps key) (entries_at-add_profile key idx p m)
        ∙ append_assoc (entries_at m key) _ _)

-- The candidates of a key are the references of its kind and id in the profiles, in the order of the
-- profiles and then of the references, each with the position and the id of its profile.
pub entries_at-collect :
    (profiles : List Profile) (key : AssetKey)
    → entries_at (collect_profile_candidates profiles) key ≡ declared 0 profiles key
unfolding collect_profile_candidates entries_at
entries_at-collect profiles key = entries_at-collect_from key profiles 0 []

-- Every reference of a profile to the asset is among the candidates.
pub In-declared :
    (key : AssetKey) (p : Profile) (r : AssetRef) (ps : List Profile) (idx : ℕ)
    → In p ps
    → In r (refs_of key.kind p)
    → r.id ≡ key.id
    → (n : ℕ) × In (entry_of n p.id r) (declared idx ps key)
unfolding declared
In-declared key p r [] idx m i e = absurd m
In-declared key p r (q ∷ ps) idx (inl h) i e = (
  idx,
  In-append_left _ _ _ (
      subst
        (λ x.
          In (entry_of idx p.id r)
            (map (entry_of idx x.id) (keep (named key.id) (refs_of key.kind x))))
        h
        (In-map (entry_of idx p.id) r _
          (keep-In (named key.id) r _ i ((str_eq_iff r.id key.id).1 e)))),
)
In-declared key p r (q ∷ ps) idx (inr m) i e =
    let (n, x) = In-declared key p r ps (suc idx) m i e in (n, In-append_right _ _ _ x)

module _ {ℓ} {A : Type ℓ} where
  abbrev pub get_elem? : List A → ℕ → Option A
  get_elem? [] i = none
  get_elem? (x ∷ xs) zero = some x
  get_elem? (x ∷ xs) (suc i) = get_elem? xs i

-- Where an entry of the candidates comes from.
pub record Origin (idx : ℕ) (ps : List Profile) (key : AssetKey) (e : ProfileEntry) : Type 0 where
  pub place : ℕ
  pub profile : Profile
  pub ref : AssetRef
  pub at : get_elem? ps place ≡ some profile
  pub listed : In profile ps
  pub has_ref : In ref (refs_of key.kind profile)
  pub same_id : ref.id ≡ key.id
  pub is_entry : e ≡ entry_of (idx + place) profile.id ref

pub declared-Origin :
    (key : AssetKey) (e : ProfileEntry) (ps : List Profile) (idx : ℕ)
    → In e (declared idx ps key)
    → Origin idx ps key e
unfolding declared
declared-Origin key e [] idx m = absurd m
declared-Origin key e (p ∷ ps) idx m =
    elim (In-append e (map (entry_of idx p.id) (keep (named key.id) (refs_of key.kind p))) _ m) [
      | inl i ↦
          let (r, k, q) = map-In (entry_of idx p.id) e _ i in
          let (n, t) = In-keep (named key.id) r _ k in
          record {
            place = 0;
            profile = p;
            ref = r;
            at = refl;
            listed = inl refl;
            has_ref = n;
            same_id = (str_eq_iff r.id key.id).0 t;
            is_entry = q ∙ ap (λ x. entry_of x p.id r) (omega arith);
          }
      | inr i ↦
          let o = declared-Origin key e ps (suc idx) i in
          record {
            place = suc o.place;
            profile = o.profile;
            ref = o.ref;
            at = o.at;
            listed = inr o.listed;
            has_ref = o.has_ref;
            same_id = o.same_id;
            is_entry = o.is_entry ∙ ap (λ x. entry_of x o.profile.id o.ref) (omega arith);
          }
    ]

-- Two candidates at one position are of one profile.
pub declared_one_id :
    (key : AssetKey) (ps : List Profile) (idx : ℕ) (e f : ProfileEntry)
    → In e (declared idx ps key)
    → In f (declared idx ps key)
    → e.profile_idx ≡ f.profile_idx
    → e.profile_id ≡ f.profile_id
unfolding entry_of
declared_one_id key ps idx e f m n h =
    let a = declared-Origin key e ps idx m in
    let b = declared-Origin key f ps idx n in ground (arith, a.at, b.at, a.is_entry, b.is_entry)
