-- ===== src/Resolve/Decide/Grouped.antt =====
-- What the reduction of the entries to one intent for each profile keeps.
use oh_my_code_agent.Prelude.{
  ℕ, Bool, true, Option, none, some, List, [], ◌∷◌, map, ◌≡◌, refl, sym, ap, subst, ◌∙◌, inl, inr,
  ◌↔◌, keep, arith, In, In-map, map-In, In-keep, keep-In, leb, ◌==◌, if◌then◌else◌,
}
use oh_my_code_agent.Prelude.Keys.{
  contains, contains→In, In→contains, distinct, contains-distinct, In-distinct_iff, nat_beq_iff,
  nat_eq,
}
use oh_my_code_agent.Prelude.Sort.{In-sort_iff}
use oh_my_code_agent.Domain.Levels.{Intent, denied, required, intent_eq}
use oh_my_code_agent.Resolve.Candidates.{ProfileEntry}
use oh_my_code_agent.Resolve.Decide.Reduce.{
  reduce_distinct, sticky, intents, reduce_group, ReducedProfile, Reduction, reduced, ambiguous,
  group, profile_order, head_id, reduce_step, reduce_order, reduce_applicable,
}

abbrev pub has : Intent → List ProfileEntry → Bool
has i es = contains (intents es) i

reduce_distinct_denied :
    (ds : List Intent)
    → contains ds denied ≡ true
    → reduce_distinct ds ≡ (if contains ds required then none else some denied)
unfolding reduce_distinct contains
reduce_distinct_denied [] h = cc
reduce_distinct_denied (i ∷ []) h = ground arith
reduce_distinct_denied (i ∷ j ∷ ds) h = ground arith

reduce_distinct_required :
    (ds : List Intent)
    → contains ds required ≡ true
    → reduce_distinct ds ≡ (if contains ds denied then none else some required)
unfolding reduce_distinct contains
reduce_distinct_required [] h = cc
reduce_distinct_required (i ∷ []) h = ground arith
reduce_distinct_required (i ∷ j ∷ ds) h = ground arith

sticky-contains : (i : Intent) (ds : List Intent) → sticky ds ≡ some i → contains ds i ≡ true
unfolding sticky
sticky-contains i ds h = ground arith

reduce_distinct-In : (i : Intent) (ds : List Intent) → reduce_distinct ds ≡ some i → In i ds
unfolding reduce_distinct
reduce_distinct-In i [] h = contains→In i [] (sticky-contains i [] h)
reduce_distinct-In i (j ∷ []) h = inl (ground arith)
reduce_distinct-In i (j ∷ k ∷ ds) h = contains→In i (j ∷ k ∷ ds) (sticky-contains i (j ∷ k ∷ ds) h)

-- A profile that denies an asset reduces to DENIED, or is ambiguous if it also requires it.
pub reduce_group_denied :
    (es : List ProfileEntry)
    → has denied es ≡ true
    → reduce_group es ≡ (if has required es then none else some denied)
unfolding reduce_group
reduce_group_denied es h =
    rw (← contains-distinct required (intents es))
      (reduce_distinct_denied (distinct (intents es)) (contains-distinct denied (intents es) ∙ h))

-- A profile that requires an asset reduces to REQUIRED, or is ambiguous if it also denies it.
pub reduce_group_required :
    (es : List ProfileEntry)
    → has required es ≡ true
    → reduce_group es ≡ (if has denied es then none else some required)
unfolding reduce_group
reduce_group_required es h =
    rw (← contains-distinct denied (intents es)) (
      reduce_distinct_required (distinct (intents es))
        (contains-distinct required (intents es) ∙ h))

-- A reduced intent is one of the profile's own.
pub reduce_group-In :
    (i : Intent) (es : List ProfileEntry) → reduce_group es ≡ some i → In i (intents es)
unfolding reduce_group
reduce_group-In i es h =
    (In-distinct_iff i (intents es)).0 (reduce_distinct-In i (distinct (intents es)) h)

reduce_step-reduced :
    (idx : ℕ) (grp : List ProfileEntry) (o : Option Intent) (rest : Reduction)
    (rs : List ReducedProfile)
    → reduce_step idx grp o rest ≡ reduced rs
    → (i : Intent) × (rs' : List ReducedProfile) × (o ≡ some i)
      × (rest ≡ reduced rs')
      × (rs ≡ (record { idx = idx; profile_id = head_id grp; intent = i }) ∷ rs')
unfolding reduce_step
reduce_step-reduced idx grp none rest rs h = cc
reduce_step-reduced idx grp (some i) (reduced rs') rs h = (i, rs', refl, refl, ground arith)
reduce_step-reduced idx grp (some i) (ambiguous is) rs h = cc

reduced_injective : (rs rs' : List ReducedProfile) → reduced rs ≡ reduced rs' → rs ≡ rs'
reduced_injective rs rs' h = cc

-- `r` is the reduction of the entries of its own profile
pub record IsReduced (es : List ProfileEntry) (r : ReducedProfile) : Type 0 where
  pub intent : reduce_group (group r.idx es) ≡ some r.intent
  pub profile : r.profile_id ≡ head_id (group r.idx es)

reduce_order-every :
    (es : List ProfileEntry) (idx : ℕ) (order : List ℕ) (rs : List ReducedProfile)
    → reduce_order order es ≡ reduced rs
    → In idx order
    → (r : ReducedProfile) × In r rs × (r.idx ≡ idx) × IsReduced es r
unfolding reduce_order
reduce_order-every es idx [] rs h m = absurd m
reduce_order-every es idx (j ∷ order) rs h m =
    let (i, rs', e, f, g) = reduce_step-reduced j _ _ _ rs h in
    rw g (elim m [
      | inl q ↦ (
        record { idx = j; profile_id = head_id (group j es); intent = i },
        inl refl,
        sym q,
        record { intent = e; profile = refl },
      )
      | inr n ↦ let (r, k, q, w) = reduce_order-every es idx order rs' f n in (r, inr k, q, w)
    ])

reduce_order-only :
    (es : List ProfileEntry) (order : List ℕ) (rs : List ReducedProfile) (r : ReducedProfile)
    → reduce_order order es ≡ reduced rs
    → In r rs
    → In r.idx order × IsReduced es r
unfolding reduce_order
reduce_order-only es [] rs r h m = absurd (subst (In r) (reduced_injective _ _ (sym h)) m)
reduce_order-only es (j ∷ order) rs r h m =
    let (i, rs', e, f, g) = reduce_step-reduced j _ _ _ rs h in
    elim (subst (In r) g m) [
      | inl q ↦ rw q (inl refl, record { intent = e; profile = refl })
      | inr n ↦ let (k, w) = reduce_order-only es order rs' r f n in (inr k, w)
    ]

-- The entries of one profile carry one id.
abbrev pub OneIdEach : List ProfileEntry → Type 0
OneIdEach es =
    (e f : ProfileEntry)
    → In e es
    → In f es
    → e.profile_idx ≡ f.profile_idx
    → e.profile_id ≡ f.profile_id

head_id-group :
    (es : List ProfileEntry) (e : ProfileEntry)
    → OneIdEach es
    → In e es
    → head_id (group e.profile_idx es) ≡ e.profile_id
unfolding group
head_id-group es e one m = pick (keep (λ f. f.profile_idx == e.profile_idx) es) refl (
    keep-In (λ f. f.profile_idx == e.profile_idx) e es m
      ((nat_beq_iff e.profile_idx e.profile_idx).1 refl))
  where
    pick :
        (g : List ProfileEntry)
        → keep (λ f. f.profile_idx == e.profile_idx) es ≡ g
        → In e g
        → head_id g ≡ e.profile_id
    pick [] p n = absurd n
    pick (f ∷ g) p n =
        let (k, t) =
          In-keep (λ f. f.profile_idx == e.profile_idx) f es (subst (In f) (sym p) (inl refl)) in
        one f e k m ((nat_beq_iff f.profile_idx e.profile_idx).0 t)

pub has-group :
    (i : Intent) (es : List ProfileEntry) (e : ProfileEntry)
    → In e es
    → e.intent ≡ i
    → has i (group e.profile_idx es) ≡ true
unfolding group
has-group i es e m p = In→contains i _ (
    subst (λ j. In j (intents (group e.profile_idx es))) p
      (In-map (λ f. f.intent) e _
        (keep-In (λ f. f.profile_idx == e.profile_idx) e es m
          ((nat_beq_iff e.profile_idx e.profile_idx).1 refl))))

profile_order_iff :
    (n : ℕ) (es : List ProfileEntry) → In n (profile_order es) ↔ In n (map (λ e. e.profile_idx) es)
unfolding profile_order
profile_order_iff n es = (
  λ h. (In-distinct_iff n _).0 ((In-sort_iff leb n _).0 h),
  λ h. (In-sort_iff leb n _).1 ((In-distinct_iff n _).1 h),
)

-- Every entry is counted: its profile is among the reduced ones, under the profile's id.
pub reduce_applicable-every :
    (es : List ProfileEntry) (rs : List ReducedProfile) (e : ProfileEntry)
    → OneIdEach es
    → reduce_applicable es ≡ reduced rs
    → In e es
    → (r : ReducedProfile) × In r rs
      × (r.profile_id ≡ e.profile_id)
      × (reduce_group (group e.profile_idx es) ≡ some r.intent)
unfolding reduce_applicable
reduce_applicable-every es rs e one h m =
    let (r, k, q, w) =
      reduce_order-every es e.profile_idx (profile_order es) rs h
        ((profile_order_iff e.profile_idx es).1 (In-map (λ f. f.profile_idx) e es m)) in
    (
      r,
      k,
      w.profile ∙ (ap (λ n. head_id (group n es)) q ∙ head_id-group es e one m),
      subst (λ n. reduce_group (group n es) ≡ some r.intent) q w.intent,
    )

-- Nothing else is: a reduced profile has an entry with its id and its intent.
pub reduce_applicable-only :
    (es : List ProfileEntry) (rs : List ReducedProfile) (r : ReducedProfile)
    → OneIdEach es
    → reduce_applicable es ≡ reduced rs
    → In r rs
    → (e : ProfileEntry) × In e es × (r.profile_id ≡ e.profile_id) × (e.intent ≡ r.intent)
unfolding reduce_applicable group
reduce_applicable-only es rs r one h m =
    let (k, w) = reduce_order-only es (profile_order es) rs r h m in
    let (e, n, p) = map-In (λ f. f.intent) r.intent _ (reduce_group-In r.intent _ w.intent) in
    let (i, t) = In-keep (λ f. f.profile_idx == r.idx) e es n in
    (
      e,
      i,
      w.profile
          ∙ (ap (λ x. head_id (group x es)) (sym ((nat_beq_iff e.profile_idx r.idx).0 t))
              ∙ head_id-group es e one i),
      sym p,
    )
