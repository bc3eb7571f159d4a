-- ===== src/Auth/Allowlist/Planned.antt =====
-- The links that internal/auth/allowlist.go plans from a valid allowlist.
use oh_my_code_agent.Prelude.{
  String, true, false, none, List, [], ◌∷◌, ◌≡◌, refl, sym, ap, subst, ◌∙◌, inl, inr, arith, In,
  str_eq, str_eq_iff, Bool-cases,
}
use oh_my_code_agent.Prelude.Keys.{string_eq}
use oh_my_code_agent.Domain.Host.{validate_host_id}
use oh_my_code_agent.Auth.State.{shares_across_generations}
use oh_my_code_agent.Auth.Allowlist.{
  AllowlistedShare, rejects_broad_rel_path, validate_share, validate_allowlist, SymlinkPlan,
  planned, plan_of, plan_from, plan_allowlisted_symlinks,
}
use oh_my_code_agent.Auth.Allowlist.Inside.{
  IsBelow, validate_share-none, validate_from-none, rejects-none-IsInside, join_path-IsBelow,
}

module _ (host native_home generation_home : String) where
  -- what the plans for the host are: one for each of its entries
  record PlansFor (es : List AllowlistedShare) : Type 0 where
    plans : List SymlinkPlan
    given : plan_from host native_home generation_home es ≡ planned plans
    sound :
        (p : SymlinkPlan)
        → In p plans
        → (e : AllowlistedShare) × In e es
          × (e.host ≡ host)
          × (p ≡ plan_of native_home generation_home e)
    complete :
        (e : AllowlistedShare)
        → In e es
        → e.host ≡ host
        → In (plan_of native_home generation_home e) plans

  plan_from-skip :
      (e : AllowlistedShare) (es : List AllowlistedShare)
      → str_eq e.host host ≡ false
      → plan_from host native_home generation_home (e ∷ es)
        ≡ plan_from host native_home generation_home es
  unfolding plan_from
  plan_from-skip e es h = ground (arith, h)

  plan_from-take :
      (e : AllowlistedShare) (es : List AllowlistedShare) (ps : List SymlinkPlan)
      → str_eq e.host host ≡ true
      → rejects_broad_rel_path e.rel_path ≡ none
      → plan_from host native_home generation_home es ≡ planned ps
      → plan_from host native_home generation_home (e ∷ es)
        ≡ planned (plan_of native_home generation_home e ∷ ps)
  unfolding plan_from
  plan_from-take e es ps h ok rest = ground (arith, h, ok, rest)

  extended :
      (d : AllowlistedShare) (es : List AllowlistedShare)
      → validate_share d ≡ none
      → PlansFor es
      → PlansFor (d ∷ es)
  extended d es valid rest = elim (Bool-cases (str_eq d.host host)) [
    | inl t ↦ record {
      plans = plan_of native_home generation_home d ∷ rest.plans;
      given = plan_from-take d es rest.plans t (validate_share-none d valid).0 rest.given;
      sound = λ p m. elim m [
        | inl q ↦ (d, inl refl, (str_eq_iff d.host host).0 t, q)
        | inr l ↦ let (e, n, k, q) = rest.sound p l in (e, inr n, k, q)
      ];
      complete = λ e m h. elim m [
        | inl q ↦ inl (ap (plan_of native_home generation_home) q)
        | inr l ↦ inr (rest.complete e l h)
      ];
    }
    | inr f ↦ record {
      plans = rest.plans;
      given = plan_from-skip d es f ∙ rest.given;
      sound = λ p m. let (e, n, k, q) = rest.sound p m in (e, inr n, k, q);
      complete = λ e m h. elim m [
        | inl q ↦
            absurd (ground (arith, f, (str_eq_iff d.host host).1 (ap (λ x. x.host) (sym q) ∙ h)))
        | inr l ↦ rest.complete e l h
      ];
    }
  ]

  plans_for :
      (es : List AllowlistedShare)
      → ((e : AllowlistedShare) → In e es → validate_share e ≡ none)
      → PlansFor es
  unfolding plan_from
  plans_for [] valid = record {
    plans = [];
    given = refl;
    sound = λ p m. absurd m;
    complete = λ e m h. absurd m;
  }
  plans_for (d ∷ es) valid =
      extended d es (valid d (inl refl)) (plans_for es (λ e m. valid e (inr m)))

plan_of-IsBelow :
    (native_home generation_home : String) (e : AllowlistedShare)
    → validate_share e ≡ none
    → (shares_across_generations (plan_of native_home generation_home e).class ≡ true)
      × IsBelow native_home (plan_of native_home generation_home e).target
      × IsBelow generation_home (plan_of native_home generation_home e).link
unfolding plan_of
plan_of-IsBelow native_home generation_home e valid =
    let inside = rejects-none-IsInside e.rel_path (validate_share-none e valid).0 in
    (
      (validate_share-none e valid).1,
      join_path-IsBelow native_home e.rel_path inside,
      join_path-IsBelow generation_home e.rel_path inside,
    )

-- For a valid host and two homes that are not empty, a valid allowlist gives plans: one for each entry
-- of the host, and each of them is the plan of such an entry; each is of a class that generations share, and its target is strictly below
-- the native home and its link strictly below the generation's, with no `..` on the way.
pub plan_allowlisted_symlinks-IsBelow :
    (entries : List AllowlistedShare) (host native_home generation_home : String)
    → validate_allowlist entries ≡ none
    → validate_host_id host ≡ none
    → str_eq native_home "" ≡ false
    → str_eq generation_home "" ≡ false
    → (ps : List SymlinkPlan) × (plan_allowlisted_symlinks entries host native_home generation_home
        ≡ planned ps)
      × ((e : AllowlistedShare)
          → In e entries
          → e.host ≡ host
          → In (plan_of native_home generation_home e) ps)
      × ((p : SymlinkPlan)
          → In p ps
          → (e : AllowlistedShare) × In e entries
            × (e.host ≡ host)
            × (p ≡ plan_of native_home generation_home e))
      × ((p : SymlinkPlan)
          → In p ps
          → (shares_across_generations p.class ≡ true)
            × IsBelow native_home p.target
            × IsBelow generation_home p.link)
unfolding validate_allowlist plan_allowlisted_symlinks
plan_allowlisted_symlinks-IsBelow entries host native_home generation_home ok known native
      generation =
    (
      found.plans,
      ground (arith, known, native, generation, found.given),
      found.complete,
      found.sound,
      λ p m.
          let (e, n, k, q) = found.sound p m in
          subst
            (λ x.
              (shares_across_generations x.class ≡ true)
              × IsBelow native_home x.target
              × IsBelow generation_home x.link)
            (sym q) (plan_of-IsBelow native_home generation_home e (valid e n)),
    )
  where
    valid : (e : AllowlistedShare) → In e entries → validate_share e ≡ none
    valid e m = validate_from-none 0 entries e ok m

    found : PlansFor host native_home generation_home entries
    found = plans_for host native_home generation_home entries valid
