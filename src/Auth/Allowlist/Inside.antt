-- ===== src/Auth/Allowlist/Inside.antt =====
-- Where the links of internal/auth/allowlist.go lead.
use oh_my_code_agent.Prelude.{
  ℕ, suc, String, Bool, true, false, none, List, [], ◌∷◌, ◌++◌, reverse, ◌≡◌, ◌≢◌, refl, sym, ap,
  subst, ◌∙◌, inl, inr, arith, In, In-append, str_eq_iff, not-true→false,
}
use mathlib.Core.List.{reverse-cons, reverse-append, reverse-reverse}
use oh_my_code_agent.Prelude.Keys.{contains, string_eq, not_In→contains, In→contains}
use oh_my_code_agent.Profiles.Glob.{split_slash}
use oh_my_code_agent.Auth.State.{shares_across_generations}
use oh_my_code_agent.Auth.Paths.{
  clean_path, clean_from, has_dots, bottom, DotsAtBottom, clean_from-append,
  clean_from-DotsAtBottom,
}
use oh_my_code_agent.Auth.Allowlist.{
  AllowlistedShare, is_abs, relative_fault, rejects_broad_rel_path, validate_share, validate_from,
  join_path,
}

bottom-snoc : (xs : List String) (x : String) → bottom (xs ++ (x ∷ [])) ≡ x
bottom-snoc [] x = refl
bottom-snoc (y ∷ []) x = refl
bottom-snoc (y ∷ z ∷ xs) x = bottom-snoc (z ∷ xs) x

bottom-reverse : (x : String) (xs : List String) → bottom (reverse (x ∷ xs)) ≡ x
bottom-reverse x xs = ap bottom (reverse-cons x xs) ∙ bottom-snoc (reverse xs) x

-- A path that is not rejected is relative, keeps a segment, and keeps no `..`.
pub record IsInside (rel_path : String) : Type 0 where
  relative : is_abs rel_path ≡ false
  kept : clean_from false [] (split_slash rel_path) ≢ []
  dotless : has_dots (clean_from false [] (split_slash rel_path)) ≡ false

relative_fault-none :
    (clean : List String)
    → relative_fault clean ≡ none
    → (clean ≢ []) × (bottom (reverse clean) ≢ "..")
unfolding relative_fault
relative_fault-none [] h = absurd (ground arith)
relative_fault-none (seg ∷ segs) h =
    (λ e. cc, λ e. ground (arith, h, (str_eq_iff seg "..").1 (sym (bottom-reverse seg segs) ∙ e)))

rejects-none :
    (rel_path : String)
    → rejects_broad_rel_path rel_path ≡ none
    → (is_abs rel_path ≡ false)
      × (relative_fault (clean_path (is_abs rel_path) (split_slash rel_path)) ≡ none)
unfolding rejects_broad_rel_path
rejects-none rel_path h = ground (arith, h)

empty-DotsAtBottom : DotsAtBottom []
unfolding contains
empty-DotsAtBottom h = absurd (ground arith)

pub rejects-none-IsInside :
    (rel_path : String) → rejects_broad_rel_path rel_path ≡ none → IsInside rel_path
unfolding clean_path
rejects-none-IsInside rel_path h = record {
  relative = (rejects-none rel_path h).0;
  kept = λ e. found.0 (ap reverse e);
  dotless = not-true→false _ λ t. found.1 (
      ap bottom (reverse-reverse stack)
      ∙ clean_from-DotsAtBottom (split_slash rel_path) [] empty-DotsAtBottom t);
}
  where
    stack : List String
    stack = clean_from false [] (split_slash rel_path)

    clean_is : relative_fault (reverse stack) ≡ none
    clean_is =
        subst (λ b. relative_fault (clean_path b (split_slash rel_path)) ≡ none)
          (rejects-none rel_path h).0 (rejects-none rel_path h).1

    found : (reverse stack ≢ []) × (bottom (reverse (reverse stack)) ≢ "..")
    found = relative_fault-none (reverse stack) clean_is

clean_from-concat :
    (rooted : Bool) (xs ys stack : List String)
    → clean_from rooted stack (xs ++ ys) ≡ clean_from rooted (clean_from rooted stack xs) ys
unfolding clean_from
clean_from-concat rooted [] ys stack = refl
clean_from-concat rooted (x ∷ xs) ys stack = clean_from-concat rooted xs ys _

-- Joined to a home, a path that is not rejected leads below the home.
join_path-IsInside :
    (home rel_path : String)
    → IsInside rel_path
    → join_path home rel_path
      ≡ clean_path (is_abs home) (split_slash home) ++ clean_path false (split_slash rel_path)
unfolding join_path clean_path
join_path-IsInside home rel_path inside =
    ap reverse (
      clean_from-concat (is_abs home) (split_slash home) (split_slash rel_path) []
      ∙ clean_from-append (is_abs home) (split_slash rel_path) []
          (clean_from (is_abs home) [] (split_slash home)) inside.dotless)
    ∙ reverse-append (clean_from false [] (split_slash rel_path))
        (clean_from (is_abs home) [] (split_slash home))

-- A path strictly below a directory, with no `..` on the way.
pub record IsBelow (home : String) (path : List String) : Type 0 where
  pub below : List String
  pub splits : path ≡ clean_path (is_abs home) (split_slash home) ++ below
  pub some_segment : below ≢ []
  pub no_dots : contains below ".." ≡ false

In-reverse : (x : String) (xs : List String) → In x (reverse xs) → In x xs
In-reverse x [] m = m
In-reverse x (y ∷ ys) m =
    elim (In-append x (reverse ys) (y ∷ []) (subst (In x) (reverse-cons y ys) m)) [
      | inl l ↦ inr (In-reverse x ys l)
      | inr (inl e) ↦ inl e
      | inr (inr l) ↦ absurd l
    ]

contains-reverse :
    (xs : List String) (x : String) → contains xs x ≡ false → contains (reverse xs) x ≡ false
contains-reverse xs x h =
    not_In→contains x (reverse xs) λ m. ground (arith, h, In→contains x xs (In-reverse x xs m))

pub join_path-IsBelow :
    (home rel_path : String) → IsInside rel_path → IsBelow home (join_path home rel_path)
unfolding clean_path
join_path-IsBelow home rel_path inside = record {
  below = clean_path false (split_slash rel_path);
  splits = join_path-IsInside home rel_path inside;
  some_segment = λ e. inside.kept (sym (reverse-reverse _) ∙ ap reverse e);
  no_dots = contains-reverse (clean_from false [] (split_slash rel_path)) ".." inside.dotless;
}

pub validate_share-none :
    (e : AllowlistedShare)
    → validate_share e ≡ none
    → (rejects_broad_rel_path e.rel_path ≡ none) × (shares_across_generations e.class ≡ true)
unfolding validate_share
validate_share-none e h = ground (arith, h)

pub validate_from-none :
    (i : ℕ) (es : List AllowlistedShare) (e : AllowlistedShare)
    → validate_from i es ≡ none
    → In e es
    → validate_share e ≡ none
unfolding validate_from
validate_from-none i [] e h m = absurd m
validate_from-none i (d ∷ es) e h (inl q) = ground (arith, h, q)
validate_from-none i (d ∷ es) e h (inr m) = validate_from-none (suc i) es e (ground (arith, h)) m
