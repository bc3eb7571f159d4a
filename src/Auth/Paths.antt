-- ===== src/Auth/Paths.antt =====
-- filepath.Clean and filepath.Join on the segments of a path, as internal/auth/allowlist.go uses them on
-- Unix. A stack holds the segments kept so far, the last one first.
use oh_my_code_agent.Prelude.{
  String, Bool, true, false, List, [], ◌∷◌, ◌++◌, reverse, ◌≡◌, ◌⊎◌, inl, inr, refl, ap, ◌∙◌, arith,
  if◌then◌else◌, ◌||◌, str_eq, str_eq_refl,
}
use oh_my_code_agent.Prelude.Keys.{contains, string_eq}

-- a `..`: it takes back the segment before it, if there is one that is not `..` itself
unfoldable pub back : Bool → List String → List String
back rooted [] = if rooted then [] else ".." ∷ []
back rooted (top ∷ stack) = if str_eq top ".." then ".." ∷ top ∷ stack else stack

unfoldable pub clean_step : Bool → List String → String → List String
unfolding back
clean_step rooted stack seg =
    if str_eq seg "" || str_eq seg "."
    then stack
    else (if str_eq seg ".." then back rooted stack else seg ∷ stack)

unfoldable pub clean_from : Bool → List String → List String → List String
unfolding clean_step
clean_from rooted stack [] = stack
clean_from rooted stack (seg ∷ segs) = clean_from rooted (clean_step rooted stack seg) segs

-- `filepath.Clean`, from the segments to the segments kept
unfoldable pub clean_path : Bool → List String → List String
unfolding clean_from
clean_path rooted segs = reverse (clean_from rooted [] segs)

abbrev pub has_dots : List String → Bool
has_dots stack = contains stack ".."

clean_step-has_dots :
    (stack : List String) (seg : String)
    → has_dots stack ≡ true
    → has_dots (clean_step false stack seg) ≡ true
unfolding clean_step back contains
clean_step-has_dots [] seg h = cc
clean_step-has_dots (top ∷ stack) seg h = ground arith

-- A `..` that is kept is never taken back.
clean_from-has_dots :
    (segs stack : List String)
    → has_dots stack ≡ true
    → has_dots (clean_from false stack segs) ≡ true
unfolding clean_from
clean_from-has_dots [] stack h = h
clean_from-has_dots (seg ∷ segs) stack h =
    clean_from-has_dots segs (clean_step false stack seg) (clean_step-has_dots stack seg h)

clean_step-append :
    (rooted : Bool) (seg : String) (stack below : List String)
    → (has_dots (clean_step false stack seg) ≡ true)
      ⊎ (clean_step rooted (stack ++ below) seg ≡ clean_step false stack seg ++ below)
unfolding clean_step back contains
clean_step-append rooted seg [] below = ground (arith, str_eq_refl "..")
clean_step-append rooted seg (top ∷ stack) below = ground arith

-- Segments that do not lead above their start do the same from any other place.
pub clean_from-append :
    (rooted : Bool) (segs stack below : List String)
    → has_dots (clean_from false stack segs) ≡ false
    → clean_from rooted (stack ++ below) segs ≡ clean_from false stack segs ++ below
unfolding clean_from
clean_from-append rooted [] stack below h = refl
clean_from-append rooted (seg ∷ segs) stack below h =
    elim (clean_step-append rooted seg stack below) [
      | inl dots ↦
          absurd (ground (arith, clean_from-has_dots segs (clean_step false stack seg) dots, h))
      | inr e ↦
          ap (λ x. clean_from rooted x segs) e
          ∙ clean_from-append rooted segs (clean_step false stack seg) below h
    ]

abbrev pub bottom : List String → String
bottom [] = ""
bottom (x ∷ []) = x
bottom (x ∷ y ∷ xs) = bottom (y ∷ xs)

-- A `..` stands at the bottom if anywhere.
abbrev pub DotsAtBottom : List String → Type 0
DotsAtBottom stack = has_dots stack ≡ true → bottom stack ≡ ".."

clean_step-DotsAtBottom :
    (stack : List String) (seg : String)
    → DotsAtBottom stack
    → DotsAtBottom (clean_step false stack seg)
unfolding clean_step back contains
clean_step-DotsAtBottom [] seg h = ground arith
clean_step-DotsAtBottom (x ∷ []) seg h = ground (arith, h)
clean_step-DotsAtBottom (x ∷ y ∷ stack) seg h = ground (arith, h)

pub clean_from-DotsAtBottom :
    (segs stack : List String) → DotsAtBottom stack → DotsAtBottom (clean_from false stack segs)
unfolding clean_from
clean_from-DotsAtBottom [] stack h = h
clean_from-DotsAtBottom (seg ∷ segs) stack h =
    clean_from-DotsAtBottom segs (clean_step false stack seg) (clean_step-DotsAtBottom stack seg h)
