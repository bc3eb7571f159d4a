-- ===== src/Profiles/Glob.antt =====
-- `globMatch` and `globMatchSegments` of internal/profiles/binding.go. Go's `path.Match` on one
-- segment is the parameter `segment_match`: `none` is its error for a malformed pattern.
use Prim.Native.Char.{Char, code}
use Prim.Native.String as Text
use oh_my_code_agent.Prelude.{
  String, Bool, true, false, Option, none, some, List, [], ◌∷◌, ◌≡◌, refl, ◌≢◌, inl, inr, ◌↔◌, ◌&&◌,
  ◌||◌, arith, str_eq, str_eq_iff, ◌==◌, if◌then◌else◌, Bool-cases, not-true→false,
}

abbrev cons_head : Char → List String → List String
cons_head c [] = (Text.◌∷◌ c Text.[]) ∷ []
cons_head c (x ∷ xs) = (Text.◌∷◌ c x) ∷ xs

-- `strings.Split(s, "/")`: the empty text has one empty segment
unfoldable pub split_slash : String → List String
split_slash Text.[] = "" ∷ []
split_slash (Text.◌∷◌ c s) =
    if code c == b'/' then "" ∷ split_slash s else cons_head c (split_slash s)

-- the segments of a path; the root has none
unfoldable pub path_segments : String → List String
path_segments p = if str_eq p "" then [] else split_slash p

abbrev pub is_true : Option Bool → Bool
is_true (some true) = true
is_true _ = false

module _ (segment_match : String → String → Option Bool) where
  unfoldable pub glob_match_segments : List String → List String → Bool
  glob_match_segments [] [] = true
  glob_match_segments [] (s ∷ seg) = false
  glob_match_segments (p ∷ pattern) [] = str_eq p "**" && glob_match_segments pattern []
  glob_match_segments (p ∷ pattern) (s ∷ seg) =
      let skip = glob_match_segments pattern (s ∷ seg) in
      let take = glob_match_segments (p ∷ pattern) seg in
      let next = glob_match_segments pattern seg in
      if str_eq p "**" then skip || take else is_true (segment_match p s) && next

  unfoldable pub glob_match : String → String → Bool
  glob_match pattern p = glob_match_segments (split_slash pattern) (path_segments p)

  -- What a pattern means, with no search order: `**` stands for any run of segments, and any other
  -- segment of the pattern for one segment that `path.Match` accepts.
  pub data Matches : List String → List String → Type 0 where
    empty : Matches [] []
    leave :
        {p : String} {pattern seg : List String}
        → p ≡ "**"
        → Matches pattern seg
        → Matches (p ∷ pattern) seg
    take :
        {p s : String} {pattern seg : List String}
        → p ≡ "**"
        → Matches (p ∷ pattern) seg
        → Matches (p ∷ pattern) (s ∷ seg)
    one :
        {p s : String} {pattern seg : List String}
        → p ≢ "**"
        → segment_match p s ≡ some true
        → Matches pattern seg
        → Matches (p ∷ pattern) (s ∷ seg)

  is_true-some : (o : Option Bool) → is_true o ≡ true → o ≡ some true
  is_true-some none h = cc
  is_true-some (some true) h = refl
  is_true-some (some false) h = cc

  segments_sound :
      (pattern seg : List String) → glob_match_segments pattern seg ≡ true → Matches pattern seg
  unfolding glob_match_segments
  segments_sound [] [] h = empty
  segments_sound [] (s ∷ seg) h = cc
  segments_sound (p ∷ pattern) [] h =
      leave ((str_eq_iff p "**").0 (ground arith)) (segments_sound pattern [] (ground arith))
  segments_sound (p ∷ pattern) (s ∷ seg) h = elim (Bool-cases (str_eq p "**")) [
    | inl t ↦ elim (Bool-cases (glob_match_segments pattern (s ∷ seg))) [
      | inl k ↦ leave ((str_eq_iff p "**").0 t) (segments_sound pattern (s ∷ seg) k)
      | inr k ↦ take ((str_eq_iff p "**").0 t) (segments_sound (p ∷ pattern) seg (ground arith))
    ]
    | inr f ↦
        one (λ e. ground (arith, (str_eq_iff p "**").1 e))
          (is_true-some (segment_match p s) (ground arith))
          (segments_sound pattern seg (ground arith))
  ]

  segments_complete :
      {pattern seg : List String} → Matches pattern seg → glob_match_segments pattern seg ≡ true
  unfolding glob_match_segments
  segments_complete empty = refl
  segments_complete (leave {p = p} {pattern = pattern} {seg = []} e m) =
      ground (arith, (str_eq_iff p "**").1 e, segments_complete m)
  segments_complete (leave {p = p} {pattern = pattern} {seg = s ∷ seg} e m) =
      ground (arith, (str_eq_iff p "**").1 e, segments_complete m)
  segments_complete (take {p = p} e m) =
      ground (arith, (str_eq_iff p "**").1 e, segments_complete m)
  segments_complete (one {p = p} n h m) = ground (
    arith,
    not-true→false (str_eq p "**") (λ t. n ((str_eq_iff p "**").0 t)),
    h,
    segments_complete m,
  )

  -- The matcher answers true exactly where the segments of the path match those of the pattern, for
  -- any behaviour of the matcher of one segment.
  pub glob_match_iff :
      (pattern p : String)
      → (glob_match pattern p ≡ true) ↔ Matches (split_slash pattern) (path_segments p)
  unfolding glob_match
  glob_match_iff pattern p = (segments_sound _ _, segments_complete)
