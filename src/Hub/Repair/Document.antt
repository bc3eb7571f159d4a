-- ===== src/Hub/Repair/Document.antt =====
-- The documents that `JSONAutoRepair` of internal/hub/watchdog.go completes, and the endings that it adds.
use oh_my_code_agent.Prelude.{
  String, ℕ, Bool, true, false, List, [], ◌∷◌, ◌++◌, ◌≡◌, ◌≢◌, ◌<◌, ◌⊎◌, inl, inr, refl, sym, subst,
  arith, length, if◌then◌else◌, ◌==◌, ◌||◌,
}
use oh_my_code_agent.Hub.Repair.{meta, closers, codes}

-- where a text goes on: outside strings, in a string, or in a string after a backslash
pub data Place : Type 0 where
  bare : Place
  quoted : Place
  escape : Place

abbrev AtLastPlace : Place → List ℕ → Type 0
AtLastPlace Place.bare stack = stack ≡ []
AtLastPlace Place.quoted stack = ⊥
AtLastPlace Place.escape stack = ⊥

abbrev pub IsClosing : ℕ → Type 0
IsClosing c = (c ≡ b'}') ⊎ (c ≡ b']')

-- The text finishes a document of which strings and brackets are open: `stack` are the brackets that must
-- follow, the innermost first. At most 512 are open at once, each closing bracket is the innermost one due,
-- a backslash in a string takes the next character with it, and at the end nothing is open.
unfoldable pub Finishes : Place → List ℕ → List ℕ → Type 0
Finishes place stack [] = AtLastPlace place stack
Finishes Place.bare stack (c ∷ cs) =
    ((c ≡ b'"') × Finishes Place.quoted stack cs)
    ⊎ ((c ≡ b'{') × (length stack < 512) × Finishes Place.bare (b'}' ∷ stack) cs)
    ⊎ ((c ≡ b'[') × (length stack < 512) × Finishes Place.bare (b']' ∷ stack) cs)
    ⊎ ((rest : List ℕ) × IsClosing c × (stack ≡ c ∷ rest) × Finishes Place.bare rest cs)
    ⊎ (((c ≢ b'"') × (c ≢ b'{') × (c ≢ b'[') × ¬ IsClosing c) × Finishes Place.bare stack cs)
Finishes Place.quoted stack (c ∷ cs) =
    ((c ≡ b'"') × Finishes Place.bare stack cs)
    ⊎ ((c ≡ b'\\') × Finishes Place.escape stack cs)
    ⊎ ((c ≢ b'"') × (c ≢ b'\\') × Finishes Place.quoted stack cs)
Finishes Place.escape stack (c ∷ cs) = Finishes Place.quoted stack cs

abbrev AreClosers : List ℕ → Type 0
AreClosers [] = Unit
AreClosers (c ∷ cs) = IsClosing c × AreClosers cs

pub Finishes-AreClosers :
    (place : Place) (stack text : List ℕ) → Finishes place stack text → AreClosers stack
unfolding Finishes
Finishes-AreClosers Place.bare stack [] e = subst AreClosers (sym e) tt
Finishes-AreClosers Place.quoted stack [] z = absurd z
Finishes-AreClosers Place.escape stack [] z = absurd z
Finishes-AreClosers Place.bare stack (c ∷ cs) (inl (e, h)) =
    Finishes-AreClosers Place.quoted stack cs h
Finishes-AreClosers Place.bare stack (c ∷ cs) (inr (inl (e, n, h))) =
    (Finishes-AreClosers Place.bare (b'}' ∷ stack) cs h).1
Finishes-AreClosers Place.bare stack (c ∷ cs) (inr (inr (inl (e, n, h)))) =
    (Finishes-AreClosers Place.bare (b']' ∷ stack) cs h).1
Finishes-AreClosers Place.bare stack (c ∷ cs) (inr (inr (inr (inl (rest, k, e, h))))) =
    subst AreClosers (sym e) (k, Finishes-AreClosers Place.bare rest cs h)
Finishes-AreClosers Place.bare stack (c ∷ cs) (inr (inr (inr (inr (k, h))))) =
    Finishes-AreClosers Place.bare stack cs h
Finishes-AreClosers Place.quoted stack (c ∷ cs) (inl (e, h)) =
    Finishes-AreClosers Place.bare stack cs h
Finishes-AreClosers Place.quoted stack (c ∷ cs) (inr (inl (e, h))) =
    Finishes-AreClosers Place.escape stack cs h
Finishes-AreClosers Place.quoted stack (c ∷ cs) (inr (inr (e, k, h))) =
    Finishes-AreClosers Place.quoted stack cs h
Finishes-AreClosers Place.escape stack (c ∷ cs) h = Finishes-AreClosers Place.quoted stack cs h

pub one_closing :
    (c : ℕ) (stack text : List ℕ)
    → IsClosing c
    → Finishes Place.bare stack text
    → Finishes Place.bare (c ∷ stack) (c ∷ text)
unfolding Finishes
one_closing c stack text k h = inr (inr (inr (inl (stack, k, refl, h))))

-- no quote, bracket or backslash among the characters
abbrev are_ordinary : List ℕ → Bool
are_ordinary [] = true
are_ordinary (c ∷ cs) =
    if (c == b'"') || (c == b'\\') || (c == b'{') || (c == b'[') || (c == b'}') || (c == b']')
    then false
    else are_ordinary cs

pub in_bare :
    (word stack text : List ℕ)
    → are_ordinary word ≡ true
    → Finishes Place.bare stack text
    → Finishes Place.bare stack (word ++ text)
unfolding Finishes
in_bare [] stack text o h = h
in_bare (c ∷ cs) stack text o h =
    inr (inr (inr (inr (ground arith, in_bare cs stack text (ground (arith, o)) h))))

pub in_quotes :
    (word stack text : List ℕ)
    → are_ordinary word ≡ true
    → Finishes Place.bare stack text
    → Finishes Place.quoted stack (word ++ (b'"' ∷ text))
unfolding Finishes
in_quotes [] stack text o h = inl (refl, h)
in_quotes (c ∷ cs) stack text o h =
    inr (inr (ground arith, ground arith, in_quotes cs stack text (ground (arith, o)) h))

pub as_string :
    (word stack text : List ℕ)
    → are_ordinary word ≡ true
    → Finishes Place.bare stack text
    → Finishes Place.bare stack (b'"' ∷ (word ++ (b'"' ∷ text)))
unfolding Finishes
as_string word stack text o h = inl (refl, in_quotes word stack text o h)

pub nothing_left : Finishes Place.bare [] []
unfolding Finishes
nothing_left = refl

pub open_brace :
    (stack text : List ℕ)
    → length stack < 512
    → Finishes Place.bare (b'}' ∷ stack) text
    → Finishes Place.bare stack (b'{' ∷ text)
unfolding Finishes
open_brace stack text l h = inr (inl (refl, l, h))

pub open_bracket :
    (stack text : List ℕ)
    → length stack < 512
    → Finishes Place.bare (b']' ∷ stack) text
    → Finishes Place.bare stack (b'[' ∷ text)
unfolding Finishes
open_bracket stack text l h = inr (inr (inl (refl, l, h)))

pub open_string :
    (stack text : List ℕ)
    → Finishes Place.quoted stack text
    → Finishes Place.bare stack (b'"' ∷ text)
unfolding Finishes
open_string stack text h = inl (refl, h)

pub letter_first :
    (c : ℕ) (stack text : List ℕ)
    → c ≢ b'"'
    → c ≢ b'\\'
    → Finishes Place.quoted stack text
    → Finishes Place.quoted stack (c ∷ text)
unfolding Finishes
letter_first c stack text q b h = inr (inr (q, b, h))

pub escape_first :
    (c : ℕ) (stack text : List ℕ)
    → Finishes Place.quoted stack text
    → Finishes Place.quoted stack (b'\\' ∷ c ∷ text)
unfolding Finishes
escape_first c stack text h = inr (inl (refl, h))

abbrev string_of : String → List ℕ → List ℕ
unfolding codes
string_of word text = b'"' ∷ (codes word ++ (b'"' ∷ text))

abbrev reason_part : List ℕ
unfolding codes
reason_part = string_of "reason" (codes ":" ++ string_of "SLA_150S_EXCEEDED" (b'}' ∷ b'}' ∷ []))

abbrev truncated_part : List ℕ
unfolding codes
truncated_part = string_of "truncated" (codes ":true," ++ reason_part)

reason-Finishes : Finishes Place.bare (b'}' ∷ b'}' ∷ []) reason_part
unfolding codes
reason-Finishes =
    let ends =
      one_closing b'}' (b'}' ∷ []) (b'}' ∷ []) (inl refl)
        (one_closing b'}' [] [] (inl refl) nothing_left) in
    let open_two = b'}' ∷ b'}' ∷ [] in
    as_string (codes "reason") open_two (codes ":" ++ string_of "SLA_150S_EXCEEDED" open_two) refl (
      in_bare (codes ":") open_two (string_of "SLA_150S_EXCEEDED" open_two) refl
        (as_string (codes "SLA_150S_EXCEEDED") open_two open_two refl ends))

truncated-Finishes : Finishes Place.bare (b'}' ∷ b'}' ∷ []) truncated_part
unfolding codes
truncated-Finishes =
    let open_two = b'}' ∷ b'}' ∷ [] in
    as_string (codes "truncated") open_two (codes ":true," ++ reason_part) refl
      (in_bare (codes ":true,") open_two reason_part refl reason-Finishes)

meta-Finishes : Finishes Place.bare (b'}' ∷ []) (meta ++ (b'}' ∷ []))
unfolding codes
meta-Finishes =
    let root = b'}' ∷ [] in
    in_bare (codes ",") root (string_of "_meta" (codes ":" ++ (b'{' ∷ truncated_part))) refl (
      as_string (codes "_meta") root (codes ":" ++ (b'{' ∷ truncated_part)) refl (
        in_bare (codes ":") root (b'{' ∷ truncated_part) refl
          (open_brace root truncated_part (ground arith) truncated-Finishes)))

-- The closers of a stack, with the metadata of a root object, finish a text.
pub closers-Finishes :
    (stack : List ℕ) → AreClosers stack → Finishes Place.bare stack (closers stack)
unfolding closers Finishes
closers-Finishes [] h = refl
closers-Finishes (c ∷ []) (inl e, _) = rw e meta-Finishes
closers-Finishes (c ∷ []) (inr e, _) = rw e (one_closing b']' [] [] (inr refl) refl)
closers-Finishes (c ∷ d ∷ stack) (k, h) =
    one_closing c (d ∷ stack) (closers (d ∷ stack)) k (closers-Finishes (d ∷ stack) h)
