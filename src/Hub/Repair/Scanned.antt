-- ===== src/Hub/Repair/Scanned.antt =====
-- Where the scan of `JSONAutoRepair` of internal/hub/watchdog.go stands after a part of a document.
use oh_my_code_agent.Prelude.{
  ℕ, true, false, List, [], ◌∷◌, ◌++◌, ◌≡◌, ◌≢◌, ◌<◌, inl, inr, refl, sym, ap, subst, ◌∙◌, arith,
  length,
}
use oh_my_code_agent.Hub.Repair.{
  Scan, outside, inside, scan_step, scan_all, string_step, plain_step, push, pop,
}
use oh_my_code_agent.Hub.Repair.Document.{Place, Finishes, IsClosing}

abbrev scan_at : Place → List ℕ → Scan
scan_at Place.bare stack = outside stack
scan_at Place.quoted stack = inside stack false
scan_at Place.escape stack = inside stack true

-- What finishes the text after `cut` finishes the text that starts with it; of a cut after a backslash this
-- holds without the backslash.
abbrev pub Continues : Place → List ℕ → Place → List ℕ → List ℕ → Type 0
Continues place stack Place.escape later cut =
    (body : List ℕ) × (cut ≡ body ++ (b'\\' ∷ []))
    × ((text : List ℕ) → Finishes Place.quoted later text → Finishes place stack (body ++ text))
Continues place stack next later cut =
    (text : List ℕ) → Finishes next later text → Finishes place stack (cut ++ text)

-- The scan of the cut text ends where the rest of the document goes on.
abbrev pub Ends : Place → List ℕ → List ℕ → List ℕ → Scan → Type 0
Ends place stack cut rest done =
    (next : Place) × (later : List ℕ) × (done ≡ scan_at next later)
    × Finishes next later rest
    × Continues place stack next later cut

Ends-cons :
    (place : Place) (stack : List ℕ) (place' : Place) (stack' : List ℕ) (c : ℕ) (cut rest : List ℕ)
    (done : Scan)
    → ((text : List ℕ) → Finishes place' stack' text → Finishes place stack (c ∷ text))
    → Ends place' stack' cut rest done
    → Ends place stack (c ∷ cut) rest done
Ends-cons place stack place' stack' c cut rest done f (Place.bare, later, e, h, g) =
    (Place.bare, later, e, h, λ text k. f (cut ++ text) (g text k))
Ends-cons place stack place' stack' c cut rest done f (Place.quoted, later, e, h, g) =
    (Place.quoted, later, e, h, λ text k. f (cut ++ text) (g text k))
Ends-cons place stack place' stack' c cut rest done f (Place.escape, later, e, h, (body, q, g)) = (
  Place.escape,
  later,
  e,
  h,
  (c ∷ body, ap (λ x. c ∷ x) q, λ text k. f (body ++ text) (g text k)),
)

module _ (stack : List ℕ) (c : ℕ) where
  step_quote : c ≡ b'"' → scan_step c (outside stack) ≡ inside stack false
  unfolding scan_step plain_step
  step_quote e = rw e refl

  step_brace : c ≡ b'{' → length stack < 512 → scan_step c (outside stack) ≡ outside (b'}' ∷ stack)
  unfolding scan_step plain_step push
  step_brace e n = rw e (ground (arith, n))

  step_bracket :
      c ≡ b'[' → length stack < 512 → scan_step c (outside stack) ≡ outside (b']' ∷ stack)
  unfolding scan_step plain_step push
  step_bracket e n = rw e (ground (arith, n))

  step_closing : IsClosing c → scan_step c (outside (c ∷ stack)) ≡ outside stack
  unfolding scan_step plain_step pop
  step_closing (inl e) = rw e refl
  step_closing (inr e) = rw e refl

  step_bare :
      (c ≢ b'"') × (c ≢ b'{') × (c ≢ b'[') × ¬ IsClosing c
      → scan_step c (outside stack) ≡ outside stack
  unfolding scan_step plain_step
  step_bare h = ground (arith, h)

  step_unquote : c ≡ b'"' → scan_step c (inside stack false) ≡ outside stack
  unfolding scan_step string_step
  step_unquote e = rw e refl

  step_backslash : c ≡ b'\\' → scan_step c (inside stack false) ≡ inside stack true
  unfolding scan_step string_step
  step_backslash e = rw e refl

  step_escaped : scan_step c (inside stack true) ≡ inside stack false
  unfolding scan_step string_step
  step_escaped = refl

  step_letter : c ≢ b'"' → c ≢ b'\\' → scan_step c (inside stack false) ≡ inside stack false
  unfolding scan_step string_step
  step_letter e n = ground (arith, e, n)

scan_next :
    (c : ℕ) (cs : List ℕ) (st next : Scan)
    → st.exceeded ≡ false
    → scan_step c st ≡ next
    → scan_all (c ∷ cs) st ≡ scan_all cs next
unfolding scan_all
scan_next c cs st next n e = rw n (ap (scan_all cs) e)

go_on :
    (place : Place) (stack : List ℕ) (next : Place) (later : List ℕ) (c : ℕ) (cut rest : List ℕ)
    → (scan_at place stack).exceeded ≡ false
    → scan_step c (scan_at place stack) ≡ scan_at next later
    → ((text : List ℕ) → Finishes next later text → Finishes place stack (c ∷ text))
    → Ends next later cut rest (scan_all cut (scan_at next later))
    → Ends place stack (c ∷ cut) rest (scan_all (c ∷ cut) (scan_at place stack))
go_on place stack next later c cut rest n e f h =
    subst (Ends place stack (c ∷ cut) rest) (sym (scan_next c cut _ _ n e))
      (Ends-cons place stack next later c cut rest _ f h)

abbrev IsBetween : Place → Type 0
IsBetween Place.escape = ⊥
IsBetween place = Unit

pub scan_all-Ends :
    (place : Place) (stack cut rest : List ℕ)
    → IsBetween place
    → Finishes place stack (cut ++ rest)
    → Ends place stack cut rest (scan_all cut (scan_at place stack))
unfolding Finishes scan_all
scan_all-Ends Place.escape stack cut rest n h = absurd n
scan_all-Ends Place.bare stack [] rest n h = (Place.bare, stack, refl, h, λ text k. k)
scan_all-Ends Place.quoted stack [] rest n h = (Place.quoted, stack, refl, h, λ text k. k)
scan_all-Ends Place.bare stack (c ∷ cut) rest n (inl (e, h)) =
    go_on Place.bare stack Place.quoted stack c cut rest refl (step_quote stack c e)
      (λ text k. inl (e, k)) (scan_all-Ends Place.quoted stack cut rest tt h)
scan_all-Ends Place.bare stack (c ∷ cut) rest n (inr (inl (e, l, h))) =
    go_on Place.bare stack Place.bare (b'}' ∷ stack) c cut rest refl (step_brace stack c e l)
      (λ text k. inr (inl (e, l, k))) (scan_all-Ends Place.bare (b'}' ∷ stack) cut rest tt h)
scan_all-Ends Place.bare stack (c ∷ cut) rest n (inr (inr (inl (e, l, h)))) =
    go_on Place.bare stack Place.bare (b']' ∷ stack) c cut rest refl (step_bracket stack c e l)
      (λ text k. inr (inr (inl (e, l, k)))) (scan_all-Ends Place.bare (b']' ∷ stack) cut rest tt h)
scan_all-Ends Place.bare stack (c ∷ cut) rest n (inr (inr (inr (inl (left, k, e, h))))) =
    go_on Place.bare stack Place.bare left c cut rest refl
      (ap (λ x. scan_step c (outside x)) e ∙ step_closing left c k)
      (λ text j. inr (inr (inr (inl (left, k, e, j)))))
      (scan_all-Ends Place.bare left cut rest tt h)
scan_all-Ends Place.bare stack (c ∷ cut) rest n (inr (inr (inr (inr (k, h))))) =
    go_on Place.bare stack Place.bare stack c cut rest refl (step_bare stack c k)
      (λ text j. inr (inr (inr (inr (k, j))))) (scan_all-Ends Place.bare stack cut rest tt h)
scan_all-Ends Place.quoted stack (c ∷ cut) rest n (inl (e, h)) =
    go_on Place.quoted stack Place.bare stack c cut rest refl (step_unquote stack c e)
      (λ text k. inl (e, k)) (scan_all-Ends Place.bare stack cut rest tt h)
scan_all-Ends Place.quoted stack (c ∷ []) rest n (inr (inl (e, h))) =
    (Place.escape, stack, step_backslash stack c e, h, ([], ap (λ x. x ∷ []) e, λ text k. k))
scan_all-Ends Place.quoted stack (c ∷ d ∷ cut) rest n (inr (inl (e, h))) =
    go_on Place.quoted stack Place.escape stack c (d ∷ cut) rest refl (step_backslash stack c e)
      (λ text k. inr (inl (e, k)))
      (go_on Place.escape stack Place.quoted stack d cut rest refl (step_escaped stack d)
        (λ text k. k) (scan_all-Ends Place.quoted stack cut rest tt h))
scan_all-Ends Place.quoted stack (c ∷ cut) rest n (inr (inr (e, k, h))) =
    go_on Place.quoted stack Place.quoted stack c cut rest refl (step_letter stack c e k)
      (λ text j. inr (inr (e, k, j))) (scan_all-Ends Place.quoted stack cut rest tt h)
