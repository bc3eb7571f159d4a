-- ===== src/Hub/Repair/Completed.antt =====
-- What `JSONAutoRepair` of internal/hub/watchdog.go makes of a document that was cut.
use oh_my_code_agent.Prelude.{
  append-nil, append_assoc, ℕ, true, false, List, [], ◌∷◌, ◌++◌, ◌≡◌, ◌≤◌, ◌⊎◌, inl, inr, refl, sym,
  ap, subst, ◌∙◌, arith,
}
use oh_my_code_agent.Hub.Repair.{
  Scan, start, outside, inside, scan_all, drop_last, closers, close_scan, json_auto_repair,
  trim_space, byte_length, is_structured, max_repair_input_len,
}
use oh_my_code_agent.Hub.Repair.Document.{Place, Finishes, Finishes-AreClosers, closers-Finishes}
use oh_my_code_agent.Hub.Repair.Scanned.{Continues, Ends, scan_all-Ends}

-- What the part after the loop makes of a cut document.
abbrev IsCompletion : List ℕ → List ℕ → List ℕ → Type 0
IsCompletion cut rest whole =
    (body ending : List ℕ) × ((cut ≡ body) ⊎ (cut ≡ body ++ (b'\\' ∷ [])))
    × (whole ≡ body ++ ending)
    × Finishes Place.bare [] whole
    × (rest ≡ [] → whole ≡ cut)

drop_last-append : (xs : List ℕ) (c : ℕ) → drop_last (xs ++ (c ∷ [])) ≡ xs
drop_last-append [] c = refl
drop_last-append (x ∷ []) c = refl
drop_last-append (x ∷ y ∷ xs) c = ap (λ z. x ∷ z) (drop_last-append (y ∷ xs) c)

completes_bare :
    (cut rest later : List ℕ)
    → Finishes Place.bare later rest
    → Continues Place.bare [] Place.bare later cut
    → IsCompletion cut rest (close_scan cut (outside later))
unfolding close_scan Finishes closers
completes_bare cut rest later k g = (
  cut,
  closers later,
  inl refl,
  refl,
  g (closers later) (closers-Finishes later (Finishes-AreClosers Place.bare later rest k)),
  λ none_left.
      ap (λ x. cut ++ closers x) (subst (Finishes Place.bare later) none_left k) ∙ append-nil cut,
)

quote-Finishes :
    (later rest : List ℕ) (place : Place)
    → Finishes place later rest
    → Finishes Place.quoted later (b'"' ∷ closers later)
unfolding Finishes
quote-Finishes later rest place k =
    inl (refl, closers-Finishes later (Finishes-AreClosers place later rest k))

completes_quoted :
    (cut rest later : List ℕ)
    → Finishes Place.quoted later rest
    → Continues Place.bare [] Place.quoted later cut
    → IsCompletion cut rest (close_scan cut (inside later false))
unfolding close_scan Finishes
completes_quoted cut rest later k g =
    let q = append_assoc cut (b'"' ∷ []) (closers later) in
    (
      cut,
      b'"' ∷ closers later,
      inl refl,
      q,
      subst (Finishes Place.bare []) (sym q) (g _ (quote-Finishes later rest Place.quoted k)),
      λ none_left. absurd (subst (Finishes Place.quoted later) none_left k),
    )

completes_escape :
    (cut rest later : List ℕ)
    → Finishes Place.escape later rest
    → Continues Place.bare [] Place.escape later cut
    → IsCompletion cut rest (close_scan cut (inside later true))
unfolding close_scan Finishes
completes_escape cut rest later k (body, e, g) =
    let q =
      ap (λ x. (x ++ (b'"' ∷ [])) ++ closers later) (ap drop_last e ∙ drop_last-append body b'\\')
      ∙ append_assoc body (b'"' ∷ []) (closers later) in
    (
      body,
      b'"' ∷ closers later,
      inr e,
      q,
      subst (Finishes Place.bare []) (sym q) (g _ (quote-Finishes later rest Place.escape k)),
      λ none_left. absurd (subst (Finishes Place.escape later) none_left k),
    )

close_scan_completes :
    (cut rest : List ℕ)
    → Finishes Place.bare [] (cut ++ rest)
    → ((scan_all cut start).exceeded ≡ false)
      × IsCompletion cut rest (close_scan cut (scan_all cut start))
close_scan_completes cut rest h = ended (scan_all-Ends Place.bare [] cut rest tt h)
  where
    given :
        (done : Scan)
        → scan_all cut start ≡ done
        → (done.exceeded ≡ false) × IsCompletion cut rest (close_scan cut done)
        → ((scan_all cut start).exceeded ≡ false)
          × IsCompletion cut rest (close_scan cut (scan_all cut start))
    given done e h =
        subst (λ st. (st.exceeded ≡ false) × IsCompletion cut rest (close_scan cut st)) (sym e) h

    ended :
        Ends Place.bare [] cut rest (scan_all cut start)
        → ((scan_all cut start).exceeded ≡ false)
          × IsCompletion cut rest (close_scan cut (scan_all cut start))
    ended (Place.bare, later, e, k, g) = given _ e (refl, completes_bare cut rest later k g)
    ended (Place.quoted, later, e, k, g) = given _ e (refl, completes_quoted cut rest later k g)
    ended (Place.escape, later, e, k, g) = given _ e (refl, completes_escape cut rest later k g)

begins : (c : ℕ) (cs : List ℕ) → (c ≡ b'{') ⊎ (c ≡ b'[') → is_structured (c ∷ cs) ≡ true
unfolding is_structured
begins c cs (inl e) = rw e refl
begins c cs (inr e) = rw e refl

-- Let the text, without its outer spaces, start with a brace or a bracket and start a document in which at
-- most 512 brackets are open at once, and be at most 10 MB long. JSONAutoRepair keeps the text, less a
-- backslash at most at its end, and adds an ending so that in the result every string is closed and every
-- bracket outside strings is closed by its own, in order. A text that is so already is only trimmed.
pub json_auto_repair_completes :
    (s rest : List ℕ) (c : ℕ) (cs : List ℕ)
    → trim_space s ≡ c ∷ cs
    → (c ≡ b'{') ⊎ (c ≡ b'[')
    → Finishes Place.bare [] (trim_space s ++ rest)
    → byte_length s ≤ max_repair_input_len
    → (body ending : List ℕ) × ((trim_space s ≡ body) ⊎ (trim_space s ≡ body ++ (b'\\' ∷ [])))
      × (json_auto_repair s ≡ body ++ ending)
      × Finishes Place.bare [] (json_auto_repair s)
      × (rest ≡ [] → json_auto_repair s ≡ trim_space s)
unfolding json_auto_repair
json_auto_repair_completes s rest c cs starts bracket h small =
    let (n, done) = close_scan_completes (trim_space s) rest h in
    subst (IsCompletion (trim_space s) rest) (sym (given n)) done
  where
    structured : is_structured (trim_space s) ≡ true
    structured = ap is_structured starts ∙ begins c cs bracket

    given :
        (scan_all (trim_space s) start).exceeded ≡ false
        → json_auto_repair s ≡ close_scan (trim_space s) (scan_all (trim_space s) start)
    given n = ground (arith, structured, small, n)
