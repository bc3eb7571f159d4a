-- ===== src/Hub/Pool/Slots/Semaphore.antt =====
-- The slots of internal/hub/pool.go against a pair of counting semaphores.
use oh_my_code_agent.Prelude.{ℕ, List, [], ◌∷◌, ◌++◌, ◌+◌, ◌<◌, ◌≡◌, refl, ap, ◌∙◌, arith}
use oh_my_code_agent.Hub.Pool.Callers.{replace, total-replace, total-none}
use oh_my_code_agent.Hub.Pool.Slots.{
  SlotKind, task, batch, max_slots, WorkerPool, lane, Caller, call, waiting, sent, holding,
  received, Move, arrive, send, receive, System, turn, init, Reach, start, later,
}
use oh_my_code_agent.Hub.Pool.Slots.Capacity.{owns, of_kind, number, Inv, Reach-Inv}

-- 1 for the kind itself
abbrev pub bit : SlotKind → SlotKind → ℕ
bit task task = 1
bit task batch = 0
bit batch task = 0
bit batch batch = 1

-- What can be seen of the semaphores: a slot taken, or given back.
pub data Event : Type 0 where
  acquired released : SlotKind → Event

-- A send that goes through turns a waiting caller into one that has sent, a receive turns one that holds a
-- slot into one that has received; no other change of a caller is seen.
abbrev pub event : Caller → Caller → List Event
event (call k waiting) (call j sent) = acquired k ∷ []
event (call k holding) (call j received) = released k ∷ []
event _ _ = []

-- A run of the first `n` callers, with what is seen of it, the newest first.
pub data Observed (n : ℕ) : System → List Event → Type 0 where
  begin : Observed n init []
  move :
      {s : System} {es : List Event} (i : ℕ) {p : WorkerPool} {c : Caller}
      → Observed n s es
      → i < n
      → Move s.pool (s.callers i) p c
      → Observed n
          (record { pool = p; callers = replace s.callers i c })
          (event (s.callers i) c ++ es)

-- The sequences that a pair of counting semaphores accepts, and the slots in use after them: a slot is taken
-- only when one is free, and given back only when one is in use.
pub data Accepts : List Event → (SlotKind → ℕ) → Type 0 where
  fresh : {a : SlotKind → ℕ} → ((j : SlotKind) → a j ≡ 0) → Accepts [] a
  acquire :
      {es : List Event} {a b : SlotKind → ℕ} (k : SlotKind)
      → Accepts es a
      → a k < max_slots k
      → ((j : SlotKind) → b j ≡ a j + bit k j)
      → Accepts (acquired k ∷ es) b
  release :
      {es : List Event} {a b : SlotKind → ℕ} (k : SlotKind)
      → Accepts es a
      → ((j : SlotKind) → b j + bit k j ≡ a j)
      → Accepts (released k ∷ es) b

Accepts-same :
    {es : List Event} {a b : SlotKind → ℕ}
    → Accepts es a
    → ((j : SlotKind) → b j ≡ a j)
    → Accepts es b
Accepts-same (fresh z) e = fresh (λ j. e j ∙ z j)
Accepts-same (acquire k r room h) e = acquire k r room (λ j. e j ∙ h j)
Accepts-same (release k r h) e = release k r (λ j. ap (λ x. x + bit k j) (e j) ∙ h j)

-- the slots that the first `n` callers have, by kind
abbrev pub taken_by : ℕ → System → SlotKind → ℕ
taken_by n s k = number owns k n s

-- What is seen of a move is what it does to the slots.
data Effect (p : WorkerPool) (c c' : Caller) : List Event → Type 0 where
  takes :
      (k : SlotKind)
      → (lane k p).sem < max_slots k
      → ((j : SlotKind) → of_kind owns j c' ≡ of_kind owns j c + bit k j)
      → Effect p c c' (acquired k ∷ [])
  gives :
      (k : SlotKind)
      → ((j : SlotKind) → of_kind owns j c' + bit k j ≡ of_kind owns j c)
      → Effect p c c' (released k ∷ [])
  leaves : ((j : SlotKind) → of_kind owns j c' ≡ of_kind owns j c) → Effect p c c' []

Move-Effect : {p p' : WorkerPool} {c c' : Caller} → Move p c p' c' → Effect p c c' (event c c')
Move-Effect (send k g) = takes k g (λ j. ground (arith, k))
Move-Effect (receive k g) = gives k (λ j. ground (arith, k))
Move-Effect (arrive k) = leaves (λ j. ground (arith, k))
Move-Effect m = leaves (λ j. ground arith)

-- the count of a kind before and after one caller has changed
changed :
    (n : ℕ) (s : System) (i : ℕ) (p : WorkerPool) (c : Caller) (j : SlotKind)
    → i < n
    → of_kind owns j (s.callers i)
        + taken_by n (record { pool = p; callers = replace s.callers i c }) j
      ≡ of_kind owns j c + taken_by n s j
changed n s i p c j lt = total-replace (of_kind owns j) n s.callers i c lt

Move-accepted :
    (n : ℕ) (s : System) (i : ℕ) (p : WorkerPool) (c : Caller) {es seen : List Event}
    → i < n
    → ((k : SlotKind) → Inv n k s)
    → Effect s.pool (s.callers i) c seen
    → Accepts es (taken_by n s)
    → Accepts (seen ++ es) (taken_by n (record { pool = p; callers = replace s.callers i c }))
Move-accepted n s i p c lt inv (takes k g e) r =
    acquire k r (omega (arith, g, (inv k).sem_owned))
      (λ j. omega (arith, e j, changed n s i p c j lt))
Move-accepted n s i p c lt inv (gives k e) r =
    release k r (λ j. omega (arith, e j, changed n s i p c j lt))
Move-accepted n s i p c lt inv (leaves e) r =
    Accepts-same r (λ j. omega (arith, e j, changed n s i p c j lt))

Observed-Reach : {n : ℕ} {s : System} {es : List Event} → Observed n s es → Reach n s
Observed-Reach begin = start
Observed-Reach (move i r lt m) = later (Observed-Reach r) (turn i lt m)

-- However the callers interleave their accesses, the sends that go through and the receives, in their order,
-- are a sequence that a pair of counting semaphores with 5 and 50 slots accepts, and the slots that are in use
-- after it are those that the callers have.
pub slots_refine :
    {n : ℕ} {s : System} {es : List Event} → Observed n s es → Accepts es (taken_by n s)
slots_refine {n} begin = fresh (λ j. total-none (of_kind owns j) n init.callers (λ i lt. refl))
slots_refine {n} (move {s} i {p} {c} r lt m) =
    Move-accepted n s i p c lt (Reach-Inv (Observed-Reach r)) (Move-Effect m) (slots_refine r)
