-- ===== src/Hub/Pool/Slots/Capacity.antt =====
-- What the counters of internal/hub/pool.go count, in whatever order the callers move.
use oh_my_code_agent.Prelude.{ℕ, ◌+◌, ◌≤◌, ◌<◌, ◌≡◌, refl, ap, arith}
use oh_my_code_agent.Hub.Pool.Callers.{
  total, total-replace, total-at, total-none, total-sum, total_mono,
}
use oh_my_code_agent.Hub.Pool.Slots.{
  SlotKind, task, batch, max_slots, WorkerPool, lane, Stage, waiting, refused, sent, counted,
  returning, holding, received, Caller, idle, call, Move, arrive, send, receive, System, Step, turn,
  init, Reach, start, later,
}

-- a slot is taken and not given back
abbrev pub owns : Stage → ℕ
owns sent = 1
owns counted = 1
owns returning = 1
owns holding = 1
owns _ = 0

-- the active counter holds the call
abbrev pub is_active : Stage → ℕ
is_active counted = 1
is_active returning = 1
is_active holding = 1
is_active received = 1
is_active _ = 0

-- the queued counter holds the call
abbrev pub is_queued : Stage → ℕ
is_queued waiting = 1
is_queued refused = 1
is_queued sent = 1
is_queued counted = 1
is_queued returning = 1
is_queued _ = 0

-- a weight on the calls for slots of one kind
abbrev pub of_kind : (Stage → ℕ) → SlotKind → Caller → ℕ
of_kind w k idle = 0
of_kind w task (call task s) = w s
of_kind w task (call batch s) = 0
of_kind w batch (call task s) = 0
of_kind w batch (call batch s) = w s

-- A move changes a counter as it changes what the mover counts for it.
Move-sem :
    {p p' : WorkerPool} {c c' : Caller}
    → Move p c p' c'
    → (k : SlotKind) → (lane k p').sem + of_kind owns k c ≡ (lane k p).sem + of_kind owns k c'
Move-sem (arrive j) k = ground arith
Move-sem (receive j g) k = ground (arith, g)
Move-sem m k = ground (arith, k)

Move-active :
    {p p' : WorkerPool} {c c' : Caller}
    → Move p c p' c'
    → (k : SlotKind) → of_kind is_active k c ≤ (lane k p).active
    → (lane k p').active + of_kind is_active k c ≡ (lane k p).active + of_kind is_active k c'
Move-active (arrive j) k h = ground arith
Move-active m k h = ground (arith, k, h)

Move-queued :
    {p p' : WorkerPool} {c c' : Caller}
    → Move p c p' c'
    → (k : SlotKind) → of_kind is_queued k c ≤ (lane k p).queued
    → (lane k p').queued + of_kind is_queued k c ≡ (lane k p).queued + of_kind is_queued k c'
Move-queued (arrive j) k h = ground arith
Move-queued m k h = ground (arith, k, h)

Move-bounded :
    {p p' : WorkerPool} {c c' : Caller}
    → Move p c p' c'
    → (k : SlotKind) → (lane k p).sem ≤ max_slots k
    → (lane k p').sem ≤ max_slots k
Move-bounded (arrive j) k h = ground arith
Move-bounded (send j g) k h = ground (arith, g, h)
Move-bounded m k h = ground (arith, k, h)

-- how many of the first `n` callers are at a place that counts
abbrev pub number : (Stage → ℕ) → SlotKind → ℕ → System → ℕ
number w k n s = total (of_kind w k) n s.callers

pub record Inv (n : ℕ) (k : SlotKind) (s : System) : Type 0 where
  pub sem_owned : (lane k s.pool).sem ≡ number owns k n s
  pub sem_bounded : (lane k s.pool).sem ≤ max_slots k
  pub active_counted : (lane k s.pool).active ≡ number is_active k n s
  pub queued_counted : (lane k s.pool).queued ≡ number is_queued k n s

init-Inv : (n : ℕ) (k : SlotKind) → Inv n k init
init-Inv n k = record {
  sem_owned = ground (arith, total-none (of_kind owns k) n init.callers (λ i lt. refl));
  sem_bounded = ground arith;
  active_counted = ground (arith, total-none (of_kind is_active k) n init.callers (λ i lt. refl));
  queued_counted = ground (arith, total-none (of_kind is_queued k) n init.callers (λ i lt. refl));
}

-- Every step of every caller keeps what the counters count.
pub Step-Inv : {n : ℕ} {s t : System} → Step n s t → (k : SlotKind) → Inv n k s → Inv n k t
Step-Inv {n} {s} (turn i {p} {c} lt m) k inv = record {
  sem_owned =
      omega (arith, inv.sem_owned, Move-sem m k, total-replace (of_kind owns k) n s.callers i c lt);
  sem_bounded = Move-bounded m k inv.sem_bounded;
  active_counted = omega (
    arith,
    inv.active_counted,
    Move-active m k
        (omega (arith, inv.active_counted, total-at (of_kind is_active k) n s.callers i lt)),
    total-replace (of_kind is_active k) n s.callers i c lt,
  );
  queued_counted = omega (
    arith,
    inv.queued_counted,
    Move-queued m k
        (omega (arith, inv.queued_counted, total-at (of_kind is_queued k) n s.callers i lt)),
    total-replace (of_kind is_queued k) n s.callers i c lt,
  );
}

pub Reach-Inv : {n : ℕ} {s : System} → Reach n s → (k : SlotKind) → Inv n k s
Reach-Inv {n} start k = init-Inv n k
Reach-Inv (later r st) k = Step-Inv st k (Reach-Inv r k)

-- the caller works with the slot
abbrev pub is_holding : Stage → ℕ
is_holding holding = 1
is_holding _ = 0

-- the slot is given back, and the counter still holds the call
abbrev pub is_released : Stage → ℕ
is_released received = 1
is_released _ = 0

holding-owns : (k : SlotKind) (c : Caller) → of_kind is_holding k c ≤ of_kind owns k c
holding-owns k c = ground arith

active-owns :
    (k : SlotKind) (c : Caller) → of_kind is_active k c ≤ of_kind owns k c + of_kind is_released k c
active-owns k c = ground arith

-- In every state that any number of callers reaches in any order, of the callers that work with a slot
-- of a kind there are at most as many as the pool has slots of the kind; the active counter is at most
-- that limit and the number of callers between their receive and their decrement; and if every caller
-- is idle, the semaphore and both counters are back at 0.
pub slots_bounded :
    {n : ℕ} {s : System}
    → Reach n s
    → (k : SlotKind)
    → (number is_holding k n s ≤ max_slots k)
      × ((lane k s.pool).active ≤ max_slots k + number is_released k n s)
      × (((i : ℕ) → i < n → s.callers i ≡ idle)
          → lane k s.pool ≡ record { sem = 0; active = 0; queued = 0 })
slots_bounded {n} {s} r k = (
  omega (
    arith,
    inv.sem_owned,
    inv.sem_bounded,
    total_mono (of_kind is_holding k) (of_kind owns k) n s.callers (holding-owns k),
  ),
  omega (
    arith,
    inv.sem_owned,
    inv.sem_bounded,
    inv.active_counted,
    total-sum (of_kind is_active k) (of_kind owns k) (of_kind is_released k) n s.callers
        (active-owns k),
  ),
  λ h. ground (
    arith,
    inv.sem_owned,
    inv.active_counted,
    inv.queued_counted,
    none owns h,
    none is_active h,
    none is_queued h,
  ),
)
  where
    inv : Inv n k s
    inv = Reach-Inv r k

    none : (w : Stage → ℕ) → ((i : ℕ) → i < n → s.callers i ≡ idle) → number w k n s ≡ 0
    none w h = total-none (of_kind w k) n s.callers (λ i lt. ap (of_kind w k) (h i lt))
