-- ===== src/Hub/Pool/Slots.antt =====
-- AcquireTaskSlot and AcquireBatchSlot of internal/hub/pool.go, with the function each returns, a
-- shared access at a time. The counters are the atomics, `sem` the length of a channel's buffer.
pub mod Capacity
pub mod Progress
pub mod Semaphore
use oh_my_code_agent.Prelude.{ℕ, ◌+◌, ◌-◌, ◌<◌}
use oh_my_code_agent.Hub.Pool.Callers.{replace}

pub data SlotKind : Type 0 where
  task batch : SlotKind

-- the buffers that `NewWorkerPool` makes
abbrev pub max_slots : SlotKind → ℕ
max_slots task = 5
max_slots batch = 50

-- `taskSem`, `activeTask` and `queuedTask`, or those of the batches
pub record Lane : Type 0 where
  pub sem : ℕ
  pub active : ℕ
  pub queued : ℕ

-- the part of `WorkerPool` that the slots use
pub record WorkerPool : Type 0 where
  pub task_lane : Lane
  pub batch_lane : Lane
  pub total_exec : ℕ

abbrev pub lane : SlotKind → WorkerPool → Lane
lane task p = p.task_lane
lane batch p = p.batch_lane

abbrev pub with_lane : SlotKind → WorkerPool → Lane → WorkerPool
with_lane task p l = record p { task_lane = l }
with_lane batch p l = record p { batch_lane = l }

-- `NewWorkerPool`
abbrev pub new_worker_pool : WorkerPool
new_worker_pool = record {
  task_lane = record { sem = 0; active = 0; queued = 0 };
  batch_lane = record { sem = 0; active = 0; queued = 0 };
  total_exec = 0;
}

-- Where a call stands: before the first counter, in the select, on the way out with the context's
-- error; with the slot, the active counter and the total counted; with the slot in the caller's
-- hands; and in the returned function, between the receive and the counter.
pub data Stage : Type 0 where
  entering waiting refused sent counted returning holding received : Stage

pub data Caller : Type 0 where
  idle : Caller
  call : SlotKind → Stage → Caller

-- One access of one caller. The context of a waiting call may end at any time, and the select may
-- take either case that is ready. A caller calls the function it was given once.
pub data Move (p : WorkerPool) : Caller → WorkerPool → Caller → Type 0 where
  arrive : (k : SlotKind) → Move p idle p (call k entering)
  enqueue :
      (k : SlotKind)
      → Move p
          (call k entering)
          (with_lane k p (record (lane k p) { queued = (lane k p).queued + 1 }))
          (call k waiting)
  cancel : (k : SlotKind) → Move p (call k waiting) p (call k refused)
  give_up :
      (k : SlotKind)
      → Move p
          (call k refused)
          (with_lane k p (record (lane k p) { queued = (lane k p).queued - 1 }))
          idle
  send :
      (k : SlotKind)
      → (lane k p).sem < max_slots k
      → Move p
          (call k waiting)
          (with_lane k p (record (lane k p) { sem = (lane k p).sem + 1 }))
          (call k sent)
  count_active :
      (k : SlotKind)
      → Move p
          (call k sent)
          (with_lane k p (record (lane k p) { active = (lane k p).active + 1 }))
          (call k counted)
  count_total :
      (k : SlotKind)
      → Move p (call k counted) (record p { total_exec = p.total_exec + 1 }) (call k returning)
  dequeue :
      (k : SlotKind)
      → Move p
          (call k returning)
          (with_lane k p (record (lane k p) { queued = (lane k p).queued - 1 }))
          (call k holding)
  receive :
      (k : SlotKind)
      → 0 < (lane k p).sem
      → Move p
          (call k holding)
          (with_lane k p (record (lane k p) { sem = (lane k p).sem - 1 }))
          (call k received)
  uncount :
      (k : SlotKind)
      → Move p
          (call k received)
          (with_lane k p (record (lane k p) { active = (lane k p).active - 1 }))
          idle

pub record System : Type 0 where
  pub pool : WorkerPool
  pub callers : ℕ → Caller

-- One of the first `n` callers moves.
pub data Step (n : ℕ) (s : System) : System → Type 0 where
  turn :
      (i : ℕ) {p : WorkerPool} {c : Caller}
      → i < n
      → Move s.pool (s.callers i) p c
      → Step n s (record { pool = p; callers = replace s.callers i c })

abbrev pub init : System
init = record { pool = new_worker_pool; callers = λ _. idle }

pub data Reach (n : ℕ) : System → Type 0 where
  start : Reach n init
  later : {s t : System} → Reach n s → Step n s t → Reach n t
