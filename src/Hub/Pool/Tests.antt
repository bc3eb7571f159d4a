-- ===== src/Hub/Pool/Tests.antt =====
-- Schedules of callers of internal/hub/pool.go, and the scenarios of the theorems on it.
use oh_my_code_agent.Prelude.{
  ℕ, String, Option, none, some, List, [], ◌∷◌, ◌++◌, ◌+◌, ◌≤◌, ◌<◌, ◌≡◌, ◌≢◌, refl, str_eq,
  str_eq_iff, true, false, lookup,
}
use mathlib.Core.Logic.{dite}
use mathlib.Core.List.{foldl}
use native.Mathlib.Decide.{dec_lt, ℕ_discrete}
use oh_my_code_agent.Hub.Pool.Slots.{
  task, max_slots, WorkerPool, lane, entering, waiting, refused, sent, counted, returning, holding,
  received, Caller, idle, call, Move, arrive, enqueue, cancel, give_up, send, count_active,
  count_total, dequeue, receive, uncount, System, turn, Reach, start, later,
}
use oh_my_code_agent.Hub.Pool.Slots.Capacity.{number, is_holding, is_released, slots_bounded}
use oh_my_code_agent.Hub.Pool.Slots.Semaphore.{
  Event, Observed, begin, move as observe, Accepts, taken_by, slots_refine,
}
use oh_my_code_agent.Hub.Pool.Slots.Progress.{Others, after_send, waiting-served}
use oh_my_code_agent.Hub.Pool.Workers.{
  ActiveWorker, Registry, delete, unregister_worker, filled_in, register_worker, get_worker,
  not_found, call_cancel, kill_worker,
}
use oh_my_code_agent.Hub.Pool.Workers.Killed.{kill_worker-outcome}

-- an access of a caller, with what it leads to
record Access (p : WorkerPool) (c : Caller) : Type 0 where
  after : WorkerPool
  place : Caller
  move : Move p c after place

abbrev by_move : {p p' : WorkerPool} {c c' : Caller} → Move p c p' c' → Option (Access p c)
by_move m = some (record { after = _; place = _; move = m })

-- the next access of a caller that asks for a task slot, and gives up where none is free
abbrev next_access : (p : WorkerPool) (c : Caller) → Option (Access p c)
next_access p idle = by_move (arrive task)
next_access p (call k entering) = by_move (enqueue k)
next_access p (call k waiting) =
    dite (dec_lt (lane k p).sem (max_slots k)) (λ free. by_move (send k free))
      (λ full. by_move (cancel k))
next_access p (call k refused) = by_move (give_up k)
next_access p (call k sent) = by_move (count_active k)
next_access p (call k counted) = by_move (count_total k)
next_access p (call k returning) = by_move (dequeue k)
next_access p (call k holding) =
    dite (dec_lt 0 (lane k p).sem) (λ taken. by_move (receive k taken)) (λ empty. none)
next_access p (call k received) = by_move (uncount k)

record Run (n : ℕ) : Type 0 where
  last : System
  reach : Reach n last
  seen : List Event
  observed : Observed n last seen

move_on : {n : ℕ} → Run n → ℕ → Run n
unfolding dec_lt
move_on {n} r i = elim (dec_lt i n) [
  | yes lt ↦ elim (next_access r.last.pool (r.last.callers i)) [
    | none ↦ r
    | some a ↦ record {
      last = _;
      reach = later r.reach (turn i lt a.move);
      seen = _;
      observed = observe i r.observed lt a.move;
    }
  ]
  | no _ ↦ r
]

run : (n : ℕ) → List ℕ → Run n
unfolding move_on
run n is = foldl move_on (record { last = _; reach = start; seen = _; observed = begin }) is

abbrev six_times : ℕ → List ℕ
six_times i = i ∷ i ∷ i ∷ i ∷ i ∷ i ∷ []

-- five callers work, the first one has received from the channel, and a sixth is counted
abbrev overlapping : Run 6
overlapping = run 6 (
    six_times 0
    ++ six_times 1
    ++ six_times 2
    ++ six_times 3
    ++ six_times 4
    ++ (0 ∷ 5 ∷ 5 ∷ 5 ∷ 5 ∷ []))

-- the active counter exceeds the number of slots for a moment
overlapping_active : (lane task overlapping.last.pool).active ≡ 6
unfolding run ℕ_discrete
overlapping_active = refl

-- five callers work, and a sixth waits
abbrev crowded : Run 6
crowded =
    run 6 (six_times 0 ++ six_times 1 ++ six_times 2 ++ six_times 3 ++ six_times 4 ++ (5 ∷ 5 ∷ []))

slots_bounded_example :
    (number is_holding task 6 crowded.last ≤ max_slots task)
    × ((lane task crowded.last.pool).active
        ≤ max_slots task + number is_released task 6 crowded.last)
    × (((i : ℕ) → i < 6 → crowded.last.callers i ≡ idle)
        → lane task crowded.last.pool ≡ record { sem = 0; active = 0; queued = 0 })
slots_bounded_example = slots_bounded crowded.reach task

slots_refine_example : Accepts crowded.seen (taken_by 6 crowded.last)
slots_refine_example = slots_refine crowded.observed

sixth_waits : crowded.last.callers 5 ≡ call task waiting
unfolding run ℕ_discrete
sixth_waits = refl

waiting-served_example :
    (t : System) × Others 6 5 crowded.last t
    × (t.callers 5 ≡ call task waiting)
    × Move t.pool (t.callers 5) (after_send task t.pool) (call task sent)
waiting-served_example = waiting-served crowded.reach task 5 sixth_waits

abbrev named_worker : ActiveWorker
named_worker = record {
  id = "w";
  start_time = 0;
  last_heartbeat = 0;
  phase = "";
  declared_lease = 0;
  cancel = none;
}

w_apart : ◌≢◌ {A = String} "w" "v"
unfolding str_eq
w_apart e = let h : false ≡ true = (str_eq_iff "w" "v").1 e in cc

abbrev one_worker : Registry
one_worker =
    register_worker 3 (some named_worker) (some 8) (record { active_workers = []; cancelled = [] })

kill_worker-outcome_example :
    ((w : ActiveWorker)
      → get_worker "w" one_worker ≡ some w
      → ((kill_worker "w" one_worker).1 ≡ none)
        × ((kill_worker "w" one_worker).0.cancelled ≡ call_cancel w.cancel one_worker.cancelled)
        × (get_worker "v" (kill_worker "w" one_worker).0 ≡ get_worker "v" one_worker)
        × (kill_worker "w" (kill_worker "w" one_worker).0
            ≡ ((kill_worker "w" one_worker).0, some not_found)))
    × (get_worker "w" one_worker ≡ none → kill_worker "w" one_worker ≡ (one_worker, some not_found))
kill_worker-outcome_example = kill_worker-outcome "w" "v" one_worker w_apart

killed_calls_handle : (kill_worker "w" one_worker).0.cancelled ≡ 8 ∷ []
unfolding kill_worker get_worker register_worker filled_in unregister_worker delete lookup str_eq
killed_calls_handle = refl
