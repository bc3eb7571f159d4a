-- ===== src/Hub/Pool/Workers.antt =====
-- The registry of active workers of internal/hub/pool.go. A time is in nanoseconds, with 0 for Go's zero
-- time; a cancellation function is the number that stands for it, and the calls of them are listed.
pub mod Killed
use oh_my_code_agent.Prelude.{
  ℕ, String, Bool, true, false, not, Option, none, some, List, [], ◌∷◌, ◌<◌, ◌≡◌, ◌≢◌, refl, arith,
  if◌then◌else◌, ltb, ◌==◌, str_eq, str_eq_iff, str_eq_refl, string_eq, lookup, Bool-cases, inl,
  inr,
}

-- the fields of `ActiveWorker` that the registry reads or writes
pub record ActiveWorker : Type 0 where
  pub id : String
  pub start_time : ℕ
  pub last_heartbeat : ℕ
  pub phase : String
  pub declared_lease : ℕ
  pub cancel : Option ℕ

-- `activeWorkers`, and the cancellation functions called so far, the last one first
pub record Registry : Type 0 where
  pub active_workers : List (String × ActiveWorker)
  pub cancelled : List ℕ

-- `delete(p.activeWorkers, id)`
unfoldable pub delete : String → List (String × ActiveWorker) → List (String × ActiveWorker)
delete id [] = []
delete id ((key, w) ∷ ws) =
    let rest = delete id ws in if str_eq key id then rest else (key, w) ∷ rest

-- `UnregisterWorker`
unfoldable pub unregister_worker : String → Registry → Registry
unfolding delete
unregister_worker id r = record r { active_workers = delete id r.active_workers }

-- the fields that `RegisterWorker` fills in
unfoldable pub filled_in : ℕ → ActiveWorker → Option ℕ → ActiveWorker
filled_in now w cancel = record w {
  cancel = cancel;
  start_time = if w.start_time == 0 then now else w.start_time;
  last_heartbeat = if w.last_heartbeat == 0 then now else w.last_heartbeat;
  phase = if str_eq w.phase "" then "running" else w.phase;
}

-- `RegisterWorker` at a time; a nil worker changes nothing
unfoldable pub register_worker : ℕ → Option ActiveWorker → Option ℕ → Registry → Registry
unfolding filled_in delete
register_worker now none cancel r = r
register_worker now (some w) cancel r =
    if str_eq w.id ""
    then r
    else record r { active_workers = (w.id, filled_in now w cancel) ∷ delete w.id r.active_workers }

-- the fields that `TouchWorker` writes
unfoldable pub touched : ℕ → String → ℕ → ActiveWorker → ActiveWorker
touched now phase lease w = record w {
  last_heartbeat = now;
  phase = if not (str_eq phase "") then phase else w.phase;
  declared_lease = if ltb 0 lease then lease else w.declared_lease;
}

-- `GetWorker`
unfoldable pub get_worker : String → Registry → Option ActiveWorker
unfolding lookup
get_worker id r = lookup r.active_workers id

-- `TouchWorker`; a lease of 0 stands for any that is not positive
unfoldable pub touch_worker : ℕ → String → String → ℕ → Registry → Registry
unfolding touched delete
touch_worker now id phase lease r = elim (get_worker id r) [
  | none ↦ r
  | some w ↦ record r {
    active_workers = (id, touched now phase lease w) ∷ delete id r.active_workers;
  }
]

pub data KillError : Type 0 where
  not_found : KillError

-- `if w.cancel != nil { w.cancel() }`
abbrev pub call_cancel : Option ℕ → List ℕ → List ℕ
call_cancel none done = done
call_cancel (some c) done = c ∷ done

-- `KillWorker`
unfoldable pub kill_worker : String → Registry → Registry × Option KillError
unfolding unregister_worker
kill_worker id r = elim (get_worker id r) [
  | none ↦ (r, some not_found)
  | some w ↦
      (unregister_worker id (record r { cancelled = call_cancel w.cancel r.cancelled }), none)
]
