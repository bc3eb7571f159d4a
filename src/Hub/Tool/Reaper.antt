-- ===== src/Hub/Tool/Reaper.antt =====
-- IdleReaper of internal/hub/reaper.go. A duration is a number of nanoseconds, 0 for any that is not
-- positive.
use oh_my_code_agent.Prelude.{
  ℕ, suc, Bool, List, [], ◌∷◌, ◌+◌, ◌-◌, ◌≡◌, ◌≤◌, ◌&&◌, refl, ap, ◌∙◌, arith, if◌then◌else◌, ltb,
  leb, ◌==◌, map, keep, length,
}
use Prim.Native.Nat.{◌/◌}
use oh_my_code_agent.Hub.Tool.{ManagedTool, is_running, stop}

-- `timeout` and `interval`
pub record Reaper : Type 0 where
  pub timeout : ℕ
  pub interval : ℕ
  pub reaped_count : ℕ

-- `NewIdleReaper`'s timeout
abbrev pub timeout_in_force : ℕ → ℕ
timeout_in_force timeout = if timeout == 0 then 300000000000 else timeout

-- its interval: half the timeout, between 500 milliseconds and 30 seconds
abbrev pub interval_in_force : ℕ → ℕ
interval_in_force timeout =
    let half = timeout / 2 in
    let short = if ltb 30000000000 half then 30000000000 else half in
    if ltb short 500000000 then 500000000 else short

-- `NewIdleReaper`
unfoldable pub new_idle_reaper : ℕ → Reaper
new_idle_reaper timeout = record {
  timeout = timeout_in_force timeout;
  interval = interval_in_force (timeout_in_force timeout);
  reaped_count = 0;
}

-- the test of one tool
unfoldable pub is_idle : ℕ → ℕ → ManagedTool → Bool
is_idle now timeout t = is_running t.status && leb timeout (now - t.last_active)

-- one round of the loop of `ReapOnce`: `Stop` returns no error
unfoldable pub reap_tools : ℕ → ℕ → List ManagedTool → List ManagedTool × ℕ
unfolding is_idle stop
reap_tools now timeout [] = ([], 0)
reap_tools now timeout (t ∷ ts) =
    let rest = reap_tools now timeout ts in
    if is_idle now timeout t then (stop t ∷ rest.0, suc rest.1) else (t ∷ rest.0, rest.1)

-- `ReapOnce`: the tools, the reaper and the number reaped
unfoldable pub reap_once : ℕ → Reaper → List ManagedTool → List ManagedTool × Reaper × ℕ
unfolding reap_tools
reap_once now r tools =
    let (after, reaped) = reap_tools now r.timeout tools in
    (after, record r { reaped_count = r.reaped_count + reaped }, reaped)

-- what a pass does to one tool
abbrev pub reaped_tool : ℕ → ℕ → ManagedTool → ManagedTool
reaped_tool now timeout t = if is_idle now timeout t then stop t else t

reap_tools-map :
    (now timeout : ℕ) (ts : List ManagedTool)
    → ((reap_tools now timeout ts).0 ≡ map (reaped_tool now timeout) ts)
      × ((reap_tools now timeout ts).1 ≡ length (keep (is_idle now timeout) ts))
unfolding reap_tools keep
reap_tools-map now timeout [] = (refl, refl)
reap_tools-map now timeout (t ∷ ts) =
    let (same, count) = reap_tools-map now timeout ts in ground (arith, same, count)

none_idle :
    (now timeout : ℕ) (ts : List ManagedTool)
    → keep (is_idle now timeout) (map (reaped_tool now timeout) ts) ≡ []
unfolding keep is_idle stop
none_idle now timeout [] = refl
none_idle now timeout (t ∷ ts) = ground (arith, none_idle now timeout ts)

-- A pass stops exactly the tools that run and have been idle for the timeout, and leaves the others as
-- they are; it reports and adds up their number; and a second pass at the same time finds none. The
-- interval of a new reaper is between half a second and 30 seconds.
pub reap_once-idle :
    (now timeout : ℕ) (r : Reaper) (tools : List ManagedTool)
    → let (after, s, reaped) = reap_once now r tools in
      (after ≡ map (reaped_tool now r.timeout) tools)
      × (reaped ≡ length (keep (is_idle now r.timeout) tools))
      × (s.reaped_count ≡ r.reaped_count + reaped)
      × ((reap_once now s after).2 ≡ 0)
      × (500000000 ≤ (new_idle_reaper timeout).interval)
      × ((new_idle_reaper timeout).interval ≤ 30000000000)
unfolding reap_once new_idle_reaper
reap_once-idle now timeout r tools = (
  same,
  count,
  refl,
  (reap_tools-map now r.timeout (reap_tools now r.timeout tools).0).1
      ∙ ap (λ l. length (keep (is_idle now r.timeout) l)) same
      ∙ ap length (none_idle now r.timeout tools),
  ground arith,
  ground arith,
)
  where
    same : (reap_tools now r.timeout tools).0 ≡ map (reaped_tool now r.timeout) tools
    same = (reap_tools-map now r.timeout tools).0

    count : (reap_tools now r.timeout tools).1 ≡ length (keep (is_idle now r.timeout) tools)
    count = (reap_tools-map now r.timeout tools).1
