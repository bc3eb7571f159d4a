-- ===== src/Hub/Tool.antt =====
-- ManagedTool and Supervisor of internal/hub/supervisor.go, and IdleReaper of internal/hub/reaper.go: the
-- state of a tool's process. What the operating system answers is an argument.
pub mod Calls
pub mod Reaper
pub mod Tests
use oh_my_code_agent.Prelude.{
  ℕ, suc, String, Bool, true, false, not, Option, none, some, List, [], ◌∷◌, if◌then◌else◌, ◌||◌,
  str_eq,
}
use oh_my_code_agent.Prelude.Keys.{lookup, string_eq}

-- the values of `status`
pub data Status : Type 0 where
  registered starting running failed stopping stopped : Status

abbrev pub is_running : Status → Bool
is_running running = true
is_running _ = false

abbrev pub is_starting : Status → Bool
is_starting starting = true
is_starting _ = false

-- The fields of `ManagedTool` that the lifecycle writes. A process is its number; `has_process` says that
-- `cmd` and `stdin` are not nil.
pub record ManagedTool : Type 0 where
  pub name : String
  pub status : Status
  pub pid : ℕ
  pub has_process : Bool
  pub start_time : ℕ
  pub last_active : ℕ

-- the tool that `RegisterTool` and `GetOrCreateTool` make at a time
abbrev pub new_tool : ℕ → String → ManagedTool
new_tool now name = record {
  name = name;
  status = registered;
  pid = 0;
  has_process = false;
  start_time = 0;
  last_active = now;
}

-- `GetOrCreateTool`: the tools after it, and the tool under the key
unfoldable pub get_or_create_tool :
    ℕ → String → String → List (String × ManagedTool) → List (String × ManagedTool) × ManagedTool
get_or_create_tool now key name tools = elim (lookup tools key) [
  | some t ↦ (tools, t)
  | none ↦ ((key, new_tool now name) ∷ tools, new_tool now name)
]

-- what `startLocked` meets: a pipe or the process that does not start, or the number of the process
pub data Launch : Type 0 where
  stdin_fails stdout_fails start_fails : Launch
  started : ℕ → Launch

pub data StartError : Type 0 where
  stdin_pipe stdout_pipe start_tool : StartError

-- `startLocked`, less the exchange of the first messages
unfoldable pub start_locked : ℕ → Launch → ManagedTool → ManagedTool × Option StartError
start_locked now stdin_fails t = (record t { status = failed }, some stdin_pipe)
start_locked now stdout_fails t = (record t { status = failed }, some stdout_pipe)
start_locked now start_fails t = (record t { status = failed }, some start_tool)
start_locked now (started pid) t = (
  record t { has_process = true; pid = pid; start_time = now; last_active = now; status = running },
  none,
)

-- `Start`
unfoldable pub start_tool_once : ℕ → Launch → ManagedTool → ManagedTool × Option StartError
unfolding start_locked
start_tool_once now launch t = if is_running t.status then (t, none) else start_locked now launch t

-- `Stop`, once the process has ended; the calls that wait are closed by it too
unfoldable pub stop : ManagedTool → ManagedTool
stop t =
    if is_running t.status || is_starting t.status
    then record t { has_process = false; pid = 0; status = registered }
    else t

-- the end of `readLoop` for the process of the tool
unfoldable pub read_loop_ends : ManagedTool → ManagedTool
read_loop_ends t = if is_running t.status then record t { status = stopped } else t

-- `Touch`
unfoldable pub touch : ℕ → ManagedTool → ManagedTool
touch now t = record t { last_active = now }
