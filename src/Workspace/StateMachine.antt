-- ===== src/Workspace/StateMachine.antt =====
-- The class WorkspaceStateMachine of remote/workspaceStateMachine.ts. `processWorkspace` runs to its
-- end with the answers its awaits get; its caller never runs two at a time. Names of workspaces in
-- messages, the terminal and the spans of telemetry are left out.
use vscode_coder.Base.{
  ℕ, Bool, true, false, Option, none, some, List, [], ◌∷◌, String, any, if◌then◌else◌,
}
use vscode_coder.Core.StartupMode.{StartupMode, no_mode, start, update}
use vscode_coder.Workspace.LazyStream.{Lazy, new_lazy, close, open_and_wait}
use vscode_coder.Workspace.Types.{
  WorkspaceStatus, running, stopped, failed, pending, starting, stopping, deleted, deleting,
  canceled, canceling, connecting, connected, disconnected, timeout, Lifecycle, created,
  starting_up, start_timeout, start_error, ready, shutting_down, shutdown_timeout, shutdown_error,
  off, Agent, Workspace, extract_agents, find_agent, Asked, no_matching_agents, answered,
  maybe_ask_agent,
}
use vscode_coder.Workspace.AgentTelemetry.{AgentTelemetry, new_telemetry, observe, reset}

pub data Choice : Type 0 where
  start_only update_and_start : Choice

pub data Parameters : Type 0 where
  collected parameters_cancelled parameters_failed : Parameters

-- What the awaits of one call get: the button of the start prompt, the parameters for the update,
-- the updated workspace (none when the update fails), whether the start succeeds, the agent picked
-- from the list, and the log stream (none when it cannot be opened).
pub record Answers : Type 0 where
  pub choice : Option Choice
  pub parameters : Parameters
  pub updated : Option Workspace
  pub start_succeeds : Bool
  pub picked : Option ℕ
  pub stream : Option ℕ

-- What the machine does to the outside, the newest first.
pub data Action : Type 0 where
  prompted : (outdated : Bool) → Option Choice → Action
  update_tried update_called start_called : Action
  told_building : WorkspaceStatus → Action
  told_connecting told_timed_out told_scripts told_starting : String → Action

pub data Failure : Type 0 where
  start_cancelled no_agents agent_cancelled start_failed stream_failed : Failure
  wrong_status : WorkspaceStatus → Failure
  agent_missing agent_disconnected : String → Failure
  wrong_lifecycle : Lifecycle → String → Failure

pub data Result : Type 0 where
  is_ready is_waiting : Result
  is_failed : Failure → Result

pub record AgentRef : Type 0 where
  pub id : String
  pub name : String

pub record Machine : Type 0 where
  pub startup_mode : StartupMode
  pub agent : Option AgentRef
  pub workspace : Option Workspace
  pub build_log : Lazy
  pub agent_log : Lazy
  pub telemetry : AgentTelemetry
  pub log : List Action

unfoldable pub new_machine : StartupMode → Machine
new_machine mode = record {
  startup_mode = mode;
  agent = none;
  workspace = none;
  build_log = new_lazy;
  agent_log = new_lazy;
  telemetry = new_telemetry;
  log = [];
}

abbrev pub act : Action → Machine → Machine
act a m = record m { log = a ∷ m.log }

abbrev pub close_build_log : Machine → Machine
close_build_log m = record m { build_log = close m.build_log }

abbrev pub close_agent_log : Machine → Machine
close_agent_log m = record m { agent_log = close m.agent_log }

unfoldable pub reset_agent : Machine → Machine
reset_agent m = record m { agent = none; telemetry = reset m.telemetry }

-- `triggerStart`, and the `return false` behind it
unfoldable pub trigger_start : Bool → Machine → Machine × Result
trigger_start true m = (act start_called m, is_waiting)
trigger_start false m = (act start_called m, is_failed start_failed)

-- the `try` of `maybeUpdate`
unfoldable pub try_update : Parameters → Option Workspace → Machine → Machine × Option Workspace
try_update parameters_cancelled w m = (m, none)
try_update parameters_failed w m = (m, none)
try_update collected none m = (act update_called m, none)
try_update collected (some w) m =
    (record m { workspace = some w; log = update_called ∷ m.log }, some w)

-- `maybeUpdate`
unfoldable pub maybe_update : Answers → Machine → Machine × Option Workspace
maybe_update a m = elim m.startup_mode [
  | no_mode ↦ (m, none)
  | start ↦ (m, none)
  | update ↦
      try_update a.parameters a.updated
        (record m { startup_mode = start; log = update_tried ∷ m.log })
]

abbrev mode_of : Choice → StartupMode
mode_of start_only = start
mode_of update_and_start = update

-- `confirmStartOrUpdate`: "Update and Start" is a button of an outdated workspace only
unfoldable pub confirm : (outdated : Bool) → Option Choice → Option StartupMode
confirm outdated none = none
confirm outdated (some start_only) = some start
confirm true (some update_and_start) = some update
confirm false (some update_and_start) = none

-- the agent log's part of the second switch
unfoldable pub wait_for_scripts : Option ℕ → Agent → Machine → Machine × Result
wait_for_scripts stream agent m =
    let opened = open_and_wait stream m.agent_log in
    (
      record m { agent_log = opened.0; log = told_scripts agent.name ∷ m.log },
      if opened.1 then is_waiting else is_failed stream_failed,
    )

-- `switch (agent.lifecycle_state)`
unfoldable pub judge_lifecycle : Option ℕ → Agent → Machine → Machine × Result
judge_lifecycle stream agent m = elim agent.lifecycle_state [
  | ready ↦ (close_agent_log m, is_ready)
  | starting_up ↦
      (if any (λ blocks. blocks) agent.scripts
        then wait_for_scripts stream agent m
        else (m, is_ready))
  | created ↦ (act (told_starting agent.name) m, is_waiting)
  | start_error ↦ (close_agent_log m, is_ready)
  | start_timeout ↦ (close_agent_log m, is_ready)
  | shutting_down ↦ (close_agent_log m, is_failed (wrong_lifecycle shutting_down agent.name))
  | off ↦ (close_agent_log m, is_failed (wrong_lifecycle off agent.name))
  | shutdown_error ↦ (close_agent_log m, is_failed (wrong_lifecycle shutdown_error agent.name))
  | shutdown_timeout ↦ (close_agent_log m, is_failed (wrong_lifecycle shutdown_timeout agent.name))
]

-- `switch (agent.status)`
unfoldable pub judge_status : Option ℕ → Agent → Machine → Machine × Result
judge_status stream agent m = elim agent.status [
  | connecting ↦ (act (told_connecting agent.name) m, is_waiting)
  | disconnected ↦ (m, is_failed (agent_disconnected agent.name))
  | timeout ↦ (act (told_timed_out agent.name) m, is_waiting)
  | connected ↦ judge_lifecycle stream agent m
]

-- what follows `agents.find`
unfoldable pub judge_found : Option ℕ → AgentRef → Option Agent → Machine → Machine × Result
judge_found stream chosen none m = (m, is_failed (agent_missing chosen.name))
judge_found stream chosen (some agent) m =
    judge_status stream agent (record m { telemetry = observe agent m.telemetry })

unfoldable pub judge_agent : Option ℕ → List Agent → AgentRef → Machine → Machine × Result
judge_agent stream agents chosen m = judge_found stream chosen (find_agent chosen.id agents) m

-- `this.agent = { id: gotAgent.id, name: gotAgent.name }`
abbrev pub remember : Agent → AgentRef
remember agent = record { id = agent.id; name = agent.name }

-- what follows `maybeAskAgent`
unfoldable pub judge_asked : Option ℕ → List Agent → Asked → Machine → Machine × Result
judge_asked stream agents no_matching_agents m = (m, is_failed no_agents)
judge_asked stream agents (answered none) m = (m, is_failed agent_cancelled)
judge_asked stream agents (answered (some agent)) m =
    judge_agent stream agents (remember agent) (record m { agent = some (remember agent) })

-- what follows the first switch, for the agent chosen before
unfoldable pub choose_agent :
    Option String → Answers → List Agent → Option AgentRef → Machine → Machine × Result
choose_agent name a agents none m =
    judge_asked a.stream agents (maybe_ask_agent a.picked name agents) m
choose_agent name a agents (some chosen) m = judge_agent a.stream agents chosen m

unfoldable pub resolve_agents : Option String → Answers → Workspace → Machine → Machine × Result
resolve_agents name a w m = choose_agent name a (extract_agents w.latest_build.resources) m.agent m

abbrev pub is_running : WorkspaceStatus → Bool
is_running running = true
is_running stopped = false
is_running failed = false
is_running pending = false
is_running starting = false
is_running stopping = false
is_running deleted = false
is_running deleting = false
is_running canceled = false
is_running canceling = false

-- after an update: the agents of the new workspace when it is running
unfoldable pub continue_if : Bool → Option String → Answers → Workspace → Machine → Machine × Result
continue_if true name a w m = resolve_agents name a w m
continue_if false name a w m = (m, is_waiting)

unfoldable pub continue_with : Option String → Answers → Workspace → Machine → Machine × Result
continue_with name a w m = continue_if (is_running w.latest_build.status) name a w (reset_agent m)
