-- ===== src/Workspace/Actions.antt =====
-- What is counted in the log of the state machine of remote/workspaceStateMachine.ts, and when a
-- workspace may be connected to.
use vscode_coder.Base.{
  ℕ, suc, ◌≤◌, ◌≡◌, Bool, true, false, some, List, [], ◌∷◌, is_some, any, not, if◌then◌else◌,
}
use vscode_coder.Core.StartupMode.{StartupMode, no_mode, start, update}
use vscode_coder.Workspace.Types.{
  AgentStatus, connecting, connected, disconnected, timeout, Lifecycle, created, starting_up,
  start_timeout, start_error, ready, shutting_down, shutdown_timeout, shutdown_error, off, Agent,
  Workspace, extract_agents, find_agent,
}
use vscode_coder.Workspace.StateMachine.{
  Action, prompted, update_tried, update_called, start_called, told_building, told_connecting,
  told_timed_out, told_scripts, told_starting, Machine, AgentRef, confirm, is_running,
}

-- How often an update was tried, a start was called for, and the prompt was answered.
abbrev pub updates : List Action → ℕ
updates [] = 0
updates (prompted o c ∷ log) = updates log
updates (update_tried ∷ log) = suc (updates log)
updates (update_called ∷ log) = updates log
updates (start_called ∷ log) = updates log
updates (told_building s ∷ log) = updates log
updates (told_connecting s ∷ log) = updates log
updates (told_timed_out s ∷ log) = updates log
updates (told_scripts s ∷ log) = updates log
updates (told_starting s ∷ log) = updates log

abbrev pub starts : List Action → ℕ
starts [] = 0
starts (prompted o c ∷ log) = starts log
starts (update_tried ∷ log) = starts log
starts (update_called ∷ log) = starts log
starts (start_called ∷ log) = suc (starts log)
starts (told_building s ∷ log) = starts log
starts (told_connecting s ∷ log) = starts log
starts (told_timed_out s ∷ log) = starts log
starts (told_scripts s ∷ log) = starts log
starts (told_starting s ∷ log) = starts log

abbrev pub consents : List Action → ℕ
consents [] = 0
consents (prompted o c ∷ log) =
    let rest = consents log in if is_some (confirm o c) then suc rest else rest
consents (update_tried ∷ log) = consents log
consents (update_called ∷ log) = consents log
consents (start_called ∷ log) = consents log
consents (told_building s ∷ log) = consents log
consents (told_connecting s ∷ log) = consents log
consents (told_timed_out s ∷ log) = consents log
consents (told_scripts s ∷ log) = consents log
consents (told_starting s ∷ log) = consents log

abbrev pub asks_first : StartupMode → ℕ
asks_first no_mode = 1
asks_first start = 0
asks_first update = 0

-- The most updates tried in a mode, and whether the mode is settled.
abbrev pub most_updates : StartupMode → ℕ
most_updates no_mode = 0
most_updates start = 1
most_updates update = 0

abbrev pub is_start : StartupMode → Bool
is_start no_mode = false
is_start start = true
is_start update = false

abbrev pub consents_in : (first now : StartupMode) → ℕ
consents_in first no_mode = 0
consents_in first start = asks_first first
consents_in first update = asks_first first

-- A machine made in the mode `first`: it tries an update once at most; it tries an update or calls
-- for a start only when its mode is "start" by then; and in any mode but "none" the user has been
-- asked, and has agreed, exactly once when the machine was made in "none", and never otherwise.
pub record Consent (first : StartupMode) (m : Machine) : Type 0 where
  pub updates_once : updates m.log ≤ most_updates m.startup_mode
  pub no_start : is_start m.startup_mode ≡ false → starts m.log ≡ 0
  pub consented : consents m.log ≡ consents_in first m.startup_mode
  pub from_none : m.startup_mode ≡ no_mode → first ≡ no_mode

-- An agent that is connected, and whose start-up scripts have ended or do not block the login.
abbrev pub lifecycle_allows : Agent → Lifecycle → Bool
lifecycle_allows agent ready = true
lifecycle_allows agent start_error = true
lifecycle_allows agent start_timeout = true
lifecycle_allows agent starting_up = not (any (λ blocks. blocks) agent.scripts)
lifecycle_allows agent created = false
lifecycle_allows agent shutting_down = false
lifecycle_allows agent shutdown_timeout = false
lifecycle_allows agent shutdown_error = false
lifecycle_allows agent off = false

abbrev pub status_allows : AgentStatus → Bool
status_allows connected = true
status_allows connecting = false
status_allows disconnected = false
status_allows timeout = false

-- The workspace the machine holds is running, and has the agent the machine holds.
pub record Connectable (m : Machine) : Type 0 where
  pub workspace : Workspace
  pub chosen : AgentRef
  pub agent : Agent
  pub held : m.workspace ≡ some workspace
  pub chosen_held : m.agent ≡ some chosen
  pub is_running_now : is_running workspace.latest_build.status ≡ true
  pub found : find_agent chosen.id (extract_agents workspace.latest_build.resources) ≡ some agent
  pub is_connected : status_allows agent.status ≡ true
  pub scripts_done : lifecycle_allows agent agent.lifecycle_state ≡ true
