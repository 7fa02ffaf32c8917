-- ===== src/Workspace/AgentTelemetry.antt =====
-- The class WorkspaceAgentTelemetry of instrumentation/workspace.ts, without its clock.
use vscode_coder.Base.{ℕ, Bool, false, Option, none, some, List, [], ◌∷◌, ◌&&◌, if◌then◌else◌, ◌==◌}
use vscode_coder.Workspace.Types.{Agent, AgentStatus, Lifecycle}

-- Which of the constructors a status is.
abbrev status_index : AgentStatus → ℕ
status_index AgentStatus.connecting = 0
status_index AgentStatus.connected = 1
status_index AgentStatus.disconnected = 2
status_index AgentStatus.timeout = 3

abbrev lifecycle_index : Lifecycle → ℕ
lifecycle_index Lifecycle.created = 0
lifecycle_index Lifecycle.starting_up = 1
lifecycle_index Lifecycle.start_timeout = 2
lifecycle_index Lifecycle.start_error = 3
lifecycle_index Lifecycle.ready = 4
lifecycle_index Lifecycle.shutting_down = 5
lifecycle_index Lifecycle.shutdown_timeout = 6
lifecycle_index Lifecycle.shutdown_error = 7
lifecycle_index Lifecycle.off = 8

pub record Observed : Type 0 where
  pub status : AgentStatus
  pub lifecycle : Lifecycle

pub record AgentTelemetry : Type 0 where
  pub observed : Option Observed
  -- the transitions logged, the newest first
  pub transitions : List (Option Observed × Observed)

unfoldable pub new_telemetry : AgentTelemetry
new_telemetry = record { observed = none; transitions = [] }

abbrev pub same_state : Option Observed → Observed → Bool
same_state none o = false
same_state (some p) o =
    (status_index p.status == status_index o.status)
    && (lifecycle_index p.lifecycle == lifecycle_index o.lifecycle)

abbrev pub seen : Agent → Observed
seen a = record { status = a.status; lifecycle = a.lifecycle_state }

unfoldable pub observe : Agent → AgentTelemetry → AgentTelemetry
observe a t =
    if same_state t.observed (seen a)
    then t
    else record { observed = some (seen a); transitions = (t.observed, seen a) ∷ t.transitions }

unfoldable pub reset : AgentTelemetry → AgentTelemetry
reset t = record t { observed = none }
