-- ===== src/Workspace/StateTelemetry.antt =====
-- The class WorkspaceStateTelemetry of instrumentation/workspace.ts. Times are in milliseconds, and the
-- clock does not run backwards.
use text.Mathlib.Text.{◌==◌ as str_eq}
use vscode_coder.Base.{
  ℕ, ◌-◌, Bool, true, false, ◌&&◌, Option, none, some, List, [], ◌∷◌, String, ◌==◌, if◌then◌else◌,
}
use vscode_coder.Workspace.Types.{
  WorkspaceStatus, running, stopped, failed, pending, starting, stopping, deleted, deleting,
  canceled, canceling, Workspace,
}

abbrev pub status_index : WorkspaceStatus → ℕ
status_index running = 0
status_index stopped = 1
status_index failed = 2
status_index pending = 3
status_index starting = 4
status_index stopping = 5
status_index deleted = 6
status_index deleting = 7
status_index canceled = 8
status_index canceling = 9

-- `PROVISIONING_STATUSES`
abbrev pub is_provisioning : WorkspaceStatus → Bool
is_provisioning running = false
is_provisioning stopped = false
is_provisioning failed = false
is_provisioning pending = true
is_provisioning starting = true
is_provisioning stopping = true
is_provisioning deleted = false
is_provisioning deleting = true
is_provisioning canceled = false
is_provisioning canceling = true

pub record Observed : Type 0 where
  pub status : WorkspaceStatus
  pub transition : String
  pub reason : String
  pub observed_at : ℕ

pub record Transition : Type 0 where
  pub from : Option WorkspaceStatus
  pub to : WorkspaceStatus
  pub observed_duration : Option ℕ
  pub build_duration : Option ℕ

pub record StateTelemetry : Type 0 where
  pub observed : Option Observed
  pub build_started_at : Option ℕ
  -- what was logged, the newest first
  pub log : List Transition

unfoldable pub new_state_telemetry : StateTelemetry
new_state_telemetry = record { observed = none; build_started_at = none; log = [] }

abbrev pub seen : (now : ℕ) → Workspace → Observed
seen now w = record {
  status = w.latest_build.status;
  transition = w.latest_build.transition;
  reason = w.latest_build.reason;
  observed_at = now;
}

abbrev pub same_state : Option Observed → Workspace → Bool
same_state none w = false
same_state (some p) w =
    (status_index p.status == status_index w.latest_build.status)
    && str_eq p.transition w.latest_build.transition
    && str_eq p.reason w.latest_build.reason

abbrev was_provisioning : Option Observed → Bool
was_provisioning none = false
was_provisioning (some p) = is_provisioning p.status

abbrev status_of : Option Observed → Option WorkspaceStatus
status_of none = none
status_of (some p) = some p.status

abbrev since : (now : ℕ) → Option ℕ → Option ℕ
since now none = none
since now (some time) = some (now - time)

abbrev observed_since : (now : ℕ) → Option Observed → Option ℕ
observed_since now none = none
observed_since now (some p) = some (now - p.observed_at)

-- `this.buildStartedAtMs ??= now`
abbrev started_at : (now : ℕ) → Option ℕ → Option ℕ
started_at now none = some now
started_at now (some time) = some time

unfoldable pub observe : (now : ℕ) → Workspace → StateTelemetry → StateTelemetry
observe now w t =
    let status = w.latest_build.status in
    let provisioning = is_provisioning status in
    let logged : Transition = record {
      from = status_of t.observed;
      to = status;
      observed_duration = observed_since now t.observed;
      build_duration =
          if provisioning
          then none
          else (if was_provisioning t.observed then since now t.build_started_at else none);
    } in
    if same_state t.observed w then t else record {
      observed = some (seen now w);
      build_started_at = if provisioning then started_at now t.build_started_at else none;
      log = logged ∷ t.log;
    }
