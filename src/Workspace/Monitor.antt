-- ===== src/Workspace/Monitor.antt =====
-- The class WorkspaceMonitor of workspace/workspaceMonitor.ts. The settings and the time come with the
-- events; a notice stands for its message, which for an outdated workspace follows the template's
-- version. Logging and the buttons of the messages are left out. A status bar item that is disposed is
-- not shown again, whatever is called on it; a message may still come after the disposal.
pub mod Notices
use vscode_coder.Base.{
  ℕ, ◌-◌, Bool, true, false, not, ◌&&◌, Option, none, some, List, [], ◌∷◌, leb, if◌then◌else◌,
}
use vscode_coder.Workspace.Types.{
  WorkspaceStatus, running, stopped, failed, pending, starting, stopping, deleted, deleting,
  canceled, canceling, Workspace,
}
use vscode_coder.Workspace.StateMachine.{is_running}
use vscode_coder.Workspace.StateTelemetry.{StateTelemetry, new_state_telemetry, observe}

pub data Notice : Type 0 where
  autostop_notice deletion_notice outdated_notice not_running_notice : Notice

pub record Settings : Type 0 where
  pub notifications_disabled : Bool
  pub update_notifications_disabled : Bool

pub record Monitor : Type 0 where
  pub is_disposed : Bool
  pub notified_autostop : Bool
  pub notified_deletion : Bool
  pub notified_outdated : Bool
  pub notified_not_running : Bool
  pub completed_initial_setup : Bool
  pub latest_workspace : Workspace
  pub telemetry : StateTelemetry
  -- the context "coder.workspace.updatable", and whether the status bar item is shown
  pub updatable : Bool
  pub item_shown : Bool
  pub socket_closed : Bool
  -- what `onChange` fired and what was notified, the newest first
  pub changes : List Workspace
  pub notices : List Notice

-- `autostopNotifyTime` and `deletionNotifyTime`
abbrev pub autostop_notify_time : ℕ
autostop_notify_time = 1800000

abbrev pub deletion_notify_time : ℕ
deletion_notify_time = 86400000

abbrev pub is_settled : WorkspaceStatus → Bool
is_settled running = true
is_settled stopped = true
is_settled failed = true
is_settled pending = false
is_settled starting = false
is_settled stopping = false
is_settled deleted = false
is_settled deleting = false
is_settled canceled = false
is_settled canceling = false

-- `update`
unfoldable pub update : (now : ℕ) → Workspace → Monitor → Monitor
update now w m = record m {
  telemetry = observe now w m.telemetry;
  latest_workspace = w;
  updatable = w.outdated;
  item_shown = not m.is_disposed && w.outdated && is_settled w.latest_build.status;
}

-- `isImpending`
abbrev pub is_impending : (now : ℕ) → Option ℕ → (notify_time : ℕ) → Bool
is_impending now none notify_time = false
is_impending now (some target) notify_time = leb now target && leb (target - now) notify_time

unfoldable pub maybe_notify_autostop : (now : ℕ) → Workspace → Monitor → Monitor
maybe_notify_autostop now w m =
    if is_running w.latest_build.status
      && not m.notified_autostop
      && is_impending now w.latest_build.deadline autostop_notify_time
    then record m { notified_autostop = true; notices = autostop_notice ∷ m.notices }
    else m

unfoldable pub maybe_notify_deletion : (now : ℕ) → Workspace → Monitor → Monitor
maybe_notify_deletion now w m =
    if not m.notified_deletion && is_impending now w.deleting_at deletion_notify_time
    then record m { notified_deletion = true; notices = deletion_notice ∷ m.notices }
    else m

unfoldable pub maybe_notify_not_running : Workspace → Monitor → Monitor
maybe_notify_not_running w m =
    if not m.notified_not_running && not (is_running w.latest_build.status)
    then record m { notified_not_running = true; notices = not_running_notice ∷ m.notices }
    else m

unfoldable pub maybe_notify_outdated : Settings → Workspace → Monitor → Monitor
maybe_notify_outdated settings w m =
    if not m.notified_outdated && w.outdated && not settings.update_notifications_disabled
    then record m { notified_outdated = true; notices = outdated_notice ∷ m.notices }
    else m

-- the notices that wait for the initial set-up
unfoldable pub notify_after_setup : Settings → (now : ℕ) → Workspace → Monitor → Monitor
notify_after_setup settings now w m =
    maybe_notify_not_running w (maybe_notify_deletion now w (maybe_notify_outdated settings w m))

-- `maybeNotify`
unfoldable pub maybe_notify : Settings → (now : ℕ) → Workspace → Monitor → Monitor
maybe_notify settings now w m =
    let told = maybe_notify_autostop now w m in
    if settings.notifications_disabled
    then m
    else (if told.completed_initial_setup then notify_after_setup settings now w told else told)

-- `create`
unfoldable pub create : (now : ℕ) → Workspace → Monitor
create now w = update now w (record {
  is_disposed = false;
  notified_autostop = false;
  notified_deletion = false;
  notified_outdated = false;
  notified_not_running = false;
  completed_initial_setup = false;
  latest_workspace = w;
  telemetry = new_state_telemetry;
  updatable = false;
  item_shown = false;
  socket_closed = false;
  changes = [];
  notices = [];
})

pub data Event : Type 0 where
  -- a message with its workspace, or without one that can be read
  message : Settings → (now : ℕ) → Option Workspace → Event
  setup_complete : Settings → (now : ℕ) → Event
  dispose_called : Event

-- the listener of "message"
unfoldable pub on_message : Settings → (now : ℕ) → Option Workspace → Monitor → Monitor
on_message settings now none m = m
on_message settings now (some w) m =
    let told = maybe_notify settings now w (update now w m) in
    record told { changes = w ∷ told.changes }

-- `markInitialSetupComplete`
unfoldable pub mark_initial_setup_complete : Settings → (now : ℕ) → Monitor → Monitor
mark_initial_setup_complete settings now m =
    maybe_notify settings now m.latest_workspace (record m { completed_initial_setup = true })

-- `dispose`
unfoldable pub dispose : Monitor → Monitor
dispose m =
    if m.is_disposed
    then m
    else record m { is_disposed = true; item_shown = false; socket_closed = true }

unfoldable pub step : Event → Monitor → Monitor
step (message settings now w) m = on_message settings now w m
step (setup_complete settings now) m = mark_initial_setup_complete settings now m
step dispose_called m = dispose m

unfoldable pub run : Monitor → List Event → Monitor
run m [] = m
run m (e ∷ es) = run (step e m) es
