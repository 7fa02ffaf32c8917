-- ===== src/Remote/SshMonitor.antt =====
-- The class SshProcessMonitor of remote/sshProcess.ts: its loops, from one await to the next. What the
-- log file, the process list and the directories hold comes with the events; the status bar item is the
-- reporter of Remote.NetworkStatus. Logging and the clean-up of old files at the start are left out.
pub mod Steps
pub mod Invariant
pub mod Loops
pub mod Disposal
mod Tests
use text.Mathlib.Text.{◌==◌ as str_eq}
use vscode_coder.Base.{
  ℕ, suc, ◌+◌, ◌-◌, ◌*◌, min, Bool, true, false, not, ◌&&◌, ◌||◌, Option, none, some, List, [], ◌∷◌,
  ◌++◌, String, get_elem?, remove_at, ltb, leb, ◌==◌, is_some, if◌then◌else◌,
}
use vscode_coder.Remote.NetworkStatus.{
  NetworkInfo, NetworkStatusReporter, StatusBarItem, new_reporter, update,
}
use vscode_coder.Remote.SshTelemetry.{
  SshTelemetry, new_telemetry, ProcessLossCause, stale_network_info, missing_network_info,
  process_started, process_lost, process_recovered, process_replaced, disposed, network_sampled,
  report_discovery,
}

-- `SshProcessMonitorOptions`, in milliseconds
pub record Options : Type 0 where
  pub discovery_poll : ℕ
  pub max_backoff : ℕ
  pub network_poll : ℕ
  pub has_log_dir : Bool

pub data Task : Type 0 where
  -- discoverSshProcess awaits findSshProcessByPort, and its delay
  finding find_delay : (attempts backoff : ℕ) → (last_port : Option ℕ) → Task
  -- searchForLogFile awaits the directory, and its delay
  reading_logs logs_delay : (target backoff : ℕ) → Task
  -- monitorNetwork awaits the network file, and one of its delays
  reading_info : (failures pid : ℕ) → Task
  info_delay : (failures : ℕ) → Task

pub record Monitor : Type 0 where
  pub is_disposed : Bool
  pub current_pid : Option ℕ
  pub log_file_path : Option String
  pub last_stale_search_time : ℕ
  pub reporter : NetworkStatusReporter
  pub telemetry : SshTelemetry
  -- what the emitters fired, the times at which a lost process was searched for, newest first
  pub pid_changes : List ℕ
  pub log_changes : List (Option String)
  pub searches : List ℕ
  pub tasks : List Task

abbrev pub await : Task → Monitor → Monitor
await t m = record m { tasks = m.tasks ++ t ∷ [] }

-- the head of the loop of `discoverSshProcess`, and what `searchForProcess` does when it ends
unfoldable pub discover_loop : (attempts backoff : ℕ) → Option ℕ → Monitor → Monitor
discover_loop attempts backoff port m =
    if m.is_disposed
    then record m { telemetry = report_discovery false attempts m.telemetry }
    else await (finding (suc attempts) backoff port) m

-- `searchForProcess`
unfoldable pub search_for_process : Options → Monitor → Monitor
search_for_process o m = discover_loop 0 o.discovery_poll none m

unfoldable pub set_pid_from : Option ℕ → (now pid : ℕ) → Monitor → Monitor
set_pid_from none now pid m = record m {
  current_pid = some pid;
  telemetry = process_started now m.telemetry;
  pid_changes = pid ∷ m.pid_changes;
}
set_pid_from (some previous) now pid m =
    if previous == pid
    then record m { current_pid = some pid; telemetry = process_recovered now m.telemetry }
    else record m {
      current_pid = some pid;
      telemetry = process_replaced now m.telemetry;
      log_file_path = none;
      log_changes = none ∷ m.log_changes;
      pid_changes = pid ∷ m.pid_changes;
    }

-- `setCurrentPid`
unfoldable pub set_current_pid : (now pid : ℕ) → Monitor → Monitor
unfolding set_pid_from
set_current_pid now pid m = set_pid_from m.current_pid now pid m

abbrev pub is_held : Option ℕ → ℕ → Bool
is_held none pid = false
is_held (some held) pid = held == pid

-- the head of the loop of `searchForLogFile`
unfoldable pub log_loop : (target backoff : ℕ) → Monitor → Monitor
log_loop target backoff m =
    if not m.is_disposed && is_held m.current_pid target
    then await (reading_logs target backoff) m
    else m

-- the head of the loop of `monitorNetwork`
unfoldable pub info_loop : (failures : ℕ) → Monitor → Monitor
info_loop failures m = elim m.current_pid [
  | none ↦ m
  | some pid ↦ (if m.is_disposed then m else await (reading_info failures pid) m)
]

-- `startMonitoring`
unfoldable pub start_monitoring : Options → Monitor → Monitor
unfolding log_loop info_loop
start_monitoring o m = elim m.current_pid [
  | none ↦ m
  | some pid ↦
      (if m.is_disposed
        then m
        else info_loop 0 (if o.has_log_dir then log_loop pid o.discovery_poll m else m))
]

-- the constructor
abbrev pub new_monitor : StatusBarItem → Monitor
new_monitor item = record {
  is_disposed = false;
  current_pid = none;
  log_file_path = none;
  last_stale_search_time = 0;
  reporter = new_reporter item;
  telemetry = new_telemetry;
  pid_changes = [];
  log_changes = [];
  searches = [];
  tasks = [];
}

-- `start`
unfoldable pub start : Options → StatusBarItem → Monitor
start o item = search_for_process o (new_monitor item)

abbrev port_changed : (last port : Option ℕ) → Bool
port_changed (some last) (some port) = not (port == last)
port_changed (some last) none = false
port_changed none port = false

abbrev or_last : (port last : Option ℕ) → Option ℕ
or_last none last = last
or_last (some port) last = some port

-- what the found process leads to in `searchForProcess`
unfoldable pub process_found : Options → (now attempts pid : ℕ) → Monitor → Monitor
process_found o now attempts pid m =
    let told = record m { telemetry = report_discovery true attempts m.telemetry } in
    if m.is_disposed then told else start_monitoring o (set_current_pid now pid told)

-- `delay` ends at once when disposed, and the loop with it
unfoldable pub find_again : (attempts backoff : ℕ) → Option ℕ → Monitor → Monitor
find_again attempts backoff port m =
    if m.is_disposed
    then record m { telemetry = report_discovery false attempts m.telemetry }
    else await (find_delay attempts backoff port) m

-- the body of the loop of `discoverSshProcess`, once a process has been looked for
unfoldable pub looked_up :
    Options → (now attempts backoff : ℕ) → (last pid port : Option ℕ) → Monitor → Monitor
looked_up o now attempts backoff last (some pid) port m = process_found o now attempts pid m
looked_up o now attempts backoff last none port m =
    find_again attempts (if port_changed last port then o.discovery_poll else backoff)
      (or_last port last) m

abbrev is_path : Option String → String → Bool
is_path none path = false
is_path (some held) path = str_eq path held

-- A disposed emitter fires nothing.
abbrev fire_log : String → Monitor → Monitor
fire_log path m = if m.is_disposed then m else record m { log_changes = some path ∷ m.log_changes }

-- the body of the loop of `searchForLogFile`; the file whose name has the target, if there is one
unfoldable pub logs_read : (target backoff : ℕ) → Option String → Monitor → Monitor
logs_read target backoff none m = if m.is_disposed then m else await (logs_delay target backoff) m
logs_read target backoff (some path) m =
    if is_path m.log_file_path path
    then m
    else fire_log path (record m { log_file_path = some path })

-- the end of the body of `monitorNetwork`: a delay that ends at once when disposed
unfoldable pub info_wait : (failures : ℕ) → Monitor → Monitor
info_wait failures m = if m.is_disposed then m else await (info_delay failures) m

-- `staleThreshold`
abbrev pub stale_threshold : Options → ℕ
stale_threshold o = o.network_poll * 5

-- `maxReadFailures`
abbrev pub max_read_failures : ℕ
max_read_failures = 5

unfoldable pub mark_lost : (now : ℕ) → ProcessLossCause → Monitor → Monitor
mark_lost now cause m = record m {
  telemetry = process_lost now cause m.telemetry;
  last_stale_search_time = now;
  searches = now ∷ m.searches;
}

abbrev pub loss_cause : (failures : ℕ) → ProcessLossCause
loss_cause failures =
    if leb max_read_failures failures then missing_network_info else stale_network_info

-- what a reason to search leads to in `monitorNetwork`
unfoldable pub lose_process : Options → (now failures : ℕ) → Monitor → Monitor
lose_process o now failures m =
    if ltb now (m.last_stale_search_time + stale_threshold o)
    then info_wait failures m
    else search_for_process o (mark_lost now (loss_cause failures) m)

-- What `stat` and the read give: a failure, or the age with the contents, if they can be read, and
-- the configured threshold.
pub data Info : Type 0 where
  stat_failed : Info
  stated : (age : ℕ) → Option NetworkInfo → (threshold : ℕ) → Info

unfoldable pub info_failed : Options → (now failures : ℕ) → Monitor → Monitor
info_failed o now failures m =
    if leb max_read_failures failures then lose_process o now failures m else info_wait failures m

unfoldable pub show_info : (now : ℕ) → NetworkInfo → Bool → (threshold : ℕ) → Monitor → Monitor
show_info now network is_stale threshold m = record m {
  reporter = update threshold network is_stale m.reporter;
  telemetry = network_sampled now network m.telemetry;
}

-- the body of the loop of `monitorNetwork`
unfoldable pub info_read : Options → (now failures : ℕ) → Info → Monitor → Monitor
info_read o now failures stat_failed m = info_failed o now (suc failures) m
info_read o now failures (stated age none threshold) m =
    if ltb (stale_threshold o) age then lose_process o now 0 m else info_failed o now 1 m
info_read o now failures (stated age (some network) threshold) m =
    if ltb (stale_threshold o) age
    then lose_process o now 0 m
    else info_wait 0 (show_info now network (ltb (o.network_poll * 2) age) threshold m)

-- `dispose`
unfoldable pub dispose : (now : ℕ) → Monitor → Monitor
dispose now m =
    if m.is_disposed
    then m
    else record m { is_disposed = true; telemetry = disposed now m.telemetry }
