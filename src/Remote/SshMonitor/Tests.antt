-- ===== src/Remote/SshMonitor/Tests.antt =====
-- Tests and examples for the SSH process monitor.
use vscode_coder.Remote.SshTelemetry.{
  new_telemetry, process_started, process_lost, process_recovered, process_replaced, disposed,
  has_meaningful_latency_change, should_emit_sample, network_sampled,
}
use vscode_coder.Base.{◌+◌, ◌≡◌, refl, true, false, none, some, List, [], ◌∷◌, ◌++◌, length, arith}
use vscode_coder.Remote.NetworkStatus.{StatusBarItem, update_warning_state, update}
use vscode_coder.Remote.SshMonitor.{
  Options, reading_logs, logs_delay, reading_info, start, stated, discover_loop, search_for_process,
  set_pid_from, set_current_pid, log_loop, info_loop, start_monitoring, process_found, find_again,
  looked_up, logs_read, info_wait, mark_lost, lose_process, info_failed, show_info, info_read,
  dispose,
}
use vscode_coder.Remote.SshMonitor.Steps.{
  Event, process_looked_up, directory_read, info_checked, delay_over, task_settled, dispose_called,
  run, settle, settle_at, step,
}
use vscode_coder.Remote.SshMonitor.Invariant.{Inv}
use vscode_coder.Remote.SshMonitor.Loops.{start-run-loops}
use vscode_coder.Remote.SshMonitor.Disposal.{Ended, resumed, disposed-Ended}

abbrev item : StatusBarItem
item = record { text = none; warning_background = false; command = none }

abbrev options : Options
options = record {
  discovery_poll = 1000;
  max_backoff = 30000;
  network_poll = 3000;
  has_log_dir = true;
}

-- The process is found at the second attempt; the log directory holds no file for it, and its network
-- file is stale.
abbrev lost_events : List Event
lost_events =
    task_settled 0 0 (process_looked_up none (some 22))
    ∷ task_settled 1000 0 delay_over
    ∷ task_settled 1000 0 (process_looked_up (some 7) (some 23))
    ∷ task_settled 1000 0 (directory_read none)
    ∷ task_settled 20000 0 (info_checked (stated 16000 none 0))
    ∷ []

-- The same process is found again: the search for its log file runs twice from then on.
abbrev found_again : List Event
found_again = lost_events ++ task_settled 20000 1 (process_looked_up (some 7) (some 23)) ∷ []

two_log_searches :
    (run options (start options item) found_again).tasks
    ≡ logs_delay 7 1000 ∷ reading_logs 7 1000 ∷ reading_info 0 7 ∷ []
unfolding update_warning_state update new_telemetry process_started process_lost process_recovered
    process_replaced disposed has_meaningful_latency_change should_emit_sample network_sampled
    discover_loop search_for_process set_pid_from set_current_pid log_loop info_loop
    start_monitoring start process_found find_again looked_up logs_read info_wait mark_lost
    lose_process info_failed show_info info_read dispose settle settle_at step run
two_log_searches = refl

start-run-loops_example : Inv options (run options (start options item) found_again)
start-run-loops_example = start-run-loops options item found_again (omega arith)

abbrev last_events : List Event
last_events =
    task_settled 20001 1 (directory_read (some "a-7.log")) ∷ task_settled 20001 0 delay_over ∷ []

is_disposed_now :
    (run options (start options item) (found_again ++ dispose_called 20000 ∷ [])).is_disposed ≡ true
unfolding update_warning_state update new_telemetry process_started process_lost process_recovered
    process_replaced disposed has_meaningful_latency_change should_emit_sample network_sampled
    discover_loop search_for_process set_pid_from set_current_pid log_loop info_loop
    start_monitoring start process_found find_again looked_up logs_read info_wait mark_lost
    lose_process info_failed show_info info_read dispose settle settle_at step run
is_disposed_now = refl

disposed-Ended_example :
    let m = run options (start options item) (found_again ++ dispose_called 20000 ∷ []) in
    Ended m (run options m last_events)
    × (length (run options m last_events).tasks + resumed options m last_events ≡ length m.tasks)
disposed-Ended_example =
    disposed-Ended options last_events
      (run options (start options item) (found_again ++ dispose_called 20000 ∷ [])) is_disposed_now
