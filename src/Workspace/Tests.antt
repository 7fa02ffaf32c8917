-- ===== src/Workspace/Tests.antt =====
-- Tests and examples for bringing a workspace up.
use vscode_coder.Workspace.AgentTelemetry.{new_telemetry, observe, reset}
use vscode_coder.Base.{◌≡◌, refl, true, false, none, some, List, [], ◌∷◌}
use vscode_coder.Core.StartupMode.{no_mode, start, update}
use vscode_coder.Workspace.LazyStream as Lazy
use vscode_coder.Workspace.LazyStream.Leaks.{Kept, run-Kept}
use vscode_coder.Workspace.Types.{
  WorkspaceStatus, running, stopped, starting, connected, ready, Agent, Workspace, extract_agents,
  find_agent, filter_agents, ask_agent, maybe_ask_agent,
}
use vscode_coder.Workspace.StateMachine.{
  Answers, update_and_start, collected, is_ready, new_machine, reset_agent, trigger_start,
  try_update, maybe_update, confirm, wait_for_scripts, judge_lifecycle, judge_status, judge_found,
  judge_agent, judge_asked, choose_agent, resolve_agents, continue_if, continue_with,
}
use vscode_coder.Workspace.Process.{
  process_workspace, process_all, run_or_continue, process_running, start_or_continue,
  update_or_start, after_prompt, prompt_first, process_stopped, process_building, process_status,
}
use vscode_coder.Workspace.Actions.{Consent, Connectable, updates, starts}
use vscode_coder.Workspace.Consent.{process_all-Consent}
use vscode_coder.Workspace.Connecting.{ready-Connectable}
use vscode_coder.Workspace.Monitor as Monitor
use vscode_coder.Workspace.Monitor.{Settings}
use vscode_coder.Workspace.Monitor.Notices as Notices
use vscode_coder.Workspace.Monitor.Notices.{Follows, create-run-Follows}
use vscode_coder.Workspace.StateTelemetry as State
use vscode_coder.Workspace.Driver.{
  resolved, new_driver, Event, changed, call_ended, run, hand_over, finish_call, end_call,
  on_change, step, resolve_agent,
}
use vscode_coder.Workspace.Latest.{Loop, last_received, run-Loop}
use vscode_coder.Workspace.Resolving.{Resolves, resolved-Resolves}

abbrev main_agent : Agent
main_agent = record {
  id = "a1";
  name = "main";
  status = connected;
  lifecycle_state = ready;
  scripts = true ∷ [];
}

abbrev workspace_in : WorkspaceStatus → Workspace
workspace_in status = record {
  name = "me/dev";
  outdated = true;
  deleting_at = none;
  latest_build = record {
    id = "b1";
    status = status;
    transition = "start";
    reason = "initiator";
    deadline = some 1000;
    resources = record { agents = none } ∷ record { agents = some (main_agent ∷ []) } ∷ [];
  };
}

-- The user updates and starts a stopped workspace; the update gives a build that is starting.
abbrev answers : Answers
answers = record {
  choice = some update_and_start;
  parameters = collected;
  updated = some (workspace_in starting);
  start_succeeds = true;
  picked = none;
  stream = some 7;
}

abbrev calls : List (Answers × Workspace)
calls =
    (answers, workspace_in stopped)
    ∷ (answers, workspace_in starting)
    ∷ (answers, workspace_in running)
    ∷ (answers, workspace_in stopped)
    ∷ []

update_once : updates (process_all none calls (new_machine no_mode)).log ≡ 1
unfolding Lazy.new_lazy Lazy.open_stream Lazy.resolved Lazy.rejected Lazy.close Lazy.open_and_wait
    Lazy.step Lazy.run extract_agents find_agent filter_agents ask_agent maybe_ask_agent
    new_telemetry observe reset new_machine reset_agent trigger_start try_update maybe_update
    confirm wait_for_scripts judge_lifecycle judge_status judge_found judge_agent judge_asked
    choose_agent resolve_agents continue_if continue_with run_or_continue process_running
    start_or_continue update_or_start after_prompt prompt_first process_stopped process_building
    process_status process_workspace process_all hand_over finish_call new_driver end_call on_change
    step run resolve_agent
update_once = refl

start_once : starts (process_all none calls (new_machine no_mode)).log ≡ 1
unfolding Lazy.new_lazy Lazy.open_stream Lazy.resolved Lazy.rejected Lazy.close Lazy.open_and_wait
    Lazy.step Lazy.run extract_agents find_agent filter_agents ask_agent maybe_ask_agent
    new_telemetry observe reset new_machine reset_agent trigger_start try_update maybe_update
    confirm wait_for_scripts judge_lifecycle judge_status judge_found judge_agent judge_asked
    choose_agent resolve_agents continue_if continue_with run_or_continue process_running
    start_or_continue update_or_start after_prompt prompt_first process_stopped process_building
    process_status process_workspace process_all hand_over finish_call new_driver end_call on_change
    step run resolve_agent
start_once = refl

process_all-Consent_example : Consent no_mode (process_all none calls (new_machine no_mode))
process_all-Consent_example = process_all-Consent none no_mode calls

running_is_ready :
    (process_workspace none answers (workspace_in running) (new_machine start)).1 ≡ is_ready
unfolding Lazy.new_lazy Lazy.open_stream Lazy.resolved Lazy.rejected Lazy.close Lazy.open_and_wait
    Lazy.step Lazy.run extract_agents find_agent filter_agents ask_agent maybe_ask_agent
    new_telemetry observe reset new_machine reset_agent trigger_start try_update maybe_update
    confirm wait_for_scripts judge_lifecycle judge_status judge_found judge_agent judge_asked
    choose_agent resolve_agents continue_if continue_with run_or_continue process_running
    start_or_continue update_or_start after_prompt prompt_first process_stopped process_building
    process_status process_workspace process_all hand_over finish_call new_driver end_call on_change
    step run resolve_agent
running_is_ready = refl

ready-Connectable_example :
    Connectable (process_workspace none answers (workspace_in running) (new_machine start)).0
ready-Connectable_example =
    ready-Connectable none answers (workspace_in running) (new_machine start) running_is_ready

-- Two changes come while the first call runs; the second of them is processed.
abbrev events : List Event
events =
    changed (workspace_in starting)
    ∷ changed (workspace_in running)
    ∷ call_ended answers
    ∷ call_ended answers
    ∷ []

loop_resolves :
    (run none (new_driver update (workspace_in stopped)) events).outcome
    ≡ some (resolved (workspace_in running))
unfolding Lazy.new_lazy Lazy.open_stream Lazy.resolved Lazy.rejected Lazy.close Lazy.open_and_wait
    Lazy.step Lazy.run extract_agents find_agent filter_agents ask_agent maybe_ask_agent
    new_telemetry observe reset new_machine reset_agent trigger_start try_update maybe_update
    confirm wait_for_scripts judge_lifecycle judge_status judge_found judge_agent judge_asked
    choose_agent resolve_agents continue_if continue_with run_or_continue process_running
    start_or_continue update_or_start after_prompt prompt_first process_stopped process_building
    process_status process_workspace process_all hand_over finish_call new_driver end_call on_change
    step run resolve_agent
loop_resolves = refl

run-Loop_example :
    Loop update
      (last_received (workspace_in stopped) events)
      (run none (new_driver update (workspace_in stopped)) events)
run-Loop_example = run-Loop update none (workspace_in stopped) events

resolved-Resolves_example :
    Resolves
      (workspace_in running)
      (run none (new_driver update (workspace_in stopped)) events).machine
resolved-Resolves_example =
    resolved-Resolves update none (workspace_in stopped) (workspace_in running) events loop_resolves

-- A stream whose opening was cancelled by `close` is closed when it arrives.
abbrev lazy_events : List Lazy.Event
lazy_events =
    Lazy.open_called
    ∷ Lazy.close_called
    ∷ Lazy.open_called
    ∷ Lazy.factory_resolved 0 5
    ∷ Lazy.factory_resolved 1 6
    ∷ []

cancelled_is_closed : (Lazy.run Lazy.new_lazy lazy_events).closed ≡ 5 ∷ []
unfolding Lazy.new_lazy Lazy.open_stream Lazy.resolved Lazy.rejected Lazy.close Lazy.open_and_wait
    Lazy.step Lazy.run extract_agents find_agent filter_agents ask_agent maybe_ask_agent
    new_telemetry observe reset new_machine reset_agent trigger_start try_update maybe_update
    confirm wait_for_scripts judge_lifecycle judge_status judge_found judge_agent judge_asked
    choose_agent resolve_agents continue_if continue_with run_or_continue process_running
    start_or_continue update_or_start after_prompt prompt_first process_stopped process_building
    process_status process_workspace process_all hand_over finish_call new_driver end_call on_change
    step run resolve_agent
cancelled_is_closed = refl

run-Kept_example : Kept 5 (Lazy.run Lazy.new_lazy lazy_events)
run-Kept_example = run-Kept 5 lazy_events

-- The workspace is reported as about to stop, set up, and reported twice as stopped.
abbrev settings : Settings
settings = record { notifications_disabled = false; update_notifications_disabled = true }

abbrev reports : List Monitor.Event
reports =
    Monitor.message settings 0 (some (workspace_in running))
    ∷ Monitor.setup_complete settings 10
    ∷ Monitor.message settings 20 (some (workspace_in stopped))
    ∷ Monitor.message settings 30 (some (workspace_in stopped))
    ∷ []

two_notices :
    (Monitor.run (Monitor.create 0 (workspace_in starting)) reports).notices
    ≡ Monitor.not_running_notice ∷ Monitor.autostop_notice ∷ []
unfolding Monitor.run Monitor.step Monitor.create Monitor.update Monitor.on_message
    Monitor.mark_initial_setup_complete Monitor.maybe_notify Monitor.notify_after_setup
    Monitor.maybe_notify_autostop Monitor.maybe_notify_deletion Monitor.maybe_notify_not_running
    Monitor.maybe_notify_outdated State.observe State.new_state_telemetry
two_notices = refl

create-run-Follows_example :
    Follows
      (Notices.disposed_by false reports)
      (Notices.last_received (workspace_in starting) reports)
      (Monitor.run (Monitor.create 0 (workspace_in starting)) reports)
create-run-Follows_example = create-run-Follows 0 (workspace_in starting) reports
