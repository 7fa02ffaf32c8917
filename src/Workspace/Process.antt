-- ===== src/Workspace/Process.antt =====
-- `processWorkspace` of remote/workspaceStateMachine.ts, and its calls in a row.
use vscode_coder.Base.{ℕ, Option, none, some, List, [], ◌∷◌, String, if◌then◌else◌}
use vscode_coder.Core.StartupMode.{StartupMode, no_mode, start, update}
use vscode_coder.Workspace.LazyStream.{open_and_wait}
use vscode_coder.Workspace.Types.{
  WorkspaceStatus, running, stopped, failed, pending, starting, stopping, deleted, deleting,
  canceled, canceling, Workspace,
}
use vscode_coder.Workspace.StateMachine.{
  Answers, prompted, told_building, start_cancelled, stream_failed, wrong_status, Result,
  is_waiting, is_failed, Machine, reset_agent, trigger_start, maybe_update, confirm, resolve_agents,
  continue_with, act, close_build_log, close_agent_log,
}

-- what follows `maybeUpdate` in `case "running"`
unfoldable pub run_or_continue :
    Option String → Answers → Workspace → Machine → Option Workspace → Machine × Result
run_or_continue name a w m none = resolve_agents name a w m
run_or_continue name a w m (some updated) = continue_with name a updated m

-- `case "running"`
unfoldable pub process_running : Option String → Answers → Workspace → Machine → Machine × Result
process_running name a w m =
    let tried = maybe_update a (close_build_log m) in run_or_continue name a w tried.0 tried.1

-- what follows `maybeUpdate` in `case "stopped"` and `case "failed"`
unfoldable pub start_or_continue :
    Option String → Answers → Machine → Option Workspace → Machine × Result
start_or_continue name a m none = trigger_start a.start_succeeds m
start_or_continue name a m (some updated) = continue_with name a updated m

unfoldable pub update_or_start : Option String → Answers → Machine → Machine × Result
update_or_start name a m = let tried = maybe_update a m in start_or_continue name a tried.0 tried.1

-- what follows the prompt
unfoldable pub after_prompt :
    Option String → Answers → Option StartupMode → Machine → Machine × Result
after_prompt name a none m = (m, is_failed start_cancelled)
after_prompt name a (some mode) m = update_or_start name a (record m { startup_mode = mode })

unfoldable pub prompt_first :
    Option String → Answers → Workspace → StartupMode → Machine → Machine × Result
prompt_first name a w no_mode m =
    after_prompt name a (confirm w.outdated a.choice) (act (prompted w.outdated a.choice) m)
prompt_first name a w start m = update_or_start name a m
prompt_first name a w update m = update_or_start name a m

-- `case "stopped"` and `case "failed"`
unfoldable pub process_stopped : Option String → Answers → Workspace → Machine → Machine × Result
process_stopped name a w m = prompt_first name a w m.startup_mode (close_build_log m)

-- `case "pending"`, `case "starting"` and `case "stopping"`
unfoldable pub process_building : Option ℕ → WorkspaceStatus → Machine → Machine × Result
process_building stream status m =
    let opened = open_and_wait stream m.build_log in
    (
      record (close_agent_log (reset_agent m)) {
        build_log = opened.0;
        log = told_building status ∷ m.log;
      },
      if opened.1 then is_waiting else is_failed stream_failed,
    )

unfoldable pub process_status :
    Option String → Answers → Workspace → WorkspaceStatus → Machine → Machine × Result
process_status name a w running m = process_running name a w m
process_status name a w stopped m = process_stopped name a w m
process_status name a w failed m = process_stopped name a w m
process_status name a w pending m = process_building a.stream pending m
process_status name a w starting m = process_building a.stream starting m
process_status name a w stopping m = process_building a.stream stopping m
process_status name a w deleted m = (close_build_log m, is_failed (wrong_status deleted))
process_status name a w deleting m = (close_build_log m, is_failed (wrong_status deleting))
process_status name a w canceled m = (close_build_log m, is_failed (wrong_status canceled))
process_status name a w canceling m = (close_build_log m, is_failed (wrong_status canceling))

-- `processWorkspace`; `name` is the agent the authority asks for
unfoldable pub process_workspace : Option String → Answers → Workspace → Machine → Machine × Result
process_workspace name a w m =
    process_status name a w w.latest_build.status (record m { workspace = some w })

-- calls in a row
unfoldable pub process_all : Option String → List (Answers × Workspace) → Machine → Machine
process_all name [] m = m
process_all name ((a, w) ∷ rest) m = process_all name rest (process_workspace name a w m).0
