-- ===== src/Workspace/Connecting.antt =====
-- When `processWorkspace` says that a workspace is ready, and what `resolveAgent` of
-- remote/remote.ts then finds.
use vscode_coder.Base.{
  ℕ, ◌≡◌, ◌≢◌, ◌∙◌, ap, refl, Bool, true, false, Option, none, some, String, arith,
}
use vscode_coder.Core.StartupMode.{StartupMode, no_mode, start, update}
use vscode_coder.Workspace.Types.{
  WorkspaceStatus, running, stopped, failed, pending, starting, stopping, deleted, deleting,
  canceled, canceling, Agent, Workspace, Asked, answered, no_matching_agents, extract_agents,
  find_agent,
}
use vscode_coder.Workspace.StateMachine.{
  Answers, is_ready, Machine, AgentRef, remember, reset_agent, judge_lifecycle, judge_status,
  judge_agent, judge_found, judge_asked, choose_agent, resolve_agents, continue_with, continue_if,
  wait_for_scripts, trigger_start, maybe_update, try_update, is_running,
}
use vscode_coder.Workspace.Process.{
  process_running, run_or_continue, start_or_continue, update_or_start, after_prompt, prompt_first,
  process_stopped, process_building, process_status, process_workspace,
}
use vscode_coder.Workspace.AgentTelemetry.{observe}
use vscode_coder.Workspace.Actions.{lifecycle_allows, status_allows, Connectable}

judge_status-allows :
    (stream : Option ℕ) (agent : Agent) (m : Machine)
    → (judge_status stream agent m).1 ≡ is_ready
    → status_allows agent.status ≡ true
unfolding judge_status
judge_status-allows stream agent m h = ground arith

judge_status-lifecycle :
    (stream : Option ℕ) (agent : Agent) (m : Machine)
    → (judge_status stream agent m).1 ≡ is_ready
    → lifecycle_allows agent agent.lifecycle_state ≡ true
unfolding judge_status judge_lifecycle wait_for_scripts
judge_status-lifecycle stream agent m h = ground arith

judge_status-keeps :
    (stream : Option ℕ) (agent : Agent) (m : Machine)
    → let n = (judge_status stream agent m).0 in (n.agent ≡ m.agent) × (n.workspace ≡ m.workspace)
unfolding judge_status judge_lifecycle wait_for_scripts
judge_status-keeps stream agent m = ground arith

module _ (w : Workspace) (is_up : is_running w.latest_build.status ≡ true) where
  judge_found-Connectable :
      (stream : Option ℕ) (chosen : AgentRef) (found : Option Agent) (m : Machine)
      → find_agent chosen.id (extract_agents w.latest_build.resources) ≡ found
      → m.workspace ≡ some w
      → m.agent ≡ some chosen
      → (judge_found stream chosen found m).1 ≡ is_ready
      → Connectable (judge_found stream chosen found m).0
  unfolding judge_found
  judge_found-Connectable stream chosen none m f hw ha h = ground arith
  judge_found-Connectable stream chosen (some agent) m f hw ha h =
      let kept =
        judge_status-keeps stream agent (record m { telemetry = observe agent m.telemetry }) in
      record {
        workspace = w;
        chosen = chosen;
        agent = agent;
        held = kept.1 ∙ hw;
        chosen_held = kept.0 ∙ ha;
        is_running_now = is_up;
        found = f;
        is_connected = judge_status-allows stream agent _ h;
        scripts_done = judge_status-lifecycle stream agent _ h;
      }

  judge_asked-Connectable :
      (stream : Option ℕ) (asked : Asked) (m : Machine)
      → m.workspace ≡ some w
      → (judge_asked stream (extract_agents w.latest_build.resources) asked m).1 ≡ is_ready
      → Connectable (judge_asked stream (extract_agents w.latest_build.resources) asked m).0
  unfolding judge_asked judge_agent
  judge_asked-Connectable stream no_matching_agents m hw h = ground arith
  judge_asked-Connectable stream (answered none) m hw h = ground arith
  judge_asked-Connectable stream (answered (some agent)) m hw h =
      judge_found-Connectable stream (remember agent) _ _ refl hw refl h

  choose_agent-Connectable :
      (name : Option String) (a : Answers) (chosen : Option AgentRef) (m : Machine)
      → m.workspace ≡ some w
      → m.agent ≡ chosen
      → (choose_agent name a (extract_agents w.latest_build.resources) chosen m).1 ≡ is_ready
      → Connectable (choose_agent name a (extract_agents w.latest_build.resources) chosen m).0
  unfolding choose_agent judge_agent
  choose_agent-Connectable name a none m hw ha h = judge_asked-Connectable a.stream _ m hw h
  choose_agent-Connectable name a (some chosen) m hw ha h =
      judge_found-Connectable a.stream chosen _ m refl hw ha h

  resolve_agents-Connectable :
      (name : Option String) (a : Answers) (m : Machine)
      → m.workspace ≡ some w
      → (resolve_agents name a w m).1 ≡ is_ready
      → Connectable (resolve_agents name a w m).0
  unfolding resolve_agents
  resolve_agents-Connectable name a m hw h = choose_agent-Connectable name a m.agent m hw refl h

continue_if-Connectable :
    (up : Bool) (name : Option String) (a : Answers) (w : Workspace) (m : Machine)
    → is_running w.latest_build.status ≡ up
    → m.workspace ≡ some w
    → (continue_if up name a w m).1 ≡ is_ready
    → Connectable (continue_if up name a w m).0
unfolding continue_if
continue_if-Connectable true name a w m up hw h = resolve_agents-Connectable w up name a m hw h
continue_if-Connectable false name a w m up hw h = ground arith

continue_with-Connectable :
    (name : Option String) (a : Answers) (w : Workspace) (m : Machine)
    → m.workspace ≡ some w
    → (continue_with name a w m).1 ≡ is_ready
    → Connectable (continue_with name a w m).0
unfolding continue_with reset_agent
continue_with-Connectable name a w m hw h = continue_if-Connectable _ name a w _ refl hw h

-- what an update leaves as the workspace
held_after : (old : Workspace) → Option Workspace → Workspace
held_after old none = old
held_after old (some new) = new

maybe_update-workspace :
    (a : Answers) (w : Workspace) (m : Machine)
    → m.workspace ≡ some w
    → (maybe_update a m).0.workspace ≡ some (held_after w (maybe_update a m).1)
unfolding maybe_update try_update held_after
maybe_update-workspace a w m h = ground arith

run_or_continue-Connectable :
    (name : Option String) (a : Answers) (w : Workspace) (updated : Option Workspace) (m : Machine)
    → is_running w.latest_build.status ≡ true
    → m.workspace ≡ some (held_after w updated)
    → (run_or_continue name a w m updated).1 ≡ is_ready
    → Connectable (run_or_continue name a w m updated).0
unfolding run_or_continue held_after
run_or_continue-Connectable name a w none m up hw h = resolve_agents-Connectable w up name a m hw h
run_or_continue-Connectable name a w (some new) m up hw h =
    continue_with-Connectable name a new m hw h

process_running-Connectable :
    (name : Option String) (a : Answers) (w : Workspace) (m : Machine)
    → is_running w.latest_build.status ≡ true
    → m.workspace ≡ some w
    → (process_running name a w m).1 ≡ is_ready
    → Connectable (process_running name a w m).0
unfolding process_running
process_running-Connectable name a w m up hw h =
    run_or_continue-Connectable name a w _ _ up (maybe_update-workspace a w _ hw) h

start_or_continue-Connectable :
    (name : Option String) (a : Answers) (w : Workspace) (updated : Option Workspace) (m : Machine)
    → m.workspace ≡ some (held_after w updated)
    → (start_or_continue name a m updated).1 ≡ is_ready
    → Connectable (start_or_continue name a m updated).0
unfolding start_or_continue trigger_start held_after
start_or_continue-Connectable name a w none m hw h = ground arith
start_or_continue-Connectable name a w (some new) m hw h =
    continue_with-Connectable name a new m hw h

update_or_start-Connectable :
    (name : Option String) (a : Answers) (w : Workspace) (m : Machine)
    → m.workspace ≡ some w
    → (update_or_start name a m).1 ≡ is_ready
    → Connectable (update_or_start name a m).0
unfolding update_or_start
update_or_start-Connectable name a w m hw h =
    start_or_continue-Connectable name a w _ _ (maybe_update-workspace a w m hw) h

after_prompt-Connectable :
    (name : Option String) (a : Answers) (w : Workspace) (mode : Option StartupMode) (m : Machine)
    → m.workspace ≡ some w
    → (after_prompt name a mode m).1 ≡ is_ready
    → Connectable (after_prompt name a mode m).0
unfolding after_prompt
after_prompt-Connectable name a w none m hw h = ground arith
after_prompt-Connectable name a w (some mode) m hw h = update_or_start-Connectable name a w _ hw h

prompt_first-Connectable :
    (name : Option String) (a : Answers) (w : Workspace) (mode : StartupMode) (m : Machine)
    → m.workspace ≡ some w
    → (prompt_first name a w mode m).1 ≡ is_ready
    → Connectable (prompt_first name a w mode m).0
unfolding prompt_first
prompt_first-Connectable name a w no_mode m hw h = after_prompt-Connectable name a w _ _ hw h
prompt_first-Connectable name a w start m hw h = update_or_start-Connectable name a w m hw h
prompt_first-Connectable name a w update m hw h = update_or_start-Connectable name a w m hw h

process_building-waits :
    (stream : Option ℕ) (status : WorkspaceStatus) (m : Machine)
    → (process_building stream status m).1 ≢ is_ready
unfolding process_building
process_building-waits stream status m = ground arith

process_status-Connectable :
    (name : Option String) (a : Answers) (w : Workspace) (status : WorkspaceStatus) (m : Machine)
    → w.latest_build.status ≡ status
    → m.workspace ≡ some w
    → (process_status name a w status m).1 ≡ is_ready
    → Connectable (process_status name a w status m).0
unfolding process_status process_stopped
process_status-Connectable name a w running m s hw h =
    process_running-Connectable name a w m (ap is_running s) hw h
process_status-Connectable name a w stopped m s hw h = prompt_first-Connectable name a w _ _ hw h
process_status-Connectable name a w failed m s hw h = prompt_first-Connectable name a w _ _ hw h
process_status-Connectable name a w pending m s hw h = elim (process_building-waits _ _ m h) [ ]
process_status-Connectable name a w starting m s hw h = elim (process_building-waits _ _ m h) [ ]
process_status-Connectable name a w stopping m s hw h = elim (process_building-waits _ _ m h) [ ]
process_status-Connectable name a w deleted m s hw h = ground arith
process_status-Connectable name a w deleting m s hw h = ground arith
process_status-Connectable name a w canceled m s hw h = ground arith
process_status-Connectable name a w canceling m s hw h = ground arith

-- When `processWorkspace` returns true, in any state of the machine: the workspace that
-- `getWorkspace` gives is running, it has the agent that `getAgentId` gives (so that `resolveAgent`
-- finds it), that agent is connected, and its start-up scripts have ended or do not block the login.
pub ready-Connectable :
    (name : Option String) (a : Answers) (w : Workspace) (m : Machine)
    → (process_workspace name a w m).1 ≡ is_ready
    → Connectable (process_workspace name a w m).0
unfolding process_workspace
ready-Connectable name a w m h = process_status-Connectable name a w _ _ refl refl h
