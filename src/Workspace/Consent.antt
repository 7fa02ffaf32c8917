-- ===== src/Workspace/Consent.antt =====
-- What the state machine does about updates and starts over any number of calls.
use vscode_coder.Base.{
  ℕ, ◌≡◌, ◌≢◌, refl, Bool, true, false, Option, none, some, List, [], ◌∷◌, String, arith,
  Option-cases, inl, inr,
}
use vscode_coder.Core.StartupMode.{StartupMode, no_mode, start, update}
use vscode_coder.Workspace.Types.{
  WorkspaceStatus, pending, starting, stopping, Agent, Workspace, answered, no_matching_agents,
  find_agent, Asked,
}
use vscode_coder.Workspace.StateMachine.{
  Answers, prompted, Machine, AgentRef, Choice, new_machine, confirm, judge_lifecycle, judge_status,
  judge_agent, judge_found, judge_asked, choose_agent, remember, resolve_agents, continue_with,
  continue_if, wait_for_scripts, reset_agent, trigger_start, maybe_update, try_update, act,
}
use vscode_coder.Workspace.Actions.{is_start, Consent}
use vscode_coder.Workspace.Process.{
  process_running, run_or_continue, start_or_continue, prompt_first, after_prompt, update_or_start,
  process_stopped, process_building, process_status, process_workspace, process_all,
}

confirm-settles :
    (outdated : Bool) (choice : Option Choice) (mode : StartupMode)
    → confirm outdated choice ≡ some mode
    → mode ≢ no_mode
unfolding confirm
confirm-settles outdated choice mode h = ground arith

module _ (first : StartupMode) where
  judge_lifecycle-Consent :
      (stream : Option ℕ) (agent : Agent) (m : Machine)
      → Consent first m
      → Consent first (judge_lifecycle stream agent m).0
  unfolding judge_lifecycle wait_for_scripts
  judge_lifecycle-Consent stream agent m c = ground arith

  judge_status-Consent :
      (stream : Option ℕ) (agent : Agent) (m : Machine)
      → Consent first m
      → Consent first (judge_status stream agent m).0
  unfolding judge_status
  judge_status-Consent stream agent m c = ground (arith, judge_lifecycle-Consent stream agent m c)

  judge_found-Consent :
      (stream : Option ℕ) (chosen : AgentRef) (found : Option Agent) (m : Machine)
      → Consent first m
      → Consent first (judge_found stream chosen found m).0
  unfolding judge_found
  judge_found-Consent stream chosen none m c = c
  judge_found-Consent stream chosen (some agent) m c =
      judge_status-Consent stream agent _ (ground arith)

  judge_agent-Consent :
      (stream : Option ℕ) (agents : List Agent) (chosen : AgentRef) (m : Machine)
      → Consent first m
      → Consent first (judge_agent stream agents chosen m).0
  unfolding judge_agent
  judge_agent-Consent stream agents chosen =
      judge_found-Consent stream chosen (find_agent chosen.id agents)

  judge_asked-Consent :
      (stream : Option ℕ) (agents : List Agent) (asked : Asked) (m : Machine)
      → Consent first m
      → Consent first (judge_asked stream agents asked m).0
  unfolding judge_asked
  judge_asked-Consent stream agents no_matching_agents m c = c
  judge_asked-Consent stream agents (answered none) m c = c
  judge_asked-Consent stream agents (answered (some agent)) m c =
      judge_agent-Consent stream agents (remember agent) _ (ground arith)

  choose_agent-Consent :
      (name : Option String) (a : Answers) (agents : List Agent) (chosen : Option AgentRef)
      (m : Machine)
      → Consent first m
      → Consent first (choose_agent name a agents chosen m).0
  unfolding choose_agent
  choose_agent-Consent name a agents none = judge_asked-Consent a.stream agents _
  choose_agent-Consent name a agents (some chosen) = judge_agent-Consent a.stream agents chosen

  resolve_agents-Consent :
      (name : Option String) (a : Answers) (w : Workspace) (m : Machine)
      → Consent first m
      → Consent first (resolve_agents name a w m).0
  unfolding resolve_agents
  resolve_agents-Consent name a w m = choose_agent-Consent name a _ m.agent m

  continue_if-Consent :
      (up : Bool) (name : Option String) (a : Answers) (w : Workspace) (m : Machine)
      → Consent first m
      → Consent first (continue_if up name a w m).0
  unfolding continue_if
  continue_if-Consent true name a w m c = resolve_agents-Consent name a w m c
  continue_if-Consent false name a w m c = c

  continue_with-Consent :
      (name : Option String) (a : Answers) (w : Workspace) (m : Machine)
      → Consent first m
      → Consent first (continue_with name a w m).0
  unfolding continue_with reset_agent
  continue_with-Consent name a w m c = continue_if-Consent _ name a w _ (ground arith)

  trigger_start-Consent :
      (ok : Bool) (m : Machine)
      → Consent first m
      → is_start m.startup_mode ≡ true
      → Consent first (trigger_start ok m).0
  unfolding trigger_start
  trigger_start-Consent ok m c h = ground arith

  maybe_update-Consent :
      (a : Answers) (m : Machine) → Consent first m → Consent first (maybe_update a m).0
  unfolding maybe_update try_update
  maybe_update-Consent a m c = ground arith

  maybe_update-starts :
      (a : Answers) (m : Machine)
      → m.startup_mode ≢ no_mode
      → is_start (maybe_update a m).0.startup_mode ≡ true
  unfolding maybe_update try_update
  maybe_update-starts a m h = ground arith

  run_or_continue-Consent :
      (name : Option String) (a : Answers) (w : Workspace) (updated : Option Workspace)
      (m : Machine)
      → Consent first m
      → Consent first (run_or_continue name a w m updated).0
  unfolding run_or_continue
  run_or_continue-Consent name a w none = resolve_agents-Consent name a w
  run_or_continue-Consent name a w (some updated) = continue_with-Consent name a updated

  process_running-Consent :
      (name : Option String) (a : Answers) (w : Workspace) (m : Machine)
      → Consent first m
      → Consent first (process_running name a w m).0
  unfolding process_running
  process_running-Consent name a w m c =
      run_or_continue-Consent name a w _ _ (maybe_update-Consent a _ (ground arith))

  start_or_continue-Consent :
      (name : Option String) (a : Answers) (updated : Option Workspace) (m : Machine)
      → Consent first m
      → is_start m.startup_mode ≡ true
      → Consent first (start_or_continue name a m updated).0
  unfolding start_or_continue
  start_or_continue-Consent name a none m c h = trigger_start-Consent a.start_succeeds m c h
  start_or_continue-Consent name a (some updated) m c h = continue_with-Consent name a updated m c

  update_or_start-Consent :
      (name : Option String) (a : Answers) (m : Machine)
      → Consent first m
      → m.startup_mode ≢ no_mode
      → Consent first (update_or_start name a m).0
  unfolding update_or_start
  update_or_start-Consent name a m c h =
      start_or_continue-Consent name a _ _ (maybe_update-Consent a m c) (maybe_update-starts a m h)

  after_prompt-Consent :
      (name : Option String) (a : Answers) (w : Workspace) (m : Machine)
      → Consent first m
      → m.startup_mode ≡ no_mode
      → let asked = confirm w.outdated a.choice in
        Consent first (after_prompt name a asked (act (prompted w.outdated a.choice) m)).0
  unfolding after_prompt
  after_prompt-Consent name a w m c h = elim (Option-cases (confirm w.outdated a.choice)) [
    | inl dismissed ↦ rw dismissed (ground arith)
    | inr (mode, agreed) ↦
        let settled = confirm-settles w.outdated a.choice mode agreed in
        rw agreed (update_or_start-Consent name a _ (ground arith) (ground arith))
  ]

  prompt_first-Consent :
      (name : Option String) (a : Answers) (w : Workspace) (mode : StartupMode) (m : Machine)
      → Consent first m
      → m.startup_mode ≡ mode
      → Consent first (prompt_first name a w mode m).0
  unfolding prompt_first
  prompt_first-Consent name a w no_mode m c h = after_prompt-Consent name a w m c h
  prompt_first-Consent name a w start m c h = update_or_start-Consent name a m c (ground (arith))
  prompt_first-Consent name a w update m c h = update_or_start-Consent name a m c (ground (arith))

  process_stopped-Consent :
      (name : Option String) (a : Answers) (w : Workspace) (m : Machine)
      → Consent first m
      → Consent first (process_stopped name a w m).0
  unfolding process_stopped
  process_stopped-Consent name a w m c = prompt_first-Consent name a w _ _ (ground arith) refl

  process_building-Consent :
      (stream : Option ℕ) (status : WorkspaceStatus) (m : Machine)
      → Consent first m
      → Consent first (process_building stream status m).0
  unfolding process_building reset_agent
  process_building-Consent stream status m c = ground arith

  process_status-Consent :
      (name : Option String) (a : Answers) (w : Workspace) (status : WorkspaceStatus) (m : Machine)
      → Consent first m
      → Consent first (process_status name a w status m).0
  unfolding process_status
  process_status-Consent name a w status m c = ground (
    arith,
    process_running-Consent name a w m c,
    process_stopped-Consent name a w m c,
    process_building-Consent a.stream pending m c,
    process_building-Consent a.stream starting m c,
    process_building-Consent a.stream stopping m c,
  )

  pub process_workspace-Consent :
      (name : Option String) (a : Answers) (w : Workspace) (m : Machine)
      → Consent first m
      → Consent first (process_workspace name a w m).0
  unfolding process_workspace
  process_workspace-Consent name a w m c =
      process_status-Consent name a w w.latest_build.status _ (ground arith)

  process_all-keeps :
      (name : Option String) (calls : List (Answers × Workspace)) (m : Machine)
      → Consent first m
      → Consent first (process_all name calls m)
  unfolding process_all
  process_all-keeps name [] m c = c
  process_all-keeps name ((a, w) ∷ rest) m c =
      process_all-keeps name rest _ (process_workspace-Consent name a w m c)

pub new_machine-Consent : (first : StartupMode) → Consent first (new_machine first)
unfolding new_machine
new_machine-Consent first = ground arith

-- Over any calls of `processWorkspace` in a row, whatever the workspaces and the answers: an update
-- is tried at most once; a start is only called for, and an update only tried, once the mode is
-- "start", which a machine made in the mode "none" reaches after exactly one prompt that the user
-- answered; and a machine made in another mode never prompts with an answer.
pub process_all-Consent :
    (name : Option String) (first : StartupMode) (calls : List (Answers × Workspace))
    → Consent first (process_all name calls (new_machine first))
process_all-Consent name first calls =
    process_all-keeps first name calls _ (new_machine-Consent first)
