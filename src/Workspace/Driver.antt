-- ===== src/Workspace/Driver.antt =====
-- `waitForWorkspaceReady` and `resolveAgent` of remote/remote.ts: the loop that hands workspaces to
-- the state machine, one at a time.
use vscode_coder.Base.{Bool, true, false, Option, none, some, List, [], ◌∷◌, String}
use vscode_coder.Core.StartupMode.{StartupMode}
use vscode_coder.Workspace.Types.{Agent, Workspace, extract_agents, find_agent}
use vscode_coder.Workspace.StateMachine.{
  Answers, Failure, Result, is_ready, is_waiting, is_failed, AgentRef, Machine, new_machine,
}
use vscode_coder.Workspace.Process.{process_workspace}

pub data Outcome : Type 0 where
  resolved : Workspace → Outcome
  rejected : Failure → Outcome

pub record Driver : Type 0 where
  -- the call of `processWorkspace` that is running (`inProgress`), and `pendingWorkspace`
  pub current : Option Workspace
  pub pending : Option Workspace
  pub subscribed : Bool
  pub outcome : Option Outcome
  pub machine : Machine
  -- the workspaces handed to the state machine, the newest first
  pub handed : List Workspace

-- a call of the local `processWorkspace`, up to its `await`
unfoldable pub hand_over : Workspace → Driver → Driver
hand_over w s = elim s.current [
  | some busy ↦ record s { pending = some w }
  | none ↦ record s { pending = none; current = some w; handed = w ∷ s.handed }
]

abbrev pub or_given : Workspace → Option Workspace → Workspace
or_given w none = w
or_given w (some held) = held

-- the rest of that call
unfoldable pub finish_call : Workspace → Result → Driver → Driver
finish_call w is_ready s = record s {
  current = none;
  subscribed = false;
  outcome = some (resolved (or_given w s.machine.workspace));
}
finish_call w (is_failed failure) s = record s {
  current = none;
  subscribed = false;
  outcome = some (rejected failure);
}
finish_call w is_waiting s =
    let idle = record s { current = none } in
    elim s.pending [ none ↦ idle | some next ↦ hand_over next idle ]

unfoldable pub new_driver : StartupMode → Workspace → Driver
new_driver mode w = hand_over w (record {
  current = none;
  pending = none;
  subscribed = true;
  outcome = none;
  machine = new_machine mode;
  handed = [];
})

pub data Event : Type 0 where
  -- the monitor reports a change
  changed : Workspace → Event
  -- the running call of the state machine ends, with the answers it got
  call_ended : Answers → Event

-- the running call, with what the state machine makes of it
unfoldable pub end_call : Option String → Answers → Option Workspace → Driver → Driver
end_call name a none s = s
end_call name a (some w) s =
    let done = process_workspace name a w s.machine in
    finish_call w done.1 (record s { machine = done.0 })

-- the listener, until it is disposed
unfoldable pub on_change : Workspace → Bool → Driver → Driver
on_change w true s = hand_over w s
on_change w false s = s

unfoldable pub step : Option String → Event → Driver → Driver
step name (changed w) s = on_change w s.subscribed s
step name (call_ended a) s = end_call name a s.current s

unfoldable pub run : Option String → Driver → List Event → Driver
run name s [] = s
run name s (e ∷ es) = run name (step name e s) es

abbrev pub id_of : Option AgentRef → Option String
id_of none = none
id_of (some chosen) = some chosen.id

abbrev pub find_by : Option String → List Agent → Option Agent
find_by none agents = none
find_by (some id) agents = find_agent id agents

-- `resolveAgent`; none stands for its exception
unfoldable pub resolve_agent : Workspace → Machine → Option Agent
resolve_agent w m = find_by (id_of m.agent) (extract_agents w.latest_build.resources)
