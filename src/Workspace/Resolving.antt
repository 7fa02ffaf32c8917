-- ===== src/Workspace/Resolving.antt =====
-- `waitForWorkspaceReady` and `resolveAgent` of remote/remote.ts together: what the set-up goes on
-- with once the loop has resolved.
use vscode_coder.Base.{
  ◌≡◌, ap, refl, sym, subst, Bool, true, Option, none, some, List, [], ◌∷◌, String, arith, is_some,
}
use vscode_coder.Core.StartupMode.{StartupMode}
use vscode_coder.Workspace.Types.{Agent, Workspace}
use vscode_coder.Workspace.StateMachine.{
  Answers, Result, is_ready, is_waiting, is_failed, Machine, is_running,
}
use vscode_coder.Workspace.Actions.{Connectable, status_allows, lifecycle_allows}
use vscode_coder.Workspace.Connecting.{ready-Connectable}
use vscode_coder.Workspace.Latest.{Loop, on_change-Loop, end_call-Loop, new_driver-Loop}
use vscode_coder.Workspace.Driver.{
  Outcome, resolved, rejected, Driver, hand_over, or_given, finish_call, new_driver, Event, changed,
  call_ended, end_call, on_change, step, run, resolve_agent,
}

-- The workspace runs, and `resolveAgent` finds an agent in it that can be connected to.
pub record Resolves (w : Workspace) (m : Machine) : Type 0 where
  pub agent : Agent
  pub is_up : is_running w.latest_build.status ≡ true
  pub found : resolve_agent w m ≡ some agent
  pub is_connected : status_allows agent.status ≡ true
  pub scripts_done : lifecycle_allows agent agent.lifecycle_state ≡ true

Connectable-found : (m : Machine) (c : Connectable m) → resolve_agent c.workspace m ≡ some c.agent
unfolding resolve_agent
Connectable-found m c = rw c.chosen_held c.found

Connectable-Resolves :
    (w : Workspace) (m : Machine) → Connectable m → Resolves (or_given w m.workspace) m
Connectable-Resolves w m c =
    subst (λ v. Resolves v m) (sym (ap (or_given w) c.held))
      (record {
        agent = c.agent;
        is_up = c.is_running_now;
        found = Connectable-found m c;
        is_connected = c.is_connected;
        scripts_done = c.scripts_done;
      })

abbrev Verdict : Option Outcome → Machine → Type 0
Verdict none m = Unit
Verdict (some (rejected failure)) m = Unit
Verdict (some (resolved w)) m = Resolves w m

Verdict-open : (o : Option Outcome) (m : Machine) → o ≡ none → Verdict o m
Verdict-open o m h = rw h tt

Verdict-same :
    (s t : Driver)
    → t.outcome ≡ s.outcome
    → t.machine ≡ s.machine
    → Verdict s.outcome s.machine
    → Verdict t.outcome t.machine
Verdict-same s t o m v =
    subst (λ m'. Verdict t.outcome m') (sym m) (subst (λ o'. Verdict o' s.machine) (sym o) v)

finish_call-Verdict :
    (w : Workspace) (r : Result) (s : Driver)
    → s.outcome ≡ none
    → (r ≡ is_ready → Connectable s.machine)
    → Verdict (finish_call w r s).outcome (finish_call w r s).machine
unfolding finish_call hand_over
finish_call-Verdict w is_ready s o c = Connectable-Resolves w s.machine (c refl)
finish_call-Verdict w (is_failed failure) s o c = tt
finish_call-Verdict w is_waiting s o c = Verdict-open _ _ (ground arith)

end_call-Verdict :
    (name : Option String) (a : Answers) (current : Option Workspace) (s : Driver)
    → s.current ≡ current
    → (is_some s.outcome ≡ true → s.current ≡ none)
    → Verdict s.outcome s.machine
    → Verdict (end_call name a current s).outcome (end_call name a current s).machine
unfolding end_call
end_call-Verdict name a none s c ended v = v
end_call-Verdict name a (some w) s c ended v =
    finish_call-Verdict w _ _ (ground arith) (ready-Connectable name a w s.machine)

on_change-Verdict :
    (w : Workspace) (b : Bool) (s : Driver)
    → Verdict s.outcome s.machine
    → Verdict (on_change w b s).outcome (on_change w b s).machine
unfolding on_change hand_over
on_change-Verdict w b s v = Verdict-same s (on_change w b s) (ground arith) (ground arith) v

module _ (first : StartupMode) (name : Option String) where
  run-Verdict :
      (last : Workspace) (es : List Event) (s : Driver)
      → Loop first last s
      → Verdict s.outcome s.machine
      → Verdict (run name s es).outcome (run name s es).machine
  unfolding run step
  run-Verdict last [] s l v = v
  run-Verdict last (changed w ∷ es) s l v =
      run-Verdict w es _ (on_change-Loop first name last w s.subscribed s refl l)
        (on_change-Verdict w s.subscribed s v)
  run-Verdict last (call_ended a ∷ es) s l v =
      run-Verdict last es _ (end_call-Loop first name last a s.current s refl l)
        (end_call-Verdict name a s.current s refl l.ended v)

new_driver-Verdict :
    (first : StartupMode) (w : Workspace)
    → Verdict (new_driver first w).outcome (new_driver first w).machine
unfolding new_driver hand_over
new_driver-Verdict first w = tt

-- When the loop has resolved with a workspace, after any reports of the monitor and any ends of the
-- calls: that workspace is running, `resolveAgent` does not throw on it, and the agent it finds is
-- connected, with start-up scripts that have ended or do not block the login.
pub resolved-Resolves :
    (first : StartupMode) (name : Option String) (w v : Workspace) (es : List Event)
    → (run name (new_driver first w) es).outcome ≡ some (resolved v)
    → Resolves v (run name (new_driver first w) es).machine
resolved-Resolves first name w v es h =
    let s = run name (new_driver first w) es in
    subst (λ o. Verdict o s.machine) h
      (run-Verdict first name w es _ (new_driver-Loop first name w) (new_driver-Verdict first w))
