-- ===== src/Workspace/Latest.antt =====
-- What the loop of `waitForWorkspaceReady` in remote/remote.ts keeps to: the latest workspace is
-- handed over, nothing runs after the end, and the end is as the state machine says.
use vscode_coder.Base.{
  ◌≡◌, refl, Bool, true, false, Option, none, some, List, [], ◌∷◌, String, arith, is_some, not,
}
use vscode_coder.Core.StartupMode.{StartupMode}
use vscode_coder.Workspace.Types.{Workspace}
use vscode_coder.Workspace.StateMachine.{Answers, Result}
use vscode_coder.Workspace.Actions.{Consent}
use vscode_coder.Workspace.Consent.{process_workspace-Consent, new_machine-Consent}
use vscode_coder.Workspace.Driver.{
  Driver, hand_over, finish_call, new_driver, Event, changed, call_ended, end_call, on_change, step,
  run,
}

-- The workspace received last: the first one, or the one of the last change.
unfoldable pub last_received : Workspace → List Event → Workspace
last_received w [] = w
last_received w (changed v ∷ es) = last_received v es
last_received w (call_ended a ∷ es) = last_received w es

abbrev newest : List Workspace → Option Workspace
newest [] = none
newest (w ∷ ws) = some w

-- while the loop has not ended, the workspace it will have handed over once the running call ends
abbrev next_up : Driver → Option Workspace
next_up s = elim s.pending [ some w ↦ some w | none ↦ newest s.handed ]

pub record Loop (first : StartupMode) (last : Workspace) (s : Driver) : Type 0 where
  pub latest : s.outcome ≡ none → next_up s ≡ some last
  pub waits_for : s.outcome ≡ none → is_some s.pending ≡ true → is_some s.current ≡ true
  pub ended : is_some s.outcome ≡ true → s.current ≡ none
  pub listens : s.subscribed ≡ not (is_some s.outcome)
  pub consent : Consent first s.machine

module _ (first : StartupMode) (name : Option String) where
  hand_over-Loop :
      (last w : Workspace) (s : Driver)
      → s.outcome ≡ none
      → Loop first last s
      → Loop first w (hand_over w s)
  unfolding hand_over
  hand_over-Loop last w s h l = ground arith

  finish_call-Loop :
      (last w : Workspace) (r : Result) (s : Driver)
      → s.outcome ≡ none
      → Loop first last s
      → Loop first last (finish_call w r s)
  unfolding finish_call hand_over
  finish_call-Loop last w r s h l = ground arith

  pub end_call-Loop :
      (last : Workspace) (a : Answers) (current : Option Workspace) (s : Driver)
      → s.current ≡ current
      → Loop first last s
      → Loop first last (end_call name a current s)
  unfolding end_call
  end_call-Loop last a none s h l = l
  end_call-Loop last a (some w) s h l =
      let kept = process_workspace-Consent first name a w s.machine l.consent in
      finish_call-Loop last w _ _ (ground arith) (ground arith)

  pub on_change-Loop :
      (last w : Workspace) (subscribed : Bool) (s : Driver)
      → s.subscribed ≡ subscribed
      → Loop first last s
      → Loop first w (on_change w subscribed s)
  unfolding on_change
  on_change-Loop last w true s h l = hand_over-Loop last w s (ground arith) l
  on_change-Loop last w false s h l = ground arith

  run-keeps :
      (last : Workspace) (es : List Event) (s : Driver)
      → Loop first last s
      → Loop first (last_received last es) (run name s es)
  unfolding run step last_received
  run-keeps last [] s l = l
  run-keeps last (changed w ∷ es) s l =
      run-keeps w es _ (on_change-Loop last w s.subscribed s refl l)
  run-keeps last (call_ended a ∷ es) s l =
      run-keeps last es _ (end_call-Loop last a s.current s refl l)

  pub new_driver-Loop : (w : Workspace) → Loop first w (new_driver first w)
  unfolding new_driver hand_over
  new_driver-Loop w = let c = new_machine-Consent first in ground arith

-- Whatever the monitor reports and however the calls of the state machine end: until the loop has
-- settled, the workspace received last is the one handed over last or the one that waits for the
-- running call, so no change is lost; once it has settled, no call is running and the monitor is
-- not listened to; and the state machine has tried at most one update and has called for no start
-- without consent.
pub run-Loop :
    (first : StartupMode) (name : Option String) (w : Workspace) (es : List Event)
    → Loop first (last_received w es) (run name (new_driver first w) es)
run-Loop first name w es = run-keeps first name w es _ (new_driver-Loop first name w)
