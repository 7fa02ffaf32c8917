-- ===== src/Deployment/Events.antt =====
-- The events that reach a manager of deployment/deploymentManager.ts: how an await settles, and what
-- the listeners do.
use vscode_coder.Base.{
  ℕ, true, false, Option, none, some, List, [], ◌∷◌, String, get_elem?, remove_at, ◌==◌,
  if◌then◌else◌,
}
use vscode_coder.Core.UrlHistory.{add_to_url_history}
use vscode_coder.Deployment.Session.{Deployment, User, deployment_of}
use vscode_coder.Deployment.Manager.{
  Manager, SuspendReason, Task, apply_update, await, clear_deployment, credentials_removed,
  cross_window, cross_window_detected, direct, has_state_changed_since, is_authenticated, is_host,
  on_auth_config_change, reading_auth, recovery, report, resume_caller, resume_option,
  saving_current, saving_history, set_deployment, setting_oauth, suspend_session, token_update,
  updating, verify_and_apply_session, verifying,
}

-- How a task settles.
pub data Outcome : Type 0 where
  -- the token of the stored session, if there is one
  auth_read : Option String → Outcome
  user_verified : User → Outcome
  done failed : Outcome

-- a task that has been taken off the list goes on to its next await; an outcome that does not
-- belong to the task leaves it waiting
unfoldable pub settle : Task → Outcome → Manager → Manager
settle (reading_auth before d caller) (auth_read token) m =
    await (verifying before d token caller) m
settle (verifying before d token caller) (user_verified user) m =
    if has_state_changed_since before m
    then resume_caller caller false m
    else set_deployment d token user (some caller) m
settle (verifying before d token caller) failed m = resume_caller caller false m
settle (updating before d token) (user_verified user) m = apply_update before d token user m
settle (updating before d token) failed m = m
settle (setting_oauth ours d caller) done m =
    if m.store.revision == ours
    then await (saving_current d caller) (record m { stored = some d })
    else resume_option caller true m
settle (setting_oauth ours d caller) failed m = resume_option caller false m
settle (saving_current d caller) done m =
    await (saving_history d caller) (record m { history = add_to_url_history d.url m.history })
settle (saving_current d caller) failed m = resume_option caller false m
settle (saving_history d caller) done m = resume_option caller true m
settle (saving_history d caller) failed m = resume_option caller false m
settle task outcome m = await task m

-- the auth listener, registered for `host`
unfoldable pub on_auth_change : String → Option (String × String) → Manager → Manager
on_auth_change host auth m =
    if is_host (deployment_of m.store.current) host
    then elim auth [
      | none ↦ clear_deployment credentials_removed m
      | some (url, token) ↦
          let d : Deployment = record { url = url; safe_hostname = host } in
          if is_authenticated m
          then await (updating m.store.revision d token) m
          else verify_and_apply_session d (some token) (recovery token_update) m
    ]
    else m

-- the cross-window listener
unfoldable pub on_cross_window : Option Deployment → Manager → Manager
on_cross_window d m = if is_authenticated m then m else elim d [
  | none ↦ m
  | some next ↦
      verify_and_apply_session next none (recovery cross_window) (report cross_window_detected m)
]

pub data Event : Type 0 where
  verify_called : Deployment → Option String → Event
  set_called : Deployment → Option String → User → Event
  clear_called suspend_called : SuspendReason → Event
  dispose_called : Event
  auth_changed : (host : String) → Option (String × String) → Event
  cross_window_changed : Option Deployment → Event
  config_changed : Event
  task_settled : (index : ℕ) → Outcome → Event

abbrev pub settle_at : ℕ → Option Task → Outcome → Manager → Manager
settle_at i none outcome m = m
settle_at i (some task) outcome m = settle task outcome (record m { tasks = remove_at m.tasks i })

unfoldable pub step : Event → Manager → Manager
step (verify_called d token) m = verify_and_apply_session d token direct m
step (set_called d token user) m = set_deployment d token user none m
step (clear_called reason) m = clear_deployment reason m
step (suspend_called reason) m = suspend_session reason m
step dispose_called m = record m { disposed = true }
step (auth_changed host auth) m = on_auth_change host auth m
step (cross_window_changed d) m = on_cross_window d m
step config_changed m = if m.disposed then m else on_auth_config_change m
step (task_settled i outcome) m = settle_at i (get_elem? m.tasks i) outcome m

unfoldable pub run : Manager → List Event → Manager
run m [] = m
run m (e ∷ es) = run (step e m) es
