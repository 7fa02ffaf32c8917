-- ===== src/Deployment/Tests.antt =====
-- Runs of the deployment manager, on concrete events.
use vscode_coder.Base.{◌≡◌, ◌⊎◌, refl, true, none, some, List, [], ◌∷◌, arith}
use vscode_coder.Deployment.Session.{Deployment, User}
use vscode_coder.Deployment.Manager.{
  logout, auth_config, direct, recovery, reading_auth, verifying, updating, setting_oauth,
  is_authenticated, clear_deployment, end_pass, apply_update, clear_auth_state,
  register_auth_listener, Client, Manager, new_manager, resume_caller, suspend_session,
  set_deployment, on_auth_config_change, recovery_pass, pass_on, verify_and_apply_session,
  auth_failure,
}
use vscode_coder.Deployment.Events.{
  auth_read, user_verified, done, failed, settle, on_auth_change, auth_changed, Event,
  verify_called, set_called, clear_called, config_changed, suspend_called, task_settled, step, run,
}
use vscode_coder.Deployment.Invariant.{Inv, new_manager-run-Inv}
use vscode_coder.Deployment.Credentials.{Kept, Allowed, step-Allowed}
use vscode_coder.Deployment.Races.{Suspended, logout_wins}
use vscode_coder.Deployment.Pending.{NotLost, config_change_not_lost}

abbrev dev : Deployment
dev = record { url = "https://dev.coder.com"; safe_hostname = "dev.coder.com" }

abbrev ada : User
ada = record { id = "u1"; username = "ada"; roles = "owner" ∷ [] }

abbrev no_client : Client
no_client = record { host = none; token = none }

abbrev start : Manager
start = new_manager no_client none

abbrev login : List Event
login =
    verify_called dev none
    ∷ task_settled 0 (auth_read (some "t1"))
    ∷ task_settled 0 (user_verified ada)
    ∷ task_settled 0 done
    ∷ []

abbrev pending_login : List Event
pending_login = verify_called dev none ∷ task_settled 0 (auth_read (some "t1")) ∷ []

abbrev suspended_run : List Event
suspended_run = set_called dev (some "t1") ada ∷ suspend_called auth_failure ∷ config_changed ∷ []

abbrev suspended_manager : Manager
suspended_manager = run start suspended_run

new_manager-run-Inv_example : Inv (run start login)
new_manager-run-Inv_example = new_manager-run-Inv no_client none login

step-Allowed_example :
    let m = run start pending_login in
    Allowed (some "t1") m (step (task_settled 0 (user_verified ada)) m)
unfolding run step verify_and_apply_session new_manager settle
step-Allowed_example = step-Allowed (task_settled 0 (user_verified ada)) (run start pending_login)

logout_wins_example :
    let n = run (step (clear_called logout) (run start pending_login)) login in
    Kept n (settle (verifying 0 dev (some "t1") direct) (user_verified ada) n)
    × (Kept n (settle (updating 0 dev "t0") (user_verified ada) n) ⊎ Suspended "dev.coder.com" n)
unfolding run step
logout_wins_example =
    logout_wins logout login (run start pending_login) 0 dev (some "t1") direct "t0" ada
      (omega arith)

-- The token "old" is being verified when the user logs out; after a login with "new" on the same host
-- and a suspension, its user arrives and signs in with it.
abbrev overtaken : List Event
overtaken =
    set_called dev (some "t1") ada
    ∷ auth_changed "dev.coder.com" (some ("https://dev.coder.com", "old"))
    ∷ clear_called logout
    ∷ set_called dev (some "new") ada
    ∷ suspend_called auth_failure
    ∷ task_settled 1 (user_verified ada)
    ∷ []

old_token_signed_in :
    ((run start overtaken).client.token ≡ some "old")
    × (is_authenticated (run start overtaken) ≡ true)
unfolding run step suspend_session set_deployment clear_deployment new_manager on_auth_change settle
    apply_update clear_auth_state register_auth_listener
old_token_signed_in = (refl, refl)

-- While the recovery reads the credentials, the settings change; they are read, and the change waits on;
-- the user is refused, and a new pass reads them again.
abbrev refused : List Event
refused = task_settled 1 (auth_read (some "t1")) ∷ task_settled 1 failed ∷ []

config_change_not_lost_example :
    ((step config_changed suspended_manager).tasks ≡ suspended_manager.tasks)
    × NotLost 0 (step config_changed suspended_manager) refused
unfolding run step suspend_session set_deployment new_manager on_auth_config_change recovery_pass
    pass_on verify_and_apply_session
config_change_not_lost_example = config_change_not_lost refused suspended_manager refl refl

passes_again :
    (run (step config_changed suspended_manager) refused).tasks
    ≡ setting_oauth 1 dev none ∷ reading_auth 2 dev (recovery auth_config) ∷ []
unfolding run step suspend_session set_deployment new_manager on_auth_config_change recovery_pass
    pass_on verify_and_apply_session settle resume_caller end_pass
passes_again = refl
