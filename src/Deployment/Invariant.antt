-- ===== src/Deployment/Invariant.antt =====
-- What holds of the deployment manager between two turns of the event loop.
use vscode_coder.Base.{
  ℕ, zero, suc, ◌+◌, ◌<◌, ◌≡◌, refl, Bool, true, false, Option, none, some, List, [], ◌∷◌, ◌++◌,
  String, get_elem?, remove_at, inl, inr, Bool-cases, if◌then◌else◌, arith,
}
use vscode_coder.Core.UrlHistory.{add_to_url_history}
use vscode_coder.Deployment.Session.{Deployment, User, deployment_of, user_of, is_owner}
use vscode_coder.Deployment.Manager.{
  SuspendReason, credentials_removed, cross_window_detected, auth_config, cross_window,
  token_update, recovered, auth_config_recovery_failed, Caller, direct, recovery, Task,
  reading_auth, verifying, updating, setting_oauth, saving_current, saving_history, Client, Manager,
  new_manager, report, await, is_authenticated, set_deployment, clear_deployment, suspend_session,
  verify_and_apply_session, recovery_pass, pass_on, on_auth_config_change, end_pass, resume_caller,
  resume_option, apply_update,
}
use vscode_coder.Deployment.Events.{
  Outcome, auth_read, user_verified, done, failed, settle, on_auth_change, on_cross_window, Event,
  verify_called, set_called, clear_called, suspend_called, dispose_called, auth_changed,
  cross_window_changed, config_changed, task_settled, settle_at, step, run,
}

abbrev pub one_if : Bool → ℕ
one_if true = 1
one_if false = 0

-- Whether a task belongs to the loop of `runRecovery`.
abbrev caller_passes : Caller → ℕ
caller_passes direct = 0
caller_passes (recovery auth_config) = 1
caller_passes (recovery cross_window) = 0
caller_passes (recovery token_update) = 0

abbrev option_passes : Option Caller → ℕ
option_passes none = 0
option_passes (some c) = caller_passes c

abbrev pub task_passes : Task → ℕ
task_passes (reading_auth before d c) = caller_passes c
task_passes (verifying before d token c) = caller_passes c
task_passes (updating before d token) = 0
task_passes (setting_oauth ours d c) = option_passes c
task_passes (saving_current d c) = option_passes c
task_passes (saving_history d c) = option_passes c

abbrev pub passes : List Task → ℕ
passes [] = 0
passes (t ∷ ts) = task_passes t + passes ts

abbrev pub hostname_of : Option Deployment → Option String
hostname_of none = none
hostname_of (some d) = some d.safe_hostname

-- `extra` counts a pass whose task has been taken off the list.
pub record InvWith (extra : ℕ) (m : Manager) : Type 0 where
  -- the contexts show the session
  pub authenticated : m.contexts.authenticated ≡ is_authenticated m
  pub owner : m.contexts.owner ≡ is_owner (user_of m.store.current)
  -- signed out: no credentials in the client, no OAuth session
  pub host_cleared : is_authenticated m ≡ false → 0 < m.store.revision → m.client.host ≡ none
  pub token_cleared : is_authenticated m ≡ false → 0 < m.store.revision → m.client.token ≡ none
  pub oauth_cleared : is_authenticated m ≡ false → 0 < m.store.revision → m.oauth ≡ none
  -- signed in: the OAuth session and the auth listener follow the deployment
  pub oauth_set : is_authenticated m ≡ true → m.oauth ≡ deployment_of m.store.current
  pub listening :
      is_authenticated m ≡ true → m.auth_listener ≡ hostname_of (deployment_of m.store.current)
  -- one recovery at a time, and the flag says whether there is one
  pub single : passes m.tasks + extra ≡ one_if m.recovery_running

abbrev pub Inv : Manager → Type 0
Inv = InvWith 0

passes-append : (ts : List Task) (t : Task) → passes (ts ++ t ∷ []) ≡ passes ts + task_passes t
passes-append [] t = omega arith
passes-append (s ∷ ts) t = omega (arith, passes-append ts t)

passes-remove_at :
    (ts : List Task) (i : ℕ) (t : Task)
    → get_elem? ts i ≡ some t
    → passes ts ≡ passes (remove_at ts i) + task_passes t
passes-remove_at [] i t h = cc
passes-remove_at (s ∷ ts) zero t h = ground arith
passes-remove_at (s ∷ ts) (suc i) t h = omega (arith, passes-remove_at ts i t h)

await-Inv : (t : Task) {m : Manager} → InvWith (task_passes t) m → Inv (await t m)
await-Inv t {m} v = ground (arith, passes-append m.tasks t)

verify_and_apply_session-Inv :
    (d : Deployment) (token : Option String) (caller : Caller) {m : Manager}
    → InvWith (caller_passes caller) m
    → Inv (verify_and_apply_session d token caller m)
unfolding verify_and_apply_session
verify_and_apply_session-Inv d none caller v = await-Inv (reading_auth _ d caller) v
verify_and_apply_session-Inv d (some t) caller v = await-Inv (verifying _ d (some t) caller) v

set_deployment-Inv :
    (d : Deployment) (token : Option String) (user : User) (caller : Option Caller) {m : Manager}
    → InvWith (option_passes caller) m
    → Inv (set_deployment d token user caller m)
unfolding set_deployment
set_deployment-Inv d token user caller {m} v =
    ground (arith, passes-append m.tasks (setting_oauth (suc m.store.revision) d caller))

clear_deployment-Inv :
    (reason : SuspendReason) {m : Manager} → Inv m → Inv (clear_deployment reason m)
unfolding clear_deployment
clear_deployment-Inv reason v = ground arith

suspend_session-Inv :
    (reason : SuspendReason) {m : Manager} → Inv m → Inv (suspend_session reason m)
unfolding suspend_session
suspend_session-Inv reason v = ground arith

pass_on-Inv : (d : Option Deployment) {m : Manager} → InvWith 1 m → Inv (pass_on d m)
unfolding pass_on
pass_on-Inv none v = ground arith
pass_on-Inv (some d) v =
    ground (arith, verify_and_apply_session-Inv d none (recovery auth_config) v)

recovery_pass-Inv : {m : Manager} → InvWith 1 m → Inv (recovery_pass m)
unfolding recovery_pass
recovery_pass-Inv {m} v =
    let v' : InvWith 1 (record m { recovery_pending = false }) = ground arith in
    pass_on-Inv (deployment_of m.store.current) v'

on_auth_config_change-Inv : {m : Manager} → Inv m → Inv (on_auth_config_change m)
unfolding on_auth_config_change
on_auth_config_change-Inv {m} v = elim (Bool-cases m.recovery_running) [
  | inl running ↦ rw running (ground arith)
  | inr idle ↦
      let v' : InvWith 1 (record m { recovery_running = true }) = ground arith in
      rw idle (recovery_pass-Inv v')
]

end_pass-Inv : {m : Manager} → InvWith 1 m → Inv (end_pass m)
unfolding end_pass
end_pass-Inv v = ground (arith, recovery_pass-Inv v)

resume_caller-Inv :
    (caller : Caller) (ok : Bool) {m : Manager}
    → InvWith (caller_passes caller) m
    → Inv (resume_caller caller ok m)
unfolding resume_caller
resume_caller-Inv direct ok v = v
resume_caller-Inv (recovery auth_config) ok {m} v =
    let v' : InvWith 1
        (report (if ok then recovered auth_config else auth_config_recovery_failed) m) =
      ground arith in
    end_pass-Inv v'
resume_caller-Inv (recovery cross_window) ok v = ground arith
resume_caller-Inv (recovery token_update) ok v = ground arith

resume_option-Inv :
    (caller : Option Caller) (ok : Bool) {m : Manager}
    → InvWith (option_passes caller) m
    → Inv (resume_option caller ok m)
resume_option-Inv none ok v = v
resume_option-Inv (some c) ok v = resume_caller-Inv c ok v

apply_update-Inv :
    (before : ℕ) (d : Deployment) (token : String) (user : User) {m : Manager}
    → Inv m
    → Inv (apply_update before d token user m)
unfolding apply_update
apply_update-Inv before d token user {m} v =
    ground (arith, set_deployment-Inv d (some token) user none v)

settle-Inv :
    (task : Task) (outcome : Outcome) {m : Manager}
    → InvWith (task_passes task) m
    → Inv (settle task outcome m)
unfolding settle
settle-Inv (reading_auth before d caller) (auth_read token) v =
    await-Inv (verifying before d token caller) v
settle-Inv (verifying before d token caller) (user_verified user) v =
    ground
      (arith, resume_caller-Inv caller false v, set_deployment-Inv d token user (some caller) v)
settle-Inv (verifying before d token caller) failed v = resume_caller-Inv caller false v
settle-Inv (updating before d token) (user_verified user) v = apply_update-Inv before d token user v
settle-Inv (updating before d token) failed v = v
settle-Inv (setting_oauth ours d caller) done {m} v =
    let v' : InvWith (option_passes caller) (record m { stored = some d }) = ground arith in
    ground (arith, await-Inv (saving_current d caller) v', resume_option-Inv caller true v)
settle-Inv (setting_oauth ours d caller) failed v = resume_option-Inv caller false v
settle-Inv (saving_current d caller) done {m} v =
    let v' : InvWith (option_passes caller)
        (record m { history = add_to_url_history d.url m.history }) =
      ground arith in
    await-Inv (saving_history d caller) v'
settle-Inv (saving_current d caller) failed v = resume_option-Inv caller false v
settle-Inv (saving_history d caller) done v = resume_option-Inv caller true v
settle-Inv (saving_history d caller) failed v = resume_option-Inv caller false v
settle-Inv task outcome v = await-Inv task v

on_auth_change-Inv :
    (host : String) (auth : Option (String × String)) {m : Manager}
    → Inv m
    → Inv (on_auth_change host auth m)
unfolding on_auth_change
on_auth_change-Inv host none v = ground (arith, clear_deployment-Inv credentials_removed v)
on_auth_change-Inv host (some (url, token)) {m} v =
    let d : Deployment = record { url = url; safe_hostname = host } in
    ground (
      arith,
      await-Inv (updating m.store.revision d token) v,
      verify_and_apply_session-Inv d (some token) (recovery token_update) v,
    )

on_cross_window-Inv : (d : Option Deployment) {m : Manager} → Inv m → Inv (on_cross_window d m)
unfolding on_cross_window
on_cross_window-Inv none v = ground arith
on_cross_window-Inv (some next) {m} v =
    let v' : Inv (report cross_window_detected m) = ground arith in
    ground (arith, verify_and_apply_session-Inv next none (recovery cross_window) v')

settle_at-Inv :
    (i : ℕ) (task : Option Task) (outcome : Outcome) {m : Manager}
    → get_elem? m.tasks i ≡ task
    → Inv m
    → Inv (settle_at i task outcome m)
settle_at-Inv i none outcome e v = v
settle_at-Inv i (some task) outcome {m} e v =
    let v' : InvWith (task_passes task) (record m { tasks = remove_at m.tasks i }) =
      ground (arith, passes-remove_at m.tasks i task e) in
    settle-Inv task outcome v'

pub step-Inv : (e : Event) {m : Manager} → Inv m → Inv (step e m)
unfolding step
step-Inv (verify_called d token) v = verify_and_apply_session-Inv d token direct v
step-Inv (set_called d token user) v = set_deployment-Inv d token user none v
step-Inv (clear_called reason) v = clear_deployment-Inv reason v
step-Inv (suspend_called reason) v = suspend_session-Inv reason v
step-Inv dispose_called v = ground arith
step-Inv (auth_changed host auth) v = on_auth_change-Inv host auth v
step-Inv (cross_window_changed d) v = on_cross_window-Inv d v
step-Inv config_changed v = ground (arith, on_auth_config_change-Inv v)
step-Inv (task_settled i outcome) v = settle_at-Inv i _ outcome refl v

run-Inv : (es : List Event) (m : Manager) → Inv m → Inv (run m es)
unfolding run
run-Inv [] m v = v
run-Inv (e ∷ es) m v = run-Inv es (step e m) (step-Inv e v)

new_manager-Inv : (client : Client) (stored : Option Deployment) → Inv (new_manager client stored)
unfolding new_manager is_owner
new_manager-Inv client stored = ground arith

-- Whatever logins, logouts, token changes, settings changes and late answers reach a manager, in any
-- order: the contexts show whether a user is signed in and owns the deployment; once a session was
-- changed, a signed-out manager has no host, token or OAuth deployment left; a signed-in one has its
-- OAuth manager on its deployment and its auth listener on its hostname; and exactly one recovery
-- task exists while a recovery runs, none otherwise.
pub new_manager-run-Inv :
    (client : Client) (stored : Option Deployment) (es : List Event)
    → Inv (run (new_manager client stored) es)
new_manager-run-Inv client stored es = run-Inv es _ (new_manager-Inv client stored)
