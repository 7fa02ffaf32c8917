-- ===== src/Deployment/Races.antt =====
-- Answers of deployment/deploymentManager.ts that arrive after the session has moved on.
use vscode_coder.Base.{
  ℕ, suc, ◌≤◌, ◌<◌, ◌≡◌, ◌⊎◌, inl, inr, Bool-cases, ◌==◌, true, false, Option, none, some, List, [],
  ◌∷◌, String, remove_at, arith,
}
use native.Mathlib.Nat.{le_trans, le_refl}
use vscode_coder.Deployment.Session.{Deployment, User, deployment_of}
use vscode_coder.Deployment.Manager.{
  SuspendReason, Caller, direct, Task, reading_auth, verifying, updating, setting_oauth,
  saving_current, saving_history, Manager, is_authenticated, is_host, set_deployment,
  clear_deployment, suspend_session, verify_and_apply_session, apply_update,
  has_state_changed_since, credentials_removed,
}
use vscode_coder.Deployment.Events.{
  Outcome, auth_read, user_verified, done, failed, settle, on_auth_change, on_cross_window, Event,
  verify_called, set_called, clear_called, suspend_called, dispose_called, auth_changed,
  cross_window_changed, config_changed, task_settled, settle_at, step, run,
}
use vscode_coder.Deployment.Credentials.{
  Kept, resume_caller-Kept, resume_option-Kept, on_auth_config_change-Kept,
  verify_and_apply_session-Kept,
}

-- Sessions are only ever replaced by later ones.
abbrev Later : Manager → Manager → Type 0
Later m n = m.store.revision ≤ n.store.revision

set_deployment-Later :
    (d : Deployment) (token : Option String) (user : User) (caller : Option Caller) (m : Manager)
    → Later m (set_deployment d token user caller m)
unfolding set_deployment
set_deployment-Later d token user caller m = ground arith

clear_deployment-revision :
    (reason : SuspendReason) (m : Manager)
    → (clear_deployment reason m).store.revision ≡ suc m.store.revision
unfolding clear_deployment
clear_deployment-revision reason m = ground arith

suspend_session-Later : (reason : SuspendReason) (m : Manager) → Later m (suspend_session reason m)
unfolding suspend_session
suspend_session-Later reason m = ground arith

apply_update-Later :
    (before : ℕ) (d : Deployment) (token : String) (user : User) (m : Manager)
    → Later m (apply_update before d token user m)
unfolding apply_update
apply_update-Later before d token user m =
    ground (arith, set_deployment-Later d (some token) user none m)

settle-Later : (task : Task) (outcome : Outcome) (m : Manager) → Later m (settle task outcome m)
unfolding settle
settle-Later (reading_auth before d caller) (auth_read token) m = le_refl _
settle-Later (verifying before d token caller) (user_verified user) m =
    ground
      (arith, resume_caller-Kept caller false m, set_deployment-Later d token user (some caller) m)
settle-Later (verifying before d token caller) failed m =
    ground (arith, resume_caller-Kept caller false m)
settle-Later (updating before d token) (user_verified user) m =
    apply_update-Later before d token user m
settle-Later (updating before d token) failed m = le_refl _
settle-Later (setting_oauth ours d caller) done m = ground (arith, resume_option-Kept caller true m)
settle-Later (setting_oauth ours d caller) failed m =
    ground (arith, resume_option-Kept caller false m)
settle-Later (saving_current d caller) done m = le_refl _
settle-Later (saving_current d caller) failed m = ground (arith, resume_option-Kept caller false m)
settle-Later (saving_history d caller) done m = ground (arith, resume_option-Kept caller true m)
settle-Later (saving_history d caller) failed m = ground (arith, resume_option-Kept caller false m)
settle-Later task outcome m = le_refl _

on_auth_change-Later :
    (host : String) (auth : Option (String × String)) (m : Manager)
    → Later m (on_auth_change host auth m)
unfolding on_auth_change verify_and_apply_session
on_auth_change-Later host none m = ground (arith, clear_deployment-revision credentials_removed m)
on_auth_change-Later host (some (url, token)) m = ground arith

on_cross_window-Later : (d : Option Deployment) (m : Manager) → Later m (on_cross_window d m)
unfolding on_cross_window verify_and_apply_session
on_cross_window-Later none m = ground arith
on_cross_window-Later (some next) m = ground arith

settle_at-Later :
    (i : ℕ) (task : Option Task) (outcome : Outcome) (m : Manager)
    → Later m (settle_at i task outcome m)
settle_at-Later i none outcome m = le_refl _
settle_at-Later i (some task) outcome m =
    settle-Later task outcome (record m { tasks = remove_at m.tasks i })

step-Later : (e : Event) (m : Manager) → Later m (step e m)
unfolding step
step-Later (verify_called d token) m =
    ground (arith, verify_and_apply_session-Kept d token direct m)
step-Later (set_called d token user) m = set_deployment-Later d token user none m
step-Later (clear_called reason) m = omega (arith, clear_deployment-revision reason m)
step-Later (suspend_called reason) m = suspend_session-Later reason m
step-Later dispose_called m = le_refl _
step-Later (auth_changed host auth) m = on_auth_change-Later host auth m
step-Later (cross_window_changed d) m = on_cross_window-Later d m
step-Later config_changed m = ground (arith, on_auth_config_change-Kept m)
step-Later (task_settled i outcome) m = settle_at-Later i _ outcome m

run-Later : (es : List Event) (m : Manager) → Later m (run m es)
unfolding run
run-Later [] m = le_refl _
run-Later (e ∷ es) m = le_trans (step-Later e m) (run-Later es (step e m))

stale_verification :
    (before : ℕ) (d : Deployment) (token : Option String) (caller : Caller) (user : User)
    (m : Manager)
    → before < m.store.revision
    → Kept m (settle (verifying before d token caller) (user_verified user) m)
unfolding settle
stale_verification before d token caller user m h =
    let stale : has_state_changed_since before m ≡ true = ground arith in
    rw stale (resume_caller-Kept caller false m)

-- Signed out, with a deployment of a host.
abbrev pub Suspended : String → Manager → Type 0
Suspended host m =
    (is_authenticated m ≡ false) × (is_host (deployment_of m.store.current) host ≡ true)

stale_update :
    (before : ℕ) (d : Deployment) (token : String) (user : User) (m : Manager)
    → before < m.store.revision
    → Kept m (settle (updating before d token) (user_verified user) m) ⊎ Suspended d.safe_hostname m
unfolding settle apply_update
stale_update before d token user m h =
    let moved : (m.store.revision == before) ≡ false = ground arith in
    elim (Bool-cases (is_authenticated m)) [
      | inl other ↦ inl (ground (arith, moved, other))
      | inr out ↦ elim (Bool-cases (is_host (deployment_of m.store.current) d.safe_hostname)) [
        | inl same ↦ inr (out, same)
        | inr other ↦ inl (ground (arith, moved, other))
      ]
    ]

-- A logout wins over the verifications that were under way, those of `verifyAndApplySession` and of
-- `verifyAndUpdateSession` that read their session no later than the moment of the logout, whatever
-- happened in between. When the user of the first kind arrives, the session, the client's credentials
-- and the OAuth deployment stay as they are. When the user of the second kind arrives, they stay too,
-- unless by then the session is suspended: signed out, with a deployment of the verified host.
pub logout_wins :
    (reason : SuspendReason) (es : List Event) (m : Manager) (before : ℕ) (d : Deployment)
    (token : Option String) (caller : Caller) (updated : String) (user : User)
    → before ≤ m.store.revision
    → let n = run (step (clear_called reason) m) es in
      Kept n (settle (verifying before d token caller) (user_verified user) n)
      × (Kept n (settle (updating before d updated) (user_verified user) n)
          ⊎ Suspended d.safe_hostname n)
unfolding step
logout_wins reason es m before d token caller updated user h =
    let n = run (step (clear_called reason) m) es in
    let later : before < n.store.revision =
      omega (
        arith,
        run-Later es (step (clear_called reason) m),
        clear_deployment-revision reason m,
        h,
      ) in
    (
      stale_verification before d token caller user n later,
      stale_update before d updated user n later,
    )
