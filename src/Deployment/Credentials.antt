-- ===== src/Deployment/Credentials.antt =====
-- Which tokens reach the live client, and which late answers are ignored.
use vscode_coder.Base.{
  ℕ, ◌≡◌, refl, ap, ◌⊎◌, inl, inr, Bool, true, false, Option, none, some, String, get_elem?,
  remove_at, ◌==◌, arith, Bool-cases,
}
use vscode_coder.Deployment.Session.{Deployment, User, deployment_of}
use vscode_coder.Deployment.Manager.{
  SuspendReason, credentials_removed, auth_config, cross_window, token_update, Caller, direct,
  recovery, Task, reading_auth, verifying, updating, setting_oauth, saving_current, saving_history,
  Client, Manager, set_deployment, clear_deployment, suspend_session, verify_and_apply_session,
  pass_on, recovery_pass, on_auth_config_change, end_pass, resume_caller, resume_option,
  apply_update, has_state_changed_since,
}
use vscode_coder.Deployment.Events.{
  Outcome, auth_read, user_verified, done, failed, settle, on_auth_change, on_cross_window, Event,
  verify_called, set_called, clear_called, suspend_called, dispose_called, auth_changed,
  cross_window_changed, config_changed, task_settled, settle_at, step,
}

-- The parts of a manager that a login or a logout changes.
abbrev pub Kept : Manager → Manager → Type 0
Kept m n = (n.client ≡ m.client) × (n.store ≡ m.store) × (n.oauth ≡ m.oauth)

pub verify_and_apply_session-Kept :
    (d : Deployment) (token : Option String) (caller : Caller) (m : Manager)
    → Kept m (verify_and_apply_session d token caller m)
unfolding verify_and_apply_session
verify_and_apply_session-Kept d none caller m = (refl, refl, refl)
verify_and_apply_session-Kept d (some t) caller m = (refl, refl, refl)

pass_on-Kept : (d : Option Deployment) (m : Manager) → Kept m (pass_on d m)
unfolding pass_on verify_and_apply_session
pass_on-Kept none m = (refl, refl, refl)
pass_on-Kept (some d) m = ground arith

recovery_pass-Kept : (m : Manager) → Kept m (recovery_pass m)
unfolding recovery_pass
recovery_pass-Kept m =
    pass_on-Kept (deployment_of m.store.current) (record m { recovery_pending = false })

end_pass-Kept : (m : Manager) → Kept m (end_pass m)
unfolding end_pass
end_pass-Kept m = ground (arith, recovery_pass-Kept m)

pub resume_caller-Kept :
    (caller : Caller) (ok : Bool) (m : Manager) → Kept m (resume_caller caller ok m)
unfolding resume_caller
resume_caller-Kept direct ok m = (refl, refl, refl)
resume_caller-Kept (recovery auth_config) ok m = end_pass-Kept _
resume_caller-Kept (recovery cross_window) ok m = ground arith
resume_caller-Kept (recovery token_update) ok m = ground arith

pub resume_option-Kept :
    (caller : Option Caller) (ok : Bool) (m : Manager) → Kept m (resume_option caller ok m)
resume_option-Kept none ok m = (refl, refl, refl)
resume_option-Kept (some c) ok m = resume_caller-Kept c ok m

pub on_auth_config_change-Kept : (m : Manager) → Kept m (on_auth_config_change m)
unfolding on_auth_config_change
on_auth_config_change-Kept m =
    ground (arith, recovery_pass-Kept (record m { recovery_running = true }))

-- The token that a task has had verified when its user arrives.
abbrev task_token : Option Task → Option String
task_token none = none
task_token (some (verifying before d token caller)) = token
task_token (some (updating before d token)) = some token
task_token (some _) = none

-- The token that an event vouches for: that of a login, or one whose verification succeeds.
abbrev pub granted : Event → Manager → Option String
granted (set_called d token user) m = token
granted (task_settled i (user_verified user)) m = task_token (get_elem? m.tasks i)
granted _ m = none

-- The client's token is as before, or gone, or the granted one.
abbrev pub Allowed : Option String → Manager → Manager → Type 0
Allowed token m n =
    (n.client.token ≡ m.client.token)
    ⊎ (n.client.token ≡ none)
    ⊎ ((t : String) × (token ≡ some t) × (n.client.token ≡ some t))

resume_caller-Allowed :
    (token : Option String) (caller : Caller) (ok : Bool) (m : Manager)
    → Allowed token m (resume_caller caller ok m)
resume_caller-Allowed token caller ok m =
    inl (ap (λ (c : Client). c.token) (resume_caller-Kept caller ok m).0)

resume_option-Allowed :
    (token : Option String) (caller : Option Caller) (ok : Bool) (m : Manager)
    → Allowed token m (resume_option caller ok m)
resume_option-Allowed token caller ok m =
    inl (ap (λ (c : Client). c.token) (resume_option-Kept caller ok m).0)

set_deployment-Allowed :
    (d : Deployment) (token : Option String) (user : User) (caller : Option Caller) (m : Manager)
    → Allowed token m (set_deployment d token user caller m)
unfolding set_deployment
set_deployment-Allowed d none user caller m = ground arith
set_deployment-Allowed d (some t) user caller m = inr (inr (t, refl, ground arith))

set_deployment-token :
    (d : Deployment) (t : String) (user : User) (caller : Option Caller) (m : Manager)
    → (set_deployment d (some t) user caller m).client.token ≡ some t
unfolding set_deployment
set_deployment-token d t user caller m = refl

apply_update-cases :
    (before : ℕ) (d : Deployment) (token : String) (user : User) (m : Manager)
    → ((apply_update before d token user m).client.token ≡ m.client.token)
      ⊎ ((apply_update before d token user m).client.token ≡ some token)
unfolding apply_update
apply_update-cases before d token user m = ground (arith, set_deployment-token d token user none m)

apply_update-Allowed :
    (before : ℕ) (d : Deployment) (token : String) (user : User) (m : Manager)
    → Allowed (some token) m (apply_update before d token user m)
apply_update-Allowed before d token user m = elim (apply_update-cases before d token user m) [
  | inl same ↦ inl same
  | inr set ↦ inr (inr (token, refl, set))
]

-- What a settled task may put into the client.
abbrev outcome_token : Task → Outcome → Option String
outcome_token task (user_verified user) = task_token (some task)
outcome_token task _ = none

settle-Allowed :
    (task : Task) (outcome : Outcome) (m : Manager)
    → Allowed (outcome_token task outcome) m (settle task outcome m)
unfolding settle
settle-Allowed (reading_auth before d caller) (auth_read token) m = inl refl
settle-Allowed (verifying before d token caller) (user_verified user) m =
    elim (Bool-cases (has_state_changed_since before m)) [
      | inl stale ↦ rw stale (resume_caller-Allowed token caller false m)
      | inr fresh ↦ rw fresh (set_deployment-Allowed d token user (some caller) m)
    ]
settle-Allowed (verifying before d token caller) failed m =
    resume_caller-Allowed none caller false m
settle-Allowed (updating before d token) (user_verified user) m =
    apply_update-Allowed before d token user m
settle-Allowed (updating before d token) failed m = inl refl
settle-Allowed (setting_oauth ours d caller) done m = elim (Bool-cases (m.store.revision == ours)) [
  | inl ours ↦ rw ours (inl refl)
  | inr taken ↦ rw taken (resume_option-Allowed none caller true m)
]
settle-Allowed (setting_oauth ours d caller) failed m = resume_option-Allowed none caller false m
settle-Allowed (saving_current d caller) done m = inl refl
settle-Allowed (saving_current d caller) failed m = resume_option-Allowed none caller false m
settle-Allowed (saving_history d caller) done m = resume_option-Allowed none caller true m
settle-Allowed (saving_history d caller) failed m = resume_option-Allowed none caller false m
settle-Allowed task outcome m = inl refl

clear_deployment-token :
    (reason : SuspendReason) (m : Manager) → (clear_deployment reason m).client.token ≡ none
unfolding clear_deployment
clear_deployment-token reason m = ground arith

suspend_session-token :
    (reason : SuspendReason) (m : Manager) → (suspend_session reason m).client.token ≡ none
unfolding suspend_session
suspend_session-token reason m = ground arith

on_auth_change-Allowed :
    (host : String) (auth : Option (String × String)) (m : Manager)
    → Allowed none m (on_auth_change host auth m)
unfolding on_auth_change verify_and_apply_session
on_auth_change-Allowed host none m = ground (arith, clear_deployment-token credentials_removed m)
on_auth_change-Allowed host (some (url, token)) m = ground arith

on_cross_window-Allowed :
    (d : Option Deployment) (m : Manager) → Allowed none m (on_cross_window d m)
unfolding on_cross_window verify_and_apply_session
on_cross_window-Allowed none m = ground arith
on_cross_window-Allowed (some next) m = ground arith

settle_at-Allowed :
    (i : ℕ) (outcome : Outcome) (task : Option Task) (m : Manager)
    → get_elem? m.tasks i ≡ task
    → Allowed (granted (task_settled i outcome) m) m (settle_at i task outcome m)
settle_at-Allowed i outcome none m e = inl refl
settle_at-Allowed i (user_verified user) (some task) m e =
    rw e (settle-Allowed task (user_verified user) (record m { tasks = remove_at m.tasks i }))
settle_at-Allowed i (auth_read token) (some task) m e =
    settle-Allowed task (auth_read token) (record m { tasks = remove_at m.tasks i })
settle_at-Allowed i done (some task) m e =
    settle-Allowed task done (record m { tasks = remove_at m.tasks i })
settle_at-Allowed i failed (some task) m e =
    settle-Allowed task failed (record m { tasks = remove_at m.tasks i })

-- Whatever event reaches a manager, its client's token afterwards is the one from before, or none,
-- or the token of a login, or a token that has just been verified: no unverified token reaches the
-- live client.
pub step-Allowed : (e : Event) (m : Manager) → Allowed (granted e m) m (step e m)
unfolding step
step-Allowed (verify_called d token) m =
    inl (ap (λ (c : Client). c.token) (verify_and_apply_session-Kept d token direct m).0)
step-Allowed (set_called d token user) m = set_deployment-Allowed d token user none m
step-Allowed (clear_called reason) m = inr (inl (clear_deployment-token reason m))
step-Allowed (suspend_called reason) m = inr (inl (suspend_session-token reason m))
step-Allowed dispose_called m = inl refl
step-Allowed (auth_changed host auth) m = on_auth_change-Allowed host auth m
step-Allowed (cross_window_changed d) m = on_cross_window-Allowed d m
step-Allowed config_changed m = ground (arith, on_auth_config_change-Kept m)
step-Allowed (task_settled i outcome) m = settle_at-Allowed i outcome _ m refl
