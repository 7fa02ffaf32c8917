-- ===== src/Deployment/Pending.antt =====
-- Changes of the auth settings that come while deployment/deploymentManager.ts recovers a session.
use vscode_coder.Base.{
  ℕ, suc, ◌≡◌, ◌⊎◌, inl, inr, ◌==◌, refl, ap, Bool, true, false, Option, none, some, List, [], ◌∷◌,
  ◌++◌, String, if◌then◌else◌, ◌||◌, get_elem?, remove_at, arith,
}
use vscode_coder.Deployment.Session.{Deployment, User, deployment_of}
use vscode_coder.Deployment.Manager.{
  SuspendReason, credentials_removed, DeploymentEvent, suspended, recovered, cross_window_detected,
  auth_config_recovery_failed, auth_config, cross_window, token_update, Caller, direct, recovery,
  Task, reading_auth, verifying, updating, setting_oauth, saving_current, saving_history, Manager,
  is_authenticated, is_host, register_auth_listener, set_deployment, clear_deployment,
  suspend_session, verify_and_apply_session, pass_on, recovery_pass, on_auth_config_change,
  end_pass, resume_caller, resume_option, apply_update, has_state_changed_since,
}
use vscode_coder.Deployment.Events.{
  Outcome, auth_read, user_verified, done, failed, settle, on_auth_change, on_cross_window, Event,
  verify_called, set_called, clear_called, suspend_called, dispose_called, auth_changed,
  cross_window_changed, config_changed, task_settled, settle_at, step, run,
}

-- How many passes of the recovery have ended: each reports how it went.
abbrev pub passes : List DeploymentEvent → ℕ
passes [] = 0
passes (suspended reason ∷ log) = passes log
passes (recovered auth_config ∷ log) = suc (passes log)
passes (recovered cross_window ∷ log) = passes log
passes (recovered token_update ∷ log) = passes log
passes (cross_window_detected ∷ log) = passes log
passes (auth_config_recovery_failed ∷ log) = suc (passes log)

-- The pass that runs is the one after `k` others, and a change waits for its end.
pub record Remembered (k : ℕ) (m : Manager) : Type 0 where
  pub ended : passes m.log ≡ k
  pub running : m.recovery_running ≡ true
  pub pending : m.recovery_pending ≡ true

-- That pass has just ended, and the change was taken up: a new pass reads the session's credentials, or
-- there is nothing to recover and the recovery has ended.
pub data TakenUp (k : ℕ) (m : Manager) : Type 0 where
  new_pass :
      (d : Deployment) (tasks : List Task)
      → passes m.log ≡ suc k
      → m.recovery_running ≡ true
      → m.recovery_pending ≡ false
      → deployment_of m.store.current ≡ some d
      → m.tasks ≡ tasks ++ reading_auth m.store.revision d (recovery auth_config) ∷ []
      → TakenUp k m
  nothing_left :
      passes m.log ≡ suc k
      → m.recovery_running ≡ false
      → m.recovery_pending ≡ false
      → (deployment_of m.store.current ≡ none) ⊎ (m.disposed ≡ true) ⊎ (is_authenticated m ≡ true)
      → TakenUp k m

abbrev Next : ℕ → Manager → Type 0
Next k m = Remembered k m ⊎ TakenUp k m

either-TakenUp :
    (k : ℕ) (b : Bool) (m n : Manager)
    → (b ≡ true → TakenUp k m)
    → (b ≡ false → TakenUp k n)
    → TakenUp k (if b then m else n)
either-TakenUp k true m n f g = f refl
either-TakenUp k false m n f g = g refl

either : (a b : Bool) → (a || b) ≡ true → (a ≡ true) ⊎ (b ≡ true)
either true b h = inl refl
either false b h = inr h

pass_on-TakenUp :
    (k : ℕ) (o : Option Deployment) (m : Manager)
    → deployment_of m.store.current ≡ o
    → passes m.log ≡ suc k
    → m.recovery_running ≡ true
    → m.recovery_pending ≡ false
    → TakenUp k (pass_on o m)
unfolding pass_on verify_and_apply_session
pass_on-TakenUp k none m e p r q = nothing_left p refl q (inl e)
pass_on-TakenUp k (some d) m e p r q =
    either-TakenUp k (m.disposed || is_authenticated m) _ _
      (λ over. nothing_left p refl q (inr (either m.disposed (is_authenticated m) over)))
      (λ on. new_pass d m.tasks p r q e refl)

end_pass-TakenUp : (k : ℕ) (m : Manager) → Remembered (suc k) m → TakenUp k (end_pass m)
unfolding end_pass recovery_pass
end_pass-TakenUp k m h =
    either-TakenUp k m.recovery_pending _ _
      (λ pending.
        pass_on-TakenUp k (deployment_of m.store.current) (record m { recovery_pending = false })
          refl h.ended h.running refl)
      (λ quiet. absurd (ground (arith, quiet, h.pending)))

resume_caller-Next :
    (k : ℕ) (caller : Caller) (ok : Bool) (m : Manager)
    → Remembered k m
    → Next k (resume_caller caller ok m)
unfolding resume_caller
resume_caller-Next k direct ok m h = inl h
resume_caller-Next k (recovery auth_config) true m h = inr (end_pass-TakenUp k _ (ground arith))
resume_caller-Next k (recovery auth_config) false m h = inr (end_pass-TakenUp k _ (ground arith))
resume_caller-Next k (recovery cross_window) ok m h = inl (ground arith)
resume_caller-Next k (recovery token_update) ok m h = inl (ground arith)

resume_option-Next :
    (k : ℕ) (caller : Option Caller) (ok : Bool) (m : Manager)
    → Remembered k m
    → Next k (resume_option caller ok m)
resume_option-Next k none ok m h = inl h
resume_option-Next k (some caller) ok m h = resume_caller-Next k caller ok m h

module _ (k : ℕ) where
  set_deployment-Remembered :
      (d : Deployment) (token : Option String) (user : User) (caller : Option Caller) (m : Manager)
      → Remembered k m
      → Remembered k (set_deployment d token user caller m)
  unfolding set_deployment register_auth_listener
  set_deployment-Remembered d token user caller m h = ground arith

  verify_and_apply_session-Remembered :
      (d : Deployment) (token : Option String) (caller : Caller) (m : Manager)
      → Remembered k m
      → Remembered k (verify_and_apply_session d token caller m)
  unfolding verify_and_apply_session
  verify_and_apply_session-Remembered d none caller m h = ground arith
  verify_and_apply_session-Remembered d (some token) caller m h = ground arith

  clear_deployment-Remembered :
      (reason : SuspendReason) (m : Manager)
      → Remembered k m
      → Remembered k (clear_deployment reason m)
  unfolding clear_deployment
  clear_deployment-Remembered reason m h = ground arith

  suspend_session-Remembered :
      (reason : SuspendReason) (m : Manager)
      → Remembered k m
      → Remembered k (suspend_session reason m)
  unfolding suspend_session
  suspend_session-Remembered reason m h = ground arith

  apply_update-Remembered :
      (before : ℕ) (d : Deployment) (token : String) (user : User) (m : Manager)
      → Remembered k m
      → Remembered k (apply_update before d token user m)
  unfolding apply_update
  apply_update-Remembered before d token user m h =
      ground (arith, set_deployment-Remembered d (some token) user none m h)

  on_auth_config_change-Remembered :
      (m : Manager) → Remembered k m → Remembered k (on_auth_config_change m)
  unfolding on_auth_config_change
  on_auth_config_change-Remembered m h = ground arith

  either-Next : (b : Bool) (m n : Manager) → Next k m → Next k n → Next k (if b then m else n)
  either-Next true m n f g = f
  either-Next false m n f g = g

  settle-Next :
      (task : Task) (outcome : Outcome) (m : Manager)
      → Remembered k m
      → Next k (settle task outcome m)
  unfolding settle
  settle-Next (reading_auth before d caller) (auth_read token) m h = inl (ground arith)
  settle-Next (verifying before d token caller) (user_verified user) m h =
      either-Next (has_state_changed_since before m) _ _ (resume_caller-Next k caller false m h)
        (inl (set_deployment-Remembered d token user (some caller) m h))
  settle-Next (verifying before d token caller) failed m h = resume_caller-Next k caller false m h
  settle-Next (updating before d token) (user_verified user) m h =
      inl (apply_update-Remembered before d token user m h)
  settle-Next (updating before d token) failed m h = inl h
  settle-Next (setting_oauth ours d caller) done m h =
      either-Next (m.store.revision == ours) _ _ (inl (ground arith))
        (resume_option-Next k caller true m h)
  settle-Next (setting_oauth ours d caller) failed m h = resume_option-Next k caller false m h
  settle-Next (saving_current d caller) done m h = inl (ground arith)
  settle-Next (saving_current d caller) failed m h = resume_option-Next k caller false m h
  settle-Next (saving_history d caller) done m h = resume_option-Next k caller true m h
  settle-Next (saving_history d caller) failed m h = resume_option-Next k caller false m h
  settle-Next task outcome m h = inl (ground arith)

  on_auth_change-Next :
      (host : String) (auth : Option (String × String)) (m : Manager)
      → Remembered k m
      → Next k (on_auth_change host auth m)
  unfolding on_auth_change
  on_auth_change-Next host none m h =
      either-Next (is_host (deployment_of m.store.current) host) _ _
        (inl (clear_deployment-Remembered credentials_removed m h)) (inl h)
  on_auth_change-Next host (some (url, token)) m h =
      let d : Deployment = record { url = url; safe_hostname = host } in
      either-Next (is_host (deployment_of m.store.current) host) _ _
        (either-Next (is_authenticated m) _ _ (inl (ground arith))
          (inl (verify_and_apply_session-Remembered d (some token) (recovery token_update) m h)))
        (inl h)

  on_cross_window-Next :
      (d : Option Deployment) (m : Manager) → Remembered k m → Next k (on_cross_window d m)
  unfolding on_cross_window
  on_cross_window-Next none m h = either-Next (is_authenticated m) _ _ (inl h) (inl h)
  on_cross_window-Next (some next) m h =
      either-Next (is_authenticated m) _ _ (inl h) (
        inl
          (verify_and_apply_session-Remembered next none (recovery cross_window) _ (ground arith)))

  settle_at-Next :
      (i : ℕ) (task : Option Task) (outcome : Outcome) (m : Manager)
      → Remembered k m
      → Next k (settle_at i task outcome m)
  settle_at-Next i none outcome m h = inl h
  settle_at-Next i (some task) outcome m h =
      settle-Next task outcome (record m { tasks = remove_at m.tasks i }) (ground arith)

  step-Next : (e : Event) (m : Manager) → Remembered k m → Next k (step e m)
  unfolding step
  step-Next (verify_called d token) m h =
      inl (verify_and_apply_session-Remembered d token direct m h)
  step-Next (set_called d token user) m h = inl (set_deployment-Remembered d token user none m h)
  step-Next (clear_called reason) m h = inl (clear_deployment-Remembered reason m h)
  step-Next (suspend_called reason) m h = inl (suspend_session-Remembered reason m h)
  step-Next dispose_called m h = inl (ground arith)
  step-Next (auth_changed host auth) m h = on_auth_change-Next host auth m h
  step-Next (cross_window_changed d) m h = on_cross_window-Next d m h
  step-Next config_changed m h =
      either-Next m.disposed _ _ (inl h) (inl (on_auth_config_change-Remembered m h))
  step-Next (task_settled i outcome) m h = settle_at-Next i (get_elem? m.tasks i) outcome m h

-- A change is not lost over some events: it still waits for the end of the pass, or it was taken up at
-- the event that ended the pass.
pub data NotLost (k : ℕ) (m : Manager) (es : List Event) : Type 0 where
  waits : Remembered k (run m es) → NotLost k m es
  taken_up :
      (before : List Event) (e : Event) (after : List Event)
      → es ≡ before ++ e ∷ after
      → Remembered k (run m before)
      → TakenUp k (step e (run m before))
      → NotLost k m es

later-NotLost :
    (k : ℕ) (e : Event) (es : List Event) (m : Manager)
    → Remembered k m
    → NotLost k (step e m) es
    → NotLost k m (e ∷ es)
unfolding run
later-NotLost k e es m h (waits w) = waits w
later-NotLost k e es m h (taken_up before f after split w u) =
    taken_up (e ∷ before) f after (ap (λ t. e ∷ t) split) w u

run-NotLost : (k : ℕ) (es : List Event) (m : Manager) → Remembered k m → NotLost k m es
unfolding run
run-NotLost k [] m h = waits h
run-NotLost k (e ∷ es) m h = elim (step-Next k e m h) [
  | inl on ↦ later-NotLost k e es m h (run-NotLost k es (step e m) on)
  | inr up ↦ taken_up [] e es refl h up
]

-- A change of the auth settings that comes while a recovery runs starts no second one, and is not
-- lost, whatever events follow: until the running pass ends, the change is remembered; and at the very
-- event that ends it, a new pass starts that reads the session's credentials afresh, unless there is
-- nothing to recover any more: no deployment, a session that is signed in, or a disposed manager.
pub config_change_not_lost :
    (es : List Event) (m : Manager)
    → m.recovery_running ≡ true
    → m.disposed ≡ false
    → let changed = step config_changed m in
      (changed.tasks ≡ m.tasks) × NotLost (passes m.log) changed es
unfolding step on_auth_config_change
config_change_not_lost es m r d =
    let changed = step config_changed m in
    (ground arith, run-NotLost (passes m.log) es changed (ground arith))
