-- ===== src/Deployment/Manager.antt =====
-- The class of deployment/deploymentManager.ts. Every `await` is a task, with what the function
-- still needs; a task settles with an outcome from outside. Writes to the stored deployment, to the
-- OAuth session manager and to the client are taken to happen at the call. A listener may run once
-- more after it is disposed, since the store reads the secret in between.
use text.Mathlib.Text.{◌==◌ as str_eq}
use vscode_coder.Base.{
  ℕ, suc, Bool, true, false, not, ◌&&◌, ◌||◌, Option, none, some, List, [], ◌∷◌, ◌++◌, String,
  is_some, ◌==◌, if◌then◌else◌,
}
use vscode_coder.Deployment.Session.{
  Deployment, User, SessionData, signed_out, signed_in, SessionStore, new_store, deployment_of,
  is_signed_in, sign_in, sign_out, is_owner,
}

pub data SuspendReason : Type 0 where
  auth_config_change auth_failure credentials_removed logout : SuspendReason

pub data RecoveryTrigger : Type 0 where
  auth_config cross_window token_update : RecoveryTrigger

-- instrumentation/deployment.ts
pub data DeploymentEvent : Type 0 where
  suspended : SuspendReason → DeploymentEvent
  recovered : RecoveryTrigger → DeploymentEvent
  cross_window_detected auth_config_recovery_failed : DeploymentEvent

-- Who awaits `verifyAndApplySession`: a direct caller, or `recoverDeployment` for a trigger; for
-- `auth_config` that is the loop of `runRecovery`.
pub data Caller : Type 0 where
  direct : Caller
  recovery : RecoveryTrigger → Caller

pub data Task : Type 0 where
  -- verifyAndApplySession awaits getSessionAuth; the session before
  reading_auth : (before : ℕ) → Deployment → Caller → Task
  -- verifyAndApplySession awaits #verifyCredentials
  verifying : (before : ℕ) → Deployment → (token : Option String) → Caller → Task
  -- verifyAndUpdateSession awaits #verifyCredentials
  updating : (before : ℕ) → Deployment → (token : String) → Task
  -- setDeployment awaits oauthSessionManager.setDeployment, and then the two writes of
  -- persistDeployment; its own session, and the caller that awaits verifyAndApplySession
  setting_oauth : (ours : ℕ) → Deployment → Option Caller → Task
  saving_current saving_history : Deployment → Option Caller → Task

pub record Client : Type 0 where
  pub host : Option String
  pub token : Option String

pub record Contexts : Type 0 where
  pub authenticated : Bool
  pub owner : Bool

pub record Manager : Type 0 where
  pub store : SessionStore
  pub disposed : Bool
  pub auth_listener : Option String
  pub recovery_running : Bool
  pub recovery_pending : Bool
  -- collaborators
  pub client : Client
  pub oauth : Option Deployment
  pub contexts : Contexts
  pub telemetry_url : String
  pub stored : Option Deployment
  pub history : List String
  pub log : List DeploymentEvent
  pub tasks : List Task

-- `create`, given the collaborators' state
unfoldable pub new_manager : Client → Option Deployment → Manager
new_manager client stored = record {
  store = new_store;
  disposed = false;
  auth_listener = none;
  recovery_running = false;
  recovery_pending = false;
  client = client;
  oauth = none;
  contexts = record { authenticated = false; owner = false };
  telemetry_url = "";
  stored = stored;
  history = [];
  log = [];
  tasks = [];
}

abbrev pub report : DeploymentEvent → Manager → Manager
report e m = record m { log = e ∷ m.log }

abbrev pub await : Task → Manager → Manager
await t m = record m { tasks = m.tasks ++ t ∷ [] }

-- `isAuthenticated`
abbrev pub is_authenticated : Manager → Bool
is_authenticated m = is_signed_in m.store.current

-- `updateAuthContexts`
unfoldable pub update_auth_contexts : Option User → Manager → Manager
update_auth_contexts user m = record m {
  contexts = record { authenticated = is_some user; owner = is_owner user };
}

-- `clearAuthState`
unfoldable pub clear_auth_state : Manager → Manager
unfolding update_auth_contexts
clear_auth_state m =
    update_auth_contexts none
      (record m { oauth = none; client = record { host = none; token = none } })

-- the token part of `setDeployment`: `setHost` keeps the token
abbrev client_for : Deployment → Option String → Client → Client
client_for d none c = record { host = some d.url; token = c.token }
client_for d (some t) c = record { host = some d.url; token = some t }

-- `registerAuthListener`: the hostname it captures
unfoldable pub register_auth_listener : Manager → Manager
register_auth_listener m = elim (deployment_of m.store.current) [
  | none ↦ m
  | some d ↦ record m { auth_listener = some d.safe_hostname }
]

-- `setDeployment`, up to the await of the OAuth manager
unfoldable pub set_deployment :
    Deployment → Option String → User → Option Caller → Manager → Manager
unfolding register_auth_listener update_auth_contexts
set_deployment d token user caller m =
    let signed = record m {
      telemetry_url = d.url;
      client = client_for d token m.client;
      store = sign_in d user m.store;
    } in
    await (setting_oauth (suc m.store.revision) d caller)
      (record (update_auth_contexts (some user) (register_auth_listener signed)) { oauth = some d })

-- `clearDeployment`
unfoldable pub clear_deployment : SuspendReason → Manager → Manager
unfolding clear_auth_state
clear_deployment reason m =
    let cleared =
      record (clear_auth_state (record m { auth_listener = none; store = sign_out none m.store })) {
        telemetry_url = "";
        stored = none;
      } in
    if is_authenticated m then report (suspended reason) cleared else cleared

-- `suspendSession`
unfoldable pub suspend_session : SuspendReason → Manager → Manager
unfolding clear_auth_state
suspend_session reason m =
    let cleared =
      clear_auth_state (record m { store = sign_out (deployment_of m.store.current) m.store }) in
    if is_authenticated m then report (suspended reason) cleared else cleared

-- `verifyAndApplySession`, up to its first await
unfoldable pub verify_and_apply_session : Deployment → Option String → Caller → Manager → Manager
verify_and_apply_session d none caller m = await (reading_auth m.store.revision d caller) m
verify_and_apply_session d (some t) caller m =
    await (verifying m.store.revision d (some t) caller) m

-- one pass of the loop in `runRecovery`, for the deployment it finds
unfoldable pub pass_on : Option Deployment → Manager → Manager
pass_on none m = record m { recovery_running = false }
pass_on (some d) m =
    if m.disposed || is_authenticated m
    then record m { recovery_running = false }
    else verify_and_apply_session d none (recovery auth_config) m

-- one pass of the loop in `runRecovery`, up to its await; `finally` ends the run
unfoldable pub recovery_pass : Manager → Manager
recovery_pass m = pass_on (deployment_of m.store.current) (record m { recovery_pending = false })

-- `onAuthConfigChange`
unfoldable pub on_auth_config_change : Manager → Manager
on_auth_config_change m =
    if m.recovery_running
    then record m { recovery_pending = true }
    else recovery_pass (record m { recovery_running = true })

-- the end of a pass: `while (this.#recoveryPending)`
unfoldable pub end_pass : Manager → Manager
end_pass m = if m.recovery_pending then recovery_pass m else record m { recovery_running = false }

-- what follows `verifyAndApplySession` in its caller
unfoldable pub resume_caller : Caller → Bool → Manager → Manager
resume_caller direct ok m = m
resume_caller (recovery auth_config) ok m =
    end_pass (report (if ok then recovered auth_config else auth_config_recovery_failed) m)
resume_caller (recovery trigger) ok m = if ok then report (recovered trigger) m else m

abbrev pub resume_option : Option Caller → Bool → Manager → Manager
resume_option none ok m = m
resume_option (some caller) ok m = resume_caller caller ok m

-- `#hasStateChangedSince`
abbrev pub has_state_changed_since : ℕ → Manager → Bool
has_state_changed_since before m =
    m.disposed || is_authenticated m || not (m.store.revision == before)

-- `deployment?.safeHostname === host`
abbrev pub is_host : Option Deployment → String → Bool
is_host none host = false
is_host (some d) host = str_eq d.safe_hostname host

-- `current.kind === "signedIn" && current.user.id === user.id`
abbrev pub is_same_user : SessionData → User → Bool
is_same_user (signed_out d) user = false
is_same_user (signed_in d u) user = str_eq u.id user.id

-- `verifyAndUpdateSession`, once the token is verified
unfoldable pub apply_update : ℕ → Deployment → String → User → Manager → Manager
apply_update before d token user m =
    let rotated = record m { client = record { host = some d.url; token = some token } } in
    let applied = set_deployment d (some token) user none m in
    if m.disposed
    then m
    else if m.store.revision == before
    then (if is_same_user m.store.current user then rotated else applied)
    else if not (is_authenticated m) && is_host (deployment_of m.store.current) d.safe_hostname
    then applied
    else m
