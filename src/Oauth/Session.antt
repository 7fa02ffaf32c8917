-- ===== src/Oauth/Session.antt =====
-- The class OAuthSessionManager of oauth/sessionManager.ts, its fields and the parts of its methods
-- up to their awaits. A refresh is named by the number of promises and timers made before it; that
-- name is its promise and its abort controller. Logging and telemetry are left out.
use text.Mathlib.Text.{◌==◌ as str_eq}
use vscode_coder.Base.{
  ℕ, suc, Bool, true, false, ◌&&◌, Option, none, some, List, [], ◌∷◌, ◌++◌, String, without,
  if◌then◌else◌,
}
use vscode_coder.Deployment.Session.{Deployment}
use vscode_coder.Oauth.Tokens.{TokenData, RefreshError}

pub data Task : Type 0 where
  -- scheduleNextRefresh and setDeployment await getStoredTokens; the host that it reads, if any
  scheduling switching : (host : Option String) → Task
  -- setDeployment and attemptRefreshWithRetry await the promise of a refresh, or one that has been
  -- rejected for want of a deployment
  switching_refresh attempting : (refresh : Option ℕ) → Task
  -- executeTokenRefresh awaits getStoredTokens; the metadata and the registration; the response;
  -- and the write of the tokens
  reading connecting posting saving : (refresh : ℕ) → Deployment → Task

-- What `setSessionAuth` was called with, and the refresh that called it.
pub record Saved : Type 0 where
  pub refresh : ℕ
  pub host : String
  pub url : String
  pub token : String
  pub tokens : TokenData

pub record Session : Type 0 where
  pub deployment : Option Deployment
  pub disposed : Bool
  pub refresh_promise : Option ℕ
  pub abort_controller : Option ℕ
  pub refresh_timer : Option ℕ
  -- the host that the token listener is for
  pub token_listener : Option String
  -- the timers that will fire, the refreshes whose signal is aborted, the names given out
  pub armed : List ℕ
  pub aborted : List ℕ
  pub made : ℕ
  pub tasks : List Task
  -- the refreshes that have settled, the newest first; none for success
  pub settled : List (ℕ × Option RefreshError)
  -- the writes to the secret storage, the newest first, and the calls of `onAuthRequired`
  pub saved : List Saved
  pub alerts : ℕ

abbrev pub await : Task → Session → Session
await t s = record s { tasks = s.tasks ++ t ∷ [] }

abbrev abort : Option ℕ → List ℕ → List ℕ
abort none aborted = aborted
abort (some refresh) aborted = refresh ∷ aborted

abbrev disarm : Option ℕ → List ℕ → List ℕ
disarm none armed = armed
disarm (some timer) armed = without armed timer

-- `clearTimeout` on the stored timer
abbrev pub clear_timer : Session → Session
clear_timer s = record s { refresh_timer = none; armed = disarm s.refresh_timer s.armed }

-- `setTimeout`, stored as the timer
abbrev pub set_timer : Session → Session
set_timer s = record s { refresh_timer = some s.made; armed = s.made ∷ s.armed; made = suc s.made }

-- `clearRefreshState`
unfoldable pub clear_refresh_state : Session → Session
clear_refresh_state s = record (clear_timer s) {
  aborted = abort s.abort_controller s.aborted;
  abort_controller = none;
  refresh_promise = none;
  token_listener = none;
}

abbrev pub host_of : Option Deployment → Option String
host_of none = none
host_of (some d) = some d.safe_hostname

-- `setupTokenListener`
unfoldable pub setup_token_listener : Session → Session
setup_token_listener s = record s { token_listener = host_of s.deployment }

-- `scheduleNextRefresh`, up to its read
unfoldable pub schedule_next_refresh : Session → Session
schedule_next_refresh s = await (scheduling (host_of s.deployment)) (clear_timer s)

-- `executeTokenRefresh`, up to its read, and the promise
abbrev start_refresh : Deployment → Session → Session
start_refresh d s =
    await (reading s.made d) (record s {
      refresh_promise = some s.made;
      abort_controller = some s.made;
      made = suc s.made;
    })

-- `refreshToken`: the promise it returns; none is one that is rejected at once
unfoldable pub share_or_start : Option ℕ → Option Deployment → Session → Session × Option ℕ
share_or_start (some refresh) d s = (s, some refresh)
share_or_start none none s = (s, none)
share_or_start none (some d) s = (start_refresh d s, some s.made)

unfoldable pub refresh_token : Session → Session × Option ℕ
refresh_token s = share_or_start s.refresh_promise s.deployment s

-- `attemptRefreshWithRetry`, up to its await
unfoldable pub attempt_refresh : Session → Session
unfolding refresh_token
attempt_refresh s =
    let started = refresh_token (record s { refresh_timer = none }) in
    if s.disposed then s else await (attempting started.1) started.0

abbrev pub is_same : Option Deployment → Deployment → Bool
is_same none d = false
is_same (some c) d = str_eq d.safe_hostname c.safe_hostname && str_eq d.url c.url

-- `setDeployment`, up to its read
unfoldable pub set_deployment : Deployment → Session → Session
unfolding clear_refresh_state
set_deployment d s =
    if is_same s.deployment d
    then s
    else await (switching (some d.safe_hostname))
        (clear_refresh_state (record s { deployment = some d }))

-- `clearDeployment`
unfoldable pub clear_deployment : Session → Session
unfolding clear_refresh_state
clear_deployment s = clear_refresh_state (record s { deployment = none })

-- `dispose`
unfoldable pub dispose : Session → Session
unfolding clear_deployment
dispose s = clear_deployment (record s { disposed = true })

-- `create`
unfoldable pub create : Option Deployment → Session
unfolding setup_token_listener schedule_next_refresh
create d = schedule_next_refresh (
    setup_token_listener (record {
      deployment = d;
      disposed = false;
      refresh_promise = none;
      abort_controller = none;
      refresh_timer = none;
      token_listener = none;
      armed = [];
      aborted = [];
      made = 0;
      tasks = [];
      settled = [];
      saved = [];
      alerts = 0;
    }))
