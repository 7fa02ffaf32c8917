-- ===== src/Oauth/Events.antt =====
-- What resumes the OAuth session manager of oauth/sessionManager.ts: calls, the token listener, timers
-- and the awaits that settle, in any order.
use vscode_coder.Base.{
  ℕ, suc, ◌+◌, Bool, true, false, ◌&&◌, Option, none, some, List, [], ◌∷◌, String, ◌==◌, leb, has,
  without, get_elem?, remove_at, is_some, if◌then◌else◌,
}
use vscode_coder.Deployment.Session.{Deployment}
use vscode_coder.Oauth.Tokens.{
  TokenData, SessionAuth, Stored, missing, threw, found, check_stored, usable_refresh_token,
  TokenResponse, build_token_data, RefreshError, other_error, requires_re_auth,
}
use vscode_coder.Oauth.Session.{
  Task, scheduling, switching, switching_refresh, attempting, reading, connecting, posting, saving,
  Session, await, set_timer, clear_refresh_state, setup_token_listener, schedule_next_refresh,
  refresh_token, attempt_refresh, set_deployment, clear_deployment, dispose,
}

-- How an await ends.
pub data Outcome : Type 0 where
  auth_read : Option SessionAuth → Outcome
  reached done : Outcome
  responded : TokenResponse → Outcome
  failed : RefreshError → Outcome

-- `TOKEN_REFRESH_THRESHOLD_MS`
abbrev pub threshold_ms : ℕ
threshold_ms = 600000

abbrev pub is_held : Option ℕ → ℕ → Bool
is_held none refresh = false
is_held (some held) refresh = held == refresh

-- the end of `executeTokenRefresh`: its `finally`, and how its promise settles
unfoldable pub finish_refresh : ℕ → Option RefreshError → Session → Session
finish_refresh refresh result s = record s {
  abort_controller = if is_held s.abort_controller refresh then none else s.abort_controller;
  refresh_promise = none;
  settled = (refresh, result) ∷ s.settled;
}

-- the `then` of `scheduleNextRefresh`
unfoldable pub scheduled : (now : ℕ) → Stored → Session → Session
scheduled now missing s = s
scheduled now threw s = s
scheduled now (found t) s =
    if is_some (usable_refresh_token t)
    then (if leb t.expiry_timestamp (now + threshold_ms) then attempt_refresh s else set_timer s)
    else s

-- the end of `setDeployment`
unfoldable pub end_switch : Session → Session
end_switch s = schedule_next_refresh (setup_token_listener s)

-- `setDeployment` once it has read
unfoldable pub switched : (now : ℕ) → Stored → Session → Session
unfolding refresh_token
switched now missing s = end_switch s
switched now threw s = s
switched now (found t) s =
    let started = refresh_token s in
    if leb t.expiry_timestamp now
    then await (switching_refresh started.1) started.0
    else end_switch s

-- `executeTokenRefresh` once it has read: `withOAuthOperation` wants a deployment
unfoldable pub refresh_read : ℕ → Deployment → Stored → Session → Session
refresh_read refresh d missing s = finish_refresh refresh (some other_error) s
refresh_read refresh d threw s = finish_refresh refresh (some other_error) s
refresh_read refresh d (found t) s =
    if is_some (usable_refresh_token t) && is_some s.deployment
    then await (connecting refresh d) s
    else finish_refresh refresh (some other_error) s

abbrev pub save : ℕ → Deployment → TokenResponse → TokenData → Session → Session
save refresh d r tokens s = await (saving refresh d) (record s {
  saved =
      record {
        refresh = refresh;
        host = d.safe_hostname;
        url = d.url;
        token = r.access_token;
        tokens = tokens;
      }
      ∷ s.saved;
})

-- `executeTokenRefresh` once it has the response
unfoldable pub refresh_responded :
    (now refresh : ℕ) → Deployment → TokenResponse → Session → Session
refresh_responded now refresh d r s =
    if has s.aborted refresh
    then finish_refresh refresh (some other_error) s
    else elim (build_token_data now r) [
      | none ↦ finish_refresh refresh (some other_error) s
      | some tokens ↦ save refresh d r tokens s
    ]

-- the `catch` of `attemptRefreshWithRetry`
unfoldable pub attempt_failed : RefreshError → Session → Session
attempt_failed e s =
    if s.disposed
    then s
    else (if requires_re_auth e then record s { alerts = suc s.alerts } else set_timer s)

unfoldable pub attempt_ended : Option RefreshError → Session → Session
attempt_ended none s = s
attempt_ended (some e) s = attempt_failed e s

abbrev pub result_of : List (ℕ × Option RefreshError) → ℕ → Option (Option RefreshError)
result_of [] refresh = none
result_of ((r, result) ∷ rest) refresh =
    let older = result_of rest refresh in if r == refresh then some result else older

-- how the promise of a refresh has settled, if it has; one that was rejected at once has
abbrev pub promise_result : Option ℕ → Session → Option (Option RefreshError)
promise_result none s = some (some other_error)
promise_result (some refresh) s = result_of s.settled refresh

abbrev pub attempt_resumed : Option (Option RefreshError) → Session → Option Session
attempt_resumed none s = none
attempt_resumed (some result) s = some (attempt_ended result s)

abbrev pub switch_resumed : Option (Option RefreshError) → Session → Option Session
switch_resumed none s = none
switch_resumed (some result) s = some (end_switch s)

abbrev pub read_for : Option String → Option SessionAuth → Option Deployment → Stored
read_for none auth d = missing
read_for (some host) auth d = check_stored auth d

-- A task that has been taken off the list, with how its await ends; none where it cannot end so.
unfoldable pub settle : (now : ℕ) → Task → Outcome → Session → Option Session
settle now (scheduling host) (auth_read auth) s =
    some (scheduled now (read_for host auth s.deployment) s)
settle now (scheduling host) (failed e) s = some s
settle now (switching host) (auth_read auth) s =
    some (switched now (read_for host auth s.deployment) s)
settle now (switching host) (failed e) s = some s
settle now (switching_refresh refresh) done s = switch_resumed (promise_result refresh s) s
settle now (attempting refresh) done s = attempt_resumed (promise_result refresh s) s
settle now (reading refresh d) (auth_read auth) s =
    some (refresh_read refresh d (check_stored auth s.deployment) s)
settle now (reading refresh d) (failed e) s = some (finish_refresh refresh (some e) s)
settle now (connecting refresh d) reached s = some (await (posting refresh d) s)
settle now (connecting refresh d) (failed e) s = some (finish_refresh refresh (some e) s)
settle now (posting refresh d) (responded r) s = some (refresh_responded now refresh d r s)
settle now (posting refresh d) (failed e) s = some (finish_refresh refresh (some e) s)
settle now (saving refresh d) done s = some (finish_refresh refresh none s)
settle now (saving refresh d) (failed e) s = some (finish_refresh refresh (some e) s)
settle now _ _ s = none

pub data Event : Type 0 where
  set_called : Deployment → Event
  clear_called dispose_called refresh_called : Event
  -- the stored session of the listener's host has changed: whether it has OAuth tokens
  tokens_changed : (has_oauth : Bool) → Event
  timer_fired : (timer : ℕ) → Event
  task_settled : (now i : ℕ) → Outcome → Event

abbrev pub keep : Session → Option Session → Session
keep s none = s
keep s (some t) = t

unfoldable pub settle_at : (now i : ℕ) → Outcome → Option Task → Session → Session
settle_at now i outcome none s = s
settle_at now i outcome (some task) s =
    keep s (settle now task outcome (record s { tasks = remove_at s.tasks i }))

-- the token listener
unfoldable pub on_tokens_changed : Bool → Option String → Session → Session
on_tokens_changed has_oauth none s = s
on_tokens_changed true (some host) s = schedule_next_refresh s
on_tokens_changed false (some host) s = clear_refresh_state s

-- a timer that is armed
unfoldable pub fire_timer : ℕ → Session → Session
fire_timer timer s =
    if has s.armed timer then attempt_refresh (record s { armed = without s.armed timer }) else s

unfoldable pub step : Event → Session → Session
step (set_called d) s = set_deployment d s
step clear_called s = clear_deployment s
step dispose_called s = dispose s
step refresh_called s = (refresh_token s).0
step (tokens_changed has_oauth) s = on_tokens_changed has_oauth s.token_listener s
step (timer_fired timer) s = fire_timer timer s
step (task_settled now i outcome) s = settle_at now i outcome (get_elem? s.tasks i) s

unfoldable pub run : Session → List Event → Session
run s [] = s
run s (e ∷ es) = run (step e s) es
