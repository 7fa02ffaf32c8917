-- ===== src/Oauth/Tests.antt =====
-- Tests and examples for the OAuth session.
use vscode_coder.Base.{
  ℕ, ◌≤◌, ◌+◌, ◌≡◌, ◌<◌, refl, true, none, some, List, [], ◌∷◌, ◌++◌, has, codes, map, get_elem?,
}
use vscode_coder.Deployment.Session.{Deployment}
use vscode_coder.Oauth.Tokens.{
  TokenResponse, TokenData, SessionAuth, found, default_scope_text, has_required_scopes,
  check_stored, usable_refresh_token, get_expiry_timestamp, build_token_data, requires_re_auth,
}
use vscode_coder.Oauth.Tokens.Reading.{written, check_stored-build}
use vscode_coder.Oauth.Session.{
  posting, create, clear_refresh_state, setup_token_listener, schedule_next_refresh, share_or_start,
  refresh_token, attempt_refresh, set_deployment, clear_deployment, dispose,
}
use vscode_coder.Oauth.Events.{
  Event, set_called, clear_called, refresh_called, tokens_changed, timer_fired, task_settled,
  auth_read, reached, responded, done, step, run, finish_refresh, scheduled, end_switch, switched,
  refresh_read, refresh_responded, attempt_failed, attempt_ended, settle, settle_at,
  on_tokens_changed, fire_timer,
}
use vscode_coder.Oauth.Running.{in_flight, one_if_some}
use vscode_coder.Oauth.Flights.{clear_count, create-run-flights}
use vscode_coder.Oauth.Aborted.{saves_by, aborted-saves_nothing, aborted-drops_promise}

abbrev dev : Deployment
dev = record { url = "https://dev"; safe_hostname = "dev" }

abbrev prod : Deployment
prod = record { url = "https://prod"; safe_hostname = "prod" }

abbrev response : TokenResponse
response = record {
  access_token = "a2";
  token_type = "Bearer";
  refresh_token = some "r2";
  scope = none;
  expiry = none;
  expires_in = some 3600;
}

abbrev tokens_until : ℕ → TokenData
tokens_until time = record {
  refresh_token = some "r1";
  scope = codes "workspace:* template:read user:read_personal";
  expiry_timestamp = time;
}

abbrev auth_of : Deployment → ℕ → SessionAuth
auth_of d time = record { url = d.url; token = "a1"; oauth = some (tokens_until time) }

-- A refresh for "dev" is under way; both deployments' switches have not read yet.
abbrev old_refresh : List Event
old_refresh =
    refresh_called
    ∷ task_settled 0 1 (auth_read (some (auth_of dev 0)))
    ∷ task_settled 0 1 reached
    ∷ []

-- The user switches to "prod", whose refresh is started, and then the old refresh ends.
abbrev switch : List Event
switch = set_called prod ∷ refresh_called ∷ task_settled 0 1 (responded response) ∷ []

-- Now a second refresh for "prod" starts beside the first one.
two_refreshes :
    in_flight (run (create (some dev)) (old_refresh ++ switch ++ refresh_called ∷ [])).tasks ≡ 2
unfolding has_required_scopes check_stored usable_refresh_token get_expiry_timestamp
    build_token_data requires_re_auth clear_refresh_state setup_token_listener schedule_next_refresh
    share_or_start refresh_token attempt_refresh set_deployment clear_deployment dispose create
    finish_refresh scheduled end_switch switched refresh_read refresh_responded attempt_failed
    attempt_ended settle settle_at on_tokens_changed fire_timer step run
two_refreshes = refl

-- Clearing the deployment then aborts the newer one only, and the other one still writes its tokens.
abbrev after_clear : List Event
after_clear =
    task_settled 0 2 (auth_read (some (auth_of prod 0)))
    ∷ task_settled 0 3 reached
    ∷ clear_called
    ∷ task_settled 0 3 (responded response)
    ∷ []

saved_after_clear :
    map
      (λ w. w.host)
      (run (create (some dev)) (old_refresh ++ switch ++ refresh_called ∷ after_clear)).saved
    ≡ "prod" ∷ []
unfolding has_required_scopes check_stored usable_refresh_token get_expiry_timestamp
    build_token_data requires_re_auth clear_refresh_state setup_token_listener schedule_next_refresh
    share_or_start refresh_token attempt_refresh set_deployment clear_deployment dispose create
    finish_refresh scheduled end_switch switched refresh_read refresh_responded attempt_failed
    attempt_ended settle settle_at on_tokens_changed fire_timer step run
saved_after_clear = refl

-- Two schedules that overlap: the first timer is lost, and stays armed when the deployment is cleared.
abbrev two_schedules : List Event
two_schedules =
    tokens_changed true
    ∷ task_settled 0 0 (auth_read (some (auth_of dev 9000000)))
    ∷ task_settled 0 0 (auth_read (some (auth_of dev 9000000)))
    ∷ clear_called
    ∷ []

lost_timer : (run (create (some dev)) two_schedules).armed ≡ 0 ∷ []
unfolding has_required_scopes check_stored usable_refresh_token get_expiry_timestamp
    build_token_data requires_re_auth clear_refresh_state setup_token_listener schedule_next_refresh
    share_or_start refresh_token attempt_refresh set_deployment clear_deployment dispose create
    finish_refresh scheduled end_switch switched refresh_read refresh_responded attempt_failed
    attempt_ended settle settle_at on_tokens_changed fire_timer step run
lost_timer = refl

-- It fires, finds no deployment, and arms a timer again.
timer_again :
    (run (create (some dev)) (two_schedules ++ timer_fired 0 ∷ task_settled 0 0 done ∷ [])).armed
    ≡ 2 ∷ []
unfolding has_required_scopes check_stored usable_refresh_token get_expiry_timestamp
    build_token_data requires_re_auth clear_refresh_state setup_token_listener schedule_next_refresh
    share_or_start refresh_token attempt_refresh set_deployment clear_deployment dispose create
    finish_refresh scheduled end_switch switched refresh_read refresh_responded attempt_failed
    attempt_ended settle settle_at on_tokens_changed fire_timer step run
timer_again = refl

create-run-flights_example :
    in_flight (run (create (some dev)) (old_refresh ++ switch ++ refresh_called ∷ [])).tasks
    ≤ one_if_some
        (run (create (some dev)) (old_refresh ++ switch ++ refresh_called ∷ [])).refresh_promise
      + clear_count (old_refresh ++ switch ++ refresh_called ∷ [])
create-run-flights_example =
    create-run-flights (some dev) (old_refresh ++ switch ++ refresh_called ∷ [])

abbrev switched_early : List Event
switched_early = old_refresh ++ set_called prod ∷ refresh_called ∷ []

old_is_aborted : has (run (create (some dev)) switched_early).aborted 0 ≡ true
unfolding has_required_scopes check_stored usable_refresh_token get_expiry_timestamp
    build_token_data requires_re_auth clear_refresh_state setup_token_listener schedule_next_refresh
    share_or_start refresh_token attempt_refresh set_deployment clear_deployment dispose create
    finish_refresh scheduled end_switch switched refresh_read refresh_responded attempt_failed
    attempt_ended settle settle_at on_tokens_changed fire_timer step run
old_is_aborted = refl

aborted-saves_nothing_example :
    saves_by 0
      (run
        (run (create (some dev)) switched_early)
        (task_settled 0 1 (responded response) ∷ [])).saved
    ≡ saves_by 0 (run (create (some dev)) switched_early).saved
aborted-saves_nothing_example =
    aborted-saves_nothing 0 (task_settled 0 1 (responded response) ∷ [])
      (run (create (some dev)) switched_early) old_is_aborted

old_is_posting : get_elem? (run (create (some dev)) switched_early).tasks 1 ≡ some (posting 0 dev)
unfolding has_required_scopes check_stored usable_refresh_token get_expiry_timestamp
    build_token_data requires_re_auth clear_refresh_state setup_token_listener schedule_next_refresh
    share_or_start refresh_token attempt_refresh set_deployment clear_deployment dispose create
    finish_refresh scheduled end_switch switched refresh_read refresh_responded attempt_failed
    attempt_ended settle settle_at on_tokens_changed fire_timer step run
old_is_posting = refl

prod_is_set : (run (create (some dev)) switched_early).deployment ≡ some prod
unfolding has_required_scopes check_stored usable_refresh_token get_expiry_timestamp
    build_token_data requires_re_auth clear_refresh_state setup_token_listener schedule_next_refresh
    share_or_start refresh_token attempt_refresh set_deployment clear_deployment dispose create
    finish_refresh scheduled end_switch switched refresh_read refresh_responded attempt_failed
    attempt_ended settle settle_at on_tokens_changed fire_timer step run
prod_is_set = refl

aborted-drops_promise_example :
    (refresh_token
      (step (task_settled 0 1 (responded response)) (run (create (some dev)) switched_early))).1
    ≡ some (run (create (some dev)) switched_early).made
aborted-drops_promise_example =
    aborted-drops_promise 0 1 0 dev prod response (run (create (some dev)) switched_early)
      old_is_posting old_is_aborted prod_is_set

built :
    build_token_data 5 response
    ≡ some (record {
      refresh_token = some "r2";
      scope = default_scope_text;
      expiry_timestamp = 3600005;
    })
unfolding has_required_scopes check_stored usable_refresh_token get_expiry_timestamp
    build_token_data requires_re_auth clear_refresh_state setup_token_listener schedule_next_refresh
    share_or_start refresh_token attempt_refresh set_deployment clear_deployment dispose create
    finish_refresh scheduled end_switch switched refresh_read refresh_responded attempt_failed
    attempt_ended settle settle_at on_tokens_changed fire_timer step run
built = refl

check_stored-build_example :
    (check_stored
        (some (
          written dev response (record {
            refresh_token = some "r2";
            scope = default_scope_text;
            expiry_timestamp = 3600005;
          })))
        (some dev)
      ≡ found
          (record { access_token = "a2"; refresh_token = some "r2"; expiry_timestamp = 3600005 }))
    × (5 < 3600005)
check_stored-build_example =
    check_stored-build 5 dev response
      (record { refresh_token = some "r2"; scope = default_scope_text; expiry_timestamp = 3600005 })
      refl built
