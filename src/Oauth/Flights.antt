-- ===== src/Oauth/Flights.antt =====
-- How many refreshes of oauth/sessionManager.ts run at a time.
use vscode_coder.Base.{
  ℕ, suc, ◌+◌, ◌≤◌, refl, true, false, Option, none, some, List, [], ◌∷◌, String, arith,
}
use vscode_coder.Deployment.Session.{Deployment}
use vscode_coder.Oauth.Session.{
  switching, Session, clear_refresh_state, setup_token_listener, schedule_next_refresh,
  set_deployment, clear_deployment, dispose, create,
}
use vscode_coder.Oauth.Events.{
  Event, set_called, clear_called, dispose_called, refresh_called, tokens_changed, timer_fired,
  task_settled, on_tokens_changed, step, run,
}
use vscode_coder.Oauth.Running.{
  one_if_some, in_flight, Within, await-Within, refresh_token-Within, settle_at-Within,
  fire_timer-Within, on_tokens_changed-Within,
}

-- The events that may drop the shared promise while its refresh still runs.
abbrev pub clears : Event → ℕ
clears (set_called d) = 1
clears clear_called = 1
clears dispose_called = 1
clears refresh_called = 0
clears (tokens_changed true) = 0
clears (tokens_changed false) = 1
clears (timer_fired t) = 0
clears (task_settled now i o) = 0

abbrev pub clear_count : List Event → ℕ
clear_count [] = 0
clear_count (e ∷ es) = clears e + clear_count es

-- dropping the promise counts as one event more
clear_refresh_state-Within :
    (n : ℕ) (s : Session) → Within 0 n s → Within 0 (suc n) (clear_refresh_state s)
unfolding clear_refresh_state
clear_refresh_state-Within n s w = ground arith

on_tokens_cleared-Within :
    (n : ℕ) (host : Option String) (s : Session)
    → Within 0 n s
    → Within 0 (suc n) (on_tokens_changed false host s)
unfolding on_tokens_changed
on_tokens_cleared-Within n none s w = ground arith
on_tokens_cleared-Within n (some host) s w = clear_refresh_state-Within n s w

set_deployment-Within :
    (n : ℕ) (d : Deployment) (s : Session) → Within 0 n s → Within 0 (suc n) (set_deployment d s)
unfolding set_deployment
set_deployment-Within n d s w =
    let v : Within 0 n (record s { deployment = some d }) = ground arith in
    ground (
      arith,
      await-Within (suc n) (switching (some d.safe_hostname)) (clear_refresh_state-Within n _ v),
    )

more-Within : (n m : ℕ) (s : Session) → n ≤ m → Within 0 n s → Within 0 m s
more-Within n m s h w = ground arith

step-Within : (n : ℕ) (e : Event) (s : Session) → Within 0 n s → Within 0 (clears e + n) (step e s)
unfolding step clear_deployment dispose
step-Within n (set_called d) s w =
    more-Within (suc n) _ _ (omega arith) (set_deployment-Within n d s w)
step-Within n clear_called s w =
    more-Within (suc n) _ _ (omega arith)
      (clear_refresh_state-Within n (record s { deployment = none }) (ground arith))
step-Within n dispose_called s w =
    more-Within (suc n) _ _ (omega arith) (
      clear_refresh_state-Within n (record s { disposed = true; deployment = none }) (ground arith))
step-Within n refresh_called s w = more-Within n _ _ (omega arith) (refresh_token-Within n s w)
step-Within n (tokens_changed true) s w =
    more-Within n _ _ (omega arith) (on_tokens_changed-Within n s.token_listener s w)
step-Within n (tokens_changed false) s w =
    more-Within (suc n) _ _ (omega arith) (on_tokens_cleared-Within n s.token_listener s w)
step-Within n (timer_fired t) s w = more-Within n _ _ (omega arith) (fire_timer-Within n t s w)
step-Within n (task_settled now i o) s w =
    more-Within n _ _ (omega arith) (settle_at-Within n now i o _ s refl w)

run-Within :
    (n : ℕ) (es : List Event) (s : Session)
    → Within 0 n s
    → Within 0 (clear_count es + n) (run s es)
unfolding run
run-Within n [] s w = more-Within n _ s (omega arith) w
run-Within n (e ∷ es) s w =
    more-Within (clear_count es + (clears e + n)) _ _ (omega arith)
      (run-Within (clears e + n) es (step e s) (step-Within n e s w))

create-Within : (d : Option Deployment) → Within 0 0 (create d)
unfolding create schedule_next_refresh setup_token_listener
create-Within d = ground arith

-- However calls, token changes, timers and the awaits follow each other: there are at most as many
-- refreshes running as the shared promise stands for, one or none, and one more for each event that
-- clears the refresh state. So without such an event there is one at most, and while it runs there is
-- a promise for callers to share.
pub create-run-flights :
    (d : Option Deployment) (es : List Event)
    → let s = run (create d) es in
      in_flight s.tasks ≤ one_if_some s.refresh_promise + clear_count es
create-run-flights d es = ground (arith, run-Within 0 es _ (create-Within d))
