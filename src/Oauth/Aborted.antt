-- ===== src/Oauth/Aborted.antt =====
-- What a refresh of oauth/sessionManager.ts does once it is aborted.
use vscode_coder.Base.{
  ℕ, suc, ◌≡◌, refl, true, Option, none, some, List, [], ◌∷◌, ◌==◌, has, get_elem?, without, arith,
  if◌then◌else◌,
}
use vscode_coder.Deployment.Session.{Deployment}
use vscode_coder.Oauth.Tokens.{Stored, missing, threw, found, TokenResponse, RefreshError}
use vscode_coder.Oauth.Session.{
  Task, scheduling, switching, switching_refresh, attempting, reading, connecting, posting, saving,
  Saved, Session, await, clear_refresh_state, setup_token_listener, schedule_next_refresh,
  refresh_token, share_or_start, attempt_refresh, set_deployment, clear_deployment, dispose,
}
use vscode_coder.Oauth.Events.{
  Outcome, auth_read, reached, done, responded, failed, finish_refresh, scheduled, end_switch,
  switched, refresh_read, refresh_responded, attempt_failed, attempt_ended, settle, Event,
  set_called, clear_called, dispose_called, refresh_called, tokens_changed, timer_fired,
  task_settled, settle_at, keep, attempt_resumed, switch_resumed, on_tokens_changed, fire_timer,
  step, run,
}

-- How often a refresh has written tokens to the secret storage.
abbrev pub saves_by : ℕ → List Saved → ℕ
saves_by r [] = 0
saves_by r (w ∷ ws) = let older = saves_by r ws in if w.refresh == r then suc older else older

-- The refresh is aborted, and has written so often.
record Silent (r n : ℕ) (s : Session) : Type 0 where
  is_aborted : has s.aborted r ≡ true
  saves : saves_by r s.saved ≡ n

module _ (r n : ℕ) where
  refresh_token-Silent : (s : Session) → Silent r n s → Silent r n (refresh_token s).0
  unfolding refresh_token share_or_start
  refresh_token-Silent s v = ground arith

  schedule_next_refresh-Silent : (s : Session) → Silent r n s → Silent r n (schedule_next_refresh s)
  unfolding schedule_next_refresh
  schedule_next_refresh-Silent s v = ground arith

  attempt_refresh-Silent : (s : Session) → Silent r n s → Silent r n (attempt_refresh s)
  unfolding attempt_refresh refresh_token share_or_start
  attempt_refresh-Silent s v = ground arith

  end_switch-Silent : (s : Session) → Silent r n s → Silent r n (end_switch s)
  unfolding end_switch setup_token_listener schedule_next_refresh
  end_switch-Silent s v = ground arith

  scheduled-Silent :
      (now : ℕ) (t : Stored) (s : Session) → Silent r n s → Silent r n (scheduled now t s)
  unfolding scheduled
  scheduled-Silent now missing s v = v
  scheduled-Silent now threw s v = v
  scheduled-Silent now (found t) s v = ground (arith, attempt_refresh-Silent s v)

  switched-Silent :
      (now : ℕ) (t : Stored) (s : Session) → Silent r n s → Silent r n (switched now t s)
  unfolding switched
  switched-Silent now missing s v = end_switch-Silent s v
  switched-Silent now threw s v = v
  switched-Silent now (found t) s v =
      ground (arith, end_switch-Silent s v, refresh_token-Silent s v)

  refresh_read-Silent :
      (refresh : ℕ) (d : Deployment) (t : Stored) (s : Session)
      → Silent r n s
      → Silent r n (refresh_read refresh d t s)
  unfolding refresh_read finish_refresh
  refresh_read-Silent refresh d t s v = ground arith

  refresh_responded-Silent :
      (now refresh : ℕ) (d : Deployment) (response : TokenResponse) (s : Session)
      → Silent r n s
      → Silent r n (refresh_responded now refresh d response s)
  unfolding refresh_responded finish_refresh
  refresh_responded-Silent now refresh d response s v = ground arith

  finish_refresh-Silent :
      (refresh : ℕ) (result : Option RefreshError) (s : Session)
      → Silent r n s
      → Silent r n (finish_refresh refresh result s)
  unfolding finish_refresh
  finish_refresh-Silent refresh result s v = ground arith

  await-Silent : (t : Task) (s : Session) → Silent r n s → Silent r n (await t s)
  await-Silent t s v = ground arith

  attempt_ended-Silent :
      (result : Option RefreshError) (s : Session)
      → Silent r n s
      → Silent r n (attempt_ended result s)
  unfolding attempt_ended attempt_failed
  attempt_ended-Silent result s v = ground arith

  -- what a task may leave, if it can end so
  abbrev Kept : Option Session → Type 0
  Kept none = Unit
  Kept (some s) = Silent r n s

  switch_resumed-Silent :
      (result : Option (Option RefreshError)) (s : Session)
      → Silent r n s
      → Kept (switch_resumed result s)
  switch_resumed-Silent none s v = tt
  switch_resumed-Silent (some result) s v = end_switch-Silent s v

  attempt_resumed-Silent :
      (result : Option (Option RefreshError)) (s : Session)
      → Silent r n s
      → Kept (attempt_resumed result s)
  attempt_resumed-Silent none s v = tt
  attempt_resumed-Silent (some result) s v = attempt_ended-Silent result s v

  settle-Silent :
      (now : ℕ) (t : Task) (o : Outcome) (s : Session) → Silent r n s → Kept (settle now t o s)
  unfolding settle
  settle-Silent now (scheduling a) (auth_read x) s v = scheduled-Silent now _ s v
  settle-Silent now (scheduling a) (failed e) s v = v
  settle-Silent now (switching a) (auth_read x) s v = switched-Silent now _ s v
  settle-Silent now (switching a) (failed e) s v = v
  settle-Silent now (switching_refresh a) done s v = switch_resumed-Silent _ s v
  settle-Silent now (attempting a) done s v = attempt_resumed-Silent _ s v
  settle-Silent now (reading q d) (auth_read x) s v = refresh_read-Silent _ _ _ s v
  settle-Silent now (reading q d) (failed e) s v = finish_refresh-Silent _ _ s v
  settle-Silent now (connecting q d) reached s v = await-Silent _ s v
  settle-Silent now (connecting q d) (failed e) s v = finish_refresh-Silent _ _ s v
  settle-Silent now (posting q d) (responded x) s v = refresh_responded-Silent now _ _ _ s v
  settle-Silent now (posting q d) (failed e) s v = finish_refresh-Silent _ _ s v
  settle-Silent now (saving q d) done s v = finish_refresh-Silent _ _ s v
  settle-Silent now (saving q d) (failed e) s v = finish_refresh-Silent _ _ s v
  settle-Silent now _ _ s v = tt

  keep-Silent : (s : Session) (o : Option Session) → Silent r n s → Kept o → Silent r n (keep s o)
  keep-Silent s none v k = v
  keep-Silent s (some t) v k = k

  settle_at-Silent :
      (now i : ℕ) (o : Outcome) (t : Option Task) (s : Session)
      → Silent r n s
      → Silent r n (settle_at now i o t s)
  unfolding settle_at
  settle_at-Silent now i o none s v = v
  settle_at-Silent now i o (some t) s v = keep-Silent s _ v (settle-Silent now t o _ (ground arith))

  fire_timer-Silent : (timer : ℕ) (s : Session) → Silent r n s → Silent r n (fire_timer timer s)
  unfolding fire_timer
  fire_timer-Silent timer s v =
      let fired : Silent r n (record s { armed = without s.armed timer }) = ground arith in
      ground (arith, attempt_refresh-Silent (record s { armed = without s.armed timer }) fired)

  clear_refresh_state-Silent : (s : Session) → Silent r n s → Silent r n (clear_refresh_state s)
  unfolding clear_refresh_state
  clear_refresh_state-Silent s v = ground arith

  set_deployment-Silent :
      (d : Deployment) (s : Session) → Silent r n s → Silent r n (set_deployment d s)
  unfolding set_deployment clear_refresh_state
  set_deployment-Silent d s v = ground arith

  step-Silent : (e : Event) (s : Session) → Silent r n s → Silent r n (step e s)
  unfolding step on_tokens_changed clear_deployment dispose
  step-Silent (set_called d) s v = set_deployment-Silent d s v
  step-Silent clear_called s v =
      clear_refresh_state-Silent (record s { deployment = none }) (ground arith)
  step-Silent dispose_called s v =
      clear_refresh_state-Silent (record s { disposed = true; deployment = none }) (ground arith)
  step-Silent refresh_called s v = refresh_token-Silent s v
  step-Silent (tokens_changed has_oauth) s v =
      ground (arith, schedule_next_refresh-Silent s v, clear_refresh_state-Silent s v)
  step-Silent (timer_fired t) s v = fire_timer-Silent t s v
  step-Silent (task_settled now i o) s v = settle_at-Silent now i o _ s v

  run-Silent : (es : List Event) (s : Session) → Silent r n s → Silent r n (run s es)
  unfolding run
  run-Silent [] s v = v
  run-Silent (e ∷ es) s v = run-Silent es (step e s) (step-Silent e s v)

-- Once a refresh is aborted, whatever happens next, in any order: it writes no tokens any more.
pub aborted-saves_nothing :
    (r : ℕ) (es : List Event) (s : Session)
    → has s.aborted r ≡ true
    → saves_by r (run s es).saved ≡ saves_by r s.saved
aborted-saves_nothing r es s h =
    (run-Silent r _ es s (record { is_aborted = h; saves = refl })).saves

-- When the response of an aborted refresh comes, with a deployment set: the shared promise is given
-- up, even that of a newer refresh that still runs, and the next caller starts another refresh.
pub aborted-drops_promise :
    (now i r : ℕ) (d current : Deployment) (response : TokenResponse) (s : Session)
    → get_elem? s.tasks i ≡ some (posting r d)
    → has s.aborted r ≡ true
    → s.deployment ≡ some current
    → (refresh_token (step (task_settled now i (responded response)) s)).1 ≡ some s.made
unfolding step settle_at settle refresh_responded finish_refresh refresh_token share_or_start
aborted-drops_promise now i r d current response s at_i gone set = rw at_i (ground arith)
