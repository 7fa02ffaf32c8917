-- ===== src/Oauth/Running.antt =====
-- The refreshes of oauth/sessionManager.ts that run, after each method and each await that settles.
use vscode_coder.Base.{
  ℕ, ◌+◌, ◌≤◌, ◌≡◌, refl, true, Option, none, some, List, String, get_elem?, total, total-append,
  total-remove_at, without, arith,
}
use vscode_coder.Deployment.Session.{Deployment}
use vscode_coder.Oauth.Tokens.{Stored, missing, threw, found, TokenResponse, RefreshError}
use vscode_coder.Oauth.Session.{
  Task, scheduling, switching, switching_refresh, attempting, reading, connecting, posting, saving,
  Session, await, setup_token_listener, schedule_next_refresh, refresh_token, share_or_start,
  attempt_refresh,
}
use vscode_coder.Oauth.Events.{
  Outcome, auth_read, reached, done, responded, failed, finish_refresh, scheduled, end_switch,
  switched, refresh_read, refresh_responded, attempt_failed, attempt_ended, settle, settle_at, keep,
  attempt_resumed, switch_resumed, on_tokens_changed, fire_timer,
}

abbrev pub one_if_some : Option ℕ → ℕ
one_if_some none = 0
one_if_some (some a) = 1

abbrev pub is_refresh : Task → ℕ
is_refresh (scheduling host) = 0
is_refresh (switching host) = 0
is_refresh (switching_refresh r) = 0
is_refresh (attempting r) = 0
is_refresh (reading r d) = 1
is_refresh (connecting r d) = 1
is_refresh (posting r d) = 1
is_refresh (saving r d) = 1

-- The number of refreshes that run.
abbrev pub in_flight : List Task → ℕ
in_flight = total is_refresh

-- `extra` counts a refresh whose task has been taken off the list.
pub record Within (extra n : ℕ) (s : Session) : Type 0 where
  pub bound : in_flight s.tasks + extra ≤ one_if_some s.refresh_promise + n

pub await-Within :
    (n : ℕ) (t : Task) {s : Session} → Within (is_refresh t) n s → Within 0 n (await t s)
await-Within n t {s} w = ground (arith, total-append is_refresh s.tasks t)

module _ (n : ℕ) where
  share_or_start-Within :
      (promise : Option ℕ) (d : Option Deployment) (s : Session)
      → s.refresh_promise ≡ promise
      → Within 0 n s
      → Within 0 n (share_or_start promise d s).0
  unfolding share_or_start
  share_or_start-Within (some refresh) d s h w = w
  share_or_start-Within none none s h w = w
  share_or_start-Within none (some d) s h w = await-Within n _ (ground arith)

  pub refresh_token-Within : (s : Session) → Within 0 n s → Within 0 n (refresh_token s).0
  unfolding refresh_token
  refresh_token-Within s w = share_or_start-Within _ _ s refl w

  schedule_next_refresh-Within : (s : Session) → Within 0 n s → Within 0 n (schedule_next_refresh s)
  unfolding schedule_next_refresh
  schedule_next_refresh-Within s w = await-Within n _ (ground arith)

  attempt_refresh-Within : (s : Session) → Within 0 n s → Within 0 n (attempt_refresh s)
  unfolding attempt_refresh
  attempt_refresh-Within s w =
      let v : Within 0 n (record s { refresh_timer = none }) = ground arith in
      ground (
        arith,
        await-Within n (attempting (refresh_token (record s { refresh_timer = none })).1)
            (refresh_token-Within _ v),
      )

  finish_refresh-Within :
      (refresh : ℕ) (result : Option RefreshError) (s : Session)
      → Within 1 n s
      → Within 0 n (finish_refresh refresh result s)
  unfolding finish_refresh
  finish_refresh-Within refresh result s w = ground arith

  end_switch-Within : (s : Session) → Within 0 n s → Within 0 n (end_switch s)
  unfolding end_switch setup_token_listener
  end_switch-Within s w = schedule_next_refresh-Within _ (ground arith)

  scheduled-Within :
      (now : ℕ) (t : Stored) (s : Session) → Within 0 n s → Within 0 n (scheduled now t s)
  unfolding scheduled
  scheduled-Within now missing s w = w
  scheduled-Within now threw s w = w
  scheduled-Within now (found t) s w = ground (arith, attempt_refresh-Within s w)

  switched-Within :
      (now : ℕ) (t : Stored) (s : Session) → Within 0 n s → Within 0 n (switched now t s)
  unfolding switched
  switched-Within now missing s w = end_switch-Within s w
  switched-Within now threw s w = w
  switched-Within now (found t) s w = ground (
    arith,
    end_switch-Within s w,
    await-Within n (switching_refresh (refresh_token s).1) (refresh_token-Within s w),
  )

  refresh_read-Within :
      (refresh : ℕ) (d : Deployment) (t : Stored) (s : Session)
      → Within 1 n s
      → Within 0 n (refresh_read refresh d t s)
  unfolding refresh_read
  refresh_read-Within refresh d missing s w = finish_refresh-Within refresh _ s w
  refresh_read-Within refresh d threw s w = finish_refresh-Within refresh _ s w
  refresh_read-Within refresh d (found t) s w = ground (
    arith,
    await-Within n (connecting refresh d) w,
    finish_refresh-Within refresh (some RefreshError.other_error) s w,
  )

  refresh_responded-Within :
      (now refresh : ℕ) (d : Deployment) (r : TokenResponse) (s : Session)
      → Within 1 n s
      → Within 0 n (refresh_responded now refresh d r s)
  unfolding refresh_responded
  refresh_responded-Within now refresh d r s w = ground (
    arith,
    finish_refresh-Within refresh (some RefreshError.other_error) s w,
    total-append is_refresh s.tasks (saving refresh d),
  )

  attempt_ended-Within :
      (result : Option RefreshError) (s : Session)
      → Within 0 n s
      → Within 0 n (attempt_ended result s)
  unfolding attempt_ended attempt_failed
  attempt_ended-Within result s w = ground arith

  -- what a task may leave, if it can end so
  abbrev Settled : Option Session → Type 0
  Settled none = Unit
  Settled (some s) = Within 0 n s

  switch_resumed-Within :
      (result : Option (Option RefreshError)) (s : Session)
      → Within 0 n s
      → Settled (switch_resumed result s)
  switch_resumed-Within none s w = tt
  switch_resumed-Within (some result) s w = end_switch-Within s w

  attempt_resumed-Within :
      (result : Option (Option RefreshError)) (s : Session)
      → Within 0 n s
      → Settled (attempt_resumed result s)
  attempt_resumed-Within none s w = tt
  attempt_resumed-Within (some result) s w = attempt_ended-Within result s w

  settle-Within :
      (now : ℕ) (t : Task) (o : Outcome) (s : Session)
      → Within (is_refresh t) n s
      → Settled (settle now t o s)
  unfolding settle
  settle-Within now (scheduling a) (auth_read x) s w = scheduled-Within now _ s w
  settle-Within now (scheduling a) (failed e) s w = w
  settle-Within now (switching a) (auth_read x) s w = switched-Within now _ s w
  settle-Within now (switching a) (failed e) s w = w
  settle-Within now (switching_refresh a) done s w = switch_resumed-Within _ s w
  settle-Within now (attempting a) done s w = attempt_resumed-Within _ s w
  settle-Within now (reading r d) (auth_read x) s w = refresh_read-Within _ _ _ s w
  settle-Within now (reading r d) (failed e) s w = finish_refresh-Within _ _ s w
  settle-Within now (connecting r d) reached s w = await-Within n _ w
  settle-Within now (connecting r d) (failed e) s w = finish_refresh-Within _ _ s w
  settle-Within now (posting r d) (responded x) s w = refresh_responded-Within now _ _ _ s w
  settle-Within now (posting r d) (failed e) s w = finish_refresh-Within _ _ s w
  settle-Within now (saving r d) done s w = finish_refresh-Within _ _ s w
  settle-Within now (saving r d) (failed e) s w = finish_refresh-Within _ _ s w
  settle-Within now _ _ s w = tt

  keep-Within :
      (s : Session) (o : Option Session) → Within 0 n s → Settled o → Within 0 n (keep s o)
  keep-Within s none w v = w
  keep-Within s (some t) w v = v

  pub settle_at-Within :
      (now i : ℕ) (o : Outcome) (t : Option Task) (s : Session)
      → get_elem? s.tasks i ≡ t
      → Within 0 n s
      → Within 0 n (settle_at now i o t s)
  unfolding settle_at
  settle_at-Within now i o none s h w = w
  settle_at-Within now i o (some t) s h w =
      let removed = total-remove_at is_refresh s.tasks i t h in
      keep-Within s _ w (settle-Within now t o _ (ground (arith)))

  pub fire_timer-Within : (timer : ℕ) (s : Session) → Within 0 n s → Within 0 n (fire_timer timer s)
  unfolding fire_timer
  fire_timer-Within timer s w =
      let v : Within 0 n (record s { armed = without s.armed timer }) = ground arith in
      ground (arith, attempt_refresh-Within (record s { armed = without s.armed timer }) v)

  pub on_tokens_changed-Within :
      (host : Option String) (s : Session)
      → Within 0 n s
      → Within 0 n (on_tokens_changed true host s)
  unfolding on_tokens_changed
  on_tokens_changed-Within none s w = w
  on_tokens_changed-Within (some host) s w = schedule_next_refresh-Within s w
