-- ===== src/Websocket/Streams.antt =====
-- The streams that a reconnecting socket is handed: which are adopted, which are closed, and what
-- the close of the current one leads to.
use vscode_coder.Base.{
  ℕ, sym, subst, Bool-cases, inl, inr, ◌≡◌, Bool, true, false, ◌||◌, Option, none, some, [], ◌∷◌,
  arith, has, if◌then◌else◌,
}
use vscode_coder.Websocket.Codes.{unrecoverable_ws_close_codes, normal_closure_codes}
use vscode_coder.Websocket.State
use vscode_coder.Websocket.State.{
  ConnectionState, ConnectionStateReason, ConnectionDropCause, connecting, connected,
  awaiting_retry, disconnected, disposed, state_eq,
}
use vscode_coder.Websocket.Socket.{close_payload, timer_set, Ws, Env, Tick, socket_closed}
use vscode_coder.Websocket.Ops.{
  is_paused, retry_delay, handle_socket_close, disconnect_with_reason, schedule_reconnect,
}
use vscode_coder.Websocket.Steps.{stream_close, is_current, step}
use vscode_coder.Websocket.Invariant.{Inv, calls, execute_handlers_lem}

-- The close codes after which the socket does not reconnect.
abbrev pub is_final_code : ℕ → Bool
is_final_code code = has unrecoverable_ws_close_codes code || has normal_closure_codes code

module _ (env : Env) (tick : Tick) where
  disconnect_connected :
      (reason : ConnectionStateReason) (cause : ConnectionDropCause) (code : Option ℕ)
      (has_error : Bool) (id : ℕ) (s : Ws)
      → s.state ≡ connected
      → s.reconnect_timeout ≡ none
      → is_current id s ≡ true
      → let t = disconnect_with_reason env tick reason cause code has_error s in
        (t.state ≡ disconnected)
        × (t.current_socket ≡ none)
        × (t.rt.armed_timers ≡ s.rt.armed_timers)
        × (t.rt.effects ≡ socket_closed id code ∷ s.rt.effects)
  unfolding disconnect_with_reason
  disconnect_connected reason cause code has_error id s c n h = ground arith

  schedule_connected :
      (reason : ConnectionStateReason) (cause : ConnectionDropCause) (code : Option ℕ)
      (has_error : Bool) (s : Ws)
      → s.state ≡ connected
      → let t = schedule_reconnect env tick reason cause code has_error s in
        (t.state ≡ awaiting_retry)
        × (t.current_socket ≡ s.current_socket)
        × (t.rt.armed_timers ≡ s.rt.next_timer ∷ s.rt.armed_timers)
        × (t.rt.effects
            ≡ timer_set s.rt.next_timer (retry_delay env.opts s.backoff_ms tick.random)
              ∷ s.rt.effects)
  unfolding schedule_reconnect
  schedule_connected reason cause code has_error s c = ground arith

  -- what a close leads to: for a final code, and for any other
  abbrev pub Ends : ℕ → ℕ → Ws → Ws → Type 0
  Ends id code s t =
      (t.state ≡ disconnected)
      × (t.current_socket ≡ none)
      × (t.rt.armed_timers ≡ [])
      × (t.rt.effects
          ≡ socket_closed id (some code)
            ∷ calls s.handlers.on_close (close_payload code) s.rt.effects)

  abbrev pub Retries : ℕ → Ws → Ws → Type 0
  Retries code s t =
      (t.state ≡ awaiting_retry)
      × (t.current_socket ≡ s.current_socket)
      × (t.rt.armed_timers ≡ s.rt.next_timer ∷ [])
      × (t.rt.effects
          ≡ timer_set s.rt.next_timer (retry_delay env.opts s.backoff_ms tick.random)
            ∷ calls s.handlers.on_close (close_payload code) s.rt.effects)

  abbrev told : ℕ → Ws → Ws
  told code s = record s {
    rt = record s.rt { effects = calls s.handlers.on_close (close_payload code) s.rt.effects };
  }

  module _ (id code : ℕ) (s : Ws) (v : Inv env.opts s) (c : s.state ≡ connected)
      (h : is_current id s ≡ true) where
    ends :
        (reason : ConnectionStateReason) (cause : ConnectionDropCause) (has_error : Bool)
        → Ends id code s
            (disconnect_with_reason env tick reason cause (some code) has_error (told code s))
    ends reason cause has_error =
        let (p, q, r, e) =
          disconnect_connected reason cause (some code) has_error id (told code s) c (ground arith)
            h in
        (p, q, ground arith, e)

    retries :
        (reason : ConnectionStateReason) (cause : ConnectionDropCause) (has_error : Bool)
        → Retries code s
            (schedule_reconnect env tick reason cause (some code) has_error (told code s))
    retries reason cause has_error =
        let (p, q, r, e) = schedule_connected reason cause (some code) has_error (told code s) c in
        (p, q, ground arith, e)

    -- the branches of `handleSocketClose`
    closing : Ws
    closing =
        if has unrecoverable_ws_close_codes code
        then disconnect_with_reason env tick State.unrecoverable_close State.by_unrecoverable_close
            (some code) true (told code s)
        else if has normal_closure_codes code
        then disconnect_with_reason env tick State.normal_close State.by_normal_close (some code)
            false (told code s)
        else schedule_reconnect env tick State.unexpected_close State.by_unexpected_close
            (some code) true (told code s)

    not_paused : is_paused s ≡ false
    not_paused = ground arith

    step-closing : step env tick (stream_close id code) s ≡ closing
    unfolding step handle_socket_close closing
    step-closing = rw (h, not_paused, execute_handlers_lem)

    closing-Ends : is_final_code code ≡ true → Ends id code s closing
    unfolding closing
    closing-Ends f = elim (Bool-cases (has unrecoverable_ws_close_codes code)) [
      | inl bad ↦ rw bad (ends State.unrecoverable_close State.by_unrecoverable_close true)
      | inr good ↦
          let usual : has normal_closure_codes code ≡ true = rw good at f in
          rw (good, usual) (ends State.normal_close State.by_normal_close false)
    ]

    closing-Retries : is_final_code code ≡ false → Retries code s closing
    unfolding closing
    closing-Retries f =
        let good : has unrecoverable_ws_close_codes code ≡ false = ground arith in
        let unusual : has normal_closure_codes code ≡ false = ground arith in
        rw (good, unusual) (retries State.unexpected_close State.by_unexpected_close true)

    -- When the current stream of a connected socket is closed with one of the two normal or the two
    -- unrecoverable codes, the close handlers are called in order, then the stream is closed; the
    -- socket is disconnected, holds no stream and has no timer.
    pub stream_close-final :
        is_final_code code ≡ true → Ends id code s (step env tick (stream_close id code) s)
    stream_close-final f = subst (λ t. Ends id code s t) (sym step-closing) (closing-Ends f)

    -- When the current stream of a connected socket is closed with any other code, the close handlers
    -- are called in order, then exactly one timer is set, with the jittered backoff, and the socket
    -- awaits its retry.
    stream_close-unexpected :
        is_final_code code ≡ false → Retries code s (step env tick (stream_close id code) s)
    stream_close-unexpected f = subst (λ t. Retries code s t) (sym step-closing) (closing-Retries f)
