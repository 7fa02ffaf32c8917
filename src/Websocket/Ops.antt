-- ===== src/Websocket/Ops.antt =====
-- The methods of websocket/reconnectingWebSocket.ts, each from one `await` to the next.
-- Handlers are taken to make no synchronous call back into the socket. Delays are counted in
-- fractions of a millisecond, by the denominator `jitter_den * random_den`.
use vscode_coder.Base.{
  ℕ, suc, ◌+◌, ◌-◌, ◌*◌, ◌/◌, ◌%◌, min, Bool, true, false, ◌&&◌, ◌||◌, Option, none, some, List, [],
  ◌∷◌, ◌++◌, Text, is_empty, includes, has, without, any, if◌then◌else◌,
}
use vscode_coder.Errors.ClientCertificate.{
  JsError, thrown_string, error_object, ClientCertificateError, from_error,
}
use vscode_coder.Websocket.Codes.{
  normal, unrecoverable_ws_close_codes, unrecoverable_http_codes, normal_closure_codes,
}
use vscode_coder.Websocket.State
use vscode_coder.Websocket.State.{
  ConnectionState, StateAction, reduce_state, state_eq, is_connect, ConnectionStateReason,
  ConnectionDropCause, idle, connecting, connected, awaiting_retry, disconnected, disposed,
}
use vscode_coder.Websocket.Telemetry.{
  WebSocketTelemetry, state_transition, connect_started, dropped, reset, reconnect_started,
  terminated, retrying,
}
use vscode_coder.Websocket.Socket.{
  SocketEvent, close_payload, no_handlers, Effect, factory_called, socket_closed, handler_called,
  timer_set, timer_cleared, refresh_called, notification_shown, on_dispose_called, Options, Ws, Env,
  Tick,
}

abbrev pub emit : Effect → Ws → Ws
emit e s = record s { rt = record s.rt { effects = e ∷ s.rt.effects } }

abbrev pub with_telemetry : (WebSocketTelemetry → WebSocketTelemetry) → Ws → Ws
with_telemetry f s = record s { telemetry = f s.telemetry }

-- `#dispatch`
unfoldable pub dispatch : StateAction → ConnectionStateReason → Ws → Ws × Bool
unfolding reduce_state
dispatch action reason s =
    let new_state = reduce_state s.state action in
    if state_eq new_state s.state then (s, is_connect action && state_eq s.state connecting) else (
      record s {
        state = new_state;
        telemetry = state_transition s.state new_state reason s.telemetry;
      },
      true,
    )

-- `clearTimeout` where a timer is stored
unfoldable pub clear_timer : Ws → Ws
clear_timer s = elim s.reconnect_timeout [
  | none ↦ s
  | some t ↦ emit (timer_cleared t) (record s {
    reconnect_timeout = none;
    rt = record s.rt { armed_timers = without s.rt.armed_timers t };
  })
]

-- `socket.close(code, …)`
unfoldable pub close_stream : ℕ → Option ℕ → Ws → Ws
close_stream id code s =
    emit (socket_closed id code)
      (record s { rt = record s.rt { live_sockets = without s.rt.live_sockets id } })

-- close the current socket, if there is one, and forget it
unfoldable pub close_current : Option ℕ → Ws → Ws
unfolding close_stream
close_current code s = elim s.current_socket [
  | none ↦ s
  | some k ↦ record (close_stream k.id code s) { current_socket = none }
]

-- `clearCurrentSocket`
unfoldable pub clear_current_socket : Option ℕ → Ws → Ws
unfolding clear_timer close_current
clear_current_socket code s = with_telemetry reset (close_current code (clear_timer s))

-- `executeHandlers`: an exception of a handler is caught, so each one is called
unfoldable pub execute_handlers : List ℕ → SocketEvent → Ws → Ws
execute_handlers [] payload s = s
execute_handlers (h ∷ hs) payload s =
    execute_handlers hs payload (emit (handler_called h payload) s)

-- `#route`
unfoldable pub route : Env → Ws → Text
route env s = elim s.current_socket [
  | none ↦ s.last_route
  | some k ↦ if is_empty k.url then s.last_route else env.path_of k.url
]

-- `String(code)` for the three-digit codes
abbrev decimal : ℕ → Text
decimal n = (n / 100 + b'0') ∷ (n / 10 % 10 + b'0') ∷ (n % 10 + b'0') ∷ []

-- `error.message || String(error)`
abbrev error_text : JsError → Text
error_text (thrown_string s) = s
error_text (error_object code message rendered) = if is_empty message then rendered else message

-- `isUnrecoverableHttpError`
unfoldable pub is_unrecoverable_http_error : JsError → Bool
is_unrecoverable_http_error err =
    let message = error_text err in any (λ c. includes (decimal c) message) unrecoverable_http_codes

-- the delay of a retry: `max(0, backoff + backoff * jitterFactor * (random * 2 - 1))`, times the
-- denominator `jitter_den * random_den`; the truncated subtraction is the `max(0, …)`
unfoldable pub retry_delay : Options → ℕ → ℕ → ℕ
retry_delay opts backoff random =
    backoff * (opts.jitter_den * opts.random_den)
    + backoff * opts.jitter_num * (random * 2)
    - backoff * opts.jitter_num * opts.random_den

abbrev pub is_paused : Ws → Bool
is_paused s = state_eq s.state disposed || state_eq s.state disconnected

module _ (env : Env) (tick : Tick) where
  -- `disconnectWithReason`
  unfoldable pub disconnect_with_reason :
      ConnectionStateReason → ConnectionDropCause → Option ℕ → Bool → Ws → Ws
  unfolding dispatch clear_current_socket
  disconnect_with_reason reason cause code has_error s =
      let (s', allowed) = dispatch State.disconnect reason s in
      if allowed
      then clear_current_socket code
          (with_telemetry (terminated tick.now reason cause code has_error) s')
      else s'

  -- `setTimeout` and the doubling of the backoff
  unfoldable pub arm_retry : ℕ → Ws → Ws
  arm_retry delay s = emit (timer_set s.rt.next_timer delay) (record s {
    reconnect_timeout = some s.rt.next_timer;
    backoff_ms = min (s.backoff_ms * 2) env.opts.max_backoff_ms;
    rt = record s.rt {
      next_timer = suc s.rt.next_timer;
      armed_timers = s.rt.next_timer ∷ s.rt.armed_timers;
    };
  })

  -- `scheduleReconnect`
  unfoldable pub schedule_reconnect :
      ConnectionStateReason → ConnectionDropCause → Option ℕ → Bool → Ws → Ws
  unfolding dispatch arm_retry
  schedule_reconnect reason cause code has_error s =
      let (s', allowed) = dispatch State.schedule_retry reason s in
      let delay = retry_delay env.opts s.backoff_ms tick.random in
      if allowed
      then arm_retry delay (with_telemetry (retrying tick.now reason cause code has_error delay) s')
      else s'

  -- the start of `connect`: the current socket is replaced
  unfoldable pub replace_current : Ws → Ws
  unfolding close_current
  replace_current s = elim s.current_socket [
    | none ↦ s
    | some k ↦
        close_current (some normal)
          (with_telemetry (dropped tick.now State.by_replaced (some normal) false) s)
  ]

  abbrev pub call_factory : Ws → Ws
  call_factory s =
      emit factory_called
        (record s { rt = record s.rt { pending_factories = suc s.rt.pending_factories } })

  -- `connect`, up to `await this.#socketFactory()`
  unfoldable pub connect : ConnectionStateReason → Ws → Ws
  unfolding dispatch replace_current
  connect reason s =
      let (s', allowed) = dispatch State.connect reason s in
      if allowed
      then call_factory (replace_current (with_telemetry (connect_started tick.now) s'))
      else s'

  -- the part of `#reconnectInternal` before the timer is cleared
  unfoldable pub start_reconnect : ConnectionStateReason → Ws → Ws
  start_reconnect reason s =
      let s' =
        if state_eq s.state idle then s else with_telemetry (reconnect_started tick.now reason) s in
      if state_eq s.state disconnected
      then record s' { backoff_ms = env.opts.initial_backoff_ms; cert_refresh_attempted = false }
      else s'

  -- `#reconnectInternal`
  unfoldable pub reconnect_internal : ConnectionStateReason → Ws → Ws
  reconnect_internal reason s =
      if state_eq s.state disposed
      then s
      else connect reason (clear_timer (start_reconnect reason s))

  -- `handleClientCertificateError`, up to the refresh or to its result
  unfoldable pub handle_client_certificate_error : ClientCertificateError → Ws → Ws
  handle_client_certificate_error cert s =
      let refuse = emit notification_shown (record s {
        rt = record s.rt { certificate_results = s.rt.certificate_results ++ false ∷ [] };
      }) in
      if s.cert_refresh_attempted
      then refuse
      else if cert.is_refreshable
      then emit refresh_called (record s {
        cert_refresh_attempted = true;
        rt = record s.rt { pending_refreshes = suc s.rt.pending_refreshes };
      })
      else refuse

  -- `handleConnectionError`
  unfoldable pub handle_connection_error : JsError → Ws → Ws
  handle_connection_error err s =
      if is_paused s
      then s
      else if is_unrecoverable_http_error err
      then disconnect_with_reason State.unrecoverable_http State.by_error none true s
      else elim (from_error err) [
        | none ↦ schedule_reconnect State.connection_error State.by_error none true s
        | some cert ↦ handle_client_certificate_error cert s
      ]

  -- `handleSocketClose`
  unfoldable pub handle_socket_close : ℕ → Ws → Ws
  handle_socket_close code s =
      let s' = execute_handlers s.handlers.on_close (close_payload code) s in
      if is_paused s
      then s
      else if has unrecoverable_ws_close_codes code
      then disconnect_with_reason State.unrecoverable_close State.by_unrecoverable_close (some code)
          true s'
      else if has normal_closure_codes code
      then disconnect_with_reason State.normal_close State.by_normal_close (some code) false s'
      else schedule_reconnect State.unexpected_close State.by_unexpected_close (some code) true s'

  -- `dispose`
  unfoldable pub dispose : Option ℕ → Ws → Ws
  unfolding dispatch clear_current_socket
  dispose code s =
      let (s', allowed) = dispatch State.dispose State.dispose_call s in
      if allowed
      then emit on_dispose_called
          (record (clear_current_socket code (
            with_telemetry (terminated tick.now State.dispose_call State.by_disposed code false)
              s')) { handlers = no_handlers })
      else s'
