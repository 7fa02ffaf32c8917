-- ===== src/Websocket/Steps.antt =====
-- The events that reach a socket of websocket/reconnectingWebSocket.ts, one for each turn of the
-- event loop: the public methods, what the current stream reports, timers and settled promises.
use vscode_coder.Base.{
  ℕ, zero, suc, Bool, true, false, Option, none, some, List, [], ◌∷◌, ◌++◌, has, without, ◌==◌,
  if◌then◌else◌,
}
use vscode_coder.Errors.ClientCertificate.{JsError}
use vscode_coder.Websocket.Codes.{normal}
use vscode_coder.Websocket.State
use vscode_coder.Websocket.State.{connecting, disposed, state_eq}
use vscode_coder.Websocket.Telemetry.{opened}
use vscode_coder.Websocket.Socket.{
  Stream, open_payload, message_payload, error_payload, close_payload, EventHandlers,
  notification_shown, Ws, new_ws, Env, Tick,
}
use vscode_coder.Websocket.Ops.{
  emit, with_telemetry, dispatch, close_stream, execute_handlers, route, connect,
  reconnect_internal, disconnect_with_reason, handle_connection_error, handle_socket_close, dispose,
}

pub data EventType : Type 0 where
  on_open on_close on_error on_message : EventType

pub data Event : Type 0 where
  -- the public methods
  listener_added listener_removed : EventType → (callback : ℕ) → Event
  reconnect_called : Event
  disconnect_called close_called : (code : Option ℕ) → Event
  -- the promise of the socket factory
  factory_resolved : Stream → Event
  factory_rejected : JsError → Event
  -- events of the stream with this id
  stream_open stream_message : (id : ℕ) → Event
  stream_error : (id : ℕ) → JsError → Event
  stream_close : (id code : ℕ) → Event
  -- a timer goes off; a certificate refresh settles (false if it throws); its caller resumes
  timer_fired : (timer : ℕ) → Event
  refresh_settled : Bool → Event
  certificate_resumed : Event

-- `Set.add` and `Set.delete`
abbrev add : ℕ → List ℕ → List ℕ
add h hs = if has hs h then hs else hs ++ h ∷ []

abbrev set_handlers : (List ℕ → List ℕ) → EventType → EventHandlers → EventHandlers
set_handlers f on_open h = record h { on_open = f h.on_open }
set_handlers f on_close h = record h { on_close = f h.on_close }
set_handlers f on_error h = record h { on_error = f h.on_error }
set_handlers f on_message h = record h { on_message = f h.on_message }

-- `this.#currentSocket === socket`
abbrev pub is_current : ℕ → Ws → Bool
is_current id s = elim s.current_socket [ none ↦ false | some k ↦ k.id == id ]

-- `code ?? WebSocketCloseCode.NORMAL`
abbrev pub or_normal : Option ℕ → ℕ
or_normal none = normal
or_normal (some code) = code

-- `addEventListener`
unfoldable pub add_event_listener : EventType → ℕ → Ws → Ws
add_event_listener event h s = record s { handlers = set_handlers (add h) event s.handlers }

-- `removeEventListener`
unfoldable pub remove_event_listener : EventType → ℕ → Ws → Ws
remove_event_listener event h s = record s {
  handlers = set_handlers (λ hs. without hs h) event s.handlers;
}

module _ (env : Env) (tick : Tick) where
  -- `close`
  unfoldable pub close : Option ℕ → Ws → Ws
  close code s =
      let told : Ws = elim s.current_socket [
        | none ↦ s
        | some k ↦ execute_handlers s.handlers.on_close (close_payload (or_normal code)) s
      ] in
      if state_eq s.state disposed then s else dispose env tick code told

  -- `connect`, from the moment the factory hands over a stream
  unfoldable pub adopt_stream : Stream → Ws → Ws
  adopt_stream stream s =
      let arrived = record s {
        rt = record s.rt { live_sockets = stream.id ∷ s.rt.live_sockets };
      } in
      let current = record arrived { current_socket = some stream } in
      if state_eq s.state connecting
      then record current { last_route = route env current }
      else close_stream stream.id (some normal) arrived

  -- what the "open" listener does before it calls the handlers
  unfoldable pub report_open : Ws → Ws
  report_open s =
      with_telemetry (opened env.pathname tick.now (route env s))
        (record s { backoff_ms = env.opts.initial_backoff_ms; cert_refresh_attempted = false })

  -- the "open" listener
  unfoldable pub handle_open : Ws → Ws
  handle_open s =
      let (s', allowed) = dispatch State.open_up State.open_event s in
      if allowed then execute_handlers s.handlers.on_open open_payload (report_open s') else s

  -- `handleClientCertificateError`, from the moment the refresh settles
  unfoldable pub settle_refresh : Bool → Ws → Ws
  settle_refresh ok s =
      let settled = record s {
        rt = record s.rt { certificate_results = s.rt.certificate_results ++ ok ∷ [] };
      } in
      if ok then settled else emit notification_shown settled

  -- `handleConnectionError`, resumed with the result of `handleClientCertificateError`
  unfoldable pub resume_certificate : Bool → Ws → Ws
  resume_certificate true s = reconnect_internal env tick State.certificate_refresh s
  resume_certificate false s =
      disconnect_with_reason env tick State.certificate_error State.by_error none true s

  -- A promise settles only while it is pending, and a timer fires only while it is armed.
  unfoldable pub factory_settled : (Ws → Ws) → ℕ → Ws → Ws
  factory_settled k zero s = s
  factory_settled k (suc n) s = k (record s { rt = record s.rt { pending_factories = n } })

  unfoldable pub refresh_done : Bool → ℕ → Ws → Ws
  refresh_done ok zero s = s
  refresh_done ok (suc n) s =
      settle_refresh ok (record s { rt = record s.rt { pending_refreshes = n } })

  unfoldable pub resume_next : List Bool → Ws → Ws
  resume_next [] s = s
  resume_next (ok ∷ rest) s =
      resume_certificate ok (record s { rt = record s.rt { certificate_results = rest } })

  -- the callback of `setTimeout` in `scheduleReconnect`
  unfoldable pub fire_timer : ℕ → Ws → Ws
  fire_timer timer s =
      if has s.rt.armed_timers timer
      then connect env tick State.scheduled_reconnect (record s {
        reconnect_timeout = none;
        rt = record s.rt { armed_timers = without s.rt.armed_timers timer };
      })
      else s

  unfoldable pub step : Event → Ws → Ws
  unfolding add_event_listener remove_event_listener reconnect_internal disconnect_with_reason close
      factory_settled adopt_stream handle_connection_error handle_open execute_handlers
      handle_socket_close fire_timer refresh_done resume_next
  step (listener_added event h) s = add_event_listener event h s
  step (listener_removed event h) s = remove_event_listener event h s
  step reconnect_called s = reconnect_internal env tick State.manual_reconnect s
  step (disconnect_called code) s =
      disconnect_with_reason env tick State.disconnect_call State.by_manual_disconnect code false s
  step (close_called code) s = close code s
  step (factory_resolved stream) s = factory_settled (adopt_stream stream) s.rt.pending_factories s
  step (factory_rejected err) s =
      factory_settled (handle_connection_error env tick err) s.rt.pending_factories s
  step (stream_open id) s = if is_current id s then handle_open s else s
  step (stream_message id) s =
      if is_current id s then execute_handlers s.handlers.on_message message_payload s else s
  step (stream_error id err) s =
      if is_current id s
      then handle_connection_error env tick err
          (execute_handlers s.handlers.on_error error_payload s)
      else s
  step (stream_close id code) s = if is_current id s then handle_socket_close env tick code s else s
  step (timer_fired timer) s = fire_timer timer s
  step (refresh_settled ok) s = refresh_done ok s.rt.pending_refreshes s
  step certificate_resumed s = resume_next s.rt.certificate_results s

  -- `create`, up to the first `await`
  unfoldable pub create : Ws
  create = connect env tick State.initial_connect (new_ws env.opts)

-- A run of the object: the events with their ticks, oldest first.
unfoldable pub run : Env → Ws → List (Tick × Event) → Ws
run env s [] = s
run env s ((tick, e) ∷ es) = run env (step env tick e s) es
