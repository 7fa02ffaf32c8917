-- ===== src/Websocket/StepInvariant.antt =====
-- Every event, in every state, keeps the invariant of a reconnecting socket.
use vscode_coder.Base.{
  ℕ, zero, suc, ◌≡◌, Bool, true, false, Option, none, some, inl, inr, Bool-cases, List, [], ◌∷◌,
  arith, is_some, if◌then◌else◌,
}
use vscode_coder.Errors.ClientCertificate.{JsError}
use vscode_coder.Websocket.State
use vscode_coder.Websocket.Telemetry.{state_transition, connect_started, opened, dropped}
use vscode_coder.Websocket.Socket.{
  SocketEvent, open_payload, message_payload, error_payload, close_payload, Stream, Ws, new_ws, Env,
  Tick,
}
use vscode_coder.Websocket.Ops.{
  execute_handlers, connect, handle_connection_error, handle_socket_close,
  handle_client_certificate_error, replace_current, dispatch, close_stream,
}
use vscode_coder.Websocket.Steps.{
  Event, listener_added, listener_removed, reconnect_called, disconnect_called, close_called,
  factory_resolved, factory_rejected, stream_open, stream_message, stream_error, stream_close,
  timer_fired, refresh_settled, certificate_resumed, close, or_normal, adopt_stream, report_open,
  handle_open, fire_timer, settle_refresh, resume_certificate, factory_settled, refresh_done,
  resume_next, step, create, run, is_current, add_event_listener, remove_event_listener,
}
use vscode_coder.Websocket.Invariant.{
  Inv, execute_handlers_lem, disconnect_with_reason-Inv, schedule_reconnect-Inv, dispose-Inv,
  reconnect_internal-Inv,
}

-- What leaves alone all that the invariant reads.
execute_handlers-Inv :
    (env : Env) (hs : List ℕ) (payload : SocketEvent) {s : Ws}
    → Inv env.opts s
    → Inv env.opts (execute_handlers hs payload s)
execute_handlers-Inv env hs payload {s} v = rw (execute_handlers_lem hs payload s) (ground arith)

module _ (env : Env) (tick : Tick) where
  handle_connection_error-Inv :
      (err : JsError) {s : Ws}
      → Inv env.opts s
      → Inv env.opts (handle_connection_error env tick err s)
  unfolding handle_connection_error handle_client_certificate_error
  handle_connection_error-Inv err {s} v = ground (
    arith,
    disconnect_with_reason-Inv env tick State.unrecoverable_http State.by_error none true v,
    schedule_reconnect-Inv env tick State.connection_error State.by_error none true v,
  )

  handle_socket_close-Inv :
      (code : ℕ) {s : Ws} → Inv env.opts s → Inv env.opts (handle_socket_close env tick code s)
  unfolding handle_socket_close
  handle_socket_close-Inv code {s} v =
      let told = execute_handlers-Inv env s.handlers.on_close (close_payload code) v in
      ground (
        arith,
        disconnect_with_reason-Inv env tick State.unrecoverable_close State.by_unrecoverable_close
            (some code) true told,
        disconnect_with_reason-Inv env tick State.normal_close State.by_normal_close (some code)
            false told,
        schedule_reconnect-Inv env tick State.unexpected_close State.by_unexpected_close (some code)
            true told,
      )

  close-Inv : (code : Option ℕ) {s : Ws} → Inv env.opts s → Inv env.opts (close env tick code s)
  unfolding close
  close-Inv code {s} v = ground (
    arith,
    dispose-Inv env tick code v,
    dispose-Inv env tick code
        (execute_handlers-Inv env s.handlers.on_close (close_payload (or_normal code)) v),
  )

  adopt_stream-Inv :
      (stream : Stream) {s : Ws} → Inv env.opts s → Inv env.opts (adopt_stream env tick stream s)
  unfolding adopt_stream close_stream
  adopt_stream-Inv stream v = ground arith

  report_open-Inv :
      {s : Ws}
      → Inv env.opts s
      → is_some s.current_socket ≡ true
      → (dispatch State.open_up State.open_event s).1 ≡ true
      → Inv env.opts (report_open env tick (dispatch State.open_up State.open_event s).0)
  unfolding report_open dispatch state_transition opened
  report_open-Inv v c h = ground arith

  handle_open-Inv :
      {s : Ws}
      → Inv env.opts s
      → is_some s.current_socket ≡ true
      → Inv env.opts (handle_open env tick s)
  unfolding handle_open
  handle_open-Inv {s} v c = elim (Bool-cases (dispatch State.open_up State.open_event s).1) [
    | inl opened ↦
        rw opened
          (execute_handlers-Inv env s.handlers.on_open open_payload (report_open-Inv v c opened))
    | inr ignored ↦ rw ignored v
  ]

  fire_timer-Inv :
      (timer : ℕ) {s : Ws} → Inv env.opts s → Inv env.opts (fire_timer env tick timer s)
  unfolding fire_timer connect state_transition connect_started dropped
  fire_timer-Inv timer v = ground arith

  resume_certificate-Inv :
      (ok : Bool) {s : Ws} → Inv env.opts s → Inv env.opts (resume_certificate env tick ok s)
  unfolding resume_certificate
  resume_certificate-Inv true v = reconnect_internal-Inv env tick State.certificate_refresh v
  resume_certificate-Inv false v =
      disconnect_with_reason-Inv env tick State.certificate_error State.by_error none true v

  factory_settled-Inv :
      (k : Ws → Ws)
      → ((s : Ws) → Inv env.opts s → Inv env.opts (k s))
      → (n : ℕ) (s : Ws) → Inv env.opts s
      → Inv env.opts (factory_settled env tick k n s)
  unfolding factory_settled
  factory_settled-Inv k keep zero s v = v
  factory_settled-Inv k keep (suc n) s v = keep _ (ground arith)

  refresh_done-Inv :
      (ok : Bool) (n : ℕ) {s : Ws} → Inv env.opts s → Inv env.opts (refresh_done env tick ok n s)
  unfolding refresh_done settle_refresh
  refresh_done-Inv ok zero v = v
  refresh_done-Inv ok (suc n) v = ground arith

  resume_next-Inv :
      (results : List Bool) (s : Ws)
      → Inv env.opts s
      → Inv env.opts (resume_next env tick results s)
  unfolding resume_next
  resume_next-Inv [] s v = v
  resume_next-Inv (ok ∷ rest) s v = resume_certificate-Inv ok (ground arith)

  is_current-held : (id : ℕ) (s : Ws) → is_current id s ≡ true → is_some s.current_socket ≡ true
  is_current-held id s h = ground arith

  -- where an event is let through only for the current socket
  guarded-Inv :
      (id : ℕ) (s t : Ws)
      → Inv env.opts s
      → (is_some s.current_socket ≡ true → Inv env.opts t)
      → Inv env.opts (if is_current id s then t else s)
  guarded-Inv id s t v k = elim (Bool-cases (is_current id s)) [
    | inl same ↦ rw same (k (is_current-held id s same))
    | inr other ↦ rw other v
  ]

  pub step-Inv : (e : Event) (s : Ws) → Inv env.opts s → Inv env.opts (step env tick e s)
  unfolding step
  step-Inv (listener_added event h) s v = unfold add_event_listener in ground arith
  step-Inv (listener_removed event h) s v = unfold remove_event_listener in ground arith
  step-Inv reconnect_called s v = reconnect_internal-Inv env tick State.manual_reconnect v
  step-Inv (disconnect_called code) s v =
      disconnect_with_reason-Inv env tick State.disconnect_call State.by_manual_disconnect code
        false v
  step-Inv (close_called code) s v = close-Inv code v
  step-Inv (factory_resolved stream) s v =
      factory_settled-Inv (adopt_stream env tick stream) (λ t w. adopt_stream-Inv stream w)
        s.rt.pending_factories s v
  step-Inv (factory_rejected err) s v =
      factory_settled-Inv (handle_connection_error env tick err)
        (λ t w. handle_connection_error-Inv err w) s.rt.pending_factories s v
  step-Inv (stream_open id) s v = guarded-Inv id s _ v (λ c. handle_open-Inv v c)
  step-Inv (stream_message id) s v =
      guarded-Inv id s _ v (λ c. execute_handlers-Inv env s.handlers.on_message message_payload v)
  step-Inv (stream_error id err) s v = guarded-Inv id s _ v (λ c.
      handle_connection_error-Inv err
        (execute_handlers-Inv env s.handlers.on_error error_payload v))
  step-Inv (stream_close id code) s v = guarded-Inv id s _ v (λ c. handle_socket_close-Inv code v)
  step-Inv (timer_fired timer) s v = fire_timer-Inv timer v
  step-Inv (refresh_settled ok) s v = refresh_done-Inv ok s.rt.pending_refreshes v
  step-Inv certificate_resumed s v = resume_next-Inv s.rt.certificate_results s v

  pub create-Inv : Inv env.opts (create env tick)
  unfolding create new_ws connect replace_current dispatch state_transition connect_started
  create-Inv = ground arith

pub run-Inv :
    (env : Env) (es : List (Tick × Event)) (s : Ws) → Inv env.opts s → Inv env.opts (run env s es)
unfolding run
run-Inv env [] s v = v
run-Inv env ((tick, e) ∷ es) s v = run-Inv env es (step env tick e s) (step-Inv env tick e s v)

-- Whatever events reach a created socket, in any order: it has at most one armed timer, the one it
-- stores, and has one exactly in AWAITING_RETRY; it holds a socket in CONNECTED and none before
-- connecting, after `disconnect` and after `close`; telemetry counts a connection as open exactly
-- in CONNECTED and a reconnect cycle as open in AWAITING_RETRY, and has reported as many drops as
-- openings, less the one that is open; and the backoff stays within its bounds.
pub create-run-Inv :
    (env : Env) (tick : Tick) (es : List (Tick × Event))
    → Inv env.opts (run env (create env tick) es)
create-run-Inv env tick es = run-Inv env es (create env tick) (create-Inv env tick)
