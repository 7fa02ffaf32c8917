-- ===== src/Websocket/OwnershipHandlers.antt =====
-- The handlers of websocket/reconnectingWebSocket.ts keep the ownership of its streams.
use vscode_coder.Base.{ℕ, ◌≡◌, true, false, Option, none, some, arith, inl, inr, Bool-cases}
use vscode_coder.Errors.ClientCertificate.{JsError}
use vscode_coder.Websocket.State
use vscode_coder.Websocket.State.{
  ConnectionState, ConnectionStateReason, ConnectionDropCause, connecting, connected, disconnected,
  disposed,
}
use vscode_coder.Websocket.Socket.{open_payload, close_payload, Ws, Env, Tick}
use vscode_coder.Websocket.Ops.{
  dispatch, handle_connection_error, handle_socket_close, execute_handlers,
  handle_client_certificate_error,
}
use vscode_coder.Websocket.Steps.{close, handle_open, or_normal}
use vscode_coder.Websocket.Invariant.{execute_handlers_lem}
use vscode_coder.Websocket.Ownership.{
  Owned, execute_handlers-Owned, disconnect_with_reason-Owned, schedule_reconnect-Owned,
  dispose-Owned, report_open-Owned,
}

module _ (env : Env) (tick : Tick) where
  pub handle_connection_error-Owned :
      (err : JsError) {s : Ws}
      → Owned s
      → s.rt.pending_factories ≡ 0
      → Owned (handle_connection_error env tick err s)
  unfolding handle_connection_error handle_client_certificate_error
  handle_connection_error-Owned err {s} o p = ground (
    arith,
    disconnect_with_reason-Owned env tick State.unrecoverable_http State.by_error none true o,
    schedule_reconnect-Owned env tick State.connection_error State.by_error none true o p,
  )

  pub handle_socket_close-Owned :
      (code : ℕ) {s : Ws}
      → Owned s
      → s.rt.pending_factories ≡ 0
      → Owned (handle_socket_close env tick code s)
  unfolding handle_socket_close
  handle_socket_close-Owned code {s} o p =
      let told = execute_handlers-Owned env tick s.handlers.on_close (close_payload code) o in
      let idle : (execute_handlers s.handlers.on_close (close_payload code) s).rt.pending_factories
          ≡ 0 =
        rw execute_handlers_lem p in
      ground (
        arith,
        disconnect_with_reason-Owned env tick State.unrecoverable_close State.by_unrecoverable_close
            (some code) true told,
        disconnect_with_reason-Owned env tick State.normal_close State.by_normal_close (some code)
            false told,
        schedule_reconnect-Owned env tick State.unexpected_close State.by_unexpected_close
            (some code) true told idle,
      )

  pub close-Owned : (code : Option ℕ) {s : Ws} → Owned s → Owned (close env tick code s)
  unfolding close
  close-Owned code {s} o = ground (
    arith,
    dispose-Owned env tick code o,
    dispose-Owned env tick code
        (execute_handlers-Owned env tick s.handlers.on_close (close_payload (or_normal code)) o),
  )

  pub handle_open-Owned :
      {s : Ws} → Owned s → s.rt.pending_factories ≡ 0 → Owned (handle_open env tick s)
  unfolding handle_open
  handle_open-Owned {s} o p = elim (Bool-cases (dispatch State.open_up State.open_event s).1) [
    | inl opened ↦ rw opened (
        execute_handlers-Owned env tick s.handlers.on_open open_payload
          (report_open-Owned env tick o p))
    | inr ignored ↦ rw ignored o
  ]
