-- ===== src/Websocket/Ownership.antt =====
-- Who owns a stream that the factory of websocket/reconnectingWebSocket.ts hands over.
use vscode_coder.Base.{
  ℕ, ◌≤◌, ◌<◌, ◌≡◌, Bool, true, false, Option, none, some, List, [], ◌∷◌, arith, has,
}
use vscode_coder.Websocket.State
use vscode_coder.Websocket.State.{
  ConnectionState, ConnectionStateReason, ConnectionDropCause, connecting, connected, disconnected,
  disposed,
}
use vscode_coder.Websocket.Socket.{SocketEvent, Stream, Ws, Env, Tick}
use vscode_coder.Websocket.Ops.{
  dispatch, clear_timer, close_stream, connect, start_reconnect, reconnect_internal,
  disconnect_with_reason, execute_handlers, dispose, schedule_reconnect,
}
use vscode_coder.Websocket.Steps.{adopt_stream, report_open, fire_timer}
use vscode_coder.Websocket.Invariant.{Inv, execute_handlers_lem}

abbrev pub ids_of : Option Stream → List ℕ
ids_of none = []
ids_of (some k) = k.id ∷ []

-- A connection that the factory still owes may be pending in these states.
abbrev may_pend : ConnectionState → Bool
may_pend connecting = true
may_pend disconnected = true
may_pend disposed = true
may_pend _ = false

pub record Owned (s : Ws) : Type 0 where
  -- the streams that nobody has closed: the current one
  pub live : s.rt.live_sockets ≡ ids_of s.current_socket
  pub single : s.rt.pending_factories ≤ 1
  pub pending_state : 0 < s.rt.pending_factories → may_pend s.state ≡ true
  pub pending_free : 0 < s.rt.pending_factories → s.current_socket ≡ none

module _ (env : Env) (tick : Tick) where
  pub execute_handlers-Owned :
      (hs : List ℕ) (payload : SocketEvent) {s : Ws}
      → Owned s
      → Owned (execute_handlers hs payload s)
  execute_handlers-Owned hs payload {s} o = rw (execute_handlers_lem hs payload s) (ground arith)

  pub disconnect_with_reason-Owned :
      (reason : ConnectionStateReason) (cause : ConnectionDropCause) (code : Option ℕ)
      (has_error : Bool) {s : Ws}
      → Owned s
      → Owned (disconnect_with_reason env tick reason cause code has_error s)
  unfolding disconnect_with_reason
  disconnect_with_reason-Owned reason cause code has_error o = ground arith

  pub schedule_reconnect-Owned :
      (reason : ConnectionStateReason) (cause : ConnectionDropCause) (code : Option ℕ)
      (has_error : Bool) {s : Ws}
      → Owned s
      → s.rt.pending_factories ≡ 0
      → Owned (schedule_reconnect env tick reason cause code has_error s)
  unfolding schedule_reconnect
  schedule_reconnect-Owned reason cause code has_error o p = ground arith

  pub reconnect_internal-Owned :
      (reason : ConnectionStateReason) {s : Ws}
      → Owned s
      → s.rt.pending_factories ≡ 0
      → Owned (reconnect_internal env tick reason s)
  unfolding reconnect_internal start_reconnect clear_timer connect
  reconnect_internal-Owned reason o p = ground arith

  pub dispose-Owned : (code : Option ℕ) {s : Ws} → Owned s → Owned (dispose env tick code s)
  unfolding dispose
  dispose-Owned code o = ground arith

  pub fire_timer-Owned :
      (timer : ℕ) {s : Ws} → Inv env.opts s → Owned s → Owned (fire_timer env tick timer s)
  unfolding fire_timer connect
  fire_timer-Owned timer v o = ground arith

  pub adopt_stream-Owned :
      (stream : Stream) {s : Ws}
      → Owned s
      → s.rt.pending_factories ≡ 0
      → has s.rt.live_sockets stream.id ≡ false
      → (s.state ≡ connecting → s.current_socket ≡ none)
      → Owned (adopt_stream env tick stream s)
  unfolding adopt_stream close_stream
  adopt_stream-Owned stream o p f c = ground arith

  pub report_open-Owned :
      {s : Ws}
      → Owned s
      → s.rt.pending_factories ≡ 0
      → Owned (report_open env tick (dispatch State.open_up State.open_event s).0)
  unfolding report_open dispatch
  report_open-Owned o p = ground arith
