-- ===== src/Websocket/Invariant.antt =====
-- What holds of a reconnecting socket between two turns of the event loop.
use vscode_coder.Base.{
  ℕ, suc, ◌+◌, ◌≤◌, max, ◌≡◌, refl, Bool, true, false, Option, none, some, List, [], ◌∷◌, is_some,
  arith,
}
use vscode_coder.Websocket.State.{
  ConnectionState, connecting, connected, awaiting_retry, state_eq, ConnectionStateReason,
  ConnectionDropCause,
}
use vscode_coder.Websocket.Telemetry.{
  TelemetryEvent, opened_event, dropped_event, state_transition, connect_started, dropped, reset,
  reconnect_started, terminated, retrying,
}
use vscode_coder.Websocket.Socket.{SocketEvent, Options, Ws, Env, Tick, Effect, handler_called}
use vscode_coder.Websocket.Ops.{
  execute_handlers, reconnect_internal, start_reconnect, clear_timer, connect,
  disconnect_with_reason, dispose, schedule_reconnect,
}

abbrev pub timers_of : Option ℕ → List ℕ
timers_of none = []
timers_of (some t) = t ∷ []

abbrev pub may_have_socket : ConnectionState → Bool
may_have_socket connecting = true
may_have_socket connected = true
may_have_socket awaiting_retry = true
may_have_socket _ = false

-- How many connections telemetry has reported as opened, and as dropped.
abbrev pub opened_count : List TelemetryEvent → ℕ
opened_count [] = 0
opened_count (opened_event route ms ∷ es) = suc (opened_count es)
opened_count (_ ∷ es) = opened_count es

abbrev pub dropped_count : List TelemetryEvent → ℕ
dropped_count [] = 0
dropped_count (dropped_event cause code has_error ms ∷ es) = suc (dropped_count es)
dropped_count (_ ∷ es) = dropped_count es

abbrev pub one_if : Bool → ℕ
one_if true = 1
one_if false = 0

pub record Inv (opts : Options) (s : Ws) : Type 0 where
  -- the one armed timer is the stored one
  pub timers : s.rt.armed_timers ≡ timers_of s.reconnect_timeout
  -- a retry is scheduled exactly in AWAITING_RETRY
  pub awaiting : is_some s.reconnect_timeout ≡ state_eq s.state awaiting_retry
  -- a socket is held where the state allows one, and always in CONNECTED
  pub held : s.state ≡ connected → is_some s.current_socket ≡ true
  pub unheld : may_have_socket s.state ≡ false → s.current_socket ≡ none
  -- telemetry counts a connection as open exactly in CONNECTED
  pub counted : is_some s.telemetry.connection_opened_at ≡ state_eq s.state connected
  -- every opened connection but the open one has been reported as dropped, once
  pub balanced :
      opened_count s.telemetry.log
      ≡ dropped_count s.telemetry.log + one_if (is_some s.telemetry.connection_opened_at)
  -- a reconnect cycle is open while a retry is awaited
  pub cycling : s.state ≡ awaiting_retry → is_some s.telemetry.reconnect_cycle ≡ true
  pub backoff : s.backoff_ms ≤ max opts.initial_backoff_ms opts.max_backoff_ms

-- the log that `execute_handlers` leaves
abbrev pub calls : List ℕ → SocketEvent → List Effect → List Effect
calls [] payload log = log
calls (h ∷ hs) payload log = calls hs payload (handler_called h payload ∷ log)

pub execute_handlers_lem :
    (hs : List ℕ) (payload : SocketEvent) (s : Ws)
    → execute_handlers hs payload s
      ≡ record s { rt = record s.rt { effects = calls hs payload s.rt.effects } }
unfolding execute_handlers
execute_handlers_lem [] payload s = refl
execute_handlers_lem (h ∷ hs) payload s = execute_handlers_lem hs payload _

module _ (env : Env) (tick : Tick) where
  pub disconnect_with_reason-Inv :
      (reason : ConnectionStateReason) (cause : ConnectionDropCause) (code : Option ℕ)
      (has_error : Bool) {s : Ws}
      → Inv env.opts s
      → Inv env.opts (disconnect_with_reason env tick reason cause code has_error s)
  unfolding disconnect_with_reason state_transition terminated reset
  disconnect_with_reason-Inv reason cause code has_error v = ground arith

  pub schedule_reconnect-Inv :
      (reason : ConnectionStateReason) (cause : ConnectionDropCause) (code : Option ℕ)
      (has_error : Bool) {s : Ws}
      → Inv env.opts s
      → Inv env.opts (schedule_reconnect env tick reason cause code has_error s)
  unfolding schedule_reconnect state_transition retrying
  schedule_reconnect-Inv reason cause code has_error v = ground arith

  pub dispose-Inv :
      (code : Option ℕ) {s : Ws} → Inv env.opts s → Inv env.opts (dispose env tick code s)
  unfolding dispose state_transition terminated reset
  dispose-Inv code v = ground arith

  pub reconnect_internal-Inv :
      (reason : ConnectionStateReason) {s : Ws}
      → Inv env.opts s
      → Inv env.opts (reconnect_internal env tick reason s)
  unfolding reconnect_internal start_reconnect clear_timer connect state_transition connect_started
      dropped reconnect_started
  reconnect_internal-Inv reason v = ground arith
