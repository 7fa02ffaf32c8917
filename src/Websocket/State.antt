-- ===== src/Websocket/State.antt =====
-- The connection states and the pure reducer of websocket/reconnectingWebSocket.ts.
use vscode_coder.Base.{Bool, true, false}

pub data ConnectionState : Type 0 where
  idle connecting connected awaiting_retry disconnected disposed : ConnectionState

pub data StateAction : Type 0 where
  connect open_up schedule_retry disconnect dispose : StateAction

-- `reduceState`
unfoldable pub reduce_state : ConnectionState → StateAction → ConnectionState
reduce_state idle connect = connecting
reduce_state connected connect = connecting
reduce_state awaiting_retry connect = connecting
reduce_state disconnected connect = connecting
reduce_state state connect = state
reduce_state connecting open_up = connected
reduce_state state open_up = state
reduce_state connecting schedule_retry = awaiting_retry
reduce_state connected schedule_retry = awaiting_retry
reduce_state state schedule_retry = state
reduce_state idle disconnect = disconnected
reduce_state connecting disconnect = disconnected
reduce_state connected disconnect = disconnected
reduce_state awaiting_retry disconnect = disconnected
reduce_state state disconnect = state
reduce_state state dispose = disposed

-- `===` on states and on action types
abbrev pub state_eq : ConnectionState → ConnectionState → Bool
state_eq idle idle = true
state_eq connecting connecting = true
state_eq connected connected = true
state_eq awaiting_retry awaiting_retry = true
state_eq disconnected disconnected = true
state_eq disposed disposed = true
state_eq _ _ = false

abbrev pub is_connect : StateAction → Bool
is_connect connect = true
is_connect _ = false

-- the reasons and causes of instrumentation/websocket.ts
pub data ConnectionStateReason : Type 0 where
  initial_connect manual_reconnect certificate_refresh scheduled_reconnect open_event :
      ConnectionStateReason
  disconnect_call dispose_call unrecoverable_close unrecoverable_http : ConnectionStateReason
  certificate_error connection_error normal_close unexpected_close : ConnectionStateReason

pub data ConnectionDropCause : Type 0 where
  by_manual_disconnect by_replaced by_unrecoverable_close by_normal_close : ConnectionDropCause
  by_unexpected_close by_disposed by_error : ConnectionDropCause
