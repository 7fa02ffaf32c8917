-- ===== src/Websocket/Telemetry.antt =====
-- instrumentation/websocket.ts: the telemetry that a reconnecting socket reports.
-- `performance.now()` is the argument `now`, one reading for each turn of the event loop.
-- The reporter's log is a list of events, newest first. An error payload is kept as whether there
-- is one.
use vscode_coder.Base.{ℕ, ◌+◌, ◌-◌, max, Bool, Option, none, some, List, [], ◌∷◌, Text}
use vscode_coder.Logging.Routes.{normalize_route}
use vscode_coder.Websocket.State.{ConnectionState, ConnectionStateReason, ConnectionDropCause}

pub data TelemetryEvent : Type 0 where
  -- connection.state_transitioned: from, to, reason
  state_transitioned : ConnectionState → ConnectionState → ConnectionStateReason → TelemetryEvent
  -- connection.opened: route, connect_duration_ms
  opened_event : Text → ℕ → TelemetryEvent
  -- connection.dropped: cause, close_code, whether an error is attached, connection_duration_ms
  dropped_event : ConnectionDropCause → Option ℕ → Bool → ℕ → TelemetryEvent
  -- connection.reconnect_resolved: termination_reason (none on success), reason, attempts,
  -- max_backoff_ms, total_duration_ms
  reconnect_resolved :
      Option ConnectionStateReason → ConnectionStateReason → ℕ → ℕ → ℕ → TelemetryEvent

pub record ReconnectCycle : Type 0 where
  pub start_ms : ℕ
  pub reason : ConnectionStateReason
  pub attempts : ℕ
  pub max_backoff : ℕ

pub record WebSocketTelemetry : Type 0 where
  pub connect_started_at : Option ℕ
  pub connection_opened_at : Option ℕ
  pub reconnect_cycle : Option ReconnectCycle
  pub log : List TelemetryEvent

abbrev pub new_telemetry : WebSocketTelemetry
new_telemetry = record {
  connect_started_at = none;
  connection_opened_at = none;
  reconnect_cycle = none;
  log = [];
}

abbrev emit : TelemetryEvent → WebSocketTelemetry → WebSocketTelemetry
emit e t = record t { log = e ∷ t.log }

-- `stateTransition`
unfoldable pub state_transition :
    ConnectionState
    → ConnectionState
    → ConnectionStateReason
    → WebSocketTelemetry
    → WebSocketTelemetry
state_transition from to reason t = emit (state_transitioned from to reason) t

abbrev count_attempt : ReconnectCycle → ReconnectCycle
count_attempt c = record c { attempts = c.attempts + 1 }

abbrev map_cycle : (ReconnectCycle → ReconnectCycle) → Option ReconnectCycle → Option ReconnectCycle
map_cycle f none = none
map_cycle f (some c) = some (f c)

-- `connectStarted`
unfoldable pub connect_started : ℕ → WebSocketTelemetry → WebSocketTelemetry
connect_started now t = record t {
  connect_started_at = some now;
  reconnect_cycle = map_cycle count_attempt t.reconnect_cycle;
}

-- `#finishReconnect`
unfoldable pub finish_reconnect :
    ℕ → Option ConnectionStateReason → WebSocketTelemetry → WebSocketTelemetry
finish_reconnect now termination t = elim t.reconnect_cycle [
  | none ↦ t
  | some c ↦
      emit (reconnect_resolved termination c.reason c.attempts c.max_backoff (now - c.start_ms))
        (record t { reconnect_cycle = none })
]

abbrev or_now : Option ℕ → ℕ → ℕ
or_now none now = now
or_now (some start) now = start

-- `opened`; `pathname` is that of `normalizeRoute`
unfoldable pub opened : (Text → Option Text) → ℕ → Text → WebSocketTelemetry → WebSocketTelemetry
unfolding finish_reconnect
opened pathname now route t = finish_reconnect now none (
    emit (opened_event (normalize_route pathname route) (now - or_now t.connect_started_at now))
      (record t { connection_opened_at = some now; connect_started_at = none }))

-- `dropped`
unfoldable pub dropped :
    ℕ → ConnectionDropCause → Option ℕ → Bool → WebSocketTelemetry → WebSocketTelemetry
dropped now cause close_code has_error t = elim t.connection_opened_at [
  | none ↦ t
  | some opened_at ↦
      emit (dropped_event cause close_code has_error (now - opened_at))
        (record t { connection_opened_at = none })
]

-- `reset`
unfoldable pub reset : WebSocketTelemetry → WebSocketTelemetry
reset t = record t {
  connect_started_at = none;
  connection_opened_at = none;
  reconnect_cycle = none;
}

-- `reconnectStarted`
unfoldable pub reconnect_started :
    ℕ → ConnectionStateReason → WebSocketTelemetry → WebSocketTelemetry
reconnect_started now reason t = elim t.reconnect_cycle [
  | none ↦ record t {
    reconnect_cycle =
        some (record { start_ms = now; reason = reason; attempts = 0; max_backoff = 0 });
  }
  | some c ↦ t
]

-- `terminated`
unfoldable pub terminated :
    ℕ
    → ConnectionStateReason
    → ConnectionDropCause
    → Option ℕ
    → Bool
    → WebSocketTelemetry
    → WebSocketTelemetry
unfolding dropped finish_reconnect
terminated now reason cause code has_error t =
    finish_reconnect now (some reason) (dropped now cause code has_error t)

abbrev raise_backoff : ℕ → ReconnectCycle → ReconnectCycle
raise_backoff delay c = record c { max_backoff = max c.max_backoff delay }

-- `retrying`
unfoldable pub retrying :
    ℕ
    → ConnectionStateReason
    → ConnectionDropCause
    → Option ℕ
    → Bool
    → ℕ
    → WebSocketTelemetry
    → WebSocketTelemetry
unfolding dropped reconnect_started
retrying now reason cause code has_error delay t =
    let t' = reconnect_started now reason (dropped now cause code has_error t) in
    record t' { reconnect_cycle = map_cycle (raise_backoff delay) t'.reconnect_cycle }
