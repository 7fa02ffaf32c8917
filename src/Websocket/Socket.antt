-- ===== src/Websocket/Socket.antt =====
-- The class of websocket/reconnectingWebSocket.ts: its fields, and what surrounds it.
-- An `await` is a point where the object is left with a continuation pending; timers that are
-- armed, sockets that the factory handed over and that nobody has closed, and the calls made to
-- the outside are kept in `Runtime`.
use vscode_coder.Base.{ℕ, Bool, Option, none, List, [], Text, codes, false}
use vscode_coder.Websocket.State.{ConnectionState, idle}
use vscode_coder.Websocket.Telemetry.{WebSocketTelemetry, new_telemetry}

-- A stream that the factory resolved to; `===` on streams is equality of `id`.
pub record Stream : Type 0 where
  pub id : ℕ
  pub url : Text

-- What `executeHandlers` hands out.
pub data SocketEvent : Type 0 where
  open_payload message_payload error_payload : SocketEvent
  close_payload : (code : ℕ) → SocketEvent

-- The listeners, by the ids of their callbacks in order of insertion.
pub record EventHandlers : Type 0 where
  pub on_open : List ℕ
  pub on_close : List ℕ
  pub on_error : List ℕ
  pub on_message : List ℕ

abbrev pub no_handlers : EventHandlers
no_handlers = record { on_open = []; on_close = []; on_error = []; on_message = [] }

-- Calls to the outside, newest first in the log.
pub data Effect : Type 0 where
  factory_called : Effect
  socket_closed : (id : ℕ) (code : Option ℕ) → Effect
  handler_called : (callback : ℕ) → SocketEvent → Effect
  timer_set : (timer delay : ℕ) → Effect
  timer_cleared : (timer : ℕ) → Effect
  refresh_called notification_shown on_dispose_called : Effect

pub record Runtime : Type 0 where
  pub next_timer : ℕ
  pub armed_timers : List ℕ
  pub pending_factories : ℕ
  -- calls of onCertificateRefreshNeeded that have not settled
  pub pending_refreshes : ℕ
  -- results of handleClientCertificateError that its caller has not yet resumed with
  pub certificate_results : List Bool
  -- sockets that the factory handed over and that nobody has closed
  pub live_sockets : List ℕ
  pub effects : List Effect

-- The options with their defaults filled in. `jitterFactor` is the fraction jitter_num /
-- jitter_den, and `Math.random()` is drawn as a fraction with the denominator random_den.
pub record Options : Type 0 where
  pub initial_backoff_ms : ℕ
  pub max_backoff_ms : ℕ
  pub jitter_num : ℕ
  pub jitter_den : ℕ
  pub random_den : ℕ

-- `initialBackoffMs ?? 250`, `maxBackoffMs ?? 30000`, `jitterFactor ?? 0.1`
abbrev pub default_options : Options
default_options = record {
  initial_backoff_ms = 250;
  max_backoff_ms = 30000;
  jitter_num = 1;
  jitter_den = 10;
  random_den = 1000;
}

pub record Ws : Type 0 where
  pub state : ConnectionState
  pub current_socket : Option Stream
  pub last_route : Text
  pub backoff_ms : ℕ
  pub reconnect_timeout : Option ℕ
  pub cert_refresh_attempted : Bool
  pub handlers : EventHandlers
  pub telemetry : WebSocketTelemetry
  pub rt : Runtime

-- The private constructor.
unfoldable pub new_ws : Options → Ws
new_ws opts = record {
  state = idle;
  current_socket = none;
  last_route = codes "unknown";
  backoff_ms = opts.initial_backoff_ms;
  reconnect_timeout = none;
  cert_refresh_attempted = false;
  handlers = no_handlers;
  telemetry = new_telemetry;
  rt = record {
    next_timer = 0;
    armed_timers = [];
    pending_factories = 0;
    pending_refreshes = 0;
    certificate_results = [];
    live_sockets = [];
    effects = [];
  };
}

-- What the code takes from outside: the options, `new URL(url).pathname` for the URL of a stream,
-- which is absolute, and the parse in `normalizeRoute`.
pub record Env : Type 0 where
  pub opts : Options
  pub path_of : Text → Text
  pub pathname : Text → Option Text

-- One turn of the event loop: the clock, and the draw of `Math.random()`, a numerator.
pub record Tick : Type 0 where
  pub now : ℕ
  pub random : ℕ
