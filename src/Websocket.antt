-- ===== src/Websocket.antt =====
-- The reconnecting WebSocket: websocket/codes.ts, websocket/reconnectingWebSocket.ts and its
-- telemetry, instrumentation/websocket.ts.
pub mod Codes
pub mod State
pub mod Telemetry
pub mod Socket
pub mod Ops
pub mod Steps
pub mod Invariant
pub mod StepInvariant
pub mod Pausing
pub mod Backoff
pub mod Streams
pub mod Ownership
pub mod OwnershipHandlers
pub mod OwnershipRuns
pub mod Leaks
mod Tests
