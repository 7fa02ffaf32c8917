-- ===== src/Websocket/Leaks.antt =====
-- Two connections of one socket of websocket/reconnectingWebSocket.ts that overlap.
use vscode_coder.Base.{◌≡◌, ◌≢◌, none, some, [], ◌∷◌, arith}
use vscode_coder.Websocket.Socket.{Stream, new_ws, Env, Tick}
use vscode_coder.Websocket.Ops.{clear_timer, connect, start_reconnect, reconnect_internal, dispose}
use vscode_coder.Websocket.Steps.{
  reconnect_called, close_called, factory_resolved, close, adopt_stream, factory_settled, step, run,
  create,
}

-- If `reconnect` is called on a created socket while its first connection is still being made, and
-- both streams, with different ids, arrive before either opens, then the second replaces the first
-- without closing it, and a `close` that follows leaves the first one unclosed.
pub overlapping_connects_leak :
    (env : Env) (t0 t1 t2 t3 t4 : Tick) (first second : Stream)
    → first.id ≢ second.id
    → let s = run env (create env t0) (
        (t1, reconnect_called)
        ∷ (t2, factory_resolved first)
        ∷ (t3, factory_resolved second)
        ∷ []) in
      (s.current_socket ≡ some second)
      × (s.rt.live_sockets ≡ second.id ∷ first.id ∷ [])
      × ((step env t4 (close_called none) s).rt.live_sockets ≡ first.id ∷ [])
unfolding run create new_ws connect step reconnect_internal start_reconnect clear_timer
    factory_settled adopt_stream close dispose
overlapping_connects_leak env t0 t1 t2 t3 t4 first second n = ground arith
