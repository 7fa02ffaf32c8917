-- ===== src/Websocket/Tests.antt =====
-- Runs of the reconnecting WebSocket, on concrete events.
use vscode_coder.Base.{
  ℕ, ◌*◌, ◌^◌, min, ◌≡◌, ◌≤◌, refl, true, none, some, List, [], ◌∷◌, codes, arith,
}
use vscode_coder.Errors.ClientCertificate.{JsError, error_object, from_error}
use vscode_coder.Websocket.State.{connecting, connected, awaiting_retry, disconnected, disposed}
use vscode_coder.Websocket.Socket.{Stream, new_ws, default_options, Ws, Env, Tick}
use vscode_coder.Websocket.Ops.{
  connect, schedule_reconnect, is_unrecoverable_http_error, handle_client_certificate_error,
  dispose,
}
use vscode_coder.Websocket.Steps.{
  Event, listener_added, on_open, on_close, reconnect_called, disconnect_called, close_called,
  factory_resolved, factory_rejected, stream_open, stream_close, timer_fired, refresh_settled,
  certificate_resumed, step, run, create, report_open, settle_refresh,
}
use vscode_coder.Websocket.Invariant.{Inv}
use vscode_coder.Websocket.StepInvariant.{create-run-Inv}
use vscode_coder.Websocket.Pausing.{activity, disposed_is_final, step-paused}
use vscode_coder.Websocket.Backoff.{IsTransient, IsWaiting, Attempt, attempts, attempts_backoff}
use vscode_coder.Websocket.Streams.{Ends, stream_close-final}
use vscode_coder.Websocket.Ownership.{ids_of}
use vscode_coder.Websocket.OwnershipRuns.{create-run-Owned}
use vscode_coder.Websocket.Leaks.{overlapping_connects_leak}

abbrev env : Env
env = record { opts = default_options; path_of = λ u. u; pathname = λ u. some u }

abbrev at : ℕ → Tick
at now = record { now = now; random = 500 }

abbrev first_stream : Stream
first_stream = record { id = 1; url = codes "/api/v2/workspaces" }

abbrev second_stream : Stream
second_stream = record { id = 2; url = codes "/api/v2/buildinfo" }

abbrev refused : JsError
refused = error_object (codes "ECONNREFUSED") (codes "connect refused") (codes "Error")

abbrev expired : JsError
expired = error_object [] (codes "alert certificate_expired") (codes "Error")

abbrev opening : List (Tick × Event)
opening =
    (at 10, listener_added on_open 7)
    ∷ (at 20, listener_added on_close 8)
    ∷ (at 30, factory_resolved first_stream)
    ∷ (at 40, stream_open 1)
    ∷ []

abbrev losing : List (Tick × Event)
losing =
    (at 30, factory_resolved first_stream)
    ∷ (at 40, stream_open 1)
    ∷ (at 90, stream_close 1 1006)
    ∷ (at 340, timer_fired 0)
    ∷ (at 350, factory_rejected refused)
    ∷ []

abbrev closing_run : List (Tick × Event)
closing_run = (at 30, factory_resolved first_stream) ∷ (at 50, close_called none) ∷ []

abbrev late : List (Tick × Event)
late =
    (at 60, stream_open 1)
    ∷ (at 70, reconnect_called)
    ∷ (at 80, factory_resolved second_stream)
    ∷ []

abbrev paused_run : List (Tick × Event)
paused_run =
    (at 30, factory_rejected expired)
    ∷ (at 40, disconnect_called none)
    ∷ (at 50, refresh_settled true)
    ∷ []

abbrev open_socket : Ws
open_socket = run env (create env (at 0)) opening

abbrev waiting_socket : Ws
waiting_socket = run env (create env (at 0)) losing

abbrev paused_socket : Ws
paused_socket = run env (create env (at 0)) paused_run

abbrev failed_attempt : Attempt
failed_attempt = record { fired = at 900; failed = at 950; error = refused }

opening_connects : open_socket.state ≡ connected
unfolding run create step connect new_ws report_open
opening_connects = refl

losing_waits : IsWaiting waiting_socket 1
unfolding run create step connect new_ws report_open schedule_reconnect is_unrecoverable_http_error
    from_error
losing_waits = record { state = refl; stored = refl; armed = refl }

losing_doubles : waiting_socket.backoff_ms ≡ 1000
unfolding run create step connect new_ws report_open schedule_reconnect is_unrecoverable_http_error
    from_error
losing_doubles = refl

create-run-Inv_example : Inv default_options waiting_socket
create-run-Inv_example = create-run-Inv env (at 0) losing

disposed_is_final_example :
    let t = run env (run env (create env (at 0)) closing_run) late in
    (t.state ≡ disposed)
    × (t.current_socket ≡ none)
    × (t.rt.armed_timers ≡ [])
    × (activity t.rt.effects ≡ activity (run env (create env (at 0)) closing_run).rt.effects)
unfolding run create step connect new_ws dispose
disposed_is_final_example = disposed_is_final env (at 0) closing_run late refl

paused : paused_socket.state ≡ disconnected
unfolding run create step connect new_ws report_open schedule_reconnect is_unrecoverable_http_error
    from_error handle_client_certificate_error settle_refresh
paused = refl

-- A certificate refresh that comes back after `disconnect` resumes the socket.
step-paused_example : (step env (at 60) certificate_resumed paused_socket).state ≡ connecting
unfolding run create step connect new_ws report_open schedule_reconnect is_unrecoverable_http_error
    from_error handle_client_certificate_error settle_refresh
step-paused_example =
    step-paused env (at 60) certificate_resumed paused_socket (create-run-Inv env (at 0) paused_run)
      paused

transient : IsTransient refused
unfolding is_unrecoverable_http_error from_error
transient = (refl, refl)

attempts_backoff_example :
    let t = attempts env (failed_attempt ∷ failed_attempt ∷ []) 1 waiting_socket in
    (t.state ≡ awaiting_retry)
    × (t.backoff_ms ≡ min (waiting_socket.backoff_ms * 2 ^ 2) default_options.max_backoff_ms)
attempts_backoff_example =
    attempts_backoff env (failed_attempt ∷ failed_attempt ∷ []) 1 waiting_socket
      (transient, (transient, tt)) losing_waits (rw losing_doubles (omega arith))

stream_close-final_example :
    Ends env (at 50) 1 1001 open_socket (step env (at 50) (stream_close 1 1001) open_socket)
unfolding run create step connect new_ws report_open
stream_close-final_example =
    stream_close-final env (at 50) 1 1001 open_socket (create-run-Inv env (at 0) opening) refl refl
      refl

create-run-Owned_example :
    (waiting_socket.rt.live_sockets ≡ ids_of waiting_socket.current_socket)
    × (waiting_socket.rt.pending_factories ≤ 1)
unfolding create connect new_ws
create-run-Owned_example = create-run-Owned env (at 0) losing (refl, (tt, (tt, (tt, (tt, tt)))))

overlapping_connects_leak_example :
    let s = run env (create env (at 0)) (
      (at 10, reconnect_called)
      ∷ (at 20, factory_resolved first_stream)
      ∷ (at 30, factory_resolved second_stream)
      ∷ []) in
    (s.current_socket ≡ some second_stream)
    × (s.rt.live_sockets ≡ 2 ∷ 1 ∷ [])
    × ((step env (at 40) (close_called none) s).rt.live_sockets ≡ 1 ∷ [])
overlapping_connects_leak_example =
    overlapping_connects_leak env (at 0) (at 10) (at 20) (at 30) (at 40) first_stream second_stream
      (ground arith)
