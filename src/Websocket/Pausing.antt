-- ===== src/Websocket/Pausing.antt =====
-- When a reconnecting socket is paused or finished, and what can still move it.
use vscode_coder.Base.{
  ℕ, zero, suc, ◌≡◌, refl, Bool, true, false, Option, none, List, [], ◌∷◌, arith, if◌then◌else◌,
}
use vscode_coder.Errors.ClientCertificate.{JsError}
use vscode_coder.Websocket.State
use vscode_coder.Websocket.State.{
  ConnectionState, ConnectionStateReason, disconnected, disposed, connecting,
}
use vscode_coder.Websocket.Socket.{
  Stream, Ws, Env, Tick, Effect, factory_called, handler_called, timer_set, refresh_called,
}
use vscode_coder.Websocket.Ops.{
  clear_timer, close_stream, connect, start_reconnect, reconnect_internal, disconnect_with_reason,
  handle_connection_error, dispose,
}
use vscode_coder.Websocket.Steps.{
  Event, listener_added, listener_removed, reconnect_called, disconnect_called, close_called,
  factory_resolved, factory_rejected, stream_open, stream_message, stream_error, stream_close,
  timer_fired, refresh_settled, certificate_resumed, add_event_listener, remove_event_listener,
  close, adopt_stream, fire_timer, settle_refresh, resume_certificate, factory_settled,
  refresh_done, resume_next, step, run, create,
}
use vscode_coder.Websocket.Invariant.{Inv}
use vscode_coder.Websocket.StepInvariant.{step-Inv, run-Inv, create-run-Inv}

-- The calls that an active socket makes: connections, handlers, timers, certificate refreshes.
abbrev pub activity : List Effect → ℕ
activity [] = 0
activity (factory_called ∷ es) = suc (activity es)
activity (handler_called h p ∷ es) = suc (activity es)
activity (timer_set t d ∷ es) = suc (activity es)
activity (refresh_called ∷ es) = suc (activity es)
activity (_ ∷ es) = activity es

module _ (env : Env) (tick : Tick) where
  abbrev Same : Ws → Ws → Type 0
  Same s t = (t.state ≡ disposed) × (activity t.rt.effects ≡ activity s.rt.effects)

  factory_settled-adopt-Same :
      (stream : Stream) (n : ℕ) (s : Ws)
      → s.state ≡ disposed
      → Same s (factory_settled env tick (adopt_stream env tick stream) n s)
  unfolding factory_settled adopt_stream close_stream
  factory_settled-adopt-Same stream zero s d = (d, refl)
  factory_settled-adopt-Same stream (suc n) s d = ground arith

  factory_settled-reject-Same :
      (err : JsError) (n : ℕ) (s : Ws)
      → s.state ≡ disposed
      → Same s (factory_settled env tick (handle_connection_error env tick err) n s)
  unfolding factory_settled handle_connection_error
  factory_settled-reject-Same err zero s d = (d, refl)
  factory_settled-reject-Same err (suc n) s d = ground arith

  refresh_done-Same :
      (ok : Bool) (n : ℕ) (s : Ws) → s.state ≡ disposed → Same s (refresh_done env tick ok n s)
  unfolding refresh_done settle_refresh
  refresh_done-Same ok zero s d = (d, refl)
  refresh_done-Same ok (suc n) s d = ground arith

  resume_next-Same :
      (results : List Bool) (s : Ws) → s.state ≡ disposed → Same s (resume_next env tick results s)
  unfolding resume_next resume_certificate reconnect_internal disconnect_with_reason
  resume_next-Same [] s d = (d, refl)
  resume_next-Same (true ∷ rest) s d = ground arith
  resume_next-Same (false ∷ rest) s d = ground arith

  step-Same :
      (e : Event) (s : Ws) → Inv env.opts s → s.state ≡ disposed → Same s (step env tick e s)
  unfolding step
  step-Same (listener_added event h) s v d = unfold add_event_listener in ground arith
  step-Same (listener_removed event h) s v d = unfold remove_event_listener in ground arith
  step-Same reconnect_called s v d = unfold reconnect_internal in ground arith
  step-Same (disconnect_called code) s v d = unfold disconnect_with_reason in ground arith
  step-Same (close_called code) s v d = unfold close in ground arith
  step-Same (factory_resolved stream) s v d =
      factory_settled-adopt-Same stream s.rt.pending_factories s d
  step-Same (factory_rejected err) s v d =
      factory_settled-reject-Same err s.rt.pending_factories s d
  step-Same (timer_fired timer) s v d = unfold fire_timer in ground arith
  step-Same (refresh_settled ok) s v d = refresh_done-Same ok s.rt.pending_refreshes s d
  step-Same certificate_resumed s v d = resume_next-Same s.rt.certificate_results s d
  step-Same (stream_open id) s v d = ground arith
  step-Same (stream_message id) s v d = ground arith
  step-Same (stream_error id err) s v d = ground arith
  step-Same (stream_close id code) s v d = ground arith

run-Same :
    (env : Env) (es : List (Tick × Event)) (s : Ws)
    → Inv env.opts s
    → s.state ≡ disposed
    → ((run env s es).state ≡ disposed)
      × (activity (run env s es).rt.effects ≡ activity s.rt.effects)
unfolding run
run-Same env [] s v d = (d, refl)
run-Same env ((tick, e) ∷ es) s v d =
    let (d', same) = step-Same env tick e s v d in
    let (last, later) = run-Same env es (step env tick e s) (step-Inv env tick e s v) d' in
    (last, ground arith)

-- Once a created socket is disposed, whatever events follow: it stays disposed, holds no socket and
-- no timer, and never again calls the factory, a handler, `setTimeout` or a certificate refresh.
pub disposed_is_final :
    (env : Env) (tick : Tick) (before after : List (Tick × Event))
    → (run env (create env tick) before).state ≡ disposed
    → let s = run env (create env tick) before in
      let t = run env s after in
      (t.state ≡ disposed)
      × (t.current_socket ≡ none)
      × (t.rt.armed_timers ≡ [])
      × (activity t.rt.effects ≡ activity s.rt.effects)
disposed_is_final env tick before after d =
    let v : Inv env.opts (run env (create env tick) before) = create-run-Inv env tick before in
    let (last, same) = run-Same env after (run env (create env tick) before) v d in
    let w : Inv env.opts (run env (run env (create env tick) before) after) =
      run-Inv env after (run env (create env tick) before) v in
    ground (arith, last, same, w)

abbrev head_is_true : List Bool → Bool
head_is_true [] = false
head_is_true (b ∷ bs) = b

-- Where an event takes a socket that is in DISCONNECTED: only `reconnect`, `close` and a certificate
-- refresh that succeeded earlier move it.
abbrev pub from_paused : Event → Ws → ConnectionState
from_paused reconnect_called s = connecting
from_paused (close_called code) s = disposed
from_paused certificate_resumed s =
    if head_is_true s.rt.certificate_results then connecting else disconnected
from_paused _ s = disconnected

module _ (env : Env) (tick : Tick) where
  factory_settled-adopt-paused :
      (stream : Stream) (n : ℕ) (s : Ws)
      → s.state ≡ disconnected
      → (factory_settled env tick (adopt_stream env tick stream) n s).state ≡ disconnected
  unfolding factory_settled adopt_stream close_stream
  factory_settled-adopt-paused stream zero s d = d
  factory_settled-adopt-paused stream (suc n) s d = ground arith

  factory_settled-reject-paused :
      (err : JsError) (n : ℕ) (s : Ws)
      → s.state ≡ disconnected
      → (factory_settled env tick (handle_connection_error env tick err) n s).state ≡ disconnected
  unfolding factory_settled handle_connection_error
  factory_settled-reject-paused err zero s d = d
  factory_settled-reject-paused err (suc n) s d = ground arith

  refresh_done-paused :
      (ok : Bool) (n : ℕ) (s : Ws)
      → s.state ≡ disconnected
      → (refresh_done env tick ok n s).state ≡ disconnected
  unfolding refresh_done settle_refresh
  refresh_done-paused ok zero s d = d
  refresh_done-paused ok (suc n) s d = ground arith

  reconnect_internal-paused :
      (reason : ConnectionStateReason) (s : Ws)
      → s.state ≡ disconnected
      → (reconnect_internal env tick reason s).state ≡ connecting
  unfolding reconnect_internal start_reconnect clear_timer connect
  reconnect_internal-paused reason s d = ground arith

  resume_next-paused :
      (results : List Bool) (s : Ws)
      → s.state ≡ disconnected
      → (resume_next env tick results s).state
        ≡ (if head_is_true results then connecting else disconnected)
  unfolding resume_next resume_certificate disconnect_with_reason
  resume_next-paused [] s d = d
  resume_next-paused (true ∷ rest) s d =
      reconnect_internal-paused State.certificate_refresh
        (record s { rt = record s.rt { certificate_results = rest } }) d
  resume_next-paused (false ∷ rest) s d = ground arith

  close-paused :
      (code : Option ℕ) (s : Ws)
      → Inv env.opts s
      → s.state ≡ disconnected
      → (close env tick code s).state ≡ disposed
  unfolding close dispose
  close-paused code s v d = ground arith

  -- A socket in DISCONNECTED goes to CONNECTING on `reconnect` and on a certificate refresh that
  -- comes back successful, to DISPOSED on `close`, and stays in DISCONNECTED on every other event.
  pub step-paused :
      (e : Event) (s : Ws)
      → Inv env.opts s
      → s.state ≡ disconnected
      → (step env tick e s).state ≡ from_paused e s
  unfolding step
  step-paused (listener_added event h) s v d = unfold add_event_listener in ground arith
  step-paused (listener_removed event h) s v d = unfold remove_event_listener in ground arith
  step-paused reconnect_called s v d = reconnect_internal-paused State.manual_reconnect s d
  step-paused (disconnect_called code) s v d = unfold disconnect_with_reason in ground arith
  step-paused (close_called code) s v d = close-paused code s v d
  step-paused (factory_resolved stream) s v d =
      factory_settled-adopt-paused stream s.rt.pending_factories s d
  step-paused (factory_rejected err) s v d =
      factory_settled-reject-paused err s.rt.pending_factories s d
  step-paused (timer_fired timer) s v d = unfold fire_timer in ground arith
  step-paused (refresh_settled ok) s v d = refresh_done-paused ok s.rt.pending_refreshes s d
  step-paused certificate_resumed s v d = resume_next-paused s.rt.certificate_results s d
  step-paused (stream_open id) s v d = ground arith
  step-paused (stream_message id) s v d = ground arith
  step-paused (stream_error id err) s v d = ground arith
  step-paused (stream_close id code) s v d = ground arith
