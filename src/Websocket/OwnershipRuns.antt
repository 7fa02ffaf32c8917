-- ===== src/Websocket/OwnershipRuns.antt =====
-- The ownership of streams over the runs of websocket/reconnectingWebSocket.ts.
use vscode_coder.Base.{
  ℕ, zero, suc, ◌≤◌, ◌≡◌, refl, Bool, true, false, none, List, [], ◌∷◌, arith, has, if◌then◌else◌,
  inl, inr, Bool-cases,
}
use vscode_coder.Errors.ClientCertificate.{JsError}
use vscode_coder.Websocket.State
use vscode_coder.Websocket.State.{
  ConnectionState, ConnectionStateReason, ConnectionDropCause, connecting, connected, disconnected,
  disposed,
}
use vscode_coder.Websocket.Socket.{message_payload, error_payload, Stream, Ws, new_ws, Env, Tick}
use vscode_coder.Websocket.Ops.{connect, handle_connection_error}
use vscode_coder.Websocket.Steps.{
  Event, listener_added, listener_removed, reconnect_called, disconnect_called, close_called,
  factory_resolved, factory_rejected, stream_open, stream_message, stream_error, stream_close,
  timer_fired, refresh_settled, certificate_resumed, add_event_listener, remove_event_listener,
  adopt_stream, settle_refresh, resume_certificate, factory_settled, refresh_done, resume_next,
  step, run, create, is_current,
}
use vscode_coder.Websocket.Invariant.{Inv, execute_handlers_lem}
use vscode_coder.Websocket.StepInvariant.{step-Inv, create-Inv}
use vscode_coder.Websocket.Ownership.{
  ids_of, Owned, execute_handlers-Owned, disconnect_with_reason-Owned, reconnect_internal-Owned,
  fire_timer-Owned, adopt_stream-Owned,
}
use vscode_coder.Websocket.OwnershipHandlers.{
  handle_connection_error-Owned, handle_socket_close-Owned, close-Owned, handle_open-Owned,
}

module _ (env : Env) (tick : Tick) where
  -- A connection is started only while the factory is idle, and the factory never hands over a
  -- stream that is still in use.
  abbrev pub Calm : Event → Ws → Type 0
  Calm reconnect_called s = s.rt.pending_factories ≡ 0
  Calm certificate_resumed s = s.rt.pending_factories ≡ 0
  Calm (factory_resolved stream) s = has s.rt.live_sockets stream.id ≡ false
  Calm _ s = Unit

  resolved-Owned :
      (stream : Stream) (n : ℕ) (s : Ws)
      → s.rt.pending_factories ≡ n
      → has s.rt.live_sockets stream.id ≡ false
      → Owned s
      → Owned (factory_settled env tick (adopt_stream env tick stream) n s)
  unfolding factory_settled
  resolved-Owned stream zero s e f o = o
  resolved-Owned stream (suc n) s e f o =
      let s' : Ws = record s { rt = record s.rt { pending_factories = n } } in
      let o' : Owned s' = ground arith in
      adopt_stream-Owned env tick stream o' (omega arith) f (λ c. o.pending_free (omega arith))

  rejected-Owned :
      (err : JsError) (n : ℕ) (s : Ws)
      → s.rt.pending_factories ≡ n
      → Owned s
      → Owned (factory_settled env tick (handle_connection_error env tick err) n s)
  unfolding factory_settled
  rejected-Owned err zero s e o = o
  rejected-Owned err (suc n) s e o =
      let s' : Ws = record s { rt = record s.rt { pending_factories = n } } in
      let o' : Owned s' = ground arith in
      handle_connection_error-Owned env tick err o' (omega arith)

  refresh_done-Owned : (ok : Bool) (n : ℕ) {s : Ws} → Owned s → Owned (refresh_done env tick ok n s)
  unfolding refresh_done settle_refresh
  refresh_done-Owned ok zero o = o
  refresh_done-Owned ok (suc n) o = ground arith

  resume_next-Owned :
      (results : List Bool) (s : Ws)
      → Owned s
      → s.rt.pending_factories ≡ 0
      → Owned (resume_next env tick results s)
  unfolding resume_next resume_certificate
  resume_next-Owned [] s o p = o
  resume_next-Owned (true ∷ rest) s o p =
      let o' : Owned (record s { rt = record s.rt { certificate_results = rest } }) =
        ground arith in
      reconnect_internal-Owned env tick State.certificate_refresh o' p
  resume_next-Owned (false ∷ rest) s o p =
      let o' : Owned (record s { rt = record s.rt { certificate_results = rest } }) =
        ground arith in
      disconnect_with_reason-Owned env tick State.certificate_error State.by_error none true o'

  current-idle : (id : ℕ) (s : Ws) → Owned s → is_current id s ≡ true → s.rt.pending_factories ≡ 0
  current-idle id s o h = ground arith

  guarded-Owned :
      (id : ℕ) (s t : Ws)
      → Owned s
      → (s.rt.pending_factories ≡ 0 → Owned t)
      → Owned (if is_current id s then t else s)
  guarded-Owned id s t o k = elim (Bool-cases (is_current id s)) [
    | inl same ↦ rw same (k (current-idle id s o same))
    | inr other ↦ rw other o
  ]

  step-Owned :
      (e : Event) (s : Ws) → Inv env.opts s → Owned s → Calm e s → Owned (step env tick e s)
  unfolding step
  step-Owned (listener_added event h) s v o c = unfold add_event_listener in ground arith
  step-Owned (listener_removed event h) s v o c = unfold remove_event_listener in ground arith
  step-Owned reconnect_called s v o c = reconnect_internal-Owned env tick State.manual_reconnect o c
  step-Owned (disconnect_called code) s v o c =
      disconnect_with_reason-Owned env tick State.disconnect_call State.by_manual_disconnect code
        false o
  step-Owned (close_called code) s v o c = close-Owned env tick code o
  step-Owned (factory_resolved stream) s v o c =
      resolved-Owned stream s.rt.pending_factories s refl c o
  step-Owned (factory_rejected err) s v o c = rejected-Owned err s.rt.pending_factories s refl o
  step-Owned (timer_fired timer) s v o c = fire_timer-Owned env tick timer v o
  step-Owned (refresh_settled ok) s v o c = refresh_done-Owned ok s.rt.pending_refreshes o
  step-Owned certificate_resumed s v o c = resume_next-Owned s.rt.certificate_results s o c
  step-Owned (stream_open id) s v o c = guarded-Owned id s _ o (λ p. handle_open-Owned env tick o p)
  step-Owned (stream_message id) s v o c =
      guarded-Owned id s _ o
        (λ p. execute_handlers-Owned env tick s.handlers.on_message message_payload o)
  step-Owned (stream_error id err) s v o c = guarded-Owned id s _ o (λ p.
      handle_connection_error-Owned env tick err
        (execute_handlers-Owned env tick s.handlers.on_error error_payload o)
        (rw execute_handlers_lem p))
  step-Owned (stream_close id code) s v o c =
      guarded-Owned id s _ o (λ p. handle_socket_close-Owned env tick code o p)

  create-Owned : Owned (create env tick)
  unfolding create new_ws connect
  create-Owned = ground arith

-- A run in which every event is calm where it happens.
abbrev pub CalmRun : Env → Ws → List (Tick × Event) → Type 0
CalmRun env s [] = Unit
CalmRun env s ((tick, e) ∷ es) = Calm env tick e s × CalmRun env (step env tick e s) es

run-Owned :
    (env : Env) (es : List (Tick × Event)) (s : Ws)
    → Inv env.opts s
    → Owned s
    → CalmRun env s es
    → Owned (run env s es)
unfolding run
run-Owned env [] s v o c = o
run-Owned env ((tick, e) ∷ es) s v o (c, cs) =
    run-Owned env es (step env tick e s) (step-Inv env tick e s v) (step-Owned env tick e s v o c)
      cs

-- In a run of a created socket in which no connection is started while the factory still owes one,
-- and the factory hands over no stream that is in use: at every moment the streams that were handed
-- over and not closed are exactly the current one, and at most one call of the factory is pending.
pub create-run-Owned :
    (env : Env) (tick : Tick) (es : List (Tick × Event))
    → CalmRun env (create env tick) es
    → let s = run env (create env tick) es in
      (s.rt.live_sockets ≡ ids_of s.current_socket) × (s.rt.pending_factories ≤ 1)
create-run-Owned env tick es c =
    let o = run-Owned env es (create env tick) (create-Inv env tick) (create-Owned env tick) c in
    (o.live, o.single)
