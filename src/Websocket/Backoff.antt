-- ===== src/Websocket/Backoff.antt =====
-- Retries of a reconnecting socket: the delay of one retry and the growth of the backoff.
use native.Mathlib.Nat.{mul-le-mul_left, mul-le-mul_right, min-eq_left, min-eq_right, pow-suc}
use native.Mathlib.Decide.{dec_le}
use vscode_coder.Base.{
  ℕ, zero, suc, ◌+◌, ◌-◌, ◌*◌, ◌^◌, ◌≤◌, ◌<◌, ◌∙◌, All, length, subst, min, ◌≡◌, true, false, none,
  some, List, [], ◌∷◌, arith,
}
use vscode_coder.Errors.ClientCertificate.{JsError, from_error}
use vscode_coder.Websocket.State
use vscode_coder.Websocket.State.{ConnectionState, awaiting_retry, connecting, connected}
use vscode_coder.Websocket.Socket.{Options, Ws, Env, Tick}
use vscode_coder.Websocket.Ops.{
  retry_delay, is_unrecoverable_http_error, schedule_reconnect, handle_connection_error, connect,
}
use vscode_coder.Websocket.Steps.{fire_timer, factory_settled, factory_rejected, timer_fired, step}

module _ (b n k r d : ℕ) where
  delay_low : b * k * d ≤ b * ((n + k) * d) + b * n * (r * 2) - b * n * d
  delay_low = omega arith

  delay_high : r ≤ d → b * ((n + k) * d) + b * n * (r * 2) - b * n * d ≤ b * (n + k + n) * d
  delay_high h = omega (arith, mul-le-mul_left (b * n) h)

-- With a draw from [0, 1] and a jitter factor of at most 1, the delay lies within the jitter of the
-- backoff, on both sides.
retry_delay_bounds :
    (opts : Options) (backoff random : ℕ)
    → opts.jitter_num ≤ opts.jitter_den
    → random ≤ opts.random_den
    → (backoff * (opts.jitter_den - opts.jitter_num) * opts.random_den
        ≤ retry_delay opts backoff random)
      × (retry_delay opts backoff random
          ≤ backoff * (opts.jitter_den + opts.jitter_num) * opts.random_den)
unfolding retry_delay
retry_delay_bounds opts backoff random p q =
    let n = opts.jitter_num in
    let k = opts.jitter_den - opts.jitter_num in
    let split : n + k ≡ opts.jitter_den = omega arith in
    (
      subst
          (λ d.
            backoff * k * opts.random_den
            ≤ backoff * (d * opts.random_den)
              + backoff * n * (random * 2)
              - backoff * n * opts.random_den)
          split (delay_low backoff n k random opts.random_den),
      subst
          (λ d.
            backoff * (d * opts.random_den)
              + backoff * n * (random * 2)
              - backoff * n * opts.random_den
            ≤ backoff * (d + n) * opts.random_den)
          split (delay_high backoff n k random opts.random_den q),
    )

-- An error that neither ends reconnection nor is about the client certificate.
abbrev pub IsTransient : JsError → Type 0
IsTransient err = (is_unrecoverable_http_error err ≡ false) × (from_error err ≡ none)

-- A socket in AWAITING_RETRY whose timer is `timer`, the last one set.
pub record IsWaiting (s : Ws) (timer : ℕ) : Type 0 where
  pub state : s.state ≡ awaiting_retry
  pub stored : s.reconnect_timeout ≡ some timer
  pub armed : s.rt.armed_timers ≡ timer ∷ []

-- A socket whose factory has been called from a timer.
record IsTrying (s : Ws) : Type 0 where
  state : s.state ≡ connecting
  stored : s.reconnect_timeout ≡ none
  armed : s.rt.armed_timers ≡ []

fire_timer_lem :
    (env : Env) (tick : Tick) (timer : ℕ) {s : Ws}
    → IsWaiting s timer
    → let t = fire_timer env tick timer s in
      IsTrying t
      × (t.rt.pending_factories ≡ suc s.rt.pending_factories)
      × (t.rt.next_timer ≡ s.rt.next_timer)
      × (t.backoff_ms ≡ s.backoff_ms)
unfolding fire_timer connect
fire_timer_lem env tick timer w = ground arith

schedule_reconnect_lem :
    (env : Env) (tick : Tick) {s : Ws}
    → IsTrying s
    → let t = schedule_reconnect env tick State.connection_error State.by_error none true s in
      IsWaiting t s.rt.next_timer × (t.backoff_ms ≡ min (s.backoff_ms * 2) env.opts.max_backoff_ms)
unfolding schedule_reconnect
schedule_reconnect_lem env tick w = ground arith

reject_lem :
    (env : Env) (tick : Tick) (err : JsError) (n : ℕ) (s : Ws)
    → IsTransient err
    → IsTrying s
    → let t = factory_settled env tick (handle_connection_error env tick err) (suc n) s in
      IsWaiting t s.rt.next_timer × (t.backoff_ms ≡ min (s.backoff_ms * 2) env.opts.max_backoff_ms)
unfolding factory_settled handle_connection_error
reject_lem env tick err n s h w =
    let s' : Ws = record s { rt = record s.rt { pending_factories = n } } in
    let w' : IsTrying s' = ground arith in
    let done = schedule_reconnect_lem env tick w' in rw (w.state, h.0, h.1) (done.0, done.1)

reject_from :
    (env : Env) (tick : Tick) (err : JsError) (n k b : ℕ) (s : Ws)
    → IsTransient err
    → IsTrying s
    → s.rt.pending_factories ≡ suc n
    → s.rt.next_timer ≡ k
    → s.backoff_ms ≡ b
    → IsWaiting (step env tick (factory_rejected err) s) k
      × ((step env tick (factory_rejected err) s).backoff_ms ≡ min (b * 2) env.opts.max_backoff_ms)
unfolding step
reject_from env tick err n k b s h w p q r = rw (p, ← q, ← r) (reject_lem env tick err n s h w)

-- One failed attempt: the timer goes off and the factory rejects.
pub record Attempt : Type 0 where
  pub fired : Tick
  pub failed : Tick
  pub error : JsError

abbrev pub attempt : Env → Attempt → ℕ → Ws → Ws
attempt env a timer s =
    step env a.failed (factory_rejected a.error) (step env a.fired (timer_fired timer) s)

attempt_lem :
    (env : Env) (a : Attempt) (timer : ℕ) (s : Ws)
    → IsTransient a.error
    → IsWaiting s timer
    → IsWaiting (attempt env a timer s) s.rt.next_timer
      × ((attempt env a timer s).backoff_ms ≡ min (s.backoff_ms * 2) env.opts.max_backoff_ms)
unfolding step
attempt_lem env a timer s h w =
    let t : Ws = step env a.fired (timer_fired timer) s in
    let (trying, pending, next, backoff) = fire_timer_lem env a.fired timer w in
    reject_from env a.failed a.error s.rt.pending_factories s.rt.next_timer s.backoff_ms t h trying
      pending next backoff

-- Failed attempts one after the other, each with the timer that the one before has set.
pub attempts : Env → List Attempt → ℕ → Ws → Ws
attempts env [] timer s = s
attempts env (a ∷ rest) timer s = attempts env rest s.rt.next_timer (attempt env a timer s)

pow-pos : (n : ℕ) → 0 < 2 ^ n
pow-pos zero = omega arith
pow-pos (suc n) = rw pow-suc (omega (arith, pow-pos n))

min_step : (b m p : ℕ) → min (min (b * 2) m * suc p) m ≡ min (b * (suc p * 2)) m
min_step b m p = elim (dec_le (b * 2) m) [
  | yes small ↦ rw (min-eq_left small) (omega arith)
  | no large ↦
      let big : m ≤ b * 2 = omega arith in
      rw (min-eq_right big) (omega (arith, mul-le-mul_right (suc p) big))
]

doubled : (b m n k : ℕ) → k ≡ min (b * 2) m → min (k * 2 ^ n) m ≡ min (b * 2 ^ suc n) m
doubled b m n k e =
    let p : 2 ^ n ≡ suc (2 ^ n - 1) = omega (arith, pow-pos n) in
    rw (e, pow-suc, p) (min_step b m (2 ^ n - 1))

-- For a waiting socket whose backoff is no more than the maximum: after n attempts in a row that fail
-- with errors that are neither an unrecoverable HTTP error nor an alert of the client certificate, it
-- waits again, and its backoff has doubled n times, up to the maximum.
pub attempts_backoff :
    (env : Env) (rest : List Attempt) (timer : ℕ) (s : Ws)
    → All (λ a. IsTransient a.error) rest
    → IsWaiting s timer
    → s.backoff_ms ≤ env.opts.max_backoff_ms
    → let t = attempts env rest timer s in
      (t.state ≡ awaiting_retry)
      × (t.backoff_ms ≡ min (s.backoff_ms * 2 ^ length rest) env.opts.max_backoff_ms)
unfolding attempts
attempts_backoff env [] timer s h w b = (w.state, omega arith)
attempts_backoff env (a ∷ rest) timer s (h, hs) w b =
    let (waiting, once) = attempt_lem env a timer s h w in
    let t = attempt env a timer s in
    let (state, backoff) = attempts_backoff env rest s.rt.next_timer t hs waiting (omega arith) in
    (state, backoff ∙ doubled s.backoff_ms env.opts.max_backoff_ms (length rest) t.backoff_ms once)
