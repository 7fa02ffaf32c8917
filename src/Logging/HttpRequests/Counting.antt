-- ===== src/Logging/HttpRequests/Counting.antt =====
-- No request that logging/httpRequestsTelemetry.ts counts is lost or counted twice.
use vscode_coder.Base.{ℕ, ◌+◌, ◌≡◌, true, not, List, [], ◌∷◌, String, total, if◌then◌else◌}
use vscode_coder.Logging.HttpRequests.{
  Bucket, Buckets, HttpEvent, HttpTelemetry, Event, request_ended, timer_fired, dispose_called,
  step,
}

abbrev pub sum : List (String × ℕ) → ℕ
sum = total (λ c. c.1)

abbrev bucket_sum : Bucket → ℕ
bucket_sum b =
    b.count_1xx + b.count_2xx + b.count_3xx + b.count_4xx + b.count_5xx + b.count_network_error

-- How many requests the buckets, and the events, count.
abbrev pub in_buckets : Buckets → ℕ
in_buckets = total (λ m. total (λ r. bucket_sum r.1) m.1)

abbrev pub in_events : List HttpEvent → ℕ
in_events = total (λ e. sum e.counts)

-- How many requests are accepted: those that end before the disposal.
abbrev pub accepted : HttpTelemetry → List Event → ℕ
accepted t [] = 0
accepted t (request_ended r ∷ es) =
    (if t.is_disposed then 0 else 1) + accepted (step (request_ended r) t) es
accepted t (timer_fired now ∷ es) = accepted (step (timer_fired now) t) es
accepted t (dispose_called now ∷ es) = accepted (step (dispose_called now) t) es

pub record Counted (n : ℕ) (t : HttpTelemetry) : Type 0 where
  pub counted : in_events t.log + in_buckets t.buckets ≡ n
  pub all_told : t.is_disposed ≡ true → t.buckets ≡ []
  pub timer : t.timer_armed ≡ not t.is_disposed
