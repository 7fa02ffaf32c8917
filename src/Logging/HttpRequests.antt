-- ===== src/Logging/HttpRequests.antt =====
-- The class HttpRequestsTelemetry of logging/httpRequestsTelemetry.ts. The method and the route come
-- formatted and normalized; times are in milliseconds, and the clock does not run backwards. A
-- percentile's share is taken exactly, in hundredths.
pub mod Counting
mod Tests
use vscode_coder.Base.{
  ℕ, suc, ◌+◌, ◌-◌, ◌*◌, ◌/◌, max, Bool, true, false, not, ◌&&◌, Option, none, some, List, [], ◌∷◌,
  ◌++◌, String, Text, text_eq, length, get_elem?, ltb, leb, if◌then◌else◌,
}

pub record Bucket : Type 0 where
  pub count_1xx : ℕ
  pub count_2xx : ℕ
  pub count_3xx : ℕ
  pub count_4xx : ℕ
  pub count_5xx : ℕ
  pub count_network_error : ℕ
  pub durations : List ℕ

abbrev pub new_bucket : Bucket
new_bucket = record {
  count_1xx = 0;
  count_2xx = 0;
  count_3xx = 0;
  count_4xx = 0;
  count_5xx = 0;
  count_network_error = 0;
  durations = [];
}

abbrev pub Routes : Type 0
Routes = List (Text × Bucket)

abbrev pub Buckets : Type 0
Buckets = List (Text × Routes)

-- What the reporter gets: the window, the counters that are not zero, the percentiles if there are any.
pub record Percentiles : Type 0 where
  pub p50 : ℕ
  pub p95 : ℕ
  pub p99 : ℕ

pub record HttpEvent : Type 0 where
  pub method : Text
  pub route : Text
  pub window_seconds : ℕ
  pub counts : List (String × ℕ)
  pub percentiles : Option Percentiles

pub record HttpTelemetry : Type 0 where
  pub is_disposed : Bool
  pub timer_armed : Bool
  pub window_started_at : ℕ
  pub buckets : Buckets
  -- the events, the newest first
  pub log : List HttpEvent

-- the status that is counted, none for a network error
abbrev pub within : ℕ → ℕ → ℕ → Bool
within low high status = leb low status && ltb status high

unfoldable pub count_status : Option ℕ → Bucket → Bucket
count_status none b = record b { count_network_error = suc b.count_network_error }
count_status (some status) b =
    if within 100 200 status
    then record b { count_1xx = suc b.count_1xx }
    else if within 200 300 status
    then record b { count_2xx = suc b.count_2xx }
    else if within 300 400 status
    then record b { count_3xx = suc b.count_3xx }
    else if within 400 500 status
    then record b { count_4xx = suc b.count_4xx }
    else if within 500 600 status
    then record b { count_5xx = suc b.count_5xx }
    else record b { count_network_error = suc b.count_network_error }

abbrev add_duration : Option ℕ → Bucket → Bucket
add_duration none b = b
add_duration (some duration) b = record b { durations = b.durations ++ duration ∷ [] }

-- One request: its duration, where it carries the start, and its status.
pub record Request : Type 0 where
  pub method : Text
  pub route : Text
  pub duration : Option ℕ
  pub status : Option ℕ

unfoldable pub count_request : Request → Bucket → Bucket
unfolding count_status
count_request r b = count_status r.status (add_duration r.duration b)

-- `getOrCreateBucket`, and the counting in the bucket it gives
unfoldable pub count_in_routes : Request → Routes → Routes
count_in_routes r [] = (r.route, count_request r new_bucket) ∷ []
count_in_routes r ((route, b) ∷ rest) =
    let later = count_in_routes r rest in
    if text_eq route r.route then (route, count_request r b) ∷ rest else (route, b) ∷ later

unfoldable pub count_in : Request → Buckets → Buckets
count_in r [] = (r.method, count_in_routes r []) ∷ []
count_in r ((method, routes) ∷ rest) =
    let later = count_in r rest in
    if text_eq method r.method
    then (method, count_in_routes r routes) ∷ rest
    else (method, routes) ∷ later

-- `record`
unfoldable pub record_request : Request → HttpTelemetry → HttpTelemetry
record_request r t = if t.is_disposed then t else record t { buckets = count_in r t.buckets }

abbrev pub nonzero : List (String × ℕ) → List (String × ℕ)
nonzero [] = []
nonzero ((key, count) ∷ rest) =
    let later = nonzero rest in if ltb 0 count then (key, count) ∷ later else later

abbrev pub counts_of : Bucket → List (String × ℕ)
counts_of b =
    ("count.1xx", b.count_1xx)
    ∷ ("count.2xx", b.count_2xx)
    ∷ ("count.3xx", b.count_3xx)
    ∷ ("count.4xx", b.count_4xx)
    ∷ ("count.5xx", b.count_5xx)
    ∷ ("count.network_error", b.count_network_error)
    ∷ []

-- `toSorted` by value
unfoldable pub insert : ℕ → List ℕ → List ℕ
insert a [] = a ∷ []
insert a (b ∷ bs) = let later = insert a bs in if leb a b then a ∷ b ∷ bs else b ∷ later

unfoldable pub sort : List ℕ → List ℕ
sort [] = []
sort (a ∷ bs) = insert a (sort bs)

abbrev or_zero : Option ℕ → ℕ
or_zero none = 0
or_zero (some a) = a

-- `percentile`: `Math.ceil` of the share of the length, less one
unfoldable pub percentile : List ℕ → (share : ℕ) → ℕ
percentile sorted share = or_zero (get_elem? sorted ((length sorted * share + 99) / 100 - 1))

unfoldable pub percentiles_of : List ℕ → Option Percentiles
unfolding percentile
percentiles_of [] = none
percentiles_of (d ∷ ds) =
    let sorted = sort (d ∷ ds) in
    some (record {
      p50 = percentile sorted 50;
      p95 = percentile sorted 95;
      p99 = percentile sorted 99;
    })

abbrev event_of : (window : ℕ) → (method route : Text) → Bucket → HttpEvent
event_of window method route b = record {
  method = method;
  route = route;
  window_seconds = window;
  counts = nonzero (counts_of b);
  percentiles = percentiles_of b.durations;
}

unfoldable pub flush_routes :
    (window : ℕ) → (method : Text) → Routes → List HttpEvent → List HttpEvent
flush_routes window method [] log = log
flush_routes window method ((route, b) ∷ rest) log =
    flush_routes window method rest (event_of window method route b ∷ log)

unfoldable pub flush_buckets : (window : ℕ) → Buckets → List HttpEvent → List HttpEvent
flush_buckets window [] log = log
flush_buckets window ((method, routes) ∷ rest) log =
    flush_buckets window rest (flush_routes window method routes log)

-- `flush`; the seconds are rounded
unfoldable pub flush : (now : ℕ) → HttpTelemetry → HttpTelemetry
flush now t =
    let window = max 1 ((now - t.window_started_at + 500) / 1000) in
    record t { buckets = []; window_started_at = now; log = flush_buckets window t.buckets t.log }

-- `dispose`
unfoldable pub dispose : (now : ℕ) → HttpTelemetry → HttpTelemetry
dispose now t =
    if t.is_disposed then t else record (flush now t) { is_disposed = true; timer_armed = false }

-- the timer's function, where one is armed
unfoldable pub fire_timer : (now : ℕ) → HttpTelemetry → HttpTelemetry
fire_timer now t =
    if t.timer_armed then record (flush now t) { timer_armed = not t.is_disposed } else t

-- the constructor, with a reporter that reports
unfoldable pub new_telemetry : (now : ℕ) → HttpTelemetry
new_telemetry now = record {
  is_disposed = false;
  timer_armed = true;
  window_started_at = now;
  buckets = [];
  log = [];
}

pub data Event : Type 0 where
  request_ended : Request → Event
  timer_fired dispose_called : (now : ℕ) → Event

unfoldable pub step : Event → HttpTelemetry → HttpTelemetry
step (request_ended r) t = record_request r t
step (timer_fired now) t = fire_timer now t
step (dispose_called now) t = dispose now t

unfoldable pub run : HttpTelemetry → List Event → HttpTelemetry
run t [] = t
run t (e ∷ es) = run (step e t) es
