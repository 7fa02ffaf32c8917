-- ===== src/Logging/HttpRequests/Tests.antt =====
-- Tests and examples for the roll-up of HTTP requests.
use vscode_coder.Base.{◌≡◌, refl, none, some, List, [], ◌∷◌, codes}
use vscode_coder.Logging.HttpRequests.{
  Request, Event, request_ended, timer_fired, dispose_called, run, new_telemetry, count_status,
  count_request, count_in_routes, count_in, record_request, insert, sort, percentile,
  percentiles_of, flush_routes, flush_buckets, flush, dispose, fire_timer, step,
}

abbrev get_ok : Request
get_ok = record {
  method = codes "GET";
  route = codes "/api";
  duration = some 30;
  status = some 200;
}

abbrev get_slow : Request
get_slow = record { method = codes "GET"; route = codes "/api"; duration = some 10; status = none }

abbrev requests : List Event
requests =
    request_ended get_ok
    ∷ request_ended get_slow
    ∷ timer_fired 60000
    ∷ request_ended get_ok
    ∷ dispose_called 61000
    ∷ request_ended get_ok
    ∷ []

two_windows :
    (run (new_telemetry 0) requests).log
    ≡ record {
      method = codes "GET";
      route = codes "/api";
      window_seconds = 1;
      counts = ("count.2xx", 1) ∷ [];
      percentiles = some (record { p50 = 30; p95 = 30; p99 = 30 });
    }
      ∷ record {
        method = codes "GET";
        route = codes "/api";
        window_seconds = 60;
        counts = ("count.2xx", 1) ∷ ("count.network_error", 1) ∷ [];
        percentiles = some (record { p50 = 10; p95 = 30; p99 = 30 });
      }
      ∷ []
unfolding count_status count_request count_in_routes count_in record_request insert sort percentile
    percentiles_of flush_routes flush_buckets flush dispose fire_timer new_telemetry step run
two_windows = refl
