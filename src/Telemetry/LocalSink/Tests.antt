-- ===== src/Telemetry/LocalSink/Tests.antt =====
-- Runs of a sink, on concrete events.
use vscode_coder.Base.{◌*◌, ◌≡◌, refl, some, List, [], ◌∷◌, codes, length}
use vscode_coder.Telemetry.LocalSink.{
  SinkConfig, Env, start, Event, written, run_started, dispose_called, io_settled, made, read, done,
  timer_fired, flush_settled, run, step, rotate, append_done, settle, size_read, write,
  enforce_buffer_limit, start_run, do_flush, flush, dir_made, schedule_next_flush,
}
use vscode_coder.Telemetry.LocalSink.Order.{InOrder, lines_of, start-run-InOrder}

abbrev env : Env
env = record { header_bytes = 20; payload_bytes = λ lines. 30 * length lines }

abbrev config : SinkConfig
config = record {
  flush_interval_ms = 1000;
  flush_batch_size = 2;
  buffer_limit = 10;
  max_file_bytes = 100;
}

abbrev two_lines : List Event
two_lines =
    written (some (codes "a"))
    ∷ written (some (codes "b"))
    ∷ run_started
    ∷ io_settled (made 7)
    ∷ io_settled (read 0)
    ∷ io_settled done
    ∷ timer_fired 0
    ∷ flush_settled
    ∷ dispose_called
    ∷ []

stored_lines : lines_of (run env (start config) two_lines).appends ≡ codes "a" ∷ codes "b" ∷ []
unfolding run step start write enforce_buffer_limit start_run do_flush flush dir_made settle
    size_read rotate append_done schedule_next_flush
stored_lines = refl

start-run-InOrder_example : InOrder (run env (start config) two_lines)
start-run-InOrder_example = start-run-InOrder env config two_lines
