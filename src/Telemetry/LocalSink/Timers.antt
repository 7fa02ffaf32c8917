-- ===== src/Telemetry/LocalSink/Timers.antt =====
-- The timer and the flush chain of telemetry/sinks/localJsonlSink.ts.
use vscode_coder.Base.{
  ℕ, zero, suc, ◌≡◌, refl, ◌⊎◌, Bool, true, false, Option, none, some, List, [], ◌∷◌, Text, arith,
}
use vscode_coder.Telemetry.LocalSink.{
  SinkConfig, Flight, making_dir, reading_size, appending, Sink, Env, clear_timer,
  schedule_next_flush, start, enforce_buffer_limit, flush, write, dispose, do_flush, start_run,
  fail_flush, dir_made, size_read, append_done, Outcome, made, read, done, failed, settle,
  config_change, fire_timer, resume_timer, Event, written, flush_called, dispose_called,
  run_started, flush_settled, config_changed, timer_fired, io_settled, step, run,
}

abbrev one_if : Bool → ℕ
one_if true = 1
one_if false = 0

-- The armed timers: none, or the stored one.
abbrev pub OneTimer : Option ℕ → List ℕ → Type 0
OneTimer none armed = armed ≡ []
OneTimer (some t) armed = (armed ≡ []) ⊎ (armed ≡ t ∷ [])

pub record Inv (s : Sink) : Type 0 where
  -- the chain holds one run that has not started, or none, as the flag says
  pub queue : s.chained ≡ one_if s.has_queued
  pub timer : OneTimer s.flush_timer s.armed_timers
  pub stopped : s.disposed ≡ true → s.armed_timers ≡ []

flush-Inv : {s : Sink} → Inv s → Inv (flush s)
unfolding flush
flush-Inv v = ground arith

clear_timer-none : (s : Sink) → Inv s → (clear_timer s).armed_timers ≡ []
unfolding clear_timer
clear_timer-none s v = ground arith

schedule_next_flush-Inv : (s : Sink) → Inv s → Inv (schedule_next_flush s)
unfolding schedule_next_flush clear_timer
schedule_next_flush-Inv s v = ground arith

write-Inv : (line : Option Text) (s : Sink) → Inv s → Inv (write line s)
unfolding write enforce_buffer_limit flush
write-Inv none s v = v
write-Inv (some line) s v = ground arith

start_run-Inv :
    (flight : Option Flight) (n : ℕ) (s : Sink) → s.chained ≡ n → Inv s → Inv (start_run flight n s)
unfolding start_run do_flush
start_run-Inv (some f) n s e v = v
start_run-Inv none zero s e v = v
start_run-Inv none (suc n) s e v = ground arith

resume_timer-Inv : (n : ℕ) (s : Sink) → Inv s → Inv (resume_timer n s)
unfolding resume_timer
resume_timer-Inv zero s v = v
resume_timer-Inv (suc n) s v = schedule_next_flush-Inv (record s { resumptions = n }) (ground arith)

config_change-Inv : (config : SinkConfig) (s : Sink) → Inv s → Inv (config_change config s)
unfolding config_change schedule_next_flush clear_timer
config_change-Inv config s v = ground arith

fire_timer-Inv : (timer : ℕ) (s : Sink) → Inv s → Inv (fire_timer timer s)
unfolding fire_timer flush
fire_timer-Inv timer s v = ground arith

settle-Inv :
    (env : Env) (flight : Option Flight) (outcome : Outcome) (s : Sink)
    → Inv s
    → Inv (settle env flight outcome s)
unfolding settle dir_made size_read append_done fail_flush
settle-Inv env (some (making_dir lines)) (made today) s v = ground arith
settle-Inv env (some (making_dir lines)) failed s v = ground arith
settle-Inv env (some (reading_size lines today)) (read size) s v = ground arith
settle-Inv env (some (appending lines next)) done s v = ground arith
settle-Inv env (some (appending lines next)) failed s v = ground arith
settle-Inv env flight outcome s v = v

step-Inv : (env : Env) (e : Event) (s : Sink) → Inv s → Inv (step env e s)
unfolding step
step-Inv env (written line) s v = write-Inv line s v
step-Inv env flush_called s v = flush-Inv v
step-Inv env dispose_called s v = unfold dispose clear_timer flush in ground arith
step-Inv env run_started s v = start_run-Inv s.flight s.chained s refl v
step-Inv env flush_settled s v = resume_timer-Inv s.resumptions s v
step-Inv env (config_changed config) s v = config_change-Inv config s v
step-Inv env (timer_fired timer) s v = fire_timer-Inv timer s v
step-Inv env (io_settled outcome) s v = settle-Inv env s.flight outcome s v

run-Inv : (env : Env) (es : List Event) (s : Sink) → Inv s → Inv (run env s es)
unfolding run
run-Inv env [] s v = v
run-Inv env (e ∷ es) s v = run-Inv env es (step env e s) (step-Inv env e s v)

start-Inv : (config : SinkConfig) → Inv (start config)
unfolding start schedule_next_flush clear_timer
start-Inv config = ground arith

-- Whatever writes, flushes, timers, settings changes and answers of the file system reach a started
-- sink, in any order: at most one run waits on the flush chain, and the flag says whether one does; at
-- most one timer is armed, the one that is stored; and a disposed sink has no timer.
start-run-Inv :
    (env : Env) (config : SinkConfig) (es : List Event) → Inv (run env (start config) es)
start-run-Inv env config es = run-Inv env es (start config) (start-Inv config)
