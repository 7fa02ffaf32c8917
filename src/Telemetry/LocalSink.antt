-- ===== src/Telemetry/LocalSink.antt =====
-- telemetry/sinks/localJsonlSink.ts: the sink that appends telemetry events to files of the session.
-- A run on the flush chain starts in a turn of its own, and each await of an append is a stage that an
-- event settles. A rejected append is taken to have written nothing. Dates are day numbers.
pub mod Order
pub mod Timers
pub mod Rotation
mod Tests
use vscode_coder.Base.{
  ℕ, zero, suc, ◌+◌, ◌-◌, Bool, true, false, ◌&&◌, Option, none, some, List, [], ◌∷◌, ◌++◌, Text,
  length, drop, has, without, leb, ltb, ◌==◌, if◌then◌else◌,
}

-- The settings of `LocalSinkConfig` that writing and flushing read.
pub record SinkConfig : Type 0 where
  pub flush_interval_ms : ℕ
  pub flush_batch_size : ℕ
  pub buffer_limit : ℕ
  pub max_file_bytes : ℕ

-- `CurrentFile`; none is the empty date
pub record CurrentFile : Type 0 where
  pub date : Option ℕ
  pub segment : ℕ
  pub size : ℕ

-- What a flush that has taken its lines awaits.
pub data Flight : Type 0 where
  making_dir : (lines : List Text) → Flight
  reading_size : (lines : List Text) → (today : ℕ) → Flight
  appending : (lines : List Text) → CurrentFile → Flight

-- One call of `appendFile` that succeeded.
pub record Append : Type 0 where
  pub date : Option ℕ
  pub segment : ℕ
  pub with_header : Bool
  pub lines : List Text

pub record Sink : Type 0 where
  pub buffer : List Text
  pub config : SinkConfig
  pub flush_timer : Option ℕ
  pub has_queued : Bool
  pub current : CurrentFile
  pub disposed : Bool
  pub overflow_warned : Bool
  -- the flush chain: the runs that have not started, and the one that awaits
  pub chained : ℕ
  pub flight : Option Flight
  -- armed timers, and timer callbacks that wait for their flush
  pub next_timer : ℕ
  pub armed_timers : List ℕ
  pub resumptions : ℕ
  -- the appends, oldest first
  pub appends : List Append
  -- the lines that were buffered, oldest first, and how many of them were given up
  pub accepted : List Text
  pub lost : ℕ

-- The header line's bytes, and `Buffer.byteLength` of the joined lines.
pub record Env : Type 0 where
  pub header_bytes : ℕ
  pub payload_bytes : List Text → ℕ

-- `clearTimeout` where a timer is stored
unfoldable pub clear_timer : Sink → Sink
clear_timer s = elim s.flush_timer [
  | none ↦ s
  | some t ↦ record s { flush_timer = none; armed_timers = without s.armed_timers t }
]

abbrev pub arm_timer : Sink → Sink
arm_timer s = record s {
  flush_timer = some s.next_timer;
  next_timer = suc s.next_timer;
  armed_timers = s.next_timer ∷ s.armed_timers;
}

-- `#scheduleNextFlush`
unfoldable pub schedule_next_flush : Sink → Sink
unfolding clear_timer
schedule_next_flush s =
    let cleared = clear_timer s in if s.disposed then cleared else arm_timer cleared

-- `start`, with the settings it reads
unfoldable pub start : SinkConfig → Sink
unfolding schedule_next_flush
start config = schedule_next_flush (record {
  buffer = [];
  config = config;
  flush_timer = none;
  has_queued = false;
  current = record { date = none; segment = 0; size = 0 };
  disposed = false;
  overflow_warned = false;
  chained = 0;
  flight = none;
  next_timer = 0;
  armed_timers = [];
  resumptions = 0;
  appends = [];
  accepted = [];
  lost = 0;
})

-- `#enforceBufferLimit`
unfoldable pub enforce_buffer_limit : Sink → Sink
enforce_buffer_limit s =
    let overage = length s.buffer - s.config.buffer_limit in
    if overage == 0 then s else record s {
      buffer = drop overage s.buffer;
      overflow_warned = true;
      lost = s.lost + overage;
    }

-- `flush`: at most one run is queued
unfoldable pub flush : Sink → Sink
flush s = if s.has_queued then s else record s { has_queued = true; chained = suc s.chained }

abbrev pub push : Text → Sink → Sink
push line s = record s { buffer = s.buffer ++ line ∷ []; accepted = s.accepted ++ line ∷ [] }

-- `write`, with the serialized event; none where that fails
unfoldable pub write : Option Text → Sink → Sink
unfolding enforce_buffer_limit flush
write none s = s
write (some line) s =
    let kept = enforce_buffer_limit (push line s) in
    if s.disposed
    then s
    else if leb s.config.flush_batch_size (length kept.buffer)
    then flush kept
    else kept

-- `dispose`
unfoldable pub dispose : Sink → Sink
unfolding clear_timer flush
dispose s = if s.disposed then s else flush (clear_timer (record s { disposed = true }))

-- `#doFlush`, up to its first await
unfoldable pub do_flush : Sink → Sink
do_flush s = elim s.buffer [
  | [] ↦ s
  | line ∷ lines ↦ record s { buffer = []; flight = some (making_dir (line ∷ lines)) }
]

-- a run on the chain starts once the one before it has settled
unfoldable pub start_run : Option Flight → ℕ → Sink → Sink
unfolding do_flush
start_run (some f) n s = s
start_run none zero s = s
start_run none (suc n) s = do_flush (record s { chained = n; has_queued = false })

-- the end of `#nextFile`
unfoldable pub rotate : Env → ℕ → List Text → SinkConfig → CurrentFile → CurrentFile
rotate env today lines config seeded =
    if ltb 0 seeded.size && ltb config.max_file_bytes (seeded.size + env.payload_bytes lines)
    then record { date = some today; segment = suc seeded.segment; size = 0 }
    else seeded

-- `this.#current.date === today`
abbrev pub is_date : Option ℕ → ℕ → Bool
is_date none today = false
is_date (some d) today = d == today

-- the catch of `#doFlush`
unfoldable pub fail_flush : List Text → Sink → Sink
fail_flush lines s = record s {
  flight = none;
  overflow_warned = false;
  lost = s.lost + length lines;
}

abbrev append_to : Env → ℕ → List Text → CurrentFile → Sink → Sink
append_to env today lines seeded s = record s {
  flight = some (appending lines (rotate env today lines s.config seeded));
}

-- `#append`, from the moment the directory is there: today's file, or the size of its first segment
unfoldable pub dir_made : Env → ℕ → List Text → Sink → Sink
dir_made env today lines s =
    if is_date s.current.date today
    then append_to env today lines s.current s
    else record s { flight = some (reading_size lines today) }

-- `#nextFile`, from the moment the size on the disk is read
unfoldable pub size_read : Env → ℕ → ℕ → List Text → Sink → Sink
size_read env today size lines s =
    append_to env today lines (record { date = some today; segment = 0; size = size }) s

-- the end of `#append` and of `#doFlush`
unfoldable pub append_done : Env → List Text → CurrentFile → Sink → Sink
append_done env lines next s =
    let with_header = next.size == 0 in
    let data_bytes =
      if with_header then env.header_bytes + env.payload_bytes lines else env.payload_bytes lines in
    record s {
      flight = none;
      overflow_warned = false;
      current = record next { size = next.size + data_bytes };
      appends =
          s.appends
          ++ record {
            date = next.date;
            segment = next.segment;
            with_header = with_header;
            lines = lines;
          }
            ∷ [];
    }

-- How an await settles: the directory is there on a day, a size is read, an append is done, or the
-- call fails; reading a size does not fail.
pub data Outcome : Type 0 where
  made : (today : ℕ) → Outcome
  read : (size : ℕ) → Outcome
  done failed : Outcome

unfoldable pub settle : Env → Option Flight → Outcome → Sink → Sink
unfolding dir_made size_read append_done fail_flush
settle env (some (making_dir lines)) (made today) s = dir_made env today lines s
settle env (some (making_dir lines)) failed s = fail_flush lines s
settle env (some (reading_size lines today)) (read size) s = size_read env today size lines s
settle env (some (appending lines next)) done s = append_done env lines next s
settle env (some (appending lines next)) failed s = fail_flush lines s
settle env flight outcome s = s

-- the listener of `#watchConfig`
unfoldable pub config_change : SinkConfig → Sink → Sink
unfolding schedule_next_flush
config_change next s =
    let updated = record s { config = next } in
    if s.disposed
    then s
    else if next.flush_interval_ms == s.config.flush_interval_ms
    then updated
    else schedule_next_flush updated

-- the callback of the timer
unfoldable pub fire_timer : ℕ → Sink → Sink
unfolding flush
fire_timer timer s =
    if has s.armed_timers timer
    then flush
        (record s { armed_timers = without s.armed_timers timer; resumptions = suc s.resumptions })
    else s

-- the `finally` of the timer's callback
unfoldable pub resume_timer : ℕ → Sink → Sink
unfolding schedule_next_flush
resume_timer zero s = s
resume_timer (suc n) s = schedule_next_flush (record s { resumptions = n })

pub data Event : Type 0 where
  written : Option Text → Event
  flush_called dispose_called run_started flush_settled : Event
  config_changed : SinkConfig → Event
  timer_fired : (timer : ℕ) → Event
  io_settled : Outcome → Event

unfoldable pub step : Env → Event → Sink → Sink
unfolding write flush dispose start_run config_change fire_timer resume_timer settle
step env (written line) s = write line s
step env flush_called s = flush s
step env dispose_called s = dispose s
step env run_started s = start_run s.flight s.chained s
step env flush_settled s = resume_timer s.resumptions s
step env (config_changed config) s = config_change config s
step env (timer_fired timer) s = fire_timer timer s
step env (io_settled outcome) s = settle env s.flight outcome s

unfoldable pub run : Env → Sink → List Event → Sink
run env s [] = s
run env s (e ∷ es) = run env (step env e s) es
