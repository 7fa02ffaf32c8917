-- ===== src/Telemetry/LocalSink/Order.antt =====
-- What becomes of the lines that telemetry/sinks/localJsonlSink.ts buffers.
use mathlib.Core.List.{Sublist}
use mathlib.Core.List.Sublist
use vscode_coder.Base.{
  ℕ, zero, suc, ◌+◌, ◌-◌, ◌≤◌, ◌≡◌, refl, sym, subst, Bool, true, false, Option, none, some, List,
  [], ◌∷◌, ◌++◌, Text, length, drop, append_assoc, append-nil, length-append, ◌==◌, if◌then◌else◌,
  leb, has, without, arith,
}
use vscode_coder.Telemetry.LocalSink.{
  SinkConfig, Flight, making_dir, reading_size, appending, Append, Sink, Env, clear_timer,
  schedule_next_flush, start, enforce_buffer_limit, flush, push, write, dispose, do_flush,
  start_run, fail_flush, dir_made, size_read, append_done, Outcome, made, read, done, failed,
  settle, config_change, fire_timer, resume_timer, is_date, Event, written, flush_called,
  dispose_called, run_started, flush_settled, config_changed, timer_fired, io_settled, step, run,
}

-- the lines on the disk, in the order of the appends
abbrev pub lines_of : List Append → List Text
lines_of [] = []
lines_of (a ∷ rest) = a.lines ++ lines_of rest

abbrev pub lines_in : Option Flight → List Text
lines_in none = []
lines_in (some (making_dir lines)) = lines
lines_in (some (reading_size lines today)) = lines
lines_in (some (appending lines next)) = lines

-- The lines that are on the disk, on their way to it, or buffered.
abbrev pub stored : Sink → List Text
stored s = lines_of s.appends ++ (lines_in s.flight ++ s.buffer)

abbrev pub InOrder : Sink → Type 0
InOrder s = Sublist (stored s) s.accepted × (length (stored s) + s.lost ≡ length s.accepted)

lines_of-append :
    (before : List Append) (a : Append) → lines_of (before ++ a ∷ []) ≡ lines_of before ++ a.lines
lines_of-append [] a = append-nil a.lines
lines_of-append (b ∷ before) a = rw (lines_of-append before a, append_assoc) refl

Sublist-drop : (n : ℕ) (xs : List Text) → Sublist (drop n xs) xs
Sublist-drop zero xs = Sublist.refl xs
Sublist-drop (suc n) [] = Sublist.refl []
Sublist-drop (suc n) (x ∷ xs) = Sublist.cons x (Sublist-drop n xs)

Sublist-empty : (xs : List Text) → Sublist [] xs
Sublist-empty [] = Sublist.refl []
Sublist-empty (x ∷ xs) = Sublist.cons x (Sublist-empty xs)

length-drop : (n : ℕ) (xs : List Text) → length (drop n xs) ≡ length xs - n
length-drop zero xs = omega arith
length-drop (suc n) [] = omega arith
length-drop (suc n) (x ∷ xs) = omega (arith, length-drop n xs)

-- `InOrder` of the three parts, what was accepted and what was lost.
abbrev Parts : List Text → List Text → List Text → List Text → ℕ → Type 0
Parts disk moving buffer accepted lost =
    Sublist (disk ++ (moving ++ buffer)) accepted
    × (length (disk ++ (moving ++ buffer)) + lost ≡ length accepted)

Parts-push :
    (disk moving buffer accepted : List Text) (lost : ℕ) (line : Text)
    → Parts disk moving buffer accepted lost
    → Parts disk moving (buffer ++ line ∷ []) (accepted ++ line ∷ []) lost
Parts-push disk moving buffer accepted lost line (sub, n) =
    let e : disk ++ (moving ++ (buffer ++ line ∷ [])) ≡ (disk ++ (moving ++ buffer)) ++ line ∷ [] =
      rw (append_assoc, append_assoc) refl in
    (
      subst (λ l. Sublist l (accepted ++ line ∷ [])) (sym e)
          (Sublist.append sub (Sublist.refl (line ∷ []))),
      rw e (
          omega (
            arith,
            n,
            length-append (disk ++ (moving ++ buffer)) (line ∷ []),
            length-append accepted (line ∷ []),
          )),
    )

Parts-drop :
    (k : ℕ) (disk moving buffer accepted : List Text) (lost : ℕ)
    → k ≤ length buffer
    → Parts disk moving buffer accepted lost
    → Parts disk moving (drop k buffer) accepted (lost + k)
Parts-drop k disk moving buffer accepted lost h (sub, n) = (
  Sublist.trans
      (Sublist.append (Sublist.refl disk)
        (Sublist.append (Sublist.refl moving) (Sublist-drop k buffer)))
      sub,
  omega (
    arith,
    n,
    h,
    length-append disk (moving ++ buffer),
    length-append disk (moving ++ drop k buffer),
    length-append moving buffer,
    length-append moving (drop k buffer),
    length-drop k buffer,
  ),
)

Parts-fail :
    (disk moving buffer accepted : List Text) (lost : ℕ)
    → Parts disk moving buffer accepted lost
    → Parts disk [] buffer accepted (lost + length moving)
Parts-fail disk moving buffer accepted lost (sub, n) = (
  Sublist.trans
      (Sublist.append (Sublist.refl disk)
        (Sublist.append (Sublist-empty moving) (Sublist.refl buffer)))
      sub,
  omega (
    arith,
    n,
    length-append disk (moving ++ buffer),
    length-append disk buffer,
    length-append moving buffer,
  ),
)

Parts-take :
    (disk buffer accepted : List Text) (lost : ℕ)
    → Parts disk [] buffer accepted lost
    → Parts disk buffer [] accepted lost
Parts-take disk buffer accepted lost v = rw append-nil v

Parts-store :
    (appends : List Append) (a : Append) (buffer accepted : List Text) (lost : ℕ)
    → Parts (lines_of appends) a.lines buffer accepted lost
    → Parts (lines_of (appends ++ a ∷ [])) [] buffer accepted lost
Parts-store appends a buffer accepted lost v = rw (lines_of-append, append_assoc) v

either : (b : Bool) (s t : Sink) → InOrder s → InOrder t → InOrder (if b then s else t)
either true s t v w = v
either false s t v w = w

enforce-InOrder : (s : Sink) → InOrder s → InOrder (enforce_buffer_limit s)
unfolding enforce_buffer_limit
enforce-InOrder s v =
    let overage = length s.buffer - s.config.buffer_limit in
    either (overage == 0) _ _ v (
      Parts-drop overage (lines_of s.appends) (lines_in s.flight) s.buffer s.accepted s.lost
        (omega arith) v)

flush-InOrder : (s : Sink) → InOrder s → InOrder (flush s)
unfolding flush
flush-InOrder s v = either s.has_queued _ _ v v

write-InOrder : (line : Option Text) (s : Sink) → InOrder s → InOrder (write line s)
unfolding write
write-InOrder none s v = v
write-InOrder (some line) s v =
    let kept = enforce_buffer_limit (push line s) in
    let kept_in_order : InOrder kept =
      enforce-InOrder (push line s)
        (Parts-push (lines_of s.appends) (lines_in s.flight) s.buffer s.accepted s.lost line v) in
    either s.disposed _ _ v (
      either (leb s.config.flush_batch_size (length kept.buffer)) _ _
        (flush-InOrder kept kept_in_order) kept_in_order)

clear_timer-InOrder : (s : Sink) → InOrder s → InOrder (clear_timer s)
unfolding clear_timer
clear_timer-InOrder s v =
    elim s.flush_timer
      as (λ o. InOrder (elim o [
        | none ↦ s
        | some t ↦ record s { flush_timer = none; armed_timers = without s.armed_timers t }
      ])) [ none ↦ v | some t ↦ v ]

schedule-InOrder : (s : Sink) → InOrder s → InOrder (schedule_next_flush s)
unfolding schedule_next_flush
schedule-InOrder s v = either s.disposed _ _ (clear_timer-InOrder s v) (clear_timer-InOrder s v)

dispose-InOrder : (s : Sink) → InOrder s → InOrder (dispose s)
unfolding dispose
dispose-InOrder s v =
    let gone = record s { disposed = true } in
    either s.disposed _ _ v (flush-InOrder (clear_timer gone) (clear_timer-InOrder gone v))

taken-InOrder :
    (buffer : List Text) (s : Sink)
    → s.buffer ≡ buffer
    → s.flight ≡ none
    → InOrder s
    → InOrder (elim buffer [
      | [] ↦ s
      | line ∷ lines ↦ record s { buffer = []; flight = some (making_dir (line ∷ lines)) }
    ])
taken-InOrder [] s b e v = v
taken-InOrder (line ∷ lines) s b e v =
    Parts-take (lines_of s.appends) (line ∷ lines) s.accepted s.lost (rw (b, e) at v)

start_run-InOrder :
    (flight : Option Flight) (n : ℕ) (s : Sink)
    → s.flight ≡ flight
    → InOrder s
    → InOrder (start_run flight n s)
unfolding start_run do_flush
start_run-InOrder (some f) n s e v = v
start_run-InOrder none zero s e v = v
start_run-InOrder none (suc n) s e v =
    taken-InOrder s.buffer (record s { chained = n; has_queued = false }) refl e v

resume_timer-InOrder : (n : ℕ) (s : Sink) → InOrder s → InOrder (resume_timer n s)
unfolding resume_timer
resume_timer-InOrder zero s v = v
resume_timer-InOrder (suc n) s v = schedule-InOrder (record s { resumptions = n }) v

config_change-InOrder :
    (config : SinkConfig) (s : Sink) → InOrder s → InOrder (config_change config s)
unfolding config_change
config_change-InOrder config s v = either s.disposed _ _ v (
    either (config.flush_interval_ms == s.config.flush_interval_ms) _ _ v
      (schedule-InOrder (record s { config = config }) v))

fire_timer-InOrder : (timer : ℕ) (s : Sink) → InOrder s → InOrder (fire_timer timer s)
unfolding fire_timer
fire_timer-InOrder timer s v =
    let fired = record s {
      armed_timers = without s.armed_timers timer;
      resumptions = suc s.resumptions;
    } in
    either (has s.armed_timers timer) _ _ (flush-InOrder fired v) v

-- the parts of a sink whose flight is known
in_flight :
    (f : Flight) (s : Sink)
    → s.flight ≡ some f
    → InOrder s
    → Parts (lines_of s.appends) (lines_in (some f)) s.buffer s.accepted s.lost
in_flight f s e v =
    subst (λ o. Parts (lines_of s.appends) (lines_in o) s.buffer s.accepted s.lost) e v

settle-InOrder :
    (env : Env) (flight : Option Flight) (outcome : Outcome) (s : Sink)
    → s.flight ≡ flight
    → InOrder s
    → InOrder (settle env flight outcome s)
unfolding settle dir_made size_read append_done fail_flush
settle-InOrder env (some (making_dir lines)) (made today) s e v =
    either (is_date s.current.date today) _ _ (in_flight _ s e v) (in_flight _ s e v)
settle-InOrder env (some (making_dir lines)) failed s e v =
    Parts-fail (lines_of s.appends) lines s.buffer s.accepted s.lost (in_flight _ s e v)
settle-InOrder env (some (reading_size lines today)) (read size) s e v = in_flight _ s e v
settle-InOrder env (some (appending lines next)) done s e v =
    Parts-store s.appends _ s.buffer s.accepted s.lost (in_flight _ s e v)
settle-InOrder env (some (appending lines next)) failed s e v =
    Parts-fail (lines_of s.appends) lines s.buffer s.accepted s.lost (in_flight _ s e v)
settle-InOrder env flight outcome s e v = v

step-InOrder : (env : Env) (e : Event) (s : Sink) → InOrder s → InOrder (step env e s)
unfolding step
step-InOrder env (written line) s v = write-InOrder line s v
step-InOrder env flush_called s v = flush-InOrder s v
step-InOrder env dispose_called s v = dispose-InOrder s v
step-InOrder env run_started s v = start_run-InOrder s.flight s.chained s refl v
step-InOrder env flush_settled s v = resume_timer-InOrder s.resumptions s v
step-InOrder env (config_changed config) s v = config_change-InOrder config s v
step-InOrder env (timer_fired timer) s v = fire_timer-InOrder timer s v
step-InOrder env (io_settled outcome) s v = settle-InOrder env s.flight outcome s refl v

run-InOrder : (env : Env) (es : List Event) (s : Sink) → InOrder s → InOrder (run env s es)
unfolding run
run-InOrder env [] s v = v
run-InOrder env (e ∷ es) s v = run-InOrder env es (step env e s) (step-InOrder env e s v)

start-InOrder : (config : SinkConfig) → InOrder (start config)
unfolding start schedule_next_flush clear_timer
start-InOrder config = (Sublist.refl [], refl)

-- Whatever writes, flushes, timers, settings changes and answers of the file system reach a started
-- sink, in any order: the lines on the disk, then those on their way to it, then the buffered ones are
-- among the lines that were accepted, in the order in which they were, none of them twice; and with the
-- lines that an overflow or a failed flush gave up they are as many as were accepted.
pub start-run-InOrder :
    (env : Env) (config : SinkConfig) (es : List Event) → InOrder (run env (start config) es)
start-run-InOrder env config es = run-InOrder env es (start config) (start-InOrder config)
