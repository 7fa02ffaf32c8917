-- ===== src/Remote/SshMonitor/Disposal.antt =====
-- What the loops of remote/sshProcess.ts still do once the monitor is disposed.
use vscode_coder.Base.{
  ℕ, zero, suc, ◌+◌, ◌≡◌, refl, sym, ap, subst, true, Option, none, some, List, [], ◌∷◌, length,
  get_elem?, remove_at, arith,
}
use vscode_coder.Remote.SshMonitor.{
  Options, Task, finding, find_delay, reading_logs, logs_delay, reading_info, info_delay, Monitor,
  discover_loop, search_for_process, log_loop, info_loop, process_found, find_again, looked_up,
  logs_read, info_wait, mark_lost, show_info, lose_process, Info, info_failed, info_read, dispose,
  mark_lost, show_info,
}
use vscode_coder.Remote.SshMonitor.Steps.{
  Outcome, process_looked_up, directory_read, info_checked, delay_over, settle, Event, task_settled,
  dispose_called, keep, settle_at, step, run,
}

abbrev pub one_if_some : Option Monitor → ℕ
one_if_some none = 0
one_if_some (some m) = 1

-- whether an event resumes a task
abbrev pub resumes_at : Options → (now : ℕ) → Outcome → Option Task → Monitor → ℕ
resumes_at o now outcome none m = 0
resumes_at o now outcome (some t) m = one_if_some (settle o now t outcome m)

-- How many of the events resume a task.
abbrev pub resumed : Options → Monitor → List Event → ℕ
resumed o m [] = 0
resumed o m (task_settled now i outcome ∷ es) =
    resumes_at o now outcome (get_elem? m.tasks i) (record m { tasks = remove_at m.tasks i })
    + resumed o (step o (task_settled now i outcome) m) es
resumed o m (dispose_called now ∷ es) = resumed o (step o (dispose_called now) m) es

-- From the first monitor on, which was disposed, no loop has gone on.
pub record Ended (first m : Monitor) : Type 0 where
  pub still_disposed : m.is_disposed ≡ true
  pub pid : m.current_pid ≡ first.current_pid
  pub pid_changes : m.pid_changes ≡ first.pid_changes
  pub log_changes : m.log_changes ≡ first.log_changes

record Ends (m n : Monitor) : Type 0 where
  ended : Ended m n
  tasks : n.tasks ≡ m.tasks

-- one loop, resumed, ends
looked_up-Ends :
    (o : Options) (now attempts backoff : ℕ) (last pid port : Option ℕ) (m : Monitor)
    → m.is_disposed ≡ true
    → Ends m (looked_up o now attempts backoff last pid port m)
unfolding looked_up process_found find_again
looked_up-Ends o now attempts backoff last pid port m h = ground arith

info_read-Ends :
    (o : Options) (now failures : ℕ) (info : Info) (m : Monitor)
    → m.is_disposed ≡ true
    → Ends m (info_read o now failures info m)
unfolding info_read info_failed lose_process search_for_process discover_loop info_wait mark_lost
    show_info
info_read-Ends o now failures info m h = ground arith

abbrev All-Ends : Monitor → Option Monitor → Type 0
All-Ends m none = Unit
All-Ends m (some n) = Ends m n

settle-Ends :
    (o : Options) (now : ℕ) (t : Task) (outcome : Outcome) (m : Monitor)
    → m.is_disposed ≡ true
    → All-Ends m (settle o now t outcome m)
unfolding settle discover_loop logs_read log_loop info_loop
settle-Ends o now (finding attempts backoff last) (process_looked_up pid port) m h =
    looked_up-Ends o now attempts backoff last pid port m h
settle-Ends o now (find_delay attempts backoff last) delay_over m h = ground arith
settle-Ends o now (reading_logs target backoff) (directory_read path) m h = ground arith
settle-Ends o now (logs_delay target backoff) delay_over m h = ground arith
settle-Ends o now (reading_info failures pid) (info_checked info) m h =
    info_read-Ends o now failures info m h
settle-Ends o now (info_delay failures) delay_over m h = ground arith
settle-Ends o now _ _ m h = tt

length-remove_at :
    (ts : List Task) (i : ℕ) (t : Task)
    → get_elem? ts i ≡ some t
    → length ts ≡ suc (length (remove_at ts i))
length-remove_at [] i t h = cc
length-remove_at (s ∷ ts) zero t h = refl
length-remove_at (s ∷ ts) (suc i) t h = ap suc (length-remove_at ts i t h)

Ended-refl : (m : Monitor) → m.is_disposed ≡ true → Ended m m
Ended-refl m h = ground arith

Ended-trans : (first m n : Monitor) → Ended first m → Ended m n → Ended first n
Ended-trans first m n a b = ground arith

-- a task that ended, or that could not end so
keep-Ended :
    (m t : Monitor) (n : Option Monitor)
    → m.is_disposed ≡ true
    → Ended m t
    → length m.tasks ≡ suc (length t.tasks)
    → All-Ends t n
    → Ended m (keep m n) × (length (keep m n).tasks + one_if_some n ≡ length m.tasks)
keep-Ended m t none h e l w = (Ended-refl m h, omega arith)
keep-Ended m t (some n) h e l w = (Ended-trans m t n e w.ended, ground arith)

settle_at-Ended :
    (o : Options) (now i : ℕ) (outcome : Outcome) (t : Option Task) (m : Monitor)
    → get_elem? m.tasks i ≡ t
    → m.is_disposed ≡ true
    → let n = settle_at o now i outcome t m in
      Ended m n
      × (length n.tasks + resumes_at o now outcome t (record m { tasks = remove_at m.tasks i })
          ≡ length m.tasks)
unfolding settle_at
settle_at-Ended o now i outcome none m at_i h = (Ended-refl m h, omega arith)
settle_at-Ended o now i outcome (some t) m at_i h =
    keep-Ended m (record m { tasks = remove_at m.tasks i }) _ h (ground arith)
      (length-remove_at m.tasks i t at_i) (settle-Ends o now t outcome _ h)

dispose-same : (now : ℕ) (m : Monitor) → m.is_disposed ≡ true → dispose now m ≡ m
unfolding dispose
dispose-same now m h = rw h refl

-- Once the monitor is disposed, whatever resumes its loops, in any order: it stays disposed, its
-- process is not changed, neither emitter fires, and every loop that is resumed ends without another
-- wait, so that the loops left are those that were not resumed yet.
pub disposed-Ended :
    (o : Options) (es : List Event) (m : Monitor)
    → m.is_disposed ≡ true
    → Ended m (run o m es) × (length (run o m es).tasks + resumed o m es ≡ length m.tasks)
unfolding run step
disposed-Ended o [] m h = (Ended-refl m h, omega arith)
disposed-Ended o (task_settled now i outcome ∷ es) m h =
    let once = settle_at-Ended o now i outcome (get_elem? m.tasks i) m refl h in
    let later = disposed-Ended o es _ once.0.still_disposed in
    (Ended-trans m _ _ once.0 later.0, omega (arith, once.1, later.1))
disposed-Ended o (dispose_called now ∷ es) m h =
    subst
      (λ n. Ended m (run o n es) × (length (run o n es).tasks + resumed o n es ≡ length m.tasks))
      (sym (dispose-same now m h)) (disposed-Ended o es m h)
