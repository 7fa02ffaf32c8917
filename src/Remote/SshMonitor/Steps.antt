-- ===== src/Remote/SshMonitor/Steps.antt =====
-- What resumes the loops of remote/sshProcess.ts, in any order.
use vscode_coder.Base.{ℕ, ◌*◌, min, Option, none, some, List, [], ◌∷◌, String, get_elem?, remove_at}
use vscode_coder.Remote.SshMonitor.{
  Options, Task, finding, find_delay, reading_logs, logs_delay, reading_info, info_delay, Monitor,
  discover_loop, log_loop, info_loop, looked_up, logs_read, Info, info_read, dispose,
}

pub data Outcome : Type 0 where
  -- findSshProcessByPort
  process_looked_up : (pid port : Option ℕ) → Outcome
  directory_read : (path : Option String) → Outcome
  info_checked : Info → Outcome
  delay_over : Outcome

-- A task that has been taken off the list, with how its await ends; none where it cannot end so.
unfoldable pub settle : Options → (now : ℕ) → Task → Outcome → Monitor → Option Monitor
settle o now (finding attempts backoff last) (process_looked_up pid port) m =
    some (looked_up o now attempts backoff last pid port m)
settle o now (find_delay attempts backoff last) delay_over m =
    some (discover_loop attempts (min (backoff * 2) o.max_backoff) last m)
settle o now (reading_logs target backoff) (directory_read path) m =
    some (logs_read target backoff path m)
settle o now (logs_delay target backoff) delay_over m =
    some (log_loop target (min (backoff * 2) o.max_backoff) m)
settle o now (reading_info failures pid) (info_checked info) m =
    some (info_read o now failures info m)
settle o now (info_delay failures) delay_over m = some (info_loop failures m)
settle o now _ _ m = none

pub data Event : Type 0 where
  task_settled : (now i : ℕ) → Outcome → Event
  dispose_called : (now : ℕ) → Event

abbrev pub keep : Monitor → Option Monitor → Monitor
keep m none = m
keep m (some n) = n

unfoldable pub settle_at : Options → (now i : ℕ) → Outcome → Option Task → Monitor → Monitor
settle_at o now i outcome none m = m
settle_at o now i outcome (some task) m =
    keep m (settle o now task outcome (record m { tasks = remove_at m.tasks i }))

unfoldable pub step : Options → Event → Monitor → Monitor
step o (task_settled now i outcome) m = settle_at o now i outcome (get_elem? m.tasks i) m
step o (dispose_called now) m = dispose now m

unfoldable pub run : Options → Monitor → List Event → Monitor
run o m [] = m
run o m (e ∷ es) = run o (step o e m) es
