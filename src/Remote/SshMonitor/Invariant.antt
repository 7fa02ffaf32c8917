-- ===== src/Remote/SshMonitor/Invariant.antt =====
-- The invariant of the loops of remote/sshProcess.ts, and what it counts.
use vscode_coder.Base.{
  ℕ, suc, ◌+◌, ◌≤◌, ◌≡◌, Bool, true, false, ◌&&◌, none, List, [], ◌∷◌, is_some, leb, total,
  if◌then◌else◌,
}
use vscode_coder.Remote.SshTelemetry.{
  SshEvent, discovered, lost, recovered, replaced, ended, sampled,
}
use vscode_coder.Remote.SshMonitor.{
  Options, Task, finding, find_delay, reading_logs, logs_delay, reading_info, info_delay, Monitor,
  stale_threshold,
}

-- Whether a task belongs to the search for the process or to the watch of its network file.
abbrev pub is_main : Task → ℕ
is_main (finding attempts backoff last) = 1
is_main (find_delay attempts backoff last) = 1
is_main (reading_logs target backoff) = 0
is_main (logs_delay target backoff) = 0
is_main (reading_info failures pid) = 1
is_main (info_delay failures) = 1

abbrev pub outside : Options → ℕ → ℕ
outside o backoff = if leb o.discovery_poll backoff && leb backoff o.max_backoff then 0 else 1

-- Whether a task waits, or will wait, for less than the first interval or more than the longest.
abbrev pub is_outside : Options → Task → ℕ
is_outside o (finding attempts backoff last) = outside o backoff
is_outside o (find_delay attempts backoff last) = outside o backoff
is_outside o (reading_logs target backoff) = outside o backoff
is_outside o (logs_delay target backoff) = outside o backoff
is_outside o (reading_info failures pid) = 0
is_outside o (info_delay failures) = 0

-- Searches for a lost process, the newest first, that are no closer than the threshold.
abbrev pub spaced : ℕ → List ℕ → Bool
spaced threshold [] = true
spaced threshold (time ∷ []) = true
spaced threshold (time ∷ earlier ∷ rest) =
    leb (earlier + threshold) time && spaced threshold (earlier ∷ rest)

abbrev pub newest : List ℕ → ℕ
newest [] = 0
newest (time ∷ rest) = time

-- How often the process was reported lost, and how often that was reported over.
abbrev pub losses : List SshEvent → ℕ
losses [] = 0
losses (discovered found attempts ∷ log) = losses log
losses (lost cause uptime ∷ log) = suc (losses log)
losses (recovered duration ∷ log) = losses log
losses (replaced was_lost uptime ∷ log) = losses log
losses (ended was_lost uptime ∷ log) = losses log
losses (sampled network ∷ log) = losses log

abbrev pub one_if : Bool → ℕ
one_if true = 1
one_if false = 0

abbrev pub endings : List SshEvent → ℕ
endings [] = 0
endings (discovered found attempts ∷ log) = endings log
endings (lost cause uptime ∷ log) = endings log
endings (recovered duration ∷ log) = suc (endings log)
endings (replaced was_lost uptime ∷ log) = one_if was_lost + endings log
endings (ended was_lost uptime ∷ log) = one_if was_lost + endings log
endings (sampled network ∷ log) = endings log

-- `main` counts a task of the search or the watch that has been taken off the list.
pub record InvWith (o : Options) (main : ℕ) (m : Monitor) : Type 0 where
  pub one_main : total is_main m.tasks + main ≤ 1
  pub backoffs : total (is_outside o) m.tasks ≡ 0
  pub rate : spaced (stale_threshold o) m.searches ≡ true
  pub last_search : m.last_stale_search_time ≡ newest m.searches
  pub balance :
      losses m.telemetry.log ≡ endings m.telemetry.log + one_if (is_some m.telemetry.lost_at)
  pub lost_started : is_some m.telemetry.lost_at ≡ true → is_some m.telemetry.started_at ≡ true
  pub no_process : m.current_pid ≡ none → m.telemetry.started_at ≡ none

abbrev pub Inv : Options → Monitor → Type 0
Inv o = InvWith o 0
