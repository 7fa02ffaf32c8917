-- ===== src/Remote/SshMonitor/Loops.antt =====
-- What holds of the loops of remote/sshProcess.ts between two turns of the event loop.
use vscode_coder.Base.{
  ℕ, suc, ◌+◌, ◌*◌, ◌≤◌, ◌≡◌, refl, Bool, true, false, Option, none, some, List, [], ◌∷◌, String,
  get_elem?, inl, inr, Option-cases, Bool-cases, ltb, arith, total-append, total-remove_at,
  if◌then◌else◌,
}
use vscode_coder.Remote.NetworkStatus.{StatusBarItem, NetworkInfo}
use vscode_coder.Remote.SshTelemetry.{
  new_telemetry, process_started, process_lost, process_recovered, process_replaced, disposed,
  network_sampled, report_discovery, ProcessLossCause,
}
use vscode_coder.Remote.SshMonitor.{
  Options, Task, finding, find_delay, reading_logs, logs_delay, reading_info, info_delay, Monitor,
  await, discover_loop, search_for_process, set_pid_from, set_current_pid, log_loop, info_loop,
  start_monitoring, start, new_monitor, process_found, find_again, looked_up, logs_read, info_wait,
  mark_lost, show_info, loss_cause, stale_threshold, lose_process, Info, stat_failed, stated,
  info_failed, info_read, dispose,
}
use vscode_coder.Remote.SshMonitor.Steps.{
  Outcome, process_looked_up, directory_read, info_checked, delay_over, settle, Event, task_settled,
  dispose_called, keep, settle_at, step, run,
}
use vscode_coder.Remote.SshMonitor.Invariant.{is_main, outside, is_outside, InvWith, Inv}

module _ (o : Options) where
  await-Inv :
      (t : Task) {m : Monitor} → InvWith o (is_main t) m → is_outside o t ≡ 0 → Inv o (await t m)
  await-Inv t {m} v h =
      ground (arith, total-append is_main m.tasks t, total-append (is_outside o) m.tasks t)

  discover_loop-Inv :
      (attempts backoff : ℕ) (port : Option ℕ) (m : Monitor)
      → outside o backoff ≡ 0
      → InvWith o 1 m
      → Inv o (discover_loop attempts backoff port m)
  unfolding discover_loop
  discover_loop-Inv attempts backoff port m h v =
      ground (arith, await-Inv (finding (suc attempts) backoff port) v h)

  set_current_pid-Inv :
      (now pid main : ℕ) (m : Monitor)
      → InvWith o main m
      → InvWith o main (set_current_pid now pid m)
  unfolding set_current_pid set_pid_from process_started process_recovered process_replaced
  set_current_pid-Inv now pid main m v = ground arith

  log_loop-Inv :
      (target backoff main : ℕ) (m : Monitor)
      → outside o backoff ≡ 0
      → InvWith o main m
      → InvWith o main (log_loop target backoff m)
  unfolding log_loop
  log_loop-Inv target backoff main m h v = ground (
    arith,
    total-append is_main m.tasks (reading_logs target backoff),
    total-append (is_outside o) m.tasks (reading_logs target backoff),
  )

  info_loop-Inv : (failures : ℕ) (m : Monitor) → InvWith o 1 m → Inv o (info_loop failures m)
  unfolding info_loop
  info_loop-Inv failures m v =
      elim m.current_pid
        as (λ c. Inv o (elim c [
          | none ↦ m
          | some pid ↦ (if m.is_disposed then m else await (reading_info failures pid) m)
        ])) [
          | none ↦ ground arith
          | some pid ↦ ground (arith, await-Inv (reading_info failures pid) v refl)
        ]

  start_monitoring-Inv :
      (m : Monitor) → outside o o.discovery_poll ≡ 0 → InvWith o 1 m → Inv o (start_monitoring o m)
  unfolding start_monitoring
  start_monitoring-Inv m h v = elim (Option-cases m.current_pid) [
    | inl gone ↦ rw gone (ground arith)
    | inr (pid, held) ↦
        let logs = log_loop-Inv pid o.discovery_poll 1 m h v in
        rw held (
          ground
            (arith, info_loop-Inv 0 m v, info_loop-Inv 0 (log_loop pid o.discovery_poll m) logs))
  ]

  module _ (range : outside o o.discovery_poll ≡ 0) where
    search_for_process-Inv : (m : Monitor) → InvWith o 1 m → Inv o (search_for_process o m)
    unfolding search_for_process
    search_for_process-Inv m v = discover_loop-Inv 0 o.discovery_poll none m range v

    process_found-Inv :
        (now attempts pid : ℕ) (m : Monitor)
        → InvWith o 1 m
        → Inv o (process_found o now attempts pid m)
    unfolding process_found
    process_found-Inv now attempts pid m v =
        let told : InvWith o 1
            (record m { telemetry = report_discovery true attempts m.telemetry }) =
          ground arith in
        let set = set_current_pid-Inv now pid 1 _ told in
        ground (arith, start_monitoring-Inv _ range set)

    find_again-Inv :
        (attempts backoff : ℕ) (port : Option ℕ) (m : Monitor)
        → outside o backoff ≡ 0
        → InvWith o 1 m
        → Inv o (find_again attempts backoff port m)
    unfolding find_again
    find_again-Inv attempts backoff port m h v =
        ground (arith, await-Inv (find_delay attempts backoff port) v h)

    looked_up-Inv :
        (now attempts backoff : ℕ) (last pid port : Option ℕ) (m : Monitor)
        → outside o backoff ≡ 0
        → InvWith o 1 m
        → Inv o (looked_up o now attempts backoff last pid port m)
    unfolding looked_up
    looked_up-Inv now attempts backoff last none port m h v =
        find_again-Inv attempts _ _ m (ground arith) v
    looked_up-Inv now attempts backoff last (some pid) port m h v =
        process_found-Inv now attempts pid m v

    logs_read-Inv :
        (target backoff : ℕ) (path : Option String) (m : Monitor)
        → outside o backoff ≡ 0
        → Inv o m
        → Inv o (logs_read target backoff path m)
    unfolding logs_read
    logs_read-Inv target backoff none m h v =
        ground (arith, await-Inv (logs_delay target backoff) v h)
    logs_read-Inv target backoff (some path) m h v = ground arith

    info_wait-Inv : (failures : ℕ) (m : Monitor) → InvWith o 1 m → Inv o (info_wait failures m)
    unfolding info_wait
    info_wait-Inv failures m v = ground (arith, await-Inv (info_delay failures) v refl)

    mark_lost-Inv :
        (now : ℕ) (cause : ProcessLossCause) (m : Monitor)
        → ltb now (m.last_stale_search_time + stale_threshold o) ≡ false
        → InvWith o 1 m
        → InvWith o 1 (mark_lost now cause m)
    unfolding mark_lost process_lost
    mark_lost-Inv now cause m h v = ground arith

    lose_process-Inv :
        (now failures : ℕ) (m : Monitor) → InvWith o 1 m → Inv o (lose_process o now failures m)
    unfolding lose_process
    lose_process-Inv now failures m v =
        elim (Bool-cases (ltb now (m.last_stale_search_time + stale_threshold o))) [
          | inl soon ↦ rw soon (info_wait-Inv failures m v)
          | inr due ↦
              rw due (search_for_process-Inv _ (mark_lost-Inv now (loss_cause failures) m due v))
        ]

    info_failed-Inv :
        (now failures : ℕ) (m : Monitor) → InvWith o 1 m → Inv o (info_failed o now failures m)
    unfolding info_failed
    info_failed-Inv now failures m v =
        ground (arith, lose_process-Inv now failures m v, info_wait-Inv failures m v)

    show_info-Inv :
        (now : ℕ) (network : NetworkInfo) (is_stale : Bool) (threshold : ℕ) (m : Monitor)
        → InvWith o 1 m
        → InvWith o 1 (show_info now network is_stale threshold m)
    unfolding show_info network_sampled
    show_info-Inv now network is_stale threshold m v = ground arith

    info_read-Inv :
        (now failures : ℕ) (info : Info) (m : Monitor)
        → InvWith o 1 m
        → Inv o (info_read o now failures info m)
    unfolding info_read
    info_read-Inv now failures stat_failed m v = info_failed-Inv now (suc failures) m v
    info_read-Inv now failures (stated age none threshold) m v =
        ground (arith, lose_process-Inv now 0 m v, info_failed-Inv now 1 m v)
    info_read-Inv now failures (stated age (some network) threshold) m v =
        let shown = show_info-Inv now network (ltb (o.network_poll * 2) age) threshold m v in
        ground (arith, lose_process-Inv now 0 m v, info_wait-Inv 0 _ shown)

    -- what a task may leave, if it can end so
    abbrev Settled : Option Monitor → Type 0
    Settled none = Unit
    Settled (some m) = Inv o m

    settle-Inv :
        (now : ℕ) (t : Task) (outcome : Outcome) (m : Monitor)
        → is_outside o t ≡ 0
        → InvWith o (is_main t) m
        → Settled (settle o now t outcome m)
    unfolding settle
    settle-Inv now (finding attempts backoff last) (process_looked_up pid port) m h v =
        looked_up-Inv now attempts backoff last pid port m h v
    settle-Inv now (find_delay attempts backoff last) delay_over m h v =
        discover_loop-Inv attempts _ last m (ground arith) v
    settle-Inv now (reading_logs target backoff) (directory_read path) m h v =
        logs_read-Inv target backoff path m h v
    settle-Inv now (logs_delay target backoff) delay_over m h v =
        log_loop-Inv target _ 0 m (ground arith) v
    settle-Inv now (reading_info failures pid) (info_checked info) m h v =
        info_read-Inv now failures info m v
    settle-Inv now (info_delay failures) delay_over m h v = info_loop-Inv failures m v
    settle-Inv now _ _ m h v = tt

    keep-Inv : (m : Monitor) (n : Option Monitor) → Inv o m → Settled n → Inv o (keep m n)
    keep-Inv m none v w = v
    keep-Inv m (some n) v w = w

    settle_at-Inv :
        (now i : ℕ) (outcome : Outcome) (t : Option Task) (m : Monitor)
        → get_elem? m.tasks i ≡ t
        → Inv o m
        → Inv o (settle_at o now i outcome t m)
    unfolding settle_at
    settle_at-Inv now i outcome none m h v = v
    settle_at-Inv now i outcome (some t) m h v =
        let mains = total-remove_at is_main m.tasks i t h in
        let outsides = total-remove_at (is_outside o) m.tasks i t h in
        keep-Inv m _ v (settle-Inv now t outcome _ (ground arith) (ground arith))

    dispose-Inv : (now : ℕ) (m : Monitor) → Inv o m → Inv o (dispose now m)
    unfolding dispose disposed
    dispose-Inv now m v = ground arith

    step-Inv : (e : Event) (m : Monitor) → Inv o m → Inv o (step o e m)
    unfolding step
    step-Inv (task_settled now i outcome) m v = settle_at-Inv now i outcome _ m refl v
    step-Inv (dispose_called now) m v = dispose-Inv now m v

    run-Inv : (es : List Event) (m : Monitor) → Inv o m → Inv o (run o m es)
    unfolding run
    run-Inv [] m v = v
    run-Inv (e ∷ es) m v = run-Inv es (step o e m) (step-Inv e m v)

    start-Inv : (item : StatusBarItem) → Inv o (start o item)
    unfolding start new_telemetry
    start-Inv item = search_for_process-Inv (new_monitor item) (ground arith)

-- Where the first interval is no longer than the longest, whatever the looked-up processes, the files
-- and the timers bring, in any order: the search for the process and the watch of its network file
-- never run twice or at once; every wait of a search lies between the two intervals; a lost process is
-- searched for at most once in five polls; and the process was reported lost as often as that was
-- reported over, once more while it is lost.
pub start-run-loops :
    (o : Options) (item : StatusBarItem) (es : List Event)
    → o.discovery_poll ≤ o.max_backoff
    → Inv o (run o (start o item) es)
start-run-loops o item es h =
    let range : outside o o.discovery_poll ≡ 0 = ground arith in
    run-Inv o range es _ (start-Inv o range item)
