-- ===== src/Workspace/Monitor/Notices.antt =====
-- What workspace/workspaceMonitor.ts shows and how often it notifies.
use vscode_coder.Base.{
  ℕ, suc, ◌+◌, ◌≡◌, refl, Bool, true, false, not, ◌&&◌, none, some, List, [], ◌∷◌, arith,
  if◌then◌else◌,
}
use vscode_coder.Workspace.Types.{Workspace}
use vscode_coder.Workspace.Monitor.{
  Notice, autostop_notice, deletion_notice, outdated_notice, not_running_notice, Settings, Monitor,
  is_settled, update, maybe_notify_autostop, maybe_notify_deletion, maybe_notify_not_running,
  maybe_notify_outdated, notify_after_setup, maybe_notify, create, Event, message, setup_complete,
  dispose_called, on_message, mark_initial_setup_complete, dispose, step, run,
}

abbrev pub autostops : List Notice → ℕ
autostops [] = 0
autostops (autostop_notice ∷ ns) = suc (autostops ns)
autostops (deletion_notice ∷ ns) = autostops ns
autostops (outdated_notice ∷ ns) = autostops ns
autostops (not_running_notice ∷ ns) = autostops ns

abbrev pub deletions : List Notice → ℕ
deletions [] = 0
deletions (autostop_notice ∷ ns) = deletions ns
deletions (deletion_notice ∷ ns) = suc (deletions ns)
deletions (outdated_notice ∷ ns) = deletions ns
deletions (not_running_notice ∷ ns) = deletions ns

abbrev pub outdateds : List Notice → ℕ
outdateds [] = 0
outdateds (autostop_notice ∷ ns) = outdateds ns
outdateds (deletion_notice ∷ ns) = outdateds ns
outdateds (outdated_notice ∷ ns) = suc (outdateds ns)
outdateds (not_running_notice ∷ ns) = outdateds ns

abbrev pub not_runnings : List Notice → ℕ
not_runnings [] = 0
not_runnings (autostop_notice ∷ ns) = not_runnings ns
not_runnings (deletion_notice ∷ ns) = not_runnings ns
not_runnings (outdated_notice ∷ ns) = not_runnings ns
not_runnings (not_running_notice ∷ ns) = suc (not_runnings ns)

abbrev one_if : Bool → ℕ
one_if true = 1
one_if false = 0

-- The workspace received last: the first one, or that of the last message that has one.
abbrev pub last_received : Workspace → List Event → Workspace
last_received w [] = w
last_received w (message settings now none ∷ es) = last_received w es
last_received w (message settings now (some v) ∷ es) = last_received v es
last_received w (setup_complete settings now ∷ es) = last_received w es
last_received w (dispose_called ∷ es) = last_received w es

-- Whether the monitor is disposed after some events.
abbrev pub disposed_by : Bool → List Event → Bool
disposed_by gone [] = gone
disposed_by gone (message settings now w ∷ es) = disposed_by gone es
disposed_by gone (setup_complete settings now ∷ es) = disposed_by gone es
disposed_by gone (dispose_called ∷ es) = disposed_by true es

pub record Follows (gone : Bool) (w : Workspace) (m : Monitor) : Type 0 where
  pub latest : m.latest_workspace ≡ w
  pub context : m.updatable ≡ w.outdated
  pub disposed : m.is_disposed ≡ gone
  pub socket : m.socket_closed ≡ gone
  pub item : m.item_shown ≡ (not gone && w.outdated && is_settled w.latest_build.status)
  -- each notice is given once at most
  pub autostop : autostops m.notices ≡ one_if m.notified_autostop
  pub deletion : deletions m.notices ≡ one_if m.notified_deletion
  pub outdated : outdateds m.notices ≡ one_if m.notified_outdated
  pub not_running : not_runnings m.notices ≡ one_if m.notified_not_running
  -- and all but that of the autostop wait for the initial set-up
  pub quiet :
      m.completed_initial_setup ≡ false
      → deletions m.notices + outdateds m.notices + not_runnings m.notices ≡ 0

-- Where a notice is given after the set-up.
record FollowsAfter (gone : Bool) (w : Workspace) (m : Monitor) : Type 0 where
  follows : Follows gone w m
  after : m.completed_initial_setup ≡ true

module _ (settings : Settings) (now : ℕ) (gone : Bool) (w v : Workspace) where
  autostop-Follows :
      (m : Monitor) → Follows gone w m → Follows gone w (maybe_notify_autostop now v m)
  unfolding maybe_notify_autostop
  autostop-Follows m f = ground arith

  outdated-Follows :
      (m : Monitor)
      → FollowsAfter gone w m
      → FollowsAfter gone w (maybe_notify_outdated settings v m)
  unfolding maybe_notify_outdated
  outdated-Follows m f = ground arith

  deletion-Follows :
      (m : Monitor) → FollowsAfter gone w m → FollowsAfter gone w (maybe_notify_deletion now v m)
  unfolding maybe_notify_deletion
  deletion-Follows m f = ground arith

  not_running-Follows :
      (m : Monitor) → FollowsAfter gone w m → FollowsAfter gone w (maybe_notify_not_running v m)
  unfolding maybe_notify_not_running
  not_running-Follows m f = ground arith

  notify_after_setup-Follows :
      (m : Monitor)
      → m.completed_initial_setup ≡ true
      → Follows gone w m
      → Follows gone w (notify_after_setup settings now v m)
  unfolding notify_after_setup
  notify_after_setup-Follows m h f =
      let start : FollowsAfter gone w m = record { follows = f; after = h } in
      (not_running-Follows _ (deletion-Follows _ (outdated-Follows m start))).follows

  after_setup-Follows :
      (b : Bool) (m : Monitor)
      → m.completed_initial_setup ≡ b
      → Follows gone w m
      → Follows gone w (if b then notify_after_setup settings now v m else m)
  after_setup-Follows true m h f = notify_after_setup-Follows m h f
  after_setup-Follows false m h f = f

  either-Follows :
      (b : Bool) (m n : Monitor)
      → Follows gone w m
      → Follows gone w n
      → Follows gone w (if b then m else n)
  either-Follows true m n f g = f
  either-Follows false m n f g = g

  maybe_notify-Follows :
      (m : Monitor) → Follows gone w m → Follows gone w (maybe_notify settings now v m)
  unfolding maybe_notify
  maybe_notify-Follows m f =
      let told = autostop-Follows m f in
      either-Follows settings.notifications_disabled m _ f
        (after_setup-Follows _ (maybe_notify_autostop now v m) refl told)

update-Follows :
    (now : ℕ) (gone : Bool) (w v : Workspace) (m : Monitor)
    → Follows gone w m
    → Follows gone v (update now v m)
unfolding update
update-Follows now gone w v m f = ground arith

setup-Follows :
    (gone : Bool) (w : Workspace) (m : Monitor)
    → Follows gone w m
    → Follows gone w (record m { completed_initial_setup = true })
setup-Follows gone w m f = ground arith

change-Follows :
    (gone : Bool) (w v : Workspace) (m : Monitor)
    → Follows gone w m
    → Follows gone w (record m { changes = v ∷ m.changes })
change-Follows gone w v m f = ground arith

dispose-Follows :
    (gone : Bool) (w : Workspace) (m : Monitor) → Follows gone w m → Follows true w (dispose m)
unfolding dispose
dispose-Follows gone w m f = ground arith

run-Follows :
    (gone : Bool) (w : Workspace) (es : List Event) (m : Monitor)
    → Follows gone w m
    → Follows (disposed_by gone es) (last_received w es) (run m es)
unfolding run step on_message mark_initial_setup_complete
run-Follows gone w [] m f = f
run-Follows gone w (message settings now none ∷ es) m f = run-Follows gone w es m f
run-Follows gone w (message settings now (some v) ∷ es) m f = run-Follows gone v es _ (
    change-Follows gone v v _
      (maybe_notify-Follows settings now gone v v _ (update-Follows now gone w v m f)))
run-Follows gone w (setup_complete settings now ∷ es) m f =
    run-Follows gone w es _
      (maybe_notify-Follows settings now gone w m.latest_workspace _ (setup-Follows gone w m f))
run-Follows gone w (dispose_called ∷ es) m f =
    run-Follows true w es (dispose m) (dispose-Follows gone w m f)

-- Whatever messages come, before and after the initial set-up and the disposal: the context and the
-- latest workspace are those of the last message that had a workspace; the status bar item is shown as
-- that workspace calls for until the disposal, and never after it; the socket is closed by the disposal
-- and by nothing else; each of the four notices is given once at most, and none but that of the
-- autostop before the set-up is complete.
pub create-run-Follows :
    (now : ℕ) (w : Workspace) (es : List Event)
    → Follows (disposed_by false es) (last_received w es) (run (create now w) es)
unfolding create update
create-run-Follows now w es = run-Follows false w es _ (ground arith)
