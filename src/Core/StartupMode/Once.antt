-- ===== src/Core/StartupMode/Once.antt =====
-- How often a start-up mode of core/mementoManager.ts is read.
use vscode_coder.Base.{ℕ, ◌-◌, ◌≡◌, Option, leb, if◌then◌else◌, arith}
use vscode_coder.Core.StartupMode.{
  StartupMode, no_mode, Stamped, pending_ttl_ms, set_startup_mode, get_stamped,
  get_and_clear_startup_mode,
}

-- After a mode is set, whatever was stored before: the first read gives it if five minutes have not
-- passed, and no mode otherwise; every later read gives no mode.
get_and_clear-once :
    (mode : StartupMode) (set first second : ℕ) (stored : Option Stamped)
    → let (read, left) = get_and_clear_startup_mode first (set_startup_mode set mode stored) in
      (read ≡ (if leb (first - set) pending_ttl_ms then mode else no_mode))
      × ((get_and_clear_startup_mode second left).0 ≡ no_mode)
unfolding get_and_clear_startup_mode set_startup_mode get_stamped
get_and_clear-once mode set first second stored = ground arith
