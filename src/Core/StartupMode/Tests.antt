-- ===== src/Core/StartupMode/Tests.antt =====
-- A start-up mode at concrete times.
use vscode_coder.Base.{◌≡◌, none, refl}
use vscode_coder.Core.StartupMode.{no_mode, update, set_startup_mode, get_and_clear_startup_mode}

read_in_time : (get_and_clear_startup_mode 1500 (set_startup_mode 1000 update none)).0 ≡ update
unfolding get_and_clear_startup_mode set_startup_mode
read_in_time = refl

read_too_late : (get_and_clear_startup_mode 900000 (set_startup_mode 1000 update none)).0 ≡ no_mode
unfolding get_and_clear_startup_mode set_startup_mode
read_too_late = refl
