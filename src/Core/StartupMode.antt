-- ===== src/Core/StartupMode.antt =====
-- The pending start-up mode of core/mementoManager.ts: a stamped value that is read once and expires.
pub mod Once
mod Tests
use vscode_coder.Base.{ℕ, ◌-◌, Bool, false, Option, none, some, leb, if◌then◌else◌}

pub data StartupMode : Type 0 where
  no_mode start update : StartupMode

-- `Stamped`; a legacy value has no time
pub record Stamped : Type 0 where
  pub value : StartupMode
  pub set_at : Option ℕ

-- `PENDING_TTL_MS`
abbrev pub pending_ttl_ms : ℕ
pending_ttl_ms = 300000

-- `setStamped` at a time, for the one key that is used; the stored value after it
unfoldable pub set_startup_mode : ℕ → StartupMode → Option Stamped → Option Stamped
set_startup_mode now mode stored = some (record { value = mode; set_at = some now })

-- `raw?.setAt !== undefined && Date.now() - raw.setAt <= PENDING_TTL_MS`
abbrev pub is_pending : ℕ → Option ℕ → Bool
is_pending now none = false
is_pending now (some t) = leb (now - t) pending_ttl_ms

-- `getStamped`: the value, and what is stored after it
unfoldable pub get_stamped : ℕ → Option Stamped → Option StartupMode × Option Stamped
get_stamped now none = (none, none)
get_stamped now (some raw) =
    if is_pending now raw.set_at then (some raw.value, some raw) else (none, none)

abbrev pub cleared : Option StartupMode × Option Stamped → StartupMode × Option Stamped
cleared (none, stored) = (no_mode, stored)
cleared (some mode, stored) = (mode, none)

-- `getAndClearStartupMode`
unfoldable pub get_and_clear_startup_mode : ℕ → Option Stamped → StartupMode × Option Stamped
unfolding get_stamped
get_and_clear_startup_mode now stored = cleared (get_stamped now stored)
