-- ===== src/Remote/NetworkStatus/Debounce.antt =====
-- When the warning of remote/networkStatus.ts changes.
use vscode_coder.Base.{◌≡◌, ◌≤◌, Bool, true, false, if◌then◌else◌}
use vscode_coder.Remote.NetworkStatus.{NetworkStatusReporter, is_slow, Poll}

-- What a poll says of the network.
pub data Reading : Type 0 where
  slow fast coder_connect : Reading

abbrev pub reading : Poll → Reading
reading p =
    if p.network.using_coder_connect
    then coder_connect
    else if is_slow p.threshold p.network
    then slow
    else fast

-- The warning after two readings, given whether it was shown after the first.
abbrev pub debounced : Reading → Reading → Bool → Bool
debounced before coder_connect shown = false
debounced slow slow shown = true
debounced fast fast shown = false
debounced before now shown = shown

record Inv (r : NetworkStatusReporter) : Type 0 where
  bound : r.warning_counter ≤ 2
  full : r.warning_counter ≡ 2 → r.is_warning_active ≡ true
  empty : r.warning_counter ≡ 0 → r.is_warning_active ≡ false
