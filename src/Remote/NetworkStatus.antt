-- ===== src/Remote/NetworkStatus.antt =====
-- remote/networkStatus.ts: the status bar item of a connection. Latency and threshold are counted in
-- one unit; the tooltip, whose text shows the same state, is left out.
pub mod Debounce
mod Tests
use vscode_coder.Base.{
  ℕ, ◌+◌, ◌-◌, min, max, Bool, true, false, ◌&&◌, Option, none, some, List, [], ◌∷◌, Text, codes,
  ltb, leb, ◌==◌, if◌then◌else◌,
}

-- `WARNING_DEBOUNCE_THRESHOLD`
abbrev pub warning_debounce_threshold : ℕ
warning_debounce_threshold = 2

-- The parts of `NetworkInfo` that the item shows.
pub record NetworkInfo : Type 0 where
  pub p2p : Bool
  pub preferred_derp : Text
  pub latency : ℕ
  pub using_coder_connect : Bool

-- The text of the item: the one for Coder Connect, or a label with the marker and the latency.
pub data StatusText : Type 0 where
  coder_connect_text : StatusText
  network_text : (label stale_marker : Text) → (latency : ℕ) → StatusText

pub record StatusBarItem : Type 0 where
  pub text : Option StatusText
  pub warning_background : Bool
  pub command : Option Text

pub record NetworkStatusReporter : Type 0 where
  pub warning_counter : ℕ
  pub is_warning_active : Bool
  pub item : StatusBarItem

abbrev pub new_reporter : StatusBarItem → NetworkStatusReporter
new_reporter item = record { warning_counter = 0; is_warning_active = false; item = item }

-- `buildStatusText`
abbrev build_status_text : NetworkInfo → Bool → StatusText
build_status_text network is_stale =
    network_text (if network.p2p then codes "Direct" else network.preferred_derp)
      (if is_stale then codes "~" else []) network.latency

-- the counter in `updateWarningState`
abbrev count_slow : Bool → ℕ → ℕ
count_slow is_slow n = if is_slow then min (n + 1) warning_debounce_threshold else max (n - 1) 0

-- `updateWarningState`
unfoldable pub update_warning_state : Bool → NetworkStatusReporter → NetworkStatusReporter
update_warning_state is_slow r =
    let n = count_slow is_slow r.warning_counter in
    record r {
      warning_counter = n;
      is_warning_active =
          if leb warning_debounce_threshold n
          then true
          else if n == 0
          then false
          else r.is_warning_active;
    }

abbrev ping_command : Bool → Option Text
ping_command true = some (codes "coder.pingWorkspace")
ping_command false = none

-- what `update` shows after the state is updated
abbrev show_network : NetworkInfo → Bool → NetworkStatusReporter → NetworkStatusReporter
show_network network is_stale r = record r {
  item = record {
    text = some (build_status_text network is_stale);
    warning_background = r.is_warning_active;
    command = ping_command r.is_warning_active;
  };
}

-- `thresholds.latencyMs > 0 && network.latency > thresholds.latencyMs`
abbrev pub is_slow : ℕ → NetworkInfo → Bool
is_slow threshold network = ltb 0 threshold && ltb threshold network.latency

-- `update`, with the configured threshold
unfoldable pub update : ℕ → NetworkInfo → Bool → NetworkStatusReporter → NetworkStatusReporter
unfolding update_warning_state
update threshold network is_stale r =
    if network.using_coder_connect
    then record {
      warning_counter = 0;
      is_warning_active = false;
      item = record { text = some coder_connect_text; warning_background = false; command = none };
    }
    else show_network network is_stale (update_warning_state (is_slow threshold network) r)

-- One call of `update`.
pub record Poll : Type 0 where
  pub threshold : ℕ
  pub network : NetworkInfo
  pub is_stale : Bool

abbrev pub poll : Poll → NetworkStatusReporter → NetworkStatusReporter
poll p r = update p.threshold p.network p.is_stale r

abbrev pub polls : List Poll → NetworkStatusReporter → NetworkStatusReporter
polls [] r = r
polls (p ∷ ps) r = polls ps (poll p r)
