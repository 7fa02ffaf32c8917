-- ===== src/Remote/SshTelemetry.antt =====
-- The class SshTelemetry of instrumentation/ssh.ts. Times and latencies are whole milliseconds, and
-- the clock does not run backwards; the rates of a sample are left out.
use vscode_coder.Base.{
  ℕ, ◌+◌, ◌-◌, ◌*◌, Bool, true, false, not, ◌&&◌, Option, none, some, List, [], ◌∷◌, Text, text_eq,
  ltb, leb, ◌==◌, is_some, if◌then◌else◌,
}
use vscode_coder.Remote.NetworkStatus.{NetworkInfo}

pub data ProcessLossCause : Type 0 where
  stale_network_info missing_network_info : ProcessLossCause

pub record NetworkSample : Type 0 where
  pub emitted_at : ℕ
  pub p2p : Bool
  pub preferred_derp : Text
  pub latency : ℕ

pub data SshEvent : Type 0 where
  discovered : (found : Bool) → (attempts : ℕ) → SshEvent
  lost : ProcessLossCause → (uptime : ℕ) → SshEvent
  recovered : (duration : ℕ) → SshEvent
  replaced : (was_lost : Bool) → (uptime : ℕ) → SshEvent
  ended : (was_lost : Bool) → (uptime : ℕ) → SshEvent
  sampled : NetworkInfo → SshEvent

pub record SshTelemetry : Type 0 where
  pub started_at : Option ℕ
  pub lost_at : Option ℕ
  pub last_sample : Option NetworkSample
  -- the events that were reported, the newest first
  pub log : List SshEvent

unfoldable pub new_telemetry : SshTelemetry
new_telemetry = record { started_at = none; lost_at = none; last_sample = none; log = [] }

unfoldable pub process_started : (now : ℕ) → SshTelemetry → SshTelemetry
process_started now t = record t { started_at = some now; lost_at = none }

unfoldable pub process_lost : (now : ℕ) → ProcessLossCause → SshTelemetry → SshTelemetry
process_lost now cause t = elim t.started_at [
  | none ↦ t
  | some start ↦ elim t.lost_at [
    | some earlier ↦ t
    | none ↦ record t { lost_at = some now; log = lost cause (now - start) ∷ t.log }
  ]
]

unfoldable pub process_recovered : (now : ℕ) → SshTelemetry → SshTelemetry
process_recovered now t = elim t.lost_at [
  | none ↦ t
  | some time ↦ record t { lost_at = none; log = recovered (now - time) ∷ t.log }
]

abbrev report_replaced : (now : ℕ) → Option ℕ → Bool → List SshEvent → List SshEvent
report_replaced now none was_lost log = log
report_replaced now (some start) was_lost log = replaced was_lost (now - start) ∷ log

unfoldable pub process_replaced : (now : ℕ) → SshTelemetry → SshTelemetry
process_replaced now t = record {
  started_at = some now;
  lost_at = none;
  last_sample = none;
  log = report_replaced now t.started_at (is_some t.lost_at) t.log;
}

unfoldable pub disposed : (now : ℕ) → SshTelemetry → SshTelemetry
disposed now t = elim t.started_at [
  | none ↦ t
  | some start ↦ record {
    started_at = none;
    lost_at = none;
    last_sample = none;
    log = ended (is_some t.lost_at) (now - start) ∷ t.log;
  }
]

-- `Math.abs` of a difference
abbrev distance : ℕ → ℕ → ℕ
distance a b = (a - b) + (b - a)

-- `hasMeaningfulLatencyChange`; the ratio 0.2 is taken as a fifth
unfoldable pub has_meaningful_latency_change : (current previous : ℕ) → Bool
has_meaningful_latency_change current previous =
    if previous == 0
    then not (current == 0)
    else leb 25 (distance current previous) && leb previous (5 * distance current previous)

abbrev same_flag : Bool → Bool → Bool
same_flag true b = b
same_flag false b = not b

unfoldable pub should_emit_sample : NetworkSample → NetworkInfo → (now : ℕ) → Bool
should_emit_sample previous current now =
    if leb 60000 (now - previous.emitted_at)
    then true
    else if ltb (now - previous.emitted_at) 15000
    then false
    else if not (same_flag current.p2p previous.p2p)
    then true
    else if not (text_eq current.preferred_derp previous.preferred_derp)
    then true
    else has_meaningful_latency_change current.latency previous.latency

abbrev sample_of : (now : ℕ) → NetworkInfo → NetworkSample
sample_of now network = record {
  emitted_at = now;
  p2p = network.p2p;
  preferred_derp = network.preferred_derp;
  latency = network.latency;
}

abbrev emits : Option NetworkSample → NetworkInfo → (now : ℕ) → Bool
emits none current now = true
emits (some previous) current now = should_emit_sample previous current now

unfoldable pub network_sampled : (now : ℕ) → NetworkInfo → SshTelemetry → SshTelemetry
network_sampled now network t =
    if emits t.last_sample network now
    then record t { last_sample = some (sample_of now network); log = sampled network ∷ t.log }
    else t

-- `traceProcessDiscovery`: the span that ends
abbrev pub report_discovery : Bool → ℕ → SshTelemetry → SshTelemetry
report_discovery found attempts t = record t { log = discovered found attempts ∷ t.log }
