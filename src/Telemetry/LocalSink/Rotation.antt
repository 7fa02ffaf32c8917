-- ===== src/Telemetry/LocalSink/Rotation.antt =====
-- The sizes of the files of telemetry/sinks/localJsonlSink.ts.
use vscode_coder.Base.{ℕ, ◌+◌, ◌≤◌, max, List, Text, arith}
use vscode_coder.Telemetry.LocalSink.{CurrentFile, Sink, Env, rotate, append_done}

-- Whatever file a flush finds, the one that it has appended to is then no larger than the limit, or
-- than the header with the flush's own payload where that is more.
append_done-rotate :
    (env : Env) (today : ℕ) (lines : List Text) (seeded : CurrentFile) (s : Sink)
    → (append_done env lines (rotate env today lines s.config seeded) s).current.size
      ≤ max s.config.max_file_bytes (env.header_bytes + env.payload_bytes lines)
unfolding append_done rotate
append_done-rotate env today lines seeded s = ground arith
