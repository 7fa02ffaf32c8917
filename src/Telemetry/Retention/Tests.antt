-- ===== src/Telemetry/Retention/Tests.antt =====
-- The clean-up of concrete files.
use vscode_coder.Base.{ℕ, ◌+◌, ◌≤◌, ◌≡◌, refl, List, [], ◌∷◌, String}
use vscode_coder.Telemetry.Retention.{
  FileCleanupCandidate, total_bytes, sort, trim, select_by_age_and_size,
}
use vscode_coder.Telemetry.Retention.Limits.{select_by_age_and_size-limit}

abbrev file : String → ℕ → ℕ → FileCleanupCandidate
file name mtime size = record { name = name; mtime = mtime; size = size }

abbrev files : List FileCleanupCandidate
files = file "new" 95 40 ∷ file "ancient" 10 5 ∷ file "older" 80 50 ∷ []

oldest_first :
    select_by_age_and_size 30 60 files 100 ≡ file "ancient" 10 5 ∷ file "older" 80 50 ∷ []
unfolding select_by_age_and_size sort trim
oldest_first = refl

select_by_age_and_size-limit_example :
    total_bytes files ≤ total_bytes (select_by_age_and_size 30 60 files 100) + 60
select_by_age_and_size-limit_example = select_by_age_and_size-limit 30 60 100 files
