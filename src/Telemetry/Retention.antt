-- ===== src/Telemetry/Retention.antt =====
-- Which old files telemetry/sinks/localJsonlSink.ts deletes. Times and sizes are natural numbers.
pub mod Limits
mod Tests
use vscode_coder.Base.{
  ℕ, ◌+◌, ◌-◌, Bool, not, List, [], ◌∷◌, ◌++◌, String, filter, leb, ltb, if◌then◌else◌,
}

-- `FileCleanupCandidate`
pub record FileCleanupCandidate : Type 0 where
  pub name : String
  pub mtime : ℕ
  pub size : ℕ

-- `now - file.mtime > maxAgeMs`; a time in the future gives a negative age
abbrev pub is_old : ℕ → ℕ → FileCleanupCandidate → Bool
is_old max_age now f = ltb max_age (now - f.mtime)

abbrev pub total_bytes : List FileCleanupCandidate → ℕ
total_bytes [] = 0
total_bytes (f ∷ files) = f.size + total_bytes files

-- `survivors.sort((a, b) => a.mtime - b.mtime)`, which is stable
abbrev pub insert : FileCleanupCandidate → List FileCleanupCandidate → List FileCleanupCandidate
insert f [] = f ∷ []
insert f (g ∷ files) =
    let rest = insert f files in if leb f.mtime g.mtime then f ∷ g ∷ files else g ∷ rest

unfoldable pub sort : List FileCleanupCandidate → List FileCleanupCandidate
sort [] = []
sort (f ∷ files) = insert f (sort files)

-- the loop over the sorted survivors: those that are deleted
unfoldable pub trim : ℕ → ℕ → List FileCleanupCandidate → List FileCleanupCandidate
trim max_total total [] = []
trim max_total total (f ∷ files) =
    let rest = trim max_total (total - f.size) files in if leb total max_total then [] else f ∷ rest

-- `selectByAgeAndSize`
unfoldable pub select_by_age_and_size :
    ℕ → ℕ → List FileCleanupCandidate → ℕ → List FileCleanupCandidate
unfolding sort trim
select_by_age_and_size max_age max_total files now =
    let survivors = filter (λ f. not (is_old max_age now f)) files in
    filter (λ f. is_old max_age now f) files
    ++ trim max_total (total_bytes survivors) (sort survivors)
