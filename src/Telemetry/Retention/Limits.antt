-- ===== src/Telemetry/Retention/Limits.antt =====
-- The limits that the clean-up of telemetry/sinks/localJsonlSink.ts keeps.
use vscode_coder.Base.{
  ℕ, ◌+◌, ◌-◌, ◌≤◌, ◌≡◌, refl, sym, ap, ◌∙◌, Bool, not, List, [], ◌∷◌, ◌++◌, filter, append-nil,
  arith,
}
use vscode_coder.Telemetry.Retention.{
  FileCleanupCandidate, is_old, total_bytes, insert, sort, trim, select_by_age_and_size,
}

total_bytes-append :
    (xs ys : List FileCleanupCandidate) → total_bytes (xs ++ ys) ≡ total_bytes xs + total_bytes ys
total_bytes-append [] ys = omega arith
total_bytes-append (x ∷ xs) ys = omega (arith, total_bytes-append xs ys)

total_bytes-insert :
    (f : FileCleanupCandidate) (files : List FileCleanupCandidate)
    → total_bytes (insert f files) ≡ f.size + total_bytes files
total_bytes-insert f [] = omega arith
total_bytes-insert f (g ∷ files) = ground (arith, total_bytes-insert f files)

total_bytes-sort :
    (files : List FileCleanupCandidate) → total_bytes (sort files) ≡ total_bytes files
unfolding sort
total_bytes-sort [] = refl
total_bytes-sort (f ∷ files) =
    omega (arith, total_bytes-insert f (sort files), total_bytes-sort files)

total_bytes-filter :
    (p : FileCleanupCandidate → Bool) (files : List FileCleanupCandidate)
    → total_bytes (filter p files) + total_bytes (filter (λ f. not (p f)) files) ≡ total_bytes files
total_bytes-filter p [] = omega arith
total_bytes-filter p (f ∷ files) = ground (arith, total_bytes-filter p files)

trim-limit :
    (max_total total : ℕ) (files : List FileCleanupCandidate)
    → total ≡ total_bytes files
    → total ≤ total_bytes (trim max_total total files) + max_total
unfolding trim
trim-limit max_total total [] e = omega arith
trim-limit max_total total (f ∷ files) e =
    let rest : total - f.size ≡ total_bytes files = omega arith in
    ground (arith, trim-limit max_total (total - f.size) files rest)

trim-idle :
    (max_total total : ℕ) (files : List FileCleanupCandidate)
    → total ≤ max_total
    → trim max_total total files ≡ []
unfolding trim
trim-idle max_total total [] h = refl
trim-idle max_total total (f ∷ files) h = ground arith

-- Whatever files there are, the clean-up deletes all but at most the limit of their bytes.
pub select_by_age_and_size-limit :
    (max_age max_total now : ℕ) (files : List FileCleanupCandidate)
    → total_bytes files
      ≤ total_bytes (select_by_age_and_size max_age max_total files now) + max_total
unfolding select_by_age_and_size
select_by_age_and_size-limit max_age max_total now files =
    let survivors = filter (λ f. not (is_old max_age now f)) files in
    let old = filter (λ f. is_old max_age now f) files in
    let trimmed = trim max_total (total_bytes survivors) (sort survivors) in
    omega (
      arith,
      total_bytes-append old trimmed,
      total_bytes-filter (λ f. is_old max_age now f) files,
      trim-limit max_total (total_bytes survivors) (sort survivors)
          (sym (total_bytes-sort survivors)),
    )

-- Where the files that are not too old hold at most the limit of bytes, the clean-up deletes exactly
-- the files that are too old.
pub select_by_age_and_size-idle :
    (max_age max_total now : ℕ) (files : List FileCleanupCandidate)
    → total_bytes (filter (λ f. not (is_old max_age now f)) files) ≤ max_total
    → select_by_age_and_size max_age max_total files now ≡ filter (λ f. is_old max_age now f) files
unfolding select_by_age_and_size
select_by_age_and_size-idle max_age max_total now files h =
    let survivors = filter (λ f. not (is_old max_age now f)) files in
    ap (λ t. filter (λ f. is_old max_age now f) files ++ t)
      (trim-idle max_total (total_bytes survivors) (sort survivors) h)
    ∙ append-nil (filter (λ f. is_old max_age now f) files)
