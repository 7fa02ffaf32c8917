-- ===== src/Remote/SshConfig/Blocks.antt =====
-- What an update of remote/sshConfig.ts leaves of the file around its block.
use vscode_coder.Base.{
  ℕ, ◌+◌, ◌-◌, ◌≤◌, ◌<◌, ◌≡◌, ◌∙◌, refl, sym, ap, Bool, true, false, ◌||◌, not, Option, none, some,
  [], ◌∷◌, ◌++◌, Text, codes, length, take, drop, has, all, ltb, ◌==◌, arith, if◌then◌else◌,
}
use vscode_coder.Remote.SshConfig.Merging.{Record}
use vscode_coder.Remote.SshConfig.{
  index_of, count_substring, Found, BadFormat, unterminated, several_blocks, end_before_start,
  block_between, substring, get_block, build_block, replace_block, is_space, trim_end, append_block,
  Updated, failed, written, update_found, update, start_block_comment, end_block_comment,
}
use vscode_coder.Remote.SshConfig.Counts.{Only, count_substring-Absent}
use vscode_coder.Remote.SshConfig.Comments.{
  WellFormed, without_block, with_block, WellFormed-counts, found-Only, uncounted-Absent,
  start-full, end-full, substring-first,
}
use vscode_coder.Remote.SshConfig.Places.{
  ReadsAt, Absent, index_of-ReadsAt, index_of-least, index_of-Absent, drop-length-take, drop-add,
}
use vscode_coder.Remote.SshConfig.Writing.{expand-plain, trim_end_lem}

-- What an update may write, for a new block.
pub data Kept (host raw new : Text) : Updated → Type 0 where
  refused : (e : BadFormat) → ¬ WellFormed host raw → Kept host raw new (failed e)
  -- the block in place of the old one, from its start comment to the end of its end comment
  replaced :
      (i j : ℕ)
      → Only (start_block_comment host) raw i
      → Only (end_block_comment host) raw j
      → i ≤ j
      → Kept host raw new
          (written (take i raw ++ new ++ drop (j + length (end_block_comment host)) raw))
  started : raw ≡ [] → Kept host raw new (written new)
  appended :
      (kept spaces : Text)
      → Absent (start_block_comment host) raw
      → Absent (end_block_comment host) raw
      → raw ≡ kept ++ spaces
      → all is_space spaces ≡ true
      → Kept host raw new (written (kept ++ codes "\n\n" ++ new))

replace_block-Kept :
    (host raw new : Text) (i j : ℕ)
    → has new b'$' ≡ false
    → index_of (start_block_comment host) raw ≡ some i
    → Only (start_block_comment host) raw i
    → Only (end_block_comment host) raw j
    → i ≤ j
    → Kept host raw new
        (written (replace_block raw (substring i (j + length (end_block_comment host)) raw) new))
unfolding replace_block
replace_block-Kept host raw new i j plain found s e l =
    let n = j + length (end_block_comment host) - i in
    let old = substring i (j + length (end_block_comment host)) raw in
    let tail : drop (i + length old) raw ≡ drop (j + length (end_block_comment host)) raw =
      drop-add i (length old) raw
      ∙ drop-length-take n (drop i raw)
      ∙ sym (drop-add i n raw)
      ∙ ap (λ k. drop k raw) (omega (arith, l)) in
    let same = expand-plain (take i raw) old (drop (i + length old) raw) new plain in
    rw (substring-first host raw i j found e.here l, same, tail) (replaced i j s e l)

append_block-Kept :
    (host raw new : Text)
    → Absent (start_block_comment host) raw
    → Absent (end_block_comment host) raw
    → Kept host raw new (written (append_block raw new))
unfolding append_block
append_block-Kept host [] new a b = started refl
append_block-Kept host (c ∷ raw) new a b =
    let (spaces, whole, blank) = trim_end_lem (c ∷ raw) in
    appended (trim_end (c ∷ raw)) spaces a b whole blank

either-Kept :
    (host raw new : Text) (b : Bool) (f g : Found)
    → (b ≡ true → Kept host raw new (update_found f raw new))
    → (b ≡ false → Kept host raw new (update_found g raw new))
    → Kept host raw new (update_found (if b then f else g) raw new)
either-Kept host raw new true f g k l = k refl
either-Kept host raw new false f g k l = l refl

-- an end comment before the start comment, which is the first one
reversed-WellFormed :
    (host raw : Text) (i j : ℕ)
    → index_of (start_block_comment host) raw ≡ some i
    → ReadsAt (end_block_comment host) raw j
    → index_of (end_block_comment host) raw ≡ some j
    → j < i
    → ¬ WellFormed host raw
reversed-WellFormed host raw i j s r e l (without_block a b) = absurd (ground (arith, b j, r))
reversed-WellFormed host raw i j s r e l (with_block k m a b n) =
    let start = start_block_comment host in
    omega (
      arith,
      index_of-least start raw i k s a.here,
      b.first j r,
      index_of-least (end_block_comment host) raw j m e b.here,
      a.first i (index_of-ReadsAt start raw i s),
    )

block_between-Kept :
    (host raw new : Text) (first last : Option ℕ)
    → has new b'$' ≡ false
    → count_substring (start_block_comment host) raw ≡ count_substring (end_block_comment host) raw
    → count_substring (start_block_comment host) raw ≤ 1
    → index_of (start_block_comment host) raw ≡ first
    → index_of (end_block_comment host) raw ≡ last
    → Kept host raw new
        (update_found (block_between raw (end_block_comment host) first last) raw new)
unfolding block_between update_found
block_between-Kept host raw new none last plain c one s e =
    let start = start_block_comment host in
    let gone = index_of-Absent start raw s in
    let zero_ = count_substring-Absent start raw (start-full host) gone in
    append_block-Kept host raw new gone
      (uncounted-Absent (end_block_comment host) raw (end-full host) (omega arith))
block_between-Kept host raw new (some i) none plain c one s e =
    let end_ = end_block_comment host in
    let gone = index_of-Absent end_ raw e in
    let zero_ = count_substring-Absent end_ raw (end-full host) gone in
    append_block-Kept host raw new
      (uncounted-Absent (start_block_comment host) raw (start-full host) (omega arith)) gone
block_between-Kept host raw new (some i) (some j) plain c one s e =
    let start = start_block_comment host in
    let end_ = end_block_comment host in
    let first = found-Only start raw i (start-full host) one s in
    let last = found-Only end_ raw j (end-full host) (omega arith) e in
    either-Kept host raw new (ltb j i) _ _
      (λ before.
        let l : j < i = ground (arith, before) in
        refused end_before_start (reversed-WellFormed host raw i j s last.here e l))
      (λ after.
        let l : i ≤ j = ground (arith, after) in
        replace_block-Kept host raw new i j plain s first last l)

update_found-Kept :
    (host raw new : Text)
    → has new b'$' ≡ false
    → Kept host raw new (update_found (get_block host raw) raw new)
unfolding get_block update_found
update_found-Kept host raw new plain =
    let start = start_block_comment host in
    let end_ = end_block_comment host in
    let starts = count_substring start raw in
    let ends = count_substring end_ raw in
    either-Kept host raw new (not (starts == ends)) _ _
      (λ differ.
        refused unterminated (λ w. absurd (ground (arith, differ, WellFormed-counts host raw w))))
      (λ same.
        either-Kept host raw new (ltb 1 starts || ltb 1 ends) _ _
          (λ several.
            refused several_blocks
              (λ w. absurd (ground (arith, several, WellFormed-counts host raw w))))
          (λ one.
            let c : starts ≡ ends = ground (arith, same) in
            let o : starts ≤ 1 = ground (arith, one) in
            block_between-Kept host raw new (index_of start raw) (index_of end_ raw) plain c o refl
              refl))

-- A file is well formed for a host where its start comment and its end comment stand nowhere, or each at
-- one place, but for places that overlap it, the start first. Where the new block holds no dollar: an
-- update refuses a file, writing nothing, only if it is not well formed; of a file with a block it
-- replaces exactly what lies from the start comment to the end of the end comment; an empty file becomes
-- the new block; and behind any other file, which has neither comment, the new block is appended, where
-- spaces at the end are dropped at most.
pub update-Kept :
    (raw host host_value : Text) (values overrides : Record)
    → has (build_block host host_value values overrides) b'$' ≡ false
    → Kept host raw
        (build_block host host_value values overrides)
        (update raw host host_value values overrides)
unfolding update
update-Kept raw host host_value values overrides plain =
    update_found-Kept host raw (build_block host host_value values overrides) plain
