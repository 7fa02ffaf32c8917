-- ===== src/Remote/SshConfig.antt =====
-- The block of a deployment in an SSH config file: `countSubstring` of util.ts and the class SshConfig of
-- remote/sshConfig.ts, over the text it holds. The reading and writing of the file is left out.
pub mod Merging
pub mod Places
pub mod Counts
pub mod Comments
pub mod Writing
pub mod Blocks
mod Tests
use vscode_coder.Base.{
  ℕ, zero, suc, ◌+◌, ◌-◌, Bool, true, false, not, ◌&&◌, ◌||◌, Option, none, some, List, [], ◌∷◌,
  ◌++◌, Text, codes, text_eq, is_empty, strip_prefix, starts_with, length, take, drop, ltb, leb,
  ◌==◌, option_map, is_some, if◌then◌else◌, join, any,
}
use vscode_coder.Remote.SshConfig.Merging.{Record, merge_ssh_config_values, keys, get, sort_texts}

-- `haystack.indexOf(needle)`
unfoldable pub index_of : Text → Text → Option ℕ
index_of needle [] = if is_empty needle then some 0 else none
index_of needle (c ∷ t) =
    let later = index_of needle t in
    if starts_with needle (c ∷ t) then some 0 else option_map (λ i. suc i) later

-- the loop of `countSubstring`, past the characters of the match that is being skipped
unfoldable pub count_from : (skip : ℕ) → Text → Text → ℕ
count_from skip needle [] = 0
count_from zero needle (c ∷ t) =
    let later = count_from 0 needle t in
    let skipped = count_from (length needle - 1) needle t in
    if starts_with needle (c ∷ t) then suc skipped else later
count_from (suc skip) needle (c ∷ t) = count_from skip needle t

-- `countSubstring`
unfoldable pub count_substring : Text → Text → ℕ
count_substring needle haystack = if is_empty needle then 0 else count_from 0 needle haystack

unfoldable pub start_block_comment : Text → Text
start_block_comment host = codes "# --- START CODER VSCODE " ++ host ++ codes " ---"

unfoldable pub end_block_comment : Text → Text
end_block_comment host = codes "# --- END CODER VSCODE " ++ host ++ codes " ---"

-- The errors of `getBlock`.
pub data BadFormat : Type 0 where
  unterminated several_blocks end_before_start : BadFormat

pub data Found : Type 0 where
  bad_format : BadFormat → Found
  no_block : Found
  -- where it starts in the file, and its text
  block : (start : ℕ) → Text → Found

-- `raw.substring(start, end)`
abbrev pub substring : (start end_ : ℕ) → Text → Text
substring start end_ raw = take (end_ - start) (drop start raw)

-- the part of `getBlock` that reads the two indices
unfoldable pub block_between : Text → Text → Option ℕ → Option ℕ → Found
block_between raw end_block none end_ = no_block
block_between raw end_block (some start) none = no_block
block_between raw end_block (some start) (some end_) =
    if ltb end_ start
    then bad_format end_before_start
    else block start (substring start (end_ + length end_block) raw)

-- `getBlock`
unfoldable pub get_block : Text → Text → Found
get_block host raw =
    let start_block = start_block_comment host in
    let end_block = end_block_comment host in
    let starts = count_substring start_block raw in
    let ends = count_substring end_block raw in
    if not (starts == ends)
    then bad_format unterminated
    else if ltb 1 starts || ltb 1 ends
    then bad_format several_blocks
    else block_between raw end_block (index_of start_block raw) (index_of end_block raw)

abbrev key_lines : Record → List Text → List Text
key_lines config [] = []
key_lines config (key ∷ rest) =
    let later = key_lines config rest in
    let value = get key config in
    if is_empty value then later else (codes "  " ++ key ++ codes " " ++ value) ∷ later

-- `buildBlock`
unfoldable pub build_block : (host host_value : Text) → (values overrides : Record) → Text
build_block host host_value values overrides =
    let config = merge_ssh_config_values values overrides in
    join (codes "\n") (
      start_block_comment host
        ∷ codes "# This section is managed by the Coder VS Code extension."
        ∷ codes "# Changes will be overwritten on the next workspace connection."
        ∷ (codes "Host " ++ host_value)
        ∷ key_lines config (sort_texts (keys config))
      ++ end_block_comment host ∷ [])

-- The replacement that `String.replace` makes of a text: `$$`, `$&`, a backquote and an apostrophe
-- behind a `$` are patterns. The pattern is a string, so there are no groups.
unfoldable pub expand : (before matched after : Text) → Text → Text
expand before matched after [] = []
expand before matched after (c ∷ []) = c ∷ []
expand before matched after (c ∷ d ∷ t) =
    let plain = expand before matched after (d ∷ t) in
    let rest = expand before matched after t in
    if not (c == b'$')
    then c ∷ plain
    else if d == b'$'
    then b'$' ∷ rest
    else if d == b'&'
    then matched ++ rest
    else if d == b'`'
    then before ++ rest
    else if d == b'\''
    then after ++ rest
    else c ∷ plain

-- `raw.replace(old, new)`
abbrev pub replace_at : Text → Text → Text → Option ℕ → Text
replace_at raw old new none = raw
replace_at raw old new (some i) =
    let before = take i raw in
    let after = drop (i + length old) raw in before ++ expand before old after new ++ after

-- `replaceBlock`
unfoldable pub replace_block : Text → Text → Text → Text
replace_block raw old new = replace_at raw old new (index_of old raw)

abbrev pub is_space : ℕ → Bool
is_space c =
    (leb 9 c && leb c 13)
    || (leb 8192 c && leb c 8202)
    || any (λ d. d == c) (32 ∷ 160 ∷ 5760 ∷ 8232 ∷ 8233 ∷ 8239 ∷ 8287 ∷ 12288 ∷ 65279 ∷ [])

-- `trimEnd`
unfoldable pub trim_end : Text → Text
trim_end [] = []
trim_end (c ∷ t) = let rest = trim_end t in if is_space c && is_empty rest then [] else c ∷ rest

-- `appendBlock`
unfoldable pub append_block : Text → Text → Text
append_block raw new = if is_empty raw then new else trim_end raw ++ codes "\n\n" ++ new

pub data Updated : Type 0 where
  failed : BadFormat → Updated
  -- what `save` writes
  written : Text → Updated

unfoldable pub update_found : Found → (raw new : Text) → Updated
update_found (bad_format e) raw new = failed e
update_found no_block raw new = written (append_block raw new)
update_found (block start old) raw new = written (replace_block raw old new)

-- `update`, on the loaded text
unfoldable pub update : (raw host host_value : Text) → (values overrides : Record) → Updated
update raw host host_value values overrides =
    update_found (get_block host raw) raw (build_block host host_value values overrides)
