-- ===== src/Util/Shell/Posix.antt =====
-- How a POSIX shell reads one word, as a reference for src/util.ts: quotes, escapes, and a refusal
-- where an expansion starts, a quote is left open or the word ends early.
use vscode_coder.Base.{
  ℕ, Bool, true, Option, none, some, option_map, [], ◌∷◌, ◌++◌, Text, codes, has, ◌==◌,
  if◌then◌else◌,
}
use vscode_coder.Util.Shell.{is_safe}

pub data Quote : Type 0 where
  bare single double escaped double_escaped broken : Quote

abbrev starts_expansion : ℕ → Bool
starts_expansion c = if c == b'$' then true else c == b'`'

abbrev pub next : Quote → ℕ → Quote
next bare c =
    if c == b'\''
    then single
    else if c == b'"'
    then double
    else if c == b'\\'
    then escaped
    else if is_safe c
    then bare
    else broken
next single c = if c == b'\'' then bare else single
next double c =
    if c == b'"'
    then bare
    else if c == b'\\'
    then double_escaped
    else if starts_expansion c
    then broken
    else double
next escaped c = bare
next double_escaped c = double
next broken c = broken

-- the characters that a backslash escapes inside double quotes
abbrev is_escapable : ℕ → Bool
is_escapable c = has (codes "\"\\$`") c

-- what a character adds to the word
abbrev pub out : Quote → ℕ → Text
out bare c = if c == b'\'' then [] else if c == b'"' then [] else if c == b'\\' then [] else c ∷ []
out single c = if c == b'\'' then [] else c ∷ []
out double c = if c == b'"' then [] else if c == b'\\' then [] else c ∷ []
out escaped c = c ∷ []
out double_escaped c = if is_escapable c then c ∷ [] else b'\\' ∷ c ∷ []
out broken c = []

abbrev pub ends : Quote → Option Text
ends bare = some []
ends _ = none

-- the word that a text is, if it is one word
unfoldable pub read_word : Quote → Text → Option Text
read_word q [] = ends q
read_word q (c ∷ t) = option_map (λ rest. out q c ++ rest) (read_word (next q c) t)
