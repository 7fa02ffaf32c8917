-- ===== src/Util/Shell.antt =====
-- The quoting of command arguments in src/util.ts.
pub mod Posix
pub mod Quoting
mod Tests
use vscode_coder.Base.{
  ℕ, Bool, true, false, not, ◌&&◌, ◌||◌, [], ◌∷◌, ◌++◌, Text, codes, is_empty, is_digit, has, all,
  leb, ◌==◌, if◌then◌else◌,
}

-- the characters of `[\w@%+,=:./-]`
unfoldable pub is_safe : ℕ → Bool
is_safe c =
    is_digit c
    || (leb b'a' c && leb c b'z')
    || (leb b'A' c && leb c b'Z')
    || has (codes "_@%+,=:./-") c

-- `replaceAll` and global `replace` of one character
abbrev pub replace_all : ℕ → Text → Text → Text
replace_all old new [] = []
replace_all old new (c ∷ t) =
    let rest = replace_all old new t in if c == old then new ++ rest else c ∷ rest

-- `escapeCommandArg`
unfoldable pub escape_command_arg : Text → Text
escape_command_arg arg =
    if not (is_empty arg) && all is_safe arg
    then arg
    else b'"' ∷ (replace_all b'"' (b'\\' ∷ b'"' ∷ []) arg ++ b'"' ∷ [])

-- `escapeShellArg`, with whether the platform is win32
unfoldable pub escape_shell_arg : Bool → Text → Text
escape_shell_arg true arg =
    let escaped = replace_all b'%' (b'%' ∷ b'%' ∷ []) (replace_all b'"' (b'"' ∷ b'"' ∷ []) arg) in
    b'"' ∷ (escaped ++ b'"' ∷ [])
escape_shell_arg false arg =
    b'\'' ∷ (replace_all b'\'' (b'\'' ∷ b'\\' ∷ b'\'' ∷ b'\'' ∷ []) arg ++ b'\'' ∷ [])
