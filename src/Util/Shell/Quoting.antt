-- ===== src/Util/Shell/Quoting.antt =====
-- What a POSIX shell makes of the arguments that src/util.ts quotes.
use vscode_coder.Base.{
  ℕ, ◌≡◌, refl, Bool, true, false, not, ◌&&◌, none, some, [], ◌∷◌, ◌++◌, Text, codes, is_empty, has,
  all, any, inl, inr, Bool-cases, arith,
}
use vscode_coder.Util.Shell.{is_safe, replace_all, escape_command_arg, escape_shell_arg}
use vscode_coder.Util.Shell.Posix.{next, out, bare, single, double, read_word}

and-true : (a b : Bool) → (a && b) ≡ true → (a ≡ true) × (b ≡ true)
and-true true b h = (refl, h)
and-true false b h = cc

read_word-single :
    (arg : Text)
    → read_word single (replace_all b'\'' (b'\'' ∷ b'\\' ∷ b'\'' ∷ b'\'' ∷ []) arg ++ b'\'' ∷ [])
      ≡ some arg
unfolding read_word
read_word-single [] = refl
read_word-single (c ∷ arg) = ground (arith, read_word-single arg)

-- A POSIX shell reads an argument that was quoted for it, whatever the argument holds, as one word,
-- and the word is the argument: nothing is expanded and no quote is left open.
pub read_word-escape_shell_arg :
    (arg : Text) → read_word bare (escape_shell_arg false arg) ≡ some arg
unfolding escape_shell_arg read_word
read_word-escape_shell_arg arg = ground (arith, read_word-single arg)

-- a backslash or the start of an expansion
abbrev pub is_active : ℕ → Bool
is_active c = has (codes "\\$`") c

unsafe : (is_safe b'\'' ≡ false) × (is_safe b'"' ≡ false) × (is_safe b'\\' ≡ false)
unfolding is_safe
unsafe = (refl, refl, refl)

next-safe : (c : ℕ) → is_safe c ≡ true → (next bare c ≡ bare) × (out bare c ≡ c ∷ [])
next-safe c h = ground (arith, unsafe)

read_word-safe : (arg : Text) → all is_safe arg ≡ true → read_word bare arg ≡ some arg
unfolding read_word
read_word-safe [] h = refl
read_word-safe (c ∷ arg) h =
    let (first, rest) = and-true (is_safe c) (all is_safe arg) h in
    let (state, word) = next-safe c first in rw (state, word, read_word-safe arg rest) refl

read_word-double :
    (arg : Text)
    → any is_active arg ≡ false
    → read_word double (replace_all b'"' (b'\\' ∷ b'"' ∷ []) arg ++ b'"' ∷ []) ≡ some arg
unfolding read_word
read_word-double [] h = refl
read_word-double (c ∷ arg) h = ground (arith, read_word-double arg)

read_word-open :
    (arg : Text)
    → any is_active arg ≡ false
    → read_word double (replace_all b'"' (b'\\' ∷ b'"' ∷ []) (arg ++ b'\\' ∷ []) ++ b'"' ∷ [])
      ≡ none
unfolding read_word
read_word-open [] h = refl
read_word-open (c ∷ arg) h = ground (arith, read_word-open arg)

-- Where an argument holds no backslash, no `$` and no backquote, a POSIX shell reads what
-- `escapeCommandArg` makes of it as one word, and the word is the argument.
read_word-escape_command_arg :
    (arg : Text) → any is_active arg ≡ false → read_word bare (escape_command_arg arg) ≡ some arg
unfolding escape_command_arg read_word
read_word-escape_command_arg arg h = elim (Bool-cases (not (is_empty arg) && all is_safe arg)) [
  | inl plain ↦
      rw plain (read_word-safe arg (and-true (not (is_empty arg)) (all is_safe arg) plain).1)
  | inr quoted ↦ rw quoted (rw (read_word-double arg h) refl)
]

not-safe : (arg : Text) → all is_safe (arg ++ b'\\' ∷ []) ≡ false
not-safe [] = ground (arith, unsafe)
not-safe (c ∷ arg) = ground (arith, not-safe arg)

-- An argument that ends in a backslash, and holds before it no backslash, no `$` and no backquote,
-- becomes a text that a POSIX shell does not read as a word: the backslash escapes the closing quote.
pub escape_command_arg-unclosed :
    (arg : Text)
    → any is_active arg ≡ false
    → read_word bare (escape_command_arg (arg ++ b'\\' ∷ [])) ≡ none
unfolding escape_command_arg read_word
escape_command_arg-unclosed arg h = ground (arith, not-safe arg, read_word-open arg h)
