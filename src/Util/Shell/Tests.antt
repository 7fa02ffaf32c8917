-- ===== src/Util/Shell/Tests.antt =====
-- Quoting of concrete arguments.
use vscode_coder.Base.{◌≡◌, refl, true, false, none, some, [], ◌∷◌, ◌++◌, codes}
use vscode_coder.Util.Shell.{escape_command_arg, escape_shell_arg}
use vscode_coder.Util.Shell.Posix.{bare, read_word}
use vscode_coder.Util.Shell.Quoting.{read_word-escape_shell_arg, escape_command_arg-unclosed}

windows_percent : escape_shell_arg true (codes "a%b\"c") ≡ codes "\"a%%b\"\"c\""
unfolding escape_shell_arg
windows_percent = refl

read_word-escape_shell_arg_example :
    read_word bare (escape_shell_arg false (codes "it's $HOME")) ≡ some (codes "it's $HOME")
read_word-escape_shell_arg_example = read_word-escape_shell_arg (codes "it's $HOME")

escape_command_arg-unclosed_example :
    read_word bare (escape_command_arg (codes "C:/my dir" ++ b'\\' ∷ [])) ≡ none
escape_command_arg-unclosed_example = escape_command_arg-unclosed (codes "C:/my dir") refl
