-- ===== src/Base/Strings.antt =====
-- Texts as lists of code units: JavaScript's string methods that the program uses.
use Prim.Native.Nat.{ℕ, ◌+◌}
use Prim.Native.Char.{code}
use Prim.Native.String.{String}
use mathlib.Core.Bool.{Bool, true, false, ◌&&◌}
use mathlib.Core.Option.{Option, none, some}
use mathlib.Core.List.{List, [], ◌∷◌, ◌++◌, map}
use vscode_coder.Base.Tests.{leb, ◌==◌, if◌then◌else◌, is_some}

abbrev pub Text : Type 0
Text = List ℕ

-- A literal; its characters are below 65536, so each is one code unit.
abbrev pub codes : String → Text
codes String.[] = []
codes (String.◌∷◌ c s) = code c ∷ codes s

-- `===` on strings.
abbrev pub text_eq : Text → Text → Bool
text_eq [] [] = true
text_eq (a ∷ s) (b ∷ t) = (a == b) && text_eq s t
text_eq _ _ = false

abbrev pub is_empty : Text → Bool
is_empty [] = true
is_empty (c ∷ s) = false

-- The rest of the text after a prefix, if it starts with it.
abbrev pub strip_prefix : Text → Text → Option Text
strip_prefix [] t = some t
strip_prefix (a ∷ p) [] = none
strip_prefix (a ∷ p) (b ∷ t) = let rest = strip_prefix p t in if a == b then rest else none

abbrev pub starts_with : Text → Text → Bool
starts_with p t = is_some (strip_prefix p t)

-- `t.includes(p)`.
abbrev pub includes : Text → Text → Bool
includes p [] = starts_with p []
includes p (c ∷ t) = let later = includes p t in if starts_with p (c ∷ t) then true else later

abbrev pub is_digit : ℕ → Bool
is_digit c = leb b'0' c && leb c b'9'

-- `toLowerCase` on ASCII letters; other code units are kept.
abbrev pub to_lower : Text → Text
to_lower = map (λ c. if leb b'A' c && leb c b'Z' then c + 32 else c)

-- `xs.join(sep)`.
abbrev pub join : Text → List Text → Text
join sep [] = []
join sep (x ∷ []) = x
join sep (x ∷ y ∷ ys) = x ++ (sep ++ join sep (y ∷ ys))

-- `t.split(c)` for a single character; `cur` is the part that is being read, reversed by appending.
abbrev pub split_from : Text → ℕ → Text → List Text
split_from cur c [] = cur ∷ []
split_from cur c (d ∷ t) =
    let closed = cur ∷ split_from [] c t in
    let longer = split_from (cur ++ d ∷ []) c t in if d == c then closed else longer

abbrev pub split : ℕ → Text → List Text
split c t = split_from [] c t
