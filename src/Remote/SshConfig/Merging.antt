-- ===== src/Remote/SshConfig/Merging.antt =====
-- `mergeSshConfigValues` and `parseSshConfig` of remote/sshConfig.ts. A `Record<string, string>` is a list
-- of keys with values in the order of insertion; keys that are array indices, which JavaScript would
-- put first, do not occur. Lower case is taken on ASCII letters.
pub mod Lookup
pub mod Overrides
pub mod Leftovers
pub mod Merged
use vscode_coder.Base.{
  ℕ, zero, suc, Bool, true, false, not, ◌&&◌, ◌||◌, Option, none, some, List, [], ◌∷◌, ◌++◌, map,
  Text, codes, text_eq, is_empty, is_digit, to_lower, is_some, leb, ltb, ◌==◌, if◌then◌else◌,
}

abbrev pub Record : Type 0
Record = List (Text × Text)

-- `r[key]`, where the key is missing `undefined`, which is falsy as the empty text is
unfoldable pub find : Text → Record → Option Text
find key [] = none
find key ((k, v) ∷ r) = let later = find key r in if text_eq k key then some v else later

abbrev pub or_empty : Option Text → Text
or_empty none = []
or_empty (some v) = v

unfoldable pub get : Text → Record → Text
get key r = or_empty (find key r)

-- `r[key] = value`
unfoldable pub put : Text → Text → Record → Record
put key value [] = (key, value) ∷ []
put key value ((k, v) ∷ r) =
    let later = put key value r in if text_eq k key then (k, value) ∷ r else (k, v) ∷ later

-- `delete r[key]`
unfoldable pub remove : Text → Record → Record
remove key [] = []
remove key ((k, v) ∷ r) = let later = remove key r in if text_eq k key then r else (k, v) ∷ later

-- `Object.keys`
unfoldable pub keys : Record → List Text
keys [] = []
keys ((k, v) ∷ r) = k ∷ keys r

-- `caseInsensitiveOverrides`
unfoldable pub spellings : Record → List Text → Record
spellings acc [] = acc
spellings acc (key ∷ rest) = spellings (put (to_lower key) key acc) rest

abbrev pub set_env : Text
set_env = codes "SetEnv"

abbrev pub lower_set_env : Text
lower_set_env = codes "setenv"

pub record Merge : Type 0 where
  pub merged : Record
  pub spelled : Record

abbrev merge_set_env : (config_value value : Text) → Record → Record
merge_set_env config_value value merged =
    if is_empty value
    then put set_env config_value merged
    else put set_env (config_value ++ codes " " ++ value) merged

-- a key of the config that has an override, with the spelling of the override
unfoldable pub merge_override : (lower spelling config_value value : Text) → Merge → Merge
merge_override lower spelling config_value value m =
    let left = remove lower m.spelled in
    if text_eq lower lower_set_env
    then record { merged = merge_set_env config_value value m.merged; spelled = left }
    else if is_empty value
    then record { merged = m.merged; spelled = left }
    else record { merged = put spelling value m.merged; spelled = left }

-- the first loop's body, for the spelling that an override has for the key, empty if there is none
unfoldable pub merge_spelled :
    (overrides : Record) → (key config_value spelling : Text) → Merge → Merge
merge_spelled overrides key config_value spelling m =
    if is_empty spelling
    then (if is_empty config_value
        then m
        else record { merged = put key config_value m.merged; spelled = m.spelled })
    else merge_override (to_lower key) spelling config_value (get spelling overrides) m

unfoldable pub merge_key : (overrides : Record) → Text × Text → Merge → Merge
merge_key overrides (key, config_value) m =
    merge_spelled overrides key config_value (get (to_lower key) m.spelled) m

unfoldable pub merge_keys : (overrides : Record) → Record → Merge → Merge
merge_keys overrides [] m = m
merge_keys overrides (entry ∷ rest) m = merge_keys overrides rest (merge_key overrides entry m)

-- the second loop's body
unfoldable pub add_override : (lower spelling value old : Text) → Record → Record
add_override lower spelling value old merged =
    if text_eq lower lower_set_env && not (is_empty old)
    then put set_env (old ++ codes " " ++ value) merged
    else put spelling value merged

-- the second loop
unfoldable pub add_left : (overrides : Record) → (left : Record) → Record → Record
add_left overrides [] merged = merged
add_left overrides ((lower, spelling) ∷ left) merged =
    add_left overrides left
      (add_override lower spelling (get spelling overrides) (get set_env merged) merged)

-- `mergeSshConfigValues`
unfoldable pub merge_ssh_config_values : (config overrides : Record) → Record
merge_ssh_config_values config overrides =
    let m =
      merge_keys overrides config
        (record { merged = []; spelled = spellings [] (keys overrides) }) in
    add_left overrides m.spelled m.merged

-- texts in the order of their code units, as `Array.sort` puts them
abbrev text_leb : Text → Text → Bool
text_leb [] t = true
text_leb (a ∷ s) [] = false
text_leb (a ∷ s) (b ∷ t) = let rest = text_leb s t in if a == b then rest else ltb a b

unfoldable pub insert_text : Text → List Text → List Text
insert_text t [] = t ∷ []
insert_text t (s ∷ rest) =
    let later = insert_text t rest in if text_leb t s then t ∷ s ∷ rest else s ∷ later

unfoldable pub sort_texts : List Text → List Text
sort_texts [] = []
sort_texts (t ∷ rest) = insert_text t (sort_texts rest)

-- a match of `sshKeyRegex`, with the rest of the line
abbrev is_key_char : ℕ → Bool
is_key_char c =
    is_digit c || (leb b'a' c && leb c b'z') || (leb b'A' c && leb c b'Z') || (c == b'-')

unfoldable pub read_key : Text → Text × Text
read_key [] = ([], [])
read_key (c ∷ t) =
    let rest = read_key t in if is_key_char c then (c ∷ rest.0, rest.1) else ([], c ∷ t)

abbrev pub accumulate : Text → Text → Text
accumulate old value = if is_empty old then value else old ++ codes " " ++ value

-- what a key and its value add
unfoldable pub parse_entry : (key value : Text) → Record → Record
parse_entry key value acc =
    if text_eq (to_lower key) lower_set_env
    then (if is_empty value then acc else put set_env (accumulate (get set_env acc) value) acc)
    else put key value acc

-- the body of `parseSshConfig` for a key and the rest of its line
unfoldable pub parse_line : Text × Text → Record → Record
parse_line ([], rest) acc = acc
parse_line (c ∷ key, []) acc = acc
parse_line (c ∷ key, separator ∷ value) acc =
    if (separator == b'=') || (separator == b' ') then parse_entry (c ∷ key) value acc else acc

unfoldable pub parse_from : Record → List Text → Record
parse_from acc [] = acc
parse_from acc (line ∷ lines) = parse_from (parse_line (read_key line) acc) lines

-- `parseSshConfig`
unfoldable pub parse_ssh_config : List Text → Record
parse_ssh_config lines = parse_from [] lines
