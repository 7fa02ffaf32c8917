-- ===== src/Api/UpdateParameters/Tests.antt =====
-- Prompts at concrete parameters, in a language whose lists are written with a quote before each
-- character.
use Prim.Native.Char.{Char, code, nul}
use vscode_coder.Base.{
  ℕ, ◌≡◌, ◌∙◌, refl, ap, Bool, true, false, Option, none, some, option_map, List, [], ◌∷◌, ◌++◌,
  String, All, is_some, ltb, ◌==◌, if◌then◌else◌, arith,
}
use vscode_coder.Api.UpdateParameters.{
  Parameter, Input, accept_picks, accept_text, hide, waiting, cancelled, collected, Language,
  multi_select_spec, single_spec, prompt_spec, validate, on_accept, collect_input, stored_value,
  ask, to_prompt, collect_update_parameters,
}
use vscode_coder.Api.UpdateParameters.Settled.{Reads}
use vscode_coder.Api.UpdateParameters.Complete.{AllFit, Distinct, collect_update_parameters-settled}

abbrev first : String → Char
first String.[] = nul
first (String.◌∷◌ c s) = c

abbrev write_value : String → String → String
write_value String.[] rest = rest
write_value (String.◌∷◌ c s) rest = String.◌∷◌ (first "'") (String.◌∷◌ c (write_value s rest))

abbrev write_values : List String → String
write_values [] = "]"
write_values (v ∷ values) = String.◌∷◌ (first ",") (write_value v (write_values values))

abbrev write : List String → String
write values = String.◌∷◌ (first "[") (write_values values)

abbrev add_char : Char → Option (String × List String) → Option (String × List String)
add_char c none = none
add_char c (some (v, values)) = some (String.◌∷◌ c v, values)

abbrev new_value : Option (String × List String) → Option (String × List String)
new_value none = none
new_value (some (v, values)) = some ("", v ∷ values)

abbrev read_values : String → Bool → Option (String × List String)
read_values String.[] quoted = none
read_values (String.◌∷◌ c s) true = add_char c (read_values s false)
read_values (String.◌∷◌ c s) false =
    let char = read_values s true in
    let rest = read_values s false in
    if code c == 39
    then char
    else if code c == 44
    then new_value rest
    else if code c == 93
    then some ("", [])
    else none

abbrev read : String → Option (List String)
read String.[] = none
read (String.◌∷◌ c s) = option_map (λ r. r.1) (read_values s false)

abbrev add_text : String → Option (String × List String) → Option (String × List String)
add_text String.[] r = r
add_text (String.◌∷◌ c s) r = add_char c (add_text s r)

read-write_value :
    (v rest : String) → read_values (write_value v rest) false ≡ add_text v (read_values rest false)
read-write_value String.[] rest = refl
read-write_value (String.◌∷◌ c v) rest = ap (add_char c) (read-write_value v rest)

add_text-empty :
    (v : String) (values : List String) → add_text v (some ("", values)) ≡ some (v, values)
add_text-empty String.[] values = refl
add_text-empty (String.◌∷◌ c v) values = ap (add_char c) (add_text-empty v values)

read-write_values :
    (values : List String) → read_values (write_values values) false ≡ some ("", values)
read-write_values [] = refl
read-write_values (v ∷ values) = ap new_value (
    read-write_value v (write_values values)
    ∙ ap (add_text v) (read-write_values values)
    ∙ add_text-empty v values)

abbrev quoting : Language ℕ
quoting = record { parse = read; stringify = write; number = λ s. some 7; below = ltb }

quoting-Reads : Reads quoting
quoting-Reads = record {
  empty_list = refl;
  read_back = λ values. ap (option_map (λ r. r.1)) (read-write_values values);
}

abbrev size : Parameter ℕ
size = record {
  name = "size";
  type_ = "string";
  form_type = "radio";
  mutable_ = true;
  required = true;
  options = "s" ∷ "m" ∷ [];
  validation_min = none;
  validation_max = none;
}

abbrev tools : Parameter ℕ
tools = record size {
  name = "tools";
  form_type = "multi-select";
  required = false;
  options = "git" ∷ "vim" ∷ [];
}

abbrev cores : Parameter ℕ
cores = record size {
  name = "cores";
  type_ = "number";
  options = [];
  validation_min = some 2;
  validation_max = some 8;
}

-- A size that is gone, and tools of which one is gone.
abbrev current : List (String × String)
current = ("size", "xl") ∷ ("tools", write ("git" ∷ "nano" ∷ [])) ∷ []

abbrev inputs : List (List Input)
inputs =
    (accept_text "m" ∷ accept_picks [] ∷ accept_picks ("m" ∷ []) ∷ [])
    ∷ (accept_picks ("git" ∷ "vim" ∷ []) ∷ [])
    ∷ (accept_text "" ∷ accept_text "4" ∷ [])
    ∷ []

abbrev answers : List (String × String)
answers = ("size", "m") ∷ ("tools", write ("git" ∷ "vim" ∷ [])) ∷ ("cores", "4") ∷ []

all_answered :
    collect_update_parameters quoting (size ∷ tools ∷ cores ∷ []) current inputs ≡ collected answers
unfolding multi_select_spec single_spec prompt_spec validate on_accept collect_input stored_value
    ask to_prompt collect_update_parameters
all_answered = refl

hidden :
    collect_update_parameters quoting (size ∷ tools ∷ []) current ((hide ∷ []) ∷ (hide ∷ []) ∷ [])
    ≡ cancelled
unfolding multi_select_spec single_spec prompt_spec validate on_accept collect_input stored_value
    ask to_prompt collect_update_parameters
hidden = refl

still_open :
    collect_update_parameters quoting (size ∷ []) current ((accept_picks ("xl" ∷ []) ∷ []) ∷ [])
    ≡ waiting
unfolding multi_select_spec single_spec prompt_spec validate on_accept collect_input stored_value
    ask to_prompt collect_update_parameters
still_open = refl

-- A Boolean whose options are others is asked for again whatever was picked.
bool_unsettled : is_some (prompt_spec read (record size { type_ = "bool" }) (some "true")) ≡ true
unfolding multi_select_spec single_spec prompt_spec validate on_accept collect_input stored_value
    ask to_prompt collect_update_parameters
bool_unsettled = refl

three-AllFit : AllFit (size ∷ tools ∷ cores ∷ [])
three-AllFit = ground arith

three-Distinct : Distinct (size ∷ tools ∷ cores ∷ [])
three-Distinct = ground arith

collect_update_parameters-settled_example :
    All
      (λ p. prompt_spec quoting.parse p (stored_value (current ++ answers) p.name) ≡ none)
      (size ∷ tools ∷ cores ∷ [])
collect_update_parameters-settled_example =
    collect_update_parameters-settled quoting (size ∷ tools ∷ cores ∷ []) current inputs answers
      quoting-Reads three-AllFit three-Distinct all_answered
