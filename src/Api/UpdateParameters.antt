-- ===== src/Api/UpdateParameters.antt =====
-- The parameters that api/updateParameters.ts asks for before a workspace is updated. What JSON and
-- numbers a text holds are functions of the language, taken as parameters; of the texts that are shown,
-- the drift is kept as data.
pub mod Settled
pub mod Complete
mod Tests
use text.Mathlib.Text.{◌==◌ as str_eq}
use vscode_coder.Base.{
  ℕ, Bool, true, false, not, ◌&&◌, Option, none, some, List, [], ◌∷◌, String, any, all, filter, map,
  if◌then◌else◌,
}

-- The parts of `TemplateVersionParameter` that are read; an option is its value.
pub record Parameter (N : Type 0) : Type 0 where
  pub name : String
  pub type_ : String
  pub form_type : String
  pub mutable_ : Bool
  pub required : Bool
  pub options : List String
  pub validation_min : Option N
  pub validation_max : Option N

-- `driftNote`: the values that are gone, or what else happened to them
pub data Drift : Type 0 where
  nothing_recovered : Drift
  values_gone : List String → Drift
  no_previous : Drift
  value_gone : String → Drift

pub record PromptSpec : Type 0 where
  pub drift_note : Option Drift
  pub preselect : Option (List String)

pub data Validity : Type 0 where
  valid : Validity
  missing : Validity
  no_number : Validity
  too_low : Validity
  too_high : Validity

-- What the user does with a prompt: accepts what is picked, accepts a text, or hides it.
pub data Input : Type 0 where
  accept_picks : List String → Input
  accept_text : String → Input
  hide : Input

-- Where the collection stands: at an open prompt, dismissed, or with the answers.
pub data Collected : Type 0 where
  waiting : Collected
  cancelled : Collected
  collected : List (String × String) → Collected

-- `valid.has(v)` and `preselect.includes(v)`
abbrev pub has_value : List String → String → Bool
has_value values v = any (λ o. str_eq o v) values

abbrev pub is_empty : List String → Bool
is_empty [] = true
is_empty (v ∷ values) = false

-- the picks that `parseMultiSelectValue` recovers
unfoldable pub multi_select_spec : List String → Option (List String) → Option PromptSpec
multi_select_spec options none =
    some (record { drift_note = some nothing_recovered; preselect = some [] })
multi_select_spec options (some picks) =
    let drifted = filter (λ v. not (has_value options v)) picks in
    if is_empty drifted
    then none
    else some (record {
      drift_note = some (values_gone drifted);
      preselect = some (filter (has_value options) picks);
    })

unfoldable pub single_spec : List String → String → Option PromptSpec
single_spec options v =
    if has_value options v
    then none
    else some (record {
      drift_note = some (if str_eq v "" then no_previous else value_gone v);
      preselect = none;
    })

module _ (parse : String → Option (List String)) where
  -- `promptSpec`
  unfoldable pub prompt_spec : {N : Type 0} → Parameter N → Option String → Option PromptSpec
  unfolding multi_select_spec single_spec
  prompt_spec p none =
      if not p.mutable_
      then some (record { drift_note = none; preselect = none })
      else if p.required
      then some (record { drift_note = none; preselect = none })
      else none
  prompt_spec p (some v) =
      if is_empty p.options
      then none
      else if str_eq p.form_type "multi-select"
      then multi_select_spec p.options (parse v)
      else single_spec p.options v

-- `quickPickItems`: the values to choose from, none for a text
abbrev pub quick_pick_items : {N : Type 0} → Parameter N → Option (List String)
quick_pick_items p =
    if str_eq p.type_ "bool"
    then some ("true" ∷ "false" ∷ [])
    else if is_empty p.options
    then none
    else some p.options

abbrev pub if_valid : String → Validity → Option String
if_valid input valid = some input
if_valid input missing = none
if_valid input no_number = none
if_valid input too_low = none
if_valid input too_high = none

-- the `onAccept` of a quick pick, with the items that are selected
abbrev pub accept_items : (List String → String) → Bool → Bool → List String → Option String
accept_items stringify true required [] = if required then none else some "[]"
accept_items stringify true required (v ∷ picks) = some (stringify (v ∷ picks))
accept_items stringify false required [] = none
accept_items stringify false required (v ∷ picks) = some v

module _ {N : Type 0} (number : String → Option N) (below : N → N → Bool) where
  abbrev pub check_max : Option N → N → Validity
  check_max none n = valid
  check_max (some hi) n = if below hi n then too_high else valid

  abbrev pub check_range : Option N → Option N → N → Validity
  check_range none high n = check_max high n
  check_range (some lo) high n = if below n lo then too_low else check_max high n

  abbrev pub check_number : Parameter N → Option N → Validity
  check_number p none = no_number
  check_number p (some n) = check_range p.validation_min p.validation_max n

  -- `makeValidator`
  unfoldable pub validate : Parameter N → String → Validity
  validate p input =
      if str_eq input ""
      then (if p.required then missing else valid)
      else if str_eq p.type_ "number"
      then check_number p (number input)
      else valid

  module _ (stringify : List String → String) where
    -- the value that an accept gives, none where it leaves the prompt open; only items can be picked
    abbrev pub accept_in : Parameter N → Option (List String) → Input → Option String
    accept_in p none (accept_text v) = if_valid v (validate p v)
    accept_in p none (accept_picks picks) = none
    accept_in p none hide = none
    accept_in p (some items) (accept_picks picks) =
        accept_items stringify (str_eq p.form_type "multi-select") p.required
          (filter (has_value items) picks)
    accept_in p (some items) (accept_text v) = none
    accept_in p (some items) hide = none

    unfoldable pub on_accept : Parameter N → Input → Option String
    on_accept p input = accept_in p (quick_pick_items p) input

-- the prompt's promise, by what the user does: none while it is open, `undefined` when it is hidden
abbrev pub or_open : Option String → Option (Option String) → Option (Option String)
or_open none later = later
or_open (some v) later = some (some v)

-- `collectInput`
unfoldable pub collect_input : (Input → Option String) → List Input → Option (Option String)
collect_input on_accept [] = none
collect_input on_accept (accept_picks picks ∷ inputs) =
    or_open (on_accept (accept_picks picks)) (collect_input on_accept inputs)
collect_input on_accept (accept_text v ∷ inputs) =
    or_open (on_accept (accept_text v)) (collect_input on_accept inputs)
collect_input on_accept (hide ∷ inputs) = some none

abbrev pub add_answer : String → String → Collected → Collected
add_answer name v waiting = waiting
add_answer name v cancelled = cancelled
add_answer name v (collected answers) = collected ((name, v) ∷ answers)

abbrev pub after_prompt : String → Option (Option String) → Collected → Collected
after_prompt name none later = waiting
after_prompt name (some none) later = cancelled
after_prompt name (some (some v)) later = add_answer name v later

-- `new Map(...)` of the current values, of which the last one of a name counts
abbrev or_else : Option String → Option String → Option String
or_else none o = o
or_else (some v) o = some v

unfoldable pub stored_value : List (String × String) → String → Option String
stored_value [] name = none
stored_value ((n, v) ∷ rest) name =
    or_else (stored_value rest name) (if str_eq n name then some v else none)

module _ {N : Type 0} (on_accept : Parameter N → Input → Option String) where
  -- the loop over the prompts, each with the inputs it gets
  unfoldable pub ask : List (Parameter N) → List (List Input) → Collected
  ask [] inputs = collected []
  ask (p ∷ ps) [] = waiting
  ask (p ∷ ps) (inputs ∷ later) =
      after_prompt p.name (collect_input (on_accept p) inputs) (ask ps later)

module _ {N : Type 0} (spec : Parameter N → Option String → Option PromptSpec) where
  abbrev pub keep : Parameter N → Option PromptSpec → List (Parameter N) → List (Parameter N)
  keep p none ps = ps
  keep p (some s) ps = p ∷ ps

  -- `toPrompt`
  unfoldable pub to_prompt : (String → Option String) → List (Parameter N) → List (Parameter N)
  to_prompt stored [] = []
  to_prompt stored (p ∷ ps) = keep p (spec p (stored p.name)) (to_prompt stored ps)

-- What the language makes of texts.
pub record Language (N : Type 0) : Type 0 where
  pub parse : String → Option (List String)
  pub stringify : List String → String
  pub number : String → Option N
  pub below : N → N → Bool

-- `collectUpdateParameters`
unfoldable pub collect_update_parameters :
    {N : Type 0}
    → Language N
    → List (Parameter N)
    → List (String × String)
    → List (List Input)
    → Collected
collect_update_parameters l new_params current_values inputs =
    ask (on_accept l.number l.below l.stringify)
      (to_prompt (prompt_spec l.parse) (stored_value current_values) new_params) inputs
