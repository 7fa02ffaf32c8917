-- ===== src/Api/UpdateParameters/Settled.antt =====
-- The answers that api/updateParameters.ts collects need no further prompt.
use text.Mathlib.Text.{◌==◌ as str_eq}
use text.Mathlib.TextEquality.{eq_iff}
use vscode_coder.Base.{
  ◌≡◌, inl, inr, refl, Bool, true, false, not, ◌&&◌, ◌||◌, Option, none, some, List, [], ◌∷◌,
  String, All, filter, Bool-cases, arith,
}
use vscode_coder.Api.UpdateParameters.{
  Parameter, Input, accept_picks, accept_text, hide, has_value, is_empty, multi_select_spec,
  single_spec, prompt_spec, quick_pick_items, accept_items, accept_in, on_accept, collect_input,
  Language,
}

-- A Boolean parameter that has options has those for its two values.
abbrev pub options_fit : {N : Type 0} → Parameter N → Bool
options_fit p =
    not (str_eq p.type_ "bool")
    || is_empty p.options
    || (has_value p.options "true" && has_value p.options "false")

-- What a text says when it was made of a list.
pub record Reads {N : Type 0} (l : Language N) : Type 0 where
  pub empty_list : l.parse "[]" ≡ some []
  pub read_back : (values : List String) → l.parse (l.stringify values) ≡ some values

abbrev Offered : List String → List String → Type 0
Offered options values = All (λ v. has_value options v ≡ true) values

Offered-filter : (options picks : List String) → Offered options (filter (has_value options) picks)
Offered-filter options [] = tt
Offered-filter options (v ∷ picks) = ground (arith, Offered-filter options picks)

-- The two values of a Boolean are offered where both are options.
Offered-bools :
    (options picks : List String)
    → has_value options "true" ≡ true
    → has_value options "false" ≡ true
    → Offered options (filter (has_value ("true" ∷ "false" ∷ [])) picks)
Offered-bools options [] t f = tt
Offered-bools options (v ∷ picks) t f =
    ground (arith, Offered-bools options picks t f, eq_iff "true" v, eq_iff "false" v)

none_gone :
    (options values : List String)
    → Offered options values
    → filter (λ v. not (has_value options v)) values ≡ []
none_gone options [] o = refl
none_gone options (v ∷ values) (h, o) = ground (arith, none_gone options values o)

multi_select_spec-settled :
    (options values : List String)
    → Offered options values
    → multi_select_spec options (some values) ≡ none
unfolding multi_select_spec
multi_select_spec-settled options values o = rw (none_gone options values o) refl

items-Offered :
    {N : Type 0}
    → (p : Parameter N) (items picks : List String) → quick_pick_items p ≡ some items
    → options_fit p ≡ true
    → is_empty p.options ≡ false
    → Offered p.options (filter (has_value items) picks)
items-Offered p items picks e fit n =
    ground (arith, Offered-filter p.options picks, Offered-bools p.options picks)

module _ {N : Type 0} (l : Language N) (reads : Reads l) where
  accept_items-settled :
      (p : Parameter N) (values : List String) (v : String) (multi : Bool)
      → str_eq p.form_type "multi-select" ≡ multi
      → Offered p.options values
      → accept_items l.stringify multi p.required values ≡ some v
      → prompt_spec l.parse p (some v) ≡ none
  unfolding prompt_spec single_spec
  accept_items-settled p [] v true e o h =
      ground (arith, reads.empty_list, multi_select_spec-settled p.options [] tt)
  accept_items-settled p (x ∷ values) v true e o h =
      ground
        (arith, reads.read_back (x ∷ values), multi_select_spec-settled p.options (x ∷ values) o)
  accept_items-settled p [] v false e o h = ground arith
  accept_items-settled p (x ∷ values) v false e o h = ground arith

  accept_in-settled :
      (p : Parameter N) (items : Option (List String)) (input : Input) (v : String)
      → quick_pick_items p ≡ items
      → options_fit p ≡ true
      → accept_in l.number l.below l.stringify p items input ≡ some v
      → prompt_spec l.parse p (some v) ≡ none
  unfolding prompt_spec
  accept_in-settled p none (accept_text t) v e b h = ground arith
  accept_in-settled p none (accept_picks picks) v e b h = ground arith
  accept_in-settled p none hide v e b h = ground arith
  accept_in-settled p (some items) (accept_picks picks) v e b h =
      elim (Bool-cases (is_empty p.options)) [
        | inl no_options ↦ rw no_options refl
        | inr options ↦
            accept_items-settled p (filter (has_value items) picks) v
              (str_eq p.form_type "multi-select") refl (items-Offered p items picks e b options) h
      ]
  accept_in-settled p (some items) (accept_text t) v e b h = ground arith
  accept_in-settled p (some items) hide v e b h = ground arith

  -- An input that a prompt takes as its answer settles the parameter.
  pub collect_input-settled :
      (p : Parameter N) (inputs : List Input) (v : String)
      → options_fit p ≡ true
      → collect_input (on_accept l.number l.below l.stringify p) inputs ≡ some (some v)
      → prompt_spec l.parse p (some v) ≡ none
  unfolding collect_input on_accept
  collect_input-settled p [] v b h = ground arith
  collect_input-settled p (accept_picks picks ∷ inputs) v b h = ground (
    arith,
    accept_in-settled p (quick_pick_items p) (accept_picks picks) v refl b,
    collect_input-settled p inputs v b,
  )
  collect_input-settled p (accept_text t ∷ inputs) v b h = ground (
    arith,
    accept_in-settled p (quick_pick_items p) (accept_text t) v refl b,
    collect_input-settled p inputs v b,
  )
  collect_input-settled p (hide ∷ inputs) v b h = ground arith
