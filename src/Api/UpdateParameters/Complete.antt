-- ===== src/Api/UpdateParameters/Complete.antt =====
-- The answers of api/updateParameters.ts, written over the current values, leave nothing to ask for.
use text.Mathlib.Text.{◌==◌ as str_eq}
use text.Mathlib.TextEquality.{eq_iff}
use vscode_coder.Base.{
  ◌≡◌, refl, sym, ap, ◌∙◌, subst, true, false, Option, none, some, List, [], ◌∷◌, ◌++◌, String, All,
  if◌then◌else◌, arith,
}
use vscode_coder.Api.UpdateParameters.{
  Parameter, PromptSpec, Input, Collected, waiting, cancelled, collected, prompt_spec, on_accept,
  collect_input, after_prompt, or_else, ask, keep, to_prompt, stored_value, Language,
  collect_update_parameters,
}
use vscode_coder.Api.UpdateParameters.Settled.{options_fit, Reads, collect_input-settled}

-- No parameter has a name, and no two have the same.
abbrev Unnamed : {N : Type 0} → String → List (Parameter N) → Type 0
Unnamed n ps = All (λ q. str_eq q.name n ≡ false) ps

abbrev pub Distinct : {N : Type 0} → List (Parameter N) → Type 0
Distinct [] = Unit
Distinct (p ∷ ps) = Unnamed p.name ps × Distinct ps

abbrev pub AllFit : {N : Type 0} → List (Parameter N) → Type 0
AllFit ps = All (λ p. options_fit p ≡ true) ps

or_else-none : (o : Option String) → or_else o none ≡ o
or_else-none none = refl
or_else-none (some v) = refl

or_else_assoc : (a b c : Option String) → or_else (or_else a b) c ≡ or_else a (or_else b c)
or_else_assoc none b c = refl
or_else_assoc (some v) b c = refl

stored_value-append :
    (current answers : List (String × String)) (n : String)
    → stored_value (current ++ answers) n
      ≡ or_else (stored_value answers n) (stored_value current n)
unfolding stored_value
stored_value-append [] answers n = sym (or_else-none (stored_value answers n))
stored_value-append ((m, v) ∷ current) answers n =
    ap (λ t. or_else t (if str_eq m n then some v else none))
      (stored_value-append current answers n)
    ∙ or_else_assoc (stored_value answers n) (stored_value current n) _

module _ {N : Type 0} (l : Language N) (stored : String → Option String) where
  abbrev prompted : List (Parameter N) → List (Parameter N)
  prompted ps = to_prompt (prompt_spec l.parse) stored ps

  abbrev asked : List (Parameter N) → List (List Input) → Collected
  asked ps inputs = ask (on_accept l.number l.below l.stringify) ps inputs

  -- Either a parameter is not asked for, or its prompt took an answer and the rest was collected.
  data Asked (p : Parameter N) (ps : List (Parameter N)) (answers : List (String × String))
      : Type 0 where
    skipped :
        (inputs : List (List Input))
        → prompt_spec l.parse p (stored p.name) ≡ none
        → asked (prompted ps) inputs ≡ collected answers
        → Asked p ps answers
    answered :
        (v : String) (rest : List (String × String)) (now : List Input) (inputs : List (List Input))
        → answers ≡ (p.name, v) ∷ rest
        → collect_input (on_accept l.number l.below l.stringify p) now ≡ some (some v)
        → asked (prompted ps) inputs ≡ collected rest
        → Asked p ps answers

  after_prompt-Asked :
      (p : Parameter N) (ps : List (Parameter N)) (now : List Input) (inputs : List (List Input))
      (o : Option (Option String)) (c : Collected) (answers : List (String × String))
      → collect_input (on_accept l.number l.below l.stringify p) now ≡ o
      → asked (prompted ps) inputs ≡ c
      → after_prompt p.name o c ≡ collected answers
      → Asked p ps answers
  after_prompt-Asked p ps now inputs none c answers e d h = absurd (ground arith)
  after_prompt-Asked p ps now inputs (some none) c answers e d h = absurd (ground arith)
  after_prompt-Asked p ps now inputs (some (some v)) waiting answers e d h = absurd (ground arith)
  after_prompt-Asked p ps now inputs (some (some v)) cancelled answers e d h = absurd (ground arith)
  after_prompt-Asked p ps now inputs (some (some v)) (collected rest) answers e d h =
      answered v rest now inputs (ground arith) e d

  keep-Asked :
      (p : Parameter N) (ps : List (Parameter N)) (s : Option PromptSpec)
      (inputs : List (List Input)) (answers : List (String × String))
      → prompt_spec l.parse p (stored p.name) ≡ s
      → asked (keep (prompt_spec l.parse) p s (prompted ps)) inputs ≡ collected answers
      → Asked p ps answers
  unfolding ask
  keep-Asked p ps none inputs answers e h = skipped inputs e h
  keep-Asked p ps (some s) [] answers e h = absurd (ground arith)
  keep-Asked p ps (some s) (now ∷ inputs) answers e h =
      after_prompt-Asked p ps now inputs _ _ answers refl refl h

  ask-Asked :
      (p : Parameter N) (ps : List (Parameter N)) (inputs : List (List Input))
      (answers : List (String × String))
      → asked (prompted (p ∷ ps)) inputs ≡ collected answers
      → Asked p ps answers
  unfolding to_prompt
  ask-Asked p ps inputs answers h = keep-Asked p ps _ inputs answers refl h

  -- Only the names of parameters are answered.
  ask-Unnamed :
      (ps : List (Parameter N)) (inputs : List (List Input)) (answers : List (String × String))
      (n : String)
      → Unnamed n ps
      → asked (prompted ps) inputs ≡ collected answers
      → stored_value answers n ≡ none
  unfolding to_prompt ask stored_value
  ask-Unnamed [] inputs answers n u h = ground arith
  ask-Unnamed (p ∷ ps) inputs answers n (u, us) h = elim (ask-Asked p ps inputs answers h) [
    | skipped later e d ↦ ask-Unnamed ps later answers n us d
    | answered v rest now later e c d ↦
        subst (λ t. stored_value t n ≡ none) (sym e) (rw (ask-Unnamed ps later rest n us d, u) refl)
  ]

  -- What is known of each parameter once the answers count.
  abbrev SettledBy : List (String × String) → List (Parameter N) → Type 0
  SettledBy answers ps =
      All
        (λ p. prompt_spec l.parse p (or_else (stored_value answers p.name) (stored p.name)) ≡ none)
        ps

  SettledBy-more :
      (ps : List (Parameter N)) (n v : String) (rest : List (String × String))
      → Unnamed n ps
      → SettledBy rest ps
      → SettledBy ((n, v) ∷ rest) ps
  unfolding stored_value
  SettledBy-more [] n v rest u s = tt
  SettledBy-more (q ∷ ps) n v rest (u, us) (s, ss) =
      let other : str_eq n q.name ≡ false = ground (arith, eq_iff n q.name, eq_iff q.name n) in
      (
        rw other (
            subst (λ t. prompt_spec l.parse q (or_else t (stored q.name)) ≡ none)
              (sym (or_else-none (stored_value rest q.name))) s),
        SettledBy-more ps n v rest us ss,
      )

  ask-settled :
      (ps : List (Parameter N)) (inputs : List (List Input)) (answers : List (String × String))
      → Reads l
      → AllFit ps
      → Distinct ps
      → asked (prompted ps) inputs ≡ collected answers
      → SettledBy answers ps
  unfolding stored_value
  ask-settled [] inputs answers r fit d h = tt
  ask-settled (p ∷ ps) inputs answers r (f, fit) (u, d) h = elim (ask-Asked p ps inputs answers h) [
    | skipped later e more ↦ (
      rw (ask-Unnamed ps later answers p.name u more) e,
      ask-settled ps later answers r fit d more,
    )
    | answered v rest now later e c more ↦
        let self : str_eq p.name p.name ≡ true = ground (arith, eq_iff p.name p.name) in
        subst (λ t. SettledBy t (p ∷ ps)) (sym e)
          (
            rw (ask-Unnamed ps later rest p.name u more, self)
                (collect_input-settled l r p now v f c),
            SettledBy-more ps p.name v rest u (ask-settled ps later rest r fit d more),
          )
  ]

All-same :
    {N : Type 0}
    → (l : Language N) (current answers : List (String × String)) (ps : List (Parameter N))
    → SettledBy l (stored_value current) answers ps
    → All (λ p. prompt_spec l.parse p (stored_value (current ++ answers) p.name) ≡ none) ps
All-same l current answers [] s = tt
All-same l current answers (p ∷ ps) (s, ss) =
    (rw (stored_value-append current answers p.name) s, All-same l current answers ps ss)

-- Where lists are read as they were written, no two parameters have one name, and a Boolean with
-- options has those for its two values: when all prompts were answered, and the answers are written
-- over the current values, no parameter of the new version needs a prompt any more.
pub collect_update_parameters-settled :
    {N : Type 0}
    → (l : Language N) (params : List (Parameter N)) (current : List (String × String))
      (inputs : List (List Input)) (answers : List (String × String))
    → Reads l
    → AllFit params
    → Distinct params
    → collect_update_parameters l params current inputs ≡ collected answers
    → All (λ p. prompt_spec l.parse p (stored_value (current ++ answers) p.name) ≡ none) params
unfolding collect_update_parameters
collect_update_parameters-settled l params current inputs answers r fit d h =
    All-same l current answers params
      (ask-settled l (stored_value current) params inputs answers r fit d h)
