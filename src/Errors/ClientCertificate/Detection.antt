-- ===== src/Errors/ClientCertificate/Detection.antt =====
-- What the detection of client certificate errors looks at.
use mathlib.Core.List.{Memᴰ, map-append}
use mathlib.Core.Path.{ap₂}
use mathlib.Core.Option.{none-ne-some, some-injective}
use vscode_coder.Base.{
  ℕ, ◌≡◌, refl, sym, ap, ◌∙◌, ◌⊎◌, inl, inr, true, Option, none, some, List, [], ◌∷◌, ◌++◌, Text,
  is_empty, includes, strip_prefix, strip_prefix_sound, to_lower, Bool-cases, Option-cases,
}
use vscode_coder.Errors.ClientCertificate.{
  JsError, error_object, ClientCertAlert, alert_patterns, alert_of_number, join_present,
  extract_error_message, alert_prefix, alert_number, alert_here, or_else, or_number, detect_in,
  number_here, match_pattern, detect_alert_code,
}

abbrev pub lower_message : JsError → Text
lower_message err = to_lower (extract_error_message err)

to_lower-join_present :
    (code message : Text)
    → to_lower (join_present code message) ≡ join_present (to_lower code) (to_lower message)
to_lower-join_present [] message = refl
to_lower-join_present (c ∷ code) [] = refl
to_lower-join_present (c ∷ code) (m ∷ message) = rw map-append

detect_lower :
    (code message rendered : Text)
    → detect_alert_code (error_object code message rendered)
      ≡ detect_in (join_present (to_lower code) (to_lower message))
unfolding detect_alert_code
detect_lower code message rendered = ap detect_in (to_lower-join_present code message)

-- Two error objects whose codes and messages agree up to the case of letters are told to be the
-- same client certificate alert, or neither to be one.
pub detect_alert_code_case :
    (code code' message message' rendered rendered' : Text)
    → to_lower code ≡ to_lower code'
    → to_lower message ≡ to_lower message'
    → detect_alert_code (error_object code message rendered)
      ≡ detect_alert_code (error_object code' message' rendered')
detect_alert_code_case code code' message message' rendered rendered' p q =
    detect_lower code message rendered
    ∙ (ap₂ (λ c m. detect_in (join_present c m)) p q ∙ sym (detect_lower code' message' rendered'))

match_pattern_sound :
    (message : Text) (patterns : List (Text × ClientCertAlert)) (alert : ClientCertAlert)
    → match_pattern message patterns ≡ some alert
    → (pattern : Text) × Memᴰ (pattern, alert) patterns × (includes pattern message ≡ true)
unfolding match_pattern
match_pattern_sound message [] alert e = absurd (none-ne-some _ e)
match_pattern_sound message ((pattern, a) ∷ rest) alert e =
    elim (Bool-cases (includes pattern message)) [
      | inl found ↦
          let same : a ≡ alert = some-injective a alert (rw found at e) in
          (pattern, Memᴰ.head (λ i. (pattern, sym same i)), found)
      | inr missed ↦
          let (p, member, inside) = match_pattern_sound message rest alert (rw missed at e) in
          (p, Memᴰ.tail member, inside)
    ]

-- The pattern with its number, somewhere in a message.
abbrev pub HasNumber : Text → ℕ → Type 0
HasNumber message n =
    (before : Text) × (after : Text) × (message ≡ before ++ (alert_prefix ++ after))
    × (number_here after ≡ some n)

alert_here_sound : (t : Text) (n : ℕ) → alert_here t ≡ some n → HasNumber t n
unfolding alert_here
alert_here_sound t n e = elim (Option-cases (strip_prefix alert_prefix t)) [
  | inl missed ↦ absurd (none-ne-some n (rw missed at e))
  | inr (after, found) ↦ ([], after, strip_prefix_sound alert_prefix t found, rw found at e)
]

or_else-cases :
    (o later : Option ℕ) (n : ℕ) → or_else o later ≡ some n → (o ≡ some n) ⊎ (later ≡ some n)
or_else-cases none later n e = inr e
or_else-cases (some m) later n e = inl e

alert_number_sound : (message : Text) (n : ℕ) → alert_number message ≡ some n → HasNumber message n
unfolding alert_number
alert_number_sound [] n e = absurd (none-ne-some n e)
alert_number_sound (c ∷ t) n e = elim (or_else-cases (alert_here (c ∷ t)) (alert_number t) n e) [
  | inl here ↦ alert_here_sound (c ∷ t) n here
  | inr later ↦
      let (before, after, place, number) = alert_number_sound t n later in
      (c ∷ before, after, ap (λ r. c ∷ r) place, number)
]

or_number-cases :
    (o : Option ClientCertAlert) (n : Option ℕ) (alert : ClientCertAlert)
    → or_number o n ≡ some alert
    → (o ≡ some alert) ⊎ ((k : ℕ) × (n ≡ some k) × (alert_of_number k ≡ some alert))
or_number-cases (some a) n alert e = inl e
or_number-cases none none alert e = absurd (none-ne-some alert e)
or_number-cases none (some k) alert e = inr (k, refl, e)

-- An error is told to be a client certificate alert only if its code and message, in lower case,
-- hold the alert's own pattern or `ssl alert number` with the alert's number.
pub detect_alert_code_sound :
    (err : JsError) (alert : ClientCertAlert)
    → detect_alert_code err ≡ some alert
    → ((pattern : Text) × Memᴰ (pattern, alert) alert_patterns
        × (includes pattern (lower_message err) ≡ true))
      ⊎ ((n : ℕ) × HasNumber (lower_message err) n × (alert_of_number n ≡ some alert))
unfolding detect_alert_code detect_in
detect_alert_code_sound err alert e =
    let message = lower_message err in
    elim (Bool-cases (is_empty message)) [
      | inl empty ↦ absurd (none-ne-some alert (rw empty at e))
      | inr given ↦
          elim (or_number-cases (match_pattern message alert_patterns) (alert_number message) alert
            (rw given at e)) [
              | inl found ↦ inl (match_pattern_sound message alert_patterns alert found)
              | inr (n, number, named) ↦ inr (n, alert_number_sound message n number, named)
            ]
    ]
