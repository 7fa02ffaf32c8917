-- ===== src/Errors/ClientCertificate.antt =====
-- error/clientCertificateError.ts: which errors are TLS client certificate errors, and which of
-- those a refresh of the certificate may cure.
pub mod Detection
mod Tests
use vscode_coder.Base.{
  ℕ, ◌+◌, ◌-◌, ◌*◌, Bool, true, false, Option, none, some, List, [], ◌∷◌, ◌++◌, Text, codes,
  is_empty, is_digit, strip_prefix, includes, to_lower, ◌==◌, if◌then◌else◌,
}

-- A thrown value: a string, or an object with `code`, `message` and `String(error)`. A missing
-- field is the empty text, which the code does not tell from a missing one.
pub data JsError : Type 0 where
  thrown_string : Text → JsError
  error_object : (code message rendered : Text) → JsError

-- `CLIENT_CERT_ALERT`
pub data ClientCertAlert : Type 0 where
  bad_certificate unsupported_certificate certificate_revoked certificate_expired : ClientCertAlert
  certificate_unknown unknown_ca access_denied : ClientCertAlert

abbrev pub alert_patterns : List (Text × ClientCertAlert)
alert_patterns =
    (codes "bad_certificate", bad_certificate)
    ∷ (codes "unsupported_certificate", unsupported_certificate)
    ∷ (codes "certificate_revoked", certificate_revoked)
    ∷ (codes "certificate_expired", certificate_expired)
    ∷ (codes "certificate_unknown", certificate_unknown)
    ∷ (codes "unknown_ca", unknown_ca)
    ∷ (codes "access_denied", access_denied)
    ∷ []

-- `alertNumber in CLIENT_CERT_ALERT`, and the alert it names
abbrev pub alert_of_number : ℕ → Option ClientCertAlert
alert_of_number n =
    if n == 42
    then some bad_certificate
    else if n == 43
    then some unsupported_certificate
    else if n == 44
    then some certificate_revoked
    else if n == 45
    then some certificate_expired
    else if n == 46
    then some certificate_unknown
    else if n == 48
    then some unknown_ca
    else if n == 49
    then some access_denied
    else none

-- `REFRESHABLE_ALERTS.has`
abbrev pub is_refreshable_alert : ClientCertAlert → Bool
is_refreshable_alert certificate_expired = true
is_refreshable_alert certificate_revoked = true
is_refreshable_alert bad_certificate = true
is_refreshable_alert certificate_unknown = true
is_refreshable_alert _ = false

-- `[code, message].filter(Boolean).join(" ")`
abbrev pub join_present : Text → Text → Text
join_present [] message = message
join_present code [] = code
join_present code message = code ++ b' ' ∷ message

-- `extractErrorMessage`
unfoldable pub extract_error_message : JsError → Text
extract_error_message (thrown_string s) = s
extract_error_message (error_object code message rendered) = join_present code message

-- `Number.parseInt` of the digits at the head of a text
pub parse_digits : ℕ → Text → ℕ
parse_digits acc [] = acc
parse_digits acc (c ∷ t) =
    let rest = parse_digits (acc * 10 + (c - b'0')) t in if is_digit c then rest else acc

abbrev pub alert_prefix : Text
alert_prefix = codes "ssl alert number "

-- the number that follows, if a digit stands at the head
pub number_here : Text → Option ℕ
unfolding parse_digits
number_here [] = none
number_here (c ∷ t) = if is_digit c then some (parse_digits 0 (c ∷ t)) else none

-- the pattern `ssl alert number (\d+)` at the head of a text
pub alert_here : Text → Option ℕ
unfolding number_here
alert_here t = elim (strip_prefix alert_prefix t) [ none ↦ none | some rest ↦ number_here rest ]

abbrev pub or_else : Option ℕ → Option ℕ → Option ℕ
or_else none later = later
or_else (some n) later = some n

-- `/ssl alert number (\d+)/.exec`: the first place where the pattern fits
pub alert_number : Text → Option ℕ
unfolding alert_here
alert_number [] = none
alert_number (c ∷ t) = or_else (alert_here (c ∷ t)) (alert_number t)

-- the loop over `ALERT_PATTERNS`
pub match_pattern : Text → List (Text × ClientCertAlert) → Option ClientCertAlert
match_pattern message [] = none
match_pattern message ((pattern, alert) ∷ rest) =
    let later = match_pattern message rest in if includes pattern message then some alert else later

abbrev alert_of : Option ℕ → Option ClientCertAlert
alert_of none = none
alert_of (some n) = alert_of_number n

abbrev pub or_number : Option ClientCertAlert → Option ℕ → Option ClientCertAlert
or_number none n = alert_of n
or_number (some alert) n = some alert

-- the part of `detectAlertCode` that reads the message, in lower case
pub detect_in : Text → Option ClientCertAlert
unfolding match_pattern alert_number
detect_in message =
    if is_empty message
    then none
    else or_number (match_pattern message alert_patterns) (alert_number message)

-- `detectAlertCode`
unfoldable pub detect_alert_code : JsError → Option ClientCertAlert
unfolding extract_error_message detect_in
detect_alert_code err = detect_in (to_lower (extract_error_message err))

-- the parts of a `ClientCertificateError` that decide what happens next
pub record ClientCertificateError : Type 0 where
  pub alert_code : ClientCertAlert
  pub is_refreshable : Bool

-- `fromError`
unfoldable pub from_error : JsError → Option ClientCertificateError
unfolding detect_alert_code
from_error err = elim (detect_alert_code err) [
  | none ↦ none
  | some alert ↦ some (record { alert_code = alert; is_refreshable = is_refreshable_alert alert })
]
