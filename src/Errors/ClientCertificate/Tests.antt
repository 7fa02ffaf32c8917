-- ===== src/Errors/ClientCertificate/Tests.antt =====
-- Detection of client certificate errors on concrete errors.
use vscode_coder.Base.{◌≡◌, ◌⊎◌, ℕ, refl, true, some, [], Text, codes, includes}
use mathlib.Core.List.{Memᴰ}
use vscode_coder.Errors.ClientCertificate.{
  JsError, error_object, alert_patterns, alert_of_number, certificate_revoked, detect_alert_code,
}
use vscode_coder.Errors.ClientCertificate.Detection.{
  lower_message, HasNumber, detect_alert_code_case, detect_alert_code_sound,
}

abbrev revoked : JsError
revoked = error_object (codes "EPROTO") (codes "SSL alert number 44") (codes "Error")

detect_alert_code_case_example :
    detect_alert_code (error_object (codes "EPROTO") (codes "CERTIFICATE_EXPIRED") [])
    ≡ detect_alert_code (error_object (codes "eproto") (codes "certificate_expired") (codes "e"))
detect_alert_code_case_example =
    detect_alert_code_case (codes "EPROTO") (codes "eproto") (codes "CERTIFICATE_EXPIRED")
      (codes "certificate_expired") [] (codes "e") refl refl

detected : detect_alert_code revoked ≡ some certificate_revoked
unfolding detect_alert_code
detected = refl

detect_alert_code_sound_example :
    ((pattern : Text) × Memᴰ (pattern, certificate_revoked) alert_patterns
      × (includes pattern (lower_message revoked) ≡ true))
    ⊎ ((n : ℕ) × HasNumber (lower_message revoked) n
        × (alert_of_number n ≡ some certificate_revoked))
detect_alert_code_sound_example = detect_alert_code_sound revoked certificate_revoked detected
