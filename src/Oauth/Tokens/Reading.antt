-- ===== src/Oauth/Tokens/Reading.antt =====
-- Tokens that oauth/sessionManager.ts has written, read back by `getStoredTokens`.
use text.Mathlib.TextEquality.{eq_iff}
use text.Mathlib.Text.{◌==◌ as str_eq}
use vscode_coder.Base.{ℕ, ◌<◌, ◌≡◌, refl, true, none, some, String, arith}
use vscode_coder.Deployment.Session.{Deployment}
use vscode_coder.Oauth.Tokens.{
  TokenData, SessionAuth, found, check_stored, TokenResponse, get_expiry_timestamp,
  build_token_data, has_required_scopes, default_scope_text,
}

pub get_expiry_timestamp-future : (now : ℕ) (r : TokenResponse) → now < get_expiry_timestamp now r
unfolding get_expiry_timestamp
get_expiry_timestamp-future now r = ground arith

default_scopes-suffice : has_required_scopes default_scope_text ≡ true
unfolding has_required_scopes
default_scopes-suffice = refl

str_eq_refl : (s : String) → str_eq s s ≡ true
str_eq_refl s = (eq_iff s s).1 refl

-- what `executeTokenRefresh` writes
abbrev pub written : Deployment → TokenResponse → TokenData → SessionAuth
written d r t = record { url = d.url; token = r.access_token; oauth = some t }

-- Where a response grants no scopes of its own, the tokens that are written for it are found again
-- while the same deployment is set: with the response's access and refresh tokens, and with an expiry
-- that lay in the future when they were written.
pub check_stored-build :
    (now : ℕ) (d : Deployment) (r : TokenResponse) (t : TokenData)
    → r.scope ≡ none
    → build_token_data now r ≡ some t
    → (check_stored (some (written d r t)) (some d)
        ≡ found (record {
          access_token = r.access_token;
          refresh_token = r.refresh_token;
          expiry_timestamp = t.expiry_timestamp;
        }))
      × (now < t.expiry_timestamp)
unfolding check_stored build_token_data
check_stored-build now d r t h b =
    ground (arith, str_eq_refl d.url, default_scopes-suffice, get_expiry_timestamp-future now r)
