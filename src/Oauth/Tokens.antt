-- ===== src/Oauth/Tokens.antt =====
-- Stored tokens and token responses: `getStoredTokens` and `hasRequiredScopes` of
-- oauth/sessionManager.ts, oauth/utils.ts, oauth/errors.ts and oauth/constants.ts. Times are in ms.
pub mod Reading
use text.Mathlib.Text.{◌==◌ as str_eq}
use vscode_coder.Base.{
  ℕ, ◌+◌, ◌*◌, Bool, true, false, ◌&&◌, ◌||◌, Option, none, some, List, [], ◌∷◌, ◌++◌, String, all,
  any, ltb, if◌then◌else◌, Text, codes, text_eq, split, is_empty,
}
use vscode_coder.Deployment.Session.{Deployment}

-- `OAuthTokenData`
pub record TokenData : Type 0 where
  pub refresh_token : Option String
  pub scope : Text
  pub expiry_timestamp : ℕ

-- `SessionAuth`
pub record SessionAuth : Type 0 where
  pub url : String
  pub token : String
  pub oauth : Option TokenData

-- The default scopes, one by one: a resource and an action.
abbrev pub default_scopes : List (Text × Text)
default_scopes =
    (codes "workspace", codes "read")
    ∷ (codes "workspace", codes "update")
    ∷ (codes "workspace", codes "start")
    ∷ (codes "workspace", codes "ssh")
    ∷ (codes "workspace", codes "application_connect")
    ∷ (codes "template", codes "read")
    ∷ (codes "user", codes "read_personal")
    ∷ []

abbrev has_scope : List Text → Text → Bool
has_scope granted scope = any (λ g. text_eq g scope) granted

-- a required scope is granted by name or by the wildcard of its resource
abbrev pub is_granted : List Text → Text × Text → Bool
is_granted granted (resource, action) =
    has_scope granted (resource ++ codes ":" ++ action)
    || has_scope granted (resource ++ codes ":*")

unfoldable pub has_required_scopes : Text → Bool
has_required_scopes scope = all (is_granted (split b' ' scope)) default_scopes

pub record StoredTokens : Type 0 where
  pub access_token : String
  pub refresh_token : Option String
  pub expiry_timestamp : ℕ

pub data Stored : Type 0 where
  missing : Stored
  -- the deployment was cleared during the read: reading its URL throws
  threw : Stored
  found : StoredTokens → Stored

abbrev check_auth : SessionAuth → TokenData → Deployment → Stored
check_auth auth data_ d =
    if str_eq auth.url d.url && has_required_scopes data_.scope
    then found (record {
      access_token = auth.token;
      refresh_token = data_.refresh_token;
      expiry_timestamp = data_.expiry_timestamp;
    })
    else missing

-- The rest of `getStoredTokens`, once the secret is read, with the deployment as it is by then.
unfoldable pub check_stored : Option SessionAuth → Option Deployment → Stored
check_stored none d = missing
check_stored (some auth) d = elim auth.oauth [
  | none ↦ missing
  | some data_ ↦ elim d [ none ↦ threw | some d ↦ check_auth auth data_ d ]
]

-- `storedTokens?.refresh_token`: none where it is missing or empty
unfoldable pub usable_refresh_token : StoredTokens → Option String
usable_refresh_token t = elim t.refresh_token [
  | none ↦ none
  | some token ↦ (if str_eq token "" then none else some token)
]

-- `OAuth2TokenResponse`; `expiry` is the parsed date, where it is one
pub record TokenResponse : Type 0 where
  pub access_token : String
  pub token_type : String
  pub refresh_token : Option String
  pub scope : Option Text
  pub expiry : Option ℕ
  pub expires_in : Option ℕ

-- `ACCESS_TOKEN_DEFAULT_EXPIRY_MS`
abbrev pub default_expiry_ms : ℕ
default_expiry_ms = 3600000

abbrev expiry_from_duration : (now : ℕ) → Option ℕ → ℕ
expiry_from_duration now none = now + default_expiry_ms
expiry_from_duration now (some seconds) =
    if ltb 0 seconds then now + seconds * 1000 else now + default_expiry_ms

unfoldable pub get_expiry_timestamp : (now : ℕ) → TokenResponse → ℕ
get_expiry_timestamp now r =
    let from_duration = expiry_from_duration now r.expires_in in
    elim r.expiry [
      | none ↦ from_duration
      | some time ↦ (if ltb now time then time else from_duration)
    ]

-- `DEFAULT_OAUTH_SCOPES`
abbrev pub default_scope_text : Text
default_scope_text =
    codes
      "workspace:read workspace:update workspace:start workspace:ssh workspace:application_connect template:read user:read_personal"

abbrev scope_or_default : Option Text → Text
scope_or_default none = default_scope_text
scope_or_default (some scope) = if is_empty scope then default_scope_text else scope

-- `buildOAuthTokenData`; none stands for its exception
unfoldable pub build_token_data : (now : ℕ) → TokenResponse → Option TokenData
build_token_data now r =
    if str_eq r.token_type "Bearer"
    then some (record {
      refresh_token = r.refresh_token;
      scope = scope_or_default r.scope;
      expiry_timestamp = get_expiry_timestamp now r;
    })
    else none

-- Why a refresh failed: an OAuth error with its code, or any other.
pub data RefreshError : Type 0 where
  oauth_error : (code : String) → RefreshError
  other_error : RefreshError

-- `requiresReAuth` of an `OAuthError`
unfoldable pub requires_re_auth : RefreshError → Bool
requires_re_auth (oauth_error code) = str_eq code "invalid_grant" || str_eq code "invalid_client"
requires_re_auth other_error = false
