-- ===== src/Deployment/Session.antt =====
-- deployment/types.ts and deployment/sessionStore.ts. A session object is told from another by
-- identity; every transition makes a new one, so its identity is the number of transitions so far.
use text.Mathlib.Text.{◌==◌ as str_eq}
use vscode_coder.Base.{ℕ, suc, Bool, true, false, ◌||◌, Option, none, some, List, [], ◌∷◌, String}

pub record Deployment : Type 0 where
  pub url : String
  pub safe_hostname : String

-- The parts of the API's `User` that the session reads: its roles by name.
pub record User : Type 0 where
  pub id : String
  pub username : String
  pub roles : List String

pub data SessionData : Type 0 where
  signed_out : Option Deployment → SessionData
  signed_in : Deployment → User → SessionData

pub record SessionStore : Type 0 where
  pub current : SessionData
  pub revision : ℕ

abbrev pub new_store : SessionStore
new_store = record { current = signed_out none; revision = 0 }

-- `current.deployment`
abbrev pub deployment_of : SessionData → Option Deployment
deployment_of (signed_out d) = d
deployment_of (signed_in d u) = some d

abbrev pub user_of : SessionData → Option User
user_of (signed_out d) = none
user_of (signed_in d u) = some u

-- `current.kind === "signedIn"`
abbrev pub is_signed_in : SessionData → Bool
is_signed_in (signed_out d) = false
is_signed_in (signed_in d u) = true

-- `transition`
abbrev transition : SessionData → SessionStore → SessionStore
transition next store = record { current = next; revision = suc store.revision }

-- `signIn`
abbrev pub sign_in : Deployment → User → SessionStore → SessionStore
sign_in d u = transition (signed_in d u)

-- `signOut`
abbrev pub sign_out : Option Deployment → SessionStore → SessionStore
sign_out d = transition (signed_out d)

-- `user?.roles.some((r) => r.name === "owner") ?? false`
has_owner_role : List String → Bool
has_owner_role [] = false
has_owner_role (r ∷ rs) = str_eq r "owner" || has_owner_role rs

unfoldable pub is_owner : Option User → Bool
unfolding has_owner_role
is_owner none = false
is_owner (some u) = has_owner_role u.roles
