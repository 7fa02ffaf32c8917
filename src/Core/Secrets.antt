-- ===== src/Core/Secrets.antt =====
-- The class SecretsManager of core/secretsManager.ts, with what core/mementoManager.ts keeps for each
-- deployment. The keys under one prefix are an association list from hosts; what is stored there is
-- taken to parse. A method runs to its end with the storage's answers. An ISO date, compared as a
-- string, is its time as a number.
pub mod Keys
pub mod Pruning
pub mod Recent
pub mod Migrating
mod Tests
use text.Mathlib.Text.{◌==◌ as str_eq}
use vscode_coder.Base.{
  ℕ, suc, Bool, not, ◌||◌, Option, none, some, List, [], ◌∷◌, ◌++◌, String, drop, any, filter, leb,
  map, option_map, if◌then◌else◌,
}
use vscode_coder.Deployment.Session.{Deployment}
use vscode_coder.Oauth.Tokens.{SessionAuth}

module _ {A : Type 0} where
  -- `get`, `delete` and `store` on the keys under a prefix; the order of the keys is the storage's
  unfoldable pub lookup : String → List (String × A) → Option A
  lookup host [] = none
  lookup host ((h, a) ∷ rest) =
      let later = lookup host rest in if str_eq h host then some a else later

  unfoldable pub delete_key : String → List (String × A) → List (String × A)
  delete_key host [] = []
  delete_key host ((h, a) ∷ rest) =
      let later = delete_key host rest in if str_eq h host then later else (h, a) ∷ later

  unfoldable pub store : String → A → List (String × A) → List (String × A)
  store host a keys = delete_key host keys ++ (host, a) ∷ []

  abbrev pub keys_of : List (String × A) → List String
  keys_of [] = []
  keys_of ((h, a) ∷ rest) = h ∷ keys_of rest

-- The secret storage and the memento.
pub record Stores : Type 0 where
  pub sessions : List (String × SessionAuth)
  -- the registrations, as they are written
  pub clients : List (String × String)
  -- with the time of the change
  pub current : Option (Option Deployment × ℕ)
  pub legacy_token : Option String
  pub access : List (String × ℕ)
  pub surfaced_banners : List (String × List String)
  pub legacy_url : Option String
  -- how often the pruning was given up with a warning
  pub warnings : ℕ

-- `DEFAULT_MAX_DEPLOYMENTS`
abbrev pub default_max_deployments : ℕ
default_max_deployments = 10

-- `getDeploymentAccess(hostname) ?? ""`: no time comes before every time
abbrev pub rank : Option ℕ → ℕ
rank none = 0
rank (some time) = suc time

abbrev pub accessed_at : List (String × ℕ) → String → ℕ
accessed_at access host = rank (lookup host access)

-- the sort by access, most recent first, which is stable
unfoldable pub insert : List (String × ℕ) → String → List String → List String
insert access host [] = host ∷ []
insert access host (h ∷ hosts) =
    let rest = insert access host hosts in
    if leb (accessed_at access h) (accessed_at access host) then host ∷ h ∷ hosts else h ∷ rest

unfoldable pub sort : List (String × ℕ) → List String → List String
unfolding insert
sort access [] = []
sort access (h ∷ hosts) = insert access h (sort access hosts)

-- `getKnownSafeHostnames`
unfoldable pub get_known_safe_hostnames : Stores → List String
get_known_safe_hostnames s = sort s.access (keys_of s.sessions)

-- `clearAllAuthData` with `clearDeploymentData`
unfoldable pub clear_all_auth_data : String → Stores → Stores
clear_all_auth_data host s = record s {
  sessions = delete_key host s.sessions;
  clients = delete_key host s.clients;
  access = delete_key host s.access;
  surfaced_banners = delete_key host s.surfaced_banners;
}

unfoldable pub clear_hosts : List String → Stores → Stores
unfolding clear_all_auth_data
clear_hosts [] s = s
clear_hosts (h ∷ hosts) s = clear_hosts hosts (clear_all_auth_data h s)

-- the `try` of `recordDeploymentAccess`; the storage may fail to give its keys
unfoldable pub prune : (lists : Bool) → ℕ → Stores → Stores
prune lists max_count s =
    if lists
    then clear_hosts (drop max_count (get_known_safe_hostnames s)) s
    else record s { warnings = suc s.warnings }

-- `recordDeploymentAccess` with `updateDeploymentAccess`
unfoldable pub record_deployment_access : (now : ℕ) → (lists : Bool) → ℕ → String → Stores → Stores
record_deployment_access now lists max_count host s =
    prune lists max_count (record s { access = store host now s.access })

-- `setSessionAuth` and `setOAuthClientRegistration`, each by `setSecret`
unfoldable pub set_session_auth :
    (now : ℕ) → (lists : Bool) → String → SessionAuth → Stores → Stores
set_session_auth now lists host auth s =
    record_deployment_access now lists default_max_deployments host
      (record s { sessions = store host auth s.sessions })

unfoldable pub set_oauth_client_registration :
    (now : ℕ) → (lists : Bool) → String → String → Stores → Stores
set_oauth_client_registration now lists host registration s =
    record_deployment_access now lists default_max_deployments host
      (record s { clients = store host registration s.clients })

-- `getSessionAuth` and `getOAuthClientRegistration`
abbrev pub get_session_auth : String → Stores → Option SessionAuth
get_session_auth host s = lookup host s.sessions

abbrev pub get_oauth_client_registration : String → Stores → Option String
get_oauth_client_registration host s = lookup host s.clients

unfoldable pub clear_oauth_client_registration : String → Stores → Stores
clear_oauth_client_registration host s = record s { clients = delete_key host s.clients }

-- `setCurrentDeployment` and `getCurrentDeployment`
unfoldable pub set_current_deployment : (now : ℕ) → Option Deployment → Stores → Stores
set_current_deployment now d s = record s { current = some (d, now) }

abbrev pub stored_deployment : Option (Option Deployment × ℕ) → Option Deployment
stored_deployment none = none
stored_deployment (some (d, time)) = d

abbrev pub get_current_deployment : Stores → Option Deployment
get_current_deployment s = stored_deployment s.current

-- `toSafeHost` of util/uri.ts, from the URL parser, none for its exception, and `domainToASCII`
module _ (hostname : String → Option String) (domain_to_ascii : String → String) where
  abbrev ascii_or_own : String → String
  ascii_or_own host = if str_eq (domain_to_ascii host) "" then host else domain_to_ascii host

  unfoldable pub to_safe_host : String → Option String
  to_safe_host url = option_map ascii_or_own (hostname url)

-- how `migrateFromLegacyStorage` ends: with a host, with undefined, or with the exception of the parser
pub data Migration : Type 0 where
  migrated : String → Migration
  nothing_stored : Migration
  threw : Migration

abbrev pub or_empty : Option String → String
or_empty none = ""
or_empty (some token) = token

abbrev pub migrate_session :
    (now : ℕ)
    → (lists : Bool) → (host url : String) → Option String
    → Option SessionAuth
    → Stores
    → Stores
migrate_session now lists host url token (some existing) s = s
migrate_session now lists host url token none s =
    set_session_auth now lists host (record { url = url; token = or_empty token; oauth = none }) s

abbrev pub migrate_current : (now : ℕ) → (host url : String) → Option Deployment → Stores → Stores
migrate_current now host url (some d) s = s
migrate_current now host url none s =
    set_current_deployment now (some (record { url = url; safe_hostname = host })) s

-- what follows `toSafeHost`
abbrev pub migrate_to :
    (now : ℕ)
    → (lists : Bool) → (url : String) → (token host : Option String) → Stores
    → Stores × Migration
migrate_to now lists url token none s = (s, threw)
migrate_to now lists url token (some host) s =
    let t = migrate_session now lists host url token (get_session_auth host s) s in
    (migrate_current now host url (get_current_deployment t) t, migrated host)

abbrev pub migrate_url :
    (now : ℕ)
    → (lists : Bool) → (String → Option String)
    → Option String
    → Stores
    → Stores × Migration
migrate_url now lists safe_host none s = (s, nothing_stored)
migrate_url now lists safe_host (some url) s =
    if str_eq url ""
    then (s, nothing_stored)
    else migrate_to now lists url s.legacy_token (safe_host url)
        (record s { legacy_token = none; legacy_url = none })

-- `migrateFromLegacyStorage`
unfoldable pub migrate_from_legacy_storage :
    (now : ℕ) → (lists : Bool) → (safe_host : String → Option String) → Stores → Stores × Migration
migrate_from_legacy_storage now lists safe_host s = migrate_url now lists safe_host s.legacy_url s
