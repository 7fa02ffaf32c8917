-- ===== src/Core/Secrets/Tests.antt =====
-- Stored deployments at concrete hosts and times.
use text.Mathlib.TextEquality.{eq_iff}
use vscode_coder.Base.{
  ◌≤◌, ◌≡◌, ◌⊎◌, refl, true, false, Option, none, some, [], ◌∷◌, String, length, arith,
}
use vscode_coder.Oauth.Tokens.{SessionAuth}
use vscode_coder.Core.Secrets.{
  Stores, lookup, store, delete_key, default_max_deployments, accessed_at, get_known_safe_hostnames,
  set_session_auth, set_oauth_client_registration, get_session_auth, get_oauth_client_registration,
  to_safe_host, migrate_from_legacy_storage, migrated, nothing_stored, threw, insert, sort,
  clear_all_auth_data, clear_hosts, prune, record_deployment_access, set_current_deployment,
}
use vscode_coder.Core.Secrets.Pruning.{Before, Untouched, Forgotten, set_session_auth-Pruned}
use vscode_coder.Core.Secrets.Recent.{set_session_auth-recent}
use vscode_coder.Core.Secrets.Migrating.{Migrated, migrate_from_legacy_storage-Migrated}

abbrev auth_of : String → SessionAuth
auth_of host = record { url = host; token = "t"; oauth = none }

-- Ten deployments, "c" the least recent, and a registration for "c".
abbrev ten_hosts : Stores
ten_hosts = record {
  sessions =
      ("a", auth_of "a")
      ∷ ("b", auth_of "b")
      ∷ ("c", auth_of "c")
      ∷ ("d", auth_of "d")
      ∷ ("e", auth_of "e")
      ∷ ("f", auth_of "f")
      ∷ ("g", auth_of "g")
      ∷ ("h", auth_of "h")
      ∷ ("i", auth_of "i")
      ∷ ("j", auth_of "j")
      ∷ [];
  clients = ("c", "client") ∷ [];
  current = none;
  legacy_token = some "old";
  access =
      ("a", 20)
      ∷ ("b", 21)
      ∷ ("c", 10)
      ∷ ("d", 23)
      ∷ ("e", 24)
      ∷ ("f", 25)
      ∷ ("g", 26)
      ∷ ("h", 27)
      ∷ ("i", 28)
      ∷ ("j", 29)
      ∷ [];
  surfaced_banners = [];
  legacy_url = some "https://k";
  warnings = 0;
}

abbrev eleven_hosts : Stores
eleven_hosts = set_session_auth 50 true "k" (auth_of "k") ten_hosts

abbrev safe_host : String → Option String
safe_host url = some "k"

ten_hosts-Before : Before 50 ten_hosts.access
ten_hosts-Before = ground arith

oldest_cleared : get_session_auth "c" eleven_hosts ≡ none
unfolding insert sort get_known_safe_hostnames clear_all_auth_data clear_hosts prune
    record_deployment_access set_session_auth set_oauth_client_registration set_current_deployment
    migrate_from_legacy_storage lookup store delete_key to_safe_host
oldest_cleared = refl

oldest_client_cleared : get_oauth_client_registration "c" eleven_hosts ≡ none
unfolding insert sort get_known_safe_hostnames clear_all_auth_data clear_hosts prune
    record_deployment_access set_session_auth set_oauth_client_registration set_current_deployment
    migrate_from_legacy_storage lookup store delete_key to_safe_host
oldest_client_cleared = refl

most_recent_first :
    get_known_safe_hostnames eleven_hosts
    ≡ "k" ∷ "j" ∷ "i" ∷ "h" ∷ "g" ∷ "f" ∷ "e" ∷ "d" ∷ "b" ∷ "a" ∷ []
unfolding insert sort get_known_safe_hostnames clear_all_auth_data clear_hosts prune
    record_deployment_access set_session_auth set_oauth_client_registration set_current_deployment
    migrate_from_legacy_storage lookup store delete_key to_safe_host
most_recent_first = refl

-- A storage that gives no keys leaves a warning and all sessions.
not_listed :
    (length (set_session_auth 50 false "k" (auth_of "k") ten_hosts).sessions ≡ 11)
    × ((set_session_auth 50 false "k" (auth_of "k") ten_hosts).warnings ≡ 1)
unfolding insert sort get_known_safe_hostnames clear_all_auth_data clear_hosts prune
    record_deployment_access set_session_auth set_oauth_client_registration set_current_deployment
    migrate_from_legacy_storage lookup store delete_key to_safe_host
not_listed = (refl, refl)

-- A deployment that has only a registration is not known, and is never cleared.
registration_only :
    get_known_safe_hostnames (set_oauth_client_registration 50 true "x" "client" ten_hosts)
    ≡ get_known_safe_hostnames ten_hosts
unfolding insert sort get_known_safe_hostnames clear_all_auth_data clear_hosts prune
    record_deployment_access set_session_auth set_oauth_client_registration set_current_deployment
    migrate_from_legacy_storage lookup store delete_key to_safe_host
registration_only = refl

-- A legacy URL that does not parse is cleared with its token all the same.
unparsed :
    (migrate_from_legacy_storage 50 true (λ url. none) ten_hosts)
    ≡ (record ten_hosts { legacy_token = none; legacy_url = none }, threw)
unfolding insert sort get_known_safe_hostnames clear_all_auth_data clear_hosts prune
    record_deployment_access set_session_auth set_oauth_client_registration set_current_deployment
    migrate_from_legacy_storage lookup store delete_key to_safe_host
unparsed = refl

second_migration :
    (migrate_from_legacy_storage 60 true safe_host
      (migrate_from_legacy_storage 50 true safe_host ten_hosts).0).1
    ≡ nothing_stored
unfolding insert sort get_known_safe_hostnames clear_all_auth_data clear_hosts prune
    record_deployment_access set_session_auth set_oauth_client_registration set_current_deployment
    migrate_from_legacy_storage lookup store delete_key to_safe_host
second_migration = refl

host_of_url : to_safe_host (λ url. some "ä") (λ h. "xn--4ca") "https://ä" ≡ some "xn--4ca"
unfolding insert sort get_known_safe_hostnames clear_all_auth_data clear_hosts prune
    record_deployment_access set_session_auth set_oauth_client_registration set_current_deployment
    migrate_from_legacy_storage lookup store delete_key to_safe_host
host_of_url = refl

set_session_auth-Pruned_example :
    let t = set_session_auth 50 true "k" (auth_of "k") ten_hosts in
    (length t.sessions ≤ default_max_deployments)
    × (get_session_auth "k" t ≡ some (auth_of "k"))
    × (Untouched "c" ten_hosts t ⊎ Forgotten "c" t)
set_session_auth-Pruned_example =
    set_session_auth-Pruned 50 "k" "c" (auth_of "k") ten_hosts ten_hosts-Before
      (ground (arith, eq_iff "c" "k"))

set_session_auth-recent_example :
    accessed_at ten_hosts.access "c" ≤ accessed_at (store "k" 50 ten_hosts.access) "a"
unfolding insert sort get_known_safe_hostnames clear_all_auth_data clear_hosts prune
    record_deployment_access set_session_auth set_oauth_client_registration set_current_deployment
    migrate_from_legacy_storage lookup store delete_key to_safe_host
set_session_auth-recent_example =
    set_session_auth-recent 50 "k" "c" "a" (auth_of "k") ten_hosts (ground (arith, eq_iff "c" "k"))
      (λ h. ground arith) refl (λ h. ground arith)

migrate_from_legacy_storage-Migrated_example :
    let (t, ended) = migrate_from_legacy_storage 50 true safe_host ten_hosts in
    (ended ≡ migrated "k") × Migrated "https://k" "k" ten_hosts t
migrate_from_legacy_storage-Migrated_example =
    migrate_from_legacy_storage-Migrated 50 true safe_host "https://k" "k" ten_hosts refl
      (ground (arith, eq_iff "https://k" "")) refl ten_hosts-Before
