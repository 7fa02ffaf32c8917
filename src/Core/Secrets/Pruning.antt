-- ===== src/Core/Secrets/Pruning.antt =====
-- What the pruning of core/secretsManager.ts keeps and clears.
use text.Mathlib.Text.{◌==◌ as str_eq}
use text.Mathlib.TextEquality.{eq_iff}
use vscode_coder.Base.{
  ℕ, ◌≤◌, ◌<◌, ◌≡◌, ◌≢◌, ◌⊎◌, inl, inr, refl, ap, ◌∙◌, true, false, none, some, List, [], ◌∷◌,
  String, length, drop, All, total, Bool-cases, arith,
}
use vscode_coder.Oauth.Tokens.{SessionAuth}
use vscode_coder.Core.Secrets.{
  lookup, delete_key, store, keys_of, Stores, default_max_deployments, accessed_at, sort,
  get_known_safe_hostnames, clear_all_auth_data, clear_hosts, prune, record_deployment_access,
  set_session_auth, get_session_auth, get_oauth_client_registration,
}
use vscode_coder.Core.Secrets.Keys.{
  among, outside, times, delete_all, lookup-delete_all, length-delete_all, keys_of-append,
  lookup-store, lookup-store_self, total-sort, total_self, total-drop, among-times, times-drop,
  times-deleted, sort-first,
}

clear_hosts-sessions :
    (hosts : List String) (s : Stores)
    → (clear_hosts hosts s).sessions ≡ delete_all hosts s.sessions
unfolding clear_hosts clear_all_auth_data delete_all
clear_hosts-sessions [] s = refl
clear_hosts-sessions (h ∷ hosts) s = clear_hosts-sessions hosts (clear_all_auth_data h s)

clear_hosts-clients :
    (hosts : List String) (s : Stores) → (clear_hosts hosts s).clients ≡ delete_all hosts s.clients
unfolding clear_hosts clear_all_auth_data delete_all
clear_hosts-clients [] s = refl
clear_hosts-clients (h ∷ hosts) s = clear_hosts-clients hosts (clear_all_auth_data h s)

clear_hosts-access :
    (hosts : List String) (s : Stores) → (clear_hosts hosts s).access ≡ delete_all hosts s.access
unfolding clear_hosts clear_all_auth_data delete_all
clear_hosts-access [] s = refl
clear_hosts-access (h ∷ hosts) s = clear_hosts-access hosts (clear_all_auth_data h s)

clear_hosts-banners :
    (hosts : List String) (s : Stores)
    → (clear_hosts hosts s).surfaced_banners ≡ delete_all hosts s.surfaced_banners
unfolding clear_hosts clear_all_auth_data delete_all
clear_hosts-banners [] s = refl
clear_hosts-banners (h ∷ hosts) s = clear_hosts-banners hosts (clear_all_auth_data h s)

-- What the stores have for a host: all as it was, or nothing.
pub record Untouched (k : String) (s t : Stores) : Type 0 where
  pub session : get_session_auth k t ≡ get_session_auth k s
  pub client : get_oauth_client_registration k t ≡ get_oauth_client_registration k s
  pub access : lookup k t.access ≡ lookup k s.access
  pub banners : lookup k t.surfaced_banners ≡ lookup k s.surfaced_banners

pub record Forgotten (k : String) (t : Stores) : Type 0 where
  pub session : get_session_auth k t ≡ none
  pub client : get_oauth_client_registration k t ≡ none
  pub access : lookup k t.access ≡ none
  pub banners : lookup k t.surfaced_banners ≡ none

pub clear_hosts-Untouched :
    (k : String) (hosts : List String) (s : Stores)
    → among k hosts ≡ false
    → Untouched k s (clear_hosts hosts s)
clear_hosts-Untouched k hosts s out = record {
  session = rw (clear_hosts-sessions hosts s) (lookup-delete_all k hosts s.sessions ∙ rw out refl);
  client = rw (clear_hosts-clients hosts s) (lookup-delete_all k hosts s.clients ∙ rw out refl);
  access = rw (clear_hosts-access hosts s) (lookup-delete_all k hosts s.access ∙ rw out refl);
  banners =
      rw (clear_hosts-banners hosts s) (lookup-delete_all k hosts s.surfaced_banners ∙ rw out refl);
}

pub clear_hosts-Forgotten :
    (k : String) (hosts : List String) (s : Stores)
    → among k hosts ≡ true
    → Forgotten k (clear_hosts hosts s)
clear_hosts-Forgotten k hosts s gone = record {
  session = rw (clear_hosts-sessions hosts s) (lookup-delete_all k hosts s.sessions ∙ rw gone refl);
  client = rw (clear_hosts-clients hosts s) (lookup-delete_all k hosts s.clients ∙ rw gone refl);
  access = rw (clear_hosts-access hosts s) (lookup-delete_all k hosts s.access ∙ rw gone refl);
  banners =
      rw (clear_hosts-banners hosts s)
        (lookup-delete_all k hosts s.surfaced_banners ∙ rw gone refl);
}

-- The stores that are pruned, and the hosts that the pruning clears.
abbrev pub before_pruning : ℕ → String → SessionAuth → Stores → Stores
before_pruning now host auth s = record s {
  sessions = store host auth s.sessions;
  access = store host now s.access;
}

abbrev pub pruned : ℕ → String → SessionAuth → Stores → List String
pruned now host auth s =
    drop default_max_deployments (get_known_safe_hostnames (before_pruning now host auth s))

set_session_auth-clear :
    (now : ℕ) (host : String) (auth : SessionAuth) (s : Stores)
    → set_session_auth now true host auth s
      ≡ clear_hosts (pruned now host auth s) (before_pruning now host auth s)
unfolding set_session_auth record_deployment_access prune
set_session_auth-clear now host auth s = refl

prune-length :
    (n : ℕ) (s : Stores) → length (clear_hosts (drop n (get_known_safe_hostnames s)) s).sessions ≤ n
unfolding get_known_safe_hostnames
prune-length n s =
    let hosts = get_known_safe_hostnames s in
    rw (clear_hosts-sessions (drop n hosts) s, length-delete_all (drop n hosts) s.sessions)
      (omega (
        arith,
        total-sort (outside (drop n hosts)) s.access (keys_of s.sessions),
        total-drop n hosts (drop n hosts),
        total_self (drop n hosts),
      ))

-- Every recorded access lies before a time.
abbrev pub Before : ℕ → List (String × ℕ) → Type 0
Before now access = All (λ e. e.1 < now) access

Before-accessed_at :
    (now : ℕ) (k : String) (access : List (String × ℕ))
    → Before now access
    → accessed_at access k ≤ now
unfolding lookup
Before-accessed_at now k [] b = omega arith
Before-accessed_at now k ((h, time) ∷ access) (l, b) =
    ground (arith, Before-accessed_at now k access b)

-- The hosts of other deployments were accessed before the one that is stored.
others-earlier :
    (now : ℕ) (host : String) (access : List (String × ℕ)) (hosts : List String)
    → Before now access
    → total (times host) hosts ≡ 0
    → All
        (λ h. accessed_at (store host now access) h < accessed_at (store host now access) host)
        hosts
others-earlier now host access [] b z = tt
others-earlier now host access (h ∷ hosts) b z =
    let other : str_eq host h ≡ false = ground (arith, eq_iff host h, eq_iff h host) in
    (
      rw (lookup-store_self host now access, lookup-store h host now access other)
          (omega (arith, Before-accessed_at now h access b)),
      others-earlier now host access hosts b (omega arith),
    )

pub pruned-others :
    (now : ℕ) (host : String) (auth : SessionAuth) (s : Stores)
    → Before now s.access
    → among host (pruned now host auth s) ≡ false
unfolding get_known_safe_hostnames store
pruned-others now host auth s b =
    let others = keys_of (delete_key host s.sessions) in
    let access = store host now s.access in
    let z : total (times host) others ≡ 0 = times-deleted host s.sessions in
    let first : sort access (keys_of (store host auth s.sessions)) ≡ host ∷ sort access others =
      ap (sort access) (keys_of-append (delete_key host s.sessions) host auth)
      ∙ sort-first access others host (others-earlier now host s.access others b z) in
    among-times host (pruned now host auth s) (
      rw first (
        omega
          (arith, times-drop host 9 (sort access others), total-sort (times host) access others)))

-- When session auth is stored for a host, the storage lists its keys, and all recorded accesses lie
-- before: ten sessions are left
-- at most, and the one just stored is among them; and for any other host either all that was stored
-- is as it was, its session, its OAuth client, its access and its banners, or nothing is left.
pub set_session_auth-Pruned :
    (now : ℕ) (host k : String) (auth : SessionAuth) (s : Stores)
    → Before now s.access
    → k ≢ host
    → let t = set_session_auth now true host auth s in
      (length t.sessions ≤ default_max_deployments)
      × (get_session_auth host t ≡ some auth)
      × (Untouched k s t ⊎ Forgotten k t)
set_session_auth-Pruned now host k auth s b n =
    let before = before_pruning now host auth s in
    let hosts = pruned now host auth s in
    let other : str_eq host k ≡ false = ground (arith, eq_iff host k) in
    rw (set_session_auth-clear now host auth s) (
      prune-length default_max_deployments before,
      (clear_hosts-Untouched host hosts before (pruned-others now host auth s b)).session
          ∙ lookup-store_self host auth s.sessions,
      elim (Bool-cases (among k hosts)) [
        | inl gone ↦ inr (clear_hosts-Forgotten k hosts before gone)
        | inr out ↦
            let kept = clear_hosts-Untouched k hosts before out in
            inl (record {
              session = kept.session ∙ lookup-store k host auth s.sessions other;
              client = kept.client;
              access = kept.access ∙ lookup-store k host now s.access other;
              banners = kept.banners;
            })
      ],
    )
