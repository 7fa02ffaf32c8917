-- ===== src/Core/Secrets/Migrating.antt =====
-- What the migration of core/secretsManager.ts leaves stored.
use text.Mathlib.Text.{◌==◌ as str_eq}
use text.Mathlib.TextEquality.{eq_iff}
use vscode_coder.Base.{
  ℕ, ◌≡◌, ◌≢◌, refl, sym, ap, subst, ◌∙◌, Bool, true, false, Option, none, some, List, [], ◌∷◌,
  String, arith,
}
use vscode_coder.Deployment.Session.{Deployment}
use vscode_coder.Oauth.Tokens.{SessionAuth}
use vscode_coder.Core.Secrets.{
  Stores, clear_all_auth_data, clear_hosts, prune, record_deployment_access, set_session_auth,
  set_current_deployment, get_session_auth, stored_deployment, get_current_deployment, or_empty,
  migrate_session, migrate_current, migrate_url, migrate_from_legacy_storage, Migration, migrated,
}
use vscode_coder.Core.Secrets.Keys.{lookup-store_self}
use vscode_coder.Core.Secrets.Pruning.{
  Before, pruned, before_pruning, pruned-others, clear_hosts-Untouched,
}

-- What a change of the session leaves alone.
pub record SameRest (s t : Stores) : Type 0 where
  pub legacy_url : t.legacy_url ≡ s.legacy_url
  pub legacy_token : t.legacy_token ≡ s.legacy_token
  pub current : t.current ≡ s.current

clear_hosts-SameRest : (hosts : List String) (s : Stores) → SameRest s (clear_hosts hosts s)
unfolding clear_hosts clear_all_auth_data
clear_hosts-SameRest [] s = record { legacy_url = refl; legacy_token = refl; current = refl }
clear_hosts-SameRest (h ∷ hosts) s =
    let same = clear_hosts-SameRest hosts (clear_all_auth_data h s) in
    record {
      legacy_url = same.legacy_url;
      legacy_token = same.legacy_token;
      current = same.current;
    }

set_session_auth-SameRest :
    (now : ℕ) (lists : Bool) (host : String) (auth : SessionAuth) (s : Stores)
    → SameRest s (set_session_auth now lists host auth s)
unfolding set_session_auth record_deployment_access prune
set_session_auth-SameRest now true host auth s =
    let same = clear_hosts-SameRest (pruned now host auth s) (before_pruning now host auth s) in
    record {
      legacy_url = same.legacy_url;
      legacy_token = same.legacy_token;
      current = same.current;
    }
set_session_auth-SameRest now false host auth s = record {
  legacy_url = refl;
  legacy_token = refl;
  current = refl;
}

set_session_auth-stored :
    (now : ℕ) (lists : Bool) (host : String) (auth : SessionAuth) (s : Stores)
    → Before now s.access
    → get_session_auth host (set_session_auth now lists host auth s) ≡ some auth
unfolding set_session_auth record_deployment_access prune
set_session_auth-stored now true host auth s b =
    (clear_hosts-Untouched host (pruned now host auth s) (before_pruning now host auth s)
      (pruned-others now host auth s b)).session
    ∙ lookup-store_self host auth s.sessions
set_session_auth-stored now false host auth s b = lookup-store_self host auth s.sessions

-- What was there, and else what is written.
abbrev pub session_or : (url : String) → Option String → Option SessionAuth → SessionAuth
session_or url token none = record { url = url; token = or_empty token; oauth = none }
session_or url token (some auth) = auth

abbrev pub deployment_or : (url host : String) → Option Deployment → Deployment
deployment_or url host none = record { url = url; safe_hostname = host }
deployment_or url host (some d) = d

migrate_session-stored :
    (now : ℕ) (lists : Bool) (host url : String) (token : Option String) (o : Option SessionAuth)
    (s : Stores)
    → Before now s.access
    → get_session_auth host s ≡ o
    → get_session_auth host (migrate_session now lists host url token o s)
      ≡ some (session_or url token o)
migrate_session-stored now lists host url token none s b e =
    set_session_auth-stored now lists host (session_or url token none) s b
migrate_session-stored now lists host url token (some auth) s b e = e

migrate_session-SameRest :
    (now : ℕ) (lists : Bool) (host url : String) (token : Option String) (o : Option SessionAuth)
    (s : Stores)
    → SameRest s (migrate_session now lists host url token o s)
migrate_session-SameRest now lists host url token none s =
    set_session_auth-SameRest now lists host (session_or url token none) s
migrate_session-SameRest now lists host url token (some auth) s = record {
  legacy_url = refl;
  legacy_token = refl;
  current = refl;
}

-- What the stores hold when a migration has ended.
pub record Migrated (url host : String) (s t : Stores) : Type 0 where
  pub legacy_url : t.legacy_url ≡ none
  pub legacy_token : t.legacy_token ≡ none
  pub session :
      get_session_auth host t ≡ some (session_or url s.legacy_token (get_session_auth host s))
  pub current : get_current_deployment t ≡ some (deployment_or url host (get_current_deployment s))

migrate_current-Migrated :
    (now : ℕ) (url host : String) (o : Option Deployment) (s t : Stores)
    → get_current_deployment t ≡ o
    → get_current_deployment s ≡ o
    → t.legacy_url ≡ none
    → t.legacy_token ≡ none
    → get_session_auth host t ≡ some (session_or url s.legacy_token (get_session_auth host s))
    → Migrated url host s (migrate_current now host url o t)
unfolding set_current_deployment
migrate_current-Migrated now url host none s t c d u l h = record {
  legacy_url = u;
  legacy_token = l;
  session = h;
  current = rw d refl;
}
migrate_current-Migrated now url host (some d) s t c e u l h = record {
  legacy_url = u;
  legacy_token = l;
  session = h;
  current = c ∙ rw e refl;
}

abbrev Ended : (url host : String) → Stores → Stores × Migration → Type 0
Ended url host s (t, ended) = (ended ≡ migrated host) × Migrated url host s t

-- When a legacy URL is stored whose host can be told, and all recorded accesses lie before: the migration
-- ends with the host, whether the pruning works or fails; the legacy URL and token are gone; the host
-- has the session that it had, or one made of them; and the current deployment is the one that was set,
-- or the legacy one.
pub migrate_from_legacy_storage-Migrated :
    (now : ℕ) (lists : Bool) (safe_host : String → Option String) (url host : String) (s : Stores)
    → s.legacy_url ≡ some url
    → url ≢ ""
    → safe_host url ≡ some host
    → Before now s.access
    → let (t, ended) = migrate_from_legacy_storage now lists safe_host s in
      (ended ≡ migrated host) × Migrated url host s t
unfolding migrate_from_legacy_storage
migrate_from_legacy_storage-Migrated now lists safe_host url host s u n h b =
    let given : str_eq url "" ≡ false = ground (arith, eq_iff url "") in
    let cleared = record s { legacy_token = none; legacy_url = none } in
    let o = get_session_auth host s in
    let t = migrate_session now lists host url s.legacy_token o cleared in
    let same = migrate_session-SameRest now lists host url s.legacy_token o cleared in
    subst (λ stored. Ended url host s (migrate_url now lists safe_host stored s)) (sym u)
      (rw (given, h)
        (
          refl,
          migrate_current-Migrated now url host (get_current_deployment t) s t refl
              (ap stored_deployment (sym same.current)) same.legacy_url same.legacy_token
              (migrate_session-stored now lists host url s.legacy_token o cleared b refl),
        ))
