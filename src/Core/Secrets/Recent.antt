-- ===== src/Core/Secrets/Recent.antt =====
-- The pruning of core/secretsManager.ts clears the deployments that were accessed least recently.
use text.Mathlib.Text.{◌==◌ as str_eq}
use text.Mathlib.TextEquality.{eq_iff}
use vscode_coder.Base.{
  ℕ, zero, suc, ◌≤◌, ◌≡◌, ◌≢◌, inl, inr, refl, sym, subst, ◌∙◌, true, false, none, List, [], ◌∷◌,
  String, drop, All, All-drop, Bool-cases, arith,
}
use vscode_coder.Oauth.Tokens.{SessionAuth}
use vscode_coder.Core.Secrets.{
  lookup, store, keys_of, Stores, default_max_deployments, rank, accessed_at, sort,
  get_known_safe_hostnames, clear_hosts, prune, record_deployment_access, set_session_auth,
  get_session_auth,
}
use vscode_coder.Core.Secrets.Keys.{
  among, times, lookup-store, total-sort, among-times, times-among, Sorted, sort-Sorted,
}
use vscode_coder.Core.Secrets.Pruning.{before_pruning, clear_hosts-Untouched, clear_hosts-Forgotten}

All-among :
    (access : List (String × ℕ)) (h k : String) (hosts : List String)
    → All (λ j. accessed_at access j ≤ accessed_at access h) hosts
    → among k hosts ≡ true
    → accessed_at access k ≤ accessed_at access h
All-among access h k [] all there = absurd (ground arith)
All-among access h k (j ∷ hosts) (l, all) there =
    ground (arith, All-among access h k hosts all, eq_iff j k)

Sorted-drop :
    (access : List (String × ℕ)) (n : ℕ) (hosts : List String) (k j : String)
    → Sorted access hosts
    → among k (drop n hosts) ≡ true
    → among j (drop n hosts) ≡ false
    → among j hosts ≡ true
    → accessed_at access k ≤ accessed_at access j
Sorted-drop access zero hosts k j s gone out there = absurd (ground arith)
Sorted-drop access (suc n) [] k j s gone out there = absurd (ground arith)
Sorted-drop access (suc n) (h ∷ hosts) k j (all, s) gone out there = ground (
  arith,
  All-among access h k (drop n hosts) (All-drop _ n hosts all) gone,
  Sorted-drop access n hosts k j s gone out,
  eq_iff h j,
)

lookup-among :
    {A : Type 0}
    → (k : String) (keys : List (String × A)) → among k (keys_of keys) ≡ false
    → lookup k keys ≡ none
unfolding lookup
lookup-among k [] out = refl
lookup-among k ((h, a) ∷ keys) out = ground (arith, lookup-among k keys)

among-sort :
    (access : List (String × ℕ)) (k : String) (hosts : List String)
    → among k (sort access hosts) ≡ false
    → among k hosts ≡ false
among-sort access k hosts out =
    among-times k hosts
      (sym (total-sort (times k) access hosts) ∙ times-among k (sort access hosts) out)

prune-recent :
    (n : ℕ) (s : Stores) (k j : String)
    → let t = clear_hosts (drop n (get_known_safe_hostnames s)) s in
      get_session_auth k s ≢ none
      → get_session_auth k t ≡ none
      → get_session_auth j t ≢ none
      → accessed_at s.access k ≤ accessed_at s.access j
unfolding get_known_safe_hostnames
prune-recent n s k j had lost has =
    let known = get_known_safe_hostnames s in
    let hosts = drop n known in
    elim (Bool-cases (among k hosts)) [
      | inr out ↦ absurd (had (sym (clear_hosts-Untouched k hosts s out).session ∙ lost))
      | inl gone ↦ elim (Bool-cases (among j hosts)) [
        | inl also ↦ absurd (has (clear_hosts-Forgotten j hosts s also).session)
        | inr out ↦ elim (Bool-cases (among j known)) [
          | inl there ↦
              Sorted-drop s.access n known k j (sort-Sorted s.access (keys_of s.sessions)) gone out
                there
          | inr never ↦ absurd (
              has (
                (clear_hosts-Untouched j hosts s out).session
                ∙ lookup-among j s.sessions (among-sort s.access j (keys_of s.sessions) never)))
        ]
      ]
    ]

-- When session auth is stored for a host and the storage lists its keys, another host that loses its session by that was accessed no
-- later than any host that has a session left.
pub set_session_auth-recent :
    (now : ℕ) (host k j : String) (auth : SessionAuth) (s : Stores)
    → k ≢ host
    → get_session_auth k s ≢ none
    → get_session_auth k (set_session_auth now true host auth s) ≡ none
    → get_session_auth j (set_session_auth now true host auth s) ≢ none
    → accessed_at s.access k ≤ accessed_at (store host now s.access) j
unfolding set_session_auth record_deployment_access prune
set_session_auth-recent now host k j auth s n had lost has =
    let other : str_eq host k ≡ false = ground (arith, eq_iff host k) in
    let stored = lookup-store k host auth s.sessions other in
    let least =
      prune-recent default_max_deployments (before_pruning now host auth s) k j
        (λ gone. had (sym stored ∙ gone)) lost has in
    subst (λ t. rank t ≤ accessed_at (store host now s.access) j)
      (lookup-store k host now s.access other) least
