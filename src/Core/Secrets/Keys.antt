-- ===== src/Core/Secrets/Keys.antt =====
-- Keys of core/secretsManager.ts that are stored, deleted and sorted.
use text.Mathlib.Text.{◌==◌ as str_eq}
use text.Mathlib.TextEquality.{eq_iff}
use vscode_coder.Base.{
  ℕ, zero, suc, ◌+◌, ◌≤◌, ◌<◌, ◌≡◌, refl, sym, ap, ◌∙◌, Bool, false, none, some, List, [], ◌∷◌,
  ◌++◌, String, length, drop, any, All, total, if◌then◌else◌, arith,
}
use vscode_coder.Core.Secrets.{lookup, delete_key, store, keys_of, accessed_at, insert, sort}

abbrev pub among : String → List String → Bool
among host hosts = any (λ h. str_eq h host) hosts

abbrev pub outside : List String → String → ℕ
outside hosts h = if among h hosts then 0 else 1

module _ {A : Type 0} where
  unfoldable pub delete_all : List String → List (String × A) → List (String × A)
  delete_all [] keys = keys
  delete_all (h ∷ hosts) keys = delete_all hosts (delete_key h keys)

  lookup-delete_key :
      (host h : String) (keys : List (String × A))
      → lookup host (delete_key h keys) ≡ (if str_eq h host then none else lookup host keys)
  unfolding lookup delete_key
  lookup-delete_key host h [] = ground arith
  lookup-delete_key host h ((k, a) ∷ keys) =
      ground (arith, lookup-delete_key host h keys, eq_iff k h, eq_iff h host, eq_iff k host)

  pub lookup-delete_all :
      (host : String) (hosts : List String) (keys : List (String × A))
      → lookup host (delete_all hosts keys) ≡ (if among host hosts then none else lookup host keys)
  unfolding delete_all
  lookup-delete_all host [] keys = refl
  lookup-delete_all host (h ∷ hosts) keys =
      ground
        (arith, lookup-delete_all host hosts (delete_key h keys), lookup-delete_key host h keys)

  total-delete_key :
      (hosts : List String) (h : String) (keys : List (String × A))
      → total (outside hosts) (keys_of (delete_key h keys))
        ≡ total (outside (h ∷ hosts)) (keys_of keys)
  unfolding delete_key
  total-delete_key hosts h [] = refl
  total-delete_key hosts h ((k, a) ∷ keys) =
      ground (arith, total-delete_key hosts h keys, eq_iff k h, eq_iff h k)

  length-keys_of : (keys : List (String × A)) → total (outside []) (keys_of keys) ≡ length keys
  length-keys_of [] = omega arith
  length-keys_of ((k, a) ∷ keys) = omega (arith, length-keys_of keys)

  pub length-delete_all :
      (hosts : List String) (keys : List (String × A))
      → length (delete_all hosts keys) ≡ total (outside hosts) (keys_of keys)
  unfolding delete_all
  length-delete_all [] keys = sym (length-keys_of keys)
  length-delete_all (h ∷ hosts) keys =
      length-delete_all hosts (delete_key h keys) ∙ total-delete_key hosts h keys

  pub keys_of-append :
      (keys : List (String × A)) (host : String) (a : A)
      → keys_of (keys ++ (host, a) ∷ []) ≡ keys_of keys ++ host ∷ []
  keys_of-append [] host a = refl
  keys_of-append ((k, b) ∷ keys) host a = ap (λ t. k ∷ t) (keys_of-append keys host a)

  lookup-append :
      (k host : String) (a : A) (keys : List (String × A))
      → str_eq host k ≡ false
      → lookup k (keys ++ (host, a) ∷ []) ≡ lookup k keys
  unfolding lookup
  lookup-append k host a [] h = ground arith
  lookup-append k host a ((k', b) ∷ keys) h = ground (arith, lookup-append k host a keys h)

  pub lookup-store :
      (k host : String) (a : A) (keys : List (String × A))
      → str_eq host k ≡ false
      → lookup k (store host a keys) ≡ lookup k keys
  unfolding store
  lookup-store k host a keys h =
      ground (arith, lookup-append k host a (delete_key host keys) h, lookup-delete_key k host keys)

  pub lookup-store_self :
      (host : String) (a : A) (keys : List (String × A)) → lookup host (store host a keys) ≡ some a
  unfolding store lookup delete_key
  lookup-store_self host a [] = ground (arith, eq_iff host host)
  lookup-store_self host a ((k, b) ∷ keys) = ground (arith, lookup-store_self host a keys)

-- The sort loses and adds nothing.
total-insert :
    (f : String → ℕ) (access : List (String × ℕ)) (h : String) (hosts : List String)
    → total f (insert access h hosts) ≡ f h + total f hosts
unfolding insert
total-insert f access h [] = omega arith
total-insert f access h (k ∷ hosts) = ground (arith, total-insert f access h hosts)

pub total-sort :
    (f : String → ℕ) (access : List (String × ℕ)) (hosts : List String)
    → total f (sort access hosts) ≡ total f hosts
unfolding sort
total-sort f access [] = refl
total-sort f access (h ∷ hosts) =
    omega (arith, total-insert f access h (sort access hosts), total-sort f access hosts)

-- Of a list without its rest behind the first elements, these are all that is left.
total-more :
    (x : String) (hosts rest : List String)
    → total (outside (x ∷ rest)) hosts ≤ total (outside rest) hosts
total-more x [] rest = omega arith
total-more x (h ∷ hosts) rest = ground (arith, total-more x hosts rest)

pub total_self : (hosts : List String) → total (outside hosts) hosts ≡ 0
total_self [] = omega arith
total_self (h ∷ hosts) = ground (arith, eq_iff h h, total-more h hosts hosts, total_self hosts)

pub total-drop :
    (n : ℕ) (hosts rest : List String)
    → total (outside rest) hosts ≤ n + total (outside rest) (drop n hosts)
total-drop zero hosts rest = omega arith
total-drop (suc n) [] rest = omega arith
total-drop (suc n) (h ∷ hosts) rest = ground (arith, total-drop n hosts rest)

-- How often a host is among others.
abbrev pub times : String → String → ℕ
times host h = if str_eq h host then 1 else 0

pub among-times :
    (host : String) (hosts : List String) → total (times host) hosts ≡ 0 → among host hosts ≡ false
among-times host [] z = refl
among-times host (h ∷ hosts) z = ground (arith, among-times host hosts)

pub times-among :
    (host : String) (hosts : List String) → among host hosts ≡ false → total (times host) hosts ≡ 0
times-among host [] z = refl
times-among host (h ∷ hosts) z = ground (arith, times-among host hosts)

pub times-drop :
    (host : String) (n : ℕ) (hosts : List String)
    → total (times host) (drop n hosts) ≤ total (times host) hosts
times-drop host zero hosts = omega arith
times-drop host (suc n) [] = omega arith
times-drop host (suc n) (h ∷ hosts) = ground (arith, times-drop host n hosts)

pub times-deleted :
    {A : Type 0}
    → (host : String) (keys : List (String × A))
    → total (times host) (keys_of (delete_key host keys)) ≡ 0
unfolding delete_key
times-deleted host [] = refl
times-deleted host ((k, a) ∷ keys) = ground (arith, times-deleted host keys)

-- A host with a later access than all the others stands first.
insert-first :
    (access : List (String × ℕ)) (h host : String) (hosts : List String)
    → accessed_at access h < accessed_at access host
    → insert access h (host ∷ hosts) ≡ host ∷ insert access h hosts
unfolding insert
insert-first access h host hosts l = ground arith

pub sort-first :
    (access : List (String × ℕ)) (hosts : List String) (host : String)
    → All (λ h. accessed_at access h < accessed_at access host) hosts
    → sort access (hosts ++ host ∷ []) ≡ host ∷ sort access hosts
unfolding sort insert
sort-first access [] host all = refl
sort-first access (h ∷ hosts) host (l, all) =
    ap (insert access h) (sort-first access hosts host all)
    ∙ insert-first access h host (sort access hosts) l

-- Most recent first.
abbrev pub Sorted : List (String × ℕ) → List String → Type 0
Sorted access [] = Unit
Sorted access (h ∷ hosts) =
    All (λ k. accessed_at access k ≤ accessed_at access h) hosts × Sorted access hosts

All-later :
    (access : List (String × ℕ)) (h k : String) (hosts : List String)
    → accessed_at access h ≤ accessed_at access k
    → All (λ j. accessed_at access j ≤ accessed_at access h) hosts
    → All (λ j. accessed_at access j ≤ accessed_at access k) hosts
All-later access h k [] l all = tt
All-later access h k (j ∷ hosts) l (m, all) = (omega arith, All-later access h k hosts l all)

All-insert :
    (access : List (String × ℕ)) (h k : String) (hosts : List String)
    → accessed_at access h ≤ accessed_at access k
    → All (λ j. accessed_at access j ≤ accessed_at access k) hosts
    → All (λ j. accessed_at access j ≤ accessed_at access k) (insert access h hosts)
unfolding insert
All-insert access h k [] l all = (l, tt)
All-insert access h k (j ∷ hosts) l (m, all) = ground (arith, All-insert access h k hosts l all)

insert-Sorted :
    (access : List (String × ℕ)) (h : String) (hosts : List String)
    → Sorted access hosts
    → Sorted access (insert access h hosts)
unfolding insert
insert-Sorted access h [] s = (tt, tt)
insert-Sorted access h (k ∷ hosts) (all, s) =
    ground (
      arith,
      All-later access k h hosts,
      All-insert access h k hosts,
      insert-Sorted access h hosts s,
    )

pub sort-Sorted :
    (access : List (String × ℕ)) (hosts : List String) → Sorted access (sort access hosts)
unfolding sort
sort-Sorted access [] = tt
sort-Sorted access (h ∷ hosts) =
    insert-Sorted access h (sort access hosts) (sort-Sorted access hosts)
