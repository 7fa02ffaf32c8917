-- ===== src/Api/AuthInterceptor/Counting.antt =====
-- What the recoveries of api/authInterceptor.ts are counted by.
use vscode_coder.Base.{
  ℕ, zero, suc, ◌+◌, ◌<◌, ◌≡◌, Bool, true, false, Option, none, some, List, [], ◌∷◌, get_elem?,
  remove_at, length, All, if◌then◌else◌, arith,
}
use vscode_coder.Api.AuthInterceptor.{
  RequestConfig, Task, checking_oauth, refreshing, awaiting_prompt, reading_auth,
}

-- How many more times a request may be sent again.
abbrev pub budget : RequestConfig → ℕ
budget c = (if c.retry_attempted then 0 else 1) + (if c.auth_config_retry_attempted then 0 else 1)

abbrev pub Spends : RequestConfig × RequestConfig → Type 0
Spends (from, to) = budget to < budget from

-- A task is about a request that the recovery has not yet sent again.
abbrev pub is_fresh : Option RequestConfig → Bool
is_fresh none = true
is_fresh (some c) = if c.retry_attempted then false else true

abbrev pub config_of : Task → Option RequestConfig
config_of (checking_oauth c) = c
config_of (refreshing c) = c
config_of (awaiting_prompt c) = c
config_of (reading_auth c) = c

abbrev pub IsFresh : Task → Type 0
IsFresh t = is_fresh (config_of t) ≡ true

-- How many callers wait for the prompt.
abbrev pub waits : Task → ℕ
waits (awaiting_prompt c) = 1
waits _ = 0

abbrev pub waiting : List Task → ℕ
waiting [] = 0
waiting (t ∷ ts) = waits t + waiting ts

pub length-remove_at :
    (ts : List Task) (i : ℕ) (t : Task)
    → get_elem? ts i ≡ some t
    → length ts ≡ suc (length (remove_at ts i))
length-remove_at [] i t e = ground arith
length-remove_at (s ∷ ts) zero t e = ground arith
length-remove_at (s ∷ ts) (suc i) t e = ground (arith, length-remove_at ts i t e)

pub waiting-remove_at :
    (ts : List Task) (i : ℕ) (t : Task)
    → get_elem? ts i ≡ some t
    → waiting ts ≡ waits t + waiting (remove_at ts i)
waiting-remove_at [] i t e = ground arith
waiting-remove_at (s ∷ ts) zero t e = ground arith
waiting-remove_at (s ∷ ts) (suc i) t e = ground (arith, waiting-remove_at ts i t e)

pub IsFresh-remove_at : (ts : List Task) (i : ℕ) → All IsFresh ts → All IsFresh (remove_at ts i)
IsFresh-remove_at [] i h = tt
IsFresh-remove_at (s ∷ ts) zero (h, hs) = hs
IsFresh-remove_at (s ∷ ts) (suc i) (h, hs) = (h, IsFresh-remove_at ts i hs)

pub IsFresh-get_elem? :
    (ts : List Task) (i : ℕ) (t : Task) → get_elem? ts i ≡ some t → All IsFresh ts → IsFresh t
IsFresh-get_elem? [] i t e h = ground arith
IsFresh-get_elem? (s ∷ ts) zero t e (h, hs) = ground arith
IsFresh-get_elem? (s ∷ ts) (suc i) t e (h, hs) = IsFresh-get_elem? ts i t e hs
