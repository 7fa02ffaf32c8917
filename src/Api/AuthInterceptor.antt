-- ===== src/Api/AuthInterceptor.antt =====
-- api/authInterceptor.ts: what happens to a request that came back with 401. Every await is a task
-- that an event settles; all callers that wait for the shared prompt resume when it settles. The
-- client's requests keep the extra fields of a config.
pub mod Counting
pub mod Recovery
mod Tests
use text.Mathlib.Text.{◌==◌ as str_eq}
use vscode_coder.Base.{
  ℕ, suc, ◌+◌, Bool, true, false, not, ◌&&◌, Option, none, some, List, [], ◌∷◌, ◌++◌, String,
  get_elem?, remove_at, ◌==◌, if◌then◌else◌,
}

-- The parts of a request's config that the interceptor reads and writes.
pub record RequestConfig : Type 0 where
  pub retry_attempted : Bool
  pub auth_config_retry_attempted : Bool
  pub session_token : Option String

pub data RequestError : Type 0 where
  other_error : RequestError
  axios_error : (status : Option ℕ) → (config : Option RequestConfig) → RequestError

pub data Task : Type 0 where
  -- awaits isLoggedInWithOAuth, the refresh, the shared prompt, getSessionAuth
  checking_oauth refreshing awaiting_prompt reading_auth : Option RequestConfig → Task

pub record Interceptor : Type 0 where
  pub has_handler : Bool
  -- `authRequiredPromise` is not null
  pub prompting : Bool
  pub tasks : List Task
  -- the client's host and token
  pub host : Option String
  pub client_token : Option String
  -- requests sent again, newest first, each behind the config that had failed
  pub resent : List (RequestConfig × RequestConfig)
  -- how many requests failed, and how many failures were thrown on
  pub failures : ℕ
  pub thrown : ℕ
  -- calls of the handler, and prompts that settled
  pub prompts : ℕ
  pub prompts_settled : ℕ

abbrev pub new_interceptor : Bool → Option String → Interceptor
new_interceptor has_handler host = record {
  has_handler = has_handler;
  prompting = false;
  tasks = [];
  host = host;
  client_token = none;
  resent = [];
  failures = 0;
  thrown = 0;
  prompts = 0;
  prompts_settled = 0;
}

abbrev pub throw : Interceptor → Interceptor
throw m = record m { thrown = suc m.thrown }

abbrev pub await : Task → Interceptor → Interceptor
await t m = record m { tasks = t ∷ m.tasks }

abbrev pub resend : RequestConfig → RequestConfig → Interceptor → Interceptor
resend from config m = record m { resent = (from, config) ∷ m.resent }

-- `retryRequest`
unfoldable pub retry_request : Option RequestConfig → String → Interceptor → Interceptor
retry_request none token m = throw m
retry_request (some c) token m =
    resend c (record c { retry_attempted = true; session_token = some token }) m

-- `recoverFromUnauthorized`, up to its first await, with whether the auth settings changed since the
-- config's version
unfoldable pub recover_from_unauthorized : Bool → Option RequestConfig → Interceptor → Interceptor
recover_from_unauthorized changed none m = await (checking_oauth none) m
recover_from_unauthorized changed (some c) m =
    if not c.auth_config_retry_attempted && changed
    then resend c (record c { auth_config_retry_attempted = true }) m
    else if c.retry_attempted
    then throw m
    else await (checking_oauth (some c)) m

abbrev pub is_unauthorized : Option ℕ → Bool
is_unauthorized none = false
is_unauthorized (some status) = status == 401

-- `handleError` past the test for an Axios error, given the client's host
abbrev pub handle_axios_error :
    Option String → Bool → Option ℕ → Option RequestConfig → Interceptor → Interceptor
handle_axios_error none changed status config m = throw m
handle_axios_error (some host) changed status config m =
    if is_unauthorized status then recover_from_unauthorized changed config m else throw m

-- `handleError`
unfoldable pub handle_error : Bool → RequestError → Interceptor → Interceptor
unfolding recover_from_unauthorized
handle_error changed other_error m = throw m
handle_error changed (axios_error status config) m =
    handle_axios_error m.host changed status config m

-- `executeAuthRequired`, up to the await of the shared promise
unfoldable pub execute_auth_required : Option RequestConfig → Interceptor → Interceptor
execute_auth_required config m =
    await (awaiting_prompt config)
      (if m.prompting then m else record m { prompting = true; prompts = suc m.prompts })

-- the interactive fallback of `recoverFromUnauthorized`
unfoldable pub require_login : Option RequestConfig → Interceptor → Interceptor
unfolding execute_auth_required
require_login config m = if m.has_handler then execute_auth_required config m else throw m

pub data Outcome : Type 0 where
  oauth_known : Bool → Outcome
  refreshed : String → Outcome
  auth_read : Option String → Outcome
  failed : Outcome

-- what a task that has been taken off the list goes on to; an outcome that does not belong to the
-- task leaves it waiting
unfoldable pub settle : Task → Outcome → Interceptor → Interceptor
unfolding require_login retry_request
settle (checking_oauth c) (oauth_known true) m = await (refreshing c) m
settle (checking_oauth c) (oauth_known false) m = require_login c m
settle (checking_oauth c) failed m = throw m
settle (refreshing c) (refreshed token) m =
    let updated = record m { client_token = some token } in
    if str_eq token "" then require_login c updated else retry_request c token updated
settle (refreshing c) failed m = require_login c m
settle (reading_auth c) (auth_read none) m = throw m
settle (reading_auth c) (auth_read (some token)) m = retry_request c token m
settle (reading_auth c) failed m = throw m
settle task outcome m = await task m

-- the callers of the shared prompt go on to read the session, or throw
unfoldable pub resume_prompt : Bool → List Task → Interceptor → Interceptor
resume_prompt ok [] m = m
resume_prompt true (awaiting_prompt c ∷ ts) m = await (reading_auth c) (resume_prompt true ts m)
resume_prompt false (awaiting_prompt c ∷ ts) m = throw (resume_prompt false ts m)
resume_prompt ok (t ∷ ts) m = await t (resume_prompt ok ts m)

-- the prompt settles; false also where it is rejected
unfoldable pub prompt_done : Bool → Interceptor → Interceptor
unfolding resume_prompt
prompt_done ok m =
    if m.prompting
    then resume_prompt ok m.tasks
        (record m { prompting = false; tasks = []; prompts_settled = suc m.prompts_settled })
    else m

pub data Event : Type 0 where
  request_failed : (changed : Bool) → RequestError → Event
  host_changed : Option String → Event
  prompt_settled : Bool → Event
  task_settled : (index : ℕ) → Outcome → Event

abbrev pub settle_at : ℕ → Option Task → Outcome → Interceptor → Interceptor
settle_at i none outcome m = m
settle_at i (some task) outcome m = settle task outcome (record m { tasks = remove_at m.tasks i })

unfoldable pub step : Event → Interceptor → Interceptor
unfolding handle_error settle prompt_done
step (request_failed changed err) m =
    handle_error changed err (record m { failures = suc m.failures })
step (host_changed host) m = record m { host = host }
step (prompt_settled ok) m = prompt_done ok m
step (task_settled i outcome) m = settle_at i (get_elem? m.tasks i) outcome m

unfoldable pub run : Interceptor → List Event → Interceptor
run m [] = m
run m (e ∷ es) = run (step e m) es
