-- ===== src/Api/AuthInterceptor/Recovery.antt =====
-- Requests that api/authInterceptor.ts handles: how each is answered, how often it is sent again, and
-- how many prompts are open.
use text.Mathlib.Text.{◌==◌ as str_eq}
use vscode_coder.Base.{
  ℕ, suc, ◌+◌, ◌≡◌, refl, ap, sym, ◌∙◌, inl, inr, Bool-cases, Bool, true, false, Option, none, some,
  List, [], ◌∷◌, String, get_elem?, remove_at, length, All, ltb, if◌then◌else◌, arith,
}
use vscode_coder.Api.AuthInterceptor.{
  RequestConfig, RequestError, other_error, axios_error, Task, checking_oauth, refreshing,
  awaiting_prompt, reading_auth, Interceptor, new_interceptor, retry_request,
  recover_from_unauthorized, handle_axios_error, handle_error, execute_auth_required, require_login,
  Outcome, oauth_known, refreshed, auth_read, failed, settle, resume_prompt, prompt_done, Event,
  request_failed, host_changed, prompt_settled, task_settled, settle_at, step, run,
}
use vscode_coder.Api.AuthInterceptor.Counting.{
  Spends, is_fresh, IsFresh, waits, waiting, length-remove_at, waiting-remove_at, IsFresh-remove_at,
  IsFresh-get_elem?,
}

abbrev one_if : Bool → ℕ
one_if true = 1
one_if false = 0

-- `extra` requests are between two awaits.
pub record InvWith (extra : ℕ) (m : Interceptor) : Type 0 where
  -- a failed request is thrown, sent again or still being handled
  pub answered : m.thrown + length m.resent + length m.tasks + extra ≡ m.failures
  -- each request that was sent again has one retry less
  pub spent : All Spends m.resent
  pub fresh : All IsFresh m.tasks
  -- one prompt is open exactly while a caller waits
  pub open_prompts : m.prompts ≡ m.prompts_settled + one_if m.prompting
  pub shared : ltb 0 (waiting m.tasks) ≡ m.prompting

abbrev pub Inv : Interceptor → Type 0
Inv = InvWith 0

retry_request-Inv :
    (c : Option RequestConfig) (token : String) (m : Interceptor)
    → is_fresh c ≡ true
    → InvWith 1 m
    → Inv (retry_request c token m)
unfolding retry_request
retry_request-Inv none token m f v = ground arith
retry_request-Inv (some c) token m f v = ground arith

recover-Inv :
    (changed : Bool) (c : Option RequestConfig) (m : Interceptor)
    → InvWith 1 m
    → Inv (recover_from_unauthorized changed c m)
unfolding recover_from_unauthorized
recover-Inv changed none m v = ground arith
recover-Inv changed (some c) m v = ground arith

require_login-Inv :
    (c : Option RequestConfig) (m : Interceptor)
    → is_fresh c ≡ true
    → InvWith 1 m
    → Inv (require_login c m)
unfolding require_login execute_auth_required
require_login-Inv c m f v = ground arith

removed-Inv :
    (i : ℕ) (t : Task) (m : Interceptor)
    → get_elem? m.tasks i ≡ some t
    → waits t ≡ 0
    → Inv m
    → InvWith 1 (record m { tasks = remove_at m.tasks i })
removed-Inv i t m e w v =
    let same : waiting m.tasks ≡ waiting (remove_at m.tasks i) =
      omega (arith, waiting-remove_at m.tasks i t e, w) in
    record {
      answered = omega (arith, v.answered, length-remove_at m.tasks i t e);
      spent = v.spent;
      fresh = IsFresh-remove_at m.tasks i v.fresh;
      open_prompts = v.open_prompts;
      shared = ap (λ n. ltb 0 n) (sym same) ∙ v.shared;
    }

put_back-Inv :
    (i : ℕ) (t : Task) (m : Interceptor)
    → get_elem? m.tasks i ≡ some t
    → Inv m
    → Inv (record m { tasks = t ∷ remove_at m.tasks i })
put_back-Inv i t m e v = record {
  answered = omega (arith, v.answered, length-remove_at m.tasks i t e);
  spent = v.spent;
  fresh = (IsFresh-get_elem? m.tasks i t e v.fresh, IsFresh-remove_at m.tasks i v.fresh);
  open_prompts = v.open_prompts;
  shared = ap (λ n. ltb 0 n) (sym (waiting-remove_at m.tasks i t e)) ∙ v.shared;
}

settle-Inv :
    (t : Task) (outcome : Outcome) (m : Interceptor)
    → IsFresh t
    → waits t ≡ 0
    → InvWith 1 m
    → Inv (settle t outcome m)
unfolding settle
settle-Inv (checking_oauth c) (oauth_known true) m f w v = ground arith
settle-Inv (checking_oauth c) (oauth_known false) m f w v = require_login-Inv c m f v
settle-Inv (checking_oauth c) failed m f w v = ground arith
settle-Inv (refreshing c) (refreshed token) m f w v =
    let updated = record m { client_token = some token } in
    let u : InvWith 1 updated = ground arith in
    elim (Bool-cases (str_eq token "")) [
      | inl empty ↦ rw empty (require_login-Inv c updated f u)
      | inr given ↦ rw given (retry_request-Inv c token updated f u)
    ]
settle-Inv (refreshing c) failed m f w v = require_login-Inv c m f v
settle-Inv (reading_auth c) (auth_read none) m f w v = ground arith
settle-Inv (reading_auth c) (auth_read (some token)) m f w v = retry_request-Inv c token m f v
settle-Inv (reading_auth c) failed m f w v = ground arith
settle-Inv t outcome m f w v = ground arith

settle_at-Inv :
    (i : ℕ) (o : Option Task) (outcome : Outcome) (m : Interceptor)
    → get_elem? m.tasks i ≡ o
    → Inv m
    → Inv (settle_at i o outcome m)
unfolding settle
settle_at-Inv i none outcome m e v = v
settle_at-Inv i (some (awaiting_prompt c)) outcome m e v = put_back-Inv i (awaiting_prompt c) m e v
settle_at-Inv i (some t) outcome m e v =
    settle-Inv t outcome (record m { tasks = remove_at m.tasks i })
      (IsFresh-get_elem? m.tasks i t e v.fresh) refl (removed-Inv i t m e refl v)

-- all callers resume: `extra` of the requests between two awaits are still to come
resume_prompt-Inv :
    (extra : ℕ) (ok : Bool) (ts : List Task) (m : Interceptor)
    → All IsFresh ts
    → m.prompting ≡ false
    → InvWith (extra + length ts) m
    → InvWith extra (resume_prompt ok ts m) × ((resume_prompt ok ts m).prompting ≡ false)
unfolding resume_prompt
resume_prompt-Inv extra ok [] m h p v = ground arith
resume_prompt-Inv extra true (awaiting_prompt c ∷ ts) m (f, h) p v =
    ground (arith, resume_prompt-Inv (suc extra) true ts m h p (ground arith))
resume_prompt-Inv extra false (awaiting_prompt c ∷ ts) m (f, h) p v =
    ground (arith, resume_prompt-Inv (suc extra) false ts m h p (ground arith))
resume_prompt-Inv extra ok (checking_oauth c ∷ ts) m (f, h) p v =
    ground (arith, resume_prompt-Inv (suc extra) ok ts m h p (ground arith))
resume_prompt-Inv extra ok (refreshing c ∷ ts) m (f, h) p v =
    ground (arith, resume_prompt-Inv (suc extra) ok ts m h p (ground arith))
resume_prompt-Inv extra ok (reading_auth c ∷ ts) m (f, h) p v =
    ground (arith, resume_prompt-Inv (suc extra) ok ts m h p (ground arith))

branch-Inv : (b : Bool) (s t : Interceptor) → (b ≡ true → Inv s) → Inv t → Inv (if b then s else t)
branch-Inv true s t f v = f refl
branch-Inv false s t f v = v

prompt_done-Inv : (ok : Bool) (m : Interceptor) → Inv m → Inv (prompt_done ok m)
unfolding prompt_done
prompt_done-Inv ok m v =
    let closed : Interceptor = record m {
      prompting = false;
      tasks = [];
      prompts_settled = suc m.prompts_settled;
    } in
    branch-Inv m.prompting (resume_prompt ok m.tasks closed) m
      (λ asked.
        let c : InvWith (0 + length m.tasks) closed = ground arith in
        (resume_prompt-Inv 0 ok m.tasks closed v.fresh refl c).0)
      v

handle_axios_error-Inv :
    (host : Option String) (changed : Bool) (status : Option ℕ) (config : Option RequestConfig)
    (m : Interceptor)
    → InvWith 1 m
    → Inv (handle_axios_error host changed status config m)
handle_axios_error-Inv none changed status config m v = ground arith
handle_axios_error-Inv (some host) changed none config m v = ground arith
handle_axios_error-Inv (some host) changed (some status) config m v =
    ground (arith, recover-Inv changed config m v)

handle_error-Inv :
    (changed : Bool) (err : RequestError) (m : Interceptor)
    → InvWith 1 m
    → Inv (handle_error changed err m)
unfolding handle_error
handle_error-Inv changed other_error m v = ground arith
handle_error-Inv changed (axios_error status config) m v =
    handle_axios_error-Inv m.host changed status config m v

step-Inv : (e : Event) (m : Interceptor) → Inv m → Inv (step e m)
unfolding step
step-Inv (request_failed changed err) m v =
    handle_error-Inv changed err (record m { failures = suc m.failures }) (ground arith)
step-Inv (host_changed host) m v = ground arith
step-Inv (prompt_settled ok) m v = prompt_done-Inv ok m v
step-Inv (task_settled i outcome) m v = settle_at-Inv i _ outcome m refl v

run-Inv : (es : List Event) (m : Interceptor) → Inv m → Inv (run m es)
unfolding run
run-Inv [] m v = v
run-Inv (e ∷ es) m v = run-Inv es (step e m) (step-Inv e m v)

-- Whatever requests fail, in whatever order their recoveries and the prompts settle: as many requests
-- have failed as were thrown on, were sent again or are still being handled; a request that is sent
-- again has fewer retries left than it had, of two; those still being handled have not had the retry
-- with a new token; and a prompt is open exactly while a caller waits for one, never a second.
pub new_interceptor-run-Inv :
    (has_handler : Bool) (host : Option String) (es : List Event)
    → Inv (run (new_interceptor has_handler host) es)
new_interceptor-run-Inv has_handler host es =
    run-Inv es (new_interceptor has_handler host) (ground arith)
