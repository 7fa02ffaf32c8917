-- ===== src/Api/AuthInterceptor/Tests.antt =====
-- Requests that fail, on concrete events.
use vscode_coder.Base.{◌≡◌, refl, true, false, some, List, [], ◌∷◌, length}
use vscode_coder.Api.AuthInterceptor.{
  RequestConfig, axios_error, new_interceptor, oauth_known, auth_read, Event, request_failed,
  prompt_settled, task_settled, run, step, handle_error, recover_from_unauthorized, settle,
  require_login, execute_auth_required, prompt_done, resume_prompt, retry_request,
}
use vscode_coder.Api.AuthInterceptor.Recovery.{Inv, new_interceptor-run-Inv}

abbrev fresh_request : RequestConfig
fresh_request = record {
  retry_attempted = false;
  auth_config_retry_attempted = false;
  session_token = some "old";
}

-- Two requests fail and share one prompt; the first is sent again.
abbrev shared_prompt : List Event
shared_prompt =
    request_failed false (axios_error (some 401) (some fresh_request))
    ∷ request_failed false (axios_error (some 401) (some fresh_request))
    ∷ task_settled 0 (oauth_known false)
    ∷ task_settled 1 (oauth_known false)
    ∷ prompt_settled true
    ∷ task_settled 0 (auth_read (some "new"))
    ∷ []

one_prompt : (run (new_interceptor true (some "https://dev")) shared_prompt).prompts ≡ 1
unfolding run step handle_error recover_from_unauthorized settle require_login execute_auth_required
    prompt_done resume_prompt retry_request
one_prompt = refl

one_resent : length (run (new_interceptor true (some "https://dev")) shared_prompt).resent ≡ 1
unfolding run step handle_error recover_from_unauthorized settle require_login execute_auth_required
    prompt_done resume_prompt retry_request
one_resent = refl

new_interceptor-run-Inv_example :
    Inv (run (new_interceptor true (some "https://dev")) shared_prompt)
new_interceptor-run-Inv_example = new_interceptor-run-Inv true (some "https://dev") shared_prompt
