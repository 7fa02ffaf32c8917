-- ===== src/Websocket/Codes.antt =====
-- websocket/codes.ts: close codes of RFC 6455 and the HTTP statuses that end reconnection. Only
-- the codes that the program uses by name have a constant of their own here.
use vscode_coder.Base.{ℕ, List, [], ◌∷◌}

-- `WebSocketCloseCode`
abbrev pub normal : ℕ
normal = 1000

abbrev going_away : ℕ
going_away = 1001

abbrev protocol_error : ℕ
protocol_error = 1002

abbrev unsupported_data : ℕ
unsupported_data = 1003

-- `HttpStatusCode`
abbrev unauthorized : ℕ
unauthorized = 401

abbrev forbidden : ℕ
forbidden = 403

abbrev not_found : ℕ
not_found = 404

abbrev gone : ℕ
gone = 410

abbrev upgrade_required : ℕ
upgrade_required = 426

abbrev pub unrecoverable_ws_close_codes : List ℕ
unrecoverable_ws_close_codes = protocol_error ∷ unsupported_data ∷ []

abbrev pub unrecoverable_http_codes : List ℕ
unrecoverable_http_codes = unauthorized ∷ forbidden ∷ not_found ∷ gone ∷ upgrade_required ∷ []

abbrev pub normal_closure_codes : List ℕ
normal_closure_codes = normal ∷ going_away ∷ []
