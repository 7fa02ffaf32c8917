-- ===== src/Core/UrlHistory/Tests.antt =====
-- The URL history on concrete lists.
use text.Mathlib.TextEquality.{eq_iff}
use vscode_coder.Base.{◌≡◌, ◌≤◌, refl, [], ◌∷◌, length, arith}
use vscode_coder.Core.UrlHistory.{max_urls, add_to_url_history}
use vscode_coder.Core.UrlHistory.Bounded.{NoRepeat, EndsIn, add_to_url_history_lem}

moves_to_end : add_to_url_history "a" ("a" ∷ "b" ∷ []) ≡ "b" ∷ "a" ∷ []
unfolding add_to_url_history
moves_to_end = refl

add_to_url_history_example :
    let history = add_to_url_history "a" ("a" ∷ "b" ∷ []) in
    (length history ≤ max_urls) × NoRepeat history × EndsIn "a" history
add_to_url_history_example =
    add_to_url_history_lem "a" ("a" ∷ "b" ∷ []) (ground (arith, eq_iff "a" ""))
