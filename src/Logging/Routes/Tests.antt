-- ===== src/Logging/Routes/Tests.antt =====
-- Route labels of concrete paths.
use vscode_coder.Base.{◌≡◌, ◌⊎◌, refl, Option, some, List, All, Text, codes}
use vscode_coder.Logging.Routes.{
  normalize_by_rule, collapse_id_segment, is_uuid, is_integer, normalize_route, unknown_route,
  print_route,
}
use vscode_coder.Logging.Routes.Bounded.{NoId, normalize_route-NoId}

abbrev path : Text → Option Text
path url = some url

numbered :
    normalize_route path (codes "/api/v2/workspaces/12/builds/7")
    ≡ codes "/api/v2/workspaces/{id}/builds/{id}"
unfolding normalize_route normalize_by_rule collapse_id_segment is_uuid is_integer
numbered = refl

normalize_route-NoId_example :
    let label = normalize_route path (codes "/api/v2/workspaces/12/builds/7") in
    (label ≡ unknown_route)
    ⊎ ((segments : List Text) × (label ≡ print_route segments) × All NoId segments)
normalize_route-NoId_example = normalize_route-NoId path (codes "/api/v2/workspaces/12/builds/7")
