-- ===== src/Logging/Routes.antt =====
-- logging/routeNormalization.ts: request and websocket routes as low-cardinality labels.
-- `new URL(url, base).pathname` is the argument `pathname`; none where it throws.
pub mod Bounded
mod Tests
use vscode_coder.Base.{
  ℕ, zero, suc, Bool, false, not, ◌&&◌, ◌||◌, Option, none, some, List, [], ◌∷◌, ◌++◌, map,
  option_map, String, Text, codes, text_eq, is_empty, is_digit, split, join, length, take, drop,
  filter, all, leb, ltb, ◌==◌, if◌then◌else◌,
}

abbrev pub unknown_route : Text
unknown_route = codes "<unknown>"

abbrev pub id_placeholder : Text
id_placeholder = codes "{id}"

abbrev pub name_placeholder : Text
name_placeholder = codes "{name}"

abbrev pub bucket_placeholder : Text
bucket_placeholder = codes "{*}"

abbrev pub unmatched_prefix_segments : ℕ
unmatched_prefix_segments = 3

is_hex : ℕ → Bool
is_hex c = is_digit c || (leb b'a' c && leb c b'f') || (leb b'A' c && leb c b'F')

-- `[0-9a-f]{n}` at the head of a text: what follows
hex_run : ℕ → Text → Option Text
unfolding is_hex
hex_run zero t = some t
hex_run (suc n) [] = none
hex_run (suc n) (c ∷ t) = let rest = hex_run n t in if is_hex c then rest else none

-- groups of hexadecimal digits of the given lengths, joined by dashes, up to the end
hex_groups : List ℕ → Text → Bool
unfolding hex_run
hex_groups [] t = false
hex_groups (n ∷ []) t = elim (hex_run n t) [ none ↦ false | some r ↦ is_empty r ]
hex_groups (n ∷ m ∷ ns) t = elim (hex_run n t) [
  | none ↦ false
  | some [] ↦ false
  | some (c ∷ r) ↦ (c == b'-') && hex_groups (m ∷ ns) r
]

-- `UUID_PATTERN.test`
unfoldable pub is_uuid : Text → Bool
unfolding hex_groups
is_uuid t = hex_groups (8 ∷ 4 ∷ 4 ∷ 4 ∷ 12 ∷ []) t

-- `INTEGER_PATTERN.test`
unfoldable pub is_integer : Text → Bool
is_integer t = not (is_empty t) && all is_digit t

-- `collapseIdSegment`
unfoldable pub collapse_id_segment : Text → Text
collapse_id_segment segment =
    if is_uuid segment || is_integer segment then id_placeholder else segment

abbrev pub rule : String → List Text
rule s = split b'/' (codes s)

abbrev pub route_normalization_rules : List (List Text)
route_normalization_rules =
    rule "api/v2/users/{name}/workspace/{name}"
    ∷ rule "api/v2/users/{name}/keys/{id}"
    ∷ rule "api/v2/users/{name}"
    ∷ rule "api/v2/tasks/{name}/{id}"
    ∷ rule "api/v2/tasks/{name}"
    ∷ rule "api/v2/organizations/{id}/templates/{name}/versions/{name}"
    ∷ rule "api/v2/organizations/{id}/templates/{name}"
    ∷ rule "api/v2/organizations/{id}/groups/{name}"
    ∷ rule "api/v2/organizations/{id}/members/{name}"
    ∷ rule "api/v2/organizations/{id}"
    ∷ rule "api/v2/aibridge/sessions/{id}"
    ∷ rule "api/v2/files/{id}"
    ∷ rule "api/v2/groups/{id}"
    ∷ rule "api/v2/licenses/{id}"
    ∷ rule "api/v2/oauth2-provider/apps/{id}"
    ∷ rule "api/v2/templates/{id}"
    ∷ rule "api/v2/templateversions/{id}"
    ∷ rule "api/v2/workspaceagents/{id}"
    ∷ rule "api/v2/workspacebuilds/{id}"
    ∷ rule "api/v2/workspaces/{id}/builds/{id}"
    ∷ rule "api/v2/workspaces/{id}"
    ∷ []

abbrev pub is_placeholder : Text → Bool
is_placeholder s = text_eq s id_placeholder || text_eq s name_placeholder

-- the loop of `normalizeByRule`: the segments that the rule covers
pub apply_rule : List Text → List Text → Option (List Text)
apply_rule segments [] = some []
apply_rule [] (r ∷ rs) = none
apply_rule (s ∷ segments) (r ∷ rs) =
    let rest = apply_rule segments rs in
    if is_placeholder r
    then option_map (λ more. r ∷ more) rest
    else if text_eq s r
    then option_map (λ more. s ∷ more) rest
    else none

-- `normalizeByRule`, as the segments that it joins
unfoldable pub normalize_by_rule : List Text → List Text → Option (List Text)
unfolding apply_rule
normalize_by_rule segments rule =
    if ltb (length segments) (length rule)
    then none
    else option_map (λ normalized. normalized ++ drop (length rule) segments)
        (apply_rule segments rule)

-- the loop of `normalizeRoute` over the rules
unfoldable pub first_rule : List Text → List (List Text) → Option (List Text)
first_rule segments [] = none
first_rule segments (r ∷ rs) = elim (normalize_by_rule segments r) [
  | none ↦ first_rule segments rs
  | some normalized ↦ some normalized
]

-- `bucketUnmatchedRoute`, as the segments that it joins
unfoldable pub bucket_unmatched_route : List Text → List Text
bucket_unmatched_route segments =
    if leb (length segments) unmatched_prefix_segments
    then segments
    else take unmatched_prefix_segments segments ++ bucket_placeholder ∷ []

abbrev pub or_bucket : List Text → Option (List Text) → List Text
or_bucket collapsed none = bucket_unmatched_route collapsed
or_bucket collapsed (some normalized) = normalized

-- the segments of the label that `normalizeRoute` returns for a parsed path
unfoldable pub route_segments : List Text → List Text
unfolding first_rule
route_segments segments =
    let collapsed = map collapse_id_segment segments in
    or_bucket collapsed (first_rule collapsed route_normalization_rules)

-- `"/" + segments.join("/")`
abbrev pub print_route : List Text → Text
print_route segments = b'/' ∷ join (b'/' ∷ []) segments

-- the part of `parsePathSegments` behind the parser
abbrev pub segments_of : Option Text → List Text
segments_of none = []
segments_of (some path) = filter (λ s. not (is_empty s)) (split b'/' path)

-- `parsePathSegments`
unfoldable pub parse_path_segments : (Text → Option Text) → Text → List Text
parse_path_segments pathname url = segments_of (pathname url)

abbrev pub label_of : List Text → Text
label_of [] = unknown_route
label_of (s ∷ segments) = print_route (route_segments (s ∷ segments))

-- `normalizeRoute`, with its base URL inside `pathname`
unfoldable pub normalize_route : (Text → Option Text) → Text → Text
unfolding parse_path_segments route_segments
normalize_route pathname url =
    if is_empty url then unknown_route else label_of (parse_path_segments pathname url)
