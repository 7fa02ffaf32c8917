-- ===== src/Logging/Routes/Bounded.antt =====
-- Labels of routes hold no identifiers and are bounded where no rule fits.
use mathlib.Core.Option.{map-eq-some_iff, none-ne-some}
use vscode_coder.Base.{
  ℕ, ◌≤◌, ◌≡◌, ◌⊎◌, inl, inr, refl, sym, subst, Bool, true, false, not, has, split, split_from,
  filter, ◌==◌, ◌||◌, Option, none, some, List, [], ◌∷◌, ◌++◌, map, Text, text_eq, text_eq→≡,
  is_empty, length, take, drop, leb, ltb, ◌∙◌, All, All-append, All-take, All-drop, Bool-cases,
  Option-cases, arith,
}
use vscode_coder.Logging.Routes.{
  is_uuid, is_integer, collapse_id_segment, id_placeholder, name_placeholder, bucket_placeholder,
  is_placeholder, apply_rule, normalize_by_rule, first_rule, bucket_unmatched_route, or_bucket,
  route_segments, route_normalization_rules, normalize_route, parse_path_segments, segments_of,
  print_route, unknown_route, label_of,
}

-- A segment that holds no slash and is neither a UUID nor an integer.
abbrev pub NoId : Text → Type 0
NoId s = ((is_uuid s || is_integer s) ≡ false) × (has s b'/' ≡ false)

abbrev NoSlash : Text → Type 0
NoSlash s = has s b'/' ≡ false

id_placeholder-NoId : NoId id_placeholder
unfolding is_uuid is_integer
id_placeholder-NoId = (refl, refl)

name_placeholder-NoId : NoId name_placeholder
unfolding is_uuid is_integer
name_placeholder-NoId = (refl, refl)

bucket_placeholder-NoId : NoId bucket_placeholder
unfolding is_uuid is_integer
bucket_placeholder-NoId = (refl, refl)

collapse_id_segment-NoId : (s : Text) → NoSlash s → NoId (collapse_id_segment s)
unfolding collapse_id_segment
collapse_id_segment-NoId s h = elim (Bool-cases (is_uuid s || is_integer s)) [
  | inl id ↦ rw id id_placeholder-NoId
  | inr plain ↦ rw plain (plain, h)
]

map-collapse-NoId :
    (segments : List Text) → All NoSlash segments → All NoId (map collapse_id_segment segments)
map-collapse-NoId [] h = tt
map-collapse-NoId (s ∷ segments) (h, hs) =
    (collapse_id_segment-NoId s h, map-collapse-NoId segments hs)

-- The parts that a text is split into hold no slash.
has-append : (s : Text) (d c : ℕ) → has s c ≡ false → (d == c) ≡ false → has (s ++ d ∷ []) c ≡ false
has-append [] d c h n = ground arith
has-append (a ∷ s) d c h n = ground (arith, has-append s d c)

split_from-NoSlash : (cur t : Text) → NoSlash cur → All NoSlash (split_from cur b'/' t)
split_from-NoSlash cur [] h = (h, tt)
split_from-NoSlash cur (d ∷ t) h = elim (Bool-cases (d == b'/')) [
  | inl cut ↦ rw cut (h, split_from-NoSlash [] t refl)
  | inr longer ↦ rw longer (split_from-NoSlash (cur ++ d ∷ []) t (has-append cur d b'/' h longer))
]

filter-NoSlash :
    (p : Text → Bool) (segments : List Text)
    → All NoSlash segments
    → All NoSlash (filter p segments)
filter-NoSlash p [] h = tt
filter-NoSlash p (s ∷ segments) (h, hs) = elim (Bool-cases (p s)) [
  | inl kept ↦ rw kept (h, filter-NoSlash p segments hs)
  | inr gone ↦ rw gone (filter-NoSlash p segments hs)
]

segments_of-NoSlash : (path : Option Text) → All NoSlash (segments_of path)
segments_of-NoSlash none = tt
segments_of-NoSlash (some path) =
    filter-NoSlash (λ s. not (is_empty s)) (split b'/' path) (split_from-NoSlash [] path refl)

placeholder-NoId : (r : Text) → is_placeholder r ≡ true → NoId r
placeholder-NoId r h = elim (Bool-cases (text_eq r id_placeholder)) [
  | inl id ↦ subst NoId (sym (text_eq→≡ r id_placeholder id)) id_placeholder-NoId
  | inr other ↦
      let name : text_eq r name_placeholder ≡ true = rw other at h in
      subst NoId (sym (text_eq→≡ r name_placeholder name)) name_placeholder-NoId
]

-- One round of the loop: the segment that is pushed is the rule's placeholder or the path's own.
apply_rule-cons :
    (s r : Text) (segments rs : List Text) {out : List Text}
    → apply_rule (s ∷ segments) (r ∷ rs) ≡ some out
    → (head : Text) × (more : List Text) × (apply_rule segments rs ≡ some more)
      × (out ≡ head ∷ more)
      × (((is_placeholder r ≡ true) × (head ≡ r)) ⊎ (head ≡ s))
unfolding apply_rule
apply_rule-cons s r segments rs e = elim (Bool-cases (is_placeholder r)) [
  | inl p ↦
      let (more, found, built) = (map-eq-some_iff (λ more. r ∷ more) _).0 (rw p at e) in
      (r, more, found, sym built, inl (p, refl))
  | inr q ↦ elim (Bool-cases (text_eq s r)) [
    | inl same ↦
        let (more, found, built) = (map-eq-some_iff (λ more. s ∷ more) _).0 (rw (q, same) at e) in
        (s, more, found, sym built, inr refl)
    | inr other ↦ absurd (none-ne-some _ (rw (q, other) at e))
  ]
]

apply_rule-NoId :
    (segments rule : List Text) {out : List Text}
    → All NoId segments
    → apply_rule segments rule ≡ some out
    → All NoId out
unfolding apply_rule
apply_rule-NoId segments [] h e = ground arith
apply_rule-NoId [] (r ∷ rs) h e = cc
apply_rule-NoId (s ∷ segments) (r ∷ rs) (h, hs) e =
    let (head, more, found, built, from) = apply_rule-cons s r segments rs e in
    let plain : NoId head = elim from [
      | inl (p, same) ↦ subst NoId (sym same) (placeholder-NoId r p)
      | inr same ↦ subst NoId (sym same) h
    ] in
    subst (All NoId) (sym built) (plain, apply_rule-NoId segments rs hs found)

normalize_by_rule-NoId :
    (segments rule : List Text) {out : List Text}
    → All NoId segments
    → normalize_by_rule segments rule ≡ some out
    → All NoId out
unfolding normalize_by_rule
normalize_by_rule-NoId segments rule h e = elim (Bool-cases (ltb (length segments) (length rule))) [
  | inl short ↦ absurd (none-ne-some _ (rw short at e))
  | inr long ↦
      let (xs, found, built) =
        (map-eq-some_iff (λ n. n ++ drop (length rule) segments) (apply_rule segments rule)).0
          (rw long at e) in
      subst (All NoId) built (
        All-append NoId xs _ (apply_rule-NoId segments rule h found)
          (All-drop NoId (length rule) segments h))
]

first_rule-NoId :
    (segments : List Text) (rules : List (List Text)) {out : List Text}
    → All NoId segments
    → first_rule segments rules ≡ some out
    → All NoId out
unfolding first_rule
first_rule-NoId segments [] h e = absurd (none-ne-some _ e)
first_rule-NoId segments (r ∷ rules) h e = elim (Option-cases (normalize_by_rule segments r)) [
  | inl missed ↦ first_rule-NoId segments rules h (rw (missed, first_rule) at e)
  | inr (xs, found) ↦ normalize_by_rule-NoId segments r h (found ∙ (rw (found, first_rule) at e))
]

bucket_unmatched_route-NoId :
    (segments : List Text) → All NoId segments → All NoId (bucket_unmatched_route segments)
unfolding bucket_unmatched_route
bucket_unmatched_route-NoId segments h = elim (Bool-cases (leb (length segments) 3)) [
  | inl short ↦ rw short h
  | inr long ↦ rw long (
      All-append NoId (take 3 segments) _ (All-take NoId 3 segments h)
        (bucket_placeholder-NoId, tt))
]

bucket_unmatched_route-length :
    (segments : List Text) → length (bucket_unmatched_route segments) ≤ 4
unfolding bucket_unmatched_route
bucket_unmatched_route-length [] = omega arith
bucket_unmatched_route-length (a ∷ []) = omega arith
bucket_unmatched_route-length (a ∷ b ∷ []) = omega arith
bucket_unmatched_route-length (a ∷ b ∷ c ∷ []) = omega arith
bucket_unmatched_route-length (a ∷ b ∷ c ∷ d ∷ rest) = ground arith

or_bucket-NoId :
    (collapsed : List Text) (o : Option (List Text))
    → All NoId collapsed
    → first_rule collapsed route_normalization_rules ≡ o
    → All NoId (or_bucket collapsed o)
or_bucket-NoId collapsed none h e = bucket_unmatched_route-NoId collapsed h
or_bucket-NoId collapsed (some xs) h e = first_rule-NoId collapsed route_normalization_rules h e

or_bucket-length :
    (collapsed : List Text) (o : Option (List Text)) → o ≡ none → length (or_bucket collapsed o) ≤ 4
or_bucket-length collapsed none e = bucket_unmatched_route-length collapsed
or_bucket-length collapsed (some xs) e = absurd (none-ne-some _ (sym e))

route_segments-NoId :
    (segments : List Text) → All NoSlash segments → All NoId (route_segments segments)
unfolding route_segments
route_segments-NoId segments h = or_bucket-NoId _ _ (map-collapse-NoId segments h) refl

-- Where no rule fits a path, its label has at most four segments, however long the path is.
pub route_segments-bucketed :
    (segments : List Text)
    → first_rule (map collapse_id_segment segments) route_normalization_rules ≡ none
    → length (route_segments segments) ≤ 4
unfolding route_segments
route_segments-bucketed segments e = or_bucket-length (map collapse_id_segment segments) _ e

label_of-NoId :
    (parsed : List Text)
    → All NoSlash parsed
    → (label_of parsed ≡ unknown_route)
      ⊎ ((segments : List Text) × (label_of parsed ≡ print_route segments) × All NoId segments)
label_of-NoId [] h = inl refl
label_of-NoId (s ∷ parsed) h =
    inr (route_segments (s ∷ parsed), refl, route_segments-NoId (s ∷ parsed) h)

-- Whatever the URL, the label is `<unknown>`, or a slash with segments that slashes join, of which none
-- holds a slash itself, is a UUID or is an integer.
pub normalize_route-NoId :
    (pathname : Text → Option Text) (url : Text)
    → (normalize_route pathname url ≡ unknown_route)
      ⊎ ((segments : List Text) × (normalize_route pathname url ≡ print_route segments)
          × All NoId segments)
unfolding normalize_route parse_path_segments
normalize_route-NoId pathname url = elim (Bool-cases (is_empty url)) [
  | inl empty ↦ inl (rw empty)
  | inr given ↦
      rw given (label_of-NoId (segments_of (pathname url)) (segments_of-NoSlash (pathname url)))
]
