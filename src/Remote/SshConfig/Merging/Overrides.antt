-- ===== src/Remote/SshConfig/Merging/Overrides.antt =====
-- What `mergeSshConfigValues` of remote/sshConfig.ts gives a key: the override's value, or the config's.
use vscode_coder.Base.{
  ◌≡◌, ◌∙◌, refl, sym, ap, subst, Bool, true, false, Option, none, some, inl, inr, Bool-cases,
  Option-cases, [], ◌∷◌, ◌++◌, Text, codes, text_eq, is_empty, to_lower, arith, text_eq→≡,
  option_map, if◌then◌else◌,
}
use vscode_coder.Remote.SshConfig.Merging.{
  Record, find, get, or_empty, remove, set_env, lower_set_env, Merge, merge_override, merge_spelled,
  merge_key, merge_keys,
}
use vscode_coder.Remote.SshConfig.Merging.Lookup.{
  find_lower, Distinct, find_lower-put-other, find_lower-put-same, Spelled, find-remove-other,
  find-remove-same, remove-Spelled, find-Spelled,
}

-- A value that a block shows: an empty one is left out.
abbrev pub shown : Option Text → Option Text
shown none = none
shown (some v) = if is_empty v then none else some v

-- The value of an override, in any case of the key's letters, and else that of the config.
abbrev pub overridden : Option Text → Option Text → Option Text
overridden (some value) config = some value
overridden none config = config

merge_override-spelled :
    (key spelling config_value value : Text) (m : Merge)
    → (merge_override key spelling config_value value m).spelled ≡ remove key m.spelled
unfolding merge_override
merge_override-spelled key spelling config_value value m = ground arith

if-Spelled :
    (b : Bool) (m n : Merge)
    → Spelled m.spelled
    → (n.spelled ≡ m.spelled)
    → Spelled (if b then m else n).spelled
if-Spelled true m n h e = h
if-Spelled false m n h e = subst Spelled (sym e) h

module _ (lower : Text) (plain : text_eq lower_set_env lower ≡ false) where
  -- a key of the config that is another one in lower case
  merge_override-other :
      (key spelling config_value value : Text) (m : Merge)
      → text_eq (to_lower key) lower ≡ false
      → text_eq (to_lower spelling) lower ≡ false
      → let n = merge_override (to_lower key) spelling config_value value m in
        (find_lower lower n.merged ≡ find_lower lower m.merged)
        × (find lower n.spelled ≡ find lower m.spelled)
  unfolding merge_override
  merge_override-other key spelling config_value value m h o = ground (
    arith,
    find_lower-put-other set_env config_value lower m.merged plain,
    find_lower-put-other set_env (config_value ++ codes " " ++ value) lower m.merged plain,
    find_lower-put-other spelling value lower m.merged o,
    find-remove-other (to_lower key) lower m.spelled h,
  )

  -- what the config and the override give a key
  abbrev pub given : (overrides : Record) → Option Text → Text → Option Text
  given overrides spelling config_value =
      shown (overridden (option_map (λ s. get s overrides) spelling) (some config_value))

  pub text_eq-same :
      (a b : Text) → text_eq a b ≡ true → text_eq b lower ≡ false → text_eq a lower ≡ false
  text_eq-same a b h o = subst (λ c. text_eq c lower ≡ false) (sym (text_eq→≡ a b h)) o

  -- such a key is not "setenv"
  pub text_eq-env : (key : Text) → text_eq key lower ≡ true → text_eq key lower_set_env ≡ false
  text_eq-env key h = elim (Bool-cases (text_eq key lower_set_env)) [
    | inl env ↦
        let clash : text_eq lower_set_env lower ≡ true =
          subst (λ c. text_eq c lower ≡ true) (text_eq→≡ key lower_set_env env) h in
        ground (arith, clash, plain)
    | inr other ↦ other
  ]

  module _ (overrides : Record) where
    merge_key-other :
        (key config_value : Text) (m : Merge)
        → Spelled m.spelled
        → text_eq (to_lower key) lower ≡ false
        → let n = merge_key overrides (key, config_value) m in
          (find_lower lower n.merged ≡ find_lower lower m.merged)
          × (find lower n.spelled ≡ find lower m.spelled)
    unfolding merge_key merge_spelled get
    merge_key-other key config_value m h o = elim (Option-cases (find (to_lower key) m.spelled)) [
      | inl alone ↦
          rw alone (ground (arith, find_lower-put-other key config_value lower m.merged o))
      | inr (spelling, named) ↦
          let (same, full) = find-Spelled (to_lower key) spelling m.spelled h named in
          let apart = text_eq-same (to_lower spelling) (to_lower key) same o in
          rw named (
            ground (
              arith,
              full,
              merge_override-other key spelling config_value (or_empty (find spelling overrides)) m
                  o apart,
            ))
    ]

    merge_key-Spelled :
        (key config_value : Text) (m : Merge)
        → Spelled m.spelled
        → Spelled (merge_key overrides (key, config_value) m).spelled
    unfolding merge_key merge_spelled
    merge_key-Spelled key config_value m h =
        elim (Bool-cases (is_empty (get (to_lower key) m.spelled))) [
          | inl alone ↦ rw alone (if-Spelled (is_empty config_value) m _ h refl)
          | inr named ↦ rw named (
              subst Spelled (sym (merge_override-spelled (to_lower key) _ config_value _ m))
                (remove-Spelled (to_lower key) m.spelled h))
        ]

    -- the key itself, which nothing was merged for yet
    merge_override-same :
        (key spelling config_value value : Text) (m : Merge)
        → text_eq key lower ≡ true
        → text_eq (to_lower spelling) lower ≡ true
        → find_lower lower m.merged ≡ none
        → find_lower lower (merge_override key spelling config_value value m).merged
          ≡ shown (some value)
    unfolding merge_override
    merge_override-same key spelling config_value value m h t gone =
        let put_it = find_lower-put-same spelling value lower m.merged t gone in
        let no_env = text_eq-env key h in ground (arith, put_it, no_env)

    merge_spelled-same :
        (key config_value : Text) (spelling : Option Text) (m : Merge)
        → Spelled m.spelled
        → text_eq (to_lower key) lower ≡ true
        → find_lower lower m.merged ≡ none
        → find lower m.spelled ≡ spelling
        → let n = merge_spelled overrides key config_value (or_empty spelling) m in
          (find_lower lower n.merged ≡ given overrides spelling config_value)
          × (find lower n.spelled ≡ none)
    unfolding merge_spelled
    merge_spelled-same key config_value none m h same gone f =
        ground (arith, find_lower-put-same key config_value lower m.merged same gone)
    merge_spelled-same key config_value (some spelling) m h same gone f =
        let (named, full) = find-Spelled lower spelling m.spelled h f in
        let value = get spelling overrides in
        let left : find lower (remove (to_lower key) m.spelled) ≡ none =
          subst (λ l. find lower (remove l m.spelled) ≡ none)
            (sym (text_eq→≡ (to_lower key) lower same)) (find-remove-same lower m.spelled h) in
        rw full (
          merge_override-same (to_lower key) spelling config_value value m same named gone,
          ap (find lower) (merge_override-spelled (to_lower key) spelling config_value value m)
              ∙ left,
        )

    merge_key-same :
        (key config_value : Text) (m : Merge)
        → Spelled m.spelled
        → text_eq (to_lower key) lower ≡ true
        → find_lower lower m.merged ≡ none
        → let n = merge_key overrides (key, config_value) m in
          (find_lower lower n.merged ≡ given overrides (find lower m.spelled) config_value)
          × (find lower n.spelled ≡ none)
    unfolding merge_key get
    merge_key-same key config_value m h same gone =
        let at_lower =
          ap (λ l. merge_spelled overrides key config_value (or_empty (find l m.spelled)) m)
            (text_eq→≡ (to_lower key) lower same) in
        let done = merge_spelled-same key config_value (find lower m.spelled) m h same gone refl in
        (
          ap (λ n. find_lower lower n.merged) at_lower ∙ done.0,
          ap (λ n. find lower n.spelled) at_lower ∙ done.1,
        )

    -- the first loop, where the config has no such key
    pub merge_keys-absent :
        (config : Record) (m : Merge)
        → Spelled m.spelled
        → find_lower lower config ≡ none
        → let n = merge_keys overrides config m in
          (find_lower lower n.merged ≡ find_lower lower m.merged)
          × (find lower n.spelled ≡ find lower m.spelled)
    unfolding merge_keys
    merge_keys-absent [] m h absent = (refl, refl)
    merge_keys-absent ((key, value) ∷ config) m h absent =
        let other : text_eq (to_lower key) lower ≡ false = ground (arith, absent) in
        let rest : find_lower lower config ≡ none = ground (arith, absent) in
        let once = merge_key-other key value m h other in
        let later =
          merge_keys-absent config (merge_key overrides (key, value) m)
            (merge_key-Spelled key value m h) rest in
        (later.0 ∙ once.0, later.1 ∙ once.1)

    pub merge_keys-Spelled :
        (config : Record) (m : Merge)
        → Spelled m.spelled
        → Spelled (merge_keys overrides config m).spelled
    unfolding merge_keys
    merge_keys-Spelled [] m h = h
    merge_keys-Spelled ((key, value) ∷ config) m h =
        merge_keys-Spelled config _ (merge_key-Spelled key value m h)

    -- the first loop, where it has one
    pub merge_keys-present :
        (config : Record) (value : Text) (m : Merge)
        → Distinct config
        → Spelled m.spelled
        → find_lower lower m.merged ≡ none
        → find_lower lower config ≡ some value
        → let n = merge_keys overrides config m in
          (find_lower lower n.merged ≡ given overrides (find lower m.spelled) value)
          × (find lower n.spelled ≡ none)
    unfolding merge_keys
    merge_keys-present [] value m d h gone present = ground (arith, present)
    merge_keys-present ((key, v) ∷ config) value m d h gone present =
        elim (Bool-cases (text_eq (to_lower key) lower)) [
          | inl same ↦
              let first : v ≡ value = ground (arith, present, same) in
              let rest : find_lower lower config ≡ none =
                subst (λ l. find_lower l config ≡ none) (text_eq→≡ (to_lower key) lower same) d.0 in
              let once = merge_key-same key v m h same gone in
              let later =
                merge_keys-absent config (merge_key overrides (key, v) m)
                  (merge_key-Spelled key v m h) rest in
              (
                later.0 ∙ once.0 ∙ ap (given overrides (find lower m.spelled)) first,
                later.1 ∙ once.1,
              )
          | inr other ↦
              let rest : find_lower lower config ≡ some value = ground (arith, present, other) in
              let once = merge_key-other key v m h other in
              let later =
                merge_keys-present config value (merge_key overrides (key, v) m) d.2
                  (merge_key-Spelled key v m h) (once.0 ∙ gone) rest in
              (later.0 ∙ ap (λ s. given overrides s value) once.1, later.1)
        ]
