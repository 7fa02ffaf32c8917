-- ===== src/Settings/Cli/Managed.antt =====
-- Which flags of the ones that settings/cli.ts manages reach the CLI.
use mathlib.Core.Bool.{false≢true}
use mathlib.Core.List.{map-id}
use vscode_coder.Base.{
  subst, ◌∙◌, Option-cases, strip_prefix, strip_prefix_sound, append_assoc, append-nil, text_eq→≡,
  ℕ, ◌+◌, ◌≡◌, refl, sym, inl, inr, Bool, true, false, none, some, List, [], ◌∷◌, ◌++◌, map, Text,
  codes, text_eq, starts_with, if◌then◌else◌, Bool-cases, arith,
}
use vscode_coder.Settings.Cli.{
  CliAuth, global_config, url, Configs, use_keyring_flag, global_config_flag, is_flag, action_of,
  strip_from, strip_managed_flags, get_header_args, honor_override, build_global_flags,
  get_global_flags,
}

-- How many entries set a flag.
abbrev pub count : Text → List Text → ℕ
count name [] = 0
count name (flag ∷ flags) =
    let rest = count name flags in if is_flag flag name then rest + 1 else rest

count-append :
    (name : Text) (xs ys : List Text) → count name (xs ++ ys) ≡ count name xs + count name ys
count-append name [] ys = omega arith
count-append name (x ∷ xs) ys = ground (arith, count-append name xs ys)

strip-keyring :
    (strip skipping : Bool) (flags : List Text)
    → count use_keyring_flag (strip_from strip skipping flags) ≡ 0
unfolding strip_from action_of
strip-keyring strip skipping [] = refl
strip-keyring strip true (flag ∷ flags) = strip-keyring strip false flags
strip-keyring strip false (flag ∷ flags) =
    ground (arith, strip-keyring strip false flags, strip-keyring strip true flags)

strip-global_config :
    (skipping : Bool) (flags : List Text)
    → count global_config_flag (strip_from true skipping flags) ≡ 0
unfolding strip_from action_of
strip-global_config skipping [] = refl
strip-global_config true (flag ∷ flags) = strip-global_config false flags
strip-global_config false (flag ∷ flags) =
    ground (arith, strip-global_config false flags, strip-global_config true flags)

starts_with-prefix :
    (p q flag : Text) → starts_with (p ++ q) flag ≡ true → (r : Text) × (flag ≡ p ++ r)
starts_with-prefix p q flag h = elim (Option-cases (strip_prefix (p ++ q) flag)) [
  | inl missed ↦ absurd (false≢true (rw missed at h))
  | inr (r, found) ↦ (q ++ r, strip_prefix_sound (p ++ q) flag found ∙ append_assoc p q r)
]

is_flag-prefix : (flag name : Text) → is_flag flag name ≡ true → (r : Text) × (flag ≡ name ++ r)
unfolding is_flag
is_flag-prefix flag name h = elim (Bool-cases (text_eq flag name)) [
  | inl same ↦ ([], text_eq→≡ flag name same ∙ sym (append-nil name))
  | inr other ↦ elim (Bool-cases (starts_with (name ++ codes "=") flag)) [
    | inl joined ↦ starts_with-prefix name (codes "=") flag joined
    | inr apart ↦ starts_with-prefix name (codes " ") flag (rw (other, apart) at h)
  ]
]

not-both :
    (flag : Text) → is_flag flag global_config_flag ≡ true → is_flag flag use_keyring_flag ≡ false
unfolding is_flag
not-both flag h =
    let (r, e) = is_flag-prefix flag global_config_flag h in
    subst (λ f. is_flag f use_keyring_flag ≡ false) (sym e) refl

strip-kept :
    (flags : List Text)
    → count global_config_flag (strip_from false false flags) ≡ count global_config_flag flags
unfolding strip_from action_of
strip-kept [] = refl
strip-kept (flag ∷ flags) = ground (arith, strip-kept flags, not-both flag)

-- A text that does not read as one of the two flags.
abbrev pub IsValue : Text → Type 0
IsValue t = (is_flag t global_config_flag ≡ false) × (is_flag t use_keyring_flag ≡ false)

-- the values that the settings and the deployment put into the flags
abbrev pub value_of : CliAuth → Text
value_of (url u) = u
value_of (global_config dir allow) = dir

abbrev pub header_of : Configs → Text
header_of configs = elim configs.header_command [ none ↦ [] | some command ↦ command ]

-- How often the CLI's flags set its configuration directory.
abbrev pub expected_count : Configs → CliAuth → ℕ
expected_count configs (url u) = 0
expected_count configs (global_config dir allow) =
    if honor_override configs allow then count global_config_flag configs.global_flags else 1

names :
    (is_flag (codes "--url") global_config_flag ≡ false)
    × (is_flag (codes "--url") use_keyring_flag ≡ false)
    × (is_flag (codes "--header-command") global_config_flag ≡ false)
    × (is_flag (codes "--header-command") use_keyring_flag ≡ false)
    × (is_flag global_config_flag global_config_flag ≡ true)
    × (is_flag global_config_flag use_keyring_flag ≡ false)
unfolding is_flag
names = (refl, refl, refl, refl, refl, refl)

header-count :
    (configs : Configs)
    → IsValue (header_of configs)
    → (count global_config_flag (get_header_args configs (λ s. s)) ≡ 0)
      × (count use_keyring_flag (get_header_args configs (λ s. s)) ≡ 0)
unfolding get_header_args
header-count configs h = ground (arith, names)

count-kept :
    (name : Text) (strip : Bool) (flags rest : List Text)
    → count name (map (λ s. s) (strip_managed_flags flags strip) ++ rest)
      ≡ count name (strip_managed_flags flags strip) + count name rest
count-kept name strip flags rest =
    rw map-id (count-append name (strip_managed_flags flags strip) rest)

honored_count :
    (configs : Configs)
    → IsValue (header_of configs)
    → let result =
        map (λ s. s) (strip_managed_flags configs.global_flags false)
        ++ get_header_args configs (λ s. s) in
      (count use_keyring_flag result ≡ 0)
      × (count global_config_flag result ≡ count global_config_flag configs.global_flags)
honored_count configs h =
    let flags = configs.global_flags in
    let rest = get_header_args configs (λ s. s) in
    let none_added = header-count configs h in
    (
      count-kept use_keyring_flag false flags rest
          ∙ omega (arith, strip-keyring false false flags, none_added),
      count-kept global_config_flag false flags rest ∙ omega (arith, strip-kept flags, none_added),
    )

own_count :
    (configs : Configs) (dir : Text)
    → IsValue dir
    → IsValue (header_of configs)
    → let result =
        map (λ s. s) (strip_managed_flags configs.global_flags true)
        ++ global_config_flag ∷ dir ∷ get_header_args configs (λ s. s) in
      (count use_keyring_flag result ≡ 0) × (count global_config_flag result ≡ 1)
own_count configs dir v h =
    let flags = configs.global_flags in
    let rest = global_config_flag ∷ dir ∷ get_header_args configs (λ s. s) in
    (
      count-kept use_keyring_flag true flags rest
          ∙ ground (arith, strip-keyring true false flags, names, v, header-count configs h),
      count-kept global_config_flag true flags rest
          ∙ ground (arith, strip-global_config false flags, names, v, header-count configs h),
    )

-- Where the configuration directory, the URL and the header command do not read as one of the two
-- managed flags: `--use-keyring` never reaches the CLI, and `--global-config` reaches it not at all
-- with a URL, exactly once without an override, and as often as the user gave it with one.
pub get_global_flags-managed :
    (configs : Configs) (auth : CliAuth)
    → IsValue (value_of auth)
    → IsValue (header_of configs)
    → (count use_keyring_flag (get_global_flags configs auth) ≡ 0)
      × (count global_config_flag (get_global_flags configs auth) ≡ expected_count configs auth)
unfolding get_global_flags build_global_flags
get_global_flags-managed configs (url u) v h =
    let flags = configs.global_flags in
    let rest = codes "--url" ∷ u ∷ get_header_args configs (λ s. s) in
    (
      count-kept use_keyring_flag true flags rest
          ∙ ground (arith, strip-keyring true false flags, names, v, header-count configs h),
      count-kept global_config_flag true flags rest
          ∙ ground (arith, strip-global_config false flags, names, v, header-count configs h),
    )
get_global_flags-managed configs (global_config dir allow) v h =
    elim (Bool-cases (honor_override configs allow)) [
      | inl honored ↦ rw honored (honored_count configs h)
      | inr ours ↦ rw ours (own_count configs dir v h)
    ]
