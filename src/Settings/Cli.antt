-- ===== src/Settings/Cli.antt =====
-- settings/cli.ts and the header arguments of settings/headers.ts: the flags for the Coder CLI. The
-- user's flags come with their paths expanded, and the settings come trimmed.
pub mod Managed
mod Tests
use vscode_coder.Base.{
  Bool, true, false, not, ◌&&◌, ◌||◌, Option, none, some, List, [], ◌∷◌, ◌++◌, map, Text, codes,
  text_eq, starts_with, is_empty, any, if◌then◌else◌,
}
use vscode_coder.Util.Shell.{escape_command_arg, escape_shell_arg}

pub data CliAuth : Type 0 where
  global_config : (config_dir : Text) → (allow_override : Bool) → CliAuth
  url : Text → CliAuth

-- The settings that the flags depend on.
pub record Configs : Type 0 where
  pub global_flags : List Text
  pub header_command : Option Text

abbrev pub use_keyring_flag : Text
use_keyring_flag = codes "--use-keyring"

abbrev pub global_config_flag : Text
global_config_flag = codes "--global-config"

-- `isFlag`
unfoldable pub is_flag : Text → Text → Bool
is_flag item name =
    text_eq item name
    || starts_with (name ++ codes "=") item
    || starts_with (name ++ codes " ") item

-- What the loop of `stripManagedFlags` does with a flag.
pub data FlagAction : Type 0 where
  keep skip skip_with_value : FlagAction

unfoldable pub action_of : Bool → Text → FlagAction
action_of strip_global_config flag =
    if is_flag flag use_keyring_flag
    then skip
    else if strip_global_config && is_flag flag global_config_flag
    then (if text_eq flag global_config_flag then skip_with_value else skip)
    else keep

abbrev pub takes_value : FlagAction → Bool
takes_value skip_with_value = true
takes_value _ = false

abbrev pub push : FlagAction → Text → List Text → List Text
push keep flag filtered = flag ∷ filtered
push _ flag filtered = filtered

-- the loop, with whether `i++` skips the next item
unfoldable pub strip_from : Bool → Bool → List Text → List Text
strip_from strip_global_config skipping [] = []
strip_from strip_global_config true (flag ∷ flags) = strip_from strip_global_config false flags
strip_from strip_global_config false (flag ∷ flags) =
    let action = action_of strip_global_config flag in
    push action flag (strip_from strip_global_config (takes_value action) flags)

-- `stripManagedFlags`
abbrev pub strip_managed_flags : List Text → Bool → List Text
strip_managed_flags flags strip_global_config = strip_from strip_global_config false flags

-- `getHeaderArgs`; an empty command is no command
unfoldable pub get_header_args : Configs → (Text → Text) → List Text
get_header_args configs esc = elim configs.header_command [
  | none ↦ []
  | some command ↦ if is_empty command then [] else codes "--header-command" ∷ esc command ∷ []
]

-- `honorOverride`
abbrev pub honor_override : Configs → Bool → Bool
honor_override configs allow_override =
    allow_override && any (λ flag. is_flag flag global_config_flag) configs.global_flags

-- `buildGlobalFlags`
unfoldable pub build_global_flags : Configs → CliAuth → (Text → Text) → (Text → Text) → List Text
build_global_flags configs (url u) esc_auth esc_header =
    map esc_auth (strip_managed_flags configs.global_flags true)
    ++ (codes "--url" ∷ esc_auth u ∷ get_header_args configs esc_header)
build_global_flags configs (global_config dir allow) esc_auth esc_header =
    let honored = honor_override configs allow in
    let auth_flags = if honored then [] else global_config_flag ∷ esc_auth dir ∷ [] in
    map esc_auth (strip_managed_flags configs.global_flags (not honored))
    ++ (auth_flags ++ get_header_args configs esc_header)

-- `getGlobalShellFlags`, on a platform
unfoldable pub get_global_shell_flags : Bool → Configs → CliAuth → List Text
unfolding build_global_flags
get_global_shell_flags win32 configs auth =
    build_global_flags configs auth escape_command_arg (escape_shell_arg win32)

-- `getGlobalFlags`
unfoldable pub get_global_flags : Configs → CliAuth → List Text
unfolding build_global_flags
get_global_flags configs auth = build_global_flags configs auth (λ s. s) (λ s. s)

-- The parts of the feature set that the CLI's authentication depends on.
pub record FeatureSet : Type 0 where
  pub keyring_auth : Bool
  pub token_read : Bool

-- `isKeyringEnabled`, given the platform's support and the setting
abbrev pub is_keyring_enabled : (supported use_keyring : Bool) → Bool
is_keyring_enabled supported use_keyring = supported && use_keyring

-- `resolveCliAuth`
unfoldable pub resolve_cli_auth :
    (supported use_keyring : Bool) → FeatureSet → (deployment_url config_dir : Text) → CliAuth
resolve_cli_auth supported use_keyring features deployment_url config_dir =
    if is_keyring_enabled supported use_keyring && features.keyring_auth
    then url deployment_url
    else global_config config_dir features.token_read
