-- ===== src/Settings/Cli/Tests.antt =====
-- Flags for concrete settings.
use vscode_coder.Base.{◌≡◌, refl, false, true, none, [], ◌∷◌, codes}
use vscode_coder.Settings.Cli.{
  Configs, global_config, url, is_flag, action_of, strip_from, get_global_flags, get_header_args,
  global_config_flag, use_keyring_flag, resolve_cli_auth,
}
use vscode_coder.Settings.Cli.Managed.{count, get_global_flags-managed}

abbrev configs : Configs
configs = record {
  global_flags =
      codes "--use-keyring=true" ∷ codes "--global-config" ∷ codes "/mine" ∷ codes "-v" ∷ [];
  header_command = none;
}

own_directory :
    get_global_flags configs (global_config (codes "/cfg") false)
    ≡ codes "-v" ∷ codes "--global-config" ∷ codes "/cfg" ∷ []
unfolding get_global_flags is_flag action_of strip_from get_header_args
own_directory = refl

keyring :
    resolve_cli_auth true true
      (record { keyring_auth = true; token_read = true })
      (codes "https://dev")
      (codes "/cfg")
    ≡ url (codes "https://dev")
unfolding resolve_cli_auth
keyring = refl

get_global_flags-managed_example :
    (count use_keyring_flag (get_global_flags configs (global_config (codes "/cfg") false)) ≡ 0)
    × (count global_config_flag (get_global_flags configs (global_config (codes "/cfg") false)) ≡ 1)
unfolding is_flag
get_global_flags-managed_example =
    get_global_flags-managed configs (global_config (codes "/cfg") false) (refl, refl) (refl, refl)
