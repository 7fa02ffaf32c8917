-- ===== src/Remote/SshConfig/Tests.antt =====
-- Tests and examples for the SSH config.
use vscode_coder.Base.{◌≡◌, refl, false, [], ◌∷◌, ◌++◌, Text, codes, has}
use vscode_coder.Remote.SshConfig.Merging.{
  Record, merge_ssh_config_values, parse_ssh_config, find, get, put, remove, keys, spellings,
  merge_override, merge_spelled, merge_key, merge_keys, add_override, add_left, insert_text,
  sort_texts, read_key, parse_entry, parse_line, parse_from,
}
use vscode_coder.Remote.SshConfig.Merging.Lookup.{find_lower, Distinct}
use vscode_coder.Remote.SshConfig.Merging.Overrides.{shown, overridden}
use vscode_coder.Remote.SshConfig.Merging.Merged.{merge-overridden}
use vscode_coder.Remote.SshConfig.{
  get_block, block, build_block, replace_block, count_substring, written, update, index_of,
  count_from, start_block_comment, end_block_comment, block_between, expand, trim_end, append_block,
  update_found,
}
use vscode_coder.Remote.SshConfig.Blocks.{Kept, update-Kept}

abbrev defaults : Record
defaults =
    (codes "ConnectTimeout", codes "0")
    ∷ (codes "LogLevel", codes "ERROR")
    ∷ (codes "SetEnv", codes "A=1")
    ∷ []

abbrev overrides : Record
overrides =
    (codes "loglevel", codes "DEBUG")
    ∷ (codes "CONNECTTIMEOUT", [])
    ∷ (codes "setenv", codes "B=2")
    ∷ (codes "Port", codes "22")
    ∷ []

merged_values :
    merge_ssh_config_values defaults overrides
    ≡ (codes "loglevel", codes "DEBUG")
      ∷ (codes "SetEnv", codes "A=1 B=2")
      ∷ (codes "Port", codes "22")
      ∷ []
unfolding find get put remove keys spellings merge_override merge_spelled merge_key merge_keys
    add_override add_left merge_ssh_config_values insert_text sort_texts read_key parse_entry
    parse_line parse_from parse_ssh_config index_of count_from count_substring start_block_comment
    end_block_comment block_between get_block build_block expand replace_block trim_end append_block
    update_found update
merged_values = refl

parsed_lines :
    parse_ssh_config
      (codes "LogLevel=DEBUG" ∷ codes "SetEnv A=1" ∷ codes "bad" ∷ codes "setenv B=2" ∷ [])
    ≡ (codes "LogLevel", codes "DEBUG") ∷ (codes "SetEnv", codes "A=1 B=2") ∷ []
unfolding find get put remove keys spellings merge_override merge_spelled merge_key merge_keys
    add_override add_left merge_ssh_config_values insert_text sort_texts read_key parse_entry
    parse_line parse_from parse_ssh_config index_of count_from count_substring start_block_comment
    end_block_comment block_between get_block build_block expand replace_block trim_end append_block
    update_found update
parsed_lines = refl

defaults-Distinct : Distinct defaults
defaults-Distinct = (refl, refl, (refl, refl, (refl, refl, tt)))

overrides-Distinct : Distinct overrides
overrides-Distinct = (refl, refl, (refl, refl, (refl, refl, (refl, refl, tt))))

merge-overridden_example :
    shown (find_lower (codes "loglevel") (merge_ssh_config_values defaults overrides))
    ≡ shown (
        overridden
          (find_lower (codes "loglevel") overrides)
          (find_lower (codes "loglevel") defaults))
merge-overridden_example =
    merge-overridden defaults overrides (codes "loglevel") defaults-Distinct overrides-Distinct refl

abbrev old_file : Text
old_file =
    codes
      "Host a\n# --- START CODER VSCODE dev ---\nHost b\n# --- END CODER VSCODE dev ---\nHost c\n"

found_in_file :
    get_block (codes "dev") old_file
    ≡ block 7 (codes "# --- START CODER VSCODE dev ---\nHost b\n# --- END CODER VSCODE dev ---")
unfolding find get put remove keys spellings merge_override merge_spelled merge_key merge_keys
    add_override add_left merge_ssh_config_values insert_text sort_texts read_key parse_entry
    parse_line parse_from parse_ssh_config index_of count_from count_substring start_block_comment
    end_block_comment block_between get_block build_block expand replace_block trim_end append_block
    update_found update
found_in_file = refl

updated_file :
    update old_file (codes "dev") (codes "coder--*") defaults overrides
    ≡ written (
        codes "Host a\n"
        ++ build_block (codes "dev") (codes "coder--*") defaults overrides
        ++ codes "\nHost c\n")
unfolding find get put remove keys spellings merge_override merge_spelled merge_key merge_keys
    add_override add_left merge_ssh_config_values insert_text sort_texts read_key parse_entry
    parse_line parse_from parse_ssh_config index_of count_from count_substring start_block_comment
    end_block_comment block_between get_block build_block expand replace_block trim_end append_block
    update_found update
updated_file = refl

no_dollar : has (build_block (codes "dev") (codes "coder--*") defaults overrides) b'$' ≡ false
unfolding find get put remove keys spellings merge_override merge_spelled merge_key merge_keys
    add_override add_left merge_ssh_config_values insert_text sort_texts read_key parse_entry
    parse_line parse_from parse_ssh_config index_of count_from count_substring start_block_comment
    end_block_comment block_between get_block build_block expand replace_block trim_end append_block
    update_found update
no_dollar = refl

update-Kept_example :
    Kept
      (codes "dev")
      old_file
      (build_block (codes "dev") (codes "coder--*") defaults overrides)
      (update old_file (codes "dev") (codes "coder--*") defaults overrides)
update-Kept_example =
    update-Kept old_file (codes "dev") (codes "coder--*") defaults overrides no_dollar

-- A dollar and an apostrophe in the new block bring in what follows the old one.
dollar_pattern : replace_block (codes "a[b]c") (codes "[b]") (codes "x$'y") ≡ codes "axcyc"
unfolding find get put remove keys spellings merge_override merge_spelled merge_key merge_keys
    add_override add_left merge_ssh_config_values insert_text sort_texts read_key parse_entry
    parse_line parse_from parse_ssh_config index_of count_from count_substring start_block_comment
    end_block_comment block_between get_block build_block expand replace_block trim_end append_block
    update_found update
dollar_pattern = refl
