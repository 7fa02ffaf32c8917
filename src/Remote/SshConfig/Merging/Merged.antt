-- ===== src/Remote/SshConfig/Merging/Merged.antt =====
-- The whole of `mergeSshConfigValues` in remote/sshConfig.ts against a map whose keys have no case.
use vscode_coder.Base.{
  ◌≡◌, ◌∙◌, refl, sym, ap, subst, true, false, Option, none, some, inl, inr, Bool-cases,
  Option-cases, [], ◌∷◌, Text, text_eq, to_lower, arith, text_eq_refl, text_eq→≡, option_map,
  if◌then◌else◌,
}
use vscode_coder.Remote.SshConfig.Merging.{
  Record, find, get, put, keys, spellings, lower_set_env, Merge, merge_keys,
  merge_ssh_config_values,
}
use vscode_coder.Remote.SshConfig.Merging.Lookup.{
  find_lower, Distinct, Spelled, find-put-same, find-put-other, put-Spelled,
}
use vscode_coder.Remote.SshConfig.Merging.Overrides.{
  shown, overridden, merge_keys-absent, merge_keys-Spelled, merge_keys-present,
}
use vscode_coder.Remote.SshConfig.Merging.Leftovers.{add_left-absent, add_left-present}

-- the first key that is `lower` in lower case
abbrev key_lower : Text → Record → Option Text
key_lower lower [] = none
key_lower lower ((k, v) ∷ r) =
    let later = key_lower lower r in if text_eq (to_lower k) lower then some k else later

abbrev or_else : Option Text → Option Text → Option Text
or_else none other = other
or_else (some t) other = some t

key_lower-none : (lower : Text) (r : Record) → find_lower lower r ≡ none → key_lower lower r ≡ none
key_lower-none lower [] h = refl
key_lower-none lower ((k, v) ∷ r) h = ground (arith, h, key_lower-none lower r)

spellings-Spelled : (r acc : Record) → Distinct r → Spelled acc → Spelled (spellings acc (keys r))
unfolding spellings keys
spellings-Spelled [] acc d h = h
spellings-Spelled ((k, v) ∷ r) acc d h =
    spellings-Spelled r _ d.2 (put-Spelled (to_lower k) k acc (text_eq_refl (to_lower k)) d.1 h)

-- the table has the spelling of an override
find-spellings :
    (lower : Text) (r acc : Record)
    → Distinct r
    → find lower (spellings acc (keys r)) ≡ or_else (key_lower lower r) (find lower acc)
unfolding spellings keys
find-spellings lower [] acc d = refl
find-spellings lower ((k, v) ∷ r) acc d = elim (Bool-cases (text_eq (to_lower k) lower)) [
  | inl same ↦
      let at_lower = text_eq→≡ (to_lower k) lower same in
      let rest : key_lower lower r ≡ none =
        key_lower-none lower r (subst (λ l. find_lower l r ≡ none) at_lower d.0) in
      let here : find lower (put (to_lower k) k acc) ≡ some k =
        subst (λ l. find l (put (to_lower k) k acc) ≡ some k) at_lower
          (find-put-same (to_lower k) k acc) in
      let later = find-spellings lower r (put (to_lower k) k acc) d.2 in
      ground (arith, later, rest, here, same)
  | inr other ↦
      find-spellings lower r _ d.2
      ∙ ap (or_else (key_lower lower r)) (find-put-other (to_lower k) k lower acc other)
      ∙ ground (arith, other)
]

key_lower_sound :
    (lower k : Text) (r : Record) → key_lower lower r ≡ some k → text_eq (to_lower k) lower ≡ true
key_lower_sound lower k [] h = ground (arith, h)
key_lower_sound lower k ((j, v) ∷ r) h = elim (Bool-cases (text_eq (to_lower j) lower)) [
  | inl same ↦
      let this : j ≡ k = ground (arith, h, same) in
      subst (λ i. text_eq (to_lower i) lower ≡ true) this same
  | inr other ↦ key_lower_sound lower k r (ground (arith, h, other))
]

-- a key that is another one in lower case is another one
apart :
    (j k lower : Text)
    → text_eq (to_lower j) lower ≡ false
    → text_eq (to_lower k) lower ≡ true
    → text_eq j k ≡ false
apart j k lower o s = elim (Bool-cases (text_eq j k)) [
  | inl same ↦
      let clash : text_eq (to_lower j) lower ≡ true =
        subst (λ i. text_eq (to_lower i) lower ≡ true) (sym (text_eq→≡ j k same)) s in
      ground (arith, o, clash)
  | inr other ↦ other
]

-- the value under an override's spelling is the value of the key in any case
get-key_lower :
    (lower : Text) (r : Record) → option_map (λ k. get k r) (key_lower lower r) ≡ find_lower lower r
unfolding get find
get-key_lower lower [] = refl
get-key_lower lower ((j, v) ∷ r) = elim (Bool-cases (text_eq (to_lower j) lower)) [
  | inl same ↦ ground (arith, same, text_eq_refl j)
  | inr other ↦ elim (Option-cases (key_lower lower r)) [
    | inl gone ↦ ground (arith, other, gone, get-key_lower lower r)
    | inr (k, found) ↦
        let away = apart j k lower other (key_lower_sound lower k r found) in
        ground (arith, other, found, away, get-key_lower lower r)
  ]
]

shown-shown : (o : Option Text) → shown (shown o) ≡ shown o
shown-shown o = ground arith

table_value :
    (lower : Text) (overrides : Record)
    → Distinct overrides
    → option_map (λ s. get s overrides) (find lower (spellings [] (keys overrides)))
      ≡ find_lower lower overrides
unfolding find
table_value lower overrides d =
    let or_none : or_else (key_lower lower overrides) none ≡ key_lower lower overrides =
      ground arith in
    ap (option_map (λ s. get s overrides)) (find-spellings lower overrides [] d ∙ or_none)
    ∙ get-key_lower lower overrides

-- Where neither record has two keys that differ in case only, nor the overrides an empty key: whatever
-- the letters' case, a key other than "SetEnv" gets the value of its override, if there is one, and
-- that of the config otherwise, and is left out of the block where that value is empty.
pub merge-overridden :
    (config overrides : Record) (lower : Text)
    → Distinct config
    → Distinct overrides
    → text_eq lower_set_env lower ≡ false
    → shown (find_lower lower (merge_ssh_config_values config overrides))
      ≡ shown (overridden (find_lower lower overrides) (find_lower lower config))
unfolding merge_ssh_config_values
merge-overridden config overrides lower dc do_ plain =
    let table = spellings [] (keys overrides) in
    let first : Merge = record { merged = []; spelled = table } in
    let spelled = spellings-Spelled overrides [] do_ tt in
    let n = merge_keys overrides config first in
    let left = merge_keys-Spelled lower plain overrides config first spelled in
    let value_of = table_value lower overrides do_ in
    elim (Option-cases (find_lower lower config)) [
      | inr (value, present) ↦
          let done =
            merge_keys-present lower plain overrides config value first dc spelled refl present in
          let final = add_left-absent lower plain overrides n.spelled n.merged left done.1 in
          ap shown (final ∙ done.0)
          ∙ shown-shown _
          ∙ ap (λ o. shown (overridden o (some value))) value_of
          ∙ ap (λ c. shown (overridden (find_lower lower overrides) c)) (sym present)
      | inl absent ↦
          let kept = merge_keys-absent lower plain overrides config first spelled absent in
          elim (Option-cases (find lower table)) [
            | inl none_left ↦
                let final =
                  add_left-absent lower plain overrides n.spelled n.merged left
                    (kept.1 ∙ none_left) in
                ground (arith, final, kept.0, value_of, none_left, absent)
            | inr (spelling, named) ↦
                let final =
                  add_left-present lower plain overrides n.spelled n.merged spelling left kept.0
                    (kept.1 ∙ named) in
                ground (arith, final, value_of, named, absent)
          ]
    ]
