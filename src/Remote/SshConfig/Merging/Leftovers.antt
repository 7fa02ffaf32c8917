-- ===== src/Remote/SshConfig/Merging/Leftovers.antt =====
-- The overrides that `mergeSshConfigValues` of remote/sshConfig.ts has left after the keys of the config.
use vscode_coder.Base.{
  ◌≡◌, ◌∙◌, refl, ap, subst, true, false, none, some, inl, inr, Bool-cases, [], ◌∷◌, ◌++◌, Text,
  codes, text_eq, to_lower, arith, text_eq→≡,
}
use vscode_coder.Remote.SshConfig.Merging.{
  Record, find, get, set_env, lower_set_env, add_override, add_left,
}
use vscode_coder.Remote.SshConfig.Merging.Lookup.{
  find_lower, find_lower-put-other, find_lower-put-same, Spelled,
}
use vscode_coder.Remote.SshConfig.Merging.Overrides.{text_eq-same, text_eq-env}

module _ (lower : Text) (plain : text_eq lower_set_env lower ≡ false) where
  module _ (overrides : Record) where
    -- the second loop
    add_override-other :
        (key spelling value old : Text) (merged : Record)
        → text_eq (to_lower spelling) lower ≡ false
        → find_lower lower (add_override key spelling value old merged) ≡ find_lower lower merged
    unfolding add_override
    add_override-other key spelling value old merged o = ground (
      arith,
      find_lower-put-other set_env (old ++ codes " " ++ value) lower merged plain,
      find_lower-put-other spelling value lower merged o,
    )

    add_override-same :
        (key spelling value old : Text) (merged : Record)
        → text_eq key lower ≡ true
        → text_eq (to_lower spelling) lower ≡ true
        → find_lower lower merged ≡ none
        → find_lower lower (add_override key spelling value old merged) ≡ some value
    unfolding add_override
    add_override-same key spelling value old merged same named gone = ground (
      arith,
      text_eq-env lower plain key same,
      find_lower-put-same spelling value lower merged named gone,
    )

    pub add_left-absent :
        (left merged : Record)
        → Spelled left
        → find lower left ≡ none
        → find_lower lower (add_left overrides left merged) ≡ find_lower lower merged
    unfolding add_left find
    add_left-absent [] merged h absent = refl
    add_left-absent ((key, spelling) ∷ left) merged h absent =
        let apart : text_eq key lower ≡ false = ground (arith, absent) in
        let rest : find lower left ≡ none = ground (arith, absent) in
        let other = text_eq-same lower plain (to_lower spelling) key h.0 apart in
        add_left-absent left _ h.3 rest
        ∙ add_override-other key spelling (get spelling overrides) (get set_env merged) merged other

    pub add_left-present :
        (left merged : Record) (spelling : Text)
        → Spelled left
        → find_lower lower merged ≡ none
        → find lower left ≡ some spelling
        → find_lower lower (add_left overrides left merged) ≡ some (get spelling overrides)
    unfolding add_left find
    add_left-present [] merged spelling h gone present = ground (arith, present)
    add_left-present ((key, s) ∷ left) merged spelling h gone present =
        elim (Bool-cases (text_eq key lower)) [
          | inl same ↦
              let this : s ≡ spelling = ground (arith, present, same) in
              let named : text_eq (to_lower s) lower ≡ true =
                subst (λ l. text_eq (to_lower s) l ≡ true) (text_eq→≡ key lower same) h.0 in
              let rest : find lower left ≡ none =
                subst (λ l. find l left ≡ none) (text_eq→≡ key lower same) h.2 in
              add_left-absent left _ h.3 rest
              ∙ add_override-same key s (get s overrides) (get set_env merged) merged same named
                  gone
              ∙ ap (λ t. some (get t overrides)) this
          | inr apart ↦
              let rest : find lower left ≡ some spelling = ground (arith, present, apart) in
              let other = text_eq-same lower plain (to_lower s) key h.0 apart in
              add_left-present left _ spelling h.3
                (add_override-other key s (get s overrides) (get set_env merged) merged other
                  ∙ gone)
                rest
        ]
