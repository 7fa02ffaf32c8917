-- ===== src/Remote/SshConfig/Writing.antt =====
-- `String.replace` and `trimEnd`, as remote/sshConfig.ts uses them.
use vscode_coder.Base.{
  ◌≡◌, ◌∙◌, refl, ap, true, false, ◌&&◌, inl, inr, Bool-cases, [], ◌∷◌, ◌++◌, Text, is_empty, has,
  all, arith,
}
use vscode_coder.Remote.SshConfig.{expand, is_space, trim_end}

-- without a dollar, a replacement is taken as it is
pub expand-plain :
    (before matched after t : Text) → has t b'$' ≡ false → expand before matched after t ≡ t
unfolding expand
expand-plain before matched after [] h = refl
expand-plain before matched after (c ∷ []) h = refl
expand-plain before matched after (c ∷ d ∷ t) h =
    ground (arith, expand-plain before matched after (d ∷ t) (ground arith))

is_empty_lem : (t : Text) → is_empty t ≡ true → t ≡ []
is_empty_lem [] h = refl
is_empty_lem (c ∷ t) h = ground arith

pub trim_end_lem :
    (t : Text) → (spaces : Text) × (t ≡ trim_end t ++ spaces) × (all is_space spaces ≡ true)
unfolding trim_end
trim_end_lem [] = ([], refl, refl)
trim_end_lem (c ∷ t) =
    let (spaces, whole, blank) = trim_end_lem t in
    elim (Bool-cases (is_space c && is_empty (trim_end t))) [
      | inl cut ↦ rw cut (
        c ∷ spaces,
        ap (λ r. c ∷ r)
            (whole ∙ ap (λ r. r ++ spaces) (is_empty_lem (trim_end t) (ground (arith, cut)))),
        ground (arith, cut, blank),
      )
      | inr kept ↦ rw kept (spaces, ap (λ r. c ∷ r) whole, blank)
    ]
