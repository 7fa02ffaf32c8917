-- ===== src/Base/TextLaws.antt =====
-- Equality, prefixes and lower case of texts.
use mathlib.Core.Path.{◌≡◌, refl}
use mathlib.Core.Bool.{true}
use mathlib.Core.Option.{some}
use mathlib.Core.List.{[], ◌∷◌, ◌++◌}
use native.Mathlib.Omega.{arith}
use vscode_coder.Base.Strings.{Text, text_eq, strip_prefix, to_lower}

pub text_eq_refl : (s : Text) → text_eq s s ≡ true
text_eq_refl [] = refl
text_eq_refl (a ∷ s) = ground (arith, text_eq_refl s)

pub text_eq→≡ : (s t : Text) → text_eq s t ≡ true → s ≡ t
text_eq→≡ [] [] h = refl
text_eq→≡ [] (b ∷ t) h = cc
text_eq→≡ (a ∷ s) [] h = cc
text_eq→≡ (a ∷ s) (b ∷ t) h = ground (arith, text_eq→≡ s t)

pub strip_prefix-append : (p t : Text) → strip_prefix p (p ++ t) ≡ some t
strip_prefix-append [] t = refl
strip_prefix-append (a ∷ p) t = ground (arith, strip_prefix-append p t)

-- A prefix that is stripped stood at the head.
pub strip_prefix_sound : (p t : Text) {r : Text} → strip_prefix p t ≡ some r → t ≡ p ++ r
strip_prefix_sound [] t h = ground arith
strip_prefix_sound (a ∷ p) [] h = cc
strip_prefix_sound (a ∷ p) (b ∷ t) {r} h = ground (arith, strip_prefix_sound p t {r = r})

pub to_lower_idem : (s : Text) → to_lower (to_lower s) ≡ to_lower s
to_lower_idem [] = refl
to_lower_idem (c ∷ s) = ground (arith, to_lower_idem s)
