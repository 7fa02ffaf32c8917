-- ===== src/Remote/SshConfig/Merging/Lookup.antt =====
-- Looking up a key in the records of `mergeSshConfigValues` in remote/sshConfig.ts, by its exact spelling
-- and in any case of its letters.
use vscode_coder.Base.{
  ◌≡◌, ◌∙◌, refl, sym, subst, true, false, Option, none, some, inl, inr, Bool-cases, [], ◌∷◌, Text,
  text_eq, is_empty, to_lower, arith, text_eq_refl, text_eq→≡, if◌then◌else◌,
}
use vscode_coder.Remote.SshConfig.Merging.{Record, find, put, remove}

-- the value of the first key that is `lower` in lower case
abbrev pub find_lower : Text → Record → Option Text
find_lower lower [] = none
find_lower lower ((k, v) ∷ r) =
    let later = find_lower lower r in if text_eq (to_lower k) lower then some v else later

-- No two keys are equal in lower case, and none is empty.
abbrev pub Distinct : Record → Type 0
Distinct [] = Unit
Distinct ((k, v) ∷ r) = (find_lower (to_lower k) r ≡ none) × (is_empty k ≡ false) × Distinct r

text_eq-other :
    (a b l : Text)
    → text_eq a b ≡ true
    → text_eq (to_lower b) l ≡ false
    → text_eq (to_lower a) l ≡ false
text_eq-other a b l h o = subst (λ c. text_eq (to_lower c) l ≡ false) (sym (text_eq→≡ a b h)) o

pub find_lower-put-other :
    (key value lower : Text) (r : Record)
    → text_eq (to_lower key) lower ≡ false
    → find_lower lower (put key value r) ≡ find_lower lower r
unfolding put
find_lower-put-other key value lower [] h = ground (arith, h)
find_lower-put-other key value lower ((k, v) ∷ r) h = elim (Bool-cases (text_eq k key)) [
  | inl same ↦ ground (arith, same, text_eq-other k key lower same h)
  | inr other ↦ ground (arith, other, find_lower-put-other key value lower r h)
]

pub find_lower-put-same :
    (key value lower : Text) (r : Record)
    → text_eq (to_lower key) lower ≡ true
    → find_lower lower r ≡ none
    → find_lower lower (put key value r) ≡ some value
unfolding put
find_lower-put-same key value lower [] h gone = ground (arith, h)
find_lower-put-same key value lower ((k, v) ∷ r) h gone = elim (Bool-cases (text_eq k key)) [
  | inl same ↦
      let there : text_eq (to_lower k) lower ≡ true =
        subst (λ c. text_eq (to_lower c) lower ≡ true) (sym (text_eq→≡ k key same)) h in
      ground (arith, gone, there)
  | inr other ↦
      let later : find_lower lower r ≡ none = ground (arith, gone) in
      ground (arith, other, gone, find_lower-put-same key value lower r h later)
]

-- The table of spellings: under a key in lower case its spelling, which is not empty, and no key twice.
abbrev pub Spelled : Record → Type 0
Spelled [] = Unit
Spelled ((lower, spelling) ∷ s) =
    (text_eq (to_lower spelling) lower ≡ true)
    × (is_empty spelling ≡ false)
    × (find lower s ≡ none)
    × Spelled s

pub find-put-same : (key value : Text) (r : Record) → find key (put key value r) ≡ some value
unfolding put find
find-put-same key value [] = ground (arith, text_eq_refl key)
find-put-same key value ((k, v) ∷ r) = ground (arith, find-put-same key value r)

text_eq-differ :
    (k key other : Text)
    → text_eq k key ≡ true
    → text_eq key other ≡ false
    → text_eq k other ≡ false
text_eq-differ k key other h o = subst (λ c. text_eq c other ≡ false) (sym (text_eq→≡ k key h)) o

pub find-put-other :
    (key value other : Text) (r : Record)
    → text_eq key other ≡ false
    → find other (put key value r) ≡ find other r
unfolding put find
find-put-other key value other [] h = ground (arith, h)
find-put-other key value other ((k, v) ∷ r) h = elim (Bool-cases (text_eq k key)) [
  | inl same ↦ ground (arith, same, text_eq-differ k key other same h)
  | inr differs ↦ ground (arith, differs, find-put-other key value other r h)
]

pub find-remove-other :
    (key other : Text) (r : Record)
    → text_eq key other ≡ false
    → find other (remove key r) ≡ find other r
unfolding remove find
find-remove-other key other [] h = refl
find-remove-other key other ((k, v) ∷ r) h = elim (Bool-cases (text_eq k key)) [
  | inl same ↦ ground (arith, same, text_eq-differ k key other same h)
  | inr differs ↦ ground (arith, differs, find-remove-other key other r h)
]

pub find-remove-same : (key : Text) (s : Record) → Spelled s → find key (remove key s) ≡ none
unfolding remove find
find-remove-same key [] h = refl
find-remove-same key ((k, v) ∷ s) h = elim (Bool-cases (text_eq k key)) [
  | inl same ↦
      let gone : find key s ≡ none = subst (λ c. find c s ≡ none) (text_eq→≡ k key same) h.2 in
      ground (arith, same, gone)
  | inr differs ↦ ground (arith, differs, find-remove-same key s h.3)
]

text_eq-flip : (a b : Text) → text_eq a b ≡ false → text_eq b a ≡ false
text_eq-flip a b h = elim (Bool-cases (text_eq b a)) [
  | inl same ↦
      let turned : text_eq a b ≡ true =
        subst (λ c. text_eq c b ≡ true) (text_eq→≡ b a same) (text_eq_refl b) in
      ground (arith, h, turned)
  | inr differs ↦ differs
]

pub put-Spelled :
    (lower spelling : Text) (s : Record)
    → text_eq (to_lower spelling) lower ≡ true
    → is_empty spelling ≡ false
    → Spelled s
    → Spelled (put lower spelling s)
unfolding put find
put-Spelled lower spelling [] t e h = (t, e, refl, tt)
put-Spelled lower spelling ((k, v) ∷ s) t e h = elim (Bool-cases (text_eq k lower)) [
  | inl same ↦ rw same (
    subst (λ c. text_eq (to_lower spelling) c ≡ true) (sym (text_eq→≡ k lower same)) t,
    e,
    h.2,
    h.3,
  )
  | inr differs ↦ rw differs (
    h.0,
    h.1,
    find-put-other lower spelling k s (text_eq-flip k lower differs) ∙ h.2,
    put-Spelled lower spelling s t e h.3,
  )
]

pub remove-Spelled : (lower : Text) (s : Record) → Spelled s → Spelled (remove lower s)
unfolding remove find
remove-Spelled lower [] h = tt
remove-Spelled lower ((k, v) ∷ s) h = elim (Bool-cases (text_eq k lower)) [
  | inl same ↦ rw same h.3
  | inr differs ↦ rw differs (
    h.0,
    h.1,
    find-remove-other lower k s (text_eq-flip k lower differs) ∙ h.2,
    remove-Spelled lower s h.3,
  )
]

-- a spelling that is found
pub find-Spelled :
    (lower spelling : Text) (s : Record)
    → Spelled s
    → find lower s ≡ some spelling
    → (text_eq (to_lower spelling) lower ≡ true) × (is_empty spelling ≡ false)
unfolding find
find-Spelled lower spelling [] h f = ground (arith, f)
find-Spelled lower spelling ((k, v) ∷ s) h f = elim (Bool-cases (text_eq k lower)) [
  | inl same ↦
      let value : v ≡ spelling = ground (arith, f, same) in
      (
        subst (λ c. text_eq (to_lower spelling) c ≡ true) (text_eq→≡ k lower same)
            (subst (λ c. text_eq (to_lower c) k ≡ true) value h.0),
        subst (λ c. is_empty c ≡ false) value h.1,
      )
  | inr differs ↦ find-Spelled lower spelling s h.3 (ground (arith, f, differs))
]
