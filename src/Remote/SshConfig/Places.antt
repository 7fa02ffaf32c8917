-- ===== src/Remote/SshConfig/Places.antt =====
-- Where a text stands in the file of remote/sshConfig.ts: what `indexOf` finds is the first place.
use vscode_coder.Base.{
  ℕ, zero, suc, ◌+◌, ◌≤◌, ◌≡◌, ◌∙◌, refl, sym, ap, subst, true, false, none, some, inl, inr,
  Option-cases, Bool-cases, [], ◌∷◌, ◌++◌, Text, strip_prefix, starts_with, length, take, drop,
  arith, strip_prefix_sound,
}
use vscode_coder.Remote.SshConfig.{index_of}

-- The text reads a part at a place.
abbrev pub ReadsAt : Text → Text → ℕ → Type 0
ReadsAt p t k = starts_with p (drop k t) ≡ true

-- A part stands nowhere in the text.
abbrev pub Absent : Text → Text → Type 0
Absent p t = (k : ℕ) → starts_with p (drop k t) ≡ false

pub index_of_first :
    (p t : Text) (k : ℕ) → ReadsAt p t k → (i : ℕ) × (index_of p t ≡ some i) × (i ≤ k)
unfolding index_of
index_of_first [] [] k h = (0, refl, omega arith)
index_of_first (c ∷ p) [] zero h = absurd (ground arith)
index_of_first (c ∷ p) [] (suc k) h = absurd (ground arith)
index_of_first p (c ∷ t) zero h = (0, rw h refl, omega arith)
index_of_first p (c ∷ t) (suc k) h =
    let (i, found, least) = index_of_first p t k h in
    elim (Bool-cases (starts_with p (c ∷ t))) [
      | inl here ↦ (0, rw here refl, omega arith)
      | inr later ↦ (suc i, rw (later, found) refl, omega arith)
    ]

pub index_of-ReadsAt : (p t : Text) (i : ℕ) → index_of p t ≡ some i → ReadsAt p t i
unfolding index_of
index_of-ReadsAt [] [] i h = ground (arith, h)
index_of-ReadsAt (c ∷ p) [] i h = absurd (ground (arith, h))
index_of-ReadsAt p (c ∷ t) i h = elim (Bool-cases (starts_with p (c ∷ t))) [
  | inl here ↦ let first : 0 ≡ i = ground (arith, h, here) in subst (ReadsAt p (c ∷ t)) first here
  | inr later ↦ elim (Option-cases (index_of p t)) [
    | inl gone ↦ absurd (ground (arith, h, later, gone))
    | inr (j, found) ↦
        let next : suc j ≡ i = ground (arith, h, later, found) in
        subst (ReadsAt p (c ∷ t)) next (index_of-ReadsAt p t j found)
  ]
]

pub index_of-least : (p t : Text) (i k : ℕ) → index_of p t ≡ some i → ReadsAt p t k → i ≤ k
index_of-least p t i k h r =
    let (j, found, least) = index_of_first p t k r in ground (arith, h, found, least)

pub index_of-Absent : (p t : Text) → index_of p t ≡ none → Absent p t
index_of-Absent p t h k = elim (Bool-cases (starts_with p (drop k t))) [
  | inl stands ↦
      let (j, found, least) = index_of_first p t k stands in absurd (ground (arith, h, found))
  | inr gone ↦ gone
]

-- What starts with a longer text starts with its beginning.
pub starts_with-part : (p q t : Text) → starts_with (p ++ q) t ≡ true → starts_with p t ≡ true
starts_with-part [] q t h = refl
starts_with-part (a ∷ p) q [] h = absurd (ground arith)
starts_with-part (a ∷ p) q (b ∷ t) h = ground (arith, starts_with-part p q t)

pub starts_with-rest : (p t : Text) → starts_with p t ≡ true → (r : Text) × (t ≡ p ++ r)
starts_with-rest p t h = elim (Option-cases (strip_prefix p t)) [
  | inl gone ↦ absurd (ground (arith, gone, h))
  | inr (rest, found) ↦ (rest, strip_prefix_sound p t found)
]

pub starts_with-take :
    (p t : Text) (n : ℕ) → starts_with p t ≡ true → length p ≤ n → starts_with p (take n t) ≡ true
starts_with-take [] t n h l = refl
starts_with-take (a ∷ p) t zero h l = absurd (omega arith)
starts_with-take (a ∷ p) [] (suc n) h l = h
starts_with-take (a ∷ p) (b ∷ t) (suc n) h l = ground (arith, starts_with-take p t n)

pub starts_with-take_self : (n : ℕ) (t : Text) → starts_with (take n t) t ≡ true
starts_with-take_self zero t = refl
starts_with-take_self (suc n) [] = refl
starts_with-take_self (suc n) (c ∷ t) = ground (arith, starts_with-take_self n t)

pub drop-length-take : (n : ℕ) (t : Text) → drop (length (take n t)) t ≡ drop n t
drop-length-take zero t = refl
drop-length-take (suc n) [] = refl
drop-length-take (suc n) (c ∷ t) = drop-length-take n t

abbrev nothing : Text
nothing = []

drop-empty : (n : ℕ) → drop n nothing ≡ nothing
drop-empty zero = refl
drop-empty (suc n) = refl

pub drop-add : (n m : ℕ) (t : Text) → drop (n + m) t ≡ drop m (drop n t)
drop-add zero m t = ap (λ k. drop k t) (omega arith)
drop-add (suc n) m [] = drop-empty (suc n + m) ∙ sym (drop-empty m)
drop-add (suc n) m (c ∷ t) =
    let next : suc n + m ≡ suc (n + m) = omega arith in
    ap (λ k. drop k (c ∷ t)) next ∙ drop-add n m t
