-- ===== src/Remote/SshConfig/Counts.antt =====
-- `countSubstring` of util.ts against the places where a text stands.
use vscode_coder.Base.{
  ℕ, zero, suc, ◌+◌, ◌-◌, ◌≤◌, ◌<◌, ◌≡◌, refl, inl, inr, Bool-cases, [], ◌∷◌, Text, starts_with,
  length, arith,
}
use vscode_coder.Remote.SshConfig.{count_from, count_substring}
use vscode_coder.Remote.SshConfig.Places.{ReadsAt, Absent}

-- A part stands at a place, and elsewhere only where it overlaps that.
pub record Only (p t : Text) (i : ℕ) : Type 0 where
  pub here : ReadsAt p t i
  pub first : (k : ℕ) → ReadsAt p t k → i ≤ k
  pub last : (k : ℕ) → ReadsAt p t k → k < i + length p

-- a place behind what is skipped is counted
count_from-skip :
    (p t : Text) (skip k : ℕ) → 0 < length p → ReadsAt p t k → skip ≤ k → 1 ≤ count_from skip p t
unfolding count_from
count_from-skip [] t skip k n h l = absurd (omega arith)
count_from-skip (a ∷ p) [] skip zero n h l = absurd (ground arith)
count_from-skip (a ∷ p) [] skip (suc k) n h l = absurd (ground arith)
count_from-skip p (c ∷ t) zero zero n h l = rw h (omega arith)
count_from-skip p (c ∷ t) zero (suc k) n h l = elim (Bool-cases (starts_with p (c ∷ t))) [
  | inl this ↦ rw this (omega arith)
  | inr later ↦ rw later (count_from-skip p t 0 k n h (omega arith))
]
count_from-skip p (c ∷ t) (suc skip) zero n h l = absurd (omega arith)
count_from-skip p (c ∷ t) (suc skip) (suc k) n h l = count_from-skip p t skip k n h (omega arith)

-- two places that do not overlap are both counted
count_from-two :
    (p t : Text) (i k : ℕ)
    → 0 < length p
    → ReadsAt p t i
    → ReadsAt p t k
    → i + length p ≤ k
    → 2 ≤ count_from 0 p t
unfolding count_from
count_from-two p [] i k n h r l = absurd (omega (arith, count_from-skip p [] 0 k n r (omega arith)))
count_from-two p (c ∷ t) i zero n h r l = absurd (omega arith)
count_from-two p (c ∷ t) zero (suc k) n h r l =
    let more = count_from-skip p t (length p - 1) k n r (omega arith) in rw h (omega (arith, more))
count_from-two p (c ∷ t) (suc i) (suc k) n h r l = elim (Bool-cases (starts_with p (c ∷ t))) [
  | inl this ↦
      let more = count_from-skip p t (length p - 1) k n r (omega arith) in
      rw this (omega (arith, more))
  | inr later ↦ rw later (count_from-two p t i k n h r (omega arith))
]

-- where nothing stands behind what is skipped, nothing is counted
count_from-none :
    (p t : Text) (skip : ℕ)
    → 0 < length p
    → ((k : ℕ) → ReadsAt p t k → k < skip)
    → count_from skip p t ≡ 0
unfolding count_from
count_from-none p [] skip n h = refl
count_from-none p (c ∷ t) zero n h = elim (Bool-cases (starts_with p (c ∷ t))) [
  | inl this ↦ absurd (omega (arith, h 0 this))
  | inr later ↦ rw later (count_from-none p t 0 n (λ k r. absurd (omega (arith, h (suc k) r))))
]
count_from-none p (c ∷ t) (suc skip) n h =
    count_from-none p t skip n (λ k r. omega (arith, h (suc k) r))

count_from-one :
    (p t : Text) (i : ℕ)
    → 0 < length p
    → ReadsAt p t i
    → ((k : ℕ) → ReadsAt p t k → i ≤ k)
    → ((k : ℕ) → ReadsAt p t k → k < i + length p)
    → count_from 0 p t ≡ 1
unfolding count_from
count_from-one p [] i n h f l = absurd (omega (arith, count_from-skip p [] 0 i n h (omega arith)))
count_from-one p (c ∷ t) zero n h f l =
    let rest = count_from-none p t (length p - 1) n (λ k r. omega (arith, l (suc k) r)) in
    rw (h, rest) refl
count_from-one p (c ∷ t) (suc i) n h f l = elim (Bool-cases (starts_with p (c ∷ t))) [
  | inl this ↦ absurd (omega (arith, f 0 this))
  | inr later ↦ rw later (
      count_from-one p t i n h (λ k r. omega (arith, f (suc k) r))
        (λ k r. omega (arith, l (suc k) r)))
]

count_substring-from : (p t : Text) → 0 < length p → count_substring p t ≡ count_from 0 p t
unfolding count_substring
count_substring-from [] t n = absurd (omega arith)
count_substring-from (a ∷ p) t n = refl

module _ (p t : Text) (n : 0 < length p) where
  pub count_substring-Only : (i : ℕ) → Only p t i → count_substring p t ≡ 1
  count_substring-Only i o =
      rw (count_substring-from p t n) (count_from-one p t i n o.here o.first o.last)

  pub count_substring-Absent : Absent p t → count_substring p t ≡ 0
  count_substring-Absent a =
      rw (count_substring-from p t n)
        (count_from-none p t 0 n (λ k r. absurd (ground (arith, a k, r))))

  pub count_substring-some : (k : ℕ) → ReadsAt p t k → 1 ≤ count_substring p t
  count_substring-some k r =
      rw (count_substring-from p t n) (count_from-skip p t 0 k n r (omega arith))

  pub count_substring-two :
      (i k : ℕ) → ReadsAt p t i → ReadsAt p t k → i + length p ≤ k → 2 ≤ count_substring p t
  count_substring-two i k h r l = rw (count_substring-from p t n) (count_from-two p t i k n h r l)
