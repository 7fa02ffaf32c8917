-- ===== src/Remote/SshConfig/Comments.antt =====
-- The two comments around a block of remote/sshConfig.ts, and the text between them.
use native.Mathlib.Decide.{dec_le}
use vscode_coder.Base.{
  ℕ, zero, suc, ◌+◌, ◌-◌, ◌≤◌, ◌<◌, ◌≡◌, ◌∙◌, refl, sym, ap, subst, true, false, some, inl, inr,
  Bool-cases, ◌++◌, Text, codes, starts_with, length, length-append, take, drop, arith,
}
use vscode_coder.Remote.SshConfig.{
  index_of, count_substring, substring, start_block_comment, end_block_comment,
}
use vscode_coder.Remote.SshConfig.Counts.{
  Only, count_substring-Only, count_substring-Absent, count_substring-some, count_substring-two,
}
use vscode_coder.Remote.SshConfig.Places.{
  ReadsAt, Absent, index_of_first, index_of-ReadsAt, index_of-least, starts_with-part,
  starts_with-rest, starts_with-take, starts_with-take_self, drop-add,
}

-- The start comment and the end comment of a host begin differently, and so never stand one over the
-- other at the same place, or at the next.
starts-apart :
    (host u : Text)
    → starts_with (start_block_comment host) u ≡ true
    → (starts_with (end_block_comment host) u ≡ false)
      × (starts_with (end_block_comment host) (drop 1 u) ≡ false)
unfolding start_block_comment end_block_comment
starts-apart host u h =
    let (r, whole) = starts_with-rest (codes "# --- S") u (
      starts_with-part (codes "# --- S") (codes "TART CODER VSCODE " ++ host ++ codes " ---") u
        h) in
    rw whole (refl, refl)

length-comments :
    (host : Text) → length (start_block_comment host) ≡ length (end_block_comment host) + 2
unfolding start_block_comment end_block_comment
length-comments host = omega (
  arith,
  length-append (codes "# --- START CODER VSCODE " ++ host) (codes " ---"),
  length-append (codes "# --- START CODER VSCODE ") host,
  length-append (codes "# --- END CODER VSCODE " ++ host) (codes " ---"),
  length-append (codes "# --- END CODER VSCODE ") host,
)

apart-far :
    (host raw : Text) (i d : ℕ)
    → ReadsAt (start_block_comment host) raw i
    → ReadsAt (end_block_comment host) raw (i + d)
    → 2 ≤ d
apart-far host raw i zero s e =
    let same : i + 0 ≡ i = omega arith in
    let clash = (starts-apart host (drop i raw) s).0 in
    absurd (ground (arith, subst (ReadsAt (end_block_comment host) raw) same e, clash))
apart-far host raw i (suc zero) s e =
    let next = drop-add i 1 raw in
    let clash = (starts-apart host (drop i raw) s).1 in
    let here : starts_with (end_block_comment host) (drop 1 (drop i raw)) ≡ true =
      subst (λ u. starts_with (end_block_comment host) u ≡ true) next e in
    absurd (ground (arith, here, clash))
apart-far host raw i (suc (suc d)) s e = omega arith

-- so the end comment ends no earlier than the start comment
pub comments-ends :
    (host raw : Text) (i j : ℕ)
    → ReadsAt (start_block_comment host) raw i
    → ReadsAt (end_block_comment host) raw j
    → i ≤ j
    → length (start_block_comment host) ≤ j + length (end_block_comment host) - i
comments-ends host raw i j s e l =
    let apart : i + (j - i) ≡ j = omega arith in
    let far =
      apart-far host raw i (j - i) s (subst (ReadsAt (end_block_comment host) raw) (sym apart) e) in
    omega (arith, far, length-comments host)

-- The text between the comments stands first where the start comment does.
pub substring-first :
    (host raw : Text) (i j : ℕ)
    → index_of (start_block_comment host) raw ≡ some i
    → ReadsAt (end_block_comment host) raw j
    → i ≤ j
    → index_of (substring i (j + length (end_block_comment host)) raw) raw ≡ some i
substring-first host raw i j found e l =
    let start = start_block_comment host in
    let s = index_of-ReadsAt start raw i found in
    let n = j + length (end_block_comment host) - i in
    let old = take n (drop i raw) in
    let (k, first, least) = index_of_first old raw i (starts_with-take_self n (drop i raw)) in
    let (rest, begins) =
      starts_with-rest start old
        (starts_with-take start (drop i raw) n s (comments-ends host raw i j s e l)) in
    let there : ReadsAt start raw k =
      starts_with-part start rest (drop k raw) (
        subst (λ o. starts_with o (drop k raw) ≡ true) begins (index_of-ReadsAt old raw k first)) in
    let same : k ≡ i = omega (arith, index_of-least start raw i k found there) in
    first ∙ ap some same

-- the comments are not empty
pub start-full : (host : Text) → 0 < length (start_block_comment host)
start-full host = omega (arith, length-comments host)

pub end-full : (host : Text) → 0 < length (end_block_comment host)
unfolding end_block_comment
end-full host = omega arith

-- A file that holds no block of the host, or one.
pub data WellFormed (host raw : Text) : Type 0 where
  without_block :
      Absent (start_block_comment host) raw
      → Absent (end_block_comment host) raw
      → WellFormed host raw
  with_block :
      (i j : ℕ)
      → Only (start_block_comment host) raw i
      → Only (end_block_comment host) raw j
      → i ≤ j
      → WellFormed host raw

-- of such a file the comments are counted equally often, and once at most
pub WellFormed-counts :
    (host raw : Text)
    → WellFormed host raw
    → (count_substring (start_block_comment host) raw
        ≡ count_substring (end_block_comment host) raw)
      × (count_substring (start_block_comment host) raw ≤ 1)
WellFormed-counts host raw (without_block a b) =
    let starts = count_substring-Absent (start_block_comment host) raw (start-full host) a in
    let ends = count_substring-Absent (end_block_comment host) raw (end-full host) b in
    (omega arith, omega arith)
WellFormed-counts host raw (with_block i j a b l) =
    let starts = count_substring-Only (start_block_comment host) raw (start-full host) i a in
    let ends = count_substring-Only (end_block_comment host) raw (end-full host) j b in
    (omega arith, omega arith)

-- a text that is counted once at most, and is found, stands there only
pub found-Only :
    (p raw : Text) (i : ℕ)
    → 0 < length p
    → count_substring p raw ≤ 1
    → index_of p raw ≡ some i
    → Only p raw i
found-Only p raw i n one found =
    let here = index_of-ReadsAt p raw i found in
    record {
      here = here;
      first = λ k r. index_of-least p raw i k found r;
      last = λ k r. elim (dec_le (i + length p) k) [
        | yes behind ↦ absurd (omega (arith, count_substring-two p raw n i k here r behind))
        | no near ↦ omega arith
      ];
    }

-- a text that is counted never stands nowhere
pub uncounted-Absent : (p raw : Text) → 0 < length p → count_substring p raw ≡ 0 → Absent p raw
uncounted-Absent p raw n z k = elim (Bool-cases (starts_with p (drop k raw))) [
  | inl stands ↦ absurd (omega (arith, count_substring-some p raw n k stands))
  | inr gone ↦ gone
]
