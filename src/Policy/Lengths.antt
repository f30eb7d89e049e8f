-- ===== src/Policy/Lengths.antt =====
-- The texts on which the functions of abe/policy.go call themselves are shorter than their own.
use bc_abe.Common.{ℕ, ◌+◌, ◌≤◌, ◌<◌, List, [], ◌∷◌, ◌++◌, arith, length, length-append, All}
use bc_abe.Text.{Text}
use bc_abe.Text.Trim.{length-trim_space}
use bc_abe.Policy.Scan.{
  ℤ, pos, inc, dec, scan_joins, split_at_top_level_joins, drop_last, inner_clause,
}

-- Two characters more for each part.
abbrev total : List Text → ℕ
total [] = 0
total (t ∷ ts) = length t + 2 + total ts

total-scan_joins : (d : ℤ) (cur s : Text) → total (scan_joins d cur s).0 ≤ length cur + length s + 2
unfolding scan_joins
total-scan_joins d cur [] = omega (arith, length-trim_space cur)
total-scan_joins d cur (c ∷ []) =
    omega (arith, length-trim_space (cur ++ c ∷ []), length-append cur (c ∷ []))
total-scan_joins d cur (c ∷ e ∷ s) = ground (
  arith,
  length-append cur (c ∷ []),
  length-trim_space cur,
  total-scan_joins (inc d) (cur ++ c ∷ []) (e ∷ s),
  total-scan_joins (dec d) (cur ++ c ∷ []) (e ∷ s),
  total-scan_joins d (cur ++ c ∷ []) (e ∷ s),
  total-scan_joins d [] s,
)

total-split : (s : Text) → total (split_at_top_level_joins s).0 ≤ length s + 2
unfolding split_at_top_level_joins
total-split s = omega (arith, total-scan_joins (pos 0) [] s)

All-below : (n k : ℕ) (ts : List Text) → total ts ≤ k → k < n + 2 → All (λ t. length t < n) ts
All-below n k [] h lt = tt
All-below n k (t ∷ ts) h lt = (omega arith, All-below n k ts (omega arith) lt)

All-lt : (n : ℕ) (ts : List Text) → total ts ≤ n + 2 → 1 < length ts → All (λ t. length t < n) ts
All-lt n [] h two = tt
All-lt n (t ∷ []) h two = absurd (omega arith)
All-lt n (t ∷ u ∷ ts) h two =
    (omega arith, All-below n (total (u ∷ ts)) (u ∷ ts) (omega arith) (omega arith))

-- Where there are several parts, each is shorter than the whole.
pub split-shorter :
    (s : Text)
    → 1 < length (split_at_top_level_joins s).0
    → All (λ t. length t < length s) (split_at_top_level_joins s).0
split-shorter s = All-lt (length s) (split_at_top_level_joins s).0 (total-split s)

pub length-drop_last : (s : Text) → length (drop_last s) ≤ length s
unfolding drop_last
length-drop_last [] = omega arith
length-drop_last (c ∷ []) = omega arith
length-drop_last (c ∷ d ∷ s) = omega (arith, length-drop_last (d ∷ s))

-- The text between the brackets is shorter than a text that is not empty.
pub inner_clause-shorter : (s : Text) → 0 < length s → length (inner_clause s) < length s
unfolding inner_clause
inner_clause-shorter [] h = absurd (omega arith)
inner_clause-shorter (c ∷ s) h = omega (arith, length-trim_space (drop_last s), length-drop_last s)

-- No part is longer than the whole.
pub split-le : (s : Text) → All (λ t. length t < length s + 1) (split_at_top_level_joins s).0
split-le s =
    All-below (length s + 1) (length s + 2) (split_at_top_level_joins s).0 (total-split s)
      (omega arith)
