-- ===== src/Policy/Rejoin.antt =====
-- `splitAtTopLevelJoins` and `joinPolicyParts` of abe/policy.go: the parts of a split are found
-- again when they are joined and split once more.
use bc_abe.Common.{
  ℕ, ◌≡◌, refl, sym, ap, ◌∙◌, List, [], ◌∷◌, ◌++◌, arith, inl, inr, ◌⊎◌, some, append_assoc,
  append-nil,
}
use bc_abe.Text.{Text, trim_space}
use bc_abe.Text.Trim.{trim_space-append, trim_space-cons, trim_space-trim_space}
use bc_abe.Policy.Scan.{
  ℤ, pos, inc, dec, is_zero, bracket, Join, and_join, or_join, join_text, read_join, Move, enter,
  leave, stay, cut, move, bracket_move, cut_at_zero, Parts, add_part, scan_joins,
  split_at_top_level_joins, write_rest, join_policy_parts,
}
use bc_abe.Policy.Run.{
  head_or, run, space, space-is_space, space_move, move_before_space, run-before_space, run-append,
  run-trim_space,
}

-- The scanner goes over a text that holds no cut.
scan-run :
    (d e : ℤ) (cur s rest : Text) (n : ℕ)
    → run d s n ≡ some e
    → scan_joins d cur (s ++ n ∷ rest) ≡ scan_joins e (cur ++ s) (n ∷ rest)
unfolding run scan_joins
scan-run d e cur [] rest n h = cc (append-nil cur)
scan-run d e cur (c ∷ []) rest n h = ground (
  arith,
  append-nil (cur ++ c ∷ []),
  scan-run (inc d) e (cur ++ c ∷ []) [] rest n,
  scan-run (dec d) e (cur ++ c ∷ []) [] rest n,
  scan-run d e (cur ++ c ∷ []) [] rest n,
)
scan-run d e cur (c ∷ x ∷ s) rest n h = ground (
  arith,
  append_assoc cur (c ∷ []) (x ∷ s),
  scan-run (inc d) e (cur ++ c ∷ []) (x ∷ s) rest n,
  scan-run (dec d) e (cur ++ c ∷ []) (x ∷ s) rest n,
  scan-run d e (cur ++ c ∷ []) (x ∷ s) rest n,
)

scan-end :
    (d e : ℤ) (cur s : Text)
    → run d s space ≡ some e
    → scan_joins d cur s ≡ (trim_space (cur ++ s) ∷ [], [])
unfolding run scan_joins
scan-end d e cur [] h = rw append-nil
scan-end d e cur (c ∷ []) h = refl
scan-end d e cur (c ∷ x ∷ s) h = ground (
  arith,
  append_assoc cur (c ∷ []) (x ∷ s),
  scan-end (inc d) e (cur ++ c ∷ []) (x ∷ s),
  scan-end (dec d) e (cur ++ c ∷ []) (x ∷ s),
  scan-end d e (cur ++ c ∷ []) (x ∷ s),
)

scan-join :
    (cur rest : Text) (op : Join)
    → scan_joins (pos 0) cur (space ∷ (join_text op ++ rest))
      ≡ add_part (cur ++ space ∷ []) op (scan_joins (pos 0) [] rest)
unfolding scan_joins join_text move bracket_move bracket read_join is_zero cut_at_zero
scan-join cur rest and_join = refl
scan-join cur rest or_join = refl

-- A part and its joins as a split makes them: no spaces round a part, no cut in it, and brackets
-- that close in every part but the last.
abbrev pub Good : List Text → List Join → Type 0
Good [] joins = ⊥
Good (p ∷ []) [] = (trim_space p ≡ p) × ((e : ℤ) × (run (pos 0) p space ≡ some e))
Good (p ∷ []) (op ∷ joins) = ⊥
Good (p ∷ q ∷ ps) [] = ⊥
Good (p ∷ q ∷ ps) (op ∷ joins) =
    (trim_space p ≡ p) × (run (pos 0) p space ≡ some (pos 0)) × Good (q ∷ ps) joins

-- A text that is written for a part: the part itself, or the part behind a space.
abbrev Writes : Text → Text → Type 0
Writes q p = (trim_space q ≡ trim_space p) × (run (pos 0) q space ≡ run (pos 0) p space)

Writes-behind_space : (p : Text) → Writes (space ∷ p) p
unfolding run
Writes-behind_space p = (
  trim_space-cons space p space-is_space,
  rw (space_move (pos 0) space (head_or space p) space-is_space, run),
)

scan-write :
    (q p : Text) (ps : List Text) (joins : List Join)
    → Writes q p
    → Good (p ∷ ps) joins
    → scan_joins (pos 0) [] (q ++ write_rest ps joins) ≡ (p ∷ ps, joins)
unfolding write_rest
scan-write q p [] [] (t, r) (tp, (e, rp)) =
    rw (append-nil q, scan-end (pos 0) e [] q (r ∙ rp)) (rw (t, tp))
scan-write q p [] (op ∷ joins) w g = absurd g
scan-write q p (p2 ∷ ps) [] w g = absurd g
scan-write q p (p2 ∷ ps) (op ∷ joins) (t, r) (tp, rp, g) =
    rw
      (
        scan-run (pos 0) (pos 0) [] q (join_text op ++ space ∷ (p2 ++ write_rest ps joins)) space
            (r ∙ rp),
        scan-join q (space ∷ (p2 ++ write_rest ps joins)) op,
        scan-write (space ∷ p2) p2 ps joins (Writes-behind_space p2) g,
        trim_space-append space q space-is_space,
      )
      (rw (t, tp))

Move-cases : (m : Move) → (m ≡ enter) ⊎ (m ≡ leave) ⊎ (m ≡ stay) ⊎ ((op : Join) × (m ≡ cut op))
Move-cases enter = inl refl
Move-cases leave = inr (inl refl)
Move-cases stay = inr (inr (inl refl))
Move-cases (cut op) = inr (inr (inr (op, refl)))

-- Behind one character and before a space there is always a depth.
run_one : (d : ℤ) (c : ℕ) → (e : ℤ) × (run d (c ∷ []) space ≡ some e)
unfolding run
run_one d c = elim (Move-cases (move d c space)) [
  | inl m ↦ (inc d, rw (m, run))
  | inr (inl m) ↦ (dec d, rw (m, run))
  | inr (inr (inl m)) ↦ (d, rw (m, run))
  | inr (inr (inr (op, m))) ↦ absurd (move_before_space d c space space op space-is_space m)
]

cut_at_depth_zero : (d : ℤ) (c x : ℕ) (op : Join) → move d c x ≡ cut op → d ≡ pos 0
unfolding move bracket_move cut_at_zero is_zero
cut_at_depth_zero d c x op h = ground arith

abbrev pub GoodParts : Parts → Type 0
GoodParts (parts, joins) = Good parts joins

Good-add_part :
    (s : Text) (op : Join) (ps : Parts)
    → run (pos 0) s space ≡ some (pos 0)
    → GoodParts ps
    → GoodParts (add_part s op ps)
Good-add_part s op ([], joins) r g = absurd g
Good-add_part s op (q ∷ ps, joins) r g =
    (trim_space-trim_space s, run-trim_space (pos 0) (pos 0) s r, g)

-- What the scanner returns from depth `d` behind a text that it has not cut.
scan-Good :
    (d : ℤ) (cur s : Text)
    → run (pos 0) cur (head_or space s) ≡ some d
    → GoodParts (scan_joins d cur s)
unfolding scan_joins
scan-Good d cur [] r = (trim_space-trim_space cur, (d, run-trim_space (pos 0) d cur r))
scan-Good d cur (c ∷ []) r =
    let (e, re) = run_one d c in
    (
      trim_space-trim_space (cur ++ c ∷ []),
      (e, run-trim_space (pos 0) e (cur ++ c ∷ []) (run-append (pos 0) d cur c space r ∙ re)),
    )
scan-Good d cur (c ∷ x ∷ s) r =
    let behind : run (pos 0) (cur ++ c ∷ []) x ≡ run d (c ∷ []) x =
      run-append (pos 0) d cur c x r in
    elim (Move-cases (move d c x)) [
      | inl m ↦
          rw (m, scan_joins)
            (scan-Good (inc d) (cur ++ c ∷ []) (x ∷ s) (behind ∙ unfold run in rw (m, run)))
      | inr (inl m) ↦
          rw (m, scan_joins)
            (scan-Good (dec d) (cur ++ c ∷ []) (x ∷ s) (behind ∙ unfold run in rw (m, run)))
      | inr (inr (inl m)) ↦
          rw (m, scan_joins)
            (scan-Good d (cur ++ c ∷ []) (x ∷ s) (behind ∙ unfold run in rw (m, run)))
      | inr (inr (inr (op, m))) ↦
          rw (m, scan_joins)
            (let z : d ≡ pos 0 = cut_at_depth_zero d c x op m in
              Good-add_part cur op (scan_joins d [] s)
                (run-before_space (pos 0) (pos 0) cur c space space-is_space (r ∙ ap some z))
                (scan-Good d [] s (unfold run in ap some (sym z))))
    ]

pub split-Good : (s : Text) → GoodParts (split_at_top_level_joins s)
unfolding split_at_top_level_joins
split-Good s = scan-Good (pos 0) [] s (unfold run in refl)

-- Parts that a split can make are found again in the text that they are joined to.
pub split-join :
    (parts : List Text) (joins : List Join)
    → Good parts joins
    → split_at_top_level_joins (join_policy_parts parts joins) ≡ (parts, joins)
unfolding split_at_top_level_joins join_policy_parts
split-join [] joins g = absurd g
split-join (p ∷ ps) joins g = scan-write p p ps joins (refl, refl) g

rejoined_parts :
    (ps : Parts) → GoodParts ps → split_at_top_level_joins (join_policy_parts ps.0 ps.1) ≡ ps
rejoined_parts (parts, joins) g = split-join parts joins g

-- For every text: splitting it at its top-level joins, joining the parts by `joinPolicyParts` and
-- splitting the result gives the same parts and the same joins.
pub split-join-split :
    (s : Text)
    → split_at_top_level_joins
        (join_policy_parts (split_at_top_level_joins s).0 (split_at_top_level_joins s).1)
      ≡ split_at_top_level_joins s
split-join-split s = rejoined_parts (split_at_top_level_joins s) (split-Good s)
