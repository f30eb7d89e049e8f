-- ===== src/Policy/Run.antt =====
-- How the scanner of `splitAtTopLevelJoins` of abe/policy.go goes over a text that it does not cut,
-- and that spaces round the text change nothing.
use bc_abe.Common.{
  ℕ, true, ◌≡◌, ◌≢◌, refl, [], ◌∷◌, ◌++◌, arith, inl, inr, ◌⊎◌, Bool-cases, Option, none, some,
}
use bc_abe.Text.{Text, is_space, trim_left, before_trimmed, trim_right, trim_space}
use bc_abe.Policy.Scan.{
  ℤ, inc, dec, no_bracket, bracket, Join, read_join, enter, leave, stay, cut, move, bracket_move,
  cut_at_zero,
}

abbrev pub head_or : ℕ → Text → ℕ
head_or n [] = n
head_or n (c ∷ s) = c

-- The depth behind a text that is scanned from depth `d` with the character `n` behind it, if the
-- scanner cuts nowhere in it.
unfoldable pub run : ℤ → Text → ℕ → Option ℤ
run d [] n = some d
run d (c ∷ s) n = elim (move d c (head_or n s)) [
  | enter ↦ run (inc d) s n
  | leave ↦ run (dec d) s n
  | stay ↦ run d s n
  | cut op ↦ none
]

space_bracket : (c : ℕ) → is_space c ≡ true → bracket c ≡ no_bracket
unfolding is_space bracket
space_bracket c h = ground arith

space_join : (c x : ℕ) → is_space c ≡ true → read_join c x ≡ none
unfolding is_space read_join
space_join c x h = ground arith

join_space : (c x : ℕ) → is_space x ≡ true → read_join c x ≡ none
unfolding is_space read_join
join_space c x h = ground arith

pub space_move : (d : ℤ) (c x : ℕ) → is_space c ≡ true → move d c x ≡ stay
unfolding move bracket_move cut_at_zero
space_move d c x h = rw (space_bracket c h, space_join c x h) (ground arith)

-- Before a space nothing is cut, so a space may take the place of the character behind a text.
pub move_before_space : (d : ℤ) (c x y : ℕ) (op : Join) → is_space x ≡ true → move d c x ≢ cut op
unfolding move bracket_move cut_at_zero
move_before_space d c x y op h = rw (join_space c x h) (ground arith)

move_with_space :
    (d : ℤ) (c x y : ℕ)
    → is_space y ≡ true
    → (move d c y ≡ move d c x) ⊎ ((op : Join) × (move d c x ≡ cut op))
unfolding move bracket_move cut_at_zero
move_with_space d c x y h = rw (join_space c y h) (ground arith)

pub run-before_space :
    (d e : ℤ) (s : Text) (n m : ℕ) → is_space m ≡ true → run d s n ≡ some e → run d s m ≡ some e
unfolding run
run-before_space d e [] n m sp h = h
run-before_space d e (c ∷ []) n m sp h = ground (arith, move_with_space d c n m sp)
run-before_space d e (c ∷ x ∷ s) n m sp h = ground (
  arith,
  run-before_space (inc d) e (x ∷ s) n m sp,
  run-before_space (dec d) e (x ∷ s) n m sp,
  run-before_space d e (x ∷ s) n m sp,
)

-- One more character behind a text.
pub run-append :
    (d e : ℤ) (s : Text) (c n : ℕ) → run d s c ≡ some e → run d (s ++ c ∷ []) n ≡ run e (c ∷ []) n
unfolding run
run-append d e [] c n h = ground arith
run-append d e (x ∷ []) c n h =
    ground (arith, run-append (inc d) e [] c n, run-append (dec d) e [] c n, run-append d e [] c n)
run-append d e (x ∷ y ∷ s) c n h = ground (
  arith,
  run-append (inc d) e (y ∷ s) c n,
  run-append (dec d) e (y ∷ s) c n,
  run-append d e (y ∷ s) c n,
)

-- Spaces round a text do not change how it is scanned.
pub run-trim_left :
    (d e : ℤ) (s : Text) (n : ℕ) → run d s n ≡ some e → run d (trim_left s) n ≡ some e
unfolding run trim_left
run-trim_left d e [] n h = h
run-trim_left d e (c ∷ s) n h = elim (Bool-cases (is_space c)) [
  | inl sp ↦ rw sp (run-trim_left d e s n (rw (space_move d c (head_or n s) sp, run) at h))
  | inr no_sp ↦ rw no_sp h
]

abbrev pub space : ℕ
space = 0x20

pub space-is_space : is_space space ≡ true
unfolding is_space
space-is_space = refl

trim_right-head :
    (s : Text)
    → (head_or space (trim_right s) ≡ head_or space s)
      ⊎ ((trim_right s ≡ []) × (is_space (head_or space s) ≡ true))
unfolding trim_right before_trimmed
trim_right-head [] = inl refl
trim_right-head (c ∷ s) = ground arith

run-before_trimmed :
    (d e : ℤ) (c : ℕ) (t : Text)
    → run d (c ∷ t) space ≡ some e
    → run d (before_trimmed c t) space ≡ some e
unfolding before_trimmed run
run-before_trimmed d e c [] h = ground (arith, space_move d c space)
run-before_trimmed d e c (x ∷ t) h = h

pub run-trim_right :
    (d e : ℤ) (s : Text) → run d s space ≡ some e → run d (trim_right s) space ≡ some e
unfolding run trim_right
run-trim_right d e [] h = h
run-trim_right d e (c ∷ s) h = run-before_trimmed d e c (trim_right s) (elim (trim_right-head s) [
  | inl same ↦
      rw (same, run)
        (ground
          (arith, run-trim_right (inc d) e s, run-trim_right (dec d) e s, run-trim_right d e s))
  | inr (gone, sp) ↦ ground (
    arith,
    gone,
    move_with_space d c (head_or space s) space space-is_space,
    run-trim_right (inc d) e s,
    run-trim_right (dec d) e s,
    run-trim_right d e s,
  )
])

pub run-trim_space :
    (d e : ℤ) (s : Text) → run d s space ≡ some e → run d (trim_space s) space ≡ some e
unfolding trim_space
run-trim_space d e s h = run-trim_right d e (trim_left s) (run-trim_left d e s space h)
