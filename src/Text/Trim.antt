-- ===== src/Text/Trim.antt =====
-- Laws of `trim_space`.
use bc_abe.Common.{
  ℕ, suc, ◌≤◌, true, false, ◌≡◌, refl, ap, [], ◌∷◌, ◌++◌, arith, ◌⊎◌, inl, inr, length, Bool-cases,
}
use bc_abe.Text.Defs.{Text, is_space, trim_left, trim_right, before_trimmed, trim_space}

pub length-trim_left : (s : Text) → length (trim_left s) ≤ length s
unfolding trim_left
length-trim_left [] = omega arith
length-trim_left (c ∷ s) = ground (arith, length-trim_left s)

pub length-before_trimmed : (c : ℕ) (s : Text) → length (before_trimmed c s) ≤ suc (length s)
unfolding before_trimmed
length-before_trimmed c [] = ground arith
length-before_trimmed c (d ∷ s) = ground arith

pub length-trim_right : (s : Text) → length (trim_right s) ≤ length s
unfolding trim_right
length-trim_right [] = omega arith
length-trim_right (c ∷ s) =
    omega (arith, length-before_trimmed c (trim_right s), length-trim_right s)

pub length-trim_space : (s : Text) → length (trim_space s) ≤ length s
unfolding trim_space
length-trim_space s = omega (arith, length-trim_right (trim_left s), length-trim_left s)

-- A space behind a text is trimmed away.
trim_right-append :
    (sp : ℕ) (s : Text) → is_space sp ≡ true → trim_right (s ++ sp ∷ []) ≡ trim_right s
unfolding trim_right before_trimmed
trim_right-append sp [] h = rw h
trim_right-append sp (c ∷ s) h = ap (before_trimmed c) (trim_right-append sp s h)

trim_left-append :
    (sp : ℕ) (s : Text)
    → is_space sp ≡ true
    → (trim_left (s ++ sp ∷ []) ≡ trim_left s ++ sp ∷ [])
      ⊎ ((trim_left s ≡ []) × (trim_left (s ++ sp ∷ []) ≡ []))
unfolding trim_left
trim_left-append sp [] h = rw h (inr (refl, refl))
trim_left-append sp (c ∷ s) h = ground (arith, trim_left-append sp s h)

pub trim_space-append :
    (sp : ℕ) (s : Text) → is_space sp ≡ true → trim_space (s ++ sp ∷ []) ≡ trim_space s
unfolding trim_space
trim_space-append sp s h = elim (trim_left-append sp s h) [
  | inl kept ↦ rw kept (trim_right-append sp (trim_left s) h)
  | inr (none_left, gone) ↦ rw (none_left, gone)
]

pub trim_space-cons : (sp : ℕ) (s : Text) → is_space sp ≡ true → trim_space (sp ∷ s) ≡ trim_space s
unfolding trim_space trim_left
trim_space-cons sp s h = rw h

before_trimmed_again :
    (c : ℕ) (t : Text) → trim_right t ≡ t → trim_right (before_trimmed c t) ≡ before_trimmed c t
unfolding trim_right before_trimmed
before_trimmed_again c [] h = ground arith
before_trimmed_again c (d ∷ t) h = rw h

trim_right-trim_right : (s : Text) → trim_right (trim_right s) ≡ trim_right s
unfolding trim_right
trim_right-trim_right [] = refl
trim_right-trim_right (c ∷ s) = before_trimmed_again c (trim_right s) (trim_right-trim_right s)

trim_left_kept :
    (c : ℕ) (t : Text) → is_space c ≡ false → trim_left (before_trimmed c t) ≡ before_trimmed c t
unfolding trim_left before_trimmed
trim_left_kept c [] h = ground arith
trim_left_kept c (d ∷ t) h = rw h

trim_left-trim_space : (s : Text) → trim_left (trim_right (trim_left s)) ≡ trim_right (trim_left s)
unfolding trim_left trim_right
trim_left-trim_space [] = refl
trim_left-trim_space (c ∷ s) = elim (Bool-cases (is_space c)) [
  | inl sp ↦ rw sp (trim_left-trim_space s)
  | inr no_sp ↦ rw no_sp (trim_left_kept c (trim_right s) no_sp)
]

pub trim_space-trim_space : (s : Text) → trim_space (trim_space s) ≡ trim_space s
unfolding trim_space
trim_space-trim_space s = rw (trim_left-trim_space s) (trim_right-trim_right (trim_left s))
