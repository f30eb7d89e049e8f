-- ===== src/Text/Solid.antt =====
-- Texts that are not empty and that `trim_space` leaves as they are.
use bc_abe.Common.{
  ℕ, ◌<◌, false, ◌≡◌, refl, ap, ◌∙◌, sym, [], ◌∷◌, ◌++◌, arith, inl, inr, length, length-append,
  Bool-cases, append_assoc,
}
use bc_abe.Text.Defs.{Text, is_space, trim_left, trim_right, before_trimmed, trim_space}
use bc_abe.Text.Trim.{length-trim_space, trim_space-cons}

abbrev pub Solid : Text → Type 0
Solid t = (trim_space t ≡ t) × (0 < length t)

head_solid : (c : ℕ) (t : Text) → trim_space (c ∷ t) ≡ c ∷ t → is_space c ≡ false
head_solid c t h = elim (Bool-cases (is_space c)) [
  | inr no_sp ↦ no_sp
  | inl sp ↦
      absurd (omega (arith, length-trim_space t, ap length (sym (trim_space-cons c t sp) ∙ h)))
]

trim_left-append-Solid : (t u : Text) → Solid t → trim_left (t ++ u) ≡ t ++ u
unfolding trim_left
trim_left-append-Solid [] u (_, l) = absurd (omega arith)
trim_left-append-Solid (c ∷ t) u (h, _) = rw (head_solid c t h)

trim_right-Solid : (t : Text) → Solid t → trim_right t ≡ t
unfolding trim_space trim_left
trim_right-Solid [] h = refl
trim_right-Solid (c ∷ t) (h, l) = (rw (head_solid c t h) at h)

before_trimmed-append :
    (c : ℕ) (u t : Text) → 0 < length t → before_trimmed c (u ++ t) ≡ c ∷ (u ++ t)
unfolding before_trimmed
before_trimmed-append c [] [] h = absurd (omega arith)
before_trimmed-append c [] (d ∷ t) h = refl
before_trimmed-append c (d ∷ u) t h = refl

trim_right-append-Solid : (u t : Text) → Solid t → trim_right (u ++ t) ≡ u ++ t
unfolding trim_right
trim_right-append-Solid [] t h = trim_right-Solid t h
trim_right-append-Solid (c ∷ u) t h =
    rw (trim_right-append-Solid u t h) (before_trimmed-append c u t h.1)

-- A text that begins and ends solidly is solid.
pub Solid-append : (t u v : Text) → Solid t → Solid v → Solid (t ++ (u ++ v))
unfolding trim_space
Solid-append t u v ht hv = (
  rw (trim_left-append-Solid t (u ++ v) ht)
      (rw (sym (append_assoc t u v)) (trim_right-append-Solid (t ++ u) v hv)),
  omega (arith, length-append t (u ++ v), ht.1),
)

pub trim_right-append :
    (u t : Text) → 0 < length (trim_right t) → trim_right (u ++ t) ≡ u ++ trim_right t
unfolding trim_right
trim_right-append [] t h = refl
trim_right-append (c ∷ u) t h =
    rw (trim_right-append u t h) (before_trimmed-append c u (trim_right t) h)
