-- ===== src/Text/Cuts.antt =====
-- Laws of `cut_last`: the cut at the last `@`.
use bc_abe.Common.{
  ℕ, ◌≡◌, refl, ◌⊎◌, inl, inr, sym, ◌∙◌, [], ◌∷◌, ◌++◌, ◌==◌, Bool, Option, none, some, Bool-cases,
}
use bc_abe.Text.Defs.{Text, cut_last}

abbrev pub is_at_sign : ℕ → Bool
is_at_sign c = c == b'@'

abbrev found : Text → Text → Option (Text × Text)
found a b = some (a, b)

-- What is behind a cut is behind the last `@`.
pub cut_last-append :
    (x a : Text) → cut_last is_at_sign a ≡ none → cut_last is_at_sign (x ++ b'@' ∷ a) ≡ some (x, a)
unfolding cut_last
cut_last-append [] a h = rw h
cut_last-append (c ∷ x) a h = rw (cut_last-append x a h)

cut_cases : (o : Option (Text × Text)) → (o ≡ none) ⊎ ((a : Text) × (b : Text) × (o ≡ found a b))
cut_cases none = inl refl
cut_cases (some (a, b)) = inr (a, b, refl)

second : (a b c d : Text) → found a b ≡ found c d → b ≡ d
second a b c d h = cc

-- Behind the cut there is no `@`.
pub cut_last-rest :
    (s a b : Text) → cut_last is_at_sign s ≡ found a b → cut_last is_at_sign b ≡ none
unfolding cut_last
cut_last-rest [] a b h = cc
cut_last-rest (c ∷ s) a b h = elim (cut_cases (cut_last is_at_sign s)) [
  | inl n ↦ elim (Bool-cases (is_at_sign c)) [
    | inl t ↦
        let e : found [] s ≡ found a b = rw (cut_last, n, t) at h in rw (sym (second [] s a b e)) n
    | inr f ↦ let e : none ≡ found a b = rw (cut_last, n, f) at h in cc
  ]
  | inr (a', b', e) ↦
      let r : found (c ∷ a') b' ≡ found a b = rw (cut_last, e) at h in
      cut_last-rest s a' b (e ∙ rw (second (c ∷ a') b' a b r))
]
