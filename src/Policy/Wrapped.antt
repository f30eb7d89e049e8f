-- ===== src/Policy/Wrapped.antt =====
-- `isWrappedClause` of abe/policy.go decides whether one pair of brackets encloses a whole clause.
use bc_abe.Common.{
  ℕ, zero, suc, true, false, ◌&&◌, ◌≡◌, ◌↔◌, refl, sym, ap, ◌∙◌, [], ◌∷◌, ◌++◌, arith, inl, inr,
  ◌⊎◌, append_assoc, subst, &&-true, ==→≡,
}
use bc_abe.Text.{Text, trim_space}
use bc_abe.Policy.Scan.{
  pos, inc, dec, is_zero, Bracket, open_bracket, close_bracket, no_bracket, bracket, scan_wrapped,
  starts_open, ends_close, trimmed_is_wrapped, is_wrapped_clause, wrap,
}

-- Texts whose brackets match.
pub data Balanced : Text → Type 0 where
  nothing : Balanced []
  other : {t : Text} (c : ℕ) → bracket c ≡ no_bracket → Balanced t → Balanced (c ∷ t)
  group :
      {t : Text} (a b : Text) → Balanced a → Balanced b → t ≡ b'(' ∷ (a ++ b')' ∷ b) → Balanced t

open_char : (c : ℕ) → bracket c ≡ open_bracket → c ≡ b'('
unfolding bracket
open_char c h = ground arith

close_char : (c : ℕ) → bracket c ≡ close_bracket → c ≡ b')'
unfolding bracket
close_char c h = ground arith

Bracket-cases : (b : Bracket) → (b ≡ open_bracket) ⊎ (b ≡ close_bracket) ⊎ (b ≡ no_bracket)
Bracket-cases open_bracket = inl refl
Bracket-cases close_bracket = inr (inl refl)
Bracket-cases no_bracket = inr (inr refl)

-- Behind balanced text the loop is where it was, at any depth but zero.
scan-Balanced :
    (n : ℕ) {a : Text} (t : Text)
    → Balanced a
    → scan_wrapped (pos (suc n)) (a ++ t) ≡ scan_wrapped (pos (suc n)) t
unfolding scan_wrapped bracket inc dec is_zero
scan-Balanced n t nothing = refl
scan-Balanced n t (other c e b) = rw (e, scan_wrapped) (scan-Balanced n t b)
scan-Balanced n t (group a b ba bb e) =
    rw (e, append_assoc a (b')' ∷ b) t)
      (scan-Balanced (suc n) (b')' ∷ (b ++ t)) ba ∙ scan-Balanced n t bb)

-- Balanced texts, each with a closing bracket behind it.
abbrev Closes : ℕ → Text → Type 0
Closes zero t = t ≡ []
Closes (suc n) t = (a : Text) × (b : Text) × Balanced a × (t ≡ a ++ b')' ∷ b) × Closes n b

-- One more character that is no bracket, or one more group, before them.
Closes-other :
    (n c : ℕ) (t : Text) → bracket c ≡ no_bracket → Closes (suc n) t → Closes (suc n) (c ∷ t)
Closes-other n c t e (a, b, ba, eq, r) = (c ∷ a, b, other c e ba, ap (λ s. c ∷ s) eq, r)

Closes-group : (n : ℕ) (t : Text) → Closes (suc (suc n)) t → Closes (suc n) (b'(' ∷ t)
Closes-group n t (a, b, ba, eq, (a2, b2, ba2, eq2, r)) = (
  b'(' ∷ (a ++ b')' ∷ a2),
  b2,
  group a a2 ba ba2 refl,
  ap (λ s. b'(' ∷ s) (eq ∙ rw (eq2, append_assoc a (b')' ∷ a2) (b')' ∷ b2))),
  r,
)

Closes-close : (n : ℕ) (t : Text) → Closes n t → Closes (suc n) (b')' ∷ t)
Closes-close n t r = ([], t, nothing, refl, r)

false-ne-true : false ≡ true → ⊥
false-ne-true h = cc

-- A closing bracket ends the text at depth one, and goes on at any other.
close_step :
    (n c : ℕ) (t : Text)
    → ((m : ℕ) → scan_wrapped (pos (suc m)) t ≡ true → Closes (suc m) t)
    → bracket c ≡ close_bracket
    → scan_wrapped (pos (suc n)) (c ∷ t) ≡ true
    → Closes n t
unfolding scan_wrapped dec is_zero
close_step zero c [] ih e h = refl
close_step zero c (x ∷ t) ih e h = absurd (false-ne-true (rw (e, scan_wrapped) at h))
close_step (suc n) c t ih e h = ih n (rw (e, scan_wrapped) at h)

scan-Closes : (n : ℕ) (t : Text) → scan_wrapped (pos (suc n)) t ≡ true → Closes (suc n) t
unfolding scan_wrapped inc dec is_zero
scan-Closes n [] h = cc
scan-Closes n (c ∷ t) h = elim (Bracket-cases (bracket c)) [
  | inl e ↦
      subst (λ x. Closes (suc n) (x ∷ t)) (sym (open_char c e))
        (Closes-group n t (scan-Closes (suc n) t (rw (e, scan_wrapped) at h)))
  | inr (inl e) ↦
      subst (λ x. Closes (suc n) (x ∷ t)) (sym (close_char c e))
        (Closes-close n t (close_step n c t (λ m. scan-Closes m t) e h))
  | inr (inr e) ↦ Closes-other n c t e (scan-Closes n t (rw (e, scan_wrapped) at h))
]

starts_open-cons : (s : Text) → starts_open s ≡ true → (t : Text) × (s ≡ b'(' ∷ t)
unfolding starts_open
starts_open-cons [] h = cc
starts_open-cons (c ∷ t) h = (t, ap (λ x. x ∷ t) (==→≡ c b'(' h))

wrapped_text : (s : Text) → trimmed_is_wrapped s ≡ true → (a : Text) × Balanced a × (s ≡ wrap a)
unfolding trimmed_is_wrapped scan_wrapped inc bracket
wrapped_text s h =
    let (ends, scanned) =
      &&-true {a = starts_open s && ends_close s} {b = scan_wrapped (pos 0) s} h in
    let (opens, _) = &&-true {a = starts_open s} {b = ends_close s} ends in
    let (t, eq) = starts_open-cons s opens in
    let (a, b, ba, e, nil) =
      scan-Closes 0 t (subst (λ x. scan_wrapped (pos 0) x ≡ true) eq scanned) in
    (a, ba, eq ∙ ap (λ x. b'(' ∷ x) (e ∙ ap (λ x. a ++ b')' ∷ x) nil))

ends_close-append : (a : Text) → ends_close (a ++ b')' ∷ []) ≡ true
unfolding ends_close
ends_close-append [] = refl
ends_close-append (c ∷ []) = refl
ends_close-append (c ∷ d ∷ a) = ends_close-append (d ∷ a)

wrap_wrapped : (a : Text) → Balanced a → trimmed_is_wrapped (wrap a) ≡ true
unfolding trimmed_is_wrapped starts_open bracket inc dec is_zero scan_wrapped
wrap_wrapped a b = rw (ends_close-append (b'(' ∷ a), scan-Balanced 0 (b')' ∷ []) b)

-- `isWrappedClause` holds of a text exactly when the text, without the spaces round it, is an
-- opening bracket, a text whose brackets match, and a closing bracket.
pub is_wrapped_clause_iff :
    (s : Text) → (is_wrapped_clause s ≡ true) ↔ ((a : Text) × Balanced a × (trim_space s ≡ wrap a))
unfolding is_wrapped_clause
is_wrapped_clause_iff s = (wrapped_text (trim_space s), λ (a, b, e). rw e (wrap_wrapped a b))
