-- ===== src/Policy/Plain.antt =====
-- Plain clauses: texts with no bracket and no join, as the single clauses of a policy are.
use bc_abe.Common.{ℕ, ◌<◌, true, false, ◌≡◌, ◌≢◌, refl, ap, [], ◌∷◌, ◌++◌, arith, length, All, some}
use bc_abe.Text.{Text, is_space, trim_space, trim_left, trim_right, before_trimmed}
use bc_abe.Policy.Scan.{
  ℤ, pos, inc, dec, is_zero, no_bracket, bracket, read_join, stay, move, bracket_move, cut_at_zero,
  scan_wrapped, starts_open, ends_close, is_wrapped_clause, wrap, drop_last, inner_clause,
}
use bc_abe.Text.Solid.{Solid, Solid-append}
use bc_abe.Policy.Run.{run, head_or}

-- Not one of the characters `(`, `)`, `/` and `\`.
abbrev pub IsPlainChar : ℕ → Type 0
IsPlainChar c = (c ≢ b'(') × (c ≢ b')') × (c ≢ b'/') × (c ≢ b'\\')

pub record IsPlain (t : Text) : Type 0 where
  pub clean : All IsPlainChar t
  pub trimmed : trim_space t ≡ t
  pub non_empty : 0 < length t

pub plain-bracket : (c : ℕ) → IsPlainChar c → bracket c ≡ no_bracket
unfolding bracket
plain-bracket c h = ground arith

plain-move : (d : ℤ) (c x : ℕ) → IsPlainChar c → move d c x ≡ stay
unfolding move bracket_move cut_at_zero bracket read_join
plain-move d c x h = ground arith

pub plain-run : (d : ℤ) (t : Text) (n : ℕ) → All IsPlainChar t → run d t n ≡ some d
unfolding run
plain-run d [] n h = refl
plain-run d (c ∷ t) n (p, h) = rw (plain-move d c (head_or n t) p, run) (plain-run d t n h)

pub starts_plain : (t : Text) → IsPlain t → starts_open t ≡ false
unfolding starts_open
starts_plain [] h = refl
starts_plain (c ∷ t) h = ground (arith, h.clean)

pub plain-not-wrapped : (t : Text) → IsPlain t → is_wrapped_clause t ≡ false
unfolding is_wrapped_clause
plain-not-wrapped t h = rw (h.trimmed, starts_plain t h)

-- A text between brackets, none of them inside.
scan_wrapped-plain :
    (t : Text) → All (λ c. bracket c ≡ no_bracket) t → scan_wrapped (pos 1) (t ++ b')' ∷ []) ≡ true
unfolding scan_wrapped bracket inc dec is_zero
scan_wrapped-plain [] h = refl
scan_wrapped-plain (c ∷ t) (e, h) = rw (e, scan_wrapped) (scan_wrapped-plain t h)

ends_close-append : (t : Text) → ends_close (t ++ b')' ∷ []) ≡ true
unfolding ends_close
ends_close-append [] = refl
ends_close-append (c ∷ []) = refl
ends_close-append (c ∷ d ∷ t) = ends_close-append (d ∷ t)

pub drop_last-append : (t : Text) (c : ℕ) → drop_last (t ++ c ∷ []) ≡ t
unfolding drop_last
drop_last-append [] c = refl
drop_last-append (d ∷ []) c = refl
drop_last-append (d ∷ e ∷ t) c = ap (λ s. d ∷ s) (drop_last-append (e ∷ t) c)

pub plain-Solid : (t : Text) → IsPlain t → Solid t
plain-Solid t h = (h.trimmed, h.non_empty)

pub wrap-Solid : (t : Text) → Solid (wrap t)
wrap-Solid t =
    Solid-append (b'(' ∷ []) t (b')' ∷ [])
      (unfold trim_space trim_left trim_right before_trimmed is_space in refl, omega arith)
      (unfold trim_space trim_left trim_right before_trimmed is_space in refl, omega arith)

abbrev pub NoBrackets : Text → Type 0
NoBrackets = All (λ c. bracket c ≡ no_bracket)

pub plain-NoBrackets : (t : Text) → All IsPlainChar t → NoBrackets t
plain-NoBrackets [] h = tt
plain-NoBrackets (c ∷ t) (p, h) = (plain-bracket c p, plain-NoBrackets t h)

inside_move : (c x : ℕ) → bracket c ≡ no_bracket → move (pos 1) c x ≡ stay
unfolding move bracket_move is_zero cut_at_zero
inside_move c x h = rw h

run-inside : (t : Text) (n : ℕ) → NoBrackets t → run (pos 1) (t ++ b')' ∷ []) n ≡ some (pos 0)
unfolding run move bracket_move bracket dec
run-inside [] n h = refl
run-inside (c ∷ t) n (e, h) =
    rw (inside_move c (head_or n (t ++ b')' ∷ [])) e, run) (run-inside t n h)

-- The scanner passes over a bracketed text, whatever joins it holds.
pub run-wrap : (t : Text) (n : ℕ) → NoBrackets t → run (pos 0) (wrap t) n ≡ some (pos 0)
unfolding run move bracket_move bracket inc
run-wrap t n h = run-inside t n h

pub wrap-wrapped : (t : Text) → NoBrackets t → is_wrapped_clause (wrap t) ≡ true
unfolding is_wrapped_clause starts_open inc bracket
wrap-wrapped t h = rw ((wrap-Solid t).0, ends_close-append (b'(' ∷ t), scan_wrapped-plain t h)

pub inner_clause-wrap : (t : Text) → trim_space t ≡ t → inner_clause (wrap t) ≡ t
unfolding inner_clause
inner_clause-wrap t h = rw (drop_last-append t b')', h)
