-- ===== src/Db/Quoted.antt =====
-- utils/db/db.go: what MySQL reads of a name that `quoteIdent` writes.
use bc_abe.Common.{
  ap, ◌∙◌, inl, inr, Bool-cases, Bool, true, false, ◌≡◌, refl, arith, [], ◌∷◌, ◌++◌, append_assoc,
  ◌==◌, if◌then◌else◌, Option, none, some, ℕ,
}
use bc_abe.Text.{Text}
use bc_abe.Db.Dsn.{doubled, quote_ident}

push : ℕ → Option (Text × Text) → Option (Text × Text)
push c none = none
push c (some (name, rest)) = some (c ∷ name, rest)

-- MySQL's quoted identifiers, behind the first backtick: two backticks stand for one, and one ends the
-- identifier. The flag tells that the last character was a backtick that is not paired yet.
unfoldable pub scan_ident : Bool → Text → Option (Text × Text)
unfolding push
scan_ident false [] = none
scan_ident false (c ∷ s) = if c == b'`' then scan_ident true s else push c (scan_ident false s)
scan_ident true [] = some ([], [])
scan_ident true (c ∷ s) = if c == b'`' then push b'`' (scan_ident false s) else some ([], c ∷ s)

unfoldable pub read_ident : Text → Option (Text × Text)
unfolding scan_ident
read_ident [] = none
read_ident (c ∷ s) = if c == b'`' then scan_ident false s else none

unfoldable pub begins_quoted : Text → Bool
begins_quoted [] = false
begins_quoted (c ∷ s) = c == b'`'

scan-doubled :
    (name rest : Text)
    → begins_quoted rest ≡ false
    → scan_ident false (doubled name ++ b'`' ∷ rest) ≡ some (name, rest)
unfolding scan_ident doubled begins_quoted push
scan-doubled [] [] h = refl
scan-doubled [] (c ∷ rest) h = rw h refl
scan-doubled (c ∷ name) rest h = elim (Bool-cases (c == b'`')) [
  | inl t ↦ rw (t, scan-doubled name rest h) (ap (λ x. some (x ∷ name, rest)) (ground arith))
  | inr f ↦ rw f (rw (f, scan-doubled name rest h) refl)
]

tail_appended :
    (name rest : Text) → (doubled name ++ b'`' ∷ []) ++ rest ≡ doubled name ++ b'`' ∷ rest
tail_appended name rest = append_assoc (doubled name) (b'`' ∷ []) rest

-- Whatever name is quoted, in front of whatever text that does not begin with a backtick: MySQL reads
-- the name, and behind it that text. No part of a name is read as a statement.
pub read_ident-quote_ident :
    (name rest : Text)
    → begins_quoted rest ≡ false
    → read_ident (quote_ident name ++ rest) ≡ some (name, rest)
unfolding read_ident quote_ident
read_ident-quote_ident name rest h =
    ap (scan_ident false) (tail_appended name rest) ∙ scan-doubled name rest h
