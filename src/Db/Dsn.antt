-- ===== src/Db/Dsn.antt =====
-- utils/db/db.go: `parseDSN` and `quoteIdent`. The statements themselves are input and output.
use bc_abe.Common.{ℕ, ◌≡◌, refl, Bool, [], ◌∷◌, ◌++◌, ◌==◌, if◌then◌else◌, is_empty, none, some}
use bc_abe.Text.{Text, codes, trim_space, cut_first, cut_last}

pub data DsnError : Type 0 where
  missing_name empty_name : DsnError

pub data ParsedDsn : Type 0 where
  parsed_dsn : Text → Text → ParsedDsn
  dsn_failed : DsnError → ParsedDsn

abbrev pub is_question_mark : ℕ → Bool
is_question_mark c = c == b'?'

abbrev pub is_slash : ℕ → Bool
is_slash c = c == b'/'

-- The text before the first `?`, and the rest from it on.
unfoldable pub base_and_query : Text → Text × Text
unfolding cut_first
base_and_query dsn = elim (cut_first is_question_mark dsn) [
  | none ↦ (dsn, [])
  | some (base, query) ↦ (base, b'?' ∷ query)
]

abbrev pub default_query : Text
default_query = codes "?charset=utf8mb4&parseTime=True&loc=Local"

-- The DSN of the server, and the name of the database.
unfoldable pub name_of_base : Text → Text → ParsedDsn
unfolding cut_last trim_space
name_of_base base query = elim (cut_last is_slash base) [
  | none ↦ dsn_failed missing_name
  | some (server, raw) ↦
      let db_name = trim_space raw in
      if is_empty db_name
      then dsn_failed empty_name
      else parsed_dsn (server ++ b'/' ∷ (if is_empty query then default_query else query)) db_name
]

unfoldable pub parse_dsn : Text → ParsedDsn
unfolding base_and_query name_of_base
parse_dsn dsn = let (base, query) = base_and_query dsn in name_of_base base query

-- `strings.ReplaceAll(name, "`", "``")`
unfoldable pub doubled : Text → Text
doubled [] = []
doubled (c ∷ s) = if c == b'`' then b'`' ∷ b'`' ∷ doubled s else c ∷ doubled s

unfoldable pub quote_ident : Text → Text
unfolding doubled
quote_ident name = b'`' ∷ (doubled name ++ b'`' ∷ [])

a_dsn :
    parse_dsn (codes "root:1@tcp(127.0.0.1:3306)/bc_abe?loc=Local")
    ≡ parsed_dsn (codes "root:1@tcp(127.0.0.1:3306)/?loc=Local") (codes "bc_abe")
unfolding parse_dsn
a_dsn = refl

-- A `?` of the password ends the text in which the name is looked for.
a_password : parse_dsn (codes "root:a?b@tcp(127.0.0.1:3306)/bc_abe") ≡ dsn_failed missing_name
unfolding parse_dsn
a_password = refl
