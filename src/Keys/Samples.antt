-- ===== src/Keys/Samples.antt =====
-- A table of keys in memory that meets the laws of `KeyTable`.
use bc_abe.Common.{
  ℕ, ◌≤◌, true, false, ◌≡◌, refl, sym, subst, arith, inl, inr, List, [], ◌∷◌, ◌==◌, ltb,
  if◌then◌else◌, All, All-map, Option, none, some, Bool-cases,
}
use bc_abe.Text.{Text}
use bc_abe.Chaincode.Stub.{ok, ok-injective}
use bc_abe.Keys.Table.{UserAbeKey, KeyTable, KeyTableLaws, Among, matches}

newer : UserAbeKey → Option UserAbeKey → UserAbeKey
newer row none = row
newer row (some q) = if ltb q.version row.version then row else q

unfoldable pub greatest : ℕ → List Text → List UserAbeKey → Option UserAbeKey
unfolding newer matches
greatest u names [] = none
greatest u names (row ∷ rows) =
    let rest = greatest u names rows in if matches u names row then some (newer row rest) else rest

unfoldable pub of_one_user : ℕ → List UserAbeKey → List UserAbeKey
of_one_user u [] = []
of_one_user u (row ∷ rows) =
    let rest = of_one_user u rows in if row.user_id == u then row ∷ rest else rest

abbrev pub list_table : KeyTable
list_table = record {
  State = List UserAbeKey;
  rows = λ s. s;
  latest = λ u names s. ok (greatest u names s);
  of_user = λ u s. ok (of_one_user u s);
  create = λ row s. ok (row ∷ s);
}

-- What is promised of the row that is found.
abbrev Found : ℕ → List Text → List UserAbeKey → Option UserAbeKey → Type 0
Found u names rows none = All (λ q. matches u names q ≡ false) rows
Found u names rows (some row) =
    All (λ q. matches u names q ≡ true → q.version ≤ row.version) rows × Among row rows

newer-left : (row q : UserAbeKey) → ltb q.version row.version ≡ true → newer row (some q) ≡ row
unfolding newer
newer-left row q t = rw t

newer-right : (row q : UserAbeKey) → ltb q.version row.version ≡ false → newer row (some q) ≡ q
unfolding newer
newer-right row q f = rw f

matched_row :
    (u : ℕ) (names : List Text) (row : UserAbeKey) (rows : List UserAbeKey)
    (rest : Option UserAbeKey)
    → matches u names row ≡ true
    → Found u names rows rest
    → Found u names (row ∷ rows) (some (newer row rest))
unfolding newer
matched_row u names row rows none m h = ((λ _. omega arith, All-map rows (λ q f t. cc) h), inl refl)
matched_row u names row rows (some q) m (h, a) = elim (Bool-cases (ltb q.version row.version)) [
  | inl t ↦
      subst (λ x. Found u names (row ∷ rows) (some x)) (sym (newer-left row q t))
        ((λ _. omega arith, All-map rows (λ x f e. ground (arith, f e)) h), inl refl)
  | inr f ↦
      subst (λ x. Found u names (row ∷ rows) (some x)) (sym (newer-right row q f))
        ((λ _. ground arith, h), inr a)
]

passed_row :
    (u : ℕ) (names : List Text) (row : UserAbeKey) (rows : List UserAbeKey)
    (rest : Option UserAbeKey)
    → matches u names row ≡ false
    → Found u names rows rest
    → Found u names (row ∷ rows) rest
passed_row u names row rows none m h = (m, h)
passed_row u names row rows (some q) m (h, a) = ((λ e. cc, h), inr a)

greatest-Found :
    (u : ℕ) (names : List Text) (rows : List UserAbeKey)
    → Found u names rows (greatest u names rows)
unfolding greatest
greatest-Found u names [] = tt
greatest-Found u names (row ∷ rows) = elim (Bool-cases (matches u names row)) [
  | inl t ↦
      rw t (matched_row u names row rows (greatest u names rows) t (greatest-Found u names rows))
  | inr f ↦
      rw f (passed_row u names row rows (greatest u names rows) f (greatest-Found u names rows))
]

pub list_table-laws : KeyTableLaws list_table
list_table-laws = record {
  rows-create = λ row s s' e. sym (ok-injective (row ∷ s) s' e);
  latest_none = λ u names s e.
      subst (Found u names s) (ok-injective (greatest u names s) none e) (greatest-Found u names s);
  latest_some = λ u names s row e.
      (subst (Found u names s) (ok-injective (greatest u names s) (some row) e)
        (greatest-Found u names s)).0;
  latest_stored = λ u names s row e.
      (subst (Found u names s) (ok-injective (greatest u names s) (some row) e)
        (greatest-Found u names s)).1;
}
