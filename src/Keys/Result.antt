-- ===== src/Keys/Result.antt =====
-- The errors of user_client/service/attr_format.go and key_service.go, with what the messages name.
use bc_abe.Common.{◌≡◌, ◌⊎◌, inl, inr, refl, ℕ, Option, none, some}
use bc_abe.Text.{Text}

pub data KeyError : Type 0 where
  empty_attribute : KeyError
  bad_hour : KeyError
  bad_number : KeyError
  -- the authority that was asked for, and the organisation of the user
  other_authority : Text → Text → KeyError
  -- the attribute and its authority
  not_registered : Text → Text → KeyError
  -- the attribute, the user's value and the clause
  not_satisfied : Text → ℕ → Text → KeyError
  not_owned : Text → KeyError

pub data Result (A : Type 0) : Type 0 where
  returned : A → Result A
  refused : KeyError → Result A

-- `if err != nil { return ..., err }` before a value.
unfoldable pub unless : {A : Type 0} → Option KeyError → A → Result A
unless none a = returned a
unless (some e) a = refused e

infixl 5 ◌>>=◌
abbrev pub ◌>>=◌ : {A B : Type 0} → Result A → (A → Result B) → Result B
returned a >>= f = f a
refused e >>= f = refused e

-- The returned `err`.
unfoldable pub error_of : {A : Type 0} → Result A → Option KeyError
error_of (returned a) = none
error_of (refused e) = some e

-- The cases of a computed result, as equations.
pub result_cases :
    {A : Type 0} (x : Result A) → ((e : KeyError) × (x ≡ refused e)) ⊎ ((a : A) × (x ≡ returned a))
result_cases (refused e) = inl (e, refl)
result_cases (returned a) = inr (a, refl)
