-- ===== src/Apperr/Answer.antt =====
-- Go results `(a, error)` whose error is one of utils/apperr, and the steps from other results.
use bc_abe.Common.{◌⊎◌, inl, inr, ◌≡◌, refl, Bool, true, false}
use bc_abe.Text.{Text}
use bc_abe.Chaincode.Stub.{Reply, ok, failed}
use bc_abe.Apperr.{Error}

pub data Answer (A : Type 0) : Type 0 where
  answer : A → Answer A
  raise : Error → Answer A

infixl 5 ◌>>=◌ ◌>>◌
abbrev pub ◌>>=◌ : {A B : Type 0} → Answer A → (A → Answer B) → Answer B
answer a >>= f = f a
raise e >>= f = raise e

abbrev pub ◌>>◌ : {B : Type 0} → Answer (Unit {0}) → Answer B → Answer B
m >> k = m >>= λ _. k

-- `if err != nil { return ..., e }`, with the error that is returned given the message at hand.
abbrev pub or_raise : {A : Type 0} → (Text → Error) → Reply A → Answer A
or_raise e (ok a) = answer a
or_raise e (failed t) = raise (e t)

-- `if !test { return ..., e }`
abbrev pub check : Error → Bool → Answer (Unit {0})
check e true = answer tt
check e false = raise e

-- Inversion of a chain that succeeds.
pub bind-answer :
    {A B : Type 0} (x : Answer A) (f : A → Answer B) (b : B)
    → (x >>= f) ≡ answer b
    → (a : A) × (x ≡ answer a) × (f a ≡ answer b)
bind-answer (answer a) f b h = (a, refl, h)
bind-answer (raise e) f b h = cc

pub or_raise-answer :
    {A : Type 0} (e : Text → Error) (x : Reply A) (a : A) → or_raise e x ≡ answer a → x ≡ ok a
or_raise-answer e (ok x) a h = cc
or_raise-answer e (failed t) a h = cc

pub check-answer : (e : Error) (b : Bool) (t : Unit {0}) → check e b ≡ answer t → b ≡ true
check-answer e true t h = refl
check-answer e false t h = cc

pub answer-injective : {A : Type 0} (a b : A) → answer a ≡ answer b → a ≡ b
answer-injective a b h = cc

-- The cases of a computed result, as equations.
pub answer_cases :
    {A : Type 0} (x : Answer A) → ((e : Error) × (x ≡ raise e)) ⊎ ((a : A) × (x ≡ answer a))
answer_cases (raise e) = inl (e, refl)
answer_cases (answer a) = inr (a, refl)
