-- ===== src/Common/Measure.antt =====
-- Recursion on a text by its length: `measured body` calls `body` with itself for the recursive
-- calls, on fuel above the length of the text. A body that calls only on shorter texts satisfies
-- its own equation, so the fuel is never used up.
use Prim.Native.Nat.{ℕ, zero, suc, ◌<◌}
use mathlib.Core.Path.{◌≡◌}
use mathlib.Core.List.{List}
use native.Mathlib.Omega.{arith}
use bc_abe.Common.Lists.{length}

module _ {ℓ} {R : Type ℓ} where
  -- What a call returns when the fuel is out is `base`.
  unfoldable pub on_fuel : (List ℕ → R) → ((List ℕ → R) → List ℕ → R) → ℕ → List ℕ → R
  on_fuel base body zero s = base s
  on_fuel base body (suc fuel) s = body (on_fuel base body fuel) s

  unfoldable pub measured : (List ℕ → R) → ((List ℕ → R) → List ℕ → R) → List ℕ → R
  unfolding on_fuel
  measured base body s = on_fuel base body (suc (length s)) s

  -- The body looks at its recursive calls only on texts shorter than its own.
  abbrev pub IsLocal : ((List ℕ → R) → List ℕ → R) → Type ℓ
  IsLocal body =
      (f g : List ℕ → R) (s : List ℕ)
      → ((t : List ℕ) → length t < length s → f t ≡ g t)
      → body f s ≡ body g s

  module _ (body : (List ℕ → R) → List ℕ → R) (loc : IsLocal body) where
    -- On fuel above the length of the text, neither the fuel nor what is returned without fuel
    -- counts.
    pub on_fuel-enough :
        (base other : List ℕ → R) (a b : ℕ) (s : List ℕ)
        → length s < a
        → length s < b
        → on_fuel base body a s ≡ on_fuel other body b s
    unfolding on_fuel
    on_fuel-enough base other zero b s ha hb = absurd (omega arith)
    on_fuel-enough base other (suc a) zero s ha hb = absurd (omega arith)
    on_fuel-enough base other (suc a) (suc b) s ha hb =
        loc _ _ s (λ t h. on_fuel-enough base other a b t (omega arith) (omega arith))

    -- The recursive equation of the source.
    pub measured_lem :
        (base : List ℕ → R) (s : List ℕ) → measured base body s ≡ body (measured base body) s
    unfolding measured
    measured_lem base s =
        loc _ _ s (λ t h.
          on_fuel-enough base base (length s) (suc (length t)) t (omega arith) (omega arith))
