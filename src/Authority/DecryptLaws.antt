-- ===== src/Authority/DecryptLaws.antt =====
-- abe/engine.go: with what `Decrypt` calls `mosaic.Decrypt`.
use bc_abe.Common.{
  some-injective, option_cases, ℕ, zero, suc, ◌≤◌, Bool, true, ◌||◌, ◌≡◌, refl, ap, ◌∙◌, arith, inl,
  inr, ◌⊎◌, List, [], ◌∷◌, length, Option, none, some, Bool-cases, &&-true,
}
use bc_abe.Text.{Text}
use bc_abe.Policy.Scan.{ℤ, pos, negsuc, is_zero}
use bc_abe.Policy.Normalize.{normalize_policy_syntax}
use bc_abe.Policy.Missing.{policy_missing_user_keys, normalize_ciphertext, CiphertextNames}
use bc_abe.Authority.Decrypt.{
  CiphertextData, UserKeys, DecryptError, secret, not_decrypted, normalize_user_attrs, names_of,
  decrypt_selected, decrypt_unless_missing, decrypt_normalized, engine_decrypt,
}
use bc_abe.Authority.Decrypting.{
  rows_of, row_is_full, has_row, coeffs_have_rows, validate_decrypt_inputs,
}

zero_coeff : (coeff : ℤ) → is_zero coeff ≡ true → coeff ≡ pos 0
unfolding is_zero
zero_coeff (pos zero) h = refl
zero_coeff (pos (suc n)) h = cc
zero_coeff (negsuc n) h = cc

or_cases : {a b : Bool} → (a || b) ≡ true → (a ≡ true) ⊎ (b ≡ true)
or_cases {a} {b} h = elim (Bool-cases a) [ inl t ↦ inl t | inr f ↦ inr (ground arith) ]

module _ {P : Type 0} where
  -- `rows[k]` is within the rows, and its indices 0 to 3 are within it.
  abbrev pub RowAt : ℕ → List (List P) → Type 0
  RowAt k [] = ⊥
  RowAt zero (row ∷ rows) = 4 ≤ length row
  RowAt (suc k) (row ∷ rows) = RowAt k rows

  -- Each coefficient that is not 0 has its row, from the one at `k` on.
  abbrev pub Indexed : ℕ → List ℤ → Option (List (List P)) → Type 0
  Indexed k [] rows = Unit
  Indexed k (coeff ∷ cs) none = (coeff ≡ pos 0) × Indexed (suc k) cs none
  Indexed k (coeff ∷ cs) (some rows) =
      ((coeff ≡ pos 0) ⊎ RowAt k rows) × Indexed (suc k) cs (some rows)

  -- So it is for every attribute, with the rows of the ciphertext for it.
  abbrev pub InBounds : List (Text × List (List P)) → List (Text × List ℤ) → Type 0
  InBounds c [] = Unit
  InBounds c ((attr, cs) ∷ coeff) = Indexed 0 cs (rows_of attr c) × InBounds c coeff

  full_row : (k : ℕ) (rows : List (List P)) → row_is_full k rows ≡ true → RowAt k rows
  unfolding row_is_full
  full_row k [] h = cc
  full_row zero (row ∷ rows) h = ground arith
  full_row (suc k) (row ∷ rows) h = full_row k rows h

  indexed :
      (k : ℕ) (cs : List ℤ) (rows : Option (List (List P)))
      → coeffs_have_rows k cs rows ≡ true
      → Indexed k cs rows
  unfolding coeffs_have_rows has_row
  indexed k [] rows h = tt
  indexed k (coeff ∷ cs) none h =
      let (a, b) = &&-true h in
      (elim (or_cases a) [ inl z ↦ zero_coeff coeff z | inr f ↦ cc ], indexed (suc k) cs none b)
  indexed k (coeff ∷ cs) (some rows) h =
      let (a, b) = &&-true h in
      (
        elim (or_cases a) [ inl z ↦ inl (zero_coeff coeff z) | inr f ↦ inr (full_row k rows f) ],
        indexed (suc k) cs (some rows) b,
      )

  pub in_bounds :
      (c : List (Text × List (List P))) (coeff : List (Text × List ℤ))
      → validate_decrypt_inputs c coeff ≡ true
      → InBounds c coeff
  unfolding validate_decrypt_inputs
  in_bounds c [] h = tt
  in_bounds c ((attr, cs) ∷ coeff) h =
      let (a, b) = &&-true h in (indexed 0 cs (rows_of attr c) a, in_bounds c coeff b)

module _ {P K S : Type 0} (policy_vars : Text → List Text) (select : Text → UserKeys K → UserKeys K)
    (open_ct : CiphertextData P → UserKeys K → S) where
  -- What `mosaic.Decrypt` was called with, and that it was safe.
  abbrev pub Opened : CiphertextData P → UserKeys K → S → Type 0
  Opened ct attrs s =
      (p : Text) × (normalize_policy_syntax ct.policy ≡ some p)
      × (policy_missing_user_keys policy_vars p (some (names_of attrs.userkey)) ≡ some [])
      × InBounds ct.c (select p attrs).coeff
      × (s ≡ open_ct ct (select p attrs))

  selected :
      (ct : CiphertextData P) (attrs : UserKeys K) (s : S)
      → decrypt_selected policy_vars select open_ct ct attrs ≡ secret s
      → InBounds ct.c attrs.coeff × (s ≡ open_ct ct attrs)
  unfolding decrypt_selected
  selected ct attrs s h = elim (Bool-cases (validate_decrypt_inputs ct.c attrs.coeff)) [
    | inl t ↦ (in_bounds ct.c attrs.coeff t, same (rw (decrypt_selected, t) at h))
    | inr f ↦ absurd (other (rw (decrypt_selected, f) at h))
  ]
    where
      same : {a b : S} → secret a ≡ secret b → b ≡ a
      same e = cc

      other : {e : DecryptError} {b : S} → not_decrypted e ≡ secret b → ⊥
      other e = cc

  unless_missing :
      (p : Text) (ct : CiphertextData P) (attrs : UserKeys K) (missing : List Text) (s : S)
      → decrypt_unless_missing policy_vars select open_ct p ct attrs missing ≡ secret s
      → (missing ≡ []) × InBounds ct.c (select p attrs).coeff × (s ≡ open_ct ct (select p attrs))
  unfolding decrypt_unless_missing
  unless_missing p ct attrs [] s h = let (b, o) = selected ct (select p attrs) s h in (refl, b, o)
  unless_missing p ct attrs (attr ∷ missing) s h = cc

  normalized-Opened :
      (ct : CiphertextData P) (attrs : UserKeys K) (s : S)
      → decrypt_normalized policy_vars select open_ct ct attrs ≡ some (secret s)
      → Opened ct attrs s
  unfolding decrypt_normalized
  normalized-Opened ct attrs s h = elim (option_cases (normalize_policy_syntax ct.policy)) [
    | inl n ↦ let r = rw (decrypt_normalized, n) at h in cc
    | inr (p, e) ↦
        elim (option_cases
          (policy_missing_user_keys policy_vars p (some (names_of attrs.userkey)))) [
            | inl n ↦ let r = rw (decrypt_normalized, e, n) at h in cc
            | inr (missing, m) ↦
                let (z, b, o) =
                  unless_missing p ct attrs missing s
                    (some-injective _ (secret s) (rw (decrypt_normalized, e, m) at h)) in
                (p, e, m ∙ ap some z, b, o)
          ]
  ]

  -- Where `Decrypt` returns a secret: it is what `mosaic.Decrypt` makes of the ciphertext and the
  -- user's keys with the names of their attributes normalised; the keys lack no attribute of the
  -- policy; and every coefficient that is not 0 has its row of four points or more in the ciphertext,
  -- so that no index is out of range.
  pub engine_decrypt_lem :
      (ct : CiphertextData P) (attrs : UserKeys K) (s : S)
      → engine_decrypt policy_vars select open_ct (some ct) (some attrs) ≡ some (secret s)
      → (names : CiphertextNames (List (List P))) × (normalize_ciphertext
            (record { policy = ct.policy; c = ct.c })
          ≡ some names)
        × Opened (record { policy = names.policy; c = names.c }) (normalize_user_attrs attrs) s
  unfolding engine_decrypt
  engine_decrypt_lem ct attrs s h =
      elim (option_cases (normalize_ciphertext (record { policy = ct.policy; c = ct.c }))) [
        | inl n ↦ let r = rw (engine_decrypt, n) at h in cc
        | inr (names, e) ↦ (
          names,
          e,
          normalized-Opened (record { policy = names.policy; c = names.c })
              (normalize_user_attrs attrs) s (rw (engine_decrypt, e) at h),
        )
      ]
