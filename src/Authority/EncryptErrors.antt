-- ===== src/Authority/EncryptErrors.antt =====
-- abe/engine.go: the errors of `Encrypt`, and when it succeeds.
use bc_abe.Common.{
  Bool, true, false, not, ◌≡◌, refl, subst, arith, List, [], ◌∷◌, is_empty, Option, none, some,
}
use bc_abe.Text.{Text}
use bc_abe.Apperr.{
  Error, Kind, is, same_kind, http_status, sentinel, other, wrapped, wrap, invalid_policy,
  unauthorized, not_found,
}
use bc_abe.Apperr.Answer.{Answer, answer, raise, check, ◌>>=◌}
use bc_abe.Policy.Normalize.{normalize_policy_syntax}
use bc_abe.Authority.Engine.{Mosaic}
use bc_abe.Authority.Encrypting.{
  Encryption, encrypt_failed, present, has_curve, all_complete, valid_policy, keys_of,
  engine_encrypt,
}

-- An error, if it is raised, is `ErrInvalidPolicy`.
abbrev pub Refuses : {A : Type 0} → Answer A → Type 0
Refuses (answer a) = Unit
Refuses (raise e) = is e invalid_policy ≡ true

bind-Refuses :
    {A B : Type 0} (x : Answer A) (f : A → Answer B)
    → Refuses x
    → ((a : A) → Refuses (f a))
    → Refuses (x >>= f)
bind-Refuses (answer a) f h k = k a
bind-Refuses (raise e) f h k = h

present-Refuses :
    {A : Type 0} (e : Error) (x : Option A) → is e invalid_policy ≡ true → Refuses (present e x)
present-Refuses e none h = h
present-Refuses e (some a) h = tt

check-Refuses : (e : Error) (b : Bool) → is e invalid_policy ≡ true → Refuses (check e b)
check-Refuses e true h = tt
check-Refuses e false h = h

sentinel-Refuses : is (sentinel invalid_policy) invalid_policy ≡ true
unfolding is
sentinel-Refuses = refl

failed-Refuses : is encrypt_failed invalid_policy ≡ true
unfolding is wrap
failed-Refuses = refl

-- An error is of one kind.
invalid_policy_alone :
    (e : Error)
    → is e invalid_policy ≡ true
    → (is e unauthorized ≡ false) × (is e not_found ≡ false)
unfolding is same_kind
invalid_policy_alone (sentinel k) h = (alone k h, alone_too k h)
  where
    alone : (k : Kind) → same_kind k invalid_policy ≡ true → same_kind k unauthorized ≡ false
    alone unauthorized h = cc
    alone k h = ground arith

    alone_too : (k : Kind) → same_kind k invalid_policy ≡ true → same_kind k not_found ≡ false
    alone_too not_found h = cc
    alone_too k h = ground arith
invalid_policy_alone (other msg) h = cc
invalid_policy_alone (wrapped e msg) h = invalid_policy_alone e h

invalid_policy-http_status : (e : Error) → is e invalid_policy ≡ true → http_status (some e) ≡ 400
unfolding http_status
invalid_policy-http_status e h =
    let (u, n) = invalid_policy_alone e h in rw (u, n, h) (ground arith)

module _ (mosaic : Mosaic) (encryption : Encryption mosaic) where
  open mosaic use {Seed, Point, AuthPub}
  open encryption use {Ciphertext, org_of_auth_pubs, auth_names_of_policy, validate_access_policy}

  valid-Refuses : (x : Option Text) → Refuses (valid_policy mosaic encryption x)
  unfolding valid_policy is wrap
  valid-Refuses none = tt
  valid-Refuses (some t) = refl

  keys-Refuses : (x : Option (List (Text × Option AuthPub))) → Refuses (keys_of mosaic encryption x)
  unfolding keys_of is wrap
  keys-Refuses none = refl
  keys-Refuses (some []) = refl
  keys-Refuses (some (entry ∷ table)) = tt

  encrypt-Refuses :
      (r : Seed) (secret : Option Point) (policy : Text)
      (auth_pubs : Option (List (Text × Option AuthPub)))
      → Refuses (engine_encrypt mosaic encryption r secret policy auth_pubs)
  unfolding engine_encrypt
  encrypt-Refuses r secret policy auth_pubs =
      bind-Refuses (present (sentinel invalid_policy) secret) _
        (present-Refuses _ secret sentinel-Refuses)
        λ point.
          bind-Refuses (present encrypt_failed (normalize_policy_syntax policy)) _
            (present-Refuses _ (normalize_policy_syntax policy) failed-Refuses)
            λ p.
              bind-Refuses (valid_policy mosaic encryption (validate_access_policy p)) _
                (valid-Refuses _)
                λ _.
                  bind-Refuses
                    (check (sentinel invalid_policy) (not (is_empty (auth_names_of_policy p)))) _
                    (check-Refuses _ _ sentinel-Refuses)
                    λ _.
                      bind-Refuses (keys_of mosaic encryption auth_pubs) _ (keys-Refuses auth_pubs)
                        λ table.
                          bind-Refuses
                            (check encrypt_failed
                              (has_curve mosaic encryption (org_of_auth_pubs table)))
                            _ (check-Refuses _ _ failed-Refuses)
                            λ _.
                              bind-Refuses
                                (check encrypt_failed (all_complete mosaic encryption table)) _
                                (check-Refuses _ _ failed-Refuses)
                                λ _.
                                  present-Refuses _ (encryption.encrypt r point p table)
                                    failed-Refuses

  -- Whatever goes wrong in `Encrypt`, a panic of pkg/mosaic or of the rewrites of the policy
  -- included: the error that it returns is one that the client is told with the status 400.
  pub encrypt-http_status :
      (r : Seed) (secret : Option Point) (policy : Text)
      (auth_pubs : Option (List (Text × Option AuthPub))) (e : Error)
      → engine_encrypt mosaic encryption r secret policy auth_pubs ≡ raise e
      → http_status (some e) ≡ 400
  encrypt-http_status r secret policy auth_pubs e h =
      invalid_policy-http_status e (subst Refuses h (encrypt-Refuses r secret policy auth_pubs))
