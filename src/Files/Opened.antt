-- ===== src/Files/Opened.antt =====
-- user_client/service/file_service.go: how `Decrypt` opens the file by the keys of the user.
use bc_abe.Common.{
  some-injective, option_cases, none-ne-some, ℕ, ◌≡◌, refl, sym, ap, ◌∙◌, subst, List, Option, none,
  some, inl, inr,
}
use bc_abe.Text.{Text, codes}
use bc_abe.Chaincode.Stub.{Reply, ok, failed}
use bc_abe.Apperr.{Error, wrap, unauthorized}
use bc_abe.Apperr.Answer.{Answer, answer, raise, bind-answer}
use bc_abe.Authority.Engine.{Mosaic}
use bc_abe.Authority.Encrypting.{Encryption, sym_key_from_secret}
use bc_abe.Authority.Decrypt.{CiphertextData, Decrypted, secret, not_decrypted, engine_decrypt}
use bc_abe.Msp.PrivateKey.{KeyPem}
use bc_abe.Keys.Account.{Config}
use bc_abe.Keys.Accounts.{Account}
use bc_abe.Keys.Table.{KeyTable}
use bc_abe.Keys.Issuing.{Network, Ports}
use bc_abe.Keys.Merge.{merge_user_keys_for_policy}
use bc_abe.Keys.Ensure.{Ensured}
use bc_abe.Files.Content.{Gcm, aes_decrypt}
use bc_abe.Files.Download.{
  DecryptResult, Opening, or_wrapped, or_not_found, open_content, of_decrypted, open_by_keys,
  with_keys,
}

ended :
    {A B : Type 0} (a b : A) (x y : B)
    → ◌≡◌ {A = Option (A × Answer B)} (some (a, answer x)) (some (b, answer y))
    → (a ≡ b) × (x ≡ y)
ended a b x y h = (cc, cc)

or_wrapped-answer :
    {A : Type 0} (e : Error) (x : Answer A) (a : A) → or_wrapped e x ≡ answer a → x ≡ answer a
unfolding or_wrapped
or_wrapped-answer e (answer b) a h = cc
or_wrapped-answer e (raise e') a h = cc

module _ (mosaic : Mosaic) (encryption : Encryption mosaic) (opening : Opening mosaic) where
  open opening use {keys_of_attrs, policy_vars, select, open_ct}

  or_not_found-answer :
      (r : Reply (List ℕ)) (bytes : List ℕ)
      → or_not_found mosaic encryption opening r ≡ answer bytes
      → r ≡ ok bytes
  unfolding or_not_found
  or_not_found-answer (ok b) bytes h = cc
  or_not_found-answer (failed t) bytes h = cc

  -- The file, the key that the secret gives, and the content that the key opens.
  abbrev pub ContentOf : Gcm → Reply (List ℕ) → mosaic.Point → List ℕ → Type 0
  ContentOf gcm file point content =
      (bytes : List ℕ) × (key : Text) × (file ≡ ok bytes)
      × (sym_key_from_secret mosaic encryption (some point) ≡ answer key)
      × (aes_decrypt gcm key bytes ≡ answer content)

  open_content-ContentOf :
      (gcm : Gcm) (file : Reply (List ℕ)) (point : mosaic.Point) (content : List ℕ)
      → open_content mosaic encryption opening gcm file point ≡ answer content
      → ContentOf gcm file point content
  unfolding open_content
  open_content-ContentOf gcm file point content h =
      let (bytes, e1, h1) = bind-answer (or_not_found mosaic encryption opening file) _ content h in
      let (key, e2, h2) =
        bind-answer
          (or_wrapped (wrap unauthorized (codes "derive content key"))
            (sym_key_from_secret mosaic encryption (some point)))
          _ content h1 in
      (
        bytes,
        key,
        or_not_found-answer file bytes e1,
        or_wrapped-answer _ _ key e2,
        or_wrapped-answer _ _ content h2,
      )

  of_decrypted-ContentOf :
      (gcm : Gcm) (file : Reply (List ℕ)) (d : Decrypted mosaic.Point) (content : List ℕ)
      → of_decrypted mosaic encryption opening gcm file d ≡ answer content
      → (point : mosaic.Point) × (d ≡ secret point) × ContentOf gcm file point content
  unfolding of_decrypted
  of_decrypted-ContentOf gcm file (secret point) content h =
      (point, refl, open_content-ContentOf gcm file point content h)
  of_decrypted-ContentOf gcm file (not_decrypted e) content h = cc

  module _ (expansion : Text → List Text) (keys : KeyPem) (net : Network) (cfg : Config)
      (ports : Ports) (table : KeyTable) where
    open table use {State}

    -- The keys of the user that are merged for the policy, and the content that their secret opens.
    abbrev pub OpenedBy :
        Gcm
        → Reply (List ℕ)
        → CiphertextData opening.CipherPoint
        → Account
        → State
        → List ℕ
        → Type 0
    OpenedBy gcm file ct user s content =
        (merged : mosaic.UserAttrs) × (point : mosaic.Point) × (merge_user_keys_for_policy mosaic
            table cfg user.id user.username ct.policy (some user) s
          ≡ some merged)
        × (engine_decrypt policy_vars select open_ct (some ct) (some (keys_of_attrs merged))
            ≡ some (secret point))
        × ContentOf gcm file point content

    open_by_keys-OpenedBy :
        (gcm : Gcm) (file : Reply (List ℕ)) (ct : CiphertextData opening.CipherPoint)
        (user : Account) (s : State) (content : List ℕ)
        → open_by_keys mosaic encryption opening expansion keys net cfg ports table gcm file ct user
            s
          ≡ some (answer content)
        → OpenedBy gcm file ct user s content
    unfolding open_by_keys
    open_by_keys-OpenedBy gcm file ct user s content h =
        elim (option_cases (
          merge_user_keys_for_policy mosaic table cfg user.id user.username ct.policy (some user)
            s)) [
              | inl n ↦ absurd (none-ne-some _ (rw (open_by_keys, n) at h))
              | inr (merged, m) ↦
                  elim (option_cases (
                    engine_decrypt policy_vars select open_ct (some ct)
                      (some (keys_of_attrs merged)))) [
                        | inl n ↦ absurd (none-ne-some _ (rw (open_by_keys, m, n) at h))
                        | inr (d, e) ↦
                            let (point, p, c) =
                              of_decrypted-ContentOf gcm file d content
                                (some-injective _ _ (rw (open_by_keys, m, e) at h)) in
                            (merged, point, m, e ∙ ap some p, c)
                      ]
            ]

    pub with_keys-OpenedBy :
        (gcm : Gcm) (file : Reply (List ℕ)) (ct : CiphertextData opening.CipherPoint)
        (user : Account) (ensured : Ensured State) (s : State) (r : DecryptResult)
        → with_keys mosaic encryption opening expansion keys net cfg ports table gcm file ct user
            ensured
          ≡ some (s, answer r)
        → (ensured.error ≡ none)
          × (ensured.state ≡ s)
          × (r.policy ≡ ct.policy)
          × OpenedBy gcm file ct user ensured.state r.content
    unfolding with_keys
    with_keys-OpenedBy gcm file ct user ensured s r h = elim (option_cases ensured.error) [
      | inr (e, n) ↦ let x = rw (with_keys, n) at h in cc
      | inl n ↦
          elim (option_cases (
            open_by_keys mosaic encryption opening expansion keys net cfg ports table gcm file ct
              user ensured.state)) [
                | inl o ↦ absurd (none-ne-some _ (rw (with_keys, n, o) at h))
                | inr (raise e, o) ↦ let x = rw (with_keys, n, o) at h in cc
                | inr (answer content, o) ↦
                    let (state, result) = ended ensured.state s _ r (rw (with_keys, n, o) at h) in
                    (
                      n,
                      state,
                      sym (ap (λ (x : DecryptResult). x.policy) result),
                      subst (OpenedBy gcm file ct user ensured.state)
                          (ap (λ (x : DecryptResult). x.content) result)
                          (open_by_keys-OpenedBy gcm file ct user ensured.state content o),
                    )
              ]
    ]
