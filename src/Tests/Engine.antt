-- ===== src/Tests/Engine.antt =====
-- The theorems on `Encrypt` and `Decrypt` of abe/engine.go, on texts in place of the types of pkg/mosaic.
use bc_abe.Common.{ℕ, ◌≡◌, refl, List, [], ◌∷◌, none, some}
use bc_abe.Text.{Text, codes}
use bc_abe.Apperr.{http_status}
use bc_abe.Apperr.Answer.{raise}
use bc_abe.Policy.Scan.{pos}
use bc_abe.Policy.Missing.{CiphertextNames, normalize_ciphertext}
use bc_abe.Authority.Encrypting.{Encryption, encrypt_failed, engine_encrypt}
use bc_abe.Authority.EncryptErrors.{encrypt-http_status}
use bc_abe.Authority.Decrypt.{
  CiphertextData, UserKeys, secret, normalize_user_attrs, engine_decrypt,
}
use bc_abe.Authority.DecryptLaws.{Opened, engine_decrypt_lem}
use bc_abe.Tests.Authority.{text_mosaic}

-- Every name has the one authority, and a policy of which is nothing encrypted panics.
abbrev pub text_encryption : Encryption text_mosaic
text_encryption = record {
  Ciphertext = Text;
  validate_access_policy = λ policy. none;
  auth_names_of_policy = λ policy. codes "auth0" ∷ [];
  org_of_auth_pub = λ auth_pub. some (codes "g");
  org_of_auth_pubs = λ table. some (codes "g");
  encrypt = λ seed point policy table. elim point [ [] ↦ none | c ∷ cs ↦ some policy ];
  point_text = λ point. some point;
  sha256 = λ t. t;
}

panicked :
    engine_encrypt text_mosaic text_encryption []
      (some [])
      (codes "Vit@auth0")
      (some ((codes "auth0", some (codes "k")) ∷ []))
    ≡ raise encrypt_failed
unfolding engine_encrypt
panicked = refl

encrypt-http_status_example : http_status (some encrypt_failed) ≡ 400
encrypt-http_status_example =
    encrypt-http_status text_mosaic text_encryption [] (some []) (codes "Vit@auth0")
      (some ((codes "auth0", some (codes "k")) ∷ [])) encrypt_failed panicked

abbrev vit_ct : CiphertextData ℕ
vit_ct = record {
  policy = codes "Vit@auth0";
  c = (codes "Vit@auth0", (1 ∷ 2 ∷ 3 ∷ 4 ∷ []) ∷ []) ∷ [];
}

abbrev vit_keys : UserKeys ℕ
vit_keys = record {
  user = codes "bob";
  coeff = (codes "Vit@auth0", pos 1 ∷ []) ∷ (codes "Cry-31-1@auth0", pos 0 ∷ []) ∷ [];
  userkey = (codes "Vit@auth0", 5) ∷ [];
}

abbrev same_keys : Text → UserKeys ℕ → UserKeys ℕ
same_keys policy attrs = attrs

abbrev vars_of : Text → List Text
vars_of policy = policy ∷ []

abbrev policy_of : CiphertextData ℕ → UserKeys ℕ → Text
policy_of ct attrs = ct.policy

opened :
    engine_decrypt vars_of same_keys policy_of (some vit_ct) (some vit_keys)
    ≡ some (secret (codes "Vit@auth0"))
unfolding engine_decrypt
opened = refl

engine_decrypt_example :
    (names : CiphertextNames (List (List ℕ))) × (normalize_ciphertext
        (record { policy = vit_ct.policy; c = vit_ct.c })
      ≡ some names)
    × Opened vars_of same_keys policy_of
        (record { policy = names.policy; c = names.c })
        (normalize_user_attrs vit_keys)
        (codes "Vit@auth0")
engine_decrypt_example =
    engine_decrypt_lem vars_of same_keys policy_of vit_ct vit_keys (codes "Vit@auth0") opened
