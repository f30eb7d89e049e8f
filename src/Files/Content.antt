-- ===== src/Files/Content.antt =====
-- user_client/service/file_service.go: the encryption of a file's content by AES-GCM, a parameter, and
-- the name under which a file is kept.
use bc_abe.Common.{
  ℕ, zero, suc, false, ◌≡◌, ◌∙◌, refl, ap, arith, List, [], ◌∷◌, ◌++◌, map, ◌==◌, ltb,
  if◌then◌else◌, is_empty, length,
}
use bc_abe.Text.{Text, codes, trim_space}
use bc_abe.Chaincode.Stub.{Reply, ok}
use bc_abe.Apperr.{sentinel, other, invalid_input}
use bc_abe.Apperr.Answer.{Answer, answer, raise, or_raise}

-- `aes.NewCipher`, `cipher.NewGCM` and the methods of what they return: sealing by a key and a nonce,
-- and opening.
pub record Gcm : Type 0 where
  pub nonce_size : ℕ
  pub seal : Text → List ℕ → List ℕ → List ℕ
  pub open_sealed : Text → List ℕ → List ℕ → Reply (List ℕ)

pub record GcmLaws (gcm : Gcm) : Type 0 where
  pub open-seal :
      (key : Text) (nonce plain : List ℕ)
      → length nonce ≡ gcm.nonce_size
      → gcm.open_sealed key nonce (gcm.seal key nonce plain) ≡ ok plain

-- `s[:n]` and `s[n:]`
unfoldable pub take : ℕ → List ℕ → List ℕ
take zero s = []
take (suc n) [] = []
take (suc n) (b ∷ s) = b ∷ take n s

unfoldable pub drop : ℕ → List ℕ → List ℕ
drop zero s = s
drop (suc n) [] = []
drop (suc n) (b ∷ s) = drop n s

module _ (gcm : Gcm) where
  -- `nonce` is what is drawn, of the size that is asked for.
  unfoldable pub aes_encrypt : Text → List ℕ → List ℕ → List ℕ
  aes_encrypt key nonce plaintext = nonce ++ gcm.seal key nonce plaintext

  unfoldable pub aes_decrypt : Text → List ℕ → Answer (List ℕ)
  unfolding take drop
  aes_decrypt key ciphertext =
      if ltb (length ciphertext) gcm.nonce_size
      then raise (sentinel invalid_input)
      else or_raise other
          (gcm.open_sealed key (take gcm.nonce_size ciphertext) (drop gcm.nonce_size ciphertext))

-- `strings.ReplaceAll(filename, "/", "_")`, and that of a backslash.
unfoldable pub safe_char : ℕ → ℕ
safe_char c = if c == b'/' then b'_' else if c == b'\\' then b'_' else c

unfoldable pub safe_filename : Text → Text
unfolding safe_char trim_space
safe_filename filename0 =
    let filename = trim_space filename0 in
    if is_empty filename then codes "demo.txt" else map safe_char filename

take-append : (a b : List ℕ) → take (length a) (a ++ b) ≡ a
unfolding take
take-append [] b = refl
take-append (x ∷ a) b = ap (λ s. x ∷ s) (take-append a b)

drop-append : (a b : List ℕ) → drop (length a) (a ++ b) ≡ b
unfolding drop
drop-append [] b = refl
drop-append (x ∷ a) b = drop-append a b

not_shorter : (a b : List ℕ) → ltb (length (a ++ b)) (length a) ≡ false
not_shorter [] b = ground arith
not_shorter (x ∷ a) b = ground (arith, not_shorter a b)

-- Behind the test of the length: the nonce and the sealed text are found where they were put.
opening_step :
    (gcm : Gcm) (key : Text) (nonce plain : List ℕ)
    → length nonce ≡ gcm.nonce_size
    → aes_decrypt gcm key (aes_encrypt gcm key nonce plain)
      ≡ or_raise other (gcm.open_sealed key nonce (gcm.seal key nonce plain))
unfolding aes_encrypt aes_decrypt
opening_step gcm key nonce plain h = rw (
  ← h,
  not_shorter nonce (gcm.seal key nonce plain),
  take-append nonce (gcm.seal key nonce plain),
  drop-append nonce (gcm.seal key nonce plain),
)

-- What `aesEncrypt` makes of a text, with a nonce of the size of the cipher, `aesDecrypt` with the same
-- key turns back into the text.
pub aes_decrypt-aes_encrypt :
    (gcm : Gcm) (laws : GcmLaws gcm) (key : Text) (nonce plain : List ℕ)
    → length nonce ≡ gcm.nonce_size
    → aes_decrypt gcm key (aes_encrypt gcm key nonce plain) ≡ answer plain
aes_decrypt-aes_encrypt gcm laws key nonce plain h =
    opening_step gcm key nonce plain h ∙ ap (or_raise other) (laws.open-seal key nonce plain h)
