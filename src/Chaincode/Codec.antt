-- ===== src/Chaincode/Codec.antt =====
-- A codec for assets that meets `JsonLaws`: each text behind its length.
use bc_abe.Common.{ℕ, zero, suc, ◌≡◌, refl, subst, [], ◌∷◌, ◌++◌, Option, none, some, length}
use bc_abe.Text.{Text}
use bc_abe.Chaincode.Stub.{ok-injective, Reply, ok, failed, Json, JsonLaws}
use bc_abe.Chaincode.Contract.{CiphertextAsset}

infixl 5 ◌>>=◌
abbrev pub ◌>>=◌ : {A B : Type 0} → Option A → (A → Option B) → Option B
none >>= f = none
some a >>= f = f a

unfoldable pub write : Text → Text → Text
write t rest = length t ∷ (t ++ rest)

push : ℕ → Option (Text × Text) → Option (Text × Text)
push c none = none
push c (some (a, b)) = some (c ∷ a, b)

take_text : ℕ → Text → Option (Text × Text)
unfolding push
take_text zero s = some ([], s)
take_text (suc n) [] = none
take_text (suc n) (c ∷ s) = push c (take_text n s)

unfoldable pub read : Text → Option (Text × Text)
unfolding take_text
read [] = none
read (n ∷ s) = take_text n s

take_text-append : (t rest : Text) → take_text (length t) (t ++ rest) ≡ some (t, rest)
unfolding take_text
take_text-append [] rest = refl
take_text-append (c ∷ t) rest = rw (take_text-append t rest)

pub read-write : (t rest : Text) → read (write t rest) ≡ some (t, rest)
unfolding read write
read-write t rest = take_text-append t rest

unfoldable pub write_asset : CiphertextAsset → Text
unfolding write
write_asset a =
    a.version
    ∷ write a.id (
        write a.policy
          (write a.ciphertext (write a.owner (write a.created_at (write a.updated_at [])))))

unfoldable pub read_asset : Text → Option CiphertextAsset
unfolding read
read_asset [] = none
read_asset (v ∷ s) = do
  (id, s1) ← read s
  (policy, s2) ← read s1
  (ciphertext, s3) ← read s2
  (owner, s4) ← read s3
  (created, s5) ← read s4
  (updated, s6) ← read s5
  some (record {
    id = id;
    version = v;
    policy = policy;
    ciphertext = ciphertext;
    owner = owner;
    created_at = created;
    updated_at = updated;
  })

read-asset : (a : CiphertextAsset) → read_asset (write_asset a) ≡ some a
unfolding read_asset write_asset
read-asset a = simp read-write

unfoldable pub reply_of : {A : Type 0} → Option A → Reply A
reply_of none = failed []
reply_of (some a) = ok a

abbrev pub asset_codec : Json CiphertextAsset
asset_codec = record { marshal = λ a. ok (write_asset a); unmarshal = λ t. reply_of (read_asset t) }

decoded : (a : CiphertextAsset) → reply_of (read_asset (write_asset a)) ≡ ok a
unfolding reply_of
decoded a = rw (read-asset a)

pub asset_codec-laws : JsonLaws asset_codec
asset_codec-laws = record {
  unmarshal-marshal = λ a t h.
      subst (λ x. reply_of (read_asset x) ≡ ok a) (ok-injective (write_asset a) t h) (decoded a);
}

-- Codecs for which no law is needed.
abbrev pub failing : (A : Type 0) → Json A
failing A = record { marshal = λ a. failed []; unmarshal = λ t. failed [] }
