-- ===== src/Chaincode/ParamsCodec.antt =====
-- A codec for global parameters that meets `JsonLaws`: their version, the number of their keys, and each
-- text behind its length.
use bc_abe.Common.{ℕ, zero, suc, ◌≡◌, refl, subst, List, [], ◌∷◌, Option, none, some, length}
use bc_abe.Text.{Text}
use bc_abe.Chaincode.Stub.{ok-injective, ok, Json, JsonLaws}
use bc_abe.Chaincode.Contract.{GlobalParams}
use bc_abe.Chaincode.Codec.{◌>>=◌, write, read, read-write, reply_of}

unfoldable pub write_pairs : List (Text × Text) → Text
unfolding write
write_pairs [] = []
write_pairs ((a, b) ∷ m) = write a (write b (write_pairs m))

unfoldable pub read_pairs : ℕ → Text → Option (List (Text × Text))
unfolding read
read_pairs zero s = some []
read_pairs (suc n) s = do
  (a, s1) ← read s
  (b, s2) ← read s1
  m ← read_pairs n s2
  some ((a, b) ∷ m)

read_pairs-write_pairs : (m : List (Text × Text)) → read_pairs (length m) (write_pairs m) ≡ some m
unfolding read_pairs write_pairs
read_pairs-write_pairs [] = refl
read_pairs-write_pairs ((a, b) ∷ m) = simp (read-write, read_pairs-write_pairs m)

unfoldable pub write_params : GlobalParams → Text
unfolding write write_pairs
write_params p =
    p.version
    ∷ length p.org_pub_keys
    ∷ write p.id (write p.curve (write p.updated_at (write_pairs p.org_pub_keys)))

unfoldable pub read_params : Text → Option GlobalParams
unfolding read read_pairs
read_params [] = none
read_params (v ∷ []) = none
read_params (v ∷ n ∷ s) = do
  (id, s1) ← read s
  (curve, s2) ← read s1
  (updated, s3) ← read s2
  m ← read_pairs n s3
  some (record { id = id; version = v; curve = curve; org_pub_keys = m; updated_at = updated })

read_params-write_params : (p : GlobalParams) → read_params (write_params p) ≡ some p
unfolding read_params write_params
read_params-write_params p = simp (read-write, read_pairs-write_pairs)

abbrev pub params_codec : Json GlobalParams
params_codec = record {
  marshal = λ p. ok (write_params p);
  unmarshal = λ t. reply_of (read_params t);
}

pub params-decoded : (p : GlobalParams) → reply_of (read_params (write_params p)) ≡ ok p
unfolding reply_of
params-decoded p = rw (read_params-write_params p)

pub params_codec-laws : JsonLaws params_codec
params_codec-laws = record {
  unmarshal-marshal = λ p t h.
      subst (λ x. reply_of (read_params x) ≡ ok p) (ok-injective (write_params p) t h)
        (params-decoded p);
}
