-- ===== src/Chaincode/Stub.antt =====
-- What chaincode/contract.go uses of Hyperledger Fabric and of `encoding/json`: parameters of the
-- model, with the documented behaviour that the theorems rely on as fields.
use bc_abe.Common.{
  ℕ, ◌<◌, length, ◌⊎◌, inl, inr, refl, Bool, true, false, ◌&&◌, ◌||◌, not, ◌≡◌, ◌≢◌, List, [], ◌∷◌,
  Option, none, some, ltb, ◌==◌,
}
use bc_abe.Text.{Text, ◌=ᵗ◌}

-- A Go result `(a, err)`; an error is its message.
pub data Reply (A : Type 0) : Type 0 where
  ok : A → Reply A
  failed : Text → Reply A

pub ok-injective : {A : Type 0} (a b : A) → ok a ≡ ok b → a ≡ b
ok-injective a b h = cc

-- The cases of a computed result, as equations.
pub reply_cases :
    {A : Type 0} (x : Reply A) → ((t : Text) × (x ≡ failed t)) ⊎ ((a : A) × (x ≡ ok a))
reply_cases (failed t) = inl (t, refl)
reply_cases (ok a) = inr (a, refl)

-- `s < t`, the order of the keys.
unfoldable pub text_lt : Text → Text → Bool
text_lt s [] = false
text_lt [] (d ∷ t) = true
text_lt (c ∷ s) (d ∷ t) = ltb c d || (c == d && text_lt s t)

unfoldable pub is_among : Text → List Text → Bool
is_among k [] = false
is_among k (j ∷ ks) = k =ᵗ j || is_among k ks

-- `shim.ChaincodeStubInterface`: the world state that a transaction reads, and the one that it leaves
-- when it is committed. `none` is a nil slice of bytes.
pub record Stub : Type 1 where
  pub State : Type 0
  pub get_state : Text → State → Reply (Option Text)
  pub put_state : Text → Text → State → Reply State
  pub del_state : Text → State → Reply State
  -- The keys that the iterator of `GetStateByRange` returns, and the peer's `totalQueryLimit`, at which
  -- it ends.
  pub query_limit : ℕ
  pub keys_in_range : Text → Text → State → Reply (List Text)

-- A write is read back, and concerns its key alone.
pub record StubLaws (stub : Stub) : Type 0 where
  pub get-put :
      (k v : Text) (s s' : stub.State)
      → stub.put_state k v s ≡ ok s'
      → stub.get_state k s' ≡ ok (some v)
  pub get-put_other :
      (k j v : Text) (s s' : stub.State)
      → stub.put_state k v s ≡ ok s'
      → j ≢ k
      → stub.get_state j s' ≡ stub.get_state j s
  pub get-del :
      (k : Text) (s s' : stub.State) → stub.del_state k s ≡ ok s' → stub.get_state k s' ≡ ok none
  pub get-del_other :
      (k j : Text) (s s' : stub.State)
      → stub.del_state k s ≡ ok s'
      → j ≢ k
      → stub.get_state j s' ≡ stub.get_state j s
  -- A range that is read below the limit holds its start and not its end.
  pub range_iff :
      (lo hi k v : Text) (s : stub.State) (ks : List Text)
      → stub.keys_in_range lo hi s ≡ ok ks
      → length ks < stub.query_limit
      → stub.get_state k s ≡ ok (some v)
      → is_among k ks ≡ not (text_lt k lo) && text_lt k hi
  pub range_stored :
      (lo hi k : Text) (s : stub.State) (ks : List Text)
      → stub.keys_in_range lo hi s ≡ ok ks
      → length ks < stub.query_limit
      → stub.get_state k s ≡ ok none
      → is_among k ks ≡ false

-- `json.Marshal` and `json.Unmarshal` at one type.
pub record Json (A : Type 0) : Type 0 where
  pub marshal : A → Reply Text
  pub unmarshal : Text → Reply A

-- What is marshalled is read back.
pub record JsonLaws {A : Type 0} (json : Json A) : Type 0 where
  pub unmarshal-marshal : (a : A) (t : Text) → json.marshal a ≡ ok t → json.unmarshal t ≡ ok a

pub record Certificate : Type 0 where
  pub common_name : Text
  pub organizational_units : List Text

-- `cid.ClientIdentity`
pub record Identity : Type 0 where
  pub certificate : Reply Certificate
  pub msp_id : Reply Text
