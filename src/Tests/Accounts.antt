-- ===== src/Tests/Accounts.antt =====
-- The theorem on user_client/service/auth_service.go at a table in memory, with a hash that is the
-- password itself.
use bc_abe.Common.{
  ℕ, suc, ◌≡◌, refl, subst, ==_self, List, [], ◌∷◌, ◌==◌, length, Option, none, some, if◌then◌else◌,
}
use bc_abe.Text.{Text, codes, ◌=ᵗ◌}
use bc_abe.Text.Equality.{=ᵗ_self}
use bc_abe.Chaincode.Stub.{Reply, ok, ok-injective}
use bc_abe.Keys.Accounts.{
  Account, Accounts, AccountsLaws, Enrolment, EnrolmentLaws, MspIds, served, register, login,
  get_user, login-register,
}

by_name : Text → List Account → Option Account
by_name name [] = none
by_name name (a ∷ s) = if a.username =ᵗ name then some a else by_name name s

by_id : ℕ → List Account → Option Account
by_id n [] = none
by_id n (a ∷ s) = if a.id == n then some a else by_id n s

abbrev created : Account → List Account → Reply (ℕ × List Account)
created a s = ok (suc (length s), record a { id = suc (length s) } ∷ s)

abbrev list_db : Accounts
list_db = record {
  State = List Account;
  first_by_name = by_name;
  first_by_id = by_id;
  create = created;
}

list_db-laws : AccountsLaws list_db
unfolding by_name by_id
list_db-laws = record {
  first_by_name-create = λ a s s' n free e.
      subst (λ (q : ℕ × List Account). by_name a.username q.1 ≡ some (record a { id = q.0 }))
        (ok-injective (suc (length s), record a { id = suc (length s) } ∷ s) (n, s') e)
        (rw (=ᵗ_self a.username));
  first_by_id-create = λ a s s' n e.
      subst (λ (q : ℕ × List Account). by_id q.0 q.1 ≡ some (record a { id = q.0 }))
        (ok-injective (suc (length s), record a { id = suc (length s) } ∷ s) (n, s') e)
        (rw (==_self (suc (length s))));
}

abbrev plain : Enrolment
plain = record {
  generate = λ salt password. ok password;
  compare = λ hash password. hash =ᵗ password;
  register_and_enroll = λ org username secret. ok (codes "cert", codes "key");
}

plain-laws : EnrolmentLaws plain
plain-laws = record {
  compare-generate = λ salt password hash e. rw (ok-injective password hash e) (=ᵗ_self hash);
}

abbrev ids : MspIds
ids = record { msp_id_org1 = codes "Org1MSP"; msp_id_org2 = codes "Org2MSP" }

abbrev alice : Account
alice = record {
  id = 1;
  username = codes "alice";
  password_hash = codes "pw";
  org_name = codes "org1";
  attributes = codes "Cry=20";
  cert_pem = codes "cert";
  key_pem = codes "key";
  msp_id = codes "Org1MSP";
}

login-register_example :
    (login list_db plain ids (codes "alice") (codes "pw") (alice ∷ []) ≡ served alice)
    × (get_user list_db plain ids 1 (alice ∷ []) ≡ served alice)
login-register_example =
    login-register list_db plain ids list_db-laws plain-laws [] [] (codes "alice") (codes "pw")
      (codes "org1") (codes "Cry=20") [] alice (alice ∷ []) (unfold register by_name in refl)
