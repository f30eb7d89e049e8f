-- ===== src/Keys/Accounts.antt =====
-- user_client/service/auth_service.go: `Register`, `Login` and `GetUser`. The database, bcrypt and the
-- client of Fabric's certificate authority are parameters, with their documented behaviour.
use bc_abe.Common.{ℕ, Bool, true, ◌≡◌, refl, subst, if◌then◌else◌, Option, none, some}
use bc_abe.Text.{Text, codes, equal_fold}
use bc_abe.Chaincode.Stub.{Reply, ok, failed}
use bc_abe.Apperr.{
  Error, sentinel, other, wrap, unauthorized, not_found, invalid_input, fabric_network,
}

-- `db.UserAccount`
pub record Account : Type 0 where
  pub id : ℕ
  pub username : Text
  pub password_hash : Text
  pub org_name : Text
  pub attributes : Text
  pub cert_pem : Text
  pub key_pem : Text
  pub msp_id : Text

-- The table of accounts. `create` sets the identifier.
pub record Accounts : Type 1 where
  pub State : Type 0
  pub first_by_name : Text → State → Option Account
  pub first_by_id : ℕ → State → Option Account
  pub create : Account → State → Reply (ℕ × State)

-- A row is found by its name and by its identifier once it has been created.
pub record AccountsLaws (db : Accounts) : Type 0 where
  pub first_by_name-create :
      (a : Account) (s s' : db.State) (n : ℕ)
      → db.first_by_name a.username s ≡ none
      → db.create a s ≡ ok (n, s')
      → db.first_by_name a.username s' ≡ some (record a { id = n })
  pub first_by_id-create :
      (a : Account) (s s' : db.State) (n : ℕ)
      → db.create a s ≡ ok (n, s')
      → db.first_by_id n s' ≡ some (record a { id = n })

-- bcrypt, with the salt of a hash as an argument, and `RegisterAndEnroll`.
pub record Enrolment : Type 0 where
  pub generate : Text → Text → Reply Text
  pub compare : Text → Text → Bool
  pub register_and_enroll : Text → Text → Text → Reply (Text × Text)

-- A password is compared with its own hash.
pub record EnrolmentLaws (enrolment : Enrolment) : Type 0 where
  pub compare-generate :
      (salt password hash : Text)
      → enrolment.generate salt password ≡ ok hash
      → enrolment.compare hash password ≡ true

pub record MspIds : Type 0 where
  pub msp_id_org1 : Text
  pub msp_id_org2 : Text

unfoldable pub msp_id_for_org : MspIds → Text → Text
unfolding equal_fold
msp_id_for_org cfg org_name =
    if equal_fold org_name (codes "org2") then cfg.msp_id_org2 else cfg.msp_id_org1

pub data Served (A : Type 0) : Type 0 where
  served : A → Served A
  denied : Error → Served A

module _ (db : Accounts) (enrolment : Enrolment) (cfg : MspIds) where
  open db use {State, first_by_name, first_by_id, create}

  unfoldable pub new_account : Text → Text → Text → Text → Text × Text → Account
  unfolding msp_id_for_org
  new_account username hash org_name attributes (cert, key) = record {
    id = 0;
    username = username;
    password_hash = hash;
    org_name = org_name;
    attributes = attributes;
    cert_pem = cert;
    key_pem = key;
    msp_id = msp_id_for_org cfg org_name;
  }

  unfoldable pub store : State → Account → Served (Account × State)
  unfolding wrap
  store s a = elim (create a s) [
    | failed t ↦ denied (wrap invalid_input (codes "create user"))
    | ok (n, s') ↦ served (record a { id = n }, s')
  ]

  unfoldable pub enroll : Text → Text → Text → Text → Text → State → Served (Account × State)
  unfolding store new_account wrap
  enroll secret username hash org_name attributes s =
      elim (enrolment.register_and_enroll org_name username secret) [
        | failed t ↦ denied (wrap fabric_network (codes "fabric-ca enroll"))
        | ok identity ↦ store s (new_account username hash org_name attributes identity)
      ]

  -- `salt` and `secret` are what bcrypt and `randomSecret` draw.
  unfoldable pub register :
      Text → Text → Text → Text → Text → Text → State → Served (Account × State)
  unfolding enroll wrap
  register salt secret username password org_name attributes s = elim (first_by_name username s) [
    | some dup ↦ denied (wrap invalid_input (codes "create user"))
    | none ↦ elim (enrolment.generate salt password) [
      | failed t ↦ denied (other t)
      | ok hash ↦ enroll secret username hash org_name attributes s
    ]
  ]

  unfoldable pub login : Text → Text → State → Served Account
  login username password s = elim (first_by_name username s) [
    | none ↦ denied (sentinel unauthorized)
    | some user ↦
        if enrolment.compare user.password_hash password
        then served user
        else denied (sentinel unauthorized)
  ]

  unfoldable pub get_user : ℕ → State → Served Account
  get_user user_id s = elim (first_by_id user_id s) [
    | none ↦ denied (sentinel not_found)
    | some user ↦ served user
  ]

  module _ (db_laws : AccountsLaws db) (laws : EnrolmentLaws enrolment) where
    served-injective : (a b : Account × State) → served a ≡ served b → a ≡ b
    served-injective a b h = cc

    abbrev Stored : Text → Text → State → Account × State → Type 0
    Stored username password s r =
        (login username password r.1 ≡ served r.0) × (get_user r.0.id r.1 ≡ served r.0)

    login_found :
        (username password : Text) (s : State) (a : Account)
        → first_by_name username s ≡ some a
        → enrolment.compare a.password_hash password ≡ true
        → login username password s ≡ served a
    unfolding login
    login_found username password s a e matches = rw (login, e, matches)

    found_by_id :
        (n : ℕ) (s : State) (a : Account) → first_by_id n s ≡ some a → get_user n s ≡ served a
    unfolding get_user
    found_by_id n s a e = rw (get_user, e)

    stored :
        (a : Account) (password : Text) (s : State) (r : Account × State)
        → first_by_name a.username s ≡ none
        → enrolment.compare a.password_hash password ≡ true
        → store s a ≡ served r
        → Stored a.username password s r
    stored a password s r free matches h = go (create a s) refl (unfold store in h)
      where
        go :
            (c : Reply (ℕ × State))
            → create a s ≡ c
            → (elim c [
              | failed t ↦ denied (wrap invalid_input (codes "create user"))
              | ok (n, s') ↦ served (record a { id = n }, s')
            ])
              ≡ served r
            → Stored a.username password s r
        go (failed t) e k = cc
        go (ok (n, s')) e k =
            subst (Stored a.username password s) (served-injective (record a { id = n }, s') r k) (
              login_found a.username password s' (record a { id = n })
                  (db_laws.first_by_name-create a s s' n free e) matches,
              found_by_id n s' (record a { id = n }) (db_laws.first_by_id-create a s s' n e),
            )

    enrolled :
        (secret username hash password org_name attributes : Text) (s : State) (r : Account × State)
        → first_by_name username s ≡ none
        → enrolment.compare hash password ≡ true
        → enroll secret username hash org_name attributes s ≡ served r
        → Stored username password s r
    enrolled secret username hash password org_name attributes s r free matches h =
        go (enrolment.register_and_enroll org_name username secret) (unfold enroll in h)
      where
        go :
            (c : Reply (Text × Text))
            → (elim c [
              | failed t ↦ denied (wrap fabric_network (codes "fabric-ca enroll"))
              | ok identity ↦ store s (new_account username hash org_name attributes identity)
            ])
              ≡ served r
            → Stored username password s r
        go (failed t) k = cc
        go (ok identity) k =
            unfold new_account in
            stored (new_account username hash org_name attributes identity) password s r free
              matches k

    -- After a successful `Register`: `Login` with the same name and password returns the account that
    -- was registered, and so does `GetUser` with its identifier.
    pub login-register :
        (salt secret username password org_name attributes : Text) (s : State) (user : Account)
        (s' : State)
        → register salt secret username password org_name attributes s ≡ served (user, s')
        → (login username password s' ≡ served user) × (get_user user.id s' ≡ served user)
    login-register salt secret username password org_name attributes s user s' h =
        go (first_by_name username s) refl (enrolment.generate salt password) refl
          (unfold register in h)
      where
        go :
            (f : Option Account)
            → first_by_name username s ≡ f
            → (g : Reply Text) → enrolment.generate salt password ≡ g
            → (elim f [
              | some dup ↦ denied (wrap invalid_input (codes "create user"))
              | none ↦ elim g [
                | failed t ↦ denied (other t)
                | ok hash ↦ enroll secret username hash org_name attributes s
              ]
            ])
              ≡ served (user, s')
            → Stored username password s (user, s')
        go (some dup) e g e2 k = cc
        go none e (failed t) e2 k = cc
        go none e (ok hash) e2 k =
            enrolled secret username hash password org_name attributes s (user, s') e
              (laws.compare-generate salt password hash e2) k
