-- ===== src/Authority/Engine.antt =====
-- abe/engine.go: the state of the engine, how it is set up and loaded, and the keys that it issues.
-- The types and functions of pkg/mosaic are parameters; `none` is a nil pointer.
use bc_abe.Common.{List, [], ◌∷◌, Option, none, some, if◌then◌else◌}
use bc_abe.Text.{Text, ◌=ᵗ◌}

-- What the engine uses of pkg/mosaic. A `Seed` is what a random choice is made by.
pub record Mosaic : Type 1 where
  pub Seed : Type 0
  pub Curve : Type 0
  pub Org : Type 0
  pub AuthPub : Type 0
  pub AuthPrv : Type 0
  pub UserAttrs : Type 0
  pub Point : Type 0
  pub new_curve : Text → Curve
  pub new_random_org : Seed → Curve → Org
  pub new_random_auth : Seed → Org → AuthPub × AuthPrv
  pub new_random_secret : Seed → Org → Point
  -- `none` is a panic, as for an attribute without `@`.
  pub new_random_userkey : Seed → Text → Text → Option AuthPrv → Option UserAttrs
  pub add : UserAttrs → UserAttrs → UserAttrs
  pub org_of_json : Text → Option Org
  pub org_curve : Org → Option Curve
  pub auth_pub_of_json : Text → Option AuthPub
  pub auth_prv_of_json : Text → Option AuthPrv
  pub json_of_org : Org → Text
  pub json_of_curve : Curve → Text
  pub json_of_auth_pub : Option AuthPub → Text
  pub json_of_auth_prv : Option AuthPrv → Text
  pub json_of_user_attrs : UserAttrs → Text
  pub user_attrs_of_json : Text → Option UserAttrs
  -- `UserAttrs` of a user without keys, the fields of one, and the writes of a field: its `User`, and
  -- the empty `Coeff` of an attribute.
  pub no_user_attrs : Text → UserAttrs
  pub userkey_names : UserAttrs → List Text
  pub coeff_names : UserAttrs → List Text
  pub set_user : Text → UserAttrs → UserAttrs
  pub set_no_coeff : Text → UserAttrs → UserAttrs

-- abe/errors.go
pub data EngineError : Type 0 where
  org_not_init authority_not_init decrypt_input : EngineError

pub data EngineResult (A : Type 0) : Type 0 where
  made : A → EngineResult A
  not_made : EngineError → EngineResult A

module _ (mosaic : Mosaic) where
  open mosaic use {
    Seed, Curve, Org, AuthPub, AuthPrv, UserAttrs, Point, new_curve, new_random_org,
    new_random_auth, new_random_secret, new_random_userkey, add, org_of_json, org_curve,
    auth_pub_of_json, auth_prv_of_json, json_of_org, json_of_curve, json_of_auth_pub,
    json_of_auth_prv,
  }

  pub record AuthKeys : Type 0 where
    pub auth_pub : Option AuthPub
    pub auth_prv : Option AuthPrv

  pub record Engine : Type 0 where
    pub seed : Text
    pub curve : Option Curve
    pub org : Option Org
    pub auth_keys : Option AuthKeys

  unfoldable pub new_engine : Text → Engine
  new_engine seed = record { seed = seed; curve = none; org = none; auth_keys = none }

  unfoldable pub init_org : Seed → Engine → Engine
  init_org r e =
      let curve = new_curve e.seed in
      record e { curve = some curve; org = some (new_random_org r curve) }

  set_authority : Seed → Engine → Option Org → Engine
  set_authority r e none = e
  set_authority r e (some org) =
      let (pub_key, prv_key) = new_random_auth r org in
      record e { auth_keys = some (record { auth_pub = some pub_key; auth_prv = some prv_key }) }

  with_org : Seed → Engine → Option Org → Engine
  unfolding init_org
  with_org r e none = init_org r e
  with_org r e (some org) = e

  -- The first seed is for the organisation where there is none, the second for the authority.
  unfoldable pub init_authority : Seed → Seed → Engine → Engine
  unfolding with_org set_authority
  init_authority r1 r2 e = let e' = with_org r1 e e.org in set_authority r2 e' e'.org

  unfoldable pub auth_pub_json : Engine → Text
  auth_pub_json e = elim e.auth_keys [ none ↦ [] | some keys ↦ json_of_auth_pub keys.auth_pub ]

  unfoldable pub auth_prv_json : Engine → Text
  auth_prv_json e = elim e.auth_keys [ none ↦ [] | some keys ↦ json_of_auth_prv keys.auth_prv ]

  -- `SerializeOrg`
  unfoldable pub serialize_org : Option Org → Text
  serialize_org none = []
  serialize_org (some org) = json_of_org org

  unfoldable pub org_json : Engine → Text
  unfolding serialize_org
  org_json e = serialize_org e.org

  unfoldable pub curve_json : Engine → Text
  curve_json e = elim e.curve [ none ↦ [] | some curve ↦ json_of_curve curve ]

  made_of : Option UserAttrs → Option (EngineResult UserAttrs)
  made_of none = none
  made_of (some key) = some (made key)

  -- `none` is a panic.
  unfoldable pub issue_user_key : Seed → Engine → Text → Text → Option (EngineResult UserAttrs)
  unfolding made_of
  issue_user_key r e user attr = elim e.auth_keys [
    | none ↦ some (not_made authority_not_init)
    | some keys ↦ made_of (new_random_userkey r user attr keys.auth_prv)
  ]

  unfoldable pub merge_user_keys : Option UserAttrs → Option UserAttrs → Option UserAttrs
  merge_user_keys none extra = extra
  merge_user_keys (some base) none = some base
  merge_user_keys (some base) (some extra) = some (add base extra)

  unfoldable pub new_secret : Seed → Engine → EngineResult Point
  new_secret r e = elim e.org [
    | none ↦ not_made org_not_init
    | some org ↦ made (new_random_secret r org)
  ]

  -- The curve stays as it is where the text is read as no organisation.
  unfoldable pub load_org_from_json : Text → Engine → Engine
  load_org_from_json t e = elim (org_of_json t) [
    | none ↦ record e { org = none }
    | some org ↦ record e { org = some org; curve = org_curve org }
  ]

  unfoldable pub load_auth_from_json : Text → Text → Engine → Engine
  load_auth_from_json pub_json prv_json e = record e {
    auth_keys =
        some
          (record { auth_pub = auth_pub_of_json pub_json; auth_prv = auth_prv_of_json prv_json });
  }

  -- `authpubs.AuthPub[authName] = e.authKeys.AuthPub`
  unfoldable pub set_auth_pub :
      Text → Option AuthPub → List (Text × Option AuthPub) → List (Text × Option AuthPub)
  set_auth_pub name key [] = (name, key) ∷ []
  set_auth_pub name key ((n, k) ∷ table) =
      if n =ᵗ name then (name, key) ∷ table else (n, k) ∷ set_auth_pub name key table

  -- A nil map is an empty one here, since it is made before it is written.
  unfoldable pub fill_auth_pub :
      Engine → Text → Option (List (Text × Option AuthPub)) → Option (List (Text × Option AuthPub))
  unfolding set_auth_pub
  fill_auth_pub e auth_name none = none
  fill_auth_pub e auth_name (some table) = elim e.auth_keys [
    | none ↦ some table
    | some keys ↦ some (set_auth_pub auth_name keys.auth_pub table)
  ]
