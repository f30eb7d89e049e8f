-- ===== src/Tests/Authority.antt =====
-- The theorem on auth_admin/main.go at a small certificate authority: a certificate is the text `cert`,
-- a hash is the text itself, and a signature is the text that it signs. The certificate is not that
-- of the user whose key is asked for.
use bc_abe.Common.{
  Bool, ◌==◌, ◌||◌, if◌then◌else◌, none, false, ◌≡◌, refl, inr, List, [], ◌∷◌, ◌++◌, All, is_empty,
  Option, some,
}
use bc_abe.Text.{Text, codes, ◌=ᵗ◌}
use bc_abe.Chaincode.Stub.{ok}
use bc_abe.Authority.Engine.{Mosaic, new_engine}
use bc_abe.Authority.Verify.{Pki, IssueKeyReq, verify_cert_by_ca}
use bc_abe.Authority.Server.{Organization, issued, aborted, handle_issue_key, has_missing_fields}
use bc_abe.Authority.Decrypting.{fill_auth_pubs_from_chain}
use bc_abe.Authority.SameGroup.{SameGroup, names_of, fill_auth_pubs_lem}
use bc_abe.Authority.Accepts.{Accepted, handle_issue_key_lem}

unfoldable pub has_at : Text → Bool
has_at [] = false
has_at (c ∷ t) = c == b'@' || has_at t

-- Everything is a text, and a key is asked for an attribute with `@` alone.
abbrev pub text_mosaic : Mosaic
text_mosaic = record {
  Seed = Text;
  Curve = Text;
  Org = Text;
  AuthPub = Text;
  AuthPrv = Text;
  UserAttrs = Text × Text × Option Text;
  Point = Text;
  new_curve = λ seed. seed;
  new_random_org = λ r curve. r ++ curve;
  new_random_auth = λ r org. (r ++ org, org ++ r);
  new_random_secret = λ r org. r;
  new_random_userkey = λ r user attr prv. if has_at attr then some (user, attr, prv) else none;
  add = λ a b. a;
  org_of_json = λ t. some t;
  org_curve = λ org. some org;
  auth_pub_of_json = λ t. some t;
  auth_prv_of_json = λ t. some t;
  json_of_org = λ t. t;
  json_of_curve = λ t. t;
  json_of_auth_pub = λ p. [];
  json_of_auth_prv = λ p. [];
  json_of_user_attrs = λ key. key.0;
  user_attrs_of_json = λ t. some ([], t, none);
  no_user_attrs = λ user. (user, [], none);
  userkey_names = λ key. key.1 ∷ [];
  coeff_names = λ key. [];
  set_user = λ user key. (user, key.1, key.2);
  set_no_coeff = λ attr key. key;
}

abbrev pub text_pki : Pki
text_pki = record {
  Block = Text;
  Cert = Text;
  PublicKey = Text;
  pem_decode = λ t. some t;
  parse_certificate = λ t. ok t;
  not_before = λ cert. 10;
  not_after = λ cert. 20;
  verify_chain = λ now cert ca. ok tt;
  ecdsa_key = λ cert. some cert;
  verify_asn1 = λ key bytes sig. bytes =ᵗ sig;
  base64_decode = λ t. ok t;
  sha256 = λ bytes. bytes;
  marshal_issue = λ user attribute. user ++ b':' ∷ attribute;
}

abbrev pub org1 : Organization
org1 = record { org_json = codes "org"; auth_pub_json = codes "pub"; auth_prv_json = codes "prv" }

abbrev bob_request : IssueKeyReq
bob_request = record {
  user = codes "bob";
  attribute = codes "Vit@auth0";
  cert_pem = codes "cert of alice";
  signature = codes "bob:Vit@auth0";
  body_hash = codes "bob:Vit@auth0";
}

bob_request-Accepted : Accepted text_pki 15 (codes "ca") bob_request
unfolding verify_cert_by_ca
bob_request-Accepted = (
  inr refl,
  refl,
  (
    codes "cert of alice",
    codes "cert of alice",
    codes "cert of alice",
    codes "bob:Vit@auth0",
    refl,
    refl,
    refl,
    refl,
    refl,
  ),
)

abbrev pub bob_key : Text × Text × Option Text
bob_key = (codes "bob", codes "Vit@auth0", some (codes "prv"))

pub bob_key_made :
    text_mosaic.new_random_userkey [] (codes "bob") (codes "Vit@auth0") (some (codes "prv"))
    ≡ some bob_key
unfolding has_at
bob_key_made = refl

handle_issue_key_example :
    (handle_issue_key text_mosaic text_pki 15
      (codes "ca")
      []
      (some org1)
      (codes "POST")
      (ok bob_request)
      (new_engine text_mosaic (codes "seed"))).1
    ≡ issued bob_key
handle_issue_key_example =
    ((handle_issue_key_lem text_pki text_mosaic 15 (codes "ca") [] org1 bob_request
          (new_engine text_mosaic (codes "seed")) (unfold has_missing_fields in refl)).0
        bob_request-Accepted).0
      bob_key bob_key_made

-- Without an @ the handler panics.
without_at :
    (handle_issue_key text_mosaic text_pki 15
      (codes "ca")
      []
      (some org1)
      (codes "POST")
      (ok (record bob_request {
        attribute = codes "Vit";
        signature = codes "bob:Vit";
        body_hash = codes "bob:Vit";
      }))
      (new_engine text_mosaic (codes "seed"))).1
    ≡ aborted
unfolding handle_issue_key has_at
without_at = refl

-- A key is its own text, and its group is `g`.
abbrev group_of : Text → Option Text
group_of key = some (codes "g")

abbrev read_text : Text → Option Text
read_text t = some t

abbrev two_keys : List (Text × Text)
two_keys = (codes "auth0", codes "k0") ∷ (codes "auth1", codes "k1") ∷ []

abbrev two_names : List Text
two_names = codes "auth1" ∷ codes "auth0" ∷ []

abbrev two_filled : List (Text × Text)
two_filled = (codes "auth1", codes "k1") ∷ (codes "auth0", codes "k0") ∷ []

group-written : (a j : Text) → group_of a ≡ some j → is_empty j ≡ false
group-written a [] h = cc
group-written a (c ∷ j) h = refl

fill_auth_pubs_example :
    (names_of read_text group_of two_filled ≡ two_names)
    × All (SameGroup read_text group_of two_keys (codes "g")) two_filled
fill_auth_pubs_example =
    fill_auth_pubs_lem read_text group_of two_keys two_names two_filled (codes "g") group-written
      (unfold fill_auth_pubs_from_chain in refl)
