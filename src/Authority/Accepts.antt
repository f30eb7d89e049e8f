-- ===== src/Authority/Accepts.antt =====
-- auth_admin/main.go: the requests for which `handleIssueKey` issues a key.
use bc_abe.Common.{
  ℕ, Bool, true, false, ◌≡◌, refl, sym, ap, subst, ◌∙◌, inl, inr, ◌⊎◌, List, Option, none, some,
  is_empty, Bool-cases,
}
use bc_abe.Text.{Text, codes}
use bc_abe.Text.Equality.{=ᵗ→≡, =ᵗ_self}
use bc_abe.Chaincode.Stub.{Reply, ok, failed}
use bc_abe.Apperr.{Error}
use bc_abe.Authority.Engine.{
  Mosaic, Engine, issue_user_key, load_auth_from_json, load_org_from_json,
}
use bc_abe.Authority.Verify.{
  Pki, Checked, passed, stopped, ◌>>=◌, present, wrap_reply, require, IssueKeyReq,
  verify_cert_by_ca, verify_signature, verify_request_hash, outdated, verify_user,
}
use bc_abe.Authority.Server.{
  Organization, issued, aborted, handle_issue_key, has_missing_fields, decoded, verified, issue_by,
  loaded, respond,
}

bind-passed :
    {A B : Type 0} (x : Checked A) (f : A → Checked B) (b : B)
    → (x >>= f) ≡ passed b
    → (a : A) × (x ≡ passed a) × (f a ≡ passed b)
bind-passed (passed a) f b h = (a, refl, h)
bind-passed (stopped e) f b h = cc

present-passed :
    {A : Type 0} (e : Error) (x : Option A) (a : A) → present e x ≡ passed a → x ≡ some a
unfolding present
present-passed e none a h = cc
present-passed e (some x) a h = cc

wrap_reply-passed :
    {A : Type 0} (e : Error) (x : Reply A) (a : A) → wrap_reply e x ≡ passed a → x ≡ ok a
unfolding wrap_reply
wrap_reply-passed e (ok x) a h = cc
wrap_reply-passed e (failed t) a h = cc

require-passed : (e : Error) (b : Bool) (t : Unit {0}) → require e b ≡ passed t → b ≡ true
unfolding require
require-passed e true t h = refl
require-passed e false t h = cc

outdated-passed : (x : Checked (Unit {0})) (t : Unit {0}) → outdated x ≡ passed t → x ≡ passed t
unfolding outdated
outdated-passed (passed a) t h = h
outdated-passed (stopped e) t h = cc

module _ (pki : Pki) where
  open pki use {
    Block, Cert, PublicKey, pem_decode, parse_certificate, ecdsa_key, verify_asn1, base64_decode,
    sha256, marshal_issue,
  }

  -- The text is the signature of the bytes by the key of the certificate.
  abbrev pub Signed : Text → Text → List ℕ → Type 0
  Signed cert_pem signature bytes =
      (block : Block) × (cert : Cert) × (key : PublicKey) × (sig : List ℕ) × (pem_decode cert_pem
        ≡ some block)
      × (parse_certificate block ≡ ok cert)
      × (ecdsa_key cert ≡ some key)
      × (base64_decode signature ≡ ok sig)
      × (verify_asn1 key bytes sig ≡ true)

  -- The certificate passes the check against that of the CA, if there is one; the hash is that of the
  -- user and the attribute; the certificate's key signed it.
  abbrev pub Accepted : ℕ → Text → IssueKeyReq → Type 0
  Accepted now ca_cert req =
      ((is_empty ca_cert ≡ true) ⊎ (verify_cert_by_ca pki now req.cert_pem ca_cert ≡ passed tt))
      × (base64_decode req.body_hash ≡ ok (sha256 (marshal_issue req.user req.attribute)))
      × Signed req.cert_pem req.signature (sha256 (marshal_issue req.user req.attribute))

  signature-inv :
      (cert_pem hash sig_b64 : Text) (bytes : List ℕ)
      → base64_decode hash ≡ ok bytes
      → verify_signature pki cert_pem hash sig_b64 ≡ passed tt
      → Signed cert_pem sig_b64 bytes
  unfolding verify_signature
  signature-inv cert_pem hash sig_b64 bytes d h =
      let (block, e1, h1) = bind-passed (present _ (pem_decode cert_pem)) _ tt h in
      let (cert, e2, h2) = bind-passed (wrap_reply _ (parse_certificate block)) _ tt h1 in
      let (key, e3, h3) = bind-passed (present _ (ecdsa_key cert)) _ tt h2 in
      let (body, e4, h4) = bind-passed (wrap_reply _ (base64_decode hash)) _ tt h3 in
      let (sig, e5, h5) = bind-passed (wrap_reply _ (base64_decode sig_b64)) _ tt h4 in
      let same : body ≡ bytes = ok_same body bytes (sym (wrap_reply-passed _ _ body e4) ∙ d) in
      (
        block,
        cert,
        key,
        sig,
        present-passed _ _ block e1,
        wrap_reply-passed _ _ cert e2,
        present-passed _ _ key e3,
        wrap_reply-passed _ _ sig e5,
        subst (λ x. verify_asn1 key x sig ≡ true) same (require-passed _ _ tt h5),
      )
    where
      ok_same : (a b : List ℕ) → ok a ≡ ok b → a ≡ b
      ok_same a b e = cc

  hash-inv :
      (user attribute hash : Text)
      → verify_request_hash pki user attribute hash ≡ passed tt
      → base64_decode hash ≡ ok (sha256 (marshal_issue user attribute))
  unfolding verify_request_hash
  hash-inv user attribute hash h =
      let (actual, e, h1) = bind-passed (wrap_reply _ (base64_decode hash)) _ tt h in
      wrap_reply-passed _ _ actual e
      ∙ ap ok (=ᵗ→≡ actual (sha256 (marshal_issue user attribute)) (require-passed _ _ tt h1))

  accepts :
      (now : ℕ) (ca_cert : Text) (req : IssueKeyReq)
      → verify_user pki now ca_cert req ≡ passed tt
      → Accepted now ca_cert req
  unfolding verify_user
  accepts now ca_cert req h = elim (Bool-cases (is_empty ca_cert)) [
    | inl t ↦
        let (_, e2, h2) =
          bind-passed (verify_request_hash pki req.user req.attribute req.body_hash) _ tt
            (rw t at h) in
        let d = hash-inv req.user req.attribute req.body_hash e2 in
        (inl t, d, signature-inv req.cert_pem req.body_hash req.signature _ d h2)
    | inr f ↦
        let (_, e1, h1) =
          bind-passed (outdated (verify_cert_by_ca pki now req.cert_pem ca_cert)) _ tt
            (rw f at h) in
        let (_, e2, h2) =
          bind-passed (verify_request_hash pki req.user req.attribute req.body_hash) _ tt h1 in
        let d = hash-inv req.user req.attribute req.body_hash e2 in
        (
          inr (outdated-passed _ tt e1),
          d,
          signature-inv req.cert_pem req.body_hash req.signature _ d h2,
        )
  ]

  accepted-Signed :
      (cert_pem hash sig_b64 : Text) (bytes : List ℕ)
      → base64_decode hash ≡ ok bytes
      → Signed cert_pem sig_b64 bytes
      → verify_signature pki cert_pem hash sig_b64 ≡ passed tt
  unfolding verify_signature present wrap_reply require
  accepted-Signed cert_pem hash sig_b64 bytes d (block, cert, key, sig, e1, e2, e3, e4, e5) =
      rw (e1, e2, e3, d, e4, e5)

  accepted_hash :
      (user attribute hash : Text)
      → base64_decode hash ≡ ok (sha256 (marshal_issue user attribute))
      → verify_request_hash pki user attribute hash ≡ passed tt
  unfolding verify_request_hash wrap_reply require
  accepted_hash user attribute hash d = rw (d, =ᵗ_self (sha256 (marshal_issue user attribute)))

  verifies :
      (now : ℕ) (ca_cert : Text) (req : IssueKeyReq)
      → Accepted now ca_cert req
      → verify_user pki now ca_cert req ≡ passed tt
  unfolding verify_user outdated
  verifies now ca_cert req (inl t, d, s) = rw (
    t,
    accepted_hash req.user req.attribute req.body_hash d,
    accepted-Signed req.cert_pem req.body_hash req.signature _ d s,
  )
  verifies now ca_cert req (inr v, d, s) = elim (Bool-cases (is_empty ca_cert)) [
    | inl t ↦ rw (
      t,
      accepted_hash req.user req.attribute req.body_hash d,
      accepted-Signed req.cert_pem req.body_hash req.signature _ d s,
    )
    | inr f ↦ rw (
      f,
      v,
      accepted_hash req.user req.attribute req.body_hash d,
      accepted-Signed req.cert_pem req.body_hash req.signature _ d s,
    )
  ]

  module _ (mosaic : Mosaic) where
    open mosaic use {Seed, UserAttrs, new_random_userkey, auth_prv_of_json}

    -- For a request with all its fields, at a server whose organisation is in the table, let the
    -- request be accepted if its certificate passes the check against that of the CA, where there is
    -- one, its hash is that of the user and the attribute that it names, and its signature is that
    -- of the hash by the certificate's key. If it is accepted, the response is the key that pkg/mosaic
    -- makes by the organisation's authority for this user and this attribute, and there is no
    -- response where pkg/mosaic panics on them; and a response with a key is given to an accepted
    -- request alone.
    pub handle_issue_key_lem :
        (now : ℕ) (ca_cert : Text) (r : Seed) (org : Organization) (req : IssueKeyReq)
        (e : Engine mosaic)
        → has_missing_fields req ≡ false
        → (Accepted now ca_cert req
            → ((key : UserAttrs)
                → new_random_userkey r req.user req.attribute (auth_prv_of_json org.auth_prv_json)
                  ≡ some key
                → (handle_issue_key mosaic pki now ca_cert r (some org) (codes "POST") (ok req) e).1
                  ≡ issued key)
              × (new_random_userkey r req.user req.attribute (auth_prv_of_json org.auth_prv_json)
                    ≡ none
                  → (handle_issue_key mosaic pki now ca_cert r
                      (some org)
                      (codes "POST")
                      (ok req)
                      e).1
                    ≡ aborted))
          × ((key : UserAttrs)
              → (handle_issue_key mosaic pki now ca_cert r (some org) (codes "POST") (ok req) e).1
                ≡ issued key
              → Accepted now ca_cert req)
    unfolding handle_issue_key decoded verified
    handle_issue_key_lem now ca_cert r org req e m = (
      λ a. (
        λ key made.
            unfold issue_by loaded respond issue_user_key load_auth_from_json load_org_from_json in
            rw (m, verifies now ca_cert req a, made),
        λ panic.
            unfold issue_by loaded respond issue_user_key load_auth_from_json load_org_from_json in
            rw (m, verifies now ca_cert req a, panic),
      ),
      λ key h. accepts now ca_cert req (passes (verify_user pki now ca_cert req) (rw m at h)),
    )
      where
        passes :
            (x : Checked (Unit {0})) {key : UserAttrs}
            → (verified mosaic pki r req e (some org) x).1 ≡ issued key
            → x ≡ passed tt
        passes (passed tt) h = refl
        passes (stopped err) h = cc
