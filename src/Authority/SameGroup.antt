-- ===== src/Authority/SameGroup.antt =====
-- abe/engine.go: the authorities that `FillAuthPubsFromChain` puts together.
use bc_abe.Common.{
  false, ◌≡◌, refl, sym, ap, subst, ◌∙◌, inl, inr, List, [], ◌∷◌, All, is_empty, Option, none, some,
  Bool-cases,
}
use bc_abe.Text.{Text, ◌=ᵗ◌}
use bc_abe.Text.Equality.{=ᵗ→≡}
use bc_abe.Authority.Decrypting.{
  Filled, filled, not_filled, ◌>>=◌, key_of, whole_key, read_key, share, fill_from,
  fill_auth_pubs_from_chain, incomplete_key,
}

bind-filled :
    {A B : Type 0} (x : Filled A) (f : A → Filled B) (b : B)
    → (x >>= f) ≡ filled b
    → (a : A) × (x ≡ filled a) × (f a ≡ filled b)
bind-filled (filled a) f b h = (a, refl, h)
bind-filled (not_filled e) f b h = cc

filled-injective : {A : Type 0} (a b : A) → filled a ≡ filled b → a ≡ b
filled-injective a b h = cc

module _ {AuthPub : Type 0} (parse : Text → Option AuthPub) (org_of : AuthPub → Option Text) where
  -- The key of the name on the chain is read as the entry's, which is of the group.
  abbrev pub SameGroup : List (Text × Text) → Text → Text × AuthPub → Type 0
  SameGroup pub_keys org_json (name, auth_pub) =
      (parse (key_of name pub_keys) ≡ some auth_pub) × (org_of auth_pub ≡ some org_json)

  abbrev pub names_of : List (Text × AuthPub) → List Text
  names_of [] = []
  names_of ((name, auth_pub) ∷ table) = name ∷ names_of table

  whole-inv :
      (name : Text) (x : Option AuthPub) (p : AuthPub × Text)
      → whole_key parse org_of name x ≡ filled p
      → (x ≡ some p.0) × (org_of p.0 ≡ some p.1)
  unfolding whole_key
  whole-inv name none p h = cc
  whole-inv name (some a) p h = go (org_of a) refl h
    where
      go :
          (o : Option Text)
          → org_of a ≡ o
          → (elim o [ none ↦ not_filled (incomplete_key name) | some j ↦ filled (a, j) ]) ≡ filled p
          → (some a ≡ some p.0) × (org_of p.0 ≡ some p.1)
      go none e r = cc
      go (some j) e r =
          let same : (a, j) ≡ p = filled-injective (a, j) p r in
          (ap (λ q. some q.0) same, subst (λ q. org_of q.0 ≡ some q.1) same e)

  read-inv :
      (name t : Text) (p : AuthPub × Text)
      → read_key parse org_of name t ≡ filled p
      → (parse t ≡ some p.0) × (org_of p.0 ≡ some p.1)
  unfolding read_key
  read-inv name [] p h = cc
  read-inv name (c ∷ t) p h = whole-inv name (parse (c ∷ t)) p h

  share-inv :
      (name shared org_json s : Text)
      → share parse org_of name shared org_json ≡ filled s
      → is_empty shared ≡ false
      → (s ≡ shared) × (org_json ≡ shared)
  unfolding share
  share-inv name shared org_json s h ne = elim (Bool-cases (org_json =ᵗ shared)) [
    | inl t ↦ (sym (filled-injective shared s (rw (ne, t) at h)), =ᵗ→≡ org_json shared t)
    | inr f ↦ let r = rw (ne, f) at h in cc
  ]

  -- What is promised of the table and of the text that its authorities share.
  abbrev Promise : List (Text × Text) → Text → List Text → List (Text × AuthPub) × Text → Type 0
  Promise pub_keys shared names r =
      (r.1 ≡ shared) × (names_of r.0 ≡ names) × All (SameGroup pub_keys shared) r.0

  with_entry :
      (pub_keys : List (Text × Text)) (shared name : Text) (names : List Text) (p : AuthPub × Text)
      (q r : List (Text × AuthPub) × Text)
      → (parse (key_of name pub_keys) ≡ some p.0) × (org_of p.0 ≡ some p.1)
      → p.1 ≡ shared
      → Promise pub_keys shared names q
      → filled ((name, p.0) ∷ q.0, q.1) ≡ filled r
      → Promise pub_keys shared (name ∷ names) r
  with_entry pub_keys shared name names p q r (e, o) same (l, n, all) h =
      subst (Promise pub_keys shared (name ∷ names)) (filled-injective ((name, p.0) ∷ q.0, q.1) r h)
        (l, ap (λ x. name ∷ x) n, ((e, o ∙ ap some same), all))

  -- One round of the loop that goes on.
  abbrev Round :
      List (Text × Text) → Text → Text → List Text → List (Text × AuthPub) × Text → Type 0
  Round pub_keys shared name names r =
      (p : AuthPub × Text) × (s : Text) × (q : List (Text × AuthPub) × Text) × (read_key parse
          org_of name (key_of name pub_keys)
        ≡ filled p)
      × (share parse org_of name shared p.1 ≡ filled s)
      × (fill_from parse org_of pub_keys s names ≡ filled q)
      × (filled ((name, p.0) ∷ q.0, q.1) ≡ filled r)

  round :
      (pub_keys : List (Text × Text)) (shared name : Text) (names : List Text)
      (r : List (Text × AuthPub) × Text)
      → fill_from parse org_of pub_keys shared (name ∷ names) ≡ filled r
      → Round pub_keys shared name names r
  unfolding fill_from
  round pub_keys shared name names r h =
      let (p, e1, h1) = bind-filled (read_key parse org_of name (key_of name pub_keys)) _ r h in
      let (s, e2, h2) = bind-filled (share parse org_of name shared p.1) _ r h1 in
      let (q, e3, h3) = bind-filled (fill_from parse org_of pub_keys s names) _ r h2 in
      (p, s, q, e1, e2, e3, h3)

  fill_from-SameGroup :
      (pub_keys : List (Text × Text)) (shared : Text) (names : List Text)
      (r : List (Text × AuthPub) × Text)
      → is_empty shared ≡ false
      → fill_from parse org_of pub_keys shared names ≡ filled r
      → Promise pub_keys shared names r
  fill_from-SameGroup pub_keys shared [] r ne h =
      subst (Promise pub_keys shared []) (filled-injective ([], shared) r (unfold fill_from in h))
        (refl, refl, tt)
  fill_from-SameGroup pub_keys shared (name ∷ names) r ne h =
      let (p, s, q, e1, e2, e3, h3) = round pub_keys shared name names r h in
      let (at, same) = share-inv name shared p.1 s e2 ne in
      with_entry pub_keys shared name names p q r (read-inv name (key_of name pub_keys) p e1) same
        (fill_from-SameGroup pub_keys shared names q ne
          (subst (λ x. fill_from parse org_of pub_keys x names ≡ filled q) at e3))
        h3

  -- Where no group is written as the empty text: if `FillAuthPubsFromChain` succeeds, it has filled
  -- every name with the key that the chain has under it, and all these keys are of the one group whose
  -- text it returns.
  pub fill_auth_pubs_lem :
      (pub_keys : List (Text × Text)) (names : List Text) (table : List (Text × AuthPub))
      (org_json : Text)
      → ((a : AuthPub) (j : Text) → org_of a ≡ some j → is_empty j ≡ false)
      → fill_auth_pubs_from_chain parse org_of pub_keys names ≡ filled (table, org_json)
      → (names_of table ≡ names) × All (SameGroup pub_keys org_json) table
  unfolding fill_auth_pubs_from_chain
  fill_auth_pubs_lem pub_keys [] table org_json written h = cc
  fill_auth_pubs_lem pub_keys (name ∷ names) table org_json written h =
      let (p, s, q, e1, e2, e3, h3) = round pub_keys [] name names (table, org_json) h in
      let key = read-inv name (key_of name pub_keys) p e1 in
      let at : p.1 ≡ s = unfold share in filled-injective p.1 s e2 in
      let rest =
        fill_from-SameGroup pub_keys p.1 names q (written p.0 p.1 key.1)
          (subst (λ x. fill_from parse org_of pub_keys x names ≡ filled q) (sym at) e3) in
      let (last, n, all) =
        with_entry pub_keys p.1 name names p q (table, org_json) key refl rest h3 in
      (n, subst (λ j. All (SameGroup pub_keys j) table) (sym last) all)
