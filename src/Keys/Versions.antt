-- ===== src/Keys/Versions.antt =====
-- user_client/service/key_service.go: the versions under which keys are stored.
use bc_abe.Common.{
  ℕ, suc, ◌+◌, ◌-◌, ◌≤◌, ◌<◌, ◌^◌, Bool, true, false, ◌&&◌, ◌≡◌, subst, arith, inl, inr, List, [],
  ◌∷◌, ◌==◌, All, All-map, Option, none, some,
}
use bc_abe.Text.{Text, ◌=ᵗ◌}
use bc_abe.Chaincode.Stub.{ok}
use bc_abe.Chaincode.Contract.{next_version}
use bc_abe.Policy.Keys.{is_seen}
use bc_abe.Keys.Table.{
  UserAbeKey, KeyTable, KeyTableLaws, Among, matches, version_after, next_row, store_key,
}

-- Rows of one user, attribute and version.
unfoldable pub same_key : UserAbeKey → UserAbeKey → Bool
same_key p q = q.user_id == p.user_id && q.attribute =ᵗ p.attribute && q.version == p.version

-- No two rows are of one user, attribute and version.
abbrev pub Unique : List UserAbeKey → Type 0
Unique [] = Unit
Unique (row ∷ rows) = All (λ q. same_key row q ≡ false) rows × Unique rows

-- No version is at the end of the range of an `int`.
abbrev pub Bounded : List UserAbeKey → Type 0
Bounded rows = All (λ q. q.version < 2 ^ 63 - 1) rows

differs_first :
    (u : ℕ) (d i j : Text) (v : ℕ) (q : UserAbeKey)
    → matches u (d ∷ i ∷ []) q ≡ false
    → same_key (record { user_id = u; attribute = d; version = v; user_key_json = j }) q ≡ false
unfolding same_key matches is_seen
differs_first u d i j v q h = ground arith

differs_later :
    (u : ℕ) (d i j : Text) (v : ℕ) (q : UserAbeKey)
    → (matches u (d ∷ i ∷ []) q ≡ true → q.version ≤ v)
    → v < 2 ^ 63 - 1
    → same_key
        (record { user_id = u; attribute = d; version = next_version v; user_key_json = j })
        q
      ≡ false
unfolding same_key matches is_seen next_version
differs_later u d i j v q h b = ground arith

Bounded-Among :
    (rows : List UserAbeKey) (row : UserAbeKey)
    → Bounded rows
    → Among row rows
    → row.version < 2 ^ 63 - 1
Bounded-Among [] row h a = absurd a
Bounded-Among (q ∷ rows) row (b, h) (inl e) = subst (λ (x : UserAbeKey). x.version < 2 ^ 63 - 1) e b
Bounded-Among (q ∷ rows) row (b, h) (inr a) = Bounded-Among rows row h a

abbrev AtMost : ℕ → List UserAbeKey → Type 0
AtMost v rows = All (λ q. q.version ≤ v) rows

AtMost-Among :
    (v : ℕ) (rows : List UserAbeKey) (row : UserAbeKey)
    → AtMost v rows
    → Among row rows
    → row.version ≤ v
AtMost-Among v [] row h a = absurd a
AtMost-Among v (q ∷ rows) row (b, h) (inl e) = subst (λ (x : UserAbeKey). x.version ≤ v) e b
AtMost-Among v (q ∷ rows) row (b, h) (inr a) = AtMost-Among v rows row h a

next_version-le : (a v : ℕ) → a ≤ v → next_version a ≤ suc v
unfolding next_version
next_version-le a v h = ground (arith, h)

module _ (table : KeyTable) (laws : KeyTableLaws table) where
  open table use {State, rows, latest}

  new-AtMost :
      (u : ℕ) (d i : Text) (s : State) (found : Option UserAbeKey) (v : ℕ)
      → latest u (d ∷ i ∷ []) s ≡ ok found
      → AtMost v (rows s)
      → version_after (ok found) ≤ suc v
  unfolding version_after
  new-AtMost u d i s none v e b = omega arith
  new-AtMost u d i s (some row) v e b =
      next_version-le row.version v
        (AtMost-Among v (rows s) row b (laws.latest_stored u (d ∷ i ∷ []) s row e))

  -- The row that is created is of no version that is there.
  new-differs :
      (u : ℕ) (d i j : Text) (s : State) (found : Option UserAbeKey)
      → latest u (d ∷ i ∷ []) s ≡ ok found
      → Bounded (rows s)
      → All
          (λ q.
            same_key
              (record {
                user_id = u;
                attribute = d;
                version = version_after (ok found);
                user_key_json = j;
              })
              q
            ≡ false)
          (rows s)
  unfolding version_after
  new-differs u d i j s none e b =
      All-map (rows s) (λ q h. differs_first u d i j 1 q h) (laws.latest_none u (d ∷ i ∷ []) s e)
  new-differs u d i j s (some row) e b =
      All-map (rows s)
        (λ q h.
          differs_later u d i j row.version q h
            (Bounded-Among (rows s) row b (laws.latest_stored u (d ∷ i ∷ []) s row e)))
        (laws.latest_some u (d ∷ i ∷ []) s row e)

  store_key-Unique :
      (u : ℕ) (d i j : Text) (s s' : State) (found : Option UserAbeKey)
      → latest u (d ∷ i ∷ []) s ≡ ok found
      → Bounded (rows s)
      → store_key table u d i j s ≡ ok s'
      → Unique (rows s)
      → Unique (rows s')
  unfolding store_key
  store_key-Unique u d i j s s' found e b h unique =
      rw (laws.rows-create (next_row table u d i j s) s s' h)
        (unfold next_row in rw e (new-differs u d i j s found e b), unique)

  -- The versions behind a key that is stored.
  store_key-AtMost :
      (u : ℕ) (d i j : Text) (s s' : State) (found : Option UserAbeKey) (v : ℕ)
      → latest u (d ∷ i ∷ []) s ≡ ok found
      → AtMost v (rows s)
      → store_key table u d i j s ≡ ok s'
      → AtMost (suc v) (rows s')
  unfolding store_key
  store_key-AtMost u d i j s s' found v e b h =
      rw (laws.rows-create (next_row table u d i j s) s s' h) (
        unfold next_row in rw e (new-AtMost u d i s found v e b),
        All-map (rows s) (λ q le. omega (arith, le)) b,
      )

  -- A key is stored, by any user.
  pub data Step (s s' : State) : Type 0 where
    stored : (u : ℕ) (d i j : Text) → store_key table u d i j s ≡ ok s' → Step s s'

  -- What so many keys lead to that are stored one behind the other.
  pub data Reach (s : State) : ℕ → State → Type 0 where
    here : Reach s 0 s
    next : {n : ℕ} {t u : State} → Reach s n t → Step t u → Reach s (suc n) u

  -- Every query for the latest version succeeds.
  abbrev pub NoFailure : Type 0
  NoFailure =
      (u : ℕ) (names : List Text) (s : State)
      → (found : Option UserAbeKey) × (latest u names s ≡ ok found)

  Reach-both :
      {s s' : State} {n : ℕ} (v : ℕ)
      → NoFailure
      → AtMost v (rows s)
      → v + n < 2 ^ 63 - 1
      → Unique (rows s)
      → Reach s n s'
      → Unique (rows s') × AtMost (v + n) (rows s')
  Reach-both {s} v ok_always b lim h here = (h, All-map (rows s) (λ q le. omega (arith, le)) b)
  Reach-both {s} v ok_always b lim h (next {n} {t} {u} r (stored user d i j k)) =
      let (unique, most) = Reach-both v ok_always b (omega (arith, lim)) h r in
      let (found, e) = ok_always user (d ∷ i ∷ []) t in
      (
        store_key-Unique user d i j t u found e
            (All-map (rows t) (λ q le. omega (arith, lim, le)) most) k unique,
        All-map (rows u) (λ q le. omega (arith, le))
            (store_key-AtMost user d i j t u found (v + n) e most k),
      )

  -- If every query for the latest version succeeds, and `n` keys cannot lead from the versions that are
  -- there beyond the range of an `int`: from a table where no two rows are of one user, attribute and
  -- version, the `n` keys that `issueAndStore` stores, whatever their users and attributes, lead to
  -- such a table.
  pub Reach-Unique :
      {s s' : State} (n v : ℕ)
      → NoFailure
      → All (λ q. q.version ≤ v) (rows s)
      → v + n < 2 ^ 63 - 1
      → Reach s n s'
      → Unique (rows s)
      → Unique (rows s')
  Reach-Unique n v ok_always b lim r h = (Reach-both v ok_always b lim h r).0
