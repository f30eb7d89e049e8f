-- ===== src/Chaincode/Samples.antt =====
-- A world state and a codec that meet the laws of `Stub` and of `Json`: the assumptions on Fabric and
-- on `encoding/json` can be met, and the contract runs on them.
use bc_abe.Common.{
  ◌<◌, length, Bool, true, false, ◌&&◌, not, ◌≡◌, ◌≢◌, refl, ap, subst, List, [], ◌∷◌, Option, none,
  some, if◌then◌else◌, arith, Bool-cases, inl, inr,
}
use bc_abe.Text.{Text, ◌=ᵗ◌}
use bc_abe.Text.Equality.{=ᵗ→≡, =ᵗ_self}
use bc_abe.Chaincode.Stub.{ok-injective, Reply, ok, Stub, StubLaws, text_lt, is_among}

abbrev pub Entries : Type 0
Entries = List (Text × Text)

unfoldable pub find : Text → Entries → Option Text
find k [] = none
find k ((j, v) ∷ s) = if k =ᵗ j then some v else find k s

unfoldable pub without : Text → Entries → Entries
without k [] = []
without k ((j, v) ∷ s) = if k =ᵗ j then without k s else (j, v) ∷ without k s

unfoldable pub in_range : Text → Text → Text → Bool
in_range lo hi k = not (text_lt k lo) && text_lt k hi

unfoldable pub keys_in : Text → Text → Entries → List Text
keys_in lo hi [] = []
keys_in lo hi ((j, v) ∷ s) = if in_range lo hi j then j ∷ keys_in lo hi s else keys_in lo hi s

abbrev pub list_stub : Stub
list_stub = record {
  State = Entries;
  get_state = λ k s. ok (find k s);
  put_state = λ k v s. ok ((k, v) ∷ without k s);
  del_state = λ k s. ok (without k s);
  query_limit = 100000;
  keys_in_range = λ lo hi s. ok (keys_in lo hi s);
}

ne→false : (j k : Text) → j ≢ k → (j =ᵗ k) ≡ false
ne→false j k h = elim (Bool-cases (j =ᵗ k)) [ inl e ↦ absurd (h (=ᵗ→≡ j k e)) | inr n ↦ n ]

find-without_self : (k : Text) (s : Entries) → find k (without k s) ≡ none
unfolding find without
find-without_self k [] = refl
find-without_self k ((j, v) ∷ s) = ground (arith, find-without_self k s)

find-without : (k j : Text) (s : Entries) → j ≢ k → find j (without k s) ≡ find j s
unfolding find without
find-without k j [] h = refl
find-without k j ((i, v) ∷ s) h =
    ground (arith, find-without k j s h, =ᵗ→≡ k i, =ᵗ→≡ j i, =ᵗ_self j, =ᵗ_self k)

among-out :
    (lo hi k : Text) (s : Entries) → in_range lo hi k ≡ false → is_among k (keys_in lo hi s) ≡ false
unfolding keys_in is_among
among-out lo hi k [] h = refl
among-out lo hi k ((j, w) ∷ s) h = elim (Bool-cases (k =ᵗ j)) [
  | inl e ↦ rw (← =ᵗ→≡ k j e, h) (among-out lo hi k s h)
  | inr n ↦ ground (arith, among-out lo hi k s h)
]

among-in : (lo hi k : Text) (s : List Text) → in_range lo hi k ≡ true → is_among k (k ∷ s) ≡ true
unfolding is_among
among-in lo hi k s h = rw (=ᵗ_self k)

-- The key that stands first.
among_first :
    (lo hi k w : Text) (s : Entries) → is_among k (keys_in lo hi ((k, w) ∷ s)) ≡ in_range lo hi k
unfolding keys_in is_among
among_first lo hi k w s = elim (Bool-cases (in_range lo hi k)) [
  | inl e ↦ rw (e, =ᵗ_self k)
  | inr n ↦ rw n (among-out lo hi k s n)
]

among-range :
    (lo hi k v : Text) (s : Entries)
    → find k s ≡ some v
    → is_among k (keys_in lo hi s) ≡ in_range lo hi k
unfolding find keys_in is_among
among-range lo hi k v [] h = cc
among-range lo hi k v ((j, w) ∷ s) h = elim (Bool-cases (k =ᵗ j)) [
  | inl e ↦
      subst (λ x. is_among k (keys_in lo hi ((x, w) ∷ s)) ≡ in_range lo hi k) (=ᵗ→≡ k j e)
        (among_first lo hi k w s)
  | inr n ↦ ground (arith, among-range lo hi k v s)
]

among-none : (lo hi k : Text) (s : Entries) → find k s ≡ none → is_among k (keys_in lo hi s) ≡ false
unfolding find keys_in is_among
among-none lo hi k [] h = refl
among-none lo hi k ((j, w) ∷ s) h = ground (arith, among-none lo hi k s)

via : {A : Type 0} {a b : A} (P : A → Type 0) → ok a ≡ ok b → P a → P b
via P h = subst P (ok-injective _ _ h)

put_law : (k v : Text) (s : Entries) → find k ((k, v) ∷ without k s) ≡ some v
unfolding find
put_law k v s = rw (=ᵗ_self k)

put_other_law : (k j v : Text) (s : Entries) → j ≢ k → find j ((k, v) ∷ without k s) ≡ find j s
unfolding find
put_other_law k j v s h = rw (ne→false j k h) (find-without k j s h)

range_law :
    (lo hi k v : Text) (s : Entries) (ks : List Text)
    → ok (keys_in lo hi s) ≡ ok ks
    → length ks < 100000
    → ok (find k s) ≡ ok (some v)
    → is_among k ks ≡ (not (text_lt k lo) && text_lt k hi)
unfolding in_range
range_law lo hi k v s ks h short f =
    via (λ l. is_among k l ≡ in_range lo hi k) h
      (among-range lo hi k v s (ok-injective (find k s) (some v) f))

pub list_stub-laws : StubLaws list_stub
list_stub-laws = record {
  get-put = λ k v s s' h. via (λ t. ok (find k t) ≡ ok (some v)) h (ap ok (put_law k v s));
  get-put_other = λ k j v s s' h ne.
      via (λ t. ok (find j t) ≡ ok (find j s)) h (ap ok (put_other_law k j v s ne));
  get-del = λ k s s' h.
      via (λ t. ◌≡◌ {A = Reply (Option Text)} (ok (find k t)) (ok none)) h
        (ap ok (find-without_self k s));
  get-del_other =
      λ k j s s' h ne. via (λ t. ok (find j t) ≡ ok (find j s)) h (ap ok (find-without k j s ne));
  range_iff = range_law;
  range_stored = λ lo hi k s ks h short f.
      via (λ l. is_among k l ≡ false) h (among-none lo hi k s (ok-injective (find k s) none f));
}
