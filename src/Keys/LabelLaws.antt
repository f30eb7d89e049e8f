-- ===== src/Keys/LabelLaws.antt =====
-- user_client/service/attr_format.go: what `dedupeLabels` keeps.
use bc_abe.Common.{
  true, false, ◌||◌, ◌≡◌, refl, sym, subst, arith, inl, inr, ◌⊎◌, List, [], ◌∷◌, All, All-map,
  Bool-cases, is_empty,
}
use bc_abe.Text.{Text, trim_space}
use bc_abe.Text.Equality.{=ᵗ_self}
use bc_abe.Policy.Keys.{is_seen}
use bc_abe.Keys.Labels.{dedupe_from, dedupe_labels}

-- The labels are new: none is among `seen`, nor among those before it.
abbrev pub Distinct : List Text → List Text → Type 0
Distinct seen [] = Unit
Distinct seen (l ∷ ls) = (is_seen l seen ≡ false) × Distinct (l ∷ seen) ls

-- The label is, without the spaces round it, one of the texts.
abbrev pub TrimmedFrom : List Text → Text → Type 0
TrimmedFrom [] l = ⊥
TrimmedFrom (t ∷ ts) l = (l ≡ trim_space t) ⊎ TrimmedFrom ts l

-- A label that is kept: not empty, and one of the texts without the spaces round it.
abbrev pub Kept : List Text → Text → Type 0
Kept labels l = (is_empty l ≡ false) × TrimmedFrom labels l

-- A label that is not empty is among those that are kept, or was seen before.
abbrev pub Covered : List Text → List Text → Text → Type 0
Covered seen kept l =
    is_empty (trim_space l) ≡ false
    → (is_seen (trim_space l) kept ≡ true) ⊎ (is_seen (trim_space l) seen ≡ true)

-- The whole of what the loop promises.
abbrev Deduped : List Text → List Text → List Text → Type 0
Deduped seen labels kept =
    Distinct seen kept × All (Kept labels) kept × All (Covered seen kept) labels

later :
    (labels : List Text) (t : Text) (kept : List Text)
    → All (Kept labels) kept
    → All (Kept (t ∷ labels)) kept
later labels t kept h = All-map kept (λ l (e, f). (e, inr f)) h

Covered-later :
    (seen kept : List Text) (l t : Text) → Covered (l ∷ seen) kept t → Covered seen (l ∷ kept) t
unfolding is_seen
Covered-later seen kept l t g e = ground (arith, g e)

dropped :
    (seen labels : List Text) (t : Text)
    → (is_empty (trim_space t) || is_seen (trim_space t) seen) ≡ true
    → Deduped seen labels (dedupe_from seen labels)
    → Deduped seen (t ∷ labels) (dedupe_from seen labels)
dropped seen labels t e (d, k, c) =
    (d, later labels t (dedupe_from seen labels) k, (λ n. inr (ground arith), c))

taken :
    (seen labels : List Text) (t : Text)
    → (is_empty (trim_space t) || is_seen (trim_space t) seen) ≡ false
    → Deduped (trim_space t ∷ seen) labels (dedupe_from (trim_space t ∷ seen) labels)
    → Deduped seen (t ∷ labels) (trim_space t ∷ dedupe_from (trim_space t ∷ seen) labels)
taken seen labels t e (d, k, c) = (
  (ground arith, d),
  ((ground arith, inl refl), later labels t (dedupe_from (trim_space t ∷ seen) labels) k),
  (
    λ n. inl (unfold is_seen in rw (=ᵗ_self (trim_space t))),
    All-map labels
        (λ l g. Covered-later seen (dedupe_from (trim_space t ∷ seen) labels) (trim_space t) l g) c,
  ),
)

dedupe-dropped :
    (seen labels : List Text) (t : Text)
    → (is_empty (trim_space t) || is_seen (trim_space t) seen) ≡ true
    → dedupe_from seen (t ∷ labels) ≡ dedupe_from seen labels
unfolding dedupe_from
dedupe-dropped seen labels t e = rw (dedupe_from, e)

dedupe-taken :
    (seen labels : List Text) (t : Text)
    → (is_empty (trim_space t) || is_seen (trim_space t) seen) ≡ false
    → dedupe_from seen (t ∷ labels) ≡ trim_space t ∷ dedupe_from (trim_space t ∷ seen) labels
unfolding dedupe_from
dedupe-taken seen labels t e = rw (dedupe_from, e)

deduped : (seen labels : List Text) → Deduped seen labels (dedupe_from seen labels)
deduped seen [] = unfold dedupe_from in (tt, tt, tt)
deduped seen (t ∷ labels) =
    elim (Bool-cases (is_empty (trim_space t) || is_seen (trim_space t) seen)) [
      | inl e ↦
          subst (Deduped seen (t ∷ labels)) (sym (dedupe-dropped seen labels t e))
            (dropped seen labels t e (deduped seen labels))
      | inr e ↦
          subst (Deduped seen (t ∷ labels)) (sym (dedupe-taken seen labels t e))
            (taken seen labels t e (deduped (trim_space t ∷ seen) labels))
    ]

-- For every list of labels: those that `dedupeLabels` returns are distinct, each is not empty and is
-- a label of the list without the spaces round it, and every label of the list that is not blank is
-- among them.
pub dedupe_labels_lem :
    (labels : List Text)
    → Distinct [] (dedupe_labels labels)
      × All (Kept labels) (dedupe_labels labels)
      × All (Covered [] (dedupe_labels labels)) labels
unfolding dedupe_labels
dedupe_labels_lem labels = deduped [] labels
