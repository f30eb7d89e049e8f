-- ===== src/Files/PathLaws.antt =====
-- user_client/service/file_service.go: `filepath.Join` of the directory of the files and a name.
use bc_abe.Common.{
  ℕ, Bool, true, false, ◌≡◌, refl, sym, ap, ◌∙◌, subst, List, [], ◌∷◌, ◌++◌, ◌==◌, ◌||◌, All,
  list_cases, ◌⊎◌, inl, inr, Bool-cases, is_empty, if◌then◌else◌,
}
use bc_abe.Text.{Text, codes, ◌=ᵗ◌}
use bc_abe.Files.Path.{elements, onto_first, cleaned, joined, is_rooted, or_dot, clean, join}

-- No character of the text is a slash.
abbrev pub SlashFree : Text → Type 0
SlashFree t = All (λ c. (c == b'/') ≡ false) t

elements-SlashFree : (w : Text) → SlashFree w → elements w ≡ w ∷ []
unfolding elements onto_first
elements-SlashFree [] h = refl
elements-SlashFree (c ∷ w) (e, h) = rw (e, elements-SlashFree w h) refl

onto_first-append :
    (c : ℕ) (t w : Text) → onto_first c (elements t ++ w ∷ []) ≡ onto_first c (elements t) ++ w ∷ []
unfolding elements onto_first
onto_first-append c [] w = refl
onto_first-append c (d ∷ t) w = elim (Bool-cases (d == b'/')) [
  | inl e ↦ rw (elements, e) refl
  | inr e ↦ rw (elements, e) (of_first (elements t))
]
  where
    of_first :
        (es : List Text)
        → onto_first c (onto_first d es ++ w ∷ []) ≡ onto_first c (onto_first d es) ++ w ∷ []
    of_first [] = refl
    of_first (v ∷ es) = refl

-- An element behind a slash is the last one.
elements-append : (t w : Text) → SlashFree w → elements (t ++ b'/' ∷ w) ≡ elements t ++ w ∷ []
unfolding elements
elements-append [] w h = rw (elements-SlashFree w h) refl
elements-append (c ∷ t) w h = elim (Bool-cases (c == b'/')) [
  | inl e ↦ rw (e, elements-append t w h) refl
  | inr e ↦ rw (e, elements-append t w h) (onto_first-append c t w)
]

-- An element that is a name of its own.
pub record Proper (w : Text) : Type 0 where
  pub slash_free : SlashFree w
  pub no_dots : (is_empty w || w =ᵗ codes ".") ≡ false
  pub no_parent : (w =ᵗ codes "..") ≡ false

cleaned-append :
    (rooted : Bool) (w : Text) (es kept : List Text)
    → Proper w
    → cleaned rooted kept (es ++ w ∷ []) ≡ w ∷ cleaned rooted kept es
unfolding cleaned
cleaned-append rooted w [] kept proper = rw (proper.no_dots, proper.no_parent) refl
cleaned-append rooted w (e ∷ es) kept proper = cleaned-append rooted w es _ proper

-- The slash in front of a rooted path.
abbrev root_of : Text → Text
root_of t = if is_rooted t then b'/' ∷ [] else []

abbrev pub kept_of : Text → List Text
kept_of t = cleaned (is_rooted t) [] (elements t)

rooted-append : (c : ℕ) (t w : Text) → is_rooted ((c ∷ t) ++ w) ≡ is_rooted (c ∷ t)
unfolding is_rooted
rooted-append c t w = refl

kept-append : (c : ℕ) (t w : Text) → Proper w → kept_of ((c ∷ t) ++ b'/' ∷ w) ≡ w ∷ kept_of (c ∷ t)
kept-append c t w proper =
    ap (λ r. cleaned r [] (elements ((c ∷ t) ++ b'/' ∷ w))) (rooted-append c t (b'/' ∷ w))
    ∙ ap (cleaned (is_rooted (c ∷ t)) []) (elements-append (c ∷ t) w proper.slash_free)
    ∙ cleaned-append (is_rooted (c ∷ t)) w (elements (c ∷ t)) [] proper

abbrev finished : Bool → Text → Text
finished rooted kept = if rooted then b'/' ∷ kept else or_dot kept

clean_step : (p : Text) → clean p ≡ finished (is_rooted p) (joined (kept_of p))
unfolding clean
clean_step p = refl

or_dot-append : (a w : Text) → or_dot (a ++ b'/' ∷ w) ≡ a ++ b'/' ∷ w
unfolding or_dot
or_dot-append [] w = refl
or_dot-append (c ∷ a) w = refl

joined-last : (w v : Text) (ks : List Text) → joined (w ∷ v ∷ ks) ≡ joined (v ∷ ks) ++ b'/' ∷ w
unfolding joined
joined-last w v ks = refl

finished-append :
    (rooted : Bool) (a w : Text)
    → finished rooted (a ++ b'/' ∷ w) ≡ (if rooted then b'/' ∷ [] else []) ++ a ++ b'/' ∷ w
finished-append true a w = refl
finished-append false a w = or_dot-append a w

-- A cleaned path behind whose last slash a proper name stands.
clean-append :
    (c : ℕ) (t w v : Text) (ks : List Text)
    → Proper w
    → kept_of (c ∷ t) ≡ v ∷ ks
    → clean ((c ∷ t) ++ b'/' ∷ w) ≡ root_of (c ∷ t) ++ joined (v ∷ ks) ++ b'/' ∷ w
clean-append c t w v ks proper k =
    clean_step ((c ∷ t) ++ b'/' ∷ w)
    ∙ ap (λ r. finished r (joined (kept_of ((c ∷ t) ++ b'/' ∷ w)))) (rooted-append c t (b'/' ∷ w))
    ∙ ap (λ ws. finished (is_rooted (c ∷ t)) (joined ws))
        (kept-append c t w proper ∙ ap (λ ws. w ∷ ws) k)
    ∙ ap (finished (is_rooted (c ∷ t))) (joined-last w v ks)
    ∙ finished-append (is_rooted (c ∷ t)) (joined (v ∷ ks)) w

clean-alone :
    (c : ℕ) (t w : Text)
    → Proper w
    → kept_of (c ∷ t) ≡ []
    → clean ((c ∷ t) ++ b'/' ∷ w) ≡ finished (is_rooted (c ∷ t)) w
unfolding joined
clean-alone c t w proper k =
    clean_step ((c ∷ t) ++ b'/' ∷ w)
    ∙ ap (λ r. finished r (joined (kept_of ((c ∷ t) ++ b'/' ∷ w)))) (rooted-append c t (b'/' ∷ w))
    ∙ ap (λ ws. finished (is_rooted (c ∷ t)) (joined ws))
        (kept-append c t w proper ∙ ap (λ ws. w ∷ ws) k)

abbrev pub files : Text
files = codes "files"

files-Proper : Proper files
files-Proper = record {
  slash_free = (refl, (refl, (refl, (refl, (refl, tt)))));
  no_dots = refl;
  no_parent = refl;
}

-- The directory of the files ends in its name.
abbrev pub EndsInFiles : Text → Type 0
EndsInFiles dir = (dir ≡ files) ⊎ ((front : Text) × (dir ≡ front ++ b'/' ∷ files))

finished-EndsInFiles : (rooted : Bool) → EndsInFiles (finished rooted files)
unfolding or_dot
finished-EndsInFiles true = inr ([], refl)
finished-EndsInFiles false = inl refl

pub join-EndsInFiles : (data_dir : Text) → EndsInFiles (join data_dir files)
unfolding join
join-EndsInFiles [] = inl (unfold clean elements cleaned joined is_rooted or_dot in refl)
join-EndsInFiles (c ∷ t) = elim (list_cases (kept_of (c ∷ t))) [
  | inl k ↦
      subst EndsInFiles (sym (clean-alone c t files files-Proper k))
        (finished-EndsInFiles (is_rooted (c ∷ t)))
  | inr (v, ks, k) ↦
      inr (root_of (c ∷ t) ++ joined (v ∷ ks), clean-append c t files v ks files-Proper k)
]

-- The path is not empty, and its last element is kept.
abbrev pub KeepsFiles : Text → Type 0
KeepsFiles dir =
    (d : ℕ) × (rest : Text) × (kept : List Text) × (dir ≡ d ∷ rest)
    × (kept_of (d ∷ rest) ≡ files ∷ kept)

pub EndsInFiles-KeepsFiles : (dir : Text) → EndsInFiles dir → KeepsFiles dir
EndsInFiles-KeepsFiles dir (inl e) =
    (b'f', codes "iles", [], e, unfold elements cleaned is_rooted onto_first in refl)
EndsInFiles-KeepsFiles dir (inr ([], e)) =
    (b'/', files, [], e, unfold elements cleaned is_rooted onto_first in refl)
EndsInFiles-KeepsFiles dir (inr (c ∷ front, e)) =
    (c, front ++ b'/' ∷ files, kept_of (c ∷ front), e, kept-append c front files files-Proper)

files_joined :
    (rooted : Bool) (kept : List Text)
    → finished rooted (joined (files ∷ kept))
      ≡ (if rooted then b'/' ∷ [] else []) ++ joined (files ∷ kept)
unfolding joined or_dot
files_joined true kept = refl
files_joined false [] = refl
files_joined false (v ∷ kept) = or_dot-append (joined (v ∷ kept)) files

-- A proper name behind the directory of the files.
pub join-Proper : (dir w : Text) → KeepsFiles dir → Proper w → join dir w ≡ clean dir ++ b'/' ∷ w
unfolding join
join-Proper dir w (d, rest, kept, e, k) proper =
    subst (λ x. join x w ≡ clean x ++ b'/' ∷ w) (sym e)
      (clean-append d rest w files kept proper k
        ∙ ap (λ x. x ++ b'/' ∷ w)
            (sym (
              clean_step (d ∷ rest)
              ∙ ap (λ ws. finished (is_rooted (d ∷ rest)) (joined ws)) k
              ∙ files_joined (is_rooted (d ∷ rest)) kept)))
