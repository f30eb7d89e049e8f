-- ===== src/Files/Inside.antt =====
-- user_client/service/file_service.go: where the files of `Encrypt` lie.
use bc_abe.Common.{
  ℕ, ◌<◌, false, ◌≡◌, refl, ap, arith, [], ◌∷◌, ◌++◌, ◌==◌, map, All-append, length-append, inl,
  inr, Bool-cases, length, is_empty,
}
use bc_abe.Text.{Text, codes, ◌=ᵗ◌, trim_space}
use bc_abe.Text.Equality.{=ᵗ→≡}
use bc_abe.Files.Path.{clean, join}
use bc_abe.Files.PathLaws.{
  SlashFree, Proper, files, join-EndsInFiles, EndsInFiles-KeepsFiles, join-Proper,
}
use bc_abe.Files.Content.{safe_char, safe_filename}
use bc_abe.Files.Assets.{file_name}

long-Proper : (w : Text) → 2 < length w → SlashFree w → Proper w
long-Proper [] h s = absurd (omega arith)
long-Proper (c ∷ w) h s = record { slash_free = s; no_dots = no_dot; no_parent = no_up }
  where
    too_long : (n : ℕ) → length (c ∷ w) ≡ n → n < 3 → ⊥
    too_long n e small = omega (arith, e, h, small)

    no_dot : ((c ∷ w) =ᵗ codes ".") ≡ false
    no_dot = elim (Bool-cases ((c ∷ w) =ᵗ codes ".")) [
      | inl e ↦ absurd (too_long 1 (ap length (=ᵗ→≡ (c ∷ w) (codes ".") e)) (omega arith))
      | inr e ↦ e
    ]

    no_up : ((c ∷ w) =ᵗ codes "..") ≡ false
    no_up = elim (Bool-cases ((c ∷ w) =ᵗ codes "..")) [
      | inl e ↦ absurd (too_long 2 (ap length (=ᵗ→≡ (c ∷ w) (codes "..") e)) (omega arith))
      | inr e ↦ e
    ]

safe_char-SlashFree : (c : ℕ) → (safe_char c == b'/') ≡ false
unfolding safe_char
safe_char-SlashFree c = ground arith

map-safe_char-SlashFree : (t : Text) → SlashFree (map safe_char t)
map-safe_char-SlashFree [] = tt
map-safe_char-SlashFree (c ∷ t) = (safe_char-SlashFree c, map-safe_char-SlashFree t)

safe_filename-SlashFree : (filename : Text) → SlashFree (safe_filename filename)
unfolding safe_filename
safe_filename-SlashFree filename = elim (Bool-cases (is_empty (trim_space filename))) [
  | inl e ↦ rw (safe_filename, e) (refl, (refl, (refl, (refl, (refl, (refl, (refl, (refl, tt))))))))
  | inr e ↦ rw (safe_filename, e) (map-safe_char-SlashFree (trim_space filename))
]

-- The identifier that `Encrypt` makes of the time and the name of a file.
abbrev pub new_asset_id : Text → Text → Text
new_asset_id stamp filename = stamp ++ b'-' ∷ safe_filename filename

id-Proper :
    (stamp filename : Text) → SlashFree stamp → Proper (new_asset_id stamp filename ++ codes ".bin")
id-Proper stamp filename h =
    long-Proper _ (omega (arith, length-append (new_asset_id stamp filename) (codes ".bin"))) (
      All-append (λ c. (c == b'/') ≡ false) (new_asset_id stamp filename) (codes ".bin")
        (All-append (λ c. (c == b'/') ≡ false) stamp (b'-' ∷ safe_filename filename) h
          (refl, safe_filename-SlashFree filename))
        (refl, (refl, (refl, (refl, tt)))))

-- The file of an identifier of `Encrypt` lies in the directory `files` itself.
pub file_name-safe_filename :
    (data_dir stamp filename : Text)
    → SlashFree stamp
    → file_name data_dir (stamp ++ b'-' ∷ safe_filename filename)
      ≡ clean (join data_dir (codes "files"))
        ++ b'/' ∷ ((stamp ++ b'-' ∷ safe_filename filename) ++ codes ".bin")
unfolding file_name
file_name-safe_filename data_dir stamp filename h =
    join-Proper (join data_dir files) (new_asset_id stamp filename ++ codes ".bin")
      (EndsInFiles-KeepsFiles (join data_dir files) (join-EndsInFiles data_dir))
      (id-Proper stamp filename h)
