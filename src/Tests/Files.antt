-- ===== src/Tests/Files.antt =====
-- The theorems on user_client/service/file_service.go at a ledger and files in memory.
use bc_abe.Common.{
  ◌++◌, ◌==◌, arith, subst, Bool-cases, inl, inr, if◌then◌else◌, ℕ, Bool, true, ◌≡◌, ◌≢◌, refl,
  List, [], ◌∷◌, some,
}
use bc_abe.Text.{Text, ◌=ᵗ◌, codes, print_nat, trim_space}
use bc_abe.Chaincode.Stub.{ok, failed, Reply, Json, ok-injective}
use bc_abe.Chaincode.Contract.{
  Outcome, done, GlobalParams, CiphertextAsset, get_ciphertext, key_global_params,
}
use bc_abe.Chaincode.Samples.{Entries, list_stub, list_stub-laws, find, without}
use bc_abe.Chaincode.Codec.{
  asset_codec, asset_codec-laws, failing, write_asset, read_asset, reply_of,
}
use bc_abe.Text.Equality.{=ᵗ→≡, =ᵗ_self}
use bc_abe.Apperr.{other}
use bc_abe.Apperr.Answer.{answer, raise}
use bc_abe.Authority.Engine.{new_engine}
use bc_abe.Files.Content.{Gcm, GcmLaws, aes_encrypt, aes_decrypt, aes_decrypt-aes_encrypt}
use bc_abe.Files.Assets.{FileStore, FileLaws, file_name}
use bc_abe.Files.Upload.{EncryptResult, Chance, Client, update_file}
use bc_abe.Files.Updated.{update_file_lem}
use bc_abe.Tests.Authority.{text_mosaic}
use bc_abe.Tests.Engine.{text_encryption}

-- The text behind a prefix.
unfoldable pub behind : List ℕ → List ℕ → Reply (List ℕ)
behind [] s = ok s
behind (k ∷ key) [] = failed []
behind (k ∷ key) (b ∷ s) = if k == b then behind key s else failed []

-- A nonce of two bytes, and the key and the nonce in front of the plain text, without which it is not
-- opened.
abbrev pub plain_gcm : Gcm
plain_gcm = record {
  nonce_size = 2;
  seal = λ key nonce plain. (key ++ nonce) ++ plain;
  open_sealed = λ key nonce sealed. behind (key ++ nonce) sealed;
}

behind-append : (a b : List ℕ) → behind a (a ++ b) ≡ ok b
unfolding behind
behind-append [] b = refl
behind-append (k ∷ a) b = ground (arith, behind-append a b)

pub plain_gcm-laws : GcmLaws plain_gcm
plain_gcm-laws = record { open-seal = λ key nonce plain h. behind-append (key ++ nonce) plain }

-- Another key does not open it.
other_key :
    aes_decrypt plain_gcm
      (codes "l")
      (aes_encrypt plain_gcm (codes "k") (8 ∷ 9 ∷ []) (codes "text"))
    ≡ raise (other [])
unfolding aes_decrypt aes_encrypt behind
other_key = refl

aes_decrypt-aes_encrypt_example :
    aes_decrypt plain_gcm
      (codes "k")
      (aes_encrypt plain_gcm (codes "k") (8 ∷ 9 ∷ []) (codes "text"))
    ≡ answer (codes "text")
aes_decrypt-aes_encrypt_example =
    aes_decrypt-aes_encrypt plain_gcm plain_gcm-laws (codes "k") (8 ∷ 9 ∷ []) (codes "text") refl

abbrev pub NamedFiles : Type 0
NamedFiles = List (Text × List ℕ)

unfoldable pub file_at : Text → NamedFiles → Reply (List ℕ)
file_at name [] = failed []
file_at name ((n, content) ∷ files) = if name =ᵗ n then ok content else file_at name files

-- The files of other names.
unfoldable pub others : Text → NamedFiles → NamedFiles
others name [] = []
others name ((n, content) ∷ files) =
    if name =ᵗ n then others name files else (n, content) ∷ others name files

-- The newest file of a name stands first.
abbrev pub list_files : FileStore
list_files = record {
  data_dir = codes "data/";
  Files = NamedFiles;
  write_file = λ name content files. ok ((name, content) ∷ files);
  read_file = file_at;
  remove_file = λ name files. elim (file_at name files) [
    | failed t ↦ failed t
    | ok content ↦ ok (others name files)
  ];
}

still_there :
    (name other_name : Text) (files : NamedFiles)
    → other_name ≢ name
    → file_at other_name (others name files) ≡ file_at other_name files
unfolding file_at others
still_there name other_name [] ne = refl
still_there name other_name ((n, content) ∷ files) ne = ground (
  arith,
  still_there name other_name files ne,
  =ᵗ→≡ name n,
  =ᵗ→≡ other_name n,
  =ᵗ→≡ other_name name,
)

not_there :
    (name : Text) (content : List ℕ) (files : NamedFiles)
    → file_at name (others name files) ≢ ok content
unfolding file_at others
not_there name content [] h = cc
not_there name content ((n, c) ∷ files) h = elim (Bool-cases (name =ᵗ n)) [
  | inl e ↦ not_there name content files (rw (others, e) at h)
  | inr e ↦
      let r : file_at name ((n, c) ∷ others name files) ≡ ok content = rw (others, e) at h in
      not_there name content files (rw (file_at, e) at r)
]

first_file :
    (name : Text) (content : List ℕ) (files : NamedFiles)
    → file_at name ((name, content) ∷ files) ≡ ok content
unfolding file_at
first_file name content files = rw (=ᵗ_self name)

removed-eq :
    (name : Text) (files files' : NamedFiles)
    → list_files.remove_file name files ≡ ok files'
    → others name files ≡ files'
removed-eq name files files' h = of_read (file_at name files) h
  where
    of_read :
        (found : Reply (List ℕ))
        → ◌≡◌ {A = Reply NamedFiles}
            (elim found [ failed t ↦ failed t | ok content ↦ ok (others name files) ])
            (ok files')
        → others name files ≡ files'
    of_read (failed t) h = cc
    of_read (ok content) h = ok-injective (others name files) files' h

pub list_files-laws : FileLaws list_files
list_files-laws = record {
  read_file-write_file = λ name content files files' h.
      subst (λ f. file_at name f ≡ ok content) (ok-injective ((name, content) ∷ files) files' h)
        (first_file name content files);
  read_file-remove_file = λ name content files files' h.
      subst (λ f. file_at name f ≢ ok content) (removed-eq name files files' h)
        (not_there name content files);
  read_other-remove_file = λ name other_name files files' h ne.
      subst (λ f. file_at other_name f ≡ file_at other_name files) (removed-eq name files files' h)
        (still_there name other_name files ne);
}

-- The names are cleaned, and an identifier with `..` leaves the directory.
names_cleaned :
    (file_name (codes "data/") (codes "1-demo.txt") ≡ codes "data/files/1-demo.txt.bin")
    × (file_name (codes "data") (codes "./x//y") ≡ codes "data/files/x/y.bin")
    × (file_name (codes "./data") (codes "../../bc_abe") ≡ codes "bc_abe.bin")
    × (file_name (codes "/data") (codes "../../../etc/x") ≡ codes "/etc/x.bin")
unfolding file_name
names_cleaned = (refl, refl, refl, refl)

abbrev pub asset : CiphertextAsset
asset = record {
  id = codes "1-demo.txt";
  version = 1;
  policy = codes "Vit@auth0";
  ciphertext = codes "ct";
  owner = codes "1";
  created_at = codes "2024";
  updated_at = codes "2024";
}

abbrev key : Text
key = codes "CT::1-demo.txt"

abbrev ledger : Entries
ledger = (key, write_asset asset) ∷ []

abbrev no_params : Json GlobalParams
no_params = failing GlobalParams

abbrev pub no_ids : Json (List Text)
no_ids = failing (List Text)

abbrev get : Text → Entries → Outcome CiphertextAsset
get = get_ciphertext list_stub no_params asset_codec no_ids

abbrev file_path : Text
file_path = codes "data/files/1-demo.txt.bin"

abbrev two_files : NamedFiles
two_files = (file_path, []) ∷ (codes "data/files/2.bin", 7 ∷ []) ∷ []

abbrev one_file : NamedFiles
one_file = (codes "data/files/2.bin", 7 ∷ []) ∷ []

abbrev chain_params : GlobalParams
chain_params = record {
  id = [];
  version = 1;
  curve = [];
  org_pub_keys = (codes "auth0", codes "k0") ∷ [];
  updated_at = [];
}

-- The parameters are read from every text.
abbrev pub one_params : Json GlobalParams
one_params = record { marshal = λ p. ok []; unmarshal = λ t. ok chain_params }

abbrev pub with_params : Entries
with_params = (key_global_params, codes "params") ∷ ledger

abbrev pub accepts : Text → Bool
accepts t = true

abbrev pub same_text : Text → Text
same_text ct = ct

abbrev pub chance : Chance text_mosaic
chance = record {
  secret_seed = codes "secret";
  cipher_seed = codes "cipher";
  nonce = 8 ∷ 9 ∷ [];
  now = codes "2025";
}

abbrev At : Type 0
At =
    Client text_mosaic text_encryption same_text accepts accepts plain_gcm list_stub one_params
      asset_codec no_ids list_files

abbrev pub before : At
before = record { ledger = with_params; files = []; engine = new_engine text_mosaic (codes "seed") }

abbrev pub taken : CiphertextAsset
taken = record asset {
  version = 2;
  ciphertext = codes "Vit@auth0";
  owner = codes "2";
  updated_at = codes "2025";
}

abbrev pub after : At
after = record {
  ledger = (key, write_asset taken) ∷ (key_global_params, codes "params") ∷ [];
  files = (codes "data/files/1-demo.txt.bin", 8 ∷ 9 ∷ codes "secret" ++ 8 ∷ 9 ∷ codes "text") ∷ [];
  engine = record (new_engine text_mosaic (codes "seed")) {
    org = some (codes "g");
    curve = some (codes "g");
  };
}

abbrev pub result : EncryptResult
result = record { asset_id = codes "1-demo.txt"; policy = codes "Vit@auth0" }

-- The user 2 updates the asset of the user 1.
pub updated :
    update_file text_mosaic text_encryption same_text accepts accepts plain_gcm list_stub one_params
      asset_codec no_ids list_files write_asset true chance
      (some (codes "org"))
      2
      (codes "1-demo.txt")
      (codes "text")
      (codes "Vit@auth0")
      before
    ≡ (after, answer result)
unfolding update_file write_asset read_asset reply_of find without trim_space behind
updated = refl

written-read : (a : CiphertextAsset) → asset_codec.unmarshal (write_asset a) ≡ ok a
written-read a = asset_codec-laws.unmarshal-marshal a (write_asset a) refl

update_file_example :
    ((stored : CiphertextAsset) × (get_ciphertext list_stub one_params asset_codec no_ids
          (codes "1-demo.txt")
          after.ledger
        ≡ done stored)
      × (stored.owner ≡ print_nat 2)
      × (stored.policy ≡ codes "Vit@auth0"))
    × ((j : Text)
        → j ≢ codes "1-demo.txt"
        → get_ciphertext list_stub one_params asset_codec no_ids j after.ledger
          ≡ get_ciphertext list_stub one_params asset_codec no_ids j with_params)
update_file_example =
    update_file_lem text_mosaic text_encryption same_text accepts accepts plain_gcm list_stub
      one_params asset_codec no_ids list_files list_stub-laws asset_codec-laws write_asset true
      chance (some (codes "org")) 2 (codes "1-demo.txt") (codes "text") (codes "Vit@auth0") before
      after result written-read updated
