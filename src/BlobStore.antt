-- ===== src/BlobStore.antt =====
-- crates/panora-core/src/storage/blob.rs: payload files, each under the hash of its plaintext.
pub mod Intact
pub mod Rotation
mod Examples
use panora.Prelude.{
  ℕ, ◌+◌, Bool, true, false, not, ◌&&◌, ◌||◌, Option, none, some, List, [], ◌∷◌, ◌++◌, map, Text,
  Bytes, codes, length, all, keep, leb, ◌==◌, nat_eq, list_eq, if◌then◌else◌, Result, ok, err,
  ◌>>=◌, ◌>>◌, guard, ok_or,
}
use panora.Crypto.{
  Aead, Failure, seal_with_aad, open_with_aad, open_sealed, starts_with, envelope_magic,
}

-- The file system below the store's root: the files whose names are hashes, each with its bytes. A
-- file is written under another name first and then renamed, so it is whole or not there.
abbrev pub Files : Type 0
Files = List (Text × Bytes)

pub data Error : Type 0 where
  config io crypto : Error

unfoldable pub read : Text → Files → Option Bytes
read hash [] = none
read hash ((name, content) ∷ files) = if name == hash then some content else read hash files

unfoldable pub delete : Text → Files → Files
delete hash files = keep (λ f. not (f.0 == hash)) files

unfoldable pub write_sealed : Text → Bytes → Files → Files
unfolding delete
write_sealed hash sealed files = (hash, sealed) ∷ delete hash files

abbrev pub is_hex : ℕ → Bool
is_hex b = (leb 48 b && leb b 57) || (leb 97 b && leb b 102)

unfoldable pub validate_hash : Text → Result Error (Unit {0})
validate_hash hash = guard (length hash == 64 && all is_hex hash) config

unfoldable pub aad : Text → Bytes
aad hash = codes "panora/blob/v1/" ++ hash

abbrev pub is_there : Option Bytes → Bool
is_there none = false
is_there (some content) = true

unfoldable pub exists : Text → Files → Bool
unfolding validate_hash read
exists hash files = elim (validate_hash hash) [ ok u ↦ is_there (read hash files) | err e ↦ false ]

abbrev pub from_crypto {ℓ} : {A : Type ℓ} → Result Failure A → Result Error A
from_crypto (ok a) = ok a
from_crypto (err e) = err crypto

-- The file is written only where none is there.
unfoldable pub write_missing :
    Aead → Bytes → Text → Bytes → Files → Option Bytes → Result Error (Text × Files)
unfolding write_sealed
write_missing aead nonce hash plaintext files (some content) = ok (hash, files)
write_missing aead nonce hash plaintext files none = do
  sealed ← from_crypto (seal_with_aad aead nonce (aad hash) plaintext)
  ok (hash, write_sealed hash sealed files)

-- The hash function of the crate blake3 and the random nonce are arguments.
unfoldable pub put : Aead → (Bytes → Text) → Bytes → Bytes → Files → Result Error (Text × Files)
unfolding validate_hash write_missing
put aead content_hash nonce plaintext files = do
  validate_hash (content_hash plaintext)
  write_missing aead nonce (content_hash plaintext) plaintext files
      (read (content_hash plaintext) files)

-- Where the bound form does not open, an old file without the magic may open unbound.
unfoldable pub open_file : Aead → Text → Bytes → Result Error Bytes
open_file aead hash sealed = elim (open_with_aad aead (aad hash) sealed) [
  | ok plaintext ↦ ok plaintext
  | err e ↦
      if not (starts_with sealed envelope_magic)
      then from_crypto (open_sealed aead sealed)
      else err crypto
]

unfoldable pub get : Aead → Text → Files → Result Error Bytes
unfolding validate_hash open_file
get aead hash files = do
  validate_hash hash
  sealed ← ok_or (read hash files) io
  open_file aead hash sealed

abbrev pub or_else {ℓ} : {A : Type ℓ} → Result Failure A → Result Failure A → Result Failure A
or_else (ok a) other = ok a
or_else (err e) other = other

unfoldable pub open_any : Aead → Aead → Text → Bytes → Result Failure Bytes
open_any old new hash sealed = or_else (open_with_aad old (aad hash) sealed) (
    or_else (open_sealed old sealed)
      (or_else (open_with_aad new (aad hash) sealed) (open_sealed new sealed)))

-- The names of the files that are hashes.
unfoldable pub list : Files → List Text
list [] = []
list ((name, content) ∷ files) =
    if length name == 64 && all is_hex name then name ∷ list files else list files

unfoldable pub rekey_file : Aead → Aead → Bytes → Text → Files → Result Error Files
unfolding validate_hash open_any
rekey_file old new nonce hash files = do
  validate_hash hash
  sealed ← ok_or (read hash files) io
  plaintext ← from_crypto (open_any old new hash sealed)
  resealed ← from_crypto (seal_with_aad new nonce (aad hash) plaintext)
  ok (write_sealed hash resealed files)

-- The loop of `rekey`; the nonce is a function of the file's name, since every sealing draws its own.
unfoldable pub rekey_files : Aead → Aead → (Text → Bytes) → List Text → Files → Result Error Files
unfolding rekey_file
rekey_files old new nonce [] files = ok files
rekey_files old new nonce (hash ∷ hashes) files = do
  files' ← rekey_file old new (nonce hash) hash files
  rekey_files old new nonce hashes files'

unfoldable pub rekey : Aead → Aead → (Text → Bytes) → Files → Result Error Files
unfolding rekey_files list
rekey old new nonce files = rekey_files old new nonce (list files) files

-- Removing what is not there succeeds.
unfoldable pub remove : Text → Files → Result Error Files
unfolding validate_hash delete
remove hash files = do validate_hash hash; ok (delete hash files)

abbrev remove_all : List Text → Files → Result Error Files
remove_all [] files = ok files
remove_all (hash ∷ hashes) files = do files' ← remove hash files; remove_all hashes files'

unfoldable pub wipe : Files → Result Error Files
unfolding remove list
wipe files = remove_all (list files) files
