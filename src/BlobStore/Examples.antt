-- ===== src/BlobStore/Examples.antt =====
-- Runs of the envelope and of the blob store with a toy AEAD, whose ciphertext is a tag and the
-- message.
use panora.Prelude.{◌≡◌, refl, [], ◌∷◌, ◌++◌, Text, Bytes, ℕ, codes, ok, err, nat_eq}
use panora.Crypto.{
  crypto, open_sealed, seal_with_aad, open_with_aad, seal_text_with_aad, open_text_with_aad,
  starts_with, is_utf8, hex_encode, envelope_magic, decrypt_split,
}
use panora.Crypto.Toy.{repeat, tag, toy, all-IsByte, toy-IsAead}
use panora.Crypto.Envelope.{open_text_with_aad-seal_text_with_aad}
use panora.BlobStore.{
  read, validate_hash, put, get, write_missing, write_sealed, delete, rekey, rekey_files,
  rekey_file, list, open_any, open_file, aad,
}
use panora.BlobStore.Intact.{get-put}
use panora.BlobStore.Rotation.{under_old, get-rekey}

abbrev nonce : Bytes
nonce = repeat 24 9

abbrev name : Text
name = repeat 64 97

-- The content under a key, in the bound form and in the unbound form of older versions.
abbrev bound : ℕ → Bytes → Bytes
bound k content = envelope_magic ++ 1 ∷ nonce ++ tag k nonce (aad name) ++ content

abbrev unbound : ℕ → Bytes → Bytes
unbound k content = nonce ++ tag k nonce [] ++ content

get-put_example : get (toy 3) name ((name, bound 3 name) ∷ []) ≡ ok name
unfolding put write_missing write_sealed validate_hash read delete seal_with_aad aad
get-put_example =
    get-put (toy 3) (toy-IsAead 3) (λ content. content) nonce refl (λ a b e. e) name [] _ name tt
      refl

-- A file of an older version opens under the old key, and is bound to its name by the rotation.
get-rekey_example : get (toy 4) name ((name, bound 4 (7 ∷ [])) ∷ []) ≡ ok (7 ∷ [])
unfolding rekey rekey_files rekey_file write_sealed validate_hash read delete seal_with_aad list
    open_any open_file open_sealed open_with_aad starts_with decrypt_split aad
get-rekey_example =
    get-rekey (toy 3) (toy 4) (toy-IsAead 4) (λ h. nonce) (λ h. refl) name (7 ∷ [])
      ((name, unbound 3 (7 ∷ [])) ∷ []) _ (refl, refl, tt) refl (_, refl, under_old refl)

test_unbound : open_with_aad (toy 3) (aad name) (unbound 3 (7 ∷ [])) ≡ err crypto
unfolding open_with_aad starts_with decrypt_split aad
test_unbound = refl

-- A rotation that was interrupted after this file.
test_resumed :
    rekey (toy 3) (toy 4) (λ h. nonce) ((name, bound 4 (7 ∷ [])) ∷ [])
    ≡ ok ((name, bound 4 (7 ∷ [])) ∷ [])
unfolding rekey rekey_files rekey_file write_sealed validate_hash read delete seal_with_aad list
    open_any open_sealed open_with_aad starts_with decrypt_split aad
test_resumed = refl

open_text_with_aad-seal_text_with_aad_example :
    open_text_with_aad
      (toy 3)
      (1 ∷ [])
      (hex_encode (envelope_magic ++ 1 ∷ nonce ++ tag 3 nonce (1 ∷ []) ++ codes "hi"))
    ≡ ok (codes "hi")
unfolding seal_text_with_aad seal_with_aad is_utf8
open_text_with_aad-seal_text_with_aad_example =
    open_text_with_aad-seal_text_with_aad (toy 3) (toy-IsAead 3) nonce refl (1 ∷ []) (codes "hi") _
      (all-IsByte nonce refl) refl refl
