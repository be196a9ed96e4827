-- ===== src/BlobStore/Rotation.antt =====
-- storage/blob.rs, `rekey`: the files of the store under the new key.
use panora.Prelude.{
  ◌≡◌, refl, sym, ap, ◌∙◌, true, false, ◌&&◌, some, List, [], ◌∷◌, Text, Bytes, contains, length,
  all, ◌==◌, nat_eq, list_eq, ==-refl, ==→eq, arith, Bool-cases, inl, inr, Result, ok, err, ok_or,
  >>=-eq-ok, >>-eq-ok, subst, Result-cases,
}
use panora.Crypto.{Aead, Failure, seal_with_aad, open_with_aad, open_sealed, nonce_len}
use panora.Crypto.Envelope.{IsAead, open_with_aad-seal_with_aad}
use panora.BlobStore.{
  Files, read, write_sealed, validate_hash, aad, open_any, list, rekey_file, rekey_files, rekey,
  from_crypto, is_hex, open_file, or_else, get,
}
use panora.BlobStore.Intact.{read-write_sealed}

-- File names are unique and are hashes.
abbrev pub IsNamed : Files → Type 0
IsNamed [] = Unit {0}
IsNamed ((name, content) ∷ files) =
    ((length name == 64 && all is_hex name) ≡ true)
    × (contains (list files) name ≡ false)
    × IsNamed files

abbrev IsUniqueList : List Text → Type 0
IsUniqueList [] = Unit {0}
IsUniqueList (h ∷ hs) = (contains hs h ≡ false) × IsUniqueList hs

list-IsUniqueList : (files : Files) → IsNamed files → IsUniqueList (list files)
unfolding list
list-IsUniqueList [] n = tt
list-IsUniqueList ((name, content) ∷ files) n = rw (n.0) (n.1, list-IsUniqueList files n.2)

read-list :
    (h : Text) (sealed : Bytes) (files : Files)
    → IsNamed files
    → read h files ≡ some sealed
    → contains (list files) h ≡ true
unfolding read list
read-list h sealed [] n r = absurd cc
read-list h sealed ((name, content) ∷ files) n r = ground (arith, n, read-list h sealed files n.2)

-- What a file holds: what `get` makes of it under the old key or, where an interrupted rotation has
-- sealed the file again, so that the old key opens it in neither form, under the new one.
pub data Content (old new : Aead) (h : Text) (sealed p : Bytes) : Type 0 where
  under_old : open_file old h sealed ≡ ok p → Content old new h sealed p
  under_new :
      open_with_aad old (aad h) sealed ≡ err Failure.crypto
      → open_sealed old sealed ≡ err Failure.crypto
      → open_file new h sealed ≡ ok p
      → Content old new h sealed p

abbrev pub Holds : Aead → Aead → Text → Files → Bytes → Type 0
Holds old new h files p =
    (sealed : Bytes) × (read h files ≡ some sealed) × Content old new h sealed p

from_crypto-ok {ℓ} : {A : Type ℓ} (r : Result Failure A) (a : A) → from_crypto r ≡ ok a → r ≡ ok a
from_crypto-ok (ok x) a e = ground arith
from_crypto-ok (err x) a e = absurd cc

-- One key's two forms, in the order in which both functions try them.
open_file_forms :
    (aead : Aead) (h : Text) (sealed p : Bytes) (other : Result Failure Bytes)
    → open_file aead h sealed ≡ ok p
    → or_else (open_with_aad aead (aad h) sealed) (or_else (open_sealed aead sealed) other) ≡ ok p
unfolding open_file
open_file_forms aead h sealed p other e = elim (Result-cases (open_with_aad aead (aad h) sealed)) [
  | inl (a, b) ↦ ground arith
  | inr (x, b) ↦ elim (Result-cases (open_sealed aead sealed)) [
    | inl (a, k) ↦ ground arith
    | inr (y, k) ↦ absurd (ground arith)
  ]
]

or_else-err : (r : Result Failure Bytes) → or_else r (err Failure.crypto) ≡ r
or_else-err (ok a) = refl
or_else-err (err Failure.crypto) = refl

open_any-Content :
    (old new : Aead) (h : Text) (sealed p : Bytes)
    → Content old new h sealed p
    → open_any old new h sealed ≡ ok p
unfolding open_any
open_any-Content old new h sealed p (under_old e) = open_file_forms old h sealed p _ e
open_any-Content old new h sealed p (under_new b u e) =
    rw (b, u)
      (ap (or_else (open_with_aad new (aad h) sealed)) (sym (or_else-err (open_sealed new sealed)))
        ∙ open_file_forms new h sealed p (err Failure.crypto) e)

module _ (old new : Aead) (law : IsAead new) (nonce : Text → Bytes)
    (sized : (h : Text) → length (nonce h) ≡ nonce_len) where
  rekey_file_other :
      (h name : Text) (files files' : Files)
      → rekey_file old new (nonce name) name files ≡ ok files'
      → (name == h) ≡ false
      → read h files' ≡ read h files
  unfolding rekey_file
  rekey_file_other h name files files' e d =
      let (v, e1) = >>-eq-ok (validate_hash name) _ e in
      let (sealed, r, e2) = >>=-eq-ok (ok_or (read name files) _) _ e1 in
      let (p, o, e3) = >>=-eq-ok (from_crypto (open_any old new name sealed)) _ e2 in
      let (resealed, s, e4) =
        >>=-eq-ok (from_crypto (seal_with_aad new (nonce name) (aad name) p)) _ e3 in
      let w : write_sealed name resealed files ≡ files' = ground arith in
      subst (λ (f : Files). read h f ≡ read h files) w
        (read-write_sealed h name resealed files ∙ ground (arith, d))

  get-resealed :
      (h : Text) (p resealed : Bytes) (files : Files)
      → validate_hash h ≡ ok tt
      → seal_with_aad new (nonce h) (aad h) p ≡ ok resealed
      → get new h (write_sealed h resealed files) ≡ ok p
  unfolding get open_file open_with_aad
  get-resealed h p resealed files v s =
      let there : read h (write_sealed h resealed files) ≡ some resealed =
        read-write_sealed h h resealed files ∙ ground (arith, ==-refl h) in
      rw (v, there, open_with_aad-seal_with_aad new law (nonce h) (sized h) (aad h) p resealed s)
        refl

  rekey_file_here :
      (h : Text) (p : Bytes) (files files' : Files)
      → rekey_file old new (nonce h) h files ≡ ok files'
      → Holds old new h files p
      → get new h files' ≡ ok p
  unfolding rekey_file
  rekey_file_here h p files files' e (held, f, o) =
      let (v, e1) = >>-eq-ok (validate_hash h) _ e in
      let (sealed, r, e2) = >>=-eq-ok (ok_or (read h files) _) _ e1 in
      let (q, t, e3) = >>=-eq-ok (from_crypto (open_any old new h sealed)) _ e2 in
      let (resealed, s, e4) =
        >>=-eq-ok (from_crypto (seal_with_aad new (nonce h) (aad h) q)) _ e3 in
      let w : write_sealed h resealed files ≡ files' = ground arith in
      let same : held ≡ sealed = ground arith in
      let opened : open_any old new h sealed ≡ ok p =
        open_any-Content old new h sealed p (subst (λ (x : Bytes). Content old new h x p) same o) in
      let content : q ≡ p = ground (arith, opened, from_crypto-ok _ q t) in
      let again : seal_with_aad new (nonce h) (aad h) p ≡ ok resealed =
        subst (λ (x : Bytes). seal_with_aad new (nonce h) (aad h) x ≡ ok resealed) content
          (from_crypto-ok _ resealed s) in
      subst (λ (g : Files). get new h g ≡ ok p) w (get-resealed h p resealed files v again)

  get_other :
      (h : Text) (p : Bytes) (files files' : Files)
      → read h files' ≡ read h files
      → get new h files ≡ ok p
      → get new h files' ≡ ok p
  unfolding get
  get_other h p files files' same e = rw same e

  rekey_files_other :
      (h : Text) (hashes : List Text) (files files' : Files)
      → rekey_files old new nonce hashes files ≡ ok files'
      → contains hashes h ≡ false
      → read h files' ≡ read h files
  unfolding rekey_files
  rekey_files_other h [] files files' e n = ground arith
  rekey_files_other h (name ∷ hashes) files files' e n =
      let (mid, p, q) = >>=-eq-ok (rekey_file old new (nonce name) name files) _ e in
      rekey_files_other h hashes mid files' q (ground arith)
      ∙ rekey_file_other h name files mid p (ground arith)

  rekey_files_here :
      (h : Text) (p : Bytes) (hashes : List Text) (files files' : Files)
      → IsUniqueList hashes
      → rekey_files old new nonce hashes files ≡ ok files'
      → contains hashes h ≡ true
      → Holds old new h files p
      → get new h files' ≡ ok p
  unfolding rekey_files
  rekey_files_here h p [] files files' u e n o = absurd cc
  rekey_files_here h p (name ∷ hashes) files files' u e n o =
      let (mid, a, b) = >>=-eq-ok (rekey_file old new (nonce name) name files) _ e in
      elim (Bool-cases (name == h)) [
        | inl t ↦
            let named : name ≡ h = ==→eq name h t in
            get_other h p mid files'
              (rekey_files_other h hashes mid files' b
                (subst (λ (k : Text). contains hashes k ≡ false) named u.0))
              (rekey_file_here h p files mid
                (subst (λ (k : Text). rekey_file old new (nonce k) k files ≡ ok mid) named a) o)
        | inr t ↦
            let (sealed, r, w) = o in
            rekey_files_here h p hashes mid files' u.1 b (ground arith)
              (sealed, rekey_file_other h name files mid a t ∙ r, w)
      ]

  -- Where the file names are unique hashes and the new AEAD opens what it sealed with nonces of
  -- full length, after a rotation that succeeds `get` under the new key gives for every file what
  -- `get` gave under the old key, from files of older versions too, or, where an interrupted
  -- rotation had sealed the file again so that the old key opens it in neither form, what it gave
  -- under the new one.
  pub get-rekey :
      (h : Text) (p : Bytes) (files files' : Files)
      → IsNamed files
      → rekey old new nonce files ≡ ok files'
      → Holds old new h files p
      → get new h files' ≡ ok p
  unfolding rekey
  get-rekey h p files files' n e o =
      rekey_files_here h p (list files) files files' (list-IsUniqueList files n) e
        (read-list h o.0 files n o.1) o
