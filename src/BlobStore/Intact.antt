-- ===== src/BlobStore/Intact.antt =====
-- storage/blob.rs: the files of the store and the hashes that name them.
use panora.Prelude.{
  ◌≡◌, refl, sym, ◌∙◌, Bool, not, Option, none, some, [], ◌∷◌, Text, Bytes, All, length, ◌==◌,
  nat_eq, list_eq, ==-refl, ==→eq, keep, arith, if◌then◌else◌, Bool-cases, inl, inr, ok, >>-eq-ok,
  subst, Option-cases, Result-cases,
}
use panora.Crypto.{Aead, seal_with_aad, open_with_aad, nonce_len}
use panora.Crypto.Envelope.{IsAead, open_with_aad-seal_with_aad}
use panora.BlobStore.{
  Files, read, delete, write_sealed, validate_hash, aad, write_missing, put, open_file, get, remove,
}

pub read-delete :
    (h name : Text) (files : Files)
    → read h (delete name files) ≡ (if name == h then none else read h files)
unfolding read delete
read-delete h name [] = ground arith
read-delete h name ((n, c) ∷ files) =
    ground (arith, read-delete h name files, ==→eq n h, ==→eq n name, ==→eq name h, ==-refl h)

pub read-write_sealed :
    (h name : Text) (sealed : Bytes) (files : Files)
    → read h (write_sealed name sealed files) ≡ (if name == h then some sealed else read h files)
unfolding read write_sealed
read-write_sealed h name sealed files = ground (arith, read-delete h name files)

pub record IntactFile (aead : Aead) (content_hash : Bytes → Text) (file : Text × Bytes)
    : Type 0 where
  pub content : Bytes
  pub opens : open_with_aad aead (aad file.0) file.1 ≡ ok content
  pub named : content_hash content ≡ file.0

abbrev pub IsIntact : Aead → (Bytes → Text) → Files → Type 0
IsIntact aead content_hash files = All (IntactFile aead content_hash) files

All-keep :
    (P : Text × Bytes → Type 0) (p : Text × Bytes → Bool) (files : Files)
    → All P files
    → All P (keep p files)
All-keep P p [] h = tt
All-keep P p (f ∷ files) h = elim (Bool-cases (p f)) [
  | inl e ↦ rw e (h.0, All-keep P p files h.1)
  | inr e ↦ rw e (All-keep P p files h.1)
]

All-read :
    (P : Text × Bytes → Type 0) (h : Text) (sealed : Bytes) (files : Files)
    → All P files
    → read h files ≡ some sealed
    → P (h, sealed)
unfolding read
All-read P h sealed [] a e = absurd cc
All-read P h sealed ((n, c) ∷ files) a e = elim (Bool-cases (n == h)) [
  | inl t ↦
      let named : n ≡ h = ==→eq n h t in
      let same : c ≡ sealed = ground arith in
      subst (λ (k : Text). P (k, sealed)) named (subst (λ (s : Bytes). P (n, s)) same a.0)
  | inr t ↦ All-read P h sealed files a.1 (ground arith)
]

module _ (aead : Aead) (law : IsAead aead) (content_hash : Bytes → Text) where
  remove-IsIntact :
      (hash : Text) (files files' : Files)
      → IsIntact aead content_hash files
      → remove hash files ≡ ok files'
      → IsIntact aead content_hash files'
  unfolding remove delete
  remove-IsIntact hash files files' i e =
      let (p, q) = >>-eq-ok (validate_hash hash) _ e in
      let w : delete hash files ≡ files' = ground arith in
      subst (IsIntact aead content_hash) w (All-keep _ (λ f. not (f.0 == hash)) files i)

  module _ (nonce : Bytes) (sized : length nonce ≡ nonce_len) where
    write_missing-IsIntact :
        (plaintext : Bytes) (files files' : Files) (name : Text) (found : Option Bytes)
        → IsIntact aead content_hash files
        → write_missing aead nonce (content_hash plaintext) plaintext files found
          ≡ ok (name, files')
        → IsIntact aead content_hash files'
    unfolding write_missing write_sealed delete
    write_missing-IsIntact plaintext files files' name (some c) i e =
        let w : files ≡ files' = ground arith in subst (IsIntact aead content_hash) w i
    write_missing-IsIntact plaintext files files' name none i e =
        elim (Result-cases (seal_with_aad aead nonce (aad (content_hash plaintext)) plaintext)) [
          | inl (sealed, p) ↦
              let w : write_sealed (content_hash plaintext) sealed files ≡ files' = ground arith in
              subst (IsIntact aead content_hash) w (
                record {
                  content = plaintext;
                  opens = open_with_aad-seal_with_aad aead law nonce sized _ plaintext sealed p;
                  named = refl;
                },
                All-keep _ (λ f. not (f.0 == content_hash plaintext)) files i,
              )
          | inr (x, p) ↦ absurd (ground arith)
        ]

    put-IsIntact :
        (plaintext : Bytes) (files files' : Files) (name : Text)
        → IsIntact aead content_hash files
        → put aead content_hash nonce plaintext files ≡ ok (name, files')
        → IsIntact aead content_hash files'
    unfolding put
    put-IsIntact plaintext files files' name i e =
        let (p, q) = >>-eq-ok (validate_hash (content_hash plaintext)) _ e in
        write_missing-IsIntact plaintext files files' name _ i q

  put_there :
      (nonce plaintext : Bytes) (files files' : Files) (name : Text)
      → put aead content_hash nonce plaintext files ≡ ok (name, files')
      → (validate_hash name ≡ ok tt)
        × (name ≡ content_hash plaintext)
        × ((sealed : Bytes) × (read name files' ≡ some sealed))
  unfolding put write_missing
  put_there nonce plaintext files files' name e =
      let hash : Text = content_hash plaintext in
      let (valid, q) = >>-eq-ok (validate_hash hash) _ e in
      elim (Option-cases (read hash files)) [
        | inl r ↦ elim (Result-cases (seal_with_aad aead nonce (aad hash) plaintext)) [
          | inl (sealed, p) ↦
              let n : hash ≡ name = ground arith in
              let w : write_sealed hash sealed files ≡ files' = ground arith in
              rw (sym n, sym w)
                (
                  valid,
                  refl,
                  (sealed, read-write_sealed hash hash sealed files ∙ ground (arith, ==-refl hash)),
                )
          | inr (x, p) ↦ absurd (ground arith)
        ]
        | inr (c, r) ↦
            let n : hash ≡ name = ground arith in
            let w : files ≡ files' = ground arith in rw (sym n, sym w) (valid, refl, (c, r))
      ]

  get_there :
      (name : Text) (sealed content : Bytes) (files : Files)
      → validate_hash name ≡ ok tt
      → read name files ≡ some sealed
      → open_with_aad aead (aad name) sealed ≡ ok content
      → get aead name files ≡ ok content
  unfolding get open_file open_with_aad
  get_there name sealed content files v r o = rw (v, r, o) refl

  module _ (nonce : Bytes) (sized : length nonce ≡ nonce_len)
      (collision_free : (a b : Bytes) → content_hash a ≡ content_hash b → a ≡ b) where
    -- In a store whose files open to what their names say, under an AEAD that opens what it
    -- sealed, a hash without collisions and a nonce of full length, a payload that was put reads
    -- back as it was, whether its file was written now or was there before.
    pub get-put :
        (plaintext : Bytes) (files files' : Files) (name : Text)
        → IsIntact aead content_hash files
        → put aead content_hash nonce plaintext files ≡ ok (name, files')
        → get aead name files' ≡ ok plaintext
    get-put plaintext files files' name i e =
        let (valid, named, (sealed, r)) = put_there nonce plaintext files files' name e in
        let file : IntactFile aead content_hash (name, sealed) =
          All-read _ name sealed files' (put-IsIntact nonce sized plaintext files files' name i e)
            r in
        let same : file.content ≡ plaintext = collision_free _ _ (file.named ∙ named) in
        get_there name sealed plaintext files' valid r
          (subst (λ (p : Bytes). open_with_aad aead (aad name) sealed ≡ ok p) same file.opens)
