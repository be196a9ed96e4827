-- ===== src/Crypto/Envelope.antt =====
-- storage/crypto.rs: what was sealed opens under the same key and binding.
use panora.Prelude.{
  ℕ, ◌+◌, ◌≤◌, ◌≡◌, refl, true, some, ◌∷◌, ◌++◌, Text, Bytes, length, All, take, drop, take-append,
  drop-append, length-append, nat_eq, list_eq, arith, ok, >>=-eq-ok, subst, Option-cases, inl, inr,
  All-append,
}
use panora.Crypto.{
  Aead, starts_with, envelope_magic, envelope_version, nonce_len, tag_len, seal_with_aad,
  decrypt_split, open_with_aad, seal_text_with_aad, open_text_with_aad, from_utf8, is_utf8,
  hex_encode,
}
use panora.Crypto.Hex.{IsByte, hex_decode-hex_encode}

-- What chacha20poly1305 documents: a ciphertext is bytes, is `tag_len` longer than the message, and
-- decrypts under its nonce and associated data.
pub record IsAead (aead : Aead) : Type 0 where
  pub longer :
      (nonce aad message ciphertext : Bytes)
      → aead.encrypt nonce aad message ≡ some ciphertext
      → length ciphertext ≡ length message + tag_len
  pub bytes :
      (nonce aad message ciphertext : Bytes)
      → aead.encrypt nonce aad message ≡ some ciphertext
      → All IsByte ciphertext
  pub opens :
      (nonce aad message ciphertext : Bytes)
      → aead.encrypt nonce aad message ≡ some ciphertext
      → aead.decrypt nonce aad ciphertext ≡ some message

take_nonce :
    (nonce rest : Bytes) → length nonce ≡ nonce_len → take nonce_len (nonce ++ rest) ≡ nonce
take_nonce nonce rest h =
    subst (λ (n : ℕ). take n (nonce ++ rest) ≡ nonce) h (take-append nonce rest)

drop_nonce : (nonce rest : Bytes) → length nonce ≡ nonce_len → drop nonce_len (nonce ++ rest) ≡ rest
drop_nonce nonce rest h =
    subst (λ (n : ℕ). drop n (nonce ++ rest) ≡ rest) h (drop-append nonce rest)

module _ (aead : Aead) (law : IsAead aead) (nonce : Bytes) (sized : length nonce ≡ nonce_len) where
  pub open_with_aad-seal_with_aad :
      (aad plaintext sealed : Bytes)
      → seal_with_aad aead nonce aad plaintext ≡ ok sealed
      → open_with_aad aead aad sealed ≡ ok plaintext
  unfolding seal_with_aad open_with_aad starts_with decrypt_split
  open_with_aad-seal_with_aad aad plaintext sealed e =
      elim (Option-cases (aead.encrypt nonce aad plaintext)) [
        | inl p ↦ absurd (ground arith)
        | inr (ciphertext, p) ↦
            let w : sealed ≡ envelope_magic ++ envelope_version ∷ nonce ++ ciphertext =
              ground arith in
            let long : 40 ≤ length (nonce ++ ciphertext) = omega (
              arith,
              length-append nonce ciphertext,
              law.longer nonce aad plaintext ciphertext p,
            ) in
            rw
              (
                w,
                take_nonce nonce ciphertext sized,
                drop_nonce nonce ciphertext sized,
                law.opens nonce aad plaintext ciphertext p,
              )
              (ground arith)
      ]

  seal_with_aad-IsByte :
      (aad plaintext sealed : Bytes)
      → All IsByte nonce
      → seal_with_aad aead nonce aad plaintext ≡ ok sealed
      → All IsByte sealed
  unfolding seal_with_aad
  seal_with_aad-IsByte aad plaintext sealed b e =
      elim (Option-cases (aead.encrypt nonce aad plaintext)) [
        | inl p ↦ absurd (ground arith)
        | inr (ciphertext, p) ↦
            let w : sealed ≡ envelope_magic ++ envelope_version ∷ nonce ++ ciphertext =
              ground arith in
            rw w (
              omega arith,
              (
                omega arith,
                (
                  omega arith,
                  (
                    omega arith,
                    (
                      omega arith,
                      All-append IsByte nonce ciphertext b
                          (law.bytes nonce aad plaintext ciphertext p),
                    ),
                  ),
                ),
              ),
            )
      ]

  -- Under an AEAD that opens what it sealed and a nonce of 24 bytes, valid UTF-8 that was sealed
  -- into the hex envelope opens to itself under the same binding.
  pub open_text_with_aad-seal_text_with_aad :
      (aad : Bytes) (text sealed : Text)
      → All IsByte nonce
      → is_utf8 text ≡ true
      → seal_text_with_aad aead nonce aad text ≡ ok sealed
      → open_text_with_aad aead aad sealed ≡ ok text
  unfolding seal_text_with_aad open_text_with_aad from_utf8
  open_text_with_aad-seal_text_with_aad aad text sealed b u e =
      let (envelope, p, q) = >>=-eq-ok (seal_with_aad aead nonce aad text) _ e in
      let w : sealed ≡ hex_encode envelope = ground arith in
      rw
        (
          w,
          hex_decode-hex_encode envelope (seal_with_aad-IsByte aad text envelope b p),
          open_with_aad-seal_with_aad aad text envelope p,
          u,
        )
        refl
