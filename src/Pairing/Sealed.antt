-- ===== src/Pairing/Sealed.antt =====
-- pairing.rs, `seal` and `open`: what the crates document, and that a sealed body opens to itself.
use panora.Prelude.{
  ◌≡◌, refl, ◌∙◌, ap, Option, none, some, Bytes, length, Result, ok, err, >>=-eq-ok, Result-cases,
  ok_or, arith, inl, inr,
}
use panora.Crypto.{nonce_len, seal_with_aad, open_with_aad}
use panora.Crypto.Envelope.{IsAead, open_with_aad-seal_with_aad}
use panora.Rosters.Names as Names
use panora.Pairing.{Error, json, in_group, Json, JoinBody, WelcomeBody, Primitives, seal, open_body}

-- Both ends of a key agreement get the same secret, every key makes a cipher, and serde_json reads
-- back what it wrote.
pub record IsLawful (p : Primitives) : Type 0 where
  pub agrees : (a b : Bytes) → p.agree a (p.public_of b) ≡ p.agree b (p.public_of a)
  pub ciphers : (key : Bytes) → IsAead (p.cipher key)
  pub join_reads :
      (body : JoinBody) (text : Bytes)
      → p.join_json.to_vec body ≡ some text
      → p.join_json.from_slice text ≡ some body
  pub welcome_reads :
      (body : WelcomeBody) (text : Bytes)
      → p.welcome_json.to_vec body ≡ some text
      → p.welcome_json.from_slice text ≡ some body

pub in_group-eq-ok : {A : Type 0} (r : Result Names.Error A) (a : A) → in_group r ≡ ok a → r ≡ ok a
in_group-eq-ok (ok b) a e = ground arith
in_group-eq-ok (err b) a e = absurd cc

pub ok_or-eq-ok : {A : Type 0} (o : Option A) (e : Error) (a : A) → ok_or o e ≡ ok a → o ≡ some a
ok_or-eq-ok none e a h = absurd cc
ok_or-eq-ok (some b) e a h = ground arith

module _ {Body : Type 0} (p : Primitives) (law : IsLawful p) (serde : Json Body)
    (reads : (body : Body) (text : Bytes)
      → serde.to_vec body ≡ some text
      → serde.from_slice text ≡ some body) where
  pub open_body-seal :
      (nonce key th sealed : Bytes) (body : Body)
      → length nonce ≡ nonce_len
      → seal p serde nonce key th body ≡ ok sealed
      → open_body p serde key th sealed ≡ ok body
  unfolding seal open_body open_with_aad
  open_body-seal nonce key th sealed body sized e =
      let (text, w, e1) = >>=-eq-ok (ok_or (serde.to_vec body) json) _ e in
      elim (Result-cases (seal_with_aad (p.cipher key) nonce th text)) [
        | inr (x, f) ↦ absurd (ground arith)
        | inl (out, f) ↦
            let same : out ≡ sealed = ground arith in
            rw
              (
                open_with_aad-seal_with_aad (p.cipher key) (law.ciphers key) nonce sized th text
                    sealed (f ∙ ap (λ (s : Bytes). ok s) same),
                reads body text (ok_or-eq-ok (serde.to_vec body) json text w),
              )
              refl
      ]
