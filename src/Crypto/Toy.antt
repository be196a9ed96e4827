-- ===== src/Crypto/Toy.antt =====
-- A cipher that only marks what it seals, for the tests.
use panora.Prelude.{
  ℕ, zero, suc, ◌+◌, ◌%◌, ◌≡◌, refl, true, none, some, [], ◌∷◌, ◌++◌, Bytes, length, all, All, drop,
  ltb, ◌<◌, ◌&&◌, arith, if◌then◌else◌, Bool-cases, inl, inr, subst, nat_eq, ==-refl,
}
use panora.Crypto.{Aead, tag_len, starts_with}
use panora.Crypto.Hex.{IsByte}
use panora.Crypto.Envelope.{IsAead}

abbrev pub repeat : ℕ → ℕ → Bytes
repeat zero b = []
repeat (suc n) b = b ∷ repeat n b

abbrev pub total : Bytes → ℕ
total [] = 0
total (b ∷ bs) = b + total bs

-- The key fourteen times, and a byte for the nonce and one for the associated data.
abbrev pub tag : ℕ → Bytes → Bytes → Bytes
tag k nonce aad = repeat 14 k ++ total nonce % 256 ∷ total aad % 256 ∷ []

abbrev pub toy : ℕ → Aead
toy k = record {
  encrypt = λ nonce aad message.
      if all (λ b. ltb b 256) message && ltb k 256 then some (tag k nonce aad ++ message) else none;
  decrypt = λ nonce aad ciphertext.
      if starts_with ciphertext (tag k nonce aad) then some (drop 16 ciphertext) else none;
}

pub all-IsByte : (bs : Bytes) → all (λ b. ltb b 256) bs ≡ true → All IsByte bs
all-IsByte [] h = tt
all-IsByte (b ∷ bs) h = (ground arith, all-IsByte bs (ground arith))

toy_encrypt :
    (k : ℕ) (nonce aad m c : Bytes)
    → (toy k).encrypt nonce aad m ≡ some c
    → (all (λ b. ltb b 256) m ≡ true) × (k < 256) × (tag k nonce aad ++ m ≡ c)
toy_encrypt k nonce aad m c e = elim (Bool-cases (all (λ b. ltb b 256) m && ltb k 256)) [
  | inl t ↦ (ground (arith, t), ground (arith, t), ground arith)
  | inr t ↦ absurd (ground arith)
]

length-toy : (k : ℕ) (nonce aad m : Bytes) → length (tag k nonce aad ++ m) ≡ length m + tag_len
length-toy k nonce aad m = omega arith

toy-IsByte :
    (k : ℕ) (nonce aad m : Bytes) → k < 256 → All IsByte m → All IsByte (tag k nonce aad ++ m)
toy-IsByte k nonce aad m h a =
    let n : total nonce % 256 < 256 = omega arith in
    let d : total aad % 256 < 256 = omega arith in
    (h, (h, (h, (h, (h, (h, (h, (h, (h, (h, (h, (h, (h, (h, (n, (d, a))))))))))))))))

toy_decrypt :
    (k : ℕ) (nonce aad m : Bytes) → (toy k).decrypt nonce aad (tag k nonce aad ++ m) ≡ some m
unfolding starts_with
toy_decrypt k nonce aad m =
    rw (==-refl k, ==-refl (total nonce % 256), ==-refl (total aad % 256)) refl

pub toy-IsAead : (k : ℕ) → IsAead (toy k)
toy-IsAead k = record {
  longer = λ nonce aad m c e.
      let (_, _, w) = toy_encrypt k nonce aad m c e in
      subst (λ (x : Bytes). length x ≡ length m + tag_len) w (length-toy k nonce aad m);
  bytes = λ nonce aad m c e.
      let (a, h, w) = toy_encrypt k nonce aad m c e in
      subst (All IsByte) w (toy-IsByte k nonce aad m h (all-IsByte m a));
  opens = λ nonce aad m c e.
      let (_, _, w) = toy_encrypt k nonce aad m c e in
      subst (λ (x : Bytes). (toy k).decrypt nonce aad x ≡ some m) w (toy_decrypt k nonce aad m);
}
