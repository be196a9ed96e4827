-- ===== src/Crypto/Hex.antt =====
-- storage/crypto.rs, `hex_encode` and `hex_decode`.
use panora.Prelude.{
  ℕ, ◌+◌, ◌*◌, ◌/◌, ◌%◌, ◌<◌, ◌≡◌, refl, some, [], ◌∷◌, Bytes, length, All, nat_eq, arith,
}
use panora.Crypto.{hex_digit, hex_encode, hex_val, decode_pairs, hex_decode}

abbrev pub IsByte : ℕ → Type 0
IsByte b = b < 256

hex_val-hex_digit : (n : ℕ) → n < 16 → hex_val (hex_digit n) ≡ some n
unfolding hex_val hex_digit
hex_val-hex_digit n h = ground arith

length-hex_encode : (bs : Bytes) → length (hex_encode bs) ≡ 2 * length bs
unfolding hex_encode
length-hex_encode [] = refl
length-hex_encode (b ∷ bs) = omega (arith, length-hex_encode bs)

decode_pairs-hex_encode : (bs : Bytes) → All IsByte bs → decode_pairs (hex_encode bs) ≡ some bs
unfolding decode_pairs hex_encode
decode_pairs-hex_encode [] h = refl
decode_pairs-hex_encode (b ∷ bs) h =
    let high : b / 16 < 16 = omega arith in
    let joined : b / 16 * 16 + b % 16 ≡ b = omega arith in
    rw (
      hex_val-hex_digit (b / 16) high,
      hex_val-hex_digit (b % 16) (omega arith),
      decode_pairs-hex_encode bs h.1,
      joined,
    )

pub hex_decode-hex_encode : (bs : Bytes) → All IsByte bs → hex_decode (hex_encode bs) ≡ some bs
unfolding hex_decode
hex_decode-hex_encode bs h =
    let even : length (hex_encode bs) % 2 ≡ 0 = omega (arith, length-hex_encode bs) in
    rw even (decode_pairs-hex_encode bs h)
