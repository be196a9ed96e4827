-- ===== src/Crypto.antt =====
-- crates/panora-core/src/storage/crypto.rs: the versioned envelope around an AEAD, and hex texts.
pub mod Hex
pub mod Toy
pub mod Envelope
use panora.Prelude.{
  ℕ, ◌+◌, ◌-◌, ◌*◌, ◌/◌, ◌%◌, ◌≡◌, Bool, true, false, not, ◌&&◌, ◌||◌, Option, none, some, List, [],
  ◌∷◌, ◌++◌, Text, Bytes, codes, length, take, drop, get_elem?, ◌==◌, nat_eq, list_eq, ltb, leb,
  if◌then◌else◌, Result, ok, err, ◌>>=◌, ok_or,
}

-- The AEAD of the crate chacha20poly1305 under one key: nonce, associated data, message.
pub record Aead : Type 0 where
  pub encrypt : Bytes → Bytes → Bytes → Option Bytes
  pub decrypt : Bytes → Bytes → Bytes → Option Bytes

-- `Error::Crypto`.
pub data Failure : Type 0 where
  crypto : Failure

abbrev pub envelope_magic : Bytes
envelope_magic = codes "PNR1"

abbrev pub envelope_version : ℕ
envelope_version = 1

abbrev pub envelope_header_len : ℕ
envelope_header_len = 5

abbrev pub nonce_len : ℕ
nonce_len = 24

abbrev pub tag_len : ℕ
tag_len = 16

-- `slice::starts_with`.
unfoldable pub starts_with : Bytes → Bytes → Bool
starts_with xs [] = true
starts_with [] (y ∷ ys) = false
starts_with (x ∷ xs) (y ∷ ys) = x == y && starts_with xs ys

-- The nonce, which the program draws at random, is an argument.
unfoldable pub seal_with_aad : Aead → Bytes → Bytes → Bytes → Result Failure Bytes
seal_with_aad aead nonce aad plaintext = do
  ciphertext ← ok_or (aead.encrypt nonce aad plaintext) crypto
  ok (envelope_magic ++ envelope_version ∷ nonce ++ ciphertext)

unfoldable pub seal : Aead → Bytes → Bytes → Result Failure Bytes
unfolding seal_with_aad
seal aead nonce plaintext = seal_with_aad aead nonce [] plaintext

-- The nonce and the ciphertext behind it.
unfoldable pub decrypt_split : Aead → Bytes → Bytes → Result Failure Bytes
decrypt_split aead aad rest =
    ok_or (aead.decrypt (take nonce_len rest) aad (drop nonce_len rest)) crypto

abbrev pub is_version : Option ℕ → Bool
is_version none = false
is_version (some v) = v == envelope_version

unfoldable pub open_with_aad : Aead → Bytes → Bytes → Result Failure Bytes
unfolding starts_with decrypt_split
open_with_aad aead aad sealed =
    if starts_with sealed envelope_magic
    then (if ltb (length sealed) (envelope_header_len + nonce_len + tag_len)
          || not (is_version (get_elem? sealed 4))
        then err crypto
        else decrypt_split aead aad (drop envelope_header_len sealed))
    else if not (aad == []) || ltb (length sealed) (nonce_len + tag_len)
    then err crypto
    else decrypt_split aead [] sealed

unfoldable pub open_sealed : Aead → Bytes → Result Failure Bytes
unfolding open_with_aad
open_sealed aead sealed = open_with_aad aead [] sealed

-- `HEX[n]`.
unfoldable pub hex_digit : ℕ → ℕ
hex_digit n = if ltb n 10 then 48 + n else 87 + n

unfoldable pub hex_encode : Bytes → Text
unfolding hex_digit
hex_encode [] = []
hex_encode (b ∷ bs) = hex_digit (b / 16) ∷ hex_digit (b % 16) ∷ hex_encode bs

unfoldable pub hex_val : ℕ → Option ℕ
hex_val c =
    if leb 48 c && leb c 57
    then some (c - 48)
    else if leb 97 c && leb c 102
    then some (c - 97 + 10)
    else if leb 65 c && leb c 70
    then some (c - 65 + 10)
    else none

abbrev pub join_pair : Option ℕ → Option ℕ → Option Bytes → Option Bytes
join_pair (some high) (some low) (some rest) = some ((high * 16 + low) ∷ rest)
join_pair _ _ _ = none

unfoldable pub decode_pairs : Text → Option Bytes
unfolding hex_val
decode_pairs (a ∷ b ∷ r) = join_pair (hex_val a) (hex_val b) (decode_pairs r)
decode_pairs _ = some []

unfoldable pub hex_decode : Text → Option Bytes
unfolding decode_pairs
hex_decode s = if length s % 2 == 0 then decode_pairs s else none

-- `String::from_utf8` checks this: the byte ranges of well-formed UTF-8.
abbrev pub is_tail : ℕ → Bool
is_tail b = leb 128 b && leb b 191

abbrev pub is_two : ℕ → ℕ → Bool
is_two a b = leb 194 a && leb a 223 && is_tail b

abbrev pub is_three : ℕ → ℕ → ℕ → Bool
is_three a b c =
    is_tail c
    && ((a == 224 && leb 160 b && leb b 191)
        || (leb 225 a && leb a 239 && not (a == 237) && is_tail b)
        || (a == 237 && leb 128 b && leb b 159))

abbrev pub is_four : ℕ → ℕ → ℕ → ℕ → Bool
is_four a b c d =
    is_tail c
    && is_tail d
    && ((a == 240 && leb 144 b && leb b 191)
        || (leb 241 a && leb a 243 && is_tail b)
        || (a == 244 && leb 128 b && leb b 143))

unfoldable pub is_utf8 : Bytes → Bool
is_utf8 [] = true
is_utf8 (a ∷ []) = ltb a 128
is_utf8 (a ∷ b ∷ []) = (ltb a 128 && is_utf8 (b ∷ [])) || is_two a b
is_utf8 (a ∷ b ∷ c ∷ []) =
    (ltb a 128 && is_utf8 (b ∷ c ∷ [])) || (is_two a b && is_utf8 (c ∷ [])) || is_three a b c
is_utf8 (a ∷ b ∷ c ∷ d ∷ r) =
    (ltb a 128 && is_utf8 (b ∷ c ∷ d ∷ r))
    || (is_two a b && is_utf8 (c ∷ d ∷ r))
    || (is_three a b c && is_utf8 (d ∷ r))
    || (is_four a b c d && is_utf8 r)

unfoldable pub from_utf8 : Bytes → Result Failure Text
unfolding is_utf8
from_utf8 bs = if is_utf8 bs then ok bs else err crypto

unfoldable pub seal_text_with_aad : Aead → Bytes → Bytes → Text → Result Failure Text
unfolding seal_with_aad hex_encode
seal_text_with_aad aead nonce aad text = do
  sealed ← seal_with_aad aead nonce aad text
  ok (hex_encode sealed)

unfoldable pub open_text_with_aad : Aead → Bytes → Text → Result Failure Text
unfolding hex_decode open_with_aad from_utf8
open_text_with_aad aead aad sealed_hex = do
  sealed ← ok_or (hex_decode sealed_hex) crypto
  plaintext ← open_with_aad aead aad sealed
  from_utf8 plaintext

unfoldable pub seal_text : Aead → Bytes → Text → Result Failure Text
unfolding seal_text_with_aad
seal_text aead nonce text = seal_text_with_aad aead nonce [] text

unfoldable pub open_text : Aead → Text → Result Failure Text
unfolding open_text_with_aad
open_text aead sealed_hex = open_text_with_aad aead [] sealed_hex
