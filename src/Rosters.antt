-- ===== src/Rosters.antt =====
-- crates/panora-sync/src/group.rs and bytes.rs: rosters and the bytes that their signature covers.
pub mod Canonical
mod Examples
pub mod Frames
pub mod Names
use panora.Prelude.{
  ℕ, zero, suc, ◌+◌, ◌-◌, ◌*◌, ◌/◌, ◌%◌, ◌^◌, Bool, true, false, ltb, if◌then◌else◌, List, [], ◌∷◌,
  ◌++◌, map, Text, Bytes, codes, length, ℤ, pos, negsuc,
}

-- A public key; the order on keys is that of their bytes.
abbrev pub Identity : Type 0
Identity = Bytes

-- A name is a list of code points, a device id a list of bytes.
pub record Member : Type 0 where
  pub identity : Identity
  pub device_id : Text
  pub name : List ℕ
  pub added_at : ℤ

pub record Roster : Type 0 where
  pub group_id : Bytes
  pub epoch : ℕ
  pub prev : Bytes
  pub created_at : ℤ
  pub members : List Member
  pub key_epoch : ℕ
  pub key_check : Bytes
  pub signer : Identity
  pub signature : Bytes

-- `to_be_bytes` of an unsigned integer of so many bytes.
unfoldable pub be_bytes : ℕ → ℕ → Bytes
be_bytes zero n = []
be_bytes (suc width) n = be_bytes width (n / 256) ++ n % 256 ∷ []

-- The bits of an `i64`.
abbrev pub i64_bits : ℤ → ℕ
i64_bits (pos n) = n % 2 ^ 64
i64_bits (negsuc n) = 2 ^ 64 - 1 - n

unfoldable pub put : Bytes → Bytes → Bytes
unfolding be_bytes
put out field = (out ++ be_bytes 8 (length field)) ++ field

-- `as_bytes` of a text that holds one code point.
unfoldable pub utf8 : ℕ → Bytes
utf8 c =
    if ltb c 128
    then c ∷ []
    else if ltb c 2048
    then (192 + c / 64) ∷ (128 + c % 64) ∷ []
    else if ltb c 65536
    then (224 + c / 4096) ∷ (128 + c / 64 % 64) ∷ (128 + c % 64) ∷ []
    else (240 + c / 262144) ∷ (128 + c / 4096 % 64) ∷ (128 + c / 64 % 64) ∷ (128 + c % 64) ∷ []

unfoldable pub name_bytes : List ℕ → Bytes
unfolding utf8
name_bytes [] = []
name_bytes (c ∷ cs) = utf8 c ++ name_bytes cs

unfoldable pub put_members : Bytes → List Member → Bytes
unfolding put name_bytes
put_members out [] = out
put_members out (m ∷ ms) =
    put_members
      (put (put (put (put out m.identity) m.device_id) (name_bytes m.name))
        (be_bytes 8 (i64_bits m.added_at)))
      ms

abbrev pub label : Bytes
label = codes "panora-roster/1"

unfoldable pub body : Roster → Bytes
unfolding put_members
body r =
    let out = put label r.group_id in
    let out = put out (be_bytes 8 r.epoch) in
    let out = put out r.prev in
    let out = put out (be_bytes 8 (i64_bits r.created_at)) in
    let out = put out (be_bytes 8 r.key_epoch) in
    let out = put out r.key_check in
    let out = put out r.signer in
    let out = put out (be_bytes 8 (length r.members)) in put_members out r.members

-- What the crates blake3 and ed25519-dalek do: the derived key of a context and a text, the
-- hash of a text under a key, and whether
-- a signature by a public key is one of a text.
pub record Crates : Type 0 where
  pub derive_key : Text → Bytes → Bytes
  pub keyed_hash : Bytes → Bytes → Bytes
  pub verify_signature : Identity → Bytes → Bytes → Bool

abbrev pub hash_context : Text
hash_context = codes "panora roster hash v1"

unfoldable pub hash : Crates → Roster → Bytes
unfolding body
hash crates r = crates.derive_key hash_context (body r)
