-- ===== src/Rosters/Examples.antt =====
-- Two rosters that differ in the signature alone, and the bytes of integers and names.
use panora.Prelude.{◌≡◌, refl, [], ◌∷◌, Bytes, map, pos, negsuc, arith}
use panora.Rosters.{Member, Roster, be_bytes, i64_bits, name_bytes, body}
use panora.Rosters.Canonical.{Fits, spelled, body-injective}

abbrev laptop : Member
laptop = record { identity = 1 ∷ []; device_id = 97 ∷ []; name = 233 ∷ []; added_at = negsuc 0 }

abbrev signed_as : Bytes → Roster
signed_as signature = record {
  group_id = 7 ∷ [];
  epoch = 258;
  prev = 9 ∷ [];
  created_at = pos 6;
  members = laptop ∷ [];
  key_epoch = 1;
  key_check = 40 ∷ [];
  signer = 1 ∷ [];
  signature = signature;
}

signed_as-Fits : (signature : Bytes) → Fits (signed_as signature)
unfolding name_bytes
signed_as-Fits signature = record {
  group_id = omega arith;
  prev = omega arith;
  key_check = omega arith;
  signer = omega arith;
  epoch = omega arith;
  key_epoch = omega arith;
  created_at = omega arith;
  count = omega arith;
  members = ((omega arith, omega arith, omega arith, omega arith), tt);
}

same_body : body (signed_as (1 ∷ [])) ≡ body (signed_as (2 ∷ []))
unfolding body
same_body = refl

body-injective_example :
    let r = signed_as (1 ∷ []) in
    let s = signed_as (2 ∷ []) in
    (r.group_id ≡ s.group_id)
    × (r.epoch ≡ s.epoch)
    × (r.prev ≡ s.prev)
    × (r.created_at ≡ s.created_at)
    × (r.key_epoch ≡ s.key_epoch)
    × (r.key_check ≡ s.key_check)
    × (r.signer ≡ s.signer)
    × (map spelled r.members ≡ map spelled s.members)
body-injective_example =
    body-injective (signed_as (1 ∷ [])) (signed_as (2 ∷ [])) (signed_as-Fits (1 ∷ []))
      (signed_as-Fits (2 ∷ [])) same_body

test_be_bytes : be_bytes 4 258 ≡ 0 ∷ 0 ∷ 1 ∷ 2 ∷ []
unfolding be_bytes
test_be_bytes = refl

test_minus_one : be_bytes 2 (i64_bits (negsuc 0)) ≡ 255 ∷ 255 ∷ []
unfolding be_bytes
test_minus_one = refl

-- `é` and the euro sign.
test_name_bytes : name_bytes (233 ∷ 8364 ∷ []) ≡ 195 ∷ 169 ∷ 226 ∷ 130 ∷ 172 ∷ []
unfolding name_bytes
test_name_bytes = refl
