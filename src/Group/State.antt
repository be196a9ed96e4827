-- ===== src/Group/State.antt =====
-- crates/panora-sync/src/group.rs, `GroupState`: a device's view of its group.
use panora.Prelude.{
  ℕ, ◌+◌, ◌-◌, ◌%◌, ◌^◌, Bool, true, false, ◌&&◌, Option, List, [], ◌∷◌, ◌++◌, Text, Bytes, codes,
  length, any, all, find, keep, drop, last, ℤ, ◌==◌, nat_eq, list_eq, leb, if◌then◌else◌, Result,
  ok, err, ◌>>=◌, ◌>>◌, guard, ok_or,
}
use panora.Rosters.{Identity, Roster, Crates, be_bytes, put, hash, body}
use panora.Rosters.Names.{Error, roster, panicked, validate_device_id, validate_name}
use panora.Group.{zeros, is_some, is_member, member_in, verify, check_successor}

abbrev pub kept_rosters : ℕ
kept_rosters = 8

pub record GroupKey : Type 0 where
  pub epoch : ℕ
  pub key : Bytes

-- The key pair of the crate ring: its public half and `sign`.
pub record DeviceIdentity : Type 0 where
  pub public : Identity
  pub sign : Bytes → Bytes

pub record GroupState : Type 0 where
  pub me : Identity
  pub rosters : List Roster
  pub keys : List GroupKey

unfoldable pub check : Crates → Bytes → GroupKey → Bytes
unfolding put be_bytes
check crates group_id k =
    crates.keyed_hash k.key
      (put (put (codes "panora group key check v1") group_id) (be_bytes 8 k.epoch))

-- A roster was made under a key.
abbrev pub is_under : Crates → Bytes → GroupKey → Roster → Bool
is_under crates group_id k r = r.key_epoch == k.epoch && r.key_check == check crates group_id k

unfoldable pub signed : DeviceIdentity → Roster → Roster
unfolding body
signed identity r =
    let r' = record r { signer = identity.public } in
    record r' { signature = identity.sign (body r') }

-- The group id and the key are drawn at random.
unfoldable pub create :
    DeviceIdentity → Crates → Bytes → Bytes → Text → List ℕ → ℤ → Result Error GroupState
unfolding validate_device_id validate_name check signed
create identity crates group_id random device_id name now = do
  validate_device_id device_id
  validate_name name
  let key : GroupKey = record { epoch = 0; key = random }
  let made : Roster = record {
    group_id = group_id;
    epoch = 0;
    prev = zeros;
    created_at = now;
    members =
        record { identity = identity.public; device_id = device_id; name = name; added_at = now }
        ∷ [];
    key_epoch = 0;
    key_check = check crates group_id key;
    signer = identity.public;
    signature = zeros ++ zeros;
  }
  ok (record { me = identity.public; rosters = signed identity made ∷ []; keys = key ∷ [] })

-- The loop over `windows(2)`.
unfoldable pub validate_chain : Crates → Roster → List Roster → Result Error (Unit {0})
unfolding verify check_successor
validate_chain crates parent [] = ok tt
validate_chain crates parent (next ∷ rs) = do
  verify crates next
  check_successor crates parent next
  validate_chain crates next rs

unfoldable pub validate_rosters : Crates → List Roster → List GroupKey → Result Error (Unit {0})
unfolding validate_chain check
validate_rosters crates [] keys = err roster
validate_rosters crates (first ∷ rest) keys = do
  guard (leb (length (first ∷ rest)) kept_rosters) roster
  verify crates first
  validate_chain crates first rest
  guard (all (λ k. any (is_under crates first.group_id k) (first ∷ rest)) keys) roster

unfoldable pub validate : Crates → GroupState → Result Error (Unit {0})
unfolding validate_rosters
validate crates s = validate_rosters crates s.rosters s.keys

abbrev pub current : GroupState → Result Error Roster
current s = ok_or (last s.rosters) panicked

abbrev pub holds_me : GroupState → Result Error Bool
holds_me s = do r ← current s; ok (is_member s.me r)

abbrev pub is_peer : Identity → GroupState → Result Error Bool
is_peer identity s =
    if identity == s.me then ok false else current s >>= λ r. ok (is_member identity r)

unfoldable pub current_key : Crates → GroupState → Result Error (Option GroupKey)
unfolding check
current_key crates s = do r ← current s; ok (find (λ k. is_under crates r.group_id k r) s.keys)

unfoldable pub joined : Crates → Identity → List Roster → GroupKey → Result Error GroupState
unfolding validate member_in current_key
joined crates me rosters key = do
  let s : GroupState = record { me = me; rosters = rosters; keys = key ∷ [] }
  validate crates s
  listed ← holds_me s
  guard listed roster
  held ← current_key crates s
  guard (is_some held) roster
  ok s

unfoldable pub key_for_peer : Crates → Identity → GroupState → Result Error GroupKey
unfolding member_in current_key
key_for_peer crates peer s = do
  trusted ← is_peer peer s
  guard trusted roster
  held ← current_key crates s
  ok_or held roster

-- Whether a roster that is kept was made under the key.
abbrev pub is_known : Crates → Bytes → List Roster → GroupKey → Bool
is_known crates group_id rosters k = any (is_under crates group_id k) rosters

unfoldable pub prune : Crates → GroupState → Result Error GroupState
unfolding check
prune crates s = do
  r ← current s
  ok (record s { keys = keep (is_known crates r.group_id s.rosters) s.keys })

unfoldable pub accept_key : Crates → GroupKey → GroupState → Result Error (GroupState × Bool)
unfolding member_in check prune
accept_key crates key s = do
  listed ← holds_me s
  guard listed roster
  r ← current s
  guard (is_known crates r.group_id s.rosters key) roster
  if any (λ k. k.epoch == key.epoch && check crates r.group_id k == check crates r.group_id key)
        s.keys
      then ok (s, false)
      else prune crates (record s { keys = s.keys ++ key ∷ [] }) >>= λ s'. ok (s', true)

-- `epoch` is a `u64`.
unfoldable pub change : Crates → DeviceIdentity → ℤ → GroupState → Result Error Roster
unfolding member_in hash
change crates signer now s = do
  listed ← (if signer.public == s.me then holds_me s else ok false)
  guard listed roster
  r ← current s
  ok (record r { epoch = (r.epoch + 1) % 2 ^ 64; prev = hash crates r; created_at = now })

unfoldable pub push : Crates → Roster → GroupState → Result Error GroupState
unfolding prune
push crates r s =
    let grown = s.rosters ++ r ∷ [] in
    prune crates (record s { rosters = drop (length grown - kept_rosters) grown })
