-- ===== src/Group/Membership.antt =====
-- crates/panora-sync/src/group.rs: the changes of a group that this device makes.
use panora.Prelude.{
  ℕ, ◌+◌, not, ◌||◌, Option, none, some, List, [], ◌∷◌, ◌++◌, Bytes, length, any, keep, ℤ, ◌==◌,
  nat_eq, list_eq, text_lt, ltb, if◌then◌else◌, Result, ok, err, ◌>>=◌, ◌>>◌, guard,
}
use panora.Rosters.{Identity, Member, Roster, Crates}
use panora.Rosters.Names.{Error, device, validate_device_id, validate_name}
use panora.Group.{max_members, is_member, member_in, verify, check_successor}
use panora.Group.Reapply.{Change, added, removed}
use panora.Group.State.{
  GroupKey, DeviceIdentity, GroupState, check, signed, current, is_peer, change, push,
}

-- `sort_by_key`, which is stable.
abbrev pub insert_member : Member → List Member → List Member
insert_member m [] = m ∷ []
insert_member m (n ∷ ms) =
    if text_lt n.identity m.identity then n ∷ insert_member m ms else m ∷ n ∷ ms

unfoldable pub sort_members : List Member → List Member
sort_members [] = []
sort_members (m ∷ ms) = insert_member m (sort_members ms)

-- The new roster is checked as a peer would check it, then kept.
unfoldable pub enter : Crates → Roster → GroupState → Result Error GroupState
unfolding verify check_successor push
enter crates next s = do
  r ← current s
  verify crates next
  check_successor crates r next
  push crates next s

unfoldable pub add_member :
    Crates → DeviceIdentity → Member → ℤ → GroupState → Result Error (GroupState × Roster)
unfolding validate_device_id validate_name change member_in sort_members signed enter
add_member crates signer m now s = do
  validate_device_id m.device_id
  validate_name m.name
  next ← change crates signer now s
  guard (not (is_member m.identity next)) device
  guard (not (any (λ n. n.device_id == m.device_id) next.members)) device
  guard (ltb (length next.members) max_members) device
  let grown = signed signer (record next { members = sort_members (next.members ++ m ∷ []) })
  s' ← enter crates grown s
  ok (s', grown)

-- The new key is drawn at random.
unfoldable pub remove_member :
    Crates
    → DeviceIdentity
    → Identity
    → ℤ
    → Bytes
    → GroupState
    → Result Error (GroupState × (Roster × GroupKey))
unfolding change check signed enter
remove_member crates signer target now random s = do
  guard (not (target == s.me)) device
  next ← change crates signer now s
  let kept = keep (λ m. not (m.identity == target)) next.members
  guard (not (length kept == length next.members)) device
  let key : GroupKey = record { epoch = next.epoch; key = random }
  let shrunk = signed signer (record next {
    members = kept;
    key_epoch = next.epoch;
    key_check = check crates next.group_id key;
  })
  s' ← enter crates shrunk (record s { keys = s.keys ++ key ∷ [] })
  ok (s', (shrunk, key))

-- One change of `reapply`: what it sends, nothing if the change makes no sense any more.
unfoldable pub redo :
    Crates
    → DeviceIdentity
    → ℤ
    → Bytes
    → Change
    → GroupState
    → Result Error (GroupState × Option (Roster × Option GroupKey))
redo crates signer now random (added m) s = do
  r ← current s
  if is_member m.identity r || any (λ n. n.device_id == m.device_id) r.members
      then ok (s, none)
      else add_member crates signer m now s >>= λ (s', next). ok (s', some (next, none))
redo crates signer now random (removed identity) s = do
  peer ← is_peer identity s
  if peer
      then (remove_member crates signer identity now random s >>= λ (s', (next, key)).
          ok (s', some (next, some key)))
      else ok (s, none)

abbrev pub sent {ℓ} : {A : Type ℓ} → Option A → List A → List A
sent none out = out
sent (some a) out = out ++ a ∷ []

abbrev pub Sent : Type 0
Sent = Roster × Option GroupKey

-- An error leaves the changes that went before it in place.
abbrev pub proceed :
    Result Error (GroupState × Option Sent)
    → GroupState
    → (GroupState → Option Sent → GroupState × Result Error (List Sent))
    → GroupState × Result Error (List Sent)
proceed (err e) s next = (s, err e)
proceed (ok (s', more)) s next = next s' more

unfoldable pub reapply_from :
    Crates
    → DeviceIdentity
    → ℤ
    → (ℕ → Bytes)
    → ℕ
    → List Sent
    → List Change
    → GroupState
    → GroupState × Result Error (List Sent)
reapply_from crates signer now random i out [] s = (s, ok out)
reapply_from crates signer now random i out (c ∷ changes) s =
    proceed (redo crates signer now (random i) c s) s
      (λ s' more. reapply_from crates signer now random (i + 1) (sent more out) changes s')

unfoldable pub reapply :
    Crates
    → DeviceIdentity
    → List Change
    → ℤ
    → (ℕ → Bytes)
    → GroupState
    → GroupState × Result Error (List (Roster × Option GroupKey))
unfolding reapply_from
reapply crates signer changes now random s = reapply_from crates signer now random 0 [] changes s
