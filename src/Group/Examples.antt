-- ===== src/Group/Examples.antt =====
-- Rosters of a small group, the theorems of Group at them, and tests of the checks on names and ids.
use panora.Prelude.{
  contains, ◌==◌, nat_eq, list_eq, ℕ, arith, ap, length, ◌≡◌, ◌≢◌, refl, true, false, not, ◌&&◌,
  some, List, [], ◌∷◌, Bytes, pos, ok, err,
}
use panora.Group.Reapply.{changes_to_reapply, removed, has_removal, changes_to_reapply-removals}
use panora.Group.{
  removed_along, last_members, is_some, member_in, is_member, members_without, check_key,
  check_successor, removes_signer, fork_winner,
}
use panora.Rosters.Names.{device, validate_device_id, validate_name}
use panora.Rosters.{Crates, Roster, Member, hash}
use panora.Group.Successor.{check_successor-StaysOrLeaves, StaysOrLeaves}
use panora.Group.Forks.{fork_winner-asymmetric, fork_winner_agrees}

-- The derived key is the text itself, and every signature is good.
abbrev toy_crates : Crates
toy_crates = record {
  derive_key = λ context text. text;
  keyed_hash = λ key text. key;
  verify_signature = λ signer text signature. true;
}

abbrev device_of : ℕ → Member
device_of n = record {
  identity = n ∷ [];
  device_id = 97 ∷ n ∷ [];
  name = 98 ∷ [];
  added_at = pos 5;
}

abbrev roster_of : ℕ → Bytes → List Member → ℕ → Bytes → ℕ → Bytes → Roster
roster_of epoch prev members key_epoch key signer signature = record {
  group_id = 7 ∷ [];
  epoch = epoch;
  prev = prev;
  created_at = pos 6;
  members = members;
  key_epoch = key_epoch;
  key_check = key;
  signer = signer ∷ [];
  signature = signature;
}

abbrev pair : Roster
pair = roster_of 3 (1 ∷ []) (device_of 1 ∷ device_of 2 ∷ []) 0 (40 ∷ []) 1 (11 ∷ [])

-- Device 1 removes device 2, and device 2 adds device 3.
abbrev alone : Roster
alone = roster_of 4 (hash toy_crates pair) (device_of 1 ∷ []) 4 (41 ∷ []) 1 (12 ∷ [])

abbrev three : Roster
three =
    roster_of 4 (hash toy_crates pair) (device_of 1 ∷ device_of 2 ∷ device_of 3 ∷ []) 0 (40 ∷ []) 2
      (13 ∷ [])

alone_follows : check_successor toy_crates pair alone ≡ ok tt
unfolding check_successor check_key member_in members_without hash
alone_follows = refl

device_2 : member_in (2 ∷ []) pair.members ≡ some (device_of 2)
unfolding member_in
device_2 = refl

check_successor-StaysOrLeaves_example :
    (is_member alone.signer pair ≡ true)
    × (alone.epoch ≡ 4)
    × (alone.prev ≡ hash toy_crates pair)
    × StaysOrLeaves pair alone (2 ∷ []) (device_of 2)
check_successor-StaysOrLeaves_example =
    check_successor-StaysOrLeaves toy_crates pair alone (2 ∷ []) (device_of 2) alone_follows
      device_2

alone_wins : fork_winner toy_crates pair (alone ∷ []) (three ∷ []) ≡ true
unfolding fork_winner
alone_wins = refl

test_asymmetric : fork_winner toy_crates pair (three ∷ []) (alone ∷ []) ≡ false
test_asymmetric = fork_winner-asymmetric toy_crates pair (alone ∷ []) (three ∷ []) alone_wins

-- The two bodies differ in length.
other_hashes : hash toy_crates alone ≢ hash toy_crates three
unfolding hash
other_hashes e = omega (arith, ap length e)

one_side :
    (removes_signer pair (alone ∷ []) (three ∷ []) && removes_signer pair (three ∷ []) (alone ∷ []))
    ≡ false
unfolding removes_signer
one_side = refl

fork_winner_agrees_example :
    fork_winner toy_crates pair (alone ∷ []) (three ∷ [])
    ≡ not (fork_winner toy_crates pair (three ∷ []) (alone ∷ []))
fork_winner_agrees_example =
    fork_winner_agrees toy_crates pair alone three [] [] other_hashes one_side

-- Device 1 redoes the removal of device 2.
test_reapply : changes_to_reapply pair (alone ∷ []) (1 ∷ []) ≡ removed (2 ∷ []) ∷ []
unfolding changes_to_reapply
test_reapply = refl

changes_to_reapply-removals_example :
    has_removal (2 ∷ []) (changes_to_reapply pair (alone ∷ []) (1 ∷ [])) ≡ (
      contains (removed_along pair.members (alone ∷ [])) (2 ∷ [])
      && (not ((device_of 2).identity == (device_of 1).identity)
          && not (is_some (member_in (2 ∷ []) (last_members (alone ∷ []))))))
changes_to_reapply-removals_example =
    changes_to_reapply-removals pair (alone ∷ []) (1 ∷ []) (2 ∷ [])

-- `a-1` is an id, `a b` and the empty text are not.
test_id : validate_device_id (97 ∷ 45 ∷ 49 ∷ []) ≡ ok tt
unfolding validate_device_id
test_id = refl

test_id_space : validate_device_id (97 ∷ 32 ∷ 98 ∷ []) ≡ err device
unfolding validate_device_id
test_id_space = refl

-- A name may hold a space, but neither end with one nor hold a direction override.
test_name : validate_name (97 ∷ 32 ∷ 98 ∷ []) ≡ ok tt
unfolding validate_name
test_name = refl

test_name_padded : validate_name (97 ∷ 32 ∷ []) ≡ err device
unfolding validate_name
test_name_padded = refl

test_name_override : validate_name (97 ∷ 8238 ∷ 98 ∷ []) ≡ err device
unfolding validate_name
test_name_override = refl
