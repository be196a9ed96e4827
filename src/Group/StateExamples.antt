-- ===== src/Group/StateExamples.antt =====
-- A group of two devices, and the theorems on a device's view of its group at it.
use panora.Prelude.{◌≡◌, ◌≢◌, refl, true, not, none, some, [], ◌∷◌, all, pos, ok}
use panora.Rosters.{Roster, hash}
use panora.Rosters.Names.{panicked}
use panora.Group.{member_in}
use panora.Group.State.{
  GroupKey, GroupState, create, validate, signed, current, current_key, is_under,
}
use panora.Group.Toy.{
  toy, laptop, phone, founding, founded, second, joint, toy_pair, founded-validate,
}
use panora.Group.Membership.{add_member, remove_member}
use panora.Group.Chains.{apply_roster, unchanged, removed_this_device}
use panora.Group.Valid.{pushed}
use panora.Group.Upkeep.{with_key, shrunk}
use panora.Group.Calls.{add, remove, apply, perform, run}
use panora.Group.Loads.{create-validate, run-validate, run-ne-panicked}
use panora.Group.Rotation.{remove_member-locks}

founded-create : create laptop toy (7 ∷ []) (30 ∷ []) (49 ∷ []) (108 ∷ []) (pos 5) ≡ ok founded
unfolding create
founded-create = refl

create-validate_example : validate toy founded ≡ ok tt
create-validate_example =
    create-validate toy laptop (7 ∷ []) (30 ∷ []) (49 ∷ []) (108 ∷ []) (pos 5) founded toy_pair
      founded-create

run-validate_example :
    validate toy
      (run toy (add laptop phone (pos 8) ∷ remove laptop (2 ∷ []) (pos 9) (31 ∷ []) ∷ []) founded)
    ≡ ok tt
run-validate_example =
    run-validate toy (add laptop phone (pos 8) ∷ remove laptop (2 ∷ []) (pos 9) (31 ∷ []) ∷ [])
      founded founded-validate

run-ne-panicked_example :
    (perform toy (apply (founding ∷ [])) (run toy (add laptop phone (pos 8) ∷ []) founded)).1
    ≢ some panicked
run-ne-panicked_example =
    run-ne-panicked toy (add laptop phone (pos 8) ∷ []) (apply (founding ∷ [])) founded
      founded-validate

test_add : add_member toy laptop phone (pos 8) founded ≡ ok (joint, second)
unfolding add_member signed
test_add = refl

joint-validate : validate toy joint ≡ ok tt
unfolding validate signed hash
joint-validate = refl

-- What `change` hands `remove_member`.
abbrev third : Roster
third = record second { epoch = 2; prev = hash toy second; created_at = pos 9 }

abbrev final : Roster
final = shrunk toy laptop (pos 9) joint (2 ∷ []) (31 ∷ []) third

abbrev final_state : GroupState
final_state = pushed toy final (with_key toy laptop (pos 9) joint (2 ∷ []) (31 ∷ []) 2)

abbrev final_key : GroupKey
final_key = record { epoch = 2; key = 31 ∷ [] }

phone_removed :
    remove_member toy laptop (2 ∷ []) (pos 9) (31 ∷ []) joint ≡ ok (final_state, (final, final_key))
unfolding remove_member signed
phone_removed = refl

remove_member-locks_example :
    (current final_state ≡ ok final)
    × (member_in (2 ∷ []) final.members ≡ none)
    × (current_key toy final_state ≡ ok (some final_key))
    × (all (λ k. not (is_under toy final.group_id k final)) joint.keys ≡ true)
remove_member-locks_example =
    remove_member-locks toy laptop (pos 9) (2 ∷ []) (31 ∷ []) joint final_state final final_key
      joint-validate phone_removed

-- The phone, which holds the first two rosters, hears that it was removed and gives its key up.
test_removed :
    apply_roster toy final (record joint { me = 2 ∷ [] })
    ≡ ok (
      record { me = 2 ∷ []; rosters = founding ∷ second ∷ final ∷ []; keys = [] },
      removed_this_device,
    )
unfolding apply_roster signed
test_removed = refl

test_unchanged : apply_roster toy second joint ≡ ok (joint, unchanged)
unfolding apply_roster signed
test_unchanged = refl
