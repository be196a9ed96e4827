-- ===== src/Group/Chains.antt =====
-- crates/panora-sync/src/group.rs, `apply_chain`: rosters that a peer sends.
use panora.Prelude.{
  ℕ, zero, suc, ◌+◌, ◌-◌, Bool, not, ◌&&◌, Option, none, some, List, [], ◌∷◌, length, contains,
  take, drop, get_elem?, drop_while, ◌==◌, nat_eq, list_eq, ltb, leb, if◌then◌else◌, Result, ok,
  err, ◌>>=◌, ◌>>◌, guard, ok_or,
}
use panora.Rosters.{Roster, Crates, hash}
use panora.Rosters.Names.{Error, roster, panicked}
use panora.Group.{is_member, member_in, removed_along, verify, check_successor, fork_winner}
use panora.Group.Reapply.{Change, changes_to_reapply}
use panora.Group.State.{GroupState, kept_rosters, current, push}

pub data RosterUpdate : Type 0 where
  unchanged advanced fork_lost removed_this_device : RosterUpdate
  replaced : List Change → RosterUpdate

-- The rosters of a chain behind `parent`.
unfoldable pub check_links : Crates → Roster → Roster → List Roster → Result Error (Unit {0})
unfolding verify check_successor
check_links crates mine parent [] = ok tt
check_links crates mine parent (r ∷ rs) = do
  verify crates r
  guard (r.group_id == mine.group_id) roster
  check_successor crates parent r
  check_links crates mine r rs

unfoldable pub check_chain : Crates → Roster → List Roster → Result Error (Unit {0})
unfolding check_links
check_chain crates mine [] = ok tt
check_chain crates mine (r ∷ rs) = do
  verify crates r
  guard (r.group_id == mine.group_id) roster
  check_links crates mine r rs

abbrev pub held_at : ℕ → List Roster → ℕ → Option Roster
held_at first rosters epoch = if ltb epoch first then none else get_elem? rosters (epoch - first)

abbrev pub is_held : Crates → ℕ → List Roster → Roster → Bool
is_held crates first rosters r = elim (held_at first rosters r.epoch) [
  | none ↦ Bool.false
  | some h ↦ hash crates h == hash crates r
]

unfoldable pub push_all : Crates → List Roster → GroupState → Result Error GroupState
unfolding push
push_all crates [] s = ok s
push_all crates (r ∷ rs) s = push crates r s >>= push_all crates rs

-- The incoming rosters are kept, and a device that they remove gives its keys up.
unfoldable pub settle :
    Crates
    → Roster
    → List Roster
    → RosterUpdate
    → GroupState
    → Result Error (GroupState × RosterUpdate)
unfolding push_all member_in removed_along
settle crates parent incoming update s = do
  s' ← push_all crates incoming s
  r ← current s'
  ok (
      if not (is_member s'.me r) && contains (removed_along parent.members incoming) s'.me
      then (record s' { keys = [] }, removed_this_device)
      else (s', update))

-- The branch of the chain that leaves the rosters held, `idx` places behind the oldest of them.
unfoldable pub branch :
    Crates → ℕ → Roster → List Roster → GroupState → Result Error (GroupState × RosterUpdate)
unfolding fork_winner changes_to_reapply settle
branch crates idx parent incoming s =
    if idx == length s.rosters
    then settle crates parent incoming advanced s
    else if ltb (length s.rosters) idx
    then err panicked
    else if not (fork_winner crates parent incoming (drop idx s.rosters))
    then ok (s, fork_lost)
    else settle crates parent incoming
        (replaced (changes_to_reapply parent (drop idx s.rosters) s.me))
        (record s { rosters = take idx s.rosters })

-- `rosters[idx - 1]`.
abbrev pub roster_before : ℕ → List Roster → Option Roster
roster_before zero rosters = none
roster_before (suc n) rosters = get_elem? rosters n

unfoldable pub apply_incoming :
    Crates → ℕ → ℕ → Roster → List Roster → GroupState → Result Error (GroupState × RosterUpdate)
unfolding check_successor branch
apply_incoming crates first newest head more s = do
  guard (not (ltb (newest + 1) head.epoch)) roster
  guard (not (leb head.epoch first)) roster
  parent ← ok_or (roster_before (head.epoch - first) s.rosters) panicked
  check_successor crates parent head
  branch crates (head.epoch - first) parent (head ∷ more) s

-- What is left of the chain behind the rosters that this device holds.
unfoldable pub apply_rest :
    Crates → ℕ → ℕ → GroupState → List Roster → Result Error (GroupState × RosterUpdate)
unfolding apply_incoming
apply_rest crates first newest s [] = ok (s, unchanged)
apply_rest crates first newest s (head ∷ more) = apply_incoming crates first newest head more s

unfoldable pub apply_chain :
    Crates → List Roster → GroupState → Result Error (GroupState × RosterUpdate)
unfolding check_chain hash apply_rest
apply_chain crates chain s = do
  guard (not (length chain == 0) && leb (length chain) kept_rosters) roster
  mine ← current s
  check_chain crates mine chain
  oldest ← ok_or (get_elem? s.rosters 0) panicked
  let ours = drop_while (λ r. ltb r.epoch oldest.epoch) chain
  apply_rest crates oldest.epoch mine.epoch s
      (drop_while (is_held crates oldest.epoch s.rosters) ours)

unfoldable pub apply_roster :
    Crates → Roster → GroupState → Result Error (GroupState × RosterUpdate)
unfolding apply_chain
apply_roster crates r s = apply_chain crates (r ∷ []) s
