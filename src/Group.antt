-- ===== src/Group.antt =====
-- crates/panora-sync/src/group.rs: the signed rosters of a sync group, their successors and forks.
mod Examples
mod StateExamples
pub mod Toy
pub mod Forks
pub mod Reapply
pub mod Membership
pub mod Additions
pub mod Arrivals
pub mod Calls
pub mod Chains
pub mod Checks
pub mod Rotation
pub mod Joins
pub mod Lookup
pub mod Linked
pub mod Loads
pub mod Valid
pub mod Upkeep
pub mod State
pub mod Successor
use panora.Prelude.{
  ℕ, ◌+◌, ◌-◌, ◌^◌, Bool, true, false, not, ◌&&◌, ◌||◌, Option, none, some, List, [], ◌∷◌, ◌++◌,
  map, Text, Bytes, codes, length, any, all, find, keep, contains, ℤ, int_beq, ◌==◌, nat_eq,
  list_eq, text_lt, ltb, leb, if◌then◌else◌, Result, ok, err, ◌>>=◌, ◌>>◌, guard, Eq,
}
use panora.Rosters.{Identity, Member, Roster, Crates, hash, body}
use panora.Rosters.Names.{Error, roster, signature, validate_device_id, validate_name}
use panora.History.Blobs.{sort_texts}

abbrev pub max_members : ℕ
max_members = 16

-- `Roster::member`. Members are sorted in every roster that passed `verify`, so the binary search
-- finds what a search from the front finds.
unfoldable pub member_in : Identity → List Member → Option Member
member_in identity [] = none
member_in identity (m ∷ ms) = if m.identity == identity then some m else member_in identity ms

abbrev pub is_some {ℓ} : {A : Type ℓ} → Option A → Bool
is_some none = false
is_some (some a) = true

abbrev pub is_member : Identity → Roster → Bool
is_member identity r = is_some (member_in identity r.members)

unfoldable pub is_sorted : List Member → Bool
is_sorted (m ∷ n ∷ ms) = text_lt m.identity n.identity && is_sorted (n ∷ ms)
is_sorted ms = true

unfoldable pub has_twins : List Text → Bool
has_twins (a ∷ b ∷ r) = a == b || has_twins (b ∷ r)
has_twins r = false

unfoldable pub validate_members : List Member → Result Error (Unit {0})
unfolding validate_device_id validate_name
validate_members [] = ok tt
validate_members (m ∷ ms) = do
  validate_device_id m.device_id
  validate_name m.name
  validate_members ms

abbrev pub max_epoch : ℕ
max_epoch = 2 ^ 32 - 1

abbrev pub zeros : Bytes
zeros =
    0 ∷ 0 ∷ 0 ∷ 0 ∷ 0 ∷ 0 ∷ 0 ∷ 0 ∷ 0 ∷ 0 ∷ 0 ∷ 0 ∷ 0 ∷ 0 ∷ 0 ∷ 0 ∷ 0 ∷ 0 ∷ 0 ∷ 0 ∷ 0 ∷ 0 ∷ 0 ∷ 0
    ∷ 0 ∷ 0 ∷ 0 ∷ 0 ∷ 0 ∷ 0 ∷ 0 ∷ 0 ∷ []

unfoldable pub verify : Crates → Roster → Result Error (Unit {0})
unfolding member_in is_sorted has_twins validate_members sort_texts
verify crates r = do
  guard (not (length r.members == 0) && leb (length r.members) max_members) roster
  guard (is_sorted r.members) roster
  guard (not (has_twins (sort_texts (map (λ m. m.device_id) r.members)))) roster
  validate_members r.members
  guard (leb r.epoch max_epoch) roster
  guard (leb r.key_epoch r.epoch) roster
  guard
      (not (
        r.epoch == 0
        && (not (r.prev == zeros) || not (r.key_epoch == 0) || not (is_member r.signer r))))
      roster
  guard (crates.verify_signature r.signer (body r) r.signature) signature

unfoldable pub members_without : List Member → List Member → List Member
unfolding member_in
members_without ms other = keep (λ m. not (is_some (member_in m.identity other))) ms

-- `epoch.checked_add(1)` on u64.
abbrev pub follows_epoch : ℕ → ℕ → Bool
follows_epoch parent next = ltb parent (2 ^ 64 - 1) && parent + 1 == next

abbrev pub member_beq : Member → Member → Bool
member_beq a b =
    a.identity == b.identity
    && a.device_id == b.device_id
    && a.name == b.name
    && int_beq a.added_at b.added_at

abbrev pub is_unchanged : List Member → Member → Bool
is_unchanged next m = elim (member_in m.identity next) [ none ↦ true | some n ↦ member_beq n m ]

abbrev pub is_empty : List Member → Bool
is_empty [] = true
is_empty (m ∷ ms) = false

-- A new key epoch brings a new key, and only that.
unfoldable pub check_key : Roster → Roster → Result Error (Unit {0})
check_key parent next =
    if next.key_epoch == next.epoch
    then guard (not (next.key_check == parent.key_check)) roster
    else guard (next.key_epoch == parent.key_epoch && next.key_check == parent.key_check) roster

abbrev pub removes : Roster → Roster → Bool
removes parent next = not (is_empty (members_without parent.members next.members))

unfoldable pub check_successor : Crates → Roster → Roster → Result Error (Unit {0})
unfolding member_in members_without check_key
check_successor crates parent next = do
  guard (next.group_id == parent.group_id) roster
  guard (follows_epoch parent.epoch next.epoch && next.prev == hash crates parent) roster
  guard (is_member next.signer parent) roster
  guard (all (is_unchanged next.members) parent.members) roster
  check_key parent next
  guard (not (removes parent next && not (next.key_epoch == next.epoch))) roster
  guard (removes parent next || removes next parent || next.key_epoch == next.epoch) roster

unfoldable pub removed_along : List Member → List Roster → List Identity
unfolding members_without
removed_along before [] = []
removed_along before (r ∷ rs) =
    map (λ m. m.identity) (members_without before r.members) ++ removed_along r.members rs

unfoldable pub removes_signer : Roster → List Roster → List Roster → Bool
unfolding removed_along
removes_signer parent a b = any (λ r. contains (removed_along parent.members a) r.signer) b

abbrev pub last_members : List Roster → List Member
last_members [] = []
last_members (r ∷ []) = r.members
last_members (r ∷ s ∷ rs) = last_members (s ∷ rs)

-- An empty branch lists nobody.
unfoldable pub removes_listed : Roster → List Roster → List Roster → Bool
unfolding removed_along
removes_listed parent a b =
    any (λ id. is_some (member_in id (last_members b))) (removed_along parent.members a)

abbrev pub rank_context : Text
rank_context = codes "panora roster fork rank v1"

-- `<` on pairs of the rank and the roster's hash.
unfoldable pub ranks_below : Crates → Roster → Roster → Roster → Bool
ranks_below crates parent a b =
    let rank_a = crates.derive_key rank_context (hash crates parent ++ a.signer) in
    let rank_b = crates.derive_key rank_context (hash crates parent ++ b.signer) in
    text_lt rank_a rank_b || (rank_a == rank_b && text_lt (hash crates a) (hash crates b))

abbrev pub first_ranks_below : Crates → Roster → List Roster → List Roster → Bool
first_ranks_below crates parent (a ∷ more) (b ∷ rest) = ranks_below crates parent a b
first_ranks_below crates parent _ _ = false

unfoldable pub fork_winner : Crates → Roster → List Roster → List Roster → Bool
unfolding removes_signer removes_listed ranks_below
fork_winner crates parent incoming held =
    if removes_signer parent held incoming
    then false
    else if removes_signer parent incoming held
    then true
    else if removes_listed parent incoming held && not (removes_listed parent held incoming)
    then true
    else if removes_listed parent held incoming && not (removes_listed parent incoming held)
    then false
    else first_ranks_below crates parent incoming held
