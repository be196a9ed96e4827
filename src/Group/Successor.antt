-- ===== src/Group/Successor.antt =====
-- group.rs, `check_successor`: what a roster that follows another may change.
use panora.Prelude.{
  ℕ, ◌+◌, ◌≡◌, ◌≢◌, refl, sym, ◌∙◌, ap, ◌⊎◌, inl, inr, Bool, true, false, not, ◌&&◌, none, some,
  List, [], ◌∷◌, all, int_beq→eq, ◌==◌, nat_eq, list_eq, ==→eq, ==→ne, arith, Bool-cases,
  Option-cases, ok, guard, >>-eq-ok, subst,
}
use panora.Group.{
  member_in, is_some, is_member, members_without, member_beq, is_unchanged, is_empty, follows_epoch,
  check_key, removes, check_successor,
}
use panora.Rosters.Names.{roster}
use panora.Rosters.{Crates, Roster, Member, Identity, hash}

guard-true {μ} : {E : Type μ} (b : Bool) (e : E) → guard b e ≡ ok tt → b ≡ true
guard-true true e h = refl
guard-true false e h = absurd cc

pub member_beq→eq : (a b : Member) → member_beq a b ≡ true → a ≡ b
member_beq→eq a b h =
    let identity : a.identity ≡ b.identity = ==→eq a.identity b.identity (ground arith) in
    let device_id : a.device_id ≡ b.device_id = ==→eq a.device_id b.device_id (ground arith) in
    let name : a.name ≡ b.name = ==→eq a.name b.name (ground arith) in
    let added_at : a.added_at ≡ b.added_at = int_beq→eq a.added_at b.added_at (ground arith) in
    λ i. record {
      identity = identity i;
      device_id = device_id i;
      name = name i;
      added_at = added_at i;
    }

-- Every member of the parent that a test passes for passes it.
all-member_in :
    (p : Member → Bool) (identity : Identity) (m : Member) (ms : List Member)
    → all p ms ≡ true
    → member_in identity ms ≡ some m
    → (p m ≡ true) × (m.identity ≡ identity)
unfolding member_in
all-member_in p identity m [] h e = absurd cc
all-member_in p identity m (x ∷ ms) h e = elim (Bool-cases (x.identity == identity)) [
  | inl t ↦
      let w : x ≡ m = ground arith in
      (
        subst (λ (y : Member). p y ≡ true) w (ground arith),
        subst (λ (y : Member). y.identity ≡ identity) w (==→eq x.identity identity t),
      )
  | inr t ↦ all-member_in p identity m ms (ground arith) (ground arith)
]

-- A member that the other list lacks is among those removed.
removed_member :
    (identity : Identity) (m : Member) (ms other : List Member)
    → member_in identity ms ≡ some m
    → member_in identity other ≡ none
    → is_empty (members_without ms other) ≡ false
unfolding member_in members_without
removed_member identity m [] other e n = absurd cc
removed_member identity m (x ∷ ms) other e n = elim (Bool-cases (x.identity == identity)) [
  | inl t ↦
      let gone : member_in x.identity other ≡ none =
        subst (λ (i : Identity). member_in i other ≡ none) (sym (==→eq x.identity identity t)) n in
      rw gone refl
  | inr t ↦
      let rest : is_empty (members_without ms other) ≡ false =
        removed_member identity m ms other (ground arith) n in
      elim (Bool-cases (is_some (member_in x.identity other))) [
        | inl s ↦ rw s rest
        | inr s ↦ rw s refl
      ]
]

-- What `check_successor` leaves of a member: it stays as it is, or goes under a new key.
abbrev pub StaysOrLeaves : Roster → Roster → Identity → Member → Type 0
StaysOrLeaves parent next identity m =
    (member_in identity next.members ≡ some m)
    ⊎ ((member_in identity next.members ≡ none)
        × (next.key_epoch ≡ next.epoch)
        × (next.key_check ≢ parent.key_check))

unchanged-eq :
    (identity : Identity) (m n : Member) (next : List Member)
    → is_unchanged next m ≡ true
    → m.identity ≡ identity
    → member_in identity next ≡ some n
    → n ≡ m
unchanged-eq identity m n next u same e =
    let there : member_in m.identity next ≡ some n =
      subst (λ (i : Identity). member_in i next ≡ some n) (sym same) e in
    member_beq→eq n m (ground (arith, there))

and-left : (a b : Bool) → (a && b) ≡ true → a ≡ true
and-left a b h = ground arith

and-right : (a b : Bool) → (a && b) ≡ true → b ≡ true
and-right a b h = ground arith

follows_epoch-suc : (parent next : ℕ) → follows_epoch parent next ≡ true → next ≡ parent + 1
follows_epoch-suc parent next h = ground arith

rotates_lem :
    (empty rotates : Bool) → empty ≡ false → not (not empty && not rotates) ≡ true → rotates ≡ true
rotates_lem empty rotates e h = ground arith

check_key-new :
    (parent next : Roster)
    → (next.key_epoch == next.epoch) ≡ true
    → check_key parent next ≡ ok tt
    → next.key_check ≢ parent.key_check
unfolding check_key
check_key-new parent next r e = elim (Bool-cases (next.key_check == parent.key_check)) [
  | inl same ↦ absurd (ground arith)
  | inr other ↦ ==→ne next.key_check parent.key_check other
]

-- A roster that `check_successor` accepts is signed by a member of its parent, is one epoch later
-- and names the parent's hash, and each member of the parent either is in it with the same details
-- or is gone, and then the roster starts a new key epoch with a key check other than the parent's.
pub check_successor-StaysOrLeaves :
    (crates : Crates) (parent next : Roster) (identity : Identity) (m : Member)
    → check_successor crates parent next ≡ ok tt
    → member_in identity parent.members ≡ some m
    → (is_member next.signer parent ≡ true)
      × (next.epoch ≡ parent.epoch + 1)
      × (next.prev ≡ hash crates parent)
      × StaysOrLeaves parent next identity m
unfolding check_successor
check_successor-StaysOrLeaves crates parent next identity m e held =
    let (g1, e1) = >>-eq-ok (guard (next.group_id == parent.group_id) roster) _ e in
    let (g2, e2) =
      >>-eq-ok
        (guard (follows_epoch parent.epoch next.epoch && next.prev == hash crates parent) roster) _
        e1 in
    let (g3, e3) = >>-eq-ok (guard (is_member next.signer parent) roster) _ e2 in
    let (g4, e4) = >>-eq-ok (guard (all (is_unchanged next.members) parent.members) roster) _ e3 in
    let (g5, e5) = >>-eq-ok (check_key parent next) _ e4 in
    let (g6, e6) =
      >>-eq-ok (guard (not (removes parent next && not (next.key_epoch == next.epoch))) roster) _
        e5 in
    let follows : (follows_epoch parent.epoch next.epoch && next.prev == hash crates parent)
        ≡ true =
      guard-true _ roster g2 in
    let (unchanged, same) =
      all-member_in (is_unchanged next.members) identity m parent.members (guard-true _ roster g4)
        held in
    (
      guard-true _ roster g3,
      follows_epoch-suc parent.epoch next.epoch (and-left _ _ follows),
      ==→eq next.prev (hash crates parent) (and-right _ _ follows),
      elim (Option-cases (member_in identity next.members)) [
        | inl gone ↦
            let empty : is_empty (members_without parent.members next.members) ≡ false =
              removed_member identity m parent.members next.members held gone in
            let rotates : (next.key_epoch == next.epoch) ≡ true =
              rotates_lem _ (next.key_epoch == next.epoch) empty (guard-true _ roster g6) in
            inr
              (gone, ==→eq next.key_epoch next.epoch rotates, check_key-new parent next rotates g5)
        | inr (n, there) ↦ inl (
            there
            ∙ ap (λ (x : Member). some x)
                (unchanged-eq identity m n next.members unchanged same there))
      ],
    )
