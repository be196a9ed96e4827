-- ===== src/Group/Reapply.antt =====
-- group.rs, `changes_to_reapply`: what a device redoes after its branch lost a fork.
use panora.Prelude.{
  ◌≡◌, refl, sym, ap, ◌∙◌, inl, inr, Bool, false, not, ◌&&◌, ◌||◌, List, [], ◌∷◌, ◌++◌, map, keep,
  any, contains, ◌==◌, nat_eq, list_eq, ==→eq, arith, if◌then◌else◌, Bool-cases,
}
use panora.Group.{member_in, is_some, members_without, last_members, removed_along}
use panora.Rosters.{Roster, Member, Identity}

pub data Change : Type 0 where
  added : Member → Change
  removed : Identity → Change

abbrev is_listed : List Member → Identity → Bool
is_listed ms identity = is_some (member_in identity ms)

unfoldable pub own_additions : Identity → List Member → List Member → Roster → List Change
unfolding members_without
own_additions me end before r =
    if r.signer == me
    then map (λ m. added m)
        (keep (λ m. is_listed end m.identity) (members_without r.members before))
    else []

unfoldable pub removals : Identity → List Member → List Member → Roster → List Change
unfolding members_without
removals me end before r =
    map (λ m. removed m.identity)
      (keep (λ m. not (m.identity == me) && not (is_listed end m.identity))
        (members_without before r.members))

unfoldable pub reapply_loop : Identity → List Member → List Member → List Roster → List Change
unfolding own_additions removals
reapply_loop me end before [] = []
reapply_loop me end before (r ∷ rs) =
    own_additions me end before r ++ (removals me end before r ++ reapply_loop me end r.members rs)

-- An empty branch has nothing to redo.
unfoldable pub changes_to_reapply : Roster → List Roster → Identity → List Change
unfolding reapply_loop
changes_to_reapply parent lost me = reapply_loop me (last_members lost) parent.members lost

abbrev pub is_removal : Identity → Change → Bool
is_removal identity (added m) = false
is_removal identity (removed other) = other == identity

abbrev pub has_removal : Identity → List Change → Bool
has_removal identity changes = any (is_removal identity) changes

any-append :
    {A : Type 0} → (p : A → Bool) (xs ys : List A) → any p (xs ++ ys) ≡ (any p xs || any p ys)
any-append p [] ys = refl
any-append p (x ∷ xs) ys = ground (arith, any-append p xs ys)

additions-remove_none :
    (identity : Identity) (ms : List Member)
    → any (is_removal identity) (map (λ m. added m) ms) ≡ false
additions-remove_none identity [] = refl
additions-remove_none identity (m ∷ ms) = additions-remove_none identity ms

own_additions-remove_none :
    (identity me : Identity) (end before : List Member) (r : Roster)
    → any (is_removal identity) (own_additions me end before r) ≡ false
unfolding own_additions
own_additions-remove_none identity me end before r = elim (Bool-cases (r.signer == me)) [
  | inl t ↦ rw t (
      additions-remove_none identity
        (keep (λ m. is_listed end m.identity) (members_without r.members before)))
  | inr f ↦ rw f refl
]

-- Whether a removal of a device is to be redone.
abbrev is_due : Identity → List Member → Identity → Bool
is_due me end identity = not (identity == me) && not (is_listed end identity)

removed-keep :
    (identity me : Identity) (end ms : List Member)
    → any
        (is_removal identity)
        (map (λ m. removed m.identity) (keep (λ m. is_due me end m.identity) ms))
      ≡ (contains (map (λ m. m.identity) ms) identity && is_due me end identity)
removed-keep identity me end [] = refl
removed-keep identity me end (m ∷ ms) =
    let rest = removed-keep identity me end ms in
    elim (Bool-cases (m.identity == identity)) [
      | inl t ↦
          let same : is_due me end m.identity ≡ is_due me end identity =
            ap (λ (i : Identity). is_due me end i) (==→eq m.identity identity t) in
          ground (arith, t, rest, same)
      | inr f ↦ ground (arith, f, rest)
    ]

contains-append :
    (xs ys : List Identity) (identity : Identity)
    → contains (xs ++ ys) identity ≡ (contains xs identity || contains ys identity)
contains-append [] ys identity = refl
contains-append (x ∷ xs) ys identity = ground (arith, contains-append xs ys identity)

or-and : (a b c : Bool) → ((a && c) || (b && c)) ≡ ((a || b) && c)
or-and a b c = ground arith

reapply_loop-removals :
    (identity me : Identity) (end before : List Member) (lost : List Roster)
    → any (is_removal identity) (reapply_loop me end before lost)
      ≡ (contains (removed_along before lost) identity && is_due me end identity)
unfolding reapply_loop removed_along removals
reapply_loop-removals identity me end before [] = refl
reapply_loop-removals identity me end before (r ∷ rs) =
    let own : List Change = own_additions me end before r in
    let gone : List Member = members_without before r.members in
    let undone : List Change = removals me end before r in
    let later : List Change = reapply_loop me end r.members rs in
    let removed_here : List Identity = map (λ m. m.identity) gone in
    any-append (is_removal identity) own (undone ++ later)
    ∙ ap (λ (b : Bool). b || any (is_removal identity) (undone ++ later))
        (own_additions-remove_none identity me end before r)
    ∙ any-append (is_removal identity) undone later
    ∙ ap (λ (b : Bool). b || any (is_removal identity) later) (removed-keep identity me end gone)
    ∙ ap (λ (b : Bool). (contains removed_here identity && is_due me end identity) || b)
        (reapply_loop-removals identity me end r.members rs)
    ∙ or-and (contains removed_here identity) (contains (removed_along r.members rs) identity)
        (is_due me end identity)
    ∙ ap (λ (b : Bool). b && is_due me end identity)
        (sym (contains-append removed_here (removed_along r.members rs) identity))

-- After a branch lost a fork, the removals to redo are those of exactly the devices that a roster
-- of the branch removed, other than this device itself, that the branch's last roster does not
-- list.
pub changes_to_reapply-removals :
    (parent : Roster) (lost : List Roster) (me identity : Identity)
    → has_removal identity (changes_to_reapply parent lost me) ≡ (
        contains (removed_along parent.members lost) identity
        && (not (identity == me) && not (is_some (member_in identity (last_members lost)))))
unfolding changes_to_reapply
changes_to_reapply-removals parent lost me identity =
    reapply_loop-removals identity me (last_members lost) parent.members lost
