-- ===== src/Group/Additions.antt =====
-- group.rs, `add_member`: the new member is found in the new roster, which follows the old one.
use panora.Prelude.{
  ◌≡◌, refl, sym, ◌∙◌, ap, false, not, none, some, List, [], ◌∷◌, ◌++◌, length, any, ◌==◌, ==-refl,
  nat_eq, list_eq, ltb, Bool-cases, Option-cases, arith, inl, inr, guard, ok, >>-eq-ok, >>=-eq-ok,
  ok-pair-injective, ℤ,
}
use panora.Rosters.{Identity, Member, Roster, Crates}
use panora.Rosters.Names.{device, validate_device_id, validate_name}
use panora.Group.{max_members, is_some, is_member, member_in, verify, check_successor}
use panora.Group.State.{GroupState, DeviceIdentity, change, signed}
use panora.Group.Membership.{enter, add_member, insert_member, sort_members}
use panora.Group.Linked.{IsHistory}
use panora.Group.Valid.{pushed}
use panora.Group.Upkeep.{enter-cases, add_member-enter}

member_in-insert_member_same :
    (m : Member) (ms : List Member)
    → member_in m.identity ms ≡ none
    → member_in m.identity (insert_member m ms) ≡ some m
unfolding member_in
member_in-insert_member_same m [] h = rw (==-refl m.identity) refl
member_in-insert_member_same m (n ∷ ms) h = elim (Bool-cases (n.identity == m.identity)) [
  | inl e ↦ absurd (ground arith)
  | inr e ↦
      let rest : member_in m.identity ms ≡ none = ground arith in
      ground (arith, member_in-insert_member_same m ms rest, ==-refl m.identity)
]

member_in-insert_member_other :
    (identity : Identity) (m : Member) (ms : List Member)
    → (m.identity == identity) ≡ false
    → member_in identity (insert_member m ms) ≡ member_in identity ms
unfolding member_in
member_in-insert_member_other identity m [] h = rw h refl
member_in-insert_member_other identity m (n ∷ ms) h =
    ground (arith, member_in-insert_member_other identity m ms h)

member_in-sort_members-none :
    (identity : Identity) (ms : List Member)
    → member_in identity ms ≡ none
    → member_in identity (sort_members ms) ≡ none
unfolding member_in sort_members
member_in-sort_members-none identity [] h = refl
member_in-sort_members-none identity (n ∷ ms) h = elim (Bool-cases (n.identity == identity)) [
  | inl e ↦ absurd (ground arith)
  | inr e ↦
      member_in-insert_member_other identity n (sort_members ms) e
      ∙ member_in-sort_members-none identity ms (ground arith)
]

pub member_in-sort_members :
    (m : Member) (ms : List Member)
    → member_in m.identity ms ≡ none
    → member_in m.identity (sort_members (ms ++ m ∷ [])) ≡ some m
unfolding member_in sort_members
member_in-sort_members m [] h = rw (==-refl m.identity) refl
member_in-sort_members m (n ∷ ms) h = elim (Bool-cases (n.identity == m.identity)) [
  | inl e ↦ absurd (ground arith)
  | inr e ↦
      member_in-insert_member_other m.identity n (sort_members (ms ++ m ∷ [])) e
      ∙ member_in-sort_members m ms (ground arith)
]

-- What `add_member` leaves of the newest roster `c`.
pub record IsAddition (crates : Crates) (signer : DeviceIdentity) (m : Member) (s s' : GroupState)
    (c next : Roster) : Type 0 where
  pub state : s' ≡ pushed crates next s
  pub verified : verify crates next ≡ ok tt
  pub follows : check_successor crates c next ≡ ok tt
  pub by_signer : next.signer ≡ signer.public
  pub was_missing : member_in m.identity c.members ≡ none
  pub is_there : member_in m.identity next.members ≡ some m

module _ (crates : Crates) (signer : DeviceIdentity) (now : ℤ) (m : Member) (s : GroupState)
    (c : Roster) (h : IsHistory crates s.rosters c) where
  change_members : (r : Roster) → change crates signer now s ≡ ok r → r.members ≡ c.members
  unfolding change
  change_members r e = ground (arith, h.ends)

  signed_members : (r : Roster) → (signed signer r).members ≡ r.members
  unfolding signed
  signed_members r = refl

  signed_signer : (r : Roster) → (signed signer r).signer ≡ signer.public
  unfolding signed
  signed_signer r = refl

  is_none :
      (identity : Identity) (ms : List Member)
      → guard (not (is_some (member_in identity ms))) device ≡ ok tt
      → member_in identity ms ≡ none
  is_none identity ms e = elim (Option-cases (member_in identity ms)) [
    | inl w ↦ w
    | inr (k, w) ↦ absurd (ground arith)
  ]

  pub add_member-IsAddition :
      (s' : GroupState) (next : Roster)
      → add_member crates signer m now s ≡ ok (s', next)
      → IsAddition crates signer m s s' c next
  unfolding add_member
  add_member-IsAddition s' next e =
      let (a, e1) = >>-eq-ok (validate_device_id m.device_id) _ e in
      let (b, e2) = >>-eq-ok (validate_name m.name) _ e1 in
      let (r, f, e3) = >>=-eq-ok (change crates signer now s) _ e2 in
      let (p, e4) = >>-eq-ok (guard (not (is_member m.identity r)) device) _ e3 in
      let (q, e5) =
        >>-eq-ok (guard (not (any (λ n. n.device_id == m.device_id) r.members)) device) _ e4 in
      let (t, e6) = >>-eq-ok (guard (ltb (length r.members) max_members) device) _ e5 in
      let all_members : List Member = sort_members (r.members ++ m ∷ []) in
      let grown : Roster = signed signer (record r { members = all_members }) in
      let (u, g, e7) = >>=-eq-ok (enter crates grown s) _ e6 in
      let (same_state, same) = ok-pair-injective u s' grown next e7 in
      let absent : member_in m.identity r.members ≡ none = is_none m.identity r.members p in
      let (state, verified, follows) =
        enter-cases crates s c h next s' (add_member-enter crates signer now s m s' next e) in
      record {
        state = state;
        verified = verified;
        follows = follows;
        by_signer =
            ap (λ (x : Roster). x.signer) (sym same)
            ∙ signed_signer (record r { members = all_members });
        was_missing = ap (member_in m.identity) (sym (change_members r f)) ∙ absent;
        is_there =
            ap (λ (x : Roster). member_in m.identity x.members) (sym same)
            ∙ ap (member_in m.identity) (signed_members (record r { members = all_members }))
            ∙ member_in-sort_members m r.members absent;
      }
