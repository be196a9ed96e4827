-- ===== src/Group/Rotation.antt =====
-- group.rs, `remove_member`: the device that goes, and the keys that it knew.
use panora.Prelude.{
  ℕ, ◌+◌, ◌≤◌, ◌<◌, ◌≡◌, refl, sym, ap, subst, Bool, true, not, ◌&&◌, Option, none, some, List, [],
  ◌∷◌, ◌++◌, Bytes, any, all, find, keep, last, ◌==◌, nat_eq, list_eq, ==-refl, leb, arith,
  Bool-cases, inl, inr, ok, ℤ,
}
use panora.Rosters.{Identity, Member, Roster, Crates}
use panora.Group.{verify, member_in}
use panora.Group.State.{
  GroupKey, GroupState, DeviceIdentity, validate, check, signed, is_known, is_under, current,
  current_key,
}
use panora.Group.Membership.{remove_member}
use panora.Group.Linked.{Linked, IsHistory}
use panora.Group.Valid.{validate→IsValid, pushed, pushed-IsHistory}
use panora.Group.Upkeep.{enter-cases, with_key, shrunk, remove_member-enter}
use panora.Group.Arrivals.{check_successor-epoch}

verify-key_epoch :
    (crates : Crates) (r : Roster) → verify crates r ≡ ok tt → leb r.key_epoch r.epoch ≡ true
unfolding verify
verify-key_epoch crates r e = ground arith

module _ (crates : Crates) where
  -- No roster of a history has a later key than the newest one has an epoch.
  Linked-key_epoch :
      (r : Roster) (rs : List Roster) (c : Roster)
      → Linked crates (r ∷ rs)
      → last (r ∷ rs) ≡ some c
      → (r.epoch ≤ c.epoch) × (all (λ x. leb x.key_epoch c.epoch) (r ∷ rs) ≡ true)
  Linked-key_epoch r [] c h e =
      let same : r ≡ c = cc in
      let own : leb r.key_epoch r.epoch ≡ true = verify-key_epoch crates r h in
      subst (λ (x : Roster). (r.epoch ≤ x.epoch) × ((leb r.key_epoch x.epoch && true) ≡ true)) same
        (omega arith, ground (arith, own))
  Linked-key_epoch r (n ∷ rs) c h e =
      let (later, others) = Linked-key_epoch n rs c h.2 e in
      let next : n.epoch ≡ r.epoch + 1 = check_successor-epoch crates r n h.1 in
      let own : leb r.key_epoch r.epoch ≡ true = verify-key_epoch crates r h.0 in
      (omega (arith, later, next), ground (arith, later, next, own, others))

  history-key_epoch :
      (rs : List Roster) (c : Roster)
      → IsHistory crates rs c
      → all (λ x. leb x.key_epoch c.epoch) rs ≡ true
  history-key_epoch [] c h = refl
  history-key_epoch (r ∷ rs) c h = (Linked-key_epoch r rs c h.linked h.ends).1

  known-le :
      (gid : Bytes) (bound : ℕ) (k : GroupKey) (rs : List Roster)
      → any (is_under crates gid k) rs ≡ true
      → all (λ x. leb x.key_epoch bound) rs ≡ true
      → k.epoch ≤ bound
  known-le gid bound k [] a b = absurd cc
  known-le gid bound k (r ∷ rs) a b = elim (Bool-cases (is_under crates gid k r)) [
    | inl here ↦ ground (arith, here, b)
    | inr there ↦ known-le gid bound k rs (ground (arith, a, there)) (ground (arith, b))
  ]

  -- Keys that are known before a roster was made are not those of the roster.
  keys-old :
      (gid : Bytes) (c next : Roster) (rs : List Roster) (keys : List GroupKey)
      → all (λ x. leb x.key_epoch c.epoch) rs ≡ true
      → all (is_known crates c.group_id rs) keys ≡ true
      → c.epoch < next.key_epoch
      → all (λ k. not (is_under crates gid k next)) keys ≡ true
  keys-old gid c next rs [] a b l = refl
  keys-old gid c next rs (k ∷ keys) a b l =
      let rest = keys-old gid c next rs keys a (ground (arith, b)) l in
      let low : k.epoch ≤ c.epoch = known-le c.group_id c.epoch k rs (ground (arith, b)) a in
      ground (arith, rest, low, l)

find-new :
    (p q : GroupKey → Bool) (keys : List GroupKey) (key : GroupKey)
    → all (λ k. not (p k)) keys ≡ true
    → p key ≡ true
    → q key ≡ true
    → find p (keep q (keys ++ key ∷ [])) ≡ some key
find-new p q [] key a b c = rw c (rw b refl)
find-new p q (k ∷ keys) key a b c = elim (Bool-cases (q k)) [
  | inl e ↦ rw e (ground (arith, find-new p q keys key (ground (arith, a)) b c))
  | inr e ↦ rw e (find-new p q keys key (ground (arith, a)) b c)
]

any-last :
    (p : Roster → Bool) (rs : List Roster) (c : Roster)
    → last rs ≡ some c
    → p c ≡ true
    → any p rs ≡ true
any-last p [] c e h = absurd cc
any-last p (r ∷ []) c e h =
    let same : c ≡ r = cc in
    let here : p r ≡ true = subst (λ (x : Roster). p x ≡ true) same h in rw here refl
any-last p (r ∷ n ∷ rs) c e h = ground (arith, any-last p (n ∷ rs) c e h)

member_in-keep :
    (target : Identity) (ms : List Member)
    → member_in target (keep (λ m. not (m.identity == target)) ms) ≡ none
unfolding member_in
member_in-keep target [] = refl
member_in-keep target (m ∷ ms) = elim (Bool-cases (m.identity == target)) [
  | inl e ↦ rw e (member_in-keep target ms)
  | inr e ↦ rw e (rw e (member_in-keep target ms))
]

module _ (crates : Crates) (signer : DeviceIdentity) (now : ℤ) (s : GroupState) (target : Identity)
    (random : Bytes) (r : Roster) where
  shrunk-members : member_in target (shrunk crates signer now s target random r).members ≡ none
  unfolding signed
  shrunk-members = member_in-keep target r.members

  shrunk-epochs :
      let next = shrunk crates signer now s target random r in
      (next.epoch ≡ r.epoch) × (next.key_epoch ≡ r.epoch)
  unfolding signed
  shrunk-epochs = (refl, refl)

  shrunk-is_under :
      let next = shrunk crates signer now s target random r in
      let key : GroupKey = record { epoch = r.epoch; key = random } in
      is_under crates next.group_id key next ≡ true
  unfolding signed
  shrunk-is_under =
      let key : GroupKey = record { epoch = r.epoch; key = random } in
      rw (==-refl r.epoch) (==-refl (check crates r.group_id key))

-- After `remove_member` succeeded on a state that `validate` accepts, the roster returned is the
-- current one and does not list the device, the key returned is the current key, and none of the
-- keys that the state held before is under that roster's key.
pub remove_member-locks :
    (crates : Crates) (signer : DeviceIdentity) (now : ℤ) (target : Identity) (random : Bytes)
    (s s' : GroupState) (next : Roster) (key : GroupKey)
    → validate crates s ≡ ok tt
    → remove_member crates signer target now random s ≡ ok (s', (next, key))
    → (current s' ≡ ok next)
      × (member_in target next.members ≡ none)
      × (current_key crates s' ≡ ok (some key))
      × (all (λ k. not (is_under crates next.group_id k next)) s.keys ≡ true)
unfolding current_key
remove_member-locks crates signer now target random s s' next key e removed =
    let (c, v) = validate→IsValid crates s e in
    let (r, f, same_next, same_key, entered) =
      remove_member-enter crates signer now s target random s' next key removed in
    let s1 : GroupState = with_key crates signer now s target random r.epoch in
    let (same_state, checked, follows) = enter-cases crates s1 c v.history next s' entered in
    let history = pushed-IsHistory crates next c s.rosters v.history checked follows in
    let ends : last s'.rosters ≡ some next =
      subst (λ (t : GroupState). last t.rosters ≡ some next) (sym same_state) history.ends in
    let under : is_under crates next.group_id key next ≡ true =
      subst (λ (k : GroupKey). is_under crates next.group_id k next ≡ true) (sym same_key)
        (subst
          (λ (x : Roster).
            is_under crates x.group_id (record { epoch = r.epoch; key = random }) x ≡ true)
          (sym same_next) (shrunk-is_under crates signer now s target random r)) in
    let epochs : (next.epoch ≡ r.epoch) × (next.key_epoch ≡ r.epoch) =
      subst (λ (x : Roster). (x.epoch ≡ r.epoch) × (x.key_epoch ≡ r.epoch)) (sym same_next)
        (shrunk-epochs crates signer now s target random r) in
    let fresh : c.epoch < next.key_epoch =
      omega (arith, epochs, check_successor-epoch crates c next follows) in
    let old : all (λ k. not (is_under crates next.group_id k next)) s.keys ≡ true =
      keys-old crates next.group_id c next s.rosters s.keys
        (history-key_epoch crates s.rosters c v.history) v.known fresh in
    (
      rw ends refl,
      subst (λ (x : Roster). member_in target x.members ≡ none) (sym same_next)
          (shrunk-members crates signer now s target random r),
      rw ends (
          rw same_state (
            ap (λ (k : Option GroupKey). ok k)
              (rw (← same_key) (
                find-new (λ k. is_under crates next.group_id k next)
                  (is_known crates next.group_id (pushed crates next s1).rosters) s.keys key old
                  under
                  (any-last (is_under crates next.group_id key) (pushed crates next s1).rosters next
                    history.ends under))))),
      old,
    )
