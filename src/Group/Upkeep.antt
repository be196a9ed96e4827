-- ===== src/Group/Upkeep.antt =====
-- group.rs: the changes that a device makes to its own group.
use panora.Prelude.{
  ℕ, ◌≡◌, sym, ◌∙◌, ap, subst, ◌⊎◌, Bool, not, List, [], ◌∷◌, ◌++◌, Bytes, length, any, keep,
  all-keep, ◌==◌, nat_eq, list_eq, ltb, arith, inl, inr, guard, ok, >>-eq-ok, >>=-eq-ok,
  ok-pair-injective, Result-cases, ℤ,
}
use panora.Rosters.{Identity, Member, Roster, Crates}
use panora.Rosters.Names.{device, validate_device_id, validate_name}
use panora.Group.{max_members, is_member, verify, check_successor}
use panora.Group.State.{
  GroupKey, GroupState, DeviceIdentity, is_known, check, prune, current, accept_key, change, signed,
}
use panora.Group.Membership.{enter, add_member, remove_member, sort_members}
use panora.Group.Linked.{IsHistory, IsValid}
use panora.Group.Valid.{pushed, push-pushed, pushed-IsValid}
use panora.Group.Checks.{
  NeverPanics, validate_device_id-NeverPanics, validate_name-NeverPanics, verify-NeverPanics,
  check_successor-NeverPanics,
}

module _ (crates : Crates) (s : GroupState) (c : Roster) (h : IsHistory crates s.rosters c) where
  accept_key_keys :
      (key : GroupKey) (s' : GroupState) (b : Bool)
      → accept_key crates key s ≡ ok (s', b)
      → (s' ≡ s)
        ⊎ (s'
            ≡ record s { keys = keep (is_known crates c.group_id s.rosters) (s.keys ++ key ∷ []) })
  unfolding accept_key prune
  accept_key_keys key s' b e = ground (arith, h.ends)

  pub accept_key-IsValid :
      (key : GroupKey) (s' : GroupState) (b : Bool)
      → IsValid crates s c
      → accept_key crates key s ≡ ok (s', b)
      → IsValid crates s' c
  accept_key-IsValid key s' b v e = elim (accept_key_keys key s' b e) [
    | inl same ↦ subst (λ (t : GroupState). IsValid crates t c) (sym same) v
    | inr kept ↦
        subst (λ (t : GroupState). IsValid crates t c) (sym kept)
          (record {
            history = h;
            known = all-keep (is_known crates c.group_id s.rosters) (s.keys ++ key ∷ []);
          })
  ]

  pub accept_key-NeverPanics : (key : GroupKey) → NeverPanics (accept_key crates key s)
  unfolding accept_key prune
  accept_key-NeverPanics key e = ground (arith, h.ends)

  pub enter-cases :
      (next : Roster) (s' : GroupState)
      → enter crates next s ≡ ok s'
      → (s' ≡ pushed crates next s)
        × (verify crates next ≡ ok tt)
        × (check_successor crates c next ≡ ok tt)
  unfolding enter
  enter-cases next s' e =
      let (r, here, e0) = >>=-eq-ok (current s) _ e in
      let (v, e1) = >>-eq-ok (verify crates next) _ e0 in
      let (k, e2) = >>-eq-ok (check_successor crates r next) _ e1 in
      let same : r ≡ c = ground (arith, h.ends) in
      (
        ground (arith, push-pushed crates next s),
        v,
        subst (λ (x : Roster). check_successor crates x next ≡ ok tt) same k,
      )

  pub enter-IsValid :
      (next : Roster) (s' : GroupState) → enter crates next s ≡ ok s' → IsValid crates s' next
  enter-IsValid next s' e =
      let (same, v, k) = enter-cases next s' e in
      subst (λ (t : GroupState). IsValid crates t next) (sym same)
        (pushed-IsValid crates next c s h v k)

  pub enter-NeverPanics : (next : Roster) → NeverPanics (enter crates next s)
  unfolding enter
  enter-NeverPanics next e = ground (
    arith,
    h.ends,
    verify-NeverPanics crates next,
    check_successor-NeverPanics crates c next,
    push-pushed crates next s,
  )

  change-NeverPanics :
      (signer : DeviceIdentity) (now : ℤ) → NeverPanics (change crates signer now s)
  unfolding change
  change-NeverPanics signer now e = ground (arith, h.ends)

module _ (crates : Crates) (signer : DeviceIdentity) (now : ℤ) (s : GroupState) where
  pub add_member-enter :
      (m : Member) (s' : GroupState) (next : Roster)
      → add_member crates signer m now s ≡ ok (s', next)
      → enter crates next s ≡ ok s'
  unfolding add_member
  add_member-enter m s' next e =
      let (a, e1) = >>-eq-ok (validate_device_id m.device_id) _ e in
      let (b, e2) = >>-eq-ok (validate_name m.name) _ e1 in
      let (r, f, e3) = >>=-eq-ok (change crates signer now s) _ e2 in
      let (p, e4) = >>-eq-ok (guard (not (is_member m.identity r)) device) _ e3 in
      let (q, e5) =
        >>-eq-ok (guard (not (any (λ n. n.device_id == m.device_id) r.members)) device) _ e4 in
      let (t, e6) = >>-eq-ok (guard (ltb (length r.members) max_members) device) _ e5 in
      let grown : Roster =
        signed signer (record r { members = sort_members (r.members ++ m ∷ []) }) in
      let (u, g, e7) = >>=-eq-ok (enter crates grown s) _ e6 in
      let (same_state, same) = ok-pair-injective u s' grown next e7 in
      subst (λ (x : Roster). enter crates x s ≡ ok s') same
        (g ∙ ap (λ (x : GroupState). ok x) same_state)

  pub add_member-NeverPanics :
      (c : Roster) (m : Member)
      → IsHistory crates s.rosters c
      → NeverPanics (add_member crates signer m now s)
  unfolding add_member
  add_member-NeverPanics c m h e = elim (Result-cases (change crates signer now s)) [
    | inl (r, f) ↦
        let grown : Roster =
          signed signer (record r { members = sort_members (r.members ++ m ∷ []) }) in
        ground (
          arith,
          f,
          validate_device_id-NeverPanics m.device_id,
          validate_name-NeverPanics m.name,
          enter-NeverPanics crates s c h grown,
        )
    | inr (x, f) ↦ ground (
      arith,
      f,
      validate_device_id-NeverPanics m.device_id,
      validate_name-NeverPanics m.name,
      change-NeverPanics crates s c h signer now,
    )
  ]

  module _ (target : Identity) (random : Bytes) where
    -- The state that `remove_member` hands its new roster.
    abbrev pub with_key : ℕ → GroupState
    with_key epoch = record s { keys = s.keys ++ record { epoch = epoch; key = random } ∷ [] }

    abbrev pub shrunk : Roster → Roster
    shrunk r =
        let key : GroupKey = record { epoch = r.epoch; key = random } in
        signed signer (record r {
          members = keep (λ m. not (m.identity == target)) r.members;
          key_epoch = r.epoch;
          key_check = check crates r.group_id key;
        })

    pub remove_member-enter :
        (s' : GroupState) (next : Roster) (key : GroupKey)
        → remove_member crates signer target now random s ≡ ok (s', (next, key))
        → (r : Roster) × (change crates signer now s ≡ ok r)
          × (next ≡ shrunk r)
          × (key ≡ record { epoch = r.epoch; key = random })
          × (enter crates next (with_key r.epoch) ≡ ok s')
    unfolding remove_member
    remove_member-enter s' next key e =
        let (a, e1) = >>-eq-ok (guard (not (target == s.me)) device) _ e in
        let (r, f, e2) = >>=-eq-ok (change crates signer now s) _ e1 in
        let kept : List Member = keep (λ m. not (m.identity == target)) r.members in
        let (b, e3) = >>-eq-ok (guard (not (length kept == length r.members)) device) _ e2 in
        let (u, g, e4) = >>=-eq-ok (enter crates (shrunk r) (with_key r.epoch)) _ e3 in
        let made : GroupKey = record { epoch = r.epoch; key = random } in
        let given : Roster × GroupKey = (next, key) in
        let (same_state, both) = ok-pair-injective u s' (shrunk r, made) given e4 in
        let same : shrunk r ≡ next = ap (λ (x : Roster × GroupKey). x.0) both in
        (
          r,
          f,
          sym same,
          sym (ap (λ (x : Roster × GroupKey). x.1) both),
          subst (λ (x : Roster). enter crates x (with_key r.epoch) ≡ ok s') same
              (g ∙ ap (λ (x : GroupState). ok x) same_state),
        )

    pub remove_member-NeverPanics :
        (c : Roster)
        → IsHistory crates s.rosters c
        → NeverPanics (remove_member crates signer target now random s)
    unfolding remove_member
    remove_member-NeverPanics c h e = elim (Result-cases (change crates signer now s)) [
      | inl (r, f) ↦ ground (arith, f, enter-NeverPanics crates (with_key r.epoch) c h (shrunk r))
      | inr (x, f) ↦ ground (arith, f, change-NeverPanics crates s c h signer now)
    ]
