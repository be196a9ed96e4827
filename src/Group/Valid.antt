-- ===== src/Group/Valid.antt =====
-- group.rs, `validate` and `push`: what a state that loads is, and that a new roster keeps it one.
use panora.Prelude.{
  ◌-◌, ◌≤◌, ◌≡◌, refl, sym, ◌∙◌, subst, Bool, true, false, none, some, List, [], ◌∷◌, ◌++◌, Bytes,
  length, length-append, length-drop, last-snoc, last-drop, all-keep, all, keep, drop, last, nat_eq,
  list_eq, leb, leb→le, arith, guard, ok, >>-eq-ok,
}
use panora.Rosters.{Roster, Crates}
use panora.Rosters.Names.{roster}
use panora.Group.{verify, check_successor}
use panora.Group.State.{
  GroupKey, GroupState, kept_rosters, validate, validate_chain, validate_rosters, is_known, push,
  prune,
}
use panora.Group.Linked.{
  Linked, IsHistory, AreKnown, IsValid, verify_first, Linked-drop, Linked-snoc, Linked-group_id,
  validate_chain→Linked, Linked→validate_chain,
}

guard-eq-ok : {E : Type 0} (b : Bool) (e : E) → guard b e ≡ ok tt → b ≡ true
guard-eq-ok true e h = refl
guard-eq-ok false e h = absurd cc

last-cons : {A : Type 0} (x : A) (xs : List A) → (y : A) × (last (x ∷ xs) ≡ some y)
last-cons x [] = (x, refl)
last-cons x (y ∷ xs) = last-cons y xs

module _ (crates : Crates) where
  -- The state that `push` leaves.
  abbrev pub pushed_rosters : Roster → List Roster → List Roster
  pushed_rosters r rosters = drop (length (rosters ++ r ∷ []) - kept_rosters) (rosters ++ r ∷ [])

  abbrev pub pushed : Roster → GroupState → GroupState
  pushed r s =
      let rosters = pushed_rosters r s.rosters in
      record s { rosters = rosters; keys = keep (is_known crates r.group_id rosters) s.keys }

  last-pushed_rosters :
      (r : Roster) (rosters : List Roster) → last (pushed_rosters r rosters) ≡ some r
  last-pushed_rosters r rosters =
      last-drop (length (rosters ++ r ∷ []) - kept_rosters) (rosters ++ r ∷ [])
        (omega (arith, length-append rosters (r ∷ [])))
      ∙ last-snoc rosters r

  pub push-pushed : (r : Roster) (s : GroupState) → push crates r s ≡ ok (pushed r s)
  unfolding push prune
  push-pushed r s = rw (last-pushed_rosters r s.rosters) refl

  pub pushed-IsHistory :
      (r c : Roster) (rosters : List Roster)
      → IsHistory crates rosters c
      → verify crates r ≡ ok tt
      → check_successor crates c r ≡ ok tt
      → IsHistory crates (pushed_rosters r rosters) r
  pushed-IsHistory r c rosters h v k = record {
    ends = last-pushed_rosters r rosters;
    few =
        omega (arith, length-drop (length (rosters ++ r ∷ []) - kept_rosters) (rosters ++ r ∷ []));
    linked =
        Linked-drop crates (length (rosters ++ r ∷ []) - kept_rosters) (rosters ++ r ∷ [])
          (Linked-snoc crates rosters c r h.linked h.ends v k);
  }

  pub pushed-IsValid :
      (r c : Roster) (s : GroupState)
      → IsHistory crates s.rosters c
      → verify crates r ≡ ok tt
      → check_successor crates c r ≡ ok tt
      → IsValid crates (pushed r s) r
  pushed-IsValid r c s h v k = record {
    history = pushed-IsHistory r c s.rosters h v k;
    known = all-keep (is_known crates r.group_id (pushed_rosters r s.rosters)) s.keys;
  }

  -- A state loads exactly when it is valid.
  pub validate→IsValid :
      (s : GroupState) → validate crates s ≡ ok tt → (c : Roster) × IsValid crates s c
  unfolding validate validate_rosters
  validate→IsValid s e = valid s.rosters refl e
    where
      valid :
          (rosters : List Roster)
          → s.rosters ≡ rosters
          → validate_rosters crates rosters s.keys ≡ ok tt
          → (c : Roster) × IsValid crates s c
      valid [] w e = absurd cc
      valid (first ∷ rest) w e =
          let (c, ends) = last-cons first rest in
          let (few, e1) = >>-eq-ok (guard (leb (length (first ∷ rest)) kept_rosters) roster) _ e in
          let (v, e2) = >>-eq-ok (verify crates first) _ e1 in
          let (chain, e3) = >>-eq-ok (validate_chain crates first rest) _ e2 in
          let linked : Linked crates (first ∷ rest) =
            validate_chain→Linked crates first rest v chain in
          let known : all (is_known crates first.group_id (first ∷ rest)) s.keys ≡ true =
            guard-eq-ok _ roster e3 in
          let same : first.group_id ≡ c.group_id =
            sym (Linked-group_id crates first rest c linked ends) in
          let known' : all (is_known crates c.group_id (first ∷ rest)) s.keys ≡ true =
            subst (λ (g : Bytes). all (is_known crates g (first ∷ rest)) s.keys ≡ true) same
              known in
          (
            c,
            record {
              history = record {
                ends = subst (λ (rs : List Roster). last rs ≡ some c) (sym w) ends;
                few =
                    subst (λ (rs : List Roster). length rs ≤ kept_rosters) (sym w)
                      (leb→le _ _ (guard-eq-ok _ roster few));
                linked = subst (λ (rs : List Roster). Linked crates rs) (sym w) linked;
              };
              known = subst (λ (rs : List Roster). AreKnown crates c rs s.keys) (sym w) known';
            },
          )

  IsValid→validate_rosters :
      (rosters : List Roster) (keys : List GroupKey) (c : Roster)
      → IsHistory crates rosters c
      → AreKnown crates c rosters keys
      → validate_rosters crates rosters keys ≡ ok tt
  unfolding validate_rosters
  IsValid→validate_rosters [] keys c h k = absurd (let e : none ≡ some c = h.ends in cc)
  IsValid→validate_rosters (first ∷ rest) keys c h k =
      let same : c.group_id ≡ first.group_id =
        Linked-group_id crates first rest c h.linked h.ends in
      let known : all (is_known crates first.group_id (first ∷ rest)) keys ≡ true =
        subst (λ (g : Bytes). all (is_known crates g (first ∷ rest)) keys ≡ true) same k in
      let few : leb (length (first ∷ rest)) kept_rosters ≡ true = ground (arith, h.few) in
      rw
        (
          few,
          verify_first crates first rest h.linked,
          Linked→validate_chain crates first rest h.linked,
          known,
        )
        refl

  pub IsValid→validate :
      (s : GroupState) (c : Roster) → IsValid crates s c → validate crates s ≡ ok tt
  unfolding validate
  IsValid→validate s c h = IsValid→validate_rosters s.rosters s.keys c h.history h.known
