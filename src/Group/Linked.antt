-- ===== src/Group/Linked.antt =====
-- group.rs: rosters that follow one another, and the states of a group that load.
use panora.Prelude.{
  ℕ, zero, suc, ◌≤◌, ◌≡◌, refl, sym, ◌∙◌, ap, subst, true, some, List, [], ◌∷◌, ◌++◌, length, all,
  drop, take, last, ◌==◌, nat_eq, list_eq, ==→eq, arith, guard, ok, >>-eq-ok,
}
use panora.Rosters.{Roster, Crates}
use panora.Rosters.Names.{roster}
use panora.Group.{verify, check_successor}
use panora.Group.State.{GroupKey, GroupState, kept_rosters, validate_chain, is_known}

-- Each roster passes `verify`, and `check_successor` behind the one before.
abbrev pub Linked : Crates → List Roster → Type 0
Linked crates [] = Unit
Linked crates (r ∷ []) = verify crates r ≡ ok tt
Linked crates (r ∷ n ∷ rs) =
    (verify crates r ≡ ok tt) × (check_successor crates r n ≡ ok tt) × Linked crates (n ∷ rs)

-- The rosters of a state that loads; its last one is `newest`.
pub record IsHistory (crates : Crates) (rosters : List Roster) (newest : Roster) : Type 0 where
  pub ends : last rosters ≡ some newest
  pub few : length rosters ≤ kept_rosters
  pub linked : Linked crates rosters

-- Every key is that of a roster which is kept.
abbrev pub AreKnown : Crates → Roster → List Roster → List GroupKey → Type 0
AreKnown crates newest rosters keys = all (is_known crates newest.group_id rosters) keys ≡ true

pub record IsValid (crates : Crates) (s : GroupState) (newest : Roster) : Type 0 where
  pub history : IsHistory crates s.rosters newest
  pub known : AreKnown crates newest s.rosters s.keys

module _ (crates : Crates) where
  pub verify_first :
      (r : Roster) (rs : List Roster) → Linked crates (r ∷ rs) → verify crates r ≡ ok tt
  verify_first r [] h = h
  verify_first r (n ∷ rs) h = h.0

  pub Linked-tail : (r : Roster) (rs : List Roster) → Linked crates (r ∷ rs) → Linked crates rs
  Linked-tail r [] h = tt
  Linked-tail r (n ∷ rs) h = h.2

  pub Linked-drop : (n : ℕ) (rs : List Roster) → Linked crates rs → Linked crates (drop n rs)
  Linked-drop zero rs h = h
  Linked-drop (suc n) [] h = h
  Linked-drop (suc n) (r ∷ rs) h = Linked-drop n rs (Linked-tail r rs h)

  pub Linked-take : (n : ℕ) (rs : List Roster) → Linked crates rs → Linked crates (take n rs)
  Linked-take zero rs h = tt
  Linked-take (suc n) [] h = tt
  Linked-take (suc zero) (r ∷ rs) h = verify_first r rs h
  Linked-take (suc (suc n)) (r ∷ []) h = h
  Linked-take (suc (suc n)) (r ∷ m ∷ rs) h = (h.0, h.1, Linked-take (suc n) (m ∷ rs) h.2)

  pub Linked-snoc :
      (rs : List Roster) (c r : Roster)
      → Linked crates rs
      → last rs ≡ some c
      → verify crates r ≡ ok tt
      → check_successor crates c r ≡ ok tt
      → Linked crates (rs ++ r ∷ [])
  Linked-snoc [] c r h e v k = v
  Linked-snoc (x ∷ []) c r h e v k =
      let same : x ≡ c = cc in
      (h, subst (λ (y : Roster). check_successor crates y r ≡ ok tt) (sym same) k, v)
  Linked-snoc (x ∷ y ∷ rs) c r h e v k = (h.0, h.1, Linked-snoc (y ∷ rs) c r h.2 e v k)

  check_successor-group_id :
      (r n : Roster) → check_successor crates r n ≡ ok tt → n.group_id ≡ r.group_id
  unfolding check_successor
  check_successor-group_id r n e =
      let (g, rest) = >>-eq-ok (guard (n.group_id == r.group_id) roster) _ e in
      ==→eq n.group_id r.group_id (ground arith)

  -- All rosters of a history belong to one group.
  pub Linked-group_id :
      (r : Roster) (rs : List Roster) (c : Roster)
      → Linked crates (r ∷ rs)
      → last (r ∷ rs) ≡ some c
      → c.group_id ≡ r.group_id
  Linked-group_id r [] c h e = ap (λ (x : Roster). x.group_id) (let same : c ≡ r = cc in same)
  Linked-group_id r (n ∷ rs) c h e = Linked-group_id n rs c h.2 e ∙ check_successor-group_id r n h.1

  pub validate_chain→Linked :
      (r : Roster) (rs : List Roster)
      → verify crates r ≡ ok tt
      → validate_chain crates r rs ≡ ok tt
      → Linked crates (r ∷ rs)
  unfolding validate_chain
  validate_chain→Linked r [] v e = v
  validate_chain→Linked r (n ∷ rs) v e =
      let (w, e1) = >>-eq-ok (verify crates n) _ e in
      let (k, e2) = >>-eq-ok (check_successor crates r n) _ e1 in
      (v, k, validate_chain→Linked n rs w e2)

  pub Linked→validate_chain :
      (r : Roster) (rs : List Roster) → Linked crates (r ∷ rs) → validate_chain crates r rs ≡ ok tt
  unfolding validate_chain
  Linked→validate_chain r [] h = refl
  Linked→validate_chain r (n ∷ rs) h =
      rw (verify_first n rs h.2) (rw h.1 (Linked→validate_chain n rs h.2))
