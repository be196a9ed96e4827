-- ===== src/Group/Checks.antt =====
-- group.rs: `verify`, `check_successor` and the checks of a chain, and how they fail.
use panora.Prelude.{
  ℕ, ◌≡◌, ◌≢◌, ◌∙◌, ap, List, [], ◌∷◌, ◌==◌, nat_eq, list_eq, ok, err, guard, Result, >>-eq-ok,
  arith,
}
use panora.Rosters.{Roster, Member, Crates}
use panora.Rosters.Names.{Error, roster, panicked, validate_device_id, validate_name}
use panora.Group.{validate_members, verify, check_key, check_successor}
use panora.Group.Linked.{Linked}
use panora.Group.Chains.{check_links, check_chain}

-- The errors of a call are those that its caller sees.
abbrev pub NeverPanics {ℓ} : {A : Type ℓ} → Result Error A → Type ℓ
NeverPanics r = r ≢ err panicked

pub NeverPanics-err {ℓ} :
    {A : Type ℓ} (r : Result Error A) (x : Error) → NeverPanics r → r ≡ err x → x ≢ panicked
NeverPanics-err r x h k e = h (k ∙ ap (λ (y : Error). err y) e)

pub validate_device_id-NeverPanics : (id : List ℕ) → NeverPanics (validate_device_id id)
unfolding validate_device_id
validate_device_id-NeverPanics id h = ground arith

pub validate_name-NeverPanics : (name : List ℕ) → NeverPanics (validate_name name)
unfolding validate_name
validate_name-NeverPanics name h = ground arith

validate_members-NeverPanics : (ms : List Member) → NeverPanics (validate_members ms)
unfolding validate_members
validate_members-NeverPanics [] h = cc
validate_members-NeverPanics (m ∷ ms) h = ground (
  arith,
  validate_device_id-NeverPanics m.device_id,
  validate_name-NeverPanics m.name,
  validate_members-NeverPanics ms,
)

module _ (crates : Crates) where
  pub verify-NeverPanics : (r : Roster) → NeverPanics (verify crates r)
  unfolding verify
  verify-NeverPanics r h = ground (arith, validate_members-NeverPanics r.members)

  pub check_successor-NeverPanics : (r n : Roster) → NeverPanics (check_successor crates r n)
  unfolding check_successor check_key
  check_successor-NeverPanics r n h = ground arith

  check_links-NeverPanics :
      (mine r : Roster) (rs : List Roster) → NeverPanics (check_links crates mine r rs)
  unfolding check_links
  check_links-NeverPanics mine r [] h = cc
  check_links-NeverPanics mine r (n ∷ rs) h = ground (
    arith,
    verify-NeverPanics n,
    check_successor-NeverPanics r n,
    check_links-NeverPanics mine n rs,
  )

  pub check_chain-NeverPanics :
      (mine : Roster) (rs : List Roster) → NeverPanics (check_chain crates mine rs)
  unfolding check_chain
  check_chain-NeverPanics mine [] h = cc
  check_chain-NeverPanics mine (r ∷ rs) h =
      ground (arith, verify-NeverPanics r, check_links-NeverPanics mine r rs)

  check_links-Linked :
      (mine r : Roster) (rs : List Roster)
      → verify crates r ≡ ok tt
      → check_links crates mine r rs ≡ ok tt
      → Linked crates (r ∷ rs)
  unfolding check_links
  check_links-Linked mine r [] v e = v
  check_links-Linked mine r (n ∷ rs) v e =
      let (w, e1) = >>-eq-ok (verify crates n) _ e in
      let (g, e2) = >>-eq-ok (guard (n.group_id == mine.group_id) roster) _ e1 in
      let (k, e3) = >>-eq-ok (check_successor crates r n) _ e2 in
      (v, k, check_links-Linked mine n rs w e3)

  pub check_chain-Linked :
      (mine : Roster) (rs : List Roster) → check_chain crates mine rs ≡ ok tt → Linked crates rs
  unfolding check_chain
  check_chain-Linked mine [] e = tt
  check_chain-Linked mine (r ∷ rs) e =
      let (v, e1) = >>-eq-ok (verify crates r) _ e in
      let (g, e2) = >>-eq-ok (guard (r.group_id == mine.group_id) roster) _ e1 in
      check_links-Linked mine r rs v e2
