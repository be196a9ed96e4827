-- ===== src/Group/Calls.antt =====
-- group.rs: sequences of calls on a device's view of its group.
use panora.Prelude.{
  ℕ, ◌≡◌, ◌≢◌, refl, ◌∙◌, ap, subst, Bool, ◌||◌, Option, none, some, List, [], ◌∷◌, Bytes, any,
  ◌==◌, nat_eq, list_eq, Bool-cases, inl, inr, Result, ok, err, Result-cases, ℤ,
}
use panora.Rosters.{Identity, Member, Roster, Crates}
use panora.Rosters.Names.{Error, panicked}
use panora.Group.{is_member}
use panora.Group.Reapply.{Change, added, removed}
use panora.Group.State.{GroupKey, GroupState, DeviceIdentity, accept_key}
use panora.Group.Membership.{add_member, remove_member, redo, reapply}
use panora.Group.Chains.{RosterUpdate, apply_chain}
use panora.Group.Linked.{IsValid}
use panora.Group.Upkeep.{
  enter-IsValid, add_member-enter, add_member-NeverPanics, with_key, remove_member-enter,
  remove_member-NeverPanics,
}
use panora.Group.Arrivals.{Lands}

pub data Call : Type 0 where
  accept : GroupKey → Call
  add : DeviceIdentity → Member → ℤ → Call
  remove : DeviceIdentity → Identity → ℤ → Bytes → Call
  apply : List Roster → Call
  again : DeviceIdentity → List Change → ℤ → (ℕ → Bytes) → Call

-- A call that fails leaves the state as it was.
abbrev pub outcome {ℓ} :
    {A : Type ℓ} → GroupState → Result Error (GroupState × A) → GroupState × Option Error
outcome s (ok (s', a)) = (s', none)
outcome s (err e) = (s, some e)

abbrev pub error_of {ℓ} : {A : Type ℓ} → Result Error A → Option Error
error_of (ok a) = none
error_of (err e) = some e

unfoldable pub perform : Crates → Call → GroupState → GroupState × Option Error
perform crates (accept key) s = outcome s (accept_key crates key s)
perform crates (add signer m now) s = outcome s (add_member crates signer m now s)
perform crates (remove signer target now random) s =
    outcome s (remove_member crates signer target now random s)
perform crates (apply chain) s = outcome s (apply_chain crates chain s)
perform crates (again signer changes now random) s =
    let (s', r) = reapply crates signer changes now random s in (s', error_of r)

unfoldable pub run : Crates → List Call → GroupState → GroupState
unfolding perform
run crates [] s = s
run crates (call ∷ calls) s = run crates calls (perform crates call s).0

-- A state that loads, and no panic on the way to it.
abbrev pub Stands : Crates → GroupState × Option Error → Type 0
Stands crates r = ((c : Roster) × IsValid crates r.0 c) × (r.1 ≢ some panicked)

module _ (crates : Crates) where
  -- What a call does, from what its success gives.
  pub outcome-Stands :
      {A : Type 0} (r : Result Error (GroupState × A)) (s : GroupState) (c : Roster)
      → IsValid crates s c
      → ((s' : GroupState) (a : A) → r ≡ ok (s', a) → (d : Roster) × IsValid crates s' d)
      → r ≢ err panicked
      → Stands crates (outcome s r)
  outcome-Stands (ok (s', a)) s c v good safe = (good s' a refl, λ e. cc)
  outcome-Stands (err x) s c v good safe = ((c, v), λ e. safe cc)

  pub Lands-IsValid :
      (r : Result Error (GroupState × RosterUpdate)) (s' : GroupState) (u : RosterUpdate)
      → Lands crates r
      → r ≡ ok (s', u)
      → (d : Roster) × IsValid crates s' d
  Lands-IsValid r s' u h e =
      subst (λ (x : Result Error (GroupState × RosterUpdate)). Lands crates x) e h

  pub Lands-NeverPanics :
      (r : Result Error (GroupState × RosterUpdate)) → Lands crates r → r ≢ err panicked
  Lands-NeverPanics (ok (s, u)) h e = cc
  Lands-NeverPanics (err x) h e = h cc

  module _ (signer : DeviceIdentity) (now : ℤ) where
    pub add_member-IsValid :
        (m : Member) (s s' : GroupState) (c next : Roster)
        → IsValid crates s c
        → add_member crates signer m now s ≡ ok (s', next)
        → IsValid crates s' next
    add_member-IsValid m s s' c next v e =
        enter-IsValid crates s c v.history next s'
          (add_member-enter crates signer now s m s' next e)

    pub remove_member-IsValid :
        (target : Identity) (random : Bytes) (s s' : GroupState) (c next : Roster) (key : GroupKey)
        → IsValid crates s c
        → remove_member crates signer target now random s ≡ ok (s', (next, key))
        → IsValid crates s' next
    remove_member-IsValid target random s s' c next key v e =
        let (r, f, n, k, entered) =
          remove_member-enter crates signer now s target random s' next key e in
        enter-IsValid crates (with_key crates signer now s target random r.epoch) c v.history next
          s' entered

    pub redo-Stands :
        (random : Bytes) (change : Change) (s : GroupState) (c : Roster)
        → IsValid crates s c
        → Stands crates (outcome s (redo crates signer now random change s))
    unfolding redo
    redo-Stands random (added m) s c v =
        let taken : Bool =
          is_member m.identity c || any (λ n. n.device_id == m.device_id) c.members in
        rw v.history.ends (elim (Bool-cases taken) [
          | inl t ↦ rw t ((c, v), λ e. cc)
          | inr t ↦ rw t (elim (Result-cases (add_member crates signer m now s)) [
            | inl ((s', next), e) ↦ rw e ((next, add_member-IsValid m s s' c next v e), λ e. cc)
            | inr (x, e) ↦ rw e (
              (c, v),
              λ p.
                  add_member-NeverPanics crates signer now s c m v.history
                    (e ∙ ap (λ (o : Error). err o) cc),
            )
          ])
        ])
    redo-Stands random (removed identity) s c v = elim (Bool-cases (identity == s.me)) [
      | inl t ↦ rw t ((c, v), λ e. cc)
      | inr t ↦ rw t (
          rw v.history.ends (elim (Bool-cases (is_member identity c)) [
            | inr p ↦ rw p ((c, v), λ e. cc)
            | inl p ↦
                rw p (elim (Result-cases (remove_member crates signer identity now random s)) [
                  | inl ((s', (next, key)), e) ↦
                      rw e
                        ((next, remove_member-IsValid identity random s s' c next key v e), λ e. cc)
                  | inr (x, e) ↦ rw e (
                    (c, v),
                    λ p.
                        remove_member-NeverPanics crates signer now s identity random c v.history
                          (e ∙ ap (λ (o : Error). err o) cc),
                  )
                ])
          ]))
    ]
