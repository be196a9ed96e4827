-- ===== src/Group/Loads.antt =====
-- group.rs: sequences of calls on a device's view of its group, from creation or a load on.
use panora.Prelude.{
  ℕ, ◌+◌, ◌≡◌, ◌≢◌, refl, subst, true, Option, some, List, [], ◌∷◌, ◌++◌, Bytes, Text, nat_eq,
  list_eq, ==-refl, inl, inr, Result, ok, Result-cases, >>-eq-ok, ℤ,
}
use panora.Rosters.{Roster, Crates, body}
use panora.Rosters.Names.{Error, panicked, validate_device_id, validate_name}
use panora.Group.{verify, member_in, is_sorted, has_twins, validate_members, zeros}
use panora.History.Blobs.{sort_texts}
use panora.Group.Reapply.{Change}
use panora.Group.State.{
  GroupKey, GroupState, DeviceIdentity, create, validate, validate_rosters, validate_chain, signed,
  check, accept_key,
}
use panora.Group.Membership.{add_member, remove_member, redo, reapply_from, reapply, sent}
use panora.Group.Chains.{apply_chain}
use panora.Group.Linked.{IsValid}
use panora.Group.Valid.{validate→IsValid, IsValid→validate}
use panora.Group.Upkeep.{
  accept_key-IsValid, accept_key-NeverPanics, add_member-NeverPanics, remove_member-NeverPanics,
}
use panora.Group.Arrivals.{apply_chain-Lands}
use panora.Group.Calls.{
  Call, accept, add, remove, apply, again, outcome, error_of, perform, run, Stands, outcome-Stands,
  Lands-IsValid, Lands-NeverPanics, add_member-IsValid, remove_member-IsValid, redo-Stands,
}

module _ (crates : Crates) where
  reapply_from-Stands :
      (signer : DeviceIdentity) (now : ℤ) (random : ℕ → Bytes) (i : ℕ)
      (out : List (Roster × Option GroupKey)) (changes : List Change) (s : GroupState) (c : Roster)
      → IsValid crates s c
      → Stands crates (
        (reapply_from crates signer now random i out changes s).0,
        error_of (reapply_from crates signer now random i out changes s).1,
      )
  unfolding reapply_from
  reapply_from-Stands signer now random i out [] s c v = ((c, v), λ e. cc)
  reapply_from-Stands signer now random i out (change ∷ changes) s c v =
      let stands = redo-Stands crates signer now (random i) change s c v in
      elim (Result-cases (redo crates signer now (random i) change s)) [
        | inl ((s', more), e) ↦
            let (d, w) =
              (subst
                (λ (r : Result Error (GroupState × Option (Roster × Option GroupKey))).
                  Stands crates (outcome s r))
                e stands).0 in
            rw e (reapply_from-Stands signer now random (i + 1) (sent more out) changes s' d w)
        | inr (x, e) ↦ rw e (
            subst
              (λ (r : Result Error (GroupState × Option (Roster × Option GroupKey))).
                Stands crates (outcome s r))
              e stands)
      ]

  perform-Stands :
      (call : Call) (s : GroupState) (c : Roster)
      → IsValid crates s c
      → Stands crates (perform crates call s)
  unfolding perform reapply
  perform-Stands (accept key) s c v =
      outcome-Stands crates (accept_key crates key s) s c v
        (λ s' b e. (c, accept_key-IsValid crates s c v.history key s' b v e))
        (accept_key-NeverPanics crates s c v.history key)
  perform-Stands (add signer m now) s c v =
      outcome-Stands crates (add_member crates signer m now s) s c v
        (λ s' next e. (next, add_member-IsValid crates signer now m s s' c next v e))
        (add_member-NeverPanics crates signer now s c m v.history)
  perform-Stands (remove signer target now random) s c v =
      outcome-Stands crates (remove_member crates signer target now random s) s c v
        (λ s' (next, key) e.
          (next, remove_member-IsValid crates signer now target random s s' c next key v e))
        (remove_member-NeverPanics crates signer now s target random c v.history)
  perform-Stands (apply chain) s c v =
      let lands = apply_chain-Lands crates chain s c v in
      outcome-Stands crates (apply_chain crates chain s) s c v
        (λ s' u e. Lands-IsValid crates (apply_chain crates chain s) s' u lands e)
        (Lands-NeverPanics crates (apply_chain crates chain s) lands)
  perform-Stands (again signer changes now random) s c v =
      reapply_from-Stands signer now random 0 [] changes s c v

  run-IsValid :
      (calls : List Call) (s : GroupState) (c : Roster)
      → IsValid crates s c
      → (d : Roster) × IsValid crates (run crates calls s) d
  unfolding run
  run-IsValid [] s c v = (c, v)
  run-IsValid (call ∷ calls) s c v =
      let ((d, w), safe) = perform-Stands call s c v in
      run-IsValid calls (perform crates call s).0 d w

-- What the crate ring documents: a signature by a key pair is one of its public half.
abbrev pub IsKeyPair : Crates → DeviceIdentity → Type 0
IsKeyPair crates identity =
    (text : Bytes) → crates.verify_signature identity.public text (identity.sign text) ≡ true

-- A group state that `validate` accepts is still accepted after any sequence of `accept_key`,
-- `add_member`, `remove_member`, `apply_chain` and `reapply`, whatever their arguments are and
-- whichever of them fail: what is saved loads again.
pub run-validate :
    (crates : Crates) (calls : List Call) (s : GroupState)
    → validate crates s ≡ ok tt
    → validate crates (run crates calls s) ≡ ok tt
run-validate crates calls s e =
    let (c, v) = validate→IsValid crates s e in
    let (d, w) = run-IsValid crates calls s c v in IsValid→validate crates (run crates calls s) d w

-- On a group state that `validate` accepts, after any sequence of calls, the next call does not
-- panic, whatever its arguments are: a state always has a roster, and every index and slice of
-- `apply_chain` is in range.
pub run-ne-panicked :
    (crates : Crates) (calls : List Call) (call : Call) (s : GroupState)
    → validate crates s ≡ ok tt
    → (perform crates call (run crates calls s)).1 ≢ some panicked
run-ne-panicked crates calls call s e =
    let (c, v) = validate→IsValid crates s e in
    let (d, w) = run-IsValid crates calls s c v in
    (perform-Stands crates call (run crates calls s) d w).1

-- The one roster of a new group.
abbrev unsigned : Crates → DeviceIdentity → Bytes → Bytes → Text → List ℕ → ℤ → Roster
unsigned crates identity group_id random device_id name now = record {
  group_id = group_id;
  epoch = 0;
  prev = zeros;
  created_at = now;
  members =
      record { identity = identity.public; device_id = device_id; name = name; added_at = now }
      ∷ [];
  key_epoch = 0;
  key_check = check crates group_id (record { epoch = 0; key = random });
  signer = identity.public;
  signature = zeros ++ zeros;
}

verify-signed :
    (crates : Crates) (identity : DeviceIdentity) (group_id random : Bytes) (device_id : Text)
    (name : List ℕ) (now : ℤ)
    → IsKeyPair crates identity
    → validate_device_id device_id ≡ ok tt
    → validate_name name ≡ ok tt
    → verify crates (signed identity (unsigned crates identity group_id random device_id name now))
      ≡ ok tt
unfolding verify signed is_sorted has_twins sort_texts validate_members member_in body
verify-signed crates identity group_id random device_id name now pair a b =
    let made : Roster = unsigned crates identity group_id random device_id name now in
    rw a (rw b (rw (==-refl identity.public) (rw (pair (body made)) refl)))

-- If signatures by the device's key pair verify, then the state that `create` returns is accepted
-- by `validate`.
pub create-validate :
    (crates : Crates) (identity : DeviceIdentity) (group_id random : Bytes) (device_id : Text)
    (name : List ℕ) (now : ℤ) (s : GroupState)
    → IsKeyPair crates identity
    → create identity crates group_id random device_id name now ≡ ok s
    → validate crates s ≡ ok tt
unfolding create validate validate_rosters validate_chain
create-validate crates identity group_id random device_id name now s pair e =
    let (a, e1) = >>-eq-ok (validate_device_id device_id) _ e in
    let (b, e2) = >>-eq-ok (validate_name name) _ e1 in
    let key : GroupKey = record { epoch = 0; key = random } in
    let first : Roster =
      signed identity (unsigned crates identity group_id random device_id name now) in
    let v : verify crates first ≡ ok tt =
      verify-signed crates identity group_id random device_id name now pair a b in
    let same : record { me = identity.public; rosters = first ∷ []; keys = key ∷ [] } ≡ s = cc in
    subst (λ (t : GroupState). validate crates t ≡ ok tt) same
      (rw v (rw (==-refl (check crates group_id key)) refl))
