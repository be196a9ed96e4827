-- ===== src/Pairing/Agreement.antt =====
-- pairing.rs and wire.rs: two sides that follow the protocol get to know each other.
use panora.Prelude.{
  ◌+◌, ◌≡◌, refl, sym, ◌∙◌, ap, true, false, Option, none, some, Bytes, ℤ, ◌==◌, nat_eq, list_eq,
  Bool-cases, inl, inr, Result, ok, guard, if◌then◌else◌, >>=-eq-ok, >>-eq-ok, ok-pair-injective,
  arith,
}
use panora.Rosters.Names as Names
use panora.Rosters.Names.{validate_device_id, validate_name}
use panora.Group.State.{DeviceIdentity, GroupState, current, holds_me}
use panora.Pairing.{Error, in_group, PairMessage, Primitives}
use panora.Pairing.Window.{Invitation, PairingWindow, begin, is_open, mode_of}
use panora.Pairing.Inviter.{Inviter, await_commit, new, own_secret}
use panora.Pairing.Joiner.{Joiner, start, check_invitation, made_by, secret_of}
use panora.Pairing.Sealed.{in_group-eq-ok}
use panora.Pairing.Steps.{Parties, first_message, joiner_at, joiner_start}

module _ (p : Primitives) (a : Parties) (w : PairingWindow) where
  -- What `start` checks, and what it leaves.
  pub start_lem :
      (now : ℤ) (j : Joiner) (first : PairMessage)
      → start p a.joiner a.device_id a.name w.invitation now a.joining ≡ ok (j, first)
      → (validate_device_id a.device_id ≡ ok tt)
        × ((validate_name a.name ≡ ok tt)
            × ((j ≡ joiner_at p a w (joiner_start p a w)) × (first ≡ first_message p a w)))
  unfolding start
  start_lem now j first e =
      let (valid, e1) = >>-eq-ok (in_group (validate_device_id a.device_id)) _ e in
      let (named, e2) = >>-eq-ok (in_group (validate_name a.name)) _ e1 in
      let (checked, e3) = >>-eq-ok (check_invitation a.joiner now w.invitation) _ e2 in
      (
        in_group-eq-ok (validate_device_id a.device_id) tt valid,
        (
          in_group-eq-ok (validate_name a.name) tt named,
          let (same, said) = ok-pair-injective _ j _ first e3 in (sym same, sym said),
        ),
      )

-- What `new` checks, and what it leaves.
own_secret_lem :
    (identity : DeviceIdentity) (inv : Option Invitation) (secret : Option Bytes)
    → own_secret identity inv ≡ ok secret
    → (secret ≡ secret_of inv) × (made_by identity.public inv ≡ true)
own_secret_lem identity none secret e = (cc, refl)
own_secret_lem identity (some inv) secret e = elim (Bool-cases (inv.inviter == identity.public)) [
  | inl h ↦ (ground (arith), h)
  | inr h ↦ absurd (ground arith)
]

abbrev pub counted : PairingWindow → PairingWindow
counted w = record w { attempts = w.attempts + 1 }

begin_lem :
    (now : ℤ) (w w' : PairingWindow)
    → begin now w ≡ ok w'
    → (w' ≡ counted w) × (is_open now w ≡ true)
unfolding begin
begin_lem now w w' e = elim (Bool-cases (is_open now w)) [
  | inl h ↦ (ground arith, h)
  | inr h ↦ absurd (ground arith)
]

abbrev pub fresh :
    DeviceIdentity → Option Invitation → Bytes → PairingWindow → Option Bytes → Inviter
fresh identity inv g w secret = record {
  identity = identity;
  window = w;
  group_id = g;
  mode = mode_of inv;
  secret = secret;
  state = some await_commit;
}

pub ok-injective : {A : Type 0} (x y : A) → ◌≡◌ {A = Result Error A} (ok x) (ok y) → x ≡ y
ok-injective x y e = cc

pub new-fresh :
    (identity : DeviceIdentity) (s : GroupState) (w : PairingWindow) (now : ℤ) (i : Inviter)
    → new identity s w now ≡ ok i
    → (g : Bytes) × ((i ≡ fresh identity w.invitation g (counted w) (secret_of w.invitation))
        × ((made_by identity.public w.invitation ≡ true) × (is_open now w ≡ true)))
unfolding new
new-fresh identity s w now i e =
    let (listed, l, e1) =
      >>=-eq-ok (if s.me == identity.public then in_group (holds_me s) else ok false) _ e in
    let (g, e2) = >>-eq-ok (guard listed (Error.group Names.roster)) _ e1 in
    let (secret, k, e3) = >>=-eq-ok (own_secret identity w.invitation) _ e2 in
    let (w', b, e4) = >>=-eq-ok (begin now w) _ e3 in
    let (c, r, e5) = >>=-eq-ok (in_group (current s)) _ e4 in
    let (same, made) = own_secret_lem identity w.invitation secret k in
    let (begun, live) = begin_lem now w w' b in
    (
      c.group_id,
      (
        sym (ok-injective _ i e5)
            ∙ (ap (λ (x : PairingWindow). fresh identity w.invitation c.group_id x secret) begun
                ∙ ap (fresh identity w.invitation c.group_id (counted w)) same),
        (made, live),
      ),
    )
