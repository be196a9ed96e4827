-- ===== src/Pairing/Inviter.antt =====
-- crates/panora-sync/src/pairing.rs, `Inviter`: the side of a member of the group.
use panora.Prelude.{
  ℕ, Bool, not, Option, none, some, Bytes, codes, ◌==◌, nat_eq, list_eq, if◌then◌else◌, Result, ok,
  err, ◌>>=◌, ◌>>◌, guard, ok_or, ℤ,
}
use panora.Rosters.{Roster}
use panora.Rosters.Names as Names
use panora.Rosters.Names.{validate_device_id, validate_name}
use panora.Group.State.{GroupKey, DeviceIdentity, GroupState, current, holds_me, current_key}
use panora.Group.Membership.{add_member}
use panora.Pairing.{
  PairingMode, invitation_mode, code_mode, rejected, Error, protocol, auth, mode_mismatch, aborted,
  in_group, PairMessage, commit, offer, reveal, join, welcome, abort, JoinRequest, WelcomeBody,
  Primitives, protocol_name, commitment, invitation_proof, Session, derive, signed_context, seal,
  open_body,
}
use panora.Pairing.Window.{Invitation, PairingWindow, mode_of, begin, is_live, close}

abbrev pub mode_beq : PairingMode → PairingMode → Bool
mode_beq invitation_mode invitation_mode = Bool.true
mode_beq code_mode code_mode = Bool.true
mode_beq _ _ = Bool.false

abbrev pub proves : Primitives → Bytes → Option Bytes → Option Invitation → Bool
proves p c proof none = Bool.true
proves p c none (some inv) = Bool.false
proves p c (some shown) (some inv) = shown == invitation_proof p inv.secret c

unfoldable pub check_commit : Primitives → PairingWindow → PairMessage → Result Error (Unit {0})
unfolding invitation_proof
check_commit p w (commit name mode c proof) = do
  guard (name == protocol_name) protocol
  guard (mode_beq mode (mode_of w.invitation)) mode_mismatch
  guard (proves p c proof w.invitation) auth
check_commit p w msg = err protocol

-- `ephemeral` is the private key.
pub data InviterState : Type 0 where
  await_commit : InviterState
  offered : Bytes → Bytes → InviterState
  keyed : Session → InviterState
  waiting : Session → JoinRequest → InviterState

pub record Inviter : Type 0 where
  pub identity : DeviceIdentity
  pub window : PairingWindow
  pub group_id : Bytes
  pub mode : PairingMode
  pub secret : Option Bytes
  pub state : Option InviterState

abbrev pub own_secret : DeviceIdentity → Option Invitation → Result Error (Option Bytes)
own_secret identity none = ok none
own_secret identity (some inv) =
    guard (inv.inviter == identity.public) Error.invitation >> ok (some inv.secret)

unfoldable pub new : DeviceIdentity → GroupState → PairingWindow → ℤ → Result Error Inviter
unfolding begin
new identity s window now = do
  listed ← (if s.me == identity.public then in_group (holds_me s) else ok Bool.false)
  guard listed (Error.group Names.roster)
  secret ← own_secret identity window.invitation
  w ← begin now window
  r ← in_group (current s)
  ok (record {
    identity = identity;
    window = w;
    group_id = r.group_id;
    mode = mode_of window.invitation;
    secret = secret;
    state = some await_commit;
  })

-- An error leaves no state: the pairing has ended.
abbrev pub settled {ℓ} :
    {A : Type ℓ} → Inviter → Result Error (InviterState × A) → Inviter × Result Error A
settled i (ok (st, a)) = (record i { state = some st }, ok a)
settled i (err e) = (record i { state = none }, err e)

-- The private key is drawn at random.
unfoldable pub committed :
    Primitives
    → Inviter
    → Bytes
    → Option InviterState
    → PairMessage
    → Result Error (InviterState × PairMessage)
unfolding check_commit
committed p i random st (abort reason) = err (aborted reason)
committed p i random (some await_commit) (commit name mode c proof) = do
  check_commit p i.window (commit name mode c proof)
  ok (offered random c, offer (p.public_of random) i.identity.public)
committed p i random st msg = err protocol

unfoldable pub on_commit :
    Primitives → Bytes → PairMessage → Inviter → Inviter × Result Error PairMessage
unfolding committed
on_commit p random msg i = settled i (committed p i random i.state msg)

unfoldable pub take_reveal :
    Primitives → Inviter → Bytes → Bytes → Bytes → Result Error (InviterState × Unit {0})
unfolding commitment derive
take_reveal p i ephemeral c joiner_ephemeral = do
  guard (commitment p joiner_ephemeral == c) auth
  shared ← ok_or (p.agree ephemeral joiner_ephemeral) auth
  let session =
      derive p
        (record {
          mode = i.mode;
          commitment = c;
          inviter_ephemeral = p.public_of ephemeral;
          inviter = i.identity.public;
          joiner_ephemeral = joiner_ephemeral;
        })
        shared i.secret
  ok (keyed session, tt)

unfoldable pub revealed :
    Primitives
    → Inviter
    → Option InviterState
    → PairMessage
    → Result Error (InviterState × Unit {0})
unfolding take_reveal
revealed p i st (abort reason) = err (aborted reason)
revealed p i (some (offered ephemeral c)) (reveal joiner_ephemeral) =
    take_reveal p i ephemeral c joiner_ephemeral
revealed p i st msg = err protocol

unfoldable pub on_reveal : Primitives → PairMessage → Inviter → Inviter × Result Error (Unit {0})
unfolding revealed
on_reveal p msg i = settled i (revealed p i i.state msg)

abbrev pub code_of : PairingMode → Option InviterState → Option ℕ
code_of code_mode (some (keyed session)) = some session.code
code_of code_mode (some (waiting session request)) = some session.code
code_of _ _ = none

abbrev pub code : Inviter → Option ℕ
code i = code_of i.mode i.state

unfoldable pub take_join :
    Primitives → Inviter → Session → Bytes → Result Error (InviterState × JoinRequest)
unfolding open_body signed_context validate_device_id validate_name
take_join p i session sealed = do
  body ← open_body p p.join_json session.joiner_to_inviter session.th sealed
  guard
      (p.crates.verify_signature body.identity (signed_context session (codes "join"))
        body.signature)
      (Error.group Names.signature)
  in_group (validate_device_id body.device_id)
  in_group (validate_name body.name)
  guard (not (body.identity == i.identity.public)) auth
  let request : JoinRequest = record {
    identity = body.identity;
    device_id = body.device_id;
    name = body.name;
  }
  ok (waiting session request, request)

unfoldable pub introduced :
    Primitives
    → Inviter
    → Option InviterState
    → PairMessage
    → Result Error (InviterState × JoinRequest)
unfolding take_join
introduced p i st (abort reason) = err (aborted reason)
introduced p i (some (keyed session)) (join sealed) = take_join p i session sealed
introduced p i st msg = err protocol

unfoldable pub on_join : Primitives → PairMessage → Inviter → Inviter × Result Error JoinRequest
unfolding introduced
on_join p msg i = settled i (introduced p i i.state msg)

-- The device is added, if the window and the group are still those of the pairing.
unfoldable pub admit :
    Primitives → Inviter → JoinRequest → ℤ → GroupState → Result Error (GroupState × Roster)
unfolding is_live add_member
admit p i request now s = do
  guard (is_live now i.window) Error.invitation
  r ← in_group (current s)
  guard (r.group_id == i.group_id) (Error.group Names.roster)
  in_group (
      add_member p.crates i.identity
        (record {
          identity = request.identity;
          device_id = request.device_id;
          name = request.name;
          added_at = now;
        })
        now s)

abbrev pub welcome_body : Inviter → Session → GroupState → GroupKey → WelcomeBody
welcome_body i session s key = record {
  signature = i.identity.sign (signed_context session (codes "welcome"));
  rosters = s.rosters;
  key = key;
}

unfoldable pub greeting :
    Primitives → Inviter → Bytes → Session → GroupState → Result Error PairMessage
unfolding current_key signed_context seal
greeting p i nonce session s = do
  held ← in_group (current_key p.crates s)
  key ← ok_or held (Error.group Names.roster)
  sealed ←
      seal p p.welcome_json nonce session.inviter_to_joiner session.th
        (welcome_body i session s key)
  ok (welcome sealed)

-- The call's result on the group that `admit` left: an error of `greeting` leaves the device in it.
abbrev pub welcomed :
    Inviter
    → GroupState
    → Roster
    → Result Error PairMessage
    → Inviter × (GroupState × Result Error (PairMessage × Roster))
welcomed i s next (ok msg) =
    (record i { state = none; window = close i.window }, (s, ok (msg, next)))
welcomed i s next (err e) = (record i { state = none }, (s, err e))

abbrev pub admitted :
    Primitives
    → Bytes
    → Session
    → Inviter
    → GroupState
    → Result Error (GroupState × Roster)
    → Inviter × (GroupState × Result Error (PairMessage × Roster))
admitted p nonce session i s (ok (s', next)) = welcomed i s' next (greeting p i nonce session s')
admitted p nonce session i s (err e) = (record i { state = none }, (s, err e))

unfoldable pub approved :
    Primitives
    → Bytes
    → ℤ
    → Option InviterState
    → Inviter
    → GroupState
    → Inviter × (GroupState × Result Error (PairMessage × Roster))
unfolding admit greeting close
approved p nonce now (some (waiting session request)) i s =
    admitted p nonce session i s (admit p i request now s)
approved p nonce now st i s = (record i { state = none }, (s, err protocol))

unfoldable pub approve :
    Primitives
    → Bytes
    → ℤ
    → Inviter
    → GroupState
    → Inviter × (GroupState × Result Error (PairMessage × Roster))
unfolding approved
approve p nonce now i s = approved p nonce now i.state i s

unfoldable pub reject : Inviter → Inviter × PairMessage
reject i = (record i { state = none }, abort rejected)
