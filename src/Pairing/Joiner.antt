-- ===== src/Pairing/Joiner.antt =====
-- crates/panora-sync/src/pairing.rs, `Joiner`: the side of the new device.
use panora.Prelude.{
  ℕ, Bool, true, false, not, ◌&&◌, Option, none, some, List, [], ◌∷◌, Text, Bytes, codes, ◌==◌,
  nat_eq, list_eq, Result, ok, err, ◌>>=◌, ◌>>◌, guard, ok_or, ℤ,
}
use panora.Rosters.{Identity, Roster, Member}
use panora.Rosters.Names as Names
use panora.Rosters.Names.{validate_device_id, validate_name}
use panora.Group.{member_in, is_member, verify, check_successor}
use panora.Group.State.{DeviceIdentity, GroupState, joined}
use panora.Pairing.{
  PairingMode, code_mode, rejected, Error, protocol, auth, expired, aborted, in_group, PairMessage,
  commit, offer, reveal, join, welcome, abort, JoinBody, Primitives, protocol_name, commitment,
  invitation_proof, Session, derive, signed_context, seal, open_body,
}
use panora.Pairing.Window.{Invitation, is_expired, mode_of}

-- `ephemeral` is the private key.
pub data JoinerState : Type 0 where
  committed : Bytes → Bytes → JoinerState
  keyed : Session → Identity → Bool → JoinerState

pub record Joiner : Type 0 where
  pub identity : DeviceIdentity
  pub device_id : Text
  pub name : List ℕ
  pub invitation : Option Invitation
  pub state : Option JoinerState

abbrev pub check_invitation : DeviceIdentity → ℤ → Option Invitation → Result Error (Unit {0})
check_invitation identity now none = ok tt
check_invitation identity now (some inv) = do
  guard (not (is_expired now inv)) expired
  guard (not (inv.inviter == identity.public)) Error.invitation

abbrev pub proof_of : Primitives → Bytes → Option Invitation → Option Bytes
proof_of p c none = none
proof_of p c (some inv) = some (invitation_proof p inv.secret c)

-- The private key is drawn at random.
unfoldable pub start :
    Primitives
    → DeviceIdentity
    → Text
    → List ℕ
    → Option Invitation
    → ℤ
    → Bytes
    → Result Error (Joiner × PairMessage)
unfolding validate_device_id validate_name is_expired commitment invitation_proof
start p identity device_id name inv now random = do
  in_group (validate_device_id device_id)
  in_group (validate_name name)
  check_invitation identity now inv
  let c = commitment p (p.public_of random)
  let j : Joiner = record {
    identity = identity;
    device_id = device_id;
    name = name;
    invitation = inv;
    state = some (JoinerState.committed random c);
  }
  ok (j, commit protocol_name (mode_of inv) c (proof_of p c inv))

abbrev pub made_by : Identity → Option Invitation → Bool
made_by inviter none = true
made_by inviter (some inv) = inv.inviter == inviter

abbrev pub secret_of : Option Invitation → Option Bytes
secret_of none = none
secret_of (some inv) = some inv.secret

-- What a joiner that waits for the offer does with it.
unfoldable pub take_offer :
    Primitives
    → Joiner
    → Bytes
    → Bytes
    → Bytes
    → Identity
    → Result Error (JoinerState × PairMessage)
unfolding derive
take_offer p j ephemeral c inviter_ephemeral inviter = do
  guard (not (inviter == j.identity.public)) auth
  guard (made_by inviter j.invitation) auth
  shared ← ok_or (p.agree ephemeral inviter_ephemeral) auth
  let session =
      derive p
        (record {
          mode = mode_of j.invitation;
          commitment = c;
          inviter_ephemeral = inviter_ephemeral;
          inviter = inviter;
          joiner_ephemeral = p.public_of ephemeral;
        })
        shared (secret_of j.invitation)
  ok (keyed session inviter false, reveal (p.public_of ephemeral))

-- `on_offer` on the state that it takes.
unfoldable pub offered :
    Primitives
    → Joiner
    → Option JoinerState
    → PairMessage
    → Result Error (JoinerState × PairMessage)
unfolding take_offer
offered p j st (abort reason) = err (aborted reason)
offered p j (some (JoinerState.committed ephemeral c)) (offer inviter_ephemeral inviter) =
    take_offer p j ephemeral c inviter_ephemeral inviter
offered p j st msg = err protocol

-- An error leaves no state: the pairing has ended.
abbrev pub settled :
    Joiner → Result Error (JoinerState × PairMessage) → Joiner × Result Error PairMessage
settled j (ok (st, msg)) = (record j { state = some st }, ok msg)
settled j (err e) = (record j { state = none }, err e)

unfoldable pub on_offer : Primitives → PairMessage → Joiner → Joiner × Result Error PairMessage
unfolding offered
on_offer p msg j = settled j (offered p j j.state msg)

abbrev pub code_of : PairingMode → Option JoinerState → Option ℕ
code_of code_mode (some (keyed session inviter sent)) = some session.code
code_of _ _ = none

abbrev pub code : Joiner → Option ℕ
code j = code_of (mode_of j.invitation) j.state

abbrev pub inviter_in : Option JoinerState → Option Identity
inviter_in (some (keyed session inviter sent)) = some inviter
inviter_in _ = none

abbrev pub inviter_of : Joiner → Option Identity
inviter_of j = inviter_in j.state

abbrev pub join_body : Joiner → Session → JoinBody
join_body j session = record {
  identity = j.identity.public;
  device_id = j.device_id;
  name = j.name;
  signature = j.identity.sign (signed_context session (codes "join"));
}

-- `confirm` on the state: it is marked as sent before the body is sealed.
unfoldable pub confirmed :
    Primitives → Bytes → Option JoinerState → Joiner → Joiner × Result Error PairMessage
unfolding seal signed_context
confirmed p nonce (some (keyed session inviter false)) j = (
  record j { state = some (keyed session inviter true) },
  seal p p.join_json nonce session.joiner_to_inviter session.th (join_body j session) >>= λ sealed.
      ok (join sealed),
)
confirmed p nonce st j = (j, err protocol)

unfoldable pub confirm : Primitives → Bytes → Joiner → Joiner × Result Error PairMessage
unfolding confirmed
confirm p nonce j = confirmed p nonce j.state j

unfoldable pub reject : Joiner → Joiner × PairMessage
reject j = (record j { state = none }, abort rejected)

-- The last two rosters.
abbrev pub last_two : List Roster → Option (Roster × Roster)
last_two (a ∷ b ∷ []) = some (a, b)
last_two (a ∷ b ∷ c ∷ rs) = last_two (b ∷ c ∷ rs)
last_two _ = none

abbrev pub is_as_asked : Joiner → Option Member → Bool
is_as_asked j none = false
is_as_asked j (some m) = m.device_id == j.device_id && m.name == j.name

-- What a joiner that sent its request does with a welcome.
unfoldable pub take_welcome :
    Primitives → Joiner → Session → Identity → Bytes → Result Error GroupState
unfolding open_body signed_context verify check_successor member_in joined
take_welcome p j session inviter sealed = do
  body ← open_body p p.welcome_json session.inviter_to_joiner session.th sealed
  guard
      (p.crates.verify_signature inviter (signed_context session (codes "welcome")) body.signature)
      (Error.group Names.signature)
  (parent, current) ← ok_or (last_two body.rosters) protocol
  in_group (verify p.crates parent)
  in_group (verify p.crates current)
  in_group (check_successor p.crates parent current)
  let me = j.identity.public
  guard
      (current.signer == inviter
        && not (is_member me parent)
        && is_as_asked j (member_in me current.members))
      (Error.group Names.roster)
  in_group (joined p.crates me body.rosters body.key)

unfoldable pub welcomed :
    Primitives → Joiner → Option JoinerState → PairMessage → Result Error GroupState
unfolding take_welcome
welcomed p j st (abort reason) = err (aborted reason)
welcomed p j (some (keyed session inviter true)) (welcome sealed) =
    take_welcome p j session inviter sealed
welcomed p j st msg = err protocol

unfoldable pub on_welcome : Primitives → PairMessage → Joiner → Joiner × Result Error GroupState
unfolding welcomed
on_welcome p msg j = (record j { state = none }, welcomed p j j.state msg)
