-- ===== src/Pairing/Steps.antt =====
-- pairing.rs: each message of two sides that follow the protocol, on the side that gets it.
use panora.Prelude.{
  ℕ, ◌≡◌, refl, Bool, true, false, Option, none, some, List, Text, Bytes, length, ◌==◌, ==-refl,
  nat_eq, list_eq, Result, ok,
}
use panora.Crypto.{nonce_len}
use panora.Rosters.Names.{validate_device_id, validate_name}
use panora.Group.State.{DeviceIdentity}
use panora.Group.Loads.{IsKeyPair}
use panora.Pairing.{
  Error, PairingMode, invitation_mode, code_mode, PairMessage, commit, offer, reveal, join,
  JoinRequest, Primitives, protocol_name, commitment, invitation_proof, Session, derive, seal,
}
use panora.Pairing.Window.{Invitation, PairingWindow, mode_of}
use panora.Pairing.Inviter.{
  Inviter, InviterState, await_commit, mode_beq, proves, check_commit, on_commit, committed,
  on_reveal, revealed, take_reveal, on_join, introduced, take_join,
}
use panora.Pairing.Joiner.{
  Joiner, JoinerState, proof_of, made_by, secret_of, on_offer, offered, take_offer, confirm,
  confirmed, join_body,
}
use panora.Pairing.Sealed.{IsLawful, open_body-seal}

mode_beq_self : (m : PairingMode) → mode_beq m m ≡ true
mode_beq_self invitation_mode = refl
mode_beq_self code_mode = refl

proves-proof_of :
    (p : Primitives) (c : Bytes) (inv : Option Invitation)
    → proves p c (proof_of p c inv) inv ≡ true
proves-proof_of p c none = refl
proves-proof_of p c (some inv) = ==-refl (invitation_proof p inv.secret c)

-- What both sides bring to the pairing: `joining` and `random` are the private keys drawn by the
-- joiner and by the inviter.
pub record Parties : Type 0 where
  pub joiner : DeviceIdentity
  pub inviter : DeviceIdentity
  pub device_id : Text
  pub name : List ℕ
  pub joining : Bytes
  pub random : Bytes

module _ (p : Primitives) (a : Parties) (w : PairingWindow) where
  abbrev pub first_message : PairMessage
  first_message =
      let c = commitment p (p.public_of a.joining) in
      commit protocol_name (mode_of w.invitation) c (proof_of p c w.invitation)

  abbrev pub joiner_at : JoinerState → Joiner
  joiner_at st = record {
    identity = a.joiner;
    device_id = a.device_id;
    name = a.name;
    invitation = w.invitation;
    state = some st;
  }

  abbrev pub inviter_at : Bytes → InviterState → Inviter
  inviter_at group_id st = record {
    identity = a.inviter;
    window = w;
    group_id = group_id;
    mode = mode_of w.invitation;
    secret = secret_of w.invitation;
    state = some st;
  }

  abbrev pub joiner_start : JoinerState
  joiner_start = JoinerState.committed a.joining (commitment p (p.public_of a.joining))

  abbrev pub agreed : Bytes → Session
  agreed shared =
      derive p
        (record {
          mode = mode_of w.invitation;
          commitment = commitment p (p.public_of a.joining);
          inviter_ephemeral = p.public_of a.random;
          inviter = a.inviter.public;
          joiner_ephemeral = p.public_of a.joining;
        })
        shared (secret_of w.invitation)

  abbrev pub asked : JoinRequest
  asked = record { identity = a.joiner.public; device_id = a.device_id; name = a.name }

  abbrev pub answer : PairMessage
  answer = offer (p.public_of a.random) a.inviter.public

  pub on_commit_lem :
      (g : Bytes)
      → on_commit p a.random first_message (inviter_at g await_commit) ≡ (
        inviter_at g (InviterState.offered a.random (commitment p (p.public_of a.joining))),
        ok answer,
      )
  unfolding on_commit committed check_commit
  on_commit_lem g =
      rw
        (
          mode_beq_self (mode_of w.invitation),
          proves-proof_of p (commitment p (p.public_of a.joining)) w.invitation,
        )
        refl

  pub on_offer_lem :
      (shared : Bytes)
      → (a.inviter.public == a.joiner.public) ≡ false
      → made_by a.inviter.public w.invitation ≡ true
      → p.agree a.joining (p.public_of a.random) ≡ some shared
      → on_offer p answer (joiner_at joiner_start) ≡ (
        joiner_at (JoinerState.keyed (agreed shared) a.inviter.public false),
        ok (reveal (p.public_of a.joining)),
      )
  unfolding on_offer offered take_offer
  on_offer_lem shared other made meets = rw (other, made, meets) refl

  pub on_reveal_lem :
      (g shared : Bytes)
      → p.agree a.random (p.public_of a.joining) ≡ some shared
      → on_reveal p
          (reveal (p.public_of a.joining))
          (inviter_at g (InviterState.offered a.random (commitment p (p.public_of a.joining))))
        ≡ (inviter_at g (InviterState.keyed (agreed shared)), ok tt)
  unfolding on_reveal revealed take_reveal
  on_reveal_lem g shared meets = rw (==-refl (commitment p (p.public_of a.joining)), meets) refl

  abbrev pub joiner_keyed : Bytes → Bool → Joiner
  joiner_keyed shared sent = joiner_at (JoinerState.keyed (agreed shared) a.inviter.public sent)

  abbrev pub sealed_request : Bytes → Bytes → Result Error Bytes
  sealed_request nonce shared =
      seal p p.join_json nonce (agreed shared).joiner_to_inviter (agreed shared).th
        (join_body (joiner_keyed shared true) (agreed shared))

  pub confirm_lem :
      (nonce shared sealed : Bytes)
      → sealed_request nonce shared ≡ ok sealed
      → confirm p nonce (joiner_keyed shared false) ≡ (joiner_keyed shared true, ok (join sealed))
  unfolding confirm confirmed
  confirm_lem nonce shared sealed e = rw e refl

  pub on_join_lem :
      (g nonce shared sealed : Bytes)
      → IsLawful p
      → IsKeyPair p.crates a.joiner
      → length nonce ≡ nonce_len
      → validate_device_id a.device_id ≡ ok tt
      → validate_name a.name ≡ ok tt
      → (a.joiner.public == a.inviter.public) ≡ false
      → sealed_request nonce shared ≡ ok sealed
      → on_join p (join sealed) (inviter_at g (InviterState.keyed (agreed shared)))
        ≡ (inviter_at g (InviterState.waiting (agreed shared) asked), ok asked)
  unfolding on_join introduced take_join
  on_join_lem g nonce shared sealed law pair sized valid named other e =
      rw
        (
          open_body-seal p law p.join_json law.join_reads nonce _ _ sealed _ sized e,
          pair _,
          valid,
          named,
          other,
        )
        refl
