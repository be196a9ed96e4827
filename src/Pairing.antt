-- ===== src/Pairing.antt =====
-- crates/panora-sync/src/pairing.rs: the messages, the keys and the codes of a pairing.
mod Examples
pub mod Admission
pub mod Agreement
pub mod Attempts
pub mod Inviter
pub mod Joiner
pub mod Link
pub mod Meeting
pub mod Runs
pub mod Sealed
pub mod Steps
pub mod Welcome
pub mod Window
use panora.Prelude.{
  ℕ, ◌+◌, ◌%◌, ◌^◌, Bool, not, Option, none, some, List, [], ◌∷◌, ◌++◌, Text, Bytes, codes, length,
  take, ◌==◌, nat_eq, list_eq, if◌then◌else◌, Result, ok, err, ◌>>=◌, ◌>>◌, guard, ok_or,
}
use panora.Crypto.{Aead, seal_with_aad, open_with_aad}
use panora.Ipc.{from_le}
use panora.Rosters.{Identity, Roster, Crates, put, be_bytes}
use panora.Rosters.Names as Names
use panora.Group.State.{GroupKey}

pub data PairingMode : Type 0 where
  invitation_mode code_mode : PairingMode

pub data AbortReason : Type 0 where
  rejected wrong_mode closed refused failed : AbortReason

-- The kinds of error; `group` carries those of rosters and devices.
pub data Error : Type 0 where
  protocol auth invitation expired mode_mismatch json core : Error
  aborted : AbortReason → Error
  group : Names.Error → Error

abbrev pub in_group {ℓ} : {A : Type ℓ} → Result Names.Error A → Result Error A
in_group (ok a) = ok a
in_group (err e) = err (group e)

pub data PairMessage : Type 0 where
  commit : Text → PairingMode → Bytes → Option Bytes → PairMessage
  offer : Bytes → Identity → PairMessage
  reveal : Bytes → PairMessage
  join : Bytes → PairMessage
  welcome : Bytes → PairMessage
  abort : AbortReason → PairMessage

pub record JoinRequest : Type 0 where
  pub identity : Identity
  pub device_id : Text
  pub name : List ℕ

pub record JoinBody : Type 0 where
  pub identity : Identity
  pub device_id : Text
  pub name : List ℕ
  pub signature : Bytes

pub record WelcomeBody : Type 0 where
  pub signature : Bytes
  pub rosters : List Roster
  pub key : GroupKey

-- The crate serde_json on a body.
pub record Json (Body : Type 0) : Type 0 where
  pub to_vec : Body → Option Bytes
  pub from_slice : Bytes → Option Body

-- X25519 of the crate ring on a private key, the cipher under a key, and the bodies as JSON.
pub record Primitives : Type 0 where
  pub crates : Crates
  pub public_of : Bytes → Bytes
  pub agree : Bytes → Bytes → Option Bytes
  pub cipher : Bytes → Aead
  pub join_json : Json JoinBody
  pub welcome_json : Json WelcomeBody

abbrev pub protocol_name : Text
protocol_name = codes "panora-pair/1"

unfoldable pub commitment : Primitives → Bytes → Bytes
commitment p ephemeral = p.crates.derive_key (codes "panora-pair/1 commitment") ephemeral

unfoldable pub invitation_proof : Primitives → Bytes → Bytes → Bytes
invitation_proof p secret committed =
    p.crates.keyed_hash (p.crates.derive_key (codes "panora-pair/1 invitation proof") secret)
      committed

abbrev pub mode_text : PairingMode → Text
mode_text invitation_mode = codes "invitation"
mode_text code_mode = codes "code"

pub record Transcript : Type 0 where
  pub mode : PairingMode
  pub commitment : Bytes
  pub inviter_ephemeral : Bytes
  pub inviter : Identity
  pub joiner_ephemeral : Bytes

pub record Session : Type 0 where
  pub th : Bytes
  pub joiner_to_inviter : Bytes
  pub inviter_to_joiner : Bytes
  pub code : ℕ

abbrev pub no_secret : Bytes
no_secret =
    0 ∷ 0 ∷ 0 ∷ 0 ∷ 0 ∷ 0 ∷ 0 ∷ 0 ∷ 0 ∷ 0 ∷ 0 ∷ 0 ∷ 0 ∷ 0 ∷ 0 ∷ 0 ∷ 0 ∷ 0 ∷ 0 ∷ 0 ∷ 0 ∷ 0 ∷ 0 ∷ 0
    ∷ 0 ∷ 0 ∷ 0 ∷ 0 ∷ 0 ∷ 0 ∷ 0 ∷ 0 ∷ []

abbrev pub secret_or : Option Bytes → Bytes
secret_or none = no_secret
secret_or (some secret) = secret

unfoldable pub transcript_bytes : Transcript → Bytes
unfolding put
transcript_bytes t =
    put
      (put (put (put (put protocol_name (mode_text t.mode)) t.commitment) t.inviter_ephemeral)
        t.inviter)
      t.joiner_ephemeral

unfoldable pub derive : Primitives → Transcript → Bytes → Option Bytes → Session
unfolding transcript_bytes
derive p t shared secret =
    let th = p.crates.derive_key (codes "panora-pair/1 transcript") (transcript_bytes t) in
    let ikm = shared ++ (secret_or secret ++ th) in
    let prk = p.crates.derive_key (codes "panora-pair/1 session key") ikm in
    record {
      th = th;
      joiner_to_inviter = p.crates.keyed_hash prk (codes "joiner to inviter");
      inviter_to_joiner = p.crates.keyed_hash prk (codes "inviter to joiner");
      code =
          from_le (take 8 (p.crates.keyed_hash prk (codes "short authentication string")))
          % 1000000;
    }

unfoldable pub signed_context : Session → Text → Bytes
unfolding put
signed_context session name = put (put protocol_name name) session.th

-- The nonce is drawn at random.
unfoldable pub seal :
    {Body : Type 0} → Primitives → Json Body → Bytes → Bytes → Bytes → Body → Result Error Bytes
seal p serde nonce key th body = do
  text ← ok_or (serde.to_vec body) json
  elim (seal_with_aad (p.cipher key) nonce th text) [ ok sealed ↦ ok sealed | err e ↦ err core ]

unfoldable pub open_body :
    {Body : Type 0} → Primitives → Json Body → Bytes → Bytes → Bytes → Result Error Body
open_body p serde key th sealed = elim (open_with_aad (p.cipher key) th sealed) [
  | err e ↦ err auth
  | ok text ↦ ok_or (serde.from_slice text) json
]
