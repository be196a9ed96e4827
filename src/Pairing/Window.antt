-- ===== src/Pairing/Window.antt =====
-- crates/panora-sync/src/invite.rs: invitations, and the window in which a device is accepted.
use panora.Prelude.{
  ℕ, ◌+◌, ◌-◌, Bool, true, false, not, ◌&&◌, Option, none, some, Bytes, ltb, if◌then◌else◌, Result,
  ok, err, ℤ, int_ltb, int_add,
}
use panora.Rosters.{Identity}
use panora.Pairing.{PairingMode, invitation_mode, code_mode, Error}

abbrev pub invitation_ttl_secs : ℕ
invitation_ttl_secs = 600

abbrev pub code_window_secs : ℕ
code_window_secs = 300

abbrev pub max_code_attempts : ℕ
max_code_attempts = 3

abbrev pub max_invitation_attempts : ℕ
max_invitation_attempts = 10

-- Without its addresses, which only the transport and the link (Pairing/Link) read.
pub record Invitation : Type 0 where
  pub inviter : Identity
  pub secret : Bytes
  pub expires_at : ℤ

-- The secret is drawn at random.
unfoldable pub new_invitation : Identity → Bytes → ℤ → Invitation
new_invitation inviter random now = record {
  inviter = inviter;
  secret = random;
  expires_at = int_add now invitation_ttl_secs;
}

unfoldable pub is_expired : ℤ → Invitation → Bool
is_expired now inv = not (int_ltb now inv.expires_at)

pub record PairingWindow : Type 0 where
  pub invitation : Option Invitation
  pub expires_at : ℤ
  pub attempts : ℕ
  pub is_closed : Bool

unfoldable pub for_invitation : Invitation → PairingWindow
for_invitation inv = record {
  invitation = some inv;
  expires_at = inv.expires_at;
  attempts = 0;
  is_closed = false;
}

unfoldable pub for_code : ℤ → PairingWindow
for_code now = record {
  invitation = none;
  expires_at = int_add now code_window_secs;
  attempts = 0;
  is_closed = false;
}

abbrev pub mode_of : Option Invitation → PairingMode
mode_of none = code_mode
mode_of (some inv) = invitation_mode

abbrev pub attempts_in : PairingMode → ℕ
attempts_in invitation_mode = max_invitation_attempts
attempts_in code_mode = max_code_attempts

abbrev pub max_attempts : PairingWindow → ℕ
max_attempts w = attempts_in (mode_of w.invitation)

unfoldable pub attempts_left : PairingWindow → ℕ
attempts_left w = max_attempts w - w.attempts

unfoldable pub is_live : ℤ → PairingWindow → Bool
is_live now w = not w.is_closed && int_ltb now w.expires_at

unfoldable pub is_open : ℤ → PairingWindow → Bool
unfolding is_live
is_open now w = is_live now w && ltb w.attempts (max_attempts w)

unfoldable pub begin : ℤ → PairingWindow → Result Error PairingWindow
unfolding is_open
begin now w =
    if is_open now w then ok (record w { attempts = w.attempts + 1 }) else err Error.invitation

unfoldable pub close : PairingWindow → PairingWindow
close w = record w { is_closed = true; invitation = none }
