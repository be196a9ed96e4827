-- ===== src/Sync.antt =====
-- crates/panora-core/src/sync.rs: the records that devices exchange, what a device shares, and the
-- rule that picks the winner of two states.
pub mod Order
use panora.Prelude.{
  ℕ, Bool, true, false, not, ◌&&◌, ◌||◌, ℤ, Option, List, [], ◌∷◌, ◌++◌, Text, Bytes, ltb, ◌==◌,
  nat_eq, text_lt, if◌then◌else◌,
}
use panora.Model.{Selection, ContentKind, text, rich_text, link, color, MimePayload}

-- `SyncRecord`; the numbers are a peer's, so they may be negative.
pub record SyncRecord : Type 0 where
  pub content_hash : Text
  pub selection : Selection
  pub source_app : Option Text
  pub created_at : ℤ
  pub last_seen_at : ℤ
  pub pinned : Bool
  pub deleted : Bool
  pub device_id : Text
  pub lamport : ℤ
  pub payloads : List MimePayload

pub record SyncScope : Type 0 where
  pub pinned_only : Bool
  pub text_only : Bool

unfoldable pub is_text_like : ContentKind → Bool
is_text_like text = true
is_text_like rich_text = true
is_text_like link = true
is_text_like color = true
is_text_like _ = false

unfoldable pub includes : SyncScope → ContentKind → Bool → Bool → Bool
unfolding is_text_like
includes scope kind pinned deleted =
    if deleted
    then true
    else (not scope.pinned_only || pinned) && (not scope.text_only || is_text_like kind)

-- A Lamport value and the device that set it.
abbrev pub Version : Type 0
Version = ℕ × Text

-- `remote > local` on pairs.
unfoldable pub lww_wins : Version → Version → Bool
lww_wins (remote, remote_device) (local, local_device) =
    ltb local remote || (remote == local && text_lt local_device remote_device)

abbrev hashed : List MimePayload → Bytes
hashed [] = []
hashed (p ∷ ps) = p.mime ++ p.content ++ hashed ps

-- The hash function of the crate blake3 is an argument.
unfoldable pub payload_hash : (Bytes → Text) → List MimePayload → Text
payload_hash blake3 payloads = blake3 (hashed payloads)
