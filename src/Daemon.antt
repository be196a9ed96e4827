-- ===== src/Daemon.antt =====
-- crates/panod/src/daemon.rs: the daemon's operations on the history database and the blob store.
pub mod Store
pub mod Peers
pub mod Changes
pub mod Pages
pub mod FeedEnds
pub mod Garbage
pub mod Carries
pub mod Entered
pub mod Winner
pub mod LastWriter
mod Examples
use panora.Prelude.{
  ℕ, ◌+◌, ◌-◌, ◌*◌, ◌≡◌, Bool, true, false, not, ◌&&◌, ◌||◌, Option, none, some, List, [], ◌∷◌,
  ◌++◌, Text, Bytes, codes, length, ◌==◌, nat_eq, list_eq, ltb, if◌then◌else◌, Result, ok, err,
  ◌>>=◌, ◌>>◌,
}
use panora.Model.{ClipboardData, ContentKind}
use panora.Crypto.{Aead}
use panora.BlobStore as BlobStore
use panora.BlobStore.{Files}
use panora.History.Defs.{Database, not_found}
use panora.History.Defs as History
use panora.History.Entries.{Cipher, Entry, get, set_pinned, tombstone, restore, deleted_at, stamp}
use panora.History.Blobs.{strip_tombstones, purge_tombstones}
use panora.History.Retention.{enforce_limit, enforce_age, expire_sensitive, enforce_total_bytes}
use panora.History.Feed.{tick_lamport}

pub data Error : Type 0 where
  history : History.Error → Error
  blobs : BlobStore.Error → Error

abbrev pub from_history {ℓ} : {A : Type ℓ} → Result History.Error A → Result Error A
from_history (ok a) = ok a
from_history (err e) = err (history e)

abbrev pub from_blobs {ℓ} : {A : Type ℓ} → Result BlobStore.Error A → Result Error A
from_blobs (ok a) = ok a
from_blobs (err e) = err (blobs e)

-- The settings that the operations read.
pub record Config : Type 0 where
  pub max_entries : ℕ
  pub max_age_days : ℕ
  pub max_total_bytes : ℕ
  pub max_mime_bytes : ℕ
  pub record_primary : Bool
  pub index_full_text : Bool
  pub duplicate_policy : Text
  pub sensitive_policy : Text
  pub sensitive_ttl_minutes : ℕ
  pub sync_enabled : Bool
  pub tombstone_days : ℕ

-- What the daemon works with: the ciphers, the hash function of the crate blake3, its device id, and
-- the parts of the program that look into a capture. The privacy gate (`privacy.rs`), the kind and
-- text of a capture (`model.rs`), previews, the text to index, the detection of secrets
-- (`sensitive.rs`) and thumbnails are functions here, whatever they are.
pub record Host : Type 0 where
  pub cipher : Cipher
  pub aead : Aead
  pub nonce : Bytes → Bytes
  pub blake3 : Bytes → Text
  pub device_id : Text
  pub config : Config
  pub admits : ClipboardData → Bool
  pub classify : ClipboardData → ContentKind
  pub text_of : ClipboardData → Text
  pub make_preview : ClipboardData → Text
  pub detect : Text → Option Text
  pub index_text : Text → ContentKind → Option Text
  pub render_thumbnail : Bytes → Option Bytes

pub record World : Type 0 where
  pub db : Database
  pub files : Files

abbrev pub undo_grace_secs : ℕ
undo_grace_secs = 30

-- A blob that cannot be removed is logged and left.
unfoldable pub remove_blobs : List Text → Files → Files
remove_blobs [] files = files
remove_blobs (hash ∷ hashes) files = elim (BlobStore.remove hash files) [
  | ok files' ↦ remove_blobs hashes files'
  | err e ↦ remove_blobs hashes files
]

unfoldable pub purge_tombstoned_before : ℕ → World → World
unfolding remove_blobs
purge_tombstoned_before before w =
    let (freed, db) = purge_tombstones before w.db in
    record { db = db; files = remove_blobs freed w.files }

unfoldable pub strip_tombstoned_before : ℕ → World → World
unfolding remove_blobs
strip_tombstoned_before before w =
    let (freed, db) = strip_tombstones before w.db in
    record { db = db; files = remove_blobs freed w.files }

-- A limit that is switched off by 0.
abbrev pub unless_zero :
    ℕ
    → (Database → Result History.Error (List ℕ × Database))
    → Database
    → Result Error (List ℕ × Database)
unless_zero n enforce db = if n == 0 then ok ([], db) else from_history (enforce db)

-- The four limits, in the order of the source, and the ids that they evicted.
unfoldable pub enforce_limits : Config → ℕ → Database → Result Error (List ℕ × Database)
enforce_limits config now db = do
  (evicted, db1) ← from_history (enforce_limit config.max_entries db)
  (aged, db2) ←
      unless_zero config.max_age_days (enforce_age (now - config.max_age_days * 86400)) db1
  (expired, db3) ←
      unless_zero config.sensitive_ttl_minutes
        (expire_sensitive (now - config.sensitive_ttl_minutes * 60)) db2
  (large, db4) ← unless_zero config.max_total_bytes (enforce_total_bytes config.max_total_bytes) db3
  ok (evicted ++ aged ++ expired ++ large, db4)

-- The removal of tombstones: with sync on, rows stay for `tombstone_days` without their payloads.
unfoldable pub drop_tombstones : Config → ℕ → World → World
unfolding purge_tombstoned_before strip_tombstoned_before
drop_tombstones config now w =
    if config.sync_enabled
    then purge_tombstoned_before (now - config.tombstone_days * 86400)
        (strip_tombstoned_before (now - undo_grace_secs) w)
    else purge_tombstoned_before (now - undo_grace_secs) w

unfoldable pub collect_garbage : Config → ℕ → World → Result Error (ℕ × World)
unfolding enforce_limits drop_tombstones
collect_garbage config now w = do
  (evicted, db) ← enforce_limits config now w.db
  ok (length evicted, drop_tombstones config now (record w { db = db }))

-- This device's newest change.
unfoldable pub stamp_local : Host → ℕ → Database → Result Error Database
stamp_local host id db =
    let (lamport, db') = tick_lamport db in from_history (stamp id lamport host.device_id db')

unfoldable pub pin : Host → ℕ → Bool → World → Result Error World
unfolding stamp_local
pin host id pinned w = do
  db ← from_history (set_pinned id pinned w.db)
  db' ← stamp_local host id db
  ok (record w { db = db' })

unfoldable pub delete : Host → ℕ → ℕ → World → Result Error World
unfolding stamp_local collect_garbage
delete host now id w = do
  entry ← from_history (get host.cipher id w.db)
  if entry.row.deleted then err (history (not_found id)) else do
    (refs, db) ← from_history (tombstone id now w.db)
    db' ← stamp_local host id db
    (evicted, w') ← collect_garbage host.config now (record w { db = db' })
    ok w'

abbrev pub is_expired : ℕ → Option ℕ → Bool
is_expired now none = false
is_expired now (some at) = at == 0 || ltb at (now - undo_grace_secs)

unfoldable pub undo_delete : Host → ℕ → ℕ → World → Result Error (Entry × World)
unfolding stamp_local
undo_delete host now id w = do
  at ← from_history (deleted_at id w.db)
  if is_expired now at then err (history (not_found id)) else do
    db ← from_history (restore host.cipher id w.db)
    db' ← stamp_local host id db
    entry ← from_history (get host.cipher id db')
    ok (entry, record w { db = db' })
