-- ===== src/Daemon/Store.antt =====
-- daemon.rs, `store`: a capture becomes an entry with its payload files.
use panora.Prelude.{
  ℕ, Bool, true, false, not, ◌&&◌, Option, none, some, List, [], ◌∷◌, ◌++◌, Text, Bytes, codes,
  find, ◌==◌, nat_eq, list_eq, if◌then◌else◌, Result, ok, ◌>>=◌,
}
use panora.Model.{
  ClipboardData, MimePayload, ContentKind, text, rich_text, image, kind_eq, total_size,
}
use panora.Crypto.{starts_with}
use panora.BlobStore.{put}
use panora.History.Defs.{Database}
use panora.History.Entries.{Entry, upsert_entry, stamp, mark_sensitive, index_content, get}
use panora.History.Blobs.{attach_blob}
use panora.History.Feed.{tick_lamport}
use panora.Sync.{payload_hash}
use panora.Daemon.{Error, from_history, from_blobs, Host, World, collect_garbage}

-- Eight bullets in UTF-8.
abbrev pub sensitive_mask : Text
sensitive_mask =
    226 ∷ 128 ∷ 162 ∷ 226 ∷ 128 ∷ 162 ∷ 226 ∷ 128 ∷ 162 ∷ 226 ∷ 128 ∷ 162 ∷ 226 ∷ 128 ∷ 162 ∷ 226
    ∷ 128 ∷ 162 ∷ 226 ∷ 128 ∷ 162 ∷ 226 ∷ 128 ∷ 162 ∷ []

abbrev pub thumbnail_mime : Text
thumbnail_mime = codes "application/x-panora-thumbnail"

-- Only plain and rich text is looked at.
unfoldable pub sensitive_of : Host → ContentKind → Text → Option Text
sensitive_of host text content = host.detect content
sensitive_of host rich_text content = host.detect content
sensitive_of host kind content = none

abbrev pub is_some {ℓ} : {A : Type ℓ} → Option A → Bool
is_some none = false
is_some (some a) = true

abbrev pub is_masked : Host → Option Text → Bool
is_masked host found = is_some found && host.config.sensitive_policy == codes "mask"

abbrev pub masked_preview : Text → Option Text → Text
masked_preview preview none = preview
masked_preview preview (some label) = sensitive_mask ++ codes " " ++ label

abbrev pub primary_mime : List MimePayload → Text
primary_mime [] = codes "application/octet-stream"
primary_mime (p ∷ ps) = p.mime

-- A payload's file, and the reference to it.
unfoldable pub attach_payload : Host → ℕ → Text → Bytes → World → Result Error World
attach_payload host id mime content w = do
  (blob_ref, files) ← from_blobs (put host.aead host.blake3 (host.nonce content) content w.files)
  db ← from_history (attach_blob id mime blob_ref w.db)
  ok (record { db = db; files = files })

unfoldable pub attach_payloads : Host → ℕ → List MimePayload → World → Result Error World
unfolding attach_payload
attach_payloads host id [] w = ok w
attach_payloads host id (p ∷ ps) w = do
  w' ← attach_payload host id p.mime p.content w
  attach_payloads host id ps w'

abbrev pub attach_image : Host → ℕ → Option MimePayload → World → Result Error World
attach_image host id none w = ok w
attach_image host id (some p) w = elim (host.render_thumbnail p.content) [
  | none ↦ ok w
  | some png ↦ attach_payload host id thumbnail_mime png w
]

unfoldable pub attach_thumbnail :
    Host → ℕ → ContentKind → List MimePayload → World → Result Error World
attach_thumbnail host id kind payloads w =
    if kind == image
    then attach_image host id (find (λ p. starts_with p.mime (codes "image/")) payloads) w
    else ok w

abbrev pub index_when : Bool → ℕ → Option Text → Database → Database
index_when true id (some content) db = index_content id content db
index_when _ id _ db = db

-- The row of a capture: entered, stamped, flagged and indexed.
unfoldable pub store_row : Host → ℕ → ClipboardData → Database → Result Error (ℕ × Database)
unfolding sensitive_of
store_row host now captured db = do
  let kind = host.classify captured
  let content = host.text_of captured
  let found = sensitive_of host kind content
  let masked = is_masked host found
  let preview =
      if masked
      then masked_preview (host.make_preview captured) found
      else host.make_preview captured
  let (lamport, db1) = tick_lamport db
  (id, db2) ← from_history (
      upsert_entry host.cipher
        (record {
          content_hash = payload_hash host.blake3 captured.payloads;
          preview = preview;
          kind = kind;
          primary_mime = primary_mime captured.payloads;
          size_bytes = total_size captured.payloads;
          source_app = captured.source_app;
          selection = captured.selection;
          now = now;
          device_id = host.device_id;
          lamport = lamport;
          bump_on_duplicate = not (host.config.duplicate_policy == codes "ignore");
        })
        db1)
  db3 ← from_history (stamp id lamport host.device_id db2)
  let db4 = if is_some found then mark_sensitive id db3 else db3
  ok (
    id,
    index_when (host.config.index_full_text && not masked) id (host.index_text content kind) db4,
  )

unfoldable pub store : Host → ℕ → ClipboardData → World → Result Error (Entry × World)
unfolding store_row attach_payloads attach_thumbnail
store host now captured w = do
  (id, db) ← store_row host now captured w.db
  w1 ← attach_payloads host id captured.payloads (record w { db = db })
  w2 ← attach_thumbnail host id (host.classify captured) captured.payloads w1
  (evicted, w3) ← collect_garbage host.config now w2
  entry ← from_history (get host.cipher id w3.db)
  ok (entry, w3)
