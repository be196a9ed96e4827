-- ===== src/Daemon/Changes.antt =====
-- daemon.rs, `sync_changes`: a reply to a peer that follows the change feed.
use panora.Prelude.{
  ℕ, zero, suc, ◌+◌, ◌*◌, Bool, true, false, not, ◌&&◌, ◌||◌, Option, none, some, List, [], ◌∷◌,
  ◌++◌, map, Text, codes, pos, length, min, ◌==◌, nat_eq, list_eq, ltb, leb, if◌then◌else◌, Result,
  ok, err, ◌>>=◌,
}
use panora.Model.{MimePayload, ContentKind}
use panora.Model as Model
use panora.BlobStore as BlobStore
use panora.BlobStore.{Files}
use panora.History.Defs.{Row, BlobRow, not_found}
use panora.History.Entries.{blobs_of, get}
use panora.History.Feed.{changes_since}
use panora.Sync.{SyncRecord, SyncScope, includes, payload_hash}
use panora.Daemon.{Error, history, from_history, from_blobs, Host, World}
use panora.Daemon.Store.{thumbnail_mime}

abbrev pub sync_default_limit : ℕ
sync_default_limit = 100

abbrev pub sync_max_limit : ℕ
sync_max_limit = 1000

abbrev pub sync_reply_bytes : ℕ
sync_reply_bytes = 32 * 1024 * 1024

abbrev pub sync_max_entry_bytes : ℕ
sync_max_entry_bytes = 48 * 1024 * 1024

-- ipc/v3.rs.
abbrev pub max_fds_per_frame : ℕ
max_fds_per_frame = 16

abbrev pub wanted_mimes : List Text
wanted_mimes =
    codes "text/plain;charset=utf-8"
    ∷ codes "text/plain"
    ∷ codes "UTF8_STRING"
    ∷ codes "text/html"
    ∷ codes "text/rtf"
    ∷ codes "application/rtf"
    ∷ codes "text/uri-list"
    ∷ codes "x-special/gnome-copied-files"
    ∷ codes "application/vnd.kde.cutsel"
    ∷ codes "text/x-color"
    ∷ codes "application/x-color"
    ∷ codes "image/png"
    ∷ codes "image/jpeg"
    ∷ codes "image/webp"
    ∷ codes "image/bmp"
    ∷ codes "image/tiff"
    ∷ codes "image/gif"
    ∷ codes "image/svg+xml"
    ∷ codes "image/x-icon"
    ∷ codes "image/avif"
    ∷ codes "image/heic"
    ∷ codes "image/heif"
    ∷ []

-- `eq_ignore_ascii_case`.
abbrev pub lower : ℕ → ℕ
lower b = if leb 65 b && leb b 90 then b + 32 else b

unfoldable pub rank_in : List Text → Text → ℕ
rank_in [] mime = 0
rank_in (m ∷ ms) mime = if map lower m == map lower mime then 0 else suc (rank_in ms mime)

unfoldable pub mime_rank : Text → ℕ
unfolding rank_in
mime_rank mime = rank_in wanted_mimes mime

-- `sort_by_key`, which keeps the order of equal keys.
unfoldable pub insert_payload : MimePayload → List MimePayload → List MimePayload
insert_payload p [] = p ∷ []
insert_payload p (q ∷ qs) =
    if ltb (mime_rank q.mime) (mime_rank p.mime) then q ∷ insert_payload p qs else p ∷ q ∷ qs

unfoldable pub sort_payloads : List MimePayload → List MimePayload
unfolding insert_payload
sort_payloads [] = []
sort_payloads (p ∷ ps) = insert_payload p (sort_payloads ps)

-- The loop of `load_payloads`.
unfoldable pub read_blobs : Host → List BlobRow → Files → Result Error (List MimePayload)
read_blobs host [] files = ok []
read_blobs host (b ∷ bs) files = if b.mime == thumbnail_mime then read_blobs host bs files else (do
  content ← from_blobs (BlobStore.get host.aead b.blob_ref files)
  rest ← read_blobs host bs files
  ok (record { mime = b.mime; content = content } ∷ rest))

unfoldable pub load_payloads : Host → ℕ → World → Result Error (List MimePayload)
unfolding read_blobs sort_payloads
load_payloads host id w = do
  entry ← from_history (get host.cipher id w.db)
  if entry.row.deleted
      then err (history (not_found id))
      else do payloads ← read_blobs host (blobs_of id w.db) w.files; ok (sort_payloads payloads)

-- The variables of the loop: `cursor`, `records`, `payload_count` and `bytes`.
pub record Page : Type 0 where
  pub cursor : ℕ
  pub records : List SyncRecord
  pub payload_count : ℕ
  pub bytes : ℕ

abbrev pub move_on : ℕ → Page → Page
move_on seq page = record page { cursor = seq }

unfoldable pub record_of : Row → List MimePayload → SyncRecord
record_of row payloads = record {
  content_hash = row.content_hash;
  selection = row.selection;
  source_app = row.source_app;
  created_at = pos row.created_at;
  last_seen_at = pos row.last_seen_at;
  pinned = row.pinned;
  deleted = row.deleted;
  device_id = row.device_id;
  lamport = pos row.lamport;
  payloads = payloads;
}

-- An entry that cannot be sent at all.
unfoldable pub is_unfit : Host → Row → List MimePayload → Bool
is_unfit host row payloads =
    (not row.deleted && not (payload_hash host.blake3 payloads == row.content_hash))
    || ltb max_fds_per_frame (length payloads)
    || ltb sync_max_entry_bytes (Model.total_size payloads)

-- An entry that the page has no room for.
unfoldable pub is_full : Page → List MimePayload → Bool
is_full page payloads =
    not (length page.records == 0)
    && (ltb max_fds_per_frame (page.payload_count + length payloads)
        || ltb sync_reply_bytes (page.bytes + Model.total_size payloads))

unfoldable pub push : ℕ → Row → List MimePayload → Page → Page
unfolding record_of
push seq row payloads page = record {
  cursor = seq;
  records = page.records ++ record_of row payloads ∷ [];
  payload_count = page.payload_count + length payloads;
  bytes = page.bytes + Model.total_size payloads;
}

unfoldable pub payloads_of : Host → Row → World → Result Error (List MimePayload)
unfolding load_payloads
payloads_of host row w = if row.deleted then ok [] else load_payloads host row.id w

-- What one row does to the page: it is passed over or sent, or the loop ends before it (`none`).
unfoldable pub weigh : Host → ℕ → Row → List MimePayload → Page → Option Page
unfolding is_unfit is_full push
weigh host seq row payloads page =
    if is_unfit host row payloads
    then some (move_on seq page)
    else if is_full page payloads
    then none
    else some (push seq row payloads page)

unfoldable pub visit : Host → ℕ → SyncScope → World → ℕ → Row → Page → Result Error (Option Page)
unfolding payloads_of weigh
visit host limit scope w seq row page =
    if leb limit (length page.records)
    then ok none
    else if not (includes scope row.kind row.pinned row.deleted)
    then ok (some (move_on seq page))
    else (do payloads ← payloads_of host row w; ok (weigh host seq row payloads page))

-- The inner loop: the page, and whether it ended the outer loop.
unfoldable pub scan :
    Host → ℕ → SyncScope → World → List (ℕ × Row) → Page → Result Error (Bool × Page)
unfolding visit
scan host limit scope w [] page = ok (false, page)
scan host limit scope w ((seq, row) ∷ rows) page = do
  visited ← visit host limit scope w seq row page
  elim visited [ none ↦ ok (true, page) | some page' ↦ scan host limit scope w rows page' ]

-- The outer loop, on fuel; `none` when the fuel runs out.
unfoldable pub feed_loop : Host → ℕ → SyncScope → World → ℕ → Page → Result Error (Option Page)
unfolding scan
feed_loop host limit scope w zero page = ok none
feed_loop host limit scope w (suc fuel) page =
    let rows = changes_since page.cursor 64 w.db in
    if length rows == 0 then ok (some page) else (do
      (stopped, page') ← scan host limit scope w rows page
      elim stopped [ true ↦ ok (some page') | false ↦ feed_loop host limit scope w fuel page' ])

abbrev pub limit_of : ℕ → ℕ
limit_of limit = if limit == 0 then sync_default_limit else min limit sync_max_limit

-- The records, the cursor to go on from and whether more rows follow.
unfoldable pub sync_changes :
    Host → ℕ → ℕ → ℕ → SyncScope → World → Result Error (Option (List SyncRecord × ℕ × Bool))
unfolding feed_loop
sync_changes host fuel since limit scope w = do
  found ←
      feed_loop host (limit_of limit) scope w fuel
        (record { cursor = since; records = []; payload_count = 0; bytes = 0 })
  elim found [
    | none ↦ ok none
    | some page ↦
        ok (some (page.records, page.cursor, not (length (changes_since page.cursor 1 w.db) == 0)))
  ]
