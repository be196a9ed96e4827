-- ===== src/History/Entries.antt =====
-- The operations of `Database` on single entries: storage/db.rs from `upsert_entry` to
-- `apply_remote_state`. A SQL error is not modelled; a statement that changes no row is.
use mathlib.Core.Option
use panora.Prelude.{
  ℕ, ◌+◌, Bool, true, false, not, Option, none, some, List, [], ◌∷◌, ◌++◌, map, Text, codes, ◌==◌,
  nat_eq, list_eq, keep, max, min, if◌then◌else◌, Result, ok, err, ◌>>=◌, ok_or,
}
use panora.Model.{Selection, ContentKind}
use panora.History.Defs.{
  Row, BlobRow, FtsRow, Database, Error, not_found, crypto, row_by_id, row_by_key, has_id,
  max_where, update_plain, update_tracked, fts_delete, fts_insert,
}

-- The AEAD of storage/crypto.rs as the database uses it: the first argument binds the text to its
-- row. Sealing picks a random nonce, so the model takes the sealing of one call as a function.
pub record Cipher : Type 0 where
  pub fingerprint : Text
  pub seal_text_with_aad : Text → Text → Option Text
  pub open_text_with_aad : Text → Text → Option Text
  pub open_text : Text → Option Text

unfoldable pub preview_aad : Text → Text
preview_aad content_hash = codes "panora/entry-preview/v1/" ++ content_hash

-- The arguments of `upsert_entry`.
pub record Capture : Type 0 where
  pub content_hash : Text
  pub preview : Text
  pub kind : ContentKind
  pub primary_mime : Text
  pub size_bytes : ℕ
  pub source_app : Option Text
  pub selection : Selection
  pub now : ℕ
  pub device_id : Text
  pub lamport : ℕ
  pub bump_on_duplicate : Bool

-- `MAX(?1, (SELECT COALESCE(MAX(last_seen_at), 0) FROM entries WHERE id != ?2) + 1)`.
unfoldable pub bumped_time : ℕ → ℕ → List Row → ℕ
bumped_time now i rows = max now (max_where (λ r. not (r.id == i)) (λ r. r.last_seen_at) rows + 1)

unfoldable pub bump_row : ℕ → Row → Row
bump_row t r = record r { last_seen_at = t }

unfoldable pub revive_row : Capture → Text → Row → Row
revive_row c sealed r = record r {
  preview = sealed;
  kind = c.kind;
  primary_mime = c.primary_mime;
  size_bytes = c.size_bytes;
  source_app = c.source_app;
  created_at = c.now;
  last_seen_at = c.now;
  pinned = false;
  device_id = c.device_id;
  lamport = c.lamport;
  deleted = false;
  sensitive = false;
}

-- The id that SQLite gives a new row of a table with `INTEGER PRIMARY KEY`.
unfoldable pub next_id : List Row → ℕ
next_id rows = max_where (λ _. true) (λ r. r.id) rows + 1

unfoldable pub new_row : Capture → Text → ℕ → ℕ → Row
new_row c sealed i seq = record {
  id = i;
  content_hash = c.content_hash;
  preview = sealed;
  kind = c.kind;
  primary_mime = c.primary_mime;
  size_bytes = c.size_bytes;
  source_app = c.source_app;
  selection = c.selection;
  created_at = c.now;
  last_seen_at = c.now;
  pinned = false;
  sensitive = false;
  device_id = c.device_id;
  lamport = c.lamport;
  deleted = false;
  deleted_at = 0;
  change_seq = seq;
}

unfoldable pub insert_entry : Capture → Text → Database → Database
insert_entry c sealed db = fts_insert (next_id db.entries) c.preview (record db {
  entries = db.entries ++ new_row c sealed (next_id db.entries) (db.change_seq + 1) ∷ [];
  change_seq = db.change_seq + 1;
})

unfoldable pub revive_entry : Capture → Text → ℕ → Database → Database
revive_entry c sealed i db =
    fts_insert i c.preview (fts_delete i (update_tracked i (revive_row c sealed) db))

unfoldable pub bump_entry : Capture → ℕ → Database → Database
bump_entry c i db =
    if c.bump_on_duplicate
    then update_plain i (bump_row (bumped_time c.now i db.entries)) db
    else db

-- The three cases: a live duplicate, a tombstoned row that comes back, and a new row.
unfoldable pub place : Capture → Text → Option Row → Database → ℕ × Database
place c sealed none db = (next_id db.entries, insert_entry c sealed db)
place c sealed (some r) db =
    if r.deleted then (r.id, revive_entry c sealed r.id db) else (r.id, bump_entry c r.id db)

unfoldable pub upsert_entry : Cipher → Capture → Database → Result Error (ℕ × Database)
unfolding place
upsert_entry cipher c db = do
  sealed ← ok_or (cipher.seal_text_with_aad (preview_aad c.content_hash) c.preview) crypto
  ok (place c sealed (row_by_key c.content_hash c.selection db.entries) db)

-- `if changed == 0 { return Err(Error::NotFound(id)) }` behind an update.
unfoldable pub changed : ℕ → Database → (Database → Database) → Result Error Database
changed i db f = if has_id i db.entries then ok (f db) else err (not_found i)

unfoldable pub pin_row : Bool → Row → Row
pin_row pinned r = record r { pinned = pinned }

unfoldable pub set_pinned : ℕ → Bool → Database → Result Error Database
unfolding changed pin_row
set_pinned i pinned db = changed i db (update_tracked i (pin_row pinned))

unfoldable pub stamp_row : ℕ → Text → Row → Row
stamp_row lamport device_id r = record r { lamport = lamport; device_id = device_id }

unfoldable pub stamp : ℕ → ℕ → Text → Database → Result Error Database
unfolding changed stamp_row
stamp i lamport device_id db = changed i db (update_tracked i (stamp_row lamport device_id))

unfoldable pub time_row : ℕ → ℕ → Row → Row
time_row created_at last_seen_at r = record r {
  created_at = created_at;
  last_seen_at = last_seen_at;
}

unfoldable pub set_times : ℕ → ℕ → ℕ → Database → Result Error Database
unfolding changed time_row
set_times i created_at last_seen_at db =
    changed i db (update_plain i (time_row created_at last_seen_at))

-- The state that another device sends: its pin flag, the earlier creation and the later sighting.
pub record Remote : Type 0 where
  pub pinned : Bool
  pub created_at : ℕ
  pub last_seen_at : ℕ
  pub lamport : ℕ
  pub device_id : Text

unfoldable pub remote_row : Remote → Row → Row
remote_row s r = record r {
  pinned = s.pinned;
  created_at = min r.created_at s.created_at;
  last_seen_at = max r.last_seen_at s.last_seen_at;
  lamport = s.lamport;
  device_id = s.device_id;
}

unfoldable pub apply_remote_state : ℕ → Remote → Database → Result Error Database
unfolding changed remote_row
apply_remote_state i s db = changed i db (update_tracked i (remote_row s))

-- Only a live row is touched; the count of changed rows is 0 for a tombstone too.
unfoldable pub touch : ℕ → ℕ → Database → Result Error Database
touch i now db = elim (row_by_id i db.entries) [
  | none ↦ err (not_found i)
  | some r ↦
      if r.deleted
      then err (not_found i)
      else ok (update_plain i (bump_row (bumped_time now i db.entries)) db)
]

unfoldable pub flag_row : Row → Row
flag_row r = record r { sensitive = true }

unfoldable pub mark_sensitive : ℕ → Database → Database
unfolding flag_row
mark_sensitive i db = update_plain i flag_row db

unfoldable pub blobs_of : ℕ → Database → List BlobRow
blobs_of i db = keep (λ b. b.entry_id == i) db.entry_blobs

unfoldable pub bury_row : ℕ → Row → Row
bury_row now r = record r { deleted = true; deleted_at = now }

unfoldable pub bury : ℕ → ℕ → Database → Database
unfolding bury_row
bury i now db = fts_delete i (update_tracked i (bury_row now) db)

unfoldable pub tombstone : ℕ → ℕ → Database → Result Error (List Text × Database)
unfolding bury changed
tombstone i now db = do
  db' ← changed i db (bury i now)
  ok (map (λ b. b.blob_ref) (blobs_of i db), db')

-- `Entry`: a row as clients see it, its preview opened.
pub record Entry : Type 0 where
  pub row : Row
  pub preview : Text

abbrev pub or_else : Option Text → Option Text → Option Text
or_else (some t) u = some t
or_else none u = u

abbrev or_text : Option Text → Text → Text
or_text (some t) d = t
or_text none d = d

unfoldable pub row_to_entry : Cipher → Row → Entry
row_to_entry cipher r = record {
  row = r;
  preview =
      or_text
        (or_else (cipher.open_text_with_aad (preview_aad r.content_hash) r.preview)
          (cipher.open_text r.preview))
        (codes "[decryption failed]");
}

unfoldable pub get : Cipher → ℕ → Database → Result Error Entry
get cipher i db = do r ← ok_or (row_by_id i db.entries) (not_found i); ok (row_to_entry cipher r)

unfoldable pub find_entry : Cipher → Text → Selection → Database → Option Entry
find_entry cipher hash selection db =
    Option.map (row_to_entry cipher) (row_by_key hash selection db.entries)

unfoldable pub unbury_row : Row → Row
unbury_row r = record r { deleted = false; deleted_at = 0 }

unfoldable pub unbury : ℕ → Text → Database → Database
unfolding unbury_row
unbury i preview db = fts_insert i preview (fts_delete i (update_tracked i unbury_row db))

unfoldable pub restore : Cipher → ℕ → Database → Result Error Database
unfolding unbury get row_to_entry
restore cipher i db = do
  entry ← get cipher i db
  ok (if entry.row.deleted then unbury i entry.preview db else db)

abbrev pub set_content : ℕ → Text → List FtsRow → List FtsRow
set_content i text [] = []
set_content i text (f ∷ fs) =
    (if f.rowid == i then record f { content = some text } else f) ∷ set_content i text fs

-- `UPDATE entries_fts SET content = ?2 WHERE rowid = ?1`.
unfoldable pub index_content : ℕ → Text → Database → Database
index_content i text db = record db { entries_fts = set_content i text db.entries_fts }

unfoldable pub deleted_at : ℕ → Database → Result Error (Option ℕ)
deleted_at i db = do
  r ← ok_or (row_by_id i db.entries) (not_found i)
  ok (if r.deleted then some r.deleted_at else none)
