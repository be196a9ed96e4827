-- ===== src/History/Defs.antt =====
-- crates/panora-core/src/storage/db.rs: the SQLite tables of the history, as lists of rows, and the
-- SQL statements on them. The children hold the operations of `Database` and their laws.
use panora.Prelude.{
  ℕ, ◌+◌, Bool, not, ◌&&◌, Option, none, some, List, [], ◌∷◌, ◌++◌, Text, ◌==◌, nat_eq, list_eq,
  keep, any, max, if◌then◌else◌,
}
use panora.Model.{Selection, ContentKind, selection_eq}

-- A row of `entries`. Times, ids and counters are numbers below 2 ^ 63 and are not negative.
pub record Row : Type 0 where
  pub id : ℕ
  pub content_hash : Text
  pub preview : Text
  pub kind : ContentKind
  pub primary_mime : Text
  pub size_bytes : ℕ
  pub source_app : Option Text
  pub selection : Selection
  pub created_at : ℕ
  pub last_seen_at : ℕ
  pub pinned : Bool
  pub sensitive : Bool
  pub device_id : Text
  pub lamport : ℕ
  pub deleted : Bool
  pub deleted_at : ℕ
  pub change_seq : ℕ

-- A row of `entry_blobs`.
pub record BlobRow : Type 0 where
  pub entry_id : ℕ
  pub mime : Text
  pub blob_ref : Text

-- A row of the full-text table; `content` is NULL until `index_content` sets it.
pub record FtsRow : Type 0 where
  pub rowid : ℕ
  pub preview : Text
  pub content : Option Text

-- The tables, and the keys of `meta` that the operations read and write. An absent `change_seq` is
-- 0: the triggers set it to 1 then.
pub record Database : Type 0 where
  pub entries : List Row
  pub entry_blobs : List BlobRow
  pub entries_fts : List FtsRow
  pub change_seq : ℕ
  pub lamport_clock : Option ℕ
  pub key_fingerprint : Option Text
  pub rotation_state : Option Text
  pub lock_verifier : Option Text
  pub lock_kek_salt : Option Text

pub data Error : Type 0 where
  not_found : ℕ → Error
  crypto database : Error

-- `SELECT … FROM entries WHERE id = ?`.
unfoldable pub row_by_id : ℕ → List Row → Option Row
row_by_id i [] = none
row_by_id i (r ∷ rs) = if r.id == i then some r else row_by_id i rs

abbrev pub same_key : Text → Selection → Row → Bool
same_key hash selection r = r.content_hash == hash && r.selection == selection

-- `SELECT … FROM entries WHERE content_hash = ? AND selection = ?`.
unfoldable pub row_by_key : Text → Selection → List Row → Option Row
row_by_key hash selection [] = none
row_by_key hash selection (r ∷ rs) =
    if same_key hash selection r then some r else row_by_key hash selection rs

-- `UPDATE entries SET … WHERE id = ?`.
unfoldable pub update_rows : ℕ → (Row → Row) → List Row → List Row
update_rows i f [] = []
update_rows i f (r ∷ rs) = (if r.id == i then f r else r) ∷ update_rows i f rs

-- `DELETE FROM entries WHERE id = ?`.
unfoldable pub delete_row : ℕ → List Row → List Row
delete_row i rows = keep (λ r. not (r.id == i)) rows

-- `COALESCE(MAX(column), 0)` over the rows that pass the test.
unfoldable pub max_where : (Row → Bool) → (Row → ℕ) → List Row → ℕ
max_where p f [] = 0
max_where p f (r ∷ rs) = if p r then max (f r) (max_where p f rs) else max_where p f rs

-- The trigger after an update of `lamport`, `device_id`, `deleted` or `pinned`, and after an insert.
unfoldable pub stamp_seq : ℕ → Row → Row
stamp_seq n r = record r { change_seq = n }

-- Whether a row has the id: an update counts one changed row then, and none otherwise.
unfoldable pub has_id : ℕ → List Row → Bool
has_id i rows = any (λ r. r.id == i) rows

-- An update that no trigger follows.
unfoldable pub update_plain : ℕ → (Row → Row) → Database → Database
unfolding update_rows
update_plain i f db = record db { entries = update_rows i f db.entries }

-- An update of a tracked column: the counter grows by one and the row takes its value.
unfoldable pub update_tracked : ℕ → (Row → Row) → Database → Database
unfolding update_rows has_id stamp_seq
update_tracked i f db =
    if has_id i db.entries
    then record db {
      entries = update_rows i (λ r. stamp_seq (db.change_seq + 1) (f r)) db.entries;
      change_seq = db.change_seq + 1;
    }
    else db

-- `DELETE FROM entries_fts WHERE rowid = ?`.
unfoldable pub fts_delete : ℕ → Database → Database
fts_delete i db = record db { entries_fts = keep (λ f. not (f.rowid == i)) db.entries_fts }

-- `INSERT INTO entries_fts(rowid, preview) VALUES (?1, ?2)`.
unfoldable pub fts_insert : ℕ → Text → Database → Database
fts_insert i preview db = record db {
  entries_fts = db.entries_fts ++ record { rowid = i; preview = preview; content = none } ∷ [];
}
