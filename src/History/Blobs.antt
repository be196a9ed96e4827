-- ===== src/History/Blobs.antt =====
-- storage/db.rs: references from entries to payload blobs, and the removal of tombstoned rows.
use panora.Prelude.{
  ℕ, Bool, true, false, not, ◌&&◌, Option, none, some, List, [], ◌∷◌, ◌++◌, map, Text, ◌==◌, nat_eq,
  list_eq, keep, length, ltb, text_lt, if◌then◌else◌, Result, ok, err,
}
use panora.History.Defs.{
  Row, BlobRow, Database, Error, database, has_id, row_by_id, delete_row, fts_delete,
}
use panora.History.Entries.{blobs_of}

abbrev pub refs_of : List BlobRow → List Text
refs_of bs = map (λ b. b.blob_ref) bs

abbrev pub same_slot : ℕ → Text → BlobRow → Bool
same_slot i mime b = b.entry_id == i && b.mime == mime

-- `INSERT OR REPLACE INTO entry_blobs`.
unfoldable pub put_blob : ℕ → Text → Text → Database → Database
put_blob i mime blob_ref db = record db {
  entry_blobs =
      keep (λ b. not (same_slot i mime b)) db.entry_blobs
      ++ record { entry_id = i; mime = mime; blob_ref = blob_ref } ∷ [];
}

-- `PRAGMA foreign_keys = ON`: a reference from no entry is refused.
unfoldable pub attach_blob : ℕ → Text → Text → Database → Result Error Database
unfolding put_blob
attach_blob i mime blob_ref db =
    if has_id i db.entries then ok (put_blob i mime blob_ref db) else err database

unfoldable pub detach_blob : ℕ → Text → Database → Database
detach_blob i mime db = record db {
  entry_blobs = keep (λ b. not (same_slot i mime b)) db.entry_blobs;
}

-- `SELECT COUNT(*) FROM entry_blobs WHERE blob_ref = ?`.
unfoldable pub blob_ref_count : Text → Database → ℕ
blob_ref_count blob_ref db = length (keep (λ b. b.blob_ref == blob_ref) db.entry_blobs)

-- `Vec::dedup`: of equal neighbours the first stays.
unfoldable pub dedup : List Text → List Text
dedup [] = []
dedup (x ∷ []) = x ∷ []
dedup (x ∷ y ∷ r) = let rest = dedup (y ∷ r) in if x == y then rest else x ∷ rest

unfoldable pub insert_text : Text → List Text → List Text
insert_text x [] = x ∷ []
insert_text x (y ∷ ys) = if text_lt y x then y ∷ insert_text x ys else x ∷ y ∷ ys

unfoldable pub sort_texts : List Text → List Text
unfolding insert_text
sort_texts [] = []
sort_texts (x ∷ xs) = insert_text x (sort_texts xs)

-- A hash set of the references: each once.
unfoldable pub referenced_blobs : Database → List Text
unfolding sort_texts dedup
referenced_blobs db = dedup (sort_texts (refs_of db.entry_blobs))

-- The references of a list that no row holds any more.
unfoldable pub orphaned : List Text → Database → List Text
unfolding blob_ref_count
orphaned candidates db = keep (λ b. blob_ref_count b db == 0) candidates

unfoldable pub is_stale : ℕ → Row → Bool
is_stale before r = r.deleted && ltb 0 r.deleted_at && ltb r.deleted_at before

abbrev pub row_test : (Row → Bool) → Option Row → Bool
row_test p none = false
row_test p (some r) = p r

-- Blob rows of entries that pass the test; the join of the two tables.
unfoldable pub blobs_where : (Row → Bool) → Database → List BlobRow
blobs_where p db = keep (λ b. row_test p (row_by_id b.entry_id db.entries)) db.entry_blobs

unfoldable pub drop_blobs_where : (Row → Bool) → Database → Database
drop_blobs_where p db = record db {
  entry_blobs = keep (λ b. not (row_test p (row_by_id b.entry_id db.entries))) db.entry_blobs;
}

-- Payloads of deletions past the undo window go, and their rows stay.
unfoldable pub strip_tombstones : ℕ → Database → List Text × Database
unfolding blobs_where drop_blobs_where is_stale sort_texts dedup orphaned
strip_tombstones before db =
    let refs = dedup (sort_texts (refs_of (blobs_where (is_stale before) db))) in
    let db' = drop_blobs_where (is_stale before) db in (orphaned refs db', db')

unfoldable pub is_tombstoned : ℕ → Database → Bool
is_tombstoned i db = row_test (λ r. r.deleted) (row_by_id i db.entries)

unfoldable pub purge_row : ℕ → Database → Database
purge_row i db = fts_delete i (record db {
  entry_blobs = keep (λ b. not (b.entry_id == i)) db.entry_blobs;
  entries = delete_row i db.entries;
})

-- The loop of `purge`: live and missing ids are skipped.
unfoldable pub purge_loop : List ℕ → List Text → Database → List Text × Database
unfolding is_tombstoned purge_row
purge_loop [] candidates db = (candidates, db)
purge_loop (i ∷ ids) candidates db = elim (is_tombstoned i db) [
  | true ↦ purge_loop ids (candidates ++ refs_of (blobs_of i db)) (purge_row i db)
  | false ↦ purge_loop ids candidates db
]

unfoldable pub purge : List ℕ → Database → List Text × Database
unfolding purge_loop sort_texts dedup orphaned
purge ids db =
    let (candidates, db') = purge_loop ids [] db in
    (orphaned (dedup (sort_texts candidates)) db', db')

unfoldable pub purge_tombstones : ℕ → Database → List Text × Database
unfolding purge
purge_tombstones before db =
    purge (map (λ r. r.id) (keep (λ r. r.deleted && ltb r.deleted_at before) db.entries)) db
