-- ===== src/History/Keeps.antt =====
-- storage/db.rs: the operations of `Database` and the invariant of its tables.
use panora.Prelude.{
  ℕ, ◌+◌, ◌≡◌, refl, Bool, true, false, not, List, [], ◌∷◌, ◌++◌, Text, ◌==◌, nat_eq, keep,
  All-append, arith, Bool-cases, Option-cases, inl, inr, none, some, ok, subst,
}
use panora.History.Defs.{
  Row, BlobRow, FtsRow, Database, has_id, row_by_id, row_by_key, delete_row, fts_delete, fts_insert,
}
use panora.History.Rows.{
  KeepsKeys, delete_row-IsUnique, insert-IsUnique, has_id-append, has_id_above,
  has_id-delete_row_ne, row_by_id-insert, row_by_id-delete_row, row_by_key→has_key,
  row_by_key→row_by_id, row_by_id→has_id, no_id→none,
}
use panora.History.Sequence.{
  SeqBelow-mono, insert-SeqUnique, delete_row-SeqUnique, delete_row-SeqBelow,
}
use panora.History.Entries.{
  Cipher, Capture, new_row, next_id, insert_entry, revive_entry, revive_row, bump_entry, bump_row,
  place, upsert_entry, set_content, index_content, preview_aad,
}
use panora.History.Blobs.{put_blob, purge_row}
use panora.History.Validity.{
  IsOwned, IsValid, fts_count, live_count, fts_count-delete, fts_count-insert, update_plain-IsValid,
  revive-IsValid,
}

IsOwned-insert :
    (rows : List Row) (r : Row) (bs : List BlobRow) → IsOwned rows bs → IsOwned (rows ++ r ∷ []) bs
IsOwned-insert rows r [] o = tt
IsOwned-insert rows r (b ∷ bs) o =
    (ground (arith, has_id-append b.entry_id rows (r ∷ []), o.0), IsOwned-insert rows r bs o.1)

insert_entry-IsValid :
    (c : Capture) (sealed : Text) (db : Database)
    → row_by_key c.content_hash c.selection db.entries ≡ none
    → IsValid db
    → IsValid (insert_entry c sealed db)
unfolding insert_entry fts_insert new_row next_id live_count
insert_entry-IsValid c sealed db e v = record {
  sound = record {
    unique =
        insert-IsUnique _ db.entries fresh (row_by_key→has_key _ _ db.entries e) v.sound.unique;
    seq_below =
        All-append _ db.entries _
          (SeqBelow-mono db.change_seq (db.change_seq + 1) db.entries (omega arith)
            v.sound.seq_below)
          (omega arith);
    seq_unique =
        insert-SeqUnique _ db.change_seq db.entries refl v.sound.seq_below v.sound.seq_unique;
    owned = IsOwned-insert db.entries _ db.entry_blobs v.sound.owned;
  };
  indexed = record {
    at = λ j.
        rw (fts_count-insert, row_by_id-insert j db.entries row fresh)
          (ground (arith, v.indexed.at j, no_id→none j db.entries, fresh));
  };
}
  where
    row : Row
    row = new_row c sealed (next_id db.entries) (db.change_seq + 1)

    fresh : has_id (next_id db.entries) db.entries ≡ false
    fresh = has_id_above _ db.entries (omega arith)

pub revive_row-KeepsKeys : (c : Capture) (sealed : Text) → KeepsKeys (revive_row c sealed)
unfolding revive_row
revive_row-KeepsKeys c sealed = record {
  id = λ r. refl;
  content_hash = λ r. refl;
  selection = λ r. refl;
}

pub bump_row-KeepsKeys : (t : ℕ) → KeepsKeys (bump_row t)
unfolding bump_row
bump_row-KeepsKeys t = record { id = λ r. refl; content_hash = λ r. refl; selection = λ r. refl }

bump_entry-IsValid :
    (c : Capture) (i : ℕ) (db : Database) → IsValid db → IsValid (bump_entry c i db)
unfolding bump_entry bump_row
bump_entry-IsValid c i db v = elim (Bool-cases c.bump_on_duplicate) [
  | inl e ↦ rw e (update_plain-IsValid i _ (bump_row-KeepsKeys _) (λ r. refl) (λ r. refl) db v)
  | inr e ↦ rw e v
]

place-IsValid :
    (c : Capture) (sealed : Text) (db : Database)
    → IsValid db
    → IsValid (place c sealed (row_by_key c.content_hash c.selection db.entries) db).1
unfolding place
place-IsValid c sealed db v =
    elim (Option-cases (row_by_key c.content_hash c.selection db.entries)) [
      | inl e ↦ rw e (insert_entry-IsValid c sealed db e v)
      | inr (r, e) ↦ rw e (held r (row_by_key→row_by_id _ _ db.entries r v.sound.unique e).0)
    ]
  where
    held : (r : Row) → row_by_id r.id db.entries ≡ some r → IsValid (place c sealed (some r) db).1
    held r e = elim (Bool-cases r.deleted) [
      | inl d ↦ rw d (
          unfold revive_entry revive_row in
          revive-IsValid r.id _ (revive_row-KeepsKeys c sealed) (λ x. refl) c.preview db
            (row_by_id→has_id r.id db.entries r e).0 v)
      | inr d ↦ rw d (bump_entry-IsValid c r.id db v)
    ]

-- Recording a capture keeps the tables valid, whichever of its cases applies.
pub upsert_entry-IsValid :
    (cipher : Cipher) (c : Capture) (db db' : Database) (i : ℕ)
    → IsValid db
    → upsert_entry cipher c db ≡ ok (i, db')
    → IsValid db'
unfolding upsert_entry
upsert_entry-IsValid cipher c db db' i v e =
    elim (Option-cases (cipher.seal_text_with_aad (preview_aad c.content_hash) c.preview)) [
      | inl q ↦ absurd (ground arith)
      | inr (sealed, q) ↦
          subst IsValid
            (let p : (place c sealed (row_by_key c.content_hash c.selection db.entries) db).1
                  ≡ db' =
                ground arith in
              p)
            (place-IsValid c sealed db v)
    ]

-- Removing a row, its blob references and its index row together.
IsOwned-keep :
    (p : BlobRow → Bool) (rows : List Row) (bs : List BlobRow)
    → IsOwned rows bs
    → IsOwned rows (keep p bs)
IsOwned-keep p rows [] o = tt
IsOwned-keep p rows (b ∷ bs) o = ground (arith, IsOwned-keep p rows bs o.1)

IsOwned-delete :
    (i : ℕ) (rows : List Row) (bs : List BlobRow)
    → IsOwned rows bs
    → IsOwned (delete_row i rows) (keep (λ b. not (b.entry_id == i)) bs)
IsOwned-delete i rows [] o = tt
IsOwned-delete i rows (b ∷ bs) o =
    ground (arith, IsOwned-delete i rows bs o.1, has_id-delete_row_ne i b.entry_id rows)

pub purge_row-IsValid : (i : ℕ) (db : Database) → IsValid db → IsValid (purge_row i db)
unfolding purge_row fts_delete live_count
purge_row-IsValid i db v = record {
  sound = record {
    unique = delete_row-IsUnique i db.entries v.sound.unique;
    seq_below = delete_row-SeqBelow i db.change_seq db.entries v.sound.seq_below;
    seq_unique = delete_row-SeqUnique i db.entries v.sound.seq_unique;
    owned = IsOwned-delete i db.entries db.entry_blobs v.sound.owned;
  };
  indexed = record {
    at = λ j.
        rw (fts_count-delete i j db.entries_fts, row_by_id-delete_row i j db.entries)
          (ground (arith, v.indexed.at j));
  };
}

pub drop_blobs-IsValid :
    (p : BlobRow → Bool) (db : Database)
    → IsValid db
    → IsValid (record db { entry_blobs = keep p db.entry_blobs })
drop_blobs-IsValid p db v = record {
  sound = record {
    unique = v.sound.unique;
    seq_below = v.sound.seq_below;
    seq_unique = v.sound.seq_unique;
    owned = IsOwned-keep p db.entries db.entry_blobs v.sound.owned;
  };
  indexed = record { at = v.indexed.at };
}

pub put_blob-IsValid :
    (i : ℕ) (mime blob_ref : Text) (db : Database)
    → has_id i db.entries ≡ true
    → IsValid db
    → IsValid (put_blob i mime blob_ref db)
unfolding put_blob
put_blob-IsValid i mime blob_ref db h v = record {
  sound = record {
    unique = v.sound.unique;
    seq_below = v.sound.seq_below;
    seq_unique = v.sound.seq_unique;
    owned =
        All-append _ (keep _ db.entry_blobs) _
          (IsOwned-keep _ db.entries db.entry_blobs v.sound.owned) (h, tt);
  };
  indexed = record { at = v.indexed.at };
}

fts_count-set_content :
    (i j : ℕ) (text : Text) (fts : List FtsRow)
    → fts_count j (set_content i text fts) ≡ fts_count j fts
unfolding fts_count
fts_count-set_content i j text [] = refl
fts_count-set_content i j text (f ∷ fs) = ground (arith, fts_count-set_content i j text fs)

pub index_content-IsValid :
    (i : ℕ) (text : Text) (db : Database) → IsValid db → IsValid (index_content i text db)
unfolding index_content
index_content-IsValid i text db v = record {
  sound = record {
    unique = v.sound.unique;
    seq_below = v.sound.seq_below;
    seq_unique = v.sound.seq_unique;
    owned = v.sound.owned;
  };
  indexed = record {
    at = λ j. rw (fts_count-set_content i j text db.entries_fts) (v.indexed.at j);
  };
}
