-- ===== src/History/Validity.antt =====
-- The invariant of the history tables, and that each kind of statement keeps it.
use mathlib.Core.Option
use panora.Prelude.{
  ℕ, suc, ◌+◌, ◌≡◌, true, false, not, List, [], ◌∷◌, ◌++◌, Text, ◌==◌, nat_eq, keep, length, All,
  arith, if◌then◌else◌, Bool-cases, inl, inr, ==→eq, Option-cases,
}
use panora.Model.{Selection}
use panora.History.Defs.{
  Row, BlobRow, FtsRow, Database, has_id, row_by_id, row_by_key, update_rows, stamp_seq,
  update_plain, update_tracked, fts_delete, fts_insert,
}
use panora.History.Rows.{
  KeepsKeys, IsUnique, update_rows-IsUnique, has_id-update_rows, row_by_id-update_rows, no_id→none,
  none→no_id, row_by_key-update_rows,
}
use panora.History.Sequence.{
  SeqBelow, SeqUnique, update_plain-SeqUnique, update_plain-SeqBelow, update_tracked-SeqBelow,
  update_tracked-SeqUnique,
}
use panora.History.Blobs.{row_test}
use panora.History.Retention.{is_live}

-- `REFERENCES entries(id)`: every blob reference belongs to an entry.
abbrev pub IsOwned : List Row → List BlobRow → Type 0
IsOwned rows = All (λ b. has_id b.entry_id rows ≡ true)

-- The tables without the search index.
pub record IsSound (db : Database) : Type 0 where
  pub unique : IsUnique db.entries
  pub seq_below : SeqBelow db.change_seq db.entries
  pub seq_unique : SeqUnique db.entries
  pub owned : IsOwned db.entries db.entry_blobs

unfoldable pub fts_count : ℕ → List FtsRow → ℕ
fts_count i fts = length (keep (λ f. f.rowid == i) fts)

unfoldable pub live_count : ℕ → List Row → ℕ
live_count i rows = if row_test is_live (row_by_id i rows) then 1 else 0

-- The search index has one row for every live entry, and none for a tombstone or a missing id.
pub record IsIndexed (db : Database) : Type 0 where
  pub at : (i : ℕ) → fts_count i db.entries_fts ≡ live_count i db.entries

pub record IsValid (db : Database) : Type 0 where
  pub sound : IsSound db
  pub indexed : IsIndexed db

pub fts_count-delete :
    (i j : ℕ) (fts : List FtsRow)
    → fts_count j (keep (λ f. not (f.rowid == i)) fts) ≡ (if i == j then 0 else fts_count j fts)
unfolding fts_count
fts_count-delete i j [] = ground arith
fts_count-delete i j (f ∷ fs) = ground (arith, fts_count-delete i j fs)

pub fts_count-insert :
    (j : ℕ) (fts : List FtsRow) (f : FtsRow)
    → fts_count j (fts ++ f ∷ [])
      ≡ (if f.rowid == j then suc (fts_count j fts) else fts_count j fts)
unfolding fts_count
fts_count-insert j [] f = ground arith
fts_count-insert j (x ∷ xs) f = ground (arith, fts_count-insert j xs f)

pub IsOwned-update_rows :
    (i : ℕ) (f : Row → Row)
    → KeepsKeys f
    → (rows : List Row) (bs : List BlobRow) → IsOwned rows bs
    → IsOwned (update_rows i f rows) bs
IsOwned-update_rows i f k rows [] o = tt
IsOwned-update_rows i f k rows (b ∷ bs) o =
    (rw (has_id-update_rows i f k b.entry_id rows) o.0, IsOwned-update_rows i f k rows bs o.1)

module _ (i : ℕ) (f : Row → Row) (k : KeepsKeys f) where
  pub update_plain-IsSound :
      ((r : Row) → (f r).change_seq ≡ r.change_seq)
      → (db : Database) → IsSound db
      → IsSound (update_plain i f db)
  unfolding update_plain
  update_plain-IsSound same db v = record {
    unique = update_rows-IsUnique i f k db.entries v.unique;
    seq_below = update_plain-SeqBelow i f same db.change_seq db.entries v.seq_below;
    seq_unique = update_plain-SeqUnique i f same db.entries v.seq_unique;
    owned = IsOwned-update_rows i f k db.entries db.entry_blobs v.owned;
  }

  tracked-KeepsKeys : (n : ℕ) → KeepsKeys (λ r. stamp_seq n (f r))
  unfolding stamp_seq
  tracked-KeepsKeys n = record { id = k.id; content_hash = k.content_hash; selection = k.selection }

  pub update_tracked-IsSound : (db : Database) → IsSound db → IsSound (update_tracked i f db)
  unfolding update_tracked
  update_tracked-IsSound db v = elim (Bool-cases (has_id i db.entries)) [
    | inl e ↦ rw e (record {
      unique = update_rows-IsUnique i _ (tracked-KeepsKeys _) db.entries v.unique;
      seq_below = update_tracked-SeqBelow i db.change_seq f db.entries v.seq_below;
      seq_unique =
          update_tracked-SeqUnique i db.change_seq f db.entries v.unique v.seq_below v.seq_unique;
      owned = IsOwned-update_rows i _ (tracked-KeepsKeys _) db.entries db.entry_blobs v.owned;
    })
    | inr e ↦ rw e v
  ]

  -- What a lookup finds after a tracked update.
  pub row_by_id-update_tracked :
      (j : ℕ) (db : Database)
      → row_by_id j (update_tracked i f db).entries ≡ (
          if i == j
          then Option.map (λ r. stamp_seq (db.change_seq + 1) (f r)) (row_by_id j db.entries)
          else row_by_id j db.entries)
  unfolding update_tracked
  row_by_id-update_tracked j db = ground (
    arith,
    row_by_id-update_rows i _ (tracked-KeepsKeys (db.change_seq + 1)) j db.entries,
    no_id→none i db.entries,
    ==→eq i j,
  )

pub fts-update_tracked :
    (i : ℕ) (f : Row → Row) (db : Database) → (update_tracked i f db).entries_fts ≡ db.entries_fts
unfolding update_tracked
fts-update_tracked i f db = ground arith

-- An update that neither buries a row nor brings one back.
module _ (i : ℕ) (f : Row → Row) (k : KeepsKeys f)
    (alive : (r : Row) → (f r).deleted ≡ r.deleted) where
  live_count-update_rows :
      (j : ℕ) (rows : List Row) → live_count j (update_rows i f rows) ≡ live_count j rows
  unfolding live_count
  live_count-update_rows j rows = elim (Option-cases (row_by_id j rows)) [
    | inl e ↦ ground (arith, row_by_id-update_rows i f k j rows)
    | inr (r, e) ↦ ground (arith, row_by_id-update_rows i f k j rows, alive r)
  ]

  pub update_plain-IsValid :
      ((r : Row) → (f r).change_seq ≡ r.change_seq)
      → (db : Database) → IsValid db
      → IsValid (update_plain i f db)
  unfolding update_plain
  update_plain-IsValid same db v = record {
    sound = update_plain-IsSound i f k same db v.sound;
    indexed = record { at = λ j. rw (live_count-update_rows j db.entries) (v.indexed.at j) };
  }

  live_count-update_tracked :
      (j : ℕ) (db : Database)
      → live_count j (update_tracked i f db).entries ≡ live_count j db.entries
  unfolding live_count stamp_seq
  live_count-update_tracked j db = elim (Option-cases (row_by_id j db.entries)) [
    | inl e ↦ ground (arith, row_by_id-update_tracked i f k j db)
    | inr (r, e) ↦ ground (arith, row_by_id-update_tracked i f k j db, alive r)
  ]

  pub update_tracked-IsValid : (db : Database) → IsValid db → IsValid (update_tracked i f db)
  update_tracked-IsValid db v = record {
    sound = update_tracked-IsSound i f k db v.sound;
    indexed = record {
      at = λ j. rw (fts-update_tracked i f db, live_count-update_tracked j db) (v.indexed.at j);
    };
  }

pub fts_delete-IsSound : (i : ℕ) (db : Database) → IsSound db → IsSound (fts_delete i db)
unfolding fts_delete
fts_delete-IsSound i db v = record {
  unique = v.unique;
  seq_below = v.seq_below;
  seq_unique = v.seq_unique;
  owned = v.owned;
}

pub fts_insert-IsSound :
    (i : ℕ) (p : Text) (db : Database) → IsSound db → IsSound (fts_insert i p db)
unfolding fts_insert
fts_insert-IsSound i p db v = record {
  unique = v.unique;
  seq_below = v.seq_below;
  seq_unique = v.seq_unique;
  owned = v.owned;
}

-- A tracked update that buries its row, or brings it back, with the search index brought in line.
module _ (i : ℕ) (f : Row → Row) (k : KeepsKeys f) where
  pub bury-IsValid :
      ((r : Row) → (f r).deleted ≡ true)
      → (db : Database) → IsValid db
      → IsValid (fts_delete i (update_tracked i f db))
  unfolding fts_delete live_count stamp_seq
  bury-IsValid dead db v = record {
    sound = fts_delete-IsSound i _ (update_tracked-IsSound i f k db v.sound);
    indexed = record {
      at = λ j. rw (fts-update_tracked i f db) (elim (Option-cases (row_by_id j db.entries)) [
        | inl e ↦ ground (
          arith,
          v.indexed.at j,
          fts_count-delete i j db.entries_fts,
          row_by_id-update_tracked i f k j db,
        )
        | inr (r, e) ↦ ground (
          arith,
          v.indexed.at j,
          fts_count-delete i j db.entries_fts,
          row_by_id-update_tracked i f k j db,
          dead r,
        )
      ]);
    };
  }

  pub revive-IsValid :
      ((r : Row) → (f r).deleted ≡ false)
      → (p : Text) (db : Database) → has_id i db.entries ≡ true
      → IsValid db
      → IsValid (fts_insert i p (fts_delete i (update_tracked i f db)))
  unfolding fts_delete fts_insert live_count stamp_seq
  revive-IsValid alive p db h v = record {
    sound =
        fts_insert-IsSound i p _ (fts_delete-IsSound i _ (update_tracked-IsSound i f k db v.sound));
    indexed = record {
      at = λ j.
          rw (fts-update_tracked i f db, fts_count-insert)
            (elim (Option-cases (row_by_id j db.entries)) [
              | inl e ↦ ground (
                arith,
                v.indexed.at j,
                fts_count-delete i j db.entries_fts,
                row_by_id-update_tracked i f k j db,
                none→no_id j db.entries,
              )
              | inr (r, e) ↦ ground (
                arith,
                v.indexed.at j,
                fts_count-delete i j db.entries_fts,
                row_by_id-update_tracked i f k j db,
                alive r,
              )
            ]);
    };
  }

  -- The same for a lookup by key, where the updated row is in the table.
  pub row_by_key-update_tracked :
      (h : Text) (s : Selection) (db : Database)
      → has_id i db.entries ≡ true
      → row_by_key h s (update_tracked i f db).entries
        ≡ Option.map
            (λ r. if r.id == i then stamp_seq (db.change_seq + 1) (f r) else r)
            (row_by_key h s db.entries)
  unfolding update_tracked
  row_by_key-update_tracked h s db e =
      rw e (row_by_key-update_rows i _ (tracked-KeepsKeys i f k (db.change_seq + 1)) h s db.entries)
