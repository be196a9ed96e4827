-- ===== src/History/Placement.antt =====
-- What `upsert_entry` does to the table: where the capture stands, and what stays.
use panora.Prelude.{
  ℕ, ◌+◌, ◌≤◌, ◌<◌, ◌≡◌, refl, ◌∙◌, subst, false, not, List, [], ◌∷◌, Text, ◌==◌, nat_eq, list_eq,
  ==-refl, ==→eq, arith, if◌then◌else◌, Bool-cases, Option-cases, inl, inr, none, some, ok,
}
use panora.Model.{selection_eq}
use panora.History.Defs.{
  Row, Database, has_id, row_by_id, row_by_key, max_where, stamp_seq, update_plain, fts_delete,
  fts_insert,
}
use panora.History.Rows.{
  IsUnique, row_by_id-update_rows, row_by_key-update_rows, row_by_id-insert, row_by_key-insert,
  row_by_key→row_by_id, row_by_id→has_id, has_id_above,
}
use panora.History.Entries.{
  Cipher, Capture, preview_aad, new_row, next_id, insert_entry, revive_row, revive_entry, bump_row,
  bumped_time, bump_entry, place, upsert_entry, touch,
}
use panora.History.Validity.{row_by_id-update_tracked, row_by_key-update_tracked}
use panora.History.Keeps.{revive_row-KeepsKeys, bump_row-KeepsKeys}

-- The capture is in the table: its key finds a live row with the returned id, and every other row
-- is as before.
pub record Placed (c : Capture) (i : ℕ) (db db' : Database) : Type 0 where
  pub row : Row
  pub found : row_by_key c.content_hash c.selection db'.entries ≡ some row
  pub id : row.id ≡ i
  pub alive : row.deleted ≡ false
  pub rows :
      (j : ℕ) → row_by_id j db'.entries ≡ (if i == j then some row else row_by_id j db.entries)

insert-Placed :
    (c : Capture) (sealed : Text) (db : Database)
    → row_by_key c.content_hash c.selection db.entries ≡ none
    → Placed c (next_id db.entries) db (insert_entry c sealed db)
unfolding insert_entry fts_insert next_id new_row
insert-Placed c sealed db e = record {
  row = row;
  found =
      row_by_key-insert c.content_hash c.selection db.entries row e
      ∙ ground (arith, ==-refl c.content_hash, ==-refl c.selection);
  id = refl;
  alive = refl;
  rows = λ j. row_by_id-insert j db.entries row fresh;
}
  where
    row : Row
    row = new_row c sealed (next_id db.entries) (db.change_seq + 1)

    fresh : has_id row.id db.entries ≡ false
    fresh = has_id_above _ db.entries (omega arith)

revive-Placed :
    (c : Capture) (sealed : Text) (db : Database) (r : Row)
    → row_by_key c.content_hash c.selection db.entries ≡ some r
    → row_by_id r.id db.entries ≡ some r
    → Placed c r.id db (revive_entry c sealed r.id db)
unfolding revive_entry fts_insert fts_delete
revive-Placed c sealed db r e h = record {
  row = stamp_seq (db.change_seq + 1) (revive_row c sealed r);
  found =
      row_by_key-update_tracked r.id _ (revive_row-KeepsKeys c sealed) c.content_hash c.selection db
        (row_by_id→has_id r.id db.entries r h).0
      ∙ ground (arith, ==-refl r.id);
  id = unfold stamp_seq revive_row in refl;
  alive = unfold stamp_seq revive_row in refl;
  rows = λ j.
      row_by_id-update_tracked r.id _ (revive_row-KeepsKeys c sealed) j db
      ∙ ground (arith, h, ==→eq r.id j);
}

bump-Placed :
    (c : Capture) (db : Database) (r : Row)
    → row_by_key c.content_hash c.selection db.entries ≡ some r
    → row_by_id r.id db.entries ≡ some r
    → r.deleted ≡ false
    → Placed c r.id db (bump_entry c r.id db)
unfolding bump_entry update_plain
bump-Placed c db r e h d = elim (Bool-cases c.bump_on_duplicate) [
  | inl b ↦ rw b (record {
    row = bump_row t r;
    found =
        row_by_key-update_rows r.id (bump_row t) (bump_row-KeepsKeys t) c.content_hash c.selection
          db.entries
        ∙ ground (arith, ==-refl r.id);
    id = unfold bump_row in refl;
    alive = unfold bump_row in d;
    rows = λ j.
        row_by_id-update_rows r.id (bump_row t) (bump_row-KeepsKeys t) j db.entries
        ∙ ground (arith, h, ==→eq r.id j);
  })
  | inr b ↦ rw b (record {
    row = r;
    found = e;
    id = refl;
    alive = d;
    rows = λ j. ground (arith, h, ==→eq r.id j);
  })
]
  where
    t : ℕ
    t = bumped_time c.now r.id db.entries

place-Placed :
    (c : Capture) (sealed : Text) (db : Database)
    → IsUnique db.entries
    → let out = place c sealed (row_by_key c.content_hash c.selection db.entries) db in
      Placed c out.0 db out.1
unfolding place
place-Placed c sealed db u =
    elim (Option-cases (row_by_key c.content_hash c.selection db.entries)) [
      | inl e ↦ rw e (insert-Placed c sealed db e)
      | inr (r, e) ↦ rw e (elim (Bool-cases r.deleted) [
        | inl d ↦ rw d (revive-Placed c sealed db r e (row_by_key→row_by_id _ _ db.entries r u e).0)
        | inr d ↦ rw d (bump-Placed c db r e (row_by_key→row_by_id _ _ db.entries r u e).0 d)
      ])
    ]

-- With unique keys, on every successful call, whether the content is new, a live duplicate or a
-- tombstone that comes back, its key finds a live row with the returned id, and no other row
-- changes.
pub upsert_entry-Placed :
    (cipher : Cipher) (c : Capture) (db db' : Database) (i : ℕ)
    → IsUnique db.entries
    → upsert_entry cipher c db ≡ ok (i, db')
    → Placed c i db db'
unfolding upsert_entry
upsert_entry-Placed cipher c db db' i u e =
    elim (Option-cases (cipher.seal_text_with_aad (preview_aad c.content_hash) c.preview)) [
      | inl q ↦ absurd (ground arith)
      | inr (sealed, q) ↦
          let out : ℕ × Database =
            place c sealed (row_by_key c.content_hash c.selection db.entries) db in
          let p : out.0 ≡ i = ground arith in
          let p' : out.1 ≡ db' = ground arith in
          subst (λ (d : Database). Placed c i db d) p'
            (subst (λ (k : ℕ). Placed c k db out.1) p (place-Placed c sealed db u))
    ]

max_where_found :
    (i j : ℕ) (rows : List Row) (r : Row)
    → row_by_id j rows ≡ some r
    → (i == j) ≡ false
    → r.last_seen_at ≤ max_where (λ r. not (r.id == i)) (λ r. r.last_seen_at) rows
unfolding max_where row_by_id
max_where_found i j [] r e n = cc
max_where_found i j (x ∷ xs) r e n = ground (arith, max_where_found i j xs r)

-- After a successful touch the time of the entry is at least `now` and above that of every other
-- row, also when the clock has not moved on.
pub touch_newest :
    (i j now : ℕ) (db db' : Database) (r s : Row)
    → touch i now db ≡ ok db'
    → row_by_id i db'.entries ≡ some r
    → row_by_id j db'.entries ≡ some s
    → (i == j) ≡ false
    → (s.last_seen_at < r.last_seen_at) × (now ≤ r.last_seen_at)
unfolding touch update_plain bump_row bumped_time
touch_newest i j now db db' r s e p q n =
    let f : Row → Row = bump_row (bumped_time now i db.entries) in
    ground (
      arith,
      e,
      p,
      q,
      ==-refl i,
      row_by_id-update_rows i f (bump_row-KeepsKeys _) i db.entries,
      row_by_id-update_rows i f (bump_row-KeepsKeys _) j db.entries,
      max_where_found i j db.entries s,
    )
