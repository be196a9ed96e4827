-- ===== src/History/Inherits.antt =====
-- storage/db.rs: rows that are there after an operation come from the rows before it.
use mathlib.Core.Option
use panora.Prelude.{
  ℕ, ◌+◌, ◌≡◌, refl, sym, ◌∙◌, ap, List, [], ◌∷◌, ◌++◌, Text, ◌==◌, nat_eq, arith, if◌then◌else◌,
  Bool-cases, inl, inr, Option, none, some, ok, >>=-eq-ok, subst,
}
use panora.History.Defs.{
  Row, Database, has_id, row_by_id, stamp_seq, update_plain, update_tracked, fts_delete,
}
use panora.History.Rows.{KeepsKeys, row_by_id-update_rows, row_by_id-delete_row}
use panora.History.Entries.{blobs_of, bury, bury_row, tombstone}
use panora.History.Blobs.{
  refs_of, is_stale, purge_row, purge_loop, purge, is_tombstoned, purge_tombstones,
  strip_tombstones, drop_blobs_where,
}
use panora.History.Retention.{tombstone_all, evict_ids}
use panora.History.Validity.{row_by_id-update_tracked}
use panora.History.Calls.{bury_row-KeepsKeys}

-- Every row of `db'` continues a row of `db` with its id, as `P` says.
abbrev pub Inherits : (Row → Row → Type 0) → Database → Database → Type 0
Inherits P db db' =
    (i : ℕ) (r' : Row)
    → row_by_id i db'.entries ≡ some r'
    → (r : Row) × (row_by_id i db.entries ≡ some r) × P r r'

-- A relation that holds along the operations that evict, delete and purge.
pub record IsKept (P : Row → Row → Type 0) : Type 0 where
  pub stays : (r : Row) → P r r
  pub follows : (r s t : Row) → P r s → P s t → P r t
  pub buried : (n now : ℕ) (r : Row) → P r (stamp_seq n (bury_row now r))

module _ (P : Row → Row → Type 0) (kept : IsKept P) where
  pub same-Inherits : (db db' : Database) → db'.entries ≡ db.entries → Inherits P db db'
  same-Inherits db db' e i r' h = (r', ap (row_by_id i) (sym e) ∙ h, kept.stays r')

  pub trans-Inherits : (a b c : Database) → Inherits P a b → Inherits P b c → Inherits P a c
  trans-Inherits a b c f g i t h =
      let (s, hs, p) = g i t h in let (r, hr, q) = f i s hs in (r, hr, kept.follows r s t q p)

  mapped :
      (i j : ℕ) (f : Row → Row) (found : Option Row) (r' : Row)
      → ((r : Row) → P r (f r))
      → (if i == j then Option.map f found else found) ≡ some r'
      → (r : Row) × (found ≡ some r) × P r r'
  mapped i j f none r' step h = absurd (ground arith)
  mapped i j f (some r) r' step h = elim (Bool-cases (i == j)) [
    | inl e ↦ let w : f r ≡ r' = ground arith in (r, refl, subst (P r) w (step r))
    | inr e ↦ let w : r ≡ r' = ground arith in (r, refl, subst (P r) w (kept.stays r))
  ]

  pub tracked-Inherits :
      (i : ℕ) (f : Row → Row) (db : Database)
      → KeepsKeys f
      → ((n : ℕ) (r : Row) → P r (stamp_seq n (f r)))
      → Inherits P db (update_tracked i f db)
  tracked-Inherits i f db k step j r' h =
      mapped i j (λ r. stamp_seq (db.change_seq + 1) (f r)) (row_by_id j db.entries) r'
        (step (db.change_seq + 1)) (sym (row_by_id-update_tracked i f k j db) ∙ h)

  pub plain-Inherits :
      (i : ℕ) (f : Row → Row) (db : Database)
      → KeepsKeys f
      → ((r : Row) → P r (f r))
      → Inherits P db (update_plain i f db)
  unfolding update_plain
  plain-Inherits i f db k step j r' h =
      mapped i j f (row_by_id j db.entries) r' step
        (sym (row_by_id-update_rows i f k j db.entries) ∙ h)

  bury-Inherits : (i now : ℕ) (db : Database) → Inherits P db (bury i now db)
  unfolding bury fts_delete
  bury-Inherits i now db =
      tracked-Inherits i (bury_row now) db (bury_row-KeepsKeys now) (λ n r. kept.buried n now r)

  pub tombstone-Inherits :
      (i now : ℕ) (db db' : Database) (refs : List Text)
      → tombstone i now db ≡ ok (refs, db')
      → Inherits P db db'
  unfolding tombstone
  tombstone-Inherits i now db db' refs e = elim (Bool-cases (has_id i db.entries)) [
    | inl h ↦
        let w : bury i now db ≡ db' = ground arith in
        subst (Inherits P db) w (bury-Inherits i now db)
    | inr h ↦ absurd (ground arith)
  ]

  tombstone_all-Inherits :
      (ids : List ℕ) (db db' : Database) → tombstone_all ids db ≡ ok db' → Inherits P db db'
  unfolding tombstone_all
  tombstone_all-Inherits [] db db' e =
      let w : db ≡ db' = ground arith in subst (Inherits P db) w (same-Inherits db db refl)
  tombstone_all-Inherits (i ∷ ids) db db' e =
      let ((refs, mid), p, q) = >>=-eq-ok (tombstone i 0 db) _ e in
      trans-Inherits db mid db' (tombstone-Inherits i 0 db mid refs p)
        (tombstone_all-Inherits ids mid db' q)

  pub evict_ids-Inherits :
      (ids ids' : List ℕ) (db db' : Database)
      → evict_ids ids db ≡ ok (ids', db')
      → Inherits P db db'
  evict_ids-Inherits ids ids' db db' e =
      let (mid, p, q) = >>=-eq-ok (tombstone_all ids db) _ e in
      let w : mid ≡ db' = ground arith in
      subst (Inherits P db) w (tombstone_all-Inherits ids db mid p)

  purge_row-Inherits : (i : ℕ) (db : Database) → Inherits P db (purge_row i db)
  unfolding purge_row fts_delete
  purge_row-Inherits i db j r' h = elim (Bool-cases (i == j)) [
    | inl e ↦ absurd (ground (arith, row_by_id-delete_row i j db.entries))
    | inr e ↦ (r', ground (arith, row_by_id-delete_row i j db.entries), kept.stays r')
  ]

  purge_loop-Inherits :
      (ids : List ℕ) (refs : List Text) (db : Database) → Inherits P db (purge_loop ids refs db).1
  unfolding purge_loop
  purge_loop-Inherits [] refs db = same-Inherits db db refl
  purge_loop-Inherits (i ∷ ids) refs db = elim (Bool-cases (is_tombstoned i db)) [
    | inl e ↦
        let more : List Text = refs ++ refs_of (blobs_of i db) in
        rw (e, purge_loop)
          (trans-Inherits db (purge_row i db) (purge_loop ids more (purge_row i db)).1
            (purge_row-Inherits i db) (purge_loop-Inherits ids more (purge_row i db)))
    | inr e ↦ rw (e, purge_loop) (purge_loop-Inherits ids refs db)
  ]

  pub purge_tombstones-Inherits :
      (before : ℕ) (db : Database) → Inherits P db (purge_tombstones before db).1
  unfolding purge_tombstones purge
  purge_tombstones-Inherits before db = purge_loop-Inherits _ [] db

  pub strip_tombstones-Inherits :
      (before : ℕ) (db : Database) → Inherits P db (strip_tombstones before db).1
  unfolding strip_tombstones drop_blobs_where
  strip_tombstones-Inherits before db =
      same-Inherits db (drop_blobs_where (is_stale before) db) refl
