-- ===== src/History/Undo.antt =====
-- Deleting and undoing, and re-encryption under a new key.
use mathlib.Core.Option
use panora.Prelude.{
  ℕ, ◌+◌, ◌≡◌, refl, ◌∙◌, true, false, none, List, [], ◌∷◌, Text, ◌==◌, nat_eq, ==-refl, ==→eq,
  arith, if◌then◌else◌, Option-cases, inl, inr, some, ok, ◌>>=◌, >>=-eq-ok, subst,
}
use panora.History.Defs.{
  Row, Database, has_id, row_by_id, stamp_seq, update_tracked, fts_delete, fts_insert,
}
use panora.History.Rows.{row_by_id→has_id}
use panora.History.Entries.{
  Cipher, preview_aad, bury, bury_row, unbury, unbury_row, tombstone, restore, row_to_entry,
}
use panora.History.Keyring.{open_any, rekey_row, rekey_rows, rekey}
use panora.History.Validity.{row_by_id-update_tracked}
use panora.History.Calls.{bury_row-KeepsKeys, unbury_row-KeepsKeys}

-- What a deletion and its undo leave of a row: all but the change counter.
abbrev pub undone : ℕ → Row → Row
undone n r = record r { deleted = false; deleted_at = 0; change_seq = n }

row_by_id-bury :
    (i j now : ℕ) (db : Database)
    → row_by_id j (bury i now db).entries ≡ (
        if i == j
        then Option.map
            (λ r. stamp_seq (db.change_seq + 1) (bury_row now r))
            (row_by_id j db.entries)
        else row_by_id j db.entries)
unfolding bury fts_delete
row_by_id-bury i j now db = row_by_id-update_tracked i (bury_row now) (bury_row-KeepsKeys now) j db

row_by_id-unbury :
    (i j : ℕ) (p : Text) (db : Database)
    → row_by_id j (unbury i p db).entries ≡ (
        if i == j
        then Option.map (λ r. stamp_seq (db.change_seq + 1) (unbury_row r)) (row_by_id j db.entries)
        else row_by_id j db.entries)
unfolding unbury fts_delete fts_insert
row_by_id-unbury i j p db = row_by_id-update_tracked i unbury_row unbury_row-KeepsKeys j db

change_seq-bury :
    (i now : ℕ) (db : Database)
    → has_id i db.entries ≡ true
    → (bury i now db).change_seq ≡ db.change_seq + 1
unfolding bury fts_delete update_tracked
change_seq-bury i now db h = rw h

restore-buried :
    (cipher : Cipher) (i : ℕ) (db : Database) (r : Row)
    → row_by_id i db.entries ≡ some r
    → r.deleted ≡ true
    → restore cipher i db ≡ ok (unbury i (row_to_entry cipher r).preview db)
unfolding restore
restore-buried cipher i db r e d = rw (e, d)

-- Deleting an entry that is in the table and undoing it both succeed, and bring its row back live,
-- with no deletion time and otherwise as it was but for the change counter, which is two above the
-- old one; every other row stays.
pub restore-tombstone :
    (cipher : Cipher) (i now : ℕ) (db : Database) (r : Row)
    → row_by_id i db.entries ≡ some r
    → (db' : Database) × ((do (refs, buried) ← tombstone i now db; restore cipher i buried)
        ≡ ok db')
      × ((j : ℕ)
          → row_by_id j db'.entries
            ≡ (if i == j then some (undone (db.change_seq + 2) r) else row_by_id j db.entries))
unfolding tombstone
restore-tombstone cipher i now db r f =
    let held : has_id i db.entries ≡ true = (row_by_id→has_id i db.entries r f).0 in
    let dead : Row = stamp_seq (db.change_seq + 1) (bury_row now r) in
    let buried : Database = bury i now db in
    let there : row_by_id i buried.entries ≡ some dead =
      row_by_id-bury i i now db ∙ ground (arith, f, ==-refl i) in
    (
      unbury i (row_to_entry cipher dead).preview buried,
      rw held (restore-buried cipher i buried dead there (unfold stamp_seq bury_row in refl)),
      λ j.
          row_by_id-unbury i j _ buried
          ∙ (unfold stamp_seq bury_row unbury_row in
              ground
                (arith, f, row_by_id-bury i j now db, change_seq-bury i now db held, ==→eq i j)),
    )

-- What the database relies on from its AEAD: what was sealed under a binding opens under it.
abbrev pub Opens : Cipher → Type 0
Opens c =
    (aad t s : Text) → c.seal_text_with_aad aad t ≡ some s → c.open_text_with_aad aad s ≡ some t

abbrev Reads : Cipher → Row → Text → Type 0
Reads c r t = c.open_text_with_aad (preview_aad r.content_hash) r.preview ≡ some t

abbrev Fails : Cipher → Row → Type 0
Fails c r =
    (c.open_text_with_aad (preview_aad r.content_hash) r.preview ≡ none)
    × (c.open_text r.preview ≡ none)

-- The text of a preview: what the key makes of it in the form that is bound to the row, or, where
-- that fails, in the unbound form of older versions.
pub data HasText (c : Cipher) (r : Row) (t : Text) : Type 0 where
  bound : Reads c r t → HasText c r t
  unbound :
      c.open_text_with_aad (preview_aad r.content_hash) r.preview ≡ none
      → c.open_text r.preview ≡ some t
      → HasText c r t

-- An interrupted rotation may have left the row under the new key already.
pub data HadText (old new : Cipher) (r : Row) (t : Text) : Type 0 where
  under_old : HasText old r t → HadText old new r t
  under_new : Fails old r → HasText new r t → HadText old new r t

abbrev SameFields : Row → Row → Type 0
SameFields r r' = r' ≡ record r { preview = r'.preview }

-- The row is the same but for its preview, which reads under the new key as it did before, also to
-- `row_to_entry`.
pub record RekeyedRow (old new : Cipher) (r r' : Row) : Type 0 where
  pub plaintext : Text
  pub had : HadText old new r plaintext
  pub reads : Reads new r' plaintext
  pub shown : (row_to_entry new r').preview ≡ plaintext
  pub same : SameFields r r'

abbrev pub Rekeyed : Cipher → Cipher → List Row → List Row → Type 0
Rekeyed old new [] [] = Unit {0}
Rekeyed old new (r ∷ rs) (r' ∷ rs') = RekeyedRow old new r r' × Rekeyed old new rs rs'
Rekeyed old new _ _ = ⊥

open_any-HadText :
    (old new : Cipher) (r : Row) (t : Text)
    → open_any old new r.content_hash r.preview ≡ some t
    → HadText old new r t
unfolding open_any
open_any-HadText old new r t e =
    let aad = preview_aad r.content_hash in
    elim (Option-cases (old.open_text_with_aad aad r.preview)) [
      | inr (a, h) ↦ under_old (bound (ground arith))
      | inl h ↦ elim (Option-cases (old.open_text r.preview)) [
        | inr (a, k) ↦ under_old (unbound h (ground arith))
        | inl k ↦ elim (Option-cases (new.open_text_with_aad aad r.preview)) [
          | inr (a, m) ↦ under_new (h, k) (bound (ground arith))
          | inl m ↦ under_new (h, k) (unbound m (ground arith))
        ]
      ]
    ]

shown-Reads : (c : Cipher) (r : Row) (t : Text) → Reads c r t → (row_to_entry c r).preview ≡ t
unfolding row_to_entry
shown-Reads c r t h = rw h refl

rekey_row-RekeyedRow :
    (old new : Cipher)
    → Opens new
    → (r r' : Row) → rekey_row old new r ≡ ok r'
    → RekeyedRow old new r r'
unfolding rekey_row
rekey_row-RekeyedRow old new o r r' e =
    elim (Option-cases (open_any old new r.content_hash r.preview)) [
      | inl p ↦ absurd (ground arith)
      | inr (t, p) ↦ elim (Option-cases (new.seal_text_with_aad (preview_aad r.content_hash) t)) [
        | inl q ↦ absurd (ground arith)
        | inr (sealed, q) ↦
            let w : r' ≡ record r { preview = sealed } = ground arith in
            let opens = o (preview_aad r.content_hash) t sealed q in
            rw w (record {
              plaintext = t;
              had = open_any-HadText old new r t p;
              reads = opens;
              shown = shown-Reads new (record r { preview = sealed }) t opens;
              same = refl;
            })
      ]
    ]

rekey_rows-Rekeyed :
    (old new : Cipher)
    → Opens new
    → (rows rows' : List Row) → rekey_rows old new rows ≡ ok rows'
    → Rekeyed old new rows rows'
unfolding rekey_rows
rekey_rows-Rekeyed old new o [] rows' e = let w : rows' ≡ [] = ground arith in rw w tt
rekey_rows-Rekeyed old new o (r ∷ rs) rows' e =
    let (r', p, e') = >>=-eq-ok (rekey_row old new r) _ e in
    let (rs', q, e'') = >>=-eq-ok (rekey_rows old new rs) _ e' in
    let w : rows' ≡ r' ∷ rs' = ground arith in
    rw w (rekey_row-RekeyedRow old new o r r' p, rekey_rows-Rekeyed old new o rs rs' q)

-- Where the new cipher opens what it seals, a rotation that succeeds leaves every row as it was
-- but for its preview, binds the database to the new key, and changes nothing else. Each preview
-- reads under the new key, also to `row_to_entry`, as the text that it had: under the old key in
-- the form bound to the row, else under the old key unbound, else, where an interrupted rotation
-- was there before, under the new key in either form.
pub rekey-Rekeyed :
    (old new : Cipher) (db db' : Database)
    → Opens new
    → rekey old new db ≡ ok db'
    → Rekeyed old new db.entries db'.entries
      × (db' ≡ record db { entries = db'.entries; key_fingerprint = some new.fingerprint })
unfolding rekey
rekey-Rekeyed old new db db' o e =
    let (rows, p, e') = >>=-eq-ok (rekey_rows old new db.entries) _ e in
    let w : record db { entries = rows; key_fingerprint = some new.fingerprint } ≡ db' =
      ground arith in
    subst
      (λ (d : Database).
        Rekeyed old new db.entries d.entries
        × (d ≡ record db { entries = d.entries; key_fingerprint = some new.fingerprint }))
      w (rekey_rows-Rekeyed old new o db.entries rows p, refl)
