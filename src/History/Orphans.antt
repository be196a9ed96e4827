-- ===== src/History/Orphans.antt =====
-- The blobs that a purge frees: exactly those that were referenced before it and no longer are.
use panora.Prelude.{
  ℕ, ◌≡◌, refl, ◌∙◌, Bool, not, ◌&&◌, ◌||◌, List, [], ◌∷◌, ◌++◌, Text, ◌==◌, nat_eq, list_eq,
  ==-refl, ==→eq, keep, contains, length, arith, Bool-cases, inl, inr,
}
use panora.History.Defs.{BlobRow, Database, row_by_id, fts_delete}
use panora.History.Entries.{blobs_of}
use panora.History.Blobs.{
  refs_of, dedup, insert_text, sort_texts, blob_ref_count, orphaned, is_tombstoned, purge_row,
  purge_loop, purge, strip_tombstones, blobs_where, drop_blobs_where, row_test, is_stale,
}

contains-dedup : (x : Text) (xs : List Text) → contains (dedup xs) x ≡ contains xs x
unfolding dedup
contains-dedup x [] = refl
contains-dedup x (a ∷ []) = refl
contains-dedup x (a ∷ b ∷ r) = ground (arith, contains-dedup x (b ∷ r), ==→eq a b)

contains-insert_text :
    (x a : Text) (xs : List Text) → contains (insert_text a xs) x ≡ contains (a ∷ xs) x
unfolding insert_text
contains-insert_text x a [] = refl
contains-insert_text x a (b ∷ r) = ground (arith, contains-insert_text x a r)

contains-sort_texts : (x : Text) (xs : List Text) → contains (sort_texts xs) x ≡ contains xs x
unfolding sort_texts
contains-sort_texts x [] = refl
contains-sort_texts x (a ∷ r) =
    contains-insert_text x a (sort_texts r) ∙ ground (arith, contains-sort_texts x r)

contains-append :
    (x : Text) (xs ys : List Text) → contains (xs ++ ys) x ≡ (contains xs x || contains ys x)
contains-append x [] ys = refl
contains-append x (a ∷ r) ys = ground (arith, contains-append x r ys)

contains-keep :
    (x : Text) (p : Text → Bool) (xs : List Text) → contains (keep p xs) x ≡ (contains xs x && p x)
contains-keep x p [] = refl
contains-keep x p (a ∷ r) = ground (arith, contains-keep x p r, ==→eq a x, ==-refl x)

-- `COUNT(*) = 0` says that no row holds the reference.
count-contains :
    (x : Text) (bs : List BlobRow)
    → (length (keep (λ b. b.blob_ref == x) bs) == 0) ≡ not (contains (refs_of bs) x)
count-contains x [] = refl
count-contains x (b ∷ bs) = ground (arith, count-contains x bs)

-- Rows that pass a test and rows that do not make up all rows.
contains-split :
    (x : Text) (p : BlobRow → Bool) (bs : List BlobRow)
    → (contains (refs_of (keep p bs)) x || contains (refs_of (keep (λ b. not (p b)) bs)) x)
      ≡ contains (refs_of bs) x
contains-split x p [] = refl
contains-split x p (b ∷ bs) = ground (arith, contains-split x p bs)

contains-purge_loop :
    (x : Text) (ids : List ℕ) (candidates : List Text) (db : Database)
    → let (found, db') = purge_loop ids candidates db in
      (contains found x || contains (refs_of db'.entry_blobs) x)
      ≡ (contains candidates x || contains (refs_of db.entry_blobs) x)
unfolding purge_loop
contains-purge_loop x [] candidates db = refl
contains-purge_loop x (i ∷ ids) candidates db = elim (Bool-cases (is_tombstoned i db)) [
  | inl e ↦
      rw (e, purge_loop)
        (contains-purge_loop x ids (candidates ++ refs_of (blobs_of i db)) (purge_row i db)
          ∙ (unfold blobs_of purge_row fts_delete in
              ground (
                arith,
                contains-append x candidates (refs_of (keep (λ b. b.entry_id == i) db.entry_blobs)),
                contains-split x (λ b. b.entry_id == i) db.entry_blobs,
              )))
  | inr e ↦ rw (e, purge_loop) (contains-purge_loop x ids candidates db)
]

-- The list of orphans, whatever candidates cover the references that went.
orphaned-exact :
    (x : Text) (candidates : List Text) (before after : Database)
    → (contains candidates x || contains (refs_of after.entry_blobs) x)
      ≡ contains (refs_of before.entry_blobs) x
    → contains (orphaned (dedup (sort_texts candidates)) after) x
      ≡ (contains (refs_of before.entry_blobs) x && not (contains (refs_of after.entry_blobs) x))
unfolding orphaned blob_ref_count
orphaned-exact x candidates before after h =
    contains-keep x (λ b. length (keep (λ r. r.blob_ref == b) after.entry_blobs) == 0)
      (dedup (sort_texts candidates))
    ∙ ground (
      arith,
      h,
      contains-dedup x (sort_texts candidates),
      contains-sort_texts x candidates,
      count-contains x after.entry_blobs,
    )

-- A purge hands a blob back for removal from disk exactly when some entry referenced it before the
-- purge and none does after it, so no payload of an entry that stays is removed, and none leaks.
pub purge_frees :
    (x : Text) (ids : List ℕ) (db : Database)
    → let (freed, db') = purge ids db in
      contains freed x
      ≡ (contains (refs_of db.entry_blobs) x && not (contains (refs_of db'.entry_blobs) x))
unfolding purge
purge_frees x ids db =
    let (candidates, db') = purge_loop ids [] db in
    orphaned-exact x candidates db db' (contains-purge_loop x ids [] db)

-- Stripping old deletions hands a blob back exactly when some entry referenced it before and none
-- does afterwards.
pub strip_tombstones_frees :
    (x : Text) (before : ℕ) (db : Database)
    → let (freed, db') = strip_tombstones before db in
      contains freed x
      ≡ (contains (refs_of db.entry_blobs) x && not (contains (refs_of db'.entry_blobs) x))
unfolding strip_tombstones
strip_tombstones_frees x before db =
    orphaned-exact x (refs_of (blobs_where (is_stale before) db)) db
      (drop_blobs_where (is_stale before) db)
      (unfold blobs_where drop_blobs_where in
        contains-split x (λ b. row_test (is_stale before) (row_by_id b.entry_id db.entries))
          db.entry_blobs)
