-- ===== src/History/Bounds.antt =====
-- storage/db.rs: what the retention limits leave, counted in rows, bytes and times.
use panora.Prelude.{
  ℕ, suc, zero, ◌+◌, ◌≤◌, ◌≡◌, refl, sym, ◌∙◌, Bool, true, false, not, ◌&&◌, List, [], ◌∷◌, ◌==◌,
  nat_eq, ==-refl, keep, drop, contains, All, arith, Bool-cases, inl, inr, ok,
}
use panora.Model.{kind_eq}
use panora.History.Defs.{Row, Database, has_id, update_rows, stamp_seq, update_tracked, fts_delete}
use panora.History.Rows.{has_id-update_rows}
use panora.History.Entries.{bury_row, bury, tombstone}
use panora.History.Retention.{
  sum_where, is_evictable, insert_by, sort_by, by_time, ids_of, tombstone_all, over_limit,
  enforce_limit,
}

-- The rows once the listed entries are tombstones: `bury` for each, without the errors.
unfoldable pub bury_all : List ℕ → Database → Database
bury_all [] db = db
bury_all (i ∷ ids) db = bury_all ids (bury i 0 db)

has_id-bury : (i j now : ℕ) (db : Database) → has_id j (bury i now db).entries ≡ has_id j db.entries
unfolding bury update_tracked fts_delete
has_id-bury i j now db = ground (
  arith,
  has_id-update_rows i (λ r. stamp_seq (db.change_seq + 1) (bury_row now r))
      (unfold stamp_seq bury_row in
        record { id = λ r. refl; content_hash = λ r. refl; selection = λ r. refl })
      j db.entries,
)

abbrev pub AllHeld : List ℕ → Database → Type 0
AllHeld ids db = All (λ i. has_id i db.entries ≡ true) ids

AllHeld-bury : (ids : List ℕ) (i : ℕ) (db : Database) → AllHeld ids db → AllHeld ids (bury i 0 db)
AllHeld-bury [] i db h = tt
AllHeld-bury (j ∷ js) i db h = (has_id-bury i j 0 db ∙ h.0, AllHeld-bury js i db h.1)

-- With every id in the table no tombstone of the loop fails.
pub tombstone_all-bury_all :
    (ids : List ℕ) (db : Database) → AllHeld ids db → tombstone_all ids db ≡ ok (bury_all ids db)
unfolding tombstone_all tombstone bury_all
tombstone_all-bury_all [] db h = refl
tombstone_all-bury_all (i ∷ ids) db h =
    rw h.0 (tombstone_all-bury_all ids (bury i 0 db) (AllHeld-bury ids i db h.1))

-- A test and a measure that do not look at what burying changes, but for `deleted`.
pub record Buried (p : Row → Bool) (f : Row → ℕ) : Type 0 where
  pub gone : (n : ℕ) (r : Row) → p (stamp_seq n (bury_row 0 r)) ≡ false

module _ (p : Row → Bool) (f : Row → ℕ) (b : Buried p f) where
  sum_where-update_rows :
      (i n : ℕ) (rows : List Row)
      → sum_where p f (update_rows i (λ r. stamp_seq n (bury_row 0 r)) rows)
        ≡ sum_where (λ r. not (r.id == i) && p r) f rows
  unfolding sum_where update_rows
  sum_where-update_rows i n [] = refl
  sum_where-update_rows i n (r ∷ rs) = ground (arith, sum_where-update_rows i n rs, b.gone n r)

  sum_where-absent :
      (i : ℕ) (rows : List Row)
      → has_id i rows ≡ false
      → sum_where (λ r. not (r.id == i) && p r) f rows ≡ sum_where p f rows
  unfolding sum_where has_id
  sum_where-absent i [] h = refl
  sum_where-absent i (r ∷ rs) h = ground (arith, sum_where-absent i rs)

  sum_where-bury :
      (i : ℕ) (db : Database)
      → sum_where p f (bury i 0 db).entries ≡ sum_where (λ r. not (r.id == i) && p r) f db.entries
  unfolding bury update_tracked fts_delete
  sum_where-bury i db =
      ground (
        arith,
        sum_where-update_rows i (db.change_seq + 1) db.entries,
        sum_where-absent i db.entries,
      )

pub sum_where-congr :
    (p q : Row → Bool) (f : Row → ℕ) (rows : List Row)
    → ((r : Row) → p r ≡ q r)
    → sum_where p f rows ≡ sum_where q f rows
unfolding sum_where
sum_where-congr p q f [] h = refl
sum_where-congr p q f (r ∷ rs) h = ground (arith, sum_where-congr p q f rs h, h r)

unlisted-Buried :
    (p : Row → Bool) (f : Row → ℕ) (ids : List ℕ)
    → Buried p f
    → Buried (λ r. not (contains ids r.id) && p r) f
unlisted-Buried p f ids b = record { gone = λ n r. ground (arith, b.gone n r) }

pub sum_where-bury_all :
    (p : Row → Bool) (f : Row → ℕ)
    → Buried p f
    → (ids : List ℕ) (db : Database)
    → sum_where p f (bury_all ids db).entries
      ≡ sum_where (λ r. not (contains ids r.id) && p r) f db.entries
unfolding bury_all
sum_where-bury_all p f b [] db = refl
sum_where-bury_all p f b (i ∷ ids) db =
    sum_where-bury_all p f b ids (bury i 0 db)
    ∙ sum_where-bury _ f (unlisted-Buried p f ids b) i db
    ∙ sum_where-congr _ _ f db.entries λ r. ground arith

-- Sorting moves rows and loses none, so it keeps every sum.
module _ (newer : Row → Row → Bool) (p : Row → Bool) (f : Row → ℕ) where
  sum_where-insert_by :
      (r : Row) (rows : List Row)
      → sum_where p f (insert_by newer r rows) ≡ sum_where p f (r ∷ rows)
  unfolding sum_where insert_by
  sum_where-insert_by r [] = refl
  sum_where-insert_by r (x ∷ xs) = ground (arith, sum_where-insert_by r xs)

  pub sum_where-sort_by :
      (rows : List Row) → sum_where p f (sort_by newer rows) ≡ sum_where p f rows
  unfolding sort_by sum_where
  sum_where-sort_by [] = refl
  sum_where-sort_by (r ∷ rs) =
      sum_where-insert_by r (sort_by newer rs) ∙ ground (arith, sum_where-sort_by rs)

-- A sum over the rows that pass two tests is the sum by one over those that the other keeps.
pub sum_where-keep :
    (p q : Row → Bool) (f : Row → ℕ) (rows : List Row)
    → sum_where p f (keep q rows) ≡ sum_where (λ r. p r && q r) f rows
unfolding sum_where
sum_where-keep p q f [] = refl
sum_where-keep p q f (r ∷ rs) = ground (arith, sum_where-keep p q f rs)

-- The listed rows of a sorted selection count for nothing.
unfoldable pub unlisted : List ℕ → Row → Bool
unlisted ids r = not (contains ids r.id)

-- The evicted ids are among those of the selection, hence in the table.
pub evicted_sum :
    (newer : Row → Row → Bool) (q : Row → Bool) (f : Row → ℕ) (ids : List ℕ) (db : Database)
    → Buried q f
    → sum_where q f (bury_all ids db).entries
      ≡ sum_where (unlisted ids) f (sort_by newer (keep q db.entries))
unfolding unlisted
evicted_sum newer q f ids db b =
    sum_where-bury_all q f b ids db
    ∙ sym (
        sum_where-sort_by newer (unlisted ids) f (keep q db.entries)
        ∙ sum_where-keep (unlisted ids) q f db.entries)

-- Predicates on all rows of a list pass to its selections and its sorted form.
module _ (P : Row → Type 0) where
  pub All-keep : (q : Row → Bool) (rows : List Row) → All P rows → All P (keep q rows)
  All-keep q [] h = tt
  All-keep q (r ∷ rs) h = elim (Bool-cases (q r)) [
    | inl e ↦ rw e (h.0, All-keep q rs h.1)
    | inr e ↦ rw e (All-keep q rs h.1)
  ]

  All-insert_by :
      (newer : Row → Row → Bool) (r : Row) (rows : List Row)
      → P r
      → All P rows
      → All P (insert_by newer r rows)
  unfolding insert_by
  All-insert_by newer r [] p h = (p, tt)
  All-insert_by newer r (x ∷ xs) p h = elim (Bool-cases (newer x r)) [
    | inl e ↦ rw e (h.0, All-insert_by newer r xs p h.1)
    | inr e ↦ rw e (p, h)
  ]

  pub All-sort_by :
      (newer : Row → Row → Bool) (rows : List Row) → All P rows → All P (sort_by newer rows)
  unfolding sort_by
  All-sort_by newer [] h = tt
  All-sort_by newer (r ∷ rs) h =
      All-insert_by newer r (sort_by newer rs) h.0 (All-sort_by newer rs h.1)

  pub All-drop : (n : ℕ) (rows : List Row) → All P rows → All P (drop n rows)
  All-drop zero rows h = h
  All-drop (suc n) [] h = tt
  All-drop (suc n) (r ∷ rs) h = All-drop n rs h.1

abbrev pub Held : Database → Row → Type 0
Held db r = has_id r.id db.entries ≡ true

pub All-Held : (db : Database) → All (Held db) db.entries
unfolding has_id
All-Held db = go db.entries db.entries (λ i h. h)
  where
    go :
        (rows all : List Row)
        → ((i : ℕ) → has_id i rows ≡ true → has_id i all ≡ true)
        → All (λ r. has_id r.id all ≡ true) rows
    go [] all h = tt
    go (r ∷ rs) all h =
        (h r.id (ground (arith, ==-refl r.id)), go rs all (λ i e. h i (ground arith)))

pub ids_of-AllHeld :
    (db : Database) (rows : List Row) → All (Held db) rows → AllHeld (ids_of rows) db
ids_of-AllHeld db [] h = tt
ids_of-AllHeld db (r ∷ rs) h = (h.0, ids_of-AllHeld db rs h.1)

abbrev Listed : List ℕ → Row → Type 0
Listed ids r = contains ids r.id ≡ true

Listed-cons :
    (i : ℕ) (ids : List ℕ) (rows : List Row) → All (Listed ids) rows → All (Listed (i ∷ ids)) rows
Listed-cons i ids [] h = tt
Listed-cons i ids (r ∷ rs) h = (ground (arith, h.0), Listed-cons i ids rs h.1)

All-Listed : (rows : List Row) → All (Listed (ids_of rows)) rows
All-Listed [] = tt
All-Listed (r ∷ rs) =
    (ground (arith, ==-refl r.id), Listed-cons r.id (ids_of rs) rs (All-Listed rs))

-- Where all rows past the first `n` are listed, at most `n` stay.
unlisted_bound :
    (n : ℕ) (ids : List ℕ) (rows : List Row)
    → All (Listed ids) (drop n rows)
    → sum_where (unlisted ids) (λ _. 1) rows ≤ n
unfolding sum_where unlisted
unlisted_bound n ids [] h = ground arith
unlisted_bound zero ids (r ∷ rs) h = ground (arith, unlisted_bound zero ids rs h.1, h.0)
unlisted_bound (suc n) ids (r ∷ rs) h = ground (arith, unlisted_bound n ids rs h)

pub evictable-Buried : (f : Row → ℕ) → Buried is_evictable f
unfolding stamp_seq bury_row
evictable-Buried f = record { gone = λ n r. refl }

-- `enforce_limit` succeeds on every database, and afterwards at most `max_entries` live entries
-- that are not pinned are left.
pub enforce_limit-bound :
    (n : ℕ) (db : Database)
    → (ids : List ℕ) × (db' : Database) × (enforce_limit n db ≡ ok (ids, db'))
      × (sum_where is_evictable (λ _. 1) db'.entries ≤ n)
unfolding enforce_limit over_limit
enforce_limit-bound n db = (
  ids,
  bury_all ids db,
  rw (tombstone_all-bury_all ids db held),
  rw (evicted_sum by_time is_evictable (λ _. 1) ids db (evictable-Buried _))
      (unlisted_bound n ids sorted (All-Listed (drop n sorted))),
)
  where
    sorted : List Row
    sorted = sort_by by_time (keep is_evictable db.entries)

    ids : List ℕ
    ids = ids_of (drop n sorted)

    held : AllHeld ids db
    held = ids_of-AllHeld db _ (
        All-drop (Held db) n sorted
          (All-sort_by (Held db) by_time _ (All-keep (Held db) is_evictable _ (All-Held db))))
