-- ===== src/History/Resume.antt =====
-- The change feed and the Lamport clock of `Database`: what a reader that resumes may rely on.
use panora.Prelude.{
  ℕ, suc, zero, ◌≤◌, ◌<◌, ◌≡◌, refl, ◌∙◌, ◌⊎◌, Bool, true, false, List, [], ◌∷◌, ◌==◌, nat_eq, keep,
  take, length, map, All, arith, Bool-cases, inl, inr, ltb, some,
}
use panora.History.Defs.{Row, Database, max_where, row_by_id}
use panora.History.Sequence.{has_seq}
use panora.History.Retention.{insert_by, sort_by}
use panora.History.Feed.{
  by_seq, is_shared, changes_since, tick_lamport, stored_clock, lamport_observe_limit,
}
use panora.History.Bounds.{All-sort_by}

abbrev Ascending : List Row → Type 0
Ascending [] = Unit {0}
Ascending (r ∷ rs) = All (λ s. r.change_seq ≤ s.change_seq) rs × Ascending rs

All-le_trans :
    (m n : ℕ) (rows : List Row)
    → m ≤ n
    → All (λ s. n ≤ s.change_seq) rows
    → All (λ s. m ≤ s.change_seq) rows
All-le_trans m n [] h a = tt
All-le_trans m n (r ∷ rs) h a = (omega arith, All-le_trans m n rs h a.1)

All-insert_by_seq :
    (P : Row → Type 0) (r : Row) (rows : List Row)
    → P r
    → All P rows
    → All P (insert_by by_seq r rows)
unfolding insert_by
All-insert_by_seq P r [] p h = (p, tt)
All-insert_by_seq P r (x ∷ xs) p h = elim (Bool-cases (by_seq x r)) [
  | inl e ↦ rw e (h.0, All-insert_by_seq P r xs p h.1)
  | inr e ↦ rw e (p, h)
]

insert_by-Ascending :
    (r : Row) (rows : List Row) → Ascending rows → Ascending (insert_by by_seq r rows)
unfolding insert_by
insert_by-Ascending r [] a = (tt, tt)
insert_by-Ascending r (x ∷ xs) a = elim (Bool-cases (by_seq x r)) [
  | inl e ↦ rw e (All-insert_by_seq _ r xs (ground arith) a.0, insert_by-Ascending r xs a.1)
  | inr e ↦
      let le : r.change_seq ≤ x.change_seq = ground arith in
      rw e ((le, All-le_trans r.change_seq x.change_seq xs le a.0), a)
]

sort_by-Ascending : (rows : List Row) → Ascending (sort_by by_seq rows)
unfolding sort_by
sort_by-Ascending [] = tt
sort_by-Ascending (r ∷ rs) = insert_by-Ascending r (sort_by by_seq rs) (sort_by-Ascending rs)

has_seq-insert_by :
    (x : ℕ) (r : Row) (rows : List Row) → has_seq x (insert_by by_seq r rows) ≡ has_seq x (r ∷ rows)
unfolding has_seq insert_by
has_seq-insert_by x r [] = refl
has_seq-insert_by x r (y ∷ ys) = ground (arith, has_seq-insert_by x r ys)

pub has_seq-sort_by : (x : ℕ) (rows : List Row) → has_seq x (sort_by by_seq rows) ≡ has_seq x rows
unfolding has_seq sort_by
has_seq-sort_by x [] = refl
has_seq-sort_by x (r ∷ rs) =
    has_seq-insert_by x r (sort_by by_seq rs) ∙ ground (arith, has_seq-sort_by x rs)

has_seq-lower :
    (m x : ℕ) (rows : List Row) → All (λ s. m ≤ s.change_seq) rows → has_seq x rows ≡ true → m ≤ x
unfolding has_seq
has_seq-lower m x [] a h = cc
has_seq-lower m x (r ∷ rs) a h = ground (arith, has_seq-lower m x rs, a.0, a.1)

-- Of a list in order a prefix of length `n` has the value, or it is full and all before the value.
take_reaches :
    (n x : ℕ) (rows : List Row)
    → Ascending rows
    → has_seq x rows ≡ true
    → (has_seq x (take n rows) ≡ true)
      ⊎ (All (λ r. r.change_seq < x) (take n rows) × (length (take n rows) ≡ n))
unfolding has_seq
take_reaches zero x rows a h = inr (tt, refl)
take_reaches (suc n) x [] a h = cc
take_reaches (suc n) x (r ∷ rs) a h = elim (Bool-cases (r.change_seq == x)) [
  | inl e ↦ inl (rw e)
  | inr e ↦ elim (take_reaches n x rs a.1 (rw e at h)) [
    | inl q ↦ inl (rw e q)
    | inr (all, full) ↦
        inr ((ground (arith, has_seq-lower r.change_seq x rs a.0 (rw e at h)), all), ground arith)
  ]
]

abbrev pub reply_rows : List (ℕ × Row) → List Row
reply_rows = map (λ p. p.1)

reply_rows-pairs : (rows : List Row) → reply_rows (map (λ r. (r.change_seq, r)) rows) ≡ rows
reply_rows-pairs [] = refl
reply_rows-pairs (r ∷ rs) = rw (reply_rows-pairs rs)

-- A row that the feed shares and that changed after `since` is in the reply, or the reply is full
-- and holds only earlier changes: a call that goes on from its last value still gets the row.
pub changes_since_complete :
    (since limit x : ℕ) (db : Database)
    → has_seq x (keep (is_shared since) db.entries) ≡ true
    → let rows = reply_rows (changes_since since limit db) in
      (has_seq x rows ≡ true) ⊎ (All (λ r. r.change_seq < x) rows × (length rows ≡ limit))
unfolding changes_since
changes_since_complete since limit x db h =
    let sorted : List Row = sort_by by_seq (keep (is_shared since) db.entries) in
    rw (reply_rows-pairs (take limit sorted)) (
      take_reaches limit x sorted (sort_by-Ascending (keep (is_shared since) db.entries))
        (has_seq-sort_by x (keep (is_shared since) db.entries) ∙ h))

All-take : (P : Row → Type 0) (n : ℕ) (rows : List Row) → All P rows → All P (take n rows)
All-take P zero rows h = tt
All-take P (suc n) [] h = tt
All-take P (suc n) (r ∷ rs) h = (h.0, All-take P n rs h.1)

keep-passes : (p : Row → Bool) (rows : List Row) → All (λ r. p r ≡ true) (keep p rows)
keep-passes p [] = tt
keep-passes p (r ∷ rs) = elim (Bool-cases (p r)) [
  | inl e ↦ rw e (e, keep-passes p rs)
  | inr e ↦ rw e (keep-passes p rs)
]

All-map :
    (P Q : Row → Type 0) → ((r : Row) → P r → Q r) → (rows : List Row) → All P rows → All Q rows
All-map P Q f [] h = tt
All-map P Q f (r ∷ rs) h = (f r h.0, All-map P Q f rs h.1)

abbrev pub IsPublic : ℕ → Row → Type 0
IsPublic since r =
    (r.sensitive ≡ false) × (since < r.change_seq) × ((r.deleted ≡ false) ⊎ (0 < r.deleted_at))

is_shared-IsPublic : (since : ℕ) (r : Row) → is_shared since r ≡ true → IsPublic since r
unfolding is_shared
is_shared-IsPublic since r e = ground arith

-- Every row that leaves through the feed changed after `since`, is not sensitive, and is either
-- live or a deletion with a time, so no retention eviction is shared.
pub changes_since-IsPublic :
    (since limit : ℕ) (db : Database)
    → All (IsPublic since) (reply_rows (changes_since since limit db))
unfolding changes_since
changes_since-IsPublic since limit db =
    rw (reply_rows-pairs (take limit (sort_by by_seq (keep (is_shared since) db.entries)))) (
      All-take _ limit _ (
        All-sort_by _ by_seq _
          (All-map _ _ (is_shared-IsPublic since) _ (keep-passes (is_shared since) db.entries))))

max_lamport_found :
    (i : ℕ) (rows : List Row) (r : Row)
    → row_by_id i rows ≡ some r
    → r.lamport < lamport_observe_limit
    → r.lamport ≤ max_where (λ r. ltb r.lamport lamport_observe_limit) (λ r. r.lamport) rows
unfolding row_by_id max_where
max_lamport_found i [] r e h = cc
max_lamport_found i (x ∷ xs) r e h = ground (arith, max_lamport_found i xs r)

-- The next local Lamport value is above the stored clock and above the value of every row that is
-- below the observe limit, and the stored clock becomes it.
pub tick_lamport_above :
    (i : ℕ) (db : Database) (r : Row)
    → row_by_id i db.entries ≡ some r
    → r.lamport < lamport_observe_limit
    → let (next, db') = tick_lamport db in
      (r.lamport < next) × (stored_clock db.lamport_clock < next) × (db'.lamport_clock ≡ some next)
unfolding tick_lamport
tick_lamport_above i db r e h =
    (omega (arith, max_lamport_found i db.entries r e h), omega arith, refl)
