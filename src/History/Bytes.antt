-- ===== src/History/Bytes.antt =====
-- The byte limit of the history: what `enforce_total_bytes` keeps.
use panora.Prelude.{
  ℕ, ◌+◌, ◌-◌, ◌≤◌, ◌<◌, ◌^◌, ◌≡◌, refl, Bool, true, not, ◌&&◌, ◌||◌, List, [], ◌∷◌, ◌++◌, nat_eq,
  ==-refl, keep, contains, All, All-append, arith, Bool-cases, inl, inr, ok, max, ltb,
}
use panora.History.Defs.{Row, Database, stamp_seq}
use panora.History.Entries.{bury_row}
use panora.History.Retention.{
  sum_where, is_live, is_evictable, total_size, sort_by, by_time_and_id, evict_loop, pinned_size,
  over_bytes, enforce_total_bytes, is_empty, saturating_add, tombstone_all,
}
use panora.History.Bounds.{
  Buried, bury_all, AllHeld, Held, All-keep, All-sort_by, All-Held, tombstone_all-bury_all,
  evicted_sum, unlisted, sum_where-bury_all, sum_where-sort_by, sum_where-keep, evictable-Buried,
}

contains-append_left :
    (i : ℕ) (xs ys : List ℕ) → contains xs i ≡ true → contains (xs ++ ys) i ≡ true
contains-append_left i [] ys h = cc
contains-append_left i (x ∷ xs) ys h = ground (arith, contains-append_left i xs ys)

contains-append_last : (i : ℕ) (xs : List ℕ) → contains (xs ++ i ∷ []) i ≡ true
contains-append_last i [] = ground (arith, ==-refl i)
contains-append_last i (x ∷ xs) = ground (arith, contains-append_last i xs)

-- What the loop has picked stays picked.
evict_loop-keeps :
    (m used : ℕ) (evicted : List ℕ) (rows : List Row) (i : ℕ)
    → contains evicted i ≡ true
    → contains (evict_loop m used evicted rows) i ≡ true
unfolding evict_loop
evict_loop-keeps m used evicted [] i h = h
evict_loop-keeps m used evicted (r ∷ rs) i h = ground (
  arith,
  contains-append_left i evicted (r.id ∷ []),
  evict_loop-keeps m used (evicted ++ r.id ∷ []) rs i,
  evict_loop-keeps m (used + r.size_bytes) evicted rs i,
)

evict_loop-bound :
    (m used : ℕ) (evicted : List ℕ) (rows : List Row)
    → m < 2 ^ 64 - 1
    → used + sum_where (unlisted (evict_loop m used evicted rows)) (λ r. r.size_bytes) rows
      ≤ max m used
unfolding evict_loop sum_where unlisted
evict_loop-bound m used evicted [] h = omega arith
evict_loop-bound m used evicted (r ∷ rs) h = ground (
  arith,
  contains-append_last r.id evicted,
  evict_loop-keeps m used (evicted ++ r.id ∷ []) rs r.id,
  evict_loop-bound m used (evicted ++ r.id ∷ []) rs h,
  evict_loop-bound m (used + r.size_bytes) evicted rs h,
)

-- With room for every row the loop picks none.
evict_loop-none :
    (m used : ℕ) (rows : List Row)
    → used + sum_where (λ _. true) (λ r. r.size_bytes) rows ≤ m
    → evict_loop m used [] rows ≡ []
unfolding evict_loop sum_where
evict_loop-none m used [] h = refl
evict_loop-none m used (r ∷ rs) h = ground (arith, evict_loop-none m (used + r.size_bytes) rs)

evict_loop-AllHeld :
    (m used : ℕ) (evicted : List ℕ) (rows : List Row) (db : Database)
    → AllHeld evicted db
    → All (Held db) rows
    → AllHeld (evict_loop m used evicted rows) db
unfolding evict_loop
evict_loop-AllHeld m used evicted [] db a h = a
evict_loop-AllHeld m used evicted (r ∷ rs) db a h =
    elim (Bool-cases (not (is_empty evicted) || ltb m (saturating_add used r.size_bytes))) [
      | inl e ↦
          rw (e, evict_loop)
            (evict_loop-AllHeld m used (evicted ++ r.id ∷ []) rs db
              (All-append _ evicted _ a (h.0, tt)) h.1)
      | inr e ↦ rw (e, evict_loop) (evict_loop-AllHeld m (used + r.size_bytes) evicted rs db a h.1)
    ]

over_bytes-AllHeld : (m : ℕ) (db : Database) → AllHeld (over_bytes m db) db
unfolding over_bytes
over_bytes-AllHeld m db =
    evict_loop-AllHeld m _ [] _ db tt
      (All-sort_by (Held db) by_time_and_id _ (All-keep (Held db) is_evictable _ (All-Held db)))

abbrev is_kept_pinned : Row → Bool
is_kept_pinned r = not r.deleted && r.pinned

sum_where-split :
    (f : Row → ℕ) (rows : List Row)
    → sum_where is_live f rows ≡ sum_where is_kept_pinned f rows + sum_where is_evictable f rows
unfolding sum_where
sum_where-split f [] = omega arith
sum_where-split f (r ∷ rs) = ground (arith, sum_where-split f rs)

sum_where-and-le :
    (p q : Row → Bool) (f : Row → ℕ) (rows : List Row)
    → sum_where (λ r. p r && q r) f rows ≤ sum_where q f rows
unfolding sum_where
sum_where-and-le p q f [] = omega arith
sum_where-and-le p q f (r ∷ rs) = ground (arith, sum_where-and-le p q f rs)

pinned-Buried : (f : Row → ℕ) → Buried is_kept_pinned f
unfolding stamp_seq bury_row
pinned-Buried f = record { gone = λ n r. refl }

-- For a limit below 2^64 - 1, `enforce_total_bytes` succeeds, and the live entries that it leaves
-- take at most the limit, or what the pinned ones take where that is more.
pub enforce_total_bytes-bound :
    (m : ℕ) (db : Database)
    → m < 2 ^ 64 - 1
    → (ids : List ℕ) × (db' : Database) × (enforce_total_bytes m db ≡ ok (ids, db'))
      × (total_size db' ≤ max m (pinned_size db))
unfolding enforce_total_bytes total_size
enforce_total_bytes-bound m db h = (
  over_bytes m db,
  bury_all (over_bytes m db) db,
  rw (tombstone_all-bury_all (over_bytes m db) db (over_bytes-AllHeld m db)),
  bound,
)
  where
    size : Row → ℕ
    size r = r.size_bytes

    after : List Row
    after = (bury_all (over_bytes m db) db).entries

    pinned : sum_where is_kept_pinned size after ≤ pinned_size db
    pinned =
        unfold pinned_size in
        rw (sum_where-bury_all is_kept_pinned size (pinned-Buried size) (over_bytes m db) db)
          (sum_where-and-le _ is_kept_pinned size db.entries)

    others : pinned_size db + sum_where is_evictable size after ≤ max m (pinned_size db)
    others =
        rw
          (evicted_sum by_time_and_id is_evictable size (over_bytes m db) db
            (evictable-Buried size))
          (unfold over_bytes in evict_loop-bound m (pinned_size db) [] _ h)

    bound : sum_where is_live size after ≤ max m (pinned_size db)
    bound = omega (arith, sum_where-split size after, pinned, others)

-- A history whose live entries take at most `max_bytes` is left as it is, and nothing is evicted.
pub enforce_total_bytes_idle :
    (m : ℕ) (db : Database) → total_size db ≤ m → enforce_total_bytes m db ≡ ok ([], db)
unfolding enforce_total_bytes over_bytes tombstone_all
enforce_total_bytes_idle m db h = rw (evict_loop-none m (pinned_size db) _ fits)
  where
    size : Row → ℕ
    size r = r.size_bytes

    fits :
        pinned_size db
          + sum_where (λ _. true) size (sort_by by_time_and_id (keep is_evictable db.entries))
        ≤ m
    fits =
        unfold pinned_size in
        rw
          (
            sum_where-sort_by by_time_and_id (λ _. true) size (keep is_evictable db.entries),
            sum_where-keep (λ _. true) is_evictable size db.entries,
          )
          (unfold total_size in omega (arith, sum_where-split size db.entries))
