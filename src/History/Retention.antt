-- ===== src/History/Retention.antt =====
-- storage/db.rs: the limits on the history. Every eviction is a tombstone with time 0, which the
-- next purge removes at once.
use panora.Prelude.{
  ℕ, ◌+◌, ◌-◌, ◌^◌, Bool, true, false, not, ◌&&◌, ◌||◌, List, [], ◌∷◌, ◌++◌, map, ◌==◌, nat_eq, min,
  keep, drop, ltb, if◌then◌else◌, Result, ok, ◌>>=◌,
}
use panora.Model.{ContentKind, kind_eq}
use panora.History.Defs.{Row, Database, Error}
use panora.History.Entries.{tombstone}

-- `SUM(column)` over the rows that pass the test.
unfoldable pub sum_where : (Row → Bool) → (Row → ℕ) → List Row → ℕ
sum_where p f [] = 0
sum_where p f (r ∷ rs) = if p r then f r + sum_where p f rs else sum_where p f rs

abbrev pub is_live : Row → Bool
is_live r = not r.deleted

abbrev pub is_evictable : Row → Bool
is_evictable r = not r.deleted && not r.pinned

unfoldable pub total_size : Database → ℕ
total_size db = sum_where is_live (λ r. r.size_bytes) db.entries

unfoldable pub count : Database → ℕ
count db = sum_where is_live (λ r. 1) db.entries

-- `ORDER BY`: `newer a b` says that `a` comes before `b`.
unfoldable pub insert_by : (Row → Row → Bool) → Row → List Row → List Row
insert_by newer r [] = r ∷ []
insert_by newer r (x ∷ xs) = if newer x r then x ∷ insert_by newer r xs else r ∷ x ∷ xs

unfoldable pub sort_by : (Row → Row → Bool) → List Row → List Row
unfolding insert_by
sort_by newer [] = []
sort_by newer (r ∷ rs) = insert_by newer r (sort_by newer rs)

-- `last_seen_at DESC`; SQLite leaves the order of equal times open, and the model keeps the table's.
abbrev pub by_time : Row → Row → Bool
by_time a b = ltb b.last_seen_at a.last_seen_at

-- `last_seen_at DESC, id DESC`.
abbrev pub by_time_and_id : Row → Row → Bool
by_time_and_id a b =
    ltb b.last_seen_at a.last_seen_at || (a.last_seen_at == b.last_seen_at && ltb b.id a.id)

abbrev pub ids_of : List Row → List ℕ
ids_of rows = map (λ r. r.id) rows

-- `for &id in &ids { self.tombstone(id, 0)?; }`.
unfoldable pub tombstone_all : List ℕ → Database → Result Error Database
tombstone_all [] db = ok db
tombstone_all (i ∷ ids) db = do (refs, db') ← tombstone i 0 db; tombstone_all ids db'

abbrev pub evict_ids : List ℕ → Database → Result Error (List ℕ × Database)
evict_ids ids db = do db' ← tombstone_all ids db; ok (ids, db')

unfoldable pub over_limit : ℕ → Database → List ℕ
unfolding sort_by
over_limit max_entries db =
    ids_of (drop max_entries (sort_by by_time (keep is_evictable db.entries)))

unfoldable pub enforce_limit : ℕ → Database → Result Error (List ℕ × Database)
unfolding over_limit tombstone_all
enforce_limit max_entries db = evict_ids (over_limit max_entries db) db

unfoldable pub enforce_age : ℕ → Database → Result Error (List ℕ × Database)
unfolding tombstone_all
enforce_age before db =
    evict_ids (ids_of (keep (λ r. is_evictable r && ltb r.last_seen_at before) db.entries)) db

unfoldable pub expire_sensitive : ℕ → Database → Result Error (List ℕ × Database)
unfolding tombstone_all
expire_sensitive before db =
    evict_ids
      (ids_of (keep (λ r. is_evictable r && r.sensitive && ltb r.last_seen_at before) db.entries))
      db

unfoldable pub over_kind : ContentKind → ℕ → Database → List ℕ
unfolding sort_by
over_kind kind max db =
    ids_of
      (drop max (sort_by by_time_and_id (keep (λ r. is_evictable r && r.kind == kind) db.entries)))

unfoldable pub enforce_kind_limit : ContentKind → ℕ → Database → Result Error (List ℕ × Database)
unfolding over_kind tombstone_all
enforce_kind_limit kind max db = evict_ids (over_kind kind max db) db

-- `u64::saturating_add`.
abbrev pub saturating_add : ℕ → ℕ → ℕ
saturating_add a b = min (a + b) (2 ^ 64 - 1)

abbrev pub is_empty : List ℕ → Bool
is_empty [] = true
is_empty (x ∷ xs) = false

-- The loop of `enforce_total_bytes`: from the first row that does not fit on, every row goes.
unfoldable pub evict_loop : ℕ → ℕ → List ℕ → List Row → List ℕ
evict_loop max_bytes used evicted [] = evicted
evict_loop max_bytes used evicted (r ∷ rs) =
    elim (not (is_empty evicted) || ltb max_bytes (saturating_add used r.size_bytes)) [
      | true ↦ evict_loop max_bytes used (evicted ++ r.id ∷ []) rs
      | false ↦ evict_loop max_bytes (used + r.size_bytes) evicted rs
    ]

unfoldable pub pinned_size : Database → ℕ
pinned_size db = sum_where (λ r. not r.deleted && r.pinned) (λ r. r.size_bytes) db.entries

unfoldable pub over_bytes : ℕ → Database → List ℕ
unfolding sort_by evict_loop pinned_size
over_bytes max_bytes db =
    evict_loop max_bytes (pinned_size db) [] (sort_by by_time_and_id (keep is_evictable db.entries))

unfoldable pub enforce_total_bytes : ℕ → Database → Result Error (List ℕ × Database)
unfolding over_bytes tombstone_all
enforce_total_bytes max_bytes db = evict_ids (over_bytes max_bytes db) db

unfoldable pub clear_all : Database → Result Error (List ℕ × Database)
unfolding tombstone_all
clear_all db = evict_ids (ids_of (keep is_evictable db.entries)) db
