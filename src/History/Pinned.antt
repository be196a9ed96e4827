-- ===== src/History/Pinned.antt =====
-- The entries that no retention call touches.
use panora.Prelude.{
  ℕ, ◌+◌, ◌≡◌, refl, sym, ap, ◌∙◌, Bool, true, false, not, ◌&&◌, ◌||◌, List, [], ◌∷◌, ◌++◌, ◌==◌,
  nat_eq, ==-refl, ==→eq, keep, contains, All, arith, if◌then◌else◌, Bool-cases, inl, inr, some,
  Result, ok, ltb, Result-cases,
}
use panora.Model.{ContentKind, kind_eq}
use panora.History.Defs.{Row, Database, Error, has_id, row_by_id, fts_delete}
use panora.History.Rows.{IsUnique, row_by_id→has_id}
use panora.History.Entries.{bury, bury_row, tombstone}
use panora.History.Retention.{
  is_evictable, ids_of, evict_loop, is_empty, saturating_add, tombstone_all, evict_ids, over_limit,
  over_kind, over_bytes, enforce_limit, enforce_age, expire_sensitive, enforce_kind_limit,
  enforce_total_bytes, clear_all,
}
use panora.History.Bounds.{All-sort_by, All-drop}
use panora.History.Calls.{bury_row-KeepsKeys}
use panora.History.Validity.{row_by_id-update_tracked}

-- A row that its id finds, and that a limit may evict.
record IsEvictable (db : Database) (r : Row) : Type 0 where
  found : row_by_id r.id db.entries ≡ some r
  evictable : is_evictable r ≡ true

All-IsFound : (rows : List Row) → IsUnique rows → All (λ r. row_by_id r.id rows ≡ some r) rows
unfolding row_by_id
All-IsFound [] u = tt
All-IsFound (r ∷ rs) u = (ground (arith, ==-refl r.id), later rs (All-IsFound rs u.2))
  where
    later :
        (xs : List Row)
        → All (λ x. row_by_id x.id rs ≡ some x) xs
        → All (λ x. (if r.id == x.id then some r else row_by_id x.id rs) ≡ some x) xs
    later [] h = tt
    later (x ∷ xs) h =
        (ground (arith, h.0, u.0, ==→eq r.id x.id, row_by_id→has_id x.id rs x), later xs h.1)

-- A selection of evictable rows.
keep-IsEvictable :
    (db : Database) (p : Row → Bool) (rows : List Row)
    → ((r : Row) → p r ≡ true → is_evictable r ≡ true)
    → All (λ r. row_by_id r.id db.entries ≡ some r) rows
    → All (IsEvictable db) (keep p rows)
keep-IsEvictable db p [] h f = tt
keep-IsEvictable db p (r ∷ rs) h f = elim (Bool-cases (p r)) [
  | inl e ↦ rw e (record { found = f.0; evictable = h r e }, keep-IsEvictable db p rs h f.1)
  | inr e ↦ rw e (keep-IsEvictable db p rs h f.1)
]

module _ (db : Database) (j : ℕ) (r : Row) (found : row_by_id j db.entries ≡ some r)
    (safe : is_evictable r ≡ false) where
  not_listed : (rows : List Row) → All (IsEvictable db) rows → contains (ids_of rows) j ≡ false
  not_listed [] h = refl
  not_listed (x ∷ xs) (hx, hs) =
      ground (arith, not_listed xs hs, hx.found, hx.evictable, found, safe, ==→eq x.id j)

  evict_loop-not_listed :
      (m used : ℕ) (evicted : List ℕ) (rows : List Row)
      → contains evicted j ≡ false
      → All (IsEvictable db) rows
      → contains (evict_loop m used evicted rows) j ≡ false
  unfolding evict_loop
  evict_loop-not_listed m used evicted [] c h = c
  evict_loop-not_listed m used evicted (x ∷ xs) c (hx, hs) =
      elim (Bool-cases (not (is_empty evicted) || ltb m (saturating_add used x.size_bytes))) [
        | inl e ↦
            rw (e, evict_loop)
              (evict_loop-not_listed m used (evicted ++ x.id ∷ []) xs
                (ground (
                  arith,
                  contains-snoc evicted x.id,
                  hx.found,
                  hx.evictable,
                  found,
                  safe,
                  ==→eq x.id j,
                ))
                hs)
        | inr e ↦ rw (e, evict_loop) (evict_loop-not_listed m (used + x.size_bytes) evicted xs c hs)
      ]
    where
      contains-snoc :
          (ids : List ℕ) (i : ℕ) → contains (ids ++ i ∷ []) j ≡ (contains ids j || i == j)
      contains-snoc [] i = ground arith
      contains-snoc (y ∷ ys) i = ground (arith, contains-snoc ys i)

-- The limits on the history, and the ids that each picks.
pub data Limit : Type 0 where
  entries : ℕ → Limit
  age : ℕ → Limit
  secrets : ℕ → Limit
  of_kind : ContentKind → ℕ → Limit
  bytes : ℕ → Limit
  everything : Limit

unfoldable pub enforce : Limit → Database → Result Error (List ℕ × Database)
enforce (entries n) db = enforce_limit n db
enforce (age t) db = enforce_age t db
enforce (secrets t) db = expire_sensitive t db
enforce (of_kind k n) db = enforce_kind_limit k n db
enforce (bytes n) db = enforce_total_bytes n db
enforce everything db = clear_all db

picked : Limit → Database → List ℕ
picked (entries n) db = over_limit n db
picked (age t) db = ids_of (keep (λ r. is_evictable r && ltb r.last_seen_at t) db.entries)
picked (secrets t) db =
    ids_of (keep (λ r. is_evictable r && r.sensitive && ltb r.last_seen_at t) db.entries)
picked (of_kind k n) db = over_kind k n db
picked (bytes n) db = over_bytes n db
picked everything db = ids_of (keep is_evictable db.entries)

enforce-picked : (l : Limit) (db : Database) → enforce l db ≡ evict_ids (picked l db) db
unfolding enforce picked enforce_limit enforce_age expire_sensitive enforce_kind_limit
    enforce_total_bytes clear_all
enforce-picked (entries n) db = refl
enforce-picked _ db = refl

picked-safe :
    (l : Limit) (db : Database) (j : ℕ) (r : Row)
    → IsUnique db.entries
    → row_by_id j db.entries ≡ some r
    → is_evictable r ≡ false
    → contains (picked l db) j ≡ false
unfolding picked over_limit over_kind over_bytes
picked-safe (entries n) db j r u f s = not_listed db j r f s _ (
    All-drop _ n _
      (All-sort_by _ _ _ (keep-IsEvictable db _ _ (λ x p. p) (All-IsFound db.entries u))))
picked-safe (age t) db j r u f s =
    not_listed db j r f s _
      (keep-IsEvictable db _ _ (λ x p. ground arith) (All-IsFound db.entries u))
picked-safe (secrets t) db j r u f s =
    not_listed db j r f s _
      (keep-IsEvictable db _ _ (λ x p. ground arith) (All-IsFound db.entries u))
picked-safe (of_kind k n) db j r u f s = not_listed db j r f s _ (
    All-drop _ n _ (
      All-sort_by _ _ _ (keep-IsEvictable db _ _ (λ x p. ground arith) (All-IsFound db.entries u))))
picked-safe (bytes n) db j r u f s =
    evict_loop-not_listed db j r f s n _ [] _ refl
      (All-sort_by _ _ _ (keep-IsEvictable db _ _ (λ x p. p) (All-IsFound db.entries u)))
picked-safe everything db j r u f s =
    not_listed db j r f s _ (keep-IsEvictable db _ _ (λ x p. p) (All-IsFound db.entries u))

bury-other :
    (i j now : ℕ) (db : Database)
    → (i == j) ≡ false
    → row_by_id j (bury i now db).entries ≡ row_by_id j db.entries
unfolding bury fts_delete
bury-other i j now db h =
    ground (arith, row_by_id-update_tracked i (bury_row now) (bury_row-KeepsKeys now) j db)

tombstone_all-other :
    (ids : List ℕ) (j : ℕ) (db db' : Database)
    → contains ids j ≡ false
    → tombstone_all ids db ≡ ok db'
    → row_by_id j db'.entries ≡ row_by_id j db.entries
unfolding tombstone_all tombstone
tombstone_all-other [] j db db' c e = ground arith
tombstone_all-other (i ∷ ids) j db db' c e = elim (Bool-cases (has_id i db.entries)) [
  | inl h ↦
      tombstone_all-other ids j (bury i 0 db) db' (ground arith) (rw h at e)
      ∙ bury-other i j 0 db (ground arith)
  | inr h ↦ absurd (cc (rw h at e))
]

-- With unique keys, when a limit on the history is enforced with success, the row of an entry that
-- is pinned or a tombstone stays as it is.
pub enforce-safe :
    (l : Limit) (db db' : Database) (ids : List ℕ) (j : ℕ) (r : Row)
    → IsUnique db.entries
    → row_by_id j db.entries ≡ some r
    → is_evictable r ≡ false
    → enforce l db ≡ ok (ids, db')
    → row_by_id j db'.entries ≡ some r
enforce-safe l db db' ids j r u f s e = elim (Result-cases (tombstone_all (picked l db) db)) [
  | inl (x, q) ↦
      let p : x ≡ db' = ground (arith, enforce-picked l db) in
      ap (λ (d : Database). row_by_id j d.entries) (sym p)
      ∙ tombstone_all-other (picked l db) j db x (picked-safe l db j r u f s) q
      ∙ f
  | inr (x, q) ↦ absurd (ground (arith, enforce-picked l db))
]
