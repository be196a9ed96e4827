-- ===== src/History/Examples.antt =====
-- Runs of the history operations on a small history.
use panora.Prelude.{
  ℕ, ◌+◌, ◌≤◌, ◌≡◌, refl, Bool, true, false, Option, none, some, List, [], ◌∷◌, Text, codes, ◌==◌,
  nat_eq, list_eq, max, ◌&&◌, not, map, ==-refl, contains, ◌<◌, ltb, All, length, arith,
  if◌then◌else◌, ok, ◌>>=◌, ◌⊎◌,
}
use panora.Model.{clipboard, text}
use panora.History.Defs.{
  Row, Database, row_by_id, row_by_key, has_id, update_plain, update_tracked, update_rows,
  fts_delete, max_where,
}
use panora.History.Rows.{IsUnique, has_key}
use panora.History.Entries.{
  Cipher, Capture, upsert_entry, touch, place, bump_row, bumped_time, bury, tombstone, restore,
}
use panora.History.Blobs.{purge, strip_tombstones, refs_of}
use panora.History.Retention.{
  sum_where, is_evictable, enforce_limit, enforce_total_bytes, total_size, pinned_size, clear_all,
  tombstone_all,
}
use panora.History.Feed.{is_shared, changes_since, tick_lamport}
use panora.History.Keyring.{rekey, rekey_rows, rekey_row, open_any}
use panora.History.Validity.{IsValid}
use panora.History.Calls.{
  Call, upserts, pins, attaches, buries, limits, created, created-IsValid, run, run-IsValid,
}
use panora.History.Calls.{ticks, observes, rekeys}
use panora.History.Feed.{lamport_ceiling}
use panora.History.Clock.{tick_count, tick_of, tick_lamport_below}
use panora.History.Bounds.{enforce_limit-bound}
use panora.History.Bytes.{enforce_total_bytes-bound, enforce_total_bytes_idle}
use panora.History.Pinned.{enforce, everything, enforce-safe}
use panora.History.Placement.{Placed, upsert_entry-Placed, touch_newest}
use panora.History.Resume.{
  changes_since_complete, changes_since-IsPublic, IsPublic, tick_lamport_above, reply_rows,
}
use panora.History.Sequence.{has_seq}
use panora.History.Orphans.{purge_frees, strip_tombstones_frees}
use panora.History.Undo.{restore-tombstone, undone, Opens, Rekeyed, rekey-Rekeyed}

-- A cipher that prefixes a mark.
abbrev unseal : ℕ → Text → Option Text
unseal k [] = none
unseal k (x ∷ xs) = if x == k then some xs else none

abbrev keyed : ℕ → Cipher
keyed k = record {
  fingerprint = k ∷ [];
  seal_text_with_aad = λ aad t. some (k ∷ t);
  open_text_with_aad = λ aad t. unseal k t;
  open_text = unseal k;
}

abbrev shot : ℕ → ℕ → Capture
shot n now = record {
  content_hash = n ∷ [];
  preview = (50 + n) ∷ [];
  kind = text;
  primary_mime = codes "text/plain";
  size_bytes = 10 + n;
  source_app = none;
  selection = clipboard;
  now = now;
  device_id = codes "dev";
  lamport = n;
  bump_on_duplicate = true;
}

abbrev calls : List Call
calls =
    upserts (shot 1 100)
    ∷ attaches 1 (codes "text/plain") (7 ∷ [])
    ∷ upserts (shot 2 101)
    ∷ attaches 2 (codes "text/plain") (8 ∷ [])
    ∷ pins 1 true
    ∷ upserts (shot 3 99)
    ∷ []

abbrev under : ℕ → List Call → List (Cipher × Call)
under k cs = map (λ call. (keyed k, call)) cs

abbrev history : Database
history = run (under 5 calls) (created (keyed 5))

history-IsValid : IsValid history
history-IsValid = run-IsValid (under 5 calls) (created (keyed 5)) (created-IsValid (keyed 5))

-- A deletion, a rotation to the key 6, and a limit under that key.
abbrev rotation : List (Cipher × Call)
rotation = (keyed 5, buries 2 105) ∷ (keyed 5, rekeys (keyed 6)) ∷ (keyed 6, limits 0) ∷ []

run-IsValid_example : IsValid (run rotation history)
run-IsValid_example = run-IsValid rotation history history-IsValid

-- Three entries: one pinned, one old, one deleted at 107.
abbrev row : ℕ → Bool → ℕ → Row
row n pinned deleted_at = record {
  id = n;
  content_hash = n ∷ [];
  preview = 5 ∷ (50 + n) ∷ [];
  kind = text;
  primary_mime = codes "text/plain";
  size_bytes = 10 + n;
  source_app = none;
  selection = clipboard;
  created_at = 100 + n;
  last_seen_at = 100 + n;
  pinned = pinned;
  sensitive = false;
  device_id = codes "dev";
  lamport = n;
  deleted = ltb 0 deleted_at;
  deleted_at = deleted_at;
  change_seq = n;
}

abbrev shelf : Database
shelf = record {
  entries = row 1 true 0 ∷ row 2 false 0 ∷ row 3 false 107 ∷ row 4 false 0 ∷ [];
  entry_blobs =
      record { entry_id = 1; mime = []; blob_ref = 7 ∷ [] }
      ∷ record { entry_id = 3; mime = []; blob_ref = 7 ∷ [] }
      ∷ record { entry_id = 3; mime = 1 ∷ []; blob_ref = 8 ∷ [] }
      ∷ [];
  entries_fts = [];
  change_seq = 4;
  lamport_clock = some 9;
  key_fingerprint = none;
  rotation_state = none;
  lock_verifier = none;
  lock_kek_salt = none;
}

shelf-IsUnique : IsUnique shelf.entries
unfolding has_id has_key
shelf-IsUnique = (refl, refl, (refl, refl, (refl, refl, (refl, refl, tt))))

abbrev revived : Database
revived = (place (shot 3 120) (5 ∷ 53 ∷ []) (row_by_key (3 ∷ []) clipboard shelf.entries) shelf).1

upsert_entry-Placed_example : Placed (shot 3 120) 3 shelf revived
unfolding upsert_entry row_by_key place
upsert_entry-Placed_example =
    upsert_entry-Placed (keyed 5) (shot 3 120) shelf revived 3 shelf-IsUnique refl

touch_newest_example : (104 < 105) × (90 ≤ 105)
unfolding touch row_by_id update_plain bump_row bumped_time max_where
touch_newest_example = touch_newest 2 4 90 shelf _ _ _ refl refl refl refl

enforce_limit-bound_example :
    (ids : List ℕ) × (db' : Database) × (enforce_limit 1 shelf ≡ ok (ids, db'))
    × (sum_where is_evictable (λ _. 1) db'.entries ≤ 1)
enforce_limit-bound_example = enforce_limit-bound 1 shelf

enforce_total_bytes-bound_example :
    (ids : List ℕ) × (db' : Database) × (enforce_total_bytes 20 shelf ≡ ok (ids, db'))
    × (total_size db' ≤ max 20 (pinned_size shelf))
enforce_total_bytes-bound_example = enforce_total_bytes-bound 20 shelf (omega arith)

test_idle : enforce_total_bytes 40 shelf ≡ ok ([], shelf)
unfolding total_size sum_where
test_idle = enforce_total_bytes_idle 40 shelf (omega arith)

abbrev cleared : Database
cleared = bury 4 0 (bury 2 0 shelf)

enforce-safe_example : row_by_id 1 cleared.entries ≡ some (row 1 true 0)
unfolding enforce clear_all tombstone_all tombstone row_by_id bury update_tracked fts_delete has_id
    update_rows
enforce-safe_example =
    enforce-safe everything shelf cleared (2 ∷ 4 ∷ []) 1 (row 1 true 0) shelf-IsUnique refl refl
      refl

changes_since_complete_example :
    let rows = reply_rows (changes_since 1 2 shelf) in
    (has_seq 4 rows ≡ true) ⊎ (All (λ r. r.change_seq < 4) rows × (length rows ≡ 2))
unfolding is_shared has_seq
changes_since_complete_example = changes_since_complete 1 2 4 shelf refl

changes_since-IsPublic_example : All (IsPublic 1) (reply_rows (changes_since 1 2 shelf))
changes_since-IsPublic_example = changes_since-IsPublic 1 2 shelf

tick_lamport_above_example :
    let (next, db') = tick_lamport shelf in
    (4 < next) × (9 < next) × (db'.lamport_clock ≡ some next)
unfolding row_by_id
tick_lamport_above_example = tick_lamport_above 4 shelf (row 4 false 0) refl (omega arith)

purge_frees_example :
    let (freed, db') = purge (3 ∷ 1 ∷ []) shelf in
    contains freed (8 ∷ []) ≡ (
      contains (refs_of shelf.entry_blobs) (8 ∷ [])
      && not (contains (refs_of db'.entry_blobs) (8 ∷ [])))
purge_frees_example = purge_frees (8 ∷ []) (3 ∷ 1 ∷ []) shelf

strip_tombstones_frees_example :
    let (freed, db') = strip_tombstones 110 shelf in
    contains freed (8 ∷ []) ≡ (
      contains (refs_of shelf.entry_blobs) (8 ∷ [])
      && not (contains (refs_of db'.entry_blobs) (8 ∷ [])))
strip_tombstones_frees_example = strip_tombstones_frees (8 ∷ []) 110 shelf

restore-tombstone_example :
    (db' : Database) × ((do (refs, buried) ← tombstone 2 200 shelf; restore (keyed 5) 2 buried)
      ≡ ok db')
    × ((j : ℕ)
        → row_by_id j db'.entries
          ≡ (if 2 == j then some (undone 6 (row 2 false 0)) else row_by_id j shelf.entries))
unfolding row_by_id
restore-tombstone_example = restore-tombstone (keyed 5) 2 200 shelf (row 2 false 0) refl

keyed-Opens : (k : ℕ) → Opens (keyed k)
keyed-Opens k aad t s e = ground (arith, ==-refl k)

abbrev rotated : Database
rotated = record shelf {
  entries = map {A = Row} (λ r. record r { preview = 6 ∷ (50 + r.id) ∷ [] }) shelf.entries;
  key_fingerprint = some (6 ∷ []);
}

rekey-Rekeyed_example :
    Rekeyed (keyed 5) (keyed 6) shelf.entries rotated.entries
    × (rotated ≡ record shelf { entries = rotated.entries; key_fingerprint = some (6 ∷ []) })
unfolding rekey rekey_rows rekey_row open_any
rekey-Rekeyed_example = rekey-Rekeyed (keyed 5) (keyed 6) shelf rotated (keyed-Opens 6) refl

abbrev observed : List (Cipher × Call)
observed =
    (keyed 5, ticks)
    ∷ (keyed 5, observes 4503599627370495)
    ∷ (keyed 5, rekeys (keyed 6))
    ∷ (keyed 6, ticks)
    ∷ []

tick_lamport_below_example : (tick_lamport (run observed (created (keyed 5)))).0 < lamport_ceiling
unfolding tick_count tick_of
tick_lamport_below_example =
    tick_lamport_below (keyed 5) observed (tt, (omega arith, (tt, (tt, tt)))) (omega arith)
