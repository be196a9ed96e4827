-- ===== src/History/Clock.antt =====
-- storage/db.rs: how far the Lamport clock goes; sync.rs, `LAMPORT_OBSERVE_LIMIT`.
use panora.Prelude.{
  ℕ, ◌+◌, ◌-◌, ◌^◌, ◌≤◌, ◌<◌, ◌≡◌, refl, ◌∙◌, ap, List, [], ◌∷◌, Text, nat_eq, All, max, ltb, map,
  keep, ◌&&◌, arith, Bool-cases, Option-cases, inl, inr, Option, none, some, Result, ok, err, ◌>>=◌,
  Result-cases,
}
use panora.History.Defs.{
  Row, Database, Error, has_id, row_by_id, row_by_key, max_where, update_plain, update_tracked,
  fts_delete, fts_insert,
}
use panora.History.Entries.{
  Cipher, Capture, upsert_entry, place, insert_entry, revive_entry, bump_entry, preview_aad,
  changed, pin_row, stamp_row, time_row, remote_row, set_pinned, stamp, set_times,
  apply_remote_state, touch, mark_sensitive, bury, tombstone, unbury, restore, index_content,
}
use panora.History.Blobs.{
  attach_blob, put_blob, detach_blob, strip_tombstones, drop_blobs_where, purge_row, purge_loop,
  purge, is_tombstoned, purge_tombstones,
}
use panora.History.Retention.{
  tombstone_all, evict_ids, enforce_limit, enforce_age, expire_sensitive, enforce_kind_limit,
  enforce_total_bytes, clear_all,
}
use panora.History.Feed.{
  tick_lamport, observe_lamport, stored_clock, lamport_observe_limit, lamport_ceiling,
}
use panora.History.Keyring.{set_rotation_state, set_lock_secret, rekey, wipe}
use panora.History.Resealed.{rekey-lamport_clock}
use panora.History.Calls.{
  Call, upserts, pins, stamps, sets_times, takes_over, touches, flags, buries, restores, indexes,
  attaches, detaches, strips, purges, purges_before, limits, ages, expires, limits_kind,
  limits_bytes, clears, ticks, observes, rotates, locks, rekeys, wipes, outcome, step, run, created,
  database_of,
}

-- A result whose clock is the one before.
abbrev SameClock : Database → Result Error Database → Type 0
SameClock db (ok db') = db'.lamport_clock ≡ db.lamport_clock
SameClock db (err e) = Unit {0}

clock-update_tracked :
    (i : ℕ) (f : Row → Row) (db : Database)
    → (update_tracked i f db).lamport_clock ≡ db.lamport_clock
unfolding update_tracked
clock-update_tracked i f db = ground arith

changed-SameClock :
    (i : ℕ) (db : Database) (f : Database → Database)
    → (f db).lamport_clock ≡ db.lamport_clock
    → SameClock db (changed i db f)
unfolding changed
changed-SameClock i db f h = elim (Bool-cases (has_id i db.entries)) [
  | inl e ↦ rw e h
  | inr e ↦ rw e tt
]

clock-bury : (i now : ℕ) (db : Database) → (bury i now db).lamport_clock ≡ db.lamport_clock
unfolding bury fts_delete
clock-bury i now db = clock-update_tracked i _ db

tombstone-SameClock : (i now : ℕ) (db : Database) → SameClock db (database_of (tombstone i now db))
unfolding tombstone
tombstone-SameClock i now db = elim (Bool-cases (has_id i db.entries)) [
  | inl e ↦ rw e (clock-bury i now db)
  | inr e ↦ rw e tt
]

bind-SameClock :
    (db : Database) (r : Result Error (List Text × Database))
    (k : List Text × Database → Result Error Database)
    → SameClock db (database_of r)
    → ((refs : List Text) (mid : Database) → SameClock mid (k (refs, mid)))
    → SameClock db (r >>= k)
bind-SameClock db (err e) k h g = tt
bind-SameClock db (ok (refs, mid)) k h g = go (k (refs, mid)) (g refs mid)
  where
    go : (r : Result Error Database) → SameClock mid r → SameClock db r
    go (ok x) p = p ∙ h
    go (err e) p = tt

tombstone_all-SameClock : (ids : List ℕ) (db : Database) → SameClock db (tombstone_all ids db)
unfolding tombstone_all
tombstone_all-SameClock [] db = refl
tombstone_all-SameClock (i ∷ ids) db =
    bind-SameClock db (tombstone i 0 db) _ (tombstone-SameClock i 0 db)
      λ refs mid. tombstone_all-SameClock ids mid

evict_ids-SameClock : (ids : List ℕ) (db : Database) → SameClock db (database_of (evict_ids ids db))
evict_ids-SameClock ids db = go (tombstone_all ids db) (tombstone_all-SameClock ids db)
  where
    go :
        (r : Result Error Database)
        → SameClock db r
        → SameClock db (database_of (r >>= λ x. ok (ids, x)))
    go (ok x) h = h
    go (err e) h = tt

clock-purge_loop :
    (ids : List ℕ) (refs : List Text) (db : Database)
    → (purge_loop ids refs db).1.lamport_clock ≡ db.lamport_clock
unfolding purge_loop
clock-purge_loop [] refs db = refl
clock-purge_loop (i ∷ ids) refs db = elim (Bool-cases (is_tombstoned i db)) [
  | inl e ↦
      rw (e, purge_loop)
        (clock-purge_loop ids _ (purge_row i db) ∙ (unfold purge_row fts_delete in refl))
  | inr e ↦ rw (e, purge_loop) (clock-purge_loop ids refs db)
]

clock-place :
    (c : Capture) (sealed : Text) (found : Option Row) (db : Database)
    → (place c sealed found db).1.lamport_clock ≡ db.lamport_clock
unfolding place insert_entry revive_entry bump_entry fts_insert fts_delete update_plain
    update_tracked
clock-place c sealed none db = refl
clock-place c sealed (some r) db = ground arith

upserts-SameClock :
    (c : Cipher) (a : Capture) (db : Database) → SameClock db (database_of (upsert_entry c a db))
unfolding upsert_entry
upserts-SameClock c a db =
    elim (Option-cases (c.seal_text_with_aad (preview_aad a.content_hash) a.preview)) [
      | inl e ↦ rw e tt
      | inr (sealed, e) ↦
          rw e (clock-place a sealed (row_by_key a.content_hash a.selection db.entries) db)
    ]

-- An update of a tracked column, and one of other columns.
tracked-SameClock :
    (i : ℕ) (f : Row → Row) (db : Database) → SameClock db (changed i db (update_tracked i f))
tracked-SameClock i f db = changed-SameClock i db (update_tracked i f) (clock-update_tracked i f db)

set_times-SameClock : (i x y : ℕ) (db : Database) → SameClock db (set_times i x y db)
unfolding set_times update_plain
set_times-SameClock i x y db = changed-SameClock i db (update_plain i (time_row x y)) refl

touch-SameClock : (i now : ℕ) (db : Database) → SameClock db (touch i now db)
unfolding touch update_plain
touch-SameClock i now db = elim (Option-cases (row_by_id i db.entries)) [
  | inl e ↦ rw (e, SameClock) tt
  | inr (r, e) ↦
      rw (e, SameClock) (elim (Bool-cases r.deleted) [ inl d ↦ rw d tt | inr d ↦ rw d refl ])
]

restore-SameClock : (c : Cipher) (i : ℕ) (db : Database) → SameClock db (restore c i db)
unfolding restore unbury fts_insert fts_delete
restore-SameClock c i db = elim (Option-cases (row_by_id i db.entries)) [
  | inl e ↦ rw e tt
  | inr (r, e) ↦ rw e (elim (Bool-cases r.deleted) [
    | inl d ↦ rw d (clock-update_tracked i _ db)
    | inr d ↦ rw d refl
  ])
]

rekeys-SameClock : (old new : Cipher) (db : Database) → SameClock db (rekey old new db)
rekeys-SameClock old new db = elim (Result-cases (rekey old new db)) [
  | inl (db', e) ↦ rw e (rekey-lamport_clock old new db db' e)
  | inr (x, e) ↦ rw e tt
]

attach_blob-SameClock : (i : ℕ) (m b : Text) (db : Database) → SameClock db (attach_blob i m b db)
unfolding attach_blob put_blob
attach_blob-SameClock i m b db = elim (Bool-cases (has_id i db.entries)) [
  | inl e ↦ rw e refl
  | inr e ↦ rw e tt
]

-- Calls that set the clock, and by how much at most.
unfoldable pub tick_of : Call → ℕ
tick_of ticks = 1
tick_of call = 0

unfoldable pub tick_count : List (Cipher × Call) → ℕ
unfolding tick_of
tick_count [] = 0
tick_count ((c, call) ∷ calls) = tick_of call + tick_count calls

-- The daemon lets the clock follow only values below the limit.
abbrev pub IsObserved : Call → Type 0
IsObserved (observes n) = n < lamport_observe_limit
IsObserved _ = Unit {0}

abbrev clock : Database → ℕ
clock db = stored_clock db.lamport_clock

-- A result whose clock is at most `n`.
abbrev ClockBelow : ℕ → Result Error Database → Type 0
ClockBelow n (ok db) = clock db ≤ n
ClockBelow n (err e) = Unit {0}

same-ClockBelow :
    (n m : ℕ) (db : Database) (r : Result Error Database)
    → SameClock db r
    → clock db ≤ n
    → ClockBelow (n + m) r
same-ClockBelow n m db (ok db') h b =
    let w : clock db' ≡ clock db = ap stored_clock h in omega arith
same-ClockBelow n m db (err e) h b = tt

max_where-below :
    (rows : List Row)
    → max_where (λ r. ltb r.lamport lamport_observe_limit) (λ r. r.lamport) rows
      < lamport_observe_limit
unfolding max_where
max_where-below [] = omega arith
max_where-below (r ∷ rs) = ground (arith, max_where-below rs)

tick-ClockBelow :
    (n : ℕ) (db : Database)
    → lamport_observe_limit ≤ n + 1
    → clock db ≤ n
    → clock (tick_lamport db).1 ≤ n + 1
unfolding tick_lamport
tick-ClockBelow n db l b = omega (arith, max_where-below db.entries)

observe-ClockBelow :
    (n m seen : ℕ) (db : Database)
    → lamport_observe_limit ≤ n + 1
    → seen < lamport_observe_limit
    → clock db ≤ n
    → clock (observe_lamport seen db) ≤ n + m
unfolding observe_lamport
observe-ClockBelow n m seen db l s b = go db.lamport_clock b
  where
    go :
        (c : Option ℕ)
        → stored_clock c ≤ n
        → stored_clock (elim c [ none ↦ some seen | some k ↦ some (max k seen) ]) ≤ n + m
    go none h = omega arith
    go (some k) h = omega arith

outcome-ClockBelow :
    (c : Cipher) (call : Call) (n : ℕ) (db : Database)
    → IsObserved call
    → lamport_observe_limit ≤ n + 1
    → clock db ≤ n
    → ClockBelow (n + tick_of call) (outcome c call db)
unfolding outcome tick_of set_pinned stamp apply_remote_state update_plain mark_sensitive
    index_content detach_blob strip_tombstones drop_blobs_where purge purge_tombstones enforce_limit
    enforce_age expire_sensitive enforce_kind_limit enforce_total_bytes clear_all wipe
    set_lock_secret set_rotation_state
outcome-ClockBelow c (upserts a) n db o l b = same-ClockBelow n 0 db _ (upserts-SameClock c a db) b
outcome-ClockBelow c (pins i p) n db o l b =
    same-ClockBelow n 0 db _ (tracked-SameClock i (pin_row p) db) b
outcome-ClockBelow c (stamps i k d) n db o l b =
    same-ClockBelow n 0 db _ (tracked-SameClock i (stamp_row k d) db) b
outcome-ClockBelow c (sets_times i x y) n db o l b =
    same-ClockBelow n 0 db _ (set_times-SameClock i x y db) b
outcome-ClockBelow c (takes_over i s) n db o l b =
    same-ClockBelow n 0 db _ (tracked-SameClock i (remote_row s) db) b
outcome-ClockBelow c (touches i now) n db o l b =
    same-ClockBelow n 0 db _ (touch-SameClock i now db) b
outcome-ClockBelow c (flags i) n db o l b = omega arith
outcome-ClockBelow c (buries i now) n db o l b =
    same-ClockBelow n 0 db _ (tombstone-SameClock i now db) b
outcome-ClockBelow c (restores i) n db o l b = same-ClockBelow n 0 db _ (restore-SameClock c i db) b
outcome-ClockBelow c (indexes i t) n db o l b = omega arith
outcome-ClockBelow c (attaches i m r) n db o l b =
    same-ClockBelow n 0 db _ (attach_blob-SameClock i m r db) b
outcome-ClockBelow c (detaches i m) n db o l b = omega arith
outcome-ClockBelow c (strips t) n db o l b = omega arith
outcome-ClockBelow c (purges ids) n db o l b =
    omega (arith, ap stored_clock (clock-purge_loop ids [] db))
outcome-ClockBelow c (purges_before t) n db o l b = omega (
  arith,
  ap stored_clock (
      clock-purge_loop (map (λ r. r.id) (keep (λ r. r.deleted && ltb r.deleted_at t) db.entries)) []
        db),
)
outcome-ClockBelow c (limits k) n db o l b = same-ClockBelow n 0 db _ (evict_ids-SameClock _ db) b
outcome-ClockBelow c (ages t) n db o l b = same-ClockBelow n 0 db _ (evict_ids-SameClock _ db) b
outcome-ClockBelow c (expires t) n db o l b = same-ClockBelow n 0 db _ (evict_ids-SameClock _ db) b
outcome-ClockBelow c (limits_kind k m) n db o l b =
    same-ClockBelow n 0 db _ (evict_ids-SameClock _ db) b
outcome-ClockBelow c (limits_bytes m) n db o l b =
    same-ClockBelow n 0 db _ (evict_ids-SameClock _ db) b
outcome-ClockBelow c clears n db o l b = same-ClockBelow n 0 db _ (evict_ids-SameClock _ db) b
outcome-ClockBelow c ticks n db o l b = tick-ClockBelow n db l b
outcome-ClockBelow c (observes seen) n db o l b = observe-ClockBelow n 0 seen db l o b
outcome-ClockBelow c (rotates s) n db o l b = omega arith
outcome-ClockBelow c (locks (some s)) n db o l b = omega arith
outcome-ClockBelow c (locks none) n db o l b = omega arith
outcome-ClockBelow c (rekeys new) n db o l b =
    same-ClockBelow n 0 db _ (rekeys-SameClock c new db) b
outcome-ClockBelow c wipes n db o l b = omega arith

-- After any calls the clock is at most the observed range, or where it was before, and one more for
-- every tick.
pub clock-bound :
    (calls : List (Cipher × Call)) (n : ℕ) (db : Database)
    → All (λ x. IsObserved x.1) calls
    → lamport_observe_limit ≤ n + 1
    → clock db ≤ n
    → clock (run calls db) ≤ n + tick_count calls
unfolding run step tick_count
clock-bound [] n db o l b = omega arith
clock-bound ((c, call) ∷ calls) n db o l b = omega (
  arith,
  clock-bound calls (n + tick_of call) (step c call db) o.1 (omega arith)
      (step-ClockBelow (outcome c call db) (outcome-ClockBelow c call n db o.0 l b)),
)
  where
    step-ClockBelow :
        (r : Result Error Database)
        → ClockBelow (n + tick_of call) r
        → clock (elim r [ ok db' ↦ db' | err e ↦ db ]) ≤ n + tick_of call
    step-ClockBelow (ok db') h = h
    step-ClockBelow (err e) h = omega arith

-- From a new history, after any calls that change the open database, key rotations among them,
-- that observe only values below the observe limit and that tick fewer than 2^52 times, the next
-- Lamport value of this device is below the ceiling, whatever values peers put into its rows.
pub tick_lamport_below :
    (c : Cipher) (calls : List (Cipher × Call))
    → All (λ x. IsObserved x.1) calls
    → tick_count calls < 2 ^ 52
    → (tick_lamport (run calls (created c))).0 < lamport_ceiling
unfolding tick_lamport
tick_lamport_below c calls o h =
    let db : Database = run calls (created c) in
    omega (
      arith,
      clock-bound calls (lamport_observe_limit - 1) (created c) o (omega arith)
          (unfold created in omega arith),
      max_where-below db.entries,
    )
