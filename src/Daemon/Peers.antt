-- ===== src/Daemon/Peers.antt =====
-- daemon.rs, `sync_apply`: records from another device, each on its own by last-writer-wins.
use panora.Prelude.{
  ℕ, ◌+◌, Bool, false, not, ◌&&◌, ◌||◌, Option, none, some, List, [], ◌∷◌, map, ℤ, pos, negsuc,
  clamp, any, length, ◌==◌, nat_eq, list_eq, ltb, leb, if◌then◌else◌, Result, ok, ◌>>=◌,
}
use panora.Model.{ClipboardData, primary, selection_eq}
use panora.History.Defs.{Row, Database}
use panora.History.Entries.{find_entry, tombstone, stamp, apply_remote_state, set_times}
use panora.History.Feed.{lamport_ceiling, lamport_observe_limit, observe_lamport}
use panora.Sync.{SyncRecord, lww_wins, payload_hash}
use panora.Daemon.{Error, from_history, Host, World, collect_garbage}
use panora.Daemon.Store.{store}

abbrev pub sync_clock_skew : ℕ
sync_clock_skew = 300

pub data Applied : Type 0 where
  yes ignored rejected : Applied

-- The numbers of a record once they have been checked and clamped.
pub record Numbers : Type 0 where
  pub created_at : ℕ
  pub last_seen_at : ℕ
  pub lamport : ℕ

-- `(1..LAMPORT_CEILING).contains(&lamport)`.
unfoldable pub lamport_in_range : ℤ → Option ℕ
lamport_in_range (negsuc n) = none
lamport_in_range (pos n) = if leb 1 n && ltb n lamport_ceiling then some n else none

unfoldable pub clamp_times : ℕ → SyncRecord → ℕ → Numbers
clamp_times now r lamport =
    let latest = now + sync_clock_skew in
    let created_at = clamp r.created_at 0 latest in
    record {
      created_at = created_at;
      last_seen_at = clamp r.last_seen_at created_at latest;
      lamport = lamport;
    }

-- A live record brings its payloads, and they have its hash.
unfoldable pub payloads_match : Host → SyncRecord → Bool
payloads_match host r =
    r.deleted
    || (not (length r.payloads == 0) && payload_hash host.blake3 r.payloads == r.content_hash)

unfoldable pub well_formed : Host → ℕ → SyncRecord → Option Numbers
unfolding lamport_in_range clamp_times payloads_match
well_formed host now r = elim (lamport_in_range r.lamport) [
  | none ↦ none
  | some n ↦
      if not (r.device_id == []) && payloads_match host r then some (clamp_times now r n) else none
]

-- The clock follows a value below the limit.
unfoldable pub observe : ℕ → World → World
observe lamport w =
    if ltb lamport lamport_observe_limit then record w { db = observe_lamport lamport w.db } else w

unfoldable pub take_over : SyncRecord → Numbers → ℕ → World → Result Error World
take_over r n id w = do
  db ← from_history (
      apply_remote_state id
        (record {
          pinned = r.pinned;
          created_at = n.created_at;
          last_seen_at = n.last_seen_at;
          lamport = n.lamport;
          device_id = r.device_id;
        })
        w.db)
  ok (record w { db = db })

-- A deletion of the local entry, unless it is deleted already.
unfoldable pub bury_local : Host → ℕ → Row → World → Result Error World
bury_local host now local w = if local.deleted then ok w else (do
  (refs, db) ← from_history (tombstone local.id now w.db)
  (evicted, w') ← collect_garbage host.config now (record w { db = db })
  ok w')

unfoldable pub apply_deletion :
    Host → ℕ → SyncRecord → Numbers → Option Row → World → Result Error (Applied × World)
unfolding bury_local
apply_deletion host now r n none w = ok (ignored, w)
apply_deletion host now r n (some local) w = do
  w' ← bury_local host now local w
  db ← from_history (stamp local.id n.lamport r.device_id w'.db)
  ok (yes, record w' { db = db })

abbrev pub data_of : SyncRecord → ClipboardData
data_of r = record {
  selection = r.selection;
  payloads = r.payloads;
  offered_mimes = map (λ p. p.mime) r.payloads;
  source_app = r.source_app;
}

-- The settings and the privacy gate, as for a copy made on this machine.
unfoldable pub refuses : Host → SyncRecord → Bool
refuses host r =
    (r.selection == primary && not host.config.record_primary)
    || any (λ p. ltb host.config.max_mime_bytes (length p.content)) r.payloads
    || not (host.admits (data_of r))

-- New here, or deleted here earlier than the remote state.
unfoldable pub apply_new : Host → ℕ → SyncRecord → Numbers → World → Result Error (Applied × World)
unfolding refuses take_over
apply_new host now r n w = if refuses host r then ok (ignored, w) else (do
  (entry, w1) ← store host now (data_of r) w
  db ← from_history (set_times entry.row.id n.created_at n.last_seen_at w1.db)
  w2 ← take_over r n entry.row.id (record w1 { db = db })
  ok (yes, w2))

unfoldable pub apply_live :
    Host → ℕ → SyncRecord → Numbers → Option Row → World → Result Error (Applied × World)
unfolding apply_new take_over
apply_live host now r n none w = apply_new host now r n w
apply_live host now r n (some local) w =
    if local.deleted
    then apply_new host now r n w
    else (do w' ← take_over r n local.id w; ok (yes, w'))

-- The local state wins unless the record's is later.
unfoldable pub is_beaten : SyncRecord → Numbers → Option Row → Bool
is_beaten r n none = false
is_beaten r n (some local) =
    not (lww_wins (n.lamport, r.device_id) (local.lamport, local.device_id))

unfoldable pub find_local : Host → SyncRecord → Database → Option Row
find_local host r db = elim (find_entry host.cipher r.content_hash r.selection db) [
  | none ↦ none
  | some entry ↦ some entry.row
]

abbrev pub apply_state :
    Host → ℕ → SyncRecord → Numbers → Option Row → World → Result Error (Applied × World)
apply_state host now r n local w =
    if is_beaten r n local
    then ok (ignored, w)
    else if r.deleted
    then apply_deletion host now r n local w
    else apply_live host now r n local w

unfoldable pub apply_record : Host → ℕ → SyncRecord → World → Result Error (Applied × World)
unfolding well_formed observe is_beaten apply_deletion apply_live find_local
apply_record host now r w = elim (well_formed host now r) [
  | none ↦ ok (rejected, w)
  | some n ↦
      apply_state host now r n (find_local host r (observe n.lamport w).db) (observe n.lamport w)
]

-- How many records were applied, ignored and rejected.
pub record Counts : Type 0 where
  pub applied_count : ℕ
  pub ignored_count : ℕ
  pub rejected_count : ℕ

abbrev pub count : Applied → Counts → Counts
count yes c = record c { applied_count = c.applied_count + 1 }
count ignored c = record c { ignored_count = c.ignored_count + 1 }
count rejected c = record c { rejected_count = c.rejected_count + 1 }

unfoldable pub sync_apply_from :
    Host → ℕ → List SyncRecord → Counts → World → Result Error (Counts × World)
sync_apply_from host now [] c w = ok (c, w)
sync_apply_from host now (r ∷ rs) c w = do
  (applied, w') ← apply_record host now r w
  sync_apply_from host now rs (count applied c) w'

unfoldable pub sync_apply : Host → ℕ → List SyncRecord → World → Result Error (Counts × World)
unfolding sync_apply_from
sync_apply host now records w =
    sync_apply_from host now records
      (record { applied_count = 0; ignored_count = 0; rejected_count = 0 }) w
