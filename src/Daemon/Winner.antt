-- ===== src/Daemon/Winner.antt =====
-- daemon.rs, `apply_record`: a record that is applied is the state of its entry from then on, and one
-- that is not changes nothing.
use panora.Prelude.{
  ℕ, ◌≡◌, refl, sym, ◌∙◌, ap, ◌⊎◌, inl, inr, List, Text, nat_eq, list_eq, arith, Bool-cases, Option,
  none, some, Result, ok, err, ◌>>=◌, >>=-eq-ok, subst,
}
use panora.Model.{Selection, selection_eq}
use panora.History.Defs.{Row, Database, row_by_id, stamp_seq}
use panora.History.Entries.{
  tombstone, stamp, stamp_row, apply_remote_state, remote_row, Remote, set_times,
}
use panora.History.Validity.{IsValid}
use panora.History.Calls.{outcome, buries, stamp_row-KeepsKeys, remote_row-KeepsKeys}
use panora.History.Inherits.{tombstone-Inherits}
use panora.Sync.{SyncRecord, payload_hash}
use panora.Daemon.{Error, from_history, Host, World, collect_garbage}
use panora.Daemon.Store.{store}
use panora.Daemon.Peers.{
  Applied, yes, ignored, Numbers, take_over, bury_local, apply_deletion, data_of, refuses,
  apply_new, apply_live,
}
use panora.Daemon.Garbage.{from_history-ok, collect_garbage_lem, call-StaysValid}
use panora.Daemon.Carries.{
  Carries, Carries-trans, Carries-refl, Carries-IsUpkeep, SameKey, SameKey-IsKept, tracked_there,
  stamp-Carries, apply_remote_state-Carries, set_times-Carries,
}
use panora.Daemon.Entered.{HasKey, HasKey-Carries, store-HasKey}

-- The entry of the record is in the table with the record's Lamport value and device.
pub record Taken (r : SyncRecord) (n : ℕ) (db : Database) : Type 0 where
  pub id : ℕ
  pub key : HasKey r.content_hash r.selection id db
  pub lamport : key.row.lamport ≡ n
  pub device : key.row.device_id ≡ r.device_id

HasKey-row :
    (h : Text) (s : Selection) (id : ℕ) (db : Database) (row : Row) (k : HasKey h s id db)
    → row_by_id id db.entries ≡ some row
    → k.row ≡ row
HasKey-row h s id db row k e = ground (arith, k.found)

module _ (host : Host) (now : ℕ) (r : SyncRecord) where
  stamp-Taken :
      (id n : ℕ) (db db' : Database)
      → HasKey r.content_hash r.selection id db
      → stamp id n r.device_id db ≡ ok db'
      → Taken r n db'
  unfolding stamp stamp_seq stamp_row
  stamp-Taken id n db db' k e =
      let (row, found, there) =
        tracked_there id (stamp_row n r.device_id) db db' (stamp_row-KeepsKeys n r.device_id) e in
      let key : HasKey r.content_hash r.selection id db' =
        HasKey-Carries r.content_hash r.selection id db db' _ k
          (stamp-Carries host.cipher id db db' n r.device_id e) there in
      let same : key.row ≡ _ = HasKey-row r.content_hash r.selection id db' _ key there in
      record {
        id = id;
        key = key;
        lamport = ap (λ (x : Row). x.lamport) same;
        device = ap (λ (x : Row). x.device_id) same;
      }

  apply_remote_state-Taken :
      (id : ℕ) (s : Remote) (db db' : Database)
      → s.device_id ≡ r.device_id
      → HasKey r.content_hash r.selection id db
      → apply_remote_state id s db ≡ ok db'
      → Taken r s.lamport db'
  unfolding apply_remote_state stamp_seq remote_row
  apply_remote_state-Taken id s db db' d k e =
      let (row, found, there) = tracked_there id (remote_row s) db db' (remote_row-KeepsKeys s) e in
      let key : HasKey r.content_hash r.selection id db' =
        HasKey-Carries r.content_hash r.selection id db db' _ k
          (apply_remote_state-Carries host.cipher id db db' s e) there in
      let same : key.row ≡ _ = HasKey-row r.content_hash r.selection id db' _ key there in
      record {
        id = id;
        key = key;
        lamport = ap (λ (x : Row). x.lamport) same;
        device = ap (λ (x : Row). x.device_id) same ∙ d;
      }

  take_over-Taken :
      (n : Numbers) (id : ℕ) (w w' : World)
      → HasKey r.content_hash r.selection id w.db
      → take_over r n id w ≡ ok w'
      → Taken r n.lamport w'.db
  unfolding take_over
  take_over-Taken n id w w' k e =
      let state : Remote = record {
        pinned = r.pinned;
        created_at = n.created_at;
        last_seen_at = n.last_seen_at;
        lamport = n.lamport;
        device_id = r.device_id;
      } in
      let (db, p, q) = >>=-eq-ok (from_history (apply_remote_state id state w.db)) _ e in
      let v : record w { db = db } ≡ w' = ground arith in
      subst (λ (x : World). Taken r n.lamport x.db) v
        (apply_remote_state-Taken id state w.db db refl k (from_history-ok _ db p))

  tombstone-Carries :
      (id : ℕ) (db db' : Database) (refs : List Text)
      → tombstone id now db ≡ ok (refs, db')
      → Carries db db'
  unfolding outcome
  tombstone-Carries id db db' refs e = (
    call-StaysValid (buries id now) host.cipher db db' (rw e refl),
    tombstone-Inherits SameKey SameKey-IsKept id now db db' refs e,
  )

  bury_local-Carries :
      (local : Row) (w w' : World) → bury_local host now local w ≡ ok w' → Carries w.db w'.db
  unfolding bury_local
  bury_local-Carries local w w' e = elim (Bool-cases local.deleted) [
    | inl d ↦
        let v : w ≡ w' = ground arith in
        subst (λ (x : World). Carries w.db x.db) v (Carries-refl w.db)
    | inr d ↦
        let e' : (do
          (refs, db) ← from_history (tombstone local.id now w.db)
          (evicted, w') ← collect_garbage host.config now (record w { db = db })
          ok w')
            ≡ ok w' =
          ground arith in
        let ((refs, db), p, e1) = >>=-eq-ok (from_history (tombstone local.id now w.db)) _ e' in
        let ((n, w1), q, e2) =
          >>=-eq-ok (collect_garbage host.config now (record w { db = db })) _ e1 in
        let v : w1 ≡ w' = ground arith in
        subst (λ (x : World). Carries w.db x.db) v
          (Carries-trans w.db db w1.db
            (tombstone-Carries local.id w.db db refs (from_history-ok _ (refs, db) p))
            (collect_garbage_lem Carries (Carries-IsUpkeep host.cipher) host.config now
              (record w { db = db }) w1 n q))
  ]

-- What `apply_state` may answer.
abbrev pub Settles : SyncRecord → ℕ → World → Applied → World → Type 0
Settles r n w a w' = ((a ≡ ignored) × (w ≡ w')) ⊎ ((a ≡ yes) × Taken r n w'.db)

abbrev answer : Applied × World → Result Error (Applied × World) → Applied
answer d (ok (a, w)) = a
answer d (err e) = d.0

abbrev world_of : Applied × World → Result Error (Applied × World) → World
world_of d (ok (a, w)) = w
world_of d (err e) = d.1

abbrev pub done : Applied → World → Result Error (Applied × World)
done a w = ok (a, w)

pub ok-pair : (a b : Applied) (w v : World) → done a w ≡ done b v → (a ≡ b) × (w ≡ v)
ok-pair a b w v e = (ap (answer (a, w)) e, ap (world_of (a, w)) e)

module _ (host : Host) (now : ℕ) (r : SyncRecord) (n : Numbers) where
  pub skipped :
      (w w' : World) (a : Applied) → done ignored w ≡ done a w' → Settles r n.lamport w a w'
  skipped w w' a e = let (p, q) = ok-pair ignored a w w' e in inl (sym p, q)

  taken :
      (w v w' : World) (a : Applied)
      → Taken r n.lamport v.db
      → done yes v ≡ done a w'
      → Settles r n.lamport w a w'
  taken w v w' a t e =
      let (p, q) = ok-pair yes a v w' e in
      inr (sym p, subst (λ (x : World). Taken r n.lamport x.db) q t)

  stamp_held :
      (id lamport : ℕ) (db db' : Database)
      → stamp id lamport r.device_id db ≡ ok db'
      → (row : Row) × (row_by_id id db.entries ≡ some row)
  unfolding stamp
  stamp_held id lamport db db' s =
      let (row, there, _) =
        tracked_there id (stamp_row lamport r.device_id) db db'
          (stamp_row-KeepsKeys lamport r.device_id) s in
      (row, there)

  take_over_held :
      (id : ℕ) (x x' : World)
      → take_over r n id x ≡ ok x'
      → (row : Row) × (row_by_id id x.db.entries ≡ some row)
  unfolding take_over apply_remote_state
  take_over_held id x x' t =
      let state : Remote = record {
        pinned = r.pinned;
        created_at = n.created_at;
        last_seen_at = n.last_seen_at;
        lamport = n.lamport;
        device_id = r.device_id;
      } in
      let (db, p, q) = >>=-eq-ok (from_history (apply_remote_state id state x.db)) _ t in
      let (row, there, _) =
        tracked_there id (remote_row state) x.db db (remote_row-KeepsKeys state)
          (from_history-ok _ db p) in
      (row, there)

  pub apply_deletion-Settles :
      (local : Option Row) (w w' : World) (a : Applied)
      → ((row : Row) → local ≡ some row → HasKey r.content_hash r.selection row.id w.db)
      → apply_deletion host now r n local w ≡ done a w'
      → Settles r n.lamport w a w'
  unfolding apply_deletion
  apply_deletion-Settles none w w' a held e = skipped w w' a e
  apply_deletion-Settles (some local) w w' a held e =
      let (w1, p, e1) = >>=-eq-ok (bury_local host now local w) _ e in
      let (db, q, e2) =
        >>=-eq-ok (from_history (stamp local.id n.lamport r.device_id w1.db)) _ e1 in
      let s : stamp local.id n.lamport r.device_id w1.db ≡ ok db = from_history-ok _ db q in
      let (row, there) = stamp_held local.id n.lamport w1.db db s in
      let key : HasKey r.content_hash r.selection local.id w1.db =
        HasKey-Carries r.content_hash r.selection local.id w.db w1.db row (held local refl)
          (bury_local-Carries host now r local w w1 p) there in
      taken w (record w1 { db = db }) w' a
        (stamp-Taken host now r local.id n.lamport w1.db db key s) e2

  apply_new-Settles :
      (w w' : World) (a : Applied)
      → IsValid w.db
      → payload_hash host.blake3 r.payloads ≡ r.content_hash
      → apply_new host now r n w ≡ done a w'
      → Settles r n.lamport w a w'
  unfolding apply_new
  apply_new-Settles w w' a v hash e = elim (Bool-cases (refuses host r)) [
    | inl refused ↦ skipped w w' a (ground arith)
    | inr allowed ↦
        let e0 : (do
          (entry, w1) ← store host now (data_of r) w
          db ← from_history (set_times entry.row.id n.created_at n.last_seen_at w1.db)
          w2 ← take_over r n entry.row.id (record w1 { db = db })
          ok (yes, w2))
            ≡ done a w' =
          ground arith in
        let ((entry, w1), p, e1) = >>=-eq-ok (store host now (data_of r) w) _ e0 in
        let (db, q, e2) =
          >>=-eq-ok (from_history (set_times entry.row.id n.created_at n.last_seen_at w1.db)) _
            e1 in
        let (w2, t, e3) = >>=-eq-ok (take_over r n entry.row.id (record w1 { db = db })) _ e2 in
        let stored : HasKey r.content_hash r.selection entry.row.id w1.db =
          subst (λ (h : Text). HasKey h r.selection entry.row.id w1.db) hash
            (store-HasKey host now (data_of r) w w1 entry v p) in
        let (row, there) = take_over_held entry.row.id (record w1 { db = db }) w2 t in
        let timed : HasKey r.content_hash r.selection entry.row.id db =
          HasKey-Carries r.content_hash r.selection entry.row.id w1.db db row stored
            (set_times-Carries host.cipher entry.row.id w1.db db n.created_at n.last_seen_at
              (from_history-ok _ db q))
            there in
        taken w w2 w' a
          (take_over-Taken host now r n entry.row.id (record w1 { db = db }) w2 timed t) e3
  ]

  pub apply_live-Settles :
      (local : Option Row) (w w' : World) (a : Applied)
      → IsValid w.db
      → ((row : Row) → local ≡ some row → HasKey r.content_hash r.selection row.id w.db)
      → payload_hash host.blake3 r.payloads ≡ r.content_hash
      → apply_live host now r n local w ≡ done a w'
      → Settles r n.lamport w a w'
  unfolding apply_live
  apply_live-Settles none w w' a v held hash e = apply_new-Settles w w' a v hash e
  apply_live-Settles (some local) w w' a v held hash e = elim (Bool-cases local.deleted) [
    | inl d ↦ apply_new-Settles w w' a v hash (ground arith)
    | inr d ↦
        let e0 : (do w1 ← take_over r n local.id w; ok (yes, w1)) ≡ done a w' = ground arith in
        let (w1, t, e1) = >>=-eq-ok (take_over r n local.id w) _ e0 in
        taken w w1 w' a (take_over-Taken host now r n local.id w w1 (held local refl) t) e1
  ]
