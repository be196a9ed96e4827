-- ===== src/Daemon/Garbage.antt =====
-- daemon.rs, `collect_garbage`: what the limits and the purges leave of the history.
use panora.Prelude.{
  ℕ, ◌-◌, ◌*◌, ◌≡◌, refl, List, ◌==◌, nat_eq, arith, Bool-cases, inl, inr, Result, ok, err,
  >>=-eq-ok, subst,
}
use panora.History.Defs as History
use panora.History.Defs.{Row, Database}
use panora.History.Entries.{Cipher}
use panora.History.Blobs.{purge_tombstones, strip_tombstones}
use panora.History.Retention.{
  evict_ids, enforce_limit, enforce_age, expire_sensitive, enforce_total_bytes,
}
use panora.History.Validity.{IsValid}
use panora.History.Calls.{
  Call, outcome, outcome-Keeps, Keeps, database_of, evict_ids-Keeps, strips, purges_before,
}
use panora.History.Inherits.{
  Inherits, IsKept, same-Inherits, trans-Inherits, evict_ids-Inherits, purge_tombstones-Inherits,
  strip_tombstones-Inherits,
}
use panora.Daemon.{
  from_history, unless_zero, Config, World, undo_grace_secs, purge_tombstoned_before,
  strip_tombstoned_before, enforce_limits, drop_tombstones, collect_garbage,
}

pub from_history-ok {ℓ} :
    {A : Type ℓ} (r : Result History.Error A) (a : A) → from_history r ≡ ok a → r ≡ ok a
from_history-ok (ok x) a e = ground arith
from_history-ok (err x) a e = absurd cc

-- A relation of databases that evictions, purges and stripping keep.
pub record IsUpkeep (G : Database → Database → Type 0) : Type 0 where
  pub same : (db : Database) → G db db
  pub follows : (a b c : Database) → G a b → G b c → G a c
  pub evicts :
      (ids ids' : List ℕ) (db db' : Database) → evict_ids ids db ≡ ok (ids', db') → G db db'
  pub purges : (before : ℕ) (db : Database) → G db (purge_tombstones before db).1
  pub strips : (before : ℕ) (db : Database) → G db (strip_tombstones before db).1

-- An operation that evicts what it picks.
abbrev Evicts : (Database → Result History.Error (List ℕ × Database)) → Type 0
Evicts enforce = (db : Database) → (ids : List ℕ) × (enforce db ≡ evict_ids ids db)

enforce_limit-Evicts : (n : ℕ) → Evicts (enforce_limit n)
unfolding enforce_limit
enforce_limit-Evicts n db = (_, refl)

enforce_age-Evicts : (t : ℕ) → Evicts (enforce_age t)
unfolding enforce_age
enforce_age-Evicts t db = (_, refl)

expire_sensitive-Evicts : (t : ℕ) → Evicts (expire_sensitive t)
unfolding expire_sensitive
expire_sensitive-Evicts t db = (_, refl)

enforce_total_bytes-Evicts : (n : ℕ) → Evicts (enforce_total_bytes n)
unfolding enforce_total_bytes
enforce_total_bytes-Evicts n db = (_, refl)

module _ (G : Database → Database → Type 0) (upkeep : IsUpkeep G) where
  evicted :
      (enforce : Database → Result History.Error (List ℕ × Database)) (db db' : Database)
      (ids : List ℕ)
      → Evicts enforce
      → from_history (enforce db) ≡ ok (ids, db')
      → G db db'
  evicted enforce db db' ids ev e =
      let (picked, p) = ev db in
      let q : enforce db ≡ ok (ids, db') = from_history-ok (enforce db) (ids, db') e in
      upkeep.evicts picked ids db db'
        (subst (λ (r : Result History.Error (List ℕ × Database)). r ≡ ok (ids, db')) p q)

  unless_zero_evicted :
      (n : ℕ) (enforce : Database → Result History.Error (List ℕ × Database)) (db db' : Database)
      (ids : List ℕ)
      → Evicts enforce
      → unless_zero n enforce db ≡ ok (ids, db')
      → G db db'
  unless_zero_evicted n enforce db db' ids ev e = elim (Bool-cases (n == 0)) [
    | inl z ↦ let w : db ≡ db' = ground arith in subst (G db) w (upkeep.same db)
    | inr z ↦ evicted enforce db db' ids ev (ground arith)
  ]

  enforce_limits_lem :
      (config : Config) (now : ℕ) (db db' : Database) (ids : List ℕ)
      → enforce_limits config now db ≡ ok (ids, db')
      → G db db'
  unfolding enforce_limits
  enforce_limits_lem config now db db' ids e =
      let age : ℕ = now - config.max_age_days * 86400 in
      let ttl : ℕ = now - config.sensitive_ttl_minutes * 60 in
      let ((i1, db1), p1, e1) =
        >>=-eq-ok (from_history (enforce_limit config.max_entries db)) _ e in
      let ((i2, db2), p2, e2) =
        >>=-eq-ok (unless_zero config.max_age_days (enforce_age age) db1) _ e1 in
      let ((i3, db3), p3, e3) =
        >>=-eq-ok (unless_zero config.sensitive_ttl_minutes (expire_sensitive ttl) db2) _ e2 in
      let ((i4, db4), p4, e4) =
        >>=-eq-ok
          (unless_zero config.max_total_bytes (enforce_total_bytes config.max_total_bytes) db3) _
          e3 in
      let w : db4 ≡ db' = ground arith in
      subst (G db) w (
        upkeep.follows db db1 db4
          (evicted (enforce_limit config.max_entries) db db1 i1
            (enforce_limit-Evicts config.max_entries) p1)
          (upkeep.follows db1 db2 db4
            (unless_zero_evicted config.max_age_days (enforce_age age) db1 db2 i2
              (enforce_age-Evicts age) p2)
            (upkeep.follows db2 db3 db4
              (unless_zero_evicted config.sensitive_ttl_minutes (expire_sensitive ttl) db2 db3 i3
                (expire_sensitive-Evicts ttl) p3)
              (unless_zero_evicted config.max_total_bytes
                (enforce_total_bytes config.max_total_bytes) db3 db4 i4
                (enforce_total_bytes-Evicts config.max_total_bytes) p4))))

  drop_tombstones_lem :
      (config : Config) (now : ℕ) (w : World) → G w.db (drop_tombstones config now w).db
  unfolding drop_tombstones purge_tombstoned_before strip_tombstoned_before
  drop_tombstones_lem config now w = elim (Bool-cases config.sync_enabled) [
    | inl s ↦
        let stripped : Database = (strip_tombstones (now - undo_grace_secs) w.db).1 in
        rw s (
          upkeep.follows w.db stripped
            (purge_tombstones (now - config.tombstone_days * 86400) stripped).1
            (upkeep.strips (now - undo_grace_secs) w.db)
            (upkeep.purges (now - config.tombstone_days * 86400) stripped))
    | inr s ↦ rw s (upkeep.purges (now - undo_grace_secs) w.db)
  ]

  pub collect_garbage_lem :
      (config : Config) (now : ℕ) (w w' : World) (n : ℕ)
      → collect_garbage config now w ≡ ok (n, w')
      → G w.db w'.db
  unfolding collect_garbage
  collect_garbage_lem config now w w' n e =
      let ((ids, db), p, q) = >>=-eq-ok (enforce_limits config now w.db) _ e in
      let v : drop_tombstones config now (record w { db = db }) ≡ w' = ground arith in
      subst (λ (x : World). G w.db x.db) v
        (upkeep.follows w.db db (drop_tombstones config now (record w { db = db })).db
          (enforce_limits_lem config now w.db db ids p)
          (drop_tombstones_lem config now (record w { db = db })))

-- Two such relations: rows come from the rows before, and the tables stay valid.
pub Inherits-IsUpkeep : (P : Row → Row → Type 0) → IsKept P → IsUpkeep (Inherits P)
Inherits-IsUpkeep P kept = record {
  same = λ db. same-Inherits P kept db db refl;
  follows = trans-Inherits P kept;
  evicts = evict_ids-Inherits P kept;
  purges = purge_tombstones-Inherits P kept;
  strips = strip_tombstones-Inherits P kept;
}

abbrev pub StaysValid : Database → Database → Type 0
StaysValid db db' = IsValid db → IsValid db'

-- A call of the database that succeeds.
pub call-StaysValid :
    (call : Call) (c : Cipher) (db db' : Database) → outcome c call db ≡ ok db' → StaysValid db db'
call-StaysValid call c db db' e v = subst Keeps e (outcome-Keeps c call db v)

pub IsValid-IsUpkeep : (c : Cipher) → IsUpkeep StaysValid
unfolding outcome
IsValid-IsUpkeep c = record {
  same = λ db v. v;
  follows = λ a b c f g v. g (f v);
  evicts = λ ids ids' db db' e v.
      subst (λ (r : Result History.Error (List ℕ × Database)). Keeps (database_of r)) e
        (evict_ids-Keeps ids db v);
  purges = λ before db v. outcome-Keeps c (purges_before before) db v;
  strips = λ before db v. outcome-Keeps c (strips before) db v;
}
