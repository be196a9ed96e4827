-- ===== src/History/Calls.antt =====
-- storage/db.rs: sequences of calls of `Database`, and the invariant along them.
use panora.Prelude.{
  ℕ, ◌≡◌, refl, Bool, true, List, [], ◌∷◌, Text, nat_eq, Bool-cases, Option-cases, inl, inr, Option,
  none, some, Result, ok, err, ◌>>=◌, Result-cases,
}
use panora.Model.{ContentKind}
use panora.History.Defs.{Row, Database, Error, has_id, row_by_id, update_plain, update_tracked}
use panora.History.Rows.{KeepsKeys, row_by_id→has_id}
use panora.History.Entries.{
  Cipher, Capture, upsert_entry, changed, set_pinned, stamp, set_times, apply_remote_state, touch,
  bump_row, pin_row, stamp_row, time_row, Remote, remote_row, flag_row, bury_row, unbury_row,
  mark_sensitive, tombstone, restore, index_content,
}
use panora.History.Blobs.{
  attach_blob, detach_blob, strip_tombstones, drop_blobs_where, purge_loop, purge, is_tombstoned,
  purge_tombstones,
}
use panora.History.Retention.{
  tombstone_all, evict_ids, enforce_limit, enforce_age, expire_sensitive, enforce_kind_limit,
  enforce_total_bytes, clear_all,
}
use panora.History.Feed.{tick_lamport, observe_lamport}
use panora.History.Keyring.{LockSecret, set_rotation_state, set_lock_secret, rekey, wipe}
use panora.History.Validity.{
  IsValid, fts_count, live_count, update_plain-IsValid, update_tracked-IsValid, bury-IsValid,
  revive-IsValid,
}
use panora.History.Keeps.{
  upsert_entry-IsValid, purge_row-IsValid, drop_blobs-IsValid, put_blob-IsValid,
  index_content-IsValid, bump_row-KeepsKeys,
}
use panora.History.Resealed.{rekey-IsValid}

-- `r` succeeds only with a valid database.
abbrev pub Keeps : Result Error Database → Type 0
Keeps (ok db) = IsValid db
Keeps (err e) = Unit {0}

abbrev pub database_of {ℓ} : {A : Type ℓ} → Result Error (A × Database) → Result Error Database
database_of (ok (a, db)) = ok db
database_of (err e) = err e

changed-Keeps :
    (i : ℕ) (db : Database) (f : Database → Database)
    → (has_id i db.entries ≡ true → IsValid (f db))
    → Keeps (changed i db f)
unfolding changed
changed-Keeps i db f h = elim (Bool-cases (has_id i db.entries)) [
  | inl e ↦ rw e (h e)
  | inr e ↦ rw e tt
]

module _ (i : ℕ) (f : Row → Row) (k : KeepsKeys f) (alive : (r : Row) → (f r).deleted ≡ r.deleted)
    (db : Database) (v : IsValid db) where
  tracked-Keeps : Keeps (changed i db (update_tracked i f))
  tracked-Keeps =
      changed-Keeps i db (update_tracked i f) λ _. update_tracked-IsValid i f k alive db v

  plain-Keeps :
      ((r : Row) → (f r).change_seq ≡ r.change_seq) → Keeps (changed i db (update_plain i f))
  plain-Keeps same =
      changed-Keeps i db (update_plain i f) λ _. update_plain-IsValid i f k alive same db v

pin_row-KeepsKeys : (b : Bool) → KeepsKeys (pin_row b)
unfolding pin_row
pin_row-KeepsKeys b = record { id = λ r. refl; content_hash = λ r. refl; selection = λ r. refl }

pub stamp_row-KeepsKeys : (n : ℕ) (d : Text) → KeepsKeys (stamp_row n d)
unfolding stamp_row
stamp_row-KeepsKeys n d = record { id = λ r. refl; content_hash = λ r. refl; selection = λ r. refl }

pub time_row-KeepsKeys : (c l : ℕ) → KeepsKeys (time_row c l)
unfolding time_row
time_row-KeepsKeys c l = record { id = λ r. refl; content_hash = λ r. refl; selection = λ r. refl }

pub remote_row-KeepsKeys : (s : Remote) → KeepsKeys (remote_row s)
unfolding remote_row
remote_row-KeepsKeys s = record { id = λ r. refl; content_hash = λ r. refl; selection = λ r. refl }

pub flag_row-KeepsKeys : KeepsKeys flag_row
unfolding flag_row
flag_row-KeepsKeys = record { id = λ r. refl; content_hash = λ r. refl; selection = λ r. refl }

pub bury_row-KeepsKeys : (now : ℕ) → KeepsKeys (bury_row now)
unfolding bury_row
bury_row-KeepsKeys now = record { id = λ r. refl; content_hash = λ r. refl; selection = λ r. refl }

pub unbury_row-KeepsKeys : KeepsKeys unbury_row
unfolding unbury_row
unbury_row-KeepsKeys = record { id = λ r. refl; content_hash = λ r. refl; selection = λ r. refl }

set_pinned-Keeps : (i : ℕ) (b : Bool) (db : Database) → IsValid db → Keeps (set_pinned i b db)
unfolding set_pinned
set_pinned-Keeps i b db = tracked-Keeps i (pin_row b) (pin_row-KeepsKeys b) (λ r. refl) db

stamp-Keeps : (i n : ℕ) (d : Text) (db : Database) → IsValid db → Keeps (stamp i n d db)
unfolding stamp
stamp-Keeps i n d db = tracked-Keeps i (stamp_row n d) (stamp_row-KeepsKeys n d) (λ r. refl) db

set_times-Keeps : (i c l : ℕ) (db : Database) → IsValid db → Keeps (set_times i c l db)
unfolding set_times
set_times-Keeps i c l db v =
    plain-Keeps i (time_row c l) (time_row-KeepsKeys c l) (λ r. refl) db v (λ r. refl)

apply_remote_state-Keeps :
    (i : ℕ) (s : Remote) (db : Database) → IsValid db → Keeps (apply_remote_state i s db)
unfolding apply_remote_state
apply_remote_state-Keeps i s db =
    tracked-Keeps i (remote_row s) (remote_row-KeepsKeys s) (λ r. refl) db

mark_sensitive-IsValid : (i : ℕ) (db : Database) → IsValid db → IsValid (mark_sensitive i db)
unfolding mark_sensitive
mark_sensitive-IsValid i db v =
    update_plain-IsValid i flag_row flag_row-KeepsKeys (λ r. refl) (λ r. refl) db v

touch-Keeps : (i now : ℕ) (db : Database) → IsValid db → Keeps (touch i now db)
unfolding touch bump_row
touch-Keeps i now db v = elim (Option-cases (row_by_id i db.entries)) [
  | inl e ↦ rw (e, Keeps) tt
  | inr (r, e) ↦
      rw (e, Keeps)
        (elim (Bool-cases r.deleted) [
          | inl d ↦ rw d tt
          | inr d ↦ rw d (
              update_plain-IsValid i (bump_row _) (bump_row-KeepsKeys _) (λ x. refl) (λ x. refl) db
                v)
        ])
]

tombstone-Keeps :
    (i now : ℕ) (db : Database) → IsValid db → Keeps (database_of (tombstone i now db))
unfolding tombstone
tombstone-Keeps i now db v = elim (Bool-cases (has_id i db.entries)) [
  | inl e ↦ rw e (bury-IsValid i (bury_row now) (bury_row-KeepsKeys now) (λ r. refl) db v)
  | inr e ↦ rw e tt
]

restore-Keeps : (c : Cipher) (i : ℕ) (db : Database) → IsValid db → Keeps (restore c i db)
unfolding restore
restore-Keeps c i db v = elim (Option-cases (row_by_id i db.entries)) [
  | inl e ↦ rw e tt
  | inr (r, e) ↦ rw e (elim (Bool-cases r.deleted) [
    | inl d ↦ rw d (
        revive-IsValid i unbury_row unbury_row-KeepsKeys (λ x. refl) _ db
          (row_by_id→has_id i db.entries r e).0 v)
    | inr d ↦ rw d v
  ])
]

bind-Keeps {ℓ} :
    {A : Type ℓ} (r : Result Error (A × Database)) (k : A × Database → Result Error Database)
    → Keeps (database_of r)
    → ((a : A) (db : Database) → IsValid db → Keeps (k (a, db)))
    → Keeps (r >>= k)
bind-Keeps (ok (a, db)) k v h = h a db v
bind-Keeps (err e) k v h = tt

tombstone_all-Keeps : (ids : List ℕ) (db : Database) → IsValid db → Keeps (tombstone_all ids db)
unfolding tombstone_all
tombstone_all-Keeps [] db v = v
tombstone_all-Keeps (i ∷ ids) db v =
    bind-Keeps (tombstone i 0 db) _ (tombstone-Keeps i 0 db v)
      λ refs db' v'. tombstone_all-Keeps ids db' v'

pub evict_ids-Keeps :
    (ids : List ℕ) (db : Database) → IsValid db → Keeps (database_of (evict_ids ids db))
evict_ids-Keeps ids db v = go (tombstone_all ids db) (tombstone_all-Keeps ids db v)
  where
    go : (r : Result Error Database) → Keeps r → Keeps (database_of (r >>= λ db'. ok (ids, db')))
    go (ok db') h = h
    go (err e) h = tt

purge_loop-IsValid :
    (ids : List ℕ) (refs : List Text) (db : Database)
    → IsValid db
    → IsValid (purge_loop ids refs db).1
unfolding purge_loop
purge_loop-IsValid [] refs db v = v
purge_loop-IsValid (i ∷ ids) refs db v = elim (Bool-cases (is_tombstoned i db)) [
  | inl e ↦ rw (e, purge_loop) (purge_loop-IsValid ids _ _ (purge_row-IsValid i db v))
  | inr e ↦ rw (e, purge_loop) (purge_loop-IsValid ids refs db v)
]

attach_blob-Keeps :
    (i : ℕ) (mime blob_ref : Text) (db : Database)
    → IsValid db
    → Keeps (attach_blob i mime blob_ref db)
unfolding attach_blob
attach_blob-Keeps i mime blob_ref db v = elim (Bool-cases (has_id i db.entries)) [
  | inl e ↦ rw e (put_blob-IsValid i mime blob_ref db e v)
  | inr e ↦ rw e tt
]

-- The tables stay as they are where only `meta` changes.
same_tables :
    (db db' : Database)
    → IsValid db
    → db'.entries ≡ db.entries
    → db'.entry_blobs ≡ db.entry_blobs
    → db'.entries_fts ≡ db.entries_fts
    → db'.change_seq ≡ db.change_seq
    → IsValid db'
same_tables db db' v e b f c = record {
  sound = record {
    unique = rw e v.sound.unique;
    seq_below = rw (e, c) v.sound.seq_below;
    seq_unique = rw e v.sound.seq_unique;
    owned = rw (e, b) v.sound.owned;
  };
  indexed = record { at = λ i. rw (e, f) (v.indexed.at i) };
}

wipe-IsValid : (db : Database) → IsValid (wipe db)
unfolding wipe fts_count live_count row_by_id
wipe-IsValid db = record {
  sound = record { unique = tt; seq_below = tt; seq_unique = tt; owned = tt };
  indexed = record { at = λ i. refl };
}

pub data Call : Type 0 where
  upserts : Capture → Call
  pins : ℕ → Bool → Call
  stamps : ℕ → ℕ → Text → Call
  sets_times : ℕ → ℕ → ℕ → Call
  takes_over : ℕ → Remote → Call
  touches : ℕ → ℕ → Call
  flags : ℕ → Call
  buries : ℕ → ℕ → Call
  restores : ℕ → Call
  indexes : ℕ → Text → Call
  attaches : ℕ → Text → Text → Call
  detaches : ℕ → Text → Call
  strips : ℕ → Call
  purges : List ℕ → Call
  purges_before : ℕ → Call
  limits : ℕ → Call
  ages : ℕ → Call
  expires : ℕ → Call
  limits_kind : ContentKind → ℕ → Call
  limits_bytes : ℕ → Call
  clears : Call
  ticks : Call
  observes : ℕ → Call
  rotates : Option Text → Call
  locks : Option LockSecret → Call
  rekeys : Cipher → Call
  wipes : Call

-- What a call leaves when it returns `Ok`.
unfoldable pub outcome : Cipher → Call → Database → Result Error Database
outcome c (upserts a) db = database_of (upsert_entry c a db)
outcome c (pins i b) db = set_pinned i b db
outcome c (stamps i n d) db = stamp i n d db
outcome c (sets_times i a l) db = set_times i a l db
outcome c (takes_over i s) db = apply_remote_state i s db
outcome c (touches i now) db = touch i now db
outcome c (flags i) db = ok (mark_sensitive i db)
outcome c (buries i now) db = database_of (tombstone i now db)
outcome c (restores i) db = restore c i db
outcome c (indexes i t) db = ok (index_content i t db)
outcome c (attaches i m b) db = attach_blob i m b db
outcome c (detaches i m) db = ok (detach_blob i m db)
outcome c (strips t) db = ok (strip_tombstones t db).1
outcome c (purges ids) db = ok (purge ids db).1
outcome c (purges_before t) db = ok (purge_tombstones t db).1
outcome c (limits n) db = database_of (enforce_limit n db)
outcome c (ages t) db = database_of (enforce_age t db)
outcome c (expires t) db = database_of (expire_sensitive t db)
outcome c (limits_kind k n) db = database_of (enforce_kind_limit k n db)
outcome c (limits_bytes n) db = database_of (enforce_total_bytes n db)
outcome c clears db = database_of (clear_all db)
outcome c ticks db = ok (tick_lamport db).1
outcome c (observes n) db = ok (observe_lamport n db)
outcome c (rotates s) db = ok (set_rotation_state s db)
outcome c (locks s) db = ok (set_lock_secret s db)
outcome c (rekeys new) db = rekey c new db
outcome c wipes db = ok (wipe db)

upserts-Keeps :
    (c : Cipher) (a : Capture) (db : Database)
    → IsValid db
    → Keeps (database_of (upsert_entry c a db))
upserts-Keeps c a db v = elim (Result-cases (upsert_entry c a db)) [
  | inl ((i, db'), e) ↦ rw e (upsert_entry-IsValid c a db db' i v e)
  | inr (x, e) ↦ rw e tt
]

rekeys-Keeps : (old new : Cipher) (db : Database) → IsValid db → Keeps (rekey old new db)
rekeys-Keeps old new db v = elim (Result-cases (rekey old new db)) [
  | inl (db', e) ↦ rw e (rekey-IsValid old new db db' v e)
  | inr (x, e) ↦ rw e tt
]

pub outcome-Keeps :
    (c : Cipher) (call : Call) (db : Database) → IsValid db → Keeps (outcome c call db)
unfolding outcome
outcome-Keeps c (upserts a) db v = upserts-Keeps c a db v
outcome-Keeps c (pins i b) db v = set_pinned-Keeps i b db v
outcome-Keeps c (stamps i n d) db v = stamp-Keeps i n d db v
outcome-Keeps c (sets_times i a l) db v = set_times-Keeps i a l db v
outcome-Keeps c (takes_over i s) db v = apply_remote_state-Keeps i s db v
outcome-Keeps c (touches i now) db v = touch-Keeps i now db v
outcome-Keeps c (flags i) db v = mark_sensitive-IsValid i db v
outcome-Keeps c (buries i now) db v = tombstone-Keeps i now db v
outcome-Keeps c (restores i) db v = restore-Keeps c i db v
outcome-Keeps c (indexes i t) db v = index_content-IsValid i t db v
outcome-Keeps c (attaches i m b) db v = attach_blob-Keeps i m b db v
outcome-Keeps c (detaches i m) db v = unfold detach_blob in drop_blobs-IsValid _ db v
outcome-Keeps c (strips t) db v =
    unfold strip_tombstones drop_blobs_where in drop_blobs-IsValid _ db v
outcome-Keeps c (purges ids) db v = unfold purge in purge_loop-IsValid ids [] db v
outcome-Keeps c (purges_before t) db v =
    unfold purge_tombstones purge in purge_loop-IsValid _ [] db v
outcome-Keeps c (limits n) db v = unfold enforce_limit in evict_ids-Keeps _ db v
outcome-Keeps c (ages t) db v = unfold enforce_age in evict_ids-Keeps _ db v
outcome-Keeps c (expires t) db v = unfold expire_sensitive in evict_ids-Keeps _ db v
outcome-Keeps c (limits_kind k n) db v = unfold enforce_kind_limit in evict_ids-Keeps _ db v
outcome-Keeps c (limits_bytes n) db v = unfold enforce_total_bytes in evict_ids-Keeps _ db v
outcome-Keeps c clears db v = unfold clear_all in evict_ids-Keeps _ db v
outcome-Keeps c ticks db v = unfold tick_lamport in same_tables db _ v refl refl refl refl
outcome-Keeps c (observes n) db v = unfold observe_lamport in same_tables db _ v refl refl refl refl
outcome-Keeps c (rotates s) db v =
    unfold set_rotation_state in same_tables db _ v refl refl refl refl
outcome-Keeps c (locks none) db v = unfold set_lock_secret in same_tables db _ v refl refl refl refl
outcome-Keeps c (locks (some s)) db v =
    unfold set_lock_secret in same_tables db _ v refl refl refl refl
outcome-Keeps c (rekeys new) db v = rekeys-Keeps c new db v
outcome-Keeps c wipes db v = wipe-IsValid db

-- A call that fails leaves the tables as they were: each is one statement or one transaction.
unfoldable pub step : Cipher → Call → Database → Database
step c call db = elim (outcome c call db) [ ok db' ↦ db' | err e ↦ db ]

-- Each call comes with the cipher that it runs under: a rotation changes the key, and every sealing
-- draws its own nonce.
unfoldable pub run : List (Cipher × Call) → Database → Database
unfolding step
run [] db = db
run ((c, call) ∷ calls) db = run calls (step c call db)

step-IsValid : (c : Cipher) (call : Call) (db : Database) → IsValid db → IsValid (step c call db)
unfolding step
step-IsValid c call db v = go (outcome c call db) (outcome-Keeps c call db v)
  where
    go : (r : Result Error Database) → Keeps r → IsValid (elim r [ ok db' ↦ db' | err e ↦ db ])
    go (ok db') h = h
    go (err e) h = v

-- From a valid database, whatever calls that change the open database follow, key rotations among
-- them and each call under any cipher, the tables stay valid: ids and (hash, selection) pairs are
-- unique, no two rows share a change counter value and none is above the counter, every blob
-- reference has its entry, and the search index holds exactly the live entries.
pub run-IsValid :
    (calls : List (Cipher × Call)) (db : Database) → IsValid db → IsValid (run calls db)
unfolding run
run-IsValid [] db v = v
run-IsValid ((c, call) ∷ calls) db v = run-IsValid calls (step c call db) (step-IsValid c call db v)

-- `prepare` on a new file: empty tables, bound to the key.
unfoldable pub created : Cipher → Database
created c = record {
  entries = [];
  entry_blobs = [];
  entries_fts = [];
  change_seq = 0;
  lamport_clock = none;
  key_fingerprint = some c.fingerprint;
  rotation_state = none;
  lock_verifier = none;
  lock_kek_salt = none;
}

pub created-IsValid : (c : Cipher) → IsValid (created c)
unfolding created fts_count live_count row_by_id
created-IsValid c = record {
  sound = record { unique = tt; seq_below = tt; seq_unique = tt; owned = tt };
  indexed = record { at = λ i. refl };
}
