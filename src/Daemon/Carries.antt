-- ===== src/Daemon/Carries.antt =====
-- daemon.rs: the steps after an entry is in the table keep the tables valid, and the keys of rows.
use panora.Prelude.{
  ℕ, ◌+◌, ◌≡◌, refl, sym, ◌∙◌, ap, true, Text, nat_eq, ==-refl, arith, Bool-cases, inl, inr, some,
  ok, subst,
}
use panora.History.Defs.{Row, Database, has_id, row_by_id, stamp_seq, update_tracked, update_plain}
use panora.History.Rows.{KeepsKeys, has_id→row_by_id}
use panora.History.Entries.{
  Cipher, changed, stamp, stamp_row, set_times, time_row, apply_remote_state, remote_row, Remote,
  mark_sensitive, flag_row, index_content, bury_row,
}
use panora.History.Blobs.{attach_blob, put_blob}
use panora.History.Validity.{row_by_id-update_tracked}
use panora.History.Calls.{
  stamps, sets_times, takes_over, flags, indexes, attaches, outcome, stamp_row-KeepsKeys,
  time_row-KeepsKeys, remote_row-KeepsKeys, flag_row-KeepsKeys, outcome-Keeps,
}
use panora.History.Inherits.{
  Inherits, IsKept, same-Inherits, trans-Inherits, tracked-Inherits, plain-Inherits,
}
use panora.Daemon.Garbage.{
  IsUpkeep, Inherits-IsUpkeep, IsValid-IsUpkeep, StaysValid, call-StaysValid,
}

abbrev pub SameKey : Row → Row → Type 0
SameKey r s = (s.content_hash ≡ r.content_hash) × (s.selection ≡ r.selection)

pub SameKey-IsKept : IsKept SameKey
unfolding stamp_seq bury_row
SameKey-IsKept = record {
  stays = λ r. (refl, refl);
  follows = λ r s t p q. (q.0 ∙ p.0, q.1 ∙ p.1);
  buried = λ n now r. (refl, refl);
}

-- Valid tables stay valid, and every row that is left has the key of the row before.
abbrev pub Carries : Database → Database → Type 0
Carries db db' = StaysValid db db' × Inherits SameKey db db'

pub Carries-trans : (a b c : Database) → Carries a b → Carries b c → Carries a c
Carries-trans a b c f g = (λ v. g.0 (f.0 v), trans-Inherits SameKey SameKey-IsKept a b c f.1 g.1)

pub Carries-refl : (db : Database) → Carries db db
Carries-refl db = (λ v. v, same-Inherits SameKey SameKey-IsKept db db refl)

pub Carries-IsUpkeep : (c : Cipher) → IsUpkeep Carries
Carries-IsUpkeep c =
    let valid : IsUpkeep StaysValid = IsValid-IsUpkeep c in
    let keys : IsUpkeep (Inherits SameKey) = Inherits-IsUpkeep SameKey SameKey-IsKept in
    record {
      same = Carries-refl;
      follows = Carries-trans;
      evicts = λ ids ids' db db' e. (valid.evicts ids ids' db db' e, keys.evicts ids ids' db db' e);
      purges = λ before db. (valid.purges before db, keys.purges before db);
      strips = λ before db. (valid.strips before db, keys.strips before db);
    }

changed-ok :
    (i : ℕ) (db db' : Database) (f : Database → Database)
    → changed i db f ≡ ok db'
    → (has_id i db.entries ≡ true) × (f db ≡ db')
unfolding changed
changed-ok i db db' f e = elim (Bool-cases (has_id i db.entries)) [
  | inl h ↦ (h, ground arith)
  | inr h ↦ absurd (ground arith)
]

-- After an update that succeeds the row is there, changed.
pub tracked_there :
    (i : ℕ) (f : Row → Row) (db db' : Database)
    → KeepsKeys f
    → changed i db (update_tracked i f) ≡ ok db'
    → (r : Row) × (row_by_id i db.entries ≡ some r)
      × (row_by_id i db'.entries ≡ some (stamp_seq (db.change_seq + 1) (f r)))
tracked_there i f db db' k e =
    let (h, w) = changed-ok i db db' (update_tracked i f) e in
    let (r, found) = has_id→row_by_id i db.entries h in
    (
      r,
      found,
      subst (λ (d : Database). row_by_id i d.entries ≡ some (stamp_seq (db.change_seq + 1) (f r))) w
          (row_by_id-update_tracked i f k i db ∙ ground (arith, found, ==-refl i)),
    )

tracked-keys :
    (i : ℕ) (f : Row → Row) (db db' : Database)
    → KeepsKeys f
    → changed i db (update_tracked i f) ≡ ok db'
    → Inherits SameKey db db'
unfolding stamp_seq
tracked-keys i f db db' k e =
    subst (Inherits SameKey db) (changed-ok i db db' (update_tracked i f) e).1
      (tracked-Inherits SameKey SameKey-IsKept i f db k (λ n r. (k.content_hash r, k.selection r)))

module _ (c : Cipher) (i : ℕ) (db db' : Database) where
  pub stamp-Carries : (n : ℕ) (d : Text) → stamp i n d db ≡ ok db' → Carries db db'
  unfolding outcome stamp
  stamp-Carries n d e = (
    call-StaysValid (stamps i n d) c db db' e,
    tracked-keys i (stamp_row n d) db db' (stamp_row-KeepsKeys n d) e,
  )

  pub apply_remote_state-Carries :
      (s : Remote) → apply_remote_state i s db ≡ ok db' → Carries db db'
  unfolding outcome apply_remote_state
  apply_remote_state-Carries s e = (
    call-StaysValid (takes_over i s) c db db' e,
    tracked-keys i (remote_row s) db db' (remote_row-KeepsKeys s) e,
  )

  pub set_times-Carries : (created seen : ℕ) → set_times i created seen db ≡ ok db' → Carries db db'
  unfolding outcome set_times time_row
  set_times-Carries created seen e = (
    call-StaysValid (sets_times i created seen) c db db' e,
    subst (Inherits SameKey db) (changed-ok i db db' (update_plain i (time_row created seen)) e).1 (
        plain-Inherits SameKey SameKey-IsKept i (time_row created seen) db
          (time_row-KeepsKeys created seen) (λ r. (refl, refl))),
  )

  pub attach_blob-Carries :
      (mime blob_ref : Text) → attach_blob i mime blob_ref db ≡ ok db' → Carries db db'
  unfolding outcome attach_blob put_blob
  attach_blob-Carries mime blob_ref e =
      let same : db'.entries ≡ db.entries = elim (Bool-cases (has_id i db.entries)) [
        | inl h ↦
            let w : put_blob i mime blob_ref db ≡ db' = ground arith in
            ap (λ (d : Database). d.entries) (sym w)
        | inr h ↦ absurd (ground arith)
      ] in
      (
        call-StaysValid (attaches i mime blob_ref) c db db' e,
        same-Inherits SameKey SameKey-IsKept db db' same,
      )

pub mark_sensitive-Carries : (c : Cipher) (i : ℕ) (db : Database) → Carries db (mark_sensitive i db)
unfolding outcome mark_sensitive flag_row
mark_sensitive-Carries c i db = (
  outcome-Keeps c (flags i) db,
  plain-Inherits SameKey SameKey-IsKept i flag_row db flag_row-KeepsKeys (λ r. (refl, refl)),
)

pub index_content-Carries :
    (c : Cipher) (i : ℕ) (t : Text) (db : Database) → Carries db (index_content i t db)
unfolding outcome index_content
index_content-Carries c i t db = (
  outcome-Keeps c (indexes i t) db,
  same-Inherits SameKey SameKey-IsKept db (index_content i t db) refl,
)
