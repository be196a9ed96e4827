-- ===== src/Daemon/LastWriter.antt =====
-- daemon.rs, `apply_record`: the whole of what it answers, and applying a record again.
use mathlib.Core.Option
use panora.Prelude.{
  ℕ, ◌≡◌, refl, sym, ◌∙◌, ap, ◌⊎◌, inl, inr, true, not, ◌&&◌, List, [], Text, ℤ, pos, negsuc, ◌==◌,
  nat_eq, list_eq, ==→eq, ltb, arith, Bool-cases, Option-cases, Option, none, some, ok, subst,
}
use panora.Model.{Selection, selection_eq}
use panora.History.Defs.{Row, Database, row_by_key}
use panora.History.Entries.{find_entry, row_to_entry}
use panora.History.Rows.{row_by_id→row_by_key}
use panora.History.Feed.{lamport_observe_limit, observe_lamport}
use panora.History.Validity.{IsValid}
use panora.History.Calls.{outcome, outcome-Keeps, observes}
use panora.Sync.{SyncRecord, payload_hash, lww_wins}
use panora.Sync.Order.{lww_wins_irrefl}
use panora.Daemon.{Host, World}
use panora.Daemon.Peers.{
  Applied, yes, ignored, rejected, Numbers, lamport_in_range, well_formed, payloads_match,
  clamp_times, observe, is_beaten, find_local, apply_state, apply_record,
}
use panora.Daemon.Entered.{HasKey, row_by_key-HasKey}
use panora.Daemon.Winner.{
  Taken, Settles, done, ok-pair, skipped, apply_deletion-Settles, apply_live-Settles,
}

lamport_in_range-pos : (z : ℤ) (n : ℕ) → lamport_in_range z ≡ some n → z ≡ pos n
unfolding lamport_in_range
lamport_in_range-pos (negsuc m) n e = absurd cc
lamport_in_range-pos (pos m) n e = ground arith

module _ (host : Host) (r : SyncRecord) where
  well_formed_lem :
      (now : ℕ) (k : Numbers)
      → well_formed host now r ≡ some k
      → (r.lamport ≡ pos k.lamport)
        × (payloads_match host r ≡ true)
        × ((later : ℕ) → well_formed host later r ≡ some (clamp_times later r k.lamport))
  unfolding well_formed clamp_times
  well_formed_lem now k e = elim (Option-cases (lamport_in_range r.lamport)) [
    | inl p ↦ absurd (ground arith)
    | inr (n, p) ↦ elim (Bool-cases (not (r.device_id == []) && payloads_match host r)) [
      | inl q ↦
          let w : clamp_times now r n ≡ k = ground arith in
          let same : n ≡ k.lamport = ap (λ (x : Numbers). x.lamport) w in
          (
            subst (λ (x : ℕ). r.lamport ≡ pos x) same (lamport_in_range-pos r.lamport n p),
            ground arith,
            λ later.
                subst (λ (x : ℕ). well_formed host later r ≡ some (clamp_times later r x)) same
                  (rw (p, well_formed, q) refl),
          )
      | inr q ↦ absurd (ground arith)
    ]
  ]

  observe-entries : (n : ℕ) (w : World) → (observe n w).db.entries ≡ w.db.entries
  unfolding observe observe_lamport
  observe-entries n w = ground arith

  observe-IsValid : (n : ℕ) (w : World) → IsValid w.db → IsValid (observe n w).db
  unfolding observe outcome
  observe-IsValid n w v = elim (Bool-cases (ltb n lamport_observe_limit)) [
    | inl l ↦ rw l (outcome-Keeps host.cipher (observes n) w.db v)
    | inr l ↦ rw l v
  ]

  find_local_lem :
      (db : Database) → find_local host r db ≡ row_by_key r.content_hash r.selection db.entries
  unfolding find_local find_entry row_to_entry
  find_local_lem db = go (row_by_key r.content_hash r.selection db.entries)
    where
      go :
          (found : Option Row)
          → elim (Option.map (row_to_entry host.cipher) found) as (λ _. Option Row) [
            | none ↦ none
            | some entry ↦ some entry.row
          ]
            ≡ found
      go none = refl
      go (some row) = refl

  held_local :
      (db : Database) (row : Row)
      → IsValid db
      → find_local host r db ≡ some row
      → HasKey r.content_hash r.selection row.id db
  held_local db row v e =
      row_by_key-HasKey r.content_hash r.selection row db v (sym (find_local_lem db) ∙ e)

  apply_state-Settles :
      (now : ℕ) (n : Numbers) (w w' : World) (a : Applied)
      → IsValid w.db
      → payloads_match host r ≡ true
      → apply_state host now r n (find_local host r w.db) w ≡ done a w'
      → Settles r n.lamport w a w'
  unfolding payloads_match
  apply_state-Settles now n w w' a v m e =
      let local : Option Row = find_local host r w.db in
      elim (Bool-cases (is_beaten r n local)) [
        | inl b ↦ skipped host now r n w w' a (ground arith)
        | inr b ↦ elim (Bool-cases r.deleted) [
          | inl d ↦
              apply_deletion-Settles host now r n local w w' a (λ row p. held_local w.db row v p)
                (ground arith)
          | inr d ↦
              apply_live-Settles host now r n local w w' a v (λ row p. held_local w.db row v p)
                (==→eq (payload_hash host.blake3 r.payloads) r.content_hash (ground arith))
                (ground arith)
        ]
      ]

  -- Where the tables are valid, every answer of `apply_record` is one of three: rejected, with
  -- nothing changed; ignored, with nothing changed but the observed clock; or applied, and then
  -- the tables are valid and the record's hash and selection find a row with its Lamport value and
  -- device, also when the entry was stored anew and the limits ran.
  pub apply_record-Settles :
      (now : ℕ) (w w' : World) (a : Applied)
      → IsValid w.db
      → apply_record host now r w ≡ ok (a, w')
      → ((a ≡ rejected) × (w ≡ w'))
        ⊎ ((n : ℕ) × (r.lamport ≡ pos n) × Settles r n (observe n w) a w')
  unfolding apply_record
  apply_record-Settles now w w' a v e = elim (Option-cases (well_formed host now r)) [
    | inl p ↦
        let q : done rejected w ≡ done a w' = ground arith in
        let (s, t) = ok-pair rejected a w w' q in inl (sym s, t)
    | inr (k, p) ↦
        let (z, m, _) = well_formed_lem now k p in
        inr (
          k.lamport,
          z,
          apply_state-Settles now k (observe k.lamport w) w' a (observe-IsValid k.lamport w v) m
              (ground arith),
        )
  ]

  found_again :
      (n m : ℕ) (w : World) (t : Taken r n w.db)
      → find_local host r (observe m w).db ≡ some t.key.row
  found_again n m w t =
      let row : Row = t.key.row in
      let found : row_by_key row.content_hash row.selection w.db.entries ≡ some row =
        row_by_id→row_by_key t.id w.db.entries row t.key.valid.sound.unique t.key.found in
      let at_key : row_by_key r.content_hash r.selection w.db.entries ≡ some row =
        subst (λ (h : Text). row_by_key h r.selection w.db.entries ≡ some row) t.key.hash_same
          (subst (λ (s : Selection). row_by_key row.content_hash s w.db.entries ≡ some row)
            t.key.selection_same found) in
      find_local_lem (observe m w).db
      ∙ ap (λ (rows : List Row). row_by_key r.content_hash r.selection rows) (observe-entries m w)
      ∙ at_key

  beaten_again :
      (n : ℕ) (k : Numbers) (row : Row)
      → row.lamport ≡ k.lamport
      → row.device_id ≡ r.device_id
      → is_beaten r k (some row) ≡ true
  unfolding is_beaten
  beaten_again n k row p q = rw (p, q, lww_wins_irrefl (k.lamport, r.device_id)) refl

  again_ignored :
      (later n : ℕ) (w : World)
      → well_formed host later r ≡ some (clamp_times later r n)
      → Taken r n w.db
      → apply_record host later r w ≡ ok (ignored, observe n w)
  unfolding apply_record clamp_times
  again_ignored later n w f t =
      let k : Numbers = clamp_times later r n in
      rw (f, apply_record, found_again n n w t, beaten_again n k t.key.row t.lamport t.device) refl

  -- Where the tables are valid and a record was applied, applying it again at any time is ignored,
  -- and changes nothing but the observed clock.
  pub apply_record_again :
      (now later : ℕ) (w w' : World)
      → IsValid w.db
      → apply_record host now r w ≡ ok (yes, w')
      → (n : ℕ) × (r.lamport ≡ pos n) × (apply_record host later r w' ≡ ok (ignored, observe n w'))
  unfolding apply_record
  apply_record_again now later w w' v e = elim (Option-cases (well_formed host now r)) [
    | inl p ↦ absurd (ground arith)
    | inr (k, p) ↦
        let (z, m, again) = well_formed_lem now k p in
        elim (apply_state-Settles now k (observe k.lamport w) w' yes (observe-IsValid k.lamport w v)
          m (ground arith)) [
            | inl (bad, _) ↦ absurd cc
            | inr (_, t) ↦ (k.lamport, z, again_ignored later k.lamport w' (again later) t)
          ]
  ]

  -- A record is applied over a row that its key finds, live or deleted, only if the record's
  -- Lamport value and device beat the row's.
  pub apply_record_wins :
      (now : ℕ) (w w' : World) (row : Row)
      → row_by_key r.content_hash r.selection w.db.entries ≡ some row
      → apply_record host now r w ≡ ok (yes, w')
      → (n : ℕ) × (r.lamport ≡ pos n)
        × (lww_wins (n, r.device_id) (row.lamport, row.device_id) ≡ true)
  unfolding apply_record is_beaten
  apply_record_wins now w w' row f e = elim (Option-cases (well_formed host now r)) [
    | inl p ↦ absurd (ground arith)
    | inr (k, p) ↦
        let (z, m, _) = well_formed_lem now k p in
        let found : find_local host r (observe k.lamport w).db ≡ some row =
          find_local_lem (observe k.lamport w).db
          ∙ ap (λ (rows : List Row). row_by_key r.content_hash r.selection rows)
              (observe-entries k.lamport w)
          ∙ f in
        elim (Bool-cases (lww_wins (k.lamport, r.device_id) (row.lamport, row.device_id))) [
          | inl b ↦ (k.lamport, z, b)
          | inr b ↦ absurd (ground (arith, found))
        ]
  ]
