-- ===== src/Daemon/Entered.antt =====
-- daemon.rs, `store`: the entry that it returns is in the table under the capture's key.
use panora.Prelude.{
  ℕ, ◌≡◌, sym, ◌∙◌, ap, Bool, true, false, not, ◌&&◌, List, [], ◌∷◌, Text, Bytes, codes, find, ◌==◌,
  nat_eq, list_eq, ==→eq, arith, if◌then◌else◌, Bool-cases, Option-cases, inl, inr, Option, none,
  some, Result, ok, err, >>=-eq-ok, subst,
}
use panora.Model.{
  ClipboardData, MimePayload, ContentKind, image, kind_eq, Selection, selection_eq, total_size,
}
use panora.Crypto.{starts_with}
use panora.BlobStore.{put}
use panora.History.Defs.{Row, Database, row_by_id, row_by_key}
use panora.History.Rows.{row_by_key→row_by_id, row_by_id→has_id}
use panora.History.Entries.{Capture, Entry, upsert_entry, stamp, mark_sensitive, get, row_to_entry}
use panora.History.Blobs.{attach_blob}
use panora.History.Feed.{tick_lamport}
use panora.History.Validity.{IsValid}
use panora.History.Keeps.{upsert_entry-IsValid}
use panora.History.Calls.{ticks, outcome, outcome-Keeps}
use panora.History.Placement.{Placed, upsert_entry-Placed}
use panora.Sync.{payload_hash}
use panora.Daemon.{Error, from_history, from_blobs, Host, World, collect_garbage}
use panora.Daemon.Store.{
  attach_payload, attach_payloads, attach_image, attach_thumbnail, thumbnail_mime, index_when,
  is_some, store_row, store, sensitive_of, is_masked, masked_preview, primary_mime,
}
use panora.Daemon.Garbage.{from_history-ok, collect_garbage_lem}
use panora.Daemon.Carries.{
  Carries, Carries-trans, Carries-refl, Carries-IsUpkeep, stamp-Carries, attach_blob-Carries,
  mark_sensitive-Carries, index_content-Carries,
}

-- A valid table has the key in the row with the id.
pub record HasKey (content_hash : Text) (selection : Selection) (id : ℕ) (db : Database)
    : Type 0 where
  pub valid : IsValid db
  pub row : Row
  pub found : row_by_id id db.entries ≡ some row
  pub hash_same : row.content_hash ≡ content_hash
  pub selection_same : row.selection ≡ selection

-- What is carried on keeps the key, where the row is still there.
pub HasKey-Carries :
    (h : Text) (s : Selection) (id : ℕ) (db db' : Database) (row' : Row)
    → HasKey h s id db
    → Carries db db'
    → row_by_id id db'.entries ≡ some row'
    → HasKey h s id db'
HasKey-Carries h s id db db' row' k (valid, keys) e =
    let (row, found, p) = keys id row' e in
    let same : k.row ≡ row = ground (arith, k.found) in
    record {
      valid = valid k.valid;
      row = row';
      found = e;
      hash_same = p.0 ∙ ap (λ (r : Row). r.content_hash) (sym same) ∙ k.hash_same;
      selection_same = p.1 ∙ ap (λ (r : Row). r.selection) (sym same) ∙ k.selection_same;
    }

pub row_by_key-HasKey :
    (h : Text) (s : Selection) (row : Row) (db : Database)
    → IsValid db
    → row_by_key h s db.entries ≡ some row
    → HasKey h s row.id db
row_by_key-HasKey h s row db v e =
    let (found, same) = row_by_key→row_by_id h s db.entries row v.sound.unique e in
    record {
      valid = v;
      row = row;
      found = found;
      hash_same = ==→eq row.content_hash h (ground arith);
      selection_same = ==→eq row.selection s (ground arith);
    }

module _ (host : Host) (now : ℕ) where
  attach_payload-Carries :
      (id : ℕ) (mime : Text) (content : Bytes) (w w' : World)
      → attach_payload host id mime content w ≡ ok w'
      → Carries w.db w'.db
  unfolding attach_payload
  attach_payload-Carries id mime content w w' e =
      let ((blob_ref, files), p, e1) =
        >>=-eq-ok (from_blobs (put host.aead host.blake3 (host.nonce content) content w.files)) _
          e in
      let (db, q, e2) = >>=-eq-ok (from_history (attach_blob id mime blob_ref w.db)) _ e1 in
      let v : record { db = db; files = files } ≡ w' = ground arith in
      subst (λ (x : World). Carries w.db x.db) v
        (attach_blob-Carries host.cipher id w.db db mime blob_ref (from_history-ok _ db q))

  attach_payloads-Carries :
      (id : ℕ) (payloads : List MimePayload) (w w' : World)
      → attach_payloads host id payloads w ≡ ok w'
      → Carries w.db w'.db
  unfolding attach_payloads
  attach_payloads-Carries id [] w w' e =
      let v : w ≡ w' = ground arith in
      subst (λ (x : World). Carries w.db x.db) v (Carries-refl w.db)
  attach_payloads-Carries id (p ∷ ps) w w' e =
      let (mid, a, b) = >>=-eq-ok (attach_payload host id p.mime p.content w) _ e in
      Carries-trans w.db mid.db w'.db (attach_payload-Carries id p.mime p.content w mid a)
        (attach_payloads-Carries id ps mid w' b)

  attach_image-Carries :
      (id : ℕ) (found : Option MimePayload) (w w' : World)
      → attach_image host id found w ≡ ok w'
      → Carries w.db w'.db
  attach_image-Carries id none w w' e =
      let v : w ≡ w' = ground arith in
      subst (λ (x : World). Carries w.db x.db) v (Carries-refl w.db)
  attach_image-Carries id (some p) w w' e = elim (Option-cases (host.render_thumbnail p.content)) [
    | inl t ↦
        let v : w ≡ w' = ground arith in
        subst (λ (x : World). Carries w.db x.db) v (Carries-refl w.db)
    | inr (png, t) ↦ attach_payload-Carries id thumbnail_mime png w w' (ground arith)
  ]

  attach_thumbnail-Carries :
      (id : ℕ) (kind : ContentKind) (payloads : List MimePayload) (w w' : World)
      → attach_thumbnail host id kind payloads w ≡ ok w'
      → Carries w.db w'.db
  unfolding attach_thumbnail
  attach_thumbnail-Carries id kind payloads w w' e = elim (Bool-cases (kind == image)) [
    | inl t ↦
        attach_image-Carries id (find (λ p. starts_with p.mime (codes "image/")) payloads) w w'
          (ground arith)
    | inr t ↦
        let v : w ≡ w' = ground arith in
        subst (λ (x : World). Carries w.db x.db) v (Carries-refl w.db)
  ]

  index_when-Carries :
      (on : Bool) (id : ℕ) (t : Option Text) (db : Database) → Carries db (index_when on id t db)
  index_when-Carries true id (some t) db = index_content-Carries host.cipher id t db
  index_when-Carries true id none db = Carries-refl db
  index_when-Carries false id t db = Carries-refl db

  flag_when-Carries :
      (on : Bool) (id : ℕ) (db : Database) → Carries db (if on then mark_sensitive id db else db)
  flag_when-Carries true id db = mark_sensitive-Carries host.cipher id db
  flag_when-Carries false id db = Carries-refl db

  tick-IsValid : (db : Database) → IsValid db → IsValid (tick_lamport db).1
  unfolding outcome
  tick-IsValid db v = outcome-Keeps host.cipher ticks db v

  upsert_entry-HasKey :
      (c : Capture) (db db' : Database) (id : ℕ)
      → IsValid db
      → upsert_entry host.cipher c db ≡ ok (id, db')
      → HasKey c.content_hash c.selection id db'
  upsert_entry-HasKey c db db' id v e =
      let p : Placed c id db db' = upsert_entry-Placed host.cipher c db db' id v.sound.unique e in
      subst (λ (i : ℕ). HasKey c.content_hash c.selection i db') p.id
        (row_by_key-HasKey c.content_hash c.selection p.row db'
          (upsert_entry-IsValid host.cipher c db db' id v e) p.found)

  store_row-HasKey :
      (captured : ClipboardData) (db db' : Database) (id : ℕ)
      → IsValid db
      → store_row host now captured db ≡ ok (id, db')
      → (db2 : Database) × HasKey
          (payload_hash host.blake3 captured.payloads)
          captured.selection
          id
          db2
        × Carries db2 db'
  unfolding store_row
  store_row-HasKey captured db db' id v e =
      let kind : ContentKind = host.classify captured in
      let content : Text = host.text_of captured in
      let found : Option Text = sensitive_of host kind content in
      let masked : Bool = is_masked host found in
      let capture : Capture = record {
        content_hash = payload_hash host.blake3 captured.payloads;
        preview =
            if masked
            then masked_preview (host.make_preview captured) found
            else host.make_preview captured;
        kind = kind;
        primary_mime = primary_mime captured.payloads;
        size_bytes = total_size captured.payloads;
        source_app = captured.source_app;
        selection = captured.selection;
        now = now;
        device_id = host.device_id;
        lamport = (tick_lamport db).0;
        bump_on_duplicate = not (host.config.duplicate_policy == codes "ignore");
      } in
      let ((i, db2), p, e1) =
        >>=-eq-ok (from_history (upsert_entry host.cipher capture (tick_lamport db).1)) _ e in
      let (db3, q, e2) =
        >>=-eq-ok (from_history (stamp i (tick_lamport db).0 host.device_id db2)) _ e1 in
      let db4 : Database = if is_some found then mark_sensitive i db3 else db3 in
      let on : Bool = host.config.index_full_text && not masked in
      let db5 : Database = index_when on i (host.index_text content kind) db4 in
      let same_id : i ≡ id =
        ap (λ (r : Result Error (ℕ × Database)). elim r [ ok (a, b) ↦ a | err x ↦ 0 ]) e2 in
      let same_db : db5 ≡ db' =
        ap (λ (r : Result Error (ℕ × Database)). elim r [ ok (a, b) ↦ b | err x ↦ db ]) e2 in
      let key : HasKey capture.content_hash captured.selection i db2 =
        upsert_entry-HasKey capture (tick_lamport db).1 db2 i (tick-IsValid db v)
          (from_history-ok _ (i, db2) p) in
      (
        db2,
        subst (λ (k : ℕ). HasKey capture.content_hash captured.selection k db2) same_id key,
        subst (Carries db2) same_db (
            Carries-trans db2 db3 db5
              (stamp-Carries host.cipher i db2 db3 (tick_lamport db).0 host.device_id
                (from_history-ok _ db3 q))
              (Carries-trans db3 db4 db5 (flag_when-Carries (is_some found) i db3)
                (index_when-Carries on i (host.index_text content kind) db4))),
      )

  get-row :
      (id : ℕ) (db : Database) (entry : Entry)
      → get host.cipher id db ≡ ok entry
      → row_by_id id db.entries ≡ some entry.row
  unfolding get row_to_entry
  get-row id db entry e = elim (Option-cases (row_by_id id db.entries)) [
    | inl p ↦ absurd (ground arith)
    | inr (row, p) ↦
        let w : row_to_entry host.cipher row ≡ entry = ground arith in
        p ∙ ap (λ (x : Entry). some x.row) w
  ]

  pub store-HasKey :
      (captured : ClipboardData) (w w' : World) (entry : Entry)
      → IsValid w.db
      → store host now captured w ≡ ok (entry, w')
      → HasKey (payload_hash host.blake3 captured.payloads) captured.selection entry.row.id w'.db
  unfolding store
  store-HasKey captured w w' entry v e =
      let ((id, db), p, e1) = >>=-eq-ok (store_row host now captured w.db) _ e in
      let (w1, p1, e2) =
        >>=-eq-ok (attach_payloads host id captured.payloads (record w { db = db })) _ e1 in
      let (w2, p2, e3) =
        >>=-eq-ok (attach_thumbnail host id (host.classify captured) captured.payloads w1) _ e2 in
      let ((n, w3), p3, e4) = >>=-eq-ok (collect_garbage host.config now w2) _ e3 in
      let (got, p4, e5) = >>=-eq-ok (from_history (get host.cipher id w3.db)) _ e4 in
      let same_entry : got ≡ entry =
        ap (λ (r : Result Error (Entry × World)). elim r [ ok (a, b) ↦ a | err x ↦ got ]) e5 in
      let same_world : w3 ≡ w' =
        ap (λ (r : Result Error (Entry × World)). elim r [ ok (a, b) ↦ b | err x ↦ w3 ]) e5 in
      let (db2, key, carried) = store_row-HasKey captured w.db db id v p in
      let there : row_by_id id w3.db.entries ≡ some got.row =
        get-row id w3.db got (from_history-ok _ got p4) in
      let chain : Carries db2 w3.db = Carries-trans db2 db w3.db carried (
        Carries-trans db w1.db w3.db
          (attach_payloads-Carries id captured.payloads (record w { db = db }) w1 p1)
          (Carries-trans w1.db w2.db w3.db
            (attach_thumbnail-Carries id (host.classify captured) captured.payloads w1 w2 p2)
            (collect_garbage_lem Carries (Carries-IsUpkeep host.cipher) host.config now w2 w3 n
              p3))) in
      let held : HasKey (payload_hash host.blake3 captured.payloads) captured.selection id w3.db =
        HasKey-Carries _ captured.selection id db2 w3.db got.row key chain there in
      let same_id : got.row.id ≡ id = (row_by_id→has_id id w3.db.entries got.row there).1 in
      subst
        (λ (x : World).
          HasKey (payload_hash host.blake3 captured.payloads) captured.selection entry.row.id x.db)
        same_world
        (subst
          (λ (x : Entry).
            HasKey (payload_hash host.blake3 captured.payloads) captured.selection x.row.id w3.db)
          same_entry
          (subst
            (λ (k : ℕ).
              HasKey (payload_hash host.blake3 captured.payloads) captured.selection k w3.db)
            (sym same_id) held))
