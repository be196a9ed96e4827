-- ===== src/Daemon/Pages.antt =====
-- daemon.rs, `sync_changes`: what a reply holds at most.
use panora.Prelude.{
  ℕ, zero, suc, ◌+◌, ◌≤◌, ◌<◌, ◌≡◌, refl, ◌∙◌, ap, Bool, true, false, not, Option, none, some, List,
  [], ◌∷◌, ◌++◌, length, length-append, ◌==◌, nat_eq, leb, leb→gt, arith, Bool-cases, inl, inr,
  Result, ok, ◌>>=◌, >>=-eq-ok, subst,
}
use panora.Model.{MimePayload}
use panora.Model as Model
use panora.History.Defs.{Row}
use panora.History.Feed.{changes_since}
use panora.Sync.{SyncRecord, SyncScope, includes}
use panora.Daemon.{Error, Host, World}
use panora.Daemon.Changes.{
  max_fds_per_frame, sync_max_entry_bytes, Page, move_on, record_of, is_unfit, is_full, push,
  payloads_of, weigh, visit, scan, feed_loop, limit_of, sync_changes,
}

abbrev pub payloads_in : List SyncRecord → ℕ
payloads_in [] = 0
payloads_in (r ∷ rs) = length r.payloads + payloads_in rs

abbrev pub bytes_in : List SyncRecord → ℕ
bytes_in [] = 0
bytes_in (r ∷ rs) = Model.total_size r.payloads + bytes_in rs

payloads_in-append :
    (rs : List SyncRecord) (r : SyncRecord)
    → payloads_in (rs ++ r ∷ []) ≡ payloads_in rs + length r.payloads
payloads_in-append [] r = omega arith
payloads_in-append (x ∷ rs) r = omega (arith, payloads_in-append rs r)

bytes_in-append :
    (rs : List SyncRecord) (r : SyncRecord)
    → bytes_in (rs ++ r ∷ []) ≡ bytes_in rs + Model.total_size r.payloads
bytes_in-append [] r = omega arith
bytes_in-append (x ∷ rs) r = omega (arith, bytes_in-append rs r)

-- The counters of the loop are exact, and a frame can carry the records.
record Fits (limit : ℕ) (page : Page) : Type 0 where
  pub count_same : page.payload_count ≡ payloads_in page.records
  pub bytes_same : page.bytes ≡ bytes_in page.records
  pub few : length page.records ≤ limit
  pub count_fits : page.payload_count ≤ max_fds_per_frame
  pub bytes_fit : page.bytes ≤ sync_max_entry_bytes

move_on-Fits : (limit seq : ℕ) (page : Page) → Fits limit page → Fits limit (move_on seq page)
move_on-Fits limit seq page f = record {
  count_same = f.count_same;
  bytes_same = f.bytes_same;
  few = f.few;
  count_fits = f.count_fits;
  bytes_fit = f.bytes_fit;
}

empty_lem : (rs : List SyncRecord) → (length rs == 0) ≡ true → rs ≡ []
empty_lem [] e = refl
empty_lem (r ∷ rs) e = absurd (ground arith)

is_unfit-false :
    (host : Host) (row : Row) (payloads : List MimePayload)
    → is_unfit host row payloads ≡ false
    → (length payloads ≤ max_fds_per_frame) × (Model.total_size payloads ≤ sync_max_entry_bytes)
unfolding is_unfit
is_unfit-false host row payloads e = (ground arith, ground arith)

-- An empty page has room for whatever is not unfit; another one says what it has room for.
is_full-false :
    (limit : ℕ) (page : Page) (payloads : List MimePayload)
    → Fits limit page
    → is_full page payloads ≡ false
    → length payloads ≤ max_fds_per_frame
    → Model.total_size payloads ≤ sync_max_entry_bytes
    → (page.payload_count + length payloads ≤ max_fds_per_frame)
      × (page.bytes + Model.total_size payloads ≤ sync_max_entry_bytes)
unfolding is_full
is_full-false limit page payloads f e count size = elim (Bool-cases (length page.records == 0)) [
  | inl none_yet ↦
      let nothing : page.records ≡ [] = empty_lem page.records none_yet in
      let no_count : page.payload_count ≡ 0 = f.count_same ∙ ap payloads_in nothing in
      let no_bytes : page.bytes ≡ 0 = f.bytes_same ∙ ap bytes_in nothing in
      (omega arith, omega arith)
  | inr some_there ↦ (ground arith, ground arith)
]

module _ (host : Host) (limit : ℕ) where
  push-Fits :
      (seq : ℕ) (row : Row) (payloads : List MimePayload) (page : Page)
      → Fits limit page
      → length page.records < limit
      → is_unfit host row payloads ≡ false
      → is_full page payloads ≡ false
      → Fits limit (push seq row payloads page)
  unfolding push record_of
  push-Fits seq row payloads page f room fit free =
      let (count, size) = is_unfit-false host row payloads fit in
      let (count_fits, bytes_fit) = is_full-false limit page payloads f free count size in
      record {
        count_same =
            omega (arith, f.count_same, payloads_in-append page.records (record_of row payloads));
        bytes_same =
            omega (arith, f.bytes_same, bytes_in-append page.records (record_of row payloads));
        few = omega (arith, length-append page.records (record_of row payloads ∷ []));
        count_fits = count_fits;
        bytes_fit = bytes_fit;
      }

  weigh-Fits :
      (seq : ℕ) (row : Row) (payloads : List MimePayload) (page page' : Page)
      → Fits limit page
      → length page.records < limit
      → weigh host seq row payloads page ≡ some page'
      → Fits limit page'
  unfolding weigh
  weigh-Fits seq row payloads page page' f room e = elim (Bool-cases (is_unfit host row payloads)) [
    | inl u ↦
        let w : move_on seq page ≡ page' = ground arith in
        subst (Fits limit) w (move_on-Fits limit seq page f)
    | inr u ↦ elim (Bool-cases (is_full page payloads)) [
      | inl p ↦ absurd (ground arith)
      | inr p ↦
          let w : push seq row payloads page ≡ page' = ground arith in
          subst (Fits limit) w (push-Fits seq row payloads page f room u p)
    ]
  ]

module _ (host : Host) (limit : ℕ) (scope : SyncScope) (w : World) where
  visit-Fits :
      (seq : ℕ) (row : Row) (page page' : Page)
      → Fits limit page
      → visit host limit scope w seq row page ≡ ok (some page')
      → Fits limit page'
  unfolding visit
  visit-Fits seq row page page' f e = elim (Bool-cases (leb limit (length page.records))) [
    | inl p ↦ absurd (ground arith)
    | inr p ↦ elim (Bool-cases (not (includes scope row.kind row.pinned row.deleted))) [
      | inl q ↦
          let v : move_on seq page ≡ page' = ground arith in
          subst (Fits limit) v (move_on-Fits limit seq page f)
      | inr q ↦
          let e0 : (do payloads ← payloads_of host row w; ok (weigh host seq row payloads page))
              ≡ ok (some page') =
            ground arith in
          let (payloads, a, b) = >>=-eq-ok (payloads_of host row w) _ e0 in
          weigh-Fits host limit seq row payloads page page' f (leb→gt limit (length page.records) p)
            (ground arith)
    ]
  ]

  -- The end of the loop, or the rest of it.
  scan_on :
      (rows : List (ℕ × Row)) (stopped : Bool) (page page' : Page) (visited : Option Page)
      → Fits limit page
      → ((p : Page)
          → visited ≡ some p
          → scan host limit scope w rows p ≡ ok (stopped, page')
          → Fits limit page')
      → elim visited as (λ _. Result Error (Bool × Page)) [
        | none ↦ ok (true, page)
        | some p ↦ scan host limit scope w rows p
      ]
        ≡ ok (stopped, page')
      → Fits limit page'
  scan_on rows stopped page page' none f rest e =
      let v : page ≡ page' = ground arith in subst (Fits limit) v f
  scan_on rows stopped page page' (some p) f rest e = rest p refl e

  scan-Fits :
      (rows : List (ℕ × Row)) (stopped : Bool) (page page' : Page)
      → Fits limit page
      → scan host limit scope w rows page ≡ ok (stopped, page')
      → Fits limit page'
  unfolding scan
  scan-Fits [] stopped page page' f e =
      let v : page ≡ page' = ground arith in subst (Fits limit) v f
  scan-Fits ((seq, row) ∷ rows) stopped page page' f e =
      let (visited, a, b) = >>=-eq-ok (visit host limit scope w seq row page) _ e in
      scan_on rows stopped page page' visited f
        (λ p q c.
          scan-Fits rows stopped p page'
            (visit-Fits seq row page p f
              (subst (λ (o : Option Page). visit host limit scope w seq row page ≡ ok o) q a))
            c)
        b

  loop_on :
      (fuel : ℕ) (stopped : Bool) (page page' : Page)
      → Fits limit page
      → (feed_loop host limit scope w fuel page ≡ ok (some page') → Fits limit page')
      → elim stopped as (λ _. Result Error (Option Page)) [
        | true ↦ ok (some page)
        | false ↦ feed_loop host limit scope w fuel page
      ]
        ≡ ok (some page')
      → Fits limit page'
  loop_on fuel true page page' f rest e =
      let v : page ≡ page' = ground arith in subst (Fits limit) v f
  loop_on fuel false page page' f rest e = rest e

  feed_loop-Fits :
      (fuel : ℕ) (page page' : Page)
      → Fits limit page
      → feed_loop host limit scope w fuel page ≡ ok (some page')
      → Fits limit page'
  unfolding feed_loop
  feed_loop-Fits zero page page' f e = absurd (ground arith)
  feed_loop-Fits (suc fuel) page page' f e =
      let rows : List (ℕ × Row) = changes_since page.cursor 64 w.db in
      elim (Bool-cases (length rows == 0)) [
        | inl p ↦ let v : page ≡ page' = ground arith in subst (Fits limit) v f
        | inr p ↦
            let e0 : (do
              (stopped, mid) ← scan host limit scope w rows page
              elim stopped as (λ _. Result Error (Option Page)) [
                | true ↦ ok (some mid)
                | false ↦ feed_loop host limit scope w fuel mid
              ])
                ≡ ok (some page') =
              ground arith in
            let ((stopped, mid), a, b) = >>=-eq-ok (scan host limit scope w rows page) _ e0 in
            let g : Fits limit mid = scan-Fits rows stopped page mid f a in
            loop_on fuel stopped mid page' g (feed_loop-Fits fuel mid page' g) b
      ]

abbrev Bounds : ℕ → List SyncRecord → Type 0
Bounds limit records =
    (length records ≤ limit)
    × (payloads_in records ≤ max_fds_per_frame)
    × (bytes_in records ≤ sync_max_entry_bytes)

Fits-Bounds : (limit : ℕ) (page : Page) → Fits limit page → Bounds limit page.records
Fits-Bounds limit page f =
    (f.few, omega (arith, f.count_same, f.count_fits), omega (arith, f.bytes_same, f.bytes_fit))

abbrev records_in :
    List SyncRecord → Result Error (Option (List SyncRecord × ℕ × Bool)) → List SyncRecord
records_in d (ok (some (records, cursor, more))) = records
records_in d _ = d

reply_bound :
    (limit cursor : ℕ) (w : World) (records : List SyncRecord) (more : Bool) (found : Option Page)
    → ((p : Page) → found ≡ some p → Fits limit p)
    → elim found as (λ _. Result Error (Option (List SyncRecord × ℕ × Bool))) [
      | none ↦ ok none
      | some page ↦
          ok
            (some (page.records, page.cursor, not (length (changes_since page.cursor 1 w.db) == 0)))
    ]
      ≡ ok (some (records, cursor, more))
    → Bounds limit records
reply_bound limit cursor w records more none fits e = absurd (ground arith)
reply_bound limit cursor w records more (some p) fits e =
    subst (Bounds limit) (ap (records_in p.records) e) (Fits-Bounds limit p (fits p refl))

-- A reply holds at most as many records as the limit allows, at most 16 payloads in all, and at
-- most 48 MiB of payload data in all.
pub sync_changes-bound :
    (host : Host) (fuel since limit cursor : ℕ) (scope : SyncScope) (w : World)
    (records : List SyncRecord) (more : Bool)
    → sync_changes host fuel since limit scope w ≡ ok (some (records, cursor, more))
    → (length records ≤ limit_of limit)
      × (payloads_in records ≤ max_fds_per_frame)
      × (bytes_in records ≤ sync_max_entry_bytes)
unfolding sync_changes
sync_changes-bound host fuel since limit cursor scope w records more e =
    let start : Page = record { cursor = since; records = []; payload_count = 0; bytes = 0 } in
    let (found, a, b) = >>=-eq-ok (feed_loop host (limit_of limit) scope w fuel start) _ e in
    reply_bound (limit_of limit) cursor w records more found
      (λ p q.
        feed_loop-Fits host (limit_of limit) scope w fuel start p
          (record {
            count_same = refl;
            bytes_same = refl;
            few = omega arith;
            count_fits = omega arith;
            bytes_fit = omega arith;
          })
          (subst (λ (o : Option Page). feed_loop host (limit_of limit) scope w fuel start ≡ ok o) q
            a))
      b
