-- ===== src/Daemon/FeedEnds.antt =====
-- daemon.rs, `sync_changes`: the loop over the feed comes to an end.
use panora.Prelude.{
  ℕ, zero, suc, ◌≤◌, ◌<◌, ◌≡◌, ◌≢◌, refl, sym, ◌∙◌, ap, ◌⊎◌, inl, inr, Bool, true, false, not,
  Option, none, some, List, [], ◌∷◌, map, length, take, keep, ◌==◌, nat_eq, leb, arith, Bool-cases,
  Result, ok, ◌>>=◌, >>=-eq-ok, subst,
}
use panora.Model.{MimePayload}
use panora.History.Defs.{Row}
use panora.History.Sequence.{has_seq}
use panora.History.Retention.{sort_by}
use panora.History.Feed.{changes_since, is_shared, by_seq}
use panora.History.Resume.{has_seq-sort_by}
use panora.Sync.{SyncRecord, SyncScope, includes}
use panora.Daemon.{Error, Host, World}
use panora.Daemon.Changes.{
  Page, move_on, is_unfit, is_full, push, payloads_of, weigh, visit, scan, feed_loop, limit_of,
  sync_changes,
}

-- How many rows the feed has after a counter value.
abbrev pending : ℕ → List Row → ℕ
pending since rows = length (keep (is_shared since) rows)

pending_mono : (c d : ℕ) (rows : List Row) → c ≤ d → pending d rows ≤ pending c rows
unfolding is_shared
pending_mono c d [] h = omega arith
pending_mono c d (r ∷ rs) h = ground (arith, pending_mono c d rs h)

later_than : (c d : ℕ) (rows : List Row) → has_seq d (keep (is_shared c) rows) ≡ true → c < d
unfolding is_shared has_seq
later_than c d [] h = absurd cc
later_than c d (r ∷ rs) h = ground (arith, later_than c d rs)

-- The row with the value itself does not come after it.
past_it : (c d : ℕ) (r : Row) → c < d → is_shared c r ≡ false → is_shared d r ≡ false
unfolding is_shared
past_it c d r h e = ground arith

at_it : (d : ℕ) (r : Row) → (r.change_seq == d) ≡ true → is_shared d r ≡ false
unfolding is_shared
at_it d r e = ground arith

pending_drop :
    (c d : ℕ) (rows : List Row)
    → c < d
    → has_seq d (keep (is_shared c) rows) ≡ true
    → pending d rows < pending c rows
unfolding has_seq
pending_drop c d [] lt h = absurd cc
pending_drop c d (r ∷ rs) lt h = elim (Bool-cases (is_shared c r)) [
  | inl shared ↦ elim (Bool-cases (r.change_seq == d)) [
    | inl here ↦
        let mono : pending d rs ≤ pending c rs = pending_mono c d rs (omega arith) in
        rw (shared, at_it d r here) (omega arith)
    | inr other ↦
        let less : pending d rs < pending c rs = pending_drop c d rs lt (ground (arith, shared)) in
        rw shared (ground arith)
  ]
  | inr hidden ↦
      let less : pending d rs < pending c rs = pending_drop c d rs lt (ground (arith, hidden)) in
      rw (hidden, past_it c d r lt hidden) less
]

pending_less :
    (c d : ℕ) (rows : List Row)
    → has_seq d (keep (is_shared c) rows) ≡ true
    → pending d rows < pending c rows
pending_less c d rows h = pending_drop c d rows (later_than c d rows h) h

pending-length : (c : ℕ) (rows : List Row) → pending c rows ≤ length rows
pending-length c [] = omega arith
pending-length c (r ∷ rs) = ground (arith, pending-length c rs)

has_seq-take : (x n : ℕ) (rows : List Row) → has_seq x (take n rows) ≡ true → has_seq x rows ≡ true
unfolding has_seq
has_seq-take x zero rows h = absurd cc
has_seq-take x (suc n) [] h = absurd cc
has_seq-take x (suc n) (r ∷ rs) h = ground (arith, has_seq-take x n rs)

abbrev pairs : List Row → List (ℕ × Row)
pairs rows = map (λ r. (r.change_seq, r)) rows

module _ (host : Host) (limit : ℕ) (scope : SyncScope) (w : World) where
  weigh-cursor :
      (seq : ℕ) (row : Row) (payloads : List MimePayload) (page page' : Page)
      → weigh host seq row payloads page ≡ some page'
      → page'.cursor ≡ seq
  unfolding weigh push
  weigh-cursor seq row payloads page page' e = elim (Bool-cases (is_unfit host row payloads)) [
    | inl u ↦ let v : move_on seq page ≡ page' = ground arith in ap (λ (p : Page). p.cursor) (sym v)
    | inr u ↦ elim (Bool-cases (is_full page payloads)) [
      | inl p ↦ absurd (ground arith)
      | inr p ↦
          let v : push seq row payloads page ≡ page' = ground arith in
          ap (λ (p : Page). p.cursor) (sym v)
    ]
  ]

  visit-cursor :
      (seq : ℕ) (row : Row) (page page' : Page)
      → visit host limit scope w seq row page ≡ ok (some page')
      → page'.cursor ≡ seq
  unfolding visit
  visit-cursor seq row page page' e = elim (Bool-cases (leb limit (length page.records))) [
    | inl p ↦ absurd (ground arith)
    | inr p ↦ elim (Bool-cases (not (includes scope row.kind row.pinned row.deleted))) [
      | inl q ↦
          let v : move_on seq page ≡ page' = ground arith in ap (λ (p : Page). p.cursor) (sym v)
      | inr q ↦
          let e0 : (do payloads ← payloads_of host row w; ok (weigh host seq row payloads page))
              ≡ ok (some page') =
            ground arith in
          let (payloads, a, b) = >>=-eq-ok (payloads_of host row w) _ e0 in
          weigh-cursor seq row payloads page page' (ground arith)
    ]
  ]

  -- A scan that does not end the loop leaves the cursor at a row that it was given.
  scan_on :
      (rows : List Row) (r : Row) (page page' : Page) (visited : Option Page)
      → ((p : Page) → visited ≡ some p → p.cursor ≡ r.change_seq)
      → ((p : Page)
          → scan host limit scope w (pairs rows) p ≡ ok (false, page')
          → (((rows ≡ []) × (p ≡ page')) ⊎ (has_seq page'.cursor rows ≡ true)))
      → elim visited as (λ _. Result Error (Bool × Page)) [
        | none ↦ ok (true, page)
        | some p ↦ scan host limit scope w (pairs rows) p
      ]
        ≡ ok (false, page')
      → has_seq page'.cursor (r ∷ rows) ≡ true
  unfolding has_seq
  scan_on rows r page page' none at rest e = absurd (ground arith)
  scan_on rows r page page' (some p) at rest e = elim (rest p e) [
    | inl (_, q) ↦
        let here : page'.cursor ≡ r.change_seq = ap (λ (x : Page). x.cursor) (sym q) ∙ at p refl in
        ground (arith, here)
    | inr q ↦ ground (arith, q)
  ]

  scan-cursor :
      (rows : List Row) (page page' : Page)
      → scan host limit scope w (pairs rows) page ≡ ok (false, page')
      → ((rows ≡ []) × (page ≡ page')) ⊎ (has_seq page'.cursor rows ≡ true)
  unfolding scan
  scan-cursor [] page page' e = inl (refl, ground arith)
  scan-cursor (r ∷ rows) page page' e =
      let (visited, a, b) = >>=-eq-ok (visit host limit scope w r.change_seq r page) _ e in
      inr (
        scan_on rows r page page' visited
          (λ p q.
            visit-cursor r.change_seq r page p (
              subst (λ (o : Option Page). visit host limit scope w r.change_seq r page ≡ ok o) q a))
          (λ p c. scan-cursor rows p page' c) b)

  loop_on :
      (fuel : ℕ) (stopped : Bool) (page page' : Page)
      → (scan host limit scope w (changes_since page.cursor 64 w.db) page ≡ ok (stopped, page'))
      → (length (changes_since page.cursor 64 w.db) == 0) ≡ false
      → pending page.cursor w.db.entries < suc fuel
      → (pending page'.cursor w.db.entries < fuel
          → feed_loop host limit scope w fuel page' ≢ ok none)
      → elim stopped as (λ _. Result Error (Option Page)) [
        | true ↦ ok (some page')
        | false ↦ feed_loop host limit scope w fuel page'
      ]
        ≢ ok none
  unfolding changes_since
  loop_on fuel true page page' a p h rest e = absurd (ground arith)
  loop_on fuel false page page' a p h rest e =
      let shared : List Row = keep (is_shared page.cursor) w.db.entries in
      let first : List Row = take 64 (sort_by by_seq shared) in
      elim (scan-cursor first page page' a) [
        | inl (q, _) ↦
            let none_there : length (pairs first) ≡ 0 =
              ap (λ (rows : List Row). length (pairs rows)) q in
            absurd (ground (arith, none_there))
        | inr q ↦
            let there : has_seq page'.cursor shared ≡ true =
              sym (has_seq-sort_by page'.cursor shared)
              ∙ has_seq-take page'.cursor 64 (sort_by by_seq shared) q in
            rest (omega (arith, pending_less page.cursor page'.cursor w.db.entries there)) e
      ]

  loop_ends :
      (fuel : ℕ) (page : Page)
      → pending page.cursor w.db.entries < fuel
      → feed_loop host limit scope w fuel page ≢ ok none
  unfolding feed_loop
  loop_ends zero page h e = absurd (omega arith)
  loop_ends (suc fuel) page h e =
      let rows : List (ℕ × Row) = changes_since page.cursor 64 w.db in
      elim (Bool-cases (length rows == 0)) [
        | inl p ↦ absurd (ground arith)
        | inr p ↦
            let e0 : (do
              (stopped, mid) ← scan host limit scope w rows page
              elim stopped as (λ _. Result Error (Option Page)) [
                | true ↦ ok (some mid)
                | false ↦ feed_loop host limit scope w fuel mid
              ])
                ≡ ok none =
              ground arith in
            let ((stopped, mid), a, b) = >>=-eq-ok (scan host limit scope w rows page) _ e0 in
            loop_on fuel stopped page mid a p h (loop_ends fuel mid) b
      ]

reply_ends :
    (w : World) (found : Option Page)
    → found ≢ none
    → elim found as (λ _. Result Error (Option (List SyncRecord × ℕ × Bool))) [
      | none ↦ ok none
      | some page ↦
          ok
            (some (page.records, page.cursor, not (length (changes_since page.cursor 1 w.db) == 0)))
    ]
      ≢ ok none
reply_ends w none n e = n refl
reply_ends w (some p) n e = absurd (ground arith)

-- With more fuel than the history has rows, the loop over the change feed never runs out of it:
-- every page that does not end the loop moves the cursor past a row that the feed still had.
pub sync_changes_ends :
    (host : Host) (fuel since limit : ℕ) (scope : SyncScope) (w : World)
    → length w.db.entries < fuel
    → sync_changes host fuel since limit scope w ≢ ok none
unfolding sync_changes
sync_changes_ends host fuel since limit scope w h e =
    let start : Page = record { cursor = since; records = []; payload_count = 0; bytes = 0 } in
    let (found, a, b) = >>=-eq-ok (feed_loop host (limit_of limit) scope w fuel start) _ e in
    reply_ends w found
      (λ q.
        loop_ends host (limit_of limit) scope w fuel start
          (omega (arith, pending-length since w.db.entries))
          (subst (λ (o : Option Page). feed_loop host (limit_of limit) scope w fuel start ≡ ok o) q
            a))
      b
