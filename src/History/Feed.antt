-- ===== src/History/Feed.antt =====
-- storage/db.rs: the Lamport clock and the change feed that sync peers follow; sync.rs: the bounds
-- on Lamport values.
use panora.Prelude.{
  ℕ, ◌+◌, ◌^◌, Bool, true, not, ◌&&◌, Option, none, some, List, map, ◌==◌, nat_eq, max, keep, take,
  ltb,
}
use panora.History.Defs.{Row, Database, max_where}
use panora.History.Retention.{sort_by}

abbrev pub lamport_ceiling : ℕ
lamport_ceiling = 2 ^ 53

abbrev pub lamport_observe_limit : ℕ
lamport_observe_limit = 2 ^ 52

unfoldable pub max_lamport : Database → ℕ
max_lamport db = max_where (λ _. true) (λ r. r.lamport) db.entries

abbrev pub stored_clock : Option ℕ → ℕ
stored_clock none = 0
stored_clock (some n) = n

-- The next local value: above the stored clock and above every row in the observed range.
unfoldable pub tick_lamport : Database → ℕ × Database
tick_lamport db =
    let rows = max_where (λ r. ltb r.lamport lamport_observe_limit) (λ r. r.lamport) db.entries in
    let next = max (stored_clock db.lamport_clock) rows + 1 in
    (next, record db { lamport_clock = some next })

unfoldable pub observe_lamport : ℕ → Database → Database
observe_lamport seen db = record db {
  lamport_clock = elim db.lamport_clock [ none ↦ some seen | some n ↦ some (max n seen) ];
}

-- `WHERE sensitive = 0 AND change_seq > ?1 AND NOT (deleted = 1 AND deleted_at = 0)`.
unfoldable pub is_shared : ℕ → Row → Bool
is_shared since r =
    not r.sensitive && ltb since r.change_seq && not (r.deleted && r.deleted_at == 0)

abbrev pub by_seq : Row → Row → Bool
by_seq a b = ltb a.change_seq b.change_seq

unfoldable pub changes_since : ℕ → ℕ → Database → List (ℕ × Row)
unfolding is_shared sort_by
changes_since since limit db =
    map (λ r. (r.change_seq, r)) (take limit (sort_by by_seq (keep (is_shared since) db.entries)))
