-- ===== src/Sync/Order.antt =====
-- sync.rs, `lww_wins`: of two states at most one beats the other, and one does unless they are the
-- same.
use panora.Prelude.{
  ◌≡◌, ◌⊎◌, Bool, true, false, text_lt_irrefl, text_lt_trans, text_lt_total, arith, nat_eq,
}
use panora.Sync.{Version, lww_wins}

pub lww_wins_irrefl : (v : Version) → lww_wins v v ≡ false
unfolding lww_wins
lww_wins_irrefl (n, d) = ground (arith, text_lt_irrefl d)

pub lww_wins_trans :
    (u v w : Version) → lww_wins u v ≡ true → lww_wins v w ≡ true → lww_wins u w ≡ true
unfolding lww_wins
lww_wins_trans (a, d) (b, e) (c, f) h k = ground (arith, text_lt_trans f e d)

pub lww_wins_total : (u v : Version) → (lww_wins u v ≡ true) ⊎ ((u ≡ v) ⊎ (lww_wins v u ≡ true))
unfolding lww_wins
lww_wins_total (a, d) (b, e) = ground (arith, text_lt_total d e)

pub record IsStrictOrder (wins : Version → Version → Bool) : Type 0 where
  pub irrefl : (v : Version) → wins v v ≡ false
  pub trans : (u v w : Version) → wins u v ≡ true → wins v w ≡ true → wins u w ≡ true
  pub total : (u v : Version) → (wins u v ≡ true) ⊎ ((u ≡ v) ⊎ (wins v u ≡ true))

-- The rule for conflicts is a strict total order on pairs of Lamport value and device: no state
-- beats itself, beating is transitive, and of two different states one beats the other.
pub lww_wins-IsStrictOrder : IsStrictOrder lww_wins
lww_wins-IsStrictOrder = record {
  irrefl = lww_wins_irrefl;
  trans = lww_wins_trans;
  total = lww_wins_total;
}
