-- ===== src/Group/Forks.antt =====
-- group.rs, `fork_winner`: the choice that each of two devices holding a branch makes.
use panora.Prelude.{
  ◌≡◌, ◌≢◌, refl, ◌⊎◌, true, false, not, ◌&&◌, List, [], ◌∷◌, ◌++◌, Bytes, Text, text_lt,
  text_lt_irrefl, text_lt_trans, text_lt_total, nat_eq, list_eq, ==-refl, ==→eq, arith,
}
use panora.Group.{rank_context, removes_signer, ranks_below, first_ranks_below, fork_winner}
use panora.Rosters.{Crates, Roster, hash}

text_lt_asym : (x y : Text) → text_lt x y ≡ true → text_lt y x ≡ false
text_lt_asym x y h = ground (arith, text_lt_trans x y x, text_lt_irrefl x)

module _ (crates : Crates) (parent : Roster) where
  ranks_below_asym :
      (a b : Roster) → ranks_below crates parent a b ≡ true → ranks_below crates parent b a ≡ false
  unfolding ranks_below
  ranks_below_asym a b h =
      let rank_a : Bytes = crates.derive_key rank_context (hash crates parent ++ a.signer) in
      let rank_b : Bytes = crates.derive_key rank_context (hash crates parent ++ b.signer) in
      ground (
        arith,
        text_lt_asym rank_a rank_b,
        text_lt_asym (hash crates a) (hash crates b),
        text_lt_irrefl rank_a,
        ==→eq rank_a rank_b,
        ==→eq rank_b rank_a,
      )

  ranks_below_total :
      (a b : Roster)
      → hash crates a ≢ hash crates b
      → (ranks_below crates parent a b ≡ true) ⊎ (ranks_below crates parent b a ≡ true)
  unfolding ranks_below
  ranks_below_total a b n =
      let rank_a : Bytes = crates.derive_key rank_context (hash crates parent ++ a.signer) in
      let rank_b : Bytes = crates.derive_key rank_context (hash crates parent ++ b.signer) in
      ground (
        arith,
        n,
        text_lt_total rank_a rank_b,
        text_lt_total (hash crates a) (hash crates b),
        ==-refl rank_a,
        ==-refl rank_b,
      )

  first_ranks_below_asym :
      (a b : List Roster)
      → first_ranks_below crates parent a b ≡ true
      → first_ranks_below crates parent b a ≡ false
  first_ranks_below_asym [] b h = absurd cc
  first_ranks_below_asym (x ∷ a) [] h = refl
  first_ranks_below_asym (x ∷ a) (y ∷ b) h = ranks_below_asym x y h

  -- If a branch wins over the held one, then a device that holds the winning branch keeps it when
  -- the other one comes in.
  pub fork_winner-asymmetric :
      (a b : List Roster)
      → fork_winner crates parent a b ≡ true
      → fork_winner crates parent b a ≡ false
  unfolding fork_winner
  fork_winner-asymmetric a b h = ground (arith, first_ranks_below_asym a b)

  -- Of two non-empty branches whose first rosters have different hashes, unless each removes a
  -- signer of the other, exactly one wins, whichever of the two a device holds.
  pub fork_winner_agrees :
      (x y : Roster) (a b : List Roster)
      → hash crates x ≢ hash crates y
      → (removes_signer parent (x ∷ a) (y ∷ b) && removes_signer parent (y ∷ b) (x ∷ a)) ≡ false
      → fork_winner crates parent (x ∷ a) (y ∷ b) ≡ not (fork_winner crates parent (y ∷ b) (x ∷ a))
  unfolding fork_winner
  fork_winner_agrees x y a b n m =
      ground (arith, m, ranks_below_asym x y, ranks_below_asym y x, ranks_below_total x y n)
