-- ===== src/History/Sequence.antt =====
-- The change counter: no two rows share a value, and none is above the counter in `meta`.
use panora.Prelude.{
  ℕ, suc, ◌+◌, ◌≤◌, ◌≡◌, refl, Bool, false, List, [], ◌∷◌, ◌++◌, ◌==◌, nat_eq, any, All, arith,
  ==→eq,
}
use panora.History.Defs.{Row, has_id, update_rows, delete_row, stamp_seq}
use panora.History.Rows.{IsUnique}

unfoldable pub has_seq : ℕ → List Row → Bool
has_seq s rows = any (λ r. r.change_seq == s) rows

abbrev pub SeqBelow : ℕ → List Row → Type 0
SeqBelow n = All (λ r. r.change_seq ≤ n)

abbrev pub SeqUnique : List Row → Type 0
SeqUnique [] = Unit {0}
SeqUnique (r ∷ rs) = (has_seq r.change_seq rs ≡ false) × SeqUnique rs

pub SeqBelow-mono : (m n : ℕ) (rows : List Row) → m ≤ n → SeqBelow m rows → SeqBelow n rows
SeqBelow-mono m n [] h b = tt
SeqBelow-mono m n (r ∷ rs) h b = (omega arith, SeqBelow-mono m n rs h b.1)

pub has_seq_above :
    (s n : ℕ) (rows : List Row) → SeqBelow n rows → suc n ≤ s → has_seq s rows ≡ false
unfolding has_seq
has_seq_above s n [] b h = refl
has_seq_above s n (r ∷ rs) b h = ground (arith, has_seq_above s n rs b.1)

-- An update that leaves the counter column alone.
module _ (i : ℕ) (f : Row → Row) (same : (r : Row) → (f r).change_seq ≡ r.change_seq) where
  has_seq-update_plain :
      (s : ℕ) (rows : List Row) → has_seq s (update_rows i f rows) ≡ has_seq s rows
  unfolding has_seq update_rows
  has_seq-update_plain s [] = refl
  has_seq-update_plain s (r ∷ rs) = ground (arith, has_seq-update_plain s rs, same r)

  pub update_plain-SeqUnique : (rows : List Row) → SeqUnique rows → SeqUnique (update_rows i f rows)
  unfolding update_rows
  update_plain-SeqUnique [] u = tt
  update_plain-SeqUnique (r ∷ rs) u =
      ground (arith, update_plain-SeqUnique rs u.1, has_seq-update_plain r.change_seq rs, same r)

  pub update_plain-SeqBelow :
      (n : ℕ) (rows : List Row) → SeqBelow n rows → SeqBelow n (update_rows i f rows)
  unfolding update_rows
  update_plain-SeqBelow n [] b = tt
  update_plain-SeqBelow n (r ∷ rs) b = ground (arith, update_plain-SeqBelow n rs b.1, same r)

-- An update that gives its row the value `n + 1`.
module _ (i n : ℕ) (f : Row → Row) where
  abbrev tracked : Row → Row
  tracked r = stamp_seq (n + 1) (f r)

  pub update_tracked-SeqBelow :
      (rows : List Row) → SeqBelow n rows → SeqBelow (n + 1) (update_rows i tracked rows)
  unfolding update_rows stamp_seq
  update_tracked-SeqBelow [] b = tt
  update_tracked-SeqBelow (r ∷ rs) b = ground (arith, update_tracked-SeqBelow rs b.1)

  has_seq_old :
      (s : ℕ) (rows : List Row)
      → s ≤ n
      → has_seq s rows ≡ false
      → has_seq s (update_rows i tracked rows) ≡ false
  unfolding has_seq update_rows stamp_seq
  has_seq_old s [] h e = refl
  has_seq_old s (r ∷ rs) h e = ground (arith, has_seq_old s rs)

  has_seq_new :
      (rows : List Row)
      → has_id i rows ≡ false
      → SeqBelow n rows
      → has_seq (n + 1) (update_rows i tracked rows) ≡ false
  unfolding has_seq has_id update_rows
  has_seq_new [] h b = refl
  has_seq_new (r ∷ rs) h b = ground (arith, has_seq_new rs, b.0)

  pub update_tracked-SeqUnique :
      (rows : List Row)
      → IsUnique rows
      → SeqBelow n rows
      → SeqUnique rows
      → SeqUnique (update_rows i tracked rows)
  unfolding update_rows stamp_seq
  update_tracked-SeqUnique [] u b q = tt
  update_tracked-SeqUnique (r ∷ rs) u b q = ground (
    arith,
    update_tracked-SeqUnique rs u.2 b.1 q.1,
    ==→eq r.id i,
    has_seq_new rs,
    has_seq_old r.change_seq rs b.0 q.0,
  )

pub insert-SeqUnique :
    (r : Row) (n : ℕ) (rows : List Row)
    → r.change_seq ≡ n + 1
    → SeqBelow n rows
    → SeqUnique rows
    → SeqUnique (rows ++ r ∷ [])
unfolding has_seq
insert-SeqUnique r n [] e b q = (refl, tt)
insert-SeqUnique r n (x ∷ xs) e b q =
    (has_seq-insert x.change_seq xs b.0 q.0, insert-SeqUnique r n xs e b.1 q.1)
  where
    has_seq-insert :
        (s : ℕ) (ys : List Row) → s ≤ n → has_seq s ys ≡ false → has_seq s (ys ++ r ∷ []) ≡ false
    has_seq-insert s [] h f = ground arith
    has_seq-insert s (y ∷ ys) h f = ground (arith, has_seq-insert s ys)

has_seq-delete_row :
    (s i : ℕ) (rows : List Row) → has_seq s rows ≡ false → has_seq s (delete_row i rows) ≡ false
unfolding has_seq delete_row
has_seq-delete_row s i [] h = refl
has_seq-delete_row s i (r ∷ rs) h = ground (arith, has_seq-delete_row s i rs)

pub delete_row-SeqUnique :
    (i : ℕ) (rows : List Row) → SeqUnique rows → SeqUnique (delete_row i rows)
unfolding delete_row
delete_row-SeqUnique i [] q = tt
delete_row-SeqUnique i (r ∷ rs) q =
    ground (arith, delete_row-SeqUnique i rs q.1, has_seq-delete_row r.change_seq i rs)

pub delete_row-SeqBelow :
    (i n : ℕ) (rows : List Row) → SeqBelow n rows → SeqBelow n (delete_row i rows)
unfolding delete_row
delete_row-SeqBelow i n [] b = tt
delete_row-SeqBelow i n (r ∷ rs) b = ground (arith, delete_row-SeqBelow i n rs b.1)
