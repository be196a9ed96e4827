-- ===== src/History/Rows.antt =====
-- The laws of the statements on rows: what each keeps and what a lookup finds afterwards.
use mathlib.Core.Option
use panora.Prelude.{
  ℕ, ◌<◌, ◌≡◌, refl, sym, inl, inr, Bool, true, false, ◌||◌, none, some, List, [], ◌∷◌, ◌++◌, Text,
  ◌==◌, nat_eq, list_eq, any, if◌then◌else◌, arith, ==-refl, ==→eq, Bool-cases,
}
use panora.Model.{Selection, selection_eq}
use panora.History.Defs.{
  Row, row_by_id, row_by_key, same_key, update_rows, delete_row, has_id, max_where,
}

unfoldable pub has_key : Text → Selection → List Row → Bool
has_key hash selection rows = any (same_key hash selection) rows

-- An update that leaves the columns of the two unique keys alone.
pub record KeepsKeys (f : Row → Row) : Type 0 where
  pub id : (r : Row) → (f r).id ≡ r.id
  pub content_hash : (r : Row) → (f r).content_hash ≡ r.content_hash
  pub selection : (r : Row) → (f r).selection ≡ r.selection

module _ (i : ℕ) (f : Row → Row) (k : KeepsKeys f) where
  pub has_id-update_rows :
      (j : ℕ) (rows : List Row) → has_id j (update_rows i f rows) ≡ has_id j rows
  unfolding has_id update_rows
  has_id-update_rows j [] = refl
  has_id-update_rows j (r ∷ rs) = ground (arith, has_id-update_rows j rs, k.id r)

  pub has_key-update_rows :
      (h : Text) (s : Selection) (rows : List Row)
      → has_key h s (update_rows i f rows) ≡ has_key h s rows
  unfolding has_key update_rows
  has_key-update_rows h s [] = refl
  has_key-update_rows h s (r ∷ rs) =
      ground (arith, has_key-update_rows h s rs, k.content_hash r, k.selection r)

  pub row_by_id-update_rows :
      (j : ℕ) (rows : List Row)
      → row_by_id j (update_rows i f rows)
        ≡ (if i == j then Option.map f (row_by_id j rows) else row_by_id j rows)
  unfolding row_by_id update_rows
  row_by_id-update_rows j [] = ground arith
  row_by_id-update_rows j (r ∷ rs) = ground (arith, row_by_id-update_rows j rs, k.id r)

  pub row_by_key-update_rows :
      (h : Text) (s : Selection) (rows : List Row)
      → row_by_key h s (update_rows i f rows)
        ≡ Option.map (λ r. if r.id == i then f r else r) (row_by_key h s rows)
  unfolding row_by_key update_rows
  row_by_key-update_rows h s [] = refl
  row_by_key-update_rows h s (r ∷ rs) =
      ground (arith, row_by_key-update_rows h s rs, k.content_hash r, k.selection r)

-- `PRIMARY KEY(id)` and `UNIQUE(content_hash, selection)`.
abbrev pub IsUnique : List Row → Type 0
IsUnique [] = Unit {0}
IsUnique (r ∷ rs) =
    (has_id r.id rs ≡ false) × (has_key r.content_hash r.selection rs ≡ false) × IsUnique rs

pub update_rows-IsUnique :
    (i : ℕ) (f : Row → Row)
    → KeepsKeys f
    → (rows : List Row) → IsUnique rows
    → IsUnique (update_rows i f rows)
unfolding update_rows
update_rows-IsUnique i f k [] u = tt
update_rows-IsUnique i f k (r ∷ rs) u = ground (
  arith,
  update_rows-IsUnique i f k rs u.2,
  has_id-update_rows i f k r.id rs,
  has_key-update_rows i f k r.content_hash r.selection rs,
  k.id r,
  k.content_hash r,
  k.selection r,
)

pub has_id-delete_row :
    (i j : ℕ) (rows : List Row) → has_id j rows ≡ false → has_id j (delete_row i rows) ≡ false
unfolding has_id delete_row
has_id-delete_row i j [] h = refl
has_id-delete_row i j (r ∷ rs) h = ground (arith, has_id-delete_row i j rs)

has_key-delete_row :
    (i : ℕ) (h : Text) (s : Selection) (rows : List Row)
    → has_key h s rows ≡ false
    → has_key h s (delete_row i rows) ≡ false
unfolding has_key delete_row
has_key-delete_row i h s [] e = refl
has_key-delete_row i h s (r ∷ rs) e = ground (arith, has_key-delete_row i h s rs)

pub delete_row-IsUnique : (i : ℕ) (rows : List Row) → IsUnique rows → IsUnique (delete_row i rows)
unfolding delete_row
delete_row-IsUnique i [] u = tt
delete_row-IsUnique i (r ∷ rs) u = ground (
  arith,
  delete_row-IsUnique i rs u.2,
  has_id-delete_row i r.id rs,
  has_key-delete_row i r.content_hash r.selection rs,
)

pub row_by_id-delete_row :
    (i j : ℕ) (rows : List Row)
    → row_by_id j (delete_row i rows) ≡ (if i == j then none else row_by_id j rows)
unfolding row_by_id delete_row
row_by_id-delete_row i j [] = ground arith
row_by_id-delete_row i j (r ∷ rs) = ground (arith, row_by_id-delete_row i j rs)

pub has_id-append : (i : ℕ) (xs ys : List Row) → has_id i (xs ++ ys) ≡ (has_id i xs || has_id i ys)
unfolding has_id
has_id-append i [] ys = refl
has_id-append i (x ∷ xs) ys = ground (arith, has_id-append i xs ys)

has_key-append :
    (h : Text) (s : Selection) (xs ys : List Row)
    → has_key h s (xs ++ ys) ≡ (has_key h s xs || has_key h s ys)
unfolding has_key
has_key-append h s [] ys = refl
has_key-append h s (x ∷ xs) ys = ground (arith, has_key-append h s xs ys)

same_key_comm :
    (r x : Row) → same_key r.content_hash r.selection x ≡ same_key x.content_hash x.selection r
same_key_comm r x = ground (
  arith,
  ==→eq r.content_hash x.content_hash,
  ==→eq x.content_hash r.content_hash,
  ==-refl r.content_hash,
  ==-refl x.content_hash,
)

pub insert-IsUnique :
    (r : Row) (rows : List Row)
    → has_id r.id rows ≡ false
    → has_key r.content_hash r.selection rows ≡ false
    → IsUnique rows
    → IsUnique (rows ++ r ∷ [])
unfolding has_id has_key
insert-IsUnique r [] h k u = (refl, refl, tt)
insert-IsUnique r (x ∷ xs) h k u = ground (
  arith,
  insert-IsUnique r xs,
  has_id-append x.id xs (r ∷ []),
  has_key-append x.content_hash x.selection xs (r ∷ []),
  same_key_comm x r,
)

-- The id of an inserted row is above every id in the table.
pub has_id_above :
    (i : ℕ) (rows : List Row) → max_where (λ _. true) (λ r. r.id) rows < i → has_id i rows ≡ false
unfolding has_id max_where
has_id_above i [] h = refl
has_id_above i (r ∷ rs) h = ground (arith, has_id_above i rs)

pub row_by_id-insert :
    (j : ℕ) (rows : List Row) (r : Row)
    → has_id r.id rows ≡ false
    → row_by_id j (rows ++ r ∷ []) ≡ (if r.id == j then some r else row_by_id j rows)
unfolding row_by_id has_id
row_by_id-insert j [] r h = refl
row_by_id-insert j (x ∷ xs) r h = ground (arith, row_by_id-insert j xs r)

pub row_by_key-insert :
    (h : Text) (s : Selection) (rows : List Row) (r : Row)
    → row_by_key h s rows ≡ none
    → row_by_key h s (rows ++ r ∷ []) ≡ (if same_key h s r then some r else none)
unfolding row_by_key
row_by_key-insert h s [] r e = refl
row_by_key-insert h s (x ∷ xs) r e = ground (arith, row_by_key-insert h s xs r)

pub row_by_key→has_key :
    (h : Text) (s : Selection) (rows : List Row)
    → row_by_key h s rows ≡ none
    → has_key h s rows ≡ false
unfolding row_by_key has_key
row_by_key→has_key h s [] e = refl
row_by_key→has_key h s (x ∷ xs) e = ground (arith, row_by_key→has_key h s xs)

pub row_by_id→has_id :
    (i : ℕ) (rows : List Row) (r : Row)
    → row_by_id i rows ≡ some r
    → (has_id i rows ≡ true) × (r.id ≡ i)
unfolding row_by_id has_id
row_by_id→has_id i [] r e = cc
row_by_id→has_id i (x ∷ xs) r e = ground (arith, row_by_id→has_id i xs r)

pub has_id→row_by_id :
    (i : ℕ) (rows : List Row) → has_id i rows ≡ true → (r : Row) × (row_by_id i rows ≡ some r)
unfolding row_by_id has_id
has_id→row_by_id i [] e = absurd (cc)
has_id→row_by_id i (x ∷ xs) e = elim (Bool-cases (x.id == i)) [
  | inl hit ↦ (x, rw hit)
  | inr miss ↦ let (r, p) = has_id→row_by_id i xs (ground arith) in (r, rw miss p)
]

-- A row found by its key is found by its id as well, where the ids are unique.
pub row_by_key→row_by_id :
    (h : Text) (s : Selection) (rows : List Row) (r : Row)
    → IsUnique rows
    → row_by_key h s rows ≡ some r
    → (row_by_id r.id rows ≡ some r) × (same_key h s r ≡ true)
unfolding row_by_key row_by_id
row_by_key→row_by_id h s [] r u e = cc
row_by_key→row_by_id h s (x ∷ xs) r u e =
    ground (arith, row_by_key→row_by_id h s xs r u.2, row_by_id→has_id r.id xs r)

pub no_id→none : (i : ℕ) (rows : List Row) → has_id i rows ≡ false → row_by_id i rows ≡ none
unfolding row_by_id has_id
no_id→none i [] e = refl
no_id→none i (x ∷ xs) e = ground (arith, no_id→none i xs)

pub none→no_id : (i : ℕ) (rows : List Row) → row_by_id i rows ≡ none → has_id i rows ≡ false
unfolding row_by_id has_id
none→no_id i [] e = refl
none→no_id i (x ∷ xs) e = ground (arith, none→no_id i xs)

pub has_id-delete_row_ne :
    (i j : ℕ) (rows : List Row)
    → (j == i) ≡ false
    → has_id j rows ≡ true
    → has_id j (delete_row i rows) ≡ true
unfolding has_id delete_row
has_id-delete_row_ne i j [] h e = cc
has_id-delete_row_ne i j (r ∷ rs) h e = ground (arith, has_id-delete_row_ne i j rs)

row_by_id→has_key :
    (i : ℕ) (rows : List Row) (r : Row)
    → row_by_id i rows ≡ some r
    → has_key r.content_hash r.selection rows ≡ true
unfolding row_by_id has_key
row_by_id→has_key i [] r e = absurd cc
row_by_id→has_key i (x ∷ xs) r e = elim (Bool-cases (x.id == i)) [
  | inl h ↦
      let w : x ≡ r = ground arith in
      rw w (ground (arith, ==-refl r.content_hash, ==-refl r.selection))
  | inr h ↦
      let rest : has_key r.content_hash r.selection xs ≡ true =
        row_by_id→has_key i xs r (ground arith) in
      ground (arith, rest)
]

pub row_by_id→row_by_key :
    (i : ℕ) (rows : List Row) (r : Row)
    → IsUnique rows
    → row_by_id i rows ≡ some r
    → row_by_key r.content_hash r.selection rows ≡ some r
unfolding row_by_id row_by_key
row_by_id→row_by_key i [] r u e = absurd cc
row_by_id→row_by_key i (x ∷ xs) r u e = elim (Bool-cases (x.id == i)) [
  | inl h ↦
      let w : x ≡ r = ground arith in
      rw w (ground (arith, ==-refl r.content_hash, ==-refl r.selection))
  | inr h ↦
      let rest : row_by_id i xs ≡ some r = ground arith in
      elim (Bool-cases (same_key r.content_hash r.selection x)) [
        | inl s ↦
            let hash : x.content_hash ≡ r.content_hash =
              ==→eq x.content_hash r.content_hash (ground arith) in
            let selection : x.selection ≡ r.selection =
              ==→eq x.selection r.selection (ground arith) in
            let free : has_key r.content_hash r.selection xs ≡ false =
              rw (sym hash, sym selection) u.1 in
            absurd (ground (arith, free, row_by_id→has_key i xs r rest))
        | inr s ↦ rw s (row_by_id→row_by_key i xs r u.2 rest)
      ]
]
