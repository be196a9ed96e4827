-- ===== src/History/Resealed.antt =====
-- storage/db.rs, `rekey`: the rows are the same but for their previews, so the tables stay valid.
use panora.Prelude.{
  ℕ, ◌≡◌, refl, sym, ◌∙◌, ap, subst, some, List, [], ◌∷◌, Text, ◌==◌, nat_eq, Bool-cases,
  Option-cases, inl, inr, arith, ok, >>=-eq-ok,
}
use panora.Model.{Selection}
use panora.History.Defs.{Row, BlobRow, Database, has_id, row_by_id}
use panora.History.Rows.{has_key, IsUnique}
use panora.History.Sequence.{has_seq, SeqBelow, SeqUnique}
use panora.History.Entries.{Cipher, preview_aad}
use panora.History.Keyring.{open_any, rekey_row, rekey_rows, rekey}
use panora.History.Validity.{IsOwned, IsValid, live_count}

-- Rows that are the same in the columns that the invariant reads.
pub record IsAlike (r r' : Row) : Type 0 where
  pub id : r'.id ≡ r.id
  pub content_hash : r'.content_hash ≡ r.content_hash
  pub selection : r'.selection ≡ r.selection
  pub change_seq : r'.change_seq ≡ r.change_seq
  pub deleted : r'.deleted ≡ r.deleted

abbrev AreAlike : List Row → List Row → Type 0
AreAlike [] [] = Unit {0}
AreAlike (r ∷ rs) (r' ∷ rs') = IsAlike r r' × AreAlike rs rs'
AreAlike _ _ = ⊥

rekey_row-IsAlike : (old new : Cipher) (r r' : Row) → rekey_row old new r ≡ ok r' → IsAlike r r'
unfolding rekey_row
rekey_row-IsAlike old new r r' e = elim (Option-cases (open_any old new r.content_hash r.preview)) [
  | inl p ↦ absurd (ground arith)
  | inr (t, p) ↦ elim (Option-cases (new.seal_text_with_aad (preview_aad r.content_hash) t)) [
    | inl q ↦ absurd (ground arith)
    | inr (sealed, q) ↦
        let w : record r { preview = sealed } ≡ r' = ground arith in
        subst (IsAlike r) w (record {
          id = refl;
          content_hash = refl;
          selection = refl;
          change_seq = refl;
          deleted = refl;
        })
  ]
]

rekey_rows-AreAlike :
    (old new : Cipher) (rows rows' : List Row)
    → rekey_rows old new rows ≡ ok rows'
    → AreAlike rows rows'
unfolding rekey_rows
rekey_rows-AreAlike old new [] rows' e =
    let w : [] ≡ rows' = ground arith in subst (AreAlike []) w tt
rekey_rows-AreAlike old new (r ∷ rs) rows' e =
    let (r', p, e1) = >>=-eq-ok (rekey_row old new r) _ e in
    let (rs', q, e2) = >>=-eq-ok (rekey_rows old new rs) _ e1 in
    let w : r' ∷ rs' ≡ rows' = ground arith in
    subst (AreAlike (r ∷ rs)) w
      (rekey_row-IsAlike old new r r' p, rekey_rows-AreAlike old new rs rs' q)

has_id-AreAlike :
    (i : ℕ) (rows rows' : List Row) → AreAlike rows rows' → has_id i rows' ≡ has_id i rows
unfolding has_id
has_id-AreAlike i [] [] a = refl
has_id-AreAlike i [] (r' ∷ rs') a = absurd a
has_id-AreAlike i (r ∷ rs) [] a = absurd a
has_id-AreAlike i (r ∷ rs) (r' ∷ rs') a = rw (a.0.id, has_id-AreAlike i rs rs' a.1) refl

has_key-AreAlike :
    (h : Text) (s : Selection) (rows rows' : List Row)
    → AreAlike rows rows'
    → has_key h s rows' ≡ has_key h s rows
unfolding has_key
has_key-AreAlike h s [] [] a = refl
has_key-AreAlike h s [] (r' ∷ rs') a = absurd a
has_key-AreAlike h s (r ∷ rs) [] a = absurd a
has_key-AreAlike h s (r ∷ rs) (r' ∷ rs') a =
    rw (a.0.content_hash, a.0.selection, has_key-AreAlike h s rs rs' a.1) refl

has_seq-AreAlike :
    (n : ℕ) (rows rows' : List Row) → AreAlike rows rows' → has_seq n rows' ≡ has_seq n rows
unfolding has_seq
has_seq-AreAlike n [] [] a = refl
has_seq-AreAlike n [] (r' ∷ rs') a = absurd a
has_seq-AreAlike n (r ∷ rs) [] a = absurd a
has_seq-AreAlike n (r ∷ rs) (r' ∷ rs') a = rw (a.0.change_seq, has_seq-AreAlike n rs rs' a.1) refl

IsUnique-AreAlike : (rows rows' : List Row) → AreAlike rows rows' → IsUnique rows → IsUnique rows'
IsUnique-AreAlike [] [] a u = tt
IsUnique-AreAlike [] (r' ∷ rs') a u = absurd a
IsUnique-AreAlike (r ∷ rs) [] a u = absurd a
IsUnique-AreAlike (r ∷ rs) (r' ∷ rs') a u = (
  ap (λ (i : ℕ). has_id i rs') a.0.id ∙ (has_id-AreAlike r.id rs rs' a.1 ∙ u.0),
  rw (a.0.content_hash, a.0.selection)
      (has_key-AreAlike r.content_hash r.selection rs rs' a.1 ∙ u.1),
  IsUnique-AreAlike rs rs' a.1 u.2,
)

SeqBelow-AreAlike :
    (n : ℕ) (rows rows' : List Row) → AreAlike rows rows' → SeqBelow n rows → SeqBelow n rows'
SeqBelow-AreAlike n [] [] a b = tt
SeqBelow-AreAlike n [] (r' ∷ rs') a b = absurd a
SeqBelow-AreAlike n (r ∷ rs) [] a b = absurd a
SeqBelow-AreAlike n (r ∷ rs) (r' ∷ rs') a b =
    (rw a.0.change_seq b.0, SeqBelow-AreAlike n rs rs' a.1 b.1)

SeqUnique-AreAlike :
    (rows rows' : List Row) → AreAlike rows rows' → SeqUnique rows → SeqUnique rows'
SeqUnique-AreAlike [] [] a u = tt
SeqUnique-AreAlike [] (r' ∷ rs') a u = absurd a
SeqUnique-AreAlike (r ∷ rs) [] a u = absurd a
SeqUnique-AreAlike (r ∷ rs) (r' ∷ rs') a u = (
  rw a.0.change_seq (has_seq-AreAlike r.change_seq rs rs' a.1 ∙ u.0),
  SeqUnique-AreAlike rs rs' a.1 u.1,
)

IsOwned-AreAlike :
    (rows rows' : List Row) (bs : List BlobRow)
    → AreAlike rows rows'
    → IsOwned rows bs
    → IsOwned rows' bs
IsOwned-AreAlike rows rows' [] a o = tt
IsOwned-AreAlike rows rows' (b ∷ bs) a o =
    (has_id-AreAlike b.entry_id rows rows' a ∙ o.0, IsOwned-AreAlike rows rows' bs a o.1)

live_count-AreAlike :
    (i : ℕ) (rows rows' : List Row) → AreAlike rows rows' → live_count i rows' ≡ live_count i rows
unfolding live_count row_by_id
live_count-AreAlike i [] [] a = refl
live_count-AreAlike i [] (r' ∷ rs') a = absurd a
live_count-AreAlike i (r ∷ rs) [] a = absurd a
live_count-AreAlike i (r ∷ rs) (r' ∷ rs') a = elim (Bool-cases (r.id == i)) [
  | inl e ↦ rw (a.0.id, e, a.0.deleted) refl
  | inr e ↦ rw (a.0.id, e) (live_count-AreAlike i rs rs' a.1)
]

pub rekey-IsValid :
    (old new : Cipher) (db db' : Database) → IsValid db → rekey old new db ≡ ok db' → IsValid db'
unfolding rekey
rekey-IsValid old new db db' v e =
    let (rows, p, e1) = >>=-eq-ok (rekey_rows old new db.entries) _ e in
    let a : AreAlike db.entries rows = rekey_rows-AreAlike old new db.entries rows p in
    let w : record db { entries = rows; key_fingerprint = some new.fingerprint } ≡ db' =
      ground arith in
    subst IsValid w (record {
      sound = record {
        unique = IsUnique-AreAlike db.entries rows a v.sound.unique;
        seq_below = SeqBelow-AreAlike db.change_seq db.entries rows a v.sound.seq_below;
        seq_unique = SeqUnique-AreAlike db.entries rows a v.sound.seq_unique;
        owned = IsOwned-AreAlike db.entries rows db.entry_blobs a v.sound.owned;
      };
      indexed = record { at = λ i. v.indexed.at i ∙ sym (live_count-AreAlike i db.entries rows a) };
    })

pub rekey-lamport_clock :
    (old new : Cipher) (db db' : Database)
    → rekey old new db ≡ ok db'
    → db'.lamport_clock ≡ db.lamport_clock
unfolding rekey
rekey-lamport_clock old new db db' e =
    let (rows, p, e1) = >>=-eq-ok (rekey_rows old new db.entries) _ e in ground arith
