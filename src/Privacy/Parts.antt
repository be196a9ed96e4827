-- ===== src/Privacy/Parts.antt =====
-- privacy.rs: what a text holds is found in it, also when spaces are cut from its ends.
use panora.Prelude.{
  ℕ, ◌≡◌, refl, sym, ◌∙◌, ap, subst, Bool, true, false, List, [], ◌∷◌, ◌++◌, last, any, contains,
  drop_while, ==-refl, ==→eq, ◌==◌, nat_eq, list_eq, Eq, Bool-cases, inl, inr, arith, some,
}
use panora.Rosters.Names.{is_whitespace}
use panora.Privacy.{Chars, is_empty, trim, trim_end, has_prefix, has_part}

-- `part` stands somewhere in `cs`.
pub record Holds (part cs : Chars) : Type 0 where
  pub before : Chars
  pub after : Chars
  pub whole : cs ≡ before ++ (part ++ after)

has_prefix-append : (part after : Chars) → has_prefix (part ++ after) part ≡ true
unfolding has_prefix
has_prefix-append [] [] = refl
has_prefix-append [] (c ∷ cs) = refl
has_prefix-append (p ∷ ps) after = ground (arith, ==-refl p, has_prefix-append ps after)

has_part-append : (before part after : Chars) → has_part (before ++ (part ++ after)) part ≡ true
unfolding has_part
has_part-append [] [] [] = ground (arith, has_prefix-append [] [])
has_part-append [] [] (c ∷ cs) = ground (arith, has_prefix-append [] (c ∷ cs))
has_part-append [] (p ∷ ps) after = ground (arith, has_prefix-append (p ∷ ps) after)
has_part-append (b ∷ bs) part after = ground (arith, has_part-append bs part after)

pub Holds→has_part : (part cs : Chars) → Holds part cs → has_part cs part ≡ true
Holds→has_part part cs h =
    ap (λ (x : Chars). has_part x part) h.whole ∙ has_part-append h.before part h.after

-- A part that neither begins nor ends with a space.
pub record IsSolid (part : Chars) : Type 0 where
  pub head : ℕ
  pub tail : Chars
  pub cons : part ≡ head ∷ tail
  pub starts : is_whitespace head ≡ false
  pub end : ℕ
  pub is_last : last part ≡ some end
  pub ends : is_whitespace end ≡ false

drop_while-Holds :
    (part : Chars)
    → IsSolid part
    → (before after : Chars) → Holds part (drop_while is_whitespace (before ++ (part ++ after)))
drop_while-Holds part s [] after =
    let kept : drop_while is_whitespace (part ++ after) ≡ part ++ after =
      rw (s.cons, s.starts) refl in
    record { before = []; after = after; whole = kept }
drop_while-Holds part s (b ∷ bs) after = elim (Bool-cases (is_whitespace b)) [
  | inl e ↦ rw e (drop_while-Holds part s bs after)
  | inr e ↦ rw e (record { before = b ∷ bs; after = after; whole = refl })
]

pub trim_end-append :
    (part : Chars) (end : ℕ) (after : Chars)
    → last part ≡ some end
    → is_whitespace end ≡ false
    → trim_end (part ++ after) ≡ part ++ trim_end after
unfolding trim_end
trim_end-append [] end after h w = absurd cc
trim_end-append (x ∷ []) end after h w =
    let same : x ≡ end = cc in
    let solid : is_whitespace x ≡ false = ap is_whitespace same ∙ w in rw solid (ground arith)
trim_end-append (x ∷ y ∷ ps) end after h w = rw (trim_end-append (y ∷ ps) end after h w) refl

is_empty-append :
    (xs : Chars) (part : Chars) → is_empty part ≡ false → is_empty (xs ++ part) ≡ false
is_empty-append [] part e = e
is_empty-append (x ∷ xs) part e = refl

trim_end-before :
    (before rest : Chars)
    → is_empty (trim_end rest) ≡ false
    → trim_end (before ++ rest) ≡ before ++ trim_end rest
unfolding trim_end
trim_end-before [] rest e = refl
trim_end-before (b ∷ bs) rest e =
    rw (trim_end-before bs rest e, is_empty-append bs (trim_end rest) e) refl

is_empty_first : (part : Chars) → IsSolid part → (after : Chars) → is_empty (part ++ after) ≡ false
is_empty_first part s after = rw s.cons refl

trim_end-Holds : (part cs : Chars) → IsSolid part → Holds part cs → Holds part (trim_end cs)
trim_end-Holds part cs s h =
    let kept = trim_end-append part s.end h.after s.is_last s.ends in
    record {
      before = h.before;
      after = trim_end h.after;
      whole =
          ap trim_end h.whole
          ∙ (trim_end-before h.before (part ++ h.after)
                (ap is_empty kept ∙ is_empty_first part s (trim_end h.after))
              ∙ ap (λ (x : Chars). h.before ++ x) kept);
    }

pub trim-Holds : (part cs : Chars) → IsSolid part → Holds part cs → Holds part (trim cs)
unfolding trim
trim-Holds part cs s h = trim_end-Holds part (drop_while is_whitespace cs) s (
    subst (λ (x : Chars). Holds part (drop_while is_whitespace x)) (sym h.whole)
      (drop_while-Holds part s h.before h.after))

pub any-contains :
    {A : Type 0} ⦃e : Eq A⦄ (f : A → Bool) (xs : List A) (x : A)
    → contains xs x ≡ true
    → f x ≡ true
    → any f xs ≡ true
any-contains f [] x h k = absurd cc
any-contains f (y ∷ ys) x h k = elim (Bool-cases (y == x)) [
  | inl e ↦ let same : y ≡ x = ==→eq y x e in rw (ap f same ∙ k) refl
  | inr e ↦ ground (arith, any-contains f ys x)
]
