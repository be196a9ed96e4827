-- ===== src/Privacy/Letters.antt =====
-- privacy.rs: the case of ASCII letters, spaces at the ends and parts of a text.
use panora.Prelude.{
  ℕ, ◌≡◌, refl, ◌∙◌, ap, ◌&&◌, [], ◌∷◌, length, drop_while, nat_eq, Bool-cases, inl, inr, arith,
}
use panora.Rosters.Names.{is_whitespace}
use panora.Privacy.{Chars, len, len_utf8, to_lower, lowercase, is_empty, trim, trim_end}

to_lower-to_lower : (c : ℕ) → to_lower (to_lower c) ≡ to_lower c
to_lower-to_lower c = ground arith

len_utf8-to_lower : (c : ℕ) → len_utf8 (to_lower c) ≡ len_utf8 c
len_utf8-to_lower c = ground arith

is_whitespace-to_lower : (c : ℕ) → is_whitespace (to_lower c) ≡ is_whitespace c
is_whitespace-to_lower c = ground arith

pub lowercase-lowercase : (cs : Chars) → lowercase (lowercase cs) ≡ lowercase cs
lowercase-lowercase [] = refl
lowercase-lowercase (c ∷ cs) = rw (to_lower-to_lower c, lowercase-lowercase cs) refl

pub len-lowercase : (cs : Chars) → len (lowercase cs) ≡ len cs
unfolding len
len-lowercase [] = refl
len-lowercase (c ∷ cs) = rw (len_utf8-to_lower c, len-lowercase cs) refl

pub length-lowercase : (cs : Chars) → length (lowercase cs) ≡ length cs
length-lowercase [] = refl
length-lowercase (c ∷ cs) = omega (arith, length-lowercase cs)

is_empty-lowercase : (cs : Chars) → is_empty (lowercase cs) ≡ is_empty cs
is_empty-lowercase [] = refl
is_empty-lowercase (c ∷ cs) = refl

trim_end-lowercase : (cs : Chars) → trim_end (lowercase cs) ≡ lowercase (trim_end cs)
unfolding trim_end
trim_end-lowercase [] = refl
trim_end-lowercase (c ∷ cs) =
    rw (trim_end-lowercase cs, is_empty-lowercase (trim_end cs), is_whitespace-to_lower c)
      (elim (Bool-cases (is_empty (trim_end cs) && is_whitespace c)) [
        | inl e ↦ rw e refl
        | inr e ↦ rw e refl
      ])

drop_while-lowercase :
    (cs : Chars) → drop_while is_whitespace (lowercase cs) ≡ lowercase (drop_while is_whitespace cs)
drop_while-lowercase [] = refl
drop_while-lowercase (c ∷ cs) = elim (Bool-cases (is_whitespace c)) [
  | inl e ↦ rw (is_whitespace-to_lower c, e) (drop_while-lowercase cs)
  | inr e ↦ rw (is_whitespace-to_lower c, e) refl
]

pub trim-lowercase : (cs : Chars) → trim (lowercase cs) ≡ lowercase (trim cs)
unfolding trim
trim-lowercase cs =
    ap trim_end (drop_while-lowercase cs) ∙ trim_end-lowercase (drop_while is_whitespace cs)
