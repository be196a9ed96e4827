-- ===== src/Pairing/Link/Pieces.antt =====
-- invite.rs: the fields of a link are split as they were joined.
use panora.Prelude.{
  ℕ, ◌≡◌, refl, sym, ap, ◌∙◌, false, none, some, [], ◌∷◌, ◌++◌, append-nil, contains, last, ◌==◌,
  ==-refl, ==→eq, nat_eq, Bool-cases, inl, inr, arith, drop_while,
}
use panora.Rosters.Names.{is_whitespace}
use panora.Privacy.{Chars, trim, trim_end}
use panora.Privacy.Parts.{IsSolid, trim_end-append}
use panora.Pairing.Link.{escape, unescape, split, split_once, strip_prefix}

-- A text without a character.
abbrev pub Lacks : ℕ → Chars → Type 0
Lacks c cs = contains cs c ≡ false

pub Lacks-append : (c : ℕ) (xs ys : Chars) → Lacks c xs → Lacks c ys → Lacks c (xs ++ ys)
Lacks-append c [] ys h k = k
Lacks-append c (x ∷ xs) ys h k = ground (arith, Lacks-append c xs ys)

pub split_last : (sep : ℕ) (xs : Chars) → Lacks sep xs → split sep xs ≡ xs ∷ []
unfolding split
split_last sep [] h = refl
split_last sep (x ∷ xs) h = ground (arith, split_last sep xs)

pub split-append :
    (sep : ℕ) (xs ys : Chars) → Lacks sep xs → split sep (xs ++ sep ∷ ys) ≡ xs ∷ split sep ys
unfolding split
split-append sep [] ys h = rw (==-refl sep) refl
split-append sep (x ∷ xs) ys h =
    let other : (x == sep) ≡ false = ground arith in
    rw (other, split-append sep xs ys (ground arith)) refl

pub split_once-append :
    (sep : ℕ) (key value : Chars)
    → Lacks sep key
    → split_once sep (key ++ sep ∷ value) ≡ some (key, value)
unfolding split_once
split_once-append sep [] value h = rw (==-refl sep) refl
split_once-append sep (k ∷ key) value h =
    let other : (k == sep) ≡ false = ground arith in
    rw (other, split_once-append sep key value (ground arith)) refl

pub strip_prefix-append : (p cs : Chars) → strip_prefix p (p ++ cs) ≡ some cs
unfolding strip_prefix
strip_prefix-append [] cs = refl
strip_prefix-append (x ∷ p) cs = rw (==-refl x, strip_prefix-append p cs) refl

pub Lacks-escape : (cs : Chars) → Lacks 38 cs → Lacks 38 (escape cs)
unfolding escape
Lacks-escape [] h = refl
Lacks-escape (c ∷ cs) h = ground (arith, Lacks-escape cs)

pub last-append : (xs ys : Chars) (end : ℕ) → last ys ≡ some end → last (xs ++ ys) ≡ some end
last-append [] ys end h = h
last-append (x ∷ []) [] end h = absurd cc
last-append (x ∷ []) (y ∷ ys) end h = h
last-append (x ∷ z ∷ xs) ys end h = last-append (z ∷ xs) ys end h

pub trim_solid : (cs : Chars) → IsSolid cs → trim cs ≡ cs
unfolding trim trim_end
trim_solid cs s =
    let start : drop_while is_whitespace cs ≡ cs = rw (s.cons, s.starts) refl in
    ap trim_end start
    ∙ (ap trim_end (sym (append-nil cs))
        ∙ (trim_end-append cs s.end [] s.is_last s.ends ∙ append-nil cs))

unescape-other : (c : ℕ) (cs : Chars) → (c == 37) ≡ false → unescape (c ∷ cs) ≡ c ∷ unescape cs
unfolding unescape
unescape-other c [] h = refl
unescape-other c (b ∷ []) h = refl
unescape-other c (b ∷ d ∷ cs) h = rw h refl

pub unescape-escape : (cs : Chars) → unescape (escape cs) ≡ cs
unfolding escape unescape
unescape-escape [] = refl
unescape-escape (c ∷ cs) = elim (Bool-cases (c == 37)) [
  | inl e ↦ rw (e, unescape-escape cs) (ap (λ (x : ℕ). x ∷ cs) (sym (==→eq c 37 e)))
  | inr e ↦ rw e (unescape-other c (escape cs) e ∙ ap (λ (x : Chars). c ∷ x) (unescape-escape cs))
]

-- A text whose last character is no space.
pub record Ends (cs : Chars) : Type 0 where
  pub end : ℕ
  pub is_last : last cs ≡ some end
  pub ends : is_whitespace end ≡ false

pub Ends-append : (xs ys : Chars) → Ends ys → Ends (xs ++ ys)
Ends-append xs ys h = record {
  end = h.end;
  is_last = last-append xs ys h.end h.is_last;
  ends = h.ends;
}

Ends-tail : (x y : ℕ) (cs : Chars) → Ends (x ∷ y ∷ cs) → Ends (y ∷ cs)
Ends-tail x y cs h = record { end = h.end; is_last = h.is_last; ends = h.ends }

pub Ends-escape : (cs : Chars) → Ends cs → Ends (escape cs)
unfolding escape
Ends-escape [] h = absurd (let e : none ≡ some h.end = h.is_last in cc)
Ends-escape (c ∷ []) h = elim (Bool-cases (c == 37)) [
  | inl e ↦ rw e (record { end = 53; is_last = refl; ends = refl })
  | inr e ↦ rw e (record { end = h.end; is_last = h.is_last; ends = h.ends })
]
Ends-escape (c ∷ d ∷ cs) h =
    let rest = Ends-escape (d ∷ cs) (Ends-tail c d cs h) in
    elim (Bool-cases (c == 37)) [
      | inl e ↦ rw e (Ends-append (37 ∷ 50 ∷ 53 ∷ []) (escape (d ∷ cs)) rest)
      | inr e ↦ rw e (Ends-append (c ∷ []) (escape (d ∷ cs)) rest)
    ]
