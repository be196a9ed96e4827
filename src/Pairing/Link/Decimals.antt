-- ===== src/Pairing/Link/Decimals.antt =====
-- invite.rs: the expiry in a link is read back as it was written.
use panora.Prelude.{
  ℕ, zero, suc, ◌+◌, ◌-◌, ◌*◌, ◌/◌, ◌%◌, ◌^◌, ◌≤◌, ◌<◌, ◌≡◌, refl, sym, ap, ◌∙◌, true, false,
  Option, none, some, [], ◌∷◌, ◌++◌, ltb, leb, ◌==◌, nat_eq, Bool-cases, inl, inr, arith, ℤ, pos,
  negsuc,
}
use panora.Rosters.Names.{is_whitespace}
use panora.Privacy.{Chars}
use panora.Pairing.Link.{digits, show_int, read_digits, read_nat, read_int}
use panora.Pairing.Link.Pieces.{Lacks, Lacks-append, Ends, Ends-append}

abbrev shifted : ℕ → Option ℕ → Option ℕ
shifted d none = none
shifted d (some m) = some (m * 10 + d)

read_digits-snoc :
    (acc d : ℕ) (cs : Chars)
    → d < 10
    → read_digits acc (cs ++ (48 + d) ∷ []) ≡ shifted d (read_digits acc cs)
read_digits-snoc acc d [] h = ground arith
read_digits-snoc acc d (c ∷ cs) h = ground (arith, read_digits-snoc (acc * 10 + (c - 48)) d cs h)

read_digits-digits : (fuel n : ℕ) → n < 10 ^ fuel → read_digits 0 (digits fuel n) ≡ some n
read_digits-digits zero n h = ground arith
read_digits-digits (suc fuel) n h = elim (Bool-cases (ltb n 10)) [
  | inl e ↦ rw e (ground arith)
  | inr e ↦ rw e (
      read_digits-snoc 0 (n % 10) (digits fuel (n / 10)) (omega arith)
      ∙ (ap (shifted (n % 10)) (read_digits-digits fuel (n / 10) (omega (arith, h)))
          ∙ ap some (omega arith)))
]

-- The first of some digits.
record Begins (cs : Chars) : Type 0 where
  head : ℕ
  tail : Chars
  cons : cs ≡ head ∷ tail
  low : 48 ≤ head
  high : head ≤ 57

append-Begins : (cs ds : Chars) → Begins cs → Begins (cs ++ ds)
append-Begins cs ds b = record {
  head = b.head;
  tail = b.tail ++ ds;
  cons = ap (λ (x : Chars). x ++ ds) b.cons;
  low = b.low;
  high = b.high;
}

digits-Begins : (fuel n : ℕ) → Begins (digits (suc fuel) n)
digits-Begins zero n = elim (Bool-cases (ltb n 10)) [
  | inl e ↦
      rw e
        (record { head = 48 + n; tail = []; cons = refl; low = omega arith; high = ground arith })
  | inr e ↦
      rw e (record {
        head = 48 + n % 10;
        tail = [];
        cons = refl;
        low = omega arith;
        high = omega arith;
      })
]
digits-Begins (suc fuel) n =
    let rest = digits-Begins fuel (n / 10) in
    elim (Bool-cases (ltb n 10)) [
      | inl e ↦
          rw e (record {
            head = 48 + n;
            tail = [];
            cons = refl;
            low = omega arith;
            high = ground arith;
          })
      | inr e ↦ rw e (append-Begins (digits (suc fuel) (n / 10)) ((48 + n % 10) ∷ []) rest)
    ]

-- An `i64`.
abbrev pub IsI64 : ℤ → Type 0
IsI64 (pos n) = n < 2 ^ 63
IsI64 (negsuc n) = n < 2 ^ 63

read_nat_begun : (cs : Chars) → Begins cs → read_nat cs ≡ read_digits 0 cs
read_nat_begun cs b = rw b.cons refl

read_int_begun :
    (cs : Chars) (n : ℕ)
    → Begins cs
    → read_digits 0 cs ≡ some n
    → n < 2 ^ 63
    → read_int cs ≡ some (pos n)
unfolding read_int
read_int_begun cs n b e h =
    let low : 48 ≤ b.head = b.low in
    let minus : (b.head == 45) ≡ false = ground (arith, low) in
    let plus : (b.head == 43) ≡ false = ground (arith, low) in
    let whole : read_nat (b.head ∷ b.tail) ≡ some n =
      ap read_nat (sym b.cons) ∙ (read_nat_begun cs b ∙ e) in
    let fits : leb n (2 ^ 63 - 1) ≡ true = ground (arith, h) in
    rw (b.cons, minus, plus, whole, fits) refl

pub read_int-show_int : (z : ℤ) → IsI64 z → read_int (show_int z) ≡ some z
unfolding read_int show_int
read_int-show_int (pos n) h =
    read_int_begun (digits 19 n) n (digits-Begins 18 n) (read_digits-digits 19 n (omega (arith, h)))
      h
read_int-show_int (negsuc n) h =
    let fits : leb (suc n) (2 ^ 63) ≡ true = ground (arith, h) in
    let read : read_nat (digits 19 (suc n)) ≡ some (suc n) =
      read_nat_begun (digits 19 (suc n)) (digits-Begins 18 (suc n))
      ∙ read_digits-digits 19 (suc n) (omega (arith, h)) in
    rw (read, fits) refl

digit_is_visible : (d : ℕ) → d < 10 → is_whitespace (48 + d) ≡ false
digit_is_visible d h = ground (arith, h)

digits-Ends : (fuel n : ℕ) → Ends (digits (suc fuel) n)
digits-Ends fuel n = elim (Bool-cases (ltb n 10)) [
  | inl e ↦ rw e (record { end = 48 + n; is_last = refl; ends = digit_is_visible n (ground arith) })
  | inr e ↦ rw e (
      Ends-append (digits fuel (n / 10)) ((48 + n % 10) ∷ []) (record {
        end = 48 + n % 10;
        is_last = refl;
        ends = digit_is_visible (n % 10) (omega arith);
      }))
]

digits-Lacks : (fuel n : ℕ) → Lacks 38 (digits fuel n)
digits-Lacks zero n = refl
digits-Lacks (suc fuel) n = elim (Bool-cases (ltb n 10)) [
  | inl e ↦ rw e (ground arith)
  | inr e ↦ rw e (
      Lacks-append 38 (digits fuel (n / 10)) ((48 + n % 10) ∷ []) (digits-Lacks fuel (n / 10))
        (ground arith))
]

pub show_int-Ends : (z : ℤ) → Ends (show_int z)
unfolding show_int
show_int-Ends (pos n) = digits-Ends 18 n
show_int-Ends (negsuc n) = Ends-append (45 ∷ []) (digits 19 (suc n)) (digits-Ends 18 (suc n))

pub show_int-Lacks : (z : ℤ) → Lacks 38 (show_int z)
unfolding show_int
show_int-Lacks (pos n) = digits-Lacks 19 n
show_int-Lacks (negsuc n) =
    Lacks-append 38 (45 ∷ []) (digits 19 (suc n)) refl (digits-Lacks 19 (suc n))
