-- ===== src/Prelude/Ints.antt =====
-- Signed numbers, as the program reads them from a peer.
use mathlib.Core.Bool.{Bool, true, false}
use mathlib.Core.Path.{◌≡◌}
use Prim.Native.Nat.{ℕ, ◌≤◌, ◌+◌, ◌-◌}
use native.Mathlib.Omega.{arith}
use panora.Prelude.Tests.{ltb, if◌then◌else◌}
use panora.Prelude.Equality.{◌==◌, ==-refl, nat_eq}

-- `negsuc n` is - (n + 1).
pub data ℤ : Type 0 where
  pos negsuc : ℕ → ℤ

-- `i64::clamp` to bounds that are not negative.
abbrev pub clamp : ℤ → ℕ → ℕ → ℕ
clamp (negsuc n) low high = low
clamp (pos n) low high = if ltb n low then low else if ltb high n then high else n

pub clamp-bounds :
    (z : ℤ) (low high : ℕ) → low ≤ high → (low ≤ clamp z low high) × (clamp z low high ≤ high)
clamp-bounds (negsuc n) low high h = (omega arith, h)
clamp-bounds (pos n) low high h = ground arith

-- `==` on `i64`.
abbrev pub int_beq : ℤ → ℤ → Bool
int_beq (pos a) (pos b) = a == b
int_beq (negsuc a) (negsuc b) = a == b
int_beq _ _ = false

pub int_beq→eq : (a b : ℤ) → int_beq a b ≡ true → a ≡ b
int_beq→eq a b h = ground arith

-- `<` on `i64`.
abbrev pub int_ltb : ℤ → ℤ → Bool
int_ltb (pos a) (pos b) = ltb a b
int_ltb (pos a) (negsuc b) = false
int_ltb (negsuc a) (pos b) = true
int_ltb (negsuc a) (negsuc b) = ltb b a

-- A later time, short of the end of `i64`.
abbrev pub int_add : ℤ → ℕ → ℤ
int_add (pos a) n = pos (a + n)
int_add (negsuc a) n = if ltb a n then pos (n - a - 1) else negsuc (a - n)

pub int_beq_self : (a : ℤ) → int_beq a a ≡ true
int_beq_self (pos a) = ==-refl a
int_beq_self (negsuc a) = ==-refl a
