-- ===== src/Prelude/Sums.antt =====
-- Results that may fail with an error of the model's own type, and their sequencing.
use mathlib.Core.Path.{◌≡◌, refl}
use mathlib.Core.Bool.{Bool}
use panora.Prelude.Tests.{if◌then◌else◌}
use mathlib.Core.Option.{Option, none, some}
use mathlib.Core.Logic.{◌⊎◌, inl, inr}

pub data Result {ℓ κ} (E : Type κ) (A : Type ℓ) : Type (ℓ ⊔ κ) where
  ok : A → Result E A
  err : E → Result E A

-- The `?` of Rust.
infixl 5 ◌>>=◌ ◌>>◌
abbrev pub ◌>>=◌ {ℓ κ μ} :
    {A : Type ℓ} {B : Type κ} {E : Type μ} (r : Result E A) (next : A → Result E B) → Result E B
err e >>= next = err e
ok a >>= next = next a

abbrev pub ◌>>◌ {κ μ} :
    {B : Type κ} {E : Type μ} (check : Result E (Unit {0})) (next : Result E B) → Result E B
err e >> next = err e
ok u >> next = next

-- `if !b { return Err(e) }`.
abbrev pub guard {μ} : {E : Type μ} → Bool → E → Result E (Unit {0})
guard b e = if b then ok tt else err e

-- `Option::ok_or`.
abbrev pub ok_or {ℓ μ} : {E : Type μ} {A : Type ℓ} → Option A → E → Result E A
ok_or none e = err e
ok_or (some a) e = ok a

pub >>=-eq-ok {ℓ κ μ} :
    {A : Type ℓ} {B : Type κ} {E : Type μ} (r : Result E A) (next : A → Result E B) {b : B}
    → (r >>= next) ≡ ok b
    → (a : A) × (r ≡ ok a) × (next a ≡ ok b)
>>=-eq-ok (err e) next h = cc
>>=-eq-ok (ok a) next h = (a, refl, h)

pub Result-cases {ℓ μ} :
    {E : Type μ} {A : Type ℓ} (r : Result E A) → ((a : A) × (r ≡ ok a)) ⊎ ((e : E) × (r ≡ err e))
Result-cases (ok a) = inl (a, refl)
Result-cases (err e) = inr (e, refl)

pub >>-eq-ok {κ μ} :
    {B : Type κ} {E : Type μ} (check : Result E (Unit {0})) (next : Result E B) {b : B}
    → (check >> next) ≡ ok b
    → (check ≡ ok tt) × (next ≡ ok b)
>>-eq-ok (err e) next h = cc
>>-eq-ok (ok u) next h = (refl, h)

-- A call that returns a state and a value.
pub ok-pair-injective {ℓ κ μ} :
    {S : Type ℓ} {A : Type κ} {E : Type μ} (s t : S) (a b : A)
    → ◌≡◌ {A = Result E (S × A)} (ok (s, a)) (ok (t, b))
    → (s ≡ t) × (a ≡ b)
ok-pair-injective s t a b e = (cc, cc)
