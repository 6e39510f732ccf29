-- ===== src/Prelude/Result.antt =====
-- What a function of the source returns or throws, with the error codes of its part.
use mathlib.Core.Path.{◌≡◌, refl, ap}
use mathlib.Core.Logic.{◌⊎◌, inl, inr}
use mathlib.Core.Bool.{Bool, true, false}
use native.Mathlib.Omega.{arith}

pub data Throws {ℓ} (Code : Type 0) (A : Type ℓ) : Type ℓ where
  err : Code → Throws Code A
  ok : A → Throws Code A

infixl 5 ◌>>=◌ ◌>>◌
abbrev pub ◌>>=◌ {ℓ κ} :
    {Code : Type 0} {A : Type ℓ} {B : Type κ} → Throws Code A → (A → Throws Code B) → Throws Code B
err code >>= next = err code
ok a >>= next = next a

abbrev pub ◌>>◌ {ℓ} :
    {Code : Type 0} {B : Type ℓ} → Throws Code (Unit {0}) → Throws Code B → Throws Code B
done >> next = done >>= λ _. next

-- assertRuntime(condition, code, …), assertCaas(condition, code, …)
abbrev pub assert_runtime : {Code : Type 0} → Bool → Code → Throws Code (Unit {0})
assert_runtime false code = err code
assert_runtime true code = ok tt

pub Result-cases {ℓ} :
    {Code : Type 0} {A : Type ℓ} (r : Throws Code A)
    → ((a : A) × (r ≡ ok a)) ⊎ ((code : Code) × (r ≡ err code))
Result-cases (err code) = inr (code, refl)
Result-cases (ok a) = inl (a, refl)

from_ok {ℓ} : {Code : Type 0} {A : Type ℓ} → A → Throws Code A → A
from_ok d (err code) = d
from_ok d (ok a) = a

pub ok-injective {ℓ} :
    {Code : Type 0} {A : Type ℓ} {a b : A} → ◌≡◌ {A = Throws Code A} (ok a) (ok b) → a ≡ b
unfolding from_ok
ok-injective {a} same = ap (from_ok a) same

abbrev pub is_error {ℓ} : {Code : Type 0} {A : Type ℓ} → Throws Code A → Bool
is_error (err code) = true
is_error (ok a) = false

-- What a chain that succeeds went through.
pub >>=-ok {ℓ κ} :
    {Code : Type 0} {A : Type ℓ} {B : Type κ} (r : Throws Code A) (next : A → Throws Code B) {b : B}
    → (r >>= next) ≡ ok b
    → (a : A) × (r ≡ ok a) × (next a ≡ ok b)
>>=-ok (err code) next h = ground arith
>>=-ok (ok a) next h = (a, refl, h)

pub >>-ok {ℓ} :
    {Code : Type 0} {B : Type ℓ} (done : Throws Code (Unit {0})) (next : Throws Code B) {b : B}
    → (done >> next) ≡ ok b
    → (done ≡ ok tt) × (next ≡ ok b)
>>-ok (err code) next h = ground arith
>>-ok (ok tt) next h = (refl, h)
