-- ===== src/Prelude/Outcome.antt =====
-- What a piece of C does: it comes to a value, or it does what C leaves undefined.
use mathlib.Core.Path.{◌≡◌, refl}
use mathlib.Core.Bool.{Bool, true, false}
use cloud_disk_server.Prelude.Tests.{if◌then◌else◌}
use mathlib.Core.Option.{Option, none, some}

-- `fault` is a read through NULL, a read or a write outside an object, or a read of memory that was
-- never written.
pub data Outcome {ℓ} (A : Type ℓ) : Type ℓ where
  done : A → Outcome A
  fault : Outcome A

infixl 5 ◌>>=◌
abbrev pub ◌>>=◌ {ℓ κ} : {A : Type ℓ} {B : Type κ} → Outcome A → (A → Outcome B) → Outcome B
done a >>= f = f a
fault >>= f = fault

-- The target of a pointer that may be NULL.
abbrev pub deref {ℓ} : {A : Type ℓ} → Option A → Outcome A
deref none = fault
deref (some a) = done a

pub >>=-eq-done {ℓ κ} :
    {A : Type ℓ} {B : Type κ} (m : Outcome A) (f : A → Outcome B) {b : B}
    → (m >>= f) ≡ done b
    → (a : A) × (m ≡ done a) × (f a ≡ done b)
>>=-eq-done (done a) f h = (a, refl, h)
>>=-eq-done fault f h = cc

-- What holds of the value, if there is one.
abbrev pub OnDone {ℓ κ} : {A : Type ℓ} → (A → Type κ) → Outcome A → Type κ
OnDone P (done a) = P a
OnDone P fault = Unit

pub OnDone-bind {ℓ κ μ ν} :
    {A : Type ℓ} {B : Type κ} (Q : A → Type μ) (P : B → Type ν) (o : Outcome A) (f : A → Outcome B)
    → OnDone Q o
    → ((a : A) → Q a → OnDone P (f a))
    → OnDone P (o >>= f)
OnDone-bind Q P (done a) f q h = h a q
OnDone-bind Q P fault f q h = tt

pub OnDone-any {ℓ} : {A : Type ℓ} (o : Outcome A) → OnDone (λ (a : A). Unit {0}) o
OnDone-any (done a) = tt
OnDone-any fault = tt

pub OnDone-if {ℓ κ} :
    {A : Type ℓ} (P : A → Type κ) (b : Bool) (x y : Outcome A)
    → OnDone P x
    → OnDone P y
    → OnDone P (if b then x else y)
OnDone-if P true x y h k = h
OnDone-if P false x y h k = k

pub OnDone-test {ℓ κ} :
    {A : Type ℓ} (P : A → Type κ) (b : Bool) (a : A)
    → (b ≡ true → P a)
    → OnDone P (if b then done a else fault)
OnDone-test P true a h = h refl
OnDone-test P false a h = tt
