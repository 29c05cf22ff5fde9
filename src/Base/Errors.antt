-- ===== src/Base/Errors.antt =====
-- A function that may throw: the value, or the message of the error. Values that a message
-- interpolates are left out of its text.
use Prim.Native.String.{String}
use mathlib.Core.Path.{◌≡◌, refl}
use mathlib.Core.Bool.{Bool, true, false}
use mathlib.Core.Option.{Option, none, some}
use mathlib.Core.List.{List, [], ◌∷◌}

pub data Result {ℓ} (Value : Type ℓ) : Type ℓ where
  err : String → Result Value
  ok : Value → Result Value

-- The statements after one that may throw: with its value, and without.
infixl 5 ◌>>=◌
abbrev pub ◌>>=◌ {ℓ κ} :
    {Value : Type ℓ} {Next : Type κ} → Result Value → (Value → Result Next) → Result Next
err message >>= rest = err message
ok value >>= rest = rest value

infixl 5 ◌>>◌
abbrev pub ◌>>◌ {κ} : {Next : Type κ} → Result (Unit {0}) → Result Next → Result Next
check >> rest = check >>= λ passed. rest

-- `if (test) throw new Error(message)`
abbrev pub throw_if : Bool → String → Result (Unit {0})
throw_if true e = err e
throw_if false e = ok tt

-- The value of a file or a search, or an error.
abbrev pub or_throw {ℓ} : {A : Type ℓ} → Option A → String → Result A
or_throw none e = err e
or_throw (some a) e = ok a

-- `array.forEach` of a check that throws: the first failure ends it.
unfoldable pub each {ℓ} : {A : Type ℓ} → (A → Result (Unit {0})) → List A → Result (Unit {0})
each f [] = ok tt
each f (x ∷ xs) = let rest = each f xs in f x >> rest

-- A function that returned has passed its first statement, with some value.
pub >>=-eq-ok {ℓ κ} :
    {Value : Type ℓ} {Next : Type κ} {final : Next} (first : Result Value)
    (rest : Value → Result Next)
    → (first >>= rest) ≡ ok final
    → (value : Value) × (first ≡ ok value) × (rest value ≡ ok final)
>>=-eq-ok (err message) rest h = cc
>>=-eq-ok (ok value) rest h = (value, refl, h)

-- Inversions of the two ways to fail.
pub throw_if-ok {ℓ} :
    {A : Type ℓ} (test : Bool) (e : String) (k : Result A) {a : A}
    → (throw_if test e >> k) ≡ ok a
    → (test ≡ false) × (k ≡ ok a)
throw_if-ok true e k h = cc
throw_if-ok false e k h = (refl, h)

pub or_throw-ok {ℓ κ} :
    {A : Type ℓ} {B : Type κ} (o : Option A) (e : String) (f : A → Result B) {b : B}
    → (or_throw o e >>= f) ≡ ok b
    → (a : A) × (o ≡ some a) × (f a ≡ ok b)
or_throw-ok none e f h = cc
or_throw-ok (some a) e f h = (a, refl, h)

pub ok_inj {ℓ} : {A : Type ℓ} {a b : A} → ok a ≡ ok b → a ≡ b
ok_inj h = cc

pub throw_if-false : (b : Bool) (e : String) → throw_if b e ≡ ok tt → b ≡ false
throw_if-false true e h = cc
throw_if-false false e h = refl
