-- ===== src/Base/Lists.antt =====
-- The list operations that the program uses on arrays, over the native numbers.
use Prim.Native.Nat.{ℕ, suc, ◌+◌}
use Prim.Native.String.{String}
use mathlib.Core.Path.{◌≡◌, refl}
use mathlib.Core.Logic.{inl, inr, ◌↔◌}
use mathlib.Core.Bool.{Bool, true, false, ◌&&◌, ◌||◌}
use mathlib.Core.Option.{Option, none, some}
use mathlib.Core.List.{List, [], ◌∷◌, ◌++◌}
use native.Mathlib.Omega.{arith}
use durable_supervisor.Base.Tests.{if◌then◌else◌, Eq, ◌==◌, negb, string_eq, Bool-cases, some_inj}

module _ {ℓ} {A : Type ℓ} where
  abbrev pub length : List A → ℕ
  length [] = 0
  length (x ∷ xs) = suc (length xs)

  pub length-append : (xs ys : List A) → length (xs ++ ys) ≡ length xs + length ys
  length-append [] ys = omega arith
  length-append (x ∷ xs) ys = omega (arith, length-append xs ys)

  abbrev pub is_empty : List A → Bool
  is_empty [] = true
  is_empty (x ∷ xs) = false

  -- `array.some(test)`
  unfoldable pub any : (A → Bool) → List A → Bool
  any p [] = false
  any p (x ∷ xs) = p x || any p xs

  -- `array.every(test)`
  unfoldable pub all : (A → Bool) → List A → Bool
  all p [] = true
  all p (x ∷ xs) = p x && all p xs

  -- `array.filter(test)`
  unfoldable pub keep : (A → Bool) → List A → List A
  keep p [] = []
  keep p (x ∷ xs) = let rest = keep p xs in if p x then x ∷ rest else rest

  -- `array.find(test)`
  unfoldable pub find : (A → Bool) → List A → Option A
  find p [] = none
  find p (x ∷ xs) = if p x then some x else find p xs

  unfoldable pub last : List A → Option A
  last [] = none
  last (x ∷ []) = some x
  last (x ∷ y ∷ ys) = last (y ∷ ys)

module _ {ℓ} {A : Type ℓ} ⦃e : Eq A⦄ where
  -- `array.includes(value)` and `set.has(value)`
  unfoldable pub includes : List A → A → Bool
  includes [] a = false
  includes (x ∷ xs) a = x == a || includes xs a

  pub includes-append :
      (xs ys : List A) (a : A) → includes (xs ++ ys) a ≡ (includes xs a || includes ys a)
  unfolding includes
  includes-append [] ys a = refl
  includes-append (x ∷ xs) ys a = ground (arith, includes-append xs ys a)

  pub includes-append_last : (xs : List A) (a : A) → includes (xs ++ a ∷ []) a ≡ true
  unfolding includes
  includes-append_last [] a = ground (arith, e.agrees a a)
  includes-append_last (x ∷ xs) a = ground (arith, includes-append_last xs a)

  -- A test that holds of every element holds of a value that the array includes.
  pub all-includes :
      (p : A → Bool) (xs : List A) (a : A) → all p xs ≡ true → includes xs a ≡ true → p a ≡ true
  unfolding all includes
  all-includes p [] a h i = cc
  all-includes p (x ∷ xs) a h i = elim (Bool-cases (x == a)) [
    | inl same ↦ rw (← (e.agrees x a).0 same) (ground arith)
    | inr other ↦ all-includes p xs a (ground arith) (ground arith)
  ]

  -- How often a value stands in an array.
  unfoldable pub count : A → List A → ℕ
  count a [] = 0
  count a (x ∷ xs) = let rest = count a xs in if x == a then suc rest else rest

  -- No value twice: `new Set(values).size === values.length`.
  unfoldable pub distinct : List A → Bool
  unfolding includes
  distinct [] = true
  distinct (x ∷ xs) = negb (includes xs x) && distinct xs

-- A directory of JSON files, or an object: texts to values. `insert` replaces the value of a key.
module _ {ℓ} {V : Type ℓ} where
  unfoldable pub insert : String → V → List (String × V) → List (String × V)
  insert key value [] = (key, value) ∷ []
  insert key value (entry ∷ more) =
      if entry.0 == key then (key, value) ∷ more else entry ∷ insert key value more

  unfoldable pub lookup : String → List (String × V) → Option V
  lookup key [] = none
  lookup key (entry ∷ more) = if entry.0 == key then some entry.1 else lookup key more

  pub lookup-insert :
      (key other : String) (value : V) (table : List (String × V))
      → lookup other (insert key value table)
        ≡ (if key == other then some value else lookup other table)
  unfolding insert lookup
  lookup-insert key other value [] = refl
  lookup-insert key other value ((name, old) ∷ more) =
      let rest = lookup-insert key other value more in
      ground (
        arith,
        rest,
        string_eq.agrees name other,
        string_eq.agrees name key,
        string_eq.agrees key other,
      )

  pub lookup-insert_self :
      (k : String) (v : V) (m : List (String × V)) → lookup k (insert k v m) ≡ some v
  lookup-insert_self k v m = ground (arith, lookup-insert k k v m, string_eq.agrees k k)

-- Arrays of texts with the same elements in the same order.
unfoldable pub texts_beq : List String → List String → Bool
texts_beq [] [] = true
texts_beq [] (y ∷ ys) = false
texts_beq (x ∷ xs) [] = false
texts_beq (x ∷ xs) (y ∷ ys) = x == y && texts_beq xs ys

pub texts_beq_iff : (xs ys : List String) → (texts_beq xs ys ≡ true) ↔ (xs ≡ ys)
unfolding texts_beq
texts_beq_iff [] [] = (λ _. refl, λ _. refl)
texts_beq_iff [] (y ∷ ys) = (λ h. cc, λ h. cc)
texts_beq_iff (x ∷ xs) [] = (λ h. cc, λ h. cc)
texts_beq_iff (x ∷ xs) (y ∷ ys) = (
  λ h. ground (arith, string_eq.agrees x y, texts_beq_iff xs ys),
  λ h. ground (arith, string_eq.agrees x y, texts_beq_iff xs ys),
)

instance abbrev pub texts_eq : Eq (List String)
texts_eq = record { test = texts_beq; agrees = texts_beq_iff }

pub find_holds {ℓ} :
    {A : Type ℓ} (p : A → Bool) (xs : List A) (a : A) → find p xs ≡ some a → p a ≡ true
unfolding find
find_holds p [] a h = cc
find_holds p (x ∷ xs) a h = elim (Bool-cases (p x)) [
  | inl yes_x ↦ rw (← some_inj (rw yes_x at h)) yes_x
  | inr no_x ↦ find_holds p xs a (rw no_x at h)
]

-- A conjunction of many tests, and what it says of each.
unfoldable pub all_of : List Bool → Bool
all_of [] = true
all_of (b ∷ bs) = b && all_of bs

abbrev pub AllHold : List Bool → Type 0
AllHold [] = Unit {0}
AllHold (b ∷ bs) = (b ≡ true) × AllHold bs

pub all_of-AllHold : (bs : List Bool) → all_of bs ≡ true → AllHold bs
unfolding all_of
all_of-AllHold [] h = tt
all_of-AllHold (true ∷ bs) h = (refl, all_of-AllHold bs h)
all_of-AllHold (false ∷ bs) h = cc

pub AllHold-all_of : (bs : List Bool) → AllHold bs → all_of bs ≡ true
unfolding all_of
AllHold-all_of [] h = refl
AllHold-all_of (true ∷ bs) h = AllHold-all_of bs h.1
AllHold-all_of (false ∷ bs) h = cc (h.0)

-- A disjunction of many tests, and what its failure says of each.
unfoldable pub any_of : List Bool → Bool
any_of [] = false
any_of (b ∷ bs) = b || any_of bs

abbrev pub NoneHold : List Bool → Type 0
NoneHold [] = Unit {0}
NoneHold (b ∷ bs) = (b ≡ false) × NoneHold bs

pub any_of-NoneHold : (bs : List Bool) → any_of bs ≡ false → NoneHold bs
unfolding any_of
any_of-NoneHold [] h = tt
any_of-NoneHold (true ∷ bs) h = cc
any_of-NoneHold (false ∷ bs) h = (refl, any_of-NoneHold bs h)

pub NoneHold-any_of : (bs : List Bool) → NoneHold bs → any_of bs ≡ false
unfolding any_of
NoneHold-any_of [] h = refl
NoneHold-any_of (true ∷ bs) h = cc (h.0)
NoneHold-any_of (false ∷ bs) h = NoneHold-any_of bs h.1
