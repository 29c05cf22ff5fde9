-- ===== src/Base/Texts.antt =====
-- JavaScript's operations on texts that the program uses: `trim`, `split` at one character, and the
-- test for 64 lower-case hexadecimal digits.
use Prim.Native.Nat.{ℕ, zero, suc}
use Prim.Native.Char.{Char, code}
use Prim.Native.String.{String}
use mathlib.Core.Bool.{Bool, true, false, ◌&&◌, ◌||◌}
use mathlib.Core.Option.{Option, none, some}
use mathlib.Core.List.{List, [], ◌∷◌}
use mathlib.Core.Path.{◌≡◌, refl}
use mathlib.Core.Logic.{inl, inr}
use durable_supervisor.Base.Tests.{if◌then◌else◌, leb, nat_beq, nonempty, Bool-cases, string_eq}

-- The white space that `trim` removes.
unfoldable pub is_space : ℕ → Bool
is_space c =
    leb 0x9 c && leb c 0xD
    || nat_beq c 0x20
    || nat_beq c 0xA0
    || nat_beq c 0x1680
    || leb 0x2000 c && leb c 0x200A
    || nat_beq c 0x2028
    || nat_beq c 0x2029
    || nat_beq c 0x202F
    || nat_beq c 0x205F
    || nat_beq c 0x3000
    || nat_beq c 0xFEFF

unfoldable pub trim_start : String → String
trim_start String.[] = String.[]
trim_start (String.◌∷◌ c s) = if is_space (code c) then trim_start s else String.◌∷◌ c s

-- A code before a text whose end is trimmed.
unfoldable pub end_at : Char → String → String
end_at c String.[] = if is_space (code c) then String.[] else String.◌∷◌ c String.[]
end_at c (String.◌∷◌ d r) = String.◌∷◌ c (String.◌∷◌ d r)

unfoldable pub trim_end : String → String
trim_end String.[] = String.[]
trim_end (String.◌∷◌ c s) = end_at c (trim_end s)

unfoldable pub trim : String → String
unfolding trim_start trim_end is_space
trim s = trim_end (trim_start s)

-- No white space stands at the start of the text.
abbrev IsStripped : String → Type 0
IsStripped String.[] = Unit {0}
IsStripped (String.◌∷◌ c s) = is_space (code c) ≡ false

trim_start-IsStripped : (s : String) → IsStripped (trim_start s)
unfolding trim_start
trim_start-IsStripped String.[] = tt
trim_start-IsStripped (String.◌∷◌ c s) = elim (Bool-cases (is_space (code c))) [
  | inl space ↦ rw space (trim_start-IsStripped s)
  | inr word ↦ rw word word
]

end_at-cons :
    (c : Char) (s : String)
    → is_space (code c) ≡ false
    → (r : String) × (end_at c s ≡ String.◌∷◌ c r)
unfolding end_at
end_at-cons c String.[] h = (String.[], rw h refl)
end_at-cons c (String.◌∷◌ d r) h = (String.◌∷◌ d r, refl)

nonempty-cons : (c : Char) (s : String) → nonempty (String.◌∷◌ c s) ≡ true
nonempty-cons c s = elim (Bool-cases (string_eq.test (String.◌∷◌ c s) "")) [
  | inl empty ↦ let bad = (string_eq.agrees (String.◌∷◌ c s) "").0 empty in cc
  | inr other ↦ rw other refl
]

trim_end-words :
    (s : String) → IsStripped s → nonempty (trim_end s) ≡ true → nonempty (trim (trim_end s)) ≡ true
unfolding trim trim_start trim_end
trim_end-words String.[] stripped h = cc
trim_end-words (String.◌∷◌ c s) stripped h =
    let (r, e) = end_at-cons c (trim_end s) stripped in
    let (q, e') = end_at-cons c (trim_end r) stripped in rw (e, stripped, e') (nonempty-cons c q)

-- A text that has been trimmed and is not empty is not blank.
pub trim-words : (s : String) → nonempty (trim s) ≡ true → nonempty (trim (trim s)) ≡ true
unfolding trim
trim-words s h = trim_end-words (trim_start s) (trim_start-IsStripped s) h

-- An optional text that is present and not empty, as JavaScript tests it.
abbrev pub truthy : Option String → Bool
truthy none = false
truthy (some s) = nonempty s

-- `split` at the character of the code: the text before the first, and the rest of the parts.
unfoldable pub split_at : ℕ → String → List String
split_at separator String.[] = "" ∷ []
split_at separator (String.◌∷◌ c s) = place (split_at separator s)
  where
    place : List String → List String
    place [] = String.◌∷◌ c String.[] ∷ []
    place (part ∷ parts) =
        if nat_beq (code c) separator then "" ∷ part ∷ parts else String.◌∷◌ c part ∷ parts

unfoldable pub is_hex : ℕ → Bool
is_hex c = leb b'0' c && leb c b'9' || leb b'a' c && leb c b'f'

unfoldable pub hex_digits : ℕ → String → Bool
hex_digits zero String.[] = true
hex_digits zero (String.◌∷◌ c s) = false
hex_digits (suc n) String.[] = false
hex_digits (suc n) (String.◌∷◌ c s) = is_hex (code c) && hex_digits n s

-- `/^[a-f0-9]{64}$/.test(text)`
unfoldable pub is_sha256 : String → Bool
unfolding hex_digits is_hex
is_sha256 s = hex_digits 64 s
