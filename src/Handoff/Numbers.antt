-- ===== src/Handoff/Numbers.antt =====
-- src/pipeline.js: the number in the identity of an attempt.
use durable_supervisor.Base.{
  Bool-cases, String, refl, inl, inr, ltb, suc, zero, ℕ, ◌%◌, ◌/◌, ◌<◌, ◌≤◌, ◌≡◌, arith,
}
use durable_supervisor.Handoff.Attempt.{decimal, digit, digits, join}

-- All rounds above the number print the same digits.
pub decimal_rounds :
    (a b n : ℕ) (rest : String) → n < a → n < b → decimal a n rest ≡ decimal b n rest
unfolding decimal
decimal_rounds zero b n rest below other = absurd (omega arith)
decimal_rounds (suc a) zero n rest below other = absurd (omega arith)
decimal_rounds (suc a) (suc b) n rest below other = elim (Bool-cases (ltb n 10)) [
  | inl small ↦ rw small refl
  | inr large ↦
      let big : 10 ≤ n = ground arith in
      rw large (
        decimal_rounds a b (n / 10) (join (digit digits (n % 10)) rest) (omega arith) (omega arith))
]
