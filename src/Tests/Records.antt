-- ===== src/Tests/Records.antt =====
-- Digests by which the runs below tell contents apart: a content is its own digest.
use durable_supervisor.Activation.Transport.{StoredDecision}
use durable_supervisor.Base.{
  Bool, Bool-cases, String, false, inl, inr, refl, string_eq, true, ◌==◌, ◌≡◌,
}
use native.Mathlib.Decide.{ℕ_discrete}
use durable_supervisor.Store.{Hash}
use durable_supervisor.Claims.Index.{IndexContent}
use durable_supervisor.Activation.Lease.{Lease}
use durable_supervisor.Activation.Decision.{Decision}

is_yes {ℓ} : {P : Type ℓ} → Dec P → Bool
is_yes (yes p) = true
is_yes (no n) = false

is_yes_holds {ℓ} : {P : Type ℓ} (d : Dec P) → P → is_yes d ≡ true
unfolding is_yes
is_yes_holds (yes p) q = refl
is_yes_holds (no n) q = absurd (n q)

is_yes_sound {ℓ} : {P : Type ℓ} (d : Dec P) → is_yes d ≡ true → P
unfolding is_yes
is_yes_sound (yes p) h = p
is_yes_sound (no n) h = cc

pub own_digest : {A : Type 0} → Discrete A → Hash A
own_digest {A} dec = record {
  Digest = A;
  sha256 = λ a. a;
  same = λ a b. is_yes (dec a b);
  same_refl = λ a. is_yes_holds (dec a a) refl;
  same_sound = λ a b. is_yes_sound (dec a b);
}

pub String_discrete : Discrete String
String_discrete a b = elim (Bool-cases (a == b)) [
  | inl same ↦ yes ((string_eq.agrees a b).0 same)
  | inr other ↦ no (λ e. let h = (string_eq.agrees a b).1 e in cc)
]

pub index_content_discrete : Discrete IndexContent
index_content_discrete = hlevel (ℕ_discrete, String_discrete)

pub lease_discrete : Discrete Lease
lease_discrete = hlevel (ℕ_discrete, String_discrete)

pub decision_discrete : Discrete Decision
decision_discrete = hlevel (ℕ_discrete, String_discrete)

pub stored_decision_discrete : Discrete StoredDecision
stored_decision_discrete = hlevel (ℕ_discrete, String_discrete)
