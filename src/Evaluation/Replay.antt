-- ===== src/Evaluation/Replay.antt =====
-- Runs that write durable records step by step and may stop anywhere, a step's own writes included,
-- and be started again on what they left.
use durable_supervisor.Base.{
  >>=-eq-ok, List, Result, [], ok, ok_inj, refl, subst, ◌>>=◌, ◌∙◌, ◌∷◌, ◌≡◌,
}

-- One step: what it does, and what it has written when it is stopped half-way.
pub record Step (R : Type 0) : Type 0 where
  pub run : R → Result R
  pub halfway : R → Result R

module _ {R : Type 0} where
  unfoldable pub run_steps : List (Step R) → R → Result R
  run_steps [] r = ok r
  run_steps (step ∷ rest) r = step.run r >>= run_steps rest

  -- What a run of the steps may leave when it is stopped: `Interrupted steps before after`.
  pub data Interrupted : List (Step R) → R → R → Type 0 where
    here :
        (step : Step R) (rest : List (Step R)) (r s : R)
        → step.halfway r ≡ ok s
        → Interrupted (step ∷ rest) r s
    later :
        (step : Step R) (rest : List (Step R)) (r s u : R)
        → step.run r ≡ ok s
        → Interrupted rest s u
        → Interrupted (step ∷ rest) r u

  -- Any number of interrupted runs, each on what the one before left.
  pub data Crashes (steps : List (Step R)) : R → R → Type 0 where
    no_crash : (r : R) → Crashes steps r r
    crash : (r s u : R) → Interrupted steps r s → Crashes steps s u → Crashes steps r u

  -- A step that, where `P` holds, makes `D` hold and keeps `P`; that changes nothing where `D` holds;
  -- and that can be run again from half-way.
  pub record IsReplayable (P D : R → Type 0) (step : Step R) : Type 0 where
    pub keeps : (r s : R) → P r → step.run r ≡ ok s → P s × D s
    pub again : (r : R) → D r → step.run r ≡ ok r
    pub half_keeps : (r s : R) → P r → step.halfway r ≡ ok s → P s
    pub half_again : (r s : R) → P r → step.halfway r ≡ ok s → step.run s ≡ step.run r

  -- A list of steps, the predicate that holds before it and the one that a full run brings about.
  pub data Lawful : (R → Type 0) → List (Step R) → (R → Type 0) → Type 1 where
    finished : (P : R → Type 0) → Lawful P [] P
    next :
        (P D Q : R → Type 0) (step : Step R) (rest : List (Step R))
        → IsReplayable P D step
        → Lawful (λ r. P r × D r) rest Q
        → Lawful P (step ∷ rest) Q

  -- A step that writes once: half-way it has written nothing.
  abbrev pub at_once : (R → Result R) → Step R
  at_once f = record { run = f; halfway = ok }

  pub at_once-IsReplayable :
      (P D : R → Type 0) (f : R → Result R)
      → ((r s : R) → P r → f r ≡ ok s → P s × D s)
      → ((r : R) → D r → f r ≡ ok r)
      → IsReplayable P D (at_once f)
  at_once-IsReplayable P D f keeps again = record {
    keeps = keeps;
    again = again;
    half_keeps = λ r s p e. subst P (ok_inj e) p;
    half_again = λ r s p e. rw (← ok_inj e) refl;
  }

  Interrupted-keeps :
      (P Q : R → Type 0) (steps : List (Step R)) (r s : R)
      → Lawful P steps Q
      → P r
      → Interrupted steps r s
      → P s × (run_steps steps s ≡ run_steps steps r)
  unfolding run_steps
  Interrupted-keeps P Q [] r s laws p i = elim i [ ]
  Interrupted-keeps P Q (step ∷ rest) r s (next _ D _ _ _ law laws) p (here _ _ _ _ e) =
      (law.half_keeps r s p e, rw (law.half_again r s p e) refl)
  Interrupted-keeps P Q (step ∷ rest) r u (next _ D _ _ _ law laws) p (later _ _ _ s _ e i) =
      let both = law.keeps r s p e in
      let ((kept, done), same) = Interrupted-keeps (λ x. P x × D x) Q rest s u laws both i in
      (kept, rw (law.again u done, e) same)

  -- However often it is interrupted, a run ends as it would have, in the same records or error.
  pub Crashes-keep :
      (P Q : R → Type 0) (steps : List (Step R)) (r s : R)
      → Lawful P steps Q
      → P r
      → Crashes steps r s
      → P s × (run_steps steps s ≡ run_steps steps r)
  Crashes-keep P Q steps r s laws p (no_crash _) = (p, refl)
  Crashes-keep P Q steps r u laws p (crash _ s _ i more) =
      let (q, same) = Interrupted-keeps P Q steps r s laws p i in
      let (kept, rest) = Crashes-keep P Q steps s u laws q more in (kept, rest ∙ same)

  Lawful-keeps : (P Q : R → Type 0) (steps : List (Step R)) (r : R) → Lawful P steps Q → Q r → P r
  Lawful-keeps P Q [] r (finished _) q = q
  Lawful-keeps P Q (step ∷ rest) r (next _ D _ _ _ law laws) q =
      (Lawful-keeps (λ x. P x × D x) Q rest r laws q).0

  -- A finished run brings about what its steps do, and a second run changes nothing.
  pub run_steps-Lawful :
      (P Q : R → Type 0) (steps : List (Step R)) (r s : R)
      → Lawful P steps Q
      → P r
      → run_steps steps r ≡ ok s
      → Q s × (run_steps steps s ≡ ok s)
  unfolding run_steps
  run_steps-Lawful P Q [] r s (finished _) p e = (subst P (ok_inj e) p, refl)
  run_steps-Lawful P Q (step ∷ rest) r u (next _ D _ _ _ law laws) p e =
      let (s, e₁, e₂) = >>=-eq-ok (step.run r) (run_steps rest) e in
      let (ended, same) =
        run_steps-Lawful (λ x. P x × D x) Q rest s u laws (law.keeps r s p e₁) e₂ in
      let done = Lawful-keeps (λ x. P x × D x) Q rest u laws ended in
      (ended, rw (law.again u done.1) same)
