-- ===== src/Evaluation/Committed.antt =====
-- src/cli.js, `evaluateTask`: the decision that is committed first is the one that every later call
-- applies.
use durable_supervisor.Evaluation.Replay.{Crashes}
use durable_supervisor.Evaluation.Replayed.{
  EventsApart, frame-Crashes, reconcile_evaluation-Crashes,
}
use mathlib.Core.Option
use durable_supervisor.Base.{
  >>=-eq-ok, Bool, List, Option, Option-cases, String, ap, false, inl, inr, is_empty, is_none, last,
  lookup, lookup-insert_self, negb, negb-false, none, nonempty, ok, ok_inj, refl, some, some_inj,
  sym, throw_if-ok, true, ◌!=◌, ◌&&◌, ◌∙◌, ◌≡◌, option_string_eq,
}
use durable_supervisor.Lifecycle.Requirements.{effective_requirement_matrix, Matrix}
use durable_supervisor.Evaluation.Records.{Attempt, Records, Task, Verdict}
use durable_supervisor.Evaluation.Evaluate.{
  Request, commit_evaluation, evaluate_task, invalid_verdict, new_verdict, reconcile_evaluation,
  unconsumed_delivered_wakes, reconciliation_steps,
}

-- The decision stands in its file, and the other records are as they were.
record IsCommit (attempt_id : String) (r after : Records) (d : Verdict) : Type 0 where
  held : lookup attempt_id after.evaluations ≡ some d
  same_tasks : after.tasks ≡ r.tasks
  same_attempts : after.attempts ≡ r.attempts
  same_wakes : after.wakes ≡ r.wakes

commit_evaluation-IsCommit :
    (request : Request) (task : Task) (attempt : Attempt) (attempt_id : String) (r after : Records)
    (d : Verdict) (created : Bool)
    → commit_evaluation request task attempt attempt_id r ≡ ok (d, (created, after))
    → IsCommit attempt_id r after d
unfolding commit_evaluation
commit_evaluation-IsCommit request task attempt attempt_id r after d created h =
    elim (Option-cases (lookup attempt_id r.evaluations)) [
      | inr (old, found) ↦
          let e = ok_inj {a = (old, (false, r))} (rw (found, commit_evaluation) at h) in
          rw (← ap (λ p. p.1.1) e, ← ap (λ p. p.0) e)
            (record { held = found; same_tasks = refl; same_attempts = refl; same_wakes = refl })
      | inl absent ↦
          let (_, h₁) =
            throw_if-ok (negb (is_none attempt.supervisor_evaluation)) _ _
              (rw (absent, commit_evaluation) at h) in
          let (_, h₂) =
            throw_if-ok (request.accept && attempt.acceptance_state != some "SATISFIED") _ _ h₁ in
          let e = ok_inj h₂ in
          let v = new_verdict request task attempt r.supervisor_generation in
          rw (← ap (λ p. p.1.1) e, ← ap (λ p. p.0) e)
            (record {
              held = lookup-insert_self attempt_id v r.evaluations;
              same_tasks = refl;
              same_attempts = refl;
              same_wakes = refl;
            })
    ]

module _ (event_id_of : String → String → String) (request : Request) (r q after : Records)
    (task : Task) (attempt : Attempt) (attempt_id : String) (d : Verdict)
    (created repeated : Bool) where
  -- What a call of `evaluateTask` that returns has found and done.
  record IsEvaluated : Type 0 where
    named : nonempty attempt_id ≡ true
    consumed : is_empty (unconsumed_delivered_wakes request.task_id attempt_id r.wakes) ≡ true
    valid : invalid_verdict request.task_id task d ≡ false
    reconciled : reconcile_evaluation event_id_of request.task_id attempt_id d after ≡ ok q
    idempotent : repeated ≡ negb created

  evaluate_task-IsEvaluated :
      lookup request.task_id r.tasks ≡ some task
      → last task.attempts ≡ some attempt_id
      → lookup attempt_id r.attempts ≡ some attempt
      → commit_evaluation request task attempt attempt_id r ≡ ok (d, (created, after))
      → evaluate_task event_id_of request r ≡ ok (q, repeated)
      → IsEvaluated
  unfolding evaluate_task
  evaluate_task-IsEvaluated found_task latest found_attempt commit h =
      let (_, _, h₁) =
        >>=-eq-ok (effective_requirement_matrix r.bootstrap r.matrix r.specification) _ h in
      let h₂ = rw (found_task, latest) at h₁ in
      let (named, h₃) = throw_if-ok (negb (nonempty attempt_id)) _ _ h₂ in
      let h₄ = rw found_attempt at h₃ in
      let (consumed, h₅) =
        throw_if-ok
          (negb (is_empty (unconsumed_delivered_wakes request.task_id attempt_id r.wakes))) _ _
          h₄ in
      let h₆ = rw commit at h₅ in
      let (valid, h₇) = throw_if-ok (invalid_verdict request.task_id task d) _ _ h₆ in
      let (final, reconciled, h₈) =
        >>=-eq-ok (reconcile_evaluation event_id_of request.task_id attempt_id d after) _ h₇ in
      let e = ok_inj h₈ in
      record {
        named = negb-false _ named;
        consumed = negb-false _ consumed;
        valid = valid;
        reconciled = reconciled ∙ ap ok (ap (λ p. p.0) e);
        idempotent = sym (ap (λ p. p.1) e);
      }

abbrev task_core : Task → String × List String
task_core t = (t.parent_objective_id, t.attempts)

-- The task of a directory that has the same frame.
framed_task :
    (before after : Option Task) (t : Task)
    → Option.map task_core after ≡ Option.map task_core before
    → before ≡ some t
    → (u : Task) × (after ≡ some u)
      × (u.parent_objective_id ≡ t.parent_objective_id)
      × (u.attempts ≡ t.attempts)
framed_task before none t h is_t = let h' = rw is_t at h in cc
framed_task before (some u) t h is_t =
    let e = some_inj {a = task_core u} {b = task_core t} (rw is_t at h) in
    (u, refl, ap (λ p. p.0) e, ap (λ p. p.1) e)

framed_attempt :
    (before after : Option Attempt) (a : Attempt)
    → is_none after ≡ is_none before
    → before ≡ some a
    → (b : Attempt) × (after ≡ some b)
framed_attempt before none a h is_a = let h' = rw is_a at h in cc
framed_attempt before (some b) a h is_a = (b, refl)

-- The decision is as valid for the task after the crash as it was before.
same_validity :
    (task_id : String) (t u : Task) (d : Verdict)
    → u.parent_objective_id ≡ t.parent_objective_id
    → invalid_verdict task_id u d ≡ invalid_verdict task_id t d
unfolding invalid_verdict
same_validity task_id t u d h = rw h refl

-- A call that finds the committed decision of the latest attempt applies it, whatever it was called
-- with.
evaluate_committed :
    (event_id_of : String → String → String) (later : Request) (u q : Records) (t : Task)
    (a : Attempt) (attempt_id : String) (d : Verdict) (m : Option Matrix)
    → effective_requirement_matrix u.bootstrap u.matrix u.specification ≡ ok m
    → lookup later.task_id u.tasks ≡ some t
    → last t.attempts ≡ some attempt_id
    → nonempty attempt_id ≡ true
    → lookup attempt_id u.attempts ≡ some a
    → is_empty (unconsumed_delivered_wakes later.task_id attempt_id u.wakes) ≡ true
    → lookup attempt_id u.evaluations ≡ some d
    → invalid_verdict later.task_id t d ≡ false
    → reconcile_evaluation event_id_of later.task_id attempt_id d u ≡ ok q
    → evaluate_task event_id_of later u ≡ ok (q, true)
unfolding evaluate_task
evaluate_committed event_id_of later u q t a attempt_id d m authority found_task latest named
      found_attempt consumed held valid reconciled =
    let commit : commit_evaluation later t a attempt_id u ≡ ok (d, (false, u)) =
      unfold commit_evaluation in rw (held, commit_evaluation) refl in
    rw (authority, found_task, latest, named, found_attempt, consumed, commit, valid, reconciled)
      refl

-- A call of `evaluateTask` that would have returned may be stopped, any number of times, at any
-- write after its commit, and resumed by calls with any verdict and rationale: the next call that is not stopped returns
-- the records that the first would have left, and says that the decision was there before, provided
-- that the requirements authority is still readable.
pub evaluate_task-Crashes :
    (event_id_of : String → String → String) (request later : Request) (r q after u : Records)
    (task : Task) (attempt : Attempt) (attempt_id : String) (d : Verdict) (created repeated : Bool)
    (m : Option Matrix)
    → EventsApart event_id_of d.decision_id
    → later.task_id ≡ request.task_id
    → lookup request.task_id r.tasks ≡ some task
    → last task.attempts ≡ some attempt_id
    → lookup attempt_id r.attempts ≡ some attempt
    → commit_evaluation request task attempt attempt_id r ≡ ok (d, (created, after))
    → evaluate_task event_id_of request r ≡ ok (q, repeated)
    → Crashes (reconciliation_steps event_id_of request.task_id attempt_id d) after u
    → effective_requirement_matrix u.bootstrap u.matrix u.specification ≡ ok m
    → evaluate_task event_id_of later u ≡ ok (q, true)
evaluate_task-Crashes event_id_of request later r q after u task attempt attempt_id d created
      repeated m apart same_task found_task latest found_attempt commit h crashes authority =
    let e =
      evaluate_task-IsEvaluated event_id_of request r q after task attempt attempt_id d created
        repeated found_task latest found_attempt commit h in
    let c = commit_evaluation-IsCommit request task attempt attempt_id r after d created commit in
    let framed = frame-Crashes event_id_of request.task_id attempt_id d after u apart crashes in
    let (t, found_t, same_objective, same_list) =
      framed_task (lookup request.task_id after.tasks) (lookup request.task_id u.tasks) task
        (ap (λ p. p.2) framed) (rw (c.same_tasks) found_task) in
    let (a, found_a) =
      framed_attempt (lookup attempt_id after.attempts) (lookup attempt_id u.attempts) attempt
        (ap (λ p. p.3) framed) (rw (c.same_attempts) found_attempt) in
    let held : lookup attempt_id u.evaluations ≡ some d =
      ap (lookup attempt_id) (ap (λ p. p.1) framed) ∙ c.held in
    let wakes : u.wakes ≡ r.wakes = ap (λ p. p.0) framed ∙ c.same_wakes in
    let reconciled =
      reconcile_evaluation-Crashes event_id_of request.task_id attempt_id d after u apart crashes
      ∙ e.reconciled in
    evaluate_committed event_id_of later u q t a attempt_id d m authority (rw same_task found_t)
      (rw same_list latest) e.named found_a (rw (same_task, wakes) e.consumed) held
      (rw same_task (same_validity request.task_id task t d same_objective ∙ e.valid))
      (rw same_task reconciled)
