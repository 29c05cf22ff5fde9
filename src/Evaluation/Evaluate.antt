-- ===== src/Evaluation/Evaluate.antt =====
-- src/cli.js: `reconcileEvaluation`, which brings every record to the committed decision, and
-- `evaluateTask`, which commits a decision first. A run that throws is an error here; what it had
-- written by then is a half-way state of its steps (Evaluation/Replay).
use Prim.Native.String.{◌++◌ as ◌<>◌}
use durable_supervisor.Base.{
  Bool, List, Result, String, [], false, if◌then◌else◌, includes, insert, is_empty, is_none, keep,
  last, leb, lookup, negb, none, nonempty, ok, or_throw, some, throw_if, true, ℕ, ◌!=◌, ◌&&◌, ◌==◌,
  ◌>>=◌, ◌>>◌, ◌||◌, ◌∷◌, string_eq, option_string_eq,
}
use durable_supervisor.Lifecycle.Requirements.{effective_requirement_matrix}
use durable_supervisor.Activation.Lease.{max_safe_integer}
use durable_supervisor.Evaluation.Replay.{Step, at_once, run_steps}
use durable_supervisor.Evaluation.Records.{
  Attempt, Event, Records, Task, Verdict, Wake, same_verdict, verdict_schema,
}
use durable_supervisor.Evaluation.Events.{
  evaluation_event, reconcile_evaluation_event, log_evaluation_event,
}
use durable_supervisor.Evaluation.Steps.{
  project_attempt, project_file, project_state, project_task, reconcile_accepted_requirements,
  reconcile_decision_log, terminal_task_state,
}

pub record Request : Type 0 where
  pub task_id : String
  pub accept : Bool
  pub rationale : String
  -- `id('decision')` and `now()` of the call.
  pub decision_id : String
  pub time : String

module _ (event_id_of : String → String → String) (task_id attempt_id : String) (d : Verdict) where
  unfoldable pub supervisor_decision_event : Records → Event
  supervisor_decision_event r =
      record (evaluation_event event_id_of r.supervisor_id d "SUPERVISOR_DECISION" task_id
        attempt_id) { decision = some d.decision }

  unfoldable pub pause_event : Records → Event
  pause_event r =
      record (evaluation_event event_id_of r.supervisor_id d "PAUSE_AFTER_CURRENT_APPLIED" task_id
        attempt_id) {
          terminal_task_state = some (terminal_task_state d);
          reason = r.state.pause.reason;
        }

  unfoldable pub check_committed : Records → Result Records
  check_committed r = do
    committed ← or_throw (lookup attempt_id r.evaluations) "ENOENT"
    throw_if (negb (same_verdict committed d)) "immutable supervisor evaluation changed"
    ok r

  unfoldable pub log_decision : Records → Result Records
  log_decision r = do
    log ← reconcile_decision_log d r.decisions_log
    ok (record r { decisions_log = log })

  unfoldable pub evaluate_attempt : Records → Result Records
  evaluate_attempt r = do
    files ← project_file attempt_id (project_attempt d) r.attempts
    ok (record r { attempts = files })

  unfoldable pub end_task : Records → Result Records
  end_task r = do
    files ← project_file task_id (project_task d) r.tasks
    ok (record r { tasks = files })

  unfoldable pub satisfy_requirements : Records → Result Records
  satisfy_requirements r = do
    task ← or_throw (lookup task_id r.tasks) "ENOENT"
    matrix ← reconcile_accepted_requirements d task.requirement_ids r.matrix
    ok (record r { matrix = matrix })

  unfoldable pub release_task : Records → Result Records
  release_task r = do state ← project_state task_id attempt_id d r; ok (record r { state = state })

  abbrev pub pause_applied : Records → Bool
  pause_applied r = r.state.pause.applied_decision_id == some d.decision_id

  unfoldable pub record_pause : Records → Result Records
  record_pause r = if pause_applied r then reconcile_evaluation_event (pause_event r) r else ok r

  -- The same, interrupted between the log and the file.
  unfoldable pub log_pause : Records → Result Records
  log_pause r = if pause_applied r then log_evaluation_event (pause_event r) r else ok r

  abbrev pub reconciliation_steps : List (Step Records)
  reconciliation_steps =
      at_once check_committed
      ∷ at_once log_decision
      ∷ at_once evaluate_attempt
      ∷ at_once end_task
      ∷ at_once satisfy_requirements
      ∷ record {
        run = λ r. reconcile_evaluation_event (supervisor_decision_event r) r;
        halfway = λ r. log_evaluation_event (supervisor_decision_event r) r;
      }
      ∷ at_once release_task
      ∷ record { run = record_pause; halfway = log_pause }
      ∷ []

  -- `reconcileEvaluation`
  unfoldable pub reconcile_evaluation : Records → Result Records
  reconcile_evaluation r = run_steps reconciliation_steps r

unfoldable pub unconsumed_delivered_wakes : String → String → List Wake → List Wake
unconsumed_delivered_wakes task_id attempt_id wakes =
    keep (λ w. w.delivered && negb w.consumed)
      (keep (λ w. w.task_id == task_id && w.attempt_id == attempt_id) wakes)

abbrev pub evaluation_question : String → String
evaluation_question task_id = "Should " <> task_id <> " advance the objective?"

unfoldable pub new_verdict : Request → Task → Attempt → ℕ → Verdict
new_verdict request task attempt generation = record {
  schema = verdict_schema;
  decision_id = request.decision_id;
  question = evaluation_question request.task_id;
  decision = if request.accept then "ACCEPT" else "REJECT";
  rationale = request.rationale;
  evidence_references = attempt.compact_packet ∷ attempt.completion_handoff ∷ [];
  time = request.time;
  supervisor_generation = generation;
  task_id = request.task_id;
  objective_id = task.parent_objective_id;
}

-- The decision that is committed, whether this call committed it, and the records after that.
unfoldable pub commit_evaluation :
    Request → Task → Attempt → String → Records → Result (Verdict × (Bool × Records))
commit_evaluation request task attempt attempt_id r = elim (lookup attempt_id r.evaluations) [
  | some d ↦ ok (d, (false, r))
  | none ↦
      throw_if (negb (is_none attempt.supervisor_evaluation))
        "attempt evaluation projection exists without immutable authority"
      >> (throw_if (request.accept && attempt.acceptance_state != some "SATISFIED")
            "supervisor cannot accept a task rejected by the Acceptance gate"
          >> (let d = new_verdict request task attempt r.supervisor_generation in
              ok (d, (true, record r { evaluations = insert attempt_id d r.evaluations }))))
]

unfoldable pub invalid_verdict : String → Task → Verdict → Bool
invalid_verdict task_id task d =
    d.schema != verdict_schema
    || negb (includes ("ACCEPT" ∷ "REJECT" ∷ []) d.decision)
    || negb (leb d.supervisor_generation max_safe_integer)
    || d.task_id != task_id
    || d.objective_id != task.parent_objective_id
    || d.question != evaluation_question task_id

-- `evaluateTask`: the records, and whether the decision had been committed before.
unfoldable pub evaluate_task :
    (String → String → String) → Request → Records → Result (Records × Bool)
evaluate_task event_id_of request r = do
  authority ← effective_requirement_matrix r.bootstrap r.matrix r.specification
  task ← or_throw (lookup request.task_id r.tasks) "ENOENT"
  attempt_id ← or_throw (last task.attempts) "task has no attempt"
  throw_if (negb (nonempty attempt_id)) "task has no attempt"
  attempt ← or_throw (lookup attempt_id r.attempts) "ENOENT"
  throw_if (negb (is_empty (unconsumed_delivered_wakes request.task_id attempt_id r.wakes)))
      "delivered terminal wake must be consumed before evaluation"
  committed ← commit_evaluation request task attempt attempt_id r
  throw_if (invalid_verdict request.task_id task committed.0)
      "invalid immutable supervisor evaluation authority"
  after ← reconcile_evaluation event_id_of request.task_id attempt_id committed.0 committed.1.1
  ok (after, negb committed.1.0)
