-- ===== src/Tests/Evaluations.antt =====
-- src/cli.js: an accepted task, whose evaluation is stopped between the log and the file of its event
-- and called again with the opposite verdict.
use durable_supervisor.Store.{File, compare_and_swap, Hash}
use durable_supervisor.Tests.Lifecycles.{objective}
use durable_supervisor.Evaluation.Converged.{
  IsProjection, reconcile_json_projection-IsProjection, reconcile_json_projection_returns,
}
use durable_supervisor.Evaluation.Projection.{
  reconcile_json_projection, projection_rounds, projection_round, projection_swap,
}
use durable_supervisor.Evaluation.Released.{project_state_valid}
use durable_supervisor.Evaluation.Committed.{evaluate_task-Crashes}
use durable_supervisor.Evaluation.StepLaws.{IsDecided}
use durable_supervisor.Evaluation.Replayed.{
  IsCommitted, IsAttemptEvaluated, IsTaskEnded, IsTaskAccepted, IsDecisionRecorded, IsReleased,
  reconcile_evaluation-Crashes, reconcile_evaluation-consistent,
}
use durable_supervisor.Lifecycle.Validity.{state_errors, reports}
use durable_supervisor.Evaluation.Replay.{Crashes, crash, here, later, no_crash, run_steps}
use durable_supervisor.Evaluation.Steps.{
  reconcile_decision_log, project_file, project_attempt, project_task,
  reconcile_accepted_requirements, update_each, update_first, accept_requirement, project_state,
  applied_pause, evaluated_state,
}
use durable_supervisor.Evaluation.Events.{
  log_evaluation_event, choose_event, evaluation_event, find_event, identity_conflict, log_event,
  records_event, file_event, reconcile_evaluation_event,
}
use Prim.Native.String.{◌++◌ as ◌<>◌}
use durable_supervisor.Base.{
  Bool-cases, Result, String, [], all_of, any, arith, beq_refl, distinct, err, false, find,
  hex_digits, if◌then◌else◌, includes, inl, inr, insert, is_hex, is_sha256, keep, last, lookup,
  none, ok, refl, some, string_eq, texts_beq, true, ℕ, ◌==◌, ◌∷◌, ◌≡◌, nat_eq,
}
use durable_supervisor.Lifecycle.State.{State, current_objective}
use durable_supervisor.Lifecycle.Requirements.{
  Matrix, dedupe, unite, effective_requirement_matrix, checked_matrix, matrix_malformed,
  derive_pending_next_action, unsatisfied_requirements,
}
use durable_supervisor.Evaluation.Records.{
  Attempt, Records, Task, Verdict, same_verdict, same_event,
}
use durable_supervisor.Evaluation.Evaluate.{
  Request, new_verdict, log_decision, evaluate_attempt, end_task, satisfy_requirements,
  reconcile_evaluation, check_committed, supervisor_decision_event, reconciliation_steps,
  commit_evaluation, evaluate_task, record_pause, release_task, pause_event,
  unconsumed_delivered_wakes, invalid_verdict,
}

abbrev digest : String
digest = "0123456789abcdef0123456789abcdef0123456789abcdef0123456789abcdef"

abbrev matrix : Matrix
matrix = record {
  schema = "opsle.durable-supervisor.requirements/v1";
  specification = ".opsle/specification.md";
  specification_sha256 = digest;
  allowed_states = "PENDING" ∷ "IMPLEMENTED" ∷ "VERIFIED" ∷ [];
  requirements =
      record {
        id = "R1";
        state = "PENDING";
        evidence = "old.md" ∷ [];
        justification = none;
        updated_at = none;
      }
      ∷ [];
}

abbrev state : State
state = record {
  supervisor_state = "ACTIVE";
  phase = "ACTIVE";
  pause = record {
    active = true;
    after_current = true;
    reason = some "lunch";
    changed_at = some "09:30";
    applied_at = none;
    applied_decision_id = none;
  };
  active_task_id = some "task-1";
  active_attempt_id = some "attempt-1";
  latest_accepted_task_id = none;
  latest_unresolved_issue = none;
  pending_next_action = some "Await the child.";
  processed_event_ids = [];
  updated_at = "09:00";
}

abbrev task : Task
task = record {
  parent_objective_id = "objective-1";
  state = "AWAITING_SUPERVISOR";
  requirement_ids = "R1" ∷ [];
  attempts = "attempt-1" ∷ [];
}

abbrev attempt : Attempt
attempt = record {
  compact_packet = "packet.json";
  completion_handoff = "handoff.json";
  acceptance_state = some "SATISFIED";
  supervisor_evaluation = none;
}

abbrev records : Records
records = record {
  supervisor_id = "supervisor-1";
  supervisor_generation = 1;
  bootstrap = none;
  specification = some digest;
  matrix = some matrix;
  state = state;
  tasks = ("task-1", task) ∷ [];
  attempts = ("attempt-1", attempt) ∷ [];
  evaluations = [];
  decisions_log = [];
  events_log = [];
  events = [];
  wakes = [];
}

abbrev request : Request
request = record {
  task_id = "task-1";
  accept = true;
  rationale = "all checks pass";
  decision_id = "decision-1";
  time = "10:00";
}

abbrev opposite : Request
opposite = record request { accept = false; rationale = "no"; decision_id = "decision-2" }

abbrev event_id_of : String → String → String
event_id_of decision type = decision <> "/" <> type

abbrev d : Verdict
d = new_verdict request task attempt 1

abbrev committed : Records
committed = record records { evaluations = ("attempt-1", d) ∷ [] }

-- The records that a run leaves.
abbrev left_by : Result Records → Records
left_by (ok r) = r
left_by (err message) = records

-- The steps of the reconciliation, one by one, up to the recording of the event.
abbrev decided : Records
decided = left_by (log_decision event_id_of "task-1" "attempt-1" d committed)

abbrev evaluated : Records
evaluated = left_by (evaluate_attempt event_id_of "task-1" "attempt-1" d decided)

abbrev ended : Records
ended = left_by (end_task event_id_of "task-1" "attempt-1" d evaluated)

abbrev satisfied : Records
satisfied = left_by (satisfy_requirements event_id_of "task-1" "attempt-1" d ended)

abbrev stopped : Records
stopped = left_by (
    log_evaluation_event (supervisor_decision_event event_id_of "task-1" "attempt-1" d satisfied)
      satisfied)

abbrev final : Records
final = left_by (reconcile_evaluation event_id_of "task-1" "attempt-1" d committed)

stopped_once : Crashes (reconciliation_steps event_id_of "task-1" "attempt-1" d) committed stopped
unfolding check_committed log_decision evaluate_attempt end_task satisfy_requirements
    log_evaluation_event supervisor_decision_event reconcile_decision_log project_file
    project_attempt project_task reconcile_accepted_requirements update_each update_first
    accept_requirement dedupe unite evaluation_event find_event choose_event log_event records_event
    identity_conflict keep lookup insert same_verdict all_of includes texts_beq new_verdict
stopped_once =
    crash committed stopped stopped
      (later _ _ committed committed stopped refl (
        later _ _ committed decided stopped refl (
          later _ _ decided evaluated stopped refl (
            later _ _ evaluated ended stopped refl
              (later _ _ ended satisfied stopped refl (here _ _ satisfied stopped refl))))))
      (no_crash stopped)

decision_committed :
    commit_evaluation request task attempt "attempt-1" records ≡ ok (d, (true, committed))
unfolding commit_evaluation new_verdict lookup insert
decision_committed = refl

evaluates : evaluate_task event_id_of request records ≡ ok (final, false)
unfolding evaluate_task commit_evaluation unconsumed_delivered_wakes invalid_verdict last
    check_committed log_decision evaluate_attempt end_task satisfy_requirements release_task
    record_pause pause_event reconcile_evaluation_event file_event project_state applied_pause
    evaluated_state supervisor_decision_event reconcile_decision_log project_file project_attempt
    project_task reconcile_accepted_requirements update_each update_first accept_requirement dedupe
    unite evaluation_event find_event choose_event log_event records_event identity_conflict keep
    lookup insert same_verdict same_event all_of includes texts_beq new_verdict run_steps
    reconcile_evaluation effective_requirement_matrix checked_matrix matrix_malformed is_sha256
    hex_digits is_hex any distinct derive_pending_next_action unsatisfied_requirements
evaluates = refl

reconciles : reconcile_evaluation event_id_of "task-1" "attempt-1" d committed ≡ ok final
unfolding check_committed log_decision evaluate_attempt end_task satisfy_requirements release_task
    record_pause pause_event reconcile_evaluation_event file_event project_state applied_pause
    evaluated_state supervisor_decision_event reconcile_decision_log project_file project_attempt
    project_task reconcile_accepted_requirements update_each update_first accept_requirement dedupe
    unite evaluation_event find_event choose_event log_event records_event identity_conflict keep
    lookup insert same_verdict same_event all_of includes texts_beq new_verdict run_steps
    reconcile_evaluation effective_requirement_matrix checked_matrix matrix_malformed is_sha256
    hex_digits is_hex any distinct derive_pending_next_action unsatisfied_requirements
reconciles = refl

authority :
    effective_requirement_matrix stopped.bootstrap stopped.matrix stopped.specification
    ≡ ok stopped.matrix
unfolding log_decision evaluate_attempt end_task satisfy_requirements log_evaluation_event
    supervisor_decision_event reconcile_decision_log project_file project_attempt project_task
    reconcile_accepted_requirements update_each update_first accept_requirement dedupe unite
    evaluation_event find_event choose_event log_event records_event identity_conflict keep lookup
    insert same_verdict all_of includes texts_beq new_verdict effective_requirement_matrix
    checked_matrix matrix_malformed is_sha256 hex_digits is_hex any distinct
authority = refl

evaluate_task-Crashes_example : evaluate_task event_id_of opposite stopped ≡ ok (final, true)
unfolding last lookup new_verdict
evaluate_task-Crashes_example =
    evaluate_task-Crashes event_id_of request opposite records final committed stopped task attempt
      "attempt-1" d true false stopped.matrix refl refl refl refl refl decision_committed evaluates
      stopped_once authority

reconcile_evaluation-Crashes_example :
    reconcile_evaluation event_id_of "task-1" "attempt-1" d stopped
    ≡ reconcile_evaluation event_id_of "task-1" "attempt-1" d committed
unfolding new_verdict
reconcile_evaluation-Crashes_example =
    reconcile_evaluation-Crashes event_id_of "task-1" "attempt-1" d committed stopped refl
      stopped_once

reconcile_evaluation-consistent_example :
    IsCommitted event_id_of "task-1" "attempt-1" d final
    × IsDecided d final.decisions_log
    × IsAttemptEvaluated event_id_of "task-1" "attempt-1" d final
    × IsTaskEnded event_id_of "task-1" "attempt-1" d final
    × IsTaskAccepted event_id_of "task-1" "attempt-1" d final
    × IsDecisionRecorded event_id_of "task-1" "attempt-1" d final
    × IsReleased event_id_of "task-1" "attempt-1" d final
    × (reconcile_evaluation event_id_of "task-1" "attempt-1" d final ≡ ok final)
unfolding new_verdict
reconcile_evaluation-consistent_example =
    reconcile_evaluation-consistent event_id_of "task-1" "attempt-1" d committed final refl
      reconciles

abbrev next_state : Result State → State
next_state (ok next) = next
next_state (err message) = state

abbrev released : State
released = next_state (project_state "task-1" "attempt-1" d satisfied)

project_state_valid_example :
    (state_errors released objective (some matrix) ≡ [])
    × (released.active_task_id ≡ none)
    × (released.pause.after_current ≡ false)
    × (released.supervisor_state ≡ "PAUSED")
    × (released.latest_accepted_task_id ≡ some "task-1")
unfolding state_errors reports current_objective find check_committed log_decision evaluate_attempt
    end_task satisfy_requirements release_task record_pause pause_event reconcile_evaluation_event
    file_event project_state applied_pause evaluated_state supervisor_decision_event
    reconcile_decision_log project_file project_attempt project_task reconcile_accepted_requirements
    update_each update_first accept_requirement dedupe unite evaluation_event find_event
    choose_event log_event records_event identity_conflict keep lookup insert same_verdict
    same_event all_of includes texts_beq new_verdict run_steps reconcile_evaluation
    effective_requirement_matrix checked_matrix matrix_malformed is_sha256 hex_digits is_hex any
    distinct derive_pending_next_action unsatisfied_requirements
project_state_valid_example =
    project_state_valid "task-1" "attempt-1" d satisfied released objective (some matrix)
      (some matrix) refl refl refl refl

-- Another process writes the file and holds its lock in the first round, and leaves it alone then.
abbrev intruder : ℕ → File String → File String
intruder round file =
    if round == 39
    then record { content = some "theirs"; lock_held = true }
    else record file { lock_held = false }

abbrev mine : String → Result String
mine text = ok (if text == "ours" then text else "ours")

abbrev texts : Hash String
texts = record {
  Digest = String;
  sha256 = λ a. a;
  same = λ a b. a == b;
  same_refl = λ a. beq_refl a;
  same_sound = λ a b. (string_eq.agrees a b).0;
}

abbrev document : File String
document = record { content = some "first"; lock_held = false }

abbrev projected : File String
projected = record { content = some "ours"; lock_held = false }

reconcile_json_projection-IsProjection_example :
    IsProjection texts mine intruder document projected "ours"
unfolding reconcile_json_projection projection_rounds projection_round projection_swap
    compare_and_swap
reconcile_json_projection-IsProjection_example =
    reconcile_json_projection-IsProjection texts mine intruder document projected "ours" refl

intruder_present :
    (round : ℕ) (file : File String) (a : String)
    → file.content ≡ some a
    → (b : String) × ((intruder round file).content ≡ some b)
intruder_present round file a h = elim (Bool-cases (round == 39)) [
  | inl first ↦ ("theirs", rw first refl)
  | inr later_round ↦ (a, rw later_round h)
]

reconcile_json_projection_returns_example :
    (after : File String) × (value : String) × (reconcile_json_projection texts mine intruder
        document
      ≡ ok (after, value))
reconcile_json_projection_returns_example =
    reconcile_json_projection_returns texts mine intruder 3 document "first"
      (λ a. (if a == "ours" then a else "ours", refl)) intruder_present (omega arith)
      (λ f. (refl, refl)) refl
