-- ===== src/Evaluation/Replayed.antt =====
-- src/cli.js, `reconcileEvaluation`: the reconciliation of a decision can be interrupted anywhere and
-- run again.
use durable_supervisor.Evaluation.Accepted.{
  IsAcceptedBy, reconcile_accepted_requirements-IsAcceptedBy,
}
use mathlib.Core.Option
use durable_supervisor.Base.{
  >>=-eq-ok, Bool, Bool-cases, List, Option, String, ap, false, if◌then◌else◌, inl, inr, is_none,
  lookup, negb, negb-false, none, ok, ok_inj, or_throw-ok, refl, some, subst, sym, throw_if-ok,
  true, ◌&&◌, ◌==◌, ◌∙◌, ◌≡◌, option_string_eq, string_eq,
}
use durable_supervisor.Evaluation.Records.{
  Attempt, Records, Task, Verdict, Wake, same_verdict, same_verdict_refl, same_verdict_sound,
  event_schema,
}
use durable_supervisor.Evaluation.Replay.{
  IsReplayable, at_once, at_once-IsReplayable, Lawful, next, finished, Crashes, Crashes-keep,
  run_steps-Lawful,
}
use durable_supervisor.Evaluation.Events.{
  log_evaluation_event, reconcile_evaluation_event, evaluation_event,
}
use durable_supervisor.Evaluation.EventLaws.{
  IsRecorded, IsRecorded-reconcile, log_evaluation_event_resumed, reconcile-IsRecorded,
  reconcile-other, log-other,
}
use durable_supervisor.Evaluation.RequirementLaws.{reconcile_accepted_requirements_again}
use durable_supervisor.Evaluation.Steps.{
  project_attempt, project_file, project_task, reconcile_accepted_requirements,
  reconcile_decision_log, project_state,
}
use durable_supervisor.Evaluation.StepLaws.{
  IsDecided, IsDecided-reconcile, project_attempt-ok, project_attempt_held, project_file-ok,
  project_file_held, project_state-Projected, project_state-released, project_task-ok,
  project_task_held, reconcile_decision_log-IsDecided,
}
use durable_supervisor.Evaluation.Evaluate.{
  check_committed, end_task, evaluate_attempt, log_decision, record_pause, release_task,
  satisfy_requirements, supervisor_decision_event, pause_event, log_pause, pause_applied,
  reconciliation_steps, reconcile_evaluation,
}

abbrev task_core : Task → String × List String
task_core t = (t.parent_objective_id, t.attempts)

module _ (event_id_of : String → String → String) (task_id attempt_id : String) (d : Verdict) where
  -- What the reconciliation leaves as it is.
  abbrev pub frame :
      Records → List Wake × List (String × Verdict) × Option (String × List String) × Bool
  frame r = (
    r.wakes,
    r.evaluations,
    Option.map task_core (lookup task_id r.tasks),
    is_none (lookup attempt_id r.attempts),
  )

  -- What each step brings about.
  abbrev pub IsCommitted : Records → Type 0
  IsCommitted r = lookup attempt_id r.evaluations ≡ some d

  abbrev pub IsAttemptEvaluated : Records → Type 0
  IsAttemptEvaluated r =
      (a : Attempt) × (lookup attempt_id r.attempts ≡ some a)
      × (a.supervisor_evaluation
          ≡ some (record {
            decision_id = d.decision_id;
            decision = d.decision;
            rationale = d.rationale;
            evaluated_at = d.time;
          }))

  abbrev pub IsTaskEnded : Records → Type 0
  IsTaskEnded r =
      (t : Task) × (lookup task_id r.tasks ≡ some t)
      × (t.state ≡ (if d.decision == "ACCEPT" then "ACCEPTED" else "REJECTED"))

  abbrev pub IsSatisfied : Records → Type 0
  IsSatisfied r =
      (t : Task) × (lookup task_id r.tasks ≡ some t)
      × (reconcile_accepted_requirements d t.requirement_ids r.matrix ≡ ok r.matrix)

  -- The requirements of the task are accepted, if the decision is an acceptance.
  abbrev pub IsTaskAccepted : Records → Type 0
  IsTaskAccepted r =
      (t : Task) × (lookup task_id r.tasks ≡ some t) × IsAcceptedBy d t.requirement_ids r.matrix

  IsSatisfied-IsTaskAccepted : (r : Records) → IsSatisfied r → IsTaskAccepted r
  IsSatisfied-IsTaskAccepted r (t, found, fixed) = (
    t,
    found,
    reconcile_accepted_requirements-IsAcceptedBy d t.requirement_ids r.matrix r.matrix fixed,
  )

  abbrev pub IsEventRecorded : Records → Type 0
  IsEventRecorded r =
      IsRecorded (supervisor_decision_event event_id_of task_id attempt_id d r) r.events_log
        r.events

  -- The event of the decision, field by field, stands in the log once and in its file.
  abbrev pub IsDecisionRecorded : Records → Type 0
  IsDecisionRecorded r =
      IsRecorded
        (record {
          schema = event_schema;
          event_id = event_id_of d.decision_id "SUPERVISOR_DECISION";
          type = "SUPERVISOR_DECISION";
          time = d.time;
          actor = "durable-supervisor";
          supervisor_id = r.supervisor_id;
          supervisor_generation = d.supervisor_generation;
          task_id = some task_id;
          attempt_id = some attempt_id;
          decision_id = some d.decision_id;
          decision = some d.decision;
          terminal_task_state = none;
          reason = none;
        })
        r.events_log r.events

  IsEventRecorded-IsDecisionRecorded : (r : Records) → IsEventRecorded r → IsDecisionRecorded r
  unfolding supervisor_decision_event evaluation_event
  IsEventRecorded-IsDecisionRecorded r recorded = recorded

  abbrev pub IsReleased : Records → Type 0
  IsReleased r =
      (r.state.active_task_id == some task_id && r.state.active_attempt_id == some attempt_id)
      ≡ false

  abbrev pub IsPauseRecorded : Records → Type 0
  IsPauseRecorded r = record_pause event_id_of task_id attempt_id d r ≡ ok r

  module _ (r₀ : Records) where
    abbrev Framed : Records → Type 0
    Framed r = frame r ≡ frame r₀

    abbrev After₁ : Records → Type 0
    After₁ r = Framed r × IsCommitted r

    abbrev After₂ : Records → Type 0
    After₂ r = After₁ r × IsDecided d r.decisions_log

    abbrev After₃ : Records → Type 0
    After₃ r = After₂ r × IsAttemptEvaluated r

    abbrev After₄ : Records → Type 0
    After₄ r = After₃ r × IsTaskEnded r

    abbrev After₅ : Records → Type 0
    After₅ r = After₄ r × IsSatisfied r

    abbrev After₆ : Records → Type 0
    After₆ r = After₅ r × IsEventRecorded r

    abbrev After₇ : Records → Type 0
    After₇ r = After₆ r × IsReleased r

    abbrev Ended : Records → Type 0
    Ended r = After₇ r × IsPauseRecorded r

    check_committed-lawful :
        IsReplayable Framed IsCommitted (at_once (check_committed event_id_of task_id attempt_id d))
    unfolding check_committed
    check_committed-lawful =
        at_once-IsReplayable Framed IsCommitted (check_committed event_id_of task_id attempt_id d)
          (λ r s p h.
            let (c, found, h₁) = or_throw-ok (lookup attempt_id r.evaluations) _ _ h in
            let (equal, h₂) = throw_if-ok (negb (same_verdict c d)) _ (ok r) h₁ in
            subst (λ z. Framed z × IsCommitted z) (ok_inj h₂)
              (p, found ∙ ap some (same_verdict_sound c d (negb-false _ equal))))
          (λ r done. rw (done, same_verdict_refl d) refl)

    log_decision-lawful :
        IsReplayable After₁
          (λ r. IsDecided d r.decisions_log)
          (at_once (log_decision event_id_of task_id attempt_id d))
    unfolding log_decision
    log_decision-lawful =
        at_once-IsReplayable After₁ (λ r. IsDecided d r.decisions_log)
          (log_decision event_id_of task_id attempt_id d)
          (λ r s p h.
            let (log, e, h₁) = >>=-eq-ok (reconcile_decision_log d r.decisions_log) _ h in
            subst (λ z. After₁ z × IsDecided d z.decisions_log) (ok_inj h₁)
              (p, reconcile_decision_log-IsDecided d r.decisions_log log e))
          (λ r done. rw (IsDecided-reconcile d r.decisions_log done) refl)

    evaluate_attempt-lawful :
        IsReplayable After₂ IsAttemptEvaluated
          (at_once (evaluate_attempt event_id_of task_id attempt_id d))
    unfolding evaluate_attempt
    evaluate_attempt-lawful =
        at_once-IsReplayable After₂ IsAttemptEvaluated
          (evaluate_attempt event_id_of task_id attempt_id d)
          (λ r s p h.
            let (files, e, h₁) =
              >>=-eq-ok (project_file attempt_id (project_attempt d) r.attempts) _ h in
            let (a, b, found, made, _, held) =
              project_file-ok attempt_id (project_attempt d) r.attempts files e in
            let ((framed, committed), decided) = p in
            let same : frame (record r { attempts = files }) ≡ frame r = rw (found, held) refl in
            subst (λ z. After₂ z × IsAttemptEvaluated z) (ok_inj h₁)
              (((same ∙ framed, committed), decided), (b, held, project_attempt-ok d a b made)))
          (λ r done.
            let (b, held, is_d) = done in
            rw
              (project_file_held attempt_id (project_attempt d) b r.attempts held
                (project_attempt_held d b is_d))
              refl)

    end_task-lawful :
        IsReplayable After₃ IsTaskEnded (at_once (end_task event_id_of task_id attempt_id d))
    unfolding end_task
    end_task-lawful =
        at_once-IsReplayable After₃ IsTaskEnded (end_task event_id_of task_id attempt_id d)
          (λ r s p h.
            let (files, e, h₁) = >>=-eq-ok (project_file task_id (project_task d) r.tasks) _ h in
            let (a, b, found, made, _, held) =
              project_file-ok task_id (project_task d) r.tasks files e in
            let is_b = project_task-ok d a b made in
            let (((framed, committed), decided), evaluated) = p in
            let same : frame (record r { tasks = files }) ≡ frame r =
              rw (found, held, ← is_b) refl in
            let done : IsTaskEnded (record r { tasks = files }) =
              (b, held, ap (λ t. t.state) (sym is_b)) in
            subst (λ z. After₃ z × IsTaskEnded z) (ok_inj h₁)
              ((((same ∙ framed, committed), decided), evaluated), done))
          (λ r done.
            let (b, held, is_d) = done in
            rw
              (project_file_held task_id (project_task d) b r.tasks held
                (project_task_held d b is_d))
              refl)

    satisfy_requirements-lawful :
        IsReplayable After₄ IsSatisfied
          (at_once (satisfy_requirements event_id_of task_id attempt_id d))
    unfolding satisfy_requirements
    satisfy_requirements-lawful =
        at_once-IsReplayable After₄ IsSatisfied
          (satisfy_requirements event_id_of task_id attempt_id d)
          (λ r s p h.
            let (t, found, h₁) = or_throw-ok (lookup task_id r.tasks) _ _ h in
            let (matrix, e, h₂) =
              >>=-eq-ok (reconcile_accepted_requirements d t.requirement_ids r.matrix) _ h₁ in
            subst (λ z. After₄ z × IsSatisfied z) (ok_inj h₂)
              (
                p,
                (
                  t,
                  found,
                  reconcile_accepted_requirements_again d t.requirement_ids r.matrix matrix e,
                ),
              ))
          (λ r done. let (t, found, fixed) = done in rw (found, fixed) refl)

    record_event-lawful : IsReplayable After₅ IsEventRecorded (record {
      run = λ r.
          reconcile_evaluation_event
            (supervisor_decision_event event_id_of task_id attempt_id d r)
            r;
      halfway = λ r.
          log_evaluation_event (supervisor_decision_event event_id_of task_id attempt_id d r) r;
    })
    unfolding supervisor_decision_event
    record_event-lawful = record {
      keeps = λ r s p h.
          let (same, recorded) =
            reconcile-IsRecorded (supervisor_decision_event event_id_of task_id attempt_id d r) r s
              h in
          subst (λ z. After₅ z × IsEventRecorded z) same (p, recorded);
      again = λ r done. IsRecorded-reconcile _ r done;
      half_keeps = λ r s p h.
          let (same, _) =
            log_evaluation_event_resumed
              (supervisor_decision_event event_id_of task_id attempt_id d r) r s h in
          subst After₅ same p;
      half_again = λ r s p h.
          let (same, e) =
            log_evaluation_event_resumed
              (supervisor_decision_event event_id_of task_id attempt_id d r) r s h in
          subst
            (λ z.
              reconcile_evaluation_event
                (supervisor_decision_event event_id_of task_id attempt_id d z) s
              ≡ reconcile_evaluation_event
                  (supervisor_decision_event event_id_of task_id attempt_id d r) r)
            same e;
    }

    release_task-lawful :
        IsReplayable After₆ IsReleased (at_once (release_task event_id_of task_id attempt_id d))
    unfolding release_task supervisor_decision_event project_state
    release_task-lawful =
        at_once-IsReplayable After₆ IsReleased (release_task event_id_of task_id attempt_id d)
          (λ r s p h.
            let (state, e, h₁) = >>=-eq-ok (project_state task_id attempt_id d r) _ h in
            let free =
              project_state-released task_id attempt_id d r state
                (project_state-Projected task_id attempt_id d r state e) in
            subst (λ z. After₆ z × IsReleased z) (ok_inj h₁) (p, free))
          (λ r done. rw done refl)

    module _
        (apart : (event_id_of d.decision_id "PAUSE_AFTER_CURRENT_APPLIED"
            == event_id_of d.decision_id "SUPERVISOR_DECISION")
          ≡ false) where
      pause_recorded :
          (r s : Records)
          → pause_applied event_id_of task_id attempt_id d r ≡ true
          → After₇ r
          → reconcile_evaluation_event (pause_event event_id_of task_id attempt_id d r) r ≡ ok s
          → After₇ s × IsPauseRecorded s
      unfolding record_pause pause_event supervisor_decision_event evaluation_event
      pause_recorded r s applied p h =
          let x = supervisor_decision_event event_id_of task_id attempt_id d r in
          let y = pause_event event_id_of task_id attempt_id d r in
          let (same, recorded) = reconcile-IsRecorded y r s h in
          let ((before, event), free) = p in
          let event' = reconcile-other x y r s refl apart h event in
          let t : Records = record r { events_log = s.events_log; events = s.events } in
          let again : IsPauseRecorded t = rw applied (IsRecorded-reconcile y t recorded) in
          subst (λ z. After₇ z × IsPauseRecorded z) same (((before, event'), free), again)

      record_pause-lawful : IsReplayable After₇ IsPauseRecorded (record {
        run = record_pause event_id_of task_id attempt_id d;
        halfway = log_pause event_id_of task_id attempt_id d;
      })
      unfolding record_pause log_pause pause_event supervisor_decision_event evaluation_event
      record_pause-lawful = record {
        keeps = λ r s p h. elim (Bool-cases (pause_applied event_id_of task_id attempt_id d r)) [
          | inl applied ↦ pause_recorded r s applied p (rw applied at h)
          | inr none_applied ↦
              subst (λ z. After₇ z × IsPauseRecorded z) (ok_inj (rw none_applied at h))
                (p, rw none_applied refl)
        ];
        again = λ r done. done;
        half_keeps = λ r s p h.
            elim (Bool-cases (pause_applied event_id_of task_id attempt_id d r)) [
              | inl applied ↦
                  let x = supervisor_decision_event event_id_of task_id attempt_id d r in
                  let y = pause_event event_id_of task_id attempt_id d r in
                  let h' : log_evaluation_event y r ≡ ok s = rw applied at h in
                  let (same, _) = log_evaluation_event_resumed y r s h' in
                  let ((before, event), free) = p in
                  let event' = log-other x y r s refl apart h' event in
                  let event'' = subst (λ z. IsRecorded x s.events_log z.events) (sym same) event' in
                  subst After₇ same ((before, event''), free)
              | inr none_applied ↦ subst After₇ (ok_inj (rw none_applied at h)) p
            ];
        half_again = λ r s p h.
            elim (Bool-cases (pause_applied event_id_of task_id attempt_id d r)) [
              | inl applied ↦
                  let y = pause_event event_id_of task_id attempt_id d r in
                  let h' : log_evaluation_event y r ≡ ok s = rw applied at h in
                  let (same, e) = log_evaluation_event_resumed y r s h' in
                  let e' =
                    subst (λ z. reconcile_evaluation_event y z ≡ reconcile_evaluation_event y r)
                      (sym same) e in
                  subst
                    (λ z.
                      record_pause event_id_of task_id attempt_id d z
                      ≡ record_pause event_id_of task_id attempt_id d r)
                    same (rw applied e')
              | inr none_applied ↦ rw (← ok_inj {a = r} (rw none_applied at h)) refl
            ];
      }

      reconciliation-Lawful :
          Lawful Framed (reconciliation_steps event_id_of task_id attempt_id d) Ended
      reconciliation-Lawful = next Framed IsCommitted Ended _ _ check_committed-lawful (
          next After₁ (λ r. IsDecided d r.decisions_log) Ended _ _ log_decision-lawful
            (next After₂ IsAttemptEvaluated Ended _ _ evaluate_attempt-lawful (
              next After₃ IsTaskEnded Ended _ _ end_task-lawful (
                next After₄ IsSatisfied Ended _ _ satisfy_requirements-lawful (
                  next After₅ IsEventRecorded Ended _ _ record_event-lawful (
                    next After₆ IsReleased Ended _ _ release_task-lawful (
                      next After₇ IsPauseRecorded Ended _ _ record_pause-lawful
                        (finished Ended))))))))

-- The two events of a decision have different identities.
abbrev pub EventsApart : (String → String → String) → String → Type 0
EventsApart event_id_of decision_id =
    (event_id_of decision_id "PAUSE_AFTER_CURRENT_APPLIED"
      == event_id_of decision_id "SUPERVISOR_DECISION")
    ≡ false

-- A reconciliation that is stopped any number of times, at any of its writes, and started again
-- each time, ends with the records, or the error, with which it would have ended undisturbed.
pub reconcile_evaluation-Crashes :
    (event_id_of : String → String → String) (task_id attempt_id : String) (d : Verdict)
    (r s : Records)
    → EventsApart event_id_of d.decision_id
    → Crashes (reconciliation_steps event_id_of task_id attempt_id d) r s
    → reconcile_evaluation event_id_of task_id attempt_id d s
      ≡ reconcile_evaluation event_id_of task_id attempt_id d r
unfolding reconcile_evaluation
reconcile_evaluation-Crashes event_id_of task_id attempt_id d r s apart crashes =
    (Crashes-keep _ _ (reconciliation_steps event_id_of task_id attempt_id d) r s
      (reconciliation-Lawful event_id_of task_id attempt_id d r apart) refl crashes).1

pub reconcile_evaluation-consistent :
    (event_id_of : String → String → String) (task_id attempt_id : String) (d : Verdict)
    (r s : Records)
    → EventsApart event_id_of d.decision_id
    → reconcile_evaluation event_id_of task_id attempt_id d r ≡ ok s
    → IsCommitted event_id_of task_id attempt_id d s
      × IsDecided d s.decisions_log
      × IsAttemptEvaluated event_id_of task_id attempt_id d s
      × IsTaskEnded event_id_of task_id attempt_id d s
      × IsTaskAccepted event_id_of task_id attempt_id d s
      × IsDecisionRecorded event_id_of task_id attempt_id d s
      × IsReleased event_id_of task_id attempt_id d s
      × (reconcile_evaluation event_id_of task_id attempt_id d s ≡ ok s)
unfolding reconcile_evaluation
reconcile_evaluation-consistent event_id_of task_id attempt_id d r s apart h =
    let (
      ((((((((_, committed), decided), evaluated), ended), satisfied), recorded), free), _),
      again,
    ) =
      run_steps-Lawful _ _ (reconciliation_steps event_id_of task_id attempt_id d) r s
        (reconciliation-Lawful event_id_of task_id attempt_id d r apart) refl h in
    (
      committed,
      decided,
      evaluated,
      ended,
      IsSatisfied-IsTaskAccepted event_id_of task_id attempt_id d s satisfied,
      IsEventRecorded-IsDecisionRecorded event_id_of task_id attempt_id d s recorded,
      free,
      again,
    )

-- What `evaluateTask` reads before it reconciles is left as it is by interrupted reconciliations.
pub frame-Crashes :
    (event_id_of : String → String → String) (task_id attempt_id : String) (d : Verdict)
    (r s : Records)
    → EventsApart event_id_of d.decision_id
    → Crashes (reconciliation_steps event_id_of task_id attempt_id d) r s
    → frame event_id_of task_id attempt_id d s ≡ frame event_id_of task_id attempt_id d r
frame-Crashes event_id_of task_id attempt_id d r s apart crashes =
    (Crashes-keep _ _ (reconciliation_steps event_id_of task_id attempt_id d) r s
      (reconciliation-Lawful event_id_of task_id attempt_id d r apart) refl crashes).0
