-- ===== src/Evaluation/Released.antt =====
-- src/cli.js, the lifecycle projection of `reconcileEvaluation`: the state that an evaluation leaves.
use durable_supervisor.Base.{
  Bool-cases, Option, String, [], arith, false, if◌then◌else◌, includes, inl, inr, none, nonempty,
  ok, option_string_eq, refl, some, true, truthy, ◌==◌, ◌≡◌, string_eq,
}
use durable_supervisor.Lifecycle.State.{Objective, State}
use durable_supervisor.Lifecycle.Requirements.{Matrix}
use durable_supervisor.Lifecycle.Validity.{state_errors, reports-nil, nil-reports, state_checks}
use durable_supervisor.Lifecycle.Laws.{Valid}
use durable_supervisor.Evaluation.Records.{Records, Verdict}
use durable_supervisor.Evaluation.Steps.{
  applied_pause, applies_pause, evaluated_state, owns_active_task, project_state, set_next_action,
}
use durable_supervisor.Evaluation.StepLaws.{project_state-Projected}

-- A paused state that is not complete stays valid when its active work ends.
evaluated_state-Valid :
    (task_id : String) (d : Verdict) (action : Option String) (s : State) (o : Objective)
    (m n : Option Matrix)
    → truthy s.active_task_id ≡ true
    → Valid s o m
    → Valid (set_next_action d.time action (evaluated_state task_id d s)) o n
unfolding evaluated_state applied_pause includes
evaluated_state-Valid task_id d action s o m n active v =
    elim (Bool-cases (applies_pause d s.pause)) [
      | inl applied ↦ rw applied (ground arith)
      | inr kept ↦ rw kept (ground arith)
    ]

owned_active :
    (task_id attempt_id : String) (s : State)
    → nonempty task_id ≡ true
    → owns_active_task task_id attempt_id s ≡ true
    → truthy s.active_task_id ≡ true
owned_active task_id attempt_id s named owned =
    let same = (option_string_eq.agrees s.active_task_id (some task_id)).0 (ground arith) in
    rw same named

no_pending_pause :
    (task_id : String) (d : Verdict) (s : State) (o : Objective) (m : Option Matrix)
    → Valid s o m
    → (evaluated_state task_id d s).pause.after_current ≡ false
unfolding evaluated_state applied_pause
no_pending_pause task_id d s o m v = elim (Bool-cases (applies_pause d s.pause)) [
  | inl applied ↦ rw applied refl
  | inr kept ↦ rw kept (ground arith)
]

-- An active task that is evaluated is released from a valid state to a valid one, with any matrix; the
-- supervisor is then paused if a pause applies and keeps its state otherwise, no pause is pending
-- any more, and an accepted task is the latest one.
pub project_state_valid :
    (task_id attempt_id : String) (d : Verdict) (r : Records) (next : State) (o : Objective)
    (m n : Option Matrix)
    → nonempty task_id ≡ true
    → owns_active_task task_id attempt_id r.state ≡ true
    → state_errors r.state o m ≡ []
    → project_state task_id attempt_id d r ≡ ok next
    → (state_errors next o n ≡ [])
      × (next.active_task_id ≡ none)
      × (next.pause.after_current ≡ false)
      × (next.supervisor_state
          ≡ (if applies_pause d r.state.pause then "PAUSED" else r.state.supervisor_state))
      × (next.latest_accepted_task_id
          ≡ (if d.decision == "ACCEPT" then some task_id else r.state.latest_accepted_task_id))
unfolding state_errors
project_state_valid task_id attempt_id d r next o m n named owned errors h =
    let v = reports-nil (state_checks r.state o m) errors in
    elim (project_state-Projected task_id attempt_id d r next h) [
      | inl (other, _) ↦ cc
      | inr (_, action, same) ↦
          let active = owned_active task_id attempt_id r.state named owned in
          let v' = evaluated_state-Valid task_id d action r.state o m n active v in
          let after = set_next_action d.time action (evaluated_state task_id d r.state) in
          rw (← same) (
            unfold evaluated_state in
            (
              nil-reports (state_checks after o n) v',
              refl,
              no_pending_pause task_id d r.state o m v,
              refl,
              refl,
            ))
    ]
