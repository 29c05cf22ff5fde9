-- ===== src/Lifecycle/Recovery.antt =====
-- src/cli.js: `recover`, with the exact ownership of a detached Runner that it asks for
-- (`exactAttemptClaimOwner`, `exactDetachedRunnerOwner`).
use durable_supervisor.Wait.{apply_wake_event}
use durable_supervisor.Claims.Index.{Claim, ClaimIndex, claim_schema, active}
use durable_supervisor.Lifecycle.State.{State, Supervisor, Reconciliation, reconciliation, no_pause}
use durable_supervisor.Lifecycle.Repository.{
  Repository, Attempt, Task, Runner, RunnerReconciliation, emit,
}
use durable_supervisor.Lifecycle.Requirements.{
  Matrix, Progress, effective_requirement_matrix, derive_pending_next_action,
}
use durable_supervisor.Base.{
  Bool, Option, Result, String, count, err, false, if◌then◌else◌, insert, lookup, none, nonempty,
  ok, or_throw, some, true, ℕ, ◌&&◌, ◌+◌, ◌==◌, ◌>>=◌, nat_eq, string_eq,
}

unfoldable pub indexed_exactly : Option Claim → Claim → Bool
indexed_exactly none claim = false
indexed_exactly (some indexed) claim =
    indexed.schema == claim.schema
    && indexed.task_id == claim.task_id
    && indexed.attempt_id == claim.attempt_id
    && indexed.claim_id == claim.claim_id
    && indexed.fence_generation == claim.fence_generation
    && indexed.owner_supervisor_id == claim.owner_supervisor_id
    && indexed.owner_generation == claim.owner_generation
    && indexed.status == claim.status

-- The active identities of the state are given as texts; an absent one has no attempt to ask about.
unfoldable pub exact_attempt_claim_owner :
    String → String → Task → Attempt → Claim → Option Claim → Supervisor → Bool
exact_attempt_claim_owner active_task active_attempt task attempt claim indexed supervisor =
    task.task_id == active_task
    && task.supervisor_id == supervisor.supervisor_id
    && count active_attempt task.attempts == 1
    && attempt.schema == "opsle.durable-supervisor.child-attempt/v1"
    && attempt.task_id == active_task
    && attempt.attempt_id == active_attempt
    && claim.schema == claim_schema
    && claim.status == active
    && claim.task_id == attempt.task_id
    && claim.attempt_id == attempt.attempt_id
    && claim.claim_id == attempt.claim_id
    && claim.fence_generation == attempt.fence_generation
    && claim.owner_supervisor_id == supervisor.supervisor_id
    && claim.owner_generation == attempt.supervisor_generation
    && indexed_exactly indexed claim

unfoldable pub exact_runner : (ℕ → Bool) → Attempt → Claim → Supervisor → Runner → Bool
exact_runner alive attempt claim supervisor runner =
    runner.schema == "opsle.durable-supervisor.detached-runner/v1"
    && runner.status == "OWNED"
    && runner.task_id == attempt.task_id
    && runner.attempt_id == attempt.attempt_id
    && runner.claim_id == attempt.claim_id
    && runner.fence_generation == attempt.fence_generation
    && runner.supervisor_id == supervisor.supervisor_id
    && runner.supervisor_generation == attempt.supervisor_generation
    && claim.owner_generation == runner.supervisor_generation
    && elim runner.worker_pid [ none ↦ false | some pid ↦ alive pid ]

abbrev pub indexed_claim : Option ClaimIndex → String → Option Claim
indexed_claim none task = none
indexed_claim (some index) task = lookup task index.entries

-- `exactDetachedRunnerOwner` on the records that recovery finds in the files; any that is missing
-- fails the test.
unfoldable pub detached_owned : (ℕ → Bool) → Repository → String → Attempt → Bool
detached_owned alive r active_attempt attempt = elim r.state.active_task_id [
  | none ↦ false
  | some active_task ↦ elim (lookup active_task r.tasks) [
    | none ↦ false
    | some task ↦ elim (lookup attempt.claim_id r.claims) [
      | none ↦ false
      | some claim ↦ elim (lookup attempt.attempt_id r.runners) [
        | none ↦ false
        | some runner ↦
            exact_attempt_claim_owner active_task active_attempt task attempt claim
              (indexed_claim r.claim_index active_task) r.supervisor
            && exact_runner alive attempt claim r.supervisor runner
      ]
    ]
  ]
]

-- What recovery makes of an attempt: a settled finding, or a child whose owner is lost.
pub data Finding : Type 0 where
  settled : Reconciliation → Finding
  lost : Finding

abbrev pub found : String → String → Option ℕ → Reconciliation
found classification action pid = record {
  classification = classification;
  action = action;
  task_id = none;
  attempt_id = none;
  pid = pid;
}

abbrev pub is_committed : Option RunnerReconciliation → Bool
is_committed none = false
is_committed (some x) =
    x.status == "COMMITTED" && x.runner_outcome == "FAILED" && x.child_outcome == "UNKNOWN"

-- A committed failure of the Runner reads the claim's file, whose absence throws.
unfoldable pub unknown_finding : Repository → Attempt → Result Finding
unknown_finding r attempt =
    if is_committed attempt.runner_reconciliation
    then (do
      claim ← or_throw (lookup attempt.claim_id r.claims) "invalid durable JSON"
      ok (settled (found "known_runner_failed_child_unknown" "do_not_relaunch" attempt.pid)))
    else ok (settled (found "unknown_unreconciled" "remain_paused_and_reconcile" attempt.pid))

unfoldable pub classify : (ℕ → Bool) → Repository → String → Attempt → Result Finding
classify alive r active_attempt attempt =
    if attempt.child_state == "COMPLETED"
    then ok (settled (found "known_completed" "do_not_relaunch" none))
    else if attempt.child_state == "FAILED"
    then ok (settled (found "known_failed" "do_not_relaunch" none))
    else if attempt.child_state == "CANCELLED"
    then ok (settled (found "known_cancelled" "do_not_relaunch" none))
    else if attempt.child_state == "UNKNOWN"
    then unknown_finding r attempt
    else if detached_owned alive r active_attempt attempt
    then ok (settled (found "known_running" "preserve_claim_and_wait" attempt.pid))
    else ok lost

abbrev pub lost_reconciliation : Option ℕ → Reconciliation
lost_reconciliation pid = found "unknown_unreconciled" "pause_and_reconcile" pid

unfoldable pub lost_state : String → Option ℕ → State → State
lost_state time pid state = record state {
  supervisor_state = "PAUSED";
  pause = record no_pause {
    active = true;
    reason = some "Recovery ambiguity: prior child process is absent without terminal evidence.";
    changed_at = some time;
  };
  latest_unresolved_issue = some (reconciliation (lost_reconciliation pid));
}

-- The wait of a lost child is ended by the intervention that recovery emits.
unfoldable pub intervene : String → Attempt → Result Attempt
intervene event_id attempt = elim attempt.wait_registration [
  | none ↦ ok (record attempt { child_state = "UNKNOWN" })
  | some wait ↦ do
    next ← apply_wake_event wait (record {
      event_id = event_id;
      type = "intervention-required";
      wait_id = attempt.attempt_id;
    })
    ok (record attempt { child_state = "UNKNOWN"; wait_registration = some next })
]

abbrev pub progress : State → Progress
progress state = record {
  active_task_id = state.active_task_id;
  active_attempt_id = state.active_attempt_id;
  paused = state.pause.active;
  phase = state.phase;
}

unfoldable pub derived_state : Option Matrix → State → State
derived_state matrix state = record state {
  pending_next_action =
      derive_pending_next_action (progress state) matrix state.pending_next_action;
}

-- The end of `recover`: the state with the derived next action, and the next generation.
unfoldable pub finish_recovery : Option Matrix → String → Repository → Repository
finish_recovery matrix time r = emit "SUPERVISOR_RECOVERED" none (record r {
  state = derived_state matrix r.state;
  supervisor = record r.supervisor {
    generation = r.supervisor.generation + 1;
    recovered_at = some time;
  };
})

abbrev pub Outcome : Type 0
Outcome = Result Reconciliation × Repository

-- A throw from the wait leaves the intervention in the log of events and writes nothing else.
unfoldable pub recover_lost :
    Option Matrix → String → String → String → Attempt → Repository → Outcome
recover_lost matrix event_id time active_attempt attempt r =
    let noted = emit "INTERVENTION_REQUIRED" (some attempt.attempt_id) r in
    elim (intervene event_id attempt) [
      | err e ↦ (err e, noted)
      | ok unknown ↦ (
        ok (lost_reconciliation attempt.pid),
        finish_recovery matrix time (record noted {
          attempts = insert active_attempt unknown noted.attempts;
          state = lost_state time attempt.pid noted.state;
        }),
      )
    ]

unfoldable pub recover_finding :
    Option Matrix → String → String → String → Attempt → Repository → Result Finding → Outcome
recover_finding matrix event_id time active_attempt attempt r (err e) = (err e, r)
recover_finding matrix event_id time active_attempt attempt r (ok (settled x)) =
    (ok x, finish_recovery matrix time r)
recover_finding matrix event_id time active_attempt attempt r (ok lost) =
    recover_lost matrix event_id time active_attempt attempt r

abbrev pub no_active_work : Reconciliation
no_active_work = found "no_active_work" "none" none

-- The attempt that the state names, if its file is there.
unfoldable pub active_attempt : Repository → Option (String × Attempt)
active_attempt r = elim r.state.active_attempt_id [
  | none ↦ none
  | some id ↦
      if nonempty id
      then elim (lookup id r.attempts) [ none ↦ none | some attempt ↦ some (id, attempt) ]
      else none
]

unfoldable pub recover_active :
    (ℕ → Bool) → Option Matrix → String → String → Repository → Option (String × Attempt) → Outcome
recover_active alive matrix event_id time r none =
    (ok no_active_work, finish_recovery matrix time r)
recover_active alive matrix event_id time r (some (id, attempt)) =
    recover_finding matrix event_id time id attempt r (classify alive r id attempt)

-- `recover`: whether processes are alive, the identity of the intervention event and the time are
-- given from outside.
unfoldable pub recover : (ℕ → Bool) → String → String → Repository → Outcome
recover alive event_id time r =
    elim (effective_requirement_matrix r.bootstrap r.matrix r.specification) [
      | err e ↦ (err e, r)
      | ok matrix ↦ recover_active alive matrix event_id time r (active_attempt r)
    ]
