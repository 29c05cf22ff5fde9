-- ===== src/Tests/Attempts.antt =====
-- src/pipeline.js: the first attempt on a routed task.
use durable_supervisor.Base.{
  String, [], includes, insert, lookup, ok, refl, some, texts_beq, ◌∷◌, ◌≡◌, nat_eq,
}
use durable_supervisor.Claims.{
  acquire_claim, acquire_rounds, acquire_round, acquire_swap, acquired, new_claim, next_index,
  task_authority,
}
use durable_supervisor.Claims.Index.{
  snapshot, read_index, valid_index, conflicts, Claim, empty_index,
}
use durable_supervisor.Store.{compare_and_swap}
use durable_supervisor.Lifecycle.State.{update_state}
use durable_supervisor.Handoff.Task.{TaskHandoff, validate_argv, validate_task_commands}
use durable_supervisor.Handoff.Gearbox.{
  authorize_attempt, authorize_route, deterministic_refused, is_command_tool, deterministic_route,
}
use durable_supervisor.Handoff.Attempt.{
  AttemptRecords, activate_attempt, attempts_length, claim_task, claims_of, create_attempt,
  create_authorized, decimal, digit, join, new_attempt, new_attempt_id, padded, policy_snapshot,
  queued_task, record_attempt,
}
use durable_supervisor.Handoff.Created.{IsCreated, create_attempt-IsCreated}
use durable_supervisor.Tests.Lifecycles.{state}
use durable_supervisor.Tests.Shared.{absent, alone, hash, alone-KeepsProtocol}
use durable_supervisor.Tests.Handoffs.{decision, policy, task}

padded_one : padded 1 ≡ "001"
unfolding padded decimal digit join
padded_one = refl

padded_twelve : padded 12 ≡ "012"
unfolding padded decimal digit join
padded_twelve = refl

padded_thousand : padded 1000 ≡ "1000"
unfolding padded decimal digit join
padded_thousand = refl

abbrev canonical : TaskHandoff → String
canonical t = t.task_id

abbrev before : AttemptRecords
before = record {
  policy = policy;
  claims = absent;
  tasks = ("task-1", task) ∷ [];
  attempts = [];
  state = state;
  created_log = [];
}

abbrev claim : Claim
claim =
    new_claim hash alone 255 absent (claim_task hash alone canonical task) (new_attempt_id task) 1

abbrev after : AttemptRecords
after = record before {
  claims =
      (acquire_claim hash alone (claims_of hash alone canonical before)
        (claim_task hash alone canonical task) (new_attempt_id task)).1;
  tasks = ("task-1", queued_task task) ∷ [];
  attempts = (new_attempt_id task, new_attempt before task decision "09:02" claim) ∷ [];
  state = record state {
    active_task_id = some "task-1";
    active_attempt_id = some "task-1-attempt-001";
    updated_at = "09:03";
  };
  created_log = (new_attempt_id task, "claim") ∷ [];
}

creates :
    create_attempt hash alone canonical task decision "09:02" "09:03" before
    ≡ (ok (new_attempt before task decision "09:02" claim, claim), after)
unfolding create_attempt create_authorized record_attempt activate_attempt authorize_attempt
    authorize_route deterministic_refused is_command_tool deterministic_route validate_task_commands
    validate_argv new_attempt policy_snapshot new_attempt_id join padded decimal digit
    attempts_length queued_task claim_task claims_of update_state includes insert lookup
    acquire_claim acquire_rounds acquire_round acquire_swap acquired new_claim next_index
    task_authority snapshot read_index valid_index conflicts compare_and_swap texts_beq
creates = refl

create_attempt-IsCreated_example :
    IsCreated hash alone canonical empty_index task decision before after
      (new_attempt before task decision "09:02" claim)
      claim
create_attempt-IsCreated_example =
    create_attempt-IsCreated hash alone alone-KeepsProtocol canonical empty_index task decision
      "09:02" "09:03" before after (new_attempt before task decision "09:02" claim) claim refl
      creates
