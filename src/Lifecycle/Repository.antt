-- ===== src/Lifecycle/Repository.antt =====
-- The files of `.opsle` that the operator's commands and recovery read and write (src/state.js,
-- src/cli.js, and the attempt and task records of src/pipeline.js). A directory of JSON files is a
-- list of identities with records; of each record the fields that these commands use are kept.
use durable_supervisor.Base.{List, Option, String, [], ℕ, ◌++◌, ◌∷◌}
use durable_supervisor.Wait.{Wait}
use durable_supervisor.Claims.Index.{Claim, ClaimIndex}
use durable_supervisor.Lifecycle.State.{State, Objective, Supervisor}
use durable_supervisor.Lifecycle.Requirements.{Bootstrap, Matrix}

-- An emitted event, without its identity, time and details.
pub record Event : Type 0 where
  pub type : String
  pub attempt_id : Option String

pub record RunnerReconciliation : Type 0 where
  pub status : String
  pub runner_outcome : String
  pub child_outcome : String

pub record Attempt : Type 0 where
  pub schema : String
  pub task_id : String
  pub attempt_id : String
  pub child_state : String
  pub claim_id : String
  pub fence_generation : ℕ
  -- `policy_snapshot.supervisor_generation`
  pub supervisor_generation : ℕ
  pub pid : Option ℕ
  pub wait_registration : Option Wait
  pub runner_reconciliation : Option RunnerReconciliation

pub record Task : Type 0 where
  pub task_id : String
  pub supervisor_id : String
  pub attempts : List String

-- The record of a detached Runner in `workers`.
pub record Runner : Type 0 where
  pub schema : String
  pub status : String
  pub task_id : String
  pub attempt_id : String
  pub claim_id : String
  pub fence_generation : ℕ
  pub supervisor_id : String
  pub supervisor_generation : ℕ
  pub worker_pid : Option ℕ

pub record Repository : Type 0 where
  pub state : State
  pub objective : Objective
  pub supervisor : Supervisor
  pub bootstrap : Option Bootstrap
  pub matrix : Option Matrix
  pub specification : Option String
  pub tasks : List (String × Task)
  pub attempts : List (String × Attempt)
  pub claims : List (String × Claim)
  pub claim_index : Option ClaimIndex
  pub runners : List (String × Runner)
  pub events : List Event

abbrev pub emit : String → Option String → Repository → Repository
emit type attempt r = record r {
  events = r.events ++ record { type = type; attempt_id = attempt } ∷ [];
}
