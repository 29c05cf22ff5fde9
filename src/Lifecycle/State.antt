-- ===== src/Lifecycle/State.antt =====
-- The durable records of src/state.js, `initialize` and `updateState`: the lifecycle state, the
-- objective with its revisions, the supervisor, and what the lifecycle reads of an attempt. A field
-- has the type that its writers give it.
use durable_supervisor.Base.{
  Bool, List, Option, Result, String, [], false, find, if◌then◌else◌, includes, negb, none,
  nonempty, ok, some, throw_if, trim, ℕ, ◌==◌, ◌>>◌, ◌∷◌, string_eq, nat_eq,
}

pub record Pause : Type 0 where
  pub active : Bool
  pub after_current : Bool
  pub reason : Option String
  pub changed_at : Option String
  pub applied_at : Option String
  pub applied_decision_id : Option String

-- The object that recovery or a change of objective leaves as the unresolved issue.
pub record Reconciliation : Type 0 where
  pub classification : String
  pub action : String
  pub task_id : Option String
  pub attempt_id : Option String
  pub pid : Option ℕ

pub data Issue : Type 0 where
  note : String → Issue
  reconciliation : Reconciliation → Issue

pub record State : Type 0 where
  pub supervisor_state : String
  pub phase : String
  pub pause : Pause
  pub active_task_id : Option String
  pub active_attempt_id : Option String
  pub latest_accepted_task_id : Option String
  pub latest_unresolved_issue : Option Issue
  pub pending_next_action : Option String
  pub processed_event_ids : List String
  pub updated_at : String

pub record Revision : Type 0 where
  pub revision : ℕ
  pub objective : String
  pub specification_sha256 : Option String
  pub changed_by : String
  pub effective_at : String

pub record Objective : Type 0 where
  pub schema : String
  pub objective_id : String
  pub current_revision : ℕ
  pub history : List Revision

pub record Supervisor : Type 0 where
  pub repository : String
  pub supervisor_id : String
  pub generation : ℕ
  pub authority_status : String
  pub recovered_at : Option String

abbrev pub objective_schema : String
objective_schema = "opsle.durable-supervisor.objective/v2"

abbrev pub valid_supervisor_states : List String
valid_supervisor_states = "ACTIVE" ∷ "DORMANT" ∷ "PAUSED" ∷ []

-- `updateState`: the patched state, which is written only with a valid supervisor state. The patch
-- is the function that sets the fields.
unfoldable pub update_state : (State → State) → String → State → Result State
update_state patch time state =
    let next = record (patch state) { updated_at = time } in
    throw_if (negb (includes valid_supervisor_states next.supervisor_state))
      "invalid supervisor state"
    >> ok next

-- `currentObjective`
unfoldable pub current_objective : Objective → Option Revision
current_objective objective =
    if objective.current_revision == 0
    then none
    else find (λ item. item.revision == objective.current_revision) objective.history

abbrev pub no_pause : Pause
no_pause = record {
  active = false;
  after_current = false;
  reason = none;
  changed_at = none;
  applied_at = none;
  applied_decision_id = none;
}

-- The objective that `initialize` writes, from the text that it was given.
unfoldable pub initial_objective : String → String → String → Option String → Objective
initial_objective objective_id actor time text = elim text [
  | none ↦ record {
    schema = objective_schema;
    objective_id = objective_id;
    current_revision = 0;
    history = [];
  }
  | some t ↦ record {
    schema = objective_schema;
    objective_id = objective_id;
    current_revision = 1;
    history =
        record {
          revision = 1;
          objective = t;
          specification_sha256 = none;
          changed_by = actor;
          effective_at = time;
        }
        ∷ [];
  }
]

-- The lifecycle state that `initialize` writes.
unfoldable pub initial_state : String → Option String → State
initial_state time text = record {
  supervisor_state = "ACTIVE";
  phase = elim text [ none ↦ "INITIALIZED" | some t ↦ "ACTIVE" ];
  pause = no_pause;
  active_task_id = none;
  active_attempt_id = none;
  latest_accepted_task_id = none;
  latest_unresolved_issue = none;
  pending_next_action = elim text [
    | none ↦ some "Set the repository objective."
    | some t ↦ some "Establish bounded work for objective revision 1."
  ];
  processed_event_ids = [];
  updated_at = time;
}

-- `objectiveText?.trim() || null`
unfoldable pub objective_text : Option String → Option String
objective_text none = none
objective_text (some raw) = let t = trim raw in if nonempty t then some t else none
