-- ===== src/Evaluation/Records.antt =====
-- src/cli.js, `evaluateTask`: the records that an evaluation reads and writes. The directories of
-- `.opsle` are lists of names with records, the logs are lists of lines; of each record the fields
-- that the evaluation uses are kept.
use durable_supervisor.Base.{
  AllHold-all_of, Bool, List, Option, String, [], all_of, all_of-AllHold, beq_refl, nat_eq,
  option_string_eq, string_eq, texts_eq, true, ℕ, ◌==◌, ◌∷◌, ◌≡◌,
}
use durable_supervisor.Lifecycle.State.{State}
use durable_supervisor.Lifecycle.Requirements.{Bootstrap, Matrix}

abbrev pub verdict_schema : String
verdict_schema = "opsle.durable-supervisor.decision/v1"

abbrev pub event_schema : String
event_schema = "opsle.durable-supervisor.event/v1"

-- The supervisor's decision on a task, which is immutable once it is written.
pub record Verdict : Type 0 where
  pub schema : String
  pub decision_id : String
  pub question : String
  pub decision : String
  pub rationale : String
  pub evidence_references : List String
  pub time : String
  pub supervisor_generation : ℕ
  pub task_id : String
  pub objective_id : String

-- A line of the event log or a file of the event directory; a field that an event has not is `none`.
pub record Event : Type 0 where
  pub schema : String
  pub event_id : String
  pub type : String
  pub time : String
  pub actor : String
  pub supervisor_id : String
  pub supervisor_generation : ℕ
  pub task_id : Option String
  pub attempt_id : Option String
  pub decision_id : Option String
  pub decision : Option String
  pub terminal_task_state : Option String
  pub reason : Option String

-- The copy of the decision in the record of the attempt.
pub record AttemptEvaluation : Type 0 where
  pub decision_id : String
  pub decision : String
  pub rationale : String
  pub evaluated_at : String

pub record Attempt : Type 0 where
  pub compact_packet : String
  pub completion_handoff : String
  -- `acceptance?.state`
  pub acceptance_state : Option String
  pub supervisor_evaluation : Option AttemptEvaluation

pub record Task : Type 0 where
  pub parent_objective_id : String
  pub state : String
  pub requirement_ids : List String
  pub attempts : List String

-- A queued wake request, with what `wakeDeliveryConsumptionStatus` says of its event.
pub record Wake : Type 0 where
  pub event_id : String
  pub task_id : String
  pub attempt_id : String
  pub delivered : Bool
  pub consumed : Bool

pub record Records : Type 0 where
  pub supervisor_id : String
  pub supervisor_generation : ℕ
  pub bootstrap : Option Bootstrap
  pub specification : Option String
  pub matrix : Option Matrix
  pub state : State
  pub tasks : List (String × Task)
  pub attempts : List (String × Attempt)
  pub evaluations : List (String × Verdict)
  pub decisions_log : List Verdict
  pub events_log : List Event
  pub events : List (String × Event)
  pub wakes : List Wake

-- Equality of records, as the program compares their canonical texts.
unfoldable pub same_verdict : Verdict → Verdict → Bool
same_verdict a b = all_of (
    (a.schema == b.schema)
    ∷ (a.decision_id == b.decision_id)
    ∷ (a.question == b.question)
    ∷ (a.decision == b.decision)
    ∷ (a.rationale == b.rationale)
    ∷ (a.evidence_references == b.evidence_references)
    ∷ (a.time == b.time)
    ∷ (a.supervisor_generation == b.supervisor_generation)
    ∷ (a.task_id == b.task_id)
    ∷ (a.objective_id == b.objective_id)
    ∷ [])

unfoldable pub same_evaluation : AttemptEvaluation → AttemptEvaluation → Bool
same_evaluation a b = all_of (
    (a.decision_id == b.decision_id)
    ∷ (a.decision == b.decision)
    ∷ (a.rationale == b.rationale)
    ∷ (a.evaluated_at == b.evaluated_at)
    ∷ [])

unfoldable pub same_event : Event → Event → Bool
same_event a b = all_of (
    (a.schema == b.schema)
    ∷ (a.event_id == b.event_id)
    ∷ (a.type == b.type)
    ∷ (a.time == b.time)
    ∷ (a.actor == b.actor)
    ∷ (a.supervisor_id == b.supervisor_id)
    ∷ (a.supervisor_generation == b.supervisor_generation)
    ∷ (a.task_id == b.task_id)
    ∷ (a.attempt_id == b.attempt_id)
    ∷ (a.decision_id == b.decision_id)
    ∷ (a.decision == b.decision)
    ∷ (a.terminal_task_state == b.terminal_task_state)
    ∷ (a.reason == b.reason)
    ∷ [])

pub same_verdict_refl : (d : Verdict) → same_verdict d d ≡ true
unfolding same_verdict
same_verdict_refl d = AllHold-all_of _ (
  beq_refl d.schema,
  (
    beq_refl d.decision_id,
    (
      beq_refl d.question,
      (
        beq_refl d.decision,
        (
          beq_refl d.rationale,
          (
            beq_refl d.evidence_references,
            (
              beq_refl d.time,
              (
                beq_refl d.supervisor_generation,
                (beq_refl d.task_id, (beq_refl d.objective_id, tt)),
              ),
            ),
          ),
        ),
      ),
    ),
  ),
)

pub same_verdict_sound : (a b : Verdict) → same_verdict a b ≡ true → a ≡ b
unfolding same_verdict
same_verdict_sound a b h =
    let (s, (i, (q, (d, (r, (e, (t, (g, (k, (o, _)))))))))) = all_of-AllHold _ h in
    λ i'. record {
      schema = (string_eq.agrees a.schema b.schema).0 s i';
      decision_id = (string_eq.agrees a.decision_id b.decision_id).0 i i';
      question = (string_eq.agrees a.question b.question).0 q i';
      decision = (string_eq.agrees a.decision b.decision).0 d i';
      rationale = (string_eq.agrees a.rationale b.rationale).0 r i';
      evidence_references = (texts_eq.agrees a.evidence_references b.evidence_references).0 e i';
      time = (string_eq.agrees a.time b.time).0 t i';
      supervisor_generation =
          (nat_eq.agrees a.supervisor_generation b.supervisor_generation).0 g i';
      task_id = (string_eq.agrees a.task_id b.task_id).0 k i';
      objective_id = (string_eq.agrees a.objective_id b.objective_id).0 o i';
    }

pub same_evaluation_refl : (e : AttemptEvaluation) → same_evaluation e e ≡ true
unfolding same_evaluation
same_evaluation_refl e = AllHold-all_of _ (
  beq_refl e.decision_id,
  (beq_refl e.decision, (beq_refl e.rationale, (beq_refl e.evaluated_at, tt))),
)

pub same_event_refl : (e : Event) → same_event e e ≡ true
unfolding same_event
same_event_refl e = AllHold-all_of _ (
  beq_refl e.schema,
  (
    beq_refl e.event_id,
    (
      beq_refl e.type,
      (
        beq_refl e.time,
        (
          beq_refl e.actor,
          (
            beq_refl e.supervisor_id,
            (
              beq_refl e.supervisor_generation,
              (
                beq_refl e.task_id,
                (
                  beq_refl e.attempt_id,
                  (
                    beq_refl e.decision_id,
                    (
                      beq_refl e.decision,
                      (beq_refl e.terminal_task_state, (beq_refl e.reason, tt)),
                    ),
                  ),
                ),
              ),
            ),
          ),
        ),
      ),
    ),
  ),
)

pub same_event_sound : (a b : Event) → same_event a b ≡ true → a ≡ b
unfolding same_event
same_event_sound a b h =
    let (s, (i, (y, (t, (c, (p, (g, (k, (m, (d, (v, (n, (r, _))))))))))))) = all_of-AllHold _ h in
    λ i'. record {
      schema = (string_eq.agrees a.schema b.schema).0 s i';
      event_id = (string_eq.agrees a.event_id b.event_id).0 i i';
      type = (string_eq.agrees a.type b.type).0 y i';
      time = (string_eq.agrees a.time b.time).0 t i';
      actor = (string_eq.agrees a.actor b.actor).0 c i';
      supervisor_id = (string_eq.agrees a.supervisor_id b.supervisor_id).0 p i';
      supervisor_generation =
          (nat_eq.agrees a.supervisor_generation b.supervisor_generation).0 g i';
      task_id = (option_string_eq.agrees a.task_id b.task_id).0 k i';
      attempt_id = (option_string_eq.agrees a.attempt_id b.attempt_id).0 m i';
      decision_id = (option_string_eq.agrees a.decision_id b.decision_id).0 d i';
      decision = (option_string_eq.agrees a.decision b.decision).0 v i';
      terminal_task_state =
          (option_string_eq.agrees a.terminal_task_state b.terminal_task_state).0 n i';
      reason = (option_string_eq.agrees a.reason b.reason).0 r i';
    }
