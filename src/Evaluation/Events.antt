-- ===== src/Evaluation/Events.antt =====
-- src/cli.js: the events of an evaluation, `evaluationEvent`, `eventMatchesProjection` and
-- `reconcileEvaluationEvent`. The identity of an event is a function of the decision and the type.
use durable_supervisor.Base.{
  Bool, List, Result, String, [], false, insert, is_empty, keep, leb, length, lookup, negb, none,
  ok, some, throw_if, true, ◌&&◌, ◌++◌, ◌==◌, ◌>>=◌, ◌>>◌, ◌∷◌, string_eq, option_string_eq,
}
use durable_supervisor.Evaluation.Records.{Event, Records, Verdict, event_schema, same_event}

-- `evaluationEvent`, without the details that only one type of event has.
unfoldable pub evaluation_event :
    (String → String → String) → String → Verdict → String → String → String → Event
evaluation_event event_id_of supervisor_id d type task_id attempt_id = record {
  schema = event_schema;
  event_id = event_id_of d.decision_id type;
  type = type;
  time = d.time;
  actor = "durable-supervisor";
  supervisor_id = supervisor_id;
  supervisor_generation = d.supervisor_generation;
  task_id = some task_id;
  attempt_id = some attempt_id;
  decision_id = some d.decision_id;
  decision = none;
  terminal_task_state = none;
  reason = none;
}

unfoldable pub event_matches_projection : Event → Event → Bool
event_matches_projection event expected =
    same_event event (record expected { event_id = event.event_id; time = event.time })

-- The lines of the log that record the expected event.
unfoldable pub records_event : Event → Event → Bool
records_event expected entry =
    entry.type == expected.type
    && entry.decision_id == expected.decision_id
    && entry.task_id == expected.task_id
    && entry.attempt_id == expected.attempt_id

-- A line with the identity of the expected event that does not record it.
unfoldable pub identity_conflict : Event → Event → Bool
unfolding records_event
identity_conflict expected entry =
    entry.event_id == expected.event_id && negb (records_event expected entry)

-- Whether the event is in the log, and the event: the line, the file, or the expected one.
unfoldable pub choose_event : Event → List (String × Event) → List Event → Result (Bool × Event)
choose_event expected files (event ∷ more) =
    throw_if (negb (event_matches_projection event expected))
      "conflicting evaluation event projection"
    >> ok (true, event)
choose_event expected files [] = elim (lookup expected.event_id files) [
  | none ↦ ok (false, expected)
  | some event ↦
      throw_if (negb (same_event event expected)) "conflicting evaluation event file"
      >> ok (false, event)
]

unfoldable pub find_event : Event → List Event → List (String × Event) → Result (Bool × Event)
unfolding choose_event
find_event expected log files = do
  let matches = keep (records_event expected) log
  throw_if (leb 2 (length matches)) "duplicate evaluation event projection"
  throw_if (negb (is_empty (keep (identity_conflict expected) log)))
      "conflicting evaluation event identity"
  choose_event expected files matches

unfoldable pub log_event : Bool × Event → List Event → List Event
log_event (true, event) log = log
log_event (false, event) log = log ++ event ∷ []

unfoldable pub file_event : Event → List (String × Event) → Result (List (String × Event))
file_event event files = elim (lookup event.event_id files) [
  | none ↦ ok (insert event.event_id event files)
  | some old ↦
      throw_if (negb (same_event old event)) "conflicting evaluation event file" >> ok files
]

unfoldable pub reconcile_evaluation_event : Event → Records → Result Records
reconcile_evaluation_event expected r = do
  found ← find_event expected r.events_log r.events
  files ← file_event found.1 r.events
  ok (record r { events_log = log_event found r.events_log; events = files })

-- The same, interrupted between the log and the file.
unfoldable pub log_evaluation_event : Event → Records → Result Records
log_evaluation_event expected r = do
  found ← find_event expected r.events_log r.events
  ok (record r { events_log = log_event found r.events_log })
