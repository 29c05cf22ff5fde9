-- ===== src/Wait.antt =====
-- src/wakeup.js: the wait of a supervisor for one child attempt, and the events that may end it
-- (`registerWait`, `applyWakeEvent`, `terminalWakeType`, and the two sets of event types).
-- An absent record or field reads as the empty text, which the code refuses in the same way.
pub mod Laws
use durable_supervisor.Base.{
  Bool, List, Option, Result, String, [], false, if◌then◌else◌, includes, negb, none, nonempty, ok,
  some, throw_if, true, ℕ, ◌!=◌, ◌++◌, ◌==◌, ◌>>=◌, ◌>>◌, ◌||◌, ◌∷◌, option_nat_eq, string_eq,
}

abbrev pub wait_schema : String
wait_schema = "opsle.durable-supervisor.wait-registration/v1"

abbrev pub terminal_wake_types : List String
terminal_wake_types =
    "child-completed" ∷ "child-failed" ∷ "child-timeout" ∷ "child-stall" ∷ "intervention-required"
    ∷ []

abbrev pub ineligible_wake_types : List String
ineligible_wake_types =
    "heartbeat" ∷ "host-wrapper-yield" ∷ "host-wrapper-timeout" ∷ "nonterminal-return" ∷ []

pub data WaitState : Type 0 where
  waiting ready : WaitState

abbrev pub is_waiting : WaitState → Bool
is_waiting waiting = true
is_waiting ready = false

-- The `class` and `automatic` marks of a wake and of an interaction are fixed texts.
pub record Wake : Type 0 where
  pub event_id : String
  pub type : String

pub record Wait : Type 0 where
  pub schema : String
  pub wait_id : String
  pub task_id : String
  pub attempt_id : String
  pub state : WaitState
  pub registered_at : String
  pub deadline_at : String
  pub seen_event_ids : List String
  pub human_interactions : List String
  pub wake : Option Wake

pub record WakeEvent : Type 0 where
  pub event_id : String
  pub type : String
  pub wait_id : String

unfoldable pub register_wait : String → String → String → String → String → Result Wait
register_wait wait_id task_id attempt_id registered_at deadline_at =
    throw_if
      (negb (nonempty wait_id)
        || negb (nonempty task_id)
        || negb (nonempty attempt_id)
        || negb (nonempty registered_at)
        || negb (nonempty deadline_at))
      "wait registration requires identity, registration time, and deadline"
    >> ok (record {
      schema = wait_schema;
      wait_id = wait_id;
      task_id = task_id;
      attempt_id = attempt_id;
      state = waiting;
      registered_at = registered_at;
      deadline_at = deadline_at;
      seen_event_ids = [];
      human_interactions = [];
      wake = none;
    })

-- What follows the guards: the event is recorded as seen, and acts by its type.
unfoldable pub dispatch_event : Wait → WakeEvent → Wait
dispatch_event wait event =
    let seen = record wait { seen_event_ids = wait.seen_event_ids ++ event.event_id ∷ [] } in
    if event.wait_id != wait.wait_id || negb (is_waiting wait.state)
    then seen
    else if includes ineligible_wake_types event.type
    then seen
    else if event.type == "human-interaction"
    then record seen { human_interactions = wait.human_interactions ++ event.event_id ∷ [] }
    else if negb (includes terminal_wake_types event.type)
    then seen
    else record seen {
      state = ready;
      wake = some (record { event_id = event.event_id; type = event.type });
    }

unfoldable pub apply_wake_event : Wait → WakeEvent → Result Wait
unfolding dispatch_event
apply_wake_event wait event = do
  throw_if (wait.schema != wait_schema) "unsupported wait registration"
  throw_if
      (negb (nonempty event.event_id)
        || negb (nonempty event.type)
        || negb (nonempty event.wait_id))
      "wake event requires event_id, type, and wait_id"
  if includes wait.seen_event_ids event.event_id then ok wait else ok (dispatch_event wait event)

-- A history of events: the wait that the calls of `applyWakeEvent`, one after another, leave.
unfoldable pub apply_all : Wait → List WakeEvent → Result Wait
apply_all wait [] = ok wait
apply_all wait (event ∷ rest) = apply_wake_event wait event >>= λ next. apply_all next rest

pub terminal_wake_type : Bool → Bool → Option ℕ → String
terminal_wake_type timed_out stalled exit_code =
    if stalled
    then "child-stall"
    else if timed_out
    then "child-timeout"
    else if exit_code == some 0
    then "child-completed"
    else "child-failed"
