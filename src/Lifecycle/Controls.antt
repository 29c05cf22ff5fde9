-- ===== src/Lifecycle/Controls.antt =====
-- src/cli.js: the operator's commands on the lifecycle, `pause`, `resume`, `objective set` and
-- `cutover` of `main`, with `attemptForState`, `recordHumanActivation` and `setObjective`.
use durable_supervisor.Lifecycle.State.{
  State, reconciliation, Objective, Revision, update_state, no_pause,
}
use durable_supervisor.Lifecycle.Requirements.{effective_requirement_matrix}
use durable_supervisor.Lifecycle.Repository.{Repository, Event, emit}
use durable_supervisor.Base.{
  Bool, List, Option, Result, String, [], err, false, find, if◌then◌else◌, is_none, lookup, negb,
  none, nonempty, ok, some, throw_if, trim, true, truthy, ◌!=◌, ◌&&◌, ◌++◌, ◌+◌, ◌==◌, ◌>>=◌, ◌>>◌,
  ◌||◌, ◌∷◌, string_eq, nat_eq,
}

-- `['LAUNCHING', 'RUNNING'].includes(attemptForState(root, state)?.child_state)`
unfoldable pub child_running : Repository → Bool
child_running r = elim r.state.active_attempt_id [
  | none ↦ false
  | some attempt ↦ nonempty attempt && elim (lookup attempt r.attempts) [
    | none ↦ false
    | some child ↦ child.child_state == "LAUNCHING" || child.child_state == "RUNNING"
  ]
]

unfoldable pub human_activation : Repository → List Event
human_activation r =
    if child_running r
    then record { type = "SUPERVISOR_ACTIVATION"; attempt_id = r.state.active_attempt_id } ∷ []
    else []

abbrev pub record_human_activation : Repository → Repository
record_human_activation r = record r { events = r.events ++ human_activation r }

-- `updateState` on the file of the repository.
abbrev pub set_state : (State → State) → String → Repository → Result Repository
set_state patch time r = do next ← update_state patch time r.state; ok (record r { state = next })

-- The patches that the two commands give to `updateState`.
unfoldable pub paused_state : Bool → String → String → State → State
paused_state deferred reason time state = record state {
  supervisor_state = if deferred then state.supervisor_state else "PAUSED";
  pause = record no_pause {
    active = true;
    after_current = deferred;
    reason = some reason;
    changed_at = some time;
  };
}

unfoldable pub resumed_state : String → State → State
resumed_state time state = record state {
  supervisor_state = "ACTIVE";
  pause = record no_pause { changed_at = some time };
}

unfoldable pub pause : Bool → String → String → Repository → Result Repository
pause after_current reason time r = do
  next ←
      set_state (paused_state (after_current && child_running r) reason time) time
        (record_human_activation r)
  ok (emit "SUPERVISOR_PAUSED" (if child_running r then r.state.active_attempt_id else none) next)

unfoldable pub resume : String → Repository → Result Repository
resume time r = do
  next ← set_state (resumed_state time) time (record_human_activation r)
  ok (emit "SUPERVISOR_RESUMED" none next)

-- The revision that `setObjective` replaces; there is none at revision 0.
unfoldable pub previous_revision : Objective → Result (Option Revision)
previous_revision objective =
    if objective.current_revision == 0
    then ok none
    else elim (find (λ item. item.revision == objective.current_revision) objective.history) [
      | none ↦ err "current objective revision is missing"
      | some item ↦ ok (some item)
    ]

abbrev pub is_unchanged : Option Revision → String → Bool
is_unchanged none new = false
is_unchanged (some previous) new = previous.objective == new

-- The change of the state while work is active: a running child is let finish.
unfoldable pub demand_reconciliation : Bool → String → State → State
demand_reconciliation running time state = record state {
  supervisor_state = if running then state.supervisor_state else "PAUSED";
  pause = record no_pause {
    active = true;
    after_current = running;
    reason = some "Objective revision requires active-work reconciliation.";
    changed_at = some time;
  };
  latest_unresolved_issue = some (
      reconciliation (record {
        classification =
            if running
            then "active_child_must_finish_before_reconciliation"
            else "active_work_requires_reconciliation";
        action = if running then "pause_after_current_child" else "pause_before_future_progression";
        task_id = state.active_task_id;
        attempt_id = state.active_attempt_id;
        pid = none;
      }));
  pending_next_action = some "Reconcile active work against the objective revision.";
}

-- The change of the state while no work is active.
unfoldable pub begin_revision : Bool → State → State
begin_revision requirement_driven state = record state {
  phase =
      if state.phase == "COMPLETE"
      then (if requirement_driven then "SELF_HOSTED" else "ACTIVE")
      else if state.phase == "INITIALIZED"
      then "ACTIVE"
      else state.phase;
  pending_next_action = some "Establish bounded work for objective revision.";
}

unfoldable pub with_revision : String → String → String → Option String → Objective → Objective
with_revision new actor time specification objective = record objective {
  current_revision = objective.current_revision + 1;
  history =
      objective.history
      ++ record {
        revision = objective.current_revision + 1;
        objective = new;
        specification_sha256 = specification;
        changed_by = actor;
        effective_at = time;
      }
        ∷ [];
}

-- The guards of `setObjective`, and the text that passes them.
unfoldable pub new_objective : Option String → Objective → Result String
new_objective none objective = err "objective set requires nonempty --text TEXT"
new_objective (some raw) objective = do
  throw_if (negb (nonempty (trim raw))) "objective set requires nonempty --text TEXT"
  previous ← previous_revision objective
  throw_if (is_unchanged previous (trim raw)) "objective is unchanged"
  ok (trim raw)

-- The end of `setObjective`, once the revision is written; `idle` says that no work was active.
unfoldable pub finish_objective : Bool → String → Repository → Result Repository
finish_objective idle time r =
    if idle
    then (do
      matrix ← effective_requirement_matrix r.bootstrap r.matrix r.specification
      next ← set_state (begin_revision (negb (is_none matrix))) time r
      ok (emit "OBJECTIVE_CHANGED" none next))
    else ok (emit "OBJECTIVE_CHANGED" none r)

-- The value of a step that may throw, with the repository that a throw leaves.
abbrev pub or_left : Repository → Result Repository → Result (Unit {0}) × Repository
or_left r (err e) = (err e, r)
or_left r (ok r') = (ok tt, r')

unfoldable pub write_objective :
    String
    → String
    → String
    → Bool
    → Result Repository
    → Repository
    → Result (Unit {0}) × Repository
write_objective new actor time idle (err e) r = (err e, r)
write_objective new actor time idle (ok r') r =
    let written = record r' {
      objective = with_revision new actor time r.specification r.objective;
    } in
    or_left written (finish_objective idle time written)

-- `setObjective`. The texts of a reason and of a next action leave out the numbers and identities
-- that the source puts in. A refusal after the revision is written leaves the revision, which is
-- why the repository comes back beside the error.
unfoldable pub set_objective :
    Option String → String → String → Repository → Result (Unit {0}) × Repository
set_objective text actor time r = elim (new_objective text r.objective) [
  | err e ↦ (err e, r)
  | ok new ↦
      let busy = truthy r.state.active_task_id in
      write_objective new actor time (negb busy)
        (if busy then set_state (demand_reconciliation (child_running r) time) time r else ok r) r
]

-- The command: the activation by a human is recorded first.
unfoldable pub objective_set :
    Option String → String → String → Repository → Result (Unit {0}) × Repository
objective_set text actor time r = set_objective text actor time (record_human_activation r)

unfoldable pub cutover : String → String → Repository → Result Repository
cutover first_task time r = do
  throw_if (negb (nonempty first_task)) "cutover requires --first-task TASK_ID"
  matrix ← effective_requirement_matrix r.bootstrap r.matrix r.specification
  throw_if (is_none matrix) "cutover requires effective requirements authority"
  throw_if (r.state.phase != "BOOTSTRAP") "cutover already occurred"
  next ←
      set_state
        (λ state. record state {
          phase = "SELF_HOSTED";
          pending_next_action = some "Run first post-cutover task.";
        })
        time r
  ok (emit "BOOTSTRAP_CUTOVER" none next)
