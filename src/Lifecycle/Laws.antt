-- ===== src/Lifecycle/Laws.antt =====
-- The operator's commands keep the lifecycle records valid, by the validator of the program itself.
use durable_supervisor.Lifecycle.State.{
  State, initial_objective, initial_state, objective_text, current_objective, Objective,
  valid_supervisor_states, update_state,
}
use durable_supervisor.Lifecycle.Requirements.{Matrix}
use durable_supervisor.Lifecycle.Validity.{
  state_errors, objective_errors, reports, revision_checks, last_revision, reports-nil,
  state_checks, NoneHolds, nil-reports,
}
use durable_supervisor.Lifecycle.Repository.{Repository, emit}
use durable_supervisor.Lifecycle.Controls.{
  pause, resume, resumed_state, child_running, record_human_activation, paused_state,
}
use durable_supervisor.Base.{
  Bool, Bool-cases, List, Option, Result, String, [], arith, false, find, if◌then◌else◌, includes,
  inl, inr, none, nonempty, ok, refl, some, trim, trim-words, true, truthy, ◌&&◌, ◌>>=◌, ◌∙◌, ◌∷◌,
  ◌≡◌, ◌⊎◌, string_eq, bool_eq,
}

child_running-truthy :
    (r : Repository) → child_running r ≡ true → truthy r.state.active_attempt_id ≡ true
unfolding child_running
child_running-truthy r h = ground arith

-- The validity of the state as the tests of the validator, all false.
abbrev pub Valid : State → Objective → Option Matrix → Type 0
Valid s o m = NoneHolds (state_checks s o m)

abbrev at_time : String → State → State
at_time time s = record s { updated_at = time }

paused_state-Valid :
    (deferred : Bool) (reason time : String) (s : State) (o : Objective) (m : Option Matrix)
    → (deferred ≡ true → truthy s.active_attempt_id ≡ true)
    → Valid s o m
    → Valid (at_time time (paused_state deferred reason time s)) o m
unfolding paused_state includes
paused_state-Valid true reason time s o m child v = ground (arith, child refl)
paused_state-Valid false reason time s o m child v = ground arith

update_state-ok :
    (patch : State → State) (time : String) (s : State)
    → includes valid_supervisor_states (patch s).supervisor_state ≡ true
    → update_state patch time s ≡ ok (at_time time (patch s))
unfolding update_state
update_state-ok patch time s known = rw known refl

deferred_child :
    (after : Bool) (r : Repository)
    → (after && child_running r) ≡ true
    → truthy r.state.active_attempt_id ≡ true
deferred_child after r h = child_running-truthy r (ground arith)

Valid-known :
    (s : State) (o : Objective) (m : Option Matrix)
    → Valid s o m
    → includes valid_supervisor_states s.supervisor_state ≡ true
Valid-known s o m v = ground arith

-- `pause` succeeds on every repository whose lifecycle is valid, keeps it valid, and keeps the
-- objective and the active work; the supervisor is paused at once unless the operator asked for
-- after-current and the child is running, in which case its state stays and the pause is pending.
pub pause_valid :
    (after : Bool) (reason time : String) (r : Repository) (m : Option Matrix)
    → state_errors r.state r.objective m ≡ []
    → (q : Repository) × (pause after reason time r ≡ ok q)
      × (state_errors q.state q.objective m ≡ [])
      × (q.state.pause.active ≡ true)
      × (q.state.pause.after_current ≡ (after && child_running r))
      × (q.state.supervisor_state
          ≡ (if after && child_running r then r.state.supervisor_state else "PAUSED"))
      × (q.state.active_attempt_id ≡ r.state.active_attempt_id)
      × (q.objective ≡ r.objective)
unfolding pause state_errors paused_state
pause_valid after reason time r m h =
    let deferred = after && child_running r in
    let v = reports-nil (state_checks r.state r.objective m) h in
    let next = at_time time (paused_state deferred reason time r.state) in
    let v' =
      paused_state-Valid deferred reason time r.state r.objective m (deferred_child after r) v in
    let run =
      update_state-ok (paused_state deferred reason time) time r.state
        (Valid-known next r.objective m v') in
    (
      emit "SUPERVISOR_PAUSED" (if child_running r then r.state.active_attempt_id else none)
          (record (record_human_activation r) { state = next }),
      rw run refl,
      nil-reports (state_checks next r.objective m) v',
      refl,
      refl,
      refl,
      refl,
      refl,
    )

resumed_state-Valid :
    (time : String) (s : State) (o : Objective) (m : Option Matrix)
    → Valid s o m
    → Valid (at_time time (resumed_state time s)) o m
unfolding resumed_state includes
resumed_state-Valid time s o m v = ground arith

-- `resume` succeeds on every repository whose lifecycle is valid, keeps it valid, lifts the pause, one
-- that is pending included, and keeps the phase, the objective and the active work.
pub resume_valid :
    (time : String) (r : Repository) (m : Option Matrix)
    → state_errors r.state r.objective m ≡ []
    → (q : Repository) × (resume time r ≡ ok q)
      × (state_errors q.state q.objective m ≡ [])
      × (q.state.supervisor_state ≡ "ACTIVE")
      × (q.state.pause.active ≡ false)
      × (q.state.phase ≡ r.state.phase)
      × (q.state.active_attempt_id ≡ r.state.active_attempt_id)
      × (q.objective ≡ r.objective)
unfolding resume state_errors resumed_state
resume_valid time r m h =
    let v = reports-nil (state_checks r.state r.objective m) h in
    let next = at_time time (resumed_state time r.state) in
    let v' = resumed_state-Valid time r.state r.objective m v in
    let run =
      update_state-ok (resumed_state time) time r.state (Valid-known next r.objective m v') in
    (
      emit "SUPERVISOR_RESUMED" none (record (record_human_activation r) { state = next }),
      rw run refl,
      nil-reports (state_checks next r.objective m) v',
      refl,
      refl,
      refl,
      refl,
      refl,
    )

-- A given text is taken as its words, and as none if it has none.
objective_text-cases :
    (raw : Option String)
    → (objective_text raw ≡ none)
      ⊎ ((t : String) × (objective_text raw ≡ some t) × (nonempty (trim t) ≡ true))
unfolding objective_text
objective_text-cases none = inl refl
objective_text-cases (some raw) = elim (Bool-cases (nonempty (trim raw))) [
  | inl words ↦ inr (trim raw, rw words refl, trim-words raw words)
  | inr blank ↦ inl (rw blank refl)
]

initial_records_valid :
    (objective_id actor time : String) (raw : Option String) (m : Option Matrix)
    → let text = objective_text raw in
      let objective = initial_objective objective_id actor time text in
      (objective_errors objective ≡ []) × (state_errors (initial_state time text) objective m ≡ [])
unfolding state_errors initial_state initial_objective objective_errors reports includes
    revision_checks last_revision current_objective find
initial_records_valid objective_id actor time raw m = elim (objective_text-cases raw) [
  | inl none_given ↦ rw none_given (refl, refl)
  | inr (t, given, words) ↦ rw given (rw words refl, refl)
]

-- The commands by which an operator stops and starts a supervisor, and a run of them.
pub data Command : Type 0 where
  pausing : Bool → String → String → Command
  resuming : String → Command

unfoldable pub run_commands : List Command → Repository → Result Repository
run_commands [] r = ok r
run_commands (pausing after reason time ∷ more) r = pause after reason time r >>= run_commands more
run_commands (resuming time ∷ more) r = resume time r >>= run_commands more

run_commands_valid :
    (commands : List Command) (r : Repository) (m : Option Matrix)
    → state_errors r.state r.objective m ≡ []
    → (q : Repository) × (run_commands commands r ≡ ok q)
      × (state_errors q.state q.objective m ≡ [])
      × (q.objective ≡ r.objective)
unfolding run_commands
run_commands_valid [] r m h = (r, refl, h, refl)
run_commands_valid (pausing after reason time ∷ more) r m h =
    let (p, run, valid, _, _, _, _, same) = pause_valid after reason time r m h in
    let (q, runs, valid', same') = run_commands_valid more p m valid in
    (q, rw run runs, valid', same' ∙ same)
run_commands_valid (resuming time ∷ more) r m h =
    let (p, run, valid, _, _, _, _, same) = resume_valid time r m h in
    let (q, runs, valid', same') = run_commands_valid more p m valid in
    (q, rw run runs, valid', same' ∙ same)

-- What `initialize` writes has no error by the program's validator, whatever text it is given, none or
-- a blank one included, and with any matrix or none; and every sequence of pauses and resumes from
-- there succeeds, and ends with that objective and a lifecycle without an error.
pub initial_valid :
    (objective_id actor time : String) (raw : Option String) (m : Option Matrix) (r : Repository)
    (commands : List Command)
    → let text = objective_text raw in
      let objective = initial_objective objective_id actor time text in
      let first = record r { state = initial_state time text; objective = objective } in
      (objective_errors objective ≡ [])
      × (state_errors (initial_state time text) objective m ≡ [])
      × (q : Repository) × (run_commands commands first ≡ ok q)
      × (state_errors q.state q.objective m ≡ [])
      × (q.objective ≡ objective)
initial_valid objective_id actor time raw m r commands =
    let text = objective_text raw in
    let first = record r {
      state = initial_state time text;
      objective = initial_objective objective_id actor time text;
    } in
    let (objective, state) = initial_records_valid objective_id actor time raw m in
    let (q, run, valid, same) = run_commands_valid commands first m state in
    (objective, state, q, run, valid, same)
