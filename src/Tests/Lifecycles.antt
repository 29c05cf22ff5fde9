-- ===== src/Tests/Lifecycles.antt =====
-- src/state.js and src/cli.js: a new repository, one that is paused and complete, and the commands.
use durable_supervisor.Base.{
  List, [], false, find, if◌then◌else◌, includes, is_none, none, ok, refl, some, true, ◌&&◌, ◌∷◌,
  ◌≡◌, ◌≢◌,
}
use durable_supervisor.Lifecycle.State.{
  State, Objective, Pause, no_pause, initial_state, initial_objective, objective_text,
  current_objective,
}
use durable_supervisor.Lifecycle.Requirements.{
  effective_requirement_matrix, checked_matrix, unsatisfied_requirements,
}
use durable_supervisor.Lifecycle.Repository.{Repository}
use durable_supervisor.Lifecycle.Validity.{objective_errors, state_errors, reports}
use durable_supervisor.Lifecycle.Controls.{pause, resume, child_running}
use durable_supervisor.Lifecycle.Recovery.{
  recover, no_active_work, active_attempt, recover_active, finish_recovery,
}
use durable_supervisor.Lifecycle.Laws.{
  pause_valid, resume_valid, initial_valid, Command, pausing, resuming, run_commands,
}
use durable_supervisor.Lifecycle.Recovered.{
  Recovers, recover_valid, recover-paused_complete_invalid, paused_complete,
}

abbrev pub objective : Objective
objective = record {
  schema = "opsle.durable-supervisor.objective/v2";
  objective_id = "objective-1";
  current_revision = 1;
  history =
      record {
        revision = 1;
        objective = "Ship it";
        specification_sha256 = none;
        changed_by = "operator";
        effective_at = "09:00";
      }
      ∷ [];
}

abbrev pub state : State
state = record {
  supervisor_state = "ACTIVE";
  phase = "ACTIVE";
  pause = no_pause;
  active_task_id = none;
  active_attempt_id = none;
  latest_accepted_task_id = none;
  latest_unresolved_issue = none;
  pending_next_action = some "Establish bounded work for objective revision 1.";
  processed_event_ids = [];
  updated_at = "09:00";
}

abbrev repository : Repository
repository = record {
  state = state;
  objective = objective;
  supervisor = record {
    repository = "/repo";
    supervisor_id = "supervisor-1";
    generation = 1;
    authority_status = "AUTHORITATIVE";
    recovered_at = none;
  };
  bootstrap = none;
  matrix = none;
  specification = none;
  tasks = [];
  attempts = [];
  claims = [];
  claim_index = none;
  runners = [];
  events = [];
}

abbrev held : Pause
held = record no_pause { active = true; reason = some "lunch"; changed_at = some "09:30" }

abbrev finished : Repository
finished = record repository {
  state = record state {
    supervisor_state = "PAUSED";
    phase = "COMPLETE";
    pause = held;
    pending_next_action = none;
  };
}

no_errors : state_errors state objective none ≡ []
unfolding state_errors reports includes current_objective find unsatisfied_requirements
no_errors = refl

finished_errors : state_errors finished.state objective none ≡ []
unfolding state_errors reports includes current_objective find unsatisfied_requirements
finished_errors = refl

no_matrix : effective_requirement_matrix none none none ≡ ok none
unfolding effective_requirement_matrix checked_matrix
no_matrix = refl

pause_valid_example :
    (q : Repository) × (pause false "lunch" "09:30" repository ≡ ok q)
    × (state_errors q.state q.objective none ≡ [])
    × (q.state.pause.active ≡ true)
    × (q.state.pause.after_current ≡ (false && child_running repository))
    × (q.state.supervisor_state ≡ (
        if false && child_running repository then repository.state.supervisor_state else "PAUSED"))
    × (q.state.active_attempt_id ≡ none)
    × (q.objective ≡ objective)
pause_valid_example = pause_valid false "lunch" "09:30" repository none no_errors

resume_valid_example :
    (q : Repository) × (resume "10:00" finished ≡ ok q)
    × (state_errors q.state q.objective none ≡ [])
    × (q.state.supervisor_state ≡ "ACTIVE")
    × (q.state.pause.active ≡ false)
    × (q.state.phase ≡ "COMPLETE")
    × (q.state.active_attempt_id ≡ none)
    × (q.objective ≡ objective)
resume_valid_example = resume_valid "10:00" finished none finished_errors

abbrev stop_and_go : List Command
stop_and_go = pausing true "lunch" "12:00" ∷ resuming "13:00" ∷ pausing false "night" "22:00" ∷ []

initial_valid_example :
    let text = objective_text (some " Ship it ") in
    let first = initial_objective "objective-1" "operator" "09:00" text in
    let start = record repository { state = initial_state "09:00" text; objective = first } in
    (objective_errors first ≡ [])
    × (state_errors (initial_state "09:00" text) first none ≡ [])
    × (q : Repository) × (run_commands stop_and_go start ≡ ok q)
    × (state_errors q.state q.objective none ≡ [])
    × (q.objective ≡ first)
initial_valid_example =
    initial_valid "objective-1" "operator" "09:00" (some " Ship it ") none repository stop_and_go

quiet : paused_complete repository.state none ≡ false
unfolding unsatisfied_requirements
quiet = refl

done : paused_complete finished.state none ≡ true
unfolding unsatisfied_requirements
done = refl

idle : is_none (active_attempt repository) ≡ true
unfolding active_attempt
idle = refl

recovered_run :
    recover (λ pid. false) "event-1" "11:00" repository
    ≡ (ok no_active_work, finish_recovery none "11:00" repository)
unfolding recover effective_requirement_matrix checked_matrix active_attempt recover_active
recovered_run = refl

recover_valid_example : Recovers repository (finish_recovery none "11:00" repository) none
recover_valid_example =
    recover_valid (λ pid. false) "event-1" "11:00" repository
      (finish_recovery none "11:00" repository) none no_active_work no_matrix no_errors quiet
      (λ found. cc idle) recovered_run

recover-paused_complete_invalid_example :
    ((recover (λ pid. false) "event-1" "11:00" finished).0 ≡ ok no_active_work)
    × (state_errors
          (recover (λ pid. false) "event-1" "11:00" finished).1.state
          (recover (λ pid. false) "event-1" "11:00" finished).1.objective
          none
        ≢ [])
recover-paused_complete_invalid_example =
    recover-paused_complete_invalid (λ pid. false) "event-1" "11:00" finished none no_matrix done
      refl refl
