-- ===== src/Evaluation/Steps.antt =====
-- src/cli.js, `reconcileEvaluation`: the projections of an evaluation, one after the other.
use Prim.Native.String.{◌++◌ as ◌<>◌}
use mathlib.Core.Option
use durable_supervisor.Base.{
  Bool, List, Option, Result, String, [], false, if◌then◌else◌, includes, insert, is_empty, keep,
  leb, length, lookup, negb, none, ok, or_throw, some, throw_if, ◌!=◌, ◌&&◌, ◌++◌, ◌==◌, ◌>>=◌,
  ◌>>◌, ◌||◌, ◌∷◌, string_eq, option_string_eq, texts_eq,
}
use durable_supervisor.Lifecycle.State.{State, Pause, note}
use durable_supervisor.Lifecycle.Requirements.{
  Matrix, Requirement, dedupe, derive_pending_next_action, effective_requirement_matrix,
  next_unsatisfied_requirement_action, satisfied_requirement_states,
}
use durable_supervisor.Lifecycle.Recovery.{progress}
use durable_supervisor.Evaluation.Records.{
  Attempt, AttemptEvaluation, Records, Task, Verdict, same_evaluation, same_verdict,
}

-- `reconcileDecisionLog`
unfoldable pub reconcile_decision_log : Verdict → List Verdict → Result (List Verdict)
reconcile_decision_log d log =
    let matches = keep (λ entry. entry.decision_id == d.decision_id) log in
    throw_if (leb 2 (length matches)) "duplicate supervisor decision projection" >> elim matches [
      | [] ↦ ok (log ++ d ∷ [])
      | entry ∷ more ↦
          throw_if (negb (same_verdict entry d)) "conflicting supervisor decision projection"
          >> ok log
    ]

-- A file of a directory, brought to the value that a function makes of it.
unfoldable pub project_file {ℓ} :
    {A : Type ℓ} → String → (A → Result A) → List (String × A) → Result (List (String × A))
project_file name project files = do
  current ← or_throw (lookup name files) "ENOENT"
  projected ← project current
  ok (insert name projected files)

abbrev pub attempt_evaluation : Verdict → AttemptEvaluation
attempt_evaluation d = record {
  decision_id = d.decision_id;
  decision = d.decision;
  rationale = d.rationale;
  evaluated_at = d.time;
}

abbrev other_evaluation : Verdict → Option AttemptEvaluation → Bool
other_evaluation d none = false
other_evaluation d (some e) = negb (same_evaluation e (attempt_evaluation d))

unfoldable pub project_attempt : Verdict → Attempt → Result Attempt
project_attempt d current =
    throw_if (other_evaluation d current.supervisor_evaluation)
      "conflicting attempt evaluation projection"
    >> ok (record current { supervisor_evaluation = some (attempt_evaluation d) })

abbrev pub terminal_task_state : Verdict → String
terminal_task_state d = if d.decision == "ACCEPT" then "ACCEPTED" else "REJECTED"

unfoldable pub project_task : Verdict → Task → Result Task
project_task d current =
    throw_if
      (negb
        (includes (terminal_task_state d ∷ "AWAITING_SUPERVISOR" ∷ "COMPLETED" ∷ []) current.state))
      "conflicting terminal task projection"
    >> ok (record current { state = terminal_task_state d })

-- What an accepted decision makes of a requirement.
unfoldable pub accept_requirement : Verdict → Requirement → Requirement
accept_requirement d r =
    let later = includes satisfied_requirement_states r.state in
    let next_evidence = dedupe (r.evidence ++ d.evidence_references) in
    let changed = next_evidence != r.evidence in
    record r {
      state = if later then r.state else "IMPLEMENTED";
      justification = if later then r.justification else none;
      evidence = if changed then next_evidence else r.evidence;
      updated_at =
          if negb later && (r.state != "IMPLEMENTED" || changed) then some d.time else r.updated_at;
    }

-- The first requirement of the identity, updated; `none` if there is none.
unfoldable pub update_first :
    (Requirement → Requirement) → String → List Requirement → Option (List Requirement)
update_first f id [] = none
update_first f id (r ∷ rest) =
    if r.id == id
    then some (f r ∷ rest)
    else Option.map (λ changed. r ∷ changed) (update_first f id rest)

unfoldable pub update_each :
    (Requirement → Requirement) → List String → List Requirement → Result (List Requirement)
update_each f [] rs = ok rs
update_each f (id ∷ ids) rs = do
  changed ← or_throw (update_first f id rs) "unknown requirement"
  update_each f ids changed

-- `reconcileAcceptedRequirements`
unfoldable pub reconcile_accepted_requirements :
    Verdict → List String → Option Matrix → Result (Option Matrix)
reconcile_accepted_requirements d ids matrix =
    if d.decision != "ACCEPT" || is_empty ids then ok matrix else do
      m ← or_throw matrix "ENOENT"
      changed ← update_each (accept_requirement d) ids m.requirements
      ok (some (record m { requirements = changed }))

abbrev pub owns_active_task : String → String → State → Bool
owns_active_task task_id attempt_id s =
    s.active_task_id == some task_id && s.active_attempt_id == some attempt_id

abbrev pub applies_pause : Verdict → Pause → Bool
applies_pause d pause =
    pause.active && (pause.after_current || pause.applied_decision_id == some d.decision_id)

abbrev pub or_else : Option String → String → Option String
or_else none value = some value
or_else (some old) value = some old

unfoldable pub applied_pause : Verdict → Pause → Pause
applied_pause d pause =
    if applies_pause d pause
    then record pause {
      after_current = false;
      applied_at = or_else pause.applied_at d.time;
      applied_decision_id = some d.decision_id;
    }
    else pause

-- The lifecycle state without the active task, before the next action is derived.
unfoldable pub evaluated_state : String → Verdict → State → State
evaluated_state task_id d s = record s {
  supervisor_state = if applies_pause d s.pause then "PAUSED" else s.supervisor_state;
  pause = applied_pause d s.pause;
  active_task_id = none;
  active_attempt_id = none;
  latest_accepted_task_id =
      if d.decision == "ACCEPT" then some task_id else s.latest_accepted_task_id;
  latest_unresolved_issue =
      if d.decision == "ACCEPT"
      then none
      else some (note ("Supervisor rejected " <> task_id <> ": " <> d.rationale));
}

abbrev pub set_next_action : String → Option String → State → State
set_next_action time action s = record s { pending_next_action = action; updated_at = time }

unfoldable pub project_state : String → String → Verdict → Records → Result State
project_state task_id attempt_id d r =
    if negb (owns_active_task task_id attempt_id r.state)
    then ok r.state
    else let next = evaluated_state task_id d r.state in
      if d.decision == "ACCEPT"
      then (effective_requirement_matrix r.bootstrap r.matrix r.specification >>= λ matrix. ok (
          set_next_action d.time
            (derive_pending_next_action (progress next) matrix
              (some next_unsatisfied_requirement_action))
            next))
      else ok (set_next_action d.time (some ("Create corrective work for " <> task_id <> ".")) next)
