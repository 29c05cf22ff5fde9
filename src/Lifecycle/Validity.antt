-- ===== src/Lifecycle/Validity.antt =====
-- src/state.js, `validateDurableState`: the errors that it finds in the objective, the supervisor and
-- the lifecycle state, in the order in which it lists them. The clauses on requirements, policy and
-- the other directories of `.opsle` are not part of these lists.
use durable_supervisor.Lifecycle.State.{
  State, Objective, Supervisor, Revision, current_objective, objective_schema,
  valid_supervisor_states,
}
use durable_supervisor.Lifecycle.Requirements.{Matrix, unsatisfied_requirements}
use durable_supervisor.Base.{
  Bool, List, Option, String, [], false, if◌then◌else◌, includes, is_empty, is_none, negb, nonempty,
  refl, trim, true, truthy, ℕ, ◌!=◌, ◌&&◌, ◌++◌, ◌+◌, ◌==◌, ◌||◌, ◌∷◌, ◌≡◌, bool_eq, nat_eq,
  option_nat_eq, string_eq,
}

-- `if (test) errors.push(message)`, one after the other.
unfoldable pub reports : List (Bool × String) → List String
reports [] = []
reports ((test, message) ∷ rest) = if test then message ∷ reports rest else reports rest

-- The revisions from `index` on: numbered in order, and with text.
unfoldable pub revision_checks : ℕ → List Revision → List (Bool × String)
revision_checks index [] = []
revision_checks index (r ∷ rest) =
    (r.revision != index + 1, "objective revision ordering mismatch")
    ∷ (negb (nonempty (trim r.objective)), "objective revision must contain text")
    ∷ revision_checks (index + 1) rest

unfoldable pub last_revision : List Revision → ℕ
last_revision [] = 0
last_revision (r ∷ []) = r.revision
last_revision (r ∷ q ∷ rest) = last_revision (q ∷ rest)

unfoldable pub objective_errors : Objective → List String
objective_errors objective =
    if is_empty objective.history
    then reports (
        (
          objective.current_revision != 0 || objective.schema != objective_schema,
          "empty objective history requires neutral objective schema",
        )
        ∷ [])
    else reports (revision_checks 0 objective.history)
      ++ reports (
          (
            objective.current_revision != last_revision objective.history,
            "current objective revision must be the latest history revision",
          )
          ∷ [])

unfoldable pub supervisor_errors : String → Supervisor → List String
supervisor_errors root supervisor = reports (
    (supervisor.repository != root, "repository identity mismatch")
    ∷ (supervisor.authority_status != "AUTHORITATIVE", "no authoritative supervisor")
    ∷ [])

abbrev pub state_checks : State → Objective → Option Matrix → List (Bool × String)
state_checks state objective matrix =
    (negb (includes valid_supervisor_states state.supervisor_state), "invalid supervisor state")
    ∷ (
      is_none state.active_task_id != is_none state.active_attempt_id,
      "active task and attempt must be present together",
    )
    ∷ (
      state.supervisor_state == "PAUSED" && negb state.pause.active,
      "paused supervisor requires active pause authority",
    )
    ∷ (
      negb state.pause.active && (state.pause.after_current || state.supervisor_state == "PAUSED"),
      "inactive pause authority is contradictory",
    )
    ∷ (
      state.pause.after_current && negb (truthy state.active_attempt_id),
      "pause-after-current requires active work",
    )
    ∷ (
      state.phase == "INITIALIZED" && negb (is_none (current_objective objective)),
      "initialized phase contradicts a current objective",
    )
    ∷ (
      state.phase != "INITIALIZED" && is_none (current_objective objective),
      "active lifecycle requires a current objective",
    )
    ∷ (
      state.phase == "COMPLETE"
          && (truthy state.active_task_id || negb (is_none state.latest_unresolved_issue)),
      "complete state cannot retain active work or unresolved issues",
    )
    ∷ (
      state.phase == "COMPLETE"
          && is_empty (unsatisfied_requirements matrix)
          && negb (is_none state.pending_next_action),
      "complete state with no unsatisfied requirements must not have a pending next action",
    )
    ∷ []

unfoldable pub state_errors : State → Objective → Option Matrix → List String
state_errors state objective matrix = reports (state_checks state objective matrix)

-- All the errors of the lifecycle's own records.
unfoldable pub lifecycle_errors :
    String → Supervisor → Objective → State → Option Matrix → List String
lifecycle_errors root supervisor objective state matrix =
    objective_errors objective
    ++ supervisor_errors root supervisor
    ++ state_errors state objective matrix

abbrev pub NoneHolds : List (Bool × String) → Type 0
NoneHolds [] = Unit {0}
NoneHolds ((test, message) ∷ rest) = (test ≡ false) × NoneHolds rest

pub reports-nil : (checks : List (Bool × String)) → reports checks ≡ [] → NoneHolds checks
unfolding reports
reports-nil [] h = tt
reports-nil ((true, message) ∷ rest) h = cc
reports-nil ((false, message) ∷ rest) h = (refl, reports-nil rest h)

pub nil-reports : (checks : List (Bool × String)) → NoneHolds checks → reports checks ≡ []
unfolding reports
nil-reports [] h = refl
nil-reports ((true, message) ∷ rest) h = cc (h.0)
nil-reports ((false, message) ∷ rest) h = nil-reports rest h.1
