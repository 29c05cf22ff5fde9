-- ===== src/Lifecycle/Requirements.antt =====
-- src/state.js: the requirements matrix that is in effect, and the next action that follows from it
-- (`effectiveRequirementMatrix`, `unsatisfiedRequirements`, `derivePendingNextAction`,
-- `setRequirements`).
use mathlib.Core.Option
use durable_supervisor.Base.{
  Bool, List, Option, Result, String, [], any, distinct, err, if◌then◌else◌, includes, is_empty,
  is_none, is_sha256, keep, map, negb, none, nonempty, ok, or_throw, some, throw_if, true, truthy,
  ◌!=◌, ◌&&◌, ◌++◌, ◌==◌, ◌>>=◌, ◌>>◌, ◌||◌, ◌∷◌, string_eq,
}

pub record Bootstrap : Type 0 where
  pub schema : String
  pub mode : Option String

pub record Requirement : Type 0 where
  pub id : String
  pub state : String
  pub evidence : List String
  pub justification : Option String
  pub updated_at : Option String

pub record Matrix : Type 0 where
  pub schema : String
  pub specification : String
  pub specification_sha256 : String
  pub allowed_states : List String
  pub requirements : List Requirement

abbrev pub bootstrap_schema : String
bootstrap_schema = "opsle.durable-supervisor.bootstrap/v1"

abbrev pub satisfied_requirement_states : List String
satisfied_requirement_states =
    "VERIFIED" ∷ "DEFERRED_WITH_JUSTIFICATION" ∷ "NOT_APPLICABLE_WITH_JUSTIFICATION" ∷ []

abbrev pub next_unsatisfied_requirement_action : String
next_unsatisfied_requirement_action = "Select the next unsatisfied requirement slice."

abbrev pub evaluate_action : String
evaluate_action = "Evaluate objective completion against accepted task evidence."

-- The digest of `.opsle/specification.md`, if the file is there, stands for the file.
unfoldable pub matrix_malformed : Option String → Matrix → Bool
matrix_malformed specification matrix =
    matrix.schema != "opsle.durable-supervisor.requirements/v1"
    || matrix.specification != ".opsle/specification.md"
    || negb (is_sha256 matrix.specification_sha256)
    || elim specification [ none ↦ true | some digest ↦ matrix.specification_sha256 != digest ]
    || is_empty matrix.allowed_states
    || any (λ item. negb (nonempty item.id) || negb (includes matrix.allowed_states item.state))
        matrix.requirements
    || negb (distinct (map (λ item. item.id) matrix.requirements))

unfoldable pub checked_matrix : Option String → Option Matrix → Result (Option Matrix)
checked_matrix specification none = ok none
checked_matrix specification (some matrix) =
    throw_if (matrix_malformed specification matrix) "malformed effective requirements matrix"
    >> ok (some matrix)

-- The two requirement modes of a bootstrap record.
pub data Mode : Type 0 where
  no_matrix with_matrix unknown : Mode

unfoldable pub bootstrap_mode : Bootstrap → Mode
bootstrap_mode bootstrap =
    if bootstrap.schema != bootstrap_schema then unknown else elim bootstrap.mode [
      | none ↦ unknown
      | some mode ↦
          if mode == "none" then no_matrix else if mode == "matrix" then with_matrix else unknown
    ]

unfoldable pub effective_requirement_matrix :
    Option Bootstrap → Option Matrix → Option String → Result (Option Matrix)
effective_requirement_matrix none matrix specification = checked_matrix specification matrix
effective_requirement_matrix (some bootstrap) matrix specification =
    elim (bootstrap_mode bootstrap) [
      | unknown ↦ err "contradictory requirements authority"
      | no_matrix ↦ ok none
      | with_matrix ↦ elim matrix [
        | none ↦ err "requirement-driven authority is missing its matrix"
        | some m ↦ checked_matrix specification (some m)
      ]
    ]

unfoldable pub unsatisfied_requirements : Option Matrix → List Requirement
unsatisfied_requirements none = []
unsatisfied_requirements (some matrix) =
    keep (λ item. negb (includes satisfied_requirement_states item.state)) matrix.requirements

-- What `derivePendingNextAction` reads of the state.
pub record Progress : Type 0 where
  pub active_task_id : Option String
  pub active_attempt_id : Option String
  pub paused : Bool
  pub phase : String

-- `fallback == null || fallback === NEXT_UNSATISFIED_REQUIREMENT_ACTION`
abbrev pub is_open_action : Option String → Bool
is_open_action none = true
is_open_action (some action) = action == next_unsatisfied_requirement_action

unfoldable pub derive_pending_next_action : Progress → Option Matrix → Option String → Option String
derive_pending_next_action p matrix fallback =
    if truthy p.active_task_id || truthy p.active_attempt_id
    then fallback
    else if p.paused
    then some "Awaiting operator objective."
    else elim matrix [
      | none ↦
          if p.phase == "COMPLETE"
          then none
          else if is_open_action fallback
          then some evaluate_action
          else fallback
      | some m ↦
          let unsatisfied = unsatisfied_requirements (some m) in
          if p.phase == "COMPLETE" && is_empty unsatisfied
          then none
          else if is_empty unsatisfied && is_open_action fallback
          then some evaluate_action
          else if is_none fallback && negb (is_empty unsatisfied)
          then some next_unsatisfied_requirement_action
          else fallback
    ]

unfoldable pub unite : List String → List String → List String
unite kept [] = kept
unite kept (v ∷ more) = unite (if includes kept v then kept else kept ++ v ∷ []) more

-- `[...new Set(values)]`
unfoldable pub dedupe : List String → List String
unfolding unite
dedupe values = unite [] values

-- The requirement of the identity, replaced; `none` if there is none.
unfoldable pub set_requirement :
    String
    → String
    → List String
    → Option String
    → String
    → List Requirement
    → Option (List Requirement)
set_requirement id state evidence justification time [] = none
set_requirement id state evidence justification time (r ∷ rest) =
    if r.id == id
    then some (
        record r {
          state = state;
          evidence = dedupe (r.evidence ++ evidence);
          justification = justification;
          updated_at = some time;
        }
        ∷ rest)
    else Option.map (λ changed. r ∷ changed)
        (set_requirement id state evidence justification time rest)

set_all :
    List String
    → String
    → List String
    → Option String
    → String
    → List Requirement
    → Result (List Requirement)
set_all [] state evidence justification time rs = ok rs
set_all (id ∷ ids) state evidence justification time rs = do
  changed ← or_throw (set_requirement id state evidence justification time rs) "unknown requirement"
  set_all ids state evidence justification time changed

-- `setRequirements` on the effective matrix: the matrix that is written, if any is.
unfoldable pub set_requirements :
    Option Matrix
    → List String
    → String
    → List String
    → Option String
    → String
    → Result (Option Matrix)
unfolding set_all
set_requirements none ids state evidence justification time =
    throw_if (negb (is_empty ids)) "repository has no effective requirements matrix" >> ok none
set_requirements (some matrix) ids state evidence justification time = do
  throw_if (negb (includes matrix.allowed_states state)) "invalid requirement state"
  changed ← set_all ids state evidence justification time matrix.requirements
  ok (some (record matrix { requirements = changed }))
