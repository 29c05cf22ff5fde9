-- ===== src/Evaluation/StepLaws.antt =====
-- src/cli.js, `reconcileEvaluation`: each projection of a decision leaves its record as the decision
-- says, and changes nothing when it is made again.
use durable_supervisor.Base.{
  >>=-eq-ok, Bool-cases, List, Option, Result, String, [], ap, beq_refl, false, includes, inl, inr,
  insert, keep, leb, length, lookup, lookup-insert_self, negb, negb-false, ok, ok_inj, or_throw-ok,
  refl, some, some_inj, string_eq, sym, throw_if-ok, true, ◌++◌, ◌==◌, ◌∙◌, ◌∷◌, ◌≡◌, ◌⊎◌,
}
use durable_supervisor.Lifecycle.State.{State}
use durable_supervisor.Lifecycle.Requirements.{effective_requirement_matrix}
use durable_supervisor.Evaluation.Records.{
  Attempt, Records, Task, Verdict, same_evaluation_refl, same_verdict, same_verdict_refl,
  same_verdict_sound,
}
use durable_supervisor.Evaluation.EventLaws.{keep-append, two_few}
use durable_supervisor.Evaluation.Steps.{
  attempt_evaluation, evaluated_state, owns_active_task, project_attempt, project_file,
  project_state, project_task, reconcile_decision_log, set_next_action, terminal_task_state,
}

-- The decision stands in the log once.
abbrev pub IsDecided : Verdict → List Verdict → Type 0
IsDecided d log = keep (λ entry. entry.decision_id == d.decision_id) log ≡ d ∷ []

IsDecided-lines :
    (d : Verdict) (log after lines : List Verdict)
    → keep (λ entry. entry.decision_id == d.decision_id) log ≡ lines
    → reconcile_decision_log d log ≡ ok after
    → IsDecided d after
unfolding reconcile_decision_log keep
IsDecided-lines d log after [] is_lines h = rw (← ok_inj {a = log ++ d ∷ []} (rw is_lines at h)) (
    keep-append (λ entry. entry.decision_id == d.decision_id) log (d ∷ [])
    ∙ rw (is_lines, beq_refl d.decision_id) refl)
IsDecided-lines d log after (m ∷ []) is_lines h =
    let (equal, h₁) = throw_if-ok (negb (same_verdict m d)) _ (ok log) (rw is_lines at h) in
    rw (← ok_inj h₁) (is_lines ∙ ap (λ z. z ∷ []) (same_verdict_sound m d (negb-false _ equal)))
IsDecided-lines d log after (m ∷ n ∷ more) is_lines h =
    let (few, _) = throw_if-ok (leb 2 (length (m ∷ n ∷ more))) _ _ (rw is_lines at h) in
    absurd (two_few (length more) few)

pub reconcile_decision_log-IsDecided :
    (d : Verdict) (log after : List Verdict)
    → reconcile_decision_log d log ≡ ok after
    → IsDecided d after
reconcile_decision_log-IsDecided d log after h = IsDecided-lines d log after _ refl h

pub IsDecided-reconcile :
    (d : Verdict) (log : List Verdict) → IsDecided d log → reconcile_decision_log d log ≡ ok log
unfolding reconcile_decision_log
IsDecided-reconcile d log h = rw (h, same_verdict_refl d) refl

-- Writing what a file of a directory already holds changes nothing.
insert_held {ℓ} :
    {A : Type ℓ} (name : String) (a : A) (files : List (String × A))
    → lookup name files ≡ some a
    → insert name a files ≡ files
unfolding insert lookup
insert_held name a [] h = cc
insert_held name a (file ∷ more) h = elim (Bool-cases (file.0 == name)) [
  | inl same ↦
      let held = some_inj {a = file.1} (rw same at h) in
      let is_name = (string_eq.agrees file.0 name).0 same in
      rw same (λ i. (sym is_name i, sym held i) ∷ more)
  | inr other ↦ rw (other, insert_held name a more (rw other at h)) refl
]

-- A projection of a file, and what is in the file after it.
pub project_file-ok {ℓ} :
    {A : Type ℓ} (name : String) (project : A → Result A) (files after : List (String × A))
    → project_file name project files ≡ ok after
    → (a b : A) × (lookup name files ≡ some a)
      × (project a ≡ ok b)
      × (insert name b files ≡ after)
      × (lookup name after ≡ some b)
unfolding project_file
project_file-ok name project files after h =
    let (a, found, h₁) = or_throw-ok (lookup name files) _ _ h in
    let (b, made, h₂) = >>=-eq-ok (project a) _ h₁ in
    (a, b, found, made, ok_inj h₂, rw (← ok_inj h₂) (lookup-insert_self name b files))

pub project_file_held {ℓ} :
    {A : Type ℓ} (name : String) (project : A → Result A) (b : A) (files : List (String × A))
    → lookup name files ≡ some b
    → project b ≡ ok b
    → project_file name project files ≡ ok files
unfolding project_file
project_file_held name project b files found fixed =
    rw (found, fixed, insert_held name b files found) refl

pub project_attempt-ok :
    (d : Verdict) (a b : Attempt)
    → project_attempt d a ≡ ok b
    → b.supervisor_evaluation ≡ some (attempt_evaluation d)
unfolding project_attempt
project_attempt-ok d a b h =
    let (_, h₁) =
      throw_if-ok _ _ (ok (record a { supervisor_evaluation = some (attempt_evaluation d) })) h in
    ap (λ z. z.supervisor_evaluation) (sym (ok_inj h₁))

pub project_attempt_held :
    (d : Verdict) (b : Attempt)
    → b.supervisor_evaluation ≡ some (attempt_evaluation d)
    → project_attempt d b ≡ ok b
unfolding project_attempt
project_attempt_held d b h = rw (h, same_evaluation_refl (attempt_evaluation d)) refl

pub project_task-ok :
    (d : Verdict) (a b : Task)
    → project_task d a ≡ ok b
    → record a { state = terminal_task_state d } ≡ b
unfolding project_task
project_task-ok d a b h =
    let (_, h₁) = throw_if-ok _ _ (ok (record a { state = terminal_task_state d })) h in ok_inj h₁

terminal_known :
    (d : Verdict) (state : String)
    → state ≡ terminal_task_state d
    → includes (terminal_task_state d ∷ "AWAITING_SUPERVISOR" ∷ "COMPLETED" ∷ []) state ≡ true
unfolding includes
terminal_known d state h = rw ((string_eq.agrees (terminal_task_state d) state).1 (sym h)) refl

pub project_task_held :
    (d : Verdict) (b : Task) → b.state ≡ terminal_task_state d → project_task d b ≡ ok b
unfolding project_task
project_task_held d b h = rw (terminal_known d b.state h) (λ i. ok (record b { state = sym h i }))

-- The state is left as it is, or released with a new next action, which for an accepted task is the
-- one that follows from the effective matrix.
abbrev pub Projected : String → String → Verdict → Records → State → Type 0
Projected task_id attempt_id d r next =
    ((owns_active_task task_id attempt_id r.state ≡ false) × (r.state ≡ next))
    ⊎ ((owns_active_task task_id attempt_id r.state ≡ true)
        × (action : Option String) × (set_next_action d.time action
              (evaluated_state task_id d r.state)
            ≡ next))

pub project_state-Projected :
    (task_id attempt_id : String) (d : Verdict) (r : Records) (next : State)
    → project_state task_id attempt_id d r ≡ ok next
    → Projected task_id attempt_id d r next
unfolding project_state
project_state-Projected task_id attempt_id d r next h =
    elim (Bool-cases (owns_active_task task_id attempt_id r.state)) [
      | inr other ↦ inl (other, ok_inj (rw other at h))
      | inl owned ↦ elim (Bool-cases (d.decision == "ACCEPT")) [
        | inl accepted ↦
            let (m, _, h₁) =
              >>=-eq-ok (effective_requirement_matrix r.bootstrap r.matrix r.specification) _
                (rw (owned, accepted) at h) in
            inr (owned, _, ok_inj h₁)
        | inr rejected ↦ inr (owned, _, ok_inj (rw (owned, rejected) at h))
      ]
    ]

pub project_state-released :
    (task_id attempt_id : String) (d : Verdict) (r : Records) (next : State)
    → Projected task_id attempt_id d r next
    → owns_active_task task_id attempt_id next ≡ false
unfolding evaluated_state
project_state-released task_id attempt_id d r next (inl (other, same)) = rw (← same) other
project_state-released task_id attempt_id d r next (inr (owned, action, same)) = rw (← same) refl

-- Once the task is released the state is left as it is.
pub project_state_released :
    (task_id attempt_id : String) (d : Verdict) (r s : Records) (next : State)
    → project_state task_id attempt_id d r ≡ ok next
    → s.state ≡ next
    → project_state task_id attempt_id d s ≡ ok s.state
unfolding project_state
project_state_released task_id attempt_id d r s next h is_next =
    let free =
      project_state-released task_id attempt_id d r next
        (project_state-Projected task_id attempt_id d r next h) in
    let free' : owns_active_task task_id attempt_id s.state ≡ false =
      ap (owns_active_task task_id attempt_id) is_next ∙ free in
    rw free' refl
