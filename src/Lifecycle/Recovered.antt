-- ===== src/Lifecycle/Recovered.antt =====
-- src/cli.js, `recover`: what recovery guarantees of the lifecycle, and where it breaks it.
use durable_supervisor.Lifecycle.Validity.{state_errors, nil-reports, state_checks, reports-nil}
use durable_supervisor.Lifecycle.Repository.{Repository, Attempt}
use durable_supervisor.Lifecycle.State.{State, Objective, Reconciliation, Supervisor}
use durable_supervisor.Lifecycle.Requirements.{
  Progress, Matrix, unsatisfied_requirements, derive_pending_next_action,
  effective_requirement_matrix,
}
use durable_supervisor.Lifecycle.Laws.{Valid}
use durable_supervisor.Lifecycle.Recovery.{
  progress, derived_state, lost_state, finish_recovery, recover_lost, recover_finding, recover,
  intervene, Finding, settled, active_attempt, recover_active, no_active_work, classify,
}
use durable_supervisor.Base.{
  Bool, Option, Result, String, [], ap, arith, err, false, includes, is_empty, is_none, last, negb,
  none, ok, refl, some, true, truthy, ℕ, ◌&&◌, ◌+◌, ◌==◌, ◌≡◌, ◌≢◌, string_eq,
}

-- The state of a paused repository whose phase is complete and whose requirements are all met.
abbrev pub paused_complete : State → Option Matrix → Bool
paused_complete s m =
    s.pause.active && s.phase == "COMPLETE" && is_empty (unsatisfied_requirements m)

-- A next action is left to a complete repository only where one was, or where it is paused.
derive_complete :
    (p : Progress) (m : Option Matrix) (fallback : Option String)
    → (p.paused && p.phase == "COMPLETE" && is_empty (unsatisfied_requirements m)) ≡ false
    → (p.phase == "COMPLETE" && is_empty (unsatisfied_requirements m) && negb (is_none fallback))
      ≡ false
    → (p.phase == "COMPLETE"
        && is_empty (unsatisfied_requirements m)
        && negb (is_none (derive_pending_next_action p m fallback)))
      ≡ false
derive_complete p none fallback quiet h =
    unfold derive_pending_next_action unsatisfied_requirements in ground arith
derive_complete p (some matrix) fallback quiet h = unfold derive_pending_next_action in ground arith

Valid-pending :
    (s : State) (o : Objective) (m : Option Matrix) (action : Option String)
    → Valid s o m
    → (s.phase == "COMPLETE" && is_empty (unsatisfied_requirements m) && negb (is_none action))
      ≡ false
    → Valid (record s { pending_next_action = action }) o m
Valid-pending s o m action (a, (b, (c, (d, (e, (f, (g, (h, _)))))))) last =
    (a, (b, (c, (d, (e, (f, (g, (h, (last, tt)))))))))

derived_state-Valid :
    (s : State) (o : Objective) (m : Option Matrix)
    → paused_complete s m ≡ false
    → Valid s o m
    → Valid (derived_state m s) o m
unfolding derived_state
derived_state-Valid s o m quiet v =
    let last = v.1.1.1.1.1.1.1.1.0 in
    Valid-pending s o m _ v (derive_complete (progress s) m s.pending_next_action quiet last)

lost_state-Valid :
    (time : String) (pid : Option ℕ) (s : State) (o : Objective) (m : Option Matrix)
    → truthy s.active_task_id ≡ true
    → Valid s o m
    → Valid (lost_state time pid s) o m
unfolding lost_state includes
lost_state-Valid time pid s o m busy v = ground arith

lost_state-phase :
    (time : String) (pid : Option ℕ) (s : State) (o : Objective) (m : Option Matrix)
    → truthy s.active_task_id ≡ true
    → Valid s o m
    → paused_complete (lost_state time pid s) m ≡ false
unfolding lost_state
lost_state-phase time pid s o m busy v =
    let not_complete : (s.phase == "COMPLETE") ≡ false = ground arith in rw not_complete refl

-- What a recovery that returns has done to the repository.
pub record Recovers (r q : Repository) (m : Option Matrix) : Type 0 where
  pub valid : state_errors q.state q.objective m ≡ []
  pub generation : q.supervisor.generation ≡ r.supervisor.generation + 1
  pub claims : q.claims ≡ r.claims
  pub index : q.claim_index ≡ r.claim_index
  pub objective : q.objective ≡ r.objective

finish-Recovers :
    (m : Option Matrix) (time : String) (r q : Repository)
    → paused_complete q.state m ≡ false
    → Valid q.state q.objective m
    → q.supervisor ≡ r.supervisor
    → q.claims ≡ r.claims
    → q.claim_index ≡ r.claim_index
    → q.objective ≡ r.objective
    → Recovers r (finish_recovery m time q) m
unfolding finish_recovery
finish-Recovers m time r q quiet v s c i o = record {
  valid =
      unfold state_errors in
      nil-reports (state_checks (derived_state m q.state) q.objective m)
        (derived_state-Valid q.state q.objective m quiet v);
  generation = ap (λ (x : Supervisor). x.generation + 1) s;
  claims = c;
  index = i;
  objective = o;
}

lost-Recovers :
    (m : Option Matrix) (event_id time id : String) (attempt : Attempt) (r q : Repository)
    (x : Reconciliation)
    → truthy r.state.active_task_id ≡ true
    → Valid r.state r.objective m
    → recover_lost m event_id time id attempt r ≡ (ok x, q)
    → Recovers r q m
unfolding recover_lost
lost-Recovers m event_id time id attempt r q x busy v e = go (intervene event_id attempt) refl
  where
    go : (y : Result Attempt) → intervene event_id attempt ≡ y → Recovers r q m
    go (err z) same = cc (rw (same, recover_lost) at e)
    go (ok unknown) same =
        let e' = rw (same, recover_lost) at e in
        let q_is = ap (λ (o : Result Reconciliation × Repository). o.1) e' in
        rw (← q_is) (
          finish-Recovers m time r _
            (lost_state-phase time attempt.pid r.state r.objective m busy v)
            (lost_state-Valid time attempt.pid r.state r.objective m busy v) refl refl refl refl)

finding-Recovers :
    (m : Option Matrix) (event_id time id : String) (attempt : Attempt) (r q : Repository)
    (x : Reconciliation) (f : Result Finding)
    → truthy r.state.active_task_id ≡ true
    → paused_complete r.state m ≡ false
    → Valid r.state r.objective m
    → recover_finding m event_id time id attempt r f ≡ (ok x, q)
    → Recovers r q m
unfolding recover_finding
finding-Recovers m event_id time id attempt r q x (err z) busy quiet v e = cc
finding-Recovers m event_id time id attempt r q x (ok (settled y)) busy quiet v e =
    let q_is = ap (λ (o : Result Reconciliation × Repository). o.1) e in
    rw (← q_is) (finish-Recovers m time r r quiet v refl refl refl refl)
finding-Recovers m event_id time id attempt r q x (ok Finding.lost) busy quiet v e =
    lost-Recovers m event_id time id attempt r q x busy v e

active-Recovers :
    (alive : ℕ → Bool) (m : Option Matrix) (event_id time : String) (r q : Repository)
    (x : Reconciliation) (a : Option (String × Attempt))
    → (is_none a ≡ false → truthy r.state.active_task_id ≡ true)
    → paused_complete r.state m ≡ false
    → Valid r.state r.objective m
    → recover_active alive m event_id time r a ≡ (ok x, q)
    → Recovers r q m
unfolding recover_active
active-Recovers alive m event_id time r q x none busy quiet v e =
    let q_is = ap (λ (o : Result Reconciliation × Repository). o.1) e in
    rw (← q_is) (finish-Recovers m time r r quiet v refl refl refl refl)
active-Recovers alive m event_id time r q x (some (id, attempt)) busy quiet v e =
    finding-Recovers m event_id time id attempt r q x (classify alive r id attempt) (busy refl)
      quiet v e

-- On a repository whose lifecycle is valid, and which is not both paused and complete with all its
-- requirements met, a recovery that returns keeps the lifecycle valid, raises the generation by one
-- and leaves the claims, their index and the objective as they were. (If an attempt is active, the
-- identity of its task is not the empty text.)
pub recover_valid :
    (alive : ℕ → Bool) (event_id time : String) (r q : Repository) (m : Option Matrix)
    (x : Reconciliation)
    → effective_requirement_matrix r.bootstrap r.matrix r.specification ≡ ok m
    → state_errors r.state r.objective m ≡ []
    → paused_complete r.state m ≡ false
    → (is_none (active_attempt r) ≡ false → truthy r.state.active_task_id ≡ true)
    → recover alive event_id time r ≡ (ok x, q)
    → Recovers r q m
recover_valid alive event_id time r q m x eff h quiet busy e =
    active-Recovers alive m event_id time r q x (active_attempt r) busy quiet
      (reports-nil (state_checks r.state r.objective m) (unfold state_errors in h))
      (unfold recover in rw (eff, recover) at e)

recover_idle :
    (alive : ℕ → Bool) (event_id time : String) (r : Repository) (m : Option Matrix)
    → effective_requirement_matrix r.bootstrap r.matrix r.specification ≡ ok m
    → r.state.active_attempt_id ≡ none
    → recover alive event_id time r ≡ (ok no_active_work, finish_recovery m time r)
unfolding recover recover_active active_attempt
recover_idle alive event_id time r m eff idle = rw (eff, recover) (rw (idle, active_attempt) refl)

derived_state_invalid :
    (s : State) (o : Objective) (m : Option Matrix)
    → paused_complete s m ≡ true
    → s.active_task_id ≡ none
    → s.active_attempt_id ≡ none
    → Valid (derived_state m s) o m
    → ⊥
unfolding derived_state derive_pending_next_action
derived_state_invalid s o m paused no_task no_attempt v = ground arith

-- On a paused repository with no active work, whose phase is complete and whose requirements are all
-- met, recovery returns and leaves a next action, so that the validator then finds an error.
pub recover-paused_complete_invalid :
    (alive : ℕ → Bool) (event_id time : String) (r : Repository) (m : Option Matrix)
    → effective_requirement_matrix r.bootstrap r.matrix r.specification ≡ ok m
    → paused_complete r.state m ≡ true
    → r.state.active_task_id ≡ none
    → r.state.active_attempt_id ≡ none
    → ((recover alive event_id time r).0 ≡ ok no_active_work)
      × (state_errors
            (recover alive event_id time r).1.state
            (recover alive event_id time r).1.objective
            m
          ≢ [])
recover-paused_complete_invalid alive event_id time r m eff paused no_task no_attempt =
    let run = recover_idle alive event_id time r m eff no_attempt in
    rw run (
      refl,
      λ none_found. derived_state_invalid r.state r.objective m paused no_task no_attempt (
          reports-nil (state_checks (derived_state m r.state) r.objective m)
            (unfold state_errors finish_recovery in none_found)),
    )
