-- ===== src/Failure/Resumed.antt =====
-- src/cli.js, `reconcileRunnerFailure`: a reconciliation that was stopped after its commit is taken up
-- again by the next call.
use durable_supervisor.Lifecycle.Validity.{NoneHolds}
use durable_supervisor.Base.{
  >>=-eq-ok, Bool, List, Option, Result, String, [], all_of-AllHold, any, ap, arith, beq_refl, err,
  false, includes, insert, is_none-none, lookup, lookup-insert_self, nat_eq, negb, negb-false, none,
  ok, ok_inj, or_throw-ok, refl, some, string_eq, subst, sym, true, ℕ, ◌&&◌, ◌==◌, ◌||◌, ◌∙◌, ◌∷◌,
  ◌≡◌,
}
use durable_supervisor.Claims.Index.{Claim, IndexContent}
use durable_supervisor.Failure.{
  FailureAttempt, FailureCall, FailureRecords, FailureTask, Host, Outcome, Worker, check_failure,
  exact_identity, has_evidence, indexed_claim, new_reconciliation, other_reconciliation,
  throw_first, call_checks, record_checks, release_failed, Hash, failure_outcome,
  RunnerReconciliation, World, Claims, reconcile_runner_failure, reconcile_checked, commit_failure,
  release_claim, dead_process, LoggedEvent,
}

-- The same outcome, of a reconciliation that had been committed before.
abbrev pub already_committed : Result Outcome → Result Outcome
already_committed (err e) = err e
already_committed (ok o) = ok (record o { reconciliation = "ALREADY_COMMITTED" })

new_matches :
    (call : FailureCall) (supervisor_id : String) (worker : Worker) (sha256 : String)
    → other_reconciliation call supervisor_id sha256
        (some (new_reconciliation call supervisor_id worker sha256))
      ≡ false
unfolding other_reconciliation new_reconciliation
new_matches call supervisor_id worker sha256 = ground (
  arith,
  beq_refl call.claim_id,
  beq_refl sha256,
  beq_refl call.fence_generation,
  beq_refl supervisor_id,
)

throw_first-NoneHolds :
    (checks : List (Bool × String)) {t : Unit {0}} → throw_first checks ≡ ok t → NoneHolds checks
unfolding throw_first
throw_first-NoneHolds [] h = tt
throw_first-NoneHolds ((true, message) ∷ rest) h = cc
throw_first-NoneHolds ((false, message) ∷ rest) h = (refl, throw_first-NoneHolds rest h)

NoneHolds-throw_first :
    (checks : List (Bool × String)) → NoneHolds checks → throw_first checks ≡ ok tt
unfolding throw_first
NoneHolds-throw_first [] h = refl
NoneHolds-throw_first ((true, message) ∷ rest) h = cc (h.0)
NoneHolds-throw_first ((false, message) ∷ rest) h = NoneHolds-throw_first rest h.1

module _ (host : Host) (call : FailureCall) where
  committed_attempt : FailureRecords → FailureAttempt → Worker → FailureAttempt
  committed_attempt r attempt worker = record attempt {
    runner_reconciliation = some (
        new_reconciliation call r.claims.supervisor.supervisor_id worker (host.worker_file worker));
  }

  -- What a check that passes has read, and found.
  record IsChecked (r : FailureRecords) (attempt : FailureAttempt) (worker : Worker) (claim : Claim)
      : Type 0 where
    task : FailureTask
    indexed : Option Claim
    called : throw_first (call_checks host call r) ≡ ok tt
    found_task : lookup call.task_id r.tasks ≡ some task
    found_attempt : lookup call.attempt_id r.attempts ≡ some attempt
    found_worker : lookup call.attempt_id r.workers ≡ some worker
    found_claim : lookup call.claim_id r.claims.claims ≡ some claim
    found_index : indexed_claim call r.claims ≡ ok indexed
    passed : NoneHolds (record_checks host call r task attempt worker claim indexed)

  check_failure-IsChecked :
      (r : FailureRecords) (attempt : FailureAttempt) (worker : Worker) (claim : Claim)
      → check_failure host call r ≡ ok (attempt, (worker, claim))
      → IsChecked r attempt worker claim
  unfolding check_failure
  check_failure-IsChecked r attempt worker claim h =
      let (_, e₀, h₀) = >>=-eq-ok (throw_first (call_checks host call r)) _ h in
      let (task, e₁, h₁) = or_throw-ok (lookup call.task_id r.tasks) _ _ h₀ in
      let (a, e₂, h₂) = or_throw-ok (lookup call.attempt_id r.attempts) _ _ h₁ in
      let (w, e₃, h₃) = or_throw-ok (lookup call.attempt_id r.workers) _ _ h₂ in
      let (c, e₄, h₄) = or_throw-ok (lookup call.claim_id r.claims.claims) _ _ h₃ in
      let (indexed, e₅, h₅) = >>=-eq-ok (indexed_claim call r.claims) _ h₄ in
      let checks = record_checks host call r task a w c indexed in
      let (_, e₆, h₆) = >>=-eq-ok (throw_first checks) _ h₅ in
      let x : IsChecked r a w c = record {
        task = task;
        indexed = indexed;
        called = NoneHolds-throw_first _ (throw_first-NoneHolds _ e₀);
        found_task = e₁;
        found_attempt = e₂;
        found_worker = e₃;
        found_claim = e₄;
        found_index = e₅;
        passed = throw_first-NoneHolds checks e₆;
      } in
      subst (λ p. IsChecked r p.0 p.1.0 p.1.1) (ok_inj h₆) x

  with_attempt : FailureRecords → FailureAttempt → FailureRecords
  with_attempt r attempt = record r { attempts = insert call.attempt_id attempt r.attempts }

  -- The check passes again on the records with the reconciliation.
  IsChecked-check :
      (r : FailureRecords) (attempt : FailureAttempt) (worker : Worker) (claim : Claim)
      → IsChecked r attempt worker claim
      → let next = committed_attempt r attempt worker in
        check_failure host call (with_attempt r next) ≡ ok (next, (worker, claim))
  unfolding check_failure committed_attempt call_checks exact_identity has_evidence with_attempt
  IsChecked-check r attempt worker claim x =
      let next = committed_attempt r attempt worker in
      let (identity, (evidence, (dead, (failed, _)))) = x.passed in
      let matches =
        new_matches call r.claims.supervisor.supervisor_id worker (host.worker_file worker) in
      let again =
        NoneHolds-throw_first
          (record_checks host call (with_attempt r next) x.task next worker claim x.indexed)
          (identity, (evidence, (dead, (failed, (matches, (refl, tt)))))) in
      rw
        (
          x.called,
          x.found_task,
          lookup-insert_self call.attempt_id next r.attempts,
          x.found_worker,
          x.found_claim,
          x.found_index,
          again,
        )
        refl

  release_failed-again :
      (attempt next : FailureAttempt) (r : FailureRecords) (e : RunnerReconciliation)
      (release : Result Claim × Claims)
      → next.runner_reconciliation ≡ some e
      → release_failed host call next r release ≡ (
        already_committed (release_failed host call attempt r release).0,
        (release_failed host call attempt r release).1,
      )
  unfolding release_failed failure_outcome
  release_failed-again attempt next r e (err m, claims) h = refl
  release_failed-again attempt next r e (ok released, claims) h = rw h refl

  module _ (h : Hash IndexContent) (world : World) where
    resumed :
        (r : FailureRecords) (attempt : FailureAttempt) (worker : Worker) (claim : Claim)
        (existing : Option RunnerReconciliation)
        → attempt.runner_reconciliation ≡ existing
        → check_failure host call r ≡ ok (attempt, (worker, claim))
        → let first = reconcile_runner_failure host h world call r in
          reconcile_runner_failure host h world call (commit_failure host call r attempt worker)
          ≡ (already_committed first.0, first.1)
    unfolding reconcile_runner_failure reconcile_checked
    resumed r attempt worker claim (some e) is_e checked =
        let release = release_claim h world r.claims claim "FAILED" in
        let same : commit_failure host call r attempt worker ≡ r =
          unfold commit_failure in rw (is_e, commit_failure) refl in
        rw (same, checked, same) (release_failed-again attempt attempt r e release is_e)
    resumed r attempt worker claim none fresh checked =
        let next = committed_attempt r attempt worker in
        let r' = with_attempt r next in
        let release = release_claim h world r.claims claim "FAILED" in
        let x = check_failure-IsChecked r attempt worker claim checked in
        let written : commit_failure host call r attempt worker ≡ r' =
          unfold commit_failure committed_attempt with_attempt in rw (fresh, commit_failure) refl in
        let kept : commit_failure host call r' next worker ≡ r' =
          unfold commit_failure committed_attempt in refl in
        rw (written, IsChecked-check r attempt worker claim x, checked, kept, written)
          (unfold with_attempt committed_attempt in
            release_failed-again attempt next r' _ release refl)

-- A call of `reconcileRunnerFailure` whose checks pass, and that is stopped after it has written the
-- reconciliation and before it releases the claim, is taken up by the next call: that one releases
-- the claim as the first would have, with the same records and outcome or the same error, and reports
-- that the reconciliation was committed already.
pub reconcile_runner_failure_resumed :
    (host : Host) (h : Hash IndexContent) (world : World) (call : FailureCall) (r : FailureRecords)
    (attempt : FailureAttempt) (worker : Worker) (claim : Claim)
    → check_failure host call r ≡ ok (attempt, (worker, claim))
    → reconcile_runner_failure host h world call (commit_failure host call r attempt worker) ≡ (
      already_committed (reconcile_runner_failure host h world call r).0,
      (reconcile_runner_failure host h world call r).1,
    )
reconcile_runner_failure_resumed host h world call r attempt worker claim checked =
    resumed host call h world r attempt worker claim attempt.runner_reconciliation refl checked

-- What a reconciliation that returned has found and left, of the records before and after it: the
-- task rejected, the Runner failed, both processes known and dead, nothing that tells an outcome of
-- the child; and afterwards the attempt with a reconciliation of this call.
pub record IsProved (host : Host) (call : FailureCall) (r s : FailureRecords) : Type 0 where
  task : FailureTask
  attempt : FailureAttempt
  worker : Worker
  committed : RunnerReconciliation
  runner_pid : ℕ
  child_pid : ℕ
  found_task : lookup call.task_id r.tasks ≡ some task
  found_attempt : lookup call.attempt_id r.attempts ≡ some attempt
  found_worker : lookup call.attempt_id r.workers ≡ some worker
  rejected : task.state ≡ "REJECTED"
  failed : worker.status ≡ "FAILED"
  runner_process : worker.worker_pid ≡ some runner_pid
  runner_dead : host.is_process_alive runner_pid ≡ false
  child_process : attempt.pid ≡ some child_pid
  child_dead : host.is_process_alive child_pid ≡ false
  unknown : attempt.child_state ≡ "UNKNOWN"
  no_exit_code : attempt.exit_code ≡ none
  no_packet : attempt.compact_packet ≡ none
  no_handoff : attempt.completion_handoff ≡ none
  no_acceptance : attempt.acceptance_state ≡ none
  no_execution : includes r.executions call.attempt_id ≡ false
  no_completion :
      any
        (λ (e : LoggedEvent). e.type == "CHILD_COMPLETION" && e.attempt_id == call.attempt_id)
        r.events_log
      ≡ false
  written :
      lookup call.attempt_id s.attempts
      ≡ some (record attempt { runner_reconciliation = some committed })
  status : committed.status ≡ "COMMITTED"
  child_outcome : committed.child_outcome ≡ "UNKNOWN"
  intent : committed.claim_release_intent ≡ "FAILED"
  of_claim : committed.claim_id ≡ call.claim_id
  of_fence : committed.fence_generation ≡ call.fence_generation
  of_worker : committed.worker_record_sha256 ≡ host.worker_file worker
  of_supervisor : committed.reconciled_by_supervisor_id ≡ r.claims.supervisor.supervisor_id
  same_tasks : s.tasks ≡ r.tasks
  same_workers : s.workers ≡ r.workers

dead_process-known :
    (alive : ℕ → Bool) (pid : Option ℕ)
    → dead_process alive pid ≡ true
    → (p : ℕ) × (pid ≡ some p) × (alive p ≡ false)
dead_process-known alive none h = cc
dead_process-known alive (some p) h = (p, refl, ground arith)

-- What has no evidence, written out.
NoEvidence : FailureCall → FailureRecords → FailureAttempt → Type 0
NoEvidence call r attempt =
    (attempt.child_state ≡ "UNKNOWN")
    × (attempt.exit_code ≡ none)
    × (attempt.compact_packet ≡ none)
    × (attempt.completion_handoff ≡ none)
    × (attempt.acceptance_state ≡ none)
    × (includes r.executions call.attempt_id ≡ false)
    × (any (λ (e : LoggedEvent). e.type == "CHILD_COMPLETION" && e.attempt_id == call.attempt_id)
          r.events_log
        ≡ false)

has_evidence-NoEvidence :
    (call : FailureCall) (r : FailureRecords) (attempt : FailureAttempt)
    → has_evidence call r attempt ≡ false
    → NoEvidence call r attempt
unfolding has_evidence NoEvidence
has_evidence-NoEvidence call r attempt h = (
  (string_eq.agrees _ _).0 (negb-false _ (ground arith)),
  is_none-none attempt.exit_code (negb-false _ (ground arith)),
  is_none-none attempt.compact_packet (negb-false _ (ground arith)),
  is_none-none attempt.completion_handoff (negb-false _ (ground arith)),
  is_none-none attempt.acceptance_state (negb-false _ (ground arith)),
  ground arith,
  ground arith,
)

both : (a b : Bool) → (negb a || negb b) ≡ false → (a ≡ true) × (b ≡ true)
both a b h = (ground arith, ground arith)

exact_identity-ended :
    (call : FailureCall) (supervisor_id : String) (task : FailureTask) (attempt : FailureAttempt)
    (worker : Worker) (claim : Claim) (indexed : Option Claim)
    → exact_identity call supervisor_id task attempt worker claim indexed ≡ true
    → (task.state ≡ "REJECTED") × (worker.status ≡ "FAILED")
unfolding exact_identity
exact_identity-ended call supervisor_id task attempt worker claim indexed h =
    let (_, (rejected, (_, (_, (_, (_, (_, (_, (_, (failed, _)))))))))) = all_of-AllHold _ h in
    ((string_eq.agrees _ _).0 rejected, (string_eq.agrees _ _).0 failed)

-- A reconciliation of the call, written out.
Matches : FailureCall → String → String → RunnerReconciliation → Type 0
Matches call supervisor_id sha256 e =
    (e.status ≡ "COMMITTED")
    × (e.child_outcome ≡ "UNKNOWN")
    × (e.claim_release_intent ≡ "FAILED")
    × (e.claim_id ≡ call.claim_id)
    × (e.fence_generation ≡ call.fence_generation)
    × (e.worker_record_sha256 ≡ sha256)
    × (e.reconciled_by_supervisor_id ≡ supervisor_id)

other_reconciliation-Matches :
    (call : FailureCall) (supervisor_id sha256 : String) (e : RunnerReconciliation)
    → other_reconciliation call supervisor_id sha256 (some e) ≡ false
    → Matches call supervisor_id sha256 e
unfolding other_reconciliation Matches
other_reconciliation-Matches call supervisor_id sha256 e h = (
  (string_eq.agrees _ _).0 (negb-false _ (ground arith)),
  (string_eq.agrees _ _).0 (negb-false _ (ground arith)),
  (string_eq.agrees _ _).0 (negb-false _ (ground arith)),
  (string_eq.agrees _ _).0 (negb-false _ (ground arith)),
  (nat_eq.agrees _ _).0 (negb-false _ (ground arith)),
  (string_eq.agrees _ _).0 (negb-false _ (ground arith)),
  (string_eq.agrees _ _).0 (negb-false _ (ground arith)),
)

module _ (host : Host) (call : FailureCall) where
  release_failed-records :
      (attempt : FailureAttempt) (u s : FailureRecords) (release : Result Claim × Claims)
      (result : Result Outcome)
      → release_failed host call attempt u release ≡ (result, s)
      → (u.attempts ≡ s.attempts) × (u.tasks ≡ s.tasks) × (u.workers ≡ s.workers)
  unfolding release_failed
  release_failed-records attempt u s (err m, claims) result e =
      let same = ap (λ p. p.1) e in
      (ap (λ r. r.attempts) same, ap (λ r. r.tasks) same, ap (λ r. r.workers) same)
  release_failed-records attempt u s (ok released, claims) result e =
      let same = ap (λ p. p.1) e in
      (ap (λ r. r.attempts) same, ap (λ r. r.tasks) same, ap (λ r. r.workers) same)

  abbrev IsWritten : FailureRecords → FailureAttempt → Worker → FailureRecords → Type 0
  IsWritten r attempt worker u =
      (committed : RunnerReconciliation) × (lookup call.attempt_id u.attempts
        ≡ some (record attempt { runner_reconciliation = some committed }))
      × (other_reconciliation call r.claims.supervisor.supervisor_id (host.worker_file worker)
            (some committed)
          ≡ false)
      × (u.tasks ≡ r.tasks)
      × (u.workers ≡ r.workers)

  -- The attempt with its reconciliation, old or new.
  commit_failure-IsWritten :
      (r : FailureRecords) (attempt : FailureAttempt) (worker : Worker)
      (existing : Option RunnerReconciliation)
      → attempt.runner_reconciliation ≡ existing
      → lookup call.attempt_id r.attempts ≡ some attempt
      → other_reconciliation call r.claims.supervisor.supervisor_id
          (host.worker_file worker)
          existing
        ≡ false
      → IsWritten r attempt worker (commit_failure host call r attempt worker)
  unfolding commit_failure
  commit_failure-IsWritten r attempt worker (some e) is_e found matches =
      let same : commit_failure host call r attempt worker ≡ r = rw (is_e, commit_failure) refl in
      let held : some attempt ≡ some (record attempt { runner_reconciliation = some e }) =
        λ i. some (record attempt { runner_reconciliation = is_e i }) in
      subst (IsWritten r attempt worker) (sym same) (e, found ∙ held, matches, refl, refl)
  commit_failure-IsWritten r attempt worker none fresh found matches =
      let sid = r.claims.supervisor.supervisor_id in
      let made = new_reconciliation call sid worker (host.worker_file worker) in
      let next = record attempt { runner_reconciliation = some made } in
      let same : commit_failure host call r attempt worker
          ≡ record r { attempts = insert call.attempt_id next r.attempts } =
        rw (fresh, commit_failure) refl in
      subst (IsWritten r attempt worker) (sym same) (
        made,
        lookup-insert_self call.attempt_id next r.attempts,
        new_matches call sid worker (host.worker_file worker),
        refl,
        refl,
      )

  proved :
      (r u s : FailureRecords) (attempt : FailureAttempt) (worker : Worker) (claim : Claim)
      → IsChecked host call r attempt worker claim
      → IsWritten r attempt worker u
      → (u.attempts ≡ s.attempts) × (u.tasks ≡ s.tasks) × (u.workers ≡ s.workers)
      → IsProved host call r s
  unfolding Matches NoEvidence
  proved r u s attempt worker claim x (committed, held, matches, tasks, workers)
        (same_attempts, same_tasks, same_workers) =
      let (identity, (evidence, (dead, _))) = x.passed in
      let sid = r.claims.supervisor.supervisor_id in
      let (rejected, failed) =
        exact_identity-ended call sid x.task attempt worker claim x.indexed
          (negb-false _ identity) in
      let (dead_runner, dead_child) = both _ _ dead in
      let (runner_pid, runner, runner_dead) =
        dead_process-known host.is_process_alive worker.worker_pid dead_runner in
      let (child_pid, child, child_dead) =
        dead_process-known host.is_process_alive attempt.pid dead_child in
      let (status, child_outcome, intent, of_claim, of_fence, of_worker, of_supervisor) =
        other_reconciliation-Matches call sid (host.worker_file worker) committed matches in
      let (unknown, exit_code, packet, handoff, acceptance, execution, completion) =
        has_evidence-NoEvidence call r attempt evidence in
      record {
        task = x.task;
        attempt = attempt;
        worker = worker;
        committed = committed;
        runner_pid = runner_pid;
        child_pid = child_pid;
        found_task = x.found_task;
        found_attempt = x.found_attempt;
        found_worker = x.found_worker;
        rejected = rejected;
        failed = failed;
        runner_process = runner;
        runner_dead = runner_dead;
        child_process = child;
        child_dead = child_dead;
        unknown = unknown;
        no_exit_code = exit_code;
        no_packet = packet;
        no_handoff = handoff;
        no_acceptance = acceptance;
        no_execution = execution;
        no_completion = completion;
        written = ap (lookup call.attempt_id) (sym same_attempts) ∙ held;
        status = status;
        child_outcome = child_outcome;
        intent = intent;
        of_claim = of_claim;
        of_fence = of_fence;
        of_worker = of_worker;
        of_supervisor = of_supervisor;
        same_tasks = sym same_tasks ∙ tasks;
        same_workers = sym same_workers ∙ workers;
      }

-- A call of `reconcileRunnerFailure` that returns has found the task rejected, the Runner failed, the
-- processes of the Runner and of the child known and dead, and no evidence of an outcome: the child's
-- state unknown, no exit code, packet, handoff, acceptance or execution record, and no completion in
-- the event log. The attempt then has a committed reconciliation with the call's claim and fence, the
-- digest of the Runner's record and the supervisor, and is otherwise, like tasks and Runners, as it was.
pub reconcile_runner_failure-IsProved :
    (host : Host) (h : Hash IndexContent) (world : World) (call : FailureCall)
    (r s : FailureRecords) (outcome : Outcome)
    → reconcile_runner_failure host h world call r ≡ (ok outcome, s)
    → IsProved host call r s
unfolding reconcile_runner_failure
reconcile_runner_failure-IsProved host h world call r s outcome e =
    checked_proved (check_failure host call r) refl e
  where
    checked_proved :
        (check : Result (FailureAttempt × (Worker × Claim)))
        → check_failure host call r ≡ check
        → reconcile_checked host h world call r check ≡ (ok outcome, s)
        → IsProved host call r s
    checked_proved (err m) is_check e = cc
    checked_proved (ok (attempt, (worker, claim))) is_check e =
        let x = check_failure-IsChecked host call r attempt worker claim is_check in
        let (_, (_, (_, (_, (matches, _))))) = x.passed in
        let u = commit_failure host call r attempt worker in
        proved host call r u s attempt worker claim x
          (commit_failure-IsWritten host call r attempt worker attempt.runner_reconciliation refl
            x.found_attempt matches)
          (release_failed-records host call attempt u s
            (release_claim h world r.claims claim "FAILED") (ok outcome)
            (unfold reconcile_checked in e))
