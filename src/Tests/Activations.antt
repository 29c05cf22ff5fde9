-- ===== src/Tests/Activations.antt =====
-- src/wakeup.js: an activation of a supervisor, from its lease to the consumption of the wake.
use durable_supervisor.Activation.Consumed.{consume_wake_delivery_once}
use durable_supervisor.Activation.Binding.{
  Binding, all_digits, binding_wrong, is_uuid_code, session_binding_schema, starts_with_slash,
  uuid_text, valid_process_identity,
}
use durable_supervisor.Activation.Delivery.{
  Consumption, Digests, Durable, Receipt, check_delivery, consume_wake_delivery, decision_mismatch,
  delivery_schema, evidence_mismatch, generation_mismatch, is_delivered, repository_mismatch,
  session_mismatch, supervisor_mismatch, wake_consumption_schema, wake_delivery_consumption_status,
}
use durable_supervisor.Base.{
  Bool, String, [], all_of, ap, arith, false, hex_digits, is_hex, is_sha256, none, ok, refl, some,
  true, ◌<◌, ◌≡◌, ◌≢◌,
}
use durable_supervisor.Store.{Hash, File, atomic_create, compare_and_swap}
use durable_supervisor.Activation.Lease.{
  Call, Lease, Machine, Owner, Process, Supervisor, acquire_activation_lease,
  activation_owner_current, blocked, decision_fence_current, lease_expired, lease_round,
  lease_schema, live_lease, release_activation_lease, released, same_process, taken,
}
use durable_supervisor.Activation.Decision.{
  Attempt, Decision, Request, claim_activation_decision, claimed, decision_schema,
  native_wake_request_schema, targets,
}
use durable_supervisor.Activation.Fences.{
  acquire_activation_lease_held, release_activation_lease_fenced,
}
use durable_supervisor.Activation.Takeover.{acquire_activation_lease_takes_over}
use durable_supervisor.Activation.Claimed.{claim_activation_decision_once}
use durable_supervisor.Tests.Records.{own_digest, lease_discrete, decision_discrete}

abbrev pub supervisor : Supervisor
supervisor = record { repository = "/repo"; supervisor_id = "supervisor-1"; generation = 1 }

abbrev process : Process
process = record { pid = 7; start_time_ticks = "100"; executable = "/bin/node" }

abbrev owner : Owner
owner = record {
  kind = "operator";
  schema = none;
  process = some process;
  service_id = none;
  service_generation = none;
  canonical_json = "owner";
}

abbrev machine : Machine
machine = record { process_identity = λ pid. some process; release_fence_holds = λ role o. true }

abbrev call : Call
call = record {
  event_id = "event-1";
  owner = some owner;
  ttl_ms = 1000;
  now_ms = 5000;
  fresh = λ round. "lease-1";
  others = λ round file. file;
}

abbrev lease : Lease
lease = record {
  schema = lease_schema;
  lease_id = "lease-1";
  event_id = "event-1";
  supervisor_id = "supervisor-1";
  supervisor_generation = 1;
  fencing_token = 1;
  owner = some owner;
  status = "OWNED";
  acquired_at = 5000;
  expires_at = some 6000;
  released_at = none;
}

abbrev leases : Hash Lease
leases = own_digest lease_discrete

abbrev held : File Lease
held = record { content = some lease; lock_held = false }

acquired_run :
    acquire_activation_lease leases machine supervisor call
      (record { content = none; lock_held = false })
    ≡ ok (held, taken false lease)
unfolding acquire_activation_lease activation_owner_current same_process lease_round blocked
    compare_and_swap
acquired_run = refl

acquire_activation_lease_held_example :
    (held.content ≡ some lease) × (live_lease supervisor 5000 lease ≡ true)
acquire_activation_lease_held_example =
    acquire_activation_lease_held leases machine supervisor call
      (record { content = none; lock_held = false }) held (taken false lease) lease acquired_run
      refl

-- The lease of before has expired by then.
abbrev later_call : Call
later_call = record call { now_ms = 7000; fresh = λ round. "lease-2" }

abbrev later_lease : Lease
later_lease = record lease {
  lease_id = "lease-2";
  fencing_token = 2;
  acquired_at = 7000;
  expires_at = some 8000;
}

abbrev retaken : File Lease
retaken = record { content = some later_lease; lock_held = false }

taken_run :
    acquire_activation_lease leases machine supervisor later_call held
    ≡ ok (retaken, taken true later_lease)
unfolding acquire_activation_lease activation_owner_current same_process lease_round blocked
    live_lease lease_expired compare_and_swap
taken_run = rw (leases.same_refl (leases.sha256 lease)) refl

acquire_activation_lease_takes_over_example :
    (1 < 2)
    × (retaken.content ≡ some later_lease)
    × (decision_fence_current machine supervisor 7500 lease retaken.content ≡ false)
acquire_activation_lease_takes_over_example =
    acquire_activation_lease_takes_over leases machine supervisor later_call held retaken true
      later_lease lease supervisor 7500 (λ round file. omega arith) refl taken_run

abbrev freed : File Lease
freed = record {
  content = some (record lease { status = "RELEASED"; released_at = some 5500 });
  lock_held = false;
}

released_run :
    release_activation_lease leases (λ file. file) 5500 lease held
    ≡ (freed, released false (record lease { status = "RELEASED"; released_at = some 5500 }))
unfolding release_activation_lease compare_and_swap
released_run = rw (leases.same_refl (leases.sha256 lease)) refl

release_activation_lease_fenced_example :
    decision_fence_current machine supervisor 5700 lease
      (release_activation_lease leases (λ file. file) 5500 lease held).0.content
    ≡ false
release_activation_lease_fenced_example =
    release_activation_lease_fenced leases (λ file. file) 5500 lease held false
      (record lease { status = "RELEASED"; released_at = some 5500 }) machine supervisor 5700
      (ap (λ p. p.1) released_run)

abbrev pub request : Request
request = record {
  schema = native_wake_request_schema;
  event_id = "event-1";
  event_type = "CHILD_COMPLETION";
  terminal_type = "child-completed";
  task_id = "task-1";
  attempt_id = "attempt-1";
  wait_id = "wait-1";
  target = record {
    repository = "/repo";
    supervisor_id = "supervisor-1";
    supervisor_generation = 1;
  };
  queue_version = 1;
  queued_at = "09:00";
}

abbrev attempt : Attempt
attempt = record {
  now_ms = 5100;
  later_ms = 5101;
  fresh = "decision-1";
  claimed_at = "09:00";
  message_sha256 = "message";
  transport_attempt_id = none;
  delivery_id = some "delivery-1";
}

abbrev pub decision : Decision
decision = record {
  schema = decision_schema;
  decision_id = "decision-1";
  event_id = "event-1";
  supervisor_id = "supervisor-1";
  supervisor_generation = 1;
  lease_id = "lease-1";
  fencing_token = 1;
  message_sha256 = "message";
  transport_attempt_id = none;
  delivery_id = some "delivery-1";
  status = "CLAIMED";
  claimed_at = "09:00";
  delivered_at = none;
  failure = none;
  prior_attempts = [];
}

abbrev decisions : Hash Decision
decisions = own_digest decision_discrete

abbrev decided : File Decision
decided = record { content = some decision; lock_held = false }

claimed_run :
    claim_activation_decision decisions machine supervisor
      (some lease)
      "event-1"
      request
      lease
      attempt
      (λ file. file)
      (record { content = none; lock_held = false })
    ≡ (decided, claimed false decision)
unfolding claim_activation_decision decision_fence_current all_of lease_expired
    activation_owner_current same_process targets atomic_create
claimed_run = refl

claim_activation_decision_once_example :
    let after =
      claim_activation_decision decisions machine supervisor
        (some lease)
        "event-1"
        request
        lease
        attempt
        (λ file. file)
        (record { content = none; lock_held = false }) in
    let again =
      claim_activation_decision decisions machine supervisor
        (some lease)
        "event-1"
        request
        lease
        attempt
        (λ file. file)
        after.0 in
    (after.0.content ≡ some decision)
    × (decision.status ≡ "CLAIMED")
    × (again.0 ≡ after.0)
    × ((r : Bool) (e : Decision) → again.1 ≢ claimed r e)
claim_activation_decision_once_example =
    claim_activation_decision_once decisions machine machine supervisor supervisor (some lease)
      (some lease) "event-1" request request lease lease attempt attempt (λ file. file)
      (λ file. file) (record { content = none; lock_held = false }) false decision
      (ap (λ p. p.1) claimed_run)

abbrev meta_digest : String
meta_digest = "0123456789abcdef0123456789abcdef0123456789abcdef0123456789abcdef"

abbrev binding : Binding
binding = record {
  schema = session_binding_schema;
  state = some "CURRENT";
  binding_revision = some 1;
  codex_thread_uuid = some "0123abcd-0123-0123-0123-0123456789ab";
  repository_realpath = "/repo";
  supervisor_id = "supervisor-1";
  supervisor_generation = 1;
  codex_session_uuid = "0123abcd-0123-0123-0123-0123456789ab";
  session_meta_line_sha256 = meta_digest;
  session_meta_payload_sha256 = meta_digest;
  host_kind = "herdr";
  host_authority = "authoritative";
  host_process = record {
    pid = 9;
    start_time_ticks = "42";
    executable = "/bin/herdr";
    tty = some "/dev/pts/1";
    command_line_sha256 = meta_digest;
  };
  workspace_cwd = "/repo";
  native_supported = true;
  native_transport = "plain-codex-resume";
  native_confirmation = "bound-rollout-exact-message-and-turn-began";
}

abbrev receipt : Receipt
receipt = record {
  fence = record {
    schema = delivery_schema;
    repository = "/repo";
    delivery_id = "delivery-1";
    event_id = "event-1";
    queue_version = 1;
    supervisor_id = "supervisor-1";
    supervisor_generation = 1;
    dispatcher_id = none;
    dispatcher_generation = none;
    dispatcher_implementation_sha256 = none;
    dispatcher_release_fence = none;
    wake_worker_implementation_sha256 = some "worker";
    wake_owner = none;
    activation_lease_id = "lease-1";
    activation_fencing_token = 1;
    activation_decision_id = "decision-1";
    codex_session_binding_sha256 = "binding";
    codex_session_uuid = "0123abcd-0123-0123-0123-0123456789ab";
    message_sha256 = "message";
    transport_attempt_id = none;
    delivered_at = "09:05";
  };
  status = "DELIVERED";
  host_kind = "herdr";
  native_transport = "plain-codex-resume";
}

abbrev pub digests : Digests
digests = record {
  request_file = λ r. "request";
  binding_file = λ b. "binding";
  delivery_receipt_fence = λ f. "fence";
  consumption_identity = λ s e f. "consumption-1";
  wake_worker_implementation = "worker";
}

abbrev pub durable : Durable
durable = record {
  root = "/repo";
  realpath = "/repo";
  supervisor = supervisor;
  request = some request;
  receipt = some receipt;
  binding = some binding;
  decision = some (record decision { status = "DELIVERED"; delivered_at = some "09:05" });
}

abbrev consumption : Consumption
consumption = record {
  schema = wake_consumption_schema;
  consumption_id = "consumption-1";
  event_id = "event-1";
  task_id = "task-1";
  attempt_id = "attempt-1";
  delivery_id = "delivery-1";
  repository = "/repo";
  supervisor_id = "supervisor-1";
  supervisor_generation = 1;
  codex_session_binding_sha256 = "binding";
  wake_worker_implementation_sha256 = some "worker";
  dispatcher_implementation_sha256 = none;
  request_sha256 = "request";
  delivery_receipt_fence_sha256 = "fence";
  consumed_at = "09:10";
}

abbrev unconsumed : File Consumption
unconsumed = record { content = none; lock_held = false }

consumed_run :
    (consume_wake_delivery digests durable "event-1" (some "delivery-1") 1 "09:10" unconsumed).1
    ≡ ok (some (false, consumption))
unfolding consume_wake_delivery check_delivery is_delivered repository_mismatch binding_wrong
    valid_process_identity starts_with_slash all_digits is_uuid_code uuid_text is_sha256 is_hex
    hex_digits generation_mismatch supervisor_mismatch session_mismatch decision_mismatch
    evidence_mismatch atomic_create
consumed_run = refl

consume_wake_delivery_once_example :
    let (after, result) =
      consume_wake_delivery digests durable "event-1" (some "delivery-1") 1 "09:10" unconsumed in
    (after.content ≡ some consumption)
    × (false ≡ false
        → (unconsumed.content ≡ none)
          × (wake_delivery_consumption_status digests durable "event-1" after.content
              ≡ (true, true)))
    × (consume_wake_delivery digests durable "event-1" (some "delivery-1") 1 "09:20" after
        ≡ (after, ok (some (true, consumption))))
consume_wake_delivery_once_example =
    consume_wake_delivery_once digests durable "event-1" (some "delivery-1") 1 "09:10" "09:20"
      unconsumed false consumption consumed_run
