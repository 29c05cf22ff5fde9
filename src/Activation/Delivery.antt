-- ===== src/Activation/Delivery.antt =====
-- src/wakeup.js: the consumption of a delivered wake, `deliveryReceiptFence`,
-- `consumeWakeDelivery` and `wakeDeliveryConsumptionStatus`. A field that JavaScript tests for its type has that type.
use durable_supervisor.Base.{
  Bool, Option, Result, String, err, false, if◌then◌else◌, is_none, negb, none, ok, or_throw, some,
  throw_if, true, truthy, ℕ, ◌!=◌, ◌&&◌, ◌==◌, ◌>>=◌, ◌>>◌, ◌||◌, string_eq, nat_eq,
  option_string_eq,
}
use durable_supervisor.Store.{File, atomic_create}
use durable_supervisor.Activation.Lease.{Supervisor}
use durable_supervisor.Activation.Binding.{Binding, binding_wrong}
use durable_supervisor.Activation.Decision.{Decision, Request, decision_schema}

abbrev pub delivery_schema : String
delivery_schema = "opsle.durable-supervisor.host-wake-delivery/v1"

abbrev pub wake_consumption_schema : String
wake_consumption_schema = "opsle.durable-supervisor.wake-consumption/v1"

-- The fields of a receipt that its fence covers.
pub record Fence : Type 0 where
  pub schema : String
  pub repository : String
  pub delivery_id : String
  pub event_id : String
  pub queue_version : ℕ
  pub supervisor_id : String
  pub supervisor_generation : ℕ
  pub dispatcher_id : Option String
  pub dispatcher_generation : Option ℕ
  pub dispatcher_implementation_sha256 : Option String
  pub dispatcher_release_fence : Option String
  pub wake_worker_implementation_sha256 : Option String
  -- The canonical text of the owner's record.
  pub wake_owner : Option String
  pub activation_lease_id : String
  pub activation_fencing_token : ℕ
  pub activation_decision_id : String
  pub codex_session_binding_sha256 : String
  pub codex_session_uuid : String
  pub message_sha256 : String
  pub transport_attempt_id : Option String
  pub delivered_at : String

pub record Receipt : Type 0 where
  pub fence : Fence
  pub status : String
  pub host_kind : String
  pub native_transport : String

pub record Consumption : Type 0 where
  pub schema : String
  pub consumption_id : String
  pub event_id : String
  pub task_id : String
  pub attempt_id : String
  pub delivery_id : String
  pub repository : String
  pub supervisor_id : String
  pub supervisor_generation : ℕ
  pub codex_session_binding_sha256 : String
  pub wake_worker_implementation_sha256 : Option String
  pub dispatcher_implementation_sha256 : Option String
  pub request_sha256 : String
  pub delivery_receipt_fence_sha256 : String
  pub consumed_at : String

-- The digests of the files and of canonical texts, as `sha256` of node:crypto computes them, and the
-- digest of the worker's own source.
pub record Digests : Type 0 where
  pub request_file : Request → String
  pub binding_file : Binding → String
  -- `deliveryReceiptFence`
  pub delivery_receipt_fence : Fence → String
  -- `consumption_id`, of the supervisor, the event and the receipt's fence.
  pub consumption_identity : Supervisor → String → Fence → String
  pub wake_worker_implementation : String

-- The records that a consumption reads. `root` is the directory that the command is given, `realpath`
-- its resolved name.
pub record Durable : Type 0 where
  pub root : String
  pub realpath : String
  pub supervisor : Supervisor
  pub request : Option Request
  pub receipt : Option Receipt
  pub binding : Option Binding
  pub decision : Option Decision

unfoldable pub is_delivered : String → Bool
is_delivered status = status == "DELIVERED" || status == "CONSUMED"

-- The guards of `consumeWakeDelivery`, each the condition of a `throw`.
unfoldable pub repository_mismatch : Durable → Request → Fence → Binding → Bool
repository_mismatch d request fence binding =
    d.supervisor.repository != d.root
    || request.target.repository != d.supervisor.repository
    || fence.repository != d.supervisor.repository
    || binding_wrong binding
    || binding.repository_realpath != d.realpath

unfoldable pub generation_mismatch : Supervisor → ℕ → Request → Fence → Bool
generation_mismatch s generation request fence =
    generation != fence.supervisor_generation
    || fence.supervisor_generation != s.generation
    || request.target.supervisor_generation != s.generation

unfoldable pub supervisor_mismatch : Supervisor → Request → Fence → Binding → Bool
supervisor_mismatch s request fence binding =
    fence.supervisor_id != s.supervisor_id
    || request.target.supervisor_id != s.supervisor_id
    || binding.supervisor_id != s.supervisor_id

-- The decision is not the delivered one of the receipt.
unfoldable pub decision_mismatch : Supervisor → String → Fence → Decision → Bool
decision_mismatch s event_id fence d =
    d.schema != decision_schema
    || d.status != "DELIVERED"
    || d.event_id != event_id
    || d.delivery_id != some fence.delivery_id
    || d.supervisor_id != s.supervisor_id
    || d.supervisor_generation != s.generation
    || d.decision_id != fence.activation_decision_id
    || d.lease_id != fence.activation_lease_id
    || d.fencing_token != fence.activation_fencing_token
    || d.transport_attempt_id != fence.transport_attempt_id
    || d.message_sha256 != fence.message_sha256

module _ (digests : Digests) where
  unfoldable pub session_mismatch : Request → Receipt → Binding → Bool
  session_mismatch request receipt b =
      receipt.fence.queue_version != request.queue_version
      || receipt.fence.wake_worker_implementation_sha256 != some digests.wake_worker_implementation
      || receipt.fence.codex_session_binding_sha256 != digests.binding_file b
      || receipt.fence.codex_session_uuid != b.codex_session_uuid
      || receipt.host_kind != b.host_kind
      || receipt.native_transport != b.native_transport

  unfoldable pub check_delivery : Durable → String → Option String → ℕ → Request → Result Receipt
  check_delivery d event_id delivery_id generation request = do
    receipt ← or_throw d.receipt "missing durable file"
    let s = d.supervisor
    let fence = receipt.fence
    throw_if (fence.schema != delivery_schema || negb (is_delivered receipt.status))
        "wake delivery is not durably delivered"
    binding ← or_throw d.binding "wake delivery repository identity mismatch"
    throw_if (repository_mismatch d request fence binding)
        "wake delivery repository identity mismatch"
    throw_if (request.event_id != event_id || fence.event_id != event_id)
        "wake delivery event identity mismatch"
    throw_if (negb (truthy delivery_id)) "wake consumption requires exact delivery identity"
    throw_if (some fence.delivery_id != delivery_id) "wake delivery identity mismatch"
    throw_if (generation_mismatch s generation request fence)
        "stale supervisor generation cannot consume wake event"
    throw_if (supervisor_mismatch s request fence binding)
        "wrong supervisor identity cannot consume wake event"
    throw_if (binding.supervisor_generation != s.generation)
        "stale session binding cannot consume wake event"
    throw_if (session_mismatch request receipt binding)
        "wake delivery implementation or session fence mismatch"
    decision ← or_throw d.decision "wake delivery receipt fence mismatch"
    throw_if (decision_mismatch s event_id fence decision) "wake delivery receipt fence mismatch"
    ok receipt

  abbrev pub new_consumption : Durable → String → String → Request → Receipt → Consumption
  new_consumption d event_id clock request receipt = record {
    schema = wake_consumption_schema;
    consumption_id = digests.consumption_identity d.supervisor event_id receipt.fence;
    event_id = event_id;
    task_id = request.task_id;
    attempt_id = request.attempt_id;
    delivery_id = receipt.fence.delivery_id;
    repository = d.supervisor.repository;
    supervisor_id = d.supervisor.supervisor_id;
    supervisor_generation = d.supervisor.generation;
    codex_session_binding_sha256 = receipt.fence.codex_session_binding_sha256;
    wake_worker_implementation_sha256 = receipt.fence.wake_worker_implementation_sha256;
    dispatcher_implementation_sha256 = none;
    request_sha256 = digests.request_file request;
    delivery_receipt_fence_sha256 = digests.delivery_receipt_fence receipt.fence;
    consumed_at = clock;
  }

  -- The record in the file is not that of this consumption.
  unfoldable pub evidence_mismatch : Durable → String → Receipt → Consumption → Consumption → Bool
  evidence_mismatch d event_id receipt consumption durable =
      durable.schema != wake_consumption_schema
      || durable.event_id != event_id
      || durable.delivery_id != receipt.fence.delivery_id
      || durable.repository != d.supervisor.repository
      || durable.supervisor_id != d.supervisor.supervisor_id
      || durable.supervisor_generation != d.supervisor.generation
      || durable.codex_session_binding_sha256 != receipt.fence.codex_session_binding_sha256
      || durable.wake_worker_implementation_sha256 != some digests.wake_worker_implementation
      || durable.request_sha256 != consumption.request_sha256
      || durable.delivery_receipt_fence_sha256 != consumption.delivery_receipt_fence_sha256

  abbrev pub settle :
      Durable
      → String
      → Receipt
      → Consumption
      → File Consumption × Bool
      → File Consumption × Result (Option (Bool × Consumption))
  settle d event_id receipt consumption (file, created) = (
    file,
    do
      durable ← or_throw file.content "missing durable file"
      throw_if (evidence_mismatch d event_id receipt consumption durable)
          "wake consumption evidence fence mismatch"
      ok (some (negb created, durable)),
  )

  abbrev pub consume_checked :
      Durable
      → String
      → String
      → Request
      → File Consumption
      → Result Receipt
      → File Consumption × Result (Option (Bool × Consumption))
  consume_checked d event_id clock request file (err e) = (file, err e)
  consume_checked d event_id clock request file (ok receipt) =
      let consumption = new_consumption d event_id clock request receipt in
      settle d event_id receipt consumption (atomic_create file consumption)

  abbrev pub consume_request :
      Durable
      → String
      → Option String
      → ℕ
      → String
      → File Consumption
      → Option Request
      → File Consumption × Result (Option (Bool × Consumption))
  consume_request d event_id delivery_id generation clock file none = (file, ok none)
  consume_request d event_id delivery_id generation clock file (some request) =
      consume_checked d event_id clock request file
        (check_delivery d event_id delivery_id generation request)

  -- `consumeWakeDelivery`: nothing without a request, else whether it is a duplicate and the record.
  unfoldable pub consume_wake_delivery :
      Durable
      → String
      → Option String
      → ℕ
      → String
      → File Consumption
      → File Consumption × Result (Option (Bool × Consumption))
  consume_wake_delivery d event_id delivery_id generation clock file =
      consume_request d event_id delivery_id generation clock file d.request

  unfoldable pub consumption_matches : String → Receipt → Request → Consumption → Bool
  consumption_matches event_id receipt request c =
      c.schema == wake_consumption_schema
      && c.event_id == event_id
      && c.delivery_id == receipt.fence.delivery_id
      && c.repository == receipt.fence.repository
      && c.supervisor_id == receipt.fence.supervisor_id
      && c.supervisor_generation == receipt.fence.supervisor_generation
      && c.codex_session_binding_sha256 == receipt.fence.codex_session_binding_sha256
      && (c.wake_worker_implementation_sha256 == receipt.fence.wake_worker_implementation_sha256
          || is_none receipt.fence.wake_worker_implementation_sha256
            && c.dispatcher_implementation_sha256 == receipt.fence.dispatcher_implementation_sha256)
      && c.task_id == request.task_id
      && c.attempt_id == request.attempt_id
      && c.request_sha256 == digests.request_file request
      && c.delivery_receipt_fence_sha256 == digests.delivery_receipt_fence receipt.fence

  abbrev pub matches_records : String → Receipt → Option Request → Option Consumption → Bool
  matches_records event_id receipt (some request) (some c) =
      consumption_matches event_id receipt request c
  matches_records event_id receipt (some request) none = false
  matches_records event_id receipt none c = false

  -- `wakeDeliveryConsumptionStatus`: delivered, and consumed.
  unfoldable pub wake_delivery_consumption_status :
      Durable → String → Option Consumption → Bool × Bool
  wake_delivery_consumption_status d event_id c = elim d.receipt [
    | none ↦ (false, false)
    | some receipt ↦
        if negb (is_delivered receipt.status)
        then (false, false)
        else if receipt.status == "CONSUMED"
        then (true, true)
        else (true, matches_records event_id receipt d.request c)
  ]
