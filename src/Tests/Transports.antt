-- ===== src/Tests/Transports.antt =====
-- src/wakeup.js and src/cli.js: a wake whose transport never started, and its event.
use durable_supervisor.Base.{
  [], all_of, any_of, false, includes, lookup, none, ok, refl, some, true, ◌++◌, ◌∷◌, ◌≡◌,
  string_eq,
}
use durable_supervisor.Store.{Hash, File, compare_and_swap}
use durable_supervisor.Activation.Decision.{targets}
use durable_supervisor.Activation.Delivery.{Durable, wake_delivery_consumption_status}
use durable_supervisor.Activation.Transport.{
  EventRecords, StoredDecision, TransportEvidence, TransportRecords, check_not_started,
  consume_event, consume_first, consume_reconciled_transport_not_started, end_reconciliation,
  mark_processed, reconcile_wake_transport_not_started, reconciled_decision, reconciled_mismatch,
  swap_reconciled, transport_never_started, uncertain_mismatch,
}
use durable_supervisor.Activation.Settled.{
  IsSettled, consume_event_once, reconcile_wake_transport_not_started-IsSettled,
}
use durable_supervisor.Tests.Activations.{supervisor, request, decision, digests, durable}
use durable_supervisor.Tests.Lifecycles.{state}
use durable_supervisor.Tests.Records.{own_digest, stored_decision_discrete}

abbrev uncertain : StoredDecision
uncertain = record {
  decision = record decision { status = "UNCERTAIN"; transport_attempt_id = some "transport-1" };
  reconciled_at = none;
  reconciliation = none;
}

abbrev evidence : TransportEvidence
evidence = record {
  event_id = "event-1";
  transport_attempt_id = some "transport-1";
  delivery_id = some "delivery-1";
  activation_decision_id = some "decision-1";
  confirmation_absence = some "native-transport-not-started";
  rollout_confirmation = none;
  spawn_requested_at = none;
  spawned_at = none;
  transport_started_at = none;
}

abbrev transports : TransportRecords
transports = record {
  supervisor = supervisor;
  request = some request;
  evidence = ("transport-1", evidence) ∷ [];
  has_receipt = false;
  clock = "09:30";
  evidence_sha256 = λ e. e.event_id;
}

abbrev stored_decisions : Hash StoredDecision
stored_decisions = own_digest stored_decision_discrete

abbrev before : File StoredDecision
before = record { content = some uncertain; lock_held = false }

abbrev reconciled : StoredDecision
reconciled = record {
  decision = record (uncertain.decision) {
    status = "TRANSPORT_NOT_STARTED";
    failure = some "transport-not-started";
  };
  reconciled_at = some "09:30";
  reconciliation = some (record {
    classification = "transport-not-started";
    native_transport_spawned = false;
    transport_attempt_id = "transport-1";
    evidence_sha256 = "event-1";
  });
}

abbrev settled : File StoredDecision
settled = record { content = some reconciled; lock_held = false }

settles :
    reconcile_wake_transport_not_started stored_decisions (λ f. f) transports "event-1" before
    ≡ (settled, ok reconciled)
unfolding reconcile_wake_transport_not_started swap_reconciled end_reconciliation check_not_started
    uncertain_mismatch transport_never_started reconciled_decision targets any_of all_of lookup
    compare_and_swap
settles = rw (stored_decisions.same_refl (stored_decisions.sha256 uncertain)) refl

reconcile_wake_transport_not_started-IsSettled_example :
    IsSettled transports "event-1" before settled reconciled
reconcile_wake_transport_not_started-IsSettled_example =
    reconcile_wake_transport_not_started-IsSettled stored_decisions (λ f. f) transports "event-1"
      before settled reconciled settles

abbrev undelivered : Durable
undelivered = record durable { receipt = none }

abbrev waiting : EventRecords
waiting = record {
  state = state;
  event_types = ("event-1", "CHILD_COMPLETION") ∷ [];
  consumption = record { content = none; lock_held = false };
  decision = some reconciled;
  consumed_log = [];
}

abbrev processed : EventRecords
processed = record waiting {
  state = record state { processed_event_ids = "event-1" ∷ [] };
  consumed_log = ("event-1", "CHILD_COMPLETION") ∷ [];
}

processes :
    consume_event digests undelivered transports "event-1" none 1 "10:00" waiting
    ≡ (ok false, processed)
unfolding consume_event consume_first mark_processed consume_reconciled_transport_not_started
    reconciled_mismatch targets any_of lookup includes wake_delivery_consumption_status
processes = refl

consume_event_once_example :
    (includes waiting.state.processed_event_ids "event-1" ≡ false)
    × (processed.state.processed_event_ids ≡ waiting.state.processed_event_ids ++ "event-1" ∷ [])
    × (consume_event digests undelivered transports "event-1" none 2 "11:00" processed
        ≡ (ok true, processed))
consume_event_once_example =
    consume_event_once digests undelivered transports "event-1" none 1 2 "10:00" "11:00" waiting
      processed processes
