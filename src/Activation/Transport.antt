-- ===== src/Activation/Transport.antt =====
-- src/wakeup.js and src/cli.js: a wake whose transport never started, `reconcileWakeTransportNotStarted`
-- and `consumeReconciledTransportNotStarted`, and the consumption of an event, `consumeEvent`.
use durable_supervisor.Base.{
  Bool, List, Option, Result, String, [], all_of, any_of, err, false, if◌then◌else◌, includes,
  is_none, lookup, negb, none, ok, or_throw, some, throw_if, true, ℕ, ◌!=◌, ◌++◌, ◌==◌, ◌>>=◌, ◌>>◌,
  ◌||◌, ◌∷◌, string_eq, nat_eq, option_string_eq,
}
use durable_supervisor.Store.{
  Hash, File, Swap, swapped, lock_busy, content_changed, compare_and_swap,
}
use durable_supervisor.Lifecycle.State.{State}
use durable_supervisor.Activation.Lease.{Supervisor}
use durable_supervisor.Activation.Decision.{Decision, Request, decision_schema, targets}
use durable_supervisor.Activation.Delivery.{
  Consumption, Digests, Durable, consume_wake_delivery, wake_delivery_consumption_status,
}

pub record TransportReconciliation : Type 0 where
  pub classification : String
  pub native_transport_spawned : Bool
  pub transport_attempt_id : String
  pub evidence_sha256 : String

-- A decision in its file, with what a reconciliation has added to it.
pub record StoredDecision : Type 0 where
  pub decision : Decision
  pub reconciled_at : Option String
  pub reconciliation : Option TransportReconciliation

-- What the evidence file of a transport attempt says.
pub record TransportEvidence : Type 0 where
  pub event_id : String
  pub transport_attempt_id : Option String
  pub delivery_id : Option String
  pub activation_decision_id : Option String
  pub confirmation_absence : Option String
  pub rollout_confirmation : Option String
  pub spawn_requested_at : Option String
  pub spawned_at : Option String
  pub transport_started_at : Option String

unfoldable pub uncertain_mismatch : Supervisor → String → Request → Decision → Bool
uncertain_mismatch s event_id request d = any_of (
    (negb (targets request.target s))
    ∷ (d.schema != decision_schema)
    ∷ (d.event_id != event_id)
    ∷ (d.supervisor_id != s.supervisor_id)
    ∷ (d.supervisor_generation != s.generation)
    ∷ (d.status != "UNCERTAIN")
    ∷ [])

-- The transport never started: the condition of `transportNeverStarted`.
unfoldable pub transport_never_started : String → Decision → TransportEvidence → Bool → Bool
transport_never_started event_id d evidence has_receipt = all_of (
    (evidence.event_id == event_id)
    ∷ (evidence.transport_attempt_id == d.transport_attempt_id)
    ∷ (evidence.delivery_id == d.delivery_id)
    ∷ (evidence.activation_decision_id == some d.decision_id)
    ∷ (evidence.confirmation_absence == some "native-transport-not-started")
    ∷ (is_none evidence.rollout_confirmation)
    ∷ (is_none evidence.spawn_requested_at)
    ∷ (is_none evidence.spawned_at)
    ∷ (is_none evidence.transport_started_at)
    ∷ (negb has_receipt)
    ∷ [])

unfoldable pub reconciled_decision : String → String → String → StoredDecision → StoredDecision
reconciled_decision clock attempt evidence_sha256 stored = record {
  decision = record (stored.decision) {
    status = "TRANSPORT_NOT_STARTED";
    failure = some "transport-not-started";
  };
  reconciled_at = some clock;
  reconciliation = some (record {
    classification = "transport-not-started";
    native_transport_spawned = false;
    transport_attempt_id = attempt;
    evidence_sha256 = evidence_sha256;
  });
}

-- What `reconcileWakeTransportNotStarted` reads besides the decision: the supervisor, the request, the
-- evidence of a transport attempt, and whether there is a receipt; and the readings of the clock and of
-- the digest of the evidence.
pub record TransportRecords : Type 0 where
  pub supervisor : Supervisor
  pub request : Option Request
  pub evidence : List (String × TransportEvidence)
  pub has_receipt : Bool
  pub clock : String
  pub evidence_sha256 : TransportEvidence → String

-- The reconciled decision, if all that was read proves that the transport never started.
unfoldable pub check_not_started :
    TransportRecords → String → StoredDecision → Result StoredDecision
check_not_started t event_id stored = do
  request ← or_throw t.request "invalid durable JSON"
  throw_if (uncertain_mismatch t.supervisor event_id request stored.decision)
      "uncertain wake reconciliation fence mismatch"
  attempt ←
      or_throw stored.decision.transport_attempt_id "uncertain wake reconciliation fence mismatch"
  evidence ← or_throw (lookup attempt t.evidence) "invalid durable JSON"
  throw_if (negb (transport_never_started event_id stored.decision evidence t.has_receipt))
      "native transport absence is not proven; wake remains uncertain"
  ok (reconciled_decision t.clock attempt (t.evidence_sha256 evidence) stored)

module _ (h : Hash StoredDecision) (others : File StoredDecision → File StoredDecision) where
  open h use {Digest, sha256}

  unfoldable pub end_reconciliation :
      StoredDecision
      → File StoredDecision × Swap Digest
      → File StoredDecision × Result StoredDecision
  end_reconciliation next (file, swapped before now) = (file, ok next)
  end_reconciliation next (file, lock_busy) = (file, err "CAS_LOCK_BUSY")
  end_reconciliation next (file, content_changed now) = (file, err "CAS_CONTENT_CHANGED")

  unfoldable pub swap_reconciled :
      StoredDecision
      → File StoredDecision
      → Result StoredDecision
      → File StoredDecision × Result StoredDecision
  swap_reconciled stored file (err e) = (file, err e)
  swap_reconciled stored file (ok next) =
      end_reconciliation next (compare_and_swap h (others file) (some (sha256 stored)) next)

  -- `reconcileWakeTransportNotStarted`; `others` is what other processes do to the file of the
  -- decision between its reading and the swap.
  unfoldable pub reconcile_wake_transport_not_started :
      TransportRecords → String → File StoredDecision → File StoredDecision × Result StoredDecision
  reconcile_wake_transport_not_started t event_id file = elim file.content [
    | none ↦ (file, err "invalid durable JSON")
    | some stored ↦ swap_reconciled stored file (check_not_started t event_id stored)
  ]

unfoldable pub reconciled_mismatch : TransportRecords → String → ℕ → Request → StoredDecision → Bool
reconciled_mismatch t event_id generation request stored =
    let d = stored.decision in
    any_of (
      (generation != t.supervisor.generation)
      ∷ (negb (targets request.target t.supervisor))
      ∷ (d.schema != decision_schema)
      ∷ (d.event_id != event_id)
      ∷ (d.supervisor_id != t.supervisor.supervisor_id)
      ∷ (d.supervisor_generation != t.supervisor.generation)
      ∷ (d.status != "TRANSPORT_NOT_STARTED")
      ∷ (elim stored.reconciliation [
        | none ↦ true
        | some r ↦ r.classification != "transport-not-started" || r.native_transport_spawned
      ])
      ∷ (t.has_receipt)
      ∷ [])

-- `consumeReconciledTransportNotStarted`: nothing without a request, else the reconciliation.
unfoldable pub consume_reconciled_transport_not_started :
    TransportRecords → String → ℕ → Option StoredDecision → Result (Option StoredDecision)
consume_reconciled_transport_not_started t event_id generation decision = elim t.request [
  | none ↦ ok none
  | some request ↦ or_throw decision "invalid durable JSON" >>= λ stored.
      throw_if (reconciled_mismatch t event_id generation request stored)
        "transport-not-started event consumption fence mismatch"
      >> ok (some stored)
]

-- What `consumeEvent` reads and writes. `deliveries` and `transports` are the records of the wake.
pub record EventRecords : Type 0 where
  pub state : State
  pub event_types : List (String × String)
  pub consumption : File Consumption
  pub decision : Option StoredDecision
  pub consumed_log : List (String × String)

module _ (digests : Digests) (deliveries : Durable) (transports : TransportRecords) where
  -- The consumption of the wake of an event that has been processed, if it is asked for.
  unfoldable pub consume_again :
      String → Option String → ℕ → String → EventRecords → Result Bool × EventRecords
  consume_again event_id none generation clock r = (ok true, r)
  consume_again event_id (some delivery_id) generation clock r =
      let result =
        consume_wake_delivery digests deliveries event_id (some delivery_id) generation clock
          r.consumption in
      (result.1 >>= λ consumed. ok true, record r { consumption = result.0 })

  -- The event is entered among those that were processed.
  unfoldable pub mark_processed :
      String → String → EventRecords → Result (Unit {0}) → Result Bool × EventRecords
  mark_processed event_id type r (err e) = (err e, r)
  mark_processed event_id type r (ok _) = (
    ok false,
    record r {
      state = record (r.state) {
        processed_event_ids = r.state.processed_event_ids ++ event_id ∷ [];
      };
      consumed_log = r.consumed_log ++ (event_id, type) ∷ [];
    },
  )

  unfoldable pub consume_first :
      String → Option String → ℕ → String → String → EventRecords → Result Bool × EventRecords
  consume_first event_id delivery_id generation clock type r =
      if (wake_delivery_consumption_status digests deliveries event_id r.consumption.content).0
      then (let result =
            consume_wake_delivery digests deliveries event_id delivery_id generation clock
              r.consumption in
          mark_processed event_id type (record r { consumption = result.0 })
            (result.1 >>= λ consumed. ok tt))
      else mark_processed event_id type r (
          consume_reconciled_transport_not_started transports event_id generation r.decision
          >>= λ reconciled. ok tt)

  -- `consumeEvent`: whether the event had been processed before, and the records after it.
  unfoldable pub consume_event :
      String → Option String → ℕ → String → EventRecords → Result Bool × EventRecords
  consume_event event_id delivery_id generation clock r =
      if includes r.state.processed_event_ids event_id
      then consume_again event_id delivery_id generation clock r
      else elim (lookup event_id r.event_types) [
        | none ↦ (err "invalid durable JSON", r)
        | some type ↦ consume_first event_id delivery_id generation clock type r
      ]
