-- ===== src/Activation/Decision.antt =====
-- src/wakeup.js: the decision to activate for one wake and the queue's view of it,
-- `claimActivationDecision`, `updateActivationDecision`, `constructWakeMessage`,
-- `classifyQueuedWake` and `enqueueTerminalWake`.
use durable_supervisor.Base.{
  Bool, List, Option, Result, String, [], err, false, if◌then◌else◌, includes, leb, negb, none, ok,
  or_throw, some, throw_if, true, ℕ, ◌!=◌, ◌&&◌, ◌++◌, ◌==◌, ◌>>=◌, ◌>>◌, ◌||◌, ◌∷◌, string_eq,
  nat_eq, option_string_eq,
}
use durable_supervisor.Store.{
  Hash, File, Swap, swapped, lock_busy, content_changed, compare_and_swap, digest_of, atomic_create,
}
use durable_supervisor.Wait.{terminal_wake_types}
use durable_supervisor.Activation.Lease.{
  Lease, Machine, Supervisor, decision_fence_current, max_safe_integer,
}

abbrev pub decision_schema : String
decision_schema = "opsle.durable-supervisor.activation-decision/v1"

abbrev pub wake_request_schema : String
wake_request_schema = "opsle.durable-supervisor.host-wake-request/v1"

abbrev pub native_wake_request_schema : String
native_wake_request_schema = "opsle.durable-supervisor.native-wake-request/v2"

pub record Target : Type 0 where
  pub repository : String
  pub supervisor_id : String
  pub supervisor_generation : ℕ

pub record Request : Type 0 where
  pub schema : String
  pub event_id : String
  pub event_type : String
  pub terminal_type : String
  pub task_id : String
  pub attempt_id : String
  pub wait_id : String
  pub target : Target
  pub queue_version : ℕ
  pub queued_at : String

-- An entry of `prior_attempts`.
pub record PriorAttempt : Type 0 where
  pub decision_id : String
  pub lease_id : String
  pub fencing_token : ℕ
  pub status : String
  pub claimed_at : String
  pub failure : Option String
  pub transport_attempt_id : Option String
  pub delivery_id : Option String

pub record Decision : Type 0 where
  pub schema : String
  pub decision_id : String
  pub event_id : String
  pub supervisor_id : String
  pub supervisor_generation : ℕ
  pub lease_id : String
  pub fencing_token : ℕ
  pub message_sha256 : String
  pub transport_attempt_id : Option String
  pub delivery_id : Option String
  pub status : String
  pub claimed_at : String
  pub delivered_at : Option String
  pub failure : Option String
  pub prior_attempts : List PriorAttempt

-- The target names the supervisor of now.
unfoldable pub targets : Target → Supervisor → Bool
targets target s =
    target.repository == s.repository
    && target.supervisor_id == s.supervisor_id
    && target.supervisor_generation == s.generation

-- `constructWakeMessage`; `print_nat` is JavaScript's decimal text of a number.
unfoldable pub construct_wake_message : (ℕ → String) → String → ℕ → Result (List String)
construct_wake_message print_nat event_id generation =
    if event_id == "" || generation == 0 || negb (leb generation max_safe_integer)
    then err "wake message requires event ID and positive supervisor generation"
    else ok (
        "OPSLE_WAKE v1 event="
        ∷ event_id
        ∷ " gen="
        ∷ print_nat generation
        ∷ "; read durable state."
        ∷ [])

-- What one claim of a decision takes from outside: the two readings of the clock that the fences are
-- tested at, the new identity, the text of the clock, and the digest of the message.
pub record Attempt : Type 0 where
  pub now_ms : ℕ
  pub later_ms : ℕ
  pub fresh : String
  pub claimed_at : String
  pub message_sha256 : String
  pub transport_attempt_id : Option String
  pub delivery_id : Option String

pub data Claimed : Type 0 where
  claimed : Bool → Decision → Claimed
  unclaimed : String → String → Claimed
  existing : Option Decision → Claimed

abbrev pub new_decision : Supervisor → String → Lease → Attempt → Decision
new_decision s event_id lease attempt = record {
  schema = decision_schema;
  decision_id = attempt.fresh;
  event_id = event_id;
  supervisor_id = s.supervisor_id;
  supervisor_generation = s.generation;
  lease_id = lease.lease_id;
  fencing_token = lease.fencing_token;
  message_sha256 = attempt.message_sha256;
  transport_attempt_id = attempt.transport_attempt_id;
  delivery_id = attempt.delivery_id;
  status = "CLAIMED";
  claimed_at = attempt.claimed_at;
  delivered_at = none;
  failure = none;
  prior_attempts = [];
}

abbrev pub prior_attempt : Decision → PriorAttempt
prior_attempt d = record {
  decision_id = d.decision_id;
  lease_id = d.lease_id;
  fencing_token = d.fencing_token;
  status = d.status;
  claimed_at = d.claimed_at;
  failure = d.failure;
  transport_attempt_id = d.transport_attempt_id;
  delivery_id = d.delivery_id;
}

module _ (h : Hash Decision) where
  open h use {Digest}

  abbrev pub retry_swap : Decision → File Decision × Swap Digest → File Decision × Claimed
  retry_swap next (file, swapped before after) = (file, claimed true next)
  retry_swap next (file, lock_busy) = (file, existing file.content)
  retry_swap next (file, content_changed now) = (file, existing file.content)

  -- The file of the decision exists: one whose transport never started is replaced.
  abbrev pub claim_existing :
      (File Decision → File Decision)
      → Bool
      → Decision
      → File Decision
      → Option Decision
      → File Decision × Claimed
  claim_existing others fence next file none = (file, existing none)
  claim_existing others fence next file (some current) =
      let with_prior : Decision = record next {
        prior_attempts = current.prior_attempts ++ prior_attempt current ∷ [];
      } in
      if current.status == "TRANSPORT_NOT_STARTED" && fence
      then retry_swap with_prior
          (compare_and_swap h (others file) (digest_of h (some current)) with_prior)
      else (file, existing file.content)

  abbrev pub claim_created :
      (File Decision → File Decision)
      → Bool
      → Decision
      → File Decision × Bool
      → File Decision × Claimed
  claim_created others fence next (file, true) = (file, claimed false next)
  claim_created others fence next (file, false) = claim_existing others fence next file file.content

  -- `claimActivationDecision`, by the holder of a lease, with what other processes do between the
  -- reading of an existing decision and the swap.
  unfoldable pub claim_activation_decision :
      Machine
      → Supervisor
      → Option Lease
      → String
      → Request
      → Lease
      → Attempt
      → (File Decision → File Decision)
      → File Decision
      → File Decision × Claimed
  claim_activation_decision machine s held event_id request lease attempt others file =
      if negb (decision_fence_current machine s attempt.now_ms lease held)
      then (file, unclaimed "stale-generation" "activation-lease-fence-no-longer-current")
      else if negb (targets request.target s)
      then (file, unclaimed "obsolete" "wake-target-generation-is-stale")
      else (let next = new_decision s event_id lease attempt in
          claim_created others (decision_fence_current machine s attempt.later_ms lease held) next
            (atomic_create file next))

  abbrev pub update_swap : Decision → File Decision × Swap Digest → File Decision × Option Decision
  update_swap next (file, swapped before after) = (file, some next)
  update_swap next (file, lock_busy) = (file, none)
  update_swap next (file, content_changed now) = (file, none)

  -- `updateActivationDecision`: the decision it has written, if it has; a missing file throws.
  unfoldable pub update_activation_decision :
      (File Decision → File Decision)
      → String
      → Decision
      → String
      → Option String
      → File Decision
      → Result (File Decision × Option Decision)
  update_activation_decision others clock d status failure file = do
    current ← or_throw file.content "missing durable file"
    let next : Decision = record current {
      status = status;
      delivered_at = if status == "DELIVERED" then some clock else none;
      failure = failure;
    }
    ok (
        if current.decision_id != d.decision_id
          || current.lease_id != d.lease_id
          || current.fencing_token != d.fencing_token
          || current.status != "CLAIMED"
        then (file, none)
        else update_swap next (compare_and_swap h (others file) (digest_of h (some current)) next))

-- What `classifyQueuedWake` reads beside the request.
pub record Records : Type 0 where
  pub processed_event_ids : List String
  pub task_state : Option String
  -- The attempt's record has an evaluation.
  pub evaluated : Bool
  pub decision : Option Decision

-- `classifyQueuedWake`: the classification and the reason; the reason of a decision is its status.
unfoldable pub classify_queued_wake : Supervisor → Records → Request → String × String
classify_queued_wake s r request =
    if negb (request.schema == wake_request_schema || request.schema == native_wake_request_schema)
    then ("queued", "invalid-wake-request")
    else if negb (targets request.target s)
    then ("obsolete", "wake-target-generation-is-stale")
    else if includes r.processed_event_ids request.event_id
    then ("obsolete", "wake-event-already-consumed")
    else if r.task_state == some "ACCEPTED" || r.task_state == some "REJECTED" || r.evaluated
    then ("obsolete", "task-already-terminal-and-evaluated")
    else elim r.decision [
      | none ↦ ("queued", "awaiting-supported-native-transport")
      | some d ↦
          if d.status == "TRANSPORT_NOT_STARTED"
          then ("queued", "awaiting-supported-native-transport")
          else (if d.status == "DELIVERED" then "duplicate" else "queued", d.status)
    ]

pub record Completion : Type 0 where
  pub event_id : String
  pub type : String
  pub terminal_type : String
  pub task_id : String
  pub attempt_id : String
  pub wait_id : String

abbrev pub new_request : Supervisor → Completion → String → Request
new_request s c clock = record {
  schema = native_wake_request_schema;
  event_id = c.event_id;
  event_type = c.type;
  terminal_type = c.terminal_type;
  task_id = c.task_id;
  attempt_id = c.attempt_id;
  wait_id = c.wait_id;
  target = record {
    repository = s.repository;
    supervisor_id = s.supervisor_id;
    supervisor_generation = s.generation;
  };
  queue_version = 1;
  queued_at = clock;
}

-- `enqueueTerminalWake`: the file of the request, the request that stands in it, and whether the
-- event `HOST_WAKE_QUEUED` is logged. `host_bound` says that a host binding is given.
unfoldable pub enqueue_terminal_wake :
    Supervisor
    → Bool
    → String
    → Completion
    → File Request
    → Result (File Request × Option Request × Bool)
enqueue_terminal_wake s host_bound clock c file = do
  throw_if (c.type != "CHILD_COMPLETION" || negb (includes terminal_wake_types c.terminal_type))
      "only durable terminal child events are eligible for host wake delivery"
  throw_if host_bound "new wake requests cannot bind a terminal host transport"
  let (after, created) = atomic_create file (new_request s c clock)
  ok (after, after.content, created)
