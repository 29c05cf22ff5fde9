-- ===== src/Activation/Lease.antt =====
-- src/wakeup.js: the lease of the process that may activate a supervisor, `sameProcess`,
-- `activationOwnerCurrent`, `leaseExpired`, `acquireActivationLease`, `releaseActivationLease` and
-- `decisionFenceCurrent`. Times are milliseconds; a text that `Date.parse` does not read is `none`.
use durable_supervisor.Base.{
  Bool, List, Option, Result, String, [], all_of, false, if◌then◌else◌, is_none, leb, negb, none,
  ok, some, suc, throw_if, true, ℕ, ◌!=◌, ◌&&◌, ◌+◌, ◌==◌, ◌>>◌, ◌||◌, ◌∷◌, option_string_eq,
  nat_eq, string_eq, option_nat_eq,
}
use durable_supervisor.Store.{
  Hash, File, Swap, swapped, lock_busy, content_changed, compare_and_swap, digest_of,
}

abbrev pub lease_schema : String
lease_schema = "opsle.durable-supervisor.activation-lease/v1"

abbrev pub owner_schema : String
owner_schema = "opsle.durable-supervisor.opsled-wake-owner/v1"

pub record Process : Type 0 where
  pub pid : ℕ
  pub start_time_ticks : String
  pub executable : String

pub record Owner : Type 0 where
  pub kind : String
  pub schema : Option String
  pub process : Option Process
  pub service_id : Option String
  pub service_generation : Option ℕ
  -- The canonical text of the whole record.
  pub canonical_json : String

pub record Supervisor : Type 0 where
  pub repository : String
  pub supervisor_id : String
  pub generation : ℕ

pub record Lease : Type 0 where
  pub schema : String
  pub lease_id : String
  pub event_id : String
  pub supervisor_id : String
  pub supervisor_generation : ℕ
  pub fencing_token : ℕ
  pub owner : Option Owner
  pub status : String
  pub acquired_at : ℕ
  pub expires_at : Option ℕ
  pub released_at : Option ℕ

-- What the machine says of processes: `processIdentity`, which reads /proc, and whether
-- `assertReleaseFence` of src/runtime-release.js passes for a role and an owner.
pub record Machine : Type 0 where
  pub process_identity : ℕ → Option Process
  pub release_fence_holds : String → Owner → Bool

unfoldable pub same_process : Option Process → Option Process → Bool
same_process none right = false
same_process (some left) none = false
same_process (some left) (some right) =
    left.pid == right.pid
    && left.start_time_ticks == right.start_time_ticks
    && left.executable == right.executable

abbrev pub identity_of : Machine → Option Process → Option Process
identity_of machine none = none
identity_of machine (some process) = machine.process_identity process.pid

-- `activationOwnerCurrent`
unfoldable pub activation_owner_current : Machine → Option Owner → Bool
activation_owner_current machine none = false
activation_owner_current machine (some owner) =
    if negb (same_process owner.process (identity_of machine owner.process))
    then false
    else if negb (owner.kind == "opsled" || owner.kind == "opsled-wake-worker")
    then true
    else if owner.schema != some owner_schema
        || is_none owner.service_id
        || is_none owner.service_generation
    then false
    else machine.release_fence_holds
        (if owner.kind == "opsled-wake-worker" then "opsled-wake-worker" else "opsled-worker") owner

abbrev pub canonical_owner : Option Owner → Option String
canonical_owner none = none
canonical_owner (some owner) = some owner.canonical_json

-- `sameActivationOwner`
abbrev pub same_activation_owner : Option Owner → Option Owner → Bool
same_activation_owner left right = canonical_owner left == canonical_owner right

unfoldable pub lease_expired : Option ℕ → ℕ → Bool
lease_expired none now_ms = true
lease_expired (some expiry) now_ms = leb expiry now_ms

-- The lease is owned for the supervisor of now, and has not expired.
unfoldable pub live_lease : Supervisor → ℕ → Lease → Bool
live_lease s now_ms lease =
    lease.schema == lease_schema
    && lease.status == "OWNED"
    && lease.supervisor_id == s.supervisor_id
    && lease.supervisor_generation == s.generation
    && negb (lease_expired lease.expires_at now_ms)

-- The value that `acquireActivationLease` returns: the own lease of before, a new one (and whether it
-- replaces another record), or why not.
pub data Acquisition : Type 0 where
  duplicate_of : Lease → Acquisition
  taken : Bool → Lease → Acquisition
  refused : String → String → Acquisition

-- A call: the event, the owner, the lifetime, the clock, and for each of its two rounds a new
-- identity and what other processes do to the lease's file after the round has read it.
pub record Call : Type 0 where
  pub event_id : String
  pub owner : Option Owner
  pub ttl_ms : ℕ
  pub now_ms : ℕ
  pub fresh : ℕ → String
  pub others : ℕ → File Lease → File Lease

abbrev pub max_safe_integer : ℕ
max_safe_integer = 9007199254740991

-- The return of a round that finds a live lease.
unfoldable pub blocked : Supervisor → Call → Option Lease → Option Acquisition
blocked s call none = none
blocked s call (some current) =
    if live_lease s call.now_ms current
    then (if current.event_id == call.event_id && same_activation_owner current.owner call.owner
        then some (duplicate_of current)
        else some (refused "busy" "another-activation-lease-is-current"))
    else none

abbrev pub token : Option Lease → ℕ
token none = 0
token (some lease) = lease.fencing_token

abbrev pub next_lease : Supervisor → Call → ℕ → Option Lease → Lease
next_lease s call round current = record {
  schema = lease_schema;
  lease_id = call.fresh round;
  event_id = call.event_id;
  supervisor_id = s.supervisor_id;
  supervisor_generation = s.generation;
  fencing_token = suc (token current);
  owner = call.owner;
  status = "OWNED";
  acquired_at = call.now_ms;
  expires_at = some (call.now_ms + call.ttl_ms);
  released_at = none;
}

module _ (h : Hash Lease) (machine : Machine) (s : Supervisor) where
  open h use {Digest}

  -- After the swap of a round: `retry` is the next round.
  abbrev pub swap_lease :
      (File Lease → File Lease × Acquisition)
      → Option Lease
      → Lease
      → File Lease × Swap Digest
      → File Lease × Acquisition
  swap_lease retry current next (file, swapped before after) =
      (file, taken (negb (is_none current)) next)
  swap_lease retry current next (file, lock_busy) = (file, refused "busy" "cas-lock-busy")
  swap_lease retry current next (file, content_changed now) = retry file

  abbrev pub take_lease :
      Call
      → ℕ
      → (File Lease → File Lease × Acquisition)
      → File Lease
      → Option Acquisition
      → File Lease × Acquisition
  take_lease call round retry file (some early) = (file, early)
  take_lease call round retry file none =
      swap_lease retry file.content (next_lease s call round file.content) (
        compare_and_swap h (call.others round file) (digest_of h file.content)
          (next_lease s call round file.content))

  unfoldable pub lease_round :
      Call → ℕ → (File Lease → File Lease × Acquisition) → File Lease → File Lease × Acquisition
  lease_round call round retry file = take_lease call round retry file (blocked s call file.content)

  abbrev pub raced : File Lease → File Lease × Acquisition
  raced file = (file, refused "busy" "activation-lease-cas-raced")

  unfoldable pub acquire_activation_lease : Call → File Lease → Result (File Lease × Acquisition)
  acquire_activation_lease call file = do
    throw_if (call.event_id == "") "activation lease requires event identity"
    throw_if (call.ttl_ms == 0 || negb (leb call.ttl_ms max_safe_integer))
        "activation lease requires positive TTL"
    ok (
        if negb (activation_owner_current machine call.owner)
        then (file, refused "stale-owner" "opsled-wake-owner-process-dead-or-reused")
        else lease_round call 0 (lease_round call 1 raced) file)

-- `decisionFenceCurrent`: the file still holds the lease, owned, unexpired, for the supervisor of now
-- and by a process that still runs.
abbrev pub fence_tests : Machine → Supervisor → ℕ → Lease → Lease → List Bool
fence_tests machine s now_ms lease current =
    (current.schema == lease_schema)
    ∷ (current.status == "OWNED")
    ∷ (current.expires_at == lease.expires_at)
    ∷ (negb (lease_expired current.expires_at now_ms))
    ∷ (current.lease_id == lease.lease_id)
    ∷ (current.fencing_token == lease.fencing_token)
    ∷ (current.event_id == lease.event_id)
    ∷ (current.supervisor_id == lease.supervisor_id)
    ∷ (current.supervisor_generation == lease.supervisor_generation)
    ∷ (current.supervisor_id == s.supervisor_id)
    ∷ (current.supervisor_generation == s.generation)
    ∷ (same_activation_owner current.owner lease.owner)
    ∷ (activation_owner_current machine current.owner)
    ∷ []

unfoldable pub decision_fence_current : Machine → Supervisor → ℕ → Lease → Option Lease → Bool
decision_fence_current machine s now_ms lease none = false
decision_fence_current machine s now_ms lease (some current) =
    all_of (fence_tests machine s now_ms lease current)

-- The value that `releaseActivationLease` returns.
pub data Release : Type 0 where
  released : Bool → Lease → Release
  kept : String → Release

abbrev pub same_fence : Lease → Lease → Bool
same_fence current lease =
    current.lease_id == lease.lease_id
    && current.fencing_token == lease.fencing_token
    && current.supervisor_id == lease.supervisor_id
    && current.supervisor_generation == lease.supervisor_generation

module _ (h : Hash Lease) where
  open h use {Digest}

  abbrev pub release_swap : Lease → File Lease × Swap Digest → File Lease × Release
  release_swap next (file, swapped before after) = (file, released false next)
  release_swap next (file, lock_busy) = (file, kept "cas-lock-busy")
  release_swap next (file, content_changed now) = (file, kept "cas-content-changed")

  abbrev pub release_current :
      (File Lease → File Lease) → ℕ → Lease → File Lease → Option Lease → File Lease × Release
  release_current others now_ms lease file none = (file, kept "activation-lease-missing")
  release_current others now_ms lease file (some current) =
      let next : Lease = record current { status = "RELEASED"; released_at = some now_ms } in
      if negb (same_fence current lease)
      then (file, kept "activation-lease-fence-mismatch")
      else if current.status == "RELEASED"
      then (file, released true current)
      else release_swap next (compare_and_swap h (others file) (digest_of h (some current)) next)

  -- `releaseActivationLease`, with what other processes do between its reading and its swap.
  unfoldable pub release_activation_lease :
      (File Lease → File Lease) → ℕ → Lease → File Lease → File Lease × Release
  release_activation_lease others now_ms lease file =
      release_current others now_ms lease file file.content
