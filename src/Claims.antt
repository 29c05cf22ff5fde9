-- ===== src/Claims.antt =====
-- src/pipeline.js: the claims of attempts on tasks and their index, `claimIndexSnapshot`,
-- `exactIndexedClaim`, `exactClaimIdentity`, `acquireClaim` and `releaseClaim`.
-- The files that only these functions write are a record; other processes act on the index file
-- between the reading of a round and its swap, as the function `others` of the round says.
pub mod Index
pub mod Protocol
pub mod Laws
pub mod Released
pub mod Exclusion
use durable_supervisor.Store.{
  Hash, File, swapped, lock_busy, content_changed, compare_and_swap, Swap,
}
use durable_supervisor.Base.{
  Bool, List, Option, Result, String, [], err, false, if◌then◌else◌, insert, lookup, negb, none,
  nonempty, ok, some, suc, throw_if, zero, ℕ, ◌!=◌, ◌&&◌, ◌++◌, ◌+◌, ◌==◌, ◌>>◌, ◌∷◌, nat_eq,
  string_eq,
}
use Index.{
  Claim, ClaimIndex, IndexContent, claim_schema, active, snapshot, conflicts, exact_indexed_claim,
  exact_claim_identity,
}

-- What a claim needs of its task, and the supervisor's record.
pub record Task : Type 0 where
  pub task_id : String
  pub supervisor_id : String
  -- The canonical text of the whole task record.
  pub canonical_json : String

pub record Supervisor : Type 0 where
  pub supervisor_id : String
  pub generation : ℕ

pub record Event : Type 0 where
  pub type : String
  pub task_id : String
  pub attempt_id : String
  pub claim_id : String
  pub fence_generation : ℕ

pub record Claims : Type 0 where
  pub supervisor : Supervisor
  -- The files of `tasks`, `claims` and the log of events.
  pub tasks : List (String × Task)
  pub index : File IndexContent
  pub claims : List (String × Claim)
  pub events : List Event

-- What a call takes from outside, for each round: a new identity (`id('claim')`), the readings of
-- the clock, and what other processes do to the index file after this round has read it.
pub record World : Type 0 where
  pub fresh : ℕ → String
  pub clock : ℕ → String
  pub heartbeat_clock : ℕ → String
  pub others : ℕ → File IndexContent → File IndexContent

abbrev pub cas_attempts : ℕ
cas_attempts = 256

-- The indexed claim is the one of the claim's own file, and still active.
unfoldable pub index_check : Option Claim → Claim → Result (Unit {0})
index_check none current = err "claim index ownership is ambiguous or stale"
index_check (some indexed) current =
    throw_if (negb (exact_indexed_claim (some indexed) current))
      "claim index ownership is ambiguous or stale"
    >> throw_if (indexed.status != active) "claim index is already terminal"

module _ (h : Hash IndexContent) (world : World) where
  unfoldable pub new_claim : ℕ → Claims → Task → String → ℕ → Claim
  new_claim round s task attempt_id fence = record {
    schema = claim_schema;
    claim_id = world.fresh round;
    task_id = task.task_id;
    attempt_id = attempt_id;
    owner_supervisor_id = s.supervisor.supervisor_id;
    owner_generation = s.supervisor.generation;
    fence_generation = fence;
    status = active;
    acquired_at = world.clock round;
    heartbeat_at = world.heartbeat_clock round;
    completed_at = none;
  }

  unfoldable pub acquired : Claims → File IndexContent → Claim → Claims
  acquired s file claim = record s {
    index = file;
    claims = insert claim.claim_id claim s.claims;
    events =
        s.events
        ++ record {
          type = "CLAIM_ACQUIRED";
          task_id = claim.task_id;
          attempt_id = claim.attempt_id;
          claim_id = claim.claim_id;
          fence_generation = claim.fence_generation;
        }
          ∷ [];
  }

  unfoldable pub next_index : ClaimIndex → Claim → IndexContent
  next_index index claim = IndexContent.json (record index {
    next_fence = index.next_fence + 1;
    entries = insert claim.task_id claim index.entries;
  })

  -- The end of a round: the swap took place, or another round is tried.
  unfoldable pub acquire_swap :
      (Claims → Result Claim × Claims)
      → Claims
      → Claim
      → File IndexContent × Swap (h.Digest)
      → Result Claim × Claims
  acquire_swap retry s claim (file, swapped before now) = (ok claim, acquired s file claim)
  acquire_swap retry s claim (file, lock_busy) = retry (record s { index = file })
  acquire_swap retry s claim (file, content_changed current) = retry (record s { index = file })

  -- A round from the index that it has read.
  unfoldable pub acquire_round :
      (Claims → Result Claim × Claims)
      → ℕ
      → Claims
      → Task
      → String
      → Result (ClaimIndex × Option (h.Digest))
      → Result Claim × Claims
  acquire_round retry round s task attempt_id (err e) = (err e, s)
  acquire_round retry round s task attempt_id (ok (index, digest)) =
      if conflicts task.task_id index.entries
      then (err "claim conflict", s)
      else (let claim = new_claim round s task attempt_id index.next_fence in
          acquire_swap retry s claim
            (compare_and_swap h (world.others round s.index) digest (next_index index claim)))

  -- The rounds that are left of the loop, each with its own snapshot.
  unfoldable pub acquire_rounds : ℕ → Claims → Task → String → Result Claim × Claims
  unfolding acquire_round acquire_swap new_claim acquired next_index
  acquire_rounds zero s task attempt_id = (err "claim index contention did not resolve", s)
  acquire_rounds (suc round) s task attempt_id =
      acquire_round (λ u. acquire_rounds round u task attempt_id) round s task attempt_id
        (snapshot h s.index)

  -- The record of the task in its file is the one that the caller holds, and is this supervisor's.
  unfoldable pub task_authority : Claims → Task → String → Bool
  task_authority s task attempt_id = elim (lookup task.task_id s.tasks) [
    | none ↦ false
    | some stored ↦
        nonempty attempt_id
        && stored.canonical_json == task.canonical_json
        && task.supervisor_id == s.supervisor.supervisor_id
  ]

  unfoldable pub acquire_claim : Claims → Task → String → Result Claim × Claims
  unfolding acquire_rounds
  acquire_claim s task attempt_id =
      if task_authority s task attempt_id
      then acquire_rounds cas_attempts s task attempt_id
      else (err "claim acquisition task authority is ambiguous or stale", s)

  unfoldable pub released : Claim → String → ℕ → Claim
  released claim status round = record claim {
    status = status;
    completed_at = some (world.clock round);
  }

  unfoldable pub release_swap :
      (Claims → Result Claim × Claims)
      → Claims
      → Claim
      → File IndexContent × Swap (h.Digest)
      → Result Claim × Claims
  release_swap retry s next (file, swapped before now) =
      (ok next, record s { index = file; claims = insert next.claim_id next s.claims })
  release_swap retry s next (file, lock_busy) = retry (record s { index = file })
  release_swap retry s next (file, content_changed current) = retry (record s { index = file })

  unfoldable pub release_index :
      (Claims → Result Claim × Claims)
      → ℕ
      → Claims
      → Claim
      → String
      → ClaimIndex
      → Option (h.Digest)
      → Result (Unit {0})
      → Result Claim × Claims
  release_index retry round s current status index digest (err e) = (err e, s)
  release_index retry round s current status index digest (ok _) =
      let next = released current status round in
      release_swap retry s next (
        compare_and_swap h (world.others round s.index) digest (
          IndexContent.json (record index { entries = insert current.task_id next index.entries })))

  unfoldable pub release_round :
      (Claims → Result Claim × Claims)
      → ℕ
      → Claims
      → Claim
      → String
      → Result (ClaimIndex × Option (h.Digest))
      → Result Claim × Claims
  release_round retry round s current status (err e) = (err e, s)
  release_round retry round s current status (ok (index, digest)) =
      release_index retry round s current status index digest
        (index_check (lookup current.task_id index.entries) current)

  unfoldable pub release_rounds : ℕ → Claims → Claim → String → Result Claim × Claims
  unfolding release_round release_index release_swap released index_check
  release_rounds zero s current status = (err "claim index contention did not resolve", s)
  release_rounds (suc round) s current status =
      release_round (λ u. release_rounds round u current status) round s current status
        (snapshot h s.index)

  unfoldable pub release_claim : Claims → Claim → String → Result Claim × Claims
  unfolding release_rounds
  release_claim s claim status = elim (lookup claim.claim_id s.claims) [
    | none ↦ (err "invalid durable JSON", s)
    | some current ↦
        if negb (
          exact_claim_identity current
            (record claim { fence_generation = current.fence_generation }))
        then (err "claim identity is ambiguous", s)
        else if current.fence_generation != claim.fence_generation
        then (err "stale claim fence", s)
        else if current.status != active
        then (if current.status != status
            then (err "claim is already terminal", s)
            else (ok current, s))
        else release_rounds cas_attempts s current status
  ]
