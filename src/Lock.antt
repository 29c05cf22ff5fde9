-- ===== src/Lock.antt =====
-- src/host-lock.js: a lock that is a directory, held by the process that its `owner.json` names. A
-- process acquires it by renaming a directory of its own to the path, and retires one whose owner is
-- dead by renaming that away. Every step below is one access to the file system with what is computed
-- from it, so that other processes may act between any two. Three accesses stand for several: the two
-- `mkdirSync` of a candidate, the removal of dead candidates while they are listed, and `writeJson`;
-- the record of a candidate has the time of the call, where the source writes the current one, which
-- nothing reads.
pub mod Exclusion
pub mod Ends
pub mod Takeover
use Prim.Native.String.{◌++◌ as ◌<>◌}
use Prim.Native.Char.{code}
use durable_supervisor.Base.{
  Bool, List, Option, Result, String, [], false, if◌then◌else◌, insert, keep, leb, lookup, negb,
  none, nonempty, ok, some, suc, throw_if, zero, ℕ, ◌&&◌, ◌++◌, ◌-◌, ◌==◌, ◌>>◌, ◌||◌, ◌∷◌,
  string_eq, nat_eq,
}
use durable_supervisor.Activation.Lease.{max_safe_integer}
use durable_supervisor.Handoff.Task.{starts_at_root}

abbrev pub host_lock_schema : String
host_lock_schema = "opsle.durable-supervisor.host-lock/v1"

pub record ProcessIdentity : Type 0 where
  pub pid : ℕ
  pub start_time_ticks : String
  pub executable : String

-- The content of an `owner.json`.
pub record Owner : Type 0 where
  pub schema : String
  pub process : ProcessIdentity
  pub acquired_at : String

-- The directory of the lock, which is never empty: its `owner.json`, if there is one, and the
-- candidates in `.takeovers` with theirs.
pub record Directory : Type 0 where
  pub owner_file : Option Owner
  pub takeovers : List (String × Option Owner)

unfoldable pub identical : ProcessIdentity → ProcessIdentity → Bool
identical left right =
    left.pid == right.pid
    && left.start_time_ticks == right.start_time_ticks
    && left.executable == right.executable

-- `sameProcessIdentity`
unfoldable pub same_process_identity : ProcessIdentity → Option ProcessIdentity → Bool
same_process_identity left none = false
same_process_identity left (some right) = identical left right

unfoldable pub exact_process_identity : ProcessIdentity → Bool
exact_process_identity p =
    leb p.pid max_safe_integer
    && leb 1 p.pid
    && nonempty p.start_time_ticks
    && starts_at_root p.executable

-- Equal bytes of two `owner.json`.
unfoldable pub same_owner : Owner → Owner → Bool
same_owner a b =
    a.schema == b.schema && identical a.process b.process && a.acquired_at == b.acquired_at

unfoldable pub checked_owner : Option Owner → Option Owner
checked_owner none = none
checked_owner (some o) =
    if o.schema == host_lock_schema && exact_process_identity o.process then some o else none

-- `readOwner` of the lock's path.
unfoldable pub read_owner : Option Directory → Option Owner
read_owner none = none
read_owner (some d) = checked_owner d.owner_file

-- The owner that was read before is still the owner.
unfoldable pub still_owner : Owner → Option Owner → Bool
still_owner observed none = false
still_owner observed (some current) = same_owner current observed

unfoldable pub allowed_in_name : ℕ → Bool
allowed_in_name c =
    leb b'0' c && leb c b'9'
    || leb b'A' c && leb c b'Z'
    || leb b'a' c && leb c b'z'
    || c == b'.'
    || c == b'-'

unfoldable pub name_text : String → String
name_text String.[] = String.[]
name_text (String.◌∷◌ c s) =
    if allowed_in_name (code c) then String.◌∷◌ c (name_text s) else "_" <> name_text s

-- `takeoverName`; the decimal text of a number is a parameter.
unfoldable pub takeover_name : (ℕ → String) → ProcessIdentity → String
takeover_name decimal p = decimal p.pid <> "-" <> name_text p.start_time_ticks

-- A call of `acquireHostLock` and, once it has the lock, of `release`, at the access that it makes
-- next. `left` is the number of attempts after this one; `observed` the owner that was found dead.
pub data Phase : Type 0 where
  trying : ℕ → Phase
  observing : ℕ → Phase
  entering : ℕ → Owner → Phase
  writing : ℕ → Owner → Phase
  checking : ℕ → Owner → Phase
  listing : ℕ → Owner → Phase
  confirming : ℕ → Owner → Phase
  retiring : ℕ → Owner → Phase
  holding : Phase
  releasing : Owner → Phase
  released : Phase
  busy : Phase
  corrupt : Phase

-- The next attempt, or the error that the lock did not become available.
unfoldable pub next_attempt : ℕ → Phase
next_attempt zero = busy
next_attempt (suc left) = trying left

-- `rmSync` of a candidate.
unfoldable pub remove_candidate :
    String → List (String × Option Owner) → List (String × Option Owner)
remove_candidate name candidates = keep (λ c. negb (c.0 == name)) candidates

unfoldable pub without_candidate : String → Option Directory → Option Directory
without_candidate name none = none
without_candidate name (some d) = some (record d { takeovers = remove_candidate name d.takeovers })

-- `mkdirSync` of a candidate, which may be there already.
unfoldable pub make_candidate : String → List (String × Option Owner) → List (String × Option Owner)
make_candidate name candidates = elim (lookup name candidates) [
  | none ↦ candidates ++ (name, none) ∷ []
  | some old ↦ candidates
]

-- The candidate whose name is first in the order of texts.
unfoldable pub first_name : (String → String → Bool) → List (String × Option Owner) → Option String
first_name before [] = none
first_name before (c ∷ more) = elim (first_name before more) [
  | none ↦ some c.0
  | some name ↦ if before name c.0 then some name else some c.0
]

-- The machine: `processStartIdentity`, the decimal text of a number, and the order of `sort`.
pub record Machine : Type 0 where
  pub get_process_identity : ℕ → Option ProcessIdentity
  pub decimal : ℕ → String
  pub before : String → String → Bool

module _ (machine : Machine) where
  unfoldable pub is_live : Owner → Bool
  is_live o = same_process_identity o.process (machine.get_process_identity o.process.pid)

  unfoldable pub live_candidate : String × Option Owner → Bool
  live_candidate (name, file) = elim (checked_owner file) [ none ↦ false | some o ↦ is_live o ]

  -- What `readOwner` of the lock's path found, and whether its owner is dead.
  unfoldable pub after_observation : ℕ → Option Owner → Phase
  after_observation left none = next_attempt left
  after_observation left (some o) = if is_live o then next_attempt left else entering left o

  -- `release`, after it has read the owner.
  unfoldable pub after_own_observation : Owner → Option Owner → Phase
  after_own_observation me none = released
  after_own_observation me (some current) =
      if same_owner current me then releasing current else released

  -- Of the candidates that are alive this one must be the first.
  unfoldable pub take_first :
      String → ℕ → Owner → Directory → List (String × Option Owner) → Phase × Option Directory
  take_first name left observed d live =
      let listed = record d { takeovers = live } in
      elim (first_name machine.before live) [
        | none ↦ (next_attempt left, some listed)
        | some first ↦
            if first == name
            then (confirming left observed, some listed)
            else (next_attempt left, without_candidate name (some listed))
      ]

  unfoldable pub list_candidates : String → ℕ → Owner → Option Directory → Phase × Option Directory
  list_candidates name left observed none = (next_attempt left, none)
  list_candidates name left observed (some d) =
      take_first name left observed d (keep live_candidate d.takeovers)

  -- The rename of the lock away, and the owner that was moved with it.
  unfoldable pub rename_away : Phase → Phase → Owner → Option Directory → Phase × Option Directory
  rename_away moved missing observed none = (missing, none)
  rename_away moved missing observed (some d) =
      if still_owner observed (checked_owner d.owner_file) then (moved, none) else (corrupt, none)

  -- One access of the process to the lock, with its next phase and the lock after it. `writeJson`
  -- makes the directories that it needs.
  unfoldable pub advance : Owner → Phase → Option Directory → Phase × Option Directory
  unfolding after_observation after_own_observation list_candidates rename_away
  advance me (trying left) none = (holding, some (record { owner_file = some me; takeovers = [] }))
  advance me (trying left) (some d) = (observing left, some d)
  advance me (observing left) lock = (after_observation left (read_owner lock), lock)
  advance me (entering left observed) none = (next_attempt left, none)
  advance me (entering left observed) (some d) =
      let name = takeover_name machine.decimal me.process in
      (writing left observed, some (record d { takeovers = make_candidate name d.takeovers }))
  advance me (writing left observed) none =
      let name = takeover_name machine.decimal me.process in
      (
        checking left observed,
        some (record { owner_file = none; takeovers = (name, some me) ∷ [] }),
      )
  advance me (writing left observed) (some d) =
      let name = takeover_name machine.decimal me.process in
      (checking left observed, some (record d { takeovers = insert name (some me) d.takeovers }))
  advance me (checking left observed) lock =
      let name = takeover_name machine.decimal me.process in
      if still_owner observed (read_owner lock)
      then (listing left observed, lock)
      else (next_attempt left, without_candidate name lock)
  advance me (listing left observed) lock =
      list_candidates (takeover_name machine.decimal me.process) left observed lock
  advance me (confirming left observed) lock =
      let name = takeover_name machine.decimal me.process in
      if still_owner observed (read_owner lock)
      then (retiring left observed, lock)
      else (next_attempt left, without_candidate name lock)
  advance me (retiring left observed) lock =
      rename_away (next_attempt left) (next_attempt left) observed lock
  advance me holding lock = (after_own_observation me (read_owner lock), lock)
  advance me (releasing observed) lock = rename_away released released observed lock
  advance me released lock = (released, lock)
  advance me busy lock = (busy, lock)
  advance me corrupt lock = (corrupt, lock)

-- `acquireHostLock`: its checks, and the first phase.
unfoldable pub acquire_host_lock : ℕ → Owner → Result Phase
acquire_host_lock attempts me = do
  throw_if (leb attempts 0 || negb (leb attempts max_safe_integer))
      "host lock attempts must be a positive integer"
  throw_if (negb (exact_process_identity me.process))
      "host lock requires exact owner PID, process start ticks, and executable"
  ok (trying (attempts - 1))

-- Processes that share a lock, by number: what each is about to do, and the record that it writes as
-- the owner.
pub record System : Type 0 where
  pub lock : Option Directory
  pub phase : ℕ → Phase

abbrev pub set_phase : ℕ → Phase → (ℕ → Phase) → ℕ → Phase
set_phase i p phase j = if i == j then p else phase j

-- One process advances.
unfoldable pub step : Machine → (ℕ → Owner) → ℕ → System → System
step machine owner i s =
    let result = advance machine (owner i) (s.phase i) s.lock in
    record { lock = result.1; phase = set_phase i result.0 s.phase }

-- The processes advance in the order of the schedule.
unfoldable pub run : Machine → (ℕ → Owner) → List ℕ → System → System
run machine owner [] s = s
run machine owner (i ∷ schedule) s = run machine owner schedule (step machine owner i s)
