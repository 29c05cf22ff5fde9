-- ===== src/Tests/Locks.antt =====
-- src/host-lock.js: processes that share a lock, and the races on the lock of a dead one.
use durable_supervisor.Activation.Lease.{max_safe_integer}
use durable_supervisor.Handoff.Task.{starts_at_root}
use durable_supervisor.Base.{
  Bool-cases, List, Option, String, [], ap, arith, beq_refl, if◌then◌else◌, inl, inr, insert, keep,
  leb, lookup, none, refl, some, suc, true, zero, ℕ, ◌%◌, ◌+◌, ◌==◌, ◌∷◌, ◌≡◌, string_eq, nat_eq,
}
use durable_supervisor.Lock.{
  Directory, Machine, Owner, ProcessIdentity, System, acquire_host_lock, advance, checked_owner,
  corrupt, holding, identical, is_live, run, same_owner, step, trying, host_lock_schema,
  same_process_identity, exact_process_identity, read_owner, still_owner, take_first, first_name,
  make_candidate, takeover_name, name_text, after_observation, after_own_observation,
  allowed_in_name, list_candidates, live_candidate, next_attempt, remove_candidate, rename_away,
  without_candidate,
}
use durable_supervisor.Lock.Exclusion.{AreLive, IsOwnedBy, run_excludes}
use durable_supervisor.Lock.Ends.{Ended, accesses, acquire_host_lock_ends}
use durable_supervisor.Lock.Takeover.{
  IsRace, IsWedged, advances, advances_take_over, run-two_holders, run-IsWedged, Unarmed,
}

abbrev process : ℕ → ProcessIdentity
process pid = record { pid = pid; start_time_ticks = "77"; executable = "/usr/bin/node" }

abbrev repeat {ℓ} : {A : Type ℓ} → ℕ → A → List A
repeat zero a = []
repeat (suc n) a = a ∷ repeat n a

-- The processes 1, 2, 3 and so on, of which those above 100 are dead.
abbrev decimal : ℕ → String
decimal n = if n == 1 then "1" else if n == 2 then "2" else "9"

abbrev machine : Machine
machine = record {
  get_process_identity = λ pid. if leb pid 100 then some (process pid) else none;
  decimal = decimal;
  before = λ a b. a == "1-77";
}

abbrev record_of : ℕ → Owner
record_of pid = record { schema = host_lock_schema; process = process pid; acquired_at = "10:00" }

abbrev owner : ℕ → Owner
owner i = record_of (i + 1)

abbrev dead : Owner
dead = record_of 101

abbrev dead_lock : Option Directory
dead_lock = some (record { owner_file = some dead; takeovers = [] })

abbrev starting : Option Directory → System
starting lock = record { lock = lock; phase = λ i. trying 9 }

-- Processes without number, all alive: the numbers of processes repeat, the times do not.
abbrev crowd : Machine
crowd = record machine { get_process_identity = λ pid. some (process pid) }

tally : ℕ → String
tally zero = String.[]
tally (suc n) = String.◌∷◌ "i" (tally n)

tally_inj : (i j : ℕ) → tally i ≡ tally j → i ≡ j
unfolding tally
tally_inj zero zero h = refl
tally_inj zero (suc j) h = cc
tally_inj (suc i) zero h = cc
tally_inj (suc i) (suc j) h = ap suc (tally_inj i j (cc))

abbrev member : ℕ → Owner
member i = record {
  schema = host_lock_schema;
  process = process (i % max_safe_integer + 1);
  acquired_at = tally i;
}

safe_pid : (i : ℕ) → leb (i % max_safe_integer + 1) max_safe_integer ≡ true
safe_pid i = ground arith

positive_pid : (i : ℕ) → leb 1 (i % max_safe_integer + 1) ≡ true
positive_pid i = ground arith

crowd_lives : AreLive crowd member
unfolding is_live checked_owner exact_process_identity same_process_identity identical
    starts_at_root
crowd_lives = record {
  readable = λ i. rw (safe_pid i, positive_pid i) refl;
  alive = λ i. rw (beq_refl (i % max_safe_integer + 1)) refl;
  apart = λ i j same. tally_inj i j (ap (λ o. o.acquired_at) same);
}

run_excludes_example :
    ◌≡◌ {A = ℕ} 1 1
    × IsOwnedBy crowd member 1 (run crowd member (1 ∷ 0 ∷ 2 ∷ []) (starting none)).lock
unfolding run step advance
run_excludes_example =
    run_excludes crowd member (1 ∷ 0 ∷ 2 ∷ []) (starting none) (λ i. 9) 1 1 crowd_lives refl
      (λ i. refl) tt tt

acquire_host_lock_ends_example : Ended (accesses dead (repeat 8 (machine, dead_lock)) (trying 0))
unfolding acquire_host_lock exact_process_identity starts_at_root
acquire_host_lock_ends_example =
    acquire_host_lock_ends 1 dead (trying 0) (repeat 8 (machine, dead_lock)) refl (omega arith)

advances_take_over_example :
    advances machine (owner 0) 9 (trying 2, dead_lock)
    ≡ (holding, some (record { owner_file = some (owner 0); takeovers = [] }))
unfolding is_live checked_owner exact_process_identity same_process_identity same_owner identical
    starts_at_root
advances_take_over_example = advances_take_over machine (owner 0) dead refl refl refl refl refl 1

-- Two processes have found the owner dead, each as the first candidate, and one has renamed the lock
-- away.
abbrev raced : System
raced =
    run machine owner (1 ∷ 1 ∷ 1 ∷ 1 ∷ 1 ∷ 1 ∷ 1 ∷ 0 ∷ 0 ∷ 0 ∷ 0 ∷ 0 ∷ 0 ∷ 0 ∷ 1 ∷ [])
      (starting dead_lock)

race : IsRace machine owner raced 0 1 2 9 8 9 dead
unfolding run step advance read_owner checked_owner exact_process_identity starts_at_root is_live
    same_process_identity still_owner same_owner identical take_first first_name keep insert
    make_candidate lookup takeover_name name_text after_observation after_own_observation
    allowed_in_name list_candidates live_candidate next_attempt remove_candidate rename_away
    without_candidate
race = record {
  free = refl;
  first = refl;
  second = refl;
  third = refl;
  i_j = refl;
  i_k = refl;
  j_i = refl;
  j_k = refl;
  k_i = refl;
  k_j = refl;
  unlike = refl;
  readable = refl;
}

run-two_holders_example :
    ((run machine owner (1 ∷ 0 ∷ 2 ∷ []) raced).phase 1 ≡ holding)
    × ((run machine owner (1 ∷ 0 ∷ 2 ∷ []) raced).phase 2 ≡ holding)
    × ((run machine owner (1 ∷ 0 ∷ 2 ∷ []) raced).phase 0 ≡ corrupt)
run-two_holders_example = run-two_holders machine owner raced 0 1 2 9 8 9 dead race

-- One process has made its candidate, another has renamed the lock away with it, and the first
-- writes its record, for which the directories are made again.
abbrev orphaned : System
orphaned =
    run machine owner (1 ∷ 1 ∷ 1 ∷ 0 ∷ 0 ∷ 0 ∷ 0 ∷ 0 ∷ 0 ∷ 0 ∷ 0 ∷ 1 ∷ []) (starting dead_lock)

unarmed : (i : ℕ) → Unarmed (orphaned.phase i)
unfolding run step advance read_owner checked_owner exact_process_identity starts_at_root is_live
    same_process_identity still_owner same_owner identical take_first first_name keep insert
    make_candidate lookup takeover_name name_text after_observation after_own_observation
    allowed_in_name list_candidates live_candidate next_attempt remove_candidate rename_away
    without_candidate
unarmed i = elim (Bool-cases (1 == i)) [
  | inl first ↦ rw first tt
  | inr other ↦ elim (Bool-cases (0 == i)) [
    | inl zeroth ↦ rw (other, zeroth) tt
    | inr rest ↦ rw (other, rest) tt
  ]
]

run-IsWedged_example :
    IsWedged (run machine owner (0 ∷ 1 ∷ 2 ∷ []) orphaned)
    × ((run machine owner (0 ∷ 1 ∷ 2 ∷ []) orphaned).phase 2 ≡ holding → orphaned.phase 2 ≡ holding)
unfolding run step advance read_owner checked_owner exact_process_identity starts_at_root is_live
    same_process_identity still_owner same_owner identical take_first first_name keep insert
    make_candidate lookup takeover_name name_text after_observation after_own_observation
    allowed_in_name list_candidates live_candidate next_attempt remove_candidate rename_away
    without_candidate
run-IsWedged_example = run-IsWedged machine owner (0 ∷ 1 ∷ 2 ∷ []) orphaned 2 (refl, unarmed)
