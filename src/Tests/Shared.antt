-- ===== src/Tests/Shared.antt =====
-- src/io.js and src/pipeline.js: a shared file, and a claim of a task from an index that is absent.
use durable_supervisor.Claims.Exclusion.{later_claim_excludes, release_claim-frees}
use durable_supervisor.Base.{
  String, [], false, insert, lookup, none, ok, refl, some, some_inj, subst, true, ◌++◌, ◌<◌, ◌∷◌,
  ◌≡◌, ◌≢◌, ◌≤◌, ◌⊎◌,
}
use durable_supervisor.Store.{Hash, File, did_swap, digest_of, compare_and_swap}
use durable_supervisor.Store.Laws.{compare_and_swap_exact}
use durable_supervisor.Claims.Index.{
  exact_claim_identity, exact_indexed_claim, Claim, ClaimIndex, IndexContent, active, claim_schema,
  empty_index, index_of, snapshot, read_index, valid_index, conflicts,
}
use durable_supervisor.Claims.Released.{Freed, release_claim-Freed}
use durable_supervisor.Claims.{
  release_claim, release_rounds, release_round, release_index, release_swap, released, index_check,
  Task, Claims, World, acquire_claim, acquire_rounds, acquire_round, acquire_swap, acquired,
  new_claim, next_index, task_authority,
}
use durable_supervisor.Claims.Protocol.{
  Reach, here, with_claim, IsSound, Reach-IsSound, empty_index-IsSound, next, acquires, releases,
}
use durable_supervisor.Claims.Laws.{
  KeepsProtocol, Committed, acquire_claim-Committed, acquire_claim-Reach,
}
use durable_supervisor.Tests.Records.{own_digest, String_discrete, index_content_discrete}

abbrev stored : File String
stored = record { content = some "old"; lock_held = false }

compare_and_swap_exact_example :
    let (after, outcome) =
      compare_and_swap
        (own_digest String_discrete)
        stored
        (digest_of (own_digest String_discrete) (some "old"))
        "new" in
    ((did_swap outcome ≡ true)
      × (stored.lock_held ≡ false)
      × (stored.content ≡ some "old")
      × (after.content ≡ some "new")
      × (after.lock_held ≡ false))
    ⊎ ((did_swap outcome ≡ false)
        × ((stored.lock_held ≡ true) ⊎ (stored.content ≢ some "old"))
        × (after ≡ stored))
compare_and_swap_exact_example =
    compare_and_swap_exact (own_digest String_discrete) stored (some "old") "new"

abbrev pub task : String → Task
task id = record { task_id = id; supervisor_id = "supervisor-1"; canonical_json = id }

abbrev pub alone : World
alone = record {
  fresh = λ round. "claim";
  clock = λ round. "09:00";
  heartbeat_clock = λ round. "09:01";
  others = λ round file. file;
}

abbrev pub absent : Claims
absent = record {
  supervisor = record { supervisor_id = "supervisor-1"; generation = 1 };
  tasks = ("task-1", task "task-1") ∷ ("task-2", task "task-2") ∷ [];
  index = record { content = none; lock_held = false };
  claims = [];
  events = [];
}

abbrev pub hash : Hash IndexContent
hash = own_digest index_content_discrete

pub alone-KeepsProtocol : KeepsProtocol alone
alone-KeepsProtocol round file i held = (i, held, here)

abbrev pub first_claim : Claim
first_claim = record {
  schema = claim_schema;
  claim_id = "claim";
  task_id = "task-1";
  attempt_id = "attempt-1";
  owner_supervisor_id = "supervisor-1";
  owner_generation = 1;
  fence_generation = 1;
  status = active;
  acquired_at = "09:00";
  heartbeat_at = "09:01";
  completed_at = none;
}

abbrev pub first_index : ClaimIndex
first_index = with_claim empty_index first_claim

abbrev pub once_claimed : Claims
once_claimed = record absent {
  index = record { content = some (IndexContent.json first_index); lock_held = false };
  claims = ("claim", first_claim) ∷ [];
  events =
      record {
        type = "CLAIM_ACQUIRED";
        task_id = "task-1";
        attempt_id = "attempt-1";
        claim_id = "claim";
        fence_generation = 1;
      }
      ∷ [];
}

first_run :
    acquire_claim hash alone absent (task "task-1") "attempt-1" ≡ (ok first_claim, once_claimed)
unfolding acquire_claim acquire_rounds acquire_round acquire_swap acquired new_claim next_index
    task_authority snapshot read_index valid_index conflicts lookup insert compare_and_swap
first_run = refl

acquire_claim-Committed_example :
    Committed hash empty_index (task "task-1") "attempt-1" first_claim once_claimed.index.content
acquire_claim-Committed_example =
    acquire_claim-Committed hash alone alone-KeepsProtocol absent once_claimed (task "task-1")
      "attempt-1" first_claim empty_index refl first_run

acquire_claim-Reach_example :
    (j : ClaimIndex) × (index_of once_claimed.index.content ≡ some j)
    × Reach empty_index j
    × (1 ≤ 1)
    × (1 < j.next_fence)
acquire_claim-Reach_example =
    acquire_claim-Reach hash alone alone-KeepsProtocol absent once_claimed (task "task-1")
      "attempt-1" first_claim empty_index refl first_run

abbrev freed_claim : Claim
freed_claim = record first_claim { status = "COMPLETED"; completed_at = some "09:00" }

abbrev freed : Claims
freed = record once_claimed {
  index = record {
    content =
        some (IndexContent.json (record first_index { entries = ("task-1", freed_claim) ∷ [] }));
    lock_held = false;
  };
  claims = ("claim", freed_claim) ∷ [];
}

freed_run : release_claim hash alone once_claimed first_claim "COMPLETED" ≡ (ok freed_claim, freed)
unfolding release_claim release_rounds release_round release_index release_swap released index_check
    exact_claim_identity exact_indexed_claim snapshot read_index valid_index lookup insert
    compare_and_swap
freed_run = rw (hash.same_refl (hash.sha256 (IndexContent.json first_index))) refl

empty_index-IsSound_first : IsSound first_index
empty_index-IsSound_first =
    Reach-IsSound empty_index-IsSound
      (next here (acquires first_claim (unfold conflicts in refl) refl))

release_claim-Freed_example :
    (current : Claim) × (lookup "claim" once_claimed.claims ≡ some current)
    × (current.task_id ≡ "task-1")
    × (current.claim_id ≡ "claim")
    × (current.fence_generation ≡ 1)
    × (((current.status ≡ active)
          × (Freed hash first_index current freed_claim "COMPLETED" freed.index.content
              × (lookup "claim" freed.claims ≡ some freed_claim)))
        ⊎ ((current.status ≢ active)
            × (current.status ≡ "COMPLETED")
            × (freed_claim ≡ current)
            × (freed ≡ once_claimed)))
release_claim-Freed_example =
    release_claim-Freed hash alone alone-KeepsProtocol once_claimed freed first_claim freed_claim
      "COMPLETED" first_index refl freed_run

held : lookup "claim" once_claimed.claims ≡ some first_claim
unfolding lookup
held = refl

release_claim-frees_example :
    (j : ClaimIndex) × (index_of freed.index.content ≡ some j)
    × (conflicts "task-1" j.entries ≡ false)
    × IsSound j
release_claim-frees_example =
    release_claim-frees hash alone once_claimed freed first_claim freed_claim first_claim
      "COMPLETED" first_index alone-KeepsProtocol empty_index-IsSound_first refl held refl refl
      freed_run

-- Another process, with an identity and a clock of its own.
abbrev another : World
another = record {
  fresh = λ round. "claim-2";
  clock = λ round. "10:00";
  heartbeat_clock = λ round. "10:01";
  others = λ round file. file;
}

another-KeepsProtocol : KeepsProtocol another
another-KeepsProtocol round file i held = (i, held, here)

abbrev freed_index : ClaimIndex
freed_index = record first_index { entries = ("task-1", freed_claim) ∷ [] }

abbrev second_claim : Claim
second_claim = record first_claim {
  claim_id = "claim-2";
  attempt_id = "attempt-2";
  fence_generation = 2;
  acquired_at = "10:00";
  heartbeat_at = "10:01";
}

abbrev twice_claimed : Claims
twice_claimed = record freed {
  index = record {
    content = some (IndexContent.json (with_claim freed_index second_claim));
    lock_held = false;
  };
  claims = ("claim", freed_claim) ∷ ("claim-2", second_claim) ∷ [];
  events =
      freed.events
      ++ record {
        type = "CLAIM_ACQUIRED";
        task_id = "task-1";
        attempt_id = "attempt-2";
        claim_id = "claim-2";
        fence_generation = 2;
      }
        ∷ [];
}

second_run :
    acquire_claim hash another freed (task "task-1") "attempt-2" ≡ (ok second_claim, twice_claimed)
unfolding acquire_claim acquire_rounds acquire_round acquire_swap acquired new_claim next_index
    task_authority snapshot read_index valid_index conflicts lookup insert compare_and_swap
second_run = rw (hash.same_refl (hash.sha256 (IndexContent.json freed_index))) refl

released_between : Reach first_index freed_index
unfolding lookup insert
released_between = next here (releases first_claim freed_claim refl refl refl refl)

later_claim_excludes_example :
    (j i : ClaimIndex) × (index_of once_claimed.index.content ≡ some j)
    × (lookup "task-1" j.entries ≡ some first_claim)
    × Reach j i
    × (lookup "task-1" i.entries ≢ some first_claim)
    × (twice_claimed.index.content ≡ some (IndexContent.json (with_claim i second_claim)))
    × (1 < 2)
later_claim_excludes_example =
    later_claim_excludes hash alone another absent once_claimed freed twice_claimed (task "task-1")
      (task "task-1") "attempt-1" "attempt-2" first_claim second_claim empty_index
      alone-KeepsProtocol another-KeepsProtocol refl first_run
      (λ j at_j.
        (freed_index, refl, subst (λ z. Reach z freed_index) (some_inj at_j) released_between))
      refl second_run
