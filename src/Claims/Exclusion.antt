-- ===== src/Claims/Exclusion.antt =====
-- src/pipeline.js, `acquireClaim` and `releaseClaim`: one active claim on a task, and a free task after
-- its release.
use durable_supervisor.Base.{
  String, ap, arith, false, inl, inr, insert, lookup, lookup-insert_self, ok, some, some_inj, subst,
  sym, ◌<◌, ◌==◌, ◌∙◌, ◌≡◌, ◌≢◌, string_eq,
}
use durable_supervisor.Store.{Hash}
use durable_supervisor.Claims.{Claims, Task, World, acquire_claim, release_claim}
use durable_supervisor.Claims.Index.{
  Claim, ClaimIndex, IndexContent, json, active, conflicts, index_of,
}
use durable_supervisor.Claims.Protocol.{
  IsSound, Reach, Reach-IsSound, Reach-trans, Step-IsSound, active_on-ended, conflicts-active_on,
  lookup-conflicts, next_fence-Reach, releases, with_claim,
}
use durable_supervisor.Claims.Laws.{KeepsProtocol, acquire_claim-Committed}
use durable_supervisor.Claims.Released.{release_claim-Freed}

-- Of two claims acquired on the same task one after the other, each by its own process with its own
-- identities, clock and competitors that follow the protocol, and with any steps of the protocol
-- between: the index that the
-- first call left has the first claim on the task; the index into which the second was entered is
-- reached from it and has it no more, so it has been released; and the second has the higher fence.
pub later_claim_excludes :
    (h : Hash IndexContent) (world later : World) (s s' u u' : Claims) (t q : Task) (a b : String)
    (c d : Claim) (start : ClaimIndex)
    → KeepsProtocol world
    → KeepsProtocol later
    → index_of s.index.content ≡ some start
    → acquire_claim h world s t a ≡ (ok c, s')
    → ((j : ClaimIndex)
        → index_of s'.index.content ≡ some j
        → (k : ClaimIndex) × (index_of u.index.content ≡ some k) × Reach j k)
    → q.task_id ≡ t.task_id
    → acquire_claim h later u q b ≡ (ok d, u')
    → (j i : ClaimIndex) × (index_of s'.index.content ≡ some j)
      × (lookup t.task_id j.entries ≡ some c)
      × Reach j i
      × (lookup t.task_id i.entries ≢ some c)
      × (u'.index.content ≡ some (json (with_claim i d)))
      × (c.fence_generation < d.fence_generation)
later_claim_excludes h world later s s' u u' t q a b c d start follow follows held first between
      same second =
    let x = acquire_claim-Committed h world follow s s' t a c start held first in
    let j = with_claim x.index c in
    let at_j : index_of s'.index.content ≡ some j = ap index_of x.written in
    let (k, at_k, reach) = between j at_j in
    let y = acquire_claim-Committed h later follows u u' q b d k at_k second in
    let run : Reach j y.index = Reach-trans reach y.reached in
    let there : lookup t.task_id j.entries ≡ some c =
      subst (λ z. lookup z j.entries ≡ some c) x.task
        (lookup-insert_self c.task_id c x.index.entries) in
    let free : conflicts t.task_id y.index.entries ≡ false =
      subst (λ z. conflicts z y.index.entries ≡ false) same y.free in
    (
      j,
      y.index,
      at_j,
      there,
      run,
      λ still.
          let bad = lookup-conflicts t.task_id c y.index.entries still x.task x.status in
          cc (sym bad ∙ free),
      y.written,
      omega (arith, x.fence, y.fence, next_fence-Reach run),
    )

-- A release of an active claim to another status, from a sound index, other processes following the
-- protocol of the index, leaves a sound index in which no claim on the task is active, so that the
-- task can be claimed again.
pub release_claim-frees :
    (h : Hash IndexContent) (world : World) (s s' : Claims) (c d current : Claim) (status : String)
    (start : ClaimIndex)
    → KeepsProtocol world
    → IsSound start
    → index_of s.index.content ≡ some start
    → lookup c.claim_id s.claims ≡ some current
    → current.status ≡ active
    → (status == active) ≡ false
    → release_claim h world s c status ≡ (ok d, s')
    → (j : ClaimIndex) × (index_of s'.index.content ≡ some j)
      × (conflicts c.task_id j.entries ≡ false)
      × IsSound j
release_claim-frees h world s s' c d current status start follow sound held found live ends e =
    let (current', found', task, _, fence, done) =
      release_claim-Freed h world follow s s' c d status start held e in
    let same : current' ≡ current = some_inj (sym found' ∙ found) in
    elim done [
      | inr (not_live, _, _, _) ↦ absurd (not_live (ap (λ (z : Claim). z.status) same ∙ live))
      | inl (_, (x, _)) ↦
          let before = Reach-IsSound sound x.reached in
          let hit : lookup x.old.task_id x.index.entries ≡ some x.old =
            subst (λ z. lookup z x.index.entries ≡ some x.old) (sym x.old_task) x.there in
          let ended : (d.status == active) ≡ false = rw x.status_is ends in
          let step =
            releases x.old d hit x.live (x.task ∙ sym x.old_task) (x.fence ∙ sym x.old_fence) in
          let j : ClaimIndex = record (x.index) {
            entries = insert x.old.task_id d x.index.entries;
          } in
          let free = conflicts-active_on x.old.task_id j.entries (
            active_on-ended x.old d x.index.entries hit x.live ended
              (before.exclusive x.old.task_id)) in
          (
            j,
            ap index_of x.written
                ∙ ap (λ k. some (record (x.index) { entries = insert k d x.index.entries }))
                    (sym x.old_task),
            subst (λ z. conflicts z j.entries ≡ false) (x.old_task ∙ task) free,
            Step-IsSound step before,
          )
    ]
