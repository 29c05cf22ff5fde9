-- ===== src/Claims/Released.antt =====
-- src/pipeline.js, `releaseClaim`: what has happened when it returns a claim.
use durable_supervisor.Base.{
  Bool-cases, Option, Option-cases, Result, String, ap, arith, err, false, if◌then◌else◌, inl, inr,
  insert, lookup, lookup-insert_self, nat_eq, negb, negb-false, none, ok, ok_inj, refl, some,
  some_inj, string_eq, subst, suc, sym, throw_if-ok, true, zero, ℕ, ◌!=◌, ◌==◌, ◌∙◌, ◌≡◌, ◌≢◌, ◌⊎◌,
}
use durable_supervisor.Store.{
  Hash, File, Swap, swapped, lock_busy, content_changed, compare_and_swap, digest_of, did_swap,
}
use durable_supervisor.Store.Laws.{swap_written, swap_unchanged}
use durable_supervisor.Claims.{
  Claims, World, index_check, release_claim, release_rounds, release_round, release_index,
  release_swap, released, cas_attempts,
}
use durable_supervisor.Claims.Index.{
  Claim, ClaimIndex, IndexContent, json, active, index_of, snapshot, snapshot-ok,
  exact_indexed_claim, exact_claim_identity,
}
use durable_supervisor.Claims.Protocol.{Reach, here, Reach-trans}
use durable_supervisor.Claims.Laws.{KeepsProtocol}

-- The claim was released in an index that the file held when it was replaced: there it was active,
-- and now it has the status.
pub record Freed (h : Hash IndexContent) (start : ClaimIndex) (current d : Claim) (status : String)
    (after : Option IndexContent) : Type 0 where
  pub index : ClaimIndex
  pub old : Claim
  pub reached : Reach start index
  pub there : lookup current.task_id index.entries ≡ some old
  pub live : old.status ≡ active
  pub old_task : old.task_id ≡ current.task_id
  pub old_claim : old.claim_id ≡ current.claim_id
  pub old_fence : old.fence_generation ≡ current.fence_generation
  pub status_is : d.status ≡ status
  pub task : d.task_id ≡ current.task_id
  pub claim : d.claim_id ≡ current.claim_id
  pub fence : d.fence_generation ≡ current.fence_generation
  pub written :
      after ≡ some (json (record index { entries = insert current.task_id d index.entries }))

-- What the check of the index says of the claim there.
index_check-ok :
    (indexed : Option Claim) (current : Claim) (done : Unit {0})
    → index_check indexed current ≡ ok done
    → (old : Claim) × (indexed ≡ some old)
      × (old.status ≡ active)
      × (old.task_id ≡ current.task_id)
      × (old.claim_id ≡ current.claim_id)
      × (old.fence_generation ≡ current.fence_generation)
unfolding index_check exact_indexed_claim
index_check-ok none current done h = cc
index_check-ok (some old) current done h =
    let (exact, h₁) = throw_if-ok (negb (exact_indexed_claim (some old) current)) _ _ h in
    let same : exact_indexed_claim (some old) current ≡ true = negb-false _ exact in
    (
      old,
      refl,
      (string_eq.agrees old.status active).0 (ground arith),
      (string_eq.agrees old.task_id current.task_id).0 (ground arith),
      (string_eq.agrees old.claim_id current.claim_id).0 (ground arith),
      (nat_eq.agrees old.fence_generation current.fence_generation).0 (ground arith),
    )

exact_claim_identity-task :
    (left right : Claim)
    → exact_claim_identity left right ≡ true
    → (right.task_id == left.task_id) ≡ true
unfolding exact_claim_identity
exact_claim_identity-task left right h = ground arith

exact_claim_identity-claim :
    (left right : Claim)
    → exact_claim_identity left right ≡ true
    → (right.claim_id == left.claim_id) ≡ true
unfolding exact_claim_identity
exact_claim_identity-claim left right h = ground arith

module _ (h : Hash IndexContent) (world : World) where
  release_swap-ok :
      (retry : Claims → Result Claim × Claims) (s s' : Claims) (c d : Claim)
      (outcome : File IndexContent × Swap (h.Digest))
      → release_swap h world retry s d outcome ≡ (ok c, s')
      → ((did_swap outcome.1 ≡ true)
          × (c ≡ d)
          × (s'.index ≡ outcome.0)
          × (lookup d.claim_id s'.claims ≡ some d))
        ⊎ ((did_swap outcome.1 ≡ false) × (retry (record s { index = outcome.0 }) ≡ (ok c, s')))
  unfolding release_swap
  release_swap-ok retry s s' c d (file, swapped b n) e = inl (
    refl,
    ok_inj (ap (λ (p : Result Claim × Claims). p.0) (sym e)),
    ap (λ (p : Result Claim × Claims). p.1.index) (sym e),
    ap (λ (p : Result Claim × Claims). lookup d.claim_id p.1.claims) (sym e)
        ∙ lookup-insert_self d.claim_id d s.claims,
  )
  release_swap-ok retry s s' c d (file, lock_busy) e = inr (refl, e)
  release_swap-ok retry s s' c d (file, content_changed b) e = inr (refl, e)

module _ (h : Hash IndexContent) (world : World) (follow : KeepsProtocol world) where
  -- A round that returned the claim has released it in the index and written its file.
  abbrev Done : ClaimIndex → Claim → Claim → String → Claims → Type 0
  Done start current d status s' =
      Freed h start current d status s'.index.content × (lookup d.claim_id s'.claims ≡ some d)

  module _ (round : ℕ) (s s' : Claims) (current d : Claim) (status : String) (start i : ClaimIndex)
      (retry : Claims → Result Claim × Claims)
      (again : (u : Claims) (j : ClaimIndex)
        → index_of u.index.content ≡ some j
        → Reach start j
        → retry u ≡ (ok d, s')
        → Done start current d status s')
      (held : index_of s.index.content ≡ some i) (r : Reach start i) where
    release_swap-Done :
        (old : Claim)
        → lookup current.task_id i.entries ≡ some old
        → old.status ≡ active
        → old.task_id ≡ current.task_id
        → old.claim_id ≡ current.claim_id
        → old.fence_generation ≡ current.fence_generation
        → (next_content : ClaimIndex)
        → next_content ≡ record i {
          entries = insert current.task_id (released h world current status round) i.entries;
        }
        → release_swap h world retry s (released h world current status round) (
            compare_and_swap h
              (world.others round s.index)
              (digest_of h s.index.content)
              (json next_content))
          ≡ (ok d, s')
        → Done start current d status s'
    unfolding released
    release_swap-Done old there live task claim fence j is_j e =
        let file = world.others round s.index in
        elim (release_swap-ok h world retry s s' d (released h world current status round)
          (compare_and_swap h file (digest_of h s.index.content) (json j)) e) [
            | inl (did, same, index, kept) ↦
                let written = swap_written h file s.index.content (json j) did in
                rw (same, index)
                  (
                    record {
                      index = i;
                      old = old;
                      reached = r;
                      there = there;
                      live = live;
                      old_task = task;
                      old_claim = claim;
                      old_fence = fence;
                      status_is = refl;
                      task = refl;
                      claim = refl;
                      fence = refl;
                      written = written ∙ ap (λ z. some (json z)) is_j;
                    },
                    kept,
                  )
            | inr (not_did, more) ↦
                let (k, held', reach) = follow round s.index i held in
                let left = swap_unchanged h file s.index.content (json j) not_did in
                again _ k (rw left held') (Reach-trans r reach) more
          ]

    release_index-Done :
        (index : ClaimIndex) (digest : Option (h.Digest)) (checked : Result (Unit {0}))
        → index ≡ i
        → digest ≡ digest_of h s.index.content
        → index_check (lookup current.task_id index.entries) current ≡ checked
        → release_index h world retry round s current status index digest checked ≡ (ok d, s')
        → Done start current d status s'
    unfolding release_index
    release_index-Done index digest (err m) same exact was e = cc
    release_index-Done index digest (ok done) same exact was e =
        let (old, there, live, task, claim, fence) =
          index_check-ok (lookup current.task_id index.entries) current done was in
        let new = released h world current status round in
        release_swap-Done old
          (subst (λ (x : ClaimIndex). lookup current.task_id x.entries ≡ some old) same there) live
          task claim fence (record index { entries = insert current.task_id new index.entries })
          (ap (λ (x : ClaimIndex). record x { entries = insert current.task_id new x.entries })
            same)
          (rw exact at e)

    release_round-Done :
        (read : Result (ClaimIndex × Option (h.Digest)))
        → snapshot h s.index ≡ read
        → release_round h world retry round s current status read ≡ (ok d, s')
        → Done start current d status s'
    unfolding release_round
    release_round-Done (err m) seen e = cc
    release_round-Done (ok (index, digest)) seen e =
        let (there, exact, _) = snapshot-ok h s.index index digest seen in
        release_index-Done index digest (index_check (lookup current.task_id index.entries) current)
          (some_inj (sym there ∙ held)) exact refl e

  release_rounds-Done :
      (round : ℕ) (s s' : Claims) (current d : Claim) (status : String) (start i : ClaimIndex)
      → index_of s.index.content ≡ some i
      → Reach start i
      → release_rounds h world round s current status ≡ (ok d, s')
      → Done start current d status s'
  unfolding release_rounds
  release_rounds-Done zero s s' current d status start i held r e = cc
  release_rounds-Done (suc round) s s' current d status start i held r e =
      release_round-Done round s s' current d status start i
        (λ u. release_rounds h world round u current status)
        (λ u j at_u reach more.
          release_rounds-Done round u s' current d status start j at_u reach more)
        held r (snapshot h s.index) refl e

  -- After the claim's own file has been read: the release takes place, or it had taken place.
  release_current-Done :
      (s s' : Claims) (current c d : Claim) (status : String) (start : ClaimIndex)
      → index_of s.index.content ≡ some start
      → (if negb (
            exact_claim_identity current (record c { fence_generation = current.fence_generation }))
          then (err "claim identity is ambiguous", s)
          else if current.fence_generation != c.fence_generation
          then (err "stale claim fence", s)
          else if current.status != active
          then (if current.status != status
              then (err "claim is already terminal", s)
              else (ok current, s))
          else release_rounds h world cas_attempts s current status)
        ≡ (ok d, s')
      → (current.task_id ≡ c.task_id)
        × (current.claim_id ≡ c.claim_id)
        × (current.fence_generation ≡ c.fence_generation)
        × (((current.status ≡ active) × Done start current d status s')
            ⊎ ((current.status ≢ active) × (current.status ≡ status) × (d ≡ current) × (s' ≡ s)))
  unfolding exact_claim_identity
  release_current-Done s s' current c d status start held e =
      let same = record c { fence_generation = current.fence_generation } in
      elim (Bool-cases (exact_claim_identity current same)) [
        | inr other ↦ absurd (cc (rw other at e))
        | inl own ↦ elim (Bool-cases (current.fence_generation == c.fence_generation)) [
          | inr stale ↦ absurd (cc (rw (own, stale) at e))
          | inl fence ↦ (
            sym ((string_eq.agrees _ _).0 (exact_claim_identity-task current same own)),
            sym ((string_eq.agrees _ _).0 (exact_claim_identity-claim current same own)),
            (nat_eq.agrees _ _).0 fence,
            elim (Bool-cases (current.status == active)) [
              | inl live ↦ inl (
                (string_eq.agrees _ _).0 live,
                release_rounds-Done cas_attempts s s' current d status start start held here
                    (rw (own, fence, live) at e),
              )
              | inr ended ↦ elim (Bool-cases (current.status == status)) [
                | inr differs ↦ absurd (cc (rw (own, fence, ended, differs) at e))
                | inl already ↦
                    let e' = rw (own, fence, ended, already) at e in
                    inr (
                      λ live. let bad = (string_eq.agrees _ _).1 live in cc,
                      (string_eq.agrees _ _).0 already,
                      sym (ok_inj (ap (λ (p : Result Claim × Claims). p.0) e')),
                      sym (ap (λ (p : Result Claim × Claims). p.1) e'),
                    )
              ]
            ],
          )
        ]
      ]

  pub release_claim-Freed :
      (s s' : Claims) (c d : Claim) (status : String) (start : ClaimIndex)
      → index_of s.index.content ≡ some start
      → release_claim h world s c status ≡ (ok d, s')
      → (current : Claim) × (lookup c.claim_id s.claims ≡ some current)
        × (current.task_id ≡ c.task_id)
        × (current.claim_id ≡ c.claim_id)
        × (current.fence_generation ≡ c.fence_generation)
        × (((current.status ≡ active)
              × (Freed h start current d status s'.index.content
                  × (lookup d.claim_id s'.claims ≡ some d)))
            ⊎ ((current.status ≢ active) × (current.status ≡ status) × (d ≡ current) × (s' ≡ s)))
  unfolding release_claim
  release_claim-Freed s s' c d status start held e =
      elim (Option-cases (lookup c.claim_id s.claims)) [
        | inl missing ↦ absurd (cc (rw (missing, release_claim) at e))
        | inr (current, found) ↦
            let (task, claim, fence, done) =
              release_current-Done s s' current c d status start held
                (rw (found, release_claim) at e) in
            (current, found, task, claim, fence, done)
      ]
