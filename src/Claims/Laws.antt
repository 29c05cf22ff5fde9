-- ===== src/Claims/Laws.antt =====
-- src/pipeline.js, `acquireClaim`: what has happened when it returns a claim, whatever other
-- processes did to the index file in between, provided that they keep to the protocol.
use durable_supervisor.Store.Laws.{swap_written, swap_unchanged}
use durable_supervisor.Store.{
  Hash, File, Swap, swapped, lock_busy, content_changed, did_swap, digest_of,
}
use durable_supervisor.Claims.Index.{
  index_of, Claim, ClaimIndex, IndexContent, json, active, conflicts, snapshot-ok,
}
use durable_supervisor.Claims.Protocol.{
  with_claim, Reach, next, next_fence-Reach, Reach-trans, acquires, here,
}
use durable_supervisor.Claims.{
  Task, Claims, World, acquire_swap, acquired, new_claim, compare_and_swap, next_index,
  acquire_round, snapshot, acquire_rounds, acquire_claim, task_authority, cas_attempts,
}
use durable_supervisor.Base.{
  Bool-cases, Option, Result, String, arith, err, false, inl, inr, ok, refl, some, some_inj, suc,
  sym, true, zero, ℕ, ◌<◌, ◌∙◌, ◌≡◌, ◌≤◌, ◌⊎◌, nat_eq, string_eq,
}

-- What other processes do to an index is a run of the protocol.
abbrev pub KeepsProtocol : World → Type 0
KeepsProtocol world =
    (round : ℕ) (file : File IndexContent) (i : ClaimIndex)
    → index_of file.content ≡ some i
    → (j : ClaimIndex) × (index_of (world.others round file).content ≡ some j) × Reach i j

-- The claim was made from an index `i` that the file held when it was replaced.
pub record Committed (h : Hash IndexContent) (start : ClaimIndex) (t : Task) (a : String)
    (c : Claim) (after : Option IndexContent) : Type 0 where
  pub index : ClaimIndex
  pub reached : Reach start index
  pub free : conflicts t.task_id index.entries ≡ false
  pub task : c.task_id ≡ t.task_id
  pub attempt : c.attempt_id ≡ a
  pub status : c.status ≡ active
  pub fence : c.fence_generation ≡ index.next_fence
  pub written : after ≡ some (json (with_claim index c))

module _ (h : Hash IndexContent) (world : World) where
  -- A round that returns a claim has made it from the index that it read, which was still the
  -- content of the file; or it has handed over to the next round with the file as others left it.
  acquire_swap-ok :
      (retry : Claims → Result Claim × Claims) (s s' : Claims) (c d : Claim)
      (outcome : File IndexContent × Swap (h.Digest))
      → acquire_swap h world retry s d outcome ≡ (ok c, s')
      → ((did_swap outcome.1 ≡ true) × (c ≡ d) × (s'.index ≡ outcome.0))
        ⊎ ((did_swap outcome.1 ≡ false) × (retry (record s { index = outcome.0 }) ≡ (ok c, s')))
  unfolding acquire_swap acquired
  acquire_swap-ok retry s s' c d (file, swapped b n) e = inl (refl, ground arith, ground arith)
  acquire_swap-ok retry s s' c d (file, lock_busy) e = inr (refl, e)
  acquire_swap-ok retry s s' c d (file, content_changed b) e = inr (refl, e)

module _ (h : Hash IndexContent) (world : World) (follow : KeepsProtocol world) where
  module _ (round : ℕ) (s s' : Claims) (t : Task) (a : String) (c : Claim)
      (start i : ClaimIndex) where
    -- The swap of a round: a success has found the content of the snapshot, and a failure leaves
    -- the file to the next round.
    swap-Committed :
        (retry : Claims → Result Claim × Claims)
        → index_of s.index.content ≡ some i
        → Reach start i
        → conflicts t.task_id i.entries ≡ false
        → ((u : Claims) (j : ClaimIndex)
            → index_of u.index.content ≡ some j
            → Reach start j
            → retry u ≡ (ok c, s')
            → Committed h start t a c s'.index.content)
        → acquire_swap h world retry s (new_claim h world round s t a i.next_fence) (
            compare_and_swap h
              (world.others round s.index)
              (digest_of h s.index.content)
              (next_index h world i (new_claim h world round s t a i.next_fence)))
          ≡ (ok c, s')
        → Committed h start t a c s'.index.content
    swap-Committed retry held r free again e =
        let d = new_claim h world round s t a i.next_fence in
        let file = world.others round s.index in
        let value = next_index h world i d in
        elim (acquire_swap-ok h world retry s s' c d
          (compare_and_swap h file (digest_of h s.index.content) value) e) [
            | inl (did, same, index) ↦
                rw (same, index)
                  (record {
                    index = i;
                    reached = r;
                    free = free;
                    task = unfold new_claim in refl;
                    attempt = unfold new_claim in refl;
                    status = unfold new_claim in refl;
                    fence = unfold new_claim in refl;
                    written = unfold next_index in swap_written h file s.index.content value did;
                  })
            | inr (not_did, more) ↦
                let (j, held', reach) = follow round s.index i held in
                let left = swap_unchanged h file s.index.content value not_did in
                again _ j (rw left held') (Reach-trans r reach) more
          ]

    round-Committed :
        (retry : Claims → Result Claim × Claims) (read : Result (ClaimIndex × Option (h.Digest)))
        → index_of s.index.content ≡ some i
        → Reach start i
        → ((u : Claims) (j : ClaimIndex)
            → index_of u.index.content ≡ some j
            → Reach start j
            → retry u ≡ (ok c, s')
            → Committed h start t a c s'.index.content)
        → snapshot h s.index ≡ read
        → acquire_round h world retry round s t a read ≡ (ok c, s')
        → Committed h start t a c s'.index.content
    unfolding acquire_round
    round-Committed retry (err m) held r again seen e = cc
    round-Committed retry (ok (index, digest)) held r again seen e =
        let (there, exact, _) = snapshot-ok h s.index index digest seen in
        let same : index ≡ i = some_inj (sym there ∙ held) in
        elim (Bool-cases (conflicts t.task_id index.entries)) [
          | inl taken ↦ cc (rw taken at e)
          | inr free ↦
              swap-Committed retry held r (rw same at free) again
                (rw (same, exact) at (rw free at e))
        ]

  -- The rounds of the loop, from any state that a run of the protocol has reached.
  acquire_rounds-Committed :
      (round : ℕ) (s s' : Claims) (t : Task) (a : String) (c : Claim) (start i : ClaimIndex)
      → index_of s.index.content ≡ some i
      → Reach start i
      → acquire_rounds h world round s t a ≡ (ok c, s')
      → Committed h start t a c s'.index.content
  unfolding acquire_rounds
  acquire_rounds-Committed zero s s' t a c start i held r e = cc
  acquire_rounds-Committed (suc round) s s' t a c start i held r e =
      round-Committed round s s' t a c start i (λ u. acquire_rounds h world round u t a)
        (snapshot h s.index) held r
        (λ u j at_u reach more. acquire_rounds-Committed round u s' t a c start j at_u reach more)
        refl e

  pub acquire_claim-Committed :
      (s s' : Claims) (t : Task) (a : String) (c : Claim) (start : ClaimIndex)
      → index_of s.index.content ≡ some start
      → acquire_claim h world s t a ≡ (ok c, s')
      → Committed h start t a c s'.index.content
  unfolding acquire_claim
  acquire_claim-Committed s s' t a c start held e =
      elim (Bool-cases (task_authority h world s t a)) [
        | inl owned ↦
            acquire_rounds-Committed cas_attempts s s' t a c start start held here (rw owned at e)
        | inr stranger ↦ cc (rw stranger at e)
      ]

  pub acquire_claim-Reach :
      (s s' : Claims) (t : Task) (a : String) (c : Claim) (start : ClaimIndex)
      → index_of s.index.content ≡ some start
      → acquire_claim h world s t a ≡ (ok c, s')
      → (j : ClaimIndex) × (index_of s'.index.content ≡ some j)
        × Reach start j
        × (start.next_fence ≤ c.fence_generation)
        × (c.fence_generation < j.next_fence)
  acquire_claim-Reach s s' t a c start held e =
      let done = acquire_claim-Committed s s' t a c start held e in
      let free = rw (sym done.task) at done.free in
      let run = next done.reached (acquires c free done.fence) in
      (
        with_claim done.index c,
        rw done.written refl,
        run,
        omega (arith, done.fence, next_fence-Reach done.reached),
        omega (arith, done.fence),
      )
