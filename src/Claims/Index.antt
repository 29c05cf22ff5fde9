-- ===== src/Claims/Index.antt =====
-- src/pipeline.js: the claim record, the index of claims, and the comparisons of claims.
-- The index object's keys `task-<id>` are kept by the task's identity alone.
use durable_supervisor.Store.{Hash, File, digest_of}
use durable_supervisor.Base.{
  Bool, Bool-cases, List, Option, Result, String, [], ap, err, false, if◌then◌else◌, inl, inr, leb,
  ltb, none, ok, refl, some, sym, true, ℕ, ◌&&◌, ◌==◌, ◌||◌, ◌∷◌, ◌≡◌, string_eq, nat_eq,
}

abbrev pub claim_schema : String
claim_schema = "opsle.durable-supervisor.claim/v1"

abbrev pub index_schema : String
index_schema = "opsle.durable-supervisor.claim-index/v1"

abbrev pub active : String
active = "ACTIVE"

pub record Claim : Type 0 where
  pub schema : String
  pub claim_id : String
  pub task_id : String
  pub attempt_id : String
  pub owner_supervisor_id : String
  pub owner_generation : ℕ
  pub fence_generation : ℕ
  pub status : String
  pub acquired_at : String
  pub heartbeat_at : String
  pub completed_at : Option String

pub record ClaimIndex : Type 0 where
  pub schema : String
  pub next_fence : ℕ
  pub entries : List (String × Claim)

-- The bytes of the index file: an index, or no JSON object.
pub data IndexContent : Type 0 where
  json : ClaimIndex → IndexContent
  invalid : IndexContent

-- `Number.MAX_SAFE_INTEGER`
abbrev pub max_safe_integer : ℕ
max_safe_integer = 9007199254740991

abbrev pub empty_index : ClaimIndex
empty_index = record { schema = index_schema; next_fence = 1; entries = [] }

-- The index that a file stands for: an absent file is the empty index, and other bytes are none.
abbrev pub index_of : Option IndexContent → Option ClaimIndex
index_of none = some empty_index
index_of (some (json index)) = some index
index_of (some invalid) = none

-- The schema and the fence of an index are checked at each reading.
unfoldable pub valid_index : ClaimIndex → Bool
valid_index index =
    index.schema == index_schema && leb index.next_fence max_safe_integer && ltb 0 index.next_fence

module _ (h : Hash IndexContent) where
  unfoldable pub read_index : Option IndexContent → Result (ClaimIndex × Option (h.Digest))
  read_index none = ok (empty_index, none)
  read_index (some IndexContent.invalid) = err "invalid durable JSON"
  read_index (some (IndexContent.json index)) =
      if valid_index index
      then ok (index, some (h.sha256 (IndexContent.json index)))
      else err "invalid claim index"

  -- `claimIndexSnapshot`: an absent file is the empty index, with no digest.
  unfoldable pub snapshot : File IndexContent → Result (ClaimIndex × Option (h.Digest))
  unfolding read_index
  snapshot file = read_index file.content

  ok_pair :
      {i j : ClaimIndex} {d e : Option (h.Digest)}
      → ◌≡◌ {A = Result (ClaimIndex × Option (h.Digest))} (ok (i, d)) (ok (j, e))
      → (i ≡ j) × (d ≡ e)
  ok_pair p = (cc, cc)

  pub snapshot-ok :
      (file : File IndexContent) (index : ClaimIndex) (digest : Option (h.Digest))
      → snapshot file ≡ ok (index, digest)
      → (index_of file.content ≡ some index)
        × (digest ≡ digest_of h file.content)
        × (valid_index index ≡ true)
  unfolding snapshot
  snapshot-ok file index digest e = go file.content e
    where
      go :
          (content : Option IndexContent)
          → read_index content ≡ ok (index, digest)
          → (index_of content ≡ some index)
            × (digest ≡ digest_of h content)
            × (valid_index index ≡ true)
      go none e =
          let (same, absent) = ok_pair e in
          (ap some same, sym absent, rw (← same) (unfold valid_index in refl))
      go (some IndexContent.invalid) e = cc
      go (some (IndexContent.json index')) e = elim (Bool-cases (valid_index index')) [
        | inl valid ↦
            let (same, present) = ok_pair (rw (valid, read_index) at e) in
            (ap some same, sym present, rw (← same) valid)
        | inr refused ↦ cc (rw (refused, read_index) at e)
      ]

-- Some entry of the index is an active claim on the task.
unfoldable pub conflicts : String → List (String × Claim) → Bool
conflicts task_id [] = false
conflicts task_id ((key, existing) ∷ rest) =
    existing.task_id == task_id && existing.status == active || conflicts task_id rest

unfoldable pub exact_indexed_claim : Option Claim → Claim → Bool
exact_indexed_claim none claim = false
exact_indexed_claim (some indexed) claim =
    indexed.schema == claim.schema
    && indexed.task_id == claim.task_id
    && indexed.attempt_id == claim.attempt_id
    && indexed.claim_id == claim.claim_id
    && indexed.fence_generation == claim.fence_generation
    && indexed.owner_supervisor_id == claim.owner_supervisor_id
    && indexed.owner_generation == claim.owner_generation
    && indexed.status == claim.status

unfoldable pub exact_claim_identity : Claim → Claim → Bool
exact_claim_identity left right =
    left.schema == claim_schema
    && right.schema == left.schema
    && right.claim_id == left.claim_id
    && right.task_id == left.task_id
    && right.attempt_id == left.attempt_id
    && right.owner_supervisor_id == left.owner_supervisor_id
    && right.owner_generation == left.owner_generation
    && right.fence_generation == left.fence_generation
