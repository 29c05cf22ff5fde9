-- ===== src/Claims/Protocol.antt =====
-- The protocol of the claim index, apart from files, digests and rounds: what one process may make
-- of the index that it has read, in one step. src/pipeline.js is held to it by the modules beside.
use durable_supervisor.Base.{
  Bool-cases, List, Option-cases, String, [], arith, false, if◌then◌else◌, inl, inr, insert, lookup,
  none, refl, some, some_inj, string_eq, true, ℕ, ◌&&◌, ◌+◌, ◌<◌, ◌==◌, ◌∷◌, ◌≡◌, ◌≤◌, nat_eq,
}
use durable_supervisor.Claims.Index.{Claim, ClaimIndex, active, empty_index, conflicts}

abbrev pub with_claim : ClaimIndex → Claim → ClaimIndex
with_claim i c = record i { next_fence = i.next_fence + 1; entries = insert c.task_id c i.entries }

pub data Step (i : ClaimIndex) : ClaimIndex → Type 0 where
  acquires :
      (c : Claim)
      → conflicts c.task_id i.entries ≡ false
      → c.fence_generation ≡ i.next_fence
      → Step i (with_claim i c)
  releases :
      (old new : Claim)
      → lookup old.task_id i.entries ≡ some old
      → old.status ≡ active
      → new.task_id ≡ old.task_id
      → new.fence_generation ≡ old.fence_generation
      → Step i (record i { entries = insert old.task_id new i.entries })

pub data Reach (i : ClaimIndex) : ClaimIndex → Type 0 where
  here : Reach i i
  next : {j k : ClaimIndex} → Reach i j → Step j k → Reach i k

pub Reach-trans : {i j k : ClaimIndex} → Reach i j → Reach j k → Reach i k
Reach-trans r here = r
Reach-trans r (next q s) = next (Reach-trans r q) s

-- 1 for an active claim on the task, and 0 for any other.
abbrev pub is_active_on : String → Claim → ℕ
is_active_on t c = if c.task_id == t && c.status == active then 1 else 0

pub active_on : String → List (String × Claim) → ℕ
active_on t [] = 0
active_on t ((k, c) ∷ rest) = is_active_on t c + active_on t rest

active_on-insert_new :
    (t k : String) (c : Claim) (es : List (String × Claim))
    → lookup k es ≡ none
    → active_on t (insert k c es) ≡ active_on t es + is_active_on t c
unfolding active_on lookup insert
active_on-insert_new t k c [] h = omega arith
active_on-insert_new t k c ((j, d) ∷ es) h = elim (Bool-cases (j == k)) [
  | inl same ↦ cc (rw same at h)
  | inr other ↦
      let ih = active_on-insert_new t k c es (rw other at h) in rw other (omega (arith, ih))
]

active_on-insert_old :
    (t k : String) (c old : Claim) (es : List (String × Claim))
    → lookup k es ≡ some old
    → active_on t (insert k c es) + is_active_on t old ≡ active_on t es + is_active_on t c
unfolding active_on lookup insert
active_on-insert_old t k c old [] h = cc
active_on-insert_old t k c old ((j, d) ∷ es) h = elim (Bool-cases (j == k)) [
  | inl same ↦ let hit : d ≡ old = some_inj (rw same at h) in rw (same, hit) (omega arith)
  | inr other ↦
      let ih = active_on-insert_old t k c old es (rw other at h) in rw other (omega (arith, ih))
]

active_on-conflicts :
    (t : String) (es : List (String × Claim)) → conflicts t es ≡ false → active_on t es ≡ 0
unfolding active_on conflicts
active_on-conflicts t [] h = refl
active_on-conflicts t ((k, c) ∷ es) h = ground (arith, active_on-conflicts t es)

pub conflicts-active_on :
    (t : String) (es : List (String × Claim)) → active_on t es ≡ 0 → conflicts t es ≡ false
unfolding active_on conflicts
conflicts-active_on t [] h = refl
conflicts-active_on t ((k, c) ∷ es) h =
    let rest = conflicts-active_on t es (omega arith) in
    let first : (c.task_id == t && c.status == active) ≡ false =
      elim (Bool-cases (c.task_id == t && c.status == active)) [
        | inl live ↦ let one = rw live at h in absurd (omega (arith, one))
        | inr other ↦ other
      ] in
    rw (first, rest) refl

-- The active claim of a task is one that another meets.
pub lookup-conflicts :
    (t : String) (c : Claim) (es : List (String × Claim))
    → lookup t es ≡ some c
    → c.task_id ≡ t
    → c.status ≡ active
    → conflicts t es ≡ true
unfolding lookup conflicts
lookup-conflicts t c [] h on live = cc
lookup-conflicts t c ((j, d) ∷ es) h on live = elim (Bool-cases (j == t)) [
  | inl same ↦
      let hit : d ≡ c = some_inj (rw same at h) in
      let here : (d.task_id == t && d.status == active) ≡ true =
        rw (hit, on, live) (ground (arith, string_eq.agrees t t)) in
      rw here refl
  | inr other ↦ rw (lookup-conflicts t c es (rw other at h) on live) (ground arith)
]

-- An active claim that ends leaves no active claim on its task.
pub active_on-ended :
    (old new : Claim) (es : List (String × Claim))
    → lookup old.task_id es ≡ some old
    → old.status ≡ active
    → (new.status == active) ≡ false
    → active_on old.task_id es ≤ 1
    → active_on old.task_id (insert old.task_id new es) ≡ 0
active_on-ended old new es hit live ended h =
    let one : is_active_on old.task_id old ≡ 1 =
      rw (live) (ground (arith, string_eq.agrees old.task_id old.task_id)) in
    let none_of : is_active_on old.task_id new ≡ 0 = rw ended (ground arith) in
    omega (arith, active_on-insert_old old.task_id old.task_id new old es hit, one, none_of)

-- Every fence of the index is below the next one.
abbrev pub Below : ℕ → List (String × Claim) → Type 0
Below n [] = Unit {0}
Below n ((k, c) ∷ rest) = (c.fence_generation < n) × Below n rest

Below-mono : (m n : ℕ) (es : List (String × Claim)) → m ≤ n → Below m es → Below n es
Below-mono m n [] h b = tt
Below-mono m n ((k, c) ∷ es) h b = (omega arith, Below-mono m n es h b.1)

Below-insert :
    (n : ℕ) (k : String) (c : Claim) (es : List (String × Claim))
    → c.fence_generation < n
    → Below n es
    → Below n (insert k c es)
unfolding insert
Below-insert n k c [] h b = (h, tt)
Below-insert n k c ((j, d) ∷ es) h b = elim (Bool-cases (j == k)) [
  | inl same ↦ rw same (h, b.1)
  | inr other ↦ rw other (b.0, Below-insert n k c es h b.1)
]

Below-lookup :
    (n : ℕ) (k : String) (c : Claim) (es : List (String × Claim))
    → lookup k es ≡ some c
    → Below n es
    → c.fence_generation < n
unfolding lookup
Below-lookup n k c [] h b = cc
Below-lookup n k c ((j, d) ∷ es) h b = elim (Bool-cases (j == k)) [
  | inl same ↦ let hit : d ≡ c = some_inj (rw same at h) in rw (← hit) b.0
  | inr other ↦ Below-lookup n k c es (rw other at h) b.1
]

-- Fences are handed out once, and a task has one active claim at most.
pub record IsSound (i : ClaimIndex) : Type 0 where
  pub below : Below i.next_fence i.entries
  pub exclusive : (t : String) → active_on t i.entries ≤ 1

active_on-insert-le :
    (t k : String) (c : Claim) (es : List (String × Claim))
    → active_on t (insert k c es) ≤ active_on t es + is_active_on t c
active_on-insert-le t k c es = elim (Option-cases (lookup k es)) [
  | inl new ↦ omega (arith, active_on-insert_new t k c es new)
  | inr (old, hit) ↦ omega (arith, active_on-insert_old t k c old es hit)
]

is_active_on-other : (t : String) (c : Claim) → (c.task_id == t) ≡ false → is_active_on t c ≡ 0
is_active_on-other t c h = rw h refl

is_active_on-le : (t : String) (c : Claim) → is_active_on t c ≤ 1
is_active_on-le t c = ground arith

active_on-acquire :
    (t : String) (c : Claim) (es : List (String × Claim))
    → conflicts c.task_id es ≡ false
    → active_on t es ≤ 1
    → active_on t (insert c.task_id c es) ≤ 1
active_on-acquire t c es free h = elim (Bool-cases (c.task_id == t)) [
  | inl same ↦
      let idle = active_on-conflicts c.task_id es free in
      let idle' = rw ((string_eq.agrees c.task_id t).0 same) at idle in
      omega (arith, idle', active_on-insert-le t c.task_id c es, is_active_on-le t c)
  | inr other ↦ omega (arith, active_on-insert-le t c.task_id c es, is_active_on-other t c other)
]

-- A claim that takes the place of an active one of the same task leaves no task with more.
active_on-replace :
    (t : String) (old new : Claim) (es : List (String × Claim))
    → lookup old.task_id es ≡ some old
    → old.status ≡ active
    → new.task_id ≡ old.task_id
    → active_on t es ≤ 1
    → active_on t (insert old.task_id new es) ≤ 1
active_on-replace t old new es hit live same h = elim (Bool-cases (old.task_id == t)) [
  | inl it ↦
      let one : is_active_on t old ≡ 1 = rw (it, live) refl in
      omega (arith, active_on-insert_old t old.task_id new old es hit, is_active_on-le t new, one)
  | inr other ↦
      let none_of : is_active_on t new ≡ 0 = is_active_on-other t new (rw same other) in
      omega (arith, active_on-insert-le t old.task_id new es, none_of)
]

pub Step-IsSound : {i j : ClaimIndex} → Step i j → IsSound i → IsSound j
Step-IsSound {i} (acquires c free fence) s = record {
  below =
      Below-insert (i.next_fence + 1) c.task_id c i.entries (omega arith)
        (Below-mono i.next_fence (i.next_fence + 1) i.entries (omega arith) s.below);
  exclusive = λ t. active_on-acquire t c i.entries free (s.exclusive t);
}
Step-IsSound {i} (releases old new hit live task fence) s =
    let held = Below-lookup i.next_fence old.task_id old i.entries hit s.below in
    record {
      below = Below-insert i.next_fence old.task_id new i.entries (omega arith) s.below;
      exclusive = λ t. active_on-replace t old new i.entries hit live task (s.exclusive t);
    }

pub Reach-IsSound : {i j : ClaimIndex} → IsSound i → Reach i j → IsSound j
Reach-IsSound s here = s
Reach-IsSound s (next r st) = Step-IsSound st (Reach-IsSound s r)

pub empty_index-IsSound : IsSound empty_index
unfolding active_on
empty_index-IsSound = record { below = tt; exclusive = λ t. omega arith }

pub next_fence-Step : {i j : ClaimIndex} → Step i j → i.next_fence ≤ j.next_fence
next_fence-Step (acquires c free fence) = omega arith
next_fence-Step {i} (releases old new hit live task fence) = omega arith

pub next_fence-Reach : {i j : ClaimIndex} → Reach i j → i.next_fence ≤ j.next_fence
next_fence-Reach here = omega arith
next_fence-Reach (next r st) = omega (arith, next_fence-Reach r, next_fence-Step st)
