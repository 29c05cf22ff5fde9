-- ===== src/Activation/Fences.antt =====
-- The leases of src/wakeup.js: which lease passes the fence that its holder is tested at.
use durable_supervisor.Base.{
  Bool, Bool-cases, Option, all_of, all_of-AllHold, ap, arith, beq_refl, false, inl, inr, leb,
  nat_eq, negb, none, ok, ok_inj, refl, some, some_inj, string_eq, subst, sym, throw_if-ok, true, ℕ,
  ◌&&◌, ◌+◌, ◌<◌, ◌==◌, ◌||◌, ◌∙◌, ◌≡◌, ◌≢◌, ◌⊎◌,
}
use durable_supervisor.Store.{
  Hash, File, Swap, swapped, lock_busy, content_changed, compare_and_swap, digest_of, did_swap,
}
use durable_supervisor.Store.Laws.{swap_written}
use durable_supervisor.Activation.Lease.{
  Lease, Machine, Supervisor, Call, Acquisition, duplicate_of, taken, refused,
  acquire_activation_lease, activation_owner_current, blocked, decision_fence_current,
  max_safe_integer, same_activation_owner, fence_tests, lease_round, live_lease, next_lease,
  swap_lease, take_lease, lease_expired, released, release_swap, release_current, same_fence,
  release_activation_lease,
}

abbrev pub lease_of : Acquisition → Option Lease
lease_of (duplicate_of l) = some l
lease_of (taken takeover l) = some l
lease_of (refused c r) = none

-- After a failed or a successful round, a lease that is returned is in the file and live.
abbrev pub Holds : Supervisor → ℕ → File Lease × Acquisition → Type 0
Holds s now_ms (file, a) =
    (l : Lease) → lease_of a ≡ some l → (file.content ≡ some l) × (live_lease s now_ms l ≡ true)

fresh_expiry : (now ttl : ℕ) → 0 < ttl → lease_expired (some (now + ttl)) now ≡ false
unfolding lease_expired
fresh_expiry now ttl h = ground arith

next_lease-live :
    (s : Supervisor) (call : Call) (round : ℕ) (current : Option Lease)
    → 0 < call.ttl_ms
    → live_lease s call.now_ms (next_lease s call round current) ≡ true
unfolding live_lease
next_lease-live s call round current h =
    rw (fresh_expiry call.now_ms call.ttl_ms h, beq_refl s.supervisor_id, beq_refl s.generation)
      refl

module _ (h : Hash Lease) (machine : Machine) (s : Supervisor) (call : Call)
    (positive : 0 < call.ttl_ms) where
  open h use {Digest}

  blocked-Holds :
      (current : Option Lease) (early : Acquisition) (l : Lease)
      → blocked s call current ≡ some early
      → lease_of early ≡ some l
      → (current ≡ some l) × (live_lease s call.now_ms l ≡ true)
  unfolding blocked
  blocked-Holds none early l e is_l = cc
  blocked-Holds (some current) early l e is_l =
      elim (Bool-cases (live_lease s call.now_ms current)) [
        | inr dead ↦ cc (rw dead at e)
        | inl live ↦
            elim (Bool-cases (
              current.event_id == call.event_id
              && same_activation_owner current.owner call.owner)) [
                | inr other ↦ let e' = some_inj (rw (live, other) at e) in cc (rw (← e') at is_l)
                | inl own ↦
                    let e' = some_inj (rw (live, own) at e) in
                    let same = rw (← e') at is_l in (same, rw (← some_inj same) live)
              ]
      ]

  swap_lease-Holds :
      (retry : File Lease → File Lease × Acquisition) (current : Option Lease) (next : Lease)
      (after : File Lease × Swap Digest)
      → ((f : File Lease) → Holds s call.now_ms (retry f))
      → (did_swap after.1 ≡ true → after.0.content ≡ some next)
      → live_lease s call.now_ms next ≡ true
      → Holds s call.now_ms (swap_lease h machine s retry current next after)
  swap_lease-Holds retry current next (file, swapped p c) rest written live l is_l =
      (written refl ∙ is_l, rw (← some_inj is_l) live)
  swap_lease-Holds retry current next (file, lock_busy) rest written live l is_l = cc
  swap_lease-Holds retry current next (file, content_changed c) rest written live l is_l =
      rest file l is_l

  take_lease-Holds :
      (round : ℕ) (retry : File Lease → File Lease × Acquisition) (file : File Lease)
      → ((f : File Lease) → Holds s call.now_ms (retry f))
      → (early : Option Acquisition) → blocked s call file.content ≡ early
      → Holds s call.now_ms (take_lease h machine s call round retry file early)
  take_lease-Holds round retry file rest (some early) e l is_l =
      blocked-Holds file.content early l e is_l
  take_lease-Holds round retry file rest none e l is_l =
      let next = next_lease s call round file.content in
      swap_lease-Holds retry file.content next
        (compare_and_swap h (call.others round file) (digest_of h file.content) next) rest
        (swap_written h (call.others round file) file.content next)
        (next_lease-live s call round file.content positive) l is_l

  lease_round-Holds :
      (round : ℕ) (retry : File Lease → File Lease × Acquisition) (file : File Lease)
      → ((f : File Lease) → Holds s call.now_ms (retry f))
      → Holds s call.now_ms (lease_round h machine s call round retry file)
  unfolding lease_round
  lease_round-Holds round retry file rest =
      take_lease-Holds round retry file rest (blocked s call file.content) refl

-- Whatever other processes do to the file during a call, a lease that the call returns is the one in
-- the file when it ends, and is live then for the supervisor of the call.
pub acquire_activation_lease_held :
    (h : Hash Lease) (machine : Machine) (s : Supervisor) (call : Call) (file after : File Lease)
    (a : Acquisition) (l : Lease)
    → acquire_activation_lease h machine s call file ≡ ok (after, a)
    → lease_of a ≡ some l
    → (after.content ≡ some l) × (live_lease s call.now_ms l ≡ true)
unfolding acquire_activation_lease
acquire_activation_lease_held h machine s call file after a l e is_l =
    let (_, e₁) = throw_if-ok (call.event_id == "") _ _ e in
    let (range, e₂) =
      throw_if-ok (call.ttl_ms == 0 || negb (leb call.ttl_ms max_safe_integer)) _ _ e₁ in
    let positive : 0 < call.ttl_ms = ground arith in
    elim (Bool-cases (activation_owner_current machine call.owner)) [
      | inr stale ↦ let e' = ok_inj (rw stale at e₂) in cc (rw (← ap (λ p. p.1) e') at is_l)
      | inl current ↦
          let e' = ok_inj (rw current at e₂) in
          subst (Holds s call.now_ms) e'
            (lease_round-Holds h machine s call positive 0 _ file
              (λ f. lease_round-Holds h machine s call positive 1 _ f (λ g l' i. cc)))
            l is_l
    ]

-- A process whose lease has been replaced by another token, or whose lease has been released, fails
-- the fence that is tested before it acts, at any time and on any machine.
pub decision_fence_current_superseded :
    (machine : Machine) (s : Supervisor) (now_ms : ℕ) (lease current : Lease)
    → (current.fencing_token ≢ lease.fencing_token) ⊎ (current.status ≢ "OWNED")
    → decision_fence_current machine s now_ms lease (some current) ≡ false
unfolding decision_fence_current
decision_fence_current_superseded machine s now_ms lease current why =
    elim (Bool-cases (all_of (fence_tests machine s now_ms lease current))) [
      | inr fails ↦ fails
      | inl passes ↦
          let t = all_of-AllHold (fence_tests machine s now_ms lease current) passes in
          elim why [
            | inl other ↦ elim (other ((nat_eq.agrees _ _).0 t.1.1.1.1.1.0)) [ ]
            | inr over ↦ elim (over ((string_eq.agrees _ _).0 t.1.0)) [ ]
          ]
    ]

module _ (h : Hash Lease) (machine : Machine) (s : Supervisor) (later_ms : ℕ) where
  open h use {Digest}

  released-fenced :
      (lease current : Lease) (c : Option Lease)
      → c ≡ some current
      → current.status ≡ "RELEASED"
      → decision_fence_current machine s later_ms lease c ≡ false
  released-fenced lease current c is_c status = rw is_c (
      decision_fence_current_superseded machine s later_ms lease current
        (inr (λ owned. let clash : "RELEASED" ≡ "OWNED" = sym status ∙ owned in cc)))

  release_swap-fenced :
      (lease next : Lease) (after : File Lease × Swap Digest) (duplicate : Bool) (l : Lease)
      → next.status ≡ "RELEASED"
      → (did_swap after.1 ≡ true → after.0.content ≡ some next)
      → (release_swap h next after).1 ≡ released duplicate l
      → decision_fence_current machine s later_ms lease (release_swap h next after).0.content
        ≡ false
  release_swap-fenced lease next (file, swapped p c) duplicate l status written e =
      released-fenced lease next file.content (written refl) status
  release_swap-fenced lease next (file, lock_busy) duplicate l status written e = cc
  release_swap-fenced lease next (file, content_changed c) duplicate l status written e = cc

  release_current-fenced :
      (others : File Lease → File Lease) (now_ms : ℕ) (lease : Lease) (file : File Lease)
      (content : Option Lease) (duplicate : Bool) (l : Lease)
      → file.content ≡ content
      → (release_current h others now_ms lease file content).1 ≡ released duplicate l
      → decision_fence_current machine s later_ms lease
          (release_current h others now_ms lease file content).0.content
        ≡ false
  release_current-fenced others now_ms lease file none duplicate l is_c e = cc
  release_current-fenced others now_ms lease file (some current) duplicate l is_c e =
      let next : Lease = record current { status = "RELEASED"; released_at = some now_ms } in
      elim (Bool-cases (same_fence current lease)) [
        | inr other ↦ cc (rw other at e)
        | inl own ↦ elim (Bool-cases (current.status == "RELEASED")) [
          | inl already ↦
              rw (own, already)
                (released-fenced lease current file.content is_c ((string_eq.agrees _ _).0 already))
          | inr owned ↦
              let e' = rw (own, owned) at e in
              rw (own, owned)
                (release_swap-fenced lease next
                  (compare_and_swap h (others file) (digest_of h (some current)) next) duplicate l
                  refl (swap_written h (others file) (some current) next) e')
        ]
      ]

-- A release that succeeds, whatever other processes did to the file meanwhile, leaves the lease's
-- record released in the file, and from then on its holder fails the fence.
pub release_activation_lease_fenced :
    (h : Hash Lease) (others : File Lease → File Lease) (now_ms : ℕ) (lease : Lease)
    (file : File Lease) (duplicate : Bool) (l : Lease) (machine : Machine) (s : Supervisor)
    (later_ms : ℕ)
    → (release_activation_lease h others now_ms lease file).1 ≡ released duplicate l
    → decision_fence_current machine s later_ms lease
        (release_activation_lease h others now_ms lease file).0.content
      ≡ false
unfolding release_activation_lease
release_activation_lease_fenced h others now_ms lease file duplicate l machine s later_ms e =
    release_current-fenced h machine s later_ms others now_ms lease file file.content duplicate l
      refl e
