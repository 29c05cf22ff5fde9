-- ===== src/Activation/Takeover.antt =====
-- src/wakeup.js: the tokens of leases. A process that takes the lease over shuts out the one that held
-- it before.
use durable_supervisor.Base.{
  Bool, Bool-cases, Option, ap, arith, false, inl, inr, leb, negb, none, ok, ok_inj, refl, some,
  some_inj, subst, throw_if-ok, true, ℕ, ◌&&◌, ◌<◌, ◌==◌, ◌||◌, ◌∙◌, ◌≡◌, ◌≤◌, string_eq, nat_eq,
}
use durable_supervisor.Store.{
  Hash, File, Swap, swapped, lock_busy, content_changed, compare_and_swap, digest_of, did_swap,
}
use durable_supervisor.Store.Laws.{swap_written, swap_unchanged}
use durable_supervisor.Activation.Lease.{
  Acquisition, Call, Lease, Machine, Supervisor, acquire_activation_lease, activation_owner_current,
  blocked, decision_fence_current, lease_round, live_lease, max_safe_integer, next_lease,
  same_activation_owner, swap_lease, take_lease, taken, token,
}
use durable_supervisor.Activation.Fences.{decision_fence_current_superseded}

-- What other processes do to the file of the lease never lowers its token.
abbrev pub RaisesToken : Call → Type 0
RaisesToken call =
    (round : ℕ) (file : File Lease) → token file.content ≤ token (call.others round file).content

-- A lease that is newly taken is in the file, with a token above `n`.
abbrev Above : ℕ → File Lease × Acquisition → Type 0
Above n (file, a) =
    (takeover : Bool) (l : Lease)
    → a ≡ taken takeover l
    → (file.content ≡ some l) × (n < l.fencing_token)

taken_inj : {r q : Bool} {d e : Lease} → taken r d ≡ taken q e → d ≡ e
taken_inj h = cc

blocked-taken :
    (s : Supervisor) (call : Call) (current : Option Lease) (takeover : Bool) (l : Lease)
    → blocked s call current ≡ some (taken takeover l)
    → ⊥
unfolding blocked
blocked-taken s call none takeover l h = cc
blocked-taken s call (some c) takeover l h = elim (Bool-cases (live_lease s call.now_ms c)) [
  | inr dead ↦ cc (rw dead at h)
  | inl live ↦
      elim (Bool-cases (c.event_id == call.event_id && same_activation_owner c.owner call.owner)) [
        | inl own ↦ cc (some_inj (rw (live, own) at h))
        | inr other ↦ cc (some_inj (rw (live, other) at h))
      ]
]

module _ (h : Hash Lease) (machine : Machine) (s : Supervisor) (call : Call)
    (raises : RaisesToken call) (n : ℕ) where
  open h use {Digest}

  swap_lease-Above :
      (retry : File Lease → File Lease × Acquisition) (current : Option Lease) (next : Lease)
      (after : File Lease × Swap Digest)
      → ((f : File Lease) → n ≤ token f.content → Above n (retry f))
      → (did_swap after.1 ≡ true → after.0.content ≡ some next)
      → (did_swap after.1 ≡ false → n ≤ token after.0.content)
      → n < next.fencing_token
      → Above n (swap_lease h machine s retry current next after)
  swap_lease-Above retry current next (file, swapped p c) rest written left above b l e =
      (written refl ∙ ap some (taken_inj e), rw (← taken_inj e) above)
  swap_lease-Above retry current next (file, lock_busy) rest written left above b l e = cc
  swap_lease-Above retry current next (file, content_changed c) rest written left above b l e =
      rest file (left refl) b l e

  take_lease-Above :
      (round : ℕ) (retry : File Lease → File Lease × Acquisition) (file : File Lease)
      → ((f : File Lease) → n ≤ token f.content → Above n (retry f))
      → n ≤ token file.content
      → (early : Option Acquisition) → blocked s call file.content ≡ early
      → Above n (take_lease h machine s call round retry file early)
  take_lease-Above round retry file rest low (some early) e b l is_l =
      absurd (blocked-taken s call file.content b l (e ∙ ap some is_l))
  take_lease-Above round retry file rest low none e b l is_l =
      let next = next_lease s call round file.content in
      let others = call.others round file in
      let stays = swap_unchanged h others file.content next in
      swap_lease-Above retry file.content next
        (compare_and_swap h others (digest_of h file.content) next) rest
        (swap_written h others file.content next)
        (λ failed. rw (stays failed) (omega (arith, raises round file, low))) (omega (arith, low)) b
        l is_l

  lease_round-Above :
      (round : ℕ) (retry : File Lease → File Lease × Acquisition) (file : File Lease)
      → ((f : File Lease) → n ≤ token f.content → Above n (retry f))
      → n ≤ token file.content
      → Above n (lease_round h machine s call round retry file)
  unfolding lease_round
  lease_round-Above round retry file rest low =
      take_lease-Above round retry file rest low (blocked s call file.content) refl

-- A call that takes the lease over from a record in the file, while other processes never lower the
-- token of the file, leaves a lease with a higher token there; and from then on the holder of the
-- record fails the fence, at any time and for any supervisor.
pub acquire_activation_lease_takes_over :
    (h : Hash Lease) (machine : Machine) (s : Supervisor) (call : Call) (file after : File Lease)
    (takeover : Bool) (l old : Lease) (z : Supervisor) (later_ms : ℕ)
    → RaisesToken call
    → file.content ≡ some old
    → acquire_activation_lease h machine s call file ≡ ok (after, taken takeover l)
    → (old.fencing_token < l.fencing_token)
      × (after.content ≡ some l)
      × (decision_fence_current machine z later_ms old after.content ≡ false)
unfolding acquire_activation_lease
acquire_activation_lease_takes_over h machine s call file after takeover l old z later_ms raises
      is_old e =
    let (_, e₁) = throw_if-ok (call.event_id == "") _ _ e in
    let (_, e₂) =
      throw_if-ok (call.ttl_ms == 0 || negb (leb call.ttl_ms max_safe_integer)) _ _ e₁ in
    elim (Bool-cases (activation_owner_current machine call.owner)) [
      | inr stale ↦ let e' = ap (λ p. p.1) (ok_inj (rw stale at e₂)) in cc
      | inl current ↦
          let e' = ok_inj (rw current at e₂) in
          let low : old.fencing_token ≤ token file.content = rw is_old (omega arith) in
          let (written, above) =
            subst (Above old.fencing_token) e'
              (lease_round-Above h machine s call raises old.fencing_token 0 _ file
                (λ f le.
                  lease_round-Above h machine s call raises old.fencing_token 1 _ f
                    (λ g lg b x i. cc) le)
                low)
              takeover l refl in
          (
            above,
            written,
            rw written (
                decision_fence_current_superseded machine z later_ms old l
                  (inl (λ same. omega (arith, same, above)))),
          )
    ]
