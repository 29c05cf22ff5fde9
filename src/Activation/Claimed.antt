-- ===== src/Activation/Claimed.antt =====
-- src/wakeup.js: one wake is activated once, as `claimActivationDecision` sees to it.
use durable_supervisor.Base.{
  Bool, Bool-cases, Option, Option-cases, String, [], ap, false, inl, inr, none, refl, some, true,
  ◌&&◌, ◌++◌, ◌==◌, ◌∷◌, ◌≡◌, ◌≢◌, string_eq,
}
use durable_supervisor.Store.{
  Hash, File, Swap, swapped, lock_busy, content_changed, compare_and_swap, digest_of, did_swap,
  atomic_create,
}
use durable_supervisor.Store.Laws.{swap_written}
use durable_supervisor.Activation.Lease.{Lease, Machine, Supervisor, decision_fence_current}
use durable_supervisor.Activation.Decision.{
  Decision, Request, Attempt, Claimed, claimed, existing, claim_activation_decision, claim_created,
  claim_existing, retry_swap, new_decision, prior_attempt, targets,
}

-- The decision that a claim has given is in the file, as CLAIMED.
abbrev pub Gives : File Decision × Claimed → Type 0
Gives (file, c) =
    (retry : Bool) (d : Decision)
    → c ≡ claimed retry d
    → (file.content ≡ some d) × (d.status ≡ "CLAIMED")

claimed_inj : {r q : Bool} {d e : Decision} → claimed r d ≡ claimed q e → d ≡ e
claimed_inj h = cc

atomic_create-existing :
    (file : File Decision) (old next : Decision)
    → file.content ≡ some old
    → atomic_create file next ≡ (file, false)
unfolding atomic_create
atomic_create-existing file old next e = rw e refl

atomic_create-missing :
    (file : File Decision) (next : Decision)
    → file.content ≡ none
    → atomic_create file next ≡ (record file { content = some next }, true)
unfolding atomic_create
atomic_create-missing file next e = rw e refl

module _ (h : Hash Decision) where
  open h use {Digest}

  retry_swap-Gives :
      (next : Decision) (after : File Decision × Swap Digest)
      → next.status ≡ "CLAIMED"
      → (did_swap after.1 ≡ true → after.0.content ≡ some next)
      → Gives (retry_swap h next after)
  retry_swap-Gives next (file, swapped p c) status written retry d e =
      (rw (← claimed_inj e) (written refl), rw (← claimed_inj e) status)
  retry_swap-Gives next (file, lock_busy) status written retry d e = cc
  retry_swap-Gives next (file, content_changed c) status written retry d e = cc

  claim_existing-Gives :
      (others : File Decision → File Decision) (fence : Bool) (next : Decision)
      (file : File Decision) (content : Option Decision)
      → next.status ≡ "CLAIMED"
      → Gives (claim_existing h others fence next file content)
  claim_existing-Gives others fence next file none status retry d e = cc
  claim_existing-Gives others fence next file (some current) status retry d e =
      let with_prior : Decision = record next {
        prior_attempts = current.prior_attempts ++ prior_attempt current ∷ [];
      } in
      elim (Bool-cases (current.status == "TRANSPORT_NOT_STARTED" && fence)) [
        | inl again ↦
            let e' = rw again at e in
            rw again (
              retry_swap-Gives with_prior
                (compare_and_swap h (others file) (digest_of h (some current)) with_prior) status
                (swap_written h (others file) (some current) with_prior) retry d e')
        | inr never ↦ cc (rw never at e)
      ]

  -- A claim on a file that holds a decision that is already claimed changes nothing.
  claim_existing-claimed :
      (others : File Decision → File Decision) (fence : Bool) (next : Decision)
      (file : File Decision) (d : Decision)
      → file.content ≡ some d
      → d.status ≡ "CLAIMED"
      → claim_existing h others fence next file file.content ≡ (file, existing (some d))
  claim_existing-claimed others fence next file d e status = rw (e, status) refl

  created-Gives :
      (others : File Decision → File Decision) (fence : Bool) (next : Decision)
      (file : File Decision)
      → next.status ≡ "CLAIMED"
      → Gives (claim_created h others fence next (atomic_create file next))
  created-Gives others fence next file status retry d e = elim (Option-cases file.content) [
    | inl missing ↦
        let e' = rw (atomic_create-missing file next missing) at e in
        rw (atomic_create-missing file next missing)
          (ap some (claimed_inj e'), rw (← claimed_inj e') status)
    | inr (old, is_old) ↦
        let e' = rw (atomic_create-existing file old next is_old) at e in
        rw (atomic_create-existing file old next is_old)
          (claim_existing-Gives others fence next file file.content status retry d e')
  ]

  claim-Gives :
      (machine : Machine) (s : Supervisor) (held : Option Lease) (event_id : String)
      (request : Request) (lease : Lease) (a : Attempt) (others : File Decision → File Decision)
      (file : File Decision)
      → Gives (claim_activation_decision h machine s held event_id request lease a others file)
  unfolding claim_activation_decision
  claim-Gives machine s held event_id request lease a others file retry d e =
      elim (Bool-cases (decision_fence_current machine s a.now_ms lease held)) [
        | inr stale ↦ cc (rw stale at e)
        | inl current ↦ elim (Bool-cases (targets request.target s)) [
          | inr obsolete ↦ cc (rw (current, obsolete) at e)
          | inl on ↦
              let e' = rw (current, on) at e in
              rw (current, on)
                (created-Gives others (decision_fence_current machine s a.later_ms lease held)
                  (new_decision s event_id lease a) file refl retry d e')
        ]
      ]

  claim-again :
      (machine : Machine) (s : Supervisor) (held : Option Lease) (event_id : String)
      (request : Request) (lease : Lease) (a : Attempt) (others : File Decision → File Decision)
      (file : File Decision) (d : Decision)
      → file.content ≡ some d
      → d.status ≡ "CLAIMED"
      → let again =
          claim_activation_decision h machine s held event_id request lease a others file in
        (again.0 ≡ file) × ((r : Bool) (e : Decision) → again.1 ≢ claimed r e)
  unfolding claim_activation_decision
  claim-again machine s held event_id request lease a others file d is_d status =
      elim (Bool-cases (decision_fence_current machine s a.now_ms lease held)) [
        | inr stale ↦ rw stale (refl, λ r e x. cc)
        | inl current ↦ elim (Bool-cases (targets request.target s)) [
          | inr obsolete ↦ rw (current, obsolete) (refl, λ r e x. cc)
          | inl on ↦
              let kept =
                claim_existing-claimed others
                  (decision_fence_current machine s a.later_ms lease held)
                  (new_decision s event_id lease a) file d is_d status in
              rw
                (
                  current,
                  on,
                  atomic_create-existing file d (new_decision s event_id lease a) is_d,
                  kept,
                )
                (refl, λ r e x. cc)
        ]
      ]

pub claim_activation_decision_once :
    (h : Hash Decision) (machine other_machine : Machine) (s z : Supervisor)
    (held other_held : Option Lease) (event_id : String) (request other_request : Request)
    (lease other_lease : Lease) (a b : Attempt) (others noise : File Decision → File Decision)
    (file : File Decision) (retry : Bool) (d : Decision)
    → let after = claim_activation_decision h machine s held event_id request lease a others file in
      let again =
        claim_activation_decision h other_machine z other_held event_id other_request other_lease b
          noise after.0 in
      after.1 ≡ claimed retry d
      → (after.0.content ≡ some d)
        × (d.status ≡ "CLAIMED")
        × (again.0 ≡ after.0)
        × ((r : Bool) (e : Decision) → again.1 ≢ claimed r e)
claim_activation_decision_once h machine other_machine s z held other_held event_id request
      other_request lease other_lease a b others noise file retry d e =
    let (written, status) =
      claim-Gives h machine s held event_id request lease a others file retry d e in
    let (same, none_given) =
      claim-again h other_machine z other_held event_id other_request other_lease b noise _ d
        written status in
    (written, status, same, none_given)
