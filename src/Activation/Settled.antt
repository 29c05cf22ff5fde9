-- ===== src/Activation/Settled.antt =====
-- src/wakeup.js and src/cli.js: a wake whose transport never started is settled once, and an event is
-- processed once.
use durable_supervisor.Activation.Delivery.{
  Digests, Durable, consume_wake_delivery, wake_delivery_consumption_status,
}
use durable_supervisor.Store.Laws.{swap_written}
use durable_supervisor.Store.{
  Hash, File, Swap, swapped, lock_busy, content_changed, compare_and_swap, did_swap, digest_of,
}
use durable_supervisor.Base.{
  >>=-eq-ok, Bool-cases, NoneHold-any_of, Option, Option-cases, Result, String, [], all_of-AllHold,
  any_of, any_of-NoneHold, ap, arith, beq_refl, err, false, includes, includes-append_last, inl,
  inr, is_none-none, lookup, negb, negb-false, negb-true, none, ok, ok_inj, option_string_eq,
  or_throw-ok, refl, some, string_eq, subst, sym, throw_if-ok, true, ℕ, ◌!=◌, ◌++◌, ◌>>=◌, ◌∙◌, ◌∷◌,
  ◌≡◌, nat_eq,
}
use durable_supervisor.Activation.Decision.{Request}
use durable_supervisor.Activation.Transport.{
  StoredDecision, TransportEvidence, TransportRecords, check_not_started,
  consume_reconciled_transport_not_started, reconciled_decision, reconciled_mismatch,
  transport_never_started, uncertain_mismatch, EventRecords, consume_again, consume_event,
  consume_first, end_reconciliation, mark_processed, reconcile_wake_transport_not_started,
  swap_reconciled,
}

-- What a check that passes has read.
record IsNotStarted (t : TransportRecords) (event_id : String) (stored next : StoredDecision)
    : Type 0 where
  request : Request
  attempt : String
  evidence : TransportEvidence
  read : t.request ≡ some request
  attempted : stored.decision.transport_attempt_id ≡ some attempt
  found : lookup attempt t.evidence ≡ some evidence
  certain : uncertain_mismatch t.supervisor event_id request stored.decision ≡ false
  proof : transport_never_started event_id stored.decision evidence t.has_receipt ≡ true
  made : reconciled_decision t.clock attempt (t.evidence_sha256 evidence) stored ≡ next

check_not_started-IsNotStarted :
    (t : TransportRecords) (event_id : String) (stored next : StoredDecision)
    → check_not_started t event_id stored ≡ ok next
    → IsNotStarted t event_id stored next
unfolding check_not_started
check_not_started-IsNotStarted t event_id stored next h =
    let (request, read, h₁) = or_throw-ok t.request _ _ h in
    let (certain, h₂) =
      throw_if-ok (uncertain_mismatch t.supervisor event_id request stored.decision) _ _ h₁ in
    let (attempt, named, h₃) = or_throw-ok stored.decision.transport_attempt_id _ _ h₂ in
    let (evidence, found, h₄) = or_throw-ok (lookup attempt t.evidence) _ _ h₃ in
    let (proof, h₅) =
      throw_if-ok (negb (transport_never_started event_id stored.decision evidence t.has_receipt)) _
        _ h₄ in
    record {
      request = request;
      attempt = attempt;
      evidence = evidence;
      read = read;
      attempted = named;
      found = found;
      certain = certain;
      proof = negb-false _ proof;
      made = ok_inj h₅;
    }

-- The reconciled decision can be consumed.
consume_reconciled_transport_not_started-ok :
    (t : TransportRecords) (event_id : String) (stored next : StoredDecision)
    → IsNotStarted t event_id stored next
    → consume_reconciled_transport_not_started t event_id t.supervisor.generation (some next)
      ≡ ok (some next)
unfolding consume_reconciled_transport_not_started reconciled_mismatch reconciled_decision
    uncertain_mismatch transport_never_started
consume_reconciled_transport_not_started-ok t event_id stored next x =
    let (aimed, (schema, (event, (supervisor, (generation, _))))) = any_of-NoneHold _ x.certain in
    let (_, (_, (_, (_, (_, (_, (_, (_, (_, (no_receipt, _)))))))))) = all_of-AllHold _ x.proof in
    let same : (t.supervisor.generation != t.supervisor.generation) ≡ false =
      rw (beq_refl t.supervisor.generation) refl in
    let made = reconciled_decision t.clock x.attempt (t.evidence_sha256 x.evidence) stored in
    let free : reconciled_mismatch t event_id t.supervisor.generation x.request made ≡ false =
      NoneHold-any_of _ (
        same,
        (
          aimed,
          (
            schema,
            (event, (supervisor, (generation, (refl, (refl, (negb-true _ no_receipt, tt)))))),
          ),
        ),
      ) in
    subst
      (λ z.
        consume_reconciled_transport_not_started t event_id t.supervisor.generation (some z)
        ≡ ok (some z))
      x.made (rw (x.read, consume_reconciled_transport_not_started, free) refl)

-- It is not uncertain any more.
check_not_started-err :
    (t : TransportRecords) (event_id : String) (stored next : StoredDecision)
    → IsNotStarted t event_id stored next
    → check_not_started t event_id next ≡ err "uncertain wake reconciliation fence mismatch"
unfolding check_not_started uncertain_mismatch any_of reconciled_decision
check_not_started-err t event_id stored next x =
    let made = reconciled_decision t.clock x.attempt (t.evidence_sha256 x.evidence) stored in
    let certain : uncertain_mismatch t.supervisor event_id x.request made.decision ≡ true =
      ground arith in
    subst (λ z. check_not_started t event_id z ≡ err "uncertain wake reconciliation fence mismatch")
      x.made (rw (x.read, certain) refl)

-- What a reconciliation that returns has found and left: before it an uncertain decision, whose
-- transport attempt has an evidence file that names the event, the attempt, the delivery and the
-- decision and no start of a process, and no receipt; after it the reconciled decision.
pub record IsSettled (t : TransportRecords) (event_id : String) (before after : File StoredDecision)
    (next : StoredDecision) : Type 0 where
  stored : StoredDecision
  attempt : String
  evidence : TransportEvidence
  held : before.content ≡ some stored
  uncertain : stored.decision.status ≡ "UNCERTAIN"
  attempted : stored.decision.transport_attempt_id ≡ some attempt
  found : lookup attempt t.evidence ≡ some evidence
  of_event : evidence.event_id ≡ event_id
  of_attempt : evidence.transport_attempt_id ≡ some attempt
  of_delivery : evidence.delivery_id ≡ stored.decision.delivery_id
  of_decision : evidence.activation_decision_id ≡ some stored.decision.decision_id
  not_requested : evidence.spawn_requested_at ≡ none
  not_spawned : evidence.spawned_at ≡ none
  not_started : evidence.transport_started_at ≡ none
  no_receipt : t.has_receipt ≡ false
  written : after.content ≡ some next
  status : next.decision.status ≡ "TRANSPORT_NOT_STARTED"
  again : check_not_started t event_id next ≡ err "uncertain wake reconciliation fence mismatch"
  accepted :
      consume_reconciled_transport_not_started t event_id t.supervisor.generation (some next)
      ≡ ok (some next)

IsNotStarted-IsSettled :
    (t : TransportRecords) (event_id : String) (before after : File StoredDecision)
    (stored next : StoredDecision)
    → before.content ≡ some stored
    → after.content ≡ some next
    → IsNotStarted t event_id stored next
    → IsSettled t event_id before after next
unfolding uncertain_mismatch transport_never_started reconciled_decision
IsNotStarted-IsSettled t event_id before after stored next held written x =
    let (_, (_, (_, (_, (_, (uncertain, _)))))) = any_of-NoneHold _ x.certain in
    let (
      event,
      (attempt, (delivery, (decision, (_, (_, (requested, (spawned, (started, (receipt, _))))))))),
    ) =
      all_of-AllHold _ x.proof in
    record {
      stored = stored;
      attempt = x.attempt;
      evidence = x.evidence;
      held = held;
      uncertain = (string_eq.agrees _ _).0 (negb-false _ uncertain);
      attempted = x.attempted;
      found = x.found;
      of_event = (string_eq.agrees _ _).0 event;
      of_attempt = (option_string_eq.agrees _ _).0 attempt ∙ x.attempted;
      of_delivery = (option_string_eq.agrees _ _).0 delivery;
      of_decision = (option_string_eq.agrees _ _).0 decision;
      not_requested = is_none-none _ requested;
      not_spawned = is_none-none _ spawned;
      not_started = is_none-none _ started;
      no_receipt = negb-true _ receipt;
      written = written;
      status = ap (λ (z : StoredDecision). z.decision.status) (sym x.made);
      again = check_not_started-err t event_id stored next x;
      accepted = consume_reconciled_transport_not_started-ok t event_id stored next x;
    }

module _ (h : Hash StoredDecision) (others : File StoredDecision → File StoredDecision) where
  open h use {Digest}

  end-IsSettled :
      (t : TransportRecords) (event_id : String) (file after : File StoredDecision)
      (stored next result : StoredDecision) (outcome : File StoredDecision × Swap Digest)
      → file.content ≡ some stored
      → IsNotStarted t event_id stored next
      → (did_swap outcome.1 ≡ true → outcome.0.content ≡ some next)
      → end_reconciliation h others next outcome ≡ (after, ok result)
      → IsSettled t event_id file after result
  unfolding end_reconciliation
  end-IsSettled t event_id file after stored next result (f, swapped p c) held x written e =
      let same = ok_inj (ap (λ o. o.1) e) in
      let there = ap (λ o. o.0.content) (sym e) ∙ written refl in
      subst (IsSettled t event_id file after) same
        (IsNotStarted-IsSettled t event_id file after stored next held there x)
  end-IsSettled t event_id file after stored next result (f, lock_busy) held x written e =
      let bad = ap (λ o. o.1) e in cc
  end-IsSettled t event_id file after stored next result (f, content_changed c) held x written e =
      let bad = ap (λ o. o.1) e in cc

  -- A reconciliation that returns has found an uncertain decision in its file, the evidence of whose
  -- transport attempt is of this event, delivery and decision and names no start of a process, and
  -- no receipt, whatever other processes do before the swap; the file then holds
  -- the reconciled decision, which cannot be reconciled again, and which the consumption by the
  -- supervisor of that generation accepts.
  pub reconcile_wake_transport_not_started-IsSettled :
      (t : TransportRecords) (event_id : String) (file after : File StoredDecision)
      (next : StoredDecision)
      → reconcile_wake_transport_not_started h others t event_id file ≡ (after, ok next)
      → IsSettled t event_id file after next
  unfolding reconcile_wake_transport_not_started swap_reconciled
  reconcile_wake_transport_not_started-IsSettled t event_id file after next e =
      elim (Option-cases file.content) [
        | inl absent ↦
            let bad = ap (λ o. o.1) (rw (absent, reconcile_wake_transport_not_started) at e) in cc
        | inr (stored, held) ↦
            checked file after next stored held (check_not_started t event_id stored) refl (
              ap
                (λ c. elim c as (λ o. File StoredDecision × Result StoredDecision) [
                  | none ↦ (file, err "invalid durable JSON")
                  | some d ↦ swap_reconciled h others d file (check_not_started t event_id d)
                ])
                (sym held)
              ∙ e)
      ]
    where
      checked :
          (file after : File StoredDecision) (next stored : StoredDecision)
          → file.content ≡ some stored
          → (check : Result StoredDecision) → check_not_started t event_id stored ≡ check
          → swap_reconciled h others stored file check ≡ (after, ok next)
          → IsSettled t event_id file after next
      checked file after next stored held (err m) is_check e = let bad = ap (λ o. o.1) e in cc
      checked file after next stored held (ok made) is_check e =
          let x = check_not_started-IsNotStarted t event_id stored made is_check in
          end-IsSettled t event_id file after stored made next
            (compare_and_swap h (others file) (digest_of h (some stored)) made) held x
            (swap_written h (others file) (some stored) made) e

module _ (digests : Digests) (d : Durable) (t : TransportRecords) where
  -- A call that processed the event has entered it at the end, and it was not there.
  mark_processed-ok :
      (event_id type : String) (r s : EventRecords) (first : Result (Unit {0}))
      → mark_processed digests d t event_id type r first ≡ (ok false, s)
      → r.state.processed_event_ids ++ event_id ∷ [] ≡ s.state.processed_event_ids
  unfolding mark_processed
  mark_processed-ok event_id type r s (err m) e = let bad = ap (λ o. o.0) e in cc
  mark_processed-ok event_id type r s (ok u) e = ap (λ o. o.1.state.processed_event_ids) e

  consume_first-ok :
      (event_id : String) (delivery_id : Option String) (generation : ℕ) (clock type : String)
      (r s : EventRecords)
      → consume_first digests d t event_id delivery_id generation clock type r ≡ (ok false, s)
      → r.state.processed_event_ids ++ event_id ∷ [] ≡ s.state.processed_event_ids
  unfolding consume_first
  consume_first-ok event_id delivery_id generation clock type r s e =
      let result =
        consume_wake_delivery digests d event_id delivery_id generation clock r.consumption in
      elim (Bool-cases
        (wake_delivery_consumption_status digests d event_id r.consumption.content).0) [
          | inl delivered ↦
              mark_processed-ok event_id type (record r { consumption = result.0 }) s
                (result.1 >>= λ consumed. ok tt) (rw delivered at e)
          | inr other ↦
              mark_processed-ok event_id type r s
                (consume_reconciled_transport_not_started t event_id generation r.decision
                  >>= λ reconciled. ok tt)
                (rw other at e)
        ]

  consume_again-not_false :
      (event_id : String) (delivery_id : Option String) (generation : ℕ) (clock : String)
      (r s : EventRecords)
      → consume_again digests d t event_id delivery_id generation clock r ≡ (ok false, s)
      → ⊥
  unfolding consume_again
  consume_again-not_false event_id none generation clock r s e =
      let bad = ok_inj (ap (λ o. o.0) e) in cc
  consume_again-not_false event_id (some k) generation clock r s e =
      let (_, _, bad) =
        >>=-eq-ok
          (consume_wake_delivery digests d event_id (some k) generation clock r.consumption).1 _
          (ap (λ o. o.0) e) in
      cc

  -- A call of `consumeEvent` that processes an event finds it new and enters it once, at the end;
  -- every later call for the event without a delivery is a duplicate and changes nothing.
  pub consume_event_once :
      (event_id : String) (delivery_id : Option String) (generation later : ℕ)
      (clock later_clock : String) (r s : EventRecords)
      → consume_event digests d t event_id delivery_id generation clock r ≡ (ok false, s)
      → (includes r.state.processed_event_ids event_id ≡ false)
        × (s.state.processed_event_ids ≡ r.state.processed_event_ids ++ event_id ∷ [])
        × (consume_event digests d t event_id none later later_clock s ≡ (ok true, s))
  unfolding consume_event
  consume_event_once event_id delivery_id generation later clock later_clock r s e =
      elim (Bool-cases (includes r.state.processed_event_ids event_id)) [
        | inl known ↦
            absurd
              (consume_again-not_false event_id delivery_id generation clock r s (rw known at e))
        | inr fresh ↦ elim (Option-cases (lookup event_id r.event_types)) [
          | inl missing ↦ let bad = ap (λ o. o.0) (rw (fresh, missing, consume_event) at e) in cc
          | inr (type, found) ↦
              let entered =
                consume_first-ok event_id delivery_id generation clock type r s
                  (rw (fresh, found, consume_event) at e) in
              let there : includes s.state.processed_event_ids event_id ≡ true =
                rw (← entered) (includes-append_last r.state.processed_event_ids event_id) in
              (fresh, sym entered, rw there (unfold consume_again in refl))
        ]
      ]
