-- ===== src/Wait/Laws.antt =====
-- What `applyWakeEvent` of src/wakeup.js guarantees over a whole history of events.
use durable_supervisor.Base.{
  >>=-eq-ok, Bool, Bool-cases, List, Option, String, [], all, all-includes, arith, false,
  if◌then◌else◌, includes, includes-append_last, inl, inr, negb, none, ok, refl, some, true, ◌&&◌,
  ◌++◌, ◌==◌, ◌∙◌, ◌∷◌, ◌≡◌, ◌⊎◌, string_eq,
}
use durable_supervisor.Wait.{
  Wait, Wake, WakeEvent, waiting, ready, apply_wake_event, dispatch_event, apply_all,
  terminal_wake_types, ineligible_wake_types,
}

-- The event may end a wait of this identity: the description that the code is held to.
pub ends : String → WakeEvent → Bool
ends wait_id event = event.wait_id == wait_id && includes terminal_wake_types event.type

-- The first event of a history that ends the wait, an identity counting at its first occurrence.
pub first_end : String → List String → List WakeEvent → Option Wake
first_end wait_id seen [] = none
first_end wait_id seen (event ∷ rest) =
    let later = first_end wait_id (seen ++ event.event_id ∷ []) rest in
    let skipped = first_end wait_id seen rest in
    if includes seen event.event_id
    then skipped
    else if ends wait_id event
    then some (record { event_id = event.event_id; type = event.type })
    else later

-- No type that ends a wait is an ineligible one or a human interaction.
abbrev only_ends : String → Bool
only_ends t = negb (includes ineligible_wake_types t) && negb (t == "human-interaction")

types_exclusive : (t : String) → includes terminal_wake_types t ≡ true → only_ends t ≡ true
unfolding includes
types_exclusive t = all-includes only_ends terminal_wake_types t (unfold all includes in refl)

-- What an event does to a wait that still waits.
dispatch_event-waiting :
    (w : Wait) (e : WakeEvent)
    → w.state ≡ waiting
    → ((dispatch_event w e).wake ≡ (
        if ends w.wait_id e
        then some (record { event_id = e.event_id; type = e.type })
        else w.wake))
      × ((dispatch_event w e).state ≡ (if ends w.wait_id e then ready else waiting))
unfolding dispatch_event ends
dispatch_event-waiting w e h = elim (Bool-cases (e.wait_id == w.wait_id)) [
  | inl same ↦
      rw (h, same) (ground (arith, types_exclusive e.type), ground (arith, types_exclusive e.type))
  | inr other ↦ rw other (refl, h)
]

-- An event changes nothing of a wait that is over but the list of the events seen.
dispatch_event-ready :
    (w : Wait) (e : WakeEvent)
    → w.state ≡ ready
    → ((dispatch_event w e).wake ≡ w.wake) × ((dispatch_event w e).state ≡ ready)
unfolding dispatch_event
dispatch_event-ready w e h = elim (Bool-cases (e.wait_id == w.wait_id)) [
  | inl same ↦ rw (same, h) (refl, refl)
  | inr other ↦ rw other (refl, h)
]

dispatch_event-keeps :
    (w : Wait) (e : WakeEvent)
    → ((dispatch_event w e).seen_event_ids ≡ w.seen_event_ids ++ e.event_id ∷ [])
      × ((dispatch_event w e).wait_id ≡ w.wait_id)
      × ((dispatch_event w e).schema ≡ w.schema)
unfolding dispatch_event
dispatch_event-keeps w e = (ground arith, ground arith, ground arith)

-- A call that returns has met a seen event, or has dispatched the event.
apply_wake_event-ok :
    (w v : Wait) (e : WakeEvent)
    → apply_wake_event w e ≡ ok v
    → ((includes w.seen_event_ids e.event_id ≡ true) × (v ≡ w))
      ⊎ ((includes w.seen_event_ids e.event_id ≡ false) × (v ≡ dispatch_event w e))
unfolding apply_wake_event
apply_wake_event-ok w v e h = ground arith

-- A wait that is over stays over with the same wake, whatever events follow.
pub apply_all-ready :
    (w v : Wait) (es : List WakeEvent)
    → w.state ≡ ready
    → apply_all w es ≡ ok v
    → (v.state ≡ ready) × (v.wake ≡ w.wake)
unfolding apply_all
apply_all-ready w v [] r h = ground arith
apply_all-ready w v (e ∷ es) r h =
    let (u, first, rest) = >>=-eq-ok (apply_wake_event w e) (λ next. apply_all next es) h in
    let ih = apply_all-ready u v es in
    elim (apply_wake_event-ok w u e first) [
      | inl (_, same) ↦ ground (arith, ih, same)
      | inr (_, moved) ↦ ground (arith, ih, moved, dispatch_event-ready w e)
    ]

-- One event that is new, and the history after it.
first_end_new :
    (w v : Wait) (e : WakeEvent) (es : List WakeEvent)
    → w.state ≡ waiting
    → w.wake ≡ none
    → ((dispatch_event w e).state ≡ waiting
        → (dispatch_event w e).wake ≡ none
        → v.wake ≡ first_end (dispatch_event w e).wait_id (dispatch_event w e).seen_event_ids es)
    → ((dispatch_event w e).state ≡ ready → v.wake ≡ (dispatch_event w e).wake)
    → v.wake ≡ (
        if ends w.wait_id e
        then some (record { event_id = e.event_id; type = e.type })
        else first_end w.wait_id (w.seen_event_ids ++ e.event_id ∷ []) es)
first_end_new w v e es s n ih over =
    let (wake, state) = dispatch_event-waiting w e s in
    let (seen, same, _) = dispatch_event-keeps w e in
    elim (Bool-cases (ends w.wait_id e)) [
      | inl it ↦
          let wake' = rw it at wake in let state' = rw it at state in rw it (over state' ∙ wake')
      | inr other ↦
          let wake' = rw other at wake in
          let state' = rw other at state in
          let ih' = rw (seen, same) at ih in rw other (ih' state' (wake' ∙ n))
    ]

-- One event, and the history after it, which goes on from the wait `u`.
first_end_step :
    (w u v : Wait) (e : WakeEvent) (es : List WakeEvent)
    → w.state ≡ waiting
    → w.wake ≡ none
    → apply_wake_event w e ≡ ok u
    → (u.state ≡ waiting → u.wake ≡ none → v.wake ≡ first_end u.wait_id u.seen_event_ids es)
    → (u.state ≡ ready → v.wake ≡ u.wake)
    → v.wake ≡ first_end w.wait_id w.seen_event_ids (e ∷ es)
unfolding first_end
first_end_step w u v e es s n first ih over = elim (apply_wake_event-ok w u e first) [
  | inl (old, same) ↦ rw old (let go = rw same at ih in go s n)
  | inr (new, moved) ↦
      let go = rw moved at ih in
      let done = rw moved at over in rw new (first_end_new w v e es s n go done)
]

-- While a wait has not ended, the wake that a history leaves is the one that `first_end` names: the
-- first event with the wait's identity and a terminal type whose identity was not met before. All
-- other events, and all that come later, leave it alone.
pub apply_all-first_end :
    (w v : Wait) (es : List WakeEvent)
    → w.state ≡ waiting
    → w.wake ≡ none
    → apply_all w es ≡ ok v
    → v.wake ≡ first_end w.wait_id w.seen_event_ids es
unfolding apply_all
apply_all-first_end w v [] s n h = unfold first_end in ground arith
apply_all-first_end w v (e ∷ es) s n h =
    let (u, first, rest) = >>=-eq-ok (apply_wake_event w e) (λ next. apply_all next es) h in
    first_end_step w u v e es s n first (λ t m. apply_all-first_end u v es t m rest)
      λ t. (apply_all-ready u v es t rest).1

-- The same event a second time changes nothing.
pub apply_wake_event_twice :
    (w v : Wait) (e : WakeEvent) → apply_wake_event w e ≡ ok v → apply_wake_event v e ≡ ok v
unfolding apply_wake_event
apply_wake_event_twice w v e h = elim (apply_wake_event-ok w v e h) [
  | inl (old, same) ↦ rw same (ground arith)
  | inr (new, moved) ↦
      ground
        (arith, moved, dispatch_event-keeps w e, includes-append_last w.seen_event_ids e.event_id)
]
