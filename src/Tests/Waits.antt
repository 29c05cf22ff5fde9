-- ===== src/Tests/Waits.antt =====
-- src/wakeup.js: a wait, and the events that it is given.
use durable_supervisor.Base.{[], includes, none, ok, refl, some, ◌∷◌, ◌≡◌}
use durable_supervisor.Wait.{
  Wait, WakeEvent, waiting, ready, wait_schema, apply_wake_event, dispatch_event, apply_all,
}
use durable_supervisor.Wait.Laws.{
  apply_all-ready, apply_all-first_end, apply_wake_event_twice, first_end,
}

abbrev pending : Wait
pending = record {
  schema = wait_schema;
  wait_id = "wait-1";
  task_id = "task-1";
  attempt_id = "attempt-1";
  state = waiting;
  registered_at = "09:00";
  deadline_at = "10:00";
  seen_event_ids = [];
  human_interactions = [];
  wake = none;
}

abbrev heartbeat : WakeEvent
heartbeat = record { event_id = "event-1"; type = "heartbeat"; wait_id = "wait-1" }

abbrev finished : WakeEvent
finished = record { event_id = "event-2"; type = "child-completed"; wait_id = "wait-1" }

abbrev over : Wait
over = record pending {
  state = ready;
  seen_event_ids = "event-1" ∷ "event-2" ∷ [];
  wake = some (record { event_id = "event-2"; type = "child-completed" });
}

both : apply_all pending (heartbeat ∷ finished ∷ []) ≡ ok over
unfolding apply_all apply_wake_event dispatch_event includes
both = refl

once : apply_wake_event pending heartbeat ≡ ok (record pending { seen_event_ids = "event-1" ∷ [] })
unfolding apply_wake_event dispatch_event includes
once = refl

again : apply_all over (heartbeat ∷ finished ∷ []) ≡ ok over
unfolding apply_all apply_wake_event dispatch_event includes
again = refl

apply_all-first_end_example : over.wake ≡ first_end "wait-1" [] (heartbeat ∷ finished ∷ [])
apply_all-first_end_example =
    apply_all-first_end pending over (heartbeat ∷ finished ∷ []) refl refl both

apply_all-ready_example : (over.state ≡ ready) × (over.wake ≡ over.wake)
apply_all-ready_example = apply_all-ready over over (heartbeat ∷ finished ∷ []) refl again

apply_wake_event_twice_example :
    apply_wake_event (record pending { seen_event_ids = "event-1" ∷ [] }) heartbeat
    ≡ ok (record pending { seen_event_ids = "event-1" ∷ [] })
apply_wake_event_twice_example =
    apply_wake_event_twice pending (record pending { seen_event_ids = "event-1" ∷ [] }) heartbeat
      once
