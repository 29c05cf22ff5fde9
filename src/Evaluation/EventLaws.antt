-- ===== src/Evaluation/EventLaws.antt =====
-- src/cli.js, `reconcileEvaluationEvent`: an event that was recorded stays recorded, and is recorded
-- once however often the recording is interrupted.
use durable_supervisor.Base.{
  >>=-eq-ok, Bool, Bool-cases, List, Option-cases, Result, String, [], ap, arith, beq_refl, false,
  inl, inr, insert, is_empty, keep, leb, length, lookup, lookup-insert, lookup-insert_self, negb,
  negb-false, none, ok, ok_inj, refl, some, string_eq, subst, suc, sym, throw_if-ok, true, ℕ, ◌++◌,
  ◌==◌, ◌>>=◌, ◌∙◌, ◌∷◌, ◌≡◌, ◌⊎◌,
}
use durable_supervisor.Evaluation.Records.{
  Event, same_event, same_event_refl, same_event_sound, Records,
}
use durable_supervisor.Evaluation.Events.{
  event_matches_projection, records_event, identity_conflict, find_event, log_event, file_event,
  choose_event, reconcile_evaluation_event, log_evaluation_event,
}

pub keep-append {ℓ} :
    {A : Type ℓ} (p : A → Bool) (xs ys : List A) → keep p (xs ++ ys) ≡ keep p xs ++ keep p ys
unfolding keep
keep-append p [] ys = refl
keep-append p (x ∷ xs) ys = elim (Bool-cases (p x)) [
  | inl yes_x ↦ rw (yes_x, keep-append p xs ys) refl
  | inr no_x ↦ rw (no_x, keep-append p xs ys) refl
]

records_event_refl : (x : Event) → records_event x x ≡ true
unfolding records_event
records_event_refl x =
    rw (beq_refl x.type, beq_refl x.decision_id, beq_refl x.task_id, beq_refl x.attempt_id) refl

event_matches_refl : (x : Event) → event_matches_projection x x ≡ true
unfolding event_matches_projection
event_matches_refl x = same_event_refl x

-- The one line of the log that records the event `x`, in which no other line has its identity.
pub record IsLogged (x e : Event) (log : List Event) : Type 0 where
  pub lines : keep (records_event x) log ≡ e ∷ []
  pub no_conflict : keep (identity_conflict x) log ≡ []
  pub matches : event_matches_projection e x ≡ true

abbrev pub IsRecorded : Event → List Event → List (String × Event) → Type 0
IsRecorded x log files = (e : Event) × IsLogged x e log × (lookup e.event_id files ≡ some e)

is_empty-nil {ℓ} : {A : Type ℓ} (xs : List A) → is_empty xs ≡ true → xs ≡ []
is_empty-nil [] h = refl
is_empty-nil (x ∷ xs) h = cc

pair_inj₀ {ℓ κ} :
    {A : Type ℓ} {B : Type κ} {a b : A} {c d : B}
    → ◌≡◌ {A = Result (A × B)} (ok (a, c)) (ok (b, d))
    → a ≡ b
pair_inj₀ h = ap (λ p. p.0) (ok_inj h)

pair_inj₁ {ℓ κ} :
    {A : Type ℓ} {B : Type κ} {a b : A} {c d : B}
    → ◌≡◌ {A = Result (A × B)} (ok (a, c)) (ok (b, d))
    → c ≡ d
pair_inj₁ h = ap (λ p. p.1) (ok_inj h)

pub two_few : (n : ℕ) → leb 2 (suc (suc n)) ≡ false → ⊥
two_few n h = ground arith

-- What `find_event` found: a line of the log, or no line, and then the expected event.
Found : Event → List Event → Bool → Event → Type 0
Found x log found e =
    ((found ≡ true) × IsLogged x e log)
    ⊎ ((found ≡ false)
        × (keep (records_event x) log ≡ [])
        × (keep (identity_conflict x) log ≡ [])
        × (e ≡ x))

choose_event-Found :
    (x : Event) (log : List Event) (files : List (String × Event)) (lines : List Event)
    (found : Bool) (e : Event)
    → keep (records_event x) log ≡ lines
    → leb 2 (length lines) ≡ false
    → keep (identity_conflict x) log ≡ []
    → choose_event x files lines ≡ ok (found, e)
    → Found x log found e
unfolding choose_event Found
choose_event-Found x log files (m ∷ n ∷ more) found e lines few clean h =
    absurd (two_few (length more) few)
choose_event-Found x log files (m ∷ []) found e lines few clean h =
    let (matching, h₁) = throw_if-ok (negb (event_matches_projection m x)) _ _ h in
    let same : m ≡ e = pair_inj₁ h₁ in
    inl (
      sym (pair_inj₀ h₁),
      record {
        lines = lines ∙ ap (λ z. z ∷ []) same;
        no_conflict = clean;
        matches = rw (← same) (negb-false _ matching);
      },
    )
choose_event-Found x log files [] found e lines few clean h =
    elim (Option-cases (lookup x.event_id files)) [
      | inl absent ↦
          let h₁ = rw (absent, choose_event) at h in
          inr (sym (pair_inj₀ h₁), lines, clean, sym (pair_inj₁ h₁))
      | inr (f, filed) ↦
          let (equal, h₁) =
            throw_if-ok (negb (same_event f x)) _ (ok (false, f)) (rw (filed, choose_event) at h) in
          inr (
            sym (pair_inj₀ h₁),
            lines,
            clean,
            sym (pair_inj₁ h₁) ∙ same_event_sound f x (negb-false _ equal),
          )
    ]

find_event-Found :
    (x : Event) (log : List Event) (files : List (String × Event)) (found : Bool) (e : Event)
    → find_event x log files ≡ ok (found, e)
    → Found x log found e
unfolding find_event
find_event-Found x log files found e h =
    let lines = keep (records_event x) log in
    let (few, h₁) = throw_if-ok (leb 2 (length lines)) _ _ h in
    let (clean, h₂) = throw_if-ok (negb (is_empty (keep (identity_conflict x) log))) _ _ h₁ in
    choose_event-Found x log files lines found e refl few (is_empty-nil _ (negb-false _ clean)) h₂

-- A recorded event is found in the log.
IsLogged-find :
    (x e : Event) (log : List Event) (files : List (String × Event))
    → IsLogged x e log
    → find_event x log files ≡ ok (true, e)
unfolding find_event choose_event
IsLogged-find x e log files l = rw (l.lines, l.no_conflict, l.matches) refl

-- The line that is appended where none records the event.
append-IsLogged :
    (x : Event) (log : List Event)
    → keep (records_event x) log ≡ []
    → keep (identity_conflict x) log ≡ []
    → IsLogged x x (log ++ x ∷ [])
unfolding keep identity_conflict
append-IsLogged x log none_yet clean = record {
  lines = keep-append (records_event x) log (x ∷ []) ∙ rw (none_yet, records_event_refl x) refl;
  no_conflict =
      keep-append (identity_conflict x) log (x ∷ [])
      ∙ rw (clean, records_event_refl x) (ground arith);
  matches = event_matches_refl x;
}

-- After the first half of the recording the event is in the log.
log_event-IsLogged :
    (x e : Event) (log : List Event) (found : Bool)
    → Found x log found e
    → IsLogged x e (log_event (found, e) log)
unfolding log_event Found
log_event-IsLogged x e log found (inl (is_found, l)) = rw is_found l
log_event-IsLogged x e log found (inr (not_found, lines, clean, same)) =
    rw (not_found, same) (append-IsLogged x log lines clean)

file_event-lookup :
    (e : Event) (files after : List (String × Event))
    → file_event e files ≡ ok after
    → lookup e.event_id after ≡ some e
unfolding file_event
file_event-lookup e files after h = elim (Option-cases (lookup e.event_id files)) [
  | inl absent ↦
      rw (← ok_inj {a = insert e.event_id e files} (rw (absent, file_event) at h))
        (lookup-insert_self e.event_id e files)
  | inr (f, filed) ↦
      let (equal, h₁) =
        throw_if-ok (negb (same_event f e)) _ (ok files) (rw (filed, file_event) at h) in
      rw (← ok_inj h₁) (filed ∙ ap some (same_event_sound f e (negb-false _ equal)))
]

file_event_again :
    (e : Event) (files : List (String × Event))
    → lookup e.event_id files ≡ some e
    → file_event e files ≡ ok files
unfolding file_event
file_event_again e files h = rw (h, file_event, same_event_refl e) refl

-- A recording that returns leaves the event recorded, and touches nothing else.
pub reconcile-IsRecorded :
    (x : Event) (r s : Records)
    → reconcile_evaluation_event x r ≡ ok s
    → (record r { events_log = s.events_log; events = s.events } ≡ s)
      × IsRecorded x s.events_log s.events
unfolding reconcile_evaluation_event
reconcile-IsRecorded x r s h =
    let ((found, e), h₁, h₂) = >>=-eq-ok (find_event x r.events_log r.events) _ h in
    let (files, h₃, h₄) = >>=-eq-ok (file_event e r.events) _ h₂ in
    let l = log_event-IsLogged x e r.events_log found (find_event-Found x _ _ found e h₁) in
    let same = ok_inj h₄ in
    subst
      (λ t.
        (record r { events_log = t.events_log; events = t.events } ≡ t)
        × IsRecorded x t.events_log t.events)
      same (refl, (e, l, file_event-lookup e r.events files h₃))

pub IsRecorded-reconcile :
    (x : Event) (r : Records)
    → IsRecorded x r.events_log r.events
    → reconcile_evaluation_event x r ≡ ok r
unfolding reconcile_evaluation_event log_event
IsRecorded-reconcile x r (e, l, filed) =
    rw (IsLogged-find x e r.events_log r.events l, file_event_again e r.events filed) refl

-- A recording interrupted after the log is ended by another.
pub log_evaluation_event_resumed :
    (x : Event) (r s : Records)
    → log_evaluation_event x r ≡ ok s
    → (record r { events_log = s.events_log } ≡ s)
      × (reconcile_evaluation_event x s ≡ reconcile_evaluation_event x r)
unfolding log_evaluation_event reconcile_evaluation_event log_event
log_evaluation_event_resumed x r s h =
    let ((found, e), h₁, h₂) = >>=-eq-ok (find_event x r.events_log r.events) _ h in
    let l = log_event-IsLogged x e r.events_log found (find_event-Found x _ _ found e h₁) in
    let mid : Records = record r { events_log = log_event (found, e) r.events_log } in
    let again : reconcile_evaluation_event x mid ≡ reconcile_evaluation_event x r =
      ap
        (λ z. z >>= λ f. file_event f.1 r.events >>= λ files.
          ok (record mid { events_log = log_event f mid.events_log; events = files }))
        (IsLogged-find x e mid.events_log r.events l)
      ∙ sym (
          ap
            (λ z. z >>= λ f. file_event f.1 r.events >>= λ files.
              ok (record r { events_log = log_event f r.events_log; events = files }))
            h₁) in
    subst
      (λ t.
        (record r { events_log = t.events_log } ≡ t)
        × (reconcile_evaluation_event x t ≡ reconcile_evaluation_event x r))
      (ok_inj h₂) (refl, again)

-- Events of different types and identities do not disturb each other.
log_event-other :
    (x y e f : Event) (log : List Event) (found : Bool)
    → (y.type == x.type) ≡ false
    → (y.event_id == x.event_id) ≡ false
    → Found y log found f
    → IsLogged x e log
    → IsLogged x e (log_event (found, f) log)
unfolding log_event Found keep records_event identity_conflict
log_event-other x y e f log found types ids (inl (is_found, _)) l = rw is_found l
log_event-other x y e f log found types ids (inr (not_found, _, _, same)) l =
    rw (not_found, same)
      (record {
        lines = keep-append (records_event x) log (y ∷ []) ∙ rw (l.lines, types) refl;
        no_conflict = keep-append (identity_conflict x) log (y ∷ []) ∙ rw (l.no_conflict, ids) refl;
        matches = l.matches;
      })

file_event-other :
    (e f : Event) (files after : List (String × Event))
    → file_event f files ≡ ok after
    → lookup e.event_id files ≡ some e
    → lookup e.event_id after ≡ some e
unfolding file_event
file_event-other e f files after h filed = elim (Option-cases (lookup f.event_id files)) [
  | inl absent ↦
      let added : ok (insert f.event_id f files) ≡ ok after = rw (absent, file_event) at h in
      elim (Bool-cases (f.event_id == e.event_id)) [
        | inl same ↦
            let same_id = (string_eq.agrees f.event_id e.event_id).0 same in
            let clash : lookup e.event_id files ≡ none = rw same_id at absent in cc
        | inr other ↦ rw (← ok_inj added, lookup-insert f.event_id e.event_id f files, other) filed
      ]
  | inr (g, old) ↦
      let (_, kept) =
        throw_if-ok (negb (same_event g f)) _ (ok files) (rw (old, file_event) at h) in
      rw (← ok_inj kept) filed
]

pub log-other :
    (x y : Event) (r s : Records)
    → (y.type == x.type) ≡ false
    → (y.event_id == x.event_id) ≡ false
    → log_evaluation_event y r ≡ ok s
    → IsRecorded x r.events_log r.events
    → IsRecorded x s.events_log s.events
unfolding log_evaluation_event
log-other x y r s types ids h (e, l, filed) =
    let ((found, f), h₁, h₂) = >>=-eq-ok (find_event y r.events_log r.events) _ h in
    let l' =
      log_event-other x y e f r.events_log found types ids (find_event-Found y _ _ found f h₁) l in
    subst (λ t. IsRecorded x t.events_log t.events) (ok_inj h₂) (e, l', filed)

pub reconcile-other :
    (x y : Event) (r s : Records)
    → (y.type == x.type) ≡ false
    → (y.event_id == x.event_id) ≡ false
    → reconcile_evaluation_event y r ≡ ok s
    → IsRecorded x r.events_log r.events
    → IsRecorded x s.events_log s.events
unfolding reconcile_evaluation_event
reconcile-other x y r s types ids h (e, l, filed) =
    let ((found, f), h₁, h₂) = >>=-eq-ok (find_event y r.events_log r.events) _ h in
    let (files, h₃, h₄) = >>=-eq-ok (file_event f r.events) _ h₂ in
    let l' =
      log_event-other x y e f r.events_log found types ids (find_event-Found y _ _ found f h₁) l in
    subst (λ t. IsRecorded x t.events_log t.events) (ok_inj h₄)
      (e, l', file_event-other e f r.events files h₃ filed)
