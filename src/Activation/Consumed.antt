-- ===== src/Activation/Consumed.antt =====
-- src/wakeup.js: a delivered wake is consumed once, and its status says so afterwards.
use durable_supervisor.Store.{atomic_create, File}
use durable_supervisor.Base.{
  Bool, Bool-cases, Option, Option-cases, Result, String, ap, arith, beq_refl, err, false, inl, inr,
  nat_eq, negb, negb-false, none, ok, ok_inj, or_throw-ok, refl, some, some_inj, string_eq, subst,
  sym, throw_if-ok, true, truthy, ℕ, ◌!=◌, ◌==◌, ◌||◌, ◌∙◌, ◌≡◌, option_string_eq,
}
use durable_supervisor.Activation.Lease.{Supervisor}
use durable_supervisor.Activation.Decision.{Request}
use durable_supervisor.Activation.Binding.{Binding}
use durable_supervisor.Activation.Delivery.{
  Digests, Durable, Receipt, check_delivery, is_delivered, repository_mismatch, generation_mismatch,
  supervisor_mismatch, delivery_schema, session_mismatch, decision_mismatch, Fence,
  consumption_matches, wake_delivery_consumption_status, new_consumption, evidence_mismatch,
  consume_wake_delivery, Consumption, settle, consume_checked, consume_request,
}

or_false : (a b : Bool) → (a || b) ≡ false → (a ≡ false) × (b ≡ false)
or_false true b h = cc
or_false false b h = (refl, h)

same_text : (a b : String) → (a != b) ≡ false → a ≡ b
same_text a b h = (string_eq.agrees a b).0 (ground arith)

-- What the consumption needs of a delivery that passes the guards.
record IsChecked (d : Durable) (receipt : Receipt) : Type 0 where
  read : d.receipt ≡ some receipt
  delivered : is_delivered receipt.status ≡ true
  repository : receipt.fence.repository ≡ d.supervisor.repository
  supervisor : receipt.fence.supervisor_id ≡ d.supervisor.supervisor_id
  generation : receipt.fence.supervisor_generation ≡ d.supervisor.generation

same_repository :
    (d : Durable) (request : Request) (f : Fence) (b : Binding)
    → repository_mismatch d request f b ≡ false
    → f.repository ≡ d.supervisor.repository
unfolding repository_mismatch
same_repository d request f b h = same_text _ _ (ground arith)

same_supervisor :
    (s : Supervisor) (request : Request) (f : Fence) (b : Binding)
    → supervisor_mismatch s request f b ≡ false
    → f.supervisor_id ≡ s.supervisor_id
unfolding supervisor_mismatch
same_supervisor s request f b h = same_text _ _ (ground arith)

same_generation :
    (s : Supervisor) (generation : ℕ) (request : Request) (f : Fence)
    → generation_mismatch s generation request f ≡ false
    → f.supervisor_generation ≡ s.generation
unfolding generation_mismatch
same_generation s generation request f h = (nat_eq.agrees _ _).0 (ground arith)

module _ (digests : Digests) where
  check_delivery-IsChecked :
      (d : Durable) (event_id : String) (delivery_id : Option String) (generation : ℕ)
      (request : Request) (receipt : Receipt)
      → check_delivery digests d event_id delivery_id generation request ≡ ok receipt
      → IsChecked d receipt
  unfolding check_delivery
  check_delivery-IsChecked d event_id delivery_id generation request receipt h =
      let (r, read, h₁) = or_throw-ok d.receipt _ _ h in
      let fence = r.fence in
      let s = d.supervisor in
      let (delivered, h₂) =
        throw_if-ok (fence.schema != delivery_schema || negb (is_delivered r.status)) _ _ h₁ in
      let (b, _, h₃) = or_throw-ok d.binding _ _ h₂ in
      let (places, h₄) = throw_if-ok (repository_mismatch d request fence b) _ _ h₃ in
      let (_, h₅) =
        throw_if-ok (request.event_id != event_id || fence.event_id != event_id) _ _ h₄ in
      let (_, h₆) = throw_if-ok (negb (truthy delivery_id)) _ _ h₅ in
      let (_, h₇) = throw_if-ok (some fence.delivery_id != delivery_id) _ _ h₆ in
      let (generations, h₈) = throw_if-ok (generation_mismatch s generation request fence) _ _ h₇ in
      let (identities, h₉) = throw_if-ok (supervisor_mismatch s request fence b) _ _ h₈ in
      let (_, h₁₀) = throw_if-ok (b.supervisor_generation != s.generation) _ _ h₉ in
      let (_, h₁₁) = throw_if-ok (session_mismatch digests request r b) _ _ h₁₀ in
      let (decision, _, h₁₂) = or_throw-ok d.decision _ _ h₁₁ in
      let (_, h₁₃) = throw_if-ok (decision_mismatch s event_id fence decision) _ _ h₁₂ in
      let same : r ≡ receipt = ok_inj h₁₃ in
      let checked : IsChecked d r = record {
        read = read;
        delivered = negb-false _ (or_false _ _ delivered).1;
        repository = same_repository d request fence b places;
        supervisor = same_supervisor s request fence b identities;
        generation = same_generation s generation request fence generations;
      } in
      subst (IsChecked d) same checked

  consumption_matches-new :
      (d : Durable) (event_id clock : String) (request : Request) (receipt : Receipt)
      → IsChecked d receipt
      → consumption_matches digests event_id receipt request
          (new_consumption digests d event_id clock request receipt)
        ≡ true
  unfolding consumption_matches
  consumption_matches-new d event_id clock request receipt c =
      rw
        (
          beq_refl (digests.delivery_receipt_fence receipt.fence),
          c.repository,
          c.supervisor,
          c.generation,
          beq_refl event_id,
          beq_refl receipt.fence.delivery_id,
          beq_refl d.supervisor.repository,
          beq_refl d.supervisor.supervisor_id,
          beq_refl d.supervisor.generation,
          beq_refl receipt.fence.codex_session_binding_sha256,
          beq_refl receipt.fence.wake_worker_implementation_sha256,
          beq_refl request.task_id,
          beq_refl request.attempt_id,
          beq_refl (digests.request_file request),
        )
        refl

  status-new :
      (d : Durable) (event_id clock : String) (request : Request) (receipt : Receipt)
      → d.request ≡ some request
      → IsChecked d receipt
      → wake_delivery_consumption_status digests d event_id
          (some (new_consumption digests d event_id clock request receipt))
        ≡ (true, true)
  unfolding wake_delivery_consumption_status
  status-new d event_id clock request receipt is_request c =
      elim (Bool-cases (receipt.status == "CONSUMED")) [
        | inl old ↦ rw (c.read, c.delivered, old) refl
        | inr new ↦
            rw
              (
                c.read,
                c.delivered,
                new,
                is_request,
                consumption_matches-new d event_id clock request receipt c,
              )
              refl
      ]

  -- The record of a consumption that passed its last test serves another one of the same delivery.
  replay :
      (d : Durable) (event_id clock later : String) (request : Request) (receipt : Receipt)
      (c : Consumption) (file : File Consumption)
      → file.content ≡ some c
      → evidence_mismatch digests d event_id receipt
          (new_consumption digests d event_id clock request receipt)
          c
        ≡ false
      → settle digests d event_id receipt
          (new_consumption digests d event_id later request receipt)
          (file, false)
        ≡ (file, ok (some (true, c)))
  unfolding evidence_mismatch
  replay d event_id clock later request receipt c file is_c fits = rw (is_c, fits) refl

  atomic_create-full :
      (file : File Consumption) (old next : Consumption)
      → file.content ≡ some old
      → atomic_create file next ≡ (file, false)
  unfolding atomic_create
  atomic_create-full file old next e = rw e refl

  atomic_create-empty :
      (file : File Consumption) (next : Consumption)
      → file.content ≡ none
      → atomic_create file next ≡ (record file { content = some next }, true)
  unfolding atomic_create
  atomic_create-empty file next e = rw e refl

  settle-ok :
      (d : Durable) (event_id : String) (receipt : Receipt) (next : Consumption)
      (file : File Consumption) (created duplicate : Bool) (c : Consumption)
      → (settle digests d event_id receipt next (file, created)).1 ≡ ok (some (duplicate, c))
      → (file.content ≡ some c)
        × (evidence_mismatch digests d event_id receipt next c ≡ false)
        × (duplicate ≡ negb created)
  settle-ok d event_id receipt next file created duplicate c h =
      let (found, is_found, h₁) = or_throw-ok file.content _ _ h in
      let (fits, h₂) =
        throw_if-ok (evidence_mismatch digests d event_id receipt next found) _ _ h₁ in
      let same = some_inj (ok_inj h₂) in
      let same_c : found ≡ c = ap (λ p. p.1) same in
      (rw (← same_c) is_found, rw (← same_c) fits, sym (ap (λ p. p.0) same))

  once_checked :
      (d : Durable) (event_id clock later : String) (request : Request) (file : File Consumption)
      (checked : Result Receipt) (duplicate : Bool) (c : Consumption)
      → d.request ≡ some request
      → ((receipt : Receipt) → checked ≡ ok receipt → IsChecked d receipt)
      → let (after, result) = consume_checked digests d event_id clock request file checked in
        result ≡ ok (some (duplicate, c))
        → (after.content ≡ some c)
          × (duplicate ≡ false
              → (file.content ≡ none)
                × (wake_delivery_consumption_status digests d event_id after.content
                    ≡ (true, true)))
          × (consume_checked digests d event_id later request after checked
              ≡ (after, ok (some (true, c))))
  once_checked d event_id clock later request file (err e) duplicate c is_request facts h = cc
  once_checked d event_id clock later request file (ok receipt) duplicate c is_request facts h =
      let next = new_consumption digests d event_id clock request receipt in
      let newer = new_consumption digests d event_id later request receipt in
      let replayed : (f : File Consumption)
          → f.content ≡ some c
          → evidence_mismatch digests d event_id receipt next c ≡ false
          → settle digests d event_id receipt newer (atomic_create f newer)
            ≡ (f, ok (some (true, c))) =
        λ f there fits.
          ap (settle digests d event_id receipt newer) (atomic_create-full f c newer there)
          ∙ replay d event_id clock later request receipt c f there fits in
      elim (Option-cases file.content) [
        | inl empty ↦
            let h' = rw (atomic_create-empty file next empty) at h in
            let (there, fits, _) =
              settle-ok d event_id receipt next (record file { content = some next }) true duplicate
                c h' in
            rw (atomic_create-empty file next empty) (
              there,
              λ first. (
                empty,
                status-new d event_id clock request receipt is_request (facts receipt refl),
              ),
              replayed (record file { content = some next }) there fits,
            )
        | inr (old, is_old) ↦
            let h' = rw (atomic_create-full file old next is_old) at h in
            let (there, fits, twice) =
              settle-ok d event_id receipt next file false duplicate c h' in
            rw (atomic_create-full file old next is_old)
              (there, λ first. cc, replayed file there fits)
      ]

  once_request :
      (d : Durable) (event_id : String) (delivery_id : Option String) (generation : ℕ)
      (clock later : String) (file : File Consumption) (found : Option Request) (duplicate : Bool)
      (c : Consumption)
      → d.request ≡ found
      → let (after, result) =
          consume_request digests d event_id delivery_id generation clock file found in
        result ≡ ok (some (duplicate, c))
        → (after.content ≡ some c)
          × (duplicate ≡ false
              → (file.content ≡ none)
                × (wake_delivery_consumption_status digests d event_id after.content
                    ≡ (true, true)))
          × (consume_request digests d event_id delivery_id generation later after found
              ≡ (after, ok (some (true, c))))
  once_request d event_id delivery_id generation clock later file none duplicate c e h = cc
  once_request d event_id delivery_id generation clock later file (some request) duplicate c e h =
      once_checked d event_id clock later request file
        (check_delivery digests d event_id delivery_id generation request) duplicate c e
        (check_delivery-IsChecked d event_id delivery_id generation request) h

-- A consumption that succeeds has its record in the file and says that it is no duplicate only if the
-- file was empty, with this consumption's own record in it, and the wake's status is then delivered
-- and consumed; consuming the same delivery again, at any time, is a duplicate of that record and
-- changes nothing.
pub consume_wake_delivery_once :
    (digests : Digests) (d : Durable) (event_id : String) (delivery_id : Option String)
    (generation : ℕ) (clock later : String) (file : File Consumption) (duplicate : Bool)
    (c : Consumption)
    → let (after, result) =
        consume_wake_delivery digests d event_id delivery_id generation clock file in
      result ≡ ok (some (duplicate, c))
      → (after.content ≡ some c)
        × (duplicate ≡ false
            → (file.content ≡ none)
              × (wake_delivery_consumption_status digests d event_id after.content ≡ (true, true)))
        × (consume_wake_delivery digests d event_id delivery_id generation later after
            ≡ (after, ok (some (true, c))))
unfolding consume_wake_delivery
consume_wake_delivery_once digests d event_id delivery_id generation clock later file duplicate c
      h =
    once_request digests d event_id delivery_id generation clock later file d.request duplicate c
      refl h
