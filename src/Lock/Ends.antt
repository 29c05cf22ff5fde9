-- ===== src/Lock/Ends.antt =====
-- src/host-lock.js: `acquireHostLock` ends, whatever the other processes do to the lock.
use durable_supervisor.Activation.Lease.{max_safe_integer}
use durable_supervisor.Lock.{
  Directory, Machine, Owner, Phase, acquire_host_lock, advance, after_observation, busy, checking,
  confirming, corrupt, entering, holding, list_candidates, take_first, listing, next_attempt,
  observing, released, releasing, rename_away, retiring, trying, writing, is_live, live_candidate,
  first_name, still_owner, checked_owner, read_owner, takeover_name, exact_process_identity,
}
use durable_supervisor.Base.{
  Bool, Bool-cases, List, Option, Option-cases, String, [], arith, false, if◌then◌else◌, inl, inr,
  keep, leb, length, negb, none, ok, ok_inj, refl, some, subst, suc, throw_if-ok, true, zero, ℕ,
  ◌*◌, ◌+◌, ◌-◌, ◌<◌, ◌==◌, ◌||◌, ◌∷◌, ◌≡◌, ◌≤◌, ◌⊎◌, string_eq,
}

abbrev pub in_acquisition : Phase → Bool
in_acquisition holding = false
in_acquisition (releasing o) = false
in_acquisition released = false
in_acquisition busy = false
in_acquisition corrupt = false
in_acquisition other = true

-- The call has returned the lock or thrown an error.
abbrev pub Ended : Phase → Type 0
Ended p = (p ≡ holding) ⊎ ((p ≡ busy) ⊎ (p ≡ corrupt))

-- The accesses that the call may still make.
rank : Phase → ℕ
rank (trying left) = 8 * left + 8
rank (observing left) = 8 * left + 7
rank (entering left o) = 8 * left + 6
rank (writing left o) = 8 * left + 5
rank (checking left o) = 8 * left + 4
rank (listing left o) = 8 * left + 3
rank (confirming left o) = 8 * left + 2
rank (retiring left o) = 8 * left + 1
rank other = 0

-- The accesses of one call; what the machine and the lock are at each is for others to decide.
unfoldable pub accesses : Owner → List (Machine × Option Directory) → Phase → Phase
accesses me [] p = p
accesses me ((machine, lock) ∷ more) p =
    accesses me more (if in_acquisition p then (advance machine me p lock).0 else p)

-- The phase is nearer to the end than the number says.
Nearer : ℕ → Phase → Type 0
Nearer n p = ((in_acquisition p ≡ true) ⊎ Ended p) × (rank p < n)

next_attempt-Nearer : (n left : ℕ) → 8 * left < n → Nearer n (next_attempt left)
unfolding Nearer next_attempt rank
next_attempt-Nearer n zero h = (inr (inr (inl refl)), omega (arith, h))
next_attempt-Nearer n (suc left) h = (inl refl, omega (arith, h))

if-Nearer :
    (n : ℕ) (b : Bool) (p q : Phase × Option Directory)
    → Nearer n p.0
    → Nearer n q.0
    → Nearer n (if b then p else q).0
if-Nearer n true p q h k = h
if-Nearer n false p q h k = k

module _ (machine : Machine) (me : Owner) where
  after_observation-Nearer :
      (n left : ℕ) (read : Option Owner)
      → 8 * left + 6 < n
      → Nearer n (after_observation machine left read)
  unfolding after_observation Nearer rank
  after_observation-Nearer n left none h = next_attempt-Nearer n left (omega (arith, h))
  after_observation-Nearer n left (some o) h = elim (Bool-cases (is_live machine o)) [
    | inl alive ↦ rw alive (next_attempt-Nearer n left (omega (arith, h)))
    | inr dead ↦ rw dead (inl refl, h)
  ]

  list_candidates-Nearer :
      (n left : ℕ) (name : String) (o : Owner) (lock : Option Directory)
      → 8 * left + 2 < n
      → Nearer n (list_candidates machine name left o lock).0
  unfolding list_candidates take_first Nearer rank
  list_candidates-Nearer n left name o none h = next_attempt-Nearer n left (omega (arith, h))
  list_candidates-Nearer n left name o (some d) h =
      let live = keep (live_candidate machine) d.takeovers in
      elim (Option-cases (first_name machine.before live)) [
        | inl nobody ↦ rw (nobody, take_first) (next_attempt-Nearer n left (omega (arith, h)))
        | inr (first, found) ↦
            rw (found, take_first)
              (if-Nearer n (first == name) _ _ (inl refl, h)
                (next_attempt-Nearer n left (omega (arith, h))))
      ]

  rename_away-Nearer :
      (n left : ℕ) (o : Owner) (lock : Option Directory)
      → 8 * left < n
      → Nearer n (rename_away machine (next_attempt left) (next_attempt left) o lock).0
  unfolding rename_away
  rename_away-Nearer n left o none h = next_attempt-Nearer n left h
  rename_away-Nearer n left o (some d) h =
      if-Nearer n (still_owner o (checked_owner d.owner_file)) _ _ (next_attempt-Nearer n left h)
        (unfold Nearer rank in (inr (inr (inr refl)), omega (arith, h)))

  -- Every access brings the call nearer to its end.
  advance-Nearer :
      (p : Phase) (lock : Option Directory)
      → in_acquisition p ≡ true
      → Nearer (rank p) (advance machine me p lock).0
  unfolding advance rank Nearer
  advance-Nearer (trying left) none h = (inr (inl refl), omega arith)
  advance-Nearer (trying left) (some d) h = (inl refl, omega arith)
  advance-Nearer (observing left) lock h =
      after_observation-Nearer _ left (read_owner lock) (omega arith)
  advance-Nearer (entering left o) none h = next_attempt-Nearer _ left (omega arith)
  advance-Nearer (entering left o) (some d) h = (inl refl, omega arith)
  advance-Nearer (writing left o) none h = (inl refl, omega arith)
  advance-Nearer (writing left o) (some d) h = (inl refl, omega arith)
  advance-Nearer (checking left o) lock h =
      if-Nearer _ (still_owner o (read_owner lock)) _ _ (inl refl, omega arith)
        (next_attempt-Nearer _ left (omega arith))
  advance-Nearer (listing left o) lock h =
      list_candidates-Nearer _ left (takeover_name machine.decimal me.process) o lock (omega arith)
  advance-Nearer (confirming left o) lock h =
      if-Nearer _ (still_owner o (read_owner lock)) _ _ (inl refl, omega arith)
        (next_attempt-Nearer _ left (omega arith))
  advance-Nearer (retiring left o) lock h = rename_away-Nearer _ left o lock (omega arith)
  advance-Nearer holding lock h = cc
  advance-Nearer (releasing o) lock h = cc
  advance-Nearer released lock h = cc
  advance-Nearer busy lock h = cc
  advance-Nearer corrupt lock h = cc

rank_positive : (p : Phase) → in_acquisition p ≡ true → 0 < rank p
unfolding rank
rank_positive (trying left) h = omega arith
rank_positive (observing left) h = omega arith
rank_positive (entering left o) h = omega arith
rank_positive (writing left o) h = omega arith
rank_positive (checking left o) h = omega arith
rank_positive (listing left o) h = omega arith
rank_positive (confirming left o) h = omega arith
rank_positive (retiring left o) h = omega arith
rank_positive holding h = cc
rank_positive (releasing o) h = cc
rank_positive released h = cc
rank_positive busy h = cc
rank_positive corrupt h = cc

Ended-over : (p : Phase) → Ended p → in_acquisition p ≡ false
Ended-over p (inl h) = rw h refl
Ended-over p (inr (inl h)) = rw h refl
Ended-over p (inr (inr h)) = rw h refl

stays-Ended :
    (me : Owner) (ws : List (Machine × Option Directory)) (p : Phase)
    → Ended p
    → Ended (accesses me ws p)
unfolding accesses
stays-Ended me [] p e = e
stays-Ended me ((machine, lock) ∷ more) p e = rw (Ended-over p e) (stays-Ended me more p e)

accesses-Ended :
    (me : Owner) (ws : List (Machine × Option Directory)) (p : Phase)
    → (in_acquisition p ≡ true) ⊎ Ended p
    → rank p ≤ length ws
    → Ended (accesses me ws p)
unfolding accesses
accesses-Ended me ws p (inr e) enough = stays-Ended me ws p e
accesses-Ended me [] p (inl going) enough = absurd (omega (arith, rank_positive p going, enough))
accesses-Ended me ((machine, lock) ∷ more) p (inl going) enough =
    let next = advance-Nearer machine me p lock going in
    rw going (
      accesses-Ended me more (advance machine me p lock).0 (unfold Nearer in next.0)
        (unfold Nearer in omega (arith, next.1, enough)))

-- A call of `acquireHostLock` that passes its checks has the lock, or has thrown that it is busy or
-- that its owner changed, after eight accesses for each attempt at most, whatever the lock holds
-- and whoever is alive at each of them.
pub acquire_host_lock_ends :
    (attempts : ℕ) (me : Owner) (first : Phase) (ws : List (Machine × Option Directory))
    → acquire_host_lock attempts me ≡ ok first
    → 8 * attempts ≤ length ws
    → Ended (accesses me ws first)
unfolding acquire_host_lock rank
acquire_host_lock_ends attempts me first ws h enough =
    let (positive, h₁) =
      throw_if-ok (leb attempts 0 || negb (leb attempts max_safe_integer)) _ _ h in
    let (_, h₂) =
      throw_if-ok (negb (exact_process_identity me.process)) _ (ok (trying (attempts - 1))) h₁ in
    subst (λ p. Ended (accesses me ws p)) (ok_inj h₂)
      (accesses-Ended me ws (trying (attempts - 1)) (inl refl) (ground (arith, positive, enough)))
