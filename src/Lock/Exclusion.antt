-- ===== src/Lock/Exclusion.antt =====
-- src/host-lock.js: while every process that uses the lock is alive, one at most holds it.
use durable_supervisor.Lock.{
  Phase, Machine, releasing, entering, Owner, writing, checked_owner, Directory, System, checking,
  is_live, listing, confirming, retiring,
}
use durable_supervisor.Base.{
  Bool-cases, List, Option, [], ap, beq_refl, inl, inr, nat_eq, none, refl, some, some_inj, subst,
  suc, sym, true, zero, ℕ, ◌==◌, ◌∙◌, ◌∷◌, ◌≡◌, ◌≢◌,
}
use durable_supervisor.Lock.{
  Directory, Machine, Owner, Phase, System, advance, after_observation, busy, checked_owner,
  checking, confirming, corrupt, entering, holding, identical, is_live, listing, next_attempt,
  observing, read_owner, released, releasing, after_own_observation, rename_away, retiring, run,
  same_owner, step, still_owner, trying, writing,
}

-- The process has the lock and has not given it up.
abbrev pub Holds : Phase → Type 0
Holds holding = Unit {0}
Holds (releasing o) = Unit {0}
Holds other = ⊥

-- The process is not retiring a lock that it takes for a dead one's, and releases its own.
abbrev pub Calm : Owner → Phase → Type 0
Calm me (entering left o) = ⊥
Calm me (writing left o) = ⊥
Calm me (checking left o) = ⊥
Calm me (listing left o) = ⊥
Calm me (confirming left o) = ⊥
Calm me (retiring left o) = ⊥
Calm me corrupt = ⊥
Calm me (releasing o) = o ≡ me
Calm me other = Unit {0}

module _ (machine : Machine) (owner : ℕ → Owner) where
  -- The records that the processes write are those of processes that are alive, and tell them apart.
  pub record AreLive : Type 0 where
    pub readable : (i : ℕ) → checked_owner (some (owner i)) ≡ some (owner i)
    pub alive : (i : ℕ) → is_live machine (owner i) ≡ true
    pub apart : (i j : ℕ) → owner i ≡ owner j → i ≡ j

  -- The lock is free, or its directory names one of the processes.
  abbrev pub IsOwned : Option Directory → Type 0
  IsOwned none = Unit {0}
  IsOwned (some d) = (i : ℕ) × (d.owner_file ≡ some (owner i))

  abbrev pub IsOwnedBy : ℕ → Option Directory → Type 0
  IsOwnedBy i none = ⊥
  IsOwnedBy i (some d) = d.owner_file ≡ some (owner i)

  pub record IsExclusive (s : System) : Type 0 where
    pub calm : (i : ℕ) → Calm (owner i) (s.phase i)
    pub owned : IsOwned s.lock
    pub held : (i : ℕ) → Holds (s.phase i) → IsOwnedBy i s.lock

  -- What one access of a process does to the lock, in its own eyes and in those of the others.
  record IsSafe (i : ℕ) (before : Option Directory) (p : Phase) (after : Option Directory)
      : Type 0 where
    calm : Calm (owner i) p
    owned : IsOwned after
    own : Holds p → IsOwnedBy i after
    others : (j : ℕ) → j ≢ i → IsOwnedBy j before → IsOwnedBy j after

  next_attempt-IsSafe :
      (i left : ℕ) (lock : Option Directory) → IsOwned lock → IsSafe i lock (next_attempt left) lock
  unfolding next_attempt
  next_attempt-IsSafe i zero lock o = record {
    calm = tt;
    owned = o;
    own = λ h. absurd h;
    others = λ j n h. h;
  }
  next_attempt-IsSafe i (suc left) lock o = record {
    calm = tt;
    owned = o;
    own = λ h. absurd h;
    others = λ j n h. h;
  }

  same_owner_refl : (o : Owner) → same_owner o o ≡ true
  unfolding same_owner identical
  same_owner_refl o =
      rw
        (
          beq_refl o.schema,
          beq_refl o.process.pid,
          beq_refl o.process.start_time_ticks,
          beq_refl o.process.executable,
          beq_refl o.acquired_at,
        )
        refl

  module _ (live : AreLive) where
    still_own :
        (i : ℕ) (file : Option Owner)
        → file ≡ some (owner i)
        → still_owner (owner i) (checked_owner file) ≡ true
    unfolding still_owner
    still_own i file named = rw (named, live.readable i, same_owner_refl (owner i)) refl

    observing-IsSafe :
        (i left : ℕ) (d : Directory)
        → IsOwned (some d)
        → IsSafe i (some d) (after_observation machine left (read_owner (some d))) (some d)
    unfolding after_observation read_owner
    observing-IsSafe i left d (j, named) =
        subst (λ read. IsSafe i (some d) (after_observation machine left read) (some d))
          (sym (ap checked_owner named ∙ live.readable j))
          (unfold after_observation in
            rw (live.alive j) (next_attempt-IsSafe i left (some d) (j, named)))

    holding-IsSafe :
        (i : ℕ) (d : Directory)
        → IsOwnedBy i (some d)
        → IsSafe i (some d) (after_own_observation machine (owner i) (read_owner (some d))) (some d)
    unfolding after_own_observation read_owner
    holding-IsSafe i d named =
        subst (λ read. IsSafe i (some d) (after_own_observation machine (owner i) read) (some d))
          (sym (ap checked_owner named ∙ live.readable i))
          (rw (same_owner_refl (owner i))
            (record { calm = refl; owned = (i, named); own = λ x. named; others = λ j n x. x }))

    releasing-IsSafe :
        (i : ℕ) (o : Owner) (d : Directory)
        → o ≡ owner i
        → IsOwnedBy i (some d)
        → let r = rename_away machine released released o (some d) in IsSafe i (some d) r.0 r.1
    unfolding rename_away
    releasing-IsSafe i o d mine named =
        let same : still_owner o (checked_owner d.owner_file) ≡ true =
          rw mine (still_own i d.owner_file named) in
        rw same (record {
          calm = tt;
          owned = tt;
          own = λ h. absurd h;
          others =
              λ j other named_j. absurd (other (live.apart j i (some_inj (sym named_j ∙ named))));
        })

    advance-IsSafe :
        (i : ℕ) (p : Phase) (lock : Option Directory)
        → Calm (owner i) p
        → IsOwned lock
        → (Holds p → IsOwnedBy i lock)
        → let r = advance machine (owner i) p lock in IsSafe i lock r.0 r.1
    unfolding advance
    advance-IsSafe i (trying left) none c o h = record {
      calm = tt;
      owned = (i, refl);
      own = λ x. refl;
      others = λ j n x. absurd x;
    }
    advance-IsSafe i (trying left) (some d) c o h = record {
      calm = tt;
      owned = o;
      own = λ x. absurd x;
      others = λ j n x. x;
    }
    advance-IsSafe i (observing left) none c o h =
        unfold after_observation read_owner in next_attempt-IsSafe i left none tt
    advance-IsSafe i (observing left) (some d) c o h = observing-IsSafe i left d o
    advance-IsSafe i (entering left e) lock c o h = absurd c
    advance-IsSafe i (writing left e) lock c o h = absurd c
    advance-IsSafe i (checking left e) lock c o h = absurd c
    advance-IsSafe i (listing left e) lock c o h = absurd c
    advance-IsSafe i (confirming left e) lock c o h = absurd c
    advance-IsSafe i (retiring left e) lock c o h = absurd c
    advance-IsSafe i holding none c o h = absurd (h tt)
    advance-IsSafe i holding (some d) c o h = holding-IsSafe i d (h tt)
    advance-IsSafe i (releasing e) none c o h = absurd (h tt)
    advance-IsSafe i (releasing e) (some d) c o h = releasing-IsSafe i e d c (h tt)
    advance-IsSafe i released lock c o h = record {
      calm = tt;
      owned = o;
      own = λ x. absurd x;
      others = λ j n x. x;
    }
    advance-IsSafe i busy lock c o h = record {
      calm = tt;
      owned = o;
      own = λ x. absurd x;
      others = λ j n x. x;
    }
    advance-IsSafe i corrupt lock c o h = absurd c

    step-IsExclusive : (i : ℕ) (s : System) → IsExclusive s → IsExclusive (step machine owner i s)
    unfolding step
    step-IsExclusive i s e =
        let safe = advance-IsSafe i (s.phase i) s.lock (e.calm i) e.owned (e.held i) in
        record {
          calm = λ j. elim (Bool-cases (i == j)) [
            | inl same ↦
                let is_j = (nat_eq.agrees i j).0 same in
                let next = (advance machine (owner i) (s.phase i) s.lock).0 in
                rw same (subst (λ k. Calm (owner k) next) is_j safe.calm)
            | inr other ↦ rw other (e.calm j)
          ];
          owned = safe.owned;
          held = λ j h. elim (Bool-cases (i == j)) [
            | inl same ↦
                let is_j = (nat_eq.agrees i j).0 same in
                let lock = (advance machine (owner i) (s.phase i) s.lock).1 in
                subst (λ k. IsOwnedBy k lock) is_j (safe.own (rw same at h))
            | inr other ↦
                safe.others j (λ is_i. let same = (nat_eq.agrees i j).1 (sym is_i) in cc)
                  (e.held j (rw other at h))
          ];
        }

    run-IsExclusive :
        (schedule : List ℕ) (s : System)
        → IsExclusive s
        → IsExclusive (run machine owner schedule s)
    unfolding run
    run-IsExclusive [] s e = e
    run-IsExclusive (i ∷ schedule) s e =
        run-IsExclusive schedule (step machine owner i s) (step-IsExclusive i s e)

    one_owner : (i j : ℕ) (lock : Option Directory) → IsOwnedBy i lock → IsOwnedBy j lock → i ≡ j
    one_owner i j none a b = absurd a
    one_owner i j (some d) a b = live.apart i j (some_inj (sym a ∙ b))

-- In any order of their accesses, of processes that are all alive and start to acquire a free lock
-- two never hold it at the same time, and one that holds it is named by its directory.
pub run_excludes :
    (machine : Machine) (owner : ℕ → Owner) (schedule : List ℕ) (s : System) (left : ℕ → ℕ)
    (i j : ℕ)
    → AreLive machine owner
    → s.lock ≡ none
    → ((k : ℕ) → s.phase k ≡ trying (left k))
    → Holds ((run machine owner schedule s).phase i)
    → Holds ((run machine owner schedule s).phase j)
    → (i ≡ j) × IsOwnedBy machine owner i (run machine owner schedule s).lock
run_excludes machine owner schedule s left i j live free start held_i held_j =
    let e : IsExclusive machine owner s = record {
      calm = λ k. subst (Calm (owner k)) (sym (start k)) tt;
      owned = subst (IsOwned machine owner) (sym free) tt;
      held = λ k h. absurd (subst Holds (start k) h);
    } in
    let after = run-IsExclusive machine owner live schedule s e in
    let a = after.held i held_i in
    (
      one_owner machine owner live i j (run machine owner schedule s).lock a (after.held j held_j),
      a,
    )
