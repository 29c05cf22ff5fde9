-- ===== src/Lock/Takeover.antt =====
-- src/host-lock.js: what becomes of a lock when the lock of a dead process is retired, alone and in a
-- race.
use durable_supervisor.Base.{
  Bool-cases, List, Option, Option-cases, String, [], ap, beq_refl, false, inl, inr, insert, keep,
  lookup, none, refl, some, subst, suc, true, zero, ℕ, ◌==◌, ◌∙◌, ◌∷◌, ◌≡◌, string_eq, nat_eq,
}
use durable_supervisor.Lock.{
  Directory, Machine, Owner, Phase, System, advance, after_observation, after_own_observation, busy,
  checked_owner, checking, confirming, corrupt, entering, first_name, holding, list_candidates,
  take_first, listing, live_candidate, next_attempt, observing, read_owner, released, releasing,
  rename_away, retiring, run, same_owner, step, still_owner, takeover_name, trying,
  without_candidate, writing, make_candidate, is_live,
}

-- The process is not about to rename the lock away.
abbrev pub Unarmed : Phase → Type 0
Unarmed (retiring left o) = ⊥
Unarmed (releasing o) = ⊥
Unarmed other = Unit {0}

-- Nor does it hold the lock.
abbrev Outside : Phase → Type 0
Outside (retiring left o) = ⊥
Outside (releasing o) = ⊥
Outside holding = ⊥
Outside other = Unit {0}

-- The directory of the lock is there, and names no owner.
abbrev pub IsOrphan : Option Directory → Type 0
IsOrphan none = ⊥
IsOrphan (some d) = checked_owner d.owner_file ≡ none

Stuck : Phase × Option Directory → Type 0
Stuck (p, lock) = Outside p × IsOrphan lock

next_attempt-Stuck :
    (left : ℕ) (lock : Option Directory) → IsOrphan lock → Stuck (next_attempt left, lock)
unfolding next_attempt Stuck
next_attempt-Stuck zero lock o = (tt, o)
next_attempt-Stuck (suc left) lock o = (tt, o)

without_candidate-IsOrphan :
    (name : String) (d : Directory) → IsOrphan (some d) → IsOrphan (without_candidate name (some d))
unfolding without_candidate
without_candidate-IsOrphan name d o = o

orphan_test :
    (e : Owner) (d : Directory) → IsOrphan (some d) → still_owner e (read_owner (some d)) ≡ false
unfolding still_owner read_owner
orphan_test e d o = rw o refl

module _ (machine : Machine) where
  list_candidates-Stuck :
      (name : String) (left : ℕ) (e : Owner) (d : Directory)
      → IsOrphan (some d)
      → Stuck (list_candidates machine name left e (some d))
  unfolding list_candidates take_first Stuck without_candidate
  list_candidates-Stuck name left e d o =
      let live = keep (live_candidate machine) d.takeovers in
      let listed : Directory = record d { takeovers = live } in
      elim (Option-cases (first_name machine.before live)) [
        | inl nobody ↦ rw (nobody, take_first) (next_attempt-Stuck left (some listed) o)
        | inr (first, found) ↦ elim (Bool-cases (first == name)) [
          | inl mine ↦ rw (found, take_first, mine) (tt, o)
          | inr theirs ↦
              rw (found, take_first, theirs)
                (next_attempt-Stuck left (without_candidate name (some listed)) o)
        ]
      ]

  advance-Stuck :
      (me : Owner) (p : Phase) (d : Directory)
      → Unarmed p
      → IsOrphan (some d)
      → Stuck (advance machine me p (some d))
  unfolding advance Stuck
  advance-Stuck me (trying left) d u o = (tt, o)
  advance-Stuck me (observing left) d u o =
      (unfold read_owner after_observation in rw o (next_attempt-Stuck left (some d) o).0, o)
  advance-Stuck me (entering left e) d u o = (tt, o)
  advance-Stuck me (writing left e) d u o = (tt, o)
  advance-Stuck me (checking left e) d u o = rw (orphan_test e d o) (
      next_attempt-Stuck left _
        (without_candidate-IsOrphan (takeover_name machine.decimal me.process) d o))
  advance-Stuck me (listing left e) d u o =
      list_candidates-Stuck (takeover_name machine.decimal me.process) left e d o
  advance-Stuck me (confirming left e) d u o = rw (orphan_test e d o) (
      next_attempt-Stuck left _
        (without_candidate-IsOrphan (takeover_name machine.decimal me.process) d o))
  advance-Stuck me (retiring left e) d u o = absurd u
  advance-Stuck me holding d u o = (unfold read_owner after_own_observation in rw o tt, o)
  advance-Stuck me (releasing e) d u o = absurd u
  advance-Stuck me released d u o = (tt, o)
  advance-Stuck me busy d u o = (tt, o)
  advance-Stuck me corrupt d u o = (tt, o)

-- The lock's directory names no owner, and nobody is about to rename it away.
abbrev pub IsWedged : System → Type 0
IsWedged s = IsOrphan s.lock × ((i : ℕ) → Unarmed (s.phase i))

Outside-Unarmed : (p : Phase) → Outside p → Unarmed p
Outside-Unarmed (trying left) o = tt
Outside-Unarmed (observing left) o = tt
Outside-Unarmed (entering left e) o = tt
Outside-Unarmed (writing left e) o = tt
Outside-Unarmed (checking left e) o = tt
Outside-Unarmed (listing left e) o = tt
Outside-Unarmed (confirming left e) o = tt
Outside-Unarmed (retiring left e) o = absurd o
Outside-Unarmed holding o = tt
Outside-Unarmed (releasing e) o = absurd o
Outside-Unarmed released o = tt
Outside-Unarmed busy o = tt
Outside-Unarmed corrupt o = tt

module _ (machine : Machine) (owner : ℕ → Owner) where
  stuck :
      (i : ℕ) (p : Phase) (lock : Option Directory)
      → IsOrphan lock
      → Unarmed p
      → Stuck (advance machine (owner i) p lock)
  stuck i p none o u = absurd o
  stuck i p (some d) o u = advance-Stuck machine (owner i) p d u o

  step-IsWedged :
      (i j : ℕ) (s : System)
      → IsWedged s
      → IsWedged (step machine owner i s)
        × ((step machine owner i s).phase j ≡ holding → s.phase j ≡ holding)
  unfolding step Stuck
  step-IsWedged i j s (orphan, unarmed) =
      let next = advance machine (owner i) (s.phase i) s.lock in
      let (outside, orphan') = stuck i (s.phase i) s.lock orphan (unarmed i) in
      (
        (
          orphan',
          λ k. elim (Bool-cases (i == k)) [
            | inl same ↦ rw same (Outside-Unarmed next.0 outside)
            | inr other ↦ rw other (unarmed k)
          ],
        ),
        λ h. elim (Bool-cases (i == j)) [
          | inl same ↦ absurd (subst Outside (rw same at h) outside)
          | inr other ↦ rw other at h
        ],
      )

-- Once the directory of the lock names no owner and nobody is about to rename it away, it stays so
-- whatever the processes do in whatever order, dead owners or live ones, and no process acquires the lock again.
pub run-IsWedged :
    (machine : Machine) (owner : ℕ → Owner) (schedule : List ℕ) (s : System) (j : ℕ)
    → IsWedged s
    → IsWedged (run machine owner schedule s)
      × ((run machine owner schedule s).phase j ≡ holding → s.phase j ≡ holding)
unfolding run
run-IsWedged machine owner [] s j w = (w, λ h. h)
run-IsWedged machine owner (i ∷ schedule) s j w =
    let (w', back) = step-IsWedged machine owner i j s w in
    let (w'', back') = run-IsWedged machine owner schedule (step machine owner i s) j w' in
    (w'', λ h. back (back' h))

module _ (machine : Machine) (owner : ℕ → Owner) (s : System) (i j k left m n : ℕ)
    (dead : Owner) where
  -- Three processes on a free lock: one that has confirmed a dead owner and is about to rename the
  -- lock away, and two that try to acquire it.
  pub record IsRace : Type 0 where
    pub free : s.lock ≡ none
    pub first : s.phase i ≡ retiring left dead
    pub second : s.phase j ≡ trying m
    pub third : s.phase k ≡ trying n
    pub i_j : (i == j) ≡ false
    pub i_k : (i == k) ≡ false
    pub j_i : (j == i) ≡ false
    pub j_k : (j == k) ≡ false
    pub k_i : (k == i) ≡ false
    pub k_j : (k == j) ≡ false
    pub unlike : same_owner (owner j) dead ≡ false
    pub readable : checked_owner (some (owner j)) ≡ some (owner j)

  -- A process that has confirmed a dead owner renames away whatever lock is there by then: if another process has
  -- acquired it in between, that one's lock is gone while it holds it, and a third acquires the lock
  -- as well; the first ends with the error that the owner changed.
  pub run-two_holders :
      IsRace
      → let after = run machine owner (j ∷ i ∷ k ∷ []) s in
        (after.phase j ≡ holding) × (after.phase k ≡ holding) × (after.phase i ≡ corrupt)
  unfolding run step advance rename_away still_owner
  run-two_holders r =
      rw
        (
          r.second,
          r.free,
          r.j_i,
          r.first,
          r.readable,
          r.unlike,
          r.i_k,
          r.j_k,
          r.third,
          r.k_j,
          r.i_j,
          r.k_i,
          beq_refl i,
          beq_refl j,
          beq_refl k,
        )
        (refl, refl, refl)

-- One process, undisturbed, for a number of accesses.
unfoldable pub advances : Machine → Owner → ℕ → Phase × Option Directory → Phase × Option Directory
advances machine me zero at = at
advances machine me (suc n) at = advances machine me n (advance machine me at.0 at.1)

module _ (machine : Machine) (me dead : Owner) (readable : checked_owner (some dead) ≡ some dead)
    (is_dead : is_live machine dead ≡ false) (written : checked_owner (some me) ≡ some me)
    (alive : is_live machine me ≡ true) (same : same_owner dead dead ≡ true) where
  own_name : String
  own_name = takeover_name machine.decimal me.process

  dead_lock : List (String × Option Owner) → Option Directory
  dead_lock candidates = some (record { owner_file = some dead; takeovers = candidates })

  finds_dead :
      (left : ℕ)
      → advance machine me (observing left) (dead_lock []) ≡ (entering left dead, dead_lock [])
  unfolding advance read_owner after_observation dead_lock
  finds_dead left = rw (readable, is_dead) refl

  writes_candidate :
      (left : ℕ)
      → advance machine me (writing left dead) (dead_lock ((own_name, none) ∷ []))
        ≡ (checking left dead, dead_lock ((own_name, some me) ∷ []))
  unfolding advance insert dead_lock own_name
  writes_candidate left = rw (beq_refl (takeover_name machine.decimal me.process)) refl

  finds_unchanged : still_owner dead (checked_owner (some dead)) ≡ true
  unfolding still_owner
  finds_unchanged = rw (readable, same) refl

  checks :
      (left : ℕ) (candidates : List (String × Option Owner))
      → advance machine me (checking left dead) (dead_lock candidates)
        ≡ (listing left dead, dead_lock candidates)
  unfolding advance read_owner dead_lock
  checks left candidates = rw finds_unchanged refl

  confirms :
      (left : ℕ) (candidates : List (String × Option Owner))
      → advance machine me (confirming left dead) (dead_lock candidates)
        ≡ (retiring left dead, dead_lock candidates)
  unfolding advance read_owner dead_lock
  confirms left candidates = rw finds_unchanged refl

  own_candidate_lives : live_candidate machine (own_name, some me) ≡ true
  unfolding live_candidate
  own_candidate_lives = rw (written, live_candidate) alive

  only_candidate :
      keep (live_candidate machine) ((own_name, some me) ∷ []) ≡ (own_name, some me) ∷ []
  unfolding keep
  only_candidate = rw own_candidate_lives refl

  finds_itself_first :
      (left : ℕ)
      → advance machine me (listing left dead) (dead_lock ((own_name, some me) ∷ []))
        ≡ (confirming left dead, dead_lock ((own_name, some me) ∷ []))
  unfolding advance list_candidates take_first first_name dead_lock takeover_name own_name
  finds_itself_first left =
      ap
        (take_first machine own_name left dead
          (record { owner_file = some dead; takeovers = (own_name, some me) ∷ [] }))
        only_candidate
      ∙ (unfold own_name in rw (beq_refl (takeover_name machine.decimal me.process)) refl)

  retires :
      (left : ℕ) (candidates : List (String × Option Owner))
      → advance machine me (retiring left dead) (dead_lock candidates) ≡ (next_attempt left, none)
  unfolding advance rename_away dead_lock
  retires left candidates = rw finds_unchanged refl

  -- A process that is alive acquires the lock of a dead one, to which no other candidate has come,
  -- in nine accesses and with its second attempt; the directory is then its own.
  pub advances_take_over :
      (left : ℕ)
      → advances machine me 9
          (trying (suc left), some (record { owner_file = some dead; takeovers = [] }))
        ≡ (holding, some (record { owner_file = some me; takeovers = [] }))
  unfolding advances advance make_candidate lookup next_attempt dead_lock own_name
  advances_take_over left =
      let next = suc left in
      let run_on = advances machine me in
      let fresh = dead_lock ((own_name, none) ∷ []) in
      let own = dead_lock ((own_name, some me) ∷ []) in
      let e₁ : run_on 9 (trying next, dead_lock []) ≡ run_on 7 (entering next dead, dead_lock []) =
        ap (run_on 7) (finds_dead next) in
      let e₂ : run_on 6 (writing next dead, fresh) ≡ run_on 5 (checking next dead, own) =
        ap (run_on 5) (writes_candidate next) in
      let e₃ : run_on 5 (checking next dead, own) ≡ run_on 4 (listing next dead, own) =
        ap (run_on 4) (checks next ((own_name, some me) ∷ [])) in
      let e₄ : run_on 4 (listing next dead, own) ≡ run_on 3 (confirming next dead, own) =
        ap (run_on 3) (finds_itself_first next) in
      let e₅ : run_on 3 (confirming next dead, own) ≡ run_on 2 (retiring next dead, own) =
        ap (run_on 2) (confirms next ((own_name, some me) ∷ [])) in
      let e₆ : run_on 2 (retiring next dead, own) ≡ run_on 1 (next_attempt next, none) =
        ap (run_on 1) (retires next ((own_name, some me) ∷ [])) in
      e₁ ∙ e₂ ∙ e₃ ∙ e₄ ∙ e₅ ∙ e₆
