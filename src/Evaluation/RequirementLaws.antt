-- ===== src/Evaluation/RequirementLaws.antt =====
-- src/cli.js, `reconcileAcceptedRequirements`: requirements that were accepted once are left as they
-- are by the same decision.
use durable_supervisor.Base.{
  >>=-eq-ok, Bool-cases, List, Option, Option-cases, String, [], ap, arith, beq_refl, false,
  if◌then◌else◌, includes, includes-append, inl, inr, is_empty, none, ok, ok_inj, or_throw-ok, refl,
  some, some_inj, string_eq, subst, sym, texts_eq, true, ◌!=◌, ◌++◌, ◌==◌, ◌||◌, ◌∙◌, ◌∷◌, ◌≡◌, ◌⊎◌,
}
use durable_supervisor.Lifecycle.Requirements.{
  Matrix, Requirement, dedupe, unite, satisfied_requirement_states,
}
use durable_supervisor.Evaluation.Records.{Verdict}
use durable_supervisor.Evaluation.Steps.{
  accept_requirement, reconcile_accepted_requirements, update_each, update_first,
}

unite-append : (k xs ys : List String) → unite k (xs ++ ys) ≡ unite (unite k xs) ys
unfolding unite
unite-append k [] ys = refl
unite-append k (x ∷ xs) ys = unite-append (if includes k x then k else k ++ x ∷ []) xs ys

-- An element of the values kept so far, or of those to come, is in the union.
pub unite-includes :
    (k xs : List String) (a : String)
    → (includes k a || includes xs a) ≡ true
    → includes (unite k xs) a ≡ true
unfolding unite includes
unite-includes k [] a h = ground arith
unite-includes k (x ∷ xs) a h = elim (Bool-cases (includes k x)) [
  | inl old ↦ rw old (
      unite-includes k xs a (elim (Bool-cases (x == a)) [
        | inl same ↦
            let e = (string_eq.agrees x a).0 same in
            let in_k : includes k a ≡ true = rw (← e) old in rw in_k refl
        | inr other ↦ rw other at h
      ]))
  | inr new ↦
      rw new (unite-includes (k ++ x ∷ []) xs a (rw (includes-append k (x ∷ []) a) (ground arith)))
]

unite-included :
    (k xs : List String)
    → ((a : String) → includes xs a ≡ true → includes k a ≡ true)
    → unite k xs ≡ k
unfolding unite includes
unite-included k [] h = refl
unite-included k (x ∷ xs) h =
    rw (h x (rw (beq_refl x) refl)) (unite-included k xs (λ a i. h a (ground arith)))

unite_reduced : (k xs : List String) → unite [] k ≡ k → unite [] (unite k xs) ≡ unite k xs
unfolding unite
unite_reduced k [] h = h
unite_reduced k (x ∷ xs) h = elim (Bool-cases (includes k x)) [
  | inl old ↦ rw old (unite_reduced k xs h)
  | inr new ↦
      let one : unite [] (k ++ x ∷ []) ≡ k ++ x ∷ [] =
        unite-append [] k (x ∷ []) ∙ rw (h, new) refl in
      rw new (unite_reduced (k ++ x ∷ []) xs one)
]

-- Adding the same values a second time adds nothing.
pub dedupe_again : (xs ys : List String) → dedupe (dedupe (xs ++ ys) ++ ys) ≡ dedupe (xs ++ ys)
unfolding dedupe
dedupe_again xs ys =
    let u = unite [] (xs ++ ys) in
    unite-append [] u ys
    ∙ ap (λ k. unite k ys) (unite_reduced [] (xs ++ ys) refl)
    ∙ unite-included u ys
        (λ a i. unite-includes [] (xs ++ ys) a (rw (includes-append xs ys a, i) (ground arith)))

implemented_open : includes satisfied_requirement_states "IMPLEMENTED" ≡ false
unfolding includes
implemented_open = refl

-- The evidence that a second acceptance finds and adds nothing to.
next_evidence : Verdict → Requirement → List String
next_evidence d r = dedupe (r.evidence ++ d.evidence_references)

kept_evidence :
    (d : Verdict) (r : Requirement) → (accept_requirement d r).evidence ≡ next_evidence d r
unfolding accept_requirement next_evidence
kept_evidence d r = elim (Bool-cases (dedupe (r.evidence ++ d.evidence_references) == r.evidence)) [
  | inl same ↦ rw same (sym ((texts_eq.agrees _ _).0 same))
  | inr new ↦ rw new refl
]

pub evidence_again :
    (d : Verdict) (r : Requirement)
    → dedupe ((accept_requirement d r).evidence ++ d.evidence_references)
      ≡ (accept_requirement d r).evidence
unfolding next_evidence
evidence_again d r = rw (kept_evidence d r) (dedupe_again r.evidence d.evidence_references)

-- A requirement that an acceptance leaves as it is.
settled :
    (d : Verdict) (r : Requirement)
    → dedupe (r.evidence ++ d.evidence_references) ≡ r.evidence
    → (includes satisfied_requirement_states r.state ≡ true)
      ⊎ ((r.state ≡ "IMPLEMENTED") × (r.justification ≡ none))
    → accept_requirement d r ≡ r
unfolding accept_requirement
settled d r no_more (inl later) = rw (later, no_more, beq_refl r.evidence) refl
settled d r no_more (inr (implemented, none_left)) =
    let open_yet : includes satisfied_requirement_states r.state ≡ false =
      ap (includes satisfied_requirement_states) implemented ∙ implemented_open in
    let named : (r.state == "IMPLEMENTED") ≡ true = (string_eq.agrees _ _).1 implemented in
    rw (open_yet, named, no_more, beq_refl r.evidence)
      (λ i. record r { state = sym implemented i; justification = sym none_left i })

pub accepted_state :
    (d : Verdict) (r : Requirement)
    → let s = accept_requirement d r in
      (includes satisfied_requirement_states s.state ≡ true)
      ⊎ ((s.state ≡ "IMPLEMENTED") × (s.justification ≡ none))
unfolding accept_requirement
accepted_state d r = elim (Bool-cases (includes satisfied_requirement_states r.state)) [
  | inl later ↦ rw later (inl later)
  | inr open_yet ↦ rw open_yet (inr (refl, refl))
]

pub accept_requirement_again :
    (d : Verdict) (r : Requirement)
    → accept_requirement d (accept_requirement d r) ≡ accept_requirement d r
accept_requirement_again d r =
    settled d (accept_requirement d r) (evidence_again d r) (accepted_state d r)

pub accept_requirement-id : (d : Verdict) (r : Requirement) → (accept_requirement d r).id ≡ r.id
unfolding accept_requirement
accept_requirement-id d r = refl

-- Updates of single requirements by a function that keeps the identity and changes nothing when it
-- is applied again.
module _ (f : Requirement → Requirement) (keeps : (r : Requirement) → (f r).id ≡ r.id)
    (again : (r : Requirement) → f (f r) ≡ f r) where
  -- The first requirement of the identity is as the function leaves it.
  abbrev pub IsFixed : String → List Requirement → Type 0
  IsFixed id rs = update_first f id rs ≡ some rs

  pub tail-IsFixed :
      (id : String) (r : Requirement) (rest : List Requirement)
      → (r.id == id) ≡ false
      → IsFixed id (r ∷ rest)
      → IsFixed id rest
  unfolding update_first
  tail-IsFixed id r rest other h = elim (Option-cases (update_first f id rest)) [
    | inl missing ↦ let h' = rw (other, missing) at h in cc
    | inr (changed, found) ↦ let h' = rw (other, found) at h in found ∙ cc
  ]

  cons-IsFixed :
      (id : String) (r : Requirement) (rest : List Requirement)
      → (r.id == id) ≡ false
      → IsFixed id rest
      → IsFixed id (r ∷ rest)
  unfolding update_first
  cons-IsFixed id r rest other h = rw (other, h) refl

  head-IsFixed :
      (id : String) (r : Requirement) (rest : List Requirement)
      → ((r.id == id) ≡ true → f r ≡ r)
      → ((r.id == id) ≡ false → IsFixed id rest)
      → IsFixed id (r ∷ rest)
  unfolding update_first
  head-IsFixed id r rest first later = elim (Bool-cases (r.id == id)) [
    | inl same ↦ rw (same, first same) refl
    | inr other ↦ cons-IsFixed id r rest other (later other)
  ]

  pub same_head :
      (id : String) (r : Requirement) (rest : List Requirement)
      → (r.id == id) ≡ true
      → IsFixed id (r ∷ rest)
      → f r ≡ r
  unfolding update_first
  same_head id r rest same h = let h' = some_inj (rw same at h) in cc

  -- An update leaves the requirement of its own identity fixed, and those that were.
  pub update_fixes :
      (id other : String) (rs changed : List Requirement)
      → update_first f id rs ≡ some changed
      → (id ≡ other) ⊎ IsFixed other rs
      → IsFixed other changed
  unfolding update_first
  update_fixes id other [] changed h fixed = cc
  update_fixes id other (r ∷ rest) changed h fixed = elim (Bool-cases (r.id == id)) [
    | inl same ↦ rw (← some_inj {a = f r ∷ rest} (rw same at h)) (
        head-IsFixed other (f r) rest (λ _. again r)
          (λ apart.
            let apart' : (r.id == other) ≡ false = rw (keeps r) at apart in
            elim fixed [
              | inl is_id ↦ let same' = rw is_id at same in cc
              | inr before ↦ tail-IsFixed other r rest apart' before
            ]))
    | inr apart ↦ elim (Option-cases (update_first f id rest)) [
      | inl missing ↦ let h' = rw (apart, missing) at h in cc
      | inr (more, found) ↦ rw (← some_inj {a = r ∷ more} (rw (apart, found) at h)) (
          head-IsFixed other r more
            (λ same'. elim fixed [
              | inl is_id ↦ let apart' = rw is_id at apart in cc
              | inr before ↦ same_head other r rest same' before
            ])
            (λ apart'. update_fixes id other rest more found (elim fixed [
              | inl is_id ↦ inl is_id
              | inr before ↦ inr (tail-IsFixed other r rest apart' before)
            ])))
    ]
  ]

  pub updates_keep :
      (ids : List String) (other : String) (rs changed : List Requirement)
      → update_each f ids rs ≡ ok changed
      → IsFixed other rs
      → IsFixed other changed
  unfolding update_each
  updates_keep [] other rs changed h fixed = subst (IsFixed other) (ok_inj h) fixed
  updates_keep (id ∷ ids) other rs changed h fixed =
      let (next, found, h') = or_throw-ok (update_first f id rs) _ _ h in
      updates_keep ids other next changed h' (update_fixes id other rs next found (inr fixed))

  -- The same updates again change nothing.
  pub update_each_again :
      (ids : List String) (rs changed : List Requirement)
      → update_each f ids rs ≡ ok changed
      → update_each f ids changed ≡ ok changed
  unfolding update_each
  update_each_again [] rs changed h = refl
  update_each_again (id ∷ ids) rs changed h =
      let (next, found, h') = or_throw-ok (update_first f id rs) _ _ h in
      let fixed = update_fixes id id rs next found (inl refl) in
      rw (updates_keep ids id next changed h' fixed) (update_each_again ids next changed h')

-- The same decision again leaves the matrix as it is.
pub reconcile_accepted_requirements_again :
    (d : Verdict) (ids : List String) (before after : Option Matrix)
    → reconcile_accepted_requirements d ids before ≡ ok after
    → reconcile_accepted_requirements d ids after ≡ ok after
unfolding reconcile_accepted_requirements
reconcile_accepted_requirements_again d ids before after h =
    elim (Bool-cases (d.decision != "ACCEPT" || is_empty ids)) [
      | inl skipped ↦ rw skipped refl
      | inr needed ↦
          let (m, _, h₁) = or_throw-ok before _ _ (rw needed at h) in
          let (changed, h₂, h₃) =
            >>=-eq-ok (update_each (accept_requirement d) ids m.requirements) _ h₁ in
          let e =
            update_each_again (accept_requirement d) (accept_requirement-id d)
              (accept_requirement_again d) ids m.requirements changed h₂ in
          rw (needed, ← ok_inj h₃, e) refl
    ]
