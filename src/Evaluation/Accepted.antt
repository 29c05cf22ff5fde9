-- ===== src/Evaluation/Accepted.antt =====
-- src/cli.js, `reconcileAcceptedRequirements`: what an accepted decision has made of the requirements
-- of its task.
use durable_supervisor.Base.{
  >>=-eq-ok, Bool-cases, List, Option, String, [], all, arith, false, find, includes,
  includes-append, inl, inr, is_empty, none, ok, ok_inj, or_throw-ok, refl, some, string_eq, subst,
  sym, true, ◌++◌, ◌==◌, ◌∷◌, ◌≡◌, ◌⊎◌,
}
use durable_supervisor.Lifecycle.Requirements.{
  Matrix, Requirement, dedupe, satisfied_requirement_states,
}
use durable_supervisor.Evaluation.Records.{Verdict}
use durable_supervisor.Evaluation.Steps.{
  accept_requirement, reconcile_accepted_requirements, update_each, update_first,
}
use durable_supervisor.Evaluation.RequirementLaws.{
  IsFixed, accept_requirement-id, accept_requirement_again, accepted_state, evidence_again,
  same_head, tail-IsFixed, unite-includes, update_fixes, updates_keep,
}

-- The first requirement of each identity has the property.
abbrev pub AllFound : (Requirement → Type 0) → List String → List Requirement → Type 0
AllFound p [] rs = Unit {0}
AllFound p (id ∷ ids) rs =
    ((r : Requirement) × (find (λ (x : Requirement). x.id == id) rs ≡ some r) × p r)
    × AllFound p ids rs

-- The states of a requirement that has been accepted, or judged beyond that.
abbrev pub accepted_states : List String
accepted_states =
    "IMPLEMENTED" ∷ "VERIFIED" ∷ "DEFERRED_WITH_JUSTIFICATION" ∷ "NOT_APPLICABLE_WITH_JUSTIFICATION"
    ∷ []

-- The requirement is accepted, with all the evidence of the decision.
abbrev pub IsAccepted : Verdict → Requirement → Type 0
IsAccepted d r =
    (includes accepted_states r.state ≡ true)
    × (all (includes r.evidence) d.evidence_references ≡ true)

-- The decision is no acceptance, or the task claims nothing, or the matrix has every requirement of
-- the task as accepted.
abbrev pub IsAcceptedBy : Verdict → List String → Option Matrix → Type 0
IsAcceptedBy d ids matrix =
    ((d.decision == "ACCEPT") ≡ false)
    ⊎ (is_empty ids ≡ true)
    ⊎ ((m : Matrix) × (matrix ≡ some m) × AllFound (IsAccepted d) ids m.requirements)

module _ (f : Requirement → Requirement) (keeps : (r : Requirement) → (f r).id ≡ r.id)
    (again : (r : Requirement) → f (f r) ≡ f r) where
  IsFixed-find :
      (id : String) (rs : List Requirement)
      → IsFixed f keeps again id rs
      → (r : Requirement) × (find (λ (x : Requirement). x.id == id) rs ≡ some r) × (f r ≡ r)
  unfolding find update_first
  IsFixed-find id [] h = absurd (let bad = h in cc)
  IsFixed-find id (r ∷ rest) h = elim (Bool-cases (r.id == id)) [
    | inl same ↦ (r, rw same refl, same_head f keeps again id r rest same h)
    | inr other ↦
        let (q, found, fixed) =
          IsFixed-find id rest (tail-IsFixed f keeps again id r rest other h) in
        (q, rw other found, fixed)
  ]

  update_each-AllFound :
      (ids : List String) (rs changed : List Requirement)
      → update_each f ids rs ≡ ok changed
      → AllFound (λ r. f r ≡ r) ids changed
  unfolding update_each
  update_each-AllFound [] rs changed h = tt
  update_each-AllFound (id ∷ ids) rs changed h =
      let (next, found, h') = or_throw-ok (update_first f id rs) _ _ h in
      let fixed = update_fixes f keeps again id id rs next found (inl refl) in
      (
        IsFixed-find id changed (updates_keep f keeps again ids id next changed h' fixed),
        update_each-AllFound ids next changed h',
      )

AllFound-map :
    (p q : Requirement → Type 0)
    → ((r : Requirement) → p r → q r)
    → (ids : List String) (rs : List Requirement) → AllFound p ids rs
    → AllFound q ids rs
AllFound-map p q f [] rs h = tt
AllFound-map p q f (id ∷ ids) rs ((r, found, holds), rest) =
    ((r, found, f r holds), AllFound-map p q f ids rs rest)

all-includes-pointwise :
    (xs ys : List String)
    → ((a : String) → includes ys a ≡ true → includes xs a ≡ true)
    → all (includes xs) ys ≡ true
unfolding all includes
all-includes-pointwise xs [] h = refl
all-includes-pointwise xs (y ∷ ys) h =
    rw (h y (ground (arith, string_eq.agrees y y)))
      (all-includes-pointwise xs ys (λ a i. h a (ground arith)))

fixed-IsAccepted : (d : Verdict) (r : Requirement) → accept_requirement d r ≡ r → IsAccepted d r
unfolding dedupe
fixed-IsAccepted d r fixed =
    let evidence : dedupe (r.evidence ++ d.evidence_references) ≡ r.evidence =
      subst (λ (z : Requirement). dedupe (z.evidence ++ d.evidence_references) ≡ z.evidence) fixed
        (evidence_again d r) in
    let state =
      subst
        (λ (z : Requirement).
          (includes satisfied_requirement_states z.state ≡ true)
          ⊎ ((z.state ≡ "IMPLEMENTED") × (z.justification ≡ none)))
        fixed (accepted_state d r) in
    (
      elim state [
        | inl later ↦ unfold includes in ground (arith, later)
        | inr (now, _) ↦ unfold includes in rw now refl
      ],
      subst (λ z. all (includes z) d.evidence_references ≡ true) evidence
          (all-includes-pointwise (dedupe (r.evidence ++ d.evidence_references))
            d.evidence_references
            (λ a i.
              unite-includes [] (r.evidence ++ d.evidence_references) a
                (rw (includes-append r.evidence d.evidence_references a, i) (ground arith)))),
    )

-- A reconciliation of the requirements that returns leaves them accepted, with the evidence.
pub reconcile_accepted_requirements-IsAcceptedBy :
    (d : Verdict) (ids : List String) (before after : Option Matrix)
    → reconcile_accepted_requirements d ids before ≡ ok after
    → IsAcceptedBy d ids after
unfolding reconcile_accepted_requirements
reconcile_accepted_requirements-IsAcceptedBy d ids before after h =
    elim (Bool-cases (d.decision == "ACCEPT")) [
      | inr rejected ↦ inl rejected
      | inl accepted ↦ elim (Bool-cases (is_empty ids)) [
        | inl nothing ↦ inr (inl nothing)
        | inr claims ↦
            let (m, _, h₁) = or_throw-ok before _ _ (rw (accepted, claims) at h) in
            let (changed, h₂, h₃) =
              >>=-eq-ok (update_each (accept_requirement d) ids m.requirements) _ h₁ in
            let found =
              update_each-AllFound (accept_requirement d) (accept_requirement-id d)
                (accept_requirement_again d) ids m.requirements changed h₂ in
            inr (
              inr (
                record m { requirements = changed },
                sym (ok_inj h₃),
                AllFound-map (λ r. accept_requirement d r ≡ r) (IsAccepted d) (fixed-IsAccepted d)
                    ids changed found,
              ))
      ]
    ]
