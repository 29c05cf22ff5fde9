-- ===== src/Evaluation/Converged.antt =====
-- src/cli.js, `reconcileJsonProjection`: what a projection that returns has done to the file, and when
-- it returns.
use durable_supervisor.Base.{
  >>=-eq-ok, Bool-cases, Eq, Result, ap, arith, false, if◌then◌else◌, inl, inr, ok, ok_inj,
  or_throw, or_throw-ok, refl, some, suc, sym, true, zero, ℕ, ◌<◌, ◌==◌, ◌>>=◌, ◌∙◌, ◌≡◌, ◌⊎◌,
}
use durable_supervisor.Store.{
  Hash, File, Swap, swapped, lock_busy, content_changed, compare_and_swap, digest_of, did_swap,
}
use durable_supervisor.Store.Laws.{swap_unchanged, compare_and_swap_exact}
use durable_supervisor.Evaluation.Projection.{
  projection_round, projection_rounds, projection_swap, reconcile_json_projection,
  projection_attempts,
}

quiet_or_later : (n quiet : ℕ) → quiet < suc n → (n ≡ quiet) ⊎ (quiet < n)
quiet_or_later n quiet below = ground (arith, below)

module _ {A : Type 0} ⦃e : Eq A⦄ (h : Hash A) (project : A → Result A)
    (others : ℕ → File A → File A) where
  open h use {Digest, sha256}

  -- The file after the other processes have acted in some of the rounds.
  pub data Elapsed : File A → File A → Type 0 where
    now : (file : File A) → Elapsed file file
    later :
        (round : ℕ) (file before : File A)
        → Elapsed (others round file) before
        → Elapsed file before

  -- One atomic step from a content of the file to its projection, which the file then holds.
  abbrev pub IsProjection : File A → File A → A → Type 0
  IsProjection file after value =
      (before : File A) × (current : A) × Elapsed file before
      × (before.content ≡ some current)
      × (project current ≡ ok value)
      × (after.content ≡ some value)

  -- A projection of the file as it is after a round is one of the file.
  elapsed_before :
      (round : ℕ) (file after : File A) (value : A)
      → IsProjection (others round file) after value
      → IsProjection file after value
  elapsed_before round file after value (before, current, elapsed, held, made, written) =
      (before, current, later round file before elapsed, held, made, written)

  swap_done :
      (file : File A) (current next : A)
      → let (after, outcome) = compare_and_swap h file (digest_of h (some current)) next in
        did_swap outcome ≡ true → (after.content ≡ some next) × (file.content ≡ some current)
  swap_done file current next did = elim (compare_and_swap_exact h file (some current) next) [
    | inl (_, _, was, written, _) ↦ (written, was)
    | inr (not_did, _, _) ↦ cc
  ]

  swap-IsProjection :
      (retry : File A → Result (File A × A)) (round : ℕ) (file after : File A)
      (current next value : A) (outcome : File A × Swap Digest)
      → ((f g : File A) (v : A) → retry f ≡ ok (g, v) → IsProjection f g v)
      → file.content ≡ some current
      → project current ≡ ok next
      → (did_swap outcome.1 ≡ true
          → (outcome.0.content ≡ some next) × ((others round file).content ≡ some current))
      → (did_swap outcome.1 ≡ false → outcome.0 ≡ others round file)
      → projection_swap h project others retry next outcome ≡ ok (after, value)
      → IsProjection file after value
  unfolding projection_swap
  swap-IsProjection retry round file after current next value (f, swapped p c) rest held made
        written unchanged r =
      let same = ok_inj r in
      let (is_next, was) = written refl in
      let v = ap (λ p'. p'.1) same in
      (
        others round file,
        current,
        later round file (others round file) (now (others round file)),
        was,
        made ∙ ap ok v,
        ap (λ p'. p'.0.content) (sym same) ∙ is_next ∙ ap some v,
      )
  swap-IsProjection retry round file after current next value (f, lock_busy) rest held made written
        unchanged r =
      elapsed_before round file after value (rest _ after value (rw (unchanged refl) at r))
  swap-IsProjection retry round file after current next value (f, content_changed c) rest held made
        written unchanged r =
      elapsed_before round file after value (rest _ after value (rw (unchanged refl) at r))

  round-IsProjection :
      (retry : File A → Result (File A × A)) (round : ℕ) (file after : File A) (value : A)
      → ((f g : File A) (v : A) → retry f ≡ ok (g, v) → IsProjection f g v)
      → projection_round h project others round retry file ≡ ok (after, value)
      → IsProjection file after value
  unfolding projection_round
  round-IsProjection retry round file after value rest r =
      let (current, held, r₁) = or_throw-ok file.content _ _ r in
      let (next, made, r₂) = >>=-eq-ok (project current) _ r₁ in
      elim (Bool-cases (next == current)) [
        | inl same ↦
            let is_current = (e.agrees next current).0 same in
            let both = ok_inj {a = (file, current)} (rw same at r₂) in
            let v = ap (λ p. p.1) both in
            (
              file,
              current,
              now file,
              held,
              made ∙ ap ok (is_current ∙ v),
              ap (λ p. p.0.content) (sym both) ∙ held ∙ ap some v,
            )
        | inr differ ↦
            let file' = others round file in
            let outcome = compare_and_swap h file' (digest_of h (some current)) next in
            swap-IsProjection retry round file after current next value outcome rest held made
              (λ did. swap_done file' current next did) (swap_unchanged h file' (some current) next)
              (rw differ at r₂)
      ]

  rounds-IsProjection :
      (n : ℕ) (file after : File A) (value : A)
      → projection_rounds h project others n file ≡ ok (after, value)
      → IsProjection file after value
  unfolding projection_rounds
  rounds-IsProjection zero file after value r = cc
  rounds-IsProjection (suc n) file after value r =
      round-IsProjection (projection_rounds h project others n) n file after value
        (rounds-IsProjection n) r

  -- A projection that returns has, at one moment, replaced a content that the file then had by the
  -- projection of it, however the other processes change the file in between.
  pub reconcile_json_projection-IsProjection :
      (file after : File A) (value : A)
      → reconcile_json_projection h project others file ≡ ok (after, value)
      → IsProjection file after value
  unfolding reconcile_json_projection
  reconcile_json_projection-IsProjection file after value r =
      rounds-IsProjection projection_attempts file after value r

  module _ (total : (a : A) → (b : A) × (project a ≡ ok b))
      (present : (round : ℕ) (file : File A) (a : A)
        → file.content ≡ some a
        → (b : A) × ((others round file).content ≡ some b))
      (quiet : ℕ)
      (left_alone : (file : File A)
        → ((others quiet file).content ≡ file.content)
          × ((others quiet file).lock_held ≡ false)) where
    Returns : Result (File A × A) → Type 0
    Returns result = (after : File A) × (value : A) × (result ≡ ok (after, value))

    -- After a swap that failed another round is made; in the quiet round none fails.
    retried :
        (retry : File A → Result (File A × A)) (round : ℕ) (file : File A) (current next : A)
        (f : File A) (outcome : Swap Digest)
        → file.content ≡ some current
        → (round ≡ quiet) ⊎ ((g : File A) (a : A) → g.content ≡ some a → Returns (retry g))
        → compare_and_swap h (others round file) (digest_of h (some current)) next ≡ (f, outcome)
        → did_swap outcome ≡ false
        → Returns (retry f)
    retried retry round file current next f outcome held go_on is_outcome failed =
        let file' = others round file in
        let failed' = ap (λ o. did_swap o.1) is_outcome ∙ failed in
        elim (compare_and_swap_exact h file' (some current) next) [
          | inl (did, _, _, _, _) ↦ cc
          | inr (_, reason, kept) ↦
              let is_f = sym kept ∙ ap (λ o. o.0) is_outcome in
              elim go_on [
                | inl is_quiet ↦ absurd (elim reason [
                  | inl busy ↦
                      let free = (left_alone file).1 in
                      let busy' : (others quiet file).lock_held ≡ true = rw is_quiet at busy in cc
                  | inr changed ↦
                      changed
                        (ap (λ k. (others k file).content) is_quiet ∙ (left_alone file).0 ∙ held)
                ])
                | inr again ↦
                    let (b, there) = present round file current held in
                    again f b (ap (λ g. g.content) (sym is_f) ∙ there)
              ]
        ]

    swap-Returns :
        (retry : File A → Result (File A × A)) (round : ℕ) (file : File A) (current next : A)
        → file.content ≡ some current
        → (round ≡ quiet) ⊎ ((f : File A) (a : A) → f.content ≡ some a → Returns (retry f))
        → (outcome : File A × Swap Digest)
        → compare_and_swap h (others round file) (digest_of h (some current)) next ≡ outcome
        → Returns (projection_swap h project others retry next outcome)
    unfolding projection_swap Returns
    swap-Returns retry round file current next held go_on (f, swapped p c) is_outcome =
        (f, next, refl)
    swap-Returns retry round file current next held go_on (f, lock_busy) is_outcome =
        retried retry round file current next f lock_busy held go_on is_outcome refl
    swap-Returns retry round file current next held go_on (f, content_changed c) is_outcome =
        retried retry round file current next f (content_changed c) held go_on is_outcome refl

    round-Returns :
        (retry : File A → Result (File A × A)) (round : ℕ) (file : File A) (current : A)
        → file.content ≡ some current
        → (round ≡ quiet) ⊎ ((f : File A) (a : A) → f.content ≡ some a → Returns (retry f))
        → Returns (projection_round h project others round retry file)
    unfolding projection_round Returns
    round-Returns retry round file current held go_on =
        let (next, made) = total current in
        let file' = others round file in
        let outcome = compare_and_swap h file' (digest_of h (some current)) next in
        let body = λ (held' : file.content ≡ some current).
          ap
            (λ o. or_throw o "ENOENT" >>= λ c. project c >>= λ p.
              if p == c
              then ok (file, c)
              else projection_swap h project others retry p
                  (compare_and_swap h (others round file) (some (sha256 c)) p))
            held' in
        elim (Bool-cases (next == current)) [
          | inl same ↦ (file, current, body held ∙ rw (made, same) refl)
          | inr differ ↦
              let (after, value, swap) =
                swap-Returns retry round file current next held go_on outcome refl in
              (after, value, body held ∙ rw (made, differ) swap)
        ]

    rounds-Returns :
        (n : ℕ) (file : File A) (current : A)
        → quiet < n
        → file.content ≡ some current
        → Returns (projection_rounds h project others n file)
    unfolding projection_rounds
    rounds-Returns zero file current below held = absurd (omega (arith, below))
    rounds-Returns (suc n) file current below held =
        round-Returns (projection_rounds h project others n) n file current held
          (elim (quiet_or_later n quiet below) [
            | inl is_quiet ↦ inl is_quiet
            | inr more ↦ inr (λ f a there. rounds-Returns n f a more there)
          ])

-- A projection returns, in its forty rounds, if it is defined on every content, the other processes
-- never remove the file, and there is a round of the forty in which they leave content and lock alone.
pub reconcile_json_projection_returns :
    {A : Type 0} ⦃e : Eq A⦄ (h : Hash A) (project : A → Result A) (others : ℕ → File A → File A)
    (quiet : ℕ) (file : File A) (current : A)
    → ((a : A) → (b : A) × (project a ≡ ok b))
    → ((round : ℕ) (f : File A) (a : A)
        → f.content ≡ some a
        → (b : A) × ((others round f).content ≡ some b))
    → quiet < projection_attempts
    → ((f : File A) → ((others quiet f).content ≡ f.content) × ((others quiet f).lock_held ≡ false))
    → file.content ≡ some current
    → (after : File A) × (value : A) × (reconcile_json_projection h project others file
        ≡ ok (after, value))
unfolding reconcile_json_projection Returns
reconcile_json_projection_returns h project others quiet file current total present below left_alone
      held =
    rounds-Returns h project others total present quiet left_alone projection_attempts file current
      below held
