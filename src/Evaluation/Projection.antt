-- ===== src/Evaluation/Projection.antt =====
-- src/cli.js, `reconcileJsonProjection`: a JSON file is brought to the value that a function makes of
-- its content, by a compare-and-swap that is tried again when another process was faster.
use durable_supervisor.Base.{
  Eq, Result, err, if◌then◌else◌, ok, or_throw, some, suc, zero, ℕ, ◌==◌, ◌>>=◌,
}
use durable_supervisor.Store.{
  Hash, File, Swap, swapped, lock_busy, content_changed, compare_and_swap,
}

abbrev pub projection_attempts : ℕ
projection_attempts = 40

module _ {A : Type 0} ⦃e : Eq A⦄ (h : Hash A) (project : A → Result A)
    (others : ℕ → File A → File A) where
  open h use {Digest, sha256, same}

  -- A round whose swap failed is followed by the next.
  unfoldable pub projection_swap :
      (File A → Result (File A × A)) → A → File A × Swap Digest → Result (File A × A)
  projection_swap retry projected (file, swapped previous current) = ok (file, projected)
  projection_swap retry projected (file, lock_busy) = retry file
  projection_swap retry projected (file, content_changed current) = retry file

  -- One round: the content is read and projected; `others` is what other processes do to the file
  -- before the swap.
  unfoldable pub projection_round :
      ℕ → (File A → Result (File A × A)) → File A → Result (File A × A)
  unfolding projection_swap
  projection_round round retry file = do
    current ← or_throw file.content "ENOENT"
    projected ← project current
    (if projected == current
        then ok (file, current)
        else projection_swap retry projected
            (compare_and_swap h (others round file) (some (sha256 current)) projected))

  unfoldable pub projection_rounds : ℕ → File A → Result (File A × A)
  projection_rounds zero file = err "BUSY: evaluation projection did not converge"
  projection_rounds (suc rounds) file = projection_round rounds (projection_rounds rounds) file

  unfoldable pub reconcile_json_projection : File A → Result (File A × A)
  reconcile_json_projection file = projection_rounds projection_attempts file
