-- ===== src/Store.antt =====
-- src/io.js: one durable JSON file and the operations that cooperating processes share it by,
-- `atomicCompareAndSwapJson`, `atomicCreateJson` and `writeJson`. A file holds a value of type `A`
-- (its canonical text is not modelled) or is absent; `lock_held` says that the directory
-- `<path>.cas-lock` exists.
pub mod Laws
use durable_supervisor.Base.{
  Bool, Option, false, if◌then◌else◌, negb, none, option_beq, some, true, ◌≡◌,
}

-- The digest of a file's content (`sha256` of node:crypto over its bytes) is a parameter. The program
-- relies on it to tell contents apart: equal digests stand for equal contents.
pub record Hash (A : Type 0) : Type 1 where
  pub Digest : Type 0
  pub sha256 : A → Digest
  pub same : Digest → Digest → Bool
  pub same_refl : (d : Digest) → same d d ≡ true
  pub same_sound : (a b : A) → same (sha256 a) (sha256 b) ≡ true → a ≡ b

pub record File (A : Type 0) : Type 0 where
  pub content : Option A
  pub lock_held : Bool

-- The value that `atomicCompareAndSwapJson` returns, by its `reason`.
pub data Swap (D : Type 0) : Type 0 where
  swapped : Option D → D → Swap D
  lock_busy : Swap D
  content_changed : Option D → Swap D

abbrev pub did_swap : {D : Type 0} → Swap D → Bool
did_swap (swapped p c) = true
did_swap lock_busy = false
did_swap (content_changed c) = false

module _ {A : Type 0} (h : Hash A) where
  open h use {Digest, sha256, same}

  abbrev pub digest_of : Option A → Option Digest
  digest_of none = none
  digest_of (some a) = some (sha256 a)

  -- The lock directory is made, the content compared by its digest and replaced, and the directory
  -- removed, whatever the outcome.
  unfoldable pub compare_and_swap : File A → Option Digest → A → File A × Swap Digest
  compare_and_swap file expected value =
      let current = digest_of file.content in
      if file.lock_held
      then (file, lock_busy)
      else if negb (option_beq same current expected)
      then (file, content_changed current)
      else (record { content = some value; lock_held = false }, swapped current (sha256 value))

-- `link` of a finished temporary file: it fails where the file exists.
unfoldable pub atomic_create : {A : Type 0} → File A → A → File A × Bool
atomic_create file value = elim file.content [
  | none ↦ (record file { content = some value }, true)
  | some old ↦ (file, false)
]
