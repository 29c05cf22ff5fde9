-- ===== src/Store/Laws.antt =====
-- What the operations on a shared file of src/io.js guarantee to the processes that race for it.
use durable_supervisor.Base.{
  Bool-cases, Option, ap, false, inl, inr, none, option_beq, refl, some, true, ◌≡◌, ◌≢◌, ◌⊎◌,
}
use durable_supervisor.Store.{Hash, File, did_swap, digest_of, compare_and_swap}

module _ {A : Type 0} (h : Hash A) where
  open h use {Digest, sha256, same, same_refl, same_sound}

  same_digest : (a b : Option A) → option_beq same (digest_of h a) (digest_of h b) ≡ true → a ≡ b
  same_digest none none e = refl
  same_digest none (some b) e = cc
  same_digest (some a) none e = cc
  same_digest (some a) (some b) e = ap some (same_sound a b e)

  same_digest_refl : (a : Option A) → option_beq same (digest_of h a) (digest_of h a) ≡ true
  same_digest_refl none = refl
  same_digest_refl (some a) = same_refl (sha256 a)

  -- With the digest of a snapshot for its expectation, the swap replaces the content exactly if the
  -- lock is free and the content is still that of the snapshot, and changes nothing otherwise. It
  -- leaves the lock as it found it.
  pub compare_and_swap_exact :
      (file : File A) (snapshot : Option A) (value : A)
      → let (after, outcome) = compare_and_swap h file (digest_of h snapshot) value in
        ((did_swap outcome ≡ true)
          × (file.lock_held ≡ false)
          × (file.content ≡ snapshot)
          × (after.content ≡ some value)
          × (after.lock_held ≡ false))
        ⊎ ((did_swap outcome ≡ false)
            × ((file.lock_held ≡ true) ⊎ (file.content ≢ snapshot))
            × (after ≡ file))
  unfolding compare_and_swap
  compare_and_swap_exact file snapshot value = elim (Bool-cases file.lock_held) [
    | inl busy ↦ rw busy (inr (refl, inl refl, refl))
    | inr free ↦
        elim (Bool-cases (option_beq same (digest_of h file.content) (digest_of h snapshot))) [
          | inl equal ↦
              rw (free, equal)
                (inl (refl, refl, same_digest file.content snapshot equal, refl, refl))
          | inr differ ↦
              rw (free, differ)
                (inr
                  (refl, inr (λ e. let d = rw e at differ in cc (same_digest_refl snapshot)), refl))
        ]
  ]

  pub swap_written :
      (file : File A) (snapshot : Option A) (value : A)
      → did_swap (compare_and_swap h file (digest_of h snapshot) value).1 ≡ true
      → (compare_and_swap h file (digest_of h snapshot) value).0.content ≡ some value
  swap_written file snapshot value did = elim (compare_and_swap_exact file snapshot value) [
    | inl (_, _, _, written, _) ↦ written
    | inr (not_did, _, _) ↦ cc
  ]

  pub swap_unchanged :
      (file : File A) (snapshot : Option A) (value : A)
      → did_swap (compare_and_swap h file (digest_of h snapshot) value).1 ≡ false
      → (compare_and_swap h file (digest_of h snapshot) value).0 ≡ file
  swap_unchanged file snapshot value not_did = elim (compare_and_swap_exact file snapshot value) [
    | inl (did, _, _, _, _) ↦ cc
    | inr (_, _, kept) ↦ kept
  ]
