-- ===== src/Flow/Keys/Stored.antt =====
-- What the file of the private key holds when the probe has it.
use moonlight_tailscale_vita.Common.{
  ℕ, ◌<◌, true, false, Option, some, Bytes, ℤ, neg, is_neg, int_is, if◌then◌else◌, ◌⊎◌, length,
  take, u64, ◌≡◌, ◌≢◌, refl, ◌∙◌, arith, Bool-cases, inl, inr,
}
use moonlight_tailscale_vita.Flow.Keys.{
  Disk, Place, private_key, temporary, clamp, write_whole, write_opened, write_exact_file, read_key,
  create_key, load_or_create_private_key,
}

-- The files as a map from their names to their contents. A call that does not write a file leaves it
-- alone, a failed rename too. A file that was just opened is read from its start, and a read that fills
-- less than the buffer has all of it; a file that was just truncated holds what is then written whole.
-- Of `stat` nothing is taken but that it writes no file: it may fail on one that is there.
pub record KeepsDisk {World : Type 0} (x : Disk World) (holds : World → Place → Option Bytes)
    : Type 0 where
  pub opens : (p q : Place) (w : World) → holds (x.open_read p w).1 q ≡ holds w q
  pub reads : (fd : ℤ) (n : ℕ) (q : Place) (w : World) → holds (x.read fd n w).2 q ≡ holds w q
  pub reads_all :
      (p : Place) (n count : ℕ) (w : World)
      → let (file, w1) = x.open_read p w in
        is_neg file ≡ false
        → count < n
        → int_is (x.read file n w1).0 count ≡ true
        → holds w1 p ≡ some (take count (x.read file n w1).1)
  pub truncates_one :
      (p q : Place) (mode : ℕ) (w : World)
      → p ≢ q
      → holds (x.open_truncated p mode w).1 q ≡ holds w q
  pub writes :
      (p : Place) (mode : ℕ) (data' : Bytes) (w : World)
      → let (file, w1) = x.open_truncated p mode w in
        is_neg file ≡ false
        → int_is (x.write file data' w1).0 (length data') ≡ true
        → holds (x.write file data' w1).1 p ≡ some data'
  pub writes_one :
      (p q : Place) (mode : ℕ) (data' : Bytes) (w : World)
      → let (file, w1) = x.open_truncated p mode w in
        is_neg file ≡ false → p ≢ q → holds (x.write file data' w1).1 q ≡ holds w1 q
  pub syncs : (fd : ℤ) (q : Place) (w : World) → holds (x.sync fd w).1 q ≡ holds w q
  pub closes : (fd : ℤ) (q : Place) (w : World) → holds (x.close fd w) q ≡ holds w q
  pub stats : (p q : Place) (w : World) → holds (x.stat p w).1 q ≡ holds w q
  pub renames :
      (p q : Place) (w : World)
      → is_neg (x.rename p q w).0 ≡ false
      → holds (x.rename p q w).1 q ≡ holds w p
  pub renames_failed :
      (p q : Place) (w : World)
      → is_neg (x.rename p q w).0 ≡ true
      → holds (x.rename p q w).1 q ≡ holds w q
  pub removes : (p q : Place) (w : World) → p ≢ q → holds (x.remove p w) q ≡ holds w q
  pub random_numbers : (n : ℕ) (q : Place) (w : World) → holds (x.random_number n w).2 q ≡ holds w q

temporary_apart : (n : ℕ) → temporary n ≢ private_key
temporary_apart n e = ground (arith, e)

rejected : (count : ℤ) → is_neg (if is_neg count then count else neg 1) ≡ true
rejected count = ground arith

module _ {World : Type 0} (x : Disk World) (holds : World → Place → Option Bytes)
    (k : KeepsDisk x holds) where
  -- A file that was written whole holds the data.
  write_exact_file-holds :
      (p : Place) (data' : Bytes) (mode : ℕ) (w : World)
      → is_neg (write_exact_file x p data' mode w).0 ≡ false
      → holds (write_exact_file x p data' mode w).1 p ≡ some data'
  unfolding write_exact_file write_opened write_whole
  write_exact_file-holds p data' mode w h =
      let (file, w1) = x.open_truncated p mode w in
      elim (Bool-cases (is_neg file)) [
        | inl e ↦ absurd (ground (arith, e, h))
        | inr e ↦ elim (Bool-cases (int_is (x.write file data' w1).0 (length data'))) [
          | inl e' ↦ rw e (rw e' (k.closes _ _ _ ∙ k.syncs _ _ _ ∙ k.writes p mode data' w e e'))
          | inr e' ↦ absurd (ground (arith, rejected (x.write file data' w1).0, e, e', h))
        ]
      ]

  write_exact_file-others :
      (p q : Place) (data' : Bytes) (mode : ℕ) (w : World)
      → p ≢ q
      → holds (write_exact_file x p data' mode w).1 q ≡ holds w q
  unfolding write_exact_file write_opened write_whole
  write_exact_file-others p q data' mode w h =
      let same' = k.truncates_one p q mode w h in
      let (file, w1) = x.open_truncated p mode w in
      elim (Bool-cases (is_neg file)) [
        | inl e ↦ rw e same'
        | inr e ↦
            let wrote = k.writes_one p q mode data' w e h in
            elim (Bool-cases (int_is (x.write file data' w1).0 (length data'))) [
              | inl e' ↦ rw e (rw e' (k.closes _ _ _ ∙ k.syncs _ _ _ ∙ wrote ∙ same'))
              | inr e' ↦ rw e (rw e' (k.closes _ _ _ ∙ wrote ∙ same'))
            ]
      ]

  -- The file of the key is as it was, with an error; or it holds the new key, without one.
  create_key_cases :
      (w : World)
      → let ((result, key), w') = create_key x w in
        ((is_neg result ≡ true) × (holds w' private_key ≡ holds w private_key))
        ⊎ ((is_neg result ≡ false) × (holds w' private_key ≡ some key))
  unfolding create_key
  create_key_cases w =
      let (random_result, random, w1) = x.random_number 32 w in
      let key = clamp random in
      let place = temporary (u64 (x.process_time w1)) in
      let (written, w2) = write_exact_file x place key 0x180 w1 in
      let apart = temporary_apart (u64 (x.process_time w1)) in
      let same = k.random_numbers 32 private_key w in
      let others = write_exact_file-others place private_key key 0x180 w1 apart in
      elim (Bool-cases (is_neg random_result)) [
        | inl e ↦ rw e (inl (e, same))
        | inr e ↦ elim (Bool-cases (is_neg written)) [
          | inl e' ↦ rw e (rw e' (inl (e', others ∙ same)))
          | inr e' ↦ elim (Bool-cases (is_neg (x.rename place private_key w2).0)) [
            | inl e'' ↦ rw e (
                rw e' (
                  rw e'' (
                    inl (
                      e'',
                      k.removes place private_key _ apart
                          ∙ k.renames_failed place private_key w2 e''
                          ∙ others
                          ∙ same,
                    ))))
            | inr e'' ↦ rw e (
                rw e' (
                  rw e'' (
                    inr
                      (refl, k.renames _ _ _ e'' ∙ write_exact_file-holds place key 0x180 w1 e'))))
          ]
        ]
      ]

  -- If the files behave as KeepsDisk says: the file of the private key stays as it is, whatever fails,
  -- unless both the open and the stat of it fail; then a whole new key may take its place. Without an
  -- error it holds the key that the probe goes on with.
  pub load_or_create_private_key_lem :
      (w : World)
      → let ((result, key, created), w') = load_or_create_private_key x w in
        let (file, w1) = x.open_read private_key w in
        ((holds w' private_key ≡ holds w private_key)
          ⊎ ((is_neg file ≡ true)
              × (is_neg (x.stat private_key w1).0 ≡ true)
              × (created ≡ true)
              × (holds w' private_key ≡ some key)))
        × (is_neg result ≡ false → holds w' private_key ≡ some key)
  unfolding load_or_create_private_key read_key
  load_or_create_private_key_lem w =
      let (file, w1) = x.open_read private_key w in
      let opened = k.opens private_key private_key w in
      let w2 = (x.stat private_key w1).1 in
      let looked = k.stats private_key private_key w1 ∙ opened in
      let kept : holds (x.close file (x.read file 33 w1).2) private_key ≡ holds w1 private_key =
        k.closes _ _ _ ∙ k.reads file 33 private_key w1 in
      elim (Bool-cases (is_neg file)) [
        | inl e ↦ elim (Bool-cases (is_neg (x.stat private_key w1).0)) [
          | inl e' ↦ elim (create_key_cases w2) [
            | inl (failed, same) ↦
                rw e (rw e' (inl (same ∙ looked), λ h. absurd (ground (arith, failed, h))))
            | inr (fine, new) ↦ rw e (rw e' (rw fine (inr (refl, refl, refl, new), λ h. new)))
          ]
          | inr e' ↦ rw e (rw e' (inl looked, λ h. absurd (ground (arith, e, h))))
        ]
        | inr e ↦ elim (Bool-cases (int_is (x.read file 33 w1).0 32)) [
          | inl e' ↦
              let all = k.reads_all private_key 33 32 w e (omega arith) e' in
              rw e (rw e' (inl (kept ∙ opened), λ h. kept ∙ all))
          | inr e' ↦ rw e (rw e' (inl (kept ∙ opened), λ h. absurd (ground (arith, h))))
        ]
      ]
