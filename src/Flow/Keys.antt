-- ===== src/Flow/Keys.antt =====
-- The files of the flow probe: `write_exact_file`, `load_or_create_private_key`, `export_public_key` and
-- `create_config_template`. What `crypto_zero` does to local buffers is not modelled.
pub mod Clamp
pub mod Stored
use Prim.Native.Nat.{bit_and, bit_or}
use moonlight_tailscale_vita.Common.{
  ℕ, Bool, true, false, not, ◌||◌, Option, none, some, List, [], ◌∷◌, ◌++◌, Bytes, ℤ, pos, negsuc,
  neg, is_neg, int_is, ◌==◌, if◌then◌else◌, length, take, set, get_or, u64, u8,
}

-- The files; the temporary file has the time in its name.
pub data Place : Type 0 where
  private_key : Place
  temporary : ℕ → Place
  public_key : Place
  config : Place

-- The system's files, its random numbers and its clock, and WireGuard's Base64, which is given the room
-- for its output.
pub record Disk (World : Type 0) : Type 0 where
  pub open_read : Place → World → ℤ × World
  pub open_truncated : Place → (mode : ℕ) → World → ℤ × World
  pub open_exclusive : Place → (mode : ℕ) → World → ℤ × World
  pub read : (file : ℤ) → (size : ℕ) → World → ℤ × Bytes × World
  pub write : (file : ℤ) → Bytes → World → ℤ × World
  pub sync : (file : ℤ) → World → ℤ × World
  pub close : (file : ℤ) → World → World
  pub stat : Place → World → ℤ × World
  pub rename : (old new : Place) → World → ℤ × World
  pub remove : Place → World → World
  pub random_number : (size : ℕ) → World → ℤ × Bytes × World
  pub process_time : World → ℕ
  pub base64_encode : Bytes → (room : ℕ) → Option Bytes
  pub base64_decode : Bytes → (room : ℕ) → Option Bytes

-- `private_key[0] &= 248U` and the last byte.
unfoldable pub clamp : Bytes → Bytes
clamp key =
    let first = set key 0 (bit_and (get_or key 0 0) 248) in
    set first 31 (u8 (bit_or (bit_and (get_or first 31 0) 127) 64))

-- "# Tailscale Vita WG Flow Probe 0.4.0" and so on.
abbrev pub template_text : Bytes
template_text =
    35 ∷ 32 ∷ 84 ∷ 97 ∷ 105 ∷ 108 ∷ 115 ∷ 99 ∷ 97 ∷ 108 ∷ 101 ∷ 32 ∷ 86 ∷ 105 ∷ 116 ∷ 97 ∷ 32 ∷ 87
    ∷ 71 ∷ 32 ∷ 70 ∷ 108 ∷ 111 ∷ 119 ∷ 32 ∷ 80 ∷ 114 ∷ 111 ∷ 98 ∷ 101 ∷ 32 ∷ 48 ∷ 46 ∷ 52 ∷ 46 ∷ 48
    ∷ 10 ∷ 35 ∷ 32 ∷ 80 ∷ 114 ∷ 101 ∷ 101 ∷ 110 ∷ 99 ∷ 104 ∷ 97 ∷ 32 ∷ 99 ∷ 111 ∷ 109 ∷ 32 ∷ 97 ∷ 32
    ∷ 99 ∷ 104 ∷ 97 ∷ 118 ∷ 101 ∷ 32 ∷ 112 ∷ 117 ∷ 98 ∷ 108 ∷ 105 ∷ 99 ∷ 97 ∷ 32 ∷ 101 ∷ 32 ∷ 111
    ∷ 32 ∷ 73 ∷ 80 ∷ 118 ∷ 52 ∷ 32 ∷ 76 ∷ 65 ∷ 78 ∷ 32 ∷ 100 ∷ 97 ∷ 32 ∷ 86 ∷ 77 ∷ 46 ∷ 10 ∷ 112
    ∷ 101 ∷ 101 ∷ 114 ∷ 95 ∷ 112 ∷ 117 ∷ 98 ∷ 108 ∷ 105 ∷ 99 ∷ 95 ∷ 107 ∷ 101 ∷ 121 ∷ 61 ∷ 10 ∷ 101
    ∷ 110 ∷ 100 ∷ 112 ∷ 111 ∷ 105 ∷ 110 ∷ 116 ∷ 95 ∷ 105 ∷ 112 ∷ 61 ∷ 10 ∷ 101 ∷ 110 ∷ 100 ∷ 112
    ∷ 111 ∷ 105 ∷ 110 ∷ 116 ∷ 95 ∷ 112 ∷ 111 ∷ 114 ∷ 116 ∷ 61 ∷ 53 ∷ 49 ∷ 56 ∷ 50 ∷ 48 ∷ 10 ∷ []

module _ {World : Type 0} (x : Disk World) where
  -- `write`, and `sync` if everything was written.
  unfoldable pub write_whole : ℤ → Bytes → World → ℤ × World
  write_whole file data' w =
      let (count, w1) = x.write file data' w in
      if int_is count (length data')
      then (let (synced, w2) = x.sync file w1 in (if is_neg synced then synced else count, w2))
      else (if is_neg count then count else neg 1, w1)

  -- What follows an `open`.
  unfoldable pub write_opened : ℤ → Bytes → World → ℤ × World
  unfolding write_whole
  write_opened file data' w =
      if is_neg file
      then (file, w)
      else (let (result, w1) = write_whole file data' w in
          (if is_neg result then result else pos 0, x.close file w1))

  unfoldable pub write_exact_file : Place → Bytes → (mode : ℕ) → World → ℤ × World
  unfolding write_opened
  write_exact_file place data' mode w =
      let (file, w1) = x.open_truncated place mode w in write_opened file data' w1

  -- The result, and the key where there is one; a file of another size is refused.
  unfoldable pub read_key : ℤ → World → (ℤ × Bytes) × World
  read_key file w =
      let (count, stored, w1) = x.read file 33 w in
      if int_is count 32
      then ((pos 0, take 32 stored), x.close file w1)
      else ((neg 2, []), x.close file w1)

  -- The new key goes to a temporary file, which is then renamed.
  unfoldable pub create_key : World → (ℤ × Bytes) × World
  unfolding write_exact_file clamp
  create_key w =
      let (random_result, random, w1) = x.random_number 32 w in
      if is_neg random_result
      then ((random_result, []), w1)
      else (let key = clamp random in
          let place = temporary (u64 (x.process_time w1)) in
          let (written, w2) = write_exact_file place key 0x180 w1 in
          if is_neg written
          then ((written, key), w2)
          else (let (renamed, w3) = x.rename place private_key w2 in
              if is_neg renamed then ((renamed, key), x.remove place w3) else ((pos 0, key), w3)))

  -- With the key and `*created`.
  unfoldable pub load_or_create_private_key : World → (ℤ × Bytes × Bool) × World
  unfolding read_key create_key
  load_or_create_private_key w =
      let (file, w1) = x.open_read private_key w in
      if is_neg file
      then (let (found, w2) = x.stat private_key w1 in
          if is_neg found
          then (let ((result, key), w3) = create_key w2 in ((result, key, not (is_neg result)), w3))
          else ((file, [], false), w2))
      else (let ((result, key), w2) = read_key file w1 in ((result, key, false), w2))

  -- The key in Base64 and a line feed; `encoded` is what the caller's buffer then holds.
  unfoldable pub export_public_key : Bytes → World → (ℤ × Bytes) × World
  unfolding write_exact_file
  export_public_key key w = elim (x.base64_encode key 45) [
    | none ↦ ((neg 1, []), w)
    | some encoded ↦
        if length encoded == 44
        then (let (result, w1) = write_exact_file public_key (encoded ++ (10 ∷ [])) 0x1a4 w in
            ((result, encoded), w1))
        else ((neg 1, encoded), w)
  ]

  unfoldable pub create_config_template : World → ℤ × World
  unfolding write_opened
  create_config_template w =
      let (file, w1) = x.open_exclusive config 0x180 w in write_opened file template_text w1
