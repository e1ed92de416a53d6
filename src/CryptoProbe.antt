-- ===== src/CryptoProbe.antt =====
-- src/wg_crypto_probe.c: the diagnosis of the WireGuard cryptography on the console. This file has its
-- report and `decode_hex`; CryptoProbe/Run the diagnosis itself.
pub mod Hex
pub mod Run
pub mod Verdict
use moonlight_tailscale_vita.Common.{
  ℕ, ◌+◌, ◌-◌, ◌*◌, Bool, true, false, ◌&&◌, ◌||◌, not, List, [], ◌∷◌, ◌++◌, Bytes, ℤ, pos, negsuc,
  is_neg, ltb, leb, ◌==◌, if◌then◌else◌, length, take, to_nat,
}
use moonlight_tailscale_vita.Common.State.{State}

-- `value - '0'` and so on; -1 for any other character.
unfoldable pub hex_nibble : ℕ → ℤ
hex_nibble value =
    if leb 48 value && leb value 57
    then pos (value - 48)
    else (if leb 97 value && leb value 102
        then pos (value - 97 + 10)
        else (if leb 65 value && leb value 70 then pos (value - 65 + 10) else negsuc 0))

-- The loop: the digits of `input` into `output`, up to the first pair that is no number.
unfoldable pub decode_pairs : Bytes → Bytes → Bool × Bytes
unfolding hex_nibble
decode_pairs (high ∷ low ∷ input) (byte ∷ output) =
    let rest = decode_pairs input output in
    if is_neg (hex_nibble high) || is_neg (hex_nibble low)
    then (false, byte ∷ output)
    else (rest.0, (to_nat (hex_nibble high) * 16 + to_nat (hex_nibble low)) ∷ rest.1)
decode_pairs _ output = (true, output)

-- With what `output` holds afterwards.
unfoldable pub decode_hex : Bytes → Bytes → Bool × Bytes
unfolding decode_pairs
decode_hex input output =
    if not (length input == length output * 2) then (false, output) else decode_pairs input output

-- What a line says, with the values that are printed into it.
pub data Saying : Type 0 where
  begins : Saying
  blake2s_vector : Bool → Saying
  x25519_vector : Bool → ℕ → Saying
  aead_roundtrip : Bool → ℕ → Saying
  noise_initiation : Bool → ℕ → Saying
  kernel_random : ℤ → Saying
  memory : ℕ → ℕ → ℤ → Saying
  verdict : Bool → Saying

-- `ProbeLine`
pub record ProbeLine : Type 0 where
  pub ok : Bool
  pub text : Bytes

abbrev pub max_lines : ℕ
max_lines = 20

abbrev pub line_length : ℕ
line_length = 180

-- The file and the screen; `format` is what `vsnprintf` prints for a line without a limit.
pub record Device (World : Type 0) : Type 0 where
  pub make_directory : World → World
  pub open_log : World → ℤ × World
  pub write_log : ℤ → Bytes → World → World
  pub close_file : ℤ → World → World
  pub draw : List ProbeLine → World → World
  pub format : Saying → Bytes

-- `g_lines` up to `g_line_count`, and `g_log_fd`.
pub record Report (World : Type 0) : Type 0 where
  pub lines : List ProbeLine
  pub log_fd : ℤ
  pub world : World

-- "[%s] %s\n"
abbrev pub persisted : ProbeLine → Bytes
persisted line =
    ((91 ∷ []) ++ (if line.ok then 79 ∷ 75 ∷ [] else 69 ∷ 82 ∷ 82 ∷ 79 ∷ 82 ∷ []))
    ++ (93 ∷ 32 ∷ line.text)
    ++ (10 ∷ [])

module _ {World : Type 0} (x : Device World) where
  unfoldable pub render : State (Report World) (Unit {0})
  render r = (tt, record r { world = x.draw r.lines r.world })

  -- The new line in the file, if this is open.
  unfoldable pub write_line : ProbeLine → Report World → World
  write_line line r =
      if is_neg r.log_fd
      then r.world
      else (let whole = persisted line in
          let write_length =
            if leb (line_length + 16) (length whole) then line_length + 15 else length whole in
          x.write_log r.log_fd (take write_length whole) r.world)

  unfoldable pub log_line : Bool → Saying → State (Report World) (Unit {0})
  unfolding write_line render
  log_line ok saying r =
      if leb max_lines (length r.lines)
      then (tt, r)
      else (let line : ProbeLine = record {
        ok = ok;
        text = take (line_length - 1) (x.format saying);
      } in
          render record r { lines = r.lines ++ (line ∷ []); world = write_line line r })
