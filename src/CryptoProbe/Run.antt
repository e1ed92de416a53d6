-- ===== src/CryptoProbe/Run.antt =====
-- `run_probe` of src/wg_crypto_probe.c. Each part of it is a function of the same name as what it
-- tests; it gives whether the test succeeded, and logs it.
use Prim.Native.Nat.{bit_xor}
use moonlight_tailscale_vita.Common.{
  ℕ, zero, suc, ◌+◌, ◌-◌, ◌/◌, ◌^◌, Bool, true, false, ◌&&◌, [], ◌∷◌, Bytes, ℤ, pos, negsuc, neg,
  is_neg, int_is, leb, ◌==◌, if◌then◌else◌, u64, same,
}
use moonlight_tailscale_vita.Common.State.{State, ◌>>=◌, ◌>>◌, pure, get}
use moonlight_tailscale_vita.CryptoProbe.{
  Device, Report, begins, blake2s_vector, x25519_vector, aead_roundtrip, noise_initiation,
  kernel_random, memory, verdict, log_line, decode_hex,
}

-- The WireGuard library, the kernel and `tsvita_wireguard_random_error`. The device and the peer that
-- the calls set up are part of `World`. `peer_alloc` gives whether it has a peer,
-- `create_initiation` its result and the type that the message then has; `aead_decrypt` gives its
-- result and what the buffer then holds. `free_memory` gives the result and `size_user`.
pub record Crypto (World : Type 0) : Type 0 where
  pub blake2s : (size : ℕ) → (key input : Bytes) → Bytes
  pub x25519 : (scalar base : Bytes) → ℤ × Bytes
  pub base_point : Bytes
  pub aead_encrypt : (plaintext additional : Bytes) (nonce : ℕ) (key : Bytes) → Bytes
  pub aead_decrypt : (ciphertext additional : Bytes) (nonce : ℕ) (key : Bytes) → Bool × Bytes
  pub message_handshake_initiation : ℕ
  pub wireguard_init : World → World
  pub device_init : Bytes → World → Bool × World
  pub peer_alloc : World → Bool × World
  pub peer_init : Bytes → World → Bool × World
  pub create_initiation : World → (Bool × ℕ) × World
  pub random_error : World → ℤ
  pub zero_secrets : World → World
  pub process_time : World → ℕ × World
  pub free_memory : World → (ℤ × ℕ) × World

-- "69217a3079908094e11121d042354a7c1f55b6482ca1a51e1b250dfd1ed0eef9"
abbrev pub blake_expected_hex : Bytes
blake_expected_hex =
    54 ∷ 57 ∷ 50 ∷ 49 ∷ 55 ∷ 97 ∷ 51 ∷ 48 ∷ 55 ∷ 57 ∷ 57 ∷ 48 ∷ 56 ∷ 48 ∷ 57 ∷ 52 ∷ 101 ∷ 49 ∷ 49
    ∷ 49 ∷ 50 ∷ 49 ∷ 100 ∷ 48 ∷ 52 ∷ 50 ∷ 51 ∷ 53 ∷ 52 ∷ 97 ∷ 55 ∷ 99 ∷ 49 ∷ 102 ∷ 53 ∷ 53 ∷ 98 ∷ 54
    ∷ 52 ∷ 56 ∷ 50 ∷ 99 ∷ 97 ∷ 49 ∷ 97 ∷ 53 ∷ 49 ∷ 101 ∷ 49 ∷ 98 ∷ 50 ∷ 53 ∷ 48 ∷ 100 ∷ 102 ∷ 100
    ∷ 49 ∷ 101 ∷ 100 ∷ 48 ∷ 101 ∷ 101 ∷ 102 ∷ 57 ∷ []

-- "77076d0a7318a57d3c16c17251b26645df4c2f87ebc0992ab177fba51db92c2a"
abbrev pub alice_private_hex : Bytes
alice_private_hex =
    55 ∷ 55 ∷ 48 ∷ 55 ∷ 54 ∷ 100 ∷ 48 ∷ 97 ∷ 55 ∷ 51 ∷ 49 ∷ 56 ∷ 97 ∷ 53 ∷ 55 ∷ 100 ∷ 51 ∷ 99 ∷ 49
    ∷ 54 ∷ 99 ∷ 49 ∷ 55 ∷ 50 ∷ 53 ∷ 49 ∷ 98 ∷ 50 ∷ 54 ∷ 54 ∷ 52 ∷ 53 ∷ 100 ∷ 102 ∷ 52 ∷ 99 ∷ 50
    ∷ 102 ∷ 56 ∷ 55 ∷ 101 ∷ 98 ∷ 99 ∷ 48 ∷ 57 ∷ 57 ∷ 50 ∷ 97 ∷ 98 ∷ 49 ∷ 55 ∷ 55 ∷ 102 ∷ 98 ∷ 97
    ∷ 53 ∷ 49 ∷ 100 ∷ 98 ∷ 57 ∷ 50 ∷ 99 ∷ 50 ∷ 97 ∷ []

-- "8520f0098930a754748b7ddcb43ef75a0dbf3a0d26381af4eba4a98eaa9b4e6a"
abbrev pub alice_public_hex : Bytes
alice_public_hex =
    56 ∷ 53 ∷ 50 ∷ 48 ∷ 102 ∷ 48 ∷ 48 ∷ 57 ∷ 56 ∷ 57 ∷ 51 ∷ 48 ∷ 97 ∷ 55 ∷ 53 ∷ 52 ∷ 55 ∷ 52 ∷ 56
    ∷ 98 ∷ 55 ∷ 100 ∷ 100 ∷ 99 ∷ 98 ∷ 52 ∷ 51 ∷ 101 ∷ 102 ∷ 55 ∷ 53 ∷ 97 ∷ 48 ∷ 100 ∷ 98 ∷ 102 ∷ 51
    ∷ 97 ∷ 48 ∷ 100 ∷ 50 ∷ 54 ∷ 51 ∷ 56 ∷ 49 ∷ 97 ∷ 102 ∷ 52 ∷ 101 ∷ 98 ∷ 97 ∷ 52 ∷ 97 ∷ 57 ∷ 56
    ∷ 101 ∷ 97 ∷ 97 ∷ 57 ∷ 98 ∷ 52 ∷ 101 ∷ 54 ∷ 97 ∷ []

-- "de9edb7d7b7dc1b4d35b61c2ece435373f8343c85b78674dadfc7e146f882b4f"
abbrev pub bob_public_hex : Bytes
bob_public_hex =
    100 ∷ 101 ∷ 57 ∷ 101 ∷ 100 ∷ 98 ∷ 55 ∷ 100 ∷ 55 ∷ 98 ∷ 55 ∷ 100 ∷ 99 ∷ 49 ∷ 98 ∷ 52 ∷ 100 ∷ 51
    ∷ 53 ∷ 98 ∷ 54 ∷ 49 ∷ 99 ∷ 50 ∷ 101 ∷ 99 ∷ 101 ∷ 52 ∷ 51 ∷ 53 ∷ 51 ∷ 55 ∷ 51 ∷ 102 ∷ 56 ∷ 51
    ∷ 52 ∷ 51 ∷ 99 ∷ 56 ∷ 53 ∷ 98 ∷ 55 ∷ 56 ∷ 54 ∷ 55 ∷ 52 ∷ 100 ∷ 97 ∷ 100 ∷ 102 ∷ 99 ∷ 55 ∷ 101
    ∷ 49 ∷ 52 ∷ 54 ∷ 102 ∷ 56 ∷ 56 ∷ 50 ∷ 98 ∷ 52 ∷ 102 ∷ []

-- The numbers below `n`, upwards.
abbrev pub counted : (n first : ℕ) → (ℕ → ℕ) → Bytes
counted zero first f = []
counted (suc n) first f = f first ∷ counted n (suc first) f

module _ {World : Type 0} (x : Device World) (c : Crypto World) where
  abbrev outside : {A : Type 0} → (World → A × World) → State (Report World) A
  outside f r = let (a, w) = f r.world in (a, record r { world = w })

  abbrev outside_only : (World → World) → State (Report World) (Unit {0})
  outside_only f r = (tt, record r { world = f r.world })

  -- `sceKernelGetProcessTimeWide() - started`
  abbrev since : ℕ → ℕ → ℕ
  since started now = u64 (u64 now + (2 ^ 64 - u64 started))

  -- The file is opened anew; one that is still open is closed.
  unfoldable pub begin_report : State (Report World) (Unit {0})
  begin_report r =
      let closed = if is_neg r.log_fd then r.world else x.close_file r.log_fd r.world in
      let (fd, w) = x.open_log (x.make_directory closed) in
      (tt, record { lines = []; log_fd = fd; world = w })

  -- A digest has 32 bytes; the buffers start with `filler`, which the source leaves open.
  unfoldable pub blake_vector : (filler : Bytes) → State (Report World) Bool
  blake_vector filler = do
    let (decoded, expected) = decode_hex blake_expected_hex filler
    let blake_vector_ok = decoded && same (c.blake2s 32 [] []) expected
    log_line x blake_vector_ok (blake2s_vector blake_vector_ok)
    pure blake_vector_ok

  -- `keys_ok`, and what the three buffers hold; `&&` ends at the first text that is no number.
  unfoldable pub known_keys : (filler : Bytes) → Bool × Bytes × Bytes × Bytes
  known_keys filler =
      let (first, alice_private) = decode_hex alice_private_hex filler in
      let (second, alice_public) =
        if first then decode_hex alice_public_hex filler else (false, filler) in
      let (third, bob_public) =
        if second then decode_hex bob_public_hex filler else (false, filler) in
      (third, alice_private, alice_public, bob_public)

  unfoldable pub x25519_test :
      (keys_ok : Bool) (alice_private alice_public : Bytes) → State (Report World) Bool
  x25519_test keys_ok alice_private alice_public = do
    started ← outside c.process_time
    let (result, calculated) = c.x25519 alice_private c.base_point
    ended ← outside c.process_time
    let x25519_ok = keys_ok && int_is result 0 && same calculated alice_public
    log_line x x25519_ok (x25519_vector x25519_ok (since started ended))
    pure x25519_ok

  unfoldable pub aead_test : State (Report World) Bool
  aead_test = do
    let key = counted 32 0 (λ n. n)
    let plaintext = counted 128 0 (λ n. bit_xor n 165)
    started ← outside c.process_time
    let (opened, decrypted) = c.aead_decrypt (c.aead_encrypt plaintext [] 7 key) [] 7 key
    ended ← outside c.process_time
    let aead_ok = opened && same decrypted plaintext
    log_line x aead_ok (aead_roundtrip aead_ok (since started ended))
    pure aead_ok

  -- The calls up to the first that fails; the type of a message that was not made is 0.
  unfoldable pub initiate :
      (keys_ok : Bool) (alice_private bob_public : Bytes) → World → (Bool × ℕ) × World
  initiate keys_ok alice_private bob_public w =
      if keys_ok
      then (let (device_ok, w1) = c.device_init alice_private w in
          if device_ok
          then (let (has_peer, w2) = c.peer_alloc w1 in
              if has_peer
              then (let (peer_ok, w3) = c.peer_init bob_public w2 in
                  if peer_ok then c.create_initiation w3 else ((false, 0), w3))
              else ((false, 0), w2))
          else ((false, 0), w1))
      else ((false, 0), w)

  unfoldable pub handshake_test :
      (keys_ok : Bool) (alice_private bob_public : Bytes) → State (Report World) Bool
  unfolding initiate
  handshake_test keys_ok alice_private bob_public = do
    outside_only c.wireguard_init
    started ← outside c.process_time
    created ← outside (initiate keys_ok alice_private bob_public)
    ended ← outside c.process_time
    let handshake_ok = created.0 && created.1 == c.message_handshake_initiation
    log_line x handshake_ok (noise_initiation handshake_ok (since started ended))
    pure handshake_ok

  unfoldable pub random_test : State (Report World) Bool
  random_test = do
    r ← get
    let random_error = c.random_error r.world
    log_line x (int_is random_error 0) (kernel_random random_error)
    pure (int_is random_error 0)

  -- `delta_kib`
  abbrev pub difference : ℕ → ℕ → ℤ
  difference before after =
      if leb (after / 1024) (before / 1024)
      then pos (before / 1024 - after / 1024)
      else neg (after / 1024 - before / 1024)

  -- The line on the memory, if both calls gave it.
  unfoldable pub memory_line : (before : ℤ × ℕ) → State (Report World) (Unit {0})
  memory_line before = if is_neg before.0 then pure tt else do
    after ← outside c.free_memory
    if is_neg after.0
        then pure tt
        else log_line x true
            (memory (before.1 / 1024 / 1024) (after.1 / 1024 / 1024) (difference before.1 after.1))

  unfoldable pub end_report : State (Report World) (Unit {0})
  end_report r =
      if is_neg r.log_fd
      then (tt, r)
      else (tt, record r { log_fd = negsuc 0; world = x.close_file r.log_fd r.world })

  unfoldable pub run_tests : (filler : Bytes) → State (Report World) Bool
  unfolding blake_vector known_keys x25519_test aead_test handshake_test random_test
  run_tests filler = do
    blake_vector_ok ← blake_vector filler
    let (keys_ok, alice_private, alice_public, bob_public) = known_keys filler
    x25519_ok ← x25519_test keys_ok alice_private alice_public
    aead_ok ← aead_test
    handshake_ok ← handshake_test keys_ok alice_private bob_public
    random_ok ← random_test
    pure (blake_vector_ok && x25519_ok && aead_ok && handshake_ok && random_ok)

  unfoldable pub run_probe : (filler : Bytes) → State (Report World) (Unit {0})
  unfolding begin_report run_tests memory_line end_report
  run_probe filler = do
    begin_report
    log_line x true begins
    before ← outside c.free_memory
    all_ok ← run_tests filler
    memory_line before
    log_line x all_ok (verdict all_ok)
    outside_only c.zero_secrets
    end_report
