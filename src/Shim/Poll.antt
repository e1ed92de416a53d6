-- ===== src/Shim/Poll.antt =====
-- `__wrap_poll`: with descriptors of lwIP in the array, lwIP is sampled without blocking in slices of
-- a millisecond, and so is the system if descriptors of its own stand in the array too.
pub mod Timeout
pub mod Mixed
pub mod MixedReturns
use Prim.Native.Nat.{bit_or}
use moonlight_tailscale_vita.Common.{
  ℕ, zero, suc, ◌+◌, ◌-◌, ◌*◌, ◌^◌, Bool, true, false, not, ◌&&◌, ◌||◌, Option, none, some, List,
  [], ◌∷◌, map, ℤ, pos, negsuc, is_neg, is_pos, int_is, to_nat, length, leb, ltb, ◌==◌,
  if◌then◌else◌, u64,
}
use moonlight_tailscale_vita.Shim.{
  PollFd, Os, Stacks, Shim, M, ◌>>=◌, ◌>>◌, pure, outside, outside_pair, get_errno, set_errno,
  get_time, is_virtual_socket, trace_socket_event, trace_keeping_errno, mux_slice_us,
}

unfoldable pub poll_has_virtual : List PollFd → Bool
unfolding is_virtual_socket
poll_has_virtual [] = false
poll_has_virtual (d ∷ ds) = is_virtual_socket d.fd || poll_has_virtual ds

unfoldable pub poll_has_real : List PollFd → Bool
unfolding is_virtual_socket
poll_has_real [] = false
poll_has_real (d ∷ ds) = (not (is_neg d.fd) && not (is_virtual_socket d.fd)) || poll_has_real ds

-- The array with each descriptor of the other side set to -1.
unfoldable pub virtual_part : PollFd → PollFd
unfolding is_virtual_socket
virtual_part d = if is_virtual_socket d.fd then d else record d { fd = negsuc 0 }

unfoldable pub real_part : PollFd → PollFd
unfolding is_virtual_socket
real_part d = if is_virtual_socket d.fd then record d { fd = negsuc 0 } else d

-- `descriptors[i].revents = virtual_set[i].revents | real_set[i].revents`
unfoldable pub merge : List PollFd → List PollFd → List PollFd → List PollFd
merge (d ∷ ds) (v ∷ vs) (r ∷ rs) =
    record d { revents = bit_or v.revents r.revents } ∷ merge ds vs rs
merge ds vs rs = []

unfoldable pub count_ready : List PollFd → ℕ
count_ready [] = 0
count_ready (d ∷ ds) = (if d.revents == 0 then 0 else 1) + count_ready ds

-- `elapsed >= (uint64_t)timeout * 1000ULL`, for a timeout that is not negative
abbrev pub expired : ℕ → ℕ → ℤ → Bool
expired started now timeout =
    is_pos timeout && leb (u64 (to_nat timeout * 1000)) (u64 (now + 2 ^ 64 - started))

-- A result with the array as the caller finds it.
abbrev pub Polled : Type 0
Polled = ℤ × List PollFd

module _ {World : Type 0} (x : Stacks World) where
  unfoldable pub sleep_slice : M World (Unit {0})
  sleep_slice s = (tt, record s { os = x.delay mux_slice_us s.os })

  -- The loop over lwIP alone, on fuel; `none` means that the fuel ran out.
  unfoldable pub poll_virtual : ℕ → ℕ → ℤ → List PollFd → M World (Option Polled)
  unfolding trace_keeping_errno sleep_slice
  poll_virtual zero started timeout descriptors = pure none
  poll_virtual (suc fuel) started timeout descriptors = do
    (result, sampled) ← outside_pair (x.lwip_poll descriptors (pos 0))
    let again : M World (Option Polled) = do sleep_slice; poll_virtual fuel started timeout sampled
    if not (int_is result 0) || int_is timeout 0
        then (do trace_keeping_errno x; pure (some (result, sampled)))
        else do
          now ← get_time x.now
          if expired started now timeout then pure (some (pos 0, sampled)) else again

  -- One sample of both.
  unfoldable pub sample_both :
      List PollFd → List PollFd → M World (ℤ × List PollFd × ℕ × ℤ × List PollFd × ℕ)
  sample_both virtual_set real_set = do
    (virtual_ready, virtual_set') ← outside_pair (x.lwip_poll virtual_set (pos 0))
    virtual_errno ← get_errno
    (real_ready, real_set') ← outside_pair (x.real_poll real_set (pos 0))
    real_errno ← get_errno
    pure (virtual_ready, virtual_set', virtual_errno, real_ready, real_set', real_errno)

  unfoldable pub poll_both :
      ℕ → ℕ → ℤ → List PollFd → List PollFd → List PollFd → M World (Option Polled)
  unfolding sample_both merge count_ready sleep_slice
  poll_both zero started timeout descriptors virtual_set real_set = pure none
  poll_both (suc fuel) started timeout descriptors virtual_set real_set = do
    (virtual_ready, vs, virtual_errno, real_ready, rs, real_errno) ←
        sample_both virtual_set real_set
    let merged = merge descriptors vs rs
    let again : M World (Option Polled) = do
      sleep_slice
      poll_both fuel started timeout merged vs rs
    if is_neg virtual_ready || is_neg real_ready
        then (do
          set_errno (if is_neg virtual_ready then virtual_errno else real_errno)
          pure (some (negsuc 0, descriptors)))
        else if ltb 0 (count_ready merged) || int_is timeout 0
        then pure (some (pos (count_ready merged), merged))
        else do
          now ← get_time x.now
          if expired started now timeout then pure (some (pos 0, merged)) else again

  -- The two arrays of `calloc`; both are asked for before either is looked at.
  unfoldable pub poll_mixed : ℕ → List PollFd → ℤ → M World (Option Polled)
  unfolding poll_both virtual_part real_part trace_socket_event
  poll_mixed fuel descriptors timeout = do
    virtual_there ← outside (x.calloc (length descriptors))
    real_there ← outside (x.calloc (length descriptors))
    if not virtual_there || not real_there
        then (do set_errno x.enomem; pure (some (negsuc 0, descriptors)))
        else do
          trace_socket_event x
          started ← get_time x.now
          poll_both fuel started timeout descriptors (map virtual_part descriptors)
              (map real_part descriptors)

  unfoldable pub wrap_poll : ℕ → List PollFd → ℤ → M World (Option Polled)
  unfolding poll_has_virtual poll_has_real poll_virtual poll_mixed trace_socket_event
  wrap_poll fuel descriptors timeout =
      if not (poll_has_virtual descriptors)
      then (do answer ← outside_pair (x.real_poll descriptors timeout); pure (some answer))
      else if not (poll_has_real descriptors)
      then (do
        started ← get_time x.now
        trace_socket_event x
        poll_virtual fuel started timeout descriptors)
      else poll_mixed fuel descriptors timeout
