-- ===== src/Shim/Connect.antt =====
-- `__wrap_connect`: the handshake is made in blocking mode, and the descriptor's own mode is
-- restored before the connected socket goes back to the caller.
pub mod Mode
use Prim.Native.Nat.{bit_and}
use moonlight_tailscale_vita.Common.{
  ℕ, ◌+◌, Bool, true, false, not, ◌&&◌, ◌||◌, [], ◌∷◌, ℤ, pos, negsuc, is_neg, is_pos, int_is, ◌==◌,
  if◌then◌else◌,
}
use moonlight_tailscale_vita.Shim.{
  connect, fcntl, PollFd, Stacks, M, ◌>>=◌, ◌>>◌, pure, outside, outside_pair, get_errno, set_errno,
  clear_bits, is_virtual_socket, trace_socket_event, connect_wait_ms,
}

-- A result with the `errno` that goes with it.
abbrev pub Outcome : Type 0
Outcome = ℤ × ℕ

module _ {World : Type 0} (x : Stacks World) where
  -- `socket_flags >= 0 && (socket_flags & O_NONBLOCK) != 0`
  abbrev pub is_nonblocking : ℤ → Bool
  is_nonblocking (pos flags) = not (bit_and flags x.o_nonblock == 0)
  is_nonblocking (negsuc n) = false

  abbrev pub flag_bits : ℤ → ℕ
  flag_bits (pos flags) = flags
  flag_bits (negsuc n) = 0

  -- `restore_nonblocking`: the mode was nonblocking and has been changed.
  unfoldable pub enter_blocking : ℤ → ℤ → M World Bool
  enter_blocking fd socket_flags =
      if is_nonblocking socket_flags
      then (do
        blocking_result ←
            outside (x.lwip (fcntl fd x.f_setfl (clear_bits (flag_bits socket_flags) x.o_nonblock)))
        trace_socket_event x
        pure (int_is blocking_result 0))
      else do trace_socket_event x; pure false

  unfoldable pub restore_mode : ℤ → ℤ → Bool → Outcome → M World Outcome
  restore_mode fd socket_flags restore (result, saved_errno) =
      if restore
      then (do
        restore_result ← outside (x.lwip (fcntl fd x.f_setfl (flag_bits socket_flags)))
        restore_errno ← get_errno
        trace_socket_event x
        pure (
            if int_is result 0 && not (int_is restore_result 0)
            then (negsuc 0, restore_errno)
            else (result, saved_errno)))
      else pure (result, saved_errno)

  -- SO_ERROR, asked for only after a poll that found something.
  unfoldable pub pending_error : ℤ → ℤ → M World (ℤ × ℕ)
  pending_error fd poll_result =
      if is_pos poll_result then outside_pair (x.lwip_so_error fd) else pure (negsuc 0, 0)

  -- What a pending connect came to.
  abbrev pub settle : ℤ → ℤ → ℕ → ℕ → ℤ → Outcome
  settle result poll_result poll_errno socket_error option_result =
      if is_pos poll_result && int_is option_result 0 && socket_error == 0
      then (pos 0, 0)
      else if not (socket_error == 0)
      then (result, socket_error)
      else if int_is poll_result 0
      then (result, x.etimedout)
      else (result, poll_errno)

  unfoldable pub finish_pending : ℤ → Outcome → M World Outcome
  unfolding pending_error
  finish_pending fd (result, saved_errno) =
      if is_neg result && saved_errno == x.einprogress
      then (do
        (poll_result, descriptors) ← outside_pair (
            x.lwip_poll (record { fd = fd; events = x.pollout_err_hup; revents = 0 } ∷ [])
              (pos connect_wait_ms))
        poll_errno ← get_errno
        (option_result, socket_error) ← pending_error fd poll_result
        trace_socket_event x
        pure (settle result poll_result poll_errno socket_error option_result))
      else pure (result, saved_errno)

  unfoldable pub virtual_connect : ℤ → ℕ → ℕ → M World ℤ
  virtual_connect fd address length = do
    trace_socket_event x
    socket_flags ← outside (x.lwip (fcntl fd x.f_getfl 0))
    restore ← enter_blocking fd socket_flags
    result ← outside (x.lwip (connect fd address length))
    saved_errno ← get_errno
    restored ← restore_mode fd socket_flags restore (result, saved_errno)
    (final, final_errno) ← finish_pending fd restored
    trace_socket_event x
    set_errno final_errno
    pure final

  unfoldable pub wrap_connect : ℤ → ℕ → ℕ → M World ℤ
  unfolding is_virtual_socket virtual_connect
  wrap_connect fd address length =
      if is_virtual_socket fd
      then virtual_connect fd address length
      else outside (x.real (connect fd address length))
