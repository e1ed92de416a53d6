-- ===== src/Shim/Calls.antt =====
-- The wrappers that only choose between lwIP and the system, and those that keep the descriptor
-- flags and the socket types. A `ssize_t` or `int` result is an integer, -1 is `negsuc 0`.
use moonlight_tailscale_vita.Common.{
  ℕ, Bool, not, ◌&&◌, Option, none, some, ℤ, pos, negsuc, int_is, leb, ◌==◌, if◌then◌else◌,
}
use moonlight_tailscale_vita.Shim.{
  Call, socket, bind, listen, accept, send, recv, sendto, recvfrom, shutdown, close, read, write,
  fcntl, fcntl_plain, setsockopt, ioctl, getsockopt, getsockname, getpeername, Stacks, M, ◌>>=◌,
  ◌>>◌, pure, outside, get_errno, set_errno, get_flags, set_flags, get_type, set_type, clear_bits,
  is_virtual_socket, virtual_socket_index, trace_socket_event, traced,
}

module _ {World : Type 0} (x : Stacks World) where
  -- The shape of the wrappers with neither state nor trace.
  unfoldable pub forward : ℤ → Call → M World ℤ
  unfolding is_virtual_socket
  forward fd c = if is_virtual_socket fd then outside (x.lwip c) else outside (x.real c)

  -- The shape of the traced ones.
  unfoldable pub forward_traced : ℤ → Call → M World ℤ
  unfolding is_virtual_socket traced
  forward_traced fd c = if not (is_virtual_socket fd) then outside (x.real c) else traced x c

  unfoldable pub wrap_bind : ℤ → ℕ → ℕ → M World ℤ
  unfolding forward
  wrap_bind fd address length = forward fd (bind fd address length)

  unfoldable pub wrap_listen : ℤ → ℕ → M World ℤ
  unfolding forward
  wrap_listen fd backlog = forward fd (listen fd backlog)

  unfoldable pub wrap_accept : ℤ → ℕ → ℕ → M World ℤ
  unfolding forward
  wrap_accept fd address length = forward fd (accept fd address length)

  unfoldable pub wrap_send : ℤ → ℕ → ℕ → ℕ → M World ℤ
  unfolding forward_traced
  wrap_send fd buffer length flags = forward_traced fd (send fd buffer length flags)

  unfoldable pub wrap_recv : ℤ → ℕ → ℕ → ℕ → M World ℤ
  unfolding forward_traced
  wrap_recv fd buffer length flags = forward_traced fd (recv fd buffer length flags)

  unfoldable pub wrap_sendto : ℤ → ℕ → ℕ → ℕ → ℕ → ℕ → M World ℤ
  unfolding forward
  wrap_sendto fd buffer length flags address address_length =
      forward fd (sendto fd buffer length flags address address_length)

  unfoldable pub wrap_recvfrom : ℤ → ℕ → ℕ → ℕ → ℕ → ℕ → M World ℤ
  unfolding forward
  wrap_recvfrom fd buffer length flags address address_length =
      forward fd (recvfrom fd buffer length flags address address_length)

  unfoldable pub wrap_shutdown : ℤ → ℕ → M World ℤ
  unfolding forward_traced
  wrap_shutdown fd how = forward_traced fd (shutdown fd how)

  unfoldable pub wrap_read : ℤ → ℕ → ℕ → M World ℤ
  unfolding forward
  wrap_read fd buffer length = forward fd (read fd buffer length)

  unfoldable pub wrap_write : ℤ → ℕ → ℕ → M World ℤ
  unfolding forward
  wrap_write fd buffer length = forward fd (write fd buffer length)

  unfoldable pub wrap_getsockopt : ℤ → ℕ → ℕ → ℕ → ℕ → M World ℤ
  unfolding forward_traced
  wrap_getsockopt fd level option value length =
      forward_traced fd (getsockopt fd level option value length)

  unfoldable pub wrap_getsockname : ℤ → ℕ → ℕ → M World ℤ
  unfolding forward
  wrap_getsockname fd address length = forward fd (getsockname fd address length)

  unfoldable pub wrap_getpeername : ℤ → ℕ → ℕ → M World ℤ
  unfolding forward
  wrap_getpeername fd address length = forward fd (getpeername fd address length)

  -- The tables' entries of a descriptor that lwIP just gave out.
  unfoldable pub remember_socket : ℤ → ℕ → M World (Unit {0})
  unfolding is_virtual_socket virtual_socket_index
  remember_socket fd type =
      if is_virtual_socket fd
      then (do set_flags (virtual_socket_index fd) 0; set_type (virtual_socket_index fd) type)
      else pure tt

  -- `__wrap_socket` on an IPv4 socket while the tunnel is up.
  unfoldable pub lwip_socket : ℕ → ℕ → ℕ → M World ℤ
  unfolding remember_socket trace_socket_event
  lwip_socket domain type protocol = do
    result ← outside (x.lwip (socket domain type protocol))
    saved_errno ← get_errno
    remember_socket result type
    trace_socket_event x
    set_errno saved_errno
    pure result

  -- The tunnel is started only for an IPv4 socket.
  unfoldable pub wrap_socket : ℕ → ℕ → ℕ → M World ℤ
  unfolding lwip_socket
  wrap_socket domain type protocol =
      if domain == x.af_inet
      then (do
        started ← outside x.ensure_started
        if int_is started 0
            then lwip_socket domain type protocol
            else outside (x.real (socket domain type protocol)))
      else outside (x.real (socket domain type protocol))

  unfoldable pub forget_socket : ℤ → ℤ → M World (Unit {0})
  unfolding virtual_socket_index
  forget_socket fd result =
      if int_is result 0
      then (do set_flags (virtual_socket_index fd) 0; set_type (virtual_socket_index fd) 0)
      else pure tt

  unfoldable pub lwip_close : ℤ → M World ℤ
  unfolding forget_socket trace_socket_event
  lwip_close fd = do
    result ← outside (x.lwip (close fd))
    saved_errno ← get_errno
    forget_socket fd result
    trace_socket_event x
    set_errno saved_errno
    pure result

  unfoldable pub wrap_close : ℤ → M World ℤ
  unfolding is_virtual_socket lwip_close
  wrap_close fd = if not (is_virtual_socket fd) then outside (x.real (close fd)) else lwip_close fd

  -- Which commands come with an argument.
  abbrev pub has_argument : ℕ → Bool
  has_argument command =
      not (command == x.f_getfl) && not (command == x.f_getfd) && not (command == x.f_getown)

  unfoldable pub fcntl_getfd : ℤ → M World ℤ
  unfolding virtual_socket_index trace_socket_event
  fcntl_getfd fd = do
    result ← get_flags (virtual_socket_index fd)
    trace_socket_event x
    set_errno 0
    pure (pos result)

  unfoldable pub fcntl_setfd : ℤ → ℕ → M World ℤ
  unfolding virtual_socket_index trace_socket_event
  fcntl_setfd fd value =
      if not (clear_bits value x.fd_cloexec == 0)
      then (do trace_socket_event x; set_errno x.einval; pure (negsuc 0))
      else (do
        set_flags (virtual_socket_index fd) value
        trace_socket_event x
        set_errno 0
        pure (pos 0))

  unfoldable pub virtual_fcntl : ℤ → ℕ → ℕ → M World ℤ
  unfolding fcntl_getfd fcntl_setfd traced
  virtual_fcntl fd command value =
      if command == x.f_getfd
      then fcntl_getfd fd
      else if command == x.f_setfd
      then fcntl_setfd fd value
      else traced x (fcntl fd command value)

  -- The argument is read only of a command that has one, and is 0 otherwise.
  unfoldable pub wrap_fcntl : ℤ → ℕ → ℕ → M World ℤ
  unfolding is_virtual_socket virtual_fcntl
  wrap_fcntl fd command argument =
      let value = if has_argument command then argument else 0 in
      if is_virtual_socket fd
      then virtual_fcntl fd command value
      else if has_argument command
      then outside (x.real (fcntl fd command value))
      else outside (x.real (fcntl_plain fd command))

  -- Reporting SO_RCVTIMEO as unsupported.
  unfoldable pub refuse_timeout : M World ℤ
  unfolding trace_socket_event
  refuse_timeout = do trace_socket_event x; set_errno x.enoprotoopt; pure (negsuc 0)

  -- The tests behind that for SO_NONBLOCK.
  unfoldable pub setsockopt_or_refuse : ℤ → ℕ → ℕ → Option ℕ → ℕ → M World ℤ
  unfolding virtual_socket_index refuse_timeout
  setsockopt_or_refuse fd level option value length = do
    type ← get_type (virtual_socket_index fd)
    if level == x.sol_socket && option == x.so_rcvtimeo && type == x.sock_dgram
        then refuse_timeout
        else outside (x.lwip (setsockopt fd level option value length))

  -- `value` is the `int` behind the pointer, `none` for NULL; `sizeof(int)` is 4.
  unfoldable pub virtual_setsockopt : ℤ → ℕ → ℕ → Option ℕ → ℕ → M World ℤ
  unfolding setsockopt_or_refuse
  virtual_setsockopt fd level option (some value) length =
      if level == x.sol_socket && option == x.so_nonblock && leb 4 length
      then outside (x.lwip (ioctl fd (not (value == 0))))
      else setsockopt_or_refuse fd level option (some value) length
  virtual_setsockopt fd level option none length = setsockopt_or_refuse fd level option none length

  unfoldable pub wrap_setsockopt : ℤ → ℕ → ℕ → Option ℕ → ℕ → M World ℤ
  unfolding is_virtual_socket virtual_setsockopt
  wrap_setsockopt fd level option value length =
      if not (is_virtual_socket fd)
      then outside (x.real (setsockopt fd level option value length))
      else virtual_setsockopt fd level option value length
