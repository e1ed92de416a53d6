-- ===== src/Shim/Entries.antt =====
-- The shim's entry points on a descriptor, taken together: what a caller sees of lwIP's answer.
use moonlight_tailscale_vita.Common.{ℕ, Bool, true, false, Option, ℤ, if◌then◌else◌, ◌≡◌, arith}
use moonlight_tailscale_vita.Shim.{
  Call, Stacks, Shim, M, is_virtual_socket, traced, trace_keeping_errno, trace_socket_event,
}
use moonlight_tailscale_vita.Shim.Calls.{
  forward, forward_traced, has_argument, wrap_bind, wrap_listen, wrap_accept, wrap_send, wrap_recv,
  wrap_sendto, wrap_recvfrom, wrap_shutdown, wrap_close, wrap_read, wrap_write, wrap_fcntl,
  wrap_setsockopt, wrap_getsockopt, wrap_getsockname, wrap_getpeername,
}
use moonlight_tailscale_vita.Shim.Connect.{wrap_connect}

-- An entry point with its arguments, but for the descriptor.
pub data Op : Type 0 where
  connect bind accept : (address length : ℕ) → Op
  listen : (backlog : ℕ) → Op
  send recv : (buffer length flags : ℕ) → Op
  sendto recvfrom : (buffer length flags address address_length : ℕ) → Op
  shutdown : (how : ℕ) → Op
  close : Op
  read write : (buffer length : ℕ) → Op
  fcntl : (command argument : ℕ) → Op
  setsockopt : (level option : ℕ) (value : Option ℕ) (length : ℕ) → Op
  getsockopt : (level option value length : ℕ) → Op
  getsockname getpeername : (address length : ℕ) → Op

-- The entry points that only forward, with or without a trace.
abbrev pub only_forwards : Op → Bool
only_forwards (connect a n) = false
only_forwards close = false
only_forwards (fcntl c v) = false
only_forwards (setsockopt l o v n) = false
only_forwards _ = true

module _ {World : Type 0} (x : Stacks World) where
  unfoldable pub run : ℤ → Op → M World ℤ
  run fd (connect a n) = wrap_connect x fd a n
  run fd (bind a n) = wrap_bind x fd a n
  run fd (accept a n) = wrap_accept x fd a n
  run fd (listen b) = wrap_listen x fd b
  run fd (send b n f) = wrap_send x fd b n f
  run fd (recv b n f) = wrap_recv x fd b n f
  run fd (sendto b n f a l) = wrap_sendto x fd b n f a l
  run fd (recvfrom b n f a l) = wrap_recvfrom x fd b n f a l
  run fd (shutdown h) = wrap_shutdown x fd h
  run fd close = wrap_close x fd
  run fd (read b n) = wrap_read x fd b n
  run fd (write b n) = wrap_write x fd b n
  run fd (fcntl c v) = wrap_fcntl x fd c v
  run fd (setsockopt l o v n) = wrap_setsockopt x fd l o v n
  run fd (getsockopt l o v n) = wrap_getsockopt x fd l o v n
  run fd (getsockname a n) = wrap_getsockname x fd a n
  run fd (getpeername a n) = wrap_getpeername x fd a n

  -- The call that the program made, as the implementation behind sees it.
  unfoldable pub as_call : ℤ → Op → Call
  as_call fd (connect a n) = Call.connect fd a n
  as_call fd (bind a n) = Call.bind fd a n
  as_call fd (accept a n) = Call.accept fd a n
  as_call fd (listen b) = Call.listen fd b
  as_call fd (send b n f) = Call.send fd b n f
  as_call fd (recv b n f) = Call.recv fd b n f
  as_call fd (sendto b n f a l) = Call.sendto fd b n f a l
  as_call fd (recvfrom b n f a l) = Call.recvfrom fd b n f a l
  as_call fd (shutdown h) = Call.shutdown fd h
  as_call fd close = Call.close fd
  as_call fd (read b n) = Call.read fd b n
  as_call fd (write b n) = Call.write fd b n
  as_call fd (fcntl c v) = if has_argument x c then Call.fcntl fd c v else Call.fcntl_plain fd c
  as_call fd (setsockopt l o v n) = Call.setsockopt fd l o v n
  as_call fd (getsockopt l o v n) = Call.getsockopt fd l o v n
  as_call fd (getsockname a n) = Call.getsockname fd a n
  as_call fd (getpeername a n) = Call.getpeername fd a n

  -- On one of lwIP's, an entry point that only forwards gives its caller lwIP's result and lwIP's
  -- `errno`, whatever the trace in between does to `errno`, and keeps the tables.
  pub run-virtual :
      (fd : ℤ) (op : Op) (s : Shim World)
      → is_virtual_socket fd ≡ true
      → only_forwards op ≡ true
      → ((run fd op s).0 ≡ (x.lwip (as_call fd op) s.os).0)
        × ((run fd op s).1.os.errno ≡ (x.lwip (as_call fd op) s.os).1.errno)
        × ((run fd op s).1.fd_flags ≡ s.fd_flags)
        × ((run fd op s).1.socket_types ≡ s.socket_types)
  unfolding run as_call wrap_bind wrap_accept wrap_listen wrap_send wrap_recv wrap_sendto
      wrap_recvfrom wrap_shutdown wrap_read wrap_write wrap_getsockopt wrap_getsockname
      wrap_getpeername forward forward_traced traced trace_keeping_errno trace_socket_event
  run-virtual fd (connect a n) s h k = absurd (ground arith)
  run-virtual fd _ s h k = ground arith
