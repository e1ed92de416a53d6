-- ===== src/Shim.antt =====
-- moonlight/socket_shim.c: the linker's `--wrap` shim that sends the sockets of Moonlight to lwIP.
-- This file has the shim's own state, the calls that it makes of code outside the repository, and
-- the state monad that its functions are written in.
--
-- The two socket implementations, `tsvita_trace`, `calloc`, the clock and the constants of the
-- system's headers are the fields of `Stacks`. `World` is all the state behind them, the memory that
-- the callers' pointers lead to included, so a pointer is a number that is only passed on. `errno`
-- is part of what each call may change. The text of a trace message is not modelled.
pub mod Calls
pub mod Connect
pub mod Poll
pub mod Select
pub mod Resolve
pub mod Entries
pub mod Tables
use Prim.Native.Nat.{bit_and}
use moonlight_tailscale_vita.Common.{
  ℕ, ◌+◌, ◌-◌, ◌^◌, Bool, true, false, ◌&&◌, Option, List, ℤ, pos, negsuc, leb, ltb, ◌==◌,
  if◌then◌else◌, get_or, set, replicate, u32, u64,
}

-- A call of either implementation. `ioctl` is lwIP's with FIONBIO; `fcntl_plain` has no argument.
pub data Call : Type 0 where
  socket : (domain type protocol : ℕ) → Call
  connect : (fd : ℤ) (address length : ℕ) → Call
  bind : (fd : ℤ) (address length : ℕ) → Call
  listen : (fd : ℤ) (backlog : ℕ) → Call
  accept : (fd : ℤ) (address length : ℕ) → Call
  send : (fd : ℤ) (buffer length flags : ℕ) → Call
  recv : (fd : ℤ) (buffer length flags : ℕ) → Call
  sendto : (fd : ℤ) (buffer length flags address address_length : ℕ) → Call
  recvfrom : (fd : ℤ) (buffer length flags address address_length : ℕ) → Call
  shutdown : (fd : ℤ) (how : ℕ) → Call
  close : (fd : ℤ) → Call
  read : (fd : ℤ) (buffer length : ℕ) → Call
  write : (fd : ℤ) (buffer length : ℕ) → Call
  fcntl : (fd : ℤ) (command value : ℕ) → Call
  fcntl_plain : (fd : ℤ) (command : ℕ) → Call
  setsockopt : (fd : ℤ) (level option : ℕ) (value : Option ℕ) (length : ℕ) → Call
  ioctl : (fd : ℤ) (enabled : Bool) → Call
  getsockopt : (fd : ℤ) (level option value length : ℕ) → Call
  getsockname : (fd : ℤ) (address length : ℕ) → Call
  getpeername : (fd : ℤ) (address length : ℕ) → Call

pub record PollFd : Type 0 where
  pub fd : ℤ
  pub events : ℕ
  pub revents : ℕ

-- `fd_set`: the members.
abbrev pub FdSet : Type 0
FdSet = ℕ → Bool

-- The three sets of `select`; a NULL pointer is `none`.
pub record FdSets : Type 0 where
  pub read_set : Option FdSet
  pub write_set : Option FdSet
  pub error_set : Option FdSet

-- `struct timeval`
pub record Timeval : Type 0 where
  pub tv_sec : ℕ
  pub tv_usec : ℕ

-- What the shim reads and writes of a `struct addrinfo`.
pub record AddrInfo : Type 0 where
  pub ai_family : ℕ
  pub ai_addrlen : ℕ

-- The pointers that `getaddrinfo` is given.
pub record Lookup : Type 0 where
  pub node : ℕ
  pub service : ℕ
  pub hints : ℕ

-- `errno` and everything behind the calls.
pub record Os (World : Type 0) : Type 0 where
  pub errno : ℕ
  pub world : World

-- The constants of the system's headers.
pub record Constants : Type 0 where
  pub af_inet : ℕ
  pub sock_dgram : ℕ
  pub sol_socket : ℕ
  pub so_nonblock : ℕ
  pub so_rcvtimeo : ℕ
  pub so_error : ℕ
  pub f_getfl : ℕ
  pub f_setfl : ℕ
  pub f_getfd : ℕ
  pub f_setfd : ℕ
  pub f_getown : ℕ
  pub fd_cloexec : ℕ
  pub o_nonblock : ℕ
  pub pollout_err_hup : ℕ
  pub einprogress : ℕ
  pub etimedout : ℕ
  pub einval : ℕ
  pub enoprotoopt : ℕ
  pub enomem : ℕ
  pub sockaddr_in_size : ℕ

-- What the shim calls. `lwip_so_error` is lwIP's getsockopt with SO_ERROR, with the value that it
-- stores; a poll returns its array, and a select its three sets. `now` is the process clock in
-- microseconds, of which the code reads 64 bits.
pub record Stacks (World : Type 0) : Type 0 where
  pub constants : Constants
  pub open constants use *
  pub lwip : Call → Os World → ℤ × Os World
  pub real : Call → Os World → ℤ × Os World
  pub lwip_so_error : ℤ → Os World → ℤ × ℕ × Os World
  pub lwip_poll : List PollFd → ℤ → Os World → ℤ × List PollFd × Os World
  pub real_poll : List PollFd → ℤ → Os World → ℤ × List PollFd × Os World
  pub lwip_select : ℕ → FdSets → Os World → ℤ × FdSets × Os World
  pub real_select : ℕ → FdSets → Option Timeval → Os World → ℤ × FdSets × Os World
  pub lwip_getaddrinfo : Lookup → Os World → ℤ × List AddrInfo × Os World
  pub real_getaddrinfo : Lookup → Os World → ℤ × List AddrInfo × Os World
  pub lwip_freeaddrinfo : ℕ → Os World → Os World
  pub real_freeaddrinfo : ℕ → Os World → Os World
  pub ensure_started : Os World → ℤ × Os World
  pub is_online : World → Bool
  pub trace : Os World → Os World
  pub calloc : ℕ → Os World → Bool × Os World
  pub now : World → ℕ
  pub delay : ℕ → Os World → Os World

abbrev pub fd_first : ℕ
fd_first = 128

abbrev pub fd_last : ℕ
fd_last = 191

abbrev pub trace_limit : ℕ
trace_limit = 256

abbrev pub mux_slice_us : ℕ
mux_slice_us = 1000

abbrev pub connect_wait_ms : ℕ
connect_wait_ms = 5000

-- The shim's variables: `g_trace_events`, `g_virtual_fd_flags`, `g_virtual_socket_types`.
pub record Shim (World : Type 0) : Type 0 where
  pub trace_events : ℕ
  pub fd_flags : List ℕ
  pub socket_types : List ℕ
  pub os : Os World

abbrev pub M : Type 0 → Type 0 → Type 0
M World A = Shim World → A × Shim World

module _ {World : Type 0} where
  infixl 5 ◌>>=◌ ◌>>◌
  abbrev pub ◌>>=◌ : {A B : Type 0} → M World A → (A → M World B) → M World B
  ◌>>=◌ m f s = let (a, s') = m s in f a s'

  abbrev pub ◌>>◌ : {B : Type 0} → M World (Unit {0}) → M World B → M World B
  m >> k = m >>= λ _. k

  abbrev pub pure : {A : Type 0} → A → M World A
  pure a s = (a, s)

  -- A call of something outside.
  abbrev pub outside : {A : Type 0} → (Os World → A × Os World) → M World A
  outside f s = let (a, os') = f s.os in (a, record s { os = os' })

  abbrev pub outside_pair : {A B : Type 0} → (Os World → A × B × Os World) → M World (A × B)
  outside_pair f s = let (a, b, os') = f s.os in ((a, b), record s { os = os' })

  abbrev pub get_errno : M World ℕ
  get_errno s = (s.os.errno, s)

  abbrev pub set_errno : ℕ → M World (Unit {0})
  set_errno e s = (tt, record s { os = record { errno = e; world = s.os.world } })

  -- `sceKernelGetProcessTimeWide`
  abbrev pub get_time : (World → ℕ) → M World ℕ
  get_time now s = (u64 (now s.os.world), s)

  abbrev pub get_flags : ℕ → M World ℕ
  get_flags i s = (get_or s.fd_flags i 0, s)

  abbrev pub set_flags : ℕ → ℕ → M World (Unit {0})
  set_flags i v s = (tt, record s { fd_flags = set s.fd_flags i v })

  abbrev pub get_type : ℕ → M World ℕ
  get_type i s = (get_or s.socket_types i 0, s)

  abbrev pub set_type : ℕ → ℕ → M World (Unit {0})
  set_type i v s = (tt, record s { socket_types = set s.socket_types i v })

-- `x & ~mask` on 32 bits
abbrev pub clear_bits : ℕ → ℕ → ℕ
clear_bits x mask = bit_and x (2 ^ 32 - 1 - mask)

unfoldable pub is_virtual_socket : ℤ → Bool
is_virtual_socket (pos n) = leb fd_first n && leb n fd_last
is_virtual_socket (negsuc n) = false

-- Only asked of a virtual descriptor, which is at least 128.
unfoldable pub virtual_socket_index : ℤ → ℕ
virtual_socket_index (pos n) = n - fd_first
virtual_socket_index (negsuc n) = 0

module _ {World : Type 0} (x : Stacks World) where
  -- At most `trace_limit` events are traced; `tsvita_trace` may change `errno`.
  unfoldable pub trace_socket_event : M World (Unit {0})
  trace_socket_event s =
      if leb trace_limit s.trace_events
      then (tt, s)
      else (tt, record s { trace_events = u32 (s.trace_events + 1); os = x.trace s.os })

  -- `saved_errno = errno; trace_socket_event(…); errno = saved_errno;`
  unfoldable pub trace_keeping_errno : M World (Unit {0})
  unfolding trace_socket_event
  trace_keeping_errno = do saved_errno ← get_errno; trace_socket_event; set_errno saved_errno

  -- The shape of the traced wrappers: the call, then its trace.
  unfoldable pub traced : Call → M World ℤ
  unfolding trace_keeping_errno
  traced c = do result ← outside (x.lwip c); trace_keeping_errno; pure result

-- Before the first call of the shim.
abbrev pub initial : {World : Type 0} → Os World → Shim World
initial os = record {
  trace_events = 0;
  fd_flags = replicate 64 0;
  socket_types = replicate 64 0;
  os = os;
}
