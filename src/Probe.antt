-- ===== src/Probe.antt =====
-- src/main.c, the network probe: its report, its tests of TCP, UDP and packet capture, and the loop
-- that repeats them. `World` is the state behind the system's calls.
pub mod Connect
pub mod Stun
pub mod Handles
pub mod Captured
pub mod Run
use moonlight_tailscale_vita.Common.{ℕ, ◌-◌, ◌%◌, ◌^◌, ℤ, pos, negsuc, Bytes, u32}

-- `(unsigned int)result`
abbrev pub to_unsigned : ℤ → ℕ
to_unsigned (pos n) = u32 n
to_unsigned (negsuc n) = 2 ^ 32 - 1 - u32 n

-- CONTROL_HOST and STUN_HOST
pub data Host : Type 0 where
  control_host : Host
  stun_host : Host

-- The system's sockets, as far as the tests use them. A `handle` is what a call of socket, resolver,
-- epoll or dump gave. `net_errno` is `*sceNetErrnoLoc()`, or 0 where that is NULL. A call with an
-- output has it behind its result.
pub record Net (World : Type 0) : Type 0 where
  pub tcp_socket : World → ℤ × World
  pub udp_socket : World → ℤ × World
  pub set_nonblocking : (socket : ℤ) → World → ℤ × World
  pub set_timeouts : (socket : ℤ) → World → World
  pub connect : (socket : ℤ) (address : ℕ) (port : ℕ) → World → ℤ × World
  pub net_errno : World → ℕ
  pub close : (socket : ℤ) → World → World
  pub epoll_create : World → ℤ × World
  pub epoll_add : (epoll socket : ℤ) → World → ℤ × World
  pub epoll_wait : (epoll : ℤ) (timeout : ℕ) → World → ℤ × ℕ × World
  pub epoll_destroy : (epoll : ℤ) → World → World
  pub so_error : (socket : ℤ) → World → ℤ × ℤ × World
  pub resolver_create : World → ℤ × World
  pub resolver_start : (resolver : ℤ) → Host → World → ℤ × ℕ × World
  pub resolver_destroy : (resolver : ℤ) → World → World
  pub sendto : (socket : ℤ) → Bytes → (address port : ℕ) → World → ℤ × World
  pub recvfrom : (socket : ℤ) (size : ℕ) → World → ℤ × Bytes × World
  pub process_time : World → ℕ
  pub dump_create : World → ℤ × World
  pub dump_read : (dump : ℤ) → World → ℤ × World
  pub dump_destroy : (dump : ℤ) → World → World
  pub delay : ℕ → World → World
  pub einprogress : ℕ
  pub ewouldblock : ℕ
  pub error_einprogress : ℕ
  pub error_ewouldblock : ℕ
  pub etimedout : ℕ
