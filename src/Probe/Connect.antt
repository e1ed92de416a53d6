-- ===== src/Probe/Connect.antt =====
-- `connect_is_in_progress` and `test_tcp_connect`: a nonblocking connect to port 443, waited for with
-- an epoll.
use moonlight_tailscale_vita.Common.{
  ℕ, Bool, ◌&&◌, ◌||◌, ℤ, pos, negsuc, neg, is_neg, is_pos, int_is, ◌==◌, if◌then◌else◌,
}
use moonlight_tailscale_vita.Common.State.{State, ◌>>=◌, ◌>>◌, pure, get, modify}
use moonlight_tailscale_vita.Probe.{Net, to_unsigned}

-- The names that `stage` takes.
pub data Stage : Type 0 where
  at_socket : Stage
  at_nonblocking : Stage
  at_connect : Stage
  at_epoll_create : Stage
  at_epoll_control : Stage
  at_epoll_wait : Stage
  at_socket_error : Stage
  at_timeout : Stage
  connected : Stage

-- `TcpProbeDetail`
pub record Detail : Type 0 where
  pub stage : Stage
  pub final_result : ℤ
  pub connect_result : ℤ
  pub connect_errno : ℕ
  pub epoll_result : ℤ
  pub epoll_events : ℕ
  pub socket_error : ℤ

abbrev pub no_detail : Detail
no_detail = record {
  stage = at_socket;
  final_result = pos 0;
  connect_result = pos 0;
  connect_errno = 0;
  epoll_result = pos 0;
  epoll_events = 0;
  socket_error = pos 0;
}

abbrev pub tcp_connect_timeout_us : ℕ
tcp_connect_timeout_us = 3000000

-- `error == 0 ? 0 : (error < 0 ? error : -error)`
abbrev pub as_result : ℤ → ℤ
as_result (pos n) = neg n
as_result (negsuc n) = negsuc n

module _ {World : Type 0} (x : Net World) where
  -- What the function fills in, and the system.
  abbrev pub Test : Type 0
  Test = Detail × World

  abbrev outside : {A : Type 0} → (World → A × World) → State Test A
  outside f (d, w) = let (a, w') = f w in (a, (d, w'))

  abbrev outside_only : (World → World) → State Test (Unit {0})
  outside_only f (d, w) = (tt, (d, f w))

  abbrev at : Stage → State Test (Unit {0})
  at stage (d, w) = (tt, (record d { stage = stage }, w))

  unfoldable pub connect_is_in_progress : ℤ → ℕ → Bool
  connect_is_in_progress result network_errno =
      network_errno == x.einprogress
      || network_errno == x.ewouldblock
      || to_unsigned result == x.error_einprogress
      || to_unsigned result == x.error_ewouldblock

  -- SO_ERROR, once the socket is ready.
  unfoldable pub read_socket_error : ℤ → ℕ → State Test ℤ
  read_socket_error socket events (d, w) =
      let (result, error, w') = x.so_error socket w in
      let ready = record d {
        epoll_events = events;
        socket_error = error;
        stage = at_socket_error;
      } in
      if is_neg result then (result, (ready, w')) else (
        as_result error,
        (
          record ready {
            stage = if int_is (as_result error) 0 then connected else at_socket_error;
          },
          w',
        ),
      )

  unfoldable pub wait_ready : ℤ → ℤ → State Test ℤ
  unfolding read_socket_error
  wait_ready epoll socket (d, w) =
      let (result, events, w') = x.epoll_wait epoll tcp_connect_timeout_us w in
      let waited = record d { stage = at_epoll_wait; epoll_result = result } in
      if is_pos result
      then read_socket_error socket events (waited, w')
      else if int_is result 0
      then (neg x.etimedout, (record waited { stage = at_timeout }, w'))
      else (result, (waited, w'))

  -- The epoll, from its control to its end.
  unfoldable pub use_epoll : ℤ → ℤ → State Test ℤ
  unfolding wait_ready
  use_epoll epoll socket = do
    at at_epoll_control
    added ← outside (x.epoll_add epoll socket)
    result ← if is_neg added then pure added else wait_ready epoll socket
    outside_only (x.epoll_destroy epoll)
    pure result

  -- The end of the function.
  unfoldable pub close_with : ℤ → ℤ → State Test ℤ
  close_with socket result = do
    outside_only (x.close socket)
    modify (λ t. (record t.0 { final_result = result }, t.1))
    pure result

  unfoldable pub wait_connected : ℤ → State Test ℤ
  unfolding use_epoll close_with
  wait_connected socket = do
    at at_epoll_create
    epoll ← outside x.epoll_create
    if is_neg epoll
        then close_with socket epoll
        else do result ← use_epoll epoll socket; close_with socket result

  unfoldable pub connect_socket : ℤ → ℕ → State Test ℤ
  unfolding connect_is_in_progress wait_connected close_with
  connect_socket socket address = do
    at at_connect
    result ← outside (x.connect socket address 443)
    modify (λ t. (record t.0 { connect_result = result; connect_errno = x.net_errno t.1 }, t.1))
    t ← get
    if is_neg result && connect_is_in_progress result t.0.connect_errno
        then wait_connected socket
        else if is_neg result
        then close_with socket result
        else do at connected; close_with socket (pos 0)

  unfoldable pub test_tcp_connect : ℕ → World → ℤ × Test
  unfolding connect_socket close_with
  test_tcp_connect address w =
      let (socket, w') = x.tcp_socket w in
      if is_neg socket
      then (socket, (record no_detail { final_result = socket }, w'))
      else (let (result, w'') = x.set_nonblocking socket w' in
          let set = record no_detail { stage = at_nonblocking } in
          if is_neg result
          then close_with socket result (set, w'')
          else connect_socket socket address (set, w''))
