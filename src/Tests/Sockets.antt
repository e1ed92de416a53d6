-- ===== src/Tests/Sockets.antt =====
-- moonlight/socket_shim.c at concrete inputs.
use moonlight_tailscale_vita.Common.{
  ℕ, ◌+◌, ◌≡◌, ◌≢◌, refl, true, false, ◌||◌, none, some, List, [], ◌∷◌, ℤ, pos, negsuc, ◌==◌, sym,
  ap, All, is_neg, if◌then◌else◌, arith,
}
use moonlight_tailscale_vita.Shim.{
  AddrInfo, FdSets, Lookup, Call, socket, fcntl, PollFd, Os, Stacks, Constants, Shim, initial,
  is_virtual_socket, outside, trace_socket_event, trace_keeping_errno,
}
use moonlight_tailscale_vita.Shim.Calls.{
  wrap_socket, lwip_socket, remember_socket, wrap_close, wrap_fcntl, wrap_setsockopt,
}
use moonlight_tailscale_vita.Shim.Entries.{send, close, run, as_call, run-virtual}
use moonlight_tailscale_vita.Shim.Resolve.{lwip_lookup, wrap_getaddrinfo}
use moonlight_tailscale_vita.Shim.Resolve.Connectable.{
  IsConnectable, wrap_getaddrinfo-IsConnectable,
}
use moonlight_tailscale_vita.Shim.Tables.{
  IsWellFormed, initial-IsWellFormed, fcntl_setfd-getfd, wrap_close_lem, flags_of, type_of,
}
use moonlight_tailscale_vita.Shim.Tables.Events.{
  Event, on_socket, make, poll, socket_receive_timeout, run_all,
}
use moonlight_tailscale_vita.Shim.Select.{wrap_select, has_virtual, has_real}
use moonlight_tailscale_vita.Shim.Select.Routed.{AnswersSelects}
use moonlight_tailscale_vita.Shim.Select.Returns.{Answers, wrap_select-Answers}
use moonlight_tailscale_vita.Shim.Poll.{Polled, poll_has_virtual, poll_has_real, wrap_poll}
use moonlight_tailscale_vita.Shim.Poll.Timeout.{KeepsTime, AnswersInTime, wrap_poll-AnswersInTime}
use moonlight_tailscale_vita.Shim.Poll.Mixed.{keys, Answered, AnswersPolls, IsRouted}
use moonlight_tailscale_vita.Shim.Poll.MixedReturns.{has_arrays, begun, wrap_poll-IsRouted}

-- A clock, and the flags of a descriptor.
abbrev World : Type 0
World = ℕ × ℕ

abbrev numbers : Constants
numbers = record {
  af_inet = 2;
  sock_dgram = 2;
  sol_socket = 0xffff;
  so_nonblock = 0x1100;
  so_rcvtimeo = 0x1006;
  so_error = 0x1007;
  f_getfl = 3;
  f_setfl = 4;
  f_getfd = 1;
  f_setfd = 2;
  f_getown = 5;
  fd_cloexec = 1;
  o_nonblock = 0x4000;
  pollout_err_hup = 28;
  einprogress = 119;
  etimedout = 116;
  einval = 22;
  enoprotoopt = 109;
  enomem = 12;
  sockaddr_in_size = 16;
}

answer_call : Call → Os World → ℤ × Os World
answer_call (socket domain type protocol) os = (pos 130, os)
answer_call (fcntl fd command value) os =
    if command == 4
    then (pos 0, record { errno = 0; world = (os.world.0, value) })
    else (pos os.world.1, os)
answer_call _ os = (pos 0, record { errno = 0; world = os.world })

quiet : List PollFd → List PollFd
quiet [] = []
quiet (d ∷ ds) = record d { revents = 0 } ∷ quiet ds

-- An IPv4 address and another one, with the size of `struct sockaddr_storage`.
abbrev found : List AddrInfo
found =
    record { ai_family = 2; ai_addrlen = 128 } ∷ record { ai_family = 24; ai_addrlen = 128 } ∷ []

abbrev stacks : Stacks World
stacks = record {
  constants = numbers;
  lwip = answer_call;
  real = λ c os. (pos 0, os);
  lwip_so_error = λ fd os. (pos 0, 0, os);
  lwip_poll = λ ds t os. (pos 0, quiet ds, os);
  real_poll = λ ds t os. (pos 0, quiet ds, os);
  lwip_select = λ n sets os. (pos 0, sets, os);
  real_select = λ n sets t os. (pos 0, sets, os);
  lwip_getaddrinfo = λ l os. (pos 0, found, os);
  real_getaddrinfo = λ l os. (pos 0, [], os);
  lwip_freeaddrinfo = λ p os. os;
  real_freeaddrinfo = λ p os. os;
  ensure_started = λ os. (pos 0, os);
  is_online = λ w. true;
  trace = λ os. record { errno = 5; world = os.world };
  calloc = λ n os. (true, os);
  now = λ w. w.0;
  delay = λ d os. record { errno = os.errno; world = (os.world.0 + d, os.world.1) };
}

abbrev start_os : Os World
start_os = record { errno = 0; world = (0, 0x4000) }

abbrev begin : Shim World
begin = initial start_os

begin-IsWellFormed : IsWellFormed begin
begin-IsWellFormed = initial-IsWellFormed start_os

stacks-KeepsTime : KeepsTime stacks
stacks-KeepsTime = ground arith

abbrev on_both : List PollFd
on_both =
    record { fd = pos 130; events = 1; revents = 0 }
    ∷ record { fd = pos 5; events = 1; revents = 0 }
    ∷ []

abbrev on_lwip : List PollFd
on_lwip = record { fd = pos 130; events = 1; revents = 0 } ∷ []

keys-quiet : (ds : List PollFd) → keys ds ≡ keys (quiet ds)
unfolding quiet
keys-quiet [] = refl
keys-quiet (d ∷ ds) = ap (◌∷◌ (record d { revents = 0 })) (keys-quiet ds)

none-quiet : (ds : List PollFd) → All (λ d. is_neg d.fd ≡ true → d.revents ≡ 0) (quiet ds)
unfolding quiet
none-quiet [] = tt
none-quiet (d ∷ ds) = (λ h. refl, none-quiet ds)

answers : (ds : List PollFd) → Answered ds (quiet ds)
answers ds = (sym (keys-quiet ds), none-quiet ds)

stacks-AnswersPolls : AnswersPolls stacks
stacks-AnswersPolls = record {
  lwip_answers = λ ds t os. answers ds;
  real_answers = λ ds t os. answers ds;
}

wrap_poll-IsRouted_example :
    let (out, s') = wrap_poll stacks 4 on_both (pos 3) begin in
    (answer : Polled) × (out ≡ some answer)
    × (has_arrays stacks on_both begin ≡ true
        → IsRouted stacks on_both (begun stacks on_both begin) answer s'.os)
    × (has_arrays stacks on_both begin ≡ false
        → (answer ≡ (negsuc 0, on_both)) × (s'.os.errno ≡ 12))
unfolding poll_has_virtual poll_has_real
wrap_poll-IsRouted_example =
    wrap_poll-IsRouted stacks on_both 3 begin stacks-KeepsTime stacks-AnswersPolls (ground arith)
      refl refl

wrap_poll-AnswersInTime_example :
    AnswersInTime stacks 3 0 (wrap_poll stacks 4 on_lwip (pos 3) begin)
unfolding poll_has_virtual poll_has_real
wrap_poll-AnswersInTime_example =
    wrap_poll-AnswersInTime stacks on_lwip 3 begin stacks-KeepsTime (ground arith) refl refl

stacks-AnswersSelects : AnswersSelects stacks
stacks-AnswersSelects = record {
  lwip_answers = λ n sets os kind d h. h;
  real_answers = λ n sets t os kind d h. h;
  lwip_time = λ n sets os. omega arith;
  real_time = λ n sets t os. omega arith;
}

-- Both are read from, and 5 is written to.
abbrev on_either : FdSets
on_either = record {
  read_set = some (λ d. d == 130 || d == 5);
  write_set = some (λ d. d == 5);
  error_set = none;
}

wrap_select-Answers_example :
    Answers stacks 131 0 2500 on_either
      (wrap_select stacks 4 131 on_either (some (record { tv_sec = 0; tv_usec = 2500 })) begin)
unfolding has_virtual has_real is_virtual_socket
wrap_select-Answers_example =
    wrap_select-Answers stacks 131 on_either (record { tv_sec = 0; tv_usec = 2500 }) begin
      stacks-KeepsTime stacks-AnswersSelects (ground arith) refl refl

run-virtual_example :
    ((run stacks (pos 130) (send 1 2 0) begin).0
      ≡ (stacks.lwip (as_call stacks (pos 130) (send 1 2 0)) begin.os).0)
    × ((run stacks (pos 130) (send 1 2 0) begin).1.os.errno
        ≡ (stacks.lwip (as_call stacks (pos 130) (send 1 2 0)) begin.os).1.errno)
    × ((run stacks (pos 130) (send 1 2 0) begin).1.fd_flags ≡ begin.fd_flags)
    × ((run stacks (pos 130) (send 1 2 0) begin).1.socket_types ≡ begin.socket_types)
unfolding is_virtual_socket
run-virtual_example = run-virtual stacks (pos 130) (send 1 2 0) begin refl refl

fcntl_setfd-getfd_example :
    let (stored, s₁) = wrap_fcntl stacks (pos 130) 2 1 begin in
    let (given, s₂) = wrap_fcntl stacks (pos 130) 1 0 s₁ in
    (stored ≡ pos 0)
    × (s₁.os ≡ record { errno = 0; world = (trace_socket_event stacks begin).1.os.world })
    × (given ≡ pos 1)
    × (s₂.os ≡ record { errno = 0; world = (trace_socket_event stacks s₁).1.os.world })
unfolding is_virtual_socket
fcntl_setfd-getfd_example =
    fcntl_setfd-getfd stacks (pos 130) 1 begin begin-IsWellFormed refl (ground arith) (ground arith)
      (ground arith) refl

wrap_close_lem_example :
    ((wrap_close stacks (pos 130) begin).0 ≡ (stacks.lwip (Call.close (pos 130)) begin.os).0)
    × ((wrap_close stacks (pos 130) begin).1.os.errno
        ≡ (stacks.lwip (Call.close (pos 130)) begin.os).1.errno)
    × ((wrap_close stacks (pos 130) begin).0 ≡ pos 0
        → (flags_of (wrap_close stacks (pos 130) begin).1 (pos 130) ≡ 0)
          × (type_of (wrap_close stacks (pos 130) begin).1 (pos 130) ≡ 0))
    × ((wrap_close stacks (pos 130) begin).0 ≢ pos 0
        → ((wrap_close stacks (pos 130) begin).1.fd_flags ≡ begin.fd_flags)
          × ((wrap_close stacks (pos 130) begin).1.socket_types ≡ begin.socket_types))
unfolding is_virtual_socket
wrap_close_lem_example = wrap_close_lem stacks (pos 130) begin begin-IsWellFormed refl

abbrev dgram : ℕ
dgram = 2

-- A send on the socket, an IPv6 socket of the system, a poll and the close of another socket.
abbrev others : List Event
others =
    on_socket (pos 130) (send 1 2 0)
    ∷ make 24 2 0
    ∷ poll 4 on_both (pos 3)
    ∷ on_socket (pos 131) close
    ∷ []

socket_receive_timeout_example :
    let s = run_all stacks others (wrap_socket stacks 2 2 0 begin).1 in
    let set_timeout =
      wrap_setsockopt stacks (wrap_socket stacks 2 2 0 begin).0 0xffff 0x1006 (some 100) 4 in
    (dgram ≡ dgram → ((set_timeout s).0 ≡ negsuc 0) × ((set_timeout s).1.os.errno ≡ 109))
    × (dgram ≢ dgram
        → set_timeout s
          ≡ outside
              (stacks.lwip
                (Call.setsockopt (wrap_socket stacks 2 2 0 begin).0 0xffff 0x1006 (some 100) 4))
              s)
unfolding wrap_socket lwip_socket remember_socket is_virtual_socket answer_call trace_keeping_errno
    trace_socket_event
socket_receive_timeout_example =
    socket_receive_timeout stacks 2 0 begin others (some 100) 4 begin-IsWellFormed (ground arith)
      refl refl (ground arith, (ground arith, (tt, (ground arith, tt))))

abbrev lookup : Lookup
lookup = record { node = 1; service = 2; hints = 3 }

wrap_getaddrinfo-IsConnectable_example :
    IsConnectable stacks found (wrap_getaddrinfo stacks lookup true begin).0.1
unfolding wrap_getaddrinfo lwip_lookup
wrap_getaddrinfo-IsConnectable_example =
    wrap_getaddrinfo-IsConnectable stacks lookup begin refl refl
