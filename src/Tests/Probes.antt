-- ===== src/Tests/Probes.antt =====
-- The probes, the network and the platform at concrete inputs.
use moonlight_tailscale_vita.Common.{
  ℕ, ◌+◌, ◌-◌, ◌/◌, ◌%◌, ◌<◌, true, false, none, List, [], ◌∷◌, ◌++◌, map, Bytes, IsBytes, pos,
  negsuc, is_neg, u64, length, take, drop, replicate, ◌≡◌, ◌↔◌, ◌⊎◌, refl, ap, arith,
}
use moonlight_tailscale_vita.Network.{Calls, initialize_network, cleanup_network}
use moonlight_tailscale_vita.Network.Levels.{
  KeepsLevels, Agrees, Op, initialize, cleanup, run_all, untouched, run_all_balance,
}
use moonlight_tailscale_vita.Platform.{Kernel, wireguard_tai64n_now}
use moonlight_tailscale_vita.Platform.Stamp.{comes_before, wireguard_tai64n_now_iff}
use moonlight_tailscale_vita.Probe.{Net}
use moonlight_tailscale_vita.Probe.Connect.{connected, test_tcp_connect}
use moonlight_tailscale_vita.Probe.Handles.{
  Handle, a_socket, an_epoll, a_resolver, a_dump, KeepsHandles, test_tcp_connect_lem,
}
use moonlight_tailscale_vita.Report.{info, warn, probe_sizes, reset_report}
use moonlight_tailscale_vita.Report
use moonlight_tailscale_vita.Report.Complete.{
  Message, KeepsFile, log_all, written, line_of, reset_report_lem,
}
use moonlight_tailscale_vita.CryptoProbe.{decode_hex, ProbeLine}
use moonlight_tailscale_vita.CryptoProbe
use moonlight_tailscale_vita.CryptoProbe.Hex.{lower, encode_hex, decode_hex_iff}
use moonlight_tailscale_vita.CryptoProbe.Run.{Crypto, run_probe}
use moonlight_tailscale_vita.Controls.{App, main_loop, repeat_loop}
use moonlight_tailscale_vita.Controls.Edges.{Waits, main_loop_iff}

-- The world is how many of the four things are held; SceNetCtl never starts.
abbrev counting_calls : Calls ℕ
counting_calls = record {
  load_module = λ w. (pos 0, w + 1);
  unload_module = λ w. w - 1;
  malloc = λ w. (true, w + 1);
  free_block = λ w. w - 1;
  net_init = λ w. (pos 0, w + 1);
  net_term = λ w. w - 1;
  netctl_init = λ w. (negsuc 0, w);
  netctl_term = λ w. w - 1;
}

counting_calls-KeepsLevels : KeepsLevels counting_calls (λ w. w)
counting_calls-KeepsLevels = record {
  loads = λ w h. omega (arith, h);
  allocates = λ w h. omega (arith, h);
  starts = λ w h. omega (arith, h);
  connects = λ w h. h;
  disconnects = λ w h. omega (arith, h);
  stops = λ w h. omega (arith, h);
  frees = λ w h. omega (arith, h);
  unloads = λ w h. omega (arith, h);
}

abbrev some_ops : List Op
some_ops = initialize ∷ initialize ∷ cleanup ∷ initialize ∷ []

run_all_balance_example :
    let s = run_all counting_calls some_ops (untouched 0) in
    Agrees counting_calls (λ w. w) counting_calls-KeepsLevels s
    × (is_neg (initialize_network counting_calls s).0 ≡ false
        → (initialize_network counting_calls s).1.world ≡ 4)
    × ((cleanup_network counting_calls s).1.world ≡ 0)
run_all_balance_example =
    run_all_balance counting_calls (λ w. w) counting_calls-KeepsLevels 0 some_ops refl

-- The wall clock is half a second ahead of the process clock.
abbrev clocks : Kernel ℕ
clocks = record {
  random_number = λ n w. (pos 0, replicate n 7, w);
  process_time = λ w. w;
  wall_time = λ w. (w + 500000) / 1000000;
}

wireguard_tai64n_now_iff_example :
    (comes_before (wireguard_tai64n_now clocks 999999) (wireguard_tai64n_now clocks 1000001) ≡ true)
    ↔ ((clocks.wall_time 999999 < clocks.wall_time 1000001)
        ⊎ ((clocks.wall_time 999999 ≡ clocks.wall_time 1000001)
            × (u64 (clocks.process_time 999999) % 1000000
                < u64 (clocks.process_time 1000001) % 1000000)))
wireguard_tai64n_now_iff_example =
    wireguard_tai64n_now_iff clocks 999999 1000001 (omega arith) (omega arith)

-- The world is the open handles; the connection comes about while the epoll waits.
abbrev stacked : Net (List Handle)
stacked = record {
  tcp_socket = λ w. (pos 3, a_socket (pos 3) ∷ w);
  udp_socket = λ w. (pos 4, a_socket (pos 4) ∷ w);
  set_nonblocking = λ s w. (pos 0, w);
  set_timeouts = λ s w. w;
  connect = λ s a p w. (negsuc 0, w);
  net_errno = λ w. 36;
  close = λ s w. drop 1 w;
  epoll_create = λ w. (pos 5, an_epoll (pos 5) ∷ w);
  epoll_add = λ e s w. (pos 0, w);
  epoll_wait = λ e n w. (pos 1, 4, w);
  epoll_destroy = λ e w. drop 1 w;
  so_error = λ s w. (pos 0, pos 0, w);
  resolver_create = λ w. (pos 6, a_resolver (pos 6) ∷ w);
  resolver_start = λ r host w. (pos 0, 7, w);
  resolver_destroy = λ r w. drop 1 w;
  sendto = λ s d a p w. (pos (length d), w);
  recvfrom = λ s n w. (negsuc 0, [], w);
  process_time = λ w. 0;
  dump_create = λ w. (pos 8, a_dump (pos 8) ∷ w);
  dump_read = λ d w. (pos 0, w);
  dump_destroy = λ d w. drop 1 w;
  delay = λ n w. w;
  einprogress = 36;
  ewouldblock = 35;
  error_einprogress = 0x80410124;
  error_ewouldblock = 0x80410123;
  etimedout = 60;
}

stacked-KeepsHandles : KeepsHandles stacked (λ w. w)
stacked-KeepsHandles = record {
  tcp_sockets = λ w. refl;
  udp_sockets = λ w. refl;
  epolls = λ w. refl;
  resolvers = λ w. refl;
  dumps = λ w. refl;
  closes = λ h rest w e. ap (drop 1) e;
  epoll_ends = λ h rest w e. ap (drop 1) e;
  resolver_ends = λ h rest w e. ap (drop 1) e;
  dump_ends = λ h rest w e. ap (drop 1) e;
  nonblockings = λ h w. refl;
  timeouts = λ h w. refl;
  connects = λ h a p w. refl;
  adds = λ e h w. refl;
  waits = λ e n w. refl;
  errors = λ h w. refl;
  resolves = λ r host w. refl;
  sends = λ h d a p w. refl;
  receives = λ h n w. refl;
  reads = λ d w. refl;
  delays = λ n w. refl;
}

test_tcp_connect_lem_example :
    let out = test_tcp_connect stacked 7 [] in
    (out.1.1 ≡ [])
    × (out.1.0.final_result ≡ out.0)
    × (is_neg out.0 ≡ false ↔ out.1.0.stage ≡ connected)
    × (is_neg out.0 ≡ false → out.0 ≡ pos 0)
test_tcp_connect_lem_example =
    test_tcp_connect_lem stacked (λ w. w) stacked-KeepsHandles 7 [] (omega arith)

-- The world is the log file.
abbrev paper : Report.Device Bytes
paper = record {
  make_directory = λ w. w;
  open_log = λ w. (pos 3, []);
  write_log = λ fd bytes w. w ++ bytes;
  close_file = λ fd w. w;
  draw = λ rows w. w;
}

paper-KeepsFile : KeepsFile paper (λ w. w)
paper-KeepsFile = record { opens = λ w. refl; writes = λ fd b w. refl; draws = λ rows w. refl }

abbrev stale : Report.Report Bytes
stale = record { lines = []; log_fd = negsuc 0; world = 1 ∷ 2 ∷ [] }

abbrev two_messages : List Message
two_messages =
    record { level = info; text = 72 ∷ 105 ∷ [] } ∷ record { level = warn; text = 33 ∷ [] } ∷ []

reset_report_lem_example :
    let after = log_all paper probe_sizes two_messages (reset_report paper probe_sizes stale).1 in
    (after.world ≡ written paper probe_sizes two_messages)
    × (after.lines ≡ take 64 (map (line_of paper probe_sizes) two_messages))
unfolding reset_report
reset_report_lem_example =
    reset_report_lem paper probe_sizes (λ w. w) paper-KeepsFile two_messages stale (omega arith)
      refl

decode_hex_iff_example :
    (decode_hex (48 ∷ 97 ∷ 70 ∷ 70 ∷ []) (0 ∷ 0 ∷ []) ≡ (true, 10 ∷ 255 ∷ [])) ↔ (
      (map lower (48 ∷ 97 ∷ 70 ∷ 70 ∷ []) ≡ encode_hex (10 ∷ 255 ∷ []))
      × (IsBytes (10 ∷ 255 ∷ []))
      × (length {A = ℕ} (10 ∷ 255 ∷ []) ≡ length {A = ℕ} (0 ∷ 0 ∷ [])))
decode_hex_iff_example = decode_hex_iff (48 ∷ 97 ∷ 70 ∷ 70 ∷ []) (0 ∷ 0 ∷ []) (10 ∷ 255 ∷ [])

abbrev console : CryptoProbe.Device ℕ
console = record {
  make_directory = λ w. w;
  open_log = λ w. (pos 3, w);
  write_log = λ fd b w. w;
  close_file = λ fd w. w;
  draw = λ lines w. w;
  format = λ s. [];
}

-- A library whose digests and keys are zeros.
abbrev zeros : Crypto ℕ
zeros = record {
  blake2s = λ n k i. replicate n 0;
  x25519 = λ s b. (pos 0, replicate 32 0);
  base_point = replicate 32 9;
  aead_encrypt = λ p a n k. p ++ replicate 16 0;
  aead_decrypt = λ c a n k. (true, take 128 c);
  message_handshake_initiation = 1;
  wireguard_init = λ w. w;
  device_init = λ k w. (true, w);
  peer_alloc = λ w. (true, w);
  peer_init = λ k w. (true, w);
  create_initiation = λ w. ((true, 1), w);
  random_error = λ w. pos 0;
  zero_secrets = λ w. w;
  process_time = λ w. (w, w + 1);
  free_memory = λ w. ((pos 0, 4096), w);
}

abbrev unopened : CryptoProbe.Report ℕ
unopened = record { lines = []; log_fd = negsuc 0; world = 0 }

abbrev app : App ℕ
app = record {
  start = 3;
  cross = 14;
  vita2d_init = λ s. (pos 0, s);
  vita2d_fini = λ s. s;
  load_module = λ s. (pos 0, s);
  unload_module = λ s. s;
  load_font = λ s. (true, s);
  free_font = λ s. s;
  run_probe = λ s. s + 1;
  show = λ s. s;
  close_log = λ s. s;
  cleanup_network = λ s. s;
}

-- CROSS, held, then START with it.
abbrev held : List ℕ
held = 16384 ∷ 16384 ∷ 16392 ∷ []

main_loop_iff_example :
    ((main_loop app 0 held 0 ≡ none) ↔ Waits 3 0 held)
    × ((repeat_loop app 0 held 0 ≡ none) ↔ Waits 3 0 held)
main_loop_iff_example =
    main_loop_iff app (omega arith) held 0 0 (omega arith)
      (omega arith, (omega arith, (omega arith, tt)))
