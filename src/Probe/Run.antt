-- ===== src/Probe/Run.antt =====
-- `run_probe` of src/main.c: the report of the system, the network and the tests, in the order of the
-- source. A line carries the values that are printed into it.
use moonlight_tailscale_vita.Common.{
  ℕ, ◌/◌, Bool, Option, List, Bytes, ℤ, pos, is_neg, is_pos, int_is, if◌then◌else◌,
}
use moonlight_tailscale_vita.Common.State.{State, ◌>>=◌, ◌>>◌, pure, modify}
use moonlight_tailscale_vita.Report.{
  Level, info, ok, warn, error, Sizes, Line, Device, Report, print_into, log_message, reset_report,
  close_log,
}
use moonlight_tailscale_vita.Network.{Calls, Network, initialize_network}
use moonlight_tailscale_vita.Probe.{Net, control_host}
use moonlight_tailscale_vita.Probe.Connect.{Detail, test_tcp_connect}
use moonlight_tailscale_vita.Probe.Stun.{resolve_ipv4, test_packet_capture}

-- The codes of sceNetCtlInetGetInfo that are asked for.
pub data Info : Type 0 where
  ssid : Info
  ip_address : Info
  netmask : Info
  default_route : Info
  primary_dns : Info

-- The names that `network_state_name` gives.
pub data StateName : Type 0 where
  disconnected : StateName
  connecting : StateName
  finalizing : StateName
  connected : StateName
  unknown : StateName

pub data Saying : Type 0 where
  begins : Saying
  firmware : Bytes → Saying
  firmware_failed : ℤ → Saying
  free_memory_is : ℕ → ℕ → Saying
  free_memory_failed : ℤ → Saying
  model_is : ℕ → Bool → Saying
  network_failed : ℤ → Saying
  connect_wifi : Saying
  network_ready : Saying
  wifi_state_failed : ℤ → Saying
  wifi_state : StateName → ℤ → Saying
  info_is : Info → Bytes → Saying
  mtu_is : ℕ → Saying
  mtu_failed : ℤ → Saying
  control_address : ℕ → Saying
  control_connected : Detail → Saying
  control_failed : Detail → Saying
  dns_failed : ℤ → Saying
  baseline_connected : Detail → Saying
  baseline_failed : Detail → Saying
  baseline_address_failed : ℤ → Saying
  stun_answered : Saying
  stun_failed : ℤ → Saying
  capture_not_created : ℤ → Saying
  captured : ℤ → Saying
  nothing_captured : ℤ → Saying
  nat : ℤ → ℤ → Option Bytes → Saying
  nat_failed : ℤ → Saying
  raw_socket_opened : ℤ → Saying
  raw_socket_refused : ℤ → Saying
  done : Saying

-- What else is asked of the system; a call with an output has it behind its result. `pton` is of
-- BASELINE_TCP_IP, `format` prints a line without a limit, `error_text` a result into "erro 0x%08X".
pub record Machine (World : Type 0) : Type 0 where
  pub sw_version : World → (ℤ × Bytes) × World
  pub free_memory_size : World → (ℤ × ℕ × ℕ) × World
  pub model : ℕ
  pub is_tv : Bool
  pub inet_state : World → (ℤ × ℤ) × World
  pub state_disconnected : ℕ
  pub state_connecting : ℕ
  pub state_finalizing : ℕ
  pub state_connected : ℕ
  pub inet_info : Info → World → (ℤ × Bytes) × World
  pub mtu_info : World → (ℤ × ℕ) × World
  pub pton : ℤ × ℕ
  pub nat_info : World → (ℤ × ℤ × ℤ × Option Bytes) × World
  pub raw_socket : World → ℤ × World
  pub format : Saying → Bytes
  pub error_text : ℤ → Bytes

-- The static variables of the file: those of its report and those of its network.
pub record Program (World : Type 0) : Type 0 where
  pub lines : List Line
  pub log_fd : ℤ
  pub module_loaded : Bool
  pub net_initialized : Bool
  pub netctl_initialized : Bool
  pub has_memory : Bool
  pub world : World

module _ {World : Type 0} (x : Net World) (device : Device World) (sizes : Sizes)
    (calls : Calls World) (m : Machine World) where
  abbrev P : Type 0
  P = Program World

  abbrev outside : {A : Type 0} → (World → A × World) → State P A
  outside f p = let (a, w) = f p.world in (a, record p { world = w })

  abbrev in_report : State (Report World) (Unit {0}) → State P (Unit {0})
  in_report f p =
      let (_, r) = f (record { lines = p.lines; log_fd = p.log_fd; world = p.world }) in
      (tt, record p { lines = r.lines; log_fd = r.log_fd; world = r.world })

  abbrev in_network : {A : Type 0} → State (Network World) A → State P A
  in_network f p =
      let before : Network World = record {
        module_loaded = p.module_loaded;
        net_initialized = p.net_initialized;
        netctl_initialized = p.netctl_initialized;
        has_memory = p.has_memory;
        world = p.world;
      } in
      let (a, n) = f before in
      (
        a,
        record p {
          module_loaded = n.module_loaded;
          net_initialized = n.net_initialized;
          netctl_initialized = n.netctl_initialized;
          has_memory = n.has_memory;
          world = n.world;
        },
      )

  unfoldable pub log : Level → Saying → State P (Unit {0})
  log level saying = in_report (log_message device sizes level (m.format saying))

  unfoldable pub network_state_name : ℤ → StateName
  network_state_name state =
      if int_is state m.state_disconnected
      then disconnected
      else if int_is state m.state_connecting
      then connecting
      else if int_is state m.state_finalizing
      then finalizing
      else if int_is state m.state_connected
      then connected
      else unknown

  -- The result, and what the 128 bytes of `output` hold.
  unfoldable pub net_info_string : Info → State P (ℤ × Bytes)
  net_info_string code = do
    answer ← outside (m.inet_info code)
    if is_neg answer.0
        then pure (answer.0, print_into 128 (m.error_text answer.0))
        else pure (pos 0, print_into 128 answer.1)

  unfoldable pub report_machine : State P (Unit {0})
  report_machine = do
    version ← outside m.sw_version
    if is_neg version.0 then log warn (firmware_failed version.0) else log info (firmware version.1)
    memory ← outside m.free_memory_size
    if is_neg memory.0
        then log warn (free_memory_failed memory.0)
        else log info (free_memory_is (memory.1 / 1048576) (memory.2 / 1048576))
    log info (model_is m.model m.is_tv)

  unfoldable pub report_info : Info → State P (Unit {0})
  report_info code = do value ← net_info_string code; log info (info_is code value.1)

  unfoldable pub report_network : State P (Unit {0})
  unfolding report_info
  report_network = do
    state ← outside m.inet_state
    if is_neg state.0
        then log error (wifi_state_failed state.0)
        else log (if int_is state.1 m.state_connected then ok else warn)
            (wifi_state (network_state_name state.1) state.1)
    name ← net_info_string ssid
    if is_neg name.0 then pure tt else log info (info_is ssid name.1)
    report_info ip_address
    report_info netmask
    report_info default_route
    report_info primary_dns
    mtu ← outside m.mtu_info
    if is_neg mtu.0 then log warn (mtu_failed mtu.0) else log info (mtu_is mtu.1)

  abbrev tcp_test : ℕ → State P (ℤ × Detail)
  tcp_test address p =
      let (result, (detail, w)) = test_tcp_connect x address p.world in
      ((result, detail), record p { world = w })

  unfoldable pub test_control : State P (Unit {0})
  test_control = do
    resolved ← outside (resolve_ipv4 x control_host)
    if is_neg resolved.0 then log error (dns_failed resolved.0) else do
      log ok (control_address resolved.1)
      tested ← tcp_test resolved.1
      if is_neg tested.0
          then log warn (control_failed tested.1)
          else log ok (control_connected tested.1)

  unfoldable pub test_baseline : State P (Unit {0})
  test_baseline =
      if int_is m.pton.0 1
      then (do
        tested ← tcp_test m.pton.1
        if is_neg tested.0
            then log error (baseline_failed tested.1)
            else log ok (baseline_connected tested.1))
      else log error (baseline_address_failed m.pton.0)

  unfoldable pub test_capture : State P (Unit {0})
  test_capture = do
    capture ← outside (test_packet_capture x)
    if is_neg capture.traffic_result
        then log warn (stun_failed capture.traffic_result)
        else log ok stun_answered
    if is_neg capture.create_result
        then log warn (capture_not_created capture.create_result)
        else if is_pos capture.read_result
        then log ok (captured capture.read_result)
        else log warn (nothing_captured capture.read_result)

  unfoldable pub test_nat : State P (Unit {0})
  test_nat = do
    answer ← outside m.nat_info
    if is_neg answer.0
        then log warn (nat_failed answer.0)
        else log info (nat answer.1 answer.2 answer.3)

  unfoldable pub test_raw_socket : State P (Unit {0})
  test_raw_socket = do
    socket ← outside m.raw_socket
    if is_neg socket then log warn (raw_socket_refused socket) else do
      log ok (raw_socket_opened socket)
      modify (λ p. record p { world = x.close socket p.world })

  unfoldable pub run_tests : State P (Unit {0})
  unfolding report_network test_control test_baseline test_capture test_nat test_raw_socket
  run_tests = do
    log ok network_ready
    report_network
    test_control
    test_baseline
    test_capture
    test_nat
    test_raw_socket
    log ok done

  unfoldable pub run_probe : State P (Unit {0})
  unfolding report_machine run_tests
  run_probe = do
    in_report (reset_report device sizes)
    log info begins
    report_machine
    result ← in_network (initialize_network calls)
    if is_neg result
        then (do log error (network_failed result); log warn connect_wifi)
        else run_tests
    in_report (close_log device sizes)
