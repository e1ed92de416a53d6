-- ===== src/Flow/Run.antt =====
-- `run_probe` of src/wg_handshake_probe.c. The report, the network and the wiping of the device are calls
-- on the state that they share with the rest: `Shell` says which, and Report.antt and Network.antt have
-- what they do. `crypto_zero` of the other local variables is not modelled.
use moonlight_tailscale_vita.Common.{
  ℕ, Bool, Option, none, some, Bytes, ℤ, is_neg, int_is, if◌then◌else◌,
}
use moonlight_tailscale_vita.Report.{info, ok, warn, error}
use moonlight_tailscale_vita.Tunnel.Config.{failed, loaded, PeerConfig}
use moonlight_tailscale_vita.Flow.Keys.{Disk, load_or_create_private_key, export_public_key}
use moonlight_tailscale_vita.Flow.Config.{load_peer_config}
use moonlight_tailscale_vita.Flow.Context.{
  Lwip, begins, identity_failed, identity_ready, device_failed, export_failed, exported,
  public_key_is, config_pending, send_public_key, pairing_ready, config_invalid, config_loaded,
  peer_refused, network_failed, network_ready, data_plane_failed, verdict,
}
use moonlight_tailscale_vita.Flow.Session.{Outer, send_handshake_and_ip_probe}

-- `device_init` comes behind `wireguard_init` and gives the device if the key is accepted;
-- `peer_alloc` says whether there is a peer. `wipe` is `crypto_zero(&device, …)`.
pub record Shell (Peer World : Type 0) : Type 0 where
  pub reset_report : World → World
  pub close_log : World → World
  pub initialize_network : World → ℤ × World
  pub cleanup_network : World → World
  pub device_init : Bytes → World → Option Peer × World
  pub device_public_key : Peer → Bytes
  pub peer_alloc : Peer → Bool × Peer
  pub peer_init : Bytes → Peer → Bool × Peer
  pub wipe : World → World

module _ {Peer World : Type 0} (x : Lwip Peer World) (o : Outer World) (disk : Disk World)
    (sh : Shell Peer World) where
  -- What follows the start of the network, up to the cleaning up; `none` when the fuel runs out.
  unfoldable pub test_data_plane : (fuel : ℕ) → PeerConfig → Peer → World → Option (World)
  test_data_plane fuel config peer w =
      let (result, s) =
        send_handshake_and_ip_probe x o fuel config (record { peer = peer; world = w }) in
      elim result [
        | none ↦ none
        | some r ↦
            let w1 = if is_neg r then x.log_line error (data_plane_failed r) s.world else s.world in
            let passed = int_is r 0 in
            some (x.log_line (if passed then ok else error) (verdict passed) w1)
      ]

  unfoldable pub use_network : (fuel : ℕ) → PeerConfig → Peer → World → Option World
  unfolding test_data_plane
  use_network fuel config peer w =
      let (result, w1) = sh.initialize_network w in
      let tested =
        if is_neg result
        then some (x.log_line error (network_failed result) w1)
        else test_data_plane fuel config peer (x.log_line ok network_ready w1) in
      elim tested [ none ↦ none | some w2 ↦ some (sh.close_log (sh.wipe (sh.cleanup_network w2))) ]

  -- From the configuration on.
  unfoldable pub use_config : (fuel : ℕ) → Peer → World → Option World
  unfolding use_network
  use_config fuel device w =
      let (config, w1) = load_peer_config disk w in
      elim config [
        | failed code ↦
            if int_is code 1
            then (let w2 = x.log_line warn config_pending w1 in
                let w3 = x.log_line info send_public_key w2 in
                some (sh.close_log (sh.wipe (x.log_line ok pairing_ready w3))))
            else some (sh.close_log (sh.wipe (x.log_line error (config_invalid code) w1)))
        | loaded c ↦
            let w2 = x.log_line ok config_loaded w1 in
            let (allocated, device1) = sh.peer_alloc device in
            let (accepted, peer) = sh.peer_init c.public_key device1 in
            if allocated
            then (if accepted
                then use_network fuel c peer w2
                else some (sh.close_log (sh.wipe (x.log_line error peer_refused w2))))
            else some (sh.close_log (sh.wipe (x.log_line error peer_refused w2)))
      ]

  unfoldable pub use_device : (fuel : ℕ) → Peer → World → Option World
  unfolding use_config
  use_device fuel device w =
      let ((exported_result, encoded), w1) =
        export_public_key disk (sh.device_public_key device) w in
      if is_neg exported_result
      then some (x.log_line error (export_failed exported_result) (sh.wipe w1))
      else use_config fuel device
          (x.log_line info (public_key_is encoded) (x.log_line ok exported w1))

  -- The paths that end in front of the export leave the log open; the next report closes it.
  unfoldable pub run_probe : (fuel : ℕ) → World → Option World
  unfolding use_device
  run_probe fuel w =
      let w1 = x.log_line info begins (sh.reset_report w) in
      let ((result, key, created), w2) = load_or_create_private_key disk w1 in
      if is_neg result
      then some (x.log_line error (identity_failed result) w2)
      else (let (device, w3) = sh.device_init key (x.log_line ok (identity_ready created) w2) in
          elim device [
            | none ↦ some (x.log_line error device_failed w3)
            | some d ↦ use_device fuel d w3
          ])
