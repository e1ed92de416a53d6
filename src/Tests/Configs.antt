-- ===== src/Tests/Configs.antt =====
-- The configuration file of moonlight/tunnel.c and src/wg_handshake_probe.c at a concrete input.
use moonlight_tailscale_vita.Common.{
  ℕ, refl, [], ◌∷◌, ◌++◌, Bytes, pos, some, replicate, length, same, is_neg, false, ◌≡◌,
}
use moonlight_tailscale_vita.Ipv4Literal.{parse_ipv4_literal}
use moonlight_tailscale_vita.Tunnel.Text.{
  c_string, lines, trim, split_at, parse_port, checked_port, strtol,
}
use moonlight_tailscale_vita.Tunnel.Config.{
  Files, PeerConfig, load_peer_config, apply_lines, apply_line, set_field, finish_config,
  peer_public_key, endpoint_ip, endpoint_port,
}
use moonlight_tailscale_vita.Tunnel.Config.Valid.{IsUsable, load_peer_config-IsUsable}
use moonlight_tailscale_vita.Flow.Keys.{Disk}
use moonlight_tailscale_vita.Flow.Config.{load_peer_config_accepts}
use moonlight_tailscale_vita.Flow.Config

-- "10.0.0.1"
abbrev address : Bytes
address = 49 ∷ 48 ∷ 46 ∷ 48 ∷ 46 ∷ 48 ∷ 46 ∷ 49 ∷ []

-- A comment, a line for each entry, blanks around them, and the port 51820.
abbrev text : Bytes
text =
    35 ∷ 10 ∷ peer_public_key
    ++ (61 ∷ 65 ∷ 10 ∷ endpoint_ip
        ++ (32 ∷ 61 ∷ 9 ∷ address
            ++ (13 ∷ 10 ∷ endpoint_port ++ (61 ∷ 53 ∷ 49 ∷ 56 ∷ 50 ∷ 48 ∷ 10 ∷ []))))

abbrev disk : Files ℕ
disk = record {
  open_file = λ f w. (pos 3, w);
  read_file = λ f n w. (pos (length text), text, w);
  close_file = λ f w. w;
  base64_decode = λ t n. some (replicate 32 7);
}

abbrev config : PeerConfig
config = record { public_key = replicate 32 7; endpoint_ip = address; endpoint_port = 51820 }

load_peer_config-IsUsable_example : IsUsable config
unfolding load_peer_config c_string lines apply_lines apply_line trim split_at set_field parse_port
    checked_port strtol finish_config parse_ipv4_literal same
load_peer_config-IsUsable_example = load_peer_config-IsUsable disk 0 config refl

-- The same file, as the flow probe reads it.
abbrev card : Disk ℕ
card = record {
  open_read = λ p w. (pos 3, w);
  open_truncated = λ p mode w. (pos 3, w);
  open_exclusive = λ p mode w. (pos 3, w);
  read = λ fd n w. (pos (length text), text, w);
  write = λ fd b w. (pos (length b), w);
  sync = λ fd w. (pos 0, w);
  close = λ fd w. w;
  stat = λ p w. (pos 0, w);
  rename = λ p q w. (pos 0, w);
  remove = λ p w. w;
  random_number = λ n w. (pos 0, replicate n 77, w);
  process_time = λ w. w;
  base64_encode = λ b room. some (replicate 44 65);
  base64_decode = λ b room. some (replicate 32 7);
}

load_peer_config_accepts_example : IsUsable config × (is_neg (pos 3) ≡ false)
unfolding Config.load_peer_config Config.finish_config c_string lines apply_lines apply_line trim
    split_at set_field parse_port checked_port strtol parse_ipv4_literal same
load_peer_config_accepts_example = load_peer_config_accepts card 0 config refl
