-- ===== src/Flow/Config.antt =====
-- `load_peer_config` of src/wg_handshake_probe.c. Its `trim` and its loop over the lines are those of
-- moonlight/tunnel.c, statement by statement; the rest of it, and its codes, are its own.
use moonlight_tailscale_vita.Common.{
  true, false, not, ◌||◌, none, some, ℤ, pos, neg, is_neg, to_nat, ◌==◌, if◌then◌else◌, length,
  take, replicate, ◌≡◌, ◌↔◌, refl, arith, Bool-cases, Option-cases, inl, inr,
}
use moonlight_tailscale_vita.Ipv4Literal.{parse_ipv4_literal}
use moonlight_tailscale_vita.Tunnel.Text.{c_string, lines}
use moonlight_tailscale_vita.Tunnel.Config.{
  Loaded, failed, loaded, ◌>>=◌, Files, File, private_key_file, config_file, PeerConfig, Fields,
  apply_lines, no_fields, public_key_len,
}
use moonlight_tailscale_vita.Tunnel.Config
use moonlight_tailscale_vita.Tunnel.Config.Valid.{IsUsable, load_peer_config-IsUsable}
use moonlight_tailscale_vita.Flow.Keys.{Disk, Place, private_key, config, create_config_template}

-- Two results with the same success.
abbrev Agree : {A : Type 0} → Loaded A → Loaded A → Type 0
Agree {A = A} a b = (c : A) → (a ≡ loaded c) ↔ (b ≡ loaded c)

failed-Agree : {A : Type 0} (e e' : ℤ) → Agree {A = A} (failed e) (failed e')
failed-Agree e e' c = (λ q. absurd (ground (arith, q)), λ q. absurd (ground (arith, q)))

>>=-Agree :
    {A B : Type 0} (a : Loaded A) (f g : A → Loaded B)
    → ((v : A) → Agree (f v) (g v))
    → Agree (a >>= f) (a >>= g)
>>=-Agree (failed e) f g h c = (λ q. q, λ q. q)
>>=-Agree (loaded v) f g h c = h v c

module _ {World : Type 0} (x : Disk World) where
  -- The checks behind the loop; 1 says that the file is not filled in.
  unfoldable pub finish_config : Fields → Loaded PeerConfig
  finish_config fields =
      if length fields.encoded_key == 0 || length fields.ip == 0 || fields.port == 0
      then failed (pos 1)
      else elim (x.base64_decode fields.encoded_key public_key_len) [
        | none ↦ failed (neg 5)
        | some key ↦
            if not (length key == public_key_len)
            then failed (neg 5)
            else elim (parse_ipv4_literal (some fields.ip) (some (replicate 4 0))).0 [
              | false ↦ failed (neg 6)
              | true ↦ loaded (record {
                public_key = key;
                endpoint_ip = fields.ip;
                endpoint_port = fields.port;
              })
            ]
      ]

  unfoldable pub load_peer_config : World → Loaded PeerConfig × World
  unfolding finish_config
  load_peer_config w =
      let (file, opened) = x.open_read config w in
      if is_neg file
      then (let (create_result, created) = create_config_template x opened in
          (failed (if is_neg create_result then create_result else pos 1), created))
      else (let (count, contents, read) = x.read file 511 opened in
          let closed = x.close file read in
          if is_neg count then (failed count, closed) else (
            apply_lines (lines (c_string (take (to_nat count) contents))) no_fields
                >>= finish_config,
            closed,
          ))

  -- The same files, as the tunnel sees them.
  abbrev pub place_of : File → Place
  place_of private_key_file = private_key
  place_of config_file = config

  abbrev pub tunnel_files : Files World
  tunnel_files = record {
    open_file = λ f. x.open_read (place_of f);
    read_file = x.read;
    close_file = x.close;
    base64_decode = x.base64_decode;
  }

  finish_config-Agree :
      (fields : Fields) → Agree (finish_config fields) (Config.finish_config tunnel_files fields)
  unfolding finish_config Config.finish_config
  finish_config-Agree fields c =
      let empty = length fields.encoded_key == 0 || length fields.ip == 0 || fields.port == 0 in
      let parsed = parse_ipv4_literal (some fields.ip) (some (replicate 4 0)) in
      elim (Bool-cases empty) [
        | inl e ↦ rw e (failed-Agree _ _ c)
        | inr e ↦ elim (Option-cases (x.base64_decode fields.encoded_key public_key_len)) [
          | inl d ↦ rw e (rw d (failed-Agree _ _ c))
          | inr (key, d) ↦ elim (Bool-cases (not (length key == public_key_len))) [
            | inl n ↦ rw e (rw d (rw n (failed-Agree _ _ c)))
            | inr n ↦ elim (Bool-cases parsed.0) [
              | inl p ↦ rw e (rw d (rw n (rw p (λ q. q, λ q. q))))
              | inr p ↦ rw e (rw d (rw n (rw p (failed-Agree _ _ c))))
            ]
          ]
        ]
      ]

  -- What the probe accepts of a file that is there, the tunnel accepts too, and reads the same.
  load_peer_config_agrees :
      (w : World)
      → is_neg (x.open_read config w).0 ≡ false
      → ((c : PeerConfig)
          → ((load_peer_config w).0 ≡ loaded c)
            ↔ ((Config.load_peer_config tunnel_files w).0 ≡ loaded c))
        × ((load_peer_config w).1 ≡ (Config.load_peer_config tunnel_files w).1)
  unfolding load_peer_config Config.load_peer_config
  load_peer_config_agrees w h =
      let (file, opened) = x.open_read config w in
      let (count, contents, read) = x.read file 511 opened in
      let fields = apply_lines (lines (c_string (take (to_nat count) contents))) no_fields in
      elim (Bool-cases (is_neg count)) [
        | inl e ↦ rw h (rw e ((λ c. (λ q. q, λ q. q)), refl))
        | inr e ↦ rw h (rw e (>>=-Agree fields _ _ finish_config-Agree, refl))
      ]

  -- Whatever the file holds, a configuration that is loaded has a key of 32 bytes, a port from 1 to
  -- 65535 and an address of at most 47 bytes that parses; and if the file cannot be opened, nothing is
  -- loaded.
  pub load_peer_config_accepts :
      (w : World) (c : PeerConfig)
      → (load_peer_config w).0 ≡ loaded c
      → IsUsable c × (is_neg (x.open_read config w).0 ≡ false)
  unfolding load_peer_config
  load_peer_config_accepts w c h = elim (Bool-cases (is_neg (x.open_read config w).0)) [
    | inl e ↦ absurd (ground (arith, e, h))
    | inr e ↦
        (load_peer_config-IsUsable tunnel_files w c (((load_peer_config_agrees w e).0 c).0 h), e)
  ]
