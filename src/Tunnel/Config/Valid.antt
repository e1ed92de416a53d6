-- ===== src/Tunnel/Config/Valid.antt =====
-- What holds of a configuration that has been loaded.
use moonlight_tailscale_vita.Common.{
  ℕ, ◌≤◌, true, Option, none, some, List, [], ◌∷◌, Bytes, ℤ, pos, negsuc, is_neg, to_nat, ◌≡◌,
  subst, arith, length, take, replicate, same, ◌==◌, ◌||◌, length-take, Bool-cases, Option-cases,
  inl, inr,
}
use moonlight_tailscale_vita.Ipv4Literal.{parse_ipv4_literal}
use moonlight_tailscale_vita.Tunnel.Text.{
  parse_port, checked_port, strtol, trim, split_at, lines, c_string,
}
use moonlight_tailscale_vita.Tunnel.Config.{
  config_file, Loaded, failed, loaded, Files, PeerConfig, Fields, no_fields, set_field, apply_line,
  apply_lines, finish_config, load_peer_config, public_key_len, peer_public_key, endpoint_ip,
  endpoint_port, is_comment, ◌>>=◌,
}

record IsBounded (f : Fields) : Type 0 where
  port_fits : f.port ≤ 65535
  ip_fits : length f.ip ≤ 47

-- What was loaded, if anything was, has the property.
abbrev IfLoaded : {A : Type 0} → (A → Type 0) → Loaded A → Type 0
IfLoaded P (failed e) = Unit
IfLoaded P (loaded a) = P a

checked_port-le : (o : Option (ℤ × Bytes)) (port : ℕ) → checked_port o ≡ some port → port ≤ 65535
unfolding checked_port
checked_port-le none port h = absurd (ground arith)
checked_port-le (some (negsuc n, rest)) port h = absurd (ground arith)
checked_port-le (some (pos p, c ∷ rest)) port h = absurd (ground arith)
checked_port-le (some (pos p, [])) port h = ground arith

parse_port-le : (value : Bytes) (port : ℕ) → parse_port value ≡ some port → port ≤ 65535
unfolding parse_port
parse_port-le value port h = checked_port-le (strtol value) port h

set_field-IsBounded :
    (name value : Bytes) (f : Fields) → IsBounded f → IfLoaded IsBounded (set_field name value f)
unfolding set_field
set_field-IsBounded name value f b = elim (Bool-cases (same name peer_public_key)) [
  | inl k ↦ rw k (record { port_fits = b.port_fits; ip_fits = b.ip_fits })
  | inr k ↦ elim (Bool-cases (same name endpoint_ip)) [
    | inl i ↦
        rw k
          (rw i (record { port_fits = b.port_fits; ip_fits = omega (arith, length-take 47 value) }))
    | inr i ↦ elim (Bool-cases (same name endpoint_port)) [
      | inr p ↦ rw k (rw i (rw p b))
      | inl p ↦ elim (Option-cases (parse_port value)) [
        | inl e ↦ rw k (rw i (rw p (rw e tt)))
        | inr (port, e) ↦ rw k (
            rw i (
              rw p (rw e (record { port_fits = parse_port-le value port e; ip_fits = b.ip_fits }))))
      ]
    ]
  ]
]

apply_line-IsBounded :
    (line : Bytes) (f : Fields) → IsBounded f → IfLoaded IsBounded (apply_line line f)
unfolding apply_line
apply_line-IsBounded line f b = elim (Bool-cases (is_comment (trim line))) [
  | inl c ↦ rw c b
  | inr c ↦ elim (Option-cases (split_at 61 (trim line))) [
    | inl e ↦ rw c (rw e tt)
    | inr (parts, e) ↦ rw c (rw e (set_field-IsBounded (trim parts.0) (trim parts.1) f b))
  ]
]

bind-IfLoaded :
    {A B : Type 0} (P : A → Type 0) (Q : B → Type 0) (m : Loaded A) (k : A → Loaded B)
    → IfLoaded P m
    → ((a : A) → P a → IfLoaded Q (k a))
    → IfLoaded Q (m >>= k)
bind-IfLoaded P Q (failed e) k h step = tt
bind-IfLoaded P Q (loaded a) k h step = step a h

apply_lines-IsBounded :
    (ls : List Bytes) (f : Fields) → IsBounded f → IfLoaded IsBounded (apply_lines ls f)
unfolding apply_lines
apply_lines-IsBounded [] f b = b
apply_lines-IsBounded (line ∷ rest) f b =
    bind-IfLoaded IsBounded IsBounded (apply_line line f) (apply_lines rest)
      (apply_line-IsBounded line f b) (apply_lines-IsBounded rest)

-- A configuration that can be used.
pub record IsUsable (c : PeerConfig) : Type 0 where
  pub key_size : length c.public_key ≡ 32
  pub port_range : (1 ≤ c.endpoint_port) × (c.endpoint_port ≤ 65535)
  pub ip_size : length c.endpoint_ip ≤ 47
  pub ip_parses : (parse_ipv4_literal (some c.endpoint_ip) (some (replicate 4 0))).0 ≡ true

module _ {World : Type 0} (x : Files World) where
  finish_config-IsUsable : (f : Fields) → IsBounded f → IfLoaded IsUsable (finish_config x f)
  unfolding finish_config
  finish_config-IsUsable f b =
      let parsed = (parse_ipv4_literal (some f.ip) (some (replicate 4 0))).0 in
      elim (Bool-cases (length f.encoded_key == 0 || length f.ip == 0 || f.port == 0)) [
        | inl m ↦ rw m tt
        | inr m ↦ elim (Option-cases (x.base64_decode f.encoded_key public_key_len)) [
          | inl e ↦ rw m (rw e tt)
          | inr (key, e) ↦ elim (Bool-cases (length key == public_key_len)) [
            | inr n ↦ rw m (rw e (rw n tt))
            | inl n ↦ elim (Bool-cases parsed) [
              | inr q ↦ rw m (rw e (rw n (rw q tt)))
              | inl q ↦
                  let usable : IsUsable
                      (record { public_key = key; endpoint_ip = f.ip; endpoint_port = f.port }) =
                    record {
                      key_size = ground arith;
                      port_range = ground (arith, b.port_fits);
                      ip_size = b.ip_fits;
                      ip_parses = q;
                    } in
                  rw m (rw e (rw n (rw q usable)))
            ]
          ]
        ]
      ]

  load_peer_config_all : (world : World) → IfLoaded IsUsable (load_peer_config x world).0
  unfolding load_peer_config
  load_peer_config_all world =
      let opened = x.open_file config_file world in
      let got = x.read_file opened.0 511 opened.1 in
      let fields = apply_lines (lines (c_string (take (to_nat got.0) got.1))) no_fields in
      elim (Bool-cases (is_neg opened.0)) [
        | inl o ↦ rw o tt
        | inr o ↦ elim (Bool-cases (is_neg got.0)) [
          | inl r ↦ rw o (rw r tt)
          | inr r ↦ rw o (
              rw r (
                bind-IfLoaded IsBounded IsUsable fields (finish_config x)
                  (apply_lines-IsBounded (lines (c_string (take (to_nat got.0) got.1))) no_fields
                    (record { port_fits = omega arith; ip_fits = omega arith }))
                  finish_config-IsUsable))
        ]
      ]

  -- Whatever stands in the file: a configuration that is loaded has a key of 32 bytes, a port from 1
  -- to 65535 and an address that the parser takes and that the source's 48 characters hold.
  pub load_peer_config-IsUsable :
      (world : World) (c : PeerConfig) → (load_peer_config x world).0 ≡ loaded c → IsUsable c
  load_peer_config-IsUsable world c h = subst (IfLoaded IsUsable) h (load_peer_config_all world)
