-- ===== src/Tunnel/Config.antt =====
-- The private key and the peer's configuration file: `trim`, `load_private_key`, `load_peer_config`.
pub mod Valid
use moonlight_tailscale_vita.Common.{
  ℕ, ◌+◌, Bool, true, false, not, ◌||◌, Option, none, some, List, [], ◌∷◌, Bytes, ℤ, neg, is_neg,
  int_is, to_nat, ◌==◌, if◌then◌else◌, length, take, replicate, same,
}
use moonlight_tailscale_vita.Ipv4Literal.{parse_ipv4_literal}
use moonlight_tailscale_vita.Tunnel.Text.{c_string, lines, trim, split_at, parse_port}

abbrev pub private_key_len : ℕ
private_key_len = 32

abbrev pub public_key_len : ℕ
public_key_len = 32

-- A negative result code, or what was loaded.
pub data Loaded (A : Type 0) : Type 0 where
  failed : ℤ → Loaded A
  loaded : A → Loaded A

infixl 5 ◌>>=◌
abbrev pub ◌>>=◌ : {A B : Type 0} → Loaded A → (A → Loaded B) → Loaded B
failed e >>= f = failed e
loaded a >>= f = f a

-- The two files.
pub data File : Type 0 where
  private_key_file : File
  config_file : File

-- The files, and WireGuard's Base64 decoder, which is given the room for its output.
pub record Files (World : Type 0) : Type 0 where
  pub open_file : File → World → ℤ × World
  pub read_file : ℤ → (size : ℕ) → World → ℤ × Bytes × World
  pub close_file : ℤ → World → World
  pub base64_decode : Bytes → (room : ℕ) → Option Bytes

-- `PeerConfig`; the address is kept as text.
pub record PeerConfig : Type 0 where
  pub public_key : Bytes
  pub endpoint_ip : Bytes
  pub endpoint_port : ℕ

-- What the loop over the lines fills.
pub record Fields : Type 0 where
  pub encoded_key : Bytes
  pub ip : Bytes
  pub port : ℕ

-- The names of the entries, and `#` and `=`.
abbrev pub peer_public_key : Bytes
peer_public_key =
    112 ∷ 101 ∷ 101 ∷ 114 ∷ 95 ∷ 112 ∷ 117 ∷ 98 ∷ 108 ∷ 105 ∷ 99 ∷ 95 ∷ 107 ∷ 101 ∷ 121 ∷ []

abbrev pub endpoint_ip : Bytes
endpoint_ip = 101 ∷ 110 ∷ 100 ∷ 112 ∷ 111 ∷ 105 ∷ 110 ∷ 116 ∷ 95 ∷ 105 ∷ 112 ∷ []

abbrev pub endpoint_port : Bytes
endpoint_port = 101 ∷ 110 ∷ 100 ∷ 112 ∷ 111 ∷ 105 ∷ 110 ∷ 116 ∷ 95 ∷ 112 ∷ 111 ∷ 114 ∷ 116 ∷ []

-- One entry; a name that is not known is passed over. `snprintf` cuts what does not fit.
unfoldable pub set_field : Bytes → Bytes → Fields → Loaded Fields
set_field name value fields =
    if same name peer_public_key
    then loaded (record fields { encoded_key = take 79 value })
    else if same name endpoint_ip
    then loaded (record fields { ip = take 47 value })
    else if same name endpoint_port
    then elim (parse_port value) [
      | none ↦ failed (neg 4)
      | some port ↦ loaded (record fields { port = port })
    ]
    else loaded fields

abbrev pub is_comment : Bytes → Bool
is_comment [] = true
is_comment (c ∷ cs) = c == 35

unfoldable pub apply_line : Bytes → Fields → Loaded Fields
apply_line line fields =
    let entry = trim line in
    if is_comment entry then loaded fields else elim (split_at 61 entry) [
      | none ↦ failed (neg 3)
      | some (name, value) ↦ set_field (trim name) (trim value) fields
    ]

unfoldable pub apply_lines : List Bytes → Fields → Loaded Fields
apply_lines [] fields = loaded fields
apply_lines (line ∷ rest) fields = do fields' ← apply_line line fields; apply_lines rest fields'

abbrev pub no_fields : Fields
no_fields = record { encoded_key = []; ip = []; port = 0 }

module _ {World : Type 0} (x : Files World) where
  -- The checks behind the loop.
  unfoldable pub finish_config : Fields → Loaded PeerConfig
  finish_config fields =
      if length fields.encoded_key == 0 || length fields.ip == 0 || fields.port == 0
      then failed (neg 5)
      else elim (x.base64_decode fields.encoded_key public_key_len) [
        | none ↦ failed (neg 6)
        | some key ↦
            if not (length key == public_key_len)
            then failed (neg 6)
            else elim (parse_ipv4_literal (some fields.ip) (some (replicate 4 0))).0 [
              | false ↦ failed (neg 7)
              | true ↦ loaded (record {
                public_key = key;
                endpoint_ip = fields.ip;
                endpoint_port = fields.port;
              })
            ]
      ]

  unfoldable pub load_private_key : World → Loaded Bytes × World
  load_private_key world =
      let (file, opened) = x.open_file private_key_file world in
      if is_neg file
      then (failed file, opened)
      else (let (count, stored, read) = x.read_file file (private_key_len + 1) opened in
          let closed = x.close_file file read in
          if not (int_is count private_key_len)
          then (failed (neg 2), closed)
          else (loaded (take private_key_len stored), closed))

  unfoldable pub load_peer_config : World → Loaded PeerConfig × World
  load_peer_config world =
      let (file, opened) = x.open_file config_file world in
      if is_neg file
      then (failed file, opened)
      else (let (count, contents, read) = x.read_file file 511 opened in
          let closed = x.close_file file read in
          if is_neg count then (failed count, closed) else (
            apply_lines (lines (c_string (take (to_nat count) contents))) no_fields
                >>= finish_config,
            closed,
          ))
