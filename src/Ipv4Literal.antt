-- ===== src/Ipv4Literal.antt =====
-- src/ipv4_literal.c: the strict reader of a dotted IPv4 address. A pointer that may be NULL is an
-- `Option`, and a C string is the list of its bytes in front of the NUL.
pub mod Spec
use moonlight_tailscale_vita.Common.{
  ℕ, zero, suc, ◌+◌, ◌-◌, ◌*◌, Bool, true, false, not, ◌&&◌, ◌||◌, Option, none, some, List, [],
  ◌∷◌, Bytes, ltb, leb, ◌==◌, if◌then◌else◌, u8, u32,
}

infixl 5 ◌>>=◌
abbrev pub ◌>>=◌ {ℓ κ} : {A : Type ℓ} {B : Type κ} → Option A → (A → Option B) → Option B
none >>= f = none
some a >>= f = f a

pub is_digit : ℕ → Bool
is_digit c = leb b'0' c && leb c b'9'

-- The test at the head of each octet, on the byte at the cursor (the NUL at the end).
pub starts_with_digit : Bytes → Bool
unfolding is_digit
starts_with_digit [] = false
starts_with_digit (c ∷ cs) = is_digit c

-- The inner `while`: the value and the digits read so far, and the cursor.
pub read_octet : ℕ → ℕ → Bytes → Option (ℕ × Bytes)
unfolding is_digit
read_octet value digits [] = some (value, [])
read_octet value digits (c ∷ cs) =
    let value' = u32 (value * 10 + (c - b'0')) in
    if is_digit c
    then (if ltb 3 (digits + 1) || ltb 255 value' then none else read_octet value' (digits + 1) cs)
    else some (value, c ∷ cs)

-- What must follow an octet with `left` more to read: a dot, or the end.
pub read_separator : ℕ → Bytes → Option Bytes
read_separator zero [] = some []
read_separator zero (c ∷ cs) = none
read_separator (suc left) [] = none
read_separator (suc left) (c ∷ cs) = if c == b'.' then some cs else none

-- One round of the `for` over the octets: the octet, and the cursor behind its separator.
pub read_round : ℕ → Bytes → Option (ℕ × Bytes)
unfolding starts_with_digit read_octet read_separator
read_round left cursor = if not (starts_with_digit cursor) then none else do
  (value, rest) ← read_octet 0 0 cursor
  after ← read_separator left rest
  some (u8 value, after)

-- The `for`, with `left` rounds behind this one; it returns `parsed`.
pub parse_octets : ℕ → Bytes → Option Bytes
unfolding read_round
parse_octets zero cursor = do (v, after) ← read_round 0 cursor; some (v ∷ [])
parse_octets (suc left) cursor = do
  (v, after) ← read_round (suc left) cursor
  vs ← parse_octets left after
  some (v ∷ vs)

-- What `output` holds afterwards: all four octets on success, and what it held before otherwise.
store : Bytes → Option Bytes → Bool × Bytes
store output none = (false, output)
store output (some parsed) = (true, parsed)

-- `tsvita_parse_ipv4_literal`; the second argument is `output` with what it holds.
unfoldable pub parse_ipv4_literal : Option Bytes → Option Bytes → Bool × Option Bytes
unfolding parse_octets store
parse_ipv4_literal none output = (false, output)
parse_ipv4_literal (some text) none = (false, none)
parse_ipv4_literal (some []) (some output) = (false, some output)
parse_ipv4_literal (some (c ∷ cs)) (some output) =
    let (done, output') = store output (parse_octets 3 (c ∷ cs)) in (done, some output')
