-- ===== src/Tunnel/Text.antt =====
-- `trim` of moonlight/tunnel.c, and the C library's functions on strings that `load_peer_config`
-- uses, written out. A C string is the list of its characters, without the NUL.
use moonlight_tailscale_vita.Common.{
  ℕ, zero, suc, ◌+◌, ◌-◌, ◌*◌, Bool, true, false, ◌&&◌, ◌||◌, Option, none, some, List, [], ◌∷◌,
  Bytes, ℤ, pos, negsuc, neg, leb, ◌==◌, if◌then◌else◌,
}

-- Up to the first NUL.
unfoldable pub c_string : Bytes → Bytes
c_string [] = []
c_string (zero ∷ cs) = []
c_string (suc c ∷ cs) = suc c ∷ c_string cs

-- A line in front of the others, unless it is empty.
abbrev pub close_line : Bytes → List Bytes → List Bytes
close_line [] rest = rest
close_line (c ∷ line) rest = (c ∷ line) ∷ rest

-- The first line, and the lines behind it that are not empty.
unfoldable pub split_lines : Bytes → Bytes × List Bytes
split_lines [] = ([], [])
split_lines (c ∷ cs) =
    let rest = split_lines cs in
    if c == 10 then ([], close_line rest.0 rest.1) else (c ∷ rest.0, rest.1)

-- `strtok(…, "\n")`: the lines that are not empty.
unfoldable pub lines : Bytes → List Bytes
unfolding split_lines
lines cs = close_line (split_lines cs).0 (split_lines cs).1

abbrev pub is_blank : ℕ → Bool
is_blank c = c == 32 || c == 9

-- Also a carriage return or a line feed.
abbrev pub is_trailing : ℕ → Bool
is_trailing c = is_blank c || c == 13 || c == 10

unfoldable pub trim_start : Bytes → Bytes
trim_start [] = []
trim_start (c ∷ cs) = let rest = trim_start cs in if is_blank c then rest else c ∷ cs

-- The trailing characters go from the end.
abbrev pub drop_if_last : ℕ → Bytes → Bytes
drop_if_last c [] = if is_trailing c then [] else c ∷ []
drop_if_last c (d ∷ ds) = c ∷ d ∷ ds

unfoldable pub trim_end : Bytes → Bytes
trim_end [] = []
trim_end (c ∷ cs) = drop_if_last c (trim_end cs)

unfoldable pub trim : Bytes → Bytes
unfolding trim_start trim_end
trim value = trim_end (trim_start value)

-- `strchr`: what stands before the first `wanted` and behind it.
unfoldable pub split_at : ℕ → Bytes → Option (Bytes × Bytes)
split_at wanted [] = none
split_at wanted (c ∷ cs) =
    let rest = split_at wanted cs in
    if c == wanted
    then some ([], cs)
    else elim rest [ none ↦ none | some (before, behind) ↦ some (c ∷ before, behind) ]

abbrev pub is_digit : ℕ → Bool
is_digit c = leb 48 c && leb c 57

-- `isspace`
abbrev pub is_space : ℕ → Bool
is_space c = c == 32 || leb 9 c && leb c 13

unfoldable pub skip_spaces : Bytes → Bytes
skip_spaces [] = []
skip_spaces (c ∷ cs) = let rest = skip_spaces cs in if is_space c then rest else c ∷ cs

-- The digits at the front: their value on top of `value`, and what stands behind them.
unfoldable pub digits_from : (value : ℕ) → Bytes → ℕ × Bytes
digits_from value [] = (value, [])
digits_from value (c ∷ cs) =
    let rest = digits_from (value * 10 + (c - 48)) cs in
    if is_digit c then rest else (value, c ∷ cs)

abbrev pub starts_with_digit : Bytes → Bool
starts_with_digit [] = false
starts_with_digit (c ∷ cs) = is_digit c

unfoldable pub unsigned_from : Bytes → Option (ℕ × Bytes)
unfolding digits_from
unsigned_from cs = if starts_with_digit cs then some (digits_from 0 cs) else none

-- A sign that is there, and what stands behind it.
abbrev pub sign : Bytes → Bool × Bytes
sign [] = (false, [])
sign (c ∷ cs) = if c == 45 then (true, cs) else if c == 43 then (false, cs) else (false, c ∷ cs)

-- `strtol(value, &end, 10)`, with what is behind `end`; `none` is `end == value`. The largest
-- `long` is not reached by the values that the source accepts.
unfoldable pub strtol : Bytes → Option (ℤ × Bytes)
unfolding skip_spaces unsigned_from
strtol value =
    let (negative, unsigned) = sign (skip_spaces value) in
    elim (unsigned_from unsigned) [
      | none ↦ none
      | some (n, rest) ↦ some (if negative then neg n else pos n, rest)
    ]

-- `end == value || *end != '\0' || port < 1 || port > 65535`
unfoldable pub checked_port : Option (ℤ × Bytes) → Option ℕ
checked_port none = none
checked_port (some (negsuc n, rest)) = none
checked_port (some (pos port, c ∷ rest)) = none
checked_port (some (pos port, [])) = if leb 1 port && leb port 65535 then some port else none

unfoldable pub parse_port : Bytes → Option ℕ
unfolding strtol checked_port
parse_port value = checked_port (strtol value)
