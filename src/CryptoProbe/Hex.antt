-- ===== src/CryptoProbe/Hex.antt =====
-- What `decode_hex` accepts.
use moonlight_tailscale_vita.Common.{
  ℕ, suc, ◌+◌, ◌*◌, ◌/◌, ◌%◌, ◌<◌, Bool, true, false, ◌&&◌, ◌||◌, ||_parts, [], ◌∷◌, map, Bytes,
  IsBytes, pos, is_neg, to_nat, ltb, leb, ◌==◌, ==_iff, if◌then◌else◌, length, get_or, drop, ◌≡◌,
  ◌↔◌, refl, sym, ap, subst, ap₂, ◌∙◌, arith, Bool-cases, inl, inr,
}
use moonlight_tailscale_vita.CryptoProbe.{hex_nibble, decode_pairs, decode_hex}

-- The letters A to F in small.
abbrev pub lower : ℕ → ℕ
lower c = if leb 65 c && leb c 70 then c + 32 else c

abbrev pub hex_digit : ℕ → ℕ
hex_digit n = if ltb n 10 then n + 48 else n + 87

-- Two digits for each byte.
abbrev pub encode_hex : Bytes → Bytes
encode_hex [] = []
encode_hex (b ∷ bs) = hex_digit (b / 16) ∷ hex_digit (b % 16) ∷ encode_hex bs

hex_nibble_read :
    (c : ℕ)
    → is_neg (hex_nibble c) ≡ false
    → (to_nat (hex_nibble c) < 16) × (lower c ≡ hex_digit (to_nat (hex_nibble c)))
unfolding hex_nibble
hex_nibble_read c h = ground arith

hex_nibble-hex_digit : (c n : ℕ) → n < 16 → lower c ≡ hex_digit n → hex_nibble c ≡ pos n
unfolding hex_nibble
hex_nibble-hex_digit c n h e = ground arith

-- The digits of a byte and its value.
byte_parts : (h l : ℕ) → l < 16 → ((h * 16 + l) / 16 ≡ h) × ((h * 16 + l) % 16 ≡ l)
byte_parts h l less = (omega arith, omega arith)

decode_pairs_sound :
    (input output : Bytes)
    → length input ≡ length output * 2
    → (decode_pairs input output).0 ≡ true
    → let out = (decode_pairs input output).1 in
      (map lower input ≡ encode_hex out) × (IsBytes out) × (length out ≡ length output)
unfolding decode_pairs
decode_pairs_sound [] [] size h = (refl, tt, refl)
decode_pairs_sound [] (b ∷ output) size h = absurd (omega arith)
decode_pairs_sound (c ∷ []) [] size h = absurd (omega arith)
decode_pairs_sound (c ∷ []) (b ∷ output) size h = absurd (omega arith)
decode_pairs_sound (c ∷ d ∷ input) [] size h = absurd (omega arith)
decode_pairs_sound (c ∷ d ∷ input) (b ∷ output) size h =
    let test = is_neg (hex_nibble c) || is_neg (hex_nibble d) in
    elim (Bool-cases test) [
      | inl e ↦ absurd (ground (arith, e, h))
      | inr e ↦
          let (ec, ed) = ||_parts (is_neg (hex_nibble c)) (is_neg (hex_nibble d)) e in
          let (high, c_digit) = hex_nibble_read c ec in
          let (low, d_digit) = hex_nibble_read d ed in
          let h' : (decode_pairs input output).0 ≡ true = sym (rw e refl) ∙ h in
          let (same', bytes, count) = decode_pairs_sound input output (omega arith) h' in
          let (upper, lower_digit) =
            byte_parts (to_nat (hex_nibble c)) (to_nat (hex_nibble d)) low in
          rw e (
            rw upper (
                rw lower_digit (
                  ap₂ (λ (x : ℕ) (xs : Bytes). x ∷ xs) c_digit
                    (ap₂ (λ (x : ℕ) (xs : Bytes). x ∷ xs) d_digit same'))),
            (omega arith, bytes),
            ap suc count,
          )
    ]

decode_pairs_complete :
    (input output out : Bytes)
    → IsBytes out
    → length out ≡ length output
    → map lower input ≡ encode_hex out
    → decode_pairs input output ≡ (true, out)
unfolding decode_pairs
decode_pairs_complete [] [] [] bytes size h = refl
decode_pairs_complete [] (b ∷ output) [] bytes size h = absurd (omega arith)
decode_pairs_complete (c ∷ input) output [] bytes size h = absurd (ground arith)
decode_pairs_complete [] output (o ∷ out) bytes size h = absurd (ground arith)
decode_pairs_complete (c ∷ []) output (o ∷ out) bytes size h = absurd (ground arith)
decode_pairs_complete (c ∷ d ∷ input) [] (o ∷ out) bytes size h = absurd (omega arith)
decode_pairs_complete (c ∷ d ∷ input) (b ∷ output) (o ∷ out) bytes size h =
    let c_digit : lower c ≡ hex_digit (o / 16) = ap (λ (xs : Bytes). get_or xs 0 0) h in
    let d_digit : lower d ≡ hex_digit (o % 16) = ap (λ (xs : Bytes). get_or xs 1 0) h in
    let others : map lower input ≡ encode_hex out = ap (drop 2) h in
    let high = hex_nibble-hex_digit c (o / 16) (omega (arith, bytes.0)) c_digit in
    let low = hex_nibble-hex_digit d (o % 16) (omega arith) d_digit in
    let rest = decode_pairs_complete input output out bytes.1 (omega arith) others in
    let value : o / 16 * 16 + o % 16 ≡ o = omega arith in
    rw high (rw low (rw rest (ap (λ (n : ℕ). (true, n ∷ out)) value)))

length-encode_hex : (bs : Bytes) → length (encode_hex bs) ≡ length bs * 2
length-encode_hex [] = refl
length-encode_hex (b ∷ bs) = omega (arith, length-encode_hex bs)

length-map : (f : ℕ → ℕ) (xs : Bytes) → length (map f xs) ≡ length xs
length-map f [] = refl
length-map f (x ∷ xs) = ap suc (length-map f xs)

-- A text decodes to `out` exactly if it is the text of `out` in hexadecimal digits, large or small,
-- and has two digits for each byte of the buffer.
pub decode_hex_iff :
    (input output out : Bytes)
    → (decode_hex input output ≡ (true, out))
      ↔ ((map lower input ≡ encode_hex out) × (IsBytes out) × (length out ≡ length output))
unfolding decode_hex
decode_hex_iff input output out = (
  λ e. elim (Bool-cases (length input == length output * 2)) [
    | inl fits ↦
        let whole : decode_pairs input output ≡ (true, out) = sym (rw fits refl) ∙ e in
        let size = (==_iff (length input) (length output * 2)).0 fits in
        let found = decode_pairs_sound input output size (ap (λ (r : Bool × Bytes). r.0) whole) in
        subst
          (λ (o : Bytes).
            (map lower input ≡ encode_hex o) × (IsBytes o) × (length o ≡ length output))
          (ap (λ (r : Bool × Bytes). r.1) whole) found
    | inr off ↦ absurd (ground (arith, e, off))
  ],
  λ (e, bytes, size).
      let count = ap length e in
      let fits : (length input == length output * 2) ≡ true =
        (==_iff (length input) (length output * 2)).1
          (omega (arith, count, length-map lower input, length-encode_hex out)) in
      rw fits (decode_pairs_complete input output out bytes size e),
)
