-- ===== src/Ipv4Literal/Spec.antt =====
-- What a dotted IPv4 address is, apart from how it is read, and that the reader accepts just that.
use moonlight_tailscale_vita.Common.{
  ℕ, zero, suc, ◌+◌, ◌-◌, ◌*◌, ◌≤◌, ◌<◌, ◌≡◌, refl, sym, ap, ap₂, subst, ◌∙◌, ◌↔◌, inl, inr, true,
  false, ◌||◌, ltb, Option, some, [], ◌∷◌, ◌++◌, append-nil, Bytes, length, arith, Bool-cases,
  Option-cases, All, length-append, u8, u32,
}
use mathlib.Core.Bool.{false≢true}
use moonlight_tailscale_vita.Ipv4Literal.{
  is_digit, starts_with_digit, read_octet, read_separator, read_round, parse_octets,
  parse_ipv4_literal,
}

abbrev pub AllDigits : Bytes → Type 0
AllDigits = All (λ c. is_digit c ≡ true)

-- The number that decimal digits stand for, behind those that stand for `v`.
abbrev pub decimal : ℕ → Bytes → ℕ
decimal v [] = v
decimal v (c ∷ cs) = decimal (v * 10 + (c - b'0')) cs

-- One to three digits of a value up to 255. Leading zeros are allowed.
pub record IsOctet (ds : Bytes) (v : ℕ) : Type 0 where
  pub digits : AllDigits ds
  pub some_digit : 0 < length ds
  pub few_digits : length ds ≤ 3
  pub value : decimal 0 ds ≡ v
  pub fits : v ≤ 255

-- `n` octets with a dot behind each, and a last one.
abbrev pub IsDotted : ℕ → Bytes → Bytes → Type 0
IsDotted zero text vs = (v : ℕ) × IsOctet text v × (vs ≡ v ∷ [])
IsDotted (suc n) text vs =
    (ds : Bytes) × (v : ℕ) × (rest : Bytes) × (vs' : Bytes) × IsOctet ds v
    × (text ≡ ds ++ b'.' ∷ rest)
    × (vs ≡ v ∷ vs')
    × IsDotted n rest vs'

decimal-ge : (ds : Bytes) (v : ℕ) → v ≤ decimal v ds
decimal-ge [] v = omega arith
decimal-ge (c ∷ cs) v = omega (arith, decimal-ge cs (v * 10 + (c - b'0')))

-- All digits at the front are taken, and nothing else.
read_octet_complete :
    (ds rest : Bytes) (v n : ℕ)
    → AllDigits ds
    → decimal v ds ≤ 255
    → n + length ds ≤ 3
    → starts_with_digit rest ≡ false
    → read_octet v n (ds ++ rest) ≡ some (decimal v ds, rest)
unfolding read_octet
read_octet_complete [] [] v n d f l s = refl
read_octet_complete [] (c ∷ cs) v n d f l s = unfold starts_with_digit in ground arith
read_octet_complete (c ∷ cs) rest v n (h, d) f l s = ground (
  arith,
  decimal-ge cs (v * 10 + (c - b'0')),
  read_octet_complete cs rest (v * 10 + (c - b'0')) (n + 1) d f,
)

-- What `read_octet` takes and leaves.
record Taken (v n : ℕ) (text : Bytes) (w : ℕ) (rest : Bytes) : Type 0 where
  ds : Bytes
  splits : text ≡ ds ++ rest
  digits : AllDigits ds
  value : decimal v ds ≡ w
  few_digits : n + length ds ≤ 3
  fits : w ≤ 255
  stops : starts_with_digit rest ≡ false

Taken-cons :
    {v n w c : ℕ} {cs rest : Bytes}
    → is_digit c ≡ true
    → Taken (v * 10 + (c - b'0')) (n + 1) cs w rest
    → Taken v n (c ∷ cs) w rest
Taken-cons {c} d t = record {
  ds = c ∷ t.ds;
  splits = ap (◌∷◌ c) t.splits;
  digits = (d, t.digits);
  value = t.value;
  few_digits = omega (arith, t.few_digits);
  fits = t.fits;
  stops = t.stops;
}

Taken-nil :
    {v n w : ℕ} {text rest : Bytes}
    → v ≤ 255
    → n ≤ 3
    → v ≡ w
    → text ≡ rest
    → starts_with_digit text ≡ false
    → Taken v n text w rest
Taken-nil hv hn e h s = record {
  ds = [];
  splits = h;
  digits = tt;
  value = e;
  few_digits = omega arith;
  fits = omega arith;
  stops = rw (← h) s;
}

read_octet_sound :
    (text : Bytes) (v n : ℕ) {w : ℕ} {rest : Bytes}
    → v ≤ 255
    → n ≤ 3
    → read_octet v n text ≡ some (w, rest)
    → Taken v n text w rest
unfolding read_octet
read_octet_sound [] v n hv hn h =
    Taken-nil hv hn (ground arith) (ground arith) (unfold starts_with_digit in refl)
read_octet_sound (c ∷ cs) v n hv hn h = elim (Bool-cases (is_digit c)) [
  | inl d ↦ elim (Bool-cases (ltb 3 (n + 1) || ltb 255 (u32 (v * 10 + (c - b'0'))))) [
    | inl big ↦ absurd (ground arith)
    | inr small ↦ Taken-cons d (
        read_octet_sound cs (v * 10 + (c - b'0')) (n + 1) (ground arith) (ground arith)
          (ground arith))
  ]
  | inr other ↦ Taken-nil hv hn (ground arith) (ground arith) (unfold starts_with_digit in other)
]

abbrev Joined : ℕ → Bytes → Bytes → Bytes → Type 0
Joined zero text ds after = text ≡ ds
Joined (suc n) text ds after = text ≡ ds ++ b'.' ∷ after

-- What one round reads.
abbrev Round : ℕ → Bytes → ℕ → Bytes → Type 0
Round left text v after = (ds : Bytes) × IsOctet ds v × Joined left text ds after

Taken-IsOctet :
    {text rest : Bytes} {w : ℕ}
    → starts_with_digit text ≡ true
    → (t : Taken 0 0 text w rest) → IsOctet t.ds w
Taken-IsOctet {text} {rest} h t = record {
  digits = t.digits;
  some_digit = nonempty t.ds t.splits;
  few_digits = omega (arith, t.few_digits);
  value = t.value;
  fits = t.fits;
}
  where
    nonempty : (ds : Bytes) → text ≡ ds ++ rest → 0 < length ds
    nonempty [] e = absurd (false≢true (sym t.stops ∙ ap starts_with_digit (sym e) ∙ h))
    nonempty (d ∷ ds) e = omega arith

read_separator_sound :
    (left : ℕ) (text ds rest after : Bytes)
    → text ≡ ds ++ rest
    → read_separator left rest ≡ some after
    → Joined left text ds after
unfolding read_separator
read_separator_sound zero text ds [] after e h = e ∙ append-nil ds
read_separator_sound zero text ds (c ∷ cs) after e h = absurd (ground arith)
read_separator_sound (suc n) text ds [] after e h = absurd (ground arith)
read_separator_sound (suc n) text ds (c ∷ cs) after e h =
    e ∙ ap (λ r. ds ++ r) (ap₂ ◌∷◌ (ground arith) (ground arith))

-- The steps of a round that succeeds.
record RoundSteps (left : ℕ) (text : Bytes) (v : ℕ) (after : Bytes) : Type 0 where
  w : ℕ
  rest : Bytes
  digit : starts_with_digit text ≡ true
  octet : read_octet 0 0 text ≡ some (w, rest)
  separator : read_separator left rest ≡ some after
  cast : u8 w ≡ v

read_round-RoundSteps :
    (left : ℕ) (text : Bytes) {v : ℕ} {after : Bytes}
    → read_round left text ≡ some (v, after)
    → RoundSteps left text v after
unfolding read_round
read_round-RoundSteps left text h = elim (Option-cases (read_octet 0 0 text)) [
  | inl e ↦ absurd (ground arith)
  | inr ((w, rest), e) ↦ record {
    w = w;
    rest = rest;
    digit = ground arith;
    octet = e;
    separator = ground arith;
    cast = ground arith;
  }
]

read_round_sound :
    (left : ℕ) (text : Bytes) {v : ℕ} {after : Bytes}
    → read_round left text ≡ some (v, after)
    → Round left text v after
read_round_sound left text {v} {after} h =
    let s = read_round-RoundSteps left text h in
    let t : Taken 0 0 text s.w s.rest =
      read_octet_sound text 0 0 (omega arith) (omega arith) s.octet in
    let e : s.w ≡ v = omega (arith, s.cast, t.fits) in
    (
      t.ds,
      subst (IsOctet t.ds) e (Taken-IsOctet s.digit t),
      read_separator_sound left text t.ds s.rest after t.splits s.separator,
    )

read_separator_complete :
    (left : ℕ) (text ds after : Bytes)
    → Joined left text ds after
    → (left ≡ 0 → after ≡ [])
    → (rest : Bytes) × (text ≡ ds ++ rest)
      × (read_separator left rest ≡ some after)
      × (starts_with_digit rest ≡ false)
unfolding read_separator starts_with_digit
read_separator_complete zero text ds after j e =
    ([], j ∙ sym (append-nil ds), ap some (sym (e refl)), refl)
read_separator_complete (suc n) text ds after j e = (b'.' ∷ after, j, refl, refl)

starts_with_digit-IsOctet :
    {ds : Bytes} {v : ℕ} (rest : Bytes) → IsOctet ds v → starts_with_digit (ds ++ rest) ≡ true
starts_with_digit-IsOctet {ds} rest o = go ds o.some_digit o.digits
  where
    go : (ds : Bytes) → 0 < length ds → AllDigits ds → starts_with_digit (ds ++ rest) ≡ true
    go [] h d = absurd (omega arith)
    go (c ∷ cs) h d = unfold starts_with_digit in d.0

read_round_complete :
    (left : ℕ) (text : Bytes) (v : ℕ) (after : Bytes)
    → (left ≡ 0 → after ≡ [])
    → Round left text v after
    → read_round left text ≡ some (v, after)
unfolding read_round
read_round_complete left text v after e (ds, o, j) =
    let (rest, splits, separator, stops) = read_separator_complete left text ds after j e in
    let octet : read_octet 0 0 (ds ++ rest) ≡ some (decimal 0 ds, rest) =
      read_octet_complete ds rest 0 0 o.digits (omega (arith, o.value, o.fits))
        (omega (arith, o.few_digits)) stops in
    ground (arith, starts_with_digit-IsOctet rest o)

parse_octets_sound :
    (n : ℕ) (text : Bytes) {vs : Bytes} → parse_octets n text ≡ some vs → IsDotted n text vs
unfolding parse_octets
parse_octets_sound zero text {vs} h = elim (Option-cases (read_round 0 text)) [
  | inl e ↦ absurd (ground arith)
  | inr ((v, after), e) ↦ let (ds, o, j) = read_round_sound 0 text e in (v, rw j o, ground arith)
]
parse_octets_sound (suc n) text {vs} h = elim (Option-cases (read_round (suc n) text)) [
  | inl e ↦ absurd (ground arith)
  | inr ((v, after), e) ↦ elim (Option-cases (parse_octets n after)) [
    | inl e' ↦ absurd (ground arith)
    | inr (vs', e') ↦
        let (ds, o, j) = read_round_sound (suc n) text e in
        (ds, v, after, vs', o, j, ground arith, parse_octets_sound n after e')
  ]
]

parse_octets_complete :
    (n : ℕ) (text vs : Bytes) → IsDotted n text vs → parse_octets n text ≡ some vs
unfolding parse_octets
parse_octets_complete zero text vs (v, o, e) =
    rw (read_round_complete 0 text v [] (λ _. refl) (text, o, refl)) (ap some (sym e))
parse_octets_complete (suc n) text vs (ds, v, rest, vs', o, j, e, d) =
    rw
      (
        read_round_complete (suc n) text v rest (λ h. absurd (omega arith)) (ds, o, j),
        parse_octets_complete n rest vs' d,
      )
      (ap some (sym e))

IsDotted-ne-nil : {vs : Bytes} → ¬ IsDotted 3 [] vs
IsDotted-ne-nil (ds, v, rest, vs', o, j, e, d) =
    absurd (omega (arith, ap length j, length-append ds (b'.' ∷ rest)))

-- The reader succeeds exactly on four dotted decimal octets of one to three digits up to 255, and
-- then stores their values.
pub parse_ipv4_literal_iff :
    (text output vs : Bytes)
    → (parse_ipv4_literal (some text) (some output) ≡ (true, some vs)) ↔ IsDotted 3 text vs
unfolding parse_ipv4_literal
parse_ipv4_literal_iff [] output vs = (λ h. absurd (ground arith), λ d. absurd (IsDotted-ne-nil d))
parse_ipv4_literal_iff (c ∷ cs) output vs = (
  λ h. parse_octets_sound 3 (c ∷ cs) (ground arith),
  λ d. rw (parse_octets_complete 3 (c ∷ cs) vs d) refl,
)

-- A refused text leaves the caller's four bytes as they were, and so do NULL pointers.
pub parse_ipv4_literal_unchanged :
    (text output : Option Bytes)
    → (parse_ipv4_literal text output).0 ≡ false
    → (parse_ipv4_literal text output).1 ≡ output
unfolding parse_ipv4_literal
parse_ipv4_literal_unchanged text output h = ground arith
