-- ===== src/Report/Complete.antt =====
-- What the screen and the file hold after any number of messages.
use moonlight_tailscale_vita.Common.{
  ℕ, ◌+◌, ◌-◌, ◌≤◌, ◌<◌, false, List, [], ◌∷◌, ◌++◌, append-nil, append_assoc, Bytes, ℤ, is_neg,
  ltb, leb, if◌then◌else◌, length, length-append, length-take, take, take-length,
  take-length-append, take_all, map, ◌≡◌, refl, sym, ap, ◌∙◌, arith, Bool-cases, inl, inr,
}
use moonlight_tailscale_vita.Report.{
  Level, info, ok, warn, error, level_name, Sizes, Line, Row, Device, Report, print_into, persisted,
  render, store_line, write_line, log_message, reset_report, open_log, close_log,
}

-- A message: its level and its text, printed.
pub record Message : Type 0 where
  pub level : Level
  pub text : Bytes

-- A file of which the log is the bytes that were written to it.
pub record KeepsFile {World : Type 0} (x : Device World) (file : World → Bytes) : Type 0 where
  pub opens : (w : World) → file (x.open_log w).1 ≡ []
  pub writes :
      (fd : ℤ) (bytes : Bytes) (w : World) → file (x.write_log fd bytes w) ≡ file w ++ bytes
  pub draws : (rows : List Row) (w : World) → file (x.draw rows w) ≡ file w

length-level_name : (level : Level) → length (level_name level) ≤ 5
length-level_name info = omega arith
length-level_name ok = omega arith
length-level_name warn = omega arith
length-level_name error = omega arith

length_framed :
    (name text : Bytes)
    → length ((91 ∷ name) ++ (93 ∷ 32 ∷ text) ++ (10 ∷ [])) ≡ 4 + length name + length text
length_framed name text =
    omega (
      arith,
      length-append (name ++ (93 ∷ 32 ∷ text)) (10 ∷ []),
      length-append name (93 ∷ 32 ∷ text),
    )

module _ {World : Type 0} (x : Device World) (sizes : Sizes) where
  -- The line of a message, cut to its length.
  abbrev pub line_of : Message → Line
  line_of m = record { level = m.level; text = print_into sizes.line_length m.text }

  unfoldable pub log_all : List Message → Report World → Report World
  log_all [] r = r
  log_all (m ∷ rest) r = log_all rest (log_message x sizes m.level m.text r).1

  abbrev pub written : List Message → Bytes
  written [] = []
  written (m ∷ ms) = persisted (line_of m) ++ written ms

  log_message-lines :
      (m : Message) (r : Report World)
      → (log_message x sizes m.level m.text r).1.lines
        ≡ (if ltb (length r.lines) sizes.max_lines then r.lines ++ (line_of m ∷ []) else r.lines)
  unfolding log_message store_line write_line render
  log_message-lines m r = ground arith

  log_message-fd :
      (m : Message) (r : Report World) → (log_message x sizes m.level m.text r).1.log_fd ≡ r.log_fd
  unfolding log_message store_line write_line render
  log_message-fd m r = ground arith

  length-persisted : (m : Message) → length (persisted (line_of m)) ≤ 9 + (sizes.line_length - 1)
  length-persisted m = omega (
    arith,
    length_framed (level_name m.level) (print_into sizes.line_length m.text),
    length-take (sizes.line_length - 1) m.text,
    length-level_name m.level,
  )

  -- The buffer of the file's line is large enough for every line.
  whole_line :
      (m : Message)
      → 0 < sizes.line_length
      → let line = line_of m in
        let buffer = sizes.line_length + 24 in
        let count = length (persisted line) in
        take (if leb buffer count then buffer - 1 else count) (print_into buffer (persisted line))
        ≡ persisted line
  whole_line m room =
      let line = line_of m in
      let size = length-persisted m in
      let e : leb (sizes.line_length + 24) (length (persisted line)) ≡ false =
        ground (arith, size) in
      let all = take_all (sizes.line_length + 24 - 1) (persisted line) (omega (arith, size)) in
      rw e (ap (take (length (persisted line))) all ∙ take-length (persisted line))

  write_line-file :
      (file : World → Bytes)
      → KeepsFile x file
      → (m : Message) (r : Report World) → 0 < sizes.line_length
      → is_neg r.log_fd ≡ false
      → file (write_line x sizes (line_of m) r).1.world ≡ file r.world ++ persisted (line_of m)
  unfolding write_line
  write_line-file file k m r room fine =
      rw fine
        (k.writes r.log_fd _ r.world ∙ ap (λ (b : Bytes). file r.world ++ b) (whole_line m room))

  store_line-world :
      (line : Line) (r : Report World)
      → ((store_line x sizes line r).1.world ≡ r.world)
        × ((store_line x sizes line r).1.log_fd ≡ r.log_fd)
  unfolding store_line
  store_line-world line r = ground arith

  log_message-file :
      (file : World → Bytes)
      → KeepsFile x file
      → (m : Message) (r : Report World) → 0 < sizes.line_length
      → is_neg r.log_fd ≡ false
      → file (log_message x sizes m.level m.text r).1.world ≡ file r.world ++ persisted (line_of m)
  unfolding log_message render
  log_message-file file k m r room fine =
      let stored = (store_line x sizes (line_of m) r).1 in
      let same' = store_line-world (line_of m) r in
      k.draws _ _
      ∙ write_line-file file k m stored room (ap is_neg same'.1 ∙ fine)
      ∙ ap (λ (w : World). file w ++ persisted (line_of m)) same'.0

  front_kept :
      (ls rest : List Line) → length ls ≡ sizes.max_lines → take sizes.max_lines (ls ++ rest) ≡ ls
  front_kept ls rest e = ap (λ (n : ℕ). take n (ls ++ rest)) (sym e) ∙ take-length-append ls rest

  close_log-lines : (r : Report World) → (close_log x sizes r).1.lines ≡ r.lines
  unfolding close_log
  close_log-lines r = ground arith

  -- The lines of the screen, after those that are there.
  log_all-lines :
      (ms : List Message) (r : Report World)
      → length r.lines ≤ sizes.max_lines
      → (log_all ms r).lines ≡ take sizes.max_lines (r.lines ++ map line_of ms)
  unfolding log_all
  log_all-lines [] r h =
      sym (ap (take sizes.max_lines) (append-nil r.lines) ∙ take_all sizes.max_lines r.lines h)
  log_all-lines (m ∷ ms) r h =
      let next = (log_message x sizes m.level m.text r).1 in
      let lines' = log_message-lines m r in
      let more = r.lines ++ (line_of m ∷ []) in
      elim (Bool-cases (ltb (length r.lines) sizes.max_lines)) [
        | inl room ↦
            let e : next.lines ≡ more = lines' ∙ rw room refl in
            let size : length more ≡ length r.lines + 1 = length-append r.lines (line_of m ∷ []) in
            log_all-lines ms next (ground (arith, ap length e, size))
            ∙ ap (λ (ls : List Line). take sizes.max_lines (ls ++ map line_of ms)) e
            ∙ ap (take sizes.max_lines) (append_assoc r.lines (line_of m ∷ []) (map line_of ms))
        | inr full ↦
            let e : next.lines ≡ r.lines = lines' ∙ rw full refl in
            let exact : length r.lines ≡ sizes.max_lines = ground arith in
            log_all-lines ms next (ground (arith, ap length e))
            ∙ ap (λ (ls : List Line). take sizes.max_lines (ls ++ map line_of ms)) e
            ∙ front_kept r.lines (map line_of ms) exact
            ∙ sym (front_kept r.lines (line_of m ∷ map line_of ms) exact)
      ]

  log_all-file :
      (file : World → Bytes)
      → KeepsFile x file
      → (ms : List Message) (r : Report World) → 0 < sizes.line_length
      → is_neg r.log_fd ≡ false
      → file (log_all ms r).world ≡ file r.world ++ written ms
  unfolding log_all
  log_all-file file k [] r room fine = sym (append-nil (file r.world))
  log_all-file file k (m ∷ ms) r room fine =
      let next = (log_message x sizes m.level m.text r).1 in
      log_all-file file k ms next room (ap is_neg (log_message-fd m r) ∙ fine)
      ∙ ap (λ (f : Bytes). f ++ written ms) (log_message-file file k m r room fine)
      ∙ append_assoc (file r.world) (persisted (line_of m)) (written ms)

  -- If the log is a file to which the writes append, and it could be opened: after a reset and any
  -- messages, the file holds every message's line, whole, with its level in front, and the screen's
  -- lines are those of the first `max_lines` messages.
  pub reset_report_lem :
      (file : World → Bytes)
      → KeepsFile x file
      → (ms : List Message) (r : Report World) → 0 < sizes.line_length
      → is_neg (reset_report x sizes r).1.log_fd ≡ false
      → let after = log_all ms (reset_report x sizes r).1 in
        (file after.world ≡ written ms) × (after.lines ≡ take sizes.max_lines (map line_of ms))
  unfolding reset_report open_log
  reset_report_lem file k ms r room fine =
      let begun = (reset_report x sizes r).1 in
      let empty : file begun.world ≡ [] = k.opens _ in
      let no_lines : begun.lines ≡ [] = close_log-lines _ in
      (
        log_all-file file k ms begun room fine ∙ ap (λ (f : Bytes). f ++ written ms) empty,
        log_all-lines ms begun (ground (arith, ap length no_lines))
            ∙ ap (λ (ls : List Line). take sizes.max_lines (ls ++ map line_of ms)) no_lines,
      )
