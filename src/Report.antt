-- ===== src/Report.antt =====
-- The report of the probes: lines on the screen and in a log file. src/main.c and
-- src/wg_handshake_probe.c have the same functions with other sizes; src/wg_crypto_probe.c stops at
-- its last line, in the file too.
pub mod Complete
use moonlight_tailscale_vita.Common.{
  ℕ, zero, suc, ◌+◌, ◌-◌, ◌*◌, Bool, true, false, not, List, [], ◌∷◌, ◌++◌, Bytes, ℤ, pos, negsuc,
  is_neg, ltb, leb, if◌then◌else◌, length, take, drop, min,
}
use moonlight_tailscale_vita.Common.State.{State, ◌>>=◌, ◌>>◌, pure, get, modify}

-- `LogLevel` and `LineLevel`
pub data Level : Type 0 where
  info : Level
  ok : Level
  warn : Level
  error : Level

-- `prefixes[level]`
abbrev pub level_name : Level → Bytes
level_name info = 73 ∷ 78 ∷ 70 ∷ 79 ∷ []
level_name ok = 79 ∷ 75 ∷ []
level_name warn = 87 ∷ 65 ∷ 82 ∷ 78 ∷ []
level_name error = 69 ∷ 82 ∷ 82 ∷ 79 ∷ 82 ∷ []

-- MAX_LOG_LINES and LOG_LINE_LENGTH, the number of visible lines and the distance of their rows.
pub record Sizes : Type 0 where
  pub max_lines : ℕ
  pub line_length : ℕ
  pub visible_lines : ℕ
  pub row_height : ℕ

-- Of src/main.c and of src/wg_handshake_probe.c.
abbrev pub probe_sizes : Sizes
probe_sizes = record { max_lines = 64; line_length = 192; visible_lines = 18; row_height = 23 }

abbrev pub flow_sizes : Sizes
flow_sizes = record { max_lines = 20; line_length = 180; visible_lines = 17; row_height = 24 }

pub record Line : Type 0 where
  pub level : Level
  pub text : Bytes

-- A line of text and the `y` at which it is drawn.
pub record Row : Type 0 where
  pub y : ℕ
  pub line : Line

-- The log's file, and the screen, which draws the rows of a report.
pub record Device (World : Type 0) : Type 0 where
  pub make_directory : World → World
  pub open_log : World → ℤ × World
  pub write_log : ℤ → Bytes → World → World
  pub close_file : ℤ → World → World
  pub draw : List Row → World → World

-- `g_lines` up to `g_line_count`, and `g_log_fd`.
pub record Report (World : Type 0) : Type 0 where
  pub lines : List Line
  pub log_fd : ℤ
  pub world : World

-- `snprintf` into `size` bytes: what does not fit in front of the NUL is cut off.
abbrev pub print_into : ℕ → Bytes → Bytes
print_into size text = take (size - 1) text

-- "[%s] %s\n"
abbrev pub persisted : Line → Bytes
persisted line = (91 ∷ level_name line.level) ++ (93 ∷ 32 ∷ line.text) ++ (10 ∷ [])

pub rows_from : ℕ → ℕ → List Line → List Row
rows_from height y [] = []
rows_from height y (line ∷ rest) =
    record { y = y; line = line } ∷ rows_from height (y + height) rest

module _ {World : Type 0} (x : Device World) (sizes : Sizes) where
  -- The lines from `first` on, downwards from 82.
  unfoldable pub visible : List Line → List Row
  unfolding rows_from
  visible lines = rows_from sizes.row_height 82 (drop (length lines - sizes.visible_lines) lines)

  -- Every report is made after `main` has loaded the font, without which `render` draws nothing.
  unfoldable pub render : State (Report World) (Unit {0})
  render r = (tt, record r { world = x.draw (visible r.lines) r.world })

  unfoldable pub close_log : State (Report World) (Unit {0})
  close_log r =
      if is_neg r.log_fd
      then (tt, r)
      else (tt, record r { log_fd = negsuc 0; world = x.close_file r.log_fd r.world })

  -- `open_log` of src/main.c stands at the end of `reset_report`; in src/wg_handshake_probe.c its
  -- statements do, around the two that empty the lines.
  unfoldable pub open_log : State (Report World) (Unit {0})
  unfolding close_log
  open_log = do
    close_log
    modify (λ r.
        let (fd, world') = x.open_log (x.make_directory r.world) in
        record r { log_fd = fd; world = world' })

  unfoldable pub reset_report : State (Report World) (Unit {0})
  unfolding open_log
  reset_report = do modify (λ r. record r { lines = [] }); open_log

  -- The line on the screen, while there is room for it.
  unfoldable pub store_line : Line → State (Report World) (Unit {0})
  store_line line r =
      if ltb (length r.lines) sizes.max_lines
      then (tt, record r { lines = r.lines ++ (line ∷ []) })
      else (tt, r)

  -- The line in the file: at most what the buffer of `line_length + 24` bytes holds.
  unfoldable pub write_line : Line → State (Report World) (Unit {0})
  write_line line r =
      if is_neg r.log_fd
      then (tt, r)
      else (let buffer = sizes.line_length + 24 in
          let count = length (persisted line) in
          let write_length = if leb buffer count then buffer - 1 else count in
          (
            tt,
            record r {
              world =
                  x.write_log r.log_fd (take write_length (print_into buffer (persisted line)))
                    r.world;
            },
          ))

  -- The third argument of the source, once its format is printed.
  unfoldable pub log_message : Level → Bytes → State (Report World) (Unit {0})
  unfolding store_line write_line render
  log_message level printed = do
    let line : Line = record { level = level; text = print_into sizes.line_length printed }
    store_line line
    write_line line
    render
