-- ===== src/Tests/Disks.antt =====
-- The files of the flow probe at concrete inputs.
use moonlight_tailscale_vita.Common.{
  ℕ, Bool, true, false, ◌==◌, ==_iff, Option, none, some, [], ◌++◌, Bytes, ℤ, pos, negsuc, is_neg,
  int_is, ltb, if◌then◌else◌, length, take, take-length, replicate, ◌≡◌, ◌≢◌, ◌⊎◌, refl, sym, ap,
  ◌∙◌, arith, Bool-cases, inl, inr,
}
use moonlight_tailscale_vita.Flow.Keys.{
  Place, private_key, temporary, public_key, config, Disk, load_or_create_private_key,
}
use moonlight_tailscale_vita.Flow.Keys.Stored.{KeepsDisk, load_or_create_private_key_lem}

abbrev same_place : Place → Place → Bool
same_place private_key private_key = true
same_place public_key public_key = true
same_place config config = true
same_place (temporary m) (temporary n) = m == n
same_place _ _ = false

same_place_refl : (p : Place) → same_place p p ≡ true
same_place_refl private_key = refl
same_place_refl public_key = refl
same_place_refl config = refl
same_place_refl (temporary n) = ground arith

same_place-apart : (p q : Place) → p ≢ q → same_place p q ≡ false
same_place-apart private_key private_key h = absurd (h refl)
same_place-apart private_key public_key h = refl
same_place-apart private_key config h = refl
same_place-apart private_key (temporary n) h = refl
same_place-apart public_key private_key h = refl
same_place-apart public_key public_key h = absurd (h refl)
same_place-apart public_key config h = refl
same_place-apart public_key (temporary n) h = refl
same_place-apart config private_key h = refl
same_place-apart config public_key h = refl
same_place-apart config config h = absurd (h refl)
same_place-apart config (temporary n) h = refl
same_place-apart (temporary n) private_key h = refl
same_place-apart (temporary n) public_key h = refl
same_place-apart (temporary n) config h = refl
same_place-apart (temporary m) (temporary n) h = elim (Bool-cases (m == n)) [
  | inl e ↦ absurd (h (ap temporary ((==_iff m n).0 e)))
  | inr e ↦ e
]

-- Files with their contents, and the one that is open.
record Drawer : Type 0 where
  content : Place → Option Bytes
  open_one : Place

abbrev put : Place → Option Bytes → Drawer → Drawer
put p v w = record w { content = λ q. if same_place p q then v else w.content q }

put-at : (p : Place) (v : Option Bytes) (w : Drawer) → (put p v w).content p ≡ v
put-at p v w = rw (same_place_refl p) refl

put-others :
    (p q : Place) (v : Option Bytes) (w : Drawer) → p ≢ q → (put p v w).content q ≡ w.content q
put-others p q v w h = rw (same_place-apart p q h) refl

-- A call fails on a file that is not there.
abbrev if_there : Option Bytes → ℤ
if_there none = negsuc 0
if_there (some b) = pos 0

abbrev read_whole : ℕ → Option Bytes → ℤ × Bytes
read_whole size none = (negsuc 0, [])
read_whole size (some b) = if ltb (length b) size then (pos (length b), b) else (negsuc 0, [])

abbrev appended : Bytes → Option Bytes → Option Bytes
appended data' none = none
appended data' (some b) = some (b ++ data')

abbrev drawer : Disk Drawer
drawer = record {
  open_read = λ p w. (if_there (w.content p), record w { open_one = p });
  open_truncated = λ p mode w. (pos 3, record (put p (some []) w) { open_one = p });
  open_exclusive = λ p mode w. (negsuc 0, w);
  read = λ fd n w. let (count, b) = read_whole n (w.content w.open_one) in (count, b, w);
  write = λ fd b w. (pos (length b), put w.open_one (appended b (w.content w.open_one)) w);
  sync = λ fd w. (pos 0, w);
  close = λ fd w. w;
  stat = λ p w. (if_there (w.content p), w);
  rename = λ p q w. (pos 0, put q (w.content p) w);
  remove = λ p w. put p none w;
  random_number = λ n w. (pos 0, replicate n 77, w);
  process_time = λ w. 5;
  base64_encode = λ b room. some (replicate 44 65);
  base64_decode = λ b room. some (replicate 32 1);
}

read_whole_all :
    (o : Option Bytes) (n count : ℕ)
    → int_is (read_whole n o).0 count ≡ true
    → o ≡ some (take count (read_whole n o).1)
read_whole_all none n count h = absurd (ground (arith, h))
read_whole_all (some b) n count h = elim (Bool-cases (ltb (length b) n)) [
  | inr e ↦ absurd (ground (arith, e, h))
  | inl e ↦
      let size : length b ≡ count = ground (arith, e, h) in
      rw e (ap some (sym (take-length b) ∙ ap (λ (m : ℕ). take m b) size))
]

-- The truncated file, open.
abbrev opened : Place → Drawer → Drawer
opened p w = record (put p (some []) w) { open_one = p }

drawer-KeepsDisk : KeepsDisk drawer (λ w p. w.content p)
drawer-KeepsDisk = record {
  opens = λ p q w. refl;
  reads = λ fd n q w. refl;
  reads_all = λ p n count w there less h. read_whole_all (w.content p) n count h;
  truncates_one = λ p q mode w h. put-others p q (some []) w h;
  writes = λ p mode b w h e.
      put-at p (appended b ((put p (some []) w).content p)) (opened p w)
      ∙ ap (appended b) (put-at p (some []) w);
  writes_one = λ p q mode b w h e.
      put-others p q (appended b ((put p (some []) w).content p)) (opened p w) e;
  syncs = λ fd q w. refl;
  closes = λ fd q w. refl;
  stats = λ p q w. refl;
  renames = λ p q w h. put-at q (w.content p) w;
  renames_failed = λ p q w h. absurd (ground (arith, h));
  removes = λ p q w h. put-others p q none w h;
  random_numbers = λ n q w. refl;
}

abbrev empty_drawer : Drawer
empty_drawer = record { content = λ p. none; open_one = config }

load_or_create_private_key_lem_example :
    let ((result, key, created), w') = load_or_create_private_key drawer empty_drawer in
    let (file, w1) = drawer.open_read private_key empty_drawer in
    ((w'.content private_key ≡ none)
      ⊎ ((is_neg file ≡ true)
          × (is_neg (drawer.stat private_key w1).0 ≡ true)
          × (created ≡ true)
          × (w'.content private_key ≡ some key)))
    × (is_neg result ≡ false → w'.content private_key ≡ some key)
load_or_create_private_key_lem_example =
    load_or_create_private_key_lem drawer (λ w p. w.content p) drawer-KeepsDisk empty_drawer
