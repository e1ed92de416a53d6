-- ===== src/Shim/Tables.antt =====
-- The descriptor flags and socket types that the shim keeps beside lwIP.
pub mod Kept
pub mod Events
use Prim.Native.Nat.{bit_and}
use moonlight_tailscale_vita.Common.{
  ℕ, zero, suc, ◌+◌, ◌-◌, ◌^◌, ◌≤◌, ◌<◌, Bool, true, false, not, ◌&&◌, Option, none, some, List, [],
  ◌∷◌, ℤ, pos, negsuc, int_is, ◌==◌, if◌then◌else◌, ◌≡◌, ◌≢◌, refl, arith, length, get_or, set,
  replicate,
}
use moonlight_tailscale_vita.Shim.{
  Call, Os, Stacks, Shim, M, outside, is_virtual_socket, virtual_socket_index, traced,
  trace_keeping_errno, trace_socket_event, clear_bits, initial,
}
use moonlight_tailscale_vita.Shim.Calls.{
  wrap_socket, lwip_socket, remember_socket, wrap_close, lwip_close, forget_socket, wrap_fcntl,
  virtual_fcntl, fcntl_getfd, fcntl_setfd, has_argument, wrap_setsockopt, virtual_setsockopt,
  setsockopt_or_refuse, refuse_timeout,
}

pub length-set : (xs : List ℕ) (i v : ℕ) → length (set xs i v) ≡ length xs
length-set [] i v = refl
length-set (x ∷ xs) zero v = refl
length-set (x ∷ xs) (suc i) v = omega (arith, length-set xs i v)

pub get_or-set_self : (xs : List ℕ) (i v : ℕ) → i < length xs → get_or (set xs i v) i 0 ≡ v
get_or-set_self [] i v h = absurd (omega arith)
get_or-set_self (x ∷ xs) zero v h = refl
get_or-set_self (x ∷ xs) (suc i) v h = get_or-set_self xs i v (omega arith)

pub get_or-set_ne : (xs : List ℕ) (i j v : ℕ) → i ≢ j → get_or (set xs i v) j 0 ≡ get_or xs j 0
get_or-set_ne [] i j v h = refl
get_or-set_ne (x ∷ xs) zero zero v h = absurd (h refl)
get_or-set_ne (x ∷ xs) zero (suc j) v h = refl
get_or-set_ne (x ∷ xs) (suc i) zero v h = refl
get_or-set_ne (x ∷ xs) (suc i) (suc j) v h = get_or-set_ne xs i j v (omega arith)

-- A virtual descriptor has an entry in the tables, and no two share one.
pub virtual_socket_index-lt : (fd : ℤ) → is_virtual_socket fd ≡ true → virtual_socket_index fd < 64
unfolding is_virtual_socket virtual_socket_index
virtual_socket_index-lt (pos n) h = ground arith
virtual_socket_index-lt (negsuc n) h = absurd (ground arith)

pub virtual_socket_index_ne :
    (fd gd : ℤ)
    → is_virtual_socket fd ≡ true
    → is_virtual_socket gd ≡ true
    → fd ≢ gd
    → virtual_socket_index fd ≢ virtual_socket_index gd
unfolding is_virtual_socket virtual_socket_index
virtual_socket_index_ne (pos n) (pos m) h k ne e = ne (ground arith)
virtual_socket_index_ne (pos n) (negsuc m) h k ne e = absurd (ground arith)
virtual_socket_index_ne (negsuc n) gd h k ne e = absurd (ground arith)

abbrev pub flags_of : {World : Type 0} → Shim World → ℤ → ℕ
flags_of s fd = get_or s.fd_flags (virtual_socket_index fd) 0

abbrev pub type_of : {World : Type 0} → Shim World → ℤ → ℕ
type_of s fd = get_or s.socket_types (virtual_socket_index fd) 0

-- The tables have an entry for each descriptor of the range, and the trace stops at its limit.
pub record IsWellFormed {World : Type 0} (s : Shim World) : Type 0 where
  pub flags_size : length s.fd_flags ≡ 64
  pub types_size : length s.socket_types ≡ 64
  pub traced_few : s.trace_events ≤ 256

pub initial-IsWellFormed : {World : Type 0} (os : Os World) → IsWellFormed (initial os)
initial-IsWellFormed os = record { flags_size = refl; types_size = refl; traced_few = omega arith }

module _ {World : Type 0} (x : Stacks World) where
  -- F_SETFD takes FD_CLOEXEC or nothing, and F_GETFD then gives it back. Each sets `errno` to 0 and
  -- does nothing outside but its trace: neither asks lwIP.
  pub fcntl_setfd-getfd :
      (fd : ℤ) (value : ℕ) (s : Shim World)
      → IsWellFormed s
      → is_virtual_socket fd ≡ true
      → x.f_setfd ≢ x.f_getfl
      → x.f_setfd ≢ x.f_getfd
      → x.f_setfd ≢ x.f_getown
      → clear_bits value x.fd_cloexec ≡ 0
      → let (stored, s₁) = wrap_fcntl x fd x.f_setfd value s in
        let (given, s₂) = wrap_fcntl x fd x.f_getfd 0 s₁ in
        (stored ≡ pos 0)
        × (s₁.os ≡ record { errno = 0; world = (trace_socket_event x s).1.os.world })
        × (given ≡ pos value)
        × (s₂.os ≡ record { errno = 0; world = (trace_socket_event x s₁).1.os.world })
  unfolding wrap_fcntl virtual_fcntl fcntl_setfd fcntl_getfd trace_socket_event
  fcntl_setfd-getfd fd value s w v ne₁ ne₂ ne₃ h = ground (
    arith,
    get_or-set_self s.fd_flags (virtual_socket_index fd) value,
    virtual_socket_index-lt fd v,
  )

  -- A close on one of lwIP's descriptors gives the caller lwIP's result and `errno`. It clears the
  -- descriptor's entries if it succeeded, and keeps both tables if it failed.
  pub wrap_close_lem :
      (fd : ℤ) (s : Shim World)
      → IsWellFormed s
      → is_virtual_socket fd ≡ true
      → ((wrap_close x fd s).0 ≡ (x.lwip (Call.close fd) s.os).0)
        × ((wrap_close x fd s).1.os.errno ≡ (x.lwip (Call.close fd) s.os).1.errno)
        × ((wrap_close x fd s).0 ≡ pos 0
            → (flags_of (wrap_close x fd s).1 fd ≡ 0) × (type_of (wrap_close x fd s).1 fd ≡ 0))
        × ((wrap_close x fd s).0 ≢ pos 0
            → ((wrap_close x fd s).1.fd_flags ≡ s.fd_flags)
              × ((wrap_close x fd s).1.socket_types ≡ s.socket_types))
  unfolding wrap_close
  wrap_close_lem fd s w v = ground (
    arith,
    get_or-set_self s.fd_flags (virtual_socket_index fd) 0,
    get_or-set_self s.socket_types (virtual_socket_index fd) 0,
    virtual_socket_index-lt fd,
  )
