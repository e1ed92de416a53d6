-- ===== src/Shim/Tables/Kept.antt =====
-- What the entry points on a descriptor leave alone of the shim's tables.
use moonlight_tailscale_vita.Common.{
  Bool-cases, inl, inr, ℕ, ◌≤◌, Bool, true, false, Option, none, some, List, ℤ, pos, negsuc,
  if◌then◌else◌, ◌≡◌, ◌≢◌, refl, ap, ◌∙◌, arith, length, get_or,
}
use moonlight_tailscale_vita.Shim.{
  set_errno, Call, Os, Stacks, Shim, outside, is_virtual_socket, virtual_socket_index,
  trace_socket_event,
}
use moonlight_tailscale_vita.Shim.Calls.{
  has_argument, forward, forward_traced, wrap_socket, lwip_socket, remember_socket, wrap_close,
  wrap_fcntl, wrap_setsockopt, virtual_setsockopt, setsockopt_or_refuse, refuse_timeout, wrap_bind,
  wrap_listen, wrap_accept, wrap_send, wrap_recv, wrap_sendto, wrap_recvfrom, wrap_shutdown,
  wrap_read, wrap_write, wrap_getsockopt, wrap_getsockname, wrap_getpeername,
}
use moonlight_tailscale_vita.Shim.Connect.{
  wrap_connect, virtual_connect, enter_blocking, restore_mode, finish_pending, pending_error,
}
use moonlight_tailscale_vita.Shim.Entries.{Op, connect, close, fcntl, setsockopt, run}
use moonlight_tailscale_vita.Shim.Tables.{
  type_of, IsWellFormed, get_or-set_self, length-set, get_or-set_ne, virtual_socket_index-lt,
  virtual_socket_index_ne,
}

-- The tables stay as they are, and the trace count grows to its limit at most.
pub record Kept {World : Type 0} (s s' : Shim World) : Type 0 where
  pub flags : s'.fd_flags ≡ s.fd_flags
  pub types : s'.socket_types ≡ s.socket_types
  pub traced_few : s.trace_events ≤ 256 → s'.trace_events ≤ 256

pub Kept-trans : {World : Type 0} {s t u : Shim World} → Kept s t → Kept t u → Kept s u
Kept-trans k l = record {
  flags = l.flags ∙ k.flags;
  types = l.types ∙ k.types;
  traced_few = λ h. l.traced_few (k.traced_few h);
}

module _ {World : Type 0} (x : Stacks World) where
  pub trace_socket_event-Kept : (s : Shim World) → Kept s (trace_socket_event x s).1
  unfolding trace_socket_event
  trace_socket_event-Kept s = ground arith

  enter_blocking-Kept : (fd flags : ℤ) (s : Shim World) → Kept s (enter_blocking x fd flags s).1
  unfolding enter_blocking trace_socket_event
  enter_blocking-Kept fd flags s = ground arith

  restore_mode-Kept :
      (fd flags : ℤ) (b : Bool) (o : ℤ × ℕ) (s : Shim World)
      → Kept s (restore_mode x fd flags b o s).1
  unfolding restore_mode trace_socket_event
  restore_mode-Kept fd flags b o s = ground arith

  finish_pending-Kept : (fd : ℤ) (o : ℤ × ℕ) (s : Shim World) → Kept s (finish_pending x fd o s).1
  unfolding finish_pending pending_error trace_socket_event
  finish_pending-Kept fd o s = ground arith

  pub outside-Kept :
      {A : Type 0} (f : Os World → A × Os World) (s : Shim World) → Kept s (outside f s).1
  outside-Kept f s = record { flags = refl; types = refl; traced_few = λ h. h }

  pub set_errno-Kept : (e : ℕ) (s : Shim World) → Kept s (set_errno e s).1
  set_errno-Kept e s = record { flags = refl; types = refl; traced_few = λ h. h }

  virtual_connect-Kept : (fd : ℤ) (a n : ℕ) (s : Shim World) → Kept s (virtual_connect x fd a n s).1
  unfolding virtual_connect
  virtual_connect-Kept fd a n s =
      let asked = outside (x.lwip (Call.fcntl fd x.f_getfl 0)) (trace_socket_event x s).1 in
      let entered = enter_blocking x fd asked.0 asked.1 in
      let connected = outside (x.lwip (Call.connect fd a n)) entered.1 in
      let restored =
        restore_mode x fd asked.0 entered.0 (connected.0, connected.1.os.errno) connected.1 in
      let finished = finish_pending x fd restored.0 restored.1 in
      Kept-trans (trace_socket_event-Kept s) (
        Kept-trans (outside-Kept (x.lwip (Call.fcntl fd x.f_getfl 0)) _) (
          Kept-trans (enter_blocking-Kept fd asked.0 asked.1) (
            Kept-trans (outside-Kept (x.lwip (Call.connect fd a n)) entered.1) (
              Kept-trans
                (restore_mode-Kept fd asked.0 entered.0 (connected.0, connected.1.os.errno)
                  connected.1)
                (Kept-trans (finish_pending-Kept fd restored.0 restored.1) (
                  Kept-trans (trace_socket_event-Kept finished.1)
                    (set_errno-Kept finished.0.1 (trace_socket_event x finished.1).1)))))))

  wrap_connect-Kept : (fd : ℤ) (a n : ℕ) (s : Shim World) → Kept s (wrap_connect x fd a n s).1
  unfolding wrap_connect
  wrap_connect-Kept fd a n s = elim (Bool-cases (is_virtual_socket fd)) [
    | inl v ↦ rw v (virtual_connect-Kept fd a n s)
    | inr v ↦ rw v (outside-Kept (x.real (Call.connect fd a n)) s)
  ]

  -- Every entry point but F_SETFD and close keeps both tables.
  abbrev writes_tables : Op → Bool
  writes_tables close = true
  writes_tables (fcntl c v) = true
  writes_tables _ = false

  run-Kept :
      (fd : ℤ) (op : Op) (s : Shim World) → writes_tables op ≡ false → Kept s (run x fd op s).1
  unfolding run wrap_bind wrap_accept wrap_listen wrap_send wrap_recv wrap_sendto wrap_recvfrom
      wrap_shutdown wrap_read wrap_write wrap_setsockopt wrap_getsockopt wrap_getsockname
      wrap_getpeername forward forward_traced
  run-Kept fd (connect a n) s h = wrap_connect-Kept fd a n s
  run-Kept fd (setsockopt l o none n) s h = ground arith
  run-Kept fd (setsockopt l o (some v) n) s h = ground arith
  run-Kept fd _ s h = ground arith

  wrap_fcntl-types :
      (fd : ℤ) (c v : ℕ) (s : Shim World) → (wrap_fcntl x fd c v s).1.socket_types ≡ s.socket_types
  unfolding wrap_fcntl
  wrap_fcntl-types fd c v s = ground arith

  wrap_close-type :
      (fd gd : ℤ) (s : Shim World)
      → is_virtual_socket gd ≡ true
      → fd ≢ gd
      → type_of (wrap_close x fd s).1 gd ≡ type_of s gd
  unfolding wrap_close
  wrap_close-type fd gd s v ne = ground (
    arith,
    virtual_socket_index_ne fd gd,
    get_or-set_ne s.socket_types (virtual_socket_index fd) (virtual_socket_index gd) 0,
  )

  pub run-type :
      (fd gd : ℤ) (op : Op) (s : Shim World)
      → is_virtual_socket gd ≡ true
      → (op ≡ close → fd ≢ gd)
      → type_of (run x fd op s).1 gd ≡ type_of s gd
  unfolding run
  run-type fd gd close s v ne = wrap_close-type fd gd s v (ne refl)
  run-type fd gd (fcntl c w) s v ne =
      ap (λ (t : List ℕ). get_or t (virtual_socket_index gd) 0) (wrap_fcntl-types fd c w s)
  run-type fd gd (connect a n) s v ne =
      ap (λ (t : List ℕ). get_or t (virtual_socket_index gd) 0)
        (run-Kept fd (connect a n) s refl).types
  run-type fd gd op s v ne =
      ap (λ (t : List ℕ). get_or t (virtual_socket_index gd) 0) (run-Kept fd op s refl).types

  pub wrap_socket-type :
      (type protocol : ℕ) (s : Shim World)
      → IsWellFormed s
      → (x.ensure_started s.os).0 ≡ pos 0
      → is_virtual_socket (wrap_socket x x.af_inet type protocol s).0 ≡ true
      → type_of
          (wrap_socket x x.af_inet type protocol s).1
          (wrap_socket x x.af_inet type protocol s).0
        ≡ type
  unfolding wrap_socket lwip_socket remember_socket trace_socket_event
  wrap_socket-type type protocol s w h v =
      let fd = (x.lwip (Call.socket x.af_inet type protocol) (x.ensure_started s.os).1).0 in
      ground (
        arith,
        get_or-set_self s.socket_types (virtual_socket_index fd) type,
        virtual_socket_index-lt fd,
      )

  pub setsockopt_timeout :
      (fd : ℤ) (value : Option ℕ) (n : ℕ) (s : Shim World)
      → is_virtual_socket fd ≡ true
      → x.so_rcvtimeo ≢ x.so_nonblock
      → (type_of s fd ≡ x.sock_dgram
          → ((wrap_setsockopt x fd x.sol_socket x.so_rcvtimeo value n s).0 ≡ negsuc 0)
            × ((wrap_setsockopt x fd x.sol_socket x.so_rcvtimeo value n s).1.os.errno
                ≡ x.enoprotoopt))
        × (type_of s fd ≢ x.sock_dgram
            → wrap_setsockopt x fd x.sol_socket x.so_rcvtimeo value n s
              ≡ outside (x.lwip (Call.setsockopt fd x.sol_socket x.so_rcvtimeo value n)) s)
  unfolding wrap_setsockopt virtual_setsockopt setsockopt_or_refuse refuse_timeout
  setsockopt_timeout fd none n s v ne = ground arith
  setsockopt_timeout fd (some value) n s v ne = ground arith

  wrap_fcntl-IsWellFormed :
      (fd : ℤ) (c v : ℕ) (s : Shim World) → IsWellFormed s → IsWellFormed (wrap_fcntl x fd c v s).1
  unfolding wrap_fcntl
  wrap_fcntl-IsWellFormed fd c v s w =
      ground
        (arith, length-set s.fd_flags (virtual_socket_index fd) (if has_argument x c then v else 0))

  wrap_close-IsWellFormed :
      (fd : ℤ) (s : Shim World) → IsWellFormed s → IsWellFormed (wrap_close x fd s).1
  unfolding wrap_close
  wrap_close-IsWellFormed fd s w = ground (
    arith,
    length-set s.fd_flags (virtual_socket_index fd) 0,
    length-set s.socket_types (virtual_socket_index fd) 0,
  )

  pub wrap_socket-IsWellFormed :
      (domain type protocol : ℕ) (s : Shim World)
      → IsWellFormed s
      → IsWellFormed (wrap_socket x domain type protocol s).1
  unfolding wrap_socket
  wrap_socket-IsWellFormed domain type protocol s w =
      let fd = (x.lwip (Call.socket domain type protocol) (x.ensure_started s.os).1).0 in
      ground (
        arith,
        length-set s.fd_flags (virtual_socket_index fd) 0,
        length-set s.socket_types (virtual_socket_index fd) type,
      )

  pub Kept-IsWellFormed : {s s' : Shim World} → Kept s s' → IsWellFormed s → IsWellFormed s'
  Kept-IsWellFormed k w = record {
    flags_size = ap length k.flags ∙ w.flags_size;
    types_size = ap length k.types ∙ w.types_size;
    traced_few = k.traced_few w.traced_few;
  }

  pub run-IsWellFormed :
      (fd : ℤ) (op : Op) (s : Shim World) → IsWellFormed s → IsWellFormed (run x fd op s).1
  unfolding run
  run-IsWellFormed fd close s w = wrap_close-IsWellFormed fd s w
  run-IsWellFormed fd (fcntl c v) s w = wrap_fcntl-IsWellFormed fd c v s w
  run-IsWellFormed fd (connect a n) s w = Kept-IsWellFormed (run-Kept fd (connect a n) s refl) w
  run-IsWellFormed fd op s w = Kept-IsWellFormed (run-Kept fd op s refl) w
