-- ===== src/Shim/Tables/Events.antt =====
-- Every call that a program can make of the shim, in any order: what holds of a socket between its
-- making and its closing.
use moonlight_tailscale_vita.Common.{
  ℕ, zero, suc, Bool, true, Option, some, List, [], ◌∷◌, ℤ, pos, negsuc, ◌≡◌, ◌≢◌, refl, sym, ap,
  ◌∙◌, arith, get_or, u64, length, map,
}
use moonlight_tailscale_vita.Shim.{
  Call, Stacks, Shim, PollFd, FdSets, Timeval, Lookup, outside, is_virtual_socket,
  virtual_socket_index, trace_socket_event, trace_keeping_errno,
}
use moonlight_tailscale_vita.Shim.Calls.{wrap_socket, lwip_socket, remember_socket, wrap_setsockopt}
use moonlight_tailscale_vita.Shim.Poll.{
  wrap_poll, poll_virtual, poll_both, poll_mixed, sample_both, merge, virtual_part, real_part,
}
use moonlight_tailscale_vita.Shim.Select.{
  wrap_select, select_virtual, select_both, virtual_sets, real_sets, zero_time, join_sets,
  timeout_us,
}
use moonlight_tailscale_vita.Shim.Resolve.{wrap_getaddrinfo, lwip_lookup, wrap_freeaddrinfo}
use moonlight_tailscale_vita.Shim.Entries.{Op, close, run}
use moonlight_tailscale_vita.Shim.Tables.{
  type_of, IsWellFormed, get_or-set_ne, virtual_socket_index_ne,
}
use moonlight_tailscale_vita.Shim.Tables.Kept.{
  Kept, Kept-trans, trace_socket_event-Kept, run-type, wrap_socket-type, setsockopt_timeout,
  run-IsWellFormed, wrap_socket-IsWellFormed, Kept-IsWellFormed,
}

-- A call of any of the wrappers; the loops of the two waits are on fuel.
pub data Event : Type 0 where
  on_socket : (fd : ℤ) (op : Op) → Event
  make : (domain type protocol : ℕ) → Event
  poll : (fuel : ℕ) (descriptors : List PollFd) (timeout : ℤ) → Event
  select : (fuel max : ℕ) (sets : FdSets) (timeout : Option Timeval) → Event
  look_up : (lookup : Lookup) (has_result : Bool) → Event
  free_found : (result : ℕ) → Event

module _ {World : Type 0} (x : Stacks World) where
  trace_keeping_errno-Kept : (s : Shim World) → Kept s (trace_keeping_errno x s).1
  unfolding trace_keeping_errno trace_socket_event
  trace_keeping_errno-Kept s = ground arith

  poll_virtual-Kept :
      (fuel started : ℕ) (timeout : ℤ) (ds : List PollFd) (s : Shim World)
      → Kept s (poll_virtual x fuel started timeout ds s).1
  unfolding poll_virtual
  poll_virtual-Kept zero started timeout ds s = ground arith
  poll_virtual-Kept (suc fuel) started timeout ds s =
      let (result, sampled, os) = x.lwip_poll ds (pos 0) s.os in
      let rest =
        poll_virtual-Kept fuel started timeout sampled (record s { os = x.delay 1000 os }) in
      ground (arith, rest, trace_keeping_errno-Kept (record s { os = os }))

  poll_both-Kept :
      (fuel started : ℕ) (timeout : ℤ) (ds vs rs : List PollFd) (s : Shim World)
      → Kept s (poll_both x fuel started timeout ds vs rs s).1
  unfolding poll_both sample_both
  poll_both-Kept zero started timeout ds vs rs s = ground arith
  poll_both-Kept (suc fuel) started timeout ds vs rs s =
      let (vn, vs', os) = x.lwip_poll vs (pos 0) s.os in
      let (rn, rs', os') = x.real_poll rs (pos 0) os in
      let rest =
        poll_both-Kept fuel started timeout (merge ds vs' rs') vs' rs'
          (record s { os = x.delay 1000 os' }) in
      ground (arith, rest)

  wrap_poll-Kept :
      (fuel : ℕ) (ds : List PollFd) (timeout : ℤ) (s : Shim World)
      → Kept s (wrap_poll x fuel ds timeout s).1
  unfolding wrap_poll poll_mixed
  wrap_poll-Kept fuel ds timeout s =
      let (there, os) = x.calloc (length ds) s.os in
      let (there', os') = x.calloc (length ds) os in
      let there₂ : Shim World = record s { os = os' } in
      let traced = (trace_socket_event x s).1 in
      let traced' = (trace_socket_event x there₂).1 in
      let alone =
        Kept-trans (trace_socket_event-Kept x s)
          (poll_virtual-Kept fuel (u64 (x.now s.os.world)) timeout ds traced) in
      let mixed = Kept-trans (trace_socket_event-Kept x there₂) (
        poll_both-Kept fuel (u64 (x.now traced'.os.world)) timeout ds (map virtual_part ds)
          (map real_part ds) traced') in
      ground (arith, alone, mixed)

  select_virtual-Kept :
      (fuel max started timeout : ℕ) (sets : FdSets) (s : Shim World)
      → Kept s (select_virtual x fuel max started timeout sets s).1
  unfolding select_virtual
  select_virtual-Kept zero max started timeout sets s = ground arith
  select_virtual-Kept (suc fuel) max started timeout sets s =
      let (result, sampled, os) = x.lwip_select max sets s.os in
      let rest =
        select_virtual-Kept fuel max started timeout sets (record s { os = x.delay 1000 os }) in
      ground (arith, rest, trace_keeping_errno-Kept (record s { os = os }))

  select_both-Kept :
      (fuel max started timeout : ℕ) (sets current : FdSets) (s : Shim World)
      → Kept s (select_both x fuel max started timeout sets current s).1
  unfolding select_both
  select_both-Kept zero max started timeout sets current s = ground arith
  select_both-Kept (suc fuel) max started timeout sets current s =
      let (vn, v, os) = x.lwip_select max (virtual_sets max sets) s.os in
      let (rn, r, os') = x.real_select max (real_sets max sets) (some zero_time) os in
      let rest =
        select_both-Kept fuel max started timeout sets (join_sets max sets v r)
          (record s { os = x.delay 1000 os' }) in
      ground (arith, rest)

  wrap_select-Kept :
      (fuel max : ℕ) (sets : FdSets) (timeout : Option Timeval) (s : Shim World)
      → Kept s (wrap_select x fuel max sets timeout s).1
  unfolding wrap_select
  wrap_select-Kept fuel max sets timeout s =
      let traced = (trace_socket_event x s).1 in
      let started = u64 (x.now s.os.world) in
      let alone =
        Kept-trans (trace_socket_event-Kept x s)
          (select_virtual-Kept fuel max started (timeout_us timeout) sets traced) in
      let both =
        Kept-trans (trace_socket_event-Kept x s)
          (select_both-Kept fuel max started (timeout_us timeout) sets sets traced) in
      ground (arith, alone, both)

  wrap_getaddrinfo-Kept :
      (lookup : Lookup) (has_result : Bool) (s : Shim World)
      → Kept s (wrap_getaddrinfo x lookup has_result s).1
  unfolding wrap_getaddrinfo lwip_lookup trace_socket_event
  wrap_getaddrinfo-Kept lookup has_result s = ground arith

  wrap_freeaddrinfo-Kept : (result : ℕ) (s : Shim World) → Kept s (wrap_freeaddrinfo x result s).1
  unfolding wrap_freeaddrinfo
  wrap_freeaddrinfo-Kept result s = ground arith

  -- The shim after a call.
  unfoldable pub after : Event → Shim World → Shim World
  after (on_socket fd op) s = (run x fd op s).1
  after (make domain type protocol) s = (wrap_socket x domain type protocol s).1
  after (poll fuel ds timeout) s = (wrap_poll x fuel ds timeout s).1
  after (select fuel max sets timeout) s = (wrap_select x fuel max sets timeout s).1
  after (look_up lookup has_result) s = (wrap_getaddrinfo x lookup has_result s).1
  after (free_found result) s = (wrap_freeaddrinfo x result s).1

  unfoldable pub run_all : List Event → Shim World → Shim World
  run_all [] s = s
  run_all (e ∷ es) s = run_all es (after e s)

  -- The call is no close of `gd`, and no socket that it makes is `gd`.
  abbrev pub Spares : ℤ → Shim World → Event → Type 0
  Spares gd s (on_socket fd op) = op ≡ close → fd ≢ gd
  Spares gd s (make domain type protocol) = (wrap_socket x domain type protocol s).0 ≢ gd
  Spares gd s _ = Unit

  -- No call of the list closes `gd`, and while it is open no socket is made with its number.
  abbrev pub LeavesOpen : ℤ → Shim World → List Event → Type 0
  LeavesOpen gd s [] = Unit
  LeavesOpen gd s (e ∷ es) = Spares gd s e × LeavesOpen gd (after e s) es

  wrap_socket-other :
      (gd : ℤ) (domain type protocol : ℕ) (s : Shim World)
      → is_virtual_socket gd ≡ true
      → (wrap_socket x domain type protocol s).0 ≢ gd
      → type_of (wrap_socket x domain type protocol s).1 gd ≡ type_of s gd
  unfolding wrap_socket lwip_socket remember_socket trace_socket_event
  wrap_socket-other gd domain type protocol s v ne =
      let fd = (x.lwip (Call.socket domain type protocol) (x.ensure_started s.os).1).0 in
      ground (
        arith,
        virtual_socket_index_ne fd gd,
        get_or-set_ne s.socket_types (virtual_socket_index fd) (virtual_socket_index gd) type,
      )

  Kept-type : {s s' : Shim World} (gd : ℤ) → Kept s s' → type_of s' gd ≡ type_of s gd
  Kept-type gd k = ap (λ (t : List ℕ). get_or t (virtual_socket_index gd) 0) k.types

  after-type :
      (gd : ℤ) (e : Event) (s : Shim World)
      → is_virtual_socket gd ≡ true
      → Spares gd s e
      → type_of (after e s) gd ≡ type_of s gd
  unfolding after
  after-type gd (on_socket fd op) s v h = run-type x fd gd op s v h
  after-type gd (make d t p) s v h = wrap_socket-other gd d t p s v h
  after-type gd (poll f ds t) s v h = Kept-type gd (wrap_poll-Kept f ds t s)
  after-type gd (select f m sets t) s v h = Kept-type gd (wrap_select-Kept f m sets t s)
  after-type gd (look_up l r) s v h = Kept-type gd (wrap_getaddrinfo-Kept l r s)
  after-type gd (free_found r) s v h = Kept-type gd (wrap_freeaddrinfo-Kept r s)

  run_all-type :
      (gd : ℤ) (es : List Event) (s : Shim World)
      → is_virtual_socket gd ≡ true
      → LeavesOpen gd s es
      → type_of (run_all es s) gd ≡ type_of s gd
  unfolding run_all
  run_all-type gd [] s v h = refl
  run_all-type gd (e ∷ es) s v (h, hs) = run_all-type gd es (after e s) v hs ∙ after-type gd e s v h

  after-IsWellFormed : (e : Event) (s : Shim World) → IsWellFormed s → IsWellFormed (after e s)
  unfolding after
  after-IsWellFormed (on_socket fd op) s w = run-IsWellFormed x fd op s w
  after-IsWellFormed (make d t p) s w = wrap_socket-IsWellFormed x d t p s w
  after-IsWellFormed (poll f ds t) s w = Kept-IsWellFormed x (wrap_poll-Kept f ds t s) w
  after-IsWellFormed (select f m sets t) s w = Kept-IsWellFormed x (wrap_select-Kept f m sets t s) w
  after-IsWellFormed (look_up l r) s w = Kept-IsWellFormed x (wrap_getaddrinfo-Kept l r s) w
  after-IsWellFormed (free_found r) s w = Kept-IsWellFormed x (wrap_freeaddrinfo-Kept r s) w

  -- What the properties of the tables ask of a state holds after any calls.
  run_all-IsWellFormed :
      (es : List Event) (s : Shim World) → IsWellFormed s → IsWellFormed (run_all es s)
  unfolding run_all
  run_all-IsWellFormed [] s w = w
  run_all-IsWellFormed (e ∷ es) s w = run_all-IsWellFormed es (after e s) (after-IsWellFormed e s w)

  -- Once an IPv4 socket has been made over the tunnel, and as long as it is not closed, a receive
  -- timeout for it is refused with ENOPROTOOPT if it is a datagram socket, and is lwIP's to set
  -- otherwise, whatever wrappers of the shim are called in between, on this descriptor or on others,
  -- new sockets, polls, selects and lookups included. No socket that is made in between has the
  -- number of the one that is still open.
  pub socket_receive_timeout :
      (type protocol : ℕ) (s : Shim World) (es : List Event) (value : Option ℕ) (n : ℕ)
      → IsWellFormed s
      → x.so_rcvtimeo ≢ x.so_nonblock
      → (x.ensure_started s.os).0 ≡ pos 0
      → is_virtual_socket (wrap_socket x x.af_inet type protocol s).0 ≡ true
      → LeavesOpen
          (wrap_socket x x.af_inet type protocol s).0
          (wrap_socket x x.af_inet type protocol s).1
          es
      → let fd = (wrap_socket x x.af_inet type protocol s).0 in
        let s' = run_all es (wrap_socket x x.af_inet type protocol s).1 in
        let set_timeout = wrap_setsockopt x fd x.sol_socket x.so_rcvtimeo value n in
        (type ≡ x.sock_dgram
          → ((set_timeout s').0 ≡ negsuc 0) × ((set_timeout s').1.os.errno ≡ x.enoprotoopt))
        × (type ≢ x.sock_dgram
            → set_timeout s'
              ≡ outside (x.lwip (Call.setsockopt fd x.sol_socket x.so_rcvtimeo value n)) s')
  socket_receive_timeout type protocol s es value n w ne h v open' =
      let fd = (wrap_socket x x.af_inet type protocol s).0 in
      let s₁ = (wrap_socket x x.af_inet type protocol s).1 in
      let kept : type_of (run_all es s₁) fd ≡ type =
        run_all-type fd es s₁ v open' ∙ wrap_socket-type x type protocol s w h v in
      let (refused, passed) = setsockopt_timeout x fd value n (run_all es s₁) v ne in
      (λ e. refused (kept ∙ e), λ e. passed (λ t. e (sym kept ∙ t)))
