-- ===== src/Shim/Resolve.antt =====
-- `__wrap_getaddrinfo` and `__wrap_freeaddrinfo`.
pub mod Connectable
use moonlight_tailscale_vita.Common.{ℕ, Bool, ◌&&◌, List, [], ◌∷◌, ℤ, int_is, ◌==◌, if◌then◌else◌}
use moonlight_tailscale_vita.Shim.{
  AddrInfo, Lookup, Stacks, M, ◌>>=◌, ◌>>◌, pure, outside, outside_pair, trace_socket_event,
}

module _ {World : Type 0} (x : Stacks World) where
  -- The length of an IPv4 address is set to that of `struct sockaddr_in`.
  unfoldable pub fix_entry : AddrInfo → AddrInfo
  fix_entry entry =
      if entry.ai_family == x.af_inet
      then record entry { ai_addrlen = x.sockaddr_in_size }
      else entry

  unfoldable pub fix_entries : List AddrInfo → List AddrInfo
  unfolding fix_entry
  fix_entries [] = []
  fix_entries (entry ∷ rest) = fix_entry entry ∷ fix_entries rest

  -- `has_result` is `result != NULL`.
  unfoldable pub lwip_lookup : Lookup → Bool → M World (ℤ × List AddrInfo)
  unfolding fix_entries trace_socket_event
  lwip_lookup lookup has_result = do
    (lookup_result, entries) ← outside_pair (x.lwip_getaddrinfo lookup)
    trace_socket_event x
    pure (
      lookup_result,
      if int_is lookup_result 0 && has_result then fix_entries entries else entries,
    )

  unfoldable pub wrap_getaddrinfo : Lookup → Bool → M World (ℤ × List AddrInfo)
  unfolding lwip_lookup
  wrap_getaddrinfo lookup has_result = do
    started ← outside x.ensure_started
    if int_is started 0
        then lwip_lookup lookup has_result
        else outside_pair (x.real_getaddrinfo lookup)

  unfoldable pub wrap_freeaddrinfo : ℕ → M World (Unit {0})
  wrap_freeaddrinfo result s =
      if x.is_online s.os.world
      then (tt, record s { os = x.lwip_freeaddrinfo result s.os })
      else (tt, record s { os = x.real_freeaddrinfo result s.os })
