-- ===== src/Shim/Resolve/Connectable.antt =====
-- The addresses that a lookup over the tunnel gives.
use moonlight_tailscale_vita.Common.{true, List, [], ◌∷◌, pos, ◌≡◌, ◌≢◌, arith}
use moonlight_tailscale_vita.Shim.{AddrInfo, Lookup, Stacks, Shim}
use moonlight_tailscale_vita.Shim.Resolve.{fix_entry, fix_entries, lwip_lookup, wrap_getaddrinfo}

module _ {World : Type 0} (x : Stacks World) where
  -- The same entries in the same order; the IPv4 ones have the size that lwIP's connect takes, and
  -- the others keep theirs.
  abbrev pub IsConnectable : List AddrInfo → List AddrInfo → Type 0
  IsConnectable [] [] = Unit {0}
  IsConnectable (e ∷ es) (f ∷ fs) =
      ((f.ai_family ≡ e.ai_family)
        × (e.ai_family ≡ x.af_inet → f.ai_addrlen ≡ x.sockaddr_in_size)
        × (e.ai_family ≢ x.af_inet → f.ai_addrlen ≡ e.ai_addrlen))
      × IsConnectable es fs
  IsConnectable _ _ = ⊥

  fix_entries-IsConnectable : (es : List AddrInfo) → IsConnectable es (fix_entries x es)
  unfolding fix_entries fix_entry
  fix_entries-IsConnectable [] = tt
  fix_entries-IsConnectable (e ∷ es) =
      ((ground arith, (λ h. ground arith), (λ h. ground arith)), fix_entries-IsConnectable es)

  -- While the tunnel is up, a lookup that succeeds gives its caller lwIP's entries in their order,
  -- each IPv4 entry with the size of `struct sockaddr_in`, which connect needs, and each other entry
  -- with its own.
  pub wrap_getaddrinfo-IsConnectable :
      (lookup : Lookup) (s : Shim World)
      → (x.ensure_started s.os).0 ≡ pos 0
      → (wrap_getaddrinfo x lookup true s).0.0 ≡ pos 0
      → IsConnectable
          (x.lwip_getaddrinfo lookup (x.ensure_started s.os).1).1
          (wrap_getaddrinfo x lookup true s).0.1
  unfolding wrap_getaddrinfo lwip_lookup
  wrap_getaddrinfo-IsConnectable lookup s up =
      let entries = (x.lwip_getaddrinfo lookup (x.ensure_started s.os).1).1 in
      rw up (λ ok. rw ok (fix_entries-IsConnectable entries))
