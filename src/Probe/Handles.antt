-- ===== src/Probe/Handles.antt =====
-- The handles that `test_tcp_connect` opens.
use moonlight_tailscale_vita.Common.{
  ℕ, ◌<◌, false, List, ◌∷◌, Bytes, ℤ, pos, is_neg, if◌then◌else◌, ◌≡◌, ◌↔◌, refl, ◌∙◌, arith,
  Bool-cases, inl, inr,
}
use moonlight_tailscale_vita.Probe.{Net, Host}
use moonlight_tailscale_vita.Probe.Connect.{
  no_detail, at_nonblocking, at_connect, at_epoll_create, at_epoll_control, connected, Detail, Test,
  connect_is_in_progress, read_socket_error, wait_ready, use_epoll, close_with, wait_connected,
  connect_socket, test_tcp_connect,
}

pub data Handle : Type 0 where
  a_socket : ℤ → Handle
  an_epoll : ℤ → Handle
  a_resolver : ℤ → Handle
  a_dump : ℤ → Handle

-- The handle of a call that did not fail, in front of those that are open.
abbrev pub opened : Handle → ℤ → List Handle → List Handle
opened h result open_handles = if is_neg result then open_handles else h ∷ open_handles

-- What is taken of the system: a call that opens something adds its handle, a call that closes the
-- newest one takes it away, and the others leave the open handles alone. Nothing is said of a call
-- that closes anything else.
pub record KeepsHandles {World : Type 0} (x : Net World) (handles : World → List Handle)
    : Type 0 where
  pub tcp_sockets :
      (w : World)
      → handles (x.tcp_socket w).1
        ≡ opened (a_socket (x.tcp_socket w).0) (x.tcp_socket w).0 (handles w)
  pub udp_sockets :
      (w : World)
      → handles (x.udp_socket w).1
        ≡ opened (a_socket (x.udp_socket w).0) (x.udp_socket w).0 (handles w)
  pub epolls :
      (w : World)
      → handles (x.epoll_create w).1
        ≡ opened (an_epoll (x.epoll_create w).0) (x.epoll_create w).0 (handles w)
  pub resolvers :
      (w : World)
      → handles (x.resolver_create w).1
        ≡ opened (a_resolver (x.resolver_create w).0) (x.resolver_create w).0 (handles w)
  pub dumps :
      (w : World)
      → handles (x.dump_create w).1
        ≡ opened (a_dump (x.dump_create w).0) (x.dump_create w).0 (handles w)
  pub closes :
      (h : ℤ) (rest : List Handle) (w : World)
      → handles w ≡ a_socket h ∷ rest
      → handles (x.close h w) ≡ rest
  pub epoll_ends :
      (h : ℤ) (rest : List Handle) (w : World)
      → handles w ≡ an_epoll h ∷ rest
      → handles (x.epoll_destroy h w) ≡ rest
  pub resolver_ends :
      (h : ℤ) (rest : List Handle) (w : World)
      → handles w ≡ a_resolver h ∷ rest
      → handles (x.resolver_destroy h w) ≡ rest
  pub dump_ends :
      (h : ℤ) (rest : List Handle) (w : World)
      → handles w ≡ a_dump h ∷ rest
      → handles (x.dump_destroy h w) ≡ rest
  pub nonblockings : (h : ℤ) (w : World) → handles (x.set_nonblocking h w).1 ≡ handles w
  pub timeouts : (h : ℤ) (w : World) → handles (x.set_timeouts h w) ≡ handles w
  pub connects : (h : ℤ) (a p : ℕ) (w : World) → handles (x.connect h a p w).1 ≡ handles w
  pub adds : (e h : ℤ) (w : World) → handles (x.epoll_add e h w).1 ≡ handles w
  pub waits : (e : ℤ) (n : ℕ) (w : World) → handles (x.epoll_wait e n w).2 ≡ handles w
  pub errors : (h : ℤ) (w : World) → handles (x.so_error h w).2 ≡ handles w
  pub resolves :
      (r : ℤ) (host : Host) (w : World) → handles (x.resolver_start r host w).2 ≡ handles w
  pub sends : (h : ℤ) (d : Bytes) (a p : ℕ) (w : World) → handles (x.sendto h d a p w).1 ≡ handles w
  pub receives : (h : ℤ) (n : ℕ) (w : World) → handles (x.recvfrom h n w).2 ≡ handles w
  pub reads : (d : ℤ) (w : World) → handles (x.dump_read d w).1 ≡ handles w
  pub delays : (n : ℕ) (w : World) → handles (x.delay n w) ≡ handles w

module _ {World : Type 0} (x : Net World) (handles : World → List Handle)
    (k : KeepsHandles x handles) where
  -- The part of the detail that is decided with the result.
  abbrev Decides : ℤ → Detail → Type 0
  Decides result d =
      (is_neg result ≡ false → (result ≡ pos 0) × (d.stage ≡ connected))
      × (d.stage ≡ connected → is_neg result ≡ false)

  wait_ready-handles : (e h : ℤ) (t : Test x) → handles (wait_ready x e h t).1.1 ≡ handles t.1
  unfolding wait_ready read_socket_error
  wait_ready-handles e h (d, w) =
      let waited = x.epoll_wait e 3000000 w in
      ground (arith, k.waits e 3000000 w, k.errors h waited.2)

  wait_ready-Decides :
      (e h : ℤ) (t : Test x)
      → 0 < x.etimedout
      → Decides (wait_ready x e h t).0 (wait_ready x e h t).1.0
  unfolding wait_ready read_socket_error
  wait_ready-Decides e h (d, w) p = ground arith

  use_epoll-handles :
      (e h : ℤ) (rest : List Handle) (t : Test x)
      → handles t.1 ≡ an_epoll e ∷ rest
      → handles (use_epoll x e h t).1.1 ≡ rest
  unfolding use_epoll
  use_epoll-handles e h rest (d, w) open_epoll =
      let added = x.epoll_add e h w in
      let kept = k.adds e h w ∙ open_epoll in
      let start : Test x = (record d { stage = at_epoll_control }, added.1) in
      elim (Bool-cases (is_neg added.0)) [
        | inl failed ↦ rw failed (k.epoll_ends e rest added.1 kept)
        | inr fine ↦
            rw fine (
              k.epoll_ends e rest (wait_ready x e h start).1.1
                (wait_ready-handles e h start ∙ kept))
      ]

  use_epoll-Decides :
      (e h : ℤ) (t : Test x)
      → 0 < x.etimedout
      → Decides (use_epoll x e h t).0 (use_epoll x e h t).1.0
  unfolding use_epoll
  use_epoll-Decides e h (d, w) p =
      let added = x.epoll_add e h w in
      let start : Test x = (record d { stage = at_epoll_control }, added.1) in
      elim (Bool-cases (is_neg added.0)) [
        | inl failed ↦ rw failed (ground arith)
        | inr fine ↦ rw fine (wait_ready-Decides e h start p)
      ]

  -- What a test of an open socket ends with.
  record IsClosed (rest : List Handle) (out : ℤ × Test x) : Type 0 where
    given_back : handles out.1.1 ≡ rest
    final : out.1.0.final_result ≡ out.0
    decides : Decides out.0 out.1.0

  close_with-IsClosed :
      (h result : ℤ) (rest : List Handle) (t : Test x)
      → handles t.1 ≡ a_socket h ∷ rest
      → Decides result t.0
      → IsClosed rest (close_with x h result t)
  unfolding close_with
  close_with-IsClosed h result rest (d, w) open_socket decides = record {
    given_back = k.closes h rest w open_socket;
    final = refl;
    decides = decides;
  }

  wait_connected-IsClosed :
      (h : ℤ) (rest : List Handle) (t : Test x)
      → 0 < x.etimedout
      → handles t.1 ≡ a_socket h ∷ rest
      → IsClosed rest (wait_connected x h t)
  unfolding wait_connected
  wait_connected-IsClosed h rest (d, w) p open_socket =
      let made = x.epoll_create w in
      let start : Test x = (record d { stage = at_epoll_create }, made.1) in
      let now_open = k.epolls w in
      elim (Bool-cases (is_neg made.0)) [
        | inl failed ↦ rw failed (
            close_with-IsClosed h made.0 rest start (ground (arith, now_open, open_socket))
              (ground arith))
        | inr fine ↦
            let used = use_epoll x made.0 h start in
            rw fine (
              close_with-IsClosed h used.0 rest used.1
                (use_epoll-handles made.0 h (a_socket h ∷ rest) start
                  (ground (arith, now_open, open_socket)))
                (use_epoll-Decides made.0 h start p))
      ]

  connect_socket-IsClosed :
      (h : ℤ) (a : ℕ) (rest : List Handle) (t : Test x)
      → 0 < x.etimedout
      → handles t.1 ≡ a_socket h ∷ rest
      → IsClosed rest (connect_socket x h a t)
  unfolding connect_socket
  connect_socket-IsClosed h a rest (d, w) p open_socket =
      let out = x.connect h a 443 w in
      let asked = record d {
        stage = at_connect;
        connect_result = out.0;
        connect_errno = x.net_errno out.1;
      } in
      let start : Test x = (asked, out.1) in
      let kept = k.connects h a 443 w ∙ open_socket in
      elim (Bool-cases (is_neg out.0)) [
        | inl failed ↦ elim (Bool-cases (connect_is_in_progress x out.0 (x.net_errno out.1))) [
          | inl pending ↦ rw failed (rw pending (wait_connected-IsClosed h rest start p kept))
          | inr over ↦
              rw failed (rw over (close_with-IsClosed h out.0 rest start kept (ground arith)))
        ]
        | inr fine ↦ rw fine (
            close_with-IsClosed h (pos 0) rest (record asked { stage = connected }, out.1) kept
              (ground arith))
      ]

  test_tcp_connect-IsClosed :
      (address : ℕ) (w : World)
      → 0 < x.etimedout
      → IsClosed (handles w) (test_tcp_connect x address w)
  unfolding test_tcp_connect
  test_tcp_connect-IsClosed address w p =
      let made = x.tcp_socket w in
      let set = x.set_nonblocking made.0 made.1 in
      let start : Test x = (record no_detail { stage = at_nonblocking }, set.1) in
      let now_open = k.tcp_sockets w in
      elim (Bool-cases (is_neg made.0)) [
        | inl failed ↦
            rw failed (record {
              given_back = ground (arith, now_open);
              final = refl;
              decides = ground arith;
            })
        | inr fine ↦
            let kept : handles set.1 ≡ a_socket made.0 ∷ handles w =
              k.nonblockings made.0 made.1 ∙ ground (arith, now_open) in
            elim (Bool-cases (is_neg set.0)) [
              | inl failed ↦ rw fine (
                  rw failed
                    (close_with-IsClosed made.0 set.0 (handles w) start kept (ground arith)))
              | inr done ↦
                  rw fine
                    (rw done (connect_socket-IsClosed made.0 address (handles w) start p kept))
            ]
      ]

  -- If the system's handles behave as KeepsHandles says, and ETIMEDOUT is not 0, the test of a TCP
  -- connection leaves the handles open that were open before it; the detail has the returned result
  -- as its final one; and the result is 0 or an error, 0 exactly if the stage reached is `connected`.
  pub test_tcp_connect_lem :
      (address : ℕ) (w : World)
      → 0 < x.etimedout
      → let out = test_tcp_connect x address w in
        (handles out.1.1 ≡ handles w)
        × (out.1.0.final_result ≡ out.0)
        × (is_neg out.0 ≡ false ↔ out.1.0.stage ≡ connected)
        × (is_neg out.0 ≡ false → out.0 ≡ pos 0)
  test_tcp_connect_lem address w p =
      let c = test_tcp_connect-IsClosed address w p in
      (c.given_back, c.final, ((λ h. (c.decides.0 h).1), c.decides.1), (λ h. (c.decides.0 h).0))
