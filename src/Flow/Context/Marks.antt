-- ===== src/Flow/Context/Marks.antt =====
-- What sets the flags of the context.
use moonlight_tailscale_vita.Common.{
  ℕ, Bool, true, false, ◌&&◌, ◌==◌, Option, none, some, List, [], ◌∷◌, Bytes, ◌≡◌, ◌⊎◌, inl, inr,
  refl, sym, ◌∙◌, arith, same, same_iff, &&_parts, ==_iff, subst, Bool-cases,
}
use moonlight_tailscale_vita.Tunnel.{Source}
use moonlight_tailscale_vita.Flow.Context.{
  Context, Lwip, echo_payload, tcp_payload, peer_inner_address, m2_destination_port,
  lwip_tunnel_output, is_echo, lwip_echo_received, lwip_tcp_connected, lwip_tcp_received,
  lwip_tcp_error,
}

-- What lwIP calls back.
pub data Callback : Type 0 where
  output : Bytes → Callback
  echo : Option Bytes → Source → Callback
  connected : (ok : Bool) → Callback
  received : Option Bytes → (ok : Bool) → Callback
  errored : Callback

-- The datagram that the probe waits for: its own payload, from the peer's end of the tunnel.
pub data IsEcho : Callback → Type 0 where
  is_the_echo :
      (source : Source)
      → source.address ≡ peer_inner_address
      → source.port ≡ m2_destination_port
      → IsEcho (echo (some echo_payload) source)

pub data Some (P : Callback → Type 0) : List Callback → Type 0 where
  here : {b : Callback} {cs : List Callback} → P b → Some P (b ∷ cs)
  there : {b : Callback} {cs : List Callback} → Some P cs → Some P (b ∷ cs)

module _ {Peer World : Type 0} (x : Lwip Peer World) where
  unfoldable pub call_back : Callback → Context Peer World → Context Peer World
  call_back (output packet) c = (lwip_tunnel_output x packet c).1
  call_back (echo packet source) c = (lwip_echo_received x packet source c).1
  call_back (connected ok) c = (lwip_tcp_connected x ok c).1
  call_back (received packet ok) c = (lwip_tcp_received x packet ok c).1
  call_back errored c = (lwip_tcp_error x c).1

  -- lwIP sends packets, and calls nothing back but the output.
  pub data Sent : Context Peer World → Context Peer World → Type 0 where
    sent_nothing : (c : Context Peer World) → Sent c c
    worked : (w : World) (c d : Context Peer World) → Sent (record c { world = w }) d → Sent c d
    sent :
        (packet : Bytes) (c d : Context Peer World)
        → Sent (call_back (output packet) c) d
        → Sent c d

  -- lwIP calls back what the list says, in its order, and changes nothing else of the context than the
  -- state of the system.
  pub data Through : List Callback → Context Peer World → Context Peer World → Type 0 where
    ended : (c : Context Peer World) → Through [] c c
    works :
        (w : World) (cs : List Callback) (c d : Context Peer World)
        → Through cs (record c { world = w }) d
        → Through cs c d
    calls :
        (b : Callback) (cs : List Callback) (c d : Context Peer World)
        → Through cs (call_back b c) d
        → Through (b ∷ cs) c d

  -- What lwIP promises of its calls.
  pub record KeepsContext : Type 0 where
    pub outputs : (c : Context Peer World) → Sent c (x.tcp_output c).1
    pub recveds : (n : ℕ) (c : Context Peer World) → Sent c (x.tcp_recved n c).1
    pub closes : (c : Context Peer World) → Sent c (x.tcp_close c).1
    pub udp_sends :
        (b : Bytes) (c : Context Peer World)
        → (cs : List Callback) × Through cs c (x.udp_send b c).1
    pub connects :
        (c : Context Peer World) → (cs : List Callback) × Through cs c (x.tcp_connect c).1
    pub aborts : (c : Context Peer World) → (cs : List Callback) × Through cs c (x.tcp_abort c).1
    pub inputs :
        (b : Bytes) (c : Context Peer World) → (cs : List Callback) × Through cs c (x.input b c).1
    pub timeouts :
        (c : Context Peer World) → (cs : List Callback) × Through cs c (x.check_timeouts c).1

  -- The three flags that say what arrived are the same.
  abbrev pub SameFlags : Context Peer World → Context Peer World → Type 0
  SameFlags c d =
      (d.echo_received ≡ c.echo_received)
      × (d.tcp_connected ≡ c.tcp_connected)
      × (d.tcp_received ≡ c.tcp_received)

  pub output-SameFlags :
      (packet : Bytes) (c : Context Peer World) → SameFlags c (call_back (output packet) c)
  unfolding call_back lwip_tunnel_output
  output-SameFlags packet c = ground arith

  pub Sent-SameFlags : {c d : Context Peer World} → Sent c d → SameFlags c d
  Sent-SameFlags (sent_nothing c) = (refl, refl, refl)
  Sent-SameFlags (worked w c d s) = Sent-SameFlags s
  Sent-SameFlags (sent packet c d s) =
      let now = output-SameFlags packet c in
      let later = Sent-SameFlags s in (later.0 ∙ now.0, later.1 ∙ now.1, later.2 ∙ now.2)

  connected_echo :
      KeepsContext
      → (ok : Bool) (c : Context Peer World)
      → (lwip_tcp_connected x ok c).1.echo_received ≡ c.echo_received
  unfolding lwip_tcp_connected
  connected_echo k false c = refl
  connected_echo k true c =
      let (wrote, w) = x.tcp_write tcp_payload c.world in
      let c1 = record c { world = w } in
      elim (Bool-cases wrote) [
        | inr e ↦ rw e refl
        | inl e ↦ elim (Bool-cases (x.tcp_output c1).0) [
          | inl e' ↦ rw e (rw e' (Sent-SameFlags (k.outputs c1)).0)
          | inr e' ↦ rw e (rw e' (Sent-SameFlags (k.outputs c1)).0)
        ]
      ]

  received_echo :
      KeepsContext
      → (packet : Option Bytes) (ok : Bool) (c : Context Peer World)
      → (lwip_tcp_received x packet ok c).1.echo_received ≡ c.echo_received
  unfolding lwip_tcp_received
  received_echo k none true c = (Sent-SameFlags (k.closes _)).0
  received_echo k none false c = refl
  received_echo k (some packet) false c = refl
  received_echo k (some packet) true c = elim (Bool-cases (same packet tcp_payload)) [
    | inl e ↦ rw e (Sent-SameFlags (k.recveds _ _)).0
    | inr e ↦ rw e (Sent-SameFlags (k.recveds _ _)).0
  ]

  is_echo-IsEcho :
      (packet : Bytes) (source : Source)
      → is_echo x packet source ≡ true
      → IsEcho (echo (some packet) source)
  unfolding is_echo
  is_echo-IsEcho packet source h =
      let port_test = source.port == m2_destination_port in
      let address_test = source.address == peer_inner_address in
      let (tests, payload) = &&_parts (port_test && address_test) (same packet echo_payload) h in
      let (port', address') = &&_parts port_test address_test tests in
      subst (λ (p : Bytes). IsEcho (echo (some p) source))
        (sym ((same_iff packet echo_payload).0 payload))
        (is_the_echo source ((==_iff _ _).0 address') ((==_iff _ _).0 port'))

  IsEcho-marked :
      KeepsContext
      → (b : Callback) (c : Context Peer World) → (call_back b c).echo_received ≡ true
      → (c.echo_received ≡ true) ⊎ IsEcho b
  unfolding call_back lwip_echo_received lwip_tcp_error
  IsEcho-marked k (output packet) c h = inl (sym (output-SameFlags packet c).0 ∙ h)
  IsEcho-marked k (echo none source) c h = inl h
  IsEcho-marked k (echo (some packet) source) c h = elim (Bool-cases (is_echo x packet source)) [
    | inl e ↦ inr (is_echo-IsEcho packet source e)
    | inr e ↦ inl (ground (arith, e, h))
  ]
  IsEcho-marked k (connected ok) c h = inl (sym (connected_echo k ok c) ∙ h)
  IsEcho-marked k (received packet ok) c h = inl (sym (received_echo k packet ok c) ∙ h)
  IsEcho-marked k errored c h = inl h

  -- The flag of the echo is set only when lwIP has delivered a datagram with the payload of the probe,
  -- which comes from the peer's end of the tunnel.
  pub echo_received_only :
      KeepsContext
      → (cs : List Callback) (c d : Context Peer World) → Through cs c d
      → d.echo_received ≡ true
      → (c.echo_received ≡ true) ⊎ Some IsEcho cs
  echo_received_only k [] c d (ended _) h = inl h
  echo_received_only k cs c d (works w _ _ _ t) h = echo_received_only k cs _ d t h
  echo_received_only k (b ∷ cs) c d (calls _ _ _ _ t) h = elim (echo_received_only k cs _ d t h) [
    | inl before ↦ elim (IsEcho-marked k b c before) [
      | inl set' ↦ inl set'
      | inr this ↦ inr (here this)
    ]
    | inr later ↦ inr (there later)
  ]
