-- ===== src/Shim/Poll/Mixed.antt =====
-- A poll over descriptors of both kinds: whose answer each of them gets.
use Prim.Native.Nat.{bit_or}
use moonlight_tailscale_vita.Common.{
  ℕ, zero, suc, Bool, true, false, ◌||◌, Option, none, some, List, [], ◌∷◌, map, ℤ, pos, negsuc,
  int_is, is_neg, ltb, if◌then◌else◌, ◌≡◌, ◌⊎◌, inl, inr, refl, ap, ap₂, sym, ◌∙◌, arith, All,
  Bool-cases, u64, bit_or-zero, zero-bit_or,
}
use moonlight_tailscale_vita.Shim.{PollFd, Os, Stacks, Shim, is_virtual_socket, mux_slice_us}
use moonlight_tailscale_vita.Shim.Poll.{
  Polled, poll_both, sample_both, merge, count_ready, virtual_part, real_part, expired,
}

-- An entry without its answer.
abbrev pub key : PollFd → PollFd
key d = record d { revents = 0 }

abbrev pub keys : List PollFd → List PollFd
keys ds = map key ds

-- `got` answers `sent`: the same descriptors and requested events, and no event on a negative one.
abbrev pub Answered : List PollFd → List PollFd → Type 0
Answered sent got = (keys got ≡ keys sent) × All (λ d. is_neg d.fd ≡ true → d.revents ≡ 0) got

-- What each side is to be asked of an entry: the same events, and no descriptor of the other side.
abbrev pub for_lwip : PollFd → PollFd
for_lwip d = record d { fd = if is_virtual_socket d.fd then d.fd else negsuc 0 }

abbrev pub for_system : PollFd → PollFd
for_system d = record d { fd = if is_virtual_socket d.fd then negsuc 0 else d.fd }

pub virtual_part-for_lwip : (ds : List PollFd) → map virtual_part ds ≡ map for_lwip ds
unfolding virtual_part
virtual_part-for_lwip [] = refl
virtual_part-for_lwip (d ∷ ds) = ground (arith, virtual_part-for_lwip ds)

pub real_part-for_system : (ds : List PollFd) → map real_part ds ≡ map for_system ds
unfolding real_part
real_part-for_system [] = refl
real_part-for_system (d ∷ ds) = ground (arith, real_part-for_system ds)

-- The array that the caller should find: on each descriptor the events that its own side found.
abbrev pub route : List PollFd → List PollFd → List PollFd → List PollFd
route (d ∷ ds) (v ∷ vs) (r ∷ rs) =
    record d { revents = if is_virtual_socket d.fd then v.revents else r.revents } ∷ route ds vs rs
route ds vs rs = []

merge-route :
    (ds vs rs : List PollFd)
    → Answered (map for_lwip ds) vs
    → Answered (map for_system ds) rs
    → merge ds vs rs ≡ route ds vs rs
unfolding merge
merge-route [] vs rs hv hr = refl
merge-route (d ∷ ds) [] rs hv hr = refl
merge-route (d ∷ ds) (v ∷ vs) [] hv hr = refl
merge-route (d ∷ ds) (v ∷ vs) (r ∷ rs) (ev, (zv, hv)) (er, (zr, hr)) =
    ap₂ ◌∷◌ (ap (λ (e : ℕ). record d { revents = e }) joined)
      (merge-route ds vs rs (ground arith, hv) (ground arith, hr))
  where
    joined : bit_or v.revents r.revents ≡ (if is_virtual_socket d.fd then v.revents else r.revents)
    joined = ground (arith, bit_or-zero v.revents, zero-bit_or r.revents)

route-keys : (ds es vs rs : List PollFd) → keys ds ≡ keys es → route ds vs rs ≡ route es vs rs
route-keys [] [] vs rs h = refl
route-keys [] (e ∷ es) vs rs h = absurd (ground arith)
route-keys (d ∷ ds) [] vs rs h = absurd (ground arith)
route-keys (d ∷ ds) (e ∷ es) [] rs h = refl
route-keys (d ∷ ds) (e ∷ es) (v ∷ vs) [] h = refl
route-keys (d ∷ ds) (e ∷ es) (v ∷ vs) (r ∷ rs) h =
    ground (arith, route-keys ds es vs rs (ground arith))

keys-route :
    (ds vs rs : List PollFd)
    → keys vs ≡ keys (map for_lwip ds)
    → keys rs ≡ keys (map for_system ds)
    → keys (route ds vs rs) ≡ keys ds
keys-route [] vs rs ev er = refl
keys-route (d ∷ ds) [] rs ev er = absurd (ground arith)
keys-route (d ∷ ds) (v ∷ vs) [] ev er = absurd (ground arith)
keys-route (d ∷ ds) (v ∷ vs) (r ∷ rs) ev er =
    ap (◌∷◌ (key d)) (keys-route ds vs rs (ground arith) (ground arith))

keys-for_lwip :
    (ds es : List PollFd) → keys ds ≡ keys es → keys (map for_lwip ds) ≡ keys (map for_lwip es)
keys-for_lwip [] [] h = refl
keys-for_lwip [] (e ∷ es) h = absurd (ground arith)
keys-for_lwip (d ∷ ds) [] h = absurd (ground arith)
keys-for_lwip (d ∷ ds) (e ∷ es) h = ground (arith, keys-for_lwip ds es (ground arith))

keys-for_system :
    (ds es : List PollFd) → keys ds ≡ keys es → keys (map for_system ds) ≡ keys (map for_system es)
keys-for_system [] [] h = refl
keys-for_system [] (e ∷ es) h = absurd (ground arith)
keys-for_system (d ∷ ds) [] h = absurd (ground arith)
keys-for_system (d ∷ ds) (e ∷ es) h = ground (arith, keys-for_system ds es (ground arith))

-- What is taken of both polls: they answer what they are asked.
pub record AnswersPolls {World : Type 0} (x : Stacks World) : Type 0 where
  pub lwip_answers :
      (ds : List PollFd) (t : ℤ) (os : Os World) → Answered ds (x.lwip_poll ds t os).1
  pub real_answers :
      (ds : List PollFd) (t : ℤ) (os : Os World) → Answered ds (x.real_poll ds t os).1

-- One round's sample: the answers of both, asked one after the other without a timeout.
pub record Sample (World : Type 0) : Type 0 where
  pub lwip_ready : ℤ
  pub virtual_set : List PollFd
  pub system_ready : ℤ
  pub real_set : List PollFd
  pub os : Os World

abbrev pub has_failed : {World : Type 0} → Sample World → Bool
has_failed m = is_neg m.lwip_ready || is_neg m.system_ready

module _ {World : Type 0} (x : Stacks World) where
  abbrev pub sample : List PollFd → List PollFd → Os World → Sample World
  sample virtual_set real_set os =
      let (lwip_ready, vs, os') = x.lwip_poll virtual_set (pos 0) os in
      let (system_ready, rs, os'') = x.real_poll real_set (pos 0) os' in
      record {
        lwip_ready = lwip_ready;
        virtual_set = vs;
        system_ready = system_ready;
        real_set = rs;
        os = os'';
      }

  -- The rounds of a poll of `ds` that began at `begun`, up to a sample of these arrays at this state:
  -- each of the earlier samples found nothing, and a sleep of a slice followed it.
  pub data Waits (ds : List PollFd) (begun : Os World)
      : List PollFd → List PollFd → Os World → Type 0 where
    first : Waits ds begun (map for_lwip ds) (map for_system ds) begun
    later :
        {vs rs : List PollFd} {os : Os World}
        → Waits ds begun vs rs os
        → has_failed (sample vs rs os) ≡ false
        → count_ready (route ds (sample vs rs os).virtual_set (sample vs rs os).real_set) ≡ 0
        → Waits ds begun
            (sample vs rs os).virtual_set
            (sample vs rs os).real_set
            (x.delay mux_slice_us (sample vs rs os).os)

  -- The answer is that of the run's last sample, which asked lwIP for its own descriptors and the
  -- system for the others, each with the events that the caller asked for.
  pub record IsRouted (ds : List PollFd) (begun : Os World) (answer : Polled) (ended : Os World)
      : Type 0 where
    pub virtual_set : List PollFd
    pub real_set : List PollFd
    pub before : Os World
    pub waits : Waits ds begun virtual_set real_set before
    pub asks_lwip : keys virtual_set ≡ keys (map for_lwip ds)
    pub asks_system : keys real_set ≡ keys (map for_system ds)
    pub ends : ended.world ≡ (sample virtual_set real_set before).os.world
    pub result :
        let m = sample virtual_set real_set before in
        let found = route ds m.virtual_set m.real_set in
        ((has_failed m ≡ true) × (answer.0 ≡ negsuc 0))
        ⊎ ((has_failed m ≡ false) × (answer ≡ (pos (count_ready found), found)))

  abbrev pub MixedAnswer : List PollFd → Os World → Option Polled → Os World → Type 0
  MixedAnswer ds begun none ended = Unit
  MixedAnswer ds begun (some answer) ended = IsRouted ds begun answer ended

  module _ (laws : AnswersPolls x) where
    -- One sample of both, of arrays that ask what `ds` asks.
    module _ (ds es virtual_set real_set : List PollFd) (os : Os World) (k : keys es ≡ keys ds)
        (ev : keys virtual_set ≡ keys (map for_lwip ds))
        (er : keys real_set ≡ keys (map for_system ds)) where
      abbrev m : Sample World
      m = sample virtual_set real_set os

      keys-vs : keys m.virtual_set ≡ keys (map for_lwip ds)
      keys-vs = (laws.lwip_answers virtual_set (pos 0) os).0 ∙ ev

      keys-rs : keys m.real_set ≡ keys (map for_system ds)
      keys-rs = (laws.real_answers real_set (pos 0) _).0 ∙ er

      merged_is_route : merge es m.virtual_set m.real_set ≡ route ds m.virtual_set m.real_set
      merged_is_route =
          merge-route es m.virtual_set m.real_set
            (keys-vs ∙ sym (keys-for_lwip es ds k), (laws.lwip_answers virtual_set (pos 0) os).1)
            (keys-rs ∙ sym (keys-for_system es ds k), (laws.real_answers real_set (pos 0) _).1)
          ∙ route-keys es ds m.virtual_set m.real_set k

      keys_merged : keys (merge es m.virtual_set m.real_set) ≡ keys ds
      keys_merged = ap keys merged_is_route ∙ keys-route ds m.virtual_set m.real_set keys-vs keys-rs

      sample-IsRouted :
          {begun ended : Os World} {answer : Polled}
          → Waits ds begun virtual_set real_set os
          → ended.world ≡ m.os.world
          → ((has_failed m ≡ true) × (answer.0 ≡ negsuc 0))
            ⊎ ((has_failed m ≡ false)
                × (answer ≡ (
                  pos (count_ready (merge es m.virtual_set m.real_set)),
                  merge es m.virtual_set m.real_set,
                )))
          → IsRouted ds begun answer ended
      sample-IsRouted w ends h = record {
        virtual_set = virtual_set;
        real_set = real_set;
        before = os;
        waits = w;
        asks_lwip = ev;
        asks_system = er;
        ends = ends;
        result = rw merged_is_route at h;
      }

    pub poll_both-MixedAnswer :
        (fuel started : ℕ) (timeout : ℤ) (ds es virtual_set real_set : List PollFd) (s : Shim World)
        (begun : Os World)
        → keys es ≡ keys ds
        → keys virtual_set ≡ keys (map for_lwip ds)
        → keys real_set ≡ keys (map for_system ds)
        → Waits ds begun virtual_set real_set s.os
        → let out = poll_both x fuel started timeout es virtual_set real_set s in
          MixedAnswer ds begun out.0 out.1.os
    unfolding poll_both sample_both
    poll_both-MixedAnswer zero started timeout ds es vset rset s begun k ev er w = tt
    poll_both-MixedAnswer (suc fuel) started timeout ds es vset rset s begun k ev er w =
        elim (Bool-cases (has_failed found)) [
          | inl failed ↦ rw failed (routed refl (inl (failed, refl)))
          | inr fine ↦ elim (Bool-cases (ltb 0 (count_ready merged) || int_is timeout 0)) [
            | inl ready ↦ rw fine (rw ready (routed refl (inr (fine, refl))))
            | inr idle ↦
                let none_ready : count_ready merged ≡ 0 = ground arith in
                elim (Bool-cases (expired started (u64 (x.now found.os.world)) timeout)) [
                  | inl up ↦ rw fine (
                      rw idle (
                        rw up (
                          routed refl
                            (inr (fine, ap (λ (n : ℕ). (pos n, merged)) (sym none_ready))))))
                  | inr wait ↦ rw fine (
                      rw idle (
                        rw wait (
                          poll_both-MixedAnswer fuel started timeout ds merged found.virtual_set
                            found.real_set (record s { os = x.delay mux_slice_us found.os }) begun
                            (keys_merged ds es vset rset s.os k ev er)
                            (keys-vs ds es vset rset s.os k ev er)
                            (keys-rs ds es vset rset s.os k ev er)
                            (later w fine (
                              ap count_ready (sym (merged_is_route ds es vset rset s.os k ev er))
                              ∙ none_ready)))))
                ]
          ]
        ]
      where
        found : Sample World
        found = sample vset rset s.os

        merged : List PollFd
        merged = merge es found.virtual_set found.real_set

        routed :
            {ended : Os World} {answer : Polled}
            → ended.world ≡ found.os.world
            → ((has_failed found ≡ true) × (answer.0 ≡ negsuc 0))
              ⊎ ((has_failed found ≡ false) × (answer ≡ (pos (count_ready merged), merged)))
            → IsRouted ds begun answer ended
        routed = sample-IsRouted ds es vset rset s.os k ev er w
