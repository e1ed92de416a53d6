-- ===== src/Shim/Poll/MixedReturns.antt =====
-- A poll over descriptors of both kinds returns in time, with the answers of both sides.
use moonlight_tailscale_vita.Common.{
  ℕ, zero, suc, ◌+◌, ◌*◌, ◌^◌, ◌≤◌, ◌<◌, Bool, true, false, not, ◌&&◌, sym, ap, ◌∙◌, ◌||◌, Option,
  some, List, map, ℤ, pos, negsuc, int_is, is_neg, ltb, ◌≡◌, inl, inr, refl, arith, Bool-cases, u64,
  length, subst,
}
use moonlight_tailscale_vita.Shim.{PollFd, Os, Stacks, Shim, mux_slice_us, trace_socket_event}
use moonlight_tailscale_vita.Shim.Poll.{
  Polled, poll_both, merge, count_ready, virtual_part, real_part, wrap_poll, poll_mixed, expired,
  poll_has_virtual, poll_has_real,
}
use moonlight_tailscale_vita.Shim.Poll.Timeout.{KeepsTime, elapsed-exact}
use moonlight_tailscale_vita.Shim.Poll.Mixed.{
  AnswersPolls, IsRouted, MixedAnswer, Waits, first, keys, for_lwip, virtual_part-for_lwip,
  real_part-for_system, poll_both-MixedAnswer,
}

some_injective : {a b : Polled} → some a ≡ some b → a ≡ b
some_injective h = ground (arith, h)

module _ {World : Type 0} (x : Stacks World) where
  abbrev Returns : Option Polled × Shim World → Type 0
  Returns out = (answer : Polled) × (out.0 ≡ some answer)

  module _ (c : KeepsTime x) (timeout from : ℕ) (small : timeout < 2 ^ 31) where
    module _ (vset rset : List PollFd) (s : Shim World) where
      abbrev lwip_os : Os World
      lwip_os = (x.lwip_poll vset (pos 0) s.os).2

      abbrev both_os : Os World
      both_os = (x.real_poll rset (pos 0) lwip_os).2

      abbrev after_both : ℕ
      after_both = x.now both_os.world

      abbrev slept : Shim World
      slept = record s { os = x.delay mux_slice_us both_os }

      both_time : (x.now s.os.world ≤ after_both) × (after_both ≤ x.now s.os.world + 2 ^ 63)
      both_time = omega (
        arith,
        c.poll_later vset s.os,
        c.poll_soon vset s.os,
        c.real_later rset lwip_os,
        c.real_soon rset lwip_os,
      )

      -- One round: it answers, or sleeps because the time is not up.
      poll_both-round :
          (fuel : ℕ) (es : List PollFd)
          → from ≤ x.now s.os.world
          → x.now s.os.world ≤ from + timeout * 1000 + 2 ^ 62
          → let vs = (x.lwip_poll vset (pos 0) s.os).1 in
            let rs = (x.real_poll rset (pos 0) lwip_os).1 in
            (after_both < from + timeout * 1000
              → Returns (poll_both x fuel (u64 from) (pos timeout) (merge es vs rs) vs rs slept))
            → Returns (poll_both x (suc fuel) (u64 from) (pos timeout) es vset rset s)
      unfolding poll_both
      poll_both-round fuel es later near again =
          let merged =
            merge es (x.lwip_poll vset (pos 0) s.os).1 (x.real_poll rset (pos 0) lwip_os).1 in
          let exact =
            elapsed-exact from after_both (omega (arith, both_time)) (omega (arith, both_time)) in
          elim (Bool-cases (
            is_neg (x.lwip_poll vset (pos 0) s.os).0
            || is_neg (x.real_poll rset (pos 0) lwip_os).0)) [
              | inl failed ↦ ((negsuc 0, es), rw failed refl)
              | inr fine ↦
                  elim (Bool-cases (ltb 0 (count_ready merged) || int_is (pos timeout) 0)) [
                    | inl ready ↦ ((pos (count_ready merged), merged), rw fine (rw ready refl))
                    | inr idle ↦
                        elim (Bool-cases (expired (u64 from) (u64 after_both) (pos timeout))) [
                          | inl up ↦ ((pos 0, merged), rw fine (rw idle (rw up refl)))
                          | inr wait ↦
                              rw fine (rw idle (rw wait (again (ground (arith, both_time, exact)))))
                        ]
                  ]
            ]

    poll_both-Returns :
        (fuel : ℕ) (es vset rset : List PollFd) (s : Shim World)
        → from ≤ x.now s.os.world
        → x.now s.os.world ≤ from + timeout * 1000 + 2 ^ 62
        → from + timeout * 1000 ≤ x.now s.os.world + fuel * 1000
        → Returns (poll_both x (suc fuel) (u64 from) (pos timeout) es vset rset s)
    poll_both-Returns zero es vset rset s later near enough =
        poll_both-round vset rset s zero es later near
          λ wait. absurd (omega (arith, both_time vset rset s))
    poll_both-Returns (suc fuel) es vset rset s later near enough =
        poll_both-round vset rset s (suc fuel) es later near λ wait.
          poll_both-Returns fuel _ _ _ (slept vset rset s)
            (omega (arith, both_time vset rset s, c.delay_later (both_os vset rset s)))
            (omega (arith, c.delay_soon (both_os vset rset s)))
            (omega (arith, both_time vset rset s, c.delay_later (both_os vset rset s)))

  poll_mixed-Returns :
      KeepsTime x
      → (timeout : ℕ) (ds : List PollFd) (s : Shim World) → timeout < 2 ^ 31
      → Returns (poll_mixed x (suc timeout) ds (pos timeout) s)
  unfolding poll_mixed
  poll_mixed-Returns c timeout ds s small =
      let (there, os₁) = x.calloc (length ds) s.os in
      let (there', os₂) = x.calloc (length ds) os₁ in
      let s₂ = (trace_socket_event x (record s { os = os₂ })).1 in
      elim (Bool-cases (not there || not there')) [
        | inl failed ↦ ((negsuc 0, ds), rw failed refl)
        | inr fine ↦ rw fine (
            poll_both-Returns c timeout (x.now s₂.os.world) small timeout ds (map virtual_part ds)
              (map real_part ds) s₂ (omega arith) (omega arith) (omega arith))
      ]

  -- Where the rounds begin: both arrays are asked for, and the call is traced.
  abbrev pub begun : List PollFd → Shim World → Os World
  begun ds s =
      let os = (x.calloc (length ds) (x.calloc (length ds) s.os).1).1 in
      (trace_socket_event x (record s { os = os })).1.os

  -- The second array is asked for although the first one was refused.
  abbrev pub has_arrays : List PollFd → Shim World → Bool
  has_arrays ds s =
      let (there, os) = x.calloc (length ds) s.os in there && (x.calloc (length ds) os).0

  poll_mixed-MixedAnswer :
      (laws : AnswersPolls x) (fuel : ℕ) (ds : List PollFd) (timeout : ℤ) (s : Shim World)
      → let out = poll_mixed x fuel ds timeout s in
        (has_arrays ds s ≡ true → MixedAnswer x ds (begun ds s) out.0 out.1.os)
        × (has_arrays ds s ≡ false → (out.0 ≡ some (negsuc 0, ds)) × (out.1.os.errno ≡ x.enomem))
  unfolding poll_mixed
  poll_mixed-MixedAnswer laws fuel ds timeout s =
      let (there, os₁) = x.calloc (length ds) s.os in
      let (there', os₂) = x.calloc (length ds) os₁ in
      let s₂ = (trace_socket_event x (record s { os = os₂ })).1 in
      elim (Bool-cases (not there || not there')) [
        | inl failed ↦ (λ h. absurd (ground arith), λ h. rw failed (refl, refl))
        | inr fine ↦ (
          λ h. rw fine (
              poll_both-MixedAnswer x laws fuel (u64 (x.now s₂.os.world)) timeout ds ds
                (map virtual_part ds) (map real_part ds) s₂ s₂.os refl
                (ap keys (virtual_part-for_lwip ds)) (ap keys (real_part-for_system ds))
                (subst (λ (vs : List PollFd). Waits x ds s₂.os vs (map real_part ds) s₂.os)
                  (sym (virtual_part-for_lwip ds))
                  (subst (λ (rs : List PollFd). Waits x ds s₂.os (map for_lwip ds) rs s₂.os)
                    (sym (real_part-for_system ds)) first))),
          λ h. absurd (ground arith),
        )
      ]

  -- A poll over descriptors of both kinds, with a timeout from 0 to 2^31 - 1 milliseconds, returns
  -- after at most one round for each millisecond and one more. If an array cannot be had, its answer
  -- is -1 with ENOMEM. Otherwise it is that of the last sample of its own run: the earlier ones found
  -- nothing, each of them asked lwIP for its own descriptors and the system for the others, with the
  -- caller's events, and nothing but the clock is asked after it. The answer is -1 if one of the two polls of
  -- that sample failed; if not, it gives each descriptor the events that its own side found, and
  -- counts the descriptors with events.
  pub wrap_poll-IsRouted :
      (ds : List PollFd) (timeout : ℕ) (s : Shim World)
      → KeepsTime x
      → AnswersPolls x
      → timeout < 2 ^ 31
      → poll_has_virtual ds ≡ true
      → poll_has_real ds ≡ true
      → let (out, s') = wrap_poll x (suc timeout) ds (pos timeout) s in
        (answer : Polled) × (out ≡ some answer)
        × (has_arrays ds s ≡ true → IsRouted x ds (begun ds s) answer s'.os)
        × (has_arrays ds s ≡ false → (answer ≡ (negsuc 0, ds)) × (s'.os.errno ≡ x.enomem))
  unfolding wrap_poll
  wrap_poll-IsRouted ds timeout s c laws small v r =
      let (answer, e) = poll_mixed-Returns c timeout ds s small in
      let (there, missing) = poll_mixed-MixedAnswer laws (suc timeout) ds (pos timeout) s in
      let os = (poll_mixed x (suc timeout) ds (pos timeout) s).1.os in
      rw v (
        rw r (
          answer,
          e,
          (λ h. subst (λ (o : Option Polled). MixedAnswer x ds (begun ds s) o os) e (there h)),
          (λ h. (some_injective (sym e ∙ (missing h).0), (missing h).1)),
        ))
