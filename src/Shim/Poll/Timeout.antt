-- ===== src/Shim/Poll/Timeout.antt =====
-- The slices of a poll over lwIP alone: it returns in time, and not before.
use moonlight_tailscale_vita.Common.{
  ℕ, zero, suc, ◌+◌, ◌-◌, ◌*◌, ◌^◌, ◌≤◌, ◌<◌, true, false, not, ◌||◌, Option, some, List, pos,
  int_is, ◌≡◌, refl, arith, Bool-cases, inl, inr, u64,
}
use moonlight_tailscale_vita.Shim.{
  PollFd, Os, Stacks, Shim, trace_keeping_errno, trace_socket_event, mux_slice_us, ◌>>◌, pure,
}
use moonlight_tailscale_vita.Shim.Poll.{
  Polled, expired, poll_virtual, wrap_poll, poll_has_virtual, poll_has_real,
}

-- What is taken of the clock: it does not go back, a sleep lasts as long as it should, and no single
-- step takes 2^62 microseconds.
pub record KeepsTime {World : Type 0} (x : Stacks World) : Type 0 where
  pub poll_later :
      (ds : List PollFd) (os : Os World)
      → x.now os.world ≤ x.now (x.lwip_poll ds (pos 0) os).2.world
  pub poll_soon :
      (ds : List PollFd) (os : Os World)
      → x.now (x.lwip_poll ds (pos 0) os).2.world ≤ x.now os.world + 2 ^ 62
  pub real_later :
      (ds : List PollFd) (os : Os World)
      → x.now os.world ≤ x.now (x.real_poll ds (pos 0) os).2.world
  pub real_soon :
      (ds : List PollFd) (os : Os World)
      → x.now (x.real_poll ds (pos 0) os).2.world ≤ x.now os.world + 2 ^ 62
  pub delay_later :
      (os : Os World) → x.now os.world + mux_slice_us ≤ x.now (x.delay mux_slice_us os).world
  pub delay_soon : (os : Os World) → x.now (x.delay mux_slice_us os).world ≤ x.now os.world + 2 ^ 62
  pub trace_later : (os : Os World) → x.now os.world ≤ x.now (x.trace os).world
  pub trace_soon : (os : Os World) → x.now (x.trace os).world ≤ x.now os.world + 2 ^ 62

-- The 64-bit difference is the time that has passed, while that is below 2^64.
pub elapsed-exact :
    (from now : ℕ)
    → from ≤ now
    → now < from + 2 ^ 64
    → u64 (u64 now + 2 ^ 64 - u64 from) ≡ now - from
elapsed-exact from now h k = omega arith

module _ {World : Type 0} (x : Stacks World) where
  -- A poll of `timeout` milliseconds that began at `from`: it comes to an answer, and the answer 0
  -- only when the time is up.
  pub record AnswersInTime (timeout from : ℕ) (out : Option Polled × Shim World) : Type 0 where
    pub answer : Polled
    pub returned : out.0 ≡ some answer
    pub not_early : 0 < timeout → answer.0 ≡ pos 0 → from + timeout * 1000 ≤ x.now out.1.os.world

  module _ (c : KeepsTime x) (timeout from : ℕ) (small : timeout < 2 ^ 31) where
    -- A sample that ends the loop.
    sampled :
        (ds : List PollFd) (s : Shim World)
        → (not (int_is (x.lwip_poll ds (pos 0) s.os).0 0) || int_is (pos timeout) 0) ≡ true
        → AnswersInTime timeout from (
            (do
              trace_keeping_errno x
              pure (some ((x.lwip_poll ds (pos 0) s.os).0, (x.lwip_poll ds (pos 0) s.os).1)))
              (record s { os = (x.lwip_poll ds (pos 0) s.os).2 }))
    sampled ds s stop = record {
      answer = ((x.lwip_poll ds (pos 0) s.os).0, (x.lwip_poll ds (pos 0) s.os).1);
      returned = refl;
      not_early = λ t e. absurd (ground arith);
    }

    time_up :
        (ds : List PollFd) (s : Shim World)
        → expired (u64 from) (u64 (x.now (x.lwip_poll ds (pos 0) s.os).2.world)) (pos timeout)
          ≡ true
        → u64 (u64 (x.now (x.lwip_poll ds (pos 0) s.os).2.world) + 2 ^ 64 - u64 from)
          ≡ x.now (x.lwip_poll ds (pos 0) s.os).2.world - from
        → AnswersInTime timeout from (
          some (pos 0, (x.lwip_poll ds (pos 0) s.os).1),
          record s { os = (x.lwip_poll ds (pos 0) s.os).2 },
        )
    time_up ds s up exact = record {
      answer = (pos 0, (x.lwip_poll ds (pos 0) s.os).1);
      returned = refl;
      not_early = λ t e. ground (arith, exact);
    }

    abbrev slept : List PollFd → Shim World → Shim World
    slept ds s = record s { os = x.delay mux_slice_us (x.lwip_poll ds (pos 0) s.os).2 }

    abbrev after_poll : List PollFd → Shim World → ℕ
    after_poll ds s = x.now (x.lwip_poll ds (pos 0) s.os).2.world

    -- One round: it answers, or sleeps because the time is not up.
    poll_virtual-round :
        (fuel : ℕ) (ds : List PollFd) (s : Shim World)
        → from ≤ x.now s.os.world
        → x.now s.os.world ≤ from + timeout * 1000 + 2 ^ 62
        → (after_poll ds s < from + timeout * 1000
            → AnswersInTime timeout from (
                poll_virtual x fuel
                  (u64 from)
                  (pos timeout)
                  (x.lwip_poll ds (pos 0) s.os).1
                  (slept ds s)))
        → AnswersInTime timeout from (poll_virtual x (suc fuel) (u64 from) (pos timeout) ds s)
    unfolding poll_virtual
    poll_virtual-round fuel ds s later near again =
        let exact =
          elapsed-exact from (after_poll ds s) (omega (arith, c.poll_later ds s.os))
            (omega (arith, c.poll_soon ds s.os)) in
        elim (Bool-cases
          (not (int_is (x.lwip_poll ds (pos 0) s.os).0 0) || int_is (pos timeout) 0)) [
            | inl stop ↦ rw stop (sampled ds s stop)
            | inr more ↦
                elim (Bool-cases (expired (u64 from) (u64 (after_poll ds s)) (pos timeout))) [
                  | inl up ↦ rw more (rw up (time_up ds s up exact))
                  | inr wait ↦
                      rw more (rw wait (again (ground (arith, c.poll_later ds s.os, exact))))
                ]
          ]

    poll_virtual-AnswersInTime :
        (fuel : ℕ) (ds : List PollFd) (s : Shim World)
        → from ≤ x.now s.os.world
        → x.now s.os.world ≤ from + timeout * 1000 + 2 ^ 62
        → from + timeout * 1000 ≤ x.now s.os.world + fuel * 1000
        → AnswersInTime timeout from (poll_virtual x (suc fuel) (u64 from) (pos timeout) ds s)
    poll_virtual-AnswersInTime zero ds s later near enough =
        poll_virtual-round zero ds s later near λ wait. absurd (omega (arith, c.poll_later ds s.os))
    poll_virtual-AnswersInTime (suc fuel) ds s later near enough =
        poll_virtual-round (suc fuel) ds s later near λ wait.
          let os' = (x.lwip_poll ds (pos 0) s.os).2 in
          poll_virtual-AnswersInTime fuel (x.lwip_poll ds (pos 0) s.os).1 (slept ds s)
            (omega (arith, c.poll_later ds s.os, c.delay_later os'))
            (omega (arith, c.delay_soon os'))
            (omega (arith, c.poll_later ds s.os, c.delay_later os'))

  pub trace_time :
      (c : KeepsTime x) (s : Shim World)
      → (x.now s.os.world ≤ x.now (trace_socket_event x s).1.os.world)
        × (x.now (trace_socket_event x s).1.os.world ≤ x.now s.os.world + 2 ^ 62)
  unfolding trace_socket_event
  trace_time c s = ground (arith, c.trace_later s.os, c.trace_soon s.os)

  -- A poll of lwIP's descriptors alone, with a timeout from 0 to 2^31 - 1 milliseconds, returns: one
  -- round for each millisecond, and one more, are enough. It reports that nothing is ready no sooner
  -- than the timeout has passed since it was called.
  pub wrap_poll-AnswersInTime :
      (ds : List PollFd) (timeout : ℕ) (s : Shim World)
      → KeepsTime x
      → timeout < 2 ^ 31
      → poll_has_virtual ds ≡ true
      → poll_has_real ds ≡ false
      → AnswersInTime timeout (x.now s.os.world) (wrap_poll x (suc timeout) ds (pos timeout) s)
  unfolding wrap_poll
  wrap_poll-AnswersInTime ds timeout s c small v r =
      let (later, soon) = trace_time c s in
      rw v (
        rw r (
          poll_virtual-AnswersInTime c timeout (x.now s.os.world) small timeout ds
            (trace_socket_event x s).1 later (omega arith) (omega arith)))
