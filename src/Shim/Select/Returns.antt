-- ===== src/Shim/Select/Returns.antt =====
-- The slices of a select over descriptors of both kinds: it returns, with the answer of its last
-- sample.
use moonlight_tailscale_vita.Common.{
  ℕ, zero, suc, ◌+◌, ◌*◌, ◌/◌, ◌^◌, ◌≤◌, ◌<◌, Bool, true, false, not, ◌||◌, Option, some, ℤ, pos,
  negsuc, is_neg, ltb, ◌==◌, ◌≡◌, ◌⊎◌, inl, inr, refl, sym, ap, arith, Bool-cases, u64,
}
use moonlight_tailscale_vita.Shim.{
  FdSets, Timeval, Os, Stacks, Shim, mux_slice_us, trace_socket_event,
}
use moonlight_tailscale_vita.Shim.Select.{
  Selected, join_sets, virtual_sets, real_sets, count_below, selected, select_both, select_expired,
  zero_time, wrap_select, has_virtual, has_real, timeout_us,
}
use moonlight_tailscale_vita.Shim.Select.Routed.{
  AnswersSelects, Asks, Joins, virtual_sets-Asks, real_sets-Asks, join_sets-Joins,
}
use moonlight_tailscale_vita.Shim.Poll.Timeout.{KeepsTime, elapsed-exact, trace_time}

-- One round's sample of both, asked one after the other without a timeout.
pub record Sample (World : Type 0) : Type 0 where
  pub lwip_ready : ℤ
  pub virtual_answer : FdSets
  pub system_ready : ℤ
  pub real_answer : FdSets
  pub os : Os World

abbrev pub has_failed : {World : Type 0} → Sample World → Bool
has_failed m = is_neg m.lwip_ready || is_neg m.system_ready

module _ {World : Type 0} (x : Stacks World) (max : ℕ) where
  abbrev pub sample : FdSets → FdSets → Os World → Sample World
  sample for_lwip for_system os =
      let (lwip_ready, v, os') = x.lwip_select max for_lwip os in
      let (system_ready, r, os'') = x.real_select max for_system (some zero_time) os' in
      record {
        lwip_ready = lwip_ready;
        virtual_answer = v;
        system_ready = system_ready;
        real_answer = r;
        os = os'';
      }

  -- The answer of a select of `sets` is that of its last sample, which asked lwIP for its own
  -- descriptors and the system for the others.
  pub record IsRouted (sets : FdSets) (answer : Selected) (ended : Os World) : Type 0 where
    pub for_lwip : FdSets
    pub for_system : FdSets
    pub before : Os World
    pub asks_lwip : Asks max (λ b. b) sets for_lwip
    pub asks_system : Asks max not sets for_system
    pub ends : ended.world ≡ (sample for_lwip for_system before).os.world
    pub result :
        let m = sample for_lwip for_system before in
        ((has_failed m ≡ true) × (answer.0 ≡ negsuc 0))
        ⊎ ((has_failed m ≡ false)
            × (answer.0 ≡ pos (count_below max (selected answer.1)))
            × Joins max m.virtual_answer m.real_answer answer.1)

  -- It answers, and that nothing is ready only when the time is up.
  pub record Answers (from timeout : ℕ) (sets : FdSets) (out : Option Selected × Shim World)
      : Type 0 where
    pub answer : Selected
    pub returned : out.0 ≡ some answer
    pub routed : IsRouted sets answer out.1.os
    pub not_early : answer.0 ≡ pos 0 → from + timeout ≤ x.now out.1.os.world

  module _ (c : KeepsTime x) (laws : AnswersSelects x) (from timeout : ℕ) (small : timeout < 2 ^ 62)
      (sets : FdSets) where
    module _ (s : Shim World) where
      abbrev m : Sample World
      m = sample (virtual_sets max sets) (real_sets max sets) s.os

      abbrev joined : FdSets
      joined = join_sets max sets m.virtual_answer m.real_answer

      abbrev ready : ℕ
      ready = count_below max (selected joined)

      abbrev slept : Shim World
      slept = record s { os = x.delay mux_slice_us m.os }

      sample_time :
          (x.now s.os.world ≤ x.now m.os.world) × (x.now m.os.world ≤ x.now s.os.world + 2 ^ 63)
      sample_time =
          let os' = (x.lwip_select max (virtual_sets max sets) s.os).2 in
          omega (
            arith,
            laws.lwip_time max (virtual_sets max sets) s.os,
            laws.real_time max (real_sets max sets) (some zero_time) os',
          )

      sample-IsRouted :
          (answer : Selected) (ended : Os World)
          → ended.world ≡ m.os.world
          → ((has_failed m ≡ true) × (answer.0 ≡ negsuc 0))
            ⊎ ((has_failed m ≡ false) × (answer ≡ (pos ready, joined)))
          → IsRouted sets answer ended
      sample-IsRouted answer ended e h = record {
        for_lwip = virtual_sets max sets;
        for_system = real_sets max sets;
        before = s.os;
        asks_lwip = virtual_sets-Asks max sets;
        asks_system = real_sets-Asks max sets;
        ends = e;
        result = elim h [
          | inl failed ↦ inl failed
          | inr (fine, found) ↦ inr (
              rw found (
                fine,
                refl,
                join_sets-Joins max sets m.virtual_answer m.real_answer
                    (laws.lwip_answers max (virtual_sets max sets) s.os)
                    (laws.real_answers max (real_sets max sets) (some zero_time) _),
              ))
        ];
      }

      -- One round: it answers, or sleeps because the time is not up.
      select_both-round :
          (fuel : ℕ) (current : FdSets)
          → from ≤ x.now s.os.world
          → x.now s.os.world ≤ from + timeout + 2 ^ 62
          → (x.now m.os.world < from + timeout
              → Answers from timeout sets
                  (select_both x fuel max (u64 from) timeout sets joined slept))
          → Answers from timeout sets
              (select_both x (suc fuel) max (u64 from) timeout sets current s)
      unfolding select_both
      select_both-round fuel current later near again =
          let exact =
            elapsed-exact from (x.now m.os.world) (omega (arith, sample_time))
              (omega (arith, sample_time)) in
          elim (Bool-cases (has_failed m)) [
            | inl failed ↦ rw failed (record {
              answer = (negsuc 0, current);
              returned = refl;
              routed = sample-IsRouted (negsuc 0, current) _ refl (inl (failed, refl));
              not_early = λ h. absurd (ground (arith, h));
            })
            | inr fine ↦ elim (Bool-cases (ltb 0 ready || timeout == 0)) [
              | inl stop ↦ rw fine (
                  rw stop (record {
                    answer = (pos ready, joined);
                    returned = refl;
                    routed = sample-IsRouted (pos ready, joined) _ refl (inr (fine, refl));
                    not_early = λ h. ground (arith, h, stop, later, sample_time);
                  }))
              | inr idle ↦
                  let nothing : ready ≡ 0 = ground (arith, idle) in
                  elim (Bool-cases (select_expired (u64 from) (u64 (x.now m.os.world)) timeout)) [
                    | inl up ↦ rw fine (
                        rw idle (
                          rw up (record {
                            answer = (pos 0, joined);
                            returned = refl;
                            routed =
                                sample-IsRouted (pos 0, joined) _ refl
                                  (inr (fine, ap (λ (n : ℕ). (pos n, joined)) (sym nothing)));
                            not_early = λ h. ground (arith, up, exact, sample_time);
                          })))
                    | inr wait ↦
                        rw fine
                          (rw idle (rw wait (again (ground (arith, wait, sample_time, exact)))))
                  ]
            ]
          ]

    select_both-Answers :
        (fuel : ℕ) (current : FdSets) (s : Shim World)
        → from ≤ x.now s.os.world
        → x.now s.os.world ≤ from + timeout + 2 ^ 62
        → from + timeout ≤ x.now s.os.world + fuel * 1000
        → Answers from timeout sets (select_both x (suc fuel) max (u64 from) timeout sets current s)
    select_both-Answers zero current s later near enough =
        select_both-round s zero current later near λ wait. absurd (omega (arith, sample_time s))
    select_both-Answers (suc fuel) current s later near enough =
        select_both-round s (suc fuel) current later near λ wait.
          select_both-Answers fuel (joined s) (slept s)
            (omega (arith, sample_time s, c.delay_later (m s).os))
            (omega (arith, c.delay_soon (m s).os))
            (omega (arith, sample_time s, c.delay_later (m s).os))

  -- A select over descriptors of both kinds, with a timeout of less than 2^62 microseconds, returns
  -- after at most one round for each millisecond begun and one more. Its answer is that of its last
  -- sample, after which nothing but the clock is asked: lwIP was asked for its own descriptors below
  -- the limit in each set, and the system for the others. The answer is -1 if one of the two failed;
  -- if not, each set holds the descriptors that their own side found, and they are counted. It is 0
  -- no sooner than the timeout has passed since the call.
  pub wrap_select-Answers :
      (sets : FdSets) (t : Timeval) (s : Shim World)
      → KeepsTime x
      → AnswersSelects x
      → t.tv_sec * 1000000 + t.tv_usec < 2 ^ 62
      → has_virtual max sets ≡ true
      → has_real max sets ≡ true
      → let timeout = t.tv_sec * 1000000 + t.tv_usec in
        Answers
          (x.now s.os.world)
          timeout
          sets
          (wrap_select x (suc (suc (timeout / 1000))) max sets (some t) s)
  unfolding wrap_select
  wrap_select-Answers sets t s c laws small v r =
      let timeout = t.tv_sec * 1000000 + t.tv_usec in
      let same : timeout_us (some t) ≡ timeout = omega arith in
      let (later, soon) = trace_time x c s in
      rw v (
        rw r (
          rw same (
            select_both-Answers c laws (x.now s.os.world) timeout small sets (suc (timeout / 1000))
              sets (trace_socket_event x s).1 later (omega arith) (omega arith))))
