-- ===== src/Shim/Select.antt =====
-- `__wrap_select`, in the same slices as `__wrap_poll`. A set is its members, and a loop over the
-- descriptors below `max_descriptor` is a recursion on their number.
pub mod Routed
pub mod Returns
use moonlight_tailscale_vita.Common.{
  ℕ, zero, suc, ◌+◌, ◌-◌, ◌*◌, ◌^◌, Bool, false, not, ◌&&◌, ◌||◌, Option, none, some, ℤ, pos,
  negsuc, is_neg, int_is, leb, ltb, ◌==◌, if◌then◌else◌, u64,
}
use moonlight_tailscale_vita.Shim.{
  FdSet, FdSets, Timeval, Stacks, M, ◌>>=◌, ◌>>◌, pure, outside_pair, get_errno, set_errno,
  get_time, is_virtual_socket, trace_socket_event, trace_keeping_errno,
}
use moonlight_tailscale_vita.Shim.Poll.{sleep_slice}

abbrev pub uint64_max : ℕ
uint64_max = 2 ^ 64 - 1

-- FD_ISSET behind the test for NULL
abbrev pub member : Option FdSet → ℕ → Bool
member none d = false
member (some p) d = p d

abbrev pub any_below : ℕ → (ℕ → Bool) → Bool
any_below zero p = false
any_below (suc n) p = any_below n p || p n

abbrev pub count_below : ℕ → (ℕ → Bool) → ℕ
count_below zero p = 0
count_below (suc n) p = count_below n p + (if p n then 1 else 0)

abbrev pub selected : FdSets → ℕ → Bool
selected sets d = member sets.read_set d || member sets.write_set d || member sets.error_set d

unfoldable pub has_virtual : ℕ → FdSets → Bool
unfolding is_virtual_socket
has_virtual max sets = any_below max (λ d. selected sets d && is_virtual_socket (pos d))

unfoldable pub has_real : ℕ → FdSets → Bool
unfolding is_virtual_socket
has_real max sets = any_below max (λ d. selected sets d && not (is_virtual_socket (pos d)))

-- `timeout_us`; UINT64_MAX stands for no timeout.
abbrev pub timeout_us : Option Timeval → ℕ
timeout_us none = uint64_max
timeout_us (some t) = u64 (u64 (t.tv_sec * 1000000) + t.tv_usec)

abbrev pub select_expired : ℕ → ℕ → ℕ → Bool
select_expired started now timeout =
    not (timeout == uint64_max) && leb timeout (u64 (now + 2 ^ 64 - started))

-- A set, if there is one, with the members below `max` that `keep` takes.
abbrev pub restrict : ℕ → (ℕ → Bool) → Option FdSet → Option FdSet
restrict max keep none = none
restrict max keep (some p) = some (λ d. ltb d max && p d && keep d)

unfoldable pub virtual_sets : ℕ → FdSets → FdSets
unfolding is_virtual_socket
virtual_sets max sets =
    let keep = λ (d : ℕ). is_virtual_socket (pos d) in
    record {
      read_set = restrict max keep sets.read_set;
      write_set = restrict max keep sets.write_set;
      error_set = restrict max keep sets.error_set;
    }

unfoldable pub real_sets : ℕ → FdSets → FdSets
unfolding is_virtual_socket
real_sets max sets =
    let keep = λ (d : ℕ). not (is_virtual_socket (pos d)) in
    record {
      read_set = restrict max keep sets.read_set;
      write_set = restrict max keep sets.write_set;
      error_set = restrict max keep sets.error_set;
    }

-- What the caller's set holds of the two answers.
abbrev pub join_set : ℕ → Option FdSet → Option FdSet → Option FdSet → Option FdSet
join_set max none v r = none
join_set max (some p) v r = some (λ d. ltb d max && (member v d || member r d))

unfoldable pub join_sets : ℕ → FdSets → FdSets → FdSets → FdSets
join_sets max sets v r = record {
  read_set = join_set max sets.read_set v.read_set r.read_set;
  write_set = join_set max sets.write_set v.write_set r.write_set;
  error_set = join_set max sets.error_set v.error_set r.error_set;
}

-- A result with the sets as the caller finds them.
abbrev pub Selected : Type 0
Selected = ℤ × FdSets

abbrev pub zero_time : Timeval
zero_time = record { tv_sec = 0; tv_usec = 0 }

module _ {World : Type 0} (x : Stacks World) where
  -- The loop over lwIP alone, which starts each round from the original sets.
  unfoldable pub select_virtual : ℕ → ℕ → ℕ → ℕ → FdSets → M World (Option Selected)
  unfolding trace_keeping_errno sleep_slice
  select_virtual zero max started timeout original = pure none
  select_virtual (suc fuel) max started timeout original = do
    (result, sampled) ← outside_pair (x.lwip_select max original)
    let again : M World (Option Selected) = do
      sleep_slice x
      select_virtual fuel max started timeout original
    if not (int_is result 0) || timeout == 0
        then (do trace_keeping_errno x; pure (some (result, sampled)))
        else do
          now ← get_time x.now
          if select_expired started now timeout then pure (some (pos 0, sampled)) else again

  -- The loop over both; `current` is what the caller's sets hold.
  unfoldable pub select_both : ℕ → ℕ → ℕ → ℕ → FdSets → FdSets → M World (Option Selected)
  unfolding virtual_sets real_sets join_sets sleep_slice
  select_both zero max started timeout original current = pure none
  select_both (suc fuel) max started timeout original current = do
    (virtual_ready, v) ← outside_pair (x.lwip_select max (virtual_sets max original))
    virtual_errno ← get_errno
    (real_ready, r) ← outside_pair (x.real_select max (real_sets max original) (some zero_time))
    real_errno ← get_errno
    let joined = join_sets max original v r
    let ready = count_below max (selected joined)
    let again : M World (Option Selected) = do
      sleep_slice x
      select_both fuel max started timeout original joined
    if is_neg virtual_ready || is_neg real_ready
        then (do
          set_errno (if is_neg virtual_ready then virtual_errno else real_errno)
          pure (some (negsuc 0, current)))
        else if ltb 0 ready || timeout == 0
        then pure (some (pos ready, joined))
        else do
          now ← get_time x.now
          if select_expired started now timeout then pure (some (pos 0, joined)) else again

  unfoldable pub wrap_select : ℕ → ℕ → FdSets → Option Timeval → M World (Option Selected)
  unfolding has_virtual has_real select_virtual select_both trace_socket_event
  wrap_select fuel max sets timeout =
      if not (has_virtual max sets)
      then (do answer ← outside_pair (x.real_select max sets timeout); pure (some answer))
      else do
        started ← get_time x.now
        trace_socket_event x
        if not (has_real max sets)
            then select_virtual fuel max started (timeout_us timeout) sets
            else select_both fuel max started (timeout_us timeout) sets sets
