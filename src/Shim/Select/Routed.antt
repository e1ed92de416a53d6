-- ===== src/Shim/Select/Routed.antt =====
-- A select over descriptors of both kinds returns in time, with the answers of both sides.
use moonlight_tailscale_vita.Common.{
  ℕ, ◌+◌, ◌^◌, ◌≤◌, Bool, true, not, ◌&&◌, Option, none, some, pos, ltb, if◌then◌else◌, ◌≡◌, refl,
  sym, ◌∙◌, arith,
}
use moonlight_tailscale_vita.Shim.{FdSet, FdSets, Timeval, Os, Stacks, is_virtual_socket}
use moonlight_tailscale_vita.Shim.Select.{
  member, restrict, join_set, join_sets, virtual_sets, real_sets,
}

pub data Kind : Type 0 where
  reads writes errors : Kind

abbrev pub pick : Kind → FdSets → Option FdSet
pick reads sets = sets.read_set
pick writes sets = sets.write_set
pick errors sets = sets.error_set

-- `got` answers `sent`: it has no descriptor that was not asked for.
abbrev pub Within : FdSets → FdSets → Type 0
Within sent got =
    (kind : Kind) (d : ℕ) → member (pick kind got) d ≡ true → member (pick kind sent) d ≡ true

-- What is taken of both selects: they answer what they are asked, and the clock neither goes back in
-- one nor goes on for 2^62 microseconds.
pub record AnswersSelects {World : Type 0} (x : Stacks World) : Type 0 where
  pub lwip_answers :
      (n : ℕ) (sets : FdSets) (os : Os World) → Within sets (x.lwip_select n sets os).1
  pub real_answers :
      (n : ℕ) (sets : FdSets) (t : Option Timeval) (os : Os World)
      → Within sets (x.real_select n sets t os).1
  pub lwip_time :
      (n : ℕ) (sets : FdSets) (os : Os World)
      → let after = x.now (x.lwip_select n sets os).2.world in
        (x.now os.world ≤ after) × (after ≤ x.now os.world + 2 ^ 62)
  pub real_time :
      (n : ℕ) (sets : FdSets) (t : Option Timeval) (os : Os World)
      → let after = x.now (x.real_select n sets t os).2.world in
        (x.now os.world ≤ after) × (after ≤ x.now os.world + 2 ^ 62)

-- The descriptors below `max` that are asked for, on one side.
abbrev pub Asks : ℕ → (Bool → Bool) → FdSets → FdSets → Type 0
Asks max side sets asked =
    (kind : Kind) (d : ℕ)
    → member (pick kind asked) d
      ≡ (ltb d max && member (pick kind sets) d && side (is_virtual_socket (pos d)))

-- Each descriptor below `max` is in the answer if it is in that of its own side.
abbrev pub Joins : ℕ → FdSets → FdSets → FdSets → Type 0
Joins max v r answer =
    (kind : Kind) (d : ℕ)
    → member (pick kind answer) d ≡ (
        ltb d max
        && (if is_virtual_socket (pos d) then member (pick kind v) d else member (pick kind r) d))

restrict-member :
    (max d : ℕ) (keep : ℕ → Bool) (o : Option FdSet)
    → member (restrict max keep o) d ≡ (ltb d max && member o d && keep d)
restrict-member max d keep none = ground arith
restrict-member max d keep (some p) = refl

pub virtual_sets-Asks : (max : ℕ) (sets : FdSets) → Asks max (λ b. b) sets (virtual_sets max sets)
unfolding virtual_sets
virtual_sets-Asks max sets reads d = restrict-member max d _ sets.read_set
virtual_sets-Asks max sets writes d = restrict-member max d _ sets.write_set
virtual_sets-Asks max sets errors d = restrict-member max d _ sets.error_set

pub real_sets-Asks : (max : ℕ) (sets : FdSets) → Asks max not sets (real_sets max sets)
unfolding real_sets
real_sets-Asks max sets reads d = restrict-member max d _ sets.read_set
real_sets-Asks max sets writes d = restrict-member max d _ sets.write_set
real_sets-Asks max sets errors d = restrict-member max d _ sets.error_set

join_set-member :
    (max d : ℕ) (o v r : Option FdSet)
    → (member v d ≡ true → (ltb d max && member o d && is_virtual_socket (pos d)) ≡ true)
    → (member r d ≡ true → (ltb d max && member o d && not (is_virtual_socket (pos d))) ≡ true)
    → member (join_set max o v r) d
      ≡ (ltb d max && (if is_virtual_socket (pos d) then member v d else member r d))
join_set-member max d none v r hv hr = ground arith
join_set-member max d (some p) v r hv hr = ground arith

pub join_sets-Joins :
    (max : ℕ) (sets v r : FdSets)
    → Within (virtual_sets max sets) v
    → Within (real_sets max sets) r
    → Joins max v r (join_sets max sets v r)
unfolding join_sets
join_sets-Joins max sets v r hv hr = λ kind d. joined kind d (asked kind d) (asked' kind d)
  where
    asked :
        (kind : Kind) (d : ℕ)
        → member (pick kind v) d ≡ true
        → (ltb d max && member (pick kind sets) d && is_virtual_socket (pos d)) ≡ true
    asked kind d h = sym (virtual_sets-Asks max sets kind d) ∙ hv kind d h

    asked' :
        (kind : Kind) (d : ℕ)
        → member (pick kind r) d ≡ true
        → (ltb d max && member (pick kind sets) d && not (is_virtual_socket (pos d))) ≡ true
    asked' kind d h = sym (real_sets-Asks max sets kind d) ∙ hr kind d h

    joined :
        (kind : Kind) (d : ℕ)
        → (member (pick kind v) d ≡ true
            → (ltb d max && member (pick kind sets) d && is_virtual_socket (pos d)) ≡ true)
        → (member (pick kind r) d ≡ true
            → (ltb d max && member (pick kind sets) d && not (is_virtual_socket (pos d))) ≡ true)
        → member (pick kind (join_sets max sets v r)) d ≡ (
            ltb d max
            && (if is_virtual_socket (pos d)
                then member (pick kind v) d
                else member (pick kind r) d))
    joined reads d = join_set-member max d sets.read_set v.read_set r.read_set
    joined writes d = join_set-member max d sets.write_set v.write_set r.write_set
    joined errors d = join_set-member max d sets.error_set v.error_set r.error_set
