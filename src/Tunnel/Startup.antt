-- ===== src/Tunnel/Startup.antt =====
-- `tsvita_tunnel_ensure_started` and `tsvita_tunnel_is_online`, called by any number of threads. What
-- a thread does under `g_state_mutex` is one step; a thread that waits on `g_state_cond` has no
-- step before the state has changed. `start_tunnel` runs between two steps, outside the mutex, and
-- its result is a parameter of the second.
use moonlight_tailscale_vita.Common.{
  ℕ, ◌+◌, ◌≤◌, Bool, true, false, Option, none, some, List, [], ◌∷◌, ◌++◌, ℤ, pos, neg, int_is,
  if◌then◌else◌, ◌≡◌, ◌≢◌, ◌↔◌, refl, sym, ◌∙◌, arith, All, All-append, inl, inr, subst, Bool-cases,
}

-- `TunnelState`
pub data TunnelState : Type 0 where
  stopped : TunnelState
  starting : TunnelState
  online : TunnelState
  offline : TunnelState

-- Where a thread is in the function.
pub data Thread : Type 0 where
  calling : Thread
  launching : Thread
  returned : ℤ → Thread

-- The part of the function up to `start_tunnel`, or a return; `none` while it waits.
unfoldable pub enter : TunnelState → Option (Thread × TunnelState)
enter stopped = some (launching, starting)
enter starting = none
enter online = some (returned (pos 0), online)
enter offline = some (returned (neg 1), offline)

abbrev pub settled : ℤ → TunnelState
settled result = if int_is result 0 then online else offline

-- The part behind `start_tunnel`.
unfoldable pub finish : ℤ → Thread × TunnelState
finish result = (returned result, settled result)

unfoldable pub is_online : TunnelState → Bool
is_online online = true
is_online _ = false

-- `starts` counts the calls of `start_tunnel`.
pub record System : Type 0 where
  pub state : TunnelState
  pub threads : List Thread
  pub starts : ℕ

abbrev pub launches : Thread → ℕ
launches launching = 1
launches _ = 0

abbrev pub system : TunnelState → List Thread → ℕ → System
system state threads starts = record { state = state; threads = threads; starts = starts }

-- One thread moves, the others stay where they are; new threads may call at any time.
pub data Step : System → System → Type 0 where
  call :
      (state : TunnelState) (threads : List Thread) (n : ℕ)
      → Step (system state threads n) (system state (calling ∷ threads) n)
  enters :
      (state state' : TunnelState) (thread : Thread) (before after : List Thread) (n : ℕ)
      → enter state ≡ some (thread, state')
      → Step
          (system state (before ++ calling ∷ after) n)
          (system state' (before ++ thread ∷ after) (launches thread + n))
  finishes :
      (state : TunnelState) (result : ℤ) (before after : List Thread) (n : ℕ)
      → Step
          (system state (before ++ launching ∷ after) n)
          (system (finish result).1 (before ++ (finish result).0 ∷ after) n)

pub data Reach : System → Type 0 where
  initially : Reach (system stopped [] 0)
  next : (s s' : System) → Reach s → Step s s' → Reach s'

pub launching_count : List Thread → ℕ
launching_count [] = 0
launching_count (thread ∷ rest) = launches thread + launching_count rest

launching_count-append :
    (before after : List Thread)
    → launching_count (before ++ after) ≡ launching_count before + launching_count after
unfolding launching_count
launching_count-append [] after = omega arith
launching_count-append (thread ∷ before) after = ground (arith, launching_count-append before after)

-- What a thread was told agrees with the state.
abbrev Agrees : TunnelState → Thread → Type 0
Agrees state (returned result) = state ≡ settled result
Agrees state _ = Unit

abbrev expected_launches : TunnelState → ℕ
expected_launches starting = 1
expected_launches _ = 0

abbrev expected_starts : TunnelState → ℕ
expected_starts stopped = 0
expected_starts _ = 1

record IsConsistent (s : System) : Type 0 where
  launches_right : launching_count s.threads ≡ expected_launches s.state
  starts_right : s.starts ≡ expected_starts s.state
  agree : All (Agrees s.state) s.threads

All-parts :
    (P : Thread → Type 0) (before after : List Thread)
    → All P (before ++ after)
    → All P before × All P after
All-parts P [] after h = (tt, h)
All-parts P (thread ∷ before) after (h, hs) =
    let (hb, ha) = All-parts P before after hs in ((h, hb), ha)

-- No thread has been told anything while the state can still change.
none_told :
    (state state' : TunnelState) (threads : List Thread)
    → state ≢ online
    → state ≢ offline
    → All (Agrees state) threads
    → All (Agrees state') threads
none_told state state' [] h k a = tt
none_told state state' (calling ∷ threads) h k (a, rest) =
    (tt, none_told state state' threads h k rest)
none_told state state' (launching ∷ threads) h k (a, rest) =
    (tt, none_told state state' threads h k rest)
none_told state state' (returned result ∷ threads) h k (a, rest) =
    elim (Bool-cases (int_is result 0)) [
      | inl e ↦ absurd (h (a ∙ rw e refl))
      | inr e ↦ absurd (k (a ∙ rw e refl))
    ]

-- A thread moves from `old` to `new`, and the state with it.
moves :
    (state state' : TunnelState) (old new : Thread) (before after : List Thread) (n : ℕ)
    → IsConsistent (system state (before ++ old ∷ after) n)
    → expected_launches state + launches new ≡ expected_launches state' + launches old
    → launches new + expected_starts state ≡ expected_starts state'
    → Agrees state' new
    → (All (Agrees state) before → All (Agrees state') before)
    → (All (Agrees state) after → All (Agrees state') after)
    → IsConsistent (system state' (before ++ new ∷ after) (launches new + n))
unfolding launching_count
moves state state' old new before after n c count starts told hb ha =
    let parts = All-parts (Agrees state) before (old ∷ after) c.agree in
    record {
      launches_right = omega (
        arith,
        c.launches_right,
        launching_count-append before (old ∷ after),
        launching_count-append before (new ∷ after),
      );
      starts_right = omega (arith, c.starts_right);
      agree = All-append (Agrees state') before (new ∷ after) (hb parts.0) (told, ha parts.1.1);
    }

entered :
    (state : TunnelState) (before after : List Thread) (n : ℕ)
    → IsConsistent (system state (before ++ calling ∷ after) n)
    → (moved : Thread × TunnelState) → enter state ≡ some moved
    → IsConsistent (system moved.1 (before ++ moved.0 ∷ after) (launches moved.0 + n))
unfolding enter
entered stopped before after n c moved e =
    subst
      (λ (m : Thread × TunnelState).
        IsConsistent (system m.1 (before ++ m.0 ∷ after) (launches m.0 + n)))
      (cc e)
      (moves stopped starting calling launching before after n c refl refl tt
        (none_told stopped starting before (ground arith) (ground arith))
        (none_told stopped starting after (ground arith) (ground arith)))
entered starting before after n c moved e = absurd (ground arith)
entered online before after n c moved e =
    subst
      (λ (m : Thread × TunnelState).
        IsConsistent (system m.1 (before ++ m.0 ∷ after) (launches m.0 + n)))
      (cc e)
      (moves online online calling (returned (pos 0)) before after n c refl refl refl (λ a. a)
        (λ a. a))
entered offline before after n c moved e =
    subst
      (λ (m : Thread × TunnelState).
        IsConsistent (system m.1 (before ++ m.0 ∷ after) (launches m.0 + n)))
      (cc e)
      (moves offline offline calling (returned (neg 1)) before after n c refl refl refl (λ a. a)
        (λ a. a))

-- Only the state `starting` has a thread that launches.
launching_starting :
    (state : TunnelState) (before after : List Thread) (n : ℕ)
    → IsConsistent (system state (before ++ launching ∷ after) n)
    → state ≡ starting
unfolding launching_count
launching_starting starting before after n c = refl
launching_starting stopped before after n c =
    absurd (omega (arith, c.launches_right, launching_count-append before (launching ∷ after)))
launching_starting online before after n c =
    absurd (omega (arith, c.launches_right, launching_count-append before (launching ∷ after)))
launching_starting offline before after n c =
    absurd (omega (arith, c.launches_right, launching_count-append before (launching ∷ after)))

finished :
    (result : ℤ) (before after : List Thread) (n : ℕ)
    → IsConsistent (system starting (before ++ launching ∷ after) n)
    → IsConsistent (system (settled result) (before ++ returned result ∷ after) n)
finished result before after n c =
    let same_starts : 0 + n ≡ n = omega arith in
    rw (sym same_starts) (
      moves starting (settled result) launching (returned result) before after n c (ground arith)
        (ground arith) refl
        (none_told starting (settled result) before (ground arith) (ground arith))
        (none_told starting (settled result) after (ground arith) (ground arith)))

Step-IsConsistent : (s s' : System) → Step s s' → IsConsistent s → IsConsistent s'
unfolding finish launching_count
Step-IsConsistent s s' (call state threads n) c = record {
  launches_right = omega (arith, c.launches_right);
  starts_right = c.starts_right;
  agree = (tt, c.agree);
}
Step-IsConsistent s s' (enters state state' thread before after n e) c =
    entered state before after n c (thread, state') e
Step-IsConsistent s s' (finishes state result before after n) c = finished result before after n (
    subst (λ (st : TunnelState). IsConsistent (system st (before ++ launching ∷ after) n))
      (launching_starting state before after n c) c)

Reach-IsConsistent : (s : System) → Reach s → IsConsistent s
unfolding launching_count
Reach-IsConsistent s initially = record { launches_right = refl; starts_right = refl; agree = tt }
Reach-IsConsistent s (next earlier later r step) =
    Step-IsConsistent earlier later step (Reach-IsConsistent earlier r)

-- However many threads call, and in whatever order they move: `start_tunnel` is called at most once;
-- while the state says that it is starting, exactly one thread is in it, so the others do not wait
-- for nothing; and every thread that has returned was told success if the tunnel is online and a
-- failure if it is not.
pub Reach-once :
    (s : System)
    → Reach s
    → (s.starts ≤ 1)
      × (s.state ≡ starting → launching_count s.threads ≡ 1)
      × ((s.state ≢ starting) → launching_count s.threads ≡ 0)
      × ((before after : List Thread) (result : ℤ)
          → s.threads ≡ before ++ returned result ∷ after
          → (is_online s.state ≡ true) ↔ (result ≡ pos 0))
unfolding is_online
Reach-once s r =
    let c = Reach-IsConsistent s r in
    (
      ground arith,
      ground arith,
      ground arith,
      λ before after result e.
          let told =
            (All-parts (Agrees s.state) before (returned result ∷ after)
              (subst (All (Agrees s.state)) e c.agree)).1.0 in
          (λ up. ground arith, λ zero'. ground arith),
    )
