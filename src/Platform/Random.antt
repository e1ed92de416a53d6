-- ===== src/Platform/Random.antt =====
-- Random bytes and the error that is kept of them.
use moonlight_tailscale_vita.Common.{
  ℕ, List, [], ◌∷◌, Bytes, pos, is_neg, true, false, replicate, ◌≡◌, ◌≢◌, ◌↔◌, refl, sym, subst,
  arith, Bool-cases, inl, inr,
}
use moonlight_tailscale_vita.Platform.{
  Kernel, Platform, wireguard_random_bytes, tsvita_wireguard_random_error,
}

-- Several requests, one after the other: the buffers, and the platform afterwards.
unfoldable pub fill_all :
    {World : Type 0} → Kernel World → List ℕ → Platform World → List Bytes × Platform World
fill_all x [] p = ([], p)
fill_all x (size ∷ sizes) p =
    let (bytes, p') = wireguard_random_bytes x size p in
    let (rest, p'') = fill_all x sizes p' in (bytes ∷ rest, p'')

module _ {World : Type 0} (x : Kernel World) where
  -- Each buffer holds what the kernel gave, where no call of it failed.
  abbrev pub IsFilled : List ℕ → World → List Bytes → Type 0
  IsFilled [] w buffers = buffers ≡ []
  IsFilled (size ∷ sizes) w [] = ⊥
  IsFilled (size ∷ sizes) w (b ∷ buffers) =
      (is_neg (x.random_number size w).0 ≡ false)
      × (b ≡ (x.random_number size w).1)
      × IsFilled sizes (x.random_number size w).2 buffers

  -- The error is never cleared by a later request.
  fill_all-keeps :
      (sizes : List ℕ) (p : Platform World)
      → p.random_error ≢ pos 0
      → (fill_all x sizes p).1.random_error ≢ pos 0
  unfolding fill_all wireguard_random_bytes
  fill_all-keeps [] p h = h
  fill_all-keeps (size ∷ sizes) p h =
      fill_all-keeps sizes (wireguard_random_bytes x size p).1 (ground arith)

  -- The bytes of a request that fails are all zero, and the error is the kernel's.
  wireguard_random_bytes_failed :
      (size : ℕ) (p : Platform World)
      → is_neg (x.random_number size p.world).0 ≡ true
      → ((wireguard_random_bytes x size p).0 ≡ replicate size 0)
        × ((wireguard_random_bytes x size p).1.random_error ≡ (x.random_number size p.world).0)
  unfolding wireguard_random_bytes
  wireguard_random_bytes_failed size p h = (rw h refl, rw h refl)

  -- From a platform without an error: whatever is asked for, `tsvita_wireguard_random_error` is 0
  -- afterwards exactly if every buffer holds the kernel's bytes, none of its calls having failed.
  pub fill_all_iff :
      (sizes : List ℕ) (p : Platform World)
      → p.random_error ≡ pos 0
      → (tsvita_wireguard_random_error x (fill_all x sizes p).1 ≡ pos 0)
        ↔ IsFilled sizes p.world (fill_all x sizes p).0
  unfolding fill_all wireguard_random_bytes
  fill_all_iff [] p h = (λ e. refl, λ e. h)
  fill_all_iff (size ∷ sizes) p h = elim (Bool-cases (is_neg (x.random_number size p.world).0)) [
    | inl failed ↦
        let q = (wireguard_random_bytes x size p).1 in
        ((λ e. absurd (fill_all-keeps sizes q (ground arith) e)), (λ e. absurd (ground arith)))
    | inr fine ↦
        let q = (wireguard_random_bytes x size p).1 in
        let rest = fill_all_iff sizes q (ground arith) in
        let bytes : (wireguard_random_bytes x size p).0 ≡ (x.random_number size p.world).1 =
          rw fine refl in
        let world' : q.world ≡ (x.random_number size p.world).2 = rw fine refl in
        (
          (λ e. (
            fine,
            bytes,
            subst (λ (w : World). IsFilled sizes w (fill_all x sizes q).0) world' (rest.0 e),
          )),
          (λ e.
              rest.1
                (subst (λ (w : World). IsFilled sizes w (fill_all x sizes q).0) (sym world') e.2)),
        )
  ]
