-- ===== src/Wm/Window/Hit.antt =====
-- Which window wm/src/window.rs takes a click for: `hit_test` and `raise_to_top`.
use flutter_os.Prelude.{
  ◌+◌, ◌%◌, ◌^◌, ◌<◌, ℕ, suc, ◌≤◌, ◌≡◌, refl, ◌≢◌, ◌⊎◌, inl, inr, true, false, ◌&&◌, some, List, [],
  ◌∷◌, ltb, leb, arith, Bool-cases,
}
use flutter_os.Prelude.Int.{ℤ, ◌+ℤ◌, signed32, wrap32, leb_ℤ, ltb_ℤ}
use flutter_os.Prelude.Slots
use flutter_os.Prelude.Slots.{Absent, Distinct}
use flutter_os.Wm.Window.{
  Window, WindowList, id_of, is_hit, hit_loop, hit_test, raise_to_top, get, contains_point,
  full_width, full_height,
}
use flutter_os.Wm.Window.Laws.{IsValid, ZBelow}

abbrev pub Holds : Window → List Window → Type 0
Holds w [] = ⊥
Holds w (x ∷ xs) = (x ≡ w) ⊎ Holds w xs

module _ (px py : ℤ) where
  -- No window of the list that is hit lies higher than z.
  abbrev NoneAbove : ℕ → List Window → Type 0
  NoneAbove z [] = Unit {0}
  NoneAbove z (w ∷ ws) = ((is_hit px py w && ltb z w.z_order) ≡ false) × NoneAbove z ws

  abbrev NoneHit : List Window → Type 0
  NoneHit [] = Unit {0}
  NoneHit (w ∷ ws) = (is_hit px py w ≡ false) × NoneHit ws

  -- Every window that is hit lies below z.
  abbrev HitsBelow : ℕ → List Window → Type 0
  HitsBelow z [] = Unit {0}
  HitsBelow z (w ∷ ws) = ((is_hit px py w && leb z w.z_order) ≡ false) × HitsBelow z ws

  below_above : (y z : ℕ) (ws : List Window) → y ≤ suc z → HitsBelow y ws → NoneAbove z ws
  below_above y z [] h b = tt
  below_above y z (w ∷ ws) h b = ground (arith, below_above y z ws h b.1)

  -- What the loop has found: nothing at or above `top_z`, or a highest window that is hit.
  loop_lem :
      (top_z hit_id : ℕ) (ws : List Window)
      → ((hit_loop px py top_z hit_id ws ≡ hit_id) × HitsBelow top_z ws)
        ⊎ ((w : Window) × Holds w ws
            × (is_hit px py w ≡ true)
            × (hit_loop px py top_z hit_id ws ≡ w.id)
            × (top_z ≤ w.z_order)
            × NoneAbove w.z_order ws)
  unfolding hit_loop
  loop_lem top_z hit_id [] = inl (refl, tt)
  loop_lem top_z hit_id (x ∷ xs) = elim (Bool-cases (is_hit px py x && leb top_z x.z_order)) [
    | inl better ↦ elim (loop_lem x.z_order x.id xs) [
      | inl (same, below) ↦ inr (
        x,
        inl refl,
        ground (arith, better),
        ground (arith, better, same),
        ground (arith, better),
        (ground arith, below_above x.z_order x.z_order xs (omega arith) below),
      )
      | inr (w, at, hit, same, le, above) ↦ inr (
        w,
        inr at,
        hit,
        ground (arith, better, same),
        ground (arith, better),
        (ground arith, above),
      )
    ]
    | inr worse ↦ elim (loop_lem top_z hit_id xs) [
      | inl (same, below) ↦ inl (ground (arith, worse, same), (worse, below))
      | inr (w, at, hit, same, le, above) ↦
          inr (w, inr at, hit, ground (arith, worse, same), le, (ground (arith, worse), above))
    ]
  ]

  -- A window that has a number and is visible shows the point: the frame of 2 pixels and the title bar
  -- of 24 are around the content, and coordinates wrap around at 32 bits.
  abbrev pub Shows : Window → Type 0
  Shows w =
      (w.id ≢ 0)
      × (w.visible ≡ true)
      × (leb_ℤ w.x px ≡ true)
      × (ltb_ℤ px (wrap32 (w.x +ℤ signed32 ((w.width + 4) % 2 ^ 32))) ≡ true)
      × (leb_ℤ w.y py ≡ true)
      × (ltb_ℤ py (wrap32 (w.y +ℤ signed32 ((w.height + 28) % 2 ^ 32))) ≡ true)

  abbrev pub NoneShows : List Window → Type 0
  NoneShows [] = Unit {0}
  NoneShows (w ∷ ws) = (¬ Shows w) × NoneShows ws

  -- No window of the list with a z value above z shows the point.
  abbrev pub NoneShowsAbove : ℕ → List Window → Type 0
  NoneShowsAbove z [] = Unit {0}
  NoneShowsAbove z (w ∷ ws) = (z < w.z_order → ¬ Shows w) × NoneShowsAbove z ws

  full_height_eq : (h : ℕ) → h + 24 + 4 ≡ h + 28
  full_height_eq h = omega arith

  hit-Shows : (w : Window) → is_hit px py w ≡ true → Shows w
  unfolding is_hit contains_point full_width full_height
  hit-Shows w h = (
    ground (arith, h),
    ground (arith, h),
    ground (arith, h),
    ground (arith, h),
    ground (arith, h),
    rw (← full_height_eq w.height) (ground (arith, h)),
  )

  Shows-hit : (w : Window) → Shows w → is_hit px py w ≡ true
  unfolding is_hit contains_point full_width full_height
  Shows-hit w (nz, v, a, b, c, d) = ground (arith, nz, v, a, b, c, full_height_eq w.height, d)

  NoneHit-NoneShows : (ws : List Window) → NoneHit ws → NoneShows ws
  NoneHit-NoneShows [] h = tt
  NoneHit-NoneShows (w ∷ ws) h =
      (λ s. absurd (ground (arith, h.0, Shows-hit w s)), NoneHit-NoneShows ws h.1)

  NoneAbove-NoneShowsAbove : (z : ℕ) (ws : List Window) → NoneAbove z ws → NoneShowsAbove z ws
  NoneAbove-NoneShowsAbove z [] h = tt
  NoneAbove-NoneShowsAbove z (w ∷ ws) h =
      (λ lt s. absurd (ground (arith, h.0, Shows-hit w s, lt)), NoneAbove-NoneShowsAbove z ws h.1)

  below_none : (ws : List Window) → HitsBelow 0 ws → NoneHit ws
  below_none [] b = tt
  below_none (w ∷ ws) b = ground (arith, below_none ws b.1)

  pub hit_test_found :
      (l : WindowList)
      → ((hit_test l px py ≡ 0) × NoneHit l.windows)
        ⊎ ((w : Window) × Holds w l.windows
            × (is_hit px py w ≡ true)
            × (hit_test l px py ≡ w.id)
            × (w.id ≢ 0)
            × NoneAbove w.z_order l.windows)
  unfolding hit_test
  hit_test_found l = elim (loop_lem 0 0 l.windows) [
    | inl (same, below) ↦ inl (same, below_none l.windows below)
    | inr (w, at, hit, same, le, above) ↦ inr (w, at, hit, same, λ z. hit_nonzero w hit z, above)
  ]
    where
      hit_nonzero : (w : Window) → is_hit px py w ≡ true → w.id ≢ 0
      hit_nonzero w hit = unfold is_hit in ground arith

  -- `hit_test` returns 0 only if no visible window contains the point; otherwise it returns the id,
  -- other than 0, of a visible window that contains it and lies at least as high as any other such.
  pub hit_test_lem :
      (l : WindowList)
      → ((hit_test l px py ≡ 0) × NoneShows l.windows)
        ⊎ ((w : Window) × Holds w l.windows
            × Shows w
            × (hit_test l px py ≡ w.id)
            × NoneShowsAbove w.z_order l.windows)
  hit_test_lem l = elim (hit_test_found l) [
    | inl (same, missed) ↦ inl (same, NoneHit-NoneShows l.windows missed)
    | inr (w, at, hit, same, nz, above) ↦
        inr (w, at, hit-Shows w hit, same, NoneAbove-NoneShowsAbove w.z_order l.windows above)
  ]

  highest_stays : (n id : ℕ) (ws : List Window) → ZBelow n ws → hit_loop px py n id ws ≡ id
  unfolding hit_loop
  highest_stays n id [] b = refl
  highest_stays n id (w ∷ ws) b = ground (arith, highest_stays n id ws b.1)

  raised_hit : (w : Window) (n : ℕ) → is_hit px py (record w { z_order = n }) ≡ is_hit px py w
  unfolding is_hit contains_point full_width full_height
  raised_hit w n = refl

  raised_wins :
      (n id top_z hit_id : ℕ) (ws : List Window) (w : Window)
      → top_z ≤ n
      → ZBelow n ws
      → Slots.find id_of id ws ≡ some w
      → is_hit px py w ≡ true
      → hit_loop px py top_z hit_id (Slots.update id_of id (λ u. record u { z_order = n }) ws) ≡ id
  unfolding hit_loop Slots.find Slots.update
  raised_wins n id top_z hit_id [] w le b e hit = cc
  raised_wins n id top_z hit_id (x ∷ xs) w le b e hit = ground (
    arith,
    raised_hit x n,
    highest_stays n x.id xs b.1,
    raised_wins n id x.z_order x.id xs w,
    raised_wins n id top_z hit_id xs w,
  )

  -- In a valid list a window that is raised gets every click on a point that it shows.
  pub hit_test-raise_to_top :
      (l : WindowList) (id : ℕ) (w : Window)
      → IsValid l
      → get l id ≡ some w
      → is_hit px py w ≡ true
      → hit_test (raise_to_top l id).1 px py ≡ id
  unfolding hit_test raise_to_top get
  hit_test-raise_to_top l id w v e hit =
      rw (e, raise_to_top) (raised_wins l.next_z id 0 0 l.windows w (omega arith) v.z_below e hit)

Holds-Absent : (k : ℕ) (w : Window) (ws : List Window) → Holds w ws → Absent id_of k ws → w.id ≢ k
Holds-Absent k w [] h a = absurd h
Holds-Absent k w (x ∷ xs) (inl e) a = ground arith
Holds-Absent k w (x ∷ xs) (inr h) a = Holds-Absent k w xs h a.1

-- In a list with distinct ids a window is found under its id.
pub find-Holds :
    (w : Window) (ws : List Window)
    → w.id ≢ 0
    → Distinct id_of ws
    → Holds w ws
    → Slots.find id_of w.id ws ≡ some w
unfolding Slots.find
find-Holds w [] nz d h = absurd h
find-Holds w (x ∷ xs) nz d (inl e) = ground arith
find-Holds w (x ∷ xs) nz d (inr h) =
    ground (arith, find-Holds w xs nz d.1 h, Holds-Absent x.id w xs h)
