-- ===== src/Wm/Compositor/Screen/Order.antt =====
-- The windows of wm/src/compositor.rs are drawn in the order of their z values.
use flutter_os.Prelude.{
  ℕ, zero, suc, ◌+◌, ◌*◌, ◌^◌, ◌≤◌, ◌<◌, ◌≡◌, ◌≢◌, refl, ap₂, ◌∙◌, true, false, ◌&&◌, List, [], ◌∷◌,
  none, some, leb, ◌==◌, Bool-cases, inl, inr, length, get_or, arith,
}
use flutter_os.Prelude.Int.{pos, ◌+ℤ◌, signed32, max_ℤ, min_ℤ, +ℤ_parts}
use flutter_os.Prelude.Raster.{bytes_at}
use flutter_os.Wm.Window.{Window, WindowList, contains_point, empty}
use flutter_os.Wm.Window.ZOrder.{ZOrderIter, is_shown, z_at, iter_z_order, next}
use flutter_os.Wm.Window.ZOrder.Laws.{Rising, times, iter_z_order_lem}
use flutter_os.Wm.Compositor.{
  FramebufferInfo, Offscreen, each_window, composite, composite_window, fill_rect, desktop,
}
use flutter_os.Wm.Compositor.Pixels.{pixel, Fits, bytes_of, between, fill_rect_lem}
use flutter_os.Wm.Compositor.Content.{narrow, narrow'}
use flutter_os.Wm.Compositor.{saturating_add}
use flutter_os.Wm.Compositor.Windows.{IsPlaced}
use flutter_os.Wm.Compositor.Screen.{if_true, composite_window-outside, composite_window-content}

Rising-at :
    (z : ℕ → ℕ) (low : ℕ) (xs : List ℕ) (p q : ℕ)
    → Rising z low xs
    → p ≤ q
    → q < length xs
    → (low ≤ z (get_or xs q 0)) × (z (get_or xs p 0) ≤ z (get_or xs q 0))
Rising-at z low [] p q r h k = absurd (omega arith)
Rising-at z low (x ∷ xs) zero zero r h k = (r.0, omega arith)
Rising-at z low (x ∷ xs) (suc p) zero r h k = absurd (omega arith)
Rising-at z low (x ∷ xs) zero (suc q) r h k =
    let rest = Rising-at z (z x) xs q q r.1 (omega arith) (omega (arith, k)) in
    (omega (arith, rest.0, r.0), rest.0)
Rising-at z low (x ∷ xs) (suc p) (suc q) r h k =
    let rest = Rising-at z (z x) xs p q r.1 (omega (arith, h)) (omega (arith, k)) in
    (omega (arith, rest.0, r.0), rest.1)

times_at : (xs : List ℕ) (p : ℕ) → p < length xs → 0 < times (get_or xs p 0) xs
times_at [] p h = absurd (omega arith)
times_at (x ∷ xs) zero h = ground arith
times_at (x ∷ xs) (suc p) h = ground (arith, times_at xs p)

at_times : (xs : List ℕ) (j : ℕ) → 0 < times j xs → (q : ℕ) × (q < length xs) × (get_or xs q 0 ≡ j)
at_times [] j h = absurd (omega arith)
at_times (x ∷ xs) j h = elim (Bool-cases (x == j)) [
  | inl here ↦ (0, omega arith, ground (arith, here))
  | inr other ↦
      let (q, hq, e) = at_times xs j (ground (arith, other, h)) in (suc q, omega (arith, hq), e)
]

times_two :
    (xs : List ℕ) (p q j : ℕ)
    → p < q
    → q < length xs
    → get_or xs p 0 ≡ j
    → get_or xs q 0 ≡ j
    → 2 ≤ times j xs
times_two [] p q j h k e f = absurd (omega arith)
times_two (x ∷ xs) p zero j h k e f = absurd (omega arith)
times_two (x ∷ xs) zero (suc q) j h k e f =
    let once : 0 < times j xs = rw (← f) (times_at xs q (omega (arith, k))) in
    ground (arith, e, once)
times_two (x ∷ xs) (suc p) (suc q) j h k e f =
    let more = times_two xs p q j (omega (arith, h)) (omega (arith, k)) e f in ground (arith, more)

module _ (view : Offscreen → List ℕ) (draw : Window → Offscreen → Offscreen) (ws : List Window)
    (is : List ℕ) where
  abbrev at : ℕ → Window
  at p = get_or ws (get_or is p 0) empty

  abbrev from : ℕ → ZOrderIter
  from p = record { windows = ws; indices = is; pos = p }

  step_eq : (p : ℕ) → leb (length is) p ≡ false → next (from p) ≡ (some (at p), from (p + 1))
  unfolding next
  step_eq p h = rw h refl

  end_eq : (p : ℕ) → leb (length is) p ≡ true → next (from p) ≡ (none, from p)
  unfolding next
  end_eq p h = rw h refl

  -- Windows that do not change what is looked at.
  each_out :
      (n p : ℕ) (buf : Offscreen)
      → ((q : ℕ) (b : Offscreen) → p ≤ q → q < length is → view (draw (at q) b) ≡ view b)
      → view (each_window draw n (from p) buf) ≡ view buf
  unfolding each_window
  each_out zero p buf h = refl
  each_out (suc n) p buf h = elim (Bool-cases (leb (length is) p)) [
    | inl done ↦ rw (each_window, end_eq p done) refl
    | inr more ↦
        rw (each_window, step_eq p more, step_eq p more)
          (each_out n (p + 1) (draw (at p) buf) (λ q b l. h q b (omega (arith, l)))
            ∙ h p buf (omega arith) (ground (arith, more)))
  ]

  -- The last window that changes it decides.
  each_in :
      (c : List ℕ) (n p last : ℕ) (buf : Offscreen)
      → p ≤ last
      → last < p + n
      → last < length is
      → ((b : Offscreen) → view (draw (at last) b) ≡ c)
      → ((q : ℕ) (b : Offscreen) → last < q → q < length is → view (draw (at q) b) ≡ view b)
      → view (each_window draw n (from p) buf) ≡ c
  unfolding each_window
  each_in c zero p last buf lo hi' in_list shown later = absurd (omega arith)
  each_in c (suc n) p last buf lo hi' in_list shown later =
      let more : leb (length is) p ≡ false = ground (arith, lo, in_list) in
      elim (Bool-cases (p == last)) [
        | inl here ↦
            let same : p ≡ last = ground (arith, here) in
            rw (each_window, step_eq p more, step_eq p more)
              (each_out n (p + 1) (draw (at p) buf) (λ q b l. later q b (omega (arith, l, same)))
                ∙ (rw same (shown buf)))
        | inr before ↦
            rw (each_window, step_eq p more, step_eq p more)
              (each_in c n (p + 1) last (draw (at p) buf) (ground (arith, before, lo))
                (omega (arith, hi')) in_list shown later)
      ]

module _ (info : FramebufferInfo) (memory : ℕ → ℕ) (l : WindowList) (i j : ℕ) (fits : Fits info)
    (hi : i < info.width) (hj : j < info.height) where
  abbrev pub slot : ℕ → Window
  slot k = get_or l.windows k empty

  abbrev indices : List ℕ
  indices = (iter_z_order l).indices

  -- The windows that the iterator yields are visible.
  yields_shown : (q : ℕ) → q < length indices → is_shown (slot (get_or indices q 0)) ≡ true
  yields_shown q h = elim (Bool-cases (is_shown (slot (get_or indices q 0)))) [
    | inl shown ↦ shown
    | inr hidden ↦
        let some_time = times_at indices q h in
        let never = (iter_z_order_lem l).1 (get_or indices q 0) in
        absurd (ground (arith, hidden, some_time, never))
  ]

  iter_eq : iter_z_order l ≡ record { windows = l.windows; indices = indices; pos = 0 }
  unfolding iter_z_order
  iter_eq = refl

  -- The desktop covers the screen.
  base_lem :
      (buf : Offscreen)
      → pixel info i j (fill_rect info (pos 0) (pos 0) info.width info.height desktop buf)
        ≡ bytes_of desktop
  unfolding max_ℤ min_ℤ
  base_lem buf =
      let wide : info.width < 2 ^ 31 = narrow info.width info.height j hj fits in
      let high : info.height < 2 ^ 31 = narrow' info.width info.height i hi fits in
      let cols : signed32 info.width ≡ pos info.width = ground (arith, wide) in
      let rows : signed32 info.height ≡ pos info.height = ground (arith, high) in
      let in_x : between (pos 0) (saturating_add (pos 0) (signed32 info.width)) (pos i) ≡ true =
        rw cols (ground (arith, wide, hi, +ℤ_parts (pos 0) (pos info.width))) in
      let in_y : between (pos 0) (saturating_add (pos 0) (signed32 info.height)) (pos j) ≡ true =
        rw rows (ground (arith, high, hj, +ℤ_parts (pos 0) (pos info.height))) in
      fill_rect_lem info (pos 0) (pos 0) info.width info.height desktop i j buf fits hi hj
      ∙ if_true _ _ _ (ap₂ (λ a b. a && b) in_x in_y)

  -- A pixel that lies in no visible window shows the desktop's color, if every visible window has
  -- coordinates within 2 ^ 30 of 0, a width and a height below 2 ^ 29, and a width of 12 at least.
  pub composite-desktop :
      (buf : Offscreen)
      → ((k : ℕ) → is_shown (slot k) ≡ true → IsPlaced (slot k))
      → ((k : ℕ) → is_shown (slot k) ≡ true → contains_point (slot k) (pos i) (pos j) ≡ false)
      → pixel info i j (composite info memory l buf) ≡ bytes_of desktop
  unfolding composite
  composite-desktop buf placed out = rw iter_eq (
      each_out (pixel info i j) (composite_window info memory) l.windows indices _ 0 _ (λ q b lo h.
        let shown = yields_shown q h in
        let k = get_or indices q 0 in
        composite_window-outside info memory (slot k) i j fits hi hj (placed k shown) b
          (out k shown))
      ∙ base_lem buf)

  once : (k : ℕ) → is_shown (slot k) ≡ true → 0 < times k indices
  once k shown = ground (arith, shown, (iter_z_order_lem l).1 k)

  -- What is drawn after a window that lies above all others at the pixel.
  later_out :
      ((m : ℕ) → is_shown (slot m) ≡ true → IsPlaced (slot m))
      → (k : ℕ) → is_shown (slot k) ≡ true
      → ((m : ℕ)
          → is_shown (slot m) ≡ true
          → m ≢ k
          → contains_point (slot m) (pos i) (pos j) ≡ true
          → (slot m).z_order < (slot k).z_order)
      → (q : ℕ) → q < length indices
      → get_or indices q 0 ≡ k
      → (r : ℕ) (b : Offscreen) → q < r
      → r < length indices
      → pixel info i j (composite_window info memory (slot (get_or indices r 0)) b)
        ≡ pixel info i j b
  later_out placed k shown top q hq at_q r b after h =
      let m = get_or indices r 0 in
      let shown' = yields_shown r h in
      let order =
        (Rising-at (z_at l.windows) 0 indices q r (iter_z_order_lem l).0 (omega (arith, after))
          h).1 in
      let order' : (slot k).z_order ≤ (slot m).z_order = rw (← at_q) order in
      let other : m ≢ k = λ e.
        let twice = times_two indices q r k after h at_q e in
        absurd (ground (arith, twice, shown, (iter_z_order_lem l).1 k)) in
      elim (Bool-cases (contains_point (slot m) (pos i) (pos j))) [
        | inr out ↦
            composite_window-outside info memory (slot m) i j fits hi hj (placed m shown') b out
        | inl inside ↦ absurd (omega (arith, order', top m shown' other inside))
      ]

  -- A pixel in the content's area of a visible window shows the content, if every other visible window
  -- that contains the pixel has a lower z value, the content is long enough, and every visible window
  -- has coordinates within 2 ^ 30 of 0, a width and a height below 2 ^ 29, and a width of 12 at least.
  pub composite-content :
      (buf : Offscreen) (k row col : ℕ)
      → ((m : ℕ) → is_shown (slot m) ≡ true → IsPlaced (slot m))
      → is_shown (slot k) ≡ true
      → ((m : ℕ)
          → is_shown (slot m) ≡ true
          → m ≢ k
          → contains_point (slot m) (pos i) (pos j) ≡ true
          → (slot m).z_order < (slot k).z_order)
      → (slot k).content_buf ≢ 0
      → row < (slot k).height
      → col < (slot k).width
      → pos i ≡ (slot k).x +ℤ pos (col + 2)
      → pos j ≡ (slot k).y +ℤ pos (row + 24)
      → (row * (slot k).width + col) * 4 + 4 ≤ (slot k).content_len
      → (slot k).content_len < 2 ^ 64
      → pixel info i j (composite info memory l buf)
        ≡ bytes_at ((slot k).content_buf + (row * (slot k).width + col) * 4) memory
  unfolding composite
  composite-content buf k row col placed shown top here hr hc at_x at_y room small =
      let visible : (slot k).visible ≡ true = ground (arith, shown) in
      let (q, hq, at_q) = at_times indices k (once k shown) in
      rw iter_eq (
        each_in (pixel info i j) (composite_window info memory) l.windows indices _ _ 0 q _
          (omega arith) (omega (arith, hq)) hq
          (λ b. rw at_q (
            composite_window-content info memory (slot k) i j fits hi hj (placed k shown) b row col
              visible here hr hc at_x at_y room small))
          (λ r b after h. later_out placed k shown top q hq at_q r b after h))
