-- ===== src/Wm/Compositor/Windows.antt =====
-- Where the windows are drawn: wm/src/compositor.rs.
use flutter_os.Prelude.{
  ℕ, suc, ◌+◌, ◌-◌, ◌*◌, ◌%◌, ◌^◌, ◌≤◌, ◌<◌, ◌≡◌, refl, sym, ◌∙◌, false, ◌&&◌, arith,
}
use flutter_os.Prelude.Int.{
  ℤ, pos, negsuc, ◌+ℤ◌, ◌-ℤ◌, ◌≤ℤ◌, max_ℤ, min_ℤ, signed32, wrap32, wrap32_lem, +ℤ_parts, -ℤ_parts,
  eq_of_parts,
}
use flutter_os.Wm.Window.{
  Window, title_bar_height, border_width, full_width, full_height, contains_point,
}
use flutter_os.Wm.Compositor.{
  Color, FramebufferInfo, Offscreen, saturating_add, fill_rect, draw_rect_outline, draw_title_text,
  draw_frame,
}
use flutter_os.Wm.Compositor.Pixels.{pixel, Fits, between, fill_rect_lem}

-- The window's coordinates and sizes are far from the bounds of i32, and it is as wide as its logo.
pub record IsPlaced (w : Window) : Type 0 where
  pub left_in : negsuc (2 ^ 30) ≤ℤ w.x
  pub right_in : w.x ≤ℤ pos (2 ^ 30)
  pub top_in : negsuc (2 ^ 30) ≤ℤ w.y
  pub bottom_in : w.y ≤ℤ pos (2 ^ 30)
  pub width_in : w.width < 2 ^ 29
  pub height_in : w.height < 2 ^ 29
  pub logo_fits : 12 ≤ w.width

sat_le :
    (a : ℤ) (n : ℕ)
    → negsuc (2 ^ 31 - 1) ≤ℤ a
    → n < 2 ^ 31
    → saturating_add a (signed32 n) ≤ℤ (a +ℤ pos n)
unfolding max_ℤ min_ℤ
sat_le a n lo hi = ground (arith, +ℤ_parts a (signed32 n))

-- A rectangle within another one.
piece_out :
    (x e a f y g b h zi zj : ℤ)
    → x ≤ℤ a
    → f ≤ℤ e
    → y ≤ℤ b
    → h ≤ℤ g
    → (between x e zi && between y g zj) ≡ false
    → (between a f zi && between b h zj) ≡ false
piece_out x e a f y g b h zi zj p q r s out = ground (arith, p, q, r, s, out)

pub contains-between :
    (w : Window) (i j : ℕ)
    → IsPlaced w
    → contains_point w (pos i) (pos j) ≡ (
        between w.x (w.x +ℤ pos (w.width + 4)) (pos i)
        && between w.y (w.y +ℤ pos (w.height + 28)) (pos j))
unfolding contains_point full_width full_height
contains-between w i j p =
    let cols : signed32 ((w.width + 4) % 2 ^ 32) ≡ pos (w.width + 4) = ground (arith, p.width_in) in
    let rows : signed32 ((w.height + 24 + 4) % 2 ^ 32) ≡ pos (w.height + 28) =
      ground (arith, p.height_in) in
    let right : wrap32 (w.x +ℤ pos (w.width + 4)) ≡ w.x +ℤ pos (w.width + 4) =
      wrap32_lem (w.x +ℤ pos (w.width + 4)) (ground (arith, +ℤ_parts w.x (pos (w.width + 4)))) in
    let low : wrap32 (w.y +ℤ pos (w.height + 28)) ≡ w.y +ℤ pos (w.height + 28) =
      wrap32_lem (w.y +ℤ pos (w.height + 28))
        (ground (arith, +ℤ_parts w.y (pos (w.height + 28)))) in
    rw (cols, rows, right, low) (ground arith)

starts_in : (x a : ℤ) (k : ℕ) → a ≡ x +ℤ pos k → x ≤ℤ a
starts_in x a k e = rw e (omega (arith, +ℤ_parts x (pos k)))

ends_in :
    (x a s : ℤ) (k n f : ℕ) → a ≡ x +ℤ pos k → s ≤ℤ (a +ℤ pos n) → k + n ≤ f → s ≤ℤ (x +ℤ pos f)
ends_in x a s k n f e h fits =
    let at = +ℤ_parts x (pos k) in
    let h' : s ≤ℤ ((x +ℤ pos k) +ℤ pos n) = rw (← e) h in
    omega (arith, at, h', +ℤ_parts (x +ℤ pos k) (pos n), +ℤ_parts x (pos f))

-- Coordinates near the window do not wrap.
pub near_x : (w : Window) (n : ℕ) → IsPlaced w → n < 2 ^ 30 → wrap32 (w.x +ℤ pos n) ≡ w.x +ℤ pos n
near_x w n p h = wrap32_lem (w.x +ℤ pos n) (ground (arith, +ℤ_parts w.x (pos n)))

pub near_y : (w : Window) (n : ℕ) → IsPlaced w → n < 2 ^ 30 → wrap32 (w.y +ℤ pos n) ≡ w.y +ℤ pos n
near_y w n p h = wrap32_lem (w.y +ℤ pos n) (ground (arith, +ℤ_parts w.y (pos n)))

-- The last column or row of a range.
last_of :
    (z : ℤ) (n : ℕ)
    → negsuc (2 ^ 30) ≤ℤ z
    → z ≤ℤ pos (2 ^ 30)
    → n < 2 ^ 29 + 32
    → wrap32 (wrap32 (z +ℤ pos (suc n)) -ℤ pos 1) ≡ z +ℤ pos n
last_of z n lo hi small =
    let sum : wrap32 (z +ℤ pos (suc n)) ≡ z +ℤ pos (suc n) =
      wrap32_lem (z +ℤ pos (suc n)) (ground (arith, +ℤ_parts z (pos (suc n)))) in
    let less : (z +ℤ pos (suc n)) -ℤ pos 1 ≡ z +ℤ pos n = omega (
      arith,
      eq_of_parts ((z +ℤ pos (suc n)) -ℤ pos 1) (z +ℤ pos n),
      -ℤ_parts (z +ℤ pos (suc n)) (pos 1),
      +ℤ_parts z (pos (suc n)),
      +ℤ_parts z (pos n),
    ) in
    rw (sum, less) (wrap32_lem (z +ℤ pos n) (ground (arith, +ℤ_parts z (pos n))))

module _ (info : FramebufferInfo) (w : Window) (i j : ℕ) (fits : Fits info) (hi : i < info.width)
    (hj : j < info.height) (p : IsPlaced w) (out : contains_point w (pos i) (pos j) ≡ false) where
  pub rect_out :
      (a b : ℤ) (n m k l : ℕ) (c : Color) (buf : Offscreen)
      → a ≡ w.x +ℤ pos k
      → b ≡ w.y +ℤ pos l
      → k + n ≤ w.width + 4
      → l + m ≤ w.height + 28
      → pixel info i j (fill_rect info a b n m c buf) ≡ pixel info i j buf
  rect_out a b n m k l c buf at_x at_y cols rows =
      let outer = sym (contains-between w i j p) ∙ out in
      let right = sat_le a n (rw at_x (omega (arith, +ℤ_parts w.x (pos k)))) (omega arith) in
      let low = sat_le b m (rw at_y (omega (arith, +ℤ_parts w.y (pos l)))) (omega arith) in
      let miss =
        piece_out w.x (w.x +ℤ pos (w.width + 4)) a (saturating_add a (signed32 n)) w.y
          (w.y +ℤ pos (w.height + 28)) b (saturating_add b (signed32 m)) (pos i) (pos j)
          (starts_in w.x a k at_x) (ends_in w.x a _ k n (w.width + 4) at_x right cols)
          (starts_in w.y b l at_y) (ends_in w.y b _ l m (w.height + 28) at_y low rows) outer in
      rw (fill_rect_lem info a b n m c i j buf fits hi hj, miss) refl

  plus_zero : (z : ℤ) → z ≡ z +ℤ pos 0
  plus_zero z = omega (arith, eq_of_parts z (z +ℤ pos 0), +ℤ_parts z (pos 0))

  outline_out :
      (c : Color) (buf : Offscreen)
      → pixel info i j
          (draw_rect_outline info w.x w.y (suc (w.width + 3)) (suc (w.height + 27)) c buf)
        ≡ pixel info i j buf
  unfolding draw_rect_outline
  outline_out c buf =
      let fw = suc (w.width + 3) in
      let fh = suc (w.height + 27) in
      let wide : signed32 fw ≡ pos fw = ground (arith, p.width_in) in
      let high : signed32 fh ≡ pos fh = ground (arith, p.height_in) in
      let right : wrap32 (wrap32 (w.x +ℤ signed32 fw) -ℤ pos 1) ≡ w.x +ℤ pos (w.width + 3) =
        rw wide (last_of w.x (w.width + 3) p.left_in p.right_in (omega (arith, p.width_in))) in
      let low : wrap32 (wrap32 (w.y +ℤ signed32 fh) -ℤ pos 1) ≡ w.y +ℤ pos (w.height + 27) =
        rw high (last_of w.y (w.height + 27) p.top_in p.bottom_in (omega (arith, p.height_in))) in
      rect_out _ w.y 1 fh (w.width + 3) 0 c _ right (plus_zero w.y) (omega arith) (omega arith)
      ∙ rect_out w.x w.y 1 fh 0 0 c _ (plus_zero w.x) (plus_zero w.y) (omega arith) (omega arith)
      ∙ rect_out w.x _ fw 1 0 (w.height + 27) c _ (plus_zero w.x) low (omega arith) (omega arith)
      ∙ rect_out w.x w.y fw 1 0 0 c _ (plus_zero w.x) (plus_zero w.y) (omega arith) (omega arith)

  -- Neither the border nor the title bar nor the logo leaves the window.
  pub frame_out : (buf : Offscreen) → pixel info i j (draw_frame info w buf) ≡ pixel info i j buf
  unfolding draw_frame draw_title_text full_width full_height
  frame_out buf =
      let width : (w.width + 2 * border_width) % 2 ^ 32 ≡ suc (w.width + 3) =
        omega (arith, p.width_in) in
      let height : (w.height + title_bar_height + 2 * border_width) % 2 ^ 32 ≡ suc (w.height + 27) =
        omega (arith, p.height_in) in
      let inner : (suc (w.width + 3) + 2 ^ 32 - 2) % 2 ^ 32 ≡ w.width + 2 =
        omega (arith, p.width_in) in
      rw (width, height, inner)
        (rect_out _ _ 12 12 4 6 _ _ (near_x w 4 p (omega arith)) (near_y w 6 p (omega arith))
            (omega (arith, p.logo_fits)) (omega arith)
          ∙ rect_out _ _ (w.width + 2) title_bar_height 1 1 _ _ (near_x w 1 p (omega arith))
              (near_y w 1 p (omega arith)) (omega arith) (omega arith)
          ∙ outline_out _ buf)
