-- ===== src/Wm/Compositor/Screen.antt =====
-- What the whole drawing of wm/src/compositor.rs leaves on the screen.
pub mod Order
use flutter_os.Prelude.{
  ℕ, zero, suc, ◌+◌, ◌-◌, ◌*◌, ◌%◌, ◌^◌, ◌≤◌, ◌<◌, ◌≡◌, ◌≢◌, refl, sym, ap, ◌∙◌, Bool, true, false,
  not, ◌&&◌, ◌||◌, List, [], ◌∷◌, ltb, leb, ◌==◌, if◌then◌else◌, if_elim, Bool-cases, ◌⊎◌, inl, inr,
  arith,
}
use flutter_os.Prelude.Int.{
  ℤ, pos, negsuc, pos_part, neg_part, ◌+ℤ◌, ltb_ℤ, leb_ℤ, signed32, wrap32, wrap32_lem, +ℤ_parts,
  eq_of_parts,
}
use flutter_os.Prelude.Raster.{bytes_at}
use flutter_os.Wm.Window.{Window, contains_point, title_bar_height, border_width}
use flutter_os.Wm.Compositor.{
  FramebufferInfo, Offscreen, composite_window, draw_frame, fill_rect, blit, content_x, content_y,
  dark_bg,
}
use flutter_os.Wm.Compositor.Pixels.{pixel, Fits, bytes_of, same_ℤ, between}
use flutter_os.Wm.Compositor.Windows.{
  IsPlaced, contains-between, near_x, near_y, rect_out, frame_out,
}
use flutter_os.Wm.Compositor.Content.{rows_out, rows_in, reaches}

sum_lem : (z : ℤ) (a b : ℕ) → (z +ℤ pos a) +ℤ pos b ≡ z +ℤ pos (b + a)
sum_lem z a b = omega (
  arith,
  eq_of_parts ((z +ℤ pos a) +ℤ pos b) (z +ℤ pos (b + a)),
  +ℤ_parts (z +ℤ pos a) (pos b),
  +ℤ_parts z (pos a),
  +ℤ_parts z (pos (b + a)),
)

col_at :
    (w : Window) (d : ℕ)
    → IsPlaced w
    → d < w.width
    → wrap32 (content_x w +ℤ pos d) ≡ w.x +ℤ pos (d + 2)
col_at w d p h =
    rw (near_x w 2 p (omega arith), sum_lem w.x 2 d)
      (near_x w (d + 2) p (omega (arith, p.width_in)))

row_at :
    (w : Window) (r : ℕ)
    → IsPlaced w
    → r < w.height
    → wrap32 (content_y w +ℤ pos r) ≡ w.y +ℤ pos (r + 24)
row_at w r p h =
    rw (near_y w 24 p (omega arith), sum_lem w.y 24 r)
      (near_y w (r + 24) p (omega (arith, p.height_in)))

small_signed : (n : ℕ) → n < 2 ^ 29 → pos_part (signed32 n) ≡ n
small_signed n h = ground (arith, h)

pub if_true {ℓ} : {A : Type ℓ} (c : Bool) (x y : A) → c ≡ true → (if c then x else y) ≡ x
if_true c x y e = rw e refl

if_false {ℓ} : {A : Type ℓ} (c : Bool) (x y : A) → c ≡ false → (if c then x else y) ≡ y
if_false c x y e = rw e refl

module _ (info : FramebufferInfo) (memory : ℕ → ℕ) (w : Window) (i j : ℕ) (fits : Fits info)
    (hi : i < info.width) (hj : j < info.height) (p : IsPlaced w) where
  no_reach :
      (r d : ℕ)
      → contains_point w (pos i) (pos j) ≡ false
      → r < w.height
      → d < w.width
      → reaches info w memory i j fits hi hj (content_x w) (content_y w) r d ≡ false
  no_reach r d out hr hd =
      rw (col_at w d p hd, row_at w r p hr)
        (ground (
          arith,
          sym (contains-between w i j p) ∙ out,
          +ℤ_parts w.x (pos (d + 2)),
          +ℤ_parts w.y (pos (r + 24)),
          +ℤ_parts w.x (pos (w.width + 4)),
          +ℤ_parts w.y (pos (w.height + 28)),
        ))

  reach_iff :
      (r d row col : ℕ)
      → pos i ≡ w.x +ℤ pos (col + 2)
      → pos j ≡ w.y +ℤ pos (row + 24)
      → r < w.height
      → d < w.width
      → reaches info w memory i j fits hi hj (content_x w) (content_y w) r d
        ≡ ((r == row) && (d == col))
  reach_iff r d row col at_x at_y hr hd =
      rw (col_at w d p hd, row_at w r p hr)
        (ground (
          arith,
          ap pos_part at_x,
          ap neg_part at_x,
          ap pos_part at_y,
          ap neg_part at_y,
          +ℤ_parts w.x (pos (d + 2)),
          +ℤ_parts w.y (pos (r + 24)),
          +ℤ_parts w.x (pos (col + 2)),
          +ℤ_parts w.y (pos (row + 24)),
        ))

  no_content : Bool
  no_content = (w.content_buf == 0) || (w.content_len == 0)

  filled : Offscreen → Offscreen
  filled buf =
      fill_rect info (content_x w) (content_y w) w.width w.height dark_bg (draw_frame info w buf)

  shown_eq :
      (buf : Offscreen)
      → w.visible ≡ true
      → composite_window info memory w buf
        ≡ (if no_content then filled buf else blit info w memory (draw_frame info w buf))
  unfolding composite_window no_content filled
  shown_eq buf shown = if_false (not w.visible) buf _ (ground (arith, shown))

  hidden_eq : (buf : Offscreen) → w.visible ≡ false → composite_window info memory w buf ≡ buf
  unfolding composite_window
  hidden_eq buf hidden = if_true (not w.visible) buf _ (ground (arith, hidden))

  filled_out :
      (buf : Offscreen)
      → contains_point w (pos i) (pos j) ≡ false
      → pixel info i j (filled buf) ≡ pixel info i j buf
  unfolding filled
  filled_out buf out =
      rect_out info w i j fits hi hj p out _ _ w.width w.height 2 24 dark_bg _
        (near_x w 2 p (omega arith)) (near_y w 24 p (omega arith)) (omega arith) (omega arith)
      ∙ frame_out info w i j fits hi hj p out buf

  blit_out :
      (buf : Offscreen)
      → contains_point w (pos i) (pos j) ≡ false
      → pixel info i j (blit info w memory (draw_frame info w buf)) ≡ pixel info i j buf
  unfolding blit
  blit_out buf out =
      let wide = small_signed w.width p.width_in in
      let high = small_signed w.height p.height_in in
      rows_out info w memory i j fits hi hj (content_x w) (content_y w) _ 0 _
        (λ s d l u c. no_reach s d out (rw (← high) (omega (arith, u))) (rw (← wide) c))
      ∙ frame_out info w i j fits hi hj p out buf

  -- A window changes no pixel that its hit test does not count to it.
  pub composite_window-outside :
      (buf : Offscreen)
      → contains_point w (pos i) (pos j) ≡ false
      → pixel info i j (composite_window info memory w buf) ≡ pixel info i j buf
  composite_window-outside buf out = elim (Bool-cases w.visible) [
    | inr hidden ↦ ap (pixel info i j) (hidden_eq buf hidden)
    | inl shown ↦
        ap (pixel info i j) (shown_eq buf shown)
        ∙ if_elim (λ b. pixel info i j b ≡ pixel info i j buf) no_content (filled buf)
            (blit info w memory (draw_frame info w buf)) (filled_out buf out) (blit_out buf out)
  ]

  blit_in :
      (buf : Offscreen) (row col : ℕ)
      → row < w.height
      → col < w.width
      → pos i ≡ w.x +ℤ pos (col + 2)
      → pos j ≡ w.y +ℤ pos (row + 24)
      → (row * w.width + col) * 4 + 4 ≤ w.content_len
      → w.content_len < 2 ^ 64
      → pixel info i j (blit info w memory (draw_frame info w buf))
        ≡ bytes_at (w.content_buf + (row * w.width + col) * 4) memory
  unfolding blit
  blit_in buf row col hr hc at_x at_y room small =
      let wide = small_signed w.width p.width_in in
      let high = small_signed w.height p.height_in in
      rows_in info w memory i j fits hi hj (content_x w) (content_y w) _ 0 row col _
        (λ s d l u c.
          reach_iff s d row col at_x at_y (rw (← high) (omega (arith, u))) (rw (← wide) c))
        (omega arith) (rw high (omega (arith, hr))) (rw wide hc) room small

  -- A pixel in the content's area shows the pixel of the content there, when the content is long enough.
  pub composite_window-content :
      (buf : Offscreen) (row col : ℕ)
      → w.visible ≡ true
      → w.content_buf ≢ 0
      → row < w.height
      → col < w.width
      → pos i ≡ w.x +ℤ pos (col + 2)
      → pos j ≡ w.y +ℤ pos (row + 24)
      → (row * w.width + col) * 4 + 4 ≤ w.content_len
      → w.content_len < 2 ^ 64
      → pixel info i j (composite_window info memory w buf)
        ≡ bytes_at (w.content_buf + (row * w.width + col) * 4) memory
  unfolding no_content
  composite_window-content buf row col shown here hr hc at_x at_y room small =
      let content : no_content ≡ false = ground (arith, here, room) in
      ap (pixel info i j) (shown_eq buf shown ∙ if_false no_content _ _ content)
      ∙ blit_in buf row col hr hc at_x at_y room small
