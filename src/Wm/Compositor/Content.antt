-- ===== src/Wm/Compositor/Content.antt =====
-- Where the loops of wm/src/compositor.rs copy the content of a window to.
use flutter_os.Prelude.{
  ℕ, zero, suc, ◌+◌, ◌*◌, ◌%◌, ◌^◌, ◌≤◌, ◌<◌, ◌≡◌, refl, ◌∙◌, Bool, true, false, ◌&&◌, ◌||◌, [],
  ◌∷◌, ltb, leb, ◌==◌, if◌then◌else◌, Bool-cases, inl, inr, arith,
}
use flutter_os.Prelude.Int.{ℤ, pos, negsuc, pos_part, ◌+ℤ◌, ltb_ℤ, leb_ℤ, signed32, wrap32}
use flutter_os.Prelude.Loops.{sweep}
use flutter_os.Prelude.Raster.{bytes_at, put_four, place_in}
use flutter_os.Wm.Window.{Window}
use flutter_os.Wm.Compositor.{FramebufferInfo, Offscreen, buf_len, blit_cols, blit_row}
use flutter_os.Wm.Compositor.Pixels.{pixel, Fits, same_ℤ, place_lem}

pub narrow : (w h j : ℕ) → j < h → w * h * 4 ≤ buf_len → w < 2 ^ 31
narrow w h j hj fits = grind arith

pub narrow' : (w h i : ℕ) → i < w → w * h * 4 ≤ buf_len → h < 2 ^ 31
narrow' w h i hi fits = grind arith

module _ (info : FramebufferInfo) (w : Window) (memory : ℕ → ℕ) (i j : ℕ) (fits : Fits info)
    (hi : i < info.width) (hj : j < info.height) where
  -- A pixel of the content is copied to its place on the screen.
  copy_lem :
      (px py : ℤ) (v0 v1 v2 v3 : ℕ) (buf : Offscreen)
      → (ltb_ℤ px (pos 0) || leb_ℤ (signed32 info.width) px) ≡ false
      → (ltb_ℤ py (pos 0) || leb_ℤ (signed32 info.height) py) ≡ false
      → (let dst_off = (pos_part py * info.width + pos_part px) * 4 % 2 ^ 64 in
          pixel info i j
            (if leb (dst_off + 4) buf_len then put_four dst_off v0 v1 v2 v3 buf else buf)
          ≡ (if same_ℤ py (pos j) && same_ℤ px (pos i)
              then v0 ∷ v1 ∷ v2 ∷ v3 ∷ []
              else pixel info i j buf))
  copy_lem (negsuc x) py v0 v1 v2 v3 buf on_x on_y = absurd (ground (arith, on_x))
  copy_lem (pos x) (negsuc y) v0 v1 v2 v3 buf on_x on_y = absurd (ground (arith, on_y))
  copy_lem (pos x) (pos y) v0 v1 v2 v3 buf on_x on_y =
      let hx : x < info.width = ground (arith, on_x) in
      let hy : y < info.height = ground (arith, on_y) in
      let place = place_in info.width info.height x y hx hy in
      let whole : (y * info.width + x) * 4 % 2 ^ 64 ≡ (y * info.width + x) * 4 =
        omega (arith, place, fits) in
      let room : leb ((y * info.width + x) * 4 + 4) buf_len ≡ true = ground (arith, place, fits) in
      rw (whole, room) (place_lem info x y v0 v1 v2 v3 i j buf hi hx)

  -- Columns that are not the pixel's leave it alone.
  cols_out :
      (cx py : ℤ) (row n col : ℕ) (buf : Offscreen)
      → (ltb_ℤ py (pos 0) || leb_ℤ (signed32 info.height) py) ≡ false
      → ((d : ℕ)
          → col ≤ d
          → d < col + n
          → (same_ℤ py (pos j) && same_ℤ (wrap32 (cx +ℤ pos d)) (pos i)) ≡ false)
      → pixel info i j (blit_cols info w memory cx py row n col buf) ≡ pixel info i j buf
  unfolding blit_cols
  cols_out cx py row zero col buf on h = refl
  cols_out cx py row (suc n) col buf on h =
      let px = wrap32 (cx +ℤ pos col) in
      let rest = λ (b : Offscreen).
        cols_out cx py row n (col + 1) b on
          (λ d lo hi'. h d (omega (arith, lo)) (omega (arith, hi'))) in
      elim (Bool-cases (ltb_ℤ px (pos 0) || leb_ℤ (signed32 info.width) px)) [
        | inl off ↦ rw (blit_cols, off) (rest buf)
        | inr on_x ↦
            elim (Bool-cases (ltb w.content_len ((row * w.width + col) * 4 % 2 ^ 64 + 4))) [
              | inl short ↦ rw (blit_cols, on_x, short) refl
              | inr long ↦
                  rw (blit_cols, on_x, long)
                    (rest _
                      ∙ copy_lem px py _ _ _ _ buf on_x on
                      ∙ (rw (h col (omega arith) (omega arith)) refl))
            ]
      ]

  -- A column that reaches the pixel is on the screen.
  on_screen :
      (px : ℤ)
      → same_ℤ px (pos i) ≡ true
      → (ltb_ℤ px (pos 0) || leb_ℤ (signed32 info.width) px) ≡ false
  on_screen px same =
      let small : info.width < 2 ^ 31 = narrow info.width info.height j hj fits in
      let signed : signed32 info.width ≡ pos info.width = ground (arith, small) in
      rw signed (ground (arith, same, hi))

  -- The column of the pixel is copied, when the content is long enough for it.
  cols_in :
      (cx py : ℤ) (row n col at : ℕ) (buf : Offscreen)
      → (ltb_ℤ py (pos 0) || leb_ℤ (signed32 info.height) py) ≡ false
      → ((d : ℕ)
          → col ≤ d
          → d < col + n
          → (same_ℤ py (pos j) && same_ℤ (wrap32 (cx +ℤ pos d)) (pos i)) ≡ (d == at))
      → col ≤ at
      → at < col + n
      → (row * w.width + at) * 4 + 4 ≤ w.content_len
      → w.content_len < 2 ^ 64
      → pixel info i j (blit_cols info w memory cx py row n col buf)
        ≡ bytes_at (w.content_buf + (row * w.width + at) * 4) memory
  unfolding blit_cols
  cols_in cx py row zero col at buf on h lo hi' room small = absurd (omega arith)
  cols_in cx py row (suc n) col at buf on h lo hi' room small =
      let px = wrap32 (cx +ℤ pos col) in
      let whole : (row * w.width + col) * 4 % 2 ^ 64 ≡ (row * w.width + col) * 4 =
        omega (arith, room, small, lo) in
      let whole_at : (row * w.width + at) * 4 % 2 ^ 64 ≡ (row * w.width + at) * 4 =
        omega (arith, room, small) in
      let long : ltb w.content_len ((row * w.width + col) * 4 + 4) ≡ false =
        ground (arith, room, lo) in
      let now = h col (omega arith) (omega arith) in
      let later = λ (d : ℕ) (l : col + 1 ≤ d) (u : d < col + 1 + n).
        h d (omega (arith, l)) (omega (arith, u)) in
      elim (Bool-cases (col == at)) [
        | inl here ↦
            let is : col ≡ at = ground (arith, here) in
            let hit : (same_ℤ py (pos j) && same_ℤ px (pos i)) ≡ true = now ∙ here in
            let on_x = on_screen px (ground (arith, hit)) in
            rw (blit_cols, on_x, whole, long)
              (cols_out cx py row n (col + 1) _ on (λ d l u. later d l u ∙ ground (arith, is, l))
                ∙ copy_lem px py _ _ _ _ buf on_x on
                ∙ (rw (hit, is, whole_at) refl))
        | inr not_here ↦
            let above : col + 1 ≤ at = ground (arith, not_here, lo) in
            let rest = λ (b : Offscreen).
              cols_in cx py row n (col + 1) at b on later above (omega (arith, hi')) room small in
            elim (Bool-cases (ltb_ℤ px (pos 0) || leb_ℤ (signed32 info.width) px)) [
              | inl off ↦ rw (blit_cols, off) (rest buf)
              | inr on_x ↦ rw (blit_cols, on_x, whole, long) (rest _)
            ]
      ]

  abbrev pub cols : ℕ
  cols = pos_part (signed32 w.width)

  -- Whether a pixel of the content reaches the pixel of the screen.
  abbrev pub reaches : ℤ → ℤ → ℕ → ℕ → Bool
  reaches cx cy r d = same_ℤ (wrap32 (cy +ℤ pos r)) (pos j) && same_ℤ (wrap32 (cx +ℤ pos d)) (pos i)

  row_out :
      (cx cy : ℤ) (r : ℕ) (buf : Offscreen)
      → ((d : ℕ) → d < cols → reaches cx cy r d ≡ false)
      → pixel info i j (blit_row info w memory cx cy r buf) ≡ pixel info i j buf
  unfolding blit_row
  row_out cx cy r buf h =
      let py = wrap32 (cy +ℤ pos r) in
      elim (Bool-cases (ltb_ℤ py (pos 0) || leb_ℤ (signed32 info.height) py)) [
        | inl off ↦ rw off refl
        | inr on ↦ rw on (cols_out cx py r cols 0 buf on (λ d l u. h d (omega (arith, u))))
      ]

  pub rows_out :
      (cx cy : ℤ) (n r : ℕ) (buf : Offscreen)
      → ((s d : ℕ) → r ≤ s → s < r + n → d < cols → reaches cx cy s d ≡ false)
      → pixel info i j (sweep n r (blit_row info w memory cx cy) buf) ≡ pixel info i j buf
  unfolding sweep
  rows_out cx cy zero r buf h = refl
  rows_out cx cy (suc n) r buf h =
      rows_out cx cy n (r + 1) (blit_row info w memory cx cy r buf)
        (λ s d l u. h s d (omega (arith, l)) (omega (arith, u)))
      ∙ row_out cx cy r buf (λ d. h r d (omega arith) (omega arith))

  on_screen_row :
      (py : ℤ)
      → same_ℤ py (pos j) ≡ true
      → (ltb_ℤ py (pos 0) || leb_ℤ (signed32 info.height) py) ≡ false
  on_screen_row py same =
      let small : info.height < 2 ^ 31 = narrow' info.width info.height i hi fits in
      let signed : signed32 info.height ≡ pos info.height = ground (arith, small) in
      rw signed (ground (arith, same, hj))

  row_in :
      (cx cy : ℤ) (r at : ℕ) (buf : Offscreen)
      → ((d : ℕ) → d < cols → reaches cx cy r d ≡ (d == at))
      → at < cols
      → (r * w.width + at) * 4 + 4 ≤ w.content_len
      → w.content_len < 2 ^ 64
      → pixel info i j (blit_row info w memory cx cy r buf)
        ≡ bytes_at (w.content_buf + (r * w.width + at) * 4) memory
  unfolding blit_row
  row_in cx cy r at buf h hi' room small =
      let hit : reaches cx cy r at ≡ true = h at hi' ∙ ground arith in
      let on = on_screen_row (wrap32 (cy +ℤ pos r)) (ground (arith, hit)) in
      rw on (
        cols_in cx (wrap32 (cy +ℤ pos r)) r cols 0 at buf on (λ d l u. h d (omega (arith, u)))
          (omega arith) (omega (arith, hi')) room small)

  -- The content's pixel in column `at` of row `row` is copied to the screen's pixel that it reaches.
  pub rows_in :
      (cx cy : ℤ) (n r row at : ℕ) (buf : Offscreen)
      → ((s d : ℕ) → r ≤ s → s < r + n → d < cols → reaches cx cy s d ≡ ((s == row) && (d == at)))
      → r ≤ row
      → row < r + n
      → at < cols
      → (row * w.width + at) * 4 + 4 ≤ w.content_len
      → w.content_len < 2 ^ 64
      → pixel info i j (sweep n r (blit_row info w memory cx cy) buf)
        ≡ bytes_at (w.content_buf + (row * w.width + at) * 4) memory
  unfolding sweep
  rows_in cx cy zero r row at buf h lo hi' in_cols room small = absurd (omega arith)
  rows_in cx cy (suc n) r row at buf h lo hi' in_cols room small = elim (Bool-cases (r == row)) [
    | inl here ↦
        let is : r ≡ row = ground (arith, here) in
        rows_out cx cy n (r + 1) (blit_row info w memory cx cy r buf)
          (λ s d l u c. h s d (omega (arith, l)) (omega (arith, u)) c ∙ ground (arith, is, l))
        ∙ (rw is (
            row_in cx cy row at buf
              (λ d c. rw (← is) (h r d (omega arith) (omega arith) c ∙ ground (arith, here)))
              in_cols room small))
    | inr not_here ↦
        rows_in cx cy n (r + 1) row at (blit_row info w memory cx cy r buf)
          (λ s d l u. h s d (omega (arith, l)) (omega (arith, u))) (ground (arith, not_here, lo))
          (omega (arith, hi')) in_cols room small
  ]
