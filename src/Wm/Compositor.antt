-- ===== src/Wm/Compositor.antt =====
-- wm/src/compositor.rs: the off-screen buffer, which is a function from offsets to bytes, and what is
-- drawn there. Coordinates are i32 with wrap-around, offsets usize. Memory of the windows' content is
-- a function from addresses to bytes.
pub mod Pixels
pub mod Windows
pub mod Content
pub mod Screen
mod Tests
use flutter_os.Prelude.{
  ℕ, zero, suc, ◌+◌, ◌-◌, ◌*◌, ◌%◌, ◌^◌, Bool, true, false, not, ◌&&◌, ◌||◌, Option, none, some,
  List, [], ◌∷◌, ltb, leb, ◌==◌, if◌then◌else◌, length,
}
use flutter_os.Prelude.Int.{
  ℤ, pos, negsuc, pos_part, ◌+ℤ◌, ◌-ℤ◌, ltb_ℤ, leb_ℤ, max_ℤ, min_ℤ, signed32, wrap32,
}
use flutter_os.Prelude.Loops.{sweep}
use flutter_os.Prelude.Raster.{put_four}
use flutter_os.Wm.Window.{
  Window, WindowList, title_bar_height, border_width, full_width, full_height,
}
use flutter_os.Wm.Window.ZOrder.{ZOrderIter, iter_z_order, next}

pub record Color : Type 0 where
  pub r : ℕ
  pub g : ℕ
  pub b : ℕ

abbrev pub desktop : Color
desktop = record { r = 11; g = 18; b = 42 }

abbrev pub dark_bg : Color
dark_bg = record { r = 15; g = 23; b = 36 }

abbrev pub title_bar : Color
title_bar = record { r = 30; g = 41; b = 59 }

abbrev pub title_bar_active : Color
title_bar_active = record { r = 45; g = 90; b = 158 }

abbrev pub border : Color
border = record { r = 51; g = 68; b = 85 }

abbrev pub border_inactive : Color
border_inactive = record { r = 34; g = 42; b = 53 }

abbrev pub logo_active : Color
logo_active = record { r = 255; g = 191; b = 0 }

abbrev pub logo_inactive : Color
logo_inactive = record { r = 128; g = 128; b = 128 }

pub record FramebufferInfo : Type 0 where
  pub address : ℕ
  pub width : ℕ
  pub height : ℕ
  pub stride : ℕ
  pub bytes_per_pixel : ℕ
  pub format : ℕ
  pub len : ℕ

pub record Compositor : Type 0 where
  pub fb_info : FramebufferInfo
  pub initialised : Bool

abbrev pub no_framebuffer : FramebufferInfo
no_framebuffer = record {
  address = 0;
  width = 0;
  height = 0;
  stride = 0;
  bytes_per_pixel = 0;
  format = 0;
  len = 0;
}

unfoldable pub new : Compositor
new = record { fb_info = no_framebuffer; initialised = false }

-- What the feature `skeleton` puts in the place of an error.
abbrev pub skeleton_info : FramebufferInfo
skeleton_info = record {
  address = 0xFD000000;
  width = 1280;
  height = 720;
  stride = 1280;
  bytes_per_pixel = 4;
  format = 1;
  len = 1280 * 720 * 4;
}

-- `init` with the outcome of the call get_framebuffer_info; an error is the result without the feature.
unfoldable pub init : Bool → ℤ → FramebufferInfo → Compositor → Option ℤ × Compositor
init skeleton ret info c =
    if ltb_ℤ ret (pos 0)
    then (if skeleton
        then (none, record { fb_info = skeleton_info; initialised = true })
        else (some (wrap32 ret), record c { fb_info = info }))
    else (none, record { fb_info = info; initialised = true })

-- MAX_FB_WIDTH * MAX_FB_HEIGHT * BPP
abbrev pub buf_len : ℕ
buf_len = 3686400

abbrev pub Offscreen : Type 0
Offscreen = ℕ → ℕ

unfoldable pub put_pixel : FramebufferInfo → ℤ → ℤ → Color → Offscreen → Offscreen
put_pixel info x y c buf =
    let offset = (pos_part y * info.width + pos_part x) * 4 % 2 ^ 64 in
    if ltb_ℤ x (pos 0) || ltb_ℤ y (pos 0)
    then buf
    else if leb info.width (pos_part x) || leb info.height (pos_part y)
    then buf
    else if ltb buf_len (offset + 4)
    then buf
    else put_four offset c.b c.g c.r 0 buf

abbrev pub saturating_add : ℤ → ℤ → ℤ
saturating_add a b = min_ℤ (max_ℤ (a +ℤ b) (negsuc (2 ^ 31 - 1))) (pos (2 ^ 31 - 1))

-- The length of `a..b`.
abbrev pub span : ℤ → ℤ → ℕ
span a b = pos_part (b -ℤ a)

unfoldable pub fill_rect : FramebufferInfo → ℤ → ℤ → ℕ → ℕ → Color → Offscreen → Offscreen
fill_rect info x y w h c buf =
    let x_end = saturating_add x (signed32 w) in
    let y_end = saturating_add y (signed32 h) in
    sweep (span y y_end) 0
      (λ dy. sweep (span x x_end) 0 (λ dx. put_pixel info (x +ℤ pos dx) (y +ℤ pos dy) c)) buf

unfoldable pub draw_rect_outline : FramebufferInfo → ℤ → ℤ → ℕ → ℕ → Color → Offscreen → Offscreen
draw_rect_outline info x y w h c buf =
    let top = fill_rect info x y w 1 c buf in
    let bottom = fill_rect info x (wrap32 (wrap32 (y +ℤ signed32 h) -ℤ pos 1)) w 1 c top in
    let left = fill_rect info x y 1 h c bottom in
    fill_rect info (wrap32 (wrap32 (x +ℤ signed32 w) -ℤ pos 1)) y 1 h c left

unfoldable pub draw_title_text : FramebufferInfo → Window → Offscreen → Offscreen
draw_title_text info w buf =
    fill_rect info (wrap32 (w.x +ℤ pos 4)) (wrap32 (w.y +ℤ pos 6)) 12 12
      (if w.focused then logo_active else logo_inactive) buf

-- The loop over the columns of a row of the content, from a column on, of so many rounds.
unfoldable pub blit_cols :
    FramebufferInfo → Window → (ℕ → ℕ) → ℤ → ℤ → ℕ → ℕ → ℕ → Offscreen → Offscreen
blit_cols info w memory content_x py row zero col buf = buf
blit_cols info w memory content_x py row (suc n) col buf =
    let px = wrap32 (content_x +ℤ pos col) in
    let src_off = (row * w.width + col) * 4 % 2 ^ 64 in
    let dst_off = (pos_part py * info.width + pos_part px) * 4 % 2 ^ 64 in
    let src = w.content_buf + src_off in
    let copied =
      put_four dst_off (memory src) (memory (src + 1)) (memory (src + 2)) (memory (src + 3)) buf in
    elim (ltb_ℤ px (pos 0) || leb_ℤ (signed32 info.width) px) [
      | true ↦ blit_cols info w memory content_x py row n (col + 1) buf
      | false ↦ elim (ltb w.content_len (src_off + 4)) [
        | true ↦ buf
        | false ↦
            blit_cols info w memory content_x py row n (col + 1)
              (if leb (dst_off + 4) buf_len then copied else buf)
      ]
    ]

-- The body of the loop over the rows of the content.
unfoldable pub blit_row : FramebufferInfo → Window → (ℕ → ℕ) → ℤ → ℤ → ℕ → Offscreen → Offscreen
blit_row info w memory content_x content_y row buf =
    let py = wrap32 (content_y +ℤ pos row) in
    if ltb_ℤ py (pos 0) || leb_ℤ (signed32 info.height) py
    then buf
    else blit_cols info w memory content_x py row (pos_part (signed32 w.width)) 0 buf

abbrev pub content_x : Window → ℤ
content_x w = wrap32 (w.x +ℤ pos border_width)

abbrev pub content_y : Window → ℤ
content_y w = wrap32 (w.y +ℤ pos title_bar_height)

unfoldable pub blit : FramebufferInfo → Window → (ℕ → ℕ) → Offscreen → Offscreen
blit info w memory buf =
    sweep (pos_part (signed32 w.height)) 0 (blit_row info w memory (content_x w) (content_y w)) buf

-- The border, the title bar and the logo.
unfoldable pub draw_frame : FramebufferInfo → Window → Offscreen → Offscreen
draw_frame info w buf =
    let outline =
      draw_rect_outline info w.x w.y (full_width w) (full_height w)
        (if w.focused then border else border_inactive) buf in
    let title =
      fill_rect info (wrap32 (w.x +ℤ pos 1)) (wrap32 (w.y +ℤ pos 1))
        ((full_width w + 2 ^ 32 - 2) % 2 ^ 32) title_bar_height
        (if w.focused then title_bar_active else title_bar) outline in
    draw_title_text info w title

unfoldable pub composite_window : FramebufferInfo → (ℕ → ℕ) → Window → Offscreen → Offscreen
composite_window info memory w buf =
    let framed = draw_frame info w buf in
    if not w.visible
    then buf
    else if (w.content_buf == 0) || (w.content_len == 0)
    then fill_rect info (content_x w) (content_y w) w.width w.height dark_bg framed
    else blit info w memory framed

-- `for win in windows.iter_z_order()`, of so many rounds.
unfoldable pub each_window :
    (Window → Offscreen → Offscreen) → ℕ → ZOrderIter → Offscreen → Offscreen
each_window draw zero it buf = buf
each_window draw (suc n) it buf =
    let (w, it') = next it in
    elim w [ none ↦ buf | some win ↦ each_window draw n it' (draw win buf) ]

-- The iterator ends after as many windows as it has indices.
unfoldable pub composite : FramebufferInfo → (ℕ → ℕ) → WindowList → Offscreen → Offscreen
composite info memory windows buf =
    let it = iter_z_order windows in
    each_window (composite_window info memory) (length it.indices + 1) it
      (fill_rect info (pos 0) (pos 0) info.width info.height desktop buf)
