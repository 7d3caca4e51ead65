-- ===== src/Wm/Cursor/Draw.antt =====
-- Drawing of the cursor: wm/src/cursor.rs. The hotspot is the bitmap's corner.
use flutter_os.Prelude.{ℕ, ◌-◌, ◌||◌, not, List, [], ◌∷◌, ◌==◌, if◌then◌else◌, get_or}
use flutter_os.Prelude.Int.{ℤ, pos, ◌+ℤ◌, ◌-ℤ◌, wrap32}
use flutter_os.Prelude.Loops.{sweep}
use flutter_os.Wm.Cursor.{Cursor}
use flutter_os.Wm.Compositor.{Color, FramebufferInfo, Offscreen, put_pixel}

abbrev pub cursor_width : ℕ
cursor_width = 11

abbrev pub cursor_height : ℕ
cursor_height = 16

abbrev pub cursor_hotspot_x : ℤ
cursor_hotspot_x = pos 0

abbrev pub cursor_hotspot_y : ℤ
cursor_hotspot_y = pos 0

abbrev pub cursor_bitmap : List (List ℕ)
cursor_bitmap =
    (1 ∷ 0 ∷ 0 ∷ 0 ∷ 0 ∷ 0 ∷ 0 ∷ 0 ∷ 0 ∷ 0 ∷ 0 ∷ [])
    ∷ (1 ∷ 1 ∷ 0 ∷ 0 ∷ 0 ∷ 0 ∷ 0 ∷ 0 ∷ 0 ∷ 0 ∷ 0 ∷ [])
    ∷ (1 ∷ 0 ∷ 1 ∷ 0 ∷ 0 ∷ 0 ∷ 0 ∷ 0 ∷ 0 ∷ 0 ∷ 0 ∷ [])
    ∷ (1 ∷ 0 ∷ 0 ∷ 1 ∷ 0 ∷ 0 ∷ 0 ∷ 0 ∷ 0 ∷ 0 ∷ 0 ∷ [])
    ∷ (1 ∷ 0 ∷ 0 ∷ 0 ∷ 1 ∷ 0 ∷ 0 ∷ 0 ∷ 0 ∷ 0 ∷ 0 ∷ [])
    ∷ (1 ∷ 0 ∷ 0 ∷ 0 ∷ 0 ∷ 1 ∷ 0 ∷ 0 ∷ 0 ∷ 0 ∷ 0 ∷ [])
    ∷ (1 ∷ 0 ∷ 0 ∷ 0 ∷ 0 ∷ 0 ∷ 1 ∷ 0 ∷ 0 ∷ 0 ∷ 0 ∷ [])
    ∷ (1 ∷ 0 ∷ 0 ∷ 0 ∷ 0 ∷ 0 ∷ 0 ∷ 1 ∷ 0 ∷ 0 ∷ 0 ∷ [])
    ∷ (1 ∷ 0 ∷ 0 ∷ 0 ∷ 0 ∷ 0 ∷ 0 ∷ 0 ∷ 1 ∷ 0 ∷ 0 ∷ [])
    ∷ (1 ∷ 0 ∷ 0 ∷ 0 ∷ 0 ∷ 0 ∷ 0 ∷ 0 ∷ 0 ∷ 1 ∷ 0 ∷ [])
    ∷ (1 ∷ 0 ∷ 0 ∷ 0 ∷ 0 ∷ 0 ∷ 0 ∷ 0 ∷ 0 ∷ 0 ∷ 1 ∷ [])
    ∷ (1 ∷ 0 ∷ 0 ∷ 0 ∷ 0 ∷ 0 ∷ 1 ∷ 1 ∷ 1 ∷ 1 ∷ 0 ∷ [])
    ∷ (1 ∷ 0 ∷ 0 ∷ 1 ∷ 1 ∷ 0 ∷ 0 ∷ 0 ∷ 0 ∷ 0 ∷ 0 ∷ [])
    ∷ (1 ∷ 0 ∷ 1 ∷ 1 ∷ 0 ∷ 0 ∷ 0 ∷ 0 ∷ 0 ∷ 0 ∷ 0 ∷ [])
    ∷ (1 ∷ 1 ∷ 0 ∷ 0 ∷ 0 ∷ 0 ∷ 0 ∷ 0 ∷ 0 ∷ 0 ∷ 0 ∷ [])
    ∷ (1 ∷ 0 ∷ 0 ∷ 0 ∷ 0 ∷ 0 ∷ 0 ∷ 0 ∷ 0 ∷ 0 ∷ 0 ∷ [])
    ∷ []

abbrev pub black : Color
black = record { r = 0; g = 0; b = 0 }

abbrev pub white : Color
white = record { r = 255; g = 255; b = 255 }

abbrev pub marker : Color
marker = record { r = 255; g = 0; b = 255 }

-- The body of the two loops over the bitmap.
unfoldable pub draw_dot : FramebufferInfo → ℤ → ℤ → ℕ → ℕ → Offscreen → Offscreen
draw_dot info base_x base_y row col buf =
    let px = wrap32 (base_x +ℤ pos col) in
    let py = wrap32 (base_y +ℤ pos row) in
    let edge =
      (row == 0) || (col == 0) || (row == cursor_height - 1) || (col == cursor_width - 1) in
    if get_or (get_or cursor_bitmap row []) col 0 == 1
    then put_pixel info px py (if edge then black else white) buf
    else buf

unfoldable pub draw : Cursor → FramebufferInfo → Offscreen → Offscreen
draw c info buf =
    let base_x = wrap32 (c.x -ℤ cursor_hotspot_x) in
    let base_y = wrap32 (c.y -ℤ cursor_hotspot_y) in
    let arrow =
      sweep cursor_height 0
        (λ row. sweep cursor_width 0 (λ col. draw_dot info base_x base_y row col)) buf in
    if not c.visible then buf else put_pixel info c.x c.y marker arrow
