-- ===== src/Wm/Surface.antt =====
-- wm/src/flutter_api.rs: surfaces that an application provides as windows.
use flutter_os.Prelude.{ℕ, ◌+◌, ◌*◌, Bool, true, false, List, leb, if◌then◌else◌}
use flutter_os.Prelude.Int.{ℤ}
use flutter_os.Prelude.Loops.{sweep}
use flutter_os.Prelude.Raster.{put_four}
use flutter_os.Wm.Window.{WindowList, create}
use flutter_os.Wm.Compositor.{Color}

pub record FlutterSurface : Type 0 where
  pub buffer : ℕ
  pub buffer_len : ℕ
  pub width : ℕ
  pub height : ℕ
  pub dirty : Bool

unfoldable pub empty : FlutterSurface
empty = record { buffer = 0; buffer_len = 0; width = 0; height = 0; dirty = false }

unfoldable pub register : WindowList → ℤ → ℤ → FlutterSurface → List ℕ → ℕ × WindowList
register windows x y surface title = create windows (record {
  at_x = x;
  at_y = y;
  content_width = surface.width;
  content_height = surface.height;
  name = title;
  buf = surface.buffer;
  len = surface.buffer_len;
})

unfoldable pub mark_dirty : FlutterSurface → FlutterSurface
mark_dirty s = record s { dirty = true }

unfoldable pub clear_dirty : FlutterSurface → FlutterSurface
clear_dirty s = record s { dirty = false }

-- The buffer is its bytes by offset, and has a length.
unfoldable pub fill_test_content : ℕ → ℕ → ℕ → Color → (ℕ → ℕ) → ℕ → ℕ
fill_test_content len width height c buf =
    sweep height 0
      (λ y. sweep width 0 (λ x b.
        let offset = y * (width * 4) + x * 4 in
        if leb (offset + 4) len then put_four offset c.b c.g c.r 0 b else b))
      buf
