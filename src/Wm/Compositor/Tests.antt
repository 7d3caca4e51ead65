-- ===== src/Wm/Compositor/Tests.antt =====
-- Runs of the compositor with one window on a screen of 1280 times 720 pixels.
use flutter_os.Prelude.{
  ℕ, zero, suc, ◌+◌, ◌*◌, ◌<◌, ◌≡◌, ◌≢◌, refl, true, false, [], ◌∷◌, get_or, arith,
}
use flutter_os.Prelude.Int.{pos, ◌+ℤ◌}
use flutter_os.Prelude.Raster.{bytes_at}
use flutter_os.Wm.Window.{Window, WindowList, empty, contains_point, full_width, full_height}
use flutter_os.Wm.Window.ZOrder.{is_shown}
use flutter_os.Wm.Compositor.{skeleton_info, composite, desktop}
use flutter_os.Wm.Compositor.Pixels.{pixel, bytes_of}
use flutter_os.Wm.Compositor.Windows.{IsPlaced}
use flutter_os.Wm.Compositor.Screen.Order.{composite-desktop, composite-content}

abbrev picture : Window
picture = record empty {
  id = 1;
  x = pos 100;
  y = pos 50;
  width = 20;
  height = 10;
  z_order = 1;
  visible = true;
  content_buf = 4096;
  content_len = 800;
}

abbrev one_window : WindowList
one_window = record { windows = picture ∷ []; count = 1; next_id = 2; next_z = 2 }

abbrev video : ℕ → ℕ
video a = a

picture-IsPlaced : IsPlaced picture
picture-IsPlaced = record {
  left_in = omega arith;
  right_in = omega arith;
  top_in = omega arith;
  bottom_in = omega arith;
  width_in = omega arith;
  height_in = omega arith;
  logo_fits = omega arith;
}

all-IsPlaced :
    (k : ℕ)
    → is_shown (get_or one_window.windows k empty) ≡ true
    → IsPlaced (get_or one_window.windows k empty)
all-IsPlaced zero h = picture-IsPlaced
all-IsPlaced (suc k) h = absurd (unfold empty in ground (arith, h))

no_window_there :
    (k : ℕ)
    → is_shown (get_or one_window.windows k empty) ≡ true
    → contains_point (get_or one_window.windows k empty) (pos 5) (pos 5) ≡ false
no_window_there zero h = unfold contains_point full_width full_height in refl
no_window_there (suc k) h = absurd (unfold empty in ground (arith, h))

composite-desktop_example :
    pixel skeleton_info 5 5 (composite skeleton_info video one_window video) ≡ bytes_of desktop
composite-desktop_example =
    composite-desktop skeleton_info video one_window 5 5 (omega arith) (omega arith) (omega arith)
      video all-IsPlaced no_window_there

picture_alone :
    (m : ℕ)
    → is_shown (get_or one_window.windows m empty) ≡ true
    → m ≢ 0
    → contains_point (get_or one_window.windows m empty) (pos 106) (pos 77) ≡ true
    → (get_or one_window.windows m empty).z_order < 1
picture_alone zero h other inside = absurd (other refl)
picture_alone (suc m) h other inside = absurd (unfold empty in ground (arith, h))

composite-content_example :
    pixel skeleton_info 106 77 (composite skeleton_info video one_window video)
    ≡ bytes_at (4096 + (3 * 20 + 4) * 4) video
composite-content_example =
    composite-content skeleton_info video one_window 106 77 (omega arith) (omega arith)
      (omega arith) video 0 3 4 all-IsPlaced refl picture_alone (omega arith) (omega arith)
      (omega arith) (unfold ◌+ℤ◌ in refl) (unfold ◌+ℤ◌ in refl) (omega arith) (omega arith)
