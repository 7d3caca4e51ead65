-- ===== src/Wm/Tests.antt =====
-- Runs of the window manager on a desktop with two overlapping windows.
use flutter_os.Prelude.{
  ℕ, ◌+◌, ◌≡◌, refl, ◌≢◌, ◌⊎◌, true, none, some, [], ◌∷◌, arith, ◌==◌, if◌then◌else◌, replicate,
}
use flutter_os.Prelude.Int.{pos, negsuc, ◌+ℤ◌, wrap32}
use flutter_os.Prelude.Slots
use flutter_os.Prelude.Slots.{live}
use flutter_os.Input.Event.{InputEvent}
use flutter_os.Wm.Window
use flutter_os.Wm.Window.{
  Window, WindowList, Request, id_of, empty, create, destroy, get, hit_test, is_hit, raise_to_top,
  set_focus, focused_id,
}
use flutter_os.Wm.Window.Laws.{IsValid, ZBelow, asked_for, create_lem}
use flutter_os.Wm.Window.Hit.{Holds, Shows, NoneShows, NoneShowsAbove, hit_test_lem}
use flutter_os.Wm.Router.{Desktop}
use flutter_os.Wm.Loop.{WmState, start, run}
use flutter_os.Wm.Loop.Laws.{run-IsValid}

abbrev back : Window
back = record empty { id = 1; width = 200; height = 100; z_order = 1; visible = true }

abbrev front : Window
front = record empty {
  id = 2;
  x = pos 50;
  y = pos 50;
  width = 200;
  height = 100;
  z_order = 2;
  visible = true;
  draggable = true;
}

abbrev two : WindowList
two = record { windows = back ∷ front ∷ replicate 14 empty; count = 2; next_id = 3; next_z = 3 }

two-IsValid : IsValid two
two-IsValid = record {
  full = refl;
  counted = unfold live empty in refl;
  fresh_id = omega arith;
  fresh_z = omega arith;
  below = unfold empty in omega arith;
  distinct = unfold empty in omega arith;
  z_below = unfold empty in omega arith;
}

get-back : get two 1 ≡ some back
unfolding get Slots.find
get-back = refl

abbrev request : Request
request = record {
  at_x = pos 10;
  at_y = negsuc 4;
  content_width = 64;
  content_height = 48;
  name = b'a' ∷ [];
  buf = 4096;
  len = 12288;
}

create_lem_example :
    let (id, l') = create two request in
    (id ≡ 3)
    × (get two id ≡ none)
    × ((j : ℕ) → j ≢ 0 → get l' j ≡ (if j == id then some (asked_for id 3 request) else get two j))
    × ZBelow 3 two.windows
    × (l'.count ≡ 2 + 1)
    × IsValid l'
create_lem_example = create_lem two request two-IsValid (omega arith) (omega arith) (omega arith)

no_windows : Window.new.count ≡ 0
unfolding Window.new
no_windows = refl

hit_test_lem_example :
    ((hit_test two (pos 60) (pos 60) ≡ 0) × NoneShows (pos 60) (pos 60) two.windows)
    ⊎ ((w : Window) × Holds w two.windows
        × Shows (pos 60) (pos 60) w
        × (hit_test two (pos 60) (pos 60) ≡ w.id)
        × NoneShowsAbove (pos 60) (pos 60) w.z_order two.windows)
hit_test_lem_example = hit_test_lem (pos 60) (pos 60) two

back_hit : is_hit (pos 60) (pos 60) back ≡ true
unfolding is_hit Window.contains_point Window.full_width Window.full_height wrap32 empty ◌+ℤ◌
back_hit = refl

-- The cursor holds window 1 five pixels right of its corner.
abbrev desktop : Desktop
desktop = record {
  drag = record { window_id = 1; offset_x = pos 5; offset_y = pos 5 };
  cursor = record { x = pos 60; y = pos 60; buttons = 1; visible = true };
  windows = two;
}

abbrev motion : InputEvent
motion = record {
  event_type = 1;
  keycode = 0;
  key_char = 0;
  key_pressed = 0;
  mouse_buttons = 1;
  mouse_dx = pos 3;
  mouse_dy = negsuc 1;
}

abbrev manager : WmState
manager = record start { desktop = desktop }

run-IsValid_example :
    IsValid
      (run
        (λ a. 0)
        ((motion ∷ motion ∷ []) ∷ (motion ∷ []) ∷ [])
        (manager, λ a. 0)).0.desktop.windows
run-IsValid_example =
    run-IsValid (λ a. 0) ((motion ∷ motion ∷ []) ∷ (motion ∷ []) ∷ []) manager (λ a. 0) two-IsValid
      (omega arith)
