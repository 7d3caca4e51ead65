-- ===== src/Wm/Router.antt =====
-- wm/src/input_router.rs: one input event at a time drives the cursor, the focus and the drag.
pub mod Laws
use flutter_os.Prelude.{
  ℕ, Bool, true, false, not, ◌&&◌, ◌||◌, Option, none, some, ◌==◌, if◌then◌else◌,
}
use flutter_os.Prelude.Int.{ℤ, pos, ◌-ℤ◌, wrap32}
use flutter_os.Input.Event.{InputEvent, event_keyboard, event_mouse}
use flutter_os.Wm.Cursor.{Cursor, apply_delta, left_button, right_button}
use flutter_os.Wm.Window.{
  WindowList, move_window, hit_test, set_focus, raise_to_top, get, focused_id, is_in_title_bar,
}

pub record DragState : Type 0 where
  pub window_id : ℕ
  pub offset_x : ℤ
  pub offset_y : ℤ

unfoldable pub new : DragState
new = record { window_id = 0; offset_x = pos 0; offset_y = pos 0 }

unfoldable pub is_dragging : DragState → Bool
is_dragging d = not (d.window_id == 0)

unfoldable pub start : ℕ → ℤ → ℤ → ℤ → ℤ → DragState
start window_id mouse_x mouse_y win_x win_y = record {
  window_id = window_id;
  offset_x = wrap32 (mouse_x -ℤ win_x);
  offset_y = wrap32 (mouse_y -ℤ win_y);
}

unfoldable pub stop : DragState → DragState
stop d = record d { window_id = 0 }

-- The router's drag state with the cursor and the windows that it drives.
pub record Desktop : Type 0 where
  pub drag : DragState
  pub cursor : Cursor
  pub windows : WindowList

-- The button went down over window `hit`: focus, raise, and start a drag on its title bar.
unfoldable pub press : Desktop → ℕ → Desktop
press d hit =
    let raised = (raise_to_top (set_focus d.windows hit) hit).1 in
    let drag' : DragState = elim (get raised hit) [
      | none ↦ d.drag
      | some w ↦
          if w.draggable && is_in_title_bar w d.cursor.x d.cursor.y
          then start hit d.cursor.x d.cursor.y w.x w.y
          else d.drag
    ] in
    record d { drag = drag'; windows = raised }

unfoldable pub click : Desktop → ℕ × Desktop
click d =
    let hit = hit_test d.windows d.cursor.x d.cursor.y in
    if hit == 0 then (0, record d { windows = set_focus d.windows 0 }) else (hit, press d hit)

unfoldable pub follow : Desktop → ℕ × Desktop
follow d =
    if left_button d.cursor
    then (
      d.drag.window_id,
      record d {
        windows =
            (move_window d.windows d.drag.window_id (wrap32 (d.cursor.x -ℤ d.drag.offset_x))
              (wrap32 (d.cursor.y -ℤ d.drag.offset_y))).1;
      },
    )
    else (0, record d { drag = stop d.drag })

unfoldable pub process_mouse : Desktop → InputEvent → ℕ → ℕ → ℕ × Desktop
process_mouse d e fb_width fb_height =
    let prev_left = left_button d.cursor in
    let d1 = record d {
      cursor = apply_delta d.cursor e.mouse_dx e.mouse_dy e.mouse_buttons fb_width fb_height;
    } in
    if is_dragging d.drag
    then follow d1
    else (if left_button d1.cursor && not prev_left
        then click d1
        else (hit_test d1.windows d1.cursor.x d1.cursor.y, d1))

unfoldable pub process_keyboard : Desktop → ℕ × Desktop
process_keyboard d = (focused_id d.windows, d)

unfoldable pub process_event : Desktop → InputEvent → ℕ → ℕ → ℕ × Desktop
process_event d e fb_width fb_height =
    if e.event_type == event_mouse
    then process_mouse d e fb_width fb_height
    else (if e.event_type == event_keyboard then process_keyboard d else (0, d))
