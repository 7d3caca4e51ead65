-- ===== src/Wm/Loop/Laws.antt =====
-- What every turn of the loop of wm/src/lib.rs keeps.
use flutter_os.Prelude.{
  ℕ, ◌+◌, ◌^◌, ◌≤◌, ◌<◌, not, ◌&&◌, List, [], ◌∷◌, ◌==◌, length, arith, if_elim,
}
use flutter_os.Prelude.Int.{ℤ}
use flutter_os.Input.Event.{InputEvent}
use flutter_os.Wm.Cursor.{left_button}
use flutter_os.Wm.Window.{WindowList, hit_test, move_window, set_focus, raise_to_top}
use flutter_os.Wm.Window.Laws.{IsValid}
use flutter_os.Wm.Router.{
  Desktop, process_event, process_mouse, process_keyboard, is_dragging, follow, click, press,
}
use flutter_os.Wm.Router.Laws.{process_event-IsValid}
use flutter_os.Wm.Loop.{WmState, drain, turn, run}

-- The z counter does not rise by more than 1.
abbrev Grows : ℕ → WindowList → Type 0
Grows z l = l.next_z ≤ z + 1

next_z-move : (l : WindowList) (id : ℕ) (x y : ℤ) → Grows l.next_z (move_window l id x y).1
unfolding move_window
next_z-move l id x y = ground (arith)

next_z-raise : (l : WindowList) (id : ℕ) → Grows l.next_z (raise_to_top l id).1
unfolding raise_to_top
next_z-raise l id = ground (arith)

next_z-press : (d : Desktop) (hit : ℕ) → Grows d.windows.next_z (press d hit).windows
unfolding press set_focus
next_z-press d hit = next_z-raise (set_focus d.windows hit) hit

next_z-process_event :
    (d : Desktop) (e : InputEvent) (fb_w fb_h : ℕ)
    → Grows d.windows.next_z (process_event d e fb_w fb_h).1.windows
unfolding process_event process_mouse process_keyboard follow click set_focus
next_z-process_event d e w h =
    let P : ℕ × Desktop → Type 0 = λ r. Grows d.windows.next_z r.1.windows in
    if_elim P (e.event_type == 1) _ _
      (if_elim P (is_dragging d.drag) _ _
        (if_elim P (left_button _) _ _ (next_z-move d.windows _ _ _) (omega arith))
        (if_elim P (left_button _ && not (left_button d.cursor)) _ _
          (if_elim P (hit_test d.windows _ _ == 0) _ _ (omega arith) (next_z-press _ _))
          (omega arith)))
      (if_elim P (e.event_type == 0) _ _ (omega arith) (omega arith))

drain-IsValid :
    (fb_w fb_h : ℕ) (events : List InputEvent) (d : Desktop)
    → IsValid d.windows
    → d.windows.next_z + length events < 2 ^ 32
    → IsValid (drain fb_w fb_h events d).windows
      × ((drain fb_w fb_h events d).windows.next_z ≤ d.windows.next_z + length events)
unfolding drain
drain-IsValid w h [] d v z = (v, omega arith)
drain-IsValid w h (e ∷ events) d v z =
    let grown = next_z-process_event d e w h in
    let (v', z') =
      drain-IsValid w h events (process_event d e w h).1
        (process_event-IsValid d e w h v (omega (arith, z))) (omega (arith, z, grown)) in
    (v', omega (arith, z', grown))

-- How many events there are in all turns.
abbrev pub total : List (List InputEvent) → ℕ
total [] = 0
total (events ∷ later) = length events + total later

-- However many events the turns of the loop take in, the window list stays valid. (The counter of z
-- values is assumed not to wrap.)
pub run-IsValid :
    (memory : ℕ → ℕ) (turns : List (List InputEvent)) (wm : WmState) (buf : ℕ → ℕ)
    → IsValid wm.desktop.windows
    → wm.desktop.windows.next_z + total turns < 2 ^ 32
    → IsValid (run memory turns (wm, buf)).0.desktop.windows
unfolding run turn
run-IsValid memory [] wm buf v z = v
run-IsValid memory (events ∷ later) wm buf v z =
    let fb = wm.compositor.fb_info in
    let (v', z') = drain-IsValid fb.width fb.height events wm.desktop v (omega (arith, z)) in
    run-IsValid memory later (record wm { desktop = drain fb.width fb.height events wm.desktop }) _
      v' (omega (arith, z, z'))
