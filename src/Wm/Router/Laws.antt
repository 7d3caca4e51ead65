-- ===== src/Wm/Router/Laws.antt =====
-- Clicks and drags in wm/src/input_router.rs.
use flutter_os.Prelude.{
  ℕ, ◌+◌, ◌^◌, ◌<◌, ◌≡◌, refl, ◌≢◌, inl, inr, Bool, true, false, not, ◌&&◌, some, ◌==◌, ==_iff,
  arith, Bool-cases, if_elim, ◌∙◌, ap, sym,
}
use flutter_os.Prelude.Int.{ℤ, ◌-ℤ◌, wrap32}
use flutter_os.Prelude.Slots
use flutter_os.Input.Event.{InputEvent}
use flutter_os.Wm.Cursor.{apply_delta, left_button}
use flutter_os.Wm.Window.{
  Window, WindowList, id_of, move_window, hit_test, set_focus, get, focused_id, is_hit,
  contains_point, full_width, full_height,
}
use flutter_os.Wm.Window.Laws.{IsValid}
use flutter_os.Wm.Window.Focus.{
  set_focus_lem, set_focus-IsValid, move_window-IsValid, raise_to_top-IsValid, refocused,
  focused_id-raise,
}
use flutter_os.Wm.Window.Hit.{hit_test_found, find-Holds, hit_test-raise_to_top}
use mathlib.Core.Option
use flutter_os.Wm.Router.{
  Desktop, is_dragging, stop, press, click, follow, process_mouse, process_keyboard, process_event,
}

press-IsValid :
    (d : Desktop) (hit : ℕ)
    → IsValid d.windows
    → d.windows.next_z + 1 < 2 ^ 32
    → IsValid (press d hit).windows
unfolding press
press-IsValid d hit v h =
    raise_to_top-IsValid (set_focus d.windows hit) hit (set_focus-IsValid d.windows hit v)
      (unfold set_focus in h)

abbrev OkAfter : ℕ × Desktop → Type 0
OkAfter r = IsValid r.1.windows

-- No input event breaks the window list. (The counter of z values is assumed not to wrap.)
pub process_event-IsValid :
    (d : Desktop) (e : InputEvent) (fb_width fb_height : ℕ)
    → IsValid d.windows
    → d.windows.next_z + 1 < 2 ^ 32
    → IsValid (process_event d e fb_width fb_height).1.windows
unfolding process_event process_mouse process_keyboard follow click
process_event-IsValid d e w h v z =
    if_elim OkAfter (e.event_type == 1) _ _
      (if_elim OkAfter (is_dragging d.drag) _ _
        (if_elim OkAfter (left_button _) _ _ (move_window-IsValid d.windows _ _ _ v) v)
        (if_elim OkAfter (left_button _ && not (left_button d.cursor)) _ _
          (if_elim OkAfter (hit_test d.windows _ _ == 0) _ _ (set_focus-IsValid d.windows 0 v)
            (press-IsValid _ _ v z))
          v))
      (if_elim OkAfter (e.event_type == 0) _ _ v v)

get-move :
    (l : WindowList) (id : ℕ) (x y : ℤ) (w : Window)
    → get l id ≡ some w
    → get (move_window l id x y).1 id ≡ some (record w { x = x; y = y })
unfolding get move_window
get-move l id x y w e =
    rw (e, move_window)
      (Slots.find-update_self id_of id (λ u. record u { x = x; y = y }) l.windows w e
        (Slots.find-key id_of id l.windows w e))

-- An event of a drag goes to `follow`, with the cursor moved.
dragging :
    (d : Desktop) (e : InputEvent) (fw fh : ℕ)
    → d.drag.window_id ≢ 0
    → e.event_type ≡ 1
    → process_event d e fw fh
      ≡ follow
          (record d { cursor = apply_delta d.cursor e.mouse_dx e.mouse_dy e.mouse_buttons fw fh })
unfolding process_event process_mouse is_dragging
dragging d e fw fh nz mouse = ground arith

follow_lem :
    (d : Desktop) (w : Window)
    → get d.windows d.drag.window_id ≡ some w
    → let (target, d') = follow d in
      (left_button d'.cursor ≡ true
        → (target ≡ d.drag.window_id)
          × (d'.drag ≡ d.drag)
          × (get d'.windows d.drag.window_id
              ≡ some (record w {
                x = wrap32 (d'.cursor.x -ℤ d.drag.offset_x);
                y = wrap32 (d'.cursor.y -ℤ d.drag.offset_y);
              })))
      × (left_button d'.cursor ≡ false
          → (target ≡ 0) × (is_dragging d'.drag ≡ false) × (d'.windows ≡ d.windows))
unfolding follow
follow_lem d w found = elim (Bool-cases (left_button d.cursor)) [
  | inl down ↦
      let r =
        get-move d.windows d.drag.window_id (wrap32 (d.cursor.x -ℤ d.drag.offset_x))
          (wrap32 (d.cursor.y -ℤ d.drag.offset_y)) w found in
      simp down (λ _. (refl, refl, r), λ e. cc)
  | inr up ↦ simp up (λ e. cc, λ _. (refl, unfold is_dragging stop in refl, refl))
]

-- While a drag is on and the button stays down, a mouse event moves the dragged window so that the
-- cursor keeps its place on it, and the drag goes on; when the button is up the drag ends and the
-- windows stay as they are.
pub drag_lem :
    (d : Desktop) (e : InputEvent) (fb_width fb_height : ℕ) (w : Window)
    → d.drag.window_id ≢ 0
    → get d.windows d.drag.window_id ≡ some w
    → e.event_type ≡ 1
    → let (target, d') = process_event d e fb_width fb_height in
      (left_button d'.cursor ≡ true
        → (target ≡ d.drag.window_id)
          × (d'.drag ≡ d.drag)
          × (get d'.windows d.drag.window_id
              ≡ some (record w {
                x = wrap32 (d'.cursor.x -ℤ d.drag.offset_x);
                y = wrap32 (d'.cursor.y -ℤ d.drag.offset_y);
              })))
      × (left_button d'.cursor ≡ false
          → (target ≡ 0) × (is_dragging d'.drag ≡ false) × (d'.windows ≡ d.windows))
drag_lem d e fw fh w nz found mouse = rw (dragging d e fw fh nz mouse) (
    follow_lem
      (record d { cursor = apply_delta d.cursor e.mouse_dx e.mouse_dy e.mouse_buttons fw fh }) w
      found)

refocused_hit : (px py : ℤ) (b : Bool) (w : Window) → is_hit px py (refocused b w) ≡ is_hit px py w
unfolding is_hit contains_point full_width full_height
refocused_hit px py b w = refl

module _ (d : Desktop) (v : IsValid d.windows) where
  abbrev clicked : ℕ
  clicked = hit_test d.windows d.cursor.x d.cursor.y

  module _ (nz : clicked ≢ 0) where
    target :
        (w : Window) × (get d.windows clicked ≡ some w) × (is_hit d.cursor.x d.cursor.y w ≡ true)
    target = elim (hit_test_found d.cursor.x d.cursor.y d.windows) [
      | inl (none', _) ↦ absurd (nz none')
      | inr (w, at, hit, same, id_nz, _) ↦
          (w, unfold get in rw same (find-Holds w d.windows.windows id_nz v.distinct at), hit)
    ]

    press_focus : focused_id (press d clicked).windows ≡ clicked
    unfolding press
    press_focus =
        focused_id-raise (set_focus d.windows clicked) clicked
        ∙ (set_focus_lem d.windows clicked).0 nz
        ∙ ground (arith, target.1)

    press_top : hit_test (press d clicked).windows d.cursor.x d.cursor.y ≡ clicked
    unfolding press
    press_top =
        let (w, e, hit) = target in
        hit_test-raise_to_top d.cursor.x d.cursor.y (set_focus d.windows clicked) clicked
          (refocused (clicked == clicked) w) (set_focus-IsValid d.windows clicked v)
          ((set_focus_lem d.windows clicked).2 clicked ∙ ap (Option.map (refocused _)) e)
          (refocused_hit d.cursor.x d.cursor.y (clicked == clicked) w ∙ hit)

  -- With a valid list a fresh press of the left button over a window goes to that window, which
  -- then has the focus and lies on top at the cursor; over the desktop it goes nowhere and leaves
  -- no window focused.
  pub click_lem :
      (((click d).0 ≡ clicked) × (focused_id (click d).1.windows ≡ clicked))
      × (clicked ≢ 0 → hit_test (click d).1.windows d.cursor.x d.cursor.y ≡ clicked)
  unfolding click
  click_lem = elim (Bool-cases (clicked == 0)) [
    | inl desktop ↦
        let zero' : clicked ≡ 0 = (==_iff clicked 0).0 desktop in
        simp desktop
          ((sym zero', (set_focus_lem d.windows 0).1 ∙ sym zero'), λ nz. absurd (nz zero'))
    | inr over ↦ simp over ((refl, press_focus (ground (arith, over))), λ nz. press_top nz)
  ]
