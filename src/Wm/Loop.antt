-- ===== src/Wm/Loop.antt =====
-- wm/src/lib.rs: start and main loop of the window manager. The outcome of get_framebuffer_info, the
-- events that poll_input returns until it has none, and the windows' memory are arguments; fb_commit
-- gets the off-screen buffer of each turn, and nanosleep changes nothing here.
pub mod Laws
use flutter_os.Prelude.{ℕ, ◌+◌, ◌/◌, Bool, true, false, Option, none, some, List, [], ◌∷◌}
use flutter_os.Prelude.Int.{ℤ, pos, negsuc, sub_ℕ, ◌-ℤ◌, signed32, wrap32}
use flutter_os.Input.Event.{InputEvent}
use flutter_os.Wm.Cursor
use flutter_os.Wm.Cursor.{Cursor}
use flutter_os.Wm.Cursor.Draw
use flutter_os.Wm.Window
use flutter_os.Wm.Window.{create}
use flutter_os.Wm.Router
use flutter_os.Wm.Router.{Desktop, process_event}
use flutter_os.Wm.Compositor
use flutter_os.Wm.Compositor.{Compositor, FramebufferInfo, Offscreen, composite}

pub record WmState : Type 0 where
  pub compositor : Compositor
  pub desktop : Desktop
  pub running : Bool

unfoldable pub start : WmState
start = record {
  compositor = Compositor.new;
  desktop = record { drag = Router.new; cursor = Cursor.new; windows = Window.new };
  running = false;
}

-- i32 division by 2.
unfoldable pub half : ℤ → ℤ
half (pos n) = pos (n / 2)
half (negsuc n) = sub_ℕ 0 ((n + 1) / 2)

-- "AeroOS WM"
abbrev pub test_title : List ℕ
test_title = 65 ∷ 101 ∷ 114 ∷ 111 ∷ 79 ∷ 83 ∷ 32 ∷ 87 ∷ 77 ∷ []

unfoldable pub init : Bool → ℤ → FramebufferInfo → WmState → Option ℤ × WmState
init skeleton ret info wm =
    let (failed, compositor) = Compositor.init skeleton ret info wm.compositor in
    let width = signed32 compositor.fb_info.width in
    let height = signed32 compositor.fb_info.height in
    let windows =
      (create wm.desktop.windows (record {
        at_x = half (wrap32 (width -ℤ pos 320));
        at_y = half (wrap32 (height -ℤ pos 200));
        content_width = 320;
        content_height = 200;
        name = test_title;
        buf = 0;
        len = 0;
      })).1 in
    elim failed [
      | some e ↦ (some e, record wm { compositor = compositor })
      | none ↦ (
        none,
        record {
          compositor = compositor;
          desktop = record wm.desktop {
            cursor = record wm.desktop.cursor { x = half width; y = half height };
            windows = windows;
          };
          running = true;
        },
      )
    ]

-- The inner loop, over the events that are there.
unfoldable pub drain : ℕ → ℕ → List InputEvent → Desktop → Desktop
drain fb_w fb_h [] d = d
drain fb_w fb_h (e ∷ events) d = drain fb_w fb_h events (process_event d e fb_w fb_h).1

-- A turn of the loop: the state, and the buffer that is committed.
unfoldable pub turn : (ℕ → ℕ) → ℕ → ℕ → List InputEvent → WmState × Offscreen → WmState × Offscreen
turn memory fb_w fb_h events (wm, buf) =
    let d = drain fb_w fb_h events wm.desktop in
    let info = wm.compositor.fb_info in
    (record wm { desktop = d }, Draw.draw d.cursor info (composite info memory d.windows buf))

-- The loop for the turns whose events are given. The size of the screen is read before it.
unfoldable pub run : (ℕ → ℕ) → List (List InputEvent) → WmState × Offscreen → WmState × Offscreen
run memory [] s = s
run memory (events ∷ later) (wm, buf) =
    run memory later
      (turn memory wm.compositor.fb_info.width wm.compositor.fb_info.height events (wm, buf))
